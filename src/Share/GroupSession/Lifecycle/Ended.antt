-- ===== src/Share/GroupSession/Lifecycle/Ended.antt =====
-- A session that has ended serves no route, over all interleavings.
use qurl_connector.Base.{
  ℕ, ◌≡◌, refl, Bool, true, Option, none, some, List, [], ◌∷◌, Bytes, arith, sym, subst, ◌∙◌,
}
use qurl_connector.Share.Route.Headers.{HttpGuts}
use qurl_connector.Share.Route.Transport.{ClientCommonConfig}
use qurl_connector.Share.GroupSession.{
  GroupRoute, Table, Session, Limits, PushError, SessionError, notify,
}
use qurl_connector.Share.GroupSession.Observe.{apply_observations, settle}
use qurl_connector.Share.GroupSession.Push.{Snapshot, push_accepted, record_push_failure, end_push}
use qurl_connector.Share.GroupSession.Update.{update_table}
use qurl_connector.Share.GroupSession.Status.{Observation}
use qurl_connector.Share.GroupSession.Lifecycle.{
  run_ended, fail, prepare_drain, shutdown, demote, demote_all, new_session, serving_route_ids,
}
use qurl_connector.Share.GroupSession.Lifecycle.Steps.{
  UpdateLock, free, State, Step, Reach, here, next,
}

serving_ids-demote_all :
    (s : Session) (t : Table) → serving_route_ids (record s { routes = demote_all t }) ≡ []
unfolding serving_route_ids demote_all demote
serving_ids-demote_all s [] = refl
serving_ids-demote_all s ((id, e) ∷ t) = ground (arith, serving_ids-demote_all s t)

-- The end is final: the session is stopped and serves no route.
pub record IsFinal (s : Session) : Type 0 where
  pub stopped : s.stopped ≡ true
  pub serves_none : serving_route_ids s ≡ []

Ended : Session → Type 0
Ended s = s.done_closed ≡ true → IsFinal s

run_ended-IsFinal : (e : Option SessionError) (s : Session) → IsFinal (run_ended e s)
unfolding run_ended serving_route_ids notify
run_ended-IsFinal e s = record { stopped = refl; serves_none = serving_ids-demote_all s s.routes }

-- A stopped session drops the observations of a scan that was under way.
observe_stopped :
    (l : Limits) (now : ℕ) (os : List Observation) (s : Session)
    → s.stopped ≡ true
    → (apply_observations l now os s).0 ≡ s
unfolding apply_observations
observe_stopped l now os s h = rw h refl

observe_done :
    (l : Limits) (now : ℕ) (os : List Observation) (s : Session)
    → (apply_observations l now os s).0.done_closed ≡ s.done_closed
unfolding apply_observations settle notify
observe_done l now os s = ground arith

module _ (sha256_hex : Bytes → Bytes) (session_id : ℕ) (guts : HttpGuts) (windows : Bool)
    (common : ClientCommonConfig) (l : Limits) where
  update_stopped :
      (now : ℕ) (done : Bool) (routes : List GroupRoute) (s : Session)
      → s.stopped ≡ true
      → (update_table sha256_hex session_id guts windows common l now done routes s).1 ≡ s
  unfolding update_table
  update_stopped now done routes s h = ground arith

  update_done :
      (now : ℕ) (done : Bool) (routes : List GroupRoute) (s : Session)
      → (update_table sha256_hex session_id guts windows common l now done routes s).1.done_closed
        ≡ s.done_closed
  unfolding update_table notify
  update_done now done routes s = ground arith

  end_push_keeps :
      (p : Snapshot) (now : ℕ) (outcome : Option PushError) (s : Session)
      → IsFinal s
      → IsFinal (end_push l now outcome p s)
  unfolding end_push push_accepted record_push_failure notify serving_route_ids
  end_push_keeps p now none s f = record { stopped = f.stopped; serves_none = f.serves_none }
  end_push_keeps p now (some e) s f = record { stopped = f.stopped; serves_none = f.serves_none }

  end_push_done :
      (p : Snapshot) (now : ℕ) (outcome : Option PushError) (s : Session)
      → (end_push l now outcome p s).done_closed ≡ s.done_closed
  unfolding end_push push_accepted record_push_failure notify
  end_push_done p now none s = refl
  end_push_done p now (some e) s = refl

  Step-Ended :
      {s : Session} {u : UpdateLock} {t : State}
      → Step sha256_hex session_id guts windows common l s u t
      → Ended s
      → Ended t.session
  unfolding Ended fail prepare_drain shutdown serving_route_ids
  Step-Ended {s} (Step.observes now os few) i h =
      let f = i (sym (observe_done l now os s) ∙ h) in
      subst IsFinal (sym (observe_stopped l now os s f.stopped)) f
  Step-Ended (Step.fails e) i h =
      let f = i h in record { stopped = f.stopped; serves_none = f.serves_none }
  Step-Ended {s} (Step.updates now done routes) i h =
      let f = i (sym (update_done now done routes s) ∙ h) in
      subst IsFinal (sym (update_stopped now done routes s f.stopped)) f
  Step-Ended Step.locks i h = i h
  Step-Ended Step.unlocks i h = i h
  Step-Ended (Step.begins p e) i h = i h
  Step-Ended {s} (Step.ends p now outcome) i h =
      end_push_keeps p now outcome s (i (sym (end_push_done p now outcome s) ∙ h))
  Step-Ended Step.drains i h = record { stopped = refl; serves_none = (i h).serves_none }
  Step-Ended Step.shuts_down i h = record { stopped = refl; serves_none = (i h).serves_none }
  Step-Ended {s} (Step.run_ends e) i h = run_ended-IsFinal e s

  Reach-Ended :
      {first t : State}
      → Ended first.session
      → Reach sha256_hex session_id guts windows common l first t
      → Ended t.session
  Reach-Ended i here = i
  Reach-Ended i (next r st) = Step-Ended st (Reach-Ended i r)

  new-Ended :
      (now : ℕ) (routes : List GroupRoute) → Ended (new_session sha256_hex session_id l now routes)
  unfolding Ended new_session
  new-Ended now routes h = cc

  -- Once FRP's run of a session has ended, whatever scan, update or push was under way, the session
  -- is stopped for good and reports no route as serving.
  pub ended_serves_none :
      (now : ℕ) (routes : List GroupRoute) {t : State}
      → Reach sha256_hex session_id guts windows common l
          (record { session = new_session sha256_hex session_id l now routes; lock = free })
          t
      → t.session.done_closed ≡ true
      → IsFinal t.session
  unfolding Ended
  ended_serves_none now routes r h = Reach-Ended (new-Ended now routes) r h
