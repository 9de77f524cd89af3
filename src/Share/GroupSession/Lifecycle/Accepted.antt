-- ===== src/Share/GroupSession/Lifecycle/Accepted.antt =====
-- The proxy set that FRP accepted against the route table, over all interleavings.
use qurl_connector.Base.{
  ℕ, ◌+◌, ◌≤◌, ◌<◌, ◌≡◌, ◌⊎◌, inl, inr, refl, ◌∙◌, ap, sym, Bool, Option, none, some, List, Bytes,
  [], length, arith, ◌∷◌,
}
use qurl_connector.Base.Sort.{sort_by}
use qurl_connector.Share.Route.Headers.{HttpGuts}
use qurl_connector.Share.Route.Transport.{ClientCommonConfig}
use qurl_connector.Share.GroupSession.{
  GroupRoute, Table, Session, Limits, PushError, SessionError, is_live, live_entries, live_routes,
  route_before, notify,
}
use qurl_connector.Share.GroupSession.Push.{
  Snapshot, begin_push, push_accepted, record_push_failure, end_push,
}
use qurl_connector.Share.GroupSession.Update.{max_group_routes, update_table}
use qurl_connector.Share.GroupSession.Lifecycle.{
  run_ended, fail, prepare_drain, shutdown, demote, demote_all, new_session,
}
use qurl_connector.Share.GroupSession.Observe.{apply_observations}
use qurl_connector.Share.GroupSession.Lifecycle.Moves.{Moves, observe-Moves}
use qurl_connector.Share.GroupSession.Lifecycle.Steps.{
  UpdateLock, free, held, pushing, State, Step, Reach, Unwrapped, here, next,
}

-- A push on its way: it read a version that is neither newer than the table nor older than what FRP
-- accepted, and the live set if the table has not moved since.
abbrev InFlight : Session → UpdateLock → Type 0
InFlight s free = Unit
InFlight s held = Unit
InFlight s (pushing p) =
    (p.version ≤ s.version)
    × (s.pushed ≤ p.version)
    × ((p.version ≡ s.version) → p.live ≡ live_routes s)

-- While no push is owed, FRP holds exactly the live routes of the table.
pub record IsSynced (s : Session) (u : UpdateLock) : Type 0 where
  pub pushed_le : s.pushed ≤ s.version
  pub synced : (s.pushed ≡ s.version) → s.accepted ≡ live_routes s
  pub in_flight : InFlight s u

Moves-InFlight :
    (n : ℕ) (s t : Session) (u : UpdateLock) → Moves n s t → InFlight s u → InFlight t u
Moves-InFlight n s t free m f = tt
Moves-InFlight n s t held m f = tt
Moves-InFlight n s t (pushing p) m (le, pushed, live) = (
  omega (arith, m.lower),
  omega (arith, m.same_pushed),
  λ e. live (omega (arith, m.lower)) ∙ sym (m.same_live (omega (arith, m.lower))),
)

Moves-IsSynced :
    (n : ℕ) (s t : Session) (u : UpdateLock) → Moves n s t → IsSynced s u → IsSynced t u
Moves-IsSynced n s t u m i = record {
  pushed_le = omega (arith, m.lower, m.same_pushed, i.pushed_le);
  synced = λ e.
      m.same_accepted
      ∙ i.synced (omega (arith, m.lower, m.same_pushed, i.pushed_le))
      ∙ sym (m.same_live (omega (arith, m.lower, m.same_pushed, i.pushed_le)));
  in_flight = Moves-InFlight n s t u m i.in_flight;
}

live_entries-demote_all : (t : Table) → live_entries (demote_all t) ≡ live_entries t
unfolding live_entries demote_all demote is_live
live_entries-demote_all [] = refl
live_entries-demote_all ((id, e) ∷ t) = ground (arith, live_entries-demote_all t)

-- A step that leaves the version, the pushes and the live set alone.
quiet :
    (s t : Session)
    → t.version ≡ s.version
    → live_routes t ≡ live_routes s
    → t.pushed ≡ s.pushed
    → t.accepted ≡ s.accepted
    → Moves 0 s t
quiet s t v live pushed accepted = record {
  lower = omega arith;
  upper = omega arith;
  same_live = λ p. live;
  same_pushed = pushed;
  same_accepted = accepted;
}

fail-Moves : (e : SessionError) (s : Session) → Moves 0 s (fail e s)
unfolding fail live_routes
fail-Moves e s = quiet s (fail e s) refl refl refl refl

prepare_drain-Moves : (s : Session) → Moves 0 s (prepare_drain s)
unfolding prepare_drain live_routes
prepare_drain-Moves s = quiet s (prepare_drain s) refl refl refl refl

shutdown-Moves : (s : Session) → Moves 0 s (shutdown s)
unfolding shutdown live_routes
shutdown-Moves s = quiet s (shutdown s) refl refl refl refl

run_ended-Moves : (e : Option SessionError) (s : Session) → Moves 0 s (run_ended e s)
unfolding run_ended live_routes notify
run_ended-Moves e s =
    quiet s (run_ended e s) refl (ap (sort_by route_before) (live_entries-demote_all s.routes)) refl
      refl

module _ (sha256_hex : Bytes → Bytes) (session_id : ℕ) (guts : HttpGuts) (windows : Bool)
    (common : ClientCommonConfig) (l : Limits) where
  update_moves :
      (now : ℕ) (done : Bool) (routes : List GroupRoute) (s : Session)
      → s.version + 1 < 18446744073709551616
      → let t = (update_table sha256_hex session_id guts windows common l now done routes s).1 in
        (t ≡ s) ⊎ ((t.version ≡ s.version + 1) × (t.pushed ≡ s.pushed))
  unfolding update_table notify
  update_moves now done routes s h = ground arith

  update-IsSynced :
      (now : ℕ) (done : Bool) (routes : List GroupRoute) (s : Session)
      → s.version + 1 < 18446744073709551616
      → IsSynced s free
      → IsSynced (update_table sha256_hex session_id guts windows common l now done routes s).1 held
  update-IsSynced now done routes s h i = elim (update_moves now done routes s h) [
    | inl e ↦ rw e (record { pushed_le = i.pushed_le; synced = i.synced; in_flight = tt })
    | inr (v, p) ↦ record {
      pushed_le = omega (arith, i.pushed_le);
      synced = λ e. absurd (omega (arith, i.pushed_le));
      in_flight = tt;
    }
  ]

  begin-InFlight :
      (p : Snapshot) (s : Session)
      → begin_push s ≡ some p
      → (p.version ≡ s.version) × (p.live ≡ live_routes s)
  unfolding begin_push
  begin-InFlight p s e = (ground arith, ground arith)

  pushed_version :
      (p : Snapshot) (s : Session)
      → s.pushed ≤ p.version
      → ((push_accepted p s).version ≡ s.version)
        × ((push_accepted p s).pushed ≡ p.version)
        × ((push_accepted p s).accepted ≡ p.live)
        × (live_routes (push_accepted p s) ≡ live_routes s)
  unfolding push_accepted live_routes
  pushed_version p s h = (refl, ground arith, refl, refl)

  accepted-IsSynced :
      (p : Snapshot) (s : Session) → IsSynced s (pushing p) → IsSynced (push_accepted p s) free
  unfolding live_routes
  accepted-IsSynced p s i =
      let (le, old, live) = i.in_flight in
      let (v, pushed, set, same) = pushed_version p s old in
      record {
        pushed_le = omega arith;
        synced = λ e. set ∙ live (omega arith) ∙ sym same;
        in_flight = tt;
      }

  end-IsSynced :
      (p : Snapshot) (now : ℕ) (outcome : Option PushError) (s : Session)
      → IsSynced s (pushing p)
      → IsSynced (end_push l now outcome p s) free
  unfolding end_push record_push_failure live_routes notify
  end-IsSynced p now none s i = accepted-IsSynced p s i
  end-IsSynced p now (some e) s i = record {
    pushed_le = i.pushed_le;
    synced = i.synced;
    in_flight = tt;
  }

  Step-IsSynced :
      {s : Session} {u : UpdateLock} {t : State}
      → Step sha256_hex session_id guts windows common l s u t
      → s.version + (max_group_routes + 2) < 18446744073709551616
      → IsSynced s u
      → IsSynced t.session t.lock
  Step-IsSynced {s} {u} (Step.observes now os few) h i =
      Moves-IsSynced (length os + 1) s (apply_observations l now os s).0 u
        (observe-Moves l now os s (omega arith)) i
  Step-IsSynced {s} {u} (Step.fails e) h i = Moves-IsSynced 0 s (fail e s) u (fail-Moves e s) i
  Step-IsSynced {s} (Step.updates now done routes) h i =
      update-IsSynced now done routes s (omega arith) i
  Step-IsSynced Step.locks h i = record {
    pushed_le = i.pushed_le;
    synced = i.synced;
    in_flight = tt;
  }
  Step-IsSynced Step.unlocks h i = record {
    pushed_le = i.pushed_le;
    synced = i.synced;
    in_flight = tt;
  }
  Step-IsSynced {s} (Step.begins p e) h i =
      let (v, live) = begin-InFlight p s e in
      record {
        pushed_le = i.pushed_le;
        synced = i.synced;
        in_flight = (omega arith, omega (arith, i.pushed_le), λ q. live);
      }
  Step-IsSynced {s} (Step.ends p now outcome) h i = end-IsSynced p now outcome s i
  Step-IsSynced {s} Step.drains h i =
      Moves-IsSynced 0 s (prepare_drain s) free (prepare_drain-Moves s) i
  Step-IsSynced {s} {u} Step.shuts_down h i = Moves-IsSynced 0 s (shutdown s) u (shutdown-Moves s) i
  Step-IsSynced {s} {u} (Step.run_ends e) h i =
      Moves-IsSynced 0 s (run_ended e s) u (run_ended-Moves e s) i

  Reach-IsSynced :
      {first t : State} (r : Reach sha256_hex session_id guts windows common l first t)
      → Unwrapped sha256_hex session_id guts windows common l r
      → IsSynced first.session first.lock
      → IsSynced t.session t.lock
  Reach-IsSynced here w i = i
  Reach-IsSynced (next r st) w i = Step-IsSynced st w.1 (Reach-IsSynced r w.0 i)

  new_session-IsSynced :
      (now : ℕ) (routes : List GroupRoute)
      → IsSynced (new_session sha256_hex session_id l now routes) free
  unfolding new_session live_routes
  new_session-IsSynced now routes = record {
    pushed_le = omega arith;
    synced = λ e. refl;
    in_flight = tt;
  }

  -- Whatever interleaving of scans, updates, pushes and endings a new session goes through, while its
  -- 64-bit version does not wrap: no push is counted that the table has not made, and whenever none
  -- is owed, FRP has last accepted exactly the live routes of the table, in route order.
  pub accepted_when_pushed :
      (now : ℕ) (routes : List GroupRoute) {t : State}
      (r : Reach sha256_hex session_id guts windows common l
        (record { session = new_session sha256_hex session_id l now routes; lock = free })
        t)
      → Unwrapped sha256_hex session_id guts windows common l r
      → IsSynced t.session t.lock
  accepted_when_pushed now routes r w = Reach-IsSynced r w (new_session-IsSynced now routes)
