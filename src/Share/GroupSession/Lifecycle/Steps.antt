-- ===== src/Share/GroupSession/Lifecycle/Steps.antt =====
-- The interleavings of one FRP session group's goroutines, as steps between its critical sections.
use qurl_connector.Base.{ℕ, ◌+◌, ◌≤◌, ◌<◌, ◌≡◌, Bool, Option, some, List, Bytes, length}
use qurl_connector.Share.Route.Headers.{HttpGuts}
use qurl_connector.Share.Route.Transport.{ClientCommonConfig}
use qurl_connector.Share.GroupSession.{GroupRoute, Session, SessionError, Limits, PushError}
use qurl_connector.Share.GroupSession.Status.{Observation}
use qurl_connector.Share.GroupSession.Observe.{apply_observations}
use qurl_connector.Share.GroupSession.Push.{Snapshot, begin_push, end_push}
use qurl_connector.Share.GroupSession.Update.{max_group_routes, update_table}
use qurl_connector.Share.GroupSession.Lifecycle.{run_ended, fail, prepare_drain, shutdown}

-- Who holds `updateMu`: nobody, a pusher that has not read the table, or one that has.
pub data UpdateLock : Type 0 where
  free held : UpdateLock
  pushing : Snapshot → UpdateLock

pub record State : Type 0 where
  pub session : Session
  pub lock : UpdateLock

module _ (sha256_hex : Bytes → Bytes) (session_id : ℕ) (guts : HttpGuts) (windows : Bool)
    (common : ClientCommonConfig) (l : Limits) where
  -- One critical section of `mu`. The observations are those of a scan of at most 2000 routes, taken
  -- at any earlier table; FRP's answers, the clock and the callers choose the rest.
  pub data Step (s : Session) : UpdateLock → State → Type 0 where
    observes :
        {u : UpdateLock} (now : ℕ) (os : List Observation)
        → length os ≤ max_group_routes
        → Step s u (record { session = (apply_observations l now os s).0; lock = u })
    fails : {u : UpdateLock} (e : SessionError) → Step s u (record { session = fail e s; lock = u })
    updates :
        (now : ℕ) (done : Bool) (routes : List GroupRoute)
        → Step s free (record {
          session = (update_table sha256_hex session_id guts windows common l now done routes s).1;
          lock = held;
        })
    locks : Step s free (record { session = s; lock = held })
    unlocks : Step s held (record { session = s; lock = free })
    begins :
        (p : Snapshot)
        → begin_push s ≡ some p
        → Step s held (record { session = s; lock = pushing p })
    ends :
        (p : Snapshot) (now : ℕ) (outcome : Option PushError)
        → Step s (pushing p) (record { session = end_push l now outcome p s; lock = free })
    drains : Step s free (record { session = prepare_drain s; lock = free })
    shuts_down : {u : UpdateLock} → Step s u (record { session = shutdown s; lock = u })
    run_ends :
        {u : UpdateLock} (err : Option SessionError)
        → Step s u (record { session = run_ended err s; lock = u })

  -- The states that a session reaches from a first one, the last step outermost.
  pub data Reach (first : State) : State → Type 0 where
    here : Reach first first
    next : {t u : State} → Reach first t → Step t.session t.lock u → Reach first u

  -- The 64-bit version has room for one more step at every state on the way.
  abbrev pub Unwrapped : {first t : State} → Reach first t → Type 0
  Unwrapped here = Unit
  Unwrapped (next {t = t} r st) =
      Unwrapped r × (t.session.version + (max_group_routes + 2) < 18446744073709551616)
