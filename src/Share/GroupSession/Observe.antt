-- ===== src/Share/GroupSession/Observe.antt =====
-- observe of group_frp.go, after its scan of FRP's statuses.
use qurl_connector.Base.{
  ℕ, ◌-◌, Bool, false, not, ◌&&◌, ◌||◌, Option, none, some, List, [], ◌∷◌, Bytes, bytes_eq, ◌!=◌,
  leb, ltb, nat_beq, if◌then◌else◌,
}
use qurl_connector.Base.Maps.{lookup, insert, sum_of}
use qurl_connector.Share.GroupSession.{
  Entry, Table, Session, SessionError, session_group_ended, admission_stale, Limits, is_failed,
  is_serving, is_none, phase_eq, err_text, bump64, notify,
}
use qurl_connector.Share.GroupSession.Window.{release_window, b2n}
use qurl_connector.Share.GroupSession.Status.{Observation, ProxyStatus, snapshot, scan}

-- The variables of the loop over the observations.
pub record Loop : Type 0 where
  pub routes : Table
  pub version : ℕ
  pub changed : Bool
  pub lost_proxy : Bool
  pub any_observed : Bool

-- `now.Sub(entry.lastObserved) >= groupControlRecoveryGrace` for a time that is not zero.
unfoldable pub is_lost : ℕ → ℕ → Option ℕ → Bool
is_lost grace now none = false
is_lost grace now (some at) = leb grace (now - at)

unfoldable pub next_errored_at : ℕ → Observation → Option ℕ → Option ℕ
next_errored_at now o at =
    if is_serving o.phase then none else if not (is_none o.err) && is_none at then some now else at

-- The entry after one observation.
unfoldable pub observe_entry : ℕ → Observation → Entry → Entry
unfolding next_errored_at
observe_entry now o e =
    let differs = not (phase_eq e.phase o.phase) || (err_text e.err != err_text o.err) in
    record e {
      phase = if differs then o.phase else e.phase;
      err = if differs then o.err else e.err;
      last_observed = if o.missing then e.last_observed else some now;
      errored_at = next_errored_at now o e.errored_at;
    }

-- One round of the loop.
unfoldable pub observe_one : Limits → ℕ → Observation → Loop → Loop
unfolding is_lost observe_entry
observe_one l now o s = elim (lookup o.route_id s.routes) [
  | none ↦ s
  | some e ↦
      let differs = not (phase_eq e.phase o.phase) || (err_text e.err != err_text o.err) in
      if (e.name != o.name) || is_failed e.phase then s else record {
        routes = insert o.route_id (observe_entry now o e) s.routes;
        version = if is_failed o.phase then bump64 s.version else s.version;
        changed = s.changed || differs;
        lost_proxy =
            s.lost_proxy || (o.missing && is_lost l.control_recovery_grace now e.last_observed);
        any_observed = s.any_observed || not o.missing;
      }
]

unfoldable pub observe_loop : Limits → ℕ → List Observation → Loop → Loop
observe_loop l now [] s = s
observe_loop l now (o ∷ os) s = observe_loop l now os (observe_one l now o s)

-- The routes that have not failed, and the serving ones.
unfoldable pub count_live : Table → ℕ
count_live t = sum_of (λ e. b2n (not (is_failed e.phase))) t

unfoldable pub count_serving : Table → ℕ
count_serving t = sum_of (λ e. b2n (is_serving e.phase)) t

-- The end of `observe`: the window, readiness, and the change signal.
unfoldable pub settle : Limits → ℕ → Loop → Session → Session
settle l now loop s =
    let (routes, released) = release_window l now loop.routes in
    let live = count_live routes in
    record s {
      routes = routes;
      version = if released then bump64 loop.version else loop.version;
      ready_closed = s.ready_closed || (ltb 0 live && nat_beq (count_serving routes) live);
      changes = s.changes || loop.changed;
    }

-- `observe` from its second lock on, with the observations of the scan.
unfoldable pub apply_observations :
    Limits → ℕ → List Observation → Session → Session × Option SessionError
unfolding notify settle
apply_observations l now os s =
    let loop = observe_loop l now os (record {
      routes = s.routes;
      version = s.version;
      changed = false;
      lost_proxy = false;
      any_observed = false;
    }) in
    if s.stopped
    then (s, none)
    else if loop.lost_proxy && not loop.any_observed
    then (
      notify (record s { routes = loop.routes; version = loop.version }),
      some session_group_ended,
    )
    else (settle l now loop s, none)

-- `observe` when nothing else changes the table during its scan.
unfoldable pub observe :
    Limits → ℕ → (Bytes → Option ProxyStatus) → Session → Session × Option SessionError
observe l now status s = elim ((scan status (snapshot s.routes)).1) [
  | some t ↦ (s, some admission_stale)
  | none ↦ apply_observations l now ((scan status (snapshot s.routes)).0) s
]
