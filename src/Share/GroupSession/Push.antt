-- ===== src/Share/GroupSession/Push.antt =====
-- The pushes of the proxy set to FRP: pushDue, pushUnderUpdateMu and recordPushFailure.
pub mod Delay
use qurl_connector.Base.{
  ℕ, zero, suc, ◌+◌, ◌*◌, ◌-◌, Bool, true, false, not, ◌&&◌, ◌||◌, Option, none, some, List, [],
  ◌∷◌, Bytes, bytes_eq, ◌==◌, ltb, leb, nat_beq, if◌then◌else◌,
}
use qurl_connector.Share.GroupSession.{
  GroupRoute, Session, Limits, PushError, notify, live_routes, is_none,
}

-- `maxPushRetryDelay`, five seconds.
abbrev pub max_push_retry_delay : ℕ
max_push_retry_delay = 5000000000

unfoldable pub push_due : ℕ → Session → Bool
push_due now s = not s.stopped && (not (nat_beq s.pushed s.version) && leb s.next_push_at now)

unfoldable pub push_owed : Session → Bool
push_owed s = not s.stopped && not (nat_beq s.pushed s.version)

-- The doubling loop of `recordPushFailure`, with the rounds that are left.
unfoldable pub double_delay : ℕ → ℕ → ℕ
double_delay zero delay = delay
double_delay (suc rounds) delay =
    double_delay rounds (if ltb delay max_push_retry_delay then delay * 2 else delay)

unfoldable pub retry_delay : ℕ → ℕ → ℕ
retry_delay poll failures =
    let delay = double_delay (failures - 1) poll in
    if ltb max_push_retry_delay delay then max_push_retry_delay else delay

-- `recordPushFailure`
unfoldable pub record_push_failure : Limits → ℕ → PushError → Session → Session
unfolding notify
record_push_failure l now e s =
    let failures = s.push_failures + 1 in
    notify (record s {
      push_err = some e;
      push_failures = failures;
      next_push_at = now + retry_delay l.poll failures;
    })

-- What a push took from the table under its first lock.
pub record Snapshot : Type 0 where
  pub version : ℕ
  pub live : List GroupRoute

unfoldable pub begin_push : Session → Option Snapshot
begin_push s =
    if s.stopped then none else some (record { version = s.version; live = live_routes s })

-- After `UpdateAllConfigurer` accepted the set.
unfoldable pub push_accepted : Snapshot → Session → Session
push_accepted p s = record s {
  pushed = if ltb s.pushed p.version then p.version else s.pushed;
  push_failures = 0;
  next_push_at = 0;
  push_err = none;
  changes = s.changes || not (is_none s.push_err);
  accepted = p.live;
}

-- The rest of `pushUnderUpdateMu`: the outcome of rendering and of FRP's update.
unfoldable pub end_push : Limits → ℕ → Option PushError → Snapshot → Session → Session
unfolding push_accepted record_push_failure
end_push l now none p s = push_accepted p s
end_push l now (some e) p s = record_push_failure l now e s
