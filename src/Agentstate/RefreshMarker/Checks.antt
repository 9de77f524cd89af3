-- ===== src/Agentstate/RefreshMarker/Checks.antt =====
-- What each operation makes of the checks on a marker (pkg/agentstate/refresh_marker.go).
use qurl_connector.Base.{
  ℕ, suc, ◌+◌, ◌/◌, ◌%◌, ◌≤◌, ◌<◌, ◌≡◌, refl, Bool, true, false, not, Option, Bytes, arith, nat_beq,
  and-true, if_both, if◌then◌else◌, ◌||◌, ◌&&◌,
}
use qurl_connector.Base.Int.{ℤ, pos, ◌≤ℤ◌, ◌<ℤ◌, scale, leb_ℤ, ltb_ℤ, eqb_ℤ, max_ℤ}
use qurl_connector.Strings.{is_trimmed}
use qurl_connector.Agentstate.RefreshMarker.{
  RefreshMarker, invalid_reason, valid_content, valid_times, valid_schedule, fresh_marker,
  attempted_marker, succeeded_marker, next_count, unix_milli,
}
use qurl_connector.Agentstate.RefreshMarker.Backoff.{
  refresh_retry_backoff, refresh_retry_base_bounds, refresh_retry_backoff_bounds,
}
use qurl_connector.Agentstate.RefreshMarker.Members.{in_int64}

-- A reading of the clock after the first second of 1970 and before the year 2255.
pub record IsTime (now : ℕ) : Type 0 where
  pub after : 1000000000 ≤ now
  pub before : now < 9000000000000000000

-- A deadline from 2.5 seconds to five minutes after the attempt, in milliseconds.
abbrev pub IsPaced : ℕ → ℕ → Type 0
IsPaced last next = (last + 2500 ≤ next) × (next ≤ last + 300000)

pub fresh_content :
    (reason : Bytes) (now : ℕ)
    → invalid_reason reason ≡ false
    → is_trimmed reason ≡ true
    → valid_content (fresh_marker reason now) ≡ true
unfolding valid_content
fresh_content reason now h k = ground arith

pending_schedule :
    (last start next : ℤ)
    → pos 0 <ℤ last
    → start ≤ℤ last
    → last ≤ℤ next
    → (if leb_ℤ last (pos 0) || ltb_ℤ last start then false else not (ltb_ℤ next last)) ≡ true
pending_schedule last start next h k l = ground arith

later_milli : (now wait : ℕ) → unix_milli now ≤ℤ unix_milli (now + wait)
later_milli now wait = omega arith

abbrev pub valid_reason : RefreshMarker → Bool
valid_reason m = not (invalid_reason m.reason) && is_trimmed m.reason

pub attempted_content :
    (m : RefreshMarker) (now : ℕ) (raw : Option ℕ)
    → IsTime now
    → m.attempt_count < 4294967295
    → scale m.started_at_unix 1000 ≤ℤ unix_milli now
    → valid_content m ≡ true
    → valid_content (attempted_marker m now raw) ≡ true
unfolding valid_content
attempted_content m now raw h few started good =
    let some_attempt : nat_beq (next_count m) 0 ≡ false = ground (arith, few) in
    let schedule =
      pending_schedule (unix_milli now) (scale m.started_at_unix 1000)
        (unix_milli (now + refresh_retry_backoff (next_count m) raw)) (omega (arith, h.after))
        started (later_milli now (refresh_retry_backoff (next_count m) raw)) in
    rw some_attempt (rw schedule (and-true (valid_times m) (valid_reason m) good).1)

pub attempt-IsPaced :
    (m : RefreshMarker) (now : ℕ) (raw : Option ℕ)
    → IsPaced (now / 1000000) ((now + refresh_retry_backoff (next_count m) raw) / 1000000)
attempt-IsPaced m now raw =
    let base = refresh_retry_base_bounds (next_count m) in
    let bounds = refresh_retry_backoff_bounds (next_count m) raw in ground (arith, base, bounds)

-- The clock goes from an earlier reading to a later one.
pub unix_milli_later : (a : ℤ) (t now : ℕ) → a ≤ℤ unix_milli t → t ≤ now → a ≤ℤ unix_milli now
unix_milli_later a t now h k = omega (arith, h, k)

pub in_int64-unix_milli : (t : ℕ) → t < 9223372036854775807 → in_int64 (unix_milli t) ≡ true
unfolding in_int64
in_int64-unix_milli t h = ground (arith, h)

pub counted_next : (n k : ℕ) → n < 4294967295 → n ≡ k → (n + 1) % 4294967296 ≡ suc k
counted_next n k few h = omega (arith, few, h)

-- The deadline is within the range of the clock.
pub deadline_in_range :
    (n now : ℕ) (raw : Option ℕ)
    → IsTime now
    → now + refresh_retry_backoff n raw < 9223372036854775807
deadline_in_range n now raw time =
    ground (arith, time.before, refresh_retry_base_bounds n, refresh_retry_backoff_bounds n raw)

-- The success is recorded no earlier than the attempt it confirms.
succeeded_schedule :
    (last start next old now : ℤ)
    → pos 0 ≤ℤ now
    → (if leb_ℤ last (pos 0) || ltb_ℤ last start
        then false
        else if eqb_ℤ old (pos 0)
        then not (ltb_ℤ next last)
        else not (ltb_ℤ old last || ltb_ℤ next last))
      ≡ true
    → (if leb_ℤ last (pos 0) || ltb_ℤ last start
        then false
        else if eqb_ℤ (max_ℤ now last) (pos 0)
        then not (ltb_ℤ next last)
        else not (ltb_ℤ (max_ℤ now last) last || ltb_ℤ next last))
      ≡ true
succeeded_schedule last start next old now h k = ground arith

else_branch : (b x : Bool) {y : Bool} → b ≡ false → (if b then x else y) ≡ true → y ≡ true
else_branch true x h k = cc
else_branch false x h k = k

has_schedule :
    (m : RefreshMarker)
    → nat_beq m.attempt_count 0 ≡ false
    → valid_times m ≡ true
    → valid_schedule m ≡ true
unfolding valid_times
has_schedule m some_attempt times = else_branch (nat_beq m.attempt_count 0) _ some_attempt times

pub or_left : (a b : Bool) → (a || b) ≡ false → a ≡ false
or_left true b h = h
or_left false b h = refl

pub max_range : (a b : ℤ) → in_int64 a ≡ true → in_int64 b ≡ true → in_int64 (max_ℤ a b) ≡ true
max_range a b h k = if_both (λ c. in_int64 c ≡ true) (ltb_ℤ a b) k h

pub succeeded_content :
    (m : RefreshMarker) (now : ℕ)
    → nat_beq m.attempt_count 0 ≡ false
    → valid_content m ≡ true
    → valid_content (succeeded_marker m now) ≡ true
unfolding valid_content
succeeded_content m now some_attempt good =
    let (times, text) = and-true (valid_times m) (valid_reason m) good in
    let schedule =
      succeeded_schedule m.last_attempt_unix_milli (scale m.started_at_unix 1000)
        m.next_attempt_unix_milli m.refresh_succeeded_unix_milli (unix_milli now) (omega arith)
        (has_schedule m some_attempt times) in
    rw some_attempt (rw schedule text)
