-- ===== src/Agentstate/RefreshMarker.antt =====
-- pkg/agentstate/refresh_marker.go: the marker of one episode of assignment recovery, its JSON fields,
-- its checks, and what each operation makes of it. A reading of the clock is in nanoseconds since 1970.
pub mod Backoff
pub mod Members
pub mod RoundTrip
pub mod Checks
pub mod Episode
pub mod Store
pub mod Seen
pub mod Schedule
pub mod Runs
use qurl_connector.Base.{
  ℕ, suc, ◌+◌, ◌-◌, ◌/◌, ◌%◌, Bool, true, false, not, ◌&&◌, ◌||◌, Option, none, some, List, [], ◌∷◌,
  ◌++◌, Bytes, bytes_eq, codes, ◌==◌, nat_beq, ltb, leb, is_empty, length, any, all, if◌then◌else◌,
}
use qurl_connector.Base.Int.{ℤ, pos, negsuc, eqb_ℤ, ltb_ℤ, leb_ℤ, max_ℤ, ◌+ℤ◌, scale, max_int64}
use qurl_connector.Strings.{is_trimmed, trim_space}
use qurl_connector.Utf8.{valid_utf8}
use Backoff.{refresh_retry_base, refresh_retry_backoff}

pub record RefreshMarker : Type 0 where
  pub version : ℤ
  pub reason : Bytes
  pub attempt_count : ℕ  -- uint32
  pub started_at_unix : ℤ
  pub last_attempt_unix_milli : ℤ
  pub next_attempt_unix_milli : ℤ
  pub refresh_succeeded_unix_milli : ℤ

abbrev pub refresh_marker_version : ℤ
refresh_marker_version = pos 3

abbrev pub legacy_refresh_marker_version : ℤ
legacy_refresh_marker_version = pos 2

abbrev pub refresh_marker_reason_max_bytes : ℕ
refresh_marker_reason_max_bytes = 256

abbrev pub refresh_marker_file_max_bytes : ℕ
refresh_marker_file_max_bytes = 4096

abbrev pub zero_marker : RefreshMarker
zero_marker = record {
  version = pos 0;
  reason = [];
  attempt_count = 0;
  started_at_unix = pos 0;
  last_attempt_unix_milli = pos 0;
  next_attempt_unix_milli = pos 0;
  refresh_succeeded_unix_milli = pos 0;
}

-- A control character in valid UTF-8: U+0000 to U+001F, U+007F to U+009F.
unfoldable pub has_control : Bytes → Bool
has_control [] = false
has_control (c ∷ []) = ltb c 32 || nat_beq c 127
has_control (c ∷ d ∷ s) =
    (ltb c 32 || (nat_beq c 127 || (nat_beq c 194 && (leb 128 d && leb d 159))))
    || has_control (d ∷ s)

-- `invalidRefreshMarkerReason`
unfoldable pub invalid_reason : Bytes → Bool
unfolding has_control
invalid_reason reason =
    not (valid_utf8 reason)
    || (ltb refresh_marker_reason_max_bytes (length reason) || has_control reason)

-- The switch to one backoff after the success, for a zero deadline of an early writer.
unfoldable pub normalised : RefreshMarker → RefreshMarker
normalised m =
    if ltb 0 m.attempt_count
      && (ltb_ℤ (pos 0) m.refresh_succeeded_unix_milli && eqb_ℤ m.next_attempt_unix_milli (pos 0))
    then record m {
      next_attempt_unix_milli =
          m.refresh_succeeded_unix_milli +ℤ pos (refresh_retry_base m.attempt_count / 1000000);
    }
    else m

-- The checks on the times of an attempted marker.
unfoldable pub valid_schedule : RefreshMarker → Bool
valid_schedule m =
    if leb_ℤ m.last_attempt_unix_milli (pos 0)
      || ltb_ℤ m.last_attempt_unix_milli (scale m.started_at_unix 1000)
    then false
    else if eqb_ℤ m.refresh_succeeded_unix_milli (pos 0)
    then not (ltb_ℤ m.next_attempt_unix_milli m.last_attempt_unix_milli)
    else not (
        ltb_ℤ m.refresh_succeeded_unix_milli m.last_attempt_unix_milli
        || ltb_ℤ m.next_attempt_unix_milli m.last_attempt_unix_milli)

-- The checks that follow the normalisation.
unfoldable pub valid_times : RefreshMarker → Bool
unfolding valid_schedule
valid_times m =
    if nat_beq m.attempt_count 0
    then eqb_ℤ m.last_attempt_unix_milli (pos 0)
      && (eqb_ℤ m.next_attempt_unix_milli (pos 0) && eqb_ℤ m.refresh_succeeded_unix_milli (pos 0))
    else valid_schedule m

unfoldable pub valid_content : RefreshMarker → Bool
unfolding valid_times invalid_reason
valid_content m = valid_times m && (not (invalid_reason m.reason) && is_trimmed m.reason)

-- `time.Now().UnixMilli()` and `time.Now().Unix()`
abbrev pub unix_milli : ℕ → ℤ
unix_milli now = pos (now / 1000000)

abbrev pub unix : ℕ → ℤ
unix now = pos (now / 1000000000)

abbrev pub fresh_marker : Bytes → ℕ → RefreshMarker
fresh_marker reason now = record zero_marker {
  version = refresh_marker_version;
  reason = reason;
  started_at_unix = unix now;
}

-- The marker of `requestRegistrationRefresh`; `none` is its refusal of the reason.
unfoldable pub requested : Bytes → ℕ → Option RefreshMarker
requested reason now =
    if invalid_reason (trim_space reason) then none else some (fresh_marker (trim_space reason) now)

abbrev pub next_count : RefreshMarker → ℕ
next_count m = (m.attempt_count + 1) % 4294967296

abbrev pub attempted_marker : RefreshMarker → ℕ → Option ℕ → RefreshMarker
attempted_marker m now raw = record m {
  attempt_count = next_count m;
  version = refresh_marker_version;
  last_attempt_unix_milli = unix_milli now;
  next_attempt_unix_milli = unix_milli (now + refresh_retry_backoff (next_count m) raw);
  refresh_succeeded_unix_milli = pos 0;
}

-- `markRegistrationRefreshAttempted`; `none` when the counter is exhausted.
unfoldable pub attempted : RefreshMarker → ℕ → Option ℕ → Option RefreshMarker
attempted m now raw =
    if nat_beq m.attempt_count 4294967295 then none else some (attempted_marker m now raw)

abbrev pub succeeded_marker : RefreshMarker → ℕ → RefreshMarker
succeeded_marker m now = record m {
  version = refresh_marker_version;
  refresh_succeeded_unix_milli = max_ℤ (unix_milli now) m.last_attempt_unix_milli;
}

-- `markRegistrationRefreshSucceeded`; `none` before an attempt.
unfoldable pub succeeded : RefreshMarker → ℕ → Option RefreshMarker
succeeded m now =
    if nat_beq m.attempt_count 0 || leb_ℤ m.last_attempt_unix_milli (pos 0)
    then none
    else some (succeeded_marker m now)
