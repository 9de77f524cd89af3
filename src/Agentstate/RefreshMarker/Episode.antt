-- ===== src/Agentstate/RefreshMarker/Episode.antt =====
-- The marker over one episode: requested once, then tried and confirmed any number of times
-- (refresh_marker.go).
use qurl_connector.Base.{
  ℕ, suc, ◌+◌, ◌≤◌, ◌<◌, ◌≡◌, ◌⊎◌, inl, inr, refl, Bool, true, false, Option, none, some, Bytes,
  arith, subst, nat_beq, if◌then◌else◌, ◌||◌,
}
use qurl_connector.Base.Int.{pos, ◌≤ℤ◌, scale, leb_ℤ, pos_part}
use qurl_connector.Strings.{trim_space}
use qurl_connector.Strings.Trim.{is_trimmed-trim_space}
use qurl_connector.Agentstate.RefreshMarker.{
  RefreshMarker, invalid_reason, fresh_marker, requested, attempted_marker, attempted,
  succeeded_marker, succeeded, next_count, unix_milli,
}
use qurl_connector.Agentstate.RefreshMarker.Backoff.{refresh_retry_backoff}
use qurl_connector.Agentstate.RefreshMarker.Members.{
  in_int64, decode_refresh_marker, encode_refresh_marker,
}
use qurl_connector.Agentstate.RefreshMarker.RoundTrip.{IsMarker, decode-encode}
use qurl_connector.Agentstate.RefreshMarker.Checks.{
  IsTime, IsPaced, fresh_content, attempted_content, attempt-IsPaced, unix_milli_later,
  in_int64-unix_milli, counted_next, deadline_in_range, or_left, max_range, succeeded_content,
}

-- An episode that was opened with a reason, its last reading of the clock, and the attempts made in it;
-- the clock never goes back.
pub data Episode (reason : Bytes) : ℕ → ℕ → RefreshMarker → Type 0 where
  opened :
      {now : ℕ} {m : RefreshMarker}
      → IsTime now
      → requested reason now ≡ some m
      → Episode reason now 0 m
  tried :
      {t k now : ℕ} {m n : RefreshMarker} (raw : Option ℕ)
      → Episode reason t k m
      → IsTime now
      → t ≤ now
      → attempted m now raw ≡ some n
      → Episode reason now (suc k) n
  confirmed :
      {t k now : ℕ} {m n : RefreshMarker}
      → Episode reason t k m
      → IsTime now
      → t ≤ now
      → succeeded m now ≡ some n
      → Episode reason now k n

-- What an episode keeps of its marker.
pub record Tracks (reason : Bytes) (t k : ℕ) (m : RefreshMarker) : Type 0 where
  pub marker : IsMarker m
  pub counted : m.attempt_count ≡ k
  pub reason_kept : m.reason ≡ trim_space reason
  pub started : scale m.started_at_unix 1000 ≤ℤ unix_milli t
  pub last : m.last_attempt_unix_milli ≤ℤ unix_milli t
  pub paced :
      (k ≡ 0) ⊎ IsPaced (pos_part m.last_attempt_unix_milli) (pos_part m.next_attempt_unix_milli)

requested-Tracks :
    (reason : Bytes) (now : ℕ)
    → IsTime now
    → invalid_reason (trim_space reason) ≡ false
    → Tracks reason now 0 (fresh_marker (trim_space reason) now)
unfolding in_int64
requested-Tracks reason now h good = record {
  marker = record {
    current = refl;
    started = omega (arith, h.after);
    count_range = omega arith;
    started_range = ground (arith, h.before);
    last_range = refl;
    next_range = refl;
    succeeded_range = refl;
    content = fresh_content (trim_space reason) now good (is_trimmed-trim_space reason);
  };
  counted = refl;
  reason_kept = refl;
  started = ground (arith, h.before);
  last = omega arith;
  paced = inl refl;
}

attempted-Tracks :
    (reason : Bytes) (t k now : ℕ) (m : RefreshMarker) (raw : Option ℕ)
    → Tracks reason t k m
    → IsTime now
    → t ≤ now
    → nat_beq m.attempt_count 4294967295 ≡ false
    → Tracks reason now (suc k) (attempted_marker m now raw)
unfolding in_int64
attempted-Tracks reason t k now m raw h time later free =
    let few : m.attempt_count < 4294967295 = ground (arith, h.marker.count_range, free) in
    let started : scale m.started_at_unix 1000 ≤ℤ unix_milli now =
      unix_milli_later (scale m.started_at_unix 1000) t now h.started later in
    let paced = attempt-IsPaced m now raw in
    record {
      marker = record {
        current = refl;
        started = h.marker.started;
        count_range = omega arith;
        started_range = h.marker.started_range;
        last_range = in_int64-unix_milli now (omega (arith, time.before));
        next_range =
            in_int64-unix_milli (now + refresh_retry_backoff (next_count m) raw)
              (deadline_in_range (next_count m) now raw time);
        succeeded_range = refl;
        content = attempted_content m now raw time few started h.marker.content;
      };
      counted = counted_next m.attempt_count k few h.counted;
      reason_kept = h.reason_kept;
      started = started;
      last = omega arith;
      paced = inr paced;
    }

succeeded-Tracks :
    (reason : Bytes) (t k now : ℕ) (m : RefreshMarker)
    → Tracks reason t k m
    → IsTime now
    → t ≤ now
    → (nat_beq m.attempt_count 0 || leb_ℤ m.last_attempt_unix_milli (pos 0)) ≡ false
    → Tracks reason now k (succeeded_marker m now)
succeeded-Tracks reason t k now m h time later free = record {
  marker = record {
    current = refl;
    started = h.marker.started;
    count_range = h.marker.count_range;
    started_range = h.marker.started_range;
    last_range = h.marker.last_range;
    next_range = h.marker.next_range;
    succeeded_range =
        max_range (unix_milli now) m.last_attempt_unix_milli
          (in_int64-unix_milli now (omega (arith, time.before))) h.marker.last_range;
    content =
        succeeded_content m now
          (or_left (nat_beq m.attempt_count 0) (leb_ℤ m.last_attempt_unix_milli (pos 0)) free)
          h.marker.content;
  };
  counted = h.counted;
  reason_kept = h.reason_kept;
  started = unix_milli_later (scale m.started_at_unix 1000) t now h.started later;
  last = unix_milli_later m.last_attempt_unix_milli t now h.last later;
  paced = h.paced;
}

-- What an operation writes, when it writes.
written :
    {b : Bool} {m n : RefreshMarker} → (if b then none else some m) ≡ some n → (b ≡ false) × (m ≡ n)
written {b = true} h = cc
written {b = false} h = (refl, cc)

Tracks-all :
    {reason : Bytes} {t k : ℕ} {m : RefreshMarker} → Episode reason t k m → Tracks reason t k m
unfolding requested attempted succeeded
Tracks-all {reason} {m} (opened {now} time written_it) =
    let (good, same) = written written_it in
    subst (Tracks reason now 0) same (requested-Tracks reason now time good)
Tracks-all {reason} (tried {t} {k} {now} {m} raw e time later written_it) =
    let (free, same) = written written_it in
    subst (Tracks reason now (suc k)) same
      (attempted-Tracks reason t k now m raw (Tracks-all e) time later free)
Tracks-all {reason} (confirmed {t} {k} {now} {m} e time later written_it) =
    let (free, same) = written written_it in
    subst (Tracks reason now k) same
      (succeeded-Tracks reason t k now m (Tracks-all e) time later free)

-- In an episode whose clock never goes back, every marker is one that the checks accept, with its
-- integers in range; it counts exactly the attempts made, keeps the trimmed reason, started no later than
-- the clock, and once an attempt is made its deadline lies 2.5 seconds to five minutes after the last one.
-- The members written for it decode to it again.
pub Episode-Tracks :
    {reason : Bytes} {t k : ℕ} {m : RefreshMarker}
    → Episode reason t k m
    → Tracks reason t k m × (decode_refresh_marker (encode_refresh_marker m) ≡ some m)
Episode-Tracks {m} e = let tracks = Tracks-all e in (tracks, decode-encode m tracks.marker)
