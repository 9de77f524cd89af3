-- ===== src/Agentstate/RefreshMarker/RoundTrip.antt =====
-- Decoding the members of an encoded marker (pkg/agentstate/refresh_marker.go).
use qurl_connector.Base.{
  ℕ, ◌<◌, ◌≡◌, refl, sym, ap, ◌∙◌, Bool, true, false, some, List, [], ◌∷◌, Bytes, bytes_beq, arith,
  is_empty, ltb,
}
use qurl_connector.Base.Int.{ℤ, pos, ◌<ℤ◌}
use qurl_connector.Agentstate.RefreshMarker.{
  RefreshMarker, zero_marker, refresh_marker_version, normalised, valid_content,
}
use qurl_connector.Agentstate.RefreshMarker.Members.{
  number, in_int64, decode_member, decode_members, check_members, has_required, valid_version,
  contains_key, decode_refresh_marker, encode_refresh_marker, encode_members, time_members,
  version_key, succeeded_key, next_key, last_key, started_key, attempts_key, reason_key,
}

-- A marker of the current version that the checks accept, with its integers in range.
pub record IsMarker (m : RefreshMarker) : Type 0 where
  pub current : m.version ≡ refresh_marker_version
  pub started : pos 0 <ℤ m.started_at_unix
  pub count_range : m.attempt_count < 4294967296
  pub started_range : in_int64 m.started_at_unix ≡ true
  pub last_range : in_int64 m.last_attempt_unix_milli ≡ true
  pub next_range : in_int64 m.next_attempt_unix_milli ≡ true
  pub succeeded_range : in_int64 m.refresh_succeeded_unix_milli ≡ true
  pub content : valid_content m ≡ true

-- A valid marker has a deadline wherever it has a success.
normal : (m : RefreshMarker) → valid_content m ≡ true → normalised m ≡ m
unfolding normalised valid_content
normal m h = ground arith

-- What the loop has read at the end, newest first.
abbrev keys_read : Bool → List Bytes
keys_read true = succeeded_key ∷ next_key ∷ last_key ∷ started_key ∷ attempts_key ∷ version_key ∷ []
keys_read false =
    succeeded_key ∷ next_key ∷ last_key ∷ started_key ∷ attempts_key ∷ reason_key ∷ version_key ∷ []

read_version :
    (seen : List Bytes) (m : RefreshMarker) (n : ℤ)
    → contains_key version_key seen ≡ false
    → in_int64 n ≡ true
    → decode_member (some (seen, m)) version_key (number n)
      ≡ some (version_key ∷ seen, record m { version = n })
unfolding decode_member bytes_beq
read_version seen m n fresh range = rw fresh (rw range)

read_started :
    (seen : List Bytes) (m : RefreshMarker) (n : ℤ)
    → contains_key started_key seen ≡ false
    → in_int64 n ≡ true
    → decode_member (some (seen, m)) started_key (number n)
      ≡ some (started_key ∷ seen, record m { started_at_unix = n })
unfolding decode_member bytes_beq
read_started seen m n fresh range = rw fresh (rw range)

read_last :
    (seen : List Bytes) (m : RefreshMarker) (n : ℤ)
    → contains_key last_key seen ≡ false
    → in_int64 n ≡ true
    → decode_member (some (seen, m)) last_key (number n)
      ≡ some (last_key ∷ seen, record m { last_attempt_unix_milli = n })
unfolding decode_member bytes_beq
read_last seen m n fresh range = rw fresh (rw range)

read_next :
    (seen : List Bytes) (m : RefreshMarker) (n : ℤ)
    → contains_key next_key seen ≡ false
    → in_int64 n ≡ true
    → decode_member (some (seen, m)) next_key (number n)
      ≡ some (next_key ∷ seen, record m { next_attempt_unix_milli = n })
unfolding decode_member bytes_beq
read_next seen m n fresh range = rw fresh (rw range)

read_succeeded :
    (seen : List Bytes) (m : RefreshMarker) (n : ℤ)
    → contains_key succeeded_key seen ≡ false
    → in_int64 n ≡ true
    → decode_member (some (seen, m)) succeeded_key (number n)
      ≡ some (succeeded_key ∷ seen, record m { refresh_succeeded_unix_milli = n })
unfolding decode_member bytes_beq
read_succeeded seen m n fresh range = rw fresh (rw range)

read_attempts :
    (seen : List Bytes) (m : RefreshMarker) (n : ℕ)
    → contains_key attempts_key seen ≡ false
    → ltb n 4294967296 ≡ true
    → decode_member (some (seen, m)) attempts_key (number (pos n))
      ≡ some (attempts_key ∷ seen, record m { attempt_count = n })
unfolding decode_member bytes_beq
read_attempts seen m n fresh range = rw fresh (rw range)

-- The five members that every marker has.
times_read :
    (seen : List Bytes) (z m : RefreshMarker)
    → IsMarker m
    → contains_key attempts_key seen ≡ false
    → contains_key started_key (attempts_key ∷ seen) ≡ false
    → contains_key last_key (started_key ∷ attempts_key ∷ seen) ≡ false
    → contains_key next_key (last_key ∷ started_key ∷ attempts_key ∷ seen) ≡ false
    → contains_key succeeded_key (next_key ∷ last_key ∷ started_key ∷ attempts_key ∷ seen) ≡ false
    → decode_members (time_members m) (some (seen, z))
      ≡ some (
        succeeded_key ∷ next_key ∷ last_key ∷ started_key ∷ attempts_key ∷ seen,
        record m { version = z.version; reason = z.reason },
      )
unfolding decode_members
times_read seen z m h f1 f2 f3 f4 f5 =
    let count : ltb m.attempt_count 4294967296 ≡ true = ground (arith, h.count_range) in
    let m1 : RefreshMarker = record z { attempt_count = m.attempt_count } in
    let m2 : RefreshMarker = record m1 { started_at_unix = m.started_at_unix } in
    let m3 : RefreshMarker = record m2 { last_attempt_unix_milli = m.last_attempt_unix_milli } in
    let m4 : RefreshMarker = record m3 { next_attempt_unix_milli = m.next_attempt_unix_milli } in
    rw
      (
        read_attempts seen z m.attempt_count f1 count,
        read_started (attempts_key ∷ seen) m1 m.started_at_unix f2 h.started_range,
        read_last (started_key ∷ attempts_key ∷ seen) m2 m.last_attempt_unix_milli f3 h.last_range,
        read_next (last_key ∷ started_key ∷ attempts_key ∷ seen) m3 m.next_attempt_unix_milli f4
            h.next_range,
      )
      (read_succeeded (next_key ∷ last_key ∷ started_key ∷ attempts_key ∷ seen) m4
        m.refresh_succeeded_unix_milli f5 h.succeeded_range)

empty_reason : (s : Bytes) → is_empty s ≡ true → s ≡ []
empty_reason [] h = refl
empty_reason (c ∷ s) h = cc

members_read :
    (m : RefreshMarker) (b : Bool)
    → IsMarker m
    → is_empty m.reason ≡ b
    → decode_members (encode_members b m) (some ([], zero_marker)) ≡ some (keys_read b, m)
unfolding decode_members encode_members contains_key bytes_beq
members_read m true h e =
    rw (read_version [] zero_marker m.version refl (rw h.current (unfold in_int64 in refl))) (
      times_read (version_key ∷ []) (record zero_marker { version = m.version }) m h refl refl refl
        refl refl
      ∙ ap (λ (r : Bytes). some (keys_read true, record m { reason = r }))
          (sym (empty_reason m.reason e)))
members_read m false h e =
    rw (read_version [] zero_marker m.version refl (rw h.current (unfold in_int64 in refl))) (
      times_read (reason_key ∷ version_key ∷ [])
        (record zero_marker { version = m.version; reason = m.reason }) m h refl refl refl refl
        refl)

keys_complete :
    (b : Bool) (m : RefreshMarker)
    → m.version ≡ refresh_marker_version
    → (has_required (keys_read b) ≡ true) × (valid_version m (keys_read b) ≡ true)
unfolding has_required valid_version contains_key bytes_beq
keys_complete true m h = (refl, rw h)
keys_complete false m h = (refl, rw h)

-- The members that are written for a valid marker of the current version, read back in order, decode to
-- that marker: no field is lost, added, normalised or refused.
pub decode-encode :
    (m : RefreshMarker) → IsMarker m → decode_refresh_marker (encode_refresh_marker m) ≡ some m
unfolding decode_refresh_marker encode_refresh_marker check_members
decode-encode m h =
    let (all, version) = keys_complete (is_empty m.reason) m h.current in
    rw (members_read m (is_empty m.reason) h refl)
      (ground (arith, normal m h.content, h.started, h.content))
