-- ===== src/Agentstate/RefreshMarker/Members.antt =====
-- refresh_marker.go: the members of the marker's JSON object, read by decodeRefreshMarker and written by
-- json.Marshal.
use qurl_connector.Base.{
  ℕ, Bool, true, false, not, ◌&&◌, ◌||◌, Option, none, some, List, [], ◌∷◌, Bytes, bytes_eq, codes,
  ◌==◌, ltb, is_empty, any, all, if◌then◌else◌,
}
use qurl_connector.Base.Int.{ℤ, pos, negsuc, eqb_ℤ, leb_ℤ, max_int64}
use qurl_connector.Agentstate.RefreshMarker.{
  RefreshMarker, zero_marker, refresh_marker_version, legacy_refresh_marker_version, normalised,
  valid_content,
}

-- A value of a JSON object, as far as the code's decoding tells values apart. A number is an integer.
pub data Json : Type 0 where
  number : ℤ → Json
  text : Bytes → Json
  null : Json
  other : Json

unfoldable pub in_int64 : ℤ → Bool
in_int64 n = leb_ℤ n (pos max_int64) && leb_ℤ (negsuc max_int64) n

-- `decoder.Decode(&field)`: null leaves the field as it is.
unfoldable pub decode_int64 : Json → ℤ → Option ℤ
decode_int64 (number n) old = if in_int64 n then some n else none
decode_int64 (text s) old = none
decode_int64 null old = some old
decode_int64 other old = none

unfoldable pub decode_uint32 : Json → ℕ → Option ℕ
decode_uint32 (number (pos n)) old = if ltb n 4294967296 then some n else none
decode_uint32 (number (negsuc n)) old = none
decode_uint32 (text s) old = none
decode_uint32 null old = some old
decode_uint32 other old = none

unfoldable pub decode_text : Json → Bytes → Option Bytes
decode_text (number n) old = none
decode_text (text s) old = some s
decode_text null old = some old
decode_text other old = none

abbrev pub with_version : RefreshMarker → Option ℤ → Option RefreshMarker
with_version m none = none
with_version m (some v) = some (record m { version = v })

abbrev pub with_reason : RefreshMarker → Option Bytes → Option RefreshMarker
with_reason m none = none
with_reason m (some v) = some (record m { reason = v })

abbrev pub with_attempts : RefreshMarker → Option ℕ → Option RefreshMarker
with_attempts m none = none
with_attempts m (some v) = some (record m { attempt_count = v })

abbrev pub with_started : RefreshMarker → Option ℤ → Option RefreshMarker
with_started m none = none
with_started m (some v) = some (record m { started_at_unix = v })

abbrev pub with_last : RefreshMarker → Option ℤ → Option RefreshMarker
with_last m none = none
with_last m (some v) = some (record m { last_attempt_unix_milli = v })

abbrev pub with_next : RefreshMarker → Option ℤ → Option RefreshMarker
with_next m none = none
with_next m (some v) = some (record m { next_attempt_unix_milli = v })

abbrev pub with_succeeded : RefreshMarker → Option ℤ → Option RefreshMarker
with_succeeded m none = none
with_succeeded m (some v) = some (record m { refresh_succeeded_unix_milli = v })

-- The names of the fields.
abbrev pub version_key : Bytes
version_key = codes "version"

abbrev pub reason_key : Bytes
reason_key = codes "reason"

abbrev pub attempts_key : Bytes
attempts_key = codes "attempt_count"

abbrev pub started_key : Bytes
started_key = codes "started_at_unix"

abbrev pub last_key : Bytes
last_key = codes "last_attempt_unix_milli"

abbrev pub next_key : Bytes
next_key = codes "next_attempt_unix_milli"

abbrev pub succeeded_key : Bytes
succeeded_key = codes "refresh_succeeded_unix_milli"

-- The `switch key` of `decodeRefreshMarker`.
unfoldable pub decode_field : RefreshMarker → Bytes → Json → Option RefreshMarker
unfolding decode_int64 decode_uint32 decode_text
decode_field m key v =
    if key == version_key
    then with_version m (decode_int64 v m.version)
    else if key == reason_key
    then with_reason m (decode_text v m.reason)
    else if key == attempts_key
    then with_attempts m (decode_uint32 v m.attempt_count)
    else if key == started_key
    then with_started m (decode_int64 v m.started_at_unix)
    else if key == last_key
    then with_last m (decode_int64 v m.last_attempt_unix_milli)
    else if key == next_key
    then with_next m (decode_int64 v m.next_attempt_unix_milli)
    else if key == succeeded_key
    then with_succeeded m (decode_int64 v m.refresh_succeeded_unix_milli)
    else none

unfoldable pub contains_key : Bytes → List Bytes → Bool
contains_key k seen = any (λ s. s == k) seen

abbrev pub with_seen : List Bytes → Option RefreshMarker → Option (List Bytes × RefreshMarker)
with_seen seen none = none
with_seen seen (some m) = some (seen, m)

-- One round of the loop over the object's members: the keys that it saw, and the marker.
unfoldable pub decode_member :
    Option (List Bytes × RefreshMarker) → Bytes → Json → Option (List Bytes × RefreshMarker)
unfolding contains_key decode_field
decode_member none k v = none
decode_member (some (seen, m)) k v =
    if contains_key k seen then none else with_seen (k ∷ seen) (decode_field m k v)

unfoldable pub decode_members :
    List (Bytes × Json) → Option (List Bytes × RefreshMarker) → Option (List Bytes × RefreshMarker)
unfolding decode_member
decode_members [] got = got
decode_members ((k, v) ∷ rest) got = decode_members rest (decode_member got k v)

-- The checks on the version and on the presence of the success field.
unfoldable pub valid_version : RefreshMarker → List Bytes → Bool
unfolding contains_key
valid_version m seen =
    if eqb_ℤ m.version refresh_marker_version
    then contains_key succeeded_key seen
    else eqb_ℤ m.version legacy_refresh_marker_version && not (contains_key succeeded_key seen)

unfoldable pub has_required : List Bytes → Bool
unfolding contains_key
has_required seen =
    all (λ k. contains_key k seen)
      (version_key ∷ attempts_key ∷ started_key ∷ last_key ∷ next_key ∷ [])

unfoldable pub check_members : Option (List Bytes × RefreshMarker) → Option RefreshMarker
unfolding has_required valid_version normalised valid_content
check_members none = none
check_members (some (seen, m)) =
    if not (has_required seen)
    then none
    else if not (valid_version m seen) || leb_ℤ m.started_at_unix (pos 0)
    then none
    else if valid_content (normalised m)
    then some (normalised m)
    else none

-- `decodeRefreshMarker` on the members of the one JSON object that the file holds.
unfoldable pub decode_refresh_marker : List (Bytes × Json) → Option RefreshMarker
unfolding check_members decode_members
decode_refresh_marker members = check_members (decode_members members (some ([], zero_marker)))

abbrev pub time_members : RefreshMarker → List (Bytes × Json)
time_members m =
    (attempts_key, number (pos m.attempt_count))
    ∷ (started_key, number m.started_at_unix)
    ∷ (last_key, number m.last_attempt_unix_milli)
    ∷ (next_key, number m.next_attempt_unix_milli)
    ∷ (succeeded_key, number m.refresh_succeeded_unix_milli)
    ∷ []

unfoldable pub encode_members : Bool → RefreshMarker → List (Bytes × Json)
encode_members true m = (version_key, number m.version) ∷ time_members m
encode_members false m =
    (version_key, number m.version) ∷ (reason_key, text m.reason) ∷ time_members m

-- The members that `json.Marshal` writes; an empty reason is left out.
unfoldable pub encode_refresh_marker : RefreshMarker → List (Bytes × Json)
unfolding encode_members
encode_refresh_marker m = encode_members (is_empty m.reason) m
