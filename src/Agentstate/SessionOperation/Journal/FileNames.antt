-- ===== src/Agentstate/SessionOperation/Journal/FileNames.antt =====
-- session_operation.go: the names of journals and of their temporary files.
use mathlib.Core.List.{reverse}
use qurl_connector.Base.{
  ℕ, ◌+◌, ◌-◌, ◌*◌, Bool, false, not, ◌&&◌, ◌||◌, Option, none, some, [], ◌∷◌, Bytes, bytes_eq,
  ◌==◌, codes, leb, nat_beq, is_empty, length, if◌then◌else◌,
}
use qurl_connector.Strings.{cut_prefix, has_prefix, trim_prefix, trim_suffix}
use qurl_connector.Agentstate.SessionOperation.Journal.{file_prefix, file_suffix, hex}

-- One digit of `hex.DecodeString`, which reads both cases.
abbrev unhex_digit : ℕ → Option ℕ
unhex_digit c =
    if leb 48 c && leb c 57
    then some (c - 48)
    else if leb 97 c && leb c 102
    then some (c - 87)
    else if leb 65 c && leb c 70
    then some (c - 55)
    else none

with_byte : Option ℕ → Option ℕ → Option Bytes → Option Bytes
with_byte (some h) (some l) (some rest) = some ((h * 16 + l) ∷ rest)
with_byte _ _ _ = none

-- `hex.DecodeString`
unfoldable pub decode_hex : Bytes → Option Bytes
unfolding with_byte
decode_hex [] = some []
decode_hex (c ∷ []) = none
decode_hex (c ∷ d ∷ s) = with_byte (unhex_digit c) (unhex_digit d) (decode_hex s)

re_encodes_hex : Bytes → Option Bytes → Bool
unfolding hex
re_encodes_hex s none = false
re_encodes_hex s (some decoded) = hex decoded == s

-- A text of so many bytes in lower-case hexadecimal.
unfoldable pub is_hex : ℕ → Bytes → Bool
unfolding decode_hex re_encodes_hex
is_hex n s = nat_beq (length s) (n * 2) && re_encodes_hex s (decode_hex s)

-- `strings.HasSuffix`
unfoldable pub has_suffix : Bytes → Bytes → Bool
unfolding has_prefix
has_suffix p s = has_prefix (reverse p) (reverse s)

-- `validSessionOperationFileName`
unfoldable pub valid_session_operation_file_name : Bytes → Bool
unfolding is_hex has_suffix
valid_session_operation_file_name name =
    if not (has_prefix file_prefix name) || not (has_suffix file_suffix name)
    then false
    else is_hex 32 (trim_suffix file_suffix (trim_prefix file_prefix name))

-- What stands before and after the last occurrence of a marker: `strings.LastIndex` and its two slices.
later_cut : Bytes → ℕ → Option (Bytes × Bytes) → Option Bytes → Option (Bytes × Bytes)
later_cut s c (some (before, after)) here = some (c ∷ before, after)
later_cut s c none (some after) = some ([], after)
later_cut s c none none = none

unfoldable pub cut_last : Bytes → Bytes → Option (Bytes × Bytes)
unfolding later_cut
cut_last marker [] = if is_empty marker then some ([], []) else none
cut_last marker (c ∷ s) = later_cut s c (cut_last marker s) (cut_prefix marker (c ∷ s))

valid_cut : Option (Bytes × Bytes) → Bool
unfolding valid_session_operation_file_name
valid_cut none = false
valid_cut (some (before, suffix)) =
    valid_session_operation_file_name (trim_prefix (b'.' ∷ []) before) && is_hex 8 suffix

-- `validSessionOperationTemporaryFileName`
unfoldable pub valid_session_operation_temporary_file_name : Bytes → Bool
unfolding cut_last valid_cut
valid_session_operation_temporary_file_name name =
    if not (has_prefix (b'.' ∷ file_prefix) name)
    then false
    else valid_cut (cut_last (codes ".tmp-") name)
