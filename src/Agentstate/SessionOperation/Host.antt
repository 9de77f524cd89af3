-- ===== src/Agentstate/SessionOperation/Host.antt =====
-- `validRecoveryEndpointHost` of session_operation.go.
use qurl_connector.Base.{
  ℕ, Bool, true, false, not, ◌&&◌, ◌||◌, Option, none, some, List, [], ◌∷◌, ◌++◌, Bytes, leb,
  nat_beq, is_empty, length, all,
}
use qurl_connector.Net.{parse_ip}

-- `strings.Split(host, ".")`; `label` is what has been read of the current label.
unfoldable pub split_dots : Bytes → Bytes → List Bytes
split_dots label [] = label ∷ []
split_dots label (c ∷ s) = elim (nat_beq c b'.') [
  | true ↦ label ∷ split_dots [] s
  | false ↦ split_dots (label ++ c ∷ []) s
]

abbrev pub label_char : ℕ → Bool
label_char c = (leb b'a' c && leb c b'z') || ((leb b'0' c && leb c b'9') || nat_beq c b'-')

unfoldable pub first_is : ℕ → Bytes → Bool
first_is c [] = false
first_is c (x ∷ s) = nat_beq x c

unfoldable pub last_is : ℕ → Bytes → Bool
last_is c [] = false
last_is c (x ∷ []) = nat_beq x c
last_is c (x ∷ y ∷ s) = last_is c (y ∷ s)

unfoldable pub valid_label : Bytes → Bool
unfolding first_is last_is
valid_label label =
    not (is_empty label)
    && (leb (length label) 63
        && (not (first_is b'-' label) && (not (last_is b'-' label) && all label_char label)))

is_some {ℓ} : {A : Type ℓ} → Option A → Bool
is_some none = false
is_some (some a) = true

unfoldable pub valid_recovery_endpoint_host : Bytes → Bool
unfolding split_dots valid_label is_some parse_ip
valid_recovery_endpoint_host host =
    not (is_empty host)
    && (leb (length host) 253
        && (not (last_is b'.' host)
            && (not (is_some (parse_ip host)) && all valid_label (split_dots [] host))))
