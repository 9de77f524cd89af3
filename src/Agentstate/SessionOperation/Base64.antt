-- ===== src/Agentstate/SessionOperation/Base64.antt =====
-- `base64.StdEncoding.Strict()` of Go's library, and the check of a 32-byte server key.
use qurl_connector.Base.{
  ℕ, ◌+◌, ◌-◌, ◌*◌, ◌/◌, ◌%◌, Bool, false, ◌&&◌, ◌||◌, Option, none, some, List, [], ◌∷◌, Bytes,
  leb, nat_beq, is_empty, if◌then◌else◌, length, bytes_beq,
}

-- The six bits of an alphabet character.
unfoldable pub sextet : ℕ → Option ℕ
sextet c =
    if leb b'A' c && leb c b'Z'
    then some (c - 65)
    else if leb b'a' c && leb c b'z'
    then some (c - 71)
    else if leb b'0' c && leb c b'9'
    then some (c + 4)
    else if nat_beq c b'+'
    then some 62
    else if nat_beq c b'/'
    then some 63
    else none

unfoldable pub letter : ℕ → ℕ
letter v =
    if leb v 25
    then v + 65
    else if leb v 51
    then v + 71
    else if leb v 61
    then v - 4
    else if nat_beq v 62
    then b'+'
    else b'/'

unfoldable pub encode : List ℕ → Bytes
unfolding letter
encode [] = []
encode (a ∷ []) = letter (a / 4) ∷ letter (a % 4 * 16) ∷ b'=' ∷ b'=' ∷ []
encode (a ∷ b ∷ []) =
    letter (a / 4) ∷ letter (a % 4 * 16 + b / 16) ∷ letter (b % 16 * 4) ∷ b'=' ∷ []
encode (a ∷ b ∷ c ∷ r) =
    letter (a / 4)
    ∷ letter (a % 4 * 16 + b / 16)
    ∷ letter (b % 16 * 4 + c / 64)
    ∷ letter (c % 64)
    ∷ encode r

-- The decoder skips line breaks.
unfoldable pub skip_breaks : Bytes → Bytes
skip_breaks [] = []
skip_breaks (c ∷ s) =
    let rest = skip_breaks s in if nat_beq c 10 || nat_beq c 13 then rest else c ∷ rest

abbrev bind2 : Option ℕ → Option ℕ → (ℕ → ℕ → Option (List ℕ)) → Option (List ℕ)
bind2 (some a) (some b) f = f a b
bind2 _ _ f = none

-- The last group: `=` ends it, and the unused bits are zero.
unfoldable pub decode_last : Option ℕ → Option ℕ → ℕ → ℕ → Option (List ℕ)
unfolding sextet
decode_last a b y z = bind2 a b λ a b.
    if nat_beq y b'='
    then (if nat_beq z b'=' && nat_beq (b % 16) 0 then some ((a * 4 + b / 16) ∷ []) else none)
    else elim (sextet y) [
      | none ↦ none
      | some c ↦
          if nat_beq z b'=' && nat_beq (c % 4) 0
          then some ((a * 4 + b / 16) ∷ (b % 16 * 16 + c / 4) ∷ [])
          else none
    ]

abbrev prepend3 : ℕ → ℕ → ℕ → Option (List ℕ) → Option (List ℕ)
prepend3 a b c none = none
prepend3 a b c (some r) = some (a ∷ b ∷ c ∷ r)

-- A whole group and the decoded rest.
unfoldable pub decode_group :
    Option ℕ → Option ℕ → Option ℕ → Option ℕ → Option (List ℕ) → Option (List ℕ)
decode_group (some a) (some b) (some c) (some d) rest =
    prepend3 (a * 4 + b / 16) (b % 16 * 16 + c / 4) (c % 4 * 64 + d) rest
decode_group _ _ _ _ rest = none

unfoldable pub decode_groups : Bytes → Option (List ℕ)
unfolding sextet decode_last decode_group
decode_groups [] = some []
decode_groups (w ∷ x ∷ y ∷ z ∷ s) =
    let rest = decode_groups s in
    if is_empty s && nat_beq z b'='
    then decode_last (sextet w) (sextet x) y z
    else decode_group (sextet w) (sextet x) (sextet y) (sextet z) rest
decode_groups _ = none

unfoldable pub decode : Bytes → Option (List ℕ)
unfolding skip_breaks decode_groups
decode s = decode_groups (skip_breaks s)

-- `len(key) == 32 && EncodeToString(key) == s` on what was decoded.
unfoldable pub is_canonical_key : Bytes → Option (List ℕ) → Bool
is_canonical_key s none = false
is_canonical_key s (some key) = nat_beq (length key) 32 && bytes_beq (encode key) s

unfoldable pub valid_key : Bytes → Bool
unfolding decode is_canonical_key
valid_key s = is_canonical_key s (decode s)
