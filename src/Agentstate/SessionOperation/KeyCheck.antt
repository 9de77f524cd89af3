-- ===== src/Agentstate/SessionOperation/KeyCheck.antt =====
-- The server key check of session_operation.go accepts exactly the canonical texts of 32 bytes.
use qurl_connector.Base.{
  ℕ, ◌+◌, ◌*◌, ◌/◌, ◌%◌, ◌<◌, ◌≡◌, ◌≢◌, ◌↔◌, refl, true, Option, none, some, List, [], ◌∷◌, Bytes,
  arith, length, All, bytes_beq, bytes_beq_iff, nat_beq, and-true, Bool-cases, is_empty,
  nat_beq_iff, sym, inl, inr, ◌&&◌,
}
use qurl_connector.Agentstate.SessionOperation.Base64.{
  sextet, letter, encode, decode, decode_groups, decode_group, decode_last, skip_breaks,
  is_canonical_key, valid_key,
}

abbrev pub IsByte : ℕ → Type 0
IsByte b = b < 256

sextet-letter : (v : ℕ) → v < 64 → sextet (letter v) ≡ some v
unfolding sextet letter
sextet-letter v h = ground arith

-- No letter is a line break or padding.
letter_plain : (v : ℕ) → v < 64 → (letter v ≢ 10) × (letter v ≢ 13) × (letter v ≢ b'=')
unfolding letter
letter_plain v h = ground arith

skip_letter : (v : ℕ) (s : Bytes) → v < 64 → skip_breaks (letter v ∷ s) ≡ letter v ∷ skip_breaks s
unfolding skip_breaks
skip_letter v s h = ground (arith, letter_plain v)

skip_padding : (s : Bytes) → skip_breaks (b'=' ∷ s) ≡ b'=' ∷ skip_breaks s
unfolding skip_breaks
skip_padding s = refl

skip-encode : (key : List ℕ) → All IsByte key → skip_breaks (encode key) ≡ encode key
unfolding encode
skip-encode [] h = unfold skip_breaks in refl
skip-encode (a ∷ []) (ha, _) =
    rw (skip_letter (a / 4) _ (omega arith), skip_letter (a % 4 * 16) _ (omega arith), skip_padding)
      (unfold skip_breaks in refl)
skip-encode (a ∷ b ∷ []) (ha, (hb, _)) =
    rw
      (
        skip_letter (a / 4) _ (omega arith),
        skip_letter (a % 4 * 16 + b / 16) _ (omega arith),
        skip_letter (b % 16 * 4) _ (omega arith),
      )
      (unfold skip_breaks in refl)
skip-encode (a ∷ b ∷ c ∷ r) (ha, (hb, (hc, hr))) = rw (
  skip_letter (a / 4) _ (omega arith),
  skip_letter (a % 4 * 16 + b / 16) _ (omega arith),
  skip_letter (b % 16 * 4 + c / 64) _ (omega arith),
  skip_letter (c % 64) _ (omega arith),
  skip-encode r hr,
)

groups-encode : (key : List ℕ) → All IsByte key → decode_groups (encode key) ≡ some key
unfolding encode decode_groups
groups-encode [] h = refl
groups-encode (a ∷ []) (ha, _) =
    rw (sextet-letter (a / 4) (omega arith), sextet-letter (a % 4 * 16) (omega arith))
      (unfold decode_last in ground arith)
groups-encode (a ∷ b ∷ []) (ha, (hb, _)) =
    rw (sextet-letter (a / 4) (omega arith), sextet-letter (a % 4 * 16 + b / 16) (omega arith))
      (unfold decode_last in ground (arith, sextet-letter (b % 16 * 4), letter_plain (b % 16 * 4)))
groups-encode (a ∷ b ∷ c ∷ r) (ha, (hb, (hc, hr))) =
    rw
      (
        sextet-letter (a / 4) (omega arith),
        sextet-letter (a % 4 * 16 + b / 16) (omega arith),
        sextet-letter (b % 16 * 4 + c / 64) (omega arith),
        sextet-letter (c % 64) (omega arith),
        groups-encode r hr,
      )
      (unfold decode_group in ground (arith, letter_plain (c % 64)))

-- Decoding gives back the bytes that were encoded.
pub decode-encode : (key : List ℕ) → All IsByte key → decode (encode key) ≡ some key
unfolding decode
decode-encode key h = rw (skip-encode key h) (groups-encode key h)

abbrev Fits : Option ℕ → Type 0
Fits none = Unit
Fits (some v) = v < 64

abbrev AreBytes : Option (List ℕ) → Type 0
AreBytes none = Unit
AreBytes (some key) = All IsByte key

sextet-Fits : (c : ℕ) → Fits (sextet c)
unfolding sextet
sextet-Fits c = ground arith

last-AreBytes : (a b : Option ℕ) (y z : ℕ) → Fits a → Fits b → AreBytes (decode_last a b y z)
unfolding decode_last
last-AreBytes (some a) (some b) y z ha hb = ground (arith, sextet-Fits y)
last-AreBytes none b y z ha hb = tt
last-AreBytes (some a) none y z ha hb = tt

group-AreBytes :
    (a b c d : Option ℕ) (rest : Option (List ℕ))
    → Fits a
    → Fits b
    → Fits c
    → Fits d
    → AreBytes rest
    → AreBytes (decode_group a b c d rest)
unfolding decode_group
group-AreBytes (some a) (some b) (some c) (some d) (some r) ha hb hc hd hr =
    (omega arith, (omega arith, (omega arith, hr)))
group-AreBytes (some a) (some b) (some c) (some d) none ha hb hc hd hr = tt
group-AreBytes none b c d r ha hb hc hd hr = tt
group-AreBytes (some a) none c d r ha hb hc hd hr = tt
group-AreBytes (some a) (some b) none d r ha hb hc hd hr = tt
group-AreBytes (some a) (some b) (some c) none r ha hb hc hd hr = tt

-- What the decoder returns are bytes.
groups-AreBytes : (s : Bytes) → AreBytes (decode_groups s)
unfolding decode_groups
groups-AreBytes [] = tt
groups-AreBytes (w ∷ x ∷ y ∷ z ∷ s) = elim (Bool-cases (is_empty s && nat_beq z b'=')) [
  | inl e ↦ rw e (last-AreBytes (sextet w) (sextet x) y z (sextet-Fits w) (sextet-Fits x))
  | inr e ↦ rw e (
      group-AreBytes (sextet w) (sextet x) (sextet y) (sextet z) (decode_groups s) (sextet-Fits w)
        (sextet-Fits x) (sextet-Fits y) (sextet-Fits z) (groups-AreBytes s))
]
groups-AreBytes (w ∷ []) = tt
groups-AreBytes (w ∷ x ∷ []) = tt
groups-AreBytes (w ∷ x ∷ y ∷ []) = tt

canonical_key :
    (s : Bytes) (o : Option (List ℕ))
    → AreBytes o
    → is_canonical_key s o ≡ true
    → (key : List ℕ) × All IsByte key × (length key ≡ 32) × (s ≡ encode key)
unfolding is_canonical_key
canonical_key s none b h = cc
canonical_key s (some key) b h =
    let (size, text) = and-true (nat_beq (length key) 32) (bytes_beq (encode key) s) h in
    (key, b, (nat_beq_iff _ _).0 size, sym ((bytes_beq_iff _ _).0 text))

-- The server key check accepts a text exactly when it is the canonical padded base64 encoding of
-- thirty-two bytes.
pub valid_key_iff :
    (s : Bytes)
    → (valid_key s ≡ true)
      ↔ ((key : List ℕ) × All IsByte key × (length key ≡ 32) × (s ≡ encode key))
unfolding valid_key decode is_canonical_key
valid_key_iff s = (
  canonical_key s (decode s) (groups-AreBytes (skip_breaks s)),
  λ (key, b, size, text).
      rw (text, skip-encode key b, groups-encode key b, size) ((bytes_beq_iff _ _).1 refl),
)
