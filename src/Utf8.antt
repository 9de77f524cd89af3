-- ===== src/Utf8.antt =====
-- `utf8.ValidString`, and `strings.ToLower` on ASCII.
use qurl_connector.Base.{
  ℕ, ◌+◌, Bool, true, false, ◌&&◌, Option, none, some, List, [], ◌∷◌, Bytes, ltb, leb, nat_beq,
  if◌then◌else◌, map,
}

-- The ranges of the bytes after a first byte, if it may stand first.
continuations : ℕ → Option (List (ℕ × ℕ))
continuations c =
    let tail : ℕ × ℕ = (128, 191) in
    if ltb c 128
    then some []
    else if ltb c 194
    then none
    else if ltb c 224
    then some (tail ∷ [])
    else if nat_beq c 224
    then some ((160, 191) ∷ tail ∷ [])
    else if nat_beq c 237
    then some ((128, 159) ∷ tail ∷ [])
    else if ltb c 240
    then some (tail ∷ tail ∷ [])
    else if nat_beq c 240
    then some ((144, 191) ∷ tail ∷ tail ∷ [])
    else if ltb c 244
    then some (tail ∷ tail ∷ tail ∷ [])
    else if nat_beq c 244
    then some ((128, 143) ∷ tail ∷ tail ∷ [])
    else none

valid_from : List (ℕ × ℕ) → Bytes → Bool
unfolding continuations
valid_from [] [] = true
valid_from (r ∷ rs) [] = false
valid_from [] (c ∷ s) = elim (continuations c) [ none ↦ false | some rs ↦ valid_from rs s ]
valid_from ((lo, hi) ∷ rs) (c ∷ s) = leb lo c && (leb c hi && valid_from rs s)

unfoldable pub valid_utf8 : Bytes → Bool
unfolding valid_from
valid_utf8 s = valid_from [] s

unfoldable pub lower_byte : ℕ → ℕ
lower_byte c = if leb b'A' c && leb c b'Z' then c + 32 else c

unfoldable pub to_lower : Bytes → Bytes
unfolding lower_byte
to_lower s = map lower_byte s
