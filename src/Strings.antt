-- ===== src/Strings.antt =====
-- What the program uses of Go's `strings` and `unicode` packages, on the bytes of a text.
pub mod Trim
use mathlib.Core.List.{reverse}
use qurl_connector.Base.{
  ℕ, Bool, true, false, ◌&&◌, ◌||◌, Option, none, some, [], ◌∷◌, Bytes, leb, nat_beq, if◌then◌else◌,
}

-- The rest of a text after its prefix, if it has it.
unfoldable pub cut_prefix : Bytes → Bytes → Option Bytes
cut_prefix [] s = some s
cut_prefix (c ∷ p) [] = none
cut_prefix (c ∷ p) (d ∷ s) = let rest = cut_prefix p s in if nat_beq c d then rest else none

-- `strings.HasPrefix`
unfoldable pub has_prefix : Bytes → Bytes → Bool
unfolding cut_prefix
has_prefix p s = elim (cut_prefix p s) [ none ↦ false | some rest ↦ true ]

-- `unicode.IsSpace` below 0x80.
abbrev space1 : ℕ → Bool
space1 c = (leb 9 c && leb c 13) || nat_beq c 32

-- The spaces of two UTF-8 bytes: U+0085 and U+00A0.
abbrev space2 : ℕ → ℕ → Bool
space2 c d = nat_beq c 194 && (nat_beq d 133 || nat_beq d 160)

-- The spaces of three: U+1680, U+2000 to U+200A, U+2028, U+2029, U+202F, U+205F, U+3000.
abbrev space3 : ℕ → ℕ → ℕ → Bool
space3 c d e =
    (nat_beq c 225 && (nat_beq d 154 && nat_beq e 128))
    || ((nat_beq c 226
          && ((nat_beq d 128
                && ((leb 128 e && leb e 138)
                    || (nat_beq e 168 || (nat_beq e 169 || nat_beq e 175))))
              || (nat_beq d 129 && nat_beq e 159)))
        || (nat_beq c 227 && (nat_beq d 128 && nat_beq e 128)))

-- Whether a text begins with a space, and whether its reversal does.
unfoldable pub leads_space : Bytes → Bool
leads_space [] = false
leads_space (c ∷ []) = space1 c
leads_space (c ∷ d ∷ []) = space1 c || space2 c d
leads_space (c ∷ d ∷ e ∷ s) = space1 c || (space2 c d || space3 c d e)

unfoldable pub trails_space : Bytes → Bool
trails_space [] = false
trails_space (c ∷ []) = space1 c
trails_space (c ∷ d ∷ []) = space1 c || space2 d c
trails_space (c ∷ d ∷ e ∷ s) = space1 c || (space2 d c || space3 e d c)

-- `strings.TrimSpace(s) == s`: no space on either side.
unfoldable pub is_trimmed : Bytes → Bool
unfolding leads_space trails_space
is_trimmed s = if leads_space s then false else if trails_space (reverse s) then false else true

-- `strings.TrimSpace`: one space is dropped at a time, of one, two or three bytes.
trim_leading : Bytes → Bytes
trim_leading [] = []
trim_leading (c ∷ []) = if space1 c then [] else c ∷ []
trim_leading (c ∷ d ∷ []) =
    let one = trim_leading (d ∷ []) in
    if space1 c then one else if space2 c d then [] else c ∷ d ∷ []
trim_leading (c ∷ d ∷ e ∷ s) =
    let one = trim_leading (d ∷ e ∷ s) in
    let two = trim_leading (e ∷ s) in
    let three = trim_leading s in
    if space1 c
    then one
    else if space2 c d
    then two
    else if space3 c d e
    then three
    else c ∷ d ∷ e ∷ s

-- The same from the end of a text, on its reversal.
trim_trailing : Bytes → Bytes
trim_trailing [] = []
trim_trailing (c ∷ []) = if space1 c then [] else c ∷ []
trim_trailing (c ∷ d ∷ []) =
    let one = trim_trailing (d ∷ []) in
    if space1 c then one else if space2 d c then [] else c ∷ d ∷ []
trim_trailing (c ∷ d ∷ e ∷ s) =
    let one = trim_trailing (d ∷ e ∷ s) in
    let two = trim_trailing (e ∷ s) in
    let three = trim_trailing s in
    if space1 c
    then one
    else if space2 d c
    then two
    else if space3 e d c
    then three
    else c ∷ d ∷ e ∷ s

unfoldable pub trim_space : Bytes → Bytes
unfolding trim_leading trim_trailing
trim_space s = reverse (trim_trailing (reverse (trim_leading s)))

-- `strings.TrimPrefix` and `strings.TrimSuffix`
unfoldable pub trim_prefix : Bytes → Bytes → Bytes
trim_prefix p s = elim (cut_prefix p s) [ none ↦ s | some rest ↦ rest ]

unfoldable pub trim_suffix : Bytes → Bytes → Bytes
trim_suffix p s = elim (cut_prefix (reverse p) (reverse s)) [ none ↦ s | some rest ↦ reverse rest ]
