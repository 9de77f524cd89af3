-- ===== src/Strings/Trim.antt =====
-- `strings.TrimSpace` leaves no space on either side.
use mathlib.Core.List.{reverse, reverse-append, reverse-reverse}
use qurl_connector.Base.{
  ℕ, ◌≡◌, refl, sym, ap, ◌∙◌, subst, true, false, [], ◌∷◌, ◌++◌, Bytes, arith, if_both,
}
use qurl_connector.Strings.{
  leads_space, trails_space, is_trimmed, trim_leading, trim_trailing, trim_space, space1, space2,
  space3,
}

leads-trim_leading : (s : Bytes) → leads_space (trim_leading s) ≡ false
unfolding leads_space trim_leading
leads-trim_leading [] = refl
leads-trim_leading (c ∷ []) = ground arith
leads-trim_leading (c ∷ d ∷ []) = ground (arith, leads-trim_leading (d ∷ []))
leads-trim_leading (c ∷ d ∷ e ∷ s) =
    ground (arith, leads-trim_leading (d ∷ e ∷ s), leads-trim_leading (e ∷ s), leads-trim_leading s)

trails-trim_trailing : (s : Bytes) → trails_space (trim_trailing s) ≡ false
unfolding trails_space trim_trailing
trails-trim_trailing [] = refl
trails-trim_trailing (c ∷ []) = ground arith
trails-trim_trailing (c ∷ d ∷ []) = ground (arith, trails-trim_trailing (d ∷ []))
trails-trim_trailing (c ∷ d ∷ e ∷ s) =
    ground (
      arith,
      trails-trim_trailing (d ∷ e ∷ s),
      trails-trim_trailing (e ∷ s),
      trails-trim_trailing s,
    )

-- What is left is the end of the text.
abbrev Ends : Bytes → Bytes → Type 0
Ends s t = (dropped : Bytes) × (s ≡ dropped ++ t)

Ends-later : (c : ℕ) (s t : Bytes) → Ends s t → Ends (c ∷ s) t
Ends-later c s t (dropped, e) = (c ∷ dropped, ap (λ (r : Bytes). c ∷ r) e)

Ends-trim_trailing : (s : Bytes) → Ends s (trim_trailing s)
unfolding trim_trailing
Ends-trim_trailing [] = ([], refl)
Ends-trim_trailing (c ∷ []) = if_both (Ends (c ∷ [])) (space1 c) (c ∷ [], refl) ([], refl)
Ends-trim_trailing (c ∷ d ∷ []) =
    let P = Ends (c ∷ d ∷ []) in
    if_both P (space1 c)
      (Ends-later c (d ∷ []) (trim_trailing (d ∷ [])) (Ends-trim_trailing (d ∷ [])))
      (if_both P (space2 d c) (c ∷ d ∷ [], refl) ([], refl))
Ends-trim_trailing (c ∷ d ∷ e ∷ s) =
    let P = Ends (c ∷ d ∷ e ∷ s) in
    if_both P (space1 c)
      (Ends-later c (d ∷ e ∷ s) (trim_trailing (d ∷ e ∷ s)) (Ends-trim_trailing (d ∷ e ∷ s)))
      (if_both P (space2 d c)
        (Ends-later c (d ∷ e ∷ s) (trim_trailing (e ∷ s))
          (Ends-later d (e ∷ s) (trim_trailing (e ∷ s)) (Ends-trim_trailing (e ∷ s))))
        (if_both P (space3 e d c)
          (Ends-later c (d ∷ e ∷ s) (trim_trailing s) (
            Ends-later d (e ∷ s) (trim_trailing s)
              (Ends-later e s (trim_trailing s) (Ends-trim_trailing s))))
          ([], refl)))

leads-append : (s t : Bytes) → leads_space (s ++ t) ≡ false → leads_space s ≡ false
unfolding leads_space
leads-append [] t h = refl
leads-append (c ∷ []) [] h = h
leads-append (c ∷ []) (x ∷ []) h = ground arith
leads-append (c ∷ []) (x ∷ y ∷ t) h = ground arith
leads-append (c ∷ d ∷ []) [] h = h
leads-append (c ∷ d ∷ []) (x ∷ t) h = ground arith
leads-append (c ∷ d ∷ e ∷ s) t h = h

-- The trimmed text has no space on either side.
pub is_trimmed-trim_space : (s : Bytes) → is_trimmed (trim_space s) ≡ true
unfolding is_trimmed trim_space
is_trimmed-trim_space s =
    let t = trim_leading s in
    let r = trim_trailing (reverse t) in
    let (dropped, e) = Ends-trim_trailing (reverse t) in
    let whole : t ≡ reverse r ++ reverse dropped =
      sym (reverse-reverse t) ∙ (ap reverse e ∙ reverse-append dropped r) in
    let left : leads_space (reverse r) ≡ false =
      leads-append (reverse r) (reverse dropped)
        (subst (λ (u : Bytes). leads_space u ≡ false) whole (leads-trim_leading s)) in
    let right : trails_space (reverse (reverse r)) ≡ false =
      rw (reverse-reverse r) (trails-trim_trailing (reverse t)) in
    rw (left, right)
