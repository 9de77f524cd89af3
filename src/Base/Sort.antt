-- ===== src/Base/Sort.antt =====
-- Go's `sort.Slice`, `sort.Strings` and `slices.Sorted` by a strict total order, and the order of
-- its strings.
use Prim.Native.Nat.{suc}
use mathlib.Core.Path.{◌≡◌}
use mathlib.Core.Bool.{Bool, true, false, ◌||◌, ◌&&◌}
use mathlib.Core.List.{List, [], ◌∷◌}
use mathlib.Core.Logic.{◌↔◌, inl, inr}
use native.Mathlib.Omega.{arith}
use qurl_connector.Base.Tests.{Bytes, Bool-cases, ltb, nat_beq, if◌then◌else◌}
use qurl_connector.Base.Lists.{All, Any, length}

-- `a < b` for strings.
unfoldable pub bytes_ltb : Bytes → Bytes → Bool
bytes_ltb [] [] = false
bytes_ltb [] (y ∷ ys) = true
bytes_ltb (x ∷ xs) [] = false
bytes_ltb (x ∷ xs) (y ∷ ys) = ltb x y || (nat_beq x y && bytes_ltb xs ys)

module _ {ℓ} {A : Type ℓ} (before : A → A → Bool) where
  unfoldable pub insert_by : A → List A → List A
  insert_by a [] = a ∷ []
  insert_by a (x ∷ xs) = let rest = insert_by a xs in if before x a then x ∷ rest else a ∷ x ∷ xs

  unfoldable pub sort_by : List A → List A
  unfolding insert_by
  sort_by [] = []
  sort_by (x ∷ xs) = insert_by x (sort_by xs)

  insert_by-All {κ} :
      (P : A → Type κ) (a : A) (xs : List A) → All P (insert_by a xs) ↔ (P a × All P xs)
  unfolding insert_by
  insert_by-All P a [] = (λ h. h, λ h. h)
  insert_by-All P a (x ∷ xs) = elim (Bool-cases (before x a)) [
    | inl e ↦ rw e (
      λ h. let r = (insert_by-All P a xs).0 h.1 in (r.0, (h.0, r.1)),
      λ h. (h.1.0, (insert_by-All P a xs).1 (h.0, h.1.1)),
    )
    | inr e ↦ rw e (λ h. h, λ h. h)
  ]

  -- Sorting keeps the elements.
  pub sort_by-All {κ} : (P : A → Type κ) (xs : List A) → All P (sort_by xs) ↔ All P xs
  unfolding sort_by
  sort_by-All P [] = (λ h. h, λ h. h)
  sort_by-All P (x ∷ xs) = (
    λ h. let r = (insert_by-All P x (sort_by xs)).0 h in (r.0, (sort_by-All P xs).0 r.1),
    λ h. (insert_by-All P x (sort_by xs)).1 (h.0, (sort_by-All P xs).1 h.1),
  )

  insert_by-length : (a : A) (xs : List A) → length (insert_by a xs) ≡ suc (length xs)
  unfolding insert_by
  insert_by-length a [] = omega arith
  insert_by-length a (x ∷ xs) = ground (arith, insert_by-length a xs)

  pub length-sort_by : (xs : List A) → length (sort_by xs) ≡ length xs
  unfolding sort_by
  length-sort_by [] = omega arith
  length-sort_by (x ∷ xs) = omega (arith, insert_by-length x (sort_by xs), length-sort_by xs)

  insert_by-Any : (P : A → Type 0) (a : A) (xs : List A) → Any P (a ∷ xs) → Any P (insert_by a xs)
  unfolding insert_by
  insert_by-Any P a [] h = h
  insert_by-Any P a (x ∷ xs) h = elim (Bool-cases (before x a)) [
    | inl e ↦ rw e elim h [
      | inl here ↦ inr (insert_by-Any P a xs (inl here))
      | inr (inl head) ↦ inl head
      | inr (inr tail) ↦ inr (insert_by-Any P a xs (inr tail))
    ]
    | inr e ↦ rw e h
  ]

  pub sort_by-Any : (P : A → Type 0) (xs : List A) → Any P xs → Any P (sort_by xs)
  unfolding sort_by
  sort_by-Any P [] h = h
  sort_by-Any P (x ∷ xs) (inl h) = insert_by-Any P x (sort_by xs) (inl h)
  sort_by-Any P (x ∷ xs) (inr h) = insert_by-Any P x (sort_by xs) (inr (sort_by-Any P xs h))
