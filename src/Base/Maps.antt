-- ===== src/Base/Maps.antt =====
-- A Go map as an association list: one entry is read, the newest one.
use Prim.Native.Nat.{ℕ, ◌+◌}
use mathlib.Core.Path.{◌≡◌, refl}
use mathlib.Core.Bool.{true}
use mathlib.Core.Option.{Option, none, some}
use mathlib.Core.List.{List, [], ◌∷◌}
use native.Mathlib.Omega.{arith}
use qurl_connector.Base.Tests.{Eq, ◌==◌, if◌then◌else◌}

pub beq_refl : {K : Type 0} ⦃e : Eq K⦄ (k : K) → (k == k) ≡ true
beq_refl ⦃e⦄ k = (e.equals_iff k k).1 refl

module _ {ℓ} {K : Type 0} {V : Type ℓ} ⦃e : Eq K⦄ where
  unfoldable pub lookup : K → List (K × V) → Option V
  lookup key [] = none
  lookup key ((old, value) ∷ rest) = if old == key then some value else lookup key rest

  unfoldable pub insert : K → V → List (K × V) → List (K × V)
  insert key new [] = (key, new) ∷ []
  insert key new ((old, value) ∷ rest) =
      if old == key then (key, new) ∷ rest else (old, value) ∷ insert key new rest

  unfoldable pub erase : K → List (K × V) → List (K × V)
  erase k [] = []
  erase k ((j, w) ∷ m) = let rest = erase k m in if j == k then rest else (j, w) ∷ rest

  -- The entries after a write.
  pub lookup-insert :
      (key other : K) (new : V) (m : List (K × V))
      → lookup other (insert key new m) ≡ (if key == other then some new else lookup other m)
  unfolding lookup insert
  lookup-insert key other new [] = refl
  lookup-insert key other new ((old, value) ∷ rest) = ground (
    arith,
    lookup-insert key other new rest,
    e.equals_iff old other,
    e.equals_iff old key,
    e.equals_iff key other,
  )

  pub lookup-erase :
      (k j : K) (m : List (K × V)) → lookup j (erase k m) ≡ (if k == j then none else lookup j m)
  unfolding lookup erase
  lookup-erase k j [] = ground arith
  lookup-erase k j ((i, w) ∷ m) =
      ground (arith, e.equals_iff k j, e.equals_iff i k, e.equals_iff i j, lookup-erase k j m)

  -- The sum of a measure of the values.
  unfoldable pub sum_of : (V → ℕ) → List (K × V) → ℕ
  sum_of f [] = 0
  sum_of f ((k, v) ∷ m) = f v + sum_of f m

  -- Replacing a value changes the sum by the difference.
  pub sum_of-insert :
      (f : V → ℕ) (k : K) (v w : V) (m : List (K × V))
      → lookup k m ≡ some v
      → sum_of f (insert k w m) + f v ≡ sum_of f m + f w
  unfolding lookup insert sum_of
  sum_of-insert f k v w [] h = cc
  sum_of-insert f k v w ((j, u) ∷ m) h = ground (arith, sum_of-insert f k v w m)
