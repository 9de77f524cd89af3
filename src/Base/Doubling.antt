-- ===== src/Base/Doubling.antt =====
-- A delay that doubles up to a cap.
use Prim.Native.Nat.{ℕ, zero, suc, ◌*◌, ◌^◌, ◌≤◌}
use mathlib.Core.Path.{◌≡◌, sym, ap, ◌∙◌}
use native.Mathlib.Nat.{pow-succ'}
use native.Mathlib.Omega.{arith}
use qurl_connector.Base.Tests.{ltb, if◌then◌else◌}

abbrev pub min : ℕ → ℕ → ℕ
min a b = if ltb b a then b else a

pub grows : (n d : ℕ) → d ≤ 2 ^ n * d
grows zero d = omega arith
grows (suc n) d = rw (pow-succ' 2 n) (grind (arith, grows n d))

pow_shift : (t d : ℕ) → t * (d * 2) ≡ 2 * t * d
pow_shift t d = grind arith

pub pow_double : (n d : ℕ) → 2 ^ n * (d * 2) ≡ 2 ^ suc n * d
pow_double n d = pow_shift (2 ^ n) d ∙ ap (λ (x : ℕ). x * d) (sym (pow-succ' 2 n))
