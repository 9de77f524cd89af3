-- ===== src/Base/Int.antt =====
-- Go's signed integers: ℤ over the native numbers, with int64 wrap-around as a function.
use Prim.Native.Nat.{ℕ, suc, ◌+◌, ◌-◌, ◌*◌, ◌/◌, ◌%◌, ◌≤◌, ◌<◌}
use mathlib.Core.Path.{◌≡◌}
use mathlib.Core.Logic.{◌↔◌}
use mathlib.Core.Bool.{Bool, true}
use native.Mathlib.Omega.{arith}
use qurl_connector.Base.Tests.{ltb, leb, nat_beq, if◌then◌else◌}

-- `negsuc n` is -(n + 1).
pub data ℤ : Type 0 where
  pos : ℕ → ℤ
  negsuc : ℕ → ℤ

abbrev pub pos_part : ℤ → ℕ
pos_part (pos n) = n
pos_part (negsuc n) = 0

abbrev pub neg_part : ℤ → ℕ
neg_part (pos n) = 0
neg_part (negsuc n) = suc n

abbrev pub sub_ℕ : ℕ → ℕ → ℤ
sub_ℕ a b = if leb b a then pos (a - b) else negsuc (b - a - 1)

infixl 65 ◌+ℤ◌ ◌-ℤ◌
infix 50 ◌≤ℤ◌ ◌<ℤ◌
abbrev pub ◌≤ℤ◌ : ℤ → ℤ → Type 0
a ≤ℤ b = pos_part a + neg_part b ≤ pos_part b + neg_part a

abbrev pub ◌<ℤ◌ : ℤ → ℤ → Type 0
a <ℤ b = pos_part a + neg_part b < pos_part b + neg_part a

abbrev pub ltb_ℤ : ℤ → ℤ → Bool
ltb_ℤ a b = ltb (pos_part a + neg_part b) (pos_part b + neg_part a)

abbrev pub leb_ℤ : ℤ → ℤ → Bool
leb_ℤ a b = leb (pos_part a + neg_part b) (pos_part b + neg_part a)

abbrev pub eqb_ℤ : ℤ → ℤ → Bool
eqb_ℤ a b = nat_beq (pos_part a + neg_part b) (pos_part b + neg_part a)

pub eqb_ℤ_iff : (a b : ℤ) → (eqb_ℤ a b ≡ true) ↔ (a ≡ b)
eqb_ℤ_iff a b = ground arith

abbrev pub max_ℤ : ℤ → ℤ → ℤ
max_ℤ a b = if ltb_ℤ a b then b else a

abbrev pub min_ℤ : ℤ → ℤ → ℤ
min_ℤ a b = if ltb_ℤ b a then b else a

-- The int64 with the bits of `b`.
abbrev pub from_bits64 : ℕ → ℤ
from_bits64 b = if ltb b 9223372036854775808 then pos b else negsuc (18446744073709551615 - b)

-- An exact result, wrapped to int64.
abbrev pub wrap64 : ℤ → ℤ
wrap64 (pos n) = from_bits64 (n % 18446744073709551616)
wrap64 (negsuc n) = from_bits64 (18446744073709551615 - n % 18446744073709551616)

abbrev pub ◌+ℤ◌ : ℤ → ℤ → ℤ
a +ℤ b = wrap64 (sub_ℕ (pos_part a + pos_part b) (neg_part a + neg_part b))

abbrev pub ◌-ℤ◌ : ℤ → ℤ → ℤ
a -ℤ b = wrap64 (sub_ℕ (pos_part a + neg_part b) (neg_part a + pos_part b))

-- Multiplication by a number that is not negative, wrapped to int64.
abbrev pub scale : ℤ → ℕ → ℤ
scale a k = wrap64 (sub_ℕ (pos_part a * k) (neg_part a * k))

-- Division by a positive number, which rounds towards zero.
abbrev pub quot : ℤ → ℕ → ℤ
quot a k = sub_ℕ (pos_part a / k) (neg_part a / k)

abbrev pub max_int64 : ℕ
max_int64 = 9223372036854775807
