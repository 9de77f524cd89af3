-- ===== src/Base/Distinct.antt =====
-- Lists of texts without repetition, as loops with a set of seen texts find them.
use mathlib.Core.Path.{◌≡◌}
use mathlib.Core.Logic.{◌≢◌}
use mathlib.Core.Bool.{false}
use mathlib.Core.List.{List, [], ◌∷◌}
use native.Mathlib.Omega.{arith}
use qurl_connector.Base.Tests.{Bytes, bytes_eq, bytes_beq_iff, ◌==◌}
use qurl_connector.Base.Lists.{All, any}

-- No two elements of a list are equal.
abbrev pub Distinct : List Bytes → Type 0
Distinct [] = Unit
Distinct (x ∷ xs) = All (λ y. x ≢ y) xs × Distinct xs

abbrev pub Unseen : List Bytes → Bytes → Type 0
Unseen seen name = any (λ s. s == name) seen ≡ false

ne_of_Unseen : (n c : Bytes) (seen : List Bytes) → Unseen (n ∷ seen) c → n ≢ c
ne_of_Unseen n c seen h e = ground (arith, (bytes_beq_iff n c).1 e)

Unseen-tail' : (n c : Bytes) (seen : List Bytes) → Unseen (n ∷ seen) c → Unseen seen c
Unseen-tail' n c seen h = ground arith

All-weaken :
    {P Q : Bytes → Type 0} (xs : List Bytes) → ((x : Bytes) → P x → Q x) → All P xs → All Q xs
All-weaken [] f h = tt
All-weaken (x ∷ xs) f h = (f x h.0, All-weaken xs f h.1)

-- The texts after one that was added to the seen ones, and the list with it.
pub Unseen-tail :
    (n : Bytes) (seen xs : List Bytes) → All (Unseen (n ∷ seen)) xs → All (Unseen seen) xs
Unseen-tail n seen xs h = All-weaken xs (λ c. Unseen-tail' n c seen) h

pub Distinct-cons :
    (n : Bytes) (seen xs : List Bytes)
    → All (Unseen (n ∷ seen)) xs
    → Distinct xs
    → Distinct (n ∷ xs)
Distinct-cons n seen xs h d = (All-weaken xs (λ c. ne_of_Unseen n c seen) h, d)
