-- ===== src/Share/GroupSession/Push/Delay.antt =====
-- The delay between the retries of a failed push.
use qurl_connector.Base.{
  ℕ, zero, suc, ◌-◌, ◌*◌, ◌^◌, ◌≤◌, ◌≡◌, inl, inr, false, ltb, Bool-cases, arith, ap, ◌∙◌,
}
use qurl_connector.Base.Doubling.{min, grows, pow_double}
use qurl_connector.Share.GroupSession.Push.{max_push_retry_delay, double_delay, retry_delay}

capped :
    (d x y : ℕ)
    → ltb d max_push_retry_delay ≡ false
    → d ≤ x
    → d ≤ y
    → min x max_push_retry_delay ≡ min y max_push_retry_delay
capped d x y e h k = ground arith

double_delay_lem :
    (n d : ℕ) → min (double_delay n d) max_push_retry_delay ≡ min (2 ^ n * d) max_push_retry_delay
unfolding double_delay
double_delay_lem zero d =
    let e : d ≡ 2 ^ 0 * d = omega arith in ap (λ (x : ℕ). min x max_push_retry_delay) e
double_delay_lem (suc n) d = elim (Bool-cases (ltb d max_push_retry_delay)) [
  | inl e ↦
      rw e
        (double_delay_lem n (d * 2) ∙ ap (λ (x : ℕ). min x max_push_retry_delay) (pow_double n d))
  | inr e ↦
      rw e (
        double_delay_lem n d ∙ capped d (2 ^ n * d) (2 ^ suc n * d) e (grows n d) (grows (suc n) d))
]

pred : (n : ℕ) → suc n - 1 ≡ n
pred n = omega arith

-- After `failures + 1` failed pushes in a row the retry waits the poll interval doubled once for
-- each failure after the first, and at most five seconds.
pub retry_delay_lem :
    (poll failures : ℕ)
    → retry_delay poll (suc failures) ≡ min (2 ^ failures * poll) max_push_retry_delay
unfolding retry_delay
retry_delay_lem poll failures = rw (pred failures) (double_delay_lem failures poll)
