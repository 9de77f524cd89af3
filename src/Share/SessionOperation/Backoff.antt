-- ===== src/Share/SessionOperation/Backoff.antt =====
-- session_operation.go: the two persisted backoffs, in milliseconds. The recovery backoff doubles from
-- 100 ms to 2 s, the one after silence from 4 s to 30 s.
use qurl_connector.Base.{ℕ, zero, suc, ◌-◌, ◌*◌, ◌^◌, ◌≤◌, ◌<◌, ◌≡◌, ltb, if◌then◌else◌, arith}
use qurl_connector.Base.Doubling.{min, grows, pow_double}

abbrev pub recovery_initial_delay : ℕ
recovery_initial_delay = 100

abbrev pub recovery_max_delay : ℕ
recovery_max_delay = 2000

abbrev pub no_reply_max_delay : ℕ
no_reply_max_delay = 30000

-- The loop of `nativeSessionRecoveryBackoff`, on the rounds that `step < attempt` leaves.
recovery_delay : ℕ → ℕ → ℕ
recovery_delay zero delay = delay
recovery_delay (suc rounds) delay =
    let rest = recovery_delay rounds (delay * 2) in
    if ltb delay recovery_max_delay
    then (if ltb recovery_max_delay (delay * 2) then recovery_max_delay else rest)
    else delay

-- `nativeSessionRecoveryBackoff`
unfoldable pub recovery_backoff : ℕ → ℕ
unfolding recovery_delay
recovery_backoff attempt = recovery_delay (attempt - 1) recovery_initial_delay

-- The loop of `nativeSessionRecoveryNoReplyBackoff`.
no_reply_delay : ℕ → ℕ → ℕ
no_reply_delay zero delay = delay
no_reply_delay (suc rounds) delay =
    let rest =
      no_reply_delay rounds
        (if ltb no_reply_max_delay (delay * 2) then no_reply_max_delay else delay * 2) in
    if ltb delay no_reply_max_delay then rest else delay

-- `nativeSessionRecoveryNoReplyBackoff`
unfoldable pub no_reply_backoff : ℕ → ℕ
unfolding no_reply_delay
no_reply_backoff failures = no_reply_delay failures recovery_max_delay

recovery_delay_bounds :
    (rounds delay : ℕ)
    → delay ≤ recovery_max_delay
    → (delay ≤ recovery_delay rounds delay) × (recovery_delay rounds delay ≤ recovery_max_delay)
unfolding recovery_delay
recovery_delay_bounds zero delay h = (omega arith, h)
recovery_delay_bounds (suc rounds) delay h =
    ground (arith, recovery_delay_bounds rounds (delay * 2))

no_reply_delay_bounds :
    (rounds delay : ℕ)
    → delay ≤ no_reply_max_delay
    → (delay ≤ no_reply_delay rounds delay) × (no_reply_delay rounds delay ≤ no_reply_max_delay)
unfolding no_reply_delay
no_reply_delay_bounds zero delay h = (omega arith, h)
no_reply_delay_bounds (suc rounds) delay h = ground (
  arith,
  no_reply_delay_bounds rounds (delay * 2),
  no_reply_delay_bounds rounds no_reply_max_delay,
)

pub recovery_backoff_bounds :
    (attempt : ℕ) → (100 ≤ recovery_backoff attempt) × (recovery_backoff attempt ≤ 2000)
unfolding recovery_backoff
recovery_backoff_bounds attempt = recovery_delay_bounds (attempt - 1) 100 (omega arith)

-- After the first silence the delay is four seconds at least.
no_reply_first :
    (failures : ℕ)
    → (4000 ≤ no_reply_backoff (suc failures)) × (no_reply_backoff (suc failures) ≤ 30000)
unfolding no_reply_backoff no_reply_delay
no_reply_first failures = no_reply_delay_bounds failures 4000 (omega arith)

recovery_delay_mono :
    (rounds delay : ℕ)
    → delay ≤ recovery_max_delay
    → recovery_delay rounds delay ≤ recovery_delay (suc rounds) delay
unfolding recovery_delay
recovery_delay_mono zero delay h = ground arith
recovery_delay_mono (suc rounds) delay h = ground (arith, recovery_delay_mono rounds (delay * 2))

no_reply_delay_mono :
    (rounds delay : ℕ)
    → delay ≤ no_reply_max_delay
    → no_reply_delay rounds delay ≤ no_reply_delay (suc rounds) delay
unfolding no_reply_delay
no_reply_delay_mono zero delay h = ground arith
no_reply_delay_mono (suc rounds) delay h =
    ground
      (arith, no_reply_delay_mono rounds (delay * 2), no_reply_delay_mono rounds no_reply_max_delay)

recovery_backoff_mono : (attempt : ℕ) → recovery_backoff attempt ≤ recovery_backoff (suc attempt)
unfolding recovery_backoff
recovery_backoff_mono zero = omega arith
recovery_backoff_mono (suc n) =
    let now : suc n - 1 ≡ n = omega arith in
    let next : suc (suc n) - 1 ≡ suc n = omega arith in
    rw (now, next) (recovery_delay_mono n 100 (omega arith))

-- The two loops in closed form: a delay at the cap or below doubles up to it.
recovery_delay_lem :
    (rounds delay : ℕ)
    → delay ≤ recovery_max_delay
    → recovery_delay rounds delay ≡ min (2 ^ rounds * delay) recovery_max_delay
unfolding recovery_delay
recovery_delay_lem zero delay h = ground arith
recovery_delay_lem (suc rounds) delay h = ground (
  arith,
  pow_double rounds delay,
  grows rounds (delay * 2),
  grows (suc rounds) delay,
  recovery_delay_lem rounds (delay * 2),
)

no_reply_delay_lem :
    (rounds delay : ℕ)
    → delay ≤ no_reply_max_delay
    → no_reply_delay rounds delay ≡ min (2 ^ rounds * delay) no_reply_max_delay
unfolding no_reply_delay
no_reply_delay_lem zero delay h = ground arith
no_reply_delay_lem (suc rounds) delay h = ground (
  arith,
  pow_double rounds delay,
  grows rounds (delay * 2),
  grows rounds no_reply_max_delay,
  grows (suc rounds) delay,
  no_reply_delay_lem rounds (delay * 2),
  no_reply_delay_lem rounds no_reply_max_delay,
)

recovery_backoff_lem :
    (n : ℕ) → recovery_backoff (suc n) ≡ min (2 ^ n * recovery_initial_delay) recovery_max_delay
unfolding recovery_backoff
recovery_backoff_lem n =
    let same : suc n - 1 ≡ n = omega arith in
    rw same (recovery_delay_lem n recovery_initial_delay (omega arith))

-- At attempt n + 1 the recovery backoff is 100 ms doubled n times and at most 2 s, and it does not
-- fall at the next attempt; after n silent exchanges the backoff is 2 s doubled n times and at most
-- 30 s, and it does not fall at the next silence. After any silence it is 4 s at least, and so longer
-- than the recovery backoff at any count of attempts.
pub backoffs_escalate :
    (n attempt : ℕ)
    → (recovery_backoff (suc n) ≡ min (2 ^ n * 100) 2000)
      × (recovery_backoff n ≤ recovery_backoff (suc n))
      × (no_reply_backoff n ≡ min (2 ^ n * 2000) 30000)
      × (no_reply_backoff n ≤ no_reply_backoff (suc n))
      × (4000 ≤ no_reply_backoff (suc n))
      × (recovery_backoff attempt < no_reply_backoff (suc n))
unfolding no_reply_backoff
backoffs_escalate n attempt = (
  recovery_backoff_lem n,
  recovery_backoff_mono n,
  no_reply_delay_lem n 2000 (omega arith),
  no_reply_delay_mono n 2000 (omega arith),
  (no_reply_first n).0,
  omega (arith, recovery_backoff_bounds attempt, no_reply_first n),
)
