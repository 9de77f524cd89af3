-- ===== src/Agentstate/RefreshMarker/Backoff.antt =====
-- pkg/agentstate/refresh_marker.go: the retry backoff, in nanoseconds.
use qurl_connector.Base.{
  ℕ, zero, suc, ◌+◌, ◌-◌, ◌*◌, ◌/◌, ◌%◌, ◌≤◌, Option, none, some, ltb, if◌then◌else◌, arith,
}

abbrev pub refresh_retry_initial : ℕ
refresh_retry_initial = 5000000000

abbrev pub refresh_retry_maximum : ℕ
refresh_retry_maximum = 300000000000

-- The loop of `refreshRetryBase`, on the rounds that `i < attempt` leaves.
retry_base : ℕ → ℕ → ℕ
retry_base zero base = base
retry_base (suc rounds) base =
    let rest =
      retry_base rounds
        (if ltb refresh_retry_maximum (base * 2) then refresh_retry_maximum else base * 2) in
    if ltb base refresh_retry_maximum then rest else base

-- `refreshRetryBase`
unfoldable pub refresh_retry_base : ℕ → ℕ
unfolding retry_base
refresh_retry_base attempt = retry_base (attempt - 1) refresh_retry_initial

-- `refreshRetryBackoff`; `raw` is the random uint64, `none` when the source fails.
unfoldable pub refresh_retry_backoff : ℕ → Option ℕ → ℕ
refresh_retry_backoff attempt none = refresh_retry_base attempt
refresh_retry_backoff attempt (some raw) =
    let base = refresh_retry_base attempt in base / 2 + raw % (base - base / 2 + 1)

retry_base_bounds :
    (rounds base : ℕ)
    → base ≤ refresh_retry_maximum
    → (base ≤ retry_base rounds base) × (retry_base rounds base ≤ refresh_retry_maximum)
unfolding retry_base
retry_base_bounds zero base h = (omega arith, h)
retry_base_bounds (suc rounds) base h =
    ground
      (arith, retry_base_bounds rounds (base * 2), retry_base_bounds rounds refresh_retry_maximum)

pub refresh_retry_base_bounds :
    (attempt : ℕ)
    → (refresh_retry_initial ≤ refresh_retry_base attempt)
      × (refresh_retry_base attempt ≤ refresh_retry_maximum)
unfolding refresh_retry_base
refresh_retry_base_bounds attempt =
    retry_base_bounds (attempt - 1) refresh_retry_initial (omega arith)

half_of :
    (base raw : ℕ)
    → (base / 2 ≤ base / 2 + raw % (base - base / 2 + 1))
      × (base / 2 + raw % (base - base / 2 + 1) ≤ base)
half_of base raw = grind arith

-- Jitter keeps the backoff between half of its base and the base.
pub refresh_retry_backoff_bounds :
    (attempt : ℕ) (raw : Option ℕ)
    → (refresh_retry_base attempt / 2 ≤ refresh_retry_backoff attempt raw)
      × (refresh_retry_backoff attempt raw ≤ refresh_retry_base attempt)
unfolding refresh_retry_backoff
refresh_retry_backoff_bounds attempt none = omega arith
refresh_retry_backoff_bounds attempt (some raw) = half_of (refresh_retry_base attempt) raw
