-- ===== src/Share/Timing/Bounds.antt =====
-- The leads of rotationLead and groupRotationLead, and the delays of nextBackoff and jitter, in
-- their ranges.
use native.Mathlib.Nat.{pow-succ'}
use qurl_connector.Base.{
  ℕ, zero, suc, ◌*◌, ◌≤◌, ◌<◌, ◌≡◌, ◌⊎◌, inl, inr, refl, arith, leb, if◌then◌else◌, ◌^◌, ◌/◌,
}
use qurl_connector.Base.Int.{ℤ, pos, max_ℤ, min_ℤ, max_int64, quot, scale, ◌≤ℤ◌, ◌<ℤ◌}
use qurl_connector.Share.Timing.{
  second, group_lead_floor, group_lead_per_route, rotation_lead, group_need, clamp_lead,
  group_rotation_lead, next_backoff, jitter_range, jitter,
}

-- A duration that is not negative and fits int64.
abbrev pub IsDuration : ℤ → Type 0
IsDuration d = (pos 0 ≤ℤ d) × (d ≤ℤ pos max_int64)

clamp_lem :
    (open_time need : ℤ)
    → second ≤ℤ need
    → clamp_lead open_time need ≡ min_ℤ need (quot open_time 2)
unfolding clamp_lead
clamp_lem o need h = ground arith

need_floor : (c m : ℤ) (n : ℕ) → group_lead_floor ≤ℤ group_need c n m
unfolding group_need
need_floor c m n = ground arith

scale_lem : (a k : ℕ) → a * k ≤ max_int64 → scale (pos a) k ≡ pos (a * k)
scale_lem a k h = ground arith

need_cost :
    (c : ℤ) (n m a : ℕ)
    → max_ℤ group_lead_per_route (pos m) ≡ pos a
    → a * n ≤ max_int64
    → (c ≤ℤ group_need c n (pos m)) × (pos (a * n) ≤ℤ group_need c n (pos m))
unfolding group_need
need_cost c n m a e h = rw (e, scale_lem a n h) (ground arith)

per_route_cases :
    (m : ℕ)
    → ((max_ℤ group_lead_per_route (pos m) ≡ pos m) × (50000000 ≤ m))
      ⊎ ((max_ℤ group_lead_per_route (pos m) ≡ pos 50000000) × (m ≤ 50000000))
per_route_cases m = ground arith

-- What the runner promises of a group's lead: it is the need, capped by half of the window.
pub record CoversGroup (open_time configured : ℤ) (routes measured : ℕ) (lead need : ℤ)
    : Type 0 where
  pub capped : lead ≡ min_ℤ need (quot open_time 2)
  pub starts_in_window : (pos 0 ≤ℤ lead) × (lead <ℤ open_time)
  pub covers_login : group_lead_floor ≤ℤ need
  pub covers_configured : configured ≤ℤ need
  pub covers_estimate : pos (50000000 * routes) ≤ℤ need
  pub covers_measured : pos (measured * routes) ≤ℤ need

half_window :
    (o need : ℤ)
    → pos 0 <ℤ o
    → group_lead_floor ≤ℤ need
    → (pos 0 ≤ℤ min_ℤ need (quot o 2)) × (min_ℤ need (quot o 2) <ℤ o)
half_window o need p f = ground arith

need_covers :
    (c : ℤ) (n m : ℕ)
    → 50000000 * n ≤ max_int64
    → m * n ≤ max_int64
    → (c ≤ℤ group_need c n (pos m))
      × (pos (50000000 * n) ≤ℤ group_need c n (pos m))
      × (pos (m * n) ≤ℤ group_need c n (pos m))
need_covers c n m h k = elim (per_route_cases m) [
  | inl (e, le) ↦ let (x, y) = need_cost c n m m e k in (x, grind arith, y)
  | inr (e, le) ↦ let (x, y) = need_cost c n m 50000000 e h in (x, y, grind arith)
]

-- The lead of a group with a positive window, when neither product overflows, is the need or half
-- of the window, whichever is less, and lies inside the window; the need covers the login floor, the
-- configured floor, and every route at both the estimated and the measured cost.
pub group_lead-CoversGroup :
    (open_time configured : ℤ) (routes measured : ℕ)
    → pos 0 <ℤ open_time
    → 50000000 * routes ≤ max_int64
    → measured * routes ≤ max_int64
    → CoversGroup open_time configured routes measured
        (group_rotation_lead open_time configured routes (pos measured)).0
        (group_rotation_lead open_time configured routes (pos measured)).1
unfolding group_rotation_lead
group_lead-CoversGroup o c n m p h k =
    let f : group_lead_floor ≤ℤ group_need c n (pos m) = need_floor c (pos m) n in
    let e : clamp_lead o (group_need c n (pos m)) ≡ min_ℤ (group_need c n (pos m)) (quot o 2) =
      clamp_lem o (group_need c n (pos m)) (ground arith) in
    let covers = need_covers c n m h k in
    record {
      capped = e;
      starts_in_window = rw e (half_window o (group_need c n (pos m)) p f);
      covers_login = f;
      covers_configured = covers.0;
      covers_estimate = covers.1;
      covers_measured = covers.2;
    }

-- A single route's lead lies inside a positive window, and a configured lead below the window is
-- taken as it is.
pub rotation_lead_bounds :
    (open_time configured : ℤ)
    → pos 0 <ℤ open_time
    → (pos 0 ≤ℤ rotation_lead open_time configured)
      × (rotation_lead open_time configured <ℤ open_time)
      × ((rotation_lead open_time configured ≡ configured)
          ⊎ (configured ≤ℤ pos 0)
          ⊎ (open_time ≤ℤ configured))
unfolding rotation_lead
rotation_lead_bounds o c p = (ground arith, ground arith, ground arith)

-- The delay after a number of failures.
unfoldable pub backoff_after : ℕ → ℤ → ℤ → ℤ
backoff_after zero current maximum = current
backoff_after (suc n) current maximum = next_backoff (backoff_after n current maximum) maximum

next_backoff_lem :
    (current maximum : ℕ)
    → current ≤ maximum
    → maximum ≤ max_int64
    → (next : ℕ) × (next_backoff (pos current) (pos maximum) ≡ pos next)
      × (next ≤ maximum)
      × (current ≤ next)
      × ((next ≡ maximum) ⊎ (next ≡ 2 * current))
unfolding next_backoff
next_backoff_lem c m h k =
    (if leb (m / 2) c then m else c * 2, ground arith, ground arith, ground arith, ground arith)

-- A delay that the runner waits after `n` failures in a row.
pub record IsBackoff (n minimum maximum : ℕ) (delay : ℤ) : Type 0 where
  pub at_least : pos minimum ≤ℤ delay
  pub at_most : delay ≤ℤ pos maximum
  pub doubled : (delay ≡ pos maximum) ⊎ (delay ≡ pos (2 ^ n * minimum))

regroup : (t c : ℕ) → 2 * (t * c) ≡ 2 * t * c
regroup t c = grind arith

double : (n c : ℕ) → 2 * (2 ^ n * c) ≡ 2 ^ suc n * c
double n c = rw (pow-succ' 2 n) (regroup (2 ^ n) c)

backoff_value :
    (n c m : ℕ)
    → c ≤ m
    → m ≤ max_int64
    → (d : ℕ) × (backoff_after n (pos c) (pos m) ≡ pos d)
      × (c ≤ d)
      × (d ≤ m)
      × ((d ≡ m) ⊎ (d ≡ 2 ^ n * c))
unfolding backoff_after
backoff_value zero c m h k = (c, refl, omega arith, h, inr (omega arith))
backoff_value (suc n) c m h k =
    let (d, e, lo, hi, shape) = backoff_value n c m h k in
    let (d', e', hi', grows, shape') = next_backoff_lem d m hi k in
    (d', rw e e', omega arith, hi', ground (arith, double n c))

-- Between int64 bounds that are in order, the delay after any number of failures lies between them,
-- and is the maximum or has doubled with each failure: no doubling overflows.
pub backoff_after-IsBackoff :
    (n minimum maximum : ℕ)
    → minimum ≤ maximum
    → maximum ≤ max_int64
    → IsBackoff n minimum maximum (backoff_after n (pos minimum) (pos maximum))
backoff_after-IsBackoff n c m h k =
    let (d, e, lo, hi, shape) = backoff_value n c m h k in
    record { at_least = rw e (omega arith); at_most = rw e (omega arith); doubled = ground arith }

-- With a number that `rand.Int64N` may return, the jittered delay is at least half of the delay and
-- less than it, and the range passed to it is positive.
pub jitter_bounds :
    (delay r : ℕ)
    → 1 < delay
    → delay ≤ max_int64
    → pos r <ℤ jitter_range (pos delay)
    → (pos 0 <ℤ jitter_range (pos delay))
      × (quot (pos delay) 2 ≤ℤ jitter (pos delay) (pos r))
      × (jitter (pos delay) (pos r) <ℤ pos delay)
unfolding jitter jitter_range
jitter_bounds d r h k l = (ground arith, ground arith, ground arith)
