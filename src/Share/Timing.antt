-- ===== src/Share/Timing.antt =====
-- pkg/share/session.go and group.go: the delays and leads of the runner, on int64 nanoseconds.
pub mod Bounds
use qurl_connector.Base.{ℕ, ltb, leb, ◌+◌, if◌then◌else◌}
use qurl_connector.Base.Int.{ℤ, pos, ltb_ℤ, leb_ℤ, max_ℤ, min_ℤ, quot, scale, ◌+ℤ◌, ◌-ℤ◌}

abbrev pub second : ℤ
second = pos 1000000000

-- `groupLeadFloor` and `groupLeadPerRoute`
abbrev pub group_lead_floor : ℤ
group_lead_floor = pos 30000000000

abbrev pub group_lead_per_route : ℤ
group_lead_per_route = pos 50000000

-- `rotationLead`
unfoldable pub rotation_lead : ℤ → ℤ → ℤ
rotation_lead open_time configured =
    let quarter = quot open_time 4 in
    let above = if ltb_ℤ quarter second then second else quarter in
    let lead = if ltb_ℤ group_lead_floor above then group_lead_floor else above in
    if ltb_ℤ (pos 0) configured
    then (if leb_ℤ open_time configured then quot open_time 2 else configured)
    else if leb_ℤ open_time lead
    then quot open_time 2
    else lead

-- `groupRotationLead`: the lead and the need.
unfoldable pub group_need : ℤ → ℕ → ℤ → ℤ
group_need configured routes measured_per_route =
    max_ℤ configured
      (max_ℤ group_lead_floor (scale (max_ℤ group_lead_per_route measured_per_route) routes))

unfoldable pub clamp_lead : ℤ → ℤ → ℤ
clamp_lead open_time need =
    let upper = quot open_time 2 in let lower = min_ℤ second upper in min_ℤ (max_ℤ need lower) upper

unfoldable pub group_rotation_lead : ℤ → ℤ → ℕ → ℤ → ℤ × ℤ
unfolding group_need clamp_lead
group_rotation_lead open_time configured routes measured_per_route =
    let need = group_need configured routes measured_per_route in (clamp_lead open_time need, need)

-- `nextBackoff`
unfoldable pub next_backoff : ℤ → ℤ → ℤ
next_backoff current maximum = if leb_ℤ (quot maximum 2) current then maximum else scale current 2

-- What `jitter` passes to `rand.Int64N`, and its result for the number `r` that this returns.
unfoldable pub jitter_range : ℤ → ℤ
jitter_range d = d -ℤ quot d 2

unfoldable pub jitter : ℤ → ℤ → ℤ
jitter d r = if leb_ℤ d (pos 1) then d else quot d 2 +ℤ r
