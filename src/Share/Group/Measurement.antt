-- ===== src/Share/Group/Measurement.antt =====
-- observeRegistration and observeAddedRegistration of group.go: the measured cost of a registration.
pub mod Frozen
use qurl_connector.Base.{
  ℕ, zero, suc, ◌+◌, ◌-◌, Bool, true, false, not, ◌&&◌, ◌||◌, Option, none, some, List, [], ◌∷◌,
  Bytes, bytes_eq, ◌==◌, ltb, leb, nat_beq, any, length, if◌then◌else◌,
}
use qurl_connector.Base.Int.{ℤ, pos, max_ℤ, scale, quot}
use qurl_connector.Base.Maps.{lookup}
use qurl_connector.Share.GroupSession.{is_pending}
use qurl_connector.Share.GroupSession.Lifecycle.{RouteState}
use qurl_connector.Share.Group.{States, serves}

-- The measuring fields of `groupCycle`; a time is in nanoseconds, and `none` is the zero time.
pub record Cycle : Type 0 where
  pub initial : List Bytes
  pub first_serving_at : Option ℕ
  pub high_water : ℕ
  pub measured : Bool
  pub added : List Bytes
  pub added_started : Option ℕ
  pub added_singleton : Option ℕ
  pub added_high_water : ℕ
  pub added_first : ℕ
  pub added_per_route : ℤ

-- A duration widened by `groupLeadMarginNum / groupLeadMarginDen`.
unfoldable pub widened : ℕ → ℤ
widened spacing = quot (scale (pos spacing) 3) 2

abbrev contains : Bytes → List Bytes → Bool
contains id ids = any (λ x. x == id) ids

unfoldable pub is_pending_in : States → Bytes → Bool
is_pending_in states id = elim (lookup id states) [ none ↦ false | some s ↦ is_pending s.phase ]

unfoldable pub count_by : (Bytes → Bool) → List Bytes → ℕ
count_by p [] = 0
count_by p (id ∷ ids) = (if p id then 1 else 0) + count_by p ids

-- The pending routes that the cycle did not start with.
unfoldable pub pending_added : Cycle → States → List Bytes
pending_added c [] = []
pending_added c ((id, s) ∷ states) =
    let rest = pending_added c states in
    if is_pending s.phase && not (contains id c.initial) then id ∷ rest else rest

unfoldable pub pending_work : States → ℕ
pending_work [] = 0
pending_work ((id, s) ∷ states) = (if is_pending s.phase then 1 else 0) + pending_work states

-- A fresh snapshot of the pending additions, if one of them is not in the last snapshot.
unfoldable pub capture : Cycle → States → ℕ → Cycle
capture c states now =
    let waiting = pending_added c states in
    let lone = nat_beq (length waiting) 1 && nat_beq (pending_work states) 1 in
    if any (λ id. not (contains id c.added)) waiting
    then record c {
      added = waiting;
      added_started = none;
      added_singleton = if lone then some now else none;
      added_high_water = 0;
      added_first = 0;
    }
    else c

-- The cost of one addition, when `serving` of the snapshot serve.
unfoldable pub added_cost : Cycle → ℕ → ℕ → ℤ
added_cost c serving now = elim c.added_started [
  | some at ↦
      if ltb c.added_first serving
      then quot (widened (now - at)) (serving - c.added_first)
      else elim c.added_singleton [ none ↦ pos 0 | some t ↦ widened (now - t) ]
  | none ↦ elim c.added_singleton [ none ↦ pos 0 | some t ↦ widened (now - t) ]
]

-- The first success of a snapshot starts its clock.
unfoldable pub start_added : Cycle → ℕ → ℕ → Cycle
start_added c serving now = elim c.added_started [
  | some at ↦ record c { added_high_water = serving }
  | none ↦ record c { added_high_water = serving; added_started = some now; added_first = serving }
]

-- The end of `observeAddedRegistration`: the snapshot's cycle and the runner's estimate, when
-- `serving` of the snapshot serve and `waiting` of it are pending.
unfoldable pub added_step : Cycle → ℕ → ℕ → ℕ → ℤ → Cycle × ℤ
added_step c serving waiting now estimate =
    let started = start_added c serving now in
    let per_route = max_ℤ c.added_per_route (added_cost started serving now) in
    let grows = ltb c.added_high_water serving in
    let next = if grows then record started { added_per_route = per_route } else c in
    (
      if nat_beq waiting 0 then record next { added = [] } else next,
      if grows then max_ℤ estimate per_route else estimate,
    )

-- `observeAddedRegistration`
unfoldable pub observe_added : Cycle → States → ℕ → ℤ → Cycle × ℤ
observe_added c states now estimate =
    let snapshot = capture c states now in
    added_step snapshot (count_by (serves states) snapshot.added)
      (count_by (is_pending_in states) snapshot.added) now estimate

-- The time of the first success, and the cost of one of the later ones.
unfoldable pub first_serving : Cycle → ℕ → ℕ
first_serving c now = elim c.first_serving_at [ none ↦ now | some at ↦ at ]

unfoldable pub batch_cost : Cycle → ℕ → ℕ → ℤ
batch_cost c serving now = quot (widened (now - first_serving c now)) (serving - 1)

-- The rest of `observeRegistration`, on the routes that the cycle started with.
unfoldable pub observe_initial : Cycle → States → ℕ → ℤ → Cycle × ℤ
observe_initial c states now estimate =
    let serving = count_by (serves states) c.initial in
    let started = record c { first_serving_at = some (first_serving c now) } in
    let grown = record started {
      high_water = serving;
      measured = leb (length c.initial) serving;
    } in
    if c.measured || nat_beq serving 0
    then (c, estimate)
    else if leb serving c.high_water
    then (started, estimate)
    else if ltb serving 2
    then (grown, estimate)
    else (grown, max_ℤ (batch_cost c serving now) c.added_per_route)

-- `observeRegistration`
unfoldable pub observe_registration : Cycle → States → ℕ → ℤ → Cycle × ℤ
observe_registration c states now estimate =
    let (c', e) = observe_added c states now estimate in observe_initial c' states now e
