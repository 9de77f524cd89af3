-- ===== src/Share/Group/Generations.antt =====
-- Which routes of a group change their generation, and so their proxy name.
use qurl_connector.Base.{
  ℕ, ◌≡◌, ◌≢◌, inl, inr, refl, ◌∙◌, ap, Bool, true, false, ◌&&◌, ◌||◌, none, some, List, [], ◌∷◌,
  Bytes, bytes_eq, bytes_beq, bytes_beq_iff, ◌==◌, any, All, map, arith, Bool-cases, Option-cases,
  if◌then◌else◌,
}
use qurl_connector.Base.Maps.{lookup, lookup-insert, lookup-erase}
use qurl_connector.Base.Distinct.{Distinct}
use qurl_connector.Share.Route.{LocalHttpRoute, equal}
use qurl_connector.Share.GroupSession.{bump64}
use qurl_connector.Share.GroupSession.Lifecycle.{RouteState}
use qurl_connector.Share.Group.{
  Desired, Restarts, States, generation_of, restart, table_of, changes_identity, is_changed,
  restart_changed, set_routes, is_gone, Withdrawn, withdraw_one, withdraw_from, withdraw_gone,
}

generation_of-restart :
    (id j : Bytes) (m : Restarts)
    → generation_of j (restart id m)
      ≡ (if id == j then bump64 (generation_of j m) else generation_of j m)
unfolding generation_of restart
generation_of-restart id j m =
    ground (arith, lookup-insert id j (bump64 (generation_of id m)) m, bytes_beq_iff id j)

abbrev pub keys : Desired → List Bytes
keys d = map (λ (x : Bytes × LocalHttpRoute). x.0) d

lookup_absent : (j : Bytes) (d : Desired) → All (λ k. j ≢ k) (keys d) → lookup j d ≡ none
unfolding lookup
lookup_absent j [] h = refl
lookup_absent j ((k, c) ∷ d) h = ground (arith, bytes_beq_iff k j, lookup_absent j d h.1, h.0)

-- The generation of a route after `SetRoutes`: kept for a route that was not desired, or that is
-- again desired and equal, and one higher otherwise.
pub regenerated : Desired → Desired → Bytes → ℕ → ℕ
regenerated next desired j n = elim (lookup j desired) [
  | none ↦ n
  | some c ↦ elim (lookup j next) [ none ↦ bump64 n | some r ↦ if equal c r then n else bump64 n ]
]

regenerated_nil : (next : Desired) (j : Bytes) (n : ℕ) → n ≡ regenerated next [] j n
unfolding regenerated lookup
regenerated_nil next j n = refl

regenerated_head :
    (next : Desired) (id j : Bytes) (c : LocalHttpRoute) (d : Desired) (m : Restarts)
    → All (λ k. id ≢ k) (keys d)
    → regenerated next d j (generation_of j (if is_changed next id c then restart id m else m))
      ≡ regenerated next ((id, c) ∷ d) j (generation_of j m)
unfolding regenerated lookup is_changed
regenerated_head next id j c d m fresh = elim (Bool-cases (bytes_beq id j)) [
  | inl same ↦
      let e : id ≡ j = (bytes_beq_iff id j).0 same in
      ground (arith, lookup_absent id d fresh, generation_of-restart id j m)
  | inr other ↦ ground (arith, generation_of-restart id j m)
]

restart_changed_lem :
    (next d : Desired) (m : Restarts) (j : Bytes)
    → Distinct (keys d)
    → generation_of j (restart_changed next d m) ≡ regenerated next d j (generation_of j m)
unfolding restart_changed
restart_changed_lem next [] m j u = regenerated_nil next j (generation_of j m)
restart_changed_lem next ((id, c) ∷ d) m j u =
    restart_changed_lem next d (if is_changed next id c then restart id m else m) j u.1
    ∙ regenerated_head next id j c d m u.0

-- A route of the new set has the resource identity of the desired route of its ID, if there is one.
abbrev pub KeepsIdentity : Desired → LocalHttpRoute → Type 0
KeepsIdentity desired r = elim (lookup r.route_id desired) [
  | none ↦ Unit
  | some c ↦
      (c.resource_public_key ≡ r.resource_public_key)
      × (c.connector_routing_id ≡ r.connector_routing_id)
]

keeps_identity :
    (desired : Desired) (r : LocalHttpRoute)
    → changes_identity desired r ≡ false
    → KeepsIdentity desired r
unfolding changes_identity equal
keeps_identity desired r h = elim (Option-cases (lookup r.route_id desired)) [
  | inl e ↦ rw (e, KeepsIdentity) tt
  | inr (c, e) ↦
      rw (e, KeepsIdentity)
        (
          ground (arith, bytes_beq_iff c.resource_public_key r.resource_public_key),
          ground (arith, bytes_beq_iff c.connector_routing_id r.connector_routing_id),
        )
]

All-keep :
    (desired : Desired) (routes : List LocalHttpRoute)
    → any (λ r. changes_identity desired r) routes ≡ false
    → All (KeepsIdentity desired) routes
All-keep desired [] h = tt
All-keep desired (r ∷ rs) h =
    (keeps_identity desired r (ground arith), All-keep desired rs (ground arith))

-- The runner's maps after an accepted route set.
pub record IsAccepted (routes : List LocalHttpRoute) (desired : Desired) (m : Restarts)
    (next : Desired) (m' : Restarts) : Type 0 where
  pub table : next ≡ table_of routes []
  pub identities : All (KeepsIdentity desired) routes
  pub generations :
      (j : Bytes) → generation_of j m' ≡ regenerated next desired j (generation_of j m)

set_parts :
    (routes : List LocalHttpRoute) (desired next : Desired) (m m' : Restarts)
    → set_routes routes desired m ≡ some (next, m')
    → (any (λ r. changes_identity desired r) routes ≡ false)
      × (next ≡ table_of routes [])
      × (m' ≡ restart_changed next desired m)
unfolding set_routes
set_parts routes desired next m m' h = (ground arith, ground arith, ground arith)

-- An accepted route set becomes the desired one, no route of it changes its resource identity in
-- place, and every route ID's generation is bumped exactly once if its route was removed or changed,
-- and kept otherwise.
pub set_routes-IsAccepted :
    (routes : List LocalHttpRoute) (desired next : Desired) (m m' : Restarts)
    → Distinct (keys desired)
    → set_routes routes desired m ≡ some (next, m')
    → IsAccepted routes desired m next m'
set_routes-IsAccepted routes desired next m m' u h =
    let (kept, table, restarts) = set_parts routes desired next m m' h in
    record {
      table = table;
      identities = All-keep desired routes kept;
      generations = λ j. ap (generation_of j) restarts ∙ restart_changed_lem next desired m j u;
    }

-- Whether the states report a route as permanently gone.
pub gone_in : States → Bytes → Bool
gone_in [] j = false
gone_in ((id, s) ∷ states) j = (id == j && is_gone s) || gone_in states j

abbrev pub is_in : Bytes → Desired → Bool
is_in j d = elim (lookup j d) [ none ↦ false | some r ↦ true ]

withdraw_step :
    (id : Bytes) (s : RouteState) (w : Withdrawn) (j : Bytes)
    → (lookup j (withdraw_one id s w).desired
        ≡ (if id == j && is_gone s then none else lookup j w.desired))
      × (generation_of j (withdraw_one id s w).restarts ≡ (
          if (id == j && is_gone s) && is_in j w.desired
          then bump64 (generation_of j w.restarts)
          else generation_of j w.restarts))
unfolding withdraw_one
withdraw_step id s w j = (
  ground (arith, bytes_beq_iff id j, lookup-erase id j w.desired),
  ground (arith, bytes_beq_iff id j, generation_of-restart id j w.restarts),
)

withdraw_from_lem :
    (states : States) (w : Withdrawn) (j : Bytes)
    → (lookup j (withdraw_from states w).desired
        ≡ (if gone_in states j then none else lookup j w.desired))
      × (generation_of j (withdraw_from states w).restarts ≡ (
          if gone_in states j && is_in j w.desired
          then bump64 (generation_of j w.restarts)
          else generation_of j w.restarts))
unfolding withdraw_from gone_in
withdraw_from_lem [] w j = (refl, refl)
withdraw_from_lem ((id, s) ∷ states) w j =
    let head = withdraw_step id s w j in
    let rest = withdraw_from_lem states (withdraw_one id s w) j in (ground arith, ground arith)

-- Withdrawing permanently failed routes removes exactly those that the states report as gone, bumps
-- the generation of each once if it was desired, and leaves every sibling's route and generation
-- alone.
pub withdraw_gone_lem :
    (states : States) (desired : Desired) (m : Restarts) (j : Bytes)
    → (lookup j (withdraw_gone states desired m).desired
        ≡ (if gone_in states j then none else lookup j desired))
      × (generation_of j (withdraw_gone states desired m).restarts ≡ (
          if gone_in states j && is_in j desired
          then bump64 (generation_of j m)
          else generation_of j m))
unfolding withdraw_gone
withdraw_gone_lem states desired m j =
    withdraw_from_lem states (record { desired = desired; restarts = m; gone = [] }) j
