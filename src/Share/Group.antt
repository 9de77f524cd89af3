-- ===== src/Share/Group.antt =====
-- pkg/share/group.go: the desired routes of a SessionGroupRunner and what its sessions are told.
pub mod Generations
pub mod Rotation
pub mod Measurement
use qurl_connector.Base.{
  ℕ, ◌+◌, ◌%◌, Bool, true, false, not, ◌&&◌, ◌||◌, Option, none, some, List, [], ◌∷◌, Bytes,
  bytes_eq, ◌==◌, ◌!=◌, is_empty, any, map, if◌then◌else◌,
}
use qurl_connector.Base.Maps.{lookup, insert, erase}
use qurl_connector.Base.Sort.{bytes_ltb, sort_by}
use qurl_connector.Share.Route.{LocalHttpRoute, equal}
use qurl_connector.Share.GroupSession.{
  GroupRoute, RouteError, resource_gone, bump64, is_serving, is_failed, route_before,
}
use qurl_connector.Share.GroupSession.Lifecycle.{RouteState}

-- The maps of the runner: the desired routes, and each route's generation for its lifetime.
abbrev pub Desired : Type 0
Desired = List (Bytes × LocalHttpRoute)

abbrev pub Restarts : Type 0
Restarts = List (Bytes × ℕ)

abbrev pub States : Type 0
States = List (Bytes × RouteState)

-- `r.restarts[id]`, zero if there is none; and `r.restarts[id]++` on a uint64.
unfoldable pub generation_of : Bytes → Restarts → ℕ
generation_of id m = elim (lookup id m) [ none ↦ 0 | some n ↦ n ]

unfoldable pub restart : Bytes → Restarts → Restarts
restart id m = insert id (bump64 (generation_of id m)) m

-- The map from route IDs that `SetRoutes` and `NewSessionGroupRunner` fill.
unfoldable pub table_of : List LocalHttpRoute → Desired → Desired
table_of [] m = m
table_of (r ∷ rs) m = table_of rs (insert r.route_id r m)

-- Whether a route changes its resource identity in place.
unfoldable pub changes_identity : Desired → LocalHttpRoute → Bool
changes_identity desired r = elim (lookup r.route_id desired) [
  | none ↦ false
  | some c ↦
      not (equal c r)
      && ((c.resource_public_key != r.resource_public_key)
          || (c.connector_routing_id != r.connector_routing_id))
]

-- Whether a desired route was removed, or its target or headers changed.
unfoldable pub is_changed : Desired → Bytes → LocalHttpRoute → Bool
is_changed next id c = elim (lookup id next) [ none ↦ true | some r ↦ not (equal c r) ]

unfoldable pub restart_changed : Desired → Desired → Restarts → Restarts
restart_changed next [] m = m
restart_changed next ((id, c) ∷ d) m =
    restart_changed next d (if is_changed next id c then restart id m else m)

-- `SetRoutes` on the runner's maps, after its validation; `none` is a changed identity.
unfoldable pub set_routes : List LocalHttpRoute → Desired → Restarts → Option (Desired × Restarts)
set_routes routes desired m =
    let next = table_of routes [] in
    if any (λ r. changes_identity desired r) routes
    then none
    else some (next, restart_changed next desired m)

-- `RestartRoute` on the runner's maps; `none` is a route that is not in the group.
unfoldable pub restart_route : Bytes → Desired → Restarts → Option Restarts
restart_route id desired m = elim (lookup id desired) [ none ↦ none | some r ↦ some (restart id m) ]

unfoldable pub with_generations : Desired → Restarts → List GroupRoute
with_generations [] m = []
with_generations ((id, r) ∷ d) m =
    record { route = r; generation = generation_of id m } ∷ with_generations d m

-- `desiredRoutesLocked`
unfoldable pub desired_routes : Desired → Restarts → List GroupRoute
unfolding with_generations
desired_routes desired m = sort_by route_before (with_generations desired m)

unfoldable pub retained : States → List GroupRoute → List GroupRoute
retained states [] = []
retained states (r ∷ rs) =
    let rest = retained states rs in
    elim (lookup r.route.route_id states) [
      | none ↦ rest
      | some s ↦ if is_failed s.phase then rest else s.route ∷ rest
    ]

-- `retainRoutes`
unfoldable pub retain_routes : States → List GroupRoute → List GroupRoute
unfolding retained
retain_routes states desired = sort_by route_before (retained states desired)

-- The two updates of `apply`: the set for the replacement that is being built, and the set for the
-- active session, whose states it reads while rotating. `none` is a session that is not there or has
-- ended.
unfoldable pub apply_pending : Bool → Desired → Restarts → Option (List GroupRoute)
apply_pending live desired m = if live then some (desired_routes desired m) else none

unfoldable pub apply_active : Bool → Bool → States → Desired → Restarts → Option (List GroupRoute)
apply_active live rotating states desired m =
    let routes = desired_routes desired m in
    if not live then none else if rotating then some (retain_routes states routes) else some routes

-- `countServing` and `anyRouteServing`
unfoldable pub any_route_serving : States → Bool
any_route_serving states = any (λ x. is_serving x.1.phase) states

-- `routesServedBy` a session with these states, among the desired routes.
unfoldable pub routes_served_by : States → Desired → List Bytes
routes_served_by [] desired = []
routes_served_by ((id, s) ∷ states) desired =
    let rest = routes_served_by states desired in
    let wanted : Bool = elim (lookup id desired) [ none ↦ false | some r ↦ true ] in
    if is_serving s.phase && wanted then id ∷ rest else rest

unfoldable pub serves : States → Bytes → Bool
serves states id = elim (lookup id states) [ none ↦ false | some s ↦ is_serving s.phase ]

unfoldable pub serves_all : States → List Bytes → Bool
serves_all states [] = true
serves_all states (id ∷ ids) = serves states id && serves_all states ids

-- `cycleServing`: `old` is the retiring session's states, if there is one.
unfoldable pub cycle_serving : States → Option States → Desired → Bool
cycle_serving states old desired =
    let needed : List Bytes = elim old [ none ↦ [] | some o ↦ routes_served_by o desired ] in
    if is_empty needed then any_route_serving states else serves_all states needed

unfoldable pub not_serving : States → List Bytes → List Bytes
not_serving states [] = []
not_serving states (id ∷ ids) =
    let rest = not_serving states ids in if serves states id then rest else id ∷ rest

-- The routes that `reportNotServing` reports, none without a callback to report them to.
unfoldable pub report_not_serving : Bool → States → States → Desired → List Bytes
unfolding not_serving
report_not_serving has_callback old states desired =
    if not has_callback
    then []
    else sort_by bytes_ltb (not_serving states (routes_served_by old desired))

-- `errors.Is(state.Err, ErrResourceGone)` of a failed route.
unfoldable pub is_gone : RouteState → Bool
is_gone s = is_failed s.phase && elim s.err [ some (resource_gone t) ↦ true | _ ↦ false ]

-- What `withdrawGone` makes of the maps, and the routes that it reports.
pub record Withdrawn : Type 0 where
  pub desired : Desired
  pub restarts : Restarts
  pub gone : List Bytes

pub withdraw_one : Bytes → RouteState → Withdrawn → Withdrawn
withdraw_one id s w = elim (lookup id w.desired) [
  | none ↦ w
  | some r ↦
      if is_gone s
      then record {
        desired = erase id w.desired;
        restarts = restart id w.restarts;
        gone = id ∷ w.gone;
      }
      else w
]

pub withdraw_from : States → Withdrawn → Withdrawn
unfolding withdraw_one
withdraw_from [] w = w
withdraw_from ((id, s) ∷ states) w = withdraw_from states (withdraw_one id s w)

unfoldable pub withdraw_gone : States → Desired → Restarts → Withdrawn
unfolding withdraw_from
withdraw_gone states desired m =
    let w = withdraw_from states (record { desired = desired; restarts = m; gone = [] }) in
    record w { gone = sort_by bytes_ltb w.gone }

-- The first part of `reportActive`: the routes to report, and the names last reported.
unfoldable pub report_serving : States → List (Bytes × Bytes) → List Bytes × List (Bytes × Bytes)
report_serving [] reported = ([], reported)
report_serving ((id, s) ∷ states) reported =
    let again : Bool = elim (lookup id reported) [
      | none ↦ false
      | some name ↦ name == s.proxy_name
    ] in
    let fresh = is_serving s.phase && not again in
    let (ids, last) =
      report_serving states (if fresh then insert id s.proxy_name reported else reported) in
    (if fresh then id ∷ ids else ids, last)
