-- ===== src/Tests/Share.antt =====
-- Runs of pkg/share on a group of two routes.
use qurl_connector.Base.{
  ℕ, ◌≡◌, refl, false, true, none, some, [], ◌∷◌, Bytes, bytes_eq, bytes_beq, codes, arith, All,
  ◌++◌, if◌then◌else◌, ◌&&◌,
}
use qurl_connector.Base.Int.{pos}
use qurl_connector.Base.Maps.{lookup, insert, erase}
use qurl_connector.Base.Sort.{bytes_ltb, insert_by, sort_by}
use qurl_connector.Share.Timing.{group_rotation_lead}
use qurl_connector.Share.Timing.Bounds.{CoversGroup, group_lead-CoversGroup}
use qurl_connector.Share.Route.{LocalHttpRoute, equal}
use qurl_connector.Share.Route.Headers.{same_headers}
use qurl_connector.Share.GroupSession.{
  GroupRoute, pending, serving, failed, RoutePhase, resource_gone, bump64, route_before,
  group_equal,
}
use qurl_connector.Share.GroupSession.Lifecycle.{RouteState}
use qurl_connector.Share.Group.{
  Desired, Restarts, States, set_routes, table_of, changes_identity, is_changed, restart_changed,
  restart, generation_of, apply_active, desired_routes, cycle_serving, serves, report_not_serving,
  retain_routes, retained, withdraw_gone, routes_served_by, serves_all, with_generations,
}
use qurl_connector.Share.Group.Generations.{
  IsAccepted, set_routes-IsAccepted, gone_in, is_in, withdraw_gone_lem,
}
use qurl_connector.Share.Group.Measurement.{Cycle, observe_registration}
use qurl_connector.Share.Group.Measurement.Frozen.{IsMeasured, observe_registration-IsMeasured}
use qurl_connector.Share.Group.Rotation.{Carries, rotating-Carries, cycle_serving_keeps}

-- A window of two minutes with a hundred routes at a measured cost of 200 ms.
group_lead-CoversGroup_example :
    CoversGroup
      (pos 120000000000)
      (pos 0)
      100
      200000000
      (group_rotation_lead (pos 120000000000) (pos 0) 100 (pos 200000000)).0
      (group_rotation_lead (pos 120000000000) (pos 0) 100 (pos 200000000)).1
group_lead-CoversGroup_example =
    group_lead-CoversGroup (pos 120000000000) (pos 0) 100 200000000 (omega arith) (omega arith)
      (omega arith)

abbrev route_to : Bytes → ℕ → LocalHttpRoute
route_to id port = record {
  route_id = id;
  local_ip = codes "127.0.0.1";
  local_port = port;
  local_socket_path = [];
  local_pipe_name = [];
  resource_public_key = codes "pk" ++ id;
  connector_routing_id = codes "rt" ++ id;
  request_headers = (codes "X-Mark", []) ∷ [];
}

abbrev web : LocalHttpRoute
web = route_to ((b'w' ∷ [])) 8080

abbrev api : LocalHttpRoute
api = route_to ((b'a' ∷ [])) 9090

abbrev web_moved : LocalHttpRoute
web_moved = route_to ((b'w' ∷ [])) 8081

abbrev desired : Desired
desired = ((b'w' ∷ []), web) ∷ ((b'a' ∷ []), api) ∷ []

abbrev desired_next : Desired
desired_next = ((b'w' ∷ []), web_moved) ∷ []

abbrev restarts_next : Restarts
restarts_next = ((b'w' ∷ []), 1) ∷ ((b'a' ∷ []), 1) ∷ []

-- The definitions that a run of the runner's maps passes through.
group_run : Unit {0}
unfolding set_routes table_of changes_identity is_changed restart_changed restart generation_of
    lookup insert erase bytes_beq equal same_headers desired_routes retain_routes retained sort_by
    insert_by bytes_ltb route_before apply_active cycle_serving serves routes_served_by serves_all
    group_equal with_generations
group_run = tt

set_routes-IsAccepted_example : IsAccepted (web_moved ∷ []) desired [] desired_next restarts_next
unfolding group_run
set_routes-IsAccepted_example =
    set_routes-IsAccepted (web_moved ∷ []) desired desired_next [] restarts_next
      ((λ e. ground arith, tt), (tt, tt)) refl

abbrev group_route : LocalHttpRoute → GroupRoute
group_route r = record { route = r; generation = 0 }

abbrev state_at : LocalHttpRoute → RoutePhase → RouteState
state_at r phase = record {
  route = group_route r;
  proxy_name = r.route_id;
  phase = phase;
  err = none;
}

abbrev both_serving : States
both_serving = ((b'w' ∷ []), state_at web serving) ∷ ((b'a' ∷ []), state_at api serving) ∷ []

abbrev web_serving : States
web_serving = ((b'w' ∷ []), state_at web serving) ∷ ((b'a' ∷ []), state_at api pending) ∷ []

rotating-Carries_example : All (Carries both_serving) (group_route api ∷ group_route web ∷ [])
unfolding group_run
rotating-Carries_example =
    rotating-Carries both_serving desired [] (group_route api ∷ group_route web ∷ []) refl

cycle_serving_keeps_example : serves both_serving ((b'w' ∷ [])) ≡ true
unfolding group_run
cycle_serving_keeps_example =
    cycle_serving_keeps both_serving both_serving desired ((b'w' ∷ [])) web refl refl refl

-- The one route that the replacement does not serve, where there is a callback.
reported : report_not_serving true both_serving web_serving desired ≡ (b'a' ∷ []) ∷ []
unfolding group_run report_not_serving routes_served_by sort_by bytes_ltb
reported = refl

unreported : report_not_serving false both_serving web_serving desired ≡ []
unfolding report_not_serving
unreported = refl

abbrev web_gone : States
web_gone =
    (
      (b'w' ∷ []),
      record {
        route = group_route web;
        proxy_name = (b'w' ∷ []);
        phase = failed;
        err = some (resource_gone []);
      },
    )
    ∷ []

withdraw_gone_lem_example :
    (lookup ((b'a' ∷ [])) (withdraw_gone web_gone desired []).desired
      ≡ (if gone_in web_gone ((b'a' ∷ [])) then none else lookup ((b'a' ∷ [])) desired))
    × (generation_of ((b'a' ∷ [])) (withdraw_gone web_gone desired []).restarts ≡ (
        if gone_in web_gone ((b'a' ∷ [])) && is_in ((b'a' ∷ [])) desired
        then bump64 (generation_of ((b'a' ∷ [])) [])
        else generation_of ((b'a' ∷ [])) []))
withdraw_gone_lem_example = withdraw_gone_lem web_gone desired [] ((b'a' ∷ []))

-- Two of two routes serve half a second after the first.
abbrev cycle : Cycle
cycle = record {
  initial = (b'w' ∷ []) ∷ (b'a' ∷ []) ∷ [];
  first_serving_at = some 1000000000;
  high_water = 1;
  measured = false;
  added = [];
  added_started = none;
  added_singleton = none;
  added_high_water = 0;
  added_first = 0;
  added_per_route = pos 0;
}

observe_registration-IsMeasured_example :
    IsMeasured cycle both_serving
      (pos 0)
      (observe_registration cycle both_serving 1500000000 (pos 0)).0
      (observe_registration cycle both_serving 1500000000 (pos 0)).1
observe_registration-IsMeasured_example =
    observe_registration-IsMeasured cycle both_serving 1500000000 (pos 0) (omega arith)
