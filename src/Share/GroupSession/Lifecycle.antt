-- ===== src/Share/GroupSession/Lifecycle.antt =====
-- The life of a session group: its construction, what callers read, and how it ends.
pub mod Steps
pub mod Moves
pub mod Accepted
pub mod Ended
use qurl_connector.Base.{
  ℕ, Bool, true, false, not, ◌&&◌, ◌||◌, Option, none, some, List, [], ◌∷◌, Bytes, bytes_eq, ◌==◌,
  ◌!=◌, nat_beq, if◌then◌else◌,
}
use qurl_connector.Base.Maps.{lookup, insert}
use qurl_connector.Share.Route.{LocalHttpRoute}
use qurl_connector.Share.GroupSession.{
  GroupRoute, Entry, Table, Session, Limits, SessionError, RoutePhase, pending, RouteError,
  group_ended, push_error, is_pending, is_serving, is_none, notify, live_routes,
}
use qurl_connector.Share.GroupSession.Window.{release_window}
use qurl_connector.Share.GroupSession.Update.{fresh_entry}

initial_table : (Bytes → Bytes) → ℕ → List GroupRoute → Table → Table
unfolding fresh_entry
initial_table sha256_hex session_id [] t = t
initial_table sha256_hex session_id (r ∷ rs) t =
    initial_table sha256_hex session_id rs
      (insert r.route.route_id (fresh_entry sha256_hex session_id none r) t)

-- `newFRPGroupSession`, with the Login's proxy set that `Start` renders from it.
unfoldable pub new_session : (Bytes → Bytes) → ℕ → Limits → ℕ → List GroupRoute → Session
unfolding initial_table
new_session sha256_hex session_id l now routes =
    let table = (release_window l now (initial_table sha256_hex session_id routes [])).0 in
    let s : Session = record {
      routes = table;
      version = 0;
      pushed = 0;
      push_err = none;
      push_failures = 0;
      next_push_at = 0;
      err = none;
      stopped = false;
      cancelled = false;
      ready_closed = false;
      done_closed = false;
      changes = false;
      accepted = [];
    } in
    record s { accepted = live_routes s }

unfoldable pub demote : Entry → Entry
demote e = if is_serving e.phase then record e { phase = pending; err = some group_ended } else e

unfoldable pub demote_all : Table → Table
unfolding demote
demote_all [] = []
demote_all ((id, e) ∷ t) = (id, demote e) ∷ demote_all t

abbrev first_err : Option SessionError → Option SessionError → Option SessionError
first_err none e = e
first_err (some e) f = some e

-- The rest of `run` after FRP's service returned `err`.
unfoldable pub run_ended : Option SessionError → Session → Session
unfolding notify
run_ended err s = notify (record s {
  err = first_err s.err err;
  stopped = true;
  routes = demote_all s.routes;
  done_closed = true;
})

-- `fail`
unfoldable pub fail : SessionError → Session → Session
fail e s = record s { err = first_err s.err (some e); cancelled = true }

-- `prepareDrain`
unfoldable pub prepare_drain : Session → Session
prepare_drain s = record s { stopped = true }

-- The body of `shutdown`'s once.
unfoldable pub shutdown : Session → Session
shutdown s = record s { stopped = true; cancelled = true }

pub record RouteState : Type 0 where
  pub route : GroupRoute
  pub proxy_name : Bytes
  pub phase : RoutePhase
  pub err : Option RouteError

unfoldable pub state_of : Option RouteError → Entry → RouteState
state_of owed e = record {
  route = e.route;
  proxy_name = e.name;
  phase = e.phase;
  err = if is_pending e.phase && is_none e.err then owed else e.err;
}

states : Option RouteError → Table → List (Bytes × RouteState)
unfolding state_of
states owed [] = []
states owed ((id, e) ∷ t) = (id, state_of owed e) ∷ states owed t

-- `RouteStates`
unfoldable pub route_states : Session → List (Bytes × RouteState)
unfolding states
route_states s =
    let push : Option RouteError = elim s.push_err [ none ↦ none | some e ↦ some (push_error e) ] in
    states (if nat_beq s.pushed s.version then none else push) s.routes

-- `ServingRouteIDs`
serving_ids : Table → List Bytes
serving_ids [] = []
serving_ids ((id, e) ∷ t) =
    let rest = serving_ids t in if is_serving e.phase then id ∷ rest else rest

unfoldable pub serving_route_ids : Session → List Bytes
unfolding serving_ids
serving_route_ids s = serving_ids s.routes

-- The map of `retainDrainedRoutes` from route IDs to the routes that stay.
kept : List LocalHttpRoute → List (Bytes × LocalHttpRoute) → List (Bytes × LocalHttpRoute)
kept [] m = m
kept (r ∷ rs) m = kept rs (insert r.route_id r m)

keeps_entry : List (Bytes × LocalHttpRoute) → Bytes → Entry → Bool
keeps_entry keep id e = elim (lookup id keep) [
  | none ↦ false
  | some r ↦
      (r.resource_public_key == e.route.route.resource_public_key)
      && (r.connector_routing_id == e.route.route.connector_routing_id)
]

removed : List (Bytes × LocalHttpRoute) → Table → List Bytes
unfolding keeps_entry
removed keep [] = []
removed keep ((id, e) ∷ t) =
    let rest = removed keep t in if keeps_entry keep id e then rest else e.name ∷ rest

-- `retainDrainedRoutes`: the proxies whose connections it closes.
unfoldable pub retain_drained_routes : List LocalHttpRoute → Session → List Bytes
unfolding kept removed
retain_drained_routes routes s = removed (kept routes []) s.routes
