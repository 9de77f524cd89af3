-- ===== src/Share/GroupSession/Update.antt =====
-- The route set of a session group and its update: validateGroupRouteIdentities and Update.
pub mod Laws
pub mod Identities
use qurl_connector.Base.{
  ℕ, zero, suc, ◌+◌, Bool, true, false, not, ◌&&◌, ◌||◌, Option, none, some, List, [], ◌∷◌, Bytes,
  bytes_eq, ◌==◌, ltb, length, any, map, is_empty, if◌then◌else◌,
}
use qurl_connector.Base.Maps.{lookup, insert}
use qurl_connector.Share.Route.{
  LocalHttpRoute, RouteError, validate_local_http_route, has_request_headers, has_private_origin,
}
use qurl_connector.Share.Route.Headers.{HttpGuts}
use qurl_connector.Share.Route.Transport.{ClientCommonConfig, TransportError, route_transport_error}
use qurl_connector.Share.GroupSession.{
  GroupRoute, Entry, Table, Session, Limits, pending, group_equal, group_proxy_name, bump64, notify,
}
use qurl_connector.Share.GroupSession.Window.{release_window}
use qurl_connector.Share.GroupSession.Push.{Snapshot, begin_push}

-- `MaxGroupRoutes`
abbrev pub max_group_routes : ℕ
max_group_routes = 2000

pub data GroupError : Type 0 where
  no_routes too_many_routes duplicate_route_id duplicate_resource duplicate_routing : GroupError
  invalid_route : RouteError → GroupError

contains : Bytes → List Bytes → Bool
contains x xs = any (λ y. y == x) xs

-- The loop over the routes, with the identities seen so far.
unfoldable pub check_identities :
    HttpGuts → Bool → List Bytes → List Bytes → List Bytes → List LocalHttpRoute → Option GroupError
unfolding contains
check_identities guts windows ids resources routings [] = none
check_identities guts windows ids resources routings (r ∷ rs) =
    let later =
      check_identities guts windows (r.route_id ∷ ids) (r.resource_public_key ∷ resources)
        (r.connector_routing_id ∷ routings) rs in
    elim (validate_local_http_route guts windows r) [
      | some e ↦ some (invalid_route e)
      | none ↦
          if contains r.route_id ids
          then some duplicate_route_id
          else if contains r.resource_public_key resources
          then some duplicate_resource
          else if contains r.connector_routing_id routings
          then some duplicate_routing
          else later
    ]

-- `validateGroupRouteIdentities`
unfoldable pub validate_group_routes : HttpGuts → Bool → List LocalHttpRoute → Option GroupError
validate_group_routes guts windows routes =
    if is_empty routes
    then some no_routes
    else if ltb max_group_routes (length routes)
    then some too_many_routes
    else check_identities guts windows [] [] [] routes

abbrev pub locals : List GroupRoute → List LocalHttpRoute
locals = map GroupRoute.route

pub data UpdateError : Type 0 where
  context_done session_group_ended changed_in_place : UpdateError
  invalid_set : GroupError → UpdateError
  invalid_transport : TransportError → UpdateError

module _ (sha256_hex : Bytes → Bytes) (session_id : ℕ) where
  unfoldable pub fresh_entry : Option Entry → GroupRoute → Entry
  fresh_entry current r = record {
    route = r;
    name = group_proxy_name sha256_hex r session_id;
    phase = pending;
    err = none;
    released = false;
    errored_at = none;
    last_observed = none;
    replaces = elim current [ none ↦ false | some e ↦ e.released ];
  }

  -- The entry of one route in the next table; `none` if it changed under its proxy name.
  unfoldable pub next_entry : Table → GroupRoute → Option Entry
  unfolding fresh_entry
  next_entry old r = elim (lookup r.route.route_id old) [
    | none ↦ some (fresh_entry none r)
    | some e ↦
        if e.name == group_proxy_name sha256_hex r session_id
        then (if group_equal e.route r then some e else none)
        else some (fresh_entry (some e) r)
  ]

  -- The loop of `Update` that builds the next table.
  unfoldable pub next_table : Table → List GroupRoute → Table → Option Table
  next_table old [] next = some next
  next_table old (r ∷ rs) next = elim (next_entry old r) [
    | none ↦ none
    | some e ↦ next_table old rs (insert r.route.route_id e next)
  ]

  -- `Update` up to its push: the error, or the session with the next table. `done` is whether the
  -- caller's context has ended.
  unfoldable pub update_table :
      HttpGuts
      → Bool
      → ClientCommonConfig
      → Limits
      → ℕ
      → Bool
      → List GroupRoute
      → Session
      → Option UpdateError × Session
  unfolding notify
  update_table guts windows common l now done routes s =
      let headered = any (λ r. has_request_headers r) (locals routes) in
      let private = any (λ r. has_private_origin r) (locals routes) in
      let invalid : Option GroupError =
        if is_empty routes then none else validate_group_routes guts windows (locals routes) in
      if done then (some context_done, s) else elim invalid [
        | some e ↦ (some (invalid_set e), s)
        | none ↦ elim (route_transport_error common headered private) [
          | some e ↦ (some (invalid_transport e), s)
          | none ↦
              if s.stopped
              then (some session_group_ended, s)
              else elim (next_table s.routes routes []) [
                | none ↦ (some changed_in_place, s)
                | some next ↦ (
                  none,
                  notify (record s {
                    routes = (release_window l now next).0;
                    version = bump64 s.version;
                  }),
                )
              ]
        ]
      ]
