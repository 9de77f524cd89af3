-- ===== src/Share/GroupSession/Update/Identities.antt =====
-- What a route set that ValidateGroupRoutes accepts satisfies.
use qurl_connector.Base.{
  ◌≤◌, ◌<◌, ◌≡◌, Bool, none, List, [], ◌∷◌, Bytes, bytes_eq, All, map, length, arith,
}
use qurl_connector.Base.Distinct.{Distinct, Unseen, Unseen-tail, Distinct-cons}
use qurl_connector.Share.Route.{LocalHttpRoute, validate_local_http_route}
use qurl_connector.Share.Route.Headers.{HttpGuts}
use qurl_connector.Share.GroupSession.Update.{
  max_group_routes, check_identities, validate_group_routes,
}

module _ (guts : HttpGuts) (windows : Bool) where
  abbrev IsRoute : LocalHttpRoute → Type 0
  IsRoute r = validate_local_http_route guts windows r ≡ none

  check_parts :
      (ids resources routings : List Bytes) (r : LocalHttpRoute) (rs : List LocalHttpRoute)
      → check_identities guts windows ids resources routings (r ∷ rs) ≡ none
      → IsRoute r
        × Unseen ids r.route_id
        × Unseen resources r.resource_public_key
        × Unseen routings r.connector_routing_id
        × (check_identities guts windows
              (r.route_id ∷ ids)
              (r.resource_public_key ∷ resources)
              (r.connector_routing_id ∷ routings)
              rs
            ≡ none)
  unfolding check_identities
  check_parts ids resources routings r rs h =
      (ground arith, ground arith, ground arith, ground arith, ground arith)

  -- The identities of a list of routes, none of them seen before and no two alike.
  record AreFresh (seen names : List Bytes) : Type 0 where
    unseen : All (Unseen seen) names
    distinct : Distinct names

  AreFresh-cons :
      (n : Bytes) (seen names : List Bytes)
      → Unseen seen n
      → AreFresh (n ∷ seen) names
      → AreFresh seen (n ∷ names)
  AreFresh-cons n seen names h f = record {
    unseen = (h, Unseen-tail n seen names f.unseen);
    distinct = Distinct-cons n seen names f.unseen f.distinct;
  }

  check_sound :
      (ids resources routings : List Bytes) (rs : List LocalHttpRoute)
      → check_identities guts windows ids resources routings rs ≡ none
      → All IsRoute rs
        × AreFresh ids (map LocalHttpRoute.route_id rs)
        × AreFresh resources (map LocalHttpRoute.resource_public_key rs)
        × AreFresh routings (map LocalHttpRoute.connector_routing_id rs)
  check_sound ids resources routings [] h = (
    tt,
    record { unseen = tt; distinct = tt },
    record { unseen = tt; distinct = tt },
    record { unseen = tt; distinct = tt },
  )
  check_sound ids resources routings (r ∷ rs) h =
      let (valid, i, s, t, more) = check_parts ids resources routings r rs h in
      let (rest, is, ss, ts) =
        check_sound (r.route_id ∷ ids) (r.resource_public_key ∷ resources)
          (r.connector_routing_id ∷ routings) rs more in
      (
        (valid, rest),
        AreFresh-cons r.route_id ids (map LocalHttpRoute.route_id rs) i is,
        AreFresh-cons r.resource_public_key resources (map LocalHttpRoute.resource_public_key rs) s
            ss,
        AreFresh-cons r.connector_routing_id routings (map LocalHttpRoute.connector_routing_id rs) t
            ts,
      )

  -- A route set that one admission can carry.
  pub record IsGroup (rs : List LocalHttpRoute) : Type 0 where
    pub some_route : 0 < length rs
    pub bounded : length rs ≤ max_group_routes
    pub valid : All IsRoute rs
    pub route_ids : Distinct (map LocalHttpRoute.route_id rs)
    pub resources : Distinct (map LocalHttpRoute.resource_public_key rs)
    pub routings : Distinct (map LocalHttpRoute.connector_routing_id rs)

  validate_parts :
      (rs : List LocalHttpRoute)
      → validate_group_routes guts windows rs ≡ none
      → (0 < length rs)
        × (length rs ≤ max_group_routes)
        × (check_identities guts windows [] [] [] rs ≡ none)
  unfolding validate_group_routes
  validate_parts [] h = cc
  validate_parts (r ∷ rs) h = (ground arith, ground arith, ground arith)

  -- An accepted group has between one and two thousand routes, each valid by itself, and no two of
  -- them share a route ID, a public resource, or a connector routing ID.
  pub groups_sound :
      (rs : List LocalHttpRoute) → validate_group_routes guts windows rs ≡ none → IsGroup rs
  groups_sound rs h =
      let (n, m, checked) = validate_parts rs h in
      let (valid, ids, resources, routings) = check_sound [] [] [] rs checked in
      record {
        some_route = n;
        bounded = m;
        valid = valid;
        route_ids = ids.distinct;
        resources = resources.distinct;
        routings = routings.distinct;
      }
