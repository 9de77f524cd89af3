-- ===== src/Tests/Config.antt =====
-- Runs of pkg/config.
use qurl_connector.Base.{◌≡◌, refl, true, false, [], ◌∷◌, List, Bytes, All, bytes_beq, codes}
use qurl_connector.Base.Int.{pos}
use qurl_connector.Base.Maps.{lookup, insert}
use qurl_connector.Config.Identities.{
  validate_slug, check_managed, crid_errors, routing_errors, record_crid, record_routing,
  validate_managed_route_identities,
}
use qurl_connector.Config.Identities.OneToOne.{IsOneToOne}
use qurl_connector.Config.Routes.{
  ConfigRoute, validate_routes, identities, validate_connector_routing_id,
}
use qurl_connector.Config.Routes.Sound.{IsAccepted}
use qurl_connector.Config.Routes.Accepted.{IdsApart, validate_routes_lem}

abbrev config_route : Bytes → Bytes → Bytes → ConfigRoute
config_route id crid label = record {
  identity = record { id = id; crid = crid; connector_routing_id = label };
  route_type = codes "http";
  local_port = pos 8080;
  knock_resource_id = [];
}

abbrev label_a : Bytes
label_a = codes "c-aaaaaaaaaaaaaaaaaaaaaaaaaaaaaaaaaaaaaaaaaaaaaaaaaaaa"

abbrev label_q : Bytes
label_q = codes "c-7aaaaaaaaaaaaaaaaaaaaaaaaaaaaaaaaaaaaaaaaaaaaaaaaaaq"

abbrev config_routes : List ConfigRoute
config_routes =
    config_route (codes "web-app") (codes "r1") label_a
    ∷ config_route (codes "dashboard") (codes "r2") label_q
    ∷ config_route (codes "local") [] []
    ∷ []

accepted : validate_routes (λ crid. true) true config_routes ≡ ([], [])
unfolding validate_routes validate_slug check_managed crid_errors routing_errors record_crid
    record_routing validate_managed_route_identities lookup insert bytes_beq
    validate_connector_routing_id
accepted = refl

validate_routes_lem_example :
    All (IsAccepted (λ crid. true) true 3) config_routes
    × IdsApart config_routes
    × IsOneToOne (identities config_routes)
validate_routes_lem_example = validate_routes_lem (λ crid. true) true config_routes accepted

-- A last digit with a low bit is not what encoding writes.
label_refused :
    validate_connector_routing_id (codes "c-aaaaaaaaaaaaaaaaaaaaaaaaaaaaaaaaaaaaaaaaaaaaaaaaaaab")
    ≡ false
unfolding validate_connector_routing_id
label_refused = refl

slug_accepted : validate_slug (codes "prod--dashboard") ≡ true
unfolding validate_slug
slug_accepted = refl

slug_refused : validate_slug (codes "prod-") ≡ false
unfolding validate_slug
slug_refused = refl
