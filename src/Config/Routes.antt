-- ===== src/Config/Routes.antt =====
-- pkg/config/validate.go: connector routing IDs in base32, and the checks of the routes in `validate`.
-- `qurlcrid.Validate` is a parameter.
pub mod Sound
pub mod Accepted
use qurl_connector.Base.{
  ℕ, zero, suc, ◌+◌, ◌-◌, ◌*◌, ◌/◌, ◌%◌, ◌^◌, Bool, true, false, not, ◌&&◌, ◌||◌, Option, none,
  some, List, [], ◌∷◌, ◌++◌, Bytes, bytes_eq, ◌==◌, codes, leb, ltb, nat_beq, is_empty, length,
  if◌then◌else◌,
}
use qurl_connector.Base.Int.{ℤ, pos, ltb_ℤ}
use qurl_connector.Base.Maps.{lookup, insert}
use qurl_connector.Strings.{cut_prefix, has_prefix}
use qurl_connector.Config.Identities.{
  Route, IdentityError, validate_slug, validate_exact_opaque_identifier,
  validate_managed_route_identities,
}

-- A digit of base32 in lower case.
abbrev digit32 : ℕ → Option ℕ
digit32 c =
    if leb b'a' c && leb c b'z'
    then some (c - 97)
    else if leb b'2' c && leb c b'7'
    then some (c - 24)
    else none

-- The `n` low bits of a number, the highest first.
bits : ℕ → ℕ → List Bool
bits zero v = []
bits (suc n) v = nat_beq ((v / 2 ^ n) % 2) 1 ∷ bits n v

with_digit : Option ℕ → Option (List Bool) → Option (List Bool)
unfolding bits
with_digit (some v) (some rest) = some (bits 5 v ++ rest)
with_digit _ _ = none

unfoldable pub bits32 : Bytes → Option (List Bool)
unfolding with_digit
bits32 [] = some []
bits32 (c ∷ s) = with_digit (digit32 c) (bits32 s)

-- The whole octets of some bits, which is all that decoding keeps.
unfoldable pub octets : List Bool → List Bool
octets (a ∷ b ∷ c ∷ d ∷ e ∷ f ∷ g ∷ h ∷ s) = a ∷ b ∷ c ∷ d ∷ e ∷ f ∷ g ∷ h ∷ octets s
octets _ = []

-- The quintets of some bits, the last filled up with zeros, which is what encoding writes.
unfoldable pub quintets : List Bool → List Bool
quintets [] = []
quintets (a ∷ []) = a ∷ false ∷ false ∷ false ∷ false ∷ []
quintets (a ∷ b ∷ []) = a ∷ b ∷ false ∷ false ∷ false ∷ []
quintets (a ∷ b ∷ c ∷ []) = a ∷ b ∷ c ∷ false ∷ false ∷ []
quintets (a ∷ b ∷ c ∷ d ∷ []) = a ∷ b ∷ c ∷ d ∷ false ∷ []
quintets (a ∷ b ∷ c ∷ d ∷ e ∷ s) = a ∷ b ∷ c ∷ d ∷ e ∷ quintets s

abbrev same_bit : Bool → Bool → Bool
same_bit a b = if a then b else not b

same_bits : List Bool → List Bool → Bool
same_bits [] [] = true
same_bits (a ∷ s) (b ∷ t) = same_bit a b && same_bits s t
same_bits _ _ = false

-- The payload decodes, and what it decodes to encodes as the payload.
canonical32 : Option (List Bool) → Bool
unfolding octets quintets same_bits
canonical32 none = false
canonical32 (some s) = same_bits (quintets (octets s)) s

-- `ValidateConnectorRoutingID`
unfoldable pub validate_connector_routing_id : Bytes → Bool
unfolding bits32 canonical32
validate_connector_routing_id (x ∷ y ∷ payload) =
    nat_beq (length payload) 52
    && ((nat_beq x b'c' && nat_beq y b'-') && canonical32 (bits32 payload))
validate_connector_routing_id _ = false

pub record ConfigRoute : Type 0 where
  pub identity : Route
  pub route_type : Bytes
  pub local_port : ℤ
  pub knock_resource_id : Bytes

pub data RouteError : Type 0 where
  id_required bad_id duplicate_id unsupported_type bad_port routing_required bad_crid bad_knock
        crid_required bad_routing :
      RouteError

-- An error of one route, by its position.
abbrev pub ErrorAt : Type 0
ErrorAt = ℕ × RouteError

unfoldable pub error_when : Bool → ℕ → RouteError → List ErrorAt
error_when true i e = (i, e) ∷ []
error_when false i e = []

abbrev pub SeenIds : Type 0
SeenIds = List (Bytes × Bool)

unfoldable pub is_seen : Bytes → SeenIds → Bool
is_seen id seen = elim (lookup id seen) [ none ↦ false | some b ↦ b ]

-- The checks of a route's ID, in a list of `n` routes.
unfoldable pub id_errors : ℕ → ℕ → SeenIds → Route → List ErrorAt
unfolding error_when is_seen
id_errors n i seen r =
    if is_empty r.id
    then error_when (not (is_empty r.crid) || not (nat_beq n 1)) i id_required
    else if not (validate_slug r.id)
    then error_when true i bad_id
    else error_when (is_seen r.id seen) i duplicate_id

unfoldable pub see_id : SeenIds → Route → SeenIds
see_id seen r = if is_empty r.id || not (validate_slug r.id) then seen else insert r.id true seen

abbrev pub bad_port_number : ℤ → Bool
bad_port_number p = ltb_ℤ p (pos 1) || ltb_ℤ (pos 65535) p

unfoldable pub is_opaque : Bytes → Bool
is_opaque s = elim (validate_exact_opaque_identifier s) [ none ↦ true | some e ↦ false ]

unfoldable pub identities : List ConfigRoute → List Route
identities [] = []
identities (r ∷ rs) = r.identity ∷ identities rs

module _ (valid_crid : Bytes → Bool) (require_managed_routing : Bool) where
  -- The checks of one route that need no other.
  unfoldable pub own_errors : ℕ → ConfigRoute → List ErrorAt
  unfolding error_when is_opaque
  own_errors i r =
      let crid = r.identity.crid in
      let routing = r.identity.connector_routing_id in
      error_when (not (r.route_type == codes "http")) i unsupported_type
      ++ (error_when (bad_port_number r.local_port) i bad_port
          ++ (error_when (require_managed_routing && (not (is_empty crid) && is_empty routing)) i
                routing_required
              ++ (error_when (not (is_empty crid) && not (valid_crid crid)) i bad_crid
                  ++ (error_when
                        (not (is_empty r.knock_resource_id) && not (is_opaque r.knock_resource_id))
                        i bad_knock
                      ++ (error_when (not (is_empty routing) && is_empty crid) i crid_required
                          ++ error_when
                              (not (is_empty routing)
                                && not (validate_connector_routing_id routing))
                              i bad_routing)))))

  -- The loop of `validate` over the routes.
  unfoldable pub route_errors : ℕ → ℕ → SeenIds → List ConfigRoute → List ErrorAt
  unfolding own_errors id_errors see_id
  route_errors n i seen [] = []
  route_errors n i seen (r ∷ rs) =
      id_errors n i seen r.identity
      ++ (own_errors i r ++ route_errors n (i + 1) (see_id seen r.identity) rs)

  -- The part of `validate` on routes.
  unfoldable pub validate_routes : List ConfigRoute → List ErrorAt × List IdentityError
  unfolding route_errors identities
  validate_routes routes = (
    route_errors (length routes) 0 [] routes,
    validate_managed_route_identities (identities routes),
  )
