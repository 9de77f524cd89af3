-- ===== src/Config/Identities.antt =====
-- pkg/config/validate.go: slugs, opaque identifiers, and the identities of managed routes.
pub mod OneToOne
use mathlib.Core.List.{reverse}
use qurl_connector.Base.{
  ℕ, ◌+◌, Bool, true, false, not, ◌&&◌, ◌||◌, Option, none, some, List, [], ◌∷◌, ◌++◌, Bytes,
  bytes_eq, ◌==◌, ◌!=◌, leb, ltb, nat_beq, is_empty, all, any, length, if◌then◌else◌,
}
use qurl_connector.Base.Maps.{lookup, insert}
use qurl_connector.Strings.{is_trimmed}
use qurl_connector.Utf8.{valid_utf8}

is_lower : ℕ → Bool
is_lower c = leb b'a' c && leb c b'z'

is_slug_end : ℕ → Bool
unfolding is_lower
is_slug_end c = is_lower c || (leb b'0' c && leb c b'9')

is_slug_char : ℕ → Bool
unfolding is_slug_end
is_slug_char c = is_slug_end c || nat_beq c b'-'

ends : (ℕ → Bool) → Bytes → Bool
ends p [] = false
ends p (c ∷ s) = p c

-- `ValidateSlug`: a match of `^[a-z][a-z0-9-]{1,62}[a-z0-9]$`.
unfoldable pub validate_slug : Bytes → Bool
unfolding is_lower is_slug_end is_slug_char ends
validate_slug s =
    leb 3 (length s)
    && (leb (length s) 64
        && (ends is_lower s && (all is_slug_char s && ends is_slug_end (reverse s))))

pub data OpaqueError : Type 0 where
  required padded not_utf8 has_control : OpaqueError

-- `unicode.IsControl` on valid UTF-8: a byte below 32, DEL, or a rune from U+0080 to U+009F, which is
-- written as 194 and a byte from 128 to 159.
has_control_rune : Bytes → Bool
has_control_rune [] = false
has_control_rune (c ∷ []) = ltb c 32 || nat_beq c 127
has_control_rune (c ∷ d ∷ s) =
    let rest = has_control_rune (d ∷ s) in
    (ltb c 32 || (nat_beq c 127 || (nat_beq c 194 && ltb d 160))) || rest

-- `validateExactOpaqueIdentifier`
unfoldable pub validate_exact_opaque_identifier : Bytes → Option OpaqueError
unfolding has_control_rune
validate_exact_opaque_identifier value =
    if is_empty value
    then some required
    else if not (is_trimmed value)
    then some padded
    else if not (valid_utf8 value)
    then some not_utf8
    else if has_control_rune value
    then some has_control
    else none

-- The identities of a configured route.
pub record Route : Type 0 where
  pub id : Bytes
  pub crid : Bytes
  pub connector_routing_id : Bytes

pub record SeenIdentity : Type 0 where
  pub index : ℕ
  pub route_id : Bytes
  pub resource_id : Bytes

abbrev pub Seen : Type 0
Seen = List (Bytes × SeenIdentity)

-- The two errors, each with the position of the route and the identity seen first.
pub data IdentityError : Type 0 where
  duplicate_crid cross_wired : ℕ → SeenIdentity → IdentityError

abbrev pub identity_of : ℕ → Route → SeenIdentity
identity_of i r = record { index = i; route_id = r.id; resource_id = r.crid }

unfoldable pub crid_errors : ℕ → Seen → Route → List IdentityError
crid_errors i resources r = elim (lookup r.crid resources) [
  | none ↦ []
  | some first ↦ if is_empty r.crid then [] else duplicate_crid i first ∷ []
]

unfoldable pub routing_errors : ℕ → Seen → Route → List IdentityError
routing_errors i routing r = elim (lookup r.connector_routing_id routing) [
  | none ↦ []
  | some first ↦
      if is_empty r.connector_routing_id || (is_empty r.crid || (first.resource_id == r.crid))
      then []
      else cross_wired i first ∷ []
]

-- The maps after one route: an identity is recorded when it is first seen.
unfoldable pub record_crid : ℕ → Seen → Route → Seen
record_crid i resources r = elim (lookup r.crid resources) [
  | none ↦ if is_empty r.crid then resources else insert r.crid (identity_of i r) resources
  | some first ↦ resources
]

unfoldable pub record_routing : ℕ → Seen → Route → Seen
record_routing i routing r = elim (lookup r.connector_routing_id routing) [
  | none ↦
      if is_empty r.connector_routing_id || is_empty r.crid
      then routing
      else insert r.connector_routing_id (identity_of i r) routing
  | some first ↦ routing
]

-- The loop of `ValidateManagedRouteIdentities`.
unfoldable pub check_managed : ℕ → Seen → Seen → List Route → List IdentityError
check_managed i resources routing [] = []
check_managed i resources routing (r ∷ rs) =
    crid_errors i resources r
    ++ (routing_errors i routing r
        ++ check_managed (i + 1) (record_crid i resources r) (record_routing i routing r) rs)

-- `ValidateManagedRouteIdentities`
unfoldable pub validate_managed_route_identities : List Route → List IdentityError
validate_managed_route_identities routes = check_managed 0 [] [] routes
