-- ===== src/Config/Routes/Sound.antt =====
-- The routes of pkg/config/validate.go: proofs on one route and one round of the loop.
use qurl_connector.Base.{
  ℕ, ◌+◌, ◌≡◌, ◌⊎◌, inl, inr, refl, Bool, true, false, not, ◌&&◌, ◌||◌, List, [], ◌∷◌, ◌++◌, Bytes,
  bytes_eq, bytes_beq_iff, ◌==◌, codes, arith, is_empty, nat_beq,
}
use qurl_connector.Base.Int.{ℤ, pos, ◌≤ℤ◌}
use qurl_connector.Base.Maps.{lookup-insert}
use qurl_connector.Config.Identities.{Route, validate_slug}
use qurl_connector.Config.Routes.{
  ConfigRoute, ErrorAt, RouteError, id_required, bad_id, duplicate_id, unsupported_type, bad_port,
  routing_required, bad_crid, bad_knock, crid_required, bad_routing, SeenIds, error_when, is_seen,
  id_errors, see_id, own_errors, route_errors, is_opaque, validate_connector_routing_id,
  bad_port_number,
}

-- Each of two lists is empty where both together are.
nil_both {ℓ} : {A : Type ℓ} (xs ys : List A) → (xs ++ ys) ≡ [] → (xs ≡ []) × (ys ≡ [])
nil_both [] ys h = (refl, h)
nil_both (x ∷ xs) ys h = cc

error_when_nil : (b : Bool) (i : ℕ) (e : RouteError) → error_when b i e ≡ [] → b ≡ false
unfolding error_when
error_when_nil false i e h = refl
error_when_nil true i e h = cc

no_error :
    (b : Bool) (i : ℕ) (e : RouteError) (rest : List ErrorAt)
    → (error_when b i e ++ rest) ≡ []
    → (b ≡ false) × (rest ≡ [])
no_error b i e rest h =
    let (one, more) = nil_both (error_when b i e) rest h in (error_when_nil b i e one, more)

not-false : (b : Bool) → not b ≡ false → b ≡ true
not-false b h = ground arith

in_range : (p : ℤ) → bad_port_number p ≡ false → (pos 1 ≤ℤ p) × (p ≤ℤ pos 65535)
in_range p h = ground arith

either_true : (a b : Bool) → (not a && not b) ≡ false → (a ≡ true) ⊎ (b ≡ true)
either_true true b h = inl refl
either_true false b h = inr (not-false b h)

label_fits :
    (a c v : Bool)
    → (not a && c) ≡ false
    → (not a && not v) ≡ false
    → (a ≡ true) ⊎ ((c ≡ false) × (v ≡ true))
label_fits true c v h k = inl refl
label_fits false c v h k = inr (h, not-false v k)

routed_lem : (m c a : Bool) → (m && (not c && a)) ≡ false → m ≡ true → c ≡ false → a ≡ false
routed_lem m c a h k l = ground arith

-- A route by itself, in a list of `n` routes.
pub record IsAccepted (valid_crid : Bytes → Bool) (managed : Bool) (n : ℕ) (r : ConfigRoute)
    : Type 0 where
  pub named :
      (validate_slug r.identity.id ≡ true)
      ⊎ ((is_empty r.identity.id ≡ true) × (is_empty r.identity.crid ≡ true) × (n ≡ 1))
  pub http : (r.route_type == codes "http") ≡ true
  pub port : (pos 1 ≤ℤ r.local_port) × (r.local_port ≤ℤ pos 65535)
  pub crid : (is_empty r.identity.crid ≡ true) ⊎ (valid_crid r.identity.crid ≡ true)
  pub routing :
      (is_empty r.identity.connector_routing_id ≡ true)
      ⊎ ((is_empty r.identity.crid ≡ false)
          × (validate_connector_routing_id r.identity.connector_routing_id ≡ true))
  pub routed :
      managed ≡ true
      → is_empty r.identity.crid ≡ false
      → is_empty r.identity.connector_routing_id ≡ false
  pub knock : (is_empty r.knock_resource_id ≡ true) ⊎ (is_opaque r.knock_resource_id ≡ true)

pub id_accepted :
    (n i : ℕ) (seen : SeenIds) (r : Route)
    → id_errors n i seen r ≡ []
    → (validate_slug r.id ≡ true) × (is_seen r.id seen ≡ false) × (is_empty r.id ≡ false)
      ⊎ ((is_empty r.id ≡ true) × (is_empty r.crid ≡ true) × (n ≡ 1))
unfolding id_errors
id_accepted n i seen r h = ground (
  arith,
  error_when_nil (not (is_empty r.crid) || not (nat_beq n 1)) i id_required,
  error_when_nil true i bad_id,
  error_when_nil (is_seen r.id seen) i duplicate_id,
)

module _ (valid_crid : Bytes → Bool) (managed : Bool) where
  pub own-IsAccepted :
      (n i : ℕ) (r : ConfigRoute)
      → (validate_slug r.identity.id ≡ true)
        ⊎ ((is_empty r.identity.id ≡ true) × (is_empty r.identity.crid ≡ true) × (n ≡ 1))
      → own_errors valid_crid managed i r ≡ []
      → IsAccepted valid_crid managed n r
  unfolding own_errors
  own-IsAccepted n i r named h =
      let crid = r.identity.crid in
      let routing = r.identity.connector_routing_id in
      let (http, h1) = no_error (not (r.route_type == codes "http")) i unsupported_type _ h in
      let (port, h2) = no_error (bad_port_number r.local_port) i bad_port _ h1 in
      let (routed, h3) =
        no_error (managed && (not (is_empty crid) && is_empty routing)) i routing_required _ h2 in
      let (paired, h4) = no_error (not (is_empty crid) && not (valid_crid crid)) i bad_crid _ h3 in
      let (knock, h5) =
        no_error (not (is_empty r.knock_resource_id) && not (is_opaque r.knock_resource_id)) i
          bad_knock _ h4 in
      let (public, h6) = no_error (not (is_empty routing) && is_empty crid) i crid_required _ h5 in
      let label =
        error_when_nil (not (is_empty routing) && not (validate_connector_routing_id routing)) i
          bad_routing h6 in
      record {
        named = named;
        http = not-false (r.route_type == codes "http") http;
        port = in_range r.local_port port;
        crid = either_true (is_empty crid) (valid_crid crid) paired;
        routing =
            label_fits (is_empty routing) (is_empty crid) (validate_connector_routing_id routing)
              public label;
        routed = routed_lem managed (is_empty crid) (is_empty routing) routed;
        knock = either_true (is_empty r.knock_resource_id) (is_opaque r.knock_resource_id) knock;
      }

-- A route ID that was seen stays seen.
pub see_id_keeps :
    (x : Bytes) (seen : SeenIds) (r : Route)
    → is_seen x seen ≡ true
    → is_seen x (see_id seen r) ≡ true
unfolding is_seen see_id
see_id_keeps x seen r h = ground (arith, lookup-insert r.id x true seen)

pub see_id_new :
    (seen : SeenIds) (r : Route)
    → is_empty r.id ≡ false
    → validate_slug r.id ≡ true
    → is_seen r.id (see_id seen r) ≡ true
unfolding is_seen see_id
see_id_new seen r h k = ground (arith, lookup-insert r.id r.id true seen, bytes_beq_iff r.id r.id)

-- A round of the loop that reports nothing.
pub round :
    (valid_crid : Bytes → Bool) (managed : Bool) (n i : ℕ) (seen : SeenIds) (r : ConfigRoute)
    (rs : List ConfigRoute)
    → route_errors valid_crid managed n i seen (r ∷ rs) ≡ []
    → (id_errors n i seen r.identity ≡ [])
      × (own_errors valid_crid managed i r ≡ [])
      × (route_errors valid_crid managed n (i + 1) (see_id seen r.identity) rs ≡ [])
unfolding route_errors
round valid_crid managed n i seen r rs h =
    let (a, rest) = nil_both (id_errors n i seen r.identity) _ h in
    let (b, c) = nil_both (own_errors valid_crid managed i r) _ rest in (a, b, c)
