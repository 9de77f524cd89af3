-- ===== src/Config/Identities/OneToOne.antt =====
-- The mapping between routes, public resources and routing labels that the check enforces.
use qurl_connector.Base.{
  ℕ, ◌+◌, ◌≡◌, ◌≢◌, ◌⊎◌, inl, inr, refl, true, some, List, [], ◌∷◌, ◌++◌, Bytes, bytes_eq,
  bytes_beq_iff, is_empty, All, arith, Bool-cases, Option-cases,
}
use qurl_connector.Base.Maps.{lookup, lookup-insert}
use qurl_connector.Config.Identities.{
  Route, SeenIdentity, Seen, IdentityError, identity_of, crid_errors, routing_errors, record_crid,
  record_routing, check_managed, validate_managed_route_identities,
}

-- Two routes do not share a public resource, nor, when both are managed, a routing label.
pub record AreApart (r q : Route) : Type 0 where
  pub resources : (is_empty r.crid ≡ true) ⊎ (r.crid ≢ q.crid)
  pub routings :
      (is_empty r.crid ≡ true)
      ⊎ (is_empty r.connector_routing_id ≡ true)
      ⊎ (is_empty q.crid ≡ true)
      ⊎ (r.connector_routing_id ≢ q.connector_routing_id)

abbrev pub IsOneToOne : List Route → Type 0
IsOneToOne [] = Unit
IsOneToOne (r ∷ rs) = All (AreApart r) rs × IsOneToOne rs

-- What the maps hold of a managed route that the loop has passed.
record IsRecorded (r : Route) (resources routing : Seen) : Type 0 where
  resource : (is_empty r.crid ≡ true) ⊎ ((s : SeenIdentity) × (lookup r.crid resources ≡ some s))
  label :
      (is_empty r.crid ≡ true)
      ⊎ (is_empty r.connector_routing_id ≡ true)
      ⊎ ((s : SeenIdentity) × (lookup r.connector_routing_id routing ≡ some s)
          × (s.resource_id ≡ r.crid))

record_crid_new :
    (i : ℕ) (resources : Seen) (r : Route)
    → (is_empty r.crid ≡ true)
      ⊎ ((s : SeenIdentity) × (lookup r.crid (record_crid i resources r) ≡ some s))
unfolding record_crid
record_crid_new i resources r = elim (Option-cases (lookup r.crid resources)) [
  | inr (s, e) ↦ inr (s, rw (e, record_crid) e)
  | inl e ↦ elim (Bool-cases (is_empty r.crid)) [
    | inl h ↦ inl h
    | inr h ↦ inr (
      identity_of i r,
      ground (
        arith,
        lookup-insert r.crid r.crid (identity_of i r) resources,
        (bytes_beq_iff r.crid r.crid).1 refl,
      ),
    )
  ]
]

record_crid_old :
    (i : ℕ) (resources : Seen) (q : Route) (k : Bytes) (s : SeenIdentity)
    → lookup k resources ≡ some s
    → lookup k (record_crid i resources q) ≡ some s
unfolding record_crid
record_crid_old i resources q k s h =
    ground (arith, lookup-insert q.crid k (identity_of i q) resources, bytes_beq_iff q.crid k)

record_routing_old :
    (i : ℕ) (routing : Seen) (q : Route) (k : Bytes) (s : SeenIdentity)
    → lookup k routing ≡ some s
    → lookup k (record_routing i routing q) ≡ some s
unfolding record_routing
record_routing_old i routing q k s h = ground (
  arith,
  lookup-insert q.connector_routing_id k (identity_of i q) routing,
  bytes_beq_iff q.connector_routing_id k,
)

record_routing_new :
    (i : ℕ) (routing : Seen) (r : Route)
    → routing_errors i routing r ≡ []
    → (is_empty r.crid ≡ true)
      ⊎ (is_empty r.connector_routing_id ≡ true)
      ⊎ ((s : SeenIdentity) × (lookup r.connector_routing_id (record_routing i routing r) ≡ some s)
          × (s.resource_id ≡ r.crid))
unfolding record_routing routing_errors
record_routing_new i routing r fine = elim (Option-cases (lookup r.connector_routing_id routing)) [
  | inr (s, e) ↦ elim (Bool-cases (is_empty r.crid)) [
    | inl h ↦ inl h
    | inr h ↦ elim (Bool-cases (is_empty r.connector_routing_id)) [
      | inl g ↦ inr (inl g)
      | inr g ↦
          inr
            (inr (s, rw (e, record_routing) e, ground (arith, bytes_beq_iff s.resource_id r.crid)))
    ]
  ]
  | inl e ↦ elim (Bool-cases (is_empty r.crid)) [
    | inl h ↦ inl h
    | inr h ↦ elim (Bool-cases (is_empty r.connector_routing_id)) [
      | inl g ↦ inr (inl g)
      | inr g ↦ inr (
          inr (
            identity_of i r,
            ground (
              arith,
              lookup-insert r.connector_routing_id r.connector_routing_id (identity_of i r) routing,
              (bytes_beq_iff r.connector_routing_id r.connector_routing_id).1 refl,
            ),
            refl,
          ))
    ]
  ]
]

IsRecorded-kept :
    (i : ℕ) (resources routing : Seen) (r q : Route)
    → IsRecorded r resources routing
    → IsRecorded r (record_crid i resources q) (record_routing i routing q)
IsRecorded-kept i resources routing r q h = record {
  resource = elim h.resource [
    | inl e ↦ inl e
    | inr (s, e) ↦ inr (s, record_crid_old i resources q r.crid s e)
  ];
  label = elim h.label [
    | inl e ↦ inl e
    | inr (inl e) ↦ inr (inl e)
    | inr (inr (s, e, same)) ↦
        inr (inr (s, record_routing_old i routing q r.connector_routing_id s e, same))
  ];
}

apart_resources :
    (i : ℕ) (resources routing : Seen) (r q : Route)
    → IsRecorded r resources routing
    → crid_errors i resources q ≡ []
    → (is_empty r.crid ≡ true) ⊎ (r.crid ≢ q.crid)
unfolding crid_errors
apart_resources i resources routing r q h fine = elim h.resource [
  | inl e ↦ inl e
  | inr (s, e) ↦ elim (Bool-cases (is_empty r.crid)) [
    | inl f ↦ inl f
    | inr f ↦ inr (λ same. ground arith)
  ]
]

apart_routings :
    (i : ℕ) (resources routing : Seen) (r q : Route)
    → IsRecorded r resources routing
    → (is_empty r.crid ≡ true) ⊎ (r.crid ≢ q.crid)
    → routing_errors i routing q ≡ []
    → (is_empty r.crid ≡ true)
      ⊎ (is_empty r.connector_routing_id ≡ true)
      ⊎ (is_empty q.crid ≡ true)
      ⊎ (r.connector_routing_id ≢ q.connector_routing_id)
unfolding routing_errors
apart_routings i resources routing r q h (inl e) fine = inl e
apart_routings i resources routing r q h (inr apart) fine = elim h.label [
  | inl e ↦ inl e
  | inr (inl e) ↦ inr (inl e)
  | inr (inr (s, e, owner)) ↦ elim (Bool-cases (is_empty q.crid)) [
    | inl f ↦ inr (inr (inl f))
    | inr f ↦ elim (Bool-cases (is_empty r.connector_routing_id)) [
      | inl g ↦ inr (inl g)
      | inr g ↦ inr (inr (inr (λ same. apart (ground (arith, bytes_beq_iff s.resource_id q.crid)))))
    ]
  ]
]

append-nil_parts : (xs ys : List IdentityError) → xs ++ ys ≡ [] → (xs ≡ []) × (ys ≡ [])
append-nil_parts [] ys h = (refl, h)
append-nil_parts (x ∷ xs) ys h = (absurd (ground arith), absurd (ground arith))

-- One round of the loop that reports nothing.
round :
    (i : ℕ) (resources routing : Seen) (r : Route) (rs : List Route)
    → check_managed i resources routing (r ∷ rs) ≡ []
    → (crid_errors i resources r ≡ [])
      × (routing_errors i routing r ≡ [])
      × (check_managed (i + 1) (record_crid i resources r) (record_routing i routing r) rs ≡ [])
unfolding check_managed
round i resources routing r rs h =
    let rest = check_managed (i + 1) (record_crid i resources r) (record_routing i routing r) rs in
    let first =
      append-nil_parts (crid_errors i resources r) (routing_errors i routing r ++ rest) h in
    let second = append-nil_parts (routing_errors i routing r) rest first.1 in
    (first.0, second.0, second.1)

All-apart :
    (i : ℕ) (resources routing : Seen) (r : Route) (rs : List Route)
    → IsRecorded r resources routing
    → check_managed i resources routing rs ≡ []
    → All (AreApart r) rs
All-apart i resources routing r [] h fine = tt
All-apart i resources routing r (q ∷ rs) h fine =
    let (a, b, more) = round i resources routing q rs fine in
    let apart = apart_resources i resources routing r q h a in
    (
      record { resources = apart; routings = apart_routings i resources routing r q h apart b },
      All-apart (i + 1) (record_crid i resources q) (record_routing i routing q) r rs
          (IsRecorded-kept i resources routing r q h) more,
    )

check-IsOneToOne :
    (i : ℕ) (resources routing : Seen) (rs : List Route)
    → check_managed i resources routing rs ≡ []
    → IsOneToOne rs
check-IsOneToOne i resources routing [] fine = tt
check-IsOneToOne i resources routing (r ∷ rs) fine =
    let (a, b, more) = round i resources routing r rs fine in
    let recorded : IsRecorded r (record_crid i resources r) (record_routing i routing r) = record {
      resource = record_crid_new i resources r;
      label = record_routing_new i routing r b;
    } in
    (
      All-apart (i + 1) (record_crid i resources r) (record_routing i routing r) r rs recorded more,
      check-IsOneToOne (i + 1) (record_crid i resources r) (record_routing i routing r) rs more,
    )

-- Where the check of managed identities reports nothing, no two routes name one public resource, and
-- no two managed routes carry one routing label.
pub identities-IsOneToOne :
    (routes : List Route) → validate_managed_route_identities routes ≡ [] → IsOneToOne routes
unfolding validate_managed_route_identities
identities-IsOneToOne routes fine = check-IsOneToOne 0 [] [] routes fine
