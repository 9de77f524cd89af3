-- ===== src/Config/Routes/Accepted.antt =====
-- The route list of pkg/config/validate.go: proofs on a whole list.
use qurl_connector.Base.{
  ℕ, ◌+◌, ◌≤◌, ◌≡◌, ◌≢◌, inl, inr, ap, Bool, true, false, List, [], ◌∷◌, Bytes, arith, is_empty,
  length, All,
}
use qurl_connector.Config.Identities.OneToOne.{IsOneToOne, identities-IsOneToOne}
use qurl_connector.Config.Routes.{
  ConfigRoute, SeenIds, is_seen, see_id, route_errors, validate_routes, identities,
}
use qurl_connector.Config.Routes.Sound.{
  IsAccepted, round, id_accepted, own-IsAccepted, see_id_keeps, see_id_new,
}

-- No two routes have one ID.
abbrev pub IdsApart : List ConfigRoute → Type 0
IdsApart [] = Unit
IdsApart (r ∷ rs) = All (λ (s : ConfigRoute). r.identity.id ≢ s.identity.id) rs × IdsApart rs

unseen_ne : (x y : Bytes) (seen : SeenIds) → is_seen x seen ≡ true → is_seen y seen ≡ false → x ≢ y
unseen_ne x y seen h k = λ same. ground (arith, ap (λ (z : Bytes). is_seen z seen) same)

empty_ne : (x y : Bytes) → is_empty x ≡ false → is_empty y ≡ true → x ≢ y
empty_ne x y h k = λ same. ground (arith, ap (λ (z : Bytes). is_empty z) same)

module _ (valid_crid : Bytes → Bool) (managed : Bool) (n : ℕ) where
  -- The routes after one whose ID was recorded have other IDs.
  All-apart :
      (i : ℕ) (seen : SeenIds) (x : Bytes) (rs : List ConfigRoute)
      → is_empty x ≡ false
      → is_seen x seen ≡ true
      → route_errors valid_crid managed n i seen rs ≡ []
      → All (λ (s : ConfigRoute). x ≢ s.identity.id) rs
  All-apart i seen x [] more old h = tt
  All-apart i seen x (r ∷ rs) more old h =
      let (a, b, c) = round valid_crid managed n i seen r rs h in
      let rest =
        All-apart (i + 1) (see_id seen r.identity) x rs more (see_id_keeps x seen r.identity old)
          c in
      elim (id_accepted n i seen r.identity a) [
        | inl (slug, fresh, some_id) ↦ (unseen_ne x r.identity.id seen old fresh, rest)
        | inr (empty, free, one) ↦ (empty_ne x r.identity.id more empty, rest)
      ]

  alone :
      (r : ConfigRoute) (rs : List ConfigRoute) (P : ConfigRoute → Type 0)
      → length (r ∷ rs) ≤ n
      → n ≡ 1
      → All P rs
  alone r [] P h k = tt
  alone r (s ∷ rs) P h k = absurd (omega (arith, h, k))

  loop-IsAccepted :
      (i : ℕ) (seen : SeenIds) (rs : List ConfigRoute)
      → length rs ≤ n
      → route_errors valid_crid managed n i seen rs ≡ []
      → All (IsAccepted valid_crid managed n) rs × IdsApart rs
  loop-IsAccepted i seen [] room h = (tt, tt)
  loop-IsAccepted i seen (r ∷ rs) room h =
      let (a, b, c) = round valid_crid managed n i seen r rs h in
      let (rest, apart) =
        loop-IsAccepted (i + 1) (see_id seen r.identity) rs (omega (arith, room)) c in
      elim (id_accepted n i seen r.identity a) [
        | inl (slug, fresh, some_id) ↦ (
          (own-IsAccepted valid_crid managed n i r (inl slug) b, rest),
          (
            All-apart (i + 1) (see_id seen r.identity) r.identity.id rs some_id
                (see_id_new seen r.identity some_id slug) c,
            apart,
          ),
        )
        | inr (empty, free, one) ↦ (
          (own-IsAccepted valid_crid managed n i r (inr (empty, free, one)) b, rest),
          (alone r rs (λ (s : ConfigRoute). r.identity.id ≢ s.identity.id) room one, apart),
        )
      ]

-- Where the route part of `validate` reports nothing, each route is of type http on a port from 1 to
-- 65535, has a slug for its ID, or is the only one and has no ID and no public resource, and carries only
-- identifiers that the checks accept, a routing label never without its public resource and, when
-- managed routing is required, no public resource without its label; no two routes share an ID, a public
-- resource or a routing label.
pub validate_routes_lem :
    (valid_crid : Bytes → Bool) (managed : Bool) (routes : List ConfigRoute)
    → validate_routes valid_crid managed routes ≡ ([], [])
    → All (IsAccepted valid_crid managed (length routes)) routes
      × IdsApart routes
      × IsOneToOne (identities routes)
unfolding validate_routes
validate_routes_lem valid_crid managed routes h =
    let (each, apart) =
      loop-IsAccepted valid_crid managed (length routes) 0 [] routes (omega arith)
        (ap (λ p. p.0) h) in
    (each, apart, identities-IsOneToOne (identities routes) (ap (λ p. p.1) h))
