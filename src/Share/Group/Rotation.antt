-- ===== src/Share/Group/Rotation.antt =====
-- What a rotation may do to the routes that the retiring session serves.
use qurl_connector.Base.{
  ◌≡◌, inl, inr, refl, sym, subst, ap, Bool, true, false, ◌&&◌, none, some, List, [], ◌∷◌, Bytes,
  bytes_eq, bytes_beq_iff, ◌==◌, is_empty, All, Any, arith, Bool-cases, Option-cases, if_both,
}
use qurl_connector.Base.Maps.{lookup}
use qurl_connector.Base.Sort.{sort_by, sort_by-All}
use qurl_connector.Share.Route.{LocalHttpRoute}
use qurl_connector.Share.GroupSession.{GroupRoute, is_serving, is_failed, route_before}
use qurl_connector.Share.GroupSession.Lifecycle.{RouteState}
use qurl_connector.Share.Group.{
  Desired, Restarts, States, desired_routes, retained, retain_routes, apply_active,
  routes_served_by, serves, serves_all, cycle_serving,
}

-- The session carries the route, at exactly this generation, and it has not failed.
abbrev pub Carries : States → GroupRoute → Type 0
Carries states r =
    Any (λ (x : Bytes × RouteState). (x.1.route ≡ r) × (is_failed x.1.phase ≡ false)) states

carried :
    (id : Bytes) (s : RouteState) (states : States)
    → lookup id states ≡ some s
    → is_failed s.phase ≡ false
    → Carries states s.route
unfolding lookup
carried id s [] h f = cc
carried id s ((j, t) ∷ states) h f = elim (Bool-cases (j == id)) [
  | inl same ↦
      let e : t ≡ s = ground arith in
      inl (
        ap (λ (x : RouteState). x.route) e,
        subst (λ (x : RouteState). is_failed x.phase ≡ false) (sym e) f,
      )
  | inr other ↦ inr (carried id s states (ground arith) f)
]

retained-Carries :
    (states : States) (rs : List GroupRoute) → All (Carries states) (retained states rs)
unfolding retained
retained-Carries states [] = tt
retained-Carries states (r ∷ rs) = elim (Option-cases (lookup r.route.route_id states)) [
  | inl e ↦ rw (e, retained) (retained-Carries states rs)
  | inr (s, e) ↦
      rw (e, retained)
        elim (Bool-cases (is_failed s.phase)) [
          | inl f ↦ rw f (retained-Carries states rs)
          | inr f ↦ rw f (carried r.route.route_id s states e f, retained-Carries states rs)
        ]
]

-- While the group rotates, the set that the retiring session is given holds only routes that it
-- already carries, at the generation that it carries: a rotation never registers on it.
pub rotating-Carries :
    (states : States) (desired : Desired) (m : Restarts) (rs : List GroupRoute)
    → apply_active true true states desired m ≡ some rs
    → All (Carries states) rs
unfolding apply_active retain_routes
rotating-Carries states desired m rs h =
    let e : sort_by route_before (retained states (desired_routes desired m)) ≡ rs = cc in
    subst (All (Carries states)) e (
      (sort_by-All route_before (Carries states) (retained states (desired_routes desired m))).1
        (retained-Carries states (desired_routes desired m)))

head_listed :
    (j : Bytes) (s : RouteState) (r : LocalHttpRoute) (old : States) (desired : Desired)
    → is_serving s.phase ≡ true
    → lookup j desired ≡ some r
    → routes_served_by ((j, s) ∷ old) desired ≡ j ∷ routes_served_by old desired
unfolding routes_served_by
head_listed j s r old desired h found = ground arith

tail_listed :
    (id j : Bytes) (s : RouteState) (old : States) (desired : Desired)
    → Any (λ x. x ≡ id) (routes_served_by old desired)
    → Any (λ x. x ≡ id) (routes_served_by ((j, s) ∷ old) desired)
unfolding routes_served_by
tail_listed id j s old desired a =
    let rest = routes_served_by old desired in
    let wanted : Bool = elim (lookup j desired) [ none ↦ false | some r ↦ true ] in
    if_both (Any (λ x. x ≡ id)) (is_serving s.phase && wanted) (inr a) a

nonempty : (id : Bytes) (ids : List Bytes) → Any (λ x. x ≡ id) ids → is_empty ids ≡ false
nonempty id [] a = absurd a
nonempty id (j ∷ ids) a = refl

gate_all :
    (states old : States) (desired : Desired) (id : Bytes)
    → cycle_serving states (some old) desired ≡ true
    → Any (λ x. x ≡ id) (routes_served_by old desired)
    → serves_all states (routes_served_by old desired) ≡ true
unfolding cycle_serving
gate_all states old desired id gate a =
    let some_needed = nonempty id (routes_served_by old desired) a in ground arith

served_by_listed :
    (id : Bytes) (r : LocalHttpRoute) (old : States) (desired : Desired)
    → lookup id desired ≡ some r
    → serves old id ≡ true
    → Any (λ x. x ≡ id) (routes_served_by old desired)
unfolding serves routes_served_by lookup
served_by_listed id r [] desired d h = cc
served_by_listed id r ((j, s) ∷ old) desired d h = elim (Bool-cases (j == id)) [
  | inl same ↦
      let e : j ≡ id = (bytes_beq_iff j id).0 same in
      let found : lookup j desired ≡ some r =
        subst (λ (x : Bytes). lookup x desired ≡ some r) (sym e) d in
      rw (head_listed j s r old desired (ground arith) found) (inl e)
  | inr other ↦ tail_listed id j s old desired (served_by_listed id r old desired d (ground arith))
]

serves_all_each :
    (states : States) (ids : List Bytes) (id : Bytes)
    → serves_all states ids ≡ true
    → Any (λ x. x ≡ id) ids
    → serves states id ≡ true
unfolding serves_all
serves_all_each states [] id h a = absurd a
serves_all_each states (j ∷ ids) id h (inl e) =
    subst (λ (x : Bytes). serves states x ≡ true) e (ground arith)
serves_all_each states (j ∷ ids) id h (inr a) = serves_all_each states ids id (ground arith) a

-- A promoted replacement serves every desired route that the session it replaces is serving: a
-- rotation that passes the gate takes no route down.
pub cycle_serving_keeps :
    (states old : States) (desired : Desired) (id : Bytes) (r : LocalHttpRoute)
    → cycle_serving states (some old) desired ≡ true
    → lookup id desired ≡ some r
    → serves old id ≡ true
    → serves states id ≡ true
cycle_serving_keeps states old desired id r gate d h =
    let listed = served_by_listed id r old desired d h in
    serves_all_each states (routes_served_by old desired) id
      (gate_all states old desired id gate listed) listed
