-- ===== src/Share/GroupSession/Update/Laws.antt =====
-- What Update makes of the route table.
use qurl_connector.Base.{
  ℕ, ◌+◌, ◌%◌, ◌≡◌, ◌⊎◌, inl, inr, refl, sym, subst, Bool, true, Option, none, some, List, [], ◌∷◌,
  Bytes, bytes_eq, ◌==◌, bytes_beq_iff, All, Any, Bool-cases, Option-cases, if_both, is_empty, any,
  if◌then◌else◌, ◌*◌, arith, leb, ◌||◌,
}
use qurl_connector.Base.Maps.{lookup, insert}
use qurl_connector.Share.Route.{has_request_headers, has_private_origin}
use qurl_connector.Share.Route.Headers.{HttpGuts}
use qurl_connector.Share.Route.Transport.{ClientCommonConfig, route_transport_error}
use qurl_connector.Share.GroupSession.{
  GroupRoute, Entry, Table, Session, Limits, pending, group_equal, group_proxy_name, bump64, notify,
}
use qurl_connector.Share.GroupSession.Window.{
  release_entry, release_loop, release_window, window_of, released_pending_factor, in_flight,
  released_pending, waiting, waiting_before,
}
use qurl_connector.Base.Sort.{sort_by}
use qurl_connector.Share.GroupSession.Update.{
  fresh_entry, next_entry, next_table, update_table, UpdateError, GroupError, context_done,
  invalid_set, invalid_transport, session_group_ended, changed_in_place, validate_group_routes,
  locals,
}

abbrev Holds : (Bytes → Entry → Type 0) → Bytes × Entry → Type 0
Holds P x = P x.0 x.1

module _ (P : Bytes → Entry → Type 0) where
  All-insert :
      (id : Bytes) (e : Entry) (t : Table)
      → P id e
      → All (Holds P) t
      → All (Holds P) (insert id e t)
  unfolding insert
  All-insert id e [] p h = (p, tt)
  All-insert id e ((j, g) ∷ t) p h = elim (Bool-cases (j == id)) [
    | inl same ↦ rw same (p, h.1)
    | inr other ↦ rw other (h.0, All-insert id e t p h.1)
  ]

  All-lookup :
      (id : Bytes) (e : Entry) (t : Table) → lookup id t ≡ some e → All (Holds P) t → P id e
  unfolding lookup
  All-lookup id e [] f h = cc
  All-lookup id e ((j, g) ∷ t) f h = elim (Bool-cases (j == id)) [
    | inl same ↦
        let k : j ≡ id = (bytes_beq_iff j id).0 same in
        let g≡e : g ≡ e = ground arith in subst (λ (i : Bytes). P i e) k (subst (P j) g≡e h.0)
    | inr other ↦ All-lookup id e t (ground arith) h.1
  ]

  -- A release changes nothing but the `released` marks.
  module _ (stable : (id : Bytes) (e : Entry) → P id e → P id (record e { released = true })) where
    release_entry-All :
        (id : Bytes) (t : Table) → All (Holds P) t → All (Holds P) (release_entry id t)
    unfolding release_entry
    release_entry-All id t h = elim (Option-cases (lookup id t)) [
      | inl e ↦ rw (e, release_entry) h
      | inr (e, found) ↦
          rw (found, release_entry)
            (All-insert id (record e { released = true }) t
              (stable id e (All-lookup id e t found h)) h)
    ]

    release_loop-All :
        (window ceiling : ℕ) (ids : List (Bytes × Bool)) (i p : ℕ) (t : Table)
        → All (Holds P) t
        → All (Holds P) (release_loop window ceiling ids i p t)
    unfolding release_loop
    release_loop-All window ceiling [] i p t h = h
    release_loop-All window ceiling ((id, r) ∷ ids) i p t h =
        if_both (All (Holds P)) (leb window i || leb ceiling p) h (
          release_loop-All window ceiling ids (i + 1) (p + 1) (release_entry id t)
            (release_entry-All id t h))

    release_window-All :
        (l : Limits) (now : ℕ) (t : Table)
        → All (Holds P) t
        → All (Holds P) (release_window l now t).0
    unfolding release_window
    release_window-All l now t h =
        let window = window_of l in
        let ceiling = released_pending_factor * window in
        let i = in_flight t in
        let p = released_pending l.errored_hold now t in
        let ids = sort_by waiting_before (waiting t) in
        if_both (λ (r : Table × Bool). All (Holds P) r.0) (leb window i || leb ceiling p) h
          (if_both (λ (r : Table × Bool). All (Holds P) r.0) (is_empty ids) h
            (release_loop-All window ceiling ids i p t h))

-- An entry of the next table against the routes of the update and the previous table.
module _ (sha256_hex : Bytes → Bytes) (session_id : ℕ) where
  -- The entry stands for the route `r`: a registration that has not been observed, or the previous
  -- one of the same proxy name, with its observed state.
  pub record Stems (old : Table) (id : Bytes) (e : Entry) (r : GroupRoute) : Type 0 where
    pub route_id : r.route.route_id ≡ id
    pub name : e.name ≡ group_proxy_name sha256_hex r session_id
    pub state :
        ((e.phase ≡ pending) × (e.err ≡ none) × (e.last_observed ≡ none) × (e.route ≡ r))
        ⊎ (before : Entry) × (lookup id old ≡ some before)
          × (before.name ≡ e.name)
          × (before.phase ≡ e.phase)
          × (before.err ≡ e.err)
          × (group_equal e.route r ≡ true)

  next_entry_new :
      (old : Table) (r : GroupRoute) (e : Entry)
      → lookup r.route.route_id old ≡ none
      → next_entry sha256_hex session_id old r ≡ some e
      → fresh_entry sha256_hex session_id none r ≡ e
  unfolding next_entry
  next_entry_new old r e absent h = ground arith

  next_entry_old :
      (old : Table) (r : GroupRoute) (b e : Entry)
      → lookup r.route.route_id old ≡ some b
      → next_entry sha256_hex session_id old r ≡ some e
      → (fresh_entry sha256_hex session_id (some b) r ≡ e)
        ⊎ (b ≡ e)
          × (b.name ≡ group_proxy_name sha256_hex r session_id)
          × (group_equal b.route r ≡ true)
  unfolding next_entry
  next_entry_old old r b e found h =
      ground (arith, bytes_beq_iff b.name (group_proxy_name sha256_hex r session_id))

  fresh-Stems :
      (old : Table) (current : Option Entry) (r : GroupRoute)
      → Stems old r.route.route_id (fresh_entry sha256_hex session_id current r) r
  unfolding fresh_entry
  fresh-Stems old current r = record {
    route_id = refl;
    name = refl;
    state = inl (refl, refl, refl, refl);
  }

  next_entry-Stems :
      (old : Table) (r : GroupRoute) (e : Entry)
      → next_entry sha256_hex session_id old r ≡ some e
      → Stems old r.route.route_id e r
  next_entry-Stems old r e h = elim (Option-cases (lookup r.route.route_id old)) [
    | inl absent ↦
        subst (λ (x : Entry). Stems old r.route.route_id x r) (next_entry_new old r e absent h)
          (fresh-Stems old none r)
    | inr (b, found) ↦ elim (next_entry_old old r b e found h) [
      | inl fresh ↦
          subst (λ (x : Entry). Stems old r.route.route_id x r) fresh (fresh-Stems old (some b) r)
      | inr (same, name, equal) ↦
          subst (λ (x : Entry). Stems old r.route.route_id x r) same
            (record {
              route_id = refl;
              name = name;
              state = inr (b, found, refl, refl, refl, equal);
            })
    ]
  ]

  Stems-stable :
      (old : Table) (id : Bytes) (e : Entry) (r : GroupRoute)
      → Stems old id e r
      → Stems old id (record e { released = true }) r
  Stems-stable old id e r s = record { route_id = s.route_id; name = s.name; state = s.state }

  Any-map :
      {P Q : GroupRoute → Type 0} (rs : List GroupRoute)
      → ((r : GroupRoute) → P r → Q r)
      → Any P rs
      → Any Q rs
  Any-map [] f h = absurd h
  Any-map (r ∷ rs) f (inl h) = inl (f r h)
  Any-map (r ∷ rs) f (inr h) = inr (Any-map rs f h)

  next_table-All :
      (P : Bytes → Entry → Type 0) (old : Table) (rs : List GroupRoute) (next t : Table)
      → ((r : GroupRoute) (e : Entry)
          → next_entry sha256_hex session_id old r ≡ some e
          → Any (λ x. x ≡ r) rs
          → P r.route.route_id e)
      → All (Holds P) next
      → next_table sha256_hex session_id old rs next ≡ some t
      → All (Holds P) t
  unfolding next_table
  next_table-All P old [] next t f h e = let same : next ≡ t = cc in subst (All (Holds P)) same h
  next_table-All P old (r ∷ rs) next t f h e =
      elim (Option-cases (next_entry sha256_hex session_id old r)) [
        | inl changed ↦ absurd (ground arith)
        | inr (n, made) ↦
            next_table-All P old rs (insert r.route.route_id n next) t (λ q x m a. f q x m (inr a))
              (All-insert P r.route.route_id n next (f r n made (inl refl)) h) (ground arith)
      ]

  -- Every entry of the next table stems from one of the routes.
  abbrev pub Replaces : Table → List GroupRoute → Bytes × Entry → Type 0
  Replaces old routes x = Any (Stems old x.0 x.1) routes

  next_table-Replaces :
      (old : Table) (rs : List GroupRoute) (t : Table)
      → next_table sha256_hex session_id old rs [] ≡ some t
      → All (Replaces old rs) t
  next_table-Replaces old rs t e =
      next_table-All (λ id x. Any (Stems old id x) rs) old rs [] t
        (λ r x m a.
          Any-map rs
            (λ q (same : q ≡ r).
              subst (λ (z : GroupRoute). Stems old r.route.route_id x z) (sym same)
                (next_entry-Stems old r x m))
            a)
        tt e

  -- What an update leaves behind.
  pub data Updated (routes : List GroupRoute) (s : Session)
      : Option UpdateError × Session → Type 0 where
    refused : (e : UpdateError) → Updated routes s (some e, s)
    replaced :
        (t : Session)
        → All (Replaces s.routes routes) t.routes
        → t.accepted ≡ s.accepted
        → t.version ≡ (s.version + 1) % 18446744073709551616
        → Updated routes s (none, t)

  module _ (guts : HttpGuts) (windows : Bool) (common : ClientCommonConfig) (l : Limits) (now : ℕ)
      (done : Bool) (routes : List GroupRoute) (s : Session) where
    installed :
        (next : Table)
        → next_table sha256_hex session_id s.routes routes [] ≡ some next
        → Updated routes s (
          none,
          notify (record s { routes = (release_window l now next).0; version = bump64 s.version }),
        )
    unfolding notify
    installed next e =
        replaced
          (notify (record s { routes = (release_window l now next).0; version = bump64 s.version }))
          (release_window-All (λ id x. Any (Stems s.routes id x) routes)
            (λ id x a. Any-map routes (λ r. Stems-stable s.routes id x r) a) l now next
            (next_table-Replaces s.routes routes next e))
          refl refl

    -- An update either returns an error and leaves the session as it is, or bumps the version once and
    -- leaves a table in which every entry stands for one of its routes under that route's proxy name:
    -- a registration not yet observed, or the previous one of that same name with its phase and error.
    -- A route is never shown as serving on the strength of another registration.
    pub update_table-Updated :
        Updated routes s
          (update_table sha256_hex session_id guts windows common l now done routes s)
    unfolding update_table
    update_table-Updated =
        let invalid : Option GroupError =
          if is_empty routes then none else validate_group_routes guts windows (locals routes) in
        let transport =
          route_transport_error common (any (λ r. has_request_headers r) (locals routes))
            (any (λ r. has_private_origin r) (locals routes)) in
        if_both (Updated routes s) done (refused context_done) elim (Option-cases invalid) [
          | inr (e, bad) ↦ rw (bad, update_table) (refused (invalid_set e))
          | inl fine ↦
              rw (fine, update_table)
                elim (Option-cases transport) [
                  | inr (e, bad) ↦ rw (bad, update_table) (refused (invalid_transport e))
                  | inl carried ↦
                      rw (carried, update_table)
                        (if_both (Updated routes s) s.stopped (refused session_group_ended)
                          elim (Option-cases
                            (next_table sha256_hex session_id s.routes routes [])) [
                              | inl e ↦ rw (e, update_table) (refused changed_in_place)
                              | inr (next, e) ↦ rw (e, update_table) (installed next e)
                            ])
                ]
        ]
