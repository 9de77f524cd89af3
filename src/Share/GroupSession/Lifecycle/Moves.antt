-- ===== src/Share/GroupSession/Lifecycle/Moves.antt =====
-- How the observations of FRP's statuses move the version and the live set of a session.
use qurl_connector.Base.{
  ℕ, ◌+◌, ◌≤◌, ◌<◌, ◌≡◌, ◌⊎◌, inl, inr, refl, ap, ◌∙◌, false, not, ◌&&◌, ◌||◌, Option, some, List,
  [], ◌∷◌, Bytes, bytes_eq, ◌!=◌, length, Bool-cases, if_both, Option-cases, arith,
}
use qurl_connector.Base.Maps.{lookup, insert}
use qurl_connector.Base.Sort.{sort_by}
use qurl_connector.Share.GroupSession.{
  Entry, Table, Session, Limits, SessionError, is_failed, is_live, live_entries, live_routes,
  route_before, notify,
}
use qurl_connector.Share.GroupSession.Window.Bounds.{release_window_bounds}
use qurl_connector.Share.GroupSession.Status.{Observation}
use qurl_connector.Share.GroupSession.Observe.{
  Loop, observe_entry, observe_one, observe_loop, settle, apply_observations,
}

-- Replacing an entry by one that is as live and has the same route keeps the live set.
live_entries-insert :
    (id : Bytes) (e f : Entry) (t : Table)
    → lookup id t ≡ some e
    → is_live e ≡ is_live f
    → e.route ≡ f.route
    → live_entries (insert id f t) ≡ live_entries t
unfolding lookup insert live_entries
live_entries-insert id e f [] h a b = cc
live_entries-insert id e f ((j, g) ∷ t) h a b = ground (arith, live_entries-insert id e f t)

observe_entry_live :
    (now : ℕ) (o : Observation) (e : Entry)
    → is_failed e.phase ≡ false
    → is_failed o.phase ≡ false
    → (is_live e ≡ is_live (observe_entry now o e)) × (e.route ≡ (observe_entry now o e).route)
unfolding is_live observe_entry
observe_entry_live now o e h k = (ground arith, refl)

-- What a round, or the whole loop, makes of the version and the live set.
record Advances (n : ℕ) (s t : Loop) : Type 0 where
  lower : s.version ≤ t.version
  upper : t.version ≤ s.version + n
  same_live : (t.version ≡ s.version) → live_entries t.routes ≡ live_entries s.routes

observed_one :
    (l : Limits) (now : ℕ) (o : Observation) (s : Loop) (e : Entry)
    → s.version + 1 < 18446744073709551616
    → lookup o.route_id s.routes ≡ some e
    → (((observe_one l now o s).version ≡ s.version) × ((observe_one l now o s).routes ≡ s.routes))
      ⊎ ((observe_one l now o s).version ≡ s.version + 1)
      ⊎ (((observe_one l now o s).version ≡ s.version)
          × ((observe_one l now o s).routes ≡ insert o.route_id (observe_entry now o e) s.routes)
          × (is_failed e.phase ≡ false)
          × (is_failed o.phase ≡ false))
unfolding observe_one
observed_one l now o s e h found =
    rw (found, observe_one)
      elim (Bool-cases ((e.name != o.name) || is_failed e.phase)) [
        | inl skip ↦ rw skip (inl (refl, refl))
        | inr seen ↦ rw seen elim (Bool-cases (is_failed o.phase)) [
          | inl gone ↦ rw gone (inr (inl (omega arith)))
          | inr stays ↦ rw stays (inr (inr (refl, refl, ground arith, refl)))
        ]
      ]

observe_one-Advances :
    (l : Limits) (now : ℕ) (o : Observation) (s : Loop)
    → s.version + 1 < 18446744073709551616
    → Advances 1 s (observe_one l now o s)
unfolding observe_one
observe_one-Advances l now o s h = elim (Option-cases (lookup o.route_id s.routes)) [
  | inl e ↦
      rw (e, observe_one)
        (record { lower = omega arith; upper = omega arith; same_live = λ p. refl })
  | inr (e, found) ↦ elim (observed_one l now o s e h found) [
    | inl (v, r) ↦ record { lower = omega arith; upper = omega arith; same_live = λ p. rw r refl }
    | inr (inl v) ↦ record {
      lower = omega arith;
      upper = omega arith;
      same_live = λ p. absurd (omega arith);
    }
    | inr (inr (v, r, a, b)) ↦
        let kept = observe_entry_live now o e a b in
        record {
          lower = omega arith;
          upper = omega arith;
          same_live = λ p. rw r (
              live_entries-insert o.route_id e (observe_entry now o e) s.routes found kept.0
                kept.1);
        }
  ]
]

observe_loop-Advances :
    (l : Limits) (now : ℕ) (os : List Observation) (s : Loop)
    → s.version + length os < 18446744073709551616
    → Advances (length os) s (observe_loop l now os s)
unfolding observe_loop
observe_loop-Advances l now [] s h = record {
  lower = omega arith;
  upper = omega arith;
  same_live = λ p. refl;
}
observe_loop-Advances l now (o ∷ os) s h =
    let first = observe_one-Advances l now o s (omega arith) in
    let step = observe_one l now o s in
    let rest =
      observe_loop-Advances l now os (observe_one l now o s) (omega (arith, first.upper)) in
    record {
      lower = omega (arith, first.lower, rest.lower);
      upper = omega (arith, first.upper, rest.upper);
      same_live = λ p.
          rest.same_live (omega (arith, first.lower, rest.lower))
          ∙ first.same_live (omega (arith, first.lower, rest.lower));
    }

released :
    (l : Limits) (now : ℕ) (loop : Loop) (s : Session)
    → loop.version + 1 < 18446744073709551616
    → (((settle l now loop s).version ≡ loop.version)
        × (live_routes (settle l now loop s) ≡ sort_by route_before (live_entries loop.routes)))
      ⊎ ((settle l now loop s).version ≡ loop.version + 1)
unfolding settle live_routes
released l now loop s h = elim (release_window_bounds l now loop.routes) [
  | inl (idle, same) ↦ inl (rw (idle, settle) refl, rw same refl)
  | inr (some_released, bounds) ↦ inr (rw (some_released, settle) (omega arith))
]

-- What observations make of the version, the pushes and the live set of a session.
pub record Moves (n : ℕ) (s t : Session) : Type 0 where
  pub lower : s.version ≤ t.version
  pub upper : t.version ≤ s.version + n
  pub same_live : (t.version ≡ s.version) → live_routes t ≡ live_routes s
  pub same_pushed : t.pushed ≡ s.pushed
  pub same_accepted : t.accepted ≡ s.accepted

abbrev start : Session → Loop
start s = record {
  routes = s.routes;
  version = s.version;
  changed = false;
  lost_proxy = false;
  any_observed = false;
}

settled :
    (l : Limits) (now : ℕ) (loop : Loop) (s : Session)
    → ((settle l now loop s).pushed ≡ s.pushed) × ((settle l now loop s).accepted ≡ s.accepted)
unfolding settle
settled l now loop s = (refl, refl)

sorted :
    (s : Session) (loop : Loop)
    → live_entries loop.routes ≡ live_entries s.routes
    → sort_by route_before (live_entries loop.routes) ≡ live_routes s
unfolding live_routes
sorted s loop h = ap (sort_by route_before) h

settle-Moves :
    (l : Limits) (now n : ℕ) (loop : Loop) (s : Session)
    → s.version + (n + 2) < 18446744073709551616
    → Advances n (start s) loop
    → Moves (n + 1) s (settle l now loop s)
settle-Moves l now n loop s h a = elim (released l now loop s (omega (arith, a.upper))) [
  | inl (v, live) ↦ record {
    lower = omega (arith, a.lower);
    upper = omega (arith, a.upper);
    same_live = λ p. live ∙ sorted s loop (a.same_live (omega arith));
    same_pushed = (settled l now loop s).0;
    same_accepted = (settled l now loop s).1;
  }
  | inr v ↦ record {
    lower = omega (arith, a.lower);
    upper = omega (arith, a.upper);
    same_live = λ p. absurd (omega (arith, a.lower));
    same_pushed = (settled l now loop s).0;
    same_accepted = (settled l now loop s).1;
  }
]

lost-Moves :
    (n : ℕ) (loop : Loop) (s : Session)
    → Advances n (start s) loop
    → Moves (n + 1) s (notify (record s { routes = loop.routes; version = loop.version }))
unfolding notify live_routes
lost-Moves n loop s a = record {
  lower = omega (arith, a.lower);
  upper = omega (arith, a.upper);
  same_live = λ p. ap (sort_by route_before) (a.same_live p);
  same_pushed = refl;
  same_accepted = refl;
}

pub observe-Moves :
    (l : Limits) (now : ℕ) (os : List Observation) (s : Session)
    → s.version + (length os + 2) < 18446744073709551616
    → Moves (length os + 1) s (apply_observations l now os s).0
unfolding apply_observations
observe-Moves l now os s h =
    let loop = observe_loop l now os (start s) in
    let a = observe_loop-Advances l now os (start s) (omega arith) in
    if_both (λ (r : Session × Option SessionError). Moves (length os + 1) s r.0) s.stopped
      (record {
        lower = omega arith;
        upper = omega arith;
        same_live = λ p. refl;
        same_pushed = refl;
        same_accepted = refl;
      })
      (if_both (λ (r : Session × Option SessionError). Moves (length os + 1) s r.0)
        (loop.lost_proxy && not loop.any_observed) (lost-Moves (length os) loop s a)
        (settle-Moves l now (length os) loop s h a))
