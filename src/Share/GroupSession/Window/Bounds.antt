-- ===== src/Share/GroupSession/Window/Bounds.antt =====
-- A release never takes the routes in flight over the window, nor the pending ones over the ceiling.
use qurl_connector.Base.{
  ℕ, ◌+◌, ◌*◌, ◌≤◌, ◌≡◌, ◌⊎◌, ◌||◌, inl, inr, refl, Bool, true, false, List, [], ◌∷◌, Bytes,
  bytes_eq, leb, is_empty, Bool-cases, Option-cases, arith,
}
use qurl_connector.Base.Maps.{lookup, sum_of, sum_of-insert}
use qurl_connector.Base.Sort.{sort_by}
use qurl_connector.Share.GroupSession.{Entry, Table, Limits}
use qurl_connector.Share.GroupSession.Window.{
  b2n, is_in_flight, counts_pending, in_flight, released_pending, release_entry, release_loop,
  release_window, released_pending_factor, window_of, waiting, waiting_before,
}

b2n_le : (b : Bool) → b2n b ≤ 1
b2n_le true = omega arith
b2n_le false = omega arith

-- A measure that is at most one grows by at most one.
release_entry_sum :
    (p : Entry → Bool) (id : Bytes) (t : Table)
    → sum_of (λ e. b2n (p e)) (release_entry id t) ≤ sum_of (λ e. b2n (p e)) t + 1
unfolding release_entry
release_entry_sum p id t = elim (Option-cases (lookup id t)) [
  | inl e ↦ rw (e, release_entry) (omega arith)
  | inr (e, found) ↦
      let e' : Entry = record e { released = true } in
      rw (found, release_entry)
        (omega (arith, sum_of-insert (λ x. b2n (p x)) id e e' t found, b2n_le (p e')))
]

module _ (hold now window ceiling : ℕ) where
  -- Within both bounds.
  pub record InWindow (t : Table) : Type 0 where
    pub flight : in_flight t ≤ window
    pub ceiling_kept : released_pending hold now t ≤ ceiling

  flight_step :
      (id : Bytes) (t : Table) (i : ℕ) → in_flight t ≤ i → in_flight (release_entry id t) ≤ i + 1
  unfolding in_flight
  flight_step id t i h = omega (arith, release_entry_sum is_in_flight id t)

  pending_step :
      (id : Bytes) (t : Table) (p : ℕ)
      → released_pending hold now t ≤ p
      → released_pending hold now (release_entry id t) ≤ p + 1
  unfolding released_pending
  pending_step id t p h = omega (arith, release_entry_sum (counts_pending hold now) id t)

  release_loop-InWindow :
      (ids : List (Bytes × Bool)) (i p : ℕ) (t : Table)
      → in_flight t ≤ i
      → released_pending hold now t ≤ p
      → i ≤ window
      → p ≤ ceiling
      → InWindow (release_loop window ceiling ids i p t)
  unfolding release_loop
  release_loop-InWindow [] i p t a b c d = record {
    flight = omega arith;
    ceiling_kept = omega arith;
  }
  release_loop-InWindow ((id, r) ∷ ids) i p t a b c d =
      elim (Bool-cases (leb window i || leb ceiling p)) [
        | inl full ↦ rw full (record { flight = omega arith; ceiling_kept = omega arith })
        | inr room ↦ rw room (
            release_loop-InWindow ids (i + 1) (p + 1) (release_entry id t) (flight_step id t i a)
              (pending_step id t p b) (ground arith) (ground arith))
      ]

-- A release that hands any route to FRP leaves at most the window in flight, and at most twice the
-- window pending within the hold; a release that hands over none leaves the table as it is.
pub release_window_bounds :
    (l : Limits) (now : ℕ) (t : Table)
    → (((release_window l now t).1 ≡ false) × ((release_window l now t).0 ≡ t))
      ⊎ (((release_window l now t).1 ≡ true)
          × InWindow l.errored_hold now
              (window_of l)
              (released_pending_factor * window_of l)
              (release_window l now t).0)
unfolding release_window
release_window_bounds l now t =
    let window = window_of l in
    let ceiling = released_pending_factor * window in
    let i = in_flight t in
    let p = released_pending l.errored_hold now t in
    let ids = sort_by waiting_before (waiting t) in
    elim (Bool-cases (leb window i || leb ceiling p)) [
      | inl full ↦ rw full (inl (refl, refl))
      | inr room ↦ rw room elim (Bool-cases (is_empty ids)) [
        | inl e ↦ rw e (inl (refl, refl))
        | inr e ↦ rw e (
            inr (
              refl,
              release_loop-InWindow l.errored_hold now window ceiling ids i p t (omega arith)
                  (omega arith) (ground arith) (ground arith),
            ))
      ]
    ]
