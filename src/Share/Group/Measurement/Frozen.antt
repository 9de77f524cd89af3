-- ===== src/Share/Group/Measurement/Frozen.antt =====
-- When the measurement of a cycle's first batch is final, and what the estimate covers.
use qurl_connector.Base.{
  ℕ, ◌≤◌, ◌≡◌, ◌⊎◌, inl, inr, sym, subst, ◌∙◌, ◌||◌, Bool, true, false, List, Bytes, length, ltb,
  leb, nat_beq, Bool-cases, arith,
}
use qurl_connector.Base.Int.{ℤ, max_ℤ, ◌≤ℤ◌}
use qurl_connector.Share.Group.{States, serves}
use qurl_connector.Share.Group.Measurement.{
  Cycle, count_by, capture, added_cost, start_added, added_step, is_pending_in, observe_added,
  observe_initial, observe_registration, batch_cost,
}

-- The fields that the additions leave alone.
record SameBatch (c d : Cycle) : Type 0 where
  initial : d.initial ≡ c.initial
  measured : d.measured ≡ c.measured
  high_water : d.high_water ≡ c.high_water

capture-SameBatch : (c : Cycle) (states : States) (now : ℕ) → SameBatch c (capture c states now)
unfolding capture
capture-SameBatch c states now = record {
  initial = ground arith;
  measured = ground arith;
  high_water = ground arith;
}

capture_cost :
    (c : Cycle) (states : States) (now : ℕ)
    → (capture c states now).added_per_route ≡ c.added_per_route
unfolding capture
capture_cost c states now = ground arith

start_added-SameBatch : (c : Cycle) (serving now : ℕ) → SameBatch c (start_added c serving now)
unfolding start_added
start_added-SameBatch c serving now = record {
  initial = ground arith;
  measured = ground arith;
  high_water = ground arith;
}

added_step-SameBatch :
    (c : Cycle) (serving waiting now : ℕ) (e : ℤ)
    → SameBatch c (added_step c serving waiting now e).0
unfolding added_step
added_step-SameBatch c serving waiting now e =
    let s = start_added-SameBatch c serving now in
    record {
      initial = ground (arith, s.initial);
      measured = ground (arith, s.measured);
      high_water = ground (arith, s.high_water);
    }

-- The greater of two costs, and the estimate with it.
max_covers : (a b e : ℤ) → (max_ℤ a b ≤ℤ max_ℤ e (max_ℤ a b)) × (e ≤ℤ max_ℤ e (max_ℤ a b))
max_covers a b e = (ground arith, ground arith)

le_self : (e : ℤ) → e ≤ℤ e
le_self e = omega arith

added_step_covers :
    (c : Cycle) (serving waiting now : ℕ) (e : ℤ)
    → c.added_per_route ≤ℤ e
    → ((added_step c serving waiting now e).0.added_per_route
        ≤ℤ (added_step c serving waiting now e).1)
      × (e ≤ℤ (added_step c serving waiting now e).1)
unfolding added_step
added_step_covers c serving waiting now e h =
    let b = added_cost (start_added c serving now) serving now in
    elim (Bool-cases (ltb c.added_high_water serving)) [
      | inl g ↦
          let m = max_covers c.added_per_route b e in
          rw g (elim (Bool-cases (nat_beq waiting 0)) [ inl w ↦ rw w m | inr w ↦ rw w m ])
      | inr g ↦ rw g elim (Bool-cases (nat_beq waiting 0)) [
        | inl w ↦ rw w (h, le_self e)
        | inr w ↦ rw w (h, le_self e)
      ]
    ]

-- What one observation makes of a cycle and of the estimate.
pub record IsMeasured (c : Cycle) (states : States) (e : ℤ) (d : Cycle) (e' : ℤ) : Type 0 where
  pub final : (c.measured ≡ false) ⊎ (d.measured ≡ true) × (e ≤ℤ e')
  pub complete :
      (d.measured ≡ false)
      ⊎ (c.measured ≡ true)
      ⊎ (length c.initial ≤ count_by (serves states) c.initial)
  pub covers : d.added_per_route ≤ℤ e'

unmoved : (c : Cycle) (states : States) (e : ℤ) → c.added_per_route ≤ℤ e → IsMeasured c states e c e
unmoved c states e h = elim (Bool-cases c.measured) [
  | inl m ↦ record { final = inr (m, le_self e); complete = inr (inl m); covers = h }
  | inr m ↦ record { final = inl m; complete = inl m; covers = h }
]

whole : (n serving : ℕ) (m : Bool) → (leb n serving ≡ false) ⊎ (m ≡ true) ⊎ (n ≤ serving)
whole n serving m = ground arith

le_max_right : (a b : ℤ) → b ≤ℤ max_ℤ a b
le_max_right a b = ground arith

initial-IsMeasured :
    (c : Cycle) (states : States) (now : ℕ) (e : ℤ)
    → c.added_per_route ≤ℤ e
    → IsMeasured c states e (observe_initial c states now e).0 (observe_initial c states now e).1
unfolding observe_initial
initial-IsMeasured c states now e h =
    let serving = count_by (serves states) c.initial in
    elim (Bool-cases (c.measured || nat_beq serving 0)) [
      | inl idle ↦ rw idle (unmoved c states e h)
      | inr active ↦
          let open_batch : c.measured ≡ false = ground arith in
          rw active elim (Bool-cases (leb serving c.high_water)) [
            | inl same ↦
                rw same (record { final = inl open_batch; complete = inl open_batch; covers = h })
            | inr grew ↦ rw grew elim (Bool-cases (ltb serving 2)) [
              | inl single ↦ rw single (record {
                final = inl open_batch;
                complete = whole (length c.initial) serving c.measured;
                covers = h;
              })
              | inr several ↦ rw several (record {
                final = inl open_batch;
                complete = whole (length c.initial) serving c.measured;
                covers = le_max_right (batch_cost c serving now) c.added_per_route;
              })
            ]
          ]
    ]

SameBatch-trans : {a b c : Cycle} → SameBatch a b → SameBatch b c → SameBatch a c
SameBatch-trans s t = record {
  initial = t.initial ∙ s.initial;
  measured = t.measured ∙ s.measured;
  high_water = t.high_water ∙ s.high_water;
}

le_trans_ℤ : (a b c : ℤ) → a ≤ℤ b → b ≤ℤ c → a ≤ℤ c
le_trans_ℤ a b c h k = omega arith

-- Where the estimate covers the cost of the additions, an observation keeps it so; a measurement
-- becomes final only once every route of the first batch serves, and then stays final and never
-- lowers the estimate.
pub observe_registration-IsMeasured :
    (c : Cycle) (states : States) (now : ℕ) (e : ℤ)
    → c.added_per_route ≤ℤ e
    → IsMeasured c states e
        (observe_registration c states now e).0
        (observe_registration c states now e).1
unfolding observe_registration observe_added
observe_registration-IsMeasured c states now e h =
    let snapshot = capture c states now in
    let serving = count_by (serves states) snapshot.added in
    let waiting = count_by (is_pending_in states) snapshot.added in
    let added = added_step snapshot serving waiting now e in
    let same =
      SameBatch-trans (capture-SameBatch c states now)
        (added_step-SameBatch snapshot serving waiting now e) in
    let covers =
      added_step_covers snapshot serving waiting now e
        (subst (λ (x : ℤ). x ≤ℤ e) (sym (capture_cost c states now)) h) in
    let m = initial-IsMeasured added.0 states now added.1 covers.0 in
    record {
      final = elim m.final [
        | inl f ↦ inl (sym same.measured ∙ f)
        | inr (f, le) ↦ inr (f, le_trans_ℤ e added.1 _ covers.1 le)
      ];
      complete = elim m.complete [
        | inl f ↦ inl f
        | inr (inl f) ↦ inr (inl (sym same.measured ∙ f))
        | inr (inr f) ↦ inr (
            inr (
              subst (λ (ids : List Bytes). length ids ≤ count_by (serves states) ids) same.initial
                f))
      ];
      covers = m.covers;
    }
