-- ===== src/Agentstate/SessionOperation/Transition.antt =====
-- validSessionOperationTransition of session_operation.go against an independent description.
use qurl_connector.Base.{
  ℕ, suc, ◌<◌, ◌≡◌, ◌↔◌, ◌⊎◌, inl, inr, refl, true, Option, none, some, bytes_beq_iff, arith,
}
use qurl_connector.Base.Int.{◌<ℤ◌, eqb_ℤ_iff}
use qurl_connector.Agentstate.SessionOperation.{
  OperationApi, Status, prepared, dispatching, mapped, closing, canceled, closed,
  SessionOperationAdmission, SessionOperationRecord, admission_eq, keeps_admission, allowed_next,
  valid_recovery_progress, valid_session_operation_record, valid_session_operation_transition,
  valid_fields, record_schema,
}

-- The diagram of the record's life.
pub data Edge : Status → Status → Type 0 where
  dispatch : Edge prepared dispatching
  cancel_prepared : Edge prepared canceled
  redispatch : Edge dispatching dispatching
  map : Edge dispatching mapped
  cancel_dispatching : Edge dispatching canceled
  close_unmapped : Edge dispatching closing
  closed_unmapped : Edge dispatching closed
  close_mapped : Edge mapped closing
  closed_mapped : Edge mapped closed
  reclose : Edge closing closing
  finish : Edge closing closed

pub ruleset edges = (
  dispatch, cancel_prepared, redispatch, map, cancel_dispatching, close_unmapped, closed_unmapped,
  close_mapped, closed_mapped, reclose, finish,
)

allowed-Edge : (p n : Status) → allowed_next p n ≡ true → Edge p n
unfolding allowed_next
allowed-Edge prepared dispatching h = dispatch
allowed-Edge p n h = grind (arith, edges)

Edge-allowed : {p n : Status} → Edge p n → allowed_next p n ≡ true
unfolding allowed_next
Edge-allowed dispatch = refl
Edge-allowed _ = refl

pub admission_eq_iff : (a b : SessionOperationAdmission) → (admission_eq a b ≡ true) ↔ (a ≡ b)
unfolding admission_eq
admission_eq_iff a b = ground (
  arith,
  bytes_beq_iff a.cell_id b.cell_id,
  bytes_beq_iff a.run_id b.run_id,
  eqb_ℤ_iff a.session_issued_at_millis b.session_issued_at_millis,
)

abbrev pub KeepsAdmission :
    Option SessionOperationAdmission → Option SessionOperationAdmission → Type 0
KeepsAdmission none b = Unit
KeepsAdmission (some a) b = b ≡ some a

pub keeps_iff :
    (a b : Option SessionOperationAdmission) → (keeps_admission a b ≡ true) ↔ KeepsAdmission a b
unfolding keeps_admission
keeps_iff none b = (λ h. tt, λ h. refl)
keeps_iff (some a) none = (λ h. cc, λ h. cc)
keeps_iff (some a) (some b) = ground (arith, admission_eq_iff a b)

-- A uint32 counter in range.
abbrev pub IsUint32 : ℕ → Type 0
IsUint32 n = n < 4294967296

module _ {Op : Type 0} where
  -- At most one counter moves, by one, and exactly when the deadline moves forward.
  pub data Progress (p n : SessionOperationRecord Op) : Type 0 where
    still :
        n.recovery_attempt ≡ p.recovery_attempt
        → n.post_expiry_no_reply_attempts ≡ p.post_expiry_no_reply_attempts
        → n.recovery_not_before_milli ≡ p.recovery_not_before_milli
        → Progress p n
    attempt :
        n.recovery_attempt ≡ suc p.recovery_attempt
        → n.post_expiry_no_reply_attempts ≡ p.post_expiry_no_reply_attempts
        → p.recovery_not_before_milli <ℤ n.recovery_not_before_milli
        → Progress p n
    no_reply :
        n.recovery_attempt ≡ p.recovery_attempt
        → n.post_expiry_no_reply_attempts ≡ suc p.post_expiry_no_reply_attempts
        → p.recovery_not_before_milli <ℤ n.recovery_not_before_milli
        → Progress p n

  -- Both counters of a record are in range.
  pub record InRange (r : SessionOperationRecord Op) : Type 0 where
    pub attempts : IsUint32 r.recovery_attempt
    pub failures : IsUint32 r.post_expiry_no_reply_attempts

  progress_cases :
      (p n : SessionOperationRecord Op)
      → InRange p
      → InRange n
      → valid_recovery_progress p n ≡ true
      → ((n.recovery_attempt ≡ p.recovery_attempt)
          × (n.post_expiry_no_reply_attempts ≡ p.post_expiry_no_reply_attempts)
          × (n.recovery_not_before_milli ≡ p.recovery_not_before_milli))
        ⊎ (p.recovery_not_before_milli <ℤ n.recovery_not_before_milli)
          × (((n.recovery_attempt ≡ suc p.recovery_attempt)
                × (n.post_expiry_no_reply_attempts ≡ p.post_expiry_no_reply_attempts))
              ⊎ ((n.recovery_attempt ≡ p.recovery_attempt)
                  × (n.post_expiry_no_reply_attempts ≡ suc p.post_expiry_no_reply_attempts)))
  unfolding valid_recovery_progress
  progress_cases p n hp hn h =
      ground (arith, eqb_ℤ_iff n.recovery_not_before_milli p.recovery_not_before_milli)

  Progress-sound :
      (p n : SessionOperationRecord Op)
      → InRange p
      → InRange n
      → valid_recovery_progress p n ≡ true
      → Progress p n
  Progress-sound p n hp hn h = elim (progress_cases p n hp hn h) [
    | inl (a, f, d) ↦ still a f d
    | inr (d, inl (a, f)) ↦ attempt a f d
    | inr (d, inr (a, f)) ↦ no_reply a f d
  ]

  Progress-complete :
      (p n : SessionOperationRecord Op)
      → InRange p
      → InRange n
      → Progress p n
      → valid_recovery_progress p n ≡ true
  unfolding valid_recovery_progress
  Progress-complete p n hp hn (still a f d) = ground arith
  Progress-complete p n hp hn (attempt a f d) = ground arith
  Progress-complete p n hp hn (no_reply a f d) = ground arith

module _ {Op : Type 0} ⦃api : OperationApi Op⦄ where
  -- One accepted transition, field by field.
  pub record IsTransition (p n : SessionOperationRecord Op) : Type 0 where
    pub previous_valid : valid_session_operation_record p ≡ true
    pub next_valid : valid_session_operation_record n ≡ true
    pub operation_kept : p.operation ≡ n.operation
    pub admission_kept : KeepsAdmission p.admission n.admission
    pub progress : Progress p n
    pub edge : Edge p.status n.status

  pub valid_schema :
      (r : SessionOperationRecord Op)
      → valid_session_operation_record r ≡ true
      → r.schema ≡ record_schema
  unfolding valid_session_operation_record valid_fields
  valid_schema r h = (eqb_ℤ_iff r.schema record_schema).0 (ground arith)

  -- Of two records whose counters are in range, the check accepts exactly the pairs of valid records
  -- with one operation, a kept receipt, an edge of the diagram between their statuses, and either
  -- nothing counted and the deadline unmoved or one counter moved by one and the deadline later.
  pub IsTransition-iff :
      (p n : SessionOperationRecord Op)
      → InRange p
      → InRange n
      → (valid_session_operation_transition p n ≡ true) ↔ IsTransition p n
  unfolding valid_session_operation_transition
  IsTransition-iff p n hp hn = (
    λ h. record {
      previous_valid = ground arith;
      next_valid = ground arith;
      operation_kept = (api.operation_eq.equals_iff _ _).0 (ground arith);
      admission_kept = (keeps_iff _ _).0 (ground arith);
      progress = Progress-sound p n hp hn (ground arith);
      edge = allowed-Edge _ _ (ground arith);
    },
    λ t. ground (
      arith,
      valid_schema p t.previous_valid,
      valid_schema n t.next_valid,
      (api.operation_eq.equals_iff p.operation n.operation).1 t.operation_kept,
      (keeps_iff p.admission n.admission).1 t.admission_kept,
      Progress-complete p n hp hn t.progress,
      Edge-allowed t.edge,
    ),
  )
