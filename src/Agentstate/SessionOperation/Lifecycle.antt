-- ===== src/Agentstate/SessionOperation/Lifecycle.antt =====
-- The life of a record under the transitions that the journal accepts (session_operation.go).
use qurl_connector.Base.{ℕ, ◌+◌, ◌≤◌, ◌≡◌, ◌⊎◌, refl, ◌∙◌, subst, true, Option, none, some, arith}
use qurl_connector.Base.Int.{pos_part, neg_part}
use qurl_connector.Agentstate.SessionOperation.{
  OperationApi, Status, prepared, dispatching, mapped, closing, canceled, closed, other,
  SessionOperationAdmission, SessionOperationRecord, valid_session_operation_record,
  valid_session_operation_transition, allowed_next, admission_fits,
}
use qurl_connector.Agentstate.SessionOperation.Transition.{
  Edge, InRange, IsTransition, KeepsAdmission, Progress, still, attempt, no_reply, IsTransition-iff,
}

-- How far a status is along the diagram.
abbrev pub rank : Status → ℕ
rank prepared = 0
rank dispatching = 1
rank mapped = 2
rank closing = 3
rank canceled = 4
rank closed = 4
rank (other t) = 5

Edge-rank : {p n : Status} → Edge p n → rank p ≤ rank n
Edge-rank Edge.dispatch = omega arith
Edge-rank _ = omega arith

KeepsAdmission-trans :
    (a b c : Option SessionOperationAdmission)
    → KeepsAdmission a b
    → KeepsAdmission b c
    → KeepsAdmission a c
KeepsAdmission-trans none b c h k = tt
KeepsAdmission-trans (some a) none c h k = cc
KeepsAdmission-trans (some a) (some b) c h k = k ∙ h

pub KeepsAdmission-refl : (a : Option SessionOperationAdmission) → KeepsAdmission a a
KeepsAdmission-refl none = tt
KeepsAdmission-refl (some a) = refl

module _ {Op : Type 0} ⦃api : OperationApi Op⦄ where
  -- Any number of accepted transitions from `r`.
  pub data History (r : SessionOperationRecord Op) : SessionOperationRecord Op → Type 0 where
    start : History r r
    next :
        {s t : SessionOperationRecord Op}
        → History r s
        → InRange t
        → valid_session_operation_transition s t ≡ true
        → History r t

  -- What a later state of a record keeps of an earlier one.
  pub record Continues (r t : SessionOperationRecord Op) : Type 0 where
    pub operation_kept : r.operation ≡ t.operation
    pub admission_kept : KeepsAdmission r.admission t.admission
    pub attempts_grow : r.recovery_attempt ≤ t.recovery_attempt
    pub failures_grow : r.post_expiry_no_reply_attempts ≤ t.post_expiry_no_reply_attempts
    pub rank_grows : rank r.status ≤ rank t.status
    -- Every counted exchange moved the deadline by a millisecond at least.
    pub paid :
        t.recovery_attempt
          + t.post_expiry_no_reply_attempts
          + (pos_part r.recovery_not_before_milli + neg_part t.recovery_not_before_milli)
        ≤ r.recovery_attempt
          + r.post_expiry_no_reply_attempts
          + (pos_part t.recovery_not_before_milli + neg_part r.recovery_not_before_milli)

  pub History-InRange : {r t : SessionOperationRecord Op} → InRange r → History r t → InRange t
  History-InRange h start = h
  History-InRange h (next past range step) = range

  attempts_mono :
      (s t : SessionOperationRecord Op) → Progress s t → s.recovery_attempt ≤ t.recovery_attempt
  attempts_mono s t (still a f d) = omega arith
  attempts_mono s t (attempt a f d) = omega arith
  attempts_mono s t (no_reply a f d) = omega arith

  failures_mono :
      (s t : SessionOperationRecord Op)
      → Progress s t
      → s.post_expiry_no_reply_attempts ≤ t.post_expiry_no_reply_attempts
  failures_mono s t (still a f d) = omega arith
  failures_mono s t (attempt a f d) = omega arith
  failures_mono s t (no_reply a f d) = omega arith

  Progress-paid :
      (s t : SessionOperationRecord Op)
      → Progress s t
      → t.recovery_attempt
          + t.post_expiry_no_reply_attempts
          + (pos_part s.recovery_not_before_milli + neg_part t.recovery_not_before_milli)
        ≤ s.recovery_attempt
          + s.post_expiry_no_reply_attempts
          + (pos_part t.recovery_not_before_milli + neg_part s.recovery_not_before_milli)
  Progress-paid s t (still a f d) = rw d (omega arith)
  Progress-paid s t (attempt a f d) = omega arith
  Progress-paid s t (no_reply a f d) = omega arith

  step-Continues : (s t : SessionOperationRecord Op) → IsTransition s t → Continues s t
  step-Continues s t h = record {
    operation_kept = h.operation_kept;
    admission_kept = h.admission_kept;
    attempts_grow = attempts_mono s t h.progress;
    failures_grow = failures_mono s t h.progress;
    rank_grows = Edge-rank h.edge;
    paid = Progress-paid s t h.progress;
  }

  Continues-refl : (r : SessionOperationRecord Op) → Continues r r
  Continues-refl r = record {
    operation_kept = refl;
    admission_kept = KeepsAdmission-refl r.admission;
    attempts_grow = omega arith;
    failures_grow = omega arith;
    rank_grows = omega arith;
    paid = omega arith;
  }

  Continues-trans :
      (r s t : SessionOperationRecord Op) → Continues r s → Continues s t → Continues r t
  Continues-trans r s t h k = record {
    operation_kept = h.operation_kept ∙ k.operation_kept;
    admission_kept =
        KeepsAdmission-trans r.admission s.admission t.admission h.admission_kept k.admission_kept;
    attempts_grow = omega arith;
    failures_grow = omega arith;
    rank_grows = omega arith;
    paid = omega arith;
  }

  -- Over any chain of accepted transitions, with every counter in range, the operation is the same,
  -- a receipt once recorded is kept, no counter and no rank on the diagram falls, and the two
  -- counters together grow by no more than the milliseconds that the recovery deadline moved.
  pub History-Continues :
      {r t : SessionOperationRecord Op} → InRange r → History r t → Continues r t
  History-Continues {r} h start = Continues-refl r
  History-Continues {r} h (next {s} {t} past range step) =
      Continues-trans r s t (History-Continues h past)
        (step-Continues s t ((IsTransition-iff s t (History-InRange h past) range).0 step))

  no_step_from_terminal :
      (s t : SessionOperationRecord Op)
      → (s.status ≡ canceled) ⊎ (s.status ≡ closed)
      → ¬ (valid_session_operation_transition s t ≡ true)
  unfolding valid_session_operation_transition allowed_next
  no_step_from_terminal s t h e = ground arith

  -- A canceled or closed record has no later state.
  pub terminal-History :
      {r t : SessionOperationRecord Op}
      → (r.status ≡ canceled) ⊎ (r.status ≡ closed)
      → History r t
      → t ≡ r
  terminal-History h start = refl
  terminal-History h (next {s} {t} past range step) =
      absurd (no_step_from_terminal s t (rw (terminal-History h past) h) step)

  pub History-valid :
      {r t : SessionOperationRecord Op}
      → valid_session_operation_record r ≡ true
      → History r t
      → valid_session_operation_record t ≡ true
  unfolding valid_session_operation_transition
  History-valid v start = v
  History-valid v (next past range step) = ground arith

  receipt_holder :
      (t : SessionOperationRecord Op) (a : SessionOperationAdmission)
      → valid_session_operation_record t ≡ true
      → t.admission ≡ some a
      → (t.status ≡ mapped) ⊎ ((t.status ≡ closing) ⊎ (t.status ≡ closed))
  unfolding valid_session_operation_record admission_fits
  receipt_holder t a v e = ground arith

  -- A valid record with a receipt keeps it over any chain of accepted transitions, and stays mapped,
  -- closing or closed: it is never canceled nor sent back to dispatching.
  pub mapped-History :
      {r t : SessionOperationRecord Op} (a : SessionOperationAdmission)
      → InRange r
      → valid_session_operation_record r ≡ true
      → r.admission ≡ some a
      → History r t
      → (t.admission ≡ some a)
        × ((t.status ≡ mapped) ⊎ ((t.status ≡ closing) ⊎ (t.status ≡ closed)))
  mapped-History {r} {t} a h v e past =
      let kept =
        subst (λ o. KeepsAdmission o t.admission) e (History-Continues h past).admission_kept in
      (kept, receipt_holder t a (History-valid v past) kept)
