-- ===== src/Share/SessionOperation/Overtaken.antt =====
-- A recovery that loses a compare-and-swap goes on exactly when the journal moved the record on
-- (monotonicSessionOperationAdvance of session_operation.go, over the transitions of pkg/agentstate).
use qurl_connector.Base.{
  ◌≤◌, ◌≡◌, ◌≢◌, ◌⊎◌, inl, inr, refl, sym, ap, ◌∙◌, true, false, Option, none, some, arith,
  bytes_beq_iff, Bool-cases, subst, ◌&&◌,
}
use qurl_connector.Base.Int.{eqb_ℤ_iff}
use qurl_connector.Agentstate.SessionOperation.{
  OperationApi, Endpoint, Status, prepared, dispatching, mapped, closing, canceled, closed, other,
  SessionOperationAdmission, SessionOperationRecord, valid_session_operation_record, valid_fields,
  admission_fits, valid_session_operation_admission, valid_recovery_endpoint, is_none,
}
use qurl_connector.Agentstate.SessionOperation.Transition.{
  Edge, InRange, IsTransition-iff, Progress, still, attempt, no_reply, keeps_iff, KeepsAdmission,
  valid_schema,
}
use qurl_connector.Agentstate.SessionOperation.Lifecycle.{
  History, start, next, Continues, History-Continues, History-valid, History-InRange,
}
use qurl_connector.Share.SessionOperation.{endpoint_eq, is_some}
use qurl_connector.Share.SessionOperation.Advance.{
  reachable_status, same_status, admission_present, counted, progress_advances, same_identity,
  admission_matches, changed, monotonic_advance,
}

edge_reaches : (p n : Status) → p ≢ prepared → Edge p n → reachable_status p n ≡ true
unfolding reachable_status
edge_reaches p n h Edge.dispatch = absurd (h refl)
edge_reaches p n h Edge.cancel_prepared = refl
edge_reaches p n h _ = refl

reach_step :
    (a b c : Status)
    → a ≢ prepared
    → reachable_status a b ≡ true
    → Edge b c
    → reachable_status a c ≡ true
unfolding reachable_status
reach_step prepared b c h r e = absurd (h refl)
reach_step dispatching b c h r Edge.redispatch = refl
reach_step dispatching b c h r _ = ground arith
reach_step mapped b c h r Edge.redispatch = r
reach_step mapped b c h r _ = ground arith
reach_step closing b c h r Edge.redispatch = r
reach_step closing b c h r _ = ground arith
reach_step canceled b c h r e = cc
reach_step closed b c h r e = cc
reach_step (other t) b c h r e = cc

same_status_eq : (a b : Status) → same_status a b ≡ true → a ≡ b
unfolding same_status
same_status_eq prepared b h = ground arith
same_status_eq dispatching b h = ground arith
same_status_eq mapped b h = ground arith
same_status_eq closing b h = ground arith
same_status_eq canceled b h = ground arith
same_status_eq closed b h = ground arith
same_status_eq (other s) (other t) h = ap other ((bytes_beq_iff s t).0 h)
same_status_eq (other s) prepared h = cc
same_status_eq (other s) dispatching h = cc
same_status_eq (other s) mapped h = cc
same_status_eq (other s) closing h = cc
same_status_eq (other s) canceled h = cc
same_status_eq (other s) closed h = cc

endpoint_eq_lem : (a b : Endpoint) → endpoint_eq a b ≡ true → a ≡ b
unfolding endpoint_eq
endpoint_eq_lem a b h = ground (
  arith,
  bytes_beq_iff a.host b.host,
  bytes_beq_iff a.server_public_key_b64 b.server_public_key_b64,
)

kept_admission :
    (a b : Option SessionOperationAdmission)
    → KeepsAdmission a b
    → (is_none a && is_some b) ≡ false
    → b ≡ a
kept_admission none none h k = refl
kept_admission none (some b) h k = cc
kept_admission (some a) b h k = h

module _ {Op : Type 0} ⦃api : OperationApi Op⦄ where
  present_fits_at :
      (s : Status) (a : Option SessionOperationAdmission) (op : Op)
      → admission_fits s a op ≡ true
      → (admission_present s a ≡ true) × (admission_matches a op ≡ true)
  unfolding admission_fits admission_present admission_matches valid_session_operation_admission
  present_fits_at prepared a op h = ground arith
  present_fits_at dispatching a op h = ground arith
  present_fits_at canceled a op h = ground arith
  present_fits_at mapped a op h = ground arith
  present_fits_at closing a op h = ground arith
  present_fits_at closed a op h = ground arith
  present_fits_at (other t) a op h = cc

  History-reaches :
      {p t : SessionOperationRecord Op}
      → InRange p
      → p.status ≢ prepared
      → History p t
      → (t ≡ p) ⊎ (reachable_status p.status t.status ≡ true)
  History-reaches {p} range h start = inl refl
  History-reaches {p} range h (next {s} {t} past within step) =
      let edge = ((IsTransition-iff s t (History-InRange range past) within).0 step).edge in
      elim (History-reaches range h past) [
        | inl same ↦ inr (
            edge_reaches p.status t.status h
              (subst (λ (r : SessionOperationRecord Op). Edge r.status t.status) same edge))
        | inr reached ↦ inr (reach_step p.status s.status t.status h reached edge)
      ]

  still_deadline :
      (s t : SessionOperationRecord Op)
      → Progress s t
      → t.recovery_attempt ≤ s.recovery_attempt
      → t.post_expiry_no_reply_attempts ≤ s.post_expiry_no_reply_attempts
      → t.recovery_not_before_milli ≡ s.recovery_not_before_milli
  still_deadline s t (still a f d) h k = d
  still_deadline s t (attempt a f d) h k = absurd (omega arith)
  still_deadline s t (no_reply a f d) h k = absurd (omega arith)

  -- The deadline moves only when something is counted.
  History-deadline :
      {p t : SessionOperationRecord Op}
      → InRange p
      → History p t
      → t.recovery_attempt ≤ p.recovery_attempt
      → t.post_expiry_no_reply_attempts ≤ p.post_expiry_no_reply_attempts
      → t.recovery_not_before_milli ≡ p.recovery_not_before_milli
  History-deadline {p} range start h k = refl
  History-deadline {p} range (next {s} {t} past within step) h k =
      let moved = (IsTransition-iff s t (History-InRange range past) within).0 step in
      let before = History-Continues range past in
      let after = History-Continues (History-InRange range past) (next start within step) in
      still_deadline s t moved.progress (omega (arith, before.attempts_grow))
        (omega (arith, before.failures_grow))
      ∙ History-deadline range past (omega (arith, after.attempts_grow))
          (omega (arith, after.failures_grow))

  -- The deadlines of a record and of a later one.
  History-advances :
      {p t : SessionOperationRecord Op}
      → InRange p
      → valid_session_operation_record t ≡ true
      → History p t
      → progress_advances p t ≡ true
  unfolding progress_advances counted
  History-advances {p} {t} range v past =
      let c = History-Continues range past in
      let endpoint : valid_recovery_endpoint t.recovery_endpoint ≡ true =
        unfold valid_session_operation_record valid_fields in ground arith in
      let alike : (t.recovery_attempt ≤ p.recovery_attempt)
          → (t.post_expiry_no_reply_attempts ≤ p.post_expiry_no_reply_attempts)
          → t.recovery_not_before_milli ≡ p.recovery_not_before_milli =
        History-deadline range past in
      ground (arith, c.attempts_grow, c.failures_grow, c.paid)

  same_fields :
      (p t : SessionOperationRecord Op)
      → Continues p t
      → p.schema ≡ t.schema
      → p.recovery_not_before_milli ≡ t.recovery_not_before_milli
      → changed p t ≡ false
      → t ≡ p
  unfolding changed counted
  same_fields p t c schema deadline h =
      let status : t.status ≡ p.status = sym (same_status_eq p.status t.status (ground arith)) in
      let endpoint : t.recovery_endpoint ≡ p.recovery_endpoint =
        sym (endpoint_eq_lem p.recovery_endpoint t.recovery_endpoint (ground arith)) in
      let attempts : t.recovery_attempt ≡ p.recovery_attempt = ground (arith, c.attempts_grow) in
      let failures : t.post_expiry_no_reply_attempts ≡ p.post_expiry_no_reply_attempts =
        ground (arith, c.failures_grow) in
      let admission : t.admission ≡ p.admission =
        kept_admission p.admission t.admission c.admission_kept (ground arith) in
      λ i. record {
        schema = sym schema i;
        operation = sym c.operation_kept i;
        recovery_endpoint = endpoint i;
        status = status i;
        admission = admission i;
        recovery_attempt = attempts i;
        recovery_not_before_milli = sym deadline i;
        post_expiry_no_reply_attempts = failures i;
      }

  present_fits :
      (t : SessionOperationRecord Op)
      → valid_session_operation_record t ≡ true
      → (admission_present t.status t.admission ≡ true)
        × (admission_matches t.admission t.operation ≡ true)
  unfolding admission_present admission_matches
  present_fits t v =
      present_fits_at t.status t.admission t.operation
        (unfold valid_session_operation_record in ground arith)

  changes :
      (p t : SessionOperationRecord Op)
      → InRange p
      → p.schema ≡ t.schema
      → Continues p t
      → progress_advances p t ≡ true
      → t ≢ p
      → changed p t ≡ true
  changes p t range schema c advances apart = elim (Bool-cases (changed p t)) [
    | inl h ↦ h
    | inr h ↦ absurd (
        apart (
          same_fields p t c schema
            (unfold progress_advances changed counted in
              (eqb_ℤ_iff p.recovery_not_before_milli t.recovery_not_before_milli).0 (ground arith))
            h))
  ]

  -- A record that other writers moved on by any chain of accepted transitions passes the check of
  -- monotonicSessionOperationAdvance against the valid one that the driver held, if the two differ and
  -- the driver did not hold it prepared: no recovery of the same operation is taken for a conflict.
  pub overtaken_accepted :
      {p t : SessionOperationRecord Op}
      → InRange p
      → valid_session_operation_record p ≡ true
      → p.status ≢ prepared
      → History p t
      → t ≢ p
      → monotonic_advance p t ≡ true
  unfolding monotonic_advance same_identity
  overtaken_accepted {p} {t} range v open_status past apart =
      let c = History-Continues range past in
      let vt = History-valid v past in
      let schema : p.schema ≡ t.schema = valid_schema p v ∙ sym (valid_schema t vt) in
      let advances = History-advances range vt past in
      let (present, matches) = present_fits t vt in
      let reached : reachable_status p.status t.status ≡ true =
        elim (History-reaches range open_status past) [
          | inl same ↦ absurd (apart same)
          | inr r ↦ r
        ] in
      ground (
        arith,
        (eqb_ℤ_iff p.schema t.schema).1 schema,
        (api.operation_eq.equals_iff p.operation t.operation).1 c.operation_kept,
        (keeps_iff p.admission t.admission).1 c.admission_kept,
        changes p t range schema c advances apart,
      )
