-- ===== src/Share/SessionOperation/Advance.antt =====
-- session_operation.go: what a lost compare-and-swap may have left. The driver goes on only when the
-- record that it finds is an exact later state of the one that it held.
use qurl_connector.Base.{
  Bool, true, false, not, ◌&&◌, ◌||◌, Option, none, some, ◌==◌, ltb, if◌then◌else◌, bytes_eq,
}
use qurl_connector.Base.Int.{eqb_ℤ, ltb_ℤ, leb_ℤ}
use qurl_connector.Agentstate.SessionOperation.{
  OperationApi, Status, prepared, dispatching, mapped, closing, canceled, closed, other,
  SessionOperationAdmission, SessionOperationRecord, valid_recovery_endpoint, keeps_admission,
  is_none, valid_session_operation_admission,
}
use qurl_connector.Share.SessionOperation.{endpoint_eq, is_some}

-- `reachableSessionOperationStatus`
unfoldable pub reachable_status : Status → Status → Bool
reachable_status prepared canceled = true
reachable_status dispatching dispatching = true
reachable_status dispatching mapped = true
reachable_status dispatching closing = true
reachable_status dispatching canceled = true
reachable_status dispatching closed = true
reachable_status mapped closing = true
reachable_status mapped closed = true
reachable_status closing closing = true
reachable_status closing closed = true
reachable_status p c = false

-- `previous.Status != current.Status`, on two reachable statuses.
unfoldable pub same_status : Status → Status → Bool
same_status prepared prepared = true
same_status dispatching dispatching = true
same_status mapped mapped = true
same_status closing closing = true
same_status canceled canceled = true
same_status closed closed = true
same_status (other a) (other b) = a == b
same_status p c = false

-- The `switch current.Status` of `monotonicSessionOperationAdvance`.
unfoldable pub admission_present : Status → Option SessionOperationAdmission → Bool
admission_present prepared a = is_none a
admission_present dispatching a = is_none a
admission_present canceled a = is_none a
admission_present mapped a = is_some a
admission_present closing a = is_some a
admission_present closed a = is_some a
admission_present (other t) a = false

module _ {Op : Type 0} where
  -- A counter moved.
  unfoldable pub counted : SessionOperationRecord Op → SessionOperationRecord Op → Bool
  counted p c =
      ltb p.recovery_attempt c.recovery_attempt
      || ltb p.post_expiry_no_reply_attempts c.post_expiry_no_reply_attempts

  -- The first guard after the identity, and the two on `counted`.
  unfoldable pub progress_advances : SessionOperationRecord Op → SessionOperationRecord Op → Bool
  unfolding counted
  progress_advances p c =
      if ltb c.recovery_attempt p.recovery_attempt
        || (ltb_ℤ c.recovery_not_before_milli p.recovery_not_before_milli
            || (ltb c.post_expiry_no_reply_attempts p.post_expiry_no_reply_attempts
                || not (valid_recovery_endpoint c.recovery_endpoint)))
      then false
      else if not (counted p c)
          && not (eqb_ℤ p.recovery_not_before_milli c.recovery_not_before_milli)
      then false
      else if counted p c && leb_ℤ c.recovery_not_before_milli p.recovery_not_before_milli
      then false
      else true

module _ {Op : Type 0} ⦃api : OperationApi Op⦄ where
  -- `sameSessionOperationIdentity`: what is left when the mutable fields are cleared.
  unfoldable pub same_identity : SessionOperationRecord Op → SessionOperationRecord Op → Bool
  same_identity p c = eqb_ℤ p.schema c.schema && api.operation_eq.equals p.operation c.operation

  -- `current.Admission != nil && (current.Admission.CellID != … )` is the negation.
  unfoldable pub admission_matches : Option SessionOperationAdmission → Op → Bool
  admission_matches none op = true
  admission_matches (some a) op = valid_session_operation_admission (some a) op

  -- The last expression: something did change.
  unfoldable pub changed : SessionOperationRecord Op → SessionOperationRecord Op → Bool
  unfolding counted same_status
  changed p c =
      not (same_status p.status c.status)
      || (counted p c
          || (not (eqb_ℤ p.recovery_not_before_milli c.recovery_not_before_milli)
              || (not (endpoint_eq p.recovery_endpoint c.recovery_endpoint)
                  || (is_none p.admission && is_some c.admission))))

  -- `monotonicSessionOperationAdvance`
  unfoldable pub monotonic_advance : SessionOperationRecord Op → SessionOperationRecord Op → Bool
  unfolding same_identity progress_advances admission_matches admission_present reachable_status
      changed
  monotonic_advance p c =
      if not (same_identity p c) || not (progress_advances p c)
      then false
      else if not (keeps_admission p.admission c.admission)
      then false
      else if not (admission_matches c.admission c.operation)
      then false
      else if not (admission_present c.status c.admission)
      then false
      else if not (reachable_status p.status c.status)
      then false
      else changed p c
