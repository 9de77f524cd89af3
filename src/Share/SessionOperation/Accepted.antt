-- ===== src/Share/SessionOperation/Accepted.antt =====
-- The records that RecoverOperation writes: each is a valid record and an accepted transition from the
-- one that the driver holds (session_operation.go of pkg/share and pkg/agentstate).
use qurl_connector.Base.{◌<◌, ◌≡◌, ◌⊎◌, inl, inr, refl, true, Option, none, some, arith}
use qurl_connector.Base.Int.{ℤ, pos, ◌<ℤ◌, ◌≤ℤ◌, max_int64, ◌+ℤ◌}
use qurl_connector.Agentstate.SessionOperation.{
  OperationApi, Endpoint, SessionOperationRecord, SessionOperationAdmission, Status, prepared,
  dispatching, mapped, closing, canceled, valid_session_operation_record,
  valid_session_operation_transition, valid_fields, admission_fits,
  valid_session_operation_admission, valid_recovery_endpoint,
}
use qurl_connector.Agentstate.SessionOperation.Transition.{
  InRange, Progress, still, attempt, no_reply, Edge, IsTransition-iff, KeepsAdmission,
}
use qurl_connector.Agentstate.SessionOperation.Lifecycle.{KeepsAdmission-refl}
use qurl_connector.Share.SessionOperation.Recover.Settle.{attempt_record, next_deadline}
use qurl_connector.Share.SessionOperation.Recover.Judge.{failed_record, terminal_status}

-- A status in which an exchange may be made.
abbrev pub IsOpen : Status → Type 0
IsOpen s = (s ≡ dispatching) ⊎ (s ≡ closing)

reopen : (s : Status) → IsOpen s → Edge s s
reopen s (inl e) = rw e Edge.redispatch
reopen s (inr e) = rw e Edge.reclose

-- Addition stays in int64.
pub +ℤ-le : (a b : ℤ) → a +ℤ b ≤ℤ pos max_int64
+ℤ-le a b = ground arith

module _ {Op : Type 0} ⦃api : OperationApi Op⦄ where
  -- A valid record with its integers in range, as one read from a journal.
  pub record IsDecoded (r : SessionOperationRecord Op) : Type 0 where
    pub valid : valid_session_operation_record r ≡ true
    pub counters : InRange r
    pub deadline : r.recovery_not_before_milli ≤ℤ pos max_int64

  -- The write from `p` to `n` is accepted, and `n` can be held in turn.
  pub record IsWrite (p n : SessionOperationRecord Op) : Type 0 where
    pub accepted : valid_session_operation_transition p n ≡ true
    pub decoded : IsDecoded n

  write :
      (p n : SessionOperationRecord Op)
      → IsDecoded p
      → IsDecoded n
      → p.operation ≡ n.operation
      → KeepsAdmission p.admission n.admission
      → Progress p n
      → Edge p.status n.status
      → IsWrite p n
  write p n hp hn same kept moved edge = record {
    accepted = (IsTransition-iff p n hp.counters hn.counters).1 (record {
      previous_valid = hp.valid;
      next_valid = hn.valid;
      operation_kept = same;
      admission_kept = kept;
      progress = moved;
      edge = edge;
    });
    decoded = hn;
  }

  valid_status :
      (r : SessionOperationRecord Op) (s : Status)
      → valid_session_operation_record r ≡ true
      → admission_fits s r.admission r.operation ≡ true
      → valid_session_operation_record (record r { status = s }) ≡ true
  unfolding valid_session_operation_record valid_fields
  valid_status r s h k = ground arith

  -- A write that changes the status alone.
  status-IsWrite :
      (r : SessionOperationRecord Op) (s : Status)
      → IsDecoded r
      → Edge r.status s
      → admission_fits s r.admission r.operation ≡ true
      → IsWrite r (record r { status = s })
  status-IsWrite r s h edge fits =
      write r (record r { status = s }) h
        (record {
          valid = valid_status r s h.valid fits;
          counters = record { attempts = h.counters.attempts; failures = h.counters.failures };
          deadline = h.deadline;
        })
        refl (KeepsAdmission-refl r.admission) (still refl refl refl) edge

  pub fits_now :
      (r : SessionOperationRecord Op)
      → valid_session_operation_record r ≡ true
      → admission_fits r.status r.admission r.operation ≡ true
  unfolding valid_session_operation_record
  fits_now r h = ground arith

  pub cancel-IsWrite :
      (r : SessionOperationRecord Op)
      → IsDecoded r
      → r.status ≡ prepared
      → IsWrite r (record r { status = canceled })
  unfolding admission_fits
  cancel-IsWrite r h e =
      status-IsWrite r canceled h (rw e Edge.cancel_prepared) (ground (arith, fits_now r h.valid))

  pub dispatch-IsWrite :
      (r : SessionOperationRecord Op)
      → IsDecoded r
      → r.status ≡ prepared
      → IsWrite r (record r { status = dispatching })
  unfolding admission_fits
  dispatch-IsWrite r h e =
      status-IsWrite r dispatching h (rw e Edge.dispatch) (ground (arith, fits_now r h.valid))

  pub close-IsWrite :
      (r : SessionOperationRecord Op)
      → IsDecoded r
      → r.status ≡ mapped
      → IsWrite r (record r { status = closing })
  unfolding admission_fits
  close-IsWrite r h e =
      status-IsWrite r closing h (rw e Edge.close_mapped) (ground (arith, fits_now r h.valid))

  -- The deadline that is written lies after the record's, in range.
  next_deadline-lt :
      (r : SessionOperationRecord Op) (at d : ℤ)
      → IsDecoded r
      → at ≤ℤ pos max_int64
      → next_deadline r at ≡ some d
      → (r.recovery_not_before_milli <ℤ d) × (d ≤ℤ pos max_int64)
  unfolding next_deadline
  next_deadline-lt r at d h k e = ground (arith, h.deadline)

  valid_attempt :
      (r : SessionOperationRecord Op) (d : ℤ)
      → valid_session_operation_record r ≡ true
      → r.recovery_attempt < 4294967295
      → r.recovery_not_before_milli <ℤ d
      → valid_session_operation_record (attempt_record r d) ≡ true
  unfolding valid_session_operation_record valid_fields
  valid_attempt r d h k l = ground arith

  pub attempt-IsWrite :
      (r : SessionOperationRecord Op) (at d : ℤ)
      → IsDecoded r
      → IsOpen r.status
      → r.recovery_attempt < 4294967295
      → at ≤ℤ pos max_int64
      → next_deadline r at ≡ some d
      → IsWrite r (attempt_record r d)
  attempt-IsWrite r at d h o k l e =
      let (later, bound) = next_deadline-lt r at d h l e in
      write r (attempt_record r d) h
        (record {
          valid = valid_attempt r d h.valid k later;
          counters = record { attempts = omega arith; failures = h.counters.failures };
          deadline = bound;
        })
        refl (KeepsAdmission-refl r.admission) (attempt (omega arith) refl later)
        (reopen r.status o)

  valid_failed :
      (r : SessionOperationRecord Op) (d : ℤ)
      → valid_session_operation_record r ≡ true
      → r.post_expiry_no_reply_attempts < r.recovery_attempt
      → r.post_expiry_no_reply_attempts < 4294967295
      → r.recovery_not_before_milli <ℤ d
      → valid_session_operation_record (failed_record r d) ≡ true
  unfolding valid_session_operation_record valid_fields
  valid_failed r d h k l m = ground arith

  pub failed-IsWrite :
      (r : SessionOperationRecord Op) (at d : ℤ)
      → IsDecoded r
      → IsOpen r.status
      → r.post_expiry_no_reply_attempts < r.recovery_attempt
      → r.post_expiry_no_reply_attempts < 4294967295
      → at ≤ℤ pos max_int64
      → next_deadline r at ≡ some d
      → IsWrite r (failed_record r d)
  failed-IsWrite r at d h o k m l e =
      let (later, bound) = next_deadline-lt r at d h l e in
      write r (failed_record r d) h
        (record {
          valid = valid_failed r d h.valid k m later;
          counters = record { attempts = h.counters.attempts; failures = omega arith };
          deadline = bound;
        })
        refl (KeepsAdmission-refl r.admission) (no_reply refl (omega arith) later)
        (reopen r.status o)

  valid_moved :
      (r : SessionOperationRecord Op) (e : Endpoint)
      → valid_session_operation_record r ≡ true
      → valid_recovery_endpoint e ≡ true
      → valid_session_operation_record (record r { recovery_endpoint = e }) ≡ true
  unfolding valid_session_operation_record valid_fields
  valid_moved r e h k = ground arith

  pub moved-IsWrite :
      (r : SessionOperationRecord Op) (e : Endpoint)
      → IsDecoded r
      → IsOpen r.status
      → valid_recovery_endpoint e ≡ true
      → IsWrite r (record r { recovery_endpoint = e })
  moved-IsWrite r e h o k =
      write r (record r { recovery_endpoint = e }) h
        (record {
          valid = valid_moved r e h.valid k;
          counters = record { attempts = h.counters.attempts; failures = h.counters.failures };
          deadline = h.deadline;
        })
        refl (KeepsAdmission-refl r.admission) (still refl refl refl) (reopen r.status o)

  valid_mapped :
      (r : SessionOperationRecord Op) (a : SessionOperationAdmission)
      → valid_session_operation_record r ≡ true
      → valid_session_operation_admission (some a) r.operation ≡ true
      → valid_session_operation_record (record r { status = mapped; admission = some a }) ≡ true
  unfolding valid_session_operation_record valid_fields admission_fits
  valid_mapped r a h k = ground arith

  pub map-IsWrite :
      (r : SessionOperationRecord Op) (a : SessionOperationAdmission)
      → IsDecoded r
      → r.status ≡ dispatching
      → r.admission ≡ none
      → valid_session_operation_admission (some a) r.operation ≡ true
      → IsWrite r (record r { status = mapped; admission = some a })
  map-IsWrite r a h e n k =
      write r (record r { status = mapped; admission = some a }) h
        (record {
          valid = valid_mapped r a h.valid k;
          counters = record { attempts = h.counters.attempts; failures = h.counters.failures };
          deadline = h.deadline;
        })
        refl (rw n tt) (still refl refl refl) (rw e Edge.map)

  end_fits :
      (s : Status) (a : Option SessionOperationAdmission) (op : Op)
      → IsOpen s
      → admission_fits s a op ≡ true
      → Edge s (terminal_status a) × (admission_fits (terminal_status a) a op ≡ true)
  unfolding admission_fits valid_session_operation_admission
  end_fits s none op (inl e) h = (rw e Edge.cancel_dispatching, refl)
  end_fits s none op (inr e) h = absurd (ground arith)
  end_fits s (some a) op (inl e) h = absurd (ground arith)
  end_fits s (some a) op (inr e) h = (rw e Edge.finish, rw e at h)

  -- The terminal status of `finishOperation`.
  pub finish-IsWrite :
      (r : SessionOperationRecord Op)
      → IsDecoded r
      → IsOpen r.status
      → IsWrite r (record r { status = terminal_status r.admission })
  finish-IsWrite r h o =
      let (edge, fits) = end_fits r.status r.admission r.operation o (fits_now r h.valid) in
      status-IsWrite r (terminal_status r.admission) h edge fits
