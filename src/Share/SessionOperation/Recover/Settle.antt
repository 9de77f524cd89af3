-- ===== src/Share/SessionOperation/Recover/Settle.antt =====
-- session_operation.go: the first stages of a round of RecoverOperation, up to the durable attempt.
use qurl_connector.Base.{
  ◌+◌, ◌%◌, not, ◌&&◌, Option, none, some, List, [], ◌∷◌, Bytes, bytes_eq, ◌==◌, nat_beq, ltb,
  if◌then◌else◌,
}
use qurl_connector.Base.Int.{ℤ, pos, eqb_ℤ, leb_ℤ, ltb_ℤ, ◌+ℤ◌, ◌-ℤ◌, max_int64}
use qurl_connector.Agentstate.SessionOperation.{
  OperationApi, SessionOperationRecord, Status, prepared, dispatching, mapped, closing, canceled,
  closed, other,
}
use qurl_connector.Share.SessionOperation.{
  Error, Failure, store, store_twice, not_monotonic, unsupported_state, deferred, wait_failed,
  attempts_exhausted, deadline_exhausted, only_cas_loss,
}
use qurl_connector.Share.SessionOperation.Backoff.{
  recovery_backoff, recovery_max_delay, no_reply_max_delay,
}
use qurl_connector.Share.SessionOperation.Advance.{monotonic_advance}
use qurl_connector.Share.SessionOperation.Program.{
  load, transition, delete, clock, wait, Loaded, records, load_failed, Program, finish, ask, ◌>>=◌,
  Next, leave, again, proceed,
}

-- What `reconcileRecoveryConflict` returns: complete, not complete, or an error.
pub data Reconciled : Type 0 where
  complete : Reconciled
  reload : Reconciled
  refused : Failure → Reconciled

-- The ladder after each call of it.
abbrev pub after_reconcile : {A : Type 0} → Reconciled → Next A
after_reconcile complete = leave none
after_reconcile reload = again
after_reconcile (refused f) = leave (some f)

module _ {Op : Type 0} ⦃api : OperationApi Op⦄ where
  -- The loop of `loadOperation`.
  unfoldable pub find_operation :
      List (SessionOperationRecord Op) → Bytes → Option (SessionOperationRecord Op)
  find_operation [] id = none
  find_operation (r ∷ rs) id =
      if api.operation_id r.operation == id then some r else find_operation rs id

  unfoldable pub reconcile_loaded : SessionOperationRecord Op → Error → Loaded Op → Reconciled
  unfolding find_operation
  reconcile_loaded previous e (load_failed f) = refused (store_twice e f)
  reconcile_loaded previous e (records rs) =
      elim (find_operation rs (api.operation_id previous.operation)) [
        | none ↦ complete
        | some current ↦
            if monotonic_advance previous current then reload else refused not_monotonic
      ]

  -- `reconcileRecoveryConflict`
  unfoldable pub reconcile : Bytes → SessionOperationRecord Op → Error → Program Op Reconciled
  unfolding reconcile_loaded
  reconcile rid previous e =
      if not (only_cas_loss e)
      then finish (refused (store e))
      else ask (load rid) (λ l. finish (reconcile_loaded previous e l))

  -- A write of the loop and the handling of its error.
  unfoldable pub or_reconcile :
      {A : Type 0}
      → Bytes
      → SessionOperationRecord Op
      → Program Op (Next A)
      → Option Error
      → Program Op (Next A)
  unfolding reconcile
  or_reconcile rid previous go none = go
  or_reconcile rid previous go (some e) =
      reconcile rid previous e >>= λ r. finish (after_reconcile r)

  abbrev pub delete_record : {A : Type 0} → Bytes → SessionOperationRecord Op → Program Op (Next A)
  delete_record rid r = ask (delete r) (or_reconcile rid r (finish (leave none)))

  -- The `switch record.Status` at the head of the loop.
  unfoldable pub settle :
      Bytes → SessionOperationRecord Op → Status → Program Op (Next (SessionOperationRecord Op))
  unfolding or_reconcile
  settle rid r canceled = delete_record rid r
  settle rid r closed = delete_record rid r
  settle rid r prepared =
      let next : SessionOperationRecord Op = record r { status = canceled } in
      ask (transition r next) (or_reconcile rid r (delete_record rid next))
  settle rid r mapped =
      let next : SessionOperationRecord Op = record r { status = closing } in
      ask (transition r next) (or_reconcile rid r (finish (proceed next)))
  settle rid r dispatching = finish (proceed r)
  settle rid r closing = finish (proceed r)
  settle rid r (other t) = finish (leave (some unsupported_state))

  unfoldable pub settle_found :
      Bytes → Option (SessionOperationRecord Op) → Program Op (Next (SessionOperationRecord Op))
  unfolding settle
  settle_found rid none = finish (leave none)
  settle_found rid (some r) = settle rid r r.status

  unfoldable pub settle_loaded :
      Bytes → Bytes → Loaded Op → Program Op (Next (SessionOperationRecord Op))
  unfolding settle_found find_operation
  settle_loaded rid id (load_failed e) = finish (leave (some (store e)))
  settle_loaded rid id (records rs) = settle_found rid (find_operation rs id)

  -- The wait before an attempt; it yields the time at which the attempt is made.
  unfoldable pub pace : SessionOperationRecord Op → ℤ → Program Op (Next ℤ)
  pace r now =
      let ms = r.recovery_not_before_milli -ℤ now in
      let longer = ltb_ℤ (pos recovery_max_delay) ms in
      let bounded = if longer then pos recovery_max_delay else ms in
      if not (ltb_ℤ now r.recovery_not_before_milli)
      then finish (proceed now)
      else if ltb 0 r.post_expiry_no_reply_attempts && (longer && leb_ℤ ms (pos no_reply_max_delay))
      then finish (leave (some (deferred ms)))
      else ask (wait bounded) (λ failed.
        if failed
        then finish (leave (some wait_failed))
        else ask clock (λ later. finish (proceed later)))

  -- The deadline after `record`'s; `none` when it is exhausted.
  unfoldable pub next_deadline : SessionOperationRecord Op → ℤ → Option ℤ
  next_deadline r at =
      if leb_ℤ at r.recovery_not_before_milli
      then (if eqb_ℤ r.recovery_not_before_milli (pos max_int64)
          then none
          else some (r.recovery_not_before_milli +ℤ pos 1))
      else some at

  -- `attempt`, with its counter and its deadline.
  abbrev pub attempt_record : SessionOperationRecord Op → ℤ → SessionOperationRecord Op
  attempt_record r deadline = record r {
    recovery_attempt = (r.recovery_attempt + 1) % 4294967296;
    recovery_not_before_milli = deadline;
  }

  unfoldable pub write_attempt :
      Bytes → SessionOperationRecord Op → Option ℤ → Program Op (Next (SessionOperationRecord Op))
  unfolding or_reconcile
  write_attempt rid r none = finish (leave (some deadline_exhausted))
  write_attempt rid r (some deadline) =
      ask (transition r (attempt_record r deadline))
        (or_reconcile rid r (finish (proceed (attempt_record r deadline))))

  -- `now.Add(nativeSessionRecoveryBackoff(attempt.RecoveryAttempt)).UnixMilli()`
  abbrev pub attempt_time : SessionOperationRecord Op → ℤ → ℤ
  attempt_time r now = now +ℤ pos (recovery_backoff ((r.recovery_attempt + 1) % 4294967296))

  -- The attempt is written before its packet leaves.
  unfoldable pub begin_attempt :
      Bytes → SessionOperationRecord Op → ℤ → Program Op (Next (SessionOperationRecord Op))
  unfolding next_deadline write_attempt
  begin_attempt rid r now =
      if nat_beq r.recovery_attempt 4294967295
      then finish (leave (some attempts_exhausted))
      else write_attempt rid r (next_deadline r (attempt_time r now))
