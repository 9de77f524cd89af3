-- ===== src/Share/SessionOperation/Recover/Judge.antt =====
-- session_operation.go: what an attempt's outcome does to the record.
use qurl_connector.Base.{
  ◌+◌, ◌%◌, Bool, true, false, not, ◌||◌, Option, none, some, Bytes, bytes_eq, nat_beq, ltb,
  if◌then◌else◌,
}
use qurl_connector.Base.Int.{ℤ, pos, ◌+ℤ◌}
use qurl_connector.Agentstate.SessionOperation.{
  OperationApi, SessionOperationAdmission, SessionOperationRecord, Status, dispatching, mapped,
  canceled, closed, is_none,
}
use qurl_connector.Share.SessionOperation.{
  Error, Failure, store, deadline_exhausted, failures_exhausted, exchange_failed,
  receipt_incomplete, admitted_elsewhere, no_result, ExchangeError, Recovery, NativeSessionReceipt,
  same_receipt, admission_from_receipt, past_abandon_margin, is_some, recovery_abandon_attempts,
}
use qurl_connector.Share.SessionOperation.Backoff.{no_reply_backoff}
use qurl_connector.Share.SessionOperation.Program.{
  transition, clock, context_err, Program, finish, ask, ◌>>=◌, Next, leave, again,
}
use qurl_connector.Share.SessionOperation.Recover.Settle.{
  Reconciled, complete, reload, refused, reconcile, or_reconcile, delete_record, next_deadline,
}
use qurl_connector.Share.SessionOperation.Recover.Refence.{Outcome}

-- `noReplyDisposition`, with the error.
pub data Disposition : Type 0 where
  retry : Disposition
  reload_first : Disposition
  operation_gone : Disposition
  abandon : Disposition
  count_failed : Failure → Disposition

abbrev pub count_reconciled : Reconciled → Disposition
count_reconciled complete = operation_gone
count_reconciled reload = reload_first
count_reconciled (refused f) = count_failed f

abbrev pub is_dispatching : Status → Bool
is_dispatching dispatching = true
is_dispatching s = false

abbrev pub admission_of : Option Recovery → Option NativeSessionReceipt
admission_of none = none
admission_of (some result) = result.unexpected_admission

-- The terminal status of a record.
abbrev pub terminal_status : Option SessionOperationAdmission → Status
terminal_status a = if is_none a then canceled else closed

abbrev pub after_mapped : {A : Type 0} → Option Error → Next A
after_mapped none = again
after_mapped (some e) = leave (some (store e))

module _ {Op : Type 0} ⦃api : OperationApi Op⦄ where
  -- `finishOperation`, with the ladder of its callers.
  unfoldable pub finish_operation : Bytes → SessionOperationRecord Op → Program Op (Next (Unit {0}))
  unfolding or_reconcile
  finish_operation rid r =
      let next : SessionOperationRecord Op = record r {
        status = if is_none r.admission then canceled else closed;
      } in
      ask (transition r next) (or_reconcile rid r (delete_record rid next))

  abbrev pub failed_record : SessionOperationRecord Op → ℤ → SessionOperationRecord Op
  failed_record r deadline = record r {
    post_expiry_no_reply_attempts = (r.post_expiry_no_reply_attempts + 1) % 4294967296;
    recovery_not_before_milli = deadline;
  }

  unfoldable pub count_written :
      Bytes
      → SessionOperationRecord Op
      → SessionOperationRecord Op
      → Option Error
      → Program Op (SessionOperationRecord Op × Disposition)
  unfolding reconcile
  count_written rid r failed none = finish (
    failed,
    if ltb failed.post_expiry_no_reply_attempts recovery_abandon_attempts then retry else abandon,
  )
  count_written rid r failed (some e) = reconcile rid r e >>= λ x. finish (r, count_reconciled x)

  unfoldable pub write_failure :
      Bytes
      → SessionOperationRecord Op
      → Option ℤ
      → Program Op (SessionOperationRecord Op × Disposition)
  unfolding count_written
  write_failure rid r none = finish (r, count_failed deadline_exhausted)
  write_failure rid r (some deadline) =
      ask (transition r (failed_record r deadline)) (count_written rid r (failed_record r deadline))

  -- `now.Add(nativeSessionRecoveryNoReplyBackoff(failed.PostExpiryNoReplyAttempts)).UnixMilli()`
  abbrev pub failure_time : SessionOperationRecord Op → ℤ → ℤ
  failure_time r now =
      now +ℤ pos (no_reply_backoff ((r.post_expiry_no_reply_attempts + 1) % 4294967296))

  -- `countPostExpiryNoReply`, after it has read the clock.
  unfoldable pub count_silence :
      Bytes → SessionOperationRecord Op → ℤ → Program Op (SessionOperationRecord Op × Disposition)
  unfolding next_deadline write_failure
  count_silence rid r now =
      if not (past_abandon_margin r.operation now)
      then finish (r, retry)
      else if nat_beq r.post_expiry_no_reply_attempts 4294967295
      then finish (r, count_failed failures_exhausted)
      else write_failure rid r (next_deadline r (failure_time r now))

  -- The `switch disposition`.
  unfoldable pub dispose :
      Bytes → ExchangeError → SessionOperationRecord Op → Disposition → Program Op (Next (Unit {0}))
  unfolding finish_operation
  dispose rid e r retry = finish (leave (some (exchange_failed e)))
  dispose rid e r reload_first = finish again
  dispose rid e r operation_gone = finish (leave none)
  dispose rid e r abandon = finish_operation rid r
  dispose rid e r (count_failed f) = finish (leave (some f))

  abbrev pub mapped_record :
      SessionOperationRecord Op → NativeSessionReceipt → SessionOperationRecord Op
  mapped_record r receipt = record r {
    status = mapped;
    admission = some (admission_from_receipt receipt);
  }

  -- A recovery that admitted; `receipt` is the receipt of the error.
  unfoldable pub keep_admission :
      SessionOperationRecord Op
      → Option NativeSessionReceipt
      → NativeSessionReceipt
      → Program Op (Next (Unit {0}))
  keep_admission r none receipt = finish (leave (some receipt_incomplete))
  keep_admission r (some got) receipt =
      if not (same_receipt (some got) receipt)
      then finish (leave (some receipt_incomplete))
      else if not (is_dispatching r.status) || is_some r.admission
      then finish (leave (some admitted_elsewhere))
      else ask (transition r (mapped_record r got)) (λ e. finish (after_mapped e))

  -- A failed exchange that did not admit.
  unfoldable pub judge_silence : Bytes → Outcome Op → ExchangeError → Program Op (Next (Unit {0}))
  unfolding count_silence dispose
  judge_silence rid o e =
      if not o.countable
      then finish (leave (some (exchange_failed e)))
      else ask context_err (λ gone.
        if gone
        then finish (leave (some (exchange_failed e)))
        else ask clock (λ now. count_silence rid o.held now >>= λ rd. dispose rid e rd.0 rd.1))

  -- `if err != nil { … }`
  unfoldable pub judge_error :
      Bytes
      → Outcome Op
      → ExchangeError
      → Option NativeSessionReceipt
      → Program Op (Next (Unit {0}))
  unfolding judge_silence keep_admission
  judge_error rid o e none = judge_silence rid o e
  judge_error rid o e (some receipt) = keep_admission o.held (admission_of o.reply.result) receipt

  unfoldable pub judge_result : Bytes → Outcome Op → Option Recovery → Program Op (Next (Unit {0}))
  unfolding finish_operation
  judge_result rid o none = finish (leave (some no_result))
  judge_result rid o (some result) =
      if result.complete then finish_operation rid o.held else finish again

  unfoldable pub judge_reply :
      Bytes → Outcome Op → Option ExchangeError → Program Op (Next (Unit {0}))
  unfolding judge_error judge_result
  judge_reply rid o (some e) = judge_error rid o e e.unexpected_admission
  judge_reply rid o none = judge_result rid o o.reply.result

  -- The end of the round.
  unfoldable pub judge : Bytes → Outcome Op → Program Op (Next (Unit {0}))
  unfolding judge_reply
  judge rid o = judge_reply rid o o.reply.error
