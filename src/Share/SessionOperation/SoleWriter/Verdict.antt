-- ===== src/Share/SessionOperation/SoleWriter/Verdict.antt =====
-- RecoverOperation over a store with one writer: the end of a round (session_operation.go).
use qurl_connector.Base.{
  ℕ, suc, ◌<◌, ◌≡◌, refl, not, ◌||◌, Option, none, some, Bytes, nat_beq, ltb, if_both,
}
use qurl_connector.Base.Int.{ℤ}
use qurl_connector.Agentstate.SessionOperation.{OperationApi, SessionOperationRecord}
use qurl_connector.Share.SessionOperation.{
  Error, ExchangeError, Recovery, NativeSessionReceipt, same_receipt, is_some, past_abandon_margin,
}
use qurl_connector.Share.SessionOperation.Program.{Program, Next}
use qurl_connector.Share.SessionOperation.Recover.Settle.{reconcile, delete_record, next_deadline}
use qurl_connector.Share.SessionOperation.Recover.Refence.{Outcome}
use qurl_connector.Share.SessionOperation.Recover.Judge.{
  Disposition, retry, reload_first, operation_gone, abandon, count_failed, terminal_status,
  finish_operation, failed_record, count_written, write_failure, count_silence, failure_time,
  dispose, mapped_record, is_dispatching, after_mapped, admission_of, keep_admission, judge_silence,
  judge_error, judge_result, judge_reply, judge,
}
use qurl_connector.Share.SessionOperation.Protocol.{Ensures, EndsOr, Ensures-bind, Ensures-mono}
use qurl_connector.Share.SessionOperation.SoleWriter.{Held, NotLost, kept, sole}
use qurl_connector.Share.SessionOperation.SoleWriter.Stages.{
  Counts, Goes, Attempts, Judges, write-Goes, delete-Goes,
}

module _ {Op : Type 0} ⦃api : OperationApi Op⦄ (id : Bytes) where
  finish_operation-Goes :
      (k : ℕ) (Q : Unit {0} → Held Op → Type 0) (rid : Bytes) (r : SessionOperationRecord Op)
      (s : Held Op)
      → Goes id k Q (finish_operation rid r) s
  unfolding finish_operation
  finish_operation-Goes k Q rid r s =
      let next : SessionOperationRecord Op = record r { status = terminal_status r.admission } in
      write-Goes id k Q rid r next (delete_record rid next) s
        (delete-Goes id k Q rid next (some next))

  -- A counted silence is not overtaken.
  abbrev Counting : SessionOperationRecord Op × Disposition → Held Op → Type 0
  Counting (r, reload_first) s = ⊥
  Counting (r, d) s = Unit

  count_written-Counting :
      (rid : Bytes) (r n : SessionOperationRecord Op) (e : Option Error) (s : Held Op)
      → NotLost e
      → Ensures (sole id) (count_written rid r n e) (kept s (some n) e) Counting
  unfolding count_written reconcile
  count_written-Counting rid r n none s ok =
      if_both (λ (d : Disposition). Counting (n, d) (some n))
        (ltb n.post_expiry_no_reply_attempts 5) tt tt
  count_written-Counting rid r n (some e) s ok = rw ok tt

  write_failure-Counting :
      (rid : Bytes) (r : SessionOperationRecord Op) (o : Option ℤ) (s : Held Op)
      → Ensures (sole id) (write_failure rid r o) s Counting
  unfolding write_failure
  write_failure-Counting rid r none s = tt
  write_failure-Counting rid r (some d) s =
      (tt, λ e ok. count_written-Counting rid r (failed_record r d) e s ok)

  count_silence-Counting :
      (rid : Bytes) (r : SessionOperationRecord Op) (now : ℤ) (s : Held Op)
      → Ensures (sole id) (count_silence rid r now) s Counting
  unfolding count_silence
  count_silence-Counting rid r now s =
      let Ok : Program Op (SessionOperationRecord Op × Disposition) → Type 0 =
        λ m. Ensures (sole id) m s Counting in
      if_both Ok (not (past_abandon_margin r.operation now)) tt (
        if_both Ok (nat_beq r.post_expiry_no_reply_attempts 4294967295) tt
          (write_failure-Counting rid r (next_deadline r (failure_time r now)) s))

  dispose-Goes :
      (k : ℕ) (Q : Unit {0} → Held Op → Type 0) (rid : Bytes) (e : ExchangeError)
      (r : SessionOperationRecord Op) (d : Disposition) (s : Held Op)
      → Counting (r, d) s
      → Goes id k Q (dispose rid e r d) s
  unfolding dispose
  dispose-Goes k Q rid e r retry s h = tt
  dispose-Goes k Q rid e r reload_first s h = elim h [ ]
  dispose-Goes k Q rid e r operation_gone s h = tt
  dispose-Goes k Q rid e r abandon s h = finish_operation-Goes k Q rid r s
  dispose-Goes k Q rid e r (count_failed f) s h = tt

  judge_silence-Goes :
      (k : ℕ) (Q : Unit {0} → Held Op → Type 0) (rid : Bytes) (o : Outcome Op) (e : ExchangeError)
      (s : Held Op)
      → Goes id k Q (judge_silence rid o e) s
  unfolding judge_silence
  judge_silence-Goes k Q rid o e s =
      let Ok : Program Op (Next (Unit {0})) → Type 0 = λ m. Goes id k Q m s in
      if_both Ok (not o.countable) tt (
        tt,
        λ gone ok. if_both Ok gone tt (
          tt,
          λ now ok'.
              Ensures-bind (sole id) (count_silence rid o.held now) (λ rd. dispose rid e rd.0 rd.1)
                s (EndsOr (sole id) (Counts k) Q)
                (Ensures-mono (sole id) (count_silence rid o.held now) s Counting
                  (λ rd t. Goes id k Q (dispose rid e rd.0 rd.1) t)
                  (λ rd t h. dispose-Goes k Q rid e rd.0 rd.1 t h)
                  (count_silence-Counting rid o.held now s)),
        ),
      )

  after_mapped-Goes :
      (k : ℕ) (Q : Unit {0} → Held Op → Type 0) (n : SessionOperationRecord Op) (e : Option Error)
      (s : Held Op)
      → n.recovery_attempt ≡ suc k
      → suc k < 4294967296
      → EndsOr (sole id) (Counts k) Q (after_mapped e) (kept s (some n) e)
  after_mapped-Goes k Q n none s a b = (n, refl, a, b)
  after_mapped-Goes k Q n (some e) s a b = tt

  keep_admission-Goes :
      (k : ℕ) (Q : Unit {0} → Held Op → Type 0) (r : SessionOperationRecord Op)
      (u : Option NativeSessionReceipt) (receipt : NativeSessionReceipt) (s : Held Op)
      → Attempts k r s
      → Goes id k Q (keep_admission r u receipt) s
  unfolding keep_admission
  keep_admission-Goes k Q r none receipt s h = tt
  keep_admission-Goes k Q r (some got) receipt s h =
      let Ok : Program Op (Next (Unit {0})) → Type 0 = λ m. Goes id k Q m s in
      if_both Ok (not (same_receipt (some got) receipt)) tt (
        if_both Ok (not (is_dispatching r.status) || is_some r.admission) tt
          (tt, λ e ok. after_mapped-Goes k Q (mapped_record r got) e s h.1 h.2))

  judge_result-Goes :
      (k : ℕ) (Q : Unit {0} → Held Op → Type 0) (rid : Bytes) (o : Outcome Op) (x : Option Recovery)
      (s : Held Op)
      → Judges k o s
      → Goes id k Q (judge_result rid o x) s
  unfolding judge_result
  judge_result-Goes k Q rid o none s h = tt
  judge_result-Goes k Q rid o (some result) s h =
      if_both (λ (m : Program Op (Next (Unit {0}))). Goes id k Q m s) result.complete
        (finish_operation-Goes k Q rid o.held s) (o.held, h.0, h.1, h.2)

  judge_error-Goes :
      (k : ℕ) (Q : Unit {0} → Held Op → Type 0) (rid : Bytes) (o : Outcome Op) (e : ExchangeError)
      (u : Option NativeSessionReceipt) (s : Held Op)
      → Judges k o s
      → Goes id k Q (judge_error rid o e u) s
  unfolding judge_error
  judge_error-Goes k Q rid o e none s h = judge_silence-Goes k Q rid o e s
  judge_error-Goes k Q rid o e (some receipt) s h =
      keep_admission-Goes k Q o.held (admission_of o.reply.result) receipt s h

  judge_reply-Goes :
      (k : ℕ) (Q : Unit {0} → Held Op → Type 0) (rid : Bytes) (o : Outcome Op)
      (x : Option ExchangeError) (s : Held Op)
      → Judges k o s
      → Goes id k Q (judge_reply rid o x) s
  unfolding judge_reply
  judge_reply-Goes k Q rid o none s h = judge_result-Goes k Q rid o o.reply.result s h
  judge_reply-Goes k Q rid o (some x) s h = judge_error-Goes k Q rid o x x.unexpected_admission s h

  pub judge-Goes :
      (k : ℕ) (Q : Unit {0} → Held Op → Type 0) (rid : Bytes) (o : Outcome Op) (s : Held Op)
      → Judges k o s
      → Goes id k Q (judge rid o) s
  unfolding judge
  judge-Goes k Q rid o s h = judge_reply-Goes k Q rid o o.reply.error s h
