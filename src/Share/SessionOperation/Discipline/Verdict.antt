-- ===== src/Share/SessionOperation/Discipline/Verdict.antt =====
-- The end of a round keeps to the discipline: the record ends only when the server has said so, or after
-- five counted silences past the margin (session_operation.go).
use qurl_connector.Base.{
  ◌+◌, ◌%◌, ◌≤◌, ◌<◌, ◌≡◌, ◌⊎◌, inl, inr, refl, true, not, Option, none, some, Bytes, ltb, nat_beq,
  arith, Bool-cases, ◌||◌, bytes_beq_iff, if_both, if_cases, bytes_eq,
}
use qurl_connector.Base.Int.{ℤ, eqb_ℤ_iff, pos, ◌≤ℤ◌, max_int64}
use qurl_connector.Agentstate.SessionOperation.{
  OperationApi, SessionOperationRecord, SessionOperationAdmission,
}
use qurl_connector.Share.SessionOperation.{
  Error, ExchangeError, Recovery, NativeSessionReceipt, only_cas_loss, same_receipt,
  admission_from_receipt, past_abandon_margin, is_some,
}
use qurl_connector.Share.SessionOperation.Backoff.{no_reply_backoff}
use qurl_connector.Share.SessionOperation.Program.{Program, Next}
use qurl_connector.Share.SessionOperation.Recover.Settle.{
  Reconciled, complete, reload, refused, reconcile_loaded, reconcile, next_deadline, delete_record,
}
use qurl_connector.Share.SessionOperation.Protocol.{Ensures, Ends, Ensures-bind, Ensures-mono}
use qurl_connector.Share.SessionOperation.Accepted.{
  IsDecoded, IsOpen, +ℤ-le, failed-IsWrite, map-IsWrite, finish-IsWrite,
}
use qurl_connector.Share.SessionOperation.Discipline.{
  IsTerminal, Seen, ErrorFits, ReceiptFits, after_write, discipline,
}
use qurl_connector.Share.SessionOperation.Recover.Refence.{Outcome}
use qurl_connector.Share.SessionOperation.Recover.Judge.{
  Disposition, retry, reload_first, operation_gone, abandon, count_failed, judge, judge_reply,
  judge_result, judge_error, judge_silence, keep_admission, dispose, count_silence, write_failure,
  failed_record, count_written, count_reconciled, finish_operation, failure_time, terminal_status,
  mapped_record, is_dispatching, after_mapped, admission_of,
}
use qurl_connector.Share.SessionOperation.Discipline.Stages.{write-Ends, delete-Ends}
use qurl_connector.Share.SessionOperation.Discipline.Exchanges.{Judged, IsOpen-not-IsTerminal}

terminal_status-IsTerminal : (a : Option SessionOperationAdmission) → IsTerminal (terminal_status a)
terminal_status-IsTerminal none = inl refl
terminal_status-IsTerminal (some a) = inr refl

receipt_admission :
    (got receipt : NativeSessionReceipt)
    → same_receipt (some got) receipt ≡ true
    → admission_from_receipt got ≡ admission_from_receipt receipt
unfolding same_receipt admission_from_receipt
receipt_admission got receipt h = ground (
  arith,
  bytes_beq_iff got.cell_id receipt.cell_id,
  bytes_beq_iff got.run_id receipt.run_id,
  eqb_ℤ_iff got.session_issued_at_millis receipt.session_issued_at_millis,
)

module _ {Op : Type 0} ⦃api : OperationApi Op⦄ where
  abbrev pub AnyEnd : Unit {0} → Seen Op → Type 0
  AnyEnd u s = Unit

  -- The evidence that ends a record.
  abbrev Over : SessionOperationRecord Op → Seen Op → Type 0
  Over r s = (s.complete ≡ true) ⊎ (5 ≤ r.post_expiry_no_reply_attempts)

  finish_operation-Ends :
      (rid : Bytes) (r : SessionOperationRecord Op) (s : Seen Op)
      → IsDecoded r
      → IsOpen r.status
      → Over r s
      → Ensures discipline (finish_operation rid r) s (Ends discipline AnyEnd)
  unfolding finish_operation
  finish_operation-Ends rid r s h o over =
      let next : SessionOperationRecord Op = record r { status = terminal_status r.admission } in
      let done = finish-IsWrite r h o in
      write-Ends AnyEnd rid r next (delete_record rid next) s
        (record {
          accepted = done.accepted;
          ended = λ t. inr over;
          counted = λ more. absurd (omega arith);
        })
        (delete-Ends AnyEnd rid next (after_write s r next none) (record {
          valid = done.decoded.valid;
          terminal = terminal_status-IsTerminal r.admission;
        }))

  -- What the counting of a silence leaves: an abandoned record has its five.
  abbrev Counted : SessionOperationRecord Op × Disposition → Seen Op → Type 0
  Counted (r, abandon) s = IsDecoded r × IsOpen r.status × (5 ≤ r.post_expiry_no_reply_attempts)
  Counted (r, d) s = Unit

  Counted-reconciled :
      (rid : Bytes) (r : SessionOperationRecord Op) (x : Reconciled) (s : Seen Op)
      → Counted (r, count_reconciled x) s
  Counted-reconciled rid r complete s = tt
  Counted-reconciled rid r reload s = tt
  Counted-reconciled rid r (refused f) s = tt

  count_written-Counted :
      (rid : Bytes) (r n : SessionOperationRecord Op) (w : Option Error) (s : Seen Op)
      → IsDecoded n
      → IsOpen n.status
      → Ensures discipline (count_written rid r n w) s Counted
  unfolding count_written reconcile
  count_written-Counted rid r n none s h o =
      if_cases (λ (d : Disposition). Counted (n, d) s) (ltb n.post_expiry_no_reply_attempts 5)
        (λ few. tt) (λ many. (h, o, ground arith))
  count_written-Counted rid r n (some e) s h o = elim (Bool-cases (only_cas_loss e)) [
    | inl l ↦ rw l (tt, λ l ok. Counted-reconciled rid r (reconcile_loaded r e l) s)
    | inr l ↦ rw l tt
  ]

  write_failure-Counted :
      (rid : Bytes) (r : SessionOperationRecord Op) (at : ℤ) (o : Option ℤ) (s : Seen Op)
      → IsDecoded r
      → IsOpen r.status
      → r.post_expiry_no_reply_attempts < r.recovery_attempt
      → r.post_expiry_no_reply_attempts < 4294967295
      → at ≤ℤ pos max_int64
      → next_deadline r at ≡ o
      → s.silent ≡ true
      → past_abandon_margin r.operation s.now ≡ true
      → Ensures discipline (write_failure rid r o) s Counted
  unfolding write_failure
  write_failure-Counted rid r at none s h o paid few l e quiet past = tt
  write_failure-Counted rid r at (some d) s h o paid few l e quiet past =
      let done = failed-IsWrite r at d h o paid few l e in
      (
        record {
          accepted = done.accepted;
          ended = λ t. absurd (IsOpen-not-IsTerminal r.status o t);
          counted = λ more. (quiet, past);
        },
        λ w ok.
            count_written-Counted rid r (failed_record r d) w
              (after_write s r (failed_record r d) w) done.decoded o,
      )

  count_silence-Counted :
      (rid : Bytes) (r : SessionOperationRecord Op) (s : Seen Op)
      → IsDecoded r
      → IsOpen r.status
      → r.post_expiry_no_reply_attempts < r.recovery_attempt
      → s.silent ≡ true
      → Ensures discipline (count_silence rid r s.now) s Counted
  unfolding count_silence
  count_silence-Counted rid r s h o paid quiet =
      let Ok : Program Op (SessionOperationRecord Op × Disposition) → Type 0 =
        λ m. Ensures discipline m s Counted in
      let at = failure_time r s.now in
      if_cases Ok (not (past_abandon_margin r.operation s.now)) (λ early. tt)
        (λ past.
          if_cases Ok (nat_beq r.post_expiry_no_reply_attempts 4294967295) (λ last. tt)
            (λ more.
              write_failure-Counted rid r at (next_deadline r at) s h o paid
                (ground (arith, h.counters.failures))
                (+ℤ-le s.now
                  (pos (no_reply_backoff ((r.post_expiry_no_reply_attempts + 1) % 4294967296))))
                refl quiet (ground arith)))

  dispose-Ends :
      (rid : Bytes) (e : ExchangeError) (r : SessionOperationRecord Op) (d : Disposition)
      (s : Seen Op)
      → Counted (r, d) s
      → Ensures discipline (dispose rid e r d) s (Ends discipline AnyEnd)
  unfolding dispose
  dispose-Ends rid e r retry s h = tt
  dispose-Ends rid e r reload_first s h = tt
  dispose-Ends rid e r operation_gone s h = tt
  dispose-Ends rid e r abandon s (h, o, five) = finish_operation-Ends rid r s h o (inr five)
  dispose-Ends rid e r (count_failed f) s h = tt

  judge_silence-Ends :
      (rid : Bytes) (o : Outcome Op) (e : ExchangeError) (s : Seen Op)
      → Judged o s
      → Ensures discipline (judge_silence rid o e) s (Ends discipline AnyEnd)
  unfolding judge_silence
  judge_silence-Ends rid o e s j =
      let Ok : Program Op (Next (Unit {0})) → Type 0 =
        λ m. Ensures discipline m s (Ends discipline AnyEnd) in
      if_cases Ok (not o.countable) (λ no_count. tt)
        (λ may_count. (
          tt,
          λ gone ok. if_both Ok gone tt (
            tt,
            λ now ok'.
                let t : Seen Op = record s { now = now } in
                Ensures-bind discipline (count_silence rid o.held now)
                  (λ rd. dispose rid e rd.0 rd.1) t (Ends discipline AnyEnd)
                  (Ensures-mono discipline (count_silence rid o.held now) t Counted
                    (λ rd u.
                      Ensures discipline (dispose rid e rd.0 rd.1) u (Ends discipline AnyEnd))
                    (λ rd u k. dispose-Ends rid e rd.0 rd.1 u k)
                    (count_silence-Counted rid o.held t j.decoded j.open_status j.paid
                      (j.silent (ground arith)))),
          ),
        ))

  after_mapped-Ends : (w : Option Error) (s : Seen Op) → Ends discipline AnyEnd (after_mapped w) s
  after_mapped-Ends none s = tt
  after_mapped-Ends (some e) s = tt

  keep_admission-Ends :
      (r : SessionOperationRecord Op) (o : Option NativeSessionReceipt)
      (receipt : NativeSessionReceipt) (s : Seen Op)
      → IsDecoded r
      → ReceiptFits r.operation (some receipt)
      → Ensures discipline (keep_admission r o receipt) s (Ends discipline AnyEnd)
  unfolding keep_admission
  keep_admission-Ends r none receipt s h fits = tt
  keep_admission-Ends r (some got) receipt s h fits =
      let Ok : Program Op (Next (Unit {0})) → Type 0 =
        λ m. Ensures discipline m s (Ends discipline AnyEnd) in
      if_cases Ok (not (same_receipt (some got) receipt)) (λ other. tt)
        (λ same.
          if_cases Ok (not (is_dispatching r.status) || is_some r.admission) (λ no_room. tt)
            (λ room.
              let a = admission_from_receipt got in
              (
                record {
                  accepted =
                      (map-IsWrite r a h (ground arith) (ground arith)
                        (rw (receipt_admission got receipt (ground arith)) fits)).accepted;
                  ended = λ t. absurd (ground arith);
                  counted = λ more. absurd (omega arith);
                },
                λ w ok. after_mapped-Ends w (after_write s r (mapped_record r got) w),
              )))

  judge_error-Ends :
      (rid : Bytes) (o : Outcome Op) (e : ExchangeError) (u : Option NativeSessionReceipt)
      (s : Seen Op)
      → Judged o s
      → ReceiptFits o.held.operation u
      → Ensures discipline (judge_error rid o e u) s (Ends discipline AnyEnd)
  unfolding judge_error
  judge_error-Ends rid o e none s j fits = judge_silence-Ends rid o e s j
  judge_error-Ends rid o e (some receipt) s j fits =
      keep_admission-Ends o.held (admission_of o.reply.result) receipt s j.decoded fits

  judge_result-Ends :
      (rid : Bytes) (o : Outcome Op) (x : Option Recovery) (s : Seen Op)
      → Judged o s
      → o.reply.error ≡ none
      → o.reply.result ≡ x
      → Ensures discipline (judge_result rid o x) s (Ends discipline AnyEnd)
  unfolding judge_result
  judge_result-Ends rid o none s j e x = tt
  judge_result-Ends rid o (some result) s j e x =
      if_cases
        (λ (m : Program Op (Next (Unit {0}))). Ensures discipline m s (Ends discipline AnyEnd))
        result.complete
        (λ done.
          finish_operation-Ends rid o.held s j.decoded j.open_status
            (inl (j.complete (rw (e, x) done))))
        (λ more. tt)

  judge_reply-Ends :
      (rid : Bytes) (o : Outcome Op) (x : Option ExchangeError) (s : Seen Op)
      → Judged o s
      → o.reply.error ≡ x
      → ErrorFits o.held.operation x
      → Ensures discipline (judge_reply rid o x) s (Ends discipline AnyEnd)
  unfolding judge_reply
  judge_reply-Ends rid o none s j e fits = judge_result-Ends rid o o.reply.result s j e refl
  judge_reply-Ends rid o (some x) s j e fits =
      judge_error-Ends rid o x x.unexpected_admission s j fits

  pub judge-Ends :
      (rid : Bytes) (o : Outcome Op) (s : Seen Op)
      → Judged o s
      → Ensures discipline (judge rid o) s (Ends discipline AnyEnd)
  unfolding judge
  judge-Ends rid o s j = judge_reply-Ends rid o o.reply.error s j refl j.fits
