-- ===== src/Share/SessionOperation/SoleWriter/Completes.antt =====
-- RecoverOperation succeeds when nothing fails and the endpoint answers that the operation is over
-- (session_operation.go).
use qurl_connector.Base.{
  ℕ, suc, ◌<◌, ◌≡◌, ◌≢◌, inl, inr, refl, sym, ap, ◌∙◌, true, not, ◌&&◌, ◌||◌, Option, none, some,
  [], Bytes, nat_beq, ltb, is_empty, arith, Bool-cases, if_both, if_cases, subst,
}
use qurl_connector.Base.Int.{ℤ, pos, ◌<ℤ◌, ◌+ℤ◌, max_int64, ltb_ℤ, leb_ℤ}
use qurl_connector.Agentstate.SessionOperation.{
  OperationApi, SessionOperationRecord, Status, prepared, dispatching, mapped, closing, canceled,
  closed, other,
}
use qurl_connector.Share.SessionOperation.{Failure, Recovery}
use qurl_connector.Share.SessionOperation.Program.{
  Call, load, transition, clock, exchange, Loaded, records, load_failed, Program, finish, ask,
  ◌>>>◌, Next, leave, again, proceed, World, run,
}
use qurl_connector.Share.SessionOperation.Recover.Settle.{
  or_reconcile, delete_record, settle, settle_found, settle_loaded, pace, next_deadline,
  attempt_record, attempt_time, write_attempt, begin_attempt,
}
use qurl_connector.Share.SessionOperation.Recover.Refence.{Outcome, pinned_failed, pinned_replied}
use qurl_connector.Share.SessionOperation.Recover.Judge.{
  terminal_status, finish_operation, judge_result, judge_reply, judge,
}
use qurl_connector.Share.SessionOperation.Recover.{round, after_round, recover, recover_operation}
use qurl_connector.Share.SessionOperation.Protocol.{
  Ensures, EndsAll, EndsAll-then, Ensures-bind, Ensures-mono, run-view,
}
use qurl_connector.Share.SessionOperation.SoleWriter.{Held, Succeeds, after, healthy}
use qurl_connector.Share.SessionOperation.Discipline.{completes}

module _ {Op : Type 0} where
  -- What a stage leaves of the store's record.
  abbrev Carries : SessionOperationRecord Op → SessionOperationRecord Op → Held Op → Type 0
  Carries r a t =
      (t ≡ some a)
      × (a.recovery_attempt ≡ r.recovery_attempt)
      × (a.recovery_not_before_milli ≡ r.recovery_not_before_milli)
      × (a.post_expiry_no_reply_attempts ≡ r.post_expiry_no_reply_attempts)

  abbrev Unchanged : Held Op → ℤ → Held Op → Type 0
  Unchanged s later t = t ≡ s

  abbrev Stored : SessionOperationRecord Op → Held Op → Type 0
  Stored a t = t ≡ some a

  -- The operation is gone, and no error is returned.
  abbrev pub IsDone : Option Failure → Held Op → Type 0
  IsDone f t = (f ≡ none) × (t ≡ none)

  abbrev Over : Outcome Op → Held Op → Type 0
  Over o t = (o.reply.error ≡ none) × (completes o.reply ≡ true)

  abbrev Never : Held Op → Type 0
  Never t = ⊥

  -- A record that may be tried at once.
  pub record IsReady (r : SessionOperationRecord Op) : Type 0 where
    pub known : (t : Bytes) → r.status ≢ other t
    pub attempts_left : r.recovery_attempt < 4294967295
    pub deadline_left : r.recovery_not_before_milli <ℤ pos max_int64
    pub no_failures : r.post_expiry_no_reply_attempts ≡ 0

module _ {Op : Type 0} ⦃api : OperationApi Op⦄ where
  deadline_some :
      (r : SessionOperationRecord Op) (at : ℤ)
      → r.recovery_not_before_milli <ℤ pos max_int64
      → (d : ℤ) × (next_deadline r at ≡ some d)
  unfolding next_deadline
  deadline_some r at h = elim (Bool-cases (leb_ℤ at r.recovery_not_before_milli)) [
    | inl e ↦ (r.recovery_not_before_milli +ℤ pos 1, ground arith)
    | inr e ↦ (at, ground arith)
  ]

module _ {Op : Type 0} ⦃api : OperationApi Op⦄ (id : Bytes) where
  abbrev Leads : {A : Type 0} → (A → Held Op → Type 0) → Program Op (Next A) → Held Op → Type 0
  Leads Q m t = Ensures (healthy id) m t (EndsAll (healthy id) IsDone Never Q)

  write-Leads :
      {A : Type 0} (Q : A → Held Op → Type 0) (rid : Bytes) (p n : SessionOperationRecord Op)
      (go : Program Op (Next A)) (s : Held Op)
      → Leads Q go (some n)
      → Leads Q (ask (transition p n) (or_reconcile rid p go)) s
  unfolding or_reconcile
  write-Leads Q rid p n go s h = (tt, λ e ok. rw ok h)

  delete-Leads :
      {A : Type 0} (Q : A → Held Op → Type 0) (rid : Bytes) (r : SessionOperationRecord Op)
      (s : Held Op)
      → Leads Q (delete_record rid r) s
  unfolding or_reconcile
  delete-Leads Q rid r s = (tt, λ e ok. rw ok (refl, refl))

  settle-Leads :
      (rid : Bytes) (r : SessionOperationRecord Op) (st : Status) (s : Held Op)
      → s ≡ some r
      → ((t : Bytes) → st ≢ other t)
      → Leads (Carries r) (settle rid r st) s
  unfolding settle
  settle-Leads rid r canceled s h k = delete-Leads (Carries r) rid r s
  settle-Leads rid r closed s h k = delete-Leads (Carries r) rid r s
  settle-Leads rid r prepared s h k =
      let next : SessionOperationRecord Op = record r { status = canceled } in
      write-Leads (Carries r) rid r next (delete_record rid next) s
        (delete-Leads (Carries r) rid next (some next))
  settle-Leads rid r mapped s h k =
      let next : SessionOperationRecord Op = record r { status = closing } in
      write-Leads (Carries r) rid r next (finish (proceed next)) s (refl, refl, refl, refl)
  settle-Leads rid r dispatching s h k = (h, refl, refl, refl)
  settle-Leads rid r closing s h k = (h, refl, refl, refl)
  settle-Leads rid r (other t) s h k = absurd (k t refl)

  settle_loaded-Leads :
      (rid : Bytes) (l : Loaded Op) (r : SessionOperationRecord Op) (s : Held Op)
      → s ≡ some r
      → ((t : Bytes) → r.status ≢ other t)
      → Succeeds id s (load rid) l
      → Leads (Carries r) (settle_loaded rid id l) s
  unfolding settle_loaded settle_found
  settle_loaded-Leads rid (load_failed e) r s h k shows = elim shows [ ]
  settle_loaded-Leads rid (records rs) r s h k shows =
      rw (shows ∙ h) (settle-Leads rid r r.status s h k)

  pace-Leads :
      (r : SessionOperationRecord Op) (now : ℤ) (s : Held Op)
      → r.post_expiry_no_reply_attempts ≡ 0
      → Leads (Unchanged s) (pace r now) s
  unfolding pace
  pace-Leads r now s h =
      let Ok : Program Op (Next ℤ) → Type 0 = λ m. Leads (Unchanged s) m s in
      if_both Ok (not (ltb_ℤ now r.recovery_not_before_milli)) refl (
        if_cases Ok (ltb 0 r.post_expiry_no_reply_attempts && _) (λ late. absurd (ground arith))
          (λ soon. (tt, λ failed ok. rw ok (tt, λ later fits. refl))))

  begin_attempt-Leads :
      (rid : Bytes) (r : SessionOperationRecord Op) (now : ℤ) (s : Held Op)
      → r.recovery_attempt < 4294967295
      → r.recovery_not_before_milli <ℤ pos max_int64
      → Leads Stored (begin_attempt rid r now) s
  unfolding begin_attempt write_attempt
  begin_attempt-Leads rid r now s h k =
      let (d, e) = deadline_some r (attempt_time r now) k in
      if_cases (λ (m : Program Op (Next (SessionOperationRecord Op))). Leads Stored m s)
        (nat_beq r.recovery_attempt 4294967295) (λ last. absurd (ground arith))
        (λ more. rw e (
          write-Leads Stored rid r (attempt_record r d) (finish (proceed (attempt_record r d))) s
            refl))

  finish_operation-Leads :
      (Q : Unit {0} → Held Op → Type 0) (rid : Bytes) (r : SessionOperationRecord Op) (s : Held Op)
      → Leads Q (finish_operation rid r) s
  unfolding finish_operation
  finish_operation-Leads Q rid r s =
      let next : SessionOperationRecord Op = record r { status = terminal_status r.admission } in
      write-Leads Q rid r next (delete_record rid next) s (delete-Leads Q rid next (some next))

  judge_result-Leads :
      (Q : Unit {0} → Held Op → Type 0) (rid : Bytes) (o : Outcome Op) (x : Option Recovery)
      (s : Held Op)
      → o.reply.result ≡ x
      → Over o s
      → Leads Q (judge_result rid o x) s
  unfolding judge_result
  judge_result-Leads Q rid o none s e (quiet, done) = absurd (ground arith)
  judge_result-Leads Q rid o (some result) s e (quiet, done) =
      if_cases (λ (m : Program Op (Next (Unit {0}))). Leads Q m s) result.complete
        (λ over. finish_operation-Leads Q rid o.held s) (λ more. absurd (ground arith))

  judge-Leads :
      (Q : Unit {0} → Held Op → Type 0) (rid : Bytes) (o : Outcome Op) (s : Held Op)
      → Over o s
      → Leads Q (judge rid o) s
  unfolding judge judge_reply
  judge-Leads Q rid o s over = rw over.0 (judge_result-Leads Q rid o o.reply.result s refl over)

  abbrev attempt_and_judge : Bytes → SessionOperationRecord Op → Program Op (Next (Unit {0}))
  attempt_and_judge rid a =
      ask (exchange a.operation a.recovery_endpoint) (λ x. pinned_replied rid a x >>> judge rid)

  abbrev Ended : Unit {0} → Held Op → Type 0
  Ended u t = ⊥

  attempt-Leads :
      (rid : Bytes) (a : SessionOperationRecord Op) (s : Held Op)
      → Leads Ended (attempt_and_judge rid a) s
  unfolding pinned_replied pinned_failed
  attempt-Leads rid a s =
      EndsAll-then (healthy id) IsDone Never
        (ask (exchange a.operation a.recovery_endpoint) (pinned_replied rid a)) (judge rid) s Over
        Ended (tt, λ x ok. rw ok.0 ok) (judge-Leads Ended rid)

  paced-Leads :
      (rid : Bytes) (r : SessionOperationRecord Op) (now : ℤ) (s : Held Op)
      → r.recovery_attempt < 4294967295
      → r.recovery_not_before_milli <ℤ pos max_int64
      → r.post_expiry_no_reply_attempts ≡ 0
      → Leads Ended (pace r now >>> λ later. begin_attempt rid r later >>> attempt_and_judge rid) s
  paced-Leads rid r now s h k z =
      EndsAll-then (healthy id) IsDone Never (pace r now)
        (λ later. begin_attempt rid r later >>> attempt_and_judge rid) s (Unchanged s) Ended
        (pace-Leads r now s z)
        (λ later t same.
          EndsAll-then (healthy id) IsDone Never (begin_attempt rid r later) (attempt_and_judge rid)
            t Stored Ended (begin_attempt-Leads rid r later t h k)
            (λ a u stored. attempt-Leads rid a u))

  round-Leads :
      (rid : Bytes) (r : SessionOperationRecord Op) (s : Held Op)
      → s ≡ some r
      → IsReady r
      → Leads Ended (round rid id) s
  unfolding round
  round-Leads rid r s e ready = (
    tt,
    λ l shows.
        EndsAll-then (healthy id) IsDone Never (settle_loaded rid id l)
          (λ r.
            ask clock
              (λ now. pace r now >>> λ later. begin_attempt rid r later >>> attempt_and_judge rid))
          s (Carries r) Ended (settle_loaded-Leads rid l r s e ready.known shows)
          (λ a t same. (
            tt,
            λ now ok.
                paced-Leads rid a now t (rw same.1 ready.attempts_left)
                  (subst (λ (d : ℤ). d <ℤ pos max_int64) (sym same.2) ready.deadline_left)
                  (same.3 ∙ ready.no_failures),
          )),
  )

  abbrev Succeeded : Option (Option Failure) → Held Op → Type 0
  Succeeded r t = (r ≡ some none) × (t ≡ none)

  after_round-Succeeded :
      (rest : Program Op (Option (Option Failure))) (n : Next (Unit {0})) (t : Held Op)
      → EndsAll (healthy id) IsDone Never Ended n t
      → Ensures (healthy id) (after_round rest n) t Succeeded
  after_round-Succeeded rest (leave f) t (e, gone) = (ap some e, gone)
  after_round-Succeeded rest again t h = elim h [ ]
  after_round-Succeeded rest (proceed u) t h = elim h [ ]

  recover-Succeeded :
      (rounds : ℕ) (rid : Bytes) (r : SessionOperationRecord Op) (s : Held Op)
      → s ≡ some r
      → IsReady r
      → Ensures (healthy id) (recover (suc rounds) rid id) s Succeeded
  unfolding recover
  recover-Succeeded rounds rid r s e ready =
      Ensures-bind (healthy id) (round rid id) (after_round (recover rounds rid id)) s Succeeded (
        Ensures-mono (healthy id) (round rid id) s (EndsAll (healthy id) IsDone Never Ended)
          (λ n t. Ensures (healthy id) (after_round (recover rounds rid id) n) t Succeeded)
          (after_round-Succeeded (recover rounds rid id)) (round-Leads rid r s e ready))

  -- Over a store that nobody else writes, when no call fails and the endpoint answers that the
  -- operation is complete, one round of RecoverOperation returns no error and leaves no record of the
  -- operation, whatever of the six statuses the record had, if its attempts and its deadline are not
  -- exhausted and no silence was counted.
  pub recover-completes :
      {W : Type 0} (world : World Op W) (view : W → Held Op) (rounds : ℕ) (rid : Bytes)
      (r : SessionOperationRecord Op) (w : W)
      → ((c : Call Op) (v : W)
          → Succeeds id (view v) c (world c v).0
            × (after (view v) c (world c v).0 ≡ view (world c v).1))
      → id ≢ []
      → view w ≡ some r
      → IsReady r
      → ((run world (recover_operation true (suc rounds) rid id) w).result ≡ some none)
        × (view (run world (recover_operation true (suc rounds) rid id) w).world ≡ none)
  unfolding recover_operation
  recover-completes world view rounds rid r w lawful named held ready =
      run-view (healthy id) world view (recover_operation true (suc rounds) rid id) w Succeeded
        lawful
        (if_cases
          (λ (m : Program Op (Option (Option Failure))). Ensures (healthy id) m (view w) Succeeded)
          (not true || is_empty id) (λ empty. absurd (named (ground arith)))
          (λ full. recover-Succeeded rounds rid r (view w) held ready))
