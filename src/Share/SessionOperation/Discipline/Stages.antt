-- ===== src/Share/SessionOperation/Discipline/Stages.antt =====
-- Each stage of a round of RecoverOperation keeps to the discipline (session_operation.go).
use qurl_connector.Base.{
  ◌+◌, ◌%◌, ◌≤◌, ◌<◌, ◌≡◌, inl, inr, refl, true, not, ◌&&◌, Option, none, some, List, [], ◌∷◌, All,
  Bytes, ltb, nat_beq, arith, Bool-cases, if_both, if_cases, subst, ◌==◌, bytes_eq,
}
use qurl_connector.Base.Int.{ℤ, pos, ltb_ℤ, ◌≤ℤ◌, max_int64}
use qurl_connector.Agentstate.SessionOperation.{
  OperationApi, SessionOperationRecord, Status, prepared, dispatching, mapped, closing, canceled,
  closed, other, valid_session_operation_record, valid_fields,
}
use qurl_connector.Share.SessionOperation.{Error, only_cas_loss}
use qurl_connector.Share.SessionOperation.Backoff.{recovery_backoff}
use qurl_connector.Share.SessionOperation.Program.{
  transition, Loaded, records, load_failed, Program, finish, ask, ◌>>=◌, Next, leave, proceed,
}
use qurl_connector.Share.SessionOperation.Recover.Settle.{
  Reconciled, complete, reload, refused, after_reconcile, find_operation, reconcile_loaded,
  reconcile, or_reconcile, settle, settle_found, write_attempt, settle_loaded, pace, next_deadline,
  attempt_record, begin_attempt, attempt_time, delete_record,
}
use qurl_connector.Share.SessionOperation.Protocol.{Ensures, Ends}
use qurl_connector.Share.SessionOperation.Accepted.{
  IsDecoded, IsOpen, cancel-IsWrite, close-IsWrite, attempt-IsWrite, +ℤ-le,
}
use qurl_connector.Share.SessionOperation.Discipline.{
  Seen, MayWrite, MayDelete, LoadFits, after_write, discipline,
}

module _ {Op : Type 0} ⦃api : OperationApi Op⦄ where
  after_reconcile-Ends :
      {A : Type 0} (Q : A → Seen Op → Type 0) (x : Reconciled) (s : Seen Op)
      → Ends discipline Q (after_reconcile x) s
  after_reconcile-Ends Q complete s = tt
  after_reconcile-Ends Q reload s = tt
  after_reconcile-Ends Q (refused f) s = tt

  -- A lost write ends the round, whatever the reload finds.
  pub reconcile-Ends :
      {A : Type 0} (Q : A → Seen Op → Type 0) (rid : Bytes) (p : SessionOperationRecord Op)
      (e : Error) (s : Seen Op)
      → Ensures discipline
          (reconcile rid p e >>= λ x. finish (after_reconcile x))
          s
          (Ends discipline Q)
  unfolding reconcile
  reconcile-Ends Q rid p e s = elim (Bool-cases (only_cas_loss e)) [
    | inl h ↦ rw h (tt, λ l ok. after_reconcile-Ends Q (reconcile_loaded p e l) s)
    | inr h ↦ rw h tt
  ]

  after_loss-Ends :
      {A : Type 0} (Q : A → Seen Op → Type 0) (rid : Bytes) (p : SessionOperationRecord Op)
      (go : Program Op (Next A)) (s t : Seen Op) (e : Option Error)
      → (e ≡ none → Ensures discipline go t (Ends discipline Q))
      → Ensures discipline (or_reconcile rid p go e) t (Ends discipline Q)
  unfolding or_reconcile
  after_loss-Ends Q rid p go s t none h = h refl
  after_loss-Ends Q rid p go s t (some e) h = reconcile-Ends Q rid p e t

  -- A write that the discipline allows, and what follows it.
  pub write-Ends :
      {A : Type 0} (Q : A → Seen Op → Type 0) (rid : Bytes) (p n : SessionOperationRecord Op)
      (go : Program Op (Next A)) (s : Seen Op)
      → MayWrite s p n
      → Ensures discipline go (after_write s p n none) (Ends discipline Q)
      → Ensures discipline (ask (transition p n) (or_reconcile rid p go)) s (Ends discipline Q)
  write-Ends {A} Q rid p n go s may h = (may, λ e ok. replied e)
    where
      replied :
          (e : Option Error)
          → Ensures discipline (or_reconcile rid p go e) (after_write s p n e) (Ends discipline Q)
      replied none = after_loss-Ends Q rid p go s (after_write s p n none) none (λ same. h)
      replied (some e) = after_loss-Ends Q rid p go s s (some e) (λ same. cc)

  pub delete-Ends :
      {A : Type 0} (Q : A → Seen Op → Type 0) (rid : Bytes) (r : SessionOperationRecord Op)
      (s : Seen Op)
      → MayDelete r
      → Ensures discipline (delete_record rid r) s (Ends discipline Q)
  delete-Ends Q rid r s may =
      (may, λ e ok. after_loss-Ends Q rid r (finish (leave none)) s s e (λ same. tt))

  -- The record that the stages hand on.
  abbrev pub Held : SessionOperationRecord Op → Seen Op → Type 0
  Held r s = IsDecoded r × IsOpen r.status

  pub find_operation-IsDecoded :
      (rs : List (SessionOperationRecord Op)) (id : Bytes) (r : SessionOperationRecord Op)
      → All IsDecoded rs
      → find_operation rs id ≡ some r
      → IsDecoded r
  unfolding find_operation
  find_operation-IsDecoded [] id r h e = cc
  find_operation-IsDecoded (x ∷ rs) id r (hx, hs) e =
      elim (Bool-cases (api.operation_id x.operation == id)) [
        | inl hit ↦ let same : x ≡ r = ground arith in subst IsDecoded same hx
        | inr miss ↦ find_operation-IsDecoded rs id r hs (ground arith)
      ]

  cancel-MayWrite :
      (s : Seen Op) (r : SessionOperationRecord Op)
      → IsDecoded r
      → r.status ≡ prepared
      → MayWrite s r (record r { status = canceled })
  cancel-MayWrite s r h e = record {
    accepted = (cancel-IsWrite r h e).accepted;
    ended = λ t. inl e;
    counted = λ more. absurd (omega arith);
  }

  close-MayWrite :
      (s : Seen Op) (r : SessionOperationRecord Op)
      → IsDecoded r
      → r.status ≡ mapped
      → MayWrite s r (record r { status = closing })
  close-MayWrite s r h e = record {
    accepted = (close-IsWrite r h e).accepted;
    ended = λ t. absurd (ground arith);
    counted = λ more. absurd (omega arith);
  }

  settle-Ends :
      (rid : Bytes) (r : SessionOperationRecord Op) (st : Status) (s : Seen Op)
      → IsDecoded r
      → r.status ≡ st
      → Ensures discipline (settle rid r st) s (Ends discipline Held)
  unfolding settle
  settle-Ends rid r canceled s h e =
      delete-Ends Held rid r s (record { valid = h.valid; terminal = inl e })
  settle-Ends rid r closed s h e =
      delete-Ends Held rid r s (record { valid = h.valid; terminal = inr e })
  settle-Ends rid r prepared s h e =
      let next : SessionOperationRecord Op = record r { status = canceled } in
      write-Ends Held rid r next (delete_record rid next) s (cancel-MayWrite s r h e) (
        delete-Ends Held rid next (after_write s r next none)
          (record { valid = (cancel-IsWrite r h e).decoded.valid; terminal = inl refl }))
  settle-Ends rid r mapped s h e =
      let next : SessionOperationRecord Op = record r { status = closing } in
      write-Ends Held rid r next (finish (proceed next)) s (close-MayWrite s r h e)
        ((close-IsWrite r h e).decoded, inr refl)
  settle-Ends rid r dispatching s h e = (h, inl e)
  settle-Ends rid r closing s h e = (h, inr e)
  settle-Ends rid r (other t) s h e = tt

  settle_found-Ends :
      (rid id : Bytes) (rs : List (SessionOperationRecord Op))
      (o : Option (SessionOperationRecord Op)) (s : Seen Op)
      → All IsDecoded rs
      → find_operation rs id ≡ o
      → Ensures discipline (settle_found rid o) s (Ends discipline Held)
  unfolding settle_found
  settle_found-Ends rid id rs none s fits e = tt
  settle_found-Ends rid id rs (some r) s fits e =
      settle-Ends rid r r.status s (find_operation-IsDecoded rs id r fits e) refl

  pub settle_loaded-Ends :
      (rid id : Bytes) (l : Loaded Op) (s : Seen Op)
      → LoadFits l
      → Ensures discipline (settle_loaded rid id l) s (Ends discipline Held)
  unfolding settle_loaded
  settle_loaded-Ends rid id (load_failed e) s fits = tt
  settle_loaded-Ends rid id (records rs) s fits =
      settle_found-Ends rid id rs (find_operation rs id) s fits refl

  -- A stage that makes no write and no exchange.
  abbrev pub AnyTime : ℤ → Seen Op → Type 0
  AnyTime later t = Unit

  pub pace-Ends :
      (r : SessionOperationRecord Op) (now : ℤ) (s : Seen Op)
      → Ensures discipline (pace r now) s (Ends discipline AnyTime)
  unfolding pace
  pace-Ends r now s =
      let Ok : Program Op (Next ℤ) → Type 0 =
        λ m. Ensures discipline m s (Ends discipline AnyTime) in
      if_both Ok (not (ltb_ℤ now r.recovery_not_before_milli)) tt (
        if_both Ok (ltb 0 r.post_expiry_no_reply_attempts && _) tt
          (tt, λ failed ok. if_both Ok failed tt (tt, λ later fits. tt)))

  -- What holds of the record of an attempt that was written.
  pub record Attempted (r : SessionOperationRecord Op) (s : Seen Op) : Type 0 where
    pub decoded : IsDecoded r
    pub open_status : IsOpen r.status
    pub written : s.written ≡ some r
    pub sends : s.sends ≡ 2
    pub paid : r.post_expiry_no_reply_attempts < r.recovery_attempt

  failures_le :
      (r : SessionOperationRecord Op)
      → valid_session_operation_record r ≡ true
      → r.post_expiry_no_reply_attempts ≤ r.recovery_attempt
  unfolding valid_session_operation_record valid_fields
  failures_le r h = ground arith

  write_attempt-Ends :
      (rid : Bytes) (r : SessionOperationRecord Op) (at : ℤ) (o : Option ℤ) (s : Seen Op)
      → IsDecoded r
      → IsOpen r.status
      → r.recovery_attempt < 4294967295
      → at ≤ℤ pos max_int64
      → next_deadline r at ≡ o
      → Ensures discipline (write_attempt rid r o) s (Ends discipline Attempted)
  unfolding write_attempt
  write_attempt-Ends rid r at none s h o k l e = tt
  write_attempt-Ends rid r at (some d) s h o k l e =
      let done = attempt-IsWrite r at d h o k l e in
      write-Ends Attempted rid r (attempt_record r d) (finish (proceed (attempt_record r d))) s
        (record {
          accepted = done.accepted;
          ended = λ t. absurd (ground arith);
          counted = λ more. absurd (omega arith);
        })
        (record {
          decoded = done.decoded;
          open_status = o;
          written = refl;
          sends = ground arith;
          paid = omega (arith, failures_le r h.valid);
        })

  pub begin_attempt-Ends :
      (rid : Bytes) (r : SessionOperationRecord Op) (now : ℤ) (s : Seen Op)
      → Held r s
      → Ensures discipline (begin_attempt rid r now) s (Ends discipline Attempted)
  unfolding begin_attempt
  begin_attempt-Ends rid r now s (h, o) =
      if_cases
        (λ (m : Program Op (Next (SessionOperationRecord Op))).
          Ensures discipline m s (Ends discipline Attempted))
        (nat_beq r.recovery_attempt 4294967295) (λ last. tt)
        (λ more.
          write_attempt-Ends rid r (attempt_time r now) (next_deadline r (attempt_time r now)) s h o
            (ground (arith, h.counters.attempts))
            (+ℤ-le now (pos (recovery_backoff ((r.recovery_attempt + 1) % 4294967296)))) refl)
