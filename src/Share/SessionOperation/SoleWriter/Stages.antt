-- ===== src/Share/SessionOperation/SoleWriter/Stages.antt =====
-- RecoverOperation over a store with one writer: what a round leaves of the store's record, up to the
-- outcome of its exchanges (session_operation.go).
use qurl_connector.Base.{
  ℕ, suc, ◌<◌, ◌≡◌, refl, ◌∙◌, false, not, ◌&&◌, Option, none, some, Bytes, nat_beq, ltb, arith,
  if_both, if_cases,
}
use qurl_connector.Base.Int.{ℤ, ltb_ℤ}
use qurl_connector.Agentstate.SessionOperation.{
  OperationApi, Endpoint, SessionOperationRecord, Status, prepared, dispatching, mapped, closing,
  canceled, closed, other,
}
use qurl_connector.Share.SessionOperation.{
  Error, Exchange, ExchangeError, only_cas_loss, no_reply_error, endpoint_answered,
  is_no_reply_error, refence_endpoint,
}
use qurl_connector.Share.SessionOperation.Program.{
  transition, Loaded, records, load_failed, Program, finish, ask, ◌>>=◌, Next, leave, proceed,
}
use qurl_connector.Share.SessionOperation.Recover.Settle.{
  after_reconcile, reconcile, or_reconcile, delete_record, settle, settle_found, settle_loaded,
  pace, next_deadline, attempt_record, attempt_time, write_attempt, begin_attempt,
}
use qurl_connector.Share.SessionOperation.Recover.Refence.{
  Outcome, admits, move_written, refenced, refence, pinned_failed,
}
use qurl_connector.Share.SessionOperation.Protocol.{Ensures, EndsOr}
use qurl_connector.Share.SessionOperation.SoleWriter.{Held, NotLost, Shows, kept, sole}

module _ {Op : Type 0} where
  -- The store holds `r`, with `k` attempts counted.
  abbrev pub Holds : ℕ → SessionOperationRecord Op → Held Op → Type 0
  Holds k r t = (t ≡ some r) × (r.recovery_attempt ≡ k)

  -- Where the loop starts over after a round that found `k` attempts.
  abbrev pub Counts : ℕ → Held Op → Type 0
  Counts k t =
      (r : SessionOperationRecord Op) × (t ≡ some r)
      × (r.recovery_attempt ≡ suc k)
      × (suc k < 4294967296)

  -- A stage that leaves the store alone.
  abbrev pub Alone : Held Op → ℤ → Held Op → Type 0
  Alone s later t = t ≡ s

  -- The record of a written attempt.
  abbrev pub Attempts : ℕ → SessionOperationRecord Op → Held Op → Type 0
  Attempts k r t = (t ≡ some r) × (r.recovery_attempt ≡ suc k) × (suc k < 4294967296)

  -- The outcome's record is the store's.
  abbrev pub Judges : ℕ → Outcome Op → Held Op → Type 0
  Judges k o t = Attempts k o.held t

module _ {Op : Type 0} ⦃api : OperationApi Op⦄ (id : Bytes) where
  -- What follows a stage of a round that found `k` attempts.
  abbrev pub Goes :
      {A : Type 0} → ℕ → (A → Held Op → Type 0) → Program Op (Next A) → Held Op → Type 0
  Goes k Q m t = Ensures (sole id) m t (EndsOr (sole id) (Counts k) Q)

  lost-Goes :
      {A : Type 0} (k : ℕ) (Q : A → Held Op → Type 0) (rid : Bytes) (p : SessionOperationRecord Op)
      (e : Error) (t : Held Op)
      → only_cas_loss e ≡ false
      → Goes k Q (reconcile rid p e >>= λ x. finish (after_reconcile x)) t
  unfolding reconcile
  lost-Goes k Q rid p e t h = rw h tt

  replied-Goes :
      {A : Type 0} (k : ℕ) (Q : A → Held Op → Type 0) (rid : Bytes) (p : SessionOperationRecord Op)
      (go : Program Op (Next A)) (s n : Held Op) (e : Option Error)
      → NotLost e
      → Goes k Q go n
      → Goes k Q (or_reconcile rid p go e) (kept s n e)
  unfolding or_reconcile
  replied-Goes k Q rid p go s n none ok h = h
  replied-Goes k Q rid p go s n (some e) ok h = lost-Goes k Q rid p e s ok

  pub write-Goes :
      {A : Type 0} (k : ℕ) (Q : A → Held Op → Type 0) (rid : Bytes)
      (p n : SessionOperationRecord Op) (go : Program Op (Next A)) (s : Held Op)
      → Goes k Q go (some n)
      → Goes k Q (ask (transition p n) (or_reconcile rid p go)) s
  write-Goes k Q rid p n go s h = (tt, λ e ok. replied-Goes k Q rid p go s (some n) e ok h)

  pub delete-Goes :
      {A : Type 0} (k : ℕ) (Q : A → Held Op → Type 0) (rid : Bytes) (r : SessionOperationRecord Op)
      (s : Held Op)
      → Goes k Q (delete_record rid r) s
  delete-Goes k Q rid r s =
      (tt, λ e ok. replied-Goes k Q rid r (finish (leave none)) s none e ok tt)

  settle-Goes :
      (k : ℕ) (rid : Bytes) (r : SessionOperationRecord Op) (st : Status) (s : Held Op)
      → Holds k r s
      → Goes k (Holds k) (settle rid r st) s
  unfolding settle
  settle-Goes k rid r canceled s h = delete-Goes k (Holds k) rid r s
  settle-Goes k rid r closed s h = delete-Goes k (Holds k) rid r s
  settle-Goes k rid r prepared s h =
      let next : SessionOperationRecord Op = record r { status = canceled } in
      write-Goes k (Holds k) rid r next (delete_record rid next) s
        (delete-Goes k (Holds k) rid next (some next))
  settle-Goes k rid r mapped s (e, a) =
      let next : SessionOperationRecord Op = record r { status = closing } in
      write-Goes k (Holds k) rid r next (finish (proceed next)) s (refl, a)
  settle-Goes k rid r dispatching s h = h
  settle-Goes k rid r closing s h = h
  settle-Goes k rid r (other t) s h = tt

  pub settle_loaded-Goes :
      (k : ℕ) (rid : Bytes) (l : Loaded Op) (r : SessionOperationRecord Op) (s : Held Op)
      → Holds k r s
      → Shows id s l
      → Goes k (Holds k) (settle_loaded rid id l) s
  unfolding settle_loaded settle_found
  settle_loaded-Goes k rid (load_failed e) r s h shows = tt
  settle_loaded-Goes k rid (records rs) r s h shows =
      rw (shows ∙ h.0) (settle-Goes k rid r r.status s h)

  pub pace-Goes :
      (k : ℕ) (r : SessionOperationRecord Op) (now : ℤ) (s : Held Op)
      → Goes k (Alone s) (pace r now) s
  unfolding pace
  pace-Goes k r now s =
      let Ok : Program Op (Next ℤ) → Type 0 = λ m. Goes k (Alone s) m s in
      if_both Ok (not (ltb_ℤ now r.recovery_not_before_milli)) refl (
        if_both Ok (ltb 0 r.post_expiry_no_reply_attempts && _) tt
          (tt, λ failed ok. if_both Ok failed tt (tt, λ later fits. refl)))

  write_attempt-Goes :
      (k : ℕ) (rid : Bytes) (r : SessionOperationRecord Op) (o : Option ℤ) (s : Held Op)
      → r.recovery_attempt ≡ k
      → k < 4294967295
      → Goes k (Attempts k) (write_attempt rid r o) s
  unfolding write_attempt
  write_attempt-Goes k rid r none s a h = tt
  write_attempt-Goes k rid r (some d) s a h =
      write-Goes k (Attempts k) rid r (attempt_record r d) (finish (proceed (attempt_record r d))) s
        (refl, omega arith, omega arith)

  pub begin_attempt-Goes :
      (k : ℕ) (rid : Bytes) (r : SessionOperationRecord Op) (now : ℤ) (s : Held Op)
      → r.recovery_attempt ≡ k
      → k < 4294967296
      → Goes k (Attempts k) (begin_attempt rid r now) s
  unfolding begin_attempt
  begin_attempt-Goes k rid r now s a h =
      if_cases (λ (m : Program Op (Next (SessionOperationRecord Op))). Goes k (Attempts k) m s)
        (nat_beq r.recovery_attempt 4294967295) (λ last. tt)
        (λ more.
          write_attempt-Goes k rid r (next_deadline r (attempt_time r now)) s a (ground arith))

  move_written-Goes :
      (k : ℕ) (rid : Bytes) (r : SessionOperationRecord Op) (e : Endpoint) (y : Exchange)
      (s : Held Op) (w : Option Error)
      → Attempts k r s
      → NotLost w
      → Goes k
          (Judges k)
          (move_written rid r (record r { recovery_endpoint = e }) y w)
          (kept s (some (record r { recovery_endpoint = e })) w)
  unfolding move_written
  move_written-Goes k rid r e y s none (h, a, b) ok = (refl, a, b)
  move_written-Goes k rid r e y s (some w) h ok =
      if_both (λ (m : Program Op (Next (Outcome Op))). Goes k (Judges k) m s) (admits y.error) tt
        (lost-Goes k (Judges k) rid r w s ok)

  refenced-Goes :
      (k : ℕ) (rid : Bytes) (r : SessionOperationRecord Op) (current : Endpoint) (x : Exchange)
      (e : ExchangeError) (y : Exchange) (s : Held Op)
      → Attempts k r s
      → Goes k (Judges k) (refenced rid r current x e y) s
  unfolding refenced
  refenced-Goes k rid r current x e y s h =
      let Ok : Program Op (Next (Outcome Op)) → Type 0 = λ m. Goes k (Judges k) m s in
      if_both Ok (endpoint_answered y.result y.error)
        (
          tt,
          λ gone ok.
              if_both Ok gone (tt, λ _ _. tt)
                (tt, λ w fits. move_written-Goes k rid r current y s w h fits),
        )
        (if_both Ok (is_no_reply_error y.error) (tt, λ gone ok. if_both Ok gone (tt, λ _ _. tt) h)
          (tt, λ _ _. tt))

  refence-Goes :
      (k : ℕ) (rid : Bytes) (r : SessionOperationRecord Op) (x : Exchange) (e : ExchangeError)
      (o : Option Endpoint) (s : Held Op)
      → Attempts k r s
      → Goes k (Judges k) (refence rid r x e o) s
  unfolding refence
  refence-Goes k rid r x e none s h = h
  refence-Goes k rid r x e (some c) s h = (tt, λ y ok. refenced-Goes k rid r c x e y s h)

  pub pinned_failed-Goes :
      (k : ℕ) (rid : Bytes) (r : SessionOperationRecord Op) (x : Exchange)
      (o : Option ExchangeError) (s : Held Op)
      → Attempts k r s
      → Goes k (Judges k) (pinned_failed rid r x o) s
  unfolding pinned_failed
  pinned_failed-Goes k rid r x none s h = h
  pinned_failed-Goes k rid r x (some e) s h =
      let Ok : Program Op (Next (Outcome Op)) → Type 0 = λ m. Goes k (Judges k) m s in
      if_both Ok (no_reply_error e)
        (
          tt,
          λ gone ok.
              if_both Ok gone h (tt, λ c fits. refence-Goes k rid r x e (refence_endpoint c r) s h),
        )
        h
