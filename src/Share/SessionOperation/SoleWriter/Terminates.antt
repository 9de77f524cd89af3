-- ===== src/Share/SessionOperation/SoleWriter/Terminates.antt =====
-- RecoverOperation ends (session_operation.go): a round that starts over has counted one attempt, and
-- the counter is a uint32.
use qurl_connector.Base.{
  ℕ, zero, suc, ◌+◌, ◌≤◌, ◌<◌, ◌≡◌, ◌≢◌, refl, Bool, not, ◌||◌, Option, none, some, Bytes, is_empty,
  arith, if_both,
}
use qurl_connector.Base.Int.{ℤ}
use qurl_connector.Agentstate.SessionOperation.{OperationApi, SessionOperationRecord}
use qurl_connector.Share.SessionOperation.{Failure}
use qurl_connector.Share.SessionOperation.Program.{
  Call, clock, exchange, Program, ask, ◌>>>◌, Next, leave, again, proceed, World, run,
}
use qurl_connector.Share.SessionOperation.Recover.Settle.{settle_loaded, pace, begin_attempt}
use qurl_connector.Share.SessionOperation.Recover.Refence.{pinned_replied}
use qurl_connector.Share.SessionOperation.Recover.Judge.{judge}
use qurl_connector.Share.SessionOperation.Recover.{round, after_round, recover, recover_operation}
use qurl_connector.Share.SessionOperation.Protocol.{
  Ensures, EndsOr, EndsOr-then, Ensures-bind, Ensures-mono, run-view,
}
use qurl_connector.Share.SessionOperation.SoleWriter.{Held, Answers, after, sole}
use qurl_connector.Share.SessionOperation.SoleWriter.Stages.{
  Holds, Counts, Goes, Alone, Attempts, Judges, settle_loaded-Goes, pace-Goes, begin_attempt-Goes,
  pinned_failed-Goes,
}
use qurl_connector.Share.SessionOperation.SoleWriter.Verdict.{judge-Goes}

module _ {Op : Type 0} ⦃api : OperationApi Op⦄ (id : Bytes) where
  -- A round never proceeds.
  abbrev Nothing : Unit {0} → Held Op → Type 0
  Nothing u t = ⊥

  abbrev attempt_and_judge : Bytes → SessionOperationRecord Op → Program Op (Next (Unit {0}))
  attempt_and_judge rid a =
      ask (exchange a.operation a.recovery_endpoint) (λ x. pinned_replied rid a x >>> judge rid)

  attempt-Goes :
      (k : ℕ) (rid : Bytes) (a : SessionOperationRecord Op) (s : Held Op)
      → Attempts k a s
      → Goes id k Nothing (attempt_and_judge rid a) s
  unfolding pinned_replied
  attempt-Goes k rid a s h =
      EndsOr-then (sole id) (Counts k)
        (ask (exchange a.operation a.recovery_endpoint) (pinned_replied rid a)) (judge rid) s
        (Judges k) Nothing (tt, λ x ok. pinned_failed-Goes id k rid a x x.error s h)
        (judge-Goes id k Nothing rid)

  paced-Goes :
      (k : ℕ) (rid : Bytes) (r : SessionOperationRecord Op) (now : ℤ) (s : Held Op)
      → r.recovery_attempt ≡ k
      → k < 4294967296
      → Goes id k Nothing
          (pace r now >>> λ later. begin_attempt rid r later >>> attempt_and_judge rid)
          s
  paced-Goes k rid r now s e h =
      EndsOr-then (sole id) (Counts k) (pace r now)
        (λ later. begin_attempt rid r later >>> attempt_and_judge rid) s (Alone s) Nothing
        (pace-Goes id k r now s)
        (λ later t same.
          EndsOr-then (sole id) (Counts k) (begin_attempt rid r later) (attempt_and_judge rid) t
            (Attempts k) Nothing (begin_attempt-Goes id k rid r later t e h) (attempt-Goes k rid))

  round-Goes :
      (k : ℕ) (rid : Bytes) (r : SessionOperationRecord Op) (s : Held Op)
      → Holds k r s
      → k < 4294967296
      → Goes id k Nothing (round rid id) s
  unfolding round
  round-Goes k rid r s h b = (
    tt,
    λ l shows.
        EndsOr-then (sole id) (Counts k) (settle_loaded rid id l)
          (λ r.
            ask clock
              (λ now. pace r now >>> λ later. begin_attempt rid r later >>> attempt_and_judge rid))
          s (Holds k) Nothing (settle_loaded-Goes id k rid l r s h shows)
          (λ a t held. (tt, λ now ok. paced-Goes k rid a now t held.1 b)),
  )

  abbrev Returns : Option (Option Failure) → Held Op → Type 0
  Returns r t = r ≢ none

  after_round-Returns :
      (k : ℕ) (rest : Program Op (Option (Option Failure)))
      → ((r : SessionOperationRecord Op) (t : Held Op)
          → Holds (suc k) r t
          → suc k < 4294967296
          → Ensures (sole id) rest t Returns)
      → (n : Next (Unit {0})) (t : Held Op) → EndsOr (sole id) (Counts k) Nothing n t
      → Ensures (sole id) (after_round rest n) t Returns
  after_round-Returns k rest more (leave f) t h = λ e. cc
  after_round-Returns k rest more again t (r, held, a, b) = more r t (held, a) b
  after_round-Returns k rest more (proceed u) t h = elim h [ ]

  recover-Returns :
      (rounds k : ℕ) (rid : Bytes) (r : SessionOperationRecord Op) (s : Held Op)
      → Holds k r s
      → k < 4294967296
      → 4294967296 ≤ rounds + k
      → Ensures (sole id) (recover rounds rid id) s Returns
  unfolding recover
  recover-Returns zero k rid r s h b enough = absurd (omega arith)
  recover-Returns (suc rounds) k rid r s h b enough =
      Ensures-bind (sole id) (round rid id) (after_round (recover rounds rid id)) s Returns (
        Ensures-mono (sole id) (round rid id) s (EndsOr (sole id) (Counts k) Nothing)
          (λ n t. Ensures (sole id) (after_round (recover rounds rid id) n) t Returns)
          (after_round-Returns k (recover rounds rid id)
            (λ x t held below. recover-Returns rounds (suc k) rid x t held below (omega arith)))
          (round-Goes k rid r s h b))

  -- Over a store that nobody else writes, whose writes and reads may still fail, and for every clock,
  -- context, waiting and server, RecoverOperation returns: a loop of 2^32 rounds less the attempts that
  -- the record has counted never runs out of them.
  pub recover-Returns_sole :
      {W : Type 0} (world : World Op W) (view : W → Held Op) (ready : Bool) (rounds : ℕ)
      (rid : Bytes) (r : SessionOperationRecord Op) (w : W)
      → ((c : Call Op) (v : W)
          → Answers id (view v) c (world c v).0
            × (after (view v) c (world c v).0 ≡ view (world c v).1))
      → view w ≡ some r
      → r.recovery_attempt < 4294967296
      → 4294967296 ≤ rounds + r.recovery_attempt
      → (run world (recover_operation ready rounds rid id) w).result ≢ none
  unfolding recover_operation
  recover-Returns_sole world view ready rounds rid r w lawful held b enough =
      run-view (sole id) world view (recover_operation ready rounds rid id) w Returns lawful (
        if_both (λ (m : Program Op (Option (Option Failure))). Ensures (sole id) m (view w) Returns)
          (not ready || is_empty id) (λ e. cc)
          (recover-Returns rounds r.recovery_attempt rid r (view w) (held, refl) b enough))
