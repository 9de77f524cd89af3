-- ===== src/Share/SessionOperation/Discipline/Whole.antt =====
-- RecoverOperation as a whole (session_operation.go), by the lemmas on its stages.
use qurl_connector.Base.{
  ℕ, zero, suc, Bool, true, not, ◌||◌, Option, List, [], ◌∷◌, Bytes, is_empty, if_both, any, ◌==◌,
  bytes_eq,
}
use qurl_connector.Base.Int.{ℤ}
use qurl_connector.Agentstate.SessionOperation.{OperationApi, SessionOperationRecord}
use qurl_connector.Share.SessionOperation.{Failure}
use qurl_connector.Share.SessionOperation.Program.{
  Call, Loaded, records, load_failed, exchange, clock, Program, finish, ask, ◌>>=◌, ◌>>>◌, Next,
  leave, again, proceed, World, run,
}
use qurl_connector.Share.SessionOperation.Recover.Settle.{settle_loaded, pace, begin_attempt}
use qurl_connector.Share.SessionOperation.Recover.Refence.{pinned_replied}
use qurl_connector.Share.SessionOperation.Recover.Judge.{judge}
use qurl_connector.Share.SessionOperation.Recover.{
  round, after_round, recover, recover_operation, recover_each, recover_loaded, recover_pending,
  join_failure,
}
use qurl_connector.Share.SessionOperation.Protocol.{
  Ensures, Ends, Ends-then, Ensures-bind, Ensures-mono, Follows, run-Follows,
}
use qurl_connector.Share.SessionOperation.Discipline.{Seen, unseen, discipline, Answers}
use qurl_connector.Share.SessionOperation.Discipline.Stages.{
  Held, AnyTime, Attempted, settle_loaded-Ends, pace-Ends, begin_attempt-Ends,
}
use qurl_connector.Share.SessionOperation.Discipline.Exchanges.{Judged, exchanges-Ends}
use qurl_connector.Share.SessionOperation.Discipline.Verdict.{AnyEnd, judge-Ends}

module _ {Op : Type 0} ⦃api : OperationApi Op⦄ where
  abbrev pub Anything : {A : Type 0} → A → Seen Op → Type 0
  Anything a s = Unit

  abbrev attempt_and_judge : Bytes → SessionOperationRecord Op → Program Op (Next (Unit {0}))
  attempt_and_judge rid a =
      ask (exchange a.operation a.recovery_endpoint) (λ x. pinned_replied rid a x >>> judge rid)

  attempt-Ends :
      (rid : Bytes) (a : SessionOperationRecord Op) (s : Seen Op)
      → Attempted a s
      → Ensures discipline (attempt_and_judge rid a) s (Ends discipline AnyEnd)
  attempt-Ends rid a s h =
      Ends-then discipline (ask (exchange a.operation a.recovery_endpoint) (pinned_replied rid a))
        (judge rid) s Judged AnyEnd (exchanges-Ends rid a s h) (judge-Ends rid)

  paced-Ends :
      (rid : Bytes) (r : SessionOperationRecord Op) (now : ℤ) (s : Seen Op)
      → Held r s
      → Ensures discipline
          (pace r now >>> λ later. begin_attempt rid r later >>> attempt_and_judge rid)
          s
          (Ends discipline AnyEnd)
  paced-Ends rid r now s held =
      Ends-then discipline (pace r now)
        (λ later. begin_attempt rid r later >>> attempt_and_judge rid) s AnyTime AnyEnd
        (pace-Ends r now s)
        (λ later t u.
          Ends-then discipline (begin_attempt rid r later) (attempt_and_judge rid) t Attempted
            AnyEnd (begin_attempt-Ends rid r later t held) (attempt-Ends rid))

  round-Ends :
      (rid id : Bytes) (s : Seen Op) → Ensures discipline (round rid id) s (Ends discipline AnyEnd)
  unfolding round
  round-Ends rid id s = (
    tt,
    λ l fits.
        Ends-then discipline (settle_loaded rid id l)
          (λ r.
            ask clock
              (λ now. pace r now >>> λ later. begin_attempt rid r later >>> attempt_and_judge rid))
          s Held AnyEnd (settle_loaded-Ends rid id l s fits)
          (λ r t held. (tt, λ now ok. paced-Ends rid r now (record t { now = now }) held)),
  )

  after_round-Ensures :
      (rest : Program Op (Option (Option Failure))) (n : Next (Unit {0})) (t : Seen Op)
      → ((u : Seen Op) → Ensures discipline rest u Anything)
      → Ensures discipline (after_round rest n) t Anything
  after_round-Ensures rest (leave r) t h = tt
  after_round-Ensures rest again t h = h t
  after_round-Ensures rest (proceed u) t h = h t

  recover-Ensures :
      (rounds : ℕ) (rid id : Bytes) (s : Seen Op)
      → Ensures discipline (recover rounds rid id) s Anything
  unfolding recover
  recover-Ensures zero rid id s = tt
  recover-Ensures (suc rounds) rid id s =
      Ensures-bind discipline (round rid id) (after_round (recover rounds rid id)) s Anything (
        Ensures-mono discipline (round rid id) s (Ends discipline AnyEnd)
          (λ n t. Ensures discipline (after_round (recover rounds rid id) n) t Anything)
          (λ n t h. after_round-Ensures (recover rounds rid id) n t (recover-Ensures rounds rid id))
          (round-Ends rid id s))

  pub recover_operation-Ensures :
      (ready : Bool) (rounds : ℕ) (rid id : Bytes) (s : Seen Op)
      → Ensures discipline (recover_operation ready rounds rid id) s Anything
  unfolding recover_operation
  recover_operation-Ensures ready rounds rid id s =
      if_both (λ (m : Program Op (Option (Option Failure))). Ensures discipline m s Anything)
        (not ready || is_empty id) tt (recover-Ensures rounds rid id s)

  recover_each-Ensures :
      (ready : Bool) (rounds : ℕ) (rid : Bytes) (preserve : List Bytes)
      (rs : List (SessionOperationRecord Op)) (s : Seen Op)
      → Ensures discipline (recover_each ready rounds rid preserve rs) s Anything
  unfolding recover_each
  recover_each-Ensures ready rounds rid preserve [] s = tt
  recover_each-Ensures ready rounds rid preserve (r ∷ rs) s =
      if_both (λ (m : Program Op (Option (List Failure))). Ensures discipline m s Anything)
        (any (λ id. id == api.operation_id r.operation) preserve)
        (recover_each-Ensures ready rounds rid preserve rs s)
        (Ensures-bind discipline (recover_operation ready rounds rid (api.operation_id r.operation))
          (others r rs) s Anything
          (Ensures-mono discipline
            (recover_operation ready rounds rid (api.operation_id r.operation)) s Anything
            (λ first t. Ensures discipline (others r rs first) t Anything)
            (λ first t h.
              Ensures-bind discipline (recover_each ready rounds rid preserve rs)
                (λ rest. finish (join_failure first rest)) t Anything
                (Ensures-mono discipline (recover_each ready rounds rid preserve rs) t Anything
                  (λ rest u. Unit) (λ rest u k. tt)
                  (recover_each-Ensures ready rounds rid preserve rs t)))
            (recover_operation-Ensures ready rounds rid (api.operation_id r.operation) s)))
    where
      others :
          SessionOperationRecord Op
          → List (SessionOperationRecord Op)
          → Option (Option Failure)
          → Program Op (Option (List Failure))
      others r rs first =
          recover_each ready rounds rid preserve rs >>= λ rest. finish (join_failure first rest)

  loaded-Ensures :
      (rounds : ℕ) (rid : Bytes) (preserve : List Bytes) (l : Loaded Op) (s : Seen Op)
      → Ensures discipline (recover_loaded rounds rid preserve l) s Anything
  unfolding recover_loaded
  loaded-Ensures rounds rid preserve (load_failed e) s = tt
  loaded-Ensures rounds rid preserve (records rs) s =
      recover_each-Ensures true rounds rid preserve rs s

  recover_pending-Ensures :
      (ready : Bool) (rounds : ℕ) (rid : Bytes) (preserve : List Bytes) (s : Seen Op)
      → Ensures discipline (recover_pending ready rounds rid preserve) s Anything
  unfolding recover_pending
  recover_pending-Ensures ready rounds rid preserve s =
      if_both (λ (m : Program Op (Option (List Failure))). Ensures discipline m s Anything)
        (not ready) tt (tt, λ l fits. loaded-Ensures rounds rid preserve l s)

  -- In every world in which the store yields valid records and an unexpected admission carries a
  -- receipt for its operation, each write that RecoverPending asks for is a transition that the journal
  -- accepts; a packet leaves only for the record that was written last, dispatching or closing, and no
  -- more than twice for each durably counted attempt; a failure is counted only for a silent exchange
  -- past the abandon margin; and a record that was sent ends only on a complete reply or on five counted
  -- failures, and is deleted only then.
  pub recover_pending-Follows :
      {W : Type 0} (world : World Op W) (ready : Bool) (rounds : ℕ) (rid : Bytes)
      (preserve : List Bytes) (w : W)
      → ((c : Call Op) (v : W) → Answers c (world c v).0)
      → Follows discipline unseen (run world (recover_pending ready rounds rid preserve) w).events
  recover_pending-Follows world ready rounds rid preserve w answers =
      run-Follows discipline world (recover_pending ready rounds rid preserve) unseen w Anything
        (λ t c v. answers c v) (recover_pending-Ensures ready rounds rid preserve unseen)
