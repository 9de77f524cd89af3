-- ===== src/Share/SessionOperation/Recover.antt =====
-- session_operation.go: RecoverOperation, by the stages of a round of its loop, and RecoverPending. `Next`
-- says how a stage ends. The loop runs on fuel, one for each round.
pub mod Settle
pub mod Refence
pub mod Judge
use qurl_connector.Base.{
  ℕ, zero, suc, ◌+◌, ◌-◌, ◌*◌, ◌/◌, ◌%◌, ◌<◌, Bool, true, false, not, ◌&&◌, ◌||◌, Option, none,
  some, List, [], ◌∷◌, ◌++◌, Bytes, bytes_eq, ◌==◌, nat_beq, ltb, leb, is_empty, any, length,
  if◌then◌else◌,
}
use qurl_connector.Base.Int.{ℤ, pos, eqb_ℤ, leb_ℤ, ltb_ℤ, ◌+ℤ◌, ◌-ℤ◌, max_int64}
use qurl_connector.Agentstate.SessionOperation.{
  OperationApi, Endpoint, SessionOperationRecord, Status, prepared, dispatching, mapped, closing,
  canceled, closed, other, is_none,
}
use qurl_connector.Share.SessionOperation.{
  Error, Failure, incomplete_runtime, store, store_twice, not_monotonic, unsupported_state,
  deferred, wait_failed, attempts_exhausted, deadline_exhausted, failures_exhausted,
  exchange_failed, refence_failed, receipt_incomplete, admitted_elsewhere, no_result, Exchange,
  ExchangeError, Recovery, NativeSessionReceipt, only_cas_loss, is_no_reply_error,
  is_countable_silence, endpoint_answered, same_receipt, admission_from_receipt,
  past_abandon_margin, refence_endpoint, is_some, recovery_abandon_attempts, no_reply_error,
  Assignment,
}
use qurl_connector.Share.SessionOperation.Backoff.{
  recovery_backoff, no_reply_backoff, recovery_max_delay, no_reply_max_delay,
}
use qurl_connector.Share.SessionOperation.Advance.{monotonic_advance}
use qurl_connector.Share.SessionOperation.Program.{
  Call, load, create, transition, delete, clock, wait, context_err, assignment, exchange, Loaded,
  records, load_failed, Program, finish, ask, ◌>>=◌, ◌>>>◌, Next, leave, again, proceed,
}
use qurl_connector.Share.SessionOperation.Recover.Settle.{
  Reconciled, complete, reload, refused, after_reconcile, find_operation, reconcile, or_reconcile,
  delete_record, settle, settle_loaded, pace, next_deadline, attempt_record, begin_attempt,
}
use qurl_connector.Share.SessionOperation.Recover.Refence.{Outcome, refenced, pinned_replied}
use qurl_connector.Share.SessionOperation.Recover.Judge.{finish_operation, judge}

abbrev pub join_failure : Option (Option Failure) → Option (List Failure) → Option (List Failure)
join_failure none rest = none
join_failure (some r) none = none
join_failure (some none) (some fs) = some fs
join_failure (some (some f)) (some fs) = some (f ∷ fs)

module _ {Op : Type 0} ⦃api : OperationApi Op⦄ where
  -- One round of the loop.
  unfoldable pub round : Bytes → Bytes → Program Op (Next (Unit {0}))
  unfolding settle_loaded pace begin_attempt pinned_replied judge
  round rid id = ask (load rid) (λ l. settle_loaded rid id l >>> λ r. ask clock (λ now.
      pace r now >>> λ later. begin_attempt rid r later >>> λ a.
      ask (exchange a.operation a.recovery_endpoint) (λ x. pinned_replied rid a x >>> judge rid)))

  abbrev pub after_round :
      Program Op (Option (Option Failure)) → Next (Unit {0}) → Program Op (Option (Option Failure))
  after_round rest (leave r) = finish (some r)
  after_round rest again = rest
  after_round rest (proceed u) = rest

  -- The loop; `none` when the rounds ran out.
  unfoldable pub recover : ℕ → Bytes → Bytes → Program Op (Option (Option Failure))
  unfolding round
  recover zero rid id = finish none
  recover (suc rounds) rid id =
      let rest = recover rounds rid id in round rid id >>= after_round rest

  -- `RecoverOperation`; `ready` is the test on the context, the binding and the private key.
  unfoldable pub recover_operation : Bool → ℕ → Bytes → Bytes → Program Op (Option (Option Failure))
  unfolding recover
  recover_operation ready rounds rid id =
      if not ready || is_empty id
      then finish (some (some incomplete_runtime))
      else recover rounds rid id

  -- The loop of `RecoverPending`; `preserve` are the operation IDs that it keeps.
  unfoldable pub recover_each :
      Bool
      → ℕ
      → Bytes
      → List Bytes
      → List (SessionOperationRecord Op)
      → Program Op (Option (List Failure))
  unfolding recover_operation
  recover_each ready rounds rid preserve [] = finish (some [])
  recover_each ready rounds rid preserve (r ∷ rs) =
      let rest = recover_each ready rounds rid preserve rs in
      if any (λ id. id == api.operation_id r.operation) preserve
      then rest
      else recover_operation ready rounds rid (api.operation_id r.operation) >>= λ first.
          rest >>= λ others. finish (join_failure first others)

  unfoldable pub recover_loaded :
      ℕ → Bytes → List Bytes → Loaded Op → Program Op (Option (List Failure))
  unfolding recover_each
  recover_loaded rounds rid preserve (load_failed e) = finish (some (store e ∷ []))
  recover_loaded rounds rid preserve (records rs) = recover_each true rounds rid preserve rs

  -- `RecoverPending`
  unfoldable pub recover_pending :
      Bool → ℕ → Bytes → List Bytes → Program Op (Option (List Failure))
  unfolding recover_loaded
  recover_pending ready rounds rid preserve =
      if not ready
      then finish (some (incomplete_runtime ∷ []))
      else ask (load rid) (recover_loaded rounds rid preserve)
