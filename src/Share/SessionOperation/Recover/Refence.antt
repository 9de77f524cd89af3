-- ===== src/Share/SessionOperation/Recover/Refence.antt =====
-- session_operation.go: the exchanges of one attempt, with the pinned endpoint and, when it is silent,
-- with the current one of the same cell.
use qurl_connector.Base.{Bool, false, ◌&&◌, Option, none, some, Bytes, bytes_eq, if◌then◌else◌}
use qurl_connector.Agentstate.SessionOperation.{OperationApi, Endpoint, SessionOperationRecord}
use qurl_connector.Share.SessionOperation.{
  Error, store, refence_failed, Exchange, ExchangeError, is_no_reply_error, is_countable_silence,
  endpoint_answered, refence_endpoint, is_some, no_reply_error,
}
use qurl_connector.Share.SessionOperation.Program.{
  transition, context_err, assignment, exchange, Program, finish, ask, ◌>>=◌, Next, leave, proceed,
}
use qurl_connector.Share.SessionOperation.Recover.Settle.{after_reconcile, reconcile}

-- The outcome of the exchanges of one attempt.
pub record Outcome (Op : Type 0) : Type 0 where
  pub held : SessionOperationRecord Op
  pub reply : Exchange
  pub countable : Bool

-- `errors.As` finds an unexpected admission.
abbrev pub admits : Option ExchangeError → Bool
admits none = false
admits (some e) = is_some e.unexpected_admission

module _ {Op : Type 0} ⦃api : OperationApi Op⦄ where
  abbrev pub pinned_outcome : SessionOperationRecord Op → Exchange → Outcome Op
  pinned_outcome r x = record { held = r; reply = x; countable = is_countable_silence x.error }

  -- The moved endpoint's write has returned.
  unfoldable pub move_written :
      Bytes
      → SessionOperationRecord Op
      → SessionOperationRecord Op
      → Exchange
      → Option Error
      → Program Op (Next (Outcome Op))
  unfolding reconcile
  move_written rid r moved y none =
      finish
        (proceed (record { held = moved; reply = y; countable = is_countable_silence y.error }))
  move_written rid r moved y (some e) =
      if admits y.error
      then finish (leave (some (store e)))
      else reconcile rid r e >>= λ x. finish (after_reconcile x)

  -- The `switch` on the exchange with the current endpoint. `e` is the pinned endpoint's silence.
  unfoldable pub refenced :
      Bytes
      → SessionOperationRecord Op
      → Endpoint
      → Exchange
      → ExchangeError
      → Exchange
      → Program Op (Next (Outcome Op))
  unfolding move_written
  refenced rid r current x e y =
      let moved : SessionOperationRecord Op = record r { recovery_endpoint = current } in
      let lost : Program Op (Next (Outcome Op)) =
        ask context_err (λ gone. finish (leave (some (refence_failed e y.error)))) in
      if endpoint_answered y.result y.error
      then ask context_err
          (λ gone. if gone then lost else ask (transition r moved) (move_written rid r moved y))
      else if is_no_reply_error y.error
      then ask context_err (λ gone.
        if gone
        then lost
        else finish (
            proceed (record {
              held = r;
              reply = x;
              countable = is_countable_silence x.error && is_countable_silence y.error;
            })))
      else lost

  -- One more exchange, if the cell has another endpoint.
  unfoldable pub refence :
      Bytes
      → SessionOperationRecord Op
      → Exchange
      → ExchangeError
      → Option Endpoint
      → Program Op (Next (Outcome Op))
  unfolding refenced
  refence rid r x e none = finish (proceed (pinned_outcome r x))
  refence rid r x e (some endpoint) =
      ask (exchange r.operation endpoint) (refenced rid r endpoint x e)

  unfoldable pub pinned_failed :
      Bytes
      → SessionOperationRecord Op
      → Exchange
      → Option ExchangeError
      → Program Op (Next (Outcome Op))
  unfolding refence
  pinned_failed rid r x none = finish (proceed (pinned_outcome r x))
  pinned_failed rid r x (some e) =
      if no_reply_error e
      then ask context_err (λ gone.
        if gone
        then finish (proceed (pinned_outcome r x))
        else ask assignment (λ current. refence rid r x e (refence_endpoint current r)))
      else finish (proceed (pinned_outcome r x))

  -- The exchange with the pinned endpoint is over.
  unfoldable pub pinned_replied :
      Bytes → SessionOperationRecord Op → Exchange → Program Op (Next (Outcome Op))
  unfolding pinned_failed
  pinned_replied rid r x = pinned_failed rid r x x.error
