-- ===== src/Share/SessionOperation.antt =====
-- pkg/share/session_operation.go: the driver of the durable session operations. It decides what is
-- written to the journal, and when a packet may leave. Error texts are left out; an error keeps what
-- `errors.Is`, `errors.As` and `errors.Unwrap` can find in it.
pub mod Backoff
pub mod Advance
pub mod Program
pub mod Recover
pub mod Dispatch
pub mod Protocol
pub mod Accepted
pub mod Discipline
pub mod Preparing
pub mod Mapping
pub mod Retiring
pub mod SoleWriter
pub mod Overtaken
use qurl_connector.Base.{
  ℕ, suc, ◌*◌, ◌+◌, ◌-◌, Bool, true, false, not, ◌&&◌, ◌||◌, Option, none, some, List, [], ◌∷◌,
  Bytes, bytes_eq, ◌==◌, ◌!=◌, nat_beq, ltb, is_empty, length, any, if◌then◌else◌,
}
use qurl_connector.Base.Int.{ℤ, pos, eqb_ℤ, leb_ℤ, ltb_ℤ, ◌+ℤ◌, max_int64}
use qurl_connector.Strings.{is_trimmed}
use qurl_connector.Agentstate.SessionOperation.{
  OperationApi, Endpoint, SessionOperationAdmission, SessionOperationRecord,
  valid_recovery_endpoint,
}

-- Milliseconds.
abbrev pub session_operation_lifetime : ℕ
session_operation_lifetime = 1200000

abbrev pub recovery_abandon_margin : ℕ
recovery_abandon_margin = 300000

abbrev pub recovery_abandon_attempts : ℕ
recovery_abandon_attempts = 5

-- The fields of `qurl.NativeSessionReceipt` that the code reads.
pub record NativeSessionReceipt : Type 0 where
  pub cell_id : Bytes
  pub session_id : ℕ
  pub session_issued_at_millis : ℤ
  pub run_id : Bytes
  pub run_attempt : ℕ

-- What the code finds in the error of an exchange: a field for each sentinel of `errors.Is`, and the
-- typed errors of `errors.As`, the second with its receipt.
pub record ExchangeError : Type 0 where
  pub canceled : Bool
  pub deadline_exceeded : Bool
  pub endpoint_no_reply : Bool
  pub no_reply : Bool
  pub transport : Bool
  pub resolve : Bool
  pub server_unauthenticated : Bool
  pub server_deny : Bool
  pub unexpected_admission : Option NativeSessionReceipt

-- `qurl.NativeSessionOperationRecovery`
pub record Recovery : Type 0 where
  pub complete : Bool
  pub unexpected_admission : Option NativeSessionReceipt

-- What `qurl.RecoverNativeSessionOperation` returns.
pub record Exchange : Type 0 where
  pub result : Option Recovery
  pub error : Option ExchangeError

-- An `error` of the store: a sentinel, an error with one cause, or `errors.Join`.
mutual
  pub data Error : Type 0 where
    cas_lost : Error  -- `agentstate.ErrSessionOperationCASLost` itself
    plain : Error  -- any error with no cause
    wrapped : Error → Error
    joined : Causes → Error

  pub data Causes : Type 0 where
    nil : Causes
    cons : Error → Causes → Causes

-- `onlySessionOperationCASLoss`
unfoldable mutual
  pub only_cas_loss : Error → Bool
  only_cas_loss cas_lost = true
  only_cas_loss plain = false
  only_cas_loss (wrapped e) = only_cas_loss e
  only_cas_loss (joined nil) = false
  only_cas_loss (joined (cons e es)) = only_cas_loss e && all_cas_loss es

  pub all_cas_loss : Causes → Bool
  all_cas_loss nil = true
  all_cas_loss (cons e es) = only_cas_loss e && all_cas_loss es

-- The errors that the driver returns.
pub data Failure : Type 0 where
  incomplete_runtime : Failure
  store : Error → Failure
  store_twice : Error → Error → Failure  -- `errors.Join` of a write's and a reload's
  not_monotonic : Failure
  unsupported_state : Failure
  deferred : ℤ → Failure
  wait_failed : Failure
  attempts_exhausted : Failure
  deadline_exhausted : Failure
  failures_exhausted : Failure
  exchange_failed : ExchangeError → Failure
  refence_failed : ExchangeError → Option ExchangeError → Failure
  receipt_incomplete : Failure
  admitted_elsewhere : Failure
  no_result : Failure
  dispatch_changed : Failure
  prepare_failed : Failure
  invalid_record : Failure
  receipt_mismatch : Failure

abbrev pub is_some {ℓ} : {A : Type ℓ} → Option A → Bool
is_some none = false
is_some (some a) = true

-- `isNativeSessionNoReplyError` on an error that is not nil.
unfoldable pub no_reply_error : ExchangeError → Bool
no_reply_error e =
    if e.canceled
    then false
    else if e.server_deny || is_some e.unexpected_admission
    then false
    else e.endpoint_no_reply
      || (e.no_reply
          || (e.transport || (e.resolve || (e.server_unauthenticated || e.deadline_exceeded))))

-- `isNativeSessionCountableSilence` on an error that is not nil.
unfoldable pub countable_error : ExchangeError → Bool
unfolding no_reply_error
countable_error e =
    if not (no_reply_error e)
    then false
    else e.endpoint_no_reply || (e.no_reply || (e.server_unauthenticated || e.deadline_exceeded))

unfoldable pub is_no_reply_error : Option ExchangeError → Bool
unfolding no_reply_error
is_no_reply_error none = false
is_no_reply_error (some e) = no_reply_error e

unfoldable pub is_countable_silence : Option ExchangeError → Bool
unfolding countable_error
is_countable_silence none = false
is_countable_silence (some e) = countable_error e

-- `nativeSessionEndpointAnswered`
unfoldable pub endpoint_answered : Option Recovery → Option ExchangeError → Bool
endpoint_answered r none = is_some r
endpoint_answered r (some e) = e.server_deny || is_some e.unexpected_admission

-- `sameNativeSessionReceipt`
unfoldable pub same_receipt : Option NativeSessionReceipt → NativeSessionReceipt → Bool
same_receipt none b = false
same_receipt (some a) b =
    (a.cell_id == b.cell_id)
    && (nat_beq a.session_id b.session_id
        && (eqb_ℤ a.session_issued_at_millis b.session_issued_at_millis
            && ((a.run_id == b.run_id) && nat_beq a.run_attempt b.run_attempt)))

-- `admissionFromReceipt`
unfoldable pub admission_from_receipt : NativeSessionReceipt → SessionOperationAdmission
admission_from_receipt r = record {
  cell_id = r.cell_id;
  session_id = r.session_id;
  session_issued_at_millis = r.session_issued_at_millis;
  run_id = r.run_id;
  run_attempt = r.run_attempt;
}

-- `qurl.AgentAssignment`, the runtime's live placement.
pub record Assignment : Type 0 where
  pub cell_id : Bytes
  pub endpoint : Endpoint

unfoldable pub endpoint_eq : Endpoint → Endpoint → Bool
endpoint_eq a b =
    (a.host == b.host)
    && (nat_beq a.port b.port && (a.server_public_key_b64 == b.server_public_key_b64))

-- `ValidateNativeSessionOperationAuthority` of the owner ID.
unfoldable pub validate_authority : Bytes → Bool
validate_authority owner = not (
    is_empty owner
    || (ltb 256 (length owner)
        || (not (is_trimmed owner)
            || any (λ c. nat_beq c 13 || (nat_beq c 10 || nat_beq c 0)) owner)))

module _ {Op : Type 0} ⦃api : OperationApi Op⦄ where
  -- `nativeSessionOperationPastAbandonMargin`; `now` is `now.UnixMilli()`.
  unfoldable pub past_abandon_margin : Op → ℤ → Bool
  past_abandon_margin op now =
      let expiry = api.expires_at_millis op in
      ltb_ℤ (pos 0) expiry
      && (leb_ℤ expiry (pos (max_int64 - recovery_abandon_margin))
          && ltb_ℤ (expiry +ℤ pos recovery_abandon_margin) now)

  -- `nativeSessionRefenceEndpoint`; `none` is its `false`.
  unfoldable pub refence_endpoint : Assignment → SessionOperationRecord Op → Option Endpoint
  refence_endpoint current r =
      if is_empty current.cell_id
        || ((current.cell_id != api.cell_id r.operation)
            || (endpoint_eq current.endpoint r.recovery_endpoint
                || not (valid_recovery_endpoint current.endpoint)))
      then none
      else some current.endpoint
