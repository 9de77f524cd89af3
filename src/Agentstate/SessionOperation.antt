-- ===== src/Agentstate/SessionOperation.antt =====
-- pkg/agentstate/session_operation.go: the record of one native admission, its validity, and the
-- transitions that the journal accepts.
pub mod Host
pub mod Base64
pub mod KeyCheck
pub mod Transition
pub mod Lifecycle
pub mod Journal
use qurl_connector.Base.{
  ℕ, ◌+◌, ◌-◌, ◌%◌, Bool, true, false, not, ◌&&◌, ◌||◌, Option, none, some, Eq, Bytes, bytes_eq,
  nat_eq, ◌==◌, ◌!=◌, ltb, leb, nat_beq, is_empty, same, if◌then◌else◌,
}
use qurl_connector.Base.Int.{ℤ, pos, ltb_ℤ, eqb_ℤ}
use Host.{valid_recovery_endpoint_host}
use Base64.{valid_key}

-- What the code uses of `qurl.NativeSessionOperation`, a type of the qurl-go module.
pub record OperationApi (Op : Type 0) : Type 0 where
  pub operation_id : Op → Bytes
  pub protected_resource_id : Op → Bytes
  pub cell_id : Op → Bytes
  pub run_id : Op → Bytes
  pub run_attempt : Op → ℕ
  pub expires_at_millis : Op → ℤ
  pub operation_eq : Eq Op
  pub marshal : Op → Option Bytes
  pub unmarshal : Bytes → Option Op

-- The fields that the code reads of `qurl.NHPUDPEndpoint`.
pub record Endpoint : Type 0 where
  pub host : Bytes
  pub port : ℕ
  pub server_public_key_b64 : Bytes

pub record SessionOperationAdmission : Type 0 where
  pub cell_id : Bytes
  pub session_id : ℕ  -- uint64
  pub session_issued_at_millis : ℤ  -- int64
  pub run_id : Bytes
  pub run_attempt : ℕ  -- uint64

-- The six status texts; `other` is any other text.
pub data Status : Type 0 where
  prepared dispatching mapped closing canceled closed : Status
  other : Bytes → Status

pub record SessionOperationRecord (Op : Type 0) : Type 0 where
  pub schema : ℤ
  pub operation : Op
  pub recovery_endpoint : Endpoint
  pub status : Status
  pub admission : Option SessionOperationAdmission
  pub recovery_attempt : ℕ  -- uint32
  pub recovery_not_before_milli : ℤ  -- int64
  pub post_expiry_no_reply_attempts : ℕ  -- uint32

abbrev pub record_schema : ℤ
record_schema = pos 2

-- `left.CellID == right.CellID && …`, the `!=` of two receipts.
unfoldable pub admission_eq : SessionOperationAdmission → SessionOperationAdmission → Bool
admission_eq a b =
    (a.cell_id == b.cell_id)
    && ((a.session_id == b.session_id)
        && (eqb_ℤ a.session_issued_at_millis b.session_issued_at_millis
            && ((a.run_id == b.run_id) && (a.run_attempt == b.run_attempt))))

unfoldable pub valid_recovery_endpoint : Endpoint → Bool
valid_recovery_endpoint e =
    valid_recovery_endpoint_host e.host && (e.port == 443 && valid_key e.server_public_key_b64)

-- `previous.Admission != nil && (next.Admission == nil || *previous.Admission != *next.Admission)`
-- is the negation.
unfoldable pub keeps_admission :
    Option SessionOperationAdmission → Option SessionOperationAdmission → Bool
keeps_admission none next = true
keeps_admission (some a) none = false
keeps_admission (some a) (some b) = admission_eq a b

abbrev pub is_none {ℓ} : {A : Type ℓ} → Option A → Bool
is_none none = true
is_none (some a) = false

-- The `switch previous.Status` of `validSessionOperationTransition`.
unfoldable pub allowed_next : Status → Status → Bool
allowed_next prepared dispatching = true
allowed_next prepared canceled = true
allowed_next dispatching dispatching = true
allowed_next dispatching mapped = true
allowed_next dispatching canceled = true
allowed_next dispatching closing = true
allowed_next dispatching closed = true
allowed_next mapped closing = true
allowed_next mapped closed = true
allowed_next closing closing = true
allowed_next closing closed = true
allowed_next p n = false

-- uint32 subtraction.
abbrev pub sub32 : ℕ → ℕ → ℕ
sub32 a b = (a + 4294967296 - b) % 4294967296

abbrev pub prepared_record : {Op : Type 0} → Op → Endpoint → SessionOperationRecord Op
prepared_record op endpoint = record {
  schema = record_schema;
  operation = op;
  recovery_endpoint = endpoint;
  status = prepared;
  admission = none;
  recovery_attempt = 0;
  recovery_not_before_milli = pos 0;
  post_expiry_no_reply_attempts = 0;
}

module _ {Op : Type 0} where
  -- `validSessionOperationRecoveryProgress`
  unfoldable pub valid_recovery_progress :
      SessionOperationRecord Op → SessionOperationRecord Op → Bool
  valid_recovery_progress p n =
      let attempts = sub32 n.recovery_attempt p.recovery_attempt in
      let failures = sub32 n.post_expiry_no_reply_attempts p.post_expiry_no_reply_attempts in
      if ltb n.recovery_attempt p.recovery_attempt
        || (ltb_ℤ n.recovery_not_before_milli p.recovery_not_before_milli
            || ltb n.post_expiry_no_reply_attempts p.post_expiry_no_reply_attempts)
      then false
      else if nat_beq attempts 0 && nat_beq failures 0
      then eqb_ℤ n.recovery_not_before_milli p.recovery_not_before_milli
      else if (nat_beq attempts 1 && nat_beq failures 0)
          || (nat_beq attempts 0 && nat_beq failures 1)
      then ltb_ℤ p.recovery_not_before_milli n.recovery_not_before_milli
      else false

module _ {Op : Type 0} ⦃api : OperationApi Op⦄ where
  -- `json.Unmarshal(raw, &checked) == nil && checked == operation`
  unmarshals_to : Option Bytes → Op → Bool
  unmarshals_to none op = false
  unmarshals_to (some raw) op = elim (api.unmarshal raw) [
    | none ↦ false
    | some checked ↦ api.operation_eq.equals checked op
  ]

  unfoldable pub valid_operation : Op → Bool
  unfolding unmarshals_to
  valid_operation op = not (is_empty (api.operation_id op)) && unmarshals_to (api.marshal op) op

  unfoldable pub valid_session_operation_admission : Option SessionOperationAdmission → Op → Bool
  valid_session_operation_admission none op = false
  valid_session_operation_admission (some a) op =
      (a.cell_id == api.cell_id op)
      && (not (nat_beq a.session_id 0)
          && (ltb_ℤ (pos 0) a.session_issued_at_millis
              && ((a.run_id == api.run_id op) && (a.run_attempt == api.run_attempt op))))

  -- The `switch record.Status` of `validSessionOperationRecord`.
  unfoldable pub admission_fits : Status → Option SessionOperationAdmission → Op → Bool
  admission_fits prepared a op = is_none a
  admission_fits dispatching a op = is_none a
  admission_fits mapped a op = valid_session_operation_admission a op
  admission_fits closing a op = valid_session_operation_admission a op
  admission_fits closed a op = valid_session_operation_admission a op
  admission_fits canceled a op = is_none a
  admission_fits (other t) a op = false

  -- The guard of `validSessionOperationRecord`.
  unfoldable pub valid_fields : SessionOperationRecord Op → Bool
  valid_fields r =
      eqb_ℤ r.schema record_schema
      && (valid_operation r.operation
          && (valid_recovery_endpoint r.recovery_endpoint
              && (same (nat_beq r.recovery_attempt 0) (eqb_ℤ r.recovery_not_before_milli (pos 0))
                  && (not (ltb_ℤ r.recovery_not_before_milli (pos 0))
                      && leb r.post_expiry_no_reply_attempts r.recovery_attempt))))

  unfoldable pub valid_session_operation_record : SessionOperationRecord Op → Bool
  valid_session_operation_record r =
      valid_fields r && admission_fits r.status r.admission r.operation

  unfoldable pub valid_session_operation_transition :
      SessionOperationRecord Op → SessionOperationRecord Op → Bool
  valid_session_operation_transition p n =
      valid_session_operation_record p
      && (valid_session_operation_record n
          && (eqb_ℤ p.schema n.schema
              && (api.operation_eq.equals p.operation n.operation
                  && (keeps_admission p.admission n.admission
                      && (valid_recovery_progress p n && allowed_next p.status n.status)))))

  -- `NewSessionOperationRecord`: `none` is its conflict error.
  unfoldable pub new_session_operation_record : Op → Endpoint → Option (SessionOperationRecord Op)
  new_session_operation_record op endpoint =
      if not (valid_operation op)
      then none
      else if not (valid_recovery_endpoint endpoint)
      then none
      else some (prepared_record op endpoint)
