-- ===== src/Share/SessionOperation/Dispatch.antt =====
-- session_operation.go: PrepareDispatch, RecordMapped and Retire, the ends of an admission that the
-- cycle calls.
use qurl_connector.Base.{ℕ, Bool, not, ◌||◌, true, false, Option, none, some, Bytes, if◌then◌else◌}
use qurl_connector.Base.Int.{ℤ, pos, ◌+ℤ◌}
use qurl_connector.Agentstate.SessionOperation.{
  OperationApi, Endpoint, SessionOperationRecord, SessionOperationAdmission, Status, dispatching,
  mapped, closing, closed, admission_eq, new_session_operation_record,
}
use qurl_connector.Share.SessionOperation.{
  Error, Failure, incomplete_runtime, store, dispatch_changed, prepare_failed, invalid_record,
  receipt_mismatch, NativeSessionReceipt, admission_from_receipt, session_operation_lifetime,
}
use qurl_connector.Share.SessionOperation.Program.{
  load, create, transition, clock, prepare, OperationInput, Loaded, records, load_failed, Program,
  finish, ask,
}
use qurl_connector.Share.SessionOperation.Recover.Settle.{find_operation}
use qurl_connector.Share.SessionOperation.Recover.Judge.{is_dispatching, mapped_record}
use qurl_connector.Share.SessionOperation.Recover.{recover_operation}

-- What PrepareDispatch returns.
pub data Prepared (Op : Type 0) : Type 0 where
  ready_to_send : Op → Prepared Op
  not_prepared : Failure → Prepared Op

-- What identifies the admission.
pub record Request : Type 0 where
  pub owner_id : Bytes
  pub knock_resource_id : Bytes
  pub protected_resource_id : Bytes
  pub run_id : Bytes
  pub run_attempt : ℕ

-- The input of `PrepareLiveNativeSessionOperation`.
abbrev pub operation_input : Request → ℤ → OperationInput
operation_input q now = record {
  expires_at_millis = now +ℤ pos session_operation_lifetime;
  owner_id = q.owner_id;
  prepared_at_millis = now;
  protected_resource_id = q.protected_resource_id;
  resource_id = q.knock_resource_id;
  run_attempt = q.run_attempt;
  run_id = q.run_id;
}

abbrev pub write_result : Option Error → Option Failure
write_result none = none
write_result (some e) = some (store e)

-- The guard of `Retire` on the status.
abbrev pub is_retirable : Status → Bool
is_retirable mapped = true
is_retirable closing = true
is_retirable closed = true
is_retirable s = false

-- `record.Admission == nil || *record.Admission != *admissionFromReceipt(receipt)` is the negation.
unfoldable pub holds_receipt : Option SessionOperationAdmission → NativeSessionReceipt → Bool
holds_receipt none receipt = false
holds_receipt (some a) receipt = admission_eq a (admission_from_receipt receipt)

module _ {Op : Type 0} ⦃api : OperationApi Op⦄ where
  unfoldable pub dispatch_written :
      SessionOperationRecord Op → Option Error → Program Op (Prepared Op)
  dispatch_written r none = finish (ready_to_send r.operation)
  dispatch_written r (some e) = finish (not_prepared (store e))

  unfoldable pub created : SessionOperationRecord Op → Option Error → Program Op (Prepared Op)
  unfolding dispatch_written
  created r none = ask (transition r (record r { status = dispatching })) (dispatch_written r)
  created r (some e) = finish (not_prepared (store e))

  unfoldable pub create_prepared : Option (SessionOperationRecord Op) → Program Op (Prepared Op)
  unfolding created
  create_prepared none = finish (not_prepared invalid_record)
  create_prepared (some r) = ask (create r) (created r)

  unfoldable pub live_prepared : Option (Op × Endpoint) → Program Op (Prepared Op)
  unfolding create_prepared
  live_prepared none = finish (not_prepared prepare_failed)
  live_prepared (some (op, endpoint)) = create_prepared (new_session_operation_record op endpoint)

  -- `PrepareDispatch`
  unfoldable pub prepare_dispatch : Bool → Request → Program Op (Prepared Op)
  unfolding live_prepared
  prepare_dispatch ready q =
      if not ready
      then finish (not_prepared incomplete_runtime)
      else ask clock (λ now. ask (prepare (operation_input q now)) live_prepared)

  unfoldable pub map_found :
      Op → NativeSessionReceipt → Option (SessionOperationRecord Op) → Program Op (Option Failure)
  map_found op receipt none = finish (some dispatch_changed)
  map_found op receipt (some r) =
      if not (is_dispatching r.status) || not (api.operation_eq.equals r.operation op)
      then finish (some dispatch_changed)
      else ask (transition r (mapped_record r receipt)) (λ e. finish (write_result e))

  unfoldable pub map_loaded : Op → NativeSessionReceipt → Loaded Op → Program Op (Option Failure)
  unfolding map_found find_operation
  map_loaded op receipt (load_failed e) = finish (some (store e))
  map_loaded op receipt (records rs) =
      map_found op receipt (find_operation rs (api.operation_id op))

  -- `RecordMapped`
  unfoldable pub record_mapped : Bytes → Op → NativeSessionReceipt → Program Op (Option Failure)
  unfolding map_loaded
  record_mapped rid op receipt = ask (load rid) (map_loaded op receipt)

  unfoldable pub retire_found :
      Bool
      → ℕ
      → Bytes
      → Bytes
      → NativeSessionReceipt
      → Option (SessionOperationRecord Op)
      → Program Op (Option (Option Failure))
  unfolding recover_operation holds_receipt
  retire_found ready rounds rid id receipt none = finish (some none)
  retire_found ready rounds rid id receipt (some r) =
      if not (is_retirable r.status) || not (holds_receipt r.admission receipt)
      then finish (some (some receipt_mismatch))
      else recover_operation ready rounds rid id

  unfoldable pub retire_loaded :
      Bool
      → ℕ
      → Bytes
      → Bytes
      → NativeSessionReceipt
      → Loaded Op
      → Program Op (Option (Option Failure))
  unfolding retire_found find_operation
  retire_loaded ready rounds rid id receipt (load_failed e) = finish (some (some (store e)))
  retire_loaded ready rounds rid id receipt (records rs) =
      retire_found ready rounds rid id receipt (find_operation rs id)

  -- `Retire`
  unfoldable pub retire :
      Bool → ℕ → Bytes → Bytes → NativeSessionReceipt → Program Op (Option (Option Failure))
  unfolding retire_loaded
  retire ready rounds rid id receipt = ask (load rid) (retire_loaded ready rounds rid id receipt)
