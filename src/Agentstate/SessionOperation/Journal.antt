-- ===== src/Agentstate/SessionOperation/Journal.antt =====
-- session_operation.go: the journal of one protected resource, its validity and its file name.
pub mod Directory
pub mod Store
pub mod Write
pub mod Laws
pub mod Refinement
pub mod CompareSwap
pub mod FileNames
pub mod Scan
pub mod Scanning
pub mod NoneSkipped
pub mod Loads
use qurl_connector.Base.{
  ℕ, ◌+◌, ◌/◌, ◌%◌, Bool, true, false, not, ◌&&◌, ◌||◌, Option, none, some, List, [], ◌∷◌, ◌++◌,
  Bytes, bytes_eq, codes, ◌==◌, leb, ltb, is_empty, if◌then◌else◌, length,
}
use qurl_connector.Base.Int.{ℤ, pos, eqb_ℤ}
use qurl_connector.Strings.{is_trimmed}
use qurl_connector.Agentstate.SessionOperation.{
  OperationApi, SessionOperationRecord, valid_session_operation_record,
}

pub record SessionOperationJournal (Op : Type 0) : Type 0 where
  pub schema : ℤ
  pub protected_resource_id : Bytes
  pub records : List (SessionOperationRecord Op)

-- `encoding/json` over types that hold a qurl-go operation, and SHA-256. `decode_strict` refuses
-- unknown fields and text after the value.
pub record Platform (Op : Type 0) : Type 0 where
  pub marshal_record : SessionOperationRecord Op → Option Bytes
  pub marshal_journal : SessionOperationJournal Op → Option Bytes
  pub decode_strict : Bytes → Option (SessionOperationJournal Op)
  pub sha256 : Bytes → Bytes

abbrev pub journal_schema : ℤ
journal_schema = pos 2

abbrev pub max_records : ℕ
max_records = 8

abbrev pub file_max_bytes : ℕ
file_max_bytes = 65536

-- The sentinels that `errors.Is` tells apart. A list of them is an `error`: nil is empty, and
-- `errors.Join` appends. `cas_lost` wraps the conflict sentinel.
pub data ErrorKind : Type 0 where
  conflict cas_lost corrupt continuity io_error encoding too_large unsafe_shape : ErrorKind

abbrev pub Errors : Type 0
Errors = List ErrorKind

unfoldable pub contains_id : List Bytes → Bytes → Bool
contains_id [] id = false
contains_id (x ∷ xs) id = (x == id) || contains_id xs id

abbrev hex_digit : ℕ → ℕ
hex_digit v = if leb v 9 then v + 48 else v + 87

unfoldable pub hex : Bytes → Bytes
hex [] = []
hex (b ∷ s) = hex_digit (b / 16) ∷ hex_digit (b % 16) ∷ hex s

abbrev pub file_prefix : Bytes
file_prefix = codes "native_session_operation-"

abbrev pub file_suffix : Bytes
file_suffix = codes ".json"

-- `"." + name + ".tmp-" + hex(suffix)`
unfoldable pub temporary_name : Bytes → Bytes → Bytes
unfolding hex
temporary_name name suffix = b'.' ∷ (name ++ (codes ".tmp-" ++ hex suffix))

-- `sessionOperationFileName`; `none` is its conflict error.
unfoldable pub session_operation_file_name : (Bytes → Bytes) → Bytes → Option Bytes
unfolding hex
session_operation_file_name sha256 rid =
    if is_empty rid || (not (is_trimmed rid) || ltb 4096 (length rid))
    then none
    else some (
        file_prefix
        ++ (hex (sha256 (codes "layerv/qurl-connector/native-session-operation/v1" ++ (0 ∷ rid)))
            ++ file_suffix))

unfoldable pub same_encoding : Option Bytes → Option Bytes → Bool
same_encoding (some l) (some r) = l == r
same_encoding _ _ = false

module _ {Op : Type 0} ⦃api : OperationApi Op⦄ where
  -- The loop of `validSessionOperationJournal`; `seen` is the map of operation IDs.
  unfoldable pub valid_records : Bytes → List Bytes → List (SessionOperationRecord Op) → Bool
  unfolding contains_id
  valid_records rid seen [] = true
  valid_records rid seen (r ∷ rs) =
      valid_session_operation_record r
      && ((api.protected_resource_id r.operation == rid)
          && (not (contains_id seen (api.operation_id r.operation))
              && valid_records rid (api.operation_id r.operation ∷ seen) rs))

  unfoldable pub valid_session_operation_journal : SessionOperationJournal Op → Bool
  unfolding valid_records
  valid_session_operation_journal j =
      eqb_ℤ j.schema journal_schema
      && (not (is_empty j.protected_resource_id)
          && (not (is_empty j.records)
              && (leb (length j.records) max_records
                  && valid_records j.protected_resource_id [] j.records)))

  -- An operation of this ID is in the list: the loop of `CreateSessionOperation`.
  unfoldable pub has_operation : List (SessionOperationRecord Op) → Bytes → Bool
  has_operation [] id = false
  has_operation (r ∷ rs) id = (api.operation_id r.operation == id) || has_operation rs id

module _ {Op : Type 0} ⦃platform : Platform Op⦄ where
  unfoldable pub same_session_operation_record :
      SessionOperationRecord Op → SessionOperationRecord Op → Bool
  unfolding same_encoding
  same_session_operation_record l r =
      same_encoding (platform.marshal_record l) (platform.marshal_record r)

  -- `findSessionOperationRecord`; `none` is -1.
  unfoldable pub find_session_operation_record :
      List (SessionOperationRecord Op) → SessionOperationRecord Op → Option ℕ
  find_session_operation_record [] target = none
  find_session_operation_record (r ∷ rs) target =
      let rest : Option ℕ = elim (find_session_operation_record rs target) [
        | none ↦ none
        | some i ↦ some (i + 1)
      ] in
      if same_session_operation_record r target then some 0 else rest
