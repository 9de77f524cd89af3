-- ===== src/Agentstate/SessionOperation/Journal/Scan.antt =====
-- session_operation.go: LoadSessionOperations, and ScanSessionOperationResources with its cleanup.
use qurl_connector.Base.{
  ℕ, Bool, true, false, not, ◌&&◌, ◌||◌, Option, none, some, List, [], ◌∷◌, ◌++◌, Bytes, bytes_eq,
  ◌==◌, ltb, length, if◌then◌else◌,
}
use qurl_connector.Base.Maps.{lookup, erase}
use qurl_connector.Base.Sort.{sort_by, bytes_ltb}
use qurl_connector.Agentstate.SessionOperation.{OperationApi, SessionOperationRecord}
use qurl_connector.Agentstate.SessionOperation.Journal.{
  Platform, Errors, ErrorKind, conflict, corrupt, io_error, session_operation_file_name,
}
use qurl_connector.Agentstate.SessionOperation.Journal.Directory.{
  Directory, Entry, Loaded, absent, present, failed, ReadIo, error_if,
  load_session_operation_journal,
}
use qurl_connector.Agentstate.SessionOperation.Journal.Store.{LockIo, with_namespace_lock}
use qurl_connector.Agentstate.SessionOperation.Journal.FileNames.{
  valid_session_operation_file_name, valid_session_operation_temporary_file_name,
}

abbrev pub max_state_files : ℕ
max_state_files = 4096

-- `SessionOperationResourceScan`
pub record SessionOperationResourceScan : Type 0 where
  pub resource_ids : List Bytes
  pub permanent_error : Errors
  pub retryable_error : Errors

-- What the operating system may refuse in a scan, by the name of the file.
pub record ScanIo : Type 0 where
  pub list_fails : Bool
  pub reads : Bytes → ReadIo
  pub stat_fails : Bytes → Bool
  pub remove_fails : Bytes → Bool
  pub sync_fails : Bool
  pub discontinuous : Bool

-- What one name adds to the scan.
pub data Finding : Type 0 where
  resource_found : Bytes → Finding
  permanent : Errors → Finding
  retryable : Errors → Finding
  removed_temporary : Finding
  ignored : Finding

abbrev is_corrupt : ErrorKind → Bool
is_corrupt corrupt = true
is_corrupt _ = false

unfoldable pub wraps_corrupt : Errors → Bool
wraps_corrupt [] = false
wraps_corrupt (e ∷ es) = is_corrupt e || wraps_corrupt es

unfoldable pub file_names : Directory → List Bytes
file_names [] = []
file_names ((name, e) ∷ dir) = name ∷ file_names dir

-- `namespace.ReadDirNames`
unfoldable pub read_dir_names : Bool → Directory → Option (List Bytes)
unfolding file_names
read_dir_names fails dir =
    if fails || ltb max_state_files (length dir)
    then none
    else some (sort_by bytes_ltb (file_names dir))

-- The state of the scan's loop: the scan, the directory, and `removedTemporary`.
pub record ScanLoop : Type 0 where
  pub scan : SessionOperationResourceScan
  pub dir : Directory
  pub removed : Bool

abbrev pub empty_scan : SessionOperationResourceScan
empty_scan = record { resource_ids = []; permanent_error = []; retryable_error = [] }

unfoldable pub add_finding : Finding → SessionOperationResourceScan → SessionOperationResourceScan
add_finding (resource_found rid) scan = record scan { resource_ids = scan.resource_ids ++ rid ∷ [] }
add_finding (permanent e) scan = record scan { permanent_error = scan.permanent_error ++ e }
add_finding (retryable e) scan = record scan { retryable_error = scan.retryable_error ++ e }
add_finding removed_temporary scan = scan
add_finding ignored scan = scan

-- The case of a temporary file.
unfoldable pub remove_orphan : ScanIo → Bytes → Option Entry → Finding
remove_orphan io name none = retryable (io_error ∷ [])
remove_orphan io name (some e) =
    if io.stat_fails name
    then retryable (io_error ∷ [])
    else if e.symlink || not e.regular
    then permanent (corrupt ∷ [])
    else if io.remove_fails name
    then retryable (io_error ∷ [])
    else removed_temporary

unfoldable pub is_removal : Finding → Bool
is_removal removed_temporary = true
is_removal _ = false

-- The end of the scan: the sync after a removal, and the last check.
unfoldable pub end_scan : ScanIo → ScanLoop → SessionOperationResourceScan
end_scan io l = record l.scan {
  retryable_error =
      l.scan.retryable_error
      ++ (error_if (l.removed && io.sync_fails) ++ error_if io.discontinuous);
}

unfoldable pub file_name_is : Option Bytes → Bytes → Bool
file_name_is none name = false
file_name_is (some expected) name = expected == name

-- The error of `sessionOperationFileName`, which is joined to the mismatch.
unfoldable pub name_errors : Option Bytes → Errors
name_errors none = conflict ∷ []
name_errors (some expected) = []

unfoldable pub scan_step : Finding → Bytes → ScanLoop → ScanLoop
unfolding add_finding is_removal
scan_step f name l = record {
  scan = add_finding f l.scan;
  dir = if is_removal f then erase name l.dir else l.dir;
  removed = is_removal f || l.removed;
}

abbrev pub start_scan : Directory → ScanLoop
start_scan dir = record { scan = empty_scan; dir = dir; removed = false }

-- The records that a load of the journal returns, before the checks of the lock.
unfoldable pub records_loaded :
    {Op : Type 0} → Bytes → Loaded Op → List (SessionOperationRecord Op) × Errors
records_loaded rid (failed e) = ([], e)
records_loaded rid absent = ([], [])
records_loaded rid (present j) =
    if not (j.protected_resource_id == rid) then ([], conflict ∷ []) else (j.records, [])

module _ {Op : Type 0} ⦃api : OperationApi Op⦄ ⦃platform : Platform Op⦄ where
  -- `LoadSessionOperations`
  unfoldable pub load_session_operations :
      LockIo → ReadIo → Bytes → Directory → List (SessionOperationRecord Op) × Errors
  unfolding records_loaded with_namespace_lock
  load_session_operations lock read rid dir =
      elim (session_operation_file_name platform.sha256 rid) [
        | none ↦ ([], conflict ∷ [])
        | some name ↦
            with_namespace_lock lock
              (λ none_yet. records_loaded rid (load_session_operation_journal read dir name)) []
      ]

  -- The case of a journal file.
  unfoldable pub judge_journal : Bytes → Loaded Op → Finding
  unfolding file_name_is name_errors wraps_corrupt
  judge_journal name (failed e) = if wraps_corrupt e then permanent e else retryable e
  judge_journal name absent = retryable (conflict ∷ [])
  judge_journal name (present j) =
      if file_name_is (session_operation_file_name platform.sha256 j.protected_resource_id) name
      then resource_found j.protected_resource_id
      else permanent (
          corrupt
          ∷ name_errors (session_operation_file_name platform.sha256 j.protected_resource_id))

module _ (Op : Type 0) ⦃api : OperationApi Op⦄ ⦃platform : Platform Op⦄ where
  -- The switch on one name.
  unfoldable pub scan_name : ScanIo → Directory → Bytes → Finding
  unfolding judge_journal remove_orphan
  scan_name io dir name =
      if valid_session_operation_file_name name
      then judge_journal {Op = Op} name (load_session_operation_journal (io.reads name) dir name)
      else if valid_session_operation_temporary_file_name name
      then remove_orphan io name (lookup name dir)
      else ignored

  unfoldable pub scan_names : ScanIo → List Bytes → ScanLoop → ScanLoop
  unfolding scan_step
  scan_names io [] l = l
  scan_names io (name ∷ names) l = scan_names io names (scan_step (scan_name io l.dir name) name l)

  unfoldable pub scan_listed : ScanIo → Option (List Bytes) → ScanLoop → ScanLoop × Errors
  unfolding scan_names end_scan
  scan_listed io none l = (l, io_error ∷ [])
  scan_listed io (some names) l =
      let done = scan_names io names l in (record done { scan = end_scan io done }, [])

  -- `ScanSessionOperationResources`, and the directory that its cleanup leaves.
  unfoldable pub scan_session_operation_resources :
      LockIo → ScanIo → Directory → SessionOperationResourceScan × Directory
  unfolding scan_listed read_dir_names with_namespace_lock
  scan_session_operation_resources lock io dir =
      let (l, e) =
        with_namespace_lock lock
          (λ (l : ScanLoop). scan_listed io (read_dir_names io.list_fails l.dir) l)
          (start_scan dir) in
      (record l.scan { retryable_error = l.scan.retryable_error ++ e }, l.dir)
