-- ===== src/Tests/SessionOperation/Scan.antt =====
-- Loads and scans of a state directory (pkg/agentstate/session_operation.go) on concrete values.
use native.Mathlib.Decide.{ℕ_discrete}
use qurl_connector.Base.{◌≡◌, refl, false, [], ◌∷◌, ◌++◌, Bytes, bytes_eq, codes}
use qurl_connector.Base.Sort.{sort_by, bytes_ltb}
use qurl_connector.Strings.{trim_prefix, trim_suffix}
use qurl_connector.Agentstate.SessionOperation.Journal.{temporary_name}
use qurl_connector.Agentstate.SessionOperation.Journal.Directory.{
  Directory, new_entry, load_session_operation_journal,
}
use qurl_connector.Agentstate.SessionOperation.Journal.Write.{quiet}
use qurl_connector.Agentstate.SessionOperation.Journal.Refinement.{records_of}
use qurl_connector.Agentstate.SessionOperation.Journal.Scan.{
  ScanIo, scan_name, empty_scan, load_session_operations, scan_session_operation_resources,
}
use qurl_connector.Agentstate.SessionOperation.Journal.FileNames.{
  valid_session_operation_file_name, valid_session_operation_temporary_file_name,
}
use qurl_connector.Agentstate.SessionOperation.Journal.NoneSkipped.{IsScanOf, scan-IsScanOf}
use qurl_connector.Agentstate.SessionOperation.Journal.Loads.{load_session_operations_lem}
use qurl_connector.Tests.SessionOperation.{
  api, platform, store, named, first, calm_lock, file_name, file_with,
}

abbrev calm_scan : ScanIo
calm_scan = record {
  list_fails = false;
  reads = λ name. quiet;
  stat_fails = λ name. false;
  remove_fails = λ name. false;
  sync_fails = false;
  discontinuous = false;
}

-- A journal, the temporary file of a crashed write, and a file of another component.
abbrev example_directory : Directory
example_directory =
    (temporary_name file_name (codes "12345678"), new_entry (codes "torn")) ∷ file_with (1 ∷ [])
    ++ (codes "audit.log", new_entry []) ∷ []

scanned : scan_session_operation_resources Bytes calm_lock calm_scan example_directory ≡ (
  record empty_scan { resource_ids = codes "res" ∷ [] },
  file_with (1 ∷ []) ++ (codes "audit.log", new_entry []) ∷ [],
)
unfolding store ℕ_discrete scan_session_operation_resources sort_by bytes_ltb scan_name
    valid_session_operation_file_name trim_suffix trim_prefix
    valid_session_operation_temporary_file_name
scanned = refl

scan-IsScanOf_example :
    IsScanOf Bytes example_directory
      (scan_session_operation_resources Bytes calm_lock calm_scan example_directory)
scan-IsScanOf_example = scan-IsScanOf Bytes calm_lock calm_scan example_directory

loads : load_session_operations calm_lock quiet (codes "res") example_directory ≡ (first ∷ [], [])
unfolding store ℕ_discrete load_session_operations
loads = refl

load_session_operations_lem_example :
    first ∷ [] ≡ records_of (load_session_operation_journal quiet example_directory file_name)
load_session_operations_lem_example =
    load_session_operations_lem calm_lock quiet (codes "res") file_name example_directory
      (first ∷ []) named loads
