-- ===== src/Agentstate/SessionOperation/Journal/NoneSkipped.antt =====
-- ScanSessionOperationResources against the directory that it starts on
-- (pkg/agentstate/session_operation.go).
use qurl_connector.Base.{
  ◌≡◌, ◌≢◌, ◌⊎◌, inl, inr, refl, true, ◌||◌, some, [], ◌∷◌, ◌++◌, Bytes, bytes_eq, All, if_both,
  ltb, length,
}
use qurl_connector.Base.Maps.{lookup}
use qurl_connector.Base.Sort.{sort_by, bytes_ltb, sort_by-Any}
use qurl_connector.Agentstate.SessionOperation.{OperationApi}
use qurl_connector.Agentstate.SessionOperation.Journal.{Platform, Errors}
use qurl_connector.Agentstate.SessionOperation.Journal.Directory.{Directory, Entry}
use qurl_connector.Agentstate.SessionOperation.Journal.Store.{LockIo, with_namespace_lock}
use qurl_connector.Agentstate.SessionOperation.Journal.Scan.{
  SessionOperationResourceScan, ScanIo, ScanLoop, start_scan, file_names, read_dir_names,
  scan_listed, end_scan, scan_session_operation_resources,
}
use qurl_connector.Agentstate.SessionOperation.Journal.FileNames.{valid_session_operation_file_name}
use qurl_connector.Agentstate.SessionOperation.Journal.Store.{after_lock}
use qurl_connector.Agentstate.SessionOperation.Journal.Scan.{max_state_files}
use qurl_connector.Agentstate.SessionOperation.Journal.Scanning.{
  IsTold, HasJournal, IsSound, loop-IsSound, loop-IsTold, listed, some_left, some_right,
}

after_lock_some : (io : LockIo) (e : Errors) → e ≢ [] → after_lock io e ≢ []
unfolding after_lock
after_lock_some io [] h = absurd (h refl)
after_lock_some io (x ∷ xs) h = λ q. cc

module _ (Op : Type 0) ⦃api : OperationApi Op⦄ ⦃platform : Platform Op⦄ where
  -- What a scan reports of a directory, and leaves of it.
  pub record IsScanOf (dir : Directory) (r : SessionOperationResourceScan × Directory)
      : Type 0 where
    pub kept :
        (name : Bytes)
        → valid_session_operation_file_name name ≡ true
        → lookup name r.1 ≡ lookup name dir
    pub sound : All (HasJournal Op dir) r.0.resource_ids
    pub complete :
        (name : Bytes) (e : Entry)
        → valid_session_operation_file_name name ≡ true
        → lookup name dir ≡ some e
        → IsTold Op name r.0

  add_errors-IsTold :
      (name : Bytes) (scan : SessionOperationResourceScan) (e : Errors)
      → IsTold Op name scan
      → IsTold Op name (record scan { retryable_error = scan.retryable_error ++ e })
  add_errors-IsTold name scan e (inl h) = inl h
  add_errors-IsTold name scan e (inr (inl h)) = inr (inl h)
  add_errors-IsTold name scan e (inr (inr h)) = inr (inr (some_left scan.retryable_error e h))

  -- The scan's state and errors at the end of the locked function.
  abbrev Listed : Directory → ScanLoop × Errors → Type 0
  Listed dir r =
      IsSound Op dir r.0
      × ((r.1 ≢ [])
          ⊎ ((name : Bytes) (e : Entry)
              → valid_session_operation_file_name name ≡ true
              → lookup name dir ≡ some e
              → IsTold Op name r.0.scan))

  start-IsSound : (dir : Directory) → IsSound Op dir (start_scan dir)
  start-IsSound dir = record { kept = λ name valid. refl; sound = tt }

  scan-Listed :
      (io : ScanIo) (dir : Directory)
      → Listed dir (scan_listed Op io (read_dir_names io.list_fails dir) (start_scan dir))
  unfolding read_dir_names scan_listed end_scan
  scan-Listed io dir =
      let names = sort_by bytes_ltb (file_names dir) in
      let done = loop-IsSound Op io dir names (start_scan dir) (start-IsSound dir) in
      if_both (λ o. Listed dir (scan_listed Op io o (start_scan dir)))
        (io.list_fails || ltb max_state_files (length dir)) (start-IsSound dir, inl (λ q. cc))
        (
          record { kept = done.kept; sound = done.sound },
          inr (λ name e valid there. add_errors-IsTold name _ _ (
              loop-IsTold Op io name names (start_scan dir) valid (
                sort_by-Any bytes_ltb (λ (x : Bytes). x ≡ name) (file_names dir)
                  (listed name e dir there)))),
        )

  lock-Listed :
      (lock : LockIo) (dir : Directory) (fn : ScanLoop → ScanLoop × Errors)
      → Listed dir (fn (start_scan dir))
      → Listed dir (with_namespace_lock lock fn (start_scan dir))
  unfolding with_namespace_lock
  lock-Listed lock dir fn (sound, told) =
      if_both (Listed dir) (lock.closed_store || lock.discontinuous)
        (start-IsSound dir, inl (λ q. cc))
        (if_both (Listed dir) lock.lock_fails (start-IsSound dir, inl (λ q. cc))
          (
            sound,
            elim told [
              | inl failed_one ↦
                  inl (some_left _ _ (after_lock_some lock (fn (start_scan dir)).1 failed_one))
              | inr all ↦ inr all
            ],
          ))

  -- Whatever fails, a scan of the state directory leaves every journal file as it was; each resource
  -- that it reports has a journal that a reader finds, under the name of that resource; and each file
  -- with the name of a journal is the journal of a resource that it reports, or it reports an error.
  pub scan-IsScanOf :
      (lock : LockIo) (io : ScanIo) (dir : Directory)
      → IsScanOf dir (scan_session_operation_resources Op lock io dir)
  unfolding scan_session_operation_resources
  scan-IsScanOf lock io dir =
      let fn = λ (l : ScanLoop). scan_listed Op io (read_dir_names io.list_fails l.dir) l in
      let (l, errors) = with_namespace_lock lock fn (start_scan dir) in
      let (sound, told) = lock-Listed lock dir fn (scan-Listed io dir) in
      record {
        kept = sound.kept;
        sound = sound.sound;
        complete = λ name e valid there. elim told [
          | inl failed_one ↦ inr (inr (some_right l.scan.retryable_error errors failed_one))
          | inr all ↦ add_errors-IsTold name l.scan errors (all name e valid there)
        ];
      }
