-- ===== src/Agentstate/SessionOperation/Journal/Loads.antt =====
-- LoadSessionOperations against a reader of the journal (pkg/agentstate/session_operation.go).
use qurl_connector.Base.{
  ◌≡◌, ◌≢◌, ◌⊎◌, inl, inr, refl, sym, ap, ◌∙◌, Bool, true, false, not, ◌||◌, some, List, [], Bytes,
  bytes_eq, ◌==◌, bytes_beq_iff, Bool-cases, Option-cases, arith, if_both,
}
use qurl_connector.Base.Maps.{lookup}
use qurl_connector.Agentstate.SessionOperation.{OperationApi, SessionOperationRecord}
use qurl_connector.Agentstate.SessionOperation.Journal.{
  SessionOperationJournal, Platform, session_operation_file_name,
}
use qurl_connector.Agentstate.SessionOperation.Journal.Directory.{
  Directory, Entry, Loaded, absent, present, failed, ReadIo, error_if, closed, read_entry,
  read_open_file, decode_journal, load_session_operation_journal,
}
use qurl_connector.Agentstate.SessionOperation.Journal.Store.{
  LockIo, after_lock, with_namespace_lock,
}
use qurl_connector.Agentstate.SessionOperation.Journal.Write.{quiet}
use qurl_connector.Agentstate.SessionOperation.Journal.Laws.{load-fails, load-quiet}
use qurl_connector.Agentstate.SessionOperation.Journal.Refinement.{
  append_nil, after_lock_nil, records_of,
}
use qurl_connector.Agentstate.SessionOperation.Journal.Scan.{
  records_loaded, load_session_operations,
}

-- The records that a load without an error returns, and the resource of their journal.
records_loaded_lem :
    {Op : Type 0} (rid : Bytes) (l : Loaded Op) (rs : List (SessionOperationRecord Op))
    → l ≢ failed []
    → records_loaded rid l ≡ (rs, [])
    → (l ≡ absent) × (rs ≡ [])
      ⊎ ((j : SessionOperationJournal Op) × (l ≡ present j)
          × (j.protected_resource_id ≡ rid)
          × (rs ≡ j.records))
unfolding records_loaded
records_loaded_lem rid (failed e) rs h q = absurd (h (ap failed (ap (λ p. p.1) q)))
records_loaded_lem rid absent rs h q = inl (refl, sym (ap (λ p. p.0) q))
records_loaded_lem rid (present j) rs h q = elim (Bool-cases (j.protected_resource_id == rid)) [
  | inl same ↦ inr (j, refl, (bytes_beq_iff j.protected_resource_id rid).0 same, ground arith)
  | inr other ↦ absurd (ground arith)
]

module _ {Op : Type 0} ⦃api : OperationApi Op⦄ ⦃platform : Platform Op⦄ where
  closed_there : (b : Bool) (r : Loaded Op) → r ≢ absent → closed b r ≢ absent
  unfolding closed
  closed_there false r h = h
  closed_there true (failed e) h = λ q. cc
  closed_there true absent h = λ q. cc
  closed_there true (present j) h = λ q. cc

  content_there : (io : ReadIo) (raw : Bytes) → read_open_file {Op = Op} io raw ≢ absent
  unfolding read_open_file decode_journal
  content_there io raw = λ q. ground arith

  entry_there : (io : ReadIo) (e : Entry) → read_entry {Op = Op} io e ≢ absent
  unfolding read_entry
  entry_there io e =
      let P = λ (l : Loaded Op). l ≢ absent in
      if_both P (e.symlink || not e.regular) (λ q. cc)
        (if_both P io.open_fails (λ q. cc)
          (closed_there io.close_fails _ (content_there io e.content)))

  -- A read that finds no journal is one of a directory without its file.
  absent_quiet :
      (io : ReadIo) (dir : Directory) (name : Bytes)
      → load_session_operation_journal {Op = Op} io dir name ≡ absent
      → load_session_operation_journal {Op = Op} quiet dir name ≡ absent
  unfolding load_session_operation_journal
  absent_quiet io dir name h = elim (Option-cases (lookup name dir)) [
    | inl none_there ↦ rw none_there refl
    | inr (e, there) ↦ absurd (entry_there io e (ground arith))
  ]

  -- Where a load of the operations of a resource returns no error, the records that it returns are
  -- those that a reader of the resource's journal finds when nothing fails, none when it has no journal.
  pub load_session_operations_lem :
      (lock : LockIo) (read : ReadIo) (rid name : Bytes) (dir : Directory)
      (rs : List (SessionOperationRecord Op))
      → session_operation_file_name platform.sha256 rid ≡ some name
      → load_session_operations lock read rid dir ≡ (rs, [])
      → rs ≡ records_of (load_session_operation_journal quiet dir name)
  unfolding load_session_operations with_namespace_lock
  load_session_operations_lem lock read rid name dir rs n h =
      let l = load_session_operation_journal read dir name in
      let inside : records_loaded rid l ≡ (rs, []) = ground (
        arith,
        after_lock_nil lock (records_loaded rid l).1,
        append_nil (after_lock lock (records_loaded rid l).1) (error_if lock.unlock_fails),
      ) in
      elim (records_loaded_lem rid l rs (load-fails read dir name) inside) [
        | inl (gone, empty) ↦ empty ∙ sym (ap records_of (absent_quiet read dir name gone))
        | inr (j, there, same, records) ↦
            records ∙ sym (ap records_of (load-quiet read dir name j there))
      ]
