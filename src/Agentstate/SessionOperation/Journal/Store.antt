-- ===== src/Agentstate/SessionOperation/Journal/Store.antt =====
-- The operations of the store in session_operation.go: create, transition, delete and load, under
-- the lock of the namespace.
use qurl_connector.Base.{
  ℕ, zero, suc, Bool, true, false, not, ◌||◌, Option, none, some, List, [], ◌∷◌, ◌++◌, Bytes,
  bytes_eq, ◌==◌, leb, is_empty, if◌then◌else◌, length,
}
use qurl_connector.Base.Maps.{erase}
use qurl_connector.Agentstate.SessionOperation.{
  OperationApi, SessionOperationRecord, Status, prepared, canceled, closed,
  valid_session_operation_record, valid_session_operation_transition,
}
use qurl_connector.Agentstate.SessionOperation.Journal.{
  SessionOperationJournal, Platform, Errors, conflict, cas_lost, continuity, io_error,
  journal_schema, max_records, has_operation, find_session_operation_record,
  session_operation_file_name,
}
use qurl_connector.Agentstate.SessionOperation.Journal.Directory.{
  Directory, Loaded, absent, present, failed, ReadIo, WriteIo, error_if,
  load_session_operation_journal, write_session_operation_journal,
}

-- The outcomes of the calls round the locked function.
pub record LockIo : Type 0 where
  pub closed_store : Bool
  pub discontinuous : Bool
  pub lock_fails : Bool
  pub lock_invalid : Bool
  pub discontinuous_after : Bool
  pub unlock_fails : Bool

-- What may fail in the removal of the last record.
pub record RemoveIo : Type 0 where
  pub remove_fails : Bool
  pub sync_fails : Bool
  pub discontinuous : Bool

abbrev pub Locked : Type 0
Locked = Directory → Bytes → Directory × Errors

-- The checks after the locked function.
unfoldable pub after_lock : LockIo → Errors → Errors
after_lock io (e ∷ es) = e ∷ es
after_lock io [] =
    if io.lock_invalid
    then io_error ∷ []
    else if io.discontinuous_after
    then continuity ∷ []
    else []

-- `withSessionOperationNamespaceLock`, round a function on the state that its closure writes.
unfoldable pub with_namespace_lock : {S : Type 0} → LockIo → (S → S × Errors) → S → S × Errors
unfolding after_lock
with_namespace_lock io fn state =
    if io.closed_store || io.discontinuous
    then (state, continuity ∷ [])
    else if io.lock_fails
    then (state, io_error ∷ [])
    else let (state', errors) = fn state in
      (state', after_lock io errors ++ error_if io.unlock_fails)

-- `append(records[:index], records[index+1:]...)`, and `records[index] = next`.
unfoldable pub remove_at {ℓ} : {A : Type ℓ} → List A → ℕ → List A
remove_at [] i = []
remove_at (x ∷ xs) zero = xs
remove_at (x ∷ xs) (suc i) = x ∷ remove_at xs i

unfoldable pub set {ℓ} : {A : Type ℓ} → List A → ℕ → A → List A
set [] i v = []
set (x ∷ xs) zero v = v ∷ xs
set (x ∷ xs) (suc i) v = x ∷ set xs i v

abbrev is_prepared : Status → Bool
is_prepared prepared = true
is_prepared _ = false

abbrev pub is_terminal : Status → Bool
is_terminal canceled = true
is_terminal closed = true
is_terminal _ = false

-- `withSessionOperationLock`
unfoldable pub with_lock :
    (Bytes → Bytes) → LockIo → Bytes → Locked → Directory → Directory × Errors
unfolding with_namespace_lock
with_lock sha256 io rid fn dir = elim (session_operation_file_name sha256 rid) [
  | none ↦ (dir, conflict ∷ [])
  | some name ↦ with_namespace_lock io (λ d. fn d name) dir
]

-- `namespace.Remove`, `Sync` and `ValidateCurrent`.
unfoldable pub remove_journal : RemoveIo → Directory → Bytes → Directory × Errors
remove_journal io dir name =
    if io.remove_fails
    then (dir, io_error ∷ [])
    else (erase name dir, error_if (io.sync_fails || io.discontinuous))

module _ {Op : Type 0} ⦃api : OperationApi Op⦄ ⦃platform : Platform Op⦄ where
  unfoldable pub resource : SessionOperationRecord Op → Bytes
  resource r = api.protected_resource_id r.operation

  -- The journal of a resource with one more record, if it has room for it.
  unfoldable pub append_record :
      SessionOperationJournal Op → SessionOperationRecord Op → Option (SessionOperationJournal Op)
  unfolding resource
  append_record j r =
      if not (j.protected_resource_id == resource r) || leb max_records (length j.records)
      then none
      else if has_operation j.records (api.operation_id r.operation)
      then none
      else some (record j { records = j.records ++ r ∷ [] })

  unfoldable pub write_if :
      WriteIo → Directory → Bytes → Option (SessionOperationJournal Op) → Directory × Errors
  write_if io dir name none = (dir, conflict ∷ [])
  write_if io dir name (some j) = write_session_operation_journal io dir name j

  unfoldable pub create_loaded :
      WriteIo → SessionOperationRecord Op → Directory → Bytes → Loaded Op → Directory × Errors
  unfolding write_if append_record
  create_loaded io r dir name (failed e) = (dir, e)
  create_loaded io r dir name absent = write_if io dir name (
      append_record
        (record { schema = journal_schema; protected_resource_id = resource r; records = [] }) r)
  create_loaded io r dir name (present j) = write_if io dir name (append_record j r)

  -- `CreateSessionOperation`
  unfoldable pub create_session_operation :
      LockIo → ReadIo → WriteIo → SessionOperationRecord Op → Directory → Directory × Errors
  unfolding with_lock create_loaded
  create_session_operation lock read write r dir =
      if not (is_prepared r.status) || not (valid_session_operation_record r)
      then (dir, conflict ∷ [])
      else with_lock platform.sha256 lock (resource r)
          (λ d name. create_loaded write r d name (load_session_operation_journal read d name)) dir

  -- The position of the prior record in the journal of its resource.
  unfoldable pub find_in : SessionOperationJournal Op → SessionOperationRecord Op → Option ℕ
  unfolding resource
  find_in j r =
      if j.protected_resource_id == resource r
      then find_session_operation_record j.records r
      else none

  unfoldable pub transition_loaded :
      WriteIo
      → SessionOperationRecord Op
      → SessionOperationRecord Op
      → Directory
      → Bytes
      → Loaded Op
      → Directory × Errors
  unfolding find_in
  transition_loaded io p n dir name (failed e) = (dir, e)
  transition_loaded io p n dir name absent = (dir, cas_lost ∷ [])
  transition_loaded io p n dir name (present j) = elim (find_in j p) [
    | none ↦ (dir, cas_lost ∷ [])
    | some i ↦
        write_session_operation_journal io dir name (record j { records = set j.records i n })
  ]

  -- `TransitionSessionOperation`
  unfoldable pub transition_session_operation :
      LockIo
      → ReadIo
      → WriteIo
      → SessionOperationRecord Op
      → SessionOperationRecord Op
      → Directory
      → Directory × Errors
  unfolding with_lock transition_loaded
  transition_session_operation lock read write p n dir =
      if is_empty (resource p)
        || (not (resource p == resource n) || not (valid_session_operation_transition p n))
      then (dir, conflict ∷ [])
      else with_lock platform.sha256 lock (resource p)
          (λ d name.
            transition_loaded write p n d name (load_session_operation_journal read d name))
          dir

  unfoldable pub delete_at :
      RemoveIo → WriteIo → Directory → Bytes → SessionOperationJournal Op → ℕ → Directory × Errors
  unfolding remove_journal
  delete_at remove write dir name j i =
      let rest = remove_at j.records i in
      if is_empty rest
      then remove_journal remove dir name
      else write_session_operation_journal write dir name (record j { records = rest })

  unfoldable pub delete_loaded :
      RemoveIo
      → WriteIo
      → SessionOperationRecord Op
      → Directory
      → Bytes
      → Loaded Op
      → Directory × Errors
  unfolding delete_at find_in
  delete_loaded remove write r dir name (failed e) = (dir, e)
  delete_loaded remove write r dir name absent = (dir, cas_lost ∷ [])
  delete_loaded remove write r dir name (present j) = elim (find_in j r) [
    | none ↦ (dir, cas_lost ∷ [])
    | some i ↦ delete_at remove write dir name j i
  ]

  -- `DeleteSessionOperation`
  unfoldable pub delete_session_operation :
      LockIo
      → ReadIo
      → RemoveIo
      → WriteIo
      → SessionOperationRecord Op
      → Directory
      → Directory × Errors
  unfolding with_lock delete_loaded
  delete_session_operation lock read remove write r dir =
      if not (is_terminal r.status) || not (valid_session_operation_record r)
      then (dir, conflict ∷ [])
      else with_lock platform.sha256 lock (resource r)
          (λ d name.
            delete_loaded remove write r d name (load_session_operation_journal read d name))
          dir
