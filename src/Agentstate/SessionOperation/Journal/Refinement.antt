-- ===== src/Agentstate/SessionOperation/Journal/Refinement.antt =====
-- The store operations of session_operation.go against the list of records that a reader sees.
use qurl_connector.Base.{
  ℕ, zero, suc, ◌<◌, ◌≡◌, ◌≢◌, inl, inr, refl, ap, ◌∙◌, true, false, Option, none, some, List, [],
  ◌∷◌, ◌++◌, Bytes, bytes_eq, bytes_beq_iff, Bool-cases, Option-cases, is_empty, length, arith,
}
use qurl_connector.Base.Maps.{lookup-erase}
use qurl_connector.Agentstate.SessionOperation.{
  OperationApi, prepared, SessionOperationRecord, valid_session_operation_record,
  valid_session_operation_transition,
}
use qurl_connector.Agentstate.SessionOperation.Journal.{
  SessionOperationJournal, Platform, Errors, max_records, session_operation_file_name,
  has_operation, find_session_operation_record, same_session_operation_record,
}
use qurl_connector.Agentstate.SessionOperation.Journal.Directory.{
  Directory, Loaded, absent, present, failed, ReadIo, WriteIo, error_if,
  load_session_operation_journal, write_session_operation_journal,
}
use qurl_connector.Agentstate.SessionOperation.Journal.Store.{
  LockIo, RemoveIo, Locked, after_lock, with_namespace_lock, with_lock, remove_at, set, resource,
  append_record, write_if, create_loaded, create_session_operation, find_in, transition_loaded,
  transition_session_operation, remove_journal, delete_at, delete_loaded, delete_session_operation,
  is_terminal,
}
use qurl_connector.Agentstate.SessionOperation.Journal.Write.{quiet}
use qurl_connector.Agentstate.SessionOperation.Journal.Laws.{Laws, write-Leaves, load-fails}

pub append_nil : (xs ys : Errors) → (xs ++ ys) ≡ [] → xs ≡ []
append_nil [] ys h = refl
append_nil (x ∷ xs) ys h = cc

pub after_lock_nil : (io : LockIo) (e : Errors) → after_lock io e ≡ [] → e ≡ []
unfolding after_lock
after_lock_nil io [] h = refl
after_lock_nil io (x ∷ xs) h = cc

is_empty_nil {ℓ} : {A : Type ℓ} (xs : List A) → is_empty xs ≡ true → xs ≡ []
is_empty_nil [] h = refl
is_empty_nil (x ∷ xs) h = cc

-- A locked operation that returns no error has run its function without an error.
pub with_lock_done :
    (sha256 : Bytes → Bytes) (io : LockIo) (rid name : Bytes) (fn : Locked) (dir : Directory)
    {dir' : Directory}
    → session_operation_file_name sha256 rid ≡ some name
    → with_lock sha256 io rid fn dir ≡ (dir', [])
    → fn dir name ≡ (dir', [])
unfolding with_lock with_namespace_lock
with_lock_done sha256 io rid name fn dir {dir'} n h = ground (
  arith,
  after_lock_nil io (fn dir name).1,
  append_nil (after_lock io (fn dir name).1) (error_if io.unlock_fails),
)

-- An abstract view: the records of a loaded journal.
abbrev pub records_of : {Op : Type 0} → Loaded Op → List (SessionOperationRecord Op)
records_of absent = []
records_of (present j) = j.records
records_of (failed e) = []

-- `old` with the element at a position that `P` describes taken out, and what `into` puts there.
pub data Splits {A : Type 0} (P : A → Type 0) (into old new : List A) : Type 0 where
  split :
      (before : List A) (x : A) (after : List A)
      → P x
      → old ≡ before ++ (x ∷ after)
      → new ≡ before ++ (into ++ after)
      → Splits P into old new

Splits-cons :
    {A : Type 0} {P : A → Type 0} {into old new : List A} (y : A)
    → Splits P into old new
    → Splits P into (y ∷ old) (y ∷ new)
Splits-cons y (split before x after p o n) =
    split (y ∷ before) x after p (ap (◌∷◌ y) o) (ap (◌∷◌ y) n)

module _ {Op : Type 0} ⦃platform : Platform Op⦄ where
  -- The record found encodes as the target does.
  abbrev pub IsSame : SessionOperationRecord Op → SessionOperationRecord Op → Type 0
  IsSame target x = same_session_operation_record x target ≡ true

  set-Splits :
      (rs : List (SessionOperationRecord Op)) (p n : SessionOperationRecord Op) (i : ℕ)
      → find_session_operation_record rs p ≡ some i
      → Splits (IsSame p) (n ∷ []) rs (set rs i n)
  unfolding find_session_operation_record set
  set-Splits [] p n i h = absurd (ground arith)
  set-Splits (r ∷ rs) p n zero h = split [] r rs (ground arith) refl refl
  set-Splits (r ∷ rs) p n (suc i) h = Splits-cons r (set-Splits rs p n i (ground arith))

  remove-Splits :
      (rs : List (SessionOperationRecord Op)) (p : SessionOperationRecord Op) (i : ℕ)
      → find_session_operation_record rs p ≡ some i
      → Splits (IsSame p) [] rs (remove_at rs i)
  unfolding find_session_operation_record remove_at
  remove-Splits [] p i h = absurd (ground arith)
  remove-Splits (r ∷ rs) p zero h = split [] r rs (ground arith) refl refl
  remove-Splits (r ∷ rs) p (suc i) h = Splits-cons r (remove-Splits rs p i (ground arith))

module _ {Op : Type 0} ⦃api : OperationApi Op⦄ ⦃platform : Platform Op⦄ (laws : Laws Op) where
  -- The records that a later reader finds under the name.
  abbrev pub seen : Directory → Bytes → List (SessionOperationRecord Op)
  seen dir name = records_of (load_session_operation_journal quiet dir name)

  -- The records that the operation itself loads.
  abbrev pub loaded : ReadIo → Directory → Bytes → List (SessionOperationRecord Op)
  loaded io dir name = records_of (load_session_operation_journal io dir name)

  write_done :
      (io : WriteIo) (dir : Directory) (name : Bytes) (j : SessionOperationJournal Op)
      {dir' : Directory}
      → write_session_operation_journal io dir name j ≡ (dir', [])
      → seen dir' name ≡ j.records
  write_done io dir name j h =
      let leaves = write-Leaves laws io dir name j in ap records_of (rw h at (leaves.done (rw h)))

  append_done :
      (j j' : SessionOperationJournal Op) (r : SessionOperationRecord Op)
      → append_record j r ≡ some j'
      → (j'.records ≡ j.records ++ r ∷ [])
        × (has_operation j.records (api.operation_id r.operation) ≡ false)
        × (length j.records < max_records)
  unfolding append_record
  append_done j j' r h = ground arith

  write_if_done :
      (io : WriteIo) (dir : Directory) (name : Bytes) (o : Option (SessionOperationJournal Op))
      {dir' : Directory}
      → write_if io dir name o ≡ (dir', [])
      → (j : SessionOperationJournal Op) × (o ≡ some j) × (seen dir' name ≡ j.records)
  unfolding write_if
  write_if_done io dir name none h = absurd (ground arith)
  write_if_done io dir name (some j) h = (j, refl, write_done io dir name j h)

  -- What a create adds to the records that were loaded.
  abbrev Appended :
      List (SessionOperationRecord Op)
      → SessionOperationRecord Op
      → List (SessionOperationRecord Op)
      → Type 0
  Appended old r new =
      (new ≡ old ++ r ∷ [])
      × (has_operation old (api.operation_id r.operation) ≡ false)
      × (length old < max_records)

  Appended-to :
      (io : WriteIo) (r : SessionOperationRecord Op) (dir : Directory) (name : Bytes)
      (j : SessionOperationJournal Op) {dir' : Directory}
      → write_if io dir name (append_record j r) ≡ (dir', [])
      → Appended j.records r (seen dir' name)
  Appended-to io r dir name j e =
      let (j', app, new) = write_if_done io dir name (append_record j r) e in
      let (added, fresh, room) = append_done j j' r app in (new ∙ added, fresh, room)

  create_loaded_done :
      (io : WriteIo) (r : SessionOperationRecord Op) (dir : Directory) (name : Bytes)
      (before : Loaded Op) {dir' : Directory}
      → before ≢ failed []
      → create_loaded io r dir name before ≡ (dir', [])
      → Appended (records_of before) r (seen dir' name)
  unfolding create_loaded
  create_loaded_done io r dir name (failed x) h e = absurd (h (ground arith))
  create_loaded_done io r dir name absent h e = Appended-to io r dir name _ e
  create_loaded_done io r dir name (present j) h e = Appended-to io r dir name j e

  -- A create that returns no error was given a valid prepared record, and a reader then finds the
  -- records that were there, fewer than eight and none with its operation ID, and it behind them.
  pub create_refines :
      (lock : LockIo) (read : ReadIo) (write : WriteIo) (r : SessionOperationRecord Op)
      (dir dir' : Directory) (name : Bytes)
      → session_operation_file_name platform.sha256 (resource r) ≡ some name
      → create_session_operation lock read write r dir ≡ (dir', [])
      → let old = loaded read dir name in
        (valid_session_operation_record r ≡ true)
        × (r.status ≡ prepared)
        × (seen dir' name ≡ old ++ r ∷ [])
        × (has_operation old (api.operation_id r.operation) ≡ false)
        × (length old < max_records)
  unfolding create_session_operation
  create_refines lock read write r dir dir' name n e =
      let fn : Locked =
        λ d m. create_loaded write r d m (load_session_operation_journal read d m) in
      let inside : with_lock platform.sha256 lock (resource r) fn dir ≡ (dir', []) = ground arith in
      let (added, fresh, room) =
        create_loaded_done write r dir name (load_session_operation_journal read dir name)
          (load-fails read dir name)
          (with_lock_done platform.sha256 lock (resource r) name fn dir n inside) in
      (ground arith, ground arith, added, fresh, room)

  pub find_in_done :
      (j : SessionOperationJournal Op) (p : SessionOperationRecord Op) (i : ℕ)
      → find_in j p ≡ some i
      → find_session_operation_record j.records p ≡ some i
  unfolding find_in
  find_in_done j p i h = ground arith

  transition_loaded_done :
      (io : WriteIo) (p n : SessionOperationRecord Op) (dir : Directory) (name : Bytes)
      (before : Loaded Op) {dir' : Directory}
      → before ≢ failed []
      → transition_loaded io p n dir name before ≡ (dir', [])
      → Splits (IsSame p) (n ∷ []) (records_of before) (seen dir' name)
  unfolding transition_loaded
  transition_loaded_done io p n dir name (failed x) {dir'} h e = absurd (h (ground arith))
  transition_loaded_done io p n dir name absent {dir'} h e = absurd (ground arith)
  transition_loaded_done io p n dir name (present j) {dir'} h e =
      elim (Option-cases (find_in j p)) [
        | inl miss ↦ absurd (ground arith)
        | inr (i, hit) ↦
            rw
              (write_done io dir name (record j { records = set j.records i n }) {dir' = dir'}
                (ground arith))
              (set-Splits j.records p n i (find_in_done j p i hit))
      ]

  -- A transition that returns no error was an accepted one, and a reader then finds the records that
  -- were there with one that encodes as the previous record replaced by the next.
  pub transition_refines :
      (lock : LockIo) (read : ReadIo) (write : WriteIo) (p n : SessionOperationRecord Op)
      (dir dir' : Directory) (name : Bytes)
      → session_operation_file_name platform.sha256 (resource p) ≡ some name
      → transition_session_operation lock read write p n dir ≡ (dir', [])
      → (valid_session_operation_transition p n ≡ true)
        × Splits (IsSame p) (n ∷ []) (loaded read dir name) (seen dir' name)
  unfolding transition_session_operation
  transition_refines lock read write p n dir dir' name f e =
      let fn : Locked =
        λ d m. transition_loaded write p n d m (load_session_operation_journal read d m) in
      let inside : with_lock platform.sha256 lock (resource p) fn dir ≡ (dir', []) = ground arith in
      (
        ground arith,
        transition_loaded_done write p n dir name (load_session_operation_journal read dir name)
            (load-fails read dir name)
            (with_lock_done platform.sha256 lock (resource p) name fn dir f inside),
      )

  remove_done :
      (io : RemoveIo) (dir : Directory) (name : Bytes) {dir' : Directory}
      → remove_journal io dir name ≡ (dir', [])
      → seen dir' name ≡ []
  unfolding remove_journal load_session_operation_journal
  remove_done io dir name h = ground (arith, lookup-erase name name dir, bytes_beq_iff name name)

  delete_at_done :
      (remove : RemoveIo) (io : WriteIo) (dir : Directory) (name : Bytes)
      (j : SessionOperationJournal Op) (i : ℕ) {dir' : Directory}
      → delete_at remove io dir name j i ≡ (dir', [])
      → seen dir' name ≡ remove_at j.records i
  unfolding delete_at
  delete_at_done remove io dir name j i {dir'} e =
      elim (Bool-cases (is_empty (remove_at j.records i))) [
        | inl last ↦
            let removed : remove_journal remove dir name ≡ (dir', []) = ground arith in
            rw (is_empty_nil (remove_at j.records i) last) (remove_done remove dir name removed)
        | inr more ↦
            write_done io dir name (record j { records = remove_at j.records i }) {dir' = dir'}
              (ground arith)
      ]

  delete_loaded_done :
      (remove : RemoveIo) (io : WriteIo) (r : SessionOperationRecord Op) (dir : Directory)
      (name : Bytes) (before : Loaded Op) {dir' : Directory}
      → before ≢ failed []
      → delete_loaded remove io r dir name before ≡ (dir', [])
      → Splits (IsSame r) [] (records_of before) (seen dir' name)
  unfolding delete_loaded
  delete_loaded_done remove io r dir name (failed x) {dir'} h e = absurd (h (ground arith))
  delete_loaded_done remove io r dir name absent {dir'} h e = absurd (ground arith)
  delete_loaded_done remove io r dir name (present j) {dir'} h e =
      elim (Option-cases (find_in j r)) [
        | inl miss ↦ absurd (ground arith)
        | inr (i, hit) ↦
            rw (delete_at_done remove io dir name j i {dir' = dir'} (ground arith))
              (remove-Splits j.records r i (find_in_done j r i hit))
      ]

  -- A delete that returns no error was given a valid terminal record, and a reader then finds the
  -- records that were there without one that encodes as it.
  pub delete_refines :
      (lock : LockIo) (read : ReadIo) (remove : RemoveIo) (write : WriteIo)
      (r : SessionOperationRecord Op) (dir dir' : Directory) (name : Bytes)
      → session_operation_file_name platform.sha256 (resource r) ≡ some name
      → delete_session_operation lock read remove write r dir ≡ (dir', [])
      → (is_terminal r.status ≡ true)
        × (valid_session_operation_record r ≡ true)
        × Splits (IsSame r) [] (loaded read dir name) (seen dir' name)
  unfolding delete_session_operation
  delete_refines lock read remove write r dir dir' name f e =
      let fn : Locked =
        λ d m. delete_loaded remove write r d m (load_session_operation_journal read d m) in
      let inside : with_lock platform.sha256 lock (resource r) fn dir ≡ (dir', []) = ground arith in
      (
        ground arith,
        ground arith,
        delete_loaded_done remove write r dir name (load_session_operation_journal read dir name)
            (load-fails read dir name)
            (with_lock_done platform.sha256 lock (resource r) name fn dir f inside),
      )
