-- ===== src/Agentstate/SessionOperation/Journal/Directory.antt =====
-- session_operation.go over the private state directory: reading a journal, and replacing it
-- through a temporary file. What the operating system may refuse is a field of `ReadIo` or
-- `WriteIo`, one for each call.
use qurl_connector.Base.{
  Bool, true, false, not, ◌&&◌, ◌||◌, Option, none, some, List, [], ◌∷◌, ◌++◌, Bytes, bytes_eq, ltb,
  is_empty, if◌then◌else◌, length,
}
use qurl_connector.Base.Maps.{lookup, insert, erase}
use qurl_connector.Agentstate.SessionOperation.{OperationApi}
use qurl_connector.Agentstate.SessionOperation.Journal.{
  SessionOperationJournal, Platform, Errors, conflict, corrupt, io_error, encoding, too_large,
  unsafe_shape, file_max_bytes, valid_session_operation_journal, temporary_name,
}

-- What `Lstat` tells of a file, and its bytes.
pub record Entry : Type 0 where
  pub symlink : Bool
  pub regular : Bool
  pub private_mode : Bool
  pub content : Bytes

abbrev pub Directory : Type 0
Directory = List (Bytes × Entry)

-- `loadSessionOperationJournal` returns no journal, a journal, or an error.
pub data Loaded (Op : Type 0) : Type 0 where
  absent : Loaded Op
  present : SessionOperationJournal Op → Loaded Op
  failed : Errors → Loaded Op

pub record ReadIo : Type 0 where
  pub lstat_fails : Bool
  pub open_fails : Bool
  pub invalid : Bool
  pub read_fails : Bool
  pub invalid_after : Bool
  pub close_fails : Bool

pub record WriteIo : Type 0 where
  pub lstat_fails : Bool
  pub rand_fails : Bool
  pub create_fails : Bool
  pub chmod_fails : Bool
  pub write_fails : Bool
  pub sync_fails : Bool
  pub invalid_temporary : Bool
  pub rename_fails : Bool
  pub invalid_committed : Bool
  pub close_fails : Bool
  pub remove_fails : Bool
  pub directory_sync_fails : Bool
  pub discontinuous : Bool
  pub suffix : Bytes  -- the random bytes
  pub partial : Bytes  -- what a failing write left

abbrev pub error_if : Bool → Errors
error_if true = io_error ∷ []
error_if false = []

-- The deferred close of the journal file.
unfoldable pub closed : {Op : Type 0} → Bool → Loaded Op → Loaded Op
closed false r = r
closed true (failed e) = failed (e ++ io_error ∷ [])
closed true absent = failed (io_error ∷ [])
closed true (present j) = failed (io_error ∷ [])

-- A regular file, private and not a symbolic link.
unfoldable pub new_entry : Bytes → Entry
new_entry content = record {
  symlink = false;
  regular = true;
  private_mode = true;
  content = content;
}

unfoldable pub unsafe_entry : Option Entry → Bool
unsafe_entry none = false
unsafe_entry (some e) = e.symlink || (not e.regular || not e.private_mode)

unfoldable pub contains : Bytes → Directory → Bool
contains name dir = elim (lookup name dir) [ none ↦ false | some e ↦ true ]

-- The cleanup of a write that was not committed.
unfoldable pub abort : WriteIo → Directory → Bytes → Directory × Errors
abort io dir tmp = (
  if io.remove_fails then dir else erase tmp dir,
  (io_error ∷ [])
      ++ (error_if io.close_fails
          ++ (error_if io.remove_fails ++ error_if io.directory_sync_fails)),
)

unfoldable pub committed_errors : WriteIo → Errors
committed_errors io =
    error_if io.invalid_committed
    ++ (error_if io.close_fails ++ (error_if io.directory_sync_fails ++ error_if io.discontinuous))

-- From `OpenFile` of the temporary name on.
unfoldable pub replace_file : WriteIo → Directory → Bytes → Bytes → Bytes → Directory × Errors
unfolding new_entry contains abort committed_errors
replace_file io dir name tmp data' =
    let written = λ (content : Bytes). insert tmp (new_entry content) dir in
    if io.create_fails || contains tmp dir
    then (dir, io_error ∷ [])
    else if io.chmod_fails
    then abort io (written []) tmp
    else if io.write_fails
    then abort io (written io.partial) tmp
    else if io.sync_fails || (io.invalid_temporary || io.rename_fails)
    then abort io (written data') tmp
    else (insert name (new_entry data') (erase tmp (written data')), committed_errors io)

unfoldable pub write_encoded : WriteIo → Directory → Bytes → Bytes → Directory × Errors
unfolding replace_file unsafe_entry
write_encoded io dir name data' =
    if ltb file_max_bytes (length data')
    then (dir, too_large ∷ [])
    else if io.lstat_fails
    then (dir, io_error ∷ [])
    else if unsafe_entry (lookup name dir)
    then (dir, unsafe_shape ∷ [])
    else if io.rand_fails
    then (dir, io_error ∷ [])
    else replace_file io dir name (temporary_name name io.suffix) data'

module _ {Op : Type 0} ⦃api : OperationApi Op⦄ ⦃platform : Platform Op⦄ where
  -- `json.Marshal(journal)` gives the same bytes.
  re_encodes : SessionOperationJournal Op → Bytes → Bool
  re_encodes j raw = elim (platform.marshal_journal j) [
    | none ↦ false
    | some canonical ↦ bytes_eq.equals canonical raw
  ]

  -- `decodeSessionOperationJournal` and its corrupt error.
  unfoldable pub decode_journal : Bytes → Loaded Op
  unfolding re_encodes
  decode_journal raw = elim (platform.decode_strict raw) [
    | none ↦ failed (corrupt ∷ [])
    | some j ↦
        if re_encodes j raw && valid_session_operation_journal j
        then present j
        else failed (corrupt ∷ [])
  ]

  -- The part between `OpenFile` and the deferred close.
  unfoldable pub read_open_file : ReadIo → Bytes → Loaded Op
  unfolding decode_journal
  read_open_file io raw =
      if io.invalid
      then failed (corrupt ∷ io_error ∷ [])
      else if is_empty raw || ltb file_max_bytes (length raw)
      then failed (corrupt ∷ [])
      else if io.read_fails
      then failed (io_error ∷ [])
      else if io.invalid_after
      then failed (corrupt ∷ io_error ∷ [])
      else decode_journal raw

  unfoldable pub read_entry : ReadIo → Entry → Loaded Op
  unfolding read_open_file closed
  read_entry io e =
      if e.symlink || not e.regular
      then failed (corrupt ∷ [])
      else if io.open_fails
      then failed (io_error ∷ [])
      else closed io.close_fails (read_open_file io e.content)

  -- `loadSessionOperationJournal`
  unfoldable pub load_session_operation_journal : ReadIo → Directory → Bytes → Loaded Op
  unfolding read_entry
  load_session_operation_journal io dir name =
      if io.lstat_fails
      then failed (io_error ∷ [])
      else elim (lookup name dir) [ none ↦ absent | some e ↦ read_entry io e ]

  -- `writeSessionOperationJournal`
  unfoldable pub write_session_operation_journal :
      WriteIo → Directory → Bytes → SessionOperationJournal Op → Directory × Errors
  unfolding write_encoded
  write_session_operation_journal io dir name j =
      if not (valid_session_operation_journal j)
      then (dir, conflict ∷ [])
      else elim (platform.marshal_journal j) [
        | none ↦ (dir, encoding ∷ [])
        | some data' ↦ write_encoded io dir name data'
      ]
