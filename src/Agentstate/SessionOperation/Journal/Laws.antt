-- ===== src/Agentstate/SessionOperation/Journal/Laws.antt =====
-- What session_operation.go relies on of the JSON of qurl-go's types, and what a written journal
-- reads back as.
use qurl_connector.Base.{
  ◌≡◌, ◌≢◌, ◌⊎◌, inl, inr, true, false, some, [], ◌∷◌, Bytes, Bool, Option-cases, bytes_eq,
  bytes_beq_iff, is_empty, ltb, length, arith,
}
use qurl_connector.Base.Maps.{lookup}
use qurl_connector.Agentstate.SessionOperation.{
  OperationApi, SessionOperationRecord, valid_session_operation_record,
}
use qurl_connector.Agentstate.SessionOperation.Journal.{
  SessionOperationJournal, Platform, Errors, temporary_name, valid_session_operation_journal,
  file_max_bytes,
}
use qurl_connector.Agentstate.SessionOperation.Journal.Directory.{
  Directory, Loaded, absent, present, failed, ReadIo, WriteIo, Entry, new_entry, closed,
  decode_journal, read_open_file, read_entry, load_session_operation_journal,
  write_session_operation_journal,
}
use qurl_connector.Agentstate.SessionOperation.Journal.Write.{
  quiet, Written, refused, replaced, write_atomic,
}

-- A text that was encoded decodes to the same value, is not empty, and tells records apart.
pub record Laws (Op : Type 0) ⦃api : OperationApi Op⦄ ⦃platform : Platform Op⦄ : Type 0 where
  pub decodes :
      (j : SessionOperationJournal Op) (raw : Bytes)
      → valid_session_operation_journal j ≡ true
      → platform.marshal_journal j ≡ some raw
      → platform.decode_strict raw ≡ some j
  pub not_empty :
      (j : SessionOperationJournal Op) (raw : Bytes)
      → platform.marshal_journal j ≡ some raw
      → is_empty raw ≡ false
  pub tells_apart :
      (r s : SessionOperationRecord Op) (raw : Bytes)
      → valid_session_operation_record r ≡ true
      → valid_session_operation_record s ≡ true
      → platform.marshal_record r ≡ some raw
      → platform.marshal_record s ≡ some raw
      → r ≡ s

module _ {Op : Type 0} ⦃api : OperationApi Op⦄ ⦃platform : Platform Op⦄ where
  -- A journal that was loaded is valid, and its encoding is the text of the file.
  pub decode-valid :
      (raw : Bytes) (j : SessionOperationJournal Op)
      → decode_journal raw ≡ present j
      → valid_session_operation_journal j ≡ true
  unfolding decode_journal
  decode-valid raw j h = ground arith

  read-valid :
      (io : ReadIo) (raw : Bytes) (j : SessionOperationJournal Op)
      → read_open_file io raw ≡ present j
      → valid_session_operation_journal j ≡ true
  unfolding read_open_file
  read-valid io raw j h = decode-valid raw j (ground arith)

  closed-present :
      (b : Bool) (r : Loaded Op) (j : SessionOperationJournal Op)
      → closed b r ≡ present j
      → r ≡ present j
  unfolding closed
  closed-present false r j h = h
  closed-present true (failed e) j h = cc
  closed-present true absent j h = cc
  closed-present true (present k) j h = cc

  entry-valid :
      (io : ReadIo) (e : Entry) (j : SessionOperationJournal Op)
      → read_entry io e ≡ present j
      → valid_session_operation_journal j ≡ true
  unfolding read_entry
  entry-valid io e j h =
      read-valid io e.content j
        (closed-present io.close_fails (read_open_file io e.content) j (ground arith))

  pub load-valid :
      (io : ReadIo) (dir : Directory) (name : Bytes) (j : SessionOperationJournal Op)
      → load_session_operation_journal io dir name ≡ present j
      → valid_session_operation_journal j ≡ true
  unfolding load_session_operation_journal
  load-valid io dir name j h = elim (Option-cases (lookup name dir)) [
    | inl e ↦ absurd (ground arith)
    | inr (entry, e) ↦ entry-valid io entry j (ground arith)
  ]

  entry-quiet :
      (io : ReadIo) (e : Entry) (j : SessionOperationJournal Op)
      → read_entry io e ≡ present j
      → read_entry quiet e ≡ present j
  unfolding read_entry
  entry-quiet io e j h =
      let inside : read_open_file io e.content ≡ present j =
        closed-present io.close_fails (read_open_file io e.content) j (ground arith) in
      unfold read_open_file closed in ground arith

  -- A load that succeeds sees what a quiet load sees.
  pub load-quiet :
      (io : ReadIo) (dir : Directory) (name : Bytes) (j : SessionOperationJournal Op)
      → load_session_operation_journal io dir name ≡ present j
      → load_session_operation_journal quiet dir name ≡ present j
  unfolding load_session_operation_journal
  load-quiet io dir name j h = elim (Option-cases (lookup name dir)) [
    | inl e ↦ absurd (ground arith)
    | inr (entry, e) ↦
        rw (e, load_session_operation_journal) (entry-quiet io entry j (ground arith))
  ]

  closed-fails : (b : Bool) (r : Loaded Op) → r ≢ failed [] → closed b r ≢ failed []
  unfolding closed
  closed-fails false r h = h
  closed-fails true (failed []) h = λ e. cc
  closed-fails true (failed (x ∷ xs)) h = λ e. cc
  closed-fails true absent h = λ e. cc
  closed-fails true (present j) h = λ e. cc

  read-fails : (io : ReadIo) (raw : Bytes) → read_open_file {Op = Op} io raw ≢ failed []
  unfolding read_open_file decode_journal
  read-fails io raw = λ e. ground arith

  -- A load that fails returns an error.
  pub load-fails :
      (io : ReadIo) (dir : Directory) (name : Bytes)
      → load_session_operation_journal {Op = Op} io dir name ≢ failed []
  unfolding load_session_operation_journal read_entry
  load-fails io dir name = λ h. elim (Option-cases (lookup name dir)) [
    | inl e ↦ ground arith
    | inr (entry, e) ↦
        closed-fails io.close_fails (read_open_file io entry.content) (read-fails io entry.content)
          (ground arith)
  ]

  -- A file that holds the encoding of a valid journal reads back as the journal.
  pub load-written :
      (laws : Laws Op) (dir : Directory) (name content : Bytes) (j : SessionOperationJournal Op)
      → platform.marshal_journal j ≡ some content
      → valid_session_operation_journal j ≡ true
      → ltb file_max_bytes (length content) ≡ false
      → lookup name dir ≡ some (new_entry content)
      → load_session_operation_journal quiet dir name ≡ present j
  unfolding load_session_operation_journal read_entry read_open_file decode_journal new_entry closed
  load-written laws dir name content j m v small e =
      ground (
        arith,
        laws.decodes j content v m,
        laws.not_empty j content m,
        bytes_beq_iff content content,
      )

  -- What a write leaves of the journal, as a later read sees it.
  pub record Leaves (dir : Directory) (name : Bytes) (j : SessionOperationJournal Op)
      (r : Directory × Errors) : Type 0 where
    pub atomic :
        (lookup name r.0 ≡ lookup name dir)
        ⊎ (load_session_operation_journal quiet r.0 name ≡ present j)
    pub done : r.1 ≡ [] → load_session_operation_journal quiet r.0 name ≡ present j

  pub write-Leaves :
      (laws : Laws Op) (io : WriteIo) (dir : Directory) (name : Bytes)
      (j : SessionOperationJournal Op)
      → Leaves dir name j (write_session_operation_journal io dir name j)
  write-Leaves laws io dir name j = from (write_atomic io dir name j)
    where
      from :
          {r : Directory × Errors}
          → Written dir name (temporary_name name io.suffix) j r
          → Leaves dir name j r
      from (refused e ne same) = record {
        atomic = inl (ground arith);
        done = λ h. absurd (ne (ground arith));
      }
      from (replaced content m v small rep) = record {
        atomic = elim rep.atomic [
          | inl same ↦ inl same
          | inr new ↦ inr (load-written laws _ name content j m v small new)
        ];
        done = λ h. load-written laws _ name content j m v small (rep.done h);
      }
