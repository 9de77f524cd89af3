-- ===== src/Agentstate/SessionOperation/Journal/Write.antt =====
-- Replacing a journal file (session_operation.go): atomic whatever fails, and read back as written.
use native.Mathlib.Omega.{arith}
use qurl_connector.Base.{
  ◌≡◌, ◌≢◌, ◌⊎◌, inl, inr, refl, sym, ap, ◌∙◌, true, false, ◌||◌, some, [], ◌∷◌, Bytes, bytes_eq,
  bytes_beq_iff, Bool-cases, Option-cases, ltb, length, length-append, if_both,
}
use qurl_connector.Base.Maps.{lookup, insert, erase, lookup-insert, lookup-erase}
use qurl_connector.Agentstate.SessionOperation.{OperationApi}
use qurl_connector.Agentstate.SessionOperation.Journal.{
  SessionOperationJournal, Platform, Errors, io_error, unsafe_shape, temporary_name,
  valid_session_operation_journal, file_max_bytes,
}
use qurl_connector.Agentstate.SessionOperation.Journal.Directory.{
  Directory, Entry, ReadIo, WriteIo, abort, contains, committed_errors, unsafe_entry, replace_file,
  new_entry, write_encoded, write_session_operation_journal,
}

-- A read in which the operating system refuses nothing.
abbrev pub quiet : ReadIo
quiet = record {
  lstat_fails = false;
  open_fails = false;
  invalid = false;
  read_fails = false;
  invalid_after = false;
  close_fails = false;
}

pub temporary-ne : (name suffix : Bytes) → temporary_name name suffix ≢ name
unfolding temporary_name
temporary-ne name suffix e = absurd (omega (arith, ap length e, length-append {0} name))

-- A file was left as it was, or holds exactly `content`; no file but it and `tmp` changed; and
-- without an error it holds `content`.
pub record Replaced (dir : Directory) (name tmp content : Bytes) (r : Directory × Errors)
    : Type 0 where
  pub atomic : (lookup name r.0 ≡ lookup name dir) ⊎ (lookup name r.0 ≡ some (new_entry content))
  pub others : (k : Bytes) → k ≢ name → k ≢ tmp → lookup k r.0 ≡ lookup k dir
  pub done : r.1 ≡ [] → lookup name r.0 ≡ some (new_entry content)

insert_elsewhere :
    (tmp k : Bytes) (e : Entry) (dir : Directory)
    → k ≢ tmp
    → lookup k (insert tmp e dir) ≡ lookup k dir
insert_elsewhere tmp k e dir h = ground (arith, lookup-insert tmp k e dir, bytes_beq_iff tmp k)

pub erase_elsewhere :
    (tmp k : Bytes) (dir : Directory) → k ≢ tmp → lookup k (erase tmp dir) ≡ lookup k dir
erase_elsewhere tmp k dir h = ground (arith, lookup-erase tmp k dir, bytes_beq_iff tmp k)

module _ (name tmp content : Bytes) (dir : Directory) (differ : tmp ≢ name) where
  pub unchanged : (e : Errors) → e ≢ [] → Replaced dir name tmp content (dir, e)
  unchanged e h = record {
    atomic = inl refl;
    others = λ k n t. refl;
    done = λ nothing. absurd (h nothing);
  }

  cleaned :
      (io : WriteIo) (e : Entry) (k : Bytes)
      → k ≢ tmp
      → lookup k (abort io (insert tmp e dir) tmp).0 ≡ lookup k dir
  unfolding abort
  cleaned io e k h =
      if_both (λ (d : Directory). lookup k d ≡ lookup k dir) io.remove_fails
        (insert_elsewhere tmp k e dir h)
        (erase_elsewhere tmp k (insert tmp e dir) h ∙ insert_elsewhere tmp k e dir h)

  abort_fails : (io : WriteIo) (e : Entry) → (abort io (insert tmp e dir) tmp).1 ≢ []
  unfolding abort
  abort_fails io e = λ h. cc

  aborted :
      (io : WriteIo) (e : Entry) → Replaced dir name tmp content (abort io (insert tmp e dir) tmp)
  aborted io e = record {
    atomic = inl (cleaned io e name (λ h. differ (sym h)));
    others = λ k n t. cleaned io e k t;
    done = λ nothing. absurd (abort_fails io e nothing);
  }

  committed :
      (e : Errors)
      → Replaced dir name tmp content
          (insert name (new_entry content) (erase tmp (insert tmp (new_entry content) dir)), e)
  committed e =
      let old = erase tmp (insert tmp (new_entry content) dir) in
      let written : lookup name (insert name (new_entry content) old) ≡ some (new_entry content) =
        ground (arith, lookup-insert name name (new_entry content) old, bytes_beq_iff name name) in
      record {
        atomic = inr written;
        others = λ k n t.
            insert_elsewhere name k (new_entry content) old n
            ∙ (erase_elsewhere tmp k (insert tmp (new_entry content) dir) t
                ∙ insert_elsewhere tmp k (new_entry content) dir t);
        done = λ nothing. written;
      }

  pub replace-Replaced :
      (io : WriteIo) → Replaced dir name tmp content (replace_file io dir name tmp content)
  unfolding replace_file
  replace-Replaced io =
      let P = Replaced dir name tmp content in
      if_both P (io.create_fails || contains tmp dir) (unchanged _ (λ h. cc)) (
        if_both P io.chmod_fails (aborted io (new_entry [])) (
          if_both P io.write_fails (aborted io (new_entry io.partial)) (
            if_both P (io.sync_fails || (io.invalid_temporary || io.rename_fails))
              (aborted io (new_entry content)) (committed (committed_errors io)))))

module _ {Op : Type 0} ⦃api : OperationApi Op⦄ ⦃platform : Platform Op⦄ where
  -- What a write of the journal may come to.
  pub data Written (dir : Directory) (name tmp : Bytes) (j : SessionOperationJournal Op)
      (r : Directory × Errors) : Type 0 where
    refused : (e : Errors) → e ≢ [] → r ≡ (dir, e) → Written dir name tmp j r
    replaced :
        (content : Bytes)
        → platform.marshal_journal j ≡ some content
        → valid_session_operation_journal j ≡ true
        → ltb file_max_bytes (length content) ≡ false
        → Replaced dir name tmp content r
        → Written dir name tmp j r

  encoded-Written :
      (io : WriteIo) (dir : Directory) (name content : Bytes) (j : SessionOperationJournal Op)
      → platform.marshal_journal j ≡ some content
      → valid_session_operation_journal j ≡ true
      → Written dir name (temporary_name name io.suffix) j (write_encoded io dir name content)
  unfolding write_encoded
  encoded-Written io dir name content j m v =
      let P = Written dir name (temporary_name name io.suffix) j in
      elim (Bool-cases (ltb file_max_bytes (length content))) [
        | inl big ↦ rw big (refused _ (λ h. cc) refl)
        | inr small ↦ rw small (
            if_both P io.lstat_fails (refused (io_error ∷ []) (λ h. cc) refl) (
              if_both P (unsafe_entry (lookup name dir))
                (refused (unsafe_shape ∷ []) (λ h. cc) refl)
                (if_both P io.rand_fails (refused (io_error ∷ []) (λ h. cc) refl) (
                  replaced content m v small
                    (replace-Replaced name _ content dir (temporary-ne name io.suffix) io)))))
      ]

  -- Whatever the operating system refuses, a write of a journal either changes nothing and returns an
  -- error, or was given a valid journal and leaves its file as it was or holding the whole
  -- encoding, changes no other file but its temporary one, and without an error has written it.
  pub write_atomic :
      (io : WriteIo) (dir : Directory) (name : Bytes) (j : SessionOperationJournal Op)
      → Written dir name
          (temporary_name name io.suffix)
          j
          (write_session_operation_journal io dir name j)
  unfolding write_session_operation_journal
  write_atomic io dir name j = elim (Bool-cases (valid_session_operation_journal j)) [
    | inr bad ↦ rw bad (refused _ (λ h. cc) refl)
    | inl good ↦ elim (Option-cases (platform.marshal_journal j)) [
      | inl e ↦ rw (good, e, write_session_operation_journal) (refused _ (λ h. cc) refl)
      | inr (content, e) ↦
          rw (good, e, write_session_operation_journal)
            (encoded-Written io dir name content j e good)
    ]
  ]
