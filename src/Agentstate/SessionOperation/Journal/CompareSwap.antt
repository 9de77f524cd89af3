-- ===== src/Agentstate/SessionOperation/Journal/CompareSwap.antt =====
-- The compare-and-swap guard of TransitionSessionOperation in session_operation.go: of two writers
-- that hold the same prior record, one wins.
use qurl_connector.Base.{
  ℕ, zero, suc, ◌≡◌, ◌≢◌, inl, inr, refl, sym, ap, ◌∙◌, subst, true, not, ◌||◌, Option, none, some,
  List, [], ◌∷◌, Bytes, bytes_eq, bytes_beq, bytes_beq_iff, Bool-cases, Option-cases, arith,
  if_both, is_empty,
}
use qurl_connector.Agentstate.SessionOperation.{
  OperationApi, SessionOperationRecord, valid_session_operation_record,
  valid_session_operation_transition,
}
use qurl_connector.Agentstate.SessionOperation.Journal.{
  SessionOperationJournal, Platform, Errors, contains_id, valid_records,
  find_session_operation_record, same_session_operation_record, same_encoding,
  valid_session_operation_journal, session_operation_file_name,
}
use qurl_connector.Agentstate.SessionOperation.Journal.Directory.{
  Directory, Loaded, absent, present, failed, ReadIo, WriteIo, load_session_operation_journal,
  error_if, write_session_operation_journal,
}
use qurl_connector.Agentstate.SessionOperation.Journal.Store.{
  LockIo, Locked, after_lock, with_lock, with_namespace_lock, find_in, transition_loaded, set,
  resource, transition_session_operation,
}
use qurl_connector.Agentstate.SessionOperation.Journal.Laws.{
  Laws, write-Leaves, load-valid, load-fails, load-quiet,
}
use qurl_connector.Agentstate.SessionOperation.Journal.Write.{quiet}
use qurl_connector.Agentstate.SessionOperation.Journal.Refinement.{
  after_lock_nil, append_nil, with_lock_done, find_in_done,
}

-- A locked function that changes nothing and fails does so under the lock as well.
with_lock_fails :
    (sha256 : Bytes → Bytes) (io : LockIo) (rid name : Bytes) (fn : Locked) (dir : Directory)
    → session_operation_file_name sha256 rid ≡ some name
    → (fn dir name).0 ≡ dir
    → (fn dir name).1 ≢ []
    → ((with_lock sha256 io rid fn dir).0 ≡ dir) × ((with_lock sha256 io rid fn dir).1 ≢ [])
unfolding with_lock with_namespace_lock
with_lock_fails sha256 io rid name fn dir n same fails = (
  ground arith,
  λ h. fails (
      after_lock_nil io (fn dir name).1
        (append_nil (after_lock io (fn dir name).1) (error_if io.unlock_fails) (ground arith))),
)

module _ {Op : Type 0} ⦃api : OperationApi Op⦄ ⦃platform : Platform Op⦄ (laws : Laws Op) where
  abbrev IsValid : SessionOperationRecord Op → Type 0
  IsValid r = valid_session_operation_record r ≡ true

  abbrev id : SessionOperationRecord Op → Bytes
  id r = api.operation_id r.operation

  encodings_eq :
      (r p : SessionOperationRecord Op) (a b : Option Bytes)
      → platform.marshal_record r ≡ a
      → platform.marshal_record p ≡ b
      → IsValid r
      → IsValid p
      → same_encoding a b ≡ true
      → r ≡ p
  unfolding same_encoding
  encodings_eq r p (some x) (some y) er ep vr vp h =
      laws.tells_apart r p y vr vp (er ∙ ap some ((bytes_beq_iff x y).0 h)) ep
  encodings_eq r p (some x) none er ep vr vp h = cc
  encodings_eq r p none b er ep vr vp h = cc

  -- Valid records that encode alike are one record.
  same-eq :
      (r p : SessionOperationRecord Op)
      → IsValid r
      → IsValid p
      → same_session_operation_record r p ≡ true
      → r ≡ p
  unfolding same_session_operation_record
  same-eq r p vr vp h = encodings_eq r p _ _ refl refl vr vp h

  -- A record whose ID was seen is not in the rest.
  find_seen :
      (rid : Bytes) (seen : List Bytes) (rs : List (SessionOperationRecord Op))
      (p : SessionOperationRecord Op)
      → IsValid p
      → valid_records rid seen rs ≡ true
      → contains_id seen (id p) ≡ true
      → find_session_operation_record rs p ≡ none
  unfolding valid_records find_session_operation_record contains_id
  find_seen rid seen [] p v h c = refl
  find_seen rid seen (r ∷ rs) p v h c = elim (Bool-cases (same_session_operation_record r p)) [
    | inl e ↦ absurd (ground (arith, ap id (same-eq r p (ground arith) v e)))
    | inr e ↦ rw e (rw (find_seen rid (id r ∷ seen) rs p v (ground arith) (ground arith)))
  ]

  -- After the replacement the prior record is not found.
  find-set :
      (rid : Bytes) (seen : List Bytes) (rs : List (SessionOperationRecord Op))
      (p n : SessionOperationRecord Op) (i : ℕ)
      → IsValid p
      → id n ≡ id p
      → n ≢ p
      → find_session_operation_record rs p ≡ some i
      → valid_records rid seen (set rs i n) ≡ true
      → find_session_operation_record (set rs i n) p ≡ none
  unfolding valid_records find_session_operation_record contains_id set
  find-set rid seen [] p n i v e ne f h = absurd (ground arith)
  find-set rid seen (r ∷ rs) p n zero v e ne f h =
      elim (Bool-cases (same_session_operation_record n p)) [
        | inl alike ↦ absurd (ne (same-eq n p (ground arith) v alike))
        | inr apart ↦ rw apart (
            rw (
              find_seen rid (id n ∷ seen) rs p v (ground arith)
                (ground (arith, bytes_beq_iff (id n) (id p)))))
      ]
  find-set rid seen (r ∷ rs) p n (suc i) v e ne f h =
      ground (arith, find-set rid (id r ∷ seen) rs p n i v e ne (ground arith) (ground arith))

  -- The state after a transition from `p` to `n`.
  record Swapped (p : SessionOperationRecord Op) (dir : Directory) (name : Bytes) : Type 0 where
    journal : SessionOperationJournal Op
    stored : load_session_operation_journal quiet dir name ≡ present journal
    gone : find_session_operation_record journal.records p ≡ none

  Swapped-at :
      (io : WriteIo) (p n : SessionOperationRecord Op) (dir dir' : Directory) (name : Bytes)
      (j : SessionOperationJournal Op) (i : ℕ)
      → IsValid p
      → id n ≡ id p
      → n ≢ p
      → find_session_operation_record j.records p ≡ some i
      → write_session_operation_journal io dir name (record j { records = set j.records i n })
        ≡ (dir', [])
      → Swapped p dir' name
  Swapped-at io p n dir dir' name j i v e ne f w =
      let j' : SessionOperationJournal Op = record j { records = set j.records i n } in
      let stored : load_session_operation_journal quiet dir' name ≡ present j' =
        rw w at ((write-Leaves laws io dir name j').done (rw w)) in
      record {
        journal = j';
        stored = stored;
        gone = find-set j.protected_resource_id [] j.records p n i v e ne f (
            unfold valid_session_operation_journal in
            ground (arith, load-valid quiet dir' name j' stored));
      }

  Swapped-loaded :
      (io : WriteIo) (p n : SessionOperationRecord Op) (dir dir' : Directory) (name : Bytes)
      (before : Loaded Op)
      → before ≢ failed []
      → IsValid p
      → id n ≡ id p
      → n ≢ p
      → transition_loaded io p n dir name before ≡ (dir', [])
      → Swapped p dir' name
  unfolding transition_loaded
  Swapped-loaded io p n dir dir' name (failed x) h v e ne t = absurd (h (ground arith))
  Swapped-loaded io p n dir dir' name absent h v e ne t = absurd (ground arith)
  Swapped-loaded io p n dir dir' name (present j) h v e ne t = elim (Option-cases (find_in j p)) [
    | inl miss ↦ absurd (ground arith)
    | inr (i, hit) ↦
        Swapped-at io p n dir dir' name j i v e ne (find_in_done laws j p i hit) (ground arith)
  ]

  loses :
      (io : WriteIo) (p m : SessionOperationRecord Op) (dir : Directory) (name : Bytes)
      (now : Loaded Op)
      → now ≢ failed []
      → ((j : SessionOperationJournal Op)
          → now ≡ present j
          → find_session_operation_record j.records p ≡ none)
      → ((transition_loaded io p m dir name now).0 ≡ dir)
        × ((transition_loaded io p m dir name now).1 ≢ [])
  unfolding transition_loaded find_in
  loses io p m dir name (failed x) h gone = (refl, λ e. h (ap failed e))
  loses io p m dir name absent h gone = (refl, λ e. cc)
  loses io p m dir name (present j) h gone =
      let missing = gone j refl in (ground arith, λ e. ground arith)

  present_injective : (j k : SessionOperationJournal Op) → present j ≡ present k → j ≡ k
  present_injective j k h = cc

  none_left :
      (p : SessionOperationRecord Op) (dir : Directory) (name : Bytes) (read : ReadIo)
      → Swapped p dir name
      → (j : SessionOperationJournal Op) → load_session_operation_journal read dir name ≡ present j
      → find_session_operation_record j.records p ≡ none
  none_left p dir name read after j e =
      let alike : present after.journal ≡ present j =
        sym after.stored ∙ load-quiet read dir name j e in
      subst (λ (k : SessionOperationJournal Op). find_session_operation_record k.records p ≡ none)
        (present_injective _ _ alike) after.gone

  -- Once a transition from `p` to another record has returned no error, every other transition from
  -- `p` fails and leaves the directory as it is, whatever it writes and whatever fails on its way.
  pub second_writer_loses :
      (lock lock' : LockIo) (read read' : ReadIo) (write write' : WriteIo)
      (p n m : SessionOperationRecord Op) (dir dir' : Directory) (name : Bytes)
      → session_operation_file_name platform.sha256 (resource p) ≡ some name
      → n ≢ p
      → transition_session_operation lock read write p n dir ≡ (dir', [])
      → ((transition_session_operation lock' read' write' p m dir').0 ≡ dir')
        × ((transition_session_operation lock' read' write' p m dir').1 ≢ [])
  unfolding transition_session_operation valid_session_operation_transition
  second_writer_loses lock lock' read read' write write' p n m dir dir' name f ne first =
      let fn : Locked =
        λ d k. transition_loaded write p n d k (load_session_operation_journal read d k) in
      let again : Locked =
        λ d k. transition_loaded write' p m d k (load_session_operation_journal read' d k) in
      let inside : with_lock platform.sha256 lock (resource p) fn dir ≡ (dir', []) = ground arith in
      let kept : p.operation ≡ n.operation = (api.operation_eq.equals_iff _ _).0 (ground arith) in
      let after : Swapped p dir' name =
        Swapped-loaded write p n dir dir' name (load_session_operation_journal read dir name)
          (load-fails read dir name) (ground arith) (ap api.operation_id (sym kept)) ne
          (with_lock_done platform.sha256 lock (resource p) name fn dir f inside) in
      let lost =
        loses write' p m dir' name (load_session_operation_journal read' dir' name)
          (load-fails read' dir' name) (none_left p dir' name read' after) in
      if_both (λ (r : Directory × Errors). (r.0 ≡ dir') × (r.1 ≢ []))
        (is_empty (resource p)
          || (not (bytes_beq (resource p) (resource m))
              || not (valid_session_operation_transition p m)))
        (refl, λ h. cc)
        (with_lock_fails platform.sha256 lock' (resource p) name again dir' f lost.0 lost.1)
