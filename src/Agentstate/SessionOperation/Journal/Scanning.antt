-- ===== src/Agentstate/SessionOperation/Journal/Scanning.antt =====
-- Proofs on the loop of a scan (pkg/agentstate/session_operation.go).
use qurl_connector.Base.{
  ◌≡◌, ◌≢◌, ◌⊎◌, inl, inr, refl, sym, ap, ◌∙◌, true, false, not, ◌||◌, Option, none, some, List, [],
  ◌∷◌, ◌++◌, Bytes, bytes_eq, All, Any, All-append, bytes_beq_iff, subst, if◌then◌else◌, Bool-cases,
  arith, if_both, if_cases,
}
use qurl_connector.Base.Maps.{lookup, erase}
use qurl_connector.Agentstate.SessionOperation.{OperationApi}
use qurl_connector.Agentstate.SessionOperation.Journal.{
  SessionOperationJournal, Platform, Errors, session_operation_file_name,
}
use qurl_connector.Agentstate.SessionOperation.Journal.Directory.{
  Directory, Entry, Loaded, absent, present, failed, ReadIo, load_session_operation_journal,
}
use qurl_connector.Agentstate.SessionOperation.Journal.Write.{quiet, erase_elsewhere}
use qurl_connector.Agentstate.SessionOperation.Journal.Laws.{load-fails, load-quiet}
use qurl_connector.Agentstate.SessionOperation.Journal.Scan.{
  SessionOperationResourceScan, ScanIo, ScanLoop, Finding, resource_found, permanent, retryable,
  removed_temporary, ignored, add_finding, is_removal, file_names, judge_journal, file_name_is,
  wraps_corrupt, remove_orphan, scan_name, scan_step, scan_names,
}
use qurl_connector.Agentstate.SessionOperation.Journal.FileNames.{
  valid_session_operation_file_name, valid_session_operation_temporary_file_name,
}

Any-left {ℓ} : {A : Type ℓ} (P : A → Type 0) (xs ys : List A) → Any P xs → Any P (xs ++ ys)
Any-left P [] ys h = absurd h
Any-left P (x ∷ xs) ys (inl h) = inl h
Any-left P (x ∷ xs) ys (inr h) = inr (Any-left P xs ys h)

Any-right {ℓ} : {A : Type ℓ} (P : A → Type 0) (xs ys : List A) → Any P ys → Any P (xs ++ ys)
Any-right P [] ys h = h
Any-right P (x ∷ xs) ys h = inr (Any-right P xs ys h)

pub some_left : (xs ys : Errors) → xs ≢ [] → (xs ++ ys) ≢ []
some_left [] ys h = λ e. h refl
some_left (x ∷ xs) ys h = λ e. cc

pub some_right : (xs ys : Errors) → ys ≢ [] → (xs ++ ys) ≢ []
some_right [] ys h = h
some_right (x ∷ xs) ys h = λ e. cc

pub listed :
    (name : Bytes) (e : Entry) (dir : Directory)
    → lookup name dir ≡ some e
    → Any (λ (x : Bytes). x ≡ name) (file_names dir)
unfolding lookup file_names
listed name e [] h = absurd (ground arith)
listed name e ((old, v) ∷ dir) h = elim (Bool-cases (bytes_eq.equals old name)) [
  | inl same ↦ inl ((bytes_beq_iff old name).0 same)
  | inr other ↦ inr (listed name e dir (ground arith))
]

named : (o : Option Bytes) (name : Bytes) → file_name_is o name ≡ true → o ≡ some name
unfolding file_name_is
named none name h = absurd (ground arith)
named (some x) name h = ap some ((bytes_beq_iff x name).0 h)

module _ (Op : Type 0) ⦃api : OperationApi Op⦄ ⦃platform : Platform Op⦄ where
  -- The resource whose journal has the name is reported, or an error is.
  abbrev pub IsTold : Bytes → SessionOperationResourceScan → Type 0
  IsTold name scan =
      Any (λ (rid : Bytes). session_operation_file_name platform.sha256 rid ≡ some name)
        scan.resource_ids
      ⊎ (scan.permanent_error ≢ [])
      ⊎ (scan.retryable_error ≢ [])

  -- A resource with a journal that a reader finds under its own name.
  abbrev pub HasJournal : Directory → Bytes → Type 0
  HasJournal dir rid =
      (name : Bytes) × (j : SessionOperationJournal Op) × (load_session_operation_journal quiet dir
          name
        ≡ present j)
      × (j.protected_resource_id ≡ rid)
      × (session_operation_file_name platform.sha256 rid ≡ some name)

  add_finding-IsTold :
      (f : Finding) (name : Bytes) (scan : SessionOperationResourceScan)
      → IsTold name scan
      → IsTold name (add_finding f scan)
  unfolding add_finding
  add_finding-IsTold (resource_found rid) name scan (inl h) = inl (Any-left _ scan.resource_ids _ h)
  add_finding-IsTold (resource_found rid) name scan (inr h) = inr h
  add_finding-IsTold (permanent e) name scan (inl h) = inl h
  add_finding-IsTold (permanent e) name scan (inr (inl h)) = inr (inl (some_left _ e h))
  add_finding-IsTold (permanent e) name scan (inr (inr h)) = inr (inr h)
  add_finding-IsTold (retryable e) name scan (inl h) = inl h
  add_finding-IsTold (retryable e) name scan (inr (inl h)) = inr (inl h)
  add_finding-IsTold (retryable e) name scan (inr (inr h)) = inr (inr (some_left _ e h))
  add_finding-IsTold removed_temporary name scan h = h
  add_finding-IsTold ignored name scan h = h

  -- What the case of a journal file finds.
  pub data IsJudged (name : Bytes) (l : Loaded Op) : Finding → Type 0 where
    found :
        (j : SessionOperationJournal Op)
        → l ≡ present j
        → session_operation_file_name platform.sha256 j.protected_resource_id ≡ some name
        → IsJudged name l (resource_found j.protected_resource_id)
    for_good : (e : Errors) → e ≢ [] → IsJudged name l (permanent e)
    for_now : (e : Errors) → e ≢ [] → IsJudged name l (retryable e)

  judge-IsJudged :
      (name : Bytes) (l : Loaded Op) → l ≢ failed [] → IsJudged name l (judge_journal name l)
  unfolding judge_journal
  judge-IsJudged name (failed e) h =
      let error : e ≢ [] = λ q. h (ap failed q) in
      if_both (IsJudged name (failed e)) (wraps_corrupt e) (for_good e error) (for_now e error)
  judge-IsJudged name absent h = for_now _ (λ q. cc)
  judge-IsJudged name (present j) h =
      if_cases (IsJudged name (present j))
        (file_name_is (session_operation_file_name platform.sha256 j.protected_resource_id) name)
        (λ same. found j refl (named _ name same)) (λ other. for_good _ (λ q. cc))

  judged-IsTold :
      (name : Bytes) (l : Loaded Op) (f : Finding) (scan : SessionOperationResourceScan)
      → IsJudged name l f
      → IsTold name (add_finding f scan)
  unfolding add_finding
  judged-IsTold name l _ scan (found j p n) = inl (Any-right _ scan.resource_ids _ (inl n))
  judged-IsTold name l _ scan (for_good e h) = inr (inl (some_right scan.permanent_error e h))
  judged-IsTold name l _ scan (for_now e h) = inr (inr (some_right scan.retryable_error e h))

  judged_stays :
      {name : Bytes} {l : Loaded Op} {f : Finding} → IsJudged name l f → is_removal f ≢ true
  unfolding is_removal
  judged_stays (found j p n) = λ h. cc
  judged_stays (for_good e h) = λ q. cc
  judged_stays (for_now e h) = λ q. cc

  -- The loop against the directory that it started on: the journals stand, and what it reported is there.
  pub record IsSound (dir : Directory) (l : ScanLoop) : Type 0 where
    pub kept :
        (name : Bytes)
        → valid_session_operation_file_name name ≡ true
        → lookup name l.dir ≡ lookup name dir
    pub sound : All (HasJournal dir) l.scan.resource_ids

  load-same :
      (io : ReadIo) (d e : Directory) (name : Bytes)
      → lookup name d ≡ lookup name e
      → load_session_operation_journal {Op = Op} io d name
        ≡ load_session_operation_journal io e name
  unfolding load_session_operation_journal
  load-same io d e name h = rw h refl

  -- A name that is removed is not a journal's.
  removal-other :
      (io : ScanIo) (d : Directory) (name : Bytes)
      → is_removal (scan_name Op io d name) ≡ true
      → valid_session_operation_file_name name ≡ false
  unfolding scan_name
  removal-other io d name =
      if_cases
        (λ (f : Finding). is_removal f ≡ true → valid_session_operation_file_name name ≡ false)
        (valid_session_operation_file_name name)
        (λ v h. absurd (judged_stays (judge-IsJudged name _ (load-fails (io.reads name) d name)) h))
        (λ v h. v)

  scanned_finding :
      (io : ScanIo) (d : Directory) (name : Bytes)
      → valid_session_operation_file_name name ≡ true
      → IsJudged name
          (load_session_operation_journal (io.reads name) d name)
          (scan_name Op io d name)
  unfolding scan_name
  scanned_finding io d name valid =
      rw valid (judge-IsJudged name _ (load-fails (io.reads name) d name))

  orphan_adds_none :
      (io : ScanIo) (name : Bytes) (o : Option Entry) (scan : SessionOperationResourceScan)
      → (add_finding (remove_orphan io name o) scan).resource_ids ≡ scan.resource_ids
  unfolding add_finding remove_orphan
  orphan_adds_none io name none scan = refl
  orphan_adds_none io name (some e) scan =
      let P = λ (f : Finding). (add_finding f scan).resource_ids ≡ scan.resource_ids in
      if_both P (io.stat_fails name) refl
        (if_both P (e.symlink || not e.regular) refl (if_both P (io.remove_fails name) refl refl))

  judged-HasJournal :
      (io : ScanIo) (dir : Directory) (name : Bytes) (l : ScanLoop) (f : Finding)
      → IsSound dir l
      → valid_session_operation_file_name name ≡ true
      → IsJudged name (load_session_operation_journal (io.reads name) l.dir name) f
      → All (HasJournal dir) (add_finding f l.scan).resource_ids
  unfolding add_finding
  judged-HasJournal io dir name l f h valid (found j p n) =
      let read = sym (load-same (io.reads name) l.dir dir name (h.kept name valid)) ∙ p in
      All-append (HasJournal dir) l.scan.resource_ids _ h.sound
        ((name, j, load-quiet (io.reads name) dir name j read, refl, n), tt)
  judged-HasJournal io dir name l f h valid (for_good e q) = h.sound
  judged-HasJournal io dir name l f h valid (for_now e q) = h.sound

  finding-HasJournal :
      (io : ScanIo) (dir : Directory) (name : Bytes) (l : ScanLoop)
      → IsSound dir l
      → All (HasJournal dir) (add_finding (scan_name Op io l.dir name) l.scan).resource_ids
  unfolding scan_name
  finding-HasJournal io dir name l h =
      let P = λ (f : Finding). All (HasJournal dir) (add_finding f l.scan).resource_ids in
      if_cases P (valid_session_operation_file_name name)
        (λ v.
          judged-HasJournal io dir name l _ h v
            (judge-IsJudged name _ (load-fails (io.reads name) l.dir name)))
        (λ v.
          if_both P (valid_session_operation_temporary_file_name name)
            (rw (orphan_adds_none io name (lookup name l.dir) l.scan) h.sound)
            (unfold add_finding in h.sound))

  step_kept :
      (io : ScanIo) (name other : Bytes) (d : Directory)
      → valid_session_operation_file_name other ≡ true
      → lookup other (if is_removal (scan_name Op io d name) then erase name d else d)
        ≡ lookup other d
  step_kept io name other d valid =
      if_cases (λ (e : Directory). lookup other e ≡ lookup other d)
        (is_removal (scan_name Op io d name))
        (λ gone. erase_elsewhere name other d (λ same.
          let not_one = removal-other io d name gone in
          absurd (ground (arith, ap valid_session_operation_file_name same))))
        (λ there. refl)

  step-IsSound :
      (io : ScanIo) (dir : Directory) (name : Bytes) (l : ScanLoop)
      → IsSound dir l
      → IsSound dir (scan_step (scan_name Op io l.dir name) name l)
  unfolding scan_step
  step-IsSound io dir name l h = record {
    kept = λ other valid. step_kept io name other l.dir valid ∙ h.kept other valid;
    sound = finding-HasJournal io dir name l h;
  }

  pub loop-IsSound :
      (io : ScanIo) (dir : Directory) (names : List Bytes) (l : ScanLoop)
      → IsSound dir l
      → IsSound dir (scan_names Op io names l)
  unfolding scan_names
  loop-IsSound io dir [] l h = h
  loop-IsSound io dir (name ∷ names) l h =
      loop-IsSound io dir names _ (step-IsSound io dir name l h)

  loop_tells :
      (io : ScanIo) (name : Bytes) (names : List Bytes) (l : ScanLoop)
      → IsTold name l.scan
      → IsTold name (scan_names Op io names l).scan
  unfolding scan_names scan_step
  loop_tells io name [] l h = h
  loop_tells io name (x ∷ names) l h =
      loop_tells io name names _ (add_finding-IsTold (scan_name Op io l.dir x) name l.scan h)

  pub loop-IsTold :
      (io : ScanIo) (name : Bytes) (names : List Bytes) (l : ScanLoop)
      → valid_session_operation_file_name name ≡ true
      → Any (λ (x : Bytes). x ≡ name) names
      → IsTold name (scan_names Op io names l).scan
  unfolding scan_names scan_step
  loop-IsTold io name [] l valid h = absurd h
  loop-IsTold io name (x ∷ names) l valid (inl same) = loop_tells io name names _ (
      subst (λ (y : Bytes). IsTold name (add_finding (scan_name Op io l.dir y) l.scan)) (sym same)
        (judged-IsTold name _ _ l.scan (scanned_finding io l.dir name valid)))
  loop-IsTold io name (x ∷ names) l valid (inr h) = loop-IsTold io name names _ valid h
