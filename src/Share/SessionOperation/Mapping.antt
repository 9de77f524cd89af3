-- ===== src/Share/SessionOperation/Mapping.antt =====
-- RecordMapped and the calls that it may make (pkg/share/session_operation.go).
use qurl_connector.Base.{
  ◌≡◌, refl, sym, Bool, true, false, not, ◌||◌, Option, none, some, List, Bytes, arith, if_cases,
  subst,
}
use qurl_connector.Agentstate.SessionOperation.{
  OperationApi, SessionOperationRecord, dispatching, mapped, valid_session_operation_record,
  valid_session_operation_admission, valid_session_operation_transition, admission_fits,
}
use qurl_connector.Share.SessionOperation.{
  Error, Failure, NativeSessionReceipt, admission_from_receipt,
}
use qurl_connector.Share.SessionOperation.Program.{
  Call, load, transition, Reply, Loaded, records, load_failed, Program, World, run,
}
use qurl_connector.Share.SessionOperation.Recover.Settle.{find_operation}
use qurl_connector.Share.SessionOperation.Recover.Judge.{is_dispatching, mapped_record}
use qurl_connector.Share.SessionOperation.Dispatch.{
  record_mapped, map_loaded, map_found, write_result,
}
use qurl_connector.Share.SessionOperation.Protocol.{
  Protocol, Ensures, Follows, run-Follows, run-result, state_after,
}
use qurl_connector.Share.SessionOperation.Accepted.{IsDecoded, map-IsWrite, fits_now}
use qurl_connector.Share.SessionOperation.Discipline.{LoadFits}
use qurl_connector.Share.SessionOperation.Discipline.Stages.{find_operation-IsDecoded}

-- What RecordMapped has seen and done: what its load showed, and the record that it wrote.
pub record Admitting (Op : Type 0) : Type 0 where
  pub shown : Option (Loaded Op)
  pub tried : Bool  -- a write was asked for
  pub written : Option (SessionOperationRecord Op)

abbrev pub unloaded : {Op : Type 0} → Admitting Op
unloaded = record { shown = none; tried = false; written = none }

module _ {Op : Type 0} ⦃api : OperationApi Op⦄ (rid : Bytes) (op : Op)
    (receipt : NativeSessionReceipt) where
  -- The write is over the loaded record of the operation, which was dispatching, and changes
  -- its status to mapped and its admission to the receipt's, and nothing else.
  pub record MayMap (s : Admitting Op) (p n : SessionOperationRecord Op) : Type 0 where
    pub shown : List (SessionOperationRecord Op)
    pub loaded : s.shown ≡ some (records shown)
    pub untried : s.tried ≡ false
    pub found : find_operation shown (api.operation_id op) ≡ some p
    pub operation : p.operation ≡ op
    pub status : p.status ≡ dispatching
    pub next : n ≡ record p { status = mapped; admission = some (admission_from_receipt receipt) }
    pub accepted : valid_session_operation_transition p n ≡ true

  abbrev pub MappingAllows : Admitting Op → Call Op → Type 0
  MappingAllows s (load asked) = (asked ≡ rid) × (s.shown ≡ none)
  MappingAllows s (transition p n) = MayMap s p n
  MappingAllows s c = ⊥

  -- What is assumed of the replies: the store yields valid records.
  abbrev pub MappingAnswers : (c : Call Op) → Reply c → Type 0
  MappingAnswers (load asked) l = LoadFits l
  MappingAnswers c r = Unit

  abbrev pub mapped_after : Admitting Op → SessionOperationRecord Op → Option Error → Admitting Op
  mapped_after s n none = record s { tried = true; written = some n }
  mapped_after s n (some e) = record s { tried = true }

  abbrev pub mapping_after : Admitting Op → (c : Call Op) → Reply c → Admitting Op
  mapping_after s (load asked) l = record s { shown = some l }
  mapping_after s (transition p n) e = mapped_after s n e
  mapping_after s c r = s

  abbrev pub mapping : Protocol Op (Admitting Op)
  mapping = record {
    Allows = MappingAllows;
    Answers = λ s c r. MappingAnswers c r;
    after = mapping_after;
  }

  -- Nil is returned exactly when the write succeeded.
  abbrev pub IsRecorded : Option Failure → Admitting Op → Type 0
  IsRecorded none s =
      (n : SessionOperationRecord Op) × (s.written ≡ some n)
      × (n.operation ≡ op)
      × (n.status ≡ mapped)
      × (n.admission ≡ some (admission_from_receipt receipt))
  IsRecorded (some f) s = s.written ≡ none

  unadmitted :
      (r : SessionOperationRecord Op)
      → r.status ≡ dispatching
      → valid_session_operation_record r ≡ true
      → r.admission ≡ none
  unfolding admission_fits
  unadmitted r d h = ground (arith, fits_now r h)

  map_written-IsRecorded :
      (s : Admitting Op) (r : SessionOperationRecord Op) (e : Option Error)
      → r.operation ≡ op
      → s.written ≡ none
      → IsRecorded (write_result e) (mapped_after s (mapped_record r receipt) e)
  map_written-IsRecorded s r none mine clean = (mapped_record r receipt, refl, mine, refl, refl)
  map_written-IsRecorded s r (some e) mine clean = clean

  module _
      (fits : valid_session_operation_admission (some (admission_from_receipt receipt)) op
        ≡ true) where
    map-MayMap :
        (rs : List (SessionOperationRecord Op)) (r : SessionOperationRecord Op)
        → IsDecoded r
        → find_operation rs (api.operation_id op) ≡ some r
        → r.status ≡ dispatching
        → r.operation ≡ op
        → MayMap
            (record { shown = some (records rs); tried = false; written = none })
            r
            (mapped_record r receipt)
    map-MayMap rs r h e d mine =
        let a = admission_from_receipt receipt in
        record {
          shown = rs;
          loaded = refl;
          untried = refl;
          found = e;
          operation = mine;
          status = d;
          next = refl;
          accepted =
              (map-IsWrite r a h d (unadmitted r d h.valid) (
                subst (λ (o : Op). valid_session_operation_admission (some a) o ≡ true) (sym mine)
                  fits)).accepted;
        }

    map_found-Ensures :
        (rs : List (SessionOperationRecord Op)) (o : Option (SessionOperationRecord Op))
        → LoadFits (records rs)
        → find_operation rs (api.operation_id op) ≡ o
        → Ensures mapping
            (map_found op receipt o)
            (record { shown = some (records rs); tried = false; written = none })
            IsRecorded
    unfolding map_found
    map_found-Ensures rs none h e = refl
    map_found-Ensures rs (some r) h e =
        let s : Admitting Op = record {
          shown = some (records rs);
          tried = false;
          written = none;
        } in
        if_cases (λ (m : Program Op (Option Failure)). Ensures mapping m s IsRecorded)
          (not (is_dispatching r.status) || not (api.operation_eq.equals r.operation op))
          (λ other. refl)
          (λ it.
            let mine : r.operation ≡ op =
              (api.operation_eq.equals_iff r.operation op).0 (ground arith) in
            (
              map-MayMap rs r (find_operation-IsDecoded rs (api.operation_id op) r h e) e
                  (ground arith) mine,
              λ w ok. map_written-IsRecorded s r w mine refl,
            ))

    map_loaded-Ensures :
        (l : Loaded Op)
        → LoadFits l
        → Ensures mapping
            (map_loaded op receipt l)
            (record { shown = some l; tried = false; written = none })
            IsRecorded
    unfolding map_loaded
    map_loaded-Ensures (load_failed e) h = refl
    map_loaded-Ensures (records rs) h =
        map_found-Ensures rs (find_operation rs (api.operation_id op)) h refl

    record_mapped-Ensures : Ensures mapping (record_mapped rid op receipt) unloaded IsRecorded
    unfolding record_mapped
    record_mapped-Ensures = ((refl, refl), λ l ok. map_loaded-Ensures l ok)

    -- In every world whose store yields valid records, for a receipt of the operation, RecordMapped
    -- loads the resource's records and then asks for at most one write, which the journal accepts: over
    -- the loaded record of that operation, which was dispatching, to the same record as mapped
    -- with the receipt's admission. It returns nil exactly when that write succeeded.
    pub record_mapped-IsRecorded :
        {W : Type 0} (world : World Op W) (w : W)
        → ((c : Call Op) (v : W) → MappingAnswers c (world c v).0)
        → Follows mapping unloaded (run world (record_mapped rid op receipt) w).events
          × IsRecorded
              (run world (record_mapped rid op receipt) w).result
              (state_after mapping unloaded (run world (record_mapped rid op receipt) w).events)
    record_mapped-IsRecorded world w answers = (
      run-Follows mapping world (record_mapped rid op receipt) unloaded w IsRecorded
          (λ t c v. answers c v) record_mapped-Ensures,
      run-result mapping world (record_mapped rid op receipt) unloaded w IsRecorded
          (λ t c v. answers c v) record_mapped-Ensures,
    )
