-- ===== src/Share/SessionOperation/Retiring.antt =====
-- Retire and the calls that it may make (pkg/share/session_operation.go).
use qurl_connector.Base.{
  ℕ, ◌≡◌, ◌⊎◌, inl, inr, refl, ap, Bool, true, not, ◌||◌, Option, none, some, List, Bytes, arith,
  if_cases,
}
use qurl_connector.Agentstate.SessionOperation.{
  OperationApi, SessionOperationRecord, SessionOperationAdmission, Status, mapped, closing, closed,
}
use qurl_connector.Agentstate.SessionOperation.Transition.{admission_eq_iff}
use qurl_connector.Share.SessionOperation.{Failure, NativeSessionReceipt, admission_from_receipt}
use qurl_connector.Share.SessionOperation.Program.{
  Call, load, Reply, Loaded, records, load_failed, Program, finish, ask, World, run,
}
use qurl_connector.Share.SessionOperation.Recover.Settle.{find_operation}
use qurl_connector.Share.SessionOperation.Recover.{recover_operation}
use qurl_connector.Share.SessionOperation.Dispatch.{
  retire, retire_loaded, retire_found, is_retirable, holds_receipt,
}
use qurl_connector.Share.SessionOperation.Protocol.{
  Protocol, Ensures, Follows, run-Follows, run-result, state_after,
}
use qurl_connector.Share.SessionOperation.Discipline.{
  Seen, unseen, discipline, Allows, Answers, after,
}
use qurl_connector.Share.SessionOperation.Discipline.Whole.{Anything, recover_operation-Ensures}

-- What the first load of Retire showed, and what RecoverOperation has seen and done since.
pub record Retirement (Op : Type 0) : Type 0 where
  pub shown : Option (Loaded Op)
  pub seen : Seen Op

abbrev pub unopened : {Op : Type 0} → Retirement Op
unopened = record { shown = none; seen = unseen }

retirable : (s : Status) → is_retirable s ≡ true → (s ≡ mapped) ⊎ ((s ≡ closing) ⊎ (s ≡ closed))
retirable mapped h = inl refl
retirable closing h = inr (inl refl)
retirable closed h = inr (inr refl)
retirable s h = cc

holds :
    (o : Option SessionOperationAdmission) (receipt : NativeSessionReceipt)
    → holds_receipt o receipt ≡ true
    → o ≡ some (admission_from_receipt receipt)
unfolding holds_receipt
holds none receipt h = cc
holds (some a) receipt h = ap some ((admission_eq_iff a (admission_from_receipt receipt)).0 h)

module _ {Op : Type 0} ⦃api : OperationApi Op⦄ (rid id : Bytes)
    (receipt : NativeSessionReceipt) where
  -- The load showed a record of the operation that is mapped, closing or closed and holds exactly the
  -- admission of the live receipt.
  pub record IsRetirable (l : Loaded Op) : Type 0 where
    pub shown : List (SessionOperationRecord Op)
    pub loaded : l ≡ records shown
    pub held : SessionOperationRecord Op
    pub found : find_operation shown id ≡ some held
    pub status : (held.status ≡ mapped) ⊎ ((held.status ≡ closing) ⊎ (held.status ≡ closed))
    pub admission : held.admission ≡ some (admission_from_receipt receipt)

  -- The load showed no record of the operation.
  abbrev pub IsAbsent : Loaded Op → Type 0
  IsAbsent (records rs) = find_operation rs id ≡ none
  IsAbsent (load_failed e) = ⊥

  abbrev pub RetireAllows : Option (Loaded Op) → Seen Op → Call Op → Type 0
  RetireAllows none seen (load asked) = asked ≡ rid
  RetireAllows none seen c = ⊥
  RetireAllows (some l) seen c = IsRetirable l × Allows seen c

  abbrev pub shown_after : Option (Loaded Op) → (c : Call Op) → Reply c → Option (Loaded Op)
  shown_after none (load asked) l = some l
  shown_after none c r = none
  shown_after (some l) c r = some l

  abbrev pub retiring : Protocol Op (Retirement Op)
  retiring = record {
    Allows = λ s c. RetireAllows s.shown s.seen c;
    Answers = λ s c r. Answers c r;
    after = λ s c r. record { shown = shown_after s.shown c r; seen = after s.seen c r };
  }

  -- Nil is returned only for an operation that is gone or may be retired.
  abbrev pub ClosedFor : Option (Loaded Op) → Type 0
  ClosedFor none = ⊥
  ClosedFor (some l) = IsAbsent l ⊎ IsRetirable l

  abbrev pub IsReturned : Option (Option Failure) → Retirement Op → Type 0
  IsReturned (some none) s = ClosedFor s.shown
  IsReturned (some (some f)) s = Unit
  IsReturned none s = Unit

  guarded :
      (a : Option (Option Failure)) (l : Loaded Op) (seen : Seen Op)
      → IsRetirable l
      → IsReturned a (record { shown = some l; seen = seen })
  guarded (some none) l seen g = inr g
  guarded (some (some f)) l seen g = tt
  guarded none l seen g = tt

  -- What the discipline allows, the guard allows behind it.
  guarded-Ensures :
      (m : Program Op (Option (Option Failure))) (l : Loaded Op) (seen : Seen Op)
      → IsRetirable l
      → Ensures discipline m seen Anything
      → Ensures retiring m (record { shown = some l; seen = seen }) IsReturned
  guarded-Ensures (finish a) l seen g h = guarded a l seen g
  guarded-Ensures (ask c k) l seen g (allowed, later) =
      ((g, allowed), λ r ok. guarded-Ensures (k r) l (after seen c r) g (later r ok))

  retire_found-Ensures :
      (ready : Bool) (rounds : ℕ) (rs : List (SessionOperationRecord Op))
      (o : Option (SessionOperationRecord Op))
      → find_operation rs id ≡ o
      → Ensures retiring
          (retire_found ready rounds rid id receipt o)
          (record { shown = some (records rs); seen = unseen })
          IsReturned
  unfolding retire_found
  retire_found-Ensures ready rounds rs none e = inl e
  retire_found-Ensures ready rounds rs (some r) e =
      let s : Retirement Op = record { shown = some (records rs); seen = unseen } in
      if_cases (λ (m : Program Op (Option (Option Failure))). Ensures retiring m s IsReturned)
        (not (is_retirable r.status) || not (holds_receipt r.admission receipt)) (λ other. tt)
        (λ fits.
          guarded-Ensures (recover_operation ready rounds rid id) (records rs) unseen
            (record {
              shown = rs;
              loaded = refl;
              held = r;
              found = e;
              status = retirable r.status (ground arith);
              admission = holds r.admission receipt (ground arith);
            })
            (recover_operation-Ensures ready rounds rid id unseen))

  retire_loaded-Ensures :
      (ready : Bool) (rounds : ℕ) (l : Loaded Op)
      → Ensures retiring
          (retire_loaded ready rounds rid id receipt l)
          (record { shown = some l; seen = unseen })
          IsReturned
  unfolding retire_loaded
  retire_loaded-Ensures ready rounds (load_failed e) = tt
  retire_loaded-Ensures ready rounds (records rs) =
      retire_found-Ensures ready rounds rs (find_operation rs id) refl

  -- In every world that answers as the discipline of RecoverOperation assumes, Retire loads the
  -- resource's records first, and makes another call only where that load showed a record of the
  -- operation that is mapped, closing or closed and holds exactly the admission of the live receipt; every
  -- later call is one that the discipline allows. It returns nil only where the load showed such a record
  -- or no record of the operation.
  pub retire-IsReturned :
      {W : Type 0} (world : World Op W) (ready : Bool) (rounds : ℕ) (w : W)
      → ((c : Call Op) (v : W) → Answers c (world c v).0)
      → Follows retiring unopened (run world (retire ready rounds rid id receipt) w).events
        × IsReturned (run world (retire ready rounds rid id receipt) w).result (
            state_after retiring unopened (run world (retire ready rounds rid id receipt) w).events)
  unfolding retire
  retire-IsReturned world ready rounds w answers =
      let all : Ensures retiring (retire ready rounds rid id receipt) unopened IsReturned =
        (refl, λ l ok. retire_loaded-Ensures ready rounds l) in
      (
        run-Follows retiring world (retire ready rounds rid id receipt) unopened w IsReturned
            (λ t c v. answers c v) all,
        run-result retiring world (retire ready rounds rid id receipt) unopened w IsReturned
            (λ t c v. answers c v) all,
      )
