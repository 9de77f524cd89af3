-- ===== src/Share/SessionOperation/Discipline.antt =====
-- What RecoverOperation keeps to, whatever its store, clock, context and servers answer
-- (session_operation.go).
pub mod Stages
pub mod Exchanges
pub mod Verdict
pub mod Whole
use qurl_connector.Base.{
  ℕ, ◌-◌, ◌≤◌, ◌<◌, ◌≡◌, ◌⊎◌, Bool, true, false, Option, none, some, List, [], ◌∷◌, All, ltb,
  if◌then◌else◌,
}
use qurl_connector.Base.Int.{ℤ, pos}
use qurl_connector.Agentstate.SessionOperation.{
  OperationApi, Endpoint, SessionOperationRecord, Status, prepared, canceled, closed,
  valid_session_operation_record, valid_session_operation_admission, valid_recovery_endpoint,
  valid_session_operation_transition,
}
use qurl_connector.Share.SessionOperation.{
  Exchange, ExchangeError, Recovery, NativeSessionReceipt, Error, is_countable_silence,
  past_abandon_margin, admission_from_receipt,
}
use qurl_connector.Share.SessionOperation.Program.{
  Call, load, create, transition, delete, clock, wait, context_err, assignment, exchange, prepare,
  Loaded, records, load_failed, Reply,
}
use qurl_connector.Share.SessionOperation.Protocol.{Protocol}
use qurl_connector.Share.SessionOperation.Accepted.{IsDecoded, IsOpen}

abbrev pub IsTerminal : Status → Type 0
IsTerminal s = (s ≡ canceled) ⊎ (s ≡ closed)

-- The exchange says that the server has nothing left of the operation.
abbrev pub completes : Exchange → Bool
completes x = elim x.error [
  | some e ↦ false
  | none ↦ elim x.result [ none ↦ false | some result ↦ result.complete ]
]

-- What the driver has seen and done.
pub record Seen (Op : Type 0) : Type 0 where
  pub written : Option (SessionOperationRecord Op)  -- the last record that it wrote
  pub sends : ℕ  -- the exchanges that the last counted attempt still admits
  pub silent : Bool  -- the last exchange was silence that may be counted
  pub complete : Bool  -- the last exchange was complete
  pub now : ℤ  -- the last reading of the clock

abbrev pub unseen : {Op : Type 0} → Seen Op
unseen = record { written = none; sends = 0; silent = false; complete = false; now = pos 0 }

module _ {Op : Type 0} ⦃api : OperationApi Op⦄ where
  -- A write that the driver may ask for.
  pub record MayWrite (s : Seen Op) (p n : SessionOperationRecord Op) : Type 0 where
    pub accepted : valid_session_operation_transition p n ≡ true
    pub ended :
        IsTerminal n.status
        → (p.status ≡ prepared) ⊎ ((s.complete ≡ true) ⊎ (5 ≤ p.post_expiry_no_reply_attempts))
    pub counted :
        p.post_expiry_no_reply_attempts < n.post_expiry_no_reply_attempts
        → (s.silent ≡ true) × (past_abandon_margin p.operation s.now ≡ true)

  -- A deletion.
  pub record MayDelete (r : SessionOperationRecord Op) : Type 0 where
    pub valid : valid_session_operation_record r ≡ true
    pub terminal : IsTerminal r.status

  -- An exchange: it is for the record that was written last.
  pub record MaySend (s : Seen Op) (op : Op) (e : Endpoint) : Type 0 where
    pub held : SessionOperationRecord Op
    pub written : s.written ≡ some held
    pub operation : held.operation ≡ op
    pub open_status : IsOpen held.status
    pub left : 0 < s.sends
    pub endpoint_valid : valid_recovery_endpoint e ≡ true

  abbrev pub Allows : Seen Op → Call Op → Type 0
  Allows s (transition p n) = MayWrite s p n
  Allows s (delete r) = MayDelete r
  Allows s (exchange op e) = MaySend s op e
  Allows s c = Unit

  -- The receipt of an unexpected admission is one for the operation.
  abbrev pub ReceiptFits : Op → Option NativeSessionReceipt → Type 0
  ReceiptFits op none = Unit
  ReceiptFits op (some r) =
      valid_session_operation_admission (some (admission_from_receipt r)) op ≡ true

  abbrev pub ErrorFits : Op → Option ExchangeError → Type 0
  ErrorFits op none = Unit
  ErrorFits op (some e) = ReceiptFits op e.unexpected_admission

  abbrev pub LoadFits : Loaded Op → Type 0
  LoadFits (records rs) = All IsDecoded rs
  LoadFits (load_failed e) = Unit

  -- What is assumed of the replies: the store yields valid records, and an exchange that admitted
  -- yields a receipt for its operation.
  abbrev pub Answers : (c : Call Op) → Reply c → Type 0
  Answers (load rid) l = LoadFits l
  Answers (exchange op e) x = ErrorFits op x.error
  Answers c r = Unit

  abbrev pub sends_after : Seen Op → SessionOperationRecord Op → SessionOperationRecord Op → ℕ
  sends_after s p n = if ltb p.recovery_attempt n.recovery_attempt then 2 else s.sends

  abbrev pub after_write :
      Seen Op → SessionOperationRecord Op → SessionOperationRecord Op → Option Error → Seen Op
  after_write s p n none = record s { written = some n; sends = sends_after s p n }
  after_write s p n (some e) = s

  abbrev pub after : Seen Op → (c : Call Op) → Reply c → Seen Op
  after s (transition p n) r = after_write s p n r
  after s (exchange op e) x = record s {
    sends = s.sends - 1;
    silent = is_countable_silence x.error;
    complete = completes x;
  }
  after s clock now = record s { now = now }
  after s c r = s

  abbrev pub discipline : Protocol Op (Seen Op)
  discipline = record { Allows = Allows; Answers = λ s c r. Answers c r; after = after }
