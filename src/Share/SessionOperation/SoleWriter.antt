-- ===== src/Share/SessionOperation/SoleWriter.antt =====
-- RecoverOperation over a store that nobody else writes (session_operation.go): a write may fail, but
-- not because another writer was first, and what is read is what was written.
pub mod Stages
pub mod Verdict
pub mod Terminates
pub mod Completes
use qurl_connector.Base.{◌≡◌, Bool, true, false, Option, none, some, Bytes}
use qurl_connector.Agentstate.SessionOperation.{OperationApi, SessionOperationRecord}
use qurl_connector.Share.SessionOperation.{Error, Exchange, only_cas_loss}
use qurl_connector.Share.SessionOperation.Program.{
  Call, load, transition, delete, wait, context_err, exchange, Loaded, records, load_failed, Reply,
}
use qurl_connector.Share.SessionOperation.Recover.Settle.{find_operation}
use qurl_connector.Share.SessionOperation.Protocol.{Protocol}
use qurl_connector.Share.SessionOperation.Discipline.{completes}

abbrev pub NotLost : Option Error → Type 0
NotLost none = Unit
NotLost (some e) = only_cas_loss e ≡ false

-- The store's record of the operation, if it has one.
abbrev pub Held : Type 0 → Type 0
Held Op = Option (SessionOperationRecord Op)

module _ {Op : Type 0} where
  abbrev pub kept :
      Option (SessionOperationRecord Op)
      → Option (SessionOperationRecord Op)
      → Option Error
      → Option (SessionOperationRecord Op)
  kept s n none = n
  kept s n (some e) = s

  abbrev pub after : Held Op → (c : Call Op) → Reply c → Option (SessionOperationRecord Op)
  after s (transition p n) e = kept s (some n) e
  after s (delete r) e = kept s none e
  after s c r = s

module _ {Op : Type 0} ⦃api : OperationApi Op⦄ (id : Bytes) where
  abbrev pub Shows : Held Op → Loaded Op → Type 0
  Shows s (records rs) = find_operation rs id ≡ s
  Shows s (load_failed e) = Unit

  abbrev pub Answers : Held Op → (c : Call Op) → Reply c → Type 0
  Answers s (load rid) l = Shows s l
  Answers s (transition p n) e = NotLost e
  Answers s (delete r) e = NotLost e
  Answers s c r = Unit

  abbrev pub sole : Protocol Op (Option (SessionOperationRecord Op))
  sole = record { Allows = λ s c. Unit; Answers = Answers; after = after }

  -- No call fails, and the endpoint answers that nothing is left of the operation.
  abbrev pub Succeeds : Held Op → (c : Call Op) → Reply c → Type 0
  Succeeds s (load rid) (records rs) = find_operation rs id ≡ s
  Succeeds s (load rid) (load_failed e) = ⊥
  Succeeds s (transition p n) e = e ≡ none
  Succeeds s (delete r) e = e ≡ none
  Succeeds s (wait ms) failed = failed ≡ false
  Succeeds s context_err gone = gone ≡ false
  Succeeds s (exchange op e) x = (x.error ≡ none) × (completes x ≡ true)
  Succeeds s c r = Unit

  abbrev pub healthy : Protocol Op (Option (SessionOperationRecord Op))
  healthy = record { Allows = λ s c. Unit; Answers = Succeeds; after = after }
