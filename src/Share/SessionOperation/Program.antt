-- ===== src/Share/SessionOperation/Program.antt =====
-- The calls that session_operation.go makes to its store, its clock, its context and the qurl-go
-- module, as data: a program is a tree of calls, each with what follows for every reply. So one model
-- stands for every way that the calls may turn out.
use qurl_connector.Base.{ℕ, Bool, Option, List, [], ◌∷◌, Bytes}
use qurl_connector.Base.Int.{ℤ}
use qurl_connector.Agentstate.SessionOperation.{Endpoint, SessionOperationRecord}
use qurl_connector.Share.SessionOperation.{Error, Exchange, Assignment, Failure}

-- `qurl.NativeSessionOperationInput`
pub record OperationInput : Type 0 where
  pub expires_at_millis : ℤ
  pub owner_id : Bytes
  pub prepared_at_millis : ℤ
  pub protected_resource_id : Bytes
  pub resource_id : Bytes
  pub run_attempt : ℕ
  pub run_id : Bytes

pub data Call (Op : Type 0) : Type 0 where
  load : Bytes → Call Op  -- LoadSessionOperations
  create : SessionOperationRecord Op → Call Op
  transition : SessionOperationRecord Op → SessionOperationRecord Op → Call Op
  delete : SessionOperationRecord Op → Call Op
  clock : Call Op  -- d.clock().UTC().UnixMilli()
  wait : ℤ → Call Op  -- waitNativeSessionRecovery, in milliseconds
  context_err : Call Op  -- ctx.Err() != nil
  assignment : Call Op  -- currentNativeAssignment
  exchange : Op → Endpoint → Call Op  -- recoverNativeSessionOperation
  prepare : OperationInput → Call Op  -- prepareLiveNativeSessionOperation

pub data Loaded (Op : Type 0) : Type 0 where
  records : List (SessionOperationRecord Op) → Loaded Op
  load_failed : Error → Loaded Op

module _ {Op : Type 0} where
  abbrev pub Reply : Call Op → Type 0
  Reply (load rid) = Loaded Op
  Reply (create r) = Option Error
  Reply (transition p n) = Option Error
  Reply (delete r) = Option Error
  Reply clock = ℤ
  Reply (wait ms) = Bool  -- an error
  Reply context_err = Bool
  Reply assignment = Assignment
  Reply (exchange op ep) = Exchange
  Reply (prepare input) = Option (Op × Endpoint)

pub data Program (Op A : Type 0) : Type 0 where
  finish : A → Program Op A
  ask : (c : Call Op) → (Reply c → Program Op A) → Program Op A

module _ {Op A B : Type 0} where
  infixl 5 ◌>>=◌
  abbrev pub ◌>>=◌ : Program Op A → (A → Program Op B) → Program Op B
  finish a >>= f = f a
  ask c k >>= f = ask c (λ r. k r >>= f)

-- How a stage of the loop of `RecoverOperation` ends.
pub data Next (A : Type 0) : Type 0 where
  leave : Option Failure → Next A  -- `return`
  again : Next A  -- `continue`
  proceed : A → Next A

module _ {Op A B : Type 0} where
  -- Goes on with the value of a stage that proceeds.
  abbrev pub on_proceed : (A → Program Op (Next B)) → Next A → Program Op (Next B)
  on_proceed f (leave r) = finish (leave r)
  on_proceed f again = finish again
  on_proceed f (proceed a) = f a

  infixl 5 ◌>>>◌
  abbrev pub ◌>>>◌ : Program Op (Next A) → (A → Program Op (Next B)) → Program Op (Next B)
  m >>> f = m >>= on_proceed f

-- A call and its reply.
pub data Event (Op : Type 0) : Type 0 where
  event : (c : Call Op) → Reply c → Event Op

-- Everything outside the driver: how each call is answered, and what it does to the rest.
abbrev pub World : Type 0 → Type 0 → Type 0
World Op W = (c : Call Op) → W → Reply c × W

-- One run: its calls and replies in order, its result, and the world that it leaves.
pub record Run (Op A W : Type 0) : Type 0 where
  pub events : List (Event Op)
  pub result : A
  pub world : W

module _ {Op A W : Type 0} where
  unfoldable pub run : World Op W → Program Op A → W → Run Op A W
  run world (finish a) w = record { events = []; result = a; world = w }
  run world (ask c k) w =
      let (reply, w') = world c w in
      let rest = run world (k reply) w' in
      record { events = event c reply ∷ rest.events; result = rest.result; world = rest.world }
