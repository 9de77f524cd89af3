-- ===== src/Share/SessionOperation/Preparing.antt =====
-- PrepareDispatch and the calls that it may make (pkg/share/session_operation.go).
use qurl_connector.Base.{ℕ, ◌≡◌, refl, Bool, true, not, Option, none, some, arith, if_both, subst}
use qurl_connector.Base.Int.{ℤ, pos, ◌+ℤ◌}
use qurl_connector.Agentstate.SessionOperation.{
  OperationApi, Endpoint, SessionOperationRecord, prepared, dispatching,
  valid_session_operation_record, valid_session_operation_transition, valid_fields, admission_fits,
  new_session_operation_record, prepared_record,
}
use qurl_connector.Share.SessionOperation.{Error}
use qurl_connector.Share.SessionOperation.Program.{
  Call, create, transition, clock, prepare, Reply, OperationInput, Program, World, run,
}
use qurl_connector.Share.SessionOperation.Dispatch.{
  Prepared, ready_to_send, not_prepared, Request, prepare_dispatch, live_prepared, create_prepared,
  created, dispatch_written,
}
use qurl_connector.Share.SessionOperation.Protocol.{
  Protocol, Ensures, Follows, run-Follows, run-result, state_after,
}
use qurl_connector.Share.SessionOperation.Accepted.{IsDecoded, dispatch-IsWrite}

-- What PrepareDispatch has seen and done: the number of its calls, the clock's reading, the operation that it was given, the
-- record that it created, and the one that it wrote over it.
pub record Draft (Op : Type 0) : Type 0 where
  pub calls : ℕ
  pub reading : Option ℤ
  pub given : Option (Op × Endpoint)
  pub first : Option (SessionOperationRecord Op)
  pub written : Option (SessionOperationRecord Op)

abbrev pub no_draft : {Op : Type 0} → Draft Op
no_draft = record { calls = 0; reading = none; given = none; first = none; written = none }

-- The input is the request's, prepared now and to expire in twenty minutes.
pub record IsInput (q : Request) (now : ℤ) (input : OperationInput) : Type 0 where
  pub prepared_at : input.prepared_at_millis ≡ now
  pub expires_at : input.expires_at_millis ≡ now +ℤ pos 1200000
  pub owner : input.owner_id ≡ q.owner_id
  pub protected : input.protected_resource_id ≡ q.protected_resource_id
  pub resource : input.resource_id ≡ q.knock_resource_id
  pub run_name : input.run_id ≡ q.run_id
  pub attempt : input.run_attempt ≡ q.run_attempt

module _ {Op : Type 0} ⦃api : OperationApi Op⦄ where
  -- The record to create is a valid prepared one of the operation and the endpoint that were given.
  pub record MayCreate (s : Draft Op) (r : SessionOperationRecord Op) : Type 0 where
    pub call : s.calls ≡ 2
    pub endpoint : Endpoint
    pub given : s.given ≡ some (r.operation, endpoint)
    pub endpoint_kept : r.recovery_endpoint ≡ endpoint
    pub status : r.status ≡ prepared
    pub valid : valid_session_operation_record r ≡ true

  -- The one write is over the record that was created, to the same one as dispatching.
  pub record MayDispatch (s : Draft Op) (p n : SessionOperationRecord Op) : Type 0 where
    pub call : s.calls ≡ 3
    pub first : s.first ≡ some p
    pub next : n ≡ record p { status = dispatching }
    pub accepted : valid_session_operation_transition p n ≡ true

  -- No packet, load, deletion or wait is allowed at all.
  abbrev pub DraftAllows : Request → Draft Op → Call Op → Type 0
  DraftAllows q s clock = s.calls ≡ 0
  DraftAllows q s (prepare input) =
      (now : ℤ) × (s.calls ≡ 1) × (s.reading ≡ some now) × IsInput q now input
  DraftAllows q s (create r) = MayCreate s r
  DraftAllows q s (transition p n) = MayDispatch s p n
  DraftAllows q s c = ⊥

  abbrev pub first_after : Draft Op → SessionOperationRecord Op → Option Error → Draft Op
  first_after s r none = record s { calls = 3; first = some r }
  first_after s r (some e) = record s { calls = 3 }

  abbrev pub written_after : Draft Op → SessionOperationRecord Op → Option Error → Draft Op
  written_after s n none = record s { calls = 4; written = some n }
  written_after s n (some e) = record s { calls = 4 }

  abbrev pub draft_after : Draft Op → (c : Call Op) → Reply c → Draft Op
  draft_after s clock now = record s { calls = 1; reading = some now }
  draft_after s (prepare input) o = record s { calls = 2; given = o }
  draft_after s (create r) e = first_after s r e
  draft_after s (transition p n) e = written_after s n e
  draft_after s c r = s

  abbrev pub drafting : Request → Protocol Op (Draft Op)
  drafting q = record { Allows = DraftAllows q; Answers = λ s c r. Unit {0}; after = draft_after }

  -- An operation that is given out is the one that was given, and stands written as dispatching; with
  -- an error no such write was confirmed.
  abbrev pub Boundary : Prepared Op → Draft Op → Type 0
  Boundary (ready_to_send op) s =
      (r : SessionOperationRecord Op) × (e : Endpoint) × (s.given ≡ some (op, e))
      × (s.written ≡ some r)
      × (r.operation ≡ op)
      × (r.recovery_endpoint ≡ e)
      × (r.status ≡ dispatching)
      × (r.admission ≡ none)
  Boundary (not_prepared f) s = s.written ≡ none

  new_record-prepared :
      (op : Op) (e : Endpoint) (r : SessionOperationRecord Op)
      → new_session_operation_record op e ≡ some r
      → (prepared_record op e ≡ r) × IsDecoded (prepared_record op e)
  unfolding new_session_operation_record valid_session_operation_record valid_fields admission_fits
  new_record-prepared op e r h = (
    ground arith,
    record {
      valid = ground arith;
      counters = record { attempts = omega arith; failures = omega arith };
      deadline = omega arith;
    },
  )

  module _ (q : Request) (now : ℤ) (op : Op) (e : Endpoint) where
    abbrev given_draft : Draft Op
    given_draft = record no_draft { calls = 2; reading = some now; given = some (op, e) }

    dispatch_written-Ensures :
        (w : Option Error)
        → Ensures
            (drafting q)
            (dispatch_written (prepared_record op e) w)
            (written_after
              (record given_draft { calls = 3; first = some (prepared_record op e) })
              (record (prepared_record op e) { status = dispatching })
              w)
            Boundary
    unfolding dispatch_written
    dispatch_written-Ensures none = (
      record (prepared_record op e) { status = dispatching },
      e,
      refl,
      refl,
      refl,
      refl,
      refl,
      refl,
    )
    dispatch_written-Ensures (some w) = refl

    created-Ensures :
        (w : Option Error)
        → IsDecoded (prepared_record op e)
        → Ensures
            (drafting q)
            (created (prepared_record op e) w)
            (first_after given_draft (prepared_record op e) w)
            Boundary
    unfolding created
    created-Ensures none h = (
      record {
        call = refl;
        first = refl;
        next = refl;
        accepted = (dispatch-IsWrite (prepared_record op e) h refl).accepted;
      },
      λ w ok. dispatch_written-Ensures w,
    )
    created-Ensures (some w) h = refl

    create_prepared-Ensures :
        (o : Option (SessionOperationRecord Op))
        → new_session_operation_record op e ≡ o
        → Ensures (drafting q) (create_prepared o) given_draft Boundary
    unfolding create_prepared
    create_prepared-Ensures none h = refl
    create_prepared-Ensures (some r) h =
        let (same, decoded) = new_record-prepared op e r h in
        subst
          (λ (x : SessionOperationRecord Op).
            Ensures (drafting q) (create_prepared (some x)) given_draft Boundary)
          same
          (
            record {
              call = refl;
              endpoint = e;
              given = refl;
              endpoint_kept = refl;
              status = refl;
              valid = decoded.valid;
            },
            λ w ok. created-Ensures w decoded,
          )

  live_prepared-Ensures :
      (q : Request) (now : ℤ) (o : Option (Op × Endpoint))
      → Ensures
          (drafting q)
          (live_prepared o)
          (record no_draft { calls = 2; reading = some now; given = o })
          Boundary
  unfolding live_prepared
  live_prepared-Ensures q now none = refl
  live_prepared-Ensures q now (some (op, e)) =
      create_prepared-Ensures q now op e (new_session_operation_record op e) refl

module _ (Op : Type 0) ⦃api : OperationApi Op⦄ where
  prepare_dispatch-Ensures :
      (ready : Bool) (q : Request)
      → Ensures {Op = Op} (drafting q) (prepare_dispatch ready q) no_draft Boundary
  unfolding prepare_dispatch
  prepare_dispatch-Ensures ready q =
      if_both (λ (m : Program Op (Prepared Op)). Ensures {Op = Op} (drafting q) m no_draft Boundary)
        (not ready) refl
        (
          refl,
          λ now ok. (
            (
              now,
              refl,
              refl,
              record {
                prepared_at = refl;
                expires_at = refl;
                owner = refl;
                protected = refl;
                resource = refl;
                run_name = refl;
                attempt = refl;
              },
            ),
            λ o ok'. live_prepared-Ensures q now o,
          ),
        )

module _ {Op : Type 0} ⦃api : OperationApi Op⦄ where
  -- In every world, PrepareDispatch makes at most four calls, in this order, and so sends nothing, loads
  -- nothing and deletes nothing: it reads the clock, asks for an operation from the request that expires
  -- twenty minutes after that reading, creates a record, a valid prepared one of the operation and the
  -- endpoint that it was given, and where it was created writes over it the same record as
  -- dispatching, which the journal accepts. When it returns an operation, it is the one that it was given and that write
  -- succeeded; when it returns an error, that write was not made or did not succeed.
  pub prepare_dispatch-Boundary :
      {W : Type 0} (world : World Op W) (ready : Bool) (q : Request) (w : W)
      → Follows (drafting q) no_draft (run world (prepare_dispatch ready q) w).events
        × Boundary
            (run world (prepare_dispatch ready q) w).result
            (state_after (drafting q) no_draft (run world (prepare_dispatch ready q) w).events)
  prepare_dispatch-Boundary world ready q w =
      let all = prepare_dispatch-Ensures Op ready q in
      (
        run-Follows (drafting q) world (prepare_dispatch ready q) no_draft w Boundary (λ t c v. tt)
            all,
        run-result (drafting q) world (prepare_dispatch ready q) no_draft w Boundary (λ t c v. tt)
            all,
      )
