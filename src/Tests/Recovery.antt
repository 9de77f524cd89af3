-- ===== src/Tests/Recovery.antt =====
-- Runs of the driver of pkg/share/session_operation.go against small worlds with one operation.
use qurl_connector.Base.Doubling.{min}
use qurl_connector.Base.{
  ◌*◌, ◌^◌, ◌≤◌, ◌<◌, ◌≡◌, ◌≢◌, refl, true, false, none, some, List, [], ◌∷◌, codes, arith,
  bytes_beq,
}
use qurl_connector.Base.Int.{ℤ, pos}
use qurl_connector.Agentstate.SessionOperation.{
  OperationApi, Endpoint, SessionOperationRecord, dispatching, mapped,
  valid_session_operation_record, valid_session_operation_transition, valid_fields, valid_operation,
  valid_recovery_endpoint, admission_fits, keeps_admission, valid_recovery_progress, allowed_next,
  admission_eq, valid_session_operation_admission, new_session_operation_record,
}
use qurl_connector.Agentstate.SessionOperation.Host.{valid_recovery_endpoint_host}
use qurl_connector.Agentstate.SessionOperation.Base64.{valid_key, encode}
use qurl_connector.Share.SessionOperation.{
  Exchange, NativeSessionReceipt, admission_from_receipt, is_no_reply_error, is_countable_silence,
  endpoint_answered, past_abandon_margin, refence_endpoint, endpoint_eq,
}
use qurl_connector.Share.SessionOperation.Backoff.{
  recovery_backoff, no_reply_backoff, backoffs_escalate,
}
use qurl_connector.Share.SessionOperation.Program.{
  Call, load, create, transition, delete, clock, wait, context_err, assignment, exchange, prepare,
  records, World, run,
}
use qurl_connector.Share.SessionOperation.Recover.{recover_operation, recover_pending}
use qurl_connector.Share.SessionOperation.Recover.Settle.{find_operation}
use qurl_connector.Share.SessionOperation.Dispatch.{
  Request, prepare_dispatch, record_mapped, retire,
}
use qurl_connector.Share.SessionOperation.Protocol.{Follows, state_after}
use qurl_connector.Share.SessionOperation.Accepted.{IsDecoded}
use qurl_connector.Share.SessionOperation.Discipline.{Seen, unseen, discipline}
use qurl_connector.Share.SessionOperation.Discipline
use qurl_connector.Share.SessionOperation.Discipline.Whole.{recover_pending-Follows}
use qurl_connector.Share.SessionOperation.Preparing.{
  no_draft, drafting, Boundary, prepare_dispatch-Boundary,
}
use qurl_connector.Share.SessionOperation.Mapping.{
  unloaded, mapping, MappingAnswers, IsRecorded, record_mapped-IsRecorded,
}
use qurl_connector.Share.SessionOperation.Retiring.{
  unopened, retiring, IsReturned, retire-IsReturned,
}
use qurl_connector.Share.SessionOperation.SoleWriter.{Held}
use qurl_connector.Share.SessionOperation.SoleWriter
use qurl_connector.Share.SessionOperation.SoleWriter.Terminates.{recover-Returns_sole}
use qurl_connector.Share.SessionOperation.SoleWriter.Completes.{IsReady, recover-completes}

-- One operation, which expires at 1,000,000 ms.
instance abbrev api : OperationApi (Unit {0})
api = record {
  operation_id = λ op. codes "op";
  protected_resource_id = λ op. codes "res";
  cell_id = λ op. codes "cell";
  run_id = λ op. codes "run";
  run_attempt = λ op. 1;
  expires_at_millis = λ op. pos 1000000;
  operation_eq = record { equals = λ a b. true; equals_iff = λ a b. (λ h. refl, λ h. refl) };
  marshal = λ op. some (codes "op");
  unmarshal = λ raw. some tt;
}

abbrev endpoint : Endpoint
endpoint = record {
  host = codes "cell-1.example.com";
  port = 443;
  server_public_key_b64 = codes "AAECAwQFBgcICQoLDA0ODxAREhMUFRYXGBkaGxwdHh8=";
}

abbrev receipt : NativeSessionReceipt
receipt = record {
  cell_id = codes "cell";
  session_id = 9;
  session_issued_at_millis = pos 70;
  run_id = codes "run";
  run_attempt = 1;
}

-- Sent, with four silences counted.
abbrev sent : SessionOperationRecord (Unit {0})
sent = record {
  schema = pos 2;
  operation = tt;
  recovery_endpoint = endpoint;
  status = dispatching;
  admission = none;
  recovery_attempt = 6;
  recovery_not_before_milli = pos 1500;
  post_expiry_no_reply_attempts = 4;
}

-- Unfolds the checks of the journal.
checks : Unit {0}
unfolding valid_session_operation_transition valid_session_operation_record valid_fields
    valid_operation valid_recovery_endpoint admission_fits valid_recovery_endpoint_host valid_key
    keeps_admission bytes_beq encode admission_eq valid_session_operation_admission
    valid_recovery_progress allowed_next new_session_operation_record
checks = tt

valid_sent : valid_session_operation_record sent ≡ true
unfolding checks
valid_sent = refl

IsDecoded-sent : IsDecoded sent
IsDecoded-sent = record {
  valid = valid_sent;
  counters = record { attempts = omega arith; failures = omega arith };
  deadline = omega arith;
}

abbrev complete_reply : Exchange
complete_reply = record {
  result = some (record { complete = true; unexpected_admission = none });
  error = none;
}

abbrev silent_reply : Exchange
silent_reply = record {
  result = none;
  error = some (record {
    canceled = false;
    deadline_exceeded = false;
    endpoint_no_reply = true;
    no_reply = false;
    transport = false;
    resolve = false;
    server_unauthenticated = false;
    server_deny = false;
    unexpected_admission = none;
  });
}

-- A world in which the store always shows `sent`, every write succeeds, the clock stands at `now`, and
-- every exchange has the same reply.
abbrev steady : ℤ → Exchange → World (Unit {0}) (Unit {0})
steady now x (load rid) w = (records (sent ∷ []), w)
steady now x (create r) w = (none, w)
steady now x (transition p n) w = (none, w)
steady now x (delete r) w = (none, w)
steady now x clock w = (now, w)
steady now x (wait ms) w = (false, w)
steady now x context_err w = (false, w)
steady now x assignment w = (record { cell_id = codes "cell"; endpoint = endpoint }, w)
steady now x (exchange op e) w = (x, w)
steady now x (prepare input) w = (some (tt, endpoint), w)

calm :
    (c : Call (Unit {0})) (w : Unit {0})
    → Discipline.Answers c (steady (pos 2000000) silent_reply c w).0
calm (load rid) w = (IsDecoded-sent, tt)
calm (create r) w = tt
calm (transition p n) w = tt
calm (delete r) w = tt
calm clock w = tt
calm (wait ms) w = tt
calm context_err w = tt
calm assignment w = tt
calm (exchange op e) w = tt
calm (prepare input) w = tt

recover_pending-Follows_example :
    Follows discipline unseen
      (run (steady (pos 2000000) silent_reply) (recover_pending true 2 (codes "res") []) tt).events
recover_pending-Follows_example =
    recover_pending-Follows (steady (pos 2000000) silent_reply) true 2 (codes "res") [] tt calm

abbrev asked : Request
asked = record {
  owner_id = codes "owner";
  knock_resource_id = codes "knock";
  protected_resource_id = codes "res";
  run_id = codes "run";
  run_attempt = 1;
}

prepare_dispatch-Boundary_example :
    Follows
      (drafting asked)
      no_draft
      (run (steady (pos 2000000) silent_reply) (prepare_dispatch true asked) tt).events
    × Boundary (run (steady (pos 2000000) silent_reply) (prepare_dispatch true asked) tt).result (
        state_after
          (drafting asked)
          no_draft
          (run (steady (pos 2000000) silent_reply) (prepare_dispatch true asked) tt).events)
prepare_dispatch-Boundary_example =
    prepare_dispatch-Boundary (steady (pos 2000000) silent_reply) true asked tt

receipt_fits : valid_session_operation_admission (some (admission_from_receipt receipt)) tt ≡ true
unfolding checks admission_from_receipt
receipt_fits = refl

mapping_calm :
    (c : Call (Unit {0})) (w : Unit {0})
    → MappingAnswers (codes "res") tt receipt c (steady (pos 2000000) silent_reply c w).0
mapping_calm (load rid) w = (IsDecoded-sent, tt)
mapping_calm (create r) w = tt
mapping_calm (transition p n) w = tt
mapping_calm (delete r) w = tt
mapping_calm clock w = tt
mapping_calm (wait ms) w = tt
mapping_calm context_err w = tt
mapping_calm assignment w = tt
mapping_calm (exchange op e) w = tt
mapping_calm (prepare input) w = tt

record_mapped-IsRecorded_example :
    Follows
      (mapping (codes "res") tt receipt)
      unloaded
      (run (steady (pos 2000000) silent_reply) (record_mapped (codes "res") tt receipt) tt).events
    × IsRecorded
        (codes "res")
        tt
        receipt
        (run (steady (pos 2000000) silent_reply) (record_mapped (codes "res") tt receipt) tt).result
        (state_after
          (mapping (codes "res") tt receipt)
          unloaded
          (run
            (steady (pos 2000000) silent_reply)
            (record_mapped (codes "res") tt receipt)
            tt).events)
record_mapped-IsRecorded_example =
    record_mapped-IsRecorded (codes "res") tt receipt receipt_fits
      (steady (pos 2000000) silent_reply) tt mapping_calm

backoffs_escalate_example :
    (recovery_backoff 4 ≡ min (2 ^ 3 * 100) 2000)
    × (recovery_backoff 3 ≤ recovery_backoff 4)
    × (no_reply_backoff 3 ≡ min (2 ^ 3 * 2000) 30000)
    × (no_reply_backoff 3 ≤ no_reply_backoff 4)
    × (4000 ≤ no_reply_backoff 4)
    × (recovery_backoff 9 < no_reply_backoff 4)
backoffs_escalate_example = backoffs_escalate 3 9

-- A store with one writer: what is written is what is read.
abbrev listed : Held (Unit {0}) → List (SessionOperationRecord (Unit {0}))
listed none = []
listed (some r) = r ∷ []

abbrev alone : World (Unit {0}) (Held (Unit {0}))
alone (load rid) w = (records (listed w), w)
alone (create r) w = (none, w)
alone (transition p n) w = (none, some n)
alone (delete r) w = (none, none)
alone clock w = (pos 5000, w)
alone (wait ms) w = (false, w)
alone context_err w = (false, w)
alone assignment w = (record { cell_id = []; endpoint = endpoint }, w)
alone (exchange op e) w = (complete_reply, w)
alone (prepare input) w = (none, w)

found : (w : Held (Unit {0})) → find_operation (listed w) (codes "op") ≡ w
unfolding find_operation bytes_beq
found none = refl
found (some r) = refl

alone_lawful :
    (c : Call (Unit {0})) (w : Held (Unit {0}))
    → SoleWriter.Answers (codes "op") w c (alone c w).0
      × (SoleWriter.after w c (alone c w).0 ≡ (alone c w).1)
alone_lawful (load rid) w = (found w, refl)
alone_lawful (create r) w = (tt, refl)
alone_lawful (transition p n) w = (tt, refl)
alone_lawful (delete r) w = (tt, refl)
alone_lawful clock w = (tt, refl)
alone_lawful (wait ms) w = (tt, refl)
alone_lawful context_err w = (tt, refl)
alone_lawful assignment w = (tt, refl)
alone_lawful (exchange op e) w = (tt, refl)
alone_lawful (prepare input) w = (tt, refl)

alone_healthy :
    (c : Call (Unit {0})) (w : Held (Unit {0}))
    → SoleWriter.Succeeds (codes "op") w c (alone c w).0
      × (SoleWriter.after w c (alone c w).0 ≡ (alone c w).1)
alone_healthy (load rid) w = (found w, refl)
alone_healthy (create r) w = (tt, refl)
alone_healthy (transition p n) w = (refl, refl)
alone_healthy (delete r) w = (refl, refl)
alone_healthy clock w = (tt, refl)
alone_healthy (wait ms) w = (refl, refl)
alone_healthy context_err w = (refl, refl)
alone_healthy assignment w = (tt, refl)
alone_healthy (exchange op e) w = ((refl, refl), refl)
alone_healthy (prepare input) w = (tt, refl)

-- Two attempts from the end of the counter.
abbrev late : SessionOperationRecord (Unit {0})
late = record sent { recovery_attempt = 4294967294 }

recover-Returns_sole_example :
    (run alone (recover_operation true 2 (codes "res") (codes "op")) (some late)).result ≢ none
recover-Returns_sole_example =
    recover-Returns_sole (codes "op") alone (λ w. w) true 2 (codes "res") late (some late)
      alone_lawful refl (omega arith) (omega arith)

abbrev admitted : SessionOperationRecord (Unit {0})
admitted = record sent {
  status = mapped;
  admission = some (unfold admission_from_receipt in admission_from_receipt receipt);
  post_expiry_no_reply_attempts = 0;
}

admitted-IsReady : IsReady admitted
admitted-IsReady = record {
  known = λ t h. cc;
  attempts_left = omega arith;
  deadline_left = omega arith;
  no_failures = refl;
}

recover-completes_example :
    ((run alone (recover_operation true 1 (codes "res") (codes "op")) (some admitted)).result
      ≡ some none)
    × ((run alone (recover_operation true 1 (codes "res") (codes "op")) (some admitted)).world
        ≡ none)
recover-completes_example =
    recover-completes (codes "op") alone (λ w. w) 0 (codes "res") admitted (some admitted)
      alone_healthy (λ h. cc) refl admitted-IsReady

valid_admitted : valid_session_operation_record admitted ≡ true
unfolding checks admission_from_receipt
valid_admitted = refl

IsDecoded-admitted : IsDecoded admitted
IsDecoded-admitted = record {
  valid = valid_admitted;
  counters = record { attempts = omega arith; failures = omega arith };
  deadline = omega arith;
}

-- A world in which the store always shows the admitted record, and the endpoint says that it is done.
abbrev shows_admitted : World (Unit {0}) (Unit {0})
shows_admitted (load rid) w = (records (admitted ∷ []), w)
shows_admitted (create r) w = (none, w)
shows_admitted (transition p n) w = (none, w)
shows_admitted (delete r) w = (none, w)
shows_admitted clock w = (pos 5000, w)
shows_admitted (wait ms) w = (false, w)
shows_admitted context_err w = (false, w)
shows_admitted assignment w = (record { cell_id = []; endpoint = endpoint }, w)
shows_admitted (exchange op e) w = (complete_reply, w)
shows_admitted (prepare input) w = (none, w)

shows_decoded : (c : Call (Unit {0})) (w : Unit {0}) → Discipline.Answers c (shows_admitted c w).0
shows_decoded (load rid) w = (IsDecoded-admitted, tt)
shows_decoded (create r) w = tt
shows_decoded (transition p n) w = tt
shows_decoded (delete r) w = tt
shows_decoded clock w = tt
shows_decoded (wait ms) w = tt
shows_decoded context_err w = tt
shows_decoded assignment w = tt
shows_decoded (exchange op e) w = tt
shows_decoded (prepare input) w = tt

retire-IsReturned_example :
    Follows
      (retiring (codes "res") (codes "op") receipt)
      unopened
      (run shows_admitted (retire true 2 (codes "res") (codes "op") receipt) tt).events
    × IsReturned
        (codes "res")
        (codes "op")
        receipt
        (run shows_admitted (retire true 2 (codes "res") (codes "op") receipt) tt).result
        (state_after
          (retiring (codes "res") (codes "op") receipt)
          unopened
          (run shows_admitted (retire true 2 (codes "res") (codes "op") receipt) tt).events)
retire-IsReturned_example =
    retire-IsReturned (codes "res") (codes "op") receipt shows_admitted true 2 tt shows_decoded

-- Unfolds the driver.
driver : Unit {0}
unfolding run recover_operation is_no_reply_error is_countable_silence past_abandon_margin
    refence_endpoint endpoint_eq bytes_beq recovery_backoff no_reply_backoff endpoint_answered
driver = tt

-- The fifth silence past the margin ends the operation; inside the margin the error is returned.
fifth_silence :
    (run
      (steady (pos 2000000) silent_reply)
      (recover_operation true 2 (codes "res") (codes "op"))
      tt).result
    ≡ some none
unfolding driver
fifth_silence = refl
