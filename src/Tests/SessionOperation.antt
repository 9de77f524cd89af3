-- ===== src/Tests/SessionOperation.antt =====
-- Runs of pkg/agentstate/session_operation.go on one resource with two operations.
mod Scan
use native.Mathlib.Decide.{ℕ_discrete}
use qurl_connector.Base.{
  ℕ, zero, suc, ◌<◌, ◌≡◌, ◌≢◌, refl, true, false, Option, none, some, List, [], ◌∷◌, Bytes,
  bytes_eq, bytes_beq, codes, arith, nat_eq, inl, inr, ◌⊎◌, is_empty, ap, ◌↔◌, All, length, ◌++◌,
}
use qurl_connector.Base.Int.{pos}
use qurl_connector.Agentstate.SessionOperation.{
  OperationApi, Endpoint, SessionOperationAdmission, SessionOperationRecord, prepared, dispatching,
  mapped, closing, closed, valid_session_operation_record, valid_session_operation_transition,
  valid_fields, valid_operation, valid_recovery_endpoint, admission_fits, keeps_admission,
  valid_recovery_progress, allowed_next, admission_eq, valid_session_operation_admission,
}
use qurl_connector.Agentstate.SessionOperation.Host.{valid_recovery_endpoint_host}
use qurl_connector.Agentstate.SessionOperation.Base64.{valid_key, encode}
use qurl_connector.Strings.{is_trimmed}
use qurl_connector.Base.Maps.{lookup, insert, erase}
use qurl_connector.Agentstate.SessionOperation.KeyCheck.{IsByte, valid_key_iff}
use qurl_connector.Agentstate.SessionOperation.Transition.{IsTransition, IsTransition-iff}
use qurl_connector.Agentstate.SessionOperation.Lifecycle.{
  History, Continues, History-Continues, terminal-History, mapped-History,
}
use qurl_connector.Share.SessionOperation.Advance.{monotonic_advance}
use qurl_connector.Share.SessionOperation.Overtaken.{overtaken_accepted}
use qurl_connector.Agentstate.SessionOperation.Journal.{
  SessionOperationJournal, Platform, session_operation_file_name, has_operation, temporary_name,
  find_session_operation_record, same_session_operation_record, same_encoding,
  valid_session_operation_journal, max_records,
}
use qurl_connector.Agentstate.SessionOperation.Journal.Directory.{
  Directory, WriteIo, load_session_operation_journal, write_session_operation_journal, replace_file,
}
use qurl_connector.Agentstate.SessionOperation.Journal.Store.{
  LockIo, RemoveIo, with_lock, set, resource, append_record, write_if, create_loaded,
  create_session_operation, transition_loaded, transition_session_operation, delete_loaded,
  delete_session_operation, remove_journal, remove_at, delete_at, is_terminal,
}
use qurl_connector.Agentstate.SessionOperation.Journal.Write.{quiet, Written, write_atomic}
use qurl_connector.Agentstate.SessionOperation.Journal.Refinement.{
  Splits, IsSame, loaded, seen, create_refines, transition_refines, delete_refines,
}
use qurl_connector.Agentstate.SessionOperation.Journal.CompareSwap.{second_writer_loses}
use qurl_connector.Agentstate.SessionOperation.Journal.Laws.{Laws}

-- An operation is its own identifier; the rest of it is fixed.
instance abbrev api : OperationApi Bytes
api = record {
  operation_id = λ op. op;
  protected_resource_id = λ op. codes "res";
  cell_id = λ op. codes "cell";
  run_id = λ op. codes "run";
  run_attempt = λ op. 1;
  expires_at_millis = λ op. pos 1000;
  operation_eq = bytes_eq;
  marshal = λ op. some op;
  unmarshal = λ raw. some raw;
}

Record-discrete : Discrete (SessionOperationRecord Bytes)
Record-discrete = hlevel ℕ_discrete

abbrev endpoint : Endpoint
endpoint = record {
  host = codes "cell-1.example.com";
  port = 443;
  server_public_key_b64 = codes "AAECAwQFBgcICQoLDA0ODxAREhMUFRYXGBkaGxwdHh8=";
}

abbrev pub first : SessionOperationRecord Bytes
first = record {
  schema = pos 2;
  operation = codes "op-1";
  recovery_endpoint = endpoint;
  status = prepared;
  admission = none;
  recovery_attempt = 0;
  recovery_not_before_milli = pos 0;
  post_expiry_no_reply_attempts = 0;
}

abbrev sent : SessionOperationRecord Bytes
sent = record first { status = dispatching }

abbrev retried : SessionOperationRecord Bytes
retried = record sent { recovery_attempt = 1; recovery_not_before_milli = pos 1500 }

abbrev receipt : SessionOperationAdmission
receipt = record {
  cell_id = codes "cell";
  session_id = 9;
  session_issued_at_millis = pos 70;
  run_id = codes "run";
  run_attempt = 1;
}

abbrev admitted : SessionOperationRecord Bytes
admitted = record retried { status = mapped; admission = some receipt }

abbrev ended : SessionOperationRecord Bytes
ended = record admitted { status = closed }

-- Unfolds the checks of the code.
checks : Unit {0}
unfolding valid_session_operation_transition valid_session_operation_record valid_fields
    valid_operation valid_recovery_endpoint admission_fits valid_recovery_endpoint_host valid_key
    keeps_admission bytes_beq encode admission_eq valid_session_operation_admission
    valid_recovery_progress allowed_next
checks = tt

valid_first : valid_session_operation_record first ≡ true
unfolding checks
valid_first = refl

first-sent : valid_session_operation_transition first sent ≡ true
unfolding checks
first-sent = refl

sent-retried : valid_session_operation_transition sent retried ≡ true
unfolding checks
sent-retried = refl

Journal-discrete : Discrete (SessionOperationJournal Bytes)
Journal-discrete = hlevel ℕ_discrete

abbrev journal_with : SessionOperationRecord Bytes → SessionOperationJournal Bytes
journal_with r = record { schema = pos 2; protected_resource_id = codes "res"; records = r ∷ [] }

abbrev choose : {P A : Type 0} → Dec P → A → A → A
choose (yes p) a b = a
choose (no n) a b = b

marshal_journal : SessionOperationJournal Bytes → Option Bytes
marshal_journal j = choose (Journal-discrete j (journal_with first)) (some (1 ∷ [])) (
    choose (Journal-discrete j (journal_with sent)) (some (2 ∷ []))
      (choose (Journal-discrete j (journal_with ended)) (some (3 ∷ [])) none))

marshal_record : SessionOperationRecord Bytes → Option Bytes
marshal_record r = choose (Record-discrete r first) (some (1 ∷ [])) (
    choose (Record-discrete r sent) (some (2 ∷ []))
      (choose (Record-discrete r ended) (some (3 ∷ [])) none))

abbrev decode_strict : Bytes → Option (SessionOperationJournal Bytes)
decode_strict (suc zero ∷ []) = some (journal_with first)
decode_strict (suc (suc zero) ∷ []) = some (journal_with sent)
decode_strict (suc (suc (suc zero)) ∷ []) = some (journal_with ended)
decode_strict _ = none

instance abbrev platform : Platform Bytes
platform = record {
  marshal_record = marshal_record;
  marshal_journal = marshal_journal;
  decode_strict = decode_strict;
  sha256 = λ text. codes "0123456789abcdef0123456789abcdef";
}

-- A table of three entries gives one of them, or nothing.
choose_three :
    {P Q R A : Type 0} (d : Dec P) (e : Dec Q) (f : Dec R) (a b c x : A)
    → choose d (some a) (choose e (some b) (choose f (some c) none)) ≡ some x
    → (P × (a ≡ x)) ⊎ ((Q × (b ≡ x)) ⊎ (R × (c ≡ x)))
choose_three (yes p) e f a b c x h = inl (p, cc)
choose_three (no n) (yes q) f a b c x h = inr (inl (q, cc))
choose_three (no n) (no m) (yes r) a b c x h = inr (inr (r, cc))
choose_three (no n) (no m) (no k) a b c x h = cc

journal_cases :
    (j : SessionOperationJournal Bytes) (raw : Bytes)
    → marshal_journal j ≡ some raw
    → ((j ≡ journal_with first) × (1 ∷ [] ≡ raw))
      ⊎ (((j ≡ journal_with sent) × (2 ∷ [] ≡ raw)) ⊎ ((j ≡ journal_with ended) × (3 ∷ [] ≡ raw)))
unfolding marshal_journal
journal_cases j raw e =
    choose_three (Journal-discrete j (journal_with first)) (Journal-discrete j (journal_with sent))
      (Journal-discrete j (journal_with ended)) _ _ _ raw e

decodes_lem :
    (j : SessionOperationJournal Bytes) (raw : Bytes)
    → marshal_journal j ≡ some raw
    → decode_strict raw ≡ some j
decodes_lem j raw e = elim (journal_cases j raw e) [
  | inl (same, text) ↦ rw (← text, same)
  | inr (inl (same, text)) ↦ rw (← text, same)
  | inr (inr (same, text)) ↦ rw (← text, same)
]

not_empty_lem :
    (j : SessionOperationJournal Bytes) (raw : Bytes)
    → marshal_journal j ≡ some raw
    → is_empty raw ≡ false
not_empty_lem j raw e = elim (journal_cases j raw e) [
  | inl (same, text) ↦ rw (← text)
  | inr (inl (same, text)) ↦ rw (← text)
  | inr (inr (same, text)) ↦ rw (← text)
]

record_cases :
    (r : SessionOperationRecord Bytes) (raw : Bytes)
    → marshal_record r ≡ some raw
    → ((r ≡ first) × (1 ∷ [] ≡ raw))
      ⊎ (((r ≡ sent) × (2 ∷ [] ≡ raw)) ⊎ ((r ≡ ended) × (3 ∷ [] ≡ raw)))
unfolding marshal_record
record_cases r raw e =
    choose_three (Record-discrete r first) (Record-discrete r sent) (Record-discrete r ended) _ _ _
      raw e

tells_apart_lem :
    (r s : SessionOperationRecord Bytes) (raw : Bytes)
    → marshal_record r ≡ some raw
    → marshal_record s ≡ some raw
    → r ≡ s
tells_apart_lem r s raw er es = ground (arith, record_cases r raw er, record_cases s raw es)

laws : Laws Bytes
laws = record {
  decodes = λ j raw v e. decodes_lem j raw e;
  not_empty = not_empty_lem;
  tells_apart = λ r s raw vr vs er es. tells_apart_lem r s raw er es;
}

valid_key_iff_example : (valid_key endpoint.server_public_key_b64 ≡ true) ↔ (
    (key : List ℕ) × All IsByte key
    × (length key ≡ 32)
    × (endpoint.server_public_key_b64 ≡ encode key))
valid_key_iff_example = valid_key_iff endpoint.server_public_key_b64

retried-admitted : valid_session_operation_transition retried admitted ≡ true
unfolding checks
retried-admitted = refl

admitted-ended : valid_session_operation_transition admitted ended ≡ true
unfolding checks
admitted-ended = refl

valid_admitted : valid_session_operation_record admitted ≡ true
unfolding checks
valid_admitted = refl

IsTransition-iff_example :
    (valid_session_operation_transition sent retried ≡ true) ↔ IsTransition sent retried
IsTransition-iff_example = IsTransition-iff sent retried (omega arith) (omega arith)

History-Continues_example : Continues first retried
History-Continues_example =
    History-Continues (omega arith) (
      History.next (History.next History.start (omega arith) first-sent) (omega arith) sent-retried)

terminal-History_example : ended ≡ ended
terminal-History_example = terminal-History {r = ended} {t = ended} (inr refl) History.start

mapped-History_example :
    (ended.admission ≡ some receipt)
    × ((ended.status ≡ mapped) ⊎ ((ended.status ≡ closing) ⊎ (ended.status ≡ closed)))
mapped-History_example =
    mapped-History {r = admitted} {t = ended} receipt (omega arith) valid_admitted refl
      (History.next History.start (omega arith) admitted-ended)

valid_sent : valid_session_operation_record sent ≡ true
unfolding checks
valid_sent = refl

overtaken_accepted_example : monotonic_advance sent admitted ≡ true
overtaken_accepted_example =
    overtaken_accepted {p = sent} {t = admitted} (omega arith) valid_sent (λ h. cc)
      (History.next (History.next History.start (omega arith) sent-retried) (omega arith)
        retried-admitted)
      (λ h. cc)

abbrev calm_lock : LockIo
calm_lock = record {
  closed_store = false;
  discontinuous = false;
  lock_fails = false;
  lock_invalid = false;
  discontinuous_after = false;
  unlock_fails = false;
}

abbrev calm_write : WriteIo
calm_write = record {
  lstat_fails = false;
  rand_fails = false;
  create_fails = false;
  chmod_fails = false;
  write_fails = false;
  sync_fails = false;
  invalid_temporary = false;
  rename_fails = false;
  invalid_committed = false;
  close_fails = false;
  remove_fails = false;
  directory_sync_fails = false;
  discontinuous = false;
  suffix = 5 ∷ [];
  partial = [];
}

abbrev file_name : Bytes
file_name =
    codes
      "native_session_operation-3031323334353637383961626364656630313233343536373839616263646566.json"

abbrev file_with : Bytes → Directory
file_with content =
    (file_name, record { symlink = false; regular = true; private_mode = true; content = content })
    ∷ []

-- Unfolds the store.
store : Unit {0}
unfolding checks create_session_operation transition_session_operation with_lock
    session_operation_file_name is_trimmed load_session_operation_journal
    write_session_operation_journal create_loaded transition_loaded delete_session_operation
    delete_loaded remove_journal remove_at delete_at append_record write_if set replace_file
    temporary_name lookup insert erase find_session_operation_record same_session_operation_record
    same_encoding has_operation valid_session_operation_journal marshal_journal marshal_record
    Record-discrete Journal-discrete resource
store = tt

named : session_operation_file_name platform.sha256 (codes "res") ≡ some file_name
unfolding store
named = refl

created : create_session_operation calm_lock quiet calm_write first [] ≡ (file_with (1 ∷ []), [])
unfolding store ℕ_discrete
created = refl

transitioned :
    transition_session_operation calm_lock quiet calm_write first sent (file_with (1 ∷ []))
    ≡ (file_with (2 ∷ []), [])
unfolding store ℕ_discrete
transitioned = refl

abbrev calm_remove : RemoveIo
calm_remove = record { remove_fails = false; sync_fails = false; discontinuous = false }

deleted :
    delete_session_operation calm_lock quiet calm_remove calm_write ended (file_with (3 ∷ []))
    ≡ ([], [])
unfolding store ℕ_discrete
deleted = refl

-- A write that fails before it is committed.
write_atomic_example :
    let io = record calm_write { rename_fails = true; partial = 9 ∷ [] } in
    Written
      (file_with (1 ∷ []))
      file_name
      (temporary_name file_name (5 ∷ []))
      (journal_with sent)
      (write_session_operation_journal io (file_with (1 ∷ [])) file_name (journal_with sent))
write_atomic_example =
    write_atomic (record calm_write { rename_fails = true; partial = 9 ∷ [] }) (file_with (1 ∷ []))
      file_name (journal_with sent)

create_refines_example :
    (valid_session_operation_record first ≡ true)
    × (first.status ≡ prepared)
    × (seen laws (file_with (1 ∷ [])) file_name ≡ loaded laws quiet [] file_name ++ first ∷ [])
    × (has_operation (loaded laws quiet [] file_name) (codes "op-1") ≡ false)
    × (length (loaded laws quiet [] file_name) < max_records)
unfolding resource
create_refines_example =
    create_refines laws calm_lock quiet calm_write first [] (file_with (1 ∷ [])) file_name named
      created

transition_refines_example :
    (valid_session_operation_transition first sent ≡ true)
    × Splits
        (IsSame first)
        (sent ∷ [])
        (loaded laws quiet (file_with (1 ∷ [])) file_name)
        (seen laws (file_with (2 ∷ [])) file_name)
unfolding resource
transition_refines_example =
    transition_refines laws calm_lock quiet calm_write first sent (file_with (1 ∷ []))
      (file_with (2 ∷ [])) file_name named transitioned

delete_refines_example :
    (is_terminal ended.status ≡ true)
    × (valid_session_operation_record ended ≡ true)
    × Splits
        (IsSame ended)
        []
        (loaded laws quiet (file_with (3 ∷ [])) file_name)
        (seen laws [] file_name)
unfolding resource
delete_refines_example =
    delete_refines laws calm_lock quiet calm_remove calm_write ended (file_with (3 ∷ [])) []
      file_name named deleted

sent-ne-first : sent ≢ first
sent-ne-first = λ e. cc (ap (λ (r : SessionOperationRecord Bytes). r.status) e)

second_writer_loses_example :
    let r =
      transition_session_operation calm_lock quiet calm_write first retried (file_with (2 ∷ [])) in
    (r.0 ≡ file_with (2 ∷ [])) × (r.1 ≢ [])
unfolding resource
second_writer_loses_example =
    second_writer_loses laws calm_lock calm_lock quiet quiet calm_write calm_write first sent
      retried (file_with (1 ∷ [])) (file_with (2 ∷ [])) file_name named sent-ne-first transitioned
