-- ===== src/Tests/RefreshMarker.antt =====
-- The refresh marker on concrete values (pkg/agentstate/refresh_marker.go).
use qurl_connector.Base.{
  ℕ, zero, suc, ◌+◌, ◌*◌, ◌≤◌, ◌≡◌, refl, arith, true, false, none, some, List, [], ◌∷◌, Bytes,
  bytes_eq, bytes_beq, codes,
}
use qurl_connector.Base.Int.{pos, negsuc}
use qurl_connector.Strings.{trim_space}
use qurl_connector.Utf8.{valid_utf8}
use qurl_connector.Base.Maps.{lookup}
use qurl_connector.Agentstate.SessionOperation.Journal.Directory.{Directory, WriteIo, new_entry}
use qurl_connector.Agentstate.SessionOperation.Journal.Write.{quiet}
use qurl_connector.Agentstate.RefreshMarker.Checks.{IsTime}
use qurl_connector.Agentstate.RefreshMarker.{
  RefreshMarker, invalid_reason, fresh_marker, requested, attempted_marker, attempted,
  succeeded_marker, succeeded,
}
use qurl_connector.Agentstate.RefreshMarker.Members.{
  Json, number, text, null, other, decode_refresh_marker, encode_refresh_marker,
}
use qurl_connector.Agentstate.RefreshMarker.RoundTrip.{decode-encode}
use qurl_connector.Agentstate.RefreshMarker.Episode.{
  Episode, opened, tried, confirmed, Tracks, Episode-Tracks,
}
use qurl_connector.Agentstate.RefreshMarker.Store.{Format, MarkerIo, marker_file}
use qurl_connector.Agentstate.RefreshMarker.Seen.{Parses, Holds}
use qurl_connector.Agentstate.RefreshMarker.Schedule.{
  Call, requesting, attempting, succeeding, perform, Kept, call-Kept,
}
use qurl_connector.Agentstate.RefreshMarker.Runs.{
  InOrder, no_calls, then_call, perform_all, Survives, calls-Survives,
}

-- A text of an object for the examples: each string with every unit raised by one, and ended by zero.
put : Bytes → Bytes → Bytes
put [] rest = 0 ∷ rest
put (c ∷ s) rest = suc c ∷ put s rest

grow : ℕ → List Bytes → List Bytes
grow c [] = []
grow c (x ∷ xs) = (c ∷ x) ∷ xs

split : Bytes → List Bytes
unfolding grow
split [] = []
split (zero ∷ r) = [] ∷ split r
split (suc c ∷ r) = grow c (split r)

split-put : (s rest : Bytes) → split (put s rest) ≡ s ∷ split rest
unfolding split put
split-put [] rest = refl
split-put (c ∷ s) rest = rw (split-put s rest) refl

value : Json → Bytes
value (number (pos n)) = 0 ∷ n ∷ []
value (number (negsuc n)) = 1 ∷ n ∷ []
value (text s) = 2 ∷ s
value null = 3 ∷ []
value other = []

value_of : Bytes → Json
value_of [] = other
value_of (zero ∷ []) = other
value_of (zero ∷ n ∷ s) = number (pos n)
value_of (suc zero ∷ []) = other
value_of (suc zero ∷ n ∷ s) = number (negsuc n)
value_of (suc (suc zero) ∷ s) = text s
value_of (suc (suc (suc c)) ∷ s) = null

value_of-value : (j : Json) → value_of (value j) ≡ j
unfolding value_of value
value_of-value (number (pos n)) = refl
value_of-value (number (negsuc n)) = refl
value_of-value (text s) = refl
value_of-value null = refl
value_of-value other = refl

printed : List (Bytes × Json) → Bytes
unfolding put value
printed [] = []
printed ((k, j) ∷ ms) = put k (put (value j) (printed ms))

paired : List Bytes → List (Bytes × Json)
unfolding value_of
paired [] = []
paired (k ∷ []) = []
paired (k ∷ v ∷ r) = (k, value_of v) ∷ paired r

paired-printed : (ms : List (Bytes × Json)) → paired (split (printed ms)) ≡ ms
unfolding printed paired split
paired-printed [] = refl
paired-printed ((k, j) ∷ ms) =
    rw
      (split-put k (put (value j) (printed ms)), split-put (value j) (printed ms), value_of-value j)
      (rw (paired-printed ms) refl)

abbrev example_format : Format
example_format = record { tokens = λ b. some (paired (split b)); print = printed }

example-Parses : Parses example_format
unfolding printed paired split
example-Parses m valid = rw (paired-printed (encode_refresh_marker m)) refl

abbrev at : ℕ → ℕ
at seconds = 1700000000000000000 + seconds * 1000000000

example-IsTime : (s : ℕ) → s ≤ 100 → IsTime (at s)
example-IsTime s h = record { after = omega (arith, h); before = omega (arith, h) }

abbrev example_reason : Bytes
example_reason = codes " knock failures "

abbrev opened_marker : RefreshMarker
opened_marker = fresh_marker (codes "knock failures") (at 0)

abbrev tried_marker : RefreshMarker
tried_marker = attempted_marker opened_marker (at 1) (some 7)

abbrev confirmed_marker : RefreshMarker
confirmed_marker = succeeded_marker tried_marker (at 2)

example-Episode : Episode example_reason (at 2) 1 confirmed_marker
unfolding requested attempted succeeded invalid_reason valid_utf8 trim_space
example-Episode =
    confirmed
      (tried (some 7) (opened (example-IsTime 0 (omega arith)) refl)
        (example-IsTime 1 (omega arith)) (omega arith) refl)
      (example-IsTime 2 (omega arith)) (omega arith) refl

Episode-Tracks_example :
    Tracks example_reason (at 2) 1 confirmed_marker
    × (decode_refresh_marker (encode_refresh_marker confirmed_marker) ≡ some confirmed_marker)
Episode-Tracks_example = Episode-Tracks example-Episode

example-Tracks : Tracks example_reason (at 2) 1 confirmed_marker
example-Tracks = (Episode-Tracks example-Episode).0

decode-encode_example :
    decode_refresh_marker (encode_refresh_marker confirmed_marker) ≡ some confirmed_marker
decode-encode_example = decode-encode confirmed_marker example-Tracks.marker

abbrev example_directory : Directory
example_directory =
    (marker_file, new_entry (example_format.print (encode_refresh_marker confirmed_marker))) ∷ []

example-Holds : Holds example_format example_directory confirmed_marker
unfolding lookup bytes_beq
example-Holds = refl

abbrev example_read : MarkerIo
example_read = record { read = quiet; gone = false; stale = false }

abbrev example_write : WriteIo
example_write = record {
  lstat_fails = false;
  rand_fails = false;
  create_fails = false;
  chmod_fails = false;
  write_fails = false;
  sync_fails = false;
  invalid_temporary = false;
  rename_fails = false;
  invalid_committed = false;
  close_fails = false;
  remove_fails = false;
  directory_sync_fails = false;
  discontinuous = false;
  suffix = codes "abcdefgh";
  partial = [];
}

-- A write that the disk refuses half-way.
abbrev failing_write : WriteIo
failing_write = record example_write { write_fails = true; partial = codes "{" }

abbrev example_attempt : Call
example_attempt = attempting example_read example_write (at 60) none

call-Kept_example :
    Kept example_format example_reason
      (at 60)
      1
      1
      false
      (perform example_format example_attempt example_directory)
call-Kept_example =
    call-Kept example_format example_reason (at 2) 1 example_directory confirmed_marker
      example_attempt example-Parses example-Episode example-Holds (example-IsTime 60 (omega arith))
      (omega arith)

abbrev example_calls : List Call
example_calls =
    attempting example_read failing_write (at 60) none
    ∷ (requesting false example_write (codes "again") (at 70)
        ∷ (attempting example_read example_write (at 80) (some 3)
            ∷ (succeeding example_read example_write (at 90) ∷ [])))

example_order : InOrder (at 2) example_calls
example_order =
    then_call (example-IsTime 60 (omega arith), omega arith)
      (then_call (example-IsTime 70 (omega arith), omega arith)
        (then_call (example-IsTime 80 (omega arith), omega arith)
          (then_call (example-IsTime 90 (omega arith), omega arith) no_calls)))

calls-Survives_example :
    Survives example_format example_reason 1 example_calls
      (perform_all example_format example_calls example_directory)
calls-Survives_example =
    calls-Survives example_format example_reason (at 2) 1 example_directory confirmed_marker
      example_calls example-Parses example-Episode example-Holds example_order
