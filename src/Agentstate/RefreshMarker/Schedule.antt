-- ===== src/Agentstate/RefreshMarker/Schedule.antt =====
-- The retry schedule on disk (refresh_marker.go): calls on a directory whose marker belongs to an episode.
use qurl_connector.Base.{
  ℕ, suc, ◌+◌, ◌≤◌, ◌≡◌, ◌≢◌, inl, inr, refl, subst, ◌∙◌, Bool, false, Option, none, some, [], ◌∷◌,
  Bytes, bytes_eq, arith, if_both,
}
use qurl_connector.Base.Maps.{lookup}
use qurl_connector.Agentstate.SessionOperation.Journal.{Errors, io_error, temporary_name}
use qurl_connector.Agentstate.SessionOperation.Journal.Directory.{Directory, WriteIo, unsafe_entry}
use qurl_connector.Agentstate.SessionOperation.Journal.Write.{
  Replaced, unchanged, replace-Replaced, temporary-ne,
}
use qurl_connector.Agentstate.RefreshMarker.Checks.{IsTime}
use qurl_connector.Agentstate.RefreshMarker.{RefreshMarker, attempted, succeeded}
use qurl_connector.Agentstate.RefreshMarker.Members.{encode_refresh_marker}
use qurl_connector.Agentstate.RefreshMarker.Episode.{Episode, tried, confirmed, Episode-Tracks}
use qurl_connector.Agentstate.RefreshMarker.Seen.{
  Parses, Holds, IsSeen, found, lost, broken, load-IsSeen,
}
use qurl_connector.Agentstate.RefreshMarker.Store.{
  Format, MarkerIo, LoadedMarker, Outcome, returned, declined, marker_file, write_marker_bytes,
  write_refresh_marker, as_outcome, change_marker, write_made, request_registration_refresh,
  mark_registration_refresh_attempted, mark_registration_refresh_succeeded, request_absent,
}

-- A write of the marker replaces the whole file, or leaves it as it was.
write-Replaced :
    (io : WriteIo) (dir : Directory) (content : Bytes)
    → Replaced dir marker_file
        (temporary_name marker_file io.suffix)
        content
        (write_marker_bytes io dir content)
unfolding write_marker_bytes
write-Replaced io dir content =
    let tmp = temporary_name marker_file io.suffix in
    let differ = temporary-ne marker_file io.suffix in
    let P = Replaced dir marker_file tmp content in
    let same = λ (e : Errors). unchanged marker_file tmp content dir differ e in
    if_both P io.lstat_fails (same _ (λ h. cc)) (
      if_both P (unsafe_entry (lookup marker_file dir)) (same _ (λ h. cc)) (
        if_both P io.rand_fails (same _ (λ h. cc))
          (replace-Replaced marker_file tmp content dir differ io)))

-- One call on the state directory, but for the clear that ends an episode.
pub data Call : Type 0 where
  requesting : Bool → WriteIo → Bytes → ℕ → Call
  attempting : MarkerIo → WriteIo → ℕ → Option ℕ → Call
  succeeding : MarkerIo → WriteIo → ℕ → Call

abbrev pub clock : Call → ℕ
clock (requesting fails io reason now) = now
clock (attempting read io now raw) = now
clock (succeeding read io now) = now

-- What a call may add to the count of attempts.
abbrev pub tries : Call → ℕ
tries (requesting fails io reason now) = 0
tries (attempting read io now raw) = 1
tries (succeeding read io now) = 0

-- The file vanished under a call.
abbrev pub vanished : Call → Bool
vanished (requesting fails io reason now) = false
vanished (attempting read io now raw) = read.gone
vanished (succeeding read io now) = read.gone

abbrev pub perform : Format → Call → Directory → Directory × Outcome
perform format (requesting fails io reason now) dir =
    request_registration_refresh format fails io dir reason now
perform format (attempting read io now raw) dir =
    mark_registration_refresh_attempted format read io dir now raw
perform format (succeeding read io now) dir =
    mark_registration_refresh_succeeded format read io dir now

-- What a call leaves of an episode: a marker of the same episode, whole, with no attempt lost and at most
-- the call's own added; and where the call returns nil and the file did not vanish, its own is counted.
pub record Kept (format : Format) (reason : Bytes) (now k more : ℕ) (gone : Bool)
    (r : Directory × Outcome) : Type 0 where
  pub last : ℕ
  pub counted : ℕ
  pub current : RefreshMarker
  pub episode : Episode reason last counted current
  pub not_later : last ≤ now
  pub whole : Holds format r.0 current
  pub none_lost : k ≤ counted
  pub none_made_up : counted ≤ k + more
  pub done : r.1 ≡ returned [] → gone ≡ false → counted ≡ k + more

errors_of : {e : Errors} → returned e ≡ returned [] → e ≡ []
errors_of h = cc

module _ (format : Format) (reason : Bytes) (t k now : ℕ) (dir : Directory) (m : RefreshMarker)
    (episode : Episode reason t k m) (later : t ≤ now) (holds : Holds format dir m) where
  -- A call that writes nothing.
  stays :
      (more : ℕ) (gone : Bool) (o : Outcome)
      → (o ≡ returned [] → gone ≡ false → k ≡ k + more)
      → Kept format reason now k more gone (dir, o)
  stays more gone o done = record {
    last = t;
    counted = k;
    current = m;
    episode = episode;
    not_later = later;
    whole = holds;
    none_lost = omega arith;
    none_made_up = omega arith;
    done = done;
  }

  module _ (more : ℕ) (gone : Bool) (tmp : Bytes) (n : RefreshMarker)
      (next : Episode reason now (k + more) n) where
    new_marker :
        (d : Directory) (e : Errors)
        → Holds format d n
        → Kept format reason now k more gone (d, returned e)
    new_marker d e whole = record {
      last = now;
      counted = k + more;
      current = n;
      episode = next;
      not_later = omega arith;
      whole = whole;
      none_lost = omega arith;
      none_made_up = omega arith;
      done = λ nil there. refl;
    }

    old_marker :
        (d : Directory) (e : Errors)
        → e ≢ []
        → Holds format d m
        → Kept format reason now k more gone (d, returned e)
    old_marker d e some_error whole = record {
      last = t;
      counted = k;
      current = m;
      episode = episode;
      not_later = later;
      whole = whole;
      none_lost = omega arith;
      none_made_up = omega arith;
      done = λ nil there. absurd (some_error (errors_of nil));
    }

    replaced_kept :
        (r : Directory × Errors)
        → Replaced dir marker_file tmp (format.print (encode_refresh_marker n)) r
        → Kept format reason now k more gone (as_outcome r)
    unfolding as_outcome
    replaced_kept (d, []) h = new_marker d [] (h.done refl)
    replaced_kept (d, e ∷ es) h = elim h.atomic [
      | inl same ↦ old_marker d (e ∷ es) (λ q. cc) (same ∙ holds)
      | inr new ↦ new_marker d (e ∷ es) new
    ]

  -- A call that writes the next marker of the episode.
  moves :
      (more : ℕ) (gone : Bool) (io : WriteIo) (n : RefreshMarker)
      → Episode reason now (k + more) n
      → Kept format reason now k more gone (write_refresh_marker format io dir n)
  unfolding write_refresh_marker
  moves more gone io n next =
      replaced_kept more gone (temporary_name marker_file io.suffix) n next
        (write_marker_bytes io dir (format.print (encode_refresh_marker n)))
        (write-Replaced io dir (format.print (encode_refresh_marker n)))

  made :
      (more : ℕ) (gone : Bool) (io : WriteIo) (o : Option RefreshMarker)
      → ((n : RefreshMarker) → o ≡ some n → Episode reason now (k + more) n)
      → Kept format reason now k more gone (write_made format io dir o)
  unfolding write_made
  made more gone io none next = stays more gone declined (λ nil there. cc)
  made more gone io (some n) next = moves more gone io n (next n refl)

  changed :
      (more : ℕ) (read : MarkerIo) (io : WriteIo) (change : RefreshMarker → Option RefreshMarker)
      {seen : LoadedMarker}
      → IsSeen read m seen
      → ((n : RefreshMarker) → change m ≡ some n → Episode reason now (k + more) n)
      → Kept format reason now k more read.gone (change_marker format io dir change seen)
  unfolding change_marker
  changed more read io change found next = made more read.gone io (change m) next
  changed more read io change (lost gone) next =
      stays more read.gone (returned []) (λ nil there. cc)
  changed more read io change (broken e some_error) next =
      stays more read.gone (returned e) (λ nil there. absurd (some_error (errors_of nil)))

recount :
    {reason : Bytes} {now : ℕ} {n : RefreshMarker} (j k : ℕ)
    → j ≡ k
    → Episode reason now j n
    → Episode reason now k n
recount {reason} {now} {n} j k h e = subst (λ (i : ℕ). Episode reason now i n) h e

-- Where the JSON text of a valid marker parses to its members, the marker file holds the marker of an
-- episode, and the clock has not gone back, a request, an attempt or a success leaves the file whole with
-- a marker of the same episode, whatever call of the operating system fails: no attempt that was counted
-- is lost, at most the call's own is added, and where the call returns nil and the file did not vanish
-- under it, exactly its own is.
pub call-Kept :
    (format : Format) (reason : Bytes) (t k : ℕ) (dir : Directory) (m : RefreshMarker) (c : Call)
    → Parses format
    → Episode reason t k m
    → Holds format dir m
    → IsTime (clock c)
    → t ≤ clock c
    → Kept format reason (clock c) k (tries c) (vanished c) (perform format c dir)
unfolding request_registration_refresh request_absent mark_registration_refresh_attempted
    mark_registration_refresh_succeeded
call-Kept format reason t k dir m (requesting fails io words now) parses episode holds time later =
    let still = stays format reason t k now dir m episode later holds 0 false in
    let P = Kept format reason now k 0 false in
    if_both P fails (still (returned (io_error ∷ [])) (λ nil there. omega arith))
      (rw holds (still (returned []) (λ nil there. omega arith)))
call-Kept format reason t k dir m (attempting read io now raw) parses episode holds time later =
    let (tracks, again) = Episode-Tracks episode in
    changed format reason t k now dir m episode later holds 1 read io
      (λ (n : RefreshMarker). attempted n now raw)
      (load-IsSeen format parses read dir m tracks.marker holds)
      (λ n h. recount (suc k) (k + 1) (omega arith) (tried raw episode time later h))
call-Kept format reason t k dir m (succeeding read io now) parses episode holds time later =
    let (tracks, again) = Episode-Tracks episode in
    changed format reason t k now dir m episode later holds 0 read io
      (λ (n : RefreshMarker). succeeded n now)
      (load-IsSeen format parses read dir m tracks.marker holds)
      (λ n h. recount k (k + 0) (omega arith) (confirmed episode time later h))
