-- ===== src/Agentstate/RefreshMarker/Seen.antt =====
-- What a read of a whole marker file comes to (refresh_marker.go).
use qurl_connector.Base.{
  ◌≡◌, ◌≢◌, Bool, true, false, ◌||◌, some, [], ◌∷◌, bytes_eq, is_empty, ltb, length, if_both,
  if_cases,
}
use qurl_connector.Base.Maps.{lookup}
use qurl_connector.Agentstate.SessionOperation.Journal.{Errors}
use qurl_connector.Agentstate.SessionOperation.Journal.Directory.{Directory, new_entry}
use qurl_connector.Agentstate.RefreshMarker.{RefreshMarker, refresh_marker_file_max_bytes}
use qurl_connector.Agentstate.RefreshMarker.Members.{encode_refresh_marker}
use qurl_connector.Agentstate.RefreshMarker.RoundTrip.{IsMarker, decode-encode}
use qurl_connector.Agentstate.RefreshMarker.Store.{
  Format, MarkerIo, LoadedMarker, no_marker, marker, marker_failed, marker_file, close_marker,
  decode_tokens, read_open_marker, load_registration_refresh_marker,
}

-- The JSON text of a valid marker has the members that were written.
abbrev pub Parses : Format → Type 0
Parses format =
    (m : RefreshMarker)
    → IsMarker m
    → format.tokens (format.print (encode_refresh_marker m)) ≡ some (encode_refresh_marker m)

-- The marker file is a regular one with the whole of a marker.
abbrev pub Holds : Format → Directory → RefreshMarker → Type 0
Holds format dir m =
    lookup marker_file dir ≡ some (new_entry (format.print (encode_refresh_marker m)))

-- What a read of a marker comes to.
pub data IsSeen (io : MarkerIo) (m : RefreshMarker) : LoadedMarker → Type 0 where
  found : IsSeen io m (marker m)
  lost : io.gone ≡ true → IsSeen io m no_marker
  broken : (e : Errors) → e ≢ [] → IsSeen io m (marker_failed e)

close_marker-IsSeen :
    (io : MarkerIo) (m : RefreshMarker) (b : Bool) (l : LoadedMarker)
    → IsSeen io m l
    → IsSeen io m (close_marker b l)
unfolding close_marker
close_marker-IsSeen io m false l h = h
close_marker-IsSeen io m true no_marker h = broken _ (λ e. cc)
close_marker-IsSeen io m true (marker n) h = broken _ (λ e. cc)
close_marker-IsSeen io m true (marker_failed []) h = broken _ (λ e. cc)
close_marker-IsSeen io m true (marker_failed (k ∷ ks)) h = broken _ (λ e. cc)

module _ (format : Format) (parses : Parses format) where
  content-IsSeen :
      (io : MarkerIo) (m : RefreshMarker)
      → IsMarker m
      → IsSeen io m (read_open_marker format io (format.print (encode_refresh_marker m)))
  unfolding read_open_marker decode_tokens
  content-IsSeen io m valid =
      let P = IsSeen io m in
      let raw = format.print (encode_refresh_marker m) in
      if_both P io.read.invalid (broken _ (λ e. cc)) (
        if_both P (is_empty raw || ltb refresh_marker_file_max_bytes (length raw))
          (broken _ (λ e. cc))
          (if_both P io.read.read_fails (broken _ (λ e. cc)) (
            if_both P io.read.invalid_after (broken _ (λ e. cc)) (
              rw (parses m valid, decode-encode m valid)
                (if_both P io.stale (broken _ (λ e. cc)) found)))))

  pub load-IsSeen :
      (io : MarkerIo) (dir : Directory) (m : RefreshMarker)
      → IsMarker m
      → Holds format dir m
      → IsSeen io m (load_registration_refresh_marker format io dir)
  unfolding load_registration_refresh_marker new_entry
  load-IsSeen io dir m valid holds =
      let P = IsSeen io m in
      if_both P io.read.lstat_fails (broken _ (λ e. cc)) (
        rw holds (
          if_cases P io.gone lost (λ there.
            if_both P io.read.open_fails (broken _ (λ e. cc))
              (close_marker-IsSeen io m io.read.close_fails _ (content-IsSeen io m valid)))))
