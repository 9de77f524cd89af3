-- ===== src/Agentstate/RefreshMarker/Store.antt =====
-- refresh_marker.go over the private state directory: reading the marker, replacing it through a temporary
-- file, and the four operations. What the operating system may refuse is a field of the records of
-- calls; the JSON text of an object's members is a parameter.
use qurl_connector.Base.{
  ℕ, Bool, true, false, not, ◌||◌, Option, none, some, List, [], ◌∷◌, ◌++◌, Bytes, bytes_eq, codes,
  ltb, is_empty, if◌then◌else◌, length,
}
use qurl_connector.Base.Maps.{lookup, erase}
use qurl_connector.Agentstate.SessionOperation.Journal.{
  Errors, corrupt, io_error, unsafe_shape, temporary_name,
}
use qurl_connector.Agentstate.SessionOperation.Journal.Directory.{
  Directory, Entry, ReadIo, WriteIo, error_if, unsafe_entry, replace_file,
}
use qurl_connector.Agentstate.RefreshMarker.{
  RefreshMarker, refresh_marker_file_max_bytes, requested, attempted, succeeded,
}
use qurl_connector.Agentstate.RefreshMarker.Members.{
  Json, decode_refresh_marker, encode_refresh_marker,
}

-- `encoding/json`: the members of a text that is one object, and the text of an object.
pub record Format : Type 0 where
  pub tokens : Bytes → Option (List (Bytes × Json))
  pub print : List (Bytes × Json) → Bytes

-- The calls of a read; `gone` is a file that vanished before its open.
pub record MarkerIo : Type 0 where
  pub read : ReadIo
  pub gone : Bool
  pub stale : Bool  -- the namespace is not current any more

pub record ClearIo : Type 0 where
  pub remove_fails : Bool
  pub sync_fails : Bool
  pub discontinuous : Bool

-- `loadRegistrationRefreshMarker` returns no marker, a marker, or an error.
pub data LoadedMarker : Type 0 where
  no_marker : LoadedMarker
  marker : RefreshMarker → LoadedMarker
  marker_failed : Errors → LoadedMarker

-- What an operation returns: the errors of its calls, none for nil, or its own refusal.
pub data Outcome : Type 0 where
  returned : Errors → Outcome
  declined : Outcome

abbrev pub marker_file : Bytes
marker_file = codes "registration_refresh.json"

-- The deferred close of the marker file.
unfoldable pub close_marker : Bool → LoadedMarker → LoadedMarker
close_marker false r = r
close_marker true (marker_failed e) = marker_failed (e ++ io_error ∷ [])
close_marker true no_marker = marker_failed (io_error ∷ [])
close_marker true (marker m) = marker_failed (io_error ∷ [])

-- The decoded marker, and the last check of the namespace.
unfoldable pub decoded_marker : Option RefreshMarker → Bool → LoadedMarker
decoded_marker none stale = marker_failed (corrupt ∷ [])
decoded_marker (some m) stale = if stale then marker_failed (io_error ∷ []) else marker m

-- `writeRefreshMarker`, from its `Lstat` on
unfoldable pub write_marker_bytes : WriteIo → Directory → Bytes → Directory × Errors
unfolding unsafe_entry replace_file
write_marker_bytes io dir content =
    if io.lstat_fails
    then (dir, io_error ∷ [])
    else if unsafe_entry (lookup marker_file dir)
    then (dir, unsafe_shape ∷ [])
    else if io.rand_fails
    then (dir, io_error ∷ [])
    else replace_file io dir marker_file (temporary_name marker_file io.suffix) content

unfoldable pub as_outcome : Directory × Errors → Directory × Outcome
as_outcome (dir, e) = (dir, returned e)

module _ (format : Format) where
  unfoldable pub decode_tokens : Option (List (Bytes × Json)) → Bool → LoadedMarker
  unfolding decoded_marker
  decode_tokens none stale = marker_failed (corrupt ∷ [])
  decode_tokens (some members) stale = decoded_marker (decode_refresh_marker members) stale

  -- Between `OpenFile` and the deferred close.
  unfoldable pub read_open_marker : MarkerIo → Bytes → LoadedMarker
  unfolding decode_tokens
  read_open_marker io raw =
      if io.read.invalid
      then marker_failed (corrupt ∷ io_error ∷ [])
      else if is_empty raw || ltb refresh_marker_file_max_bytes (length raw)
      then marker_failed (corrupt ∷ [])
      else if io.read.read_fails
      then marker_failed (io_error ∷ [])
      else if io.read.invalid_after
      then marker_failed (corrupt ∷ io_error ∷ [])
      else decode_tokens (format.tokens raw) io.stale

  unfoldable pub read_marker_entry : MarkerIo → Option Entry → LoadedMarker
  unfolding read_open_marker close_marker
  read_marker_entry io none = no_marker
  read_marker_entry io (some e) =
      if e.symlink || not e.regular
      then marker_failed (corrupt ∷ [])
      else if io.gone
      then no_marker
      else if io.read.open_fails
      then marker_failed (io_error ∷ [])
      else close_marker io.read.close_fails (read_open_marker io e.content)

  -- `loadRegistrationRefreshMarker`
  unfoldable pub load_registration_refresh_marker : MarkerIo → Directory → LoadedMarker
  unfolding read_marker_entry
  load_registration_refresh_marker io dir =
      if io.read.lstat_fails
      then marker_failed (io_error ∷ [])
      else read_marker_entry io (lookup marker_file dir)

  -- `writeRefreshMarker`
  unfoldable pub write_refresh_marker : WriteIo → Directory → RefreshMarker → Directory × Outcome
  unfolding write_marker_bytes as_outcome
  write_refresh_marker io dir m =
      as_outcome (write_marker_bytes io dir (format.print (encode_refresh_marker m)))

  -- The write that ends an operation, when it has a marker to write.
  unfoldable pub write_made : WriteIo → Directory → Option RefreshMarker → Directory × Outcome
  unfolding write_refresh_marker
  write_made io dir none = (dir, declined)
  write_made io dir (some m) = write_refresh_marker io dir m

  unfoldable pub request_absent :
      WriteIo → Directory → Bytes → ℕ → Option Entry → Directory × Outcome
  unfolding write_made
  request_absent io dir reason now (some e) = (dir, returned [])
  request_absent io dir reason now none = write_made io dir (requested reason now)

  -- `requestRegistrationRefresh`
  unfoldable pub request_registration_refresh :
      Bool → WriteIo → Directory → Bytes → ℕ → Directory × Outcome
  unfolding request_absent
  request_registration_refresh lstat_fails io dir reason now =
      if lstat_fails
      then (dir, returned (io_error ∷ []))
      else request_absent io dir reason now (lookup marker_file dir)

  -- An operation on the marker that is there.
  unfoldable pub change_marker :
      WriteIo
      → Directory
      → (RefreshMarker → Option RefreshMarker)
      → LoadedMarker
      → Directory × Outcome
  unfolding write_made
  change_marker io dir change no_marker = (dir, returned [])
  change_marker io dir change (marker_failed e) = (dir, returned e)
  change_marker io dir change (marker m) = write_made io dir (change m)

  -- `markRegistrationRefreshAttempted`
  unfoldable pub mark_registration_refresh_attempted :
      MarkerIo → WriteIo → Directory → ℕ → Option ℕ → Directory × Outcome
  unfolding change_marker
  mark_registration_refresh_attempted read io dir now raw =
      change_marker io dir (λ (m : RefreshMarker). attempted m now raw)
        (load_registration_refresh_marker read dir)

  -- `markRegistrationRefreshSucceeded`
  unfoldable pub mark_registration_refresh_succeeded :
      MarkerIo → WriteIo → Directory → ℕ → Directory × Outcome
  unfolding change_marker
  mark_registration_refresh_succeeded read io dir now =
      change_marker io dir (λ (m : RefreshMarker). succeeded m now)
        (load_registration_refresh_marker read dir)

-- `clearRegistrationRefreshMarker`
unfoldable pub clear_registration_refresh_marker : ClearIo → Directory → Directory × Outcome
clear_registration_refresh_marker io dir =
    if io.remove_fails then (dir, returned (io_error ∷ [])) else (
      erase marker_file dir,
      returned (if io.sync_fails then io_error ∷ [] else error_if io.discontinuous),
    )
