-- ===== src/Share/Route/Headers/Sound.antt =====
-- What a header set that ValidateRequestHeaders accepts satisfies.
use qurl_connector.Base.{
  ◌≤◌, ◌≡◌, true, false, none, List, [], ◌∷◌, Bytes, bytes_eq, ◌==◌, length, any, All, arith, map,
}
use qurl_connector.Base.Sort.{sort_by, sort_by-All}
use qurl_connector.Base.Distinct.{Distinct, Unseen, Unseen-tail, Distinct-cons}
use qurl_connector.Utf8.{to_lower}
use qurl_connector.Share.Route.Headers.{
  RequestHeaders, HttpGuts, aggregate_bytes, reserved_request_header_name, name_before,
  valid_http_header_value, check_headers, validate_request_headers,
  max_runtime_request_header_count, max_runtime_request_header_bytes,
}

module _ (guts : HttpGuts) where
  -- One accepted header.
  pub record IsHeader (h : Bytes × Bytes) : Type 0 where
    pub name : guts.valid_header_field_name h.0 ≡ true
    pub not_reserved : reserved_request_header_name (to_lower h.0) ≡ false
    pub value : valid_http_header_value guts h.1 ≡ true

  abbrev pub canonical_names : RequestHeaders → List Bytes
  canonical_names headers = map (λ h. to_lower h.0) headers

  check_parts :
      (seen : List Bytes) (name value : Bytes) (rest : RequestHeaders)
      → check_headers guts seen ((name, value) ∷ rest) ≡ none
      → IsHeader (name, value)
        × (any (λ s. s == to_lower name) seen ≡ false)
        × (check_headers guts (to_lower name ∷ seen) rest ≡ none)
  unfolding check_headers
  check_parts seen name value rest h = (
    record { name = ground arith; not_reserved = ground arith; value = ground arith },
    ground arith,
    ground arith,
  )

  check_sound :
      (seen : List Bytes) (headers : RequestHeaders)
      → check_headers guts seen headers ≡ none
      → All IsHeader headers
        × All (Unseen seen) (canonical_names headers)
        × Distinct (canonical_names headers)
  check_sound seen [] h = (tt, tt, tt)
  check_sound seen ((name, value) ∷ rest) h =
      let (valid, new, more) = check_parts seen name value rest h in
      let (valids, unseen, distinct) = check_sound (to_lower name ∷ seen) rest more in
      let names = canonical_names rest in
      (
        (valid, valids),
        (new, Unseen-tail (to_lower name) seen names unseen),
        Distinct-cons (to_lower name) seen names unseen distinct,
      )

  -- What an accepted header set satisfies.
  pub record AreHeaders (headers : RequestHeaders) : Type 0 where
    pub count : length headers ≤ max_runtime_request_header_count
    pub bytes : aggregate_bytes headers ≤ max_runtime_request_header_bytes
    pub each : All IsHeader headers
    pub distinct : Distinct (canonical_names (sort_by name_before headers))

  validate_parts :
      (headers : RequestHeaders)
      → validate_request_headers guts headers ≡ none
      → (length headers ≤ max_runtime_request_header_count)
        × (aggregate_bytes headers ≤ max_runtime_request_header_bytes)
        × (check_headers guts [] (sort_by name_before headers) ≡ none)
  unfolding validate_request_headers
  validate_parts headers h = (ground arith, ground arith, ground arith)

  -- An accepted set of request headers has at most sixteen entries and 1024 bytes of names and
  -- values, each with a valid name that is not reserved and a valid value, and no two of its names,
  -- in sorted order, are equal in lower case.
  pub headers_sound :
      (headers : RequestHeaders) → validate_request_headers guts headers ≡ none → AreHeaders headers
  headers_sound headers h =
      let (n, b, c) = validate_parts headers h in
      let (valid, unseen, distinct) = check_sound [] (sort_by name_before headers) c in
      record {
        count = n;
        bytes = b;
        each = (sort_by-All name_before IsHeader headers).0 valid;
        distinct = distinct;
      }
