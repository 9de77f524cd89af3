-- ===== src/Share/Route/Headers.antt =====
-- pkg/share/frp.go: the runtime request headers of a route.
pub mod Sound
use qurl_connector.Base.{
  ℕ, ◌+◌, Bool, true, false, not, ◌&&◌, Option, none, some, List, [], ◌∷◌, Bytes, bytes_eq, ◌==◌,
  nat_eq, leb, ltb, length, any, codes, all, if◌then◌else◌,
}
use qurl_connector.Base.Maps.{lookup}
use qurl_connector.Base.Sort.{bytes_ltb, sort_by}
use qurl_connector.Utf8.{valid_utf8, to_lower}

-- A Go map from names to values: each name stands in one entry.
abbrev pub RequestHeaders : Type 0
RequestHeaders = List (Bytes × Bytes)

-- What the code uses of golang.org/x/net/http/httpguts.
pub record HttpGuts : Type 0 where
  pub valid_header_field_name : Bytes → Bool
  pub valid_header_field_value : Bytes → Bool

-- The fixed texts of the errors.
pub data HeaderError : Type 0 where
  exceed_limits name_invalid name_reserved names_duplicated value_invalid : HeaderError

abbrev pub max_runtime_request_header_count : ℕ
max_runtime_request_header_count = 16

abbrev pub max_runtime_request_header_bytes : ℕ
max_runtime_request_header_bytes = 1024

unfoldable pub aggregate_bytes : RequestHeaders → ℕ
aggregate_bytes [] = 0
aggregate_bytes ((name, value) ∷ rest) = length name + length value + aggregate_bytes rest

abbrev reserved_names : List Bytes
reserved_names =
    codes "host"
    ∷ codes "content-length"
    ∷ codes "connection"
    ∷ codes "proxy-connection"
    ∷ codes "keep-alive"
    ∷ codes "proxy-authenticate"
    ∷ codes "proxy-authorization"
    ∷ codes "te"
    ∷ codes "trailer"
    ∷ codes "transfer-encoding"
    ∷ codes "upgrade"
    ∷ codes "forwarded"
    ∷ codes "x-forwarded-for"
    ∷ codes "x-forwarded-host"
    ∷ codes "x-forwarded-proto"
    ∷ codes "x-real-ip"
    ∷ codes "x-forwarded-port"
    ∷ []

-- `reservedRequestHeaderName`
unfoldable pub reserved_request_header_name : Bytes → Bool
reserved_request_header_name canonical_name = any (λ name. name == canonical_name) reserved_names

-- The order of `slices.Sorted(maps.Keys(headers))`.
unfoldable pub name_before : Bytes × Bytes → Bytes × Bytes → Bool
name_before a b = bytes_ltb a.0 b.0

-- `maps.Equal`: as many entries, and each has its counterpart.
unfoldable pub same_headers : RequestHeaders → RequestHeaders → Bool
same_headers a b =
    (length a == length b) && all (λ e. elim (lookup e.0 b) [ none ↦ false | some v ↦ e.1 == v ]) a

module _ (guts : HttpGuts) where
  -- `validHTTPHeaderValue`
  unfoldable pub valid_http_header_value : Bytes → Bool
  valid_http_header_value value = valid_utf8 value && guts.valid_header_field_value value

  -- The loop over the sorted names, with the canonical names seen so far.
  unfoldable pub check_headers : List Bytes → RequestHeaders → Option HeaderError
  unfolding valid_http_header_value reserved_request_header_name
  check_headers seen [] = none
  check_headers seen ((name, value) ∷ rest) =
      let canonical_name = to_lower name in
      let later = check_headers (canonical_name ∷ seen) rest in
      if not (guts.valid_header_field_name name)
      then some name_invalid
      else if reserved_request_header_name canonical_name
      then some name_reserved
      else if any (λ s. s == canonical_name) seen
      then some names_duplicated
      else if not (valid_http_header_value value)
      then some value_invalid
      else later

  -- `ValidateRequestHeaders`
  unfoldable pub validate_request_headers : RequestHeaders → Option HeaderError
  validate_request_headers headers =
      if ltb max_runtime_request_header_count (length headers)
      then some exceed_limits
      else if ltb max_runtime_request_header_bytes (aggregate_bytes headers)
      then some exceed_limits
      else check_headers [] (sort_by name_before headers)
