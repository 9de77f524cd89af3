-- ===== src/Share/Route.antt =====
-- pkg/share/frp.go and local_pipe.go: a managed local HTTP route, its origins and its validation.
pub mod Headers
pub mod Transport
use qurl_connector.Base.{
  ℕ, ◌+◌, Bool, true, false, not, ◌&&◌, ◌||◌, Option, none, some, List, [], ◌∷◌, Bytes, bytes_eq,
  nat_eq, ◌==◌, ◌++◌, ltb, leb, nat_beq, is_empty, any, length, codes, if◌then◌else◌,
}
use qurl_connector.Base.Maps.{lookup}
use qurl_connector.Strings.{cut_prefix}
use Headers.{RequestHeaders, HttpGuts, HeaderError, validate_request_headers, same_headers}

-- `local_port` is an `int` of the source; a negative one is as invalid as 0.
pub record LocalHttpRoute : Type 0 where
  pub route_id : Bytes
  pub local_ip : Bytes
  pub local_port : ℕ
  pub local_socket_path : Bytes
  pub local_pipe_name : Bytes
  pub resource_public_key : Bytes
  pub connector_routing_id : Bytes
  pub request_headers : RequestHeaders

unfoldable pub has_request_headers : LocalHttpRoute → Bool
has_request_headers r = not (is_empty r.request_headers)

unfoldable pub has_private_origin : LocalHttpRoute → Bool
has_private_origin r = not (is_empty r.local_socket_path) || not (is_empty r.local_pipe_name)

-- `LocalHTTPRoute.Equal`
unfoldable pub equal : LocalHttpRoute → LocalHttpRoute → Bool
equal a b =
    (a.route_id == b.route_id)
    && ((a.local_ip == b.local_ip)
        && ((a.local_port == b.local_port)
            && ((a.local_socket_path == b.local_socket_path)
                && ((a.local_pipe_name == b.local_pipe_name)
                    && ((a.resource_public_key == b.resource_public_key)
                        && ((a.connector_routing_id == b.connector_routing_id)
                            && same_headers a.request_headers b.request_headers))))))

pub data RouteError : Type 0 where
  identities_incomplete pipe_requires_windows pipe_invalid socket_invalid target_invalid :
      RouteError
  header_error : HeaderError → RouteError

-- `localPipePrefix`, and the lengths of the two parts after it.
abbrev pub local_pipe_prefix : Bytes
local_pipe_prefix = 92 ∷ 92 ∷ b'.' ∷ 92 ∷ b'p' ∷ b'i' ∷ b'p' ∷ b'e' ∷ 92 ∷ codes "layerv-qurl-file-"

abbrev pub local_pipe_head_len : ℕ
local_pipe_head_len = 64

abbrev pub local_pipe_suffix_len : ℕ
local_pipe_suffix_len = 97

-- The loop over the suffix from position `i`. The test `suffix[localPipeHeadLen] != '-'` before the
-- loop is made at its position.
unfoldable pub pipe_suffix : ℕ → Bytes → Bool
pipe_suffix i [] = true
pipe_suffix i (c ∷ s) =
    let rest = pipe_suffix (i + 1) s in
    if nat_beq i local_pipe_head_len
    then nat_beq c b'-' && rest
    else ((leb b'0' c && leb c b'9') || (leb b'a' c && leb c b'f')) && rest

-- `ValidateLocalPipeName`; `windows` is `runtime.GOOS == "windows"`.
unfoldable pub validate_local_pipe_name : Bool → Bytes → Option RouteError
validate_local_pipe_name windows name =
    if not windows then some pipe_requires_windows else elim (cut_prefix local_pipe_prefix name) [
      | none ↦ some pipe_invalid
      | some suffix ↦
          if not (nat_beq (length suffix) local_pipe_suffix_len)
          then some pipe_invalid
          else if pipe_suffix 0 suffix
          then none
          else some pipe_invalid
    ]

-- The segments of a path after its first `/`, against `filepath.Clean`: an absolute Unix path is its
-- own cleaning when it is `/` or no segment is empty, `.` or `..`.
clean_segment : Bytes → Bool
clean_segment s = not (is_empty s) && (not (s == codes ".") && not (s == codes ".."))

clean_segments : Bytes → Bytes → Bool
unfolding clean_segment
clean_segments segment [] = clean_segment segment
clean_segments segment (c ∷ s) =
    let inside = clean_segments (segment ++ c ∷ []) s in
    let next = clean_segments [] s in
    if nat_beq c b'/' then clean_segment segment && next else inside

-- `filepath.IsAbs(p) && filepath.Clean(p) == p` on Unix.
unfoldable pub is_clean_absolute : Bytes → Bool
unfolding clean_segments
is_clean_absolute [] = false
is_clean_absolute (c ∷ []) = nat_beq c b'/'
is_clean_absolute (c ∷ d ∷ s) = nat_beq c b'/' && clean_segments [] (d ∷ s)

abbrev pub max_local_socket_path_bytes : ℕ
max_local_socket_path_bytes = 100

-- `strings.ContainsAny(s, "\x00\r\n")`
contains_line_break : Bytes → Bool
contains_line_break s = any (λ c. nat_beq c 0 || (nat_beq c 13 || nat_beq c 10)) s

unfoldable pub valid_socket_path : Bool → LocalHttpRoute → Bool
unfolding contains_line_break
valid_socket_path windows r =
    not windows
    && (is_empty r.local_ip
        && (nat_beq r.local_port 0
            && (is_clean_absolute r.local_socket_path
                && (leb (length r.local_socket_path) max_local_socket_path_bytes
                    && not (contains_line_break r.local_socket_path)))))

unfoldable pub validate_target : Bool → LocalHttpRoute → Option RouteError
validate_target windows r =
    if not (is_empty r.local_pipe_name)
    then (if not (is_empty r.local_ip)
          || (not (nat_beq r.local_port 0) || not (is_empty r.local_socket_path))
        then some pipe_invalid
        else validate_local_pipe_name windows r.local_pipe_name)
    else if not (is_empty r.local_socket_path)
    then (if valid_socket_path windows r then none else some socket_invalid)
    else if is_empty r.local_ip || (ltb r.local_port 1 || ltb 65535 r.local_port)
    then some target_invalid
    else none

-- `validateLocalHTTPRoute`
unfoldable pub validate_local_http_route : HttpGuts → Bool → LocalHttpRoute → Option RouteError
validate_local_http_route guts windows r =
    if is_empty r.route_id || (is_empty r.resource_public_key || is_empty r.connector_routing_id)
    then some identities_incomplete
    else elim (validate_target windows r) [
      | some e ↦ some e
      | none ↦ elim (validate_request_headers guts r.request_headers) [
        | some e ↦ some (header_error e)
        | none ↦ none
      ]
    ]
