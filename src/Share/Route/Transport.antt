-- ===== src/Share/Route/Transport.antt =====
-- pkg/share/frp.go: which routes a transport may carry, and the admitted FRP endpoint.
use qurl_connector.Base.{
  ℕ, ◌+◌, ◌*◌, ◌-◌, Bool, false, not, ◌&&◌, ◌||◌, Option, none, some, List, [], ◌∷◌, ◌++◌, Bytes,
  bytes_eq, ◌==◌, ltb, leb, nat_beq, is_empty, codes, if◌then◌else◌,
}
use qurl_connector.Net.{parse_ip, split_host_port}
use qurl_connector.Strings.{trim_space, has_prefix}

-- The fields that the code reads of FRP's `v1.ClientCommonConfig`.
pub record ClientCommonConfig : Type 0 where
  pub protocol : Bytes
  pub tls_enable : Option Bool
  pub verify_server_certificate : Bool
  pub trusted_ca_file : Bytes
  pub tls_server_name : Bytes
  pub web_server_port : ℕ
  pub server_addr : Bytes
  pub server_port : ℕ
  pub metadatas : List (Bytes × Bytes)
  pub login_fail_exit : Option Bool
  pub start : List Bytes

-- `Enable != nil && *Enable`
abbrev is_set : Option Bool → Bool
is_set none = false
is_set (some b) = b

-- `tlsEnabled` on a config that is not nil.
unfoldable pub tls_enabled : ClientCommonConfig → Bool
tls_enabled c = is_set c.tls_enable || ((c.protocol == codes "wss") || (c.protocol == codes "quic"))

pub data TransportError : Type 0 where
  private_origins_web_server headers_unencrypted headers_unverified headers_web_server :
      TransportError

-- `routeTransportError`
unfoldable pub route_transport_error : ClientCommonConfig → Bool → Bool → Option TransportError
route_transport_error c headered private_origin =
    if private_origin && ltb 0 c.web_server_port
    then some private_origins_web_server
    else if not headered
    then none
    else if not (tls_enabled c)
    then some headers_unencrypted
    else if not c.verify_server_certificate
        && (is_empty c.trusted_ca_file
            || ((c.protocol == codes "quic") && not (is_set c.tls_enable)))
    then some headers_unverified
    else if ltb 0 c.web_server_port
    then some headers_web_server
    else none

-- `strconv.Atoi` on a text: an optional sign and decimal digits; `none` also for a value that is not
-- positive or has left the range of ports, which the caller refuses alike.
digits_value : ℕ → Bytes → Option ℕ
digits_value n [] = some n
digits_value n (c ∷ s) =
    let rest = digits_value (n * 10 + (c - b'0')) s in
    if leb b'0' c && leb c b'9' then rest else none

unfoldable pub port_of : Bytes → Option ℕ
unfolding digits_value
port_of [] = none
port_of (c ∷ s) =
    let digits = if nat_beq c b'+' then s else c ∷ s in
    let in_range = λ (n : ℕ). if ltb n 1 || ltb 65535 n then none else some n in
    if is_empty digits
    then none
    else elim (digits_value 0 digits) [ none ↦ none | some n ↦ in_range n ]

-- `ip.To4() == nil` of sixteen bytes.
is_v6 : List ℕ → Bool
is_v6 ip = not (has_prefix (0 ∷ 0 ∷ 0 ∷ 0 ∷ 0 ∷ 0 ∷ 0 ∷ 0 ∷ 0 ∷ 0 ∷ 255 ∷ 255 ∷ []) ip)

-- `parseAdmittedResourceHost`
unfoldable pub parse_admitted_resource_host : Bytes → Option (Bytes × ℕ)
unfolding is_v6
parse_admitted_resource_host value = elim (split_host_port value) [
  | none ↦ none
  | some (host, port_text) ↦ if is_empty (trim_space host) then none else elim (port_of port_text) [
    | none ↦ none
    | some port ↦ elim (parse_ip host) [
      | none ↦ some (host, port)
      | some ip ↦ if is_v6 ip then some (b'[' ∷ host ++ b']' ∷ [], port) else some (host, port)
    ]
  ]
]
