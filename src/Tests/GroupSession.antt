-- ===== src/Tests/GroupSession.antt =====
-- Runs of one FRP session group and its factory on two routes.
use qurl_connector.Base.{
  ℕ, ◌*◌, ◌≡◌, ◌⊎◌, ◌↔◌, refl, true, false, not, none, some, List, [], ◌∷◌, Bytes, bytes_eq,
  bytes_beq, codes, arith, is_empty, map,
}
use qurl_connector.Base.Int.{pos}
use qurl_connector.Base.Maps.{lookup, insert}
use qurl_connector.Base.Sort.{bytes_ltb, insert_by, sort_by}
use qurl_connector.Base.Distinct.{Distinct}
use qurl_connector.Net.{parse_ip, split_host_port}
use qurl_connector.Strings.{cut_prefix, has_prefix, trim_space, trim_prefix, trim_suffix}
use qurl_connector.Utf8.{valid_utf8, to_lower, lower_byte}
use qurl_connector.Config.FrpGen.{
  frp_proxy_name, normalize_proxy_discriminator, keep_name, is_alphanumeric, trim_hyphens,
  format_uint36,
}
use qurl_connector.Share.Admission.{
  Admission, validate_admission, validate_admission_receipt, build_admitted_common, ip_literal_host,
}
use qurl_connector.Share.Admission.Laws.{IsAdmission, validate_admission_iff}
use qurl_connector.Share.Route.{
  LocalHttpRoute, has_request_headers, has_private_origin, validate_local_http_route,
  validate_target,
}
use qurl_connector.Share.Route.Headers.{
  HttpGuts, RequestHeaders, validate_request_headers, check_headers, aggregate_bytes, name_before,
  valid_http_header_value, reserved_request_header_name,
}
use qurl_connector.Share.Route.Headers.Sound.{AreHeaders, headers_sound}
use qurl_connector.Share.Route.Transport.{
  ClientCommonConfig, tls_enabled, route_transport_error, parse_admitted_resource_host, port_of,
}
use qurl_connector.Share.GroupSession.{
  GroupRoute, Entry, Session, Limits, pending, serving, group_proxy_name,
  session_proxy_discriminator, notify,
}
use qurl_connector.Share.GroupSession.Window.{release_window, released_pending_factor, window_of}
use qurl_connector.Share.GroupSession.Window.Bounds.{InWindow, release_window_bounds}
use qurl_connector.Share.GroupSession.Status.{Observation}
use qurl_connector.Share.GroupSession.Observe.{apply_observations}
use qurl_connector.Share.GroupSession.Update.{
  update_table, locals, validate_group_routes, check_identities,
}
use qurl_connector.Share.GroupSession.Update.Laws.{Updated, update_table-Updated}
use qurl_connector.Share.GroupSession.Update.Identities.{IsGroup, groups_sound}
use qurl_connector.Share.GroupSession.Lifecycle.{new_session, run_ended}
use qurl_connector.Share.GroupSession.Lifecycle.Steps.{free, Step, here, next}
use qurl_connector.Share.GroupSession.Lifecycle.Accepted.{IsSynced, accepted_when_pushed}
use qurl_connector.Share.GroupSession.Lifecycle.Ended.{IsFinal, ended_serves_none}
use qurl_connector.Share.GroupFactory.{
  HttpProxyConfig, FrpLibrary, FactoryConfig, new_factory, build_config, render_group_proxies,
  build_route_proxy,
}
use qurl_connector.Share.GroupFactory.Safe.{IsPrivate, build_config-IsPrivate}
use qurl_connector.Share.GroupFactory.Proxies.{render_group_proxies_lem, proxy_of, AreProxies}

abbrev sha : Bytes → Bytes
sha s = codes "0123456789abcdef"

abbrev guts : HttpGuts
guts = record {
  valid_header_field_name = λ n. not (is_empty n);
  valid_header_field_value = λ v. true;
}

abbrev frp : FrpLibrary
frp = record { keeps = λ c p. true; valid = λ p. true }

abbrev headers : RequestHeaders
headers = (b'X' ∷ [], b'1' ∷ []) ∷ []

abbrev route_to : ℕ → ℕ → LocalHttpRoute
route_to c port = record {
  route_id = c ∷ [];
  local_ip = codes "127.0.0.1";
  local_port = port;
  local_socket_path = [];
  local_pipe_name = [];
  resource_public_key = b'p' ∷ c ∷ [];
  connector_routing_id = b'r' ∷ c ∷ [];
  request_headers = headers;
}

abbrev web : GroupRoute
web = record { route = route_to b'w' 8080; generation = 0 }

abbrev api : GroupRoute
api = record { route = route_to b'a' 9090; generation = 1 }

abbrev both : List GroupRoute
both = web ∷ api ∷ []

abbrev limits : Limits
limits = record {
  registration_window = 1;
  errored_hold = 60000000000;
  control_recovery_grace = 25000000000;
  poll = 100000000;
}

abbrev common : ClientCommonConfig
common = record {
  protocol = [];
  tls_enable = none;
  verify_server_certificate = false;
  trusted_ca_file = [];
  tls_server_name = codes "frp.example";
  web_server_port = 0;
  server_addr = [];
  server_port = 0;
  metadatas = [];
  login_fail_exit = none;
  start = [];
}

abbrev encrypted : ClientCommonConfig
encrypted = record common { tls_enable = some true; verify_server_certificate = true }

abbrev entry : GroupRoute → Bytes → Entry
entry r name = record {
  route = r;
  name = name;
  phase = pending;
  err = none;
  released = false;
  errored_at = none;
  last_observed = none;
  replaces = false;
}

release_window_bounds_example :
    (((release_window limits 0 ((b'w' ∷ [], entry web []) ∷ [])).1 ≡ false)
      × ((release_window limits 0 ((b'w' ∷ [], entry web []) ∷ [])).0
          ≡ (b'w' ∷ [], entry web []) ∷ []))
    ⊎ (((release_window limits 0 ((b'w' ∷ [], entry web []) ∷ [])).1 ≡ true)
        × InWindow limits.errored_hold 0
            (window_of limits)
            (released_pending_factor * window_of limits)
            (release_window limits 0 ((b'w' ∷ [], entry web []) ∷ [])).0)
release_window_bounds_example = release_window_bounds limits 0 ((b'w' ∷ [], entry web []) ∷ [])

abbrev first : Session
first = new_session sha 7 limits 0 both

abbrev observations : List Observation
observations =
    record {
      missing = false;
      route_id = b'w' ∷ [];
      name = codes "w-nhp7";
      phase = serving;
      err = none;
    }
    ∷ []

update_table-Updated_example :
    Updated sha 7
      (web ∷ [])
      first
      (update_table sha 7 guts false encrypted limits 5 false (web ∷ []) first)
update_table-Updated_example =
    update_table-Updated sha 7 guts false encrypted limits 5 false (web ∷ []) first

first_version : first.version ≡ 0
unfolding new_session
first_version = refl

accepted_when_pushed_example : IsSynced (apply_observations limits 5 observations first).0 free
accepted_when_pushed_example =
    accepted_when_pushed sha 7 guts false encrypted limits 0 both
      (next here (Step.observes 5 observations (omega arith))) (tt, omega (arith, first_version))

ended_serves_none_example : IsFinal (run_ended none first)
unfolding run_ended notify
ended_serves_none_example =
    ended_serves_none sha 7 guts false encrypted limits 0 both (next here (Step.run_ends none)) refl

-- The definitions that a validation passes through.
checks : Unit {0}
unfolding validate_request_headers check_headers aggregate_bytes name_before valid_http_header_value
    reserved_request_header_name valid_utf8 to_lower lower_byte bytes_ltb insert_by sort_by
    bytes_beq validate_local_http_route validate_target validate_group_routes check_identities
    has_request_headers has_private_origin
checks = tt

headers_sound_example : AreHeaders guts headers
unfolding checks
headers_sound_example = headers_sound guts headers refl

groups_sound_example : IsGroup guts false (locals both)
unfolding checks
groups_sound_example = groups_sound guts false (locals both) refl

abbrev admission : Admission
admission = record {
  knock_resource_id = b'q' ∷ [];
  resource_public_key = b'p' ∷ [];
  run_id = b'r' ∷ [];
  run_attempt = 1;
  token = b't' ∷ [];
  resource_host = b'h' ∷ b':' ∷ b'8' ∷ [];
  session_id = 7;
  session_receipt = record {
    cell_id = b'c' ∷ [];
    session_id = 7;
    session_issued_at_millis = pos 1;
    run_id = b'r' ∷ [];
    run_attempt = 1;
  };
  open_time = pos 120000000000;
}

validate_admission_iff_example :
    (validate_admission admission (b'q' ∷ []) (b'p' ∷ []) ≡ none)
    ↔ IsAdmission admission (b'q' ∷ []) (b'p' ∷ [])
validate_admission_iff_example = validate_admission_iff admission (b'q' ∷ []) (b'p' ∷ [])

-- The definitions that a rendering passes through.
rendering : Unit {0}
unfolding checks build_config new_factory build_admitted_common validate_admission
    validate_admission_receipt ip_literal_host parse_admitted_resource_host port_of parse_ip
    split_host_port trim_space trim_prefix trim_suffix cut_prefix has_prefix lookup insert
    tls_enabled route_transport_error render_group_proxies group_proxy_name
    session_proxy_discriminator frp_proxy_name normalize_proxy_discriminator keep_name
    is_alphanumeric trim_hyphens format_uint36 build_route_proxy
rendering = tt

abbrev rendered : List HttpProxyConfig
rendered = map (proxy_of sha frp guts false 7) both

render_group_proxies_lem_example :
    AreProxies sha frp guts false 7 both rendered
    × Distinct (map (λ (p : HttpProxyConfig). p.name) rendered)
unfolding rendering
render_group_proxies_lem_example = render_group_proxies_lem sha frp guts false 7 both rendered refl

abbrev factory : FactoryConfig
factory = record { common = common; client_version = []; ready_poll = 0 }

abbrev made : FactoryConfig
made = record { common = encrypted; client_version = []; ready_poll = 100000000 }

abbrev login : ClientCommonConfig
login = record encrypted {
  server_addr = b'h' ∷ [];
  server_port = 8;
  metadatas = (codes "qurl_knock_token", b't' ∷ []) ∷ [];
  login_fail_exit = some true;
}

build_config-IsPrivate_example : IsPrivate both login
unfolding rendering
build_config-IsPrivate_example =
    build_config-IsPrivate sha frp guts false factory made admission both login
      (map (proxy_of sha frp guts false 7) both) refl refl
