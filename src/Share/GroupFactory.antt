-- ===== src/Share/GroupFactory.antt =====
-- pkg/share/group_frp.go and frp.go: how FRPSessionGroupFactory renders one admission and its routes.
pub mod Safe
pub mod Proxies
use qurl_connector.Base.{
  ℕ, zero, Bool, true, false, not, ◌&&◌, ◌||◌, Option, none, some, List, [], ◌∷◌, Bytes, bytes_eq,
  ◌==◌, is_empty, any, all, nat_beq, if◌then◌else◌,
}
use qurl_connector.Base.Maps.{lookup, insert}
use qurl_connector.Share.Admission.{
  Admission, AdmissionError, validate_admission, build_admitted_common,
}
use qurl_connector.Share.Route.{LocalHttpRoute, has_request_headers, has_private_origin}
use qurl_connector.Share.Route.Headers.{RequestHeaders, HttpGuts}
use qurl_connector.Share.Route.Transport.{
  ClientCommonConfig, TransportError, tls_enabled, route_transport_error,
}
use qurl_connector.Share.GroupSession.{GroupRoute, Session, Limits, live_routes, group_proxy_name}
use qurl_connector.Share.GroupSession.Lifecycle.{new_session}
use qurl_connector.Share.GroupSession.Update.{GroupError, locals, validate_group_routes}

-- The client plugin of a proxy.
pub data Plugin : Type 0 where
  no_plugin : Plugin
  unix_domain_socket : Bytes → Plugin
  local_pipe : Bytes → Plugin

-- The fields that the code sets of FRP's `v1.HTTPProxyConfig`.
pub record HttpProxyConfig : Type 0 where
  pub name : Bytes
  pub local_ip : Bytes
  pub local_port : ℕ
  pub plugin : Plugin
  pub sub_domain : Bytes
  pub group : Bytes
  pub group_key : Bytes
  pub resource_id : Bytes
  pub request_headers : RequestHeaders

-- `buildRouteProxy`
unfoldable pub build_route_proxy : LocalHttpRoute → Bytes → HttpProxyConfig
build_route_proxy r proxy_name =
    let socket = not (is_empty r.local_socket_path) in
    let pipe = not (is_empty r.local_pipe_name) in
    record {
      name = proxy_name;
      local_ip = if socket && pipe then [] else r.local_ip;
      local_port = if socket && pipe then 0 else r.local_port;
      plugin =
          if socket && pipe
          then no_plugin
          else if socket
          then unix_domain_socket r.local_socket_path
          else if pipe
          then local_pipe r.local_pipe_name
          else no_plugin;
      sub_domain = r.connector_routing_id;
      group = r.connector_routing_id;
      group_key = r.connector_routing_id;
      resource_id = r.resource_public_key;
      request_headers = r.request_headers;
    }

-- What the code uses of FRP: which proxies its start filter keeps, and its validation of one.
pub record FrpLibrary : Type 0 where
  pub keeps : ClientCommonConfig → HttpProxyConfig → Bool
  pub valid : HttpProxyConfig → Bool

-- `FRPGroupFactoryConfig`, of which `Common` is not nil.
pub record FactoryConfig : Type 0 where
  pub common : ClientCommonConfig
  pub client_version : Bytes
  pub ready_poll : ℕ

pub data FactoryError : Type 0 where
  start_filter verification_needs_encryption : FactoryError

pub data BuildError : Type 0 where
  bad_admission : AdmissionError → BuildError
  bad_routes : GroupError → BuildError
  bad_host : BuildError
  bad_transport : TransportError → BuildError
  same_proxy_name proxy_filtered proxy_invalid : BuildError

-- An `error` result.
pub data Result {ℓ} (E A : Type ℓ) : Type ℓ where
  ok : A → Result E A
  err : E → Result E A

abbrev or_true : Option Bool → Option Bool
or_true none = some true
or_true (some b) = some b

-- `NewFRPSessionGroupFactory`
unfoldable pub new_factory : FactoryConfig → Result FactoryError FactoryConfig
new_factory cfg =
    let common = record cfg.common { tls_enable = or_true cfg.common.tls_enable } in
    let verified = record common {
      verify_server_certificate = tls_enabled common || common.verify_server_certificate;
    } in
    let poll = if nat_beq cfg.ready_poll 0 then 100000000 else cfg.ready_poll in
    if not (is_empty cfg.common.start)
    then err start_filter
    else if common.verify_server_certificate && not (tls_enabled common)
    then err verification_needs_encryption
    else ok (record cfg { common = verified; ready_poll = poll })

module _ (sha256_hex : Bytes → Bytes) (frp : FrpLibrary) (guts : HttpGuts) (windows : Bool) where
  -- `renderGroupProxies`, with the names seen so far; `none` is a repeated name.
  unfoldable pub render_group_proxies :
      ℕ → List Bytes → List GroupRoute → Option (List HttpProxyConfig)
  render_group_proxies session_id seen [] = some []
  render_group_proxies session_id seen (r ∷ rs) =
      let name = group_proxy_name sha256_hex r session_id in
      let rest : Option (List HttpProxyConfig) =
        elim (render_group_proxies session_id (name ∷ seen) rs) [
          | none ↦ none
          | some ps ↦ some (build_route_proxy r.route name ∷ ps)
        ] in
      if any (λ n. n == name) seen then none else rest

  -- `completeGroupProxies`: FRP's own filter and validation.
  unfoldable pub complete_group_proxies :
      ClientCommonConfig → List HttpProxyConfig → Result BuildError (List HttpProxyConfig)
  complete_group_proxies common ps =
      if not (all (λ p. frp.keeps common p) ps)
      then err proxy_filtered
      else if all (λ p. frp.valid p) ps
      then ok ps
      else err proxy_invalid

  -- `BuildConfig`: the Login's config and the proxies.
  unfoldable pub build_config :
      FactoryConfig
      → Admission
      → List GroupRoute
      → Result BuildError (ClientCommonConfig × List HttpProxyConfig)
  build_config cfg a routes =
      let headered = any (λ r. has_request_headers r) (locals routes) in
      let private = any (λ r. has_private_origin r) (locals routes) in
      elim (validate_admission a a.knock_resource_id a.resource_public_key) [
        | some e ↦ err (bad_admission e)
        | none ↦ elim (validate_group_routes guts windows (locals routes)) [
          | some e ↦ err (bad_routes e)
          | none ↦ elim (build_admitted_common cfg.common a cfg.client_version) [
            | none ↦ err bad_host
            | some common ↦ elim (route_transport_error common headered private) [
              | some e ↦ err (bad_transport e)
              | none ↦ elim (render_group_proxies a.session_id [] routes) [
                | none ↦ err same_proxy_name
                | some ps ↦ ok (common, ps)
              ]
            ]
          ]
        ]
      ]

  -- `Start` up to FRP's service: the session, and the proxies of its Login.
  unfoldable pub start :
      FactoryConfig
      → Limits
      → ℕ
      → Admission
      → List GroupRoute
      → Result BuildError (ClientCommonConfig × Session × List HttpProxyConfig)
  start cfg l now a routes = elim (build_config cfg a routes) [
    | err e ↦ err e
    | ok (common, all_proxies) ↦ elim (complete_group_proxies common all_proxies) [
      | err e ↦ err e
      | ok completed ↦
          let s = new_session sha256_hex a.session_id l now routes in
          elim (render_group_proxies a.session_id [] (live_routes s)) [
            | none ↦ err same_proxy_name
            | some ps ↦ elim (complete_group_proxies common ps) [
              | err e ↦ err e
              | ok first ↦ ok (common, s, first)
            ]
          ]
    ]
  ]
