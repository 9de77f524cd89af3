-- ===== src/Share/GroupFactory/Safe.antt =====
-- A rendered Login never carries request headers over a transport that would expose them.
use qurl_connector.Base.{
  ◌≡◌, ◌⊎◌, inl, inr, Bool, true, false, none, some, List, [], Bytes, any, arith, sym, ◌∙◌,
}
use qurl_connector.Share.Admission.{Admission, build_admitted_common}
use qurl_connector.Share.Route.{has_request_headers, has_private_origin}
use qurl_connector.Share.Route.Headers.{HttpGuts}
use qurl_connector.Share.Route.Transport.{ClientCommonConfig, tls_enabled, route_transport_error}
use qurl_connector.Share.GroupSession.{GroupRoute}
use qurl_connector.Share.GroupSession.Update.{locals}
use qurl_connector.Share.GroupFactory.{
  FrpLibrary, FactoryConfig, HttpProxyConfig, ok, new_factory, build_config, render_group_proxies,
}

-- What the Login keeps of the factory's transport.
record SameTransport (c d : ClientCommonConfig) : Type 0 where
  encrypted : tls_enabled d ≡ tls_enabled c
  verified : d.verify_server_certificate ≡ c.verify_server_certificate
  web : d.web_server_port ≡ c.web_server_port

admitted-SameTransport :
    (base common : ClientCommonConfig) (a : Admission) (version : Bytes)
    → build_admitted_common base a version ≡ some common
    → SameTransport base common
unfolding build_admitted_common tls_enabled
admitted-SameTransport base common a version h = record {
  encrypted = ground arith;
  verified = ground arith;
  web = ground arith;
}

factory_verifies :
    (cfg f : FactoryConfig)
    → new_factory cfg ≡ ok f
    → tls_enabled f.common ≡ true
    → f.common.verify_server_certificate ≡ true
unfolding new_factory tls_enabled
factory_verifies cfg f h e = ground arith

transport_parts :
    (c : ClientCommonConfig) (headered private : Bool)
    → route_transport_error c headered private ≡ none
    → ((headered ≡ false) ⊎ (tls_enabled c ≡ true) × (c.web_server_port ≡ 0))
      × ((private ≡ false) ⊎ (c.web_server_port ≡ 0))
unfolding route_transport_error
transport_parts c headered private h = (ground arith, ground arith)

-- A route set with request headers travels encrypted, to a verified server, past no web server; one
-- with a private origin past no web server.
pub record IsPrivate (routes : List GroupRoute) (common : ClientCommonConfig) : Type 0 where
  pub headers :
      (any (λ r. has_request_headers r) (locals routes) ≡ false)
      ⊎ (tls_enabled common ≡ true)
        × (common.verify_server_certificate ≡ true)
        × (common.web_server_port ≡ 0)
  pub origins :
      (any (λ r. has_private_origin r) (locals routes) ≡ false) ⊎ (common.web_server_port ≡ 0)

module _ (sha256_hex : Bytes → Bytes) (frp : FrpLibrary) (guts : HttpGuts) (windows : Bool) where
  build_parts :
      (f : FactoryConfig) (a : Admission) (routes : List GroupRoute) (common : ClientCommonConfig)
      (ps : List HttpProxyConfig)
      → build_config sha256_hex frp guts windows f a routes ≡ ok (common, ps)
      → (build_admitted_common f.common a f.client_version ≡ some common)
        × (route_transport_error common
              (any (λ r. has_request_headers r) (locals routes))
              (any (λ r. has_private_origin r) (locals routes))
            ≡ none)
        × (render_group_proxies sha256_hex frp guts windows a.session_id [] routes ≡ some ps)
  unfolding build_config
  build_parts f a routes common ps h = (ground arith, ground arith, ground arith)

  -- Whatever config a factory was made from, a Login that it builds for a route set is one that keeps
  -- request headers encrypted and verified, and both request headers and private origins out of an FRP
  -- web server.
  pub build_config-IsPrivate :
      (cfg f : FactoryConfig) (a : Admission) (routes : List GroupRoute)
      (common : ClientCommonConfig) (ps : List HttpProxyConfig)
      → new_factory cfg ≡ ok f
      → build_config sha256_hex frp guts windows f a routes ≡ ok (common, ps)
      → IsPrivate routes common
  build_config-IsPrivate cfg f a routes common ps made built =
      let (admitted, transport, rendered) = build_parts f a routes common ps built in
      let same = admitted-SameTransport f.common common a f.client_version admitted in
      let headered = any (λ r. has_request_headers r) (locals routes) in
      let private = any (λ r. has_private_origin r) (locals routes) in
      let parts = transport_parts common headered private transport in
      record {
        headers = elim parts.0 [
          | inl plain ↦ inl plain
          | inr (encrypted, web) ↦ inr (
            encrypted,
            same.verified ∙ factory_verifies cfg f made (sym same.encrypted ∙ encrypted),
            web,
          )
        ];
        origins = parts.1;
      }
