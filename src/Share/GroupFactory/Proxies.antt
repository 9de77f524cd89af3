-- ===== src/Share/GroupFactory/Proxies.antt =====
-- The proxies that an admission's routes are rendered to.
use qurl_connector.Base.{
  ℕ, ◌≡◌, refl, true, false, is_empty, Bool-cases, inl, inr, ap, ◌∙◌, Bool, some, List, [], ◌∷◌,
  Bytes, bytes_eq, All, map, arith, Option-cases,
}
use qurl_connector.Share.Route.{LocalHttpRoute}
use qurl_connector.Share.Route.Headers.{HttpGuts}
use qurl_connector.Base.Distinct.{Distinct, Unseen, Unseen-tail, Distinct-cons}
use qurl_connector.Share.GroupSession.{GroupRoute, group_proxy_name}
use qurl_connector.Share.GroupFactory.{
  no_plugin, unix_domain_socket, local_pipe, FrpLibrary, HttpProxyConfig, build_route_proxy,
  render_group_proxies,
}

-- Where the proxy of a route sends what it receives.
pub data IsTarget (r : LocalHttpRoute) (p : HttpProxyConfig) : Type 0 where
  address :
      is_empty r.local_socket_path ≡ true
      → is_empty r.local_pipe_name ≡ true
      → p.local_ip ≡ r.local_ip
      → p.local_port ≡ r.local_port
      → p.plugin ≡ no_plugin
      → IsTarget r p
  socket :
      is_empty r.local_socket_path ≡ false
      → is_empty r.local_pipe_name ≡ true
      → p.plugin ≡ unix_domain_socket r.local_socket_path
      → IsTarget r p
  pipe :
      is_empty r.local_socket_path ≡ true
      → is_empty r.local_pipe_name ≡ false
      → p.plugin ≡ local_pipe r.local_pipe_name
      → IsTarget r p
  nowhere :
      is_empty r.local_socket_path ≡ false
      → is_empty r.local_pipe_name ≡ false
      → p.local_ip ≡ []
      → p.local_port ≡ 0
      → p.plugin ≡ no_plugin
      → IsTarget r p

built-IsTarget : (r : LocalHttpRoute) (name : Bytes) → IsTarget r (build_route_proxy r name)
unfolding build_route_proxy
built-IsTarget r name = elim (Bool-cases (is_empty r.local_socket_path)) [
  | inl s ↦ elim (Bool-cases (is_empty r.local_pipe_name)) [
    | inl p ↦ address s p (rw s) (rw s) (rw (s, p))
    | inr p ↦ pipe s p (rw (s, p))
  ]
  | inr s ↦ elim (Bool-cases (is_empty r.local_pipe_name)) [
    | inl p ↦ socket s p (rw (s, p))
    | inr p ↦ nowhere s p (rw (s, p)) (rw (s, p)) (rw (s, p))
  ]
]

module _ (sha256_hex : Bytes → Bytes) (frp : FrpLibrary) (guts : HttpGuts) (windows : Bool)
    (session_id : ℕ) where
  abbrev pub name_of : GroupRoute → Bytes
  name_of r = group_proxy_name sha256_hex r session_id

  abbrev pub proxy_of : GroupRoute → HttpProxyConfig
  proxy_of r = build_route_proxy r.route (name_of r)

  -- A proxy of a route: FRP knows it by the name of the route in this session, its identities are the
  -- route's, and so are its headers and its target.
  pub record IsProxyOf (r : GroupRoute) (p : HttpProxyConfig) : Type 0 where
    pub name : p.name ≡ group_proxy_name sha256_hex r session_id
    pub resource : p.resource_id ≡ r.route.resource_public_key
    pub sub_domain : p.sub_domain ≡ r.route.connector_routing_id
    pub group : p.group ≡ r.route.connector_routing_id
    pub group_key : p.group_key ≡ r.route.connector_routing_id
    pub headers : p.request_headers ≡ r.route.request_headers
    pub target : IsTarget r.route p

  -- One proxy for each route, in order.
  abbrev pub AreProxies : List GroupRoute → List HttpProxyConfig → Type 0
  AreProxies [] [] = Unit
  AreProxies (r ∷ rs) (p ∷ ps) = IsProxyOf r p × AreProxies rs ps
  AreProxies rs ps = ⊥

  proxy_of-IsProxyOf : (r : GroupRoute) → IsProxyOf r (proxy_of r)
  unfolding build_route_proxy
  proxy_of-IsProxyOf r = record {
    name = refl;
    resource = refl;
    sub_domain = refl;
    group = refl;
    group_key = refl;
    headers = refl;
    target = built-IsTarget r.route (name_of r);
  }

  all-AreProxies : (rs : List GroupRoute) → AreProxies rs (map proxy_of rs)
  all-AreProxies [] = tt
  all-AreProxies (r ∷ rs) = (proxy_of-IsProxyOf r, all-AreProxies rs)

  names_of :
      (rs : List GroupRoute)
      → map (λ (p : HttpProxyConfig). p.name) (map proxy_of rs) ≡ map name_of rs
  unfolding build_route_proxy
  names_of [] = refl
  names_of (r ∷ rs) = ap (λ (ns : List Bytes). name_of r ∷ ns) (names_of rs)

  render_parts :
      (seen : List Bytes) (r : GroupRoute) (rs : List GroupRoute) (ps : List HttpProxyConfig)
      → render_group_proxies sha256_hex frp guts windows session_id seen (r ∷ rs) ≡ some ps
      → Unseen seen (name_of r)
        × ((later : List HttpProxyConfig) × (render_group_proxies sha256_hex frp guts windows
                session_id
                (name_of r ∷ seen)
                rs
              ≡ some later)
            × (ps ≡ proxy_of r ∷ later))
  unfolding render_group_proxies
  render_parts seen r rs ps h =
      elim (Option-cases
        (render_group_proxies sha256_hex frp guts windows session_id (name_of r ∷ seen) rs)) [
          | inl e ↦ absurd (ground arith)
          | inr (later, e) ↦ (ground arith, (later, e, ground arith))
        ]

  render_none :
      (seen : List Bytes) (ps : List HttpProxyConfig)
      → render_group_proxies sha256_hex frp guts windows session_id seen [] ≡ some ps
      → ps ≡ []
  unfolding render_group_proxies
  render_none seen ps h = cc

  render_from :
      (seen : List Bytes) (rs : List GroupRoute) (ps : List HttpProxyConfig)
      → render_group_proxies sha256_hex frp guts windows session_id seen rs ≡ some ps
      → (ps ≡ map proxy_of rs) × All (Unseen seen) (map name_of rs) × Distinct (map name_of rs)
  render_from seen [] ps h = (render_none seen ps h, tt, tt)
  render_from seen (r ∷ rs) ps h =
      let (new, (later, more, shape)) = render_parts seen r rs ps h in
      let (same, unseen, distinct) = render_from (name_of r ∷ seen) rs later more in
      let names = map name_of rs in
      (
        shape ∙ ap (λ (x : List HttpProxyConfig). proxy_of r ∷ x) same,
        (new, Unseen-tail (name_of r) seen names unseen),
        Distinct-cons (name_of r) seen names unseen distinct,
      )

  -- A rendered proxy set has exactly one proxy for each route, in order, under the name of the route in
  -- this session, with the route's public resource, routing label, headers and target, and no two of the
  -- proxies have one name. The target is the local address and no plugin where the route names neither
  -- a socket nor a pipe, the plugin for the socket or the pipe that it names, and nothing that can be
  -- dialed where it names both.
  pub render_group_proxies_lem :
      (rs : List GroupRoute) (ps : List HttpProxyConfig)
      → render_group_proxies sha256_hex frp guts windows session_id [] rs ≡ some ps
      → AreProxies rs ps × Distinct (map (λ (p : HttpProxyConfig). p.name) ps)
  render_group_proxies_lem rs ps h =
      let (same, unseen, distinct) = render_from [] rs ps h in
      rw same (all-AreProxies rs, rw (names_of rs) distinct)
