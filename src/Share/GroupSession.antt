-- ===== src/Share/GroupSession.antt =====
-- pkg/share/group_frp.go: the route table of one FRP session that carries a group of routes.
pub mod Window
pub mod Status
pub mod Observe
pub mod Push
pub mod Update
pub mod Lifecycle
use qurl_connector.Base.{
  ℕ, ◌+◌, ◌%◌, Bool, true, false, not, ◌&&◌, Option, none, some, List, [], ◌∷◌, ◌++◌, Bytes,
  bytes_eq, ◌==◌, nat_beq, codes, if◌then◌else◌,
}
use qurl_connector.Base.Sort.{bytes_ltb, sort_by}
use qurl_connector.Config.FrpGen.{frp_proxy_name, format_uint36}
use qurl_connector.Share.Route.{LocalHttpRoute, equal}

pub record GroupRoute : Type 0 where
  pub route : LocalHttpRoute
  pub generation : ℕ  -- uint64

unfoldable pub group_equal : GroupRoute → GroupRoute → Bool
group_equal a b = nat_beq a.generation b.generation && equal a.route b.route

-- `sessionProxyDiscriminator` and `groupProxyName`
unfoldable pub session_proxy_discriminator : ℕ → Bytes
session_proxy_discriminator session_id = codes "nhp" ++ format_uint36 session_id

unfoldable pub group_proxy_name : (Bytes → Bytes) → GroupRoute → ℕ → Bytes
group_proxy_name sha256_hex r session_id =
    let base = session_proxy_discriminator session_id in
    let restarted = base ++ codes "-r" ++ format_uint36 r.generation in
    frp_proxy_name sha256_hex r.route.route_id (if nat_beq r.generation 0 then base else restarted)

pub data RoutePhase : Type 0 where
  pending serving failed : RoutePhase

abbrev pub is_pending : RoutePhase → Bool
is_pending pending = true
is_pending serving = false
is_pending failed = false

abbrev pub is_serving : RoutePhase → Bool
is_serving pending = false
is_serving serving = true
is_serving failed = false

abbrev pub is_failed : RoutePhase → Bool
is_failed pending = false
is_failed serving = false
is_failed failed = true

abbrev pub phase_eq : RoutePhase → RoutePhase → Bool
phase_eq pending p = is_pending p
phase_eq serving p = is_serving p
phase_eq failed p = is_failed p

-- Why a push of the proxy set failed.
pub data PushError : Type 0 where
  render_failed update_failed : PushError

-- The errors of a route: FRP's text, the wrapped `ErrResourceGone`, `ErrSessionGroupEnded`, and the
-- error of an owed push.
pub data RouteError : Type 0 where
  start_error : Bytes → RouteError
  resource_gone : Bytes → RouteError
  group_ended : RouteError
  push_error : PushError → RouteError

-- `errText`: what a start error and a permanent one print.
unfoldable pub err_text : Option RouteError → Bytes
err_text none = []
err_text (some (start_error t)) = t
err_text (some (resource_gone t)) = codes "qURL share resource is permanently unavailable: " ++ t
err_text (some group_ended) = codes "FRP session group has ended"
err_text (some (push_error render_failed)) = codes "render FRP proxy set"
err_text (some (push_error update_failed)) = codes "update FRP proxy set"

abbrev pub is_none {ℓ} : {A : Type ℓ} → Option A → Bool
is_none none = true
is_none (some a) = false

-- A time in nanoseconds; `none` is the zero `time.Time`.
pub record Entry : Type 0 where
  pub route : GroupRoute
  pub name : Bytes
  pub phase : RoutePhase
  pub err : Option RouteError
  pub released : Bool
  pub errored_at : Option ℕ
  pub last_observed : Option ℕ
  pub replaces : Bool

-- The map from route IDs to entries.
abbrev pub Table : Type 0
Table = List (Bytes × Entry)

-- The error that ended the session: FRP's, a stale admission, or the loss of its control session.
pub data SessionError : Type 0 where
  run_error admission_stale session_group_ended : SessionError

-- `frpGroupSession`. `accepted` is the proxy set that FRP's service last accepted; `cancelled`,
-- `ready_closed` and `done_closed` are its cancel function and channels, `changes` its one-slot
-- channel.
pub record Session : Type 0 where
  pub routes : Table
  pub version : ℕ  -- uint64
  pub pushed : ℕ  -- uint64
  pub push_err : Option PushError
  pub push_failures : ℕ
  pub next_push_at : ℕ
  pub err : Option SessionError
  pub stopped : Bool
  pub cancelled : Bool
  pub ready_closed : Bool
  pub done_closed : Bool
  pub changes : Bool
  pub accepted : List GroupRoute

-- The package's variables: the registration window, how long a refusal counts, how long a lost
-- control session may recover; and the session's poll interval.
pub record Limits : Type 0 where
  pub registration_window : ℕ
  pub errored_hold : ℕ
  pub control_recovery_grace : ℕ
  pub poll : ℕ

-- `version++` on a uint64.
abbrev pub bump64 : ℕ → ℕ
bump64 v = (v + 1) % 18446744073709551616

unfoldable pub notify : Session → Session
notify s = record s { changes = true }

-- `sortGroupRoutes`
unfoldable pub route_before : GroupRoute → GroupRoute → Bool
route_before a b = bytes_ltb a.route.route_id b.route.route_id

unfoldable pub is_live : Entry → Bool
is_live e = e.released && not (is_failed e.phase)

unfoldable pub live_entries : Table → List GroupRoute
unfolding is_live
live_entries [] = []
live_entries ((id, e) ∷ t) = let rest = live_entries t in if is_live e then e.route ∷ rest else rest

-- `liveRoutesLocked`
unfoldable pub live_routes : Session → List GroupRoute
live_routes s = sort_by route_before (live_entries s.routes)
