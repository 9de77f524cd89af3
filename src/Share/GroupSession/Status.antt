-- ===== src/Share/GroupSession/Status.antt =====
-- inspectRouteStatus of group_frp.go and proxyStartErrorTag of frp.go.
use qurl_connector.Base.{
  ℕ, Bool, true, false, not, ◌&&◌, ◌||◌, Option, none, some, List, [], ◌∷◌, Bytes, bytes_eq, ◌==◌,
  leb, nat_beq, is_empty, all, codes, if◌then◌else◌,
}
use qurl_connector.Strings.{is_trimmed}
use qurl_connector.Share.GroupSession.{
  RoutePhase, pending, serving, failed, RouteError, start_error, resource_gone, Table, is_failed,
}

-- The phases of FRP's `proxy.WorkingStatus` that the code tells apart.
pub data ProxyPhase : Type 0 where
  running start_err other : ProxyPhase

pub record ProxyStatus : Type 0 where
  pub phase : ProxyPhase
  pub err : Bytes

-- `strings.Cut(value, ": ")`
cut_colon : Bytes → Option (Bytes × Bytes)
cut_colon [] = none
cut_colon (c ∷ []) = none
cut_colon (c ∷ d ∷ s) =
    let rest : Option (Bytes × Bytes) = elim (cut_colon (d ∷ s)) [
      | none ↦ none
      | some (tag, detail) ↦ some (c ∷ tag, detail)
    ] in
    if nat_beq c b':' && nat_beq d b' ' then some ([], s) else rest

tag_char : ℕ → Bool
tag_char c = (leb b'a' c && leb c b'z') || nat_beq c b'_'

-- `proxyStartErrorTag`
unfoldable pub proxy_start_error_tag : Bytes → Bytes
unfolding cut_colon tag_char
proxy_start_error_tag value = if not (is_trimmed value) then [] else elim (cut_colon value) [
  | none ↦ []
  | some (tag, detail) ↦
      if is_empty tag || (is_empty detail || not (all tag_char tag)) then [] else tag
]

-- The observation of one route.
pub record Observation : Type 0 where
  pub missing : Bool
  pub route_id : Bytes
  pub name : Bytes
  pub phase : RoutePhase
  pub err : Option RouteError

-- One proxy's phase and error; `terminal` stands for the admission's own rejection.
pub data Inspection : Type 0 where
  observed : RoutePhase → Option RouteError → Bool → Inspection
  terminal : Bytes → Inspection

-- `inspectRouteStatus`
unfoldable pub inspect_route_status : Option ProxyStatus → Inspection
inspect_route_status none = observed pending none true
inspect_route_status (some item) = elim item.phase [
  | running ↦ observed serving none false
  | other ↦ observed pending none false
  | start_err ↦
      let tag = proxy_start_error_tag item.err in
      if (tag == codes "knock_invalid")
        || ((tag == codes "owner_missing") || (tag == codes "session_stale"))
      then terminal item.err
      else if tag == codes "resource_not_found"
      then observed failed (some (resource_gone item.err)) false
      else observed pending (some (start_error item.err)) false
]

-- The names that one scan asks for: every route that has not failed.
unfoldable pub snapshot : Table → List (Bytes × Bytes)
snapshot [] = []
snapshot ((id, e) ∷ t) =
    let rest = snapshot t in if is_failed e.phase then rest else (id, e.name) ∷ rest

-- The scan: all observations, or the text of the first admission-level rejection.
unfoldable pub scan :
    (Bytes → Option ProxyStatus) → List (Bytes × Bytes) → List Observation × Option Bytes
scan status [] = ([], none)
scan status ((id, name) ∷ rest) = elim (inspect_route_status (status name)) [
  | terminal t ↦ ([], some t)
  | observed phase err missing ↦
      let (later, stale) = scan status rest in
      (
        record { missing = missing; route_id = id; name = name; phase = phase; err = err } ∷ later,
        stale,
      )
]
