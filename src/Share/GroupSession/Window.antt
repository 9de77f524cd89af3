-- ===== src/Share/GroupSession/Window.antt =====
-- windowLoadLocked and releaseWindowLocked of group_frp.go.
pub mod Bounds
use qurl_connector.Base.{
  ℕ, zero, ◌+◌, ◌-◌, ◌*◌, Bool, true, false, not, ◌&&◌, ◌||◌, Option, none, some, List, [], ◌∷◌,
  Bytes, bytes_eq, ltb, leb, same, is_empty, if◌then◌else◌,
}
use qurl_connector.Base.Maps.{lookup, insert, sum_of}
use qurl_connector.Base.Sort.{bytes_ltb, sort_by}
use qurl_connector.Share.GroupSession.{Entry, Table, Limits, is_pending, is_none}

-- `groupReleasedPendingFactor`
abbrev pub released_pending_factor : ℕ
released_pending_factor = 2

-- `now.Sub(entry.erroredAt)`, and whether it is below the hold. The zero time is long ago.
unfoldable pub is_recent : ℕ → ℕ → Option ℕ → Bool
is_recent hold now none = false
is_recent hold now (some at) = ltb (now - at) hold

abbrev pub b2n : Bool → ℕ
b2n true = 1
b2n false = 0

unfoldable pub is_in_flight : Entry → Bool
is_in_flight e = e.released && (is_pending e.phase && is_none e.err)

unfoldable pub counts_pending : ℕ → ℕ → Entry → Bool
counts_pending hold now e =
    e.released && (is_pending e.phase && (is_none e.err || is_recent hold now e.errored_at))

-- `windowLoadLocked`: the proxies in flight, and the pending ones that count against the ceiling.
unfoldable pub in_flight : Table → ℕ
in_flight t = sum_of (λ e. b2n (is_in_flight e)) t

unfoldable pub released_pending : ℕ → ℕ → Table → ℕ
released_pending hold now t = sum_of (λ e. b2n (counts_pending hold now e)) t

unfoldable pub is_waiting : Entry → Bool
is_waiting e = not e.released && is_pending e.phase

-- The waiting routes, each with its `replaces` mark.
unfoldable pub waiting : Table → List (Bytes × Bool)
unfolding is_waiting
waiting [] = []
waiting ((id, e) ∷ t) =
    let rest = waiting t in if is_waiting e then (id, e.replaces) ∷ rest else rest

-- Regenerated routes first, then by route ID.
unfoldable pub waiting_before : Bytes × Bool → Bytes × Bool → Bool
waiting_before (i, a) (j, b) = if same a b then bytes_ltb i j else a

unfoldable pub release_entry : Bytes → Table → Table
release_entry id t = elim (lookup id t) [
  | none ↦ t
  | some e ↦ insert id (record e { released = true }) t
]

-- The loop of `releaseWindowLocked` over the sorted waiting routes.
unfoldable pub release_loop : ℕ → ℕ → List (Bytes × Bool) → ℕ → ℕ → Table → Table
release_loop window ceiling [] inflight pending t = t
release_loop window ceiling ((id, r) ∷ ids) inflight pending t =
    let more = release_loop window ceiling ids (inflight + 1) (pending + 1) (release_entry id t) in
    if leb window inflight || leb ceiling pending then t else more

-- `max(1, groupRegistrationWindow)`
unfoldable pub window_of : Limits → ℕ
window_of l = if ltb l.registration_window 1 then 1 else l.registration_window

-- The table after `releaseWindowLocked`, and whether any route was released.
unfoldable pub release_window : Limits → ℕ → Table → Table × Bool
unfolding window_of
release_window l now t =
    let window = window_of l in
    let ceiling = released_pending_factor * window in
    let inflight = in_flight t in
    let pending = released_pending l.errored_hold now t in
    let ids = sort_by waiting_before (waiting t) in
    if leb window inflight || leb ceiling pending
    then (t, false)
    else if is_empty ids
    then (t, false)
    else (release_loop window ceiling ids inflight pending t, true)
