-- ===== src/Runtime/Lifecycle.antt =====
-- tailscale-vita/src/lifecycle.rs: the connection states. Instants in milliseconds; log lines other
-- than the one-shot diagnostic are left out, and with them the arguments that only they show.
use tailscale_vita.Prelude.{
  ℕ, ◌+◌, ◌-◌, ◌*◌, max, Bool, true, false, not, ◌&&◌, ◌||◌, List, Option, none, some, eqb, ltb,
  leb, if◌then◌else◌,
}

abbrev pub degraded_after : ℕ
degraded_after = 60 * 1000

abbrev pub heartbeat_interval : ℕ
heartbeat_interval = 60 * 1000

abbrev pub offline_reconnect_threshold : ℕ
offline_reconnect_threshold = 5

abbrev pub offline_diag_after : ℕ
offline_diag_after = 600 * 1000

pub data FatalKind : Type 0 where
  auth security : FatalKind

pub data OnlineState : Type 0 where
  connecting online degraded offline needs_login auth_failed security_failed stopped : OnlineState

-- `diagnostics` counts the diagnostic dumps that were logged.
pub record LifecycleTracker : Type 0 where
  pub state : OnlineState
  pub first_map_event : Option ℕ
  pub first_derp_rx : Option ℕ
  pub last_map_event : Option ℕ
  pub last_derp_rx : Option ℕ
  pub consecutive_control_reconnects : ℕ
  pub consecutive_derp_reconnects : ℕ
  pub last_heartbeat : Option ℕ
  pub offline_since : Option ℕ
  pub offline_diag_fired : Bool
  pub fatal_reason : Option (List ℕ)
  pub diagnostics : ℕ

abbrev pub new_tracker : LifecycleTracker
new_tracker = record {
  state = connecting;
  first_map_event = none;
  first_derp_rx = none;
  last_map_event = none;
  last_derp_rx = none;
  consecutive_control_reconnects = 0;
  consecutive_derp_reconnects = 0;
  last_heartbeat = none;
  offline_since = none;
  offline_diag_fired = false;
  fatal_reason = none;
  diagnostics = 0;
}

abbrev pub rank : OnlineState → ℕ
rank connecting = 0
rank online = 1
rank degraded = 2
rank offline = 3
rank needs_login = 4
rank auth_failed = 5
rank security_failed = 6
rank stopped = 7

-- The derived `PartialEq`.
abbrev pub is_state : OnlineState → OnlineState → Bool
is_state a b = eqb (rank a) (rank b)

abbrev pub is_some : {A : Type 0} → Option A → Bool
is_some none = false
is_some (some a) = true

unfoldable pub mark_fatal : FatalKind → (reason : List ℕ) → LifecycleTracker → LifecycleTracker
mark_fatal auth reason t = record t { state = auth_failed; fatal_reason = some reason }
mark_fatal security reason t = record t { state = security_failed; fatal_reason = some reason }

unfoldable pub set_needs_login : LifecycleTracker → LifecycleTracker
set_needs_login t =
    if not (is_state t.state needs_login) then record t { state = needs_login } else t

unfoldable pub clear_needs_login : LifecycleTracker → LifecycleTracker
clear_needs_login t = if is_state t.state needs_login then record t { state = connecting } else t

unfoldable pub set_stopped : LifecycleTracker → LifecycleTracker
set_stopped t = if not (is_state t.state stopped) then record t { state = stopped } else t

unfoldable pub clear_stopped : LifecycleTracker → LifecycleTracker
clear_stopped t = if is_state t.state stopped then record t { state = connecting } else t

unfoldable pub record_map_event : (now : ℕ) → LifecycleTracker → LifecycleTracker
record_map_event now t = record t {
  first_map_event = if is_some t.first_map_event then t.first_map_event else some now;
  last_map_event = some now;
  consecutive_control_reconnects = 0;
}

unfoldable pub record_derp_rx : (now : ℕ) → LifecycleTracker → LifecycleTracker
record_derp_rx now t = record t {
  first_derp_rx = if is_some t.first_derp_rx then t.first_derp_rx else some now;
  last_derp_rx = some now;
  consecutive_derp_reconnects = 0;
}

-- Each reconnect takes seconds, so the 32-bit counters do not wrap.
unfoldable pub record_control_reconnect : LifecycleTracker → LifecycleTracker
record_control_reconnect t = record t {
  consecutive_control_reconnects = t.consecutive_control_reconnects + 1;
}

unfoldable pub record_derp_reconnect : LifecycleTracker → LifecycleTracker
record_derp_reconnect t = record t {
  consecutive_derp_reconnects = t.consecutive_derp_reconnects + 1;
}

-- The later of the two events.
abbrev pub most_recent : Option ℕ → Option ℕ → Option ℕ
most_recent (some m) (some d) = some (max m d)
most_recent (some m) none = some m
most_recent none (some d) = some d
most_recent none none = none

unfoldable pub compute_next_state : (now : ℕ) → LifecycleTracker → OnlineState
compute_next_state now t =
    if is_state t.state auth_failed || is_state t.state security_failed
    then t.state
    else if is_state t.state stopped
    then t.state
    else if leb offline_reconnect_threshold t.consecutive_control_reconnects
        || leb offline_reconnect_threshold t.consecutive_derp_reconnects
    then offline
    else if not (is_some t.first_map_event) || not (is_some t.first_derp_rx)
    then connecting
    else elim (most_recent t.last_map_event t.last_derp_rx) [
      | none ↦ connecting
      | some recent ↦ if ltb degraded_after (now - recent) then degraded else online
    ]

-- The first part of `tick`: a change of state.
unfoldable pub change_state : (now : ℕ) → LifecycleTracker → LifecycleTracker
change_state now t =
    let new = compute_next_state now t in
    if is_state new t.state
    then t
    else if is_state new offline
    then record t { state = new; offline_since = some now; offline_diag_fired = false }
    else record t { state = new; offline_since = none }

unfoldable pub heartbeat : (now : ℕ) → LifecycleTracker → LifecycleTracker
heartbeat now t = elim t.last_heartbeat [
  | none ↦ record t { last_heartbeat = some now }
  | some at ↦
      if leb heartbeat_interval (now - at) then record t { last_heartbeat = some now } else t
]

unfoldable pub diagnose : (now : ℕ) → LifecycleTracker → LifecycleTracker
diagnose now t = elim t.offline_since [
  | none ↦ t
  | some off_since ↦
      if not t.offline_diag_fired && leb offline_diag_after (now - off_since)
      then record t { offline_diag_fired = true; diagnostics = t.diagnostics + 1 }
      else t
]

unfoldable pub tick : (now : ℕ) → LifecycleTracker → LifecycleTracker
tick now t = diagnose now (heartbeat now (change_state now t))
