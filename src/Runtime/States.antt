-- ===== src/Runtime/States.antt =====
-- The connection states over runs of events.
use tailscale_vita.Prelude.{
  ℕ, ◌-◌, ◌≡◌, refl, sym, ap, subst, ◌∙◌, inl, inr, true, not, ◌&&◌, List, [], ◌∷◌, some, eqb,
  Option-cases, Bool-cases, leb, if◌then◌else◌, arith,
}
use tailscale_vita.Runtime.Lifecycle.{
  OnlineState, connecting, online, degraded, offline, needs_login, auth_failed, security_failed,
  stopped, FatalKind, auth, security, LifecycleTracker, rank, is_state, mark_fatal, set_stopped,
  clear_stopped, record_map_event, record_derp_rx, record_control_reconnect, record_derp_reconnect,
  compute_next_state, change_state, heartbeat, diagnose, tick,
}

-- What the network does, and the passing of time.
pub data Signal : Type 0 where
  maps derps ticks : (now : ℕ) → Signal
  control_reconnects derp_reconnects : Signal

unfoldable pub signal : Signal → LifecycleTracker → LifecycleTracker
signal (maps now) t = record_map_event now t
signal (derps now) t = record_derp_rx now t
signal (ticks now) t = tick now t
signal control_reconnects t = record_control_reconnect t
signal derp_reconnects t = record_derp_reconnect t

unfoldable pub signals : List Signal → LifecycleTracker → LifecycleTracker
signals [] t = t
signals (x ∷ xs) t = signals xs (signal x t)

abbrev pub Sticky : OnlineState → Type 0
Sticky auth_failed = Unit
Sticky security_failed = Unit
Sticky stopped = Unit
Sticky _ = ⊥

abbrev of_rank : ℕ → OnlineState
of_rank n =
    if eqb n 0
    then connecting
    else if eqb n 1
    then online
    else if eqb n 2
    then degraded
    else if eqb n 3
    then offline
    else if eqb n 4
    then needs_login
    else if eqb n 5
    then auth_failed
    else if eqb n 6
    then security_failed
    else stopped

of_rank-rank : (s : OnlineState) → of_rank (rank s) ≡ s
of_rank-rank connecting = refl
of_rank-rank _ = refl

pub is_state-eq : (a b : OnlineState) → is_state a b ≡ true → a ≡ b
is_state-eq a b h =
    let same : rank a ≡ rank b = ground arith in
    sym (of_rank-rank a) ∙ ap of_rank same ∙ of_rank-rank b

pub compute_next_state-Sticky :
    (now : ℕ) (t : LifecycleTracker) (s : OnlineState)
    → t.state ≡ s
    → Sticky s
    → compute_next_state now t ≡ s
unfolding compute_next_state
compute_next_state-Sticky now t auth_failed e h = rw (e, compute_next_state) refl
compute_next_state-Sticky now t security_failed e h = rw (e, compute_next_state) refl
compute_next_state-Sticky now t stopped e h = rw (e, compute_next_state) refl
compute_next_state-Sticky now t connecting e h = absurd h
compute_next_state-Sticky now t online e h = absurd h
compute_next_state-Sticky now t degraded e h = absurd h
compute_next_state-Sticky now t offline e h = absurd h
compute_next_state-Sticky now t needs_login e h = absurd h

-- A heartbeat and the diagnostic leave the state and what it is computed from alone.
pub heartbeat-keeps :
    (now : ℕ) (t : LifecycleTracker)
    → ((heartbeat now t).state ≡ t.state)
      × ((heartbeat now t).fatal_reason ≡ t.fatal_reason)
      × ((heartbeat now t).offline_since ≡ t.offline_since)
      × ((heartbeat now t).offline_diag_fired ≡ t.offline_diag_fired)
      × ((heartbeat now t).diagnostics ≡ t.diagnostics)
unfolding heartbeat
heartbeat-keeps now t = elim (Option-cases t.last_heartbeat) [
  | inl e ↦ rw (e, heartbeat) (refl, refl, refl, refl, refl)
  | inr (at, e) ↦ elim (Bool-cases (leb 60000 (now - at))) [
    | inl due ↦ rw (e, heartbeat) (rw due (refl, refl, refl, refl, refl))
    | inr early ↦ rw (e, heartbeat) (rw early (refl, refl, refl, refl, refl))
  ]
]

diagnose-keeps :
    (now : ℕ) (t : LifecycleTracker)
    → ((diagnose now t).state ≡ t.state) × ((diagnose now t).fatal_reason ≡ t.fatal_reason)
unfolding diagnose
diagnose-keeps now t = elim (Option-cases t.offline_since) [
  | inl e ↦ rw (e, diagnose) (refl, refl)
  | inr (at, e) ↦ elim (Bool-cases (not t.offline_diag_fired && leb 600000 (now - at))) [
    | inl due ↦ rw (e, diagnose) (rw due (refl, refl))
    | inr early ↦ rw (e, diagnose) (rw early (refl, refl))
  ]
]

change_state-state :
    (now : ℕ) (t : LifecycleTracker)
    → ((change_state now t).state ≡ compute_next_state now t)
      × ((change_state now t).fatal_reason ≡ t.fatal_reason)
unfolding change_state
change_state-state now t = elim (Bool-cases (is_state new t.state)) [
  | inl same ↦ rw (same, change_state) (sym (is_state-eq new t.state same), refl)
  | inr other ↦ elim (Bool-cases (is_state new offline)) [
    | inl off ↦ rw (other, change_state) (rw off (refl, refl))
    | inr on ↦ rw (other, change_state) (rw on (refl, refl))
  ]
]
  where
    new : OnlineState
    new = compute_next_state now t

pub tick-state :
    (now : ℕ) (t : LifecycleTracker)
    → ((tick now t).state ≡ compute_next_state now t) × ((tick now t).fatal_reason ≡ t.fatal_reason)
unfolding tick
tick-state now t =
    let c = change_state-state now t in
    let h = heartbeat-keeps now (change_state now t) in
    let d = diagnose-keeps now (heartbeat now (change_state now t)) in
    (d.0 ∙ h.0 ∙ c.0, d.1 ∙ h.1 ∙ c.1)

signal-Sticky :
    (x : Signal) (t : LifecycleTracker)
    → Sticky t.state
    → ((signal x t).state ≡ t.state) × ((signal x t).fatal_reason ≡ t.fatal_reason)
unfolding signal record_map_event record_derp_rx record_control_reconnect record_derp_reconnect
signal-Sticky (maps now) t h = (refl, refl)
signal-Sticky (derps now) t h = (refl, refl)
signal-Sticky (ticks now) t h =
    let s = tick-state now t in (s.0 ∙ compute_next_state-Sticky now t t.state refl h, s.1)
signal-Sticky control_reconnects t h = (refl, refl)
signal-Sticky derp_reconnects t h = (refl, refl)

-- Once stopped or failed for good, no map event, DERP activity, reconnect or passing of time
-- changes the state or the reason.
pub signals-Sticky :
    (xs : List Signal) (t : LifecycleTracker)
    → Sticky t.state
    → ((signals xs t).state ≡ t.state) × ((signals xs t).fatal_reason ≡ t.fatal_reason)
unfolding signals
signals-Sticky [] t h = (refl, refl)
signals-Sticky (x ∷ xs) t h =
    let s = signal-Sticky x t h in
    let r = signals-Sticky xs (signal x t) (subst Sticky (sym s.0) h) in (r.0 ∙ s.0, r.1 ∙ s.1)

-- Stopping and resuming a tracker that was marked as failed for good leaves it connecting, with the
-- reason of the failure still there.
pub clear_stopped-set_stopped :
    (kind : FatalKind) (reason : List ℕ) (t : LifecycleTracker)
    → ((clear_stopped (set_stopped (mark_fatal kind reason t))).state ≡ connecting)
      × ((clear_stopped (set_stopped (mark_fatal kind reason t))).fatal_reason ≡ some reason)
unfolding clear_stopped set_stopped mark_fatal
clear_stopped-set_stopped auth reason t = (refl, refl)
clear_stopped-set_stopped security reason t = (refl, refl)
