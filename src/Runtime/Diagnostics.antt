-- ===== src/Runtime/Diagnostics.antt =====
-- The diagnostic dump is one per spell offline.
use tailscale_vita.Prelude.{
  ℕ, ◌+◌, ◌-◌, ◌≤◌, ◌≡◌, refl, inl, inr, not, ◌&&◌, List, [], ◌∷◌, none, some, Option-cases,
  Bool-cases, leb, if◌then◌else◌, arith,
}
use tailscale_vita.Runtime.Lifecycle.{
  offline, LifecycleTracker, new_tracker, is_state, record_map_event, record_derp_rx,
  record_control_reconnect, record_derp_reconnect, compute_next_state, change_state, heartbeat,
  diagnose, tick,
}
use tailscale_vita.Runtime.States.{
  Signal, maps, derps, ticks, control_reconnects, derp_reconnects, signal, signals, heartbeat-keeps,
}

-- Whether a signal is a tick that takes the tracker into `offline` from another state.
abbrev pub enters : Signal → LifecycleTracker → ℕ
enters (ticks now) t =
    if not (is_state (compute_next_state now t) t.state)
      && is_state (compute_next_state now t) offline
    then 1
    else 0
enters _ t = 0

-- How often a run does so.
unfoldable pub spells : List Signal → LifecycleTracker → ℕ
spells [] t = 0
spells (x ∷ xs) t = enters x t + spells xs (signal x t)

-- A dump that may still come.
abbrev pending : LifecycleTracker → ℕ
pending t = elim t.offline_since [ none ↦ 0 | some at ↦ if t.offline_diag_fired then 0 else 1 ]

change_state-pending :
    (now : ℕ) (t : LifecycleTracker)
    → ((change_state now t).diagnostics ≡ t.diagnostics)
      × (pending (change_state now t) ≤ pending t + enters (ticks now) t)
unfolding change_state
change_state-pending now t = elim (Bool-cases (is_state (compute_next_state now t) t.state)) [
  | inl same ↦ rw (same, change_state) (refl, omega arith)
  | inr other ↦ elim (Bool-cases (is_state (compute_next_state now t) offline)) [
    | inl off ↦ rw (other, change_state) (rw off (refl, omega arith))
    | inr on ↦ rw (other, change_state) (rw on (refl, omega arith))
  ]
]

diagnose-pending :
    (now : ℕ) (t : LifecycleTracker)
    → (diagnose now t).diagnostics + pending (diagnose now t) ≤ t.diagnostics + pending t
unfolding diagnose
diagnose-pending now t = elim (Option-cases t.offline_since) [
  | inl e ↦ simp (e, diagnose) (omega arith)
  | inr (at, e) ↦ elim (Bool-cases t.offline_diag_fired) [
    | inl fired ↦ simp (e, fired, diagnose) (omega arith)
    | inr fresh ↦ elim (Bool-cases (leb 600000 (now - at))) [
      | inl due ↦
          let open_dump : pending t ≡ 1 = rw (e, fresh) refl in
          simp (e, fresh, due, diagnose) (omega (arith, open_dump))
      | inr early ↦
          let same : diagnose now t ≡ t = simp (e, fresh, early, diagnose) refl in
          simp same (omega arith)
    ]
  ]
]

tick-pending :
    (now : ℕ) (t : LifecycleTracker)
    → (tick now t).diagnostics + pending (tick now t)
      ≤ t.diagnostics + pending t + enters (ticks now) t
unfolding tick
tick-pending now t =
    let c = change_state-pending now t in
    let (s, r, since, fired, count) = heartbeat-keeps now (change_state now t) in
    let h : pending (heartbeat now (change_state now t)) ≡ pending (change_state now t) =
      rw (since, fired) refl in
    let d = diagnose-pending now (heartbeat now (change_state now t)) in
    omega (arith, c.0, c.1, h, count, d)

signal-pending :
    (x : Signal) (t : LifecycleTracker)
    → (signal x t).diagnostics + pending (signal x t) ≤ t.diagnostics + pending t + enters x t
unfolding signal record_map_event record_derp_rx record_control_reconnect record_derp_reconnect
signal-pending (maps now) t = omega arith
signal-pending (derps now) t = omega arith
signal-pending (ticks now) t = tick-pending now t
signal-pending control_reconnects t = omega arith
signal-pending derp_reconnects t = omega arith

signals-pending :
    (xs : List Signal) (t : LifecycleTracker)
    → (signals xs t).diagnostics + pending (signals xs t) ≤ t.diagnostics + pending t + spells xs t
unfolding signals spells
signals-pending [] t = omega arith
signals-pending (x ∷ xs) t = omega (arith, signal-pending x t, signals-pending xs (signal x t))

-- Over any run of events of a fresh tracker, the diagnostic dump is logged at most once for each
-- time that a tick took the node offline.
pub signals-diagnostics :
    (xs : List Signal) → (signals xs new_tracker).diagnostics ≤ spells xs new_tracker
signals-diagnostics xs = omega (arith, signals-pending xs new_tracker)
