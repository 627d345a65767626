-- ===== src/Runtime/Online.antt =====
-- When a tick finds the node online.
use tailscale_vita.Prelude.{
  ℕ, ◌-◌, ◌≡◌, refl, sym, ap, subst, ◌∙◌, ◌↔◌, ◌⊎◌, inl, inr, max, true, false, not, ◌||◌, List, [],
  ◌∷◌, Option, none, some, Option-cases, Bool-cases, ltb, leb, if◌then◌else◌, none-some,
  some-injective, arith,
}
use tailscale_vita.Runtime.Lifecycle.{
  OnlineState, connecting, online, degraded, offline, needs_login, auth_failed, security_failed,
  stopped, LifecycleTracker, new_tracker, is_some, record_map_event, record_derp_rx,
  record_control_reconnect, record_derp_reconnect, most_recent, compute_next_state, tick,
}
use tailscale_vita.Runtime.History.{
  control, derp, Recent, Live, tick-events, signals-since, signals-last_shown,
}
use tailscale_vita.Runtime.States.{
  Signal, maps, derps, ticks, control_reconnects, derp_reconnects, signal, signals, Sticky,
  tick-state,
}

-- `compute_next_state` past the states that stay.
abbrev active : (now : ℕ) → LifecycleTracker → OnlineState
active now t =
    if leb 5 t.consecutive_control_reconnects || leb 5 t.consecutive_derp_reconnects
    then offline
    else if not (is_some t.first_map_event) || not (is_some t.first_derp_rx)
    then connecting
    else elim (most_recent t.last_map_event t.last_derp_rx) [
      | none ↦ connecting
      | some recent ↦ if ltb 60000 (now - recent) then degraded else online
    ]

compute_next_state-active :
    (now : ℕ) (t : LifecycleTracker) (s : OnlineState)
    → t.state ≡ s
    → (Sticky s → ⊥)
    → compute_next_state now t ≡ active now t
unfolding compute_next_state
compute_next_state-active now t auth_failed e h = absurd (h tt)
compute_next_state-active now t security_failed e h = absurd (h tt)
compute_next_state-active now t stopped e h = absurd (h tt)
compute_next_state-active now t connecting e h = rw (e, compute_next_state) refl
compute_next_state-active now t online e h = rw (e, compute_next_state) refl
compute_next_state-active now t degraded e h = rw (e, compute_next_state) refl
compute_next_state-active now t offline e h = rw (e, compute_next_state) refl
compute_next_state-active now t needs_login e h = rw (e, compute_next_state) refl

-- What the fields say of each other as long as nobody stops or fails the tracker.
abbrev Tracks : LifecycleTracker → Type 0
Tracks t =
    (Sticky t.state → ⊥)
    × (is_some t.first_map_event ≡ is_some t.last_map_event)
    × (is_some t.first_derp_rx ≡ is_some t.last_derp_rx)

abbrev Fresh : (now : ℕ) → LifecycleTracker → Type 0
Fresh now t =
    Recent now t.consecutive_control_reconnects t.consecutive_derp_reconnects t.last_map_event
      t.last_derp_rx

active-cases :
    (now : ℕ) (t : LifecycleTracker)
    → Tracks t
    → (Fresh now t × (active now t ≡ online))
      ⊎ ((Fresh now t → ⊥) × ((active now t ≡ online) → ⊥) × (Sticky (active now t) → ⊥))
active-cases now t (n, sm, sd) =
    elim (Bool-cases
      (leb 5 t.consecutive_control_reconnects || leb 5 t.consecutive_derp_reconnects)) [
        | inl lost ↦ inr (λ (a, b, rest). ground arith, rw lost (λ e. cc), rw lost (λ h. h))
        | inr kept ↦ elim (Option-cases t.last_map_event) [
          | inl no_map ↦
              let unseen : is_some t.first_map_event ≡ false = sm ∙ ap is_some no_map in
              inr (
                λ (a, b, (m, d, e, f, g)). none-some (sym no_map ∙ e),
                rw kept (rw unseen (λ e. cc)),
                rw kept (rw unseen (λ h. h)),
              )
          | inr (m, map) ↦ elim (Option-cases t.last_derp_rx) [
            | inl no_derp ↦
                let seen : is_some t.first_map_event ≡ true = sm ∙ ap is_some map in
                let unseen : is_some t.first_derp_rx ≡ false = sd ∙ ap is_some no_derp in
                inr (
                  λ (a, b, (m, d, e, f, g)). none-some (sym no_derp ∙ f),
                  rw kept (rw (seen, unseen) (λ e. cc)),
                  rw kept (rw (seen, unseen) (λ h. h)),
                )
            | inr (d, rx) ↦
                let seen : is_some t.first_map_event ≡ true = sm ∙ ap is_some map in
                let heard : is_some t.first_derp_rx ≡ true = sd ∙ ap is_some rx in
                elim (Bool-cases (ltb 60000 (now - max m d))) [
                  | inl late ↦ inr (
                    λ (a, b, (m', d', e, f, g)).
                        let p : m ≡ m' = some-injective (sym map ∙ e) in
                        let q : d ≡ d' = some-injective (sym rx ∙ f) in ground arith,
                    rw kept (rw (seen, heard, map, rx, late) (λ e. cc)),
                    rw kept (rw (seen, heard, map, rx, late) (λ h. h)),
                  )
                  | inr soon ↦ inl (
                    (ground arith, ground arith, (m, d, map, rx, ground arith)),
                    rw kept (rw (seen, heard, map, rx, soon) refl),
                  )
                ]
          ]
        ]
      ]

tick-Tracks : (now : ℕ) (t : LifecycleTracker) → Tracks t → Tracks (tick now t)
tick-Tracks now t k = (
  λ h. elim (active-cases now t k) [
    | inl (l, e) ↦ subst Sticky (computed ∙ e) h
    | inr (l, e, n) ↦ n (subst Sticky computed h)
  ],
  subst (λ (a, b, c, d, m, n). is_some a ≡ is_some b) (sym (tick-events now t)) k.1,
  subst (λ (a, b, c, d, m, n). is_some c ≡ is_some d) (sym (tick-events now t)) k.2,
)
  where
    computed : (tick now t).state ≡ active now t
    computed = (tick-state now t).0 ∙ compute_next_state-active now t t.state refl k.0

first-event : (o : Option ℕ) (now : ℕ) → is_some (if is_some o then o else some now) ≡ true
first-event none now = refl
first-event (some t) now = refl

signal-Tracks : (x : Signal) (t : LifecycleTracker) → Tracks t → Tracks (signal x t)
unfolding signal record_map_event record_derp_rx record_control_reconnect record_derp_reconnect
signal-Tracks (maps now) t (n, m, d) = (n, first-event t.first_map_event now, d)
signal-Tracks (derps now) t (n, m, d) = (n, m, first-event t.first_derp_rx now)
signal-Tracks (ticks now) t k = tick-Tracks now t k
signal-Tracks control_reconnects t k = k
signal-Tracks derp_reconnects t k = k

signals-Tracks : (xs : List Signal) (t : LifecycleTracker) → Tracks t → Tracks (signals xs t)
unfolding signals
signals-Tracks [] t k = k
signals-Tracks (x ∷ xs) t k = signals-Tracks xs (signal x t) (signal-Tracks x t k)

tick-Fresh :
    (xs : List Signal) (now : ℕ)
    → ((tick now (signals xs new_tracker)).state ≡ online) ↔ Fresh now (signals xs new_tracker)
tick-Fresh xs now = elim (active-cases now t k) [
  | inl (l, e) ↦ (λ o. l, λ l'. computed ∙ e)
  | inr (dead, off, n) ↦ (λ o. absurd (off (sym computed ∙ o)), λ l. absurd (dead l))
]
  where
    t : LifecycleTracker
    t = signals xs new_tracker

    k : Tracks t
    k = signals-Tracks xs new_tracker (λ h. h, refl, refl)

    computed : (tick now t).state ≡ active now t
    computed = (tick-state now t).0 ∙ compute_next_state-active now t t.state refl k.0

-- After any events of a fresh tracker, a tick finds the node online exactly when: counting in the
-- events themselves, there were fewer than five control reconnects since the last map event and
-- fewer than five DERP reconnects since the last DERP activity, or since the start where there was
-- none; there was a map event and there was DERP activity; and the later of the last two is at
-- most a minute old.
pub tick-Live :
    (xs : List Signal) (now : ℕ)
    → ((tick now (signals xs new_tracker)).state ≡ online) ↔ Live now xs
tick-Live xs now =
    rw
      (
        ← signals-since control xs,
        ← signals-since derp xs,
        ← signals-last_shown control xs,
        ← signals-last_shown derp xs,
      )
      (tick-Fresh xs now)
