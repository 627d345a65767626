-- ===== src/Runtime/History.antt =====
-- What a run of events says by itself, without the tracker: the reconnects since the last event of
-- their kind, and when the last event was.
use tailscale_vita.Prelude.{
  ℕ, ◌+◌, ◌-◌, ◌≤◌, ◌<◌, ◌≡◌, refl, ap, ◌∙◌, inl, inr, max, Bool, true, false, List, [], ◌∷◌,
  Option, none, some, Bool-cases, Option-cases, not, ◌&&◌, leb, any, if◌then◌else◌, arith,
}
use tailscale_vita.Runtime.Lifecycle.{
  LifecycleTracker, new_tracker, is_state, offline, record_map_event, record_derp_rx,
  record_control_reconnect, record_derp_reconnect, compute_next_state, change_state, heartbeat,
  diagnose, tick,
}
use tailscale_vita.Runtime.States.{
  Signal, maps, derps, ticks, control_reconnects, derp_reconnects, signal, signals,
}

-- The two kinds of connection.
pub data Link : Type 0 where
  control derp : Link

-- When the event that shows the connection to be there came, if this is one.
abbrev pub shown_at : Link → Signal → Option ℕ
shown_at control (maps now) = some now
shown_at derp (derps now) = some now
shown_at _ _ = none

abbrev pub shows : Link → Signal → Bool
shows link x = elim (shown_at link x) [ some now ↦ true | none ↦ false ]

abbrev pub reconnects : Link → Signal → Bool
reconnects control control_reconnects = true
reconnects derp derp_reconnects = true
reconnects _ _ = false

-- What comes after the last that satisfies `p`, or the whole.
unfoldable pub after_last : (p : Signal → Bool) → List Signal → List Signal
after_last p [] = []
after_last p (x ∷ xs) =
    let later = after_last p xs in if any p xs then later else if p x then xs else x ∷ xs

unfoldable pub count : (p : Signal → Bool) → List Signal → ℕ
count p [] = 0
count p (x ∷ xs) = if p x then count p xs + 1 else count p xs

abbrev pub or_else : Option ℕ → Option ℕ → Option ℕ
or_else (some t) o = some t
or_else none o = o

-- The instant of the last event that shows the connection.
unfoldable pub last_shown : Link → List Signal → Option ℕ
last_shown link [] = none
last_shown link (x ∷ xs) = or_else (last_shown link xs) (shown_at link x)

-- Fewer than five reconnects of each kind; both events seen, at `m` and at `d` for the last time;
-- and the later of the two at most a minute ago.
abbrev pub Recent : (now control_count derp_count : ℕ) → (last_map last_derp : Option ℕ) → Type 0
Recent now control_count derp_count last_map last_derp =
    (control_count < 5)
    × (derp_count < 5)
    × ((m : ℕ) × (d : ℕ) × (last_map ≡ some m) × (last_derp ≡ some d) × (now - max m d ≤ 60000))

-- The reconnects are those since the last event of their kind, or all when there was none.
abbrev pub Live : (now : ℕ) → List Signal → Type 0
Live now xs =
    Recent now (count (reconnects control) (after_last (shows control) xs))
      (count (reconnects derp) (after_last (shows derp) xs)) (last_shown control xs)
      (last_shown derp xs)

abbrev pub counter : Link → LifecycleTracker → ℕ
counter control t = t.consecutive_control_reconnects
counter derp t = t.consecutive_derp_reconnects

abbrev pub last_at : Link → LifecycleTracker → Option ℕ
last_at control t = t.last_map_event
last_at derp t = t.last_derp_rx

-- What a tracker remembers of the events, which `tick` leaves alone.
abbrev pub events : LifecycleTracker → Option ℕ × Option ℕ × Option ℕ × Option ℕ × ℕ × ℕ
events t = (
  t.first_map_event, t.last_map_event, t.first_derp_rx, t.last_derp_rx,
  t.consecutive_control_reconnects, t.consecutive_derp_reconnects,
)

change_state-events : (now : ℕ) (t : LifecycleTracker) → events (change_state now t) ≡ events t
unfolding change_state
change_state-events now t = elim (Bool-cases (is_state (compute_next_state now t) t.state)) [
  | inl same ↦ rw (same, change_state) refl
  | inr other ↦ elim (Bool-cases (is_state (compute_next_state now t) offline)) [
    | inl off ↦ rw (other, change_state) (rw off refl)
    | inr on ↦ rw (other, change_state) (rw on refl)
  ]
]

heartbeat-events : (now : ℕ) (t : LifecycleTracker) → events (heartbeat now t) ≡ events t
unfolding heartbeat
heartbeat-events now t = elim (Option-cases t.last_heartbeat) [
  | inl e ↦ rw (e, heartbeat) refl
  | inr (at, e) ↦ elim (Bool-cases (leb 60000 (now - at))) [
    | inl late ↦ rw (e, heartbeat) (rw late refl)
    | inr early ↦ rw (e, heartbeat) (rw early refl)
  ]
]

diagnose-events : (now : ℕ) (t : LifecycleTracker) → events (diagnose now t) ≡ events t
unfolding diagnose
diagnose-events now t = elim (Option-cases t.offline_since) [
  | inl e ↦ rw (e, diagnose) refl
  | inr (at, e) ↦ elim (Bool-cases (not t.offline_diag_fired && leb 600000 (now - at))) [
    | inl late ↦ rw (e, diagnose) (rw late refl)
    | inr early ↦ rw (e, diagnose) (rw early refl)
  ]
]

pub tick-events : (now : ℕ) (t : LifecycleTracker) → events (tick now t) ≡ events t
unfolding tick
tick-events now t =
    diagnose-events now (heartbeat now (change_state now t))
    ∙ heartbeat-events now (change_state now t)
    ∙ change_state-events now t

-- One event, by what it is.
signal-counter :
    (link : Link) (x : Signal) (t : LifecycleTracker)
    → counter link (signal x t) ≡ (
        if shows link x
        then 0
        else if reconnects link x
        then counter link t + 1
        else counter link t)
unfolding signal record_map_event record_derp_rx record_control_reconnect record_derp_reconnect
signal-counter control (ticks now) t = ap (λ (a, b, c, d, m, n). m) (tick-events now t)
signal-counter derp (ticks now) t = ap (λ (a, b, c, d, m, n). n) (tick-events now t)
signal-counter control (maps now) t = refl
signal-counter control (derps now) t = refl
signal-counter control control_reconnects t = refl
signal-counter control derp_reconnects t = refl
signal-counter derp (maps now) t = refl
signal-counter derp (derps now) t = refl
signal-counter derp control_reconnects t = refl
signal-counter derp derp_reconnects t = refl

signal-last_at :
    (link : Link) (x : Signal) (t : LifecycleTracker)
    → last_at link (signal x t) ≡ or_else (shown_at link x) (last_at link t)
unfolding signal record_map_event record_derp_rx record_control_reconnect record_derp_reconnect
signal-last_at control (ticks now) t = ap (λ (a, b, c, d, m, n). b) (tick-events now t)
signal-last_at derp (ticks now) t = ap (λ (a, b, c, d, m, n). d) (tick-events now t)
signal-last_at control (maps now) t = refl
signal-last_at control (derps now) t = refl
signal-last_at control control_reconnects t = refl
signal-last_at control derp_reconnects t = refl
signal-last_at derp (maps now) t = refl
signal-last_at derp (derps now) t = refl
signal-last_at derp control_reconnects t = refl
signal-last_at derp derp_reconnects t = refl

signals-counter :
    (link : Link) (xs : List Signal) (t : LifecycleTracker)
    → counter link (signals xs t) ≡ (
        if any (shows link) xs
        then count (reconnects link) (after_last (shows link) xs)
        else counter link t + count (reconnects link) xs)
unfolding signals any count after_last
signals-counter link [] t = omega arith
signals-counter link (x ∷ xs) t =
    ground (arith, signals-counter link xs (signal x t), signal-counter link x t)

or_else_assoc : (a b c : Option ℕ) → or_else a (or_else b c) ≡ or_else (or_else a b) c
or_else_assoc none b c = refl
or_else_assoc (some a) b c = refl

signals-last_at :
    (link : Link) (xs : List Signal) (t : LifecycleTracker)
    → last_at link (signals xs t) ≡ or_else (last_shown link xs) (last_at link t)
unfolding signals last_shown
signals-last_at link [] t = refl
signals-last_at link (x ∷ xs) t =
    signals-last_at link xs (signal x t)
    ∙ ap (or_else (last_shown link xs)) (signal-last_at link x t)
    ∙ or_else_assoc (last_shown link xs) (shown_at link x) (last_at link t)

after_last-none : (p : Signal → Bool) (xs : List Signal) → any p xs ≡ false → after_last p xs ≡ xs
unfolding after_last any
after_last-none p [] h = refl
after_last-none p (x ∷ xs) h = ground arith

or_else-none : (a : Option ℕ) → or_else a none ≡ a
or_else-none none = refl
or_else-none (some a) = refl

-- The fresh tracker has counted and noted what the run says.
pub signals-since :
    (link : Link) (xs : List Signal)
    → counter link (signals xs new_tracker) ≡ count (reconnects link) (after_last (shows link) xs)
signals-since link xs =
    signals-counter link xs new_tracker ∙ elim (Bool-cases (any (shows link) xs)) [
      | inl seen ↦ rw seen refl
      | inr never ↦ rw (never, after_last-none (shows link) xs never) (zero_start link)
    ]
  where
    zero_start :
        (link : Link)
        → counter link new_tracker + count (reconnects link) xs ≡ count (reconnects link) xs
    zero_start control = omega arith
    zero_start derp = omega arith

pub signals-last_shown :
    (link : Link) (xs : List Signal) → last_at link (signals xs new_tracker) ≡ last_shown link xs
signals-last_shown control xs =
    signals-last_at control xs new_tracker ∙ or_else-none (last_shown control xs)
signals-last_shown derp xs = signals-last_at derp xs new_tracker ∙ or_else-none (last_shown derp xs)
