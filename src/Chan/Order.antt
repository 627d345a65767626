-- ===== src/Chan/Order.antt =====
-- Whatever threads share a channel: order of delivery and capacity.
use tailscale_vita.Prelude.{
  ℕ, zero, suc, ◌≤◌, ◌≡◌, refl, sym, ap, ◌∙◌, ◌⊎◌, inl, inr, Bool, false, List, [], ◌∷◌, ◌++◌, map,
  append_assoc, length, length-append, Option, none, some, Result, ok, err, leb, eqb, max,
  Bool-cases, arith,
}
use tailscale_vita.Chan.State.{
  Shared, Turn, returns, bounded, is_full, push_back, pop_to, send_turn, try_send,
  send_timeout_turn, recv_turn, try_recv, recv_timeout_turn, clone_sender, drop_sender,
  clone_receiver, drop_receiver,
}

-- What some thread does while it holds the lock, and what it does to the counts.
pub data Action (A : Type 0) : Type 0 where
  sends tries_send : A → Action A
  sends_within : A → (expired : Bool) → Action A
  receives tries_receive : Action A
  receives_within : (expired : Bool) → Action A
  clones_sender drops_sender clones_receiver drops_receiver : Action A

-- A channel with the values that `send`s have been told are sent, and that `recv`s have returned.
pub record History (A : Type 0) : Type 0 where
  pub shared : Shared A
  pub sent : List A
  pub received : List A

abbrev pub Within : Option ℕ → ℕ → Type 0
Within none n = Unit
Within (some c) n = n ≤ c

module _ {A : Type 0} where
  -- A value counts as sent when its sender is told so.
  abbrev log_sent : {E : Type 0} → A → Turn (Result E Unit) × Shared A → History A → History A
  log_sent v (returns (ok u), s) h = record h { shared = s; sent = h.sent ++ v ∷ [] }
  log_sent v (_, s) h = record h { shared = s }

  abbrev log_received : {E : Type 0} → Turn (Result E A) × Shared A → History A → History A
  log_received (returns (ok v), s) h = record h { shared = s; received = h.received ++ v ∷ [] }
  log_received (_, s) h = record h { shared = s }

  abbrev at_once : {R : Type 0} → R × Shared A → Turn R × Shared A
  at_once (r, s) = (returns r, s)

  unfoldable pub act : Action A → History A → History A
  act (sends v) h = log_sent v (send_turn v h.shared) h
  act (tries_send v) h = log_sent v (at_once (try_send v h.shared)) h
  act (sends_within v expired) h = log_sent v (send_timeout_turn v expired h.shared) h
  act receives h = log_received (recv_turn h.shared) h
  act tries_receive h = log_received (at_once (try_recv h.shared)) h
  act (receives_within expired) h = log_received (recv_timeout_turn expired h.shared) h
  act clones_sender h = record h { shared = clone_sender h.shared }
  act drops_sender h = record h { shared = drop_sender h.shared }
  act clones_receiver h = record h { shared = clone_receiver h.shared }
  act drops_receiver h = record h { shared = drop_receiver h.shared }

  unfoldable pub act_all : List (Action A) → History A → History A
  act_all [] h = h
  act_all (a ∷ rest) h = act_all rest (act a h)

  abbrev pub start : Shared A → History A
  start s = record { shared = s; sent = []; received = [] }

  -- Nothing is lost, doubled or reordered, and the queue keeps to the capacity.
  abbrev pub InOrder : Option ℕ → History A → Type 0
  InOrder limit h =
      (h.sent ≡ h.received ++ h.shared.queue)
      × (h.shared.cap ≡ limit)
      × Within limit (length h.shared.queue)

  pushed :
      (limit : Option ℕ) (v : A) (h : History A)
      → InOrder limit h
      → is_full h.shared ≡ false
      → InOrder limit (record h { shared = push_back v h.shared; sent = h.sent ++ v ∷ [] })
  unfolding is_full
  pushed limit v h (order, same, within) room = (
    ap (λ t. t ++ v ∷ []) order ∙ append_assoc h.received h.shared.queue (v ∷ []),
    same,
    fits limit within (rw same at room),
  )
    where
      fits :
          (c : Option ℕ)
          → Within c (length h.shared.queue)
          → (elim c [ some n ↦ leb n (length h.shared.queue) | none ↦ false ]) ≡ false
          → Within c (length (h.shared.queue ++ v ∷ []))
      fits none w r = tt
      fits (some c) w r = ground (arith, length-append h.shared.queue (v ∷ []))

  popped :
      (limit : Option ℕ) (v : A) (rest : List A) (h : History A)
      → InOrder limit h
      → h.shared.queue ≡ v ∷ rest
      → InOrder limit (record h { shared = pop_to rest h.shared; received = h.received ++ v ∷ [] })
  popped limit v rest h (order, same, within) q = (
    order ∙ ap (λ t. h.received ++ t) q ∙ sym (append_assoc h.received (v ∷ []) rest),
    same,
    shorter limit (rw q at within),
  )
    where
      shorter : (c : Option ℕ) → Within c (length (v ∷ rest)) → Within c (length rest)
      shorter none w = tt
      shorter (some c) w = omega arith

  List-cases : (xs : List A) → (xs ≡ []) ⊎ ((x : A) × (rest : List A) × (xs ≡ x ∷ rest))
  List-cases [] = inl refl
  List-cases (x ∷ xs) = inr (x, xs, refl)

  send-InOrder :
      (limit : Option ℕ) (v : A) (h : History A) → InOrder limit h → InOrder limit (act (sends v) h)
  unfolding act send_turn
  send-InOrder limit v h o = elim (Bool-cases (eqb h.shared.receiver_count 0)) [
    | inl gone ↦ rw (gone, act, send_turn) o
    | inr live ↦ elim (Bool-cases (is_full h.shared)) [
      | inl full ↦ rw (live, full, act, send_turn) o
      | inr room ↦ rw (live, room, act, send_turn) (pushed limit v h o room)
    ]
  ]

  try_send-InOrder :
      (limit : Option ℕ) (v : A) (h : History A)
      → InOrder limit h
      → InOrder limit (act (tries_send v) h)
  unfolding act try_send
  try_send-InOrder limit v h o = elim (Bool-cases (eqb h.shared.receiver_count 0)) [
    | inl gone ↦ rw (gone, act, try_send) o
    | inr live ↦ elim (Bool-cases (is_full h.shared)) [
      | inl full ↦ rw (live, full, act, try_send) o
      | inr room ↦ rw (live, room, act, try_send) (pushed limit v h o room)
    ]
  ]

  send_timeout-InOrder :
      (limit : Option ℕ) (v : A) (expired : Bool) (h : History A)
      → InOrder limit h
      → InOrder limit (act (sends_within v expired) h)
  unfolding act send_timeout_turn
  send_timeout-InOrder limit v expired h o = elim (Bool-cases (eqb h.shared.receiver_count 0)) [
    | inl gone ↦ rw (gone, act, send_timeout_turn) o
    | inr live ↦ elim (Bool-cases (is_full h.shared)) [
      | inl full ↦ elim (Bool-cases expired) [
        | inl late ↦ rw (live, full, late, act, send_timeout_turn) o
        | inr early ↦ rw (live, full, early, act, send_timeout_turn) o
      ]
      | inr room ↦ rw (live, room, act, send_timeout_turn) (pushed limit v h o room)
    ]
  ]

  recv-InOrder :
      (limit : Option ℕ) (h : History A) → InOrder limit h → InOrder limit (act receives h)
  unfolding act recv_turn
  recv-InOrder limit h o = elim (List-cases h.shared.queue) [
    | inr (v, rest, q) ↦ rw (q, act, recv_turn) (popped limit v rest h o q)
    | inl q ↦ elim (Bool-cases (eqb h.shared.sender_count 0)) [
      | inl gone ↦ rw (q, gone, act, recv_turn) o
      | inr live ↦ rw (q, live, act, recv_turn) o
    ]
  ]

  try_recv-InOrder :
      (limit : Option ℕ) (h : History A) → InOrder limit h → InOrder limit (act tries_receive h)
  unfolding act try_recv
  try_recv-InOrder limit h o = elim (List-cases h.shared.queue) [
    | inr (v, rest, q) ↦ rw (q, act, try_recv) (popped limit v rest h o q)
    | inl q ↦ elim (Bool-cases (eqb h.shared.sender_count 0)) [
      | inl gone ↦ rw (q, gone, act, try_recv) o
      | inr live ↦ rw (q, live, act, try_recv) o
    ]
  ]

  recv_timeout-InOrder :
      (limit : Option ℕ) (expired : Bool) (h : History A)
      → InOrder limit h
      → InOrder limit (act (receives_within expired) h)
  unfolding act recv_timeout_turn
  recv_timeout-InOrder limit expired h o = elim (List-cases h.shared.queue) [
    | inr (v, rest, q) ↦ rw (q, act, recv_timeout_turn) (popped limit v rest h o q)
    | inl q ↦ elim (Bool-cases (eqb h.shared.sender_count 0)) [
      | inl gone ↦ rw (q, gone, act, recv_timeout_turn) o
      | inr live ↦ elim (Bool-cases expired) [
        | inl late ↦ rw (q, live, late, act, recv_timeout_turn) o
        | inr early ↦ rw (q, live, early, act, recv_timeout_turn) o
      ]
    ]
  ]

  act-InOrder :
      (limit : Option ℕ) (a : Action A) (h : History A) → InOrder limit h → InOrder limit (act a h)
  act-InOrder limit (sends v) h o = send-InOrder limit v h o
  act-InOrder limit (tries_send v) h o = try_send-InOrder limit v h o
  act-InOrder limit (sends_within v expired) h o = send_timeout-InOrder limit v expired h o
  act-InOrder limit receives h o = recv-InOrder limit h o
  act-InOrder limit tries_receive h o = try_recv-InOrder limit h o
  act-InOrder limit (receives_within expired) h o = recv_timeout-InOrder limit expired h o
  act-InOrder limit clones_sender h o = unfold act clone_sender in o
  act-InOrder limit drops_sender h o = unfold act drop_sender in o
  act-InOrder limit clones_receiver h o = unfold act clone_receiver in o
  act-InOrder limit drops_receiver h o = unfold act drop_receiver in o

  act_all-InOrder :
      (limit : Option ℕ) (actions : List (Action A)) (h : History A)
      → InOrder limit h
      → InOrder limit (act_all actions h)
  unfolding act_all
  act_all-InOrder limit [] h o = o
  act_all-InOrder limit (a ∷ rest) h o =
      act_all-InOrder limit rest (act a h) (act-InOrder limit a h o)

  -- Whatever threads do with a bounded channel, in whatever order their turns under the lock come,
  -- the values whose senders were told `Ok` are, in that order, those that receivers got and then
  -- those in the queue; and the queue holds at most as many as the capacity, or one for capacity 0.
  pub act_all-bounded-InOrder :
      (limit : ℕ) (actions : List (Action A))
      → InOrder (some (max limit 1)) (act_all actions (start (bounded limit)))
  unfolding bounded
  act_all-bounded-InOrder limit actions =
      act_all-InOrder (some (max limit 1)) actions (start (bounded limit)) (refl, refl, omega arith)

  unfoldable pub recv_turns : ℕ → Shared A → List (Turn (Result (Unit {0}) A))
  recv_turns zero s = []
  recv_turns (suc n) s = let (t, s') = recv_turn s in t ∷ recv_turns n s'

  recv_turns-suc :
      (n : ℕ) (s : Shared A) → recv_turns (suc n) s ≡ (recv_turn s).0 ∷ recv_turns n (recv_turn s).1
  unfolding recv_turns
  recv_turns-suc n s = refl

  recv_turns-zero : (s : Shared A) → recv_turns 0 s ≡ []
  unfolding recv_turns
  recv_turns-zero s = refl

  recv_turn-cons :
      (v : A) (rest : List A) (s : Shared A)
      → s.queue ≡ v ∷ rest
      → recv_turn s ≡ (returns (ok v), pop_to rest s)
  unfolding recv_turn
  recv_turn-cons v rest s e = rw (e, recv_turn) refl

  recv_turn-closed :
      (s : Shared A) → s.queue ≡ [] → s.sender_count ≡ 0 → (recv_turn s).0 ≡ returns (err tt)
  unfolding recv_turn
  recv_turn-closed s e z = rw (e, z, recv_turn) refl

  recv_turns-drained :
      (q : List A) (s : Shared A)
      → s.queue ≡ q
      → s.sender_count ≡ 0
      → recv_turns (suc (length q)) s ≡ map (λ v. returns (ok v)) q ++ returns (err tt) ∷ []
  recv_turns-drained [] s e z =
      recv_turns-suc 0 s
      ∙ ap (λ t. t ∷ recv_turns 0 (recv_turn s).1) (recv_turn-closed s e z)
      ∙ ap (λ t. returns (err tt) ∷ t) (recv_turns-zero (recv_turn s).1)
  recv_turns-drained (v ∷ q) s e z =
      recv_turns-suc (suc (length q)) s
      ∙ ap (λ r. r.0 ∷ recv_turns (suc (length q)) r.1) (recv_turn-cons v q s e)
      ∙ ap (λ t. returns (ok v) ∷ t) (recv_turns-drained q (pop_to q s) refl z)

  -- Once the last sender is gone, receivers still get every value of the queue, in order, and the
  -- next is told that the channel is closed; no turn waits.
  pub recv_turns-closed :
      (s : Shared A)
      → s.sender_count ≡ 0
      → recv_turns (suc (length s.queue)) s
        ≡ map (λ v. returns (ok v)) s.queue ++ returns (err tt) ∷ []
  recv_turns-closed s z = recv_turns-drained s.queue s refl z
