-- ===== src/Chan/WakeUps.antt =====
-- Which wake-ups of `recv` can be lost: none of a queued value, but that of the last sender's end.
use tailscale_vita.Prelude.{
  ℕ, ◌+◌, ◌-◌, ◌<◌, ◌≤◌, ◌≡◌, refl, sym, ap, subst, ◌∙◌, ◌⊎◌, inl, inr, Bool, true, false, List, [],
  ◌∷◌, ◌++◌, length, length-append, none, some, none-some, Result, ok, eqb, Any, append-Any,
  Bool-cases, arith,
}
use tailscale_vita.Chan.State.{
  Shared, Turn, returns, waits, bounded, is_full, send_turn, recv_turn, clone_sender, drop_sender,
  clone_receiver, drop_receiver,
}
use tailscale_vita.Chan.Waiting.{
  Sync, wakes, idle, drop_last, Step, sends, notifies_one, notifies_none, receives, checks,
  starts_waiting, drops_sender, clones_sender, clones_receiver, drops_receiver, Steps, done, next,
}

-- While a receiver waits, every value in the queue has a thread that was woken for it or a sender
-- about to notify; and a receiver goes to wait only on an empty queue.
abbrev pub Covered : {A : Type 0} → Sync A → Type 0
Covered c =
    ((c.waiting ≡ []) ⊎ (length c.shared.queue ≤ c.woken + c.notifying))
    × ((c.checking ≡ none) ⊎ (length c.shared.queue ≡ 0))

nonempty : (before after : List ℕ) (i : ℕ) → before ++ i ∷ after ≡ [] → ⊥
nonempty [] after i e = cc
nonempty (b ∷ before) after i e = cc

counted :
    (woke : Bool) (old new woken notifying : ℕ)
    → (woke ≡ true → 0 < woken)
    → new ≤ old - 1
    → old ≤ woken + notifying
    → new ≤ wakes woke woken + notifying
counted true old new woken notifying has le h = let some_woken = has refl in omega arith
counted false old new woken notifying has le h = omega arith

List-cases :
    {A : Type 0} → (xs : List A) → (xs ≡ []) ⊎ ((x : A) × (rest : List A) × (xs ≡ x ∷ rest))
List-cases [] = inl refl
List-cases (x ∷ xs) = inr (x, xs, refl)

returns-waits : {R : Type 0} → (r : R) → returns r ≡ waits → ⊥
returns-waits r e = cc

module _ {A : Type 0} where
  -- A turn of `send` that returns adds one value; one of `recv` takes at most one away, and takes
  -- none only when there is none.
  send_turn-grows :
      (v : A) (c s : Shared A)
      → send_turn v c ≡ (returns (ok tt), s)
      → length s.queue ≡ length c.queue + 1
  unfolding send_turn
  send_turn-grows v c s e = elim (Bool-cases (eqb c.receiver_count 0)) [
    | inl gone ↦ let e' = rw (gone, send_turn) at e in absurd (cc)
    | inr live ↦ elim (Bool-cases (is_full c)) [
      | inl full ↦ let e' = rw (live, full, send_turn) at e in absurd (cc)
      | inr room ↦
          let e' = rw (live, room, send_turn) at e in
          sym (ap (λ (t, s). length s.queue) e') ∙ omega (arith, length-append c.queue (v ∷ []))
    ]
  ]

  recv_turn-takes :
      (t : Turn (Result (Unit {0}) A)) (c s : Shared A)
      → recv_turn c ≡ (t, s)
      → (length s.queue ≤ length c.queue - 1)
        × ((t ≡ waits) → (length c.queue ≡ 0) × (0 < c.sender_count))
  unfolding recv_turn
  recv_turn-takes t c s e = elim (List-cases c.queue) [
    | inr (v, rest, q) ↦
        let e' = rw (q, recv_turn) at e in
        let same = ap (λ (u, r). length r.queue) e' in
        (
          subst (λ n. n ≤ length c.queue - 1) same (rw q (omega arith)),
          λ w. absurd (returns-waits _ (ap (λ (u, r). u) e' ∙ w)),
        )
    | inl q ↦ elim (Bool-cases (eqb c.sender_count 0)) [
      | inl gone ↦
          let e' = rw (q, gone, recv_turn) at e in
          (unchanged q (ap (λ (u, r). r) e'), λ w. absurd (cc))
      | inr live ↦
          let e' = rw (q, live, recv_turn) at e in
          (unchanged q (ap (λ (u, r). r) e'), λ w. (ap (length {A = A}) q, ground arith))
    ]
  ]
    where
      unchanged : c.queue ≡ [] → c ≡ s → length s.queue ≤ length c.queue - 1
      unchanged q same =
          subst (λ r. length (r.queue) ≤ length c.queue - 1) same (rw q (omega arith))

  Step-Covered : {c d : Sync A} → Step c d → Covered c → Covered d
  Step-Covered {c} (sends v s free live e) (w, k) = (
    elim w [
      | inl none_waits ↦ inl none_waits
      | inr le ↦ inr (omega (arith, le, send_turn-grows v c.shared s e))
    ],
    inl free,
  )
  Step-Covered {c} (notifies_one before after i n e) (w, k) = (
    elim w [
      | inl none_waits ↦ absurd (nonempty before after i (sym e ∙ none_waits))
      | inr le ↦ inr (omega (arith, le))
    ],
    k,
  )
  Step-Covered {c} (notifies_none n e) (w, k) = (inl e, k)
  Step-Covered {c} (receives woke r s free has e) (w, k) = (
    elim w [
      | inl none_waits ↦ inl none_waits
      | inr le ↦ inr (
          counted woke (length c.shared.queue) (length s.queue) c.woken c.notifying has
            (recv_turn-takes (returns r) c.shared s e).0 le)
    ],
    inl free,
  )
  Step-Covered {c} (checks woke i s free has e) (w, k) =
      let empty = ((recv_turn-takes waits c.shared s e).1 refl).0 in
      (inr (omega (arith, empty)), inr empty)
  Step-Covered {c} (starts_waiting i e) (w, k) = (
    elim k [
      | inl free ↦ absurd (none-some (sym free ∙ e))
      | inr empty ↦ inr (omega (arith, empty))
    ],
    inl refl,
  )
  Step-Covered {c} (drops_sender live) (w, k) = elim (Bool-cases (eqb c.shared.sender_count 1)) [
    | inl last ↦ unfold drop_last drop_sender in rw last (inl refl, k)
    | inr more ↦ unfold drop_last drop_sender in rw more (w, k)
  ]
  Step-Covered {c} (clones_sender live) (w, k) = unfold clone_sender in (w, k)
  Step-Covered {c} clones_receiver (w, k) = unfold clone_receiver in (w, k)
  Step-Covered {c} drops_receiver (w, k) = unfold drop_receiver in (w, k)

  Steps-Covered : {c d : Sync A} → Steps c d → Covered c → Covered d
  Steps-Covered done k = k
  Steps-Covered (next one more) k = Steps-Covered more (Step-Covered one k)

  -- Whatever senders and receivers of a bounded channel do, and wherever their threads are between
  -- the lock and the condition variable, no wake-up of a queued value is lost: while a thread
  -- waits in `recv`, the queue holds no more values than there are threads woken for one and
  -- senders about to notify; and a thread is about to wait only while the queue is empty.
  pub idle-Covered : (limit : ℕ) (c : Sync A) → Steps (idle (bounded limit)) c → Covered c
  idle-Covered limit c steps = Steps-Covered steps (inl refl, inl refl)

  -- No sender is left, nothing is queued and none is about to notify.
  abbrev Forgotten : ℕ → Sync A → Type 0
  Forgotten i c =
      (c.shared.sender_count ≡ 0)
      × (c.shared.queue ≡ [])
      × (c.notifying ≡ 0)
      × Any (λ j. j ≡ i) c.waiting

  recv_turn-sender_count :
      (t : Turn (Result (Unit {0}) A)) (c s : Shared A)
      → recv_turn c ≡ (t, s)
      → c.queue ≡ []
      → (s.sender_count ≡ c.sender_count) × (s.queue ≡ [])
  unfolding recv_turn
  recv_turn-sender_count t c s e q = elim (Bool-cases (eqb c.sender_count 0)) [
    | inl gone ↦ let e' = rw (q, gone, recv_turn) at e in kept (ap (λ (u, r). r) e')
    | inr live ↦ let e' = rw (q, live, recv_turn) at e in kept (ap (λ (u, r). r) e')
  ]
    where
      kept : c ≡ s → (s.sender_count ≡ c.sender_count) × (s.queue ≡ [])
      kept same = (ap (λ r. r.sender_count) (sym same), ap (λ r. r.queue) (sym same) ∙ q)

  Step-Forgotten : (i : ℕ) {c d : Sync A} → Step c d → Forgotten i c → Forgotten i d
  Step-Forgotten i {c} (sends v s free live e) (gone, q, quiet, w) =
      absurd (omega (arith, gone, live))
  Step-Forgotten i {c} (notifies_one before after j n e) (gone, q, quiet, w) =
      absurd (omega (arith, n, quiet))
  Step-Forgotten i {c} (notifies_none n e) (gone, q, quiet, w) = absurd (omega (arith, n, quiet))
  Step-Forgotten i {c} (receives woke r s free has e) (gone, q, quiet, w) =
      let same = recv_turn-sender_count (returns r) c.shared s e q in
      (same.0 ∙ gone, same.1, quiet, w)
  Step-Forgotten i {c} (checks woke j s free has e) (gone, q, quiet, w) =
      let live = ((recv_turn-takes waits c.shared s e).1 refl).1 in
      absurd (omega (arith, gone, live))
  Step-Forgotten i {c} (starts_waiting j e) (gone, q, quiet, w) =
      (gone, q, quiet, append-Any (λ j. j ≡ i) c.waiting (j ∷ []) w)
  Step-Forgotten i {c} (drops_sender live) (gone, q, quiet, w) = absurd (omega (arith, gone, live))
  Step-Forgotten i {c} (clones_sender live) (gone, q, quiet, w) = absurd (omega (arith, gone, live))
  Step-Forgotten i {c} clones_receiver (gone, q, quiet, w) =
      unfold clone_receiver in (gone, q, quiet, w)
  Step-Forgotten i {c} drops_receiver (gone, q, quiet, w) =
      unfold drop_receiver in (gone, q, quiet, w)

  Steps-Forgotten : (i : ℕ) {c d : Sync A} → Steps c d → Forgotten i c → Forgotten i d
  Steps-Forgotten i done f = f
  Steps-Forgotten i (next one more) f = Steps-Forgotten i more (Step-Forgotten i one f)

  abbrev checking_alone : ℕ → ℕ → Sync A
  checking_alone limit i = record (idle (bounded limit)) { checking = some i }

  abbrev left_waiting : ℕ → ℕ → Sync A
  left_waiting limit i = record (drop_last (checking_alone limit i)) {
    checking = none;
    waiting = (drop_last (checking_alone limit i)).waiting ++ i ∷ [];
  }

  left_waiting-Forgotten : (limit i : ℕ) → Forgotten i (left_waiting limit i)
  unfolding drop_last drop_sender bounded
  left_waiting-Forgotten limit i = (refl, refl, refl, inl refl)

  left_waiting-steps : (limit i : ℕ) → Steps (idle (bounded limit)) (left_waiting limit i)
  unfolding recv_turn bounded drop_last
  left_waiting-steps limit i =
      next (checks false i (bounded limit) refl (λ e. absurd (cc)) refl)
        (next (drops_sender (omega arith)) (next (starts_waiting i refl) done))

  -- The wake-up of the last sender's end can be lost, since its notification does not take the
  -- lock: for every capacity and thread, there is a run of the channel, one sender and one
  -- receiver, that ends with no sender left and after which the thread waits in `recv` for ever,
  -- whatever is done with the channel, unless the condition variable wakes it unasked.
  pub drop_last-wakes_none :
      (limit i : ℕ)
      → (c : Sync A) × Steps (idle (bounded limit)) c
        × (c.shared.sender_count ≡ 0)
        × ((d : Sync A) → Steps c d → Any (λ j. j ≡ i) d.waiting)
  drop_last-wakes_none limit i =
      let start = left_waiting-Forgotten limit i in
      (
        left_waiting limit i,
        left_waiting-steps limit i,
        start.0,
        λ d steps. let (gone, q, quiet, w) = Steps-Forgotten i steps start in w,
      )
