-- ===== src/Magic/Silent.antt =====
-- The pings of a round and the test for a CallMeMaybe behind them.
use tailscale_vita.Prelude.{
  ℕ, ◌+◌, ◌-◌, ◌<◌, ◌≡◌, refl, sym, ap, subst, ◌∙◌, ◌⊎◌, inl, inr, Bool, true, false, List, [], ◌∷◌,
  ◌++◌, map, Option, none, some, none-some, some-injective, ok, leb, ◌==◌, list_eq, nat_eq,
  Bool-cases, Option-cases, is_empty, any, filter, filter_map, for_each, min_by_key, All, Any,
  contains, contains-Any, lookup, insert, Unique, insert-Unique, insert-cases, Unique-All, arith,
}
use tailscale_vita.Wg.Peer.{Key, SocketAddr}
use tailscale_vita.Magic.State.{addr_eq, PathState, alive, path_or_new, PeerState, MagicState}
use tailscale_vita.Magic.Wire.{build_ping}
use tailscale_vita.Magic.Handle.{Env, World, for_addr, update_peer, record_ping, ping_one}
use tailscale_vita.Magic.Exchange.{ping_one-sends}
use tailscale_vita.Magic.Update.{update_peer-cases, update_peer-Unique, update_peer-fields}
use tailscale_vita.Magic.Pump.{
  path_needs_ping, Target, due, to_ping, needs_cmm, to_cmm, cmm_pump, ping_target, ping_pump,
}

-- Every ping can be built, and the sockets that there are take every datagram.
abbrev pub Sends : Env → Type 0
Sends env =
    ((addr : SocketAddr) (bytes : List ℕ) → env.accepts addr bytes ≡ true)
    × ((peer_disco tx_id nonce : List ℕ)
        → (bytes : List ℕ) × (build_ping env.bx env.our_disco_priv env.our_node_pub peer_disco tx_id
              nonce
            ≡ ok bytes))

abbrev pub Recent : (now : ℕ) → Option ℕ → Type 0
Recent now none = Unit
Recent now (some t) = now - t < 10000

-- Each node has one entry, and each address of a node one path.
abbrev pub Distinct : MagicState → Type 0
Distinct s =
    Unique s.peers × ((n : Key) (p : PeerState) → lookup n s.peers ≡ some p → Unique p.paths)

module _ (env : Env) (now : ℕ) where
  ping_target-routed :
      (t : Target) (w : World)
      → Sends env
      → for_addr env t.2 ≡ true
      → (tx_id : List ℕ) × ((ping_target env now t w).state
          ≡ update_peer (record_ping now tx_id t.2) t.0 w.state)
  unfolding ping_target
  ping_target-routed (n, d, a) w (takes, builds) route =
      let (bytes, built) = builds d (env.fill_bytes w.draws 12) (env.fill_bytes (w.draws + 1) 24) in
      (
        env.fill_bytes w.draws 12,
        ap (λ w. w.state) (ping_one-sends env now n d a w bytes route (takes a bytes) built),
      )

  ping_target-unrouted :
      (t : Target) (w : World) → for_addr env t.2 ≡ false → ping_target env now t w ≡ w
  unfolding ping_target ping_one
  ping_target-unrouted (n, d, a) w route = rw (route, ping_one) refl

  -- Still to be pinged.
  abbrev In : Key → SocketAddr → List Target → Type 0
  In n a targets = Any (λ t. (t.0 ≡ n) × (t.2 ≡ a)) targets

  -- Every path has been pinged recently or never, or it is among the targets and has a socket.
  abbrev Pending : List Target → MagicState → Type 0
  Pending targets s =
      (n : Key) (p : PeerState) (a : SocketAddr) (st : PathState)
      → lookup n s.peers ≡ some p
      → lookup a p.paths ≡ some st
      → Recent now st.last_ping_at ⊎ (In n a targets × (for_addr env a ≡ true))

  abbrev pinged : List ℕ → SocketAddr → PeerState → PathState
  pinged tx_id addr peer = record (path_or_new (lookup addr peer.paths)) {
    last_ping_at = some now;
    outstanding_tx_id = some tx_id;
  }

  paths-record_ping :
      (tx_id : List ℕ) (addr : SocketAddr) (peer : PeerState)
      → (record_ping now tx_id addr peer).paths ≡ insert addr (pinged tx_id addr peer) peer.paths
  unfolding record_ping
  paths-record_ping tx_id addr peer = refl

  update-Pending :
      (t : Target) (ts : List Target) (tx_id : List ℕ) (s : MagicState)
      → Pending (t ∷ ts) s
      → Pending ts (update_peer (record_ping now tx_id t.2) t.0 s)
  update-Pending t ts tx_id s pend n p a st l m =
      elim (update_peer-cases (record_ping now tx_id t.2) t.0 s n p l) [
        | inr (apart, old) ↦ elim (pend n p a st old m) [
          | inl r ↦ inl r
          | inr (inl (eq, _), route) ↦ absurd (apart eq)
          | inr (inr i, route) ↦ inr (i, route)
        ]
        | inl (peer, eq, old, v) ↦
            let found =
              sym (ap (lookup a) (ap (λ p. p.paths) v ∙ paths-record_ping tx_id t.2 peer)) ∙ m in
            elim (insert-cases t.2 a (pinged tx_id t.2 peer) st peer.paths found) [
              | inl (here, e) ↦ inl (subst (λ st. Recent now st.last_ping_at) e (omega arith))
              | inr (apart, was) ↦ elim (pend n peer a st old was) [
                | inl r ↦ inl r
                | inr (inl (_, eq'), route) ↦ absurd (apart eq')
                | inr (inr i, route) ↦ inr (i, route)
              ]
            ]
      ]

  update-Distinct :
      (t : Target) (tx_id : List ℕ) (s : MagicState)
      → Distinct s
      → Distinct (update_peer (record_ping now tx_id t.2) t.0 s)
  update-Distinct t tx_id s (u, d) = (
    update_peer-Unique (record_ping now tx_id t.2) t.0 s u,
    λ n p l. elim (update_peer-cases (record_ping now tx_id t.2) t.0 s n p l) [
      | inr (apart, old) ↦ d n p old
      | inl (peer, eq, old, v) ↦
          subst Unique (sym (ap (λ p. p.paths) v ∙ paths-record_ping tx_id t.2 peer))
            (insert-Unique t.2 (pinged tx_id t.2 peer) peer.paths (d n peer old))
    ],
  )

  apart : {x y : Bool} → y ≡ true → x ≡ y → x ≡ false → ⊥
  apart p q r = cc

  abbrev Kept : MagicState → MagicState → Type 0
  Kept s s' = s'.cmm_pending ≡ s.cmm_pending

  ping_each :
      (targets : List Target) (w : World)
      → Sends env
      → Distinct w.state
      → Pending targets w.state
      → Distinct (for_each (ping_target env now) targets w).state
        × Pending [] (for_each (ping_target env now) targets w).state
        × Kept w.state (for_each (ping_target env now) targets w).state
  unfolding for_each
  ping_each [] w sends d p = (d, p, refl)
  ping_each (t ∷ ts) w sends d p = elim (Bool-cases (for_addr env t.2)) [
    | inl route ↦
        let (tx_id, eq) = ping_target-routed t w sends route in
        let next : World = ping_target env now t w in
        let (d', p', k) =
          ping_each ts next sends (subst Distinct (sym eq) (update-Distinct t tx_id w.state d))
            (subst (Pending ts) (sym eq) (update-Pending t ts tx_id w.state p)) in
        (
          d',
          p',
          k
              ∙ ap (λ s. s.cmm_pending) eq
              ∙ (update_peer-fields (record_ping now tx_id t.2) t.0 w.state).1,
        )
    | inr none_for ↦
        let eq : ping_target env now t w ≡ w = ping_target-unrouted t w none_for in
        let keep : Pending ts w.state = (λ n p' a st l m. elim (p n p' a st l m) [
          | inl r ↦ inl r
          | inr (inl (_, e), route) ↦ absurd (apart route (ap (for_addr env) e) none_for)
          | inr (inr i, route) ↦ inr (i, route)
        ]) in
        let (d', p', k) =
          ping_each ts (ping_target env now t w) sends (subst (λ w. Distinct w.state) (sym eq) d)
            (subst (λ w. Pending ts w.state) (sym eq) keep) in
        (d', p', k ∙ ap (λ w. w.state.cmm_pending) eq)
  ]

-- A path that was never pinged, or that belongs to a listed endpoint with a socket.
abbrev pub Reachable : Env → PeerState → SocketAddr → PathState → Type 0
Reachable env p a st =
    (st.last_ping_at ≡ none) ⊎ ((contains p.endpoints a ≡ true) × (for_addr env a ≡ true))

Any-filter :
    (p : SocketAddr → Bool) (a : SocketAddr) (xs : List SocketAddr)
    → p a ≡ true
    → Any (λ x. x ≡ a) xs
    → Any (λ x. x ≡ a) (filter p xs)
unfolding filter
Any-filter p a [] h m = absurd m
Any-filter p a (x ∷ xs) h (inl e) = rw (ap p e ∙ h) (inl e)
Any-filter p a (x ∷ xs) h (inr m) = elim (Bool-cases (p x)) [
  | inl y ↦ rw y (inr (Any-filter p a xs h m))
  | inr n ↦ rw n (Any-filter p a xs h m)
]

Any-target :
    (n d : Key) (a : SocketAddr) (xs : List SocketAddr)
    → Any (λ x. x ≡ a) xs
    → Any (λ (t : Target). (t.0 ≡ n) × (t.2 ≡ a)) (map (λ addr. (n, d, addr)) xs)
Any-target n d a [] m = absurd m
Any-target n d a (x ∷ xs) (inl e) = inl (refl, e)
Any-target n d a (x ∷ xs) (inr m) = inr (Any-target n d a xs m)

Any-left : {A : Type 0} (P : A → Type 0) (xs ys : List A) → Any P xs → Any P (xs ++ ys)
Any-left P [] ys m = absurd m
Any-left P (x ∷ xs) ys (inl p) = inl p
Any-left P (x ∷ xs) ys (inr m) = inr (Any-left P xs ys m)

Any-right : {A : Type 0} (P : A → Type 0) (xs ys : List A) → Any P ys → Any P (xs ++ ys)
Any-right P [] ys m = m
Any-right P (x ∷ xs) ys m = inr (Any-right P xs ys m)

In-to_ping :
    (now : ℕ) (n : Key) (p : PeerState) (a : SocketAddr) (peers : List (Key × PeerState))
    → lookup n peers ≡ some p
    → contains p.endpoints a ≡ true
    → path_needs_ping (lookup a p.paths) now ≡ true
    → Any (λ (t : Target). (t.0 ≡ n) × (t.2 ≡ a)) (to_ping now peers)
unfolding to_ping lookup due
In-to_ping now n p a [] l c h = absurd (none-some l)
In-to_ping now n p a ((m, q) ∷ rest) l c h = elim (Bool-cases (m == n)) [
  | inl same ↦
      let m_n : m ≡ n = ((list_eq {A = ℕ}).beq_iff m n).0 same in
      let q_p : q ≡ p = some-injective (rw same at l) in
      let found =
        Any-filter (λ addr. path_needs_ping (lookup addr p.paths) now) a p.endpoints h
          ((contains-Any p.endpoints a).0 c) in
      Any-left _ _ (to_ping now rest) (
        subst
          (λ (k : Key).
            Any (λ (t : Target). (t.0 ≡ n) × (t.2 ≡ a))
              (map (λ addr. (k, q.disco_pub, addr)) (due now q)))
          (sym m_n)
          (subst
            (λ (r : PeerState).
              Any (λ (t : Target). (t.0 ≡ n) × (t.2 ≡ a))
                (map (λ addr. (n, r.disco_pub, addr)) (due now r)))
            (sym q_p) (Any-target n p.disco_pub a (due now p) (unfold due in found))))
  | inr other ↦ Any-right _ _ _ (In-to_ping now n p a rest (rw other at l) c h)
]

-- A path that is not due has been pinged recently.
not_due-Recent :
    (now : ℕ) (st : PathState) → path_needs_ping (some st) now ≡ false → Recent now st.last_ping_at
unfolding path_needs_ping
not_due-Recent now st h = elim (Option-cases st.last_ping_at) [
  | inl e ↦ rw e tt
  | inr (t, e) ↦ let late = rw (e, path_needs_ping) at h in rw e (ground (arith, late))
]

to_ping-Pending :
    (env : Env) (now : ℕ) (s : MagicState)
    → ((n : Key) (p : PeerState) (a : SocketAddr) (st : PathState)
        → lookup n s.peers ≡ some p
        → lookup a p.paths ≡ some st
        → Reachable env p a st)
    → Pending env now (to_ping now s.peers) s
to_ping-Pending env now s reach n p a st l m = elim (reach n p a st l m) [
  | inl never ↦ inl (rw never tt)
  | inr (c, route) ↦ elim (Bool-cases (path_needs_ping (some st) now)) [
    | inl y ↦ inr (In-to_ping now n p a s.peers l c (ap (λ o. path_needs_ping o now) m ∙ y), route)
    | inr x ↦ inl (not_due-Recent now st x)
  ]
]

filter_map-Recent :
    (now : ℕ) (paths : List (SocketAddr × PathState))
    → All (λ (a, st). Recent now st.last_ping_at) paths
    → All (λ t. now - t < 10000) (filter_map (λ (addr, p). p.last_ping_at) paths)
unfolding filter_map
filter_map-Recent now [] h = tt
filter_map-Recent now ((a, st) ∷ rest) (r, h) = elim (Option-cases st.last_ping_at) [
  | inl e ↦ rw e (filter_map-Recent now rest h)
  | inr (t, e) ↦ rw e (rw e at r, filter_map-Recent now rest h)
]

min_by_key-All :
    {A : Type 0} (P : A → Type 0) (f : A → ℕ) (xs : List A) (x : A)
    → All P xs
    → min_by_key f xs ≡ some x
    → P x
unfolding min_by_key
min_by_key-All P f [] x h e = absurd (none-some e)
min_by_key-All P f (y ∷ ys) x (p, h) e = elim (Option-cases (min_by_key f ys)) [
  | inl n ↦ subst P (some-injective (rw n at e)) p
  | inr (z, n) ↦ elim (Bool-cases (leb (f y) (f z))) [
    | inl le ↦ subst P (some-injective (rw (n, le) at e)) p
    | inr gt ↦ subst P (some-injective (rw (n, gt) at e)) (min_by_key-All P f ys z h n)
  ]
]

needs_cmm-Recent :
    (now : ℕ) (last : Option ℕ) (p : PeerState)
    → All (λ (a, st). Recent now st.last_ping_at) p.paths
    → needs_cmm now last p ≡ false
unfolding needs_cmm
needs_cmm-Recent now last p h = elim (Bool-cases (is_empty p.endpoints)) [
  | inl none_listed ↦ rw (none_listed, needs_cmm) refl
  | inr listed ↦ elim (Bool-cases (any (λ (addr, p). alive now p) p.paths)) [
    | inl up ↦ rw (listed, needs_cmm) (rw up refl)
    | inr down ↦ elim (Option-cases (min_by_key (λ t. t) pings)) [
      | inl e ↦ rw (listed, needs_cmm) (rw down (rw e refl))
      | inr (t, e) ↦
          let recent : now - t < 10000 =
            min_by_key-All (λ t. now - t < 10000) (λ t. t) pings t (filter_map-Recent now p.paths h)
              e in
          let early : leb 10000 (now - t) ≡ false = ground arith in
          rw (listed, needs_cmm) (rw down (rw e (rw early refl)))
    ]
  ]
]
  where
    pings : List ℕ
    pings = filter_map (λ (addr, p). p.last_ping_at) p.paths

to_cmm-Recent :
    (now : ℕ) (last : List (Key × ℕ)) (peers : List (Key × PeerState))
    → All (λ (n, p). All (λ (a, st). Recent now st.last_ping_at) p.paths) peers
    → to_cmm now last peers ≡ []
unfolding to_cmm
to_cmm-Recent now last [] h = refl
to_cmm-Recent now last ((n, p) ∷ rest) (r, h) =
    rw (needs_cmm-Recent now (lookup n last) p r) (to_cmm-Recent now last rest h)

cmm_pump-nothing :
    (env : Env) (now : ℕ) (w : World)
    → to_cmm now w.state.last_cmm_sent_at w.state.peers ≡ []
    → cmm_pump env now w ≡ w
unfolding cmm_pump for_each
cmm_pump-nothing env now w e = elim (Bool-cases (is_empty w.state.local_endpoints)) [
  | inl y ↦ rw (y, cmm_pump) refl
  | inr n ↦ rw (n, cmm_pump) (rw e refl)
]

-- A round of pings in which every ping can be built and the sockets take every datagram queues no
-- CallMeMaybe, whatever the round trips, the pongs and the time: when each peer's paths that were
-- ever pinged are endpoints that it lists and there is a socket for, every path was pinged less
-- than ten seconds ago when the test for ten seconds without an answer is made.
pub ping_pump-queues_nothing :
    (env : Env) (now : ℕ) (w : World)
    → Sends env
    → Distinct w.state
    → ((n : Key) (p : PeerState) (a : SocketAddr) (st : PathState)
        → lookup n w.state.peers ≡ some p
        → lookup a p.paths ≡ some st
        → Reachable env p a st)
    → (ping_pump env now w).state.cmm_pending ≡ w.state.cmm_pending
unfolding ping_pump
ping_pump-queues_nothing env now w sends d reach =
    let after : World = for_each (ping_target env now) (to_ping now w.state.peers) w in
    let (d', p', kept) =
      ping_each env now (to_ping now w.state.peers) w sends d
        (to_ping-Pending env now w.state reach) in
    let recent =
      Unique-All (λ n p. All (λ (a, st). Recent now st.last_ping_at) p.paths) after.state.peers d'.0
        (λ n p l.
          Unique-All (λ a st. Recent now st.last_ping_at) p.paths (d'.1 n p l)
            (λ a st m. elim (p' n p a st l m) [ inl r ↦ r | inr (i, route) ↦ absurd i ])) in
    ap (λ w. w.state.cmm_pending)
      (cmm_pump-nothing env now after
        (to_cmm-Recent now after.state.last_cmm_sent_at after.state.peers recent))
    ∙ kept
