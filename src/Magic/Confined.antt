-- ===== src/Magic/Confined.antt =====
-- What the handlers of the three messages leave alone, and who is answered.
use tailscale_vita.Prelude.{
  ℕ, ◌+◌, ◌-◌, ◌≡◌, refl, sym, ap, subst, ◌∙◌, ◌⊎◌, inl, inr, List, [], ◌∷◌, ◌++◌, map, Option,
  none, some, ok, Option-cases, Bool-cases, Result-cases, lookup, insert, remove, for_each, list_eq,
  nat_eq,
}
use tailscale_vita.Wg.Peer.{Key, SocketAddr}
use tailscale_vita.Disco.Endpoint.{socket_addr}
use tailscale_vita.Disco.Message.{
  MessageType, ping, pong, call_me_maybe, Ping, Pong, CallMeMaybe, ping_message, pong_message,
  call_me_maybe_message,
}
use tailscale_vita.Disco.Packet.{Packet, as_msg}
use tailscale_vita.Magic.State.{StunInflight, PingInflight, PeerState, MagicState}
use tailscale_vita.Magic.Handle.{
  Env, World, Reflected, for_addr, update_peer, learn_source, accept_pong, record_ping,
  merge_endpoints, learned, answer_waiter, ping_one, send_pong, handle_ping, handle_pong,
  handle_call_me_maybe, handle_message,
}
use tailscale_vita.Magic.Wire.{build_ping, build_pong}
use tailscale_vita.Magic.Touched.{
  Frame, Frame-refl, Frame-trans, update_peer-Frame, update_peer-outstanding, learn_source-lookup,
  accept_pong-lookup,
}

-- Nobody is answered, or one who waits for a STUN response, or one who waits for a pong; and who
-- is answered waits no longer.
abbrev pub Answers : (now : ℕ) → World → World → Type 0
Answers now w w' =
    ((w'.results ≡ w.results)
      × (w'.state.stun_outstanding ≡ w.state.stun_outstanding)
      × (w'.state.ping_outstanding ≡ w.state.ping_outstanding))
    ⊎ ((tx_id : List ℕ) × (waiter : StunInflight) × (answer : Reflected) × (lookup tx_id
            w.state.stun_outstanding
          ≡ some waiter)
        × (w'.results ≡ w.results ++ (waiter.result_tx, answer) ∷ [])
        × (w'.state.stun_outstanding ≡ remove tx_id w.state.stun_outstanding)
        × (w'.state.ping_outstanding ≡ w.state.ping_outstanding))
    ⊎ ((tx_id : List ℕ) × (waiter : PingInflight) × (lookup tx_id w.state.ping_outstanding
          ≡ some waiter)
        × (w'.results
            ≡ w.results ++ (waiter.result_tx, ok (waiter.target, now - waiter.sent_at)) ∷ [])
        × (w'.state.stun_outstanding ≡ w.state.stun_outstanding)
        × (w'.state.ping_outstanding ≡ remove tx_id w.state.ping_outstanding))

-- The case in which nobody is.
abbrev Quiet : World → World → Type 0
Quiet w w' =
    (w'.results ≡ w.results)
    × (w'.state.stun_outstanding ≡ w.state.stun_outstanding)
    × (w'.state.ping_outstanding ≡ w.state.ping_outstanding)

Quiet-trans : (u v w : World) → Quiet u v → Quiet v w → Quiet u w
Quiet-trans u v w (a, b, c) (a', b', c') = (a' ∙ a, b' ∙ b, c' ∙ c)

-- What a handler does, for the node of the sender and whether all its paths are free to change.
abbrev pub Does :
    (node : Option Key) (wide : Type 0) → SocketAddr → (now : ℕ) → World → World → Type 0
Does node wide src now w w' = Frame node wide src w.state w'.state × Answers now w w'

module _ (node : Option Key) (wide : Type 0) (src : SocketAddr) (now : ℕ) where
  pub Does-nothing : (w : World) → Does node wide src now w w
  Does-nothing w = (Frame-refl node wide src w.state, inl (refl, refl, refl))

module _ (env : Env) (now : ℕ) where
  ping_one-Frame :
      (node : Option Key) (wide : Type 0) (src : SocketAddr) (n d : Key) (a : SocketAddr)
      (w : World)
      → node ≡ some n
      → wide
      → Frame node wide src w.state (ping_one env now n d a w).state
        × Quiet w (ping_one env now n d a w)
  unfolding ping_one
  ping_one-Frame node wide src n d a w is_node free = elim (Bool-cases (for_addr env a)) [
    | inr closed ↦ rw (closed, ping_one) unchanged
    | inl route ↦
        elim (Result-cases (build_ping env.bx env.our_disco_priv env.our_node_pub d tx_id nonce)) [
          | inr (e, built) ↦ rw (route, ping_one) (rw built unchanged)
          | inl (bytes, built) ↦ elim (Bool-cases (env.accepts a bytes)) [
            | inl takes ↦ rw (route, ping_one) (rw built (rw takes recorded))
            | inr drops ↦ rw (route, ping_one) (rw built (rw drops unchanged))
          ]
        ]
  ]
    where
      tx_id : List ℕ
      tx_id = env.fill_bytes w.draws 12

      nonce : List ℕ
      nonce = env.fill_bytes (w.draws + 1) 24

      unchanged : Frame node wide src w.state w.state × Quiet w w
      unchanged = (Frame-refl node wide src w.state, (refl, refl, refl))

      recorded :
          Frame node wide src w.state (update_peer (record_ping now tx_id a) n w.state)
          × Quiet w (record w { state = update_peer (record_ping now tx_id a) n w.state })
      recorded = (
        update_peer-Frame node wide src (record_ping now tx_id a) n w.state is_node
            (λ peer b h. absurd (h (inr free))),
        (
          refl,
          (update_peer-outstanding (record_ping now tx_id a) n w.state).0,
          (update_peer-outstanding (record_ping now tx_id a) n w.state).1,
        ),
      )

  pings-Frame :
      (node : Option Key) (wide : Type 0) (src : SocketAddr) (n d : Key) (eps : List SocketAddr)
      (w : World)
      → node ≡ some n
      → wide
      → Frame node wide src w.state (for_each (ping_one env now n d) eps w).state
        × Quiet w (for_each (ping_one env now n d) eps w)
  unfolding for_each
  pings-Frame node wide src n d [] w is_node free =
      (Frame-refl node wide src w.state, (refl, refl, refl))
  pings-Frame node wide src n d (a ∷ eps) w is_node free =
      let (f, q) = ping_one-Frame node wide src n d a w is_node free in
      let (f', q') = pings-Frame node wide src n d eps (ping_one env now n d a w) is_node free in
      (
        Frame-trans node wide src w.state (ping_one env now n d a w).state
            (for_each (ping_one env now n d) eps (ping_one env now n d a w)).state f f',
        Quiet-trans w (ping_one env now n d a w)
            (for_each (ping_one env now n d) eps (ping_one env now n d a w)) q q',
      )

  send_pong-same :
      (d : Key) (src : SocketAddr) (tx_id : List ℕ) (w : World)
      → ((send_pong env d src tx_id w).state ≡ w.state)
        × ((send_pong env d src tx_id w).results ≡ w.results)
  unfolding send_pong
  send_pong-same d src tx_id w =
      elim (Result-cases
        (build_pong env.bx env.our_disco_priv d src tx_id (env.fill_bytes w.draws 24))) [
          | inr (e, built) ↦ rw (built, send_pong) (refl, refl)
          | inl (bytes, built) ↦ elim (Bool-cases (env.accepts src bytes)) [
            | inl takes ↦ rw (built, send_pong) (rw takes (refl, refl))
            | inr drops ↦ rw (built, send_pong) (rw drops (refl, refl))
          ]
        ]

  learned-Does :
      (node : Option Key) (wide : Type 0) (src : SocketAddr) (w : World)
      → Frame node wide src w.state (learned now src node w).state
        × Quiet w (learned now src node w)
  unfolding learned
  learned-Does none wide src w = (Frame-refl none wide src w.state, (refl, refl, refl))
  learned-Does (some n) wide src w = (
    update_peer-Frame (some n) wide src (learn_source now src) n w.state refl
        (λ peer a h. learn_source-lookup now src a peer (λ e. h (inl e))),
    (
      refl,
      (update_peer-outstanding (learn_source now src) n w.state).0,
      (update_peer-outstanding (learn_source now src) n w.state).1,
    ),
  )

  handle_ping-Does :
      (wide : Type 0) (src : SocketAddr) (d : Key) (m : Ping) (w : World)
      → Does (lookup d w.state.disco_to_node) wide src now w (handle_ping env now src d m w)
  unfolding handle_ping
  handle_ping-Does wide src d m w =
      let node = lookup d w.state.disco_to_node in
      let (f, (r, q, o)) = learned-Does node wide src w in
      let (state, results) = send_pong-same d src m.tx_id (learned now src node w) in
      (
        subst (Frame node wide src w.state) (sym state) f,
        inl (
          results ∙ r,
          ap (λ s. s.stun_outstanding) state ∙ q,
          ap (λ s. s.ping_outstanding) state ∙ o,
        ),
      )

  answer_waiter-Does :
      (node : Option Key) (wide : Type 0) (src : SocketAddr) (tx_id : List ℕ) (w : World)
      → Does node wide src now w (answer_waiter now tx_id w)
  unfolding answer_waiter
  answer_waiter-Does node wide src tx_id w =
      elim (Option-cases (lookup tx_id w.state.ping_outstanding)) [
        | inl e ↦ rw (e, answer_waiter) (Does-nothing node wide src now w)
        | inr (x, e) ↦
            rw (e, answer_waiter)
              (Frame-refl node wide src w.state, inr (inr (tx_id, x, e, refl, refl, refl)))
      ]

  -- A change of one node after that answers nobody else.
  updated-Answers :
      (f : PeerState → PeerState) (n : Key) (w w' : World)
      → Answers now w w'
      → Answers now w (record w' { state = update_peer f n w'.state })
  updated-Answers f n w w' h =
      let (stun, pings) = update_peer-outstanding f n w'.state in
      elim h [
        | inl (r, q, o) ↦ inl (r, stun ∙ q, pings ∙ o)
        | inr (inl (tx, x, answer, e, r, q, o)) ↦
            inr (inl (tx, x, answer, e, r, stun ∙ q, pings ∙ o))
        | inr (inr (tx, x, e, r, q, o)) ↦ inr (inr (tx, x, e, r, stun ∙ q, pings ∙ o))
      ]

  handle_pong-Does :
      (wide : Type 0) (src : SocketAddr) (d : Key) (m : Pong) (w : World)
      → Does (lookup d w.state.disco_to_node) wide src now w (handle_pong env now src d m w)
  unfolding handle_pong
  handle_pong-Does wide src d m w = elim (Option-cases (lookup d w.state.disco_to_node)) [
    | inl e ↦ rw (e, handle_pong) (answer_waiter-Does none wide src m.tx_id w)
    | inr (n, e) ↦
        let (f, h) = answer_waiter-Does (some n) wide src m.tx_id w in
        let told = answer_waiter now m.tx_id w in
        rw (e, handle_pong)
          (
            Frame-trans (some n) wide src w.state told.state
                (update_peer (accept_pong now m.tx_id src) n told.state) f
                (update_peer-Frame (some n) wide src (accept_pong now m.tx_id src) n told.state refl
                  (λ peer a h. accept_pong-lookup now m.tx_id src a peer (λ e. h (inl e)))),
            updated-Answers (accept_pong now m.tx_id src) n w told h,
          )
  ]

  handle_call_me_maybe-Does :
      (wide : Type 0) (src : SocketAddr) (d : Key) (m : CallMeMaybe) (w : World)
      → wide
      → Does (lookup d w.state.disco_to_node) wide src now w (handle_call_me_maybe env now d m w)
  unfolding handle_call_me_maybe
  handle_call_me_maybe-Does wide src d m w free =
      elim (Option-cases (lookup d w.state.disco_to_node)) [
        | inl e ↦ rw (e, handle_call_me_maybe) (Does-nothing none wide src now w)
        | inr (n, e) ↦ elim (Option-cases (lookup n w.state.peers)) [
          | inl e' ↦ rw (e, handle_call_me_maybe) (rw e' (Does-nothing (some n) wide src now w))
          | inr (p, e') ↦
              let eps : List SocketAddr = map socket_addr m.endpoints in
              let merged : MagicState = record w.state {
                peers = insert n (merge_endpoints eps p) w.state.peers;
              } in
              let first : Frame (some n) wide src w.state merged =
                rw (e', update_peer) at
                  (update_peer-Frame (some n) wide src (merge_endpoints eps) n w.state refl
                    (λ peer a h. absurd (h (inr free)))) in
              let (f, q) =
                pings-Frame (some n) wide src n p.disco_pub eps (record w { state = merged }) refl
                  free in
              rw (e, handle_call_me_maybe)
                (rw e' (
                  Frame-trans (some n) wide src w.state merged
                      (for_each (ping_one env now n p.disco_pub) eps
                        (record w { state = merged })).state
                      first f,
                  inl q,
                ))
        ]
      ]

  pub handle_message-Does :
      (src : SocketAddr) (d : Key) (p : Packet) (t : Option MessageType) (w : World)
      → Does
          (lookup d w.state.disco_to_node)
          (t ≡ some call_me_maybe)
          src
          now
          w
          (handle_message env now src d p t w)
  unfolding handle_message
  handle_message-Does src d p (some ping) w = elim (Option-cases (as_msg {M = Ping} p)) [
    | inl e ↦
        rw (e, handle_message)
          (Does-nothing (lookup d w.state.disco_to_node) (some ping ≡ some call_me_maybe) src now w)
    | inr (m, e) ↦
        rw (e, handle_message) (handle_ping-Does (some ping ≡ some call_me_maybe) src d m w)
  ]
  handle_message-Does src d p (some pong) w = elim (Option-cases (as_msg {M = Pong} p)) [
    | inl e ↦
        rw (e, handle_message)
          (Does-nothing (lookup d w.state.disco_to_node) (some pong ≡ some call_me_maybe) src now w)
    | inr (m, e) ↦
        rw (e, handle_message) (handle_pong-Does (some pong ≡ some call_me_maybe) src d m w)
  ]
  handle_message-Does src d p (some call_me_maybe) w =
      elim (Option-cases (as_msg {M = CallMeMaybe} p)) [
        | inl e ↦
            rw (e, handle_message)
              (Does-nothing (lookup d w.state.disco_to_node)
                (some call_me_maybe ≡ some call_me_maybe) src now w)
        | inr (m, e) ↦
            rw (e, handle_message)
              (handle_call_me_maybe-Does (some call_me_maybe ≡ some call_me_maybe) src d m w refl)
      ]
  handle_message-Does src d p none w =
      Does-nothing (lookup d w.state.disco_to_node) (none ≡ some call_me_maybe) src now w
  handle_message-Does src d p (some t) w =
      Does-nothing (lookup d w.state.disco_to_node) (some t ≡ some call_me_maybe) src now w
