-- ===== src/Magic/Sections.antt =====
-- What any thread does to the state while it holds the lock, and runs of such sections. Threads
-- interleave between sections, never inside one.
use tailscale_vita.Prelude.{
  ℕ, ◌+◌, ◌≡◌, refl, sym, subst, inl, inr, List, [], ◌∷◌, map, Option, none, some, Option-cases,
  Bool-cases, Result-cases, for_each, lookup, insert, list_eq, nat_eq, is_empty, take,
}
use tailscale_vita.Wg.Peer.{Key, SocketAddr}
use tailscale_vita.Disco.Endpoint.{socket_addr}
use tailscale_vita.Disco.Message.{
  MessageType, ping, pong, call_me_maybe, Ping, Pong, CallMeMaybe, ping_message, pong_message,
  call_me_maybe_message,
}
use tailscale_vita.Magic.State.{StunInflight, PingInflight, MagicState, upsert_peer, remove_peer}
use tailscale_vita.Magic.Handle.{
  Env, World, for_addr, update_peer, learn_source, accept_pong, record_ping, merge_endpoints,
  learned, answer_waiter, ping_one, send_pong, handle_ping, handle_pong, handle_call_me_maybe,
  handle_message, handle_message_from_derp, handle_disco, handle_disco_from_derp,
  handle_stun_response, handle_recv,
}
use tailscale_vita.Magic.Wire.{build_ping, build_pong, build_call_me_maybe, open_disco}
use tailscale_vita.Magic.Stun.{tx_id_from, looks_like_stun}
use tailscale_vita.Disco.Packet.{Packet, is_disco_message, ty, as_msg}
use tailscale_vita.Magic.Pump.{ping_target, queue_cmm, cmm_pump, ping_pump, to_ping, to_cmm}

pub data Section : MagicState → MagicState → Type 0 where
  upserts :
      {s : MagicState} (now : ℕ) (node_pub disco_pub : Key) (endpoints : List SocketAddr)
      → Section s (upsert_peer now node_pub disco_pub endpoints s)
  removes : {s : MagicState} (node_pub : Key) → Section s (remove_peer node_pub s)
  learns :
      {s : MagicState} (now : ℕ) (src : SocketAddr) (node_pub : Key)
      → Section s (update_peer (learn_source now src) node_pub s)
  takes_pong :
      {s : MagicState} (now : ℕ) (tx_id : List ℕ) (src : SocketAddr) (node_pub : Key)
      → Section s (update_peer (accept_pong now tx_id src) node_pub s)
  records :
      {s : MagicState} (now : ℕ) (tx_id : List ℕ) (addr : SocketAddr) (node_pub : Key)
      → Section s (update_peer (record_ping now tx_id addr) node_pub s)
  merges :
      {s : MagicState} (advertised : List SocketAddr) (node_pub : Key)
      → Section s (update_peer (merge_endpoints advertised) node_pub s)
  -- Sections that leave peers and keys alone.
  books :
      {s : MagicState} (stun : List (List ℕ × StunInflight)) (pings : List (List ℕ × PingInflight))
      (local : List SocketAddr) (sent_at : List (Key × ℕ)) (pending : List (Key × List ℕ))
      → Section s (record s {
        stun_outstanding = stun;
        ping_outstanding = pings;
        local_endpoints = local;
        last_cmm_sent_at = sent_at;
        cmm_pending = pending;
      })

pub data Sections : MagicState → MagicState → Type 0 where
  done : {s : MagicState} → Sections s s
  next : {s t u : MagicState} → Section s t → Sections t u → Sections s u

pub one : {s t : MagicState} → Section s t → Sections s t
one p = next p done

pub append : {s t u : MagicState} → Sections s t → Sections t u → Sections s u
append done q = q
append (next p ps) q = next p (append ps q)

-- `s` stays, or one section is run.
abbrev pub Runs : World → World → Type 0
Runs w w' = Sections w.state w'.state

same : {s t : MagicState} → s ≡ t → Sections s t
same {s} e = subst (Sections s) e done

module _ (env : Env) (now : ℕ) where
  ping_one-Runs : (n d : Key) (a : SocketAddr) (w : World) → Runs w (ping_one env now n d a w)
  unfolding ping_one
  ping_one-Runs n d a w = elim (Bool-cases (for_addr env a)) [
    | inr closed ↦ rw (closed, ping_one) done
    | inl route ↦
        elim (Result-cases (build_ping env.bx env.our_disco_priv env.our_node_pub d tx_id nonce)) [
          | inr (e, built) ↦ rw (route, ping_one) (rw built done)
          | inl (bytes, built) ↦ elim (Bool-cases (env.accepts a bytes)) [
            | inl takes ↦ rw (route, ping_one) (rw built (rw takes (one (records now tx_id a n))))
            | inr drops ↦ rw (route, ping_one) (rw built (rw drops done))
          ]
        ]
  ]
    where
      tx_id : List ℕ
      tx_id = env.fill_bytes w.draws 12

      nonce : List ℕ
      nonce = env.fill_bytes (w.draws + 1) 24

  for_each-Runs :
      {A : Type 0} (body : A → World → World) (each : (x : A) (w : World) → Runs w (body x w))
      (xs : List A) (w : World)
      → Runs w (for_each body xs w)
  unfolding for_each
  for_each-Runs body each [] w = done
  for_each-Runs body each (x ∷ xs) w = append (each x w) (for_each-Runs body each xs (body x w))

  answer_waiter-Runs : (tx_id : List ℕ) (w : World) → Runs w (answer_waiter now tx_id w)
  unfolding answer_waiter
  answer_waiter-Runs tx_id w = elim (Option-cases (lookup tx_id w.state.ping_outstanding)) [
    | inl e ↦ rw (e, answer_waiter) done
    | inr (x, e) ↦ rw (e, answer_waiter) (one (books _ _ _ _ _))
  ]

  pub send_pong-state :
      (d : Key) (src : SocketAddr) (tx_id : List ℕ) (w : World)
      → (send_pong env d src tx_id w).state ≡ w.state
  unfolding send_pong
  send_pong-state d src tx_id w =
      elim (Result-cases
        (build_pong env.bx env.our_disco_priv d src tx_id (env.fill_bytes w.draws 24))) [
          | inr (e, built) ↦ rw (built, send_pong) refl
          | inl (bytes, built) ↦ elim (Bool-cases (env.accepts src bytes)) [
            | inl takes ↦ rw (built, send_pong) (rw takes refl)
            | inr drops ↦ rw (built, send_pong) (rw drops refl)
          ]
        ]

  learned-Runs :
      (src : SocketAddr) (node : Option Key) (w : World) → Runs w (learned now src node w)
  unfolding learned
  learned-Runs src none w = done
  learned-Runs src (some n) w = one (learns now src n)

  handle_ping-Runs :
      (src : SocketAddr) (d : Key) (m : Ping) (w : World) → Runs w (handle_ping env now src d m w)
  unfolding handle_ping
  handle_ping-Runs src d m w = append (learned-Runs src (lookup d w.state.disco_to_node) w) (
      same
        (sym (send_pong-state d src m.tx_id (learned now src (lookup d w.state.disco_to_node) w))))

  handle_pong-Runs :
      (src : SocketAddr) (d : Key) (m : Pong) (w : World) → Runs w (handle_pong env now src d m w)
  unfolding handle_pong
  handle_pong-Runs src d m w = elim (Option-cases (lookup d w.state.disco_to_node)) [
    | inl e ↦ rw (e, handle_pong) (answer_waiter-Runs m.tx_id w)
    | inr (n, e) ↦
        rw (e, handle_pong)
          (append (answer_waiter-Runs m.tx_id w) (one (takes_pong now m.tx_id src n)))
  ]

  handle_call_me_maybe-Runs :
      (d : Key) (m : CallMeMaybe) (w : World) → Runs w (handle_call_me_maybe env now d m w)
  unfolding handle_call_me_maybe
  handle_call_me_maybe-Runs d m w = elim (Option-cases (lookup d w.state.disco_to_node)) [
    | inl e ↦ rw (e, handle_call_me_maybe) done
    | inr (n, e) ↦ elim (Option-cases (lookup n w.state.peers)) [
      | inl e' ↦ rw (e, handle_call_me_maybe) (rw e' done)
      | inr (p, e') ↦
          let advertised : List SocketAddr = map socket_addr m.endpoints in
          let merged : Section w.state
              (record w.state { peers = insert n (merge_endpoints advertised p) w.state.peers }) =
            rw (e', update_peer) at (merges {s = w.state} advertised n) in
          rw (e, handle_call_me_maybe)
            (rw e' (
              next merged (
                for_each-Runs (ping_one env now n p.disco_pub) (ping_one-Runs n p.disco_pub)
                  advertised _)))
    ]
  ]

  handle_message-Runs :
      (src : SocketAddr) (d : Key) (p : Packet) (t : Option MessageType) (w : World)
      → Runs w (handle_message env now src d p t w)
  unfolding handle_message
  handle_message-Runs src d p none w = done
  handle_message-Runs src d p (some ping) w = elim (Option-cases (as_msg {M = Ping} p)) [
    | inl e ↦ rw (e, handle_message) done
    | inr (m, e) ↦ rw (e, handle_message) (handle_ping-Runs src d m w)
  ]
  handle_message-Runs src d p (some pong) w = elim (Option-cases (as_msg {M = Pong} p)) [
    | inl e ↦ rw (e, handle_message) done
    | inr (m, e) ↦ rw (e, handle_message) (handle_pong-Runs src d m w)
  ]
  handle_message-Runs src d p (some call_me_maybe) w =
      elim (Option-cases (as_msg {M = CallMeMaybe} p)) [
        | inl e ↦ rw (e, handle_message) done
        | inr (m, e) ↦ rw (e, handle_message) (handle_call_me_maybe-Runs d m w)
      ]
  handle_message-Runs src d p (some _) w = done

  handle_message_from_derp-Runs :
      (d : Key) (p : Packet) (t : Option MessageType) (w : World)
      → Runs w (handle_message_from_derp env now d p t w)
  unfolding handle_message_from_derp
  handle_message_from_derp-Runs d p none w = done
  handle_message_from_derp-Runs d p (some call_me_maybe) w =
      elim (Option-cases (as_msg {M = CallMeMaybe} p)) [
        | inl e ↦ rw (e, handle_message_from_derp) done
        | inr (m, e) ↦ rw (e, handle_message_from_derp) (handle_call_me_maybe-Runs d m w)
      ]
  handle_message_from_derp-Runs d p (some _) w = done

  handle_disco-Runs :
      (src : SocketAddr) (bytes : List ℕ) (w : World) → Runs w (handle_disco env now src bytes w)
  unfolding handle_disco
  handle_disco-Runs src bytes w = elim (Result-cases (open_disco env.bx env.our_disco_priv bytes)) [
    | inr (e, opened) ↦ rw (opened, handle_disco) done
    | inl ((d, p), opened) ↦ rw (opened, handle_disco) (handle_message-Runs src d p (ty p) w)
  ]

  pub handle_disco_from_derp-Runs :
      (bytes : List ℕ) (w : World) → Runs w (handle_disco_from_derp env now bytes w)
  unfolding handle_disco_from_derp
  handle_disco_from_derp-Runs bytes w =
      elim (Result-cases (open_disco env.bx env.our_disco_priv bytes)) [
        | inr (e, opened) ↦ rw (opened, handle_disco_from_derp) done
        | inl ((d, p), opened) ↦
            rw (opened, handle_disco_from_derp) (handle_message_from_derp-Runs d p (ty p) w)
      ]

  handle_stun_response-Runs :
      (bytes : List ℕ) (w : World) → Runs w (handle_stun_response now bytes w)
  unfolding handle_stun_response
  handle_stun_response-Runs bytes w = elim (Option-cases (tx_id_from bytes)) [
    | inl e ↦ rw (e, handle_stun_response) done
    | inr (tx_id, e) ↦ elim (Option-cases (lookup tx_id w.state.stun_outstanding)) [
      | inl e' ↦ rw (e, handle_stun_response) (rw e' done)
      | inr (x, e') ↦ rw (e, handle_stun_response) (rw e' (one (books _ _ _ _ _)))
    ]
  ]

  -- Whatever datagram the worker receives, from whomever, what it does to the state is a run of
  -- the sections above, one after the other.
  handle_recv-Runs :
      (src : SocketAddr) (bytes : List ℕ) (w : World) → Runs w (handle_recv env now src bytes w)
  unfolding handle_recv
  handle_recv-Runs src bytes w = elim (Bool-cases (looks_like_stun bytes)) [
    | inl stun ↦ rw (stun, handle_recv) (handle_stun_response-Runs bytes w)
    | inr other ↦ elim (Bool-cases (is_disco_message bytes)) [
      | inl disco ↦ rw (other, handle_recv) (rw disco (handle_disco-Runs src bytes w))
      | inr wg ↦ rw (other, handle_recv) (rw wg done)
    ]
  ]

  queue_cmm-Runs :
      (eps : List SocketAddr) (t : Key × Key) (w : World) → Runs w (queue_cmm env now eps t w)
  unfolding queue_cmm
  queue_cmm-Runs eps (n, d) w =
      elim (Result-cases
        (build_call_me_maybe env.bx env.our_disco_priv d eps (env.fill_bytes w.draws 24))) [
          | inr (e, built) ↦ rw (built, queue_cmm) done
          | inl (bytes, built) ↦ rw (built, queue_cmm) (one (books _ _ _ _ _))
        ]

  cmm_pump-Runs : (w : World) → Runs w (cmm_pump env now w)
  unfolding cmm_pump
  cmm_pump-Runs w = elim (Bool-cases (is_empty w.state.local_endpoints)) [
    | inl none_set ↦ rw (none_set, cmm_pump) done
    | inr set ↦
        let eps : List SocketAddr = take 16 w.state.local_endpoints in
        rw (set, cmm_pump)
          (for_each-Runs (queue_cmm env now eps) (queue_cmm-Runs eps)
            (to_cmm now w.state.last_cmm_sent_at w.state.peers) w)
  ]

  pub ping_pump-Runs : (w : World) → Runs w (ping_pump env now w)
  unfolding ping_pump ping_target
  ping_pump-Runs w =
      append
        (for_each-Runs (ping_target env now) (λ (n, d, a) w. ping_one-Runs n d a w)
          (to_ping now w.state.peers) w)
        (cmm_pump-Runs (for_each (ping_target env now) (to_ping now w.state.peers) w))
