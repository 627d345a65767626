-- ===== src/Magic/Received.antt =====
-- What a received datagram can change: `handle_recv` by what it leaves alone, and who is answered.
use tailscale_vita.Prelude.{
  ℕ, ◌≡◌, refl, sym, subst, ◌⊎◌, inl, inr, List, Option, none, some, Result, ok, err, Option-cases,
  Bool-cases, Result-cases, none-some, lookup, list_eq, nat_eq,
}
use tailscale_vita.Wg.Peer.{Key, SocketAddr}
use tailscale_vita.Disco.Message.{MessageType, call_me_maybe}
use tailscale_vita.Disco.Packet.{Packet, Error, is_disco_message, ty}
use tailscale_vita.Magic.State.{MagicState}
use tailscale_vita.Magic.Handle.{
  Env, World, handle_message, handle_disco, handle_stun_response, handle_recv,
}
use tailscale_vita.Magic.Wire.{open_disco}
use tailscale_vita.Magic.Stun.{tx_id_from, looks_like_stun}
use tailscale_vita.Magic.Touched.{path_in, known, Frame-refl}
use tailscale_vita.Magic.Confined.{Answers, Does, Does-nothing, handle_message-Does}

-- What a datagram opens as: the node that its sender stands for, and its type.
abbrev sender : Result Error (Key × Packet) → MagicState → Option Key
sender (err e) s = none
sender (ok (d, p)) s = lookup d s.disco_to_node

abbrev kind : Result Error (Key × Packet) → Option MessageType
kind (err e) = none
kind (ok (d, p)) = ty p

module _ (env : Env) (now : ℕ) (src : SocketAddr) (bytes : List ℕ) (w : World) where
  abbrev handled : Result Error (Key × Packet) → World
  handled (err e) = w
  handled (ok (d, p)) = handle_message env now src d p (ty p) w

  handled-Does :
      (r : Result Error (Key × Packet))
      → Does (sender r w.state) (kind r ≡ some call_me_maybe) src now w (handled r)
  handled-Does (err e) = Does-nothing none (none ≡ some call_me_maybe) src now w
  handled-Does (ok (d, p)) = handle_message-Does env now src d p (ty p) w

  handle_disco-handled :
      handle_disco env now src bytes w ≡ handled (open_disco env.bx env.our_disco_priv bytes)
  unfolding handle_disco
  handle_disco-handled = elim (Result-cases (open_disco env.bx env.our_disco_priv bytes)) [
    | inr (e, opened) ↦ rw (opened, handle_disco) refl
    | inl ((d, p), opened) ↦ rw (opened, handle_disco) refl
  ]

  handle_stun_response-Does :
      (node : Option Key) (wide : Type 0)
      → Does node wide src now w (handle_stun_response now bytes w)
  unfolding handle_stun_response
  handle_stun_response-Does node wide = elim (Option-cases (tx_id_from bytes)) [
    | inl e ↦ rw (e, handle_stun_response) (Does-nothing node wide src now w)
    | inr (tx_id, e) ↦ elim (Option-cases (lookup tx_id w.state.stun_outstanding)) [
      | inl e' ↦ rw (e, handle_stun_response) (rw e' (Does-nothing node wide src now w))
      | inr (x, e') ↦
          rw (e, handle_stun_response)
            (rw e'
              (Frame-refl node wide src w.state, inr (inl (tx_id, x, _, e', refl, refl, refl))))
    ]
  ]

  handle_recv-Does :
      Does
        (sender (open_disco env.bx env.our_disco_priv bytes) w.state)
        (kind (open_disco env.bx env.our_disco_priv bytes) ≡ some call_me_maybe)
        src
        now
        w
        (handle_recv env now src bytes w)
  unfolding handle_recv
  handle_recv-Does =
      let r = open_disco env.bx env.our_disco_priv bytes in
      elim (Bool-cases (looks_like_stun bytes)) [
        | inl stun ↦
            rw (stun, handle_recv)
              (handle_stun_response-Does (sender r w.state) (kind r ≡ some call_me_maybe))
        | inr other ↦ elim (Bool-cases (is_disco_message bytes)) [
          | inl disco ↦
              rw (other, handle_recv)
                (rw disco (
                  subst (Does (sender r w.state) (kind r ≡ some call_me_maybe) src now w)
                    (sym handle_disco-handled) (handled-Does r)))
          | inr wg ↦
              rw (other, handle_recv)
                (rw wg (Does-nothing (sender r w.state) (kind r ≡ some call_me_maybe) src now w))
        ]
      ]

  -- Whatever datagram the worker receives, from whomever. A node that its sender's Disco key does
  -- not stand for, if it opens at all, stays as it is; a path of any node stays as it is, unless
  -- the sender stands for the node, and the path is to the address that the datagram came from or
  -- the datagram is a CallMeMaybe; no node comes or goes; the table of Disco keys, our own
  -- endpoints, the CallMeMaybe messages that wait and the times of those sent stay. And at most
  -- one waiter is answered: one for a STUN response, or one for a pong, which is told the address
  -- that it pinged and the time since; who is answered waits no longer, and all others go on
  -- waiting.
  pub handle_recv-Answers :
      (other n node : Key) (a : SocketAddr)
      → ((d : Key) (p : Packet)
          → open_disco env.bx env.our_disco_priv bytes ≡ ok (d, p)
          → lookup d w.state.disco_to_node ≡ some other
          → ⊥)
      → ((d : Key) (p : Packet)
          → open_disco env.bx env.our_disco_priv bytes ≡ ok (d, p)
          → lookup d w.state.disco_to_node ≡ some n
          → (a ≡ src) ⊎ (ty p ≡ some call_me_maybe)
          → ⊥)
      → (lookup other (handle_recv env now src bytes w).state.peers ≡ lookup other w.state.peers)
        × (path_in a (lookup n (handle_recv env now src bytes w).state.peers)
            ≡ path_in a (lookup n w.state.peers))
        × (known (lookup node (handle_recv env now src bytes w).state.peers)
            ≡ known (lookup node w.state.peers))
        × ((handle_recv env now src bytes w).state.disco_to_node ≡ w.state.disco_to_node)
        × ((handle_recv env now src bytes w).state.local_endpoints ≡ w.state.local_endpoints)
        × ((handle_recv env now src bytes w).state.last_cmm_sent_at ≡ w.state.last_cmm_sent_at)
        × ((handle_recv env now src bytes w).state.cmm_pending ≡ w.state.cmm_pending)
        × Answers now w (handle_recv env now src bytes w)
  handle_recv-Answers other n node a foreign untouched =
      let r = open_disco env.bx env.our_disco_priv bytes in
      let ((nodes, paths, stays, disco, local, sent, pending), answers) = handle_recv-Does in
      (
        nodes other (not_sender r foreign),
        paths n a (not_touched r untouched),
        stays node,
        disco,
        local,
        sent,
        pending,
        answers,
      )
    where
      not_sender :
          (r : Result Error (Key × Packet))
          → ((d : Key) (p : Packet)
              → r ≡ ok (d, p)
              → lookup d w.state.disco_to_node ≡ some other
              → ⊥)
          → sender r w.state ≡ some other
          → ⊥
      not_sender (err e) h is = none-some is
      not_sender (ok (d, p)) h is = h d p refl is

      not_touched :
          (r : Result Error (Key × Packet))
          → ((d : Key) (p : Packet)
              → r ≡ ok (d, p)
              → lookup d w.state.disco_to_node ≡ some n
              → (a ≡ src) ⊎ (ty p ≡ some call_me_maybe)
              → ⊥)
          → (sender r w.state ≡ some n) × ((a ≡ src) ⊎ (kind r ≡ some call_me_maybe))
          → ⊥
      not_touched (err e) h (is, _) = none-some is
      not_touched (ok (d, p)) h (is, which) = h d p refl is which
