-- ===== src/Magic/Handle.antt =====
-- ts-magicsock/src/lib.rs: what the receive worker does with a datagram, and the frames from DERP.
use tailscale_vita.Prelude.{
  ℕ, ◌+◌, ◌-◌, Bool, true, not, List, [], ◌∷◌, ◌++◌, map, length, Option, none, some, ltb, Result,
  ok, err, if◌then◌else◌, ◌==◌, nat_eq, list_eq, for_each, contains, lookup, insert, remove,
}
use tailscale_vita.Wg.Peer.{Key, SocketAddr, v4, v6}
use tailscale_vita.Chan.State.{Shared, try_send}
use tailscale_vita.Disco.Endpoint.{socket_addr}
use tailscale_vita.Disco.Message.{
  MessageType, Ping, Pong, CallMeMaybe, ping_message, pong_message, call_me_maybe_message, ping,
  pong, call_me_maybe,
}
use tailscale_vita.Disco.Packet.{SalsaBox, Packet, as_msg, ty, is_disco_message}
use tailscale_vita.Magic.State.{
  addr_eq, MagicError, stun_parse_failed, new_path, path_or_new, PeerState, MagicState,
  max_peer_paths, or_insert,
}
use tailscale_vita.Magic.Stun.{looks_like_stun, tx_id_from, parse_binding_response}
use tailscale_vita.Magic.Wire.{build_ping, build_pong, open_disco}

-- Our keys, the operating system's random bytes by the number of earlier draws, and what the
-- sockets answer: whether there is one for IPv6, and whether `send_to` succeeds.
pub record Env : Type 0 where
  pub bx : SalsaBox
  pub our_disco_priv : List ℕ
  pub our_node_pub : List ℕ
  pub fill_bytes : (draw len : ℕ) → List ℕ
  pub has_v6 : Bool
  pub accepts : SocketAddr → List ℕ → Bool

abbrev pub Reflected : Type 0
Reflected = Result MagicError (SocketAddr × ℕ)

-- The state, the draws so far, the datagrams that the sockets took, the channel to wg-engine, and
-- what was sent into result channels.
pub record World : Type 0 where
  pub state : MagicState
  pub draws : ℕ
  pub sent : List (SocketAddr × List ℕ)
  pub non_disco : Shared (SocketAddr × List ℕ)
  pub results : List (ℕ × Reflected)

-- `Sockets::for_addr` finds a socket.
abbrev pub for_addr : Env → SocketAddr → Bool
for_addr env (v4 ip port) = true
for_addr env (v6 ip port flowinfo scope_id) = env.has_v6

abbrev pub update_peer : (PeerState → PeerState) → Key → MagicState → MagicState
update_peer f node_pub s = elim (lookup node_pub s.peers) [
  | none ↦ s
  | some peer ↦ record s { peers = insert node_pub (f peer) s.peers }
]

unfoldable pub handle_stun_response : (now : ℕ) → List ℕ → World → World
handle_stun_response now bytes w = elim (tx_id_from bytes) [
  | none ↦ w
  | some tx_id ↦ elim (lookup tx_id w.state.stun_outstanding) [
    | none ↦ w
    | some inflight ↦
        let answer : Reflected = (elim (parse_binding_response bytes) [
          | some reflected ↦ ok (reflected, now - inflight.sent_at)
          | none ↦ err stun_parse_failed
        ]) in
        record w {
          state = record w.state { stun_outstanding = remove tx_id w.state.stun_outstanding };
          results = w.results ++ (inflight.result_tx, answer) ∷ [];
        }
  ]
]

-- A path's `last_src_ping_at`, of a known path or one that is learned.
unfoldable pub learn_source : (now : ℕ) → SocketAddr → PeerState → PeerState
learn_source now src peer = elim (lookup src peer.paths) [
  | some path ↦ record peer {
    paths = insert src (record path { last_src_ping_at = some now }) peer.paths;
  }
  | none ↦
      if ltb (length peer.paths) max_peer_paths
      then (record peer {
        endpoints =
            if contains peer.endpoints src then peer.endpoints else peer.endpoints ++ src ∷ [];
        paths = insert src (record new_path { last_src_ping_at = some now }) peer.paths;
      })
      else peer
]

-- A pong on a path whose last ping it answers.
unfoldable pub accept_pong : (now : ℕ) → (tx_id : List ℕ) → SocketAddr → PeerState → PeerState
accept_pong now tx_id src peer = elim (lookup src peer.paths) [
  | none ↦ peer
  | some path ↦ elim path.outstanding_tx_id [
    | none ↦ peer
    | some waiting ↦
        if waiting == tx_id
        then (record peer {
          paths =
              insert src
                (record path {
                  last_pong_at = some now;
                  rtt = some (elim path.last_ping_at [ some t ↦ now - t | none ↦ 0 ]);
                  outstanding_tx_id = none;
                })
                peer.paths;
        })
        else peer
  ]
]

unfoldable pub record_ping : (now : ℕ) → (tx_id : List ℕ) → SocketAddr → PeerState → PeerState
record_ping now tx_id addr peer = record peer {
  paths =
      insert addr
        (record (path_or_new (lookup addr peer.paths)) {
          last_ping_at = some now;
          outstanding_tx_id = some tx_id;
        })
        peer.paths;
}

abbrev pub add_endpoint : SocketAddr → PeerState → PeerState
add_endpoint ep peer = record peer {
  endpoints = if contains peer.endpoints ep then peer.endpoints else peer.endpoints ++ ep ∷ [];
  paths = or_insert ep peer.paths;
}

unfoldable pub merge_endpoints : List SocketAddr → PeerState → PeerState
merge_endpoints advertised peer = for_each add_endpoint advertised peer

-- `maybe_node` is the node of the sender's key, if there is one.
unfoldable pub learned : (now : ℕ) → SocketAddr → (maybe_node : Option Key) → World → World
learned now src none w = w
learned now src (some node_pub) w = record w {
  state = update_peer (learn_source now src) node_pub w.state;
}

-- A `ping_now` that waits for this pong gets its result.
unfoldable pub answer_waiter : (now : ℕ) → (tx_id : List ℕ) → World → World
answer_waiter now tx_id w = elim (lookup tx_id w.state.ping_outstanding) [
  | none ↦ w
  | some inflight ↦ record w {
    state = record w.state { ping_outstanding = remove tx_id w.state.ping_outstanding };
    results = w.results ++ (inflight.result_tx, ok (inflight.target, now - inflight.sent_at)) ∷ [];
  }
]

module _ (env : Env) where
  -- `socket.send_to(&buf, addr)`
  abbrev pub transmit : SocketAddr → List ℕ → World → World
  transmit addr bytes w =
      if env.accepts addr bytes then record w { sent = w.sent ++ (addr, bytes) ∷ [] } else w

  -- `send_ping`, and the recording of the ping that both callers do when it succeeds.
  unfoldable pub ping_one : (now : ℕ) → (node_pub peer_disco : Key) → SocketAddr → World → World
  ping_one now node_pub peer_disco addr w =
      let tx_id = env.fill_bytes w.draws 12 in
      let nonce = env.fill_bytes (w.draws + 1) 24 in
      let drawn = record w { draws = w.draws + 2 } in
      if not (for_addr env addr)
      then w
      else elim (build_ping env.bx env.our_disco_priv env.our_node_pub peer_disco tx_id nonce) [
        | err e ↦ drawn
        | ok bytes ↦
            if env.accepts addr bytes
            then (record drawn {
              sent = w.sent ++ (addr, bytes) ∷ [];
              state = update_peer (record_ping now tx_id addr) node_pub w.state;
            })
            else drawn
      ]

  unfoldable pub send_pong : (peer_disco : Key) → SocketAddr → (tx_id : List ℕ) → World → World
  send_pong peer_disco src tx_id w =
      let drawn = record w { draws = w.draws + 1 } in
      elim (build_pong env.bx env.our_disco_priv peer_disco src tx_id (env.fill_bytes w.draws 24)) [
        | err e ↦ drawn
        | ok bytes ↦ transmit src bytes drawn
      ]

  unfoldable pub handle_ping : (now : ℕ) → SocketAddr → (sender_pub : Key) → Ping → World → World
  handle_ping now src sender_pub m w =
      send_pong sender_pub src m.tx_id (learned now src (lookup sender_pub w.state.disco_to_node) w)

  unfoldable pub handle_pong : (now : ℕ) → SocketAddr → (sender_pub : Key) → Pong → World → World
  handle_pong now src sender_pub m w =
      let told = answer_waiter now m.tx_id w in
      elim (lookup sender_pub w.state.disco_to_node) [
        | none ↦ told
        | some node_pub ↦ record told {
          state = update_peer (accept_pong now m.tx_id src) node_pub told.state;
        }
      ]

  unfoldable pub handle_call_me_maybe : (now : ℕ) → (sender_pub : Key) → CallMeMaybe → World → World
  handle_call_me_maybe now sender_pub cmm w =
      let advertised = map socket_addr cmm.endpoints in
      elim (lookup sender_pub w.state.disco_to_node) [
        | none ↦ w
        | some node_pub ↦ elim (lookup node_pub w.state.peers) [
          | none ↦ w
          | some peer ↦ for_each (ping_one now node_pub peer.disco_pub) advertised (record w {
            state = record w.state {
              peers = insert node_pub (merge_endpoints advertised peer) w.state.peers;
            };
          })
        ]
      ]

  -- The `match` on the type of a decrypted packet.
  unfoldable pub handle_message :
      (now : ℕ)
      → SocketAddr
      → (sender_pub : Key) → (plaintext : Packet) → Option MessageType
      → World
      → World
  handle_message now src sender_pub plaintext (some ping) w = elim (as_msg {M = Ping} plaintext) [
    | none ↦ w
    | some m ↦ handle_ping now src sender_pub m w
  ]
  handle_message now src sender_pub plaintext (some pong) w = elim (as_msg {M = Pong} plaintext) [
    | none ↦ w
    | some m ↦ handle_pong now src sender_pub m w
  ]
  handle_message now src sender_pub plaintext (some call_me_maybe) w =
      elim (as_msg {M = CallMeMaybe} plaintext) [
        | none ↦ w
        | some m ↦ handle_call_me_maybe now sender_pub m w
      ]
  handle_message now src sender_pub plaintext _ w = w

  unfoldable pub handle_disco : (now : ℕ) → SocketAddr → List ℕ → World → World
  handle_disco now src bytes w = elim (open_disco env.bx env.our_disco_priv bytes) [
    | err e ↦ w
    | ok (sender_pub, plaintext) ↦ handle_message now src sender_pub plaintext (ty plaintext) w
  ]

  -- Only a CallMeMaybe is expected over DERP.
  unfoldable pub handle_message_from_derp :
      (now : ℕ) → (sender_pub : Key) → (plaintext : Packet) → Option MessageType → World → World
  handle_message_from_derp now sender_pub plaintext (some call_me_maybe) w =
      elim (as_msg {M = CallMeMaybe} plaintext) [
        | none ↦ w
        | some m ↦ handle_call_me_maybe now sender_pub m w
      ]
  handle_message_from_derp now sender_pub plaintext _ w = w

  unfoldable pub handle_disco_from_derp : (now : ℕ) → List ℕ → World → World
  handle_disco_from_derp now bytes w = elim (open_disco env.bx env.our_disco_priv bytes) [
    | err e ↦ w
    | ok (sender_pub, plaintext) ↦
        handle_message_from_derp now sender_pub plaintext (ty plaintext) w
  ]

  unfoldable pub handle_recv : (now : ℕ) → SocketAddr → List ℕ → World → World
  handle_recv now src bytes w =
      if looks_like_stun bytes
      then handle_stun_response now bytes w
      else if not (is_disco_message bytes)
      then record w { non_disco = (try_send (src, bytes) w.non_disco).1 }
      else handle_disco now src bytes w
