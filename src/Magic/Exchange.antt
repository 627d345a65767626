-- ===== src/Magic/Exchange.antt =====
-- A ping, the pong that answers it, and the path that they make alive.
use tailscale_vita.Prelude.{
  ℕ, ◌+◌, ◌-◌, ◌≡◌, refl, sym, ap, subst, ◌∙◌, true, inl, inr, List, [], ◌∷◌, ◌++◌, length, Option,
  none, some, ok, nat_eq, list_eq, beq_self, Option-cases, lookup, insert, lookup-insert_self,
  arith,
}
use tailscale_vita.Wg.Peer.{Key, SocketAddr}
use tailscale_vita.Disco.Endpoint.{from_socket_addr}
use tailscale_vita.Disco.Message.{Ping, Pong, ping_message, pong_message}
use tailscale_vita.Disco.Layout.{EndpointFits}
use tailscale_vita.Disco.RoundTrip.{Opens}
use tailscale_vita.Magic.State.{addr_eq, PathState, alive, path_or_new, PeerState, MagicState}
use tailscale_vita.Magic.Wire.{build_ping, build_pong}
use tailscale_vita.Magic.Update.{lookup-update_peer}
use tailscale_vita.Magic.WireTrip.{Reads, open_disco-build_ping, open_disco-build_pong}
use tailscale_vita.Magic.Handle.{
  Env, World, for_addr, update_peer, accept_pong, record_ping, ping_one, send_pong, handle_ping,
  handle_pong, answer_waiter, learned, handle_message, handle_disco,
}

module _ (env : Env) (secret : List ℕ) (now : ℕ) (src : SocketAddr) (bytes : List ℕ)
    (w : World) where
  handle_disco-Ping :
      (m : Ping)
      → Reads {M = Ping} env.bx secret env.our_disco_priv m bytes
      → handle_disco env now src bytes w ≡ handle_ping env now src (env.bx.public_key secret) m w
  unfolding handle_disco handle_message
  handle_disco-Ping m (d, (p, eq, t, a)) =
      rw (eq, handle_disco) (rw (t, handle_message) (rw a refl))

  handle_disco-Pong :
      (m : Pong)
      → Reads {M = Pong} env.bx secret env.our_disco_priv m bytes
      → handle_disco env now src bytes w ≡ handle_pong env now src (env.bx.public_key secret) m w
  unfolding handle_disco handle_message
  handle_disco-Pong m (d, (p, eq, t, a)) =
      rw (eq, handle_disco) (rw (t, handle_message) (rw a refl))

-- The sockets take every datagram, and the random source gives what it is asked for.
abbrev pub Works : Env → Type 0
Works env =
    ((addr : SocketAddr) (bytes : List ℕ) → env.accepts addr bytes ≡ true)
    × ((draw n : ℕ) → length (env.fill_bytes draw n) ≡ n)
    × (length env.our_node_pub ≡ 32)

-- The node of a Disco key, and what is known of it.
abbrev pub Knows : MagicState → (disco_pub node_pub : Key) → PeerState → Type 0
Knows s disco_pub node_pub peer =
    (lookup disco_pub s.disco_to_node ≡ some node_pub) × (lookup node_pub s.peers ≡ some peer)

-- A path to an address on which a pong came at `now`, `rtt` after the ping.
abbrev pub Proved : MagicState → (node_pub : Key) → SocketAddr → (now rtt : ℕ) → Type 0
Proved s node_pub addr now rtt =
    (peer : PeerState) × (path : PathState) × (lookup node_pub s.peers ≡ some peer)
    × (lookup addr peer.paths ≡ some path)
    × (alive now path ≡ true)
    × (path.rtt ≡ some rtt)

module _ (env : Env) (now : ℕ) (node_pub peer_disco : Key) (addr : SocketAddr) (w : World) where
  pub ping_one-sends :
      (bytes : List ℕ)
      → for_addr env addr ≡ true
      → env.accepts addr bytes ≡ true
      → build_ping env.bx env.our_disco_priv env.our_node_pub peer_disco
          (env.fill_bytes w.draws 12)
          (env.fill_bytes (w.draws + 1) 24)
        ≡ ok bytes
      → ping_one env now node_pub peer_disco addr w ≡ record w {
        draws = w.draws + 2;
        sent = w.sent ++ (addr, bytes) ∷ [];
        state = update_peer (record_ping now (env.fill_bytes w.draws 12) addr) node_pub w.state;
      }
  unfolding ping_one
  ping_one-sends bytes route takes built = rw (route, built, ping_one) (rw takes refl)

answer_waiter-peers :
    (now : ℕ) (tx_id : List ℕ) (w : World) → (answer_waiter now tx_id w).state.peers ≡ w.state.peers
unfolding answer_waiter
answer_waiter-peers now tx_id w = elim (Option-cases (lookup tx_id w.state.ping_outstanding)) [
  | inl e ↦ rw (e, answer_waiter) refl
  | inr (x, e) ↦ rw (e, answer_waiter) refl
]

accept_pong-waiting :
    (now : ℕ) (tx_id : List ℕ) (src : SocketAddr) (peer : PeerState) (path : PathState)
    → lookup src peer.paths ≡ some path
    → path.outstanding_tx_id ≡ some tx_id
    → accept_pong now tx_id src peer ≡ record peer {
      paths =
          insert src
            (record path {
              last_pong_at = some now;
              rtt = some (elim path.last_ping_at [ some t ↦ now - t | none ↦ 0 ]);
              outstanding_tx_id = none;
            })
            peer.paths;
    }
unfolding accept_pong
accept_pong-waiting now tx_id src peer path l o =
    rw (l, accept_pong) (rw o (rw (beq_self tx_id) refl))

handle_pong-Proved :
    (env : Env) (sent_at now : ℕ) (src : SocketAddr) (sender_pub node_pub : Key) (m : Pong)
    (w : World) (peer : PeerState) (path : PathState)
    → Knows w.state sender_pub node_pub peer
    → lookup src peer.paths ≡ some path
    → path.outstanding_tx_id ≡ some m.tx_id
    → path.last_ping_at ≡ some sent_at
    → Proved (handle_pong env now src sender_pub m w).state node_pub src now (now - sent_at)
unfolding handle_pong alive
handle_pong-Proved env sent_at now src sender_pub node_pub m w peer path (d, n) l o a =
    let told : World = answer_waiter now m.tx_id w in
    let known : lookup node_pub told.state.peers ≡ some peer =
      ap (lookup node_pub) (answer_waiter-peers now m.tx_id w) ∙ n in
    let done : PathState = record path {
      last_pong_at = some now;
      rtt = some (elim path.last_ping_at [ some t ↦ now - t | none ↦ 0 ]);
      outstanding_tx_id = none;
    } in
    (
      accept_pong now m.tx_id src peer,
      done,
      rw (d, handle_pong)
          (lookup-update_peer (accept_pong now m.tx_id src) node_pub told.state peer known),
      rw (accept_pong-waiting now m.tx_id src peer path l o)
          (lookup-insert_self src done peer.paths),
      ground arith,
      rw a refl,
    )

module _ (env : Env) (works : Works env) (w : World) where
  send_pong-sends :
      (peer_disco : Key) (src : SocketAddr) (tx_id bytes : List ℕ)
      → build_pong env.bx env.our_disco_priv peer_disco src tx_id (env.fill_bytes w.draws 24)
        ≡ ok bytes
      → (send_pong env peer_disco src tx_id w).sent ≡ w.sent ++ (src, bytes) ∷ []
  unfolding send_pong
  send_pong-sends peer_disco src tx_id bytes built =
      rw (built, send_pong) (rw (works.0 src bytes) refl)

-- Learning the source of a ping changes neither what is sent nor the draws.
learned-sent :
    (now : ℕ) (src : SocketAddr) (node : Option Key) (w : World)
    → ((learned now src node w).sent ≡ w.sent) × ((learned now src node w).draws ≡ w.draws)
unfolding learned
learned-sent now src none w = (refl, refl)
learned-sent now src (some n) w = (refl, refl)

-- A ping from any key is answered, to where it came from, with a pong of its transaction that
-- the owner of that key can read.
handle_disco-answers :
    (env : Env) (secret : List ℕ) (now : ℕ) (src : SocketAddr) (bytes : List ℕ) (w : World)
    (m : Ping)
    → Works env
    → Opens env.bx
    → Reads {M = Ping} env.bx secret env.our_disco_priv m bytes
    → length m.tx_id ≡ 12
    → EndpointFits (from_socket_addr src)
    → (pong_bytes : List ℕ) × ((handle_disco env now src bytes w).sent
        ≡ w.sent ++ (src, pong_bytes) ∷ [])
      × Reads {M = Pong} env.bx env.our_disco_priv secret
          (record { tx_id = m.tx_id; src = from_socket_addr src })
          pong_bytes
unfolding handle_ping
handle_disco-answers env secret now src bytes w m works opens reads t fits =
    let node : Option Key = lookup (env.bx.public_key secret) w.state.disco_to_node in
    let after : World = learned now src node w in
    let (pong_bytes, built, reads_pong) =
      open_disco-build_pong env.bx opens env.our_disco_priv secret (env.fill_bytes after.draws 24)
        (works.1 after.draws 24) src m.tx_id t fits in
    (
      pong_bytes,
      ap (λ w. w.sent) (handle_disco-Ping env secret now src bytes w m reads)
          ∙ send_pong-sends env works after (env.bx.public_key secret) src m.tx_id pong_bytes built
          ∙ ap (λ t. t ++ (src, pong_bytes) ∷ []) (learned-sent now src node w).0,
      reads_pong,
    )

module _ (a b : Env) (works_a : Works a) (works_b : Works b) (same : b.bx ≡ a.bx)
    (opens : Opens a.bx) where
  -- Take two nodes whose sockets and random bytes work and that use the same box. If `a` knows the
  -- node of `b`'s Disco key and pings it at an address, `b`, whatever it knows, answers that
  -- datagram with one datagram to the source it saw, and when `a` receives the answer from the
  -- address that it pinged, that path is alive, with the time since the ping as its round trip.
  pub handle_disco-Proved :
      (sent_at seen_at now : ℕ) (node_b : Key) (peer : PeerState) (addr_a addr_b : SocketAddr)
      (wa wb : World)
      → Knows wa.state (a.bx.public_key b.our_disco_priv) node_b peer
      → for_addr a addr_b ≡ true
      → EndpointFits (from_socket_addr addr_a)
      → (ping_bytes : List ℕ) × (pong_bytes : List ℕ) × ((ping_one a sent_at node_b
            (a.bx.public_key b.our_disco_priv)
            addr_b
            wa).sent
          ≡ wa.sent ++ (addr_b, ping_bytes) ∷ [])
        × ((handle_disco b seen_at addr_a ping_bytes wb).sent
            ≡ wb.sent ++ (addr_a, pong_bytes) ∷ [])
        × Proved
            (handle_disco a now addr_b pong_bytes
              (ping_one a sent_at node_b (a.bx.public_key b.our_disco_priv) addr_b wa)).state
            node_b
            addr_b
            now
            (now - sent_at)
  handle_disco-Proved sent_at seen_at now node_b peer addr_a addr_b wa wb (d, n) route fits =
      let tx_id : List ℕ = a.fill_bytes wa.draws 12 in
      let (ping_bytes, pinged, reads_ping) =
        open_disco-build_ping a.bx opens a.our_disco_priv b.our_disco_priv
          (a.fill_bytes (wa.draws + 1) 24) (works_a.1 (wa.draws + 1) 24) tx_id a.our_node_pub
          (works_a.1 wa.draws 12) works_a.2 in
      let sends =
        ping_one-sends a sent_at node_b (a.bx.public_key b.our_disco_priv) addr_b wa ping_bytes
          route (works_a.0 addr_b ping_bytes) pinged in
      let m : Ping = record { tx_id = tx_id; node_key = a.our_node_pub; padding = [] } in
      let (pong_bytes, answers, reads_pong) =
        handle_disco-answers b a.our_disco_priv seen_at addr_a ping_bytes wb m works_b
          (subst Opens (sym same) opens)
          (subst (λ bx. Reads {M = Ping} bx a.our_disco_priv b.our_disco_priv m ping_bytes)
            (sym same) reads_ping)
          (works_a.1 wa.draws 12) fits in
      let pong : Pong = record { tx_id = tx_id; src = from_socket_addr addr_a } in
      let reads : Reads {M = Pong} a.bx b.our_disco_priv a.our_disco_priv pong pong_bytes =
        subst (λ bx. Reads {M = Pong} bx b.our_disco_priv a.our_disco_priv pong pong_bytes) same
          reads_pong in
      let pinged_world : World =
        ping_one a sent_at node_b (a.bx.public_key b.our_disco_priv) addr_b wa in
      let path : PathState = record (path_or_new (lookup addr_b peer.paths)) {
        last_ping_at = some sent_at;
        outstanding_tx_id = some tx_id;
      } in
      (
        ping_bytes,
        pong_bytes,
        ap (λ w. w.sent) sends,
        answers,
        subst (λ w. Proved w.state node_b addr_b now (now - sent_at))
            (sym
              (handle_disco-Pong a b.our_disco_priv now addr_b pong_bytes pinged_world pong reads))
            (handle_pong-Proved a sent_at now addr_b (a.bx.public_key b.our_disco_priv) node_b pong
              pinged_world (record_ping sent_at tx_id addr_b peer) path
              (subst
                (λ w.
                  Knows w.state (a.bx.public_key b.our_disco_priv) node_b
                    (record_ping sent_at tx_id addr_b peer))
                (sym sends)
                (
                  rw (n, update_peer) d,
                  lookup-update_peer (record_ping sent_at tx_id addr_b) node_b wa.state peer n,
                ))
              (unfold record_ping in lookup-insert_self addr_b path peer.paths) refl refl),
      )
