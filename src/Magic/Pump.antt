-- ===== src/Magic/Pump.antt =====
-- ts-magicsock/src/lib.rs: the periodic pings, the CallMeMaybe messages that are queued for DERP,
-- and the probes that a caller waits for.
use tailscale_vita.Prelude.{
  ℕ, ◌+◌, ◌-◌, Bool, true, false, not, List, [], ◌∷◌, ◌++◌, map, take, Option, none, some, leb,
  Result, ok, err, if◌then◌else◌, is_empty, any, filter, filter_map, for_each, min_by_key, lookup,
  insert, remove, nat_eq, list_eq,
}
use tailscale_vita.Wg.Peer.{Key, SocketAddr}
use tailscale_vita.Magic.State.{
  addr_eq, MagicError, io, disco, addr_not_available, send_failed, unknown_peer, no_endpoints,
  ping_timeout, heartbeat_interval, ping_interval, cmm_trigger_after, cmm_rate_limit,
  cmm_max_endpoints, within, PathState, alive, PeerState, MagicState,
}
use tailscale_vita.Magic.Stun.{encode_binding_request}
use tailscale_vita.Magic.Wire.{build_ping, build_call_me_maybe}
use tailscale_vita.Magic.Handle.{Env, World, Reflected, for_addr, ping_one}

unfoldable pub path_needs_ping : Option PathState → (now : ℕ) → Bool
path_needs_ping none now = true
path_needs_ping (some p) now =
    let interval = if alive now p then heartbeat_interval else ping_interval in
    elim p.last_ping_at [ none ↦ true | some t ↦ leb interval (now - t) ]

abbrev pub Target : Type 0
Target = Key × Key × SocketAddr

-- The addresses of one peer that are due.
unfoldable pub due : (now : ℕ) → PeerState → List SocketAddr
due now peer = filter (λ addr. path_needs_ping (lookup addr peer.paths) now) peer.endpoints

unfoldable pub to_ping : (now : ℕ) → List (Key × PeerState) → List Target
to_ping now [] = []
to_ping now ((node_pub, peer) ∷ rest) =
    map (λ addr. (node_pub, peer.disco_pub, addr)) (due now peer) ++ to_ping now rest

-- The four tests before a CallMeMaybe to a peer is due.
unfoldable pub needs_cmm : (now : ℕ) → (last_cmm_sent_at : Option ℕ) → PeerState → Bool
needs_cmm now last_cmm_sent_at peer =
    let pinged = filter_map (λ (addr, p). p.last_ping_at) peer.paths in
    if is_empty peer.endpoints
    then false
    else if any (λ (addr, p). alive now p) peer.paths
    then false
    else elim (min_by_key (λ t. t) pinged) [
      | none ↦ false
      | some earliest ↦
          if not (leb cmm_trigger_after (now - earliest))
          then false
          else not (within cmm_rate_limit now last_cmm_sent_at)
    ]

unfoldable pub to_cmm : (now : ℕ) → List (Key × ℕ) → List (Key × PeerState) → List (Key × Key)
to_cmm now sent_at [] = []
to_cmm now sent_at ((node_pub, peer) ∷ rest) =
    let later = to_cmm now sent_at rest in
    if needs_cmm now (lookup node_pub sent_at) peer
    then (node_pub, peer.disco_pub) ∷ later
    else later

-- `ping_now` up to its wait: an alive path, or the first endpoint. `iter` is the order in which the
-- hash map of paths gives its entries.
unfoldable pub ping_now_target :
    (iter : List (SocketAddr × PathState) → List (SocketAddr × PathState))
    → (now : ℕ) → Key
    → MagicState
    → Result MagicError (SocketAddr × Key)
ping_now_target iter now node_pub s = elim (lookup node_pub s.peers) [
  | none ↦ err unknown_peer
  | some peer ↦ elim (filter (λ (addr, st). alive now st) (iter peer.paths)) [
    | (addr, st) ∷ more ↦ ok (addr, peer.disco_pub)
    | [] ↦ elim peer.endpoints [ addr ∷ more ↦ ok (addr, peer.disco_pub) | [] ↦ err no_endpoints ]
  ]
]

module _ (env : Env) where
  unfoldable pub queue_cmm : (now : ℕ) → List SocketAddr → Key × Key → World → World
  queue_cmm now ep_slice (node_pub, peer_disco) w =
      let drawn = record w { draws = w.draws + 1 } in
      elim (build_call_me_maybe env.bx env.our_disco_priv peer_disco ep_slice
        (env.fill_bytes w.draws 24)) [
          | err e ↦ drawn
          | ok bytes ↦ record drawn {
            state = record w.state {
              last_cmm_sent_at = insert node_pub now w.state.last_cmm_sent_at;
              cmm_pending = w.state.cmm_pending ++ (node_pub, bytes) ∷ [];
            };
          }
        ]

  unfoldable pub cmm_pump : (now : ℕ) → World → World
  cmm_pump now w =
      if is_empty w.state.local_endpoints
      then w
      else for_each (queue_cmm now (take cmm_max_endpoints w.state.local_endpoints))
          (to_cmm now w.state.last_cmm_sent_at w.state.peers) w

  unfoldable pub ping_target : (now : ℕ) → Target → World → World
  ping_target now (node_pub, peer_disco, addr) w = ping_one env now node_pub peer_disco addr w

  unfoldable pub ping_pump : (now : ℕ) → World → World
  ping_pump now w = cmm_pump now (for_each (ping_target now) (to_ping now w.state.peers) w)

  -- `stun_probe` registers before it sends, and takes the entry out again if it cannot send.
  unfoldable pub stun_probe :
      (now result_tx : ℕ) → SocketAddr → World → Result MagicError Unit × World
  stun_probe now result_tx target w =
      let tx_id = env.fill_bytes w.draws 12 in
      let req = encode_binding_request tx_id in
      let registered =
        insert tx_id (record { sent_at = now; result_tx = result_tx }) w.state.stun_outstanding in
      let undone = record w {
        draws = w.draws + 1;
        state = record w.state { stun_outstanding = remove tx_id registered };
      } in
      if not (for_addr env target)
      then (err (io addr_not_available), undone)
      else if not (env.accepts target req)
      then (err (io send_failed), undone)
      else (
        ok tt,
        record w {
          draws = w.draws + 1;
          sent = w.sent ++ (target, req) ∷ [];
          state = record w.state { stun_outstanding = registered };
        },
      )

  unfoldable pub ping_now_send :
      (now result_tx : ℕ)
      → SocketAddr
      → (peer_disco : Key) → World
      → Result MagicError (List ℕ) × World
  ping_now_send now result_tx target peer_disco w =
      let tx_id = env.fill_bytes w.draws 12 in
      let registered =
        insert tx_id (record { sent_at = now; target = target; result_tx = result_tx })
          w.state.ping_outstanding in
      let undone = record w.state { ping_outstanding = remove tx_id registered } in
      if not (for_addr env target)
      then (err (io addr_not_available), record w { draws = w.draws + 1; state = undone })
      else elim (build_ping env.bx env.our_disco_priv env.our_node_pub peer_disco tx_id
          (env.fill_bytes (w.draws + 1) 24)) [
            | err e ↦ (err (disco e), record w { draws = w.draws + 2; state = undone })
            | ok bytes ↦
                if env.accepts target bytes
                then (
                  ok tx_id,
                  record w {
                    draws = w.draws + 2;
                    sent = w.sent ++ (target, bytes) ∷ [];
                    state = record w.state { ping_outstanding = registered };
                  },
                )
                else (err (io send_failed), record w { draws = w.draws + 2; state = undone })
          ]

  unfoldable pub ping_now :
      (iter : List (SocketAddr × PathState) → List (SocketAddr × PathState))
      → (now result_tx : ℕ) → Key
      → World
      → Result MagicError (List ℕ) × World
  ping_now iter now result_tx node_pub w = elim (ping_now_target iter now node_pub w.state) [
    | err e ↦ (err e, w)
    | ok (target, peer_disco) ↦ ping_now_send now result_tx target peer_disco w
  ]

-- The wait of `ping_now`: `answer` is what `recv_timeout` returned.
unfoldable pub ping_now_wait :
    (tx_id : List ℕ) → (answer : Option Reflected) → World → Reflected × World
ping_now_wait tx_id (some res) w = (res, w)
ping_now_wait tx_id none w = (
  err ping_timeout,
  record w { state = record w.state { ping_outstanding = remove tx_id w.state.ping_outstanding } },
)
