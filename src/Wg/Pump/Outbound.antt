-- ===== src/Wg/Pump/Outbound.antt =====
-- pump.rs: `pick_addr`, `handle_outbound`, `tick_timers` and the body of `run`.
use tailscale_vita.Prelude.{
  ℕ, ◌+◌, ◌-◌, ◌%◌, ◌^◌, List, [], ◌∷◌, ◌++◌, map, length, Option, none, some, leb, if◌then◌else◌,
}
use mathlib.Core.Option
use tailscale_vita.Wg.Peer.{Key, Peer, Cell, SocketAddr, TransportAddr, udp, auth_src_fresh}
use tailscale_vita.Wg.Indices.Dispatch.{peer_for_ip, parse_ipv4_dst}
use tailscale_vita.Wg.Engine.State.{update_cell}
use tailscale_vita.Wg.Pump.Tunn.{Boringtun, done, tunnel_v6, network, tunnel_v4, call_tunn}
use tailscale_vita.Wg.Pump.Inbound.{World, handle_inbound}

-- `DirectPathHint::alive_endpoint`, as it answers now.
abbrev pub Hint : Type 0
Hint = Key → Option SocketAddr

-- With no Disco path the fallback address serves.
unfoldable pub pick_hinted : Option SocketAddr → Option TransportAddr → Option TransportAddr
pick_hinted (some addr) fallback = some (udp addr)
pick_hinted none fallback = fallback

module _ {T : Type 0} where
  unfoldable pub pick_addr : (now : ℕ) → Option Hint → Peer → Cell T → Option TransportAddr
  unfolding pick_hinted
  pick_addr now hint peer c = elim (auth_src_fresh now c) [
    | some auth ↦ some auth
    | none ↦ elim hint [
      | some h ↦ pick_hinted (h peer.pubkey) c.transport_addr
      | none ↦ c.transport_addr
    ]
  ]

  -- `tx_bytes += plaintext.len()`; release builds wrap.
  unfoldable pub count_tx : ℕ → Cell T → Cell T
  count_tx len c =
      let s = c.stats in record c { stats = record s { tx_bytes = (s.tx_bytes + len) % 2 ^ 64 } }

  abbrev pub send_outbound : TransportAddr → List ℕ → World T → World T
  send_outbound addr bytes w = record w { sent = w.sent ++ (addr, bytes) ∷ [] }

module _ {T : Type 0} (bt : Boringtun T) (now : ℕ) (hint : Option Hint) where
  -- `none` is the `unreachable!()` behind `encapsulate`.
  unfoldable pub encapsulate_to : Peer → TransportAddr → List ℕ → World T → Option (World T)
  encapsulate_to peer addr plaintext w =
      let (r, e) = call_tunn peer (bt.encapsulate plaintext) w.engine in
      elim r [
        | network bytes ↦
            let e' = update_cell peer (count_tx (length plaintext)) e in
            some (send_outbound addr bytes (record w { engine = e' }))
        | done ↦ some (record w { engine = e })
        | tunnel_v4 b ↦ none
        | tunnel_v6 ↦ none
      ]

  unfoldable pub outbound_to : Peer → List ℕ → World T → Option (World T)
  outbound_to peer plaintext w = elim (pick_addr now hint peer (w.engine.cells peer.our_index)) [
    | none ↦ some w
    | some addr ↦ encapsulate_to peer addr plaintext w
  ]

  unfoldable pub handle_outbound : List ℕ → World T → Option (World T)
  handle_outbound plaintext w = elim (parse_ipv4_dst plaintext) [
    | none ↦ some w
    | some dst ↦ elim (peer_for_ip w.engine.indices dst) [
      | none ↦ some w
      | some peer ↦ outbound_to peer plaintext w
    ]
  ]

  unfoldable pub tick_at : Peer → TransportAddr → World T → World T
  tick_at peer addr w =
      let (r, e) = call_tunn peer bt.update_timers w.engine in
      elim r [
        | network bytes ↦ send_outbound addr bytes (record w { engine = e })
        | _ ↦ record w { engine = e }
      ]

  -- A peer that was never heard from is skipped.
  unfoldable pub tick_peer : Peer → World T → World T
  tick_peer peer w =
      let c = w.engine.cells peer.our_index in
      elim c.stats.last_rx [
        | none ↦ w
        | some at ↦ elim (pick_addr now hint peer c) [ none ↦ w | some addr ↦ tick_at peer addr w ]
      ]

  unfoldable pub tick_each : List Peer → World T → World T
  tick_each [] w = w
  tick_each (p ∷ ps) w = tick_each ps (tick_peer p w)

  unfoldable pub tick_timers : World T → World T
  tick_timers w = tick_each (map (λ entry. entry.1) w.engine.indices.by_pubkey) w

  unfoldable pub outbound_all : List (List ℕ) → World T → Option (World T)
  outbound_all [] w = some w
  outbound_all (p ∷ ps) w = Option.bind (handle_outbound p w) (outbound_all ps)

-- `TIMER_TICK`, in milliseconds.
abbrev pub timer_tick : ℕ
timer_tick = 250

-- One round of `run`: what `recv_with_timeout` gave, what `tun_tx_q` holds, and the time of the
-- last tick. The clock stands still during a round.
module _ {T : Type 0} (bt : Boringtun T) (fuel now : ℕ) (hint : Option Hint) where
  unfoldable pub receive : Option (TransportAddr × List ℕ) → World T → Option (World T)
  receive none w = some w
  receive (some (src, datagram)) w = handle_inbound bt fuel now src datagram w

  unfoldable pub tick : (last_tick : ℕ) → World T → ℕ × World T
  tick last_tick w =
      if leb timer_tick (now - last_tick) then (now, tick_timers bt now hint w) else (last_tick, w)

  unfoldable pub run_round :
      Option (TransportAddr × List ℕ)
      → List (List ℕ)
      → (last_tick : ℕ) → World T
      → Option (ℕ × World T)
  run_round received tun_tx last_tick w =
      Option.bind (receive received w)
        λ w'. Option.map (tick last_tick) (outbound_all bt now hint tun_tx w')
