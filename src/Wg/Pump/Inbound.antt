-- ===== src/Wg/Pump/Inbound.antt =====
-- pump.rs: `handle_inbound`.
use tailscale_vita.Prelude.{
  ℕ, zero, suc, ◌+◌, ◌%◌, ◌^◌, Bool, true, false, not, List, [], ◌∷◌, ◌++◌, map, any, length,
  is_empty, Option, none, some, if◌then◌else◌, ◌||◌, ◌&&◌,
}
use mathlib.Core.Option
use tailscale_vita.Wg.Peer.{
  Peer, Cell, TransportAddr, udp, derp, contains, set_transport_addr, set_auth_src,
}
use tailscale_vita.Wg.Policy.Rules.{allows}
use tailscale_vita.Wg.Indices.Dispatch.{single_peer, broadcast, junk, route_inbound}
use tailscale_vita.Wg.Engine.State.{Engine, update_cell}
use tailscale_vita.Wg.Pump.Meta.{parse_ipv4_meta}
use tailscale_vita.Wg.Pump.Tunn.{Boringtun, Outcome, done, tunnel_v6, network, tunnel_v4, call_tunn}

-- What the pump works on. `sent` is every datagram handed to the transport, whose errors are only
-- logged; `notified` is the flag under `rx_notify`.
pub record World (T : Type 0) : Type 0 where
  pub engine : Engine T
  pub sent : List (TransportAddr × List ℕ)
  pub tun_rx : List (List ℕ)
  pub notified : Bool

-- The vectors `net_outputs` and `tun_outputs`.
pub record Outputs : Type 0 where
  pub net : List (List ℕ)
  pub tun : List (List ℕ)

abbrev pub is_derp : TransportAddr → Bool
is_derp (udp a) = false
is_derp (derp r k) = true

unfoldable pub collect : Outcome → Outputs → Outputs
collect done o = o
collect tunnel_v6 o = o
collect (network b) o = record o { net = o.net ++ b ∷ [] }
collect (tunnel_v4 b) o = record o { tun = o.tun ++ b ∷ [] }

module _ {T : Type 0} (bt : Boringtun T) where
  -- `while drain { .. }`: the tunnel is asked again with no input until it is done. `none` means
  -- that the fuel ran out.
  unfoldable pub drain : ℕ → Peer → Outputs → Engine T → Option (Outputs × Engine T)
  drain zero peer o e = none
  drain (suc fuel) peer o e =
      let (r, e') = call_tunn peer (bt.decapsulate []) e in
      elim r [
        | done ↦ some (o, e')
        | tunnel_v6 ↦ drain fuel peer o e'
        | network b ↦ drain fuel peer (record o { net = o.net ++ b ∷ [] }) e'
        | tunnel_v4 b ↦ drain fuel peer (record o { tun = o.tun ++ b ∷ [] }) e'
      ]

  abbrev pub no_outputs : Outputs
  no_outputs = record { net = []; tun = [] }

  -- Only a handshake message is followed by a drain.
  unfoldable pub decapsulate_all : ℕ → Peer → List ℕ → Engine T → Option (Outputs × Engine T)
  unfolding collect
  decapsulate_all fuel peer datagram e =
      let (r, e') = call_tunn peer (bt.decapsulate datagram) e in
      elim r [
        | done ↦ some (no_outputs, e')
        | tunnel_v6 ↦ some (no_outputs, e')
        | network b ↦ drain fuel peer (collect (network b) no_outputs) e'
        | tunnel_v4 b ↦ some (collect (tunnel_v4 b) no_outputs, e')
      ]

module _ {T : Type 0} where
  -- The tests between the tunnel and `tun_rx_q`.
  unfoldable pub admits : Engine T → Peer → List ℕ → Bool
  admits e peer plaintext = elim (parse_ipv4_meta plaintext) [
    | none ↦ false
    | some m ↦
        if not (any (λ cidr. contains cidr m.src) peer.allowed_ips)
        then false
        else if not (allows e.inbound_policy m.src m.dst m.protocol m.dst_port)
        then false
        else true
  ]

  -- `s.rx_bytes += len; s.last_rx = Some(now)`; release builds wrap.
  unfoldable pub count_rx : ℕ → (now : ℕ) → Cell T → Cell T
  count_rx len now c =
      let s = c.stats in
      record c { stats = record s { rx_bytes = (s.rx_bytes + len) % 2 ^ 64; last_rx = some now } }

  -- The loop over `tun_outputs`; the flag is `any_inbound_data`.
  unfoldable pub deliver : (now : ℕ) → Peer → List (List ℕ) → Bool → World T → Bool × World T
  deliver now peer [] any_data w = (any_data, w)
  deliver now peer (p ∷ ps) any_data w =
      let engine' = update_cell peer (count_rx (length p) now) w.engine in
      let w' =
        (if admits w.engine peer p
          then record w { engine = engine'; tun_rx = w.tun_rx ++ p ∷ [] }
          else w) in
      deliver now peer ps (any_data || admits w.engine peer p) w'

  -- The datagrams of `net_outputs` go back to where the message came from.
  unfoldable pub reply : TransportAddr → List (List ℕ) → World T → World T
  reply src nets w = record w { sent = w.sent ++ map (λ b. (src, b)) nets }

  -- An authenticated message that came over UDP moves the roaming address.
  unfoldable pub roam : (now : ℕ) → Peer → TransportAddr → Outputs → Engine T → Engine T
  roam now peer src o e =
      if (not (is_empty o.net) || not (is_empty o.tun)) && not (is_derp src)
      then update_cell peer (set_auth_src src now) e
      else e

  unfoldable pub notify : Bool → World T → World T
  notify any_data w = if any_data then record w { notified = true } else w

  -- A message over DERP moves the fallback address, before the tunnel has seen it.
  unfoldable pub note_derp : Peer → TransportAddr → Engine T → Engine T
  note_derp peer src e = if is_derp src then update_cell peer (set_transport_addr src) e else e

  -- The body of the loop over peers, behind the tunnel's calls.
  unfoldable pub finish : (now : ℕ) → Peer → TransportAddr → Outputs → World T → World T
  finish now peer src o w =
      let w' = reply src o.net (record w { engine = roam now peer src o w.engine }) in
      let (any_data, w'') = deliver now peer o.tun false w' in notify any_data w''

module _ {T : Type 0} (bt : Boringtun T) (fuel now : ℕ) (src : TransportAddr)
    (datagram : List ℕ) where
  unfoldable pub handle_for : Peer → World T → Option (World T)
  handle_for peer w = elim (decapsulate_all bt fuel peer datagram (note_derp peer src w.engine)) [
    | none ↦ none
    | some (o, e) ↦ some (finish now peer src o (record w { engine = e }))
  ]

  unfoldable pub handle_each : List Peer → World T → Option (World T)
  handle_each [] w = some w
  handle_each (p ∷ ps) w = Option.bind (handle_for p w) (handle_each ps)

  unfoldable pub handle_inbound : World T → Option (World T)
  handle_inbound w = elim (route_inbound w.engine.indices datagram) [
    | single_peer p ↦ handle_each (p ∷ []) w
    | broadcast ↦ handle_each (map (λ entry. entry.1) w.engine.indices.by_pubkey) w
    | junk ↦ some w
  ]
