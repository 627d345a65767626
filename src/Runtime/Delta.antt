-- ===== src/Runtime/Delta.antt =====
-- tailscale-vita/src/runtime.rs: a map update pushed to the engine, the magic socket and the
-- table of home regions.
use tailscale_vita.Prelude.{
  ℕ, not, List, map, Option, none, some, eqb, ltb, if◌then◌else◌, is_empty, filter, for_each,
  insert, remove, list_eq, nat_eq,
}
use tailscale_vita.Wg.Peer.{Key, SocketAddr, derp, Ipv4Cidr, PeerConfig}
use tailscale_vita.Wg.Policy.Rules.{InboundPolicy, rules}
use tailscale_vita.Wg.Policy.Rules
use tailscale_vita.Wg.Engine.State.{Engine, NewTunn, upsert_peer, remove_peer, set_inbound_policy}
use tailscale_vita.Control.Parse.{AllowedIp}
use tailscale_vita.Control.NetMap.State.{
  NetPortRange, FilterRule, PeerSnapshot, RekeyedPeer, NetMapDelta,
}
use tailscale_vita.Magic.State.{MagicState}
use tailscale_vita.Magic.State

-- ts-control/src/map.rs; the fields that are pushed.
pub record NetMapSnapshot : Type 0 where
  pub packet_filter : Option (List FilterRule)
  pub delta : NetMapDelta SocketAddr

abbrev pub cidr_of : AllowedIp → Ipv4Cidr
cidr_of a = record { addr = a.addr; prefix = a.prefix }

unfoldable pub engine_allowed_ips : List AllowedIp → List Ipv4Cidr
engine_allowed_ips ips = map cidr_of (filter (λ a. ltb 0 a.prefix) ips)

abbrev pub engine_range : NetPortRange → Rules.NetPortRange
engine_range dst = record {
  ip = cidr_of dst.ip;
  port_first = dst.port_first;
  port_last = dst.port_last;
}

abbrev pub engine_rule : FilterRule → Rules.FilterRule
engine_rule rule = record {
  src_ips = map cidr_of rule.src_ips;
  dst_ports = map engine_range rule.dst_ports;
  ip_protocols = rule.ip_protocols;
}

unfoldable pub engine_packet_filter : List FilterRule → InboundPolicy
engine_packet_filter policy = rules (map engine_rule policy)

-- The peer's home region, or ours if it has none.
unfoldable pub region_of : (our_home : ℕ) → PeerSnapshot SocketAddr → ℕ
region_of our_home p = if not (eqb p.home_derp 0) then p.home_derp else our_home

unfoldable pub peer_config : (our_home : ℕ) → PeerSnapshot SocketAddr → PeerConfig
peer_config our_home p =
    let region = region_of our_home p in
    record {
      pubkey = p.node_key;
      preshared_key = none;
      persistent_keepalive_secs = some 25;
      allowed_ips = engine_allowed_ips p.allowed_ips;
      initial_endpoint = if not (eqb region 0) then some (derp region p.node_key) else none;
    }

module _ {T : Type 0} (new_tunn : NewTunn T) (our_home : ℕ) where
  unfoldable pub push_policy : NetMapSnapshot → Engine T → Engine T
  push_policy snap e =
      if snap.delta.packet_filter_changed
      then (elim snap.packet_filter [
        | some policy ↦ set_inbound_policy (engine_packet_filter policy) e
        | none ↦ e
      ])
      else e

  abbrev pub push_upserted : PeerSnapshot SocketAddr → Engine T → Engine T
  push_upserted p e = upsert_peer new_tunn (peer_config our_home p) e

  abbrev pub push_rekeyed : RekeyedPeer SocketAddr → Engine T → Engine T
  push_rekeyed r e =
      upsert_peer new_tunn (peer_config our_home r.snapshot) (remove_peer r.old_key e)

  unfoldable pub push_delta_to_engine : NetMapSnapshot → Engine T → Engine T
  push_delta_to_engine snap e = for_each push_rekeyed snap.delta.rekeyed (
      for_each remove_peer snap.delta.removed
        (for_each push_upserted snap.delta.upserted (push_policy snap e)))

module _ (now : ℕ) where
  -- A peer without a Disco key or without endpoints is not pushed.
  unfoldable pub push_candidates : PeerSnapshot SocketAddr → MagicState → MagicState
  push_candidates p s = elim p.disco_key [
    | none ↦ s
    | some disco_pub ↦
        if is_empty p.endpoints then s else State.upsert_peer now p.node_key disco_pub p.endpoints s
  ]

  abbrev pub rekey_candidates : RekeyedPeer SocketAddr → MagicState → MagicState
  rekey_candidates r s = push_candidates r.snapshot (State.remove_peer r.old_key s)

  unfoldable pub push_delta_to_magicsock : NetMapSnapshot → MagicState → MagicState
  push_delta_to_magicsock snap s = for_each rekey_candidates snap.delta.rekeyed (
      for_each State.remove_peer snap.delta.removed
        (for_each push_candidates snap.delta.upserted s))

module _ (our_home : ℕ) where
  abbrev pub note_region : PeerSnapshot SocketAddr → List (Key × ℕ) → List (Key × ℕ)
  note_region p regions = insert p.node_key (region_of our_home p) regions

  unfoldable pub update_peer_regions : NetMapSnapshot → List (Key × ℕ) → List (Key × ℕ)
  update_peer_regions snap regions =
      for_each (λ r m. note_region r.snapshot (remove r.old_key m)) snap.delta.rekeyed
        (for_each remove snap.delta.removed (for_each note_region snap.delta.upserted regions))
