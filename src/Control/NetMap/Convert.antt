-- ===== src/Control/NetMap/Convert.antt =====
-- netmap.rs: the conversions of what control sends.
use tailscale_vita.Prelude.{
  ℕ, false, not, List, [], ◌∷◌, map, Option, none, some, leb, eqb, if◌then◌else◌, ◌&&◌, filter_map,
  is_empty, insert, nat_eq,
}
use mathlib.Core.Option
use tailscale_vita.Prelude.Bytes.{codes}
use tailscale_vita.Control.Wire.{
  Text, NetPortRangeWire, FilterRuleWire, UserProfileWire, NodeWire, DerpNodeWire, DerpRegionWire,
  DerpMapWire,
}
use tailscale_vita.Control.Parse.{
  AllowedIp, NodeKeyBytes, parse_nodekey, parse_nodekey_with_prefix, parse_addrs, parse_filter_cidr,
  parse_legacy_derp,
}
use tailscale_vita.Control.NetMap.State.{
  NetPortRange, FilterRule, PeerSnapshot, DerpNodeSnapshot, DerpRegionSnapshot, UserProfile,
}

abbrev pub user_profile_from_wire : UserProfileWire → UserProfile
user_profile_from_wire w = record {
  id = w.id;
  login_name = w.login_name;
  display_name = w.display_name;
}

unfoldable pub range_from_wire : NetPortRangeWire → Option NetPortRange
range_from_wire dst = Option.bind (parse_filter_cidr dst.ip) (λ ip.
    if leb dst.ports.first dst.ports.last
    then some (record { ip = ip; port_first = dst.ports.first; port_last = dst.ports.last })
    else none)

-- A malformed or IPv6-only rule must not become an allow.
unfoldable pub filter_rule_from_wire : FilterRuleWire → Option FilterRule
filter_rule_from_wire wire =
    let src_ips = filter_map parse_filter_cidr wire.src_ips in
    let dst_ports = filter_map range_from_wire wire.dst_ports in
    if not (is_empty src_ips) && not (is_empty dst_ports)
    then some (record { src_ips = src_ips; dst_ports = dst_ports; ip_protocols = wire.ip_proto })
    else none

unfoldable pub parse_derp_node : DerpNodeWire → DerpNodeSnapshot
parse_derp_node n = record {
  name = n.name;
  region_id = n.region_id;
  hostname = n.hostname;
  ipv4 = n.ipv4;
  ipv6 = n.ipv6;
  derp_port = n.derp_port;
  stun_port = n.stun_port;
}

unfoldable pub parse_regions :
    List (Text × DerpRegionWire) → List (ℕ × DerpRegionSnapshot) → List (ℕ × DerpRegionSnapshot)
parse_regions [] m = m
parse_regions ((_, r) ∷ rs) m = parse_regions rs (
    insert r.region_id
      (record {
        region_id = r.region_id;
        region_code = r.region_code;
        region_name = r.region_name;
        nodes = map parse_derp_node r.nodes;
      })
      m)

abbrev pub parse_derp_regions : DerpMapWire → List (ℕ × DerpRegionSnapshot)
parse_derp_regions dmap = parse_regions dmap.regions []

abbrev pub or_else : {A : Type 0} → Option A → A → A
or_else none d = d
or_else (some a) d = a

-- `allowed_ips`: an omitted list means the node's addresses.
unfoldable pub allowed_of : NodeWire → List AllowedIp
allowed_of n =
    let allowed_ips = parse_addrs n.allowed_ips in
    if is_empty allowed_ips then parse_addrs n.addresses else allowed_ips

-- `str::parse::<SocketAddr>` stands outside the model.
module _ {S : Type 0} (parse_socket_addr : Text → Option S) where
  unfoldable pub parse_endpoints : List Text → List S
  parse_endpoints addrs = filter_map parse_socket_addr addrs

  unfoldable pub snapshot_with : NodeWire → NodeKeyBytes → PeerSnapshot S
  snapshot_with n node_key = record {
    node_id = n.id;
    node_key = node_key;
    disco_key =
        if is_empty n.disco_key
        then none
        else parse_nodekey_with_prefix n.disco_key (codes "discokey:");
    name = n.name;
    allowed_ips = allowed_of n;
    home_derp =
        if not (eqb n.home_derp 0)
        then n.home_derp
        else or_else (parse_legacy_derp n.derp_legacy) 0;
    online = or_else n.online false;
    endpoints = parse_endpoints n.endpoints;
    last_seen = n.last_seen;
    key_expiry = n.key_expiry;
  }

  unfoldable pub node_to_snapshot : NodeWire → Option (PeerSnapshot S)
  node_to_snapshot n =
      Option.bind (parse_nodekey n.key) (λ node_key. some (snapshot_with n node_key))
