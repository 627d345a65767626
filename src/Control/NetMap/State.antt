-- ===== src/Control/NetMap/State.antt =====
-- netmap.rs: the snapshots, the map and the delta.
use tailscale_vita.Prelude.{
  ℕ, Bool, true, false, List, [], Option, none, some, eqb, ◌&&◌, ◌==◌, list_eq, nat_eq, Eq, ◌≡◌,
  ◌↔◌, list_beq_iff, arith,
}
use tailscale_vita.Prelude.Int.{ℤ, pos, int_eq}
use tailscale_vita.Control.Wire.{Text}
use tailscale_vita.Control.Parse.{AllowedIp, NodeKeyBytes}

pub record NetPortRange : Type 0 where
  pub ip : AllowedIp
  pub port_first : ℕ
  pub port_last : ℕ

pub record FilterRule : Type 0 where
  pub src_ips : List AllowedIp
  pub dst_ports : List NetPortRange
  pub ip_protocols : List ℕ

-- `PacketFilter` has one constructor: it is the rules. `S` is `SocketAddr`.
pub record PeerSnapshot (S : Type 0) : Type 0 where
  pub node_id : ℤ
  pub node_key : NodeKeyBytes
  pub disco_key : Option NodeKeyBytes
  pub name : Text
  pub allowed_ips : List AllowedIp
  pub home_derp : ℕ
  pub online : Bool
  pub endpoints : List S
  pub last_seen : Option Text
  pub key_expiry : Option Text

pub record DerpNodeSnapshot : Type 0 where
  pub name : Text
  pub region_id : ℕ
  pub hostname : Text
  pub ipv4 : Text
  pub ipv6 : Text
  pub derp_port : ℕ
  pub stun_port : ℤ

pub record DerpRegionSnapshot : Type 0 where
  pub region_id : ℕ
  pub region_code : Text
  pub region_name : Text
  pub nodes : List DerpNodeSnapshot

pub record UserProfile : Type 0 where
  pub id : ℤ
  pub login_name : Text
  pub display_name : Text

pub record NetMap (S : Type 0) : Type 0 where
  pub our_addrs : List AllowedIp
  pub packet_filter : Option (List FilterRule)
  pub our_tags : List Text
  pub our_key_expiry : Option Text
  pub peers : List (NodeKeyBytes × PeerSnapshot S)
  pub id_to_key : List (ℤ × NodeKeyBytes)
  pub derp_regions : List (ℕ × DerpRegionSnapshot)
  pub last_seq : ℤ
  pub session_handle : Text
  pub domain : Text
  pub user_profiles : List (ℤ × UserProfile)
  pub our_user_id : Option ℤ

pub record RekeyedPeer (S : Type 0) : Type 0 where
  pub old_key : NodeKeyBytes
  pub snapshot : PeerSnapshot S

pub record NetMapDelta (S : Type 0) : Type 0 where
  pub upserted : List (PeerSnapshot S)
  pub removed : List NodeKeyBytes
  pub rekeyed : List (RekeyedPeer S)
  pub our_addrs_changed : Bool
  pub packet_filter_changed : Bool
  pub derp_map_changed : Bool
  pub patches_applied : ℕ
  pub patches_skipped_unknown_node_id : ℕ
  pub seq : ℤ

-- `NetMap::default()` and `NetMapDelta::default()`
abbrev pub new_netmap : {S : Type 0} → NetMap S
new_netmap = record {
  our_addrs = [];
  packet_filter = none;
  our_tags = [];
  our_key_expiry = none;
  peers = [];
  id_to_key = [];
  derp_regions = [];
  last_seq = pos 0;
  session_handle = [];
  domain = [];
  user_profiles = [];
  our_user_id = none;
}

abbrev pub new_delta : {S : Type 0} → NetMapDelta S
new_delta = record {
  upserted = [];
  removed = [];
  rekeyed = [];
  our_addrs_changed = false;
  packet_filter_changed = false;
  derp_map_changed = false;
  patches_applied = 0;
  patches_skipped_unknown_node_id = 0;
  seq = pos 0;
}

-- The derived `PartialEq`s.
abbrev pub ip_beq : AllowedIp → AllowedIp → Bool
ip_beq a b = eqb a.addr b.addr && eqb a.prefix b.prefix

pub ip_beq_iff : (a b : AllowedIp) → (ip_beq a b ≡ true) ↔ (a ≡ b)
ip_beq_iff a b = ground arith

instance abbrev pub ip_eq : Eq AllowedIp
ip_eq = record { beq = ip_beq; beq_iff = ip_beq_iff }

abbrev pub range_beq : NetPortRange → NetPortRange → Bool
range_beq a b = (a.ip == b.ip) && (eqb a.port_first b.port_first && eqb a.port_last b.port_last)

pub range_beq_iff : (a b : NetPortRange) → (range_beq a b ≡ true) ↔ (a ≡ b)
range_beq_iff a b = ground (arith, ip_beq_iff a.ip b.ip)

instance abbrev pub range_eq : Eq NetPortRange
range_eq = record { beq = range_beq; beq_iff = range_beq_iff }

abbrev pub rule_beq : FilterRule → FilterRule → Bool
rule_beq a b =
    (a.src_ips == b.src_ips) && ((a.dst_ports == b.dst_ports) && (a.ip_protocols == b.ip_protocols))

pub rule_beq_iff : (a b : FilterRule) → (rule_beq a b ≡ true) ↔ (a ≡ b)
rule_beq_iff a b = ground (
  arith,
  list_beq_iff a.src_ips b.src_ips,
  list_beq_iff a.dst_ports b.dst_ports,
  list_beq_iff a.ip_protocols b.ip_protocols,
)

instance abbrev pub rule_eq : Eq FilterRule
rule_eq = record { beq = rule_beq; beq_iff = rule_beq_iff }

-- `Option::eq`
abbrev pub option_beq : {A : Type 0} → ⦃e : Eq A⦄ → Option A → Option A → Bool
option_beq none none = true
option_beq (some a) (some b) = a == b
option_beq _ _ = false
