-- ===== src/Control/Wire.antt =====
-- ts-control/src/types.rs: what control sends, after serde has read it. A `String` is its bytes.
use tailscale_vita.Prelude.{ℕ, List, Bool, Option}
use tailscale_vita.Prelude.Int.{ℤ}

abbrev pub Text : Type 0
Text = List ℕ

pub record PortRangeWire : Type 0 where
  pub first : ℕ
  pub last : ℕ

pub record NetPortRangeWire : Type 0 where
  pub ip : Text
  pub ports : PortRangeWire

pub record FilterRuleWire : Type 0 where
  pub src_ips : List Text
  pub dst_ports : List NetPortRangeWire
  pub ip_proto : List ℕ

pub data PacketFilterWire : Type 0 where
  missing : PacketFilterWire
  rules : List FilterRuleWire → PacketFilterWire

pub record UserProfileWire : Type 0 where
  pub id : ℤ
  pub login_name : Text
  pub display_name : Text

pub record NodeWire : Type 0 where
  pub id : ℤ
  pub stable_id : Text
  pub user : ℤ
  pub name : Text
  pub key : Text
  pub disco_key : Text
  pub addresses : List Text
  pub allowed_ips : List Text
  pub home_derp : ℕ
  pub derp_legacy : Text
  pub online : Option Bool
  pub endpoints : List Text
  pub tags : List Text
  pub key_expiry : Option Text
  pub last_seen : Option Text

pub record DerpNodeWire : Type 0 where
  pub name : Text
  pub region_id : ℕ
  pub hostname : Text
  pub ipv4 : Text
  pub ipv6 : Text
  pub derp_port : ℕ
  pub stun_port : ℤ

pub record DerpRegionWire : Type 0 where
  pub region_id : ℕ
  pub region_code : Text
  pub region_name : Text
  pub nodes : List DerpNodeWire

pub record DerpMapWire : Type 0 where
  pub regions : List (Text × DerpRegionWire)

pub record PeerChangeWire : Type 0 where
  pub node_id : ℤ
  pub key : Option Text
  pub disco_key : Option Text
  pub home_derp : Option ℕ
  pub derp_region_legacy : Option ℕ
  pub endpoints : Option (List Text)
  pub online : Option Bool
  pub last_seen : Option Text
  pub key_expiry : Option Text

pub record MapResponseWire : Type 0 where
  pub map_session_handle : Text
  pub seq : ℤ
  pub keep_alive : Bool
  pub node : Option NodeWire
  pub derp_map : Option DerpMapWire
  pub peers : Option (List NodeWire)
  pub peers_changed : Option (List NodeWire)
  pub peers_removed : Option (List ℤ)
  pub peers_changed_patch : Option (List PeerChangeWire)
  pub domain : Text
  pub user_profiles : List UserProfileWire
  pub control_time : Option Text
  pub packet_filter : PacketFilterWire
