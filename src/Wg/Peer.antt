-- ===== src/Wg/Peer.antt =====
-- wg-engine/src/peer.rs. An IPv4 address is its `u32`, a public key its 32 bytes, an instant a
-- number of milliseconds.
use tailscale_vita.Prelude.{
  ℕ, ◌-◌, ◌*◌, ◌^◌, ◌%◌, Bool, List, Option, none, some, bit_and, eqb, ltb, if◌then◌else◌,
}

abbrev pub Key : Type 0
Key = List ℕ

abbrev pub Ipv4Addr : Type 0
Ipv4Addr = ℕ

-- `std::net::SocketAddr`; an IPv6 address is its 128-bit number, and has two numbers of its own.
pub data SocketAddr : Type 0 where
  v4 : (ip : Ipv4Addr) (port : ℕ) → SocketAddr
  v6 : (ip port flowinfo scope_id : ℕ) → SocketAddr

pub data TransportAddr : Type 0 where
  udp : SocketAddr → TransportAddr
  derp : (region : ℕ) (peer_pubkey : Key) → TransportAddr

pub record Ipv4Cidr : Type 0 where
  pub addr : Ipv4Addr
  pub prefix : ℕ

-- `(!0u32) << (32 - self.prefix)` in 32 bits. `parse` admits prefixes up to 32.
unfoldable pub mask_of : ℕ → ℕ
mask_of prefix = if eqb prefix 0 then 0 else (2 ^ 32 - 1) * 2 ^ (32 - prefix) % 2 ^ 32

unfoldable pub contains : Ipv4Cidr → Ipv4Addr → Bool
unfolding mask_of
contains c ip = eqb (bit_and ip (mask_of c.prefix)) (bit_and c.addr (mask_of c.prefix))

-- The fields of a `Peer` that never change. `our_index` is fresh for each `Peer` that the engine
-- builds, so it names the object that all clones of an `Arc<Peer>` share.
pub record Peer : Type 0 where
  pub pubkey : Key
  pub our_index : ℕ
  pub allowed_ips : List Ipv4Cidr

-- `PeerStats`; only the fields that the engine writes.
pub record PeerStats : Type 0 where
  pub handshakes_started : ℕ
  pub handshakes_completed : ℕ
  pub rx_bytes : ℕ
  pub tx_bytes : ℕ
  pub last_rx : Option ℕ
  pub last_handshake : Option ℕ

abbrev pub no_stats : PeerStats
no_stats = record {
  handshakes_started = 0;
  handshakes_completed = 0;
  rx_bytes = 0;
  tx_bytes = 0;
  last_rx = none;
  last_handshake = none;
}

-- The fields of a `Peer` behind `ArcSwap` and `Mutex`, over the state `T` of a `Tunn`.
pub record Cell (T : Type 0) : Type 0 where
  pub transport_addr : Option TransportAddr
  pub auth_src : Option (TransportAddr × ℕ)
  pub tunn : T
  pub stats : PeerStats

-- `AUTH_SRC_TRUST`, in milliseconds (lib.rs).
abbrev pub auth_src_trust : ℕ
auth_src_trust = 6500

module _ {T : Type 0} where
  unfoldable pub set_transport_addr : TransportAddr → Cell T → Cell T
  set_transport_addr addr c = record c { transport_addr = some addr }

  unfoldable pub set_auth_src : TransportAddr → (now : ℕ) → Cell T → Cell T
  set_auth_src addr now c = record c { auth_src = some (addr, now) }

  -- `Instant::duration_since` is 0 for a later instant, as `-` on ℕ is.
  unfoldable pub auth_src_fresh : (now : ℕ) → Cell T → Option TransportAddr
  auth_src_fresh now c = elim c.auth_src [
    | none ↦ none
    | some (addr, at) ↦ if ltb (now - at) auth_src_trust then some addr else none
  ]

pub record PeerConfig : Type 0 where
  pub pubkey : Key
  pub preshared_key : Option Key
  pub persistent_keepalive_secs : Option ℕ
  pub allowed_ips : List Ipv4Cidr
  pub initial_endpoint : Option TransportAddr
