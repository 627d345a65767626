-- ===== src/Disco/Endpoint.antt =====
-- endpoint.rs: a socket address in 18 bytes, an IPv4 address mapped into IPv6. The eight segments
-- of an address are one number of 128 bits, most significant first.
use tailscale_vita.Prelude.{
  ℕ, zero, suc, ◌+◌, ◌*◌, ◌/◌, ◌%◌, ◌^◌, List, [], ◌∷◌, ◌++◌, take, drop, eqb, if◌then◌else◌,
}
use tailscale_vita.Wg.Peer.{SocketAddr, v4, v6}

pub record Endpoint : Type 0 where
  pub addr : ℕ
  pub port : ℕ

-- `n` bytes, the most significant first: `U16<NetworkEndian>` is two of them.
unfoldable pub be_bytes : (n : ℕ) → ℕ → List ℕ
be_bytes zero x = []
be_bytes (suc n) x = be_bytes n (x / 256) ++ x % 256 ∷ []

unfoldable pub from_be : (acc : ℕ) → List ℕ → ℕ
from_be acc [] = acc
from_be acc (b ∷ bs) = from_be (acc * 256 + b) bs

-- `Ipv4Addr::to_ipv6_mapped`
abbrev pub to_ipv6_mapped : ℕ → ℕ
to_ipv6_mapped ip = 0xffff * 2 ^ 32 + ip

-- `addr` with `to_ipv4_mapped`, and the port; `SocketAddr::new` has flowinfo and scope 0.
unfoldable pub socket_addr : Endpoint → SocketAddr
socket_addr e =
    if eqb (e.addr / 2 ^ 32) 0xffff then v4 (e.addr % 2 ^ 32) e.port else v6 e.addr e.port 0 0

unfoldable pub from_socket_addr : SocketAddr → Endpoint
from_socket_addr (v4 ip port) = record { addr = to_ipv6_mapped ip; port = port }
from_socket_addr (v6 ip port flowinfo scope_id) = record { addr = ip; port = port }

-- `#[repr(C, packed)]`
unfoldable pub to_bytes : Endpoint → List ℕ
to_bytes e = be_bytes 16 e.addr ++ be_bytes 2 e.port

-- 18 bytes as an endpoint.
unfoldable pub of_bytes : List ℕ → Endpoint
of_bytes bs = record { addr = from_be 0 (take 16 bs); port = from_be 0 (drop 16 bs) }
