-- ===== src/Disco/Tests.antt =====
-- The theorem on endpoints at an address with a scope.
use tailscale_vita.Prelude.{◌≡◌, refl, ◌+◌, ◌*◌, ◌^◌, length, arith}
use tailscale_vita.Wg.Peer.{SocketAddr, v6}
use tailscale_vita.Disco.Endpoint.{socket_addr, from_socket_addr, to_bytes, of_bytes}
use tailscale_vita.Disco.Layout.{socket_addr-from_socket_addr}

-- A link-local address on the interface 3.
abbrev link_local : SocketAddr
link_local = v6 (0xfe80 * 2 ^ 112 + 1) 41641 0 3

socket_addr-from_socket_addr_example :
    (length (to_bytes (from_socket_addr link_local)) ≡ 18)
    × (socket_addr (of_bytes (to_bytes (from_socket_addr link_local)))
        ≡ v6 (0xfe80 * 2 ^ 112 + 1) 41641 0 0)
socket_addr-from_socket_addr_example =
    socket_addr-from_socket_addr link_local (omega arith, omega arith, refl)
