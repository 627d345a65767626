-- ===== src/Wg/Indices/Dispatch.antt =====
-- wg-engine/src/dispatch.rs: which peer a datagram is for.
use tailscale_vita.Prelude.{
  ℕ, ◌+◌, ◌/◌, ◌^◌, not, List, length, get_or, lookup, Option, none, some, ltb, eqb, if◌then◌else◌,
  ◌||◌, nat_eq,
}
use tailscale_vita.Prelude.Bytes.{from_le32, from_be32}
use tailscale_vita.Wg.Peer.{Ipv4Addr, Peer}
use tailscale_vita.Wg.Indices.Routes.{lookup_ip}
use tailscale_vita.Wg.Indices.Tables.{Indices}

abbrev pub handshake_init : ℕ
handshake_init = 1

abbrev pub handshake_resp : ℕ
handshake_resp = 2

abbrev pub cookie_reply : ℕ
cookie_reply = 3

abbrev pub packet_data : ℕ
packet_data = 4

pub data InboundRoute : Type 0 where
  single_peer : Peer → InboundRoute
  broadcast junk : InboundRoute

-- `u32::from_le_bytes(datagram[at..at + 4])`
abbrev pub le32_at : List ℕ → ℕ → ℕ
le32_at d at =
    from_le32 (get_or d at 0) (get_or d (at + 1) 0) (get_or d (at + 2) 0) (get_or d (at + 3) 0)

-- The three kinds of message that carry our index at `recv_idx_offset`.
unfoldable pub route_by_index : Indices → List ℕ → (recv_idx_offset : ℕ) → InboundRoute
route_by_index idx datagram recv_idx_offset =
    if ltb (length datagram) (recv_idx_offset + 4)
    then junk
    else elim (lookup (le32_at datagram recv_idx_offset / 2 ^ 8) idx.by_idx) [
      | some p ↦ single_peer p
      | none ↦ junk
    ]

unfoldable pub route_inbound : Indices → List ℕ → InboundRoute
route_inbound idx datagram =
    let msg_type = le32_at datagram 0 in
    if ltb (length datagram) 4
    then junk
    else if eqb msg_type handshake_init
    then broadcast
    else if eqb msg_type handshake_resp || eqb msg_type cookie_reply || eqb msg_type packet_data
    then route_by_index idx datagram (if eqb msg_type handshake_resp then 8 else 4)
    else junk

unfoldable pub peer_for_ip : Indices → Ipv4Addr → Option Peer
peer_for_ip idx dst = lookup_ip idx.by_ip dst

unfoldable pub parse_ipv4_dst : List ℕ → Option Ipv4Addr
parse_ipv4_dst pkt =
    if ltb (length pkt) 20
    then none
    else if not (eqb (get_or pkt 0 0 / 2 ^ 4) 4)
    then none
    else some (from_be32 (get_or pkt 16 0) (get_or pkt 17 0) (get_or pkt 18 0) (get_or pkt 19 0))
