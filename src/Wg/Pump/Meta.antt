-- ===== src/Wg/Pump/Meta.antt =====
-- pump.rs: `parse_ipv4_meta`.
use tailscale_vita.Prelude.{
  ℕ, ◌+◌, ◌*◌, ◌/◌, ◌^◌, Bool, not, List, length, get_or, Option, none, some, ltb, leb, eqb,
  if◌then◌else◌, ◌||◌, ◌&&◌, bit_and,
}
use tailscale_vita.Prelude.Bytes.{from_be32, from_be16}
use tailscale_vita.Wg.Peer.{Ipv4Addr}

pub record Ipv4Meta : Type 0 where
  pub src : Ipv4Addr
  pub dst : Ipv4Addr
  pub protocol : ℕ
  pub dst_port : Option ℕ

abbrev pub addr_at : List ℕ → ℕ → Ipv4Addr
addr_at pkt i =
    from_be32 (get_or pkt i 0) (get_or pkt (i + 1) 0) (get_or pkt (i + 2) 0) (get_or pkt (i + 3) 0)

-- `usize::from(pkt[0] & 0x0f) * 4`
abbrev pub ihl_of : List ℕ → ℕ
ihl_of pkt = bit_and (get_or pkt 0 0) 0x0f * 4

abbrev pub has_ports : ℕ → Bool
has_ports protocol = eqb protocol 6 || eqb protocol 17

unfoldable pub parse_ipv4_meta : List ℕ → Option Ipv4Meta
parse_ipv4_meta pkt =
    let ihl = ihl_of pkt in
    let protocol = get_or pkt 9 0 in
    let with_port : Option ℕ → Option Ipv4Meta = λ port. some (record {
      src = addr_at pkt 12;
      dst = addr_at pkt 16;
      protocol = protocol;
      dst_port = port;
    }) in
    if ltb (length pkt) 20 || not (eqb (get_or pkt 0 0 / 2 ^ 4) 4)
    then none
    else if ltb ihl 20 || ltb (length pkt) ihl
    then none
    else if has_ports protocol && leb (ihl + 4) (length pkt)
    then with_port (some (from_be16 (get_or pkt (ihl + 2) 0) (get_or pkt (ihl + 3) 0)))
    else if has_ports protocol
    then none
    else with_port none
