-- ===== src/Wg/Policy/Rules.antt =====
-- policy.rs: the rules and `InboundPolicy::allows`.
use tailscale_vita.Prelude.{
  ℕ, Bool, true, false, not, List, any, is_empty, Option, none, some, leb, eqb, if◌then◌else◌, ◌&&◌,
  Any, nat_eq,
}
use tailscale_vita.Prelude
use tailscale_vita.Wg.Peer.{Ipv4Cidr, Ipv4Addr, contains}

pub record NetPortRange : Type 0 where
  pub ip : Ipv4Cidr
  pub port_first : ℕ
  pub port_last : ℕ

pub record FilterRule : Type 0 where
  pub src_ips : List Ipv4Cidr
  pub dst_ports : List NetPortRange
  pub ip_protocols : List ℕ

pub data InboundPolicy : Type 0 where
  deny_all allow_all : InboundPolicy
  rules : List FilterRule → InboundPolicy

-- A packet without a port counts as port 0.
unfoldable pub range_matches : Ipv4Addr → Option ℕ → NetPortRange → Bool
range_matches dst dst_port range = if not (contains range.ip dst) then false else elim dst_port [
  | some port ↦ leb range.port_first port && leb port range.port_last
  | none ↦ eqb range.port_first 0
]

unfoldable pub rule_matches : FilterRule → Ipv4Addr → Ipv4Addr → ℕ → Option ℕ → Bool
rule_matches rule src dst protocol dst_port =
    if not (any (λ cidr. contains cidr src) rule.src_ips)
    then false
    else if not (is_empty rule.ip_protocols) && not (Prelude.contains rule.ip_protocols protocol)
    then false
    else any (range_matches dst dst_port) rule.dst_ports

unfoldable pub allows : InboundPolicy → Ipv4Addr → Ipv4Addr → ℕ → Option ℕ → Bool
allows deny_all src dst protocol dst_port = false
allows allow_all src dst protocol dst_port = true
allows (rules rs) src dst protocol dst_port =
    any (λ rule. rule_matches rule src dst protocol dst_port) rs
