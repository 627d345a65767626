-- ===== src/Wg/Pump/Admission.antt =====
-- What reaches `tun_rx`: only packets whose source the peer owns and which the policy admits.
use tailscale_vita.Prelude.{
  ℕ, zero, suc, ◌+◌, ◌^◌, ◌<◌, ◌≡◌, inl, inr, true, List, [], ◌∷◌, any, any_iff, get_or, some,
  nat_eq, list_eq, All, Any, arith, Option-cases,
}
use tailscale_vita.Prelude.Bytes.{IsByte}
use tailscale_vita.Wg.Peer.{Peer, contains}
use tailscale_vita.Wg.Cidr.{contains_iff}
use tailscale_vita.Wg.Policy.Rules.{InboundPolicy, deny_all, allow_all, rules, allows}
use tailscale_vita.Wg.Policy.Meaning.{IsCidr, Covers, Admits, IsRule, allows_iff}
use tailscale_vita.Wg.Engine.State.{Engine}
use tailscale_vita.Wg.Pump.Meta.{Ipv4Meta, parse_ipv4_meta, addr_at}
use tailscale_vita.Wg.Pump.Inbound.{admits}

abbrev pub Permits : InboundPolicy → Ipv4Meta → Type 0
Permits deny_all m = ⊥
Permits allow_all m = Unit
Permits (rules rs) m = Any (Admits m.src m.dst m.protocol m.dst_port) rs

abbrev pub IsPolicy : InboundPolicy → Type 0
IsPolicy (rules rs) = All IsRule rs
IsPolicy _ = Unit

-- The packet has a readable IPv4 header, its source lies in a network of the peer, and the policy
-- admits it.
abbrev pub Permitted : InboundPolicy → Peer → List ℕ → Type 0
Permitted policy p packet =
    (m : Ipv4Meta) × (parse_ipv4_meta packet ≡ some m)
    × Any (Covers m.src) p.allowed_ips
    × Permits policy m

get_or-IsByte : (xs : List ℕ) (i : ℕ) → All IsByte xs → get_or xs i 0 < 256
get_or-IsByte [] i h = omega arith
get_or-IsByte (x ∷ xs) zero h = h.0
get_or-IsByte (x ∷ xs) (suc i) h = get_or-IsByte xs i h.1

addr_at-lt : (xs : List ℕ) (i : ℕ) → All IsByte xs → addr_at xs i < 2 ^ 32
addr_at-lt xs i h = omega (
  arith,
  get_or-IsByte xs i h,
  get_or-IsByte xs (i + 1) h,
  get_or-IsByte xs (i + 2) h,
  get_or-IsByte xs (i + 3) h,
)

parse_ipv4_meta-lt :
    (packet : List ℕ) (m : Ipv4Meta)
    → All IsByte packet
    → parse_ipv4_meta packet ≡ some m
    → (m.src < 2 ^ 32) × (m.dst < 2 ^ 32)
unfolding parse_ipv4_meta
parse_ipv4_meta-lt packet m h e =
    let a = addr_at-lt packet 12 h in let b = addr_at-lt packet 16 h in ground arith

allows-Permits :
    (policy : InboundPolicy) (m : Ipv4Meta)
    → IsPolicy policy
    → m.src < 2 ^ 32
    → m.dst < 2 ^ 32
    → allows policy m.src m.dst m.protocol m.dst_port ≡ true
    → Permits policy m
unfolding allows
allows-Permits deny_all m h a b e = absurd (cc)
allows-Permits allow_all m h a b e = tt
allows-Permits (rules rs) m h a b e = (allows_iff rs m.src m.dst m.protocol m.dst_port h a b).0 e

module _ {T : Type 0} where
  admits_parts :
      (e : Engine T) (p : Peer) (packet : List ℕ)
      → admits e p packet ≡ true
      → (m : Ipv4Meta) × (parse_ipv4_meta packet ≡ some m)
        × (any (λ c. contains c m.src) p.allowed_ips ≡ true)
        × (allows e.inbound_policy m.src m.dst m.protocol m.dst_port ≡ true)
  unfolding admits
  admits_parts e p packet h = elim (Option-cases (parse_ipv4_meta packet)) [
    | inl n ↦ absurd (ground arith)
    | inr (m, s) ↦ (m, s, ground arith, ground arith)
  ]

  pub admits-Permitted :
      (e : Engine T) (p : Peer) (packet : List ℕ)
      → IsPolicy e.inbound_policy
      → All IsCidr p.allowed_ips
      → All IsByte packet
      → admits e p packet ≡ true
      → Permitted e.inbound_policy p packet
  admits-Permitted e p packet hp hc hb h =
      let (m, s, a, b) = admits_parts e p packet h in
      let (ls, ld) = parse_ipv4_meta-lt packet m hb s in
      (
        m,
        s,
        (any_iff (λ c. contains c m.src) (Covers m.src) IsCidr
              (λ c k. contains_iff c m.src k.0 k.1 ls) p.allowed_ips hc).0
            a,
        allows-Permits e.inbound_policy m hp ls ld b,
      )
