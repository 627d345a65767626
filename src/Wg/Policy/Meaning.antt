-- ===== src/Wg/Policy/Meaning.antt =====
-- What the rules mean, without masks and searches, and that `allows` decides it.
use tailscale_vita.Prelude.{
  ℕ, ◌≤◌, ◌<◌, ◌/◌, ◌-◌, ◌^◌, ◌≡◌, refl, ap, sym, contains-Any, ◌↔◌, ◌⊎◌, inl, inr, Bool, true,
  false, not, List, [], ◌∷◌, any, is_empty, Option, none, some, leb, eqb, if◌then◌else◌, ◌&&◌, Any,
  All, any_iff, nat_eq, arith, Bool-cases, ◌==◌, eqb_iff, leb→le, le→leb,
}
use mathlib.Core.Bool.{false≢true}
use tailscale_vita.Prelude
use tailscale_vita.Wg.Peer.{Ipv4Cidr, Ipv4Addr, contains}
use tailscale_vita.Wg.Cidr.{contains_iff}
use tailscale_vita.Wg.Policy.Rules.{
  NetPortRange, FilterRule, rules, range_matches, rule_matches, allows,
}

abbrev pub IsCidr : Ipv4Cidr → Type 0
IsCidr c = (c.prefix ≤ 32) × (c.addr < 2 ^ 32)

-- The first `prefix` bits agree.
abbrev pub Covers : Ipv4Addr → Ipv4Cidr → Type 0
Covers ip c = ip / 2 ^ (32 - c.prefix) ≡ c.addr / 2 ^ (32 - c.prefix)

-- The port, or 0 for a packet without one, lies in the range; the control plane sends
-- `port_first ≤ port_last`, so a range holds 0 exactly when it starts there.
abbrev pub HasPort : Option ℕ → NetPortRange → Type 0
HasPort (some port) r = (r.port_first ≤ port) × (port ≤ r.port_last)
HasPort none r = (r.port_first ≤ 0) × (0 ≤ r.port_last)

abbrev pub HasProtocol : ℕ → List ℕ → Type 0
HasProtocol protocol ps = (ps ≡ []) ⊎ Any (λ p. p ≡ protocol) ps

abbrev pub Admits : Ipv4Addr → Ipv4Addr → ℕ → Option ℕ → FilterRule → Type 0
Admits src dst protocol port rule =
    Any (Covers src) rule.src_ips
    × HasProtocol protocol rule.ip_protocols
    × Any (λ r. Covers dst r.ip × HasPort port r) rule.dst_ports

abbrev pub IsRule : FilterRule → Type 0
IsRule rule = All IsCidr rule.src_ips × All (λ r. IsCidr r.ip) rule.dst_ports

range_matches_iff :
    (dst : Ipv4Addr) (port : Option ℕ)
    → dst < 2 ^ 32
    → (r : NetPortRange) → IsCidr r.ip
    → (range_matches dst port r ≡ true) ↔ (Covers dst r.ip × HasPort port r)
unfolding range_matches
range_matches_iff dst none hd r hr = ground (arith, contains_iff r.ip dst hr.0 hr.1 hd)
range_matches_iff dst (some p) hd r hr = ground (arith, contains_iff r.ip dst hr.0 hr.1 hd)

not-false : (b : Bool) → not b ≡ false → b ≡ true
not-false b h = ground arith

-- Two early returns and a last test.
ladder_iff :
    (a b c : Bool) {A B C : Type 0}
    → (a ≡ true) ↔ A
    → (b ≡ false) ↔ B
    → (c ≡ true) ↔ C
    → ((if not a then false else if b then false else c) ≡ true) ↔ (A × B × C)
ladder_iff true false true s p d = (λ e. (s.0 refl, p.0 refl, d.0 refl), λ h. refl)
ladder_iff false b c s p d = (λ e. absurd (cc), λ h. absurd (false≢true (s.1 h.0)))
ladder_iff true true c s p d = (λ e. absurd (cc), λ h. absurd (false≢true (sym (p.1 h.1))))
ladder_iff true false false s p d = (λ e. absurd (cc), λ h. absurd (false≢true (d.1 h.2)))

HasProtocol-iff :
    (protocol : ℕ) (ps : List ℕ)
    → ((not (is_empty ps) && not (Prelude.contains ps protocol)) ≡ false) ↔ HasProtocol protocol ps
HasProtocol-iff protocol [] = (λ e. inl refl, λ h. refl)
HasProtocol-iff protocol (p ∷ ps) =
    let c = contains-Any (p ∷ ps) protocol in
    (λ e. inr (c.0 (not-false _ e)), elim [ inl n ↦ absurd (cc) | inr a ↦ ap not (c.1 a) ])

rule_matches_iff :
    (src dst : Ipv4Addr) (protocol : ℕ) (port : Option ℕ)
    → src < 2 ^ 32
    → dst < 2 ^ 32
    → (rule : FilterRule) → IsRule rule
    → (rule_matches rule src dst protocol port ≡ true) ↔ Admits src dst protocol port rule
unfolding rule_matches
rule_matches_iff src dst protocol port hs hd rule h =
    ladder_iff _ _ _
      (any_iff (λ c. contains c src) (Covers src) IsCidr (λ c k. contains_iff c src k.0 k.1 hs)
        rule.src_ips h.0)
      (HasProtocol-iff protocol rule.ip_protocols)
      (any_iff (range_matches dst port) (λ r. Covers dst r.ip × HasPort port r) (λ r. IsCidr r.ip)
        (range_matches_iff dst port hd) rule.dst_ports h.1)

-- Under well-formed rules the policy lets a packet in exactly when some rule admits it: its source
-- lies in one of the rule's networks, its protocol is listed or the rule lists none, and its
-- destination and port lie in one of the rule's ranges, where a packet without a port has port 0.
pub allows_iff :
    (rs : List FilterRule) (src dst : Ipv4Addr) (protocol : ℕ) (port : Option ℕ)
    → All IsRule rs
    → src < 2 ^ 32
    → dst < 2 ^ 32
    → (allows (rules rs) src dst protocol port ≡ true) ↔ Any (Admits src dst protocol port) rs
unfolding allows
allows_iff rs src dst protocol port h hs hd =
    any_iff (λ r. rule_matches r src dst protocol port) (Admits src dst protocol port) IsRule
      (rule_matches_iff src dst protocol port hs hd) rs h
