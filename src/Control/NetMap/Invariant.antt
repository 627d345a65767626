-- ===== src/Control/NetMap/Invariant.antt =====
-- netmap.rs: what holds of the map after any response.
use tailscale_vita.Prelude.{
  ◌≤◌, ◌≡◌, refl, sym, subst, Bool, true, false, not, List, [], ◌∷◌, Option, none, some, ltb, leb,
  if◌then◌else◌, ◌&&◌, ◌==◌, list_eq, nat_eq, filter_map, is_empty, lookup, insert, remove, All, Eq,
  Bool-cases, Option-cases, inl, inr, arith,
}
use mathlib.Core.Option
use tailscale_vita.Prelude.Int.{int_eq}
use tailscale_vita.Prelude.Bytes.{codes}
use tailscale_vita.Control.Wire.{Text, NetPortRangeWire, FilterRuleWire, NodeWire}
use tailscale_vita.Control.Parse.{
  AllowedIp, NodeKeyBytes, parse_ipv4, from_str_radix, split_once, parse_addrs, parse_ipv4_cidr,
  parse_filter_cidr,
}
use tailscale_vita.Control.NetMap.State.{
  NetPortRange, FilterRule, PeerSnapshot, NetMap, rule_eq, ip_eq,
}
use tailscale_vita.Control.NetMap.Convert.{range_from_wire, filter_rule_from_wire, allowed_of}

-- If there is a value, it satisfies `P`.
abbrev pub Where : {A : Type 0} → (A → Type 0) → Option A → Type 0
Where P none = Unit
Where P (some a) = P a

pub Where-bind :
    {A B : Type 0} (P : A → Type 0) (Q : B → Type 0) (m : Option A) (f : A → Option B)
    → Where P m
    → ((a : A) → P a → Where Q (f a))
    → Where Q (Option.bind m f)
unfolding Option.bind
Where-bind P Q none f h k = tt
Where-bind P Q (some a) f h k = k a h

pub anything : {A : Type 0} (m : Option A) → Where (λ a. Unit {0}) m
anything none = tt
anything (some a) = tt

pub All-filter_map :
    {A B : Type 0} (P : B → Type 0) (f : A → Option B)
    → ((a : A) → Where P (f a))
    → (xs : List A) → All P (filter_map f xs)
unfolding filter_map
All-filter_map P f h [] = tt
All-filter_map P f h (x ∷ xs) = go (f x) (h x) (filter_map f xs) (All-filter_map P f h xs)
  where
    go :
        (o : Option _)
        → Where P o
        → (rest : List _) → All P rest
        → All P (elim o [ none ↦ rest | some y ↦ y ∷ rest ])
    go none k rest r = r
    go (some y) k rest r = (k, r)

-- What the maps and their entries satisfy.
abbrev pub IsIp : AllowedIp → Type 0
IsIp ip = ip.prefix ≤ 32

abbrev pub IsRange : NetPortRange → Type 0
IsRange r = IsIp r.ip × (r.port_first ≤ r.port_last)

-- A rule that could let something through says from where and to where.
abbrev pub IsRule : FilterRule → Type 0
IsRule r =
    All IsIp r.src_ips
    × (is_empty r.src_ips ≡ false)
    × All IsRange r.dst_ports
    × (is_empty r.dst_ports ≡ false)

module _ {S : Type 0} where
  abbrev pub IsEntry : NodeKeyBytes × PeerSnapshot S → Type 0
  IsEntry (key, p) = (p.node_key ≡ key) × All IsIp p.allowed_ips

  abbrev pub IsNetMap : NetMap S → Type 0
  IsNetMap m = All IsIp m.our_addrs × Where (All IsRule) m.packet_filter × All IsEntry m.peers

module _ {K V : Type 0} ⦃e : Eq K⦄ (P : K × V → Type 0) where
  pub All-insert : (k : K) (v : V) (m : List (K × V)) → P (k, v) → All P m → All P (insert k v m)
  unfolding insert
  All-insert k v [] p h = (p, tt)
  All-insert k v ((j, w) ∷ m) p h = elim (Bool-cases (j == k)) [
    | inl q ↦ rw (q, All, insert) (subst (λ i. P (i, v)) (sym ((e.beq_iff j k).0 q)) p, h.1)
    | inr q ↦ rw (q, All, insert) (h.0, All-insert k v m p h.1)
  ]

  pub All-remove : (k : K) (m : List (K × V)) → All P m → All P (remove k m)
  unfolding remove
  All-remove k [] h = tt
  All-remove k ((j, w) ∷ m) h = elim (Bool-cases (j == k)) [
    | inl q ↦ rw (q, All, remove) (All-remove k m h.1)
    | inr q ↦ rw (q, All, remove) (h.0, All-remove k m h.1)
  ]

  pub All-lookup : (k : K) (v : V) (m : List (K × V)) → lookup k m ≡ some v → All P m → P (k, v)
  unfolding lookup
  All-lookup k v [] q h = absurd (cc)
  All-lookup k v ((j, w) ∷ m) q h = elim (Bool-cases (j == k)) [
    | inl t ↦
        let same : j ≡ k = (e.beq_iff j k).0 t in
        let found : some w ≡ some v = (rw (t, lookup) at q) in
        subst (λ i. P (i, v)) same (subst (λ u. P (j, u)) (cc) h.0)
    | inr t ↦ All-lookup k v m (rw (t, lookup) at q) h.1
  ]

-- `some x` under a test.
pub Where-if :
    {A : Type 0} (P : A → Type 0) (b : Bool) (x : A)
    → (b ≡ true → P x)
    → Where P (if b then some x else none)
Where-if P true x h = h refl
Where-if P false x h = tt

pub Where-unless :
    {A : Type 0} (P : A → Type 0) (b : Bool) (x : A)
    → (b ≡ false → P x)
    → Where P (if b then none else some x)
Where-unless P true x h = tt
Where-unless P false x h = h refl

-- The parsers give networks that are networks.
parse_ipv4_cidr-IsIp : (s : Text) → Where IsIp (parse_ipv4_cidr s)
unfolding parse_ipv4_cidr
parse_ipv4_cidr-IsIp s =
    Where-bind _ IsIp (split_once 47 s) _ (anything (split_once 47 s)) (λ (ip, prefix) u.
      Where-bind _ IsIp (parse_ipv4 ip) _ (anything (parse_ipv4 ip)) (λ addr u'.
        Where-bind _ IsIp (from_str_radix 10 256 prefix) _ (anything (from_str_radix 10 256 prefix))
          (λ n u''.
            Where-unless IsIp (ltb 32 n) (record { addr = addr; prefix = n }) (λ q. ground arith))))

parse_filter_cidr-IsIp : (s : Text) → Where IsIp (parse_filter_cidr s)
unfolding parse_filter_cidr
parse_filter_cidr-IsIp s = elim (Bool-cases (s == codes "*")) [
  | inl q ↦ rw (q, Where, parse_filter_cidr) (omega arith)
  | inr q ↦ elim (Option-cases (parse_ipv4 s)) [
    | inl t ↦ rw (q, t, Where, parse_filter_cidr) (parse_ipv4_cidr-IsIp s)
    | inr (addr, t) ↦ rw (q, t, Where, parse_filter_cidr) (omega arith)
  ]
]

range_from_wire-IsRange : (dst : NetPortRangeWire) → Where IsRange (range_from_wire dst)
unfolding range_from_wire
range_from_wire-IsRange dst =
    Where-bind IsIp IsRange (parse_filter_cidr dst.ip) _ (parse_filter_cidr-IsIp dst.ip) (λ ip h.
      Where-if IsRange (leb dst.ports.first dst.ports.last)
        (record { ip = ip; port_first = dst.ports.first; port_last = dst.ports.last })
        (λ q. (h, ground arith)))

pub filter_rule_from_wire-IsRule : (w : FilterRuleWire) → Where IsRule (filter_rule_from_wire w)
unfolding filter_rule_from_wire
filter_rule_from_wire-IsRule w =
    let srcs = filter_map parse_filter_cidr w.src_ips in
    let dsts = filter_map range_from_wire w.dst_ports in
    Where-if IsRule (not (is_empty srcs) && not (is_empty dsts))
      (record { src_ips = srcs; dst_ports = dsts; ip_protocols = w.ip_proto })
      (λ q. (
        All-filter_map IsIp parse_filter_cidr parse_filter_cidr-IsIp w.src_ips,
        ground arith,
        All-filter_map IsRange range_from_wire range_from_wire-IsRange w.dst_ports,
        ground arith,
      ))

pub parse_addrs-IsIp : (addrs : List Text) → All IsIp (parse_addrs addrs)
unfolding parse_addrs
parse_addrs-IsIp addrs = All-filter_map IsIp parse_ipv4_cidr parse_ipv4_cidr-IsIp addrs

pub allowed_of-IsIp : (n : NodeWire) → All IsIp (allowed_of n)
unfolding allowed_of
allowed_of-IsIp n = go (is_empty (parse_addrs n.allowed_ips))
  where
    go : (b : Bool) → All IsIp (if b then parse_addrs n.addresses else parse_addrs n.allowed_ips)
    go true = parse_addrs-IsIp n.addresses
    go false = parse_addrs-IsIp n.allowed_ips
