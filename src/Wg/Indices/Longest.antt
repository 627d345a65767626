-- ===== src/Wg/Indices/Longest.antt =====
-- The route that is found has the longest prefix.
use tailscale_vita.Prelude.{
  ℕ, ◌≤◌, ◌≡◌, refl, ◌⊎◌, inl, inr, true, false, List, [], ◌∷◌, All, Any, Option, none, some, arith,
  Bool-cases,
}
use tailscale_vita.Wg.Peer.{Ipv4Cidr, Ipv4Addr, Peer, contains}
use tailscale_vita.Wg.Indices.Routes.{
  Route, AllowedIps, new, insert_peer, remove_peer, find_route, lookup_ip,
}
use tailscale_vita.Wg.Indices.Sorting.{AtMost, IsSorted, sort-IsSorted, retain_others-IsSorted}

-- No route longer than `n` covers the address.
abbrev pub NoneLonger : Ipv4Addr → ℕ → List Route → Type 0
NoneLonger ip n rs = All (λ r. (contains r.0 ip ≡ false) ⊎ (r.0.prefix ≤ n)) rs

abbrev pub Longest : Ipv4Addr → List Route → Option Peer → Type 0
Longest ip rs none = All (λ r. contains r.0 ip ≡ false) rs
Longest ip rs (some p) =
    (c : Ipv4Cidr) × Any (λ r. r ≡ (c, p)) rs × (contains c ip ≡ true) × NoneLonger ip c.prefix rs

AtMost-NoneLonger : (ip n : ℕ) (rs : List Route) → AtMost n rs → NoneLonger ip n rs
AtMost-NoneLonger ip n [] h = tt
AtMost-NoneLonger ip n (r ∷ rs) h = (inr h.0, AtMost-NoneLonger ip n rs h.1)

Longest-skip :
    (ip : Ipv4Addr) (r : Route) (rs : List Route) (o : Option Peer)
    → contains r.0 ip ≡ false
    → Longest ip rs o
    → Longest ip (r ∷ rs) o
Longest-skip ip r rs none e h = (e, h)
Longest-skip ip r rs (some p) e (c, at, covers, longest) = (c, inr at, covers, (inl e, longest))

find_route-Longest :
    (ip : Ipv4Addr) (rs : List Route) → IsSorted rs → Longest ip rs (find_route ip rs)
unfolding find_route
find_route-Longest ip [] h = tt
find_route-Longest ip (r ∷ rs) h = elim (Bool-cases (contains r.0 ip)) [
  | inl e ↦ rw e (r.0, inl refl, e, (inr (omega arith), AtMost-NoneLonger ip r.0.prefix rs h.0))
  | inr e ↦ rw e (Longest-skip ip r rs (find_route ip rs) e (find_route-Longest ip rs h.1))
]

-- The changes that the engine makes to its routes.
pub data Change : Type 0 where
  inserted removed : Peer → Change

unfoldable pub change : AllowedIps → Change → AllowedIps
change a (inserted p) = insert_peer p a
change a (removed p) = remove_peer p a

unfoldable pub changes : AllowedIps → List Change → AllowedIps
changes a [] = a
changes a (c ∷ cs) = changes (change a c) cs

change-IsSorted : (a : AllowedIps) (c : Change) → IsSorted a.entries → IsSorted (change a c).entries
unfolding change insert_peer remove_peer
change-IsSorted a (inserted p) h = sort-IsSorted _
change-IsSorted a (removed p) h = retain_others-IsSorted p.pubkey a.entries h

changes-IsSorted :
    (a : AllowedIps) (cs : List Change) → IsSorted a.entries → IsSorted (changes a cs).entries
unfolding changes
changes-IsSorted a [] h = h
changes-IsSorted a (c ∷ cs) h = changes-IsSorted (change a c) cs (change-IsSorted a c h)

-- After any insertions and removals of peers, a lookup answers none when no route covers the
-- address, and otherwise the peer of a route that covers it and that no covering route exceeds in
-- prefix length.
pub lookup_ip-Longest :
    (cs : List Change) (ip : Ipv4Addr)
    → Longest ip (changes new cs).entries (lookup_ip (changes new cs) ip)
unfolding lookup_ip
lookup_ip-Longest cs ip =
    find_route-Longest ip (changes new cs).entries (changes-IsSorted new cs sorted)
  where
    sorted : IsSorted new.entries
    sorted = unfold new in tt
