-- ===== src/Wg/Indices/Routes.antt =====
-- indices.rs: `AllowedIps`, the routes in descending order of their prefix.
use tailscale_vita.Prelude.{
  List, [], ◌∷◌, ◌++◌, map, Option, none, some, ltb, if◌then◌else◌, ◌==◌, nat_eq, list_eq,
}
use tailscale_vita.Wg.Peer.{Ipv4Cidr, Ipv4Addr, Key, Peer, contains}

abbrev pub Route : Type 0
Route = Ipv4Cidr × Peer

pub record AllowedIps : Type 0 where
  pub entries : List Route

unfoldable pub new : AllowedIps
new = record { entries = [] }

-- `sort_by(|a, b| b.0.prefix.cmp(&a.0.prefix))`, a stable sort: an entry goes before those of the
-- same prefix that followed it.
unfoldable pub put : Route → List Route → List Route
put r [] = r ∷ []
put r (s ∷ rest) = if ltb r.0.prefix s.0.prefix then s ∷ put r rest else r ∷ s ∷ rest

unfoldable pub sort : List Route → List Route
unfolding put
sort [] = []
sort (r ∷ rest) = put r (sort rest)

unfoldable pub insert_peer : Peer → AllowedIps → AllowedIps
insert_peer peer a = record {
  entries = sort (a.entries ++ map (λ cidr. (cidr, peer)) peer.allowed_ips);
}

-- `retain(|(_, p)| p.pubkey != target)`
unfoldable pub retain_others : Key → List Route → List Route
retain_others target [] = []
retain_others target (r ∷ rest) =
    let others = retain_others target rest in if r.1.pubkey == target then others else r ∷ others

unfoldable pub remove_peer : Peer → AllowedIps → AllowedIps
remove_peer peer a = record { entries = retain_others peer.pubkey a.entries }

-- `iter().find(..).map(..)`
unfoldable pub find_route : Ipv4Addr → List Route → Option Peer
find_route ip [] = none
find_route ip (r ∷ rest) = if contains r.0 ip then some r.1 else find_route ip rest

unfoldable pub lookup_ip : AllowedIps → Ipv4Addr → Option Peer
lookup_ip a ip = find_route ip a.entries
