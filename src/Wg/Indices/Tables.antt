-- ===== src/Wg/Indices/Tables.antt =====
-- indices.rs: `Indices`.
use tailscale_vita.Prelude.{
  ℕ, List, [], length, none, some, lookup, insert, remove, list_eq, nat_eq,
}
use tailscale_vita.Wg.Peer.{Key, Peer}
use tailscale_vita.Wg.Indices.Routes.{AllowedIps, insert_peer, remove_peer}
use tailscale_vita.Wg.Indices.Routes

pub record Indices : Type 0 where
  pub by_pubkey : List (Key × Peer)
  pub by_idx : List (ℕ × Peer)
  pub by_ip : AllowedIps

unfoldable pub new : Indices
new = record { by_pubkey = []; by_idx = []; by_ip = Routes.new }

unfoldable pub insert_all : Peer → Indices → Indices
insert_all peer x = record {
  by_pubkey = insert peer.pubkey peer x.by_pubkey;
  by_idx = insert peer.our_index peer x.by_idx;
  by_ip = insert_peer peer x.by_ip;
}

unfoldable pub remove_key : Key → Indices → Indices
remove_key pubkey x = elim (lookup pubkey x.by_pubkey) [
  | none ↦ x
  | some peer ↦ record {
    by_pubkey = remove pubkey x.by_pubkey;
    by_idx = remove peer.our_index x.by_idx;
    by_ip = remove_peer peer x.by_ip;
  }
]

unfoldable pub count : Indices → ℕ
count x = length x.by_pubkey
