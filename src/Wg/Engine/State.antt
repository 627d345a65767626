-- ===== src/Wg/Engine/State.antt =====
-- lib.rs: `Engine`. `boringtun` is a parameter: `Tunn::new` gives a tunnel's first state. The
-- objects behind `Arc<Peer>` are shared by the indices; `cells` holds what they mutate.
use tailscale_vita.Prelude.{
  ℕ, ◌+◌, ◌%◌, ◌^◌, Bool, true, List, [], ◌∷◌, Option, none, some, lookup, if◌then◌else◌, eqb, ◌&&◌,
  ◌==◌, Eq, list_eq, nat_eq, beq_self, ◌≡◌, ◌↔◌, arith,
}
use tailscale_vita.Wg.Peer.{
  Key, Peer, PeerConfig, PeerStats, no_stats, Cell, Ipv4Cidr, TransportAddr, set_transport_addr,
}
use tailscale_vita.Wg.Policy.Rules.{InboundPolicy, deny_all}
use tailscale_vita.Wg.Indices.Tables.{Indices, insert_all, remove_key, count}
use tailscale_vita.Wg.Indices.Tables

abbrev pub cidr_beq : Ipv4Cidr → Ipv4Cidr → Bool
cidr_beq a b = eqb a.addr b.addr && eqb a.prefix b.prefix

pub cidr_beq_iff : (a b : Ipv4Cidr) → (cidr_beq a b ≡ true) ↔ (a ≡ b)
cidr_beq_iff a b = ground arith

instance abbrev pub cidr_eq : Eq Ipv4Cidr
cidr_eq = record { beq = cidr_beq; beq_iff = cidr_beq_iff }

pub record Engine (T : Type 0) : Type 0 where
  pub indices : Indices
  pub inbound_policy : InboundPolicy
  pub next_idx : ℕ
  pub our_static_secret : Key
  pub cells : ℕ → Cell T

-- `Tunn::new(secret, pubkey, preshared_key, keepalive, index)`
abbrev pub NewTunn : Type 0 → Type 0
NewTunn T = Key → Key → Option Key → Option ℕ → ℕ → T

unfoldable pub write_cell {ℓ} : {C : Type ℓ} → (ℕ → C) → ℕ → C → ℕ → C
write_cell cells i c j = if eqb i j then c else cells j

pub write_cell_self {ℓ} : {C : Type ℓ} (cells : ℕ → C) (i : ℕ) (c : C) → write_cell cells i c i ≡ c
unfolding write_cell
write_cell_self cells i c = rw (beq_self i)

module _ {T : Type 0} where
  -- A write through an `Arc<Peer>`.
  unfoldable pub update_cell : Peer → (Cell T → Cell T) → Engine T → Engine T
  unfolding write_cell
  update_cell peer f e = record e {
    cells = write_cell e.cells peer.our_index (f (e.cells peer.our_index));
  }

  unfoldable pub build_peer : NewTunn T → PeerConfig → Engine T → Engine T
  unfolding write_cell
  build_peer new_tunn cfg e =
      let our_index = e.next_idx in
      let peer : Peer = record {
        pubkey = cfg.pubkey;
        our_index = our_index;
        allowed_ips = cfg.allowed_ips;
      } in
      let cell : Cell T = record {
        transport_addr = cfg.initial_endpoint;
        auth_src = none;
        tunn =
            new_tunn e.our_static_secret cfg.pubkey cfg.preshared_key cfg.persistent_keepalive_secs
              our_index;
        stats = no_stats;
      } in
      record e {
        indices = insert_all peer (remove_key cfg.pubkey e.indices);
        next_idx = (e.next_idx + 1) % 2 ^ 32;
        cells = write_cell e.cells our_index cell;
      }

  unfoldable pub refresh_endpoint : Peer → Option TransportAddr → Engine T → Engine T
  refresh_endpoint peer none e = e
  refresh_endpoint peer (some ep) e = update_cell peer (set_transport_addr ep) e

  unfoldable pub upsert_peer : NewTunn T → PeerConfig → Engine T → Engine T
  upsert_peer new_tunn cfg e = elim (lookup cfg.pubkey e.indices.by_pubkey) [
    | none ↦ build_peer new_tunn cfg e
    | some peer ↦
        if peer.allowed_ips == cfg.allowed_ips
        then refresh_endpoint peer cfg.initial_endpoint e
        else build_peer new_tunn cfg e
  ]

  unfoldable pub upsert_all : NewTunn T → List PeerConfig → Engine T → Engine T
  upsert_all new_tunn [] e = e
  upsert_all new_tunn (cfg ∷ cfgs) e = upsert_all new_tunn cfgs (upsert_peer new_tunn cfg e)

  -- `Engine::new`. The cells of no peer are never read; `blank` fills them.
  unfoldable pub new_engine : NewTunn T → (blank : Cell T) → Key → List PeerConfig → Engine T
  new_engine new_tunn blank secret peers = upsert_all new_tunn peers (record {
    indices = Tables.new;
    inbound_policy = deny_all;
    next_idx = 1;
    our_static_secret = secret;
    cells = λ i. blank;
  })

  unfoldable pub remove_peer : Key → Engine T → Engine T
  remove_peer pubkey e = record e { indices = remove_key pubkey e.indices }

  unfoldable pub set_inbound_policy : InboundPolicy → Engine T → Engine T
  set_inbound_policy policy e = record e { inbound_policy = policy }

  unfoldable pub set_endpoint : Key → TransportAddr → Engine T → Engine T
  set_endpoint pubkey endpoint e = elim (lookup pubkey e.indices.by_pubkey) [
    | none ↦ e
    | some peer ↦ update_cell peer (set_transport_addr endpoint) e
  ]

  unfoldable pub peer_stats : Key → Engine T → Option PeerStats
  peer_stats pubkey e = elim (lookup pubkey e.indices.by_pubkey) [
    | none ↦ none
    | some peer ↦ some (e.cells peer.our_index).stats
  ]

  unfoldable pub peer_count : Engine T → ℕ
  peer_count e = count e.indices
