-- ===== src/Wg/Engine/Upsert.antt =====
-- The control plane's calls keep the indices coherent, and a peer's session survives an update
-- that leaves its routes alone.
use tailscale_vita.Prelude.{
  ℕ, suc, ◌+◌, ◌%◌, ◌^◌, ◌≤◌, ◌<◌, ◌≡◌, refl, ◌≢◌, inl, inr, List, [], ◌∷◌, Option, none, some,
  lookup, lookup-insert, lookup-insert_self, length, ◌==◌, list_eq, list_beq_iff, nat_eq,
  beq-eq_false, arith, Option-cases, Bool-cases,
}
use tailscale_vita.Wg.Peer.{Key, Peer, PeerConfig, Cell, TransportAddr, set_transport_addr}
use tailscale_vita.Wg.Policy.Rules.{InboundPolicy, deny_all}
use tailscale_vita.Wg.Indices.Tables.{Indices, insert_all, remove_key}
use tailscale_vita.Wg.Indices.Tables
use tailscale_vita.Wg.Indices.Routes
use tailscale_vita.Wg.Engine.State.{
  Engine, NewTunn, cidr_eq, write_cell, update_cell, build_peer, refresh_endpoint, upsert_peer,
  upsert_all, new_engine, remove_peer, set_inbound_policy, set_endpoint,
}
use tailscale_vita.Wg.Engine.Coherence.{
  IsCoherent, remove_key-IsCoherent, remove_key-lookup, remove_key-lookup_other,
  insert_all-IsCoherent,
}

-- The calls that change an engine.
pub data Call : Type 0 where
  upserts : PeerConfig → Call
  removes : Key → Call
  sets_policy : InboundPolicy → Call
  sets_endpoint : Key → TransportAddr → Call

abbrev pub Coherent : {T : Type 0} → Engine T → Type 0
Coherent e = IsCoherent e.indices e.next_idx

module _ {T : Type 0} (new_tunn : NewTunn T) where
  unfoldable pub call : Engine T → Call → Engine T
  call e (upserts cfg) = upsert_peer new_tunn cfg e
  call e (removes k) = remove_peer k e
  call e (sets_policy p) = set_inbound_policy p e
  call e (sets_endpoint k addr) = set_endpoint k addr e

  unfoldable pub calls : Engine T → List Call → Engine T
  calls e [] = e
  calls e (c ∷ cs) = calls (call e c) cs

  build_peer-Coherent :
      (cfg : PeerConfig) (e : Engine T)
      → suc e.next_idx < 2 ^ 32
      → Coherent e
      → Coherent (build_peer new_tunn cfg e)
        × ((build_peer new_tunn cfg e).next_idx ≡ suc e.next_idx)
  unfolding build_peer
  build_peer-Coherent cfg e h co =
      let wrap : (e.next_idx + 1) % 2 ^ 32 ≡ suc e.next_idx = omega arith in
      (
        rw wrap (
            insert_all-IsCoherent (remove_key-IsCoherent e.indices e.next_idx cfg.pubkey co) _
              (remove_key-lookup e.indices cfg.pubkey) refl),
        wrap,
      )

  refresh_endpoint-keeps :
      (p : Peer) (ep : Option TransportAddr) (e : Engine T)
      → ((refresh_endpoint p ep e).indices ≡ e.indices)
        × ((refresh_endpoint p ep e).next_idx ≡ e.next_idx)
  unfolding refresh_endpoint update_cell
  refresh_endpoint-keeps p none e = (refl, refl)
  refresh_endpoint-keeps p (some ep) e = (refl, refl)

  -- What one call does to the indices.
  abbrev Steps : Engine T → Engine T → Type 0
  Steps e e' = Coherent e' × (e'.next_idx ≤ suc e.next_idx)

  kept :
      (e e' : Engine T)
      → Coherent e
      → e'.indices ≡ e.indices
      → e'.next_idx ≡ e.next_idx
      → Steps e e'
  kept e e' co p q = (rw (p, q) co, omega arith)

  built :
      (cfg : PeerConfig) (e : Engine T)
      → suc e.next_idx < 2 ^ 32
      → Coherent e
      → Steps e (build_peer new_tunn cfg e)
  built cfg e h co = let (c, n) = build_peer-Coherent cfg e h co in (c, omega arith)

  upsert_peer-Steps :
      (cfg : PeerConfig) (e : Engine T)
      → suc e.next_idx < 2 ^ 32
      → Coherent e
      → Steps e (upsert_peer new_tunn cfg e)
  unfolding upsert_peer
  upsert_peer-Steps cfg e h co = elim (Option-cases (lookup cfg.pubkey e.indices.by_pubkey)) [
    | inl n ↦ rw (n, upsert_peer) (built cfg e h co)
    | inr (p, s) ↦ elim (Bool-cases (p.allowed_ips == cfg.allowed_ips)) [
      | inl same ↦
          let (i, n) = refresh_endpoint-keeps p cfg.initial_endpoint e in
          rw (s, upsert_peer, same) (kept e (refresh_endpoint p cfg.initial_endpoint e) co i n)
      | inr other ↦ rw (s, upsert_peer, other) (built cfg e h co)
    ]
  ]

  set_endpoint-Steps :
      (k : Key) (addr : TransportAddr) (e : Engine T) → Coherent e → Steps e (set_endpoint k addr e)
  unfolding set_endpoint update_cell
  set_endpoint-Steps k addr e co = elim (Option-cases (lookup k e.indices.by_pubkey)) [
    | inl n ↦ rw (n, set_endpoint) (co, omega arith)
    | inr (p, s) ↦ rw (s, set_endpoint) (co, omega arith)
  ]

  call-Steps : (c : Call) (e : Engine T) → suc e.next_idx < 2 ^ 32 → Coherent e → Steps e (call e c)
  unfolding call
  call-Steps (upserts cfg) e h co = upsert_peer-Steps cfg e h co
  call-Steps (removes k) e h co =
      unfold remove_peer in (remove_key-IsCoherent e.indices e.next_idx k co, omega arith)
  call-Steps (sets_policy p) e h co = unfold set_inbound_policy in (co, omega arith)
  call-Steps (sets_endpoint k addr) e h co = set_endpoint-Steps k addr e co

  calls-Coherent :
      (cs : List Call) (e : Engine T)
      → e.next_idx + length cs < 2 ^ 32
      → Coherent e
      → Coherent (calls e cs)
  unfolding calls
  calls-Coherent [] e h co = co
  calls-Coherent (c ∷ cs) e h co =
      let (co', le) = call-Steps c e (omega arith) co in
      calls-Coherent cs (call e c) (omega arith) co'

  new-Coherent : (e : Engine T) → e.indices ≡ Tables.new → Coherent e
  unfolding Tables.new Routes.new lookup
  new-Coherent e p = rw p (record {
    by_key = λ k q h. absurd (cc);
    by_index = λ k q h. absurd (cc);
    by_route = λ c q h. absurd h;
  })

  upsert_all-Coherent :
      (cfgs : List PeerConfig) (e : Engine T)
      → e.next_idx + length cfgs < 2 ^ 32
      → Coherent e
      → Coherent (upsert_all new_tunn cfgs e)
        × ((upsert_all new_tunn cfgs e).next_idx ≤ e.next_idx + length cfgs)
  unfolding upsert_all
  upsert_all-Coherent [] e h co = (co, omega arith)
  upsert_all-Coherent (cfg ∷ cfgs) e h co =
      let (co', le) = upsert_peer-Steps cfg e (omega arith) co in
      let (co'', le') = upsert_all-Coherent cfgs (upsert_peer new_tunn cfg e) (omega arith) co' in
      (co'', omega arith)

  -- Whatever peers an engine starts with and whatever calls the control plane then makes, as long
  -- as they are fewer than 2 ^ 32 - 1 in all, the three indices describe one set of peers: a key
  -- and an index find the same peer, each index is below the next one, and every route belongs to
  -- a peer that its key finds and to one of that peer's networks.
  pub calls-new_engine-Coherent :
      (blank : Cell T) (secret : Key) (peers : List PeerConfig) (cs : List Call)
      → length peers + length cs + 1 < 2 ^ 32
      → Coherent (calls (new_engine new_tunn blank secret peers) cs)
  unfolding new_engine
  calls-new_engine-Coherent blank secret peers cs h =
      let start : Engine T = record {
        indices = Tables.new;
        inbound_policy = deny_all;
        next_idx = 1;
        our_static_secret = secret;
        cells = λ i. blank;
      } in
      let (co, le) = upsert_all-Coherent peers start (omega arith) (new-Coherent start refl) in
      calls-Coherent cs (upsert_all new_tunn peers start) (omega arith) co

module _ {T : Type 0} (new_tunn : NewTunn T) (cfg : PeerConfig) (e : Engine T) where
  upsert_known :
      (p : Peer)
      → lookup cfg.pubkey e.indices.by_pubkey ≡ some p
      → p.allowed_ips ≡ cfg.allowed_ips
      → upsert_peer new_tunn cfg e ≡ refresh_endpoint p cfg.initial_endpoint e
  unfolding upsert_peer
  upsert_known p s same = rw (s, upsert_peer, (list_beq_iff p.allowed_ips cfg.allowed_ips).1 same)

  upsert_other :
      ((p : Peer)
        → lookup cfg.pubkey e.indices.by_pubkey ≡ some p
        → p.allowed_ips ≢ cfg.allowed_ips)
      → upsert_peer new_tunn cfg e ≡ build_peer new_tunn cfg e
  unfolding upsert_peer
  upsert_other other = elim (Option-cases (lookup cfg.pubkey e.indices.by_pubkey)) [
    | inl n ↦ rw (n, upsert_peer)
    | inr (p, s) ↦ rw (s, upsert_peer, beq-eq_false p.allowed_ips cfg.allowed_ips (other p s))
  ]

  abbrev pub KeepsSession : Peer → Option TransportAddr → ℕ → Engine T → Type 0
  KeepsSession p ep i e' =
      (e'.indices ≡ e.indices)
      × (e'.next_idx ≡ e.next_idx)
      × ((e'.cells i).tunn ≡ (e.cells i).tunn)
      × ((e'.cells i).stats ≡ (e.cells i).stats)
      × ((e'.cells i).auth_src ≡ (e.cells i).auth_src)
      × ((e'.cells p.our_index).transport_addr
          ≡ elim ep [ none ↦ (e.cells p.our_index).transport_addr | some a ↦ some a ])

  refresh_endpoint-KeepsSession :
      (p : Peer) (ep : Option TransportAddr) (i : ℕ) → KeepsSession p ep i (refresh_endpoint p ep e)
  unfolding refresh_endpoint update_cell set_transport_addr write_cell
  refresh_endpoint-KeepsSession p none i = (refl, refl, refl, refl, refl, refl)
  refresh_endpoint-KeepsSession p (some a) i =
      (refl, refl, ground arith, ground arith, ground arith, ground arith)

  -- After an update of a peer that is known with the same networks, the engine has the same
  -- indices and hands out the same next index; no tunnel, statistics or roaming address changes,
  -- and the peer's fallback address is the given endpoint, or the old one if none is given.
  pub upsert_peer-KeepsSession :
      (p : Peer) (i : ℕ)
      → lookup cfg.pubkey e.indices.by_pubkey ≡ some p
      → p.allowed_ips ≡ cfg.allowed_ips
      → KeepsSession p cfg.initial_endpoint i (upsert_peer new_tunn cfg e)
  upsert_peer-KeepsSession p i s same =
      rw (upsert_known p s same) (refresh_endpoint-KeepsSession p cfg.initial_endpoint i)

  abbrev pub Rebuilt : Key → Engine T → Type 0
  Rebuilt k e' =
      let p : Peer = record {
        pubkey = cfg.pubkey;
        our_index = e.next_idx;
        allowed_ips = cfg.allowed_ips;
      } in
      (lookup cfg.pubkey e'.indices.by_pubkey ≡ some p)
      × (lookup e.next_idx e'.indices.by_idx ≡ some p)
      × ((e'.cells e.next_idx).tunn
          ≡ new_tunn e.our_static_secret cfg.pubkey cfg.preshared_key cfg.persistent_keepalive_secs
              e.next_idx)
      × ((e'.cells e.next_idx).transport_addr ≡ cfg.initial_endpoint)
      × ((e'.cells e.next_idx).auth_src ≡ none)
      × (lookup k e'.indices.by_pubkey ≡ lookup k e.indices.by_pubkey)

  build_peer-Rebuilt : (k : Key) → k ≢ cfg.pubkey → Rebuilt k (build_peer new_tunn cfg e)
  unfolding build_peer insert_all write_cell
  build_peer-Rebuilt k ne = (
    lookup-insert_self cfg.pubkey _ _,
    lookup-insert_self e.next_idx _ _,
    ground arith,
    ground arith,
    ground arith,
    ground (
      arith,
      lookup-insert cfg.pubkey k
          (record { pubkey = cfg.pubkey; our_index = e.next_idx; allowed_ips = cfg.allowed_ips })
          (remove_key cfg.pubkey e.indices).by_pubkey,
      list_beq_iff cfg.pubkey k,
      remove_key-lookup_other e.indices cfg.pubkey k ne,
    ),
  )

  -- After an update of a new peer, or of one whose networks change, its key and the next index find
  -- a peer with the given networks, whose tunnel is a new one, whose fallback address is the given
  -- endpoint and which has no roaming address; any other key finds what it found.
  pub upsert_peer-rebuilds :
      (k : Key)
      → k ≢ cfg.pubkey
      → ((p : Peer)
          → lookup cfg.pubkey e.indices.by_pubkey ≡ some p
          → p.allowed_ips ≢ cfg.allowed_ips)
      → Rebuilt k (upsert_peer new_tunn cfg e)
  upsert_peer-rebuilds k ne other = rw (upsert_other other) (build_peer-Rebuilt k ne)
