-- ===== src/Wg/Engine/Coherence.antt =====
-- The three indices describe one set of peers.
use tailscale_vita.Prelude.{
  ℕ, suc, ◌<◌, ◌≡◌, ap, lookup-insert_self, ◌≢◌, inl, inr, List, none, some, lookup, remove,
  lookup-insert, lookup-remove, lookup-remove_self, list_eq, list_beq_iff, nat_eq, arith, Any,
  Any-pin, Any-append, Any-map, Any-mono, Option-cases,
}
use tailscale_vita.Wg.Peer.{Key, Peer, Ipv4Cidr}
use tailscale_vita.Wg.Indices.Routes.{Route, insert_peer, remove_peer}
use tailscale_vita.Wg.Indices.Sorting.{Any-sort, Any-retain_others}
use tailscale_vita.Wg.Indices.Tables.{Indices, insert_all, remove_key}

-- `next` bounds the indices that have been given out.
pub record IsCoherent (x : Indices) (next : ℕ) : Type 0 where
  pub by_key :
      (k : Key) (p : Peer)
      → lookup k x.by_pubkey ≡ some p
      → (p.pubkey ≡ k) × (lookup p.our_index x.by_idx ≡ some p)
  pub by_index :
      (i : ℕ) (p : Peer)
      → lookup i x.by_idx ≡ some p
      → (p.our_index ≡ i) × (lookup p.pubkey x.by_pubkey ≡ some p) × (i < next)
  pub by_route :
      (c : Ipv4Cidr) (p : Peer)
      → Any (λ r. r ≡ (c, p)) x.by_ip.entries
      → (lookup p.pubkey x.by_pubkey ≡ some p) × Any (λ d. d ≡ c) p.allowed_ips

abbrev without : Key → Peer → Indices → Indices
without k q x = record {
  by_pubkey = remove k x.by_pubkey;
  by_idx = remove q.our_index x.by_idx;
  by_ip = remove_peer q x.by_ip;
}

module _ {x : Indices} {next : ℕ} (h : IsCoherent x next) (k : Key) (q : Peer)
    (at : lookup k x.by_pubkey ≡ some q) where
  without-by_key :
      (j : Key) (p : Peer)
      → lookup j (without k q x).by_pubkey ≡ some p
      → (p.pubkey ≡ j) × (lookup p.our_index (without k q x).by_idx ≡ some p)
  without-by_key j p e = ground (
    arith,
    lookup-remove k j x.by_pubkey,
    lookup-remove q.our_index p.our_index x.by_idx,
    list_beq_iff k j,
    h.by_key j p,
    h.by_key k q at,
  )

  without-by_index :
      (i : ℕ) (p : Peer)
      → lookup i (without k q x).by_idx ≡ some p
      → (p.our_index ≡ i) × (lookup p.pubkey (without k q x).by_pubkey ≡ some p) × (i < next)
  without-by_index i p e = ground (
    arith,
    lookup-remove q.our_index i x.by_idx,
    lookup-remove k p.pubkey x.by_pubkey,
    list_beq_iff k p.pubkey,
    h.by_index i p,
    h.by_key k q at,
  )

  without-by_route :
      (c : Ipv4Cidr) (p : Peer)
      → Any (λ r. r ≡ (c, p)) (without k q x).by_ip.entries
      → (lookup p.pubkey (without k q x).by_pubkey ≡ some p) × Any (λ d. d ≡ c) p.allowed_ips
  unfolding remove_peer
  without-by_route c p e =
      let (m, other) =
        Any-pin (λ r. r.1.pubkey ≢ q.pubkey) (c, p) x.by_ip.entries
          (Any-retain_others (λ r. r ≡ (c, p)) q.pubkey x.by_ip.entries e) in
      ground (
        arith,
        h.by_route c p m,
        other,
        lookup-remove k p.pubkey x.by_pubkey,
        list_beq_iff k p.pubkey,
        h.by_key k q at,
      )

  without-IsCoherent : IsCoherent (without k q x) next
  without-IsCoherent = record {
    by_key = without-by_key;
    by_index = without-by_index;
    by_route = without-by_route;
  }

pub remove_key-IsCoherent :
    (x : Indices) (next : ℕ) (k : Key) → IsCoherent x next → IsCoherent (remove_key k x) next
unfolding remove_key
remove_key-IsCoherent x next k h = elim (Option-cases (lookup k x.by_pubkey)) [
  | inl n ↦ rw (n, remove_key) h
  | inr (q, s) ↦ rw (s, remove_key) (without-IsCoherent h k q s)
]

-- A removed key is found no more.
pub remove_key-lookup : (x : Indices) (k : Key) → lookup k (remove_key k x).by_pubkey ≡ none
unfolding remove_key
remove_key-lookup x k = elim (Option-cases (lookup k x.by_pubkey)) [
  | inl n ↦ rw (n, remove_key) n
  | inr (q, s) ↦ rw (s, remove_key) (lookup-remove_self k x.by_pubkey)
]

pub remove_key-lookup_other :
    (x : Indices) (k j : Key) → j ≢ k → lookup j (remove_key k x).by_pubkey ≡ lookup j x.by_pubkey
unfolding remove_key
remove_key-lookup_other x k j ne = elim (Option-cases (lookup k x.by_pubkey)) [
  | inl n ↦ rw (n, remove_key)
  | inr (q, s) ↦
      rw (s, remove_key) (ground (arith, lookup-remove k j x.by_pubkey, list_beq_iff k j))
]

module _ {x : Indices} {next : ℕ} (h : IsCoherent x next) (p : Peer)
    (fresh : lookup p.pubkey x.by_pubkey ≡ none) (new : p.our_index ≡ next) where
  insert-by_key :
      (j : Key) (q : Peer)
      → lookup j (insert_all p x).by_pubkey ≡ some q
      → (q.pubkey ≡ j) × (lookup q.our_index (insert_all p x).by_idx ≡ some q)
  unfolding insert_all
  insert-by_key j q e = ground (
    arith,
    lookup-insert p.pubkey j p x.by_pubkey,
    lookup-insert p.our_index q.our_index p x.by_idx,
    list_beq_iff p.pubkey j,
    h.by_key j q,
    h.by_index q.our_index q,
  )

  insert-by_index :
      (i : ℕ) (q : Peer)
      → lookup i (insert_all p x).by_idx ≡ some q
      → (q.our_index ≡ i) × (lookup q.pubkey (insert_all p x).by_pubkey ≡ some q) × (i < suc next)
  unfolding insert_all
  insert-by_index i q e = ground (
    arith,
    lookup-insert p.our_index i p x.by_idx,
    lookup-insert p.pubkey q.pubkey p x.by_pubkey,
    list_beq_iff p.pubkey q.pubkey,
    h.by_index i q,
  )

  same_pair : {c d : Ipv4Cidr} {q : Peer} → ◌≡◌ {A = Route} (d, p) (c, q) → (d ≡ c) × (p ≡ q)
  same_pair e = (ap (λ r. r.0) e, ap (λ r. r.1) e)

  split_pair :
      (c : Ipv4Cidr) (q : Peer) (cs : List Ipv4Cidr)
      → Any (λ d. ◌≡◌ {A = Route} (d, p) (c, q)) cs
      → Any (λ d. (d ≡ c) × (p ≡ q)) cs
  split_pair c q cs m = Any-mono (λ d e. same_pair e) cs m

  insert-by_route :
      (c : Ipv4Cidr) (q : Peer)
      → Any (λ r. r ≡ (c, q)) (insert_all p x).by_ip.entries
      → (lookup q.pubkey (insert_all p x).by_pubkey ≡ some q) × Any (λ d. d ≡ c) q.allowed_ips
  unfolding insert_all insert_peer
  insert-by_route c q e =
      elim (Any-append (λ r. r ≡ (c, q)) x.by_ip.entries _ (Any-sort (λ r. r ≡ (c, q)) _ e)) [
        | inl old ↦ ground (
          arith,
          h.by_route c q old,
          lookup-insert p.pubkey q.pubkey p x.by_pubkey,
          list_beq_iff p.pubkey q.pubkey,
        )
        | inr m ↦
            let m' = Any-map (λ r. r ≡ (c, q)) (λ cidr. (cidr, p)) p.allowed_ips m in
            let (a, e') = Any-pin (λ d. p ≡ q) c p.allowed_ips (split_pair c q p.allowed_ips m') in
            rw (← e') (lookup-insert_self p.pubkey p x.by_pubkey, a)
      ]

  pub insert_all-IsCoherent : IsCoherent (insert_all p x) (suc next)
  insert_all-IsCoherent = record {
    by_key = insert-by_key;
    by_index = insert-by_index;
    by_route = insert-by_route;
  }
