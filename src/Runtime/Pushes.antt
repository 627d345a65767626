-- ===== src/Runtime/Pushes.antt =====
-- What pushing and removing nodes does to one node of the socket and to one Disco key.
use tailscale_vita.Prelude.{
  ℕ, ◌≡◌, refl, subst, sym, ap, ◌∙◌, inl, inr, false, List, [], ◌∷◌, none, some, is_empty, ◌==◌,
  list_eq, nat_eq, lookup, lookup-insert, lookup-insert_self, lookup-remove, lookup-remove_self,
  Option-cases, Has, All, Any, Bool-cases, for_each, filter, not, lookup-filter-none, list_beq_iff,
  arith,
}
use tailscale_vita.Wg.Peer.{Key, SocketAddr}
use tailscale_vita.Control.NetMap.State.{PeerSnapshot}
use tailscale_vita.Magic.State.{MagicState, PeerState, upsert_peer, remove_peer}
use tailscale_vita.Runtime.Delta.{push_candidates}

module _ (now : ℕ) (node_pub disco_pub : Key) (eps : List SocketAddr) (s : MagicState) where
  upsert_peer-Has : Has node_pub (upsert_peer now node_pub disco_pub eps s).peers
  unfolding upsert_peer
  upsert_peer-Has = elim (Option-cases (lookup node_pub s.peers)) [
    | inl e ↦ rw (e, upsert_peer) (_, lookup-insert_self node_pub _ s.peers)
    | inr (p, e) ↦ rw (e, upsert_peer) (_, lookup-insert_self node_pub _ s.peers)
  ]

  upsert_peer-other :
      (other : Key)
      → (node_pub == other) ≡ false
      → lookup other (upsert_peer now node_pub disco_pub eps s).peers ≡ lookup other s.peers
  unfolding upsert_peer
  upsert_peer-other other apart = elim (Option-cases (lookup node_pub s.peers)) [
    | inl e ↦ rw (e, upsert_peer) (lookup-insert node_pub other _ s.peers ∙ rw apart refl)
    | inr (p, e) ↦ rw (e, upsert_peer) (lookup-insert node_pub other _ s.peers ∙ rw apart refl)
  ]

-- Removing a node takes its Disco key out of the table, whichever node the table had for it.
remove_peer-unlinks :
    (node_pub : Key) (s : MagicState) (q : PeerState)
    → lookup node_pub s.peers ≡ some q
    → lookup q.disco_pub (remove_peer node_pub s).disco_to_node ≡ none
unfolding remove_peer
remove_peer-unlinks node_pub s q e =
    rw (e, remove_peer) (lookup-remove_self q.disco_pub s.disco_to_node)

pub remove_peer-Has :
    (node_pub other : Key) (s : MagicState)
    → (node_pub == other) ≡ false
    → Has other s.peers
    → Has other (remove_peer node_pub s).peers
unfolding remove_peer
remove_peer-Has node_pub other s apart (v, l) = elim (Option-cases (lookup node_pub s.peers)) [
  | inl e ↦ rw (e, remove_peer) (v, l)
  | inr (q, e) ↦ rw (e, remove_peer) (v, lookup-remove node_pub other s.peers ∙ rw apart l)
]

module _ (now : ℕ) where
  upsert_peer-Has_kept :
      (node_pub disco_pub other : Key) (eps : List SocketAddr) (s : MagicState)
      → Has other s.peers
      → Has other (upsert_peer now node_pub disco_pub eps s).peers
  upsert_peer-Has_kept node_pub disco_pub other eps s (v, l) =
      elim (Bool-cases (node_pub == other)) [
        | inl same ↦
            subst (λ k. Has k (upsert_peer now node_pub disco_pub eps s).peers)
              ((list_beq_iff node_pub other).0 same) (upsert_peer-Has now node_pub disco_pub eps s)
        | inr apart ↦ (v, upsert_peer-other now node_pub disco_pub eps s other apart ∙ l)
      ]

  upsert_peer-unlinked :
      (node_pub disco_pub d : Key) (eps : List SocketAddr) (s : MagicState)
      → (disco_pub == d) ≡ false
      → lookup d s.disco_to_node ≡ none
      → lookup d (upsert_peer now node_pub disco_pub eps s).disco_to_node ≡ none
  unfolding upsert_peer
  upsert_peer-unlinked node_pub disco_pub d eps s apart gone =
      lookup-insert disco_pub d node_pub (filter (λ (d, n). not (n == node_pub)) s.disco_to_node)
      ∙ rw apart (lookup-filter-none (λ (d, n). not (n == node_pub)) d s.disco_to_node gone)

  -- What one pushed node does to another, to a node that is there, and to a key with no node.
  push_candidates-other :
      (x : PeerSnapshot SocketAddr) (other : Key) (s : MagicState)
      → (x.node_key == other) ≡ false
      → lookup other (push_candidates now x s).peers ≡ lookup other s.peers
  unfolding push_candidates
  push_candidates-other x other s apart = elim (Option-cases x.disco_key) [
    | inl e ↦ rw (e, push_candidates) refl
    | inr (d, e) ↦ elim (Bool-cases (is_empty x.endpoints)) [
      | inl bare ↦ rw (e, push_candidates) (rw bare refl)
      | inr listed ↦
          rw (e, push_candidates)
            (rw listed (upsert_peer-other now x.node_key d x.endpoints s other apart))
    ]
  ]

  pub push_candidates-Has :
      (x : PeerSnapshot SocketAddr) (other : Key) (s : MagicState)
      → Has other s.peers
      → Has other (push_candidates now x s).peers
  unfolding push_candidates
  push_candidates-Has x other s has = elim (Option-cases x.disco_key) [
    | inl e ↦ rw (e, push_candidates) has
    | inr (d, e) ↦ elim (Bool-cases (is_empty x.endpoints)) [
      | inl bare ↦ rw (e, push_candidates) (rw bare has)
      | inr listed ↦
          rw (e, push_candidates)
            (rw listed (upsert_peer-Has_kept x.node_key d other x.endpoints s has))
    ]
  ]

  pub push_candidates-unlinked :
      (x : PeerSnapshot SocketAddr) (d : Key) (s : MagicState)
      → (x.disco_key ≡ some d → ⊥)
      → lookup d s.disco_to_node ≡ none
      → lookup d (push_candidates now x s).disco_to_node ≡ none
  unfolding push_candidates
  push_candidates-unlinked x d s foreign gone = elim (Option-cases x.disco_key) [
    | inl e ↦ rw (e, push_candidates) gone
    | inr (c, e) ↦ elim (Bool-cases (is_empty x.endpoints)) [
      | inl bare ↦ rw (e, push_candidates) (rw bare gone)
      | inr listed ↦
          rw (e, push_candidates)
            (rw listed (upsert_peer-unlinked x.node_key c d x.endpoints s (apart c e) gone))
    ]
  ]
    where
      apart : (c : Key) → x.disco_key ≡ some c → (c == d) ≡ false
      apart c e = elim (Bool-cases (c == d)) [
        | inl same ↦ absurd (foreign (e ∙ ap some ((list_beq_iff c d).0 same)))
        | inr other ↦ other
      ]

  -- The same over all pushed nodes.
  pub upserted-other :
      (xs : List (PeerSnapshot SocketAddr)) (other : Key) (s : MagicState)
      → All (λ x. (x.node_key == other) ≡ false) xs
      → lookup other (for_each (push_candidates now) xs s).peers ≡ lookup other s.peers
  unfolding for_each
  upserted-other [] other s h = refl
  upserted-other (x ∷ xs) other s (apart, h) =
      upserted-other xs other (push_candidates now x s) h ∙ push_candidates-other x other s apart

  upserted-Has_kept :
      (xs : List (PeerSnapshot SocketAddr)) (other : Key) (s : MagicState)
      → Has other s.peers
      → Has other (for_each (push_candidates now) xs s).peers
  unfolding for_each
  upserted-Has_kept [] other s has = has
  upserted-Has_kept (x ∷ xs) other s has =
      upserted-Has_kept xs other (push_candidates now x s) (push_candidates-Has x other s has)

  pub upserted-Has :
      (xs : List (PeerSnapshot SocketAddr)) (p : PeerSnapshot SocketAddr) (d : Key) (s : MagicState)
      → p.disco_key ≡ some d
      → is_empty p.endpoints ≡ false
      → Any (λ x. x ≡ p) xs
      → Has p.node_key (for_each (push_candidates now) xs s).peers
  unfolding for_each push_candidates
  upserted-Has [] p d s key listed h = absurd h
  upserted-Has (x ∷ xs) p d s key listed (inl same) =
      upserted-Has_kept xs p.node_key (push_candidates now x s) (
        subst (λ x. Has p.node_key (push_candidates now x s).peers) (sym same)
          (rw (key, push_candidates) (rw listed (upsert_peer-Has now p.node_key d p.endpoints s))))
  upserted-Has (x ∷ xs) p d s key listed (inr h) =
      upserted-Has xs p d (push_candidates now x s) key listed h

remove_peer-other :
    (node_pub other : Key) (s : MagicState)
    → (node_pub == other) ≡ false
    → lookup other (remove_peer node_pub s).peers ≡ lookup other s.peers
unfolding remove_peer
remove_peer-other node_pub other s apart = elim (Option-cases (lookup node_pub s.peers)) [
  | inl e ↦ rw (e, remove_peer) refl
  | inr (q, e) ↦ rw (e, remove_peer) (lookup-remove node_pub other s.peers ∙ rw apart refl)
]

pub remove_peer-unlinked :
    (node_pub d : Key) (s : MagicState)
    → lookup d s.disco_to_node ≡ none
    → lookup d (remove_peer node_pub s).disco_to_node ≡ none
unfolding remove_peer
remove_peer-unlinked node_pub d s gone = elim (Option-cases (lookup node_pub s.peers)) [
  | inl e ↦ rw (e, remove_peer) gone
  | inr (q, e) ↦ elim (Bool-cases (q.disco_pub == d)) [
    | inl same ↦ rw (e, remove_peer) (lookup-remove q.disco_pub d s.disco_to_node ∙ rw same refl)
    | inr other ↦ rw (e, remove_peer) (lookup-remove q.disco_pub d s.disco_to_node ∙ rw other gone)
  ]
]

pub removed-Has :
    (ks : List Key) (other : Key) (s : MagicState)
    → All (λ k. (k == other) ≡ false) ks
    → Has other s.peers
    → Has other (for_each remove_peer ks s).peers
unfolding for_each
removed-Has [] other s h has = has
removed-Has (k ∷ ks) other s (apart, h) has =
    removed-Has ks other (remove_peer k s) h (remove_peer-Has k other s apart has)

pub removed-unlinked :
    (ks : List Key) (d : Key) (s : MagicState)
    → lookup d s.disco_to_node ≡ none
    → lookup d (for_each remove_peer ks s).disco_to_node ≡ none
unfolding for_each
removed-unlinked [] d s gone = gone
removed-unlinked (k ∷ ks) d s gone =
    removed-unlinked ks d (remove_peer k s) (remove_peer-unlinked k d s gone)

pub removed-unlinks :
    (ks : List Key) (old : Key) (q : PeerState) (s : MagicState)
    → lookup old s.peers ≡ some q
    → Any (λ k. k ≡ old) ks
    → lookup q.disco_pub (for_each remove_peer ks s).disco_to_node ≡ none
unfolding for_each
removed-unlinks [] old q s known h = absurd h
removed-unlinks (k ∷ ks) old q s known h = elim (Bool-cases (k == old)) [
  | inl same ↦
      removed-unlinked ks q.disco_pub (remove_peer k s) (
        remove_peer-unlinks k s q
          (ap (λ k. lookup k s.peers) ((list_beq_iff k old).0 same) ∙ known))
  | inr apart ↦ elim h [
    | inl eq ↦ absurd (ground (arith, list_beq_iff k old))
    | inr later ↦
        removed-unlinks ks old q (remove_peer k s) (remove_peer-other k old s apart ∙ known) later
  ]
]
