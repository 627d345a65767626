-- ===== src/Control/NetMap/FullSet.antt =====
-- netmap.rs: what a full set of peers, and a change of peers, leave in the map.
use tailscale_vita.Prelude.{
  ◌≡◌, ◌≢◌, refl, ◌∙◌, Bool, true, false, List, [], ◌∷◌, ◌++◌, Option, none, some, if◌then◌else◌,
  ◌||◌, ◌==◌, any, list_eq, nat_eq, filter_map, lookup, insert, remove, keys, contains,
  lookup-insert, lookup-remove, lookup-insert_self, lookup-remove_self, beq-eq_false, Bool-cases,
  Option-cases, inl, inr, arith,
}
use mathlib.Core.Option
use tailscale_vita.Prelude.Int.{ℤ, int_eq}
use tailscale_vita.Control.Wire.{Text, NodeWire}
use tailscale_vita.Control.Parse.{NodeKeyBytes, parse_nodekey}
use tailscale_vita.Control.NetMap.State.{PeerSnapshot}
use tailscale_vita.Control.NetMap.Convert.{node_to_snapshot, snapshot_with}
use tailscale_vita.Control.NetMap.Apply.{
  Applied, drop_absent, upsert, upsert_all, apply_removed, apply_peers, apply_peers_changed,
}

abbrev pub or_old : {A : Type 0} → Option A → Option A → Option A
or_old none o = o
or_old (some a) o = some a

contains-nil : (k : NodeKeyBytes) → contains [] k ≡ false
unfolding contains any
contains-nil k = refl

contains-cons :
    (x : NodeKeyBytes) (xs : List NodeKeyBytes) (k : NodeKeyBytes)
    → contains (x ∷ xs) k ≡ (x == k || contains xs k)
unfolding contains any
contains-cons x xs k = refl

or_old-nil : (id : ℤ) (o : Option NodeKeyBytes) → or_old o (lookup id []) ≡ o
unfolding lookup
or_old-nil id (some k) = refl
or_old-nil id none = refl

if_same : {A : Type 0} (b : Bool) (x : A) → (if b then x else x) ≡ x
if_same true x = refl
if_same false x = refl

pub or_old-if :
    {A : Type 0} (b : Bool) (x : A) (o : Option A)
    → (if b then some x else o) ≡ or_old (if b then some x else none) o
or_old-if true x o = refl
or_old-if false x o = refl

module _ {S : Type 0} where
  -- The last snapshot of a list with a given key, and the key of the last with a given id.
  abbrev pub last_with_key : NodeKeyBytes → List (PeerSnapshot S) → Option (PeerSnapshot S)
  last_with_key k [] = none
  last_with_key k (p ∷ ps) = elim (last_with_key k ps) [
    | some q ↦ some q
    | none ↦ if p.node_key == k then some p else none
  ]

  abbrev pub last_key_of : ℤ → List (PeerSnapshot S) → Option NodeKeyBytes
  last_key_of id [] = none
  last_key_of id (p ∷ ps) = elim (last_key_of id ps) [
    | some k ↦ some k
    | none ↦ if p.node_id == id then some p.node_key else none
  ]

  lookup-upsert_all :
      (k : NodeKeyBytes) (ps : List (PeerSnapshot S)) (a : Applied S)
      → lookup k (upsert_all ps a).0.peers ≡ or_old (last_with_key k ps) (lookup k a.0.peers)
  unfolding upsert_all upsert
  lookup-upsert_all k [] a = refl
  lookup-upsert_all k (p ∷ ps) (m, d) =
      lookup-upsert_all k ps (upsert p (m, d)) ∙ step (last_with_key k ps)
    where
      step :
          (o : Option (PeerSnapshot S))
          → or_old o (lookup k (insert p.node_key p m.peers))
            ≡ or_old
                (elim o [ some q ↦ some q | none ↦ if p.node_key == k then some p else none ])
                (lookup k m.peers)
      step (some q) = refl
      step none =
          lookup-insert p.node_key k p m.peers ∙ or_old-if (p.node_key == k) p (lookup k m.peers)

  lookup_id-upsert_all :
      (id : ℤ) (ps : List (PeerSnapshot S)) (a : Applied S)
      → lookup id (upsert_all ps a).0.id_to_key
        ≡ or_old (last_key_of id ps) (lookup id a.0.id_to_key)
  unfolding upsert_all upsert
  lookup_id-upsert_all id [] a = refl
  lookup_id-upsert_all id (p ∷ ps) (m, d) =
      lookup_id-upsert_all id ps (upsert p (m, d)) ∙ step (last_key_of id ps)
    where
      step :
          (o : Option NodeKeyBytes)
          → or_old o (lookup id (insert p.node_id p.node_key m.id_to_key))
            ≡ or_old
                (elim o [
                  | some q ↦ some q
                  | none ↦ if p.node_id == id then some p.node_key else none
                ])
                (lookup id m.id_to_key)
      step (some q) = refl
      step none =
          lookup-insert p.node_id id p.node_key m.id_to_key
          ∙ or_old-if (p.node_id == id) p.node_key (lookup id m.id_to_key)

  lookup-drop_absent :
      (k : NodeKeyBytes) (ks olds : List NodeKeyBytes) (a : Applied S)
      → contains ks k ≡ false
      → lookup k (drop_absent ks olds a).0.peers
        ≡ (if contains olds k then none else lookup k a.0.peers)
  unfolding drop_absent
  lookup-drop_absent k ks [] a h = rw (contains-nil k) refl
  lookup-drop_absent k ks (old ∷ olds) (m, d) h = elim (Bool-cases (old == k)) [
    | inl q ↦
        let same : old ≡ k = (list_eq.beq_iff old k).0 q in
        rw (contains-cons old olds k, q, same, h, drop_absent)
          (lookup-drop_absent k ks olds (gone k) h
            ∙ rw (lookup-remove_self k m.peers) (if_same (contains olds k) none))
    | inr q ↦ elim (Bool-cases (contains ks old)) [
      | inl t ↦
          rw (contains-cons old olds k, q, t, drop_absent) (lookup-drop_absent k ks olds (m, d) h)
      | inr t ↦
          rw (contains-cons old olds k, q, t, drop_absent)
            (lookup-drop_absent k ks olds (gone old) h ∙ rw (lookup-remove old k m.peers, q))
    ]
  ]
    where
      gone : NodeKeyBytes → Applied S
      gone o = (record m { peers = remove o m.peers }, record d { removed = d.removed ++ o ∷ [] })

  lookup-contains-keys :
      (k : NodeKeyBytes) (m : List (NodeKeyBytes × PeerSnapshot S))
      → contains (keys m) k ≡ false
      → lookup k m ≡ none
  unfolding lookup
  lookup-contains-keys k [] h = refl
  lookup-contains-keys k ((j, w) ∷ m) h = elim (Bool-cases (j == k)) [
    | inl q ↦ absurd (ground (arith, q, h, contains-cons j (keys m) k))
    | inr q ↦ rw (q, lookup) (lookup-contains-keys k m (rw (contains-cons j (keys m) k, q) at h))
  ]

  last_with_key-none :
      (k : NodeKeyBytes) (p : PeerSnapshot S) (ps : List (PeerSnapshot S))
      → last_with_key k (p ∷ ps) ≡ none
      → (last_with_key k ps ≡ none) × ((p.node_key == k) ≡ false)
  last_with_key-none k p ps = go (last_with_key k ps) (p.node_key == k)
    where
      go :
          (o : Option (PeerSnapshot S)) (b : Bool)
          → (elim o [ some q ↦ some q | none ↦ if b then some p else none ]) ≡ none
          → (o ≡ none) × (b ≡ false)
      go (some q) b h = absurd (cc)
      go none true h = absurd (cc)
      go none false h = (refl, refl)

module _ {S : Type 0} (parse_socket_addr : Text → Option S) where
  snapshot_with-node_key :
      (n : NodeWire) (key : NodeKeyBytes) → (snapshot_with parse_socket_addr n key).node_key ≡ key
  unfolding snapshot_with
  snapshot_with-node_key n key = refl

  snapshot_with-node_id :
      (n : NodeWire) (key : NodeKeyBytes) → (snapshot_with parse_socket_addr n key).node_id ≡ n.id
  unfolding snapshot_with
  snapshot_with-node_id n key = refl

  apply_peers_changed-one :
      (n : NodeWire) (key : NodeKeyBytes) (a : Applied S)
      → parse_nodekey n.key ≡ some key
      → apply_peers_changed parse_socket_addr (n ∷ []) a
        ≡ upsert (snapshot_with parse_socket_addr n key) a
  unfolding apply_peers_changed filter_map node_to_snapshot upsert_all Option.bind
  apply_peers_changed-one n key a q = rw (q, filter_map, node_to_snapshot, upsert_all) refl

  -- A node has a snapshot when it has a key.
  contains-last_with_key :
      (k : NodeKeyBytes) (nodes : List NodeWire)
      → last_with_key k (filter_map (node_to_snapshot parse_socket_addr) nodes) ≡ none
      → contains (filter_map (λ n. parse_nodekey n.key) nodes) k ≡ false
  unfolding filter_map node_to_snapshot Option.bind
  contains-last_with_key k [] h = contains-nil k
  contains-last_with_key k (n ∷ ns) h = elim (Option-cases (parse_nodekey n.key)) [
    | inl q ↦
        rw (q, filter_map)
          (contains-last_with_key k ns (rw (q, filter_map, node_to_snapshot, Option.bind) at h))
    | inr (key, q) ↦
        let (rest, differs) =
          last_with_key-none k (snapshot_with parse_socket_addr n key)
            (filter_map (node_to_snapshot parse_socket_addr) ns)
            (rw (q, filter_map, node_to_snapshot, Option.bind) at h) in
        rw (q, filter_map)
          (rw
            (
              contains-cons key (filter_map (λ x. parse_nodekey x.key) ns) k,
              rw (snapshot_with-node_key n key) at differs,
            )
            (contains-last_with_key k ns rest))
  ]

  -- A frame with a full set of peers replaces what was known: behind it a key is known exactly when
  -- some node of the frame has it, with what the last such node says, and a node id leads to the
  -- key of the last node with that id, whatever the map was.
  pub apply_peers-replaces :
      (nodes : List NodeWire) (a : Applied S) (k : NodeKeyBytes) (id : ℤ)
      → (lookup k (apply_peers parse_socket_addr nodes a).0.peers
          ≡ last_with_key k (filter_map (node_to_snapshot parse_socket_addr) nodes))
        × (lookup id (apply_peers parse_socket_addr nodes a).0.id_to_key
            ≡ last_key_of id (filter_map (node_to_snapshot parse_socket_addr) nodes))
  unfolding apply_peers
  apply_peers-replaces nodes (m, d) k id = (
    lookup-upsert_all k (filter_map (node_to_snapshot parse_socket_addr) nodes) _ ∙ known _ refl,
    lookup_id-upsert_all id (filter_map (node_to_snapshot parse_socket_addr) nodes) _
        ∙ or_old-nil id _,
  )
    where
      new_keys : List NodeKeyBytes
      new_keys = filter_map (λ n. parse_nodekey n.key) nodes

      absent :
          (b : Bool) → contains (keys m.peers) k ≡ b → (if b then none else lookup k m.peers) ≡ none
      absent true q = refl
      absent false q = lookup-contains-keys k m.peers q

      known :
          (o : Option (PeerSnapshot S))
          → last_with_key k (filter_map (node_to_snapshot parse_socket_addr) nodes) ≡ o
          → or_old o (
              lookup k
                (drop_absent
                  (filter_map (λ n. parse_nodekey n.key) nodes)
                  (keys m.peers)
                  (m, d)).0.peers)
            ≡ o
      known (some p) q = refl
      known none q =
          lookup-drop_absent k (filter_map (λ n. parse_nodekey n.key) nodes) (keys m.peers) (m, d)
            (contains-last_with_key k nodes q)
          ∙ absent (contains (keys m.peers) k) refl

  remove-upsert :
      (snap : PeerSnapshot S) (a : Applied S) (k : NodeKeyBytes)
      → snap.node_key ≢ k
      → (lookup k (apply_removed (snap.node_id ∷ []) (upsert snap a)).0.peers ≡ lookup k a.0.peers)
        × (lookup snap.node_id (apply_removed (snap.node_id ∷ []) (upsert snap a)).0.id_to_key
            ≡ none)
  unfolding apply_removed upsert
  remove-upsert snap (m, d) k ne =
      rw (lookup-insert_self snap.node_id snap.node_key m.id_to_key, apply_removed)
        (
          rw
              (
                lookup-remove snap.node_key k (insert snap.node_key snap m.peers),
                lookup-insert snap.node_key k snap m.peers,
                beq-eq_false snap.node_key k ne,
              )
              refl,
          lookup-remove_self snap.node_id (insert snap.node_id snap.node_key m.id_to_key),
        )

  -- A node that comes by `PeersChanged` and is then removed by its id takes only its new key out of
  -- the map: a peer that the map has under another key, the node's own former one included, stays,
  -- and the node's id then leads nowhere.
  pub apply_removed-keeps_old_key :
      (n : NodeWire) (a : Applied S) (new_key : NodeKeyBytes) (old : PeerSnapshot S)
      → parse_nodekey n.key ≡ some new_key
      → lookup old.node_key a.0.peers ≡ some old
      → new_key ≢ old.node_key
      → (lookup old.node_key
            (apply_removed (n.id ∷ []) (apply_peers_changed parse_socket_addr (n ∷ []) a)).0.peers
          ≡ some old)
        × (lookup n.id
              (apply_removed
                (n.id ∷ [])
                (apply_peers_changed parse_socket_addr (n ∷ []) a)).0.id_to_key
            ≡ none)
  unfolding snapshot_with
  apply_removed-keeps_old_key n a new_key old s p ne =
      let (stays, gone) =
        remove-upsert (snapshot_with parse_socket_addr n new_key) a old.node_key ne in
      rw (apply_peers_changed-one n new_key a s) (stays ∙ p, gone)
