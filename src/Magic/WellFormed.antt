-- ===== src/Magic/WellFormed.antt =====
-- The invariant of the state: one entry per node and per address, a path behind every listed
-- endpoint, and Disco keys that resolve to nodes that have them.
use tailscale_vita.Prelude.{
  ℕ, ◌≡◌, refl, sym, ap, subst, ◌∙◌, ◌⊎◌, inl, inr, Bool, false, not, ltb, List, [], ◌∷◌, ◌++◌,
  length, some, none-some, some-injective, Option-cases, Bool-cases, if◌then◌else◌, ◌==◌, list_eq,
  nat_eq, for_each, filter, contains, Any, Any-append, lookup, insert, keys, Unique, insert-Unique,
  remove-Unique, filter-Unique, filter-cases, insert-cases, remove-cases, lookup-insert,
  lookup-insert_self, lookup-remove, Has, insert-Has, insert-Has_self, keys-Has, arith,
}
use tailscale_vita.Wg.Peer.{Key, SocketAddr}
use tailscale_vita.Magic.State.{
  addr_eq, PathState, new_path, path_or_new, PeerState, MagicState, new_magic, or_insert,
  retain_paths, merge_peer, upsert_peer, remove_peer, max_peer_paths,
}
use tailscale_vita.Magic.Handle.{
  update_peer, learn_source, accept_pong, record_ping, add_endpoint, merge_endpoints,
}
use tailscale_vita.Magic.Update.{
  update_peer-cases, lookup-update_peer, lookup-update_peer_other, update_peer-Unique,
  update_peer-fields,
}
use tailscale_vita.Magic.Sections.{
  Section, upserts, removes, learns, takes_pong, records, merges, books, Sections, done, next,
}

-- Each address has one path, and each endpoint has one.
abbrev pub PeerFits : PeerState → Type 0
PeerFits p = Unique p.paths × ((a : SocketAddr) → Any (λ x. x ≡ a) p.endpoints → Has a p.paths)

-- A key resolves to a node that is there and has that key.
abbrev pub Resolves : MagicState → Type 0
Resolves s =
    (disco_pub node_pub : Key)
    → lookup disco_pub s.disco_to_node ≡ some node_pub
    → (p : PeerState) × (lookup node_pub s.peers ≡ some p) × (p.disco_pub ≡ disco_pub)

abbrev pub WellFormed : MagicState → Type 0
WellFormed s =
    Unique s.peers
    × Unique s.disco_to_node
    × ((n : Key) (p : PeerState) → lookup n s.peers ≡ some p → PeerFits p)
    × Resolves s

-- A change of one peer that keeps its key and its paths in order keeps the state well-formed.
update_peer-WellFormed :
    (f : PeerState → PeerState) (node_pub : Key) (s : MagicState)
    → ((p : PeerState) → PeerFits p → PeerFits (f p) × ((f p).disco_pub ≡ p.disco_pub))
    → WellFormed s
    → WellFormed (update_peer f node_pub s)
update_peer-WellFormed f node_pub s keeps (u, v, fits, resolves) = (
  update_peer-Unique f node_pub s u,
  subst Unique (sym (update_peer-fields f node_pub s).0) v,
  λ n p l. elim (update_peer-cases f node_pub s n p l) [
    | inr (apart, old) ↦ fits n p old
    | inl (peer, eq, old, e) ↦ subst PeerFits (sym e) (keeps peer (fits n peer old)).0
  ],
  λ d n l.
      let (p, old, key) =
        resolves d n (sym (ap (lookup d) (update_peer-fields f node_pub s).0) ∙ l) in
      elim (Bool-cases (node_pub == n)) [
        | inl same ↦
            let eq : node_pub ≡ n = ((list_eq {A = ℕ}).beq_iff node_pub n).0 same in
            let here = lookup-update_peer f node_pub s p (ap (λ k. lookup k s.peers) eq ∙ old) in
            (
              f p,
              ap (λ k. lookup k (update_peer f node_pub s).peers) (sym eq) ∙ here,
              (keeps p (fits n p old)).1 ∙ key,
            )
        | inr apart ↦ (p, lookup-update_peer_other f node_pub s n apart ∙ old, key)
      ],
)

module _ (a : SocketAddr) (value : PathState) (p : PeerState) where
  -- A path put at an address, known or not, with the endpoints as they are.
  put-PeerFits : PeerFits p → PeerFits (record p { paths = insert a value p.paths })
  put-PeerFits (u, h) =
      (insert-Unique a value p.paths u, λ b m. insert-Has a b value p.paths (h b m))

  -- The same with the address listed, if it is not yet.
  list-PeerFits :
      PeerFits p
      → PeerFits (record p {
        endpoints = if contains p.endpoints a then p.endpoints else p.endpoints ++ a ∷ [];
        paths = insert a value p.paths;
      })
  list-PeerFits (u, h) = elim (Bool-cases (contains p.endpoints a)) [
    | inl listed ↦ rw listed (put-PeerFits (u, h))
    | inr new ↦ rw new (
      insert-Unique a value p.paths u,
      λ b m. elim (Any-append (λ x. x ≡ b) p.endpoints (a ∷ []) m) [
        | inl old ↦ insert-Has a b value p.paths (h b old)
        | inr (inl e) ↦
            subst (λ b. Has b (insert a value p.paths)) e (insert-Has_self a value p.paths)
        | inr (inr z) ↦ absurd z
      ],
    )
  ]

learn_source-fits :
    (now : ℕ) (src : SocketAddr) (p : PeerState)
    → PeerFits p
    → PeerFits (learn_source now src p) × ((learn_source now src p).disco_pub ≡ p.disco_pub)
unfolding learn_source
learn_source-fits now src p h = elim (Option-cases (lookup src p.paths)) [
  | inr (path, e) ↦
      rw (e, learn_source)
        (put-PeerFits src (record path { last_src_ping_at = some now }) p h, refl)
  | inl e ↦ elim (Bool-cases (ltb (length p.paths) max_peer_paths)) [
    | inl room ↦
        rw (e, learn_source)
          (rw room (list-PeerFits src (record new_path { last_src_ping_at = some now }) p h, refl))
    | inr full ↦ rw (e, learn_source) (rw full (h, refl))
  ]
]

accept_pong-fits :
    (now : ℕ) (tx_id : List ℕ) (src : SocketAddr) (p : PeerState)
    → PeerFits p
    → PeerFits (accept_pong now tx_id src p)
      × ((accept_pong now tx_id src p).disco_pub ≡ p.disco_pub)
unfolding accept_pong
accept_pong-fits now tx_id src p h = elim (Option-cases (lookup src p.paths)) [
  | inl e ↦ rw (e, accept_pong) (h, refl)
  | inr (path, e) ↦ elim (Option-cases path.outstanding_tx_id) [
    | inl o ↦ rw (e, accept_pong) (rw o (h, refl))
    | inr (t, o) ↦ elim (Bool-cases (t == tx_id)) [
      | inl y ↦ rw (e, accept_pong) (rw o (rw y (put-PeerFits src _ p h, refl)))
      | inr n ↦ rw (e, accept_pong) (rw o (rw n (h, refl)))
    ]
  ]
]

record_ping-fits :
    (now : ℕ) (tx_id : List ℕ) (addr : SocketAddr) (p : PeerState)
    → PeerFits p
    → PeerFits (record_ping now tx_id addr p)
      × ((record_ping now tx_id addr p).disco_pub ≡ p.disco_pub)
unfolding record_ping
record_ping-fits now tx_id addr p h = (put-PeerFits addr _ p h, refl)

merge_endpoints-fits :
    (advertised : List SocketAddr) (p : PeerState)
    → PeerFits p
    → PeerFits (merge_endpoints advertised p)
      × ((merge_endpoints advertised p).disco_pub ≡ p.disco_pub)
unfolding merge_endpoints for_each or_insert
merge_endpoints-fits [] p h = (h, refl)
merge_endpoints-fits (a ∷ rest) p h =
    merge_endpoints-fits rest (add_endpoint a p)
      (list-PeerFits a (path_or_new (lookup a p.paths)) p h)

for_each-or_insert :
    (eps : List SocketAddr) (paths : List (SocketAddr × PathState))
    → Unique paths
    → Unique (for_each or_insert eps paths)
      × ((b : SocketAddr)
          → Has b paths ⊎ Any (λ x. x ≡ b) eps
          → Has b (for_each or_insert eps paths))
unfolding for_each or_insert
for_each-or_insert [] paths u = (u, λ b. elim [ inl h ↦ h | inr m ↦ absurd m ])
for_each-or_insert (a ∷ rest) paths u =
    let value : PathState = path_or_new (lookup a paths) in
    let (u', h) = for_each-or_insert rest (insert a value paths) (insert-Unique a value paths u) in
    (
      u',
      λ b. elim [
        | inl old ↦ h b (inl (insert-Has a b value paths old))
        | inr (inl e) ↦
            h b (inl (subst (λ b. Has b (insert a value paths)) e (insert-Has_self a value paths)))
        | inr (inr m) ↦ h b (inr m)
      ],
    )

Any-filter_out :
    (p : SocketAddr → Bool) (b : SocketAddr) (xs : List SocketAddr)
    → Any (λ x. x ≡ b) (filter p xs)
    → Any (λ x. x ≡ b) xs
unfolding filter
Any-filter_out p b [] m = m
Any-filter_out p b (x ∷ xs) m = elim (Bool-cases (p x)) [
  | inl y ↦ elim (rw y at m) [ inl e ↦ inl e | inr r ↦ inr (Any-filter_out p b xs r) ]
  | inr n ↦ inr (Any-filter_out p b xs (rw n at m))
]

merge_peer-fits :
    (now : ℕ) (disco_pub : Key) (eps : List SocketAddr) (entry : PeerState)
    → Unique entry.paths
    → PeerFits (merge_peer now disco_pub eps entry)
unfolding merge_peer retain_paths
merge_peer-fits now disco_pub eps entry u =
    let kept : List (SocketAddr × PathState) = retain_paths now eps entry.paths in
    let (u', h) = for_each-or_insert eps kept (filter-Unique _ entry.paths u) in
    (
      u',
      λ b m.
          h b
            (elim (Any-append (λ x. x ≡ b) eps (filter (λ a. not (contains eps a)) (keys kept)) m) [
              | inl listed ↦ inr listed
              | inr learned ↦ inl (keys-Has b kept (Any-filter_out _ b (keys kept) learned))
            ]),
    )

upsert_with :
    (now : ℕ) (node_pub disco_pub : Key) (eps : List SocketAddr) (entry : PeerState)
    (s : MagicState)
    → MagicState
upsert_with now node_pub disco_pub eps entry s = record s {
  disco_to_node =
      insert disco_pub node_pub (filter (λ (d, n). not (n == node_pub)) s.disco_to_node);
  peers = insert node_pub (merge_peer now disco_pub eps entry) s.peers;
}

upsert_with-WellFormed :
    (now : ℕ) (node_pub disco_pub : Key) (eps : List SocketAddr) (entry : PeerState)
    (s : MagicState)
    → Unique entry.paths
    → WellFormed s
    → WellFormed (upsert_with now node_pub disco_pub eps entry s)
unfolding upsert_with
upsert_with-WellFormed now node_pub disco_pub eps entry s e (u, v, fits, resolves) = (
  insert-Unique node_pub merged s.peers u,
  insert-Unique disco_pub node_pub _ (filter-Unique _ s.disco_to_node v),
  λ n p l. elim (insert-cases node_pub n merged p s.peers l) [
    | inl (eq, same) ↦ subst PeerFits same (merge_peer-fits now disco_pub eps entry e)
    | inr (apart, old) ↦ fits n p old
  ],
  λ d n l. elim (insert-cases disco_pub d node_pub n _ l) [
    | inl (key, node) ↦ (
      merged,
      subst (λ n. lookup n (insert node_pub merged s.peers) ≡ some merged) node
          (lookup-insert_self node_pub merged s.peers),
      unfold merge_peer in key,
    )
    | inr (apart, old) ↦
        let (other, was) = filter-cases (λ (d, n). not (n == node_pub)) d n s.disco_to_node v old in
        let (p, here, key) = resolves d n was in
        let differ : (node_pub == n) ≡ false =
          ground
            (arith, (list_eq {A = ℕ}).beq_iff node_pub n, (list_eq {A = ℕ}).beq_iff n node_pub) in
        (p, lookup-insert node_pub n merged s.peers ∙ rw differ here, key)
  ],
)
  where
    merged : PeerState
    merged = merge_peer now disco_pub eps entry

upsert_peer-WellFormed :
    (now : ℕ) (node_pub disco_pub : Key) (eps : List SocketAddr) (s : MagicState)
    → WellFormed s
    → WellFormed (upsert_peer now node_pub disco_pub eps s)
unfolding upsert_peer
upsert_peer-WellFormed now node_pub disco_pub eps s w =
    elim (Option-cases (lookup node_pub s.peers)) [
      | inr (p, e) ↦
          rw (e, upsert_peer)
            (unfold upsert_with in
              upsert_with-WellFormed now node_pub disco_pub eps p s (w.2 node_pub p e).0 w)
      | inl e ↦
          rw (e, upsert_peer)
            (unfold upsert_with in
              upsert_with-WellFormed now node_pub disco_pub eps
                (record { disco_pub = disco_pub; endpoints = []; paths = [] }) s tt w)
    ]

remove_peer-WellFormed :
    (node_pub : Key) (s : MagicState) → WellFormed s → WellFormed (remove_peer node_pub s)
unfolding remove_peer
remove_peer-WellFormed node_pub s w = elim (Option-cases (lookup node_pub s.peers)) [
  | inl e ↦ rw (e, remove_peer) w
  | inr (p, e) ↦
      rw (e, remove_peer)
        (
          remove-Unique node_pub s.peers w.0,
          remove-Unique p.disco_pub s.disco_to_node w.1,
          λ n q l. w.2 n q (remove-cases node_pub n q s.peers l).1,
          λ d n l.
              let (apart, old) = remove-cases p.disco_pub d n s.disco_to_node l in
              let (q, here, key) = w.3 d n old in
              elim (Bool-cases (node_pub == n)) [
                | inl same ↦
                    let eq : node_pub ≡ n = ((list_eq {A = ℕ}).beq_iff node_pub n).0 same in
                    let pq : p ≡ q =
                      some-injective (sym e ∙ ap (λ k. lookup k s.peers) eq ∙ here) in
                    absurd (apart (ap (λ p. p.disco_pub) pq ∙ key))
                | inr other ↦ (q, lookup-remove node_pub n s.peers ∙ rw other here, key)
              ],
        )
]

Section-WellFormed : {s t : MagicState} → Section s t → WellFormed s → WellFormed t
Section-WellFormed {s} (upserts now n d eps) w = upsert_peer-WellFormed now n d eps s w
Section-WellFormed {s} (removes n) w = remove_peer-WellFormed n s w
Section-WellFormed {s} (learns now src n) w =
    update_peer-WellFormed (learn_source now src) n s (learn_source-fits now src) w
Section-WellFormed {s} (takes_pong now tx_id src n) w =
    update_peer-WellFormed (accept_pong now tx_id src) n s (accept_pong-fits now tx_id src) w
Section-WellFormed {s} (records now tx_id addr n) w =
    update_peer-WellFormed (record_ping now tx_id addr) n s (record_ping-fits now tx_id addr) w
Section-WellFormed {s} (merges eps n) w =
    update_peer-WellFormed (merge_endpoints eps) n s (merge_endpoints-fits eps) w
Section-WellFormed (books stun pings local sent_at pending) w = w

pub run-WellFormed : {s t : MagicState} → Sections s t → WellFormed s → WellFormed t
run-WellFormed done w = w
run-WellFormed (next p ps) w = run-WellFormed ps (Section-WellFormed p w)

new_magic-WellFormed : WellFormed new_magic
unfolding lookup
new_magic-WellFormed = (tt, tt, λ n p l. absurd (none-some l), λ d n l. absurd (none-some l))

-- Whatever sections threads run under the lock, in whatever order, from a fresh state: every node
-- and every address of a node has one entry, every listed endpoint of a node has a path, and a
-- Disco key resolves, if at all, to a node that is there and has that very key.
pub Sections-WellFormed : {s : MagicState} → Sections new_magic s → WellFormed s
Sections-WellFormed run = run-WellFormed run new_magic-WellFormed
