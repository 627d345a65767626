-- ===== src/Magic/Touched.antt =====
-- What a change of one node leaves alone.
use tailscale_vita.Prelude.{
  ℕ, ◌≡◌, refl, sym, ap, ◌∙◌, ◌⊎◌, inl, inr, Bool, true, false, List, ◌==◌, list_eq, nat_eq, Option,
  none, some, Option-cases, Bool-cases, lookup, lookup-insert, list_beq_iff, ltb, beq-eq_false,
}
use tailscale_vita.Wg.Peer.{Key, SocketAddr}
use tailscale_vita.Prelude.{length}
use tailscale_vita.Magic.State.{addr_eq, max_peer_paths, PathState, PeerState, MagicState}
use tailscale_vita.Magic.Handle.{update_peer, learn_source, accept_pong}
use tailscale_vita.Magic.Update.{lookup-update_peer, lookup-update_peer_other}

abbrev pub path_in : SocketAddr → Option PeerState → Option PathState
path_in a none = none
path_in a (some peer) = lookup a peer.paths

abbrev pub known : Option PeerState → Bool
known none = false
known (some peer) = true

module _ (node : Option Key) (wide : Type 0) (src : SocketAddr) where
  -- Only `node` changes, and of its paths only that of `src`, unless all are free to change; no
  -- node comes or goes; and nothing but nodes and what is outstanding changes.
  abbrev pub Frame : MagicState → MagicState → Type 0
  Frame s s' =
      ((n : Key) → (node ≡ some n → ⊥) → lookup n s'.peers ≡ lookup n s.peers)
      × ((n : Key) (a : SocketAddr)
          → ((node ≡ some n) × ((a ≡ src) ⊎ wide) → ⊥)
          → path_in a (lookup n s'.peers) ≡ path_in a (lookup n s.peers))
      × ((n : Key) → known (lookup n s'.peers) ≡ known (lookup n s.peers))
      × (s'.disco_to_node ≡ s.disco_to_node)
      × (s'.local_endpoints ≡ s.local_endpoints)
      × (s'.last_cmm_sent_at ≡ s.last_cmm_sent_at)
      × (s'.cmm_pending ≡ s.cmm_pending)

  pub Frame-refl : (s : MagicState) → Frame s s
  Frame-refl s = (λ n h. refl, λ n a h. refl, λ n. refl, refl, refl, refl, refl)

  pub Frame-trans : (s t u : MagicState) → Frame s t → Frame t u → Frame s u
  Frame-trans s t u (a, b, c, d, e, f, g) (a', b', c', d', e', f', g') = (
    λ n h. a' n h ∙ a n h,
    λ n x h. b' n x h ∙ b n x h,
    λ n. c' n ∙ c n,
    d' ∙ d,
    e' ∙ e,
    f' ∙ f,
    g' ∙ g,
  )

  -- An update of `node` that leaves alone what it has to of its paths.
  pub update_peer-Frame :
      (f : PeerState → PeerState) (n0 : Key) (s : MagicState)
      → node ≡ some n0
      → ((peer : PeerState) (a : SocketAddr)
          → ((a ≡ src) ⊎ wide → ⊥)
          → lookup a (f peer).paths ≡ lookup a peer.paths)
      → Frame s (update_peer f n0 s)
  update_peer-Frame f n0 s is_node keeps = elim (Option-cases (lookup n0 s.peers)) [
    | inl e ↦ rw (e, update_peer) (Frame-refl s)
    | inr (peer, e) ↦
        let (d, l, m, c) = fields peer e in (others, paths peer e, stays peer e, d, l, m, c)
  ]
    where
      others :
          (n : Key) → (node ≡ some n → ⊥) → lookup n (update_peer f n0 s).peers ≡ lookup n s.peers
      others n h =
          lookup-update_peer_other f n0 s n (beq-eq_false n0 n (λ eq. h (is_node ∙ ap some eq)))

      paths :
          (peer : PeerState)
          → lookup n0 s.peers ≡ some peer
          → (n : Key) (a : SocketAddr) → ((node ≡ some n) × ((a ≡ src) ⊎ wide) → ⊥)
          → path_in a (lookup n (update_peer f n0 s).peers) ≡ path_in a (lookup n s.peers)
      paths peer e n a h = elim (Bool-cases (n0 == n)) [
        | inl same ↦
            let eq : n0 ≡ n = (list_beq_iff n0 n).0 same in
            ap (λ k. path_in a (lookup k (update_peer f n0 s).peers)) (sym eq)
            ∙ ap (path_in a) (lookup-update_peer f n0 s peer e)
            ∙ keeps peer a (λ x. h (is_node ∙ ap some eq, x))
            ∙ ap (path_in a) (sym e)
            ∙ ap (λ k. path_in a (lookup k s.peers)) eq
        | inr apart ↦ ap (path_in a) (lookup-update_peer_other f n0 s n apart)
      ]

      stays :
          (peer : PeerState)
          → lookup n0 s.peers ≡ some peer
          → (n : Key) → known (lookup n (update_peer f n0 s).peers) ≡ known (lookup n s.peers)
      stays peer e n = elim (Bool-cases (n0 == n)) [
        | inl same ↦
            let eq : n0 ≡ n = (list_beq_iff n0 n).0 same in
            ap (λ k. known (lookup k (update_peer f n0 s).peers)) (sym eq)
            ∙ ap known (lookup-update_peer f n0 s peer e)
            ∙ ap known (sym e)
            ∙ ap (λ k. known (lookup k s.peers)) eq
        | inr apart ↦ ap known (lookup-update_peer_other f n0 s n apart)
      ]

      fields :
          (peer : PeerState)
          → lookup n0 s.peers ≡ some peer
          → ((update_peer f n0 s).disco_to_node ≡ s.disco_to_node)
            × ((update_peer f n0 s).local_endpoints ≡ s.local_endpoints)
            × ((update_peer f n0 s).last_cmm_sent_at ≡ s.last_cmm_sent_at)
            × ((update_peer f n0 s).cmm_pending ≡ s.cmm_pending)
      fields peer e = rw (e, update_peer) (refl, refl, refl, refl)

-- What is outstanding is no peer's.
pub update_peer-outstanding :
    (f : PeerState → PeerState) (n : Key) (s : MagicState)
    → ((update_peer f n s).stun_outstanding ≡ s.stun_outstanding)
      × ((update_peer f n s).ping_outstanding ≡ s.ping_outstanding)
update_peer-outstanding f n s = elim (Option-cases (lookup n s.peers)) [
  | inl e ↦ rw (e, update_peer) (refl, refl)
  | inr (peer, e) ↦ rw (e, update_peer) (refl, refl)
]

pub learn_source-lookup :
    (now : ℕ) (src a : SocketAddr) (peer : PeerState)
    → (a ≡ src → ⊥)
    → lookup a (learn_source now src peer).paths ≡ lookup a peer.paths
unfolding learn_source
learn_source-lookup now src a peer h = elim (Option-cases (lookup src peer.paths)) [
  | inr (path, e) ↦ rw (e, learn_source) (lookup-insert src a _ peer.paths ∙ rw apart refl)
  | inl e ↦ elim (Bool-cases (ltb (length peer.paths) max_peer_paths)) [
    | inl room ↦ rw (e, learn_source) (rw room (lookup-insert src a _ peer.paths ∙ rw apart refl))
    | inr full ↦ rw (e, learn_source) (rw full refl)
  ]
]
  where
    apart : (src == a) ≡ false
    apart = beq-eq_false src a (λ e. h (sym e))

pub accept_pong-lookup :
    (now : ℕ) (tx_id : List ℕ) (src a : SocketAddr) (peer : PeerState)
    → (a ≡ src → ⊥)
    → lookup a (accept_pong now tx_id src peer).paths ≡ lookup a peer.paths
unfolding accept_pong
accept_pong-lookup now tx_id src a peer h = elim (Option-cases (lookup src peer.paths)) [
  | inl e ↦ rw (e, accept_pong) refl
  | inr (path, e) ↦ elim (Option-cases path.outstanding_tx_id) [
    | inl idle ↦ rw (e, accept_pong) (rw idle refl)
    | inr (waiting, f) ↦ elim (Bool-cases (waiting == tx_id)) [
      | inl same ↦
          rw (e, accept_pong) (rw f (rw same (lookup-insert src a _ peer.paths ∙ rw apart refl)))
      | inr other ↦ rw (e, accept_pong) (rw f (rw other refl))
    ]
  ]
]
  where
    apart : (src == a) ≡ false
    apart = beq-eq_false src a (λ e. h (sym e))
