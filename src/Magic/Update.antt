-- ===== src/Magic/Update.antt =====
-- `update_peer` by what a lookup finds behind it.
use tailscale_vita.Prelude.{
  ◌≡◌, ◌≢◌, refl, sym, ap, ◌∙◌, ◌⊎◌, inl, inr, some, lookup, insert-cases, lookup-insert,
  lookup-insert_self, false, ◌==◌, list_eq, nat_eq, Option-cases, none-some, Unique, insert-Unique,
}
use tailscale_vita.Wg.Peer.{Key}
use tailscale_vita.Magic.State.{PeerState, MagicState}
use tailscale_vita.Magic.Handle.{update_peer}

module _ (f : PeerState → PeerState) (node_pub : Key) (s : MagicState) where
  pub lookup-update_peer :
      (peer : PeerState)
      → lookup node_pub s.peers ≡ some peer
      → lookup node_pub (update_peer f node_pub s).peers ≡ some (f peer)
  lookup-update_peer peer e = rw (e, update_peer) (lookup-insert_self node_pub (f peer) s.peers)

  pub lookup-update_peer_other :
      (other : Key)
      → (node_pub == other) ≡ false
      → lookup other (update_peer f node_pub s).peers ≡ lookup other s.peers
  lookup-update_peer_other other apart = elim (Option-cases (lookup node_pub s.peers)) [
    | inl e ↦ rw (e, update_peer) refl
    | inr (peer, e) ↦
        rw (e, update_peer) (lookup-insert node_pub other (f peer) s.peers ∙ rw apart refl)
  ]

  -- A peer of the new state is the updated one, or one that was there.
  pub update_peer-cases :
      (other : Key) (found : PeerState)
      → lookup other (update_peer f node_pub s).peers ≡ some found
      → ((peer : PeerState) × (node_pub ≡ other)
          × (lookup other s.peers ≡ some peer)
          × (found ≡ f peer))
        ⊎ ((node_pub ≢ other) × (lookup other s.peers ≡ some found))
  update_peer-cases other found l = elim (Option-cases (lookup node_pub s.peers)) [
    | inl e ↦
        let old : lookup other s.peers ≡ some found = rw (e, update_peer) at l in
        inr (λ eq. none-some (sym e ∙ ap (λ k. lookup k s.peers) eq ∙ old), old)
    | inr (peer, e) ↦
        elim (insert-cases node_pub other (f peer) found s.peers (rw (e, update_peer) at l)) [
          | inl (eq, v) ↦ inl (peer, eq, sym (ap (λ k. lookup k s.peers) eq) ∙ e, sym v)
          | inr h ↦ inr h
        ]
  ]

  pub update_peer-Unique : Unique s.peers → Unique (update_peer f node_pub s).peers
  update_peer-Unique u = elim (Option-cases (lookup node_pub s.peers)) [
    | inl e ↦ rw (e, update_peer) u
    | inr (peer, e) ↦ rw (e, update_peer) (insert-Unique node_pub (f peer) s.peers u)
  ]

  -- Nothing but the peers changes.
  pub update_peer-fields :
      ((update_peer f node_pub s).disco_to_node ≡ s.disco_to_node)
      × ((update_peer f node_pub s).cmm_pending ≡ s.cmm_pending)
  update_peer-fields = elim (Option-cases (lookup node_pub s.peers)) [
    | inl e ↦ rw (e, update_peer) (refl, refl)
    | inr (peer, e) ↦ rw (e, update_peer) (refl, refl)
  ]
