-- ===== src/Runtime/Routes.antt =====
-- No default route reaches the engine through the network map.
use tailscale_vita.Prelude.{
  ℕ, ◌<◌, ◌≡◌, subst, inl, inr, List, [], ◌∷◌, some, Option-cases, Bool-cases, ltb, ◌==◌, list_eq,
  nat_eq, All, filter, for_each-keeps, lookup, insert-cases, remove-cases, arith,
}
use tailscale_vita.Wg.Peer.{Key, Peer, PeerConfig, Ipv4Cidr}
use tailscale_vita.Wg.Indices.Tables.{Indices, insert_all, remove_key}
use tailscale_vita.Wg.Engine.State.{
  Engine, NewTunn, cidr_eq, update_cell, build_peer, refresh_endpoint, upsert_peer, remove_peer,
  set_inbound_policy,
}
use tailscale_vita.Control.Parse.{AllowedIp}
use tailscale_vita.Runtime.Delta.{
  NetMapSnapshot, engine_allowed_ips, peer_config, push_policy, push_upserted, push_rekeyed,
  push_delta_to_engine,
}

abbrev pub Narrow : List Ipv4Cidr → Type 0
Narrow ips = All (λ (c : Ipv4Cidr). 0 < c.prefix) ips

-- The routes of every peer of the engine are narrower than the default route.
abbrev pub NoDefaultRoute : {T : Type 0} → Engine T → Type 0
NoDefaultRoute e =
    (key : Key) (p : Peer) → lookup key e.indices.by_pubkey ≡ some p → Narrow p.allowed_ips

engine_allowed_ips-Narrow : (ips : List AllowedIp) → Narrow (engine_allowed_ips ips)
unfolding engine_allowed_ips filter
engine_allowed_ips-Narrow [] = tt
engine_allowed_ips-Narrow (a ∷ ips) = elim (Bool-cases (ltb 0 a.prefix)) [
  | inl keep ↦ rw keep (ground arith, engine_allowed_ips-Narrow ips)
  | inr out ↦ rw out (engine_allowed_ips-Narrow ips)
]

module _ {T : Type 0} (new_tunn : NewTunn T) where
  remove_key-NoDefaultRoute :
      (k key : Key) (p : Peer) (x : Indices)
      → ((key : Key) (p : Peer) → lookup key x.by_pubkey ≡ some p → Narrow p.allowed_ips)
      → lookup key (remove_key k x).by_pubkey ≡ some p
      → Narrow p.allowed_ips
  unfolding remove_key
  remove_key-NoDefaultRoute k key p x h l = elim (Option-cases (lookup k x.by_pubkey)) [
    | inl e ↦ h key p (rw (e, remove_key) at l)
    | inr (q, e) ↦ h key p (remove-cases k key p x.by_pubkey (rw (e, remove_key) at l)).1
  ]

  remove_peer-NoDefaultRoute :
      (k : Key) (e : Engine T) → NoDefaultRoute e → NoDefaultRoute (remove_peer k e)
  unfolding remove_peer
  remove_peer-NoDefaultRoute k e h key p l = remove_key-NoDefaultRoute k key p e.indices h l

  build_peer-NoDefaultRoute :
      (cfg : PeerConfig) (e : Engine T)
      → Narrow cfg.allowed_ips
      → NoDefaultRoute e
      → NoDefaultRoute (build_peer new_tunn cfg e)
  unfolding build_peer insert_all
  build_peer-NoDefaultRoute cfg e n h key p l =
      elim (insert-cases cfg.pubkey key _ p (remove_key cfg.pubkey e.indices).by_pubkey l) [
        | inl (eq, same) ↦ subst (λ (p : Peer). Narrow p.allowed_ips) same n
        | inr (apart, old) ↦ remove_key-NoDefaultRoute cfg.pubkey key p e.indices h old
      ]

  upsert_peer-NoDefaultRoute :
      (cfg : PeerConfig) (e : Engine T)
      → Narrow cfg.allowed_ips
      → NoDefaultRoute e
      → NoDefaultRoute (upsert_peer new_tunn cfg e)
  unfolding upsert_peer refresh_endpoint update_cell
  upsert_peer-NoDefaultRoute cfg e n h =
      elim (Option-cases (lookup cfg.pubkey e.indices.by_pubkey)) [
        | inl new ↦ rw (new, upsert_peer) (build_peer-NoDefaultRoute cfg e n h)
        | inr (q, known) ↦ elim (Bool-cases (q.allowed_ips == cfg.allowed_ips)) [
          | inr other ↦ rw (known, upsert_peer) (rw other (build_peer-NoDefaultRoute cfg e n h))
          | inl same ↦ elim (Option-cases cfg.initial_endpoint) [
            | inl i ↦ rw (known, upsert_peer) (rw same (rw i h))
            | inr (ep, i) ↦ rw (known, upsert_peer) (rw same (rw i h))
          ]
        ]
      ]

  -- An engine in which no peer has a default route has none after any map update, whatever the
  -- update says: exit-node offers never become routes.
  pub push_delta_to_engine-NoDefaultRoute :
      (our_home : ℕ) (snap : NetMapSnapshot) (e : Engine T)
      → NoDefaultRoute e
      → NoDefaultRoute (push_delta_to_engine new_tunn our_home snap e)
  unfolding push_delta_to_engine peer_config
  push_delta_to_engine-NoDefaultRoute our_home snap e h =
      for_each-keeps NoDefaultRoute (push_rekeyed new_tunn our_home)
        (λ r e h.
          upsert_peer-NoDefaultRoute _ _ (engine_allowed_ips-Narrow r.snapshot.allowed_ips)
            (remove_peer-NoDefaultRoute r.old_key e h))
        snap.delta.rekeyed _
        (for_each-keeps NoDefaultRoute remove_peer remove_peer-NoDefaultRoute snap.delta.removed _ (
          for_each-keeps NoDefaultRoute (push_upserted new_tunn our_home)
            (λ p e h. upsert_peer-NoDefaultRoute _ e (engine_allowed_ips-Narrow p.allowed_ips) h)
            snap.delta.upserted _ policy))
    where
      policy : NoDefaultRoute (push_policy new_tunn our_home snap e)
      policy = elim (Bool-cases snap.delta.packet_filter_changed) [
        | inr kept ↦ unfold push_policy in rw kept h
        | inl changed ↦ elim (Option-cases snap.packet_filter) [
          | inl gone ↦ unfold push_policy in rw (changed, gone) h
          | inr (f, set) ↦ unfold push_policy set_inbound_policy in rw (changed, set) h
        ]
      ]
