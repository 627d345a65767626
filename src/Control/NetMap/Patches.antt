-- ===== src/Control/NetMap/Patches.antt =====
-- netmap.rs: what a sparse patch does to the map.
use tailscale_vita.Prelude.{
  suc, ◌+◌, ◌≡◌, refl, ◌∙◌, List, [], ◌∷◌, length, Option, none, some, if◌then◌else◌, ◌==◌, list_eq,
  nat_eq, lookup, remove, lookup-insert, lookup-remove, Option-cases, inl, inr, arith,
}
use tailscale_vita.Prelude.Int.{ℤ, int_eq}
use tailscale_vita.Control.Wire.{Text, PeerChangeWire}
use tailscale_vita.Control.Parse.{NodeKeyBytes}
use tailscale_vita.Control.NetMap.State.{PeerSnapshot, NetMap}
use tailscale_vita.Control.NetMap.Apply.{
  Applied, apply_patch_fields, rotated, rekey, patch_peer, apply_patch, apply_patches,
}

module _ {S : Type 0} (parse_socket_addr : Text → Option S) where
  apply_patch_fields-node_id :
      (patch : PeerChangeWire) (p : PeerSnapshot S)
      → (apply_patch_fields parse_socket_addr patch p).node_id ≡ p.node_id
  unfolding apply_patch_fields
  apply_patch_fields-node_id patch p = refl

  -- What a patch of the peer under `key` leaves under `j`, by the new key of the patch.
  abbrev pub after_patch :
      PeerChangeWire
      → (key : NodeKeyBytes) → PeerSnapshot S
      → Option NodeKeyBytes
      → NetMap S
      → (j : NodeKeyBytes) → Option (PeerSnapshot S)
  after_patch patch key peer none m j =
      if key == j then some (apply_patch_fields parse_socket_addr patch peer) else lookup j m.peers
  after_patch patch key peer (some new_key) m j =
      if new_key == j
      then some (apply_patch_fields parse_socket_addr patch (record peer { node_key = new_key }))
      else if key == j
      then none
      else lookup j m.peers

  -- A patch for a known peer changes that peer alone: its fields are patched in place, or, when the
  -- patch has a new key, the old key is forgotten and the patched peer stands under the new one. In
  -- that case the peer's id leads to the new key; otherwise the ids lead where they led.
  pub apply_patch-after_patch :
      (patch : PeerChangeWire) (a : Applied S) (key : NodeKeyBytes) (peer : PeerSnapshot S)
      (j : NodeKeyBytes) (id : ℤ)
      → lookup patch.node_id a.0.id_to_key ≡ some key
      → lookup key a.0.peers ≡ some peer
      → (lookup j (apply_patch parse_socket_addr patch a).0.peers
          ≡ after_patch patch key peer (rotated patch key) a.0 j)
        × (lookup id (apply_patch parse_socket_addr patch a).0.id_to_key
            ≡ elim (rotated patch key) [
              | none ↦ lookup id a.0.id_to_key
              | some new_key ↦ if peer.node_id == id then some new_key else lookup id a.0.id_to_key
            ])
  unfolding apply_patch patch_peer rekey
  apply_patch-after_patch patch (m, d) key peer j id i p = elim (Option-cases (rotated patch key)) [
    | inl q ↦
        rw (i, p, q, apply_patch, patch_peer)
          (lookup-insert key j (apply_patch_fields parse_socket_addr patch peer) m.peers, refl)
    | inr (new_key, q) ↦
        let new_peer =
          apply_patch_fields parse_socket_addr patch (record peer { node_key = new_key }) in
        rw (i, p, q, apply_patch, patch_peer)
          (
            lookup-insert new_key j new_peer (remove key m.peers)
                ∙ rw (lookup-remove key j m.peers) refl,
            rw (apply_patch_fields-node_id patch (record peer { node_key = new_key }))
                (lookup-insert peer.node_id id new_key m.id_to_key),
          )
  ]

  apply_patch-counts :
      (patch : PeerChangeWire) (a : Applied S)
      → (apply_patch parse_socket_addr patch a).1.patches_applied
          + (apply_patch parse_socket_addr patch a).1.patches_skipped_unknown_node_id
        ≡ suc (a.1.patches_applied + a.1.patches_skipped_unknown_node_id)
  unfolding apply_patch patch_peer rekey
  apply_patch-counts patch (m, d) = elim (Option-cases (lookup patch.node_id m.id_to_key)) [
    | inl q ↦ rw (q, apply_patch) (omega arith)
    | inr (key, q) ↦ elim (Option-cases (lookup key m.peers)) [
      | inl t ↦ rw (q, t, apply_patch) (omega arith)
      | inr (p, t) ↦ elim (Option-cases (rotated patch key)) [
        | inl r ↦ rw (q, t, r, apply_patch, patch_peer) (omega arith)
        | inr (new_key, r) ↦ rw (q, t, r, apply_patch, patch_peer) (omega arith)
      ]
    ]
  ]

  -- Every patch of a frame is counted once, as applied or as skipped.
  pub apply_patches-counts :
      (ps : List PeerChangeWire) (a : Applied S)
      → (apply_patches parse_socket_addr ps a).1.patches_applied
          + (apply_patches parse_socket_addr ps a).1.patches_skipped_unknown_node_id
        ≡ a.1.patches_applied + a.1.patches_skipped_unknown_node_id + length ps
  unfolding apply_patches
  apply_patches-counts [] a = omega arith
  apply_patches-counts (p ∷ ps) a =
      omega
        (arith, apply_patches-counts ps (apply_patch parse_socket_addr p a), apply_patch-counts p a)
