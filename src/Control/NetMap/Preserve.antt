-- ===== src/Control/NetMap/Preserve.antt =====
-- netmap.rs: each part of `apply` keeps the map well formed.
use tailscale_vita.Prelude.{
  refl, Bool, true, false, not, List, [], ◌∷◌, ◌++◌, Option, none, some, if◌then◌else◌, ◌&&◌, ◌==◌,
  list_eq, nat_eq, filter_map, is_empty, lookup, remove, keys, contains, All, Bool-cases,
  Option-cases, inl, inr,
}
use tailscale_vita.Prelude.Int.{ℤ, int_eq}
use tailscale_vita.Control.Wire.{
  Text, PacketFilterWire, missing, rules, NodeWire, PeerChangeWire, UserProfileWire, DerpMapWire,
  MapResponseWire,
}
use tailscale_vita.Control.Parse.{NodeKeyBytes, parse_nodekey, parse_addrs}
use tailscale_vita.Control.NetMap.State.{
  PeerSnapshot, NetMap, new_netmap, new_delta, option_beq, rule_eq, ip_eq,
}
use tailscale_vita.Control.NetMap.Convert.{filter_rule_from_wire, node_to_snapshot, snapshot_with}
use tailscale_vita.Control.NetMap.Apply.{
  Applied, apply_head, apply_node, apply_profiles, apply_derp_map, apply_packet_filter, drop_absent,
  upsert, upsert_all, apply_removed, apply_peers, apply_peers_changed, apply_patch_fields, rotated,
  rekey, patch_peer, apply_patch, apply_patches, when_some, apply,
}
use tailscale_vita.Control.NetMap.Invariant.{
  Where, Where-bind, anything, All-filter_map, IsIp, IsRule, IsEntry, IsNetMap, All-insert,
  All-remove, All-lookup, filter_rule_from_wire-IsRule, parse_addrs-IsIp, allowed_of-IsIp,
}

-- A snapshot that may be put under its own key.
abbrev IsSnapshot : {S : Type 0} → PeerSnapshot S → Type 0
IsSnapshot p = All IsIp p.allowed_ips

module _ {S : Type 0} where
  apply_head-IsNetMap :
      (resp : MapResponseWire) (a : Applied S) → IsNetMap a.0 → IsNetMap (apply_head resp a).0
  unfolding apply_head
  apply_head-IsNetMap resp (m, d) h = h

  apply_node-IsNetMap : (n : NodeWire) (a : Applied S) → IsNetMap a.0 → IsNetMap (apply_node n a).0
  unfolding apply_node
  apply_node-IsNetMap n (m, d) h = (
    go (not (is_empty (parse_addrs n.addresses)) && not (parse_addrs n.addresses == m.our_addrs)),
    h.1,
    h.2,
  )
    where
      go : (b : Bool) → All IsIp (if b then parse_addrs n.addresses else m.our_addrs)
      go true = parse_addrs-IsIp n.addresses
      go false = h.0

  apply_profiles-IsNetMap :
      (ups : List UserProfileWire) (a : Applied S)
      → IsNetMap a.0
      → IsNetMap (apply_profiles ups a).0
  unfolding apply_profiles
  apply_profiles-IsNetMap [] a h = h
  apply_profiles-IsNetMap (up ∷ ups) (m, d) h = apply_profiles-IsNetMap ups _ h

  apply_derp_map-IsNetMap :
      (dmap : DerpMapWire) (a : Applied S) → IsNetMap a.0 → IsNetMap (apply_derp_map dmap a).0
  unfolding apply_derp_map
  apply_derp_map-IsNetMap dmap (m, d) h = h

  apply_packet_filter-IsNetMap :
      (f : PacketFilterWire) (a : Applied S) → IsNetMap a.0 → IsNetMap (apply_packet_filter f a).0
  unfolding apply_packet_filter
  apply_packet_filter-IsNetMap missing a h = h
  apply_packet_filter-IsNetMap (rules rs) (m, d) h =
      elim (Bool-cases (option_beq m.packet_filter (some (filter_map filter_rule_from_wire rs)))) [
        | inl q ↦ rw (q, apply_packet_filter) h
        | inr q ↦
            rw (q, apply_packet_filter)
              (
                h.0,
                All-filter_map IsRule filter_rule_from_wire filter_rule_from_wire-IsRule rs,
                h.2,
              )
      ]

  drop_absent-IsNetMap :
      (ks olds : List NodeKeyBytes) (a : Applied S)
      → IsNetMap a.0
      → IsNetMap (drop_absent ks olds a).0
  unfolding drop_absent
  drop_absent-IsNetMap ks [] a h = h
  drop_absent-IsNetMap ks (old ∷ olds) (m, d) h = elim (Bool-cases (contains ks old)) [
    | inl q ↦ rw (q, drop_absent) (drop_absent-IsNetMap ks olds (m, d) h)
    | inr q ↦
        rw (q, drop_absent)
          (drop_absent-IsNetMap ks olds
            (record m { peers = remove old m.peers }, record d { removed = d.removed ++ old ∷ [] })
            (h.0, h.1, All-remove IsEntry old m.peers h.2))
  ]

  upsert_all-IsNetMap :
      (snaps : List (PeerSnapshot S)) (a : Applied S)
      → All IsSnapshot snaps
      → IsNetMap a.0
      → IsNetMap (upsert_all snaps a).0
  unfolding upsert_all upsert
  upsert_all-IsNetMap [] a k h = h
  upsert_all-IsNetMap (p ∷ ps) (m, d) k h =
      upsert_all-IsNetMap ps (upsert p (m, d)) k.1
        (h.0, h.1, All-insert IsEntry p.node_key p m.peers (refl, k.0) h.2)

  apply_removed-IsNetMap :
      (ids : List ℤ) (a : Applied S) → IsNetMap a.0 → IsNetMap (apply_removed ids a).0
  unfolding apply_removed
  apply_removed-IsNetMap [] a h = h
  apply_removed-IsNetMap (id ∷ ids) (m, d) h = elim (Option-cases (lookup id m.id_to_key)) [
    | inl q ↦ rw (q, apply_removed) (apply_removed-IsNetMap ids (m, d) h)
    | inr (key, q) ↦
        rw (q, apply_removed)
          (apply_removed-IsNetMap ids
            (
              record m { id_to_key = remove id m.id_to_key; peers = remove key m.peers },
              record d { removed = d.removed ++ key ∷ [] },
            )
            (h.0, h.1, All-remove IsEntry key m.peers h.2))
  ]

module _ {S : Type 0} (parse_socket_addr : Text → Option S) where
  node_to_snapshot-IsSnapshot :
      (n : NodeWire) → Where IsSnapshot (node_to_snapshot parse_socket_addr n)
  unfolding node_to_snapshot snapshot_with
  node_to_snapshot-IsSnapshot n =
      Where-bind _ IsSnapshot (parse_nodekey n.key) _ (anything (parse_nodekey n.key))
        (λ k u. allowed_of-IsIp n)

  snapshots-IsSnapshot :
      (nodes : List NodeWire)
      → All IsSnapshot (filter_map (node_to_snapshot parse_socket_addr) nodes)
  snapshots-IsSnapshot nodes =
      All-filter_map IsSnapshot (node_to_snapshot parse_socket_addr) node_to_snapshot-IsSnapshot
        nodes

  apply_peers-IsNetMap :
      (nodes : List NodeWire) (a : Applied S)
      → IsNetMap a.0
      → IsNetMap (apply_peers parse_socket_addr nodes a).0
  unfolding apply_peers
  apply_peers-IsNetMap nodes (m, d) h =
      upsert_all-IsNetMap (filter_map (node_to_snapshot parse_socket_addr) nodes) _
        (snapshots-IsSnapshot nodes)
        (drop_absent-IsNetMap (filter_map (λ n. parse_nodekey n.key) nodes) (keys m.peers) (m, d) h)

  apply_peers_changed-IsNetMap :
      (nodes : List NodeWire) (a : Applied S)
      → IsNetMap a.0
      → IsNetMap (apply_peers_changed parse_socket_addr nodes a).0
  unfolding apply_peers_changed
  apply_peers_changed-IsNetMap nodes a h = upsert_all-IsNetMap _ a (snapshots-IsSnapshot nodes) h

  patch_peer-IsNetMap :
      (patch : PeerChangeWire) (key : NodeKeyBytes) (p : PeerSnapshot S) (a : Applied S)
      → IsEntry (key, p)
      → IsNetMap a.0
      → IsNetMap (patch_peer parse_socket_addr patch key p a).0
  unfolding patch_peer rekey apply_patch_fields
  patch_peer-IsNetMap patch key p (m, d) k h = elim (Option-cases (rotated patch key)) [
    | inl q ↦
        rw (q, patch_peer)
          (
            h.0,
            h.1,
            All-insert IsEntry key (apply_patch_fields parse_socket_addr patch p) m.peers k h.2,
          )
    | inr (new_key, q) ↦
        rw (q, patch_peer)
          (
            h.0,
            h.1,
            All-insert IsEntry new_key
                (apply_patch_fields parse_socket_addr patch (record p { node_key = new_key }))
                (remove key m.peers) (refl, k.1) (All-remove IsEntry key m.peers h.2),
          )
  ]

  apply_patch-IsNetMap :
      (patch : PeerChangeWire) (a : Applied S)
      → IsNetMap a.0
      → IsNetMap (apply_patch parse_socket_addr patch a).0
  unfolding apply_patch
  apply_patch-IsNetMap patch (m, d) h = elim (Option-cases (lookup patch.node_id m.id_to_key)) [
    | inl q ↦ rw (q, apply_patch) h
    | inr (key, q) ↦ elim (Option-cases (lookup key m.peers)) [
      | inl t ↦ rw (q, t, apply_patch) h
      | inr (p, t) ↦
          rw (q, t, apply_patch)
            (patch_peer-IsNetMap patch key p (m, d) (All-lookup IsEntry key p m.peers t h.2) h)
    ]
  ]

  apply_patches-IsNetMap :
      (ps : List PeerChangeWire) (a : Applied S)
      → IsNetMap a.0
      → IsNetMap (apply_patches parse_socket_addr ps a).0
  unfolding apply_patches
  apply_patches-IsNetMap [] a h = h
  apply_patches-IsNetMap (p ∷ ps) a h = apply_patches-IsNetMap ps _ (apply_patch-IsNetMap p a h)

  when_some-IsNetMap :
      {A : Type 0} (o : Option A) (f : A → Applied S → Applied S) (a : Applied S)
      → ((x : A) (b : Applied S) → IsNetMap b.0 → IsNetMap (f x b).0)
      → IsNetMap a.0
      → IsNetMap (when_some o f a).0
  when_some-IsNetMap none f a k h = h
  when_some-IsNetMap (some x) f a k h = k x a h

  apply-IsNetMap :
      (resp : MapResponseWire) (m : NetMap S)
      → IsNetMap m
      → IsNetMap (apply parse_socket_addr resp m).0
  unfolding apply
  apply-IsNetMap resp m h =
      when_some-IsNetMap resp.peers_changed_patch (apply_patches parse_socket_addr) _
        apply_patches-IsNetMap
        (when_some-IsNetMap resp.peers_removed apply_removed _ apply_removed-IsNetMap (
          when_some-IsNetMap resp.peers_changed (apply_peers_changed parse_socket_addr) _
            apply_peers_changed-IsNetMap
            (when_some-IsNetMap resp.peers (apply_peers parse_socket_addr) _ apply_peers-IsNetMap (
              apply_packet_filter-IsNetMap resp.packet_filter _ (
                when_some-IsNetMap resp.derp_map apply_derp_map _ apply_derp_map-IsNetMap (
                  apply_profiles-IsNetMap resp.user_profiles _ (
                    when_some-IsNetMap resp.node apply_node _ apply_node-IsNetMap
                      (apply_head-IsNetMap resp (m, new_delta) h))))))))

  -- The map after a session of responses.
  abbrev pub session : List MapResponseWire → NetMap S → NetMap S
  session [] m = m
  session (r ∷ rs) m = session rs (apply parse_socket_addr r m).0

  session-IsNetMap_from :
      (rs : List MapResponseWire) (m : NetMap S) → IsNetMap m → IsNetMap (session rs m)
  session-IsNetMap_from [] m h = h
  session-IsNetMap_from (r ∷ rs) m h = session-IsNetMap_from rs _ (apply-IsNetMap r m h)

  -- Whatever responses control sends, in whatever order: each peer of the map that results stands
  -- under its own key; every network, of a peer, of our node or of a rule, has a prefix of at most
  -- 32 bits; and every rule has a source, a destination, and ranges of ports that are not reversed.
  pub session-IsNetMap : (rs : List MapResponseWire) → IsNetMap (session rs new_netmap)
  session-IsNetMap rs = session-IsNetMap_from rs new_netmap (tt, tt, tt)
