-- ===== src/Control/NetMap/Apply.antt =====
-- netmap.rs: `NetMap::apply`, `apply_patch`, `our_login_name`.
use tailscale_vita.Prelude.{
  ◌+◌, true, not, List, [], ◌∷◌, ◌++◌, Option, none, some, if◌then◌else◌, ◌&&◌, ◌==◌, list_eq,
  nat_eq, filter_map, is_empty, lookup, insert, remove, keys, contains,
}
use mathlib.Core.Option
use tailscale_vita.Prelude.Int.{ℤ, pos, int_eq, int_ltb}
use tailscale_vita.Prelude.Bytes.{codes}
use tailscale_vita.Control.Wire.{
  Text, UserProfileWire, PacketFilterWire, missing, rules, NodeWire, DerpMapWire, PeerChangeWire,
  MapResponseWire,
}
use tailscale_vita.Control.Parse.{
  NodeKeyBytes, parse_nodekey, parse_nodekey_with_prefix, parse_addrs,
}
use tailscale_vita.Control.NetMap.State.{
  PeerSnapshot, NetMap, NetMapDelta, new_delta, ip_eq, rule_eq, option_beq,
}
use tailscale_vita.Control.NetMap.Convert.{
  user_profile_from_wire, filter_rule_from_wire, parse_derp_regions, or_else, parse_endpoints,
  node_to_snapshot,
}

-- The map and the delta that `apply` works on.
abbrev pub Applied : Type 0 → Type 0
Applied S = NetMap S × NetMapDelta S

-- The key of a patch, when it is there, is well formed and differs from the peer's.
unfoldable pub rotated : PeerChangeWire → NodeKeyBytes → Option NodeKeyBytes
rotated patch node_key = Option.bind patch.key (λ s.
    Option.bind (parse_nodekey s)
      (λ new_key. if not (new_key == node_key) then some new_key else none))

module _ {S : Type 0} where
  unfoldable pub apply_head : MapResponseWire → Applied S → Applied S
  apply_head resp (m, d) =
      let last_seq = if int_ltb m.last_seq resp.seq then resp.seq else m.last_seq in
      (
        record m {
          last_seq = last_seq;
          session_handle =
              if not (is_empty resp.map_session_handle)
              then resp.map_session_handle
              else m.session_handle;
          domain = if not (is_empty resp.domain) then resp.domain else m.domain;
        },
        record d { seq = last_seq },
      )

  unfoldable pub apply_node : NodeWire → Applied S → Applied S
  apply_node node (m, d) =
      let new_addrs = parse_addrs node.addresses in
      let addrs_changed = not (is_empty new_addrs) && not (new_addrs == m.our_addrs) in
      (
        record m {
          our_addrs = if addrs_changed then new_addrs else m.our_addrs;
          our_tags = if not (node.tags == m.our_tags) then node.tags else m.our_tags;
          our_key_expiry = elim node.key_expiry [
            | none ↦ m.our_key_expiry
            | some t ↦
                if not (option_beq (some t) m.our_key_expiry) then some t else m.our_key_expiry
          ];
          our_user_id =
              if not (node.user == pos 0) && not (option_beq (some node.user) m.our_user_id)
              then some node.user
              else m.our_user_id;
        },
        (if addrs_changed then record d { our_addrs_changed = true } else d),
      )

  unfoldable pub apply_profiles : List UserProfileWire → Applied S → Applied S
  apply_profiles [] a = a
  apply_profiles (up ∷ ups) (m, d) =
      apply_profiles ups
        (record m { user_profiles = insert up.id (user_profile_from_wire up) m.user_profiles }, d)

  unfoldable pub apply_derp_map : DerpMapWire → Applied S → Applied S
  apply_derp_map dmap (m, d) =
      (record m { derp_regions = parse_derp_regions dmap }, record d { derp_map_changed = true })

  unfoldable pub apply_packet_filter : PacketFilterWire → Applied S → Applied S
  apply_packet_filter missing a = a
  apply_packet_filter (rules rs) (m, d) =
      let next = filter_map filter_rule_from_wire rs in
      if not (option_beq m.packet_filter (some next))
      then (record m { packet_filter = some next }, record d { packet_filter_changed = true })
      else (m, d)

  -- The loop over `old_keys`.
  unfoldable pub drop_absent :
      (new_keys : List NodeKeyBytes) → List NodeKeyBytes → Applied S → Applied S
  drop_absent new_keys [] a = a
  drop_absent new_keys (old ∷ olds) (m, d) =
      let gone : Applied S =
        (record m { peers = remove old m.peers }, record d { removed = d.removed ++ old ∷ [] }) in
      drop_absent new_keys olds (if not (contains new_keys old) then gone else (m, d))

  unfoldable pub upsert : PeerSnapshot S → Applied S → Applied S
  upsert snap (m, d) = (
    record m {
      id_to_key = insert snap.node_id snap.node_key m.id_to_key;
      peers = insert snap.node_key snap m.peers;
    },
    record d { upserted = d.upserted ++ snap ∷ [] },
  )

  unfoldable pub upsert_all : List (PeerSnapshot S) → Applied S → Applied S
  upsert_all [] a = a
  upsert_all (snap ∷ snaps) a = upsert_all snaps (upsert snap a)

  unfoldable pub apply_removed : List ℤ → Applied S → Applied S
  apply_removed [] a = a
  apply_removed (id ∷ ids) (m, d) = apply_removed ids (elim (lookup id m.id_to_key) [
    | none ↦ (m, d)
    | some key ↦ (
      record m { id_to_key = remove id m.id_to_key; peers = remove key m.peers },
      record d { removed = d.removed ++ key ∷ [] },
    )
  ])

  unfoldable pub our_login_name : NetMap S → Option Text
  our_login_name m = Option.bind m.our_user_id (λ id.
      Option.bind (lookup id m.user_profiles)
        (λ profile. if is_empty profile.login_name then none else some profile.login_name))

  abbrev pub skip_patch : Applied S → Applied S
  skip_patch (m, d) =
      (m, record d { patches_skipped_unknown_node_id = d.patches_skipped_unknown_node_id + 1 })

  -- `if let Some(x) = &resp.field { .. }`
  abbrev pub when_some :
      {A : Type 0} → Option A → (A → Applied S → Applied S) → Applied S → Applied S
  when_some none f a = a
  when_some (some x) f a = f x a

module _ {S : Type 0} (parse_socket_addr : Text → Option S) where
  unfoldable pub apply_peers : List NodeWire → Applied S → Applied S
  apply_peers nodes (m, d) =
      let (m', d') =
        drop_absent (filter_map (λ n. parse_nodekey n.key) nodes) (keys m.peers) (m, d) in
      upsert_all (filter_map (node_to_snapshot parse_socket_addr) nodes)
        (record m' { id_to_key = [] }, d')

  unfoldable pub apply_peers_changed : List NodeWire → Applied S → Applied S
  apply_peers_changed nodes a = upsert_all (filter_map (node_to_snapshot parse_socket_addr) nodes) a

  unfoldable pub apply_patch_fields : PeerChangeWire → PeerSnapshot S → PeerSnapshot S
  apply_patch_fields patch peer = record peer {
    home_derp = elim patch.home_derp [
      | some home ↦ home
      | none ↦ or_else patch.derp_region_legacy peer.home_derp
    ];
    disco_key = elim patch.disco_key [
      | none ↦ peer.disco_key
      | some disco ↦ elim (parse_nodekey_with_prefix disco (codes "discokey:")) [
        | none ↦ peer.disco_key
        | some k ↦ some k
      ]
    ];
    online = or_else patch.online peer.online;
    endpoints = elim patch.endpoints [
      | none ↦ peer.endpoints
      | some es ↦ parse_endpoints parse_socket_addr es
    ];
    last_seen = elim patch.last_seen [ none ↦ peer.last_seen | some t ↦ some t ];
    key_expiry = elim patch.key_expiry [ none ↦ peer.key_expiry | some t ↦ some t ];
  }

  unfoldable pub rekey :
      PeerChangeWire → (node_key new_key : NodeKeyBytes) → PeerSnapshot S → Applied S → Applied S
  rekey patch node_key new_key peer (m, d) =
      let new_peer = apply_patch_fields patch (record peer { node_key = new_key }) in
      (
        record m {
          id_to_key = insert new_peer.node_id new_key m.id_to_key;
          peers = insert new_key new_peer (remove node_key m.peers);
        },
        record d {
          rekeyed = d.rekeyed ++ record { old_key = node_key; snapshot = new_peer } ∷ [];
          patches_applied = d.patches_applied + 1;
        },
      )

  unfoldable pub patch_peer :
      PeerChangeWire → (node_key : NodeKeyBytes) → PeerSnapshot S → Applied S → Applied S
  patch_peer patch node_key peer (m, d) = elim (rotated patch node_key) [
    | some new_key ↦ rekey patch node_key new_key peer (m, d)
    | none ↦
        let peer' = apply_patch_fields patch peer in
        (
          record m { peers = insert node_key peer' m.peers },
          record d { patches_applied = d.patches_applied + 1; upserted = d.upserted ++ peer' ∷ [] },
        )
  ]

  unfoldable pub apply_patch : PeerChangeWire → Applied S → Applied S
  apply_patch patch (m, d) = elim (lookup patch.node_id m.id_to_key) [
    | none ↦ skip_patch (m, d)
    | some node_key ↦ elim (lookup node_key m.peers) [
      | none ↦ skip_patch (m, d)
      | some peer ↦ patch_peer patch node_key peer (m, d)
    ]
  ]

  unfoldable pub apply_patches : List PeerChangeWire → Applied S → Applied S
  apply_patches [] a = a
  apply_patches (p ∷ ps) a = apply_patches ps (apply_patch p a)

  unfoldable pub apply : MapResponseWire → NetMap S → Applied S
  apply resp m = when_some resp.peers_changed_patch apply_patches (
      when_some resp.peers_removed apply_removed (
        when_some resp.peers_changed apply_peers_changed (
          when_some resp.peers apply_peers (
            apply_packet_filter resp.packet_filter (
              when_some resp.derp_map apply_derp_map (
                apply_profiles resp.user_profiles
                  (when_some resp.node apply_node (apply_head resp (m, new_delta)))))))))
