-- ===== src/Control/NetMap/Kept.antt =====
-- netmap.rs: the identities and the filter, which outlive the frames that do not speak of them.
use tailscale_vita.Prelude.{
  ◌≡◌, refl, ap, ◌∙◌, true, List, [], ◌∷◌, ◌++◌, Option, none, some, if◌then◌else◌, ◌==◌, list_eq,
  nat_eq, filter_map, lookup, insert, remove, keys, contains, lookup-insert, Bool-cases,
  Option-cases, inl, inr,
}
use tailscale_vita.Prelude.Int.{ℤ, int_eq}
use tailscale_vita.Control.Wire.{
  Text, PacketFilterWire, missing, rules, NodeWire, PeerChangeWire, UserProfileWire, DerpMapWire,
  MapResponseWire,
}
use tailscale_vita.Control.Parse.{NodeKeyBytes, parse_nodekey}
use tailscale_vita.Control.NetMap.State.{
  FilterRule, PeerSnapshot, UserProfile, NetMap, new_delta, option_beq, rule_eq,
}
use tailscale_vita.Control.NetMap.Convert.{
  filter_rule_from_wire, node_to_snapshot, user_profile_from_wire,
}
use tailscale_vita.Control.NetMap.Apply.{
  Applied, apply_head, apply_node, apply_profiles, apply_derp_map, apply_packet_filter, drop_absent,
  upsert, upsert_all, apply_removed, apply_peers, apply_peers_changed, rotated, rekey, patch_peer,
  apply_patch, apply_patches, when_some, apply,
}
use tailscale_vita.Control.NetMap.FullSet.{or_old, or_old-if}

-- The last profile of a frame for an id.
abbrev pub last_profile : ℤ → List UserProfileWire → Option UserProfile
last_profile id [] = none
last_profile id (up ∷ ups) = elim (last_profile id ups) [
  | some u ↦ some u
  | none ↦ if up.id == id then some (user_profile_from_wire up) else none
]

-- The filter behind a frame: that of the frame, when it has one.
abbrev pub filter_after : PacketFilterWire → Option (List FilterRule) → Option (List FilterRule)
filter_after missing old = old
filter_after (rules rs) old = some (filter_map filter_rule_from_wire rs)

module _ {S : Type 0} where
  -- The parts for peers leave the identities and the filter as they are.
  abbrev Fixed : Applied S → Applied S → Type 0
  Fixed a b = (b.0.user_profiles ≡ a.0.user_profiles) × (b.0.packet_filter ≡ a.0.packet_filter)

  Fixed-trans : (a b c : Applied S) → Fixed a b → Fixed b c → Fixed a c
  Fixed-trans a b c h k = (k.0 ∙ h.0, k.1 ∙ h.1)

  drop_absent-Fixed :
      (ks olds : List NodeKeyBytes) (a : Applied S) → Fixed a (drop_absent ks olds a)
  unfolding drop_absent
  drop_absent-Fixed ks [] a = (refl, refl)
  drop_absent-Fixed ks (old ∷ olds) (m, d) = elim (Bool-cases (contains ks old)) [
    | inl q ↦ rw (q, drop_absent) (drop_absent-Fixed ks olds (m, d))
    | inr q ↦
        rw (q, drop_absent)
          (drop_absent-Fixed ks olds
            (record m { peers = remove old m.peers }, record d { removed = d.removed ++ old ∷ [] }))
  ]

  upsert_all-Fixed : (ps : List (PeerSnapshot S)) (a : Applied S) → Fixed a (upsert_all ps a)
  unfolding upsert_all upsert
  upsert_all-Fixed [] a = (refl, refl)
  upsert_all-Fixed (p ∷ ps) (m, d) = upsert_all-Fixed ps (upsert p (m, d))

  apply_removed-Fixed : (ids : List ℤ) (a : Applied S) → Fixed a (apply_removed ids a)
  unfolding apply_removed
  apply_removed-Fixed [] a = (refl, refl)
  apply_removed-Fixed (id ∷ ids) (m, d) = elim (Option-cases (lookup id m.id_to_key)) [
    | inl q ↦ rw (q, apply_removed) (apply_removed-Fixed ids (m, d))
    | inr (key, q) ↦
        rw (q, apply_removed)
          (apply_removed-Fixed ids (
            record m { id_to_key = remove id m.id_to_key; peers = remove key m.peers },
            record d { removed = d.removed ++ key ∷ [] },
          ))
  ]

  when_some-Fixed :
      {A : Type 0} (o : Option A) (f : A → Applied S → Applied S) (a : Applied S)
      → ((x : A) (b : Applied S) → Fixed b (f x b))
      → Fixed a (when_some o f a)
  when_some-Fixed none f a k = (refl, refl)
  when_some-Fixed (some x) f a k = k x a

  lookup-apply_profiles :
      (id : ℤ) (ups : List UserProfileWire) (a : Applied S)
      → (lookup id (apply_profiles ups a).0.user_profiles
          ≡ or_old (last_profile id ups) (lookup id a.0.user_profiles))
        × ((apply_profiles ups a).0.packet_filter ≡ a.0.packet_filter)
  unfolding apply_profiles
  lookup-apply_profiles id [] a = (refl, refl)
  lookup-apply_profiles id (up ∷ ups) (m, d) =
      let (l, f) = lookup-apply_profiles id ups (
        record m { user_profiles = insert up.id (user_profile_from_wire up) m.user_profiles },
        d,
      ) in
      (l ∙ step (last_profile id ups), f)
    where
      step :
          (o : Option UserProfile)
          → or_old o (lookup id (insert up.id (user_profile_from_wire up) m.user_profiles))
            ≡ or_old
                (elim o [
                  | some u ↦ some u
                  | none ↦ if up.id == id then some (user_profile_from_wire up) else none
                ])
                (lookup id m.user_profiles)
      step (some u) = refl
      step none =
          lookup-insert up.id id (user_profile_from_wire up) m.user_profiles
          ∙ or_old-if (up.id == id) (user_profile_from_wire up) (lookup id m.user_profiles)

  apply_packet_filter-filter_after :
      (f : PacketFilterWire) (a : Applied S)
      → ((apply_packet_filter f a).0.user_profiles ≡ a.0.user_profiles)
        × ((apply_packet_filter f a).0.packet_filter ≡ filter_after f a.0.packet_filter)
  unfolding apply_packet_filter
  apply_packet_filter-filter_after missing a = (refl, refl)
  apply_packet_filter-filter_after (rules rs) (m, d) =
      elim (Bool-cases (option_beq m.packet_filter (some (filter_map filter_rule_from_wire rs)))) [
        | inl q ↦ rw (q, apply_packet_filter) (refl, same m.packet_filter q)
        | inr q ↦ rw (q, apply_packet_filter) (refl, refl)
      ]
    where
      same :
          (o : Option (List FilterRule))
          → option_beq o (some (filter_map filter_rule_from_wire rs)) ≡ true
          → o ≡ some (filter_map filter_rule_from_wire rs)
      same none q = absurd (cc)
      same (some old) q = rw ((list_eq.beq_iff old (filter_map filter_rule_from_wire rs)).0 q) refl

  apply_node-Fixed : (n : NodeWire) (a : Applied S) → Fixed a (apply_node n a)
  unfolding apply_node
  apply_node-Fixed n (m', d) = (refl, refl)

  apply_head-Fixed : (resp : MapResponseWire) (a : Applied S) → Fixed a (apply_head resp a)
  unfolding apply_head
  apply_head-Fixed resp (m', d) = (refl, refl)

  apply_derp_map-Fixed : (dmap : DerpMapWire) (a : Applied S) → Fixed a (apply_derp_map dmap a)
  unfolding apply_derp_map
  apply_derp_map-Fixed dmap (m', d) = (refl, refl)

module _ {S : Type 0} (parse_socket_addr : Text → Option S) where
  apply_peers-Fixed :
      (nodes : List NodeWire) (a : Applied S) → Fixed a (apply_peers parse_socket_addr nodes a)
  unfolding apply_peers
  apply_peers-Fixed nodes (m, d) =
      let dropped =
        drop_absent (filter_map (λ n. parse_nodekey n.key) nodes) (keys m.peers) (m, d) in
      let h =
        drop_absent-Fixed (filter_map (λ n. parse_nodekey n.key) nodes) (keys m.peers) (m, d) in
      let k =
        upsert_all-Fixed (filter_map (node_to_snapshot parse_socket_addr) nodes)
          (record dropped.0 { id_to_key = [] }, dropped.1) in
      (k.0 ∙ h.0, k.1 ∙ h.1)

  apply_peers_changed-Fixed :
      (nodes : List NodeWire) (a : Applied S)
      → Fixed a (apply_peers_changed parse_socket_addr nodes a)
  unfolding apply_peers_changed
  apply_peers_changed-Fixed nodes a =
      upsert_all-Fixed (filter_map (node_to_snapshot parse_socket_addr) nodes) a

  apply_patch-Fixed :
      (patch : PeerChangeWire) (a : Applied S) → Fixed a (apply_patch parse_socket_addr patch a)
  unfolding apply_patch patch_peer rekey
  apply_patch-Fixed patch (m, d) = elim (Option-cases (lookup patch.node_id m.id_to_key)) [
    | inl q ↦ rw (q, apply_patch) (refl, refl)
    | inr (key, q) ↦ elim (Option-cases (lookup key m.peers)) [
      | inl t ↦ rw (q, t, apply_patch) (refl, refl)
      | inr (p, t) ↦ elim (Option-cases (rotated patch key)) [
        | inl r ↦ rw (q, t, r, apply_patch, patch_peer) (refl, refl)
        | inr (new_key, r) ↦ rw (q, t, r, apply_patch, patch_peer) (refl, refl)
      ]
    ]
  ]

  apply_patches-Fixed :
      (ps : List PeerChangeWire) (a : Applied S) → Fixed a (apply_patches parse_socket_addr ps a)
  unfolding apply_patches
  apply_patches-Fixed [] a = (refl, refl)
  apply_patches-Fixed (p ∷ ps) a =
      Fixed-trans a (apply_patch parse_socket_addr p a)
        (apply_patches parse_socket_addr ps (apply_patch parse_socket_addr p a))
        (apply_patch-Fixed p a) (apply_patches-Fixed ps (apply_patch parse_socket_addr p a))

  -- A frame of control never loses an identity: behind it the profile of a user is the last that
  -- the frame has for that user, and otherwise the one that was known. The packet filter is that of
  -- the frame, when it has one, whole; otherwise it stays as it was, so that it stays absent until
  -- the first frame with a filter.
  pub apply-keeps :
      (resp : MapResponseWire) (m : NetMap S) (id : ℤ)
      → (lookup id (apply parse_socket_addr resp m).0.user_profiles
          ≡ or_old (last_profile id resp.user_profiles) (lookup id m.user_profiles))
        × ((apply parse_socket_addr resp m).0.packet_filter
            ≡ filter_after resp.packet_filter m.packet_filter)
  unfolding apply
  apply-keeps resp m id =
      let a0 = apply_head resp (m, new_delta) in
      let a1 = when_some resp.node apply_node a0 in
      let a2 = apply_profiles resp.user_profiles a1 in
      let a3 = when_some resp.derp_map apply_derp_map a2 in
      let a4 = apply_packet_filter resp.packet_filter a3 in
      let a5 = when_some resp.peers (apply_peers parse_socket_addr) a4 in
      let a6 = when_some resp.peers_changed (apply_peers_changed parse_socket_addr) a5 in
      let a7 = when_some resp.peers_removed apply_removed a6 in
      let a8 = when_some resp.peers_changed_patch (apply_patches parse_socket_addr) a7 in
      let early =
        Fixed-trans (m, new_delta) a0 a1 (apply_head-Fixed resp (m, new_delta))
          (when_some-Fixed resp.node apply_node a0 apply_node-Fixed) in
      let derps = when_some-Fixed resp.derp_map apply_derp_map a2 apply_derp_map-Fixed in
      let filter = apply_packet_filter-filter_after resp.packet_filter a3 in
      let profiles = lookup-apply_profiles id resp.user_profiles a1 in
      let late =
        Fixed-trans a4 a6 a8
          (Fixed-trans a4 a5 a6
            (when_some-Fixed resp.peers (apply_peers parse_socket_addr) a4 apply_peers-Fixed)
            (when_some-Fixed resp.peers_changed (apply_peers_changed parse_socket_addr) a5
              apply_peers_changed-Fixed))
          (Fixed-trans a6 a7 a8
            (when_some-Fixed resp.peers_removed apply_removed a6 apply_removed-Fixed)
            (when_some-Fixed resp.peers_changed_patch (apply_patches parse_socket_addr) a7
              apply_patches-Fixed)) in
      (
        ap (lookup id) (late.0 ∙ filter.0 ∙ derps.0)
            ∙ profiles.0
            ∙ ap (λ us. or_old (last_profile id resp.user_profiles) (lookup id us)) early.0,
        late.1 ∙ filter.1 ∙ ap (filter_after resp.packet_filter) (derps.1 ∙ profiles.1 ∙ early.1),
      )
