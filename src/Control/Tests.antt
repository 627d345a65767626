-- ===== src/Control/Tests.antt =====
-- The theorems on the network map at concrete frames.
use tailscale_vita.Prelude.{
  ℕ, ◌+◌, ◌<◌, ◌≡◌, refl, true, false, List, [], ◌∷◌, ◌++◌, Option, none, some, lookup, All, ◌==◌,
  if◌then◌else◌, filter_map, list_eq, nat_eq, arith,
}
use tailscale_vita.Prelude.Int.{ℤ, pos, int_eq}
use tailscale_vita.Prelude.Bytes.{codes}
use tailscale_vita.Control.Wire.{Text, NodeWire, PeerChangeWire, MapResponseWire, rules}
use tailscale_vita.Control.Parse.{NodeKeyBytes, parse_nodekey, to_nodekey_string}
use tailscale_vita.Control.NetMap.State.{PeerSnapshot, NetMap, new_netmap, new_delta}
use tailscale_vita.Control.NetMap.Convert.{node_to_snapshot}
use tailscale_vita.Control.NetMap.Apply.{
  apply_removed, apply_peers, apply_peers_changed, rotated, apply_patch, apply_patches, apply,
}
use tailscale_vita.Control.NetMap.Invariant.{IsNetMap}
use tailscale_vita.Control.NetMap.Preserve.{session, session-IsNetMap}
use tailscale_vita.Control.NetMap.FullSet.{
  last_with_key, last_key_of, or_old, apply_peers-replaces, apply_removed-keeps_old_key,
}
use tailscale_vita.Control.NetMap.Patches.{
  after_patch, apply_patch-after_patch, apply_patches-counts,
}
use tailscale_vita.Control.NetMap.Kept.{last_profile, filter_after, apply-keeps}
use tailscale_vita.Control.NetMap.Keys.{parse_nodekey-to_nodekey_string}

-- Endpoints that are read as the texts that they are.
abbrev as_text : Text → Option Text
as_text s = some s

abbrev sixteen : ℕ → List ℕ
sixteen b = b ∷ b ∷ b ∷ b ∷ b ∷ b ∷ b ∷ b ∷ b ∷ b ∷ b ∷ b ∷ b ∷ b ∷ b ∷ b ∷ []

abbrev key_of : ℕ → NodeKeyBytes
key_of b = sixteen b ++ sixteen b

old_key-bytes : All (λ b. b < 256) (key_of 171)
old_key-bytes = ground arith

parse_nodekey-to_nodekey_string_example :
    parse_nodekey (to_nodekey_string (key_of 171)) ≡ some (key_of 171)
parse_nodekey-to_nodekey_string_example =
    parse_nodekey-to_nodekey_string (key_of 171) old_key-bytes refl

abbrev node : ℤ → NodeKeyBytes → NodeWire
node id key = record {
  id = id;
  stable_id = [];
  user = pos 9;
  name = codes "peer";
  key = to_nodekey_string key;
  disco_key = [];
  addresses = codes "100.64.0.2/32" ∷ [];
  allowed_ips = [];
  home_derp = 1;
  derp_legacy = [];
  online = none;
  endpoints = [];
  tags = [];
  key_expiry = none;
  last_seen = none;
}

abbrev patch : PeerChangeWire
patch = record {
  node_id = pos 4;
  key = some (to_nodekey_string (key_of 18));
  disco_key = none;
  home_derp = some 7;
  derp_region_legacy = none;
  endpoints = none;
  online = some true;
  last_seen = none;
  key_expiry = none;
}

abbrev response : MapResponseWire
response = record {
  map_session_handle = [];
  seq = pos 3;
  keep_alive = false;
  node = some (node (pos 1) (key_of 1));
  derp_map = none;
  peers = some (node (pos 4) (key_of 171) ∷ []);
  peers_changed = none;
  peers_removed = some (pos 5 ∷ []);
  peers_changed_patch = some (patch ∷ []);
  domain = codes "example";
  user_profiles = record { id = pos 9; login_name = codes "ada"; display_name = [] } ∷ [];
  control_time = none;
  packet_filter = rules [];
}

-- What the map knows of peer 4.
abbrev known : PeerSnapshot Text
known = record {
  node_id = pos 4;
  node_key = key_of 171;
  disco_key = none;
  name = codes "peer";
  allowed_ips = [];
  home_derp = 1;
  online = false;
  endpoints = [];
  last_seen = none;
  key_expiry = none;
}

abbrev start : NetMap Text
start = record new_netmap { peers = (key_of 171, known) ∷ []; id_to_key = (pos 4, key_of 171) ∷ [] }

known-peer : lookup (key_of 171) start.peers ≡ some known
unfolding lookup
known-peer = refl

known-id : lookup (pos 4) start.id_to_key ≡ some (key_of 171)
unfolding lookup
known-id = refl

session-IsNetMap_example : IsNetMap (session as_text (response ∷ response ∷ []) new_netmap)
session-IsNetMap_example = session-IsNetMap as_text (response ∷ response ∷ [])

apply_peers-replaces_example :
    (lookup
        (key_of 171)
        (apply_peers as_text (node (pos 6) (key_of 18) ∷ []) (start, new_delta)).0.peers
      ≡ last_with_key
          (key_of 171)
          (filter_map (node_to_snapshot as_text) (node (pos 6) (key_of 18) ∷ [])))
    × (lookup
          (pos 6)
          (apply_peers as_text (node (pos 6) (key_of 18) ∷ []) (start, new_delta)).0.id_to_key
        ≡ last_key_of
            (pos 6)
            (filter_map (node_to_snapshot as_text) (node (pos 6) (key_of 18) ∷ [])))
apply_peers-replaces_example =
    apply_peers-replaces as_text (node (pos 6) (key_of 18) ∷ []) (start, new_delta) (key_of 171)
      (pos 6)

new_key-bytes : All (λ b. b < 256) (key_of 18)
new_key-bytes = ground arith

apply_removed-keeps_old_key_example :
    (lookup
        (key_of 171)
        (apply_removed
          (pos 4 ∷ [])
          (apply_peers_changed as_text (node (pos 4) (key_of 18) ∷ []) (start, new_delta))).0.peers
      ≡ some known)
    × (lookup
          (pos 4)
          (apply_removed (pos 4 ∷ []) (
            apply_peers_changed as_text
              (node (pos 4) (key_of 18) ∷ [])
              (start, new_delta))).0.id_to_key
        ≡ none)
apply_removed-keeps_old_key_example =
    apply_removed-keeps_old_key as_text (node (pos 4) (key_of 18)) (start, new_delta) (key_of 18)
      known (parse_nodekey-to_nodekey_string (key_of 18) new_key-bytes refl) known-peer (cc)

apply_patch-after_patch_example :
    (lookup (key_of 171) (apply_patch as_text patch (start, new_delta)).0.peers
      ≡ after_patch as_text patch
          (key_of 171)
          known
          (rotated patch (key_of 171))
          start
          (key_of 171))
    × (lookup (pos 4) (apply_patch as_text patch (start, new_delta)).0.id_to_key
        ≡ elim (rotated patch (key_of 171)) [
          | none ↦ lookup (pos 4) start.id_to_key
          | some new_key ↦
              if known.node_id == pos 4 then some new_key else lookup (pos 4) start.id_to_key
        ])
apply_patch-after_patch_example =
    apply_patch-after_patch as_text patch (start, new_delta) (key_of 171) known (key_of 171) (pos 4)
      known-id known-peer

apply_patches-counts_example :
    (apply_patches as_text (patch ∷ patch ∷ []) (start, new_delta)).1.patches_applied
      + (apply_patches as_text
          (patch ∷ patch ∷ [])
          (start, new_delta)).1.patches_skipped_unknown_node_id
    ≡ 0 + 0 + 2
apply_patches-counts_example = apply_patches-counts as_text (patch ∷ patch ∷ []) (start, new_delta)

apply-keeps_example :
    (lookup (pos 9) (apply as_text response start).0.user_profiles
      ≡ or_old (last_profile (pos 9) response.user_profiles) (lookup (pos 9) start.user_profiles))
    × ((apply as_text response start).0.packet_filter ≡ filter_after response.packet_filter none)
apply-keeps_example = apply-keeps as_text response start (pos 9)
