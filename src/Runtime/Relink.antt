-- ===== src/Runtime/Relink.antt =====
-- A node whose key is replaced while its Disco key stays: the order of `push_delta_to_magicsock`,
-- and what a ping or a pong does when its sender's Disco key stands for no node.
use tailscale_vita.Prelude.{
  ℕ, ◌≡◌, refl, sym, ap, ◌∙◌, inl, inr, false, List, [], ◌∷◌, none, some, is_empty, ◌==◌, list_eq,
  nat_eq, for_each, lookup, Has, All, Any, Option-cases,
}
use tailscale_vita.Wg.Peer.{Key, SocketAddr}
use tailscale_vita.Control.NetMap.State.{PeerSnapshot, RekeyedPeer}
use tailscale_vita.Disco.Message.{Ping, Pong}
use tailscale_vita.Magic.State.{MagicState, PeerState, remove_peer}
use tailscale_vita.Magic.Handle.{Env, World, learned, answer_waiter, handle_ping, handle_pong}
use tailscale_vita.Magic.Sections.{send_pong-state}
use tailscale_vita.Runtime.Delta.{
  NetMapSnapshot, push_candidates, rekey_candidates, push_delta_to_magicsock,
}
use tailscale_vita.Runtime.Pushes.{
  push_candidates-Has, push_candidates-unlinked, upserted-other, upserted-Has, remove_peer-unlinked,
  remove_peer-Has, removed-Has, removed-unlinks,
}

-- A node that is pushed under another key than its own neither is `node_pub` before nor brings the
-- Disco key.
abbrev pub Apart : (node_pub disco_pub : Key) → RekeyedPeer SocketAddr → Type 0
Apart node_pub disco_pub r =
    ((r.old_key == node_pub) ≡ false) × (r.snapshot.disco_key ≡ some disco_pub → ⊥)

rekeyed-unlinked :
    (now : ℕ) (rs : List (RekeyedPeer SocketAddr)) (node_pub disco_pub : Key) (s : MagicState)
    → All (Apart node_pub disco_pub) rs
    → lookup disco_pub s.disco_to_node ≡ none
    → Has node_pub s.peers
    → (lookup disco_pub (for_each (rekey_candidates now) rs s).disco_to_node ≡ none)
      × Has node_pub (for_each (rekey_candidates now) rs s).peers
unfolding for_each
rekeyed-unlinked now [] node_pub disco_pub s h gone has = (gone, has)
rekeyed-unlinked now (r ∷ rs) node_pub disco_pub s ((apart, foreign), h) gone has =
    rekeyed-unlinked now rs node_pub disco_pub (rekey_candidates now r s) h
      (push_candidates-unlinked now r.snapshot disco_pub (remove_peer r.old_key s) foreign
        (remove_peer-unlinked r.old_key disco_pub s gone))
      (push_candidates-Has now r.snapshot node_pub (remove_peer r.old_key s)
        (remove_peer-Has r.old_key node_pub s apart has))

-- A ping and a pong from a Disco key of no node.
handle_ping-unlinked :
    (env : Env) (now : ℕ) (src : SocketAddr) (disco_pub : Key) (m : Ping) (w : World)
    → lookup disco_pub w.state.disco_to_node ≡ none
    → (handle_ping env now src disco_pub m w).state ≡ w.state
unfolding handle_ping learned
handle_ping-unlinked env now src disco_pub m w gone =
    rw (gone, handle_ping) (send_pong-state env now disco_pub src m.tx_id w)

answer_waiter-peers :
    (now : ℕ) (tx_id : List ℕ) (w : World) → (answer_waiter now tx_id w).state.peers ≡ w.state.peers
unfolding answer_waiter
answer_waiter-peers now tx_id w = elim (Option-cases (lookup tx_id w.state.ping_outstanding)) [
  | inl e ↦ rw (e, answer_waiter) refl
  | inr (x, e) ↦ rw (e, answer_waiter) refl
]

handle_pong-unlinked :
    (env : Env) (now : ℕ) (src : SocketAddr) (disco_pub : Key) (m : Pong) (w : World)
    → lookup disco_pub w.state.disco_to_node ≡ none
    → (handle_pong env now src disco_pub m w).state.peers ≡ w.state.peers
unfolding handle_pong
handle_pong-unlinked env now src disco_pub m w gone =
    rw (gone, handle_pong) (answer_waiter-peers now m.tx_id w)

-- When an update upserts a node with a Disco key and endpoints, under a node key that it does not
-- remove, and removes the key of a node that the socket knows with the same Disco key and that the
-- update does not upsert, then the new node is there afterwards, but its Disco key resolves to no
-- node, unless the update also rekeys a node away from the new node's key or to that Disco key.
-- In the state after the update, a ping from this Disco key, from whatever address, leaves the
-- state as it is, and a pong from it changes no node and none of the paths.
pub push_delta_to_magicsock-unlinks :
    (now : ℕ) (snap : NetMapSnapshot) (s : MagicState) (p : PeerSnapshot SocketAddr)
    (disco_pub old : Key) (q : PeerState) (env : Env) (at : ℕ) (src : SocketAddr) (ping : Ping)
    (pong : Pong) (w : World)
    → Any (λ x. x ≡ p) snap.delta.upserted
    → Any (λ k. k ≡ old) snap.delta.removed
    → All (λ x. (x.node_key == old) ≡ false) snap.delta.upserted
    → All (λ k. (k == p.node_key) ≡ false) snap.delta.removed
    → All (Apart p.node_key disco_pub) snap.delta.rekeyed
    → p.disco_key ≡ some disco_pub
    → is_empty p.endpoints ≡ false
    → lookup old s.peers ≡ some q
    → q.disco_pub ≡ disco_pub
    → (lookup disco_pub (push_delta_to_magicsock now snap s).disco_to_node ≡ none)
      × Has p.node_key (push_delta_to_magicsock now snap s).peers
      × ((handle_ping env at src disco_pub ping
            (record w { state = push_delta_to_magicsock now snap s })).state
          ≡ push_delta_to_magicsock now snap s)
      × ((handle_pong env at src disco_pub pong
            (record w { state = push_delta_to_magicsock now snap s })).state.peers
          ≡ (push_delta_to_magicsock now snap s).peers)
unfolding push_delta_to_magicsock
push_delta_to_magicsock-unlinks now snap s p disco_pub old q env at src ping pong w ups rem others
      stays rekeys key listed known shared =
    let (gone, has) =
      rekeyed-unlinked now snap.delta.rekeyed p.node_key disco_pub removed rekeys cut there in
    (
      gone,
      has,
      handle_ping-unlinked env at src disco_pub ping (record w { state = pushed }) gone,
      handle_pong-unlinked env at src disco_pub pong (record w { state = pushed }) gone,
    )
  where
    upserted : MagicState
    upserted = for_each (push_candidates now) snap.delta.upserted s

    removed : MagicState
    removed = for_each remove_peer snap.delta.removed upserted

    pushed : MagicState
    pushed = for_each (rekey_candidates now) snap.delta.rekeyed removed

    cut : lookup disco_pub removed.disco_to_node ≡ none
    cut =
        ap (λ d. lookup d removed.disco_to_node) (sym shared)
        ∙ removed-unlinks snap.delta.removed old q upserted
            (upserted-other now snap.delta.upserted old s others ∙ known) rem

    there : Has p.node_key removed.peers
    there =
        removed-Has snap.delta.removed p.node_key upserted stays
          (upserted-Has now snap.delta.upserted p disco_pub s key listed ups)
