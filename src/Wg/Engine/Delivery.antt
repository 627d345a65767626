-- ===== src/Wg/Engine/Delivery.antt =====
-- A datagram that carries the index of a peer reaches that peer.
use tailscale_vita.Prelude.{
  ℕ, ◌+◌, ◌*◌, ◌/◌, ◌%◌, ◌^◌, ◌≤◌, ◌<◌, ◌≡◌, ◌⊎◌, inl, inr, true, false, List, [], ◌∷◌, ◌++◌, some,
  lookup, list_eq, nat_eq, arith, eqb,
}
use tailscale_vita.Prelude.Bytes.{from_be32}
use tailscale_vita.Wg.Peer.{Key, Peer}
use tailscale_vita.Wg.Indices.Tables.{Indices}
use tailscale_vita.Wg.Indices.Dispatch.{
  single_peer, route_inbound, route_by_index, handshake_resp, cookie_reply, packet_data,
}
use tailscale_vita.Wg.Engine.Coherence.{IsCoherent}

-- `u32::to_le_bytes`
abbrev pub le32 : ℕ → List ℕ
le32 n = (n % 256) ∷ (n / 2 ^ 8 % 256) ∷ (n / 2 ^ 16 % 256) ∷ (n / 2 ^ 24 % 256) ∷ []

-- The front of a message of type `kind`: a handshake response names its sender first.
abbrev pub front : (kind sender : ℕ) → List ℕ
front kind sender = elim (eqb kind handshake_resp) [
  | true ↦ le32 kind ++ le32 sender
  | false ↦ le32 kind
]

read_back :
    (i session : ℕ)
    → i < 2 ^ 24
    → session < 2 ^ 8
    → (let n : ℕ = i * 2 ^ 8 + session in
        from_be32 (n / 2 ^ 24 % 256) (n / 2 ^ 16 % 256) (n / 2 ^ 8 % 256) (n % 256) / 2 ^ 8)
      ≡ i
read_back i session h k = omega arith

found :
    {x : Indices} {next : ℕ} (k : Key) (p : Peer)
    → IsCoherent x next
    → lookup k x.by_pubkey ≡ some p
    → (lookup p.our_index x.by_idx ≡ some p) × (p.our_index < next)
found k p co at =
    let (key, idx) = co.by_key k p at in let (i, l, lt) = co.by_index p.our_index p idx in (idx, lt)

-- In coherent indices that have given out fewer than 2 ^ 24 indices, a data message, a cookie reply
-- or a handshake response whose receiver index is a session of a known peer goes to that peer.
pub route_inbound-delivers :
    (x : Indices) (next : ℕ) (k : Key) (p : Peer) (kind sender session : ℕ) (rest : List ℕ)
    → IsCoherent x next
    → lookup k x.by_pubkey ≡ some p
    → next ≤ 2 ^ 24
    → session < 2 ^ 8
    → (kind ≡ handshake_resp) ⊎ (kind ≡ cookie_reply) ⊎ (kind ≡ packet_data)
    → route_inbound x (front kind sender ++ le32 (p.our_index * 2 ^ 8 + session) ++ rest)
      ≡ single_peer p
unfolding route_inbound route_by_index
route_inbound-delivers x next k p kind sender session rest co at small hs (inl e) =
    let (idx, lt) = found k p co at in rw e (ground (arith, read_back p.our_index session, idx))
route_inbound-delivers x next k p kind sender session rest co at small hs (inr (inl e)) =
    let (idx, lt) = found k p co at in rw e (ground (arith, read_back p.our_index session, idx))
route_inbound-delivers x next k p kind sender session rest co at small hs (inr (inr e)) =
    let (idx, lt) = found k p co at in rw e (ground (arith, read_back p.our_index session, idx))
