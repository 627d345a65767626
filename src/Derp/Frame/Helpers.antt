-- ===== src/Derp/Frame/Helpers.antt =====
-- frame.rs: the typed helpers over payloads.
use tailscale_vita.Prelude.{
  ℕ, ◌+◌, Bool, List, [], ◌∷◌, length, take, drop, get_or, ltb, if◌then◌else◌, Result, ok, ◌>>=◌,
  ◌>>◌, fail_if,
}
use tailscale_vita.Prelude.Bytes.{codes, from_be32}
use tailscale_vita.Derp.Error.{DerpError, frame_too_large, frame_too_short}
use tailscale_vita.Derp.Frame.Types.{
  Writer, write_frame, header, max_payload, send_packet, note_preferred, pong,
}

module _ {W : Type 0} (w : Writer W) where
  unfoldable pub write_send_packet : W → List ℕ → List ℕ → Result DerpError W
  unfolding header
  write_send_packet out dst_pubkey wg_bytes = do
    let total = 32 + length wg_bytes
    fail_if (ltb max_payload total) (frame_too_large total max_payload)
    out' ← w.write_all out (header send_packet total)
    out'' ← w.write_all out' dst_pubkey
    w.write_all out'' wg_bytes

  unfoldable pub write_note_preferred : W → Bool → Result DerpError W
  write_note_preferred out is_home =
      write_frame w out note_preferred ((if is_home then 0x01 else 0x00) ∷ [])

  unfoldable pub write_pong : W → List ℕ → Result DerpError W
  write_pong out payload = write_frame w out pong payload

unfoldable pub parse_recv_packet : List ℕ → Result DerpError (List ℕ × List ℕ)
parse_recv_packet payload = do
  fail_if (ltb (length payload) 32) (frame_too_short (codes "RecvPacket") (length payload) 32)
  ok (take 32 payload, drop 32 payload)

unfoldable pub parse_ping : List ℕ → Result DerpError (List ℕ)
parse_ping payload = do
  fail_if (ltb (length payload) 8) (frame_too_short (codes "Ping") (length payload) 8)
  ok (take 8 payload)

-- A missing reason byte reads as 0, though the error speaks of 33 bytes.
unfoldable pub parse_peer_gone : List ℕ → Result DerpError (List ℕ × ℕ)
parse_peer_gone payload = do
  fail_if (ltb (length payload) 32) (frame_too_short (codes "PeerGone") (length payload) 33)
  ok (take 32 payload, get_or payload 32 0)

unfoldable pub parse_restarting : List ℕ → Result DerpError (ℕ × ℕ)
parse_restarting payload = do
  fail_if (ltb (length payload) 8) (frame_too_short (codes "Restarting") (length payload) 8)
  ok (word 0, word 4)
  where
    word : ℕ → ℕ
    word i =
        from_be32 (get_or payload i 0) (get_or payload (i + 1) 0) (get_or payload (i + 2) 0)
          (get_or payload (i + 3) 0)
