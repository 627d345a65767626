-- ===== src/Magic/Wire.antt =====
-- ts-magicsock/src/lib.rs: the Disco messages that are sent, and a received one opened.
use tailscale_vita.Prelude.{ℕ, List, map, length, Result, ok, ◌>>=◌}
use tailscale_vita.Wg.Peer.{Key, SocketAddr}
use tailscale_vita.Disco.Endpoint.{from_socket_addr}
use tailscale_vita.Disco.Message.{
  Message, Ping, Pong, CallMeMaybe, ping_message, pong_message, call_me_maybe_message,
  size_with_padding, pong_size, size_for_endpoint_count,
}
use tailscale_vita.Disco.Packet.{
  Error, Packet, SalsaBox, init_from_bytes, encrypt_in_place, decrypt_in_place, packet_bytes,
  from_encrypted_bytes, zeros, size_for_message,
}

-- What all three builders do with a buffer of the size for the message.
module _ {M : Type 0} ⦃m : Message M⦄ (bx : SalsaBox) where
  unfoldable pub build :
      (body_size : ℕ)
      → (init_msg : M → M) → (secret receiver nonce : List ℕ) → Result Error (List ℕ)
  build body_size init_msg secret receiver nonce = do
    pkt ← init_from_bytes (zeros (size_for_message body_size)) init_msg
    encrypted ← encrypt_in_place bx secret receiver nonce pkt
    ok (packet_bytes encrypted)

module _ (bx : SalsaBox) where
  unfoldable pub build_ping :
      (secret node_pub peer_disco_pub tx_id nonce : List ℕ) → Result Error (List ℕ)
  build_ping secret node_pub peer_disco_pub tx_id nonce =
      build bx (size_with_padding 0)
        (λ (ping : Ping). record ping { tx_id = tx_id; node_key = node_pub }) secret peer_disco_pub
        nonce

  unfoldable pub build_pong :
      (secret peer_disco_pub : List ℕ)
      → (src : SocketAddr) → (tx_id nonce : List ℕ) → Result Error (List ℕ)
  build_pong secret peer_disco_pub src tx_id nonce =
      build bx pong_size
        (λ (pong : Pong). record pong { tx_id = tx_id; src = from_socket_addr src }) secret
        peer_disco_pub nonce

  -- The closure writes every endpoint of a slice of that length.
  unfoldable pub build_call_me_maybe :
      (secret peer_disco_pub : List ℕ) → List SocketAddr → (nonce : List ℕ) → Result Error (List ℕ)
  build_call_me_maybe secret peer_disco_pub endpoints nonce =
      build bx (size_for_endpoint_count (length endpoints))
        (λ (cmm : CallMeMaybe). record cmm { endpoints = map from_socket_addr endpoints }) secret
        peer_disco_pub nonce

  -- The sender that the header claims, and the decrypted packet.
  unfoldable pub open_disco : (secret bytes : List ℕ) → Result Error (Key × Packet)
  open_disco secret bytes = do
    encrypted ← from_encrypted_bytes bytes
    plaintext ← decrypt_in_place bx secret encrypted
    ok (encrypted.header.sender_pub, plaintext)
