-- ===== src/Magic/WireTrip.antt =====
-- The three messages that a node sends, opened by the node that they are for.
use tailscale_vita.Prelude.{
  ℕ, suc, ◌*◌, ◌/◌, ◌%◌, ◌≤◌, ◌≡◌, refl, ap, true, List, [], ◌∷◌, ◌++◌, map, length, length-append,
  some, ok, eqb, All, arith,
}
use tailscale_vita.Wg.Peer.{SocketAddr}
use tailscale_vita.Disco.Endpoint.{from_socket_addr, to_bytes, of_bytes, from_be}
use tailscale_vita.Disco.Message.{
  Message, Ping, Pong, CallMeMaybe, ping_message, pong_message, call_me_maybe_message,
  ping_of_bytes, pong_of_bytes, call_me_maybe_of_bytes, endpoints_of_bytes, size_for_endpoint_count,
}
use tailscale_vita.Disco.Packet.{
  Packet, SalsaBox, zeros, is_disco_message, as_msg, ty, packet_bytes,
}
use tailscale_vita.Disco.Layout.{
  EndpointFits, ping_of_bytes-as_bytes, pong_of_bytes-as_bytes, call_me_maybe_of_bytes-as_bytes,
  length-to_bytes, length-endpoints_to_bytes,
}
use tailscale_vita.Disco.RoundTrip.{
  Opens, decrypt-encrypt, init_from_bytes-zeros, as_msg-payload, length-zeros,
}
use tailscale_vita.Magic.Wire.{build, build_ping, build_pong, build_call_me_maybe, open_disco}

-- `r` is bytes that are told apart as Disco, and that the receiver opens as the sender's message.
abbrev pub Reads :
    {M : Type 0} ⦃m : Message M⦄ → SalsaBox → (secret receiver : List ℕ) → M → List ℕ → Type 0
Reads {M} ⦃m⦄ bx secret receiver x bytes =
    (is_disco_message bytes ≡ true)
    × ((p : Packet) × (open_disco bx receiver bytes ≡ ok (bx.public_key secret, p))
        × (ty p ≡ some m.type)
        × (as_msg p ≡ some x))

module _ {M : Type 0} ⦃m : Message M⦄ (bx : SalsaBox) (opens : Opens bx) where
  pub open_disco-build :
      (secret receiver nonce : List ℕ) (n : ℕ) (init_msg : M → M) (blank : M)
      → length nonce ≡ 24
      → m.ref_from_bytes (zeros n) ≡ some blank
      → m.ref_from_bytes (m.as_bytes (init_msg blank)) ≡ some (init_msg blank)
      → length (m.as_bytes (init_msg blank)) ≤ 65533
      → (bytes : List ℕ) × (build bx n init_msg secret (bx.public_key receiver) nonce ≡ ok bytes)
        × Reads bx secret receiver (init_msg blank) bytes
  unfolding build open_disco
  open_disco-build secret receiver nonce n init_msg blank len cast lay size =
      let (p, made, payload, valid) = init_from_bytes-zeros n init_msg blank cast in
      let (sealed, locked, is_disco, parsed, sender, unlocked) =
        decrypt-encrypt bx opens secret receiver nonce p len (rw payload (omega arith)) valid in
      let (is_type, is_message) =
        as_msg-payload (record sealed { payload = p.payload }) (init_msg blank) payload lay in
      (
        packet_bytes sealed,
        rw (made, locked) refl,
        (
          is_disco,
          (
            record sealed { payload = p.payload },
            rw (parsed, unlocked, sender) refl,
            is_type,
            is_message,
          ),
        ),
      )

length-map : {A B : Type 0} (f : A → B) (xs : List A) → length (map f xs) ≡ length xs
length-map f [] = refl
length-map f (x ∷ xs) = ap suc (length-map f xs)

module _ (bx : SalsaBox) (opens : Opens bx) (secret receiver nonce : List ℕ)
    (fresh : length nonce ≡ 24) where
  -- A ping that a node builds for another is bytes that are told apart as Disco, and the other
  -- opens them as that ping, from the first node's key, with no padding.
  pub open_disco-build_ping :
      (tx_id node_pub : List ℕ)
      → length tx_id ≡ 12
      → length node_pub ≡ 32
      → (bytes : List ℕ) × (build_ping bx secret node_pub (bx.public_key receiver) tx_id nonce
          ≡ ok bytes)
        × Reads {M = Ping} bx secret receiver
            (record { tx_id = tx_id; node_key = node_pub; padding = [] })
            bytes
  unfolding build_ping
  open_disco-build_ping tx_id node_pub t k =
      open_disco-build bx opens secret receiver nonce 44
        (λ m. record m { tx_id = tx_id; node_key = node_pub }) blank fresh cast
        (ping_of_bytes-as_bytes (record { tx_id = tx_id; node_key = node_pub; padding = [] })
          (t, k))
        (omega (arith, length-append tx_id (node_pub ++ []), length-append node_pub []))
    where
      blank : Ping
      blank = record { tx_id = zeros 12; node_key = zeros 32; padding = [] }

      cast : ping_of_bytes (zeros 44) ≡ some blank
      cast = unfold ping_of_bytes zeros in refl

  pub open_disco-build_pong :
      (src : SocketAddr) (tx_id : List ℕ)
      → length tx_id ≡ 12
      → EndpointFits (from_socket_addr src)
      → (bytes : List ℕ) × (build_pong bx secret (bx.public_key receiver) src tx_id nonce
          ≡ ok bytes)
        × Reads {M = Pong} bx secret receiver
            (record { tx_id = tx_id; src = from_socket_addr src })
            bytes
  unfolding build_pong
  open_disco-build_pong src tx_id t e =
      open_disco-build bx opens secret receiver nonce 30
        (λ m. record m { tx_id = tx_id; src = from_socket_addr src }) blank fresh cast
        (pong_of_bytes-as_bytes (record { tx_id = tx_id; src = from_socket_addr src }) (t, e))
        (omega (
          arith,
          length-append tx_id (to_bytes (from_socket_addr src)),
          length-to_bytes (from_socket_addr src),
        ))
    where
      blank : Pong
      blank = record { tx_id = zeros 12; src = record { addr = 0; port = 0 } }

      cast : pong_of_bytes (zeros 30) ≡ some blank
      cast = unfold pong_of_bytes zeros of_bytes from_be in refl

  -- A CallMeMaybe of at most 16 endpoints is opened as all of them, in order.
  pub open_disco-build_call_me_maybe :
      (endpoints : List SocketAddr)
      → All (λ a. EndpointFits (from_socket_addr a)) endpoints
      → length endpoints ≤ 16
      → (bytes : List ℕ) × (build_call_me_maybe bx secret (bx.public_key receiver) endpoints nonce
          ≡ ok bytes)
        × Reads {M = CallMeMaybe} bx secret receiver
            (record { endpoints = map from_socket_addr endpoints })
            bytes
  unfolding build_call_me_maybe size_for_endpoint_count
  open_disco-build_call_me_maybe endpoints h le =
      open_disco-build bx opens secret receiver nonce (18 * length endpoints)
        (λ m. record m { endpoints = map from_socket_addr endpoints }) blank fresh cast
        (call_me_maybe_of_bytes-as_bytes (record { endpoints = map from_socket_addr endpoints })
          (fits endpoints h))
        (omega (
          arith,
          length-endpoints_to_bytes (map from_socket_addr endpoints),
          length-map from_socket_addr endpoints,
        ))
    where
      blank : CallMeMaybe
      blank = record {
        endpoints = endpoints_of_bytes (length endpoints) (zeros (18 * length endpoints));
      }

      cast : call_me_maybe_of_bytes (zeros (18 * length endpoints)) ≡ some blank
      cast =
          let whole : eqb (18 * length endpoints % 18) 0 ≡ true = ground arith in
          let count : 18 * length endpoints / 18 ≡ length endpoints = omega arith in
          unfold call_me_maybe_of_bytes in
          rw (length-zeros (18 * length endpoints), whole, count) refl

      fits :
          (es : List SocketAddr)
          → All (λ a. EndpointFits (from_socket_addr a)) es
          → All EndpointFits (map from_socket_addr es)
      fits [] h = tt
      fits (e ∷ es) h = (h.0, fits es h.1)
