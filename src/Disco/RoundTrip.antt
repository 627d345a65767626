-- ===== src/Disco/RoundTrip.antt =====
-- A message through the box: what a node sends, the node with the other secret reads.
use tailscale_vita.Prelude.{
  ℕ, zero, suc, ◌+◌, ◌≤◌, ◌≡◌, refl, sym, ap, ◌∙◌, true, false, ◌==◌, list_eq, nat_eq, List, [],
  ◌∷◌, ◌++◌, length, length-append, take, drop, some, ok, ltb, eqb, arith,
}
use tailscale_vita.Disco.Message.{Message, to_u8}
use tailscale_vita.Disco.Packet.{
  DiscoPrivateKey, magic, Header, new_header, header_of, from_bytes, Packet, packet_of, cast_packet,
  packet_bytes, size_for_message, zeros, validate, init_from_bytes, as_msg, ty,
  from_encrypted_bytes, is_disco_message, SalsaBox, encrypt_in_place, decrypt_in_place,
}
use tailscale_vita.Disco.Layout.{take_front, drop_front, try_from-to_u8}

-- The arrays of a header and the tag have their sizes.
abbrev pub PacketFits : Packet → Type 0
PacketFits p =
    (length p.header.magic_field ≡ 6)
    × (length p.header.sender_pub ≡ 32)
    × (length p.header.nonce ≡ 24)
    × (length p.tag ≡ 16)

drop_nil : {A : Type 0} (n : ℕ) → drop {A = A} n [] ≡ []
drop_nil zero = refl
drop_nil (suc n) = refl

drop-drop : {A : Type 0} (n k : ℕ) (xs : List A) → drop (n + k) xs ≡ drop k (drop n xs)
drop-drop zero k xs = let e : zero + k ≡ k = omega arith in rw e refl
drop-drop (suc n) k [] = drop_nil (suc n + k) ∙ sym (drop_nil k)
drop-drop (suc n) k (x ∷ xs) =
    let shift : suc n + k ≡ suc (n + k) = omega arith in rw shift (drop-drop n k xs)

cast_packet-packet_bytes : (p : Packet) → PacketFits p → cast_packet (packet_bytes p) ≡ ok p
unfolding cast_packet packet_bytes
cast_packet-packet_bytes p (a, b, c, d) =
    rw
      (
        long,
        take_front 6 h.magic_field from_key a,
        drop_front 6 h.magic_field from_key a,
        take_front 32 h.sender_pub from_nonce b,
        at_38,
        take_front 24 h.nonce body c,
        at_62,
        take_front 16 p.tag p.payload d,
        drop_front 16 p.tag p.payload d,
      )
      refl
  where
    h : Header
    h = p.header

    body : List ℕ
    body = p.tag ++ p.payload

    from_nonce : List ℕ
    from_nonce = h.nonce ++ body

    from_key : List ℕ
    from_key = h.sender_pub ++ from_nonce

    all : List ℕ
    all = h.magic_field ++ from_key

    long : ltb (length all) 78 ≡ false
    long = ground (
      arith,
      length-append h.magic_field from_key,
      length-append h.sender_pub from_nonce,
      length-append h.nonce body,
      length-append p.tag p.payload,
    )

    at_38 : drop 38 all ≡ from_nonce
    at_38 =
        drop-drop 6 32 all
        ∙ ap (drop 32) (drop_front 6 h.magic_field from_key a)
        ∙ drop_front 32 h.sender_pub from_nonce b

    at_62 : drop 62 all ≡ body
    at_62 = drop-drop 38 24 all ∙ ap (drop 24) at_38 ∙ drop_front 24 h.nonce body c

-- Documented of crypto_box: public keys have 32 bytes, a datagram's worth of bytes can be boxed,
-- and the receiver of a box opens it with the sender's public key. Nothing is asked of secrecy.
abbrev pub Opens : SalsaBox → Type 0
Opens bx =
    ((secret : DiscoPrivateKey) → length (bx.public_key secret) ≡ 32)
    × ((secret receiver : DiscoPrivateKey) (nonce message : List ℕ)
        → length nonce ≡ 24
        → length message ≤ 65535
        → (sealed : List ℕ × List ℕ) × (bx.seal (bx.public_key receiver) secret nonce message
            ≡ some sealed)
          × (length sealed.0 ≡ 16)
          × (bx.unseal (bx.public_key secret) receiver nonce sealed.0 sealed.1 ≡ some message))

from_encrypted_bytes-packet_bytes :
    (p : Packet)
    → PacketFits p
    → p.header.magic_field ≡ magic
    → from_encrypted_bytes (packet_bytes p) ≡ ok p
unfolding from_encrypted_bytes
from_encrypted_bytes-packet_bytes p fits m = rw (cast_packet-packet_bytes p fits, m) refl

from_bytes-packet_bytes :
    (p : Packet)
    → PacketFits p
    → p.header.magic_field ≡ magic
    → from_bytes (packet_bytes p) ≡ ok (header_of (packet_bytes p), drop 62 (packet_bytes p))
unfolding from_bytes packet_bytes
from_bytes-packet_bytes p (a, b, c, d) m =
    let h : Header = p.header in
    let rest : List ℕ = h.sender_pub ++ (h.nonce ++ (p.tag ++ p.payload)) in
    let long : ltb (length (h.magic_field ++ rest)) 62 ≡ false = ground (
      arith,
      length-append h.magic_field rest,
      length-append h.sender_pub (h.nonce ++ (p.tag ++ p.payload)),
      length-append h.nonce (p.tag ++ p.payload),
    ) in
    let front : (take 6 (h.magic_field ++ rest) == magic) ≡ true =
      ap (λ t. t == magic) (take_front 6 h.magic_field rest a ∙ m) in
    rw (long, front) refl

is_disco_message-packet_bytes :
    (p : Packet)
    → PacketFits p
    → p.header.magic_field ≡ magic
    → is_disco_message (packet_bytes p) ≡ true
unfolding is_disco_message
is_disco_message-packet_bytes p fits m =
    rw (from_bytes-packet_bytes p fits m, is_disco_message) refl

module _ (bx : SalsaBox) (opens : Opens bx) (secret receiver : DiscoPrivateKey) where
  -- A boxed packet travels as bytes that are told apart by their magic, and decrypts to the same
  -- payload under the sender's key.
  pub decrypt-encrypt :
      (nonce : List ℕ) (p : Packet)
      → length nonce ≡ 24
      → length p.payload ≤ 65535
      → validate p ≡ ok tt
      → (sealed : Packet) × (encrypt_in_place bx secret (bx.public_key receiver) nonce p
          ≡ ok sealed)
        × (is_disco_message (packet_bytes sealed) ≡ true)
        × (from_encrypted_bytes (packet_bytes sealed) ≡ ok sealed)
        × (sealed.header.sender_pub ≡ bx.public_key secret)
        × (decrypt_in_place bx receiver sealed ≡ ok (record sealed { payload = p.payload }))
  unfolding encrypt_in_place decrypt_in_place validate
  decrypt-encrypt nonce p n l v =
      let ((tag, payload), eq, size, back) = opens.1 secret receiver nonce p.payload n l in
      let sealed : Packet = record {
        header = new_header (bx.public_key secret) nonce;
        tag = tag;
        payload = payload;
      } in
      let fits : PacketFits sealed = (refl, opens.0 secret, n, size) in
      (
        sealed,
        rw eq refl,
        is_disco_message-packet_bytes sealed fits refl,
        from_encrypted_bytes-packet_bytes sealed fits refl,
        refl,
        rw (back, v) refl,
      )

pub length-zeros : (n : ℕ) → length (zeros n) ≡ n
unfolding zeros
length-zeros zero = refl
length-zeros (suc n) = omega (arith, length-zeros n)

drop-zeros : (n k : ℕ) → drop n (zeros (n + k)) ≡ zeros k
unfolding zeros
drop-zeros zero k = let e : zero + k ≡ k = omega arith in rw e refl
drop-zeros (suc n) k = let e : suc n + k ≡ suc (n + k) = omega arith in rw e (drop-zeros n k)

cast_packet-zeros :
    (n : ℕ) → cast_packet (zeros (size_for_message n)) ≡ ok (packet_of (zeros (size_for_message n)))
unfolding cast_packet
cast_packet-zeros n =
    let long : ltb (length (zeros (size_for_message n))) 78 ≡ false =
      ground (arith, length-zeros (size_for_message n)) in
    rw long refl

payload-zeros : (n : ℕ) → (packet_of (zeros (size_for_message n))).payload ≡ 0 ∷ 0 ∷ zeros n
unfolding zeros
payload-zeros n = ap (drop 16) (drop-zeros 62 (16 + (2 + n))) ∙ drop-zeros 16 (2 + n) ∙ two
  where
    two : zeros (2 + n) ≡ 0 ∷ 0 ∷ zeros n
    two = let e : 2 + n ≡ suc (suc n) = omega arith in rw e refl

module _ {M : Type 0} ⦃m : Message M⦄ where
  -- A fresh buffer becomes a packet of the message that the closure makes of zeros.
  pub init_from_bytes-zeros :
      (n : ℕ) (init_msg : M → M) (blank : M)
      → m.ref_from_bytes (zeros n) ≡ some blank
      → (p : Packet) × (init_from_bytes (zeros (size_for_message n)) init_msg ≡ ok p)
        × (p.payload ≡ to_u8 m.type ∷ 0 ∷ m.as_bytes (init_msg blank))
        × (validate p ≡ ok tt)
  unfolding init_from_bytes validate
  init_from_bytes-zeros n init_msg blank e = (
    record (packet_of (zeros (size_for_message n))) {
      payload = to_u8 m.type ∷ 0 ∷ m.as_bytes (init_msg blank);
    },
    rw (cast_packet-zeros n, init_from_bytes) (rw (payload-zeros n) (rw e refl)),
    refl,
    refl,
  )

  pub as_msg-payload :
      (p : Packet) (x : M)
      → p.payload ≡ to_u8 m.type ∷ 0 ∷ m.as_bytes x
      → m.ref_from_bytes (m.as_bytes x) ≡ some x
      → (ty p ≡ some m.type) × (as_msg p ≡ some x)
  unfolding ty as_msg
  as_msg-payload p x e r =
      let same : eqb (to_u8 m.type) (to_u8 m.type) ≡ true = ground arith in
      (rw (e, ty) (try_from-to_u8 m.type), rw (e, as_msg) (rw (same, r) refl))
