-- ===== src/Disco/Packet.antt =====
-- header.rs, packet.rs and error.rs: the envelope of a message, and the NaCl box around its payload.
-- The layouts are unaligned and every byte is a valid field, so a cast fails on a length alone.
use tailscale_vita.Prelude.{
  ℕ, zero, suc, ◌+◌, Bool, true, false, not, List, [], ◌∷◌, ◌++◌, length, take, drop, Option, none,
  some, Result, ok, err, ◌>>=◌, ◌>>◌, fail_if, ok_or, ltb, eqb, ◌==◌, list_eq, nat_eq,
  if◌then◌else◌,
}
use tailscale_vita.Disco.Message.{MessageType, Message, to_u8, try_from}

-- `Alignment` and `Validity` never happen for these layouts.
pub data Error : Type 0 where
  crypto_failed wrong_magic unknown_version too_short alignment validity : Error

abbrev pub DiscoPublicKey : Type 0
DiscoPublicKey = List ℕ

abbrev pub DiscoPrivateKey : Type 0
DiscoPrivateKey = List ℕ

abbrev pub magic : List ℕ
magic = 0x54 ∷ 0x53 ∷ 0xf0 ∷ 0x9f ∷ 0x92 ∷ 0xac ∷ []

abbrev pub nonce_len : ℕ
nonce_len = 24

pub record Header : Type 0 where
  pub magic_field : List ℕ
  pub sender_pub : DiscoPublicKey
  pub nonce : List ℕ

abbrev pub new_header : DiscoPublicKey → List ℕ → Header
new_header sender_pub nonce = record { magic_field = magic; sender_pub = sender_pub; nonce = nonce }

abbrev pub header_size : ℕ
header_size = 6 + 32 + nonce_len

abbrev pub validate_header : Header → Result Error Unit
validate_header h = fail_if (not (h.magic_field == magic)) wrong_magic

-- The fields of a header in the first 62 bytes.
abbrev pub header_of : List ℕ → Header
header_of buf = record {
  magic_field = take 6 buf;
  sender_pub = take 32 (drop 6 buf);
  nonce = take 24 (drop 38 buf);
}

unfoldable pub from_bytes : List ℕ → Result Error (Header × List ℕ)
from_bytes buf = do
  fail_if (ltb (length buf) header_size) too_short
  validate_header (header_of buf)
  ok (header_of buf, drop header_size buf)

-- `Packet<Plaintext>` and `Packet<Encrypted>` have one layout.
pub record Packet : Type 0 where
  pub header : Header
  pub tag : List ℕ
  pub payload : List ℕ

abbrev pub packet_of : List ℕ → Packet
packet_of b = record {
  header = header_of b;
  tag = take 16 (drop header_size b);
  payload = drop 16 (drop header_size b);
}

-- `try_ref_from_bytes`
unfoldable pub cast_packet : List ℕ → Result Error Packet
cast_packet b = fail_if (ltb (length b) (header_size + 16)) too_short >> ok (packet_of b)

unfoldable pub packet_bytes : Packet → List ℕ
packet_bytes p =
    p.header.magic_field ++ (p.header.sender_pub ++ (p.header.nonce ++ (p.tag ++ p.payload)))

-- `Plaintext::ref_from_bytes`: the type, the version and the message.
abbrev pub plaintext : List ℕ → Option (ℕ × ℕ × List ℕ)
plaintext [] = none
plaintext (ty ∷ []) = none
plaintext (ty ∷ version ∷ message) = some (ty, version, message)

unfoldable pub validate : Packet → Result Error Unit
validate p = do
  (ty, version, message) ← ok_or (plaintext p.payload) too_short
  fail_if (not (eqb version 0)) unknown_version

abbrev pub size_for_message : ℕ → ℕ
size_for_message n = header_size + (16 + (2 + n))

-- `vec![0; n]`
unfoldable pub zeros : ℕ → List ℕ
zeros zero = []
zeros (suc n) = 0 ∷ zeros n

module _ {M : Type 0} ⦃m : Message M⦄ where
  unfoldable pub init_from_bytes : List ℕ → (init_msg : M → M) → Result Error Packet
  init_from_bytes b init_msg = do
    s ← cast_packet b
    (ty, version, message) ← ok_or (plaintext s.payload) too_short
    msg ← ok_or (m.ref_from_bytes message) too_short
    let s' : Packet = record s { payload = to_u8 m.type ∷ 0 ∷ m.as_bytes (init_msg msg) }
    validate s'
    ok s'

  unfoldable pub as_msg : Packet → Option M
  as_msg p = elim (plaintext p.payload) [
    | none ↦ none
    | some (ty, version, message) ↦ if eqb ty (to_u8 m.type) then m.ref_from_bytes message else none
  ]

unfoldable pub ty : Packet → Option MessageType
ty p = elim (plaintext p.payload) [ none ↦ none | some (byte, version, message) ↦ try_from byte ]

unfoldable pub from_encrypted_bytes : List ℕ → Result Error Packet
from_encrypted_bytes b = do p ← cast_packet b; validate_header p.header; ok p

unfoldable pub is_disco_message : List ℕ → Bool
is_disco_message buf = elim (from_bytes buf) [ ok r ↦ true | err e ↦ false ]

-- The crate crypto_box: the key of a `SalsaBox` comes from one party's secret and the other's
-- public key. A box is a 16-byte tag and a ciphertext.
pub record SalsaBox : Type 0 where
  pub public_key : DiscoPrivateKey → DiscoPublicKey
  pub seal : DiscoPublicKey → DiscoPrivateKey → (nonce : List ℕ) → List ℕ → Option (List ℕ × List ℕ)
  pub unseal : DiscoPublicKey → DiscoPrivateKey → (nonce tag : List ℕ) → List ℕ → Option (List ℕ)

module _ (bx : SalsaBox) where
  unfoldable pub encrypt_in_place :
      DiscoPrivateKey
      → (receiver : DiscoPublicKey) → (nonce : List ℕ) → Packet
      → Result Error Packet
  encrypt_in_place secret receiver nonce p = do
    (tag, payload) ← ok_or (bx.seal receiver secret nonce p.payload) crypto_failed
    ok (record { header = new_header (bx.public_key secret) nonce; tag = tag; payload = payload })

  unfoldable pub decrypt_in_place : DiscoPrivateKey → Packet → Result Error Packet
  decrypt_in_place secret p = do
    payload ←
        ok_or (bx.unseal p.header.sender_pub secret p.header.nonce p.tag p.payload) crypto_failed
    validate (record p { payload = payload })
    ok (record p { payload = payload })
