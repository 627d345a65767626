-- ===== src/Control/NetMap/Keys.antt =====
-- types.rs, netmap.rs: keys survive the wire.
use tailscale_vita.Prelude.{
  ℕ, ◌*◌, ◌/◌, ◌%◌, ◌≡◌, refl, Bool, true, List, [], ◌∷◌, length, Option, none, some, All, eqb,
  arith,
}
use mathlib.Core.Option
use tailscale_vita.Prelude.Bytes.{IsByte}
use tailscale_vita.Prelude.Bits.{holds_below, holds_below-at}
use tailscale_vita.Control.Parse.{
  NodeKeyBytes, to_digit, digits, from_str_radix, decode_hex, decode_hex_32, parse_nodekey,
  parse_nodekey_with_prefix, hex_digit, encode_hex, to_nodekey_string,
}

byte_text : ℕ → List ℕ
byte_text b = hex_digit (b / 16) ∷ hex_digit (b % 16) ∷ []

read_byte : ℕ → Bool
read_byte b = elim (from_str_radix 16 256 (byte_text b)) [ none ↦ eqb 0 1 | some c ↦ eqb c b ]

read_byte_table : holds_below read_byte 256 ≡ true
unfolding holds_below read_byte byte_text from_str_radix digits to_digit Option.bind
read_byte_table = refl

from_str_radix-byte_text : (b : ℕ) → IsByte b → from_str_radix 16 256 (byte_text b) ≡ some b
unfolding read_byte
from_str_radix-byte_text b h =
    go (from_str_radix 16 256 (byte_text b)) (holds_below-at read_byte 256 b h read_byte_table)
  where
    go : (o : Option ℕ) → elim o [ none ↦ eqb 0 1 | some c ↦ eqb c b ] ≡ true → o ≡ some b
    go none q = absurd (cc)
    go (some c) q = ground arith

decode_hex-encode_hex : (bs : List ℕ) → All IsByte bs → decode_hex (encode_hex bs) ≡ some bs
unfolding decode_hex encode_hex byte_text Option.bind
decode_hex-encode_hex [] h = refl
decode_hex-encode_hex (b ∷ bs) h =
    rw (from_str_radix-byte_text b h.0, decode_hex-encode_hex bs h.1, Option.bind) refl

length-encode_hex : (bs : List ℕ) → length (encode_hex bs) ≡ 2 * length bs
unfolding encode_hex
length-encode_hex [] = refl
length-encode_hex (b ∷ bs) = omega (arith, length-encode_hex bs)

-- A node key of 32 bytes survives being printed and read.
pub parse_nodekey-to_nodekey_string :
    (key : NodeKeyBytes)
    → All IsByte key
    → length key ≡ 32
    → parse_nodekey (to_nodekey_string key) ≡ some key
unfolding parse_nodekey to_nodekey_string parse_nodekey_with_prefix decode_hex_32
parse_nodekey-to_nodekey_string key h n =
    rw (length-encode_hex key, n) (decode_hex-encode_hex key h)
