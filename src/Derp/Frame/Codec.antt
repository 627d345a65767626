-- ===== src/Derp/Frame/Codec.antt =====
-- Writing and reading one frame.
use tailscale_vita.Prelude.{
  ℕ, ◌+◌, ◌^◌, ◌%◌, ◌/◌, ◌≤◌, ◌≡◌, refl, ap, List, [], ◌∷◌, ◌++◌, append_assoc, length, take, drop,
  take-append, drop-append, length-append, ok, arith,
}
use tailscale_vita.Prelude.Bytes.{from_be32, IsByte}
use tailscale_vita.Derp.Frame.Types.{
  FrameType, server_key, Frame, to_byte, from_byte, header, vec_writer, write_frame, read_frame,
  read_exact, max_payload, send_packet,
}
use tailscale_vita.Derp.Frame.Helpers.{write_send_packet, parse_recv_packet}

-- The bytes of a frame on the wire.
unfoldable pub encode : Frame → List ℕ
encode (ty, payload) = header ty (length payload) ++ payload

pub from_byte-to_byte : (ty : FrameType) → from_byte (to_byte ty) ≡ ok ty
unfolding from_byte to_byte
from_byte-to_byte server_key = refl
from_byte-to_byte _ = refl

from_byte-eq_ok : (b : ℕ) {ty : FrameType} → from_byte b ≡ ok ty → b ≡ to_byte ty
unfolding from_byte to_byte
from_byte-eq_ok b h = ground arith

write_frame-vec :
    (out : List ℕ) (ty : FrameType) (payload : List ℕ)
    → length payload ≤ max_payload
    → write_frame vec_writer out ty payload ≡ ok (out ++ encode (ty, payload))
unfolding write_frame encode
write_frame-vec out ty payload h =
    ground (arith, append_assoc out (header ty (length payload)) payload)

pub len_of_header :
    (n : ℕ)
    → n ≤ max_payload
    → from_be32
        (n % 2 ^ 32 / 2 ^ 24 % 256)
        (n % 2 ^ 32 / 2 ^ 16 % 256)
        (n % 2 ^ 32 / 2 ^ 8 % 256)
        (n % 2 ^ 32 % 256)
      ≡ n
len_of_header n h = omega arith

read_exact-append : (xs ys : List ℕ) → read_exact (length xs) (xs ++ ys) ≡ ok (xs, ys)
unfolding read_exact
read_exact-append xs ys =
    rw (take-append xs ys, drop-append xs ys) (ground (arith, length-append xs ys))

read_frame-encode :
    (ty : FrameType) (payload rest : List ℕ)
    → length payload ≤ max_payload
    → read_frame (encode (ty, payload) ++ rest) ≡ ok ((ty, payload), rest)
unfolding read_frame encode header
read_frame-encode ty payload rest h = ground (
  arith,
  from_byte-to_byte ty,
  len_of_header (length payload) h,
  read_exact-append (header ty (length payload)) (payload ++ rest),
  read_exact-append payload rest,
)

-- A payload of at most 64 KiB is written as some wire bytes behind what the buffer held, and a
-- reader that finds these bytes, whatever follows them, reads the same type and payload and
-- leaves what follows.
pub read_frame-write_frame :
    (out rest : List ℕ) (ty : FrameType) (payload : List ℕ)
    → length payload ≤ max_payload
    → (wire : List ℕ) × (write_frame vec_writer out ty payload ≡ ok (out ++ wire))
      × (read_frame (wire ++ rest) ≡ ok ((ty, payload), rest))
read_frame-write_frame out rest ty payload h =
    (encode (ty, payload), write_frame-vec out ty payload h, read_frame-encode ty payload rest h)

write_send_packet-vec :
    (out dst wg : List ℕ)
    → length dst ≡ 32
    → 32 + length wg ≤ max_payload
    → write_send_packet vec_writer out dst wg ≡ ok (out ++ encode (send_packet, dst ++ wg))
unfolding write_send_packet encode
write_send_packet-vec out dst wg hd h = ground (
  arith,
  length-append dst wg,
  append_assoc out (header send_packet (32 + length wg)) dst,
  append_assoc out (header send_packet (32 + length wg) ++ dst) wg,
  append_assoc (header send_packet (32 + length wg)) dst wg,
)

parse_recv_packet-append :
    (dst wg : List ℕ) → length dst ≡ 32 → parse_recv_packet (dst ++ wg) ≡ ok (dst, wg)
unfolding parse_recv_packet
parse_recv_packet-append dst wg hd = ground (
  arith,
  length-append dst wg,
  ap (λ n. take n (dst ++ wg)) hd,
  take-append dst wg,
  drop-append dst wg,
  ap (λ n. drop n (dst ++ wg)) hd,
)

-- A SendPacket frame of a 32-byte key and WireGuard bytes that fit reads back as that frame, and
-- its payload splits into the key and the bytes.
pub read_frame-write_send_packet :
    (out rest dst wg : List ℕ)
    → length dst ≡ 32
    → 32 + length wg ≤ max_payload
    → (wire : List ℕ) × (write_send_packet vec_writer out dst wg ≡ ok (out ++ wire))
      × (read_frame (wire ++ rest) ≡ ok ((send_packet, dst ++ wg), rest))
      × (parse_recv_packet (dst ++ wg) ≡ ok (dst, wg))
read_frame-write_send_packet out rest dst wg hd h = (
  encode (send_packet, dst ++ wg),
  write_send_packet-vec out dst wg hd h,
  read_frame-encode send_packet (dst ++ wg) rest (omega (arith, length-append dst wg)),
  parse_recv_packet-append dst wg hd,
)

split_be32 :
    (b c d e : ℕ) (n : ℕ)
    → IsByte b
    → IsByte c
    → IsByte d
    → IsByte e
    → from_be32 b c d e ≡ n
    → (n / 2 ^ 24 % 256 ≡ b) × (n / 2 ^ 16 % 256 ≡ c) × (n / 2 ^ 8 % 256 ≡ d) × (n % 256 ≡ e)
split_be32 b c d e n hb hc hd he h = omega arith

-- Five bytes that decode as a type and a length below the cap are the header that is written.
pub header-of_bytes :
    (a b c d e : ℕ) (ty : FrameType)
    → IsByte b
    → IsByte c
    → IsByte d
    → IsByte e
    → from_byte a ≡ ok ty
    → from_be32 b c d e ≤ max_payload
    → header ty (from_be32 b c d e) ≡ a ∷ b ∷ c ∷ d ∷ e ∷ []
unfolding header
header-of_bytes a b c d e ty hb hc hd he h le =
    let m : from_be32 b c d e % 2 ^ 32 ≡ from_be32 b c d e = omega arith in
    rw m
      (ground (arith, split_be32 b c d e (from_be32 b c d e) hb hc hd he refl, from_byte-eq_ok a h))
