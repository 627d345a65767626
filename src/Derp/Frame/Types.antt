-- ===== src/Derp/Frame/Types.antt =====
-- frame.rs: the frame types, `write_frame` and `read_frame`.
use tailscale_vita.Prelude.{
  ℕ, ◌*◌, ◌^◌, ◌%◌, List, ◌∷◌, ◌++◌, length, take, drop, get_or, ltb, eqb, if◌then◌else◌, Result,
  ok, err, ◌>>=◌, ◌>>◌, fail_if,
}
use tailscale_vita.Prelude.Bytes.{be32, from_be32}
use tailscale_vita.Derp.Error.{DerpError, io, bad_frame_type, frame_too_large, unexpected_eof}

abbrev pub max_payload : ℕ
max_payload = 64 * 1024

abbrev pub frame_header_len : ℕ
frame_header_len = 5

pub data FrameType : Type 0 where
  server_key client_info server_info send_packet recv_packet keep_alive note_preferred : FrameType
  peer_gone peer_present forward_packet watch_conns close_peer : FrameType
  ping pong health restarting : FrameType

-- `ty as u8`
unfoldable pub to_byte : FrameType → ℕ
to_byte server_key = 0x01
to_byte client_info = 0x02
to_byte server_info = 0x03
to_byte send_packet = 0x04
to_byte recv_packet = 0x05
to_byte keep_alive = 0x06
to_byte note_preferred = 0x07
to_byte peer_gone = 0x08
to_byte peer_present = 0x09
to_byte forward_packet = 0x0a
to_byte watch_conns = 0x10
to_byte close_peer = 0x11
to_byte ping = 0x12
to_byte pong = 0x13
to_byte health = 0x14
to_byte restarting = 0x15

unfoldable pub from_byte : ℕ → Result DerpError FrameType
from_byte b =
    if eqb b 0x01
    then ok server_key
    else if eqb b 0x02
    then ok client_info
    else if eqb b 0x03
    then ok server_info
    else if eqb b 0x04
    then ok send_packet
    else if eqb b 0x05
    then ok recv_packet
    else if eqb b 0x06
    then ok keep_alive
    else if eqb b 0x07
    then ok note_preferred
    else if eqb b 0x08
    then ok peer_gone
    else if eqb b 0x09
    then ok peer_present
    else if eqb b 0x0a
    then ok forward_packet
    else if eqb b 0x10
    then ok watch_conns
    else if eqb b 0x11
    then ok close_peer
    else if eqb b 0x12
    then ok ping
    else if eqb b 0x13
    then ok pong
    else if eqb b 0x14
    then ok health
    else if eqb b 0x15
    then ok restarting
    else err (bad_frame_type b)

-- A decoded frame.
abbrev pub Frame : Type 0
Frame = FrameType × List ℕ

-- Rust's `W: Write`: a failing `write_all` ends the call by `?`.
pub record Writer (W : Type 0) : Type 0 where
  pub write_all : W → List ℕ → Result DerpError W

-- `impl Write for Vec<u8>` appends and does not fail.
abbrev pub vec_writer : Writer (List ℕ)
vec_writer = record { write_all = λ out bytes. ok (out ++ bytes) }

-- Rust's `&[u8]` as `R: Read`: `read_exact` takes a number of bytes, or fails at the end.
unfoldable pub read_exact : ℕ → List ℕ → Result DerpError (List ℕ × List ℕ)
read_exact n r = if ltb (length r) n then err (io unexpected_eof) else ok (take n r, drop n r)

-- `hdr[0] = ty as u8; hdr[1..5] = (len as u32).to_be_bytes()`
unfoldable pub header : FrameType → ℕ → List ℕ
unfolding to_byte
header ty len = to_byte ty ∷ be32 (len % 2 ^ 32)

module _ {W : Type 0} (w : Writer W) where
  unfoldable pub write_frame : W → FrameType → List ℕ → Result DerpError W
  unfolding header
  write_frame out ty payload = do
    fail_if (ltb max_payload (length payload)) (frame_too_large (length payload) max_payload)
    out' ← w.write_all out (header ty (length payload))
    w.write_all out' payload

-- The length field of a header, `u32::from_be_bytes([hdr[1], hdr[2], hdr[3], hdr[4]])`.
abbrev pub len_of : List ℕ → ℕ
len_of hdr = from_be32 (get_or hdr 1 0) (get_or hdr 2 0) (get_or hdr 3 0) (get_or hdr 4 0)

unfoldable pub read_frame : List ℕ → Result DerpError (Frame × List ℕ)
read_frame r = do
  (hdr, r') ← read_exact frame_header_len r
  ty ← from_byte (get_or hdr 0 0)
  fail_if (ltb max_payload (len_of hdr)) (frame_too_large (len_of hdr) max_payload)
  (payload, r'') ← read_exact (len_of hdr) r'
  ok ((ty, payload), r'')
