-- ===== src/Derp/Tests.antt =====
-- The theorems on frames at concrete frames.
use tailscale_vita.Prelude.{ℕ, ◌<◌, ◌≡◌, refl, List, [], ◌∷◌, ◌++◌, ok, All, arith}
use tailscale_vita.Derp.Frame.Types.{
  Frame, send_packet, ping, keep_alive, to_byte, write_frame, vec_writer, read_frame, header,
}
use tailscale_vita.Derp.Frame.Helpers.{write_send_packet, parse_recv_packet}
use tailscale_vita.Derp.Frame.Reader.{Outcome, chunk, would_block, timed_out, new, poll_frame}
use tailscale_vita.Derp.Frame.Codec.{encode, read_frame-write_frame, read_frame-write_send_packet}
use tailscale_vita.Derp.Frame.Conserve.{Conserves, stream, reader, poll_frame-conserve}
use tailscale_vita.Derp.Frame.Reassembly.{poll_all, encode_all, poll_all-reassembles}

abbrev key : List ℕ
key =
    1 ∷ 2 ∷ 3 ∷ 4 ∷ 5 ∷ 6 ∷ 7 ∷ 8 ∷ 9 ∷ 10 ∷ 11 ∷ 12 ∷ 13 ∷ 14 ∷ 15 ∷ 16 ∷ 17 ∷ 18 ∷ 19 ∷ 20 ∷ 21
    ∷ 22 ∷ 23 ∷ 24 ∷ 25 ∷ 26 ∷ 27 ∷ 28 ∷ 29 ∷ 30 ∷ 31 ∷ 32 ∷ []

-- A ping of three bytes and a keep-alive, cut in the middle of both headers, with a timeout between.
abbrev frames : List Frame
frames = (ping, 7 ∷ 8 ∷ 9 ∷ []) ∷ (keep_alive, []) ∷ []

abbrev cut : List Outcome
cut =
    chunk (18 ∷ 0 ∷ 0 ∷ [])
    ∷ timed_out
    ∷ chunk (0 ∷ 3 ∷ 7 ∷ 8 ∷ 9 ∷ 6 ∷ [])
    ∷ would_block
    ∷ chunk (0 ∷ 0 ∷ 0 ∷ 0 ∷ [])
    ∷ []

read_frame-write_frame_example :
    (wire : List ℕ) × (write_frame vec_writer (1 ∷ []) ping (7 ∷ 8 ∷ []) ≡ ok ((1 ∷ []) ++ wire))
    × (read_frame (wire ++ 9 ∷ []) ≡ ok ((ping, 7 ∷ 8 ∷ []), 9 ∷ []))
read_frame-write_frame_example =
    read_frame-write_frame (1 ∷ []) (9 ∷ []) ping (7 ∷ 8 ∷ []) (omega arith)

read_frame-write_send_packet_example :
    (wire : List ℕ) × (write_send_packet vec_writer [] key (7 ∷ 8 ∷ []) ≡ ok ([] ++ wire))
    × (read_frame (wire ++ []) ≡ ok ((send_packet, key ++ 7 ∷ 8 ∷ []), []))
    × (parse_recv_packet (key ++ 7 ∷ 8 ∷ []) ≡ ok (key, 7 ∷ 8 ∷ []))
read_frame-write_send_packet_example =
    read_frame-write_send_packet [] [] key (7 ∷ 8 ∷ []) refl (omega arith)

bytes : All (λ b. b < 256) ((18 ∷ 0 ∷ []) ++ stream cut)
bytes = ground arith

poll_frame-conserve_example :
    Conserves ((18 ∷ 0 ∷ []) ++ stream cut) (poll_frame (reader (18 ∷ 0 ∷ [])) cut)
poll_frame-conserve_example = poll_frame-conserve (18 ∷ 0 ∷ []) cut bytes

wire : stream cut ≡ encode_all frames
unfolding encode header to_byte
wire = refl

poll_all-reassembles_example : poll_all 7 new cut ≡ (frames, new)
poll_all-reassembles_example =
    poll_all-reassembles 7 cut frames (omega arith, (omega arith, tt))
      (tt, (tt, (tt, (tt, (tt, tt))))) wire (omega arith)
