-- ===== src/Derp/Frame/Reader.antt =====
-- frame.rs: `FrameReader`, the resumable reader over a stream with a read timeout.
use tailscale_vita.Prelude.{
  ℕ, ◌+◌, List, [], ◌∷◌, ◌++◌, length, take, drop, get_or, ltb, Option, none, some, if◌then◌else◌,
  Result, ok, err,
}
use tailscale_vita.Derp.Error.{DerpError, IoError, io, frame_too_large, unexpected_eof}
use tailscale_vita.Derp.Frame.Types.{
  FrameType, Frame, from_byte, len_of, max_payload, frame_header_len,
}

pub record FrameReader : Type 0 where
  pub buf : List ℕ

unfoldable pub new : FrameReader
new = record { buf = [] }

-- What one `read` call of the stream gives. `chunk [] ` is `Ok(0)`, the end of the stream; a chunk
-- has at most 8192 bytes, the size of `tmp`.
pub data Outcome : Type 0 where
  chunk : List ℕ → Outcome
  would_block timed_out : Outcome
  failed : IoError → Outcome

-- The stream `r` is the outcomes of its next calls. When none is left, it has nothing for now.
abbrev pub read : List Outcome → Outcome × List Outcome
read [] = (would_block, [])
read (o ∷ os) = (o, os)

abbrev pub Polled : Type 0
Polled = Result DerpError (Option Frame)

-- The rest of `try_extract`, behind the frame type and the length of the header.
unfoldable pub extract_payload : FrameType → ℕ → FrameReader → Polled × FrameReader
extract_payload ty len r =
    if ltb max_payload len
    then (err (frame_too_large len max_payload), r)
    else if ltb (length r.buf) (frame_header_len + len)
    then (ok none, r)
    else (
      ok (some (ty, take len (drop frame_header_len r.buf))),
      record { buf = drop (frame_header_len + len) r.buf },
    )

unfoldable pub try_extract : FrameReader → Polled × FrameReader
try_extract r =
    if ltb (length r.buf) frame_header_len
    then (ok none, r)
    else elim (from_byte (get_or r.buf 0 0)) [
      | err e ↦ (err e, r)
      | ok ty ↦ extract_payload ty (len_of r.buf) r
    ]

-- The match on the result of `read`.
unfoldable pub take_outcome : Outcome → FrameReader → Polled × FrameReader
take_outcome (chunk []) r = (err (io unexpected_eof), r)
take_outcome (chunk (b ∷ bs)) r = try_extract (record { buf = r.buf ++ b ∷ bs })
take_outcome would_block r = (ok none, r)
take_outcome timed_out r = (ok none, r)
take_outcome (failed e) r = (err (io e), r)

-- `poll_frame` after `self.try_extract()?`: a frame that was buffered already is handed out
-- without a read.
unfoldable pub poll_from : Polled → FrameReader → List Outcome → Polled × FrameReader × List Outcome
poll_from (err e) r os = (err e, r, os)
poll_from (ok (some f)) r os = (ok (some f), r, os)
poll_from (ok none) r os = let (o, os') = read os in let (p, r') = take_outcome o r in (p, r', os')

unfoldable pub poll_frame : FrameReader → List Outcome → Polled × FrameReader × List Outcome
unfolding poll_from
poll_frame r os = let (p, r') = try_extract r in poll_from p r' os
