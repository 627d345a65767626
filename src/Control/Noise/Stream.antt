-- ===== src/Control/Noise/Stream.antt =====
-- ts-control/src/record.rs, with `write_record` and `decrypt_record` of noise.rs: `NoiseStream`,
-- which cuts what is written into encrypted records and reads them back. `snow::TransportState` is
-- the parameter `Transport`, and the inner stream is what its reads return, what its writes do,
-- and the bytes that it has taken.
use tailscale_vita.Prelude.{
  ℕ, zero, suc, ◌+◌, ◌-◌, min, Bool, true, false, List, [], ◌∷◌, ◌++◌, length, take, drop, get_or,
  is_empty, Option, none, some, Result, ok, err, ltb, eqb, if◌then◌else◌,
}
use tailscale_vita.Prelude.Bytes.{be16, from_be16}

-- A message on a state whose call fails leaves it as it is.
pub record Transport (S : Type 0) : Type 0 where
  pub write_message : S → List ℕ → Option (List ℕ × S)
  pub read_message : S → List ℕ → Option (List ℕ × S)

-- What `read` into the buffer of 4096 bytes returns: `gives []` is `Ok(0)`, the end.
pub data ReadOutcome (E : Type 0) : Type 0 where
  gives : List ℕ → ReadOutcome E
  fails : E → ReadOutcome E

-- The errors of `io::Error` that record.rs makes, and the inner stream's own.
pub data StreamError (E : Type 0) : Type 0 where
  eof_mid_record noise_decrypt noise_encrypt : StreamError E
  unexpected_msg_type : ℕ → StreamError E
  inner : E → StreamError E

pub record NoiseStream (S E : Type 0) : Type 0 where
  pub noise : S
  pub rx_plain : List ℕ
  pub rx_buf : List ℕ
  pub eof : Bool
  pub reads : List (ReadOutcome E)
  pub write_errors : List (Option (ℕ × E))
  pub sent : List ℕ

abbrev pub msg_type_record : ℕ
msg_type_record = 4

abbrev pub header_len : ℕ
header_len = 3

abbrev pub noise_max_record_payload : ℕ
noise_max_record_payload = 65535 - 16

-- Rust's `chunks(n)`; every pass takes something off, so the length is fuel enough.
unfoldable pub chunks_on : (fuel n : ℕ) → List ℕ → List (List ℕ)
chunks_on zero n xs = []
chunks_on (suc fuel) n [] = []
chunks_on (suc fuel) n (x ∷ xs) = take n (x ∷ xs) ∷ chunks_on fuel n (drop n (x ∷ xs))

unfoldable pub chunks : (n : ℕ) → List ℕ → List (List ℕ)
chunks n xs = chunks_on (length xs) n xs

module _ {S E : Type 0} where
  abbrev pub new : S → List ℕ → List (ReadOutcome E) → List (Option (ℕ × E)) → NoiseStream S E
  new noise leftover reads write_errors = record {
    noise = noise;
    rx_plain = [];
    rx_buf = leftover;
    eof = false;
    reads = reads;
    write_errors = write_errors;
    sent = [];
  }

  -- `fill_until` on the reads that are to come. When there are none, the peer is gone.
  unfoldable pub fill_from :
      (required : ℕ)
      → List (ReadOutcome E)
      → NoiseStream S E
      → Result (StreamError E) (Unit {0}) × NoiseStream S E
  fill_from required [] s =
      if ltb (length s.rx_buf) required
      then (err eof_mid_record, record s { eof = true; reads = [] })
      else (ok tt, s)
  fill_from required (gives [] ∷ later) s =
      if ltb (length s.rx_buf) required
      then (if s.eof
          then (err eof_mid_record, s)
          else (err eof_mid_record, record s { eof = true; reads = later }))
      else (ok tt, s)
  fill_from required (gives (b ∷ bs) ∷ later) s =
      let filled =
        fill_from required later (record s { rx_buf = s.rx_buf ++ b ∷ bs; reads = later }) in
      if ltb (length s.rx_buf) required
      then (if s.eof then (err eof_mid_record, s) else filled)
      else (ok tt, s)
  fill_from required (fails e ∷ later) s =
      if ltb (length s.rx_buf) required
      then (if s.eof then (err eof_mid_record, s) else (err (inner e), record s { reads = later }))
      else (ok tt, s)

  abbrev pub fill_until :
      (required : ℕ) → NoiseStream S E → Result (StreamError E) (Unit {0}) × NoiseStream S E
  fill_until required s = fill_from required s.reads s

  -- `call?` and what follows it.
  abbrev pub and_then :
      {A : Type 0}
      → Result (StreamError E) (Unit {0}) × NoiseStream S E
      → (NoiseStream S E → Result (StreamError E) A × NoiseStream S E)
      → Result (StreamError E) A × NoiseStream S E
  and_then (ok u, s) k = k s
  and_then (err e, s) k = (err e, s)

  -- A write that fails may have passed on some bytes first: that many, and the error.
  abbrev pub write_all :
      List ℕ → NoiseStream S E → Result (StreamError E) (Unit {0}) × NoiseStream S E
  write_all bytes s = elim s.write_errors [
    | [] ↦ (ok tt, record s { sent = s.sent ++ bytes })
    | none ∷ later ↦ (ok tt, record s { sent = s.sent ++ bytes; write_errors = later })
    | some (n, e) ∷ later ↦
        (err (inner e), record s { sent = s.sent ++ take n bytes; write_errors = later })
  ]

  -- What the caller's buffer of `n` bytes is given.
  unfoldable pub pop_plain :
      (n : ℕ) → NoiseStream S E → Result (StreamError E) (List ℕ) × NoiseStream S E
  pop_plain n s =
      let count = min n (length s.rx_plain) in
      (ok (take count s.rx_plain), record s { rx_plain = drop count s.rx_plain })

module _ {S E : Type 0} (t : Transport S) where
  -- `decrypt_record` on the record whose payload is `len` bytes, and what follows it.
  unfoldable pub take_record :
      (len : ℕ) → NoiseStream S E → Result (StreamError E) (Unit {0}) × NoiseStream S E
  take_record len s = elim (t.read_message s.noise (take len (drop header_len s.rx_buf))) [
    | none ↦ (err noise_decrypt, s)
    | some (out, noise) ↦ (
      ok tt,
      record s {
        noise = noise;
        rx_buf = drop (header_len + len) s.rx_buf;
        rx_plain = s.rx_plain ++ out;
      },
    )
  ]

  -- The header is there: its three bytes are indexed.
  unfoldable pub after_header :
      NoiseStream S E → Result (StreamError E) (Unit {0}) × NoiseStream S E
  after_header s =
      let len = from_be16 (get_or s.rx_buf 1 0) (get_or s.rx_buf 2 0) in
      if eqb (get_or s.rx_buf 0 0) msg_type_record
      then and_then (fill_until (header_len + len) s) (take_record len)
      else (err (unexpected_msg_type (get_or s.rx_buf 0 0)), s)

  unfoldable pub drain_one_record :
      NoiseStream S E → Result (StreamError E) (Unit {0}) × NoiseStream S E
  drain_one_record s =
      if ltb (length s.rx_buf) header_len
      then and_then (fill_until header_len s) after_header
      else after_header s

  unfoldable pub read :
      (n : ℕ) → NoiseStream S E → Result (StreamError E) (List ℕ) × NoiseStream S E
  read n s =
      if is_empty s.rx_plain then and_then (drain_one_record s) (pop_plain n) else pop_plain n s

  -- What the record is, and the state behind it.
  unfoldable pub write_record : S → List ℕ → Result (StreamError E) (List ℕ × S)
  write_record noise plaintext =
      if ltb noise_max_record_payload (length plaintext)
      then err noise_encrypt
      else elim (t.write_message noise plaintext) [
        | none ↦ err noise_encrypt
        | some (ct, after) ↦ ok (msg_type_record ∷ be16 (length ct) ++ ct, after)
      ]

  unfoldable pub write_chunks :
      List (List ℕ) → (total_in : ℕ) → NoiseStream S E → Result (StreamError E) ℕ × NoiseStream S E
  write_chunks [] total_in s = (ok total_in, s)
  write_chunks (chunk ∷ later) total_in s = elim (write_record s.noise chunk) [
    | err e ↦ (err e, s)
    | ok (bytes, noise) ↦
        and_then (write_all bytes (record s { noise = noise }))
          (write_chunks later (total_in + length chunk))
  ]

  unfoldable pub write : List ℕ → NoiseStream S E → Result (StreamError E) ℕ × NoiseStream S E
  write buf s = write_chunks (chunks noise_max_record_payload buf) 0 s
