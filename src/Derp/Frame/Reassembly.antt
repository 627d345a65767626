-- ===== src/Derp/Frame/Reassembly.antt =====
-- However the network cuts the stream, `FrameReader` puts the frames together again.
use tailscale_vita.Prelude.{
  ℕ, zero, suc, ◌+◌, ◌≤◌, ◌<◌, ◌≡◌, refl, ap, sym, ◌∙◌, subst, ◌⊎◌, inl, inr, List, [], ◌∷◌, ◌++◌,
  append_assoc, append-nil, false, ◌/◌, ◌%◌, ◌^◌, length, take, drop, length-append, take-append,
  drop-append, take-append_le, drop-append_le, none, some, ok, err, arith, All, ltb, Bool-cases,
}
use tailscale_vita.Prelude.Bytes.{from_be32, be32}
use tailscale_vita.Derp.Frame.Types.{
  FrameType, Frame, from_byte, to_byte, header, max_payload, frame_header_len,
}
use tailscale_vita.Derp.Frame.Reader.{
  FrameReader, new, Outcome, chunk, would_block, timed_out, failed, Polled, extract_payload,
  try_extract, take_outcome, poll_frame,
}
use tailscale_vita.Derp.Frame.Codec.{encode, from_byte-to_byte, len_of_header}
use tailscale_vita.Derp.Frame.Conserve.{stream, reader, drop_header}

abbrev pub encode_all : List Frame → List ℕ
encode_all [] = []
encode_all (f ∷ fs) = encode f ++ encode_all fs

-- A frame that `write_frame` accepts.
abbrev pub Fits : Frame → Type 0
Fits f = length f.1 ≤ max_payload

-- The stream is not closed and does not fail: each read gives some bytes or times out.
abbrev pub Lives : Outcome → Type 0
Lives (chunk []) = ⊥
Lives (chunk (b ∷ bs)) = Unit
Lives would_block = Unit
Lives timed_out = Unit
Lives (failed e) = ⊥

-- The loop around `poll_frame`: it collects the frames, and stops at an error.
collect : Polled → FrameReader → List Frame × FrameReader → List Frame × FrameReader
collect (ok (some f)) r rest = (f ∷ rest.0, rest.1)
collect (ok none) r rest = rest
collect (err e) r rest = ([], r)

unfoldable pub poll_all : ℕ → FrameReader → List Outcome → List Frame × FrameReader
unfolding collect
poll_all zero r os = ([], r)
poll_all (suc n) r os = let (p, r', os') = poll_frame r os in collect p r' (poll_all n r' os')

-- What `try_extract` does with the front of a stream of frames.
abbrev Front : List ℕ → List ℕ → List Frame → Type 0
Front b more fs =
    ((try_extract (reader b) ≡ (ok none, reader b))
      × ((fs ≡ []) ⊎ (length b < length (encode_all fs))))
    ⊎ ((f : Frame) × (fs' : List Frame) × (rest : List ℕ) × (fs ≡ f ∷ fs')
        × (try_extract (reader b) ≡ (ok (some f), reader rest))
        × (rest ++ more ≡ encode_all fs'))

length_field :
    (b c d e : ℕ) (p xs ys : List ℕ)
    → length p ≤ max_payload
    → ◌≡◌ {A = List ℕ} (b ∷ c ∷ d ∷ e ∷ xs) (be32 (length p % 2 ^ 32) ++ ys)
    → from_be32 b c d e ≡ length p
length_field b c d e p xs ys fits eq =
    let eb : b ≡ length p % 2 ^ 32 / 2 ^ 24 % 256 = cc in
    let ec : c ≡ length p % 2 ^ 32 / 2 ^ 16 % 256 = cc in
    let ed : d ≡ length p % 2 ^ 32 / 2 ^ 8 % 256 = cc in
    let ee : e ≡ length p % 2 ^ 32 % 256 = cc in rw (eb, ec, ed, ee) (len_of_header (length p) fits)

take_front :
    (p rest more end : List ℕ)
    → length p ≤ length rest
    → rest ++ more ≡ p ++ end
    → (take (length p) rest ≡ p) × (drop (length p) rest ++ more ≡ end)
take_front p rest more end le eq = (
  sym (take-append_le (length p) rest more le) ∙ ap (take (length p)) eq ∙ take-append p end,
  sym (drop-append_le (length p) rest more le) ∙ ap (drop (length p)) eq ∙ drop-append p end,
)

front_payload :
    (a b c d e : ℕ) (rest more : List ℕ) (ty : FrameType) (p : List ℕ) (fs : List Frame)
    → from_byte a ≡ ok ty
    → from_be32 b c d e ≡ length p
    → length p ≤ max_payload
    → rest ++ more ≡ p ++ encode_all fs
    → Front (a ∷ b ∷ c ∷ d ∷ e ∷ rest) more ((ty, p) ∷ fs)
unfolding try_extract extract_payload encode header
front_payload a b c d e rest more ty p fs t n fits eq =
    let long : ltb (length (a ∷ b ∷ c ∷ d ∷ e ∷ rest)) frame_header_len ≡ false = ground arith in
    let small : ltb max_payload (length p) ≡ false = ground arith in
    elim (Bool-cases (ltb (length (a ∷ b ∷ c ∷ d ∷ e ∷ rest)) (frame_header_len + length p))) [
      | inl short ↦
          inl (rw (long, t, n, small, short), inr (ground (arith, length-append p (encode_all fs))))
      | inr enough ↦
          let (tk, dr) = take_front p rest more (encode_all fs) (ground arith) eq in
          inr (
            (ty, p),
            fs,
            drop (length p) rest,
            refl,
            rw (long, t, n, small, enough, drop_header a b c d e (length p) rest)
                (rw (drop_header a b c d e 0 rest, tk)),
            dr,
          )
    ]

front_long :
    (a b c d e : ℕ) (rest more : List ℕ) (f : Frame) (fs : List Frame)
    → Fits f
    → a ∷ b ∷ c ∷ d ∷ e ∷ (rest ++ more) ≡ encode_all (f ∷ fs)
    → Front (a ∷ b ∷ c ∷ d ∷ e ∷ rest) more (f ∷ fs)
unfolding encode header
front_long a b c d e rest more (ty, p) fs fits eq =
    let ea : a ≡ to_byte ty = cc in
    front_payload a b c d e rest more ty p fs (rw ea (from_byte-to_byte ty))
      (length_field b c d e p (rest ++ more) (p ++ encode_all fs) fits (cc)) fits (cc)

front :
    (b more : List ℕ) (fs : List Frame) → All Fits fs → b ++ more ≡ encode_all fs → Front b more fs
unfolding try_extract encode header
front [] more [] h eq = inl (refl, inl refl)
front (x ∷ b) more [] h eq = absurd (cc)
front [] more ((ty, p) ∷ fs) h eq = inl (refl, inr (omega arith))
front (a ∷ []) more ((ty, p) ∷ fs) h eq = inl (refl, inr (omega arith))
front (a ∷ b ∷ []) more ((ty, p) ∷ fs) h eq = inl (refl, inr (omega arith))
front (a ∷ b ∷ c ∷ []) more ((ty, p) ∷ fs) h eq = inl (refl, inr (omega arith))
front (a ∷ b ∷ c ∷ d ∷ []) more ((ty, p) ∷ fs) h eq = inl (refl, inr (omega arith))
front (a ∷ b ∷ c ∷ d ∷ e ∷ rest) more (f ∷ fs) h eq = front_long a b c d e rest more f fs h.0 eq

abbrev Reassembles : ℕ → List ℕ → List Outcome → List Frame → Type 0
Reassembles n b os fs =
    All Fits fs
    → All Lives os
    → b ++ stream os ≡ encode_all fs
    → length fs + length os ≤ n
    → poll_all n (reader b) os ≡ (fs, reader [])

poll_all-empty : (n : ℕ) → poll_all n (reader []) [] ≡ ([], reader [])
unfolding poll_all poll_frame try_extract take_outcome
poll_all-empty zero = refl
poll_all-empty (suc n) = poll_all-empty n

-- A poll that hands out a buffered frame.
poll_buffered :
    (n : ℕ) (b rest : List ℕ) (os : List Outcome) (f : Frame) (fs : List Frame)
    → try_extract (reader b) ≡ (ok (some f), reader rest)
    → poll_all n (reader rest) os ≡ (fs, reader [])
    → poll_all (suc n) (reader b) os ≡ (f ∷ fs, reader [])
unfolding poll_all poll_frame
poll_buffered n b rest os f fs p q = rw (p, q)

-- A poll that reads.
poll_reads :
    (n : ℕ) (b : List ℕ) (o : Outcome) (os : List Outcome)
    → try_extract (reader b) ≡ (ok none, reader b)
    → poll_all (suc n) (reader b) (o ∷ os)
      ≡ collect
          (take_outcome o (reader b)).0
          (take_outcome o (reader b)).1
          (poll_all n (take_outcome o (reader b)).1 os)
unfolding poll_all poll_frame
poll_reads n b o os p = rw p

poll_chunk :
    (n x : ℕ) (xs b : List ℕ) (os : List Outcome) (fs : List Frame)
    → ((c : List ℕ) (gs : List Frame) → Reassembles n c os gs)
    → try_extract (reader b) ≡ (ok none, reader b)
    → Reassembles (suc n) b (chunk (x ∷ xs) ∷ os) fs
unfolding take_outcome collect
poll_chunk n x xs b os fs ih p h live eq le =
    let eq' : (b ++ x ∷ xs) ++ stream os ≡ encode_all fs =
      append_assoc b (x ∷ xs) (stream os) ∙ eq in
    rw (poll_reads n b (chunk (x ∷ xs)) os p) (elim (front (b ++ x ∷ xs) (stream os) fs h eq') [
      | inl (q, _) ↦ rw q (ih (b ++ x ∷ xs) fs h live.1 eq' (omega arith))
      | inr (f, gs, rest, split, q, eq'') ↦ rw q (
          rw (
            split,
            ih rest gs (subst (All Fits) split h).1 live.1 eq'' (omega (arith, ap length split)),
          ))
    ])

nothing_left :
    (b : List ℕ) (fs : List Frame)
    → b ++ [] ≡ encode_all fs
    → (fs ≡ []) ⊎ (length b < length (encode_all fs))
    → (b ≡ []) × (fs ≡ [])
nothing_left b fs eq (inl e) = (sym (append-nil b) ∙ eq ∙ ap encode_all e, e)
nothing_left b fs eq (inr lt) = absurd (omega (arith, ap length (sym (append-nil b) ∙ eq)))

-- One round of the loop, when no frame is buffered.
poll_waiting :
    (n : ℕ) (b : List ℕ) (os : List Outcome) (fs : List Frame)
    → ((c : List ℕ) (ps : List Outcome) (gs : List Frame) → Reassembles n c ps gs)
    → try_extract (reader b) ≡ (ok none, reader b)
    → (fs ≡ []) ⊎ (length b < length (encode_all fs))
    → Reassembles (suc n) b os fs
unfolding take_outcome collect
poll_waiting n b [] fs ih p short h live eq le =
    let (eb, ef) = nothing_left b fs eq short in rw (eb, ef) (poll_all-empty (suc n))
poll_waiting n b (chunk [] ∷ os) fs ih p short h live eq le = absurd live.0
poll_waiting n b (chunk (x ∷ xs) ∷ os) fs ih p short h live eq le =
    poll_chunk n x xs b os fs (λ c gs. ih c os gs) p h live eq le
poll_waiting n b (would_block ∷ os) fs ih p short h live eq le =
    rw (poll_reads n b would_block os p) (ih b os fs h live.1 eq (omega arith))
poll_waiting n b (timed_out ∷ os) fs ih p short h live eq le =
    rw (poll_reads n b timed_out os p) (ih b os fs h live.1 eq (omega arith))
poll_waiting n b (failed e ∷ os) fs ih p short h live eq le = absurd live.0

reassembles : (n : ℕ) (b : List ℕ) (os : List Outcome) (fs : List Frame) → Reassembles n b os fs
reassembles zero b (o ∷ os) fs h live eq le = absurd (omega arith)
reassembles zero b [] (f ∷ fs) h live eq le = absurd (omega arith)
reassembles zero (x ∷ b) [] [] h live eq le = absurd (cc)
reassembles zero [] [] [] h live eq le = poll_all-empty zero
reassembles (suc n) b os fs h live eq le = elim (front b (stream os) fs h eq) [
  | inl (p, short) ↦ poll_waiting n b os fs (reassembles n) p short h live eq le
  | inr (f, gs, rest, split, q, eq') ↦ rw split (
      poll_buffered n b rest os f gs q (
        reassembles n rest os gs (subst (All Fits) split h).1 live eq'
          (omega (arith, ap length split))))
]

-- A new reader that is polled over a stream which neither ends nor fails, and whose bytes are
-- those of some frames that fit, hands out exactly these frames, in order, and keeps no byte
-- back: wherever chunks and timeouts cut the frames. One poll for each frame and each outcome of
-- a read is enough.
pub poll_all-reassembles :
    (n : ℕ) (os : List Outcome) (fs : List Frame)
    → All Fits fs
    → All Lives os
    → stream os ≡ encode_all fs
    → length fs + length os ≤ n
    → poll_all n new os ≡ (fs, new)
unfolding new
poll_all-reassembles n os fs = reassembles n [] os fs
