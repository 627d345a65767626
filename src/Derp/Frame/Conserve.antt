-- ===== src/Derp/Frame/Conserve.antt =====
-- `FrameReader` loses no byte: what a poll hands out and what it keeps is what came in.
use tailscale_vita.Prelude.{
  ℕ, suc, ◌+◌, ◌≤◌, ◌≡◌, refl, ap, sym, ◌∙◌, false, Result-cases, Bool-cases, ◌⊎◌, inl, inr, List,
  [], ◌∷◌, ◌++◌, append_assoc, append-nil, length, take, drop, take-append-drop, length-take, none,
  some, ok, err, arith, All, All-append_left, ltb,
}
use tailscale_vita.Prelude.Bytes.{from_be32, IsByte}
use tailscale_vita.Derp.Error.{DerpError, frame_too_large}
use tailscale_vita.Derp.Frame.Types.{FrameType, Frame, from_byte, max_payload, frame_header_len}
use tailscale_vita.Derp.Frame.Reader.{
  FrameReader, Outcome, chunk, would_block, timed_out, failed, Polled, extract_payload, try_extract,
  take_outcome, poll_from, poll_frame,
}
use tailscale_vita.Derp.Frame.Codec.{encode, header-of_bytes}

-- The bytes that one call of `read` delivers.
abbrev pub delivers : Outcome → List ℕ
delivers (chunk bs) = bs
delivers _ = []

-- The bytes that the stream is going to deliver.
abbrev pub stream : List Outcome → List ℕ
stream [] = []
stream (o ∷ os) = delivers o ++ stream os

-- The bytes on the wire of what a poll hands out.
abbrev pub handed_out : Polled → List ℕ
handed_out (ok (some f)) = encode f
handed_out (ok none) = []
handed_out (err e) = []

abbrev pub reader : List ℕ → FrameReader
reader b = record { buf = b }

pub drop_header :
    (a b c d e n : ℕ) (rest : List ℕ)
    → drop (frame_header_len + n) (a ∷ b ∷ c ∷ d ∷ e ∷ rest) ≡ drop n rest
drop_header a b c d e n rest = let p : 5 + n ≡ suc (suc (suc (suc (suc n)))) = omega arith in rw p

encode-take :
    (a b c d e : ℕ) (ty : FrameType) (rest : List ℕ)
    → All IsByte (a ∷ b ∷ c ∷ d ∷ e ∷ rest)
    → from_byte a ≡ ok ty
    → from_be32 b c d e ≤ max_payload
    → from_be32 b c d e ≤ length rest
    → encode (ty, take (from_be32 b c d e) rest) ++ drop (from_be32 b c d e) rest
      ≡ a ∷ b ∷ c ∷ d ∷ e ∷ rest
unfolding encode
encode-take a b c d e ty rest h t le fits =
    let n : ℕ = from_be32 b c d e in
    let l : length (take n rest) ≡ n = omega (arith, length-take n rest) in
    rw l (
      rw (header-of_bytes a b c d e ty h.1.0 h.1.1.0 h.1.1.1.0 h.1.1.1.1.0 t le)
        (rw (take-append-drop n rest)))

-- What `try_extract` does with a buffer: it fails or waits and leaves it alone, or it takes a
-- whole frame off its front.
abbrev pub Extracts : List ℕ → Polled × FrameReader → Type 0
Extracts b p =
    ((e : DerpError) × (p ≡ (err e, reader b)))
    ⊎ (p ≡ (ok none, reader b))
    ⊎ ((f : Frame) × (rest : List ℕ) × (p ≡ (ok (some f), reader rest))
        × (length f.1 ≤ max_payload)
        × (encode f ++ rest ≡ b))

extract_payload-Extracts :
    (a b c d e : ℕ) (rest : List ℕ) (ty : FrameType)
    → All IsByte (a ∷ b ∷ c ∷ d ∷ e ∷ rest)
    → from_byte a ≡ ok ty
    → Extracts
        (a ∷ b ∷ c ∷ d ∷ e ∷ rest)
        (extract_payload ty (from_be32 b c d e) (reader (a ∷ b ∷ c ∷ d ∷ e ∷ rest)))
unfolding extract_payload
extract_payload-Extracts a b c d e rest ty h t = elim (Bool-cases (ltb max_payload n)) [
  | inl big ↦ inl (frame_too_large n max_payload, rw big)
  | inr small ↦ elim (Bool-cases (ltb (length all) (frame_header_len + n))) [
    | inl short ↦ inr (inl (rw (small, short)))
    | inr enough ↦
        let fits : n ≤ length rest = ground arith in
        let le : n ≤ max_payload = ground arith in
        inr (
          inr (
            (ty, take n rest),
            drop n rest,
            rw (small, enough, drop_header a b c d e n rest),
            omega (arith, length-take n rest),
            encode-take a b c d e ty rest h t le fits,
          ))
  ]
]
  where
    n : ℕ
    n = from_be32 b c d e

    all : List ℕ
    all = a ∷ b ∷ c ∷ d ∷ e ∷ rest

pub try_extract-Extracts : (b : List ℕ) → All IsByte b → Extracts b (try_extract (reader b))
unfolding try_extract
try_extract-Extracts [] h = inr (inl refl)
try_extract-Extracts (a ∷ []) h = inr (inl refl)
try_extract-Extracts (a ∷ b ∷ []) h = inr (inl refl)
try_extract-Extracts (a ∷ b ∷ c ∷ []) h = inr (inl refl)
try_extract-Extracts (a ∷ b ∷ c ∷ d ∷ []) h = inr (inl refl)
try_extract-Extracts (a ∷ b ∷ c ∷ d ∷ e ∷ rest) h =
    let long : ltb (length (a ∷ b ∷ c ∷ d ∷ e ∷ rest)) frame_header_len ≡ false = ground arith in
    elim (Result-cases (from_byte a)) [
      | inl (ty, t) ↦ rw (long, t) (extract_payload-Extracts a b c d e rest ty h t)
      | inr (x, t) ↦ inl (x, rw (long, t))
    ]

try_extract-conserve :
    (b : List ℕ)
    → All IsByte b
    → handed_out (try_extract (reader b)).0 ++ (try_extract (reader b)).1.buf ≡ b
try_extract-conserve b h = elim (try_extract-Extracts b h) [
  | inl (e, p) ↦ rw p
  | inr (inl p) ↦ rw p
  | inr (inr (f, rest, p, le, eq)) ↦ rw p eq
]

take_outcome-conserve :
    (o : Outcome) (b : List ℕ)
    → All IsByte (b ++ delivers o)
    → handed_out (take_outcome o (reader b)).0 ++ (take_outcome o (reader b)).1.buf
      ≡ b ++ delivers o
unfolding take_outcome
take_outcome-conserve (chunk []) b h = sym (append-nil b)
take_outcome-conserve (chunk (x ∷ xs)) b h = try_extract-conserve (b ++ x ∷ xs) h
take_outcome-conserve would_block b h = sym (append-nil b)
take_outcome-conserve timed_out b h = sym (append-nil b)
take_outcome-conserve (failed e) b h = sym (append-nil b)

regroup : (xs ys more : List ℕ) {zs : List ℕ} → xs ++ ys ≡ zs → xs ++ (ys ++ more) ≡ zs ++ more
regroup xs ys more p = sym (append_assoc xs ys more) ∙ ap (λ l. l ++ more) p

abbrev pub Conserves : List ℕ → Polled × FrameReader × List Outcome → Type 0
Conserves bytes p = handed_out p.0 ++ (p.1.buf ++ stream p.2) ≡ bytes

poll_from-conserve :
    (b : List ℕ) (os : List Outcome)
    → All IsByte (b ++ stream os)
    → Conserves (b ++ stream os) (poll_from (ok none) (reader b) os)
unfolding poll_from
poll_from-conserve b [] h = unfold take_outcome in refl
poll_from-conserve b (o ∷ os) h =
    regroup _ _ (stream os) (take_outcome-conserve o b delivered)
    ∙ append_assoc b (delivers o) (stream os)
  where
    delivered : All IsByte (b ++ delivers o)
    delivered =
        All-append_left IsByte (b ++ delivers o) (stream os)
          (rw (append_assoc b (delivers o) (stream os)) h)

-- Whatever a poll finds, an error included, the bytes of the frame that it hands out, those that
-- it keeps and those that the stream still holds are the bytes there were before, in order: a
-- timeout in the middle of a frame loses nothing.
pub poll_frame-conserve :
    (b : List ℕ) (os : List Outcome)
    → All IsByte (b ++ stream os)
    → Conserves (b ++ stream os) (poll_frame (reader b) os)
unfolding poll_frame
poll_frame-conserve b os h =
    elim (try_extract-Extracts b (All-append_left IsByte b (stream os) h)) [
      | inl (e, p) ↦ rw p
      | inr (inl p) ↦ rw p (poll_from-conserve b os h)
      | inr (inr (f, rest, p, le, eq)) ↦ rw p (regroup (encode f) rest (stream os) eq)
    ]
