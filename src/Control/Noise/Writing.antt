-- ===== src/Control/Noise/Writing.antt =====
-- What `NoiseStream::write` puts on the inner stream.
use tailscale_vita.Prelude.{
  ℕ, zero, suc, ◌+◌, ◌≤◌, ◌<◌, ◌≡◌, refl, sym, ap, ◌∙◌, false, List, [], ◌∷◌, ◌++◌, append_assoc,
  append-nil, length, take, drop, length-append, length-take, length-drop, take-append-drop, All,
  some, ok, ltb, arith,
}
use tailscale_vita.Prelude.Bytes.{be16}
use tailscale_vita.Control.Noise.Stream.{
  Transport, NoiseStream, msg_type_record, noise_max_record_payload, chunks_on, chunks,
  write_record, write_chunks, write,
}

abbrev pub concat : List (List ℕ) → List ℕ
concat [] = []
concat (x ∷ xs) = x ++ concat xs

-- A piece of what is written: not empty, and no longer than a record may carry.
abbrev pub Piece : List ℕ → Type 0
Piece p = (0 < length p) × (length p ≤ noise_max_record_payload)

abbrev pub record_of : List ℕ → List ℕ
record_of ct = msg_type_record ∷ be16 (length ct) ++ ct

chunks_on-concat :
    (fuel n : ℕ) (xs : List ℕ) → 0 < n → length xs ≤ fuel → concat (chunks_on fuel n xs) ≡ xs
unfolding chunks_on
chunks_on-concat zero n [] some_n h = refl
chunks_on-concat zero n (x ∷ xs) some_n h = absurd (omega arith)
chunks_on-concat (suc fuel) n [] some_n h = refl
chunks_on-concat (suc fuel) n (x ∷ xs) some_n h =
    ap (λ rest. take n (x ∷ xs) ++ rest)
      (chunks_on-concat fuel n (drop n (x ∷ xs)) some_n (omega (arith, length-drop n (x ∷ xs))))
    ∙ take-append-drop n (x ∷ xs)

chunks_on-Piece : (fuel : ℕ) (xs : List ℕ) → All Piece (chunks_on fuel noise_max_record_payload xs)
unfolding chunks_on
chunks_on-Piece zero xs = tt
chunks_on-Piece (suc fuel) [] = tt
chunks_on-Piece (suc fuel) (x ∷ xs) =
    let measured = length-take noise_max_record_payload (x ∷ xs) in
    (
      (omega (arith, measured), omega (arith, measured)),
      chunks_on-Piece fuel (drop noise_max_record_payload (x ∷ xs)),
    )

pub chunks-concat : (xs : List ℕ) → concat (chunks noise_max_record_payload xs) ≡ xs
unfolding chunks
chunks-concat xs =
    chunks_on-concat (length xs) noise_max_record_payload xs (omega arith) (omega arith)

pub chunks-Piece : (xs : List ℕ) → All Piece (chunks noise_max_record_payload xs)
unfolding chunks
chunks-Piece xs = chunks_on-Piece (length xs) xs

module _ {S : Type 0} (t : Transport S) where
  -- The bytes are the records of these plaintexts, for a receiver in state `r`.
  abbrev pub Carries : S → List (List ℕ) → List ℕ → Type 0
  Carries r [] bytes = bytes ≡ []
  Carries r (p ∷ ps) bytes =
      (ct : List ℕ) × (after : S) × (later : List ℕ) × (t.read_message r ct ≡ some (p, after))
      × (length ct < 65536)
      × (bytes ≡ record_of ct ++ later)
      × Carries after ps later

  -- The two ends of a session are in step for the next messages, as many as the number says: each
  -- that is sealed grows by the tag of 16 bytes, opens to what it was, and leaves them in step.
  abbrev pub Seals : (ℕ → S → S → Type 0) → Type 0
  Seals Paired =
      (left : ℕ) (w r : S) (p : List ℕ)
      → length p ≤ noise_max_record_payload
      → Paired (suc left) w r
      → (ct : List ℕ) × (w_after : S) × (r_after : S) × (t.write_message w p ≡ some (ct, w_after))
        × (t.read_message r ct ≡ some (p, r_after))
        × (length ct ≡ length p + 16)
        × Paired left w_after r_after

module _ {S E : Type 0} (t : Transport S) (Paired : ℕ → S → S → Type 0)
    (seals : Seals t Paired) where
  write_chunks-one :
      (c ct : List ℕ) (cs : List (List ℕ)) (total : ℕ) (w : S) (s : NoiseStream S E)
      → s.write_errors ≡ []
      → length c ≤ noise_max_record_payload
      → t.write_message s.noise c ≡ some (ct, w)
      → write_chunks t (c ∷ cs) total s
        ≡ write_chunks t cs
            (total + length c)
            (record s { noise = w; sent = s.sent ++ record_of ct })
  unfolding write_chunks write_record
  write_chunks-one c ct cs total w s fine fits wrote =
      rw (within, wrote, fine, write_chunks, write_record)
        (ap
          (λ es.
            write_chunks t cs (total + length c)
              (record s { noise = w; write_errors = es; sent = s.sent ++ record_of ct }))
          fine)
    where
      within : ltb noise_max_record_payload (length c) ≡ false
      within = ground arith

  write_chunks-Carries :
      (cs : List (List ℕ)) (total left : ℕ) (r : S) (s : NoiseStream S E)
      → s.write_errors ≡ []
      → All Piece cs
      → length cs ≤ left
      → Paired left s.noise r
      → (after : NoiseStream S E) × (bytes : List ℕ) × (write_chunks t cs total s
          ≡ (ok (total + length (concat cs)), after))
        × (after.sent ≡ s.sent ++ bytes)
        × Carries t r cs bytes
  unfolding write_chunks
  write_chunks-Carries [] total left r s fine pieces enough paired =
      (s, [], ap (λ n. (ok n, s)) (omega arith), sym (append-nil s.sent), refl)
  write_chunks-Carries (c ∷ cs) total zero r s fine pieces enough paired = absurd (omega arith)
  write_chunks-Carries (c ∷ cs) total (suc left) r s fine ((_, fits), pieces) enough paired =
      let (ct, w, r1, wrote, opens, long, again) = seals left s.noise r c fits paired in
      let next = record s { noise = w; sent = s.sent ++ record_of ct } in
      let (after, bytes, done, out, carried) =
        write_chunks-Carries cs (total + length c) left r1 next fine pieces (omega arith) again in
      (
        after,
        record_of ct ++ bytes,
        write_chunks-one c ct cs total w s fine fits wrote
            ∙ done
            ∙ ap (λ n. (ok n, after)) (omega (arith, length-append c (concat cs))),
        out ∙ append_assoc s.sent (record_of ct) bytes,
        (ct, r1, bytes, opens, omega (arith, long, fits), refl, carried),
      )

  -- A write whose bytes all go out: what it returns, and what a receiver that is in step then has.
  pub write-Carries :
      (buf : List ℕ) (left : ℕ) (r : S) (s : NoiseStream S E)
      → s.write_errors ≡ []
      → length (chunks noise_max_record_payload buf) ≤ left
      → Paired left s.noise r
      → (after : NoiseStream S E) × (bytes : List ℕ) × (write t buf s ≡ (ok (length buf), after))
        × (after.sent ≡ s.sent ++ bytes)
        × Carries t r (chunks noise_max_record_payload buf) bytes
  unfolding write
  write-Carries buf left r s fine enough paired =
      let (after, bytes, done, out, carried) =
        write_chunks-Carries (chunks noise_max_record_payload buf) 0 left r s fine
          (chunks-Piece buf) enough paired in
      (
        after,
        bytes,
        done ∙ ap (λ n. (ok n, after)) (omega (arith, ap (length {A = ℕ}) (chunks-concat buf))),
        out,
        carried,
      )
