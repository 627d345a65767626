-- ===== src/Control/Noise/Trip.antt =====
-- What one end of a session writes to its `NoiseStream`, the other end reads.
use tailscale_vita.Prelude.{
  ℕ, ◌+◌, ◌≤◌, ◌<◌, ◌≡◌, refl, sym, ap, subst, ◌∙◌, List, [], ◌∷◌, ◌++◌, append_assoc, length,
  length-append, All, Result, ok, err, arith,
}
use tailscale_vita.Control.Noise.Stream.{
  Transport, NoiseStream, ReadOutcome, StreamError, eof_mid_record, noise_decrypt, noise_encrypt,
  unexpected_msg_type, inner, new, noise_max_record_payload, chunks, read, write,
}
use tailscale_vita.Control.Noise.Writing.{
  Carries, Seals, chunks-concat, chunks-Piece, write-Carries,
}
use tailscale_vita.Control.Noise.Reading.{heard, failures, Open}
use tailscale_vita.Control.Noise.Taking.{Waiting, ReadResult, read-ReadResult}

module _ {S E : Type 0} (t : Transport S) where
  -- Reads one after another, into buffers of these sizes, whatever each returns.
  unfoldable pub read_all :
      (sizes : List ℕ) → NoiseStream S E → List (Result (StreamError E) (List ℕ)) × NoiseStream S E
  read_all [] s = ([], s)
  read_all (n ∷ sizes) s =
      let (r, after) = read t n s in let (rs, last) = read_all sizes after in (r ∷ rs, last)

module _ {E : Type 0} where
  abbrev pub received : List (Result (StreamError E) (List ℕ)) → List ℕ
  received [] = []
  received (ok out ∷ rs) = out ++ received rs
  received (err e ∷ rs) = received rs

  -- The record layer itself refuses nothing.
  abbrev pub Clean : Result (StreamError E) (List ℕ) → Type 0
  Clean (ok out) = Unit
  Clean (err eof_mid_record) = Unit
  Clean (err (inner e)) = Unit
  Clean (err _) = ⊥

  abbrev pub ReadsOf : List ℕ → ℕ → List (Result (StreamError E) (List ℕ)) → Type 0
  ReadsOf m needed rs =
      All Clean rs
      × (unread : List ℕ) × (received rs ++ unread ≡ m)
      × (needed ≤ length rs → unread ≡ [])

module _ {S E : Type 0} (t : Transport S) where
  more-ReadsOf :
      (m : List ℕ) (s : NoiseStream S E) (r : Result (StreamError E) (List ℕ))
      (after : NoiseStream S E) (rs : List (Result (StreamError E) (List ℕ)))
      → ReadResult t m s (r, after)
      → ((m' : List ℕ) → Waiting t after m' → ReadsOf m' (length m' + failures after.reads) rs)
      → ReadsOf m (length m + failures s.reads) (r ∷ rs)
  more-ReadsOf m s (ok out) after rs (later, e, waiting, some_out, fewer) k =
      let (clean, unread, got, all) = k later waiting in
      (
        (tt, clean),
        unread,
        append_assoc out (received rs) unread ∙ ap (λ xs. out ++ xs) got ∙ e,
        λ le.
            all
              (omega (arith, le, some_out, fewer, ap (length {A = ℕ}) e, length-append out later)),
      )
  more-ReadsOf m s (err eof_mid_record) after rs (waiting, nothing) k =
      let (clean, unread, got, all) = k m waiting in
      ((tt, clean), unread, got, λ le. none (received rs) unread (got ∙ nothing))
    where
      none : (xs ys : List ℕ) → xs ++ ys ≡ [] → ys ≡ []
      none [] ys e = e
      none (x ∷ xs) ys e = absurd (cc)
  more-ReadsOf m s (err (inner e)) after rs (waiting, lt) k =
      let (clean, unread, got, all) = k m waiting in
      ((tt, clean), unread, got, λ le. all (omega (arith, le, lt)))
  more-ReadsOf m s (err noise_decrypt) after rs never k = absurd never
  more-ReadsOf m s (err noise_encrypt) after rs never k = absurd never
  more-ReadsOf m s (err (unexpected_msg_type b)) after rs never k = absurd never

  read_all-ReadsOf :
      (sizes : List ℕ) (m : List ℕ) (s : NoiseStream S E)
      → All (λ n. 0 < n) sizes
      → Waiting t s m
      → ReadsOf m (length m + failures s.reads) (read_all t sizes s).0
  unfolding read_all
  read_all-ReadsOf [] m s some_sizes waiting = (tt, m, refl, λ le. none m (omega arith))
    where
      none : (m : List ℕ) → length m ≡ 0 → m ≡ []
      none [] e = refl
      none (x ∷ m) e = absurd (omega arith)
  read_all-ReadsOf (n ∷ sizes) m s (some_n, some_sizes) waiting =
      more-ReadsOf m s (read t n s).0 (read t n s).1 (read_all t sizes (read t n s).1).0
        (read-ReadResult t n m s some_n waiting)
        (λ m' w. read_all-ReadsOf sizes m' (read t n s).1 some_sizes w)

  -- For every cipher session whose two ends are in step, and every buffer that it still has
  -- messages for: `write` of the buffer to a stream whose writes do not fail returns its length.
  -- The other end, however the inner reads cut what was sent, and whichever of them fail without
  -- ending the stream, is given by reads into buffers that are not empty the bytes of the buffer
  -- in order, and nothing else; no read is refused by the record layer; and as many reads as the
  -- buffer has bytes and the inner reads have failures are enough for all of it.
  pub read_all-write :
      (Paired : ℕ → S → S → Type 0)
      → Seals t Paired
      → (buf : List ℕ) (left : ℕ) (w r : S) (reads : List (ReadOutcome E)) (sizes : List ℕ)
      → length (chunks noise_max_record_payload buf) ≤ left
      → Paired left w r
      → All (Open {E = E}) reads
      → heard reads ≡ (write t buf (new {E = E} w [] [] [])).1.sent
      → All (λ n. 0 < n) sizes
      → ((write t buf (new {E = E} w [] [] [])).0 ≡ ok (length buf))
        × ReadsOf buf (length buf + failures reads) (read_all t sizes (new r [] reads [])).0
  read_all-write Paired seals buf left w r reads sizes enough paired lives same some_sizes =
      let (after, bytes, wrote, out, carried) =
        write-Carries t Paired seals buf left r (new {E = E} w [] [] []) refl enough paired in
      let came = same ∙ ap (λ (u, s). s.sent) wrote ∙ out in
      (
        ap (λ (u, s). u) wrote,
        read_all-ReadsOf sizes buf (new r [] reads []) some_sizes (
          chunks noise_max_record_payload buf,
          subst (Carries t r (chunks noise_max_record_payload buf)) (sym came) carried,
          chunks-Piece buf,
          sym (chunks-concat buf),
          (lives, λ e. absurd (cc)),
        ),
      )
