-- ===== src/Control/Noise/Taking.antt =====
-- What one call of `NoiseStream::read` makes of what is waiting.
use tailscale_vita.Prelude.{
  ℕ, ◌≤◌, ◌<◌, ◌≡◌, refl, sym, ap, subst, ◌∙◌, inl, inr, true, false, List, [], ◌∷◌, ◌++◌,
  append_assoc, length, take, drop, length-take, take-append-drop, min, All, is_empty, Result, ok,
  err, Bool-cases, arith,
}
use tailscale_vita.Control.Noise.Stream.{
  Transport, NoiseStream, StreamError, eof_mid_record, noise_decrypt, noise_encrypt,
  unexpected_msg_type, inner, and_then, drain_one_record, pop_plain, read,
}
use tailscale_vita.Control.Noise.Writing.{concat, Piece, Carries}
use tailscale_vita.Control.Noise.Reading.{failures, to_come, Sound}
use tailscale_vita.Control.Noise.Draining.{
  Drained, Ended, drain_one_record-Drained, drain_one_record-Ended,
}

empty-nil : (xs : List ℕ) → is_empty xs ≡ true → xs ≡ []
empty-nil [] e = refl
empty-nil (x ∷ xs) e = absurd (cc)

full-long : (xs : List ℕ) → is_empty xs ≡ false → 0 < length xs
full-long [] e = absurd (cc)
full-long (x ∷ xs) e = omega arith

module _ {S E : Type 0} (t : Transport S) where
  -- `m` is what the reader has yet to be given.
  abbrev pub Waiting : NoiseStream S E → List ℕ → Type 0
  Waiting s m =
      (ps : List (List ℕ)) × Carries t s.noise ps (to_come s)
      × All Piece ps
      × (m ≡ s.rx_plain ++ concat ps)
      × Sound s

  -- A read gives some of what is waiting; or it fails, as a read of the inner stream did, or at the
  -- end, and loses nothing.
  abbrev pub ReadResult :
      List ℕ → NoiseStream S E → Result (StreamError E) (List ℕ) × NoiseStream S E → Type 0
  ReadResult m s (ok out, s') =
      (later : List ℕ) × (out ++ later ≡ m)
      × Waiting s' later
      × (0 < length out)
      × (failures s'.reads ≤ failures s.reads)
  ReadResult m s (err eof_mid_record, s') = Waiting s' m × (m ≡ [])
  ReadResult m s (err (inner e), s') = Waiting s' m × (failures s'.reads < failures s.reads)
  ReadResult m s (err _, s') = ⊥

  pop_plain-ReadResult :
      (n : ℕ) (m : List ℕ) (before s : NoiseStream S E)
      → failures s.reads ≤ failures before.reads
      → 0 < n
      → 0 < length s.rx_plain
      → Waiting s m
      → ReadResult m before (pop_plain n s)
  unfolding pop_plain
  pop_plain-ReadResult n m before s fewer some_n some_plain (ps, carried, pieces, e, sound) =
      let count = min n (length s.rx_plain) in
      (
        drop count s.rx_plain ++ concat ps,
        sym (append_assoc (take count s.rx_plain) (drop count s.rx_plain) (concat ps))
            ∙ ap (λ xs. xs ++ concat ps) (take-append-drop count s.rx_plain)
            ∙ sym e,
        (ps, carried, pieces, refl, sound),
        omega (arith, length-take count s.rx_plain),
        omega arith,
      )

  -- A read that takes a record of plaintext `p` first.
  Drained-ReadResult :
      (n : ℕ) (p : List ℕ) (ps : List (List ℕ)) (s : NoiseStream S E)
      (r : Result (StreamError E) (Unit {0}) × NoiseStream S E)
      → 0 < n
      → s.rx_plain ≡ []
      → Carries t s.noise (p ∷ ps) (to_come s)
      → All Piece (p ∷ ps)
      → Drained t p ps s r
      → ReadResult (p ++ concat ps) s (and_then r (pop_plain n))
  Drained-ReadResult n p ps s (ok u, s') some_n plain carries (piece, pieces)
        (grew, carried, sound, fewer) =
      let is_p = grew ∙ ap (λ xs. xs ++ p) plain in
      pop_plain-ReadResult n (p ++ concat ps) s s' fewer some_n
        (omega (arith, piece.0, ap (length {A = ℕ}) is_p))
        (ps, carried, pieces, ap (λ xs. xs ++ concat ps) (sym is_p), sound)
  Drained-ReadResult n p ps s (err eof_mid_record, s') some_n plain (ct, _, _, _, _, bytes, _)
        pieces (f, (ended, le)) =
      let both = sym bytes ∙ ended in absurd (cc)
  Drained-ReadResult n p ps s (err noise_decrypt, s') some_n plain carries pieces (f, never) =
      absurd never
  Drained-ReadResult n p ps s (err noise_encrypt, s') some_n plain carries pieces (f, never) =
      absurd never
  Drained-ReadResult n p ps s (err (unexpected_msg_type b), s') some_n plain carries pieces
        (f, never) =
      absurd never
  Drained-ReadResult n p ps s (err (inner e), s') some_n plain
        (ct, after, later, opens, fits, bytes, carried) pieces
        ((noise, plain_same, stream, sound), lt) =
      (
        (
          p ∷ ps,
          (
            ct,
            after,
            later,
            ap (λ x. t.read_message x ct) noise ∙ opens,
            fits,
            stream ∙ bytes,
            carried,
          ),
          pieces,
          sym (ap (λ xs. xs ++ concat (p ∷ ps)) (plain_same ∙ plain)),
          sound,
        ),
        lt,
      )

  Ended-ReadResult :
      (n : ℕ) (s : NoiseStream S E) (r : Result (StreamError E) (Unit {0}) × NoiseStream S E)
      → s.rx_plain ≡ []
      → to_come s ≡ []
      → Ended s r
      → ReadResult [] s (and_then r (pop_plain n))
  Ended-ReadResult n s (ok u, s') plain nothing never = absurd never
  Ended-ReadResult n s (err eof_mid_record, s') plain nothing
        ((noise, plain_same, stream, sound), (ended, le)) =
      (([], stream ∙ nothing, tt, sym (ap (λ xs. xs ++ []) (plain_same ∙ plain)), sound), refl)
  Ended-ReadResult n s (err noise_decrypt, s') plain nothing (f, never) = absurd never
  Ended-ReadResult n s (err noise_encrypt, s') plain nothing (f, never) = absurd never
  Ended-ReadResult n s (err (unexpected_msg_type b), s') plain nothing (f, never) = absurd never
  Ended-ReadResult n s (err (inner e), s') plain nothing ((noise, plain_same, stream, sound), lt) =
      (([], stream ∙ nothing, tt, sym (ap (λ xs. xs ++ []) (plain_same ∙ plain)), sound), lt)

  pub read-ReadResult :
      (n : ℕ) (m : List ℕ) (s : NoiseStream S E) → 0 < n → Waiting s m → ReadResult m s (read t n s)
  unfolding read
  read-ReadResult n m s some_n (ps, carried, pieces, e, sound) =
      elim (Bool-cases (is_empty s.rx_plain)) [
        | inr full ↦
            simp (full, read)
              (pop_plain-ReadResult n m s s (omega arith) some_n (full-long s.rx_plain full)
                (ps, carried, pieces, e, sound))
        | inl none ↦
            simp (none, read)
              (at_records ps carried pieces
                (e ∙ ap (λ xs. xs ++ concat ps) (empty-nil s.rx_plain none)) none)
      ]
    where
      at_records :
          (ps : List (List ℕ))
          → Carries t s.noise ps (to_come s)
          → All Piece ps
          → m ≡ concat ps
          → is_empty s.rx_plain ≡ true
          → ReadResult m s (and_then (drain_one_record t s) (pop_plain n))
      at_records [] nothing pieces e none =
          subst (λ m. ReadResult m s (and_then (drain_one_record t s) (pop_plain n))) (sym e)
            (Ended-ReadResult n s (drain_one_record t s) (empty-nil s.rx_plain none) nothing
              (drain_one_record-Ended t s nothing sound))
      at_records (p ∷ ps) carried pieces e none =
          subst (λ m. ReadResult m s (and_then (drain_one_record t s) (pop_plain n))) (sym e)
            (Drained-ReadResult n p ps s (drain_one_record t s) some_n (empty-nil s.rx_plain none)
              carried pieces (drain_one_record-Drained t p ps s carried sound))
