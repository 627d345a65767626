-- ===== src/Control/Noise/Draining.antt =====
-- `NoiseStream::drain_one_record`, however the inner stream's reads cut the records.
use tailscale_vita.Prelude.{
  ℕ, zero, suc, ◌+◌, ◌/◌, ◌%◌, ◌^◌, ◌≤◌, ◌<◌, ◌≡◌, refl, sym, ap, subst, ◌∙◌, inl, inr, true, List,
  [], ◌∷◌, ◌++◌, length, take, drop, get_or, length-append, length-drop, take-append, drop-append,
  take-append_le, drop-append_le, some, Result, ok, err, ltb, Bool-cases, arith,
}
use tailscale_vita.Prelude.Bytes.{be16, from_be16, from_be16-be16}
use tailscale_vita.Control.Noise.Stream.{
  Transport, NoiseStream, StreamError, msg_type_record, header_len, and_then, fill_until,
  take_record, after_header, drain_one_record,
}
use tailscale_vita.Control.Noise.Writing.{record_of, Carries}
use tailscale_vita.Control.Noise.Reading.{
  heard, failures, to_come, Sound, Filled, FillResult, widen, fill_from-FillResult,
}

get_or-append : (xs ys : List ℕ) (i : ℕ) → i < length xs → get_or (xs ++ ys) i 0 ≡ get_or xs i 0
get_or-append [] ys i h = absurd (omega arith)
get_or-append (x ∷ xs) ys zero h = refl
get_or-append (x ∷ xs) ys (suc i) h = get_or-append xs ys i (omega arith)

front :
    (n : ℕ) (xs ys zs later : List ℕ)
    → n ≡ length zs
    → xs ++ ys ≡ zs ++ later
    → n ≤ length xs
    → (take n xs ≡ zs) × (drop n xs ++ ys ≡ later)
front n xs ys zs later same e h = (
  sym (take-append_le n xs ys h)
      ∙ ap (take n) e
      ∙ ap (λ k. take k (zs ++ later)) same
      ∙ take-append zs later,
  sym (drop-append_le n xs ys h)
      ∙ ap (drop n) e
      ∙ ap (λ k. drop k (zs ++ later)) same
      ∙ drop-append zs later,
)

module _ {S E : Type 0} where
  after_fill :
      (P : Result (StreamError E) (Unit {0}) × NoiseStream S E → Type 0) (required : ℕ)
      (s : NoiseStream S E) (r : Result (StreamError E) (Unit {0}) × NoiseStream S E)
      (k : NoiseStream S E → Result (StreamError E) (Unit {0}) × NoiseStream S E)
      → FillResult required s r
      → ((e : StreamError E) (s' : NoiseStream S E)
          → FillResult required s (err e, s')
          → P (err e, s'))
      → ((s' : NoiseStream S E)
          → Filled s s'
          → required ≤ length s'.rx_buf
          → failures s'.reads ≤ failures s.reads
          → P (k s'))
      → P (and_then r k)
  after_fill P required s (ok tt, s') k (f, le, fewer) on_err on_ok = on_ok s' f le fewer
  after_fill P required s (err e, s') k f on_err on_ok = on_err e s' f

  -- Nothing is left to come: no record is taken.
  abbrev pub Ended : NoiseStream S E → Result (StreamError E) (Unit {0}) × NoiseStream S E → Type 0
  Ended s (ok u, s') = ⊥
  Ended s (err e, s') = FillResult 0 s (err e, s')

module _ {S E : Type 0} (t : Transport S) where
  -- One record, of plaintext `p`, is taken from what is to come, or none is.
  abbrev pub Drained :
      List ℕ
      → List (List ℕ)
      → NoiseStream S E
      → Result (StreamError E) (Unit {0}) × NoiseStream S E
      → Type 0
  Drained p ps s (ok u, s') =
      (s'.rx_plain ≡ s.rx_plain ++ p)
      × Carries t s'.noise ps (to_come s')
      × Sound s'
      × (failures s'.reads ≤ failures s.reads)
  Drained p ps s (err e, s') = FillResult 0 s (err e, s')

  Drained-earlier :
      (p : List ℕ) (ps : List (List ℕ)) (s s1 : NoiseStream S E)
      (r : Result (StreamError E) (Unit {0}) × NoiseStream S E)
      → Filled s s1
      → failures s1.reads ≤ failures s.reads
      → Drained p ps s1 r
      → Drained p ps s r
  Drained-earlier p ps s s1 (ok u, s') (n, plain, c, sound) fewer (grew, carried, sound', le) =
      (grew ∙ ap (λ xs. xs ++ p) plain, carried, sound', omega arith)
  Drained-earlier p ps s s1 (err e, s') (n, plain, c, sound) fewer d =
      widen 0 s s1 (err e, s') n plain c fewer d

  take_record-Drained :
      (p ct later : List ℕ) (ps : List (List ℕ)) (after : S) (s : NoiseStream S E)
      → t.read_message s.noise ct ≡ some (p, after)
      → to_come s ≡ record_of ct ++ later
      → Carries t after ps later
      → Sound s
      → header_len + length ct ≤ length s.rx_buf
      → Drained p ps s (take_record t (length ct) s)
  unfolding take_record
  take_record-Drained p ct later ps after s opens bytes carried sound filled =
      let (_, payload) =
        front header_len s.rx_buf (heard s.reads) (msg_type_record ∷ be16 (length ct)) (ct ++ later)
          refl bytes (omega arith) in
      let (is_ct, _) =
        front (length ct) (drop header_len s.rx_buf) (heard s.reads) ct later refl payload
          (omega (arith, length-drop header_len s.rx_buf)) in
      let (_, left) =
        front (header_len + length ct) s.rx_buf (heard s.reads) (record_of ct) later (omega arith)
          bytes filled in
      rw (is_ct, opens, take_record)
        (
          refl,
          subst (Carries t after ps) (sym left) carried,
          (sound.0, λ ended. absurd (not_ended (sound.1 ended))),
          omega arith,
        )
    where
      not_ended : to_come s ≡ [] → ⊥
      not_ended e = let both = sym bytes ∙ e in cc

  after_header-Drained :
      (p ct later : List ℕ) (ps : List (List ℕ)) (after : S) (s : NoiseStream S E)
      → t.read_message s.noise ct ≡ some (p, after)
      → length ct < 65536
      → to_come s ≡ record_of ct ++ later
      → Carries t after ps later
      → Sound s
      → header_len ≤ length s.rx_buf
      → Drained p ps s (after_header t s)
  unfolding after_header
  after_header-Drained p ct later ps after s opens fits bytes carried sound filled =
      rw (byte 0 (omega arith), length_is, after_header)
        (after_fill (Drained p ps s) (header_len + length ct) s
          (fill_until (header_len + length ct) s) (take_record t (length ct))
          (fill_from-FillResult (header_len + length ct) s.reads s refl sound (inl enough))
          (λ e s' f. f)
          (λ s1 f le fewer. Drained-earlier p ps s s1 (take_record t (length ct) s1) f fewer (
            take_record-Drained p ct later ps after s1 (ap (λ n. t.read_message n ct) f.0 ∙ opens)
              (f.2 ∙ bytes) carried f.3 le)))
    where
      byte : (i : ℕ) → i < 3 → get_or s.rx_buf i 0 ≡ get_or (record_of ct ++ later) i 0
      byte i h =
          sym (get_or-append s.rx_buf (heard s.reads) i (omega arith))
          ∙ ap (λ xs. get_or xs i 0) bytes

      length_is : from_be16 (get_or s.rx_buf 1 0) (get_or s.rx_buf 2 0) ≡ length ct
      length_is =
          ap (λ b. from_be16 b (get_or s.rx_buf 2 0)) (byte 1 (omega arith))
          ∙ ap (from_be16 (length ct / 2 ^ 8 % 256)) (byte 2 (omega arith))
          ∙ from_be16-be16 (length ct) fits

      enough : header_len + length ct ≤ length (to_come s)
      enough = omega (arith, ap (length {A = ℕ}) bytes, length-append (record_of ct) later)

  pub drain_one_record-Drained :
      (p : List ℕ) (ps : List (List ℕ)) (s : NoiseStream S E)
      → Carries t s.noise (p ∷ ps) (to_come s)
      → Sound s
      → Drained p ps s (drain_one_record t s)
  unfolding drain_one_record
  drain_one_record-Drained p ps s (ct, after, later, opens, fits, bytes, carried) sound =
      elim (Bool-cases (ltb (length s.rx_buf) header_len)) [
        | inr there ↦
            rw (there, drain_one_record)
              (after_header-Drained p ct later ps after s opens fits bytes carried sound
                (ground arith))
        | inl short ↦
            rw (short, drain_one_record)
              (after_fill (Drained p ps s) header_len s (fill_until header_len s) (after_header t)
                (fill_from-FillResult header_len s.reads s refl sound (inl enough)) (λ e s' f. f)
                (λ s1 f le fewer. Drained-earlier p ps s s1 (after_header t s1) f fewer (
                  after_header-Drained p ct later ps after s1
                    (ap (λ n. t.read_message n ct) f.0 ∙ opens) fits (f.2 ∙ bytes) carried f.3 le)))
      ]
    where
      enough : header_len ≤ length (to_come s)
      enough = omega (arith, ap (length {A = ℕ}) bytes)

  pub drain_one_record-Ended :
      (s : NoiseStream S E) → to_come s ≡ [] → Sound s → Ended s (drain_one_record t s)
  unfolding drain_one_record
  drain_one_record-Ended s nothing sound =
      rw (short, drain_one_record)
        (after_fill (Ended s) header_len s (fill_until header_len s) (after_header t)
          (fill_from-FillResult header_len s.reads s refl sound (inr nothing)) (λ e s' f. f)
          (λ s1 f le fewer. absurd (none s1 (f.2 ∙ nothing) le)))
    where
      measured : (s1 : NoiseStream S E) → to_come s1 ≡ [] → length s1.rx_buf ≡ 0
      measured s1 e = omega (arith, ap (length {A = ℕ}) e, length-append s1.rx_buf (heard s1.reads))

      none : (s1 : NoiseStream S E) → to_come s1 ≡ [] → header_len ≤ length s1.rx_buf → ⊥
      none s1 e le = omega (arith, measured s1 e)

      short : ltb (length s.rx_buf) header_len ≡ true
      short = let zero_long = measured s nothing in ground arith
