-- ===== src/Control/Noise/Reading.antt =====
-- `NoiseStream::fill_until`, whatever the inner stream's reads return.
use tailscale_vita.Prelude.{
  ℕ, ◌+◌, ◌≤◌, ◌<◌, ◌≡◌, refl, sym, ap, subst, ◌∙◌, ◌⊎◌, inl, inr, Bool, true, false, List, [], ◌∷◌,
  ◌++◌, append_assoc, length, length-append, All, Result, ok, err, ltb, if◌then◌else◌, Bool-cases,
  arith,
}
use tailscale_vita.Control.Noise.Stream.{
  NoiseStream, ReadOutcome, gives, fails, StreamError, eof_mid_record, noise_decrypt, noise_encrypt,
  unexpected_msg_type, inner, fill_from,
}

module _ {E : Type 0} where
  abbrev pub heard : List (ReadOutcome E) → List ℕ
  heard [] = []
  heard (gives bytes ∷ later) = bytes ++ heard later
  heard (fails e ∷ later) = heard later

  abbrev pub failures : List (ReadOutcome E) → ℕ
  failures [] = 0
  failures (gives bytes ∷ later) = failures later
  failures (fails e ∷ later) = failures later + 1

  -- Until the peer is gone, no read returns `Ok(0)`.
  abbrev pub Open : ReadOutcome E → Type 0
  Open (gives []) = ⊥
  Open (gives (b ∷ bs)) = Unit
  Open (fails e) = Unit

append-none : (xs ys : List ℕ) → 0 < length xs → xs ++ ys ≡ [] → ⊥
append-none [] ys h e = omega arith
append-none (x ∷ xs) ys h e = cc

either_way :
    {R : Type 0} (P : R → Type 0) (x y : Bool) (a b c : R)
    → (x ≡ true → y ≡ true → P a)
    → (x ≡ true → y ≡ false → P b)
    → (x ≡ false → P c)
    → P (if x then (if y then a else b) else c)
either_way P true true a b c f g h = f refl refl
either_way P true false a b c f g h = g refl refl
either_way P false y a b c f g h = h refl

module _ {S E : Type 0} where
  abbrev pub to_come : NoiseStream S E → List ℕ
  to_come s = s.rx_buf ++ heard s.reads

  -- `eof` is seen only when nothing is left of what was sent.
  abbrev pub Sound : NoiseStream S E → Type 0
  Sound s = All Open s.reads × (s.eof ≡ true → to_come s ≡ [])

  -- `s` has become `s'` by reading from the inner stream, and nothing else.
  abbrev pub Filled : NoiseStream S E → NoiseStream S E → Type 0
  Filled s s' =
      (s'.noise ≡ s.noise) × (s'.rx_plain ≡ s.rx_plain) × (to_come s' ≡ to_come s) × Sound s'

  -- A read of the inner stream failed, which is used up, or there is nothing to read.
  abbrev pub Excused : NoiseStream S E → StreamError E → NoiseStream S E → Type 0
  Excused s eof_mid_record s' = (to_come s ≡ []) × (failures s'.reads ≤ failures s.reads)
  Excused s (inner e) s' = failures s'.reads < failures s.reads
  Excused s _ s' = ⊥

  abbrev pub FillResult :
      ℕ → NoiseStream S E → Result (StreamError E) (Unit {0}) × NoiseStream S E → Type 0
  FillResult required s (ok u, s') =
      Filled s s' × (required ≤ length s'.rx_buf) × (failures s'.reads ≤ failures s.reads)
  FillResult required s (err e, s') = Filled s s' × Excused s e s'

  pub widen :
      (required : ℕ) (s s1 : NoiseStream S E)
      (r : Result (StreamError E) (Unit {0}) × NoiseStream S E)
      → s1.noise ≡ s.noise
      → s1.rx_plain ≡ s.rx_plain
      → to_come s1 ≡ to_come s
      → failures s1.reads ≤ failures s.reads
      → FillResult required s1 r
      → FillResult required s r
  widen required s s1 (ok u, s') noise plain stream fewer ((n, p, c, sound), filled, le) =
      ((n ∙ noise, p ∙ plain, c ∙ stream, sound), filled, omega arith)
  widen required s s1 (err eof_mid_record, s') noise plain stream fewer
        ((n, p, c, sound), (ended, le)) =
      ((n ∙ noise, p ∙ plain, c ∙ stream, sound), (sym stream ∙ ended, omega arith))
  widen required s s1 (err noise_decrypt, s') noise plain stream fewer (filled, never) =
      absurd never
  widen required s s1 (err noise_encrypt, s') noise plain stream fewer (filled, never) =
      absurd never
  widen required s s1 (err (unexpected_msg_type b), s') noise plain stream fewer (filled, never) =
      absurd never
  widen required s s1 (err (inner e), s') noise plain stream fewer ((n, p, c, sound), lt) =
      ((n ∙ noise, p ∙ plain, c ∙ stream, sound), omega arith)

  -- Both ways in which a read of the inner stream is not made.
  full_already :
      (required : ℕ) (s : NoiseStream S E)
      → Sound s
      → ltb (length s.rx_buf) required ≡ false
      → FillResult required s (ok tt, s)
  full_already required s sound full = ((refl, refl, refl, sound), ground arith, omega arith)

  ended_already :
      (required : ℕ) (s : NoiseStream S E)
      → Sound s
      → s.eof ≡ true
      → FillResult required s (err eof_mid_record, s)
  ended_already required s sound ended = ((refl, refl, refl, sound), (sound.1 ended, omega arith))

  ends :
      (required : ℕ) (s : NoiseStream S E)
      → s.reads ≡ []
      → (required ≤ length (to_come s)) ⊎ (to_come s ≡ [])
      → length s.rx_buf < required
      → FillResult required s (err eof_mid_record, record s { eof = true; reads = [] })
  ends required s same enough short =
      ((refl, refl, stream, (tt, λ e. stream ∙ nothing)), (nothing, omega arith))
    where
      stream : s.rx_buf ++ [] ≡ to_come s
      stream = ap (λ rs. s.rx_buf ++ heard rs) (sym same)

      nothing : to_come s ≡ []
      nothing = elim enough [
        | inl le ↦
            let all = ap (λ rs. length (s.rx_buf ++ heard rs)) same in
            absurd (omega (arith, le, short, all, length-append s.rx_buf []))
        | inr e ↦ e
      ]

  unless_full :
      (required : ℕ) (s : NoiseStream S E)
      (more : Result (StreamError E) (Unit {0}) × NoiseStream S E)
      → Sound s
      → (length s.rx_buf < required → s.eof ≡ false → FillResult required s more)
      → FillResult required s (
          if ltb (length s.rx_buf) required
          then (if s.eof then (err eof_mid_record, s) else more)
          else (ok tt, s))
  unless_full required s more sound k =
      either_way (FillResult required s) (ltb (length s.rx_buf) required) s.eof
        (err eof_mid_record, s) more (ok tt, s)
        (λ short ended. ended_already required s sound ended) (λ short live. k (ground arith) live)
        (full_already required s sound)

  pub fill_from-FillResult :
      (required : ℕ) (reads : List (ReadOutcome E)) (s : NoiseStream S E)
      → s.reads ≡ reads
      → Sound s
      → (required ≤ length (to_come s)) ⊎ (to_come s ≡ [])
      → FillResult required s (fill_from required reads s)
  unfolding fill_from
  fill_from-FillResult required [] s same sound enough =
      elim (Bool-cases (ltb (length s.rx_buf) required)) [
        | inr full ↦ rw (full, fill_from) (full_already required s sound full)
        | inl short ↦ rw (short, fill_from) (ends required s same enough (ground arith))
      ]
  fill_from-FillResult required (gives [] ∷ later) s same sound enough =
      absurd ((subst (All (Open {E = E})) same sound.0).0)
  fill_from-FillResult required (gives (b ∷ bs) ∷ later) s same sound enough =
      let filled =
        fill_from required later (record s { rx_buf = s.rx_buf ++ b ∷ bs; reads = later }) in
      unless_full required s filled sound (λ short live.
        widen required s (record s { rx_buf = s.rx_buf ++ b ∷ bs; reads = later }) filled refl refl
          stream (omega (arith, ap failures same))
          (fill_from-FillResult required later
            (record s { rx_buf = s.rx_buf ++ b ∷ bs; reads = later }) refl
            ((subst (All (Open {E = E})) same sound.0).1, λ e. absurd (cc))
            (subst (λ xs. (required ≤ length xs) ⊎ (xs ≡ [])) (sym stream) enough)))
    where
      stream : (s.rx_buf ++ b ∷ bs) ++ heard later ≡ to_come s
      stream =
          append_assoc s.rx_buf (b ∷ bs) (heard later) ∙ ap (λ rs. s.rx_buf ++ heard rs) (sym same)
  fill_from-FillResult required (fails e ∷ later) s same sound enough =
      unless_full required s (err (inner e), record s { reads = later }) sound
        (λ short live. (
          (
            refl,
            refl,
            ap (λ rs. s.rx_buf ++ heard rs) (sym same),
            ((subst (All (Open {E = E})) same sound.0).1, λ e. absurd (cc)),
          ),
          omega (arith, ap failures same),
        ))
