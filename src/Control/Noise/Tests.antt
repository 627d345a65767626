-- ===== src/Control/Noise/Tests.antt =====
-- The theorem on records at a concrete session.
use tailscale_vita.Prelude.{
  ℕ, ◌+◌, ◌-◌, ◌≡◌, refl, ap, List, [], ◌∷◌, ◌++◌, length, take, drop, get_or, length-append,
  take-append, drop-append, true, none, some, ok, eqb, if◌then◌else◌, arith,
}
use tailscale_vita.Control.Noise.Stream.{
  Transport, ReadOutcome, gives, fails, new, chunks, chunks_on, write, write_chunks, write_record,
}
use tailscale_vita.Control.Noise.Writing.{Seals}
use tailscale_vita.Control.Noise.Trip.{read_all, ReadsOf, read_all-write}

-- A cipher that appends sixteen times the number of the message.
abbrev tag : ℕ → List ℕ
tag n = n ∷ n ∷ n ∷ n ∷ n ∷ n ∷ n ∷ n ∷ n ∷ n ∷ n ∷ n ∷ n ∷ n ∷ n ∷ n ∷ []

abbrev numbered : Transport ℕ
numbered = record {
  write_message = λ n p. some (p ++ tag n, n + 1);
  read_message = λ n ct.
      if eqb (get_or (drop (length ct - 16) ct) 0 0) n
      then some (take (length ct - 16) ct, n + 1)
      else none;
}

abbrev InStep : ℕ → ℕ → ℕ → Type 0
InStep left w r = w ≡ r

numbered-Seals : Seals numbered InStep
numbered-Seals left w r p fits same = (
  p ++ tag w,
  w + 1,
  r + 1,
  refl,
  rw (shorter, drop-append p (tag w), take-append p (tag w), is_next) refl,
  length-append p (tag w),
  ap (λ n. n + 1) same,
)
  where
    shorter : length (p ++ tag w) - 16 ≡ length p
    shorter = omega (arith, length-append p (tag w))

    is_next : eqb w r ≡ true
    is_next = ground arith

-- The record comes in two pieces, with a timeout between them.
abbrev cut : List (ReadOutcome ℕ)
cut = gives (4 ∷ 0 ∷ 19 ∷ 7 ∷ []) ∷ fails 110 ∷ gives (8 ∷ 9 ∷ tag 3) ∷ []

read_all-write_example :
    ((write numbered (7 ∷ 8 ∷ 9 ∷ []) (new {E = ℕ} 3 [] [] [])).0 ≡ ok 3)
    × ReadsOf (7 ∷ 8 ∷ 9 ∷ []) 4 (read_all numbered (2 ∷ 2 ∷ 2 ∷ []) (new 3 [] cut [])).0
unfolding write write_chunks write_record chunks chunks_on
read_all-write_example =
    read_all-write numbered InStep numbered-Seals (7 ∷ 8 ∷ 9 ∷ []) 1 3 3 cut (2 ∷ 2 ∷ 2 ∷ [])
      (omega arith) refl (tt, (tt, (tt, tt))) refl (omega arith, (omega arith, (omega arith, tt)))
