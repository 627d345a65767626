-- ===== src/Prelude/Bits.antt =====
-- `bit_and` with a run of ones at the top, as in the mask of a network prefix. The laws follow
-- from the digit recursion that the native operation stands for.
use Prim.Native.Nat.{
  ℕ, zero, suc, ◌+◌, ◌-◌, ◌*◌, ◌/◌, ◌%◌, ◌^◌, ◌≤◌, ◌<◌, min, bit_and, digits, bit_and-bitwise,
}
use mathlib.Core.Path.{◌≡◌, refl, ◌∙◌, sym, ap}
use mathlib.Core.Bool.{Bool, true, ◌&&◌}
use native.Mathlib.Omega.{arith}
use native.Mathlib.Nat.{pow-suc, mul_assoc, mul_comm, div-div-eq-div-mul, add-suc}

-- What `bit_and` is, with a bound on the number of digits.
abbrev masked_digits : (bound : ℕ) → ℕ → ℕ → ℕ
masked_digits bound x y = digits (λ t. zero) min bound x y

masked_digits_zero : (bound y : ℕ) → masked_digits bound 0 y ≡ 0
masked_digits_zero zero y = refl
masked_digits_zero (suc bound) y = refl

-- A bound above the first operand changes nothing.
masked_digits_slack :
    (bound slack x y : ℕ) → x ≤ bound → masked_digits (bound + slack) x y ≡ masked_digits bound x y
masked_digits_slack bound slack zero y le =
    masked_digits_zero (bound + slack) y ∙ sym (masked_digits_zero bound y)
masked_digits_slack zero slack (suc x) y le = absurd (omega arith)
masked_digits_slack (suc bound) slack (suc x) y le =
    let shift : suc bound + slack ≡ suc (bound + slack) = omega arith in
    rw shift (omega (arith, masked_digits_slack bound slack (suc x / 2) (y / 2) (omega arith)))

bit_and-zero_left : (y : ℕ) → bit_and 0 y ≡ 0
bit_and-zero_left y = bit_and-bitwise 0 y

-- The lowest digits apart.
pub bit_and_step : (x y : ℕ) → bit_and x y ≡ bit_and (x / 2) (y / 2) * 2 + min (x % 2) (y % 2)
bit_and_step zero y = omega (arith, bit_and-zero_left y, bit_and-zero_left (y / 2))
bit_and_step (suc x) y =
    let half : ℕ = suc x / 2 in
    let fits : half + (x - half) ≡ x = omega arith in
    let shorter : masked_digits x half (y / 2) ≡ masked_digits half half (y / 2) =
      rw fits at (masked_digits_slack half (x - half) half (y / 2) (omega arith)) in
    omega (arith, bit_and-bitwise (suc x) y, bit_and-bitwise half (y / 2), shorter)

-- `n` ones.
abbrev pub ones : ℕ → ℕ
ones zero = 0
ones (suc n) = ones n * 2 + 1

bit_and-ones : (n a : ℕ) → a < 2 ^ n → bit_and a (ones n) ≡ a
bit_and-ones zero a h = let e : a ≡ 0 = omega arith in rw e (bit_and-zero_left 0)
bit_and-ones (suc n) a h =
    let half : (ones n * 2 + 1) / 2 ≡ ones n = omega arith in
    let step = rw half at (bit_and_step a (ones n * 2 + 1)) in
    let small : a / 2 < 2 ^ n = omega (arith, pow-suc 2 n) in
    omega (arith, step, bit_and-ones n (a / 2) small)

-- `n` ones above `k` zeros.
pub bit_and-high : (k n a : ℕ) → a < 2 ^ (n + k) → bit_and a (ones n * 2 ^ k) ≡ a / 2 ^ k * 2 ^ k
bit_and-high zero n a h =
    let e : ones n * 1 ≡ ones n = omega arith in
    let small : a < 2 ^ n = (let z : n + 0 ≡ n = omega arith in rw z at h) in
    rw e (omega (arith, bit_and-ones n a small))
bit_and-high (suc k) n a h =
    let x : ℕ = ones n * 2 ^ suc k in
    let even : x ≡ ones n * 2 ^ k * 2 = rw (pow-suc 2 k) (sym (mul_assoc (ones n) (2 ^ k) 2)) in
    let half : x / 2 ≡ ones n * 2 ^ k = omega arith in
    let step = rw half at (bit_and_step a x) in
    let split : a / 2 / 2 ^ k ≡ a / 2 ^ suc k =
      div-div-eq-div-mul a 2 (2 ^ k) ∙ ap (λ d. a / d) (mul_comm 2 (2 ^ k) ∙ sym (pow-suc 2 k)) in
    let small : a / 2 < 2 ^ (n + k) = omega (arith, pow-suc 2 (n + k), (rw add-suc at h)) in
    let ih = rw split at (bit_and-high k n (a / 2) small) in
    omega (arith, step, ih, even, ap (λ (t : ℕ). a / 2 ^ suc k * t) (pow-suc 2 k))

-- A test that is evaluated at every number below a bound holds at each of them.
unfoldable pub holds_below : (ℕ → Bool) → (bound : ℕ) → Bool
holds_below test zero = true
holds_below test (suc bound) = holds_below test bound && test bound

pub holds_below-at :
    (test : ℕ → Bool) (bound i : ℕ) → i < bound → holds_below test bound ≡ true → test i ≡ true
unfolding holds_below
holds_below-at test zero i lt all = absurd (omega arith)
holds_below-at test (suc bound) i lt all = ground (arith, holds_below-at test bound i)
