-- ===== src/Prelude/Lists.antt =====
-- Lists measured and indexed by native numbers, and a few loops over lists.
use Prim.Native.Nat.{ℕ, zero, suc, ◌+◌, ◌-◌, ◌≤◌, min}
use mathlib.Core.Path.{◌≡◌, refl, ap, subst}
use mathlib.Core.Logic.{◌⊎◌, ◌↔◌, inl, inr}
use mathlib.Core.Bool.{Bool, true, false, ◌||◌}
use mathlib.Core.List.{List, [], ◌∷◌, ◌++◌, map}
use mathlib.Core.Option.{Option, none, some}
use native.Mathlib.Omega.{arith}
use tailscale_vita.Prelude.Tests.{
  or-true, or-true_left, or-true_right, Eq, ◌==◌, leb, if◌then◌else◌,
}

module _ {ℓ} {A : Type ℓ} where
  abbrev pub length : List A → ℕ
  length [] = 0
  length (x ∷ xs) = suc (length xs)

  abbrev pub get_elem? : List A → ℕ → Option A
  get_elem? [] i = none
  get_elem? (x ∷ xs) zero = some x
  get_elem? (x ∷ xs) (suc i) = get_elem? xs i

  abbrev pub get_or : List A → ℕ → A → A
  get_or [] i d = d
  get_or (x ∷ xs) zero d = x
  get_or (x ∷ xs) (suc i) d = get_or xs i d

  abbrev pub take : ℕ → List A → List A
  take zero xs = []
  take (suc n) [] = []
  take (suc n) (x ∷ xs) = x ∷ take n xs

  abbrev pub drop : ℕ → List A → List A
  drop zero xs = xs
  drop (suc n) [] = []
  drop (suc n) (x ∷ xs) = drop n xs

  abbrev pub is_empty : List A → Bool
  is_empty [] = true
  is_empty (x ∷ xs) = false

  -- Rust's `iter().any`.
  unfoldable pub any : (A → Bool) → List A → Bool
  any p [] = false
  any p (x ∷ xs) = p x || any p xs

  -- Rust's `iter().filter_map(f).collect()`.
  unfoldable pub filter_map {κ} : {B : Type κ} → (A → Option B) → List A → List B
  filter_map f [] = []
  filter_map f (x ∷ xs) =
      let rest = filter_map f xs in elim (f x) [ none ↦ rest | some y ↦ y ∷ rest ]

  -- Rust's `iter().filter(p).collect()`, and `retain`.
  unfoldable pub filter : (A → Bool) → List A → List A
  filter p [] = []
  filter p (x ∷ xs) = let rest = filter p xs in if p x then x ∷ rest else rest

  -- `for x in xs { body }`, on a state.
  unfoldable pub for_each {κ} : {S : Type κ} → (A → S → S) → List A → S → S
  for_each body [] s = s
  for_each body (x ∷ xs) s = for_each body xs (body x s)

  -- Rust's `iter().min_by_key(f)`: the first of the least.
  unfoldable pub min_by_key : (A → ℕ) → List A → Option A
  min_by_key f [] = none
  min_by_key f (x ∷ xs) = elim (min_by_key f xs) [
    | none ↦ some x
    | some y ↦ if leb (f x) (f y) then some x else some y
  ]

  abbrev pub All {κ} : (A → Type κ) → List A → Type κ
  All P [] = Unit {κ}
  All P (x ∷ xs) = P x × All P xs

  -- Some element satisfies `P`; the element is kept.
  abbrev pub Any : (A → Type 0) → List A → Type 0
  Any P [] = ⊥
  Any P (x ∷ xs) = P x ⊎ Any P xs

  pub length-append : (xs ys : List A) → length (xs ++ ys) ≡ length xs + length ys
  length-append [] ys = omega arith
  length-append (x ∷ xs) ys = omega (arith, length-append xs ys)

  pub take-append-drop : (n : ℕ) (xs : List A) → take n xs ++ drop n xs ≡ xs
  take-append-drop zero xs = refl
  take-append-drop (suc n) [] = refl
  take-append-drop (suc n) (x ∷ xs) = rw (take-append-drop n xs)

  pub length-take : (n : ℕ) (xs : List A) → length (take n xs) ≡ min n (length xs)
  length-take zero xs = omega arith
  length-take (suc n) [] = omega arith
  length-take (suc n) (x ∷ xs) = omega (arith, length-take n xs)

  pub length-drop : (n : ℕ) (xs : List A) → length (drop n xs) ≡ length xs - n
  length-drop zero xs = omega arith
  length-drop (suc n) [] = omega arith
  length-drop (suc n) (x ∷ xs) = omega (arith, length-drop n xs)

  -- Taking and dropping at the length of a known front.
  pub take-append : (xs ys : List A) → take (length xs) (xs ++ ys) ≡ xs
  take-append [] ys = refl
  take-append (x ∷ xs) ys = rw (take-append xs ys)

  pub drop-append : (xs ys : List A) → drop (length xs) (xs ++ ys) ≡ ys
  drop-append [] ys = refl
  drop-append (x ∷ xs) ys = drop-append xs ys

  pub take-append_le : (n : ℕ) (xs ys : List A) → n ≤ length xs → take n (xs ++ ys) ≡ take n xs
  take-append_le zero xs ys h = refl
  take-append_le (suc n) [] ys h = absurd (omega arith)
  take-append_le (suc n) (x ∷ xs) ys h = ap (◌∷◌ x) (take-append_le n xs ys (omega arith))

  pub drop-append_le :
      (n : ℕ) (xs ys : List A) → n ≤ length xs → drop n (xs ++ ys) ≡ drop n xs ++ ys
  drop-append_le zero xs ys h = refl
  drop-append_le (suc n) [] ys h = absurd (omega arith)
  drop-append_le (suc n) (x ∷ xs) ys h = drop-append_le n xs ys (omega arith)

  pub All-append {κ} : (P : A → Type κ) (xs ys : List A) → All P xs → All P ys → All P (xs ++ ys)
  All-append P [] ys h k = k
  All-append P (x ∷ xs) ys h k = (h.0, All-append P xs ys h.1 k)

  pub All-append_left {κ} : (P : A → Type κ) (xs ys : List A) → All P (xs ++ ys) → All P xs
  All-append_left P [] ys h = tt
  All-append_left P (x ∷ xs) ys h = (h.0, All-append_left P xs ys h.1)

  pub All-append_right {κ} : (P : A → Type κ) (xs ys : List A) → All P (xs ++ ys) → All P ys
  All-append_right P [] ys h = h
  All-append_right P (x ∷ xs) ys h = All-append_right P xs ys h.1

  pub any-append : (p : A → Bool) (xs ys : List A) → any p (xs ++ ys) ≡ (any p xs || any p ys)
  unfolding any
  any-append p [] ys = refl
  any-append p (x ∷ xs) ys = ground (arith, any-append p xs ys)

module _ {ℓ} {A : Type ℓ} ⦃e : Eq A⦄ where
  -- Rust's `contains`.
  unfoldable pub contains : List A → A → Bool
  unfolding any
  contains xs a = any (λ x. x == a) xs

module _ {ℓ} {A : Type ℓ} (p : A → Bool) (P Q : A → Type 0)
    (test : (x : A) → Q x → (p x ≡ true) ↔ P x) where
  -- A Boolean search finds an element exactly when there is one.
  pub any_iff : (xs : List A) → All Q xs → (any p xs ≡ true) ↔ Any P xs
  unfolding any
  any_iff [] h = (λ e. absurd (cc), λ n. absurd n)
  any_iff (x ∷ xs) h = (
    λ e. elim (or-true _ _ e) [
      | inl a ↦ inl ((test x h.0).0 a)
      | inr b ↦ inr ((any_iff xs h.1).0 b)
    ],
    elim [
      | inl a ↦ or-true_left _ _ ((test x h.0).1 a)
      | inr b ↦ or-true_right _ _ ((any_iff xs h.1).1 b)
    ],
  )

All-unit {ℓ} : {A : Type ℓ} (xs : List A) → All (λ x. Unit {0}) xs
All-unit [] = tt
All-unit (x ∷ xs) = (tt, All-unit xs)

pub contains-Any :
    {A : Type 0} ⦃e : Eq A⦄ (xs : List A) (a : A) → (contains xs a ≡ true) ↔ Any (λ x. x ≡ a) xs
unfolding contains
contains-Any ⦃e⦄ xs a =
    any_iff (λ x. x == a) (λ x. x ≡ a) (λ x. Unit {0}) (λ x u. e.beq_iff x a) xs (All-unit xs)

-- An element that is equal to `a` and satisfies `P`: `a` is in the list and satisfies `P`.
pub Any-pin :
    {A : Type 0} (P : A → Type 0) (a : A) (xs : List A)
    → Any (λ x. (x ≡ a) × P x) xs
    → Any (λ x. x ≡ a) xs × P a
Any-pin P a [] h = absurd h
Any-pin P a (x ∷ xs) (inl (e, p)) = (inl e, subst P e p)
Any-pin P a (x ∷ xs) (inr h) = let (m, p) = Any-pin P a xs h in (inr m, p)

pub append-Any : {A : Type 0} (P : A → Type 0) (xs ys : List A) → Any P xs → Any P (xs ++ ys)
append-Any P [] ys h = absurd h
append-Any P (x ∷ xs) ys (inl p) = inl p
append-Any P (x ∷ xs) ys (inr h) = inr (append-Any P xs ys h)

pub Any-append :
    {A : Type 0} (P : A → Type 0) (xs ys : List A) → Any P (xs ++ ys) → Any P xs ⊎ Any P ys
Any-append P [] ys h = inr h
Any-append P (x ∷ xs) ys (inl p) = inl (inl p)
Any-append P (x ∷ xs) ys (inr h) = elim (Any-append P xs ys h) [
  | inl a ↦ inl (inr a)
  | inr b ↦ inr b
]

pub Any-map :
    {A B : Type 0} (P : B → Type 0) (f : A → B) (xs : List A)
    → Any P (map f xs)
    → Any (λ x. P (f x)) xs
Any-map P f [] h = h
Any-map P f (x ∷ xs) (inl p) = inl p
Any-map P f (x ∷ xs) (inr h) = inr (Any-map P f xs h)

pub Any-mono :
    {A : Type 0} {P Q : A → Type 0} (f : (x : A) → P x → Q x) (xs : List A) → Any P xs → Any Q xs
Any-mono f [] h = absurd h
Any-mono f (x ∷ xs) (inl p) = inl (f x p)
Any-mono f (x ∷ xs) (inr h) = inr (Any-mono f xs h)

-- What every turn of a loop keeps, the loop keeps.
pub for_each-keeps {ℓ κ μ} :
    {A : Type ℓ} {S : Type κ} (P : S → Type μ) (body : A → S → S)
    (keeps : (x : A) (s : S) → P s → P (body x s)) (xs : List A) (s : S)
    → P s
    → P (for_each body xs s)
unfolding for_each
for_each-keeps P body keeps [] s h = h
for_each-keeps P body keeps (x ∷ xs) s h = for_each-keeps P body keeps xs (body x s) (keeps x s h)
