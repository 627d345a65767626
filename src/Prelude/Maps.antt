-- ===== src/Prelude/Maps.antt =====
-- Rust's `HashMap` as an association list in order of insertion. The code never depends on the
-- order in which a map is walked.
use mathlib.Core.Path.{◌≡◌, refl}
use mathlib.Core.Bool.{Bool, true, false}
use mathlib.Core.List.{List, [], ◌∷◌}
use mathlib.Core.Option.{Option, none, some}
use native.Mathlib.Omega.{arith}
use tailscale_vita.Prelude.Tests.{if◌then◌else◌, Eq, ◌==◌, beq_self}

module _ {ℓ κ} {K : Type ℓ} {V : Type κ} ⦃e : Eq K⦄ where
  -- `get`, without its reference.
  unfoldable pub lookup : K → List (K × V) → Option V
  lookup key [] = none
  lookup key ((at, value) ∷ rest) = if at == key then some value else lookup key rest

  -- A key that is there keeps its place.
  unfoldable pub insert : K → V → List (K × V) → List (K × V)
  insert key value [] = (key, value) ∷ []
  insert key value ((at, old) ∷ rest) =
      if at == key then (at, value) ∷ rest else (at, old) ∷ insert key value rest

  unfoldable pub remove : K → List (K × V) → List (K × V)
  remove key [] = []
  remove key ((at, old) ∷ rest) =
      let removed = remove key rest in if at == key then removed else (at, old) ∷ removed

  abbrev pub contains_key : K → List (K × V) → Bool
  contains_key key m = elim (lookup key m) [ none ↦ false | some value ↦ true ]

  abbrev pub keys : List (K × V) → List K
  keys [] = []
  keys ((at, value) ∷ rest) = at ∷ keys rest

  -- The laws are in `if` form, without side conditions.
  pub lookup-insert :
      (key other : K) (value : V) (entries : List (K × V))
      → lookup other (insert key value entries)
        ≡ (if key == other then some value else lookup other entries)
  unfolding lookup insert
  lookup-insert key other value [] = refl
  lookup-insert key other value ((at, old) ∷ rest) =
      let ih = lookup-insert key other value rest in
      ground (arith, ih, e.beq_iff at other, e.beq_iff at key, e.beq_iff key other)

  pub lookup-remove :
      (k j : K) (m : List (K × V)) → lookup j (remove k m) ≡ (if k == j then none else lookup j m)
  unfolding lookup remove
  lookup-remove k j [] = ground arith
  lookup-remove k j ((i, w) ∷ m) =
      ground (arith, e.beq_iff k j, e.beq_iff i k, e.beq_iff i j, lookup-remove k j m)

  pub lookup-insert_self : (k : K) (v : V) (m : List (K × V)) → lookup k (insert k v m) ≡ some v
  lookup-insert_self k v m = rw (lookup-insert k k v m, beq_self k)

  pub lookup-remove_self : (k : K) (m : List (K × V)) → lookup k (remove k m) ≡ none
  lookup-remove_self k m = rw (lookup-remove k k m, beq_self k)
