-- ===== src/Prelude/Keys.antt =====
-- Maps by what a lookup finds: keys that stand once, keys that are there.
use mathlib.Core.Path.{◌≡◌, refl, ◌∙◌, sym, ap, subst}
use mathlib.Core.Logic.{◌⊎◌, inl, inr, ◌≢◌}
use mathlib.Core.Bool.{Bool, true, false}
use mathlib.Core.List.{List, [], ◌∷◌}
use mathlib.Core.Option.{none, some}
use native.Mathlib.Omega.{arith}
use tailscale_vita.Prelude.Tests.{Eq, ◌==◌, beq_self, Bool-cases}
use tailscale_vita.Prelude.Lists.{All, Any, filter}
use tailscale_vita.Prelude.Maps.{
  lookup, insert, remove, keys, lookup-insert, lookup-remove, lookup-insert_self,
}

pub some-injective {ℓ} : {A : Type ℓ} {a b : A} → some a ≡ some b → a ≡ b
some-injective {A} {a} p = ap (λ o. elim o [ none ↦ a | some x ↦ x ]) p

pub none-some {ℓ} : {A : Type ℓ} {a : A} → none ≡ some a → ⊥
none-some p = cc

module _ {ℓ κ} {K : Type ℓ} {V : Type κ} ⦃e : Eq K⦄ where
  -- Each key stands once.
  abbrev pub Unique : List (K × V) → Type κ
  Unique [] = Unit
  Unique ((at, value) ∷ rest) = (lookup at rest ≡ none) × Unique rest

  pub insert-Unique :
      (key : K) (value : V) (m : List (K × V)) → Unique m → Unique (insert key value m)
  unfolding insert
  insert-Unique key value [] u = (unfold lookup in refl, tt)
  insert-Unique key value ((at, old) ∷ rest) (n, u) = elim (Bool-cases (at == key)) [
    | inl same ↦ rw same (n, u)
    | inr other ↦
        let apart : (key == at) ≡ false = ground (arith, e.beq_iff at key, e.beq_iff key at) in
        rw other (lookup-insert key at value rest ∙ rw apart n, insert-Unique key value rest u)
  ]

  pub remove-Unique : (key : K) (m : List (K × V)) → Unique m → Unique (remove key m)
  unfolding remove
  remove-Unique key [] u = tt
  remove-Unique key ((at, old) ∷ rest) (n, u) = elim (Bool-cases (at == key)) [
    | inl same ↦ rw same (remove-Unique key rest u)
    | inr other ↦
        let apart : (key == at) ≡ false = ground (arith, e.beq_iff at key, e.beq_iff key at) in
        rw other (lookup-remove key at rest ∙ rw apart n, remove-Unique key rest u)
  ]

  -- What holds of every key and value that a lookup finds holds of every entry.
  pub Unique-All {μ} :
      (P : K → V → Type μ) (m : List (K × V))
      → Unique m
      → ((key : K) (value : V) → lookup key m ≡ some value → P key value)
      → All (λ (key, value). P key value) m
  unfolding lookup
  Unique-All P [] u h = tt
  Unique-All P ((at, value) ∷ rest) (n, u) h = (
    h at value (rw (beq_self at) refl),
    Unique-All P rest u (λ k v l. h k v (elim (Bool-cases (at == k)) [
      | inl same ↦ absurd (ground (arith, e.beq_iff at k))
      | inr other ↦ rw other l
    ])),
  )

  -- What a lookup finds after an insertion: the new value at its key, or an old one elsewhere.
  pub insert-cases :
      (key other : K) (value found : V) (m : List (K × V))
      → lookup other (insert key value m) ≡ some found
      → ((key ≡ other) × (value ≡ found)) ⊎ ((key ≢ other) × (lookup other m ≡ some found))
  insert-cases key other value found m l =
      let law = lookup-insert key other value m in
      elim (Bool-cases (key == other)) [
        | inl same ↦ inl ((e.beq_iff key other).0 same, some-injective (sym (rw same at law) ∙ l))
        | inr apart ↦
            inr (λ eq. absurd (ground (arith, e.beq_iff key other)), sym (rw apart at law) ∙ l)
      ]

  pub remove-cases :
      (key other : K) (found : V) (m : List (K × V))
      → lookup other (remove key m) ≡ some found
      → (key ≢ other) × (lookup other m ≡ some found)
  remove-cases key other found m l =
      let law = lookup-remove key other m in
      elim (Bool-cases (key == other)) [
        | inl same ↦ absurd (none-some (sym (rw same at law) ∙ l))
        | inr apart ↦
            (λ eq. absurd (ground (arith, e.beq_iff key other)), sym (rw apart at law) ∙ l)
      ]

  -- The key is there.
  abbrev pub Has : K → List (K × V) → Type κ
  Has key m = (value : V) × (lookup key m ≡ some value)

  pub insert-Has :
      (key other : K) (value : V) (m : List (K × V)) → Has other m → Has other (insert key value m)
  insert-Has key other value m (v, l) = elim (Bool-cases (key == other)) [
    | inl same ↦ (value, lookup-insert key other value m ∙ rw same refl)
    | inr apart ↦ (v, lookup-insert key other value m ∙ rw apart l)
  ]

  pub insert-Has_self : (key : K) (value : V) (m : List (K × V)) → Has key (insert key value m)
  insert-Has_self key value m = (value, lookup-insert_self key value m)

  pub lookup-filter-none :
      (p : K × V → Bool) (key : K) (m : List (K × V))
      → lookup key m ≡ none
      → lookup key (filter p m) ≡ none
  unfolding lookup filter
  lookup-filter-none p key [] n = n
  lookup-filter-none p key ((at, value) ∷ rest) n = elim (Bool-cases (at == key)) [
    | inl same ↦ absurd (none-some (sym (rw same at n)))
    | inr apart ↦ elim (Bool-cases (p (at, value))) [
      | inl keep ↦ rw keep (rw apart (lookup-filter-none p key rest (rw apart at n)))
      | inr out ↦ rw out (lookup-filter-none p key rest (rw apart at n))
    ]
  ]

  pub filter-Unique : (p : K × V → Bool) (m : List (K × V)) → Unique m → Unique (filter p m)
  unfolding filter
  filter-Unique p [] u = tt
  filter-Unique p ((at, value) ∷ rest) (n, u) = elim (Bool-cases (p (at, value))) [
    | inl keep ↦ rw keep (lookup-filter-none p at rest n, filter-Unique p rest u)
    | inr out ↦ rw out (filter-Unique p rest u)
  ]

  -- What a lookup finds in a filtered map with one entry per key passed the filter.
  pub filter-cases :
      (p : K × V → Bool) (key : K) (value : V) (m : List (K × V))
      → Unique m
      → lookup key (filter p m) ≡ some value
      → (p (key, value) ≡ true) × (lookup key m ≡ some value)
  unfolding lookup filter
  filter-cases p key value [] u l = absurd (none-some l)
  filter-cases p key value ((at, w) ∷ rest) (n, u) l = elim (Bool-cases (p (at, w))) [
    | inl keep ↦ elim (Bool-cases (at == key)) [
      | inl same ↦
          let eq : at ≡ key = (e.beq_iff at key).0 same in
          let v : w ≡ value = some-injective (rw (keep, same) at l) in
          (ap p (sym (ap (λ k. (k, w)) eq ∙ ap (λ v. (key, v)) v)) ∙ keep, rw same (rw v refl))
      | inr apart ↦
          let (h, l') = filter-cases p key value rest u (rw (keep, apart) at l) in (h, rw apart l')
    ]
    | inr out ↦ elim (Bool-cases (at == key)) [
      | inl same ↦
          let eq : at ≡ key = (e.beq_iff at key).0 same in
          absurd (
            none-some (
              sym (lookup-filter-none p key rest (subst (λ k. lookup k rest ≡ none) eq n))
              ∙ rw out at l))
      | inr apart ↦ let (h, l') = filter-cases p key value rest u (rw out at l) in (h, rw apart l')
    ]
  ]

module _ {κ} {K : Type 0} {V : Type κ} ⦃e : Eq K⦄ where
  pub keys-Has : (key : K) (m : List (K × V)) → Any (λ k. k ≡ key) (keys m) → Has key m
  unfolding lookup
  keys-Has key [] h = absurd h
  keys-Has key ((at, value) ∷ rest) (inl eq) =
      (value, rw (ap (λ k. k == key) eq ∙ beq_self key) refl)
  keys-Has key ((at, value) ∷ rest) (inr h) = elim (Bool-cases (at == key)) [
    | inl same ↦ (value, rw same refl)
    | inr apart ↦ let (v, l) = keys-Has key rest h in (v, rw apart l)
  ]
