-- ===== src/Wg/Indices/Sorting.antt =====
-- `sort` orders the routes and keeps them; `retain_others` keeps the order.
use tailscale_vita.Prelude.{
  ℕ, ◌≤◌, ◌≢◌, ◌⊎◌, inl, inr, List, [], ◌∷◌, ltb, All, Any, arith, ◌==◌, nat_eq, list_eq,
  list_beq_iff, Bool-cases, ltb→lt,
}
use tailscale_vita.Wg.Peer.{Key}
use tailscale_vita.Wg.Indices.Routes.{Route, put, sort, retain_others}

abbrev pub AtMost : ℕ → List Route → Type 0
AtMost n rs = All (λ r. r.0.prefix ≤ n) rs

-- Descending prefixes.
abbrev pub IsSorted : List Route → Type 0
IsSorted [] = Unit
IsSorted (r ∷ rs) = AtMost r.0.prefix rs × IsSorted rs

AtMost-mono : (m n : ℕ) (rs : List Route) → m ≤ n → AtMost m rs → AtMost n rs
AtMost-mono m n [] h k = tt
AtMost-mono m n (r ∷ rs) h k = (omega arith, AtMost-mono m n rs h k.1)

put-AtMost :
    (r : Route) (rs : List Route) (n : ℕ) → r.0.prefix ≤ n → AtMost n rs → AtMost n (put r rs)
unfolding put
put-AtMost r [] n h k = (h, tt)
put-AtMost r (s ∷ rs) n h k = elim (Bool-cases (ltb r.0.prefix s.0.prefix)) [
  | inl e ↦ rw e (k.0, put-AtMost r rs n h k.1)
  | inr e ↦ rw e (h, k)
]

put-IsSorted : (r : Route) (rs : List Route) → IsSorted rs → IsSorted (put r rs)
unfolding put
put-IsSorted r [] h = (tt, tt)
put-IsSorted r (s ∷ rs) h = elim (Bool-cases (ltb r.0.prefix s.0.prefix)) [
  | inl e ↦
      rw e (put-AtMost r rs s.0.prefix (omega (arith, ltb→lt _ _ e)) h.0, put-IsSorted r rs h.1)
  | inr e ↦
      let le : s.0.prefix ≤ r.0.prefix = ground arith in rw e ((le, AtMost-mono _ _ rs le h.0), h)
]

pub sort-IsSorted : (rs : List Route) → IsSorted (sort rs)
unfolding sort
sort-IsSorted [] = tt
sort-IsSorted (r ∷ rs) = put-IsSorted r (sort rs) (sort-IsSorted rs)

module _ (P : Route → Type 0) where
  Any-put : (r : Route) (rs : List Route) → Any P (put r rs) → P r ⊎ Any P rs
  unfolding put
  Any-put r [] h = h
  Any-put r (s ∷ rs) h = elim (Bool-cases (ltb r.0.prefix s.0.prefix)) [
    | inl e ↦ elim (rw e at h) [
      | inl p ↦ inr (inl p)
      | inr q ↦ elim (Any-put r rs q) [ inl p ↦ inl p | inr p ↦ inr (inr p) ]
    ]
    | inr e ↦ rw e at h
  ]

  put-Any : (r : Route) (rs : List Route) → P r ⊎ Any P rs → Any P (put r rs)
  unfolding put
  put-Any r [] h = h
  put-Any r (s ∷ rs) h = elim (Bool-cases (ltb r.0.prefix s.0.prefix)) [
    | inl e ↦ rw e (elim h [
      | inl p ↦ inr (put-Any r rs (inl p))
      | inr (inl p) ↦ inl p
      | inr (inr p) ↦ inr (put-Any r rs (inr p))
    ])
    | inr e ↦ rw e h
  ]

  -- Sorting neither adds nor drops a route.
  pub Any-sort : (rs : List Route) → Any P (sort rs) → Any P rs
  unfolding sort
  Any-sort [] h = h
  Any-sort (r ∷ rs) h = elim (Any-put r (sort rs) h) [ inl p ↦ inl p | inr q ↦ inr (Any-sort rs q) ]

  pub sort-Any : (rs : List Route) → Any P rs → Any P (sort rs)
  unfolding sort
  sort-Any [] h = h
  sort-Any (r ∷ rs) h = put-Any r (sort rs) (elim h [ inl p ↦ inl p | inr q ↦ inr (sort-Any rs q) ])

  pub Any-retain_others :
      (k : Key) (rs : List Route)
      → Any P (retain_others k rs)
      → Any (λ r. P r × (r.1.pubkey ≢ k)) rs
  unfolding retain_others
  Any-retain_others k [] h = h
  Any-retain_others k (r ∷ rs) h = elim (Bool-cases (r.1.pubkey == k)) [
    | inl e ↦ inr (Any-retain_others k rs (rw e at h))
    | inr e ↦ elim (rw e at h) [
      | inl p ↦ inl (p, λ q. ground (arith, list_beq_iff r.1.pubkey k))
      | inr q ↦ inr (Any-retain_others k rs q)
    ]
  ]

retain_others-AtMost :
    (k : Key) (n : ℕ) (rs : List Route) → AtMost n rs → AtMost n (retain_others k rs)
unfolding retain_others
retain_others-AtMost k n [] h = tt
retain_others-AtMost k n (r ∷ rs) h = elim (Bool-cases (r.1.pubkey == k)) [
  | inl e ↦ rw e (retain_others-AtMost k n rs h.1)
  | inr e ↦ rw e (h.0, retain_others-AtMost k n rs h.1)
]

pub retain_others-IsSorted :
    (k : Key) (rs : List Route) → IsSorted rs → IsSorted (retain_others k rs)
unfolding retain_others
retain_others-IsSorted k [] h = tt
retain_others-IsSorted k (r ∷ rs) h = elim (Bool-cases (r.1.pubkey == k)) [
  | inl e ↦ rw e (retain_others-IsSorted k rs h.1)
  | inr e ↦ rw e (retain_others-AtMost k r.0.prefix rs h.0, retain_others-IsSorted k rs h.1)
]
