-- ===== src/Wg/Pump/Flow.antt =====
-- `handle_inbound` as a whole: it ends, it leaves the indices and the policy alone, and it adds
-- permitted packets of known peers to `tun_rx`.
use tailscale_vita.Prelude.{
  ℕ, zero, suc, ◌<◌, ◌≡◌, refl, sym, ◌∙◌, ◌≢◌, ◌⊎◌, inl, inr, List, [], ◌∷◌, Option, none, some,
  nat_eq, list_eq, All, All-append, arith,
}
use tailscale_vita.Prelude.Bytes.{IsByte}
use tailscale_vita.Wg.Peer.{Peer, Cell}
use tailscale_vita.Wg.Engine.State.{Engine, update_cell, write_cell_self}
use tailscale_vita.Wg.Pump.Tunn.{
  Boringtun, Outcome, done, tunnel_v6, network, tunnel_v4, call_tunn, outcome_of,
}
use tailscale_vita.Wg.Pump.Inbound.{Outputs, drain, decapsulate_all}

-- The result is there and satisfies `P`.
abbrev pub Returns {ℓ} : {A : Type ℓ} → (A → Type 0) → Option A → Type 0
Returns P none = ⊥
Returns P (some a) = P a

-- What the pump relies on in `boringtun`: a call without input that gives something takes it from
-- a queue of bounded length, and a packet is made of bytes.
pub record Contract {T : Type 0} (bt : Boringtun T) (fuel : ℕ) : Type 0 where
  pub pending : T → ℕ
  pub bounded : (t : T) → pending t < fuel
  pub falls :
      (t : T)
      → outcome_of (bt.decapsulate [] t).1 ≢ done
      → pending (bt.decapsulate [] t).0 < pending t
  pub bytes :
      (d : List ℕ) (t : T) (b : List ℕ)
      → outcome_of (bt.decapsulate d t).1 ≡ tunnel_v4 b
      → All IsByte b

abbrev pub Outcomes : Outcome → Type 0
Outcomes r =
    (r ≡ done)
    ⊎ (r ≡ tunnel_v6)
    ⊎ ((b : List ℕ) × (r ≡ network b))
    ⊎ ((b : List ℕ) × (r ≡ tunnel_v4 b))

pub Outcome-cases : (r : Outcome) → Outcomes r
Outcome-cases done = inl refl
Outcome-cases tunnel_v6 = inr (inl refl)
Outcome-cases (network b) = inr (inr (inl (b, refl)))
Outcome-cases (tunnel_v4 b) = inr (inr (inr (b, refl)))

module _ {T : Type 0} where
  -- The parts of the engine that the pump reads and does not write.
  abbrev pub Same : Engine T → Engine T → Type 0
  Same e e' = (e'.indices ≡ e.indices) × (e'.inbound_policy ≡ e.inbound_policy)

  pub Same-trans : (e f g : Engine T) → Same e f → Same f g → Same e g
  Same-trans e f g h k = (k.0 ∙ h.0, k.1 ∙ h.1)

  pub update_cell-Same :
      (p : Peer) (f : Cell T → Cell T) (e : Engine T) → Same e (update_cell p f e)
  unfolding update_cell
  update_cell-Same p f e = (refl, refl)

  abbrev pub Drained : Engine T → Outputs × Engine T → Type 0
  Drained e r = Same e r.1 × All (All IsByte) r.0.tun

  Drained-trans :
      (e f : Engine T) (r : Option (Outputs × Engine T))
      → Same e f
      → Returns (Drained f) r
      → Returns (Drained e) r
  Drained-trans e f none h k = k
  Drained-trans e f (some (o, g)) h k = (Same-trans e f g h k.0, k.1)

module _ {T : Type 0} (bt : Boringtun T) {limit : ℕ} (contract : Contract bt limit) where
  abbrev asked : Peer → List ℕ → Engine T → Outcome × Engine T
  asked p d e = call_tunn p (bt.decapsulate d) e

  asked-outcome :
      (p : Peer) (d : List ℕ) (e : Engine T)
      → (asked p d e).0 ≡ outcome_of (bt.decapsulate d (e.cells p.our_index).tunn).1
  unfolding call_tunn
  asked-outcome p d e = refl

  asked-Same : (p : Peer) (d : List ℕ) (e : Engine T) → Same e (asked p d e).1
  unfolding call_tunn
  asked-Same p d e = update_cell-Same p _ e

  asked-bytes :
      (p : Peer) (d b : List ℕ) (e : Engine T) → (asked p d e).0 ≡ tunnel_v4 b → All IsByte b
  asked-bytes p d b e h =
      contract.bytes d (e.cells p.our_index).tunn b (sym (asked-outcome p d e) ∙ h)

  asked-pending :
      (p : Peer) (e : Engine T) (r : Outcome)
      → (asked p [] e).0 ≡ r
      → r ≢ done
      → contract.pending ((asked p [] e).1.cells p.our_index).tunn
        < contract.pending (e.cells p.our_index).tunn
  unfolding call_tunn update_cell
  asked-pending p e r h ne =
      rw (write_cell_self e.cells p.our_index)
        (contract.falls (e.cells p.our_index).tunn (λ q. ne (sym h ∙ q)))

  drain-Returns :
      (fuel : ℕ) (p : Peer) (o : Outputs) (e : Engine T)
      → contract.pending (e.cells p.our_index).tunn < fuel
      → All (All IsByte) o.tun
      → Returns (Drained e) (drain bt fuel p o e)
  unfolding drain
  drain-Returns zero p o e h k = absurd (omega arith)
  drain-Returns (suc fuel) p o e h k =
      let e' = (asked p [] e).1 in
      let more : (o' : Outputs) (r : Outcome)
          → (asked p [] e).0 ≡ r
          → r ≢ done
          → All (All IsByte) o'.tun
          → Returns (Drained e) (drain bt fuel p o' e') =
        λ o' r q ne k'.
          Drained-trans e e' (drain bt fuel p o' e') (asked-Same p [] e)
            (drain-Returns fuel p o' e' (omega (arith, asked-pending p e r q ne)) k') in
      elim (Outcome-cases (asked p [] e).0) [
        | inl q ↦ rw (q, Returns, drain) (asked-Same p [] e, k)
        | inr (inl q) ↦ rw (q, Returns, drain) (more o tunnel_v6 q (λ n. cc) k)
        | inr (inr (inl (b, q))) ↦ rw (q, Returns, drain) (more _ (network b) q (λ n. cc) k)
        | inr (inr (inr (b, q))) ↦
            rw (q, Returns, drain)
              (more _ (tunnel_v4 b) q (λ n. cc)
                (All-append (All IsByte) o.tun (b ∷ []) k (asked-bytes p [] b e q, tt)))
      ]

  pub decapsulate_all-Returns :
      (p : Peer) (d : List ℕ) (e : Engine T) → Returns (Drained e) (decapsulate_all bt limit p d e)
  unfolding decapsulate_all
  decapsulate_all-Returns p d e = elim (Outcome-cases (asked p d e).0) [
    | inl q ↦ rw (q, Returns, decapsulate_all) (asked-Same p d e, tt)
    | inr (inl q) ↦ rw (q, Returns, decapsulate_all) (asked-Same p d e, tt)
    | inr (inr (inl (b, q))) ↦
        rw (q, Returns, decapsulate_all)
          (Drained-trans e (asked p d e).1 _ (asked-Same p d e)
            (drain-Returns limit p _ (asked p d e).1 (contract.bounded _) tt))
    | inr (inr (inr (b, q))) ↦
        rw (q, Returns, decapsulate_all) (asked-Same p d e, (asked-bytes p d b e q, tt))
  ]
