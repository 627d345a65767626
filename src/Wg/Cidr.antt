-- ===== src/Wg/Cidr.antt =====
-- wg-engine/src/peer.rs, `Ipv4Cidr::contains`: an address is in a network exactly when the bits of
-- the prefix agree.
use tailscale_vita.Prelude.{
  ℕ, zero, suc, ◌+◌, ◌-◌, ◌*◌, ◌/◌, ◌^◌, ◌≤◌, ◌<◌, ◌≡◌, refl, ◌↔◌, true, bit_and, arith, eqb,
  eqb_iff, sym, ◌∙◌, ap,
}
use native.Mathlib.Nat.{pow-suc}
use tailscale_vita.Prelude.Bits.{bit_and-high, holds_below, holds_below-at, ones}
use tailscale_vita.Wg.Peer.{Ipv4Cidr, Ipv4Addr, contains, mask_of}

mask_table : holds_below (λ p. eqb (mask_of p) (ones p * 2 ^ (32 - p))) 33 ≡ true
unfolding holds_below mask_of
mask_table = refl

mask_of-eq : (p : ℕ) → p ≤ 32 → mask_of p ≡ ones p * 2 ^ (32 - p)
mask_of-eq p h =
    (eqb_iff _ _).0
      (holds_below-at (λ q. eqb (mask_of q) (ones q * 2 ^ (32 - q))) 33 p (omega arith) mask_table)

masked : (p a : ℕ) → p ≤ 32 → a < 2 ^ 32 → bit_and a (mask_of p) ≡ a / 2 ^ (32 - p) * 2 ^ (32 - p)
masked p a h lt =
    let whole : p + (32 - p) ≡ 32 = omega arith in
    rw (mask_of-eq p h) (bit_and-high (32 - p) p a (rw whole lt))

times_cancel : (k a b : ℕ) → a * 2 ^ k ≡ b * 2 ^ k → a ≡ b
times_cancel zero a b h = omega arith
times_cancel (suc k) a b h = times_cancel k a b (omega (arith, (rw (pow-suc 2 k) at h)))

-- For a prefix of at most 32 bits, `contains` answers true exactly when the address and the
-- network's address agree in the first `prefix` bits.
pub contains_iff :
    (c : Ipv4Cidr) (ip : Ipv4Addr)
    → c.prefix ≤ 32
    → c.addr < 2 ^ 32
    → ip < 2 ^ 32
    → (contains c ip ≡ true) ↔ (ip / 2 ^ (32 - c.prefix) ≡ c.addr / 2 ^ (32 - c.prefix))
unfolding contains
contains_iff c ip hp ha hi =
    let mi = masked c.prefix ip hp hi in
    let ma = masked c.prefix c.addr hp ha in
    (
      λ h. times_cancel (32 - c.prefix) _ _ (sym mi ∙ (eqb_iff _ _).0 h ∙ ma),
      λ h. (eqb_iff _ _).1 (mi ∙ ap (λ t. t * 2 ^ (32 - c.prefix)) h ∙ sym ma),
    )
