-- ===== src/Wg/Pump/Delivered.antt =====
-- pump.rs, the loop over `tun_outputs`: it delivers what it admits, and nothing else.
use tailscale_vita.Prelude.{
  ℕ, ◌≡◌, refl, sym, ◌∙◌, inl, inr, Bool, true, false, ◌||◌, List, [], ◌∷◌, ◌++◌, append_assoc,
  append-nil, any, length, if◌then◌else◌, Bool-cases, arith,
}
use tailscale_vita.Wg.Peer.{Peer}
use tailscale_vita.Wg.Engine.State.{Engine, update_cell}
use tailscale_vita.Wg.Pump.Inbound.{World, admits, count_rx, deliver}

-- The elements that pass a test.
abbrev pub filter : {A : Type 0} → (A → Bool) → List A → List A
filter test [] = []
filter test (x ∷ xs) = if test x then x ∷ filter test xs else filter test xs

or_assoc : (a b c : Bool) → ((a || b) || c) ≡ (a || (b || c))
or_assoc a b c = ground arith

module _ {T : Type 0} (now : ℕ) (p : Peer) where
  admits-policy :
      (e e' : Engine T) (packet : List ℕ)
      → e.inbound_policy ≡ e'.inbound_policy
      → admits e p packet ≡ admits e' p packet
  unfolding admits
  admits-policy e e' packet same = rw same refl

  update_cell-policy :
      (e : Engine T) (packet : List ℕ)
      → (update_cell p (count_rx (length packet) now) e).inbound_policy ≡ e.inbound_policy
  unfolding update_cell
  update_cell-policy e packet = refl

  delivers :
      (e : Engine T) (packets : List (List ℕ)) (flag : Bool) (w : World T)
      → w.engine.inbound_policy ≡ e.inbound_policy
      → ((deliver now p packets flag w).1.tun_rx ≡ w.tun_rx ++ filter (admits e p) packets)
        × ((deliver now p packets flag w).0 ≡ (flag || any (admits e p) packets))
  unfolding deliver any
  delivers e [] flag w same = (sym (append-nil w.tun_rx), ground arith)
  delivers e (x ∷ xs) flag w same = elim (Bool-cases (admits e p x)) [
    | inl q ↦
        let here : admits w.engine p x ≡ true = admits-policy w.engine e x same ∙ q in
        let w' : World T = record w {
          engine = update_cell p (count_rx (length x) now) w.engine;
          tun_rx = w.tun_rx ++ x ∷ [];
        } in
        let (rx, woken) = delivers e xs (flag || true) w' (update_cell-policy w.engine x ∙ same) in
        rw (here, q, deliver)
          (
            rx ∙ append_assoc w.tun_rx (x ∷ []) (filter (admits e p) xs),
            woken ∙ or_assoc flag true (any (admits e p) xs),
          )
    | inr q ↦
        let here : admits w.engine p x ≡ false = admits-policy w.engine e x same ∙ q in
        let (rx, woken) = delivers e xs (flag || false) w same in
        rw (here, q, deliver) (rx, woken ∙ or_assoc flag false (any (admits e p) xs))
  ]

  -- Of the packets that a tunnel gives, those that are admitted go to `tun_rx`, all of them and in
  -- their order, and the reader is to be woken when there is one.
  pub deliver-filter :
      (packets : List (List ℕ)) (flag : Bool) (w : World T)
      → ((deliver now p packets flag w).1.tun_rx ≡ w.tun_rx ++ filter (admits w.engine p) packets)
        × ((deliver now p packets flag w).0 ≡ (flag || any (admits w.engine p) packets))
  deliver-filter packets flag w = delivers w.engine packets flag w refl
