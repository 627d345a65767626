-- ===== src/Wg/Pump/Fallback.antt =====
-- Where fallback addresses come from: a handshake message over DERP moves those of all peers.
use tailscale_vita.Prelude.{
  ℕ, zero, suc, ◌≤◌, ◌≡◌, refl, sym, inl, inr, Bool, true, false, List, [], ◌∷◌, ◌++◌, map, length,
  Option, none, some, if◌then◌else◌, ◌||◌, ◌&&◌, not, is_empty, eqb, eqb_iff, All, arith,
  Bool-cases, subst,
}
use mathlib.Core.Option
use tailscale_vita.Wg.Peer.{Key, Peer, Cell, TransportAddr, derp, set_transport_addr, set_auth_src}
use tailscale_vita.Wg.Indices.Tables.{Indices}
use tailscale_vita.Wg.Indices.Dispatch.{broadcast, route_inbound, le32_at, handshake_init}
use tailscale_vita.Wg.Engine.State.{Engine, update_cell, write_cell, write_cell_self}
use tailscale_vita.Wg.Pump.Tunn.{Boringtun, TunnResult, call_tunn}
use tailscale_vita.Wg.Pump.Inbound.{
  World, Outputs, drain, decapsulate_all, admits, deliver, count_rx, reply, roam, notify, note_derp,
  is_derp, finish, handle_for, handle_each, handle_inbound,
}
use tailscale_vita.Wg.Pump.Admission.{IsPolicy}
use tailscale_vita.Wg.Pump.Flow.{Contract, Outcome-cases}
use tailscale_vita.Wg.Pump.Growth.{KnownCidrs, handle_inbound-Grows}

-- If there is a result, it satisfies `P`.
abbrev Ends : {A : Type 0} → (A → Type 0) → Option A → Type 0
Ends P none = Unit
Ends P (some a) = P a

Ends-bind :
    {A B : Type 0} (P : A → Type 0) (Q : B → Type 0) (m : Option A) (f : A → Option B)
    → Ends P m
    → ((a : A) → P a → Ends Q (f a))
    → Ends Q (Option.bind m f)
unfolding Option.bind
Ends-bind P Q none f h k = tt
Ends-bind P Q (some a) f h k = k a h

Ends-both :
    {A : Type 0} (P Q : A → Type 0) (m : Option A) → Ends P m → Ends Q m → Ends (λ a. P a × Q a) m
Ends-both P Q none h k = tt
Ends-both P Q (some a) h k = (h, k)

Ends-some : {A : Type 0} (P : A → Type 0) (a : A) (m : Option A) → m ≡ some a → Ends P m → P a
Ends-some P a m e h = subst (Ends P) e h

module _ {T : Type 0} (src : TransportAddr) (i : ℕ) where
  -- The fallback address of peer `i` is `src`.
  abbrev pub Held : Engine T → Type 0
  Held e = (e.cells i).transport_addr ≡ some src

  update_cell-Held :
      (p : Peer) (f : Cell T → Cell T) (e : Engine T)
      → ((c : Cell T) → c.transport_addr ≡ some src → (f c).transport_addr ≡ some src)
      → Held e
      → Held (update_cell p f e)
  unfolding update_cell write_cell
  update_cell-Held p f e keep h = elim (Bool-cases (eqb p.our_index i)) [
    | inl q ↦
        let same : p.our_index ≡ i = (eqb_iff _ _).0 q in
        rw q (
          keep (e.cells p.our_index)
            (subst (λ j. (e.cells j).transport_addr ≡ some src) (sym same) h))
    | inr q ↦ rw q h
  ]

  call_tunn-Held :
      (p : Peer) (op : T → T × TunnResult) (e : Engine T) → Held e → Held (call_tunn p op e).1
  unfolding call_tunn
  call_tunn-Held p op e h = update_cell-Held p _ e (λ c k. k) h

  module _ (bt : Boringtun T) where
    drain-Held :
        (fuel : ℕ) (p : Peer) (o : Outputs) (e : Engine T)
        → Held e
        → Ends (λ r. Held r.1) (drain bt fuel p o e)
    unfolding drain
    drain-Held zero p o e h = tt
    drain-Held (suc fuel) p o e h =
        let e' = (call_tunn p (bt.decapsulate []) e).1 in
        let h' : Held e' = call_tunn-Held p (bt.decapsulate []) e h in
        let more : (o' : Outputs) → Ends (λ r. Held r.1) (drain bt fuel p o' e') =
          λ o'. drain-Held fuel p o' e' h' in
        elim (Outcome-cases (call_tunn p (bt.decapsulate []) e).0) [
          | inl q ↦ rw (q, Ends, drain) h'
          | inr (inl q) ↦ rw (q, Ends, drain) (more o)
          | inr (inr (inl (b, q))) ↦ rw (q, Ends, drain) (more _)
          | inr (inr (inr (b, q))) ↦ rw (q, Ends, drain) (more _)
        ]

    decapsulate_all-Held :
        (fuel : ℕ) (p : Peer) (d : List ℕ) (e : Engine T)
        → Held e
        → Ends (λ r. Held r.1) (decapsulate_all bt fuel p d e)
    unfolding decapsulate_all
    decapsulate_all-Held fuel p d e h =
        let h' = call_tunn-Held p (bt.decapsulate d) e h in
        elim (Outcome-cases (call_tunn p (bt.decapsulate d) e).0) [
          | inl q ↦ rw (q, Ends, decapsulate_all) h'
          | inr (inl q) ↦ rw (q, Ends, decapsulate_all) h'
          | inr (inr (inl (b, q))) ↦
              rw (q, Ends, decapsulate_all)
                (drain-Held fuel p _ (call_tunn p (bt.decapsulate d) e).1 h')
          | inr (inr (inr (b, q))) ↦ rw (q, Ends, decapsulate_all) h'
        ]

  deliver-Held :
      (now : ℕ) (p : Peer) (packets : List (List ℕ)) (flag : Bool) (w : World T)
      → Held w.engine
      → Held (deliver now p packets flag w).1.engine
  unfolding deliver
  deliver-Held now p [] flag w h = h
  deliver-Held now p (x ∷ xs) flag w h = elim (Bool-cases (admits w.engine p x)) [
    | inl q ↦
        rw (q, deliver)
          (deliver-Held now p xs (flag || true)
            (record w {
              engine = update_cell p (count_rx (length x) now) w.engine;
              tun_rx = w.tun_rx ++ x ∷ [];
            })
            (unfold count_rx in update_cell-Held p (count_rx (length x) now) w.engine (λ c k. k) h))
    | inr q ↦ rw (q, deliver) (deliver-Held now p xs (flag || false) w h)
  ]

  if-Held : (b : Bool) (e e' : Engine T) → Held e → Held e' → Held (if b then e else e')
  if-Held true e e' h k = h
  if-Held false e e' h k = k

  roam-Held : (now : ℕ) (p : Peer) (o : Outputs) (e : Engine T) → Held e → Held (roam now p src o e)
  unfolding roam set_auth_src
  roam-Held now p o e h =
      if-Held ((not (is_empty o.net) || not (is_empty o.tun)) && not (is_derp src))
        (update_cell p (set_auth_src src now) e) e
        (update_cell-Held p (set_auth_src src now) e (λ c k. k) h) h

  notify-Held : (flag : Bool) (w : World T) → Held w.engine → Held (notify flag w).engine
  unfolding notify
  notify-Held true w h = h
  notify-Held false w h = h

  finish-Held :
      (now : ℕ) (p : Peer) (o : Outputs) (w : World T)
      → Held w.engine
      → Held (finish now p src o w).engine
  unfolding finish reply
  finish-Held now p o w h =
      let w' : World T = reply src o.net (record w { engine = roam now p src o w.engine }) in
      let d = deliver now p o.tun false w' in
      notify-Held d.0 d.1 (deliver-Held now p o.tun false w' (roam-Held now p o w.engine h))

  note_derp-Held : (p : Peer) (e : Engine T) → Held e → Held (note_derp p src e)
  unfolding note_derp set_transport_addr
  note_derp-Held p e h =
      if-Held (is_derp src) (update_cell p (set_transport_addr src) e) e
        (update_cell-Held p (set_transport_addr src) e (λ c k. refl) h) h

  module _ (bt : Boringtun T) (fuel now : ℕ) (datagram : List ℕ) where
    handle_for-Held :
        (p : Peer) (w : World T)
        → Held (note_derp p src w.engine)
        → Ends (λ w'. Held w'.engine) (handle_for bt fuel now src datagram p w)
    unfolding handle_for
    handle_for-Held p w h =
        go (decapsulate_all bt fuel p datagram (note_derp p src w.engine))
          (decapsulate_all-Held bt fuel p datagram (note_derp p src w.engine) h)
      where
        go :
            (r : Option (Outputs × Engine T))
            → Ends (λ r. Held r.1) r
            → Ends
                (λ w'. Held w'.engine)
                (elim r [
                  | none ↦ none
                  | some (o, e) ↦ some (finish now p src o (record w { engine = e }))
                ])
        go none k = tt
        go (some (o, e)) k = finish-Held now p o (record w { engine = e }) k

    handle_each-Held :
        (ps : List Peer) (w : World T)
        → Held w.engine
        → Ends (λ w'. Held w'.engine) (handle_each bt fuel now src datagram ps w)
    unfolding handle_each
    handle_each-Held [] w h = h
    handle_each-Held (p ∷ ps) w h =
        Ends-bind (λ w'. Held w'.engine) (λ w'. Held w'.engine)
          (handle_for bt fuel now src datagram p w) (handle_each bt fuel now src datagram ps)
          (handle_for-Held p w (note_derp-Held p w.engine h)) (handle_each-Held ps)

module _ {T : Type 0} (bt : Boringtun T) (fuel now region : ℕ) (key : Key) (datagram : List ℕ) where
  note_derp-sets :
      (p : Peer) (e : Engine T)
      → Held (derp region key) p.our_index (note_derp p (derp region key) e)
  unfolding note_derp update_cell set_transport_addr
  note_derp-sets p e = rw (write_cell_self e.cells p.our_index)

  handle_each-sets :
      (ps : List Peer) (w : World T)
      → Ends
          (λ w'. All (λ p. Held (derp region key) p.our_index w'.engine) ps)
          (handle_each bt fuel now (derp region key) datagram ps w)
  unfolding handle_each
  handle_each-sets [] w = tt
  handle_each-sets (p ∷ ps) w =
      Ends-bind (λ w'. Held (derp region key) p.our_index w'.engine) _
        (handle_for bt fuel now (derp region key) datagram p w)
        (handle_each bt fuel now (derp region key) datagram ps)
        (handle_for-Held (derp region key) p.our_index bt fuel now datagram p w
          (note_derp-sets p w.engine))
        (λ w' h.
          Ends-both (λ w''. Held (derp region key) p.our_index w''.engine)
            (λ w''. All (λ q. Held (derp region key) q.our_index w''.engine) ps)
            (handle_each bt fuel now (derp region key) datagram ps w')
            (handle_each-Held (derp region key) p.our_index bt fuel now datagram ps w' h)
            (handle_each-sets ps w'))

  broadcast-handshake_init :
      (x : Indices)
      → 4 ≤ length datagram
      → le32_at datagram 0 ≡ handshake_init
      → route_inbound x datagram ≡ broadcast
  unfolding route_inbound
  broadcast-handshake_init x h e = ground (arith, e)

  handle_inbound-sets :
      (w : World T)
      → 4 ≤ length datagram
      → le32_at datagram 0 ≡ handshake_init
      → Ends
          (λ w'.
            All
              (λ p. Held (derp region key) p.our_index w'.engine)
              (map (λ entry. entry.1) w.engine.indices.by_pubkey))
          (handle_inbound bt fuel now (derp region key) datagram w)
  unfolding handle_inbound
  handle_inbound-sets w h e =
      rw (broadcast-handshake_init w.engine.indices h e, Ends, handle_inbound)
        (handle_each-sets (map (λ entry. entry.1) w.engine.indices.by_pubkey) w)

  -- A datagram over DERP that starts like a handshake initiation, whatever follows and whoever sent
  -- it, sets the fallback address of every peer of the engine to the sender's DERP address, whether or
  -- not any tunnel accepts it.
  pub handle_inbound-moves_fallback :
      Contract bt fuel
      → (w : World T) → IsPolicy w.engine.inbound_policy
      → KnownCidrs w.engine.indices
      → 4 ≤ length datagram
      → le32_at datagram 0 ≡ handshake_init
      → (w' : World T) × (handle_inbound bt fuel now (derp region key) datagram w ≡ some w')
        × All
            (λ p. (w'.engine.cells p.our_index).transport_addr ≡ some (derp region key))
            (map (λ entry. entry.1) w.engine.indices.by_pubkey)
  handle_inbound-moves_fallback contract w sound nets h e =
      let (w', eq, grows) =
        handle_inbound-Grows bt contract now (derp region key) datagram w sound nets in
      (
        w',
        eq,
        Ends-some
            (λ w''.
              All (λ p. Held (derp region key) p.our_index w''.engine)
                (map (λ entry. entry.1) w.engine.indices.by_pubkey))
            w' (handle_inbound bt fuel now (derp region key) datagram w) eq
            (handle_inbound-sets w h e),
      )
