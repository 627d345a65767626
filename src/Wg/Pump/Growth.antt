-- ===== src/Wg/Pump/Growth.antt =====
-- `handle_inbound` only adds permitted packets of known peers to `tun_rx`, and always ends.
use tailscale_vita.Prelude.{
  ℕ, ◌/◌, ◌^◌, ◌≡◌, refl, ap, sym, ◌∙◌, ◌⊎◌, inl, inr, Bool, true, false, List, [], ◌∷◌, ◌++◌,
  append_assoc, append-nil, map, length, Option, none, some, ◌||◌, lookup, Eq, ◌==◌, nat_eq,
  list_eq, All, All-append, Any, arith, Bool-cases, subst,
}
use mathlib.Core.Option
use tailscale_vita.Prelude.Bytes.{IsByte}
use tailscale_vita.Wg.Peer.{Peer, TransportAddr}
use tailscale_vita.Wg.Policy.Rules.{InboundPolicy}
use tailscale_vita.Wg.Policy.Meaning.{IsCidr}
use tailscale_vita.Wg.Indices.Tables.{Indices}
use tailscale_vita.Wg.Indices.Dispatch.{
  InboundRoute, single_peer, broadcast, junk, route_inbound, route_by_index, le32_at,
}
use tailscale_vita.Wg.Engine.State.{Engine, update_cell}
use tailscale_vita.Wg.Pump.Tunn.{Boringtun}
use tailscale_vita.Wg.Pump.Inbound.{
  World, Outputs, decapsulate_all, admits, deliver, count_rx, reply, roam, notify, note_derp,
  finish, handle_for, handle_each, handle_inbound,
}
use tailscale_vita.Wg.Pump.Admission.{Permitted, IsPolicy, admits-Permitted}
use tailscale_vita.Wg.Pump.Flow.{Returns, Contract, update_cell-Same, decapsulate_all-Returns}

Returns-some :
    {A : Type 0} (P : A → Type 0) (o : Option A) → Returns P o → (a : A) × (o ≡ some a) × P a
Returns-some P none h = absurd h
Returns-some P (some a) h = (a, refl, h)

-- A peer that one of the indices over keys and numbers holds.
abbrev pub Known : Indices → Peer → Type 0
Known x p = Any (λ entry. entry.1 ≡ p) x.by_idx ⊎ Any (λ entry. entry.1 ≡ p) x.by_pubkey

module _ {T : Type 0} (x : Indices) (policy : InboundPolicy) where
  abbrev pub Stands : Engine T → Type 0
  Stands e = (e.indices ≡ x) × (e.inbound_policy ≡ policy)

  -- The engine keeps its peers and its policy, and what is new in `tun_rx` is permitted.
  abbrev pub Grows : World T → World T → Type 0
  Grows w w' =
      Stands w'.engine
      × ((new : List (List ℕ)) × (w'.tun_rx ≡ w.tun_rx ++ new)
          × All (λ packet. (p : Peer) × Known x p × Permitted policy p packet) new)

  Grows-trans : (u v w : World T) → Grows u v → Grows v w → Grows u w
  Grows-trans u v w (s, (xs, p, h)) (t, (ys, q, k)) = (
    t,
    (
      xs ++ ys,
      q ∙ ap (λ l. l ++ ys) p ∙ append_assoc u.tun_rx xs ys,
      All-append (λ packet. (p : Peer) × Known x p × Permitted policy p packet) xs ys h k,
    ),
  )

  unchanged : (w w' : World T) → Stands w'.engine → w'.tun_rx ≡ w.tun_rx → Grows w w'
  unchanged w w' s e = (s, ([], e ∙ sym (append-nil w.tun_rx), tt))

  module _ (sound : IsPolicy policy) (now : ℕ) (p : Peer) (known : Known x p)
      (nets : All IsCidr p.allowed_ips) where
    deliver-one :
        (packet : List ℕ) (w : World T)
        → Stands w.engine
        → All IsByte packet
        → admits w.engine p packet ≡ true
        → Grows w (record w {
          engine = update_cell p (count_rx (length packet) now) w.engine;
          tun_rx = w.tun_rx ++ packet ∷ [];
        })
    deliver-one packet w s b h =
        let same = update_cell-Same p (count_rx (length packet) now) w.engine in
        (
          (same.0 ∙ s.0, same.1 ∙ s.1),
          (
            packet ∷ [],
            refl,
            (
              (
                p,
                known,
                subst (λ pol. Permitted pol p packet) s.1
                    (admits-Permitted w.engine p packet (subst IsPolicy (sym s.1) sound) nets b h),
              ),
              tt,
            ),
          ),
        )

    deliver-Grows :
        (packets : List (List ℕ)) (any_data : Bool) (w : World T)
        → Stands w.engine
        → All (All IsByte) packets
        → Grows w (deliver now p packets any_data w).1
    unfolding deliver
    deliver-Grows [] any_data w s b = unchanged w w s refl
    deliver-Grows (packet ∷ packets) any_data w s b = elim (Bool-cases (admits w.engine p packet)) [
      | inl yes' ↦
          let w' : World T = record w {
            engine = update_cell p (count_rx (length packet) now) w.engine;
            tun_rx = w.tun_rx ++ packet ∷ [];
          } in
          let one = deliver-one packet w s b.0 yes' in
          rw (yes', deliver)
            (Grows-trans w w' (deliver now p packets (any_data || true) w').1 one
              (deliver-Grows packets (any_data || true) w' one.0 b.1))
      | inr no' ↦ rw (no', deliver) (deliver-Grows packets (any_data || false) w s b.1)
    ]

    roam-Stands :
        (src : TransportAddr) (o : Outputs) (e : Engine T) → Stands e → Stands (roam now p src o e)
    unfolding roam update_cell
    roam-Stands src o e s = ground arith

    notify-Grows : (flag : Bool) (w : World T) → Stands w.engine → Grows w (notify flag w)
    unfolding notify
    notify-Grows true w s = unchanged w (notify true w) s refl
    notify-Grows false w s = unchanged w w s refl

    finish-Grows :
        (src : TransportAddr) (o : Outputs) (w : World T)
        → Stands w.engine
        → All (All IsByte) o.tun
        → Grows w (finish now p src o w)
    unfolding finish reply
    finish-Grows src o w s b =
        let w1 = reply src o.net (record w { engine = roam now p src o w.engine }) in
        let first : Grows w w1 = unchanged w w1 (roam-Stands src o w.engine s) refl in
        let d = deliver now p o.tun false w1 in
        let second : Grows w1 d.1 = deliver-Grows o.tun false w1 first.0 b in
        Grows-trans w w1 (notify d.0 d.1) first
          (Grows-trans w1 d.1 (notify d.0 d.1) second (notify-Grows d.0 d.1 second.0))

  note_derp-Stands :
      (p : Peer) (src : TransportAddr) (e : Engine T) → Stands e → Stands (note_derp p src e)
  unfolding note_derp update_cell
  note_derp-Stands p src e s = ground arith

  module _ (bt : Boringtun T) {fuel : ℕ} (contract : Contract bt fuel) (sound : IsPolicy policy)
      (now : ℕ) (src : TransportAddr) (datagram : List ℕ) where
    handle_for-Grows :
        (p : Peer) (w : World T)
        → Known x p
        → All IsCidr p.allowed_ips
        → Stands w.engine
        → Returns (Grows w) (handle_for bt fuel now src datagram p w)
    unfolding handle_for
    handle_for-Grows p w known nets s =
        let ((o, e), q, (same, bytes)) =
          Returns-some _ (decapsulate_all bt fuel p datagram (note_derp p src w.engine))
            (decapsulate_all-Returns bt contract p datagram (note_derp p src w.engine)) in
        let s' = note_derp-Stands p src w.engine s in
        let w' : World T = record w { engine = e } in
        let st : Stands e = (same.0 ∙ s'.0, same.1 ∙ s'.1) in
        rw (q, Returns, handle_for)
          (Grows-trans w w' (finish now p src o w') (unchanged w w' st refl)
            (finish-Grows sound now p known nets src o w' st bytes))

    abbrev Peers : List Peer → Type 0
    Peers ps = All (λ p. Known x p × All IsCidr p.allowed_ips) ps

    handle_each-Grows :
        (ps : List Peer) (w : World T)
        → Peers ps
        → Stands w.engine
        → Returns (Grows w) (handle_each bt fuel now src datagram ps w)
    unfolding handle_each Option.bind
    handle_each-Grows [] w k s = unchanged w w s refl
    handle_each-Grows (p ∷ ps) w k s =
        let (w', q, g) =
          Returns-some _ (handle_for bt fuel now src datagram p w)
            (handle_for-Grows p w k.0.0 k.0.1 s) in
        let (w'', q', g') =
          Returns-some _ (handle_each bt fuel now src datagram ps w')
            (handle_each-Grows ps w' k.1 g.0) in
        rw (q, Returns, Option.bind) (rw (q', Returns) (Grows-trans w w' w'' g g'))

abbrev pub HasCidrs : Peer → Type 0
HasCidrs p = All IsCidr p.allowed_ips

-- Every peer of the two indices has networks that `parse` admits.
abbrev pub KnownCidrs : Indices → Type 0
KnownCidrs x =
    All (λ entry. HasCidrs entry.1) x.by_idx × All (λ entry. HasCidrs entry.1) x.by_pubkey

peers_of :
    {K : Type 0} (x : Indices) (entries : List (K × Peer))
    → ((p : Peer) → Any (λ entry. entry.1 ≡ p) entries → Known x p)
    → All (λ entry. HasCidrs entry.1) entries
    → All (λ p. Known x p × HasCidrs p) (map (λ entry. entry.1) entries)
peers_of x [] known h = tt
peers_of x (entry ∷ entries) known h =
    ((known entry.1 (inl refl), h.0), peers_of x entries (λ p m. known p (inr m)) h.1)

module _ {K : Type 0} ⦃e : Eq K⦄ where
  lookup-Any :
      (k : K) (p : Peer) (entries : List (K × Peer))
      → lookup k entries ≡ some p
      → Any (λ entry. entry.1 ≡ p) entries
  unfolding lookup
  lookup-Any k p [] h = absurd (cc)
  lookup-Any k p ((j, q) ∷ entries) h = elim (Bool-cases (j == k)) [
    | inl e' ↦ let h' : some q ≡ some p = rw e' at h in inl (cc)
    | inr e' ↦ inr (lookup-Any k p entries (rw e' at h))
  ]

  lookup-HasCidrs :
      (k : K) (p : Peer) (entries : List (K × Peer))
      → lookup k entries ≡ some p
      → All (λ entry. HasCidrs entry.1) entries
      → HasCidrs p
  unfolding lookup
  lookup-HasCidrs k p [] h c = absurd (cc)
  lookup-HasCidrs k p ((j, q) ∷ entries) h c = elim (Bool-cases (j == k)) [
    | inl e' ↦
        let h' : some q ≡ some p = rw e' at h in let same : q ≡ p = cc in subst HasCidrs same c.0
    | inr e' ↦ lookup-HasCidrs k p entries (rw e' at h) c.1
  ]

route_by_index-lookup :
    (x : Indices) (d : List ℕ) (at : ℕ) {p : Peer}
    → route_by_index x d at ≡ single_peer p
    → lookup (le32_at d at / 2 ^ 8) x.by_idx ≡ some p
unfolding route_by_index
route_by_index-lookup x d at h = ground arith

route_inbound-at :
    (x : Indices) (d : List ℕ) {p : Peer}
    → route_inbound x d ≡ single_peer p
    → (route_by_index x d 8 ≡ single_peer p) ⊎ (route_by_index x d 4 ≡ single_peer p)
unfolding route_inbound
route_inbound-at x d h = ground arith

route_inbound-Known :
    (x : Indices) (datagram : List ℕ) (p : Peer)
    → KnownCidrs x
    → route_inbound x datagram ≡ single_peer p
    → Known x p × HasCidrs p
route_inbound-Known x datagram p c h = elim (route_inbound-at x datagram h) [
  | inl q ↦ at 8 (route_by_index-lookup x datagram 8 q)
  | inr q ↦ at 4 (route_by_index-lookup x datagram 4 q)
]
  where
    at : (i : ℕ) → lookup (le32_at datagram i / 2 ^ 8) x.by_idx ≡ some p → Known x p × HasCidrs p
    at i q =
        let k = le32_at datagram i / 2 ^ 8 in
        (inl (lookup-Any k p x.by_idx q), lookup-HasCidrs k p x.by_idx q c.0)

Route-cases : (r : InboundRoute) → ((p : Peer) × (r ≡ single_peer p)) ⊎ (r ≡ broadcast) ⊎ (r ≡ junk)
Route-cases (single_peer p) = inl (p, refl)
Route-cases broadcast = inr (inl refl)
Route-cases junk = inr (inr refl)

module _ {T : Type 0} (bt : Boringtun T) {fuel : ℕ} (contract : Contract bt fuel) where
  -- If tunnels drain within the fuel and give bytes, the engine's policy and networks are well
  -- formed, then a datagram from anywhere, whatever it holds, is handled to the end; the engine
  -- keeps its peers and its policy; and what the datagram adds to `tun_rx`, behind what was there,
  -- is packets with an IPv4 header whose source lies in a network of some known peer and which the
  -- policy permits.
  pub handle_inbound-Grows :
      (now : ℕ) (src : TransportAddr) (datagram : List ℕ) (w : World T)
      → IsPolicy w.engine.inbound_policy
      → KnownCidrs w.engine.indices
      → (w' : World T) × (handle_inbound bt fuel now src datagram w ≡ some w')
        × Grows w.engine.indices w.engine.inbound_policy w w'
  unfolding handle_inbound
  handle_inbound-Grows now src datagram w sound nets =
      elim (Route-cases (route_inbound w.engine.indices datagram)) [
        | inl (p, q) ↦
            let k = route_inbound-Known w.engine.indices datagram p nets q in
            rw (q, handle_inbound) (grown (p ∷ []) (k, tt))
        | inr (inl q) ↦
            rw (q, handle_inbound)
              (grown (map (λ entry. entry.1) w.engine.indices.by_pubkey)
                (peers_of w.engine.indices w.engine.indices.by_pubkey (λ p m. inr m) nets.1))
        | inr (inr q) ↦
            rw (q, handle_inbound)
              (w, refl, unchanged w.engine.indices w.engine.inbound_policy w w (refl, refl) refl)
      ]
    where
      grown :
          (ps : List Peer)
          → All (λ p. Known w.engine.indices p × HasCidrs p) ps
          → (w' : World T) × (handle_each bt fuel now src datagram ps w ≡ some w')
            × Grows w.engine.indices w.engine.inbound_policy w w'
      grown ps k = Returns-some _ (handle_each bt fuel now src datagram ps w) (
          handle_each-Grows w.engine.indices w.engine.inbound_policy bt contract sound now src
            datagram ps w k (refl, refl))
