-- ===== src/Wg/Pump/Sending.antt =====
-- pump.rs: where an outbound packet goes.
use tailscale_vita.Prelude.{
  ℕ, ◌≡◌, refl, ◌∙◌, ◌⊎◌, inl, inr, List, [], ◌∷◌, ◌++◌, Option, some, Option-cases,
}
use tailscale_vita.Wg.Peer.{Ipv4Addr, Peer, TransportAddr}
use tailscale_vita.Wg.Indices.Dispatch.{peer_for_ip, parse_ipv4_dst}
use tailscale_vita.Wg.Engine.State.{Engine, update_cell}
use tailscale_vita.Wg.Pump.Tunn.{Boringtun, done, network, outcome_of, call_tunn}
use tailscale_vita.Wg.Pump.Inbound.{World}
use tailscale_vita.Wg.Pump.Outbound.{Hint, pick_addr, encapsulate_to, outbound_to, handle_outbound}

-- What the pump relies on in `encapsulate`: it never gives a packet for the tunnel's inside.
abbrev pub Encapsulates : {T : Type 0} → Boringtun T → Type 0
Encapsulates {T} bt =
    (plaintext : List ℕ) (t : T)
    → (outcome_of (bt.encapsulate plaintext t).1 ≡ done)
      ⊎ ((bytes : List ℕ) × (outcome_of (bt.encapsulate plaintext t).1 ≡ network bytes))

module _ {T : Type 0} (bt : Boringtun T) (now : ℕ) (hint : Option Hint) where
  -- One datagram at most, to the address that is picked for the peer of the packet's destination.
  abbrev pub Sends : List ℕ → World T → World T → Type 0
  Sends plaintext w w' =
      (w'.sent ≡ w.sent)
      ⊎ ((dst : Ipv4Addr) × (peer : Peer) × (addr : TransportAddr) × (bytes : List ℕ)
          × (parse_ipv4_dst plaintext ≡ some dst)
          × (peer_for_ip w.engine.indices dst ≡ some peer)
          × (pick_addr now hint peer (w.engine.cells peer.our_index) ≡ some addr)
          × (w'.sent ≡ w.sent ++ (addr, bytes) ∷ []))

  module _ (contract : Encapsulates bt) where
    asked :
        (peer : Peer) (plaintext : List ℕ) (e : Engine T)
        → ((call_tunn peer (bt.encapsulate plaintext) e).0 ≡ done)
          ⊎ ((bytes : List ℕ) × ((call_tunn peer (bt.encapsulate plaintext) e).0 ≡ network bytes))
    unfolding call_tunn
    asked peer plaintext e = contract plaintext (e.cells peer.our_index).tunn

    encapsulate_to-Sends :
        (peer : Peer) (addr : TransportAddr) (plaintext : List ℕ) (w : World T)
        → (w' : World T) × (encapsulate_to bt now hint peer addr plaintext w ≡ some w')
          × (w'.engine.indices ≡ w.engine.indices)
          × (w'.tun_rx ≡ w.tun_rx)
          × ((w'.sent ≡ w.sent) ⊎ ((bytes : List ℕ) × (w'.sent ≡ w.sent ++ (addr, bytes) ∷ [])))
    unfolding encapsulate_to call_tunn update_cell
    encapsulate_to-Sends peer addr plaintext w = elim (asked peer plaintext w.engine) [
      | inl q ↦ rw (q, encapsulate_to) (_, refl, refl, refl, inl refl)
      | inr (bytes, q) ↦ rw (q, encapsulate_to) (_, refl, refl, refl, inr (bytes, refl))
    ]

    outbound_to-Sends :
        (dst : Ipv4Addr) (peer : Peer) (plaintext : List ℕ) (w : World T)
        → parse_ipv4_dst plaintext ≡ some dst
        → peer_for_ip w.engine.indices dst ≡ some peer
        → (w' : World T) × (outbound_to bt now hint peer plaintext w ≡ some w')
          × (w'.engine.indices ≡ w.engine.indices)
          × (w'.tun_rx ≡ w.tun_rx)
          × Sends plaintext w w'
    unfolding outbound_to
    outbound_to-Sends dst peer plaintext w d p =
        elim (Option-cases (pick_addr now hint peer (w.engine.cells peer.our_index))) [
          | inl q ↦ rw (q, outbound_to) (w, refl, refl, refl, inl refl)
          | inr (addr, q) ↦
              let (w', eq, kept, rx, sends) = encapsulate_to-Sends peer addr plaintext w in
              rw (q, outbound_to) (w', eq, kept, rx, picked addr q w' sends)
        ]
      where
        picked :
            (addr : TransportAddr)
            → pick_addr now hint peer (w.engine.cells peer.our_index) ≡ some addr
            → (w' : World T)
            → (w'.sent ≡ w.sent) ⊎ ((bytes : List ℕ) × (w'.sent ≡ w.sent ++ (addr, bytes) ∷ []))
            → Sends plaintext w w'
        picked addr q w' (inl s) = inl s
        picked addr q w' (inr (bytes, s)) = inr (dst, peer, addr, bytes, d, p, q, s)

    handle_outbound-peer :
        (dst : Ipv4Addr) (peer : Peer) (plaintext : List ℕ) (w : World T)
        → parse_ipv4_dst plaintext ≡ some dst
        → peer_for_ip w.engine.indices dst ≡ some peer
        → handle_outbound bt now hint plaintext w ≡ outbound_to bt now hint peer plaintext w
    unfolding handle_outbound
    handle_outbound-peer dst peer plaintext w d p = rw (d, p, handle_outbound) refl

    -- If `encapsulate` never gives a packet for the tunnel's inside, an outbound packet is handled
    -- to the end: the indices and `tun_rx` stay, and either nothing is sent, or one datagram, to
    -- the address that is picked for the peer whose route the packet's destination finds.
    pub handle_outbound-Sends :
        (plaintext : List ℕ) (w : World T)
        → (w' : World T) × (handle_outbound bt now hint plaintext w ≡ some w')
          × (w'.engine.indices ≡ w.engine.indices)
          × (w'.tun_rx ≡ w.tun_rx)
          × Sends plaintext w w'
    unfolding handle_outbound
    handle_outbound-Sends plaintext w = elim (Option-cases (parse_ipv4_dst plaintext)) [
      | inl q ↦ rw (q, handle_outbound) (w, refl, refl, refl, inl refl)
      | inr (dst, q) ↦ elim (Option-cases (peer_for_ip w.engine.indices dst)) [
        | inl r ↦ rw (q, r, handle_outbound) (w, refl, refl, refl, inl refl)
        | inr (peer, r) ↦
            let (w', eq, kept, rx, sends) = outbound_to-Sends dst peer plaintext w q r in
            (w', handle_outbound-peer dst peer plaintext w q r ∙ eq, kept, rx, sends)
      ]
    ]
