-- ===== src/Magic/Tests.antt =====
-- The theorems on direct paths at two small nodes and a toy box.
use tailscale_vita.Prelude.{
  ℕ, ◌-◌, ◌≡◌, refl, ap, subst, ◌∙◌, Eq, inl, inr, true, false, List, [], ◌∷◌, ◌++◌, map, take,
  length-take, length-append, none, some, none-some, ok, err, lookup, insert, insert-cases,
  contains, any, list_eq, nat_eq, arith, Unique,
}
use tailscale_vita.Wg.Peer.{Key, SocketAddr, v4}
use tailscale_vita.Disco.Endpoint.{from_socket_addr}
use tailscale_vita.Disco.Message.{ping_of_bytes, CallMeMaybe, call_me_maybe_message, ping_message}
use tailscale_vita.Disco.Packet.{
  SalsaBox, zeros, init_from_bytes, cast_packet, packet_bytes, encrypt_in_place, validate,
}
use tailscale_vita.Disco.RoundTrip.{Opens, length-zeros}
use tailscale_vita.Magic.State.{
  addr_eq, MagicState, new_magic, PeerState, PathState, new_path, upsert_peer, remove_peer,
}
use tailscale_vita.Magic.Wire.{build, build_call_me_maybe, build_ping}
use tailscale_vita.Magic.WireTrip.{Reads, open_disco-build_call_me_maybe}
use tailscale_vita.Magic.Handle.{Env, World, ping_one, handle_disco, handle_recv}
use tailscale_vita.Magic.Exchange.{Works, Proved, handle_disco-Proved}
use tailscale_vita.Magic.Sections.{done, next, upserts, removes}
use tailscale_vita.Magic.Touched.{path_in, known}
use tailscale_vita.Magic.Confined.{Answers}
use tailscale_vita.Magic.Received.{handle_recv-Answers}
use tailscale_vita.Magic.WellFormed.{WellFormed, Sections-WellFormed}
use tailscale_vita.Magic.Pump.{ping_pump}
use tailscale_vita.Magic.Silent.{Sends, Reachable, ping_pump-queues_nothing}

-- A box that boxes nothing, with keys made 32 bytes long.
abbrev toy_key : List ℕ → List ℕ
toy_key secret = take 32 (secret ++ zeros 32)

abbrev toy_box : SalsaBox
toy_box = record {
  public_key = toy_key;
  seal = λ receiver secret nonce message. some (zeros 16, message);
  unseal = λ sender secret nonce tag message. some message;
}

toy_box-Opens : Opens toy_box
toy_box-Opens = (
  λ secret. omega (
    arith,
    length-take 32 (secret ++ zeros 32),
    length-append secret (zeros 32),
    length-zeros 32,
  ),
  λ secret receiver nonce message n l. ((zeros 16, message), refl, length-zeros 16, refl),
)

abbrev node : List ℕ → Env
node secret = record {
  bx = toy_box;
  our_disco_priv = secret;
  our_node_pub = zeros 32;
  fill_bytes = λ draw n. zeros n;
  has_v6 = false;
  accepts = λ addr bytes. true;
}

node-Works : (secret : List ℕ) → Works (node secret)
node-Works secret = (λ addr bytes. refl, λ draw n. length-zeros n, length-zeros 32)

abbrev addr_a : SocketAddr
addr_a = v4 0x0a000001 41641

abbrev addr_b : SocketAddr
addr_b = v4 0x0a000002 41641

abbrev peer_b : PeerState
peer_b = record {
  disco_pub = toy_key (2 ∷ []);
  endpoints = addr_b ∷ [];
  paths = (addr_b, new_path) ∷ [];
}

abbrev knowing : World
knowing = record {
  state = record new_magic {
    peers = (9 ∷ [], peer_b) ∷ [];
    disco_to_node = (toy_key (2 ∷ []), 9 ∷ []) ∷ [];
  };
  draws = 0;
  sent = [];
  non_disco = record { cap = none; queue = []; sender_count = 1; receiver_count = 1 };
  results = [];
}

abbrev blank : World
blank = record knowing { state = new_magic }

handle_disco-Proved_example :
    (ping_bytes : List ℕ) × (pong_bytes : List ℕ) × ((ping_one
        (node (1 ∷ []))
        100
        (9 ∷ [])
        (toy_key (2 ∷ []))
        addr_b
        knowing).sent
      ≡ [] ++ (addr_b, ping_bytes) ∷ [])
    × ((handle_disco (node (2 ∷ [])) 110 addr_a ping_bytes blank).sent
        ≡ [] ++ (addr_a, pong_bytes) ∷ [])
    × Proved
        (handle_disco
          (node (1 ∷ []))
          130
          addr_b
          pong_bytes
          (ping_one (node (1 ∷ [])) 100 (9 ∷ []) (toy_key (2 ∷ [])) addr_b knowing)).state
        (9 ∷ [])
        addr_b
        130
        (130 - 100)
handle_disco-Proved_example =
    handle_disco-Proved (node (1 ∷ [])) (node (2 ∷ [])) (node-Works (1 ∷ [])) (node-Works (2 ∷ []))
      refl toy_box-Opens 100 110 130 (9 ∷ []) peer_b addr_a addr_b knowing blank
      (unfold lookup zeros in refl, unfold lookup in refl) refl
      (unfold from_socket_addr in (omega arith, omega arith))

abbrev upserted : MagicState
upserted = upsert_peer 0 (9 ∷ []) (8 ∷ []) (addr_b ∷ []) new_magic

Sections-WellFormed_example : WellFormed (remove_peer (9 ∷ []) upserted)
Sections-WellFormed_example =
    Sections-WellFormed
      (next (upserts 0 (9 ∷ []) (8 ∷ []) (addr_b ∷ [])) (next (removes (9 ∷ [])) done))

open_disco-build_call_me_maybe_example :
    (bytes : List ℕ) × (build_call_me_maybe toy_box
        (1 ∷ [])
        (toy_key (2 ∷ []))
        (addr_a ∷ addr_b ∷ [])
        (zeros 24)
      ≡ ok bytes)
    × Reads {M = CallMeMaybe} toy_box
        (1 ∷ [])
        (2 ∷ [])
        (record { endpoints = map from_socket_addr (addr_a ∷ addr_b ∷ []) })
        bytes
open_disco-build_call_me_maybe_example =
    open_disco-build_call_me_maybe toy_box toy_box-Opens (1 ∷ []) (2 ∷ []) (zeros 24)
      (length-zeros 24) (addr_a ∷ addr_b ∷ [])
      (unfold from_socket_addr in ((omega arith, omega arith), ((omega arith, omega arith), tt)))
      (omega arith)

toy-Sends : Sends (node (1 ∷ []))
toy-Sends = (
  λ addr bytes. refl,
  λ peer_disco tx_id nonce.
      unfold build_ping build init_from_bytes cast_packet ping_of_bytes packet_bytes
        encrypt_in_place validate zeros in
      (_, refl),
)

-- The path was pinged twenty seconds ago and has not answered.
abbrev silent : World
silent = record knowing {
  state = record knowing.state {
    peers =
        (9 ∷ [], record peer_b { paths = (addr_b, record new_path { last_ping_at = some 0 }) ∷ [] })
        ∷ [];
    local_endpoints = addr_a ∷ [];
  };
}

single :
    {K V : Type 0} ⦃e : Eq K⦄ (key other : K) (value found : V)
    → lookup other ((key, value) ∷ []) ≡ some found
    → (key ≡ other) × (value ≡ found)
single key other value found l = elim (insert-cases key other value found [] (unfold insert in l)) [
  | inl h ↦ h
  | inr (apart, l') ↦ let gone : none ≡ some found = unfold lookup in l' in absurd (none-some gone)
]

-- A ping of the node 9, and what the node 1 does with it.
abbrev ping_bytes : List ℕ
ping_bytes =
    elim (build_ping toy_box (2 ∷ []) (zeros 32) (toy_key (1 ∷ [])) (zeros 12) (zeros 24)) [
      | ok bytes ↦ bytes
      | err e ↦ []
    ]

abbrev pinged : World
pinged = handle_recv (node (1 ∷ [])) 130 addr_b ping_bytes knowing

no_seven : (d : Key) → lookup d knowing.state.disco_to_node ≡ some (7 ∷ []) → ⊥
no_seven d l = let (_, seven) = single (toy_key (2 ∷ [])) d (9 ∷ []) (7 ∷ []) l in ground arith

handle_recv-Answers_example :
    (lookup (7 ∷ []) pinged.state.peers ≡ lookup (7 ∷ []) knowing.state.peers)
    × (path_in addr_a (lookup (7 ∷ []) pinged.state.peers)
        ≡ path_in addr_a (lookup (7 ∷ []) knowing.state.peers))
    × (known (lookup (9 ∷ []) pinged.state.peers) ≡ known (lookup (9 ∷ []) knowing.state.peers))
    × (pinged.state.disco_to_node ≡ knowing.state.disco_to_node)
    × (pinged.state.local_endpoints ≡ knowing.state.local_endpoints)
    × (pinged.state.last_cmm_sent_at ≡ knowing.state.last_cmm_sent_at)
    × (pinged.state.cmm_pending ≡ knowing.state.cmm_pending)
    × Answers 130 knowing pinged
handle_recv-Answers_example =
    handle_recv-Answers (node (1 ∷ [])) 130 addr_b ping_bytes knowing (7 ∷ []) (7 ∷ []) (9 ∷ [])
      addr_a (λ d p opened l. no_seven d l) (λ d p opened l which. no_seven d l)

silent_reach :
    (n : Key) (p : PeerState) (a : SocketAddr) (st : PathState)
    → lookup n silent.state.peers ≡ some p
    → lookup a p.paths ≡ some st
    → Reachable (node (1 ∷ [])) p a st
silent_reach n p a st l m =
    let (_, q) = single (9 ∷ []) n _ p l in
    let found : lookup a ((addr_b, record new_path { last_ping_at = some 0 }) ∷ []) ≡ some st =
      ap (λ (p : PeerState). lookup a p.paths) q ∙ m in
    let (here, _) = single addr_b a _ st found in
    subst (λ (p : PeerState). Reachable (node (1 ∷ [])) p a st) q
      (subst
        (λ a.
          Reachable (node (1 ∷ []))
            (record peer_b { paths = (addr_b, record new_path { last_ping_at = some 0 }) ∷ [] }) a
            st)
        here (inr (unfold contains any in refl, refl)))

ping_pump-queues_nothing_example : (ping_pump (node (1 ∷ [])) 20000 silent).state.cmm_pending ≡ []
ping_pump-queues_nothing_example =
    ping_pump-queues_nothing (node (1 ∷ [])) 20000 silent toy-Sends
      (
        (unfold lookup in refl, tt),
        λ n p l.
            subst (λ (p : PeerState). Unique p.paths) (single (9 ∷ []) n _ p l).1
              (unfold lookup in refl, tt),
      )
      silent_reach
