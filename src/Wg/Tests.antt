-- ===== src/Wg/Tests.antt =====
-- The theorems on the engine at a concrete engine, over a small tunnel.
use tailscale_vita.Prelude.{
  ◌||◌, any, ℕ, ◌<◌, eqb, subst, insert, ◌+◌, ◌-◌, ◌*◌, ◌/◌, ◌^◌, ◌≡◌, ◌≢◌, refl, ◌↔◌, inr, Bool,
  true, false, List, [], ◌∷◌, ◌++◌, map, none, some, lookup, All, Any, list_eq, nat_eq, arith,
}
use tailscale_vita.Wg.Peer.{Peer, PeerConfig, Cell, no_stats, udp, derp, v4, Ipv4Cidr, contains}
use tailscale_vita.Wg.Cidr.{contains_iff}
use tailscale_vita.Wg.Policy.Rules.{FilterRule, allow_all, rules, allows}
use tailscale_vita.Wg.Policy.Meaning.{Admits, allows_iff}
use tailscale_vita.Wg.Indices.Routes.{lookup_ip}
use tailscale_vita.Wg.Indices.Routes
use tailscale_vita.Wg.Indices.Tables.{Indices, insert_all, remove_key}
use tailscale_vita.Wg.Indices.Tables
use tailscale_vita.Wg.Indices.Dispatch.{single_peer, route_inbound, packet_data}
use tailscale_vita.Wg.Indices.Longest.{Longest, changes, inserted, lookup_ip-Longest}
use tailscale_vita.Wg.Engine.State.{
  Engine, NewTunn, upsert_peer, upsert_all, build_peer, new_engine,
}
use tailscale_vita.Wg.Engine.Coherence.{IsCoherent}
use tailscale_vita.Wg.Engine.Upsert.{
  upserts, removes, Coherent, calls, calls-new_engine-Coherent, KeepsSession,
  upsert_peer-KeepsSession, Rebuilt, upsert_peer-rebuilds,
}
use tailscale_vita.Wg.Engine.Delivery.{front, le32, route_inbound-delivers}
use tailscale_vita.Wg.Pump.Tunn.{
  Boringtun, TunnResult, failed, write_to_network, write_to_tunnel_v4, outcome_of,
}
use tailscale_vita.Wg.Pump.Tunn
use tailscale_vita.Wg.Pump.Inbound.{World, admits, deliver, handle_inbound}
use tailscale_vita.Wg.Pump.Delivered.{filter, deliver-filter}
use tailscale_vita.Wg.Pump.Flow.{Contract}
use tailscale_vita.Wg.Pump.Growth.{KnownCidrs, Grows, handle_inbound-Grows}
use tailscale_vita.Wg.Pump.Outbound.{handle_outbound}
use tailscale_vita.Wg.Pump.Sending.{Encapsulates, Sends, handle_outbound-Sends}
use tailscale_vita.Wg.Pump.Fallback.{handle_inbound-moves_fallback}

-- 10.0.0.0/8 and 10.1.0.0/16.
abbrev wide : Ipv4Cidr
wide = record { addr = 10 * 2 ^ 24; prefix = 8 }

abbrev narrow : Ipv4Cidr
narrow = record { addr = 10 * 2 ^ 24 + 2 ^ 16; prefix = 16 }

abbrev peer : Peer
peer = record { pubkey = 7 ∷ []; our_index = 1; allowed_ips = wide ∷ [] }

abbrev other_peer : Peer
other_peer = record { pubkey = 8 ∷ []; our_index = 2; allowed_ips = narrow ∷ [] }

contains_iff_example :
    (contains wide (10 * 2 ^ 24 + 5) ≡ true)
    ↔ ((10 * 2 ^ 24 + 5) / 2 ^ (32 - 8) ≡ (10 * 2 ^ 24) / 2 ^ (32 - 8))
contains_iff_example = contains_iff wide (10 * 2 ^ 24 + 5) (omega arith) (omega arith) (omega arith)

abbrev web_rule : FilterRule
web_rule = record {
  src_ips = wide ∷ [];
  dst_ports = record { ip = narrow; port_first = 80; port_last = 90 } ∷ [];
  ip_protocols = 6 ∷ [];
}

allows_iff_example :
    (allows (rules (web_rule ∷ [])) (10 * 2 ^ 24) (10 * 2 ^ 24 + 2 ^ 16) 6 (some 80) ≡ true)
    ↔ Any (Admits (10 * 2 ^ 24) (10 * 2 ^ 24 + 2 ^ 16) 6 (some 80)) (web_rule ∷ [])
allows_iff_example =
    allows_iff (web_rule ∷ []) (10 * 2 ^ 24) (10 * 2 ^ 24 + 2 ^ 16) 6 (some 80)
      ((((omega arith, omega arith), tt), ((omega arith, omega arith), tt)), tt) (omega arith)
      (omega arith)

lookup_ip-Longest_example :
    Longest
      (10 * 2 ^ 24 + 2 ^ 16)
      (changes Routes.new (inserted peer ∷ inserted other_peer ∷ [])).entries
      (lookup_ip
        (changes Routes.new (inserted peer ∷ inserted other_peer ∷ []))
        (10 * 2 ^ 24 + 2 ^ 16))
lookup_ip-Longest_example =
    lookup_ip-Longest (inserted peer ∷ inserted other_peer ∷ []) (10 * 2 ^ 24 + 2 ^ 16)

-- A tunnel that answers message 1 with a datagram, has one more to give, and reads the rest as one
-- IPv4 packet from 10.0.0.1.
abbrev plaintext : List ℕ
plaintext =
    0x45 ∷ 0 ∷ 0 ∷ 20 ∷ 0 ∷ 0 ∷ 0 ∷ 0 ∷ 64 ∷ 1 ∷ 0 ∷ 0 ∷ 10 ∷ 0 ∷ 0 ∷ 1 ∷ 10 ∷ 1 ∷ 0 ∷ 1 ∷ []

abbrev answer : (handshake : Bool) → Bool → Bool × TunnResult
answer true t = (true, write_to_network (2 ∷ []))
answer false t = (t, write_to_tunnel_v4 plaintext)

abbrev decapsulate : List ℕ → Bool → Bool × TunnResult
decapsulate [] true = (false, write_to_network (9 ∷ []))
decapsulate [] false = (false, TunnResult.done)
decapsulate (x ∷ d) t = answer (eqb x 1) t

abbrev small_tunnel : Boringtun Bool
small_tunnel = record {
  decapsulate = decapsulate;
  encapsulate = λ p t. (t, write_to_network p);
  update_timers = λ t. (t, TunnResult.done);
}

abbrev queued : Bool → ℕ
queued true = 1
queued false = 0

plaintext-bytes : All (λ b. b < 256) plaintext
plaintext-bytes = ground arith

payload : (b : List ℕ) → Tunn.tunnel_v4 plaintext ≡ Tunn.tunnel_v4 b → plaintext ≡ b
payload b e = cc

answer-bytes :
    (h t : Bool) (b : List ℕ) → outcome_of (answer h t).1 ≡ Tunn.tunnel_v4 b → All (λ c. c < 256) b
unfolding outcome_of
answer-bytes true t b e = absurd (cc)
answer-bytes false t b e = subst (All (λ c. c < 256)) (payload b e) plaintext-bytes

decapsulate-bytes :
    (d : List ℕ) (t : Bool) (b : List ℕ)
    → outcome_of (decapsulate d t).1 ≡ Tunn.tunnel_v4 b
    → All (λ c. c < 256) b
unfolding outcome_of
decapsulate-bytes [] true b e = absurd (cc)
decapsulate-bytes [] false b e = absurd (cc)
decapsulate-bytes (x ∷ d) t b e = answer-bytes (eqb x 1) t b e

small_tunnel-Contract : Contract small_tunnel 2
unfolding outcome_of
small_tunnel-Contract = record {
  pending = queued;
  bounded = elim [ true ↦ omega arith | false ↦ omega arith ];
  falls = elim [ true ↦ λ ne. omega arith | false ↦ λ ne. absurd (ne refl) ];
  bytes = decapsulate-bytes;
}

abbrev blank : Cell Bool
blank = record { transport_addr = none; auth_src = none; tunn = false; stats = no_stats }

abbrev new_tunn : NewTunn Bool
new_tunn secret key preshared keepalive index = false

abbrev config : List Ipv4Cidr → PeerConfig
config ips = record {
  pubkey = 7 ∷ [];
  preshared_key = none;
  persistent_keepalive_secs = some 25;
  allowed_ips = ips;
  initial_endpoint = some (derp 1 (7 ∷ []));
}

calls-new_engine-Coherent_example : Coherent (
    calls new_tunn
      (new_engine new_tunn blank (5 ∷ []) (config (wide ∷ []) ∷ []))
      (upserts (config (narrow ∷ [])) ∷ removes (7 ∷ []) ∷ []))
calls-new_engine-Coherent_example =
    calls-new_engine-Coherent new_tunn blank (5 ∷ []) (config (wide ∷ []) ∷ [])
      (upserts (config (narrow ∷ [])) ∷ removes (7 ∷ []) ∷ []) (omega arith)

-- An engine that knows both peers.
abbrev both : Indices
both = record {
  by_pubkey = (7 ∷ [], peer) ∷ (8 ∷ [], other_peer) ∷ [];
  by_idx = (1, peer) ∷ (2, other_peer) ∷ [];
  by_ip = record { entries = (narrow, other_peer) ∷ (wide, peer) ∷ [] };
}

abbrev engine : Engine Bool
engine = record {
  indices = both;
  inbound_policy = allow_all;
  next_idx = 3;
  our_static_secret = 5 ∷ [];
  cells = λ i. blank;
}

known : lookup (7 ∷ []) both.by_pubkey ≡ some peer
unfolding lookup
known = refl

upsert_peer-KeepsSession_example :
    KeepsSession new_tunn
      (config (wide ∷ []))
      engine
      peer
      (some (derp 1 (7 ∷ [])))
      2
      (upsert_peer new_tunn (config (wide ∷ [])) engine)
upsert_peer-KeepsSession_example =
    upsert_peer-KeepsSession new_tunn (config (wide ∷ [])) engine peer 2 known refl

rebuilds : (p : Peer) → lookup (7 ∷ []) both.by_pubkey ≡ some p → p.allowed_ips ≢ narrow ∷ []
unfolding lookup
rebuilds p e f = absurd (ground (arith, e, f))

nets : KnownCidrs both
nets = ground arith

upsert_peer-rebuilds_example :
    Rebuilt new_tunn
      (config (narrow ∷ []))
      engine
      (8 ∷ [])
      (upsert_peer new_tunn (config (narrow ∷ [])) engine)
upsert_peer-rebuilds_example =
    upsert_peer-rebuilds new_tunn (config (narrow ∷ [])) engine (8 ∷ []) (cc) rebuilds

abbrev world : World Bool
world = record { engine = engine; sent = []; tun_rx = []; notified = false }

handle_inbound-Grows_example :
    (w' : World Bool) × (handle_inbound small_tunnel 2 100
        (udp (v4 1 2))
        (4 ∷ 0 ∷ 0 ∷ 0 ∷ 0 ∷ 1 ∷ 0 ∷ 0 ∷ [])
        world
      ≡ some w')
    × Grows both allow_all world w'
handle_inbound-Grows_example =
    handle_inbound-Grows small_tunnel small_tunnel-Contract 100 (udp (v4 1 2))
      (4 ∷ 0 ∷ 0 ∷ 0 ∷ 0 ∷ 1 ∷ 0 ∷ 0 ∷ []) world tt nets

handle_inbound-moves_fallback_example :
    (w' : World Bool) × (handle_inbound small_tunnel 2 100
        (derp 3 (66 ∷ []))
        (1 ∷ 0 ∷ 0 ∷ 0 ∷ [])
        world
      ≡ some w')
    × All
        (λ p. (w'.engine.cells p.our_index).transport_addr ≡ some (derp 3 (66 ∷ [])))
        (map (λ entry. entry.1) both.by_pubkey)
handle_inbound-moves_fallback_example =
    handle_inbound-moves_fallback small_tunnel 2 100 3 (66 ∷ []) (1 ∷ 0 ∷ 0 ∷ 0 ∷ [])
      small_tunnel-Contract world tt nets (omega arith) (omega arith)

-- The engine that starts with both peers.
abbrev built : Engine Bool
built =
    calls new_tunn
      (new_engine new_tunn blank (5 ∷ [])
        (config (wide ∷ []) ∷ (record (config (narrow ∷ [])) { pubkey = 8 ∷ [] }) ∷ []))
      []

built-peer : lookup (7 ∷ []) built.indices.by_pubkey ≡ some peer
unfolding calls new_engine upsert_all upsert_peer build_peer insert_all remove_key lookup insert
    Tables.new
built-peer = refl

built-next : built.next_idx ≡ 3
unfolding calls new_engine upsert_all upsert_peer build_peer insert_all remove_key lookup insert
    Tables.new
built-next = refl

built-Coherent : IsCoherent built.indices built.next_idx
built-Coherent =
    calls-new_engine-Coherent new_tunn blank (5 ∷ [])
      (config (wide ∷ []) ∷ (record (config (narrow ∷ [])) { pubkey = 8 ∷ [] }) ∷ []) []
      (omega arith)

route_inbound-delivers_example :
    route_inbound built.indices (front packet_data 0 ++ le32 (1 * 2 ^ 8 + 5) ++ 9 ∷ [])
    ≡ single_peer peer
route_inbound-delivers_example =
    route_inbound-delivers built.indices built.next_idx (7 ∷ []) peer packet_data 0 5 (9 ∷ [])
      built-Coherent built-peer (omega (arith, built-next)) (omega arith) (inr (inr refl))

abbrev outbound : List ℕ
outbound = 0x45 ∷ 0 ∷ 0 ∷ 20 ∷ 0 ∷ 0 ∷ 0 ∷ 0 ∷ 64 ∷ 1 ∷ 0 ∷ 0 ∷ 10 ∷ 9 ∷ 0 ∷ 1 ∷ 10 ∷ 1 ∷ 0 ∷ 1 ∷ []

small_tunnel-Encapsulates : Encapsulates small_tunnel
unfolding outcome_of
small_tunnel-Encapsulates p t = inr (p, refl)

-- Both peers have a fallback address.
abbrev reachable : World Bool
reachable = record world {
  engine = record engine { cells = λ i. record blank { transport_addr = some (udp (v4 9 9)) } };
}

handle_outbound-Sends_example :
    (w' : World Bool) × (handle_outbound small_tunnel 100 none outbound reachable ≡ some w')
    × (w'.engine.indices ≡ both)
    × (w'.tun_rx ≡ [])
    × Sends small_tunnel 100 none outbound reachable w'
handle_outbound-Sends_example =
    handle_outbound-Sends small_tunnel 100 none small_tunnel-Encapsulates outbound reachable

-- The packets come from 10.0.0.1 and 10.9.0.1, both in the peer's network.
deliver-filter_example :
    ((deliver 100 peer (plaintext ∷ outbound ∷ []) false world).1.tun_rx
      ≡ [] ++ filter (admits engine peer) (plaintext ∷ outbound ∷ []))
    × ((deliver 100 peer (plaintext ∷ outbound ∷ []) false world).0
        ≡ (false || any (admits engine peer) (plaintext ∷ outbound ∷ [])))
deliver-filter_example = deliver-filter 100 peer (plaintext ∷ outbound ∷ []) false world
