-- ===== src/Runtime/Tests.antt =====
-- The theorems on the runtime at small maps and runs.
use tailscale_vita.Prelude.{
  ℕ, ◌≤◌, ◌≡◌, refl, ◌↔◌, inl, true, false, List, [], ◌∷◌, none, some, none-some, lookup, list_eq,
  nat_eq, Has,
}
use tailscale_vita.Prelude.Int.{pos}
use tailscale_vita.Wg.Peer.{SocketAddr, v4, no_stats}
use tailscale_vita.Wg.Indices.Tables
use tailscale_vita.Wg.Engine.State.{Engine, NewTunn}
use tailscale_vita.Control.NetMap.State.{PeerSnapshot, new_delta}
use tailscale_vita.Disco.Message.{Ping, Pong}
use tailscale_vita.Magic.Handle.{Env, World, handle_ping, handle_pong}
use tailscale_vita.Magic.State.{MagicState, PeerState, new_magic}
use tailscale_vita.Runtime.Delta.{NetMapSnapshot, push_delta_to_engine, push_delta_to_magicsock}
use tailscale_vita.Runtime.Routes.{NoDefaultRoute, push_delta_to_engine-NoDefaultRoute}
use tailscale_vita.Runtime.Relink.{push_delta_to_magicsock-unlinks}
use tailscale_vita.Runtime.Lifecycle.{
  new_tracker, auth, connecting, online, mark_fatal, set_stopped, clear_stopped, tick,
}
use tailscale_vita.Runtime.States.{
  Signal, maps, derps, ticks, control_reconnects, signals, signals-Sticky,
  clear_stopped-set_stopped,
}
use tailscale_vita.Runtime.History.{Live}
use tailscale_vita.Runtime.Online.{tick-Live}
use tailscale_vita.Runtime.Diagnostics.{spells, signals-diagnostics}

abbrev snapshot : PeerSnapshot SocketAddr
snapshot = record {
  node_id = pos 7;
  node_key = 2 ∷ [];
  disco_key = some (8 ∷ []);
  name = [];
  allowed_ips = record { addr = 0; prefix = 0 } ∷ record { addr = 0x64400002; prefix = 32 } ∷ [];
  home_derp = 0;
  online = true;
  endpoints = v4 0x0a000002 41641 ∷ [];
  last_seen = none;
  key_expiry = none;
}

-- The node 7 comes back under the key 2 after the key 1.
abbrev update : NetMapSnapshot
update = record {
  packet_filter = none;
  delta = record new_delta { upserted = snapshot ∷ []; removed = (1 ∷ []) ∷ [] };
}

abbrev old_peer : PeerState
old_peer = record { disco_pub = 8 ∷ []; endpoints = []; paths = [] }

abbrev knowing_old : MagicState
knowing_old = record new_magic {
  peers = (1 ∷ [], old_peer) ∷ [];
  disco_to_node = (8 ∷ [], 1 ∷ []) ∷ [];
}

-- A machine that draws zeros, and whose box boxes nothing.
abbrev machine : Env
machine = record {
  bx = record {
    public_key = λ secret. secret;
    seal = λ receiver secret nonce message. some ([], message);
    unseal = λ sender secret nonce tag message. some message;
  };
  our_disco_priv = 4 ∷ [];
  our_node_pub = 5 ∷ [];
  fill_bytes = λ draw n. [];
  has_v6 = false;
  accepts = λ addr bytes. true;
}

abbrev world : World
world = record {
  state = new_magic;
  draws = 0;
  sent = [];
  non_disco = record { cap = none; queue = []; sender_count = 1; receiver_count = 1 };
  results = [];
}

abbrev pushed : MagicState
pushed = push_delta_to_magicsock 5 update knowing_old

abbrev a_ping : Ping
a_ping = record { tx_id = 3 ∷ []; node_key = 2 ∷ []; padding = [] }

abbrev a_pong : Pong
a_pong = record { tx_id = 3 ∷ []; src = record { addr = 0; port = 0 } }

push_delta_to_magicsock-unlinks_example :
    (lookup (8 ∷ []) pushed.disco_to_node ≡ none)
    × Has (2 ∷ []) pushed.peers
    × ((handle_ping machine 9 (v4 1 2) (8 ∷ []) a_ping (record world { state = pushed })).state
        ≡ pushed)
    × ((handle_pong machine 9
          (v4 1 2)
          (8 ∷ [])
          a_pong
          (record world { state = pushed })).state.peers
        ≡ pushed.peers)
push_delta_to_magicsock-unlinks_example =
    push_delta_to_magicsock-unlinks 5 update knowing_old snapshot (8 ∷ []) (1 ∷ []) old_peer machine
      9 (v4 1 2) a_ping a_pong world (inl refl) (inl refl) (refl, tt) (refl, tt) tt refl refl
      (unfold lookup in refl) refl

abbrev new_tunn : NewTunn ℕ
new_tunn secret pubkey psk keepalive index = index

abbrev empty_engine : Engine ℕ
empty_engine = record {
  indices = Tables.new;
  inbound_policy = tailscale_vita.Wg.Policy.Rules.deny_all;
  next_idx = 1;
  our_static_secret = [];
  cells = λ i. record { transport_addr = none; auth_src = none; tunn = 0; stats = no_stats };
}

push_delta_to_engine-NoDefaultRoute_example :
    NoDefaultRoute (push_delta_to_engine new_tunn 3 update empty_engine)
push_delta_to_engine-NoDefaultRoute_example =
    push_delta_to_engine-NoDefaultRoute new_tunn 3 update empty_engine
      (λ key p l. absurd (none-some {a = p} (unfold lookup Tables.new in l)))

abbrev run : List Signal
run = maps 10 ∷ ticks 20 ∷ derps 30 ∷ control_reconnects ∷ []

tick-Live_example : ((tick 40 (signals run new_tracker)).state ≡ online) ↔ Live 40 run
tick-Live_example = tick-Live run 40

signals-diagnostics_example : (signals run new_tracker).diagnostics ≤ spells run new_tracker
signals-diagnostics_example = signals-diagnostics run

signals-Sticky_example :
    ((signals run (mark_fatal auth [] new_tracker)).state ≡ (mark_fatal auth [] new_tracker).state)
    × ((signals run (mark_fatal auth [] new_tracker)).fatal_reason
        ≡ (mark_fatal auth [] new_tracker).fatal_reason)
signals-Sticky_example =
    signals-Sticky run (mark_fatal auth [] new_tracker) (unfold mark_fatal in tt)

clear_stopped-set_stopped_example :
    ((clear_stopped (set_stopped (mark_fatal auth (1 ∷ []) new_tracker))).state ≡ connecting)
    × ((clear_stopped (set_stopped (mark_fatal auth (1 ∷ []) new_tracker))).fatal_reason
        ≡ some (1 ∷ []))
clear_stopped-set_stopped_example = clear_stopped-set_stopped auth (1 ∷ []) new_tracker
