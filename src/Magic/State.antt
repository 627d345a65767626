-- ===== src/Magic/State.antt =====
-- ts-magicsock/src/lib.rs: the state behind the lock, and the calls that only read or change it.
-- An instant is a number of milliseconds; `duration_since` is 0 for a later one, as `-` is.
use tailscale_vita.Prelude.{
  ℕ, ◌-◌, ◌*◌, Bool, true, false, not, ◌&&◌, ◌||◌, ◌≡◌, ◌↔◌, List, [], ◌++◌, Option, none, some,
  eqb, ltb, if◌then◌else◌, Eq, ◌==◌, nat_eq, list_eq, filter, filter_map, for_each, min_by_key,
  contains, lookup, insert, remove, keys, arith,
}
use tailscale_vita.Wg.Peer.{Key, SocketAddr, v4, v6}
use tailscale_vita.Disco.Packet.{Error}

abbrev pub addr_beq : SocketAddr → SocketAddr → Bool
addr_beq (v4 a p) (v4 b q) = eqb a b && eqb p q
addr_beq (v6 a p f s) (v6 b q g t) = eqb a b && eqb p q && eqb f g && eqb s t
addr_beq _ _ = false

pub addr_beq_iff : (a b : SocketAddr) → (addr_beq a b ≡ true) ↔ (a ≡ b)
addr_beq_iff (v4 a p) (v4 b q) = ground arith
addr_beq_iff (v6 a p f s) (v6 b q g t) = ground arith
addr_beq_iff (v4 a p) (v6 b q g t) = ground arith
addr_beq_iff (v6 a p f s) (v4 b q) = ground arith

instance abbrev pub addr_eq : Eq SocketAddr
addr_eq = record { beq = addr_beq; beq_iff = addr_beq_iff }

-- error.rs; an I/O error by its kind.
pub data IoErrorKind : Type 0 where
  addr_not_available send_failed : IoErrorKind

pub data MagicError : Type 0 where
  io : IoErrorKind → MagicError
  disco : Error → MagicError
  transport_mismatch unknown_peer stun_parse_failed no_endpoints ping_timeout : MagicError

abbrev pub ping_interval : ℕ
ping_interval = 5 * 1000

abbrev pub heartbeat_interval : ℕ
heartbeat_interval = 3 * 1000

abbrev pub alive_ttl : ℕ
alive_ttl = 30 * 1000

abbrev pub max_peer_paths : ℕ
max_peer_paths = 24

abbrev pub learned_src_ttl : ℕ
learned_src_ttl = 10 * 60 * 1000

abbrev pub cmm_trigger_after : ℕ
cmm_trigger_after = 10 * 1000

abbrev pub cmm_rate_limit : ℕ
cmm_rate_limit = 5 * 1000

abbrev pub cmm_max_endpoints : ℕ
cmm_max_endpoints = 16

pub record PathState : Type 0 where
  pub last_ping_at : Option ℕ
  pub last_pong_at : Option ℕ
  pub outstanding_tx_id : Option (List ℕ)
  pub rtt : Option ℕ
  pub last_src_ping_at : Option ℕ

abbrev pub new_path : PathState
new_path = record {
  last_ping_at = none;
  last_pong_at = none;
  outstanding_tx_id = none;
  rtt = none;
  last_src_ping_at = none;
}

-- `at.map(|t| now.duration_since(t) < ttl).unwrap_or(false)`
abbrev pub within : (ttl now : ℕ) → Option ℕ → Bool
within ttl now none = false
within ttl now (some t) = ltb (now - t) ttl

unfoldable pub alive : (now : ℕ) → PathState → Bool
alive now p = within alive_ttl now p.last_pong_at

pub record PeerState : Type 0 where
  pub disco_pub : Key
  pub endpoints : List SocketAddr
  pub paths : List (SocketAddr × PathState)

-- A result channel is the number under which its receiver waits.
pub record StunInflight : Type 0 where
  pub sent_at : ℕ
  pub result_tx : ℕ

pub record PingInflight : Type 0 where
  pub sent_at : ℕ
  pub target : SocketAddr
  pub result_tx : ℕ

pub record MagicState : Type 0 where
  pub peers : List (Key × PeerState)
  pub disco_to_node : List (Key × Key)
  pub stun_outstanding : List (List ℕ × StunInflight)
  pub ping_outstanding : List (List ℕ × PingInflight)
  pub local_endpoints : List SocketAddr
  pub last_cmm_sent_at : List (Key × ℕ)
  pub cmm_pending : List (Key × List ℕ)

abbrev pub new_magic : MagicState
new_magic = record {
  peers = [];
  disco_to_node = [];
  stun_outstanding = [];
  ping_outstanding = [];
  local_endpoints = [];
  last_cmm_sent_at = [];
  cmm_pending = [];
}

abbrev pub path_or_new : Option PathState → PathState
path_or_new none = new_path
path_or_new (some p) = p

-- `paths.entry(addr).or_insert_with(PathState::new)`
unfoldable pub or_insert :
    SocketAddr → List (SocketAddr × PathState) → List (SocketAddr × PathState)
or_insert addr paths = insert addr (path_or_new (lookup addr paths)) paths

-- The paths that `upsert_peer` keeps: of advertised endpoints, or learned from a recent ping.
unfoldable pub retain_paths :
    (now : ℕ) → List SocketAddr → List (SocketAddr × PathState) → List (SocketAddr × PathState)
retain_paths now endpoints paths =
    filter (λ (addr, st). contains endpoints addr || within learned_src_ttl now st.last_src_ping_at)
      paths

unfoldable pub merge_peer : (now : ℕ) → Key → List SocketAddr → PeerState → PeerState
unfolding retain_paths
merge_peer now disco_pub endpoints entry =
    let kept = retain_paths now endpoints entry.paths in
    record {
      disco_pub = disco_pub;
      endpoints = endpoints ++ filter (λ a. not (contains endpoints a)) (keys kept);
      paths = for_each or_insert endpoints kept;
    }

unfoldable pub upsert_peer :
    (now : ℕ) → (node_pub disco_pub : Key) → List SocketAddr → MagicState → MagicState
upsert_peer now node_pub disco_pub endpoints s =
    let entry : PeerState = (elim (lookup node_pub s.peers) [
      | some p ↦ p
      | none ↦ record { disco_pub = disco_pub; endpoints = []; paths = [] }
    ]) in
    record s {
      disco_to_node =
          insert disco_pub node_pub (filter (λ (d, n). not (n == node_pub)) s.disco_to_node);
      peers = insert node_pub (merge_peer now disco_pub endpoints entry) s.peers;
    }

unfoldable pub remove_peer : Key → MagicState → MagicState
remove_peer node_pub s = elim (lookup node_pub s.peers) [
  | none ↦ s
  | some p ↦ record s {
    peers = remove node_pub s.peers;
    disco_to_node = remove p.disco_pub s.disco_to_node;
  }
]

abbrev pub rtt_or_max : SocketAddr × PathState → ℕ
rtt_or_max (addr, st) = elim st.rtt [ some d ↦ d | none ↦ 60 * 1000 ]

unfoldable pub alive_endpoint : (now : ℕ) → Key → MagicState → Option SocketAddr
alive_endpoint now node_pub s = elim (lookup node_pub s.peers) [
  | none ↦ none
  | some peer ↦ elim (min_by_key rtt_or_max (filter (λ (addr, st). alive now st) peer.paths)) [
    | none ↦ none
    | some (addr, st) ↦ some addr
  ]
]

-- `values().filter(alive).filter_map(rtt).min()`
unfoldable pub peer_rtt : (now : ℕ) → Key → MagicState → Option ℕ
peer_rtt now node_pub s = elim (lookup node_pub s.peers) [
  | none ↦ none
  | some peer ↦
      min_by_key (λ d. d)
        (filter_map (λ (addr, st). if alive now st then st.rtt else none) peer.paths)
]

unfoldable pub set_local_endpoints : List SocketAddr → MagicState → MagicState
set_local_endpoints endpoints s = record s { local_endpoints = endpoints }

unfoldable pub take_pending_cmm : MagicState → List (Key × List ℕ) × MagicState
take_pending_cmm s = (s.cmm_pending, record s { cmm_pending = [] })
