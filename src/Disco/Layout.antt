-- ===== src/Disco/Layout.antt =====
-- Casts of the layouts undo the bytes of a value: endpoints, messages, headers and packets.
use tailscale_vita.Prelude.{
  ℕ, zero, suc, ◌+◌, ◌*◌, ◌/◌, ◌%◌, ◌^◌, ◌<◌, ◌≡◌, refl, sym, ap, ◌∙◌, true, false, list_eq, nat_eq,
  List, [], ◌∷◌, ◌++◌, length, length-append, take, drop, ltb, eqb, take-append, drop-append, All,
  some, arith,
}
use tailscale_vita.Wg.Peer.{SocketAddr, v4, v6}
use tailscale_vita.Disco.Endpoint.{
  Endpoint, be_bytes, from_be, socket_addr, from_socket_addr, to_bytes, of_bytes,
}
use tailscale_vita.Disco.Message.{
  MessageType, ping, to_u8, try_from, Ping, Pong, CallMeMaybe, ping_of_bytes, pong_of_bytes,
  endpoints_of_bytes, endpoints_to_bytes, call_me_maybe_of_bytes, ping_message, pong_message,
  call_me_maybe_message,
}
use native.Mathlib.Nat.{pow-suc}

pub length-be_bytes : (n x : ℕ) → length (be_bytes n x) ≡ n
unfolding be_bytes
length-be_bytes zero x = refl
length-be_bytes (suc n) x =
    omega (arith, length-append (be_bytes n (x / 256)) (x % 256 ∷ []), length-be_bytes n (x / 256))

from_be-append :
    (acc : ℕ) (xs : List ℕ) (b : ℕ) → from_be acc (xs ++ b ∷ []) ≡ from_be acc xs * 256 + b
unfolding from_be
from_be-append acc [] b = refl
from_be-append acc (x ∷ xs) b = from_be-append (acc * 256 + x) xs b

pub from_be-be_bytes : (n x : ℕ) → x < 256 ^ n → from_be 0 (be_bytes n x) ≡ x
unfolding be_bytes from_be
from_be-be_bytes zero x h = omega arith
from_be-be_bytes (suc n) x h =
    let small : x / 256 < 256 ^ n = omega (arith, pow-suc 256 n) in
    omega
      (arith, from_be-append 0 (be_bytes n (x / 256)) (x % 256), from_be-be_bytes n (x / 256) small)

-- The fields have the width that they have in Rust.
abbrev pub EndpointFits : Endpoint → Type 0
EndpointFits e = (e.addr < 256 ^ 16) × (e.port < 256 ^ 2)

-- Cutting at the length of a known front.
pub take_front : {A : Type 0} (n : ℕ) (xs ys : List A) → length xs ≡ n → take n (xs ++ ys) ≡ xs
take_front n xs ys e = ap (λ k. take k (xs ++ ys)) (sym e) ∙ take-append xs ys

pub drop_front : {A : Type 0} (n : ℕ) (xs ys : List A) → length xs ≡ n → drop n (xs ++ ys) ≡ ys
drop_front n xs ys e = ap (λ k. drop k (xs ++ ys)) (sym e) ∙ drop-append xs ys

pub length-to_bytes : (e : Endpoint) → length (to_bytes e) ≡ 18
unfolding to_bytes
length-to_bytes e = omega (
  arith,
  length-append (be_bytes 16 e.addr) (be_bytes 2 e.port),
  length-be_bytes 16 e.addr,
  length-be_bytes 2 e.port,
)

pub of_bytes-to_bytes : (e : Endpoint) → EndpointFits e → of_bytes (to_bytes e) ≡ e
unfolding of_bytes to_bytes
of_bytes-to_bytes e (a, p) =
    let front =
      take_front 16 (be_bytes 16 e.addr) (be_bytes 2 e.port) (length-be_bytes 16 e.addr) in
    let back = drop_front 16 (be_bytes 16 e.addr) (be_bytes 2 e.port) (length-be_bytes 16 e.addr) in
    rw (front, back, from_be-be_bytes 16 e.addr a, from_be-be_bytes 2 e.port p) refl

-- A `SocketAddr` of Rust, and not one of IPv6 that stands for an IPv4 address.
abbrev pub Unmapped : SocketAddr → Type 0
Unmapped (v4 ip port) = (ip < 2 ^ 32) × (port < 256 ^ 2)
Unmapped (v6 ip port flowinfo scope_id) =
    (ip < 256 ^ 16) × (port < 256 ^ 2) × (eqb (ip / 2 ^ 32) 0xffff ≡ false)

from_socket_addr-EndpointFits : (sa : SocketAddr) → Unmapped sa → EndpointFits (from_socket_addr sa)
unfolding from_socket_addr
from_socket_addr-EndpointFits (v4 ip port) (a, p) = (omega arith, p)
from_socket_addr-EndpointFits (v6 ip port flowinfo scope_id) (a, p, u) = (a, p)

-- An address of IPv6 without what it has beside the address and the port.
abbrev pub unscoped : SocketAddr → SocketAddr
unscoped (v4 ip port) = v4 ip port
unscoped (v6 ip port flowinfo scope_id) = v6 ip port 0 0

socket_addr-Unmapped :
    (sa : SocketAddr) → Unmapped sa → socket_addr (from_socket_addr sa) ≡ unscoped sa
unfolding from_socket_addr socket_addr
socket_addr-Unmapped (v4 ip port) (a, p) =
    let high : (0xffff * 2 ^ 32 + ip) / 2 ^ 32 ≡ 0xffff = omega arith in
    let low : (0xffff * 2 ^ 32 + ip) % 2 ^ 32 ≡ ip = omega arith in rw (high, low) refl
socket_addr-Unmapped (v6 ip port flowinfo scope_id) (a, p, u) = rw u refl

-- A socket address, IPv4 or IPv6, keeps its family, address and port over 18 bytes on the wire,
-- unless it is an IPv6 address that maps an IPv4 one; and what else an IPv6 address has, its flow
-- information and its scope, is 0 afterwards, whatever it was.
pub socket_addr-from_socket_addr :
    (sa : SocketAddr)
    → Unmapped sa
    → (length (to_bytes (from_socket_addr sa)) ≡ 18)
      × (socket_addr (of_bytes (to_bytes (from_socket_addr sa))) ≡ unscoped sa)
socket_addr-from_socket_addr sa h = (
  length-to_bytes (from_socket_addr sa),
  ap socket_addr (of_bytes-to_bytes (from_socket_addr sa) (from_socket_addr-EndpointFits sa h))
      ∙ socket_addr-Unmapped sa h,
)

pub try_from-to_u8 : (t : MessageType) → try_from (to_u8 t) ≡ some t
unfolding try_from to_u8
try_from-to_u8 ping = refl
try_from-to_u8 _ = refl

-- Fields of the sizes of their arrays.
abbrev pub PingFits : Ping → Type 0
PingFits m = (length m.tx_id ≡ 12) × (length m.node_key ≡ 32)

abbrev pub PongFits : Pong → Type 0
PongFits m = (length m.tx_id ≡ 12) × EndpointFits m.src

abbrev pub CallMeMaybeFits : CallMeMaybe → Type 0
CallMeMaybeFits m = All EndpointFits m.endpoints

pub ping_of_bytes-as_bytes :
    (m : Ping) → PingFits m → ping_of_bytes (ping_message.as_bytes m) ≡ some m
unfolding ping_of_bytes
ping_of_bytes-as_bytes m (t, k) =
    let rest : List ℕ = m.node_key ++ m.padding in
    let long : ltb (length (m.tx_id ++ rest)) 44 ≡ false =
      ground (arith, length-append m.tx_id rest, length-append m.node_key m.padding) in
    rw
      (
        long,
        take_front 12 m.tx_id rest t,
        drop_front 12 m.tx_id rest t,
        take_front 32 m.node_key m.padding k,
        drop_front 32 m.node_key m.padding k,
      )
      refl

pub pong_of_bytes-as_bytes :
    (m : Pong) → PongFits m → pong_of_bytes (pong_message.as_bytes m) ≡ some m
unfolding pong_of_bytes
pong_of_bytes-as_bytes m (t, e) =
    let size : eqb (length (m.tx_id ++ to_bytes m.src)) 30 ≡ true =
      ground (arith, length-append m.tx_id (to_bytes m.src), length-to_bytes m.src) in
    rw
      (
        size,
        take_front 12 m.tx_id (to_bytes m.src) t,
        drop_front 12 m.tx_id (to_bytes m.src) t,
        of_bytes-to_bytes m.src e,
      )
      refl

pub length-endpoints_to_bytes :
    (es : List Endpoint) → length (endpoints_to_bytes es) ≡ length es * 18
unfolding endpoints_to_bytes
length-endpoints_to_bytes [] = refl
length-endpoints_to_bytes (e ∷ es) = omega (
  arith,
  length-append (to_bytes e) (endpoints_to_bytes es),
  length-to_bytes e,
  length-endpoints_to_bytes es,
)

endpoints_of_bytes-to_bytes :
    (es : List Endpoint)
    → All EndpointFits es
    → endpoints_of_bytes (length es) (endpoints_to_bytes es) ≡ es
unfolding endpoints_of_bytes endpoints_to_bytes
endpoints_of_bytes-to_bytes [] h = refl
endpoints_of_bytes-to_bytes (e ∷ es) h =
    let size = length-to_bytes e in
    rw
      (
        take_front 18 (to_bytes e) (endpoints_to_bytes es) size,
        drop_front 18 (to_bytes e) (endpoints_to_bytes es) size,
        of_bytes-to_bytes e h.0,
        endpoints_of_bytes-to_bytes es h.1,
      )
      refl

pub call_me_maybe_of_bytes-as_bytes :
    (m : CallMeMaybe)
    → CallMeMaybeFits m
    → call_me_maybe_of_bytes (call_me_maybe_message.as_bytes m) ≡ some m
unfolding call_me_maybe_of_bytes
call_me_maybe_of_bytes-as_bytes m h =
    let size = length-endpoints_to_bytes m.endpoints in
    let whole : eqb (length m.endpoints * 18 % 18) 0 ≡ true = ground arith in
    let count : length m.endpoints * 18 / 18 ≡ length m.endpoints = omega arith in
    rw (size, whole, count, endpoints_of_bytes-to_bytes m.endpoints h) refl
