-- ===== src/Disco/Message.antt =====
-- message_type.rs, ping.rs, pong.rs, call_me_maybe.rs and the trait `Message` of lib.rs.
use tailscale_vita.Prelude.{
  ℕ, zero, suc, ◌+◌, ◌/◌, ◌%◌, ◌*◌, List, [], ◌∷◌, ◌++◌, length, take, drop, Option, none, some,
  ltb, eqb, if◌then◌else◌,
}
use tailscale_vita.Disco.Endpoint.{Endpoint, to_bytes, of_bytes}

pub data MessageType : Type 0 where
  ping pong call_me_maybe : MessageType
  bind_udp_relay_endpoint bind_udp_relay_endpoint_challenge : MessageType
  bind_udp_relay_endpoint_answer call_me_maybe_via : MessageType
  allocate_udp_relay_endpoints_request allocate_udp_relay_endpoints_response : MessageType

unfoldable pub to_u8 : MessageType → ℕ
to_u8 ping = 1
to_u8 pong = 2
to_u8 call_me_maybe = 3
to_u8 bind_udp_relay_endpoint = 4
to_u8 bind_udp_relay_endpoint_challenge = 5
to_u8 bind_udp_relay_endpoint_answer = 6
to_u8 call_me_maybe_via = 7
to_u8 allocate_udp_relay_endpoints_request = 8
to_u8 allocate_udp_relay_endpoints_response = 9

-- `TryFrom<u8>`
unfoldable pub try_from : ℕ → Option MessageType
try_from b =
    if eqb b 1
    then some ping
    else if eqb b 2
    then some pong
    else if eqb b 3
    then some call_me_maybe
    else if eqb b 4
    then some bind_udp_relay_endpoint
    else if eqb b 5
    then some bind_udp_relay_endpoint_challenge
    else if eqb b 6
    then some bind_udp_relay_endpoint_answer
    else if eqb b 7
    then some call_me_maybe_via
    else if eqb b 8
    then some allocate_udp_relay_endpoints_request
    else if eqb b 9
    then some allocate_udp_relay_endpoints_response
    else none

pub record Ping : Type 0 where
  pub tx_id : List ℕ
  pub node_key : List ℕ
  pub padding : List ℕ

pub record Pong : Type 0 where
  pub tx_id : List ℕ
  pub src : Endpoint

pub record CallMeMaybe : Type 0 where
  pub endpoints : List Endpoint

abbrev pub size_with_padding : ℕ → ℕ
size_with_padding n = 12 + 32 + n

abbrev pub pong_size : ℕ
pong_size = 30

unfoldable pub size_for_endpoint_count : ℕ → ℕ
size_for_endpoint_count n = 18 * n

-- The trait `Message`, with the casts of its layout: `ref_from_bytes` refuses bytes of a size that
-- the layout cannot have.
pub record Message (M : Type 0) : Type 0 where
  pub type : MessageType
  pub ref_from_bytes : List ℕ → Option M
  pub as_bytes : M → List ℕ

unfoldable pub ping_of_bytes : List ℕ → Option Ping
ping_of_bytes bs =
    if ltb (length bs) 44
    then none
    else some (record {
      tx_id = take 12 bs;
      node_key = take 32 (drop 12 bs);
      padding = drop 32 (drop 12 bs);
    })

unfoldable pub pong_of_bytes : List ℕ → Option Pong
pong_of_bytes bs =
    if eqb (length bs) pong_size
    then some (record { tx_id = take 12 bs; src = of_bytes (drop 12 bs) })
    else none

unfoldable pub endpoints_of_bytes : (count : ℕ) → List ℕ → List Endpoint
endpoints_of_bytes zero bs = []
endpoints_of_bytes (suc n) bs = of_bytes (take 18 bs) ∷ endpoints_of_bytes n (drop 18 bs)

unfoldable pub endpoints_to_bytes : List Endpoint → List ℕ
endpoints_to_bytes [] = []
endpoints_to_bytes (e ∷ es) = to_bytes e ++ endpoints_to_bytes es

unfoldable pub call_me_maybe_of_bytes : List ℕ → Option CallMeMaybe
call_me_maybe_of_bytes bs =
    if eqb (length bs % 18) 0
    then some (record { endpoints = endpoints_of_bytes (length bs / 18) bs })
    else none

instance abbrev pub ping_message : Message Ping
ping_message = record {
  type = ping;
  ref_from_bytes = ping_of_bytes;
  as_bytes = λ m. m.tx_id ++ (m.node_key ++ m.padding);
}

instance abbrev pub pong_message : Message Pong
pong_message = record {
  type = pong;
  ref_from_bytes = pong_of_bytes;
  as_bytes = λ m. m.tx_id ++ to_bytes m.src;
}

instance abbrev pub call_me_maybe_message : Message CallMeMaybe
call_me_maybe_message = record {
  type = call_me_maybe;
  ref_from_bytes = call_me_maybe_of_bytes;
  as_bytes = λ m. endpoints_to_bytes m.endpoints;
}
