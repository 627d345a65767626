-- ===== src/Magic/Stun.antt =====
-- ts-magicsock/src/stun.rs: the STUN client.
use tailscale_vita.Prelude.{
  ℕ, zero, suc, ◌+◌, ◌*◌, ◌/◌, ◌^◌, bit_xor, Bool, false, not, List, [], ◌∷◌, ◌++◌, length, take,
  drop, get_or, Option, none, some, eqb, ltb, if◌then◌else◌,
}
use tailscale_vita.Prelude.Bytes.{be16, be32, from_be16, from_be32}
use tailscale_vita.Wg.Peer.{SocketAddr, v4, v6}
use tailscale_vita.Disco.Endpoint.{from_be}

abbrev pub magic_cookie : ℕ
magic_cookie = 0x2112A442

abbrev pub header_len : ℕ
header_len = 20

abbrev pub type_binding_request : ℕ
type_binding_request = 0x0001

abbrev pub type_binding_success : ℕ
type_binding_success = 0x0101

abbrev pub attr_xor_mapped_address : ℕ
attr_xor_mapped_address = 0x0020

unfoldable pub encode_binding_request : (tx_id : List ℕ) → List ℕ
encode_binding_request tx_id = be16 type_binding_request ++ (be16 0 ++ (be32 magic_cookie ++ tx_id))

-- A word of two or four bytes at an index of a slice that is long enough.
abbrev pub be16_at : List ℕ → ℕ → ℕ
be16_at bytes i = from_be16 (get_or bytes i 0) (get_or bytes (i + 1) 0)

abbrev pub cookie_of : List ℕ → ℕ
cookie_of bytes =
    from_be32 (get_or bytes 4 0) (get_or bytes 5 0) (get_or bytes 6 0) (get_or bytes 7 0)

unfoldable pub looks_like_stun : List ℕ → Bool
looks_like_stun bytes =
    if ltb (length bytes) header_len then false else eqb (cookie_of bytes) magic_cookie

unfoldable pub tx_id_from : List ℕ → Option (List ℕ)
tx_id_from bytes = if ltb (length bytes) header_len then none else some (take 12 (drop 8 bytes))

-- `body[4 + k] ^ tx_id_full[k]` for each byte of an address.
abbrev pub xor_bytes : List ℕ → List ℕ → List ℕ
xor_bytes [] ys = []
xor_bytes (x ∷ xs) [] = []
xor_bytes (x ∷ xs) (y ∷ ys) = bit_xor x y ∷ xor_bytes xs ys

unfoldable pub parse_xor_mapped_address : (body tx_id_full : List ℕ) → Option SocketAddr
parse_xor_mapped_address body tx_id_full =
    let family = get_or body 1 0 in
    let port = bit_xor (be16_at body 2) (magic_cookie / 2 ^ 16) in
    if ltb (length body) 4
    then none
    else if eqb family 0x01
    then (if ltb (length body) 8
        then none
        else some (v4 (from_be 0 (xor_bytes (take 4 (drop 4 body)) tx_id_full)) port))
    else if eqb family 0x02
    then (if ltb (length body) 20
        then none
        else some (v6 (from_be 0 (xor_bytes (take 16 (drop 4 body)) tx_id_full)) port 0 0))
    else none

-- `(attr_len + 3) & !3`
abbrev pub padded : ℕ → ℕ
padded attr_len = (attr_len + 3) / 4 * 4

-- The walk over the attributes: `attrs` is `bytes[i..end]`. A turn goes on at least four bytes
-- later, so the length of the list is fuel enough; running off the end ends the loop.
unfoldable pub walk : (fuel : ℕ) → (tx_id_full attrs : List ℕ) → Option SocketAddr
walk zero tx_id_full attrs = none
walk (suc fuel) tx_id_full attrs =
    let attr_type = be16_at attrs 0 in
    let attr_len = be16_at attrs 2 in
    let value = drop 4 attrs in
    let rest = walk fuel tx_id_full (drop (padded attr_len) value) in
    if ltb (length attrs) 4
    then none
    else if ltb (length value) attr_len
    then none
    else if eqb attr_type attr_xor_mapped_address
    then parse_xor_mapped_address (take attr_len value) tx_id_full
    else rest

unfoldable pub parse_binding_response : List ℕ → Option SocketAddr
parse_binding_response bytes =
    let body_len = be16_at bytes 2 in
    if ltb (length bytes) header_len
    then none
    else if not (eqb (be16_at bytes 0) type_binding_success)
    then none
    else if ltb (length bytes) (header_len + body_len)
    then none
    else if not (eqb (cookie_of bytes) magic_cookie)
    then none
    else let body = take body_len (drop header_len bytes) in
      walk (suc (length body)) (be32 magic_cookie ++ take 12 (drop 8 bytes)) body
