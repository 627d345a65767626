-- ===== src/Control/Parse.antt =====
-- Texts of ts-control/src/netmap.rs and types.rs: keys in hexadecimal, networks, ports.
use tailscale_vita.Prelude.{
  ℕ, ◌+◌, ◌-◌, ◌*◌, ◌/◌, ◌%◌, ◌^◌, not, List, [], ◌∷◌, ◌++◌, length, Option, none, some, ltb, leb,
  eqb, if◌then◌else◌, ◌||◌, ◌&&◌, ◌==◌, list_eq, nat_eq, filter_map,
}
use mathlib.Core.Option
use tailscale_vita.Prelude.Bytes.{codes}
use tailscale_vita.Control.Wire.{Text}

-- netmap.rs, not the wire: an IPv4 address as its number, and the length of the prefix.
pub record AllowedIp : Type 0 where
  pub addr : ℕ
  pub prefix : ℕ

-- `NodeKeyBytes`: 32 bytes.
abbrev pub NodeKeyBytes : Type 0
NodeKeyBytes = List ℕ

-- `char::to_digit(radix)` on a byte, for a radix up to 16.
unfoldable pub to_digit : (radix : ℕ) → ℕ → Option ℕ
to_digit radix c =
    let d : ℕ =
      (if leb 48 c && leb c 57
        then c - 48
        else if leb 97 c && leb c 102
        then c - 87
        else if leb 65 c && leb c 70
        then c - 55
        else 16) in
    if ltb d radix then some d else none

unfoldable pub digits : (radix : ℕ) → (bound : ℕ) → (acc : ℕ) → Text → Option ℕ
digits radix bound acc [] = some acc
digits radix bound acc (c ∷ cs) = Option.bind (to_digit radix c) (λ d.
    let acc' = acc * radix + d in
    let rest = digits radix bound acc' cs in if ltb acc' bound then rest else none)

-- `u8::from_str_radix` and `parse::<u16>()`: a `+` is allowed in front, a `-` is not.
unfoldable pub from_str_radix : (radix : ℕ) → (bound : ℕ) → Text → Option ℕ
from_str_radix radix bound [] = none
from_str_radix radix bound (c ∷ []) = if eqb c 43 then none else digits radix bound 0 (c ∷ [])
from_str_radix radix bound (c ∷ d ∷ cs) =
    if eqb c 43 then digits radix bound 0 (d ∷ cs) else digits radix bound 0 (c ∷ d ∷ cs)

unfoldable pub split_once : (c : ℕ) → Text → Option (Text × Text)
split_once c [] = none
split_once c (d ∷ ds) =
    let rest = split_once c ds in
    if eqb d c then some ([], ds) else elim rest [ none ↦ none | some (a, b) ↦ some (d ∷ a, b) ]

unfoldable pub rsplit_once : (c : ℕ) → Text → Option (Text × Text)
rsplit_once c [] = none
rsplit_once c (d ∷ ds) = elim (rsplit_once c ds) [
  | some (a, b) ↦ some (d ∷ a, b)
  | none ↦ if eqb d c then some ([], ds) else none
]

-- One number of a dotted quad: one to three digits, no zero in front of others.
unfoldable pub parse_octet : Text → Option ℕ
parse_octet [] = none
parse_octet (c ∷ []) = digits 10 256 0 (c ∷ [])
parse_octet (c ∷ d ∷ cs) =
    if eqb c 48 || ltb 1 (length cs) then none else digits 10 256 0 (c ∷ d ∷ cs)

-- `str::parse::<Ipv4Addr>()`
unfoldable pub parse_ipv4 : Text → Option ℕ
parse_ipv4 s = Option.bind (split_once 46 s) (λ (a, s). Option.bind (split_once 46 s) (λ (b, s).
    Option.bind (split_once 46 s) (λ (c, d). Option.bind (parse_octet a) (λ a.
      Option.bind (parse_octet b) (λ b. Option.bind (parse_octet c) (λ c.
        Option.bind (parse_octet d) (λ d. some (a * 2 ^ 24 + b * 2 ^ 16 + c * 2 ^ 8 + d))))))))

unfoldable pub parse_ipv4_cidr : Text → Option AllowedIp
parse_ipv4_cidr s = Option.bind (split_once 47 s) (λ (ip, prefix).
    Option.bind (parse_ipv4 ip) (λ addr.
      Option.bind (from_str_radix 10 256 prefix)
        (λ prefix. if ltb 32 prefix then none else some (record { addr = addr; prefix = prefix }))))

unfoldable pub parse_addrs : List Text → List AllowedIp
parse_addrs addrs = filter_map parse_ipv4_cidr addrs

unfoldable pub parse_filter_cidr : Text → Option AllowedIp
parse_filter_cidr s =
    if s == codes "*" then some (record { addr = 0; prefix = 0 }) else elim (parse_ipv4 s) [
      | some addr ↦ some (record { addr = addr; prefix = 32 })
      | none ↦ parse_ipv4_cidr s
    ]

unfoldable pub parse_legacy_derp : Text → Option ℕ
parse_legacy_derp s = Option.bind (rsplit_once 58 s) (λ (host, port). from_str_radix 10 65536 port)

-- Two hexadecimal digits are a byte.
unfoldable pub decode_hex : Text → Option (List ℕ)
decode_hex [] = some []
decode_hex (a ∷ []) = none
decode_hex (a ∷ b ∷ hex) =
    Option.bind (from_str_radix 16 256 (a ∷ b ∷ []))
      (λ byte. Option.bind (decode_hex hex) (λ rest. some (byte ∷ rest)))

unfoldable pub decode_hex_32 : Text → Option NodeKeyBytes
decode_hex_32 hex = if not (eqb (length hex) 64) then none else decode_hex hex

abbrev pub strip_prefix : (prefix : Text) → Text → Option Text
strip_prefix [] s = some s
strip_prefix (p ∷ ps) [] = none
strip_prefix (p ∷ ps) (c ∷ cs) = if eqb p c then strip_prefix ps cs else none

unfoldable pub parse_nodekey_with_prefix : Text → (prefix : Text) → Option NodeKeyBytes
parse_nodekey_with_prefix s prefix = elim (strip_prefix prefix s) [
  | some hex ↦ decode_hex_32 hex
  | none ↦ decode_hex_32 s
]

unfoldable pub parse_nodekey : Text → Option NodeKeyBytes
parse_nodekey s = parse_nodekey_with_prefix s (codes "nodekey:")

-- The printers of types.rs.
abbrev pub hex_digit : ℕ → ℕ
hex_digit d = if ltb d 10 then 48 + d else 87 + d

unfoldable pub encode_hex : List ℕ → Text
encode_hex [] = []
encode_hex (b ∷ bs) = hex_digit (b / 16) ∷ hex_digit (b % 16) ∷ encode_hex bs

unfoldable pub to_nodekey_string : NodeKeyBytes → Text
to_nodekey_string key = codes "nodekey:" ++ encode_hex key
