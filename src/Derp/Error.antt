-- ===== src/Derp/Error.antt =====
-- crates/ts-derp/src/error.rs, and the `std::io` errors that the frame codec tells apart.
use tailscale_vita.Prelude.{ℕ, List}

pub data IoError : Type 0 where
  unexpected_eof would_block timed_out : IoError
  other : ℕ → IoError

-- A Rust `String` is its bytes.
pub data DerpError : Type 0 where
  io : IoError → DerpError
  tls : List ℕ → DerpError
  http_parse : List ℕ → DerpError
  upgrade : List ℕ → DerpError
  bad_magic : List ℕ → DerpError
  bad_frame_type : (byte : ℕ) → DerpError
  frame_too_large : (len cap : ℕ) → DerpError
  frame_too_short : (ty : List ℕ) (len need : ℕ) → DerpError
  nacl_box : List ℕ → DerpError
  json : List ℕ → DerpError
  unsupported_server_version : (server_version expected : ℕ) → DerpError
  no_reachable_region : (probed total : ℕ) → DerpError
  unknown_region : (region : ℕ) → DerpError
  derp_map_not_set : DerpError
  cap_exceeded_home : (cap home : ℕ) → DerpError
  conn_died : List ℕ → DerpError
  internal : List ℕ → DerpError
