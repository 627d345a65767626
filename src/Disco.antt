-- ===== src/Disco.antt =====
-- The crate ts-disco: the messages by which peers probe direct paths.
pub mod Endpoint
pub mod Message
pub mod Packet
pub mod Layout
pub mod RoundTrip
mod Tests
