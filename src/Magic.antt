-- ===== src/Magic.antt =====
-- The crate ts-magicsock: direct paths to peers.
pub mod State
pub mod Stun
pub mod Wire
pub mod Handle
pub mod Pump
mod Tests
mod Update
mod WireTrip
mod Exchange
mod Silent
pub mod Sections
mod WellFormed
mod Touched
mod Confined
mod Received
