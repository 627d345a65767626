-- ===== src/Control/NetMap.antt =====
-- ts-control/src/netmap.rs.
pub mod State
pub mod Convert
pub mod Apply
pub mod Invariant
pub mod Preserve
pub mod FullSet
pub mod Keys
pub mod Patches
pub mod Kept
