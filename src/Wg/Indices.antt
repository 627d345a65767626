-- ===== src/Wg/Indices.antt =====
-- wg-engine/src/indices.rs and dispatch.rs: the three indices over the peers, and the longest
-- prefix match over their routes.
pub mod Routes
pub mod Tables
pub mod Dispatch
pub mod Sorting
pub mod Longest
