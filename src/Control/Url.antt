-- ===== src/Control/Url.antt =====
-- ts-control/src/url.rs: the addresses that control is reached at.
pub mod Splitter
pub mod Joined
mod Tests
