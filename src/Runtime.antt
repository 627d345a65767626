-- ===== src/Runtime.antt =====
-- crates/tailscale-vita: how the network map reaches the engine and the magic socket, and the
-- connection states.
pub mod Delta
pub mod Lifecycle
mod Routes
mod Pushes
mod Relink
mod States
mod History
mod Online
mod Diagnostics
mod Tests
