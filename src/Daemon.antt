-- ===== src/Daemon.antt =====
-- The daemon: crates/pim-daemon.
pub mod IdentityBroadcast
pub mod Authorization
pub mod PeerCleanup
pub mod PeerDirectory
pub mod SendBuffer
pub mod Session
pub mod Reputation
pub mod Reconnect
