-- ===== src/Discovery.antt =====
-- Discovery, crates/pim-discovery/src.
pub mod PeerTable
pub mod Advertisement
