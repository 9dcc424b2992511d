-- ===== src/Routing.antt =====
-- The routing crate: crates/pim-routing.
pub mod Table
pub mod Update
pub mod Select
pub mod Advertise
pub mod Steps
