-- ===== src/Bluetooth.antt =====
-- Bluetooth, crates/pim-bluetooth/src.
pub mod Rfcomm
