-- ===== src/Crypto.antt =====
-- Cryptography, crates/pim-crypto/src. The primitives are parameters.
pub mod Session
pub mod Handshake
pub mod E2e
