-- ===== src/Messaging.antt =====
-- The messaging plugin, crates/pim-messaging/src. A text is its bytes; an `i64` is the number below
-- 2 ^ 64 with its bits, so that the casts from and to `u64` change nothing.
pub mod Wire
pub mod Storage
pub mod Service
pub mod Incoming
pub mod Delivery
pub mod Steps
pub mod Query
