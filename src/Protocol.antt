-- ===== src/Protocol.antt =====
-- crates/pim-protocol/src: the frames on the wire.
pub mod Wire
pub mod Transport
pub mod Data
pub mod Heartbeat
pub mod Handshake
pub mod Route
pub mod Utf8
pub mod Control
pub mod Fragment
pub mod Reassembler
pub mod LengthDelimited
pub mod Codecs
