-- ===== src/Gateway.antt =====
-- The gateway: crates/pim-gateway/src/engine.rs, its errors and protocol numbers.
pub mod Checksum
pub mod Packet
pub mod Ports
pub mod Engine
use proximity_internet_mesh.Base.{ℕ}

-- Without the errors of the host's setup commands. `panicked` is not one of the source's: it is the
-- model's value for a call that a slice out of bounds ends.
pub data GatewayError : Type 0 where
  packet_too_short : ℕ → GatewayError
  not_ipv4 : GatewayError
  unsupported_protocol : ℕ → GatewayError
  no_conntrack_entry : ℕ → ℕ → GatewayError
  conntrack_full : GatewayError
  panicked : GatewayError

abbrev pub proto_icmp : ℕ
proto_icmp = 1

abbrev pub proto_tcp : ℕ
proto_tcp = 6

abbrev pub proto_udp : ℕ
proto_udp = 17
