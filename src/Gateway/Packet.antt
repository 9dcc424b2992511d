-- ===== src/Gateway/Packet.antt =====
-- crates/pim-gateway/src/engine/packet.rs: reading and rewriting IPv4 packets in place. A packet
-- that a function changes is its result.
pub mod Bytewise
pub mod Reads
pub mod Header
pub mod Transport
pub mod Rewrite
pub mod Sums
pub mod Segment
pub mod Overrun
use proximity_internet_mesh.Base.{
  ℕ, zero, suc, ◌+◌, ◌-◌, ◌*◌, ◌/◌, ◌%◌, ◌^◌, List, Bytes, Bool, true, false, ◌&&◌, ◌||◌, Result,
  ok, err, ◌>>=◌, ◌>>◌, reject, length, take, drop, byte_at, set_at, word_at, set_word, ltb, nat_eq,
  not, if◌then◌else◌,
}
use proximity_internet_mesh.Core.MeshAddress.{Ipv4Addr}
use proximity_internet_mesh.Gateway.{GatewayError, proto_icmp, proto_tcp, proto_udp}
use proximity_internet_mesh.Gateway.GatewayError.{
  packet_too_short, not_ipv4, unsupported_protocol, panicked,
}
use proximity_internet_mesh.Gateway.Checksum.{ones_complement_sum, fold_checksum}

abbrev pub ip_header_min : ℕ
ip_header_min = 20

-- `Ipv4Addr::new(p[i], p[i + 1], p[i + 2], p[i + 3])` and its writing.
abbrev pub addr_at : Bytes → ℕ → Ipv4Addr
addr_at p i = word_at p i * 65536 + word_at p (suc (suc i))

abbrev pub set_addr : Bytes → ℕ → Ipv4Addr → Bytes
set_addr p i a = set_word (set_word p i (a / 65536)) (suc (suc i)) (a % 65536)

abbrev pub ip_ihl : Bytes → ℕ
ip_ihl p = byte_at p 0 % 16 * 4

unfoldable pub ip_protocol : Bytes → Result GatewayError ℕ
ip_protocol p = do
  reject (ltb (length p) ip_header_min) (packet_too_short (length p))
  reject (not (nat_eq (byte_at p 0 / 16) 4)) not_ipv4
  ok (byte_at p 9)

abbrev pub has_ports : ℕ → Bool
has_ports proto = nat_eq proto proto_tcp || nat_eq proto proto_udp

-- The `match` on the protocol that reads a port, `offset` bytes into the TCP or UDP header, or the
-- identifier of an ICMP echo.
unfoldable pub port_at : Bytes → ℕ → ℕ → ℕ → Result GatewayError ℕ
port_at p proto ihl offset =
    if has_ports proto
    then reject (ltb (length p) (ihl + 4)) (packet_too_short (length p))
      >> ok (word_at p (ihl + offset))
    else if nat_eq proto proto_icmp
    then reject (ltb (length p) (ihl + 8)) (packet_too_short (length p)) >> ok (word_at p (ihl + 4))
    else err (unsupported_protocol proto)

unfoldable pub parse_flow : Bytes → Result GatewayError (ℕ × Ipv4Addr × ℕ)
unfolding ip_protocol port_at
parse_flow p = do
  proto ← ip_protocol p
  src_port ← port_at p proto (ip_ihl p) 0
  ok (proto, addr_at p 12, src_port)

unfoldable pub transport_dst_port : Bytes → ℕ → Result GatewayError ℕ
unfolding port_at
transport_dst_port p proto = port_at p proto (ip_ihl p) 2

-- The `match` that writes the port or the identifier.
unfoldable pub set_port : Bytes → ℕ → ℕ → ℕ → ℕ → Bytes
set_port p proto ihl offset port =
    if has_ports proto
    then set_word p (ihl + offset) port
    else if nat_eq proto proto_icmp
    then set_word p (ihl + 4) port
    else p

-- What `recalc_ip_checksum` writes.
unfoldable pub write_ip_checksum : Bytes → Bytes
write_ip_checksum p =
    let zeroed = set_at (set_at p 10 0) 11 0 in
    set_word zeroed 10 (fold_checksum (ones_complement_sum (take (ip_ihl p) zeroed)))

-- The header length is read again from the packet; a slice of more bytes than there are panics.
unfoldable pub recalc_ip_checksum : Bytes → Result GatewayError Bytes
unfolding write_ip_checksum
recalc_ip_checksum p = reject (ltb (length p) (ip_ihl p)) panicked >> ok (write_ip_checksum p)

-- The sum that the incremental update folds: the complements of what goes, and what comes.
unfoldable pub update_sum : ℕ → Ipv4Addr → Ipv4Addr → ℕ → ℕ → ℕ
update_sum old_cksum old_addr new_addr old_port new_port =
    ((65535 - old_cksum)
      + (65535 - old_addr / 65536)
      + new_addr / 65536
      + (65535 - old_addr % 65536)
      + new_addr % 65536
      + (65535 - old_port)
      + new_port)
    % 2 ^ 32

-- The checksum of ICMP, which has no pseudo-header, in full.
unfoldable pub recalc_icmp_checksum : Bytes → ℕ → Bytes
recalc_icmp_checksum p ihl =
    let zeroed = set_at (set_at p (ihl + 2) 0) (suc (ihl + 2)) 0 in
    set_word zeroed (ihl + 2) (fold_checksum (ones_complement_sum (drop ihl zeroed)))

-- The incremental update of the checksum at `at`.
unfoldable pub update_checksum : Bytes → ℕ → ℕ → Ipv4Addr → Ipv4Addr → ℕ → ℕ → Bytes
unfolding update_sum
update_checksum p proto at old_addr new_addr old_port new_port =
    if ltb (length p) (at + 2)
    then p
    else if nat_eq (word_at p at) 0 && nat_eq proto proto_udp
    then p
    else set_word p at
        (fold_checksum (update_sum (word_at p at) old_addr new_addr old_port new_port))

unfoldable pub recalc_transport_checksum : Bytes → ℕ → ℕ → Ipv4Addr → Ipv4Addr → ℕ → ℕ → Bytes
unfolding recalc_icmp_checksum update_checksum
recalc_transport_checksum p proto ihl old_addr new_addr old_port new_port =
    if nat_eq proto proto_tcp
    then update_checksum p proto (ihl + 16) old_addr new_addr old_port new_port
    else if nat_eq proto proto_udp
    then update_checksum p proto (ihl + 6) old_addr new_addr old_port new_port
    else if nat_eq proto proto_icmp
    then (if ltb (length p) (ihl + 2 + 2) then p else recalc_icmp_checksum p ihl)
    else p

-- The common course of `rewrite_src` and `rewrite_dst`, with the address at `at` and the port
-- `offset` bytes into the transport header.
unfoldable pub rewrite_at : ℕ → ℕ → Bytes → Ipv4Addr → ℕ → Result GatewayError Bytes
unfolding ip_protocol port_at set_port recalc_ip_checksum recalc_transport_checksum
rewrite_at at offset p new_addr new_port = do
  proto ← ip_protocol p
  old_port ← port_at p proto (ip_ihl p) offset
  summed ← recalc_ip_checksum (set_port (set_addr p at new_addr) proto (ip_ihl p) offset new_port)
  ok (recalc_transport_checksum summed proto (ip_ihl p) (addr_at p at) new_addr old_port new_port)

pub data Side : Type 0 where
  source destination : Side

abbrev pub addr_offset : Side → ℕ
addr_offset source = 12
addr_offset destination = 16

abbrev pub port_offset : Side → ℕ
port_offset source = 0
port_offset destination = 2

-- `rewrite_src` and `rewrite_dst`
abbrev pub rewrite : Side → Bytes → Ipv4Addr → ℕ → Result GatewayError Bytes
rewrite s = rewrite_at (addr_offset s) (port_offset s)
