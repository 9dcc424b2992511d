-- ===== src/Examples/Packets.antt =====
-- Packets, crates/pim-gateway/src/engine/packet.rs, at a concrete UDP packet; and the pool of ports.
use native.Mathlib.Omega.{arith}
use proximity_internet_mesh.Base.{
  ◌*◌, ◌+◌, ◌%◌, ◌^◌, ◌≤◌, ◌≡◌, refl, inr, [], ◌∷◌, Bytes, All, IsByte, ok, err, ℕ_eq, some, take,
  byte_at, set_at,
}
use proximity_internet_mesh.Base.Map.{contains, set_insert}
use proximity_internet_mesh.Core.MeshAddress.{Ipv4Addr}
use proximity_internet_mesh.Gateway.Checksum.{fold_loop, ones_complement_sum, fold_checksum}
use proximity_internet_mesh.Gateway.Packet.{
  ip_ihl, ip_protocol, port_at, rewrite_at, set_port, recalc_ip_checksum, write_ip_checksum,
  recalc_transport_checksum, update_checksum, update_sum, rewrite, source,
}
use proximity_internet_mesh.Gateway.GatewayError.{panicked}
use proximity_internet_mesh.Gateway.Packet.Transport.{transport_sum}
use proximity_internet_mesh.Gateway.Packet.Rewrite.{IsReaddressed, rewrite-IsReaddressed}
use proximity_internet_mesh.Gateway.Packet.Sums.{rewrite-header}
use proximity_internet_mesh.Gateway.Packet.Segment.{IsSummed, rewrite-transport}
use proximity_internet_mesh.Gateway.Ports.{PortPool, allocate, allocate_loop}
use proximity_internet_mesh.Gateway.Ports.First.{IsFirstFree, allocate-IsFirstFree}

-- From 10.77.0.2, port 12345, to 8.8.8.8, port 53, with two bytes of payload.
abbrev pub packet : Bytes
packet =
    69 ∷ 0 ∷ 0 ∷ 30 ∷ 0 ∷ 0 ∷ 0 ∷ 0 ∷ 64 ∷ 17 ∷ 0 ∷ 0 ∷ 10 ∷ 77 ∷ 0 ∷ 2 ∷ 8 ∷ 8 ∷ 8 ∷ 8 ∷ 48 ∷ 57
    ∷ 0 ∷ 53 ∷ 0 ∷ 10 ∷ 171 ∷ 205 ∷ 1 ∷ 2 ∷ []

-- 203.0.113.7
abbrev pub external : Ipv4Addr
external = 203 * 2 ^ 24 + 113 * 2 ^ 8 + 7

abbrev pub sent : Bytes
sent =
    69 ∷ 0 ∷ 0 ∷ 30 ∷ 0 ∷ 0 ∷ 0 ∷ 0 ∷ 64 ∷ 17 ∷ 46 ∷ 184 ∷ 203 ∷ 0 ∷ 113 ∷ 7 ∷ 8 ∷ 8 ∷ 8 ∷ 8 ∷ 117
    ∷ 48 ∷ 0 ∷ 53 ∷ 0 ∷ 10 ∷ 53 ∷ 29 ∷ 1 ∷ 2 ∷ []

rewrite-sent : rewrite source packet external 30000 ≡ ok sent
unfolding rewrite_at ip_protocol port_at set_port write_ip_checksum recalc_transport_checksum
    update_checksum update_sum ones_complement_sum fold_checksum fold_loop set_at byte_at
rewrite-sent = refl

-- A TCP packet that gives its header the length 0.
abbrev headless : Bytes
headless = 64 ∷ 0 ∷ 0 ∷ 20 ∷ 0 ∷ 0 ∷ 0 ∷ 0 ∷ 64 ∷ 6 ∷ 0 ∷ 0 ∷ 10 ∷ 77 ∷ 0 ∷ 2 ∷ 8 ∷ 8 ∷ 8 ∷ 8 ∷ []

-- Port 30208 is 0x7600, which makes the header 24 bytes long.
rewrite-headless : rewrite source headless external 30208 ≡ err panicked
unfolding rewrite_at ip_protocol port_at set_port recalc_ip_checksum set_at byte_at
rewrite-headless = refl

packet_long : 20 ≤ ip_ihl packet
unfolding byte_at
packet_long = omega arith

packet_bytes : All IsByte packet
packet_bytes = ground arith

packet-IsSummed : IsSummed (byte_at packet 9) packet
unfolding byte_at
packet-IsSummed = inr (refl, omega arith, ground arith)

rewrite-IsReaddressed_example : IsReaddressed source packet sent external 30000
rewrite-IsReaddressed_example =
    rewrite-IsReaddressed source packet sent external 30000 packet_long rewrite-sent

rewrite-header_example : fold_checksum (ones_complement_sum (take (ip_ihl sent) sent)) ≡ 0
rewrite-header_example =
    rewrite-header source packet sent external 30000 packet_bytes (omega arith) (omega arith)
      packet_long rewrite-sent

rewrite-transport_example :
    transport_sum (ip_ihl packet) sent % 65535 ≡ transport_sum (ip_ihl packet) packet % 65535
rewrite-transport_example =
    rewrite-transport source packet sent external 30000 packet_bytes (omega arith) (omega arith)
      packet_long packet-IsSummed rewrite-sent

-- The pool wraps at its end.
abbrev late_pool : PortPool
late_pool = record { next = 59999; in_use = 59999 ∷ 30000 ∷ [] }

late_port :
    allocate late_pool ≡ (some 30001, record { next = 30002; in_use = 30001 ∷ 59999 ∷ 30000 ∷ [] })
unfolding allocate allocate_loop contains set_insert
late_port = refl

allocate-IsFirstFree_example : IsFirstFree 59999 (59999 ∷ 30000 ∷ []) (allocate late_pool)
allocate-IsFirstFree_example = allocate-IsFirstFree late_pool (omega arith, omega arith)
