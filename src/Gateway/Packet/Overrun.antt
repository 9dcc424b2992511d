-- ===== src/Gateway/Packet/Overrun.antt =====
-- crates/pim-gateway/src/engine/packet.rs, `recalc_ip_checksum` in `rewrite_src` and `rewrite_dst`:
-- when the slice of the header is longer than the packet.
use proximity_internet_mesh.Base.{
  ℕ, suc, ◌+◌, ◌*◌, ◌/◌, ◌%◌, ◌≤◌, ◌<◌, ◌≡◌, ◌⊎◌, inl, inr, arith, Bytes, true, ok, err, length,
  byte_at, set_at, byte_at-set_at, length-set_at,
}
use proximity_internet_mesh.Core.MeshAddress.{Ipv4Addr}
use proximity_internet_mesh.Gateway.GatewayError.{panicked}
use proximity_internet_mesh.Gateway.Packet.{
  ip_ihl, set_addr, set_port, ip_protocol, port_at, has_ports, Side, source, destination,
  addr_offset, port_offset, rewrite,
}
use proximity_internet_mesh.Gateway.Packet.Bytewise.{
  byte_at-set_addr_off, byte_at-set_word_off, length-set_addr,
}
use proximity_internet_mesh.Gateway.Packet.Reads.{
  rewritten, port_bytes, ip_protocol-inv, port_at-inv,
}
use proximity_internet_mesh.Gateway.Packet.Rewrite.{addr_range, rewrite-cases}

-- The port of a TCP or UDP packet is written over its first byte, and the header length that this
-- makes is more than the packet.
abbrev pub IsOverrun : Side → Bytes → ℕ → ℕ → Type 0
IsOverrun s p proto port =
    (has_ports proto ≡ true) × (ip_ihl p + port_offset s ≡ 0) × (length p < port / 256 % 16 * 4)

-- The first byte once the port is written.
byte_at-set_port_start :
    (p : Bytes) (proto ihl offset port : ℕ)
    → offset ≤ 2
    → ihl + port_bytes proto ≤ length p
    → (byte_at (set_port p proto ihl offset port) 0 ≡ byte_at p 0)
      ⊎ (has_ports proto ≡ true)
        × (ihl + offset ≡ 0)
        × (byte_at (set_port p proto ihl offset port) 0 ≡ port / 256)
unfolding set_port
byte_at-set_port_start p proto ihl offset port h inside = ground (
  arith,
  byte_at-set_word_off p (ihl + offset) port 0,
  byte_at-set_word_off p (ihl + 4) port 0,
  byte_at-set_at (set_at p (ihl + offset) (port / 256)) (suc (ihl + offset)) (port % 256) 0,
  byte_at-set_at p (ihl + offset) (port / 256) 0,
  length-set_at p (ihl + offset) (port / 256),
)

byte_at-set_port_at_start :
    (p : Bytes) (proto ihl offset port : ℕ)
    → has_ports proto ≡ true
    → ihl + offset ≡ 0
    → 2 ≤ length p
    → byte_at (set_port p proto ihl offset port) 0 ≡ port / 256
unfolding set_port
byte_at-set_port_at_start p proto ihl offset port ports start inside = ground (
  arith,
  byte_at-set_at (set_at p (ihl + offset) (port / 256)) (suc (ihl + offset)) (port % 256) 0,
  byte_at-set_at p (ihl + offset) (port / 256) 0,
  length-set_at p (ihl + offset) (port / 256),
)

port_offset-le : (s : Side) → port_offset s ≤ 2
port_offset-le source = omega arith
port_offset-le destination = omega arith

-- A packet that has been read is rewritten, or overrun.
pub rewrite-read :
    (s : Side) (p : Bytes) (proto old_port : ℕ) (a : Ipv4Addr) (n : ℕ)
    → ip_protocol p ≡ ok proto
    → port_at p proto (ip_ihl p) (port_offset s) ≡ ok old_port
    → (rewrite s p a n ≡ ok (rewritten (addr_offset s) (port_offset s) p proto old_port a n))
        × (¬ IsOverrun s p proto n)
      ⊎ (rewrite s p a n ≡ err panicked) × IsOverrun s p proto n
rewrite-read s p proto old_port a n good read =
    let q = set_addr p (addr_offset s) a in
    let (lo, hi) = addr_range s in
    let (size, version, proto_read) = ip_protocol-inv p proto good in
    let (flow, inside, port_read) = port_at-inv p proto (ip_ihl p) (port_offset s) old_port read in
    let lq = length-set_addr p (addr_offset s) a in
    let first : byte_at q 0 ≡ byte_at p 0 =
      byte_at-set_addr_off p (addr_offset s) a 0 (omega arith) (omega arith) (omega arith)
        (omega arith) (omega arith) in
    elim (rewrite-cases s p proto old_port a n good read) [
      | inl (done, long) ↦ inl (
        done,
        λ over.
            let (ports, start, short) = over in
            let clobbered =
              byte_at-set_port_at_start q proto (ip_ihl p) (port_offset s) n ports start
                (omega arith) in
            omega arith,
      )
      | inr (bad, short) ↦
          elim (byte_at-set_port_start q proto (ip_ihl p) (port_offset s) n (port_offset-le s)
            (omega arith)) [
              | inl kept ↦ absurd (omega arith)
              | inr (ports, start, clobbered) ↦ inr (bad, (ports, start, omega arith))
            ]
    ]
