-- ===== src/Gateway/Packet/Segment.antt =====
-- crates/pim-gateway/src/engine/packet.rs, `rewrite_src` and `rewrite_dst`: the checksum that a
-- rewrite leaves in the segment.
use proximity_internet_mesh.Base.{
  ℕ, suc, ◌+◌, ◌/◌, ◌%◌, ◌^◌, ◌≤◌, ◌<◌, ◌≡◌, ◌≢◌, ◌⊎◌, sym, subst, inl, inr, arith, Bytes, true,
  false, ◌&&◌, ok, length, drop, All, IsByte, byte_at, word_at, nat_eq, IsByte-byte_at,
}
use proximity_internet_mesh.Core.MeshAddress.{Ipv4Addr}
use proximity_internet_mesh.Gateway.{proto_tcp, proto_udp}
use proximity_internet_mesh.Gateway.Checksum.Words.{word_sum, even}
use proximity_internet_mesh.Gateway.Packet.{
  ip_ihl, addr_at, set_addr, has_ports, set_port, write_ip_checksum, update_checksum,
  recalc_transport_checksum, Side, source, destination, addr_offset, port_offset, rewrite,
}
use proximity_internet_mesh.Gateway.Packet.Reads.{rewritten}
use proximity_internet_mesh.Gateway.Packet.Transport.{transport_sum, updated-mod}
use proximity_internet_mesh.Gateway.Packet.Rewrite.{
  IsRead, rewrite-inv, rewrite-IsReaddressed, IsReaddressed,
}
use proximity_internet_mesh.Gateway.Packet.Sums.{IsByte-rewritten}

-- A TCP or UDP segment that has its checksum, and a UDP one that is not told to go without.
abbrev pub IsSummed : ℕ → Bytes → Type 0
IsSummed proto p =
    (proto ≡ proto_tcp) × (ip_ihl p + 18 ≤ length p)
    ⊎ (proto ≡ proto_udp) × (ip_ihl p + 8 ≤ length p) × (word_at p (ip_ihl p + 6) ≢ 0)

-- The words of the segment and of the address that changes have the sum they had.
abbrev IsKeptSegment : Side → Bytes → Bytes → Ipv4Addr → Type 0
IsKeptSegment s p p' a =
    (word_sum (drop (ip_ihl p) p') + (a / 65536 + a % 65536)) % 65535
    ≡ (word_sum (drop (ip_ihl p) p)
        + (word_at p (addr_offset s) + word_at p (suc (suc (addr_offset s)))))
      % 65535

kept_segment :
    (s : Side) (p : Bytes) (proto old_port : ℕ) (a : Ipv4Addr) (n k : ℕ)
    → IsRead s p proto old_port
    → All IsByte p
    → a < 2 ^ 32
    → n < 2 ^ 16
    → 20 ≤ ip_ihl p
    → has_ports proto ≡ true
    → 4 ≤ even k
    → ip_ihl p + even k + 2 ≤ length p
    → (nat_eq (word_at p (ip_ihl p + even k)) 0 && nat_eq proto proto_udp) ≡ false
    → IsKeptSegment s p
        (update_checksum
          (write_ip_checksum
            (set_port (set_addr p (addr_offset s) a) proto (ip_ihl p) (port_offset s) n))
          proto
          (ip_ihl p + even k)
          (addr_at p (addr_offset s))
          a
          old_port
          n)
        a
kept_segment source p proto old_port a n k r bytes ha hn long ports apart inside summed =
    let read : word_at p (ip_ihl p + 0) ≡ old_port = cc (ports, r.port_read) in
    updated-mod 12 0 k p proto old_port a n ports long (omega arith) (omega arith) inside summed
      read (omega arith) (omega arith) bytes
kept_segment destination p proto old_port a n k r bytes ha hn long ports apart inside summed =
    let read : word_at p (ip_ihl p + 2) ≡ old_port = cc (ports, r.port_read) in
    updated-mod 16 1 k p proto old_port a n ports long (omega arith) (omega arith) inside summed
      read (omega arith) (omega arith) bytes

kept_sum :
    (s : Side) (p p' : Bytes) (a : Ipv4Addr) (n : ℕ)
    → All IsByte p
    → All IsByte p'
    → IsReaddressed s p p' a n
    → IsKeptSegment s p p' a
    → transport_sum (ip_ihl p) p' % 65535 ≡ transport_sum (ip_ihl p) p % 65535
kept_sum source p p' a n bytes bytes' w seg =
    let b = λ (i : ℕ). IsByte-byte_at p i bytes in
    let c = λ (i : ℕ). IsByte-byte_at p' i bytes' in
    omega (arith, seg, w.address, w.other_address, b 14, b 15, b 18, b 19, c 14, c 15, c 18, c 19)
kept_sum destination p p' a n bytes bytes' w seg =
    let b = λ (i : ℕ). IsByte-byte_at p i bytes in
    let c = λ (i : ℕ). IsByte-byte_at p' i bytes' in
    omega (arith, seg, w.address, w.other_address, b 14, b 15, b 18, b 19, c 14, c 15, c 18, c 19)

segment-rewritten :
    (s : Side) (p : Bytes) (proto old_port : ℕ) (a : Ipv4Addr) (n : ℕ)
    → IsRead s p proto old_port
    → All IsByte p
    → a < 2 ^ 32
    → n < 2 ^ 16
    → 20 ≤ ip_ihl p
    → IsSummed proto p
    → IsKeptSegment s p (rewritten (addr_offset s) (port_offset s) p proto old_port a n) a
unfolding rewritten recalc_transport_checksum
segment-rewritten s p proto old_port a n r bytes ha hn long (inl (tcp, room)) =
    let seg =
      kept_segment s p proto old_port a n 8 r bytes ha hn long (ground arith) (omega arith)
        (omega arith) (ground arith) in
    rw tcp (
      subst
        (λ (x : ℕ).
          IsKeptSegment s p
            (update_checksum
              (write_ip_checksum
                (set_port (set_addr p (addr_offset s) a) x (ip_ihl p) (port_offset s) n))
              x (ip_ihl p + 16) (addr_at p (addr_offset s)) a old_port n)
            a)
        tcp seg)
segment-rewritten s p proto old_port a n r bytes ha hn long (inr (udp, room, set)) =
    let seg =
      kept_segment s p proto old_port a n 3 r bytes ha hn long (ground arith) (omega arith)
        (omega arith) (ground arith) in
    rw udp (
      subst
        (λ (x : ℕ).
          IsKeptSegment s p
            (update_checksum
              (write_ip_checksum
                (set_port (set_addr p (addr_offset s) a) x (ip_ihl p) (port_offset s) n))
              x (ip_ihl p + 6) (addr_at p (addr_offset s)) a old_port n)
            a)
        udp seg)

-- A rewrite, to an address of 32 bits and a port of 16, of a packet of bytes that carries a TCP
-- segment, or a UDP one with a checksum, behind a header of at least 20 bytes, keeps the sum
-- that the receiver tests, of the words of the addresses and of the segment with its checksum,
-- modulo 65535.
pub rewrite-transport :
    (s : Side) (p p' : Bytes) (a : Ipv4Addr) (n : ℕ)
    → All IsByte p
    → a < 2 ^ 32
    → n < 2 ^ 16
    → 20 ≤ ip_ihl p
    → IsSummed (byte_at p 9) p
    → rewrite s p a n ≡ ok p'
    → transport_sum (ip_ihl p) p' % 65535 ≡ transport_sum (ip_ihl p) p % 65535
rewrite-transport s p p' a n bytes ha hn long summed e =
    let (proto, old_port, r, same) = rewrite-inv s p p' a n e in
    let w = rewrite-IsReaddressed s p p' a n long e in
    let bytes' =
      subst (All IsByte) (sym same) (IsByte-rewritten s p proto old_port a n ha hn bytes) in
    let seg =
      segment-rewritten s p proto old_port a n r bytes ha hn long
        (subst (λ (x : ℕ). IsSummed x p) r.proto_read summed) in
    kept_sum s p p' a n bytes bytes' w (subst (λ (q : Bytes). IsKeptSegment s p q a) (sym same) seg)
