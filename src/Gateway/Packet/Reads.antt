-- ===== src/Gateway/Packet/Reads.antt =====
-- crates/pim-gateway/src/engine/packet.rs: what is read of a rewritten packet.
use proximity_internet_mesh.Base.{
  ℕ, suc, ◌+◌, ◌/◌, ◌≤◌, ◌<◌, ◌≡◌, ◌≢◌, ◌⊎◌, refl, ◌∙◌, inl, inr, arith, Bytes, true, false, ok,
  length, byte_at, word_at, if◌then◌else◌, Bool-cases,
}
use proximity_internet_mesh.Core.MeshAddress.{Ipv4Addr}
use proximity_internet_mesh.Gateway.{proto_icmp}
use proximity_internet_mesh.Gateway.Packet.{
  ip_ihl, addr_at, set_addr, ip_protocol, has_ports, port_at, set_port, write_ip_checksum,
  recalc_transport_checksum,
}
use proximity_internet_mesh.Gateway.Packet.Bytewise.{
  checksum_offset, byte_at-set_word_off, word_at-set_word, byte_at-write_ip_checksum,
  byte_at-recalc_transport_checksum, length-set_addr, length-set_port, length-write_ip_checksum,
  length-recalc_transport_checksum,
}

-- The source's protocols.
abbrev pub IsFlow : ℕ → Type 0
IsFlow proto = (has_ports proto ≡ true) ⊎ ((has_ports proto ≡ false) × (proto ≡ proto_icmp))

-- The bytes that a packet of a protocol has to have after its IP header.
abbrev pub port_bytes : ℕ → ℕ
port_bytes proto = if has_ports proto then 4 else 8

-- The packet that a rewrite leaves, once it has been read and has not panicked.
unfoldable pub rewritten : ℕ → ℕ → Bytes → ℕ → ℕ → Ipv4Addr → ℕ → Bytes
rewritten at offset p proto old_port new_addr new_port =
    let ihl = ip_ihl p in
    recalc_transport_checksum
      (write_ip_checksum (set_port (set_addr p at new_addr) proto ihl offset new_port)) proto ihl
      (addr_at p at) new_addr old_port new_port

pub length-rewritten :
    (at offset : ℕ) (p : Bytes) (proto old_port : ℕ) (new_addr : Ipv4Addr) (new_port : ℕ)
    → length (rewritten at offset p proto old_port new_addr new_port) ≡ length p
unfolding rewritten
length-rewritten at offset p proto old_port new_addr new_port =
    let q = set_port (set_addr p at new_addr) proto (ip_ihl p) offset new_port in
    rw
      (
        length-recalc_transport_checksum (write_ip_checksum q) proto (ip_ihl p) (addr_at p at)
            new_addr old_port new_port,
        length-write_ip_checksum q,
        length-set_port (set_addr p at new_addr) proto (ip_ihl p) offset new_port,
        length-set_addr p at new_addr,
      )
      refl

pub byte_at-set_port_off :
    (p : Bytes) (proto ihl offset port j : ℕ)
    → offset ≤ 2
    → ihl + port_bytes proto ≤ length p
    → j < ihl
    → byte_at (set_port p proto ihl offset port) j ≡ byte_at p j
unfolding set_port
byte_at-set_port_off p proto ihl offset port j h inside low =
    ground
      (arith, byte_at-set_word_off p (ihl + offset) port j, byte_at-set_word_off p (ihl + 4) port j)

-- Of the header only the address and the checksum change.
pub byte_at-rewritten :
    (at offset : ℕ) (p : Bytes) (proto old_port : ℕ) (new_addr : Ipv4Addr) (new_port j : ℕ)
    → offset ≤ 2
    → 20 ≤ ip_ihl p
    → ip_ihl p + port_bytes proto ≤ length p
    → j < ip_ihl p
    → 10 ≢ j
    → 11 ≢ j
    → byte_at (rewritten at offset p proto old_port new_addr new_port) j
      ≡ byte_at (set_addr p at new_addr) j
unfolding rewritten
byte_at-rewritten at offset p proto old_port new_addr new_port j h long inside low n10 n11 =
    let ihl = ip_ihl p in
    let q = set_addr p at new_addr in
    let r = set_port q proto ihl offset new_port in
    let lq = length-set_addr p at new_addr in
    let lr = length-set_port q proto ihl offset new_port in
    byte_at-recalc_transport_checksum (write_ip_checksum r) proto ihl (addr_at p at) new_addr
      old_port new_port j (λ e. omega arith) (λ e. omega arith)
    ∙ byte_at-write_ip_checksum r j (omega arith) n10 n11
    ∙ byte_at-set_port_off q proto ihl offset new_port j h (omega arith) low

-- A port that was read: from a TCP or UDP header or an ICMP echo that is all there.
pub port_at-inv :
    (p : Bytes) (proto ihl offset port : ℕ)
    → port_at p proto ihl offset ≡ ok port
    → IsFlow proto
      × (ihl + port_bytes proto ≤ length p)
      × (port ≡ word_at p (ihl + (if has_ports proto then offset else 4)))
unfolding port_at
port_at-inv p proto ihl offset port e = elim (Bool-cases (has_ports proto)) [
  | inl ports ↦ (inl ports, ground arith, ground arith)
  | inr none_there ↦ (inr (none_there, ground arith), ground arith, ground arith)
]

pub port_at-ok :
    (p : Bytes) (proto ihl offset : ℕ)
    → IsFlow proto
    → ihl + port_bytes proto ≤ length p
    → port_at p proto ihl offset ≡ ok (word_at p (ihl + (if has_ports proto then offset else 4)))
unfolding port_at
port_at-ok p proto ihl offset (inl ports) h = ground arith
port_at-ok p proto ihl offset (inr (none_there, e)) h = ground arith

pub ip_protocol-inv :
    (p : Bytes) (proto : ℕ)
    → ip_protocol p ≡ ok proto
    → (20 ≤ length p) × (byte_at p 0 / 16 ≡ 4) × (byte_at p 9 ≡ proto)
unfolding ip_protocol
ip_protocol-inv p proto e = (ground arith, ground arith, ground arith)

pub ip_protocol-ok :
    (p : Bytes) → 20 ≤ length p → byte_at p 0 / 16 ≡ 4 → ip_protocol p ≡ ok (byte_at p 9)
unfolding ip_protocol
ip_protocol-ok p h e = ground arith

port_written :
    (p : Bytes) (proto ihl offset port : ℕ)
    → (offset ≡ 0) ⊎ (offset ≡ 2)
    → IsFlow proto
    → ihl + port_bytes proto ≤ length p
    → word_at (set_port p proto ihl offset port) (ihl + (if has_ports proto then offset else 4))
      ≡ port
unfolding set_port
port_written p proto ihl offset port side (inl ports) h =
    let small : offset ≤ 2 = ground arith in
    rw ports (word_at-set_word p (ihl + offset) port (ground arith))
port_written p proto ihl offset port side (inr (none_there, e)) h =
    rw (none_there, e) (word_at-set_word p (ihl + 4) port (ground arith))

-- The port does not overlap the checksum.
apart :
    (proto ihl offset i j : ℕ)
    → (offset ≡ 0) ⊎ (offset ≡ 2)
    → IsFlow proto
    → i ≡ ihl + (if has_ports proto then offset else 4)
    → i ≤ j
    → j ≤ suc i
    → (ihl + checksum_offset proto ≢ j) × (suc (ihl + checksum_offset proto) ≢ j)
apart proto ihl offset i j side (inl ports) at low high = (λ e. ground arith, λ e. ground arith)
apart proto ihl offset i j side (inr (none_there, icmp)) at low high =
    (λ e. ground arith, λ e. ground arith)

-- The written port is read back.
pub word_at-rewritten :
    (at offset : ℕ) (p : Bytes) (proto old_port : ℕ) (new_addr : Ipv4Addr) (new_port : ℕ)
    → (offset ≡ 0) ⊎ (offset ≡ 2)
    → IsFlow proto
    → 20 ≤ ip_ihl p
    → ip_ihl p + port_bytes proto ≤ length p
    → word_at
        (rewritten at offset p proto old_port new_addr new_port)
        (ip_ihl p + (if has_ports proto then offset else 4))
      ≡ new_port
unfolding rewritten set_port
word_at-rewritten at offset p proto old_port new_addr new_port side flow long inside =
    let ihl = ip_ihl p in
    let q = set_addr p at new_addr in
    let r = set_port q proto ihl offset new_port in
    let lq = length-set_addr p at new_addr in
    let lr = length-set_port q proto ihl offset new_port in
    let i = ihl + (if has_ports proto then offset else 4) in
    let w : word_at r i ≡ new_port =
      port_written q proto ihl offset new_port side flow (omega arith) in
    let step = λ (j : ℕ) (low : i ≤ j) (high : j ≤ suc i).
      byte_at-recalc_transport_checksum (write_ip_checksum r) proto ihl (addr_at p at) new_addr
        old_port new_port j (apart proto ihl offset i j side flow refl low high).0
        (apart proto ihl offset i j side flow refl low high).1
      ∙ byte_at-write_ip_checksum r j (omega arith) (λ e. omega arith) (λ e. omega arith) in
    let b0 = step i (omega arith) (omega arith) in
    let b1 = step (suc i) (omega arith) (omega arith) in omega arith
