-- ===== src/Gateway/Packet/Rewrite.antt =====
-- crates/pim-gateway/src/engine/packet.rs, `rewrite_src` and `rewrite_dst`: what a rewrite does.
use proximity_internet_mesh.Base.{
  ℕ, suc, ◌+◌, ◌*◌, ◌/◌, ◌%◌, ◌≤◌, ◌<◌, ◌≡◌, ◌≢◌, ◌⊎◌, refl, sym, ap, ◌∙◌, subst, inl, inr, arith,
  Bytes, ok, err, Result-cases, Bool-cases, ltb, length, byte_at, word_at, if◌then◌else◌,
}
use proximity_internet_mesh.Core.MeshAddress.{Ipv4Addr}
use proximity_internet_mesh.Gateway.GatewayError.{panicked}
use proximity_internet_mesh.Gateway.Packet.{
  ip_ihl, addr_at, set_addr, set_port, recalc_ip_checksum, ip_protocol, has_ports, port_at,
  rewrite_at, Side, source, destination, addr_offset, port_offset, rewrite,
}
use proximity_internet_mesh.Gateway.Packet.Reads.{rewritten}
use proximity_internet_mesh.Gateway.Packet.Bytewise.{
  byte_at-set_addr_off, addr_at-set_addr, length-set_addr, length-set_port,
}
use proximity_internet_mesh.Gateway.Packet.Reads.{
  IsFlow, port_bytes, byte_at-rewritten, length-rewritten, port_at-inv, port_at-ok, ip_protocol-inv,
  ip_protocol-ok, word_at-rewritten,
}

-- What a rewrite that went well has read.
pub record IsRead (s : Side) (p : Bytes) (proto old_port : ℕ) : Type 0 where
  pub size : 20 ≤ length p
  pub version : byte_at p 0 / 16 ≡ 4
  pub proto_read : byte_at p 9 ≡ proto
  pub flow : IsFlow proto
  pub inside : ip_ihl p + port_bytes proto ≤ length p
  pub port_read : old_port ≡ word_at p (ip_ihl p + (if has_ports proto then port_offset s else 4))

-- The packet of which `recalc_ip_checksum` reads the header length: address and port are written.
abbrev pub written : Side → Bytes → ℕ → Ipv4Addr → ℕ → Bytes
written s p proto a n = set_port (set_addr p (addr_offset s) a) proto (ip_ihl p) (port_offset s) n

-- A packet that has been read is rewritten, unless it is shorter than the header length that is
-- read after the address and the port have been written.
pub rewrite-cases :
    (s : Side) (p : Bytes) (proto old_port : ℕ) (a : Ipv4Addr) (n : ℕ)
    → ip_protocol p ≡ ok proto
    → port_at p proto (ip_ihl p) (port_offset s) ≡ ok old_port
    → (rewrite s p a n ≡ ok (rewritten (addr_offset s) (port_offset s) p proto old_port a n))
        × (ip_ihl (written s p proto a n) ≤ length p)
      ⊎ (rewrite s p a n ≡ err panicked) × (length p < ip_ihl (written s p proto a n))
unfolding rewrite_at recalc_ip_checksum rewritten
rewrite-cases s p proto old_port a n good read =
    let q = written s p proto a n in
    let size : length q ≡ length p =
      length-set_port (set_addr p (addr_offset s) a) proto (ip_ihl p) (port_offset s) n
      ∙ length-set_addr p (addr_offset s) a in
    elim (Bool-cases (ltb (length q) (ip_ihl q))) [
      | inl short ↦ inr (rw (good, read, short) refl, ground arith)
      | inr long ↦ inl (rw (good, read, long) refl, ground arith)
    ]

pub rewrite-inv :
    (s : Side) (p p' : Bytes) (a : Ipv4Addr) (n : ℕ)
    → rewrite s p a n ≡ ok p'
    → (proto : ℕ) × (old_port : ℕ) × IsRead s p proto old_port
      × (p' ≡ rewritten (addr_offset s) (port_offset s) p proto old_port a n)
unfolding rewrite_at
rewrite-inv s p p' a n e = elim (Result-cases (ip_protocol p)) [
  | inr (x, bad) ↦ absurd (ground arith)
  | inl (proto, good) ↦ elim (Result-cases (port_at p proto (ip_ihl p) (port_offset s))) [
    | inr (x, bad) ↦ absurd (ground arith)
    | inl (port, read) ↦ elim (rewrite-cases s p proto port a n good read) [
      | inr (bad, short) ↦ absurd (cc (e, bad))
      | inl (done, long) ↦
          let (size, version, proto_read) = ip_protocol-inv p proto good in
          let (flow, inside, port_read) =
            port_at-inv p proto (ip_ihl p) (port_offset s) port read in
          (
            proto,
            port,
            record {
              size = size;
              version = version;
              proto_read = proto_read;
              flow = flow;
              inside = inside;
              port_read = port_read;
            },
            cc (e, done),
          )
    ]
  ]
]

abbrev pub other : Side → Side
other source = destination
other destination = source

-- A packet after a rewrite of one side: the new address and port there, the other address as before.
pub record IsReaddressed (s : Side) (p p' : Bytes) (a : Ipv4Addr) (n : ℕ) : Type 0 where
  pub size : length p' ≡ length p
  pub header_size : ip_ihl p' ≡ ip_ihl p
  pub protocol : ip_protocol p' ≡ ip_protocol p
  pub address : addr_at p' (addr_offset s) ≡ a
  pub other_address : addr_at p' (addr_offset (other s)) ≡ addr_at p (addr_offset (other s))
  pub port : port_at p' (byte_at p 9) (ip_ihl p) (port_offset s) ≡ ok n

pub side_ports : (s : Side) → (port_offset s ≡ 0) ⊎ (port_offset s ≡ 2)
side_ports source = inl refl
side_ports destination = inr refl

pub addr_range : (s : Side) → (12 ≤ addr_offset s) × (addr_offset s + 3 < 20)
addr_range source = omega arith
addr_range destination = omega arith

other_apart :
    (s : Side) (j : ℕ)
    → addr_offset (other s) ≤ j
    → j ≤ addr_offset (other s) + 3
    → (j < addr_offset s) ⊎ (addr_offset s + 3 < j)
other_apart source j x y = inr (omega arith)
other_apart destination j x y = inl (omega arith)

module _ (s : Side) (p : Bytes) (proto old_port : ℕ) (a : Ipv4Addr) (n : ℕ)
    (r : IsRead s p proto old_port) (long : 20 ≤ ip_ihl p) where
  abbrev result : Bytes
  result = rewritten (addr_offset s) (port_offset s) p proto old_port a n

  header_byte :
      (j : ℕ)
      → j < 20
      → 10 ≢ j
      → 11 ≢ j
      → byte_at result j ≡ byte_at (set_addr p (addr_offset s) a) j
  header_byte j low n10 n11 =
      byte_at-rewritten (addr_offset s) (port_offset s) p proto old_port a n j
        (elim (side_ports s) [ inl e ↦ omega arith | inr e ↦ omega arith ]) long r.inside
        (omega arith) n10 n11

  kept :
      (j : ℕ)
      → j < 20
      → 10 ≢ j
      → 11 ≢ j
      → (j < addr_offset s) ⊎ (addr_offset s + 3 < j)
      → byte_at result j ≡ byte_at p j
  kept j low n10 n11 (inl below) =
      let (lo, hi) = addr_range s in
      let size = r.size in
      header_byte j low n10 n11
      ∙ byte_at-set_addr_off p (addr_offset s) a j (omega arith) (omega arith) (omega arith)
          (omega arith) (omega arith)
  kept j low n10 n11 (inr above) =
      let (lo, hi) = addr_range s in
      let size = r.size in
      header_byte j low n10 n11
      ∙ byte_at-set_addr_off p (addr_offset s) a j (omega arith) (omega arith) (omega arith)
          (omega arith) (omega arith)

  new_address : addr_at result (addr_offset s) ≡ a
  new_address =
      let (lo, hi) = addr_range s in
      let size = r.size in
      let at = addr_offset s in
      let b0 = header_byte at (omega arith) (omega arith) (omega arith) in
      let b1 = header_byte (suc at) (omega arith) (omega arith) (omega arith) in
      let b2 = header_byte (suc (suc at)) (omega arith) (omega arith) (omega arith) in
      let b3 = header_byte (suc (suc (suc at))) (omega arith) (omega arith) (omega arith) in
      let whole = addr_at-set_addr p at a (omega arith) in omega arith

  old_address : addr_at result (addr_offset (other s)) ≡ addr_at p (addr_offset (other s))
  old_address =
      let (lo, hi) = addr_range (other s) in
      let at = addr_offset (other s) in
      let same = λ (j : ℕ) (x : at ≤ j) (y : j ≤ at + 3).
        kept j (omega arith) (λ e. omega arith) (λ e. omega arith) (other_apart s j x y) in
      let b0 = same at (omega arith) (omega arith) in
      let b1 = same (suc at) (omega arith) (omega arith) in
      let b2 = same (suc (suc at)) (omega arith) (omega arith) in
      let b3 = same (suc (suc (suc at))) (omega arith) (omega arith) in omega arith

  first_byte : byte_at result 0 ≡ byte_at p 0
  first_byte =
      let (lo, hi) = addr_range s in
      kept 0 (omega arith) (omega arith) (omega arith) (inl (omega arith))

  rewritten-IsReaddressed : IsReaddressed s p result a n
  rewritten-IsReaddressed =
      let (lo, hi) = addr_range s in
      let size = length-rewritten (addr_offset s) (port_offset s) p proto old_port a n in
      let b0 = first_byte in
      let b9 = kept 9 (omega arith) (omega arith) (omega arith) (inl (omega arith)) in
      let enough = r.size in
      let version = r.version in
      let read = r.proto_read in
      let room = r.inside in
      record {
        size = size;
        header_size = ap (λ (b : ℕ). b % 16 * 4) b0;
        protocol =
            ip_protocol-ok result (omega arith) (omega arith)
            ∙ ap ok b9
            ∙ sym (ip_protocol-ok p enough version);
        address = new_address;
        other_address = old_address;
        port = rw read (
            port_at-ok result proto (ip_ihl p) (port_offset s) r.flow (omega arith)
            ∙ ap ok (
                word_at-rewritten (addr_offset s) (port_offset s) p proto old_port a n
                  (side_ports s) r.flow long r.inside));
      }

-- A rewrite puts the new address and the new port where they are read, and leaves the other address,
-- the protocol and the sizes as they were, in a packet whose header is of at least 20 bytes.
pub rewrite-IsReaddressed :
    (s : Side) (p p' : Bytes) (a : Ipv4Addr) (n : ℕ)
    → 20 ≤ ip_ihl p
    → rewrite s p a n ≡ ok p'
    → IsReaddressed s p p' a n
rewrite-IsReaddressed s p p' a n long e =
    let (proto, old_port, r, same) = rewrite-inv s p p' a n e in
    subst (λ (q : Bytes). IsReaddressed s p q a n) (sym same)
      (rewritten-IsReaddressed s p proto old_port a n r long)
