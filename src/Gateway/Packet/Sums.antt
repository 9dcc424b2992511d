-- ===== src/Gateway/Packet/Sums.antt =====
-- crates/pim-gateway/src/engine/packet.rs, `rewrite_src` and `rewrite_dst`: the checksum that a
-- rewrite leaves in the header.
use proximity_internet_mesh.Base.{
  ℕ, suc, ◌+◌, ◌*◌, ◌/◌, ◌%◌, ◌^◌, ◌≤◌, ◌<◌, ◌≡◌, ap, ◌∙◌, subst, inl, inr, arith, Bytes, ok,
  length, take, drop, All, IsByte, byte_at, set_at, word_at, set_word, take-set_at_after,
  IsByte-set_at,
}
use proximity_internet_mesh.Core.MeshAddress.{Ipv4Addr}
use proximity_internet_mesh.Gateway.Checksum.{ones_complement_sum, fold_checksum}
use proximity_internet_mesh.Gateway.Checksum.Fold.{fold_checksum-lt}
use proximity_internet_mesh.Gateway.Packet.{
  ip_ihl, addr_at, set_addr, set_port, write_ip_checksum, recalc_icmp_checksum, update_sum,
  update_checksum, recalc_transport_checksum, Side, addr_offset, port_offset, rewrite,
}
use proximity_internet_mesh.Gateway.Packet.Reads.{rewritten}
use proximity_internet_mesh.Gateway.Packet.Bytewise.{
  byte_at-set_addr_off, length-set_addr, length-set_port,
}
use proximity_internet_mesh.Gateway.Packet.Header.{IsByte-set_word, write_ip_checksum-valid}
use proximity_internet_mesh.Gateway.Packet.Reads.{byte_at-set_port_off}
use proximity_internet_mesh.Gateway.Packet.Rewrite.{
  rewrite-inv, rewrite-IsReaddressed, addr_range, side_ports,
}

take-set_word_after : (n i v : ℕ) (p : Bytes) → n ≤ i → take n (set_word p i v) ≡ take n p
take-set_word_after n i v p h =
    take-set_at_after n (suc i) (v % 256) (set_at p i (v / 256)) (omega arith)
    ∙ take-set_at_after n i (v / 256) p h

take-recalc_icmp_checksum : (n : ℕ) (p : Bytes) → take n (recalc_icmp_checksum p n) ≡ take n p
unfolding recalc_icmp_checksum
take-recalc_icmp_checksum n p =
    let zeroed = set_at (set_at p (n + 2) 0) (suc (n + 2)) 0 in
    take-set_word_after n (n + 2) (fold_checksum (ones_complement_sum (drop n zeroed))) zeroed
      (omega arith)
    ∙ take-set_at_after n (suc (n + 2)) 0 (set_at p (n + 2) 0) (omega arith)
    ∙ take-set_at_after n (n + 2) 0 p (omega arith)

take-update_checksum :
    (n at : ℕ) (p : Bytes) (proto old_addr new_addr old_port new_port : ℕ)
    → n ≤ at
    → take n (update_checksum p proto at old_addr new_addr old_port new_port) ≡ take n p
unfolding update_checksum
take-update_checksum n at p proto old_addr new_addr old_port new_port h =
    let u = update_sum (word_at p at) old_addr new_addr old_port new_port in
    ground (arith, take-set_word_after n at (fold_checksum u) p h)

take-recalc_transport_checksum :
    (n : ℕ) (p : Bytes) (proto old_addr new_addr old_port new_port : ℕ)
    → take n (recalc_transport_checksum p proto n old_addr new_addr old_port new_port) ≡ take n p
unfolding recalc_transport_checksum
take-recalc_transport_checksum n p proto old_addr new_addr old_port new_port = ground (
  arith,
  take-recalc_icmp_checksum n p,
  take-update_checksum n (n + 16) p proto old_addr new_addr old_port new_port (omega arith),
  take-update_checksum n (n + 6) p proto old_addr new_addr old_port new_port (omega arith),
)

IsByte-set_addr :
    (p : Bytes) (i a : ℕ) → a < 65536 * 65536 → All IsByte p → All IsByte (set_addr p i a)
IsByte-set_addr p i a h bytes =
    IsByte-set_word (set_word p i (a / 65536)) (suc (suc i)) (a % 65536) (omega arith)
      (IsByte-set_word p i (a / 65536) (omega arith) bytes)

IsByte-set_port :
    (p : Bytes) (proto ihl offset port : ℕ)
    → port < 65536
    → All IsByte p
    → All IsByte (set_port p proto ihl offset port)
unfolding set_port
IsByte-set_port p proto ihl offset port h bytes =
    ground (
      arith,
      IsByte-set_word p (ihl + offset) port h bytes,
      IsByte-set_word p (ihl + 4) port h bytes,
    )

IsByte-zeroed_word :
    (p : Bytes) (i : ℕ) → All IsByte p → All IsByte (set_at (set_at p i 0) (suc i) 0)
IsByte-zeroed_word p i bytes =
    IsByte-set_at (set_at p i 0) (suc i) 0 (omega arith) (IsByte-set_at p i 0 (omega arith) bytes)

IsByte-update_checksum :
    (at : ℕ) (p : Bytes) (proto old_addr new_addr old_port new_port : ℕ)
    → All IsByte p
    → All IsByte (update_checksum p proto at old_addr new_addr old_port new_port)
unfolding update_checksum
IsByte-update_checksum at p proto old_addr new_addr old_port new_port bytes =
    let u = update_sum (word_at p at) old_addr new_addr old_port new_port in
    ground (arith, IsByte-set_word p at (fold_checksum u) (fold_checksum-lt u) bytes)

IsByte-recalc_transport_checksum :
    (n : ℕ) (p : Bytes) (proto old_addr new_addr old_port new_port : ℕ)
    → All IsByte p
    → All IsByte (recalc_transport_checksum p proto n old_addr new_addr old_port new_port)
unfolding recalc_transport_checksum recalc_icmp_checksum
IsByte-recalc_transport_checksum n p proto old_addr new_addr old_port new_port bytes =
    let zeroed = set_at (set_at p (n + 2) 0) (suc (n + 2)) 0 in
    let sum = ones_complement_sum (drop n zeroed) in
    ground (
      arith,
      IsByte-set_word zeroed (n + 2) (fold_checksum sum) (fold_checksum-lt sum)
          (IsByte-zeroed_word p (n + 2) bytes),
      IsByte-update_checksum (n + 16) p proto old_addr new_addr old_port new_port bytes,
      IsByte-update_checksum (n + 6) p proto old_addr new_addr old_port new_port bytes,
    )

pub IsByte-rewritten :
    (s : Side) (p : Bytes) (proto old_port a n : ℕ)
    → a < 2 ^ 32
    → n < 2 ^ 16
    → All IsByte p
    → All IsByte (rewritten (addr_offset s) (port_offset s) p proto old_port a n)
unfolding rewritten write_ip_checksum
IsByte-rewritten s p proto old_port a n ha hn bytes =
    let at = addr_offset s in
    let q = set_port (set_addr p at a) proto (ip_ihl p) (port_offset s) n in
    let zeroed = set_at (set_at q 10 0) 11 0 in
    let sum = ones_complement_sum (take (ip_ihl q) zeroed) in
    IsByte-recalc_transport_checksum (ip_ihl p) (set_word zeroed 10 (fold_checksum sum)) proto
      (addr_at p at) a old_port n
      (IsByte-set_word zeroed 10 (fold_checksum sum) (fold_checksum-lt sum) (
        IsByte-zeroed_word q 10 (
          IsByte-set_port (set_addr p at a) proto (ip_ihl p) (port_offset s) n (omega arith)
            (IsByte-set_addr p at a (omega arith) bytes))))

-- After a rewrite, to an address of 32 bits and a port of 16, of a packet of bytes whose header
-- is of at least 20, the header passes the receiver's test: its ones' complement sum, checksum
-- included, folds to 0.
pub rewrite-header :
    (s : Side) (p p' : Bytes) (a : Ipv4Addr) (n : ℕ)
    → All IsByte p
    → a < 2 ^ 32
    → n < 2 ^ 16
    → 20 ≤ ip_ihl p
    → rewrite s p a n ≡ ok p'
    → fold_checksum (ones_complement_sum (take (ip_ihl p') p')) ≡ 0
unfolding rewritten
rewrite-header s p p' a n bytes ha hn long e =
    let (proto, old_port, r, same) = rewrite-inv s p p' a n e in
    let at = addr_offset s in
    let inside = r.inside in
    let q = set_port (set_addr p at a) proto (ip_ihl p) (port_offset s) n in
    let len : length q ≡ length p =
      length-set_port (set_addr p at a) proto (ip_ihl p) (port_offset s) n
      ∙ length-set_addr p at a in
    let (lo, hi) = addr_range s in
    let size = r.size in
    let first : byte_at q 0 ≡ byte_at p 0 =
      byte_at-set_port_off (set_addr p at a) proto (ip_ihl p) (port_offset s) n 0
        (elim (side_ports s) [ inl e ↦ omega arith | inr e ↦ omega arith ])
        (omega (arith, length-set_addr p at a)) (omega arith)
      ∙ byte_at-set_addr_off p at a 0 (omega arith) (omega arith) (omega arith) (omega arith)
          (omega arith) in
    let head : ip_ihl q ≡ ip_ihl p = ap (λ (b : ℕ). b % 16 * 4) first in
    let good =
      write_ip_checksum-valid q
        (IsByte-set_port (set_addr p at a) proto (ip_ihl p) (port_offset s) n (omega arith)
          (IsByte-set_addr p at a (omega arith) bytes))
        (omega arith) (omega arith) in
    let cut =
      take-recalc_transport_checksum (ip_ihl p) (write_ip_checksum q) proto (addr_at p at) a
        old_port n in
    let kept = (rewrite-IsReaddressed s p p' a n long e).header_size in
    rw (kept, same)
      (ap (λ (h : Bytes). fold_checksum (ones_complement_sum h)) cut
        ∙ subst (λ (k : ℕ). fold_checksum (ones_complement_sum (take k (write_ip_checksum q))) ≡ 0)
            head good)
