-- ===== src/Gateway/Packet/Bytewise.antt =====
-- crates/pim-gateway/src/engine/packet.rs: which bytes of a packet a rewrite touches.
use proximity_internet_mesh.Base.{
  ℕ, suc, ◌+◌, ◌/◌, ◌%◌, ◌<◌, ◌≡◌, ◌≢◌, refl, arith, Bytes, length, take, drop, byte_at, set_at,
  word_at, set_word, length-set_at, byte_at-set_at, nat_eq, if◌then◌else◌,
}
use proximity_internet_mesh.Core.MeshAddress.{Ipv4Addr}
use proximity_internet_mesh.Gateway.{proto_tcp, proto_udp}
use proximity_internet_mesh.Gateway.Checksum.{ones_complement_sum, fold_checksum}
use proximity_internet_mesh.Gateway.Packet.{
  ip_ihl, addr_at, update_sum, set_addr, set_port, write_ip_checksum, recalc_icmp_checksum,
  update_checksum, recalc_transport_checksum,
}

pub length-set_word : (p : Bytes) (i n : ℕ) → length (set_word p i n) ≡ length p
length-set_word p i n =
    rw (length-set_at (set_at p i (n / 256)) (suc i) (n % 256), length-set_at p i (n / 256)) refl

pub byte_at-set_word_off :
    (p : Bytes) (i n j : ℕ)
    → suc i < length p
    → i ≢ j
    → suc i ≢ j
    → byte_at (set_word p i n) j ≡ byte_at p j
byte_at-set_word_off p i n j h a b = ground (
  arith,
  byte_at-set_at (set_at p i (n / 256)) (suc i) (n % 256) j,
  byte_at-set_at p i (n / 256) j,
  length-set_at p i (n / 256),
)

-- A word is read back where it was written.
pub word_at-set_word : (p : Bytes) (i n : ℕ) → suc i < length p → word_at (set_word p i n) i ≡ n
word_at-set_word p i n h = ground (
  arith,
  byte_at-set_at (set_at p i (n / 256)) (suc i) (n % 256) i,
  byte_at-set_at (set_at p i (n / 256)) (suc i) (n % 256) (suc i),
  byte_at-set_at p i (n / 256) i,
  length-set_at p i (n / 256),
)

pub length-set_addr : (p : Bytes) (i a : ℕ) → length (set_addr p i a) ≡ length p
length-set_addr p i a =
    rw
      (
        length-set_word (set_word p i (a / 65536)) (suc (suc i)) (a % 65536),
        length-set_word p i (a / 65536),
      )
      refl

pub length-set_port :
    (p : Bytes) (proto ihl offset port : ℕ) → length (set_port p proto ihl offset port) ≡ length p
unfolding set_port
length-set_port p proto ihl offset port =
    ground (arith, length-set_word p (ihl + offset) port, length-set_word p (ihl + 4) port)

pub length-write_ip_checksum : (p : Bytes) → length (write_ip_checksum p) ≡ length p
unfolding write_ip_checksum
length-write_ip_checksum p =
    rw
      (
        length-set_word (set_at (set_at p 10 0) 11 0) 10 _,
        length-set_at (set_at p 10 0) 11 0,
        length-set_at p 10 0,
      )
      refl

pub byte_at-write_ip_checksum :
    (p : Bytes) (j : ℕ)
    → 11 < length p
    → 10 ≢ j
    → 11 ≢ j
    → byte_at (write_ip_checksum p) j ≡ byte_at p j
unfolding write_ip_checksum
byte_at-write_ip_checksum p j h a b =
    let zeroed = set_at (set_at p 10 0) 11 0 in
    let sum = fold_checksum (ones_complement_sum (take (ip_ihl p) zeroed)) in
    ground (
      arith,
      byte_at-set_word_off zeroed 10 sum j,
      byte_at-set_at (set_at p 10 0) 11 0 j,
      byte_at-set_at p 10 0 j,
      length-set_at (set_at p 10 0) 11 0,
      length-set_at p 10 0,
    )

byte_at-recalc_icmp_checksum :
    (p : Bytes) (ihl j : ℕ)
    → ihl + 3 < length p
    → ihl + 2 ≢ j
    → ihl + 3 ≢ j
    → byte_at (recalc_icmp_checksum p ihl) j ≡ byte_at p j
unfolding recalc_icmp_checksum
byte_at-recalc_icmp_checksum p ihl j h a b =
    let once = set_at p (ihl + 2) 0 in
    let zeroed = set_at once (suc (ihl + 2)) 0 in
    let sum = fold_checksum (ones_complement_sum (drop ihl zeroed)) in
    ground (
      arith,
      byte_at-set_word_off zeroed (ihl + 2) sum j,
      byte_at-set_at once (suc (ihl + 2)) 0 j,
      byte_at-set_at p (ihl + 2) 0 j,
      length-set_at once (suc (ihl + 2)) 0,
      length-set_at p (ihl + 2) 0,
    )

length-recalc_icmp_checksum : (p : Bytes) (ihl : ℕ) → length (recalc_icmp_checksum p ihl) ≡ length p
unfolding recalc_icmp_checksum
length-recalc_icmp_checksum p ihl =
    let once = set_at p (ihl + 2) 0 in
    let zeroed = set_at once (suc (ihl + 2)) 0 in
    rw
      (
        length-set_word zeroed (ihl + 2) _,
        length-set_at once (suc (ihl + 2)) 0,
        length-set_at p (ihl + 2) 0,
      )
      refl

length-update_checksum :
    (p : Bytes) (proto at : ℕ) (old_addr new_addr : Ipv4Addr) (old_port new_port : ℕ)
    → length (update_checksum p proto at old_addr new_addr old_port new_port) ≡ length p
unfolding update_checksum
length-update_checksum p proto at old_addr new_addr old_port new_port = ground (
  arith,
  length-set_word p at
      (fold_checksum (update_sum (word_at p at) old_addr new_addr old_port new_port)),
)

byte_at-update_checksum :
    (p : Bytes) (proto at : ℕ) (old_addr new_addr : Ipv4Addr) (old_port new_port j : ℕ)
    → at ≢ j
    → suc at ≢ j
    → byte_at (update_checksum p proto at old_addr new_addr old_port new_port) j ≡ byte_at p j
unfolding update_checksum
byte_at-update_checksum p proto at old_addr new_addr old_port new_port j a b = ground (
  arith,
  byte_at-set_word_off p at
      (fold_checksum (update_sum (word_at p at) old_addr new_addr old_port new_port)) j,
)

-- Where the checksum stands in the transport header.
abbrev pub checksum_offset : ℕ → ℕ
checksum_offset proto =
    if nat_eq proto proto_tcp then 16 else if nat_eq proto proto_udp then 6 else 2

pub length-recalc_transport_checksum :
    (p : Bytes) (proto ihl : ℕ) (old_addr new_addr : Ipv4Addr) (old_port new_port : ℕ)
    → length (recalc_transport_checksum p proto ihl old_addr new_addr old_port new_port) ≡ length p
unfolding recalc_transport_checksum
length-recalc_transport_checksum p proto ihl old_addr new_addr old_port new_port = ground (
  arith,
  length-recalc_icmp_checksum p ihl,
  length-update_checksum p proto (ihl + 16) old_addr new_addr old_port new_port,
  length-update_checksum p proto (ihl + 6) old_addr new_addr old_port new_port,
)

pub byte_at-recalc_transport_checksum :
    (p : Bytes) (proto ihl : ℕ) (old_addr new_addr : Ipv4Addr) (old_port new_port j : ℕ)
    → ihl + checksum_offset proto ≢ j
    → suc (ihl + checksum_offset proto) ≢ j
    → byte_at (recalc_transport_checksum p proto ihl old_addr new_addr old_port new_port) j
      ≡ byte_at p j
unfolding recalc_transport_checksum
byte_at-recalc_transport_checksum p proto ihl old_addr new_addr old_port new_port j a b = ground (
  arith,
  byte_at-recalc_icmp_checksum p ihl j,
  byte_at-update_checksum p proto (ihl + 16) old_addr new_addr old_port new_port j,
  byte_at-update_checksum p proto (ihl + 6) old_addr new_addr old_port new_port j,
)

pub byte_at-set_addr_off :
    (p : Bytes) (i a j : ℕ)
    → i + 3 < length p
    → i ≢ j
    → i + 1 ≢ j
    → i + 2 ≢ j
    → i + 3 ≢ j
    → byte_at (set_addr p i a) j ≡ byte_at p j
byte_at-set_addr_off p i a j h e0 e1 e2 e3 = ground (
  arith,
  byte_at-set_word_off (set_word p i (a / 65536)) (suc (suc i)) (a % 65536) j,
  byte_at-set_word_off p i (a / 65536) j,
  length-set_word p i (a / 65536),
)

pub addr_at-set_addr : (p : Bytes) (i a : ℕ) → i + 3 < length p → addr_at (set_addr p i a) i ≡ a
addr_at-set_addr p i a h =
    let q = set_word p i (a / 65536) in
    let low =
      word_at-set_word q (suc (suc i)) (a % 65536)
        (omega (arith, length-set_word p i (a / 65536))) in
    let high = word_at-set_word p i (a / 65536) (omega arith) in
    let b0 =
      byte_at-set_word_off q (suc (suc i)) (a % 65536) i
        (omega (arith, length-set_word p i (a / 65536))) (omega arith) (omega arith) in
    let b1 =
      byte_at-set_word_off q (suc (suc i)) (a % 65536) (suc i)
        (omega (arith, length-set_word p i (a / 65536))) (omega arith) (omega arith) in
    omega arith
