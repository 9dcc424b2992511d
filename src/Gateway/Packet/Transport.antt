-- ===== src/Gateway/Packet/Transport.antt =====
-- crates/pim-gateway/src/engine/packet.rs, `recalc_transport_checksum`: the incremental update.
use native.Mathlib.Nat.{zero-add}
use Prim.Native.Nat.add
use proximity_internet_mesh.Base.{
  ℕ, zero, suc, ◌+◌, ◌*◌, ◌/◌, ◌%◌, ◌≤◌, ◌<◌, ◌≡◌, refl, ◌∙◌, arith, [], ◌∷◌, Bytes, true, false,
  ◌&&◌, length, take, drop, All, IsByte, byte_at, set_at, word_at, set_word, drop-set_at_past,
  drop-set_at_before, IsByte-byte_at, length-drop, nat_eq, ltb, ge→ltb,
}
use proximity_internet_mesh.Gateway.{proto_udp}
use proximity_internet_mesh.Gateway.Checksum.{ones_complement_sum, fold_checksum}
use proximity_internet_mesh.Gateway.Checksum.Fold.{fold_checksum-mod}
use proximity_internet_mesh.Gateway.Checksum.Words.{word_sum, word_sum-set_word, even}
use proximity_internet_mesh.Gateway.Packet.{
  ip_ihl, addr_at, set_addr, has_ports, set_port, write_ip_checksum, update_sum, update_checksum,
}
use proximity_internet_mesh.Gateway.Packet.Bytewise.{
  byte_at-set_addr_off, byte_at-set_word_off, byte_at-write_ip_checksum, length-set_addr,
  length-set_word, length-write_ip_checksum,
}

pub byte_at-drop : (n i : ℕ) (p : Bytes) → byte_at (drop n p) i ≡ byte_at p (n + i)
unfolding byte_at
byte_at-drop zero i p = rw zero-add refl
byte_at-drop (suc n) i [] = refl
byte_at-drop (suc n) i (x ∷ xs) = rw add.suc (byte_at-drop n i xs)

pub drop-set_word :
    (n i v : ℕ) (p : Bytes) → drop n (set_word p (n + i) v) ≡ set_word (drop n p) i v
drop-set_word n i v p =
    let e : suc (n + i) ≡ n + suc i = omega arith in
    rw
      (
        e,
        drop-set_at_past n (suc i) (v % 256) (set_at p (n + i) (v / 256)),
        drop-set_at_past n i (v / 256) p,
      )
      refl

drop-set_word_before : (n i v : ℕ) (p : Bytes) → suc i < n → drop n (set_word p i v) ≡ drop n p
drop-set_word_before n i v p h =
    rw
      (
        drop-set_at_before n (suc i) (v % 256) (set_at p i (v / 256)) h,
        drop-set_at_before n i (v / 256) p (omega arith),
      )
      refl

drop-set_addr : (n i a : ℕ) (p : Bytes) → i + 3 < n → drop n (set_addr p i a) ≡ drop n p
drop-set_addr n i a p h =
    rw
      (
        drop-set_word_before n (suc (suc i)) (a % 65536) (set_word p i (a / 65536)) (omega arith),
        drop-set_word_before n i (a / 65536) p (omega arith),
      )
      refl

drop-write_ip_checksum : (n : ℕ) (p : Bytes) → 11 < n → drop n (write_ip_checksum p) ≡ drop n p
unfolding write_ip_checksum
drop-write_ip_checksum n p h =
    let zeroed = set_at (set_at p 10 0) 11 0 in
    let sum = fold_checksum (ones_complement_sum (take (ip_ihl p) zeroed)) in
    rw
      (
        drop-set_word_before n 10 sum zeroed h,
        drop-set_at_before n 11 0 (set_at p 10 0) h,
        drop-set_at_before n 10 0 p (omega arith),
      )
      refl

-- What the transport checksum is about, up to the constant parts of the pseudo-header: the addresses
-- and the segment.
abbrev pub transport_sum : ℕ → Bytes → ℕ
transport_sum ihl p =
    word_at p 12 + word_at p 14 + word_at p 16 + word_at p 18 + word_sum (drop ihl p)

-- The arithmetic of the update, for the segment `d` with the word at `offset` and the checksum.
update-mod :
    (d : Bytes) (o k old_addr new_addr old_port new_port : ℕ)
    → word_at d (even o) ≡ old_port
    → even o + 2 ≤ even k
    → suc (even k) < length d
    → old_port < 65536
    → new_port < 65536
    → old_addr < 65536 * 65536
    → new_addr < 65536 * 65536
    → word_at d (even k) < 65536
    → let d' = set_word d (even o) new_port in
      (word_sum (
            set_word d'
              (even k)
              (fold_checksum (update_sum (word_at d (even k)) old_addr new_addr old_port new_port)))
          + (new_addr / 65536 + new_addr % 65536))
        % 65535
      ≡ (word_sum d + (old_addr / 65536 + old_addr % 65536)) % 65535
unfolding update_sum
update-mod d o k old_addr new_addr old_port new_port port apart inside h1 h2 h3 h4 h5 =
    let d' = set_word d (even o) new_port in
    let old = word_at d (even k) in
    let u = update_sum old old_addr new_addr old_port new_port in
    let c = fold_checksum u in
    let b0 =
      byte_at-set_word_off d (even o) new_port (even k) (omega arith) (omega arith) (omega arith) in
    let b1 =
      byte_at-set_word_off d (even o) new_port (suc (even k)) (omega arith) (omega arith)
        (omega arith) in
    let moved = word_sum-set_word o new_port d (omega arith) in
    let moved' = word_sum-set_word k c d' (omega (arith, length-set_word d (even o) new_port)) in
    let m = fold_checksum-mod u (omega arith) in omega arith

module _ (at o k : ℕ) (p : Bytes) (proto old_port new_addr new_port : ℕ)
    (ports : has_ports proto ≡ true) (long : 20 ≤ ip_ihl p) (header : at + 3 < ip_ihl p)
    (apart : even o + 2 ≤ even k) (inside : ip_ihl p + even k + 2 ≤ length p) where
  abbrev pub before_update : Bytes
  before_update =
      write_ip_checksum (set_port (set_addr p at new_addr) proto (ip_ihl p) (even o) new_port)

  length-before_update : length before_update ≡ length p
  unfolding set_port
  length-before_update =
      rw
        (
          length-write_ip_checksum
              (set_port (set_addr p at new_addr) proto (ip_ihl p) (even o) new_port),
          ports,
          length-set_word (set_addr p at new_addr) (ip_ihl p + even o) new_port,
          length-set_addr p at new_addr,
        )
        refl

  drop-before_update :
      drop (ip_ihl p) before_update ≡ set_word (drop (ip_ihl p) p) (even o) new_port
  unfolding set_port
  drop-before_update =
      let q = set_addr p at new_addr in
      rw
        (
          drop-write_ip_checksum (ip_ihl p) (set_port q proto (ip_ihl p) (even o) new_port)
              (omega arith),
          ports,
          drop-set_word (ip_ihl p) (even o) new_port q,
          drop-set_addr (ip_ihl p) at new_addr p header,
        )
        refl

  byte_at-before_update : (j : ℕ) → ip_ihl p + even k ≤ j → byte_at before_update j ≡ byte_at p j
  unfolding set_port
  byte_at-before_update j far =
      let q = set_addr p at new_addr in
      let lq = length-set_addr p at new_addr in
      let lr = length-set_word q (ip_ihl p + even o) new_port in
      rw ports (
        byte_at-write_ip_checksum (set_word q (ip_ihl p + even o) new_port) j (omega arith)
          (omega arith) (omega arith)
        ∙ byte_at-set_word_off q (ip_ihl p + even o) new_port j (omega arith) (omega arith)
            (omega arith)
        ∙ byte_at-set_addr_off p at new_addr j (omega arith) (omega arith) (omega arith)
            (omega arith) (omega arith))

  module _
      (summed : (nat_eq (word_at p (ip_ihl p + even k)) 0 && nat_eq proto proto_udp) ≡ false) where
    updated-drop :
        drop (ip_ihl p) (
          update_checksum before_update proto
            (ip_ihl p + even k)
            (addr_at p at)
            new_addr
            old_port
            new_port)
        ≡ set_word (set_word (drop (ip_ihl p) p) (even o) new_port) (even k) (
            fold_checksum (
              update_sum
                (word_at (drop (ip_ihl p) p) (even k))
                (addr_at p at)
                new_addr
                old_port
                new_port))
    unfolding update_checksum
    updated-drop =
        let i = ip_ihl p + even k in
        let d = drop (ip_ihl p) p in
        let b0 = byte_at-before_update i (omega arith) in
        let b1 = byte_at-before_update (suc i) (omega arith) in
        let w : word_at before_update i ≡ word_at p i = omega arith in
        let j : suc i ≡ ip_ihl p + suc (even k) = omega arith in
        let v : word_at d (even k) ≡ word_at p i =
          rw (j, byte_at-drop (ip_ihl p) (even k) p, byte_at-drop (ip_ihl p) (suc (even k)) p)
            refl in
        let l : ltb (length before_update) (i + 2) ≡ false =
          ge→ltb (length before_update) (i + 2) (omega (arith, length-before_update)) in
        rw (l, w, summed, v, drop-set_word (ip_ihl p) (even k) _ before_update, drop-before_update)
          refl

    pub updated-mod :
        word_at p (ip_ihl p + even o) ≡ old_port
        → new_port < 65536
        → new_addr < 65536 * 65536
        → All IsByte p
        → (word_sum (
                drop (ip_ihl p) (
                  update_checksum before_update proto
                    (ip_ihl p + even k)
                    (addr_at p at)
                    new_addr
                    old_port
                    new_port))
              + (new_addr / 65536 + new_addr % 65536))
            % 65535
          ≡ (word_sum (drop (ip_ihl p) p) + (word_at p at + word_at p (suc (suc at)))) % 65535
    updated-mod port h2 h4 bytes =
        let d = drop (ip_ihl p) p in
        let b = λ (i : ℕ). IsByte-byte_at p i bytes in
        let e : suc (ip_ihl p + even o) ≡ ip_ihl p + suc (even o) = omega arith in
        let v : word_at d (even o) ≡ old_port =
          rw (byte_at-drop (ip_ihl p) (even o) p, byte_at-drop (ip_ihl p) (suc (even o)) p, ← e)
            port in
        let m =
          update-mod d o k (addr_at p at) new_addr old_port new_port v apart
            (omega (arith, length-drop (ip_ihl p) p))
            (omega (arith, port, b (ip_ihl p + even o), b (suc (ip_ihl p + even o)))) h2
            (omega (arith, b at, b (suc at), b (suc (suc at)), b (suc (suc (suc at))))) h4
            (omega (
              arith,
              byte_at-drop (ip_ihl p) (even k) p,
              byte_at-drop (ip_ihl p) (suc (even k)) p,
              b (ip_ihl p + even k),
              b (ip_ihl p + suc (even k)),
            )) in
        rw updated-drop (omega (arith, m, b (suc (suc at)), b (suc (suc (suc at)))))
