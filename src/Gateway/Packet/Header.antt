-- ===== src/Gateway/Packet/Header.antt =====
-- crates/pim-gateway/src/engine/packet.rs, `recalc_ip_checksum`: the receiver's test of the header.
use proximity_internet_mesh.Base.{
  ℕ, suc, ◌+◌, ◌/◌, ◌%◌, ◌^◌, ◌≤◌, ◌<◌, ◌≡◌, ap, ◌∙◌, arith, Bytes, length, take, All, IsByte,
  set_at, word_at, set_word, length-set_at, byte_at-set_at, take-set_at, IsByte-set_at, IsByte-take,
  length-take,
}
use proximity_internet_mesh.Gateway.Checksum.{ones_complement_sum, fold_checksum}
use proximity_internet_mesh.Gateway.Checksum.Fold.{
  fold_checksum-mod, fold_checksum-zero, fold_checksum-lt, fold_checksum-pos,
}
use proximity_internet_mesh.Gateway.Checksum.Words.{
  word_sum, ones_complement_sum-word_sum, word_sum-le, word_sum-set_word, even,
}
use proximity_internet_mesh.Gateway.Packet.{ip_ihl, write_ip_checksum}
use proximity_internet_mesh.Gateway.Packet.Bytewise.{length-set_word}

pub IsByte-set_word : (p : Bytes) (i n : ℕ) → n < 65536 → All IsByte p → All IsByte (set_word p i n)
IsByte-set_word p i n h a =
    IsByte-set_at (set_at p i (n / 256)) (suc i) (n % 256) (omega arith)
      (IsByte-set_at p i (n / 256) (omega arith) a)

-- The internet checksum written over a zeroed word of a short message makes the whole sum to a
-- message that passes.
pub checksummed :
    (m : Bytes) (k : ℕ)
    → All IsByte m
    → suc (even k) < length m
    → length m ≤ 131000
    → word_at m (even k) ≡ 0
    → fold_checksum
        (ones_complement_sum (set_word m (even k) (fold_checksum (ones_complement_sum m))))
      ≡ 0
checksummed m k a inside short clear =
    let s = word_sum m in
    let small : s < 2 ^ 32 = omega (arith, word_sum-le m a) in
    let same : ones_complement_sum m ≡ s = omega (arith, ones_complement_sum-word_sum m a) in
    let c = fold_checksum s in
    let low = fold_checksum-lt s in
    let m' = set_word m (even k) c in
    let a' = IsByte-set_word m (even k) c low a in
    let len = length-set_word m (even k) c in
    let moved = word_sum-set_word k c m inside in
    let total : word_sum m' ≡ s + c = omega arith in
    let small' : s + c < 2 ^ 32 = omega (arith, word_sum-le m' a') in
    let same' : ones_complement_sum m' ≡ s + c =
      omega (arith, ones_complement_sum-word_sum m' a') in
    rw (same, same')
      (fold_checksum-zero (s + c) (omega (arith, fold_checksum-pos s small)) small'
        (omega (arith, fold_checksum-mod s small)))

-- A header of at least 20 bytes whose checksum has been recalculated passes the receiver's test.
pub write_ip_checksum-valid :
    (p : Bytes)
    → All IsByte p
    → 20 ≤ ip_ihl p
    → ip_ihl p ≤ length p
    → fold_checksum (ones_complement_sum (take (ip_ihl p) (write_ip_checksum p))) ≡ 0
unfolding write_ip_checksum
write_ip_checksum-valid p a long inside =
    let n = ip_ihl p in
    let zeroed = set_at (set_at p 10 0) 11 0 in
    let h = take n zeroed in
    let sum = fold_checksum (ones_complement_sum h) in
    let moved : take n (set_word zeroed 10 sum) ≡ set_word h 10 sum =
      take-set_at n 11 (sum % 256) (set_at zeroed 10 (sum / 256))
      ∙ ap (λ (q : Bytes). set_at q 11 (sum % 256)) (take-set_at n 10 (sum / 256) zeroed) in
    let front : h ≡ set_at (set_at (take n p) 10 0) 11 0 =
      take-set_at n 11 0 (set_at p 10 0)
      ∙ ap (λ (q : Bytes). set_at q 11 0) (take-set_at n 10 0 p) in
    let long_enough : length (take n p) ≡ n = omega (arith, length-take n p) in
    let clear : word_at h 10 ≡ 0 = rw front (
      ground (
        arith,
        byte_at-set_at (set_at (take n p) 10 0) 11 0 10,
        byte_at-set_at (set_at (take n p) 10 0) 11 0 11,
        byte_at-set_at (take n p) 10 0 10,
        length-set_at (take n p) 10 0,
      )) in
    let len : length h ≡ n =
      omega
        (arith, length-take n zeroed, length-set_at (set_at p 10 0) 11 0, length-set_at p 10 0) in
    rw moved (
      checksummed h 5
        (IsByte-take n zeroed
          (IsByte-set_at (set_at p 10 0) 11 0 (omega arith) (IsByte-set_at p 10 0 (omega arith) a)))
        (omega arith) (omega arith) clear)
