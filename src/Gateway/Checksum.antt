-- ===== src/Gateway/Checksum.antt =====
-- crates/pim-gateway/src/engine/packet.rs: the internet checksum.
pub mod Fold
pub mod Words
use proximity_internet_mesh.Base.{
  ℕ, zero, suc, ◌+◌, ◌-◌, ◌*◌, ◌/◌, ◌%◌, ◌^◌, List, [], ◌∷◌, Bytes, Bool, true, false, nat_eq,
  if◌then◌else◌,
}

-- A word of two bytes at a time, and a last odd byte as the high one; in 32 bits.
unfoldable pub ones_complement_sum : Bytes → ℕ
ones_complement_sum [] = 0
ones_complement_sum (x ∷ []) = x * 256
ones_complement_sum (x ∷ y ∷ rest) = (x * 256 + y + ones_complement_sum rest) % 2 ^ 32

-- The `while` loop of `fold_checksum`. Of a number of 32 bits two rounds leave 16.
unfoldable pub fold_loop : ℕ → ℕ → ℕ
fold_loop zero sum = sum
fold_loop (suc fuel) sum =
    let rest = fold_loop fuel (sum % 2 ^ 16 + sum / 2 ^ 16) in
    if nat_eq (sum / 2 ^ 16) 0 then sum else rest

abbrev pub fold_rounds : ℕ
fold_rounds = 3

-- `!(sum as u16)` of what the loop leaves.
unfoldable pub fold_checksum : ℕ → ℕ
unfolding fold_loop
fold_checksum sum = 65535 - fold_loop fold_rounds sum % 2 ^ 16
