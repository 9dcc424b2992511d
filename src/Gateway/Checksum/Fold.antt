-- ===== src/Gateway/Checksum/Fold.antt =====
-- crates/pim-gateway/src/engine/packet.rs, `fold_checksum`: folding is the remainder by 65535.
use proximity_internet_mesh.Base.{ℕ, zero, suc, ◌+◌, ◌/◌, ◌%◌, ◌^◌, ◌<◌, ◌≡◌, refl, arith}
use proximity_internet_mesh.Gateway.Checksum.{fold_loop, fold_checksum}

settled : (fuel sum : ℕ) → sum < 2 ^ 16 → fold_loop fuel sum ≡ sum
unfolding fold_loop
settled zero sum h = refl
settled (suc fuel) sum h = ground arith

-- More fuel than the rounds allowed changes nothing: the loop has ended.
pub fold_loop-enough :
    (fuel sum : ℕ) → sum < 2 ^ 32 → fold_loop (suc (suc fuel)) sum ≡ fold_loop 2 sum
unfolding fold_loop
fold_loop-enough fuel sum h =
    let once = sum % 2 ^ 16 + sum / 2 ^ 16 in
    ground (arith, settled fuel (once % 2 ^ 16 + once / 2 ^ 16))

pub fold_loop-lt : (sum : ℕ) → sum < 2 ^ 32 → fold_loop 2 sum < 2 ^ 16
unfolding fold_loop
fold_loop-lt sum h = ground arith

-- The sum that comes out differs from the one that goes in by a multiple of 65535, and is 0 for 0.
pub fold_checksum-mod : (sum : ℕ) → sum < 2 ^ 32 → (fold_checksum sum + sum) % 65535 ≡ 0
unfolding fold_checksum fold_loop
fold_checksum-mod sum h = ground arith

pub fold_checksum-lt : (sum : ℕ) → fold_checksum sum < 2 ^ 16
unfolding fold_checksum
fold_checksum-lt sum = omega arith

-- A sum that is a positive multiple of 65535 has the checksum 0: it passes the receiver's test.
pub fold_checksum-zero :
    (sum : ℕ) → 0 < sum → sum < 2 ^ 32 → sum % 65535 ≡ 0 → fold_checksum sum ≡ 0
unfolding fold_checksum fold_loop
fold_checksum-zero sum p h m = ground arith

-- Not both a sum and its checksum are 0.
pub fold_checksum-pos : (sum : ℕ) → sum < 2 ^ 32 → 0 < fold_checksum sum + sum
unfolding fold_checksum fold_loop
fold_checksum-pos sum h = ground arith
