-- ===== src/Gateway/Checksum/Words.antt =====
-- crates/pim-gateway/src/engine/packet.rs, `ones_complement_sum`: sums of words, and how they change
-- when a word is written.
use proximity_internet_mesh.Base.{
  ℕ, zero, suc, ◌+◌, ◌*◌, ◌%◌, ◌^◌, ◌≤◌, ◌<◌, ◌≡◌, refl, [], ◌∷◌, arith, Bytes, IsByte, length, All,
  set_at, byte_at, set_word, word_at,
}
use proximity_internet_mesh.Gateway.Checksum.{ones_complement_sum}

-- The sum without a limit.
unfoldable pub word_sum : Bytes → ℕ
word_sum [] = 0
word_sum (x ∷ []) = x * 256
word_sum (x ∷ y ∷ rest) = x * 256 + y + word_sum rest

pub ones_complement_sum-word_sum :
    (p : Bytes) → All IsByte p → ones_complement_sum p ≡ word_sum p % 2 ^ 32
unfolding ones_complement_sum word_sum
ones_complement_sum-word_sum [] h = refl
ones_complement_sum-word_sum (x ∷ []) (b, h) = omega arith
ones_complement_sum-word_sum (x ∷ y ∷ rest) (b, (c, h)) =
    omega (arith, ones_complement_sum-word_sum rest h)

pub word_sum-le : (p : Bytes) → All IsByte p → 2 * word_sum p ≤ 65535 * (length p + 1)
unfolding word_sum
word_sum-le [] h = omega arith
word_sum-le (x ∷ []) (b, h) = omega arith
word_sum-le (x ∷ y ∷ rest) (b, (c, h)) = omega (arith, word_sum-le rest h)

abbrev pub even : ℕ → ℕ
even zero = zero
even (suc k) = suc (suc (even k))

-- Writing a word at an even place changes the sum by the difference.
pub word_sum-set_word :
    (k n : ℕ) (p : Bytes)
    → suc (even k) < length p
    → word_sum (set_word p (even k) n) + word_at p (even k) ≡ word_sum p + n
unfolding word_sum set_at byte_at
word_sum-set_word k n [] h = absurd (omega arith)
word_sum-set_word zero n (x ∷ []) h = absurd (omega arith)
word_sum-set_word zero n (x ∷ y ∷ rest) h = omega arith
word_sum-set_word (suc k) n (x ∷ []) h = absurd (omega arith)
word_sum-set_word (suc k) n (x ∷ y ∷ rest) h =
    omega (arith, word_sum-set_word k n rest (omega arith))
