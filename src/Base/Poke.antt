-- ===== src/Base/Poke.antt =====
-- Writing single bytes and words of a slice: `p[i] = b` and `p[i..i + 2].copy_from_slice(..)`.
use Prim.Native.Nat.{ℕ, zero, suc, ◌+◌, ◌*◌, ◌/◌, ◌%◌, ◌≤◌, ◌<◌}
use mathlib.Core.Path.{◌≡◌, refl, ap}
use mathlib.Core.List.{[], ◌∷◌}
use native.Mathlib.Omega.{arith}
use native.Mathlib.Nat.{zero-add}
use Prim.Native.Nat.add
use proximity_internet_mesh.Base.Tests.{if◌then◌else◌, nat_eq}
use proximity_internet_mesh.Base.Lists.{length, take, drop, All}
use proximity_internet_mesh.Base.Buffer.{Bytes, IsByte, byte_at}

-- `p[i] = b`, where the source has checked that `i` is in range.
unfoldable pub set_at : Bytes → ℕ → ℕ → Bytes
set_at [] i b = []
set_at (x ∷ xs) zero b = b ∷ xs
set_at (x ∷ xs) (suc i) b = x ∷ set_at xs i b

-- `u16::from_be_bytes([p[i], p[i + 1]])`
abbrev pub word_at : Bytes → ℕ → ℕ
word_at p i = byte_at p i * 256 + byte_at p (suc i)

-- `p[i..i + 2].copy_from_slice(&n.to_be_bytes())`
abbrev pub set_word : Bytes → ℕ → ℕ → Bytes
set_word p i n = set_at (set_at p i (n / 256)) (suc i) (n % 256)

pub length-set_at : (p : Bytes) (i b : ℕ) → length (set_at p i b) ≡ length p
unfolding set_at
length-set_at [] i b = refl
length-set_at (x ∷ xs) zero b = refl
length-set_at (x ∷ xs) (suc i) b = ap suc (length-set_at xs i b)

pub byte_at-set_at :
    (p : Bytes) (i b j : ℕ)
    → i < length p
    → byte_at (set_at p i b) j ≡ (if nat_eq i j then b else byte_at p j)
unfolding set_at byte_at
byte_at-set_at [] i b j h = absurd (omega arith)
byte_at-set_at (x ∷ xs) zero b zero h = refl
byte_at-set_at (x ∷ xs) zero b (suc j) h = ground arith
byte_at-set_at (x ∷ xs) (suc i) b zero h = ground arith
byte_at-set_at (x ∷ xs) (suc i) b (suc j) h = ground (arith, byte_at-set_at xs i b j (omega arith))

pub take-set_at : (n i b : ℕ) (p : Bytes) → take n (set_at p i b) ≡ set_at (take n p) i b
unfolding set_at
take-set_at zero i b p = refl
take-set_at (suc n) i b [] = refl
take-set_at (suc n) zero b (x ∷ xs) = refl
take-set_at (suc n) (suc i) b (x ∷ xs) = ap (◌∷◌ x) (take-set_at n i b xs)

pub drop-set_at_past : (n i b : ℕ) (p : Bytes) → drop n (set_at p (n + i) b) ≡ set_at (drop n p) i b
unfolding set_at
drop-set_at_past zero i b p = rw zero-add refl
drop-set_at_past (suc n) i b [] = refl
drop-set_at_past (suc n) i b (x ∷ xs) = rw add.suc (drop-set_at_past n i b xs)

pub drop-set_at_before : (n i b : ℕ) (p : Bytes) → i < n → drop n (set_at p i b) ≡ drop n p
unfolding set_at
drop-set_at_before zero i b p h = absurd (omega arith)
drop-set_at_before (suc n) i b [] h = refl
drop-set_at_before (suc n) zero b (x ∷ xs) h = refl
drop-set_at_before (suc n) (suc i) b (x ∷ xs) h = drop-set_at_before n i b xs (omega arith)

pub take-set_at_after : (n i b : ℕ) (p : Bytes) → n ≤ i → take n (set_at p i b) ≡ take n p
unfolding set_at
take-set_at_after zero i b p h = refl
take-set_at_after (suc n) i b [] h = refl
take-set_at_after (suc n) zero b (x ∷ xs) h = absurd (omega arith)
take-set_at_after (suc n) (suc i) b (x ∷ xs) h =
    ap (◌∷◌ x) (take-set_at_after n i b xs (omega arith))

pub IsByte-set_at : (p : Bytes) (i b : ℕ) → b < 256 → All IsByte p → All IsByte (set_at p i b)
unfolding set_at
IsByte-set_at [] i b h a = tt
IsByte-set_at (x ∷ xs) zero b h (hx, a) = (h, a)
IsByte-set_at (x ∷ xs) (suc i) b h (hx, a) = (hx, IsByte-set_at xs i b h a)

pub IsByte-take : (n : ℕ) (p : Bytes) → All IsByte p → All IsByte (take n p)
IsByte-take zero p a = tt
IsByte-take (suc n) [] a = tt
IsByte-take (suc n) (x ∷ xs) (h, a) = (h, IsByte-take n xs a)

pub IsByte-drop : (n : ℕ) (p : Bytes) → All IsByte p → All IsByte (drop n p)
IsByte-drop zero p a = a
IsByte-drop (suc n) [] a = tt
IsByte-drop (suc n) (x ∷ xs) (h, a) = IsByte-drop n xs a

pub IsByte-byte_at : (p : Bytes) (i : ℕ) → All IsByte p → byte_at p i < 256
unfolding byte_at
IsByte-byte_at [] i a = omega arith
IsByte-byte_at (x ∷ xs) zero (h, a) = h
IsByte-byte_at (x ∷ xs) (suc i) (h, a) = IsByte-byte_at xs i a
