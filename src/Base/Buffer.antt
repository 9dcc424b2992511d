-- ===== src/Base/Buffer.antt =====
-- Byte buffers, the big-endian readers and writers of the `bytes` crate and of Rust's slices.
use Prim.Native.Nat.{ℕ, zero, suc, ◌+◌, ◌-◌, ◌*◌, ◌/◌, ◌%◌, ◌^◌, ◌≤◌, ◌<◌}
use mathlib.Core.Path.{◌≡◌, refl, sym, ap, ◌∙◌}
use mathlib.Core.List.{List, [], ◌∷◌, ◌++◌, append_assoc}
use native.Mathlib.Omega.{arith}
use native.Mathlib.Nat.{zero-add, add-zero, div-add-mod, mod-lt, pow-suc}
use Prim.Native.Nat.add
use proximity_internet_mesh.Base.Lists.{
  length, take, drop, length-append, drop_past, take_front, get_elem?, length-take, length-drop,
  take-append, drop-append, get_elem?-take, get_elem?-drop, drop-drop, take-append-drop,
}

abbrev pub Bytes : Type 0
Bytes = List ℕ

abbrev pub IsByte : ℕ → Type 0
IsByte b = b < 256

-- `&buf[i..j]`, where the source has checked that `j` is in range.
unfoldable pub slice : Bytes → ℕ → ℕ → Bytes
slice buf i j = take (j - i) (drop i buf)

-- The number that a big-endian slice stands for.
unfoldable pub be_value : Bytes → ℕ
be_value [] = 0
be_value (x ∷ xs) = x * 256 ^ length xs + be_value xs

-- The `w` bytes of a number below `256 ^ w`, most significant first.
unfoldable pub be_bytes : ℕ → ℕ → Bytes
be_bytes zero n = []
be_bytes (suc w) n = (n / 256 ^ w) ∷ be_bytes w (n % 256 ^ w)

-- `buf[i]`, where the source has checked that `i` is in range.
unfoldable pub byte_at : Bytes → ℕ → ℕ
byte_at [] i = 0
byte_at (x ∷ xs) zero = x
byte_at (x ∷ xs) (suc i) = byte_at xs i

pub length-be_bytes : (w n : ℕ) → length (be_bytes w n) ≡ w
unfolding be_bytes
length-be_bytes zero n = refl
length-be_bytes (suc w) n = ap suc (length-be_bytes w (n % 256 ^ w))

pow_pos : (w : ℕ) → 0 < 256 ^ w
pow_pos zero = omega arith
pow_pos (suc w) = rw pow-suc (omega (arith, pow_pos w))

pub be_value-be_bytes : (w n : ℕ) → n < 256 ^ w → be_value (be_bytes w n) ≡ n
unfolding be_bytes be_value
be_value-be_bytes zero n h = omega arith
be_value-be_bytes (suc w) n h =
    rw (length-be_bytes w (n % 256 ^ w), be_value-be_bytes w (n % 256 ^ w) (mod-lt n (pow_pos w)))
      (omega (arith, div-add-mod n (256 ^ w)))

-- A frame's layout: consecutive fields, as a sequence of `put_*` calls writes them, with widths.
abbrev pub concat : List Bytes → Bytes
concat [] = []
concat (f ∷ fs) = f ++ concat fs

abbrev pub Fits : List Bytes → List ℕ → Type 0
Fits [] [] = Unit {0}
Fits [] (w ∷ ws) = ⊥
Fits (f ∷ fs) [] = ⊥
Fits (f ∷ fs) (w ∷ ws) = (length f ≡ w) × Fits fs ws

abbrev pub total : List ℕ → ℕ
total [] = 0
total (w ∷ ws) = w + total ws

abbrev pub offset : List ℕ → ℕ → ℕ
offset ws zero = 0
offset [] (suc k) = 0
offset (w ∷ ws) (suc k) = w + offset ws k

abbrev pub field : List Bytes → ℕ → Bytes
field [] k = []
field (f ∷ fs) zero = f
field (f ∷ fs) (suc k) = field fs k

pub length-concat :
    (fs : List Bytes) (ws : List ℕ) (rest : Bytes)
    → Fits fs ws
    → length (concat fs ++ rest) ≡ total ws + length rest
length-concat [] [] rest h = omega arith
length-concat [] (w ∷ ws) rest h = absurd h
length-concat (f ∷ fs) [] rest h = absurd h
length-concat (f ∷ fs) (w ∷ ws) rest (e, h) = omega (
  arith,
  length-append (f ++ concat fs) rest,
  length-append f (concat fs),
  length-append (concat fs) rest,
  length-concat fs ws rest h,
)

-- What follows the fields.
pub drop-concat :
    (fs : List Bytes) (ws : List ℕ) (rest : Bytes)
    → Fits fs ws
    → drop (total ws) (concat fs ++ rest) ≡ rest
drop-concat [] [] rest h = refl
drop-concat [] (w ∷ ws) rest h = absurd h
drop-concat (f ∷ fs) [] rest h = absurd h
drop-concat (f ∷ fs) (w ∷ ws) rest (e, h) =
    rw (append_assoc, ← e) (drop_past f (concat fs ++ rest) (total ws) ∙ drop-concat fs ws rest h)

pub slice_past :
    (a b : Bytes) (w i j : ℕ) → length a ≡ w → slice (a ++ b) (w + i) (w + j) ≡ slice b i j
unfolding slice
slice_past a b w i j e =
    rw (← e, drop_past a b i)
      (ap (λ (n : ℕ). take n (drop i b))
        (let d : length a + j - (length a + i) ≡ j - i = omega arith in d))

pub slice_head : (a b : Bytes) (w : ℕ) → length a ≡ w → slice (a ++ b) 0 (w + 0) ≡ a
unfolding slice
slice_head a b w e =
    ap (λ (n : ℕ). take n (a ++ b)) (let d : w + 0 - 0 ≡ length a = omega arith in d)
    ∙ take_front a b

-- The slice between the offsets of a field is the field.
pub slice-concat :
    (fs : List Bytes) (ws : List ℕ) (rest : Bytes)
    → Fits fs ws
    → (k : ℕ) → slice (concat fs ++ rest) (offset ws k) (offset ws (suc k)) ≡ field fs k
slice-concat [] [] rest h zero = unfold slice in refl
slice-concat [] [] rest h (suc k) = unfold slice in refl
slice-concat [] (w ∷ ws) rest h k = absurd h
slice-concat (f ∷ fs) [] rest h k = absurd h
slice-concat (f ∷ fs) (w ∷ ws) rest (e, h) zero =
    rw append_assoc (slice_head f (concat fs ++ rest) w e)
slice-concat (f ∷ fs) (w ∷ ws) rest (e, h) (suc k) = rw append_assoc (
    slice_past f (concat fs ++ rest) w (offset ws k) (offset ws (suc k)) e
    ∙ slice-concat fs ws rest h k)

byte_at-take : (buf : Bytes) (i b : ℕ) → take 1 (drop i buf) ≡ b ∷ [] → byte_at buf i ≡ b
unfolding byte_at
byte_at-take [] zero b e = cc
byte_at-take [] (suc i) b e = cc
byte_at-take (x ∷ xs) zero b e = ground arith
byte_at-take (x ∷ xs) (suc i) b e = byte_at-take xs i b e

byte_at-slice : (buf : Bytes) (i b : ℕ) → slice buf i (suc i) ≡ b ∷ [] → byte_at buf i ≡ b
unfolding slice
byte_at-slice buf i b e =
    byte_at-take buf i b
      (ap (λ (n : ℕ). take n (drop i buf)) (let d : 1 ≡ suc i - i = omega arith in d) ∙ e)

pub byte_at-concat :
    (fs : List Bytes) (ws : List ℕ) (rest : Bytes) (k b : ℕ)
    → Fits fs ws
    → offset ws (suc k) ≡ suc (offset ws k)
    → field fs k ≡ b ∷ []
    → byte_at (concat fs ++ rest) (offset ws k) ≡ b
byte_at-concat fs ws rest k b h w e =
    byte_at-slice (concat fs ++ rest) (offset ws k) b (rw (← w) (slice-concat fs ws rest h k ∙ e))

-- What is left of a buffer behind its first `k` fields; the first field, and what follows it.
pub drop_fields :
    (fs : List Bytes) (ws : List ℕ) (rest : Bytes)
    → Fits fs ws
    → (k : ℕ) → drop (offset ws k) (concat fs ++ rest) ≡ concat (drop k fs) ++ rest
drop_fields [] [] rest h zero = refl
drop_fields [] [] rest h (suc k) = refl
drop_fields [] (w ∷ ws) rest h k = absurd h
drop_fields (f ∷ fs) [] rest h k = absurd h
drop_fields (f ∷ fs) (w ∷ ws) rest (e, h) zero = refl
drop_fields (f ∷ fs) (w ∷ ws) rest (e, h) (suc k) =
    rw (append_assoc, ← e)
      (drop_past f (concat fs ++ rest) (offset ws k) ∙ drop_fields fs ws rest h k)

pub take_field :
    (f : Bytes) (fs : List Bytes) (rest : Bytes) {w : ℕ}
    → length f ≡ w
    → take w (concat (f ∷ fs) ++ rest) ≡ f
take_field f fs rest e = rw (append_assoc, ← e) (take_front f (concat fs ++ rest))

pub drop_field :
    (f : Bytes) (fs : List Bytes) (rest : Bytes) {w : ℕ}
    → length f ≡ w
    → drop w (concat (f ∷ fs) ++ rest) ≡ concat fs ++ rest
drop_field f fs rest e =
    rw (append_assoc, ← e, ← add-zero (length f)) (drop_past f (concat fs ++ rest) 0)

-- The same at offsets that are given by equations.
pub slice-field :
    (fs : List Bytes) (ws : List ℕ) (rest : Bytes) (k i j : ℕ)
    → Fits fs ws
    → i ≡ offset ws k
    → j ≡ offset ws (suc k)
    → slice (concat fs ++ rest) i j ≡ field fs k
slice-field fs ws rest k i j h p q = rw (p, q) (slice-concat fs ws rest h k)

byte_at_behind : (xs b : Bytes) (i : ℕ) → byte_at (xs ++ b) (length xs + i) ≡ byte_at b i
unfolding byte_at
byte_at_behind [] b i = rw zero-add
byte_at_behind (x ∷ xs) b i = rw add.suc (byte_at_behind xs b i)

pub byte_at_past : (a b : Bytes) (w i : ℕ) → length a ≡ w → byte_at (a ++ b) (w + i) ≡ byte_at b i
byte_at_past a b w i e = rw (← e) (byte_at_behind a b i)

-- A buffer of fields cut in two.
pub split_fields :
    (fs : List Bytes) (k : ℕ) (rest : Bytes)
    → concat fs ++ rest ≡ concat (take k fs) ++ (concat (drop k fs) ++ rest)
split_fields fs zero rest = refl
split_fields [] (suc k) rest = refl
split_fields (f ∷ fs) (suc k) rest =
    rw
      (
        append_assoc f (concat fs) rest,
        append_assoc f (concat (take k fs)) (concat (drop k fs) ++ rest),
      )
      (ap (◌++◌ f) (split_fields fs k rest))

pub length-slice : (buf : Bytes) (i j : ℕ) → i ≤ j → j ≤ length buf → length (slice buf i j) ≡ j - i
unfolding slice
length-slice buf i j h k = omega (arith, length-take (j - i) (drop i buf), length-drop i buf)

pub get_elem?-slice :
    (buf : Bytes) (i j k : ℕ) → k < j - i → get_elem? (slice buf i j) k ≡ get_elem? buf (i + k)
unfolding slice
get_elem?-slice buf i j k h = get_elem?-take (j - i) k (drop i buf) h ∙ get_elem?-drop i k buf

-- A slice and what stands behind it.
pub slice-append-drop : (buf : Bytes) (i j : ℕ) → i ≤ j → slice buf i j ++ drop j buf ≡ drop i buf
unfolding slice
slice-append-drop buf i j h =
    ap (λ (xs : Bytes). take (j - i) (drop i buf) ++ xs)
      (ap (λ (n : ℕ). drop n buf) (let e : j ≡ i + (j - i) = omega arith in e)
        ∙ sym (drop-drop i (j - i) buf))
    ∙ take-append-drop (j - i) (drop i buf)

-- A slice does not see what is appended behind it.
pub slice-append :
    (xs ys : Bytes) (i j : ℕ) → i ≤ j → j ≤ length xs → slice (xs ++ ys) i j ≡ slice xs i j
unfolding slice
slice-append xs ys i j h k =
    rw (drop-append i xs ys (omega arith))
      (take-append (j - i) (drop i xs) ys (omega (arith, length-drop i xs)))
