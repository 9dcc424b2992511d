-- ===== src/Protocol/Wire.antt =====
-- The buffers of the `bytes` crate, which the codecs of crates/pim-protocol/src use: a parameter
-- of the model, with the crate's documented byte order as its laws.
use proximity_internet_mesh.Base.{
  ℕ, suc, ◌+◌, ◌/◌, ◌^◌, ◌<◌, ◌≡◌, refl, ap, ◌∙◌, List, [], ◌∷◌, ◌++◌, arith, Bytes, length, slice,
  be_value, be_bytes, length-be_bytes, be_value-be_bytes, concat, Fits, offset, field, slice-concat,
  slice_past, slice-append, ◌≤◌, byte_at, byte_at-concat,
}

-- `put w n` is what `BufMut::put_u8`, `put_u16`, `put_u32` and `put_u64` append for `w` of 1, 2, 4
-- and 8, and `get` reads such a slice by `Buf::get_u16`, `get_u32` and `get_u64`.
pub record Wire : Type 0 where
  pub put : ℕ → ℕ → Bytes
  pub get : Bytes → ℕ
  pub put_big_endian : (w n : ℕ) → n < 256 ^ w → put w n ≡ be_bytes w n
  pub get_big_endian : (bs : Bytes) → get bs ≡ be_value bs

abbrev pub big_endian : Wire
big_endian = record {
  put = be_bytes;
  get = be_value;
  put_big_endian = λ w n h. refl;
  get_big_endian = λ bs. refl;
}

module _ ⦃wire : Wire⦄ where
  abbrev pub put : ℕ → ℕ → Bytes
  put = wire.put

  -- `(&buf[i..j]).get_u16()` and the like.
  pub get_at : Bytes → ℕ → ℕ → ℕ
  get_at buf i j = wire.get (slice buf i j)

  pub length-put : (w n : ℕ) → n < 256 ^ w → length (put w n) ≡ w
  length-put w n h = rw (wire.put_big_endian w n h) (length-be_bytes w n)

  -- A number written in `w` bytes is read back at its offset.
  pub get_at-concat :
      (fs : List Bytes) (ws : List ℕ) (rest : Bytes) (k w n : ℕ)
      → Fits fs ws
      → field fs k ≡ put w n
      → n < 256 ^ w
      → get_at (concat fs ++ rest) (offset ws k) (offset ws (suc k)) ≡ n
  unfolding get_at
  get_at-concat fs ws rest k w n h e lt =
      ap wire.get (slice-concat fs ws rest h k ∙ e ∙ wire.put_big_endian w n lt)
      ∙ wire.get_big_endian (be_bytes w n)
      ∙ be_value-be_bytes w n lt

  put_byte : (n : ℕ) → n < 256 → put 1 n ≡ n ∷ []
  unfolding be_bytes
  put_byte n h =
      wire.put_big_endian 1 n h
      ∙ ap (λ (m : ℕ). m ∷ []) (let d : n / 256 ^ 0 ≡ n = omega arith in d)

  pub byte_at-put :
      (fs : List Bytes) (ws : List ℕ) (rest : Bytes) (k n : ℕ)
      → Fits fs ws
      → offset ws (suc k) ≡ suc (offset ws k)
      → field fs k ≡ put 1 n
      → n < 256
      → byte_at (concat fs ++ rest) (offset ws k) ≡ n
  byte_at-put fs ws rest k n h w e lt = byte_at-concat fs ws rest k n h w (e ∙ put_byte n lt)

  pub get_at-field :
      (fs : List Bytes) (ws : List ℕ) (rest : Bytes) (k w n i j : ℕ)
      → Fits fs ws
      → field fs k ≡ put w n
      → n < 256 ^ w
      → i ≡ offset ws k
      → j ≡ offset ws (suc k)
      → get_at (concat fs ++ rest) i j ≡ n
  get_at-field fs ws rest k w n i j h e lt p q = rw (p, q) (get_at-concat fs ws rest k w n h e lt)

  pub get_at_past :
      (a b : Bytes) (w i j : ℕ) → length a ≡ w → get_at (a ++ b) (w + i) (w + j) ≡ get_at b i j
  unfolding get_at
  get_at_past a b w i j e = ap wire.get (slice_past a b w i j e)

  pub get_at-append :
      (xs ys : Bytes) (i j : ℕ) → i ≤ j → j ≤ length xs → get_at (xs ++ ys) i j ≡ get_at xs i j
  unfolding get_at
  get_at-append xs ys i j h k = ap wire.get (slice-append xs ys i j h k)
