-- ===== src/Protocol/Utf8.antt =====
-- `std::str::from_utf8`, as far as it decides: the well-formed byte sequences of the Unicode
-- standard (table 3-7), read byte by byte. A Rust `String` is its bytes.
use proximity_internet_mesh.Base.{
  ℕ, ◌-◌, [], ◌∷◌, Bytes, Bool, true, false, ◌&&◌, ltb, leb, nat_eq, if◌then◌else◌,
}

-- Between characters; inside one with `more` continuation bytes to come, of which the next lies
-- between `lo` and `hi`; or past an error.
pub data Scan : Type 0 where
  boundary broken : Scan
  inside : (more lo hi : ℕ) → Scan

within : ℕ → ℕ → ℕ → Bool
within lo hi b = leb lo b && leb b hi

unfoldable pub lead : ℕ → Scan
unfolding within
lead b =
    if ltb b 0x80
    then boundary
    else if within 0xC2 0xDF b
    then inside 1 0x80 0xBF
    else if nat_eq b 0xE0
    then inside 2 0xA0 0xBF
    else if nat_eq b 0xED
    then inside 2 0x80 0x9F
    else if within 0xE1 0xEF b
    then inside 2 0x80 0xBF
    else if nat_eq b 0xF0
    then inside 3 0x90 0xBF
    else if within 0xF1 0xF3 b
    then inside 3 0x80 0xBF
    else if nat_eq b 0xF4
    then inside 3 0x80 0x8F
    else broken

unfoldable pub scan_byte : Scan → ℕ → Scan
unfolding lead within
scan_byte boundary b = lead b
scan_byte broken b = broken
scan_byte (inside more lo hi) b =
    if within lo hi b
    then (if nat_eq more 1 then boundary else inside (more - 1) 0x80 0xBF)
    else broken

unfoldable pub scan : Scan → Bytes → Scan
unfolding scan_byte
scan s [] = s
scan s (b ∷ bs) = scan (scan_byte s b) bs

is_boundary : Scan → Bool
is_boundary boundary = true
is_boundary _ = false

unfoldable pub is_utf8 : Bytes → Bool
unfolding scan is_boundary
is_utf8 bs = is_boundary (scan boundary bs)
