-- ===== src/Core/Hex.antt =====
-- The hexadecimal texts of identifiers: `NodeId` in crates/pim-core/src/types.rs, and the same in
-- crates/pim-messaging/src/lib.rs and service.rs and in crates/pim-daemon/src/peer_directory.rs.
use proximity_internet_mesh.Base.{
  ℕ, ◌+◌, ◌-◌, ◌*◌, ◌/◌, ◌%◌, ◌<◌, ◌≡◌, refl, arith, true, false, ◌&&◌, not, Option, none, some, [],
  ◌∷◌, Bytes, IsByte, All, length, ltb, leb, nat_eq, if◌then◌else◌,
}

hex_digit : ℕ → ℕ
hex_digit n = if ltb n 10 then 48 + n else 87 + n

-- `format!("{b:02x}")` of each byte: `hex_node_id`, `hex16` and `hex32`.
unfoldable pub hex : Bytes → Bytes
unfolding hex_digit
hex [] = []
hex (b ∷ bs) = hex_digit (b / 16) ∷ hex_digit (b % 16) ∷ hex bs

-- `char::to_digit(16)`.
to_digit : ℕ → Option ℕ
to_digit c =
    if leb 48 c && leb c 57
    then some (c - 48)
    else if leb 97 c && leb c 102
    then some (c - 87)
    else if leb 65 c && leb c 70
    then some (c - 55)
    else none

-- `u8::from_str_radix(pair, 16)`, which allows a sign before the digits.
from_str_radix : ℕ → ℕ → Option ℕ
unfolding to_digit
from_str_radix a b = if nat_eq a 43 then to_digit b else elim (to_digit a) [
  | none ↦ none
  | some x ↦ elim (to_digit b) [ none ↦ none | some y ↦ some (16 * x + y) ]
]

parse_pairs : Bytes → Option Bytes
unfolding from_str_radix
parse_pairs [] = some []
parse_pairs (a ∷ []) = none
parse_pairs (a ∷ b ∷ rest) = elim (from_str_radix a b) [
  | none ↦ none
  | some x ↦ elim (parse_pairs rest) [ none ↦ none | some xs ↦ some (x ∷ xs) ]
]

-- The panic where a pair cuts a character in two is not modelled: the texts come from `hex`.
unfoldable pub parse_node_id : Bytes → Option Bytes
unfolding parse_pairs
parse_node_id text = if not (nat_eq (length text) 32) then none else parse_pairs text

-- `NodeId::to_hex` and `NodeId::from_str`, whose errors are `none`.
unfoldable pub to_hex : Bytes → Bytes
unfolding hex
to_hex id = hex id

unfoldable pub from_str : Bytes → Option Bytes
unfolding parse_node_id
from_str text = parse_node_id text

to_digit-hex_digit : (n : ℕ) → n < 16 → to_digit (hex_digit n) ≡ some n
unfolding to_digit hex_digit
to_digit-hex_digit n h = ground arith

from_str_radix-hex_digit :
    (b : ℕ) → IsByte b → from_str_radix (hex_digit (b / 16)) (hex_digit (b % 16)) ≡ some b
unfolding from_str_radix
from_str_radix-hex_digit b h =
    let high = to_digit-hex_digit (b / 16) (omega arith) in
    let low = to_digit-hex_digit (b % 16) (omega arith) in
    let unsigned : nat_eq (hex_digit (b / 16)) 43 ≡ false = unfold hex_digit in ground arith in
    let whole : 16 * (b / 16) + b % 16 ≡ b = omega arith in rw (unsigned, high, low, whole) refl

parse_pairs-cons :
    (a b x : ℕ) (rest xs : Bytes)
    → from_str_radix a b ≡ some x
    → parse_pairs rest ≡ some xs
    → parse_pairs (a ∷ b ∷ rest) ≡ some (x ∷ xs)
unfolding parse_pairs
parse_pairs-cons a b x rest xs p q = rw (parse_pairs, p, q) refl

parse_pairs-hex : (bs : Bytes) → All IsByte bs → parse_pairs (hex bs) ≡ some bs
unfolding hex
parse_pairs-hex [] h = unfold parse_pairs in refl
parse_pairs-hex (b ∷ bs) (byte, h) =
    parse_pairs-cons (hex_digit (b / 16)) (hex_digit (b % 16)) b (hex bs) bs
      (from_str_radix-hex_digit b byte) (parse_pairs-hex bs h)

length-hex : (bs : Bytes) → length (hex bs) ≡ 2 * length bs
unfolding hex
length-hex [] = refl
length-hex (b ∷ bs) = omega (arith, length-hex bs)

-- An identifier is read back from its text.
pub parse_node_id-hex :
    (id : Bytes) → length id ≡ 16 → All IsByte id → parse_node_id (hex id) ≡ some id
unfolding parse_node_id
parse_node_id-hex id e h =
    let long : nat_eq (length (hex id)) 32 ≡ true = ground (arith, length-hex id) in
    rw (long, parse_pairs-hex id h) refl
