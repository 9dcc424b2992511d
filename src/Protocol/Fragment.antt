-- ===== src/Protocol/Fragment.antt =====
-- crates/pim-protocol/src/fragment_frame.rs: large packets in pieces.
pub mod RoundTrip
pub mod Cut
use proximity_internet_mesh.Base.{
  ℕ, zero, suc, ◌+◌, ◌-◌, ◌%◌, ◌^◌, ◌≤◌, ◌<◌, ◌≡◌, refl, ap, ◌∙◌, List, [], ◌∷◌, ◌++◌, arith, Bytes,
  Bool, length, take, drop, min, Option, none, some, ltb, nat_eq, if◌then◌else◌, concat, slice,
  be_value, be_bytes, Fits, total, length-concat, slice-concat, drop-concat,
}

abbrev pub max_fragment_payload : ℕ
max_fragment_payload = 1200

abbrev pub fragment_header_size : ℕ
fragment_header_size = 8

pub record FragmentFrame : Type 0 where
  pub fragment_id : ℕ
  pub fragment_offset : ℕ
  pub total_length : ℕ
  pub payload : Bytes

abbrev pub header_fields : FragmentFrame → List Bytes
header_fields f =
    be_bytes 4 f.fragment_id ∷ be_bytes 2 f.fragment_offset ∷ be_bytes 2 f.total_length ∷ []

unfoldable pub serialize : FragmentFrame → Bytes
serialize f = concat (header_fields f) ++ f.payload

-- The end of the payload is a `usize` sum, which cannot overflow for a buffer in memory.
unfoldable pub deserialize : Bytes → Option FragmentFrame
deserialize buf =
    if ltb (length buf) fragment_header_size
    then none
    else (let offset = be_value (slice buf 4 6) in
        let total_length = be_value (slice buf 6 8) in
        let payload = drop 8 buf in
        if ltb total_length (offset + length payload)
        then none
        else some (record {
          fragment_id = be_value (slice buf 0 4);
          fragment_offset = offset;
          total_length = total_length;
          payload = payload;
        }))

unfoldable pub is_last : FragmentFrame → Bool
is_last f = nat_eq (f.fragment_offset + length f.payload) f.total_length

-- The `while` loop of `fragment_packet` from `offset` on. Each round moves `offset` forward, so
-- that a fuel of `data.len()` is never used up.
unfoldable pub fragment_loop : ℕ → Bytes → ℕ → ℕ → List FragmentFrame
fragment_loop zero packet fragment_id offset = []
fragment_loop (suc fuel) packet fragment_id offset =
    let end = min (offset + max_fragment_payload) (length packet) in
    let frame : FragmentFrame = record {
      fragment_id = fragment_id;
      fragment_offset = offset % 2 ^ 16;
      total_length = length packet % 2 ^ 16;
      payload = slice packet offset end;
    } in
    let rest = fragment_loop fuel packet fragment_id end in
    if ltb offset (length packet) then frame ∷ rest else []

-- An empty packet gives no fragment, as the early return has it.
unfoldable pub fragment_packet : Bytes → ℕ → List FragmentFrame
unfolding fragment_loop
fragment_packet packet fragment_id = fragment_loop (length packet) packet fragment_id 0
