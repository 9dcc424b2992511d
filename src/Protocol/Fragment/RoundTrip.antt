-- ===== src/Protocol/Fragment/RoundTrip.antt =====
-- A fragment on the wire: crates/pim-protocol/src/fragment_frame.rs.
use proximity_internet_mesh.Base.{
  ℕ, ◌+◌, ◌^◌, ◌≤◌, ◌<◌, ◌≡◌, List, [], ◌∷◌, ◌++◌, arith, length, some, concat, Fits, length-concat,
  slice-concat, drop-concat, length-be_bytes, be_value-be_bytes, ge→ltb,
}
use proximity_internet_mesh.Protocol.Fragment.{FragmentFrame, header_fields, serialize, deserialize}

pub record IsValid (f : FragmentFrame) : Type 0 where
  pub id_u32 : f.fragment_id < 2 ^ 32
  pub offset_u16 : f.fragment_offset < 2 ^ 16
  pub total_u16 : f.total_length < 2 ^ 16
  pub within : f.fragment_offset + length f.payload ≤ f.total_length

abbrev widths : List ℕ
widths = 4 ∷ 2 ∷ 2 ∷ []

header-Fits : (f : FragmentFrame) → Fits (header_fields f) widths
header-Fits f = (length-be_bytes 4 _, (length-be_bytes 2 _, (length-be_bytes 2 _, tt)))

-- A fragment that lies within its packet, of an identifier of 32 bits, an offset and a length of 16,
-- survives the wire.
pub deserialize-serialize : (f : FragmentFrame) → IsValid f → deserialize (serialize f) ≡ some f
unfolding deserialize serialize
deserialize-serialize f v =
    let fs = header_fields f in
    let fit = header-Fits f in
    let at = slice-concat fs widths f.payload fit in
    rw (
      ge→ltb (length (concat fs ++ f.payload)) 8
          (omega (arith, length-concat fs widths f.payload fit)),
      at 0,
      at 1,
      at 2,
      drop-concat fs widths f.payload fit,
      be_value-be_bytes 4 f.fragment_id v.id_u32,
      be_value-be_bytes 2 f.fragment_offset v.offset_u16,
      be_value-be_bytes 2 f.total_length v.total_u16,
      ge→ltb f.total_length (f.fragment_offset + length f.payload) v.within,
    )
