-- ===== src/Protocol/Data.antt =====
-- crates/pim-protocol/src/data_frame.rs: the frame that carries IP packets through the mesh.
use proximity_internet_mesh.Base.{
  ℕ, ◌+◌, ◌^◌, ◌%◌, ◌≤◌, ◌<◌, ◌≡◌, refl, ◌∙◌, List, [], ◌∷◌, ◌++◌, arith, Bytes, length, take, drop,
  Result, ok, ◌>>◌, reject, ltb, concat, byte_at, slice, Fits, length-concat, slice-concat,
  drop_fields, take_field, drop_field,
}
use proximity_internet_mesh.Protocol.Wire.{
  Wire, put, get_at, length-put, get_at-concat, byte_at-put,
}
use proximity_internet_mesh.Core.{NodeId, IsNodeId, PimError}
use proximity_internet_mesh.Core.PimError.{protocol}
use proximity_internet_mesh.Core.Message.{too_short, truncated}

-- The flag set that the `bitflags!` macro generates: `flags` is its `bits()`, and
-- `from_bits_truncate` drops the bits that name no flag, of which bit 7 is the only one.
pub record DataFlags : Type 0 where
  pub from_bits_truncate : ℕ → ℕ
  pub truncate_known : (bits : ℕ) → bits < 2 ^ 7 → from_bits_truncate bits ≡ bits

abbrev pub header_size : ℕ
header_size = 40

pub record MeshDataFrame : Type 0 where
  pub src_id : NodeId
  pub dst_id : NodeId
  pub session_id : ℕ
  pub ttl : ℕ
  pub flags : ℕ
  pub payload : Bytes

pub record IsValid (f : MeshDataFrame) : Type 0 where
  pub src_size : IsNodeId f.src_id
  pub dst_size : IsNodeId f.dst_id
  pub session_u32 : f.session_id < 2 ^ 32
  pub ttl_u8 : f.ttl < 256
  pub flags_known : f.flags < 2 ^ 7
  pub payload_u16 : length f.payload < 2 ^ 16

module _ ⦃wire : Wire⦄ where
  abbrev fields : MeshDataFrame → List Bytes
  fields f =
      f.src_id
      ∷ f.dst_id
      ∷ put 4 f.session_id
      ∷ put 1 f.ttl
      ∷ put 1 f.flags
      ∷ put 2 (length f.payload % 2 ^ 16)
      ∷ f.payload
      ∷ []

  unfoldable pub encode : MeshDataFrame → Bytes
  encode f = concat (fields f)

  abbrev widths : MeshDataFrame → List ℕ
  widths f = 16 ∷ 16 ∷ 4 ∷ 1 ∷ 1 ∷ 2 ∷ length f.payload ∷ []

  fields-Fits : (f : MeshDataFrame) → IsValid f → Fits (fields f) (widths f)
  fields-Fits f v = ground (
    arith,
    v,
    length-put 4 f.session_id,
    length-put 1 f.ttl,
    length-put 1 f.flags,
    length-put 2 (length f.payload % 2 ^ 16),
  )

module _ ⦃wire : Wire⦄ (data_flags : DataFlags) where
  unfoldable pub decode : Bytes → Result PimError (MeshDataFrame × Bytes)
  decode buf = do
    reject (ltb (length buf) header_size) (protocol (too_short header_size (length buf)))
    let src_id = slice buf 0 16
    let dst_id = slice buf 16 32
    let session_id = get_at buf 32 36
    let ttl = byte_at buf 36
    let flags = data_flags.from_bits_truncate (byte_at buf 37)
    let payload_len = get_at buf 38 40
    let total_size = header_size + payload_len
    reject (ltb (length buf) total_size) (protocol (truncated total_size (length buf)))
    let behind_header = drop header_size buf
    ok (
      record {
        src_id = src_id;
        dst_id = dst_id;
        session_id = session_id;
        ttl = ttl;
        flags = flags;
        payload = take payload_len behind_header;
      },
      drop payload_len behind_header,
    )

  decode_reads :
      (buf : Bytes) (n : ℕ)
      → header_size + n ≤ length buf
      → get_at buf 38 40 ≡ n
      → decode buf
        ≡ ok (
          record {
            src_id = slice buf 0 16;
            dst_id = slice buf 16 32;
            session_id = get_at buf 32 36;
            ttl = byte_at buf 36;
            flags = data_flags.from_bits_truncate (byte_at buf 37);
            payload = take n (drop header_size buf);
          },
          drop n (drop header_size buf),
        )
  unfolding decode
  decode_reads buf n fits len = ground arith

  -- A valid frame is read back from the front of any buffer that begins with its encoding, and
  -- what follows it stays in the buffer.
  pub data_decode-encode :
      (f : MeshDataFrame) (rest : Bytes) → IsValid f → decode (encode f ++ rest) ≡ ok (f, rest)
  unfolding encode
  data_decode-encode f rest v =
      let fit = fields-Fits f v in
      let ws = widths f in
      let fs = fields f in
      decode_reads (concat fs ++ rest) (length f.payload)
        (omega (arith, length-concat fs ws rest fit))
        (get_at-concat fs ws rest 5 2 _ fit refl (omega arith) ∙ omega (arith, v.payload_u16))
      ∙ rw (
        slice-concat fs ws rest fit 0,
        slice-concat fs ws rest fit 1,
        get_at-concat fs ws rest 2 4 _ fit refl v.session_u32,
        byte_at-put fs ws rest 3 _ fit refl refl v.ttl_u8,
        byte_at-put fs ws rest 4 _ fit refl refl (omega (arith, v.flags_known)),
        data_flags.truncate_known f.flags v.flags_known,
        drop_fields fs ws rest fit 6,
        take_field f.payload [] rest refl,
        drop_field f.payload [] rest refl,
      )
