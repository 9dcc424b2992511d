-- ===== src/Protocol/Transport.antt =====
-- crates/pim-protocol/src/frame_type.rs and transport_frame.rs: the envelope of a direct link.
use proximity_internet_mesh.Base.{
  ℕ, ◌+◌, ◌^◌, ◌%◌, ◌≤◌, ◌<◌, ◌≡◌, refl, ◌∙◌, List, [], ◌∷◌, ◌++◌, arith, Bytes, length, take, drop,
  Result, ok, err, ◌>>=◌, ◌>>◌, reject, ltb, nat_eq, if◌then◌else◌, not, concat, byte_at, slice,
  Fits, length-concat, slice-concat, drop_fields, take_field, drop_field,
}
use proximity_internet_mesh.Protocol.Wire.{
  Wire, put, get_at, length-put, get_at-concat, byte_at-put,
}
use proximity_internet_mesh.Core.{PimError}
use proximity_internet_mesh.Core.PimError.{protocol}
use proximity_internet_mesh.Core.Message.{
  unknown_frame_type, too_short_for_header, invalid_magic, unsupported_version, payload_too_large,
  truncated,
}

pub data FrameType : Type 0 where
  handshake data_frame route_update heartbeat control fragment : FrameType

-- The discriminants: `frame_type as u8`.
unfoldable pub to_u8 : FrameType → ℕ
to_u8 handshake = 0x01
to_u8 data_frame = 0x02
to_u8 route_update = 0x03
to_u8 heartbeat = 0x04
to_u8 control = 0x05
to_u8 fragment = 0x06

unfoldable pub from_u8 : ℕ → Result PimError FrameType
from_u8 value =
    if nat_eq value 0x01
    then ok handshake
    else if nat_eq value 0x02
    then ok data_frame
    else if nat_eq value 0x03
    then ok route_update
    else if nat_eq value 0x04
    then ok heartbeat
    else if nat_eq value 0x05
    then ok control
    else if nat_eq value 0x06
    then ok fragment
    else err (protocol (unknown_frame_type value))

abbrev pub magic : ℕ
magic = 0x504D

abbrev pub version : ℕ
version = 1

abbrev pub max_payload_size : ℕ
max_payload_size = 1_048_576

abbrev pub header_size : ℕ
header_size = 20

abbrev pub tag_size : ℕ
tag_size = 16

pub record TransportFrame : Type 0 where
  pub frame_type : FrameType
  pub nonce : Bytes
  pub payload : Bytes
  pub tag : Bytes

pub record IsValid (f : TransportFrame) : Type 0 where
  pub nonce_size : length f.nonce ≡ 12
  pub tag_fits : length f.tag ≡ tag_size
  pub payload_fits : length f.payload ≤ max_payload_size

from_u8-to_u8 : (t : FrameType) → from_u8 (to_u8 t) ≡ ok t
unfolding from_u8 to_u8
from_u8-to_u8 handshake = refl
from_u8-to_u8 t = refl

to_u8-lt : (t : FrameType) → to_u8 t < 256
unfolding to_u8
to_u8-lt handshake = omega arith
to_u8-lt t = omega arith

module _ ⦃wire : Wire⦄ where
  abbrev fields : TransportFrame → List Bytes
  fields f =
      put 2 magic
      ∷ put 1 version
      ∷ put 1 (to_u8 f.frame_type)
      ∷ put 4 (length f.payload % 2 ^ 32)
      ∷ f.nonce
      ∷ f.payload
      ∷ f.tag
      ∷ []

  unfoldable pub encode : TransportFrame → Bytes
  encode f = concat (fields f)

  unfoldable pub decode : Bytes → Result PimError (TransportFrame × Bytes)
  unfolding from_u8
  decode buf = do
    reject (ltb (length buf) header_size) (protocol too_short_for_header)
    let m = get_at buf 0 2
    reject (not (nat_eq m magic)) (protocol (invalid_magic m))
    let v = byte_at buf 2
    reject (not (nat_eq v version)) (protocol (unsupported_version v))
    frame_type ← from_u8 (byte_at buf 3)
    let len = get_at buf 4 8
    reject (ltb max_payload_size len) (protocol (payload_too_large len))
    let total_size = header_size + len + tag_size
    reject (ltb (length buf) total_size) (protocol (truncated total_size (length buf)))
    let nonce = slice buf 8 20
    let behind_header = drop header_size buf
    let payload = take len behind_header
    let behind_payload = drop len behind_header
    let tag = take tag_size behind_payload
    ok (
      record { frame_type = frame_type; nonce = nonce; payload = payload; tag = tag },
      drop tag_size behind_payload,
    )

  abbrev widths : TransportFrame → List ℕ
  widths f = 2 ∷ 1 ∷ 1 ∷ 4 ∷ 12 ∷ length f.payload ∷ 16 ∷ []

  fields-Fits : (f : TransportFrame) → IsValid f → Fits (fields f) (widths f)
  fields-Fits f v = ground (
    arith,
    v,
    length-put 2 magic,
    length-put 1 version,
    length-put 1 (to_u8 f.frame_type),
    to_u8-lt f.frame_type,
    length-put 4 (length f.payload % 2 ^ 32),
  )

  -- What `decode` answers on a buffer whose header it accepts.
  decode_reads :
      (buf : Bytes) (t : FrameType) (n : ℕ)
      → header_size + n + tag_size ≤ length buf
      → n ≤ max_payload_size
      → get_at buf 0 2 ≡ magic
      → byte_at buf 2 ≡ version
      → byte_at buf 3 ≡ to_u8 t
      → get_at buf 4 8 ≡ n
      → decode buf
        ≡ ok (
          record {
            frame_type = t;
            nonce = slice buf 8 20;
            payload = take n (drop header_size buf);
            tag = take tag_size (drop n (drop header_size buf));
          },
          drop tag_size (drop n (drop header_size buf)),
        )
  unfolding decode
  decode_reads buf t n fits small m v ty len = ground (arith, from_u8-to_u8 t)

  -- A valid frame is read back from the front of any buffer that begins with its encoding, and
  -- what follows it stays in the buffer.
  pub transport_decode-encode :
      (f : TransportFrame) (rest : Bytes) → IsValid f → decode (encode f ++ rest) ≡ ok (f, rest)
  unfolding encode
  transport_decode-encode f rest v =
      let fit = fields-Fits f v in
      let ws = widths f in
      let fs = fields f in
      decode_reads (concat fs ++ rest) f.frame_type (length f.payload)
        (omega (arith, length-concat fs ws rest fit)) v.payload_fits
        (get_at-concat fs ws rest 0 2 _ fit refl (omega arith))
        (byte_at-put fs ws rest 1 _ fit refl refl (omega arith))
        (byte_at-put fs ws rest 2 _ fit refl refl (to_u8-lt f.frame_type))
        (get_at-concat fs ws rest 3 4 _ fit refl (omega arith) ∙ omega (arith, v.payload_fits))
      ∙ rw (
        slice-concat fs ws rest fit 4,
        drop_fields fs ws rest fit 5,
        take_field f.payload (f.tag ∷ []) rest refl,
        drop_field f.payload (f.tag ∷ []) rest refl,
        take_field f.tag [] rest v.tag_fits,
        drop_field f.tag [] rest v.tag_fits,
      )
