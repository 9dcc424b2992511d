-- ===== src/Protocol/Handshake.antt =====
-- crates/pim-protocol/src/handshake_frame.rs: the messages of the authenticated handshake.
use proximity_internet_mesh.Base.{
  ℕ, ◌≤◌, ◌<◌, ◌≡◌, refl, ◌∙◌, List, [], ◌∷◌, ◌++◌, arith, Bytes, length, drop, Result, ok, err,
  ◌>>=◌, ◌>>◌, reject, ltb, nat_eq, if◌then◌else◌, concat, byte_at, slice, Fits, length-concat,
  slice-concat, drop-concat, ◌⊎◌, inl, inr, ge→ltb,
}
use proximity_internet_mesh.Protocol.Wire.{Wire, put, length-put, byte_at-put}
use proximity_internet_mesh.Core.{PimError}
use proximity_internet_mesh.Core.PimError.{protocol}
use proximity_internet_mesh.Core.Message.{is_empty, unknown_handshake_type, too_short}

pub data HandshakeFrameType : Type 0 where
  init response confirm : HandshakeFrameType

unfoldable pub to_u8 : HandshakeFrameType → ℕ
to_u8 init = 0
to_u8 response = 1
to_u8 confirm = 2

unfoldable pub from_u8 : ℕ → Result PimError HandshakeFrameType
from_u8 v =
    if nat_eq v 0
    then ok init
    else if nat_eq v 1
    then ok response
    else if nat_eq v 2
    then ok confirm
    else err (protocol (unknown_handshake_type v))

abbrev pub init_response_size : ℕ
init_response_size = 161

abbrev pub confirm_size : ℕ
confirm_size = 33

pub record InitOrResponse : Type 0 where
  pub handshake_type : HandshakeFrameType
  pub sender_pub : Bytes
  pub ephemeral_pub : Bytes
  pub nonce : Bytes
  pub signature : Bytes

pub data HandshakeWireFrame : Type 0 where
  init_or_response : InitOrResponse → HandshakeWireFrame
  confirm_frame : Bytes → HandshakeWireFrame

-- The arrays have their sizes, and only the first two types carry keys.
pub record IsInit (m : InitOrResponse) : Type 0 where
  pub not_confirm : (m.handshake_type ≡ init) ⊎ (m.handshake_type ≡ response)
  pub sender_size : length m.sender_pub ≡ 32
  pub ephemeral_size : length m.ephemeral_pub ≡ 32
  pub nonce_size : length m.nonce ≡ 32
  pub signature_size : length m.signature ≡ 64

abbrev pub IsValid : HandshakeWireFrame → Type 0
IsValid (init_or_response m) = IsInit m
IsValid (confirm_frame hmac) = length hmac ≡ 32

module _ ⦃wire : Wire⦄ where
  abbrev fields : HandshakeWireFrame → List Bytes
  fields (init_or_response m) =
      put 1 (to_u8 m.handshake_type) ∷ m.sender_pub ∷ m.ephemeral_pub ∷ m.nonce ∷ m.signature ∷ []
  fields (confirm_frame hmac) = put 1 (to_u8 confirm) ∷ hmac ∷ []

  unfoldable pub encode : HandshakeWireFrame → Bytes
  encode f = concat (fields f)

unfoldable pub decode_init :
    HandshakeFrameType → Bytes → Result PimError (HandshakeWireFrame × Bytes)
decode_init t buf = do
  reject (ltb (length buf) init_response_size)
      (protocol (too_short init_response_size (length buf)))
  ok (
    init_or_response (record {
      handshake_type = t;
      sender_pub = slice buf 1 33;
      ephemeral_pub = slice buf 33 65;
      nonce = slice buf 65 97;
      signature = slice buf 97 161;
    }),
    drop init_response_size buf,
  )

unfoldable pub decode_confirm : Bytes → Result PimError (HandshakeWireFrame × Bytes)
decode_confirm buf = do
  reject (ltb (length buf) confirm_size) (protocol (too_short confirm_size (length buf)))
  ok (confirm_frame (slice buf 1 33), drop confirm_size buf)

-- The `match handshake_type` of `decode`.
unfoldable pub decode_as : HandshakeFrameType → Bytes → Result PimError (HandshakeWireFrame × Bytes)
unfolding decode_init decode_confirm
decode_as init buf = decode_init init buf
decode_as response buf = decode_init response buf
decode_as confirm buf = decode_confirm buf

unfoldable pub decode : Bytes → Result PimError (HandshakeWireFrame × Bytes)
decode buf = do
  reject (nat_eq (length buf) 0) (protocol is_empty)
  handshake_type ← from_u8 (byte_at buf 0)
  decode_as handshake_type buf

from_u8-to_u8 : (t : HandshakeFrameType) → from_u8 (to_u8 t) ≡ ok t
unfolding from_u8 to_u8
from_u8-to_u8 init = refl
from_u8-to_u8 t = refl

dispatch :
    (t : HandshakeFrameType) (buf : Bytes)
    → 0 < length buf
    → byte_at buf 0 ≡ to_u8 t
    → decode buf ≡ decode_as t buf
unfolding decode
dispatch t buf h e = ground (arith, from_u8-to_u8 t)

decode_init_reads :
    (t : HandshakeFrameType) (buf : Bytes)
    → init_response_size ≤ length buf
    → decode_init t buf
      ≡ ok (
        init_or_response (record {
          handshake_type = t;
          sender_pub = slice buf 1 33;
          ephemeral_pub = slice buf 33 65;
          nonce = slice buf 65 97;
          signature = slice buf 97 161;
        }),
        drop init_response_size buf,
      )
unfolding decode_init
decode_init_reads t buf h = rw (ge→ltb _ _ h)

init_reads :
    (t : HandshakeFrameType) (buf : Bytes)
    → (t ≡ init) ⊎ (t ≡ response)
    → init_response_size ≤ length buf
    → byte_at buf 0 ≡ to_u8 t
    → decode buf ≡ decode_init t buf
unfolding decode_as
init_reads init buf c h e = dispatch init buf (omega arith) e
init_reads response buf c h e = dispatch response buf (omega arith) e
init_reads confirm buf c h e = elim c [ inl p ↦ cc | inr p ↦ cc ]

confirm_reads :
    (buf : Bytes)
    → confirm_size ≤ length buf
    → byte_at buf 0 ≡ to_u8 confirm
    → decode buf ≡ ok (confirm_frame (slice buf 1 33), drop confirm_size buf)
unfolding decode_confirm decode_as
confirm_reads buf h e = dispatch confirm buf (omega arith) e ∙ rw (ge→ltb _ _ h)

to_u8-lt : (t : HandshakeFrameType) → to_u8 t < 256
unfolding to_u8
to_u8-lt init = omega arith
to_u8-lt t = omega arith

abbrev init_widths : List ℕ
init_widths = 1 ∷ 32 ∷ 32 ∷ 32 ∷ 64 ∷ []

module _ ⦃wire : Wire⦄ where
  init-Fits : (m : InitOrResponse) → IsInit m → Fits (fields (init_or_response m)) init_widths
  init-Fits m v =
      ground (arith, v, length-put 1 (to_u8 m.handshake_type), to_u8-lt m.handshake_type)

  confirm-Fits :
      (hmac : Bytes) → length hmac ≡ 32 → Fits (fields (confirm_frame hmac)) (1 ∷ 32 ∷ [])
  confirm-Fits hmac v = ground (arith, length-put 1 (to_u8 confirm), to_u8-lt confirm)

  -- A valid handshake message is read back from the front of any buffer that begins with its
  -- encoding.
  pub handshake_decode-encode :
      (f : HandshakeWireFrame) (rest : Bytes) → IsValid f → decode (encode f ++ rest) ≡ ok (f, rest)
  unfolding encode
  handshake_decode-encode (init_or_response m) rest v =
      let fit = init-Fits m v in
      let ws = init_widths in
      let fs = fields (init_or_response m) in
      init_reads m.handshake_type (concat fs ++ rest) v.not_confirm
        (omega (arith, length-concat fs ws rest fit))
        (byte_at-put fs ws rest 0 _ fit refl refl (to_u8-lt m.handshake_type))
      ∙ decode_init_reads m.handshake_type (concat fs ++ rest)
          (omega (arith, length-concat fs ws rest fit))
      ∙ rw (
        slice-concat fs ws rest fit 1,
        slice-concat fs ws rest fit 2,
        slice-concat fs ws rest fit 3,
        slice-concat fs ws rest fit 4,
        drop-concat fs ws rest fit,
      )
  handshake_decode-encode (confirm_frame hmac) rest v =
      let fit = confirm-Fits hmac v in
      let ws : List ℕ = 1 ∷ 32 ∷ [] in
      let fs = fields (confirm_frame hmac) in
      confirm_reads (concat fs ++ rest) (omega (arith, length-concat fs ws rest fit))
        (byte_at-put fs ws rest 0 _ fit refl refl (to_u8-lt confirm))
      ∙ rw (slice-concat fs ws rest fit 1, drop-concat fs ws rest fit)
