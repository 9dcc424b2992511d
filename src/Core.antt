-- ===== src/Core.antt =====
-- crates/pim-core/src: node identifiers (types.rs), the shared error (error.rs) and the trait of
-- the wire codecs (types.rs). A message of an error is the constructor of `Message` for its
-- format string, with the numbers that are printed into it.
pub mod Hex
pub mod MeshAddress
use proximity_internet_mesh.Base.{ℕ, List, ◌++◌, ◌≡◌, Bytes, length, Result, ok, err}

-- `NodeId([u8; 16])`.
abbrev pub NodeId : Type 0
NodeId = Bytes

abbrev pub IsNodeId : NodeId → Type 0
IsNodeId id = length id ≡ 16

pub data Message : Type 0 where
  unknown_frame_type unknown_control_type unknown_handshake_type : ℕ → Message
  invalid_magic unsupported_version payload_too_large frame_too_large : ℕ → Message
  too_many_entries : ℕ → Message
  too_short_for_header is_empty goodbye_too_short ping_too_short pong_too_short : Message
  peer_info_too_short plugin_payload_too_short not_utf8 : Message
  too_short truncated : ℕ → ℕ → Message

pub data PimError : Type 0 where
  crypto protocol transport routing tun gateway config io : Message → PimError

-- `FrameCodec`. `encode` gives the bytes that the method appends to the buffer. `decode` returns
-- the frame with what it leaves in the buffer; the source touches the buffer on success only.
pub record FrameCodec (F : Type 0) : Type 1 where
  pub encode : F → Bytes
  pub decode : Bytes → Result PimError (F × Bytes)
  pub IsValid : F → Type 0
  pub decode-encode : (f : F) (rest : Bytes) → IsValid f → decode (encode f ++ rest) ≡ ok (f, rest)
