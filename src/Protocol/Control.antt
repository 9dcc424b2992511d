-- ===== src/Protocol/Control.antt =====
-- crates/pim-protocol/src/control_frame.rs: control messages.
pub mod RoundTrip
use proximity_internet_mesh.Base.{
  ℕ, ◌+◌, ◌*◌, ◌^◌, ◌%◌, ◌≤◌, ◌<◌, ◌≡◌, refl, ap, ◌∙◌, List, [], ◌∷◌, ◌++◌, arith, Bytes, length,
  take, drop, Result, ok, err, ◌>>=◌, ◌>>◌, reject, ltb, nat_eq, if◌then◌else◌, not, concat,
  byte_at, slice, Fits, total, min, length-concat, slice-concat, drop_fields, drop-concat,
  take_field, drop_field,
}
use proximity_internet_mesh.Protocol.Wire.{
  Wire, put, get_at, length-put, get_at-concat, byte_at-put,
}
use proximity_internet_mesh.Core.{NodeId, IsNodeId, PimError, Message}
use proximity_internet_mesh.Core.PimError.{protocol}
use proximity_internet_mesh.Core.Message.{
  unknown_control_type, is_empty, goodbye_too_short, ping_too_short, pong_too_short,
  peer_info_too_short, plugin_payload_too_short, not_utf8, truncated,
}
use proximity_internet_mesh.Protocol.Utf8.{is_utf8}

pub data ControlType : Type 0 where
  goodbye_type rekey_type ping_type pong_type peer_info_type plugin_payload_type : ControlType

unfoldable pub to_u8 : ControlType → ℕ
to_u8 goodbye_type = 0x03
to_u8 rekey_type = 0x04
to_u8 ping_type = 0x05
to_u8 pong_type = 0x06
to_u8 peer_info_type = 0x07
to_u8 plugin_payload_type = 0x08

unfoldable pub from_u8 : ℕ → Result PimError ControlType
from_u8 v =
    if nat_eq v 0x03
    then ok goodbye_type
    else if nat_eq v 0x04
    then ok rekey_type
    else if nat_eq v 0x05
    then ok ping_type
    else if nat_eq v 0x06
    then ok pong_type
    else if nat_eq v 0x07
    then ok peer_info_type
    else if nat_eq v 0x08
    then ok plugin_payload_type
    else err (protocol (unknown_control_type v))

pub data ControlFrame : Type 0 where
  goodbye : (departing_id : NodeId) (reason : ℕ) → ControlFrame
  rekey : ControlFrame
  ping pong : (nonce : ℕ) → ControlFrame
  peer_info : (x25519_pub friendly_name : Bytes) → ControlFrame
  plugin_payload : (kind body : Bytes) → ControlFrame

module _ ⦃wire : Wire⦄ where
  -- The fields that `encode` writes. `min` is the cut of a name, a kind and a body.
  abbrev fields : ControlFrame → List Bytes
  fields (goodbye departing_id reason) =
      put 1 (to_u8 goodbye_type) ∷ departing_id ∷ put 1 reason ∷ []
  fields rekey = put 1 (to_u8 rekey_type) ∷ []
  fields (ping nonce) = put 1 (to_u8 ping_type) ∷ put 8 nonce ∷ []
  fields (pong nonce) = put 1 (to_u8 pong_type) ∷ put 8 nonce ∷ []
  fields (peer_info x25519_pub friendly_name) =
      let name_len = min (length friendly_name) 255 in
      put 1 (to_u8 peer_info_type) ∷ x25519_pub ∷ put 1 name_len ∷ take name_len friendly_name ∷ []
  fields (plugin_payload kind body) =
      let kind_len = min (length kind) 255 in
      let body_len = min (length body) 65535 in
      put 1 (to_u8 plugin_payload_type)
      ∷ put 1 kind_len
      ∷ take kind_len kind
      ∷ put 2 body_len
      ∷ take body_len body
      ∷ []

  unfoldable pub encode : ControlFrame → Bytes
  encode f = concat (fields f)

unfoldable pub decode_goodbye : Bytes → Result PimError (ControlFrame × Bytes)
decode_goodbye buf = do
  reject (ltb (length buf) 18) (protocol goodbye_too_short)
  ok (goodbye (slice buf 1 17) (byte_at buf 17), drop 18 buf)

unfoldable pub decode_peer_info : Bytes → Result PimError (ControlFrame × Bytes)
decode_peer_info buf = do
  reject (ltb (length buf) 34) (protocol peer_info_too_short)
  let name_len = byte_at buf 33
  let total_size = 34 + name_len
  reject (ltb (length buf) total_size) (protocol (truncated total_size (length buf)))
  reject (not (is_utf8 (slice buf 34 total_size))) (protocol not_utf8)
  ok (peer_info (slice buf 1 33) (slice buf 34 total_size), drop total_size buf)

module _ ⦃wire : Wire⦄ where
  unfoldable pub decode_ping : Bytes → Result PimError (ControlFrame × Bytes)
  decode_ping buf = do
    reject (ltb (length buf) 9) (protocol ping_too_short)
    ok (ping (get_at buf 1 9), drop 9 buf)

  unfoldable pub decode_pong : Bytes → Result PimError (ControlFrame × Bytes)
  decode_pong buf = do
    reject (ltb (length buf) 9) (protocol pong_too_short)
    ok (pong (get_at buf 1 9), drop 9 buf)

  unfoldable pub decode_plugin_payload : Bytes → Result PimError (ControlFrame × Bytes)
  decode_plugin_payload buf = do
    reject (ltb (length buf) 4) (protocol plugin_payload_too_short)
    let kind_len = byte_at buf 1
    let body_len_off = 2 + kind_len
    reject (ltb (length buf) (body_len_off + 2))
        (protocol (truncated (body_len_off + 2) (length buf)))
    let kind = slice buf 2 body_len_off
    reject (not (is_utf8 kind)) (protocol not_utf8)
    let body_len = get_at buf body_len_off (body_len_off + 2)
    let total_size = body_len_off + 2 + body_len
    reject (ltb (length buf) total_size) (protocol (truncated total_size (length buf)))
    ok (plugin_payload kind (slice buf (body_len_off + 2) total_size), drop total_size buf)

  -- The `match control_type` of `decode`.
  unfoldable pub decode_as : ControlType → Bytes → Result PimError (ControlFrame × Bytes)
  decode_as goodbye_type buf = decode_goodbye buf
  decode_as rekey_type buf = ok (rekey, drop 1 buf)
  decode_as ping_type buf = decode_ping buf
  decode_as pong_type buf = decode_pong buf
  decode_as peer_info_type buf = decode_peer_info buf
  decode_as plugin_payload_type buf = decode_plugin_payload buf

  unfoldable pub decode : Bytes → Result PimError (ControlFrame × Bytes)
  decode buf = do
    reject (nat_eq (length buf) 0) (protocol is_empty)
    control_type ← from_u8 (byte_at buf 0)
    decode_as control_type buf
