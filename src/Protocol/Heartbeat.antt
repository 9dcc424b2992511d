-- ===== src/Protocol/Heartbeat.antt =====
-- crates/pim-protocol/src/heartbeat_frame.rs: the keepalive of a direct link.
use proximity_internet_mesh.Base.{
  ℕ, ◌^◌, ◌≤◌, ◌<◌, ◌≡◌, refl, ◌∙◌, List, [], ◌∷◌, ◌++◌, arith, Bytes, length, drop, Result, ok,
  ◌>>◌, reject, ltb, concat, byte_at, slice, Fits, length-concat, slice-concat, drop-concat,
}
use proximity_internet_mesh.Protocol.Wire.{
  Wire, put, get_at, length-put, get_at-concat, byte_at-put,
}
use proximity_internet_mesh.Core.{NodeId, IsNodeId, PimError}
use proximity_internet_mesh.Core.PimError.{protocol}
use proximity_internet_mesh.Core.Message.{too_short}

abbrev pub size : ℕ
size = 58

pub record HeartbeatFrame : Type 0 where
  pub sender_id : NodeId
  pub timestamp : ℕ
  pub gateway_hops : ℕ
  pub load : ℕ
  pub gw_x25519_pub : Bytes

pub record IsValid (f : HeartbeatFrame) : Type 0 where
  pub sender_size : IsNodeId f.sender_id
  pub timestamp_u64 : f.timestamp < 2 ^ 64
  pub hops_u8 : f.gateway_hops < 256
  pub load_u8 : f.load < 256
  pub key_size : length f.gw_x25519_pub ≡ 32

module _ ⦃wire : Wire⦄ where
  abbrev fields : HeartbeatFrame → List Bytes
  fields f =
      f.sender_id ∷ put 8 f.timestamp ∷ put 1 f.gateway_hops ∷ put 1 f.load ∷ f.gw_x25519_pub ∷ []

  unfoldable pub encode : HeartbeatFrame → Bytes
  encode f = concat (fields f)

  abbrev widths : List ℕ
  widths = 16 ∷ 8 ∷ 1 ∷ 1 ∷ 32 ∷ []

  unfoldable pub decode : Bytes → Result PimError (HeartbeatFrame × Bytes)
  decode buf = do
    reject (ltb (length buf) size) (protocol (too_short size (length buf)))
    ok (
      record {
        sender_id = slice buf 0 16;
        timestamp = get_at buf 16 24;
        gateway_hops = byte_at buf 24;
        load = byte_at buf 25;
        gw_x25519_pub = slice buf 26 58;
      },
      drop size buf,
    )

  fields-Fits : (f : HeartbeatFrame) → IsValid f → Fits (fields f) widths
  fields-Fits f v =
      ground (arith, v, length-put 8 f.timestamp, length-put 1 f.gateway_hops, length-put 1 f.load)

  decode_reads :
      (buf : Bytes)
      → size ≤ length buf
      → decode buf
        ≡ ok (
          record {
            sender_id = slice buf 0 16;
            timestamp = get_at buf 16 24;
            gateway_hops = byte_at buf 24;
            load = byte_at buf 25;
            gw_x25519_pub = slice buf 26 58;
          },
          drop size buf,
        )
  unfolding decode
  decode_reads buf h = ground arith

  -- A valid heartbeat is read back from the front of any buffer that begins with its encoding.
  pub heartbeat_decode-encode :
      (f : HeartbeatFrame) (rest : Bytes) → IsValid f → decode (encode f ++ rest) ≡ ok (f, rest)
  unfolding encode
  heartbeat_decode-encode f rest v =
      let fit = fields-Fits f v in
      let fs = fields f in
      decode_reads (concat fs ++ rest) (omega (arith, length-concat fs widths rest fit))
      ∙ rw (
        slice-concat fs widths rest fit 0,
        get_at-concat fs widths rest 1 8 _ fit refl v.timestamp_u64,
        byte_at-put fs widths rest 2 _ fit refl refl v.hops_u8,
        byte_at-put fs widths rest 3 _ fit refl refl v.load_u8,
        slice-concat fs widths rest fit 4,
        drop-concat fs widths rest fit,
      )
