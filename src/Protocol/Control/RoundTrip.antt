-- ===== src/Protocol/Control/RoundTrip.antt =====
-- What arrives when a control message is sent: crates/pim-protocol/src/control_frame.rs.
use proximity_internet_mesh.Base.{
  ℕ, ◌+◌, ◌^◌, ◌≤◌, ◌<◌, ◌≡◌, refl, ap, ◌∙◌, List, [], ◌∷◌, ◌++◌, arith, Bytes, Bool, true, length,
  take, drop, min, ok, err, if◌then◌else◌, concat, byte_at, slice, Fits, total, length-concat,
  slice-concat, drop-concat, slice-field, length-take, ge→ltb,
}
use proximity_internet_mesh.Protocol.Wire.{
  Wire, put, get_at, length-put, get_at-concat, get_at-field, byte_at-put,
}
use proximity_internet_mesh.Protocol.Utf8.{is_utf8}
use proximity_internet_mesh.Core.{IsNodeId}
use proximity_internet_mesh.Core.PimError.{protocol}
use proximity_internet_mesh.Core.Message.{not_utf8}
use proximity_internet_mesh.Protocol.Control.{
  ControlType, goodbye_type, rekey_type, ping_type, pong_type, peer_info_type, plugin_payload_type,
  to_u8, from_u8, ControlFrame, goodbye, rekey, ping, pong, peer_info, plugin_payload, fields,
  encode, decode, decode_as, decode_goodbye, decode_ping, decode_pong, decode_peer_info,
  decode_plugin_payload,
}

-- The message as it is cut to the widths of its length fields.
abbrev pub sent : ControlFrame → ControlFrame
sent (peer_info key name) = peer_info key (take (min (length name) 255) name)
sent (plugin_payload kind body) =
    plugin_payload (take (min (length kind) 255) kind) (take (min (length body) 65535) body)
sent f = f

-- Whether the text in the cut message is still UTF-8.
abbrev pub is_text : ControlFrame → Bool
is_text (peer_info key name) = is_utf8 (take (min (length name) 255) name)
is_text (plugin_payload kind body) = is_utf8 (take (min (length kind) 255) kind)
is_text f = true

-- The ranges of the Rust types.
abbrev pub IsValid : ControlFrame → Type 0
IsValid (goodbye departing_id reason) = IsNodeId departing_id × (reason < 256)
IsValid rekey = Unit {0}
IsValid (ping nonce) = nonce < 2 ^ 64
IsValid (pong nonce) = nonce < 2 ^ 64
IsValid (peer_info key name) = length key ≡ 32
IsValid (plugin_payload kind body) = Unit {0}

from_u8-to_u8 : (t : ControlType) → from_u8 (to_u8 t) ≡ ok t
unfolding from_u8 to_u8
from_u8-to_u8 goodbye_type = refl
from_u8-to_u8 t = refl

to_u8-lt : (t : ControlType) → to_u8 t < 256
unfolding to_u8
to_u8-lt goodbye_type = omega arith
to_u8-lt t = omega arith

length-cut : (n : ℕ) (xs : Bytes) → length (take (min (length xs) n) xs) ≡ min (length xs) n
length-cut n xs = omega (arith, length-take (min (length xs) n) xs)

peer_info_reads :
    (buf name : Bytes) (n : ℕ)
    → 34 + n ≤ length buf
    → byte_at buf 33 ≡ n
    → slice buf 34 (34 + n) ≡ name
    → decode_peer_info buf ≡ (
        if is_utf8 name
        then ok (peer_info (slice buf 1 33) name, drop (34 + n) buf)
        else err (protocol not_utf8))
unfolding decode_peer_info
peer_info_reads buf name n fits e t = ground arith

module _ ⦃wire : Wire⦄ where
  dispatch :
      (t : ControlType) (buf : Bytes)
      → 0 < length buf
      → byte_at buf 0 ≡ to_u8 t
      → decode buf ≡ decode_as t buf
  unfolding decode
  dispatch t buf h e = ground (arith, from_u8-to_u8 t)

  -- The dispatch on a buffer that begins with the tag of `t`.
  dispatch_fields :
      (t : ControlType) (fs : List Bytes) (ws : List ℕ) (rest : Bytes)
      → Fits (put 1 (to_u8 t) ∷ fs) (1 ∷ ws)
      → decode (concat (put 1 (to_u8 t) ∷ fs) ++ rest)
        ≡ decode_as t (concat (put 1 (to_u8 t) ∷ fs) ++ rest)
  dispatch_fields t fs ws rest fit =
      dispatch t _ (omega (arith, length-concat (put 1 (to_u8 t) ∷ fs) (1 ∷ ws) rest fit))
        (byte_at-put (put 1 (to_u8 t) ∷ fs) (1 ∷ ws) rest 0 _ fit refl refl (to_u8-lt t))

  tag-length : (t : ControlType) → length (put 1 (to_u8 t)) ≡ 1
  tag-length t = length-put 1 (to_u8 t) (to_u8-lt t)

  plugin_payload_reads :
      (buf kind : Bytes) (n m : ℕ)
      → 4 + n + m ≤ length buf
      → byte_at buf 1 ≡ n
      → slice buf 2 (2 + n) ≡ kind
      → get_at buf (2 + n) (2 + n + 2) ≡ m
      → decode_plugin_payload buf ≡ (
          if is_utf8 kind
          then ok (
            plugin_payload kind (slice buf (2 + n + 2) (2 + n + 2 + m)),
            drop (2 + n + 2 + m) buf,
          )
          else err (protocol not_utf8))
  unfolding decode_plugin_payload
  plugin_payload_reads buf kind n m fits e t b = ground arith

  goodbye-sent :
      (id rest : Bytes) (reason : ℕ)
      → IsNodeId id
      → reason < 256
      → decode (encode (goodbye id reason) ++ rest) ≡ ok (goodbye id reason, rest)
  unfolding encode decode_as decode_goodbye
  goodbye-sent id rest reason hid hr =
      let fs = fields (goodbye id reason) in
      let ws : List ℕ = 1 ∷ 16 ∷ 1 ∷ [] in
      let fit : Fits fs ws = (tag-length goodbye_type, (hid, (length-put 1 reason hr, tt))) in
      dispatch_fields goodbye_type (id ∷ put 1 reason ∷ []) (16 ∷ 1 ∷ []) rest fit
      ∙ rw (
        ge→ltb (length (concat fs ++ rest)) 18 (omega (arith, length-concat fs ws rest fit)),
        slice-concat fs ws rest fit 1,
        byte_at-put fs ws rest 2 _ fit refl refl hr,
        drop-concat fs ws rest fit,
      )

  rekey-sent : (rest : Bytes) → decode (encode rekey ++ rest) ≡ ok (rekey, rest)
  unfolding encode decode_as
  rekey-sent rest =
      let fit : Fits (fields rekey) (1 ∷ []) = (tag-length rekey_type, tt) in
      dispatch_fields rekey_type [] [] rest fit ∙ rw (drop-concat (fields rekey) (1 ∷ []) rest fit)

  ping-sent :
      (nonce : ℕ) (rest : Bytes)
      → nonce < 2 ^ 64
      → decode (encode (ping nonce) ++ rest) ≡ ok (ping nonce, rest)
  unfolding encode decode_as decode_ping
  ping-sent nonce rest h =
      let fs = fields (ping nonce) in
      let ws : List ℕ = 1 ∷ 8 ∷ [] in
      let fit : Fits fs ws = (tag-length ping_type, (length-put 8 nonce h, tt)) in
      dispatch_fields ping_type (put 8 nonce ∷ []) (8 ∷ []) rest fit
      ∙ rw (
        ge→ltb (length (concat fs ++ rest)) 9 (omega (arith, length-concat fs ws rest fit)),
        get_at-concat fs ws rest 1 8 _ fit refl h,
        drop-concat fs ws rest fit,
      )

  pong-sent :
      (nonce : ℕ) (rest : Bytes)
      → nonce < 2 ^ 64
      → decode (encode (pong nonce) ++ rest) ≡ ok (pong nonce, rest)
  unfolding encode decode_as decode_pong
  pong-sent nonce rest h =
      let fs = fields (pong nonce) in
      let ws : List ℕ = 1 ∷ 8 ∷ [] in
      let fit : Fits fs ws = (tag-length pong_type, (length-put 8 nonce h, tt)) in
      dispatch_fields pong_type (put 8 nonce ∷ []) (8 ∷ []) rest fit
      ∙ rw (
        ge→ltb (length (concat fs ++ rest)) 9 (omega (arith, length-concat fs ws rest fit)),
        get_at-concat fs ws rest 1 8 _ fit refl h,
        drop-concat fs ws rest fit,
      )

  peer_info-sent :
      (key name rest : Bytes)
      → length key ≡ 32
      → let f = peer_info key name in
        decode (encode f ++ rest)
        ≡ (if is_text f then ok (sent f, rest) else err (protocol not_utf8))
  unfolding encode decode_as
  peer_info-sent key name rest h =
      let n = min (length name) 255 in
      let cut = take n name in
      let fs = fields (peer_info key name) in
      let ws : List ℕ = 1 ∷ 32 ∷ 1 ∷ n ∷ [] in
      let fit : Fits fs ws = (
        tag-length peer_info_type,
        (h, (length-put 1 n (omega arith), (length-cut 255 name, tt))),
      ) in
      dispatch_fields peer_info_type (key ∷ put 1 n ∷ cut ∷ []) (32 ∷ 1 ∷ n ∷ []) rest fit
      ∙ peer_info_reads (concat fs ++ rest) cut n (omega (arith, length-concat fs ws rest fit))
          (byte_at-put fs ws rest 2 _ fit refl refl (omega arith))
          (slice-field fs ws rest 3 34 (34 + n) fit refl (omega arith))
      ∙ rw (
        slice-concat fs ws rest fit 1,
        ap (λ (k : ℕ). drop k (concat fs ++ rest)) (let q : 34 + n ≡ total ws = omega arith in q)
            ∙ drop-concat fs ws rest fit,
      )

  plugin_payload-sent :
      (kind body rest : Bytes)
      → let f = plugin_payload kind body in
        decode (encode f ++ rest)
        ≡ (if is_text f then ok (sent f, rest) else err (protocol not_utf8))
  unfolding encode decode_as
  plugin_payload-sent kind body rest =
      let n = min (length kind) 255 in
      let m = min (length body) 65535 in
      let fs = fields (plugin_payload kind body) in
      let ws : List ℕ = 1 ∷ 1 ∷ n ∷ 2 ∷ m ∷ [] in
      let fit : Fits fs ws = (
        tag-length plugin_payload_type,
        (
          length-put 1 n (omega arith),
          (length-cut 255 kind, (length-put 2 m (omega arith), (length-cut 65535 body, tt))),
        ),
      ) in
      dispatch_fields plugin_payload_type (put 1 n ∷ take n kind ∷ put 2 m ∷ take m body ∷ [])
        (1 ∷ n ∷ 2 ∷ m ∷ []) rest fit
      ∙ plugin_payload_reads (concat fs ++ rest) (take n kind) n m
          (omega (arith, length-concat fs ws rest fit))
          (byte_at-put fs ws rest 1 _ fit refl refl (omega arith))
          (slice-field fs ws rest 2 2 (2 + n) fit refl (omega arith))
          (get_at-field fs ws rest 3 2 m (2 + n) (2 + n + 2) fit refl (omega arith) (omega arith)
            (omega arith))
      ∙ rw (
        slice-field fs ws rest 4 (2 + n + 2) (2 + n + 2 + m) fit (omega arith) (omega arith),
        ap (λ (k : ℕ). drop k (concat fs ++ rest))
              (let q : 2 + n + 2 + m ≡ total ws = omega arith in q)
            ∙ drop-concat fs ws rest fit,
      )

  -- A valid control message arrives as it is cut to its length fields, and what follows it stays
  -- in the buffer; but if the cut leaves text that is not UTF-8, it is refused.
  pub control_decode-encode :
      (f : ControlFrame) (rest : Bytes)
      → IsValid f
      → decode (encode f ++ rest)
        ≡ (if is_text f then ok (sent f, rest) else err (protocol not_utf8))
  control_decode-encode (goodbye id reason) rest (hid, hr) = goodbye-sent id rest reason hid hr
  control_decode-encode rekey rest v = rekey-sent rest
  control_decode-encode (ping nonce) rest v = ping-sent nonce rest v
  control_decode-encode (pong nonce) rest v = pong-sent nonce rest v
  control_decode-encode (peer_info key name) rest v = peer_info-sent key name rest v
  control_decode-encode (plugin_payload kind body) rest v = plugin_payload-sent kind body rest
