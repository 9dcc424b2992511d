-- ===== src/Messaging/Wire.antt =====
-- crates/pim-messaging/src/wire.rs: the bodies of the plugin's payloads.
use proximity_internet_mesh.Base.{
  ℕ, ◌^◌, ◌<◌, ◌≡◌, refl, arith, Bytes, Result, ok, ◌>>◌, reject, List, [], ◌∷◌, ◌++◌, length,
  slice, drop, byte_at, be_value, be_bytes, ltb, false, Fits, concat, length-concat, slice-field,
  drop-concat, append-nil, append_assoc, be_value-be_bytes, length-be_bytes, byte_at_past,
}

-- "messaging.msg" and "messaging.ack"
abbrev pub kind_message : Bytes
kind_message = 109 ∷ 101 ∷ 115 ∷ 115 ∷ 97 ∷ 103 ∷ 105 ∷ 110 ∷ 103 ∷ 46 ∷ 109 ∷ 115 ∷ 103 ∷ []

abbrev pub kind_ack : Bytes
kind_ack = 109 ∷ 101 ∷ 115 ∷ 115 ∷ 97 ∷ 103 ∷ 105 ∷ 110 ∷ 103 ∷ 46 ∷ 97 ∷ 99 ∷ 107 ∷ []

pub record DecodedMessage : Type 0 where
  pub message_id : Bytes
  pub timestamp_ms : ℕ
  pub ciphertext : Bytes

pub record DecodedAck : Type 0 where
  pub message_id : Bytes
  pub ack_kind : ℕ

pub data WireError : Type 0 where
  too_short : ℕ → WireError

unfoldable pub encode_message : Bytes → ℕ → Bytes → Bytes
unfolding be_bytes
encode_message message_id timestamp_ms ciphertext =
    message_id ++ (be_bytes 8 timestamp_ms ++ ciphertext)

unfoldable pub decode_message : Bytes → Result WireError DecodedMessage
unfolding slice be_value
decode_message body = do
  reject (ltb (length body) 24) (too_short (length body))
  ok (record {
    message_id = slice body 0 16;
    timestamp_ms = be_value (slice body 16 24);
    ciphertext = drop 24 body;
  })

unfoldable pub encode_ack : Bytes → ℕ → Bytes
encode_ack message_id ack_kind = message_id ++ (ack_kind ∷ [])

unfoldable pub decode_ack : Bytes → Result WireError DecodedAck
unfolding slice byte_at
decode_ack body = do
  reject (ltb (length body) 17) (too_short (length body))
  ok (record { message_id = slice body 0 16; ack_kind = byte_at body 16 })

-- A message is read back, with an identifier of 16 bytes and a time of 64 bits.
pub decode_message-encode_message :
    (message_id ciphertext : Bytes) (timestamp_ms : ℕ)
    → length message_id ≡ 16
    → timestamp_ms < 2 ^ 64
    → decode_message (encode_message message_id timestamp_ms ciphertext)
      ≡ ok
          (record { message_id = message_id; timestamp_ms = timestamp_ms; ciphertext = ciphertext })
unfolding decode_message encode_message
decode_message-encode_message message_id ciphertext timestamp_ms e h =
    let fs : List Bytes = message_id ∷ be_bytes 8 timestamp_ms ∷ [] in
    let ws : List ℕ = 16 ∷ 8 ∷ [] in
    let fits : Fits fs ws = (e, (length-be_bytes 8 timestamp_ms, tt)) in
    let same : concat fs ++ ciphertext ≡ message_id ++ (be_bytes 8 timestamp_ms ++ ciphertext) =
      rw (append-nil, append_assoc) refl in
    let size = length-concat fs ws ciphertext fits in
    let long : ltb (length (concat fs ++ ciphertext)) 24 ≡ false = ground arith in
    rw
      (
        ← same,
        long,
        slice-field fs ws ciphertext 0 0 16 fits (omega arith) (omega arith),
        slice-field fs ws ciphertext 1 16 24 fits (omega arith) (omega arith),
        drop-concat fs ws ciphertext fits,
        be_value-be_bytes 8 timestamp_ms (omega arith),
      )
      refl

-- So is an acknowledgement.
pub decode_ack-encode_ack :
    (message_id : Bytes) (ack_kind : ℕ)
    → length message_id ≡ 16
    → decode_ack (encode_ack message_id ack_kind)
      ≡ ok (record { message_id = message_id; ack_kind = ack_kind })
unfolding decode_ack encode_ack
decode_ack-encode_ack message_id ack_kind e =
    let fs : List Bytes = message_id ∷ [] in
    let rest : Bytes = ack_kind ∷ [] in
    let same : concat fs ++ rest ≡ message_id ++ rest = rw append-nil refl in
    let fits : Fits fs (16 ∷ []) = (e, tt) in
    let size = length-concat fs (16 ∷ []) rest fits in
    let long : ltb (length (concat fs ++ rest)) 17 ≡ false = ground arith in
    let kind : byte_at (concat fs ++ rest) 16 ≡ ack_kind =
      unfold byte_at in byte_at_past (concat fs) rest 16 0 (rw append-nil e) in
    rw (← same, long, slice-field fs (16 ∷ []) rest 0 0 16 fits (omega arith) (omega arith), kind)
      refl
