-- ===== src/Messaging/Delivery.antt =====
-- crates/pim-messaging/src/service.rs and crates/pim-crypto/src/e2e.rs: a message between two nodes,
-- from `send` of the one through `handle_payload` of the other to the acknowledgement.
pub mod Rows
use native.Mathlib.Omega.{arith}
use proximity_internet_mesh.Base.{
  ℕ, ◌^◌, ◌<◌, ◌≤◌, ◌≡◌, refl, ap, ◌∙◌, Bytes, true, false, Option, none, some, Result, ok, List,
  [], ◌∷◌, ◌++◌, length, ltb, ==_refl, bytes_eq,
}
use proximity_internet_mesh.Base.Map.{lookup}
use proximity_internet_mesh.Core.{NodeId}
use proximity_internet_mesh.Crypto.Handshake.{Primitives}
use proximity_internet_mesh.Crypto.Session.{Aead}
use proximity_internet_mesh.Crypto.E2e.{x25519_public_from_seed, derive_e2e_cipher, e2e_decrypt}
use proximity_internet_mesh.Crypto.E2e.RoundTrip.{
  e2e_decrypt-e2e_encrypt, e2e_decrypt_in_place-e2e_decrypt,
}
use proximity_internet_mesh.Protocol.Utf8.{is_utf8}
use proximity_internet_mesh.Protocol.Control
use proximity_internet_mesh.Core.Hex.{hex}
use proximity_internet_mesh.Messaging.Wire.{
  kind_message, kind_ack, encode_message, encode_ack, decode_message-encode_message,
  decode_ack-encode_ack,
}
use proximity_internet_mesh.Messaging.Storage.{
  MessageDirection, MessageStatus, MessageRecord, bump_conversation_after_remote_receive,
  with_status, bump_conversation_after_local_send,
}
use proximity_internet_mesh.Messaging.Storage.Lookup.{
  lookup-insert_message, lookup-set_message_status,
}
use proximity_internet_mesh.Messaging.Service.{
  Ports, MessagingService, SendCall, SendError, send, send_to, record_local_send, sent_record,
  mark_sent, set_status, send_routed, mark_delivered, from_u8,
}
use proximity_internet_mesh.Messaging.Incoming.{
  received_record, store_received, read_message, handle_incoming_message,
  handle_incoming_message_ack, handle_payload,
}
use proximity_internet_mesh.Messaging.Delivery.Rows.{
  arrived, lookup-store_received, frames_of, frames-store_received, frames-mark_sent,
  lookup-set_status_self, lookup-mark_delivered,
}

-- What the two sides and the call meet for a message to go through.
pub record IsDeliverable (c : Primitives) (aead : Aead) (here there : Ports) (call : SendCall)
    (to : NodeId) (body : Bytes) : Type 0 where
  pub short : length body ≤ 8192
  pub text : is_utf8 body ≡ true
  pub id : length call.message_id ≡ 16
  pub time : call.timestamp_ms < 2 ^ 64
  pub nonce : length call.nonce ≡ 12
  pub routed : call.routed ≡ true
  pub known : here.lookup_x25519 to ≡ some (x25519_public_from_seed c there.signing_seed)
  pub sealed :
      (sealed : Bytes) × (tag : Bytes) × (aead.seal_detached
          (derive_e2e_cipher c
            (c.diffie_hellman call.ephemeral_secret (x25519_public_from_seed c there.signing_seed)))
          call.nonce
          body
        ≡ some (sealed, tag))

module _ (c : Primitives) (aead : Aead) where
  -- The ciphertext of a call of `send`.
  read_message-encode_message :
      (seed frame id body : Bytes) (ts : ℕ)
      → length id ≡ 16
      → ts < 2 ^ 64
      → is_utf8 body ≡ true
      → e2e_decrypt c aead seed frame ≡ ok body
      → read_message c aead seed (encode_message id ts frame)
        ≡ some (record { message_id = id; timestamp_ms = ts; ciphertext = frame }, body)
  unfolding read_message
  read_message-encode_message seed frame id body ts i t u d =
      rw
        (
          read_message,
          decode_message-encode_message id frame ts i t,
          e2e_decrypt_in_place-e2e_decrypt c aead seed frame,
          d,
          u,
        )
        refl

  -- A deliverable call ends with the message in the table as sent, and one frame more, whose body
  -- the other side can read.
  send-sent :
      (here there : Ports) (call : SendCall) (to : NodeId) (body : Bytes) (s : MessagingService)
      → IsDeliverable c aead here there call to body
      → (frame : Bytes) × (e2e_decrypt c aead there.signing_seed frame ≡ ok body)
        × (send c aead here call to body s ≡ (
          ok (sent_record to call.message_id body call.timestamp_ms),
          mark_sent to call.message_id call.later_ms (
              send_routed to
                (Control.plugin_payload kind_message
                  (encode_message call.message_id call.timestamp_ms frame))
                (record_local_send to call.message_id body call.timestamp_ms s).1),
        ))
  unfolding send send_to record_local_send
  send-sent here there call to body s h =
      let (sealed, tag, done) = h.sealed in
      let (frame, made, back) =
        e2e_decrypt-e2e_encrypt c aead call.ephemeral_secret call.nonce body there.signing_seed
          sealed tag h.nonce done in
      let short : ltb 8192 (length body) ≡ false = let p = h.short in ground arith in
      (frame, back, rw (send, short, h.known, send_to, made, h.routed) refl)

  lookup-record_local_send :
      (to : NodeId) (id body : Bytes) (ts : ℕ) (s : MessagingService)
      → lookup (hex id) (record_local_send to id body ts s).1.storage.messages
        ≡ some (sent_record to id body ts)
  unfolding record_local_send bump_conversation_after_local_send sent_record
  lookup-record_local_send to id body ts s =
      lookup-insert_message (sent_record to id body ts) (hex id) s.storage
      ∙ rw (==_refl (hex id)) refl

  handle_payload-message :
      (ports : Ports) (now : ℕ) (src : NodeId) (frame id body : Bytes) (ts : ℕ)
      (t : MessagingService)
      → length id ≡ 16
      → ts < 2 ^ 64
      → is_utf8 body ≡ true
      → e2e_decrypt c aead ports.signing_seed frame ≡ ok body
      → handle_payload c aead ports now src kind_message (encode_message id ts frame) t
        ≡ store_received ports now src
            (record { message_id = id; timestamp_ms = ts; ciphertext = frame })
            body
            t
  unfolding handle_payload handle_incoming_message
  handle_payload-message ports now src frame id body ts t i time u back =
      rw
        (
          handle_incoming_message,
          read_message-encode_message ports.signing_seed frame id body ts i time u back,
        )
        refl

  handle_payload-delivered :
      (ports : Ports) (now : ℕ) (src : NodeId) (id : Bytes) (t : MessagingService)
      → length id ≡ 16
      → handle_payload c aead ports now src kind_ack (encode_ack id 1) t
        ≡ mark_delivered src id now t
  unfolding handle_payload handle_incoming_message_ack from_u8
  handle_payload-delivered ports now src id t i =
      rw (handle_incoming_message_ack, decode_ack-encode_ack id 1 i) refl

  -- A text of at most 8192 bytes that is sent to a node whose key is known, over a transport that
  -- takes the frame, arrives: `send` hands one frame to the transport; the recipient stores the
  -- text, its time and its sender under the same identifier and answers with one frame; and with
  -- that answer the sender has the message as delivered.
  pub handle_payload-send :
      (here there : Ports) (call : SendCall) (from to : NodeId) (body : Bytes) (now later : ℕ)
      (s t : MessagingService)
      → IsDeliverable c aead here there call to body
      → (message : Bytes) × (ack : Bytes) × (let s' = (send c aead here call to body s).1 in
          let t' = handle_payload c aead there now from kind_message message t in
          let s'' = handle_payload c aead here later to kind_ack ack s' in
          (s'.frames ≡ s.frames ++ ((to, Control.plugin_payload kind_message message) ∷ []))
          × (lookup (hex call.message_id) t'.storage.messages
              ≡ some (arrived from call.message_id body call.timestamp_ms now))
          × (t'.frames ≡ t.frames ++ ((from, Control.plugin_payload kind_ack ack) ∷ []))
          × (lookup (hex call.message_id) s''.storage.messages
              ≡ some (
                  with_status MessageStatus.delivered (some later) none (
                    with_status MessageStatus.sent none none
                      (sent_record to call.message_id body call.timestamp_ms)))))
  unfolding mark_sent
  handle_payload-send here there call from to body now later s t h =
      let (frame, back, out) = send-sent here there call to body s h in
      let id = call.message_id in
      let ts = call.timestamp_ms in
      let message = encode_message id ts frame in
      let ack = encode_ack id 1 in
      let arrival =
        handle_payload-message there now from frame id body ts t h.id h.time h.text back in
      let receipt =
        handle_payload-delivered here later to id (send c aead here call to body s).1 h.id in
      let sent = record_local_send to id body ts s in
      let routed : MessagingService =
        send_routed to (Control.plugin_payload kind_message message) sent.1 in
      let kept =
        lookup-set_status_self to id MessageStatus.sent none none call.later_ms
          (sent_record to id body ts) routed (lookup-record_local_send to id body ts s) in
      let state : (send c aead here call to body s).1 ≡ mark_sent to id call.later_ms routed =
        ap (λ (p : Result SendError MessageRecord × MessagingService). p.1) out in
      (
        message,
        ack,
        (
          ap frames_of state ∙ frames-mark_sent to id body ts call.later_ms message s,
          ap (λ (u : MessagingService). lookup (hex id) u.storage.messages) arrival
              ∙ lookup-store_received there now from frame id body ts t,
          ap frames_of arrival ∙ frames-store_received there now from frame id body ts t,
          ap (λ (u : MessagingService). lookup (hex id) u.storage.messages) receipt
              ∙ lookup-mark_delivered to id later _ (send c aead here call to body s).1
                  (ap (λ (u : MessagingService). lookup (hex id) u.storage.messages) state ∙ kept),
        ),
      )
