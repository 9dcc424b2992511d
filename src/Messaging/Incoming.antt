-- ===== src/Messaging/Incoming.antt =====
-- crates/pim-messaging/src/service.rs and plugin.rs: what arrives from peers, and the removal of
-- histories.
use proximity_internet_mesh.Base.{
  ℕ, Bytes, Bool, ◌||◌, Option, none, some, ok, err, [], ltb, ◌==◌, bytes_eq, if◌then◌else◌,
}
use proximity_internet_mesh.Core.{NodeId}
use proximity_internet_mesh.Crypto.Handshake.{Primitives}
use proximity_internet_mesh.Crypto.Session.{Aead}
use proximity_internet_mesh.Crypto.E2e.{e2e_decrypt_in_place}
use proximity_internet_mesh.Protocol.Utf8.{is_utf8}
use proximity_internet_mesh.Protocol.Control
use proximity_internet_mesh.Core.Hex.{hex}
use proximity_internet_mesh.Messaging.Wire.{
  DecodedMessage, kind_message, kind_ack, decode_message, encode_ack, decode_ack,
}
use proximity_internet_mesh.Messaging.Storage.{
  MessageDirection, MessageStatus, MessageRecord, ConversationBump, MessagingStorage,
  insert_message, bump_conversation_after_remote_receive, short_id,
}
use proximity_internet_mesh.Messaging.Storage
use proximity_internet_mesh.Messaging.Service.{
  Ports, ConversationSummary, HistoryScope, message_received, history_cleared, MessagingService,
  AckKind, from_u8, ack_byte, emit, send_routed, mark_delivered, mark_read,
}

unfoldable pub received_record : NodeId → DecodedMessage → Bytes → ℕ → MessageRecord
unfolding hex
received_record src decoded plaintext received_at = record {
  id = hex decoded.message_id;
  peer_node_id = hex src;
  direction = MessageDirection.received;
  body = plaintext;
  timestamp_ms = decoded.timestamp_ms;
  status = MessageStatus.delivered;
  failure_reason = none;
  delivered_at_ms = some received_at;
  read_at_ms = none;
}

-- `cached_name.filter(|n| !n.is_empty()).unwrap_or_else(|| short.clone())`
abbrev pub name_or : Bytes → Option Bytes → Bytes
name_or short none = short
name_or short (some n) = if n == [] then short else n

abbrev pub hex_key : Option Bytes → Option Bytes
hex_key none = none
hex_key (some k) = some (hex k)

unfoldable pub summary : Ports → NodeId → ConversationBump → ℕ → ConversationSummary
unfolding hex short_id
summary ports src bump timestamp_ms = record {
  peer_node_id = hex src;
  peer_node_id_short = short_id (hex src);
  name = name_or (short_id (hex src)) (ports.lookup_name src);
  last_message_preview = some bump.preview;
  last_message_ts_ms = some timestamp_ms;
  unread_count = bump.unread_count;
  x25519_pubkey = hex_key (ports.lookup_x25519 src);
}

-- A decrypted text is stored, announced and acknowledged.
unfoldable pub store_received :
    Ports → ℕ → NodeId → DecodedMessage → Bytes → MessagingService → MessagingService
unfolding received_record summary insert_message bump_conversation_after_remote_receive encode_ack
    hex
store_received ports now src decoded plaintext s =
    let m = received_record src decoded plaintext now in
    let (bump, storage) =
      bump_conversation_after_remote_receive (hex src) (hex decoded.message_id) decoded.timestamp_ms
        plaintext (insert_message m s.storage) in
    send_routed src
      (Control.plugin_payload kind_ack (encode_ack decoded.message_id (ack_byte AckKind.delivered)))
      (emit (message_received m (summary ports src bump decoded.timestamp_ms))
        (record s { storage = storage }))

module _ (c : Primitives) (aead : Aead) where
  -- The text of a payload, if it can be read.
  unfoldable pub read_message : Bytes → Bytes → Option (DecodedMessage × Bytes)
  unfolding decode_message e2e_decrypt_in_place is_utf8
  read_message seed body = elim (decode_message body) [
    | err e ↦ none
    | ok decoded ↦ elim (e2e_decrypt_in_place c aead seed decoded.ciphertext) [
      | err e ↦ none
      | ok plaintext ↦ if is_utf8 plaintext then some (decoded, plaintext) else none
    ]
  ]

  unfoldable pub handle_incoming_message :
      Ports → ℕ → NodeId → Bytes → MessagingService → MessagingService
  unfolding read_message store_received
  handle_incoming_message ports now src body s = elim (read_message ports.signing_seed body) [
    | none ↦ s
    | some (decoded, plaintext) ↦ store_received ports now src decoded plaintext s
  ]

  abbrev pub apply_ack : ℕ → NodeId → Bytes → Option AckKind → MessagingService → MessagingService
  apply_ack now src message_id none s = s
  apply_ack now src message_id (some AckKind.delivered) s = mark_delivered src message_id now s
  apply_ack now src message_id (some AckKind.read) s = mark_read src message_id now s

  unfoldable pub handle_incoming_message_ack :
      ℕ → NodeId → Bytes → MessagingService → MessagingService
  unfolding decode_ack from_u8 mark_delivered mark_read
  handle_incoming_message_ack now src body s = elim (decode_ack body) [
    | err e ↦ s
    | ok decoded ↦ apply_ack now src decoded.message_id (from_u8 decoded.ack_kind) s
  ]

  -- `handle_payload` of plugin.rs.
  unfoldable pub handle_payload :
      Ports → ℕ → NodeId → Bytes → Bytes → MessagingService → MessagingService
  unfolding handle_incoming_message handle_incoming_message_ack
  handle_payload ports now src kind body s =
      if kind == kind_message
      then handle_incoming_message ports now src body s
      else if kind == kind_ack
      then handle_incoming_message_ack now src body s
      else s

unfoldable pub delete_conversation : NodeId → MessagingService → (ℕ × Bool) × MessagingService
unfolding Storage.delete_conversation hex
delete_conversation peer s =
    let (outcome, storage) = Storage.delete_conversation (hex peer) s.storage in
    (
      outcome,
      emit (history_cleared (some (hex peer)) HistoryScope.peer outcome.0)
          (record s { storage = storage }),
    )

unfoldable pub delete_all_messages : MessagingService → (ℕ × ℕ) × MessagingService
unfolding Storage.delete_all_messages
delete_all_messages s =
    let (outcome, storage) = Storage.delete_all_messages s.storage in
    (
      outcome,
      emit (history_cleared none HistoryScope.all outcome.0) (record s { storage = storage }),
    )

unfoldable pub on_peer_forgotten : NodeId → MessagingService → MessagingService
unfolding Storage.delete_conversation hex
on_peer_forgotten peer s =
    let (outcome, storage) = Storage.delete_conversation (hex peer) s.storage in
    let t : MessagingService = record s { storage = storage } in
    if ltb 0 outcome.0 || outcome.1
    then emit (history_cleared (some (hex peer)) HistoryScope.peer outcome.0) t
    else t
