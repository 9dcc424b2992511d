-- ===== src/Messaging/Steps/Changes.antt =====
-- crates/pim-messaging: what each call writes, as changes of the two tables.
use proximity_internet_mesh.Base.{
  ℕ, ◌≡◌, refl, ap, ◌∙◌, inl, inr, Bytes, Bool, true, false, ◌||◌, Bool-cases, Option, none, some,
  Option-cases, Result, ok, err, Result-cases, List, [], ◌∷◌, length, ltb, ◌==◌, bytes_eq,
  if◌then◌else◌,
}
use proximity_internet_mesh.Core.{NodeId}
use proximity_internet_mesh.Crypto.Handshake.{Primitives}
use proximity_internet_mesh.Crypto.Session.{Aead}
use proximity_internet_mesh.Crypto.E2e.{e2e_encrypt}
use proximity_internet_mesh.Core.Hex.{hex}
use proximity_internet_mesh.Messaging.Wire.{
  WireError, DecodedMessage, DecodedAck, decode_ack, kind_message, kind_ack,
}
use proximity_internet_mesh.Messaging.Storage.{
  MessageStatus, MessageRecord, MessagingStorage, insert_message, upsert_row, set_message_status,
  set_message_failed, mark_read_up_to, bump_conversation_after_local_send,
  bump_conversation_after_remote_receive,
}
use proximity_internet_mesh.Messaging.Storage
use proximity_internet_mesh.Messaging.Service.{
  Ports, MessagingService, SendCall, AckKind, from_u8, sent_record, max_body_bytes, no_route,
  settle, mark_sent, mark_failed, mark_delivered, mark_read, set_status, record_local_send, send_to,
  send,
}
use proximity_internet_mesh.Messaging.Incoming.{
  received_record, store_received, read_message, handle_incoming_message, apply_ack,
  handle_incoming_message_ack, handle_payload, on_peer_forgotten, delete_conversation,
  delete_all_messages,
}
use proximity_internet_mesh.Messaging.Steps.{
  Operation, send_message, receive, read_up_to, delete_peer, delete_everything, forget_peer, step,
}

-- A change of the tables.
pub data Change : Type 0 where
  -- A new row of `messages` with the row of its peer, whose counter is raised by a number.
  note : (raise : ℕ) → MessageRecord → Change
  revise : (id : Bytes) → MessageStatus → (delivered_at_ms read_at_ms : Option ℕ) → Change
  fail : (id reason : Bytes) → (at_ms : ℕ) → Change
  see : (peer : Bytes) → (up_to : ℕ) → Change
  drop : (peer : Bytes) → Change
  clear : Change

abbrev pub apply : Change → MessagingStorage → MessagingStorage
apply (note raise m) s =
    upsert_row raise m.peer_node_id m.id m.timestamp_ms m.body (insert_message m s)
apply (revise id status d r) s = set_message_status id status d r s
apply (fail id reason at_ms) s = set_message_failed id reason at_ms s
apply (see peer up_to) s = (mark_read_up_to peer up_to s).1
apply (drop peer) s = (Storage.delete_conversation peer s).1
apply clear s = (Storage.delete_all_messages s).1

abbrev pub apply_each : List Change → MessagingStorage → MessagingStorage
apply_each [] s = s
apply_each (x ∷ xs) s = apply_each xs (apply x s)

abbrev pub settled : Bool → Bytes → ℕ → Change
settled true id later = revise id MessageStatus.sent none none
settled false id later = fail id no_route later

abbrev pub acked : Bytes → ℕ → Option AckKind → List Change
acked id now none = []
acked id now (some AckKind.delivered) = revise id MessageStatus.delivered (some now) none ∷ []
acked id now (some AckKind.read) = revise id MessageStatus.read none (some now) ∷ []

module _ (c : Primitives) (aead : Aead) where
  abbrev pub sending : SendCall → NodeId → Bytes → Option Bytes → List Change
  sending call to body none = []
  sending call to body (some key) =
      note 0 (sent_record to call.message_id body call.timestamp_ms)
      ∷ elim (e2e_encrypt c aead call.ephemeral_secret call.nonce body key) [
        | err e ↦ []
        | ok ciphertext ↦ settled call.routed (hex call.message_id) call.later_ms ∷ []
      ]

  abbrev pub arriving : NodeId → ℕ → Option (DecodedMessage × Bytes) → List Change
  arriving src now none = []
  arriving src now (some (decoded, text)) = note 1 (received_record src decoded text now) ∷ []

  abbrev pub answering : ℕ → Result WireError DecodedAck → List Change
  answering now (err e) = []
  answering now (ok decoded) = acked (hex decoded.message_id) now (from_u8 decoded.ack_kind)

  unfoldable pub changes : Operation → List Change
  changes (send_message ports call to body) =
      if ltb max_body_bytes (length body) then [] else sending call to body (ports.lookup_x25519 to)
  changes (receive ports now src kind body) =
      if kind == kind_message
      then arriving src now (read_message c aead ports.signing_seed body)
      else if kind == kind_ack
      then answering now (decode_ack body)
      else []
  changes (read_up_to peer up_to) = see peer up_to ∷ []
  changes (delete_peer peer) = drop (hex peer) ∷ []
  changes delete_everything = clear ∷ []
  changes (forget_peer peer) = drop (hex peer) ∷ []

  storage-settle :
      (routed : Bool) (to : NodeId) (id : Bytes) (later : ℕ) (s : MessagingService)
      → (settle routed to id later s).storage ≡ apply (settled routed (hex id) later) s.storage
  unfolding mark_sent mark_failed set_status
  storage-settle true to id later s = refl
  storage-settle false to id later s = refl

  storage-record_local_send :
      (to : NodeId) (id body : Bytes) (ts : ℕ) (s : MessagingService)
      → (record_local_send to id body ts s).1.storage
        ≡ apply (note 0 (sent_record to id body ts)) s.storage
  unfolding record_local_send bump_conversation_after_local_send sent_record
  storage-record_local_send to id body ts s = refl

  storage-send_to :
      (call : SendCall) (to : NodeId) (body key : Bytes) (s : MessagingService)
      → (send_to c aead call to body key s).1.storage
        ≡ apply_each (sending call to body (some key)) s.storage
  unfolding send_to
  storage-send_to call to body key s =
      let id = call.message_id in
      let kept = storage-record_local_send to id body call.timestamp_ms s in
      elim (Result-cases (e2e_encrypt c aead call.ephemeral_secret call.nonce body key)) [
        | inl (ciphertext, e) ↦
            rw (send_to, e)
              (storage-settle call.routed to id call.later_ms _
                ∙ ap (apply (settled call.routed (hex id) call.later_ms)) kept)
        | inr (x, e) ↦ rw (send_to, e) kept
      ]

  storage-send :
      (ports : Ports) (call : SendCall) (to : NodeId) (body : Bytes) (s : MessagingService)
      → (send c aead ports call to body s).1.storage
        ≡ apply_each (changes (send_message ports call to body)) s.storage
  unfolding send changes
  storage-send ports call to body s = elim (Bool-cases (ltb max_body_bytes (length body))) [
    | inl long ↦ rw (send, long) refl
    | inr short ↦ elim (Option-cases (ports.lookup_x25519 to)) [
      | inr (key, known) ↦ rw (send, short, known) (storage-send_to call to body key s)
      | inl unknown ↦ rw (send, short, unknown) refl
    ]
  ]

  storage-handle_incoming_message :
      (ports : Ports) (now : ℕ) (src : NodeId) (body : Bytes) (s : MessagingService)
      → (handle_incoming_message c aead ports now src body s).storage
        ≡ apply_each (arriving src now (read_message c aead ports.signing_seed body)) s.storage
  unfolding handle_incoming_message store_received bump_conversation_after_remote_receive
      received_record
  storage-handle_incoming_message ports now src body s =
      elim (Option-cases (read_message c aead ports.signing_seed body)) [
        | inr (p, e) ↦ rw (handle_incoming_message, e) refl
        | inl e ↦ rw (handle_incoming_message, e) refl
      ]

  storage-apply_ack :
      (now : ℕ) (src : NodeId) (id : Bytes) (kind : Option AckKind) (s : MessagingService)
      → (apply_ack c aead now src id kind s).storage
        ≡ apply_each (acked (hex id) now kind) s.storage
  unfolding mark_delivered mark_read set_status
  storage-apply_ack now src id none s = refl
  storage-apply_ack now src id (some AckKind.delivered) s = refl
  storage-apply_ack now src id (some AckKind.read) s = refl

  storage-handle_incoming_message_ack :
      (now : ℕ) (src : NodeId) (body : Bytes) (s : MessagingService)
      → (handle_incoming_message_ack c aead now src body s).storage
        ≡ apply_each (answering now (decode_ack body)) s.storage
  unfolding handle_incoming_message_ack
  storage-handle_incoming_message_ack now src body s = elim (Result-cases (decode_ack body)) [
    | inl (d, e) ↦
        rw (handle_incoming_message_ack, e)
          (storage-apply_ack now src d.message_id (from_u8 d.ack_kind) s)
    | inr (x, e) ↦ rw (handle_incoming_message_ack, e) refl
  ]

  storage-handle_payload :
      (ports : Ports) (now : ℕ) (src : NodeId) (kind body : Bytes) (s : MessagingService)
      → (handle_payload c aead ports now src kind body s).storage
        ≡ apply_each (changes (receive ports now src kind body)) s.storage
  unfolding handle_payload changes
  storage-handle_payload ports now src kind body s = elim (Bool-cases (kind == kind_message)) [
    | inl hit ↦ rw (handle_payload, hit) (storage-handle_incoming_message ports now src body s)
    | inr miss ↦ elim (Bool-cases (kind == kind_ack)) [
      | inl hit ↦
          rw (handle_payload, miss, hit) (storage-handle_incoming_message_ack now src body s)
      | inr other ↦ rw (handle_payload, miss, other) refl
    ]
  ]

  storage-on_peer_forgotten :
      (peer : NodeId) (s : MessagingService)
      → (on_peer_forgotten peer s).storage ≡ (Storage.delete_conversation (hex peer) s.storage).1
  unfolding on_peer_forgotten
  storage-on_peer_forgotten peer s =
      let outcome = (Storage.delete_conversation (hex peer) s.storage).0 in
      elim (Bool-cases (ltb 0 outcome.0 || outcome.1)) [
        | inl rows ↦ rw (on_peer_forgotten, rows) refl
        | inr bare ↦ rw (on_peer_forgotten, bare) refl
      ]

  -- Each call leaves the tables as its changes make them.
  pub storage-step :
      (o : Operation) (s : MessagingService)
      → (step c aead o s).storage ≡ apply_each (changes o) s.storage
  unfolding changes delete_conversation delete_all_messages
  storage-step (send_message ports call to body) s = storage-send ports call to body s
  storage-step (receive ports now src kind body) s =
      storage-handle_payload ports now src kind body s
  storage-step (read_up_to peer up_to) s = refl
  storage-step (delete_peer peer) s = refl
  storage-step delete_everything s = refl
  storage-step (forget_peer peer) s = storage-on_peer_forgotten peer s
