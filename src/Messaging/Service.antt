-- ===== src/Messaging/Service.antt =====
-- crates/pim-messaging/src/service.rs and plugin.rs. Each handler is one step: the state is the
-- storage, the events that went out to the subscribers and the frames that went to the transport,
-- the latest last. `Ports` stands for the daemon's side of the plugin; what the clock, the random
-- numbers and the transport say to a call are its arguments.
use proximity_internet_mesh.Base.{
  ℕ, Bytes, Bool, true, false, Option, none, some, Result, ok, err, List, [], ◌∷◌, ◌++◌, length,
  ltb, nat_eq, if◌then◌else◌,
}
use proximity_internet_mesh.Core.{NodeId}
use proximity_internet_mesh.Crypto.Handshake.{Primitives}
use proximity_internet_mesh.Crypto.Session.{Aead}
use proximity_internet_mesh.Crypto.E2e.{E2eError, e2e_encrypt}
use proximity_internet_mesh.Protocol.Control
use proximity_internet_mesh.Core.Hex.{hex}
use proximity_internet_mesh.Messaging.Wire.{kind_message, encode_message}
use proximity_internet_mesh.Messaging.Storage.{
  MessageDirection, MessageStatus, MessageRecord, MessagingStorage, insert_message,
  bump_conversation_after_local_send, set_message_status, set_message_failed,
}

-- The traits `PeerDirectory` and `IdentitySecrets`.
pub record Ports : Type 0 where
  pub lookup_name : NodeId → Option Bytes
  pub lookup_x25519 : NodeId → Option Bytes
  pub signing_seed : Bytes

pub record ConversationSummary : Type 0 where
  pub peer_node_id : Bytes
  pub peer_node_id_short : Bytes
  pub name : Bytes
  pub last_message_preview : Option Bytes
  pub last_message_ts_ms : Option ℕ
  pub unread_count : ℕ
  pub x25519_pubkey : Option Bytes

pub data HistoryScope : Type 0 where
  peer all : HistoryScope

pub data MessageEvent : Type 0 where
  message_received : MessageRecord → ConversationSummary → MessageEvent
  message_status : (message_id peer_node_id : Bytes) → MessageStatus → (at_ms : ℕ) → MessageEvent
  history_cleared : Option Bytes → HistoryScope → (deleted_messages : ℕ) → MessageEvent

pub record MessagingService : Type 0 where
  pub storage : MessagingStorage
  pub events : List MessageEvent
  pub frames : List (NodeId × Control.ControlFrame)

pub data SendError : Type 0 where
  body_too_long no_x25519 : SendError
  not_encrypted : E2eError → SendError

-- MAX_BODY_BYTES
abbrev pub max_body_bytes : ℕ
max_body_bytes = 8192

-- "no_route"
abbrev pub no_route : Bytes
no_route = 110 ∷ 111 ∷ 95 ∷ 114 ∷ 111 ∷ 117 ∷ 116 ∷ 101 ∷ []

pub data AckKind : Type 0 where
  delivered read : AckKind

unfoldable pub from_u8 : ℕ → Option AckKind
from_u8 v =
    if nat_eq v 1 then some AckKind.delivered else if nat_eq v 2 then some AckKind.read else none

-- `ack_kind as u8`
abbrev pub ack_byte : AckKind → ℕ
ack_byte AckKind.delivered = 1
ack_byte AckKind.read = 2

abbrev pub emit : MessageEvent → MessagingService → MessagingService
emit e s = record s { events = s.events ++ (e ∷ []) }

-- `send_routed`, whose answer is an argument of the caller.
abbrev pub send_routed : NodeId → Control.ControlFrame → MessagingService → MessagingService
send_routed to frame s = record s { frames = s.frames ++ ((to, frame) ∷ []) }

unfoldable pub set_status :
    NodeId → Bytes → MessageStatus → Option ℕ → Option ℕ → ℕ → MessagingService → MessagingService
unfolding set_message_status hex
set_status to message_id status delivered_at_ms read_at_ms at_ms s =
    emit (message_status (hex message_id) (hex to) status at_ms) (record s {
      storage = set_message_status (hex message_id) status delivered_at_ms read_at_ms s.storage;
    })

unfoldable pub mark_sent : NodeId → Bytes → ℕ → MessagingService → MessagingService
unfolding set_status
mark_sent to message_id at_ms s = set_status to message_id MessageStatus.sent none none at_ms s

unfoldable pub mark_delivered : NodeId → Bytes → ℕ → MessagingService → MessagingService
unfolding set_status
mark_delivered to message_id at_ms s =
    set_status to message_id MessageStatus.delivered (some at_ms) none at_ms s

unfoldable pub mark_read : NodeId → Bytes → ℕ → MessagingService → MessagingService
unfolding set_status
mark_read to message_id at_ms s =
    set_status to message_id MessageStatus.read none (some at_ms) at_ms s

unfoldable pub mark_failed : NodeId → Bytes → Bytes → ℕ → MessagingService → MessagingService
unfolding set_message_failed hex
mark_failed to message_id reason at_ms s =
    emit (message_status (hex message_id) (hex to) MessageStatus.failed at_ms)
      (record s { storage = set_message_failed (hex message_id) reason at_ms s.storage })

unfoldable pub sent_record : NodeId → Bytes → Bytes → ℕ → MessageRecord
unfolding hex
sent_record to message_id body timestamp_ms = record {
  id = hex message_id;
  peer_node_id = hex to;
  direction = MessageDirection.sent;
  body = body;
  timestamp_ms = timestamp_ms;
  status = MessageStatus.pending;
  failure_reason = none;
  delivered_at_ms = none;
  read_at_ms = none;
}

unfoldable pub record_local_send :
    NodeId → Bytes → Bytes → ℕ → MessagingService → MessageRecord × MessagingService
unfolding sent_record insert_message bump_conversation_after_local_send hex
record_local_send to message_id body timestamp_ms s =
    let m = sent_record to message_id body timestamp_ms in
    (
      m,
      record s {
        storage =
            bump_conversation_after_local_send (hex to) (hex message_id) timestamp_ms body
              (insert_message m s.storage);
      },
    )

-- The transport's answer to a frame that was sent at `later`.
abbrev pub settle : Bool → NodeId → Bytes → ℕ → MessagingService → MessagingService
settle true to message_id later s = mark_sent to message_id later s
settle false to message_id later s = mark_failed to message_id no_route later s

-- What a call of `send` draws, reads and is told.
pub record SendCall : Type 0 where
  pub message_id : Bytes
  pub ephemeral_secret : Bytes
  pub nonce : Bytes
  pub timestamp_ms : ℕ
  pub later_ms : ℕ
  pub routed : Bool

module _ (c : Primitives) (aead : Aead) where
  -- From the recipient's key on.
  unfoldable pub send_to :
      SendCall
      → NodeId
      → Bytes
      → Bytes
      → MessagingService
      → Result SendError MessageRecord × MessagingService
  unfolding record_local_send e2e_encrypt encode_message mark_sent mark_failed
  send_to call to body key s =
      let (m, t) = record_local_send to call.message_id body call.timestamp_ms s in
      elim (e2e_encrypt c aead call.ephemeral_secret call.nonce body key) [
        | err e ↦ (err (SendError.not_encrypted e), t)
        | ok ciphertext ↦ (
          ok m,
          settle call.routed to call.message_id call.later_ms (
              send_routed to
                (Control.plugin_payload kind_message
                  (encode_message call.message_id call.timestamp_ms ciphertext))
                t),
        )
      ]

  unfoldable pub send :
      Ports
      → SendCall
      → NodeId
      → Bytes
      → MessagingService
      → Result SendError MessageRecord × MessagingService
  unfolding send_to
  send ports call to body s =
      if ltb max_body_bytes (length body)
      then (err body_too_long, s)
      else elim (ports.lookup_x25519 to) [
        | none ↦ (err no_x25519, s)
        | some key ↦ send_to call to body key s
      ]
