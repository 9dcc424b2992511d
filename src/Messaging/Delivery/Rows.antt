-- ===== src/Messaging/Delivery/Rows.antt =====
-- crates/pim-messaging/src/service.rs: the row and the frames that each handler of a delivery leaves.
use proximity_internet_mesh.Base.{
  ℕ, ◌≡◌, refl, ◌∙◌, Bytes, Option, none, some, List, [], ◌∷◌, ◌++◌, ==_refl, bytes_eq,
}
use proximity_internet_mesh.Base.Map.{lookup}
use proximity_internet_mesh.Core.{NodeId}
use proximity_internet_mesh.Protocol.Control
use proximity_internet_mesh.Core.Hex.{hex}
use proximity_internet_mesh.Messaging.Wire.{kind_message, kind_ack, encode_ack}
use proximity_internet_mesh.Messaging.Storage.{
  MessageDirection, MessageStatus, MessageRecord, bump_conversation_after_remote_receive,
  with_status,
}
use proximity_internet_mesh.Messaging.Storage.Lookup.{
  lookup-insert_message, lookup-set_message_status,
}
use proximity_internet_mesh.Messaging.Service.{
  Ports, MessagingService, record_local_send, mark_sent, set_status, send_routed, mark_delivered,
}
use proximity_internet_mesh.Messaging.Incoming.{received_record, store_received}

-- The row of a message that arrived.
abbrev pub arrived : NodeId → Bytes → Bytes → ℕ → ℕ → MessageRecord
arrived from id body ts now = record {
  id = hex id;
  peer_node_id = hex from;
  direction = MessageDirection.received;
  body = body;
  timestamp_ms = ts;
  status = MessageStatus.delivered;
  failure_reason = none;
  delivered_at_ms = some now;
  read_at_ms = none;
}

pub lookup-store_received :
    (ports : Ports) (now : ℕ) (src : NodeId) (frame id body : Bytes) (ts : ℕ) (t : MessagingService)
    → lookup
        (hex id)
        (store_received ports now src
          (record { message_id = id; timestamp_ms = ts; ciphertext = frame })
          body
          t).storage.messages
      ≡ some (arrived src id body ts now)
unfolding store_received received_record bump_conversation_after_remote_receive
lookup-store_received ports now src frame id body ts t =
    lookup-insert_message (arrived src id body ts now) (hex id) t.storage
    ∙ rw (==_refl (hex id)) refl

abbrev pub frames_of : MessagingService → List (NodeId × Control.ControlFrame)
frames_of s = s.frames

pub frames-store_received :
    (ports : Ports) (now : ℕ) (src : NodeId) (frame id body : Bytes) (ts : ℕ) (t : MessagingService)
    → (store_received ports now src
        (record { message_id = id; timestamp_ms = ts; ciphertext = frame })
        body
        t).frames
      ≡ t.frames ++ ((src, Control.plugin_payload kind_ack (encode_ack id 1)) ∷ [])
unfolding store_received
frames-store_received ports now src frame id body ts t = refl

pub frames-mark_sent :
    (to : NodeId) (id body : Bytes) (ts later : ℕ) (message : Bytes) (s : MessagingService)
    → (mark_sent to id later (
        send_routed to
          (Control.plugin_payload kind_message message)
          (record_local_send to id body ts s).1)).frames
      ≡ s.frames ++ ((to, Control.plugin_payload kind_message message) ∷ [])
unfolding mark_sent set_status record_local_send
frames-mark_sent to id body ts later message s = refl

-- The message of an identifier, once its status is set.
pub lookup-set_status_self :
    (to : NodeId) (id : Bytes) (status : MessageStatus) (d r : Option ℕ) (at_ms : ℕ)
    (m : MessageRecord) (s : MessagingService)
    → lookup (hex id) s.storage.messages ≡ some m
    → lookup (hex id) (set_status to id status d r at_ms s).storage.messages
      ≡ some (with_status status d r m)
unfolding set_status
lookup-set_status_self to id status d r at_ms m s found =
    lookup-set_message_status (hex id) status d r (hex id) s.storage
    ∙ rw (found, ==_refl (hex id)) refl

pub lookup-mark_delivered :
    (to : NodeId) (id : Bytes) (at_ms : ℕ) (m : MessageRecord) (s : MessagingService)
    → lookup (hex id) s.storage.messages ≡ some m
    → lookup (hex id) (mark_delivered to id at_ms s).storage.messages
      ≡ some (with_status MessageStatus.delivered (some at_ms) none m)
unfolding mark_delivered
lookup-mark_delivered to id at_ms m s found =
    lookup-set_status_self to id MessageStatus.delivered (some at_ms) none at_ms m s found
