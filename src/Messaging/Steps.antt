-- ===== src/Messaging/Steps.antt =====
-- crates/pim-messaging: the calls that change a node's messages, in any order, from the daemon's RPC
-- (`send`, the deletions, `storage().mark_read_up_to`) and from its peers (`handle_payload`,
-- `on_peer_forgotten`).
pub mod Changes
pub mod Listed
pub mod Unread
use proximity_internet_mesh.Base.{ℕ, Bytes, List, [], ◌∷◌}
use proximity_internet_mesh.Core.{NodeId}
use proximity_internet_mesh.Crypto.Handshake.{Primitives}
use proximity_internet_mesh.Crypto.Session.{Aead}
use proximity_internet_mesh.Messaging.Storage.{mark_read_up_to}
use proximity_internet_mesh.Messaging.Service.{Ports, MessagingService, SendCall, send}
use proximity_internet_mesh.Messaging.Incoming.{
  handle_payload, delete_conversation, delete_all_messages, on_peer_forgotten,
}

pub data Operation : Type 0 where
  send_message : Ports → SendCall → NodeId → (body : Bytes) → Operation
  receive : Ports → (now : ℕ) → NodeId → (kind body : Bytes) → Operation
  read_up_to : (peer : Bytes) → (up_to : ℕ) → Operation
  delete_peer : NodeId → Operation
  delete_everything : Operation
  forget_peer : NodeId → Operation

module _ (c : Primitives) (aead : Aead) where
  abbrev pub step : Operation → MessagingService → MessagingService
  step (send_message ports call to body) s = (send c aead ports call to body s).1
  step (receive ports now src kind body) s = handle_payload c aead ports now src kind body s
  step (read_up_to peer up_to) s = record s { storage = (mark_read_up_to peer up_to s.storage).1 }
  step (delete_peer peer) s = (delete_conversation peer s).1
  step delete_everything s = (delete_all_messages s).1
  step (forget_peer peer) s = on_peer_forgotten peer s

  unfoldable pub run : List Operation → MessagingService → MessagingService
  run [] s = s
  run (o ∷ os) s = run os (step o s)
