-- ===== src/Messaging/Storage/Lookup.antt =====
-- crates/pim-messaging/src/storage.rs: what the tables hold after each statement.
use native.Mathlib.Omega.{arith}
use proximity_internet_mesh.Base.{
  ℕ, ◌+◌, ◌≡◌, refl, ◌∙◌, Bytes, not, Option, none, some, ◌==◌, bytes_eq, if◌then◌else◌,
}
use proximity_internet_mesh.Base.Map.{
  lookup, IsDistinct, lookup-insert, lookup-retain, passing, insert-IsDistinct, retain-IsDistinct,
}
use proximity_internet_mesh.Base.Map.Rows.{
  updated, lookup-update_where, update_where-IsDistinct, count_where,
}
use proximity_internet_mesh.Messaging.Storage.{
  MessageStatus, MessageRecord, Conversation, MessagingStorage, unread, row, preview_of,
  with_status, with_failure, has_id, is_of_peer, insert_message, set_message_status,
  set_message_failed, delete_conversation, mark_read_up_to, upsert_row, has_key, as_seen, as_read,
  to_read,
}

pub lookup-insert_message :
    (m : MessageRecord) (k : Bytes) (s : MessagingStorage)
    → lookup k (insert_message m s).messages ≡ (if m.id == k then some m else lookup k s.messages)
unfolding insert_message
lookup-insert_message m k s = lookup-insert m.id k m s.messages

pub lookup-set_message_status :
    (id : Bytes) (status : MessageStatus) (d r : Option ℕ) (k : Bytes) (s : MessagingStorage)
    → lookup k (set_message_status id status d r s).messages
      ≡ updated (has_id id) (with_status status d r) k (lookup k s.messages)
unfolding set_message_status
lookup-set_message_status id status d r k s =
    lookup-update_where (has_id id) (with_status status d r) k s.messages

pub lookup-set_message_failed :
    (id reason : Bytes) (at_ms : ℕ) (k : Bytes) (s : MessagingStorage)
    → lookup k (set_message_failed id reason at_ms s).messages
      ≡ updated (has_id id) (with_failure reason at_ms) k (lookup k s.messages)
unfolding set_message_failed
lookup-set_message_failed id reason at_ms k s =
    lookup-update_where (has_id id) (with_failure reason at_ms) k s.messages

-- No primary key twice.
pub record IsTable (s : MessagingStorage) : Type 0 where
  pub messages : IsDistinct s.messages
  pub conversations : IsDistinct s.conversations_meta

-- A test of the key alone.
passing_key :
    (peer k : Bytes) (o : Option Conversation)
    → passing (λ j c. not (j == peer)) k o ≡ (if k == peer then none else o)
passing_key peer k none = ground arith
passing_key peer k (some c) = ground arith

-- A deletion takes away the messages of the peer and its conversation, and nothing else; it
-- reports how many messages there were.
pub delete_conversation-lookup :
    (peer : Bytes) (s : MessagingStorage)
    → IsTable s
    → let (outcome, t) = delete_conversation peer s in
      (outcome.0 ≡ count_where (is_of_peer peer) s.messages)
      × ((k : Bytes)
          → lookup k t.messages
            ≡ passing
                (λ j (m : MessageRecord). not (m.peer_node_id == peer))
                k
                (lookup k s.messages))
      × ((k : Bytes)
          → lookup k t.conversations_meta
            ≡ (if k == peer then none else lookup k s.conversations_meta))
unfolding delete_conversation
delete_conversation-lookup peer s d = (
  refl,
  λ k. lookup-retain (λ j m. not (is_of_peer peer j m)) k s.messages d.messages,
  λ k.
      lookup-retain (λ j c. not (j == peer)) k s.conversations_meta d.conversations
      ∙ passing_key peer k (lookup k s.conversations_meta),
)

-- What a conversation row is after a message of either direction.
pub lookup-bump :
    (step : ℕ) (peer id : Bytes) (ts : ℕ) (body k : Bytes) (s : MessagingStorage)
    → lookup k (upsert_row step peer id ts body s).conversations_meta ≡ (
        if peer == k
        then some (row (unread (lookup peer s.conversations_meta) + step) id (preview_of body) ts)
        else lookup k s.conversations_meta)
lookup-bump step peer id ts body k s =
    lookup-insert peer k
      (row (unread (lookup peer s.conversations_meta) + step) id (preview_of body) ts)
      s.conversations_meta

-- Reading clears the counter of the peer, and the other columns stay.
pub lookup-mark_read :
    (peer : Bytes) (up_to : ℕ) (k : Bytes) (s : MessagingStorage)
    → lookup k (mark_read_up_to peer up_to s).1.conversations_meta
      ≡ updated (has_key peer) as_seen k (lookup k s.conversations_meta)
unfolding mark_read_up_to
lookup-mark_read peer up_to k s = lookup-update_where (has_key peer) as_seen k s.conversations_meta

pub insert_message-IsTable :
    (m : MessageRecord) (s : MessagingStorage) → IsTable s → IsTable (insert_message m s)
unfolding insert_message
insert_message-IsTable m s d = record {
  messages = insert-IsDistinct m.id m s.messages d.messages;
  conversations = d.conversations;
}

pub bump-IsTable :
    (step : ℕ) (peer id : Bytes) (ts : ℕ) (body : Bytes) (s : MessagingStorage)
    → IsTable s
    → IsTable (upsert_row step peer id ts body s)
bump-IsTable step peer id ts body s d = record {
  messages = d.messages;
  conversations = insert-IsDistinct peer _ s.conversations_meta d.conversations;
}

pub set_message_status-IsTable :
    (id : Bytes) (status : MessageStatus) (d r : Option ℕ) (s : MessagingStorage)
    → IsTable s
    → IsTable (set_message_status id status d r s)
unfolding set_message_status
set_message_status-IsTable id status d r s t = record {
  messages = update_where-IsDistinct (has_id id) (with_status status d r) s.messages t.messages;
  conversations = t.conversations;
}

pub set_message_failed-IsTable :
    (id reason : Bytes) (at_ms : ℕ) (s : MessagingStorage)
    → IsTable s
    → IsTable (set_message_failed id reason at_ms s)
unfolding set_message_failed
set_message_failed-IsTable id reason at_ms s t = record {
  messages = update_where-IsDistinct (has_id id) (with_failure reason at_ms) s.messages t.messages;
  conversations = t.conversations;
}

pub delete_conversation-IsTable :
    (peer : Bytes) (s : MessagingStorage) → IsTable s → IsTable (delete_conversation peer s).1
unfolding delete_conversation
delete_conversation-IsTable peer s t = record {
  messages = retain-IsDistinct _ s.messages t.messages;
  conversations = retain-IsDistinct _ s.conversations_meta t.conversations;
}

pub mark_read-IsTable :
    (peer : Bytes) (up_to : ℕ) (s : MessagingStorage)
    → IsTable s
    → IsTable (mark_read_up_to peer up_to s).1
unfolding mark_read_up_to
mark_read-IsTable peer up_to s t = record {
  messages = update_where-IsDistinct (to_read peer up_to) (as_read up_to) s.messages t.messages;
  conversations =
      update_where-IsDistinct (has_key peer) as_seen s.conversations_meta t.conversations;
}
