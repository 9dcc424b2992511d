-- ===== src/Messaging/Storage.antt =====
-- crates/pim-messaging/src/storage.rs: the tables `messages` and `conversations_meta`, with one
-- function for each method and SQL statement. The columns `direction` and `status` hold `as_str` of
-- a value, which `from_str` reads back. A failure of the database itself is not modelled.
pub mod Lookup
pub mod Labels
use proximity_internet_mesh.Base.{
  ℕ, ◌+◌, ◌-◌, ◌%◌, ◌^◌, Bytes, Bool, true, false, ◌&&◌, not, Option, none, some, List, [], ◌∷◌,
  map, ltb, leb, nat_eq, Eq, ◌==◌, bytes_eq, if◌then◌else◌,
}
use proximity_internet_mesh.Base.Map.{Map, lookup, insert, retain}
use proximity_internet_mesh.Base.Map.Rows.{update_where, count_where}

pub data MessageDirection : Type 0 where
  sent received : MessageDirection

pub data MessageStatus : Type 0 where
  pending sent delivered read failed : MessageStatus

pub record MessageRecord : Type 0 where
  pub id : Bytes
  pub peer_node_id : Bytes
  pub direction : MessageDirection
  pub body : Bytes
  pub timestamp_ms : ℕ
  pub status : MessageStatus
  pub failure_reason : Option Bytes
  pub delivered_at_ms : Option ℕ
  pub read_at_ms : Option ℕ

-- A row of `conversations_meta`, in which `last_read_message_id` is never written, and each other
-- column is written with the row.
pub record Conversation : Type 0 where
  pub unread_count : ℕ
  pub last_message_id : Bytes
  pub last_message_preview : Bytes
  pub last_message_ts_ms : ℕ

pub record ConversationBump : Type 0 where
  pub preview : Bytes
  pub unread_count : ℕ

pub record MessagingStorage : Type 0 where
  pub messages : Map Bytes MessageRecord
  pub conversations_meta : Map Bytes Conversation

-- Comparison of two `i64`, given by their bits.
abbrev pub le_i64 : ℕ → ℕ → Bool
le_i64 a b = leb ((a + 2 ^ 63) % 2 ^ 64) ((b + 2 ^ 63) % 2 ^ 64)

is_continuation : ℕ → Bool
is_continuation b = leb 128 b && ltb b 192

-- `chars().take(n)`: a character starts with each byte that does not continue one.
unfoldable pub take_chars : ℕ → Bytes → Bytes
unfolding is_continuation
take_chars n [] = []
take_chars n (b ∷ bs) =
    let rest = take_chars (if is_continuation b then n else n - 1) bs in
    if not (is_continuation b) && nat_eq n 0 then [] else b ∷ rest

unfoldable pub preview_of : Bytes → Bytes
unfolding take_chars
preview_of body = map (λ c. if nat_eq c 10 then 32 else c) (take_chars 80 body)

unfoldable pub short_id : Bytes → Bytes
unfolding take_chars
short_id text = take_chars 8 text

unfoldable pub insert_message : MessageRecord → MessagingStorage → MessagingStorage
unfolding insert
insert_message m s = record s { messages = insert m.id m s.messages }

abbrev pub row : ℕ → Bytes → Bytes → ℕ → Conversation
row unread_count id preview ts = record {
  unread_count = unread_count;
  last_message_id = id;
  last_message_preview = preview;
  last_message_ts_ms = ts;
}

-- `INSERT .. ON CONFLICT DO UPDATE`: the number of unread messages is that of the old row, if there
-- is one, raised by `step`.
abbrev pub unread : Option Conversation → ℕ
unread none = 0
unread (some c) = c.unread_count

abbrev pub upsert_row : ℕ → Bytes → Bytes → ℕ → Bytes → MessagingStorage → MessagingStorage
upsert_row step peer id ts body s = record s {
  conversations_meta =
      insert peer (row (unread (lookup peer s.conversations_meta) + step) id (preview_of body) ts)
        s.conversations_meta;
}

unfoldable pub bump_conversation_after_local_send :
    Bytes → Bytes → ℕ → Bytes → MessagingStorage → MessagingStorage
unfolding insert lookup preview_of
bump_conversation_after_local_send peer id ts body s = upsert_row 0 peer id ts body s

unfoldable pub bump_conversation_after_remote_receive :
    Bytes → Bytes → ℕ → Bytes → MessagingStorage → ConversationBump × MessagingStorage
unfolding insert lookup preview_of
bump_conversation_after_remote_receive peer id ts body s =
    let t = upsert_row 1 peer id ts body s in
    (
      record {
        preview = preview_of body;
        unread_count = unread (lookup peer t.conversations_meta);
      },
      t,
    )

-- `COALESCE(column, value)`
abbrev pub coalesce : Option ℕ → ℕ → Option ℕ
coalesce none at = some at
coalesce (some old) at = some old

abbrev pub has_id : Bytes → Bytes → MessageRecord → Bool
has_id id k m = k == id

-- The columns that `set_message_status` writes.
abbrev pub with_status : MessageStatus → Option ℕ → Option ℕ → MessageRecord → MessageRecord
with_status status (some d) (some r) m = record m {
  status = status;
  delivered_at_ms = some d;
  read_at_ms = some r;
}
with_status status (some d) none m = record m {
  status = status;
  delivered_at_ms = coalesce m.delivered_at_ms d;
}
with_status status none (some r) m = record m {
  status = status;
  read_at_ms = coalesce m.read_at_ms r;
}
with_status status none none m = record m { status = status }

unfoldable pub set_message_status :
    Bytes → MessageStatus → Option ℕ → Option ℕ → MessagingStorage → MessagingStorage
unfolding update_where
set_message_status id status delivered_at_ms read_at_ms s = record s {
  messages = update_where (has_id id) (with_status status delivered_at_ms read_at_ms) s.messages;
}

abbrev pub with_failure : Bytes → ℕ → MessageRecord → MessageRecord
with_failure reason at_ms m = record m {
  status = MessageStatus.failed;
  failure_reason = some reason;
  delivered_at_ms = coalesce m.delivered_at_ms at_ms;
}

unfoldable pub set_message_failed : Bytes → Bytes → ℕ → MessagingStorage → MessagingStorage
unfolding update_where
set_message_failed id reason at_ms s = record s {
  messages = update_where (has_id id) (with_failure reason at_ms) s.messages;
}

abbrev pub is_of_peer : Bytes → Bytes → MessageRecord → Bool
is_of_peer peer k m = m.peer_node_id == peer

abbrev pub has_key : Bytes → Bytes → Conversation → Bool
has_key peer k c = k == peer

unfoldable pub delete_conversation : Bytes → MessagingStorage → (ℕ × Bool) × MessagingStorage
unfolding retain count_where
delete_conversation peer s = (
  (
    count_where (is_of_peer peer) s.messages,
    ltb 0 (count_where (has_key peer) s.conversations_meta),
  ),
  record {
    messages = retain (λ k m. not (is_of_peer peer k m)) s.messages;
    conversations_meta = retain (λ k c. not (has_key peer k c)) s.conversations_meta;
  },
)

unfoldable pub delete_all_messages : MessagingStorage → (ℕ × ℕ) × MessagingStorage
unfolding count_where
delete_all_messages s = (
  (count_where (λ k m. true) s.messages, count_where (λ k c. true) s.conversations_meta),
  record { messages = []; conversations_meta = [] },
)

is_received : MessageDirection → Bool
is_received MessageDirection.sent = false
is_received MessageDirection.received = true

is_read : MessageStatus → Bool
is_read MessageStatus.read = true
is_read _ = false

unfoldable pub to_read : Bytes → ℕ → Bytes → MessageRecord → Bool
unfolding is_received is_read
to_read peer up_to k m =
    m.peer_node_id == peer
    && is_received m.direction
    && le_i64 m.timestamp_ms up_to
    && not (is_read m.status)

abbrev pub as_read : ℕ → MessageRecord → MessageRecord
as_read up_to m = record m { status = MessageStatus.read; read_at_ms = coalesce m.read_at_ms up_to }

abbrev pub as_seen : Conversation → Conversation
as_seen c = record c { unread_count = 0 }

unfoldable pub mark_read_up_to : Bytes → ℕ → MessagingStorage → ℕ × MessagingStorage
unfolding update_where to_read
mark_read_up_to peer up_to s = (
  0,
  record {
    messages = update_where (to_read peer up_to) (as_read up_to) s.messages;
    conversations_meta = update_where (has_key peer) as_seen s.conversations_meta;
  },
)
