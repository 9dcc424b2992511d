-- ===== src/Messaging/Query.antt =====
-- crates/pim-messaging: what is read from the tables, `history` and `list_conversations_raw` of
-- storage.rs and `list_conversations` of service.rs, with `ORDER BY` as a sort. A limit is at least 0,
-- as the daemon's RPC clamps it between 1 and 500.

pub mod Page
use proximity_internet_mesh.Base.{
  ℕ, suc, ◌+◌, max, Bytes, Bool, true, false, ◌&&◌, ◌||◌, not, Option, none, some, List, [], ◌∷◌,
  map, length, take, ltb, nat_eq, Eq, ◌==◌, bytes_eq, if◌then◌else◌,
}
use proximity_internet_mesh.Base.Map.{Map}
use proximity_internet_mesh.Core.Hex.{hex, parse_node_id}
use proximity_internet_mesh.Messaging.Storage.{
  MessageRecord, Conversation, MessagingStorage, le_i64, short_id,
}
use proximity_internet_mesh.Messaging.Service.{Ports, ConversationSummary, MessagingService}
use proximity_internet_mesh.Messaging.Incoming.{name_or, hex_key}

-- The order of texts in SQLite, byte by byte.
unfoldable pub lt_text : Bytes → Bytes → Bool
lt_text [] [] = false
lt_text [] (b ∷ bs) = true
lt_text (a ∷ ys) [] = false
lt_text (a ∷ ys) (b ∷ bs) = ltb a b || nat_eq a b && lt_text ys bs

lt_i64 : ℕ → ℕ → Bool
lt_i64 a b = not (le_i64 b a)

-- `ORDER BY timestamp_ms DESC, id DESC`
unfoldable pub newer : MessageRecord → MessageRecord → Bool
unfolding lt_text lt_i64
newer a b =
    lt_i64 b.timestamp_ms a.timestamp_ms
    || not (lt_i64 a.timestamp_ms b.timestamp_ms) && lt_text b.id a.id

unfoldable pub place : MessageRecord → List MessageRecord → List MessageRecord
unfolding newer
place m [] = m ∷ []
place m (x ∷ xs) = let rest = place m xs in if newer x m then x ∷ rest else m ∷ x ∷ xs

-- `WHERE peer_node_id = ?1 AND timestamp_ms < ?2`
unfoldable pub wanted : Bytes → Option ℕ → MessageRecord → Bool
unfolding lt_i64
wanted peer none m = m.peer_node_id == peer
wanted peer (some before) m = m.peer_node_id == peer && lt_i64 m.timestamp_ms before

unfoldable pub select : Bytes → Option ℕ → Map Bytes MessageRecord → List MessageRecord
unfolding place wanted
select peer before [] = []
select peer before ((k, m) ∷ rest) =
    let rows = select peer before rest in if wanted peer before m then place m rows else rows

unfoldable pub history : Bytes → Option ℕ → ℕ → MessagingStorage → List MessageRecord × Bool
unfolding select
history peer before limit s =
    let out = take (max (limit + 1) 2) (select peer before s.messages) in
    let hysmore = ltb limit (length out) in (if hysmore then take limit out else out, hysmore)

-- A row of the conversations list, with the short form of the key for a name.
unfoldable pub summary_of : Bytes → Conversation → ConversationSummary
unfolding short_id
summary_of peer c = record {
  peer_node_id = peer;
  peer_node_id_short = short_id peer;
  name = short_id peer;
  last_message_preview = some c.last_message_preview;
  last_message_ts_ms = some c.last_message_ts_ms;
  unread_count = c.unread_count;
  x25519_pubkey = none;
}

-- `ORDER BY last_message_ts_ms DESC`
unfoldable pub place_row :
    Bytes × Conversation → List (Bytes × Conversation) → List (Bytes × Conversation)
unfolding lt_i64
place_row r [] = r ∷ []
place_row r (x ∷ xs) =
    let rest = place_row r xs in
    if lt_i64 r.1.last_message_ts_ms x.1.last_message_ts_ms then x ∷ rest else r ∷ x ∷ xs

unfoldable pub sort_rows : Map Bytes Conversation → List (Bytes × Conversation)
unfolding place_row
sort_rows [] = []
sort_rows (r ∷ rows) = place_row r (sort_rows rows)

unfoldable pub list_conversations_raw : MessagingStorage → List ConversationSummary
unfolding sort_rows summary_of
list_conversations_raw s =
    map (λ (r : Bytes × Conversation). summary_of r.0 r.1) (sort_rows s.conversations_meta)

-- The name and the key that the peer directory has for a row.
unfoldable pub fill : Ports → ConversationSummary → ConversationSummary
unfolding parse_node_id hex
fill ports row = elim (parse_node_id row.peer_node_id) [
  | none ↦ row
  | some peer ↦ record row {
    name = name_or row.name (ports.lookup_name peer);
    x25519_pubkey = elim (ports.lookup_x25519 peer) [
      | none ↦ row.x25519_pubkey
      | some key ↦ some (hex key)
    ];
  }
]

unfoldable pub list_conversations : Ports → MessagingService → List ConversationSummary
unfolding list_conversations_raw fill
list_conversations ports s = map (fill ports) (list_conversations_raw s.storage)
