-- ===== src/Messaging/Steps/Listed.antt =====
-- crates/pim-messaging: the two tables agree with each other, whatever calls a node has taken.
use proximity_internet_mesh.Base.{
  ℕ, ◌+◌, ◌≡◌, refl, sym, ap, subst, ◌∙◌, inl, inr, ◌⊎◌, Bytes, Bool, false, not, Option, none,
  some, Bool-cases, List, [], ◌∷◌, ◌==◌, bytes_eq, if◌then◌else◌,
}
use proximity_internet_mesh.Base.Map.{
  lookup, lookup-insert, lookup-insert_self, lookup_inserted, passing,
}
use proximity_internet_mesh.Base.Map.Rows.{update_where, lookup_updated, lookup-update_where}
use proximity_internet_mesh.Crypto.Handshake.{Primitives}
use proximity_internet_mesh.Crypto.Session.{Aead}
use proximity_internet_mesh.Messaging.Storage.{
  MessageStatus, MessageRecord, Conversation, MessagingStorage, with_status, with_failure, as_read,
  as_seen, has_id, has_key, to_read, insert_message, upsert_row, row, unread, preview_of,
  set_message_status, set_message_failed, mark_read_up_to, delete_all_messages,
}
use proximity_internet_mesh.Messaging.Storage
use proximity_internet_mesh.Messaging.Storage.Lookup.{
  IsTable, insert_message-IsTable, bump-IsTable, set_message_status-IsTable,
  set_message_failed-IsTable, mark_read-IsTable, delete_conversation-IsTable,
  delete_conversation-lookup,
}
use proximity_internet_mesh.Messaging.Service.{MessagingService}
use proximity_internet_mesh.Messaging.Steps.{Operation, step, run}
use proximity_internet_mesh.Messaging.Steps.Changes.{
  Change, note, revise, fail, see, drop, clear, apply, apply_each, changes, storage-step,
}

abbrev pub HasRow : Bytes → MessagingStorage → Type 0
HasRow peer s = (c : Conversation) × (lookup peer s.conversations_meta ≡ some c)

-- Keys are unique, a message stands under its own identifier, and its peer has a conversation.
pub record IsListed (s : MessagingStorage) : Type 0 where
  pub tables : IsTable s
  pub own_id : (k : Bytes) (m : MessageRecord) → lookup k s.messages ≡ some m → m.id ≡ k
  pub listed :
      (k : Bytes) (m : MessageRecord) → lookup k s.messages ≡ some m → HasRow m.peer_node_id s

-- A row that is found after a note was there before, if it is not the new one.
HasRow-upsert_row :
    (raise : ℕ) (peer id : Bytes) (ts : ℕ) (body j : Bytes) (s : MessagingStorage)
    → (peer ≡ j) ⊎ HasRow j s
    → HasRow j (upsert_row raise peer id ts body s)
HasRow-upsert_row raise peer id ts body j s h =
    let table = s.conversations_meta in
    let v : Conversation = row (unread (lookup peer table) + raise) id (preview_of body) ts in
    let keeps = lookup-insert peer j v table in
    elim h [
      | inl same ↦
          subst (λ (k : Bytes). HasRow k (upsert_row raise peer id ts body s)) same
            (v, lookup-insert_self peer v table)
      | inr (c, found) ↦ elim (Bool-cases (peer == j)) [
        | inl hit ↦ (v, keeps ∙ rw hit refl)
        | inr miss ↦ (c, keeps ∙ rw miss found)
      ]
    ]

note-IsListed :
    (raise : ℕ) (m : MessageRecord) (s : MessagingStorage)
    → IsListed s
    → IsListed (apply (note raise m) s)
unfolding insert_message
note-IsListed raise m s h = record {
  tables =
      bump-IsTable raise m.peer_node_id m.id m.timestamp_ms m.body _
        (insert_message-IsTable m s h.tables);
  own_id = λ k n found. elim (lookup_inserted m.id k m n s.messages found) [
    | inl (key, new) ↦ ap (λ (x : MessageRecord). x.id) (sym new) ∙ key
    | inr (other, old) ↦ h.own_id k n old
  ];
  listed = λ k n found. elim (lookup_inserted m.id k m n s.messages found) [
    | inl (key, new) ↦
        HasRow-upsert_row raise m.peer_node_id m.id m.timestamp_ms m.body n.peer_node_id
          (insert_message m s) (inl (ap (λ (x : MessageRecord). x.peer_node_id) new))
    | inr (other, old) ↦
        HasRow-upsert_row raise m.peer_node_id m.id m.timestamp_ms m.body n.peer_node_id
          (insert_message m s) (inr (h.listed k n old))
  ];
}

-- An update that keeps identifiers and peers.
update-own_id :
    (p : Bytes → MessageRecord → Bool) (f : MessageRecord → MessageRecord) (s : MessagingStorage)
    → IsListed s
    → ((m : MessageRecord) → (f m).id ≡ m.id)
    → (k : Bytes) (n : MessageRecord) → lookup k (update_where p f s.messages) ≡ some n
    → n.id ≡ k
update-own_id p f s h keeps k n found =
    let (m, old, new) = lookup_updated p f k s.messages n found in
    let id = h.own_id k m old in
    let same = keeps m in
    elim (Bool-cases (p k m)) [ inl hit ↦ rw (new, hit) (same ∙ id) | inr miss ↦ rw (new, miss) id ]

update-listed :
    (p : Bytes → MessageRecord → Bool) (f : MessageRecord → MessageRecord) (s : MessagingStorage)
    → IsListed s
    → ((m : MessageRecord) → (f m).peer_node_id ≡ m.peer_node_id)
    → (k : Bytes) (n : MessageRecord) → lookup k (update_where p f s.messages) ≡ some n
    → HasRow n.peer_node_id s
update-listed p f s h keeps k n found =
    let (m, old, new) = lookup_updated p f k s.messages n found in
    let listed = h.listed k m old in
    let same = keeps m in
    elim (Bool-cases (p k m)) [
      | inl hit ↦ rw (new, hit, same) listed
      | inr miss ↦ rw (new, miss) listed
    ]

id-with_status :
    (status : MessageStatus) (d r : Option ℕ) (m : MessageRecord)
    → ((with_status status d r m).id ≡ m.id)
      × ((with_status status d r m).peer_node_id ≡ m.peer_node_id)
id-with_status status none none m = (refl, refl)
id-with_status status none (some r) m = (refl, refl)
id-with_status status (some d) none m = (refl, refl)
id-with_status status (some d) (some r) m = (refl, refl)

revise-IsListed :
    (id : Bytes) (status : MessageStatus) (d r : Option ℕ) (s : MessagingStorage)
    → IsListed s
    → IsListed (apply (revise id status d r) s)
unfolding set_message_status
revise-IsListed id status d r s h = record {
  tables = set_message_status-IsTable id status d r s h.tables;
  own_id =
      update-own_id (has_id id) (with_status status d r) s h (λ m. (id-with_status status d r m).0);
  listed =
      update-listed (has_id id) (with_status status d r) s h (λ m. (id-with_status status d r m).1);
}

fail-IsListed :
    (id reason : Bytes) (at_ms : ℕ) (s : MessagingStorage)
    → IsListed s
    → IsListed (apply (fail id reason at_ms) s)
unfolding set_message_failed
fail-IsListed id reason at_ms s h = record {
  tables = set_message_failed-IsTable id reason at_ms s h.tables;
  own_id = update-own_id (has_id id) (with_failure reason at_ms) s h (λ m. refl);
  listed = update-listed (has_id id) (with_failure reason at_ms) s h (λ m. refl);
}

HasRow-seen :
    (peer j : Bytes) (up_to : ℕ) (s : MessagingStorage)
    → HasRow j s
    → HasRow j (mark_read_up_to peer up_to s).1
unfolding mark_read_up_to
HasRow-seen peer j up_to s (c, found) = (
  if has_key peer j c then as_seen c else c,
  lookup-update_where (has_key peer) as_seen j s.conversations_meta ∙ rw found refl,
)

see-IsListed :
    (peer : Bytes) (up_to : ℕ) (s : MessagingStorage)
    → IsListed s
    → IsListed (apply (see peer up_to) s)
unfolding mark_read_up_to
see-IsListed peer up_to s h = record {
  tables = mark_read-IsTable peer up_to s h.tables;
  own_id = update-own_id (to_read peer up_to) (as_read up_to) s h (λ m. refl);
  listed = λ k n found.
      HasRow-seen peer n.peer_node_id up_to s
        (update-listed (to_read peer up_to) (as_read up_to) s h (λ m. refl) k n found);
}

-- What is found after a deletion was there before, and is of another peer.
passed :
    (peer k : Bytes) (o : Option MessageRecord) (n : MessageRecord)
    → passing (λ j (m : MessageRecord). not (m.peer_node_id == peer)) k o ≡ some n
    → (o ≡ some n) × ((n.peer_node_id == peer) ≡ false)
passed peer k none n h = absurd cc
passed peer k (some m) n h = elim (Bool-cases (m.peer_node_id == peer)) [
  | inl hit ↦ let gone = rw hit at h in absurd cc
  | inr miss ↦
      let kept : some m ≡ some n = rw miss at h in let same : m ≡ n = cc in (kept, rw (← same) miss)
]

drop-IsListed : (peer : Bytes) (s : MessagingStorage) → IsListed s → IsListed (apply (drop peer) s)
drop-IsListed peer s h =
    let (count, messages, rows) = delete_conversation-lookup peer s h.tables in
    let old : (k : Bytes) (n : MessageRecord)
        → lookup k (Storage.delete_conversation peer s).1.messages ≡ some n
        → (lookup k s.messages ≡ some n) × ((n.peer_node_id == peer) ≡ false) =
      λ k n found. passed peer k (lookup k s.messages) n (sym (messages k) ∙ found) in
    record {
      tables = delete_conversation-IsTable peer s h.tables;
      own_id = λ k n found. h.own_id k n (old k n found).0;
      listed = λ k n found.
          let (was, other) = old k n found in
          let (c, row) = h.listed k n was in (c, rows n.peer_node_id ∙ rw other row);
    }

pub empty-IsListed : IsListed (record { messages = []; conversations_meta = [] })
unfolding lookup
empty-IsListed = record {
  tables = record { messages = tt; conversations = tt };
  own_id = λ k n found. absurd cc;
  listed = λ k n found. absurd cc;
}

clear-IsListed : (s : MessagingStorage) → IsListed s → IsListed (apply clear s)
unfolding delete_all_messages
clear-IsListed s h = empty-IsListed

pub apply-IsListed : (x : Change) (s : MessagingStorage) → IsListed s → IsListed (apply x s)
apply-IsListed (note raise m) s h = note-IsListed raise m s h
apply-IsListed (revise id status d r) s h = revise-IsListed id status d r s h
apply-IsListed (fail id reason at_ms) s h = fail-IsListed id reason at_ms s h
apply-IsListed (see peer up_to) s h = see-IsListed peer up_to s h
apply-IsListed (drop peer) s h = drop-IsListed peer s h
apply-IsListed clear s h = clear-IsListed s h

apply_each-IsListed :
    (xs : List Change) (s : MessagingStorage) → IsListed s → IsListed (apply_each xs s)
apply_each-IsListed [] s h = h
apply_each-IsListed (x ∷ xs) s h = apply_each-IsListed xs (apply x s) (apply-IsListed x s h)

module _ (c : Primitives) (aead : Aead) where
  pub step-IsListed :
      (o : Operation) (s : MessagingService)
      → IsListed s.storage
      → IsListed (step c aead o s).storage
  step-IsListed o s h =
      subst IsListed (sym (storage-step c aead o s))
        (apply_each-IsListed (changes c aead o) s.storage h)

  -- From tables that agree, also from empty ones, every sequence of calls ends with tables that
  -- agree: no key stands twice, each message stands under its own identifier, and its peer has a
  -- conversation.
  pub run-IsListed :
      (os : List Operation) (s : MessagingService)
      → IsListed s.storage
      → IsListed (run c aead os s).storage
  unfolding run
  run-IsListed [] s h = h
  run-IsListed (o ∷ os) s h = run-IsListed os (step c aead o s) (step-IsListed o s h)
