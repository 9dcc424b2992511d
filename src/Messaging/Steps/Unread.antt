-- ===== src/Messaging/Steps/Unread.antt =====
-- crates/pim-messaging: the counters of unread messages, against a count of the calls.
use native.Mathlib.Omega.{arith}
use proximity_internet_mesh.Base.{
  ℕ, ◌+◌, ◌≡◌, refl, ap, ◌∙◌, inl, inr, Bytes, Bool, true, false, ◌&&◌, Option, none, some,
  Option-cases, Result, ok, err, Result-cases, Bool-cases, List, [], ◌∷◌, length, ltb, ◌==◌,
  bytes_eq, ==→eq, if◌then◌else◌,
}
use proximity_internet_mesh.Base.Map.{lookup}
use proximity_internet_mesh.Base.Map.Rows.{updated}
use proximity_internet_mesh.Core.{NodeId}
use proximity_internet_mesh.Crypto.Handshake.{Primitives}
use proximity_internet_mesh.Crypto.Session.{Aead}
use proximity_internet_mesh.Crypto.E2e.{e2e_encrypt}
use proximity_internet_mesh.Core.Hex.{hex}
use proximity_internet_mesh.Messaging.Wire.{
  WireError, DecodedAck, decode_ack, kind_message, kind_ack,
}
use proximity_internet_mesh.Messaging.Storage.{
  MessageRecord, Conversation, MessagingStorage, insert_message, upsert_row, unread, row,
  preview_of, has_key, as_seen, set_message_status, set_message_failed, mark_read_up_to,
}
use proximity_internet_mesh.Messaging.Storage
use proximity_internet_mesh.Messaging.Storage.Lookup.{
  IsTable, lookup-bump, lookup-mark_read, delete_conversation-lookup,
}
use proximity_internet_mesh.Messaging.Service.{
  Ports, SendCall, MessagingService, AckKind, from_u8, max_body_bytes, sent_record,
}
use proximity_internet_mesh.Messaging.Incoming.{read_message, received_record}
use proximity_internet_mesh.Messaging.Steps.{
  Operation, send_message, receive, read_up_to, delete_peer, delete_everything, forget_peer, step,
  run,
}
use proximity_internet_mesh.Messaging.Steps.Changes.{
  Change, note, revise, fail, see, drop, clear, apply, apply_each, settled, sending, acked,
  answering, changes, storage-step,
}
use proximity_internet_mesh.Messaging.Steps.Listed.{IsListed, apply-IsListed, step-IsListed}

abbrev pub unread_of : MessagingStorage → Bytes → ℕ
unread_of s peer = unread (lookup peer s.conversations_meta)

-- What a change does to the counter of one peer.
effect : Change → Bytes → ℕ → ℕ
effect (note raise m) peer n = if m.peer_node_id == peer then n + raise else n
effect (see other up_to) peer n = if peer == other then 0 else n
effect (drop other) peer n = if peer == other then 0 else n
effect clear peer n = 0
effect (revise id status d r) peer n = n
effect (fail id reason at_ms) peer n = n

effects : List Change → Bytes → ℕ → ℕ
unfolding effect
effects [] peer n = n
effects (x ∷ xs) peer n = effects xs peer (effect x peer n)

note-unread :
    (raise : ℕ) (m : MessageRecord) (s : MessagingStorage) (peer : Bytes)
    → unread_of (apply (note raise m) s) peer ≡ effect (note raise m) peer (unread_of s peer)
unfolding insert_message effect
note-unread raise m s peer =
    let rows = lookup-bump raise m.peer_node_id m.id m.timestamp_ms m.body peer s in
    elim (Bool-cases (m.peer_node_id == peer)) [
      | inl hit ↦
          let same = ==→eq m.peer_node_id peer hit in
          ap unread rows ∙ rw hit (ap (λ (p : Bytes). unread_of s p + raise) same)
      | inr miss ↦ ap unread rows ∙ rw miss refl
    ]

unread-updated :
    (other peer : Bytes) (o : Option Conversation)
    → unread (updated (has_key other) as_seen peer o) ≡ (if peer == other then 0 else unread o)
unread-updated other peer none = ground arith
unread-updated other peer (some c) = ground arith

unread-dropped :
    (other peer : Bytes) (o : Option Conversation)
    → unread (if peer == other then none else o) ≡ (if peer == other then 0 else unread o)
unread-dropped other peer o = ground arith

apply-unread :
    (x : Change) (s : MessagingStorage) (peer : Bytes)
    → IsTable s
    → unread_of (apply x s) peer ≡ effect x peer (unread_of s peer)
unfolding effect set_message_status set_message_failed
apply-unread (note raise m) s peer d = note-unread raise m s peer
apply-unread (see other up_to) s peer d =
    ap unread (lookup-mark_read other up_to peer s)
    ∙ unread-updated other peer (lookup peer s.conversations_meta)
apply-unread (drop other) s peer d =
    ap unread ((delete_conversation-lookup other s d).2 peer)
    ∙ unread-dropped other peer (lookup peer s.conversations_meta)
apply-unread clear s peer d = unfold Storage.delete_all_messages lookup in refl
apply-unread (revise id status dd r) s peer d = refl
apply-unread (fail id reason at_ms) s peer d = refl

apply_each-unread :
    (xs : List Change) (s : MessagingStorage) (peer : Bytes)
    → IsListed s
    → unread_of (apply_each xs s) peer ≡ effects xs peer (unread_of s peer)
unfolding effects
apply_each-unread [] s peer h = refl
apply_each-unread (x ∷ xs) s peer h =
    apply_each-unread xs (apply x s) peer (apply-IsListed x s h)
    ∙ ap (effects xs peer) (apply-unread x s peer h.tables)

effects-settled :
    (routed : Bool) (id : Bytes) (later : ℕ) (peer : Bytes) (n : ℕ)
    → effects (settled routed id later ∷ []) peer n ≡ n
unfolding effects effect
effects-settled true id later peer n = refl
effects-settled false id later peer n = refl

-- A message that is sent raises no counter.
effects-note_sent :
    (to : NodeId) (id body : Bytes) (ts : ℕ) (peer : Bytes) (n : ℕ)
    → effect (note 0 (sent_record to id body ts)) peer n ≡ n
unfolding effect
effects-note_sent to id body ts peer n = ground arith

effects-acked :
    (id : Bytes) (now : ℕ) (kind : Option AckKind) (peer : Bytes) (n : ℕ)
    → effects (acked id now kind) peer n ≡ n
unfolding effects effect
effects-acked id now none peer n = refl
effects-acked id now (some AckKind.delivered) peer n = refl
effects-acked id now (some AckKind.read) peer n = refl

module _ (c : Primitives) (aead : Aead) where
  -- Whether a payload is a message that this node can read.
  abbrev is_message : Ports → Bytes → Bytes → Bool
  is_message ports kind body =
      kind == kind_message
      && elim (read_message c aead ports.signing_seed body) [ none ↦ false | some p ↦ true ]

  -- The counter of a peer by the calls alone.
  abbrev pub counted : Operation → Bytes → ℕ → ℕ
  counted (send_message ports call to body) peer n = n
  counted (receive ports now src kind body) peer n =
      if is_message ports kind body && hex src == peer then n + 1 else n
  counted (read_up_to other up_to) peer n = if peer == other then 0 else n
  counted (delete_peer other) peer n = if peer == hex other then 0 else n
  counted delete_everything peer n = 0
  counted (forget_peer other) peer n = if peer == hex other then 0 else n

  abbrev pub tally : List Operation → Bytes → ℕ → ℕ
  tally [] peer n = n
  tally (o ∷ os) peer n = tally os peer (counted o peer n)

  effects-sending :
      (call : SendCall) (to : NodeId) (body : Bytes) (key : Option Bytes) (peer : Bytes) (n : ℕ)
      → effects (sending c aead call to body key) peer n ≡ n
  unfolding effects
  effects-sending call to body none peer n = refl
  effects-sending call to body (some key) peer n =
      elim (Result-cases (e2e_encrypt c aead call.ephemeral_secret call.nonce body key)) [
        | inl (ciphertext, e) ↦
            rw (e, effects-note_sent to call.message_id body call.timestamp_ms peer n)
              (effects-settled call.routed (hex call.message_id) call.later_ms peer n)
        | inr (x, e) ↦ rw (e) (effects-note_sent to call.message_id body call.timestamp_ms peer n)
      ]

  effects-answering :
      (now : ℕ) (decoded : Result WireError DecodedAck) (peer : Bytes) (n : ℕ)
      → effects (answering c aead now decoded) peer n ≡ n
  effects-answering now (err e) peer n = unfold effects in refl
  effects-answering now (ok d) peer n =
      effects-acked (hex d.message_id) now (from_u8 d.ack_kind) peer n

  effects-changes :
      (o : Operation) (peer : Bytes) (n : ℕ) → effects (changes c aead o) peer n ≡ counted o peer n
  unfolding changes effects effect received_record
  effects-changes (send_message ports call to body) peer n =
      elim (Bool-cases (ltb max_body_bytes (length body))) [
        | inl long ↦ rw long refl
        | inr short ↦ rw short (effects-sending call to body (ports.lookup_x25519 to) peer n)
      ]
  effects-changes (receive ports now src kind body) peer n =
      elim (Bool-cases (kind == kind_message)) [
        | inl hit ↦ elim (Option-cases (read_message c aead ports.signing_seed body)) [
          | inl e ↦ rw (hit, e) refl
          | inr ((decoded, text), e) ↦ rw (hit, e) refl
        ]
        | inr miss ↦ elim (Bool-cases (kind == kind_ack)) [
          | inl hit ↦ rw (miss, hit) (effects-answering now (decode_ack body) peer n)
          | inr other ↦ rw (miss, other) refl
        ]
      ]
  effects-changes (read_up_to other up_to) peer n = refl
  effects-changes (delete_peer other) peer n = refl
  effects-changes delete_everything peer n = refl
  effects-changes (forget_peer other) peer n = refl

  -- The counter of each peer's unread messages is a count of the calls: one more for each message
  -- that arrives from the peer and can be read, and 0 again when the peer is marked as read,
  -- deleted or forgotten, or all is deleted.
  pub run-tally :
      (os : List Operation) (s : MessagingService) (peer : Bytes)
      → IsListed s.storage
      → unread_of (run c aead os s).storage peer ≡ tally os peer (unread_of s.storage peer)
  unfolding run
  run-tally [] s peer h = refl
  run-tally (o ∷ os) s peer h =
      run-tally os (step c aead o s) peer (step-IsListed c aead o s h)
      ∙ ap (tally os peer) (
          ap (λ (t : MessagingStorage). unread_of t peer) (storage-step c aead o s)
          ∙ apply_each-unread (changes c aead o) s.storage peer h
          ∙ effects-changes o peer (unread_of s.storage peer))
