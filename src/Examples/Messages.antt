-- ===== src/Examples/Messages.antt =====
-- Messages, their encryption and announcements, crates/pim-messaging, pim-crypto/src/e2e.rs and
-- pim-discovery/src/advertisement.rs, with toy primitives.
use native.Mathlib.Omega.{arith}
use proximity_internet_mesh.Base.{
  ℕ, ◌≡◌, refl, bytes_eq, Bytes, true, none, some, ok, List, [], ◌∷◌, ◌++◌, replicate, concat,
}
use proximity_internet_mesh.Base.Map.{lookup}
use proximity_internet_mesh.Crypto.E2e.{x25519_public_from_seed, e2e_encrypt, e2e_decrypt}
use proximity_internet_mesh.Crypto.E2e.RoundTrip.{e2e_decrypt-e2e_encrypt}
use proximity_internet_mesh.Discovery.Advertisement.{
  DiscoveryAdvertisement, serialize_encrypted, plaintext_bytes, deserialize_encrypted,
}
use proximity_internet_mesh.Discovery.Advertisement.RoundTrip.{
  deserialize_encrypted-serialize_encrypted,
}
use proximity_internet_mesh.Protocol.Utf8.{is_utf8, scan, scan_byte, lead}
use proximity_internet_mesh.Protocol.Control
use proximity_internet_mesh.Core.Hex.{hex}
use proximity_internet_mesh.Messaging.Wire.{kind_message, kind_ack}
use proximity_internet_mesh.Messaging.Storage.{
  MessageDirection, MessageStatus, MessageRecord, MessagingStorage, with_status,
}
use proximity_internet_mesh.Messaging.Service.{Ports, SendCall, MessagingService, send, sent_record}
use proximity_internet_mesh.Messaging.Incoming.{handle_payload}
use proximity_internet_mesh.Messaging.Delivery.Rows.{arrived}
use proximity_internet_mesh.Messaging.Delivery.{handle_payload-send}
use proximity_internet_mesh.Messaging.Steps.{
  Operation, send_message, receive, read_up_to, delete_peer, run,
}
use proximity_internet_mesh.Messaging.Steps.Listed.{IsListed, empty-IsListed, run-IsListed}
use proximity_internet_mesh.Messaging.Steps.Unread.{unread_of, tally, run-tally}
use proximity_internet_mesh.Examples.Sessions.{toy_aead, toy_primitives, padded}

abbrev seed : Bytes
seed = replicate 32 5

abbrev alice : Bytes
alice = replicate 16 1

abbrev bob : Bytes
bob = replicate 16 2

abbrev id : Bytes
id = replicate 16 7

abbrev nonce : Bytes
nonce = replicate 12 3

-- "hi"
abbrev body : Bytes
body = 104 ∷ 105 ∷ []

e2e_decrypt-e2e_encrypt_example :
    (frame : Bytes) × (e2e_encrypt toy_primitives toy_aead
        (4 ∷ [])
        nonce
        body
        (x25519_public_from_seed toy_primitives seed)
      ≡ ok frame)
    × (e2e_decrypt toy_primitives toy_aead seed frame ≡ ok body)
e2e_decrypt-e2e_encrypt_example =
    e2e_decrypt-e2e_encrypt toy_primitives toy_aead (4 ∷ []) nonce body seed body (padded nonce)
      refl refl

abbrev ports : Ports
ports = record {
  lookup_name = λ peer. none;
  lookup_x25519 = λ peer. some (x25519_public_from_seed toy_primitives seed);
  signing_seed = seed;
}

abbrev call : SendCall
call = record {
  message_id = id;
  ephemeral_secret = 4 ∷ [];
  nonce = nonce;
  timestamp_ms = 1000;
  later_ms = 1001;
  routed = true;
}

abbrev silent : MessagingService
silent = record {
  storage = record { messages = []; conversations_meta = [] };
  events = [];
  frames = [];
}

body-is_utf8 : is_utf8 body ≡ true
unfolding is_utf8 scan scan_byte lead
body-is_utf8 = refl

handle_payload-send_example :
    (message : Bytes) × (ack : Bytes) × (let s' =
        (send toy_primitives toy_aead ports call bob body silent).1 in
      let t' =
        handle_payload toy_primitives toy_aead ports 2000 alice kind_message message silent in
      let s'' = handle_payload toy_primitives toy_aead ports 3000 bob kind_ack ack s' in
      (s'.frames ≡ [] ++ ((bob, Control.plugin_payload kind_message message) ∷ []))
      × (lookup (hex id) t'.storage.messages ≡ some (arrived alice id body 1000 2000))
      × (t'.frames ≡ [] ++ ((alice, Control.plugin_payload kind_ack ack) ∷ []))
      × (lookup (hex id) s''.storage.messages
          ≡ some (
              with_status MessageStatus.delivered
                (some 3000)
                none
                (with_status MessageStatus.sent none none (sent_record bob id body 1000)))))
handle_payload-send_example =
    handle_payload-send toy_primitives toy_aead ports ports call alice bob body 2000 3000 silent
      silent
      (record {
        short = omega arith;
        text = body-is_utf8;
        id = refl;
        time = omega arith;
        nonce = refl;
        routed = refl;
        known = refl;
        sealed = (body, padded nonce, refl);
      })

-- A frame for this node, and the calls around it.
abbrev arrival : Bytes
arrival = id ++ (replicate 8 0 ++ (replicate 32 9 ++ (nonce ++ (body ++ padded nonce))))

abbrev calls : List Operation
calls =
    receive ports 10 alice kind_message arrival
    ∷ send_message ports call bob body
    ∷ receive ports 11 alice kind_message arrival
    ∷ read_up_to (hex bob) 5
    ∷ delete_peer bob
    ∷ []

run-IsListed_example : IsListed (run toy_primitives toy_aead calls silent).storage
run-IsListed_example = run-IsListed toy_primitives toy_aead calls silent empty-IsListed

run-tally_example :
    unread_of (run toy_primitives toy_aead calls silent).storage (hex alice)
    ≡ tally toy_primitives toy_aead calls (hex alice) (unread_of silent.storage (hex alice))
run-tally_example = run-tally toy_primitives toy_aead calls silent (hex alice) empty-IsListed

abbrev stored : ℕ → Bytes → MessageRecord
stored ts key = record {
  id = key;
  peer_node_id = hex bob;
  direction = MessageDirection.received;
  body = body;
  timestamp_ms = ts;
  status = MessageStatus.delivered;
  failure_reason = none;
  delivered_at_ms = some ts;
  read_at_ms = none;
}

abbrev stock : MessagingStorage
stock = record {
  messages =
      (1 ∷ [], stored 5 (1 ∷ [])) ∷ (2 ∷ [], stored 9 (2 ∷ [])) ∷ (3 ∷ [], stored 7 (3 ∷ [])) ∷ [];
  conversations_meta = [];
}

abbrev advertisement : DiscoveryAdvertisement
advertisement = record {
  node_id = alice;
  public_key = replicate 32 6;
  capabilities = 3;
  listen_port = 9000;
}

abbrev packet : Bytes
packet = concat (
    (80 ∷ 73 ∷ 77 ∷ 68 ∷ [])
    ∷ (2 ∷ [])
    ∷ nonce
    ∷ concat (
        (80 ∷ 73 ∷ 77 ∷ 68 ∷ [])
        ∷ (1 ∷ [])
        ∷ alice
        ∷ replicate 32 6
        ∷ (3 ∷ [])
        ∷ (35 ∷ 40 ∷ [])
        ∷ [])
    ∷ padded nonce
    ∷ [])

serialize_encrypted-packet : serialize_encrypted toy_aead seed nonce advertisement ≡ some packet
unfolding serialize_encrypted plaintext_bytes
serialize_encrypted-packet = refl

deserialize_encrypted-serialize_encrypted_example :
    deserialize_encrypted toy_aead (packet ++ (0 ∷ [])) seed ≡ some advertisement
deserialize_encrypted-serialize_encrypted_example =
    deserialize_encrypted-serialize_encrypted toy_aead seed nonce packet (0 ∷ []) advertisement
      (record { node_id = refl; public_key = refl; port = omega arith }) refl
      serialize_encrypted-packet
