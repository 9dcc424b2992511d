-- ===== src/Daemon/PeerDirectory/Keys.antt =====
-- crates/pim-daemon/src/peer_directory.rs: which calls change the key that is known of a peer.
use native.Mathlib.Omega.{arith}
use proximity_internet_mesh.Base.{
  ℕ, ◌≡◌, ◌≢◌, refl, sym, ap, ◌∙◌, inl, inr, Bytes, Bool, true, false, Bool-cases, Option, none,
  some, Option-cases, length, nat_eq, All, IsByte, ◌==◌, bytes_eq, ==→eq, ==→ne, if◌then◌else◌,
}
use proximity_internet_mesh.Base.Map.{
  Map, lookup, insert, lookup-insert, lookup-insert_self, lookup-insert_ne,
}
use proximity_internet_mesh.Core.{NodeId}
use proximity_internet_mesh.Core.Hex.{hex, parse_node_id, parse_node_id-hex}
use proximity_internet_mesh.Daemon.PeerDirectory.{
  PeerRow, PeerDirectory, PeerInfoSource, ImportOutcome, inserted, refreshed, key_mismatch, emit,
  seen, upsert_peer_seen_blocking, record_peer_seen, first_seen, import_blocking, fresh, refresh,
  set_name, usable_key, announce, import_identity_if_compatible, lookup_x25519,
}

-- Announcements leave the table of keys.
lookup_x25519-announce :
    (j peer : NodeId) (key : Bytes) (name : Option Bytes) (outcome : ImportOutcome)
    (d : PeerDirectory)
    → lookup_x25519 j (announce peer key name outcome d) ≡ lookup_x25519 j d
unfolding lookup_x25519
lookup_x25519-announce j peer key name (key_mismatch existing) d = refl
lookup_x25519-announce j peer key name inserted d = refl
lookup_x25519-announce j peer key name refreshed d = refl

-- What an import leaves of the row of a key.
abbrev Kept : Option PeerRow → Option PeerRow → Type 0
Kept old new = (k : Bytes) → usable_key old ≡ some k → usable_key new ≡ some k

key-refresh :
    (name : Option Bytes) (now : ℕ) (r : PeerRow) → (refresh name now r).x25519_pub ≡ r.x25519_pub
key-refresh none now r = refl
key-refresh (some name) now r = refl

usable_key-refresh :
    (name : Option Bytes) (now : ℕ) (r : PeerRow)
    → usable_key (some (refresh name now r)) ≡ usable_key (some r)
usable_key-refresh none now r = refl
usable_key-refresh (some name) now r = refl

insert-Kept :
    (peer j : Bytes) (r : PeerRow) (rows : Map Bytes PeerRow)
    → Kept (lookup peer rows) (some r)
    → Kept (lookup j rows) (lookup j (insert peer r rows))
insert-Kept peer j r rows h k found = elim (Bool-cases (peer == j)) [
  | inl hit ↦
      let same : peer ≡ j = ==→eq peer j hit in
      let new = lookup-insert peer j r rows in
      ap usable_key new ∙ rw hit (h k (ap (λ (i : Bytes). usable_key (lookup i rows)) same ∙ found))
  | inr miss ↦ let new = lookup-insert peer j r rows in ap usable_key new ∙ rw miss found
]

import_blocking-Kept :
    (peer j : NodeId) (key : Bytes) (name : Option Bytes) (now : ℕ) (d : PeerDirectory)
    → Kept
        (lookup (hex j) d.peers_seen)
        (lookup (hex j) (import_blocking peer key name now d).1.peers_seen)
unfolding import_blocking
import_blocking-Kept peer j key name now d = elim (Option-cases (lookup (hex peer) d.peers_seen)) [
  | inl unknown ↦
      rw (import_blocking, unknown)
        (insert-Kept (hex peer) (hex j) (fresh key name now) d.peers_seen
          (λ k found. absurd (let gone = rw unknown at found in cc)))
  | inr (r, known) ↦ elim (Bool-cases (r.x25519_pub == key)) [
    | inl same ↦
        rw (import_blocking, known, same)
          (insert-Kept (hex peer) (hex j) (refresh (set_name name) now r) d.peers_seen (λ k found.
            usable_key-refresh (set_name name) now r ∙ (let had = rw known at found in had)))
    | inr other ↦ rw (import_blocking, known, other) (λ k found. found)
  ]
]

-- Either the peer has the imported key in the end, or a different key stood there and nothing is
-- changed.
abbrev pub IsDecided : NodeId → Bytes → PeerDirectory → ImportOutcome → PeerDirectory → Type 0
IsDecided peer key d (key_mismatch shown) e =
    (r : PeerRow) × (lookup (hex peer) d.peers_seen ≡ some r)
    × (r.x25519_pub ≢ key)
    × (shown ≡ hex r.x25519_pub)
    × (e ≡ d)
IsDecided peer key d inserted e =
    (lookup (hex peer) d.peers_seen ≡ none) × (lookup_x25519 peer e ≡ some key)
IsDecided peer key d refreshed e =
    (lookup_x25519 peer d ≡ some key) × (lookup_x25519 peer e ≡ some key)

usable :
    (key : Bytes) (r : PeerRow)
    → length key ≡ 32
    → r.x25519_pub ≡ key
    → usable_key (some r) ≡ some key
usable key r n same =
    let size : nat_eq (length key) 32 ≡ true = ground arith in rw (same, size) refl

import_blocking-IsDecided :
    (peer : NodeId) (key : Bytes) (name : Option Bytes) (now : ℕ) (d : PeerDirectory)
    → length key ≡ 32
    → let (outcome, e) = import_blocking peer key name now d in IsDecided peer key d outcome e
unfolding import_blocking lookup_x25519
import_blocking-IsDecided peer key name now d n =
    let rows = d.peers_seen in
    elim (Option-cases (lookup (hex peer) rows)) [
      | inl unknown ↦
          rw (import_blocking, unknown)
            (
              unknown,
              ap usable_key (lookup-insert_self (hex peer) (fresh key name now) rows)
                  ∙ usable key (fresh key name now) n refl,
            )
      | inr (r, known) ↦ elim (Bool-cases (r.x25519_pub == key)) [
        | inl same ↦
            let key' : r.x25519_pub ≡ key = ==→eq r.x25519_pub key same in
            let next = refresh (set_name name) now r in
            rw (import_blocking, known, same)
              (
                ap usable_key known ∙ usable key r n key',
                ap usable_key (lookup-insert_self (hex peer) next rows)
                    ∙ usable key next n (key-refresh (set_name name) now r ∙ key'),
              )
        | inr other ↦
            rw (import_blocking, known, other) (r, known, ==→ne r.x25519_pub key other, refl, refl)
      ]
    ]

announce-IsDecided :
    (peer : NodeId) (key : Bytes) (name : Option Bytes) (d : PeerDirectory)
    (outcome : ImportOutcome) (e : PeerDirectory)
    → IsDecided peer key d outcome e
    → IsDecided peer key d outcome (announce peer key name outcome e)
unfolding lookup_x25519
announce-IsDecided peer key name d (key_mismatch shown) e h = h
announce-IsDecided peer key name d inserted e h = h
announce-IsDecided peer key name d refreshed e h = h

-- An import changes no key that is known, of any peer. With a key of 32 bytes, either the peer has
-- this key in the end, new or as before; or another key stood there, which is shown, and nothing at
-- all is changed.
pub import_identity_if_compatible-lookup_x25519 :
    (peer : NodeId) (key : Bytes) (name : Option Bytes) (now : ℕ) (d : PeerDirectory)
    → length key ≡ 32
    → let (outcome, e) = import_identity_if_compatible peer key name now d in
      ((j : NodeId) (k : Bytes) → lookup_x25519 j d ≡ some k → lookup_x25519 j e ≡ some k)
      × IsDecided peer key d outcome e
unfolding import_identity_if_compatible
import_identity_if_compatible-lookup_x25519 peer key name now d n =
    let (outcome, e) = import_blocking peer key name now d in
    (
      λ j k found.
          lookup_x25519-announce j peer key (set_name name) outcome e
          ∙ (unfold lookup_x25519 in import_blocking-Kept peer j key name now d k found),
      announce-IsDecided peer key (set_name name) d outcome e
          (import_blocking-IsDecided peer key name now d n),
    )

-- Two identifiers with the same text are the same.
pub hex-injective :
    (a b : NodeId)
    → length a ≡ 16
    → All IsByte a
    → length b ≡ 16
    → All IsByte b
    → hex a ≡ hex b
    → a ≡ b
hex-injective a b m p n q e =
    let back = sym (parse_node_id-hex a m p) ∙ ap parse_node_id e ∙ parse_node_id-hex b n q in cc

lookup_x25519-emit :
    (emit_event : Bool) (peer : NodeId) (key name : Bytes) (source : PeerInfoSource) (j : NodeId)
    (d : PeerDirectory)
    → lookup_x25519 j (if emit_event then emit (seen peer key name source) d else d)
      ≡ lookup_x25519 j d
unfolding lookup_x25519
lookup_x25519-emit true peer key name source j d = refl
lookup_x25519-emit false peer key name source j d = refl

-- A peer that is seen is known by the key of that message from then on, whichever was known before,
-- and the keys of all other peers stay.
pub record_peer_seen-lookup_x25519 :
    (peer j : NodeId) (key name : Bytes) (now : ℕ) (source : PeerInfoSource) (emit_event : Bool)
    (d : PeerDirectory)
    → length key ≡ 32
    → length peer ≡ 16
    → All IsByte peer
    → length j ≡ 16
    → All IsByte j
    → lookup_x25519 j (record_peer_seen peer key name now source emit_event d).1
      ≡ (if peer == j then some key else lookup_x25519 j d)
unfolding record_peer_seen upsert_peer_seen_blocking
record_peer_seen-lookup_x25519 peer j key name now source emit_event d n a p b q =
    let rows = d.peers_seen in
    let row : PeerRow = record {
      x25519_pub = key;
      last_known_name = name;
      first_seen_ms = first_seen now (lookup (hex peer) rows);
      last_seen_ms = now;
    } in
    lookup_x25519-emit emit_event peer key name source j
      (upsert_peer_seen_blocking peer key name now d).1
    ∙ (unfold lookup_x25519 in
        elim (Bool-cases (peer == j)) [
          | inl hit ↦
              let same : peer ≡ j = ==→eq peer j hit in
              let found = lookup-insert_self (hex peer) row rows in
              rw (hit, ← same) (ap usable_key found ∙ usable key row n refl)
          | inr miss ↦
              let apart : hex peer ≢ hex j =
                λ e. ==→ne peer j miss (hex-injective peer j a p b q e) in
              rw miss (ap usable_key (lookup-insert_ne (hex peer) (hex j) row rows apart))
        ])
