-- ===== src/Daemon/PeerDirectory.antt =====
-- crates/pim-daemon/src/peer_directory.rs: the keys of peers, and when peers were reachable over
-- RFCOMM, Bluetooth PAN and Wi-Fi Direct. Times are of the system clock, after 1970. A failure of the
-- database is not modelled; the events are those sent to the subscribers, the latest last.
pub mod Keys
pub mod Lifecycle
use proximity_internet_mesh.Base.{
  ℕ, ◌<◌, max, Bytes, Bool, true, false, not, Option, none, some, List, [], ◌∷◌, ◌++◌, length, ltb,
  nat_eq, Eq, ◌==◌, bytes_eq, if◌then◌else◌,
}
use proximity_internet_mesh.Base.Map.{Map, lookup, insert, remove, contains_key}
use proximity_internet_mesh.Core.{NodeId}
use proximity_internet_mesh.Core.Hex.{hex}

pub data PeerInfoSource : Type 0 where
  direct routed : PeerInfoSource

pub data PeerDirectoryEvent : Type 0 where
  seen : NodeId → (x25519_pub name : Bytes) → PeerInfoSource → PeerDirectoryEvent
  forgotten : NodeId → PeerDirectoryEvent

pub data ImportOutcome : Type 0 where
  inserted refreshed : ImportOutcome
  key_mismatch : (existing_x25519_hex : Bytes) → ImportOutcome

-- A row of `peers_seen`.
pub record PeerRow : Type 0 where
  pub x25519_pub : Bytes
  pub last_known_name : Bytes
  pub first_seen_ms : ℕ
  pub last_seen_ms : ℕ

-- A row of `rfcomm_peer_lifecycle` or `bluetooth_pan_lifecycle`; and of `wfd_peer_lifecycle`, where
-- the first time is `first_seen_at_s` and there is no name.
pub record LifecycleRecord : Type 0 where
  pub name : Bytes
  pub first_paired_at_s : ℕ
  pub last_connected_at_s : Option ℕ

pub record PeerDirectory : Type 0 where
  pub peers_seen : Map Bytes PeerRow
  pub rfcomm_peer_lifecycle : Map Bytes LifecycleRecord
  pub bluetooth_pan_lifecycle : Map Bytes LifecycleRecord
  pub wfd_peer_lifecycle : Map Bytes LifecycleRecord
  pub events : List PeerDirectoryEvent

abbrev pub emit : PeerDirectoryEvent → PeerDirectory → PeerDirectory
emit e d = record d { events = d.events ++ (e ∷ []) }

-- The first time of a row stays, if there is one.
abbrev pub first_seen : ℕ → Option PeerRow → ℕ
first_seen now none = now
first_seen now (some r) = r.first_seen_ms

unfoldable pub upsert_peer_seen_blocking :
    NodeId → Bytes → Bytes → ℕ → PeerDirectory → Bool × PeerDirectory
unfolding lookup insert hex
upsert_peer_seen_blocking peer x25519_pub name now_ms d = (
  not (contains_key (hex peer) d.peers_seen),
  record d {
    peers_seen =
        insert (hex peer)
          (record {
            x25519_pub = x25519_pub;
            last_known_name = name;
            first_seen_ms = first_seen now_ms (lookup (hex peer) d.peers_seen);
            last_seen_ms = now_ms;
          })
          d.peers_seen;
  },
)

unfoldable pub record_peer_seen :
    NodeId → Bytes → Bytes → ℕ → PeerInfoSource → Bool → PeerDirectory → Bool × PeerDirectory
unfolding upsert_peer_seen_blocking
record_peer_seen peer x25519_pub name now_ms source emit_event d =
    let (is_new, e) = upsert_peer_seen_blocking peer x25519_pub name now_ms d in
    (is_new, if emit_event then emit (seen peer x25519_pub name source) e else e)

abbrev pub name_or_empty : Option Bytes → Bytes
name_or_empty none = []
name_or_empty (some name) = name

-- `name_if_set.filter(|s| !s.is_empty())`
abbrev pub set_name : Option Bytes → Option Bytes
set_name none = none
set_name (some name) = if name == [] then none else some name

-- The row of a peer whose key is imported again.
abbrev pub refresh : Option Bytes → ℕ → PeerRow → PeerRow
refresh none now_ms r = record r { last_seen_ms = now_ms }
refresh (some name) now_ms r = record r { last_known_name = name; last_seen_ms = now_ms }

abbrev pub fresh : Bytes → Option Bytes → ℕ → PeerRow
fresh x25519_pub name now_ms = record {
  x25519_pub = x25519_pub;
  last_known_name = name_or_empty name;
  first_seen_ms = now_ms;
  last_seen_ms = now_ms;
}

unfoldable pub import_blocking :
    NodeId → Bytes → Option Bytes → ℕ → PeerDirectory → ImportOutcome × PeerDirectory
unfolding lookup insert hex
import_blocking peer x25519_pub name_if_set now_ms d = elim (lookup (hex peer) d.peers_seen) [
  | none ↦ (
    inserted,
    record d { peers_seen = insert (hex peer) (fresh x25519_pub name_if_set now_ms) d.peers_seen },
  )
  | some r ↦
      if r.x25519_pub == x25519_pub
      then (
        refreshed,
        record d {
          peers_seen = insert (hex peer) (refresh (set_name name_if_set) now_ms r) d.peers_seen;
        },
      )
      else (key_mismatch (hex r.x25519_pub), d)
]

-- A key of another length is not given out.
abbrev pub usable_key : Option PeerRow → Option Bytes
usable_key none = none
usable_key (some r) = if nat_eq (length r.x25519_pub) 32 then some r.x25519_pub else none

unfoldable pub lookup_x25519 : NodeId → PeerDirectory → Option Bytes
unfolding lookup hex
lookup_x25519 peer d = usable_key (lookup (hex peer) d.peers_seen)

abbrev pub name_of : Option PeerRow → Option Bytes
name_of none = none
name_of (some r) = some r.last_known_name

unfoldable pub lookup_name : NodeId → PeerDirectory → Option Bytes
unfolding lookup hex
lookup_name peer d = name_of (lookup (hex peer) d.peers_seen)

-- The name that an import announces.
abbrev pub resolved_name : NodeId → Option Bytes → PeerDirectory → Bytes
resolved_name peer none d = name_or_empty (lookup_name peer d)
resolved_name peer (some name) d = name

abbrev pub announce : NodeId → Bytes → Option Bytes → ImportOutcome → PeerDirectory → PeerDirectory
announce peer x25519_pub name (key_mismatch existing) d = d
announce peer x25519_pub name inserted d =
    emit (seen peer x25519_pub (resolved_name peer name d) direct) d
announce peer x25519_pub name refreshed d =
    emit (seen peer x25519_pub (resolved_name peer name d) direct) d

unfoldable pub import_identity_if_compatible :
    NodeId → Bytes → Option Bytes → ℕ → PeerDirectory → ImportOutcome × PeerDirectory
unfolding import_blocking lookup_name
import_identity_if_compatible peer x25519_pub name_if_set now_ms d =
    let (outcome, e) = import_blocking peer x25519_pub name_if_set now_ms d in
    (outcome, announce peer x25519_pub (set_name name_if_set) outcome e)

unfoldable pub forget_blocking : NodeId → PeerDirectory → Bool × PeerDirectory
unfolding lookup remove hex
forget_blocking peer d =
    (contains_key (hex peer) d.peers_seen, record d { peers_seen = remove (hex peer) d.peers_seen })

unfoldable pub forget : NodeId → PeerDirectory → Bool × PeerDirectory
unfolding forget_blocking
forget peer d =
    let (forgot_identity, e) = forget_blocking peer d in
    (forgot_identity, if forgot_identity then emit (forgotten peer) e else e)
