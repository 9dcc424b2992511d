-- ===== src/Daemon/PeerCleanup.antt =====
-- crates/pim-daemon/src/peer_cleanup: the sweeps that forget peers which were long out of reach
-- (mesh_identity.rs, rfcomm.rs, bluetooth_pan.rs, wfd.rs). What `bluetoothctl` answers is an
-- argument: the paired devices, or none where it fails, which of them are connected, and which it
-- removes. The order in which a table is listed is that of the map.
pub mod Sweeps
pub mod Identities
use proximity_internet_mesh.Base.{
  ℕ, ◌-◌, ◌*◌, Bytes, Bool, true, false, ◌&&◌, ◌||◌, not, Option, none, some, List, [], ◌∷◌, ltb,
  Eq, ◌==◌, bytes_eq, if◌then◌else◌,
}
use proximity_internet_mesh.Base.Map.{Map, remove, contains}
use proximity_internet_mesh.Core.{NodeId}
use proximity_internet_mesh.Core.Hex.{from_str}
use proximity_internet_mesh.Daemon.PeerDirectory.{PeerRow, PeerDirectory, LifecycleRecord, forget}
use proximity_internet_mesh.Daemon.PeerDirectory.Lifecycle.{Table, freshness, forget_row}

pub record Bluetoothctl : Type 0 where
  pub paired : Option (List Bytes)
  pub is_connected : Bytes → Bool
  pub is_removed : Bytes → Bool

-- `age_s > lifetime_s`
abbrev pub is_due : (now_s lifetime_s : ℕ) → LifecycleRecord → Bool
is_due now_s lifetime_s r = ltb lifetime_s (now_s - freshness r)

-- Whether the row of a Bluetooth device is forgotten.
abbrev pub is_gone : Bluetoothctl → List Bytes → ℕ → ℕ → Bytes → LifecycleRecord → Bool
is_gone b paired now_s lifetime_s addr r =
    not (contains addr paired)
    || is_due now_s lifetime_s r && (not (b.is_connected addr) && b.is_removed addr)

-- The loop over the rows that were listed.
unfoldable pub sweep_rows : (Bytes → LifecycleRecord → Bool) → Table → Table → Table
unfolding forget_row
sweep_rows gone [] rows = rows
sweep_rows gone ((addr, r) ∷ listed) rows =
    sweep_rows gone listed (if gone addr r then (forget_row addr rows).1 else rows)

abbrev pub sweep_paired : Bluetoothctl → Option (List Bytes) → ℕ → ℕ → Table → Table
sweep_paired b none now_s lifetime_s rows = rows
sweep_paired b (some paired) now_s lifetime_s rows =
    sweep_rows (is_gone b paired now_s lifetime_s) rows rows

unfoldable pub sweep_rfcomm : Bluetoothctl → ℕ → ℕ → PeerDirectory → PeerDirectory
unfolding sweep_rows contains
sweep_rfcomm b now_s lifetime_s d = record d {
  rfcomm_peer_lifecycle = sweep_paired b b.paired now_s lifetime_s d.rfcomm_peer_lifecycle;
}

unfoldable pub sweep_pan : Bluetoothctl → ℕ → ℕ → PeerDirectory → PeerDirectory
unfolding sweep_rows contains
sweep_pan b now_s lifetime_s d = record d {
  bluetooth_pan_lifecycle = sweep_paired b b.paired now_s lifetime_s d.bluetooth_pan_lifecycle;
}

unfoldable pub sweep_wfd : ℕ → ℕ → PeerDirectory → PeerDirectory
unfolding sweep_rows
sweep_wfd now_s lifetime_s d = record d {
  wfd_peer_lifecycle =
      sweep_rows (λ mac r. is_due now_s lifetime_s r) d.wfd_peer_lifecycle d.wfd_peer_lifecycle;
}

-- The identifiers of the peers last seen before a time; a row with an unreadable one is skipped.
unfoldable pub list_peers_older_than : ℕ → Map Bytes PeerRow → List NodeId
unfolding from_str
list_peers_older_than threshold_ms [] = []
list_peers_older_than threshold_ms ((text, r) ∷ rows) =
    let rest = list_peers_older_than threshold_ms rows in
    if ltb r.last_seen_ms threshold_ms
    then elim (from_str text) [ none ↦ rest | some peer ↦ peer ∷ rest ]
    else rest

unfoldable pub forget_each : (active : List NodeId) → List NodeId → PeerDirectory → PeerDirectory
unfolding contains forget
forget_each active [] d = d
forget_each active (peer ∷ stale) d =
    forget_each active stale (if contains peer active then d else (forget peer d).1)

-- `active` are the peers with a session.
unfoldable pub sweep_identities : (active : List NodeId) → ℕ → ℕ → PeerDirectory → PeerDirectory
unfolding list_peers_older_than forget_each
sweep_identities active now_s lifetime_s d =
    forget_each active (list_peers_older_than ((now_s - lifetime_s) * 1000) d.peers_seen) d
