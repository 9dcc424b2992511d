-- ===== src/Daemon/PeerDirectory/Lifecycle.antt =====
-- crates/pim-daemon/src/peer_directory.rs: when peers were first seen and last connected over each
-- transport. The three tables have the same calls.
use proximity_internet_mesh.Base.{ℕ, max, Bytes, Bool, Option, none, some, [], bytes_eq}
use proximity_internet_mesh.Base.Map.{Map, lookup, insert, remove, contains_key}
use proximity_internet_mesh.Daemon.PeerDirectory.{PeerDirectory, LifecycleRecord}

abbrev pub Table : Type 0
Table = Map Bytes LifecycleRecord

-- `INSERT .. ON CONFLICT DO NOTHING`
unfoldable pub observe : Bytes → Bytes → ℕ → Table → Table
unfolding lookup insert
observe addr name now_s rows = elim (lookup addr rows) [
  | none ↦
      insert addr (record { name = name; first_paired_at_s = now_s; last_connected_at_s = none })
        rows
  | some r ↦ rows
]

-- `MAX(COALESCE(last_connected_at_s, 0), excluded.last_connected_at_s)`
abbrev pub later : Option ℕ → ℕ → ℕ
later none now_s = max 0 now_s
later (some at_s) now_s = max at_s now_s

abbrev pub connected_row : Bytes → ℕ → Option LifecycleRecord → LifecycleRecord
connected_row name now_s none = record {
  name = name;
  first_paired_at_s = now_s;
  last_connected_at_s = some now_s;
}
connected_row name now_s (some r) = record r {
  last_connected_at_s = some (later r.last_connected_at_s now_s);
}

unfoldable pub record_connected : Bytes → Bytes → ℕ → Table → Table
unfolding lookup insert
record_connected addr name now_s rows =
    insert addr (connected_row name now_s (lookup addr rows)) rows

-- `MAX(first_paired_at_s, COALESCE(last_connected_at_s, first_paired_at_s))`, of one row.
abbrev pub freshness : LifecycleRecord → ℕ
freshness r =
    max r.first_paired_at_s
      (elim r.last_connected_at_s [ none ↦ r.first_paired_at_s | some at_s ↦ at_s ])

abbrev pub fresh_at : Option LifecycleRecord → Option ℕ
fresh_at none = none
fresh_at (some r) = some (freshness r)

unfoldable pub last_seen : Bytes → Table → Option ℕ
unfolding lookup
last_seen addr rows = fresh_at (lookup addr rows)

unfoldable pub forget_row : Bytes → Table → Bool × Table
unfolding lookup remove
forget_row addr rows = (contains_key addr rows, remove addr rows)

unfoldable pub observe_rfcomm_paired : Bytes → Bytes → ℕ → PeerDirectory → PeerDirectory
unfolding observe
observe_rfcomm_paired bd_addr name now_s d = record d {
  rfcomm_peer_lifecycle = observe bd_addr name now_s d.rfcomm_peer_lifecycle;
}

unfoldable pub record_rfcomm_connected : Bytes → Bytes → ℕ → PeerDirectory → PeerDirectory
unfolding record_connected
record_rfcomm_connected bd_addr name now_s d = record d {
  rfcomm_peer_lifecycle = record_connected bd_addr name now_s d.rfcomm_peer_lifecycle;
}

unfoldable pub rfcomm_last_seen : Bytes → PeerDirectory → Option ℕ
unfolding last_seen
rfcomm_last_seen bd_addr d = last_seen bd_addr d.rfcomm_peer_lifecycle

unfoldable pub forget_rfcomm_peer : Bytes → PeerDirectory → Bool × PeerDirectory
unfolding forget_row
forget_rfcomm_peer bd_addr d =
    let (gone, rows) = forget_row bd_addr d.rfcomm_peer_lifecycle in
    (gone, record d { rfcomm_peer_lifecycle = rows })

unfoldable pub observe_pan_paired : Bytes → Bytes → ℕ → PeerDirectory → PeerDirectory
unfolding observe
observe_pan_paired bd_addr name now_s d = record d {
  bluetooth_pan_lifecycle = observe bd_addr name now_s d.bluetooth_pan_lifecycle;
}

unfoldable pub record_pan_connected : Bytes → Bytes → ℕ → PeerDirectory → PeerDirectory
unfolding record_connected
record_pan_connected bd_addr name now_s d = record d {
  bluetooth_pan_lifecycle = record_connected bd_addr name now_s d.bluetooth_pan_lifecycle;
}

unfoldable pub forget_pan_peer : Bytes → PeerDirectory → Bool × PeerDirectory
unfolding forget_row
forget_pan_peer bd_addr d =
    let (gone, rows) = forget_row bd_addr d.bluetooth_pan_lifecycle in
    (gone, record d { bluetooth_pan_lifecycle = rows })

unfoldable pub observe_wfd_peer : Bytes → ℕ → PeerDirectory → PeerDirectory
unfolding observe
observe_wfd_peer mac now_s d = record d {
  wfd_peer_lifecycle = observe mac [] now_s d.wfd_peer_lifecycle;
}

unfoldable pub record_wfd_connected : Bytes → ℕ → PeerDirectory → PeerDirectory
unfolding record_connected
record_wfd_connected mac now_s d = record d {
  wfd_peer_lifecycle = record_connected mac [] now_s d.wfd_peer_lifecycle;
}

unfoldable pub forget_wfd_peer : Bytes → PeerDirectory → Bool × PeerDirectory
unfolding forget_row
forget_wfd_peer mac d =
    let (gone, rows) = forget_row mac d.wfd_peer_lifecycle in
    (gone, record d { wfd_peer_lifecycle = rows })
