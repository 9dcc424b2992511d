-- ===== src/Daemon/PeerCleanup/Sweeps.antt =====
-- crates/pim-daemon/src/peer_cleanup: what the sweeps over the devices leave of each table.
use native.Mathlib.Omega.{arith}
use proximity_internet_mesh.Base.{
  ℕ, ◌-◌, ◌≡◌, refl, ap, ◌∙◌, inl, inr, Bytes, Bool, ◌&&◌, ◌||◌, not, Bool-cases, Option, none,
  some, List, [], ◌∷◌, leb, bytes_eq, if◌then◌else◌,
}
use proximity_internet_mesh.Base.Map.{
  lookup, remove, contains, keys_where, IsDistinct, lookup-remove, contains-keys_where, passing,
  passes,
}
use proximity_internet_mesh.Daemon.PeerDirectory.{PeerDirectory, LifecycleRecord}
use proximity_internet_mesh.Daemon.PeerDirectory.Lifecycle.{Table, forget_row, freshness}
use proximity_internet_mesh.Daemon.PeerCleanup.{
  Bluetoothctl, is_due, is_gone, sweep_rows, sweep_rfcomm, sweep_pan, sweep_wfd,
}

-- What a sweep leaves of a key, by the rows that it goes through.
lookup-sweep_rows_of :
    (gone : Bytes → LifecycleRecord → Bool) (listed rows : Table) (k : Bytes)
    → lookup k (sweep_rows gone listed rows)
      ≡ (if contains k (keys_where gone listed) then none else lookup k rows)
unfolding sweep_rows forget_row contains keys_where
lookup-sweep_rows_of gone [] rows k = refl
lookup-sweep_rows_of gone ((addr, r) ∷ listed) rows k = elim (Bool-cases (gone addr r)) [
  | inl hit ↦ rw hit (
      lookup-sweep_rows_of gone listed (remove addr rows) k
      ∙ (let cut = lookup-remove addr k rows in ground arith))
  | inr miss ↦ rw miss (lookup-sweep_rows_of gone listed rows k)
]

if-passes :
    (gone : Bytes → LifecycleRecord → Bool) (k : Bytes) (o : Option LifecycleRecord)
    → (if passes gone k o then none else o) ≡ passing (λ j r. not (gone j r)) k o
if-passes gone k none = ground arith
if-passes gone k (some r) = ground arith

lookup-sweep_rows :
    (gone : Bytes → LifecycleRecord → Bool) (rows : Table) (k : Bytes)
    → IsDistinct rows
    → lookup k (sweep_rows gone rows rows) ≡ passing (λ j r. not (gone j r)) k (lookup k rows)
lookup-sweep_rows gone rows k d =
    lookup-sweep_rows_of gone rows rows k
    ∙ ap (λ (b : Bool). if b then none else lookup k rows) (contains-keys_where gone k rows d)
    ∙ if-passes gone k (lookup k rows)

passing_same :
    (p q : Bytes → LifecycleRecord → Bool) (k : Bytes) (o : Option LifecycleRecord)
    → ((j : Bytes) (r : LifecycleRecord) → p j r ≡ q j r)
    → passing p k o ≡ passing q k o
passing_same p q k none same = refl
passing_same p q k (some r) same = ap (λ (b : Bool). if b then some r else none) (same k r)

-- What is kept by a sweep of paired devices.
abbrev pub stays : Bluetoothctl → List Bytes → ℕ → ℕ → Bytes → LifecycleRecord → Bool
stays b paired now_s lifetime_s addr r =
    contains addr paired
    && (leb (now_s - freshness r) lifetime_s || (b.is_connected addr || not (b.is_removed addr)))

stays-is_gone :
    (b : Bluetoothctl) (paired : List Bytes) (now_s lifetime_s : ℕ) (addr : Bytes)
    (r : LifecycleRecord)
    → not (is_gone b paired now_s lifetime_s addr r) ≡ stays b paired now_s lifetime_s addr r
stays-is_gone b paired now_s lifetime_s addr r = ground arith

lookup-sweep_paired :
    (b : Bluetoothctl) (paired : List Bytes) (now_s lifetime_s : ℕ) (rows : Table) (k : Bytes)
    → IsDistinct rows
    → lookup k (sweep_rows (is_gone b paired now_s lifetime_s) rows rows)
      ≡ passing (stays b paired now_s lifetime_s) k (lookup k rows)
lookup-sweep_paired b paired now_s lifetime_s rows k distinct =
    lookup-sweep_rows (is_gone b paired now_s lifetime_s) rows k distinct
    ∙ passing_same (λ j r. not (is_gone b paired now_s lifetime_s j r))
        (stays b paired now_s lifetime_s) k (lookup k rows)
        (stays-is_gone b paired now_s lifetime_s)

-- When `bluetoothctl` lists the paired devices, the sweeps of the RFCOMM and of the PAN devices keep
-- the row of a device exactly if it is still paired, and was seen within the lifetime, is connected
-- or is not removed by `bluetoothctl`; that of the Wi-Fi Direct devices keeps those seen within the
-- lifetime.
pub sweeps-lookup :
    (b : Bluetoothctl) (paired : List Bytes) (now_s lifetime_s : ℕ) (d : PeerDirectory) (k : Bytes)
    → IsDistinct d.rfcomm_peer_lifecycle
    → IsDistinct d.bluetooth_pan_lifecycle
    → IsDistinct d.wfd_peer_lifecycle
    → b.paired ≡ some paired
    → (lookup k (sweep_rfcomm b now_s lifetime_s d).rfcomm_peer_lifecycle
        ≡ passing (stays b paired now_s lifetime_s) k (lookup k d.rfcomm_peer_lifecycle))
      × (lookup k (sweep_pan b now_s lifetime_s d).bluetooth_pan_lifecycle
          ≡ passing (stays b paired now_s lifetime_s) k (lookup k d.bluetooth_pan_lifecycle))
      × (lookup k (sweep_wfd now_s lifetime_s d).wfd_peer_lifecycle
          ≡ passing
              (λ mac r. leb (now_s - freshness r) lifetime_s)
              k
              (lookup k d.wfd_peer_lifecycle))
unfolding sweep_rfcomm sweep_pan sweep_wfd
sweeps-lookup b paired now_s lifetime_s d k rf pan wfd list = (
  rw (sweep_rfcomm, list)
      (lookup-sweep_paired b paired now_s lifetime_s d.rfcomm_peer_lifecycle k rf),
  rw (sweep_pan, list)
      (lookup-sweep_paired b paired now_s lifetime_s d.bluetooth_pan_lifecycle k pan),
  lookup-sweep_rows (λ mac r. is_due now_s lifetime_s r) d.wfd_peer_lifecycle k wfd
      ∙ passing_same (λ mac r. not (is_due now_s lifetime_s r))
          (λ mac r. leb (now_s - freshness r) lifetime_s) k (lookup k d.wfd_peer_lifecycle)
          (λ mac r. ground arith),
)
