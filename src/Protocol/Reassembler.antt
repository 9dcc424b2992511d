-- ===== src/Protocol/Reassembler.antt =====
-- crates/pim-protocol/src/reassembler.rs. Time is an argument: `now` is what `Instant::now()` reads,
-- in nanoseconds, and `elapsed` the difference to it, which does not go below 0.
pub mod Sound
pub mod History
pub mod Delivery
use proximity_internet_mesh.Base.{
  ℕ_eq, ℕ, zero, suc, ◌+◌, ◌-◌, ◌≤◌, ◌<◌, ◌≡◌, List, [], ◌∷◌, ◌++◌, arith, Bytes, Bool, true, false,
  not, length, take, drop, replicate, Option, none, some, ltb, leb, nat_eq, if◌then◌else◌,
}
use proximity_internet_mesh.Base.Map.{
  Map, lookup, insert as map_insert, remove as map_remove, retain,
}
use proximity_internet_mesh.Protocol.Fragment.{FragmentFrame}

abbrev pub default_reassembly_timeout : ℕ
default_reassembly_timeout = 10_000_000_000

-- `chunks` is a `BTreeMap`: its list is in ascending order of the offsets.
pub record ReassemblyBuffer : Type 0 where
  pub total_length : ℕ
  pub chunks : List (ℕ × Bytes)
  pub created_at : ℕ

unfoldable pub new_buffer : ℕ → ℕ → ReassemblyBuffer
new_buffer total_length now = record { total_length = total_length; chunks = []; created_at = now }

-- `BTreeMap::entry`: a vacant offset takes the payload, an occupied one keeps what it has.
unfoldable pub insert_chunk : ℕ → Bytes → List (ℕ × Bytes) → List (ℕ × Bytes)
insert_chunk offset payload [] = (offset, payload) ∷ []
insert_chunk offset payload ((o, chunk) ∷ rest) =
    if ltb offset o
    then (offset, payload) ∷ (o, chunk) ∷ rest
    else if nat_eq offset o
    then (o, chunk) ∷ rest
    else (o, chunk) ∷ insert_chunk offset payload rest

-- The first loop of `try_reassemble`: how far the chunks cover the packet without a gap.
unfoldable pub covered_up_to : List (ℕ × Bytes) → ℕ → ℕ → Option ℕ
covered_up_to [] total covered = some covered
covered_up_to ((start, chunk) ∷ rest) total covered =
    let end = start + length chunk in
    let more = covered_up_to rest total (if ltb covered end then end else covered) in
    if ltb covered start then none else if ltb total end then none else more

-- `buf[start..end].copy_from_slice(chunk)`
unfoldable pub copy_at : Bytes → ℕ → Bytes → Bytes
copy_at buf start chunk = take start buf ++ (chunk ++ drop (start + length chunk) buf)

-- The second loop.
unfoldable pub copy_chunks : List (ℕ × Bytes) → Bytes → Bytes
unfolding copy_at
copy_chunks [] buf = buf
copy_chunks ((start, chunk) ∷ rest) buf = copy_chunks rest (copy_at buf start chunk)

unfoldable pub try_reassemble : ReassemblyBuffer → Option Bytes
try_reassemble b = elim (covered_up_to b.chunks b.total_length 0) [
  | none ↦ none
  | some covered ↦
      if nat_eq covered b.total_length
      then some (copy_chunks b.chunks (replicate b.total_length 0))
      else none
]

unfoldable pub is_expired : ReassemblyBuffer → ℕ → ℕ → Bool
is_expired b timeout now = leb timeout (now - b.created_at)

pub record Reassembler : Type 0 where
  pub timeout : ℕ
  pub buffers : Map ℕ ReassemblyBuffer

unfoldable pub with_timeout : ℕ → Reassembler
with_timeout timeout = record { timeout = timeout; buffers = [] }

unfoldable pub new : Reassembler
unfolding with_timeout
new = with_timeout default_reassembly_timeout

-- `entry(frame.fragment_id).or_insert_with(..)`: the buffer of the fragment's packet.
unfoldable pub entry : Reassembler → FragmentFrame → ℕ → ReassemblyBuffer
entry r frame now = elim (lookup frame.fragment_id r.buffers) [
  | none ↦ new_buffer frame.total_length now
  | some b ↦ b
]

-- The method `insert`.
unfoldable pub insert : Reassembler → FragmentFrame → ℕ → Option Bytes × Reassembler
insert r frame now =
    let b = entry r frame now in
    let b' : ReassemblyBuffer = record b {
      chunks = insert_chunk frame.fragment_offset frame.payload b.chunks;
    } in
    if not (nat_eq b.total_length frame.total_length)
    then (none, record r { buffers = map_insert frame.fragment_id b r.buffers })
    else elim (try_reassemble b') [
      | none ↦ (none, record r { buffers = map_insert frame.fragment_id b' r.buffers })
      | some packet ↦ (some packet, record r { buffers = map_remove frame.fragment_id r.buffers })
    ]

unfoldable pub expire_stale : Reassembler → ℕ → Reassembler
unfolding is_expired
expire_stale r now = record r {
  buffers = retain (λ id b. not (is_expired b r.timeout now)) r.buffers;
}

unfoldable pub buffer_count : Reassembler → ℕ
buffer_count r = length r.buffers
