-- ===== src/Daemon/SendBuffer.antt =====
-- crates/pim-daemon/src/send_buffer.rs: frames held for peers that cannot be reached. The lock is
-- left out: each method runs as one step. Time is an argument; `duration_since` stops at 0.
pub mod Order
pub mod Rank
pub mod Peers
use proximity_internet_mesh.Base.{
  bytes_eq, ℕ, zero, suc, ◌+◌, ◌-◌, List, [], ◌∷◌, ◌++◌, Bool, true, false, not, ◌&&◌, ◌||◌, map,
  length, take, drop, filter, last, Option, none, some, ltb, leb, nat_eq, if◌then◌else◌,
}
use proximity_internet_mesh.Base.Map.{Map, lookup, insert, remove, retain}
use proximity_internet_mesh.Core.{NodeId}
use proximity_internet_mesh.Protocol.Transport.{FrameType, TransportFrame}
use proximity_internet_mesh.Protocol.Transport.FrameType.{
  handshake, data_frame, route_update, heartbeat, control, fragment,
}

pub data Priority : Type 0 where
  control_priority route_priority data_priority : Priority

-- The discriminants, by which priorities are compared: the lower, the more important.
abbrev pub rank : Priority → ℕ
rank control_priority = 0
rank route_priority = 1
rank data_priority = 2

unfoldable pub priority_of : FrameType → Priority
priority_of control = control_priority
priority_of handshake = control_priority
priority_of route_update = route_priority
priority_of data_frame = data_priority
priority_of heartbeat = data_priority
priority_of fragment = data_priority

abbrev pub default_capacity : ℕ
default_capacity = 256

-- In seconds.
abbrev pub default_timeout : ℕ
default_timeout = 30

pub record BufferedFrame : Type 0 where
  pub enqueued_at : ℕ
  pub priority : Priority
  pub frame : TransportFrame

pub record PeerBuffer : Type 0 where
  pub frames : List BufferedFrame
  pub capacity : ℕ
  pub timeout : ℕ

unfoldable pub new_buffer : ℕ → ℕ → PeerBuffer
new_buffer capacity timeout = record { frames = []; capacity = capacity; timeout = timeout }

-- The test of `retain` and of `filter`.
abbrev pub is_fresh : ℕ → ℕ → BufferedFrame → Bool
is_fresh timeout now f = ltb (now - f.enqueued_at) timeout

-- The test of `partition_point`.
abbrev pub precedes : BufferedFrame → BufferedFrame → Bool
precedes f g =
    ltb (rank f.priority) (rank g.priority)
    || (nat_eq (rank f.priority) (rank g.priority) && leb f.enqueued_at g.enqueued_at)

-- `partition_point`: where the elements that pass end, in a list where they come first.
unfoldable pub partition_point : (BufferedFrame → Bool) → List BufferedFrame → ℕ
partition_point p [] = 0
partition_point p (f ∷ fs) = let n = partition_point p fs in if p f then suc n else 0

-- `Vec::insert`
unfoldable pub insert_at : ℕ → BufferedFrame → List BufferedFrame → List BufferedFrame
insert_at n f fs = take n fs ++ f ∷ drop n fs

-- `Vec::pop`
unfoldable pub pop : List BufferedFrame → List BufferedFrame
pop fs = take (length fs - 1) fs

-- The frames after the eviction, or nothing if the new frame is to be dropped.
unfoldable pub make_room : ℕ → Priority → List BufferedFrame → Option (List BufferedFrame)
unfolding pop
make_room capacity priority fs =
    if leb capacity (length fs)
    then elim (last fs) [
      | none ↦ none
      | some w ↦ if leb (rank priority) (rank w.priority) then some (pop fs) else none
    ]
    else some fs

-- `now` and `enqueued_at` are the two readings of the clock.
unfoldable pub push_frame : PeerBuffer → Priority → TransportFrame → ℕ → ℕ → PeerBuffer
unfolding make_room partition_point insert_at
push_frame b priority frame now enqueued_at =
    let bf : BufferedFrame = record {
      enqueued_at = enqueued_at;
      priority = priority;
      frame = frame;
    } in
    let fresh = filter (is_fresh b.timeout now) b.frames in
    elim (make_room b.capacity priority fresh) [
      | none ↦ record b { frames = fresh }
      | some fs ↦ record b { frames = insert_at (partition_point (λ f. precedes f bf) fs) bf fs }
    ]

unfoldable pub drain_buffer : PeerBuffer → ℕ → List TransportFrame × PeerBuffer
drain_buffer b now =
    (map (λ f. f.frame) (filter (is_fresh b.timeout now) b.frames), record b { frames = [] })

unfoldable pub expire : PeerBuffer → ℕ → ℕ × PeerBuffer
expire b now =
    let left = filter (is_fresh b.timeout now) b.frames in
    (length b.frames - length left, record b { frames = left })

unfoldable pub is_empty : PeerBuffer → Bool
is_empty b = nat_eq (length b.frames) 0

pub record SendBuffer : Type 0 where
  pub peers : Map NodeId PeerBuffer
  pub capacity_per_peer : ℕ
  pub timeout : ℕ

unfoldable pub new : ℕ → ℕ → SendBuffer
new capacity_per_peer timeout = record {
  peers = [];
  capacity_per_peer = capacity_per_peer;
  timeout = timeout;
}

-- The peer's buffer, or a new one.
unfoldable pub buffer_of : SendBuffer → NodeId → PeerBuffer
buffer_of s peer_id = elim (lookup peer_id s.peers) [
  | none ↦ new_buffer s.capacity_per_peer s.timeout
  | some b ↦ b
]

unfoldable pub push : SendBuffer → NodeId → Priority → TransportFrame → ℕ → ℕ → SendBuffer
push s peer_id priority frame now enqueued_at = record s {
  peers = insert peer_id (push_frame (buffer_of s peer_id) priority frame now enqueued_at) s.peers;
}

unfoldable pub drain : SendBuffer → NodeId → ℕ → List TransportFrame × SendBuffer
drain s peer_id now = elim (lookup peer_id s.peers) [
  | none ↦ ([], s)
  | some b ↦
      let (frames, b') = drain_buffer b now in
      (
        frames,
        record s {
          peers = if is_empty b' then remove peer_id s.peers else insert peer_id b' s.peers;
        },
      )
]

-- The sum of `expire` over the buffers, with the buffers after it.
unfoldable pub expire_each : Map NodeId PeerBuffer → ℕ → ℕ × Map NodeId PeerBuffer
expire_each [] now = (0, [])
expire_each ((peer_id, b) ∷ m) now =
    let (n, b') = expire b now in
    let (total, m') = expire_each m now in (n + total, (peer_id, b') ∷ m')

unfoldable pub expire_all : SendBuffer → ℕ → ℕ × SendBuffer
expire_all s now =
    let (total, peers) = expire_each s.peers now in
    (total, record s { peers = retain (λ k b. not (is_empty b)) peers })

unfoldable pub peer_count : SendBuffer → ℕ
peer_count s = length s.peers

unfoldable pub frame_count : SendBuffer → NodeId → ℕ
frame_count s peer_id = elim (lookup peer_id s.peers) [ none ↦ 0 | some b ↦ length b.frames ]
