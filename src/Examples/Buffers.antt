-- ===== src/Examples/Buffers.antt =====
-- The send buffer, crates/pim-daemon/src/send_buffer.rs, at concrete frames.
use proximity_internet_mesh.Base.{bytes_eq, ◌≡◌, List, [], ◌∷◌, filter, replicate}
use proximity_internet_mesh.Core.{NodeId}
use proximity_internet_mesh.Protocol.Transport.{FrameType, TransportFrame}
use proximity_internet_mesh.Daemon.SendBuffer.{PeerBuffer, is_fresh, push_frame, SendBuffer, new}
use proximity_internet_mesh.Daemon.SendBuffer.Priority.{
  control_priority, route_priority, data_priority,
}
use proximity_internet_mesh.Daemon.SendBuffer.Rank.{outranks, push_frame-outranks}
use proximity_internet_mesh.Daemon.SendBuffer.Peers.{Operation, perform_all}
use proximity_internet_mesh.Daemon.SendBuffer.Peers.Operation.{push_to, expire_at}

abbrev alice : NodeId
alice = replicate 16 2

abbrev bob : NodeId
bob = replicate 16 3

abbrev frame : TransportFrame
frame = record {
  frame_type = FrameType.control;
  nonce = replicate 12 0;
  payload = 1 ∷ [];
  tag = replicate 16 0;
}

abbrev operations : List Operation
operations =
    push_to alice data_priority frame 0 0
    ∷ push_to alice control_priority frame 1 1
    ∷ push_to alice route_priority frame 2 2
    ∷ push_to bob data_priority frame 3 3
    ∷ expire_at 5
    ∷ []

-- Two frames for each peer at most, of which the third push to one evicts the first.
abbrev held : SendBuffer
held = perform_all operations (new 2 30)

abbrev full : PeerBuffer
full = record {
  frames =
      record { enqueued_at = 1; priority = control_priority; frame = frame }
      ∷ record { enqueued_at = 0; priority = data_priority; frame = frame }
      ∷ [];
  capacity = 2;
  timeout = 30;
}

push_frame-outranks_example :
    filter (outranks route_priority) (push_frame full route_priority frame 2 2).frames
    ≡ filter (outranks route_priority) (filter (is_fresh 30 2) full.frames)
push_frame-outranks_example = push_frame-outranks full route_priority frame 2 2
