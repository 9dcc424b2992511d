-- ===== src/Examples/Frames.antt =====
-- The frame codecs of crates/pim-protocol at concrete frames.
use proximity_internet_mesh.Base.{
  ◌%◌, ◌^◌, ◌≡◌, refl, [], ◌∷◌, ◌++◌, arith, Bytes, length, replicate, ok, err, ltb, if◌then◌else◌,
  some,
}
use proximity_internet_mesh.Core.{PimError}
use proximity_internet_mesh.Core.PimError.{protocol}
use proximity_internet_mesh.Core.Message.{frame_too_large, not_utf8}
use proximity_internet_mesh.Protocol.Wire.{big_endian}
use proximity_internet_mesh.Protocol.Transport
use proximity_internet_mesh.Protocol.Data
use proximity_internet_mesh.Protocol.Heartbeat
use proximity_internet_mesh.Protocol.Handshake
use proximity_internet_mesh.Protocol.Route
use proximity_internet_mesh.Protocol.Control
use proximity_internet_mesh.Protocol.Control.RoundTrip
use proximity_internet_mesh.Protocol.LengthDelimited

abbrev alice : Bytes
alice = replicate 16 0xa1

abbrev bob : Bytes
bob = replicate 16 0xb0

abbrev tail : Bytes
tail = 7 ∷ 8 ∷ 9 ∷ []

abbrev transport_frame : Transport.TransportFrame
transport_frame = record {
  frame_type = Transport.FrameType.control;
  nonce = replicate 12 3;
  payload = 1 ∷ 2 ∷ 3 ∷ [];
  tag = replicate 16 9;
}

-- Flags of which the low seven bits are known.
abbrev low_flags : Data.DataFlags
low_flags = record {
  from_bits_truncate = λ bits. bits % 2 ^ 7;
  truncate_known = λ bits h. omega arith;
}

abbrev data_frame : Data.MeshDataFrame
data_frame = record {
  src_id = alice;
  dst_id = bob;
  session_id = 0xdeadbeef;
  ttl = 64;
  flags = 5;
  payload = 0x45 ∷ 0 ∷ 1 ∷ [];
}

abbrev heartbeat_frame : Heartbeat.HeartbeatFrame
heartbeat_frame = record {
  sender_id = alice;
  timestamp = 1700000000000;
  gateway_hops = 2;
  load = 40;
  gw_x25519_pub = replicate 32 6;
}

abbrev handshake_frame : Handshake.HandshakeWireFrame
handshake_frame = Handshake.HandshakeWireFrame.init_or_response (record {
  handshake_type = Handshake.HandshakeFrameType.response;
  sender_pub = replicate 32 1;
  ephemeral_pub = replicate 32 2;
  nonce = replicate 32 3;
  signature = replicate 64 4;
})

abbrev route_entry : Route.RouteEntry
route_entry = record { destination = bob; hops = 2; flags = 1; mesh_ip = 10 ∷ 77 ∷ 0 ∷ 5 ∷ [] }

abbrev route_frame : Route.RouteUpdateFrame
route_frame = record {
  origin_id = alice;
  sequence = 9;
  entries = route_entry ∷ route_entry ∷ [];
  signature = replicate 64 0;
}

route_entry-IsEntry : Route.IsEntry route_entry
route_entry-IsEntry = record {
  destination_size = refl;
  hops_u8 = omega arith;
  flags_u8 = omega arith;
  ip_size = refl;
}

-- A peer's name that is not text.
abbrev named_peer : Control.ControlFrame
named_peer = Control.ControlFrame.peer_info (replicate 32 5) (0xc3 ∷ [])

control_decode-encode_example :
    Control.decode ⦃wire = big_endian⦄ (Control.encode ⦃wire = big_endian⦄ named_peer ++ tail) ≡ (
      if RoundTrip.is_text named_peer
      then ok (RoundTrip.sent named_peer, tail)
      else err (protocol not_utf8))
control_decode-encode_example =
    RoundTrip.control_decode-encode ⦃wire = big_endian⦄ named_peer tail refl

stream_decode-encode_example :
    LengthDelimited.decode ⦃wire = big_endian⦄
      (LengthDelimited.encode ⦃wire = big_endian⦄ bob ++ tail)
    ≡ (if ltb LengthDelimited.max_frame_size (length bob)
        then err (protocol (frame_too_large (length bob)))
        else ok (some bob, tail))
stream_decode-encode_example =
    LengthDelimited.stream_decode-encode ⦃wire = big_endian⦄ bob tail (omega arith)

abbrev two_bytes : Bytes
two_bytes = 0 ∷ 0 ∷ 0 ∷ 2 ∷ 11 ∷ 12 ∷ []

stream_decode-append_example :
    ((p rest : Bytes)
      → LengthDelimited.decode ⦃wire = big_endian⦄ two_bytes ≡ ok (some p, rest)
      → LengthDelimited.decode ⦃wire = big_endian⦄ (two_bytes ++ tail) ≡ ok (some p, rest ++ tail))
    × ((e : PimError)
        → LengthDelimited.decode ⦃wire = big_endian⦄ two_bytes ≡ err e
        → LengthDelimited.decode ⦃wire = big_endian⦄ (two_bytes ++ tail) ≡ err e)
stream_decode-append_example =
    LengthDelimited.stream_decode-append ⦃wire = big_endian⦄ two_bytes tail
