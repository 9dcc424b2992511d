-- ===== src/Protocol/Codecs.antt =====
-- The frame types that implement the trait `FrameCodec` of crates/pim-core/src/types.rs.
use proximity_internet_mesh.Core.{FrameCodec}
use proximity_internet_mesh.Protocol.Wire.{Wire}
use proximity_internet_mesh.Protocol.Transport
use proximity_internet_mesh.Protocol.Data
use proximity_internet_mesh.Protocol.Heartbeat
use proximity_internet_mesh.Protocol.Handshake
use proximity_internet_mesh.Protocol.Route

module _ ⦃wire : Wire⦄ where
  transport_codec : FrameCodec Transport.TransportFrame
  transport_codec = record {
    encode = Transport.encode;
    decode = Transport.decode;
    IsValid = Transport.IsValid;
    decode-encode = Transport.transport_decode-encode;
  }

  data_codec : Data.DataFlags → FrameCodec Data.MeshDataFrame
  data_codec data_flags = record {
    encode = Data.encode;
    decode = Data.decode data_flags;
    IsValid = Data.IsValid;
    decode-encode = Data.data_decode-encode data_flags;
  }

  heartbeat_codec : FrameCodec Heartbeat.HeartbeatFrame
  heartbeat_codec = record {
    encode = Heartbeat.encode;
    decode = Heartbeat.decode;
    IsValid = Heartbeat.IsValid;
    decode-encode = Heartbeat.heartbeat_decode-encode;
  }

  handshake_codec : FrameCodec Handshake.HandshakeWireFrame
  handshake_codec = record {
    encode = Handshake.encode;
    decode = Handshake.decode;
    IsValid = Handshake.IsValid;
    decode-encode = Handshake.handshake_decode-encode;
  }

  route_codec : FrameCodec Route.RouteUpdateFrame
  route_codec = record {
    encode = Route.encode;
    decode = Route.decode;
    IsValid = Route.IsValid;
    decode-encode = Route.route_decode-encode;
  }
