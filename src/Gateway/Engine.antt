-- ===== src/Gateway/Engine.antt =====
-- crates/pim-gateway/src/engine.rs, `GatewayEngine`: connection tracking and translation. The clock
-- counts nanoseconds; `now` is what `Instant::now` returns in the call. A translated packet is part
-- of the result, and the state is returned beside it, whatever the outcome.
pub mod Conntrack
pub mod Reads
pub mod Flow
pub mod Response
pub mod Delivery
pub mod Cleanup
use proximity_internet_mesh.Base.{
  ℕ, ◌-◌, ◌*◌, ◌^◌, ◌≡◌, ◌↔◌, refl, arith, List, [], ◌∷◌, Bytes, Bool, true, false, ◌&&◌, Option,
  none, some, Result, ok, err, ◌>>=◌, ltb, nat_eq, nat_eq_iff, Eq, ◌==◌, ℕ_eq, if◌then◌else◌,
  length,
}
use proximity_internet_mesh.Base.Map.{Map, lookup, insert, remove, keys_where}
use proximity_internet_mesh.Core.MeshAddress.{Ipv4Addr}
use proximity_internet_mesh.Gateway.{GatewayError, proto_icmp, proto_tcp, proto_udp}
use proximity_internet_mesh.Gateway.GatewayError.{conntrack_full, no_conntrack_entry}
use proximity_internet_mesh.Gateway.Packet.{
  ip_protocol, transport_dst_port, parse_flow, rewrite, source, destination,
}
use proximity_internet_mesh.Gateway.Ports.{PortPool, empty_pool, allocate, release}

pub record ConntrackKey : Type 0 where
  pub proto : ℕ
  pub orig_src : Ipv4Addr
  pub orig_port : ℕ

pub record ConntrackEntry : Type 0 where
  pub ext_port : ℕ
  pub last_seen : ℕ
  pub orig_src : Ipv4Addr
  pub orig_port : ℕ
  pub proto : ℕ

abbrev pub key_eq : ConntrackKey → ConntrackKey → Bool
key_eq a b =
    nat_eq a.proto b.proto && nat_eq a.orig_src b.orig_src && nat_eq a.orig_port b.orig_port

pub key_eq_iff : (a b : ConntrackKey) → (key_eq a b ≡ true) ↔ (a ≡ b)
key_eq_iff a b = ground arith

instance abbrev pub conntrack_key_eq : Eq ConntrackKey
conntrack_key_eq = record { equals = key_eq; equals_iff = key_eq_iff }

abbrev pub pair_eq : ℕ × ℕ → ℕ × ℕ → Bool
pair_eq a b = nat_eq a.0 b.0 && nat_eq a.1 b.1

pub pair_eq_iff : (a b : ℕ × ℕ) → (pair_eq a b ≡ true) ↔ (a ≡ b)
pair_eq_iff a b = ground arith

instance abbrev pub ℕ_pair_eq : Eq (ℕ × ℕ)
ℕ_pair_eq = record { equals = pair_eq; equals_iff = pair_eq_iff }

abbrev second : ℕ
second = 1000000000

abbrev pub idle_timeout : ConntrackEntry → ℕ
idle_timeout entry =
    if nat_eq entry.proto proto_tcp
    then 300 * second
    else if nat_eq entry.proto proto_udp
    then 30 * second
    else if nat_eq entry.proto proto_icmp
    then 10 * second
    else 30 * second

abbrev pub is_expired : ℕ → ConntrackEntry → Bool
is_expired now entry = ltb (idle_timeout entry) (now - entry.last_seen)

pub record Inner : Type 0 where
  pub forward : Map ConntrackKey ConntrackEntry
  pub reverse : Map (ℕ × ℕ) ConntrackKey
  pub ports : PortPool

pub record GatewayEngine : Type 0 where
  pub external_ip : Ipv4Addr
  pub internet_iface : Bytes
  pub inner : Inner

unfoldable pub new : Ipv4Addr → Bytes → GatewayEngine
unfolding empty_pool
new external_ip internet_iface = record {
  external_ip = external_ip;
  internet_iface = internet_iface;
  inner = record { forward = []; reverse = []; ports = empty_pool };
}

-- `entry.last_seen = Instant::now()`
unfoldable pub touch : ℕ → ConntrackKey → ConntrackEntry → Inner → Inner
unfolding insert
touch now key entry inner = record inner {
  forward = insert key (record entry { last_seen = now }) inner.forward;
}

-- A new flow at a port that has just been allocated.
unfoldable pub track : ℕ → ConntrackKey → ℕ → PortPool → Inner → Inner
unfolding insert
track now key ext_port ports inner =
    let entry : ConntrackEntry = record {
      ext_port = ext_port;
      last_seen = now;
      orig_src = key.orig_src;
      orig_port = key.orig_port;
      proto = key.proto;
    } in
    record {
      forward = insert key entry inner.forward;
      reverse = insert (key.proto, ext_port) key inner.reverse;
      ports = ports;
    }

-- `inner.ports.allocate().ok_or(..)?` and what follows it for a new flow.
abbrev pub track_at : ℕ → ConntrackKey → Inner → Option ℕ × PortPool → Result GatewayError ℕ × Inner
track_at now key inner (none, ports) = (err conntrack_full, record inner { ports = ports })
track_at now key inner (some ext_port, ports) = (ok ext_port, track now key ext_port ports inner)

-- Look up or create the entry.
unfoldable pub find_or_track : ℕ → ConntrackKey → Inner → Result GatewayError ℕ × Inner
unfolding lookup touch allocate track
find_or_track now key inner = elim (lookup key inner.forward) [
  | some entry ↦ (ok entry.ext_port, touch now key entry inner)
  | none ↦ track_at now key inner (allocate inner.ports)
]

-- What is left of `translate_outbound` once the port is known.
abbrev pub send_from :
    GatewayEngine
    → Bytes
    → Result GatewayError ℕ × Inner
    → Result GatewayError (ℕ × Bytes) × GatewayEngine
send_from engine packet (err e, inner) = (err e, record engine { inner = inner })
send_from engine packet (ok ext_port, inner) =
    elim (rewrite source packet engine.external_ip ext_port) [
      | err e ↦ (err e, record engine { inner = inner })
      | ok sent ↦ (ok (ext_port, sent), record engine { inner = inner })
    ]

-- The outcome of a call on a packet: what it returns with the packet it leaves, and the engine.
abbrev pub Outcome : Type 0 → Type 0
Outcome A = Result GatewayError (A × Bytes) × GatewayEngine

abbrev pub flow_key : ℕ × Ipv4Addr × ℕ → ConntrackKey
flow_key (proto, src_ip, src_port) = record {
  proto = proto;
  orig_src = src_ip;
  orig_port = src_port;
}

unfoldable pub translate_outbound : ℕ → GatewayEngine → Bytes → Outcome ℕ
unfolding parse_flow find_or_track
translate_outbound now engine packet = elim (parse_flow packet) [
  | err e ↦ (err e, engine)
  | ok flow ↦ send_from engine packet (find_or_track now (flow_key flow) engine.inner)
]

-- The flow that a response belongs to, by way of both maps.
unfoldable pub find_flow : Inner → ℕ → ℕ → Result GatewayError (ConntrackKey × ConntrackEntry)
unfolding lookup
find_flow inner proto dst_port = elim (lookup (proto, dst_port) inner.reverse) [
  | none ↦ err (no_conntrack_entry proto dst_port)
  | some key ↦ elim (lookup key inner.forward) [
    | none ↦ err (no_conntrack_entry proto dst_port)
    | some entry ↦ ok (key, entry)
  ]
]

abbrev pub deliver_to :
    ℕ
    → GatewayEngine
    → Bytes
    → Result GatewayError (ConntrackKey × ConntrackEntry)
    → Outcome Ipv4Addr
deliver_to now engine packet (err e) = (err e, engine)
deliver_to now engine packet (ok (key, entry)) =
    let inner = touch now key entry engine.inner in
    elim (rewrite destination packet entry.orig_src entry.orig_port) [
      | err e ↦ (err e, record engine { inner = inner })
      | ok sent ↦ (ok (entry.orig_src, sent), record engine { inner = inner })
    ]

-- The reads before the lock is taken.
unfoldable pub response_of : Bytes → Result GatewayError (ℕ × ℕ)
unfolding ip_protocol transport_dst_port
response_of packet = do
  proto ← ip_protocol packet
  dst_port ← transport_dst_port packet proto
  ok (proto, dst_port)

unfoldable pub translate_inbound : ℕ → GatewayEngine → Bytes → Outcome Ipv4Addr
unfolding response_of find_flow
translate_inbound now engine packet = elim (response_of packet) [
  | err e ↦ (err e, engine)
  | ok (proto, dst_port) ↦ deliver_to now engine packet (find_flow engine.inner proto dst_port)
]

-- The body of the second loop of `cleanup_expired`.
unfoldable pub drop_flow : ConntrackKey → Inner → Inner
unfolding lookup remove release
drop_flow key inner = elim (lookup key inner.forward) [
  | none ↦ inner
  | some entry ↦ record {
    forward = remove key inner.forward;
    reverse = remove (entry.proto, entry.ext_port) inner.reverse;
    ports = release entry.ext_port inner.ports;
  }
]

unfoldable pub drop_flows : List ConntrackKey → Inner → Inner
unfolding drop_flow
drop_flows [] inner = inner
drop_flows (key ∷ keys) inner = drop_flows keys (drop_flow key inner)

-- `clock k` is the time at which the entry of `k` is looked at.
unfoldable pub cleanup_expired : (ConntrackKey → ℕ) → GatewayEngine → GatewayEngine
unfolding keys_where drop_flows
cleanup_expired clock engine =
    let expired =
      keys_where (λ (key : ConntrackKey) (entry : ConntrackEntry). is_expired (clock key) entry)
        engine.inner.forward in
    record engine { inner = drop_flows expired engine.inner }

unfoldable pub conntrack_size : GatewayEngine → ℕ
conntrack_size engine = length engine.inner.forward

-- The calls that change the engine, in the order in which they take its lock.
pub data Call : Type 0 where
  outbound inbound : ℕ → Bytes → Call
  cleanup : (ConntrackKey → ℕ) → Call

abbrev pub perform : Call → GatewayEngine → GatewayEngine
perform (outbound now packet) engine = (translate_outbound now engine packet).1
perform (inbound now packet) engine = (translate_inbound now engine packet).1
perform (cleanup clock) engine = cleanup_expired clock engine

unfoldable pub perform_all : List Call → GatewayEngine → GatewayEngine
perform_all [] engine = engine
perform_all (c ∷ cs) engine = perform_all cs (perform c engine)
