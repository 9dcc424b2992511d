-- ===== src/Gateway/Engine/Reads.antt =====
-- crates/pim-gateway/src/engine.rs: what has been read of a packet is enough to rewrite it.
use proximity_internet_mesh.Base.{ℕ, ◌≡◌, ap, ◌⊎◌, inl, inr, arith, Bytes, ok, err, Result-cases}
use proximity_internet_mesh.Core.MeshAddress.{Ipv4Addr}
use proximity_internet_mesh.Gateway.Packet.{
  ip_ihl, addr_at, ip_protocol, port_at, parse_flow, transport_dst_port, rewrite, source,
  destination,
}
use proximity_internet_mesh.Gateway.GatewayError.{panicked}
use proximity_internet_mesh.Gateway.Packet.Reads.{rewritten}
use proximity_internet_mesh.Gateway.Packet.Overrun.{IsOverrun, rewrite-read}
use proximity_internet_mesh.Gateway.Engine.{response_of}

pub parse_flow-inv :
    (p : Bytes) (proto : ℕ) (src : Ipv4Addr) (port : ℕ)
    → parse_flow p ≡ ok (proto, src, port)
    → (ip_protocol p ≡ ok proto) × (src ≡ addr_at p 12) × (port_at p proto (ip_ihl p) 0 ≡ ok port)
unfolding parse_flow
parse_flow-inv p proto src port e = elim (Result-cases (ip_protocol p)) [
  | inr (x, bad) ↦ absurd (ground arith)
  | inl (proto', good) ↦ elim (Result-cases (port_at p proto' (ip_ihl p) 0)) [
    | inr (x, bad) ↦ absurd (ground arith)
    | inl (port', read) ↦ ground (arith, ap (λ (x : ℕ). port_at p x (ip_ihl p) 0))
  ]
]

pub response_of-inv :
    (p : Bytes) (proto port : ℕ)
    → response_of p ≡ ok (proto, port)
    → (ip_protocol p ≡ ok proto) × (port_at p proto (ip_ihl p) 2 ≡ ok port)
unfolding response_of transport_dst_port
response_of-inv p proto port e = elim (Result-cases (ip_protocol p)) [
  | inr (x, bad) ↦ absurd (ground arith)
  | inl (proto', good) ↦ elim (Result-cases (port_at p proto' (ip_ihl p) 2)) [
    | inr (x, bad) ↦ absurd (ground arith)
    | inl (port', read) ↦ ground (arith, ap (λ (x : ℕ). port_at p x (ip_ihl p) 2))
  ]
]

pub rewrite_source-cases :
    (p : Bytes) (proto : ℕ) (src : Ipv4Addr) (port : ℕ) (a : Ipv4Addr) (n : ℕ)
    → parse_flow p ≡ ok (proto, src, port)
    → (rewrite source p a n ≡ ok (rewritten 12 0 p proto port a n)) × (¬ IsOverrun source p proto n)
      ⊎ (rewrite source p a n ≡ err panicked) × IsOverrun source p proto n
rewrite_source-cases p proto src port a n e =
    let (good, from, read) = parse_flow-inv p proto src port e in
    rewrite-read source p proto port a n good read

-- The port of a response is written behind the first byte.
pub rewrite_destination-ok :
    (p : Bytes) (proto port : ℕ) (a : Ipv4Addr) (n : ℕ)
    → response_of p ≡ ok (proto, port)
    → rewrite destination p a n ≡ ok (rewritten 16 2 p proto port a n)
rewrite_destination-ok p proto port a n e =
    let (good, read) = response_of-inv p proto port e in
    elim (rewrite-read destination p proto port a n good read) [
      | inl (done, fits) ↦ done
      | inr (bad, (ports, start, short)) ↦ absurd (omega arith)
    ]
