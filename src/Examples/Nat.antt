-- ===== src/Examples/Nat.antt =====
-- The translation engine, crates/pim-gateway/src/engine.rs, with one flow.
use proximity_internet_mesh.Base.{
  ℕ, ◌*◌, ◌+◌, ◌^◌, ◌≡◌, ◌≢◌, ◌⊎◌, refl, List, [], ◌∷◌, Bytes, none, some, not, ok, err, ℕ_eq,
  byte_at, set_at,
}
use proximity_internet_mesh.Base.Map.{lookup, contains, passing}
use proximity_internet_mesh.Core.MeshAddress.{Ipv4Addr}
use proximity_internet_mesh.Gateway.GatewayError.{conntrack_full, panicked, no_conntrack_entry}
use proximity_internet_mesh.Gateway.Checksum.{fold_loop, ones_complement_sum, fold_checksum}
use proximity_internet_mesh.Gateway.Packet.{
  ip_protocol, port_at, parse_flow, transport_dst_port, rewrite_at, set_port, write_ip_checksum,
  recalc_transport_checksum, update_checksum, update_sum, rewrite, source, destination,
}
use proximity_internet_mesh.Gateway.Packet.Overrun.{IsOverrun}
use proximity_internet_mesh.Gateway.Ports.{empty_pool, allocate, allocate_loop}
use proximity_internet_mesh.Gateway.Ports.First.{IsFull}
use proximity_internet_mesh.Gateway.Engine.{
  ConntrackKey, ConntrackEntry, conntrack_key_eq, ℕ_pair_eq, Inner, GatewayEngine, is_expired, new,
  find_or_track, flow_key, translate_outbound, translate_inbound, response_of, cleanup_expired,
  Call, outbound, inbound, perform_all,
}
use proximity_internet_mesh.Gateway.Engine.Conntrack.{IsTracked}
use proximity_internet_mesh.Gateway.Engine.Conntrack.Calls.{reachable-IsTracked}
use proximity_internet_mesh.Gateway.Engine.Flow.{IsFound, translate_outbound-cases}
use proximity_internet_mesh.Gateway.Engine.Response.{IsDelivered, translate_inbound-cases}
use proximity_internet_mesh.Gateway.Engine.Delivery.{translate_inbound-translate_outbound}
use proximity_internet_mesh.Gateway.Engine.Cleanup.{cleanup_expired-lookup}
use proximity_internet_mesh.Examples.Packets.{packet, sent, external}

abbrev calls : List Call
calls = outbound 0 packet ∷ inbound 1 packet ∷ []

abbrev busy : GatewayEngine
busy = perform_all calls (new external [])

reachable-IsTracked_example : IsTracked (perform_all calls (new external [])).inner
reachable-IsTracked_example = reachable-IsTracked external [] calls

-- 10.77.0.2
abbrev client : Ipv4Addr
client = 10 * 2 ^ 24 + 77 * 2 ^ 16 + 2

packet_flow : parse_flow packet ≡ ok (17, client, 12345)
unfolding parse_flow ip_protocol port_at byte_at
packet_flow = refl

abbrev flow : ConntrackKey
flow = flow_key (17, client, 12345)

busy-IsTracked : IsTracked busy.inner
busy-IsTracked = reachable-IsTracked external [] calls

translate_outbound-cases_example :
    ((port : ℕ) × (p' : Bytes) × (i' : Inner) × (translate_outbound 2 busy packet
        ≡ (ok (port, p'), record busy { inner = i' }))
      × (rewrite source packet busy.external_ip port ≡ ok p')
      × (¬ IsOverrun source packet 17 port)
      × IsFound 2 flow busy.inner i' port)
    ⊎ ((translate_outbound 2 busy packet ≡ (err conntrack_full, busy))
        × (lookup flow busy.inner.forward ≡ none)
        × IsFull busy.inner.ports.in_use)
    ⊎ ((port : ℕ) × (i' : Inner) × (translate_outbound 2 busy packet
          ≡ (err panicked, record busy { inner = i' }))
        × IsOverrun source packet 17 port
        × IsFound 2 flow busy.inner i' port)
translate_outbound-cases_example =
    translate_outbound-cases 2 busy packet 17 client 12345 busy-IsTracked packet_flow

-- The answer, from 8.8.8.8, port 53, to the port that the flow has.
abbrev answer : Bytes
answer =
    69 ∷ 0 ∷ 0 ∷ 28 ∷ 0 ∷ 0 ∷ 0 ∷ 0 ∷ 60 ∷ 17 ∷ 0 ∷ 0 ∷ 8 ∷ 8 ∷ 8 ∷ 8 ∷ 203 ∷ 0 ∷ 113 ∷ 7 ∷ 0 ∷ 53
    ∷ 117 ∷ 48 ∷ 0 ∷ 8 ∷ 17 ∷ 18 ∷ []

answer_port : response_of answer ≡ ok (17, 30000)
unfolding response_of transport_dst_port ip_protocol port_at byte_at
answer_port = refl

translate_inbound-cases_example :
    ((key : ConntrackKey) × (entry : ConntrackEntry) × (p' : Bytes) × (g' : GatewayEngine)
      × (entry.proto ≡ 17)
      × (entry.ext_port ≡ 30000)
      × (translate_inbound 3 busy answer ≡ (ok (entry.orig_src, p'), g'))
      × IsDelivered 3 busy g' answer p' key entry)
    ⊎ (translate_inbound 3 busy answer ≡ (err (no_conntrack_entry 17 30000), busy))
      × ((k : ConntrackKey) (e : ConntrackEntry)
          → lookup k busy.inner.forward ≡ some e
          → e.proto ≡ 17
          → e.ext_port ≢ 30000)
translate_inbound-cases_example =
    translate_inbound-cases 3 busy answer 17 30000 busy-IsTracked answer_port

abbrev idle : GatewayEngine
idle = new external []

abbrev after : GatewayEngine
after = (translate_outbound 0 idle packet).1

idle-IsTracked : IsTracked idle.inner
unfolding perform_all
idle-IsTracked = reachable-IsTracked external [] []

packet_sent : translate_outbound 0 idle packet ≡ (ok (30000, sent), after)
unfolding translate_outbound parse_flow find_or_track lookup allocate allocate_loop new empty_pool
    contains rewrite_at ip_protocol port_at set_port write_ip_checksum recalc_transport_checksum
    update_checksum update_sum ones_complement_sum fold_checksum fold_loop set_at byte_at
packet_sent = refl

translate_inbound-translate_outbound_example :
    (r' : Bytes) × ((translate_inbound 9 (perform_all calls after) answer).0 ≡ ok (client, r'))
    × (rewrite destination answer client 12345 ≡ ok r')
translate_inbound-translate_outbound_example =
    translate_inbound-translate_outbound 0 9 idle after packet sent answer 17 client 12345 30000
      calls idle-IsTracked packet_flow packet_sent (tt, (tt, tt)) answer_port

cleanup_expired-lookup_example :
    lookup flow (cleanup_expired (λ k. 31000000000) busy).inner.forward
    ≡ passing
        (λ (key : ConntrackKey) (entry : ConntrackEntry). not (is_expired 31000000000 entry))
        flow
        (lookup flow busy.inner.forward)
cleanup_expired-lookup_example = cleanup_expired-lookup (λ k. 31000000000) busy flow busy-IsTracked
