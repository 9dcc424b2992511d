-- ===== src/Routing/Advertise.antt =====
-- crates/pim-routing/src/table.rs: `generate_advertisement` and `generate_all_advertisements`.
pub mod Honest
use proximity_internet_mesh.Base.{
  ℕ_eq, bytes_eq, ◌==◌, ℕ, ◌+◌, ◌%◌, ◌^◌, List, [], ◌∷◌, Bool, true, false, Option, none, some,
  if◌then◌else◌, be_bytes, replicate,
}
use proximity_internet_mesh.Base.Map.{Map}
use proximity_internet_mesh.Core.{NodeId}
use proximity_internet_mesh.Protocol.Route.{RouteEntry, RouteUpdateFrame}
use proximity_internet_mesh.Routing.Table.{infinity, RouteTableEntry, RoutingTable, unwrap_or}

abbrev pub gateway_flag : Bool → ℕ
gateway_flag true = 1
gateway_flag false = 0

abbrev pub advertised_hops : NodeId → RouteTableEntry → ℕ
advertised_hops to_peer e = if e.learned_from == to_peer then infinity else e.hops

-- The loop over the routes.
unfoldable pub advertise_routes : NodeId → Map NodeId RouteTableEntry → List RouteEntry
advertise_routes to_peer [] = []
advertise_routes to_peer ((dst, e) ∷ m) =
    let rest = advertise_routes to_peer m in
    if dst == to_peer
    then rest
    else (record {
      destination = dst;
      hops = advertised_hops to_peer e;
      flags = gateway_flag e.is_gateway;
      mesh_ip = be_bytes 4 (unwrap_or e.mesh_ip 0);
    })
      ∷ rest

abbrev pub self_entry : RoutingTable → RouteEntry
self_entry t = record {
  destination = t.self_id;
  hops = 0;
  flags = gateway_flag t.is_gateway;
  mesh_ip = be_bytes 4 (unwrap_or t.self_mesh_ip 0);
}

unfoldable pub generate_advertisement : RoutingTable → NodeId → RouteUpdateFrame × RoutingTable
unfolding advertise_routes
generate_advertisement t to_peer =
    let t' : RoutingTable = record t { sequence = (t.sequence + 1) % 2 ^ 64 } in
    (
      record {
        origin_id = t'.self_id;
        sequence = t'.sequence;
        entries = self_entry t' ∷ advertise_routes to_peer t'.routes;
        signature = replicate 64 0;
      },
      t',
    )

-- One advertisement for each of the peers, in turn.
unfoldable pub generate_each :
    List NodeId → RoutingTable → List (NodeId × RouteUpdateFrame) × RoutingTable
generate_each [] t = ([], t)
generate_each (peer ∷ peers) t =
    let (frame, t') = generate_advertisement t peer in
    let (frames, t'') = generate_each peers t' in ((peer, frame) ∷ frames, t'')

unfoldable pub generate_all_advertisements :
    RoutingTable → List (NodeId × RouteUpdateFrame) × RoutingTable
generate_all_advertisements t = generate_each t.direct_peers t
