-- ===== src/Examples/Tables.antt =====
-- The routing table, crates/pim-routing, of a node with two neighbours and a gateway behind one.
use proximity_internet_mesh.Base.{
  ℕ_eq, bytes_eq, ◌≡◌, ◌≢◌, ◌==◌, ==→ne, refl, any, some, true, List, [], ◌∷◌, Bytes, false,
  replicate, All, ◌-◌, ◌/◌, ◌%◌, ◌≤◌, ◌<◌, arith,
}
use proximity_internet_mesh.Core.{NodeId}
use proximity_internet_mesh.Base.Map.{lookup}
use proximity_internet_mesh.Core.MeshAddress.{Ipv4Prefix, host_count, derive_mesh_ipv4}
use proximity_internet_mesh.Core.MeshAddress.Range.{derive_mesh_ipv4-range}
use proximity_internet_mesh.Protocol.Route.{RouteEntry, RouteUpdateFrame}
use proximity_internet_mesh.Routing.Table.{
  RouteTableEntry, unchanged, RoutingTable, new, blacklist_peer,
}
use proximity_internet_mesh.Routing.Table.Invariant.{IsWellFormed}
use proximity_internet_mesh.Routing.Update.{apply_update, is_suspicious}
use proximity_internet_mesh.Routing.Steps.Replay.{apply_update-replay}
use proximity_internet_mesh.Routing.Select.{best_gateway_entry, next_hop_for}
use proximity_internet_mesh.Routing.Select.Best.{IsBest, best_gateway_entry-IsBest}
use proximity_internet_mesh.Routing.Select.Blacklist.{unless_via, blacklist_peer-next_hop_for}
use proximity_internet_mesh.Routing.Advertise.{generate_advertisement}
use proximity_internet_mesh.Routing.Advertise.Honest.{
  IsOwn, IsOffer, generate_advertisement-IsOffer, generate_advertisement-is_suspicious,
}
use proximity_internet_mesh.Routing.Steps.{Operation, perform_all, reachable-IsWellFormed}
use proximity_internet_mesh.Routing.Steps.Operation.{peer_up, peer_down, link_lost, received}

abbrev me : NodeId
me = replicate 16 1

abbrev alice : NodeId
alice = replicate 16 2

abbrev bob : NodeId
bob = replicate 16 3

abbrev gateway : NodeId
gateway = replicate 16 4

-- A digest: the identifier itself.
abbrev digest : NodeId → Bytes
digest id = id

abbrev prefix : Ipv4Prefix
prefix = record { network = 0x0a4d0000; prefix_len = 16 }

abbrev offer : RouteEntry
offer = record { destination = gateway; hops = 1; flags = 1; mesh_ip = 10 ∷ 77 ∷ 4 ∷ 4 ∷ [] }

abbrev update : RouteUpdateFrame
update = record {
  origin_id = alice;
  sequence = 3;
  entries = offer ∷ [];
  signature = replicate 64 0;
}

abbrev operations : List Operation
operations = peer_up alice 0 ∷ peer_up bob 1 ∷ received update alice 5 ∷ []

abbrev table : RoutingTable
table = perform_all digest operations (new me false prefix)

table-IsWellFormed : IsWellFormed table
table-IsWellFormed = reachable-IsWellFormed digest me false prefix operations

reachable-IsWellFormed_example : IsWellFormed (perform_all digest operations (new me false prefix))
reachable-IsWellFormed_example = reachable-IsWellFormed digest me false prefix operations

abbrev second : RouteUpdateFrame
second = record update { sequence = 4 }

-- Bob leaves, and the link to alice breaks and is made again.
abbrev between : List Operation
between = peer_down bob ∷ link_lost alice ∷ peer_up alice 12 ∷ received update alice 13 ∷ []

bob-alice : bob ≢ alice
bob-alice e = ==→ne bob alice refl e

apply_update-replay_example :
    apply_update digest
      (perform_all digest between (apply_update digest table second alice 9).1)
      second
      alice
      20
    ≡ (unchanged, perform_all digest between (apply_update digest table second alice 9).1)
apply_update-replay_example =
    apply_update-replay digest table second alice 9 20 between (bob-alice, (tt, (tt, (tt, tt))))

best_gateway_entry-IsBest_example : IsBest table (best_gateway_entry table)
best_gateway_entry-IsBest_example = best_gateway_entry-IsBest table table-IsWellFormed.distinct

blacklist_peer-next_hop_for_example :
    next_hop_for (blacklist_peer table alice).1 gateway
    ≡ unless_via alice (next_hop_for table gateway)
blacklist_peer-next_hop_for_example =
    blacklist_peer-next_hop_for table alice gateway table-IsWellFormed.distinct

generate_advertisement-IsOffer_example :
    (self : RouteEntry) × (rest : List RouteEntry) × ((generate_advertisement table alice).0.entries
      ≡ self ∷ rest)
    × IsOwn table self
    × All (IsOffer alice table.routes) rest
    × ((dst : NodeId) (e : RouteTableEntry)
        → lookup dst table.routes ≡ some e
        → dst ≢ alice
        → any (λ (a : RouteEntry). a.destination == dst) rest ≡ true)
generate_advertisement-IsOffer_example =
    generate_advertisement-IsOffer table alice table-IsWellFormed

generate_advertisement-is_suspicious_example :
    is_suspicious (generate_advertisement table bob).0 ≡ false
generate_advertisement-is_suspicious_example =
    generate_advertisement-is_suspicious table bob table-IsWellFormed

derive_mesh_ipv4-range_example :
    (derive_mesh_ipv4 digest alice prefix / host_count prefix ≡ prefix.network / host_count prefix)
    × (1 ≤ derive_mesh_ipv4 digest alice prefix % host_count prefix)
    × (derive_mesh_ipv4 digest alice prefix % host_count prefix < host_count prefix - 1)
derive_mesh_ipv4-range_example = derive_mesh_ipv4-range digest alice prefix (omega arith)
