-- ===== src/Routing/Select.antt =====
-- crates/pim-routing/src/table.rs: the queries of the routing table and the gateway metrics.
pub mod Best
pub mod Blacklist
use proximity_internet_mesh.Base.{
  ℕ_eq, bytes_eq, ◌==◌, ℕ, ◌≡◌, arith, Bool, true, false, not, ◌&&◌, Option, none, some, ltb,
  if◌then◌else◌,
}
use proximity_internet_mesh.Base.Map.{Map, lookup, insert, retain, contains}
use proximity_internet_mesh.Base.Map.Least.{min_by_key}
use proximity_internet_mesh.Core.{NodeId}
use proximity_internet_mesh.Core.MeshAddress.{Ipv4Addr}
use proximity_internet_mesh.Routing.Table.{infinity, gateway_score, RouteTableEntry, RoutingTable}

-- `lookup`
unfoldable pub next_hop_for : RoutingTable → NodeId → Option NodeId
next_hop_for t dst = if dst == t.self_id then none else elim (lookup dst t.routes) [
  | none ↦ none
  | some e ↦ if not (contains e.next_hop t.blacklisted_peers) then some e.next_hop else none
]

unfoldable pub lookup_mesh_ip : RoutingTable → Ipv4Addr → Option (NodeId × NodeId)
lookup_mesh_ip t mesh_ip = elim (lookup mesh_ip t.mesh_ip_index) [
  | none ↦ none
  | some dst ↦ elim (lookup dst t.routes) [
    | none ↦ none
    | some e ↦ if contains e.next_hop t.blacklisted_peers then none else some (dst, e.next_hop)
  ]
]

abbrev pub is_usable : RoutingTable → RouteTableEntry → Bool
is_usable t e =
    (e.is_gateway && ltb e.hops infinity) && not (contains e.next_hop t.blacklisted_peers)

abbrev pub score : RouteTableEntry → ℕ
score e = gateway_score e.hops e.gateway_load e.rtt_ms

unfoldable pub best_gateway_entry : RoutingTable → Option (NodeId × RouteTableEntry)
best_gateway_entry t = min_by_key score (retain (λ d e. is_usable t e) t.routes)

abbrev route_to : Option (NodeId × RouteTableEntry) → Option (NodeId × NodeId)
route_to none = none
route_to (some (dst, e)) = some (dst, e.next_hop)

abbrev hop_to : Option (NodeId × RouteTableEntry) → Option (NodeId × ℕ)
hop_to none = none
hop_to (some (dst, e)) = some (e.next_hop, e.hops)

abbrev address_of : Option (NodeId × RouteTableEntry) → Option Ipv4Addr
address_of none = none
address_of (some (dst, e)) = e.mesh_ip

unfoldable pub nearest_gateway : RoutingTable → Option (NodeId × ℕ)
nearest_gateway t = if t.is_gateway then none else hop_to (best_gateway_entry t)

unfoldable pub nearest_gateway_route : RoutingTable → Option (NodeId × NodeId)
nearest_gateway_route t = if t.is_gateway then none else route_to (best_gateway_entry t)

unfoldable pub nearest_gateway_mesh_ip : RoutingTable → Option Ipv4Addr
nearest_gateway_mesh_ip t = if t.is_gateway then none else address_of (best_gateway_entry t)

unfoldable pub update_gateway_load : RoutingTable → NodeId → ℕ → RoutingTable
update_gateway_load t gw_id load = elim (lookup gw_id t.routes) [
  | none ↦ t
  | some e ↦
      if e.is_gateway
      then record t { routes = insert gw_id (record e { gateway_load = load }) t.routes }
      else t
]

unfoldable pub update_gateway_rtt : RoutingTable → NodeId → ℕ → RoutingTable
update_gateway_rtt t gw_id rtt_ms = elim (lookup gw_id t.routes) [
  | none ↦ t
  | some e ↦
      if e.is_gateway
      then record t { routes = insert gw_id (record e { rtt_ms = some rtt_ms }) t.routes }
      else t
]
