-- ===== src/Routing/Select/Blacklist.antt =====
-- crates/pim-routing/src/table.rs: `blacklist_peer` and the queries.
use proximity_internet_mesh.Base.{
  ℕ_eq, bytes_eq, ◌==◌, ◌≡◌, refl, inl, inr, List, arith, not, Option, none, some, if◌then◌else◌,
  Bool-cases, list_eq_iff,
}
use proximity_internet_mesh.Base.Map.{
  lookup, contains, set_insert, contains-set_insert, IsDistinct, passing,
}
use proximity_internet_mesh.Core.{NodeId}
use proximity_internet_mesh.Routing.Table.{
  RouteTableEntry, RoutingTable, remove_routes_via, blacklist_peer,
}
use proximity_internet_mesh.Routing.Table.Frame.{Keeps, remove_each-Keeps}
use proximity_internet_mesh.Routing.Table.Removal.{remove_routes_via-lookup}
use proximity_internet_mesh.Routing.Select.{next_hop_for}

-- The next hop that a peer's exclusion leaves.
abbrev pub unless_via : NodeId → Option NodeId → Option NodeId
unless_via peer none = none
unless_via peer (some hop) = if hop == peer then none else some hop

remove_routes_via-Keeps : (t : RoutingTable) (peer : NodeId) → Keeps t (remove_routes_via t peer).1
unfolding remove_routes_via
remove_routes_via-Keeps t peer = remove_each-Keeps _ t

-- The lookup in terms of the route and the blacklist.
abbrev hop_of : List NodeId → Option RouteTableEntry → Option NodeId
hop_of blacklist none = none
hop_of blacklist (some e) = if not (contains e.next_hop blacklist) then some e.next_hop else none

next_hop_for-eq :
    (t : RoutingTable) (d : NodeId)
    → next_hop_for t d
      ≡ (if d == t.self_id then none else hop_of t.blacklisted_peers (lookup d t.routes))
unfolding next_hop_for
next_hop_for-eq t d = ground arith

hop_of-excluded :
    (peer d : NodeId) (blacklist : List NodeId) (o : Option RouteTableEntry)
    → hop_of (set_insert peer blacklist) (passing (λ k e. not (e.next_hop == peer)) d o)
      ≡ unless_via peer (hop_of blacklist o)
hop_of-excluded peer d blacklist none = refl
hop_of-excluded peer d blacklist (some e) = ground (
  arith,
  contains-set_insert peer e.next_hop blacklist,
  list_eq_iff e.next_hop peer,
  list_eq_iff peer e.next_hop,
)

-- In a table of distinct destinations, excluding a peer changes the answer of the lookup for exactly the destinations that were reached
-- through it: they have none left.
pub blacklist_peer-next_hop_for :
    (t : RoutingTable) (peer d : NodeId)
    → IsDistinct t.routes
    → next_hop_for (blacklist_peer t peer).1 d ≡ unless_via peer (next_hop_for t d)
unfolding blacklist_peer
blacklist_peer-next_hop_for t peer d h =
    let t0 : RoutingTable = record t { blacklisted_peers = set_insert peer t.blacklisted_peers } in
    let k = remove_routes_via-Keeps t0 peer in
    let t1 = (remove_routes_via t0 peer).1 in
    let q = remove_routes_via-lookup t0 peer d h in
    let r = hop_of-excluded peer d t.blacklisted_peers (lookup d t.routes) in
    elim (Bool-cases (d == t.self_id)) [
      | inl own ↦ rw (next_hop_for-eq t1 d, next_hop_for-eq t d, k.self_id, own) refl
      | inr other ↦
          rw (next_hop_for-eq t1 d, next_hop_for-eq t d, k.self_id, k.blacklisted_peers, q, other) r
    ]
