-- ===== src/Routing/Table/Frame.antt =====
-- What the operations on routes leave alone: crates/pim-routing/src/table.rs.
use proximity_internet_mesh.Base.{ℕ_eq, bytes_eq, ◌≡◌, refl, ◌∙◌, List, [], ◌∷◌, arith, Bytes}
use proximity_internet_mesh.Core.{NodeId}
use proximity_internet_mesh.Routing.Table.{
  RouteTableEntry, RoutingTable, remove_route, remove_each, insert_route,
}

-- Two tables of one node with the same accepted sequence numbers and blacklist.
pub record Keeps (t u : RoutingTable) : Type 0 where
  pub self_id : u.self_id ≡ t.self_id
  pub peer_max_seq : u.peer_max_seq ≡ t.peer_max_seq
  pub blacklisted_peers : u.blacklisted_peers ≡ t.blacklisted_peers

pub Keeps-refl : (t : RoutingTable) → Keeps t t
Keeps-refl t = record { self_id = refl; peer_max_seq = refl; blacklisted_peers = refl }

pub Keeps-trans : {t u w : RoutingTable} → Keeps t u → Keeps u w → Keeps t w
Keeps-trans p q = record {
  self_id = q.self_id ∙ p.self_id;
  peer_max_seq = q.peer_max_seq ∙ p.peer_max_seq;
  blacklisted_peers = q.blacklisted_peers ∙ p.blacklisted_peers;
}

pub remove_route-Keeps : (t : RoutingTable) (dst : NodeId) → Keeps t (remove_route t dst).1
unfolding remove_route
remove_route-Keeps t dst = ground arith

pub remove_each-Keeps : (ds : List NodeId) (t : RoutingTable) → Keeps t (remove_each ds t)
unfolding remove_each
remove_each-Keeps [] t = Keeps-refl t
remove_each-Keeps (d ∷ ds) t =
    Keeps-trans (remove_route-Keeps t d) (remove_each-Keeps ds (remove_route t d).1)

module _ (keyed_digest : NodeId → Bytes) where
  pub insert_route-Keeps :
      (t : RoutingTable) (dst : NodeId) (e : RouteTableEntry)
      → Keeps t (insert_route keyed_digest t dst e)
  unfolding insert_route
  insert_route-Keeps t dst e = record {
    self_id = refl;
    peer_max_seq = refl;
    blacklisted_peers = refl;
  }
