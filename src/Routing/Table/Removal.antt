-- ===== src/Routing/Table/Removal.antt =====
-- crates/pim-routing/src/table.rs: what is left of the routes after the operations that remove many
-- of them: `remove_routes_via`, `expire_stale`, `remove_peer`, `blacklist_peer`.
use proximity_internet_mesh.Base.{
  ℕ_eq, bytes_eq, ◌==◌, ℕ, ◌≡◌, refl, inl, inr, List, [], ◌∷◌, arith, Bool, not, none,
  if◌then◌else◌, Bool-cases, Option-cases, list_eq_iff,
}
use proximity_internet_mesh.Base.Map.{
  lookup, keys_where, contains, IsDistinct, passing, lookup-remove, contains-keys_where,
}
use proximity_internet_mesh.Core.{NodeId}
use proximity_internet_mesh.Routing.Table.{
  RouteTableEntry, RoutingTable, is_expired, remove_route, remove_each, remove_routes_via,
  expire_stale,
}

remove_route-lookup :
    (t : RoutingTable) (dst d : NodeId)
    → lookup d (remove_route t dst).1.routes ≡ (if dst == d then none else lookup d t.routes)
unfolding remove_route
remove_route-lookup t dst d = ground (arith, lookup-remove dst d t.routes, list_eq_iff dst d)

pub remove_each-lookup :
    (ds : List NodeId) (t : RoutingTable) (d : NodeId)
    → lookup d (remove_each ds t).routes ≡ (if contains d ds then none else lookup d t.routes)
unfolding remove_each contains
remove_each-lookup [] t d = refl
remove_each-lookup (c ∷ ds) t d =
    ground (arith, remove_each-lookup ds (remove_route t c).1 d, remove_route-lookup t c d)

-- Removing the keys that pass a test leaves the routes that do not.
remove_where-lookup :
    (p : NodeId → RouteTableEntry → Bool) (t : RoutingTable) (d : NodeId)
    → IsDistinct t.routes
    → lookup d (remove_each (keys_where p t.routes) t).routes
      ≡ passing (λ k e. not (p k e)) d (lookup d t.routes)
remove_where-lookup p t d h = elim (Option-cases (lookup d t.routes)) [
  | inl absent ↦ rw (remove_each-lookup, contains-keys_where p d t.routes h, absent) refl
  | inr (e, at) ↦ elim (Bool-cases (p d e)) [
    | inl hit ↦ rw (remove_each-lookup, contains-keys_where p d t.routes h, at, hit) refl
    | inr miss ↦ rw (remove_each-lookup, contains-keys_where p d t.routes h, at, miss) refl
  ]
]

-- In a table of distinct destinations, after the loss of a link every route is as before but those through the peer, which are gone.
pub remove_routes_via-lookup :
    (t : RoutingTable) (peer d : NodeId)
    → IsDistinct t.routes
    → lookup d (remove_routes_via t peer).1.routes
      ≡ passing (λ k e. not (e.next_hop == peer)) d (lookup d t.routes)
unfolding remove_routes_via
remove_routes_via-lookup t peer d h = remove_where-lookup (λ k e. e.next_hop == peer) t d h

-- In a table of distinct destinations, expiry leaves every route that is not older than the limit, as it was, and no other.
pub expire_stale-lookup :
    (t : RoutingTable) (max_age now : ℕ) (d : NodeId)
    → IsDistinct t.routes
    → lookup d (expire_stale t max_age now).1.routes
      ≡ passing (λ k e. not (is_expired e max_age now)) d (lookup d t.routes)
unfolding expire_stale
expire_stale-lookup t max_age now d h = remove_where-lookup (λ k e. is_expired e max_age now) t d h
