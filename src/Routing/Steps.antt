-- ===== src/Routing/Steps.antt =====
-- crates/pim-routing/src/table.rs: the life of a routing table, as the sequence of the operations
-- that the daemon calls on it.
pub mod Replay
use proximity_internet_mesh.Base.{
  ℕ_eq, bytes_eq, ℕ, ◌≡◌, refl, inl, inr, List, [], ◌∷◌, arith, Bytes, Bool, Bool-cases,
  Option-cases,
}
use proximity_internet_mesh.Base.Map.{lookup}
use proximity_internet_mesh.Core.{NodeId}
use proximity_internet_mesh.Core.MeshAddress.{Ipv4Addr, Ipv4Prefix}
use proximity_internet_mesh.Protocol.Route.{RouteUpdateFrame}
use proximity_internet_mesh.Routing.Table.{
  RoutingTable, new, set_ipv4_prefix, set_self_mesh_ip, remove_routes_via, expire_stale,
  remove_peer, blacklist_peer, unblacklist_peer, add_peer,
}
use proximity_internet_mesh.Routing.Table.Invariant.{
  IsWellFormed, remove_each-IsWellFormed, insert_route-IsWellFormed,
}
use proximity_internet_mesh.Routing.Update.{apply_update}
use proximity_internet_mesh.Routing.Update.Invariant.{
  apply_update-IsWellFormed, refresh-IsWellFormed,
}
use proximity_internet_mesh.Routing.Select.{update_gateway_load, update_gateway_rtt}
use proximity_internet_mesh.Routing.Advertise.{generate_advertisement}

-- The operations that change a table.
pub data Operation : Type 0 where
  peer_up : NodeId → ℕ → Operation
  peer_down : NodeId → Operation
  link_lost : NodeId → Operation
  received : RouteUpdateFrame → NodeId → ℕ → Operation
  maintenance : ℕ → ℕ → Operation
  advertise : NodeId → Operation
  blacklist : NodeId → Operation
  unblacklist : NodeId → Operation
  load_reported : NodeId → ℕ → Operation
  rtt_measured : NodeId → ℕ → Operation
  prefix_changed : Ipv4Prefix → Operation
  address_changed : Ipv4Addr → Operation

module _ (keyed_digest : NodeId → Bytes) where
  unfoldable pub perform : Operation → RoutingTable → RoutingTable
  perform (peer_up p now) t = add_peer keyed_digest t p now
  perform (peer_down p) t = (remove_peer t p).1
  perform (link_lost p) t = (remove_routes_via t p).1
  perform (received update p now) t = (apply_update keyed_digest t update p now).1
  perform (maintenance max_age now) t = (expire_stale t max_age now).1
  perform (advertise p) t = (generate_advertisement t p).1
  perform (blacklist p) t = (blacklist_peer t p).1
  perform (unblacklist p) t = unblacklist_peer t p
  perform (load_reported gw load) t = update_gateway_load t gw load
  perform (rtt_measured gw rtt) t = update_gateway_rtt t gw rtt
  perform (prefix_changed p) t = set_ipv4_prefix t p
  perform (address_changed ip) t = set_self_mesh_ip t ip

  unfoldable pub perform_all : List Operation → RoutingTable → RoutingTable
  perform_all [] t = t
  perform_all (o ∷ os) t = perform_all os (perform o t)

-- Well-formedness is about the routes and the index.
same-IsWellFormed :
    {t u : RoutingTable}
    → IsWellFormed t
    → u.routes ≡ t.routes
    → u.mesh_ip_index ≡ t.mesh_ip_index
    → IsWellFormed u
same-IsWellFormed {t} {u} v p q = record {
  distinct = rw p v.distinct;
  proper = rw p v.proper;
  indexed = rw (p, q) v.indexed;
}

remove_routes_via-IsWellFormed :
    (t : RoutingTable) (peer : NodeId) → IsWellFormed t → IsWellFormed (remove_routes_via t peer).1
unfolding remove_routes_via
remove_routes_via-IsWellFormed t peer v = remove_each-IsWellFormed _ t v

update_gateway_load-IsWellFormed :
    (t : RoutingTable) (gw : NodeId) (load : ℕ)
    → IsWellFormed t
    → IsWellFormed (update_gateway_load t gw load)
unfolding update_gateway_load
update_gateway_load-IsWellFormed t gw load v = elim (Option-cases (lookup gw t.routes)) [
  | inl absent ↦ rw (absent, update_gateway_load) v
  | inr (e, at) ↦ elim (Bool-cases e.is_gateway) [
    | inl gateway ↦
        let r = v.proper gw e at in
        rw (at, gateway, update_gateway_load)
          (refresh-IsWellFormed t gw e _ v at
            (record {
              at_least_one = r.at_least_one;
              finite = r.finite;
              via_teacher = r.via_teacher;
            })
            refl)
    | inr plain ↦ rw (at, plain, update_gateway_load) v
  ]
]

update_gateway_rtt-IsWellFormed :
    (t : RoutingTable) (gw : NodeId) (rtt : ℕ)
    → IsWellFormed t
    → IsWellFormed (update_gateway_rtt t gw rtt)
unfolding update_gateway_rtt
update_gateway_rtt-IsWellFormed t gw rtt v = elim (Option-cases (lookup gw t.routes)) [
  | inl absent ↦ rw (absent, update_gateway_rtt) v
  | inr (e, at) ↦ elim (Bool-cases e.is_gateway) [
    | inl gateway ↦
        let r = v.proper gw e at in
        rw (at, gateway, update_gateway_rtt)
          (refresh-IsWellFormed t gw e _ v at
            (record {
              at_least_one = r.at_least_one;
              finite = r.finite;
              via_teacher = r.via_teacher;
            })
            refl)
    | inr plain ↦ rw (at, plain, update_gateway_rtt) v
  ]
]

module _ (keyed_digest : NodeId → Bytes) where
  pub perform-IsWellFormed :
      (o : Operation) (t : RoutingTable) → IsWellFormed t → IsWellFormed (perform keyed_digest o t)
  unfolding perform add_peer remove_peer expire_stale blacklist_peer unblacklist_peer
      generate_advertisement set_ipv4_prefix set_self_mesh_ip
  perform-IsWellFormed (peer_up p now) t v =
      insert_route-IsWellFormed keyed_digest _ p _ (same-IsWellFormed v refl refl)
        (record { at_least_one = omega arith; finite = omega arith; via_teacher = refl })
  perform-IsWellFormed (peer_down p) t v =
      remove_routes_via-IsWellFormed _ p (same-IsWellFormed v refl refl)
  perform-IsWellFormed (link_lost p) t v = remove_routes_via-IsWellFormed t p v
  perform-IsWellFormed (received update p now) t v =
      apply_update-IsWellFormed keyed_digest t update p now v
  perform-IsWellFormed (maintenance max_age now) t v = remove_each-IsWellFormed _ t v
  perform-IsWellFormed (advertise p) t v = same-IsWellFormed v refl refl
  perform-IsWellFormed (blacklist p) t v =
      remove_routes_via-IsWellFormed _ p (same-IsWellFormed v refl refl)
  perform-IsWellFormed (unblacklist p) t v = same-IsWellFormed v refl refl
  perform-IsWellFormed (load_reported gw load) t v = update_gateway_load-IsWellFormed t gw load v
  perform-IsWellFormed (rtt_measured gw rtt) t v = update_gateway_rtt-IsWellFormed t gw rtt v
  perform-IsWellFormed (prefix_changed p) t v = same-IsWellFormed v refl refl
  perform-IsWellFormed (address_changed ip) t v = same-IsWellFormed v refl refl

  -- Whatever a node's table goes through from its creation on, peers coming and going, any updates
  -- received, it is well formed.
  pub perform_all-IsWellFormed :
      (os : List Operation) (t : RoutingTable)
      → IsWellFormed t
      → IsWellFormed (perform_all keyed_digest os t)
  unfolding perform_all
  perform_all-IsWellFormed [] t v = v
  perform_all-IsWellFormed (o ∷ os) t v =
      perform_all-IsWellFormed os (perform keyed_digest o t) (perform-IsWellFormed o t v)

  new-IsWellFormed :
      (self_id : NodeId) (is_gw : Bool) (prefix : Ipv4Prefix)
      → IsWellFormed (new self_id is_gw prefix)
  unfolding new lookup
  new-IsWellFormed self_id is_gw prefix = record {
    distinct = tt;
    proper = λ d e found. cc;
    indexed = λ ip d found. cc;
  }

  -- From its creation on, through whatever sequence of operations, peers coming and going and any
  -- updates received, a table has distinct destinations, routes of 1 to 15 hops through the peer
  -- that taught them, and an index each of whose addresses is that of the route that it names.
  pub reachable-IsWellFormed :
      (self_id : NodeId) (is_gw : Bool) (prefix : Ipv4Prefix) (os : List Operation)
      → IsWellFormed (perform_all keyed_digest os (new self_id is_gw prefix))
  reachable-IsWellFormed self_id is_gw prefix os =
      perform_all-IsWellFormed os _ (new-IsWellFormed self_id is_gw prefix)
