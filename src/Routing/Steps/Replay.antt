-- ===== src/Routing/Steps/Replay.antt =====
-- crates/pim-routing/src/table.rs: `apply_update` against updates that come again, amid the other
-- operations on the table.
use proximity_internet_mesh.Base.{
  ℕ_eq, bytes_eq, ◌==◌, ℕ, ◌≡◌, ◌≢◌, inl, inr, List, [], ◌∷◌, Bytes, All, Bool-cases, arith,
}
use proximity_internet_mesh.Base.Map.{lookup-remove_ne}
use proximity_internet_mesh.Core.{NodeId}
use proximity_internet_mesh.Protocol.Route.{RouteUpdateFrame}
use proximity_internet_mesh.Routing.Table.{
  unchanged, RoutingTable, set_ipv4_prefix, set_self_mesh_ip, remove_routes_via, expire_stale,
  remove_peer, blacklist_peer, unblacklist_peer, add_peer,
}
use proximity_internet_mesh.Routing.Table.Frame.{remove_each-Keeps, insert_route-Keeps}
use proximity_internet_mesh.Routing.Update.{apply_update}
use proximity_internet_mesh.Routing.Update.Frame.{
  IsRecorded, apply_update-stale, apply_update-relayed, apply_update-peer_max_seq,
  apply_update-IsRecorded,
}
use proximity_internet_mesh.Routing.Select.{update_gateway_load, update_gateway_rtt}
use proximity_internet_mesh.Routing.Advertise.{generate_advertisement}
use proximity_internet_mesh.Routing.Steps.{Operation, perform, perform_all}
use proximity_internet_mesh.Routing.Steps.Operation.{
  peer_up, peer_down, link_lost, received, maintenance, advertise, blacklist, unblacklist,
  load_reported, rtt_measured, prefix_changed, address_changed,
}

-- The operation does not forget `peer`, as `remove_peer` does.
abbrev pub Remembers : NodeId → Operation → Type 0
Remembers peer (peer_up p now) = Unit {0}
Remembers peer (peer_down p) = p ≢ peer
Remembers peer (link_lost p) = Unit {0}
Remembers peer (received update p now) = Unit {0}
Remembers peer (maintenance max_age now) = Unit {0}
Remembers peer (advertise p) = Unit {0}
Remembers peer (blacklist p) = Unit {0}
Remembers peer (unblacklist p) = Unit {0}
Remembers peer (load_reported gw load) = Unit {0}
Remembers peer (rtt_measured gw rtt) = Unit {0}
Remembers peer (prefix_changed p) = Unit {0}
Remembers peer (address_changed ip) = Unit {0}

load-peer_max_seq :
    (t : RoutingTable) (gw : NodeId) (load : ℕ)
    → (update_gateway_load t gw load).peer_max_seq ≡ t.peer_max_seq
unfolding update_gateway_load
load-peer_max_seq t gw load = ground arith

rtt-peer_max_seq :
    (t : RoutingTable) (gw : NodeId) (rtt : ℕ)
    → (update_gateway_rtt t gw rtt).peer_max_seq ≡ t.peer_max_seq
unfolding update_gateway_rtt
rtt-peer_max_seq t gw rtt = ground arith

module _ (keyed_digest : NodeId → Bytes) where
  perform-IsRecorded :
      (o : Operation) (t : RoutingTable) (peer : NodeId) (n : ℕ)
      → Remembers peer o
      → IsRecorded peer n t.peer_max_seq
      → IsRecorded peer n (perform keyed_digest o t).peer_max_seq
  unfolding perform add_peer remove_peer remove_routes_via expire_stale blacklist_peer
      unblacklist_peer generate_advertisement set_ipv4_prefix set_self_mesh_ip
  perform-IsRecorded (peer_up p now) t peer n k h =
      rw (insert_route-Keeps keyed_digest _ p _).peer_max_seq h
  perform-IsRecorded (peer_down p) t peer n k h =
      rw ((remove_each-Keeps _ _).peer_max_seq, lookup-remove_ne p peer t.peer_max_seq k) h
  perform-IsRecorded (link_lost p) t peer n k h = rw (remove_each-Keeps _ t).peer_max_seq h
  perform-IsRecorded (received update p now) t peer n k h =
      apply_update-IsRecorded keyed_digest t update p peer now n h
  perform-IsRecorded (maintenance max_age now) t peer n k h =
      rw (remove_each-Keeps _ t).peer_max_seq h
  perform-IsRecorded (advertise p) t peer n k h = h
  perform-IsRecorded (blacklist p) t peer n k h = rw (remove_each-Keeps _ _).peer_max_seq h
  perform-IsRecorded (unblacklist p) t peer n k h = h
  perform-IsRecorded (load_reported gw load) t peer n k h = rw (load-peer_max_seq t gw load) h
  perform-IsRecorded (rtt_measured gw rtt) t peer n k h = rw (rtt-peer_max_seq t gw rtt) h
  perform-IsRecorded (prefix_changed p) t peer n k h = h
  perform-IsRecorded (address_changed ip) t peer n k h = h

  perform_all-IsRecorded :
      (os : List Operation) (t : RoutingTable) (peer : NodeId) (n : ℕ)
      → All (Remembers peer) os
      → IsRecorded peer n t.peer_max_seq
      → IsRecorded peer n (perform_all keyed_digest os t).peer_max_seq
  unfolding perform_all
  perform_all-IsRecorded [] t peer n ks h = h
  perform_all-IsRecorded (o ∷ os) t peer n (k, ks) h =
      perform_all-IsRecorded os (perform keyed_digest o t) peer n ks
        (perform-IsRecorded o t peer n k h)

  -- After an update has been handled, whatever became of it, the same frame from the same peer changes
  -- nothing and is reported as no change, whatever operations on the table come in between, if
  -- the removal of that peer is not one of them.
  pub apply_update-replay :
      (t : RoutingTable) (update : RouteUpdateFrame) (from_peer : NodeId) (now later : ℕ)
      (os : List Operation)
      → All (Remembers from_peer) os
      → let t' = perform_all keyed_digest os (apply_update keyed_digest t update from_peer now).1 in
        apply_update keyed_digest t' update from_peer later ≡ (unchanged, t')
  apply_update-replay t update from_peer now later os ks =
      let handled = (apply_update keyed_digest t update from_peer now).1 in
      let after = perform_all keyed_digest os handled in
      elim (Bool-cases (update.origin_id == from_peer)) [
        | inl own ↦ apply_update-stale keyed_digest after update from_peer later (
            perform_all-IsRecorded os handled from_peer update.sequence ks
              (apply_update-peer_max_seq keyed_digest t update from_peer now own))
        | inr relayed ↦ apply_update-relayed keyed_digest after update from_peer later relayed
      ]
