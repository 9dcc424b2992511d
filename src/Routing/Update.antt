-- ===== src/Routing/Update.antt =====
-- crates/pim-routing/src/table.rs: `apply_update`. The loop that only logs advertised addresses that
-- differ from the derived ones is left out.
pub mod Invariant
pub mod Frame
use mathlib.Core.Bool.{xor}
use proximity_internet_mesh.Base.{
  ℕ_eq, bytes_eq, ◌==◌, ℕ, zero, suc, ◌+◌, ◌-◌, ◌*◌, ◌/◌, ◌%◌, ◌^◌, ◌≤◌, ◌<◌, ◌≡◌, List, [], ◌∷◌,
  ◌++◌, arith, Bytes, Bool, true, false, not, ◌&&◌, ◌||◌, map, length, min, replicate, any,
  be_value, be_bytes, Option, none, some, ltb, leb, nat_eq, if◌then◌else◌,
}
use proximity_internet_mesh.Base.Map.{
  Map, lookup, insert, remove, keys_where, contains, set_insert, set_remove,
}
use proximity_internet_mesh.Core.{NodeId}
use proximity_internet_mesh.Core.MeshAddress.{Ipv4Addr, Ipv4Prefix, derive_mesh_ipv4}
use proximity_internet_mesh.Protocol.Route.{
  RouteEntry, RouteUpdateFrame, is_gateway as advertises_gateway,
}
use proximity_internet_mesh.Routing.Table.{
  infinity, RouteTableEntry, UpdateResult, changed, unchanged, RoutingTable, unwrap_or,
  remove_route, remove_each, neighbour_entry, insert_route,
}

-- The entry that an advertised destination gets.
abbrev pub learned_entry : NodeId → ℕ → Bool → ℕ → ℕ → ℕ → Option ℕ → RouteTableEntry
learned_entry from_peer hops is_gw sequence now load rtt = record {
  next_hop = from_peer;
  hops = hops;
  is_gateway = is_gw;
  last_seen = now;
  learned_from = from_peer;
  sequence = sequence;
  gateway_load = load;
  rtt_ms = rtt;
  mesh_ip = none;
}

-- The destinations learned from the sender that its full update no longer names.
unfoldable pub withdrawn : RoutingTable → NodeId → List RouteEntry → List NodeId
withdrawn t from_peer entries =
    let advertised_destinations = map (λ e. e.destination) entries in
    keys_where
      (λ dst e.
        e.learned_from == from_peer
        && not (dst == from_peer)
        && not (contains dst advertised_destinations))
      t.routes

abbrev pub to_result : Bool → UpdateResult
to_result true = changed
to_result false = unchanged

-- A forged zero-hop entry.
unfoldable pub is_suspicious : RouteUpdateFrame → Bool
is_suspicious update =
    any (λ e. nat_eq e.hops 0 && not (e.destination == update.origin_id)) update.entries

module _ (keyed_digest : NodeId → Bytes) where
  -- The part of `apply_update` that notes the sender: its entry is refreshed, or made.
  unfoldable pub note_sender : RoutingTable → NodeId → ℕ → ℕ → Bool × RoutingTable
  note_sender t from_peer sequence now = elim (lookup from_peer t.routes) [
    | none ↦ (true, insert_route keyed_digest t from_peer (neighbour_entry from_peer sequence now))
    | some entry ↦
        (false, record t { routes = insert from_peer (record entry { last_seen = now }) t.routes })
  ]

  -- The case of a known destination.
  unfoldable pub revise_route :
      RoutingTable → NodeId → ℕ → ℕ → RouteEntry → ℕ → RouteTableEntry → Bool × RoutingTable
  revise_route t from_peer sequence now advertised new_hops existing =
      let dst = advertised.destination in
      let is_gw = advertises_gateway advertised in
      let better_path = ltb new_hops existing.hops in
      let newer_seq = ltb existing.sequence sequence && existing.next_hop == from_peer in
      let flipped = xor existing.is_gateway is_gw in
      let keep = existing.is_gateway && not better_path in
      let load = if keep then existing.gateway_load else 0 in
      let rtt = if keep then existing.rtt_ms else none in
      if better_path || newer_seq
      then (
        better_path || flipped,
        insert_route keyed_digest t dst
            (learned_entry from_peer new_hops is_gw sequence now load rtt),
      )
      else (false, t)

  -- One round of the loop over the advertised entries.
  unfoldable pub apply_entry : RoutingTable → NodeId → ℕ → ℕ → RouteEntry → Bool × RoutingTable
  unfolding revise_route
  apply_entry t from_peer sequence now advertised =
      let dst = advertised.destination in
      let new_hops = min (advertised.hops + 1) infinity in
      if dst == t.self_id
      then (false, t)
      else if leb infinity new_hops
      then elim (lookup dst t.routes) [
        | none ↦ (false, t)
        | some existing ↦
            if existing.next_hop == from_peer then (true, (remove_route t dst).1) else (false, t)
      ]
      else elim (lookup dst t.routes) [
        | none ↦ (
          true,
          insert_route keyed_digest t dst (
              learned_entry from_peer new_hops (advertises_gateway advertised) sequence now 0 none),
        )
        | some existing ↦ revise_route t from_peer sequence now advertised new_hops existing
      ]

  unfoldable pub apply_entries :
      List RouteEntry → NodeId → ℕ → ℕ → Bool × RoutingTable → Bool × RoutingTable
  apply_entries [] from_peer sequence now s = s
  apply_entries (e ∷ es) from_peer sequence now (c, t) =
      let r = apply_entry t from_peer sequence now e in
      apply_entries es from_peer sequence now (c || r.0, r.1)

  -- `apply_update` behind its security checks.
  unfoldable pub accept_update : RoutingTable → RouteUpdateFrame → NodeId → ℕ → Bool × RoutingTable
  accept_update t update from_peer now =
      let (c, t') =
        apply_entries update.entries from_peer update.sequence now
          (note_sender t from_peer update.sequence now) in
      let gone = withdrawn t' from_peer update.entries in
      (c || not (nat_eq (length gone) 0), remove_each gone t')

  unfoldable pub apply_update :
      RoutingTable → RouteUpdateFrame → NodeId → ℕ → UpdateResult × RoutingTable
  apply_update t update from_peer now =
      let last_seq = unwrap_or (lookup from_peer t.peer_max_seq) 0 in
      let t' : RoutingTable = record t {
        peer_max_seq = insert from_peer update.sequence t.peer_max_seq;
      } in
      let accepted = accept_update t' update from_peer now in
      if not (update.origin_id == from_peer)
      then (unchanged, t)
      else if leb update.sequence last_seq
      then (unchanged, t)
      else if is_suspicious update
      then (unchanged, t')
      else (to_result accepted.0, accepted.1)
