-- ===== src/Routing/Table.antt =====
-- crates/pim-routing/src/table.rs: the state and the operations of the routing table. Time is an
-- argument `now` in seconds; `elapsed` does not go below 0.
pub mod Invariant
pub mod Removal
pub mod Frame
use proximity_internet_mesh.Base.{
  ℕ_eq, bytes_eq, ◌==◌, ℕ, zero, suc, ◌+◌, ◌-◌, ◌*◌, ◌/◌, ◌%◌, ◌^◌, ◌≤◌, ◌<◌, ◌≡◌, List, [], ◌∷◌,
  ◌++◌, arith, Bytes, Bool, true, false, not, ◌&&◌, ◌||◌, map, length, min, replicate, any,
  be_value, be_bytes, Option, none, some, ltb, leb, nat_eq, if◌then◌else◌,
}
use proximity_internet_mesh.Base.Map.{
  Map, lookup, insert, remove, keys_where, contains, set_insert, set_remove,
}
use proximity_internet_mesh.Core.{NodeId}
use proximity_internet_mesh.Core.MeshAddress.{Ipv4Addr, Ipv4Prefix, derive_mesh_ipv4}

abbrev pub infinity : ℕ
infinity = 16

pub record RouteTableEntry : Type 0 where
  pub next_hop : NodeId
  pub hops : ℕ
  pub is_gateway : Bool
  pub last_seen : ℕ
  pub learned_from : NodeId
  pub sequence : ℕ
  pub gateway_load : ℕ
  pub rtt_ms : Option ℕ
  pub mesh_ip : Option Ipv4Addr

abbrev pub unwrap_or {ℓ} : {A : Type ℓ} → Option A → A → A
unwrap_or none d = d
unwrap_or (some a) d = a

unfoldable pub gateway_score : ℕ → ℕ → Option ℕ → ℕ
gateway_score hops load rtt_ms = hops * 100 + load / 2 + unwrap_or rtt_ms 0 / 10

unfoldable pub is_expired : RouteTableEntry → ℕ → ℕ → Bool
is_expired e max_age now = ltb max_age (now - e.last_seen)

pub data UpdateResult : Type 0 where
  changed unchanged : UpdateResult

pub record RoutingTable : Type 0 where
  pub self_id : NodeId
  pub is_gateway : Bool
  pub routes : Map NodeId RouteTableEntry
  pub direct_peers : List NodeId
  pub sequence : ℕ
  pub peer_max_seq : Map NodeId ℕ
  pub blacklisted_peers : List NodeId
  pub self_mesh_ip : Option Ipv4Addr
  pub mesh_ip_index : Map Ipv4Addr NodeId
  pub ipv4_prefix : Ipv4Prefix
  pub mesh_ip_collisions_total : ℕ

unfoldable pub new : NodeId → Bool → Ipv4Prefix → RoutingTable
new self_id is_gateway ipv4_prefix = record {
  self_id = self_id;
  is_gateway = is_gateway;
  routes = [];
  direct_peers = [];
  sequence = 0;
  peer_max_seq = [];
  blacklisted_peers = [];
  self_mesh_ip = none;
  mesh_ip_index = [];
  ipv4_prefix = ipv4_prefix;
  mesh_ip_collisions_total = 0;
}

unfoldable pub set_ipv4_prefix : RoutingTable → Ipv4Prefix → RoutingTable
set_ipv4_prefix t prefix = record t { ipv4_prefix = prefix }

unfoldable pub set_self_mesh_ip : RoutingTable → Ipv4Addr → RoutingTable
set_self_mesh_ip t mesh_ip = record t { self_mesh_ip = some mesh_ip }

abbrev pub ip_eq : Option Ipv4Addr → Ipv4Addr → Bool
ip_eq none ip = false
ip_eq (some a) ip = nat_eq a ip

-- The first half of `insert_route`: the index without the address that the old entry had, if the
-- derived one is another.
unfoldable pub unindex_old :
    Option RouteTableEntry → Ipv4Addr → Map Ipv4Addr NodeId → Map Ipv4Addr NodeId
unindex_old none derived index = index
unindex_old (some old) derived index =
    if ip_eq old.mesh_ip derived
    then index
    else elim old.mesh_ip [ none ↦ index | some old_ip ↦ remove old_ip index ]

-- The `match` of `insert_route`: the index and the number of new collisions.
unfoldable pub claim_ip :
    Option NodeId → NodeId → Ipv4Addr → Map Ipv4Addr NodeId → Map Ipv4Addr NodeId × ℕ
claim_ip none dst derived index = (insert derived dst index, 0)
claim_ip (some existing) dst derived index =
    if existing == dst then (insert derived dst index, 0) else (index, 1)

-- `remove_route`, with the entry that it returns.
unfoldable pub remove_route : RoutingTable → NodeId → Option RouteTableEntry × RoutingTable
remove_route t dst = elim (lookup dst t.routes) [
  | none ↦ (none, t)
  | some entry ↦
      let t' : RoutingTable = record t { routes = remove dst t.routes } in
      (
        some entry,
        elim entry.mesh_ip [
          | none ↦ t'
          | some ip ↦ elim (lookup ip t.mesh_ip_index) [
            | none ↦ t'
            | some owner ↦
                if owner == dst then record t' { mesh_ip_index = remove ip t.mesh_ip_index } else t'
          ]
        ],
      )
]

-- The loops that call `remove_route` on each collected destination.
unfoldable pub remove_each : List NodeId → RoutingTable → RoutingTable
remove_each [] t = t
remove_each (dst ∷ rest) t = remove_each rest (remove_route t dst).1

abbrev pub removal_result : List NodeId → UpdateResult
removal_result [] = unchanged
removal_result (dst ∷ rest) = changed

unfoldable pub remove_routes_via : RoutingTable → NodeId → UpdateResult × RoutingTable
remove_routes_via t peer =
    let to_remove = keys_where (λ dst e. e.next_hop == peer) t.routes in
    (removal_result to_remove, remove_each to_remove t)

unfoldable pub expire_stale : RoutingTable → ℕ → ℕ → UpdateResult × RoutingTable
expire_stale t max_age now =
    let expired = keys_where (λ dst e. is_expired e max_age now) t.routes in
    (removal_result expired, remove_each expired t)

unfoldable pub remove_peer : RoutingTable → NodeId → UpdateResult × RoutingTable
remove_peer t peer_id =
    remove_routes_via
      (record t {
        direct_peers = set_remove peer_id t.direct_peers;
        peer_max_seq = remove peer_id t.peer_max_seq;
      })
      peer_id

unfoldable pub blacklist_peer : RoutingTable → NodeId → UpdateResult × RoutingTable
blacklist_peer t peer_id =
    remove_routes_via (record t { blacklisted_peers = set_insert peer_id t.blacklisted_peers })
      peer_id

unfoldable pub unblacklist_peer : RoutingTable → NodeId → RoutingTable
unblacklist_peer t peer_id = record t { blacklisted_peers = set_remove peer_id t.blacklisted_peers }

unfoldable pub is_blacklisted : RoutingTable → NodeId → Bool
is_blacklisted t peer_id = contains peer_id t.blacklisted_peers

-- The entry of a peer that is one hop away.
abbrev pub neighbour_entry : NodeId → ℕ → ℕ → RouteTableEntry
neighbour_entry peer_id sequence now = record {
  next_hop = peer_id;
  hops = 1;
  is_gateway = false;
  last_seen = now;
  learned_from = peer_id;
  sequence = sequence;
  gateway_load = 0;
  rtt_ms = none;
  mesh_ip = none;
}

module _ (keyed_digest : NodeId → Bytes) where
  unfoldable pub insert_route : RoutingTable → NodeId → RouteTableEntry → RoutingTable
  unfolding unindex_old claim_ip
  insert_route t dst entry =
      let derived = derive_mesh_ipv4 keyed_digest dst t.ipv4_prefix in
      let index = unindex_old (lookup dst t.routes) derived t.mesh_ip_index in
      let claim = claim_ip (lookup derived index) dst derived index in
      record t {
        routes = insert dst (record entry { mesh_ip = some derived }) t.routes;
        mesh_ip_index = claim.0;
        mesh_ip_collisions_total = (t.mesh_ip_collisions_total + claim.1) % 2 ^ 64;
      }

  unfoldable pub add_peer : RoutingTable → NodeId → ℕ → RoutingTable
  add_peer t peer_id now =
      insert_route (record t { direct_peers = set_insert peer_id t.direct_peers }) peer_id
        (neighbour_entry peer_id 0 now)
