-- ===== src/Routing/Advertise/Honest.antt =====
-- crates/pim-routing/src/table.rs: what `generate_advertisement` tells a peer.
use proximity_internet_mesh.Base.{
  ℕ_eq, bytes_eq, ◌==◌, ◌≤◌, ◌≡◌, ◌≢◌, refl, ap, inl, inr, List, [], ◌∷◌, arith, Bool, true, false,
  not, ◌&&◌, none, some, Bool-cases, list_eq_iff, All, any, nat_eq, be_bytes, ==→ne, ==_refl,
}
use proximity_internet_mesh.Base.Map.{Map, lookup, IsDistinct}
use proximity_internet_mesh.Core.{NodeId}
use proximity_internet_mesh.Protocol.Route.{RouteEntry, is_gateway as advertises_gateway}
use proximity_internet_mesh.Routing.Table.{RouteTableEntry, RoutingTable, unwrap_or}
use proximity_internet_mesh.Routing.Table.Invariant.{IsWellFormed}
use proximity_internet_mesh.Routing.Update.{is_suspicious}
use proximity_internet_mesh.Routing.Advertise.{
  gateway_flag, advertised_hops, advertise_routes, self_entry, generate_advertisement,
}

-- The advertised entry `a` speaks of the entry `e`, at infinity to the peer that taught it.
pub record IsToldOf (to_peer : NodeId) (e : RouteTableEntry) (a : RouteEntry) : Type 0 where
  pub poisoned : e.learned_from ≡ to_peer → a.hops ≡ 16
  pub plain : e.learned_from ≢ to_peer → a.hops ≡ e.hops
  pub gateway : advertises_gateway a ≡ e.is_gateway
  pub address : a.mesh_ip ≡ be_bytes 4 (unwrap_or e.mesh_ip 0)

-- The advertised entry speaks of a route of the table, not of one to the peer.
abbrev pub IsOffer : NodeId → Map NodeId RouteTableEntry → RouteEntry → Type 0
IsOffer to_peer routes a =
    (e : RouteTableEntry) × (lookup a.destination routes ≡ some e)
    × (a.destination ≢ to_peer)
    × IsToldOf to_peer e a

-- A node's entry about itself.
pub record IsOwn (t : RoutingTable) (a : RouteEntry) : Type 0 where
  pub destination : a.destination ≡ t.self_id
  pub hops : a.hops ≡ 0
  pub gateway : advertises_gateway a ≡ t.is_gateway
  pub address : a.mesh_ip ≡ be_bytes 4 (unwrap_or t.self_mesh_ip 0)

-- What the loop makes of an entry.
abbrev made : NodeId → NodeId → RouteTableEntry → RouteEntry
made to_peer dst e = record {
  destination = dst;
  hops = advertised_hops to_peer e;
  flags = gateway_flag e.is_gateway;
  mesh_ip = be_bytes 4 (unwrap_or e.mesh_ip 0);
}

flag_read : (b : Bool) (a : RouteEntry) → a.flags ≡ gateway_flag b → advertises_gateway a ≡ b
unfolding advertises_gateway
flag_read true a h = ground arith
flag_read false a h = ground arith

made-IsToldOf :
    (to_peer dst : NodeId) (e : RouteTableEntry) → IsToldOf to_peer e (made to_peer dst e)
made-IsToldOf to_peer dst e = record {
  poisoned = λ h. rw ((list_eq_iff e.learned_from to_peer).1 h) refl;
  plain = λ h. elim (Bool-cases (e.learned_from == to_peer)) [
    | inl same ↦ absurd (h ((list_eq_iff e.learned_from to_peer).0 same))
    | inr other ↦ rw other refl
  ];
  gateway = flag_read e.is_gateway (made to_peer dst e) refl;
  address = refl;
}

IsOffer-later :
    (to_peer j : NodeId) (w : RouteTableEntry) (m : Map NodeId RouteTableEntry) (a : RouteEntry)
    → lookup j m ≡ none
    → IsOffer to_peer m a
    → IsOffer to_peer ((j, w) ∷ m) a
unfolding lookup
IsOffer-later to_peer j w m a fresh (e, at, other, same) =
    (e, ground (arith, list_eq_iff j a.destination, ap (λ (k : NodeId). lookup k m)), other, same)

All-imp :
    {P Q : RouteEntry → Type 0} (es : List RouteEntry)
    → ((a : RouteEntry) → P a → Q a)
    → All P es
    → All Q es
All-imp [] h p = tt
All-imp (e ∷ es) h (p, ps) = (h e p, All-imp es h ps)

pub advertise_routes-IsOffer :
    (to_peer : NodeId) (m : Map NodeId RouteTableEntry)
    → IsDistinct m
    → All (IsOffer to_peer m) (advertise_routes to_peer m)
unfolding advertise_routes
advertise_routes-IsOffer to_peer [] d = tt
advertise_routes-IsOffer to_peer ((dst, e) ∷ m) (fresh, d) =
    let rest = advertise_routes to_peer m in
    let later : All (IsOffer to_peer ((dst, e) ∷ m)) rest =
      All-imp rest (λ a. IsOffer-later to_peer dst e m a fresh)
        (advertise_routes-IsOffer to_peer m d) in
    elim (Bool-cases (dst == to_peer)) [
      | inl same ↦ rw same later
      | inr other ↦ rw other (
        (
          e,
          unfold lookup in rw (==_refl dst) refl,
          ==→ne dst to_peer other,
          made-IsToldOf to_peer dst e,
        ),
        later,
      )
    ]

-- Every route but the one to the peer is told of.
advertise_routes_complete :
    (to_peer dst : NodeId) (m : Map NodeId RouteTableEntry) (e : RouteTableEntry)
    → lookup dst m ≡ some e
    → dst ≢ to_peer
    → any (λ (a : RouteEntry). a.destination == dst) (advertise_routes to_peer m) ≡ true
unfolding advertise_routes lookup any
advertise_routes_complete to_peer dst [] e at apart = cc
advertise_routes_complete to_peer dst ((d, f) ∷ m) e at apart = elim (Bool-cases (d == dst)) [
  | inl here ↦
      let same : d ≡ dst = (list_eq_iff d dst).0 here in
      let other : (d == to_peer) ≡ false = elim (Bool-cases (d == to_peer)) [
        | inl to_it ↦ absurd (apart (cc (same, (list_eq_iff d to_peer).0 to_it)))
        | inr other ↦ other
      ] in
      rw (other, here) refl
  | inr there ↦
      let found : lookup dst m ≡ some e = ground arith in
      let told = advertise_routes_complete to_peer dst m e found apart in ground arith
]

-- What a node with a well-formed table tells a peer: itself, at no distance; then routes that it has,
-- none of them to the peer itself, each at its distance, or at 16 hops if the peer taught it, with the
-- gateway flag and the address of the route; and each of its routes that is not to the peer.
pub generate_advertisement-IsOffer :
    (t : RoutingTable) (to_peer : NodeId)
    → IsWellFormed t
    → (self : RouteEntry) × (rest : List RouteEntry) × ((generate_advertisement t to_peer).0.entries
        ≡ self ∷ rest)
      × IsOwn t self
      × All (IsOffer to_peer t.routes) rest
      × ((dst : NodeId) (e : RouteTableEntry)
          → lookup dst t.routes ≡ some e
          → dst ≢ to_peer
          → any (λ (a : RouteEntry). a.destination == dst) rest ≡ true)
unfolding generate_advertisement
generate_advertisement-IsOffer t to_peer v = (
  self_entry t,
  advertise_routes to_peer t.routes,
  refl,
  record {
    destination = refl;
    hops = refl;
    gateway = flag_read t.is_gateway (self_entry t) refl;
    address = refl;
  },
  advertise_routes-IsOffer to_peer t.routes v.distinct,
  λ dst e. advertise_routes_complete to_peer dst t.routes e,
)

-- The test of `is_suspicious` on one entry.
abbrev is_forged : NodeId → RouteEntry → Bool
is_forged origin e = nat_eq e.hops 0 && not (e.destination == origin)

none_forged :
    (origin : NodeId) (es : List RouteEntry)
    → All (λ e. 1 ≤ e.hops) es
    → any (is_forged origin) es ≡ false
unfolding any
none_forged origin [] h = refl
none_forged origin (e ∷ es) (p, ps) = ground (arith, none_forged origin es ps)

offered_hops :
    (t : RoutingTable) (to_peer : NodeId) (a : RouteEntry)
    → IsWellFormed t
    → IsOffer to_peer t.routes a
    → 1 ≤ a.hops
offered_hops t to_peer a v (e, at, other, told) =
    let r = v.proper a.destination e at in
    let low = r.at_least_one in
    elim (Bool-cases (e.learned_from == to_peer)) [
      | inl same ↦
          let far = told.poisoned ((list_eq_iff e.learned_from to_peer).0 same) in omega arith
      | inr differs ↦ let near = told.plain (==→ne e.learned_from to_peer differs) in omega arith
    ]

-- The advertisement of a node with a well-formed table passes the test by which a receiver drops forged updates.
pub generate_advertisement-is_suspicious :
    (t : RoutingTable) (to_peer : NodeId)
    → IsWellFormed t
    → is_suspicious (generate_advertisement t to_peer).0 ≡ false
unfolding generate_advertisement is_suspicious any
generate_advertisement-is_suspicious t to_peer v =
    let rest = advertise_routes to_peer t.routes in
    let p = none_forged t.self_id rest (
      All-imp rest (λ a. offered_hops t to_peer a v)
        (advertise_routes-IsOffer to_peer t.routes v.distinct)) in
    rw (==_refl t.self_id, p) refl
