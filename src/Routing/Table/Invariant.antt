-- ===== src/Routing/Table/Invariant.antt =====
-- What holds of a routing table throughout: crates/pim-routing/src/table.rs.
use proximity_internet_mesh.Base.{
  ℕ_eq, bytes_eq, ◌==◌, ◌≤◌, ◌<◌, ◌≡◌, ◌≢◌, refl, sym, ap, subst, ◌∙◌, ◌⊎◌, inl, inr, List, [], ◌∷◌,
  arith, Bytes, Option, none, some, nat_eq, Bool-cases, Option-cases, list_eq_iff, nat_eq_iff,
  ==→eq, ==→ne, ne→==,
}
use proximity_internet_mesh.Base.Map.{
  Map, lookup, insert, remove, IsDistinct, lookup-insert, lookup-remove, insert-IsDistinct,
  remove-IsDistinct,
}
use proximity_internet_mesh.Core.{NodeId}
use proximity_internet_mesh.Core.MeshAddress.{Ipv4Addr, derive_mesh_ipv4}
use proximity_internet_mesh.Routing.Table.{
  infinity, RouteTableEntry, RoutingTable, ip_eq, unindex_old, claim_ip, remove_route, remove_each,
  insert_route,
}

-- A route is of 1 to 15 hops and goes through the peer that it was learned from.
pub record IsRoute (e : RouteTableEntry) : Type 0 where
  pub at_least_one : 1 ≤ e.hops
  pub finite : e.hops < infinity
  pub via_teacher : e.next_hop ≡ e.learned_from

-- Each key of the index is the address of the route that it names.
abbrev pub IsIndex : Map NodeId RouteTableEntry → Map Ipv4Addr NodeId → Type 0
IsIndex routes index =
    (ip : Ipv4Addr) (dst : NodeId)
    → lookup ip index ≡ some dst
    → (e : RouteTableEntry) × (lookup dst routes ≡ some e) × (e.mesh_ip ≡ some ip)

pub record IsWellFormed (t : RoutingTable) : Type 0 where
  pub distinct : IsDistinct t.routes
  pub proper : (dst : NodeId) (e : RouteTableEntry) → lookup dst t.routes ≡ some e → IsRoute e
  pub indexed : IsIndex t.routes t.mesh_ip_index

proper-remove :
    (dst : NodeId) (routes : Map NodeId RouteTableEntry)
    → ((d : NodeId) (e : RouteTableEntry) → lookup d routes ≡ some e → IsRoute e)
    → (d : NodeId) (e : RouteTableEntry) → lookup d (remove dst routes) ≡ some e
    → IsRoute e
proper-remove dst routes h d e found = h d e (ground (arith, lookup-remove dst d routes))

-- Removing a route of which the index does not speak keeps the index right.
unnamed-IsIndex :
    (dst : NodeId) (routes : Map NodeId RouteTableEntry) (index : Map Ipv4Addr NodeId)
    → IsIndex routes index
    → ((ip : Ipv4Addr) → lookup ip index ≢ some dst)
    → IsIndex (remove dst routes) index
unnamed-IsIndex dst routes index h unnamed ip d found =
    let (e, at, addr) = h ip d found in
    let other : dst ≢ d = λ p. unnamed ip (found ∙ ap some (sym p)) in
    (e, rw (lookup-remove dst d routes, ne→== dst d other) at, addr)

-- The index entries of a route all carry its address.
named-mesh_ip :
    (dst : NodeId) (routes : Map NodeId RouteTableEntry) (index : Map Ipv4Addr NodeId)
    (e : RouteTableEntry) (ip : Ipv4Addr)
    → IsIndex routes index
    → lookup dst routes ≡ some e
    → lookup ip index ≡ some dst
    → e.mesh_ip ≡ some ip
named-mesh_ip dst routes index e ip h at found =
    let (e', at', addr) = h ip dst found in ground arith

remove-IsIndex :
    (ip : Ipv4Addr) (routes : Map NodeId RouteTableEntry) (index : Map Ipv4Addr NodeId)
    → IsIndex routes index
    → IsIndex routes (remove ip index)
remove-IsIndex ip routes index h j d found = h j d (ground (arith, lookup-remove ip j index))

removed :
    (t : RoutingTable) (dst : NodeId)
    → IsWellFormed t
    → (index : Map Ipv4Addr NodeId) → IsIndex t.routes index
    → ((ip : Ipv4Addr) → lookup ip index ≢ some dst)
    → IsWellFormed (record t { routes = remove dst t.routes; mesh_ip_index = index })
removed t dst v index h unnamed = record {
  distinct = remove-IsDistinct dst t.routes v.distinct;
  proper = proper-remove dst t.routes v.proper;
  indexed = unnamed-IsIndex dst t.routes index h unnamed;
}

-- `remove_route` keeps a table well formed.
pub remove_route-IsWellFormed :
    (t : RoutingTable) (dst : NodeId) → IsWellFormed t → IsWellFormed (remove_route t dst).1
unfolding remove_route
remove_route-IsWellFormed t dst v = elim (Option-cases (lookup dst t.routes)) [
  | inl absent ↦ rw (absent, remove_route) v
  | inr (e, at) ↦ elim (Option-cases e.mesh_ip) [
    | inl bare ↦
        rw (at, bare, remove_route)
          (removed t dst v t.mesh_ip_index v.indexed
            λ ip p. cc (named-mesh_ip dst t.routes t.mesh_ip_index e ip v.indexed at p))
    | inr (ip, addr) ↦ elim (Option-cases (lookup ip t.mesh_ip_index)) [
      | inl free ↦
          rw (at, addr, free, remove_route)
            (removed t dst v t.mesh_ip_index v.indexed
              λ j p. ground (arith, named-mesh_ip dst t.routes t.mesh_ip_index e j v.indexed at p))
      | inr (owner, held) ↦ elim (Bool-cases (owner == dst)) [
        | inr other ↦
            rw (at, addr, held, other, remove_route)
              (removed t dst v t.mesh_ip_index v.indexed λ j p. ground (
                arith,
                named-mesh_ip dst t.routes t.mesh_ip_index e j v.indexed at p,
                list_eq_iff owner dst,
              ))
        | inl own ↦
            rw (at, addr, held, own, remove_route)
              (removed t dst v (remove ip t.mesh_ip_index)
                (remove-IsIndex ip t.routes t.mesh_ip_index v.indexed)
                λ j p. ground (
                  arith,
                  lookup-remove ip j t.mesh_ip_index,
                  named-mesh_ip dst t.routes t.mesh_ip_index e j v.indexed at,
                  nat_eq_iff ip j,
                ))
      ]
    ]
  ]
]

pub remove_each-IsWellFormed :
    (ds : List NodeId) (t : RoutingTable) → IsWellFormed t → IsWellFormed (remove_each ds t)
unfolding remove_each
remove_each-IsWellFormed [] t v = v
remove_each-IsWellFormed (d ∷ ds) t v =
    remove_each-IsWellFormed ds (remove_route t d).1 (remove_route-IsWellFormed t d v)

-- An index that is right but for the destination `dst`, which it names at `derived` only.
abbrev IsIndexBut : NodeId → Ipv4Addr → Map NodeId RouteTableEntry → Map Ipv4Addr NodeId → Type 0
IsIndexBut dst derived routes index =
    (ip : Ipv4Addr) (d : NodeId)
    → lookup ip index ≡ some d
    → ((d ≡ dst) × (ip ≡ derived))
      ⊎ ((d ≢ dst) × ((e : RouteTableEntry) × (lookup d routes ≡ some e) × (e.mesh_ip ≡ some ip)))

-- An index of `dst` at one address only is of that kind.
only-IsIndexBut :
    (dst : NodeId) (derived : Ipv4Addr) (routes : Map NodeId RouteTableEntry)
    (index : Map Ipv4Addr NodeId)
    → IsIndex routes index
    → ((ip : Ipv4Addr) → lookup ip index ≡ some dst → ip ≡ derived)
    → IsIndexBut dst derived routes index
only-IsIndexBut dst derived routes index h only ip d found = elim (Bool-cases (d == dst)) [
  | inl same ↦ let p = ==→eq d dst same in inl (p, only ip (found ∙ ap some p))
  | inr other ↦ inr (==→ne d dst other, h ip d found)
]

unindex_old-IsIndexBut :
    (dst : NodeId) (derived : Ipv4Addr) (routes : Map NodeId RouteTableEntry)
    (index : Map Ipv4Addr NodeId) (old : Option RouteTableEntry)
    → IsIndex routes index
    → lookup dst routes ≡ old
    → IsIndexBut dst derived routes (unindex_old old derived index)
unfolding unindex_old
unindex_old-IsIndexBut dst derived routes index none h at =
    only-IsIndexBut dst derived routes index h λ ip p. let (e, at', addr) = h ip dst p in cc
unindex_old-IsIndexBut dst derived routes index (some e) h at =
    elim (Bool-cases (ip_eq e.mesh_ip derived)) [
      | inl same ↦ rw same (
          only-IsIndexBut dst derived routes index h
            λ ip p. ground (arith, named-mesh_ip dst routes index e ip h at p))
      | inr differs ↦ elim (Option-cases e.mesh_ip) [
        | inl bare ↦
            rw (differs, bare)
              (only-IsIndexBut dst derived routes index h
                λ ip p. cc (named-mesh_ip dst routes index e ip h at p))
        | inr (old_ip, addr) ↦
            rw (differs, addr)
              (only-IsIndexBut dst derived routes (remove old_ip index)
                (remove-IsIndex old_ip routes index h)
                λ ip p. ground (
                  arith,
                  lookup-remove old_ip ip index,
                  named-mesh_ip dst routes index e ip h at,
                  nat_eq_iff old_ip ip,
                ))
      ]
    ]

insert-IsIndexBut :
    (dst : NodeId) (derived : Ipv4Addr) (routes : Map NodeId RouteTableEntry)
    (index : Map Ipv4Addr NodeId)
    → IsIndexBut dst derived routes index
    → IsIndexBut dst derived routes (insert derived dst index)
insert-IsIndexBut dst derived routes index h ip d found = elim (Bool-cases (nat_eq derived ip)) [
  | inl same ↦ inl (ground (arith, lookup-insert derived ip dst index))
  | inr other ↦ h ip d (ground (arith, lookup-insert derived ip dst index))
]

claim_ip-IsIndexBut :
    (dst : NodeId) (derived : Ipv4Addr) (routes : Map NodeId RouteTableEntry)
    (index : Map Ipv4Addr NodeId) (owner : Option NodeId)
    → IsIndexBut dst derived routes index
    → IsIndexBut dst derived routes (claim_ip owner dst derived index).0
unfolding claim_ip
claim_ip-IsIndexBut dst derived routes index none h = insert-IsIndexBut dst derived routes index h
claim_ip-IsIndexBut dst derived routes index (some owner) h = elim (Bool-cases (owner == dst)) [
  | inl own ↦ rw own (insert-IsIndexBut dst derived routes index h)
  | inr other ↦ rw other h
]

-- Adding a route under an index of that kind.
insert-IsIndex :
    (dst : NodeId) (derived : Ipv4Addr) (routes : Map NodeId RouteTableEntry)
    (index : Map Ipv4Addr NodeId) (e : RouteTableEntry)
    → e.mesh_ip ≡ some derived
    → IsIndexBut dst derived routes index
    → IsIndex (insert dst e routes) index
insert-IsIndex dst derived routes index e addr h ip d found = elim (h ip d found) [
  | inl (p, q) ↦
      (e, ground (arith, lookup-insert dst d e routes, list_eq_iff dst d), addr ∙ ap some (sym q))
  | inr (p, (e', at, addr')) ↦
      (e', rw (lookup-insert dst d e routes, ne→== dst d (λ x. p (sym x))) at, addr')
]

proper-insert :
    (dst : NodeId) (e : RouteTableEntry) (routes : Map NodeId RouteTableEntry)
    → IsRoute e
    → ((d : NodeId) (e' : RouteTableEntry) → lookup d routes ≡ some e' → IsRoute e')
    → (d : NodeId) (e' : RouteTableEntry) → lookup d (insert dst e routes) ≡ some e'
    → IsRoute e'
proper-insert dst e routes r h d e' found = elim (Bool-cases (dst == d)) [
  | inl same ↦ let p : e ≡ e' = ground (arith, lookup-insert dst d e routes) in subst IsRoute p r
  | inr other ↦ h d e' (ground (arith, lookup-insert dst d e routes))
]

module _ (keyed_digest : NodeId → Bytes) where
  -- Installing a proper route keeps a table well formed, collisions included.
  pub insert_route-IsWellFormed :
      (t : RoutingTable) (dst : NodeId) (e : RouteTableEntry)
      → IsWellFormed t
      → IsRoute e
      → IsWellFormed (insert_route keyed_digest t dst e)
  unfolding insert_route
  insert_route-IsWellFormed t dst e v r =
      let derived = derive_mesh_ipv4 keyed_digest dst t.ipv4_prefix in
      let e' : RouteTableEntry = record e { mesh_ip = some derived } in
      let index = unindex_old (lookup dst t.routes) derived t.mesh_ip_index in
      let claimed = (claim_ip (lookup derived index) dst derived index).0 in
      record {
        distinct = insert-IsDistinct dst e' t.routes v.distinct;
        proper =
            proper-insert dst e' t.routes
              (record {
                at_least_one = r.at_least_one;
                finite = r.finite;
                via_teacher = r.via_teacher;
              })
              v.proper;
        indexed = insert-IsIndex dst derived t.routes claimed e' refl (
            claim_ip-IsIndexBut dst derived t.routes index (lookup derived index) (
              unindex_old-IsIndexBut dst derived t.routes t.mesh_ip_index (lookup dst t.routes)
                v.indexed refl));
      }
