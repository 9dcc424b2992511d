-- ===== src/Routing/Select/Best.antt =====
-- crates/pim-routing/src/table.rs, `best_gateway_entry`: which gateway is chosen.
use proximity_internet_mesh.Base.{
  ℕ_eq, bytes_eq, ℕ, ◌+◌, ◌*◌, ◌/◌, ◌≤◌, ◌<◌, arith, ◌≡◌, refl, sym, ap, subst, ◌∙◌, inl, inr, Bool,
  true, false, Option, none, some, if◌then◌else◌, Option-cases,
}
use proximity_internet_mesh.Base.Map.{
  lookup, retain, IsDistinct, lookup-retain, retain-IsDistinct, passing,
}
use proximity_internet_mesh.Base.Map.Least.{min_by_key-some, min_by_key-none}
use proximity_internet_mesh.Core.{NodeId}
use proximity_internet_mesh.Routing.Table.{
  gateway_score, RouteTableEntry, RoutingTable, is_blacklisted,
}
use proximity_internet_mesh.Routing.Select.{is_usable, score, best_gateway_entry}

-- A route to a gateway that can be taken: of fewer than 16 hops, by a peer that is not excluded.
pub record IsUsable (t : RoutingTable) (e : RouteTableEntry) : Type 0 where
  pub gateway : e.is_gateway ≡ true
  pub near : e.hops < 16
  pub allowed : is_blacklisted t e.next_hop ≡ false

-- A hundred for each hop, a half of the load, a tenth of the round trip time in ms where it is known.
abbrev pub cost : RouteTableEntry → ℕ
cost e = e.hops * 100 + e.gateway_load / 2 + elim e.rtt_ms [ none ↦ 0 | some ms ↦ ms / 10 ]

-- The right answer to "which gateway": a usable route of the least cost, or that there is none.
abbrev pub IsBest : RoutingTable → Option (NodeId × RouteTableEntry) → Type 0
IsBest t none = (d : NodeId) (e : RouteTableEntry) → lookup d t.routes ≡ some e → ¬ IsUsable t e
IsBest t (some (best, e)) =
    (lookup best t.routes ≡ some e)
    × IsUsable t e
    × ((d : NodeId) (f : RouteTableEntry)
        → lookup d t.routes ≡ some f
        → IsUsable t f
        → cost e ≤ cost f)

is_usable-IsUsable : (t : RoutingTable) (e : RouteTableEntry) → is_usable t e ≡ true → IsUsable t e
unfolding is_blacklisted
is_usable-IsUsable t e h = record {
  gateway = ground arith;
  near = ground arith;
  allowed = ground arith;
}

IsUsable-is_usable : (t : RoutingTable) (e : RouteTableEntry) → IsUsable t e → is_usable t e ≡ true
unfolding is_blacklisted
IsUsable-is_usable t e u = let g = u.gateway in let n = u.near in let a = u.allowed in ground arith

score-cost : (e : RouteTableEntry) → score e ≡ cost e
unfolding gateway_score
score-cost e = elim (Option-cases e.rtt_ms) [
  | inl unknown ↦ rw unknown refl
  | inr (ms, known) ↦ rw known refl
]

if-some :
    (b : Bool) (f e : RouteTableEntry)
    → (if b then some f else none) ≡ some e
    → (f ≡ e) × (b ≡ true)
if-some true f e p = (cc, refl)
if-some false f e p = cc

-- A passing value is the value of the map, and passes.
passing-some :
    (t : RoutingTable) (d : NodeId) (o : Option RouteTableEntry) (e : RouteTableEntry)
    → passing (λ k f. is_usable t f) d o ≡ some e
    → (o ≡ some e) × (is_usable t e ≡ true)
passing-some t d none e p = cc
passing-some t d (some f) e p =
    let (same, fit) = if-some (is_usable t f) f e p in
    (ap some same, subst (λ (x : RouteTableEntry). is_usable t x ≡ true) same fit)

some-passing :
    (t : RoutingTable) (d : NodeId) (e : RouteTableEntry)
    → IsDistinct t.routes
    → lookup d t.routes ≡ some e
    → is_usable t e ≡ true
    → lookup d (retain (λ k f. is_usable t f) t.routes) ≡ some e
some-passing t d e h at fit = rw (lookup-retain (λ k f. is_usable t f) d t.routes h, at, fit) refl

best_gateway_entry-cases :
    (t : RoutingTable) (o : Option (NodeId × RouteTableEntry))
    → IsDistinct t.routes
    → best_gateway_entry t ≡ o
    → IsBest t o
unfolding best_gateway_entry
best_gateway_entry-cases t none h found = λ d e at u.
    let p = min_by_key-none score (retain (λ k f. is_usable t f) t.routes) found d in
    let q = some-passing t d e h at (IsUsable-is_usable t e u) in cc
best_gateway_entry-cases t (some (best, e)) h found =
    let usable = λ (k : NodeId) (f : RouteTableEntry). is_usable t f in
    let (p, q) =
      min_by_key-some score (retain usable t.routes) best e (retain-IsDistinct usable t.routes h)
        found in
    let (at, fit) =
      passing-some t best (lookup best t.routes) e
        (sym (lookup-retain usable best t.routes h) ∙ p) in
    (
      at,
      is_usable-IsUsable t e fit,
      λ d f at' u.
          rw (← score-cost e, ← score-cost f)
            (q d f (some-passing t d f h at' (IsUsable-is_usable t f u))),
    )

-- In a table of distinct destinations the chosen gateway is that of a route of fewer than 16 hops, by
-- a peer that is not excluded, and of these routes to gateways it has the least cost, of hops, load and
-- round trip time; none is chosen only if there is no such route.
pub best_gateway_entry-IsBest :
    (t : RoutingTable) → IsDistinct t.routes → IsBest t (best_gateway_entry t)
best_gateway_entry-IsBest t h = best_gateway_entry-cases t (best_gateway_entry t) h refl
