-- ===== src/Gateway/Engine/Conntrack/Drop.antt =====
-- crates/pim-gateway/src/engine.rs, `cleanup_expired`: dropping flows keeps the maps in step.
use proximity_internet_mesh.Base.{
  ℕ, ◌≡◌, ◌≢◌, inl, inr, refl, sym, ap, ◌∙◌, arith, List, [], ◌∷◌, true, false, ◌&&◌, not, none,
  some, ℕ_eq, ◌==◌, Bool-cases, Option-cases, ==→eq, ==→ne, ne→==, if◌then◌else◌,
}
use proximity_internet_mesh.Base.Map.{
  lookup, remove, remove-IsDistinct, lookup_removed, lookup-remove_ne, contains,
  contains-set_remove, lookup-remove,
}
use proximity_internet_mesh.Gateway.Ports.{release}
use proximity_internet_mesh.Gateway.Engine.{
  ConntrackKey, ConntrackEntry, conntrack_key_eq, ℕ_pair_eq, Inner, drop_flow, drop_flows,
}
use proximity_internet_mesh.Gateway.Engine.Conntrack.{IsTracked}

module _ (key : ConntrackKey) (gone : ConntrackEntry) (i : Inner)
    (there : lookup key i.forward ≡ some gone) (t : IsTracked i) where
  abbrev after : Inner
  after = record {
    forward = remove key i.forward;
    reverse = remove (gone.proto, gone.ext_port) i.reverse;
    ports = release gone.ext_port i.ports;
  }

  other_port :
      (k : ConntrackKey) (e : ConntrackEntry)
      → key ≢ k
      → lookup k i.forward ≡ some e
      → gone.ext_port ≢ e.ext_port
  other_port k e off h p = off (t.unique key k gone e there h p)

  marked :
      (x : ℕ)
      → contains x after.ports.in_use ≡ (not (gone.ext_port == x) && contains x i.ports.in_use)
  unfolding release
  marked x = contains-set_remove gone.ext_port x i.ports.in_use

  used :
      (k : ConntrackKey) (e : ConntrackEntry)
      → lookup k after.forward ≡ some e
      → contains e.ext_port after.ports.in_use ≡ true
  used k e h =
      let (off, old) = lookup_removed key k e i.forward h in
      rw (marked e.ext_port, ne→== gone.ext_port e.ext_port (other_port k e off old))
        (t.used k e old)

  linked :
      (k : ConntrackKey) (e : ConntrackEntry)
      → lookup k after.forward ≡ some e
      → lookup (e.proto, e.ext_port) after.reverse ≡ some k
  linked k e h =
      let (off, old) = lookup_removed key k e i.forward h in
      lookup-remove_ne (gone.proto, gone.ext_port) (e.proto, e.ext_port) i.reverse
        (λ p. other_port k e off old (ap (λ (x : ℕ × ℕ). x.1) p))
      ∙ t.linked k e old

  back :
      (q : ℕ × ℕ) (k : ConntrackKey)
      → lookup q after.reverse ≡ some k
      → (e : ConntrackEntry) × (lookup k after.forward ≡ some e) × (q ≡ (e.proto, e.ext_port))
  back q k h =
      let (off, old) = lookup_removed (gone.proto, gone.ext_port) q k i.reverse h in
      let (e, found, at) = t.back q k old in
      let apart : key ≢ k = λ (same : key ≡ k).
        let entry : gone ≡ e = ground (arith, ap (λ (x : ConntrackKey). lookup x i.forward) same) in
        off (ap (λ (x : ConntrackEntry). (x.proto, x.ext_port)) entry ∙ sym at) in
      (e, lookup-remove_ne key k i.forward apart ∙ found, at)

  held :
      (x : ℕ)
      → contains x after.ports.in_use ≡ true
      → (k : ConntrackKey) × (e : ConntrackEntry) × (lookup k after.forward ≡ some e)
        × (e.ext_port ≡ x)
  held x h =
      let off : (gone.ext_port == x) ≡ false = ground (arith, marked x) in
      let (k, e, old, at) = t.held x (ground (arith, marked x)) in
      let apart : key ≢ k = λ (same : key ≡ k).
        let entry : gone ≡ e = ground (arith, ap (λ (j : ConntrackKey). lookup j i.forward) same) in
        ==→ne gone.ext_port x off (ap (λ (d : ConntrackEntry). d.ext_port) entry ∙ at) in
      (k, e, lookup-remove_ne key k i.forward apart ∙ old, at)

  removed-IsTracked : IsTracked after
  unfolding release
  removed-IsTracked = record {
    distinct = remove-IsDistinct key i.forward t.distinct;
    named = λ k e h. let (off, old) = lookup_removed key k e i.forward h in t.named k e old;
    linked = linked;
    used = used;
    ranged = λ k e h. let (off, old) = lookup_removed key k e i.forward h in t.ranged k e old;
    back = back;
    unique = λ k k' e e' h h' p.
        let (off, old) = lookup_removed key k e i.forward h in
        let (off', old') = lookup_removed key k' e' i.forward h' in t.unique k k' e e' old old' p;
    held = held;
    next_ranged = t.next_ranged;
  }

pub drop_flow-IsTracked :
    (key : ConntrackKey) (i : Inner) → IsTracked i → IsTracked (drop_flow key i)
unfolding drop_flow
drop_flow-IsTracked key i t = elim (Option-cases (lookup key i.forward)) [
  | inl none_there ↦ rw (drop_flow, none_there) t
  | inr (gone, there) ↦ rw (drop_flow, there) (removed-IsTracked key gone i there t)
]

pub drop_flows-IsTracked :
    (keys : List ConntrackKey) (i : Inner) → IsTracked i → IsTracked (drop_flows keys i)
unfolding drop_flows
drop_flows-IsTracked [] i t = t
drop_flows-IsTracked (key ∷ keys) i t =
    drop_flows-IsTracked keys (drop_flow key i) (drop_flow-IsTracked key i t)

-- Of the flows, dropping leaves those that it is not told to drop.
pub lookup-drop_flow :
    (key k : ConntrackKey) (i : Inner)
    → lookup k (drop_flow key i).forward ≡ (if key == k then none else lookup k i.forward)
unfolding drop_flow
lookup-drop_flow key k i = elim (Option-cases (lookup key i.forward)) [
  | inl none_there ↦
      rw (drop_flow, none_there)
        (elim (Bool-cases (key == k)) [
          | inl hit ↦ rw hit (rw (← ==→eq key k hit) none_there)
          | inr miss ↦ rw miss refl
        ])
  | inr (gone, there) ↦ rw (drop_flow, there) (lookup-remove key k i.forward)
]

pub lookup-drop_flows :
    (keys : List ConntrackKey) (k : ConntrackKey) (i : Inner)
    → lookup k (drop_flows keys i).forward ≡ (if contains k keys then none else lookup k i.forward)
unfolding drop_flows contains
lookup-drop_flows [] k i = refl
lookup-drop_flows (key ∷ keys) k i =
    ground (arith, lookup-drop_flows keys k (drop_flow key i), lookup-drop_flow key k i)
