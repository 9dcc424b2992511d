-- ===== src/Gateway/Engine/Conntrack.antt =====
-- crates/pim-gateway/src/engine.rs, `Inner`: the two maps and the pool are kept in step.
pub mod Track
pub mod Drop
pub mod Calls
use proximity_internet_mesh.Base.{
  ℕ, zero, suc, ◌≤◌, ◌≡◌, ◌≢◌, ◌⊎◌, inl, inr, refl, sym, ap, subst, ◌∙◌, arith, Bool, true, false,
  ◌||◌, ◌&&◌, not, Option, none, some, Result, ok, err, nat_eq, ℕ_eq, nat_eq_iff, Eq, ◌==◌,
  Bool-cases, ==→eq, ==→ne, if◌then◌else◌,
}
use proximity_internet_mesh.Base.Map.{
  lookup, insert, remove, IsDistinct, insert-IsDistinct, remove-IsDistinct, lookup_inserted,
  lookup_removed, lookup-insert_self, lookup-insert_ne, lookup-remove_ne, contains, set_insert,
  set_remove, contains-set_insert, contains-set_remove,
}
use proximity_internet_mesh.Gateway.Ports.{
  PortPool, release, allocate, following, port_min, port_max,
}
use proximity_internet_mesh.Gateway.Ports.First.{IsPort, IsFirstFree, IsFull, allocate-IsFirstFree}
use proximity_internet_mesh.Gateway.Engine.{
  ConntrackKey, ConntrackEntry, conntrack_key_eq, ℕ_pair_eq, Inner, touch, track, find_or_track,
  drop_flow,
}

abbrev pub key_of : ConntrackEntry → ConntrackKey
key_of entry = record {
  proto = entry.proto;
  orig_src = entry.orig_src;
  orig_port = entry.orig_port;
}

-- Every flow has its own port, marked as used, and is found by it; every way back leads to a flow,
-- and every used port belongs to one.
pub record IsTracked (i : Inner) : Type 0 where
  pub distinct : IsDistinct i.forward
  pub named : (k : ConntrackKey) (e : ConntrackEntry) → lookup k i.forward ≡ some e → key_of e ≡ k
  pub linked :
      (k : ConntrackKey) (e : ConntrackEntry)
      → lookup k i.forward ≡ some e
      → lookup (e.proto, e.ext_port) i.reverse ≡ some k
  pub used :
      (k : ConntrackKey) (e : ConntrackEntry)
      → lookup k i.forward ≡ some e
      → contains e.ext_port i.ports.in_use ≡ true
  pub ranged :
      (k : ConntrackKey) (e : ConntrackEntry) → lookup k i.forward ≡ some e → IsPort e.ext_port
  pub back :
      (q : ℕ × ℕ) (k : ConntrackKey)
      → lookup q i.reverse ≡ some k
      → (e : ConntrackEntry) × (lookup k i.forward ≡ some e) × (q ≡ (e.proto, e.ext_port))
  pub unique :
      (k k' : ConntrackKey) (e e' : ConntrackEntry)
      → lookup k i.forward ≡ some e
      → lookup k' i.forward ≡ some e'
      → e.ext_port ≡ e'.ext_port
      → k ≡ k'
  pub held :
      (port : ℕ)
      → contains port i.ports.in_use ≡ true
      → (k : ConntrackKey) × (e : ConntrackEntry) × (lookup k i.forward ≡ some e)
        × (e.ext_port ≡ port)
  pub next_ranged : IsPort i.ports.next

abbrev pub seen_at : ℕ → ConntrackEntry → ConntrackEntry
seen_at now entry = record entry { last_seen = now }

-- An entry after a touch was there before, but for the time.
touched :
    (now : ℕ) (key k : ConntrackKey) (entry e' : ConntrackEntry) (i : Inner)
    → lookup key i.forward ≡ some entry
    → lookup k (touch now key entry i).forward ≡ some e'
    → (e : ConntrackEntry) × (lookup k i.forward ≡ some e)
      × (key_of e' ≡ key_of e)
      × (e'.ext_port ≡ e.ext_port)
unfolding touch
touched now key k entry e' i at h =
    elim (lookup_inserted key k (seen_at now entry) e' i.forward h) [
      | inl (here, same) ↦ (
        entry,
        subst (λ (x : ConntrackKey). lookup x i.forward ≡ some entry) here at,
        ap key_of (sym same),
        ap (λ (e : ConntrackEntry). e.ext_port) (sym same),
      )
      | inr (off, there) ↦ (e', there, refl, refl)
    ]

-- And an entry that was there is there, but for the time.
pub still :
    (now : ℕ) (key k : ConntrackKey) (entry e : ConntrackEntry) (i : Inner)
    → lookup key i.forward ≡ some entry
    → lookup k i.forward ≡ some e
    → (e' : ConntrackEntry) × (lookup k (touch now key entry i).forward ≡ some e')
      × (key_of e' ≡ key_of e)
      × (e'.ext_port ≡ e.ext_port)
unfolding touch
still now key k entry e i at h = elim (Bool-cases (key == k)) [
  | inl here ↦
      let j : key ≡ k = ==→eq key k here in
      let same : entry ≡ e = ground (arith, ap (λ (x : ConntrackKey). lookup x i.forward) j) in
      (
        seen_at now entry,
        subst
            (λ (x : ConntrackKey).
              lookup x (touch now key entry i).forward ≡ some (seen_at now entry))
            j (lookup-insert_self key (seen_at now entry) i.forward),
        ap key_of same,
        ap (λ (x : ConntrackEntry). x.ext_port) same,
      )
  | inr off ↦
      (e, lookup-insert_ne key k (seen_at now entry) i.forward (==→ne key k off) ∙ h, refl, refl)
]

pub touch-IsTracked :
    (now : ℕ) (key : ConntrackKey) (entry : ConntrackEntry) (i : Inner)
    → lookup key i.forward ≡ some entry
    → IsTracked i
    → IsTracked (touch now key entry i)
unfolding touch
touch-IsTracked now key entry i at t = record {
  distinct = insert-IsDistinct key (seen_at now entry) i.forward t.distinct;
  named = λ k e' h.
      let (e, old, same, port) = touched now key k entry e' i at h in same ∙ t.named k e old;
  linked = λ k e' h.
      let (e, old, same, port) = touched now key k entry e' i at h in
      rw (ap (λ (x : ConntrackKey). x.proto) same, port) (t.linked k e old);
  used = λ k e' h.
      let (e, old, same, port) = touched now key k entry e' i at h in rw port (t.used k e old);
  ranged = λ k e' h.
      let (e, old, same, port) = touched now key k entry e' i at h in rw port (t.ranged k e old);
  back = λ q k h.
      let (e, old, at_port) = t.back q k h in
      let (e', there, same, port) = still now key k entry e i at old in
      (e', there, rw (ap (λ (x : ConntrackKey). x.proto) same, port) at_port);
  unique = λ k k' e e' h h' p.
      let (d, old, same, port) = touched now key k entry e i at h in
      let (d', old', same', port') = touched now key k' entry e' i at h' in
      t.unique k k' d d' old old' (sym port ∙ p ∙ port');
  held = λ port h.
      let (k, e, old, here) = t.held port h in
      let (e', there, same, kept) = still now key k entry e i at old in (k, e', there, kept ∙ here);
  next_ranged = t.next_ranged;
}
