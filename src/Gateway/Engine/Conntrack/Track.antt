-- ===== src/Gateway/Engine/Conntrack/Track.antt =====
-- crates/pim-gateway/src/engine.rs, `translate_outbound`: a new flow keeps the maps in step.
use proximity_internet_mesh.Base.{
  ℕ, ◌≡◌, ◌≢◌, ◌⊎◌, inl, inr, sym, ap, subst, ◌∙◌, arith, true, false, ◌||◌, none, some, ℕ_eq, ◌==◌,
  Bool-cases, ==→eq,
}
use proximity_internet_mesh.Base.Map.{
  lookup, insert-IsDistinct, lookup_inserted, lookup-insert_self, lookup-insert_ne, contains,
  set_insert, contains-set_insert,
}
use proximity_internet_mesh.Gateway.Ports.{PortPool}
use proximity_internet_mesh.Gateway.Ports.First.{IsPort}
use proximity_internet_mesh.Gateway.Engine.{
  ConntrackKey, ConntrackEntry, conntrack_key_eq, ℕ_pair_eq, Inner, track,
}
use proximity_internet_mesh.Gateway.Engine.Conntrack.{IsTracked, key_of}

abbrev pub started : ℕ → ConntrackKey → ℕ → ConntrackEntry
started now key port = record {
  ext_port = port;
  last_seen = now;
  orig_src = key.orig_src;
  orig_port = key.orig_port;
  proto = key.proto;
}

module _ (now : ℕ) (key : ConntrackKey) (port : ℕ) (pool : PortPool) (i : Inner)
    (new_key : lookup key i.forward ≡ none) (free : contains port i.ports.in_use ≡ false)
    (in_range : IsPort port) (next_range : IsPort pool.next)
    (taken : pool.in_use ≡ set_insert port i.ports.in_use) (t : IsTracked i) where
  abbrev pub after : Inner
  unfolding track
  after = track now key port pool i

  added :
      (k : ConntrackKey) (e : ConntrackEntry)
      → lookup k after.forward ≡ some e
      → (key ≡ k) × (started now key port ≡ e) ⊎ (key ≢ k) × (lookup k i.forward ≡ some e)
  unfolding track
  added k e h = lookup_inserted key k (started now key port) e i.forward h

  old_port :
      (k : ConntrackKey) (e : ConntrackEntry) → lookup k i.forward ≡ some e → e.ext_port ≢ port
  old_port k e h same = cc (free, t.used k e h, ap (λ (x : ℕ). contains x i.ports.in_use) same)

  old_key : (k : ConntrackKey) (e : ConntrackEntry) → lookup k i.forward ≡ some e → key ≢ k
  old_key k e h same = ground (arith, ap (λ (x : ConntrackKey). lookup x i.forward) same)

  pub kept :
      (k : ConntrackKey) (e : ConntrackEntry)
      → lookup k i.forward ≡ some e
      → lookup k after.forward ≡ some e
  unfolding track
  kept k e h = lookup-insert_ne key k (started now key port) i.forward (old_key k e h) ∙ h

  pub here : lookup key after.forward ≡ some (started now key port)
  unfolding track
  here = lookup-insert_self key (started now key port) i.forward

  marked : (x : ℕ) → contains x after.ports.in_use ≡ (port == x || contains x i.ports.in_use)
  unfolding track
  marked x = rw taken (contains-set_insert port x i.ports.in_use)

  named : (k : ConntrackKey) (e : ConntrackEntry) → lookup k after.forward ≡ some e → key_of e ≡ k
  named k e h = elim (added k e h) [
    | inl (same, entry) ↦ ap key_of (sym entry) ∙ same
    | inr (off, old) ↦ t.named k e old
  ]

  linked :
      (k : ConntrackKey) (e : ConntrackEntry)
      → lookup k after.forward ≡ some e
      → lookup (e.proto, e.ext_port) after.reverse ≡ some k
  unfolding track
  linked k e h = elim (added k e h) [
    | inl (same, entry) ↦
        subst (λ (x : ConntrackEntry). lookup (x.proto, x.ext_port) after.reverse ≡ some k) entry
          (lookup-insert_self (key.proto, port) key i.reverse ∙ ap some same)
    | inr (off, old) ↦
        lookup-insert_ne (key.proto, port) (e.proto, e.ext_port) key i.reverse
          (λ p. old_port k e old (sym (ap (λ (x : ℕ × ℕ). x.1) p)))
        ∙ t.linked k e old
  ]

  used :
      (k : ConntrackKey) (e : ConntrackEntry)
      → lookup k after.forward ≡ some e
      → contains e.ext_port after.ports.in_use ≡ true
  used k e h = elim (added k e h) [
    | inl (same, entry) ↦
        ground (arith, marked e.ext_port, ap (λ (x : ConntrackEntry). x.ext_port) entry)
    | inr (off, old) ↦ ground (arith, marked e.ext_port, t.used k e old)
  ]

  ranged :
      (k : ConntrackKey) (e : ConntrackEntry) → lookup k after.forward ≡ some e → IsPort e.ext_port
  ranged k e h = elim (added k e h) [
    | inl (same, entry) ↦ subst (λ (x : ConntrackEntry). IsPort x.ext_port) entry in_range
    | inr (off, old) ↦ t.ranged k e old
  ]

  back :
      (q : ℕ × ℕ) (k : ConntrackKey)
      → lookup q after.reverse ≡ some k
      → (e : ConntrackEntry) × (lookup k after.forward ≡ some e) × (q ≡ (e.proto, e.ext_port))
  unfolding track
  back q k h = elim (lookup_inserted (key.proto, port) q key k i.reverse h) [
    | inl (at, same) ↦ (
      started now key port,
      subst (λ (x : ConntrackKey). lookup x after.forward ≡ some (started now key port)) same here,
      sym at,
    )
    | inr (off, old) ↦ let (e, there, at) = t.back q k old in (e, kept k e there, at)
  ]

  unique :
      (k k' : ConntrackKey) (e e' : ConntrackEntry)
      → lookup k after.forward ≡ some e
      → lookup k' after.forward ≡ some e'
      → e.ext_port ≡ e'.ext_port
      → k ≡ k'
  unique k k' e e' h h' p = elim (added k e h) [
    | inl (same, entry) ↦ elim (added k' e' h') [
      | inl (same', entry') ↦ sym same ∙ same'
      | inr (off, old) ↦
          absurd (old_port k' e' old (sym p ∙ ap (λ (x : ConntrackEntry). x.ext_port) (sym entry)))
    ]
    | inr (off, old) ↦ elim (added k' e' h') [
      | inl (same', entry') ↦
          absurd (old_port k e old (p ∙ ap (λ (x : ConntrackEntry). x.ext_port) (sym entry')))
      | inr (off', old') ↦ t.unique k k' e e' old old' p
    ]
  ]

  held :
      (x : ℕ)
      → contains x after.ports.in_use ≡ true
      → (k : ConntrackKey) × (e : ConntrackEntry) × (lookup k after.forward ≡ some e)
        × (e.ext_port ≡ x)
  held x h = elim (Bool-cases (port == x)) [
    | inl hit ↦ (key, started now key port, here, ==→eq port x hit)
    | inr miss ↦
        let (k, e, old, at) = t.held x (ground (arith, marked x)) in (k, e, kept k e old, at)
  ]

  pub track-IsTracked : IsTracked (track now key port pool i)
  unfolding track
  track-IsTracked = record {
    distinct = insert-IsDistinct key (started now key port) i.forward t.distinct;
    named = named;
    linked = linked;
    used = used;
    ranged = ranged;
    back = back;
    unique = unique;
    held = held;
    next_ranged = next_range;
  }
