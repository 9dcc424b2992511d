-- ===== src/Core/MeshAddress/Range.antt =====
-- crates/pim-core/src/mesh_address.rs, `derive_mesh_ipv4`: where the addresses lie.
use native.Mathlib.Nat.{
  div-add-mod, add-mul-mod_self_left, add-mul-div_left, pow-le-pow_right, mod-lt, mod-eq_of_lt,
  div-eq_of_lt,
}
use proximity_internet_mesh.Base.{
  ℕ, ◌+◌, ◌-◌, ◌*◌, ◌/◌, ◌%◌, ◌^◌, ◌≤◌, ◌<◌, ◌≡◌, refl, arith, Bytes, true, false, take, be_value,
  leb, nat_eq, inl, inr, if◌then◌else◌, Bool-cases,
}
use proximity_internet_mesh.Core.{NodeId}
use proximity_internet_mesh.Core.MeshAddress.{Ipv4Prefix, host_count, derive_mesh_ipv4}

regroup : (n r q h : ℕ) → q + r ≡ n → (n - r) + h ≡ h + q
regroup n r q h e = omega arith

split : (n c h : ℕ) → (n - n % c) + h ≡ h + c * (n / c)
split n c h = regroup n (n % c) (c * (n / c)) h (div-add-mod n c)

split-mod : (n c h : ℕ) → h < c → ((n - n % c) + h) % c ≡ h
split-mod n c h p = rw (split n c h, add-mul-mod_self_left h c (n / c)) (mod-eq_of_lt p)

split-div : (n c h : ℕ) → h < c → ((n - n % c) + h) / c ≡ n / c
split-div n c h p =
    let low : 0 < c = omega arith in
    rw (split n c h, add-mul-div_left h (n / c) low) (rw (div-eq_of_lt p) (omega arith))

four : (k : ℕ) → 2 ≤ k → 4 ≤ 2 ^ k
four k h = let p : 2 ^ 2 ≤ 2 ^ k = pow-le-pow_right {n = 2} (omega arith) h in omega arith

-- The choice of the host part.
abbrev reserved : ℕ → ℕ → ℕ
reserved count drawn =
    if nat_eq drawn 0 then 1 else if nat_eq drawn (count - 1) then count - 2 else drawn

reserved-range :
    (count drawn : ℕ)
    → 4 ≤ count
    → drawn < count
    → (1 ≤ reserved count drawn) × (reserved count drawn < count - 1)
reserved-range count drawn h p = ground arith

host_count-range : (prefix : Ipv4Prefix) → prefix.prefix_len ≤ 30 → 4 ≤ host_count prefix
unfolding host_count
host_count-range prefix h = elim (Bool-cases (leb 32 (32 - prefix.prefix_len))) [
  | inl whole ↦ rw (whole, host_count) (omega arith)
  | inr part ↦ rw (part, host_count) (four (32 - prefix.prefix_len) (omega arith))
]

module _ (keyed_digest : NodeId → Bytes) where
  abbrev chosen : NodeId → Ipv4Prefix → ℕ
  chosen id prefix =
      reserved (host_count prefix) (be_value (take 4 (keyed_digest id)) % host_count prefix)

  derive_mesh_ipv4-eq :
      (id : NodeId) (prefix : Ipv4Prefix)
      → prefix.prefix_len ≤ 30
      → derive_mesh_ipv4 keyed_digest id prefix
        ≡ (prefix.network - prefix.network % host_count prefix) + chosen id prefix
  unfolding derive_mesh_ipv4
  derive_mesh_ipv4-eq id prefix h =
      let some_bits : nat_eq (32 - prefix.prefix_len) 0 ≡ false = ground arith in
      let two_bits : leb 2 (32 - prefix.prefix_len) ≡ true = ground arith in
      rw (some_bits, two_bits, derive_mesh_ipv4) refl

  -- In a prefix of at most 30 bits the address of a node, whatever its identifier, is in the network
  -- of the prefix, and is neither the network's address nor its broadcast address.
  pub derive_mesh_ipv4-range :
      (id : NodeId) (prefix : Ipv4Prefix)
      → prefix.prefix_len ≤ 30
      → let address = derive_mesh_ipv4 keyed_digest id prefix in
        let count = host_count prefix in
        (address / count ≡ prefix.network / count)
        × (1 ≤ address % count)
        × (address % count < count - 1)
  derive_mesh_ipv4-range id prefix h =
      let count = host_count prefix in
      let big : 4 ≤ count = host_count-range prefix h in
      let some_hosts : 0 < count = omega arith in
      let (low, high) =
        reserved-range count (be_value (take 4 (keyed_digest id)) % count) big
          (mod-lt (be_value (take 4 (keyed_digest id))) some_hosts) in
      let inside : chosen id prefix < count = omega arith in
      rw
        (
          derive_mesh_ipv4-eq id prefix h,
          split-div prefix.network count (chosen id prefix) inside,
          split-mod prefix.network count (chosen id prefix) inside,
        )
        (refl, low, high)
