-- ===== src/Core/MeshAddress.antt =====
-- crates/pim-core/src/mesh_address.rs: mesh IPv4 addresses from node identifiers. An address is its
-- 32-bit number. `x & (2 ^ k - 1)` is `x % 2 ^ k`, and `|` of disjoint bits is `+`.
pub mod Range
use proximity_internet_mesh.Base.{
  ℕ, ◌+◌, ◌-◌, ◌%◌, ◌^◌, Bytes, Bool, take, be_value, leb, nat_eq, if◌then◌else◌,
}
use proximity_internet_mesh.Core.{NodeId}

abbrev pub Ipv4Addr : Type 0
Ipv4Addr = ℕ

pub record Ipv4Prefix : Type 0 where
  pub network : Ipv4Addr
  pub prefix_len : ℕ

-- The number of addresses that share a prefix: the host mask and one.
unfoldable pub host_count : Ipv4Prefix → ℕ
host_count prefix =
    let host_bits = 32 - prefix.prefix_len in if leb 32 host_bits then 2 ^ 32 else 2 ^ host_bits

-- The digest, `blake3::keyed_hash` under the key of the context, is a parameter.
module _ (keyed_digest : NodeId → Bytes) where
  unfoldable pub derive_mesh_ipv4 : NodeId → Ipv4Prefix → Ipv4Addr
  unfolding host_count
  derive_mesh_ipv4 node_id prefix =
      let host_bits = 32 - prefix.prefix_len in
      let count = host_count prefix in
      if nat_eq host_bits 0
      then prefix.network
      else (let raw = be_value (take 4 (keyed_digest node_id)) in
          let drawn = raw % count in
          let host =
            if leb 2 host_bits
            then (if nat_eq drawn 0
                then 1
                else if nat_eq drawn (count - 1)
                then count - 2
                else drawn)
            else drawn in
          (prefix.network - prefix.network % count) + host)

  unfoldable pub verify_mesh_ipv4 : NodeId → Ipv4Addr → Ipv4Prefix → Bool
  unfolding derive_mesh_ipv4
  verify_mesh_ipv4 node_id claimed prefix = nat_eq (derive_mesh_ipv4 node_id prefix) claimed
