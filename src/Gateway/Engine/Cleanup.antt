-- ===== src/Gateway/Engine/Cleanup.antt =====
-- crates/pim-gateway/src/engine.rs, `cleanup_expired`: which flows it leaves.
use proximity_internet_mesh.Base.{ℕ, ◌≡◌, inl, inr, refl, not, ℕ_eq, Bool-cases, Option-cases}
use proximity_internet_mesh.Base.Map.{lookup, keys_where, passing}
use proximity_internet_mesh.Gateway.Engine.{
  ConntrackKey, ConntrackEntry, conntrack_key_eq, ℕ_pair_eq,
}
use proximity_internet_mesh.Gateway.Engine.Conntrack.{IsTracked}
use proximity_internet_mesh.Base.Map.{contains-keys_where}
use proximity_internet_mesh.Gateway.Engine.{GatewayEngine, is_expired, cleanup_expired}
use proximity_internet_mesh.Gateway.Engine.Conntrack.Drop.{lookup-drop_flows}

-- With the maps in step, a cleanup leaves every flow whose entry has not expired when it is
-- looked at, as it was, and no other.
pub cleanup_expired-lookup :
    (clock : ConntrackKey → ℕ) (g : GatewayEngine) (k : ConntrackKey)
    → IsTracked g.inner
    → lookup k (cleanup_expired clock g).inner.forward
      ≡ passing
          (λ (key : ConntrackKey) (entry : ConntrackEntry). not (is_expired (clock key) entry))
          k
          (lookup k g.inner.forward)
unfolding cleanup_expired
cleanup_expired-lookup clock g k t =
    let test = λ (key : ConntrackKey) (entry : ConntrackEntry). is_expired (clock key) entry in
    let left = lookup-drop_flows (keys_where test g.inner.forward) k g.inner in
    let chosen = contains-keys_where test k g.inner.forward t.distinct in
    elim (Option-cases (lookup k g.inner.forward)) [
      | inl off ↦ rw (left, chosen, off) refl
      | inr (entry, there) ↦ elim (Bool-cases (is_expired (clock k) entry)) [
        | inl old ↦ rw (left, chosen, there, is_expired, old) refl
        | inr young ↦ rw (left, chosen, there, is_expired, young) refl
      ]
    ]
