-- ===== src/Gateway/Ports.antt =====
-- crates/pim-gateway/src/engine.rs, `PortPool`: the pool of external ports.
pub mod First
use proximity_internet_mesh.Base.{
  ℕ, zero, suc, ◌+◌, List, [], Bool, true, false, Option, none, some, leb, nat_eq, ℕ_eq,
  if◌then◌else◌,
}
use proximity_internet_mesh.Base.Map.{contains, set_insert, set_remove}

abbrev pub port_min : ℕ
port_min = 30000

abbrev pub port_max : ℕ
port_max = 59999

pub record PortPool : Type 0 where
  pub next : ℕ
  pub in_use : List ℕ

unfoldable pub empty_pool : PortPool
empty_pool = record { next = port_min; in_use = [] }

abbrev pub following : ℕ → ℕ
following port = if leb port_max port then port_min else port + 1

-- The loop of `allocate`: the port, if there is one, and the pool that is left.
unfoldable pub allocate_loop : ℕ → ℕ → PortPool → Option ℕ × PortPool
unfolding contains set_insert
allocate_loop zero start pool = (none, pool)
allocate_loop (suc fuel) start pool = elim (contains pool.next pool.in_use) [
  | false ↦ (
    some pool.next,
    record { next = following pool.next; in_use = set_insert pool.next pool.in_use },
  )
  | true ↦
      let moved : PortPool = record { next = following pool.next; in_use = pool.in_use } in
      elim (nat_eq moved.next start) [
        | true ↦ (none, moved)
        | false ↦ allocate_loop fuel start moved
      ]
]

unfoldable pub allocate : PortPool → Option ℕ × PortPool
unfolding allocate_loop
allocate pool = allocate_loop 30000 pool.next pool

unfoldable pub release : ℕ → PortPool → PortPool
unfolding set_remove
release port pool = record { next = pool.next; in_use = set_remove port pool.in_use }
