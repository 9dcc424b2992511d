-- ===== src/Gateway/Ports/First.antt =====
-- crates/pim-gateway/src/engine.rs, `PortPool::allocate`: which port it finds, and that the loop ends.
use proximity_internet_mesh.Base.{
  ℕ, zero, suc, ◌+◌, ◌-◌, ◌%◌, ◌≤◌, ◌<◌, ◌≡◌, ◌≢◌, inl, inr, refl, subst, nat_eq_iff, ap, ◌∙◌,
  arith, List, true, false, Bool-cases, Option, none, some, nat_eq, ℕ_eq,
}
use proximity_internet_mesh.Base.Map.{contains, set_insert}
use proximity_internet_mesh.Gateway.Ports.{
  PortPool, port_min, port_max, following, allocate_loop, allocate,
}

abbrev pub IsPort : ℕ → Type 0
IsPort port = (port_min ≤ port) × (port ≤ port_max)

-- The port `i` places after `start`, in the cycle of the pool.
abbrev pub cyclic : ℕ → ℕ → ℕ
cyclic start i = port_min + (start - port_min + i) % 30000

-- Every port of the pool is in use.
abbrev pub IsFull : List ℕ → Type 0
IsFull in_use = (port : ℕ) → IsPort port → contains port in_use ≡ true

-- The pool's first free port, counted from `start`, is handed out; or there is none.
abbrev pub IsFirstFree : ℕ → List ℕ → Option ℕ × PortPool → Type 0
IsFirstFree start in_use (some port, pool) =
    (i : ℕ) × (i < 30000)
    × (port ≡ cyclic start i)
    × (contains port in_use ≡ false)
    × ((j : ℕ) → j < i → contains (cyclic start j) in_use ≡ true)
    × (pool.next ≡ following port)
    × (pool.in_use ≡ set_insert port in_use)
IsFirstFree start in_use (none, pool) = IsFull in_use × (pool.next ≡ start) × (pool.in_use ≡ in_use)

following-cyclic : (start i : ℕ) → IsPort start → following (cyclic start i) ≡ cyclic start (suc i)
following-cyclic start i (lo, hi) = ground arith

-- All of the cycle is all of the ports.
cyclic-IsFull :
    (start : ℕ) (in_use : List ℕ)
    → IsPort start
    → ((j : ℕ) → j < 30000 → contains (cyclic start j) in_use ≡ true)
    → IsFull in_use
cyclic-IsFull start in_use (lo, hi) all port (lo', hi') =
    let j = (port + 30000 - start) % 30000 in
    let e : cyclic start j ≡ port = omega arith in rw (← e) (all j (omega arith))

seen_more :
    (start i : ℕ) (in_use : List ℕ)
    → ((j : ℕ) → j < i → contains (cyclic start j) in_use ≡ true)
    → contains (cyclic start i) in_use ≡ true
    → (j : ℕ) → j < suc i
    → contains (cyclic start j) in_use ≡ true
seen_more start i in_use seen now j h = elim (Bool-cases (nat_eq j i)) [
  | inl here ↦ rw ((nat_eq_iff j i).0 here) now
  | inr before ↦ seen j (ground arith)
]

allocate_loop-IsFirstFree :
    (fuel start i : ℕ) (pool : PortPool)
    → IsPort start
    → pool.next ≡ cyclic start i
    → i < 30000
    → 30000 ≤ i + fuel
    → ((j : ℕ) → j < i → contains (cyclic start j) pool.in_use ≡ true)
    → IsFirstFree start pool.in_use (allocate_loop fuel start pool)
unfolding allocate_loop
allocate_loop-IsFirstFree zero start i pool range at short enough seen = absurd (omega arith)
allocate_loop-IsFirstFree (suc fuel) start i pool range at short enough seen =
    elim (Bool-cases (contains pool.next pool.in_use)) [
      | inr free ↦ rw (IsFirstFree, allocate_loop, free) (i, short, at, free, seen, refl, refl)
      | inl taken ↦
          let moved : PortPool = record { next = following pool.next; in_use = pool.in_use } in
          let step : moved.next ≡ cyclic start (suc i) =
            ap following at ∙ following-cyclic start i range in
          let seen' =
            seen_more start i pool.in_use seen
              (subst (λ (x : ℕ). contains x pool.in_use ≡ true) at taken) in
          elim (Bool-cases (nat_eq moved.next start)) [
            | inl back ↦
                let end : moved.next ≡ start = (nat_eq_iff moved.next start).0 back in
                rw (IsFirstFree, allocate_loop, taken, back)
                  (
                    cyclic-IsFull start pool.in_use range
                        (λ (j : ℕ) (h : j < 30000). seen' j (omega (arith, step, end, range))),
                    end,
                    refl,
                  )
            | inr on ↦
                let (lo, hi) = range in
                let off : moved.next ≢ start =
                  λ (e : moved.next ≡ start). cc (on, (nat_eq_iff moved.next start).1 e) in
                rw (IsFirstFree, allocate_loop, taken, on)
                  (allocate_loop-IsFirstFree fuel start (suc i) moved range step (omega arith)
                    (omega arith) seen')
          ]
    ]

-- With the place to start from in the range of the pool, `allocate` hands out the first free port of
-- the cycle that begins there, marks it as used and goes on to the one behind it; it hands out none,
-- and changes nothing, only if every port of the range is in use. The loop ends within 30000 rounds.
pub allocate-IsFirstFree :
    (pool : PortPool) → IsPort pool.next → IsFirstFree pool.next pool.in_use (allocate pool)
unfolding allocate
allocate-IsFirstFree pool (lo, hi) =
    allocate_loop-IsFirstFree 30000 pool.next 0 pool (lo, hi) (omega arith) (omega arith)
      (omega arith) (λ (j : ℕ) (h : j < 0). absurd (omega arith))
