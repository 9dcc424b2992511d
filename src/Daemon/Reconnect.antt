-- ===== src/Daemon/Reconnect.antt =====
-- crates/pim-daemon/src/reconnect.rs: which targets are dialled again, and when. The address type of
-- the standard library is a parameter.
use native.Mathlib.Omega.{arith}
use native.Mathlib.Nat.{pow-suc}
use proximity_internet_mesh.Base.{
  ℕ, zero, suc, Bool-cases, ltb→lt, ltb→ge, ◌+◌, ◌-◌, ◌*◌, ◌/◌, ◌^◌, ◌≤◌, ◌≡◌, ◌↔◌, inl, inr, Bool,
  true, false, not, ◌||◌, Option, none, some, bytes_eq, Eq, ◌==◌, min, max, leb, ltb, if◌then◌else◌,
  List, [], ◌∷◌, length,
}
use proximity_internet_mesh.Base.Map.{
  Map, lookup, insert, retain, contains_key, contains, set_insert, set_remove,
}
use proximity_internet_mesh.Core.{NodeId}

pub data ConnectTarget (A : Type 0) : Type 0 where
  tcp bluetooth_pan : A → ConnectTarget A

abbrev pub addr : {A : Type 0} → ConnectTarget A → A
addr (tcp a) = a
addr (bluetooth_pan a) = a

abbrev pub target_eq : {A : Type 0} ⦃e : Eq A⦄ → ConnectTarget A → ConnectTarget A → Bool
target_eq (tcp a) (tcp b) = a == b
target_eq (tcp a) (bluetooth_pan b) = false
target_eq (bluetooth_pan a) (tcp b) = false
target_eq (bluetooth_pan a) (bluetooth_pan b) = a == b

pub target_eq_iff :
    {A : Type 0} ⦃e : Eq A⦄ (s t : ConnectTarget A) → (target_eq s t ≡ true) ↔ (s ≡ t)
target_eq_iff ⦃e⦄ (tcp a) (tcp b) = ground (arith, e.equals_iff a b)
target_eq_iff (tcp a) (bluetooth_pan b) = ground arith
target_eq_iff (bluetooth_pan a) (tcp b) = ground arith
target_eq_iff ⦃e⦄ (bluetooth_pan a) (bluetooth_pan b) = ground (arith, e.equals_iff a b)

instance abbrev pub connect_target_eq : {A : Type 0} ⦃e : Eq A⦄ → Eq (ConnectTarget A)
connect_target_eq = record { equals = target_eq; equals_iff = target_eq_iff }

pub record ReconnectManager (A : Type 0) : Type 0 where
  pub configured_targets : List (ConnectTarget A)
  pub discovered_targets : Map (ConnectTarget A) ℕ
  pub target_by_peer : Map NodeId (ConnectTarget A)
  pub reconnecting : List (ConnectTarget A)

module _ {A : Type 0} ⦃e : Eq A⦄ where
  abbrev pub collect : List (ConnectTarget A) → List (ConnectTarget A)
  collect [] = []
  collect (target ∷ targets) = set_insert target (collect targets)

  unfoldable pub new : List (ConnectTarget A) → ReconnectManager A
  unfolding set_insert
  new targets = record {
    configured_targets = collect targets;
    discovered_targets = [];
    target_by_peer = [];
    reconnecting = [];
  }

  unfoldable pub register : NodeId → ConnectTarget A → ReconnectManager A → ReconnectManager A
  unfolding insert
  register peer_id target m = record m { target_by_peer = insert peer_id target m.target_by_peer }

  unfoldable pub register_discovered : ℕ → ConnectTarget A → ReconnectManager A → ReconnectManager A
  unfolding insert
  register_discovered now target m = record m {
    discovered_targets = insert target now m.discovered_targets;
  }

  -- With one reading of the clock for all entries.
  unfoldable pub expire_discovered_targets : ℕ → ℕ → ReconnectManager A → ℕ × ReconnectManager A
  unfolding retain
  expire_discovered_targets now lifetime m =
      let kept = retain (λ target last_seen. leb (now - last_seen) lifetime) m.discovered_targets in
      (length m.discovered_targets - length kept, record m { discovered_targets = kept })

  unfoldable pub peer_info : NodeId → ReconnectManager A → Option (ConnectTarget A × Bool × Bool)
  unfolding lookup contains
  peer_info peer_id m = elim (lookup peer_id m.target_by_peer) [
    | none ↦ none
    | some target ↦
        some
          (target, contains target m.configured_targets, contains_key target m.discovered_targets)
  ]

  unfoldable pub is_reconnectable_target : NodeId → ReconnectManager A → Option (ConnectTarget A)
  unfolding lookup contains
  is_reconnectable_target peer_id m = elim (lookup peer_id m.target_by_peer) [
    | none ↦ none
    | some target ↦
        if contains target m.configured_targets || contains_key target m.discovered_targets
        then some target
        else none
  ]

  unfoldable pub begin_reconnect : ConnectTarget A → ReconnectManager A → Bool × ReconnectManager A
  unfolding contains set_insert
  begin_reconnect target m = (
    not (contains target m.reconnecting),
    record m { reconnecting = set_insert target m.reconnecting },
  )

  unfoldable pub end_reconnect : ConnectTarget A → ReconnectManager A → ReconnectManager A
  unfolding set_remove
  end_reconnect target m = record m { reconnecting = set_remove target m.reconnecting }

  unfoldable pub find_target : ConnectTarget A → Map NodeId (ConnectTarget A) → Option NodeId
  find_target target [] = none
  find_target target ((id, t) ∷ peers) = if t == target then some id else find_target target peers

  unfoldable pub peer_id_for_target : ConnectTarget A → ReconnectManager A → Option NodeId
  unfolding find_target
  peer_id_for_target target m = find_target target m.target_by_peer

unfoldable pub backoff_base_ms : ℕ → ℕ
backoff_base_ms attempt = min (min (1000 * 2 ^ min attempt 15) 18446744073709551615) 10000

-- `drawn` is the random number above the least jitter: the jitter is `drawn - base / 4`.
unfoldable pub backoff_duration : ℕ → ℕ → ℕ
unfolding backoff_base_ms
backoff_duration attempt drawn =
    max (backoff_base_ms attempt + drawn - backoff_base_ms attempt / 4) 1

pow_pos : (n : ℕ) → 1 ≤ 2 ^ n
pow_pos zero = omega arith
pow_pos (suc n) = rw pow-suc (omega (arith, pow_pos n))

pow_step : (a : ℕ) → 2 ^ min a 15 ≤ 2 ^ min (a + 1) 15
pow_step a = elim (Bool-cases (ltb a 15)) [
  | inl low ↦
      let less = ltb→lt a 15 low in
      let here : min a 15 ≡ a = omega arith in
      let next : min (a + 1) 15 ≡ suc a = omega arith in rw (here, next, pow-suc) (omega arith)
  | inr high ↦
      let more = ltb→ge a 15 high in
      let same : min (a + 1) 15 ≡ min a 15 = omega arith in rw same (omega arith)
]

-- For a jitter in its range the delay before an attempt is between 750 ms and 12.5 s, and the delay
-- without jitter does not fall from one attempt to the next.
pub backoff_duration-bounds :
    (attempt drawn : ℕ)
    → drawn ≤ 2 * (backoff_base_ms attempt / 4)
    → (750 ≤ backoff_duration attempt drawn)
      × (backoff_duration attempt drawn ≤ 12500)
      × (backoff_base_ms attempt ≤ backoff_base_ms (attempt + 1))
unfolding backoff_duration backoff_base_ms
backoff_duration-bounds attempt drawn h =
    let low = pow_pos (min attempt 15) in
    let step = pow_step attempt in (omega arith, omega arith, omega arith)
