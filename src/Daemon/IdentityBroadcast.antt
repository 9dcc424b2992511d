-- ===== src/Daemon/IdentityBroadcast.antt =====
-- crates/pim-daemon/src/identity_broadcast.rs: `handle_incoming_peer_info`. A moment of the monotonic
-- clock is a number of nanoseconds; the time of the system clock is an argument.
use native.Mathlib.Omega.{arith}
use proximity_internet_mesh.Base.{
  ℕ, ◌-◌, ◌/◌, ◌<◌, ◌≤◌, ◌≡◌, ◌⊎◌, refl, ap, subst, inl, inr, Bytes, Bool, true, false, ◌&&◌,
  Bool-cases, Option, none, some, List, [], ◌∷◌, ltb, ◌==◌, bytes_eq, ==→eq, if◌then◌else◌,
}
use proximity_internet_mesh.Base.Map.{Map, lookup, insert, lookup-insert}
use proximity_internet_mesh.Core.{NodeId}
use proximity_internet_mesh.Daemon.PeerDirectory.{PeerInfoSource, PeerDirectory, record_peer_seen}

-- `messaging.broadcast`
pub record BroadcastConfig : Type 0 where
  pub min_peer_interval_s : ℕ
  pub watch_incoming : Bool

-- The parts of the daemon's state that the handler uses.
pub record State : Type 0 where
  pub peer_directory : PeerDirectory
  pub broadcast_peer_last_seen : Map NodeId ℕ

pub record PeerInfo : Type 0 where
  pub src : NodeId
  pub x25519_pub : Bytes
  pub friendly_name : Bytes
  pub source : PeerInfoSource
  pub now : ℕ
  pub now_ms : ℕ

abbrev pub seconds : ℕ → ℕ
seconds nanoseconds = nanoseconds / 1000000000

abbrev pub too_soon : ℕ → ℕ → Option ℕ → Bool
too_soon min_interval_s now none = false
too_soon min_interval_s now (some prev) = ltb (seconds (now - prev)) min_interval_s

-- Whether an arrival passes the limit, and the moments that are kept for the next ones.
unfoldable pub limit : BroadcastConfig → PeerInfo → Map NodeId ℕ → Bool × Map NodeId ℕ
unfolding lookup insert
limit config p last_seen = elim p.source [
  | PeerInfoSource.direct ↦ (true, last_seen)
  | PeerInfoSource.routed ↦
      if ltb 0 config.min_peer_interval_s
      then (if too_soon config.min_peer_interval_s p.now (lookup p.src last_seen)
          then (false, last_seen)
          else (true, insert p.src p.now last_seen))
      else (true, last_seen)
]

abbrev pub should_emit_event : BroadcastConfig → PeerInfoSource → Bool
should_emit_event config PeerInfoSource.direct = true
should_emit_event config PeerInfoSource.routed = config.watch_incoming

unfoldable pub handle_incoming_peer_info : BroadcastConfig → PeerInfo → State → State
unfolding limit record_peer_seen
handle_incoming_peer_info config p s =
    let (passed, last_seen) = limit config p s.broadcast_peer_last_seen in
    if passed
    then record {
      peer_directory =
          (record_peer_seen p.src p.x25519_pub p.friendly_name p.now_ms p.source
            (should_emit_event config p.source) s.peer_directory).1;
      broadcast_peer_last_seen = last_seen;
    }
    else s

is_routed : PeerInfoSource → Bool
is_routed PeerInfoSource.direct = false
is_routed PeerInfoSource.routed = true

-- The moments of the routed arrivals from a peer that pass the limit.
unfoldable pub accepted : BroadcastConfig → NodeId → List PeerInfo → State → List ℕ
unfolding handle_incoming_peer_info is_routed limit
accepted config src [] s = []
accepted config src (p ∷ ps) s =
    let rest = accepted config src ps (handle_incoming_peer_info config p s) in
    if p.src == src && (is_routed p.source && (limit config p s.broadcast_peer_last_seen).0)
    then p.now ∷ rest
    else rest

-- The moments are apart by at least an interval, also the first from one before.
abbrev pub IsSpacedFrom : ℕ → Option ℕ → List ℕ → Type 0
IsSpacedFrom interval before [] = Unit {0}
IsSpacedFrom interval none (t ∷ ts) = IsSpacedFrom interval (some t) ts
IsSpacedFrom interval (some prev) (t ∷ ts) =
    (interval ≤ seconds (t - prev)) × IsSpacedFrom interval (some t) ts

source-cases : (x : PeerInfoSource) → (x ≡ PeerInfoSource.direct) ⊎ (x ≡ PeerInfoSource.routed)
source-cases PeerInfoSource.direct = inl refl
source-cases PeerInfoSource.routed = inr refl

limit-cases :
    (config : BroadcastConfig) (p : PeerInfo) (m : Map NodeId ℕ)
    → 0 < config.min_peer_interval_s
    → (limit config p m ≡ (true, m)) × (is_routed p.source ≡ false)
      ⊎ (limit config p m ≡ (false, m))
      ⊎ (limit config p m ≡ (true, insert p.src p.now m))
        × (is_routed p.source ≡ true)
        × (too_soon config.min_peer_interval_s p.now (lookup p.src m) ≡ false)
unfolding limit is_routed
limit-cases config p m h =
    let on : ltb 0 config.min_peer_interval_s ≡ true = ground arith in
    elim (source-cases p.source) [
      | inl direct ↦ inl (rw (limit, direct) refl, rw direct refl)
      | inr routed ↦
          elim (Bool-cases (too_soon config.min_peer_interval_s p.now (lookup p.src m))) [
            | inl soon ↦ inr (inl (rw (limit, routed, on, soon) refl))
            | inr late ↦ inr (inr (rw (limit, routed, on, late) refl, rw routed refl, late))
          ]
    ]

-- What an arrival leaves of the moment that is kept for a peer.
last_seen-handle :
    (config : BroadcastConfig) (p : PeerInfo) (s : State) (passed : Bool) (m : Map NodeId ℕ)
    → limit config p s.broadcast_peer_last_seen ≡ (passed, m)
    → (if passed then m else s.broadcast_peer_last_seen) ≡ m
    → (handle_incoming_peer_info config p s).broadcast_peer_last_seen ≡ m
unfolding handle_incoming_peer_info
last_seen-handle config p s true m e same = rw (handle_incoming_peer_info, e) refl
last_seen-handle config p s false m e same = rw (handle_incoming_peer_info, e) same

IsSpacedFrom-cons :
    (interval now : ℕ) (before : Option ℕ) (ts : List ℕ)
    → too_soon interval now before ≡ false
    → IsSpacedFrom interval (some now) ts
    → IsSpacedFrom interval before (now ∷ ts)
IsSpacedFrom-cons interval now none ts late h = h
IsSpacedFrom-cons interval now (some prev) ts late h = (ground arith, h)

skipped :
    (mine routed passed : Bool)
    → (routed ≡ false) ⊎ (passed ≡ false)
    → (mine && (routed && passed)) ≡ false
skipped mine routed passed h = ground arith

cleared :
    (mine routed passed : Bool)
    → mine ≡ true
    → routed ≡ true
    → passed ≡ true
    → (mine && (routed && passed)) ≡ true
cleared mine routed passed a b c = ground arith

-- With an interval above 0, the routed arrivals from one peer that pass the limit are at least the
-- interval apart, in full seconds, however they mix with the arrivals from others.
pub accepted-IsSpacedFrom :
    (config : BroadcastConfig) (src : NodeId) (ps : List PeerInfo) (s : State)
    → 0 < config.min_peer_interval_s
    → IsSpacedFrom config.min_peer_interval_s
        (lookup src s.broadcast_peer_last_seen)
        (accepted config src ps s)
unfolding accepted
accepted-IsSpacedFrom config src [] s h = tt
accepted-IsSpacedFrom config src (p ∷ ps) s h =
    let interval = config.min_peer_interval_s in
    let m = s.broadcast_peer_last_seen in
    let t = handle_incoming_peer_info config p s in
    let rest = accepted config src ps t in
    let ih = accepted-IsSpacedFrom config src ps t h in
    let Next : Map NodeId ℕ → Type 0 = λ v. IsSpacedFrom interval (lookup src v) rest in
    let passed = (limit config p m).0 in
    let answer : Bool × Map NodeId ℕ → Bool = λ r. r.0 in
    elim (limit-cases config p m h) [
      | inl (e, direct) ↦
          let off = skipped (p.src == src) (is_routed p.source) passed (inl direct) in
          rw off (subst Next (last_seen-handle config p s true m e refl) ih)
      | inr (inl e) ↦
          let off = skipped (p.src == src) (is_routed p.source) passed (inr (ap answer e)) in
          rw off (subst Next (last_seen-handle config p s false m e refl) ih)
      | inr (inr (e, routed, late)) ↦
          let next = insert p.src p.now m in
          let after = subst Next (last_seen-handle config p s true next e refl) ih in
          let stored = lookup-insert p.src src p.now m in
          let seen : lookup src next ≡ (if p.src == src then some p.now else lookup src m) =
            stored in
          let onward : IsSpacedFrom interval (if p.src == src then some p.now else lookup src m)
              rest =
            subst (λ (o : Option ℕ). IsSpacedFrom interval o rest) seen after in
          elim (Bool-cases (p.src == src)) [
            | inl hit ↦
                let same = ap (λ (x : NodeId). lookup x m) (==→eq p.src src hit) in
                let on =
                  cleared (p.src == src) (is_routed p.source) passed hit routed (ap answer e) in
                rw on (
                  IsSpacedFrom-cons interval p.now (lookup src m) rest (rw (← same) late)
                    (rw hit at onward))
            | inr miss ↦ rw miss (rw miss at onward)
          ]
    ]
