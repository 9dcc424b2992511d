-- ===== src/Daemon/Reputation.antt =====
-- crates/pim-daemon/src/reputation.rs: the scores of the peers.
use native.Mathlib.Omega.{arith}
use proximity_internet_mesh.Base.{
  ℕ, ◌+◌, ◌-◌, ◌≡◌, ◌≢◌, refl, Bool, not, ◌&&◌, Option, none, some, bytes_eq, min, leb, nat_eq, [],
}
use proximity_internet_mesh.Base.Map.{
  Map, lookup, insert, remove, lookup-insert_self, lookup-insert_ne,
}
use proximity_internet_mesh.Core.{NodeId}

abbrev pub blacklist_threshold : ℕ
blacklist_threshold = 10

pub record ReputationTracker : Type 0 where
  pub scores : Map NodeId ℕ

unfoldable pub new : ReputationTracker
new = record { scores = [] }

-- The score of a peer, 0 without an entry.
abbrev pub or_zero : Option ℕ → ℕ
or_zero none = 0
or_zero (some score) = score

unfoldable pub score_of : NodeId → ReputationTracker → ℕ
unfolding lookup
score_of peer_id t = or_zero (lookup peer_id t.scores)

abbrev pub raised : ℕ → ℕ
raised score = min (score + 1) 4294967295

unfoldable pub record_failure : NodeId → ReputationTracker → Bool × ReputationTracker
unfolding insert score_of
record_failure peer_id t =
    let score = raised (score_of peer_id t) in
    (nat_eq score blacklist_threshold, record t { scores = insert peer_id score t.scores })

unfoldable pub record_success : NodeId → ReputationTracker → ReputationTracker
unfolding lookup insert
record_success peer_id t = elim (lookup peer_id t.scores) [
  | none ↦ t
  | some score ↦ record t { scores = insert peer_id (score - 1) t.scores }
]

unfoldable pub is_blacklisted : NodeId → ReputationTracker → Bool
unfolding score_of
is_blacklisted peer_id t = leb blacklist_threshold (score_of peer_id t)

unfoldable pub pardon : NodeId → ReputationTracker → ReputationTracker
unfolding remove
pardon peer_id t = record t { scores = remove peer_id t.scores }

-- A failure is reported exactly if it brings the peer from below the threshold to it, however often
-- it has been there before; a failure of one peer leaves the standing of the others.
pub record_failure-is_blacklisted :
    (p q : NodeId) (t : ReputationTracker)
    → p ≢ q
    → let (reported, t') = record_failure p t in
      (reported ≡ (not (is_blacklisted p t) && is_blacklisted p t'))
      × (is_blacklisted q t' ≡ is_blacklisted q t)
unfolding record_failure is_blacklisted score_of
record_failure-is_blacklisted p q t apart =
    let s = or_zero (lookup p t.scores) in
    let here = lookup-insert_self p (raised s) t.scores in
    let there = lookup-insert_ne p q (raised s) t.scores apart in
    (rw here (ground arith), rw there refl)
