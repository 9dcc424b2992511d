-- ===== src/Examples/Peers.antt =====
-- Peers: their scores, the delays before they are dialled again, and the table of discovered ones.
use native.Mathlib.Omega.{arith}
use proximity_internet_mesh.Base.{
  ℕ, ◌*◌, ◌/◌, ◌≤◌, ◌≡◌, not, ◌&&◌, List, [], ◌∷◌, replicate, bytes_eq,
}
use proximity_internet_mesh.Base.Map.{lookup, contains, passes, passing}
use proximity_internet_mesh.Core.{NodeId}
use proximity_internet_mesh.Daemon.Reputation.{
  ReputationTracker, record_failure, is_blacklisted, record_failure-is_blacklisted,
}
use proximity_internet_mesh.Daemon.Reconnect.{backoff_base_ms}
use proximity_internet_mesh.Discovery.PeerTable.{
  PeerRecord, is_stale, Operation, insert_peer, drop_peer, expire_at, perform_all, expire_stale,
  expire_stale-reachable,
}

abbrev alice : NodeId
alice = replicate 16 2

abbrev bob : NodeId
bob = replicate 16 3

abbrev tracker : ReputationTracker
tracker = record { scores = (alice, 9) ∷ (bob, 12) ∷ [] }

abbrev after : ReputationTracker
after = (record_failure alice tracker).1

record_failure-is_blacklisted_example :
    ((record_failure alice tracker).0
      ≡ (not (is_blacklisted alice tracker) && is_blacklisted alice after))
    × (is_blacklisted bob after ≡ is_blacklisted bob tracker)
record_failure-is_blacklisted_example =
    record_failure-is_blacklisted alice bob tracker (λ e. ground (arith, e))

two_seconds : 700 ≤ 2 * (backoff_base_ms 1 / 4)
unfolding backoff_base_ms
two_seconds = omega arith

-- Without capabilities, and with a number for an address.
abbrev heard : NodeId → ℕ → PeerRecord (Unit {0}) ℕ
heard id now = record {
  node_id = id;
  public_key = replicate 32 0;
  capabilities = tt;
  listen_addr = 1;
  last_seen = now;
}

abbrev operations : List (Operation (Unit {0}) ℕ)
operations =
    insert_peer (heard alice 1)
    ∷ insert_peer (heard bob 2)
    ∷ insert_peer (heard alice 8)
    ∷ drop_peer bob
    ∷ expire_at 9 5
    ∷ []

expire_stale-reachable_example :
    (contains alice (expire_stale 20 5 (perform_all operations [])).0
      ≡ passes (λ j r. is_stale 20 5 r) alice (lookup alice (perform_all operations [])))
    × (lookup alice (expire_stale 20 5 (perform_all operations [])).1
        ≡ passing (λ j r. not (is_stale 20 5 r)) alice (lookup alice (perform_all operations [])))
expire_stale-reachable_example = expire_stale-reachable operations 20 5 alice
