-- ===== src/Examples/Directory.antt =====
-- The daemon's keys of peers and who is let in, crates/pim-daemon/src: peer_directory.rs,
-- peer_cleanup, identity_broadcast.rs and auth.rs.
use native.Mathlib.Omega.{arith}
use proximity_internet_mesh.Base.{
  ℕ, ◌-◌, ◌*◌, bytes_eq, ◌≡◌, refl, Bytes, true, false, ◌||◌, none, some, ok, List, [], ◌∷◌,
  replicate, leb,
}
use proximity_internet_mesh.Base.Map.{lookup, contains, passing}
use proximity_internet_mesh.Core.{NodeId}
use proximity_internet_mesh.Core.Hex.{hex}
use proximity_internet_mesh.Daemon.PeerDirectory.{
  PeerRow, PeerDirectory, PeerInfoSource, import_identity_if_compatible, lookup_x25519,
}
use proximity_internet_mesh.Daemon.PeerDirectory.Keys.{
  IsDecided, import_identity_if_compatible-lookup_x25519,
}
use proximity_internet_mesh.Daemon.PeerCleanup.{sweep_identities}
use proximity_internet_mesh.Daemon.PeerCleanup.Identities.{sweep_identities-lookup}
use proximity_internet_mesh.Daemon.Authorization.{
  AuthorizationPolicy, AuthorizationManager, allowed, trusted_on_first_use, run,
  authorize_authenticated_peer, authorize_authenticated_peer-again,
}
use proximity_internet_mesh.Daemon.IdentityBroadcast.{
  BroadcastConfig, State, PeerInfo, accepted, IsSpacedFrom, accepted-IsSpacedFrom,
}

abbrev carol : NodeId
carol = replicate 16 3

abbrev dave : NodeId
dave = replicate 16 4

abbrev row : ℕ → PeerRow
row at_ms = record {
  x25519_pub = replicate 32 8;
  last_known_name = [];
  first_seen_ms = 0;
  last_seen_ms = at_ms;
}

abbrev directory : PeerDirectory
directory = record {
  peers_seen = (hex carol, row 5000) ∷ (hex dave, row 90000) ∷ [];
  rfcomm_peer_lifecycle = [];
  bluetooth_pan_lifecycle = [];
  wfd_peer_lifecycle = [];
  events = [];
}

-- Another key for a peer that is known.
import_identity_if_compatible-lookup_x25519_example :
    let (outcome, e) = import_identity_if_compatible carol (replicate 32 9) none 7 directory in
    ((j : NodeId) (k : Bytes) → lookup_x25519 j directory ≡ some k → lookup_x25519 j e ≡ some k)
    × IsDecided carol (replicate 32 9) directory outcome e
import_identity_if_compatible-lookup_x25519_example =
    import_identity_if_compatible-lookup_x25519 carol (replicate 32 9) none 7 directory refl

dave-fresh : lookup (hex carol) ((hex dave, row 90000) ∷ []) ≡ none
unfolding lookup hex
dave-fresh = refl

alone-fresh : lookup {V = PeerRow} (hex dave) [] ≡ none
unfolding lookup
alone-fresh = refl

-- At 100 s with a lifetime of 50 s.
sweep_identities-lookup_example :
    lookup (hex carol) (sweep_identities (dave ∷ []) 100 50 directory).peers_seen
    ≡ passing
        (λ text r. leb ((100 - 50) * 1000) r.last_seen_ms || contains carol (dave ∷ []))
        (hex carol)
        (lookup (hex carol) directory.peers_seen)
sweep_identities-lookup_example =
    sweep_identities-lookup (dave ∷ []) 100 50 directory carol (dave-fresh, (alone-fresh, tt))
      ((carol, (refl, ground arith), refl), ((dave, (refl, ground arith), refl), tt))
      (refl, ground arith)

abbrev manager : AuthorizationManager
manager = record {
  policy = AuthorizationPolicy.trust_on_first_use;
  allow_list = [];
  trusted_peers = [];
}

manager-trusts : (authorize_authenticated_peer true carol manager).0 ≡ ok trusted_on_first_use
unfolding authorize_authenticated_peer contains
manager-trusts = refl

authorize_authenticated_peer-again_example :
    let later =
      run
        ((dave, false) ∷ (carol, false) ∷ [])
        (authorize_authenticated_peer true carol manager).1 in
    authorize_authenticated_peer false carol later ≡ (ok allowed, later)
authorize_authenticated_peer-again_example =
    authorize_authenticated_peer-again true carol manager trusted_on_first_use
      ((dave, false) ∷ (carol, false) ∷ []) false manager-trusts (λ e. cc)

abbrev config : BroadcastConfig
config = record { min_peer_interval_s = 2; watch_incoming = true }

abbrev info : NodeId → ℕ → PeerInfo
info src now = record {
  src = src;
  x25519_pub = replicate 32 8;
  friendly_name = [];
  source = PeerInfoSource.routed;
  now = now;
  now_ms = 0;
}

abbrev arrivals : List PeerInfo
arrivals =
    info carol 1000000000
    ∷ info dave 1500000000
    ∷ info carol 2000000000
    ∷ info carol 3500000000
    ∷ []

abbrev state : State
state = record { peer_directory = directory; broadcast_peer_last_seen = [] }

accepted-IsSpacedFrom_example :
    IsSpacedFrom 2
      (lookup carol state.broadcast_peer_last_seen)
      (accepted config carol arrivals state)
accepted-IsSpacedFrom_example = accepted-IsSpacedFrom config carol arrivals state (omega arith)
