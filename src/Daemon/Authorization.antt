-- ===== src/Daemon/Authorization.antt =====
-- crates/pim-daemon/src/auth.rs: which peers are let in. Whether the trust store can be written is an
-- argument of a call; its file is not modelled. The second test under the write lock is the one that
-- decides: between the two locks other calls may add the peer.
use proximity_internet_mesh.Base.{
  ◌≡◌, ◌≢◌, refl, sym, ap, ◌∙◌, inl, inr, Bool, true, false, ◌&&◌, ◌||◌, not, Bool-cases, List, [],
  ◌∷◌, Result, ok, err, ◌==◌, bytes_eq, ==_refl, ==→eq, if◌then◌else◌,
}
use proximity_internet_mesh.Base.Map.{
  contains, set_insert, set_remove, contains-set_insert, contains-set_remove,
}
use proximity_internet_mesh.Core.{NodeId}

pub data AuthorizationPolicy : Type 0 where
  allow_all allow_list trust_on_first_use : AuthorizationPolicy

pub data AuthorizationDecision : Type 0 where
  allowed trusted_on_first_use rejected : AuthorizationDecision

-- "persist TOFU trust store"
pub data AuthorizationError : Type 0 where
  not_persisted : AuthorizationError

pub record AuthorizationManager : Type 0 where
  pub policy : AuthorizationPolicy
  pub allow_list : List NodeId
  pub trusted_peers : List NodeId

-- With the peers of the trust store.
unfoldable pub new : AuthorizationPolicy → List NodeId → List NodeId → AuthorizationManager
new policy peers stored = record {
  policy = policy;
  allow_list = peers;
  trusted_peers = elim policy [
    | AuthorizationPolicy.allow_all ↦ []
    | AuthorizationPolicy.allow_list ↦ []
    | AuthorizationPolicy.trust_on_first_use ↦ stored
  ];
}

abbrev pub discovered : AuthorizationPolicy → NodeId → AuthorizationManager → Bool
discovered AuthorizationPolicy.allow_all peer m = true
discovered AuthorizationPolicy.trust_on_first_use peer m = true
discovered AuthorizationPolicy.allow_list peer m = contains peer m.allow_list

unfoldable pub authorize_discovered_peer : NodeId → AuthorizationManager → Bool
unfolding contains
authorize_discovered_peer peer m = discovered m.policy peer m

abbrev pub trust :
    (persisted : Bool)
    → NodeId
    → AuthorizationManager
    → Result AuthorizationError AuthorizationDecision × AuthorizationManager
trust persisted peer m =
    let trusted = set_insert peer m.trusted_peers in
    if persisted
    then (ok trusted_on_first_use, record m { trusted_peers = trusted })
    else (err not_persisted, record m { trusted_peers = set_remove peer trusted })

abbrev pub authenticated :
    AuthorizationPolicy
    → (persisted : Bool) → NodeId
    → AuthorizationManager
    → Result AuthorizationError AuthorizationDecision × AuthorizationManager
authenticated AuthorizationPolicy.allow_all persisted peer m = (ok allowed, m)
authenticated AuthorizationPolicy.allow_list persisted peer m =
    (ok (if contains peer m.allow_list then allowed else rejected), m)
authenticated AuthorizationPolicy.trust_on_first_use persisted peer m =
    if contains peer m.trusted_peers then (ok allowed, m) else trust persisted peer m

unfoldable pub authorize_authenticated_peer :
    (persisted : Bool)
    → NodeId
    → AuthorizationManager
    → Result AuthorizationError AuthorizationDecision × AuthorizationManager
unfolding contains set_insert set_remove
authorize_authenticated_peer persisted peer m = authenticated m.policy persisted peer m

-- Calls for a peer each, with whether the trust store could be written.
unfoldable pub run : List (NodeId × Bool) → AuthorizationManager → AuthorizationManager
unfolding authorize_authenticated_peer
run [] m = m
run ((peer, persisted) ∷ calls) m = run calls (authorize_authenticated_peer persisted peer m).1

-- Whether a manager lets a peer in without writing anything.
abbrev pub is_known : AuthorizationPolicy → NodeId → AuthorizationManager → Bool
is_known AuthorizationPolicy.allow_all peer m = true
is_known AuthorizationPolicy.allow_list peer m = contains peer m.allow_list
is_known AuthorizationPolicy.trust_on_first_use peer m = contains peer m.trusted_peers

abbrev pub Known : NodeId → AuthorizationManager → Type 0
Known peer m = is_known m.policy peer m ≡ true

-- A failed write takes back just the peer that was added.
contains-taken_back :
    (peer j : NodeId) (trusted : List NodeId)
    → contains peer trusted ≡ false
    → contains j (set_remove peer (set_insert peer trusted)) ≡ contains j trusted
contains-taken_back peer j trusted h =
    contains-set_remove peer j (set_insert peer trusted)
    ∙ ap (λ (b : Bool). not (peer == j) && b) (contains-set_insert peer j trusted)
    ∙ elim (Bool-cases (peer == j)) [
      | inl hit ↦ rw hit (sym h ∙ ap (λ (x : NodeId). contains x trusted) (==→eq peer j hit))
      | inr miss ↦ rw miss refl
    ]

or_true : (b : Bool) → (b || true) ≡ true
or_true true = refl
or_true false = refl

policy-authenticated :
    (policy : AuthorizationPolicy) (persisted : Bool) (peer : NodeId) (m : AuthorizationManager)
    → (authenticated policy persisted peer m).1.policy ≡ m.policy
policy-authenticated AuthorizationPolicy.allow_all persisted peer m = refl
policy-authenticated AuthorizationPolicy.allow_list persisted peer m = refl
policy-authenticated AuthorizationPolicy.trust_on_first_use persisted peer m =
    elim (Bool-cases (contains peer m.trusted_peers)) [
      | inl old ↦ rw old refl
      | inr new ↦ elim (Bool-cases persisted) [
        | inl done ↦ rw (new, done) refl
        | inr failed ↦ rw (new, failed) refl
      ]
    ]

-- Who is known stays known, whatever a call for a peer comes to.
is_known-authenticated :
    (policy : AuthorizationPolicy) (persisted : Bool) (peer j : NodeId) (m : AuthorizationManager)
    → is_known policy j m ≡ true
    → is_known policy j (authenticated policy persisted peer m).1 ≡ true
is_known-authenticated AuthorizationPolicy.allow_all persisted peer j m h = refl
is_known-authenticated AuthorizationPolicy.allow_list persisted peer j m h = h
is_known-authenticated AuthorizationPolicy.trust_on_first_use persisted peer j m h =
    elim (Bool-cases (contains peer m.trusted_peers)) [
      | inl old ↦ rw old h
      | inr new ↦ elim (Bool-cases persisted) [
        | inl done ↦
            rw (new, done) (contains-set_insert peer j m.trusted_peers ∙ rw h (or_true (peer == j)))
        | inr failed ↦ rw (new, failed) (contains-taken_back peer j m.trusted_peers new ∙ h)
      ]
    ]

-- Who is let in is known from then on.
is_known-accepted :
    (policy : AuthorizationPolicy) (persisted : Bool) (peer : NodeId) (m : AuthorizationManager)
    (decision : AuthorizationDecision)
    → (authenticated policy persisted peer m).0 ≡ ok decision
    → decision ≢ rejected
    → is_known policy peer (authenticated policy persisted peer m).1 ≡ true
is_known-accepted AuthorizationPolicy.allow_all persisted peer m decision e h = refl
is_known-accepted AuthorizationPolicy.allow_list persisted peer m decision e h =
    elim (Bool-cases (contains peer m.allow_list)) [
      | inl listed ↦ listed
      | inr other ↦ absurd (h (let out = rw other at e in cc))
    ]
is_known-accepted AuthorizationPolicy.trust_on_first_use persisted peer m decision e h =
    elim (Bool-cases (contains peer m.trusted_peers)) [
      | inl old ↦ rw old old
      | inr new ↦ elim (Bool-cases persisted) [
        | inl done ↦
            rw (new, done) (contains-set_insert peer peer m.trusted_peers ∙ rw (==_refl peer) refl)
        | inr failed ↦ absurd (let out = rw (new, failed) at e in cc)
      ]
    ]

Known-run :
    (calls : List (NodeId × Bool)) (peer : NodeId) (m : AuthorizationManager)
    → Known peer m
    → Known peer (run calls m)
unfolding run authorize_authenticated_peer
Known-run [] peer m h = h
Known-run ((other, persisted) ∷ calls) peer m h =
    let next = (authenticated m.policy persisted other m).1 in
    Known-run calls peer next (
      rw (policy-authenticated m.policy persisted other m)
        (is_known-authenticated m.policy persisted other peer m h))

authenticated-Known :
    (policy : AuthorizationPolicy) (persisted : Bool) (peer : NodeId) (m : AuthorizationManager)
    → is_known policy peer m ≡ true
    → authenticated policy persisted peer m ≡ (ok allowed, m)
authenticated-Known AuthorizationPolicy.allow_all persisted peer m h = refl
authenticated-Known AuthorizationPolicy.allow_list persisted peer m h = rw h refl
authenticated-Known AuthorizationPolicy.trust_on_first_use persisted peer m h = rw h refl

-- Under each policy, a peer that was let in once is let in again after any calls for any peers,
-- also such that fail or cannot be written down, and that call changes nothing.
pub authorize_authenticated_peer-again :
    (persisted : Bool) (peer : NodeId) (m : AuthorizationManager) (decision : AuthorizationDecision)
    (calls : List (NodeId × Bool)) (again : Bool)
    → (authorize_authenticated_peer persisted peer m).0 ≡ ok decision
    → decision ≢ rejected
    → let later = run calls (authorize_authenticated_peer persisted peer m).1 in
      authorize_authenticated_peer again peer later ≡ (ok allowed, later)
unfolding authorize_authenticated_peer
authorize_authenticated_peer-again persisted peer m decision calls again e h =
    let next = (authenticated m.policy persisted peer m).1 in
    let known : Known peer next =
      rw (policy-authenticated m.policy persisted peer m)
        (is_known-accepted m.policy persisted peer m decision e h) in
    authenticated-Known (run calls next).policy again peer (run calls next)
      (Known-run calls peer next known)
