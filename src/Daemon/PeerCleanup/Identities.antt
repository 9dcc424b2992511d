-- ===== src/Daemon/PeerCleanup/Identities.antt =====
-- crates/pim-daemon/src/peer_cleanup/mesh_identity.rs: which peers the sweep forgets.
use native.Mathlib.Omega.{arith}
use proximity_internet_mesh.Base.{
  ℕ, ◌-◌, ◌*◌, ◌≡◌, refl, sym, ap, ◌∙◌, inl, inr, Bytes, IsByte, All, Bool, true, false, ◌&&◌, ◌||◌,
  not, Bool-cases, Option, none, some, List, [], ◌∷◌, length, ltb, leb, ◌==◌, bytes_eq, ==→eq,
  if◌then◌else◌,
}
use proximity_internet_mesh.Base.Map.{
  Map, lookup, contains, contains_key, IsDistinct, lookup-remove, passing, passes,
}
use proximity_internet_mesh.Core.{NodeId}
use proximity_internet_mesh.Core.Hex.{hex, parse_node_id-hex, from_str}
use proximity_internet_mesh.Daemon.PeerDirectory.{PeerRow, PeerDirectory, forget, forget_blocking}
use proximity_internet_mesh.Daemon.PeerDirectory.Keys.{hex-injective}
use proximity_internet_mesh.Daemon.PeerCleanup.{
  list_peers_older_than, forget_each, sweep_identities,
}

-- An identifier of 16 bytes.
abbrev pub IsId : NodeId → Type 0
IsId id = (length id ≡ 16) × All IsByte id

-- Each key of the table is the text of an identifier, as the calls of the directory write them.
abbrev pub IsKeyed : Map Bytes PeerRow → Type 0
IsKeyed [] = Unit {0}
IsKeyed ((text, r) ∷ rows) = ((id : NodeId) × IsId id × (text ≡ hex id)) × IsKeyed rows

rows-forget :
    (peer : NodeId) (k : Bytes) (d : PeerDirectory)
    → lookup k (forget peer d).1.peers_seen
      ≡ (if hex peer == k then none else lookup k d.peers_seen)
unfolding forget forget_blocking
rows-forget peer k d =
    let cut = lookup-remove (hex peer) k d.peers_seen in
    elim (Bool-cases (contains_key (hex peer) d.peers_seen)) [
      | inl there ↦ rw (forget, there) cut
      | inr gone ↦ rw (forget, gone) cut
    ]

rows-step :
    (active : List NodeId) (peer : NodeId) (k : Bytes) (d : PeerDirectory)
    → lookup k (if contains peer active then d else (forget peer d).1).peers_seen
      ≡ (if not (contains peer active) && hex peer == k then none else lookup k d.peers_seen)
rows-step active peer k d = elim (Bool-cases (contains peer active)) [
  | inl busy ↦ rw busy refl
  | inr idle ↦ rw idle (rows-forget peer k d)
]

-- Whether one of the peers, none of them active, has the key.
forgets : List NodeId → Bytes → List NodeId → Bool
forgets active k [] = false
forgets active k (peer ∷ stale) =
    not (contains peer active) && hex peer == k || forgets active k stale

lookup-forget_each :
    (active stale : List NodeId) (k : Bytes) (d : PeerDirectory)
    → lookup k (forget_each active stale d).peers_seen
      ≡ (if forgets active k stale then none else lookup k d.peers_seen)
unfolding forget_each forgets
lookup-forget_each active [] k d = refl
lookup-forget_each active (peer ∷ stale) k d =
    lookup-forget_each active stale k (if contains peer active then d else (forget peer d).1)
    ∙ (let cut = rows-step active peer k d in ground arith)

-- Rows that the sweep forgets.
abbrev is_stale : List NodeId → NodeId → ℕ → Bytes → PeerRow → Bool
is_stale active j threshold k r = ltb r.last_seen_ms threshold && not (contains j active)

when_hit : (b : Bool) → (not b && true || false) ≡ not b
when_hit true = refl
when_hit false = refl

when_missed : (b f : Bool) → (not b && false || f) ≡ f
when_missed true f = refl
when_missed false f = refl

forgets-list :
    (active : List NodeId) (threshold : ℕ) (rows : Map Bytes PeerRow) (j : NodeId)
    → IsDistinct rows
    → IsKeyed rows
    → IsId j
    → forgets active (hex j) (list_peers_older_than threshold rows)
      ≡ passes (is_stale active j threshold) (hex j) (lookup (hex j) rows)
unfolding forgets list_peers_older_than lookup from_str
forgets-list active threshold [] j d keyed id = refl
forgets-list active threshold ((text, r) ∷ rows) j (fresh, d) ((i, i_id, same), keyed) id =
    let ih = forgets-list active threshold rows j d keyed id in
    let back = parse_node_id-hex i i_id.0 i_id.1 in
    let absent : hex i ≡ hex j
        → forgets active (hex j) (list_peers_older_than threshold rows) ≡ false =
      λ e.
        ih
        ∙ (let none_left : lookup (hex j) rows ≡ none = rw (← e, ← same) fresh in
            rw none_left refl) in
    let whose : hex i ≡ hex j → contains i active ≡ contains j active =
      λ e. ap (λ (x : NodeId). contains x active) (hex-injective i j i_id.0 i_id.1 id.0 id.1 e) in
    let with_idle : Bool → Bool = λ c. c && not (contains j active) in
    elim (Bool-cases (hex i == hex j)) [
      | inl hit ↦
          let e = ==→eq (hex i) (hex j) hit in
          let gone = absent e in
          let peer = whose e in
          elim (Bool-cases (ltb r.last_seen_ms threshold)) [
            | inl old ↦
                rw (old, same, back, hit, gone, peer)
                  (when_hit (contains j active) ∙ ap with_idle (sym old))
            | inr new ↦ rw (new, same, hit, gone) (ap with_idle (sym new))
          ]
      | inr miss ↦ elim (Bool-cases (ltb r.last_seen_ms threshold)) [
        | inl old ↦ rw (old, same, back, miss) (when_missed (contains i active) _ ∙ ih)
        | inr new ↦ rw (new, same, miss) ih
      ]
    ]

stale-passing :
    (active : List NodeId) (j : NodeId) (threshold : ℕ) (o : Option PeerRow)
    → (if passes (is_stale active j threshold) (hex j) o then none else o)
      ≡ passing (λ text r. leb threshold r.last_seen_ms || contains j active) (hex j) o
stale-passing active j threshold none = ground arith
stale-passing active j threshold (some r) = ground arith

-- In a table of distinct keys, each the text of an identifier, the sweep keeps a peer exactly if it
-- was seen within the lifetime or has a session.
pub sweep_identities-lookup :
    (active : List NodeId) (now_s lifetime_s : ℕ) (d : PeerDirectory) (j : NodeId)
    → IsDistinct d.peers_seen
    → IsKeyed d.peers_seen
    → IsId j
    → lookup (hex j) (sweep_identities active now_s lifetime_s d).peers_seen
      ≡ passing
          (λ text r. leb ((now_s - lifetime_s) * 1000) r.last_seen_ms || contains j active)
          (hex j)
          (lookup (hex j) d.peers_seen)
unfolding sweep_identities
sweep_identities-lookup active now_s lifetime_s d j distinct keyed id =
    let threshold = (now_s - lifetime_s) * 1000 in
    let rows = d.peers_seen in
    lookup-forget_each active (list_peers_older_than threshold rows) (hex j) d
    ∙ ap (λ (b : Bool). if b then none else lookup (hex j) rows)
        (forgets-list active threshold rows j distinct keyed id)
    ∙ stale-passing active j threshold (lookup (hex j) rows)
