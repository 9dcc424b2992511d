-- ===== src/Discovery/PeerTable.antt =====
-- crates/pim-discovery/src/peer_table.rs: the peers that have been discovered. The types of the
-- capabilities and of the address are parameters.
use native.Mathlib.Omega.{arith}
use proximity_internet_mesh.Base.{
  ℕ, ◌-◌, ◌≡◌, refl, sym, ap, ◌∙◌, inl, inr, Bytes, Bool, not, Bool-cases, Option, none, some,
  Option-cases, bytes_eq, ◌==◌, ==→eq, ==_refl, ltb, if◌then◌else◌, List, [], ◌∷◌,
}
use proximity_internet_mesh.Base.Map.{
  Map, lookup, insert, remove, keys_where, contains, contains_key, IsDistinct, insert-IsDistinct,
  remove-IsDistinct, lookup_inserted, lookup_removed, lookup-remove, passing, passes,
  contains-keys_where,
}
use proximity_internet_mesh.Core.{NodeId}

pub record PeerRecord (C A : Type 0) : Type 0 where
  pub node_id : NodeId
  pub public_key : Bytes
  pub capabilities : C
  pub listen_addr : A
  pub last_seen : ℕ

-- `PeerTable`, which has one field.
abbrev pub Table : Type 0 → Type 0 → Type 0
Table C A = Map NodeId (PeerRecord C A)

pub data Operation (C A : Type 0) : Type 0 where
  insert_peer : PeerRecord C A → Operation C A
  drop_peer : NodeId → Operation C A
  expire_at : ℕ → ℕ → Operation C A

module _ {C A : Type 0} where
  abbrev pub is_stale : ℕ → ℕ → PeerRecord C A → Bool
  is_stale now max_age r = ltb max_age (now - r.last_seen)

  unfoldable pub upsert : PeerRecord C A → Table C A → Bool × Table C A
  unfolding insert
  upsert r peers = (not (contains_key r.node_id peers), insert r.node_id r peers)

  unfoldable pub remove_peer : NodeId → Table C A → Option (PeerRecord C A) × Table C A
  unfolding lookup remove
  remove_peer node_id peers = (lookup node_id peers, remove node_id peers)

  -- `for id in &stale { self.peers.remove(id); }`
  unfoldable pub remove_each : List NodeId → Table C A → Table C A
  unfolding remove
  remove_each [] peers = peers
  remove_each (id ∷ ids) peers = remove_each ids (remove id peers)

  -- `values().filter(..).map(|p| p.node_id)`, with one reading of the clock for all records.
  unfoldable pub stale_ids : ℕ → ℕ → Table C A → List NodeId
  stale_ids now max_age [] = []
  stale_ids now max_age ((id, r) ∷ peers) =
      if is_stale now max_age r
      then r.node_id ∷ stale_ids now max_age peers
      else stale_ids now max_age peers

  unfoldable pub expire_stale : ℕ → ℕ → Table C A → List NodeId × Table C A
  unfolding stale_ids remove_each
  expire_stale now max_age peers =
      (stale_ids now max_age peers, remove_each (stale_ids now max_age peers) peers)

  abbrev pub perform : Operation C A → Table C A → Table C A
  perform (insert_peer r) peers = (upsert r peers).1
  perform (drop_peer id) peers = (remove_peer id peers).1
  perform (expire_at now max_age) peers = (expire_stale now max_age peers).1

  unfoldable pub perform_all : List (Operation C A) → Table C A → Table C A
  perform_all [] peers = peers
  perform_all (o ∷ os) peers = perform_all os (perform o peers)

  -- Each record stands under its own identifier, and none twice.
  pub record IsKeyed (peers : Table C A) : Type 0 where
    pub distinct : IsDistinct peers
    pub named : (id : NodeId) (r : PeerRecord C A) → lookup id peers ≡ some r → r.node_id ≡ id

  upsert-IsKeyed :
      (r : PeerRecord C A) (peers : Table C A) → IsKeyed peers → IsKeyed (upsert r peers).1
  unfolding upsert
  upsert-IsKeyed r peers k = record {
    distinct = insert-IsDistinct r.node_id r peers k.distinct;
    named = λ id s h. elim (lookup_inserted r.node_id id r s peers h) [
      | inl (same, is) ↦ ap (λ (x : PeerRecord C A). x.node_id) (sym is) ∙ same
      | inr (off, old) ↦ k.named id s old
    ];
  }

  remove-IsKeyed : (id : NodeId) (peers : Table C A) → IsKeyed peers → IsKeyed (remove id peers)
  remove-IsKeyed id peers k = record {
    distinct = remove-IsDistinct id peers k.distinct;
    named = λ j s h. let (off, old) = lookup_removed id j s peers h in k.named j s old;
  }

  remove_each-IsKeyed :
      (ids : List NodeId) (peers : Table C A) → IsKeyed peers → IsKeyed (remove_each ids peers)
  unfolding remove_each
  remove_each-IsKeyed [] peers k = k
  remove_each-IsKeyed (id ∷ ids) peers k =
      remove_each-IsKeyed ids (remove id peers) (remove-IsKeyed id peers k)

  remove_peer-IsKeyed :
      (id : NodeId) (peers : Table C A) → IsKeyed peers → IsKeyed (remove_peer id peers).1
  unfolding remove_peer
  remove_peer-IsKeyed id peers k = remove-IsKeyed id peers k

  expire_stale-IsKeyed :
      (now max_age : ℕ) (peers : Table C A)
      → IsKeyed peers
      → IsKeyed (expire_stale now max_age peers).1
  unfolding expire_stale
  expire_stale-IsKeyed now max_age peers k =
      remove_each-IsKeyed (stale_ids now max_age peers) peers k

  perform_all-IsKeyed :
      (os : List (Operation C A)) (peers : Table C A)
      → IsKeyed peers
      → IsKeyed (perform_all os peers)
  unfolding perform_all
  perform_all-IsKeyed [] peers k = k
  perform_all-IsKeyed (insert_peer r ∷ os) peers k =
      perform_all-IsKeyed os (upsert r peers).1 (upsert-IsKeyed r peers k)
  perform_all-IsKeyed (drop_peer id ∷ os) peers k =
      perform_all-IsKeyed os (remove_peer id peers).1 (remove_peer-IsKeyed id peers k)
  perform_all-IsKeyed (expire_at now max_age ∷ os) peers k =
      perform_all-IsKeyed os (expire_stale now max_age peers).1
        (expire_stale-IsKeyed now max_age peers k)

  lookup-remove_each :
      (ids : List NodeId) (j : NodeId) (peers : Table C A)
      → lookup j (remove_each ids peers) ≡ (if contains j ids then none else lookup j peers)
  unfolding remove_each contains
  lookup-remove_each [] j peers = refl
  lookup-remove_each (id ∷ ids) j peers =
      ground (arith, lookup-remove_each ids j (remove id peers), lookup-remove id j peers)

  tail-IsKeyed :
      (id : NodeId) (r : PeerRecord C A) (peers : Table C A)
      → IsKeyed ((id, r) ∷ peers)
      → IsKeyed peers
  unfolding lookup
  tail-IsKeyed id r peers k = record {
    distinct = k.distinct.1;
    named = λ j s h. k.named j s (elim (Bool-cases (id == j)) [
      | inl hit ↦
          absurd
            (ground (arith, k.distinct.0, ap (λ (x : NodeId). lookup x peers) (==→eq id j hit)))
      | inr miss ↦ rw miss h
    ]);
  }

  head-named :
      (id : NodeId) (r : PeerRecord C A) (peers : Table C A)
      → IsKeyed ((id, r) ∷ peers)
      → r.node_id ≡ id
  unfolding lookup
  head-named id r peers k = k.named id r (rw (==_refl id) refl)

  -- The identifiers are those of the keys, if the records stand under their own.
  stale_ids-keys_where :
      (now max_age : ℕ) (peers : Table C A)
      → IsKeyed peers
      → stale_ids now max_age peers ≡ keys_where (λ id r. is_stale now max_age r) peers
  unfolding stale_ids keys_where
  stale_ids-keys_where now max_age [] k = refl
  stale_ids-keys_where now max_age ((id, r) ∷ peers) k =
      rw
        (
          head-named id r peers k,
          stale_ids-keys_where now max_age peers (tail-IsKeyed id r peers k),
        )
        refl

  -- After any sequence of insertions, removals and expiries of an empty table, an expiry removes the
  -- peers that have not been heard of for longer than the given age, and names them, and leaves the
  -- others as they were.
  pub expire_stale-reachable :
      (os : List (Operation C A)) (now max_age : ℕ) (id : NodeId)
      → let peers = perform_all os [] in
        let (ids, left) = expire_stale now max_age peers in
        (contains id ids ≡ passes (λ j r. is_stale now max_age r) id (lookup id peers))
        × (lookup id left ≡ passing (λ j r. not (is_stale now max_age r)) id (lookup id peers))
  unfolding expire_stale lookup
  expire_stale-reachable os now max_age id =
      let peers = perform_all os [] in
      let k = perform_all-IsKeyed os [] (record { distinct = tt; named = λ id r h. cc h }) in
      let test = λ (j : NodeId) (r : PeerRecord C A). is_stale now max_age r in
      let chosen : contains id (stale_ids now max_age peers) ≡ passes test id (lookup id peers) =
        ap (contains id) (stale_ids-keys_where now max_age peers k)
        ∙ contains-keys_where test id peers k.distinct in
      (
        chosen,
        lookup-remove_each (stale_ids now max_age peers) id peers
            ∙ elim (Option-cases (lookup id peers)) [
              | inl off ↦ ground (arith, chosen, off)
              | inr (r, there) ↦ ground (arith, chosen, there)
            ],
      )
