-- ===== src/Routing/Update/Frame.antt =====
-- What an update leaves alone, and what it records: crates/pim-routing/src/table.rs, `apply_update`.
use proximity_internet_mesh.Base.{
  ℕ_eq, bytes_eq, ◌==◌, ℕ, ◌+◌, ◌≡◌, refl, ap, list_eq_iff, inl, inr, List, [], ◌∷◌, arith, Bytes,
  Bool, true, false, ◌&&◌, ◌||◌, min, leb, ltb, Bool-cases, Option-cases,
}
use proximity_internet_mesh.Base.Map.{Map, lookup, insert, lookup-insert, lookup-insert_self}
use proximity_internet_mesh.Core.{NodeId}
use proximity_internet_mesh.Protocol.Route.{RouteEntry, RouteUpdateFrame}
use proximity_internet_mesh.Routing.Table.{
  infinity, RouteTableEntry, unchanged, RoutingTable, unwrap_or,
}
use proximity_internet_mesh.Routing.Update.{
  note_sender, revise_route, apply_entry, apply_entries, accept_update, apply_update, is_suspicious,
}
use proximity_internet_mesh.Routing.Table.Frame.{
  Keeps, Keeps-refl, Keeps-trans, remove_route-Keeps, remove_each-Keeps, insert_route-Keeps,
}

-- The sequence number `n` of `peer`, or a greater one, has been recorded.
abbrev pub IsRecorded : NodeId → ℕ → Map NodeId ℕ → Type 0
IsRecorded peer n recorded = leb n (unwrap_or (lookup peer recorded) 0) ≡ true

insert-IsRecorded :
    (from_peer peer : NodeId) (sequence n : ℕ) (recorded : Map NodeId ℕ)
    → IsRecorded peer n recorded
    → leb sequence (unwrap_or (lookup from_peer recorded) 0) ≡ false
    → IsRecorded peer n (insert from_peer sequence recorded)
insert-IsRecorded from_peer peer sequence n recorded h fresh =
    elim (Bool-cases (from_peer == peer)) [
      | inr other ↦ rw (lookup-insert, other) h
      | inl same ↦
          let last : lookup from_peer recorded ≡ lookup peer recorded =
            ap (λ (k : NodeId). lookup k recorded) ((list_eq_iff from_peer peer).0 same) in
          let below : leb sequence (unwrap_or (lookup peer recorded) 0) ≡ false =
            rw (← last) fresh in
          rw (lookup-insert, same) (ground arith)
    ]

module _ (keyed_digest : NodeId → Bytes) where
  pub note_sender-Keeps :
      (t : RoutingTable) (from_peer : NodeId) (sequence now : ℕ)
      → Keeps t (note_sender keyed_digest t from_peer sequence now).1
  unfolding note_sender
  note_sender-Keeps t from_peer sequence now = elim (Option-cases (lookup from_peer t.routes)) [
    | inl unknown ↦ rw (unknown, note_sender) (insert_route-Keeps keyed_digest t from_peer _)
    | inr (e, at) ↦
        rw (at, note_sender)
          (record { self_id = refl; peer_max_seq = refl; blacklisted_peers = refl })
  ]

  revise_route-Keeps :
      (t : RoutingTable) (from_peer : NodeId) (sequence now : ℕ) (a : RouteEntry) (hops : ℕ)
      (e : RouteTableEntry)
      → Keeps t (revise_route keyed_digest t from_peer sequence now a hops e).1
  unfolding revise_route
  revise_route-Keeps t from_peer sequence now a hops e =
      elim (Bool-cases (ltb hops e.hops || (ltb e.sequence sequence && e.next_hop == from_peer))) [
        | inl replace ↦ rw replace (insert_route-Keeps keyed_digest t a.destination _)
        | inr leave ↦ rw leave (Keeps-refl t)
      ]

  apply_entry-Keeps :
      (t : RoutingTable) (from_peer : NodeId) (sequence now : ℕ) (a : RouteEntry)
      → Keeps t (apply_entry keyed_digest t from_peer sequence now a).1
  unfolding apply_entry
  apply_entry-Keeps t from_peer sequence now a =
      let hops = min (a.hops + 1) infinity in
      elim (Bool-cases (a.destination == t.self_id)) [
        | inl own ↦ rw own (Keeps-refl t)
        | inr other ↦ elim (Bool-cases (leb infinity hops)) [
          | inl far ↦ elim (Option-cases (lookup a.destination t.routes)) [
            | inl unknown ↦ rw (other, far, unknown, apply_entry) (Keeps-refl t)
            | inr (e, at) ↦ elim (Bool-cases (e.next_hop == from_peer)) [
              | inl poison ↦
                  rw (other, far, at, poison, apply_entry) (remove_route-Keeps t a.destination)
              | inr elsewhere ↦ rw (other, far, at, elsewhere, apply_entry) (Keeps-refl t)
            ]
          ]
          | inr near ↦ elim (Option-cases (lookup a.destination t.routes)) [
            | inl unknown ↦
                rw (other, near, unknown, apply_entry)
                  (insert_route-Keeps keyed_digest t a.destination _)
            | inr (e, at) ↦
                rw (other, near, at, apply_entry)
                  (revise_route-Keeps t from_peer sequence now a hops e)
          ]
        ]
      ]

  pub apply_entries-Keeps :
      (es : List RouteEntry) (from_peer : NodeId) (sequence now : ℕ) (s : Bool × RoutingTable)
      → Keeps s.1 (apply_entries keyed_digest es from_peer sequence now s).1
  unfolding apply_entries
  apply_entries-Keeps [] from_peer sequence now s = Keeps-refl s.1
  apply_entries-Keeps (e ∷ es) from_peer sequence now (c, t) =
      Keeps-trans (apply_entry-Keeps t from_peer sequence now e)
        (apply_entries-Keeps es from_peer sequence now _)

  accept_update-Keeps :
      (t : RoutingTable) (update : RouteUpdateFrame) (from_peer : NodeId) (now : ℕ)
      → Keeps t (accept_update keyed_digest t update from_peer now).1
  unfolding accept_update
  accept_update-Keeps t update from_peer now =
      Keeps-trans (note_sender-Keeps t from_peer update.sequence now) (
        Keeps-trans (apply_entries-Keeps update.entries from_peer update.sequence now _)
          (remove_each-Keeps _ _))

  pub apply_update-stale :
      (t : RoutingTable) (update : RouteUpdateFrame) (from_peer : NodeId) (now : ℕ)
      → leb update.sequence (unwrap_or (lookup from_peer t.peer_max_seq) 0) ≡ true
      → apply_update keyed_digest t update from_peer now ≡ (unchanged, t)
  unfolding apply_update
  apply_update-stale t update from_peer now replayed =
      elim (Bool-cases (update.origin_id == from_peer)) [
        | inl own ↦ rw (own, replayed) refl
        | inr relayed ↦ rw relayed refl
      ]

  pub apply_update-relayed :
      (t : RoutingTable) (update : RouteUpdateFrame) (from_peer : NodeId) (now : ℕ)
      → (update.origin_id == from_peer) ≡ false
      → apply_update keyed_digest t update from_peer now ≡ (unchanged, t)
  unfolding apply_update
  apply_update-relayed t update from_peer now relayed = rw relayed refl

  leb_refl : (n : ℕ) → leb n n ≡ true
  leb_refl n = ground arith

  -- The sequence number recorded for a peer after one of its own updates.
  pub apply_update-peer_max_seq :
      (t : RoutingTable) (update : RouteUpdateFrame) (from_peer : NodeId) (now : ℕ)
      → (update.origin_id == from_peer) ≡ true
      → IsRecorded from_peer update.sequence
          (apply_update keyed_digest t update from_peer now).1.peer_max_seq
  unfolding apply_update
  apply_update-peer_max_seq t update from_peer now own =
      let t' : RoutingTable = record t {
        peer_max_seq = insert from_peer update.sequence t.peer_max_seq;
      } in
      let noted = lookup-insert_self from_peer update.sequence t.peer_max_seq in
      elim (Bool-cases (leb update.sequence (unwrap_or (lookup from_peer t.peer_max_seq) 0))) [
        | inl replayed ↦ rw (own, replayed) replayed
        | inr fresh ↦ elim (Bool-cases (is_suspicious update)) [
          | inl forged ↦ rw (own, fresh, forged, noted) (leb_refl update.sequence)
          | inr plain ↦
              rw
                (
                  own,
                  fresh,
                  plain,
                  (accept_update-Keeps t' update from_peer now).peer_max_seq,
                  noted,
                )
                (leb_refl update.sequence)
        ]
      ]

  -- Updates only raise the recorded sequence numbers.
  pub apply_update-IsRecorded :
      (t : RoutingTable) (update : RouteUpdateFrame) (from_peer peer : NodeId) (now n : ℕ)
      → IsRecorded peer n t.peer_max_seq
      → IsRecorded peer n (apply_update keyed_digest t update from_peer now).1.peer_max_seq
  unfolding apply_update
  apply_update-IsRecorded t update from_peer peer now n h =
      let t' : RoutingTable = record t {
        peer_max_seq = insert from_peer update.sequence t.peer_max_seq;
      } in
      let raised = insert-IsRecorded from_peer peer update.sequence n t.peer_max_seq h in
      elim (Bool-cases (update.origin_id == from_peer)) [
        | inr relayed ↦ rw relayed h
        | inl own ↦
            elim (Bool-cases
              (leb update.sequence (unwrap_or (lookup from_peer t.peer_max_seq) 0))) [
                | inl replayed ↦ rw (own, replayed) h
                | inr fresh ↦ elim (Bool-cases (is_suspicious update)) [
                  | inl forged ↦ rw (own, fresh, forged) (raised fresh)
                  | inr plain ↦
                      rw
                        (
                          own,
                          fresh,
                          plain,
                          (accept_update-Keeps t' update from_peer now).peer_max_seq,
                        )
                        (raised fresh)
                ]
              ]
      ]
