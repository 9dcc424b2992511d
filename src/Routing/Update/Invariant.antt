-- ===== src/Routing/Update/Invariant.antt =====
-- Updates keep a routing table well formed: crates/pim-routing/src/table.rs, `apply_update`.
use proximity_internet_mesh.Base.{
  ℕ_eq, bytes_eq, ◌==◌, ℕ, ◌+◌, ◌≤◌, ◌<◌, ◌≡◌, refl, ap, ◌∙◌, inl, inr, List, [], ◌∷◌, arith, Bytes,
  Bool, ◌&&◌, ◌||◌, min, some, leb, ltb, Bool-cases, Option-cases, subst, leb→gt, ==→eq, not,
}
use proximity_internet_mesh.Base.Map.{lookup, insert, lookup-insert, insert-IsDistinct}
use proximity_internet_mesh.Core.{NodeId}
use proximity_internet_mesh.Protocol.Route.{RouteEntry, RouteUpdateFrame}
use proximity_internet_mesh.Routing.Table.{infinity, RouteTableEntry, RoutingTable, unwrap_or}
use proximity_internet_mesh.Routing.Table.Invariant.{
  IsRoute, IsWellFormed, remove_route-IsWellFormed, remove_each-IsWellFormed,
  insert_route-IsWellFormed,
}
use proximity_internet_mesh.Routing.Update.{
  note_sender, revise_route, apply_entry, apply_entries, accept_update, apply_update, is_suspicious,
}

-- A new value of a known route that keeps its address.
pub refresh-IsWellFormed :
    (t : RoutingTable) (dst : NodeId) (old new : RouteTableEntry)
    → IsWellFormed t
    → lookup dst t.routes ≡ some old
    → IsRoute new
    → new.mesh_ip ≡ old.mesh_ip
    → IsWellFormed (record t { routes = insert dst new t.routes })
refresh-IsWellFormed t dst old new v at r same = record {
  distinct = insert-IsDistinct dst new t.routes v.distinct;
  proper = λ d e found. elim (Bool-cases (dst == d)) [
    | inl hit ↦
        let p : new ≡ e = ground (arith, lookup-insert dst d new t.routes) in subst IsRoute p r
    | inr miss ↦ v.proper d e (ground (arith, lookup-insert dst d new t.routes))
  ];
  indexed = λ ip d found.
      let (e, at', addr) = v.indexed ip d found in
      elim (Bool-cases (dst == d)) [
        | inl hit ↦
            let q : lookup dst t.routes ≡ some e =
              ap (λ (k : NodeId). lookup k t.routes) (==→eq dst d hit) ∙ at' in
            (
              new,
              ground (arith, lookup-insert dst d new t.routes),
              (let o : old ≡ e = ground arith in
                  same ∙ ap (λ (x : RouteTableEntry). x.mesh_ip) o ∙ addr),
            )
        | inr miss ↦ (e, ground (arith, lookup-insert dst d new t.routes), addr)
      ];
}

module _ (keyed_digest : NodeId → Bytes) where
  note_sender-IsWellFormed :
      (t : RoutingTable) (from_peer : NodeId) (sequence now : ℕ)
      → IsWellFormed t
      → IsWellFormed (note_sender keyed_digest t from_peer sequence now).1
  unfolding note_sender
  note_sender-IsWellFormed t from_peer sequence now v =
      elim (Option-cases (lookup from_peer t.routes)) [
        | inl unknown ↦
            rw (unknown, note_sender)
              (insert_route-IsWellFormed keyed_digest t from_peer _ v
                (record { at_least_one = omega arith; finite = omega arith; via_teacher = refl }))
        | inr (e, at) ↦
            let r = v.proper from_peer e at in
            rw (at, note_sender)
              (refresh-IsWellFormed t from_peer e (record e { last_seen = now }) v at
                (record {
                  at_least_one = r.at_least_one;
                  finite = r.finite;
                  via_teacher = r.via_teacher;
                })
                refl)
      ]

  revise_route-IsWellFormed :
      (t : RoutingTable) (from_peer : NodeId) (sequence now : ℕ) (a : RouteEntry) (hops : ℕ)
      (e : RouteTableEntry)
      → IsWellFormed t
      → 1 ≤ hops
      → hops < infinity
      → IsWellFormed (revise_route keyed_digest t from_peer sequence now a hops e).1
  unfolding revise_route
  revise_route-IsWellFormed t from_peer sequence now a hops e v low high =
      elim (Bool-cases (ltb hops e.hops || (ltb e.sequence sequence && e.next_hop == from_peer))) [
        | inl replace ↦ rw replace (
            insert_route-IsWellFormed keyed_digest t a.destination _ v
              (record { at_least_one = low; finite = high; via_teacher = refl }))
        | inr leave ↦ rw leave v
      ]

  apply_entry-IsWellFormed :
      (t : RoutingTable) (from_peer : NodeId) (sequence now : ℕ) (a : RouteEntry)
      → IsWellFormed t
      → IsWellFormed (apply_entry keyed_digest t from_peer sequence now a).1
  unfolding apply_entry
  apply_entry-IsWellFormed t from_peer sequence now a v =
      let hops = min (a.hops + 1) infinity in
      elim (Bool-cases (a.destination == t.self_id)) [
        | inl own ↦ rw own v
        | inr other ↦ elim (Bool-cases (leb infinity hops)) [
          | inl far ↦ elim (Option-cases (lookup a.destination t.routes)) [
            | inl unknown ↦ rw (other, far, unknown, apply_entry) v
            | inr (e, at) ↦ elim (Bool-cases (e.next_hop == from_peer)) [
              | inl poison ↦
                  rw (other, far, at, poison, apply_entry)
                    (remove_route-IsWellFormed t a.destination v)
              | inr elsewhere ↦ rw (other, far, at, elsewhere, apply_entry) v
            ]
          ]
          | inr near ↦ elim (Option-cases (lookup a.destination t.routes)) [
            | inl unknown ↦
                rw (other, near, unknown, apply_entry)
                  (insert_route-IsWellFormed keyed_digest t a.destination _ v (record {
                    at_least_one = omega arith;
                    finite = leb→gt infinity hops near;
                    via_teacher = refl;
                  }))
            | inr (e, at) ↦
                rw (other, near, at, apply_entry)
                  (revise_route-IsWellFormed t from_peer sequence now a hops e v (omega arith)
                    (leb→gt infinity hops near))
          ]
        ]
      ]

  apply_entries-IsWellFormed :
      (es : List RouteEntry) (from_peer : NodeId) (sequence now : ℕ) (s : Bool × RoutingTable)
      → IsWellFormed s.1
      → IsWellFormed (apply_entries keyed_digest es from_peer sequence now s).1
  unfolding apply_entries
  apply_entries-IsWellFormed [] from_peer sequence now s v = v
  apply_entries-IsWellFormed (e ∷ es) from_peer sequence now (c, t) v =
      apply_entries-IsWellFormed es from_peer sequence now _
        (apply_entry-IsWellFormed t from_peer sequence now e v)

  accept_update-IsWellFormed :
      (t : RoutingTable) (update : RouteUpdateFrame) (from_peer : NodeId) (now : ℕ)
      → IsWellFormed t
      → IsWellFormed (accept_update keyed_digest t update from_peer now).1
  unfolding accept_update
  accept_update-IsWellFormed t update from_peer now v = remove_each-IsWellFormed _ _ (
      apply_entries-IsWellFormed update.entries from_peer update.sequence now _
        (note_sender-IsWellFormed t from_peer update.sequence now v))

  -- An update from any peer, honest or not, accepted or rejected, keeps a table well formed: every
  -- route of 1 to 15 hops, through the peer that taught it, and the index of addresses right.
  pub apply_update-IsWellFormed :
      (t : RoutingTable) (update : RouteUpdateFrame) (from_peer : NodeId) (now : ℕ)
      → IsWellFormed t
      → IsWellFormed (apply_update keyed_digest t update from_peer now).1
  unfolding apply_update
  apply_update-IsWellFormed t update from_peer now v =
      let t' : RoutingTable = record t {
        peer_max_seq = insert from_peer update.sequence t.peer_max_seq;
      } in
      let v' : IsWellFormed t' = record {
        distinct = v.distinct;
        proper = v.proper;
        indexed = v.indexed;
      } in
      elim (Bool-cases (not (update.origin_id == from_peer))) [
        | inl relayed ↦ rw relayed v
        | inr direct ↦
            elim (Bool-cases
              (leb update.sequence (unwrap_or (lookup from_peer t.peer_max_seq) 0))) [
                | inl replayed ↦ rw (direct, replayed) v
                | inr fresh ↦ elim (Bool-cases (is_suspicious update)) [
                  | inl forged ↦ rw (direct, fresh, forged) v'
                  | inr plain ↦
                      rw (direct, fresh, plain)
                        (accept_update-IsWellFormed t' update from_peer now v')
                ]
              ]
      ]
