-- ===== src/Daemon/SendBuffer/Peers.antt =====
-- crates/pim-daemon/src/send_buffer.rs, `SendBuffer`: the buffers of all peers, over time.
use proximity_internet_mesh.Base.{
  bytes_eq, ◌==◌, ℕ, ◌≤◌, ◌≡◌, refl, ap, ◌∙◌, subst, sym, inl, inr, List, [], ◌∷◌, arith, not, map,
  filter, Option, none, some, if◌then◌else◌, Bool-cases, Option-cases, list_eq_iff,
}
use proximity_internet_mesh.Base.Map.{
  Map, lookup, insert, retain, IsDistinct, lookup-insert, lookup-remove, lookup-retain,
  insert-IsDistinct, remove-IsDistinct, retain-IsDistinct,
}
use proximity_internet_mesh.Core.{NodeId}
use proximity_internet_mesh.Protocol.Transport.{TransportFrame}
use proximity_internet_mesh.Daemon.SendBuffer.{
  Priority, PeerBuffer, is_fresh, new_buffer, push_frame, drain_buffer, expire, is_empty,
  SendBuffer, new, buffer_of, push, drain, expire_each, expire_all, frame_count,
}
use proximity_internet_mesh.Daemon.SendBuffer.Order.{
  IsOrdered, length-filter, filter-IsSorted, push_frame-IsOrdered,
}

-- Each peer has one buffer, in order and within the capacity that the whole gives to each.
pub record IsHealthy (s : SendBuffer) : Type 0 where
  pub distinct : IsDistinct s.peers
  pub ordered : (p : NodeId) (b : PeerBuffer) → lookup p s.peers ≡ some b → IsOrdered b
  pub allotted :
      (p : NodeId) (b : PeerBuffer) → lookup p s.peers ≡ some b → b.capacity ≡ s.capacity_per_peer

pub data Operation : Type 0 where
  push_to : NodeId → Priority → TransportFrame → ℕ → ℕ → Operation
  drain_for : NodeId → ℕ → Operation
  expire_at : ℕ → Operation

unfoldable pub perform : Operation → SendBuffer → SendBuffer
perform (push_to p priority frame now enqueued_at) s = push s p priority frame now enqueued_at
perform (drain_for p now) s = (drain s p now).1
perform (expire_at now) s = (expire_all s now).1

unfoldable pub perform_all : List Operation → SendBuffer → SendBuffer
perform_all [] s = s
perform_all (o ∷ os) s = perform_all os (perform o s)

abbrev expired : ℕ → Option PeerBuffer → Option PeerBuffer
expired now none = none
expired now (some b) = some (expire b now).1

lookup-expire_each :
    (q : NodeId) (m : Map NodeId PeerBuffer) (now : ℕ)
    → lookup q (expire_each m now).1 ≡ expired now (lookup q m)
unfolding lookup expire_each
lookup-expire_each q [] now = refl
lookup-expire_each q ((p, b) ∷ m) now = elim (Bool-cases (p == q)) [
  | inl hit ↦ rw hit refl
  | inr miss ↦ rw miss (lookup-expire_each q m now)
]

expire_each-IsDistinct :
    (m : Map NodeId PeerBuffer) (now : ℕ) → IsDistinct m → IsDistinct (expire_each m now).1
unfolding expire_each
expire_each-IsDistinct [] now d = tt
expire_each-IsDistinct ((p, b) ∷ m) now (fresh, d) =
    (lookup-expire_each p m now ∙ ap (expired now) fresh, expire_each-IsDistinct m now d)

expire-IsOrdered : (b : PeerBuffer) (now : ℕ) → IsOrdered b → IsOrdered (expire b now).1
unfolding expire
expire-IsOrdered b now v = record {
  sorted = filter-IsSorted (is_fresh b.timeout now) b.frames v.sorted;
  bounded = omega (arith, length-filter (is_fresh b.timeout now) b.frames, v.bounded);
}

buffer_of-IsOrdered : (s : SendBuffer) (p : NodeId) → IsHealthy s → IsOrdered (buffer_of s p)
unfolding buffer_of new_buffer
buffer_of-IsOrdered s p v = elim (Option-cases (lookup p s.peers)) [
  | inl absent ↦ rw (absent, buffer_of) (record { sorted = tt; bounded = omega arith })
  | inr (b, at) ↦ rw (at, buffer_of) (v.ordered p b at)
]

buffer_of-capacity :
    (s : SendBuffer) (p : NodeId) → IsHealthy s → (buffer_of s p).capacity ≡ s.capacity_per_peer
unfolding buffer_of new_buffer
buffer_of-capacity s p v = elim (Option-cases (lookup p s.peers)) [
  | inl absent ↦ rw (absent, buffer_of) refl
  | inr (b, at) ↦ rw (at, buffer_of) (v.allotted p b at)
]

push_frame-capacity :
    (b : PeerBuffer) (p : Priority) (frame : TransportFrame) (now enqueued_at : ℕ)
    → (push_frame b p frame now enqueued_at).capacity ≡ b.capacity
unfolding push_frame
push_frame-capacity b p frame now enqueued_at = ground arith

-- Storing a good buffer.
insert-IsHealthy :
    (s : SendBuffer) (p : NodeId) (b : PeerBuffer)
    → IsHealthy s
    → IsOrdered b
    → b.capacity ≡ s.capacity_per_peer
    → IsHealthy (record s { peers = insert p b s.peers })
insert-IsHealthy s p b v w same = record {
  distinct = insert-IsDistinct p b s.peers v.distinct;
  ordered = λ q c found. elim (Bool-cases (p == q)) [
    | inl hit ↦ let e : b ≡ c = ground (arith, lookup-insert p q b s.peers) in subst IsOrdered e w
    | inr miss ↦ v.ordered q c (ground (arith, lookup-insert p q b s.peers))
  ];
  allotted = λ q c found. elim (Bool-cases (p == q)) [
    | inl hit ↦
        let e : b ≡ c = ground (arith, lookup-insert p q b s.peers) in
        ap (λ (x : PeerBuffer). x.capacity) (sym e) ∙ same
    | inr miss ↦ v.allotted q c (ground (arith, lookup-insert p q b s.peers))
  ];
}

drain-IsHealthy :
    (s : SendBuffer) (p : NodeId) (now : ℕ) → IsHealthy s → IsHealthy (drain s p now).1
unfolding drain drain_buffer is_empty
drain-IsHealthy s p now v = elim (Option-cases (lookup p s.peers)) [
  | inl absent ↦ rw (absent, drain) v
  | inr (b, at) ↦
      rw (at, drain)
        (record {
          distinct = remove-IsDistinct p s.peers v.distinct;
          ordered = λ q c found. v.ordered q c (ground (arith, lookup-remove p q s.peers));
          allotted = λ q c found. v.allotted q c (ground (arith, lookup-remove p q s.peers));
        })
]

-- A buffer that is left after an expiry is the expired one of its peer.
left_over :
    (s : SendBuffer) (q : NodeId) (c : PeerBuffer) (now : ℕ)
    → IsHealthy s
    → lookup q (retain (λ k b. not (is_empty b)) (expire_each s.peers now).1) ≡ some c
    → (b : PeerBuffer) × (lookup q s.peers ≡ some b) × ((expire b now).1 ≡ c)
left_over s q c now v found =
    let keep = λ (k : NodeId) (b : PeerBuffer). not (is_empty b) in
    let e =
      lookup-retain keep q (expire_each s.peers now).1
        (expire_each-IsDistinct s.peers now v.distinct) in
    let f = lookup-expire_each q s.peers now in
    elim (Option-cases (lookup q s.peers)) [
      | inl absent ↦ absurd (ground arith)
      | inr (b, at) ↦ (b, at, ground arith)
    ]

expire_all-IsHealthy : (s : SendBuffer) (now : ℕ) → IsHealthy s → IsHealthy (expire_all s now).1
unfolding expire_all
expire_all-IsHealthy s now v =
    let keep = λ (k : NodeId) (b : PeerBuffer). not (is_empty b) in
    record {
      distinct = retain-IsDistinct keep _ (expire_each-IsDistinct s.peers now v.distinct);
      ordered = λ q c found.
          let (b, at, same) = left_over s q c now v found in
          subst IsOrdered same (expire-IsOrdered b now (v.ordered q b at));
      allotted = λ q c found.
          let (b, at, same) = left_over s q c now v found in
          ap (λ (x : PeerBuffer). x.capacity) (sym same) ∙ (unfold expire in v.allotted q b at);
    }

perform-IsHealthy : (o : Operation) (s : SendBuffer) → IsHealthy s → IsHealthy (perform o s)
unfolding perform push
perform-IsHealthy (push_to p priority frame now enqueued_at) s v =
    insert-IsHealthy s p _ v
      (push_frame-IsOrdered (buffer_of s p) priority frame now enqueued_at
        (buffer_of-IsOrdered s p v))
      (push_frame-capacity (buffer_of s p) priority frame now enqueued_at
        ∙ buffer_of-capacity s p v)
perform-IsHealthy (drain_for p now) s v = drain-IsHealthy s p now v
perform-IsHealthy (expire_at now) s v = expire_all-IsHealthy s now v

drain-capacity :
    (s : SendBuffer) (p : NodeId) (now : ℕ)
    → (drain s p now).1.capacity_per_peer ≡ s.capacity_per_peer
unfolding drain
drain-capacity s p now = elim (Option-cases (lookup p s.peers)) [
  | inl absent ↦ rw (absent, drain) refl
  | inr (b, at) ↦ rw (at, drain) refl
]

perform-capacity :
    (o : Operation) (s : SendBuffer) → (perform o s).capacity_per_peer ≡ s.capacity_per_peer
unfolding perform push expire_all
perform-capacity (push_to p priority frame now enqueued_at) s = refl
perform-capacity (drain_for p now) s = drain-capacity s p now
perform-capacity (expire_at now) s = refl

perform_all-IsHealthy :
    (os : List Operation) (s : SendBuffer)
    → IsHealthy s
    → IsHealthy (perform_all os s) × ((perform_all os s).capacity_per_peer ≡ s.capacity_per_peer)
unfolding perform_all
perform_all-IsHealthy [] s v = (v, refl)
perform_all-IsHealthy (o ∷ os) s v =
    let (w, same) = perform_all-IsHealthy os (perform o s) (perform-IsHealthy o s v) in
    (w, same ∙ perform-capacity o s)

new-IsHealthy : (capacity timeout : ℕ) → IsHealthy (new capacity timeout)
unfolding new lookup
new-IsHealthy capacity timeout = record {
  distinct = tt;
  ordered = λ p b e. cc;
  allotted = λ p b e. cc;
}

-- Through any sequence of pushes, drains and expiries, no peer has more frames waiting than the
-- capacity given at the start.
pub frame_count-perform_all :
    (capacity timeout : ℕ) (os : List Operation) (p : NodeId)
    → frame_count (perform_all os (new capacity timeout)) p ≤ capacity
unfolding frame_count new
frame_count-perform_all capacity timeout os p =
    let s = perform_all os (new capacity timeout) in
    let (v, same) =
      perform_all-IsHealthy os (new capacity timeout) (new-IsHealthy capacity timeout) in
    elim (Option-cases (lookup p s.peers)) [
      | inl absent ↦ rw (absent, frame_count) (omega arith)
      | inr (b, at) ↦
          let w = v.ordered p b at in
          let c = v.allotted p b at in rw (at, frame_count) (omega (arith, w.bounded, c, same))
    ]

-- Draining gives a peer's frames that have not timed out, as they stand, and leaves nothing of them and
-- all of the other peers' buffers.
pub drain-lookup :
    (s : SendBuffer) (p q : NodeId) (now : ℕ)
    → ((drain s p now).0
        ≡ map (λ f. f.frame) (filter (is_fresh (buffer_of s p).timeout now) (buffer_of s p).frames))
      × (lookup q (drain s p now).1.peers ≡ (if p == q then none else lookup q s.peers))
unfolding drain drain_buffer is_empty buffer_of new_buffer filter
drain-lookup s p q now = elim (Option-cases (lookup p s.peers)) [
  | inl absent ↦
      rw (absent, drain, buffer_of)
        (refl, ground (arith, list_eq_iff p q, ap (λ (k : NodeId). lookup k s.peers)))
  | inr (b, at) ↦ rw (at, drain, buffer_of) (refl, lookup-remove p q s.peers)
]
