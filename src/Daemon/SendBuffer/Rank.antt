-- ===== src/Daemon/SendBuffer/Rank.antt =====
-- crates/pim-daemon/src/send_buffer.rs, `PeerBuffer::push`: what the frames of higher rank suffer.
use proximity_internet_mesh.Base.{
  ℕ, zero, suc, ◌-◌, ◌≤◌, ◌<◌, ◌≡◌, refl, subst, ap, ◌∙◌, ◌⊎◌, inl, inr, List, [], ◌∷◌, arith, Bool,
  false, length, take, filter, last, Option, none, some, ltb, leb, Bool-cases, Option-cases, leb→gt,
  leb→le,
}
use proximity_internet_mesh.Protocol.Transport.{TransportFrame}
use proximity_internet_mesh.Daemon.SendBuffer.{
  Priority, rank, BufferedFrame, PeerBuffer, is_fresh, precedes, partition_point, insert_at, pop,
  make_room, push_frame,
}

-- More important than a priority.
abbrev pub outranks : Priority → BufferedFrame → Bool
outranks p f = ltb (rank f.priority) (rank p)

le→ltb : {a b : ℕ} → a ≤ b → ltb b a ≡ false
le→ltb h = ground arith

filter-insert_at :
    (q : BufferedFrame → Bool) (n : ℕ) (f : BufferedFrame) (fs : List BufferedFrame)
    → q f ≡ false
    → filter q (insert_at n f fs) ≡ filter q fs
unfolding insert_at filter
filter-insert_at q zero f fs h = rw h refl
filter-insert_at q (suc n) f [] h = rw h refl
filter-insert_at q (suc n) f (g ∷ fs) h = elim (Bool-cases (q g)) [
  | inl in_q ↦ rw (in_q, filter-insert_at q n f fs h) refl
  | inr out ↦ rw (out, filter-insert_at q n f fs h) refl
]

filter-pop :
    (q : BufferedFrame → Bool) (fs : List BufferedFrame) (w : BufferedFrame)
    → last fs ≡ some w
    → q w ≡ false
    → filter q (take (length fs - 1) fs) ≡ filter q fs
unfolding filter last
filter-pop q [] w e h = refl
filter-pop q (f ∷ []) w e h = let same : f ≡ w = cc in rw (same, h, filter) refl
filter-pop q (f ∷ g ∷ fs) w e h =
    let one_less : suc (suc (length fs)) - 1 ≡ suc (length fs) = omega arith in
    let less : suc (length fs) - 1 ≡ length fs = omega arith in
    let rest : filter q (take (length fs) (g ∷ fs)) ≡ filter q (g ∷ fs) =
      subst (λ (n : ℕ). filter q (take n (g ∷ fs)) ≡ filter q (g ∷ fs)) less
        (filter-pop q (g ∷ fs) w e h) in
    elim (Bool-cases (q f)) [
      | inl in_q ↦ rw (one_less, in_q, rest) refl
      | inr out ↦ rw (one_less, out, rest) refl
    ]

-- What `make_room` gives: nothing, the frames when there is room, or the frames without a last one
-- that is of no higher rank.
abbrev pub IsRoom : ℕ → Priority → List BufferedFrame → Option (List BufferedFrame) → Type 0
IsRoom capacity p fs none = Unit {0}
IsRoom capacity p fs (some gs) =
    ((gs ≡ fs) × (length fs < capacity))
    ⊎ ((gs ≡ pop fs) × ((w : BufferedFrame) × (last fs ≡ some w) × (rank p ≤ rank w.priority)))

pub make_room-IsRoom :
    (capacity : ℕ) (p : Priority) (fs : List BufferedFrame)
    → IsRoom capacity p fs (make_room capacity p fs)
unfolding make_room
make_room-IsRoom capacity p fs = elim (Bool-cases (leb capacity (length fs))) [
  | inr room ↦ rw (room, make_room) (inl (refl, leb→gt capacity (length fs) room))
  | inl full ↦ elim (Option-cases (last fs)) [
    | inl empty ↦ rw (full, empty, make_room) tt
    | inr (w, e) ↦ elim (Bool-cases (leb (rank p) (rank w.priority))) [
      | inl worse ↦
          rw (full, e, worse, make_room)
            (inr (refl, (w, e, leb→le (rank p) (rank w.priority) worse)))
      | inr better ↦ rw (full, e, better, make_room) tt
    ]
  ]
]

room-outranks :
    (capacity : ℕ) (p : Priority) (fs gs : List BufferedFrame)
    → IsRoom capacity p fs (some gs)
    → filter (outranks p) gs ≡ filter (outranks p) fs
unfolding pop
room-outranks capacity p fs gs (inl (same, room)) = ap (filter (outranks p)) same
room-outranks capacity p fs gs (inr (shorter, (w, e, worse))) =
    ap (filter (outranks p)) shorter ∙ filter-pop (outranks p) fs w e (le→ltb worse)

-- Buffering a frame, full buffer or not, neither displaces nor reorders one of a higher importance:
-- those that have not timed out stay as they are.
pub push_frame-outranks :
    (b : PeerBuffer) (p : Priority) (frame : TransportFrame) (now enqueued_at : ℕ)
    → filter (outranks p) (push_frame b p frame now enqueued_at).frames
      ≡ filter (outranks p) (filter (is_fresh b.timeout now) b.frames)
unfolding push_frame
push_frame-outranks b p frame now enqueued_at =
    let fresh = filter (is_fresh b.timeout now) b.frames in
    let bf : BufferedFrame = record { enqueued_at = enqueued_at; priority = p; frame = frame } in
    elim (Option-cases (make_room b.capacity p fresh)) [
      | inl dropped ↦ rw (dropped, push_frame) refl
      | inr (gs, e) ↦
          let room : IsRoom b.capacity p fresh (some gs) =
            subst (IsRoom b.capacity p fresh) e (make_room-IsRoom b.capacity p fresh) in
          rw (e, push_frame)
            (filter-insert_at (outranks p) (partition_point (λ f. precedes f bf) gs) bf gs
                (ground arith)
              ∙ room-outranks b.capacity p fresh gs room)
    ]
