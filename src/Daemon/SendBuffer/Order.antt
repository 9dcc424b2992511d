-- ===== src/Daemon/SendBuffer/Order.antt =====
-- crates/pim-daemon/src/send_buffer.rs, `PeerBuffer::push`: the order and the size of a buffer.
use proximity_internet_mesh.Base.{
  ℕ, zero, suc, ◌-◌, ◌≤◌, ◌<◌, ◌≡◌, refl, sym, subst, inl, inr, List, [], ◌∷◌, arith, Bool, true,
  false, length, take, filter, last, All, some, Bool-cases, Option-cases, length-take,
}
use proximity_internet_mesh.Protocol.Transport.{TransportFrame}
use proximity_internet_mesh.Daemon.SendBuffer.{
  Priority, BufferedFrame, PeerBuffer, is_fresh, precedes, partition_point, insert_at, pop,
  make_room, push_frame,
}
use proximity_internet_mesh.Daemon.SendBuffer.Rank.{IsRoom, make_room-IsRoom}

-- Each frame may stand before all that follow it.
abbrev pub IsSorted : List BufferedFrame → Type 0
IsSorted [] = Unit {0}
IsSorted (f ∷ fs) = All (λ g. precedes f g ≡ true) fs × IsSorted fs

-- A buffer holds at most its capacity, by rank and then by age.
pub record IsOrdered (b : PeerBuffer) : Type 0 where
  pub sorted : IsSorted b.frames
  pub bounded : length b.frames ≤ b.capacity

All-filter :
    (P : BufferedFrame → Type 0) (p : BufferedFrame → Bool) (fs : List BufferedFrame)
    → All P fs
    → All P (filter p fs)
unfolding filter
All-filter P p [] h = tt
All-filter P p (f ∷ fs) (h, hs) = elim (Bool-cases (p f)) [
  | inl keep ↦ rw (keep, filter) (h, All-filter P p fs hs)
  | inr lose ↦ rw (lose, filter) (All-filter P p fs hs)
]

All-take :
    (P : BufferedFrame → Type 0) (n : ℕ) (fs : List BufferedFrame) → All P fs → All P (take n fs)
All-take P zero fs h = tt
All-take P (suc n) [] h = tt
All-take P (suc n) (f ∷ fs) (h, hs) = (h, All-take P n fs hs)

All-insert_at :
    (P : BufferedFrame → Type 0) (n : ℕ) (f : BufferedFrame) (fs : List BufferedFrame)
    → P f
    → All P fs
    → All P (insert_at n f fs)
unfolding insert_at
All-insert_at P zero f fs h hs = (h, hs)
All-insert_at P (suc n) f [] h hs = (h, tt)
All-insert_at P (suc n) f (g ∷ fs) h (hg, hs) = (hg, All-insert_at P n f fs h hs)

pub filter-IsSorted :
    (p : BufferedFrame → Bool) (fs : List BufferedFrame) → IsSorted fs → IsSorted (filter p fs)
unfolding filter
filter-IsSorted p [] h = tt
filter-IsSorted p (f ∷ fs) (h, hs) = elim (Bool-cases (p f)) [
  | inl keep ↦ rw (keep, filter) (All-filter _ p fs h, filter-IsSorted p fs hs)
  | inr lose ↦ rw (lose, filter) (filter-IsSorted p fs hs)
]

take-IsSorted : (n : ℕ) (fs : List BufferedFrame) → IsSorted fs → IsSorted (take n fs)
take-IsSorted zero fs h = tt
take-IsSorted (suc n) [] h = tt
take-IsSorted (suc n) (f ∷ fs) (h, hs) = (All-take _ n fs h, take-IsSorted n fs hs)

precedes_total : (f g : BufferedFrame) → precedes f g ≡ false → precedes g f ≡ true
precedes_total f g h = ground arith

precedes_trans :
    (f g h : BufferedFrame) → precedes f g ≡ true → precedes g h ≡ true → precedes f h ≡ true
precedes_trans f g h p q = ground arith

All-imp :
    {P Q : BufferedFrame → Type 0} (fs : List BufferedFrame)
    → ((f : BufferedFrame) → P f → Q f)
    → All P fs
    → All Q fs
All-imp [] h p = tt
All-imp (f ∷ fs) h (p, ps) = (h f p, All-imp fs h ps)

-- Inserting at the partition point keeps the order.
insert_at-IsSorted :
    (bf : BufferedFrame) (fs : List BufferedFrame)
    → IsSorted fs
    → IsSorted (insert_at (partition_point (λ f. precedes f bf) fs) bf fs)
unfolding insert_at partition_point
insert_at-IsSorted bf [] h = (tt, tt)
insert_at-IsSorted bf (f ∷ fs) (h, hs) = elim (Bool-cases (precedes f bf)) [
  | inl before ↦
      rw (before, partition_point)
        (
          All-insert_at _ (partition_point (λ g. precedes g bf) fs) bf fs before h,
          insert_at-IsSorted bf fs hs,
        )
  | inr after ↦
      let first = precedes_total f bf after in
      rw (after, partition_point)
        ((first, All-imp fs (λ g p. precedes_trans bf f g first p) h), (h, hs))
]

pub length-filter :
    (p : BufferedFrame → Bool) (fs : List BufferedFrame) → length (filter p fs) ≤ length fs
unfolding filter
length-filter p [] = omega arith
length-filter p (f ∷ fs) = elim (Bool-cases (p f)) [
  | inl keep ↦ rw (keep, filter) (omega (arith, length-filter p fs))
  | inr lose ↦ rw (lose, filter) (omega (arith, length-filter p fs))
]

length-insert_at :
    (n : ℕ) (f : BufferedFrame) (fs : List BufferedFrame)
    → length (insert_at n f fs) ≡ suc (length fs)
unfolding insert_at
length-insert_at zero f fs = refl
length-insert_at (suc n) f [] = refl
length-insert_at (suc n) f (g ∷ fs) = omega (arith, length-insert_at n f fs)

room-IsSorted :
    (capacity : ℕ) (p : Priority) (fs gs : List BufferedFrame)
    → IsRoom capacity p fs (some gs)
    → IsSorted fs
    → IsSorted gs
unfolding pop
room-IsSorted capacity p fs gs (inl (same, room)) h = subst IsSorted (sym same) h
room-IsSorted capacity p fs gs (inr (shorter, rest)) h =
    subst IsSorted (sym shorter) (take-IsSorted (length fs - 1) fs h)

room-length :
    (capacity : ℕ) (p : Priority) (fs gs : List BufferedFrame)
    → IsRoom capacity p fs (some gs)
    → length fs ≤ capacity
    → length gs < capacity
unfolding pop
room-length capacity p fs gs (inl (same, room)) h = rw same room
room-length capacity p [] gs (inr (shorter, (w, e, worse))) h = absurd (unfold last in cc)
room-length capacity p (f ∷ fs) gs (inr (shorter, (w, e, worse))) h =
    rw shorter (omega (arith, length-take (suc (length fs) - 1) (f ∷ fs)))

-- Pushing keeps a buffer within its capacity, in the order of rank and then of age, if its frames
-- are so.
pub push_frame-IsOrdered :
    (b : PeerBuffer) (p : Priority) (frame : TransportFrame) (now enqueued_at : ℕ)
    → IsOrdered b
    → IsOrdered (push_frame b p frame now enqueued_at)
unfolding push_frame
push_frame-IsOrdered b p frame now enqueued_at v =
    let fresh = filter (is_fresh b.timeout now) b.frames in
    let bf : BufferedFrame = record { enqueued_at = enqueued_at; priority = p; frame = frame } in
    let in_order = filter-IsSorted (is_fresh b.timeout now) b.frames v.sorted in
    let few : length fresh ≤ b.capacity =
      omega (arith, length-filter (is_fresh b.timeout now) b.frames, v.bounded) in
    elim (Option-cases (make_room b.capacity p fresh)) [
      | inl dropped ↦ rw (dropped, push_frame) (record { sorted = in_order; bounded = few })
      | inr (gs, e) ↦
          let room : IsRoom b.capacity p fresh (some gs) =
            subst (IsRoom b.capacity p fresh) e (make_room-IsRoom b.capacity p fresh) in
          let less = room-length b.capacity p fresh gs room few in
          rw (e, push_frame)
            (record {
              sorted = insert_at-IsSorted bf gs (room-IsSorted b.capacity p fresh gs room in_order);
              bounded =
                  omega (arith, length-insert_at (partition_point (λ f. precedes f bf) gs) bf gs);
            })
    ]
