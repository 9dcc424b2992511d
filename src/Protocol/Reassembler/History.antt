-- ===== src/Protocol/Reassembler/History.antt =====
-- A reassembler over time: crates/pim-protocol/src/reassembler.rs, as a relay or a gateway drives it.
use proximity_internet_mesh.Base.{
  ℕ_eq, ℕ, ◌≡◌, ◌∙◌, inl, inr, List, [], ◌∷◌, arith, Bytes, Bool, not, All, none, some, nat_eq,
  Bool-cases, Option-cases,
}
use proximity_internet_mesh.Base.Map.{
  lookup, insert as map_insert, remove as map_remove, IsDistinct, lookup-insert, lookup-remove,
  lookup-retain, insert-IsDistinct, remove-IsDistinct, retain-IsDistinct,
}
use proximity_internet_mesh.Protocol.Fragment.{FragmentFrame}
use proximity_internet_mesh.Protocol.Reassembler.{
  ReassemblyBuffer, Reassembler, new_buffer, insert_chunk, try_reassemble, entry, insert,
  expire_stale, is_expired,
}
use proximity_internet_mesh.Protocol.Reassembler.Sound.{
  IsFragmentOf, IsBufferOf, try_reassemble-eq, insert_chunk-IsBufferOf,
}

-- A fragment arrives, or the timer runs; each with the time.
pub data Event : Type 0 where
  arrive : FragmentFrame → ℕ → Event
  tick : ℕ → Event

-- The packets that a history delivers, with their identifiers.
unfoldable pub deliveries : Reassembler → List Event → List (ℕ × Bytes)
deliveries r [] = []
deliveries r (arrive f now ∷ es) =
    let rest = deliveries (insert r f now).1 es in
    elim (insert r f now).0 [ none ↦ rest | some packet ↦ (f.fragment_id, packet) ∷ rest ]
deliveries r (tick now ∷ es) = deliveries (expire_stale r now) es

-- The sender of each fragment cut it from the packet of its identifier.
abbrev pub IsHonest : (ℕ → Bytes) → Event → Type 0
IsHonest packet_of (arrive f now) = IsFragmentOf (packet_of f.fragment_id) f
IsHonest packet_of (tick now) = Unit {0}

pub record IsSound (packet_of : ℕ → Bytes) (r : Reassembler) : Type 0 where
  pub distinct : IsDistinct r.buffers
  pub holds :
      (id : ℕ) (b : ReassemblyBuffer) → lookup id r.buffers ≡ some b → IsBufferOf (packet_of id) b

module _ (packet_of : ℕ → Bytes) where
  entry-IsBufferOf :
      (r : Reassembler) (f : FragmentFrame) (now : ℕ)
      → IsSound packet_of r
      → IsFragmentOf (packet_of f.fragment_id) f
      → IsBufferOf (packet_of f.fragment_id) (entry r f now)
  unfolding entry new_buffer
  entry-IsBufferOf r f now v w = elim (Option-cases (lookup f.fragment_id r.buffers)) [
    | inl vacant ↦ rw (vacant, entry) (record { whole = w.whole; pieces = tt })
    | inr (b, found) ↦ rw (found, entry) (v.holds f.fragment_id b found)
  ]

  put-IsSound :
      (r : Reassembler) (id : ℕ) (b : ReassemblyBuffer)
      → IsSound packet_of r
      → IsBufferOf (packet_of id) b
      → IsSound packet_of (record r { buffers = map_insert id b r.buffers })
  put-IsSound r id b v w = record {
    distinct = insert-IsDistinct id b r.buffers v.distinct;
    holds = λ j c e. elim (Bool-cases (nat_eq id j)) [
      | inl same ↦
          let i : id ≡ j = ground arith in
          let e' : b ≡ c = ground (arith, lookup-insert id j b r.buffers) in rw (← i, ← e') w
      | inr other ↦ v.holds j c (ground (arith, lookup-insert id j b r.buffers))
    ];
  }

  drop-IsSound :
      (r : Reassembler) (id : ℕ)
      → IsSound packet_of r
      → IsSound packet_of (record r { buffers = map_remove id r.buffers })
  drop-IsSound r id v = record {
    distinct = remove-IsDistinct id r.buffers v.distinct;
    holds = λ j c e. v.holds j c (ground (arith, lookup-remove id j r.buffers));
  }

  expire_stale-IsSound :
      (r : Reassembler) (now : ℕ) → IsSound packet_of r → IsSound packet_of (expire_stale r now)
  unfolding expire_stale
  expire_stale-IsSound r now v =
      let keep : ℕ → ReassemblyBuffer → Bool = λ id b. not (is_expired b r.timeout now) in
      record {
        distinct = retain-IsDistinct keep r.buffers v.distinct;
        holds = λ j c e. v.holds j c (ground (arith, lookup-retain keep j r.buffers v.distinct));
      }

  -- One fragment: the state stays sound, and a packet that comes out is the right one.
  insert-IsSound :
      (r : Reassembler) (f : FragmentFrame) (now : ℕ)
      → IsSound packet_of r
      → IsFragmentOf (packet_of f.fragment_id) f
      → IsSound packet_of (insert r f now).1
        × ((packet : Bytes) → (insert r f now).0 ≡ some packet → packet ≡ packet_of f.fragment_id)
  unfolding insert
  insert-IsSound r f now v w =
      let b = entry r f now in
      let vb = entry-IsBufferOf r f now v w in
      let b' : ReassemblyBuffer = record b {
        chunks = insert_chunk f.fragment_offset f.payload b.chunks;
      } in
      let vb' = insert_chunk-IsBufferOf (packet_of f.fragment_id) b f vb w in
      elim (Bool-cases (nat_eq b.total_length f.total_length)) [
        | inr differs ↦ rw (differs, insert) (put-IsSound r f.fragment_id b v vb, λ packet e. cc)
        | inl same ↦ elim (Option-cases (try_reassemble b')) [
          | inl more ↦
              rw (same, more, insert) (put-IsSound r f.fragment_id b' v vb', λ packet e. cc)
          | inr (packet, done) ↦
              rw (same, done, insert)
                (
                  drop-IsSound r f.fragment_id v,
                  λ p e. try_reassemble-eq (packet_of f.fragment_id) p b' vb' (done ∙ e),
                )
        ]
      ]

  -- Whatever the order of the fragments, with duplicates, overlaps, losses, timeouts and several
  -- packets at once: as long as each fragment is a piece of the packet of its identifier, each
  -- packet that a sound reassembler delivers is the packet of its identifier.
  pub deliveries-eq :
      (es : List Event) (r : Reassembler)
      → All (IsHonest packet_of) es
      → IsSound packet_of r
      → All (λ d. d.1 ≡ packet_of d.0) (deliveries r es)
  unfolding deliveries
  deliveries-eq [] r h v = tt
  deliveries-eq (tick now ∷ es) r (h, hs) v =
      deliveries-eq es (expire_stale r now) hs (expire_stale-IsSound r now v)
  deliveries-eq (arrive f now ∷ es) r (h, hs) v =
      let (v', right) = insert-IsSound r f now v h in
      let rest = deliveries-eq es (insert r f now).1 hs v' in
      elim (Option-cases (insert r f now).0) [
        | inl quiet ↦ rw (quiet, deliveries) rest
        | inr (packet, out) ↦ rw (out, deliveries) (right packet out, rest)
      ]
