-- ===== src/Protocol/Reassembler/Delivery.antt =====
-- Fragments that arrive in order: crates/pim-protocol/src/fragment_frame.rs and reassembler.rs.
use proximity_internet_mesh.Base.{
  ℕ_eq, ℕ, zero, suc, ◌+◌, ◌-◌, ◌%◌, ◌^◌, ◌≤◌, ◌<◌, ◌≡◌, refl, sym, ap, subst, ◌∙◌, inl, inr, List,
  [], ◌∷◌, ◌++◌, arith, Bytes, All, length, min, map, Option, none, some, ltb, if◌then◌else◌, slice,
  length-slice, get_elem?-slice, ge→ltb, lt→ltb, ltb→lt, ltb→ge, Bool-cases,
}
use proximity_internet_mesh.Base.Map.{lookup, insert as map_insert, lookup-insert_self}
use proximity_internet_mesh.Protocol.Fragment.{
  FragmentFrame, max_fragment_payload, fragment_loop, fragment_packet,
}
use proximity_internet_mesh.Protocol.Reassembler.{
  ReassemblyBuffer, Reassembler, new_buffer, insert_chunk, covered_up_to, try_reassemble, entry,
  insert,
}
use proximity_internet_mesh.Protocol.Reassembler.Sound.{
  IsFragmentOf, IsBufferOf, copy_chunks-full, insert_chunk-IsBufferOf,
}
use proximity_internet_mesh.Protocol.Reassembler.History.{Event, arrive, deliveries}

-- All chunks begin before `n`.
abbrev Before : ℕ → List (ℕ × Bytes) → Type 0
Before n chunks = All (λ c. c.0 < n) chunks

insert_chunk-last :
    (o : ℕ) (payload : Bytes) (chunks : List (ℕ × Bytes))
    → Before o chunks
    → insert_chunk o payload chunks ≡ chunks ++ (o, payload) ∷ []
unfolding insert_chunk
insert_chunk-last o payload [] h = refl
insert_chunk-last o payload ((c, chunk) ∷ rest) (p, h) =
    ground (arith, insert_chunk-last o payload rest h)

-- A chunk that begins where the cover ends extends it.
covered_up_to-append :
    (chunks : List (ℕ × Bytes)) (total c o : ℕ) (payload : Bytes)
    → covered_up_to chunks total c ≡ some o
    → o + length payload ≤ total
    → covered_up_to (chunks ++ (o, payload) ∷ []) total c ≡ some (o + length payload)
unfolding covered_up_to
covered_up_to-append [] total c o payload e h = ground arith
covered_up_to-append ((s, chunk) ∷ rest) total c o payload e h =
    let end = s + length chunk in
    ground (arith, covered_up_to-append rest total (if ltb c end then end else c) o payload)

Before-append :
    (n m o : ℕ) (payload : Bytes) (chunks : List (ℕ × Bytes))
    → Before n chunks
    → n ≤ m
    → o < m
    → Before m (chunks ++ (o, payload) ∷ [])
Before-append n m o payload [] b h k = (k, tt)
Before-append n m o payload ((c, chunk) ∷ rest) (p, b) h k =
    (omega arith, Before-append n m o payload rest b h k)

-- A buffer that holds the packet up to `o`, and begins nowhere later.
record IsUpTo (packet : Bytes) (o : ℕ) (b : ReassemblyBuffer) : Type 0 where
  of_packet : IsBufferOf packet b
  covered : covered_up_to b.chunks (length packet) 0 ≡ some o
  before : Before o b.chunks

abbrev piece : Bytes → ℕ → ℕ → FragmentFrame
piece packet id o = record {
  fragment_id = id;
  fragment_offset = o;
  total_length = length packet;
  payload = slice packet o (min (o + max_fragment_payload) (length packet));
}

module _ (packet : Bytes) (id o : ℕ) (inside : o < length packet) where
  abbrev end : ℕ
  end = min (o + max_fragment_payload) (length packet)

  length-piece : length (piece packet id o).payload ≡ end - o
  length-piece = length-slice packet o end (omega arith) (omega arith)

  piece-IsFragmentOf : IsFragmentOf packet (piece packet id o)
  piece-IsFragmentOf = record {
    whole = refl;
    piece = record {
      inside = omega (arith, length-piece);
      bytes_match = λ i h. get_elem?-slice packet o end i (omega (arith, length-piece));
    };
  }

  -- The buffer after the piece at `o`.
  next_buffer : ReassemblyBuffer → ReassemblyBuffer
  next_buffer b = record b { chunks = insert_chunk o (piece packet id o).payload b.chunks }

  next_buffer-IsUpTo :
      (b : ReassemblyBuffer) → IsUpTo packet o b → IsUpTo packet end (next_buffer b)
  unfolding next_buffer
  next_buffer-IsUpTo b v = record {
    of_packet = insert_chunk-IsBufferOf packet b (piece packet id o) v.of_packet piece-IsFragmentOf;
    covered = rw (insert_chunk-last o (piece packet id o).payload b.chunks v.before) (
        covered_up_to-append b.chunks (length packet) 0 o (piece packet id o).payload v.covered
          (omega (arith, length-piece))
        ∙ ap some (omega (arith, length-piece)));
    before = rw (insert_chunk-last o (piece packet id o).payload b.chunks v.before) (
        Before-append o end o (piece packet id o).payload b.chunks v.before (omega arith)
          (omega arith));
  }

try_reassemble-whole :
    (packet : Bytes) (b : ReassemblyBuffer)
    → IsUpTo packet (length packet) b
    → try_reassemble b ≡ some packet
unfolding try_reassemble
try_reassemble-whole packet b v =
    let w : b.total_length ≡ length packet = v.of_packet.whole in
    let c : covered_up_to b.chunks b.total_length 0 ≡ some b.total_length =
      ap (λ (t : ℕ). covered_up_to b.chunks t 0) w ∙ v.covered ∙ ap some (sym w) in
    ground (arith, c, copy_chunks-full packet b v.of_packet c)

try_reassemble-part :
    (packet : Bytes) (o : ℕ) (b : ReassemblyBuffer)
    → o < length packet
    → IsUpTo packet o b
    → try_reassemble b ≡ none
unfolding try_reassemble
try_reassemble-part packet o b h v =
    let w : b.total_length ≡ length packet = v.of_packet.whole in
    let c : covered_up_to b.chunks b.total_length 0 ≡ some o =
      ap (λ (t : ℕ). covered_up_to b.chunks t 0) w ∙ v.covered in
    ground (arith, c)

-- One fragment in order, when `b` is the buffer of its packet.
module _ (packet : Bytes) (id o now : ℕ) (inside : o < length packet) (r : Reassembler)
    (b : ReassemblyBuffer) (current : entry r (piece packet id o) now ≡ b)
    (v : IsUpTo packet o b) where
  insert-last :
      length packet ≤ o + max_fragment_payload → (insert r (piece packet id o) now).0 ≡ some packet
  unfolding insert next_buffer
  insert-last h =
      let e : end packet id o inside ≡ length packet = omega arith in
      let u : IsUpTo packet (length packet) (next_buffer packet id o inside b) =
        subst (λ (n : ℕ). IsUpTo packet n (next_buffer packet id o inside b)) e
          (next_buffer-IsUpTo packet id o inside b v) in
      ground (
        arith,
        current,
        v.of_packet.whole,
        try_reassemble-whole packet (next_buffer packet id o inside b) u,
      )

  insert-more :
      o + max_fragment_payload < length packet
      → insert r (piece packet id o) now
        ≡ (none, record r { buffers = map_insert id (next_buffer packet id o inside b) r.buffers })
  unfolding insert next_buffer
  insert-more h = ground (
    arith,
    current,
    v.of_packet.whole,
    try_reassemble-part packet (end packet id o inside) (next_buffer packet id o inside b)
        (omega arith) (next_buffer-IsUpTo packet id o inside b v),
  )

fragment_loop-step :
    (fuel : ℕ) (packet : Bytes) (id o : ℕ) (inside : o < length packet)
    → length packet < 2 ^ 16
    → fragment_loop (suc fuel) packet id o
      ≡ piece packet id o ∷ fragment_loop fuel packet id (end packet id o inside)
unfolding fragment_loop
fragment_loop-step fuel packet id o inside small =
    let e : o % 2 ^ 16 ≡ o = omega arith in
    let e' : length packet % 2 ^ 16 ≡ length packet = omega arith in
    rw (lt→ltb o (length packet) inside, e, e')

fragment_loop-end :
    (fuel : ℕ) (packet : Bytes) (id o : ℕ) → length packet ≤ o → fragment_loop fuel packet id o ≡ []
unfolding fragment_loop
fragment_loop-end zero packet id o h = refl
fragment_loop-end (suc fuel) packet id o h = rw (ge→ltb o (length packet) h)

entry-insert :
    (r : Reassembler) (b : ReassemblyBuffer) (packet : Bytes) (id o now : ℕ)
    → entry (record r { buffers = map_insert id b r.buffers }) (piece packet id o) now ≡ b
unfolding entry
entry-insert r b packet id o now = rw (lookup-insert_self id b r.buffers, entry)

deliveries-quiet :
    (r r' : Reassembler) (f : FragmentFrame) (now : ℕ) (es : List Event)
    → insert r f now ≡ (none, r')
    → deliveries r (arrive f now ∷ es) ≡ deliveries r' es
unfolding deliveries
deliveries-quiet r r' f now es e =
    let quiet : (insert r f now).0 ≡ none = ap (λ p. p.0) e in
    rw (quiet, deliveries) (ap (λ (p : Option Bytes × Reassembler). deliveries p.1 es) e)

deliveries-out :
    (r : Reassembler) (f : FragmentFrame) (now : ℕ) (packet : Bytes)
    → (insert r f now).0 ≡ some packet
    → deliveries r (arrive f now ∷ []) ≡ (f.fragment_id, packet) ∷ []
unfolding deliveries
deliveries-out r f now packet e = rw (e, deliveries)

-- The fragments from `o` on, when the buffer of their packet is complete up to there.
deliveries-from :
    (fuel : ℕ) (packet : Bytes) (id o now : ℕ) (r : Reassembler) (b : ReassemblyBuffer)
    → length packet ≤ o + fuel
    → o < length packet
    → length packet < 2 ^ 16
    → entry r (piece packet id o) now ≡ b
    → IsUpTo packet o b
    → deliveries r (map (λ f. arrive f now) (fragment_loop fuel packet id o)) ≡ (id, packet) ∷ []
deliveries-from zero packet id o now r b enough inside small current v = absurd (omega arith)
deliveries-from (suc fuel) packet id o now r b enough inside small current v =
    let n = end packet id o inside in
    let b' = next_buffer packet id o inside b in
    rw (fragment_loop-step fuel packet id o inside small)
      (elim (Bool-cases (ltb (o + max_fragment_payload) (length packet))) [
        | inl more ↦
            let h = ltb→lt (o + max_fragment_payload) (length packet) more in
            let r' : Reassembler = record r { buffers = map_insert id b' r.buffers } in
            deliveries-quiet r r' (piece packet id o) now _
              (insert-more packet id o now inside r b current v h)
            ∙ deliveries-from fuel packet id n now r' b' (omega arith) (omega arith) small
                (entry-insert r b' packet id n now) (next_buffer-IsUpTo packet id o inside b v)
        | inr last ↦
            let h = ltb→ge (o + max_fragment_payload) (length packet) last in
            rw (fragment_loop-end fuel packet id n (omega arith)) (
              deliveries-out r (piece packet id o) now packet
                (insert-last packet id o now inside r b current v h))
      ])

-- A packet of 1 to 65535 bytes, cut by `fragment_packet` and fed in order to a reassembler that
-- holds nothing of its identifier, is delivered, once and whole.
pub deliveries-fragment_packet :
    (packet : Bytes) (id now : ℕ) (r : Reassembler)
    → 0 < length packet
    → length packet < 2 ^ 16
    → lookup id r.buffers ≡ none
    → deliveries r (map (λ f. arrive f now) (fragment_packet packet id)) ≡ (id, packet) ∷ []
unfolding fragment_packet
deliveries-fragment_packet packet id now r some_bytes small vacant =
    deliveries-from (length packet) packet id 0 now r (new_buffer (length packet) now) (omega arith)
      some_bytes small (unfold entry in rw (vacant, entry))
      (unfold new_buffer covered_up_to in
        record { of_packet = record { whole = refl; pieces = tt }; covered = refl; before = tt })
