-- ===== src/Protocol/Reassembler/Sound.antt =====
-- What a reassembled packet is: crates/pim-protocol/src/reassembler.rs.
use proximity_internet_mesh.Base.{
  ℕ_eq, ℕ, ◌+◌, ◌-◌, ◌≤◌, ◌<◌, ◌≡◌, refl, sym, ap, ◌∙◌, ◌⊎◌, inl, inr, List, [], ◌∷◌, ◌++◌, arith,
  Bytes, length, take, drop, replicate, All, some, ltb, if◌then◌else◌, get_elem?, length-append,
  length-take, length-drop, length-replicate, get_elem?-append_left, get_elem?-behind,
  get_elem?-take, get_elem?-drop, eq_of_get_elem?, Bool-cases, Option-cases, nat_eq,
}
use proximity_internet_mesh.Protocol.Fragment.{FragmentFrame}
use proximity_internet_mesh.Protocol.Reassembler.{
  ReassemblyBuffer, insert_chunk, covered_up_to, copy_at, copy_chunks, try_reassemble,
}

-- Two byte strings agree below `n`.
abbrev pub AgreeBelow : ℕ → Bytes → Bytes → Type 0
AgreeBelow n xs ys = (i : ℕ) → i < n → get_elem? xs i ≡ get_elem? ys i

-- A chunk that holds the bytes of the packet at its offset.
pub record IsPiece (packet : Bytes) (chunk : ℕ × Bytes) : Type 0 where
  pub inside : chunk.0 + length chunk.1 ≤ length packet
  pub bytes_match :
      (i : ℕ) → i < length chunk.1 → get_elem? chunk.1 i ≡ get_elem? packet (chunk.0 + i)

pub record IsFragmentOf (packet : Bytes) (f : FragmentFrame) : Type 0 where
  pub whole : f.total_length ≡ length packet
  pub piece : IsPiece packet (f.fragment_offset, f.payload)

pub record IsBufferOf (packet : Bytes) (b : ReassemblyBuffer) : Type 0 where
  pub whole : b.total_length ≡ length packet
  pub pieces : All (IsPiece packet) b.chunks

module _ (buf chunk : Bytes) (start : ℕ) (fits : start + length chunk ≤ length buf) where
  length-front : length (take start buf) ≡ start
  length-front = omega (arith, length-take start buf)

  length-copy_at : length (copy_at buf start chunk) ≡ length buf
  unfolding copy_at
  length-copy_at = omega (
    arith,
    length-append (take start buf) (chunk ++ drop (start + length chunk) buf),
    length-append chunk (drop (start + length chunk) buf),
    length-take start buf,
    length-drop (start + length chunk) buf,
  )

  copy_at_before : (i : ℕ) → i < start → get_elem? (copy_at buf start chunk) i ≡ get_elem? buf i
  unfolding copy_at
  copy_at_before i h =
      get_elem?-append_left (take start buf) _ i (omega (arith, length-front))
      ∙ get_elem?-take start i buf h

  copy_at_inside :
      (k : ℕ)
      → k < length chunk
      → get_elem? (copy_at buf start chunk) (start + k) ≡ get_elem? chunk k
  unfolding copy_at
  copy_at_inside k h =
      get_elem?-behind (take start buf) _ start k length-front
      ∙ get_elem?-append_left chunk (drop (start + length chunk) buf) k h

  copy_at_behind :
      (k : ℕ)
      → get_elem? (copy_at buf start chunk) (start + (length chunk + k))
        ≡ get_elem? buf (start + length chunk + k)
  unfolding copy_at
  copy_at_behind k =
      get_elem?-behind (take start buf) _ start (length chunk + k) length-front
      ∙ get_elem?-behind chunk _ (length chunk) k refl
      ∙ get_elem?-drop (start + length chunk) k buf

-- Copying a piece extends the agreement to its end, if there is no gap before it.
copy_at-AgreeBelow :
    (packet buf chunk : Bytes) (start covered c : ℕ)
    → start + length chunk ≤ length buf
    → ((i : ℕ) → i < length chunk → get_elem? chunk i ≡ get_elem? packet (start + i))
    → AgreeBelow covered buf packet
    → start ≤ covered
    → (c ≤ covered) ⊎ (c ≤ start + length chunk)
    → AgreeBelow c (copy_at buf start chunk) packet
copy_at-AgreeBelow packet buf chunk start covered c fits same agree gap bound i h =
    elim (Bool-cases (ltb i start)) [
      | inl before ↦ copy_at_before buf chunk start fits i (ground arith) ∙ agree i (ground arith)
      | inr later ↦ elim (Bool-cases (ltb i (start + length chunk))) [
        | inl within ↦
            let k = i - start in
            let e : i ≡ start + k = ground arith in
            ap (get_elem? (copy_at buf start chunk)) e
            ∙ copy_at_inside buf chunk start fits k (ground arith)
            ∙ same k (ground arith)
            ∙ ap (get_elem? packet) (sym e)
        | inr behind ↦
            let k = i - (start + length chunk) in
            let e : i ≡ start + (length chunk + k) = ground arith in
            let e' : start + length chunk + k ≡ i = ground arith in
            ap (get_elem? (copy_at buf start chunk)) e
            ∙ copy_at_behind buf chunk start fits k
            ∙ ap (get_elem? buf) e'
            ∙ agree i (ground arith)
      ]
    ]

-- The two loops of `try_reassemble` together.
copy_chunks-AgreeBelow :
    (packet : Bytes) (chunks : List (ℕ × Bytes)) (buf : Bytes) (c n : ℕ)
    → All (IsPiece packet) chunks
    → length buf ≡ length packet
    → AgreeBelow c buf packet
    → covered_up_to chunks (length packet) c ≡ some n
    → AgreeBelow n (copy_chunks chunks buf) packet
      × (length (copy_chunks chunks buf) ≡ length packet)
unfolding covered_up_to copy_chunks
copy_chunks-AgreeBelow packet [] buf c n ps len agree e = ((λ i h. agree i (ground arith)), len)
copy_chunks-AgreeBelow packet ((start, chunk) ∷ rest) buf c n (p, ps) len agree e =
    let end = start + length chunk in
    let c' = if ltb c end then end else c in
    let inside : end ≤ length packet = p.inside in
    let fits : end ≤ length buf = omega arith in
    let gap : start ≤ c = ground arith in
    copy_chunks-AgreeBelow packet rest (copy_at buf start chunk) c' n ps
      (length-copy_at buf chunk start fits ∙ len)
      (copy_at-AgreeBelow packet buf chunk start c c' fits p.bytes_match agree gap (ground arith))
      (ground arith)

pub copy_chunks-full :
    (packet : Bytes) (b : ReassemblyBuffer)
    → IsBufferOf packet b
    → covered_up_to b.chunks b.total_length 0 ≡ some b.total_length
    → copy_chunks b.chunks (replicate b.total_length 0) ≡ packet
copy_chunks-full packet b v reached =
    let (agree, len) =
      copy_chunks-AgreeBelow packet b.chunks (replicate b.total_length 0) 0 b.total_length v.pieces
        (length-replicate b.total_length 0 ∙ v.whole) (λ i h. absurd (omega arith))
        (ap (λ (t : ℕ). covered_up_to b.chunks t 0) (sym v.whole) ∙ reached) in
    eq_of_get_elem? (copy_chunks b.chunks (replicate b.total_length 0)) packet len
      (λ i h. agree i (omega (arith, len, v.whole)))

-- A buffer that holds pieces of one packet reassembles to that packet, or not at all.
pub try_reassemble-eq :
    (packet result : Bytes) (b : ReassemblyBuffer)
    → IsBufferOf packet b
    → try_reassemble b ≡ some result
    → result ≡ packet
unfolding try_reassemble
try_reassemble-eq packet result b v e =
    elim (Option-cases (covered_up_to b.chunks b.total_length 0)) [
      | inl stuck ↦ ground arith
      | inr (n, reached) ↦ elim (Bool-cases (nat_eq n b.total_length)) [
        | inr short ↦ ground arith
        | inl full ↦
            let w : n ≡ b.total_length = ground arith in
            let e' : result ≡ copy_chunks b.chunks (replicate b.total_length 0) = ground arith in
            e' ∙ copy_chunks-full packet b v (reached ∙ ap some w)
      ]
    ]

insert_chunk-pieces :
    (packet payload : Bytes) (offset : ℕ) (chunks : List (ℕ × Bytes))
    → IsPiece packet (offset, payload)
    → All (IsPiece packet) chunks
    → All (IsPiece packet) (insert_chunk offset payload chunks)
unfolding insert_chunk
insert_chunk-pieces packet payload offset [] p ps = (p, tt)
insert_chunk-pieces packet payload offset ((o, chunk) ∷ rest) p (q, ps) =
    elim (Bool-cases (ltb offset o)) [
      | inl before ↦ rw before (p, (q, ps))
      | inr later ↦ elim (Bool-cases (nat_eq offset o)) [
        | inl same ↦ rw (later, same) (q, ps)
        | inr behind ↦ rw (later, behind) (q, insert_chunk-pieces packet payload offset rest p ps)
      ]
    ]

-- The buffer after a fragment of its packet.
pub insert_chunk-IsBufferOf :
    (packet : Bytes) (b : ReassemblyBuffer) (f : FragmentFrame)
    → IsBufferOf packet b
    → IsFragmentOf packet f
    → IsBufferOf packet (record b { chunks = insert_chunk f.fragment_offset f.payload b.chunks })
insert_chunk-IsBufferOf packet b f v w = record {
  whole = v.whole;
  pieces = insert_chunk-pieces packet f.payload f.fragment_offset b.chunks w.piece v.pieces;
}
