-- ===== src/Protocol/Fragment/Cut.antt =====
-- How a packet is cut: crates/pim-protocol/src/fragment_frame.rs, `fragment_packet`.
use proximity_internet_mesh.Base.{
  ℕ, zero, suc, ◌+◌, ◌%◌, ◌^◌, ◌≤◌, ◌<◌, ◌≡◌, refl, sym, ap, ◌∙◌, inl, inr, List, [], ◌∷◌, ◌++◌,
  arith, Bytes, All, length, drop, min, ltb, slice, map, concat, length-slice, slice-append-drop,
  Bool-cases, ltb→lt, ltb→ge,
}
use proximity_internet_mesh.Protocol.Fragment.{
  FragmentFrame, max_fragment_payload, fragment_loop, fragment_packet,
}

-- Past the end nothing is left.
pub drop_all : (n : ℕ) (xs : Bytes) → length xs ≤ n → drop n xs ≡ []
drop_all zero [] h = refl
drop_all zero (x ∷ xs) h = absurd (omega arith)
drop_all (suc n) [] h = refl
drop_all (suc n) (x ∷ xs) h = drop_all n xs (omega arith)

pub payloads : List FragmentFrame → Bytes
payloads fs = concat (map (λ f. f.payload) fs)

-- The fragments of `packet` from `offset` on.
payloads-fragment_loop :
    (fuel : ℕ) (packet : Bytes) (id offset : ℕ)
    → length packet ≤ offset + fuel
    → payloads (fragment_loop fuel packet id offset) ≡ drop offset packet
unfolding payloads fragment_loop
payloads-fragment_loop zero packet id offset h = sym (drop_all offset packet (omega arith))
payloads-fragment_loop (suc fuel) packet id offset h =
    let end = min (offset + max_fragment_payload) (length packet) in
    elim (Bool-cases (ltb offset (length packet))) [
      | inl more ↦
          let lt = ltb→lt offset (length packet) more in
          rw more (
            ap (λ (xs : Bytes). slice packet offset end ++ xs)
              (payloads-fragment_loop fuel packet id end (omega arith))
            ∙ slice-append-drop packet offset end (omega arith))
      | inr done ↦ rw done (sym (drop_all offset packet (ltb→ge offset (length packet) done)))
    ]

-- The payloads of the fragments of a packet, in order, are the packet.
pub payloads-fragment_packet :
    (packet : Bytes) (id : ℕ) → payloads (fragment_packet packet id) ≡ packet
unfolding fragment_packet
payloads-fragment_packet packet id =
    payloads-fragment_loop (length packet) packet id 0 (omega arith)

-- What each fragment of a packet looks like.
pub record IsCut (packet : Bytes) (id : ℕ) (f : FragmentFrame) : Type 0 where
  pub same_id : f.fragment_id ≡ id
  pub same_length : f.total_length ≡ length packet
  pub some_bytes : 0 < length f.payload
  pub small : length f.payload ≤ max_fragment_payload
  pub at_offset : f.payload ≡ slice packet f.fragment_offset (f.fragment_offset + length f.payload)
  pub in_packet : f.fragment_offset + length f.payload ≤ length packet

fragment_loop-IsCut :
    (fuel : ℕ) (packet : Bytes) (id offset : ℕ)
    → length packet < 2 ^ 16
    → All (IsCut packet id) (fragment_loop fuel packet id offset)
unfolding fragment_loop
fragment_loop-IsCut zero packet id offset h = tt
fragment_loop-IsCut (suc fuel) packet id offset h = elim (Bool-cases (ltb offset (length packet))) [
  | inr done ↦ rw done tt
  | inl more ↦
      let end = min (offset + max_fragment_payload) (length packet) in
      let lt = ltb→lt offset (length packet) more in
      let len = length-slice packet offset end (omega arith) (omega arith) in
      let o : offset % 2 ^ 16 ≡ offset = omega arith in
      rw more (
        record {
          same_id = refl;
          same_length = omega arith;
          some_bytes = omega (arith, len);
          small = omega (arith, len);
          at_offset = rw o (
              ap (slice packet offset) (
                let e : end ≡ offset + length (slice packet offset end) = omega (arith, len) in e));
          in_packet = omega (arith, len, o);
        },
        fragment_loop-IsCut fuel packet id end h,
      )
]

-- Every fragment of a packet below 64 KiB carries the packet's identifier and length, one to 1200
-- bytes, and these are the bytes of the packet at its offset.
pub fragment_packet-IsCut :
    (packet : Bytes) (id : ℕ)
    → length packet < 2 ^ 16
    → All (IsCut packet id) (fragment_packet packet id)
unfolding fragment_packet
fragment_packet-IsCut packet id h = fragment_loop-IsCut (length packet) packet id 0 h
