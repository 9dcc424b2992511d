-- ===== src/Protocol/LengthDelimited.antt =====
-- crates/pim-protocol/src/length_delimited.rs: frames on a byte stream.
use proximity_internet_mesh.Base.{
  ℕ, ◌+◌, ◌^◌, ◌%◌, ◌≤◌, ◌<◌, ◌≡◌, refl, ◌∙◌, List, [], ◌∷◌, ◌++◌, arith, Bytes, length, take, drop,
  Option, none, some, inl, inr, Bool-cases, ltb→ge, Result, ok, err, ltb, if◌then◌else◌, concat,
  Fits, length-concat, length-append, drop_fields, drop_field, take_field, take-append, drop-append,
  length-drop,
}
use proximity_internet_mesh.Core.{PimError}
use proximity_internet_mesh.Core.PimError.{protocol}
use proximity_internet_mesh.Core.Message.{frame_too_large}
use proximity_internet_mesh.Protocol.Wire.{
  Wire, put, get_at, get_at-append, length-put, get_at-concat,
}

abbrev pub max_frame_size : ℕ
max_frame_size = 1_048_576

module _ ⦃wire : Wire⦄ where
  unfoldable pub encode : Bytes → Bytes
  encode payload = concat (put 4 (length payload % 2 ^ 32) ∷ payload ∷ [])

  unfoldable pub decode : Bytes → Result PimError (Option Bytes × Bytes)
  decode buf =
      if ltb (length buf) 4
      then ok (none, buf)
      else (let len = get_at buf 0 4 in
          if ltb max_frame_size len
          then err (protocol (frame_too_large len))
          else if ltb (length buf) (4 + len)
          then ok (none, buf)
          else ok (some (take len (drop 4 buf)), drop len (drop 4 buf)))

  encode-Fits : (p : Bytes) → Fits (put 4 (length p % 2 ^ 32) ∷ p ∷ []) (4 ∷ length p ∷ [])
  encode-Fits p = (length-put 4 (length p % 2 ^ 32) (omega arith), (refl, tt))

  decode_reads :
      (buf : Bytes) (n : ℕ)
      → get_at buf 0 4 ≡ n
      → 4 + n ≤ length buf
      → decode buf ≡ (
          if ltb max_frame_size n
          then err (protocol (frame_too_large n))
          else ok (some (take n (drop 4 buf)), drop n (drop 4 buf)))
  unfolding decode
  decode_reads buf n e h = ground arith

  -- Any payload of at most 1 MiB is read back, and what follows it stays in the buffer; a larger
  -- one that the length field can hold is refused.
  pub stream_decode-encode :
      (p rest : Bytes)
      → length p < 2 ^ 32
      → decode (encode p ++ rest) ≡ (
          if ltb max_frame_size (length p)
          then err (protocol (frame_too_large (length p)))
          else ok (some p, rest))
  unfolding encode
  stream_decode-encode p rest h =
      let fs : List Bytes = put 4 (length p % 2 ^ 32) ∷ p ∷ [] in
      let ws : List ℕ = 4 ∷ length p ∷ [] in
      let fit = encode-Fits p in
      decode_reads (concat fs ++ rest) (length p)
        (get_at-concat fs ws rest 0 4 _ fit refl (omega arith) ∙ omega arith)
        (omega (arith, length-concat fs ws rest fit))
      ∙ rw (drop_fields fs ws rest fit 1, take_field p [] rest refl, drop_field p [] rest refl)

  -- More input does not change what a complete frame decodes to, nor mend a refusal.
  pub stream_decode-append :
      (buf more : Bytes)
      → ((p rest : Bytes)
          → decode buf ≡ ok (some p, rest)
          → decode (buf ++ more) ≡ ok (some p, rest ++ more))
        × ((e : PimError) → decode buf ≡ err e → decode (buf ++ more) ≡ err e)
  stream_decode-append buf more = elim (Bool-cases (ltb (length buf) 4)) [
    | inl few ↦
        ((λ p rest e. unfold decode in ground arith), (λ x e. unfold decode in ground arith))
    | inr enough ↦
        let four = ltb→ge (length buf) 4 enough in
        let n = get_at buf 0 4 in
        let same : get_at (buf ++ more) 0 4 ≡ n = get_at-append buf more 0 4 (omega arith) four in
        let len = length-append buf more in
        (
          (λ p rest e.
              unfold decode in
              ground (
                arith,
                same,
                len,
                drop-append 4 buf more four,
                take-append n (drop 4 buf) more,
                drop-append n (drop 4 buf) more,
                length-drop 4 buf,
              )),
          (λ x e. unfold decode in ground (arith, same, len)),
        )
  ]
