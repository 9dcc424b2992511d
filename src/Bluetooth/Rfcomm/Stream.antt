-- ===== src/Bluetooth/Rfcomm/Stream.antt =====
-- crates/pim-bluetooth/src/rfcomm/frame.rs: what `decode_frame` makes of a stream of frames.
use proximity_internet_mesh.Base.{
  ℕ, zero, suc, ◌+◌, ◌≤◌, ◌<◌, ◌≡◌, refl, sym, ap, ◌∙◌, inl, inr, arith, Bytes, Bool-cases, map,
  append-nil, ltb→ge, ok, List, [], ◌∷◌, ◌++◌, length, take, drop, slice, be_value, be_bytes,
  be_value-be_bytes, length-be_bytes, take_front, take-append, append_assoc, slice_past, slice_head,
  drop_past, length-append, All, ltb,
}
use proximity_internet_mesh.Bluetooth.Rfcomm.{
  max_frame_payload, encode_frame, prepend, decode_loop, decode_frame,
}

abbrev pub IsPayload : Bytes → Type 0
IsPayload payload = (0 < length payload) × (length payload ≤ max_frame_payload)

abbrev pub frame : Bytes → Bytes
frame payload = be_bytes 4 (length payload) ++ payload

-- The stream of the frames of `payloads`, and of the start of a frame.
abbrev pub stream : List Bytes → Bytes → Bytes
stream [] tail = tail
stream (payload ∷ payloads) tail = frame payload ++ stream payloads tail

-- Less than a frame.
abbrev pub IsPartial : Bytes → Type 0
IsPartial tail =
    (payload : Bytes) × (missing : Bytes) × IsPayload payload
    × (0 < length missing)
    × (tail ++ missing ≡ frame payload)

encode_frame-frame :
    (payload : Bytes) → IsPayload payload → encode_frame payload ≡ ok (frame payload)
unfolding encode_frame
encode_frame-frame payload (some_bytes, fits) = ground arith

length-frame : (payload : Bytes) → length (frame payload) ≡ 4 + length payload
length-frame payload =
    omega (
      arith,
      length-append (be_bytes 4 (length payload)) payload,
      length-be_bytes 4 (length payload),
    )

header : (payload rest : Bytes) → take 4 (frame payload ++ rest) ≡ be_bytes 4 (length payload)
header payload rest =
    let size = length-be_bytes 4 (length payload) in
    rw append_assoc (
      ap (λ (n : ℕ). take n (be_bytes 4 (length payload) ++ (payload ++ rest))) (sym size)
      ∙ take_front (be_bytes 4 (length payload)) (payload ++ rest))

size_read :
    (payload rest : Bytes)
    → IsPayload payload
    → be_value (take 4 (frame payload ++ rest)) ≡ length payload
size_read payload rest (some_bytes, fits) =
    ap be_value (header payload rest) ∙ be_value-be_bytes 4 (length payload) (omega arith)

payload_read :
    (payload rest : Bytes) → slice (frame payload ++ rest) 4 (4 + length payload) ≡ payload
payload_read payload rest =
    let n = length payload in
    let same : n ≡ n + 0 = omega arith in
    rw (append_assoc (be_bytes 4 n) payload rest) (
      slice_past (be_bytes 4 n) (payload ++ rest) 4 0 n (length-be_bytes 4 n)
      ∙ ap (slice (payload ++ rest) 0) same
      ∙ slice_head payload rest n refl)

rest_left : (payload rest : Bytes) → drop (4 + length payload) (frame payload ++ rest) ≡ rest
rest_left payload rest =
    let n = length payload in
    let same : n ≡ n + 0 = omega arith in
    rw (append_assoc (be_bytes 4 n) payload rest) (
      ap (λ (k : ℕ). drop (k + n) (be_bytes 4 n ++ (payload ++ rest))) (sym (length-be_bytes 4 n))
      ∙ drop_past (be_bytes 4 n) (payload ++ rest) n
      ∙ ap (λ (k : ℕ). drop k (payload ++ rest)) same
      ∙ drop_past payload rest 0)

decode_loop-frame :
    (fuel : ℕ) (payload rest : Bytes)
    → IsPayload payload
    → decode_loop (suc fuel) (frame payload ++ rest) ≡ prepend payload (decode_loop fuel rest)
unfolding decode_loop
decode_loop-frame fuel payload rest good =
    let n = size_read payload rest good in
    let len : length (frame payload ++ rest) ≡ 4 + length payload + length rest =
      omega (arith, length-append (frame payload) rest, length-frame payload) in
    rw (n, payload_read payload rest, rest_left payload rest) (ground (arith, len, good))

decode_loop-partial :
    (fuel : ℕ) (tail : Bytes) → IsPartial tail → decode_loop (suc fuel) tail ≡ (ok [], tail)
unfolding decode_loop
decode_loop-partial fuel tail (payload, missing, good, left, whole) =
    elim (Bool-cases (ltb (length tail) 4)) [
      | inl short ↦ rw short refl
      | inr long ↦
          let enough : 4 ≤ length tail = ltb→ge (length tail) 4 long in
          let n : be_value (take 4 tail) ≡ length payload =
            ap be_value (
              sym (take-append 4 tail missing enough)
              ∙ ap (take 4) (whole ∙ sym (append-nil (frame payload))))
            ∙ size_read payload [] good in
          let len : length tail + length missing ≡ 4 + length payload =
            sym (length-append tail missing) ∙ ap length whole ∙ length-frame payload in
          rw n (ground (arith, len, good, left))
    ]

decode_loop-stream :
    (fuel : ℕ) (payloads : List Bytes) (tail : Bytes)
    → length payloads < fuel
    → All IsPayload payloads
    → IsPartial tail
    → decode_loop fuel (stream payloads tail) ≡ (ok payloads, tail)
decode_loop-stream zero payloads tail enough good partial = absurd (omega arith)
decode_loop-stream (suc fuel) [] tail enough good partial = decode_loop-partial fuel tail partial
decode_loop-stream (suc fuel) (payload ∷ payloads) tail enough (here, good) partial =
    decode_loop-frame fuel payload (stream payloads tail) here
    ∙ ap (prepend payload) (decode_loop-stream fuel payloads tail (omega arith) good partial)

length-stream :
    (payloads : List Bytes) (tail : Bytes) → length payloads ≤ length (stream payloads tail)
length-stream [] tail = omega arith
length-stream (payload ∷ payloads) tail = omega (
  arith,
  length-append (frame payload) (stream payloads tail),
  length-frame payload,
  length-stream payloads tail,
)

encoded :
    (payloads : List Bytes)
    → All IsPayload payloads
    → map encode_frame payloads ≡ map (λ p. ok (frame p)) payloads
encoded [] good = refl
encoded (payload ∷ payloads) (here, good) =
    cc (encode_frame-frame payload here, encoded payloads good)

-- Payloads of 1 to 65536 bytes are encoded, and from the frames of any number of them and a start of
-- another one call takes all of these payloads, in their order, and leaves the start.
pub decode_frame-stream :
    (payloads : List Bytes) (tail : Bytes)
    → All IsPayload payloads
    → IsPartial tail
    → (map encode_frame payloads ≡ map (λ p. ok (frame p)) payloads)
      × (decode_frame (stream payloads tail) ≡ (ok payloads, tail))
unfolding decode_frame
decode_frame-stream payloads tail good partial = (
  encoded payloads good,
  decode_loop-stream (suc (length (stream payloads tail))) payloads tail
      (omega (arith, length-stream payloads tail)) good partial,
)
