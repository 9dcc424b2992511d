-- ===== src/Bluetooth/Rfcomm.antt =====
-- crates/pim-bluetooth/src/rfcomm/frame.rs: frames with a length prefix on an RFCOMM channel.
pub mod Stream
use proximity_internet_mesh.Base.{
  ℕ, zero, suc, ◌+◌, Bytes, Bool, Result, ok, err, List, [], ◌∷◌, ◌++◌, length, take, drop, slice,
  be_value, be_bytes, ltb, nat_eq, if◌then◌else◌,
}

abbrev pub max_frame_payload : ℕ
max_frame_payload = 65536

pub data FrameError : Type 0 where
  too_large : ℕ → FrameError
  empty_frame : FrameError

unfoldable pub encode_frame : Bytes → Result FrameError Bytes
unfolding be_bytes
encode_frame payload =
    if nat_eq (length payload) 0
    then err FrameError.empty_frame
    else if ltb max_frame_payload (length payload)
    then err (FrameError.too_large (length payload))
    else ok (be_bytes 4 (length payload) ++ payload)

-- What a call gives: the payloads or the error, and the buffer that it leaves.
abbrev pub Decoded : Type 0
Decoded = Result FrameError (List Bytes) × Bytes

-- The payload stands before those of the rounds to come; an error drops it.
abbrev pub prepend : Bytes → Decoded → Decoded
prepend payload (ok payloads, buf) = (ok (payload ∷ payloads), buf)
prepend payload (err e, buf) = (err e, buf)

unfoldable pub decode_loop : ℕ → Bytes → Decoded
unfolding be_value slice
decode_loop zero buf = (ok [], buf)
decode_loop (suc fuel) buf =
    let n = be_value (take 4 buf) in
    let rest = decode_loop fuel (drop (4 + n) buf) in
    if ltb (length buf) 4
    then (ok [], buf)
    else if nat_eq n 0
    then (err FrameError.empty_frame, buf)
    else if ltb max_frame_payload n
    then (err (FrameError.too_large n), buf)
    else if ltb (length buf) (4 + n)
    then (ok [], buf)
    else prepend (slice buf 4 (4 + n)) rest

-- A round takes more than four bytes, so that the rounds end before the fuel.
unfoldable pub decode_frame : Bytes → Decoded
unfolding decode_loop
decode_frame buf = decode_loop (suc (length buf)) buf
