-- ===== src/Daemon/Session.antt =====
-- crates/pim-daemon/src/session.rs: the session with a peer. Its errors are those of the ciphers.
pub mod Link
use proximity_internet_mesh.Base.{
  ℕ, Bytes, Bool, true, false, Result, ok, err, List, [], ◌∷◌, ◌++◌, take, drop, if◌then◌else◌,
}
use proximity_internet_mesh.Core.{NodeId}
use proximity_internet_mesh.Protocol.Transport.{FrameType, TransportFrame}
use proximity_internet_mesh.Crypto.Session.{
  Aead, SessionError, SessionCipher, encrypt_in_place_detached, decrypt_in_place_detached,
}

pub record Session : Type 0 where
  pub peer_id : NodeId
  pub send : SessionCipher
  pub recv : SessionCipher

abbrev pub framed :
    Session
    → Result SessionError (Bytes × Bytes × Bytes) × SessionCipher
    → Result SessionError TransportFrame × Session
framed s (err e, cipher) = (err e, record s { send = cipher })
framed s (ok (nonce, payload, tag), cipher) = (
  ok (record { frame_type = FrameType.data_frame; nonce = nonce; payload = payload; tag = tag }),
  record s { send = cipher },
)

unfoldable pub encrypt_frame : Aead → Session → Bytes → Result SessionError TransportFrame × Session
unfolding encrypt_in_place_detached
encrypt_frame aead s plaintext = framed s (encrypt_in_place_detached aead s.send plaintext)

abbrev pub unframed :
    Session
    → TransportFrame
    → Result SessionError Bytes × SessionCipher
    → Result SessionError TransportFrame × Session
unframed s frame (err e, cipher) = (err e, record s { recv = cipher })
unframed s frame (ok payload, cipher) =
    (ok (record frame { payload = payload }), record s { recv = cipher })

unfoldable pub decrypt_frame :
    Aead → Session → TransportFrame → Result SessionError TransportFrame × Session
unfolding decrypt_in_place_detached
decrypt_frame aead s frame =
    unframed s frame (decrypt_in_place_detached aead s.recv frame.nonce frame.payload frame.tag)

abbrev pub nonce_prefix : Bytes → Bool → Bytes
nonce_prefix session_key is_initiator =
    if is_initiator then take 8 session_key else take 8 (drop 8 session_key)
