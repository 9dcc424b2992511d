-- ===== src/Crypto/Handshake.antt =====
-- crates/pim-crypto/src/handshake.rs: the authenticated handshake and the derivation of the session
-- key. `Primitives` stands for Ed25519, X25519, HKDF and HMAC of their crates; what the source draws
-- at random, an ephemeral secret and a nonce, is an argument.
pub mod Agreement
use proximity_internet_mesh.Base.{
  ℕ, ◌≡◌, Bytes, Bool, true, false, not, Option, none, some, Result, ok, err, ◌>>=◌, ◌>>◌, reject,
  List, [], ◌∷◌, ◌++◌, length, slice, Eq, ◌==◌, bytes_eq,
}

pub record Primitives : Type 0 where
  -- Ed25519: `from_bytes` of a verifying key, `sign` and `verify`.
  pub verifying_key : Bytes → Bytes
  pub is_public_key : Bytes → Bool
  pub sign : Bytes → Bytes → Bytes
  pub verify : Bytes → Bytes → Bytes → Bool
  -- X25519, of a secret.
  pub public_key : Bytes → Bytes
  pub diffie_hellman : Bytes → Bytes → Bytes
  -- HKDF-SHA256 to 32 bytes, of the salt, the keying material and the label; HMAC-SHA256.
  pub hkdf : Bytes → Bytes → Bytes → Bytes
  pub hmac : Bytes → Bytes → Bytes
  pub is_public_key-verifying_key : (k : Bytes) → is_public_key (verifying_key k) ≡ true
  pub length-verifying_key : (k : Bytes) → length (verifying_key k) ≡ 32
  pub verify-sign : (k m : Bytes) → verify (verifying_key k) m (sign k m) ≡ true
  pub length-public_key : (s : Bytes) → length (public_key s) ≡ 32
  pub diffie_hellman_comm :
      (a b : Bytes) → diffie_hellman a (public_key b) ≡ diffie_hellman b (public_key a)

-- `HandshakeInit` and `HandshakeResponse`, which have the same fields.
pub record Hello : Type 0 where
  pub sender_pub : Bytes
  pub ephemeral_pub : Bytes
  pub nonce : Bytes
  pub signature : Bytes

pub data HandshakeError : Type 0 where
  invalid_public_key invalid_signature confirm_mismatch invalid_state : HandshakeError

pub record Handshaker : Type 0 where
  pub signing_key_bytes : Bytes
  pub verifying_key_bytes : Bytes
  pub ephemeral_secret : Option Bytes
  pub ephemeral_pub : Option Bytes
  pub session_key : Option Bytes
  pub transcript : Bytes
  pub mesh_handshake_key : Option Bytes

-- "pim-session-v1"
abbrev pub label : Bytes
label = 112 ∷ 105 ∷ 109 ∷ 45 ∷ 115 ∷ 101 ∷ 115 ∷ 115 ∷ 105 ∷ 111 ∷ 110 ∷ 45 ∷ 118 ∷ 49 ∷ []

abbrev pub ikm_with_mesh : Option Bytes → Bytes → Bytes
ikm_with_mesh none shared_secret = shared_secret
ikm_with_mesh (some mesh_key) shared_secret = shared_secret ++ mesh_key

module _ (c : Primitives) where
  -- For an identity of this signing key.
  unfoldable pub new : Bytes → Handshaker
  new signing_key = record {
    signing_key_bytes = signing_key;
    verifying_key_bytes = c.verifying_key signing_key;
    ephemeral_secret = none;
    ephemeral_pub = none;
    session_key = none;
    transcript = [];
    mesh_handshake_key = none;
  }

  unfoldable pub with_mesh_handshake_key : Bytes → Handshaker → Handshaker
  with_mesh_handshake_key key h = record h { mesh_handshake_key = some key }

  -- What both sides send: the keys and the nonce, signed.
  unfoldable pub hello : Handshaker → Bytes → Bytes → Hello
  hello h ephemeral nonce = record {
    sender_pub = h.verifying_key_bytes;
    ephemeral_pub = c.public_key ephemeral;
    nonce = nonce;
    signature = c.sign h.signing_key_bytes (c.public_key ephemeral ++ nonce);
  }

  abbrev pub written : Hello → Bytes
  written m = m.sender_pub ++ (m.ephemeral_pub ++ m.nonce)

  unfoldable pub initiate : Bytes → Bytes → Handshaker → Hello × Handshaker
  unfolding hello
  initiate ephemeral nonce h = (
    hello h ephemeral nonce,
    record h {
      ephemeral_secret = some ephemeral;
      ephemeral_pub = some (c.public_key ephemeral);
      transcript = h.transcript ++ written (hello h ephemeral nonce);
    },
  )

  -- The test of the other side's key and signature.
  unfoldable pub check_hello : Hello → Result HandshakeError (Unit {0})
  check_hello m = do
    reject (not (c.is_public_key m.sender_pub)) HandshakeError.invalid_public_key
    reject (not (c.verify m.sender_pub (m.ephemeral_pub ++ m.nonce) m.signature))
        HandshakeError.invalid_signature
    ok tt

  -- `Hkdf::new` and `expand`, from the salt of the two nonces.
  abbrev pub derive : Option Bytes → Bytes → Bytes → Bytes → Bytes
  derive mesh_key init_nonce nonce shared_secret =
      c.hkdf (init_nonce ++ nonce) (ikm_with_mesh mesh_key shared_secret) label

  unfoldable pub respond :
      Bytes → Bytes → Hello → Handshaker → Result HandshakeError Hello × Handshaker
  unfolding check_hello hello
  respond ephemeral nonce init h = elim (check_hello init) [
    | err e ↦ (err e, h)
    | ok checked ↦ (
      ok (hello h ephemeral nonce),
      record h {
        transcript = h.transcript ++ (written init ++ written (hello h ephemeral nonce));
        session_key = some (
            derive h.mesh_handshake_key init.nonce nonce
              (c.diffie_hellman ephemeral init.ephemeral_pub));
        ephemeral_pub = some (c.public_key ephemeral);
      },
    )
  ]

  unfoldable pub finalize_initiator :
      Hello → Handshaker → Result HandshakeError (Unit {0}) × Handshaker
  unfolding check_hello slice
  finalize_initiator response h = elim (check_hello response) [
    | err e ↦ (err e, h)
    | ok checked ↦ elim h.ephemeral_secret [
      | none ↦ (err HandshakeError.invalid_state, h)
      | some ephemeral ↦
          let transcript = h.transcript ++ written response in
          (
            ok tt,
            record h {
              ephemeral_secret = none;
              transcript = transcript;
              session_key = some (
                  derive h.mesh_handshake_key (slice transcript 64 96) response.nonce
                    (c.diffie_hellman ephemeral response.ephemeral_pub));
            },
          )
    ]
  ]

  unfoldable pub make_confirm : Handshaker → Result HandshakeError Bytes
  make_confirm h = elim h.session_key [
    | none ↦ err HandshakeError.invalid_state
    | some key ↦ ok (c.hmac key h.transcript)
  ]

  unfoldable pub verify_confirm : Bytes → Handshaker → Result HandshakeError (Unit {0})
  verify_confirm hmac h = elim h.session_key [
    | none ↦ err HandshakeError.invalid_state
    | some key ↦ reject (not (c.hmac key h.transcript == hmac)) HandshakeError.confirm_mismatch
  ]
