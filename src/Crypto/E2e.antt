-- ===== src/Crypto/E2e.antt =====
-- crates/pim-crypto/src/e2e.rs: encryption to the key of a node that is not a neighbour. The random
-- ephemeral secret and nonce are arguments. `Hkdf::new(None, ..)` takes a salt of 32 zeros.
pub mod RoundTrip
use proximity_internet_mesh.Base.{
  ℕ, ◌+◌, ◌-◌, Bytes, Option, none, some, Result, ok, err, ◌>>=◌, ◌>>◌, reject, [], ◌∷◌, ◌++◌,
  length, replicate, slice, ltb,
}
use proximity_internet_mesh.Crypto.Session.{Aead}
use proximity_internet_mesh.Crypto.Handshake.{Primitives}

pub data E2eError : Type 0 where
  too_short decryption_failed encryption_failed : E2eError

-- HEADER_SIZE, of the ephemeral key and the nonce, and TAG_SIZE.
abbrev pub header_size : ℕ
header_size = 44

abbrev pub tag_size : ℕ
tag_size = 16

abbrev no_salt : Bytes
no_salt = replicate 32 0

-- "pim-e2e-v1"
abbrev pub e2e_label : Bytes
e2e_label = 112 ∷ 105 ∷ 109 ∷ 45 ∷ 101 ∷ 50 ∷ 101 ∷ 45 ∷ 118 ∷ 49 ∷ []

-- "pim-x25519-identity-v1"
abbrev pub identity_label : Bytes
identity_label =
    112 ∷ 105 ∷ 109 ∷ 45 ∷ 120 ∷ 50 ∷ 53 ∷ 53 ∷ 49 ∷ 57 ∷ 45 ∷ 105 ∷ 100 ∷ 101 ∷ 110 ∷ 116 ∷ 105
    ∷ 116 ∷ 121 ∷ 45 ∷ 118 ∷ 49 ∷ []

module _ (c : Primitives) where
  -- The key of the cipher.
  unfoldable pub derive_e2e_cipher : Bytes → Bytes
  derive_e2e_cipher shared_secret = c.hkdf no_salt shared_secret e2e_label

  unfoldable pub x25519_from_seed : Bytes → Bytes
  x25519_from_seed seed = c.hkdf no_salt seed identity_label

  unfoldable pub x25519_public_from_seed : Bytes → Bytes
  unfolding x25519_from_seed
  x25519_public_from_seed seed = c.public_key (x25519_from_seed seed)

  unfoldable pub e2e_encrypt : Aead → Bytes → Bytes → Bytes → Bytes → Result E2eError Bytes
  unfolding derive_e2e_cipher
  e2e_encrypt aead ephemeral_secret nonce plaintext gateway_pub =
      let shared_secret = c.diffie_hellman ephemeral_secret gateway_pub in
      elim (aead.seal_detached (derive_e2e_cipher shared_secret) nonce plaintext) [
        | none ↦ err E2eError.encryption_failed
        | some (sealed, tag) ↦ ok (c.public_key ephemeral_secret ++ (nonce ++ (sealed ++ tag)))
      ]

  abbrev pub decryption : Option Bytes → Result E2eError Bytes
  decryption none = err E2eError.decryption_failed
  decryption (some plaintext) = ok plaintext

  -- The key that the header of a frame leads to.
  abbrev pub frame_key : Bytes → Bytes → Bytes
  frame_key seed frame =
      derive_e2e_cipher (c.diffie_hellman (x25519_from_seed seed) (slice frame 0 32))

  unfoldable pub e2e_decrypt : Aead → Bytes → Bytes → Result E2eError Bytes
  unfolding slice derive_e2e_cipher x25519_from_seed
  e2e_decrypt aead seed ciphertext = do
    reject (ltb (length ciphertext) (header_size + tag_size)) E2eError.too_short
    let tag_start = length ciphertext - tag_size
    let body = slice ciphertext 0 tag_start
    decryption (
        aead.unseal_detached (frame_key seed ciphertext) (slice ciphertext 32 44)
          (slice body header_size (length body)) (slice ciphertext tag_start (length ciphertext)))

  -- The buffer that a success leaves is the result; callers drop the buffer of a failure. The text
  -- is moved to the start, and the buffer cut to its length.
  unfoldable pub e2e_decrypt_in_place : Aead → Bytes → Bytes → Result E2eError Bytes
  unfolding slice derive_e2e_cipher x25519_from_seed
  e2e_decrypt_in_place aead seed buffer = do
    reject (ltb (length buffer) (header_size + tag_size)) E2eError.too_short
    let ct_len = length buffer - header_size - tag_size
    let tag = slice buffer (length buffer - tag_size) (length buffer)
    let moved =
        slice buffer header_size (header_size + ct_len) ++ slice buffer ct_len (length buffer)
    decryption (
        aead.unseal_detached (frame_key seed buffer) (slice buffer 32 44) (slice moved 0 ct_len)
          tag)
