-- ===== src/Crypto/Session.antt =====
-- crates/pim-crypto/src/session.rs: the cipher of a session, its nonces and its protection from
-- replay. `Aead` stands for AES-256-GCM of the crate aes_gcm. Each call is one step: what the atomic
-- counters do when several threads share a cipher is not modelled.
pub mod Replay
pub mod Exchange
use proximity_internet_mesh.Base.{
  ℕ, ◌+◌, ◌-◌, ◌%◌, ◌^◌, ◌≡◌, Bytes, Bool, true, false, ◌&&◌, not, Option, none, some, Result, ok,
  err, List, [], ◌∷◌, ◌++◌, length, slice, be_value, be_bytes, leb, ltb, nat_eq, if◌then◌else◌,
}

-- Of the key, the nonce and the text; what encryption makes, decryption with the same key and nonce
-- takes back. The two calls in place work on the text without the tag, which is apart and has 16 bytes.
pub record Aead : Type 0 where
  pub seal : Bytes → Bytes → Bytes → Option Bytes
  pub unseal : Bytes → Bytes → Bytes → Option Bytes
  pub seal_detached : Bytes → Bytes → Bytes → Option (Bytes × Bytes)
  pub unseal_detached : Bytes → Bytes → Bytes → Bytes → Option Bytes
  pub unseal-seal :
      (key nonce plaintext ciphertext : Bytes)
      → seal key nonce plaintext ≡ some ciphertext
      → unseal key nonce ciphertext ≡ some plaintext
  pub unseal-seal_detached :
      (key nonce payload sealed tag : Bytes)
      → seal_detached key nonce payload ≡ some (sealed, tag)
      → unseal_detached key nonce sealed tag ≡ some payload
  pub length-sealed :
      (key nonce payload sealed tag : Bytes)
      → seal_detached key nonce payload ≡ some (sealed, tag)
      → length sealed ≡ length payload
  pub length-tag :
      (key nonce payload sealed tag : Bytes)
      → seal_detached key nonce payload ≡ some (sealed, tag)
      → length tag ≡ 16

pub data SessionError : Type 0 where
  invalid_nonce nonce_exhausted encryption_failed decryption_failed replayed_nonce : SessionError

pub record EncryptedFrame : Type 0 where
  pub nonce : Bytes
  pub ciphertext : Bytes

-- `cipher` is its key.
pub record SessionCipher : Type 0 where
  pub cipher : Bytes
  pub nonce_prefix : Bytes
  pub counter : ℕ
  pub last_recv_counter : ℕ

abbrev pub u64_max : ℕ
u64_max = 18446744073709551615

abbrev pub max_nonce_counter : ℕ
max_nonce_counter = 4294967294

unfoldable pub new : Bytes → Bytes → SessionCipher
new key nonce_prefix = record {
  cipher = key;
  nonce_prefix = nonce_prefix;
  counter = 0;
  last_recv_counter = u64_max;
}

unfoldable pub build_nonce : SessionCipher → ℕ → Bytes
unfolding be_bytes
build_nonce s counter = s.nonce_prefix ++ be_bytes 4 counter

-- `self.counter.fetch_add(1, ..)`, which wraps.
abbrev pub count_up : SessionCipher → SessionCipher
count_up s = record s { counter = (s.counter + 1) % 2 ^ 32 }

unfoldable pub encrypt :
    Aead → SessionCipher → Bytes → Result SessionError EncryptedFrame × SessionCipher
unfolding build_nonce
encrypt aead s plaintext =
    if leb max_nonce_counter s.counter then (err SessionError.nonce_exhausted, count_up s) else (
      elim (aead.seal s.cipher (build_nonce s s.counter) plaintext) [
        | none ↦ err SessionError.encryption_failed
        | some ciphertext ↦ ok (record { nonce = build_nonce s s.counter; ciphertext = ciphertext })
      ],
      count_up s,
    )

unfoldable pub encrypt_in_place_detached :
    Aead → SessionCipher → Bytes → Result SessionError (Bytes × Bytes × Bytes) × SessionCipher
unfolding build_nonce
encrypt_in_place_detached aead s payload =
    if leb max_nonce_counter s.counter then (err SessionError.nonce_exhausted, count_up s) else (
      elim (aead.seal_detached s.cipher (build_nonce s s.counter) payload) [
        | none ↦ err SessionError.encryption_failed
        | some (sealed, tag) ↦ ok (build_nonce s s.counter, sealed, tag)
      ],
      count_up s,
    )

-- The counter that a nonce carries, if it is new.
unfoldable pub accept_nonce : SessionCipher → Bytes → Result SessionError ℕ
unfolding slice be_value
accept_nonce s nonce =
    let counter = be_value (slice nonce 8 12) in
    if ltb (length nonce) 12
    then err SessionError.invalid_nonce
    else if not (nat_eq s.last_recv_counter u64_max) && leb counter s.last_recv_counter
    then err SessionError.replayed_nonce
    else ok counter

-- What follows once the counter is accepted, with the answer of the cipher.
abbrev pub received : SessionCipher → ℕ → Option Bytes → Result SessionError Bytes × SessionCipher
received s counter none = (err SessionError.decryption_failed, s)
received s counter (some plaintext) = (ok plaintext, record s { last_recv_counter = counter })

unfoldable pub decrypt :
    Aead → SessionCipher → EncryptedFrame → Result SessionError Bytes × SessionCipher
unfolding accept_nonce
decrypt aead s frame = elim (accept_nonce s frame.nonce) [
  | err e ↦ (err e, s)
  | ok counter ↦ received s counter (aead.unseal s.cipher frame.nonce frame.ciphertext)
]

-- The payload that the call leaves is its result.
unfoldable pub decrypt_in_place_detached :
    Aead → SessionCipher → Bytes → Bytes → Bytes → Result SessionError Bytes × SessionCipher
unfolding accept_nonce
decrypt_in_place_detached aead s nonce payload tag = elim (accept_nonce s nonce) [
  | err e ↦ (err e, s)
  | ok counter ↦ received s counter (aead.unseal_detached s.cipher nonce payload tag)
]
