-- ===== src/Crypto/Session/Exchange.antt =====
-- crates/pim-crypto/src/session.rs: what one cipher encrypts another with the same key decrypts.
use proximity_internet_mesh.Base.{
  ℕ, ◌^◌, ◌<◌, ◌≡◌, refl, sym, ap, ◌∙◌, arith, Bytes, false, some, ok, [], ◌++◌, length, take,
  slice, be_value, be_bytes, leb, slice_past, length-be_bytes, be_value-be_bytes, length-append,
  take_front, append-nil,
}
use proximity_internet_mesh.Crypto.Session.{
  Aead, SessionCipher, build_nonce, encrypt_in_place_detached, accept_nonce,
  decrypt_in_place_detached, max_nonce_counter, count_up,
}
use proximity_internet_mesh.Crypto.Session.Replay.{IsBelow, counter_of}

slice-nonce :
    (prefix : Bytes) (c : ℕ)
    → length prefix ≡ 8
    → slice (prefix ++ be_bytes 4 c) 8 12 ≡ be_bytes 4 c
unfolding slice
slice-nonce prefix c e =
    slice_past prefix (be_bytes 4 c) 8 0 4 e
    ∙ ap (λ (n : ℕ). take n (be_bytes 4 c)) (sym (length-be_bytes 4 c))
    ∙ ap (take (length (be_bytes 4 c))) (sym (append-nil (be_bytes 4 c)))
    ∙ take_front (be_bytes 4 c) []

pub counter_of-build_nonce :
    (s : SessionCipher) (c : ℕ)
    → length s.nonce_prefix ≡ 8
    → c < 2 ^ 32
    → counter_of (build_nonce s c) ≡ c
unfolding build_nonce
counter_of-build_nonce s c e h =
    ap be_value (slice-nonce s.nonce_prefix c e) ∙ be_value-be_bytes 4 c (omega arith)

length-build_nonce :
    (s : SessionCipher) (c : ℕ) → length s.nonce_prefix ≡ 8 → length (build_nonce s c) ≡ 12
unfolding build_nonce
length-build_nonce s c e =
    omega (arith, length-append s.nonce_prefix (be_bytes 4 c), length-be_bytes 4 c)

accept_nonce-build_nonce :
    (s r : SessionCipher) (c : ℕ)
    → length s.nonce_prefix ≡ 8
    → c < 2 ^ 32
    → IsBelow r.last_recv_counter c
    → accept_nonce r (build_nonce s c) ≡ ok c
unfolding accept_nonce
accept_nonce-build_nonce s r c e h below =
    ground (arith, counter_of-build_nonce s c e h, length-build_nonce s c e)

-- A sealed payload is decrypted by a cipher with the same key that has accepted no later frame.
pub decrypt-encrypt_in_place :
    (aead : Aead) (s r : SessionCipher) (payload sealed tag : Bytes)
    → length s.nonce_prefix ≡ 8
    → s.cipher ≡ r.cipher
    → s.counter < max_nonce_counter
    → IsBelow r.last_recv_counter s.counter
    → aead.seal_detached s.cipher (build_nonce s s.counter) payload ≡ some (sealed, tag)
    → (encrypt_in_place_detached aead s payload
        ≡ (ok (build_nonce s s.counter, sealed, tag), count_up s))
      × (decrypt_in_place_detached aead r (build_nonce s s.counter) sealed tag
          ≡ (ok payload, record r { last_recv_counter = s.counter }))
unfolding encrypt_in_place_detached decrypt_in_place_detached
decrypt-encrypt_in_place aead s r payload sealed tag prefix key room below done =
    let room' : leb max_nonce_counter s.counter ≡ false = ground arith in
    let good = accept_nonce-build_nonce s r s.counter prefix (omega arith) below in
    let back =
      aead.unseal-seal_detached s.cipher (build_nonce s s.counter) payload sealed tag done in
    (
      rw (room', encrypt_in_place_detached, done) refl,
      rw (decrypt_in_place_detached, good, ← key, back) refl,
    )
