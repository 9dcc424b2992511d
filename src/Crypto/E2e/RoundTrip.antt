-- ===== src/Crypto/E2e/RoundTrip.antt =====
-- crates/pim-crypto/src/e2e.rs: what is encrypted to a public key is decrypted with its seed.
use proximity_internet_mesh.Base.{
  take_whole, ℕ, zero, suc, ◌+◌, ◌-◌, ◌≤◌, ◌≡◌, refl, ap, subst, ◌∙◌, arith, inl, inr, Bool-cases,
  Bytes, false, some, ok, List, [], ◌∷◌, length, slice, ◌++◌, take, drop, ltb, length-drop,
  slice_head, length-slice, Fits, concat, append-nil, length-concat, slice-field,
}
use proximity_internet_mesh.Crypto.Session.{Aead}
use proximity_internet_mesh.Crypto.Handshake.{Primitives}
use proximity_internet_mesh.Crypto.E2e.{
  derive_e2e_cipher, x25519_from_seed, x25519_public_from_seed, e2e_encrypt, e2e_decrypt,
  e2e_decrypt_in_place, header_size, tag_size,
}

take-nil : (n : ℕ) → [] ≡ take {A = ℕ} n []
take-nil zero = refl
take-nil (suc n) = refl

take_count : (xs : Bytes) (m n : ℕ) → m ≡ n → take m xs ≡ take n xs
take_count xs m n e = ap (λ (k : ℕ). take k xs) e

drop-take : (m n : ℕ) (xs : Bytes) → drop m (take n xs) ≡ take (n - m) (drop m xs)
drop-take zero n xs = take_count xs n (n - 0) (omega arith)
drop-take (suc m) zero xs = take_count (drop (suc m) xs) 0 (0 - suc m) (omega arith)
drop-take (suc m) (suc n) [] = take-nil (suc n - suc m)
drop-take (suc m) (suc n) (x ∷ xs) =
    drop-take m n xs ∙ take_count (drop m xs) (n - m) (suc n - suc m) (omega arith)

-- The text between a header and a tail, by the way through the buffer without its tail.
slice-slice :
    (buf : Bytes) (h t : ℕ)
    → t ≤ length buf
    → slice (slice buf 0 t) h (length (slice buf 0 t)) ≡ slice buf h t
unfolding slice
slice-slice buf h t q =
    take_whole (length (take (t - 0) buf) - h) (drop h (take (t - 0) buf))
      (omega (arith, length-drop h (take (t - 0) buf)))
    ∙ drop-take h (t - 0) buf
    ∙ take_count (drop h buf) (t - 0 - h) (t - h) (omega arith)

-- The same, when the text is moved to the start of the buffer first.
slice-moved :
    (buf rest : Bytes) (h n : ℕ)
    → h + n ≤ length buf
    → slice (slice buf h (h + n) ++ rest) 0 n ≡ slice buf h (h + n)
slice-moved buf rest h n p =
    ap (slice (slice buf h (h + n) ++ rest) 0) (let d : n ≡ n + 0 = omega arith in d)
    ∙ slice_head (slice buf h (h + n)) rest n
        (omega (arith, length-slice buf h (h + n) (omega arith) p))

module _ (c : Primitives) (aead : Aead) where
  -- On every buffer the decryption in place answers as the one that borrows the text.
  pub e2e_decrypt_in_place-e2e_decrypt :
      (seed buffer : Bytes)
      → e2e_decrypt_in_place c aead seed buffer ≡ e2e_decrypt c aead seed buffer
  unfolding e2e_decrypt_in_place e2e_decrypt
  e2e_decrypt_in_place-e2e_decrypt seed buffer = elim (Bool-cases (ltb (length buffer) 60)) [
    | inl short ↦ rw short refl
    | inr long ↦
        let ct = length buffer - header_size - tag_size in
        let room : 60 ≤ length buffer = ground arith in
        let moved =
          slice-moved buffer (slice buffer ct (length buffer)) header_size ct (omega arith) in
        let straight = slice-slice buffer header_size (length buffer - tag_size) (omega arith) in
        let same : header_size + ct ≡ length buffer - tag_size = omega arith in
        rw (long, moved, straight, same) refl
  ]

  -- The layout of a frame, with what the slices of the decryption find.
  IsFrame : Bytes → Bytes → Bytes → Bytes → Bytes → Type 0
  IsFrame frame key nonce sealed tag =
      (length frame ≡ 60 + length sealed)
      × (slice frame 0 32 ≡ key)
      × (slice frame 32 44 ≡ nonce)
      × (slice frame header_size (length frame - tag_size) ≡ sealed)
      × (slice frame (length frame - tag_size) (length frame) ≡ tag)

  concat-IsFrame :
      (key nonce sealed tag : Bytes)
      → length key ≡ 32
      → length nonce ≡ 12
      → length tag ≡ 16
      → IsFrame (key ++ (nonce ++ (sealed ++ tag))) key nonce sealed tag
  unfolding IsFrame
  concat-IsFrame key nonce sealed tag k n t =
      let fs : List Bytes = key ∷ nonce ∷ sealed ∷ tag ∷ [] in
      let ws : List ℕ = 32 ∷ 12 ∷ length sealed ∷ 16 ∷ [] in
      let fits : Fits fs ws = (k, (n, (refl, (t, tt)))) in
      let same : concat fs ++ [] ≡ key ++ (nonce ++ (sealed ++ tag)) =
        rw (append-nil (concat fs), append-nil tag) refl in
      let size = length-concat fs ws [] fits in
      subst (λ (f : Bytes). IsFrame f key nonce sealed tag) same
        (
          omega arith,
          slice-field fs ws [] 0 0 32 fits (omega arith) (omega arith),
          slice-field fs ws [] 1 32 44 fits (omega arith) (omega arith),
          slice-field fs ws [] 2 44 (length (concat fs ++ []) - 16) fits (omega arith)
              (omega arith),
          slice-field fs ws [] 3 (length (concat fs ++ []) - 16) (length (concat fs ++ [])) fits
              (omega arith) (omega arith),
        )

  -- A frame with its parts in place is decrypted, by whom the key of its text leads to.
  e2e_decrypt-IsFrame :
      (frame key nonce sealed tag seed plaintext : Bytes)
      → IsFrame frame key nonce sealed tag
      → aead.unseal_detached
          (derive_e2e_cipher c (c.diffie_hellman (x25519_from_seed c seed) key))
          nonce
          sealed
          tag
        ≡ some plaintext
      → e2e_decrypt c aead seed frame ≡ ok plaintext
  unfolding e2e_decrypt IsFrame
  e2e_decrypt-IsFrame frame key nonce sealed tag seed plaintext (size, k, n, s, t) opened =
      let long : ltb (length frame) 60 ≡ false = ground arith in
      let straight = slice-slice frame header_size (length frame - tag_size) (omega arith) in
      rw (long, straight, k, n, s, t, opened) refl

  -- What is sealed for the public key of a seed, with a nonce of 12 bytes, becomes a frame that
  -- the holder of the seed decrypts to the plaintext.
  pub e2e_decrypt-e2e_encrypt :
      (ephemeral nonce plaintext seed sealed tag : Bytes)
      → length nonce ≡ 12
      → aead.seal_detached
          (derive_e2e_cipher c (c.diffie_hellman ephemeral (x25519_public_from_seed c seed)))
          nonce
          plaintext
        ≡ some (sealed, tag)
      → (frame : Bytes) × (e2e_encrypt c aead ephemeral nonce plaintext
            (x25519_public_from_seed c seed)
          ≡ ok frame)
        × (e2e_decrypt c aead seed frame ≡ ok plaintext)
  unfolding e2e_encrypt x25519_public_from_seed
  e2e_decrypt-e2e_encrypt ephemeral nonce plaintext seed sealed tag n done =
      let key = c.public_key ephemeral in
      let shared = c.diffie_hellman_comm ephemeral (x25519_from_seed c seed) in
      let whose = derive_e2e_cipher c (c.diffie_hellman (x25519_from_seed c seed) key) in
      let sent : aead.seal_detached whose nonce plaintext ≡ some (sealed, tag) =
        rw (← shared) done in
      (
        key ++ (nonce ++ (sealed ++ tag)),
        rw (e2e_encrypt, done) refl,
        e2e_decrypt-IsFrame (key ++ (nonce ++ (sealed ++ tag))) key nonce sealed tag seed plaintext
            (concat-IsFrame key nonce sealed tag (c.length-public_key ephemeral) n
              (aead.length-tag whose nonce plaintext sealed tag sent))
            (aead.unseal-seal_detached whose nonce plaintext sealed tag sent),
      )
