-- ===== src/Examples/Sessions.antt =====
-- Handshakes, sessions and RFCOMM frames, crates/pim-crypto, pim-daemon/src/session.rs and
-- pim-bluetooth/src/rfcomm/frame.rs, with toy primitives.
use native.Mathlib.Omega.{arith}
use proximity_internet_mesh.Base.{
  ℕ, ◌≡◌, refl, sym, slice, be_value, be_bytes, inl, Bytes, Bool, true, false, Option, none, some,
  ok, List, [], ◌∷◌, ◌++◌, replicate, map, ◌==◌, bytes_eq, ==_refl, if◌then◌else◌, take, length,
  length-take, length-append, length-replicate, ap, ◌∙◌,
}
use proximity_internet_mesh.Crypto.Session.{
  Aead, SessionCipher, u64_max, decrypt_in_place_detached, accept_nonce,
}
use proximity_internet_mesh.Crypto.Session.Replay.{
  Arrival, detached, accepted, IsIncreasing, accepted-IsIncreasing,
}
use proximity_internet_mesh.Crypto.Handshake.{
  Primitives, Hello, Handshaker, new, initiate, respond, finalize_initiator, check_hello, hello,
}
use proximity_internet_mesh.Crypto.Handshake.Agreement.{start, IsAgreed, handshake-IsAgreed}
use proximity_internet_mesh.Daemon.Session.{Session}
use proximity_internet_mesh.Daemon.Session.Link.{transmit, arriving, transmit-arriving}
use proximity_internet_mesh.Bluetooth.Rfcomm.{encode_frame, decode_frame}
use proximity_internet_mesh.Bluetooth.Rfcomm.Stream.{frame, stream, decode_frame-stream}

-- A nonce, brought to the length of a tag.
abbrev pub padded : Bytes → Bytes
padded nonce = take 16 (nonce ++ replicate 16 0)

pub length-padded : (nonce : Bytes) → length (padded nonce) ≡ 16
length-padded nonce = omega (
  arith,
  length-take 16 (nonce ++ replicate 16 0),
  length-append nonce (replicate 16 0),
  length-replicate {A = ℕ} 16 0,
)

pub toy_sealed :
    (nonce payload sealed tag : Bytes)
    → ◌≡◌ {A = Option (Bytes × Bytes)} (some (payload, padded nonce)) (some (sealed, tag))
    → (payload ≡ sealed) × (padded nonce ≡ tag)
toy_sealed nonce payload sealed tag e = (cc, cc)

pub toy-opened :
    (nonce payload sealed tag : Bytes)
    → ◌≡◌ {A = Option (Bytes × Bytes)} (some (payload, padded nonce)) (some (sealed, tag))
    → (if tag == padded nonce then some sealed else none) ≡ some payload
toy-opened nonce payload sealed tag e =
    let parts = toy_sealed nonce payload sealed tag e in
    rw (← parts.0, ← parts.1, ==_refl (padded nonce)) refl

-- The nonce for a tag.
abbrev pub toy_aead : Aead
toy_aead = record {
  seal = λ key nonce plaintext. some plaintext;
  unseal = λ key nonce ciphertext. some ciphertext;
  seal_detached = λ key nonce payload. some (payload, padded nonce);
  unseal_detached = λ key nonce payload tag. if tag == padded nonce then some payload else none;
  unseal-seal = λ key nonce plaintext ciphertext e. sym e;
  unseal-seal_detached = λ key nonce payload sealed tag e. toy-opened nonce payload sealed tag e;
  length-sealed =
      λ key nonce payload sealed tag e. ap length (sym (toy_sealed nonce payload sealed tag e).0);
  length-tag = λ key nonce payload sealed tag e.
      ap length (sym (toy_sealed nonce payload sealed tag e).1) ∙ length-padded nonce;
}

abbrev pub toy_primitives : Primitives
toy_primitives = record {
  verifying_key = λ k. replicate 32 7;
  is_public_key = λ k. true;
  sign = λ k m. m;
  verify = λ k m s. s == m;
  public_key = λ s. replicate 32 9;
  diffie_hellman = λ a b. 5 ∷ [];
  hkdf = λ salt ikm info. salt ++ ikm;
  hmac = λ key m. key ++ m;
  is_public_key-verifying_key = λ k. refl;
  length-verifying_key = λ k. refl;
  verify-sign = λ k m. ==_refl m;
  length-public_key = λ s. refl;
  diffie_hellman_comm = λ a b. refl;
}

abbrev cipher : SessionCipher
cipher = record {
  cipher = replicate 32 1;
  nonce_prefix = replicate 8 2;
  counter = 0;
  last_recv_counter = u64_max;
}

abbrev numbered : ℕ → Arrival
numbered n = detached (replicate 11 0 ++ (n ∷ [])) (9 ∷ []) (replicate 11 0 ++ (n ∷ replicate 4 0))

-- The second is old when it arrives, and the third a repetition.
abbrev arrivals : List Arrival
arrivals = numbered 5 ∷ numbered 3 ∷ numbered 5 ∷ numbered 8 ∷ []

accepted-arrivals : accepted toy_aead cipher arrivals ≡ 5 ∷ 8 ∷ []
unfolding accepted decrypt_in_place_detached accept_nonce slice be_value
accepted-arrivals = refl

accepted-IsIncreasing_example : IsIncreasing (accepted toy_aead cipher arrivals)
accepted-IsIncreasing_example = accepted-IsIncreasing toy_aead cipher arrivals (ground arith)

abbrev end : Session
end = record { peer_id = replicate 16 3; send = cipher; recv = cipher }

abbrev payloads : List (Bytes × Bool)
payloads = (1 ∷ [], true) ∷ (2 ∷ [], false) ∷ (3 ∷ [], true) ∷ []

transmit-arriving_example : transmit toy_aead end end payloads ≡ map ok (arriving payloads)
transmit-arriving_example =
    transmit-arriving toy_aead end end payloads
      (record { prefix = refl; key = refl; below = inl refl }) (omega arith)
      (
        (λ nonce. (1 ∷ [], padded nonce, refl)),
        ((λ nonce. (2 ∷ [], padded nonce, refl)), ((λ nonce. (3 ∷ [], padded nonce, refl)), tt)),
      )

abbrev nonce : Bytes
nonce = replicate 32 4

handshake-IsAgreed_example :
    let (init, i) = initiate toy_primitives [] nonce (start toy_primitives [] (some (6 ∷ []))) in
    (response : Hello) × (r : Handshaker) × (i' : Handshaker) × (key : Bytes) × (respond
        toy_primitives [] nonce init
        (start toy_primitives [] (some (6 ∷ [])))
      ≡ (ok response, r))
    × (finalize_initiator toy_primitives response i ≡ (ok tt, i'))
    × IsAgreed toy_primitives i' r key
handshake-IsAgreed_example =
    handshake-IsAgreed toy_primitives [] [] (some (6 ∷ [])) [] nonce [] nonce refl

partial_frame : 0 ∷ 0 ∷ 0 ∷ 1 ∷ 9 ∷ [] ≡ frame (9 ∷ [])
unfolding be_bytes
partial_frame = refl

abbrev waiting : Handshaker
waiting = (initiate toy_primitives [] nonce (start toy_primitives [] none)).1

abbrev reply : Hello
reply = record { sender_pub = []; ephemeral_pub = []; nonce = nonce; signature = nonce }

abbrev finished : Handshaker
finished = (finalize_initiator toy_primitives reply waiting).1

waiting-finished : finalize_initiator toy_primitives reply waiting ≡ (ok tt, finished)
unfolding finalize_initiator check_hello initiate hello new
waiting-finished = refl

decode_frame-stream_example :
    (map encode_frame ((1 ∷ 2 ∷ []) ∷ (3 ∷ []) ∷ [])
      ≡ map (λ p. ok (frame p)) ((1 ∷ 2 ∷ []) ∷ (3 ∷ []) ∷ []))
    × (decode_frame (stream ((1 ∷ 2 ∷ []) ∷ (3 ∷ []) ∷ []) (0 ∷ 0 ∷ []))
        ≡ (ok ((1 ∷ 2 ∷ []) ∷ (3 ∷ []) ∷ []), 0 ∷ 0 ∷ []))
decode_frame-stream_example =
    decode_frame-stream ((1 ∷ 2 ∷ []) ∷ (3 ∷ []) ∷ []) (0 ∷ 0 ∷ [])
      ((omega arith, omega arith), ((omega arith, omega arith), tt))
      (9 ∷ [], 0 ∷ 1 ∷ 9 ∷ [], (omega arith, omega arith), omega arith, partial_frame)
