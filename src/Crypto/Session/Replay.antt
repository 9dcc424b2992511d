-- ===== src/Crypto/Session/Replay.antt =====
-- crates/pim-crypto/src/session.rs: which frames a cipher accepts, and which nonces it issues.
use proximity_internet_mesh.Base.{
  ℕ, ◌^◌, ◌<◌, ◌≡◌, ◌≢◌, ◌⊎◌, inl, inr, refl, ap, subst, arith, Bytes, IsByte, All, Option, none,
  some, Result, ok, err, Result-cases, Bool-cases, List, [], ◌∷◌, length, take, drop, slice,
  be_value, ltb, nat_eq, IsByte-drop,
}
use proximity_internet_mesh.Crypto.Session.{
  Aead, SessionError, EncryptedFrame, SessionCipher, accept_nonce, received, decrypt,
  decrypt_in_place_detached, u64_max,
}

-- What arrives, for either of the two ways to decrypt.
pub data Arrival : Type 0 where
  whole : EncryptedFrame → Arrival
  detached : Bytes → Bytes → Bytes → Arrival

abbrev pub nonce_of : Arrival → Bytes
nonce_of (whole frame) = frame.nonce
nonce_of (detached nonce payload tag) = nonce

abbrev pub counter_of : Bytes → ℕ
counter_of nonce = be_value (slice nonce 8 12)

abbrev pub receive : Aead → SessionCipher → Arrival → Result SessionError Bytes × SessionCipher
receive aead s (whole frame) = decrypt aead s frame
receive aead s (detached nonce payload tag) = decrypt_in_place_detached aead s nonce payload tag

-- The counters of the arrivals that a cipher accepts, in their order.
unfoldable pub accepted : Aead → SessionCipher → List Arrival → List ℕ
accepted aead s [] = []
accepted aead s (m ∷ ms) =
    let (answer, s') = receive aead s m in
    let rest = accepted aead s' ms in
    elim answer [ ok plaintext ↦ counter_of (nonce_of m) ∷ rest | err e ↦ rest ]

abbrev pub IsIncreasing : List ℕ → Type 0
IsIncreasing [] = Unit {0}
IsIncreasing (x ∷ xs) = All (λ y. x < y) xs × IsIncreasing xs

be_value-take : (xs : Bytes) → All IsByte xs → be_value (take 4 xs) < 2 ^ 32
unfolding be_value
be_value-take [] a = omega arith
be_value-take (x ∷ []) (h, a) = omega arith
be_value-take (x ∷ y ∷ []) (h, (k, a)) = omega arith
be_value-take (x ∷ y ∷ z ∷ []) (h, (k, (l, a))) = omega arith
be_value-take (x ∷ y ∷ z ∷ w ∷ xs) (h, (k, (l, (m, a)))) = omega arith

pub counter_of-lt : (nonce : Bytes) → All IsByte nonce → counter_of nonce < 2 ^ 32
unfolding slice
counter_of-lt nonce a = be_value-take (drop 8 nonce) (IsByte-drop 8 nonce a)

-- No frame had been accepted, or its counter was below.
abbrev pub IsBelow : ℕ → ℕ → Type 0
IsBelow last counter = (last ≡ u64_max) ⊎ (last < counter)

accept_nonce-inv :
    (s : SessionCipher) (nonce : Bytes) (counter : ℕ)
    → accept_nonce s nonce ≡ ok counter
    → (counter ≡ counter_of nonce) × IsBelow s.last_recv_counter counter
unfolding accept_nonce
accept_nonce-inv s nonce counter e = elim (Bool-cases (ltb (length nonce) 12)) [
  | inl short ↦ absurd (ground arith)
  | inr long ↦ elim (Bool-cases (nat_eq s.last_recv_counter u64_max)) [
    | inl none_yet ↦ (ground arith, inl (ground arith))
    | inr some_yet ↦ (ground arith, inr (ground arith))
  ]
]

-- Either nothing changes, or the arrival's counter is above the last and becomes the last.
IsStep : SessionCipher → Arrival → Result SessionError Bytes × SessionCipher → Type 0
IsStep s m (err e, s') = s' ≡ s
IsStep s m (ok plaintext, s') =
    (s' ≡ record s { last_recv_counter = counter_of (nonce_of m) })
    × IsBelow s.last_recv_counter (counter_of (nonce_of m))

received-IsStep :
    (s : SessionCipher) (m : Arrival) (counter : ℕ) (answer : Option Bytes)
    → accept_nonce s (nonce_of m) ≡ ok counter
    → IsStep s m (received s counter answer)
unfolding IsStep
received-IsStep s m counter none e = refl
received-IsStep s m counter (some plaintext) e =
    let (same, below) = accept_nonce-inv s (nonce_of m) counter e in
    (
      ap (λ (c : ℕ). record s { last_recv_counter = c }) same,
      subst (IsBelow s.last_recv_counter) same below,
    )

receive-IsStep : (aead : Aead) (s : SessionCipher) (m : Arrival) → IsStep s m (receive aead s m)
unfolding decrypt decrypt_in_place_detached IsStep
receive-IsStep aead s (whole frame) = elim (Result-cases (accept_nonce s frame.nonce)) [
  | inl (counter, e) ↦
      rw (decrypt, e)
        (received-IsStep s (whole frame) counter (aead.unseal s.cipher frame.nonce frame.ciphertext)
          e)
  | inr (x, e) ↦ rw (decrypt, e) refl
]
receive-IsStep aead s (detached nonce payload tag) = elim (Result-cases (accept_nonce s nonce)) [
  | inl (counter, e) ↦
      rw (decrypt_in_place_detached, e)
        (received-IsStep s (detached nonce payload tag) counter
          (aead.unseal_detached s.cipher nonce payload tag) e)
  | inr (x, e) ↦ rw (decrypt_in_place_detached, e) refl
]

below_rest : (x y : ℕ) (zs : List ℕ) → x < y → All (λ z. y < z) zs → All (λ z. x < z) zs
below_rest x y [] h a = tt
below_rest x y (z ∷ zs) h (k, a) = (omega arith, below_rest x y zs h a)

IsBelow-lt : (last counter : ℕ) → IsBelow last counter → last ≢ u64_max → last < counter
IsBelow-lt last counter (inl none_yet) h = absurd (h none_yet)
IsBelow-lt last counter (inr less) h = less

-- What a cipher accepts increases, and is above what it has accepted before.
accepted_after :
    (aead : Aead) (s : SessionCipher) (ms : List Arrival)
    → All (λ m. All IsByte (nonce_of m)) ms
    → IsIncreasing (accepted aead s ms)
      × (s.last_recv_counter ≢ u64_max → All (λ y. s.last_recv_counter < y) (accepted aead s ms))
unfolding accepted IsStep
accepted_after aead s [] bytes = (tt, λ h. tt)
accepted_after aead s (m ∷ ms) (here, bytes) =
    let r = receive aead s m in
    let step = receive-IsStep aead s m in
    let (rest, above) = accepted_after aead r.1 ms bytes in
    let c = counter_of (nonce_of m) in
    let low = counter_of-lt (nonce_of m) here in
    elim (Result-cases r.0) [
      | inr (x, e) ↦
          let same : r.1 ≡ s =
            subst (λ (a : Result SessionError Bytes). IsStep s m (a, r.1)) e step in
          rw (accepted, e)
            (
              rest,
              subst
                  (λ (t : SessionCipher).
                    t.last_recv_counter ≢ u64_max
                    → All (λ y. t.last_recv_counter < y) (accepted aead r.1 ms))
                  same above,
            )
      | inl (p, e) ↦
          let (same, below) =
            subst (λ (a : Result SessionError Bytes). IsStep s m (a, r.1)) e step in
          let last : r.1.last_recv_counter ≡ c =
            ap (λ (t : SessionCipher). t.last_recv_counter) same in
          let more : All (λ y. c < y) (accepted aead r.1 ms) =
            subst (λ (x : ℕ). All (λ y. x < y) (accepted aead r.1 ms)) last
              (above (λ h. omega (arith, last, h))) in
          rw (accepted, e)
            (
              (more, rest),
              λ h.
                  let less = IsBelow-lt s.last_recv_counter c below h in
                  (less, below_rest s.last_recv_counter c (accepted aead r.1 ms) less more),
            )
    ]

-- Of the frames that reach a cipher, whatever they are but that their nonces are bytes, in
-- whatever order and however often, those that it accepts have ever greater counters: it accepts
-- no frame a second time.
pub accepted-IsIncreasing :
    (aead : Aead) (s : SessionCipher) (ms : List Arrival)
    → All (λ m. All IsByte (nonce_of m)) ms
    → IsIncreasing (accepted aead s ms)
accepted-IsIncreasing aead s ms bytes = (accepted_after aead s ms bytes).0
