-- ===== src/Daemon/Session/Link.antt =====
-- crates/pim-daemon/src/session.rs: two sessions at the ends of a link that may lose frames.
use proximity_internet_mesh.Base.{
  ℕ, ◌+◌, ◌≤◌, ◌<◌, ◌≡◌, inl, inr, refl, ap, ◌∙◌, arith, Bytes, Bool, true, false, some, Result, ok,
  err, List, [], ◌∷◌, All, length, map,
}
use proximity_internet_mesh.Protocol.Transport.{FrameType, TransportFrame}
use proximity_internet_mesh.Crypto.Session.{
  Aead, SessionError, build_nonce, max_nonce_counter, count_up,
}
use proximity_internet_mesh.Crypto.Session.Replay.{IsBelow}
use proximity_internet_mesh.Crypto.Session.Exchange.{decrypt-encrypt_in_place}
use proximity_internet_mesh.Daemon.Session.{Session, framed, unframed, encrypt_frame, decrypt_frame}

abbrev pub payload_of : Result SessionError TransportFrame → Result SessionError Bytes
payload_of (ok frame) = ok frame.payload
payload_of (err e) = err e

-- One end sends the payloads, of which each is marked with whether its frame arrives; what the other
-- end gets of those that do. A payload that is not encrypted counts as arriving with the error.
unfoldable pub transmit :
    Aead → Session → Session → List (Bytes × Bool) → List (Result SessionError Bytes)
unfolding encrypt_frame decrypt_frame
transmit aead a b [] = []
transmit aead a b ((payload, false) ∷ ps) = transmit aead (encrypt_frame aead a payload).1 b ps
transmit aead a b ((payload, true) ∷ ps) =
    let (answer, a') = encrypt_frame aead a payload in
    elim answer [
      | err e ↦ err e ∷ transmit aead a' b ps
      | ok frame ↦
          let (got, b') = decrypt_frame aead b frame in payload_of got ∷ transmit aead a' b' ps
    ]

abbrev pub arriving : List (Bytes × Bool) → List Bytes
arriving [] = []
arriving ((payload, true) ∷ ps) = payload ∷ arriving ps
arriving ((payload, false) ∷ ps) = arriving ps

-- The cipher takes the payload, whatever the nonce.
abbrev pub IsSealable : Aead → Bytes → Bytes → Type 0
IsSealable aead key payload =
    (nonce : Bytes)
    → (sealed : Bytes) × (tag : Bytes) × (aead.seal_detached key nonce payload ≡ some (sealed, tag))

-- Two ends with one key, of which the receiver has accepted no frame that the sender is yet to send.
pub record IsPaired (a b : Session) : Type 0 where
  pub prefix : length a.send.nonce_prefix ≡ 8
  pub key : a.send.cipher ≡ b.recv.cipher
  pub below : IsBelow b.recv.last_recv_counter a.send.counter

abbrev sent : Session → Session
sent a = record a { send = count_up a.send }

abbrev got : Session → ℕ → Session
got b c = record b { recv = record b.recv { last_recv_counter = c } }

sent-IsPaired :
    (a b : Session) → a.send.counter < max_nonce_counter → IsPaired a b → IsPaired (sent a) b
sent-IsPaired a b h p = record {
  prefix = p.prefix;
  key = p.key;
  below = elim p.below [ inl none_yet ↦ inl none_yet | inr less ↦ inr (omega arith) ];
}

got-IsPaired : (a b : Session) (c : ℕ) → c < a.send.counter → IsPaired a b → IsPaired a (got b c)
got-IsPaired a b c h p = record { prefix = p.prefix; key = p.key; below = inr h }

-- One payload, from end to end.
exchanged :
    (aead : Aead) (a b : Session) (payload : Bytes)
    → IsPaired a b
    → a.send.counter < max_nonce_counter
    → IsSealable aead a.send.cipher payload
    → (frame : TransportFrame) × (encrypt_frame aead a payload ≡ (ok frame, sent a))
      × (decrypt_frame aead b frame
          ≡ (ok (record frame { payload = payload }), got b a.send.counter))
unfolding encrypt_frame decrypt_frame
exchanged aead a b payload p room sealable =
    let (sealed, tag, done) = sealable (build_nonce a.send a.send.counter) in
    let (out, back) =
      decrypt-encrypt_in_place aead a.send b.recv payload sealed tag p.prefix p.key room p.below
        done in
    let frame : TransportFrame = record {
      frame_type = FrameType.data_frame;
      nonce = build_nonce a.send a.send.counter;
      payload = sealed;
      tag = tag;
    } in
    (frame, ap (framed a) out, ap (unframed b frame) back)

abbrev first : Result SessionError TransportFrame × Session → Result SessionError TransportFrame
first o = o.0

abbrev second : Result SessionError TransportFrame × Session → Session
second o = o.1

-- Between two ends with one key, the receiver having accepted no frame that is yet to be sent,
-- over a link that keeps the order and loses frames, as long as the nonces last and the cipher
-- takes the payloads: the receiver gets the payloads of all frames that arrive, as they were
-- sent.
pub transmit-arriving :
    (aead : Aead) (a b : Session) (ps : List (Bytes × Bool))
    → IsPaired a b
    → a.send.counter + length ps ≤ max_nonce_counter
    → All (λ p. IsSealable aead a.send.cipher p.0) ps
    → transmit aead a b ps ≡ map ok (arriving ps)
unfolding transmit
transmit-arriving aead a b [] p room seals = refl
transmit-arriving aead a b ((payload, false) ∷ ps) p room (here, seals) =
    let (frame, out, back) = exchanged aead a b payload p (omega arith) here in
    ap (λ (o : Result SessionError TransportFrame × Session). transmit aead o.1 b ps) out
    ∙ transmit-arriving aead (sent a) b ps (sent-IsPaired a b (omega arith) p) (omega arith) seals
transmit-arriving aead a b ((payload, true) ∷ ps) p room (here, seals) =
    let (frame, out, back) = exchanged aead a b payload p (omega arith) here in
    rw (transmit, ap first out, ap second out, ap first back, ap second back)
      (ap (◌∷◌ (ok payload)) (
        transmit-arriving aead (sent a) (got b a.send.counter) ps
          (got-IsPaired (sent a) b a.send.counter (omega arith) (sent-IsPaired a b (omega arith) p))
          (omega arith) seals))
