-- ===== src/Crypto/Handshake/Agreement.antt =====
-- crates/pim-crypto/src/handshake.rs: two sides that follow the protocol agree on the session key.
use proximity_internet_mesh.Base.{
  ◌≡◌, refl, sym, ap, ◌∙◌, arith, Bytes, Option, none, some, Result, ok, err, Result-cases,
  Option-cases, inl, inr, [], ◌++◌, length, slice, ==_refl, bytes_eq, append_assoc, slice_past,
  slice_head,
}
use proximity_internet_mesh.Crypto.Handshake.{
  Primitives, Hello, HandshakeError, Handshaker, new, with_mesh_handshake_key, hello, written,
  initiate, check_hello, derive, respond, finalize_initiator, make_confirm, verify_confirm,
}

-- `Handshaker::new`, followed by `with_mesh_handshake_key` in a private mesh.
abbrev pub start : Primitives → Bytes → Option Bytes → Handshaker
start c signing_key none = new c signing_key
start c signing_key (some key) = with_mesh_handshake_key c key (new c signing_key)

-- Both sides have the key and the same transcript, and the responder accepts the confirmation.
pub record IsAgreed (c : Primitives) (i r : Handshaker) (key : Bytes) : Type 0 where
  pub initiator_key : i.session_key ≡ some key
  pub responder_key : r.session_key ≡ some key
  pub same_transcript : i.transcript ≡ r.transcript
  pub confirm : Bytes
  pub made : make_confirm c i ≡ ok confirm
  pub verified : verify_confirm c confirm r ≡ ok tt

module _ (c : Primitives) where
  check_hello-hello :
      (h : Handshaker) (ephemeral nonce : Bytes)
      → h.verifying_key_bytes ≡ c.verifying_key h.signing_key_bytes
      → check_hello c (hello c h ephemeral nonce) ≡ ok tt
  unfolding check_hello hello
  check_hello-hello h ephemeral nonce e =
      rw
        (
          e,
          c.is_public_key-verifying_key h.signing_key_bytes,
          c.verify-sign h.signing_key_bytes (c.public_key ephemeral ++ nonce),
        )
        refl

  -- The nonce of the initiator is where `finalize_initiator` reads it.
  slice-written :
      (m : Hello) (rest : Bytes)
      → length m.sender_pub ≡ 32
      → length m.ephemeral_pub ≡ 32
      → length m.nonce ≡ 32
      → slice (written c m ++ rest) 64 96 ≡ m.nonce
  slice-written m rest e f g =
      rw
        (
          append_assoc m.sender_pub (m.ephemeral_pub ++ m.nonce) rest,
          append_assoc m.ephemeral_pub m.nonce rest,
        )
        (slice_past m.sender_pub (m.ephemeral_pub ++ (m.nonce ++ rest)) 32 32 64 e
          ∙ slice_past m.ephemeral_pub (m.nonce ++ rest) 32 0 32 f
          ∙ slice_head m.nonce rest 32 g)

  confirmed :
      (i r : Handshaker) (key : Bytes)
      → i.session_key ≡ some key
      → r.session_key ≡ some key
      → i.transcript ≡ r.transcript
      → IsAgreed c i r key
  unfolding make_confirm verify_confirm
  confirmed i r key e f t = record {
    initiator_key = e;
    responder_key = f;
    same_transcript = t;
    confirm = c.hmac key i.transcript;
    made = rw (make_confirm, e) refl;
    verified = rw (verify_confirm, f, t, ==_refl (c.hmac key r.transcript)) refl;
  }

  -- Two handshakers that are not yet used and share what `with_mesh_handshake_key` sets, or its
  -- absence.
  pub record IsFresh (h : Handshaker) (mesh : Option Bytes) : Type 0 where
    pub own_key : h.verifying_key_bytes ≡ c.verifying_key h.signing_key_bytes
    pub no_transcript : h.transcript ≡ []
    pub mesh_key : h.mesh_handshake_key ≡ mesh

  start-IsFresh :
      (signing_key : Bytes) (mesh : Option Bytes) → IsFresh (start c signing_key mesh) mesh
  unfolding new with_mesh_handshake_key
  start-IsFresh signing_key none = record { own_key = refl; no_transcript = refl; mesh_key = refl }
  start-IsFresh signing_key (some key) = record {
    own_key = refl;
    no_transcript = refl;
    mesh_key = refl;
  }

  module _ (a b : Handshaker) (mesh : Option Bytes) (ei ni er nr : Bytes) (fa : IsFresh a mesh)
      (fb : IsFresh b mesh) (size : length ni ≡ 32) where
    abbrev init : Hello
    init = hello c a ei ni

    abbrev response : Hello
    response = hello c b er nr

    abbrev initiated : Handshaker
    initiated = (initiate c ei ni a).1

    abbrev key : Bytes
    key = derive c mesh ni nr (c.diffie_hellman er (c.public_key ei))

    respond-ok : respond c er nr init b ≡ (ok response, (respond c er nr init b).1)
    unfolding respond
    respond-ok = rw (respond, check_hello-hello a ei ni fa.own_key) refl

    finalize-ok :
        finalize_initiator c response initiated
        ≡ (ok tt, (finalize_initiator c response initiated).1)
    unfolding finalize_initiator initiate
    finalize-ok = rw (finalize_initiator, check_hello-hello b er nr fb.own_key) refl

    responder_key : (respond c er nr init b).1.session_key ≡ some key
    unfolding respond hello
    responder_key = rw (respond, check_hello-hello a ei ni fa.own_key, fb.mesh_key) refl

    init_nonce : slice ((a.transcript ++ written c init) ++ written c response) 64 96 ≡ ni
    unfolding hello
    init_nonce = rw fa.no_transcript (
        slice-written init (written c response)
          (ap length fa.own_key ∙ c.length-verifying_key a.signing_key_bytes)
          (c.length-public_key ei) size)

    initiator_key : (finalize_initiator c response initiated).1.session_key ≡ some key
    unfolding finalize_initiator initiate hello
    initiator_key =
        rw
          (
            finalize_initiator,
            check_hello-hello b er nr fb.own_key,
            init_nonce,
            fa.mesh_key,
            c.diffie_hellman_comm ei er,
          )
          refl

    same_transcript :
        (finalize_initiator c response initiated).1.transcript
        ≡ (respond c er nr init b).1.transcript
    unfolding finalize_initiator initiate respond
    same_transcript =
        rw
          (
            finalize_initiator,
            respond,
            check_hello-hello b er nr fb.own_key,
            check_hello-hello a ei ni fa.own_key,
            fa.no_transcript,
            fb.no_transcript,
          )
          refl

    agreed : IsAgreed c (finalize_initiator c response initiated).1 (respond c er nr init b).1 key
    agreed = confirmed _ _ key initiator_key responder_key same_transcript

  -- Two nodes of one mesh, open or private, whose messages arrive as they were sent, with a
  -- nonce of 32 bytes from the initiator: each step succeeds, and the sides agree on the session
  -- key and the responder accepts the initiator's confirmation.
  pub handshake-IsAgreed :
      (initiator responder : Bytes) (mesh : Option Bytes) (ei ni er nr : Bytes)
      → length ni ≡ 32
      → let (init, i) = initiate c ei ni (start c initiator mesh) in
        (response : Hello) × (r : Handshaker) × (i' : Handshaker) × (key : Bytes) × (respond c er nr
            init
            (start c responder mesh)
          ≡ (ok response, r))
        × (finalize_initiator c response i ≡ (ok tt, i'))
        × IsAgreed c i' r key
  unfolding initiate
  handshake-IsAgreed initiator responder mesh ei ni er nr size =
      let a = start c initiator mesh in
      let b = start c responder mesh in
      let fa = start-IsFresh initiator mesh in
      let fb = start-IsFresh responder mesh in
      (
        hello c b er nr,
        (respond c er nr (hello c a ei ni) b).1,
        (finalize_initiator c (hello c b er nr) (initiate c ei ni a).1).1,
        derive c mesh ni nr (c.diffie_hellman er (c.public_key ei)),
        respond-ok a b mesh ei ni er nr fa fb size,
        finalize-ok a b mesh ei ni er nr fa fb size,
        agreed a b mesh ei ni er nr fa fb size,
      )

  abbrev second_secret : Result HandshakeError (Unit {0}) × Handshaker → Option Bytes
  second_secret o = o.1.ephemeral_secret

  spent :
      (m : Hello) (h : Handshaker) (u : Unit {0}) (s : Bytes)
      → check_hello c m ≡ ok u
      → h.ephemeral_secret ≡ some s
      → second_secret (finalize_initiator c m h) ≡ none
  unfolding finalize_initiator
  spent m h u s good there = rw (finalize_initiator, good, there) refl

  -- The ephemeral secret serves once: after a response has been accepted, and until the next
  -- `initiate`, every response is refused, and changes nothing.
  pub finalize_initiator-once :
      (m m' : Hello) (h h' : Handshaker)
      → finalize_initiator c m h ≡ (ok tt, h')
      → (e : HandshakeError) × (finalize_initiator c m' h' ≡ (err e, h'))
  unfolding finalize_initiator
  finalize_initiator-once m m' h h' done = elim (Result-cases (check_hello c m)) [
    | inr (x, bad) ↦ absurd (ground arith)
    | inl (u, good) ↦ elim (Option-cases h.ephemeral_secret) [
      | inl none_left ↦ absurd (ground arith)
      | inr (s, there) ↦
          let gone = sym (ap second_secret done) ∙ spent m h u s good there in
          elim (Result-cases (check_hello c m')) [
            | inr (x, bad) ↦ (x, rw (finalize_initiator, bad) refl)
            | inl (v, fine) ↦ (HandshakeError.invalid_state, ground arith)
          ]
    ]
  ]
