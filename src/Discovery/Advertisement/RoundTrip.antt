-- ===== src/Discovery/Advertisement/RoundTrip.antt =====
-- crates/pim-discovery/src/advertisement.rs: an advertisement is read back from its packet.
use native.Mathlib.Omega.{arith}
use proximity_internet_mesh.Base.{
  ℕ, ◌<◌, ◌≡◌, refl, sym, ap, ◌∙◌, Bytes, false, some, List, [], ◌∷◌, ◌++◌, length, slice, be_bytes,
  ltb, bytes_eq, Fits, concat, length-concat, slice-field, byte_at-concat, be_value-be_bytes,
  length-be_bytes, append-nil, slice_head, Option-cases, inl, inr,
}
use proximity_internet_mesh.Crypto.Session.{Aead}
use proximity_internet_mesh.Discovery.Advertisement.{
  magic, version, encrypted_version, DiscoveryAdvertisement, plaintext_bytes, serialize,
  serialize_encrypted, deserialize_plaintext_payload, deserialize, deserialize_encrypted,
}

-- An advertisement with an identifier, a key and a port of their sizes.
pub record IsValid (a : DiscoveryAdvertisement) : Type 0 where
  pub node_id : length a.node_id ≡ 16
  pub public_key : length a.public_key ≡ 32
  pub port : a.listen_port < 65536

abbrev fields : DiscoveryAdvertisement → List Bytes
fields a =
    magic
    ∷ (version ∷ [])
    ∷ a.node_id
    ∷ a.public_key
    ∷ (a.capabilities ∷ [])
    ∷ be_bytes 2 a.listen_port
    ∷ []

abbrev widths : List ℕ
widths = 4 ∷ 1 ∷ 16 ∷ 32 ∷ 1 ∷ 2 ∷ []

fields-Fits : (a : DiscoveryAdvertisement) → IsValid a → Fits (fields a) widths
fields-Fits a v =
    (refl, (refl, (v.node_id, (v.public_key, (refl, (length-be_bytes 2 a.listen_port, tt))))))

deserialize_plaintext_payload-concat :
    (a : DiscoveryAdvertisement) (rest : Bytes)
    → IsValid a
    → deserialize_plaintext_payload (concat (fields a) ++ rest) ≡ some a
unfolding deserialize_plaintext_payload
deserialize_plaintext_payload-concat a rest v =
    let fs = fields a in
    let fit = fields-Fits a v in
    let size = length-concat fs widths rest fit in
    let long : ltb (length (concat fs ++ rest)) 56 ≡ false = ground arith in
    rw
      (
        long,
        slice-field fs widths rest 2 5 21 fit (omega arith) (omega arith),
        slice-field fs widths rest 3 21 53 fit (omega arith) (omega arith),
        byte_at-concat fs widths rest 4 a.capabilities fit (omega arith) refl,
        slice-field fs widths rest 5 54 56 fit (omega arith) (omega arith),
        be_value-be_bytes 2 a.listen_port (let p = v.port in omega arith),
      )
      refl

length-plaintext : (a : DiscoveryAdvertisement) → IsValid a → length (concat (fields a)) ≡ 56
length-plaintext a v =
    ap length (sym (append-nil (concat (fields a))))
    ∙ length-concat (fields a) widths [] (fields-Fits a v)

payload-plaintext :
    (a : DiscoveryAdvertisement)
    → IsValid a
    → deserialize_plaintext_payload (concat (fields a)) ≡ some a
payload-plaintext a v =
    ap deserialize_plaintext_payload (sym (append-nil (concat (fields a))))
    ∙ deserialize_plaintext_payload-concat a [] v

-- A valid advertisement is read back from its packet, whatever follows it.
pub deserialize-serialize :
    (a : DiscoveryAdvertisement) (rest : Bytes)
    → IsValid a
    → deserialize (serialize a ++ rest) ≡ some a
unfolding deserialize serialize plaintext_bytes
deserialize-serialize a rest v =
    let fs = fields a in
    let fit = fields-Fits a v in
    let size = length-concat fs widths rest fit in
    let long : ltb (length (concat fs ++ rest)) 56 ≡ false = ground arith in
    let front : slice (concat fs ++ rest) 0 56 ≡ concat fs =
      slice_head (concat fs) rest 56 (length-plaintext a v) in
    let read : deserialize (concat fs ++ rest)
        ≡ deserialize_plaintext_payload (slice (concat fs ++ rest) 0 56) =
      rw (deserialize, long) refl in
    read ∙ ap deserialize_plaintext_payload front ∙ payload-plaintext a v

abbrev sealed_fields : Bytes → Bytes → Bytes → List Bytes
sealed_fields nonce sealed tag = magic ∷ (encrypted_version ∷ []) ∷ nonce ∷ sealed ∷ tag ∷ []

deserialize_encrypted-concat :
    (aead : Aead) (key nonce sealed tag rest plaintext : Bytes)
    → length nonce ≡ 12
    → length sealed ≡ 56
    → length tag ≡ 16
    → aead.unseal_detached key nonce sealed tag ≡ some plaintext
    → deserialize_encrypted aead (concat (sealed_fields nonce sealed tag) ++ rest) key
      ≡ deserialize_plaintext_payload plaintext
unfolding deserialize_encrypted
deserialize_encrypted-concat aead key nonce sealed tag rest plaintext n s t back =
    let fs = sealed_fields nonce sealed tag in
    let ws : List ℕ = 4 ∷ 1 ∷ 12 ∷ 56 ∷ 16 ∷ [] in
    let fit : Fits fs ws = (refl, (refl, (n, (s, (t, tt))))) in
    let size = length-concat fs ws rest fit in
    let long : ltb (length (concat fs ++ rest)) 89 ≡ false = ground arith in
    rw
      (
        long,
        slice-field fs ws rest 2 5 17 fit (omega arith) (omega arith),
        slice-field fs ws rest 3 17 73 fit (omega arith) (omega arith),
        slice-field fs ws rest 4 73 89 fit (omega arith) (omega arith),
        back,
      )
      refl

-- A valid advertisement that is sealed under a key, with a nonce of 12 bytes, is read back with the
-- same key, whatever follows the packet.
pub deserialize_encrypted-serialize_encrypted :
    (aead : Aead) (key nonce packet rest : Bytes) (a : DiscoveryAdvertisement)
    → IsValid a
    → length nonce ≡ 12
    → serialize_encrypted aead key nonce a ≡ some packet
    → deserialize_encrypted aead (packet ++ rest) key ≡ some a
unfolding serialize_encrypted plaintext_bytes
deserialize_encrypted-serialize_encrypted aead key nonce packet rest a v n made =
    elim (Option-cases (aead.seal_detached key nonce (concat (fields a)))) [
      | inl e ↦ absurd (let gone = rw (serialize_encrypted, e) at made in cc)
      | inr ((sealed, tag), e) ↦
          let same : some (concat (sealed_fields nonce sealed tag)) ≡ some packet =
            rw (serialize_encrypted, e) at made in
          let frame : concat (sealed_fields nonce sealed tag) ≡ packet = cc in
          rw (← frame) (
            deserialize_encrypted-concat aead key nonce sealed tag rest (concat (fields a)) n
              (aead.length-sealed key nonce (concat (fields a)) sealed tag e ∙ length-plaintext a v)
              (aead.length-tag key nonce (concat (fields a)) sealed tag e)
              (aead.unseal-seal_detached key nonce (concat (fields a)) sealed tag e)
            ∙ payload-plaintext a v)
    ]
