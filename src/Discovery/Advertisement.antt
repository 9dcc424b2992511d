-- ===== src/Discovery/Advertisement.antt =====
-- crates/pim-discovery/src/advertisement.rs: the packets by which nodes announce themselves, in the
-- clear or under the discovery key. AES-256-GCM is the parameter of the sessions; the random nonce
-- is an argument, and the panic where sealing fails is `none`.
pub mod RoundTrip
use native.Mathlib.Omega.{arith}
use proximity_internet_mesh.Base.{
  ℕ, ◌/◌, ◌%◌, ◌<◌, ◌≡◌, refl, sym, ap, ◌∙◌, Bytes, Bool, false, not, Option, none, some, List, [],
  ◌∷◌, ◌++◌, length, slice, byte_at, be_value, be_bytes, ltb, nat_eq, ◌==◌, bytes_eq, if◌then◌else◌,
  Fits, concat, length-concat, slice-field, byte_at-concat, be_value-be_bytes, length-be_bytes,
  append-nil, slice_head, Option-cases, inl, inr,
}
use proximity_internet_mesh.Core.{NodeId}
use proximity_internet_mesh.Crypto.Session.{Aead}

-- "PIMD"
abbrev pub magic : Bytes
magic = 80 ∷ 73 ∷ 77 ∷ 68 ∷ []

abbrev pub version : ℕ
version = 1

abbrev pub encrypted_version : ℕ
encrypted_version = 2

abbrev packet_size : ℕ
packet_size = 56

abbrev encrypted_packet_size : ℕ
encrypted_packet_size = 89

-- `NodeCapabilities`, its bits below 256.
abbrev pub NodeCapabilities : Type 0
NodeCapabilities = ℕ

abbrev pub client : NodeCapabilities
client = 1

abbrev pub relay : NodeCapabilities
relay = 3

abbrev pub gateway : NodeCapabilities
gateway = 7

abbrev pub is_client : NodeCapabilities → Bool
is_client bits = not (nat_eq (bits % 2) 0)

abbrev pub is_relay : NodeCapabilities → Bool
is_relay bits = not (nat_eq (bits / 2 % 2) 0)

abbrev pub is_gateway : NodeCapabilities → Bool
is_gateway bits = not (nat_eq (bits / 4 % 2) 0)

pub record DiscoveryAdvertisement : Type 0 where
  pub node_id : NodeId
  pub public_key : Bytes
  pub capabilities : NodeCapabilities
  pub listen_port : ℕ

unfoldable pub plaintext_bytes : DiscoveryAdvertisement → Bytes
unfolding be_bytes
plaintext_bytes a = concat (
    magic
    ∷ (version ∷ [])
    ∷ a.node_id
    ∷ a.public_key
    ∷ (a.capabilities ∷ [])
    ∷ be_bytes 2 a.listen_port
    ∷ [])

unfoldable pub serialize : DiscoveryAdvertisement → Bytes
unfolding plaintext_bytes
serialize a = plaintext_bytes a

unfoldable pub serialize_encrypted :
    Aead → (key nonce : Bytes) → DiscoveryAdvertisement → Option Bytes
unfolding plaintext_bytes
serialize_encrypted aead key nonce a = elim (aead.seal_detached key nonce (plaintext_bytes a)) [
  | none ↦ none
  | some (sealed, tag) ↦
      some (concat (magic ∷ (encrypted_version ∷ []) ∷ nonce ∷ sealed ∷ tag ∷ []))
]

unfoldable pub deserialize_plaintext_payload : Bytes → Option DiscoveryAdvertisement
unfolding slice byte_at be_value
deserialize_plaintext_payload buf =
    if ltb (length buf) packet_size
    then none
    else some (record {
      node_id = slice buf 5 21;
      public_key = slice buf 21 53;
      capabilities = byte_at buf 53;
      listen_port = be_value (slice buf 54 56);
    })

unfoldable pub deserialize : Bytes → Option DiscoveryAdvertisement
unfolding slice byte_at deserialize_plaintext_payload
deserialize buf =
    if ltb (length buf) packet_size
    then none
    else if not (slice buf 0 4 == magic)
    then none
    else if not (nat_eq (byte_at buf 4) version)
    then none
    else deserialize_plaintext_payload (slice buf 0 packet_size)

abbrev pub opened : Option Bytes → Option DiscoveryAdvertisement
opened none = none
opened (some plaintext) = deserialize_plaintext_payload plaintext

unfoldable pub deserialize_encrypted : Aead → Bytes → Bytes → Option DiscoveryAdvertisement
unfolding slice byte_at deserialize_plaintext_payload
deserialize_encrypted aead buf key =
    if ltb (length buf) encrypted_packet_size
    then none
    else if not (slice buf 0 4 == magic)
    then none
    else if not (nat_eq (byte_at buf 4) encrypted_version)
    then none
    else opened (aead.unseal_detached key (slice buf 5 17) (slice buf 17 73) (slice buf 73 89))
