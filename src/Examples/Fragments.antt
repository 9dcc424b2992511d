-- ===== src/Examples/Fragments.antt =====
-- Fragmentation and reassembly, crates/pim-protocol, at concrete packets.
use proximity_internet_mesh.Base.{
  ℕ_eq, ℕ, zero, suc, ◌+◌, ◌<◌, ◌≡◌, refl, List, [], ◌∷◌, map, arith, Bytes, length, replicate,
  length-replicate, get_elem?, All,
}
use proximity_internet_mesh.Base.Map.{lookup}
use proximity_internet_mesh.Protocol.Fragment.{FragmentFrame, fragment_packet}
use proximity_internet_mesh.Protocol.Fragment.Cut.{IsCut, fragment_packet-IsCut}
use proximity_internet_mesh.Protocol.Reassembler.{new}
use proximity_internet_mesh.Protocol.Reassembler.History.{
  Event, deliveries, IsHonest, IsSound, deliveries-eq,
}
use proximity_internet_mesh.Protocol.Reassembler.History.Event.{arrive, tick}
use proximity_internet_mesh.Protocol.Reassembler.Delivery.{deliveries-fragment_packet}

-- A packet of two fragments.
abbrev packet : Bytes
packet = replicate 1500 0x45

packet_size : length packet ≡ 1500
packet_size = length-replicate {A = ℕ} 1500 0x45

abbrev fragment : FragmentFrame
fragment = record { fragment_id = 7; fragment_offset = 1; total_length = 4; payload = 2 ∷ 3 ∷ [] }

fragment_packet-IsCut_example : All (IsCut packet 7) (fragment_packet packet 7)
fragment_packet-IsCut_example = fragment_packet-IsCut packet 7 (omega (arith, packet_size))

deliveries-fragment_packet_example :
    deliveries new (map (λ f. arrive f 100) (fragment_packet packet 7)) ≡ (7, packet) ∷ []
deliveries-fragment_packet_example =
    deliveries-fragment_packet packet 7 100 new (omega (arith, packet_size))
      (omega (arith, packet_size)) (unfold new lookup in refl)

-- The packet that each identifier stands for.
abbrev packet_of : ℕ → Bytes
packet_of id = 1 ∷ 2 ∷ 3 ∷ 4 ∷ []

abbrev first_fragment : FragmentFrame
first_fragment = record {
  fragment_id = 7;
  fragment_offset = 0;
  total_length = 4;
  payload = 1 ∷ 2 ∷ [];
}

abbrev last_fragment : FragmentFrame
last_fragment = record {
  fragment_id = 7;
  fragment_offset = 1;
  total_length = 4;
  payload = 2 ∷ 3 ∷ 4 ∷ [];
}

-- The last fragment first, a pass of the timer, then the first, which overlaps it.
abbrev history : List Event
history = arrive last_fragment 10 ∷ tick 12 ∷ arrive first_fragment 14 ∷ []

first_matches :
    (i : ℕ) → i < 2 → get_elem? first_fragment.payload i ≡ get_elem? (packet_of 7) (0 + i)
first_matches zero h = refl
first_matches (suc zero) h = refl
first_matches (suc (suc i)) h = absurd (omega arith)

last_matches : (i : ℕ) → i < 3 → get_elem? last_fragment.payload i ≡ get_elem? (packet_of 7) (1 + i)
last_matches zero h = refl
last_matches (suc zero) h = refl
last_matches (suc (suc zero)) h = refl
last_matches (suc (suc (suc i))) h = absurd (omega arith)

history-IsHonest : All (IsHonest packet_of) history
history-IsHonest = (
  record { whole = refl; piece = record { inside = omega arith; bytes_match = last_matches } },
  (
    tt,
    (
      record { whole = refl; piece = record { inside = omega arith; bytes_match = first_matches } },
      tt,
    ),
  ),
)

new-IsSound : IsSound packet_of new
unfolding new lookup
new-IsSound = record { distinct = tt; holds = λ id b e. cc }

deliveries-eq_example : All (λ d. d.1 ≡ packet_of d.0) (deliveries new history)
deliveries-eq_example = deliveries-eq packet_of history new history-IsHonest new-IsSound
