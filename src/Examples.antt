-- ===== src/Examples.antt =====
-- The theorems at concrete inputs: the wire formats and the routing table of a small mesh.
mod Frames
mod Fragments
mod Tables
mod Buffers
mod Packets
mod Nat
mod Sessions
mod Messages
mod Directory
mod Peers
