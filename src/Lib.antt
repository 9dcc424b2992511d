-- ===== src/Lib.antt =====
-- A model of a mesh network of nearby devices: the frames that nodes exchange, the handshake and the
-- encrypted sessions, the cutting and reassembly of IP packets, the distance-vector routing table,
-- the gateway's address translation, the messages between nodes, and the daemon's bookkeeping of its
-- peers.
--
-- A node's daemon reads frames from its links (crates/pim-transport), decodes them
-- (crates/pim-protocol) and acts on them: route updates change its routing table
-- (crates/pim-routing), data fragments go to a reassembler, control messages manage peers. The
-- table answers through which neighbour a packet goes, and says what to advertise to each peer. Two
-- peers first run the handshake (crates/pim-crypto), which gives them a session key; from then on
-- their frames pass the ciphers of a session. A gateway translates the packets that leave the mesh
-- to its own address and a port of a pool, and the responses back (crates/pim-gateway). The
-- messaging plugin (crates/pim-messaging) sends texts that only their recipient can decrypt, with
-- the keys of the daemon's peer directory, as control frames that are routed like packets.
--
--   Base: what the other modules share. Buffer has byte strings and big-endian numbers, Map the hash
--     maps as association lists with the tables of SQLite over them, Outcome the type `Result` with
--     `do` blocks.
--   Core: crates/pim-core/src/types.rs and error.rs; MeshAddress is mesh_address.rs, IPv4 only; Hex
--     has the texts of identifiers.
--   Protocol: crates/pim-protocol/src. Transport is frame_type.rs and transport_frame.rs; Control,
--     Data, Handshake, Heartbeat and Route are the files control_frame.rs, data_frame.rs,
--     handshake_frame.rs, heartbeat_frame.rs and route_frame.rs; LengthDelimited is
--     length_delimited.rs, Fragment fragment_frame.rs and Reassembler reassembler.rs.
--   Routing: crates/pim-routing/src/table.rs. Table has the state and the operations that add and
--     remove routes, Update is `apply_update`, Select the queries, Advertise
--     `generate_advertisement`, and Steps the sequences of operations.
--   Daemon: crates/pim-daemon/src. SendBuffer is send_buffer.rs: frames that wait for peers that
--     cannot be reached. Session is session.rs, Reputation reputation.rs, Reconnect reconnect.rs,
--     Authorization auth.rs, PeerDirectory peer_directory.rs, PeerCleanup the sweeps of
--     peer_cleanup, and IdentityBroadcast the handler of identity_broadcast.rs.
--   Crypto: crates/pim-crypto/src. Session is session.rs, Handshake handshake.rs, E2e e2e.rs.
--   Gateway: crates/pim-gateway/src. Checksum and Packet are engine/packet.rs, Ports and Engine are
--     `PortPool` and `GatewayEngine` of engine.rs. `rewrite` of Packet is `rewrite_src` and
--     `rewrite_dst`, which differ in two offsets.
--   Discovery: crates/pim-discovery/src. PeerTable is peer_table.rs, Advertisement
--     advertisement.rs.
--   Messaging: crates/pim-messaging/src. Wire is wire.rs, Storage and Query are storage.rs, Service
--     and Incoming are service.rs and plugin.rs. Steps has the calls in any order, Changes what each
--     writes, and Delivery a message between two nodes.
--   Bluetooth: crates/pim-bluetooth/src/rfcomm/frame.rs.
--   Examples: the theorems at concrete inputs.
--
-- Encoders give the bytes that the source appends to its buffer. Decoders take the buffer and give
-- the frame with what is left of the buffer, or the error; on an error the source leaves the buffer
-- alone. An operation on `&mut self` takes the state and gives the new one after its result.
-- The one slice of the gateway that can be out of bounds, in `recalc_ip_checksum`, has the outcome
-- `panicked`, and the call leaves the state that it had reached.
-- Arithmetic is on natural numbers with the wrap-around of a cast or of a counter written out.
-- Time is an argument, `now`: in nanoseconds in the gateway, elsewhere in the unit of the limits
-- that it is compared with.
--
-- Parameters stand for code of other packages: `Wire` for the integers of the bytes crate,
-- `DataFlags` for the flags of the bitflags crate, `keyed_digest` for the BLAKE3 digest of a node's
-- identifier. UTF-8 validation follows the Unicode standard's table of well-formed sequences.
-- `Aead` stands for AES-256-GCM and `Primitives` for Ed25519, X25519, HKDF and HMAC, each with what
-- its documentation promises of honest use; nothing is assumed of what an attacker can compute.
-- Where they can fail their result is an `Option`. Addresses of sockets and capabilities are type
-- parameters.
--
-- `fragment_loop` runs on fuel, of which the length of the packet is enough: each round takes at
-- least one byte. So does the loop of `decode_frame`, of which a round takes five or more. The loop
-- of `fold_checksum` runs at most twice on a sum of 32 bits, and the loop of `allocate` at most
-- 30000 times, once for each port.
--
-- Not modelled: logging, sockets, tasks, operating system calls, the command line, the configuration
-- files, the gateway's setup of the host, its firewall rules and its IPv6 variant, the mesh secret,
-- signed route updates, the daemon's event loop and its RPC, and failures of the database. A method
-- under a lock, or on an atomic counter, is one step. The order in which a hash map iterates is the
-- order of its list, and no theorem relies on it.
pub mod Base
pub mod Core
pub mod Protocol
pub mod Routing
pub mod Daemon
pub mod Gateway
pub mod Crypto
pub mod Bluetooth
pub mod Discovery
pub mod Messaging
pub mod Examples
