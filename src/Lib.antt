-- ===== src/Lib.antt =====
-- Verification of the Rust side of the galaxIA SDK: the `fhs` crate of rust/fhs, which gives a node
-- of the network its protocol, its peer-to-peer stack and what its users authorise; and of the WASM
-- capabilities of a satellite.
--
-- The parts, and how they interact. A stream from a peer is admitted by the limiter
-- (rust/fhs/src/p2p/limits.rs, Limits), read frame by frame within a decode budget shared by the
-- node (rust/fhs/src/p2p/framing.rs, Framing), and each frame is an Envelope whose signature is
-- checked before it counts. What a user agrees to is bound by digests over canonical bytes
-- (rust/fhs/src/authorization.rs, Authorization) of the messages of the protocol
-- (rust/fhs/proto/fhs-protocol.proto, Protocol). What providers announce is kept in a cache
-- (rust/fhs/src/p2p/peer_cache.rs, PeerCache), which the table of chat commands is built from
-- (rust/fhs/src/commands.rs, Commands); a mission is offered, bid for and assigned
-- (rust/fhs/src/p2p/mission.rs, Mission). The messages of all this are signed and checked
-- (rust/fhs/src/signing.rs, Signing; rust/fhs/src/p2p/wire.rs, Wire) with the key of the node's DID
-- (rust/fhs/src/p2p/identity.rs, Identity). The node (rust/fhs/src/p2p/node.rs, Node) takes them from
-- the network into the cache and the windows for bids; a client runs a mission over it from end to
-- end (rust/fhs/src/p2p/client.rs, Client), and a provider bids and answers
-- (rust/fhs/src/p2p/provider.rs, Provider). Files go through a local IPFS node
-- (rust/fhs/src/ipfs.rs, Ipfs).
--
-- How the code is modelled. A struct is a record, an enum a data type, a `HashMap` an association
-- list read with `get`, a `str` the list of its code points with its UTF-8 by `as_bytes` (Text), an
-- `i64` an integer, a float its bit pattern. A method on `&mut self` or behind a mutex takes a state
-- and returns the next; a `Result` is a result. Concurrent callers are steps of a relation, one
-- atomic operation each (Limits/Reach, Framing/Budget/Tasks).
--
-- Limits: `StreamLimiter::try_admit` is `try_admit`, `Drop for StreamPermit` is `drop`, whose
--   `none` is a subtraction below 0.
-- Framing: a `Stream` is the bytes still to be read and how it ends. `read_varint`, `read_frame`
--   and `read_verified` have the names of the source. The loop of `read_varint` has the ten shifts
--   of the source; that of `read_verified` has fuel 5, one for each invalid frame that it counts,
--   since the fifth one ends it; the end of the fuel is an error of its own, `out_of_rounds`.
--   `reserve` is split at its atomic operations (Framing/Budget); its semaphore is tokio's, a parameter with laws.
-- Authorization: `framed`, `push_len`, `push_bytes`, `encode_value`, `chunks_digest`,
--   `batch_digest` and the rest have the names of the source; the bytes that the source appends to
--   a buffer are returned. The fields of an item that the digest of a batch covers are stated apart
--   from its bytes (Authorization/Batch). SHA-256 is a parameter: a statement about two digests has a collision as
--   its other outcome. `print_ℤ` has fuel for 20 digits, enough for 64 bits.
-- PeerCache: the map from DIDs to `PeerEntry`, with `upsert_at`, `live`, `get_at` and the rest under
--   the names of the source (`lookup` is `get`); each takes the time of the clock. A sum that the
--   source does not check wraps at 64 bits, as in a release build. The read lock and the write lock of
--   `upsert_at` are taken as one step.
-- Mission: `select_winning_bid` with `min_by` as a fold that keeps the first of equals, the filter
--   of allowed providers, and `run_mission_cycle`, whose result is what it publishes and the winner.
-- Commands: the checks of texts (Commands), the closed registry (Commands/Registry), the validation
--   of descriptors (Commands/Descriptors), the grammar of a line (Commands/Grammar), the results of nodes
--   (Commands/Outcome; what a line is cut into and what its values are is described in
--   Commands/Grammar/Tokens, Values and Numbers) and the table of commands in force (Commands/Table). An error is a
--   constructor with the values its message shows. The test of Unicode categories, the codec of
--   prost, serde's reader of the registry and the parser of floats are parameters. A command table
--   is an `Option`, whose `none` is an index or an `expect` that fails.
-- Signing: the signed texts have the names of the source; `raw_envelope_payload` is a loop on fuel,
--   and the length of its input is enough (Signing/Raw/Scan). Ed25519, base58, SHA-256 and
--   hexadecimal are the record `Crypto`; the readers and writers of prost are records with the laws
--   that a statement uses (`Consumes`, `Prefix`, `Writer`).
-- Wire: `own_advertise` and the other messages that a node signs are those of `signed_…` before they
--   are encoded; `verified_…` and `sealed_envelope` have the names of the source.
-- Identity: `load_or_create` takes the state of the file and a fresh key pair and returns the
--   identity and what it writes.
-- Node: `BidCollector::collect` is split at its lock into `open_window`, the test of the loop and
--   `close_window` (Node/Collector), with a function from missions to windows as its specification.
--   The actor is a record (Node/State); `handle_event`, `handle_command`, `handle_gossip` and
--   `replay_advertises` return the next one and the effects, which are what it sends to the swarm,
--   to callers and to other tasks. Node/Reach is the relation of its steps, which a swarm's promises
--   on the ids of connections restrict. `bootstrap_turn` is one turn of `bootstrap_loop`;
--   Node/Loops runs `advertise_loop` and `dht_beacon_loop` between calls of `set_advertise_beacon`, and
--   Node/Handle is what other tasks ask of the node.
-- Client: `dial_provider` returns its result and the addresses dialled; `chat` and `call_tool` return
--   what was written to which peer, and the outcome. A list of received envelopes that ends before
--   the answer is a wait that the time limit ends.
-- Provider: `run_stream` over the messages received and the outcomes of its writes, and `bid_turn`,
--   one turn of `bid_loop`. Provider/Serving is the loop of `serve` over streams that come in and tasks
--   that end, on the state of Limits.
-- Ipfs: `parse_api_url` and the client with its calls (Ipfs/Api reads the answers); the HTTP exchange
--   and the decoding of JSON are parameters.
-- Dynamic: the arguments and results of tools between JSON and values (rust/fhs/src/p2p/dynamic.rs).
--   JSON is the documented data type of serde_json, an object the list of its entries in the order
--   of their keys; base64 and the conversions of doubles are parameters.
-- Curp: the Mexican population key of packages/satellite-capabilities-wasm/src/lib.rs, which a
--   satellite computes from the fields of a person (Curp/Compute) and checks (`validate_curp`).
-- Calculator: `solve_expression` of the same file, from the text over the tokens to the value.
--   Calculator/Syntax is the grammar it is measured by. A round of the tokenizer costs a unit of fuel
--   and takes a character; the parser gets six units for a token, since a call takes six at most
--   before it takes a token (Calculator/Fuel, Calculator/Accepts). The arithmetic of doubles and the
--   reading of a decimal are parameters; the tests for zero and for finite values and the change of
--   sign are those of the bit patterns.
--
-- Not modelled: sockets, timers and the scheduler, of which only the order of steps is kept; TLS
-- material and the building of the swarm; the waits of the loops of the node; the codec
-- that prost generates; the vendored rust/vendor/libp2p-websocket; the TypeScript packages and apps.
pub mod Prelude
pub mod Limits
pub mod Text
pub mod Protocol
pub mod Authorization
pub mod Framing
pub mod PeerCache
pub mod Mission
pub mod Commands
pub mod Curp
pub mod Signing
pub mod Identity
pub mod Wire
pub mod Node
pub mod Client
pub mod Provider
pub mod Ipfs
pub mod Dynamic
pub mod Calculator
pub mod Tests
