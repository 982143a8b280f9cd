-- ===== src/Lib.antt =====
-- A verification library for rs-toxcore-c. Its transport is the crate tox-sequenced: messages are
-- cut into fragments, sent over a lossy link by several priorities, acknowledged selectively, and
-- put together again by the receiver within a budget of memory. Beside it stands the table of the
-- crate tox-reconcile by which two peers find the difference of their sets of node hashes, and of
-- the crate merkle-tox-core, the graph of signed nodes that is a conversation: the rules that a node
-- has to keep, who may act for whom, the keys of its messages, and objects that are fetched in chunks.
--
-- The parts, from the bottom up, each with the file of the repository that it models:
--   Prelude     tests on numbers, lists, and plain descriptions of searches; no code of its own
--   Word        the `u64` operations that the code uses: shifts, masks, leading and trailing zeros
--   BitSet      tox-sequenced/src/bitset.rs: `BitSet<N>`, word by word as in the code
--   Protocol    tox-sequenced/src/protocol.rs and error.rs: numbers, priorities, packets
--   Reassembly  tox-sequenced/src/reassembly/buffer.rs: `FragmentBuffer`; its child Message models
--               reassembly/mod.rs: `MessageReassembler`
--   Outgoing    tox-sequenced/src/outgoing.rs: `OutgoingMessage`; its child Acks models `on_ack` and
--               what it calls, the loss detection and the flight queue included
--   Quota       tox-sequenced/src/quota.rs: `ReassemblyQuota`, an atomic counter
--   FlatMap     tox-sequenced/src/flat_map.rs: `FlatMap`, a vector of pairs
--   Scheduler   tox-sequenced/src/scheduler.rs: `PriorityScheduler`, a deficit round robin
--   Sketch      tox-reconcile/src/iblt.rs: `IbltSketch`, the table by which peers compare sets
--   Rtt         tox-sequenced/src/rtt.rs: `RttEstimator`
--   Session     tox-sequenced/src/session.rs: `SequenceSession`, which drives the parts above, and the
--               trait of congestion/mod.rs. Its children: Admission (duplicates, priorities, the
--               reservation for a message), Receive (`handle_data_packet`), Send (`send_message`,
--               `handle_ack_packet`, `handle_nack_packet`), Transmit (`try_send_fragment` and
--               `send_next_fragment_for_message`), Flush (`flush_packets`), Wakeup
--               (`next_wakeup`), Cleanup (`cleanup`, `handle_packet`), and Ledger, the proofs on
--               what a session has reserved of the quota
--   Merkle      merkle-tox-core/src. Its children: Dag (dag.rs: nodes, in Validation their rules, in
--               Padding the padding, in Store the timestamps that a node inherits), Identity
--               (identity.rs: `IdentityManager`, in Trust the search for chains of certificates, in
--               Authorize the certificates), Conversation (engine/conversation.rs and the
--               derivations of crypto.rs: epochs and key ratchets, with `count_node` and
--               `advance_ratchet` after engine/processor/side_effects.rs), Cas (cas.rs: `SwarmSync`),
--               and Fetch (engine/session/active.rs: `next_fetch_batch`)
--   Tests       runs at concrete inputs
-- A record has the fields of its struct, and an operation has the name of its function; one that
-- takes `&mut self` returns the new state beside its result. The field `data` is `payload` here.
-- The sender's fragments (Outgoing) reach the receiver's buffer (Reassembly) in Outgoing/Fragments;
-- both keep their index sets in a `BitSet` of `bitset_words` words.
--
-- Bounds: a word is a number below 2 ^ 64; `u16`, `u32` and `usize` arithmetic has its wrap-around
-- written out where it can be reached. Loops on words and masks take as many rounds as there are
-- words or bits, and those over indices as many as the limit, which their results show to be
-- enough. Bytes are only moved, so a byte is any number. Instants and durations are numbers.
--
-- The hash function of a sketch, `blake3`, is a parameter; the loops whose end only the hash decides,
-- `get_indices` and `decode`, take a number of rounds and give `none` when it is used up.
--
-- The session calls its congestion control through a record of the trait's operations, and a record
-- `Platform` holds what it takes from the libraries: `f32` arithmetic, the serialisation of a
-- message's envelope, the size of an `Option<Vec<u8>>`. Instants and durations count nanoseconds.
-- The time and random numbers are arguments. A run of sessions that share a quota is a run of one
-- of them (`Reaches` of Session/Ledger/Runs) in which the reservations of the others change freely.
--
-- The transport that a session hands its packets to is a function `sender` on a state of its own. The
-- loop of `flush_packets` has one round more than its messages have left to send, which is
-- enough while the time before a fragment is sent again is not zero.
--
-- In merkle-tox-core the hash functions, the signatures, the verification of a chunk and the
-- serialisation are parameters. A hash or a key is the number that its bytes spell, a timestamp is a
-- natural number, and the rank after the highest of the parents is taken modulo 2 ^ 64. A `HashMap` is a function where its order does not matter, and the list of its entries where
-- the code iterates over it; then no theorem depends on the order. The searches for certificates
-- have the depth that the code allows, and `effective_timestamp` takes a bound on its depth, for
-- which the rank of the node and one more is enough.
--
-- Not modelled: the algorithms of congestion control, whose laws are on floats; the delivery rate in
-- `on_ack` is a parameter for the same reason. The serialisation that macros generate, the engine
-- that drives the graph of nodes, the encryption of nodes, the cache of paths in `IdentityManager`,
-- the consensus of clocks, the stores, the bindings of c-toxcore and the applications are outside
-- this library. Iterators and conversions of `FlatMap` that hand out the vector are not modelled.
pub mod Prelude
pub mod Word
pub mod BitSet
pub mod Protocol
pub mod Reassembly
pub mod Outgoing
pub mod Quota
pub mod FlatMap
pub mod Scheduler
pub mod Rtt
pub mod Session
pub mod Sketch
pub mod Tests
pub mod Merkle
