-- ===== src/Lib.antt =====
-- rustchain: a verification library for the blockchain peer of this repository.
--
-- A peer collects signed transactions into blocks, agrees on each block with the other peers by one
-- of two consensus engines (a majority vote per block, or Raft), and writes agreed blocks to disk. An
-- engine is a state machine that returns effects; the peer executes them on the ledger, the block
-- storage and the network, and hands further results back to the engine.
--
-- The files and the code that they model (paths from the root of the repository):
--   Base       lists, options, results, maps, sets, and the Boolean tests of Rust's operators
--   Data       the types of src/transactions.rs, src/storage.rs, src/peer/messages.rs and
--              src/peer/consensus.rs; the errors that the source writes as text are constructors
--   Env        a record of functions for the crates that the code calls: k256, sha2, hex,
--              serde_json, rand, regex and sorted_vec
--   Block      the hash and the verification of a block (src/storage.rs, src/crypto.rs)
--   Voting     src/peer/consensus/voting.rs: new, make_vote, evaluate_outcome, handle_voting_vote and
--              the functions that call it
--   Raft       src/peer/consensus/raft.rs with raft/election.rs, raft/replication.rs and
--              raft_log_store.rs; Raft.Machine is the engine as one step function over handler
--              calls, Raft.Cluster several engines that grant votes
--   Engine     src/peer/consensus.rs: the choice between the two engines
--   Ledger     src/transactions.rs: process_transaction, rollback_transactions and what they call
--   Storage    BlockKeeper of src/storage.rs, the directory of blocks as a map from names to bytes;
--              Storage.Replay is read_state of src/transactions.rs
--   Effects    src/peer/effects.rs: PeerEffects and the queue of execute_all
--   Peer       src/peer.rs: handle_message, handle_tick and the handlers
--   Sync       src/synchronization.rs: the retry loop over the answers of other peers;
--              Sync.Local takes the answers from a LocalNetwork
--   Network    src/network: the messages (mod.rs), Network.Rest (rest_network.rs), Network.Local
--              (local_network.rs), Network.Client (discovery_client.rs), Network.Interface (the trait,
--              as the server uses it); Network.Discovery is src/bin/discovery.rs
--   Crypto     src/crypto.rs: the key file
--   Server     src/server.rs: the handlers, over any network
--   Runtime    src/peer_runtime.rs: the start of a peer and its loop; Runtime.Config the configuration
--
-- A method that changes an object returns the new object, beside its result; one that fails after a
-- change returns the changed object with the error. Machine integers are numbers whose additions
-- wrap as in a release build (add_u32, add_u64); theorems about indexes state that none wraps. A
-- HashMap is an association list and a HashSet a list, in an order that nothing fixes. A
-- lock that two objects share is a field of the object that writes. Instants are nanoseconds.
--
-- execute_queue of Effects.Execute and the handlers of Peer that call it take fuel, one unit for each
-- effect and one for the end; sync_loop of Sync takes the list of the answers of the
-- rounds to come, and is `none` too when they run out.
--
-- run_loop of Runtime is a run over a list of events, in any order: a message, a tick, or a change of
-- the known peers; it passes its fuel to each handler. run of Network.Rest is a run over what the
-- discovery client returns at each tick.
--
-- The network of Effects is an outbox and a list of known peers; Network.Rest is how a process fills
-- the list and sends. Channels (tokio), HTTP (reqwest), JSON (serde_json) and the resolution of hosts
-- are functions that the definitions of Network, Server and Runtime take as arguments.
--
-- Not modelled: the routes that src/server.rs gives to axum, the choice of the next event by tokio,
-- the entry point src/bin/peer_runner.rs and src/logging.rs, the forms in which values are printed,
-- and a file of a block that is there but cannot be read. A panic is no result of the model where a
-- lock or an answer cannot be read; elsewhere it is a `none`, as in new_keeper, get_or_create_key and
-- the handlers of Server, or get_block_file of Sync, which draws among no peers.
pub mod Base
pub mod Data
pub mod Voting
pub mod Env
pub mod Block
pub mod Raft
pub mod Ledger
pub mod Storage
pub mod Engine
pub mod Effects
pub mod Peer
pub mod Sync
pub mod Network
pub mod Crypto
pub mod Server
pub mod Runtime
