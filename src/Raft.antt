-- ===== src/Raft.antt =====
-- The Raft engine: src/peer/consensus/raft.rs, raft/election.rs, raft/replication.rs and
-- raft_log_store.rs.
pub mod LogStore
pub mod Log
pub mod State
pub mod Election
pub mod Replication
pub mod Handlers
pub mod Machine
pub mod Cluster
pub mod Recovery
mod Tests
