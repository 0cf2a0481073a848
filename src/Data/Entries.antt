-- ===== src/Data/Entries.antt =====
-- The Raft log entries of src/peer/consensus/raft.rs, and how they travel (src/peer/messages.rs).
use rustchain.Base.{ℕ, Bool, List, Option, ◌==◌, nat_eq}
use rustchain.Data.Transactions.{Bytes, Signature, VerifyingKey}
use rustchain.Data.Blocks.{BlockHash, empty_hash}

abbrev pub PeerId : Type 0
PeerId = ℕ

pub record RaftLogEntry : Type 0 where
  pub term : ℕ
  pub index : ℕ
  pub block_hash : BlockHash

-- src/peer/consensus/raft_log_store.rs: what a store returns, and what it writes to its file.
pub record RaftLogState : Type 0 where
  pub log : List RaftLogEntry
  pub commit_index : Option ℕ

pub record PersistedRaftLogState : Type 0 where
  pub log : List RaftLogEntry
  pub commit_index : ℕ

unfoldable pub noop : ℕ → ℕ → RaftLogEntry
noop term index = record { term = term; index = index; block_hash = empty_hash }

unfoldable pub is_noop : RaftLogEntry → Bool
is_noop entry = entry.block_hash == empty_hash

pub record RaftReplicatedBlock : Type 0 where
  pub entry : RaftLogEntry
  pub block_file : Bytes
  pub signature : Signature
  pub public_key : VerifyingKey
