-- ===== src/Data/Messages.antt =====
-- The messages of src/peer/messages.rs, the effects of src/peer/consensus.rs, and the errors that
-- the source writes as text.
use rustchain.Base.{ℕ, Bool, List, String}
use rustchain.Data.Transactions.{
  Bytes, Signature, VerifyingKey, AssetType, SignedTransaction, VerifiedTransaction,
}
use rustchain.Data.Blocks.{BlockHash}
use rustchain.Data.Entries.{PeerId, RaftLogEntry, RaftReplicatedBlock}

pub data MessageBody : Type 0 where
  client_transaction : SignedTransaction → MessageBody
  synchronization : VerifiedTransaction → MessageBody
  block_proposal : BlockHash → Bytes → Signature → VerifyingKey → MessageBody
  block_reject block_approved : BlockHash → MessageBody
  -- term, candidate, last log index, last log term
  raft_request_vote : ℕ → PeerId → ℕ → ℕ → MessageBody
  -- term, granted
  raft_request_vote_response : ℕ → Bool → MessageBody
  -- term, leader, previous log index and term, entries, the leader's commit index
  raft_append_entries : ℕ → PeerId → ℕ → ℕ → List RaftReplicatedBlock → ℕ → MessageBody
  -- term, success, match index
  raft_append_entries_response : ℕ → Bool → ℕ → MessageBody

pub record Message : Type 0 where
  pub from : PeerId
  pub to : PeerId
  pub body : MessageBody

pub data ConsensusEffect : Type 0 where
  stage_client_transaction : SignedTransaction → ConsensusEffect
  stage_raft_entries : List RaftLogEntry → ConsensusEffect
  broadcast_client_transaction : SignedTransaction → ConsensusEffect
  propose_block : BlockHash → ConsensusEffect
  -- to, term, previous log index and term, entries, the leader's commit index
  send_raft_append_entries : PeerId → ℕ → ℕ → ℕ → List RaftLogEntry → ℕ → ConsensusEffect
  commit_block rollback_block : BlockHash → ConsensusEffect
  broadcast : MessageBody → ConsensusEffect
  send_to : PeerId → MessageBody → ConsensusEffect

pub data BlockVerificationError : Type 0 where
  signature_error deserialization_error invalid_block_hash : BlockVerificationError
  invalid_previous_hash already_added : BlockVerificationError

pub data TransactionValidationError : Type 0 where
  account_not_found : String → TransactionValidationError
  insufficient_funds : String → ℕ → ℕ → TransactionValidationError
  asset_mismatch : String → AssetType → AssetType → TransactionValidationError

-- One constructor for each text that the source returns as an error.
pub data Error : Type 0 where
  leader_unknown leader_has_uncommitted_block : Error
  noop_has_payload : ℕ → Error
  bad_block : BlockVerificationError → Error
  bad_transaction : TransactionValidationError → Error
  bad_client_signature bad_peer_signature : Error
  log_not_read log_not_deserialized log_dir_not_created log_not_written : Error
  block_not_found raft_block_not_found raft_block_not_linked not_extending : BlockHash → Error
  block_file_not_found block_not_deserialized block_not_written : Error
  must_be_validated_by_peer : Error
  block_index_too_large : Error
  peer_not_found too_many_failed_checks no_peers_to_send_to no_view unsupported_request : Error
  bad_consensus_mode peer_id_missing peer_id_not_a_number peer_id_too_big : Error
  bad_bind_host host_without_address channel_closed peers_not_deserialized : Error
