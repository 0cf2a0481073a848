-- ===== src/Effects.antt =====
-- src/peer/effects.rs: the services of a peer, and the execution of what consensus asks for. The
-- network (`NetworkInterface` of src/network/mod.rs) is the peers that it knows and what has been
-- handed to it to send.
pub mod Chain
pub mod Execute
pub mod Reversal
pub mod Termination
pub mod Synchronized
pub mod Delivery
pub mod Restart
mod Tests
use rustchain.Base.{
  ℕ, zero, suc, Bool, true, false, Option, none, some, List, [], ◌∷◌, ◌++◌, Result, ok, err, ◌>>=◌,
  ◌>>◌, map_err, is_empty, if◌then◌else◌, nat_eq,
}
use rustchain.Data.{
  Bytes, Signature, SigningKey, VerifyingKey, PeerId, BlockHash, empty_hash, BlockFile, BlockStatus,
  added_to_mempool, new_block_created, RaftLogEntry, is_noop, RaftReplicatedBlock,
  SignedTransaction, Message, MessageBody, synchronization, block_proposal, raft_append_entries,
  ConsensusEffect, stage_client_transaction, stage_raft_entries, broadcast_client_transaction,
  propose_block, send_raft_append_entries, commit_block, rollback_block, broadcast, send_to, Error,
  bad_block, bad_transaction, not_extending, block_not_found, raft_block_not_found,
  raft_block_not_linked,
}
use rustchain.Base.Dict
use rustchain.Engine
use rustchain.Engine.{ConsensusEngine}
use rustchain.Env.{Env}
use rustchain.Ledger.{
  TransactionProcessor, new_processor, process_transaction, rollback_transactions, verify_signed,
  countersign,
}
use rustchain.Storage
use rustchain.Storage.{BlockKeeper}

pub data Outgoing : Type 0 where
  to_all : MessageBody → PeerId → Outgoing
  to_one : Message → Outgoing

pub record Network : Type 0 where
  pub known_peers : List PeerId
  pub outbox : List Outgoing

pub record PeerEffects : Type 0 where
  pub peer_id : PeerId
  pub transaction_processor : TransactionProcessor
  pub block_keeper : BlockKeeper
  pub signing_key : SigningKey
  pub public_key : VerifyingKey
  pub network : Network
  pub last_completed_block : BlockHash

unfoldable pub broadcast_peer_message : PeerEffects → MessageBody → PeerEffects
broadcast_peer_message p body = record p {
  network = record p.network { outbox = p.network.outbox ++ to_all body p.peer_id ∷ [] };
}

unfoldable pub send_peer_message : PeerEffects → Message → PeerEffects
send_peer_message p message = record p {
  network = record p.network { outbox = p.network.outbox ++ to_one message ∷ [] };
}

unfoldable pub ensure_uncommitted_block : PeerEffects → BlockHash → Result Error (Unit {0})
ensure_uncommitted_block p block_hash =
    elim (Storage.get_uncommited_block p.block_keeper block_hash) [
      | none ↦ err (block_not_found block_hash)
      | some block_file ↦ ok tt
    ]

-- What a method leaves, with its result.
abbrev pub Done : Type 0 → Type 0
Done A = PeerEffects × Result Error A

module _ (env : Env) where
  unfoldable pub new_effects : PeerId → Network → BlockKeeper → SigningKey → PeerEffects
  new_effects peer_id network block_keeper signing_key = record {
    peer_id = peer_id;
    transaction_processor = new_processor;
    block_keeper = block_keeper;
    signing_key = signing_key;
    public_key = env.verifying_key signing_key;
    network = network;
    last_completed_block = empty_hash;
  }

  -- The loop of `apply_block_transactions`: an error is only logged.
  unfoldable pub process_all : TransactionProcessor → List SignedTransaction → TransactionProcessor
  process_all processor [] = processor
  process_all processor (tx ∷ txs) = process_all (process_transaction env processor tx).0 txs

  unfoldable pub apply_block_transactions : PeerEffects → BlockFile → PeerEffects
  unfolding process_all
  apply_block_transactions p block_file = record p {
    transaction_processor = process_all p.transaction_processor block_file.transactions;
  }

  -- The transactions applied and the block added, as three methods do.
  unfoldable pub stage_block : PeerEffects → BlockFile → Done (Unit {0})
  unfolding apply_block_transactions
  stage_block p block_file =
      let (keeper, added) = Storage.add_external_block env p.block_keeper block_file in
      (
        record (apply_block_transactions p block_file) { block_keeper = keeper },
        map_err bad_block added,
      )

  unfoldable pub stage_external_block : PeerEffects → BlockFile → Done Bool
  unfolding stage_block
  stage_external_block p block_file =
      let (staged, result) = stage_block p block_file in
      if Storage.block_can_be_added p.block_keeper block_file
      then (staged, (do result; ok true))
      else (p, ok false)

  -- `commit_block` of the keeper, with the last completed block
  unfoldable pub commit_and_note : PeerEffects → BlockHash → Done (Unit {0})
  commit_and_note p block_hash =
      let (keeper, committed) = Storage.commit_block env p.block_keeper block_hash in
      let kept = record p { block_keeper = keeper } in
      elim committed [
        | err e ↦ (kept, err e)
        | ok _ ↦ (record kept { last_completed_block = block_hash }, ok tt)
      ]

  unfoldable pub apply_synchronized_block : PeerEffects → BlockFile → Done (Unit {0})
  unfolding stage_block commit_and_note
  apply_synchronized_block p block_file =
      let (staged, result) = stage_block p block_file in
      if Storage.block_can_be_added p.block_keeper block_file
      then (elim result [ err e ↦ (staged, err e) | ok _ ↦ commit_and_note staged block_file.hash ])
      else (p, err (not_extending block_file.hash))

  -- `stage_client_transaction` after the signature is verified
  unfoldable pub stage_verified : PeerEffects → SignedTransaction → Done BlockStatus
  stage_verified p client_tx =
      let (processor, processed) = process_transaction env p.transaction_processor client_tx in
      let (keeper, status) = Storage.add_transaction env p.block_keeper client_tx in
      elim processed [
        | err e ↦ (record p { transaction_processor = processor }, err (bad_transaction e))
        | ok _ ↦ (record p { transaction_processor = processor; block_keeper = keeper }, ok status)
      ]

  unfoldable pub stage_client : PeerEffects → SignedTransaction → Done BlockStatus
  unfolding stage_verified
  stage_client p client_tx = elim (verify_signed env client_tx) [
    | err e ↦ (p, err e)
    | ok _ ↦ stage_verified p client_tx
  ]

  unfoldable pub broadcast_client : PeerEffects → SignedTransaction → PeerEffects
  broadcast_client p client_tx =
      broadcast_peer_message p (synchronization (countersign env client_tx p.signing_key))

  -- One round of `stage_raft_entries` for an entry that is no no-op.
  unfoldable pub stage_pending : PeerEffects → RaftLogEntry → Option BlockFile → Done (Unit {0})
  stage_pending p entry pending_block =
      if Dict.contains_key p.block_keeper.uncommited_blocks entry.block_hash
      then (p, ok tt)
      else (elim pending_block [
        | none ↦ (p, err (raft_block_not_found entry.block_hash))
        | some block_file ↦
            if Storage.block_can_be_added p.block_keeper block_file
            then stage_block p block_file
            else (p, err (raft_block_not_linked entry.block_hash))
      ])
