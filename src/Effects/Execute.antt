-- ===== src/Effects/Execute.antt =====
-- `execute_all` of src/peer/effects.rs: the queue of effects, and what each of them does.
use rustchain.Base.{
  ℕ, zero, suc, Option, none, some, List, [], ◌∷◌, ◌++◌, Result, ok, err, ◌>>=◌, ◌>>◌, is_empty,
  if◌then◌else◌, nat_eq,
}
use rustchain.Data.{
  Bytes, PeerId, BlockHash, BlockStatus, added_to_mempool, new_block_created, RaftLogEntry, is_noop,
  RaftReplicatedBlock, block_proposal, raft_append_entries, ConsensusEffect,
  stage_client_transaction, stage_raft_entries, broadcast_client_transaction, propose_block,
  send_raft_append_entries, commit_block, rollback_block, broadcast, send_to, Error,
}
use rustchain.Effects.{
  PeerEffects, Done, broadcast_peer_message, send_peer_message, stage_client, broadcast_client,
  stage_pending, commit_and_note,
}
use rustchain.Engine
use rustchain.Engine.{ConsensusEngine}
use rustchain.Env.{Env}
use rustchain.Ledger.{rollback_transactions}
use rustchain.Storage

-- The two objects that an effect may change.
pub record Services : Type 0 where
  pub effects : PeerEffects
  pub consensus : ConsensusEngine

-- What the execution of one effect leaves: the services, and the effects that it adds to the
-- queue, or its error.
abbrev pub Step : Type 0
Step = Services × Result Error (List ConsensusEffect)

-- the result of a method of `PeerEffects` that adds no effect
abbrev pub done_with {ℓ} : {A : Type ℓ} → ConsensusEngine → PeerEffects × Result Error A → Step
done_with consensus (p, err e) = (record { effects = p; consensus = consensus }, err e)
done_with consensus (p, ok a) = (record { effects = p; consensus = consensus }, ok [])

-- an answer of the engine, whose effects go into the queue
abbrev pub answered : PeerEffects → ConsensusEngine × Result Error (List ConsensusEffect) → Step
answered p (consensus, result) = (record { effects = p; consensus = consensus }, result)

module _ (env : Env) where
  unfoldable pub stage_entries : Services → List RaftLogEntry → Step
  stage_entries s [] = (s, ok [])
  stage_entries s (entry ∷ entries) =
      let (consensus, pending_block) =
        Engine.take_pending_raft_block s.consensus entry.block_hash in
      let (p, staged) = stage_pending env s.effects entry pending_block in
      let next : Services = record { effects = p; consensus = consensus } in
      let skipping = stage_entries s entries in
      let going_on = stage_entries next entries in
      if is_noop entry then skipping else (elim staged [ err e ↦ (next, err e) | ok _ ↦ going_on ])

  -- `none` if there is no peer to ask: then the block is committed at once.
  unfoldable pub broadcast_block_proposal : PeerEffects → BlockHash → Done (Option (List PeerId))
  broadcast_block_proposal p block_hash =
      let (keeper, committed) = Storage.commit_block env p.block_keeper block_hash in
      if is_empty p.network.known_peers
      then (record p { block_keeper = keeper }, (do committed; ok none))
      else (elim (Storage.get_uncommited_block p.block_keeper block_hash) [
        | none ↦ (p, ok (some p.network.known_peers))
        | some block_file ↦ (
          broadcast_peer_message p (
              block_proposal block_hash (env.block_json block_file)
                (env.sign p.signing_key (env.block_json block_file)) p.public_key),
          ok (some p.network.known_peers),
        )
      ])

  -- The bytes of the block of an entry, from the uncommitted ones or from the disk.
  unfoldable pub block_bytes : PeerEffects → RaftLogEntry → Result Error Bytes
  block_bytes p entry =
      if is_noop entry
      then ok []
      else (elim (Storage.get_uncommited_block p.block_keeper entry.block_hash) [
        | some block_file ↦ ok (env.block_json block_file)
        | none ↦ do
          block_file ← Storage.read_block_by_hash env p.block_keeper entry.block_hash
          ok (env.block_json block_file)
      ])

  unfoldable pub replicate_entries :
      PeerEffects → List RaftLogEntry → Result Error (List RaftReplicatedBlock)
  unfolding block_bytes
  replicate_entries p [] = ok []
  replicate_entries p (entry ∷ entries) = do
    bytes ← block_bytes p entry
    rest ← replicate_entries p entries
    ok (
        record {
          entry = entry;
          block_file = bytes;
          signature = env.sign p.signing_key bytes;
          public_key = p.public_key;
        }
        ∷ rest)

  unfoldable pub send_append_entries :
      PeerEffects → PeerId → ℕ → ℕ → ℕ → List RaftLogEntry → ℕ → Done (Unit {0})
  unfolding replicate_entries
  send_append_entries p to term prev_index prev_term entries leader_commit =
      elim (replicate_entries p entries) [
        | err e ↦ (p, err e)
        | ok replicated ↦ (
          send_peer_message p (record {
            from = p.peer_id;
            to = to;
            body = raft_append_entries term p.peer_id prev_index prev_term replicated leader_commit;
          }),
          ok tt,
        )
      ]

  -- A block that was never staged is rolled back without an error.
  unfoldable pub roll_back : PeerEffects → BlockHash → PeerEffects
  roll_back p block_hash = elim (Storage.get_uncommited_block p.block_keeper block_hash) [
    | none ↦ record p { last_completed_block = block_hash }
    | some block_file ↦ record p {
      transaction_processor =
          rollback_transactions env p.transaction_processor block_file.transactions;
      block_keeper = (Storage.rollback_block env p.block_keeper block_hash).0;
      last_completed_block = block_hash;
    }
  ]

  -- after `stage_client_transaction`
  unfoldable pub after_staging : Services → PeerEffects × Result Error BlockStatus → Step
  after_staging s (p, err e) = (record s { effects = p }, err e)
  after_staging s (p, ok added_to_mempool) = (record s { effects = p }, ok [])
  after_staging s (p, ok (new_block_created block_hash)) =
      answered p (Engine.on_block_created env s.consensus block_hash)

  -- after `broadcast_block_proposal`
  unfoldable pub after_proposing :
      Services → BlockHash → PeerEffects × Result Error (Option (List PeerId)) → Step
  after_proposing s block_hash (p, err e) = (record s { effects = p }, err e)
  after_proposing s block_hash (p, ok none) = (record s { effects = p }, ok [])
  after_proposing s block_hash (p, ok (some known_peers)) =
      answered p (Engine.on_local_block_proposed s.consensus block_hash known_peers)

  unfoldable pub execute_effect : Services → ConsensusEffect → Step
  unfolding after_staging after_proposing stage_entries
  execute_effect s (stage_client_transaction client_tx) =
      after_staging s (stage_client env s.effects client_tx)
  execute_effect s (stage_raft_entries entries) = stage_entries s entries
  execute_effect s (broadcast_client_transaction client_tx) =
      (record s { effects = broadcast_client env s.effects client_tx }, ok [])
  execute_effect s (propose_block block_hash) =
      after_proposing s block_hash (broadcast_block_proposal s.effects block_hash)
  execute_effect s (send_raft_append_entries to term prev_index prev_term entries commit) =
      done_with s.consensus
        (send_append_entries s.effects to term prev_index prev_term entries commit)
  execute_effect s (commit_block block_hash) =
      done_with s.consensus (commit_and_note env s.effects block_hash)
  execute_effect s (rollback_block block_hash) =
      (record s { effects = roll_back s.effects block_hash }, ok [])
  execute_effect s (broadcast body) =
      (record s { effects = broadcast_peer_message s.effects body }, ok [])
  execute_effect s (send_to to body) = (
    record s {
      effects =
          send_peer_message s.effects (record { from = s.effects.peer_id; to = to; body = body });
    },
    ok [],
  )

  -- The loop of `execute_all`; `none` means that the fuel ran out. An error is collected, and what
  -- an effect adds goes behind the queue.
  unfoldable pub execute_queue :
      ℕ → Services → List ConsensusEffect → List Error → Option (Services × List Error)
  execute_queue zero s queue errors = none
  execute_queue (suc fuel) s [] errors = some (s, errors)
  execute_queue (suc fuel) s (effect ∷ queue) errors = elim (execute_effect s effect).1 [
    | err e ↦ execute_queue fuel (execute_effect s effect).0 queue (errors ++ e ∷ [])
    | ok more ↦ execute_queue fuel (execute_effect s effect).0 (queue ++ more) errors
  ]
