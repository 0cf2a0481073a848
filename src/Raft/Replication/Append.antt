-- ===== src/Raft/Replication/Append.antt =====
-- The follower's side of src/peer/consensus/raft/replication.rs, with the validation of the
-- entries in src/peer/consensus/raft.rs.
use rustchain.Base.{
  ℕ, Bool, true, false, not, ◌||◌, none, some, List, [], ◌∷◌, ◌++◌, Result, ok, err, map_err, ◌>>=◌,
  ◌>>◌, ltb, if◌then◌else◌, ◌==◌, nat_eq, is_empty, last_or,
}
use rustchain.Base.Dict
use rustchain.Base.Dict.{Dict}
use rustchain.Block.{verify_message, verify_block_vec}
use rustchain.Data.{
  PeerId, BlockHash, BlockFile, RaftLogEntry, RaftReplicatedBlock, is_noop, ConsensusEffect,
  stage_raft_entries, Error, noop_has_payload, bad_block,
}
use rustchain.Env.{Env}
use rustchain.Raft.Log.{matching_index_for}
use rustchain.Raft.State.{RaftConsensus, Outcome}
use rustchain.Raft.Election.{receive_append_entries_at}
use rustchain.Raft.Replication.{append_entries, append_entries_response, persist_log}

pub record AppendEntriesRequest : Type 0 where
  pub term : ℕ
  pub leader_id : PeerId
  pub prev_log_index : ℕ
  pub prev_log_term : ℕ
  pub entries : List RaftReplicatedBlock
  pub leader_commit : ℕ
  pub from : PeerId
  pub now : ℕ

abbrev pub Blocks : Type 0
Blocks = Dict BlockHash BlockFile

module _ (env : Env) where
  -- One round of `validate_replicated_entries`: the blocks with this entry's.
  unfoldable pub validate_entry : RaftReplicatedBlock → Blocks → Result Error Blocks
  validate_entry replicated blocks =
      if is_noop replicated.entry
      then (if not (is_empty replicated.block_file)
          then err (noop_has_payload replicated.entry.index)
          else do
            map_err bad_block (
                verify_message env replicated.public_key replicated.signature replicated.block_file)
            ok blocks)
      else do
        block_file ← map_err bad_block (
            verify_block_vec env replicated.entry.block_hash replicated.block_file
              replicated.signature replicated.public_key)
        ok (Dict.insert replicated.entry.block_hash block_file blocks)

  unfoldable pub validate_from :
      List RaftReplicatedBlock
      → List RaftLogEntry
      → Blocks
      → Result Error (List RaftLogEntry × Blocks)
  unfolding validate_entry
  validate_from [] log_entries blocks = ok (log_entries, blocks)
  validate_from (replicated ∷ rest) log_entries blocks = do
    next ← validate_entry replicated blocks
    validate_from rest (log_entries ++ replicated.entry ∷ []) next

  unfoldable pub validate_replicated_entries :
      List RaftReplicatedBlock → Result Error (List RaftLogEntry × Blocks)
  unfolding validate_from
  validate_replicated_entries entries = validate_from entries [] []

-- One round of the loop of `handle_append_entries` over the entries to stage: the block moves from
-- the validated ones to the pending ones.
unfoldable pub keep_block : RaftLogEntry → Blocks × Blocks → Blocks × Blocks
keep_block entry (blocks, pending) = elim (Dict.get blocks entry.block_hash) [
  | none ↦ (blocks, pending)
  | some block_file ↦
      if is_noop entry
      then (blocks, pending)
      else (Dict.remove entry.block_hash blocks, Dict.insert entry.block_hash block_file pending)
]

unfoldable pub keep_blocks : List RaftLogEntry → Blocks × Blocks → Blocks × Blocks
unfolding keep_block
keep_blocks [] kept = kept
keep_blocks (entry ∷ entries) kept = keep_blocks entries (keep_block entry kept)

unfoldable pub keep_staged_blocks : List ConsensusEffect → Blocks × Blocks → Blocks × Blocks
unfolding keep_blocks
keep_staged_blocks [] kept = kept
keep_staged_blocks (stage_raft_entries entries ∷ effects) kept =
    keep_staged_blocks effects (keep_blocks entries kept)
keep_staged_blocks (_ ∷ effects) kept = keep_staged_blocks effects kept

module _ (env : Env) where
  -- The state after the effects are known: saved if the log or the commit index has changed.
  unfoldable pub acknowledge :
      RaftConsensus → Bool → List ConsensusEffect → Outcome (List ConsensusEffect)
  unfolding persist_log
  acknowledge r changed effects =
      let (saved, result) = persist_log env r in
      if changed then (saved, (do result; ok effects)) else (r, ok effects)

  -- The part of `handle_append_entries` that follows the validation; `r` is the state before.
  unfoldable pub accept_entries :
      RaftConsensus
      → AppendEntriesRequest
      → List RaftLogEntry
      → Blocks
      → Outcome (List ConsensusEffect)
  unfolding acknowledge append_entries_response
  accept_entries r request log_entries blocks =
      let match_index =
        matching_index_for r.log request.prev_log_index request.prev_log_term log_entries in
      let accepted_match_index = last_or (λ e. e.index) request.prev_log_index log_entries in
      let (next, appended) =
        append_entries r request.prev_log_index request.prev_log_term log_entries
          request.leader_commit in
      elim appended [
        | none ↦ (next, ok (append_entries_response next request.from false match_index ∷ []))
        | some effects ↦
            let (_, pending) = keep_staged_blocks effects (blocks, next.pending_blocks) in
            acknowledge (record next { pending_blocks = pending })
              (ltb request.prev_log_index accepted_match_index
                || not (next.commit_index == r.commit_index))
              (effects ++ append_entries_response next request.from true accepted_match_index ∷ [])
      ]

  unfoldable pub handle_append_entries :
      RaftConsensus → AppendEntriesRequest → Outcome (List ConsensusEffect)
  unfolding accept_entries append_entries_response
  handle_append_entries r request =
      let (s, received) =
        receive_append_entries_at env r request.term request.leader_id request.from request.now in
      let refuse =
        append_entries_response s request.from false
          (matching_index_for s.log request.prev_log_index request.prev_log_term [])
        ∷ [] in
      if not received
      then (s, ok refuse)
      else (elim (validate_replicated_entries env request.entries) [
        | err e ↦ (s, ok refuse)
        | ok (log_entries, blocks) ↦ accept_entries s request log_entries blocks
      ])
