-- ===== src/Raft/Replication.antt =====
-- src/peer/consensus/raft/replication.rs: what changes the log and the commit index.
pub mod Append
pub mod Leader
pub mod Merge
pub mod Safety
pub mod Committed
pub mod Advance
use rustchain.Base.{
  ℕ, suc, ◌+◌, ◌-◌, min, max, Bool, true, false, not, ◌&&◌, ◌||◌, Option, none, some, List, [], ◌∷◌,
  ◌++◌, map, Result, ok, err, ltb, leb, if◌then◌else◌, ◌==◌, nat_eq, add_u64, length, take, drop,
  keep, is_empty, last_or,
}
use rustchain.Data.{
  PeerId, BlockHash, RaftLogEntry, is_noop, ConsensusEffect, commit_block, rollback_block,
  stage_raft_entries, send_to, raft_append_entries_response, Error,
}
use rustchain.Env.{Env}
use rustchain.Raft.LogStore.{save}
use rustchain.Raft.Log.{last_log_index, log_entry, term_at, has_term, entries_are_contiguous_after}
use rustchain.Raft.State.{RaftConsensus, Outcome}

-- The hashes of the blocks among the entries.
unfoldable pub block_hashes : List RaftLogEntry → List BlockHash
unfolding keep
block_hashes entries = map (λ e. e.block_hash) (keep (λ e. not (is_noop e)) entries)

-- One round of the loop of `append_entries`: the log after it and the hashes discarded so far, or
-- `none` where the function returns early.
unfoldable pub place_entry :
    ℕ
    → RaftLogEntry
    → List RaftLogEntry
    → List BlockHash
    → List RaftLogEntry × Option (List BlockHash)
unfolding log_entry last_log_index block_hashes
place_entry commit_index entry log discarded = elim (log_entry log entry.index) [
  | none ↦
      if entry.index == add_u64 (last_log_index log) 1
      then (log ++ entry ∷ [], some discarded)
      else (log, some discarded)
  | some existing ↦
      if existing.term == entry.term
      then (log, some discarded)
      else if leb entry.index commit_index
      then (log, none)
      else (
        take (entry.index - 1) log ++ entry ∷ [],
        some (discarded ++ block_hashes (drop (entry.index - 1) log)),
      )
]

unfoldable pub place_entries :
    ℕ
    → List RaftLogEntry
    → List RaftLogEntry
    → List BlockHash
    → List RaftLogEntry × Option (List BlockHash)
unfolding place_entry
place_entries commit_index [] log discarded = (log, some discarded)
place_entries commit_index (entry ∷ entries) log discarded =
    let (log', placed) = place_entry commit_index entry log discarded in
    elim placed [
      | none ↦ (log', none)
      | some discarded' ↦ place_entries commit_index entries log' discarded'
    ]

-- The commits of the log's blocks in the range that `low` does not reach and `high` does.
unfoldable pub commit_effects : List RaftLogEntry → ℕ → ℕ → List ConsensusEffect
unfolding block_hashes keep
commit_effects log low high =
    map commit_block (block_hashes (keep (λ e. ltb low e.index && leb e.index high) log))

unfoldable pub to_stage : ℕ → List RaftLogEntry → List RaftLogEntry
unfolding keep
to_stage commit_index entries = keep (λ e. ltb commit_index e.index && not (is_noop e)) entries

unfoldable pub stage_effects : List RaftLogEntry → List ConsensusEffect
stage_effects entries = if is_empty entries then [] else stage_raft_entries entries ∷ []

-- The end of `append_entries`, after its loop.
unfoldable pub finish_append :
    RaftConsensus
    → List RaftLogEntry
    → ℕ
    → List RaftLogEntry × Option (List BlockHash)
    → RaftConsensus × Option (List ConsensusEffect)
unfolding commit_effects to_stage stage_effects last_log_index
finish_append r entries leader_commit (log, none) = (record r { log = log }, none)
finish_append r entries leader_commit (log, some discarded) =
    let commit = max r.commit_index (min leader_commit (last_log_index log)) in
    (
      record r { log = log; commit_index = commit },
      some (
          map rollback_block discarded
          ++ (stage_effects (to_stage r.commit_index entries)
              ++ commit_effects log r.commit_index commit)),
    )

unfoldable pub append_entries :
    RaftConsensus → ℕ → ℕ → List RaftLogEntry → ℕ → RaftConsensus × Option (List ConsensusEffect)
unfolding has_term entries_are_contiguous_after place_entries finish_append
append_entries r prev_log_index prev_log_term entries leader_commit =
    let placed = place_entries r.commit_index entries r.log [] in
    if not (has_term r.log prev_log_index prev_log_term)
    then (r, none)
    else if not (entries_are_contiguous_after prev_log_index entries)
    then (r, none)
    else finish_append r entries leader_commit placed

unfoldable pub append_entries_response : RaftConsensus → PeerId → Bool → ℕ → ConsensusEffect
append_entries_response r to success match_index =
    send_to to (raft_append_entries_response r.current_term success match_index)

unfoldable pub persist_log : Env → RaftConsensus → Outcome (Unit {0})
persist_log env r =
    let (store, saved) = save env r.raft_log_store r.log r.commit_index in
    (record r { raft_log_store = store }, saved)
