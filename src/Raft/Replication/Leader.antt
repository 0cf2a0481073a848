-- ===== src/Raft/Replication/Leader.antt =====
-- The leader's side of src/peer/consensus/raft/replication.rs.
use rustchain.Base.{
  ℕ, ◌-◌, min, max, Bool, true, false, not, ◌&&◌, ◌||◌, Option, none, some, List, [], ◌∷◌, ◌++◌,
  reverse, Result, ok, err, ◌>>◌, ltb, leb, if◌then◌else◌, ◌==◌, nat_eq, add_u64, length, take,
  keep, any, keep_some,
}
use rustchain.Base.Dict
use rustchain.Base.Dict.{Dict}
use rustchain.Base.Sets
use rustchain.Data.{
  PeerId, BlockHash, RaftLogEntry, is_noop, noop, ConsensusEffect, send_raft_append_entries, Error,
  leader_has_uncommitted_block,
}
use rustchain.Env.{Env}
use rustchain.Raft.Log.{last_log_index, term_at}
use rustchain.Raft.State.{RaftConsensus, Outcome, max_append_entries}
use rustchain.Raft.Election.{majority, step_down}
use rustchain.Raft.Replication.{commit_effects, persist_log}

abbrev pub get_or_zero : Option ℕ → ℕ
get_or_zero none = 0
get_or_zero (some n) = n

unfoldable pub heartbeat_due : RaftConsensus → ℕ → Bool
heartbeat_due r now = elim r.last_heartbeat_sent_at [
  | none ↦ true
  | some last_sent_at ↦ leb r.heartbeat_interval (now - last_sent_at)
]

-- Has the peer reported a match of at least this index?
unfoldable pub has_replicated : Dict PeerId ℕ → ℕ → PeerId → Bool
has_replicated match_indexes index peer_id = elim (Dict.get match_indexes peer_id) [
  | none ↦ false
  | some match_index ↦ leb index match_index
]

unfoldable pub replicated_count : RaftConsensus → ℕ → ℕ
unfolding has_replicated keep
replicated_count r index = length (keep (has_replicated r.match_indexes index) r.participants)

-- Would the loop of `advance_commit_index` stop at this entry?
unfoldable pub can_commit : RaftConsensus → RaftLogEntry → Bool
unfolding replicated_count majority
can_commit r entry =
    not (leb entry.index r.commit_index || not (entry.term == r.current_term))
    && leb (majority r) (replicated_count r entry.index)

-- the loop of `advance_commit_index`, over the log from its end
unfoldable pub newest_committable : RaftConsensus → List RaftLogEntry → ℕ
unfolding can_commit
newest_committable r [] = r.commit_index
newest_committable r (entry ∷ entries) =
    let rest = newest_committable r entries in if can_commit r entry then entry.index else rest

unfoldable pub advance_commit_index : RaftConsensus → RaftConsensus × List ConsensusEffect
unfolding newest_committable commit_effects
advance_commit_index r =
    let commit = newest_committable r (reverse r.log) in
    (record r { commit_index = commit }, commit_effects r.log r.commit_index commit)

unfoldable pub append_entries_effect_for : RaftConsensus → PeerId → Option ConsensusEffect
unfolding term_at last_log_index keep
append_entries_effect_for r peer_id =
    let prev_log_index =
      min (get_or_zero (Dict.get r.match_indexes peer_id)) (last_log_index r.log) in
    elim (term_at r.log prev_log_index) [
      | none ↦ none
      | some prev_log_term ↦ some (
          send_raft_append_entries peer_id r.current_term prev_log_index prev_log_term
            (take max_append_entries (keep (λ e. ltb prev_log_index e.index) r.log)) r.commit_index)
    ]

unfoldable pub append_entries_effects_for_followers : RaftConsensus → List ConsensusEffect
unfolding append_entries_effect_for keep_some keep
append_entries_effects_for_followers r =
    keep_some (append_entries_effect_for r)
      (keep (λ peer_id. not (peer_id == r.peer_id)) r.participants)

unfoldable pub ensure_no_uncommitted_block : RaftConsensus → Result Error (Unit {0})
unfolding any
ensure_no_uncommitted_block r =
    if any (λ e. ltb r.commit_index e.index && not (is_noop e)) r.log
    then err leader_has_uncommitted_block
    else ok tt

module _ (env : Env) where
  -- What `append_local_block` and `append_leader_noop` do with their entry.
  unfoldable pub append_own_entry : RaftConsensus → RaftLogEntry → Outcome (List ConsensusEffect)
  unfolding append_entries_effects_for_followers advance_commit_index persist_log
  append_own_entry r entry =
      let pushed = record r {
        log = r.log ++ entry ∷ [];
        match_indexes = Dict.insert r.peer_id entry.index r.match_indexes;
      } in
      let sends = append_entries_effects_for_followers pushed in
      let (advanced, commits) = advance_commit_index pushed in
      let (saved, result) = persist_log env advanced in (saved, (do result; ok (sends ++ commits)))

  unfoldable pub append_local_block : RaftConsensus → BlockHash → Outcome (List ConsensusEffect)
  unfolding append_own_entry ensure_no_uncommitted_block last_log_index
  append_local_block r block_hash = elim (ensure_no_uncommitted_block r) [
    | err e ↦ (r, err e)
    | ok _ ↦ append_own_entry r (record {
      term = r.current_term;
      index = add_u64 (last_log_index r.log) 1;
      block_hash = block_hash;
    })
  ]

  unfoldable pub append_leader_noop : RaftConsensus → Outcome (List ConsensusEffect)
  unfolding append_own_entry noop last_log_index
  append_leader_noop r = append_own_entry r (noop r.current_term (add_u64 (last_log_index r.log) 1))

  -- a follower's success: its match index only grows, and the commit index may follow
  unfoldable pub acknowledged : RaftConsensus → PeerId → ℕ → Outcome (List ConsensusEffect)
  unfolding advance_commit_index persist_log
  acknowledged r from match_index =
      let current = get_or_zero (Dict.get r.match_indexes from) in
      let (advanced, effects) =
        advance_commit_index (record r {
          match_indexes = Dict.insert from (max current match_index) r.match_indexes;
        }) in
      let (saved, result) = persist_log env advanced in
      if not (advanced.commit_index == r.commit_index)
      then (saved, (do result; ok effects))
      else (advanced, ok effects)

  -- a follower's refusal: its match index is what it says, and it is sent what follows
  unfoldable pub refused : RaftConsensus → PeerId → ℕ → Outcome (List ConsensusEffect)
  unfolding append_entries_effect_for last_log_index
  refused r from match_index =
      let bounded = min match_index (last_log_index r.log) in
      let s = record r { match_indexes = Dict.insert from bounded r.match_indexes } in
      if leb (last_log_index s.log) bounded
      then (s, ok [])
      else (elim (append_entries_effect_for s from) [
        | none ↦ (s, ok [])
        | some effect ↦ (s, ok (effect ∷ []))
      ])

  unfoldable pub handle_leader_append_entries_response :
      RaftConsensus → ℕ → PeerId → Bool → ℕ → Outcome (List ConsensusEffect)
  unfolding step_down acknowledged refused
  handle_leader_append_entries_response r term from success match_index =
      if ltb r.current_term term
      then (step_down r term, ok [])
      else if not (term == r.current_term) || not (Sets.contains r.participants from)
      then (r, ok [])
      else if success
      then acknowledged r from match_index
      else refused r from match_index
