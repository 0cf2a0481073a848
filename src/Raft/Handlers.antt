-- ===== src/Raft/Handlers.antt =====
-- The handlers of src/peer/consensus/raft.rs that the engine calls.
use rustchain.Base.{
  ℕ, ◌-◌, Bool, true, false, Option, none, some, List, [], ◌∷◌, Result, ok, err, ◌>>=◌, leb,
  if◌then◌else◌, nat_eq,
}
use rustchain.Base.Dict
use rustchain.Data.{
  PeerId, BlockHash, BlockFile, SignedTransaction, ConsensusEffect, stage_client_transaction,
  send_to, broadcast, client_transaction, raft_request_vote, raft_request_vote_response, Error,
  leader_unknown,
}
use rustchain.Env.{Env}
use rustchain.Raft.Log.{last_log_index, last_log_term}
use rustchain.Raft.State.{RaftConsensus, VoteResponse, vote_granted, vote_rejected, Outcome}
use rustchain.Raft.Election.{
  is_leader, is_candidate, update_participants, start_election_at, request_vote, receive_vote,
  step_down_on_newer_term,
}
use rustchain.Raft.Replication.Append.{AppendEntriesRequest, handle_append_entries}
use rustchain.Raft.Replication.Leader.{
  heartbeat_due, append_entries_effects_for_followers, append_leader_noop, append_local_block,
  ensure_no_uncommitted_block, handle_leader_append_entries_response,
}

unfoldable pub forward_client_transaction :
    RaftConsensus → SignedTransaction → Result Error (List ConsensusEffect)
forward_client_transaction r client_tx = elim r.leader_id [
  | none ↦ err leader_unknown
  | some leader_id ↦ ok (send_to leader_id (client_transaction client_tx) ∷ [])
]

unfoldable pub on_client_transaction :
    RaftConsensus → SignedTransaction → Result Error (List ConsensusEffect)
unfolding ensure_no_uncommitted_block forward_client_transaction
on_client_transaction r client_tx =
    if is_leader r.role
    then (do _ ← ensure_no_uncommitted_block r; ok (stage_client_transaction client_tx ∷ []))
    else forward_client_transaction r client_tx

unfoldable pub take_pending_block : RaftConsensus → BlockHash → RaftConsensus × Option BlockFile
take_pending_block r block_hash = (
  record r { pending_blocks = Dict.remove block_hash r.pending_blocks },
  Dict.get r.pending_blocks block_hash,
)

abbrev pub granted : VoteResponse → Bool
granted vote_granted = true
granted vote_rejected = false

unfoldable pub on_request_vote :
    RaftConsensus → ℕ → PeerId → ℕ → ℕ → PeerId → Outcome (List ConsensusEffect)
unfolding request_vote
on_request_vote r term candidate_id last_index last_term from =
    let (s, response) = request_vote r term candidate_id last_index last_term in
    (s, ok (send_to from (raft_request_vote_response s.current_term (granted response)) ∷ []))

module _ (env : Env) where
  unfoldable pub on_block_created : RaftConsensus → BlockHash → Outcome (List ConsensusEffect)
  unfolding append_local_block
  on_block_created r block_hash =
      if is_leader r.role then append_local_block env r block_hash else (r, ok [])

  -- The broadcast of a candidate, with the no-op of one that is leader at once.
  unfoldable pub campaign : RaftConsensus → Bool → Outcome (List ConsensusEffect)
  unfolding append_leader_noop
  campaign r became_leader =
      let request =
        broadcast (
          raft_request_vote r.current_term r.peer_id (last_log_index r.log)
            (last_log_term r.log)) in
      let (s, appended) = append_leader_noop env r in
      if became_leader
      then (s, (do more ← appended; ok (request ∷ more)))
      else (r, ok (request ∷ []))

  unfoldable pub on_tick : RaftConsensus → ℕ → List PeerId → Outcome (List ConsensusEffect)
  unfolding update_participants heartbeat_due start_election_at campaign
  on_tick r now known_peers =
      let s = update_participants r known_peers in
      let (elected, became_leader) = start_election_at s now in
      if is_leader s.role
      then (if heartbeat_due s now
          then (let beating = record s { last_heartbeat_sent_at = some now } in
              (beating, ok (append_entries_effects_for_followers beating)))
          else (s, ok []))
      else if leb s.current_election_timeout (now - s.last_heartbeat_received_at)
      then campaign elected became_leader
      else (s, ok [])

  unfoldable pub on_request_vote_response :
      RaftConsensus → ℕ → PeerId → Bool → Outcome (List ConsensusEffect)
  unfolding receive_vote append_leader_noop step_down_on_newer_term
  on_request_vote_response r term voter_id grants =
      let (s, became_leader) = receive_vote r term voter_id grants in
      if is_candidate r.role
      then (if became_leader then append_leader_noop env s else (s, ok []))
      else (step_down_on_newer_term r term, ok [])

  unfoldable pub on_append_entries :
      RaftConsensus → AppendEntriesRequest → Outcome (List ConsensusEffect)
  unfolding handle_append_entries
  on_append_entries r request = handle_append_entries env r request

  unfoldable pub on_append_entries_response :
      RaftConsensus → ℕ → PeerId → Bool → ℕ → Outcome (List ConsensusEffect)
  unfolding handle_leader_append_entries_response step_down_on_newer_term
  on_append_entries_response r term from success match_index =
      if is_leader r.role
      then handle_leader_append_entries_response env r term from success match_index
      else (step_down_on_newer_term r term, ok [])
