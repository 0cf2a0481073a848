-- ===== src/Engine.antt =====
-- `ConsensusEngine` of src/peer/consensus.rs: the calls go to the mode that is chosen.
use rustchain.Base.{ℕ, Bool, true, false, Option, none, List, [], Result, ok, err, ◌>>=◌, nat_eq}
use rustchain.Data.{
  PeerId, BlockHash, BlockFile, SignedTransaction, MessageBody, raft_request_vote,
  raft_request_vote_response, raft_append_entries, raft_append_entries_response, ConsensusEffect,
  Error, must_be_validated_by_peer,
}
use rustchain.Env.{Env}
use rustchain.Raft.Handlers
use rustchain.Raft.LogStore.{AnyRaftLogStore}
use rustchain.Raft.State
use rustchain.Raft.State.{RaftConsensus, RaftState, Outcome}
use rustchain.Voting
use rustchain.Voting.{Votings}

pub data ConsensusState : Type 0 where
  voting_state : ConsensusState
  raft_state : RaftState → ConsensusState

pub data ConsensusEngine : Type 0 where
  voting : PeerId → Votings → ConsensusEngine
  raft : RaftConsensus → ConsensusEngine

-- The engine after a call, with the effects that it asks for.
abbrev pub Answer : Type 0
Answer = ConsensusEngine × Result Error (List ConsensusEffect)

-- The answers of the two modes as the engine's.
abbrev pub from_votes : PeerId → Votings × List ConsensusEffect → Answer
from_votes peer_id (votings, effects) = (voting peer_id votings, ok effects)

abbrev pub from_raft : Outcome (List ConsensusEffect) → Answer
from_raft (r, result) = (raft r, result)

unfoldable pub new_voting : PeerId → ConsensusEngine
new_voting peer_id = voting peer_id []

unfoldable pub requires_tick : ConsensusEngine → Bool
requires_tick (voting peer_id votings) = false
requires_tick (raft r) = true

unfoldable pub state : ConsensusEngine → ConsensusState
state (voting peer_id votings) = voting_state
state (raft r) = raft_state (State.state r)

unfoldable pub on_client_transaction :
    ConsensusEngine → SignedTransaction → Result Error (List ConsensusEffect)
on_client_transaction (voting peer_id votings) client_tx =
    ok (Voting.on_client_transaction client_tx)
on_client_transaction (raft r) client_tx = Handlers.on_client_transaction r client_tx

unfoldable pub on_local_block_proposed : ConsensusEngine → BlockHash → List PeerId → Answer
on_local_block_proposed (voting peer_id votings) block_hash known_peers =
    from_votes peer_id (Voting.on_local_block_proposed peer_id votings block_hash known_peers)
on_local_block_proposed (raft r) block_hash known_peers = (raft r, ok [])

unfoldable pub on_block_proposal_validated :
    ConsensusEngine → BlockHash → PeerId → Bool → List PeerId → Answer
on_block_proposal_validated (voting peer_id votings) block_hash proposer valid known_peers =
    from_votes peer_id
      (Voting.on_block_proposal_validated peer_id votings block_hash proposer valid known_peers)
on_block_proposal_validated (raft r) block_hash proposer valid known_peers = (raft r, ok [])

unfoldable pub on_block_vote : ConsensusEngine → BlockHash → PeerId → Bool → List PeerId → Answer
on_block_vote (voting peer_id votings) block_hash from approve known_peers =
    from_votes peer_id (Voting.on_block_vote peer_id votings block_hash from approve known_peers)
on_block_vote (raft r) block_hash from approve known_peers = (raft r, ok [])

unfoldable pub take_pending_raft_block :
    ConsensusEngine → BlockHash → ConsensusEngine × Option BlockFile
take_pending_raft_block (voting peer_id votings) block_hash = (voting peer_id votings, none)
take_pending_raft_block (raft r) block_hash =
    let (next, block) = Handlers.take_pending_block r block_hash in (raft next, block)

module _ (env : Env) where
  unfoldable pub new_raft_with_storage :
      PeerId → AnyRaftLogStore → ℕ → ℕ → Result Error ConsensusEngine
  new_raft_with_storage peer_id raft_log_store commit_index now = do
    r ← State.new_with_storage env peer_id raft_log_store commit_index now
    ok (raft r)

  unfoldable pub on_block_created : ConsensusEngine → BlockHash → Answer
  on_block_created (voting peer_id votings) block_hash =
      (voting peer_id votings, ok (Voting.on_block_created block_hash))
  on_block_created (raft r) block_hash = from_raft (Handlers.on_block_created env r block_hash)

  unfoldable pub on_tick : ConsensusEngine → ℕ → List PeerId → Answer
  on_tick (voting peer_id votings) now known_peers = (voting peer_id votings, ok [])
  on_tick (raft r) now known_peers = from_raft (Handlers.on_tick env r now known_peers)

  -- `on_message`, with the four calls that it makes
  on_raft_message : RaftConsensus → PeerId → MessageBody → ℕ → Answer
  on_raft_message r from (raft_request_vote term candidate_id last_index last_term) now =
      from_raft (Handlers.on_request_vote r term candidate_id last_index last_term from)
  on_raft_message r from (raft_request_vote_response term granted) now =
      from_raft (Handlers.on_request_vote_response env r term from granted)
  on_raft_message r from (raft_append_entries term leader_id prev_index prev_term entries commit)
        now =
      from_raft (
        Handlers.on_append_entries env r (record {
          term = term;
          leader_id = leader_id;
          prev_log_index = prev_index;
          prev_log_term = prev_term;
          entries = entries;
          leader_commit = commit;
          from = from;
          now = now;
        }))
  on_raft_message r from (raft_append_entries_response term success match_index) now =
      from_raft (Handlers.on_append_entries_response env r term from success match_index)
  on_raft_message r from other now = (raft r, err must_be_validated_by_peer)

  on_voting_message : ConsensusEngine → MessageBody → Answer
  on_voting_message e (raft_request_vote term candidate_id last_index last_term) = (e, ok [])
  on_voting_message e (raft_request_vote_response term granted) = (e, ok [])
  on_voting_message e (raft_append_entries term leader_id prev_index prev_term entries commit) =
      (e, ok [])
  on_voting_message e (raft_append_entries_response term success match_index) = (e, ok [])
  on_voting_message e other = (e, err must_be_validated_by_peer)

  unfoldable pub on_message : ConsensusEngine → PeerId → MessageBody → ℕ → Answer
  unfolding on_raft_message on_voting_message
  on_message (voting peer_id votings) from body now =
      on_voting_message (voting peer_id votings) body
  on_message (raft r) from body now = on_raft_message r from body now
