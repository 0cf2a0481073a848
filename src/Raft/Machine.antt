-- ===== src/Raft/Machine.antt =====
-- The Raft engine as one machine: an event is a call of a handler of src/peer/consensus/raft.rs.
pub mod History
pub mod Ballots
pub mod Stream
use rustchain.Base.{ℕ, ◌+◌, ◌<◌, ◌^◌, Bool, Option, List, [], ◌∷◌, ok, length}
use rustchain.Data.{PeerId, BlockHash, SignedTransaction, ConsensusEffect}
use rustchain.Env.{Env}
use rustchain.Raft.State.{RaftConsensus, Outcome}
use rustchain.Raft.Replication.Append.{AppendEntriesRequest}
use rustchain.Raft.Handlers.{
  on_client_transaction, on_block_created, on_tick, on_request_vote, on_request_vote_response,
  on_append_entries, on_append_entries_response, take_pending_block,
}

pub data Event : Type 0 where
  client_submitted : SignedTransaction → Event
  block_created : BlockHash → Event
  ticked : ℕ → List PeerId → Event
  -- term, candidate, last log index, last log term, sender
  vote_requested : ℕ → PeerId → ℕ → ℕ → PeerId → Event
  -- term, voter, granted
  vote_answered : ℕ → PeerId → Bool → Event
  entries_received : AppendEntriesRequest → Event
  -- term, sender, success, match index
  entries_answered : ℕ → PeerId → Bool → ℕ → Event
  block_taken : BlockHash → Event

unfoldable pub step : Env → RaftConsensus → Event → Outcome (List ConsensusEffect)
step env r (client_submitted client_tx) = (r, on_client_transaction r client_tx)
step env r (block_created block_hash) = on_block_created env r block_hash
step env r (ticked now known_peers) = on_tick env r now known_peers
step env r (vote_requested term candidate_id last_index last_term from) =
    on_request_vote r term candidate_id last_index last_term from
step env r (vote_answered term voter_id granted) =
    on_request_vote_response env r term voter_id granted
step env r (entries_received request) = on_append_entries env r request
step env r (entries_answered term from success match_index) =
    on_append_entries_response env r term from success match_index
step env r (block_taken block_hash) = ((take_pending_block r block_hash).0, ok [])

-- The state after a list of events; each has its own draws of the random numbers.
unfoldable pub run : RaftConsensus → List (Env × Event) → RaftConsensus
run r [] = r
run r ((env, event) ∷ events) = run (step env r event).0 events

-- No index wraps: the entries of a request end below `2 ^ 64`, and so would one more of the log.
abbrev pub Fits : RaftConsensus → Event → Type 0
Fits r (entries_received request) = request.prev_log_index + length request.entries < 2 ^ 64
Fits r _ = length r.log + 1 < 2 ^ 64
