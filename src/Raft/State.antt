-- ===== src/Raft/State.antt =====
-- The state of `RaftConsensus` (src/peer/consensus/raft.rs) and how it starts. An `Instant` and a
-- `Duration` are nanoseconds; `duration_since` stops at 0, as `-` does here.
use rustchain.Base.{
  ℕ, ◌+◌, ◌-◌, ◌*◌, ◌/◌, ◌^◌, min, Option, none, some, List, [], ◌∷◌, Result, ok, ◌>>=◌,
  if◌then◌else◌, ◌==◌, nat_eq,
}
use rustchain.Base.Dict.{Dict}
use rustchain.Data.{PeerId, BlockHash, BlockFile, RaftLogEntry, Error}
use rustchain.Env.{Env}
use rustchain.Raft.LogStore.{AnyRaftLogStore, in_memory, new_in_memory, load}
use rustchain.Raft.Log.{last_log_index}

pub data RaftRole : Type 0 where
  follower candidate leader : RaftRole

pub data VoteResponse : Type 0 where
  vote_granted vote_rejected : VoteResponse

pub record RaftConsensus : Type 0 where
  pub peer_id : PeerId
  pub participants : List PeerId
  pub current_term : ℕ
  pub voted_for : Option PeerId
  pub leader_id : Option PeerId
  pub role : RaftRole
  pub votes_received : List PeerId
  pub heartbeat_interval : ℕ
  pub election_timeout_base : ℕ
  pub election_timeout_jitter : ℕ
  pub current_election_timeout : ℕ
  pub last_heartbeat_received_at : ℕ
  pub last_heartbeat_sent_at : Option ℕ
  pub log : List RaftLogEntry
  pub raft_log_store : AnyRaftLogStore
  pub commit_index : ℕ
  pub match_indexes : Dict PeerId ℕ
  pub pending_blocks : Dict BlockHash BlockFile

-- What a handler returns: the state that it leaves, with a result or an error.
abbrev pub Outcome : Type 0 → Type 0
Outcome A = RaftConsensus × Result Error A

abbrev pub seconds : ℕ → ℕ
seconds n = n * 1_000_000_000

abbrev pub millis : ℕ → ℕ
millis n = n * 1_000_000

abbrev pub default_heartbeat_interval : ℕ
default_heartbeat_interval = seconds 5

abbrev pub default_election_timeout : ℕ
default_election_timeout = seconds 10

abbrev pub default_election_timeout_jitter : ℕ
default_election_timeout_jitter = seconds 5

abbrev pub max_append_entries : ℕ
max_append_entries = 5

-- `consensus.rs`: `ConsensusState::Raft`
pub record RaftState : Type 0 where
  pub role : RaftRole
  pub term : ℕ
  pub leader_id : Option PeerId
  pub commit_index : ℕ
  pub last_log_index : ℕ

unfoldable pub state : RaftConsensus → RaftState
state r = record {
  role = r.role;
  term = r.current_term;
  leader_id = r.leader_id;
  commit_index = r.commit_index;
  last_log_index = last_log_index r.log;
}

module _ (env : Env) where
  -- `u64::try_from` of the milliseconds falls back on `u64::MAX`
  unfoldable pub random_election_timeout : ℕ → ℕ → ℕ
  random_election_timeout base jitter =
      if jitter == 0
      then base
      else base + millis (env.random_range (min (jitter / 1_000_000) (2 ^ 64 - 1)))

  -- `now` is `Instant::now()`
  unfoldable pub new_with_log : PeerId → List RaftLogEntry → ℕ → AnyRaftLogStore → ℕ → RaftConsensus
  unfolding random_election_timeout last_log_index
  new_with_log peer_id log commit_index raft_log_store now = record {
    peer_id = peer_id;
    participants = peer_id ∷ [];
    current_term = 0;
    voted_for = none;
    leader_id = none;
    role = follower;
    votes_received = [];
    heartbeat_interval = default_heartbeat_interval;
    election_timeout_base = default_election_timeout;
    election_timeout_jitter = default_election_timeout_jitter;
    current_election_timeout =
        random_election_timeout default_election_timeout default_election_timeout_jitter;
    last_heartbeat_received_at = now;
    last_heartbeat_sent_at = none;
    log = log;
    raft_log_store = raft_log_store;
    commit_index = min commit_index (last_log_index log);
    match_indexes = [];
    pending_blocks = [];
  }

  unfoldable pub new_with_storage : PeerId → AnyRaftLogStore → ℕ → ℕ → Result Error RaftConsensus
  unfolding new_with_log
  new_with_storage peer_id raft_log_store commit_index now = do
    persisted_state ← load env raft_log_store
    ok (
        new_with_log peer_id persisted_state.log
          (elim persisted_state.commit_index [ none ↦ commit_index | some c ↦ c ]) raft_log_store
          now)

  -- The load of a store in memory cannot fail, so `expect` does not panic: the result is `ok`.
  unfoldable pub new : PeerId → ℕ → Result Error RaftConsensus
  unfolding new_with_storage new_in_memory
  new peer_id now = new_with_storage peer_id (in_memory new_in_memory) 0 now
