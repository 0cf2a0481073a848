-- ===== src/Raft/Election.antt =====
-- src/peer/consensus/raft/election.rs
use rustchain.Base.{
  ℕ, ◌+◌, ◌-◌, ◌/◌, Bool, true, false, not, ◌&&◌, ◌||◌, Option, none, some, List, [], ◌∷◌, ltb, leb,
  if◌then◌else◌, ◌==◌, nat_eq, add_u64, length, keep,
}
use rustchain.Base.Dict
use rustchain.Base.Dict.{Dict}
use rustchain.Base.Sets
use rustchain.Data.{PeerId}
use rustchain.Env.{Env}
use rustchain.Raft.Log.{last_log_index, last_log_term}
use rustchain.Raft.State.{
  RaftConsensus, RaftRole, follower, candidate, leader, VoteResponse, vote_granted, vote_rejected,
  random_election_timeout,
}

abbrev pub is_candidate : RaftRole → Bool
is_candidate candidate = true
is_candidate _ = false

abbrev pub is_leader : RaftRole → Bool
is_leader leader = true
is_leader _ = false

-- `Option<PeerId> == Some(id)`
abbrev pub is_some_id : Option PeerId → PeerId → Bool
is_some_id none id = false
is_some_id (some other) id = other == id

unfoldable pub update_participants : RaftConsensus → List PeerId → RaftConsensus
update_participants r known_peers =
    let participants = Sets.insert r.peer_id (Sets.from_list known_peers) in
    record r {
      participants = participants;
      votes_received = keep (Sets.contains participants) r.votes_received;
      match_indexes = Dict.retain (Sets.contains participants) r.match_indexes;
    }

unfoldable pub majority : RaftConsensus → ℕ
majority r = length r.participants / 2 + 1

-- the loop of `become_leader_if_majority` over the participants
unfoldable pub initial_match_indexes : PeerId → ℕ → List PeerId → Dict PeerId ℕ → Dict PeerId ℕ
initial_match_indexes peer_id last_index [] m = m
initial_match_indexes peer_id last_index (p ∷ ps) m =
    initial_match_indexes peer_id last_index ps
      (Dict.insert p (if p == peer_id then last_index else 0) m)

unfoldable pub become_leader_if_majority : RaftConsensus → RaftConsensus × Bool
unfolding majority initial_match_indexes
become_leader_if_majority r =
    if leb (majority r) (length r.votes_received)
    then (
      record r {
        role = leader;
        leader_id = some r.peer_id;
        last_heartbeat_sent_at = none;
        match_indexes = initial_match_indexes r.peer_id (last_log_index r.log) r.participants [];
      },
      true,
    )
    else (r, false)

unfoldable pub start_election_at : RaftConsensus → ℕ → RaftConsensus × Bool
unfolding become_leader_if_majority
start_election_at r now = become_leader_if_majority (record r {
  current_term = add_u64 r.current_term 1;
  role = candidate;
  voted_for = some r.peer_id;
  leader_id = none;
  votes_received = r.peer_id ∷ [];
  last_heartbeat_received_at = now;
  last_heartbeat_sent_at = none;
})

unfoldable pub step_down : RaftConsensus → ℕ → RaftConsensus
step_down r term = record r {
  current_term = term;
  role = follower;
  voted_for = none;
  leader_id = none;
  votes_received = [];
}

unfoldable pub step_down_on_newer_term : RaftConsensus → ℕ → RaftConsensus
unfolding step_down
step_down_on_newer_term r term = if ltb r.current_term term then step_down r term else r

unfoldable pub candidate_log_is_up_to_date : RaftConsensus → ℕ → ℕ → Bool
candidate_log_is_up_to_date r last_index last_term =
    ltb (last_log_term r.log) last_term
    || (last_term == last_log_term r.log && leb (last_log_index r.log) last_index)

-- The vote of a peer that is in the candidate's term and finds its log up to date.
unfoldable pub grant_vote : RaftConsensus → PeerId → RaftConsensus × VoteResponse
grant_vote r candidate_id = elim r.voted_for [
  | none ↦ (record r { voted_for = some candidate_id }, vote_granted)
  | some voted_for ↦
      if voted_for == candidate_id
      then (record r { voted_for = some candidate_id }, vote_granted)
      else (r, vote_rejected)
]

unfoldable pub request_vote : RaftConsensus → ℕ → PeerId → ℕ → ℕ → RaftConsensus × VoteResponse
unfolding step_down_on_newer_term grant_vote candidate_log_is_up_to_date
request_vote r term candidate_id last_index last_term =
    let s = step_down_on_newer_term r term in
    if ltb term r.current_term
    then (r, vote_rejected)
    else if candidate_log_is_up_to_date s last_index last_term
    then grant_vote s candidate_id
    else (s, vote_rejected)

unfoldable pub receive_vote : RaftConsensus → ℕ → PeerId → Bool → RaftConsensus × Bool
unfolding step_down become_leader_if_majority
receive_vote r term voter_id granted =
    if ltb r.current_term term
    then (step_down r term, false)
    else if not (is_candidate r.role) || not (term == r.current_term) || not granted
    then (r, false)
    else if Sets.contains r.participants voter_id
    then become_leader_if_majority
        (record r { votes_received = Sets.insert voter_id r.votes_received })
    else (r, false)

unfoldable pub leader_timed_out : RaftConsensus → ℕ → Bool
leader_timed_out r now = leb r.current_election_timeout (now - r.last_heartbeat_received_at)

-- `leader_id.is_some_and(|l| l != leader_id)`
abbrev other_leader : Option PeerId → PeerId → Bool
other_leader none id = false
other_leader (some l) id = not (l == id)

module _ (env : Env) where
  unfoldable pub reset_election_timeout : RaftConsensus → RaftConsensus
  reset_election_timeout r = record r {
    current_election_timeout =
        random_election_timeout env r.election_timeout_base r.election_timeout_jitter;
  }

  -- The end of `receive_append_entries_at`: the peer follows the sender.
  unfoldable pub follow : RaftConsensus → PeerId → ℕ → RaftConsensus
  unfolding reset_election_timeout
  follow r leader_id now =
      let s = record r {
        role = follower;
        leader_id = some leader_id;
        votes_received = [];
        last_heartbeat_received_at = now;
      } in
      if is_some_id r.leader_id leader_id then s else reset_election_timeout s

  unfoldable pub receive_append_entries_at :
      RaftConsensus → ℕ → PeerId → PeerId → ℕ → RaftConsensus × Bool
  unfolding step_down_on_newer_term leader_timed_out follow
  receive_append_entries_at r term leader_id from now =
      let s = step_down_on_newer_term r term in
      if not (from == leader_id) || not (Sets.contains r.participants leader_id)
      then (r, false)
      else if ltb term r.current_term
      then (r, false)
      else if other_leader s.leader_id leader_id && not (leader_timed_out s now)
      then (s, false)
      else (follow s leader_id now, true)
