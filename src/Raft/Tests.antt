-- ===== src/Raft/Tests.antt =====
-- Runs of the Raft engine on a small cluster: src/peer/consensus/raft.rs and its parts.
use rustchain.Base.{
  ◌++◌, ok, ℕ, ◌+◌, ◌≤◌, ◌≡◌, refl, true, none, some, List, [], ◌∷◌, take, drop, arith, nat_eq, ◌⊎◌,
}
use rustchain.Base.Dict
use rustchain.Base.Sets
use rustchain.Data.{PeerId, RaftLogEntry, is_noop, rollback_block, commit_block, stage_raft_entries}
use rustchain.Env.{Env}
use rustchain.Env.Samples.{sample}
use rustchain.Raft.LogStore.{in_memory, new_in_memory, save, load}
use rustchain.Raft.Recovery.{load-save, persist_log-restart}
use rustchain.Raft.Log.{last_log_index, last_log_term, has_term, entries_are_contiguous_after}
use rustchain.Raft.State.{new_with_storage, RaftConsensus, follower, leader}
use rustchain.Raft.Election.{request_vote}
use rustchain.Raft.Replication.{persist_log, append_entries, finish_append, place_entries}
use rustchain.Raft.Replication.Leader.{advance_commit_index}
use rustchain.Raft.Replication.Merge.{merge, overrules, dropped, ruled, place_entries-ruled}
use rustchain.Raft.Replication.Safety.{IsSound, append_entries-merged}
use rustchain.Raft.Replication.Committed.{
  terms, append_entries_keeps_committed, append_entries_matches,
}
use rustchain.Raft.Replication.Advance.{Has, IsCommittable, advance_commits_majority}
use rustchain.Raft.Handlers.{
  on_tick, on_request_vote, on_request_vote_response, on_append_entries_response,
}
use rustchain.Raft.Machine.{
  entries_answered, Event, step, run, ticked, vote_requested, vote_answered,
}
use rustchain.Raft.Machine.History.Kept.{Extends}
use rustchain.Raft.Machine.History.{step-Extends, run-Extends}
use rustchain.Raft.Machine.Stream.{committed}
use rustchain.Raft.Machine.Stream.Runs.{emitted, run-emitted}
use rustchain.Raft.Machine.Ballots.Votes.{KeepsVote}
use rustchain.Raft.Machine.Ballots.{step-KeepsVote, one_vote_in_a_term}

abbrev entry : ℕ → ℕ → ℕ → RaftLogEntry
entry term index block_hash = record { term = term; index = index; block_hash = block_hash }

abbrev stored : List RaftLogEntry
stored = entry 1 1 7 ∷ entry 1 2 8 ∷ entry 1 3 9 ∷ []

-- A follower of three entries, the first of them committed.
abbrev peer : RaftConsensus
peer = record {
  peer_id = 1;
  participants = 1 ∷ 2 ∷ 3 ∷ [];
  current_term = 2;
  voted_for = none;
  leader_id = some 2;
  role = follower;
  votes_received = [];
  heartbeat_interval = 5;
  election_timeout_base = 10;
  election_timeout_jitter = 0;
  current_election_timeout = 10;
  last_heartbeat_received_at = 0;
  last_heartbeat_sent_at = none;
  log = stored;
  raft_log_store = in_memory new_in_memory;
  commit_index = 1;
  match_indexes = [];
  pending_blocks = [];
}

peer-IsSound : IsSound peer
peer-IsSound = record { numbered = (refl, (refl, (refl, tt))); covers = omega arith }

-- The leader of term 2 replaces the entries from the second on.
abbrev sent : List RaftLogEntry
sent = entry 2 2 5 ∷ []

place_entries-ruled_example :
    place_entries 1 sent stored []
    ≡ ruled 1 (entry 1 1 7 ∷ []) (entry 1 2 8 ∷ entry 1 3 9 ∷ []) sent []
place_entries-ruled_example =
    place_entries-ruled 1 (entry 1 1 7 ∷ []) (entry 1 2 8 ∷ entry 1 3 9 ∷ []) sent []
      (refl, (refl, (refl, tt))) (refl, tt) (omega arith)

append_entries-merged_example : append_entries peer 1 1 sent 2 ≡ (
  record peer { log = entry 1 1 7 ∷ entry 2 2 5 ∷ []; commit_index = 2 },
  some (rollback_block 8 ∷ rollback_block 9 ∷ stage_raft_entries sent ∷ commit_block 5 ∷ []),
)
unfolding has_term entries_are_contiguous_after merge overrules dropped finish_append is_noop
append_entries-merged_example = append_entries-merged peer 1 1 sent 2 peer-IsSound (omega arith)

append_entries_keeps_committed_example :
    let next = (append_entries peer 1 1 sent 9).0 in
    IsSound next × (1 ≤ next.commit_index) × (take 1 next.log ≡ entry 1 1 7 ∷ [])
append_entries_keeps_committed_example =
    append_entries_keeps_committed peer 1 1 sent 9 peer-IsSound (omega arith)

append_entries_matches_example :
    (take 1 (entry 1 1 7 ∷ entry 2 2 5 ∷ []) ≡ take 1 stored)
    × (terms (take 1 (drop 1 (entry 1 1 7 ∷ entry 2 2 5 ∷ []))) ≡ terms sent)
    × (1 + 1 ≤ 2)
append_entries_matches_example =
    append_entries_matches peer 1 1 sent 2 peer-IsSound (omega arith) append_entries-merged_example

-- A heartbeat about the first entry commits the second, which no one has compared.
heartbeat_commits_uncompared : (append_entries peer 1 1 [] 2).0 ≡ record peer { commit_index = 2 }
unfolding append_entries has_term
heartbeat_commits_uncompared = refl

-- As leader of term 1, with two of three peers at the second entry.
abbrev chief : RaftConsensus
chief = record peer {
  current_term = 1;
  role = leader;
  leader_id = some 1;
  match_indexes = (1, 3) ∷ (2, 2) ∷ (3, 0) ∷ [];
}

chief-IsSound : IsSound chief
chief-IsSound = record { numbered = (refl, (refl, (refl, tt))); covers = omega arith }

chief_commits : (advance_commit_index chief).0.commit_index ≡ 2
unfolding advance_commit_index Dict.get
chief_commits = refl

advance_commits_majority_example :
    let k = (advance_commit_index chief).0.commit_index in
    ((k ≡ 1) ⊎ ((e : RaftLogEntry) × Has e stored × IsCommittable chief e × (e.index ≡ k)))
    × ((e : RaftLogEntry) → Has e stored → IsCommittable chief e → e.index ≤ k)
    × (1 ≤ k)
    × (k ≤ 3)
advance_commits_majority_example = advance_commits_majority chief chief-IsSound

-- The election timeout passes, a vote of the new term comes in, and a stale one after it.
abbrev election : List (Env × Event)
election =
    (sample, ticked 30 (2 ∷ 3 ∷ []))
    ∷ (sample, vote_answered 3 2 true)
    ∷ (sample, vote_answered 2 3 true)
    ∷ []

elected : (run peer election).role ≡ leader
unfolding run step on_request_vote_response on_tick Sets.insert Sets.contains Sets.from_list
elected = refl

step-Extends_example : Extends peer (step sample peer (ticked 30 (2 ∷ 3 ∷ []))).0
step-Extends_example = step-Extends sample peer peer-IsSound (ticked 30 (2 ∷ 3 ∷ [])) (omega arith)

run-Extends_example : Extends peer (run peer election)
unfolding run step on_request_vote_response on_tick Sets.insert Sets.contains Sets.from_list
run-Extends_example =
    run-Extends peer election peer-IsSound (omega arith, (omega arith, (omega arith, tt)))

step-KeepsVote_example : KeepsVote peer (step sample peer (ticked 30 (2 ∷ 3 ∷ []))).0
step-KeepsVote_example = step-KeepsVote sample peer (ticked 30 (2 ∷ 3 ∷ [])) (omega arith)

-- Peer 3 asks in between and is refused; peer 2 asks again.
abbrev asked : List (Env × Event)
asked = (sample, vote_requested 2 3 3 1 3) ∷ []

abbrev second : PeerId
second = 2

one_vote_in_a_term_example : second ≡ 2
unfolding step request_vote last_log_term last_log_index run on_request_vote
one_vote_in_a_term_example =
    one_vote_in_a_term peer asked 2 second 2 3 1 3 1 (omega arith, tt) refl refl

-- JSON that parses as what the peer has written.
abbrev parsing : Env
parsing = record sample {
  parse_raft_log = λ bytes. some (record { log = stored; commit_index = 1 });
}

load-save_example :
    load parsing (save parsing (in_memory new_in_memory) stored 1).0
    ≡ ok (record { log = stored; commit_index = some 1 })
load-save_example =
    load-save parsing (in_memory new_in_memory) stored 1 refl tt (unfold save in refl)

persist_log-restart_example :
    (t : RaftConsensus) × (new_with_storage parsing 1
        (persist_log parsing peer).0.raft_log_store
        0
        5
      ≡ ok t)
    × (t.log ≡ stored)
    × (t.commit_index ≡ 1)
    × (t.current_term ≡ 0)
    × (t.voted_for ≡ none)
unfolding persist_log save
persist_log-restart_example = persist_log-restart parsing peer 0 5 peer-IsSound refl tt refl

-- The third participant reports all entries to the leader.
abbrev acks : List (Env × Event)
acks = (sample, entries_answered 1 3 true 3) ∷ []

acks_emit : emitted chief acks ≡ 8 ∷ 9 ∷ []
unfolding step on_append_entries_response Dict.get Dict.insert Sets.contains save is_noop
acks_emit = refl

run-emitted_example : committed (run chief acks) ≡ committed chief ++ emitted chief acks
unfolding step on_append_entries_response Dict.get Dict.insert Sets.contains save is_noop
run-emitted_example = run-emitted chief acks chief-IsSound (omega arith, tt) (tt, tt)
