-- ===== src/Voting/Tests.antt =====
-- Runs of the voting rules at small clusters, those of the source's tests among them.
use rustchain.Base.{
  ◌||◌, ◌==◌, keep, ◌≤◌, ◌≡◌, refl, true, false, none, some, List, [], ◌∷◌, length, arith, nat_eq,
}
use rustchain.Base.Sets
use rustchain.Base.Sets.{Within}
use rustchain.Base.Sets.Counting.{shared}
use rustchain.Base.Dict
use rustchain.Data.{PeerId, commit_block, broadcast, block_approved}
use rustchain.Voting.{
  handle_voting_vote, entry_or_new, VotingConsensus, approved, rejected, pending, new, make_vote,
  vote_on, on_block_proposal_validated, evaluate_outcome, outcome_effects,
}
use rustchain.Voting.Rounds.{IsValid, new-IsValid, vote_on-IsValid}
use rustchain.Voting.Quorum.{approved_runs_share, first_vote_settles, proposal_commits_unvalidated}
use rustchain.Voting.Decisions.{Ballot, run_ballots, settled, settled_once}

abbrev four : List PeerId
four = 2 ∷ 3 ∷ 4 ∷ []

-- `approves_when_threshold_is_reached`
abbrev third : VotingConsensus
third = (vote_on (vote_on (vote_on (new 1 four) 9 1 true).0 9 2 true).0 9 3 true).0

third_approved : third.outcome ≡ some approved
unfolding vote_on new Sets.contains Sets.insert Sets.from_list
third_approved = refl

-- `rejects_when_threshold_is_reached`
veto : (make_vote (new 1 four) 2 false).1 ≡ rejected
unfolding make_vote new Sets.contains Sets.insert Sets.from_list
veto = refl

-- `ignores_votes_from_non_participants`
stranger : (make_vote (new 1 four) 99 true).1 ≡ pending
unfolding make_vote new Sets.contains Sets.insert Sets.from_list
stranger = refl

vote_on-IsValid_example :
    let w = (vote_on (new 1 four) 9 2 false).0 in
    IsValid w
    × ((q : PeerId)
        → (Sets.contains w.approvals q ≡ (Sets.contains [] q || false))
          × (Sets.contains w.rejections q ≡ (Sets.contains [] q || 2 == q)))
unfolding new Sets.contains Sets.insert Sets.from_list
vote_on-IsValid_example = vote_on-IsValid (new 1 four) 9 2 false (new-IsValid 1 four)

-- Peer 1 counts the votes of 1, 2 and 3, peer 4 those of 4, 2 and 3.
abbrev approval : PeerId → List PeerId → Ballot
approval from known_peers = record {
  block_hash = 9;
  from = from;
  approve = true;
  known_peers = known_peers;
}

abbrev at_first : List Ballot
at_first = approval 1 four ∷ approval 2 four ∷ approval 3 four ∷ []

abbrev at_fourth : List Ballot
at_fourth =
    let known_peers = 1 ∷ 2 ∷ 3 ∷ [] in
    approval 4 known_peers ∷ approval 2 known_peers ∷ approval 3 known_peers ∷ []

abbrev first_voting : VotingConsensus
first_voting = record {
  participants = 4 ∷ 3 ∷ 2 ∷ 1 ∷ [];
  approvals = 1 ∷ 2 ∷ 3 ∷ [];
  rejections = [];
  outcome = some approved;
}

abbrev fourth_voting : VotingConsensus
fourth_voting = record {
  participants = 3 ∷ 2 ∷ 1 ∷ 4 ∷ [];
  approvals = 4 ∷ 2 ∷ 3 ∷ [];
  rejections = [];
  outcome = some approved;
}

first_runs : Dict.get (run_ballots 1 [] at_first).0 9 ≡ some first_voting
unfolding run_ballots Dict.get Dict.insert Sets.contains Sets.insert Sets.from_list
    handle_voting_vote vote_on new entry_or_new
first_runs = refl

fourth_runs : Dict.get (run_ballots 4 [] at_fourth).0 9 ≡ some fourth_voting
unfolding run_ballots Dict.get Dict.insert Sets.contains Sets.insert Sets.from_list
    handle_voting_vote vote_on new entry_or_new
fourth_runs = refl

same_participants : Within fourth_voting.participants first_voting.participants
unfolding Sets.contains
same_participants a m = ground (arith, m)

approved_runs_share_example : 2 ≤ length (shared first_voting.approvals fourth_voting.approvals)
approved_runs_share_example =
    approved_runs_share 1 4 at_first at_fourth 9 first_voting fourth_voting 1 first_runs fourth_runs
      refl refl refl refl same_participants

abbrev pair : VotingConsensus
pair = record { participants = 2 ∷ 3 ∷ 1 ∷ []; approvals = []; rejections = []; outcome = none }

first_vote_settles_example :
    (vote_on pair 9 2 true).1 ≡ commit_block 9 ∷ broadcast (block_approved 9) ∷ []
unfolding Sets.contains outcome_effects
first_vote_settles_example = first_vote_settles pair 9 2 true (omega arith) refl refl refl refl

proposal_commits_unvalidated_example :
    (on_block_proposal_validated 1 [] 9 2 false (2 ∷ 3 ∷ [])).1
    ≡ commit_block 9 ∷ broadcast (block_approved 9) ∷ []
unfolding new Dict.get Sets.contains Sets.insert Sets.from_list
proposal_commits_unvalidated_example =
    proposal_commits_unvalidated 1 [] 9 2 false (2 ∷ 3 ∷ []) (omega arith) refl refl

abbrev votes : List Ballot
votes =
    record { block_hash = 9; from = 1; approve = true; known_peers = four }
    ∷ record { block_hash = 8; from = 2; approve = false; known_peers = four }
    ∷ record { block_hash = 9; from = 3; approve = false; known_peers = four }
    ∷ record { block_hash = 9; from = 4; approve = false; known_peers = four }
    ∷ []

settled_once_example : settled 9 (run_ballots 1 [] votes).1 ≤ 1
unfolding Dict.get
settled_once_example = settled_once 1 [] votes 9

-- With six participants two quorums of three need not meet.
abbrev left : VotingConsensus
left = record {
  participants = 1 ∷ 2 ∷ 3 ∷ 4 ∷ 5 ∷ 6 ∷ [];
  approvals = 1 ∷ 2 ∷ 3 ∷ [];
  rejections = [];
  outcome = some approved;
}

abbrev right : VotingConsensus
right = record left { approvals = 4 ∷ 5 ∷ 6 ∷ [] }

quorums_of_six_apart :
    (evaluate_outcome 6 3 0 ≡ approved) × (shared left.approvals right.approvals ≡ [])
unfolding evaluate_outcome keep Sets.contains
quorums_of_six_apart = (refl, refl)
