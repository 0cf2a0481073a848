-- ===== src/Voting/Decisions.antt =====
-- The decisions on one block over a list of votes (src/peer/consensus/voting.rs).
use rustchain.Base.{
  ℕ, ◌+◌, ◌≤◌, ◌≡◌, Bool, false, Option, none, some, List, [], ◌∷◌, ◌++◌, length, keep, keep-append,
  length-append, arith, nat_eq, ◌==◌, if◌then◌else◌,
}
use rustchain.Base.Dict
use rustchain.Base.Dict.{get-insert}
use rustchain.Data.{PeerId, BlockHash, ConsensusEffect, commit_block, rollback_block}
use rustchain.Voting.Rounds.{outcome-add_vote}
use rustchain.Voting.{
  VotingConsensus, Votings, make_vote, count_vote, is_decided, outcome_effects, vote_on,
  entry_or_new, new, handle_voting_vote,
}

-- One call of the handler; the known peers may differ from call to call.
pub record Ballot : Type 0 where
  pub block_hash : BlockHash
  pub from : PeerId
  pub approve : Bool
  pub known_peers : List PeerId

unfoldable pub run_ballots : PeerId → Votings → List Ballot → Votings × List ConsensusEffect
run_ballots peer_id votings [] = (votings, [])
run_ballots peer_id votings (b ∷ bs) =
    let (next, effects) =
      handle_voting_vote peer_id votings b.known_peers b.block_hash b.from b.approve in
    let (last, more) = run_ballots peer_id next bs in (last, effects ++ more)

-- The effects that settle a block.
pub settles : BlockHash → ConsensusEffect → Bool
settles block_hash (commit_block h) = h == block_hash
settles block_hash (rollback_block h) = h == block_hash
settles block_hash _ = false

abbrev pub settled : BlockHash → List ConsensusEffect → ℕ
settled block_hash effects = length (keep (settles block_hash) effects)

abbrev pub room : Option VotingConsensus → ℕ
room none = 1
room (some v) = if is_decided v then 0 else 1

vote_on-room :
    (v : VotingConsensus) (h : BlockHash) (from : PeerId) (approve : Bool)
    → settled h (vote_on v h from approve).1 + room (some (vote_on v h from approve).0)
      ≤ room (some v)
unfolding vote_on make_vote count_vote outcome_effects is_decided keep settles
vote_on-room v h from approve = ground (arith, outcome-add_vote v from approve)

settled-vote_on_ne :
    (v : VotingConsensus) (h k : BlockHash) (from : PeerId) (approve : Bool)
    → (k == h) ≡ false
    → settled h (vote_on v k from approve).1 ≡ 0
unfolding vote_on outcome_effects keep settles
settled-vote_on_ne v h k from approve ne = ground arith

room-entry_or_new :
    (peer_id : PeerId) (known_peers : List PeerId) (votings : Votings) (h : BlockHash)
    → room (some (entry_or_new peer_id known_peers votings h)) ≡ room (Dict.get votings h)
unfolding entry_or_new new is_decided
room-entry_or_new peer_id known_peers votings h = ground arith

handle_voting_vote-room :
    (peer_id : PeerId) (votings : Votings) (known_peers : List PeerId) (h k : BlockHash)
    (from : PeerId) (approve : Bool)
    → let (next, effects) = handle_voting_vote peer_id votings known_peers k from approve in
      settled h effects + room (Dict.get next h) ≤ room (Dict.get votings h)
unfolding handle_voting_vote
handle_voting_vote-room peer_id votings known_peers h k from approve =
    let v = entry_or_new peer_id known_peers votings k in
    ground (
      arith,
      get-insert votings k h (vote_on v k from approve).0,
      vote_on-room v k from approve,
      room-entry_or_new peer_id known_peers votings k,
      settled-vote_on_ne v h k from approve,
    )

settled-append :
    (h : BlockHash) (xs ys : List ConsensusEffect)
    → settled h (xs ++ ys) ≡ settled h xs + settled h ys
settled-append h xs ys = rw keep-append (length-append _ _)

run_ballots-room :
    (peer_id : PeerId) (votings : Votings) (bs : List Ballot) (h : BlockHash)
    → settled h (run_ballots peer_id votings bs).1
        + room (Dict.get (run_ballots peer_id votings bs).0 h)
      ≤ room (Dict.get votings h)
unfolding run_ballots
run_ballots-room peer_id votings [] h = unfold keep in omega arith
run_ballots-room peer_id votings (b ∷ bs) h =
    let (next, effects) =
      handle_voting_vote peer_id votings b.known_peers b.block_hash b.from b.approve in
    omega (
      arith,
      handle_voting_vote-room peer_id votings b.known_peers h b.block_hash b.from b.approve,
      run_ballots-room peer_id next bs h,
      settled-append h effects (run_ballots peer_id next bs).1,
    )

-- Over any list of ballots, commit and rollback effects for one block are emitted at most once in
-- all.
pub settled_once :
    (peer_id : PeerId) (votings : Votings) (bs : List Ballot) (h : BlockHash)
    → settled h (run_ballots peer_id votings bs).1 ≤ room (Dict.get votings h)
settled_once peer_id votings bs h = omega (arith, run_ballots-room peer_id votings bs h)
