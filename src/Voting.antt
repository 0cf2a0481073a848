-- ===== src/Voting.antt =====
-- src/peer/consensus/voting.rs: the votes on one block, and the handlers over the votes on all
-- blocks. A method that changes an object returns the new one.
pub mod Refusals
pub mod Rounds
pub mod Quorum
pub mod Decisions
mod Tests
use rustchain.Base.{
  ℕ, ◌+◌, ◌-◌, ◌*◌, ◌/◌, Bool, true, false, ◌||◌, Option, none, some, List, [], ◌∷◌, ◌++◌, leb,
  if◌then◌else◌, length, is_empty, nat_eq,
}
use rustchain.Base.Dict
use rustchain.Base.Dict.{Dict}
use rustchain.Base.Sets
use rustchain.Data.{
  PeerId, BlockHash, SignedTransaction, ConsensusEffect, stage_client_transaction,
  broadcast_client_transaction, propose_block, commit_block, rollback_block, broadcast,
  block_approved, block_reject,
}

pub data ConsensusOutcome : Type 0 where
  pending approved rejected : ConsensusOutcome

pub record VotingConsensus : Type 0 where
  pub participants : List PeerId
  pub approvals : List PeerId
  pub rejections : List PeerId
  pub outcome : Option ConsensusOutcome

abbrev pub Votings : Type 0
Votings = Dict BlockHash VotingConsensus

unfoldable pub new : PeerId → List PeerId → VotingConsensus
new peer_id known_peers = record {
  participants = Sets.insert peer_id (Sets.from_list known_peers);
  approvals = [];
  rejections = [];
  outcome = none;
}

unfoldable pub already_voted : VotingConsensus → PeerId → Bool
already_voted v peer_id = Sets.contains v.approvals peer_id || Sets.contains v.rejections peer_id

-- the `f` of `evaluate_outcome`
abbrev pub tolerated : ℕ → ℕ
tolerated total_peers = (total_peers - 1) / 3

unfoldable pub evaluate_outcome : ℕ → ℕ → ℕ → ConsensusOutcome
evaluate_outcome total_peers approvals rejections =
    let f = tolerated total_peers in
    if leb (2 * f + 1) approvals then approved else if leb f rejections then rejected else pending

unfoldable pub add_vote : VotingConsensus → PeerId → Bool → VotingConsensus
add_vote v peer_id true = record v { approvals = Sets.insert peer_id v.approvals }
add_vote v peer_id false = record v { rejections = Sets.insert peer_id v.rejections }

-- Only a final outcome is kept.
keep_outcome : VotingConsensus → ConsensusOutcome → VotingConsensus × ConsensusOutcome
keep_outcome v pending = (v, pending)
keep_outcome v approved = (record v { outcome = some approved }, approved)
keep_outcome v rejected = (record v { outcome = some rejected }, rejected)

unfoldable pub count_vote : VotingConsensus → VotingConsensus × ConsensusOutcome
unfolding evaluate_outcome keep_outcome
count_vote v =
    keep_outcome v
      (evaluate_outcome (length v.participants) (length v.approvals) (length v.rejections))

unfoldable pub make_vote : VotingConsensus → PeerId → Bool → VotingConsensus × ConsensusOutcome
unfolding add_vote count_vote
make_vote v peer_id approve = elim v.outcome [
  | some outcome ↦ (v, outcome)
  | none ↦
      if Sets.contains v.participants peer_id
      then count_vote (add_vote v peer_id approve)
      else (v, pending)
]

unfoldable pub outcome_effects : BlockHash → ConsensusOutcome → List ConsensusEffect
outcome_effects block_hash approved =
    commit_block block_hash ∷ broadcast (block_approved block_hash) ∷ []
outcome_effects block_hash rejected =
    rollback_block block_hash ∷ broadcast (block_reject block_hash) ∷ []
outcome_effects block_hash pending = []

unfoldable pub is_decided : VotingConsensus → Bool
is_decided v = elim v.outcome [ none ↦ false | some o ↦ true ]

-- What `handle_voting_vote` does with the entry that it has found or made.
unfoldable pub vote_on :
    VotingConsensus → BlockHash → PeerId → Bool → VotingConsensus × List ConsensusEffect
unfolding make_vote outcome_effects already_voted is_decided
vote_on v block_hash from approve =
    let (voted, outcome) = make_vote v from approve in
    if already_voted v from || is_decided v
    then (v, [])
    else (voted, outcome_effects block_hash outcome)

unfoldable pub entry_or_new : PeerId → List PeerId → Votings → BlockHash → VotingConsensus
entry_or_new peer_id known_peers votings block_hash = elim (Dict.get votings block_hash) [
  | none ↦ new peer_id known_peers
  | some v ↦ v
]

unfoldable pub handle_voting_vote :
    PeerId → Votings → List PeerId → BlockHash → PeerId → Bool → Votings × List ConsensusEffect
handle_voting_vote peer_id votings known_peers block_hash from approve =
    let (v, effects) =
      vote_on (entry_or_new peer_id known_peers votings block_hash) block_hash from approve in
    (Dict.insert block_hash v votings, effects)

unfoldable pub on_client_transaction : SignedTransaction → List ConsensusEffect
on_client_transaction client_tx =
    stage_client_transaction client_tx ∷ broadcast_client_transaction client_tx ∷ []

unfoldable pub on_block_created : BlockHash → List ConsensusEffect
on_block_created block_hash = propose_block block_hash ∷ []

unfoldable pub on_local_block_proposed :
    PeerId → Votings → BlockHash → List PeerId → Votings × List ConsensusEffect
on_local_block_proposed peer_id votings block_hash known_peers =
    handle_voting_vote peer_id votings known_peers block_hash peer_id true

unfoldable pub on_block_proposal_validated :
    PeerId → Votings → BlockHash → PeerId → Bool → List PeerId → Votings × List ConsensusEffect
on_block_proposal_validated peer_id votings block_hash proposer valid known_peers =
    let (first, effects) =
      handle_voting_vote peer_id votings known_peers block_hash proposer true in
    let (second, more) = handle_voting_vote peer_id first known_peers block_hash peer_id valid in
    if is_empty effects then (second, effects ++ more) else (first, effects)

unfoldable pub on_block_vote :
    PeerId → Votings → BlockHash → PeerId → Bool → List PeerId → Votings × List ConsensusEffect
on_block_vote peer_id votings block_hash from approve known_peers =
    handle_voting_vote peer_id votings known_peers block_hash from approve
