-- ===== src/Voting/Quorum.antt =====
-- The thresholds of `evaluate_outcome` (src/peer/consensus/voting.rs) and the number of peers.
use rustchain.Base.{
  ℕ, subst, Bool-cases, Option-cases, inl, inr, ◌==◌, ◌+◌, ◌*◌, ◌≤◌, ◌≡◌, refl, ◌∙◌, Bool, true,
  false, none, some, List, [], ◌∷◌, length, arith, nat_eq,
}
use rustchain.Base.Sets
use rustchain.Base.Sets.{Within, contains-insert, contains-from_list}
use rustchain.Base.Sets.Counting.{shared, length-shared}
use rustchain.Base.Dict
use rustchain.Base.Dict.{get-insert}
use rustchain.Data.{PeerId, BlockHash, commit_block, broadcast, block_approved}
use rustchain.Voting.{
  VotingConsensus, ConsensusOutcome, Votings, approved, rejected, already_voted, add_vote,
  count_vote, make_vote, is_decided, outcome_effects, vote_on, entry_or_new, new,
  handle_voting_vote, on_block_proposal_validated,
}
use rustchain.Voting.Rounds.{IsValid, new-IsValid, vote_on-IsValid}
use rustchain.Voting.Decisions.{Ballot, run_ballots}

-- Every voting of the map is valid.
abbrev AllValid : Votings → Type 0
AllValid votings = (h : BlockHash) (v : VotingConsensus) → Dict.get votings h ≡ some v → IsValid v

entry_or_new-IsValid :
    (peer_id : PeerId) (known_peers : List PeerId) (votings : Votings) (h : BlockHash)
    → AllValid votings
    → IsValid (entry_or_new peer_id known_peers votings h)
unfolding entry_or_new
entry_or_new-IsValid peer_id known_peers votings h valid =
    elim (Option-cases (Dict.get votings h)) [
      | inl absent ↦ rw (absent, entry_or_new) (new-IsValid peer_id known_peers)
      | inr (v, there) ↦ rw (there, entry_or_new) (valid h v there)
    ]

insert-AllValid :
    (votings : Votings) (k : BlockHash) (w : VotingConsensus)
    → IsValid w
    → AllValid votings
    → AllValid (Dict.insert k w votings)
insert-AllValid votings k w fine valid h v there = elim (Bool-cases (k == h)) [
  | inl here ↦
      let same : w ≡ v = ground (arith, here, there, get-insert votings k h w) in
      subst IsValid same fine
  | inr away ↦ valid h v (ground (arith, away, there, get-insert votings k h w))
]

run_ballots-AllValid :
    (peer_id : PeerId) (ballots : List Ballot) (votings : Votings)
    → AllValid votings
    → AllValid (run_ballots peer_id votings ballots).0
unfolding run_ballots handle_voting_vote
run_ballots-AllValid peer_id [] votings valid = valid
run_ballots-AllValid peer_id (b ∷ bs) votings valid =
    let v = entry_or_new peer_id b.known_peers votings b.block_hash in
    run_ballots-AllValid peer_id bs
      (Dict.insert b.block_hash (vote_on v b.block_hash b.from b.approve).0 votings)
      (insert-AllValid votings b.block_hash (vote_on v b.block_hash b.from b.approve).0
        (vote_on-IsValid v b.block_hash b.from b.approve
          (entry_or_new-IsValid peer_id b.known_peers votings b.block_hash valid)).0
        valid)

-- Two peers that start without votings and handle any ballots, each its own, and both approve a
-- block have f + 1 approvals of it in common, if each counts 3 f + 1 participants, those of the
-- second among those of the first.
pub approved_runs_share :
    (p q : PeerId) (bs cs : List Ballot) (h : BlockHash) (v w : VotingConsensus) (f : ℕ)
    → Dict.get (run_ballots p [] bs).0 h ≡ some v
    → Dict.get (run_ballots q [] cs).0 h ≡ some w
    → v.outcome ≡ some approved
    → w.outcome ≡ some approved
    → length v.participants ≡ 3 * f + 1
    → length w.participants ≡ 3 * f + 1
    → Within w.participants v.participants
    → f + 1 ≤ length (shared v.approvals w.approvals)
approved_runs_share p q bs cs h v w f hv hw ov ow nv nw same =
    let none_yet : AllValid [] = λ k u there. absurd (unfold Dict.get in ground (arith, there)) in
    let valid_v = run_ballots-AllValid p bs [] none_yet h v hv in
    let valid_w = run_ballots-AllValid q cs [] none_yet h w hw in
    omega (
      arith,
      valid_v.approved_iff.0 ov,
      valid_w.approved_iff.0 ow,
      nv,
      nw,
      length-shared v.approvals w.approvals v.participants valid_v.approvals_apart
          valid_w.approvals_apart valid_v.approvals_within
          (λ a m. same a (valid_w.approvals_within a m)),
    )

abbrev pub unanimous : Bool → ConsensusOutcome
unanimous true = approved
unanimous false = rejected

-- With at most three participants, the first vote of a participant decides the block: an approval
-- commits it and a rejection rolls it back.
pub first_vote_settles :
    (v : VotingConsensus) (block_hash : BlockHash) (from : PeerId) (approve : Bool)
    → length v.participants ≤ 3
    → v.approvals ≡ []
    → v.rejections ≡ []
    → v.outcome ≡ none
    → Sets.contains v.participants from ≡ true
    → (vote_on v block_hash from approve).1 ≡ outcome_effects block_hash (unanimous approve)
unfolding vote_on make_vote already_voted is_decided count_vote add_vote Sets.insert Sets.contains
first_vote_settles v block_hash from true small ea er eo member = ground arith
first_vote_settles v block_hash from false small ea er eo member = ground arith

-- With at most three participants, a proposal of one of them for a new block is committed whether
-- or not its validation has succeeded.
pub proposal_commits_unvalidated :
    (peer_id : PeerId) (votings : Votings) (block_hash : BlockHash) (proposer : PeerId)
    (valid : Bool) (known_peers : List PeerId)
    → length (new peer_id known_peers).participants ≤ 3
    → Dict.get votings block_hash ≡ none
    → Sets.contains known_peers proposer ≡ true
    → (on_block_proposal_validated peer_id votings block_hash proposer valid known_peers).1
      ≡ commit_block block_hash ∷ broadcast (block_approved block_hash) ∷ []
unfolding on_block_proposal_validated handle_voting_vote entry_or_new new outcome_effects
proposal_commits_unvalidated peer_id votings h proposer valid known small fresh member =
    let v = new peer_id known in
    let joined : Sets.contains v.participants proposer ≡ true =
      contains-insert (Sets.from_list known) peer_id proposer
      ∙ ground (arith, contains-from_list known proposer) in
    ground (arith, fresh, first_vote_settles v h proposer true small refl refl refl joined)
