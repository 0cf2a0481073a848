-- ===== src/Voting/Refusals.antt =====
-- A proposal whose validation has failed (src/peer/consensus/voting.rs).
use rustchain.Base.{
  ◌≤◌, ◌≡◌, refl, ◌∙◌, ◌⊎◌, Bool, true, false, none, some, List, [], ◌∷◌, length, arith, nat_eq,
  ◌==◌, eq_self,
}
use rustchain.Base.Dict
use rustchain.Base.Dict.{get-insert}
use rustchain.Base.Sets
use rustchain.Base.Sets.{contains-insert}
use rustchain.Data.{PeerId, BlockHash, ConsensusEffect, rollback_block, broadcast, block_reject}
use rustchain.Voting.{
  VotingConsensus, Votings, already_voted, add_vote, count_vote, make_vote, is_decided,
  outcome_effects, vote_on, entry_or_new, new, handle_voting_vote, on_block_proposal_validated,
}

-- Four participants at least, no outcome, no rejection, and at most one approval, not of this peer.
record Early (p : PeerId) (v : VotingConsensus) : Type 0 where
  enough : 4 ≤ length v.participants
  undecided : v.outcome ≡ none
  unrejected : v.rejections ≡ []
  few : length v.approvals ≤ 1
  silent : Sets.contains v.approvals p ≡ false
  member : Sets.contains v.participants p ≡ true

vote_on-Early :
    (v : VotingConsensus) (h : BlockHash) (p from : PeerId)
    → Early p v
    → v.approvals ≡ []
    → (from == p) ≡ false
    → Early p (vote_on v h from true).0 × ((vote_on v h from true).1 ≡ [])
unfolding vote_on make_vote already_voted is_decided count_vote add_vote outcome_effects Sets.insert
    Sets.contains
vote_on-Early v h p from e no_one other =
    ground (arith, e.enough, e.undecided, e.unrejected, e.member, no_one, other)

-- The effects of a rejection that decides the block, or none.
abbrev pub Refuses : BlockHash → List ConsensusEffect → Type 0
Refuses h effects = (effects ≡ []) ⊎ (effects ≡ rollback_block h ∷ broadcast (block_reject h) ∷ [])

-- The peer has rejected the block and not approved it.
abbrev pub IsAgainst : PeerId → VotingConsensus → Type 0
IsAgainst p v = (Sets.contains v.rejections p ≡ true) × (Sets.contains v.approvals p ≡ false)

vote_on-Refuses :
    (v : VotingConsensus) (h : BlockHash) (p : PeerId)
    → Early p v
    → IsAgainst p (vote_on v h p false).0 × Refuses h (vote_on v h p false).1
unfolding vote_on make_vote already_voted is_decided count_vote add_vote outcome_effects Sets.insert
    Sets.contains
vote_on-Refuses v h p e =
    ground (arith, e.enough, e.undecided, e.unrejected, e.few, e.silent, e.member)

new-Early :
    (p : PeerId) (known_peers : List PeerId)
    → 4 ≤ length (new p known_peers).participants
    → Early p (new p known_peers)
unfolding new Sets.contains
new-Early p known_peers enough = record {
  enough = enough;
  undecided = refl;
  unrejected = refl;
  few = omega arith;
  silent = refl;
  member = contains-insert (Sets.from_list known_peers) p p ∙ ground (arith, eq_self p);
}

handle_at :
    (p : PeerId) (votings : Votings) (known_peers : List PeerId) (h : BlockHash) (from : PeerId)
    (approve : Bool) (v : VotingConsensus)
    → entry_or_new p known_peers votings h ≡ v
    → handle_voting_vote p votings known_peers h from approve
      ≡ (Dict.insert h (vote_on v h from approve).0 votings, (vote_on v h from approve).1)
unfolding handle_voting_vote
handle_at p votings known_peers h from approve v entry = rw (entry, handle_voting_vote) refl

pub on_block_proposal_validated-Refuses :
    (p : PeerId) (votings : Votings) (h : BlockHash) (proposer : PeerId) (known_peers : List PeerId)
    → 4 ≤ length (new p known_peers).participants
    → Dict.get votings h ≡ none
    → (proposer == p) ≡ false
    → (v : VotingConsensus) × (Dict.get
          (on_block_proposal_validated p votings h proposer false known_peers).0
          h
        ≡ some v)
      × IsAgainst p v
      × Refuses h (on_block_proposal_validated p votings h proposer false known_peers).1
unfolding on_block_proposal_validated entry_or_new
on_block_proposal_validated-Refuses p votings h proposer known_peers enough fresh other =
    let v = new p known_peers in
    let (early, quiet) =
      vote_on-Early v h p proposer (new-Early p known_peers enough) (unfold new in refl) other in
    let first = (vote_on v h proposer true).0 in
    let second = (vote_on first h p false).0 in
    let (against, refuses) = vote_on-Refuses first h p early in
    let entry : entry_or_new p known_peers votings h ≡ v = rw (fresh, entry_or_new) refl in
    let found : Dict.get (Dict.insert h first votings) h ≡ some first =
      get-insert votings h h first ∙ rw (eq_self h) refl in
    let again : entry_or_new p known_peers (Dict.insert h first votings) h ≡ first =
      rw (found, entry_or_new) refl in
    let one : handle_voting_vote p votings known_peers h proposer true
        ≡ (Dict.insert h first votings, []) =
      handle_at p votings known_peers h proposer true v entry ∙ rw quiet refl in
    let two = handle_at p (Dict.insert h first votings) known_peers h p false first again in
    let ends : on_block_proposal_validated p votings h proposer false known_peers
        ≡ (Dict.insert h second (Dict.insert h first votings), (vote_on first h p false).1) =
      rw (one, two, on_block_proposal_validated) refl in
    rw ends (
      second,
      get-insert (Dict.insert h first votings) h h second ∙ rw (eq_self h) refl,
      against,
      refuses,
    )
