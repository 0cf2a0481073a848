-- ===== src/Voting/Rounds.antt =====
-- One block's votes, vote by vote (src/peer/consensus/voting.rs).
use rustchain.Base.{
  ℕ, ◌-◌, ◌/◌, ◌<◌, ◌↔◌, Option, not, ◌&&◌, ◌||◌, ◌==◌, ◌∷◌, ◌+◌, ◌*◌, ◌≤◌, ◌≡◌, refl, ◌⊎◌, inl,
  inr, Bool, true, false, ◌∙◌, none, some, List, [], length, arith, nat_eq,
}
use rustchain.Base.Sets
use rustchain.Base.Sets.{Distinct, Within, Distinct-insert, contains-insert, Distinct-from_list}
use rustchain.Data.{PeerId, BlockHash}
use rustchain.Voting.{
  VotingConsensus, ConsensusOutcome, pending, approved, rejected, new, already_voted, add_vote,
  count_vote, make_vote, is_decided, outcome_effects, vote_on,
}

-- The number of approvals that approve a block among n participants, and that of rejections that
-- reject it: with n = 3 f + 1, one more than 2 f, and f.
abbrev pub quorum : ℕ → ℕ
quorum n = 2 * ((n - 1) / 3) + 1

abbrev pub veto : ℕ → ℕ
veto n = (n - 1) / 3

-- Who voted took part, no peer is in both sets, and the outcome is the one that the counts of the
-- votes give: approved exactly with a quorum of approvals; else rejected exactly with a veto of
-- rejections, once anyone has voted; else there is none.
pub record IsValid (v : VotingConsensus) : Type 0 where
  pub apart : Distinct v.participants
  pub approvals_apart : Distinct v.approvals
  pub rejections_apart : Distinct v.rejections
  pub approvals_within : Within v.approvals v.participants
  pub rejections_within : Within v.rejections v.participants
  pub once :
      (p : PeerId) → Sets.contains v.approvals p ≡ true → Sets.contains v.rejections p ≡ false
  pub approved_iff :
      (v.outcome ≡ some approved) ↔ (quorum (length v.participants) ≤ length v.approvals)
  pub rejected_iff : (v.outcome ≡ some rejected) ↔ (
      (length v.approvals < quorum (length v.participants))
      × (veto (length v.participants) ≤ length v.rejections)
      × (0 < length v.approvals + length v.rejections))
  pub not_pending : v.outcome ≡ some pending → ⊥

pub new-IsValid : (peer_id : PeerId) (known_peers : List PeerId) → IsValid (new peer_id known_peers)
unfolding new Sets.contains
new-IsValid peer_id known_peers = record {
  apart = Distinct-insert peer_id (Sets.from_list known_peers) (Distinct-from_list known_peers);
  approvals_apart = tt;
  rejections_apart = tt;
  approvals_within = λ p h. ground arith;
  rejections_within = λ p h. ground arith;
  once = λ p h. ground arith;
  approved_iff = ground arith;
  rejected_iff = ground arith;
  not_pending = λ h. ground arith;
}

insert-positive : (p : PeerId) (peers : List PeerId) → 0 < length (Sets.insert p peers)
unfolding Sets.insert Sets.contains
insert-positive p [] = omega arith
insert-positive p (q ∷ peers) = ground arith

-- What holds of the votes whatever the outcome is.
record Votes (v : VotingConsensus) : Type 0 where
  apart : Distinct v.participants
  approvals_apart : Distinct v.approvals
  rejections_apart : Distinct v.rejections
  approvals_within : Within v.approvals v.participants
  rejections_within : Within v.rejections v.participants
  once : (p : PeerId) → Sets.contains v.approvals p ≡ true → Sets.contains v.rejections p ≡ false
  anyone : 0 < length v.approvals + length v.rejections

add_vote-Votes :
    (v : VotingConsensus) (p : PeerId) (approve : Bool)
    → IsValid v
    → Sets.contains v.participants p ≡ true
    → already_voted v p ≡ false
    → Votes (add_vote v p approve)
unfolding add_vote already_voted
add_vote-Votes v p true h member fresh = record {
  apart = h.apart;
  approvals_apart = Distinct-insert p v.approvals h.approvals_apart;
  rejections_apart = h.rejections_apart;
  approvals_within = λ q m. ground (arith, contains-insert v.approvals p q, h.approvals_within q);
  rejections_within = h.rejections_within;
  once = λ q m. ground (arith, contains-insert v.approvals p q, h.once q);
  anyone = omega (arith, insert-positive p v.approvals);
}
add_vote-Votes v p false h member fresh = record {
  apart = h.apart;
  approvals_apart = h.approvals_apart;
  rejections_apart = Distinct-insert p v.rejections h.rejections_apart;
  approvals_within = h.approvals_within;
  rejections_within =
      λ q m. ground (arith, contains-insert v.rejections p q, h.rejections_within q);
  once = λ q m. ground (arith, contains-insert v.rejections p q, h.once q);
  anyone = omega (arith, insert-positive p v.rejections);
}

count_vote-IsValid : (v : VotingConsensus) → v.outcome ≡ none → Votes v → IsValid (count_vote v).0
unfolding count_vote
count_vote-IsValid v e h = record {
  apart = ground (arith, h.apart);
  approvals_apart = ground (arith, h.approvals_apart);
  rejections_apart = ground (arith, h.rejections_apart);
  approvals_within = ground (arith, h.approvals_within);
  rejections_within = ground (arith, h.rejections_within);
  once = ground (arith, h.once);
  approved_iff = ground arith;
  rejected_iff = ground (arith, h.anyone);
  not_pending = λ o. ground arith;
}

-- A vote counts only from a participant that has not voted, and while the outcome is open; any
-- other changes nothing and asks for nothing.
pub vote_on-cases :
    (v : VotingConsensus) (block_hash : BlockHash) (from : PeerId) (approve : Bool)
    → (vote_on v block_hash from approve ≡ (v, []))
      ⊎ ((already_voted v from ≡ false)
          × (v.outcome ≡ none)
          × (Sets.contains v.participants from ≡ true)
          × (vote_on v block_hash from approve ≡ (
            (count_vote (add_vote v from approve)).0,
            outcome_effects block_hash (count_vote (add_vote v from approve)).1,
          )))
unfolding vote_on make_vote is_decided outcome_effects
vote_on-cases v block_hash from approve = ground arith

pub outcome-add_vote :
    (v : VotingConsensus) (p : PeerId) (approve : Bool) → (add_vote v p approve).outcome ≡ v.outcome
unfolding add_vote
outcome-add_vote v p true = refl
outcome-add_vote v p false = refl

abbrev pub is_open : Option ConsensusOutcome → Bool
is_open none = true
is_open (some o) = false

-- A vote counts while the outcome is open, if it is the first of a participant.
abbrev pub counts : VotingConsensus → PeerId → Bool
counts v from =
    is_open v.outcome
    && Sets.contains v.participants from
    && not (Sets.contains v.approvals from || Sets.contains v.rejections from)

vote_on-approvals :
    (v : VotingConsensus) (block_hash : BlockHash) (from : PeerId) (approve : Bool) (q : PeerId)
    → Sets.contains (vote_on v block_hash from approve).0.approvals q
      ≡ (Sets.contains v.approvals q || (counts v from && approve && from == q))
unfolding vote_on make_vote already_voted is_decided count_vote add_vote
vote_on-approvals v block_hash from true q = ground (arith, contains-insert v.approvals from q)
vote_on-approvals v block_hash from false q = ground arith

vote_on-rejections :
    (v : VotingConsensus) (block_hash : BlockHash) (from : PeerId) (approve : Bool) (q : PeerId)
    → Sets.contains (vote_on v block_hash from approve).0.rejections q
      ≡ (Sets.contains v.rejections q || (counts v from && not approve && from == q))
unfolding vote_on make_vote already_voted is_decided count_vote add_vote
vote_on-rejections v block_hash from true q = ground arith
vote_on-rejections v block_hash from false q = ground (arith, contains-insert v.rejections from q)

-- A vote keeps a voting valid: the votes are of participants, none is counted twice or on both
-- sides, and the outcome is the one that the counts give; and exactly the first vote of a
-- participant while there is no outcome is recorded, on its side.
pub vote_on-IsValid :
    (v : VotingConsensus) (block_hash : BlockHash) (from : PeerId) (approve : Bool)
    → IsValid v
    → IsValid (vote_on v block_hash from approve).0
      × ((q : PeerId)
          → (Sets.contains (vote_on v block_hash from approve).0.approvals q
              ≡ (Sets.contains v.approvals q || (counts v from && approve && from == q)))
            × (Sets.contains (vote_on v block_hash from approve).0.rejections q
                ≡ (Sets.contains v.rejections q || (counts v from && not approve && from == q))))
vote_on-IsValid v block_hash from approve h = (
  elim (vote_on-cases v block_hash from approve) [
    | inl same ↦ rw same h
    | inr (fresh, undecided, member, e) ↦ rw e (
        count_vote-IsValid (add_vote v from approve) (outcome-add_vote v from approve ∙ undecided)
          (add_vote-Votes v from approve h member fresh))
  ],
  λ q. (
    vote_on-approvals v block_hash from approve q,
    vote_on-rejections v block_hash from approve q,
  ),
)
