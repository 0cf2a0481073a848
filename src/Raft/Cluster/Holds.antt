-- ===== src/Raft/Cluster/Holds.antt =====
-- What every engine of a cluster keeps: its votes are grants, and its grants are noted.
use native.Mathlib.Decide.{dec_lt}
use rustchain.Base.{
  ℕ, suc, ◌/◌, ◌≤◌, ◌<◌, ◌≡◌, sym, ◌∙◌, ◌⊎◌, Bool, true, false, some, List, length, arith, nat_eq,
  inl, inr,
}
use rustchain.Base.Sets
use rustchain.Base.Sets.{Within, Distinct}
use rustchain.Data.{PeerId}
use rustchain.Raft.Cluster.{Grant, Granted}
use rustchain.Raft.Cluster.Quiet.{Stays, IsQuiet}
use rustchain.Raft.Election.{is_leader}
use rustchain.Raft.Machine.Ballots.Votes.{KeepsVote}
use rustchain.Raft.State.{RaftConsensus, RaftRole, follower, candidate, leader}

abbrev pub is_active : RaftRole → Bool
is_active follower = false
is_active candidate = true
is_active leader = true

-- A candidate or a leader: it has its own vote, and each other vote that it counts is a grant.
pub record Candidacy (members : List PeerId) (grants : List Grant) (p : PeerId) (r : RaftConsensus)
    : Type 0 where
  pub own : r.voted_for ≡ some p
  pub whole : length members ≤ length r.participants
  pub inside : Within r.participants members
  pub apart : Distinct r.votes_received
  pub within : Within r.votes_received members
  pub backed :
      (v : PeerId)
      → Sets.contains r.votes_received v ≡ true
      → (v ≡ p) ⊎ Granted grants v p r.current_term

pub record Holds (members : List PeerId) (grants : List Grant) (p : PeerId) (r : RaftConsensus)
    : Type 0 where
  pub identity : r.peer_id ≡ p
  pub candidacy : is_active r.role ≡ true → Candidacy members grants p r
  pub ruling : is_leader r.role ≡ true → suc (length members / 2) ≤ length r.votes_received
  pub noted :
      (c : PeerId) (t : ℕ)
      → Granted grants p c t
      → (t < r.current_term) ⊎ ((t ≡ r.current_term) × (r.voted_for ≡ some c))

module _ (members : List PeerId) (grants : List Grant) (p : PeerId) where
  -- A grant stays noted where the term does not fall and a vote is kept.
  pub noted-KeepsVote :
      (r s : RaftConsensus)
      → Holds members grants p r
      → KeepsVote r s
      → (c : PeerId) (t : ℕ) → Granted grants p c t
      → (t < s.current_term) ⊎ ((t ≡ s.current_term) × (s.voted_for ≡ some c))
  noted-KeepsVote r s h k c t g = elim (h.noted c t g) [
    | inl before ↦ inl (omega (arith, before, k.term_le))
    | inr (here, vote) ↦ elim (dec_lt t s.current_term) [
      | yes later ↦ inl later
      | no same ↦
          let now : t ≡ s.current_term = omega (arith, here, k.term_le) in
          inr (now, k.vote c (sym now ∙ here) vote)
    ]
  ]

  Candidacy-Stays :
      (r s : RaftConsensus)
      → Stays r s
      → Candidacy members grants p r
      → Candidacy members grants p s
  Candidacy-Stays r s (_, participants, term, voted, role, votes) c = record {
    own = voted ∙ c.own;
    whole = rw participants c.whole;
    inside = rw participants c.inside;
    apart = rw votes c.apart;
    within = rw votes c.within;
    backed = rw (votes, term) c.backed;
  }

  pub Holds-IsQuiet :
      (r s : RaftConsensus)
      → Holds members grants p r
      → KeepsVote r s
      → IsQuiet r s
      → Holds members grants p s
  Holds-IsQuiet r s h k (inl stays) = record {
    identity = stays.0 ∙ h.identity;
    candidacy = λ active. Candidacy-Stays r s stays (h.candidacy (rw (sym stays.4) active));
    ruling = λ leads. rw stays.5 (h.ruling (rw (sym stays.4) leads));
    noted = noted-KeepsVote r s h k;
  }
  Holds-IsQuiet r s h k (inr (id, role)) = record {
    identity = id ∙ h.identity;
    candidacy = λ active. absurd (ground (arith, role, active));
    ruling = λ leads. absurd (ground (arith, role, leads));
    noted = noted-KeepsVote r s h k;
  }
