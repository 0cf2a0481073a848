-- ===== src/Raft/Cluster/Ballots.antt =====
-- The events of an election (src/peer/consensus/raft/election.rs) in a cluster.
use rustchain.Base.{
  ℕ, ◌<◌, ◌≡◌, refl, subst, ◌⊎◌, Bool, true, false, not, ◌||◌, some, List, length, arith, nat_eq,
  if◌then◌else◌, ◌==◌, leb, ltb, Bool-cases, inl, inr,
}
use rustchain.Base.Sets
use rustchain.Base.Sets.{
  Within, Distinct, Distinct-keep, Distinct-insert, contains-keep, contains-insert,
}
use rustchain.Data.{PeerId}
use rustchain.Env.{Env}
use rustchain.Raft.Cluster.{Grant, Granted}
use rustchain.Raft.Cluster.Holds.{is_active, Candidacy, Holds, Holds-IsQuiet}
use rustchain.Raft.Cluster.Quiet.{
  Stays, IsQuiet, step_down_on_newer_term-IsQuiet, append_leader_noop-Stays,
}
use rustchain.Raft.Election.{
  is_leader, is_candidate, majority, become_leader_if_majority, request_vote, receive_vote,
  step_down_on_newer_term,
}
use rustchain.Raft.Handlers.{on_request_vote_response}
use rustchain.Raft.Machine.Ballots.Votes.{
  KeepsVote-same, receive_vote-KeepsVote, step_down_on_newer_term-KeepsVote, request_vote-KeepsVote,
}
use rustchain.Raft.Replication.Leader.{append_leader_noop}
use rustchain.Raft.State.{RaftConsensus, RaftRole, follower, candidate, leader, Outcome}

candidate_of : (role : RaftRole) → is_candidate role ≡ true → role ≡ candidate
candidate_of follower h = cc
candidate_of candidate h = refl
candidate_of leader h = cc

pub active_of : (role : RaftRole) → is_leader role ≡ true → is_active role ≡ true
active_of follower h = cc
active_of candidate h = refl
active_of leader h = refl

Role-cases : (role : RaftRole) → (role ≡ follower) ⊎ (is_active role ≡ true)
Role-cases follower = inl refl
Role-cases candidate = inr refl
Role-cases leader = inr refl

module _ (members : List PeerId) (grants : List Grant) (p : PeerId) where
  pub become-Holds :
      (r : RaftConsensus)
      → r.peer_id ≡ p
      → r.role ≡ candidate
      → Candidacy members grants p r
      → ((c : PeerId) (t : ℕ)
          → Granted grants p c t
          → (t < r.current_term) ⊎ ((t ≡ r.current_term) × (r.voted_for ≡ some c)))
      → Holds members grants p (become_leader_if_majority r).0
  unfolding become_leader_if_majority majority
  become-Holds r id role c noted = elim (Bool-cases (leb (majority r) (length r.votes_received))) [
    | inl enough ↦
        rw (enough, become_leader_if_majority)
          (record {
            identity = id;
            candidacy = λ active. record {
              own = c.own;
              whole = c.whole;
              inside = c.inside;
              apart = c.apart;
              within = c.within;
              backed = c.backed;
            };
            ruling = λ leads. ground (arith, enough, c.whole);
            noted = noted;
          })
    | inr few ↦
        rw (few, become_leader_if_majority)
          (record {
            identity = id;
            candidacy = λ active. c;
            ruling = λ leads. absurd (ground (arith, role, leads));
            noted = noted;
          })
  ]

  receive_vote-Holds :
      (r : RaftConsensus) (term : ℕ) (voter : PeerId) (grants_it : Bool)
      → Holds members grants p r
      → (grants_it ≡ true → Granted grants voter p term)
      → Holds members grants p (receive_vote r term voter grants_it).0
  unfolding receive_vote
  receive_vote-Holds r term voter grants_it h real = elim (Bool-cases (ltb r.current_term term)) [
    | inl newer ↦
        Holds-IsQuiet members grants p r (receive_vote r term voter grants_it).0 h
          (receive_vote-KeepsVote r term voter grants_it)
          (inr (ground (arith, newer), ground (arith, newer)))
    | inr current ↦
        elim (Bool-cases
          (not (is_candidate r.role) || not (term == r.current_term) || not grants_it)) [
            | inl useless ↦ rw (current, useless, receive_vote) h
            | inr counts ↦ elim (Bool-cases (Sets.contains r.participants voter)) [
              | inr stranger ↦ rw (current, counts, stranger, receive_vote) h
              | inl member ↦
                  let role : r.role ≡ candidate = candidate_of r.role (ground (arith, counts)) in
                  let same : term ≡ r.current_term = ground (arith, counts) in
                  let c = h.candidacy (ground (arith, role)) in
                  rw (current, counts, member, receive_vote)
                    (become-Holds (record r { votes_received = Sets.insert voter r.votes_received })
                      h.identity role
                      (record {
                        own = c.own;
                        whole = c.whole;
                        inside = c.inside;
                        apart = Distinct-insert voter r.votes_received c.apart;
                        within = λ v m. ground (
                          arith,
                          contains-insert r.votes_received voter v,
                          m,
                          c.within v,
                          c.inside v,
                          member,
                        );
                        backed = λ v m. elim (Bool-cases (voter == v)) [
                          | inl new ↦
                              let it : voter ≡ v = ground (arith, new) in
                              let granted : Granted grants voter p term =
                                real (ground (arith, counts)) in
                              inr (
                                subst (λ u. Granted grants u p r.current_term) it
                                  (subst (λ t. Granted grants voter p t) same granted))
                          | inr old ↦
                              c.backed v
                                (ground (arith, contains-insert r.votes_received voter v, m, old))
                        ];
                      })
                      h.noted)
            ]
          ]
  ]

  pub if-Holds :
      {A : Type 0} (b : Bool) (x y : Outcome A)
      → Holds members grants p x.0
      → Holds members grants p y.0
      → Holds members grants p (if b then x else y).0
  if-Holds true x y h k = h
  if-Holds false x y h k = k

  -- A change that leaves the election alone.
  pub Holds-Stays :
      (r s : RaftConsensus) → Holds members grants p r → Stays r s → Holds members grants p s
  Holds-Stays r s h stays =
      Holds-IsQuiet members grants p r s h (KeepsVote-same r s (stays.2, stays.3)) (inl stays)

  pub on_request_vote_response-Holds :
      (env : Env) (r : RaftConsensus) (term : ℕ) (voter : PeerId) (grants_it : Bool)
      → Holds members grants p r
      → (grants_it ≡ true → Granted grants voter p term)
      → Holds members grants p (on_request_vote_response env r term voter grants_it).0
  unfolding on_request_vote_response
  on_request_vote_response-Holds env r term voter grants_it h real =
      let heard = receive_vote r term voter grants_it in
      let counted = receive_vote-Holds r term voter grants_it h real in
      if-Holds (is_candidate r.role) _ _
        (if-Holds heard.1 _ _
          (Holds-Stays heard.0 (append_leader_noop env heard.0).0 counted
            (append_leader_noop-Stays env heard.0))
          counted)
        (Holds-IsQuiet members grants p r (step_down_on_newer_term r term) h
          (step_down_on_newer_term-KeepsVote r term) (step_down_on_newer_term-IsQuiet r term))

  request_vote-IsQuiet :
      (r : RaftConsensus) (term c i l : ℕ)
      → Holds members grants p r
      → IsQuiet r (request_vote r term c i l).0
  unfolding request_vote
  request_vote-IsQuiet r term c i l h = elim (Role-cases r.role) [
    | inl idle ↦ inr (ground arith, ground (arith, idle))
    | inr active ↦ let own = (h.candidacy active).own in ground (arith, own)
  ]

  pub request_vote-Holds :
      (r : RaftConsensus) (term c i l : ℕ)
      → Holds members grants p r
      → Holds members grants p (request_vote r term c i l).0
  request_vote-Holds r term c i l h =
      Holds-IsQuiet members grants p r (request_vote r term c i l).0 h
        (request_vote-KeepsVote r term c i l) (request_vote-IsQuiet r term c i l h)
