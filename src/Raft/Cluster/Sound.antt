-- ===== src/Raft/Cluster/Sound.antt =====
-- The invariant of a cluster of Raft engines: every engine holds, and no one grants two votes in a
-- term (src/peer/consensus/raft/election.rs).
use rustchain.Base.{
  ℕ, ◌+◌, ◌<◌, ◌^◌, ◌≡◌, refl, sym, subst, ◌∙◌, ap, ◌⊎◌, true, false, some, List, [], ◌∷◌, arith,
  nat_eq, ◌==◌, Bool-cases, inl, inr,
}
use rustchain.Base.Sets
use rustchain.Base.Sets.{Within, Distinct, contains-keep}
use rustchain.Data.{PeerId}
use rustchain.Env.{Env}
use rustchain.Raft.Cluster.{
  Grant, Cluster, Granted, granted_by, grants_after, act, May, acts, Reach, here, next,
}
use rustchain.Raft.Cluster.Ballots.{on_request_vote_response-Holds, request_vote-Holds}
use rustchain.Raft.Cluster.Ticks.{on_tick-Holds}
use rustchain.Raft.Cluster.Holds.{Holds, Holds-IsQuiet}
use rustchain.Raft.Cluster.Quiet.{NoBallot, step-IsQuiet}
use rustchain.Raft.Election.{request_vote}
use rustchain.Raft.Handlers.{on_request_vote}
use rustchain.Raft.Machine.{
  Event, client_submitted, block_created, ticked, vote_requested, vote_answered, entries_received,
  entries_answered, block_taken, step,
}
use rustchain.Raft.Machine.Ballots.{step-KeepsVote, request_vote_granted}
use rustchain.Raft.State.{RaftConsensus, follower, VoteResponse, vote_granted, vote_rejected}

-- Every peer holds, and no peer has granted two votes in a term.
pub record Sound (members : List PeerId) (g : Cluster) : Type 0 where
  pub holds : (p : PeerId) → Holds members g.grants p (g.peers p)
  pub once : (v c d : PeerId) (t : ℕ) → Granted g.grants v c t → Granted g.grants v d t → c ≡ d

-- Every engine is a follower, with its own id, and no vote has been granted.
pub record IsFresh (g : Cluster) : Type 0 where
  pub follows : (p : PeerId) → (g.peers p).role ≡ follower
  pub identity : (p : PeerId) → (g.peers p).peer_id ≡ p
  pub no_grants : g.grants ≡ []

pub IsFresh-Sound : (members : List PeerId) (g : Cluster) → IsFresh g → Sound members g
IsFresh-Sound members g f = record {
  holds = λ p. record {
    identity = f.identity p;
    candidacy = λ active. absurd (ground (arith, f.follows p, active));
    ruling = λ leads. absurd (ground (arith, f.follows p, leads));
    noted = rw f.no_grants (λ c t granted. absurd granted);
  };
  once = rw f.no_grants (λ v c d t granted again. absurd granted);
}

-- More grants back more votes; a new one of the peer itself has to be noted.
Holds-grant :
    (members : List PeerId) (grant : Grant) (grants : List Grant) (p : PeerId) (r : RaftConsensus)
    → Holds members grants p r
    → (grant.voter ≡ p → (grant.term ≡ r.current_term) × (r.voted_for ≡ some grant.candidate))
    → Holds members (grant ∷ grants) p r
Holds-grant members grant grants p r h new = record {
  identity = h.identity;
  candidacy = λ active.
      let c = h.candidacy active in
      record {
        own = c.own;
        whole = c.whole;
        inside = c.inside;
        apart = c.apart;
        within = c.within;
        backed =
            λ v m. elim (c.backed v m) [ inl self ↦ inl self | inr granted ↦ inr (inr granted) ];
      };
  ruling = h.ruling;
  noted = λ c t granted. elim granted [
    | inr old ↦ h.noted c t old
    | inl (voter, choice, term) ↦
        let (at, vote) = new voter in inr (sym term ∙ at, vote ∙ ap some choice)
  ];
}

Response-cases : (v : VoteResponse) → (v ≡ vote_granted) ⊎ (v ≡ vote_rejected)
Response-cases vote_granted = inl refl
Response-cases vote_rejected = inr refl

module _ (members : List PeerId) (distinct : Distinct members) (g : Cluster) (s : Sound members g)
    (p : PeerId) (env : Env) (member : Sets.contains members p ≡ true)
    (small : (g.peers p).current_term + 1 < 2 ^ 64) where
  quiet : (event : Event) → NoBallot event → Holds members g.grants p (step env (g.peers p) event).0
  quiet event q =
      Holds-IsQuiet members g.grants p (g.peers p) (step env (g.peers p) event).0 (s.holds p)
        (step-KeepsVote env (g.peers p) event small) (step-IsQuiet env (g.peers p) event q)

  -- The peer that acts, against the grants before.
  actor-Holds :
      (event : Event)
      → May members g p event
      → Holds members g.grants p (step env (g.peers p) event).0
  actor-Holds (ticked now known) may =
      unfold step in
      on_tick-Holds members g.grants p distinct known may.0 may.1 env (g.peers p) now member small
        (s.holds p)
  actor-Holds (vote_requested term c i l from) may =
      unfold step on_request_vote in
      request_vote-Holds members g.grants p (g.peers p) term c i l (s.holds p)
  actor-Holds (vote_answered term voter true) may =
      unfold step in
      on_request_vote_response-Holds members g.grants p env (g.peers p) term voter true (s.holds p)
        (λ e. may)
  actor-Holds (vote_answered term voter false) may =
      unfold step in
      on_request_vote_response-Holds members g.grants p env (g.peers p) term voter false (s.holds p)
        (λ e. cc e)
  actor-Holds (client_submitted tx) may = quiet (client_submitted tx) tt
  actor-Holds (block_created h) may = quiet (block_created h) tt
  actor-Holds (entries_received request) may = quiet (entries_received request) tt
  actor-Holds (entries_answered term from success index) may =
      quiet (entries_answered term from success index) tt
  actor-Holds (block_taken h) may = quiet (block_taken h) tt

  -- A grant is noted by the peer that gives it.
  grants_after-cases :
      (event : Event)
      → May members g p event
      → (grants_after p (g.peers p) event g.grants ≡ g.grants)
        ⊎ ((grant : Grant) × (grants_after p (g.peers p) event g.grants ≡ grant ∷ g.grants)
            × (grant.voter ≡ p)
            × (grant.term ≡ (step env (g.peers p) event).0.current_term)
            × ((step env (g.peers p) event).0.voted_for ≡ some grant.candidate))
  unfolding grants_after
  grants_after-cases (vote_requested term c i l from) may =
      elim (Response-cases (request_vote (g.peers p) term c i l).1) [
        | inr denied ↦ inl (rw (denied, granted_by) refl)
        | inl vote ↦
            let (_, noted) = request_vote_granted (g.peers p) term c i l vote in
            inr (
              record {
                voter = p;
                candidate = from;
                term = (request_vote (g.peers p) term c i l).0.current_term;
              },
              rw (vote, granted_by) refl,
              refl,
              unfold step on_request_vote in refl,
              unfold step on_request_vote in noted ∙ ap some (sym may),
            )
      ]
  grants_after-cases (ticked now known) may = inl refl
  grants_after-cases (vote_answered term voter granted) may = inl refl
  grants_after-cases (client_submitted tx) may = inl refl
  grants_after-cases (block_created h) may = inl refl
  grants_after-cases (entries_received request) may = inl refl
  grants_after-cases (entries_answered term from success index) may = inl refl
  grants_after-cases (block_taken h) may = inl refl

  -- A grant that the peer has given in the term of a new one is for the same candidate.
  clash :
      (event : Event)
      → Holds members g.grants p (step env (g.peers p) event).0
      → (grant : Grant) → grant.voter ≡ p
      → grant.term ≡ (step env (g.peers p) event).0.current_term
      → (step env (g.peers p) event).0.voted_for ≡ some grant.candidate
      → (v c : PeerId) (t : ℕ) → Granted g.grants v c t
      → grant.voter ≡ v
      → grant.term ≡ t
      → grant.candidate ≡ c
  clash event held grant voter term choice v c t old w at =
      let mine : Granted g.grants p c t = subst (λ u. Granted g.grants u c t) (sym w ∙ voter) old in
      elim (held.noted c t mine) [
        | inl early ↦ absurd (omega (arith, early, at, term))
        | inr (_, vote) ↦ cc (vote, choice)
      ]

  act-Sound : (event : Event) → May members g p event → Sound members (act g p env event)
  unfolding act
  act-Sound event may =
      let after = (step env (g.peers p) event).0 in
      let held = actor-Holds event may in
      elim (grants_after-cases event may) [
        | inl same ↦ record {
          holds = λ q. rw same (elim (Bool-cases (q == p)) [
            | inl actor ↦ rw actor (let e : q ≡ p = ground (arith, actor) in rw e held)
            | inr other ↦ rw other (s.holds q)
          ]);
          once = rw same s.once;
        }
        | inr (grant, more, voter, term, choice) ↦ record {
          holds = λ q. rw more (elim (Bool-cases (q == p)) [
            | inl actor ↦ rw actor (
                let e : q ≡ p = ground (arith, actor) in
                rw e (Holds-grant members grant g.grants p after held (λ _. (term, choice))))
            | inr other ↦ rw other (
                Holds-grant members grant g.grants q (g.peers q) (s.holds q)
                  (λ v. absurd (ground (arith, other, v, voter))))
          ]);
          once = rw more (λ v c d t first second. elim first [
            | inr old ↦ elim second [
              | inr again ↦ s.once v c d t old again
              | inl (w, choice', at) ↦
                  sym (clash event held grant voter term choice v c t old w at) ∙ choice'
            ]
            | inl (w, choice', at) ↦ elim second [
              | inl (_, choice'', _) ↦ sym choice' ∙ choice''
              | inr old ↦ sym choice' ∙ clash event held grant voter term choice v d t old w at
            ]
          ]);
        }
      ]

pub Reach-Sound :
    (members : List PeerId) (g h : Cluster)
    → Distinct members
    → Sound members g
    → Reach members g h
    → Sound members h
Reach-Sound members g h distinct s here = s
Reach-Sound members g h distinct s (next {h = k} reached (acts p env event member small may)) =
    act-Sound members distinct k (Reach-Sound members g k distinct s reached) p env member small
      event may
