-- ===== src/Raft/Cluster/Leaders.antt =====
-- The leaders of a cluster of Raft engines (src/peer/consensus/raft/election.rs).
use rustchain.Base.{
  suc, ◌/◌, ◌≤◌, ◌≡◌, sym, subst, ◌∙◌, true, List, [], ◌∷◌, length, arith, nat_eq, inl, inr,
}
use rustchain.Base.Sets
use rustchain.Base.Sets.{Within, Distinct, contains-keep}
use rustchain.Base.Sets.Counting.{shared, length-shared}
use rustchain.Data.{PeerId}
use rustchain.Raft.Cluster.{Grant, Cluster, Granted, Reach}
use rustchain.Raft.Cluster.Holds.{Candidacy, Holds}
use rustchain.Raft.Cluster.Sound.{IsFresh, IsFresh-Sound, Reach-Sound}
use rustchain.Raft.State.{RaftConsensus, leader}

-- A candidate has granted no other vote in its term.
own_vote :
    (members : List PeerId) (grants : List Grant) (p : PeerId) (r : RaftConsensus) (c : PeerId)
    → Holds members grants p r
    → Candidacy members grants p r
    → Granted grants p c r.current_term
    → c ≡ p
own_vote members grants p r c h own granted = elim (h.noted c r.current_term granted) [
  | inl early ↦ absurd (omega (arith, early))
  | inr (_, vote) ↦ cc (vote, own.own)
]

first_member : (xs : List PeerId) → 1 ≤ length xs → (v : PeerId) × (Sets.contains xs v ≡ true)
unfolding Sets.contains
first_member [] h = absurd (omega arith)
first_member (x ∷ xs) h = (x, ground arith)

-- Two majorities of the members share one.
majorities_share :
    (members xs ys : List PeerId)
    → Distinct xs
    → Distinct ys
    → Within xs members
    → Within ys members
    → suc (length members / 2) ≤ length xs
    → suc (length members / 2) ≤ length ys
    → (v : PeerId) × (Sets.contains xs v ≡ true) × (Sets.contains ys v ≡ true)
majorities_share members xs ys dx dy wx wy mx my =
    let some_shared : 1 ≤ length (shared xs ys) =
      omega (arith, length-shared xs ys members dx dy wx wy, mx, my) in
    let (v, m) = first_member (shared xs ys) some_shared in
    (
      v,
      ground (arith, contains-keep (Sets.contains ys) xs v, m),
      ground (arith, contains-keep (Sets.contains ys) xs v, m),
    )

-- In a cluster that starts with followers, in every state that any order of handler calls reaches,
-- with any delay, loss or repetition of messages, two leaders of the same term are the same peer.
-- Each tick is told of exactly the members, a request for a vote comes from its candidate, a vote
-- is counted only if it has been granted, and no term wraps.
pub one_leader_in_a_term :
    (members : List PeerId) (g h : Cluster) (p q : PeerId)
    → Distinct members
    → IsFresh g
    → Reach members g h
    → (h.peers p).role ≡ leader
    → (h.peers q).role ≡ leader
    → (h.peers p).current_term ≡ (h.peers q).current_term
    → p ≡ q
one_leader_in_a_term members g h p q distinct fresh reached leads rules same =
    let s = Reach-Sound members g h distinct (IsFresh-Sound members g fresh) reached in
    let hp = s.holds p in
    let hq = s.holds q in
    let cp = hp.candidacy (ground (arith, leads)) in
    let cq = hq.candidacy (ground (arith, rules)) in
    let (v, mp, mq) =
      majorities_share members (h.peers p).votes_received (h.peers q).votes_received cp.apart
        cq.apart cp.within cq.within (hp.ruling (ground (arith, leads)))
        (hq.ruling (ground (arith, rules))) in
    elim (cp.backed v mp) [
      | inl own ↦ elim (cq.backed v mq) [
        | inl self ↦ sym own ∙ self
        | inr granted ↦ sym (
            own_vote members h.grants p (h.peers p) q hp cp
              (subst (λ u. Granted h.grants u q (h.peers p).current_term) own (rw same granted)))
      ]
      | inr granted ↦ elim (cq.backed v mq) [
        | inl self ↦ own_vote members h.grants q (h.peers q) p hq cq (
            subst (λ u. Granted h.grants u p (h.peers q).current_term) self (rw (sym same) granted))
        | inr again ↦ s.once v p q (h.peers p).current_term granted (rw same again)
      ]
    ]
