-- ===== src/Raft/Cluster/Ticks.antt =====
-- A tick of a member of a cluster that is told of exactly the members (`on_tick` of
-- src/peer/consensus/raft.rs).
use rustchain.Base.{
  ℕ, ◌+◌, ◌-◌, ◌<◌, ◌^◌, ◌≡◌, refl, sym, ap, Bool, true, none, some, List, [], ◌∷◌, keep, arith,
  nat_eq, leb, add_u64, inl, inr,
}
use rustchain.Base.Sets
use rustchain.Base.Sets.{
  Within, Distinct, Distinct-keep, Distinct-insert, contains-keep, contains-insert,
}
use rustchain.Base.Sets.Counting.{length-le_of_Within}
use rustchain.Data.{PeerId}
use rustchain.Env.{Env}
use rustchain.Raft.Cluster.{Grant}
use rustchain.Raft.Cluster.Ballots.{become-Holds, if-Holds, Holds-Stays, active_of}
use rustchain.Raft.Cluster.Holds.{Holds}
use rustchain.Raft.Cluster.Quiet.{campaign-Stays}
use rustchain.Raft.Election.{is_leader, update_participants, start_election_at}
use rustchain.Raft.Handlers.{on_tick, campaign}
use rustchain.Raft.Replication.Leader.{heartbeat_due}
use rustchain.Raft.State.{RaftConsensus, candidate}

keep_whole :
    (p : PeerId → Bool) (xs : List PeerId)
    → ((a : PeerId) → Sets.contains xs a ≡ true → p a ≡ true)
    → keep p xs ≡ xs
unfolding keep Sets.contains
keep_whole p [] h = refl
keep_whole p (x ∷ xs) h =
    let here : p x ≡ true = h x (ground arith) in
    rw here (ap (λ ys. x ∷ ys) (keep_whole p xs (λ a m. h a (ground (arith, m)))))

module _ (members : List PeerId) (grants : List Grant) (p : PeerId) (distinct : Distinct members)
    (known_peers : List PeerId)
    (whole : Within members (Sets.insert p (Sets.from_list known_peers)))
    (inside : Within (Sets.insert p (Sets.from_list known_peers)) members) where
  all_kept :
      (r : RaftConsensus)
      → r.peer_id ≡ p
      → Within r.votes_received members
      → (update_participants r known_peers).votes_received ≡ r.votes_received
  unfolding update_participants
  all_kept r id within =
      keep_whole (Sets.contains (Sets.insert r.peer_id (Sets.from_list known_peers)))
        r.votes_received (λ v m. rw id (whole v (within v m)))

  update_participants-Holds :
      (r : RaftConsensus)
      → Holds members grants p r
      → Holds members grants p (update_participants r known_peers)
  update_participants-Holds r h =
      let s = update_participants r known_peers in
      let same : (s.participants ≡ Sets.insert p (Sets.from_list known_peers)) =
        unfold update_participants in rw h.identity refl in
      record {
        identity = unfold update_participants in h.identity;
        candidacy = λ active.
            let c = h.candidacy (unfold update_participants in active) in
            let kept = all_kept r h.identity c.within in
            record {
              own = unfold update_participants in c.own;
              whole = rw same (length-le_of_Within members _ distinct whole);
              inside = rw same inside;
              apart = rw kept c.apart;
              within = rw kept c.within;
              backed = rw kept (unfold update_participants in c.backed);
            };
        ruling = λ leads.
            let leads_before : is_leader r.role ≡ true = unfold update_participants in leads in
            let c = h.candidacy (active_of r.role leads_before) in
            rw (all_kept r h.identity c.within) (h.ruling leads_before);
        noted = unfold update_participants in h.noted;
      }

  -- The election that a tick starts, from what `update_participants` leaves.
  start_election_at-Holds :
      (r : RaftConsensus) (now : ℕ)
      → Sets.contains members p ≡ true
      → r.current_term + 1 < 2 ^ 64
      → r.participants ≡ Sets.insert p (Sets.from_list known_peers)
      → Holds members grants p r
      → Holds members grants p (start_election_at r now).0
  unfolding start_election_at
  start_election_at-Holds r now member small participants h =
      let standing : RaftConsensus = record r {
        current_term = add_u64 r.current_term 1;
        role = candidate;
        voted_for = some r.peer_id;
        leader_id = none;
        votes_received = r.peer_id ∷ [];
        last_heartbeat_received_at = now;
        last_heartbeat_sent_at = none;
      } in
      let id = h.identity in
      become-Holds members grants p standing id refl
        (record {
          own = ap some id;
          whole = rw participants (length-le_of_Within members _ distinct whole);
          inside = rw participants inside;
          apart = unfold Sets.contains in (refl, tt);
          within = λ v m.
              let it : r.peer_id ≡ v = unfold Sets.contains in ground (arith, m) in
              rw (sym it, id) member;
          backed = λ v m. inl (unfold Sets.contains in ground (arith, m, id));
        })
        (λ c t g. elim (h.noted c t g) [
          | inl before ↦ inl (omega (arith, before, small))
          | inr (here, vote) ↦ inl (omega (arith, here, small))
        ])

  pub on_tick-Holds :
      (env : Env) (r : RaftConsensus) (now : ℕ)
      → Sets.contains members p ≡ true
      → r.current_term + 1 < 2 ^ 64
      → Holds members grants p r
      → Holds members grants p (on_tick env r now known_peers).0
  unfolding on_tick
  on_tick-Holds env r now member small h =
      let t = update_participants r known_peers in
      let there = update_participants-Holds r h in
      let elected = start_election_at t now in
      let won =
        start_election_at-Holds t now member (unfold update_participants in small)
          (unfold update_participants in rw h.identity refl) there in
      if-Holds members grants p (is_leader t.role) _ _
        (if-Holds members grants p (heartbeat_due t now) _ _
          (Holds-Stays members grants p t (record t { last_heartbeat_sent_at = some now }) there
            (refl, refl, refl, refl, refl, refl))
          there)
        (if-Holds members grants p
          (leb t.current_election_timeout (now - t.last_heartbeat_received_at)) _ _
          (Holds-Stays members grants p elected.0 (campaign env elected.0 elected.1).0 won
            (campaign-Stays env elected.0 elected.1))
          there)
