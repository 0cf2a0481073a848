-- ===== src/Raft/Cluster/Alone.antt =====
-- A Raft engine that is told of no other peers (`on_tick` of src/peer/consensus/raft.rs).
use rustchain.Base.{ℕ, ◌+◌, ◌-◌, ◌<◌, ◌^◌, ◌≡◌, refl, ◌∙◌, true, false, [], leb, arith}
use rustchain.Base.Sets
use rustchain.Env.{Env}
use rustchain.Raft.Cluster.Quiet.{campaign-Stays}
use rustchain.Raft.Election.{
  is_leader, update_participants, start_election_at, become_leader_if_majority, majority,
}
use rustchain.Raft.Handlers.{on_tick}
use rustchain.Raft.State.{RaftConsensus, leader}

elected_alone :
    (r : RaftConsensus) (now : ℕ)
    → r.current_term + 1 < 2 ^ 64
    → ((start_election_at (update_participants r []) now).0.role ≡ leader)
      × ((start_election_at (update_participants r []) now).0.current_term ≡ r.current_term + 1)
unfolding start_election_at become_leader_if_majority majority update_participants Sets.insert
    Sets.from_list Sets.contains
elected_alone r now small = (refl, omega arith)

-- A Raft peer that is told of no other peers makes itself the leader of the next term at its first
-- tick after the election timeout, if the term does not wrap.
pub alone_leads :
    (env : Env) (r : RaftConsensus) (now : ℕ)
    → is_leader r.role ≡ false
    → leb r.current_election_timeout (now - r.last_heartbeat_received_at) ≡ true
    → r.current_term + 1 < 2 ^ 64
    → ((on_tick env r now []).0.role ≡ leader)
      × ((on_tick env r now []).0.current_term ≡ r.current_term + 1)
unfolding on_tick update_participants
alone_leads env r now follows late small =
    let (leads, higher) = elected_alone r now small in
    let elected = start_election_at (update_participants r []) now in
    let same = campaign-Stays env elected.0 elected.1 in
    rw (follows, late) (same.4 ∙ leads, same.2 ∙ higher)
