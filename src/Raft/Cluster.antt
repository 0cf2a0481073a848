-- ===== src/Raft/Cluster.antt =====
-- Several Raft engines (src/peer/consensus/raft.rs) and the votes that they grant one another. The
-- network may lose, repeat and delay; a grant is what `on_request_vote` answers.
pub mod Quiet
pub mod Holds
pub mod Ballots
pub mod Ticks
pub mod Sound
pub mod Leaders
pub mod Alone
mod Tests
use rustchain.Base.{
  ℕ, ◌+◌, ◌<◌, ◌^◌, ◌≡◌, ◌⊎◌, Bool, true, false, List, [], ◌∷◌, if◌then◌else◌, ◌==◌, nat_eq,
}
use rustchain.Base.Sets
use rustchain.Base.Sets.{Within}
use rustchain.Data.{PeerId}
use rustchain.Env.{Env}
use rustchain.Raft.Election.{request_vote}
use rustchain.Raft.Machine.{
  Event, client_submitted, block_created, ticked, vote_requested, vote_answered, entries_received,
  entries_answered, block_taken, step,
}
use rustchain.Raft.State.{RaftConsensus, VoteResponse, vote_granted, vote_rejected}

-- A vote of one peer for another, in a term.
pub record Grant : Type 0 where
  pub voter : PeerId
  pub candidate : PeerId
  pub term : ℕ

pub record Cluster : Type 0 where
  pub peers : PeerId → RaftConsensus
  pub grants : List Grant

abbrev pub Granted : List Grant → PeerId → PeerId → ℕ → Type 0
Granted [] v c t = ⊥
Granted (g ∷ grants) v c t =
    ((g.voter ≡ v) × (g.candidate ≡ c) × (g.term ≡ t)) ⊎ Granted grants v c t

unfoldable pub granted_by : VoteResponse → Grant → List Grant → List Grant
granted_by vote_granted grant grants = grant ∷ grants
granted_by vote_rejected grant grants = grants

-- What an event at a peer adds to the grants.
unfoldable pub grants_after : PeerId → RaftConsensus → Event → List Grant → List Grant
unfolding granted_by
grants_after p r (vote_requested term candidate_id last_index last_term from) grants =
    let (s, response) = request_vote r term candidate_id last_index last_term in
    granted_by response (record { voter = p; candidate = from; term = s.current_term }) grants
grants_after p r event grants = grants

unfoldable pub act : Cluster → PeerId → Env → Event → Cluster
unfolding grants_after
act g p env event = record {
  peers = λ q. if q == p then (step env (g.peers p) event).0 else g.peers q;
  grants = grants_after p (g.peers p) event g.grants;
}

-- What an event may hold: a vote is counted only if it has been granted, a request comes from its
-- candidate, and a tick finds the members of the cluster.
abbrev pub May : List PeerId → Cluster → PeerId → Event → Type 0
May members g p (ticked now known_peers) =
    Within members (Sets.insert p (Sets.from_list known_peers))
    × Within (Sets.insert p (Sets.from_list known_peers)) members
May members g p (vote_requested term candidate_id last_index last_term from) = from ≡ candidate_id
May members g p (vote_answered term voter true) = Granted g.grants voter p term
May members g p event = Unit

-- A member handles an event, below the last term of `u64`.
pub data Step (members : List PeerId) (g : Cluster) : Cluster → Type 0 where
  acts :
      (p : PeerId) (env : Env) (event : Event)
      → Sets.contains members p ≡ true
      → (g.peers p).current_term + 1 < 2 ^ 64
      → May members g p event
      → Step members g (act g p env event)

pub data Reach (members : List PeerId) (g : Cluster) : Cluster → Type 0 where
  here : Reach members g g
  next : {h k : Cluster} → Reach members g h → Step members h k → Reach members g k
