-- ===== src/Runtime.antt =====
-- `run_peer` of src/peer_runtime.rs: the start of a peer and its loop, as a run over the events that
-- `select!` takes. The tasks of the server and of the network reach the loop through the channel and
-- through the known peers.
pub mod Config
pub mod Chain
pub mod Loop
mod Tests
use rustchain.Base.{
  ℕ, Bool, true, false, Option, none, some, List, [], ◌∷◌, Result, ok, err, ◌>>=◌, if◌then◌else◌,
}
use rustchain.Crypto.{Keys, KeyDir, get_or_create_key}
use rustchain.Data.{SigningKey, PeerId, Disk, Message, Error, channel_closed}
use rustchain.Effects.{Network}
use rustchain.Engine
use rustchain.Engine.{ConsensusEngine}
use rustchain.Env.{Env}
use rustchain.Peer.{Peer, handle_message, handle_tick, apply_block}
use rustchain.Peer.View.{new_peer}
use rustchain.Raft.LogStore.{AnyRaftLogStore, FileRaftLogStore, file}
use rustchain.Runtime.Config.{
  ConsensusMode, voting_mode, raft_mode, PeerConfig, default_mempool_size,
}
use rustchain.Storage.{BlockKeeper, new_keeper}
use rustchain.Sync.{PeersStates, Answers, SyncState, check_and_retrieve_missing_blocks}

-- The peer of the loop, and which of the two intervals run.
pub record Runtime : Type 0 where
  pub peer : Peer
  pub synchronizes : Bool
  pub requires_consensus_tick : Bool

-- The directory of a peer: its blocks, its key and its Raft log.
pub record PeerDir : Type 0 where
  pub blocks : Disk
  pub key : KeyDir
  pub raft_log : FileRaftLogStore

module _ (env : Env) where
  -- The commit index that a Raft peer starts from is the height of its chain.
  unfoldable pub create_raft_consensus :
      PeerId → FileRaftLogStore → BlockKeeper → ℕ → Result Error ConsensusEngine
  create_raft_consensus peer_id raft_log_store block_keeper now =
      Engine.new_raft_with_storage env peer_id (file raft_log_store)
        block_keeper.storage_state.block_height now

  unfoldable pub create_consensus :
      PeerConfig → FileRaftLogStore → BlockKeeper → ℕ → Result Error ConsensusEngine
  unfolding create_raft_consensus
  create_consensus peer_config raft_log_store block_keeper now = elim peer_config.consensus_mode [
    | voting_mode ↦ ok (Engine.new_voting peer_config.peer_id)
    | raft_mode ↦ create_raft_consensus peer_config.peer_id raft_log_store block_keeper now
  ]

  abbrev is_voting : ConsensusMode → Bool
  is_voting voting_mode = true
  is_voting raft_mode = false

  -- `run_peer` up to its loop, from a network as it is when it is ready; `created` is a new key, and
  -- `none` is a panic.
  unfoldable pub start_peer :
      Keys → PeerConfig → PeerDir → Network → SigningKey → ℕ → Option (Result Error Runtime)
  start_peer keys peer_config dir network created now =
      elim (new_keeper env dir.blocks default_mempool_size) [
        | none ↦ none
        | some block_keeper ↦ elim (get_or_create_key keys dir.key created) [
          | none ↦ none
          | some (kept, signing_key) ↦ some (do
            consensus ← create_consensus peer_config dir.raft_log block_keeper now
            ok (record {
              peer = new_peer env peer_config.peer_id network consensus block_keeper signing_key;
              synchronizes = is_voting peer_config.consensus_mode;
              requires_consensus_tick = Engine.requires_tick consensus;
            }))
        ]
      ]

-- What the loop waits for: a message, or the end of the channel; a tick of the synchronization, with
-- the heights of the other peers and the answers of its rounds; a tick of consensus; and a change of
-- the known peers by the task of the network.
pub data Event : Type 0 where
  received : Message → ℕ → Event
  closed : Event
  sync_tick : PeersStates → List Answers → Event
  consensus_tick : ℕ → Event
  peers_updated : List PeerId → Event

-- The state after an event, or the error that ends the loop; `none` if the fuel or the answers ran
-- out.
abbrev pub Handled : Type 0
Handled = Option (Runtime × Option Error)

abbrev with_peer : Runtime → Peer → Runtime
with_peer r peer = record r { peer = peer }

abbrev with_known_peers : Peer → List PeerId → Peer
with_known_peers p peers = record p {
  services = record p.services {
    effects = record p.services.effects {
      network = record p.services.effects.network { known_peers = peers };
    };
  };
}

module _ (env : Env) (fuel : ℕ) where
  -- a handler of the peer, whose errors are printed
  after_handler : Runtime → Option (Peer × List Error) → Handled
  after_handler r none = none
  after_handler r (some (peer, errors)) = some (with_peer r peer, none)

  after_sync : Runtime → Option (Peer × SyncState) → Handled
  after_sync r none = none
  after_sync r (some (peer, state)) = some (with_peer r peer, none)

  -- A branch whose interval does not run is never taken.
  unfoldable pub run_event : Runtime → Event → Handled
  unfolding after_handler after_sync
  run_event r (received message now) = after_handler r (handle_message env fuel r.peer message now)
  run_event r closed = some (r, some channel_closed)
  run_event r (sync_tick states rounds) =
      if r.synchronizes
      then after_sync r (
          check_and_retrieve_missing_blocks (apply_block env fuel) states r.peer
            r.peer.services.effects.block_keeper.storage_state.block_height rounds)
      else some (r, none)
  run_event r (consensus_tick now) =
      if r.requires_consensus_tick
      then after_handler r (handle_tick env fuel r.peer now)
      else some (r, none)
  run_event r (peers_updated peers) = some (with_peer r (with_known_peers r.peer peers), none)

  unfoldable pub run_loop : Runtime → List Event → Handled
  unfolding run_event
  run_loop r [] = some (r, none)
  run_loop r (event ∷ events) = elim (run_event r event) [
    | none ↦ none
    | some (next, some e) ↦ some (next, some e)
    | some (next, none) ↦ run_loop next events
  ]
