-- ===== src/Peer/View.antt =====
-- How a peer starts, and what the server reads of it (src/peer.rs). The watch channel holds what the
-- peer has published.
use rustchain.Base.{List}
use rustchain.Data.{SigningKey, PeerId, BlockStorageState}
use rustchain.Effects.{Network, new_effects}
use rustchain.Engine
use rustchain.Engine.{ConsensusEngine, ConsensusState}
use rustchain.Env.{Env}
use rustchain.Peer.{Peer}
use rustchain.Storage.{BlockKeeper}
use rustchain.Storage.View.{BlockStorageView, create_block_storage_view, get_latest_state}

pub record PeerState : Type 0 where
  pub peer_id : PeerId
  pub known_peers : List PeerId
  pub block : BlockStorageState
  pub consensus : ConsensusState

pub record PeerStateView : Type 0 where
  pub peer_id : PeerId
  pub block_storage_view : BlockStorageView
  pub consensus_state : ConsensusState

unfoldable pub new_peer : Env → PeerId → Network → ConsensusEngine → BlockKeeper → SigningKey → Peer
new_peer env id network consensus block_keeper signing_key = record {
  services = record {
    effects = new_effects env id network block_keeper signing_key;
    consensus = consensus;
  };
  published = Engine.state consensus;
}

unfoldable pub create_state_view : Peer → PeerStateView
create_state_view p = record {
  peer_id = p.services.effects.peer_id;
  block_storage_view = create_block_storage_view p.services.effects.block_keeper;
  consensus_state = p.published;
}

unfoldable pub get_state : PeerStateView → List PeerId → PeerState
get_state view known_peers = record {
  peer_id = view.peer_id;
  known_peers = known_peers;
  block = get_latest_state view.block_storage_view;
  consensus = view.consensus_state;
}
