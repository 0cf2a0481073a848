-- ===== src/Sync/Local.antt =====
-- The synchronization of src/synchronization.rs over the network of
-- src/network/local_network.rs. `LocalJson` is `deserialize_response` at the two types that the
-- synchronization asks for, `Generator` the generator of random numbers in one round.
use rustchain.Base.{ℕ, zero, suc, Option, none, some, List, [], ◌∷◌, length, Result, err, nat_eq}
use rustchain.Base.Dict
use rustchain.Data.{PeerId, BlockFile, BlockStorageState, Error, peer_not_found}
use rustchain.Env.{Env}
use rustchain.Network.{get_latest_block_state, get_block_state, get_block}
use rustchain.Network.Local.{LocalNetwork, send_and_wait, send_and_wait_for_all}
use rustchain.Sync.{PeersStates, Answers, latest_indexes}

pub record LocalJson : Type 0 where
  pub state_as_state : BlockStorageState → Result Error BlockStorageState
  pub block_as_state : BlockFile → Result Error BlockStorageState
  pub state_as_block : BlockStorageState → Result Error BlockFile
  pub block_as_block : BlockFile → Result Error BlockFile

pub record Generator : Type 0 where
  pub choose_multiple : List PeerId → ℕ → List PeerId
  pub random_range : ℕ → ℕ

-- `peers[place]`
unfoldable pub peer_at : List PeerId → ℕ → Option PeerId
peer_at [] place = none
peer_at (peer ∷ peers) zero = some peer
peer_at (peer ∷ peers) (suc place) = peer_at peers place

module _ {Sender : Type 0} (env : Env) (json : LocalJson) (net : LocalNetwork Sender) where
  -- The call of `get_latest_indexes`.
  unfoldable pub local_indexes : PeersStates
  local_indexes = latest_indexes (
      send_and_wait_for_all env json.state_as_state json.block_as_state net get_latest_block_state
        net.known_peers)

  -- What `get_block_file` is answered in a round; a place out of range is a panic of the source and
  -- an error here.
  unfoldable pub local_answers : Generator → Answers
  unfolding peer_at
  local_answers generator = record {
    known = length net.known_peers;
    choose = generator.choose_multiple;
    states = λ index peers. Dict.values (
        send_and_wait_for_all env json.state_as_state json.block_as_state net
          (get_block_state index) peers);
    pick = generator.random_range;
    block = λ index peers place. elim (peer_at peers place) [
      | none ↦ err peer_not_found
      | some peer ↦
          send_and_wait env json.state_as_block json.block_as_block net peer (get_block index)
    ];
  }
