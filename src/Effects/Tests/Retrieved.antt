-- ===== src/Effects/Tests/Retrieved.antt =====
-- A run of the synchronization of src/synchronization.rs over the local network.
use rustchain.Base.{
  Option, ℕ, zero, suc, ◌≡◌, refl, true, some, none, List, [], ◌∷◌, ok, err, arith, nat_eq, map,
  take, length-take,
}
use rustchain.Base.Dict
use rustchain.Base.Sets.{contains, Within}
use rustchain.Block.{verify_block, calculate_hash}
use rustchain.Data.{block_file_not_found, PeerId, Message}
use rustchain.Effects.{PeerEffects, apply_synchronized_block}
use rustchain.Effects.Synchronized.{height, apply_synchronized_block-Counts}
use rustchain.Env.{Env}
use rustchain.Env.Samples.{sample}
use rustchain.Storage
use rustchain.Storage.View
use rustchain.Storage.View.{BlockStorageView}
use rustchain.Network.Local.{LocalNetwork, send_and_wait, send_and_wait_for_all}
use rustchain.Storage.{
  block_filename_for_index, BlockKeeper, block_can_be_added, add_external_block,
}
use rustchain.Sync.Holds.{IsFair, Confirmed}
use rustchain.Sync.Local.{LocalJson, Generator, local_indexes, local_answers}
use rustchain.Sync.Retrieved.{Applies, check_and_retrieve-Confirmed}
use rustchain.Sync.{
  SyncState, success, check_and_retrieve_missing_blocks, get_max_index, latest_indexes,
  get_block_file, try_block,
}
use rustchain.Sync.Rounds.{EndsAt}
use rustchain.Effects.Tests.{peer, block}

-- Three other peers that have a block more, each with the same file.
abbrev parsing : Env
parsing = record sample { parse_block = λ bytes. some block }

abbrev view : BlockStorageView
view = record {
  storage_state = record { block_height = 1; last_commited_hash = 1 };
  disk = record { files = (block_filename_for_index 1, 1 ∷ []) ∷ []; writable = true };
}

abbrev net : LocalNetwork (List Message)
net = record {
  senders = [];
  known_peers = 2 ∷ 3 ∷ 4 ∷ [];
  block_storage_views = (2, view) ∷ (3, view) ∷ (4, view) ∷ [];
  broadcasted_messages = [];
}

abbrev json : LocalJson
json = record {
  state_as_state = λ s. ok s;
  block_as_state = λ b. err block_file_not_found;
  state_as_block = λ s. err block_file_not_found;
  block_as_block = λ b. ok b;
}

abbrev first_peers : Generator
first_peers = record { choose_multiple = λ peers n. take n peers; random_range = λ n. 0 }

take-Within : (peers : List PeerId) (n : ℕ) → Within (take n peers) peers
unfolding contains
take-Within [] zero id there = there
take-Within [] (suc n) id there = there
take-Within (p ∷ peers) zero id there = absurd (ground (arith, there))
take-Within (p ∷ peers) (suc n) id there = ground (arith, there, take-Within peers n id)

first_peers-IsFair : IsFair first_peers
first_peers-IsFair =
    (take-Within, λ peers n. omega (arith, length-take n peers), λ n positive. positive)

abbrev generators : List Generator
generators = first_peers ∷ first_peers ∷ first_peers ∷ first_peers ∷ []

-- The outcome of a run, with the height that is reached.
abbrev outcome_of : Option (PeerEffects × SyncState) → Option (ℕ × SyncState)
outcome_of none = none
outcome_of (some (p, outcome)) = some (height p, outcome)

retrieved :
    outcome_of (
      check_and_retrieve_missing_blocks
        (apply_synchronized_block parsing)
        (local_indexes parsing json net)
        peer
        0
        (map (local_answers parsing json net) generators))
    ≡ some (1, success)
unfolding check_and_retrieve_missing_blocks apply_synchronized_block local_indexes local_answers
    Dict.get Dict.insert get_max_index send_and_wait_for_all block_can_be_added add_external_block
    verify_block calculate_hash Storage.commit_block get_block_file View.get_block
    Storage.read_from_disk_by_index send_and_wait latest_indexes View.get_latest_state try_block
    View.state_of_block
retrieved = refl

check_and_retrieve-Confirmed_example :
    (t : PeerEffects) × (outcome : SyncState) × (check_and_retrieve_missing_blocks
        (apply_synchronized_block parsing)
        (local_indexes parsing json net)
        peer
        0
        (map (local_answers parsing json net) generators)
      ≡ some (t, outcome))
    × EndsAt height 1 (some (t, outcome))
    × Applies (apply_synchronized_block parsing) (Confirmed parsing net) peer 1 t
unfolding local_indexes latest_indexes send_and_wait send_and_wait_for_all View.get_latest_state
    Dict.get Dict.insert get_max_index
check_and_retrieve-Confirmed_example =
    check_and_retrieve-Confirmed parsing json net ((λ s. refl), λ b. refl) (omega arith)
      (apply_synchronized_block parsing) height (apply_synchronized_block-Counts parsing) peer
      generators
      (first_peers-IsFair, (first_peers-IsFair, (first_peers-IsFair, (first_peers-IsFair, tt))))
      (omega arith) (omega arith)
