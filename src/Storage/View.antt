-- ===== src/Storage/View.antt =====
-- `BlockStorageView` of src/storage.rs: what the server reads of a keeper, which shares its state
-- with it. A view of the model is the keeper's state and directory at one instant.
use rustchain.Base.{ℕ, Result}
use rustchain.Data.{BlockFile, BlockStorageState, Disk, Error}
use rustchain.Env.{Env}
use rustchain.Storage.{BlockKeeper, read_from_disk_by_index}

pub record BlockStorageView : Type 0 where
  pub storage_state : BlockStorageState
  pub disk : Disk

unfoldable pub create_block_storage_view : BlockKeeper → BlockStorageView
create_block_storage_view k = record { storage_state = k.storage_state; disk = k.disk }

unfoldable pub get_latest_state : BlockStorageView → BlockStorageState
get_latest_state view = view.storage_state

unfoldable pub get_block : Env → BlockStorageView → ℕ → Result Error BlockFile
get_block env view index = read_from_disk_by_index env view.disk index

-- `BlockStorageState::from`
unfoldable pub state_of_block : BlockFile → BlockStorageState
state_of_block value = record { block_height = value.index; last_commited_hash = value.hash }
