-- ===== src/Data/Blocks.antt =====
-- The block types of src/storage.rs. A `BlockHash` is the number that its 32 bytes spell.
use rustchain.Base.{ℕ, Bool, List}
use rustchain.Base.Dict.{Dict}
use rustchain.Data.Transactions.{Bytes, SignedTransaction}

abbrev pub BlockHash : Type 0
BlockHash = ℕ

abbrev pub empty_hash : BlockHash
empty_hash = 0

pub record BlockFile : Type 0 where
  pub index : ℕ
  pub hash : BlockHash
  pub previous_hash : BlockHash
  pub transactions : List SignedTransaction

pub record BlockStorageState : Type 0 where
  pub block_height : ℕ
  pub last_commited_hash : BlockHash

pub data BlockStatus : Type 0 where
  added_to_mempool : BlockStatus
  new_block_created : BlockHash → BlockStatus

-- The bytes of a file's name.
abbrev pub FileName : Type 0
FileName = Bytes

-- The directory of the blocks: its files with their contents, and whether a write succeeds.
pub record Disk : Type 0 where
  pub files : Dict FileName Bytes
  pub writable : Bool
