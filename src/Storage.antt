-- ===== src/Storage.antt =====
-- `BlockKeeper` of src/storage.rs: the mempool, the blocks that wait for a decision, and the
-- committed blocks on disk. The state that it shares with its views by a lock is a field here.
mod Files
pub mod Chain
pub mod Commits
pub mod Replay
pub mod View
pub mod Names
mod Tests
unfoldable pub use Files.*
use Prim.Native.Nat.{Ordering}
use Prim.Native.String.{compare as compare_text}
use rustchain.Base.{
  ℕ, zero, suc, ◌+◌, ◌-◌, ◌*◌, ◌/◌, ◌%◌, ◌^◌, Bool, false, Option, none, some, List, [], ◌∷◌, ◌++◌,
  String, Result, ok, err, ◌>>=◌, ltb, leb, if◌then◌else◌, ◌==◌, nat_eq, string_eq, bytes_eq,
  add_u32, length, find, last_or,
}
use rustchain.Base.Dict
use rustchain.Base.Dict.{Dict}
use rustchain.Block.{create, verify_block}
use rustchain.Data.{
  Bytes, SignedTransaction, BlockHash, empty_hash, BlockFile, BlockStorageState, BlockStatus,
  added_to_mempool, new_block_created, BlockVerificationError, FileName, Disk, Error,
  block_not_found, block_file_not_found, block_index_too_large, block_not_deserialized,
  block_not_written,
}
use rustchain.Env.{Env}
use rustchain.Ledger.{tx_id}

pub record BlockKeeper : Type 0 where
  pub disk : Disk
  pub mempool_size : ℕ
  pub mempool : Dict String SignedTransaction
  pub pending_transactions : Dict String SignedTransaction
  pub uncommited_blocks : Dict BlockHash BlockFile
  pub storage_state : BlockStorageState
  pub previous_hash : BlockHash

module _ (env : Env) where
  unfoldable pub new_keeper : Disk → ℕ → Option BlockKeeper
  unfolding latest_state list_all_blocks digits_value
  new_keeper disk mempool_size =
      elim (latest_state env disk (last_or some none (list_all_blocks env disk))) [
        | none ↦ none
        | some state ↦ some (record {
          disk = disk;
          mempool_size = mempool_size;
          mempool = [];
          pending_transactions = [];
          uncommited_blocks = [];
          storage_state = state;
          previous_hash = state.last_commited_hash;
        })
      ]

  -- `sort_by` of the ids: stable, so a transaction goes behind those with its id.
  insert_sorted : SignedTransaction → List SignedTransaction → List SignedTransaction
  insert_sorted tx [] = tx ∷ []
  insert_sorted tx (x ∷ xs) =
      let behind = x ∷ insert_sorted tx xs in
      elim (compare_text (tx_id env tx) (tx_id env x)) [ Ordering.gt ↦ behind | _ ↦ tx ∷ x ∷ xs ]

  unfoldable pub sort_by_id : List SignedTransaction → List SignedTransaction
  unfolding insert_sorted
  sort_by_id [] = []
  sort_by_id (tx ∷ txs) = insert_sorted tx (sort_by_id txs)

-- `insert` of each entry of the first map
unfoldable pub insert_all :
    Dict String SignedTransaction → Dict String SignedTransaction → Dict String SignedTransaction
insert_all [] m = m
insert_all ((id, tx) ∷ txs) m = insert_all txs (Dict.insert id tx m)

module _ (env : Env) where
  unfoldable pub create_new_block :
      BlockKeeper → Dict String SignedTransaction → BlockKeeper × BlockHash
  unfolding insert_all
  create_new_block k transactions_map =
      let block_file =
        create env (sort_by_id env (Dict.values transactions_map))
          k.storage_state.last_commited_hash (add_u32 k.storage_state.block_height 1) in
      (
        record k {
          previous_hash = block_file.hash;
          uncommited_blocks = Dict.insert block_file.hash block_file k.uncommited_blocks;
          pending_transactions = insert_all transactions_map k.pending_transactions;
        },
        block_file.hash,
      )

  unfoldable pub add_transaction : BlockKeeper → SignedTransaction → BlockKeeper × BlockStatus
  unfolding create_new_block
  add_transaction k transaction =
      let mempool = Dict.insert (tx_id env transaction) transaction k.mempool in
      let (created, block_hash) = create_new_block (record k { mempool = [] }) mempool in
      if leb k.mempool_size (length mempool)
      then (created, new_block_created block_hash)
      else (record k { mempool = mempool }, added_to_mempool)

  -- A transaction of an external block that is in the mempool becomes pending.
  unfoldable pub move_to_pending : BlockKeeper → SignedTransaction → BlockKeeper
  move_to_pending k transaction = elim (Dict.get k.mempool (tx_id env transaction)) [
    | none ↦ k
    | some mine ↦ record k {
      mempool = Dict.remove (tx_id env transaction) k.mempool;
      pending_transactions = Dict.insert (tx_id env mine) mine k.pending_transactions;
    }
  ]

  unfoldable pub move_all_to_pending : BlockKeeper → List SignedTransaction → BlockKeeper
  unfolding move_to_pending
  move_all_to_pending k [] = k
  move_all_to_pending k (tx ∷ txs) = move_all_to_pending (move_to_pending k tx) txs

  unfoldable pub add_external_block :
      BlockKeeper → BlockFile → BlockKeeper × Result BlockVerificationError (Unit {0})
  unfolding move_all_to_pending
  add_external_block k block_file = elim (verify_block env block_file) [
    | err e ↦ (k, err e)
    | ok _ ↦
        let moved = move_all_to_pending k block_file.transactions in
        (
          record moved {
            uncommited_blocks = Dict.insert block_file.hash block_file moved.uncommited_blocks;
          },
          ok tt,
        )
  ]

  unfoldable pub remove_pending :
      List SignedTransaction → Dict String SignedTransaction → Dict String SignedTransaction
  remove_pending [] m = m
  remove_pending (tx ∷ txs) m = remove_pending txs (Dict.remove (tx_id env tx) m)

  unfoldable pub commit_block : BlockKeeper → BlockHash → BlockKeeper × Result Error (Unit {0})
  unfolding remove_pending
  commit_block k block_hash = elim (Dict.get k.uncommited_blocks block_hash) [
    | none ↦ (k, err (block_not_found block_hash))
    | some block_file ↦
        let block_index = add_u32 k.storage_state.block_height 1 in
        let files =
          Dict.insert (block_filename_for_index block_index) (env.block_json block_file)
            k.disk.files in
        if k.disk.writable
        then (
          record k {
            disk = record k.disk { files = files };
            storage_state = record { block_height = block_index; last_commited_hash = block_hash };
            pending_transactions = remove_pending block_file.transactions k.pending_transactions;
            uncommited_blocks = Dict.remove block_hash k.uncommited_blocks;
          },
          ok tt,
        )
        else (k, err block_not_written)
  ]

  -- One round of the loop of `rollback_block`; the status that `add_transaction` returns is
  -- dropped.
  unfoldable pub return_to_mempool : BlockKeeper → SignedTransaction → BlockKeeper
  unfolding add_transaction
  return_to_mempool k transaction = elim (Dict.get k.pending_transactions (tx_id env transaction)) [
    | none ↦ k
    | some mine ↦
        (add_transaction
          (record k {
            pending_transactions = Dict.remove (tx_id env transaction) k.pending_transactions;
          })
          mine).0
  ]

  unfoldable pub return_all_to_mempool : BlockKeeper → List SignedTransaction → BlockKeeper
  unfolding return_to_mempool
  return_all_to_mempool k [] = k
  return_all_to_mempool k (tx ∷ txs) = return_all_to_mempool (return_to_mempool k tx) txs

  unfoldable pub rollback_block : BlockKeeper → BlockHash → BlockKeeper × Result Error (Unit {0})
  unfolding return_all_to_mempool
  rollback_block k block_hash = elim (Dict.get k.uncommited_blocks block_hash) [
    | none ↦ (k, err (block_not_found block_hash))
    | some block_file ↦ (
      return_all_to_mempool
          (record k { uncommited_blocks = Dict.remove block_hash k.uncommited_blocks })
          block_file.transactions,
      ok tt,
    )
  ]

  unfoldable pub read_block_by_index : BlockKeeper → ℕ → Result Error BlockFile
  unfolding read_from_disk_by_index
  read_block_by_index k index =
      if ltb index (2 ^ 32)
      then read_from_disk_by_index env k.disk index
      else err block_index_too_large

  -- the loop of `read_block_by_hash` over the names
  unfoldable pub find_by_hash : Disk → BlockHash → List FileName → Result Error BlockFile
  find_by_hash disk block_hash [] = err (block_not_found block_hash)
  find_by_hash disk block_hash (name ∷ names) =
      let rest = find_by_hash disk block_hash names in
      elim (read_from_disk env disk name) [
        | err e ↦ err e
        | ok block_file ↦ if block_file.hash == block_hash then ok block_file else rest
      ]

  unfoldable pub read_block_by_hash : BlockKeeper → BlockHash → Result Error BlockFile
  unfolding find_by_hash
  read_block_by_hash k block_hash = find_by_hash k.disk block_hash (list_all_blocks env k.disk)

  unfoldable pub read_transactions_from_disk :
      BlockKeeper → FileName → Result Error (List SignedTransaction)
  read_transactions_from_disk k name = do
    block_file ← read_from_disk env k.disk name
    ok block_file.transactions

unfoldable pub get_uncommited_block : BlockKeeper → BlockHash → Option BlockFile
get_uncommited_block k block_hash = Dict.get k.uncommited_blocks block_hash

-- The first uncommitted block, in the order of the map, whose index precedes.
unfoldable pub block_before : BlockKeeper → ℕ → Option BlockFile
unfolding find
block_before k index = find (λ b. add_u32 b.index 1 == index) (Dict.values k.uncommited_blocks)

unfoldable pub block_can_be_added : BlockKeeper → BlockFile → Bool
unfolding block_before
block_can_be_added k block_file =
    if block_file.index == 0
    then false
    else if Dict.contains_key k.uncommited_blocks block_file.hash
    then false
    else if k.storage_state.block_height == block_file.index - 1
    then block_file.previous_hash == k.storage_state.last_commited_hash
    else (elim (block_before k block_file.index) [
      | none ↦ false
      | some previous_block ↦ block_file.previous_hash == previous_block.hash
    ])
