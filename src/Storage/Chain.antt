-- ===== src/Storage/Chain.antt =====
-- The chain of blocks under the operations of `BlockKeeper` (src/storage.rs): the directory and the
-- state that a keeper shares with its views.
use rustchain.Base.{
  Option, ℕ, ◌+◌, ◌≤◌, ◌<◌, ◌^◌, ◌==◌, false, ◌≡◌, refl, sym, ◌∙◌, ap, List, [], ◌∷◌, ◌++◌, some,
  none, arith, add_u32, nat_eq, bytes_eq, string_eq, ok, err, Bool-cases, Option-cases,
  Result-cases, inl, inr, length,
}
use rustchain.Base.Dict
use rustchain.Base.Dict.{get-insert}
use rustchain.Storage.Names.{same_filename}
use rustchain.Block.{verify_block}
use rustchain.Data.{
  Bytes, block_file_not_found, block_not_deserialized, BlockHash, BlockFile, BlockStorageState,
  Disk, SignedTransaction,
}
use rustchain.Env.{Env}
use rustchain.Ledger.{tx_id}
use rustchain.Storage.{
  BlockKeeper, read_from_disk, read_from_disk_by_index, block_filename_for_index, create_new_block,
  add_transaction, move_to_pending, move_all_to_pending, add_external_block, commit_block,
  return_to_mempool, return_all_to_mempool, rollback_block,
}

pub record Chain : Type 0 where
  pub disk : Disk
  pub storage_state : BlockStorageState

abbrev pub chain : BlockKeeper → Chain
chain k = record { disk = k.disk; storage_state = k.storage_state }

-- A block at the end of a chain: in the file of the next index, named as the last one.
unfoldable pub append_block : Env → Chain → BlockHash × BlockFile → Chain
append_block env c (block_hash, block_file) =
    let index = add_u32 c.storage_state.block_height 1 in
    record {
      disk = record c.disk {
        files =
            Dict.insert (block_filename_for_index index) (env.block_json block_file) c.disk.files;
      };
      storage_state = record { block_height = index; last_commited_hash = block_hash };
    }

unfoldable pub append_blocks : Env → Chain → List (BlockHash × BlockFile) → Chain
append_blocks env c [] = c
append_blocks env c (b ∷ bs) = append_blocks env (append_block env c b) bs

append_blocks-append :
    (env : Env) (c : Chain) (bs ds : List (BlockHash × BlockFile))
    → append_blocks env c (bs ++ ds) ≡ append_blocks env (append_blocks env c bs) ds
unfolding append_blocks
append_blocks-append env c [] ds = refl
append_blocks-append env c (b ∷ bs) ds = append_blocks-append env (append_block env c b) bs ds

-- The second chain is the first one with further blocks.
pub record Grows (env : Env) (c : Chain) (d : Chain) : Type 0 where
  pub blocks : List (BlockHash × BlockFile)
  pub grown : d ≡ append_blocks env c blocks

get-append_block :
    (env : Env) (c : Chain) (b : BlockHash × BlockFile) (index : ℕ)
    → index ≤ c.storage_state.block_height
    → c.storage_state.block_height + 1 < 2 ^ 32
    → Dict.get (append_block env c b).disk.files (block_filename_for_index index)
      ≡ Dict.get c.disk.files (block_filename_for_index index)
unfolding append_block
get-append_block env c (h, b) index low fits =
    let top = add_u32 c.storage_state.block_height 1 in
    let other : (block_filename_for_index top == block_filename_for_index index) ≡ false =
      same_filename top index (omega arith) (omega arith) ∙ ground arith in
    get-insert c.disk.files (block_filename_for_index top) (block_filename_for_index index)
      (env.block_json b)
    ∙ rw other refl

read-same :
    (env : Env) (c d : Disk) (index : ℕ)
    → Dict.get d.files (block_filename_for_index index)
      ≡ Dict.get c.files (block_filename_for_index index)
    → read_from_disk_by_index env d index ≡ read_from_disk_by_index env c index
unfolding read_from_disk_by_index read_from_disk
read-same env c d index same =
    ap
      (λ (file : Option Bytes). elim file [
        | none ↦ err block_file_not_found
        | some contents ↦ elim (env.parse_block contents) [
          | none ↦ err block_not_deserialized
          | some block_file ↦ ok block_file
        ]
      ])
      same

-- Further blocks leave the blocks up to the height as they were, if no index wraps.
pub read-append_blocks :
    (env : Env) (bs : List (BlockHash × BlockFile)) (c : Chain) (index : ℕ)
    → index ≤ c.storage_state.block_height
    → c.storage_state.block_height + length bs < 2 ^ 32
    → read_from_disk_by_index env (append_blocks env c bs).disk index
      ≡ read_from_disk_by_index env c.disk index
unfolding append_blocks
read-append_blocks env [] c index low fits = refl
read-append_blocks env (b ∷ bs) c index low fits =
    let higher : (append_block env c b).storage_state.block_height
        ≡ c.storage_state.block_height + 1 =
      unfold append_block in omega arith in
    read-append_blocks env bs (append_block env c b) index (omega (arith, higher))
      (omega (arith, higher))
    ∙ read-same env c.disk (append_block env c b).disk index
        (get-append_block env c b index low (omega arith))

module _ (env : Env) where
  pub Grows-same : {c d : Chain} → d ≡ c → Grows env c d
  unfolding append_blocks
  Grows-same same = record { blocks = []; grown = same }

  pub Grows-trans : {c d e : Chain} → Grows env c d → Grows env d e → Grows env c e
  Grows-trans {c} g h = record {
    blocks = g.blocks ++ h.blocks;
    grown =
        h.grown
        ∙ ap (λ x. append_blocks env x h.blocks) g.grown
        ∙ sym (append_blocks-append env c g.blocks h.blocks);
  }

  pub add_transaction-chain :
      (k : BlockKeeper) (tx : SignedTransaction) → chain (add_transaction env k tx).0 ≡ chain k
  unfolding add_transaction create_new_block
  add_transaction-chain k tx = ground arith

  move_to_pending-chain :
      (k : BlockKeeper) (tx : SignedTransaction) → chain (move_to_pending env k tx) ≡ chain k
  unfolding move_to_pending
  move_to_pending-chain k tx = ground arith

  move_all_to_pending-chain :
      (txs : List SignedTransaction) (k : BlockKeeper)
      → chain (move_all_to_pending env k txs) ≡ chain k
  unfolding move_all_to_pending
  move_all_to_pending-chain [] k = refl
  move_all_to_pending-chain (tx ∷ txs) k =
      move_all_to_pending-chain txs (move_to_pending env k tx) ∙ move_to_pending-chain k tx

  pub add_external_block-chain :
      (k : BlockKeeper) (b : BlockFile) → chain (add_external_block env k b).0 ≡ chain k
  unfolding add_external_block
  add_external_block-chain k b = elim (Result-cases (verify_block env b)) [
    | inr (e, bad) ↦ rw (bad, add_external_block) refl
    | inl (_, good) ↦ rw (good, add_external_block) (move_all_to_pending-chain b.transactions k)
  ]

  return_to_mempool-chain :
      (k : BlockKeeper) (tx : SignedTransaction) → chain (return_to_mempool env k tx) ≡ chain k
  unfolding return_to_mempool
  return_to_mempool-chain k tx =
      elim (Option-cases (Dict.get k.pending_transactions (tx_id env tx))) [
        | inl absent ↦ rw (absent, return_to_mempool) refl
        | inr (mine, there) ↦ rw (there, return_to_mempool) (add_transaction-chain _ mine)
      ]

  return_all_to_mempool-chain :
      (txs : List SignedTransaction) (k : BlockKeeper)
      → chain (return_all_to_mempool env k txs) ≡ chain k
  unfolding return_all_to_mempool
  return_all_to_mempool-chain [] k = refl
  return_all_to_mempool-chain (tx ∷ txs) k =
      return_all_to_mempool-chain txs (return_to_mempool env k tx) ∙ return_to_mempool-chain k tx

  pub rollback_block-chain :
      (k : BlockKeeper) (h : BlockHash) → chain (rollback_block env k h).0 ≡ chain k
  unfolding rollback_block
  rollback_block-chain k h = elim (Option-cases (Dict.get k.uncommited_blocks h)) [
    | inl absent ↦ rw (absent, rollback_block) refl
    | inr (b, there) ↦ rw (there, rollback_block) (return_all_to_mempool-chain b.transactions _)
  ]

  pub commit_block-Grows :
      (k : BlockKeeper) (h : BlockHash) → Grows env (chain k) (chain (commit_block env k h).0)
  unfolding commit_block append_blocks append_block
  commit_block-Grows k h = elim (Option-cases (Dict.get k.uncommited_blocks h)) [
    | inl absent ↦ Grows-same (rw (absent, commit_block) refl)
    | inr (b, there) ↦ elim (Bool-cases k.disk.writable) [
      | inr stuck ↦ Grows-same (rw (there, stuck, commit_block) refl)
      | inl free ↦ record { blocks = (h, b) ∷ []; grown = rw (there, free, commit_block) refl }
    ]
  ]
