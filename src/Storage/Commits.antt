-- ===== src/Storage/Commits.antt =====
-- `commit_block` of src/storage.rs: what a commit leaves, and what can be read after it.
use rustchain.Base.{
  ℕ, ◌≡◌, refl, ◌∙◌, true, false, none, some, List, ok, err, if◌then◌else◌, ◌==◌, nat_eq, bytes_eq,
  add_u32, arith, eq_self, Bool-cases, Option-cases, inl, inr, ◌⊎◌,
}
use rustchain.Base.Dict
use rustchain.Data.{BlockHash, BlockFile, Error, block_not_found, block_not_written}
use rustchain.Env.{Env}
use rustchain.Storage.{
  BlockKeeper, commit_block, read_block_by_index, read_from_disk_by_index, read_from_disk,
  block_filename_for_index,
}

-- The keeper after the commit of an uncommitted block: the chain is one higher and ends with the
-- block, only that block leaves the uncommitted ones, and only its file is written.
pub record Committed (env : Env) (k : BlockKeeper) (block_hash : BlockHash) (block_file : BlockFile)
    (after : BlockKeeper) : Type 0 where
  pub found : Dict.get k.uncommited_blocks block_hash ≡ some block_file
  pub height : after.storage_state.block_height ≡ add_u32 k.storage_state.block_height 1
  pub last : after.storage_state.last_commited_hash ≡ block_hash
  pub uncommitted :
      (h : BlockHash)
      → Dict.get after.uncommited_blocks h
        ≡ (if block_hash == h then none else Dict.get k.uncommited_blocks h)
  pub files :
      (name : List ℕ)
      → Dict.get after.disk.files name ≡ (
          if block_filename_for_index after.storage_state.block_height == name
          then some (env.block_json block_file)
          else Dict.get k.disk.files name)
  pub mempool : after.mempool ≡ k.mempool

module _ (env : Env) (k : BlockKeeper) (block_hash : BlockHash) where
  commit_block-Committed :
      (b : BlockFile)
      → Dict.get k.uncommited_blocks block_hash ≡ some b
      → k.disk.writable ≡ true
      → ((commit_block env k block_hash).1 ≡ ok tt)
        × Committed env k block_hash b (commit_block env k block_hash).0
  unfolding commit_block
  commit_block-Committed b there free = (
    rw (there, free, commit_block) refl,
    record {
      found = there;
      height = rw (there, free, commit_block) refl;
      last = rw (there, free, commit_block) refl;
      uncommitted = λ h.
          rw (there, free, commit_block)
            (Dict.get-remove k.uncommited_blocks block_hash h
              ∙ ground (arith, there, nat_eq.same_iff block_hash h));
      files = λ name.
          rw (there, free, commit_block)
            (Dict.get-insert k.disk.files
              (block_filename_for_index (add_u32 k.storage_state.block_height 1)) name
              (env.block_json b));
      mempool = rw (there, free, commit_block) refl;
    },
  )

  -- A commit either fails and leaves the keeper as it was, because the block is not there or the
  -- disk cannot be written, or moves the block from the uncommitted ones to the end of the chain,
  -- writes only its file and raises the height by one.
  pub commit_block-cases :
      ((e : Error) × (commit_block env k block_hash ≡ (k, err e))
        × ((Dict.get k.uncommited_blocks block_hash ≡ none) ⊎ (k.disk.writable ≡ false)))
      ⊎ ((b : BlockFile) × ((commit_block env k block_hash).1 ≡ ok tt)
          × Committed env k block_hash b (commit_block env k block_hash).0)
  unfolding commit_block
  commit_block-cases = elim (Option-cases (Dict.get k.uncommited_blocks block_hash)) [
    | inl absent ↦ inl (block_not_found block_hash, rw (absent, commit_block) refl, inl absent)
    | inr (b, there) ↦ elim (Bool-cases k.disk.writable) [
      | inr stuck ↦ inl (block_not_written, rw (there, stuck, commit_block) refl, inr stuck)
      | inl free ↦ let (done, c) = commit_block-Committed b there free in inr (b, done, c)
    ]
  ]

-- A committed block can be read back by its height, if the JSON of the block parses as the block.
pub commit_block-read_block_by_index :
    (env : Env) (k : BlockKeeper) (block_hash : BlockHash) (block_file : BlockFile)
    → env.parse_block (env.block_json block_file) ≡ some block_file
    → Dict.get k.uncommited_blocks block_hash ≡ some block_file
    → (commit_block env k block_hash).1 ≡ ok tt
    → read_block_by_index env
        (commit_block env k block_hash).0
        (add_u32 k.storage_state.block_height 1)
      ≡ ok block_file
unfolding read_block_by_index read_from_disk_by_index read_from_disk
commit_block-read_block_by_index env k block_hash block_file parses there done =
    elim (commit_block-cases env k block_hash) [
      | inl (e, failed, why) ↦ absurd (ground (arith, done, failed))
      | inr (b, _, c) ↦
          let after = (commit_block env k block_hash).0 in
          let index = add_u32 k.storage_state.block_height 1 in
          let name = block_filename_for_index index in
          let same : b ≡ block_file = ground (arith, c.found, there) in
          let stored : Dict.get after.disk.files name ≡ some (env.block_json block_file) =
            rw c.height at (c.files name) ∙ rw (eq_self name, same) refl in
          ground (arith, stored, parses)
    ]
