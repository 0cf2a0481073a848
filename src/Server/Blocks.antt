-- ===== src/Server/Blocks.antt =====
-- What src/server.rs serves of the blocks of a keeper (src/storage.rs) before and after a commit.
use rustchain.Base.{
  ℕ, ◌^◌, ◌<◌, ◌≡◌, refl, ◌∙◌, some, ok, if◌then◌else◌, ◌==◌, nat_eq, bytes_eq, add_u32, arith, inl,
  inr,
}
use rustchain.Base.Dict
use rustchain.Data.{BlockHash, BlockFile}
use rustchain.Env.{Env}
use rustchain.Server.{ServerState, get_block}
use rustchain.Storage.{
  BlockKeeper, commit_block, read_from_disk, read_from_disk_by_index, block_filename_for_index,
}
use rustchain.Storage.Commits.{commit_block-cases}
use rustchain.Storage.Names.{same_filename}
use rustchain.Storage.View.{create_block_storage_view}
use rustchain.Storage.View

-- The server's view is that of a keeper.
abbrev pub viewing : {N : Type 0} → ServerState N → BlockKeeper → ServerState N
viewing state k = record state { latest_storage_view = create_block_storage_view k }

module _ (env : Env) (k : BlockKeeper) (block_hash : BlockHash) (block_file : BlockFile)
    (parses : env.parse_block (env.block_json block_file) ≡ some block_file)
    (there : Dict.get k.uncommited_blocks block_hash ≡ some block_file)
    (done : (commit_block env k block_hash).1 ≡ ok tt) where
  file_after :
      (index : ℕ)
      → index < 2 ^ 32
      → Dict.get (commit_block env k block_hash).0.disk.files (block_filename_for_index index) ≡ (
          if index == add_u32 k.storage_state.block_height 1
          then some (env.block_json block_file)
          else Dict.get k.disk.files (block_filename_for_index index))
  file_after index fits = elim (commit_block-cases env k block_hash) [
    | inl (e, failed, why) ↦ absurd (ground (arith, done, failed))
    | inr (b, _, c) ↦
        let top = add_u32 k.storage_state.block_height 1 in
        let same : b ≡ block_file = ground (arith, c.found, there) in
        rw c.height at (c.files (block_filename_for_index index))
        ∙ rw (same, same_filename top index (omega arith) fits) refl
  ]

  -- After a commit the server serves the committed block at the new height and at every other
  -- index what it served before, if the JSON of the block parses as the block.
  pub get_block-committed :
      {N : Type 0} (state : ServerState N) (index : ℕ)
      → index < 2 ^ 32
      → get_block env (viewing state (commit_block env k block_hash).0) index ≡ (
          if index == add_u32 k.storage_state.block_height 1
          then ok block_file
          else get_block env (viewing state k) index)
  unfolding get_block View.get_block read_from_disk_by_index read_from_disk
      create_block_storage_view
  get_block-committed state index fits = ground (arith, file_after index fits, parses)
