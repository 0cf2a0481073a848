-- ===== src/Storage/Tests.antt =====
-- Runs of the block keeper: src/storage.rs.
use rustchain.Base.{◌≡◌, refl, true, false, none, some, [], ◌∷◌, ok, err, nat_eq, bytes_eq, ◌⊎◌}
use rustchain.Base.Dict
use rustchain.Data.{BlockFile, Error}
use rustchain.Env.{Env}
use rustchain.Env.Samples.{sample}
use rustchain.Storage.{BlockKeeper, commit_block, read_block_by_index, block_filename_for_index}
use rustchain.Storage.Commits.{Committed, commit_block-cases, commit_block-read_block_by_index}

-- The first block: its hash is the weight of 32 zero bytes and of an empty list.
abbrev genesis : BlockFile
genesis = record { index = 1; hash = 1; previous_hash = 0; transactions = [] }

abbrev keeper : BlockKeeper
keeper = record {
  disk = record { files = []; writable = true };
  mempool_size = 5;
  mempool = [];
  pending_transactions = [];
  uncommited_blocks = (1, genesis) ∷ [];
  storage_state = record { block_height = 0; last_commited_hash = 0 };
  previous_hash = 0;
}

-- `{:05}.block`
first_name :
    block_filename_for_index 42
    ≡ b'0' ∷ b'0' ∷ b'0' ∷ b'4' ∷ b'2' ∷ b'.' ∷ b'b' ∷ b'l' ∷ b'o' ∷ b'c' ∷ b'k' ∷ []
unfolding block_filename_for_index
first_name = refl

commit_block-cases_example :
    ((e : Error) × (commit_block sample keeper 1 ≡ (keeper, err e))
      × ((Dict.get keeper.uncommited_blocks 1 ≡ none) ⊎ (true ≡ false)))
    ⊎ ((b : BlockFile) × ((commit_block sample keeper 1).1 ≡ ok tt)
        × Committed sample keeper 1 b (commit_block sample keeper 1).0)
commit_block-cases_example = commit_block-cases sample keeper 1

-- JSON that parses as the one block of the run.
abbrev parsing : Env
parsing = record sample { parse_block = λ bytes. some genesis }

commit_block-read_block_by_index_example :
    read_block_by_index parsing (commit_block parsing keeper 1).0 1 ≡ ok genesis
unfolding commit_block Dict.get
commit_block-read_block_by_index_example =
    commit_block-read_block_by_index parsing keeper 1 genesis refl refl refl
