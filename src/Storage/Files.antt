-- ===== src/Storage/Files.antt =====
-- The directory of blocks of src/storage.rs: the names of its files, and what is read from it.
use rustchain.Base.{
  ℕ, zero, suc, ◌+◌, ◌-◌, ◌*◌, ◌/◌, ◌%◌, ◌^◌, Option, none, some, List, [], ◌∷◌, ◌++◌, Result, ok,
  err, ltb, if◌then◌else◌, nat_eq, string_eq, bytes_eq,
}
use rustchain.Base.Dict
use rustchain.Base.Dict.{Dict}
use rustchain.Data.{
  Bytes, empty_hash, BlockFile, BlockStorageState, FileName, Disk, Error, block_file_not_found,
  block_not_deserialized,
}
use rustchain.Env.{Env}

-- The decimal digits of a number, in front of those that are there; the fuel is their number.
unfoldable pub digits_onto : ℕ → ℕ → List ℕ → List ℕ
digits_onto zero n rest = rest
digits_onto (suc fuel) n rest =
    let more = digits_onto fuel (n / 10) ((b'0' + n % 10) ∷ rest) in
    if ltb n 10 then (b'0' + n) ∷ rest else more

-- `{:05}`: a `u32` has at most ten digits.
unfoldable pub padded : ℕ → List ℕ
unfolding digits_onto
padded n =
    (if ltb n 10
      then b'0' ∷ b'0' ∷ b'0' ∷ b'0' ∷ []
      else if ltb n 100
      then b'0' ∷ b'0' ∷ b'0' ∷ []
      else if ltb n 1000
      then b'0' ∷ b'0' ∷ []
      else if ltb n 10000
      then b'0' ∷ []
      else [])
    ++ digits_onto 10 n []

unfoldable pub block_filename_for_index : ℕ → FileName
unfolding padded
block_filename_for_index index = padded index ++ b'.' ∷ b'b' ∷ b'l' ∷ b'o' ∷ b'c' ∷ b'k' ∷ []

-- `parse::<u32>`; `none` where the source's `unwrap` panics
unfoldable pub digits_value : ℕ → List ℕ → Option ℕ
digits_value n [] = if ltb n (2 ^ 32) then some n else none
digits_value n (d ∷ ds) = if ltb d b'0' then none else digits_value (n * 10 + (d - b'0')) ds

-- the names of the blocks that match the pattern
unfoldable pub matching : Env → Dict FileName Bytes → List FileName
matching env [] = []
matching env ((name, contents) ∷ files) =
    let rest = matching env files in
    elim (env.block_pattern name) [ none ↦ rest | some group ↦ name ∷ rest ]

module _ (env : Env) where
  unfoldable pub list_all_blocks : Disk → List FileName
  unfolding matching
  list_all_blocks disk = env.sorted_names (matching env disk.files)

  unfoldable pub read_from_disk : Disk → FileName → Result Error BlockFile
  read_from_disk disk name = elim (Dict.get disk.files name) [
    | none ↦ err block_file_not_found
    | some contents ↦ elim (env.parse_block contents) [
      | none ↦ err block_not_deserialized
      | some block_file ↦ ok block_file
    ]
  ]

  unfoldable pub read_from_disk_by_index : Disk → ℕ → Result Error BlockFile
  unfolding read_from_disk block_filename_for_index
  read_from_disk_by_index disk index = read_from_disk disk (block_filename_for_index index)

  -- The state that the last file of the list shows; `none` is a panic.
  unfoldable pub latest_state : Disk → Option FileName → Option BlockStorageState
  latest_state disk none = some (record { block_height = 0; last_commited_hash = empty_hash })
  latest_state disk (some name) = elim (env.block_pattern name) [
    | none ↦ none
    | some group ↦ elim (digits_value 0 group) [
      | none ↦ none
      | some index ↦ elim (read_from_disk disk name) [
        | err e ↦ some (record { block_height = 0; last_commited_hash = empty_hash })
        | ok block_file ↦
            some (record { block_height = index; last_commited_hash = block_file.hash })
      ]
    ]
  ]
