-- ===== src/Env/Samples.antt =====
-- Concrete stand-ins for the code that is not the repository's, for the runs of the tests.
use rustchain.Base.{true, none, some, [], ◌∷◌, length, if◌then◌else◌, ◌==◌, nat_eq, ◌+◌}
use rustchain.Data.{Bytes, BlockHash}
use rustchain.Env.{Env}

-- A hash that adds the bytes up.
abbrev weight : Bytes → BlockHash
weight [] = 1
weight (b ∷ bs) = b + weight bs

-- Every signature verifies; the JSON of a block is its index, its hash and the hash before it.
abbrev pub sample : Env
sample = record {
  sign = λ key message. key;
  verify = λ key message signature. true;
  verifying_key = λ key. key;
  hex_encode = λ bytes. if length bytes == 1 then "one" else "other";
  sha256 = weight;
  hash_bytes = λ hash. hash ∷ [];
  transaction_json = λ t. [];
  signed_json = λ t. [];
  signed_list_json = λ ts. length ts ∷ [];
  block_json = λ block. block.index ∷ block.hash ∷ block.previous_hash ∷ [];
  parse_block = λ bytes. none;
  raft_log_json = λ log. log.commit_index ∷ [];
  parse_raft_log = λ bytes. none;
  random_range = λ n. 0;
  block_pattern = λ name. some name;
  sorted_names = λ names. names;
}
