-- ===== src/Env.antt =====
-- The code that is not the repository's: k256 (signatures), sha2, hex, serde_json, rand, regex and sorted_vec, as one
-- record of functions. `random_range` is `random_range(0..=n)` of the generator at one call.
pub mod Samples
use rustchain.Base.{ℕ, Bool, String, List, Option}
use rustchain.Data.{
  Bytes, Signature, VerifyingKey, SigningKey, Transaction, SignedTransaction, BlockHash, BlockFile,
  FileName, PersistedRaftLogState,
}

pub record Env : Type 0 where
  pub sign : SigningKey → Bytes → Signature
  pub verify : VerifyingKey → Bytes → Signature → Bool
  pub verifying_key : SigningKey → VerifyingKey
  pub hex_encode : Bytes → String
  pub sha256 : Bytes → BlockHash
  -- a `BlockHash` back as its 32 bytes
  pub hash_bytes : BlockHash → Bytes
  pub transaction_json : Transaction → Bytes
  pub signed_json : SignedTransaction → Bytes
  pub signed_list_json : List SignedTransaction → Bytes
  pub block_json : BlockFile → Bytes
  pub parse_block : Bytes → Option BlockFile
  pub raft_log_json : PersistedRaftLogState → Bytes
  pub parse_raft_log : Bytes → Option PersistedRaftLogState
  pub random_range : ℕ → ℕ
  -- regex: the first group of `^(\d+)\.block$`; sorted_vec: the names in their order
  pub block_pattern : FileName → Option FileName
  pub sorted_names : List FileName → List FileName
