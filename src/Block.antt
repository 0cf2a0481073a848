-- ===== src/Block.antt =====
-- `BlockFile` of src/storage.rs and `verify_message` of src/crypto.rs.
use rustchain.Base.{
  ℕ, none, some, List, ◌++◌, Result, ok, err, ◌>>=◌, ◌>>◌, if◌then◌else◌, ◌==◌, nat_eq,
}
use rustchain.Data.{
  Bytes, Signature, VerifyingKey, SignedTransaction, BlockHash, BlockFile, BlockVerificationError,
  signature_error, deserialization_error, invalid_block_hash,
}
use rustchain.Env.{Env}

module _ (env : Env) where
  unfoldable pub verify_message :
      VerifyingKey → Signature → Bytes → Result BlockVerificationError (Unit {0})
  verify_message public_key signature message =
      if env.verify public_key message signature then ok tt else err signature_error

  unfoldable pub calculate_hash : List SignedTransaction → BlockHash → BlockHash
  calculate_hash transactions previous_hash =
      env.sha256 (env.hash_bytes previous_hash ++ env.signed_list_json transactions)

  unfoldable pub create : List SignedTransaction → BlockHash → ℕ → BlockFile
  create transactions previous_hash index = record {
    index = index;
    hash = calculate_hash transactions previous_hash;
    previous_hash = previous_hash;
    transactions = transactions;
  }

  unfoldable pub verify_block : BlockFile → Result BlockVerificationError (Unit {0})
  verify_block block_file =
      if calculate_hash block_file.transactions block_file.previous_hash == block_file.hash
      then ok tt
      else err invalid_block_hash

  -- `try_into`
  unfoldable pub from_bytes : Bytes → Result BlockVerificationError BlockFile
  from_bytes bytes = elim (env.parse_block bytes) [
    | none ↦ err deserialization_error
    | some block_file ↦ ok block_file
  ]

  unfoldable pub verify_block_vec :
      BlockHash → Bytes → Signature → VerifyingKey → Result BlockVerificationError BlockFile
  unfolding verify_message verify_block from_bytes calculate_hash
  verify_block_vec block_hash block_file_vec signature public_key = do
    verify_message public_key signature block_file_vec
    block_file ← from_bytes block_file_vec
    if block_hash == block_file.hash
        then (do verify_block block_file; ok block_file)
        else err invalid_block_hash
