-- ===== src/Data/Transactions.antt =====
-- The transaction types of src/transactions.rs. A key or a signature of k256 is the list of its
-- bytes; `timestamp_nanos` is a `u128`, amounts and sequence numbers are `u32`.
use rustchain.Base.{ℕ, String, List}

abbrev pub Bytes : Type 0
Bytes = List ℕ

abbrev pub Signature : Type 0
Signature = Bytes

abbrev pub VerifyingKey : Type 0
VerifyingKey = Bytes

abbrev pub SigningKey : Type 0
SigningKey = Bytes

pub record Metadata : Type 0 where
  pub timestamp_nanos : ℕ
  pub sequence_number : ℕ

pub data AssetType : Type 0 where
  btc usdt : AssetType

pub data Operation : Type 0 where
  add_coin : ℕ → AssetType → Operation
  send : String → ℕ → AssetType → Operation

pub record Transaction : Type 0 where
  pub operation : Operation
  pub metadata : Metadata

pub record SignedTransaction : Type 0 where
  pub transaction : Transaction
  pub signature : Signature
  pub public_key : VerifyingKey

pub record VerifiedTransaction : Type 0 where
  pub client_tx : SignedTransaction
  pub peer_signature : Signature
  pub peer_public_key : VerifyingKey
