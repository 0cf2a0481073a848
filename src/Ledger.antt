-- ===== src/Ledger.antt =====
-- src/transactions.rs: signing and verifying transactions, and the accounts that they move coins
-- between. A method that fails returns the state that it leaves with its error.
pub mod Supply
pub mod Once
pub mod Rollback
mod Tests
use rustchain.Base.{
  ℕ, ◌-◌, Bool, true, false, not, Option, none, some, List, [], ◌∷◌, reverse, String, Result, ok,
  err, ◌>>◌, ltb, if◌then◌else◌, string_eq, add_u32,
}
use rustchain.Base.Dict
use rustchain.Base.Dict.{Dict}
use rustchain.Base.Sets
use rustchain.Data.{
  AssetType, btc, usdt, Operation, add_coin, send, Transaction, SignedTransaction,
  VerifiedTransaction, SigningKey, Error, bad_client_signature, bad_peer_signature,
  TransactionValidationError, account_not_found, insufficient_funds, asset_mismatch,
}
use rustchain.Env.{Env}

-- `AssetType` derives `PartialEq`
abbrev pub same_asset : AssetType → AssetType → Bool
same_asset btc btc = true
same_asset usdt usdt = true
same_asset btc usdt = false
same_asset usdt btc = false

pub record Account : Type 0 where
  pub asset_type : AssetType
  pub balance : ℕ

pub record TransactionProcessor : Type 0 where
  pub accounts : Dict String Account
  pub applied_transactions : List String

abbrev pub new_processor : TransactionProcessor
new_processor = record { accounts = []; applied_transactions = [] }

-- What a method leaves, with its result.
abbrev pub Processed : Type 0
Processed = TransactionProcessor × Result TransactionValidationError (Unit {0})

module _ (env : Env) where
  unfoldable pub sign_transaction : Transaction → SigningKey → SignedTransaction
  sign_transaction transaction signing_key = record {
    transaction = transaction;
    signature = env.sign signing_key (env.transaction_json transaction);
    public_key = env.verifying_key signing_key;
  }

  unfoldable pub verify_signed : SignedTransaction → Result Error (Unit {0})
  verify_signed tx =
      if env.verify tx.public_key (env.transaction_json tx.transaction) tx.signature
      then ok tt
      else err bad_client_signature

  unfoldable pub tx_id : SignedTransaction → String
  tx_id tx = env.hex_encode tx.signature

  -- `VerifiedTransaction::new`
  unfoldable pub countersign : SignedTransaction → SigningKey → VerifiedTransaction
  countersign client_tx peer_key = record {
    client_tx = client_tx;
    peer_signature = env.sign peer_key (env.signed_json client_tx);
    peer_public_key = env.verifying_key peer_key;
  }

  unfoldable pub verify_verified : VerifiedTransaction → Result Error (Unit {0})
  unfolding verify_signed
  verify_verified tx = do
    verify_signed tx.client_tx
    if env.verify tx.peer_public_key (env.signed_json tx.client_tx) tx.peer_signature
        then ok tt
        else err bad_peer_signature

  -- the id of the account that signs
  unfoldable pub account_id : SignedTransaction → String
  account_id tx = env.hex_encode tx.public_key

unfoldable pub set_balance : TransactionProcessor → String → Account → ℕ → TransactionProcessor
set_balance p id account balance = record p {
  accounts = Dict.insert id (record account { balance = balance }) p.accounts;
}

unfoldable pub credit : TransactionProcessor → String → AssetType → ℕ → Processed
unfolding set_balance
credit p id asset_type amount = elim (Dict.get p.accounts id) [
  | none ↦ (
    record p {
      accounts = Dict.insert id (record { asset_type = asset_type; balance = amount }) p.accounts;
    },
    ok tt,
  )
  | some account ↦
      if not (same_asset account.asset_type asset_type)
      then (p, err (asset_mismatch id account.asset_type asset_type))
      else (set_balance p id account (add_u32 account.balance amount), ok tt)
]

-- The sender has the asset and the amount, and an account of the recipient holds the asset.
unfoldable pub check_send :
    TransactionProcessor
    → String
    → String
    → AssetType
    → ℕ
    → Result TransactionValidationError Account
check_send p id to asset_type amount = elim (Dict.get p.accounts id) [
  | none ↦ err (account_not_found id)
  | some sender ↦
      if not (same_asset sender.asset_type asset_type)
      then err (asset_mismatch id sender.asset_type asset_type)
      else if ltb sender.balance amount
      then err (insufficient_funds id sender.balance amount)
      else (elim (Dict.get p.accounts to) [
        | none ↦ ok sender
        | some recipient ↦
            if not (same_asset recipient.asset_type asset_type)
            then err (asset_mismatch to recipient.asset_type asset_type)
            else ok sender
      ])
]

unfoldable pub send_coins : TransactionProcessor → String → String → AssetType → ℕ → Processed
unfolding check_send set_balance credit
send_coins p id to asset_type amount = elim (check_send p id to asset_type amount) [
  | err e ↦ (p, err e)
  | ok sender ↦ credit (set_balance p id sender (sender.balance - amount)) to asset_type amount
]

-- `balance` of `get_mut`, if there is an account
unfoldable pub change_balance : TransactionProcessor → String → (ℕ → ℕ) → TransactionProcessor
unfolding set_balance
change_balance p id f = elim (Dict.get p.accounts id) [
  | none ↦ p
  | some account ↦ set_balance p id account (f account.balance)
]

-- `saturating_sub` is `-`
unfoldable pub reverse_add_coin : TransactionProcessor → String → ℕ → TransactionProcessor
unfolding change_balance
reverse_add_coin p id amount = change_balance p id (λ b. b - amount)

unfoldable pub reverse_send_coins :
    TransactionProcessor → String → String → ℕ → TransactionProcessor
unfolding change_balance
reverse_send_coins p id to amount =
    change_balance (change_balance p to (λ b. b - amount)) id (λ b. add_u32 b amount)

unfoldable pub apply_operation : TransactionProcessor → String → Operation → Processed
unfolding credit send_coins
apply_operation p id (add_coin amount asset_type) = credit p id asset_type amount
apply_operation p id (send recipient amount asset_type) =
    send_coins p id recipient asset_type amount

unfoldable pub note_applied : String → Processed → Processed
note_applied id (p, ok u) =
    (record p { applied_transactions = Sets.insert id p.applied_transactions }, ok u)
note_applied id (p, err e) = (p, err e)

unfoldable pub reverse_operation : TransactionProcessor → String → Operation → TransactionProcessor
unfolding reverse_add_coin reverse_send_coins
reverse_operation p id (add_coin amount asset_type) = reverse_add_coin p id amount
reverse_operation p id (send recipient amount asset_type) = reverse_send_coins p id recipient amount

module _ (env : Env) where
  unfoldable pub process_transaction : TransactionProcessor → SignedTransaction → Processed
  unfolding tx_id account_id apply_operation note_applied
  process_transaction p tx =
      if Sets.contains p.applied_transactions (tx_id env tx)
      then (p, ok tt)
      else note_applied (tx_id env tx)
          (apply_operation p (account_id env tx) tx.transaction.operation)

  unfoldable pub rollback_transaction :
      TransactionProcessor → SignedTransaction → TransactionProcessor
  unfolding tx_id account_id reverse_operation
  rollback_transaction p tx =
      if Sets.contains p.applied_transactions (tx_id env tx)
      then reverse_operation
          (record p { applied_transactions = Sets.remove (tx_id env tx) p.applied_transactions })
          (account_id env tx) tx.transaction.operation
      else p

  unfoldable pub rollback_each :
      TransactionProcessor → List SignedTransaction → TransactionProcessor
  unfolding rollback_transaction
  rollback_each p [] = p
  rollback_each p (tx ∷ txs) = rollback_each (rollback_transaction p tx) txs

  unfoldable pub rollback_transactions :
      TransactionProcessor → List SignedTransaction → TransactionProcessor
  unfolding rollback_each
  rollback_transactions p transactions = rollback_each p (reverse transactions)

unfoldable pub get_account : TransactionProcessor → String → Option Account
get_account p id = Dict.get p.accounts id
