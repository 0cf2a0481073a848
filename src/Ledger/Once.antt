-- ===== src/Ledger/Once.antt =====
-- Failure and repetition in `process_transaction` of src/transactions.rs.
use rustchain.Base.{
  ◌≡◌, refl, ap, ◌∷◌, ◌⊎◌, false, true, false, err, ok, Bool-cases, Result-cases, inl, inr, String,
  string_eq, eq_self, arith,
}
use rustchain.Base.Sets
use rustchain.Data.{
  AssetType, Operation, add_coin, send, SignedTransaction, TransactionValidationError,
}
use rustchain.Env.{Env}
use rustchain.Ledger.{
  TransactionProcessor, Processed, credit, send_coins, check_send, set_balance, apply_operation,
  note_applied, process_transaction, tx_id, account_id,
}
use rustchain.Ledger.Supply.{credit-ok}

credit-err :
    (p : TransactionProcessor) (id : String) (asset_type : AssetType) (amount : _)
    {e : TransactionValidationError}
    → (credit p id asset_type amount).1 ≡ err e
    → (credit p id asset_type amount).0 ≡ p
unfolding credit
credit-err p id asset_type amount h = ground arith

send_coins-err :
    (p : TransactionProcessor) (id to : String) (asset_type : AssetType) (amount : _)
    {e : TransactionValidationError}
    → (send_coins p id to asset_type amount).1 ≡ err e
    → (send_coins p id to asset_type amount).0 ≡ p
unfolding send_coins
send_coins-err p id to asset_type amount h =
    elim (Result-cases (check_send p id to asset_type amount)) [
      | inr (e, refused) ↦ rw (refused, send_coins) refl
      | inl (sender, allowed) ↦
          ground (arith, allowed, credit-ok p id to asset_type amount sender allowed)
    ]

apply_operation-err :
    (p : TransactionProcessor) (id : String) (operation : Operation)
    {e : TransactionValidationError}
    → (apply_operation p id operation).1 ≡ err e
    → (apply_operation p id operation).0 ≡ p
unfolding apply_operation
apply_operation-err p id (add_coin amount asset_type) h = credit-err p id asset_type amount h
apply_operation-err p id (send recipient amount asset_type) h =
    send_coins-err p id recipient asset_type amount h

-- The state that a successful first call leaves.
abbrev pub applied : Env → TransactionProcessor → SignedTransaction → TransactionProcessor
applied env p tx =
    let moved = (apply_operation p (account_id env tx) tx.transaction.operation).0 in
    record moved { applied_transactions = Sets.insert (tx_id env tx) moved.applied_transactions }

module _ (env : Env) (p : TransactionProcessor) (tx : SignedTransaction) where
  pub process_transaction-again :
      Sets.contains p.applied_transactions (tx_id env tx) ≡ true
      → process_transaction env p tx ≡ (p, ok tt)
  unfolding process_transaction
  process_transaction-again h = ground (arith, h)

  pub process_transaction-cases :
      Sets.contains p.applied_transactions (tx_id env tx) ≡ false
      → ((e : TransactionValidationError) × (process_transaction env p tx ≡ (p, err e)))
        ⊎ (((apply_operation p (account_id env tx) tx.transaction.operation).1 ≡ ok tt)
            × (process_transaction env p tx ≡ (applied env p tx, ok tt)))
  unfolding process_transaction note_applied
  process_transaction-cases fresh =
      let operation = tx.transaction.operation in
      elim (Result-cases (apply_operation p (account_id env tx) operation).1) [
        | inr (e, failed) ↦
            let same = apply_operation-err p (account_id env tx) operation failed in
            inl (e, ground (arith, failed, same, fresh))
        | inl (_, done) ↦ inr (done, ground (arith, done, fresh))
      ]

  -- A transaction that is refused changes nothing, also where the sender is charged before the
  -- recipient is credited.
  pub process_transaction-err :
      {e : TransactionValidationError}
      → (process_transaction env p tx).1 ≡ err e
      → (process_transaction env p tx).0 ≡ p
  process_transaction-err {e} h =
      elim (Bool-cases (Sets.contains p.applied_transactions (tx_id env tx))) [
        | inl again ↦ ap (λ (r : Processed). r.0) (process_transaction-again again)
        | inr fresh ↦ elim (process_transaction-cases fresh) [
          | inl (_, same) ↦ ap (λ (r : Processed). r.0) same
          | inr (_, done) ↦ ground (arith, done, h)
        ]
      ]

-- Processing a transaction again gives the same result and changes nothing.
pub process_transaction_twice :
    (env : Env) (p : TransactionProcessor) (tx : SignedTransaction)
    → process_transaction env (process_transaction env p tx).0 tx ≡ process_transaction env p tx
process_transaction_twice env p tx =
    elim (Bool-cases (Sets.contains p.applied_transactions (tx_id env tx))) [
      | inl again ↦
          rw (process_transaction-again env p tx again) (process_transaction-again env p tx again)
      | inr fresh ↦ elim (process_transaction-cases env p tx fresh) [
        | inl (_, same) ↦ rw same same
        | inr (_, done) ↦ rw done (
            process_transaction-again env (applied env p tx) tx (
              ground (
                arith,
                Sets.contains-insert
                    (apply_operation p (account_id env tx)
                      tx.transaction.operation).0.applied_transactions
                    (tx_id env tx) (tx_id env tx),
                eq_self (tx_id env tx),
              )))
      ]
    ]

pub apply_operation-applied :
    (p : TransactionProcessor) (id : String) (operation : Operation)
    → (apply_operation p id operation).0.applied_transactions ≡ p.applied_transactions
unfolding apply_operation send_coins credit set_balance
apply_operation-applied p id (add_coin amount asset_type) = ground arith
apply_operation-applied p id (send recipient amount asset_type) = ground arith

-- Only the transaction's own id may be new among the applied ones.
pub process_transaction-marks :
    (env : Env) (p : TransactionProcessor) (tx : SignedTransaction) (t : String)
    → Sets.contains (process_transaction env p tx).0.applied_transactions t ≡ true
    → Sets.contains (tx_id env tx ∷ p.applied_transactions) t ≡ true
unfolding Sets.contains
process_transaction-marks env p tx t h =
    elim (Bool-cases (Sets.contains p.applied_transactions (tx_id env tx))) [
      | inl again ↦
          let same = ap (λ (r : Processed). r.0) (process_transaction-again env p tx again) in
          ground (arith, same, h)
      | inr fresh ↦ elim (process_transaction-cases env p tx fresh) [
        | inl (_, same) ↦ ground (arith, ap (λ (r : Processed). r.0) same, h)
        | inr (_, done) ↦
            let marked =
              (apply_operation p (account_id env tx)
                tx.transaction.operation).0.applied_transactions in
            let now = ap (λ (r : Processed). Sets.contains r.0.applied_transactions t) done in
            ground (
              arith,
              now,
              h,
              Sets.contains-insert marked (tx_id env tx) t,
              apply_operation-applied p (account_id env tx) tx.transaction.operation,
            )
      ]
    ]
