-- ===== src/Ledger/Rollback.antt =====
-- `rollback_transaction` of src/transactions.rs against `process_transaction`.
pub mod Balances
pub mod Reversed
use rustchain.Base.{
  ℕ, ◌+◌, ◌-◌, ◌<◌, ◌^◌, ◌≡◌, refl, ◌∙◌, ap, Bool, true, false, ◌&&◌, ◌||◌, some, String, ok,
  if◌then◌else◌, ◌==◌, string_eq, add_u32, arith, eq_self, Bool-cases, Option-cases, Result-cases,
  inl, inr,
}
use rustchain.Base.Dict
use rustchain.Base.Sets
use rustchain.Data.{AssetType, Operation, add_coin, send, SignedTransaction}
use rustchain.Env.{Env}
use rustchain.Ledger.{
  Account, TransactionProcessor, set_balance, credit, check_send, send_coins, change_balance,
  reverse_add_coin, reverse_send_coins, apply_operation, reverse_operation, process_transaction,
  rollback_transaction, tx_id, account_id,
}
use rustchain.Ledger.Once.{apply_operation-applied, applied, process_transaction-cases}
use rustchain.Ledger.Supply.{
  balance_of, supply, deposit, supply-insert, balance_le_supply, credit-ok, check_send-get,
}
use rustchain.Ledger.Rollback.Balances.{
  balance, held, Restores, set_balance-balance, set_balance-held, credit-balance, credit-held,
  change_balance-balance, change_balance-held, change_balance-applied,
}
use rustchain.Ledger.Rollback.Reversed.{Covers, reverse_add_coin-Covers, reverse_send_coins-Covers}

reverse_operation-Covers :
    (p q : TransactionProcessor) (id : String) (operation : Operation)
    → supply p.accounts + deposit operation < 2 ^ 32
    → (apply_operation p id operation).1 ≡ ok tt
    → Covers (apply_operation p id operation).0 q
    → Covers p (reverse_operation q id operation)
unfolding reverse_operation apply_operation
reverse_operation-Covers p q id (add_coin amount asset_type) small done covers =
    reverse_add_coin-Covers p q id asset_type amount
      (omega (arith, balance_le_supply p.accounts id)) done covers
reverse_operation-Covers p q id (send recipient amount asset_type) small done covers =
    reverse_send_coins-Covers p q id recipient asset_type amount (omega arith) done covers

reverse_operation-applied :
    (p : TransactionProcessor) (id : String) (operation : Operation)
    → (reverse_operation p id operation).applied_transactions ≡ p.applied_transactions
unfolding reverse_operation reverse_add_coin reverse_send_coins
reverse_operation-applied p id (add_coin amount asset_type) =
    change_balance-applied p id (λ b. b - amount)
reverse_operation-applied p id (send recipient amount asset_type) =
    change_balance-applied (change_balance p recipient (λ b. b - amount)) id (λ b. add_u32 b amount)
    ∙ change_balance-applied p recipient (λ b. b - amount)

pub Restores-refl : (p : TransactionProcessor) → Restores p p
Restores-refl p = record { balances = λ id. refl; accounts = λ id h. h; transactions = λ id. refl }

-- A rollback undoes the processing of a transaction that had not been applied, from any state that
-- has come back to the one after it, if the supply with the deposit fits a u32.
pub rollback_transaction-Restores :
    (env : Env) (p q : TransactionProcessor) (tx : SignedTransaction)
    → Sets.contains p.applied_transactions (tx_id env tx) ≡ false
    → supply p.accounts + deposit tx.transaction.operation < 2 ^ 32
    → Restores (process_transaction env p tx).0 q
    → Restores p (rollback_transaction env q tx)
unfolding rollback_transaction
rollback_transaction-Restores env p q tx fresh small back =
    let id = account_id env tx in
    let operation = tx.transaction.operation in
    let marked = (apply_operation p id operation).0.applied_transactions in
    elim (process_transaction-cases env p tx fresh) [
      | inl (e, refused) ↦
          let back' : Restores p q = rw refused at back in
          rw (back'.transactions (tx_id env tx) ∙ fresh) back'
      | inr (done, e) ↦
          let back' : Restores (applied env p tx) q = rw e at back in
          let same_marks : marked ≡ p.applied_transactions =
            apply_operation-applied p id operation in
          let marks : (t : String)
              → Sets.contains q.applied_transactions t
                ≡ (tx_id env tx == t || Sets.contains p.applied_transactions t) =
            λ t.
              back'.transactions t
              ∙ Sets.contains-insert marked (tx_id env tx) t
              ∙ rw same_marks refl in
          let noted : Sets.contains q.applied_transactions (tx_id env tx) ≡ true =
            ground (arith, marks (tx_id env tx), eq_self (tx_id env tx)) in
          let bare = record q {
            applied_transactions = Sets.remove (tx_id env tx) q.applied_transactions;
          } in
          let covers =
            reverse_operation-Covers p bare id operation small done
              (back'.balances, back'.accounts) in
          rw (noted, rollback_transaction)
            (record {
              balances = covers.0;
              accounts = covers.1;
              transactions = λ t.
                  ap (λ ts. Sets.contains ts t) (reverse_operation-applied bare id operation)
                  ∙ Sets.contains-remove q.applied_transactions (tx_id env tx) t
                  ∙ ground (arith, marks t, fresh, string_eq.same_iff (tx_id env tx) t);
            })
    ]
