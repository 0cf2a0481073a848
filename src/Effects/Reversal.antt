-- ===== src/Effects/Reversal.antt =====
-- The transactions of a block applied and rolled back: `apply_block_transactions` of
-- src/peer/effects.rs against `rollback_transactions` of src/transactions.rs.
use rustchain.Base.{
  ℕ, ◌+◌, ◌<◌, ◌^◌, ◌≡◌, refl, true, false, List, [], ◌∷◌, ◌++◌, reverse, String, arith, string_eq,
  Result-cases, Bool-cases, inl, inr,
}
use mathlib.Core.List.{reverse-cons}
use rustchain.Base.Sets
use rustchain.Data.{SignedTransaction}
use rustchain.Env.{Env}
use rustchain.Effects.{process_all}
use rustchain.Ledger.{
  TransactionProcessor, process_transaction, rollback_each, rollback_transactions,
  rollback_transaction, tx_id,
}
use rustchain.Ledger.Once.{process_transaction-marks}
use rustchain.Ledger.Supply.{supply, deposit, process_transaction-supply}
use rustchain.Ledger.Rollback.Balances.{Restores}
use rustchain.Ledger.Rollback.{Restores-refl, rollback_transaction-Restores}

-- What the transactions deposit in all.
abbrev pub deposits : List SignedTransaction → ℕ
deposits [] = 0
deposits (tx ∷ txs) = deposit tx.transaction.operation + deposits txs

module _ (env : Env) where
  -- No transaction has been applied before, and none stands twice in the block.
  abbrev pub AreNew : List String → List SignedTransaction → Type 0
  AreNew applied [] = Unit
  AreNew applied (tx ∷ txs) =
      (Sets.contains applied (tx_id env tx) ≡ false) × AreNew (tx_id env tx ∷ applied) txs

  rollback_each-append :
      (p : TransactionProcessor) (xs : List SignedTransaction) (tx : SignedTransaction)
      → rollback_each env p (xs ++ tx ∷ []) ≡ rollback_transaction env (rollback_each env p xs) tx
  unfolding rollback_each
  rollback_each-append p [] tx = refl
  rollback_each-append p (x ∷ xs) tx = rollback_each-append (rollback_transaction env p x) xs tx

  process_transaction-room :
      (p : TransactionProcessor) (tx : SignedTransaction) (txs : List SignedTransaction)
      → supply p.accounts + deposits (tx ∷ txs) < 2 ^ 32
      → supply (process_transaction env p tx).0.accounts + deposits txs < 2 ^ 32
  process_transaction-room p tx txs small =
      let moved = process_transaction-supply env p tx (omega arith) in
      elim (Result-cases (process_transaction env p tx).1) [
        | inl (_, done) ↦ elim (Bool-cases (Sets.contains p.applied_transactions (tx_id env tx))) [
          | inl again ↦ ground (arith, moved, done, again)
          | inr fresh ↦ ground (arith, moved, done, fresh)
        ]
        | inr (e, failed) ↦ ground (arith, moved, failed)
      ]

  AreNew-sub :
      (xs ys : List String) (txs : List SignedTransaction)
      → ((t : String) → Sets.contains xs t ≡ true → Sets.contains ys t ≡ true)
      → AreNew ys txs
      → AreNew xs txs
  unfolding Sets.contains
  AreNew-sub xs ys [] sub new = tt
  AreNew-sub xs ys (tx ∷ txs) sub (fresh, new) = (
    elim (Bool-cases (Sets.contains xs (tx_id env tx))) [
      | inl there ↦ absurd (ground (arith, sub (tx_id env tx) there, fresh))
      | inr absent ↦ absent
    ],
    AreNew-sub (tx_id env tx ∷ xs) (tx_id env tx ∷ ys) txs (λ t h. ground (arith, sub t, h)) new,
  )

  -- After the transactions of a block have been processed, the failing ones among them, a rollback
  -- of the block leaves every balance and every mark of an applied transaction as it was, if the
  -- transactions are new and distinct and the coins with all that the block deposits fit a u32.
  pub rollback_transactions-Restores :
      (p : TransactionProcessor) (txs : List SignedTransaction)
      → AreNew p.applied_transactions txs
      → supply p.accounts + deposits txs < 2 ^ 32
      → Restores p (rollback_transactions env (process_all env p txs) txs)
  unfolding rollback_transactions process_all rollback_each
  rollback_transactions-Restores p [] new small = Restores-refl p
  rollback_transactions-Restores p (tx ∷ txs) (fresh, new) small =
      let next = (process_transaction env p tx).0 in
      rw (reverse-cons tx txs, rollback_each-append (process_all env next txs) (reverse txs) tx)
        (rollback_transaction-Restores env p _ tx fresh (omega arith) (
          rollback_transactions-Restores next txs
            (AreNew-sub next.applied_transactions (tx_id env tx ∷ p.applied_transactions) txs
              (process_transaction-marks env p tx) new)
            (process_transaction-room p tx txs small)))
