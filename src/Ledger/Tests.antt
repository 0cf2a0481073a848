-- ===== src/Ledger/Tests.antt =====
-- A deposit and a transfer: runs of src/transactions.rs.
use rustchain.Base.{ℕ, ◌≡◌, refl, List, [], ◌∷◌, arith, string_eq}
use rustchain.Base.Dict
use rustchain.Base.Sets
use rustchain.Data.{btc, Operation, add_coin, send, SignedTransaction}
use rustchain.Effects.{process_all}
use rustchain.Effects.Reversal.{rollback_transactions-Restores}
use rustchain.Env.Samples.{sample}
use rustchain.Ledger.{
  TransactionProcessor, new_processor, process_transaction, rollback_transactions, tx_id,
}
use rustchain.Ledger.Once.{process_transaction-err, process_transaction_twice}
use rustchain.Ledger.Rollback.Balances.{Restores}
use rustchain.Ledger.Supply.{supply, process_transaction-supply}

abbrev signed : Operation → List ℕ → SignedTransaction
signed operation signature = record {
  transaction = record {
    operation = operation;
    metadata = record { timestamp_nanos = 0; sequence_number = 1 };
  };
  signature = signature;
  public_key = 7 ∷ [];
}

abbrev deposit_ten : SignedTransaction
deposit_ten = signed (add_coin 10 btc) (1 ∷ [])

abbrev send_four : SignedTransaction
send_four = signed (send "other" 4 btc) (1 ∷ 2 ∷ [])

abbrev rich : TransactionProcessor
rich = (process_transaction sample new_processor deposit_ten).0

sent :
    (process_transaction sample rich send_four).0.accounts
    ≡ ("one", record { asset_type = btc; balance = 6 })
      ∷ ("other", record { asset_type = btc; balance = 4 })
      ∷ []
unfolding process_transaction Dict.get Dict.insert Sets.contains Sets.insert
sent = refl

process_transaction-supply_example :
    supply (process_transaction sample rich send_four).0.accounts ≡ 10
unfolding process_transaction Dict.get Dict.insert Sets.contains Sets.insert supply
process_transaction-supply_example = process_transaction-supply sample rich send_four (omega arith)

process_transaction-err_example :
    (process_transaction sample new_processor send_four).0 ≡ new_processor
unfolding process_transaction Dict.get Sets.contains
process_transaction-err_example = process_transaction-err sample new_processor send_four refl

process_transaction_twice_example :
    process_transaction sample (process_transaction sample rich send_four).0 send_four
    ≡ process_transaction sample rich send_four
process_transaction_twice_example = process_transaction_twice sample rich send_four

-- A block of both.
abbrev block : List SignedTransaction
block = deposit_ten ∷ send_four ∷ []

rollback_transactions-Restores_example :
    Restores new_processor
      (rollback_transactions sample (process_all sample new_processor block) block)
unfolding Sets.contains supply tx_id
rollback_transactions-Restores_example =
    rollback_transactions-Restores sample new_processor block (refl, (refl, tt)) (omega arith)
