-- ===== src/Ledger/Rollback/Balances.antt =====
-- Balances and accounts after the steps of src/transactions.rs.
use rustchain.Base.{
  ℕ, ◌+◌, ◌<◌, ◌^◌, ◌≡◌, Bool, true, ◌&&◌, String, ok, if◌then◌else◌, ◌==◌, string_eq, add_u32,
  arith, Option-cases, inl, inr,
}
use rustchain.Base.Dict
use rustchain.Base.Sets
use rustchain.Data.{AssetType}
use rustchain.Ledger.{Account, TransactionProcessor, set_balance, credit, change_balance}
use rustchain.Ledger.Supply.{balance_of}

-- The balance of an account, and 0 without one.
abbrev pub balance : TransactionProcessor → String → ℕ
balance p id = balance_of (Dict.get p.accounts id)

abbrev pub held : TransactionProcessor → String → Bool
held p id = Dict.contains_key p.accounts id

-- The second state has the balances of the first and takes the same transactions for applied; it
-- may have further accounts, which are empty.
pub record Restores (p q : TransactionProcessor) : Type 0 where
  pub balances : (id : String) → balance q id ≡ balance p id
  pub accounts : (id : String) → held p id ≡ true → held q id ≡ true
  pub transactions :
      (id : String)
      → Sets.contains q.applied_transactions id ≡ Sets.contains p.applied_transactions id

pub set_balance-balance :
    (p : TransactionProcessor) (id : String) (account : Account) (b : ℕ) (j : String)
    → balance (set_balance p id account b) j ≡ (if id == j then b else balance p j)
unfolding set_balance
set_balance-balance p id account b j =
    ground (arith, Dict.get-insert p.accounts id j (record account { balance = b }))

pub set_balance-held :
    (p : TransactionProcessor) (id : String) (account : Account) (b : ℕ) (j : String)
    → held (set_balance p id account b) j ≡ (if id == j then true else held p j)
unfolding set_balance
set_balance-held p id account b j =
    ground (arith, Dict.get-insert p.accounts id j (record account { balance = b }))

pub credit-balance :
    (p : TransactionProcessor) (id : String) (asset_type : AssetType) (amount : ℕ) (j : String)
    → balance p id + amount < 2 ^ 32
    → (credit p id asset_type amount).1 ≡ ok tt
    → balance (credit p id asset_type amount).0 j
      ≡ (if id == j then balance p id + amount else balance p j)
unfolding credit
credit-balance p id asset_type amount j small done = elim (Option-cases (Dict.get p.accounts id)) [
  | inl absent ↦ ground (
    arith,
    absent,
    Dict.get-insert p.accounts id j (record { asset_type = asset_type; balance = amount }),
  )
  | inr (account, e) ↦
      ground (arith, e, set_balance-balance p id account (add_u32 account.balance amount) j)
]

pub credit-held :
    (p : TransactionProcessor) (id : String) (asset_type : AssetType) (amount : ℕ) (j : String)
    → held p j ≡ true
    → held (credit p id asset_type amount).0 j ≡ true
unfolding credit
credit-held p id asset_type amount j there = elim (Option-cases (Dict.get p.accounts id)) [
  | inl absent ↦ ground (
    arith,
    absent,
    Dict.get-insert p.accounts id j (record { asset_type = asset_type; balance = amount }),
  )
  | inr (account, e) ↦
      ground (arith, e, set_balance-held p id account (add_u32 account.balance amount) j)
]

pub change_balance-balance :
    (p : TransactionProcessor) (id : String) (f : ℕ → ℕ) (j : String)
    → balance (change_balance p id f) j
      ≡ (if id == j && held p id then f (balance p id) else balance p j)
unfolding change_balance
change_balance-balance p id f j = elim (Option-cases (Dict.get p.accounts id)) [
  | inl absent ↦ ground (arith, absent)
  | inr (account, e) ↦ ground (arith, e, set_balance-balance p id account (f account.balance) j)
]

pub change_balance-held :
    (p : TransactionProcessor) (id : String) (f : ℕ → ℕ) (j : String)
    → held (change_balance p id f) j ≡ held p j
unfolding change_balance
change_balance-held p id f j = elim (Option-cases (Dict.get p.accounts id)) [
  | inl absent ↦ ground (arith, absent)
  | inr (account, e) ↦
      ground
        (arith, e, set_balance-held p id account (f account.balance) j, string_eq.same_iff id j)
]

pub change_balance-applied :
    (p : TransactionProcessor) (id : String) (f : ℕ → ℕ)
    → (change_balance p id f).applied_transactions ≡ p.applied_transactions
unfolding change_balance set_balance
change_balance-applied p id f = ground arith
