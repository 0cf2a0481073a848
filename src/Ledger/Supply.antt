-- ===== src/Ledger/Supply.antt =====
-- The coins in all accounts of src/transactions.rs.
use rustchain.Base.{
  ℕ, ◌+◌, ◌-◌, ◌≤◌, ◌<◌, ◌^◌, ◌≡◌, refl, ◌∙◌, ap, Option, none, some, [], ◌∷◌, String, ok, err,
  if◌then◌else◌, string_eq, add_u32, arith, Bool-cases, Option-cases, Result-cases, inl, inr,
}
use rustchain.Base.Dict
use rustchain.Base.Dict.{Dict, dict_laws}
use rustchain.Base.Sets
use rustchain.Data.{AssetType, Operation, add_coin, send, SignedTransaction}
use rustchain.Env.{Env}
use rustchain.Ledger.{
  same_asset, Account, TransactionProcessor, set_balance, credit, check_send, send_coins,
  apply_operation, note_applied, process_transaction, tx_id, account_id,
}

abbrev pub balance_of : Option Account → ℕ
balance_of none = 0
balance_of (some account) = account.balance

unfoldable pub supply : Dict String Account → ℕ
supply [] = 0
supply ((id, account) ∷ accounts) = account.balance + supply accounts

pub supply-insert :
    (m : Dict String Account) (id : String) (account : Account)
    → supply (Dict.insert id account m) + balance_of (Dict.get m id) ≡ supply m + account.balance
unfolding supply Dict.insert Dict.get
supply-insert [] id account = omega arith
supply-insert ((j, other) ∷ m) id account = ground (arith, supply-insert m id account)

pub balance_le_supply :
    (m : Dict String Account) (id : String) → balance_of (Dict.get m id) ≤ supply m
unfolding supply Dict.get
balance_le_supply [] id = omega arith
balance_le_supply ((j, other) ∷ m) id = ground (arith, balance_le_supply m id)

credit-supply :
    (p : TransactionProcessor) (id : String) (asset_type : AssetType) (amount : ℕ)
    → supply p.accounts + amount < 2 ^ 32
    → supply (credit p id asset_type amount).0.accounts ≡ (elim (credit p id asset_type amount).1 [
      | ok _ ↦ supply p.accounts + amount
      | err e ↦ supply p.accounts
    ])
unfolding credit set_balance
credit-supply p id asset_type amount small = elim (Option-cases (Dict.get p.accounts id)) [
  | inl none_ ↦
      rw (none_, credit)
        (omega (
          arith,
          supply-insert p.accounts id (record { asset_type = asset_type; balance = amount }),
          ap balance_of none_,
        ))
  | inr (account, e) ↦
      rw (e, credit)
        (elim (Bool-cases (same_asset account.asset_type asset_type)) [
          | inr other ↦ rw (other, credit) refl
          | inl same ↦
              rw (same, credit, set_balance)
                (omega (
                  arith,
                  supply-insert p.accounts id
                      (record account { balance = add_u32 account.balance amount }),
                  ap balance_of e,
                  balance_le_supply p.accounts id,
                ))
        ])
]

-- After the checks of a transfer the credit cannot fail.
pub credit-ok :
    (p : TransactionProcessor) (id to : String) (asset_type : AssetType) (amount : ℕ)
    (sender : Account)
    → check_send p id to asset_type amount ≡ ok sender
    → (credit (set_balance p id sender (sender.balance - amount)) to asset_type amount).1 ≡ ok tt
unfolding check_send credit set_balance
credit-ok p id to asset_type amount sender h = ground (
  arith,
  Dict.get-insert p.accounts id to (record sender { balance = sender.balance - amount }),
  string_eq.same_iff id to,
)

pub check_send-get :
    (p : TransactionProcessor) (id to : String) (asset_type : AssetType) (amount : ℕ)
    (sender : Account)
    → check_send p id to asset_type amount ≡ ok sender
    → (Dict.get p.accounts id ≡ some sender) × (amount ≤ sender.balance)
unfolding check_send
check_send-get p id to asset_type amount sender h = (ground arith, ground arith)

send_coins-supply :
    (p : TransactionProcessor) (id to : String) (asset_type : AssetType) (amount : ℕ)
    → supply p.accounts < 2 ^ 32
    → supply (send_coins p id to asset_type amount).0.accounts ≡ supply p.accounts
unfolding send_coins
send_coins-supply p id to asset_type amount small =
    elim (Result-cases (check_send p id to asset_type amount)) [
      | inr (e, refused) ↦ rw (refused, send_coins) refl
      | inl (sender, allowed) ↦
          let paid = set_balance p id sender (sender.balance - amount) in
          let (at, enough) = check_send-get p id to asset_type amount sender allowed in
          let less : supply paid.accounts + amount ≡ supply p.accounts =
            unfold set_balance in
            omega (
              arith,
              ap balance_of at,
              enough,
              supply-insert p.accounts id (record sender { balance = sender.balance - amount }),
            ) in
          rw (allowed, send_coins)
            (credit-supply paid to asset_type amount (omega arith)
              ∙ rw (credit-ok p id to asset_type amount sender allowed) less)
    ]

-- What an operation adds to the supply if it succeeds.
abbrev pub deposit : Operation → ℕ
deposit (add_coin amount asset_type) = amount
deposit (send recipient amount asset_type) = 0

apply_operation-supply :
    (p : TransactionProcessor) (id : String) (operation : Operation)
    → supply p.accounts + deposit operation < 2 ^ 32
    → supply (apply_operation p id operation).0.accounts
      ≡ (elim (apply_operation p id operation).1 [
        | ok _ ↦ supply p.accounts + deposit operation
        | err e ↦ supply p.accounts
      ])
unfolding apply_operation
apply_operation-supply p id (add_coin amount asset_type) small =
    credit-supply p id asset_type amount small
apply_operation-supply p id (send recipient amount asset_type) small =
    elim (Result-cases (send_coins p id recipient asset_type amount).1) [
      | inr (e, failed) ↦
          rw failed (send_coins-supply p id recipient asset_type amount (omega arith))
      | inl (_, done) ↦
          rw done (omega (arith, send_coins-supply p id recipient asset_type amount (omega arith)))
    ]

-- A transaction that succeeds for the first time adds what it deposits to the sum of all balances,
-- a transfer adds nothing, and any other call leaves the sum as it was, while the sum with the
-- deposit fits a u32.
pub process_transaction-supply :
    (env : Env) (p : TransactionProcessor) (tx : SignedTransaction)
    → supply p.accounts + deposit tx.transaction.operation < 2 ^ 32
    → supply (process_transaction env p tx).0.accounts ≡ (elim (process_transaction env p tx).1 [
      | ok _ ↦
          if Sets.contains p.applied_transactions (tx_id env tx)
          then supply p.accounts
          else supply p.accounts + deposit tx.transaction.operation
      | err e ↦ supply p.accounts
    ])
unfolding process_transaction note_applied
process_transaction-supply env p tx small =
    elim (Bool-cases (Sets.contains p.applied_transactions (tx_id env tx))) [
      | inl again ↦ ground (arith, again)
      | inr fresh ↦
          let operation = tx.transaction.operation in
          let moved = apply_operation-supply p (account_id env tx) operation small in
          elim (Result-cases (apply_operation p (account_id env tx) operation).1) [
            | inr (e, failed) ↦ ground (arith, moved, failed, fresh)
            | inl (_, done) ↦ ground (arith, moved, done, fresh)
          ]
    ]
