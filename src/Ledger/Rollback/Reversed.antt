-- ===== src/Ledger/Rollback/Reversed.antt =====
-- What a reversed operation of src/transactions.rs leaves of the balances.
use rustchain.Base.{
  ℕ, ◌+◌, ◌-◌, ◌<◌, ◌^◌, ◌≡◌, ◌∙◌, ap, true, false, some, String, ok, if◌then◌else◌, ◌==◌,
  string_eq, add_u32, arith, eq_self, Bool-cases, Option-cases, Result-cases, inl, inr,
}
use rustchain.Base.Dict
use rustchain.Data.{AssetType}
use rustchain.Ledger.{
  Account, TransactionProcessor, set_balance, credit, check_send, send_coins, change_balance,
  reverse_add_coin, reverse_send_coins,
}
use rustchain.Ledger.Supply.{
  balance_of, supply, supply-insert, balance_le_supply, credit-ok, check_send-get,
}
use rustchain.Ledger.Rollback.Balances.{
  balance, held, set_balance-balance, set_balance-held, credit-balance, credit-held,
  change_balance-balance, change_balance-held,
}

abbrev pub Covers : TransactionProcessor → TransactionProcessor → Type 0
Covers p q =
    ((id : String) → balance q id ≡ balance p id)
    × ((id : String) → held p id ≡ true → held q id ≡ true)

pub reverse_add_coin-Covers :
    (p q : TransactionProcessor) (id : String) (asset_type : AssetType) (amount : ℕ)
    → balance p id + amount < 2 ^ 32
    → (credit p id asset_type amount).1 ≡ ok tt
    → Covers (credit p id asset_type amount).0 q
    → Covers p (reverse_add_coin q id amount)
unfolding reverse_add_coin
reverse_add_coin-Covers p q id asset_type amount small done (same, there) = (
  λ j. grind (
    arith,
    change_balance-balance q id (λ b. b - amount) j,
    same j,
    same id,
    credit-balance p id asset_type amount j small done,
    credit-balance p id asset_type amount id small done,
    eq_self id,
    string_eq.same_iff id j,
  ),
  λ j h.
      change_balance-held q id (λ b. b - amount) j
      ∙ there j (credit-held p id asset_type amount j h),
)

balance_at :
    (p : TransactionProcessor) (id : String) {account : Account}
    → Dict.get p.accounts id ≡ some account
    → (balance p id ≡ account.balance) × (held p id ≡ true)
balance_at p id e = (ap balance_of e, ground (arith, e))

balance_absent : (p : TransactionProcessor) (id : String) → held p id ≡ false → balance p id ≡ 0
balance_absent p id h = elim (Option-cases (Dict.get p.accounts id)) [
  | inl absent ↦ ap balance_of absent
  | inr (account, e) ↦ absurd (ground (arith, e, h))
]

-- What a credit has added is taken back.
take_back :
    (p q : TransactionProcessor) (to : String) (amount : ℕ)
    → ((j : String) → balance q j ≡ (if to == j then balance p to + amount else balance p j))
    → (j : String) → balance (change_balance q to (λ b. b - amount)) j ≡ balance p j
take_back p q to amount at j =
    change_balance-balance q to (λ b. b - amount) j ∙ elim (Bool-cases (to == j)) [
      | inr other ↦ ground (arith, other, at j)
      | inl here ↦ elim (Bool-cases (held q to)) [
        | inl there ↦
            grind (arith, here, there, at to, eq_self to, (string_eq.same_iff to j).0 here)
        | inr absent ↦ grind (
          arith,
          here,
          absent,
          at j,
          balance_absent q to absent,
          (string_eq.same_iff to j).0 here,
        )
      ]
    ]

-- A transfer that is allowed, from the paid state on.
module _ (p q : TransactionProcessor) (id to : String) (asset_type : AssetType) (amount : ℕ)
    (sender : Account) (allowed : check_send p id to asset_type amount ≡ ok sender)
    (small : supply p.accounts < 2 ^ 32) where
  paid : TransactionProcessor
  paid = set_balance p id sender (sender.balance - amount)

  paid-room : balance paid to + amount < 2 ^ 32
  unfolding paid set_balance
  paid-room =
      let (at, enough) = check_send-get p id to asset_type amount sender allowed in
      omega (
        arith,
        ap balance_of at,
        enough,
        balance_le_supply paid.accounts to,
        supply-insert p.accounts id (record sender { balance = sender.balance - amount }),
      )

  reverse_paid-Covers :
      Covers (credit paid to asset_type amount).0 q → Covers p (reverse_send_coins q id to amount)
  unfolding reverse_send_coins paid
  reverse_paid-Covers (same, there) =
      let (at, enough) = check_send-get p id to asset_type amount sender allowed in
      let done = credit-ok p id to asset_type amount sender allowed in
      let after = (credit paid to asset_type amount).0 in
      let first = change_balance q to (λ b. b - amount) in
      let paid_held : (j : String) → held p j ≡ true → held paid j ≡ true =
        λ j h. ground (arith, set_balance-held p id sender (sender.balance - amount) j) in
      let q_held : (j : String) → held p j ≡ true → held q j ≡ true =
        λ j h. there j (credit-held paid to asset_type amount j (paid_held j h)) in
      let first_held =
        change_balance-held q to (λ b. b - amount) id ∙ q_held id (balance_at p id at).1 in
      let q_at : (j : String)
          → balance q j ≡ (if to == j then balance paid to + amount else balance paid j) =
        λ j. same j ∙ credit-balance paid to asset_type amount j paid-room done in
      let paid_at = set_balance-balance p id sender (sender.balance - amount) in
      (
        λ j.
            change_balance-balance first id (λ b. add_u32 b amount) j
            ∙ grind (
              arith,
              first_held,
              take_back paid q to amount q_at j,
              take_back paid q to amount q_at id,
              paid_at j,
              paid_at id,
              eq_self id,
              string_eq.same_iff id j,
              balance_at p id at,
              enough,
              balance_le_supply p.accounts id,
            ),
        λ j h.
            change_balance-held first id (λ b. add_u32 b amount) j
            ∙ change_balance-held q to (λ b. b - amount) j
            ∙ q_held j h,
      )

pub reverse_send_coins-Covers :
    (p q : TransactionProcessor) (id to : String) (asset_type : AssetType) (amount : ℕ)
    → supply p.accounts < 2 ^ 32
    → (send_coins p id to asset_type amount).1 ≡ ok tt
    → Covers (send_coins p id to asset_type amount).0 q
    → Covers p (reverse_send_coins q id to amount)
unfolding send_coins paid
reverse_send_coins-Covers p q id to asset_type amount small done covers =
    elim (Result-cases (check_send p id to asset_type amount)) [
      | inr (e, refused) ↦ absurd (ground (arith, refused, done))
      | inl (sender, allowed) ↦
          reverse_paid-Covers p q id to asset_type amount sender allowed small
            (rw (allowed, send_coins) at covers)
    ]
