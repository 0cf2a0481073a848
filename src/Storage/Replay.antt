-- ===== src/Storage/Replay.antt =====
-- `read_state` of src/transactions.rs: the ledger from the blocks on disk. An error ends the loops
-- and leaves what has been processed.
use rustchain.Base.{List, [], ◌∷◌, Result, ok, err}
use rustchain.Data.{SignedTransaction, FileName, Error, bad_transaction}
use rustchain.Env.{Env}
use rustchain.Ledger.{TransactionProcessor, process_transaction}
use rustchain.Storage.{BlockKeeper, list_all_blocks, read_transactions_from_disk}

-- the state with the result
abbrev pub Replayed : Type 0
Replayed = TransactionProcessor × Result Error (Unit {0})

module _ (env : Env) where
  unfoldable pub replay_block : TransactionProcessor → List SignedTransaction → Replayed
  replay_block p [] = (p, ok tt)
  replay_block p (tx ∷ txs) =
      let rest = replay_block (process_transaction env p tx).0 txs in
      elim (process_transaction env p tx).1 [
        | err e ↦ ((process_transaction env p tx).0, err (bad_transaction e))
        | ok _ ↦ rest
      ]

  unfoldable pub replay_blocks : BlockKeeper → TransactionProcessor → List FileName → Replayed
  unfolding replay_block
  replay_blocks k p [] = (p, ok tt)
  replay_blocks k p (name ∷ names) = elim (read_transactions_from_disk env k name) [
    | err e ↦ (p, err e)
    | ok transactions ↦
        let rest = replay_blocks k (replay_block p transactions).0 names in
        elim (replay_block p transactions).1 [
          | err e ↦ ((replay_block p transactions).0, err e)
          | ok _ ↦ rest
        ]
  ]

  unfoldable pub read_state : TransactionProcessor → BlockKeeper → Replayed
  unfolding replay_blocks
  read_state p k = replay_blocks k p (list_all_blocks env k.disk)
