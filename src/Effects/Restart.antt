-- ===== src/Effects/Restart.antt =====
-- The ledger that `read_state` of src/transactions.rs builds from the disk, against the one that a
-- peer has after it has applied the same blocks (src/peer/effects.rs).
use rustchain.Base.{
  ◌≡◌, refl, sym, ◌∙◌, List, [], ◌∷◌, ◌++◌, Result, ok, ◌>>=◌, arith, Result-cases, inl, inr,
}
use rustchain.Data.{SignedTransaction, FileName, Error}
use rustchain.Effects.{process_all}
use rustchain.Env.{Env}
use rustchain.Ledger.{TransactionProcessor, process_transaction}
use rustchain.Storage.{BlockKeeper, list_all_blocks, read_transactions_from_disk}
use rustchain.Storage.Replay.{replay_block, replay_blocks, read_state}

module _ (env : Env) where
  process_all-append :
      (p : TransactionProcessor) (xs ys : List SignedTransaction)
      → process_all env p (xs ++ ys) ≡ process_all env (process_all env p xs) ys
  unfolding process_all
  process_all-append p [] ys = refl
  process_all-append p (x ∷ xs) ys = process_all-append (process_transaction env p x).0 xs ys

  replay_block-process_all :
      (txs : List SignedTransaction) (p : TransactionProcessor)
      → (replay_block env p txs).1 ≡ ok tt
      → (replay_block env p txs).0 ≡ process_all env p txs
  unfolding replay_block process_all
  replay_block-process_all [] p h = refl
  replay_block-process_all (tx ∷ txs) p h = elim (Result-cases (process_transaction env p tx).1) [
    | inr (e, failed) ↦ absurd (ground (arith, failed, h))
    | inl (_, done) ↦
        rw (done, replay_block)
          (replay_block-process_all txs (process_transaction env p tx).0
            (rw (done, replay_block) at h))
  ]

  module _ (k : BlockKeeper) where
    -- The transactions of the files, one file after the other.
    abbrev pub chain_transactions : List FileName → Result Error (List SignedTransaction)
    chain_transactions [] = ok []
    chain_transactions (name ∷ names) = do
      transactions ← read_transactions_from_disk env k name
      rest ← chain_transactions names
      ok (transactions ++ rest)

    Replays : TransactionProcessor → List FileName → Type 0
    Replays p names =
        (txs : List SignedTransaction) × (chain_transactions names ≡ ok txs)
        × ((replay_blocks env k p names).0 ≡ process_all env p txs)

    replay_blocks-Replays :
        (names : List FileName) (p : TransactionProcessor)
        → (replay_blocks env k p names).1 ≡ ok tt
        → Replays p names
    unfolding replay_blocks Replays
    replay_blocks-Replays [] p h = ([], refl, unfold process_all in refl)
    replay_blocks-Replays (name ∷ names) p h =
        elim (Result-cases (read_transactions_from_disk env k name)) [
          | inr (e, unread) ↦ absurd (ground (arith, unread, h))
          | inl (txs, read) ↦
              let next = (replay_block env p txs).0 in
              elim (Result-cases (replay_block env p txs).1) [
                | inr (e, failed) ↦ absurd (ground (arith, read, failed, h))
                | inl (_, done) ↦
                    let (rest, chain, state) =
                      replay_blocks-Replays names next (rw (read, done, replay_blocks) at h) in
                    (
                      txs ++ rest,
                      rw (read, chain) refl,
                      rw (read, done, replay_blocks)
                          (state
                            ∙ rw (replay_block-process_all txs p done)
                                (sym (process_all-append p txs rest))),
                    )
              ]
        ]

    -- A peer that reads its blocks without an error has the ledger of a peer that has applied the
    -- transactions of these blocks in the order of their files.
    pub read_state-process_all :
        (p : TransactionProcessor)
        → (read_state env p k).1 ≡ ok tt
        → (txs : List SignedTransaction) × (chain_transactions (list_all_blocks env k.disk)
            ≡ ok txs)
          × ((read_state env p k).0 ≡ process_all env p txs)
    unfolding read_state Replays
    read_state-process_all p h = replay_blocks-Replays (list_all_blocks env k.disk) p h
