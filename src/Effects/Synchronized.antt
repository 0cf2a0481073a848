-- ===== src/Effects/Synchronized.antt =====
-- `apply_synchronized_block` of src/peer/effects.rs and the chain.
use rustchain.Base.{
  ℕ, ◌≡◌, refl, ◌∙◌, ap, true, some, ok, err, nat_eq, add_u32, arith, eq_self, Bool-cases,
  Result-cases, inl, inr, ◌⊎◌,
}
use rustchain.Base.Dict
use rustchain.Block.{verify_block}
use rustchain.Data.{BlockHash, BlockFile, BlockStorageState, Error, bad_block}
use rustchain.Effects.{PeerEffects, apply_synchronized_block, stage_block, commit_and_note}
use rustchain.Env.{Env}
use rustchain.Storage.{BlockKeeper, block_can_be_added, move_all_to_pending, add_external_block}
use rustchain.Storage.Chain.{Chain, add_external_block-chain}
use rustchain.Storage.Commits.{Committed, commit_block-cases}
use rustchain.Sync.Rounds.{Counts}

abbrev pub height : PeerEffects → ℕ
height p = p.block_keeper.storage_state.block_height

module _ (env : Env) where
  add_external_block-get :
      (k : BlockKeeper) (b : BlockFile)
      → (add_external_block env k b).1 ≡ ok tt
      → (verify_block env b ≡ ok tt)
        × (Dict.get (add_external_block env k b).0.uncommited_blocks b.hash ≡ some b)
  unfolding add_external_block
  add_external_block-get k b done = elim (Result-cases (verify_block env b)) [
    | inr (e, bad) ↦ absurd (ground (arith, bad, done))
    | inl (_, good) ↦ (
      good,
      rw (good, add_external_block)
          (Dict.get-insert (move_all_to_pending env k b.transactions).uncommited_blocks b.hash
              b.hash b
            ∙ rw (eq_self b.hash) refl),
    )
  ]

  stage_block-chain :
      (p : PeerEffects) (b : BlockFile)
      → (stage_block env p b).0.block_keeper.storage_state ≡ p.block_keeper.storage_state
  unfolding stage_block
  stage_block-chain p b =
      ap (λ (c : Chain). c.storage_state) (add_external_block-chain env p.block_keeper b)

  commit_and_note-cases :
      (p : PeerEffects) (h : BlockHash)
      → ((e : Error) × (commit_and_note env p h ≡ (p, err e)))
        ⊎ ((b : BlockFile) × ((commit_and_note env p h).1 ≡ ok tt)
            × ((commit_and_note env p h).0.last_completed_block ≡ h)
            × Committed env p.block_keeper h b (commit_and_note env p h).0.block_keeper)
  unfolding commit_and_note
  commit_and_note-cases p h = elim (commit_block-cases env p.block_keeper h) [
    | inl (e, failed, why) ↦ inl (e, ground (arith, failed))
    | inr (b, done, c) ↦ inr (
      b,
      rw (done, commit_and_note) refl,
      rw (done, commit_and_note) refl,
      rw (done, commit_and_note) c,
    )
  ]

  -- A synchronized block is either refused with the chain as it was, or it has been verified, can
  -- be added to the chain, and is its last block, one higher than before.
  pub apply_synchronized_block-cases :
      (p : PeerEffects) (b : BlockFile)
      → let after = (apply_synchronized_block env p b).0 in
        ((e : Error) × ((apply_synchronized_block env p b).1 ≡ err e)
          × (after.block_keeper.storage_state ≡ p.block_keeper.storage_state))
        ⊎ (((apply_synchronized_block env p b).1 ≡ ok tt)
            × (verify_block env b ≡ ok tt)
            × (block_can_be_added p.block_keeper b ≡ true)
            × (height after ≡ add_u32 (height p) 1)
            × (after.block_keeper.storage_state.last_commited_hash ≡ b.hash)
            × (after.last_completed_block ≡ b.hash))
  unfolding apply_synchronized_block
  apply_synchronized_block-cases p b =
      let staged = (stage_block env p b).0 in
      let kept = stage_block-chain p b in
      elim (Bool-cases (block_can_be_added p.block_keeper b)) [
        | inr out ↦ rw (out, apply_synchronized_block) (inl (_, refl, refl))
        | inl fits ↦ elim (Result-cases (add_external_block env p.block_keeper b).1) [
          | inr (e, bad) ↦
              let ends : apply_synchronized_block env p b ≡ (staged, err (bad_block e)) =
                rw (fits, bad, apply_synchronized_block) refl in
              rw ends (inl (bad_block e, refl, kept))
          | inl (_, good) ↦
              let ends : apply_synchronized_block env p b ≡ commit_and_note env staged b.hash =
                rw (fits, good, apply_synchronized_block) refl in
              rw ends (elim (commit_and_note-cases staged b.hash) [
                | inl (e, failed) ↦ rw failed (inl (e, refl, kept))
                | inr (c, done, noted, committed) ↦ inr (
                  done,
                  (add_external_block-get p.block_keeper b good).0,
                  fits,
                  committed.height ∙ rw kept refl,
                  committed.last,
                  noted,
                )
              ])
        ]
      ]

  -- The method that applies synchronized blocks meets what the synchronization loop relies on: an
  -- applied block raises the height by one while it fits, a refused one leaves it.
  pub apply_synchronized_block-Counts : Counts (apply_synchronized_block env) height
  apply_synchronized_block-Counts = record {
    applied = λ p b small done. elim (apply_synchronized_block-cases p b) [
      | inl (e, failed, same) ↦ absurd (ground (arith, failed, done))
      | inr (_, _, _, higher, _, _) ↦ omega (arith, higher)
    ];
    refused = λ p b e failed. elim (apply_synchronized_block-cases p b) [
      | inl (_, _, same) ↦ ap (λ (s : BlockStorageState). s.block_height) same
      | inr (done, _, _, _, _, _) ↦ absurd (ground (arith, failed, done))
    ];
  }
