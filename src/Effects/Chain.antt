-- ===== src/Effects/Chain.antt =====
-- The chain of blocks under the effects that src/peer/effects.rs executes.
use rustchain.Base.{
  ℕ, zero, suc, ◌≡◌, refl, ◌∙◌, List, [], ◌∷◌, ◌++◌, Option, some, none, Result, ok, err, nat_eq,
  arith, is_empty, Bool-cases, Option-cases, Result-cases, inl, inr,
}
use rustchain.Data.{
  BlockHash, BlockFile, BlockStatus, added_to_mempool, new_block_created, PeerId, SignedTransaction,
  RaftLogEntry, is_noop, ConsensusEffect, stage_client_transaction, stage_raft_entries,
  broadcast_client_transaction, propose_block, send_raft_append_entries, commit_block,
  rollback_block, broadcast, send_to, Error,
}
use rustchain.Effects.{
  PeerEffects, stage_block, stage_external_block, commit_and_note, apply_synchronized_block,
  stage_verified, stage_client, stage_pending, broadcast_client, broadcast_peer_message,
  send_peer_message,
}
use rustchain.Effects.Execute.{
  Services, stage_entries, broadcast_block_proposal, replicate_entries, send_append_entries,
  roll_back, after_staging, after_proposing, execute_effect, execute_queue, done_with,
}
use rustchain.Engine
use rustchain.Engine.{ConsensusEngine}
use rustchain.Env.{Env}
use rustchain.Ledger.{verify_signed}
use rustchain.Storage
use rustchain.Storage.{block_can_be_added}
use rustchain.Storage.Chain.{
  Chain, chain, Grows, Grows-same, Grows-trans, add_transaction-chain, add_external_block-chain,
  rollback_block-chain, commit_block-Grows,
}

abbrev pub chain_of : PeerEffects → Chain
chain_of p = chain p.block_keeper

module _ (env : Env) where
  abbrev pub Extends : PeerEffects → PeerEffects → Type 0
  Extends p q = Grows env (chain_of p) (chain_of q)

  abbrev pub Kept : PeerEffects → PeerEffects → Type 0
  Kept p q = chain_of q ≡ chain_of p

  stage_block-Kept : (p : PeerEffects) (b : BlockFile) → Kept p (stage_block env p b).0
  unfolding stage_block
  stage_block-Kept p b = add_external_block-chain env p.block_keeper b

  pub stage_external_block-Kept :
      (p : PeerEffects) (b : BlockFile) → Kept p (stage_external_block env p b).0
  unfolding stage_external_block
  stage_external_block-Kept p b = elim (Bool-cases (block_can_be_added p.block_keeper b)) [
    | inl fits ↦ rw (fits, stage_external_block) (stage_block-Kept p b)
    | inr out ↦ rw (out, stage_external_block) refl
  ]

  commit_and_note-Extends :
      (p : PeerEffects) (h : BlockHash) → Extends p (commit_and_note env p h).0
  unfolding commit_and_note
  commit_and_note-Extends p h =
      let grows = commit_block-Grows env p.block_keeper h in
      elim (Result-cases (Storage.commit_block env p.block_keeper h).1) [
        | inl (_, done) ↦ rw (done, commit_and_note) grows
        | inr (e, failed) ↦ rw (failed, commit_and_note) grows
      ]

  pub apply_synchronized_block-Extends :
      (p : PeerEffects) (b : BlockFile) → Extends p (apply_synchronized_block env p b).0
  unfolding apply_synchronized_block
  apply_synchronized_block-Extends p b = elim (Bool-cases (block_can_be_added p.block_keeper b)) [
    | inr out ↦ rw (out, apply_synchronized_block) (Grows-same env refl)
    | inl fits ↦
        let kept = Grows-same env (stage_block-Kept p b) in
        elim (Result-cases (stage_block env p b).1) [
          | inr (e, failed) ↦ rw (fits, failed, apply_synchronized_block) kept
          | inl (_, done) ↦
              rw (fits, done, apply_synchronized_block)
                (Grows-trans env kept (commit_and_note-Extends (stage_block env p b).0 b.hash))
        ]
  ]

  stage_verified-Kept :
      (p : PeerEffects) (tx : SignedTransaction) → Kept p (stage_verified env p tx).0
  unfolding stage_verified
  stage_verified-Kept p tx = ground (arith, add_transaction-chain env p.block_keeper tx)

  pub stage_client-Kept :
      (p : PeerEffects) (tx : SignedTransaction) → Kept p (stage_client env p tx).0
  unfolding stage_client
  stage_client-Kept p tx = elim (Result-cases (verify_signed env tx)) [
    | inr (e, bad) ↦ rw (bad, stage_client) refl
    | inl (_, good) ↦ rw (good, stage_client) (stage_verified-Kept p tx)
  ]

  stage_pending-Kept :
      (p : PeerEffects) (entry : RaftLogEntry) (pending : Option BlockFile)
      → Kept p (stage_pending env p entry pending).0
  unfolding stage_pending
  stage_pending-Kept p entry none = ground arith
  stage_pending-Kept p entry (some b) = ground (arith, stage_block-Kept p b)

  stage_entries-Kept :
      (entries : List RaftLogEntry) (s : Services)
      → Kept s.effects (stage_entries env s entries).0.effects
  unfolding stage_entries
  stage_entries-Kept [] s = refl
  stage_entries-Kept (entry ∷ entries) s =
      let taken = Engine.take_pending_raft_block s.consensus entry.block_hash in
      let staged = stage_pending env s.effects entry taken.1 in
      let kept = stage_pending-Kept s.effects entry taken.1 in
      elim (Bool-cases (is_noop entry)) [
        | inl noop ↦ rw (noop, stage_entries) (stage_entries-Kept entries s)
        | inr block ↦ elim (Result-cases staged.1) [
          | inr (e, failed) ↦ rw (block, failed, stage_entries) kept
          | inl (_, done) ↦
              rw (block, done, stage_entries)
                (stage_entries-Kept entries (record { effects = staged.0; consensus = taken.0 })
                  ∙ kept)
        ]
      ]

  broadcast_block_proposal-Extends :
      (p : PeerEffects) (h : BlockHash) → Extends p (broadcast_block_proposal env p h).0
  unfolding broadcast_block_proposal broadcast_peer_message
  broadcast_block_proposal-Extends p h = elim (Bool-cases (is_empty p.network.known_peers)) [
    | inl alone ↦ rw (alone, broadcast_block_proposal) (commit_block-Grows env p.block_keeper h)
    | inr others ↦ elim (Option-cases (Storage.get_uncommited_block p.block_keeper h)) [
      | inl absent ↦ rw (others, absent, broadcast_block_proposal) (Grows-same env refl)
      | inr (b, there) ↦ rw (others, there, broadcast_block_proposal) (Grows-same env refl)
    ]
  ]

  send_append_entries-Kept :
      (p : PeerEffects) (to : PeerId) (term index prev : ℕ) (entries : List RaftLogEntry)
      (commit : ℕ)
      → Kept p (send_append_entries env p to term index prev entries commit).0
  unfolding send_append_entries send_peer_message
  send_append_entries-Kept p to term index prev entries commit =
      elim (Result-cases (replicate_entries env p entries)) [
        | inr (e, failed) ↦ rw (failed, send_append_entries) refl
        | inl (sent, done) ↦ rw (done, send_append_entries) refl
      ]

  pub roll_back-Kept : (p : PeerEffects) (h : BlockHash) → Kept p (roll_back env p h)
  unfolding roll_back
  roll_back-Kept p h = elim (Option-cases (Storage.get_uncommited_block p.block_keeper h)) [
    | inl absent ↦ rw (absent, roll_back) refl
    | inr (b, there) ↦ rw (there, roll_back) (rollback_block-chain env p.block_keeper h)
  ]

  done_with-Extends :
      {A : Type 0} (p : PeerEffects) (c : ConsensusEngine) (done : PeerEffects × Result Error A)
      → Extends p done.0
      → Extends p (done_with c done).0.effects
  done_with-Extends p c (q, ok a) grows = grows
  done_with-Extends p c (q, err e) grows = grows

  after_staging-Extends :
      (s : Services) (done : PeerEffects × Result Error BlockStatus)
      → Extends s.effects done.0
      → Extends s.effects (after_staging env s done).0.effects
  unfolding after_staging
  after_staging-Extends s (p, err e) grows = grows
  after_staging-Extends s (p, ok added_to_mempool) grows = grows
  after_staging-Extends s (p, ok (new_block_created h)) grows = grows

  after_proposing-Extends :
      (s : Services) (h : BlockHash) (done : PeerEffects × Result Error (Option (List PeerId)))
      → Extends s.effects done.0
      → Extends s.effects (after_proposing env s h done).0.effects
  unfolding after_proposing
  after_proposing-Extends s h (p, err e) grows = grows
  after_proposing-Extends s h (p, ok none) grows = grows
  after_proposing-Extends s h (p, ok (some peers)) grows = grows

  execute_effect-Extends :
      (s : Services) (x : ConsensusEffect) → Extends s.effects (execute_effect env s x).0.effects
  unfolding execute_effect broadcast_client broadcast_peer_message send_peer_message
  execute_effect-Extends s (stage_client_transaction tx) =
      after_staging-Extends s _ (Grows-same env (stage_client-Kept s.effects tx))
  execute_effect-Extends s (stage_raft_entries entries) =
      Grows-same env (stage_entries-Kept entries s)
  execute_effect-Extends s (broadcast_client_transaction tx) = Grows-same env refl
  execute_effect-Extends s (propose_block h) =
      after_proposing-Extends s h _ (broadcast_block_proposal-Extends s.effects h)
  execute_effect-Extends s (send_raft_append_entries to term index prev entries commit) =
      done_with-Extends s.effects s.consensus _
        (Grows-same env (send_append_entries-Kept s.effects to term index prev entries commit))
  execute_effect-Extends s (commit_block h) =
      done_with-Extends s.effects s.consensus _ (commit_and_note-Extends s.effects h)
  execute_effect-Extends s (rollback_block h) = Grows-same env (roll_back-Kept s.effects h)
  execute_effect-Extends s (broadcast body) = Grows-same env refl
  execute_effect-Extends s (send_to to body) = Grows-same env refl

  -- The services that a run of the queue has left, if it has ended.
  abbrev pub QueueExtends : PeerEffects → Option (Services × List Error) → Type 0
  QueueExtends p none = Unit
  QueueExtends p (some (s, errors)) = Extends p s.effects

  QueueExtends-trans :
      (p q : PeerEffects) (r : Option (Services × List Error))
      → Extends p q
      → QueueExtends q r
      → QueueExtends p r
  QueueExtends-trans p q none one two = tt
  QueueExtends-trans p q (some (s, errors)) one two = Grows-trans env one two

  pub execute_queue-Extends :
      (fuel : ℕ) (s : Services) (queue : List ConsensusEffect) (errors : List Error)
      → QueueExtends s.effects (execute_queue env fuel s queue errors)
  unfolding execute_queue
  execute_queue-Extends zero s queue errors = tt
  execute_queue-Extends (suc fuel) s [] errors = Grows-same env refl
  execute_queue-Extends (suc fuel) s (x ∷ queue) errors =
      let next = (execute_effect env s x).0 in
      let one = execute_effect-Extends s x in
      elim (Result-cases (execute_effect env s x).1) [
        | inr (e, failed) ↦
            rw (failed, execute_queue)
              (QueueExtends-trans s.effects next.effects _ one
                (execute_queue-Extends fuel next queue (errors ++ e ∷ [])))
        | inl (more, done) ↦
            rw (done, execute_queue)
              (QueueExtends-trans s.effects next.effects _ one
                (execute_queue-Extends fuel next (queue ++ more) errors))
      ]
