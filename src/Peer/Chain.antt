-- ===== src/Peer/Chain.antt =====
-- The chain of blocks under the handlers of src/peer.rs.
use rustchain.Base.{
  ℕ, Bool, true, false, none, some, List, [], Result, ok, err, ◌>>◌, is_empty, ◌==◌, nat_eq,
  Bool-cases, Option-cases, Result-cases, inl, inr,
}
use rustchain.Block.{verify_block_vec}
use rustchain.Data.{
  Bytes, Signature, VerifyingKey, PeerId, BlockHash, BlockFile, BlockStatus, added_to_mempool,
  new_block_created, SignedTransaction, VerifiedTransaction, ConsensusEffect, Error, Message,
  MessageBody, client_transaction, synchronization, block_proposal, block_reject, block_approved,
  raft_request_vote, raft_request_vote_response, raft_append_entries, raft_append_entries_response,
}
use rustchain.Effects.{PeerEffects, ensure_uncommitted_block}
use rustchain.Effects.Execute.{execute_queue}
use rustchain.Effects.Chain.{
  chain_of, execute_queue-Extends, stage_client-Kept, stage_external_block-Kept,
  apply_synchronized_block-Extends,
}
use rustchain.Engine
use rustchain.Engine.{ConsensusEngine}
use rustchain.Env.{Env}
use rustchain.Ledger.{verify_signed, verify_verified}
use rustchain.Peer.{
  Peer, Handled, with_effects, with_consensus, execute_consensus_effects, run_answer,
  process_client_transaction, synchronize_transaction, after_staging, propose,
  process_block_proposal, make_vote, process_block_vote, dispatch_to_consensus, handle_tick,
  handle_body, handle_message, apply_block,
}
use rustchain.Storage.Chain.{Chain, Grows, Grows-same, Grows-trans}

abbrev pub peer_chain : Peer → Chain
peer_chain p = chain_of p.services.effects

module _ (env : Env) where
  -- The peer that a handler has left, if it has ended.
  abbrev pub HandledExtends : Chain → Handled → Type 0
  HandledExtends c none = Unit
  HandledExtends c (some (q, errors)) = Grows env c (peer_chain q)

module _ (env : Env) (fuel : ℕ) (c : Chain) where
  execute-Extends :
      (p : Peer) (effects : List ConsensusEffect)
      → Grows env c (peer_chain p)
      → HandledExtends env c (execute_consensus_effects env fuel p effects)
  unfolding execute_consensus_effects
  execute-Extends p effects before =
      let run = execute_queue-Extends env fuel p.services effects [] in
      elim (Option-cases (execute_queue env fuel p.services effects [])) [
        | inl out ↦ rw (out, execute_consensus_effects) tt
        | inr ((services, errors), ends) ↦
            let after : Grows env c (chain_of services.effects) =
              Grows-trans env before (rw ends at run) in
            elim (Bool-cases (is_empty errors)) [
              | inl clean ↦ rw (ends, clean, execute_consensus_effects) after
              | inr failed ↦ rw (ends, failed, execute_consensus_effects) after
            ]
      ]

  run_answer-Extends :
      (p : Peer) (answer : ConsensusEngine × Result Error (List ConsensusEffect))
      → Grows env c (peer_chain p)
      → HandledExtends env c (run_answer env fuel p answer)
  unfolding run_answer
  run_answer-Extends p (consensus, err e) before = before
  run_answer-Extends p (consensus, ok effects) before =
      execute-Extends (with_consensus p consensus) effects before

  process_client_transaction-Extends :
      (p : Peer) (tx : SignedTransaction)
      → Grows env c (peer_chain p)
      → HandledExtends env c (process_client_transaction env fuel p tx)
  unfolding process_client_transaction
  process_client_transaction-Extends p tx before =
      elim (Result-cases
        (do verify_signed env tx; Engine.on_client_transaction p.services.consensus tx)) [
          | inr (e, failed) ↦ rw (failed, process_client_transaction) before
          | inl (effects, done) ↦
              rw (done, process_client_transaction) (execute-Extends p effects before)
        ]

  after_staging-Extends :
      (p : Peer) (staged : PeerEffects × Result Error BlockStatus)
      → Grows env c (chain_of staged.0)
      → HandledExtends env c (after_staging env fuel p staged)
  unfolding after_staging
  after_staging-Extends p (effects, err e) before = before
  after_staging-Extends p (effects, ok added_to_mempool) before = before
  after_staging-Extends p (effects, ok (new_block_created h)) before =
      run_answer-Extends (with_effects p effects) _ before

  synchronize_transaction-Extends :
      (p : Peer) (tx : VerifiedTransaction)
      → Grows env c (peer_chain p)
      → HandledExtends env c (synchronize_transaction env fuel p tx)
  unfolding synchronize_transaction
  synchronize_transaction-Extends p tx before = elim (Result-cases (verify_verified env tx)) [
    | inr (e, bad) ↦ rw (bad, synchronize_transaction) before
    | inl (_, good) ↦
        rw (good, synchronize_transaction)
          (after_staging-Extends p _ (
            Grows-trans env before
              (Grows-same env (stage_client-Kept env p.services.effects tx.client_tx))))
  ]

  propose-Extends :
      (p : Peer) (h : BlockHash) (from : PeerId) (staged : PeerEffects × Result Error Bool)
      → Grows env c (chain_of staged.0)
      → HandledExtends env c (propose env fuel p h from staged)
  unfolding propose
  propose-Extends p h from (effects, err e) before = before
  propose-Extends p h from (effects, ok valid) before =
      run_answer-Extends (with_effects p effects) _ before

  process_block_proposal-Extends :
      (p : Peer) (h : BlockHash) (bytes : Bytes) (s : Signature) (key : VerifyingKey)
      (from : PeerId)
      → Grows env c (peer_chain p)
      → HandledExtends env c (process_block_proposal env fuel p h bytes s key from)
  unfolding process_block_proposal
  process_block_proposal-Extends p h bytes s key from before =
      elim (Bool-cases (p.services.effects.last_completed_block == h)) [
        | inl again ↦ rw (again, process_block_proposal) before
        | inr new ↦ elim (Result-cases (verify_block_vec env h bytes s key)) [
          | inr (e, bad) ↦
              rw (new, bad, process_block_proposal)
                (propose-Extends p h from (p.services.effects, ok false) before)
          | inl (block, good) ↦
              rw (new, good, process_block_proposal)
                (propose-Extends p h from _ (
                  Grows-trans env before
                    (Grows-same env (stage_external_block-Kept env p.services.effects block))))
        ]
      ]

  process_block_vote-Extends :
      (p : Peer) (h : BlockHash) (from : PeerId) (approve : Bool)
      → Grows env c (peer_chain p)
      → HandledExtends env c (process_block_vote env fuel p h from approve)
  unfolding process_block_vote make_vote
  process_block_vote-Extends p h from approve before =
      elim (Bool-cases (p.services.effects.last_completed_block == h)) [
        | inl again ↦ rw (again, process_block_vote) before
        | inr new ↦ elim (Result-cases (ensure_uncommitted_block p.services.effects h)) [
          | inr (e, absent) ↦ rw (new, absent, process_block_vote) before
          | inl (_, there) ↦ rw (new, there, process_block_vote) (run_answer-Extends p _ before)
        ]
      ]

  dispatch-Extends :
      (p : Peer) (from : PeerId) (body : MessageBody) (now : ℕ)
      → Grows env c (peer_chain p)
      → HandledExtends env c (dispatch_to_consensus env fuel p from body now)
  unfolding dispatch_to_consensus
  dispatch-Extends p from body now before = run_answer-Extends p _ before

  handle_body-Extends :
      (p : Peer) (from : PeerId) (body : MessageBody) (now : ℕ)
      → Grows env c (peer_chain p)
      → HandledExtends env c (handle_body env fuel p from body now)
  unfolding handle_body
  handle_body-Extends p from (client_transaction tx) now before =
      process_client_transaction-Extends p tx before
  handle_body-Extends p from (synchronization tx) now before =
      synchronize_transaction-Extends p tx before
  handle_body-Extends p from (block_proposal h bytes signature key) now before =
      process_block_proposal-Extends p h bytes signature key from before
  handle_body-Extends p from (block_approved h) now before =
      process_block_vote-Extends p h from true before
  handle_body-Extends p from (block_reject h) now before =
      process_block_vote-Extends p h from false before
  handle_body-Extends p from (raft_request_vote term i index last) now before =
      dispatch-Extends p from (raft_request_vote term i index last) now before
  handle_body-Extends p from (raft_request_vote_response term granted) now before =
      dispatch-Extends p from (raft_request_vote_response term granted) now before
  handle_body-Extends p from (raft_append_entries term leader index prev entries commit) now
        before =
      dispatch-Extends p from (raft_append_entries term leader index prev entries commit) now before
  handle_body-Extends p from (raft_append_entries_response term success index) now before =
      dispatch-Extends p from (raft_append_entries_response term success index) now before

  pub handle_message-Extends :
      (p : Peer) (message : Message) (now : ℕ)
      → Grows env c (peer_chain p)
      → HandledExtends env c (handle_message env fuel p message now)
  unfolding handle_message
  handle_message-Extends p message now before =
      handle_body-Extends p message.from message.body now before

  pub handle_tick-Extends :
      (p : Peer) (now : ℕ)
      → Grows env c (peer_chain p)
      → HandledExtends env c (handle_tick env fuel p now)
  unfolding handle_tick
  handle_tick-Extends p now before = run_answer-Extends p _ before

  pub apply_block-Extends :
      (p : Peer) (b : BlockFile)
      → Grows env c (peer_chain p)
      → Grows env c (peer_chain (apply_block env fuel p b).0)
  unfolding apply_block
  apply_block-Extends p b before =
      Grows-trans env before (apply_synchronized_block-Extends env p.services.effects b)
