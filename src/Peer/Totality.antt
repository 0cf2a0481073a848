-- ===== src/Peer/Totality.antt =====
-- The handlers of src/peer.rs and the fuel of the effects that they run.
use rustchain.Base.{
  ℕ, ◌+◌, ◌≡◌, refl, Bool, true, false, some, List, [], ◌∷◌, Result, ok, err, ◌>>◌, is_empty, ◌==◌,
  nat_eq, Bool-cases, Result-cases, inl, inr,
}
use rustchain.Block.{verify_block_vec}
use rustchain.Data.{
  Bytes, Signature, VerifyingKey, PeerId, BlockHash, BlockStatus, added_to_mempool,
  new_block_created, SignedTransaction, VerifiedTransaction, ConsensusEffect, Error, Message,
  MessageBody, client_transaction, synchronization, block_proposal, block_reject, block_approved,
  raft_request_vote, raft_request_vote_response, raft_append_entries, raft_append_entries_response,
}
use rustchain.Effects.{PeerEffects, stage_client, stage_external_block, ensure_uncommitted_block}
use rustchain.Effects.Termination.{execute_queue-Ends}
use rustchain.Engine
use rustchain.Engine.{ConsensusEngine}
use rustchain.Env.{Env}
use rustchain.Ledger.{verify_signed, verify_verified}
use rustchain.Peer.{
  Peer, Handled, known, with_effects, with_consensus, execute_consensus_effects, run_answer,
  process_client_transaction, synchronize_transaction, after_staging, propose,
  process_block_proposal, make_vote, process_block_vote, dispatch_to_consensus, handle_tick,
  handle_body, handle_message,
}

-- From some fuel on the handler returns one result.
abbrev pub Returns : (ℕ → Handled) → Type 0
Returns handler =
    (fuel : ℕ) × (result : Peer × List Error) × ((extra : ℕ) → handler (fuel + extra) ≡ some result)

module _ (env : Env) where
  execute-Returns :
      (p : Peer) (effects : List ConsensusEffect)
      → Returns (λ fuel. execute_consensus_effects env fuel p effects)
  unfolding execute_consensus_effects
  execute-Returns p effects =
      let (fuel, (services, errors), ends) = execute_queue-Ends env p.services effects [] in
      elim (Bool-cases (is_empty errors)) [
        | inl clean ↦ (
          fuel,
          (record { services = services; published = Engine.state services.consensus }, []),
          λ extra. rw (ends extra, clean, execute_consensus_effects) refl,
        )
        | inr failed ↦ (
          fuel,
          (record p { services = services }, errors),
          λ extra. rw (ends extra, failed, execute_consensus_effects) refl,
        )
      ]

  run_answer-Returns :
      (p : Peer) (answer : ConsensusEngine × Result Error (List ConsensusEffect))
      → Returns (λ fuel. run_answer env fuel p answer)
  unfolding run_answer
  run_answer-Returns p (consensus, err e) = (0, _, λ extra. refl)
  run_answer-Returns p (consensus, ok effects) =
      execute-Returns (with_consensus p consensus) effects

  process_client_transaction-Returns :
      (p : Peer) (tx : SignedTransaction)
      → Returns (λ fuel. process_client_transaction env fuel p tx)
  unfolding process_client_transaction
  process_client_transaction-Returns p tx =
      elim (Result-cases
        (do verify_signed env tx; Engine.on_client_transaction p.services.consensus tx)) [
          | inr (e, failed) ↦
              (0, (p, e ∷ []), λ extra. rw (failed, process_client_transaction) refl)
          | inl (effects, done) ↦
              let (fuel, result, ends) = execute-Returns p effects in
              (fuel, result, λ extra. rw (done, process_client_transaction) (ends extra))
        ]

  after_staging-Returns :
      (p : Peer) (staged : PeerEffects × Result Error BlockStatus)
      → Returns (λ fuel. after_staging env fuel p staged)
  unfolding after_staging
  after_staging-Returns p (effects, err e) = (0, _, λ extra. refl)
  after_staging-Returns p (effects, ok added_to_mempool) = (0, _, λ extra. refl)
  after_staging-Returns p (effects, ok (new_block_created h)) =
      run_answer-Returns (with_effects p effects) _

  synchronize_transaction-Returns :
      (p : Peer) (tx : VerifiedTransaction)
      → Returns (λ fuel. synchronize_transaction env fuel p tx)
  unfolding synchronize_transaction
  synchronize_transaction-Returns p tx = elim (Result-cases (verify_verified env tx)) [
    | inr (e, bad) ↦ (0, (p, e ∷ []), λ extra. rw (bad, synchronize_transaction) refl)
    | inl (_, good) ↦
        let (fuel, result, ends) =
          after_staging-Returns p (stage_client env p.services.effects tx.client_tx) in
        (fuel, result, λ extra. rw (good, synchronize_transaction) (ends extra))
  ]

  propose-Returns :
      (p : Peer) (h : BlockHash) (from : PeerId) (staged : PeerEffects × Result Error Bool)
      → Returns (λ fuel. propose env fuel p h from staged)
  unfolding propose
  propose-Returns p h from (effects, err e) = (0, _, λ extra. refl)
  propose-Returns p h from (effects, ok valid) = run_answer-Returns (with_effects p effects) _

  process_block_proposal-Returns :
      (p : Peer) (h : BlockHash) (bytes : Bytes) (s : Signature) (key : VerifyingKey)
      (from : PeerId)
      → Returns (λ fuel. process_block_proposal env fuel p h bytes s key from)
  unfolding process_block_proposal
  process_block_proposal-Returns p h bytes s key from =
      elim (Bool-cases (p.services.effects.last_completed_block == h)) [
        | inl again ↦ (0, (p, []), λ extra. rw (again, process_block_proposal) refl)
        | inr new ↦ elim (Result-cases (verify_block_vec env h bytes s key)) [
          | inr (e, bad) ↦
              let (fuel, result, ends) = propose-Returns p h from (p.services.effects, ok false) in
              (fuel, result, λ extra. rw (new, bad, process_block_proposal) (ends extra))
          | inl (block, good) ↦
              let (fuel, result, ends) =
                propose-Returns p h from (stage_external_block env p.services.effects block) in
              (fuel, result, λ extra. rw (new, good, process_block_proposal) (ends extra))
        ]
      ]

  process_block_vote-Returns :
      (p : Peer) (h : BlockHash) (from : PeerId) (approve : Bool)
      → Returns (λ fuel. process_block_vote env fuel p h from approve)
  unfolding process_block_vote make_vote
  process_block_vote-Returns p h from approve =
      elim (Bool-cases (p.services.effects.last_completed_block == h)) [
        | inl again ↦ (0, (p, []), λ extra. rw (again, process_block_vote) refl)
        | inr new ↦ elim (Result-cases (ensure_uncommitted_block p.services.effects h)) [
          | inr (e, absent) ↦ (0, (p, e ∷ []), λ extra. rw (new, absent, process_block_vote) refl)
          | inl (_, there) ↦
              let (fuel, result, ends) =
                run_answer-Returns p
                  (Engine.on_block_vote p.services.consensus h from approve (known p)) in
              (fuel, result, λ extra. rw (new, there, process_block_vote) (ends extra))
        ]
      ]

  dispatch-Returns :
      (p : Peer) (from : PeerId) (body : MessageBody) (now : ℕ)
      → Returns (λ fuel. dispatch_to_consensus env fuel p from body now)
  unfolding dispatch_to_consensus
  dispatch-Returns p from body now = run_answer-Returns p _

  handle_body-Returns :
      (p : Peer) (from : PeerId) (body : MessageBody) (now : ℕ)
      → Returns (λ fuel. handle_body env fuel p from body now)
  unfolding handle_body
  handle_body-Returns p from (client_transaction tx) now = process_client_transaction-Returns p tx
  handle_body-Returns p from (synchronization tx) now = synchronize_transaction-Returns p tx
  handle_body-Returns p from (block_proposal h bytes signature key) now =
      process_block_proposal-Returns p h bytes signature key from
  handle_body-Returns p from (block_approved h) now = process_block_vote-Returns p h from true
  handle_body-Returns p from (block_reject h) now = process_block_vote-Returns p h from false
  handle_body-Returns p from (raft_request_vote term c index last) now =
      dispatch-Returns p from (raft_request_vote term c index last) now
  handle_body-Returns p from (raft_request_vote_response term granted) now =
      dispatch-Returns p from (raft_request_vote_response term granted) now
  handle_body-Returns p from (raft_append_entries term leader index prev entries commit) now =
      dispatch-Returns p from (raft_append_entries term leader index prev entries commit) now
  handle_body-Returns p from (raft_append_entries_response term success index) now =
      dispatch-Returns p from (raft_append_entries_response term success index) now

  -- A peer is done with every message after finitely many effects, in every state and whatever the
  -- message holds.
  pub handle_message-Returns :
      (p : Peer) (message : Message) (now : ℕ)
      → Returns (λ fuel. handle_message env fuel p message now)
  unfolding handle_message
  handle_message-Returns p message now = handle_body-Returns p message.from message.body now

  -- So it is with every tick of its clock.
  pub handle_tick-Returns : (p : Peer) (now : ℕ) → Returns (λ fuel. handle_tick env fuel p now)
  unfolding handle_tick
  handle_tick-Returns p now =
      run_answer-Returns p (Engine.on_tick env p.services.consensus now (known p))
