-- ===== src/Peer.antt =====
-- `Peer` of src/peer.rs: a message is verified here where it has to be, and goes to consensus, and
-- what consensus asks for is executed. `fuel` bounds the effects of one call.
pub mod Chain
pub mod Refusals
pub mod Totality
pub mod View
mod Tests
use rustchain.Base.{
  ℕ, Bool, true, false, Option, none, some, List, [], ◌∷◌, Result, ok, err, ◌>>◌, is_empty,
  if◌then◌else◌, ◌==◌, nat_eq,
}
use rustchain.Block.{verify_block_vec}
use rustchain.Data.{
  Bytes, Signature, VerifyingKey, PeerId, BlockHash, BlockFile, BlockStatus, added_to_mempool,
  new_block_created, SignedTransaction, VerifiedTransaction, Message, MessageBody,
  client_transaction, synchronization, block_proposal, block_approved, block_reject,
  ConsensusEffect, Error,
}
use rustchain.Effects.{
  PeerEffects, ensure_uncommitted_block, stage_client, stage_external_block,
  apply_synchronized_block,
}
use rustchain.Effects.Execute.{Services, execute_queue}
use rustchain.Engine
use rustchain.Engine.{ConsensusEngine, ConsensusState}
use rustchain.Env.{Env}
use rustchain.Ledger.{verify_signed, verify_verified}

-- `published` is what the watch channel holds.
pub record Peer : Type 0 where
  pub services : Services
  pub published : ConsensusState

-- The peer after a method, with the errors of what it has tried; `none` if the fuel ran out.
abbrev pub Handled : Type 0
Handled = Option (Peer × List Error)

abbrev pub known : Peer → List PeerId
known p = p.services.effects.network.known_peers

abbrev pub with_effects : Peer → PeerEffects → Peer
with_effects p effects = record p { services = record p.services { effects = effects } }

abbrev pub with_consensus : Peer → ConsensusEngine → Peer
with_consensus p consensus = record p { services = record p.services { consensus = consensus } }

module _ (env : Env) (fuel : ℕ) where
  -- The new state of consensus is published if no effect has failed.
  unfoldable pub execute_consensus_effects : Peer → List ConsensusEffect → Handled
  execute_consensus_effects p effects = elim (execute_queue env fuel p.services effects []) [
    | none ↦ none
    | some (services, errors) ↦
        if is_empty errors
        then some (record { services = services; published = Engine.state services.consensus }, [])
        else some (record p { services = services }, errors)
  ]

  -- a call of consensus, and the execution of its answer
  unfoldable pub run_answer : Peer → ConsensusEngine × Result Error (List ConsensusEffect) → Handled
  unfolding execute_consensus_effects
  run_answer p (consensus, err e) = some (with_consensus p consensus, e ∷ [])
  run_answer p (consensus, ok effects) =
      execute_consensus_effects (with_consensus p consensus) effects

  unfoldable pub process_client_transaction : Peer → SignedTransaction → Handled
  unfolding run_answer
  process_client_transaction p client_tx =
      elim (do
        verify_signed env client_tx
        Engine.on_client_transaction p.services.consensus client_tx) [
          | err e ↦ some (p, e ∷ [])
          | ok effects ↦ execute_consensus_effects p effects
        ]

  -- `synchronize_transaction` after the signatures are verified
  unfoldable pub after_staging : Peer → PeerEffects × Result Error BlockStatus → Handled
  unfolding run_answer
  after_staging p (effects, err e) = some (with_effects p effects, e ∷ [])
  after_staging p (effects, ok added_to_mempool) = some (with_effects p effects, [])
  after_staging p (effects, ok (new_block_created block_hash)) =
      run_answer (with_effects p effects)
        (Engine.on_block_created env p.services.consensus block_hash)

  unfoldable pub synchronize_transaction : Peer → VerifiedTransaction → Handled
  unfolding after_staging
  synchronize_transaction p verified_tx = elim (verify_verified env verified_tx) [
    | err e ↦ some (p, e ∷ [])
    | ok _ ↦ after_staging p (stage_client env p.services.effects verified_tx.client_tx)
  ]

  -- the vote on a proposal whose validation has come to an end
  unfoldable pub propose : Peer → BlockHash → PeerId → PeerEffects × Result Error Bool → Handled
  unfolding run_answer
  propose p block_hash from (effects, err e) = some (with_effects p effects, e ∷ [])
  propose p block_hash from (effects, ok valid) = run_answer (with_effects p effects) (
      Engine.on_block_proposal_validated p.services.consensus block_hash from valid
        effects.network.known_peers)

  unfoldable pub process_block_proposal :
      Peer → BlockHash → Bytes → Signature → VerifyingKey → PeerId → Handled
  unfolding propose
  process_block_proposal p block_hash block_file signature public_key from =
      if p.services.effects.last_completed_block == block_hash
      then some (p, [])
      else (elim (verify_block_vec env block_hash block_file signature public_key) [
        | err e ↦ propose p block_hash from (p.services.effects, ok false)
        | ok block ↦ propose p block_hash from (stage_external_block env p.services.effects block)
      ])

  unfoldable pub make_vote : Peer → BlockHash → PeerId → Bool → Handled
  unfolding run_answer
  make_vote p block_hash from approve =
      run_answer p (Engine.on_block_vote p.services.consensus block_hash from approve (known p))

  unfoldable pub process_block_vote : Peer → BlockHash → PeerId → Bool → Handled
  unfolding make_vote
  process_block_vote p block_hash from approve =
      if p.services.effects.last_completed_block == block_hash
      then some (p, [])
      else (elim (ensure_uncommitted_block p.services.effects block_hash) [
        | err e ↦ some (p, e ∷ [])
        | ok _ ↦ make_vote p block_hash from approve
      ])

  -- `now` is `Instant::now()`
  unfoldable pub dispatch_to_consensus : Peer → PeerId → MessageBody → ℕ → Handled
  unfolding run_answer
  dispatch_to_consensus p from body now =
      run_answer p (Engine.on_message env p.services.consensus from body now)

  unfoldable pub handle_tick : Peer → ℕ → Handled
  unfolding run_answer
  handle_tick p now = run_answer p (Engine.on_tick env p.services.consensus now (known p))

  unfoldable pub handle_body : Peer → PeerId → MessageBody → ℕ → Handled
  handle_body p from (client_transaction client_tx) now = process_client_transaction p client_tx
  handle_body p from (synchronization verified_tx) now = synchronize_transaction p verified_tx
  handle_body p from (block_proposal block_hash block_file signature public_key) now =
      process_block_proposal p block_hash block_file signature public_key from
  handle_body p from (block_approved block_hash) now = process_block_vote p block_hash from true
  handle_body p from (block_reject block_hash) now = process_block_vote p block_hash from false
  handle_body p from body now = dispatch_to_consensus p from body now

  unfoldable pub handle_message : Peer → Message → ℕ → Handled
  unfolding handle_body
  handle_message p message now = handle_body p message.from message.body now

  unfoldable pub apply_block : Peer → BlockFile → Peer × Result Error (Unit {0})
  apply_block p block_file =
      let (effects, result) = apply_synchronized_block env p.services.effects block_file in
      (with_effects p effects, result)
