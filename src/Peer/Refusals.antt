-- ===== src/Peer/Refusals.antt =====
-- A proposal that src/peer.rs does not validate, from the message to the vote.
use rustchain.Base.{
  ℕ, suc, ◌≤◌, ◌≡◌, refl, false, none, some, List, [], err, nat_eq, ◌==◌, length, inl, inr,
}
use rustchain.Base.Dict
use rustchain.Block.{verify_block_vec}
use rustchain.Data.{
  BlockVerificationError, Bytes, Signature, VerifyingKey, PeerId, BlockHash, ConsensusEffect,
  block_proposal, block_reject,
}
use rustchain.Effects.{broadcast_peer_message}
use rustchain.Effects.Chain.{roll_back-Kept}
use rustchain.Effects.Execute.{execute_queue, execute_effect, roll_back}
use rustchain.Engine
use rustchain.Engine.{ConsensusEngine, voting}
use rustchain.Env.{Env}
use rustchain.Peer.{
  Peer, known, with_consensus, execute_consensus_effects, run_answer, propose,
  process_block_proposal, handle_message,
}
use rustchain.Peer.Chain.{peer_chain}
use rustchain.Voting
use rustchain.Voting.{VotingConsensus, Votings, new}
use rustchain.Voting.Refusals.{Refuses, IsAgainst, on_block_proposal_validated-Refuses}

module _ (env : Env) (p : Peer) (fuel : ℕ) where
  -- The effects of a refusal leave the engine and the chain.
  executed :
      (h : BlockHash) (effects : List ConsensusEffect)
      → Refuses h effects
      → (q : Peer) × (execute_consensus_effects env (suc (suc (suc fuel))) p effects ≡ some (q, []))
        × (q.services.consensus ≡ p.services.consensus)
        × (peer_chain q ≡ peer_chain p)
  unfolding execute_consensus_effects execute_queue execute_effect broadcast_peer_message
  executed h effects (inl silent) = (
    record { services = p.services; published = Engine.state p.services.consensus },
    rw silent refl,
    refl,
    refl,
  )
  executed h effects (inr told) = (
    record {
      services = record p.services {
        effects = broadcast_peer_message (roll_back env p.services.effects h) (block_reject h);
      };
      published = Engine.state p.services.consensus;
    },
    rw told refl,
    refl,
    roll_back-Kept env p.services.effects h,
  )

module _ (env : Env) where
  -- A peer in voting mode that receives a proposal which it cannot verify is done with three units
  -- of fuel or more, without an error: it has then rejected the block and not approved it, and its
  -- chain is as before, whether or not the rejection has decided the block. The proposal is for a
  -- block without votes that the peer has not just completed, it comes from another peer, and the
  -- peer counts four participants at least.
  pub handle_message-Refuses :
      (p : Peer) (id : PeerId) (votings : Votings) (h : BlockHash) (bytes : Bytes) (s : Signature)
      (key : VerifyingKey) (from to : PeerId) (now fuel : ℕ) (e : BlockVerificationError)
      → p.services.consensus ≡ voting id votings
      → 4 ≤ length (new id (known p)).participants
      → Dict.get votings h ≡ none
      → (from == id) ≡ false
      → (p.services.effects.last_completed_block == h) ≡ false
      → verify_block_vec env h bytes s key ≡ err e
      → (q : Peer) × (next : Votings) × (v : VotingConsensus) × (handle_message env
            (suc (suc (suc fuel)))
            p
            (record { from = from; to = to; body = block_proposal h bytes s key })
            now
          ≡ some (q, []))
        × (q.services.consensus ≡ voting id next)
        × (Dict.get next h ≡ some v)
        × IsAgainst id v
        × (peer_chain q ≡ peer_chain p)
  unfolding handle_message process_block_proposal propose run_answer
      Engine.on_block_proposal_validated
  handle_message-Refuses p id votings h bytes s key from to now fuel e mode enough fresh other
        new_block bad =
      let (v, found, against, refuses) =
        on_block_proposal_validated-Refuses id votings h from (known p) enough fresh other in
      let answer = Voting.on_block_proposal_validated id votings h from false (known p) in
      let voted = with_consensus p (voting id answer.0) in
      let (q, ends, engine, chain) = executed env voted fuel h answer.1 refuses in
      (
        q,
        answer.0,
        v,
        rw (new_block, bad, mode, handle_message) ends,
        engine,
        found,
        against,
        chain,
      )
