-- ===== src/Effects/Termination.antt =====
-- The loop of `execute_all` in src/peer/effects.rs, and the effects that an effect adds.
pub mod Ranks
use rustchain.Base.{
  ℕ, zero, suc, ◌+◌, ◌≤◌, ◌<◌, ◌≡◌, refl, Bool, true, not, ◌||◌, Option, none, some, List, [], ◌∷◌,
  ◌++◌, map, Result, ok, err, ◌>>◌, arith, nat_eq, ltb, leb, ◌&&◌, keep_some, keep, Bool-cases,
  Option-cases, Result-cases, inl, inr, ◌==◌,
}
use mathlib.Core.List.{append_assoc, append-nil}
use native.Mathlib.Nat.{suc-add}
use rustchain.Base.Dict
use rustchain.Data.{
  BlockHash, PeerId, BlockStatus, added_to_mempool, new_block_created, RaftLogEntry, is_noop,
  ConsensusEffect, stage_client_transaction, stage_raft_entries, broadcast_client_transaction,
  propose_block, send_raft_append_entries, commit_block, rollback_block, broadcast, send_to, Error,
}
use rustchain.Effects.{PeerEffects, stage_pending}
use rustchain.Effects.Execute.{
  Services, done_with, execute_effect, execute_queue, stage_entries, after_staging, after_proposing,
}
use rustchain.Engine
use rustchain.Engine.{ConsensusEngine, voting, raft}
use rustchain.Env.{Env}
use rustchain.Raft.State.{RaftConsensus}
use rustchain.Raft.Election.{is_leader}
use rustchain.Raft.Handlers
use rustchain.Raft.Replication.{commit_effects, block_hashes, persist_log}
use rustchain.Raft.Replication.Leader.{
  append_own_entry, append_local_block, append_entries_effects_for_followers,
  append_entries_effect_for, advance_commit_index, ensure_no_uncommitted_block,
}
use rustchain.Voting
use rustchain.Voting.{
  outcome_effects, ConsensusOutcome, approved, rejected, pending, VotingConsensus, vote_on,
  already_voted, is_decided,
}
use rustchain.Effects.Termination.Ranks.{
  rank, Under, AddsUnder, Under-append, Under-le, commits-Under, effect_for-rank, sends-Under,
  after-Under, append_own_entry-Under, append_local_block-Under, AddsUnder-le, votes-Under,
  on_block_created-Under, vote_on-Under, on_local_block_proposed-Under,
}

module _ (env : Env) where
  stage_entries-Under :
      (entries : List RaftLogEntry) (s : Services) → AddsUnder 0 (stage_entries env s entries).1
  unfolding stage_entries
  stage_entries-Under [] s = tt
  stage_entries-Under (entry ∷ entries) s =
      let taken = Engine.take_pending_raft_block s.consensus entry.block_hash in
      let staged = stage_pending env s.effects entry taken.1 in
      elim (Bool-cases (is_noop entry)) [
        | inl noop ↦ rw (noop, stage_entries) (stage_entries-Under entries s)
        | inr block ↦ elim (Result-cases staged.1) [
          | inr (e, failed) ↦ rw (block, failed, stage_entries) tt
          | inl (_, done) ↦
              rw (block, done, stage_entries)
                (stage_entries-Under entries (record { effects = staged.0; consensus = taken.0 }))
        ]
      ]

  done_with-Under :
      {A : Type 0} (c : ConsensusEngine) (done : PeerEffects × Result Error A)
      → AddsUnder 0 (done_with c done).1
  done_with-Under c (p, ok a) = tt
  done_with-Under c (p, err e) = tt

  after_staging-Under :
      (s : Services) (done : PeerEffects × Result Error BlockStatus)
      → AddsUnder 2 (after_staging env s done).1
  unfolding after_staging
  after_staging-Under s (p, err e) = tt
  after_staging-Under s (p, ok added_to_mempool) = tt
  after_staging-Under s (p, ok (new_block_created h)) = on_block_created-Under env s.consensus h

  after_proposing-Under :
      (s : Services) (h : BlockHash) (done : PeerEffects × Result Error (Option (List PeerId)))
      → AddsUnder 1 (after_proposing env s h done).1
  unfolding after_proposing
  after_proposing-Under s h (p, err e) = tt
  after_proposing-Under s h (p, ok none) = tt
  after_proposing-Under s h (p, ok (some peers)) = on_local_block_proposed-Under s.consensus h peers

  -- An effect adds only effects of lower rank.
  execute_effect-Under :
      (s : Services) (x : ConsensusEffect) → AddsUnder (rank x) (execute_effect env s x).1
  unfolding execute_effect
  execute_effect-Under s (stage_client_transaction client_tx) = after_staging-Under s _
  execute_effect-Under s (stage_raft_entries entries) = stage_entries-Under entries s
  execute_effect-Under s (broadcast_client_transaction client_tx) = tt
  execute_effect-Under s (propose_block h) = after_proposing-Under s h _
  execute_effect-Under s (send_raft_append_entries to term index prev entries commit) =
      done_with-Under s.consensus _
  execute_effect-Under s (commit_block h) = done_with-Under s.consensus _
  execute_effect-Under s (rollback_block h) = tt
  execute_effect-Under s (broadcast body) = tt
  execute_effect-Under s (send_to to body) = tt

  -- From some fuel on, the queue gives one result.
  abbrev pub Ends : Services → List ConsensusEffect → List Error → Type 0
  Ends s queue errors =
      (fuel : ℕ) × (result : Services × List Error) × ((more : ℕ)
        → execute_queue env (fuel + more) s queue errors ≡ some result)

  Ends-next :
      (s : Services) (x : ConsensusEffect) (queue : List ConsensusEffect) (errors : List Error)
      → ((more : List ConsensusEffect)
          → Under (rank x) more
          → (errors' : List Error) → Ends (execute_effect env s x).0 (queue ++ more) errors')
      → Ends s (x ∷ queue) errors
  unfolding execute_queue
  Ends-next s x queue errors go = elim (Result-cases (execute_effect env s x).1) [
    | inl (more, done) ↦
        let (fuel, result, ends) = go more (rw done at (execute_effect-Under s x)) errors in
        (suc fuel, result, λ k. rw (suc-add, done, execute_queue) (ends k))
    | inr (e, failed) ↦
        let (fuel, result, ends) = rw (append-nil queue) at (go [] tt (errors ++ e ∷ [])) in
        (suc fuel, result, λ k. rw (suc-add, failed, execute_queue) (ends k))
  ]

  -- `xs` is what remains of one round and `ys` what it has added.
  Ends-round :
      (n : ℕ) (s : Services) (xs ys : List ConsensusEffect) (errors : List Error)
      → Under (suc n) xs
      → Under n ys
      → ((s' : Services) (queue : List ConsensusEffect) (errors' : List Error)
          → Under n queue
          → Ends s' queue errors')
      → Ends s (xs ++ ys) errors
  Ends-round n s [] ys errors hx hy rest = rest s ys errors hy
  Ends-round n s (x ∷ xs) ys errors hx hy rest = Ends-next s x (xs ++ ys) errors (λ more h errors'.
      rw append_assoc (
        Ends-round n (execute_effect env s x).0 xs (ys ++ more) errors' hx.1
          (Under-append n ys more hy (Under-le (rank x) n more (omega (arith, hx.0)) h)) rest))

  Ends-Under :
      (n : ℕ) (s : Services) (queue : List ConsensusEffect) (errors : List Error)
      → Under n queue
      → Ends s queue errors
  unfolding execute_queue
  Ends-Under zero s [] errors h = (1, (s, errors), λ more. rw suc-add refl)
  Ends-Under zero s (x ∷ queue) errors h = absurd (omega (arith, h.0))
  Ends-Under (suc n) s queue errors h =
      rw (append-nil queue) at (Ends-round n s queue [] errors h tt (Ends-Under n))

  rank-bound : (queue : List ConsensusEffect) → Under 3 queue
  rank-bound [] = tt
  rank-bound (stage_client_transaction client_tx ∷ queue) = (omega arith, rank-bound queue)
  rank-bound (stage_raft_entries entries ∷ queue) = (omega arith, rank-bound queue)
  rank-bound (broadcast_client_transaction client_tx ∷ queue) = (omega arith, rank-bound queue)
  rank-bound (propose_block h ∷ queue) = (omega arith, rank-bound queue)
  rank-bound (send_raft_append_entries to term index prev entries commit ∷ queue) =
      (omega arith, rank-bound queue)
  rank-bound (commit_block h ∷ queue) = (omega arith, rank-bound queue)
  rank-bound (rollback_block h ∷ queue) = (omega arith, rank-bound queue)
  rank-bound (broadcast body ∷ queue) = (omega arith, rank-bound queue)
  rank-bound (send_to to body ∷ queue) = (omega arith, rank-bound queue)

  -- For every state and list of effects there is a fuel from which on the queue of execute_all
  -- ends, with one result whatever the fuel.
  pub execute_queue-Ends :
      (s : Services) (queue : List ConsensusEffect) (errors : List Error) → Ends s queue errors
  execute_queue-Ends s queue errors = Ends-Under 3 s queue errors (rank-bound queue)
