-- ===== src/Effects/Termination/Ranks.antt =====
-- Which effects the engine of src/peer/consensus.rs adds when one is executed (src/peer/effects.rs).
use rustchain.Base.{
  ℕ, ◌≤◌, ◌<◌, ◌≡◌, Bool, true, not, ◌||◌, some, List, [], ◌∷◌, ◌++◌, map, Result, ok, err, ◌>>◌,
  arith, nat_eq, ltb, leb, ◌&&◌, keep_some, keep, Bool-cases, Option-cases, Result-cases, inl, inr,
  ◌==◌,
}
use rustchain.Base.Dict
use rustchain.Data.{
  BlockHash, PeerId, RaftLogEntry, ConsensusEffect, stage_client_transaction, propose_block,
  commit_block, Error,
}
use rustchain.Engine
use rustchain.Engine.{ConsensusEngine, voting, raft}
use rustchain.Env.{Env}
use rustchain.Raft.State.{RaftConsensus}
use rustchain.Raft.Election.{is_leader}
use rustchain.Raft.Handlers
use rustchain.Raft.Replication.{commit_effects, block_hashes, persist_log}
use rustchain.Raft.Replication.Leader.{
  append_own_entry, append_local_block, append_entries_effects_for_followers,
  append_entries_effect_for, advance_commit_index, ensure_no_uncommitted_block,
}
use rustchain.Voting
use rustchain.Voting.{
  outcome_effects, ConsensusOutcome, approved, rejected, pending, VotingConsensus, vote_on,
  already_voted, is_decided,
}

-- How many rounds of added effects may follow an effect.
abbrev pub rank : ConsensusEffect → ℕ
rank (stage_client_transaction client_tx) = 2
rank (propose_block block_hash) = 1
rank _ = 0

-- Effects below a rank, and what a result adds.
abbrev pub Under : ℕ → List ConsensusEffect → Type 0
Under n [] = Unit
Under n (x ∷ xs) = (rank x < n) × Under n xs

abbrev pub AddsUnder : ℕ → Result Error (List ConsensusEffect) → Type 0
AddsUnder n (ok more) = Under n more
AddsUnder n (err e) = Unit

pub Under-append :
    (n : ℕ) (xs ys : List ConsensusEffect) → Under n xs → Under n ys → Under n (xs ++ ys)
Under-append n [] ys hx hy = hy
Under-append n (x ∷ xs) ys hx hy = (hx.0, Under-append n xs ys hx.1 hy)

pub Under-le : (m n : ℕ) (xs : List ConsensusEffect) → m ≤ n → Under m xs → Under n xs
Under-le m n [] le h = tt
Under-le m n (x ∷ xs) le h = (omega (arith, h.0), Under-le m n xs le h.1)

pub commits-Under : (hashes : List BlockHash) → Under 1 (map commit_block hashes)
commits-Under [] = tt
commits-Under (h ∷ hashes) = (omega arith, commits-Under hashes)

pub effect_for-rank :
    (r : RaftConsensus) (p : PeerId) (x : ConsensusEffect)
    → append_entries_effect_for r p ≡ some x
    → rank x < 1
unfolding append_entries_effect_for
effect_for-rank r p x h = ground arith

pub sends-Under :
    (r : RaftConsensus) (peers : List PeerId)
    → Under 1 (keep_some (append_entries_effect_for r) peers)
unfolding keep_some
sends-Under r [] = tt
sends-Under r (p ∷ ps) = elim (Option-cases (append_entries_effect_for r p)) [
  | inl nothing ↦ rw (nothing, keep_some) (sends-Under r ps)
  | inr (x, e) ↦ rw (e, keep_some) (effect_for-rank r p x e, sends-Under r ps)
]

pub after-Under :
    (n : ℕ) (done : Result Error (Unit {0})) (more : List ConsensusEffect)
    → Under n more
    → AddsUnder n (do done; ok more)
after-Under n (ok _) more h = h
after-Under n (err e) more h = tt

pub append_own_entry-Under :
    (env : Env) (r : RaftConsensus) (entry : RaftLogEntry)
    → AddsUnder 1 (append_own_entry env r entry).1
unfolding append_own_entry append_entries_effects_for_followers advance_commit_index commit_effects
append_own_entry-Under env r entry =
    let pushed = record r {
      log = r.log ++ entry ∷ [];
      match_indexes = Dict.insert r.peer_id entry.index r.match_indexes;
    } in
    let followers = keep (λ peer_id. not (peer_id == r.peer_id)) r.participants in
    let commit = (advance_commit_index pushed).0.commit_index in
    after-Under 1 (persist_log env (advance_commit_index pushed).0).1 _ (
      Under-append 1 (append_entries_effects_for_followers pushed) (advance_commit_index pushed).1
        (sends-Under pushed followers)
        (commits-Under
          (block_hashes (keep (λ e. ltb r.commit_index e.index && leb e.index commit) pushed.log))))

pub append_local_block-Under :
    (env : Env) (r : RaftConsensus) (block_hash : BlockHash)
    → AddsUnder 1 (append_local_block env r block_hash).1
unfolding append_local_block
append_local_block-Under env r block_hash = elim (Result-cases (ensure_no_uncommitted_block r)) [
  | inr (e, refused) ↦ rw (refused, append_local_block) tt
  | inl (_, free) ↦ rw (free, append_local_block) (append_own_entry-Under env r _)
]

pub AddsUnder-le :
    (m n : ℕ) (result : Result Error (List ConsensusEffect))
    → m ≤ n
    → AddsUnder m result
    → AddsUnder n result
AddsUnder-le m n (ok more) le h = Under-le m n more le h
AddsUnder-le m n (err e) le h = tt

pub votes-Under :
    (block_hash : BlockHash) (outcome : ConsensusOutcome)
    → Under 1 (outcome_effects block_hash outcome)
unfolding outcome_effects
votes-Under h approved = (omega arith, (omega arith, tt))
votes-Under h rejected = (omega arith, (omega arith, tt))
votes-Under h pending = tt

pub on_block_created-Under :
    (env : Env) (c : ConsensusEngine) (block_hash : BlockHash)
    → AddsUnder 2 (Engine.on_block_created env c block_hash).1
unfolding Engine.on_block_created Handlers.on_block_created Voting.on_block_created
on_block_created-Under env (voting peer_id votings) h = (omega arith, tt)
on_block_created-Under env (raft r) h = elim (Bool-cases (is_leader r.role)) [
  | inl leads ↦
      rw (leads, Handlers.on_block_created)
        (AddsUnder-le 1 2 _ (omega arith) (append_local_block-Under env r h))
  | inr follows ↦ rw (follows, Handlers.on_block_created) tt
]

pub vote_on-Under :
    (v : VotingConsensus) (h : BlockHash) (from : PeerId) (approve : Bool)
    → Under 1 (vote_on v h from approve).1
unfolding vote_on
vote_on-Under v h from approve = elim (Bool-cases (already_voted v from || is_decided v)) [
  | inl done ↦ rw (done, vote_on) tt
  | inr open_ ↦ rw (open_, vote_on) (votes-Under h _)
]

pub on_local_block_proposed-Under :
    (c : ConsensusEngine) (h : BlockHash) (peers : List PeerId)
    → AddsUnder 1 (Engine.on_local_block_proposed c h peers).1
unfolding Engine.on_local_block_proposed Voting.on_local_block_proposed Voting.handle_voting_vote
on_local_block_proposed-Under (voting peer_id votings) h peers = vote_on-Under _ h peer_id true
on_local_block_proposed-Under (raft r) h peers = tt
