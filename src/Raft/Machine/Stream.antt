-- ===== src/Raft/Machine/Stream.antt =====
-- The commit effects of the Raft engine: what `commit_effects` emits for a range of the log.
pub mod Handlers
pub mod Own
pub mod Runs
use rustchain.Base.{
  ℕ, zero, suc, ◌+◌, ◌-◌, ◌≤◌, ◌<◌, ◌≡◌, refl, sym, ◌∙◌, ap, Bool, true, false, not, ◌&&◌, List, [],
  ◌∷◌, ◌++◌, map, Result, ok, err, length, take, keep, keep_some, arith, nat_eq, ltb, leb,
  if◌then◌else◌, Bool-cases, Option-cases, some, inl, inr, is_empty, ◌==◌,
}
use native.Mathlib.Decide.{dec_le}
use native.Mathlib.Numerals.{unary_clauses}
use mathlib.Core.List.{append_assoc, append-nil}
use rustchain.Data.{
  BlockHash, PeerId, RaftLogEntry, is_noop, ConsensusEffect, commit_block, rollback_block,
  stage_client_transaction, stage_raft_entries, broadcast_client_transaction, propose_block,
  send_raft_append_entries, broadcast, send_to,
}
use rustchain.Raft.Log.Numbered.{Numbered}
use rustchain.Raft.Replication.{block_hashes, commit_effects, stage_effects}
use rustchain.Raft.Replication.Leader.{append_entries_effect_for}
use rustchain.Raft.State.{RaftConsensus}

-- The blocks that the effects commit, in their order.
abbrev pub commits : List ConsensusEffect → List BlockHash
commits [] = []
commits (commit_block h ∷ effects) = h ∷ commits effects
commits (_ ∷ effects) = commits effects

-- The blocks of the committed entries.
abbrev pub committed : RaftConsensus → List BlockHash
committed r = block_hashes (take r.commit_index r.log)

pub commits-append : (xs ys : List ConsensusEffect) → commits (xs ++ ys) ≡ commits xs ++ commits ys
commits-append [] ys = refl
commits-append (stage_client_transaction client_tx ∷ xs) ys = commits-append xs ys
commits-append (stage_raft_entries entries ∷ xs) ys = commits-append xs ys
commits-append (broadcast_client_transaction client_tx ∷ xs) ys = commits-append xs ys
commits-append (propose_block h ∷ xs) ys = commits-append xs ys
commits-append (send_raft_append_entries to term index prev entries commit ∷ xs) ys =
    commits-append xs ys
commits-append (commit_block h ∷ xs) ys = ap (λ hs. h ∷ hs) (commits-append xs ys)
commits-append (rollback_block h ∷ xs) ys = commits-append xs ys
commits-append (broadcast body ∷ xs) ys = commits-append xs ys
commits-append (send_to to body ∷ xs) ys = commits-append xs ys

take_none : (n : ℕ) → take {A = RaftLogEntry} n [] ≡ []
take_none zero = refl
take_none (suc n) = refl

pub commits-map : (hashes : List BlockHash) → commits (map commit_block hashes) ≡ hashes
commits-map [] = refl
commits-map (h ∷ hashes) = ap (λ hs. h ∷ hs) (commits-map hashes)

pub commits-rollbacks : (hashes : List BlockHash) → commits (map rollback_block hashes) ≡ []
commits-rollbacks [] = refl
commits-rollbacks (h ∷ hashes) = commits-rollbacks hashes

pub commits-stage : (entries : List RaftLogEntry) → commits (stage_effects entries) ≡ []
unfolding stage_effects
commits-stage entries = ground arith

pub effect_for-commits :
    (r : RaftConsensus) (p : PeerId) (x : ConsensusEffect)
    → append_entries_effect_for r p ≡ some x
    → commits (x ∷ []) ≡ []
unfolding append_entries_effect_for
effect_for-commits r p x h = ground arith

pub commits-sends :
    (r : RaftConsensus) (peers : List PeerId)
    → commits (keep_some (append_entries_effect_for r) peers) ≡ []
unfolding keep_some
commits-sends r [] = refl
commits-sends r (p ∷ ps) = elim (Option-cases (append_entries_effect_for r p)) [
  | inl nothing ↦ rw (nothing, keep_some) (commits-sends r ps)
  | inr (x, e) ↦
      rw (e, keep_some)
        (commits-append (x ∷ []) (keep_some (append_entries_effect_for r) ps)
          ∙ rw (effect_for-commits r p x e) (commits-sends r ps))
]

-- The entries of a numbered log in a range of indexes.
abbrev between : ℕ → ℕ → List RaftLogEntry → List RaftLogEntry
between low high xs = keep (λ (e : RaftLogEntry). ltb low e.index && leb e.index high) xs

take-between :
    (n low high : ℕ) (xs : List RaftLogEntry)
    → Numbered n xs
    → low ≤ high
    → take (high - n) xs ≡ take (low - n) xs ++ between low high xs
unfolding keep
take-between n low high [] h le =
    take_none (high - n) ∙ ap (λ l. l ++ []) (sym (take_none (low - n)))
take-between n low high (x ∷ xs) h le =
    let rest = take-between (suc n) low high xs h.1 le in
    elim (dec_le high n) [
      | yes below ↦
          let a : high - n ≡ 0 = omega arith in
          let b : low - n ≡ 0 = omega arith in
          let c : high - suc n ≡ 0 = omega arith in
          let d : low - suc n ≡ 0 = omega arith in
          rw (a, b) (ground (arith, h.0, rw (c, d) at rest))
      | no above ↦
          let a : high - n ≡ suc (high - suc n) = omega arith in
          elim (dec_le low n) [
            | yes within ↦
                let b : low - n ≡ 0 = omega arith in
                let d : low - suc n ≡ 0 = omega arith in
                rw (a, b) (ground (arith, h.0, rw d at rest))
            | no beyond ↦
                let b : low - n ≡ suc (low - suc n) = omega arith in
                rw (a, b) (ground (arith, h.0, rest))
          ]
    ]

block_hashes-append :
    (xs ys : List RaftLogEntry) → block_hashes (xs ++ ys) ≡ block_hashes xs ++ block_hashes ys
unfolding block_hashes keep
block_hashes-append [] ys = refl
block_hashes-append (x ∷ xs) ys = ground (arith, block_hashes-append xs ys)

-- A commit from one index to a later one emits the blocks of the entries between.
pub commits-commit_effects :
    (log : List RaftLogEntry) (low high : ℕ)
    → Numbered 0 log
    → low ≤ high
    → block_hashes (take high log)
      ≡ block_hashes (take low log) ++ commits (commit_effects log low high)
unfolding commit_effects
commits-commit_effects log low high h le =
    ap block_hashes (simp unary_clauses at (take-between 0 low high log h le))
    ∙ block_hashes-append (take low log) (between low high log)
    ∙ ap (λ hs. block_hashes (take low log) ++ hs)
        (sym (commits-map (block_hashes (between low high log))))
