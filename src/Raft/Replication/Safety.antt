-- ===== src/Raft/Replication/Safety.antt =====
-- `append_entries` of src/peer/consensus/raft/replication.rs as a whole, by the merge rule.
use rustchain.Base.{
  ℕ, ◌+◌, ◌≤◌, ◌<◌, ◌^◌, ◌≡◌, refl, Bool, not, ◌&&◌, none, some, List, [], ◌++◌, length,
  length-take, take-append-drop, take, drop, arith, nat_eq, if◌then◌else◌, Bool-cases, inl, inr,
}
use rustchain.Data.{RaftLogEntry}
use rustchain.Raft.Log.{has_term, entries_are_contiguous_after}
use rustchain.Raft.Log.Numbered.{Numbered, has_term-le, entries_are_contiguous_after-Numbered}
use rustchain.Raft.State.{RaftConsensus}
use rustchain.Raft.Replication.{place_entries, finish_append, append_entries}
use rustchain.Raft.Replication.Merge.{merge, dropped, overrules, place_entries-ruled}

-- The log carries its positions and covers what is committed.
pub record IsSound (r : RaftConsensus) : Type 0 where
  pub numbered : Numbered 0 r.log
  pub covers : r.commit_index ≤ length r.log

-- Is the request's place in the log, are its entries in a row, and does no committed one differ?
abbrev pub accepts : RaftConsensus → ℕ → ℕ → List RaftLogEntry → Bool
accepts r p t entries =
    has_term r.log p t
    && entries_are_contiguous_after p entries
    && not (overrules r.commit_index p (drop p r.log) entries)

-- The log after the rule of the Raft paper.
abbrev pub merged : RaftConsensus → ℕ → List RaftLogEntry → List RaftLogEntry
merged r p entries = take p r.log ++ merge (drop p r.log) entries

pub length-front : (p : ℕ) (log : List RaftLogEntry) → p ≤ length log → length (take p log) ≡ p
length-front p log le = omega (arith, length-take p log)

-- The loop, from the whole log and the place of the request in it.
place_entries-at :
    (c p : ℕ) (log entries : List RaftLogEntry)
    → Numbered 0 log
    → p ≤ length log
    → Numbered p entries
    → p + length entries < 2 ^ 64
    → place_entries c entries log [] ≡ (
        if overrules c p (drop p log) entries
        then (log, none)
        else (take p log ++ merge (drop p log) entries, some (dropped (drop p log) entries)))
place_entries-at c p log entries numbered le row small =
    simp (take-append-drop, length-front p log le) at
      (place_entries-ruled c (take p log) (drop p log) entries []
        (rw (take-append-drop p log) numbered) (rw (length-front p log le) row)
        (omega (arith, length-front p log le)))

-- For a log numbered from 1 that reaches its commit index, append_entries returns the state
-- unchanged and no effects if the request does not fit or overrules a committed entry, and
-- otherwise leaves the merged log with the effects of the end of the function.
pub append_entries-merged :
    (r : RaftConsensus) (p t : ℕ) (entries : List RaftLogEntry) (leader_commit : ℕ)
    → IsSound r
    → p + length entries < 2 ^ 64
    → append_entries r p t entries leader_commit ≡ (
        if accepts r p t entries
        then finish_append r entries leader_commit
            (merged r p entries, some (dropped (drop p r.log) entries))
        else (r, none))
unfolding append_entries
append_entries-merged r p t entries lc s small = elim (Bool-cases (has_term r.log p t)) [
  | inr absent ↦ rw (absent, append_entries) refl
  | inl there ↦ elim (Bool-cases (entries_are_contiguous_after p entries)) [
    | inr gaps ↦ rw (there, gaps, append_entries) refl
    | inl row ↦
        rw (there, row, append_entries)
          (rw
            (place_entries-at r.commit_index p r.log entries s.numbered
              (has_term-le r.log p t s.numbered there)
              (entries_are_contiguous_after-Numbered p entries small row) small)
            (elim (Bool-cases (overrules r.commit_index p (drop p r.log) entries)) [
              | inl clash ↦ rw clash (unfold finish_append in refl)
              | inr clear ↦ rw clear refl
            ]))
  ]
]
