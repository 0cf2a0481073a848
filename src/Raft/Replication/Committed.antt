-- ===== src/Raft/Replication/Committed.antt =====
-- Committed history under `append_entries` (src/peer/consensus/raft/replication.rs).
use rustchain.Base.{
  ℕ, zero, suc, ◌+◌, ◌-◌, ◌≤◌, ◌<◌, ◌^◌, min, max, ◌≡◌, refl, sym, ◌∙◌, ap, true, false, none, some,
  List, [], ◌∷◌, ◌++◌, map, length, length-append, length-take, length-drop, take-append-drop,
  take-append_add, take-append_le, take, drop, take_all, take-front, drop-front, arith, nat_eq,
  Bool-cases, inl, inr, ◌⊎◌,
}
use native.Mathlib.Decide.{dec_le}
use native.Mathlib.Nat.{zero-add}
use rustchain.Data.{RaftLogEntry, ConsensusEffect, rollback_block}
use rustchain.Raft.Log.{last_log_index, has_term, entries_are_contiguous_after}
use rustchain.Raft.Log.Numbered.{
  Numbered, Numbered-append, Numbered-front, Numbered-rest, last_log_index-length, has_term-le,
  entries_are_contiguous_after-Numbered,
}
use rustchain.Raft.State.{RaftConsensus}
use rustchain.Raft.Replication.{
  finish_append, append_entries, stage_effects, to_stage, commit_effects,
}
use rustchain.Raft.Replication.Merge.{merge, dropped, overrules}
use rustchain.Raft.Replication.Safety.{
  IsSound, accepts, merged, append_entries-merged, length-front,
}

-- Up to the commit index the rule keeps the log, unless it overrules a committed entry.
take-merge :
    (c k n : ℕ) (old es : List RaftLogEntry)
    → c ≡ n + k
    → k ≤ length old
    → overrules c n old es ≡ false
    → take k (merge old es) ≡ take k old
unfolding merge overrules
take-merge c k n old [] e le h = refl
take-merge c zero n [] (x ∷ es) e le h = refl
take-merge c (suc k) n [] (x ∷ es) e le h = absurd (omega arith)
take-merge c zero n (o ∷ os) (x ∷ es) e le h = refl
take-merge c (suc k) n (o ∷ os) (x ∷ es) e le h = ground (arith, take-merge c k (suc n) os es)

Numbered-merge :
    (n : ℕ) (old es : List RaftLogEntry)
    → Numbered n old
    → Numbered n es
    → Numbered n (merge old es)
unfolding merge
Numbered-merge n old [] ho he = ho
Numbered-merge n [] (e ∷ es) ho he = he
Numbered-merge n (o ∷ os) (e ∷ es) ho he = ground (arith, Numbered-merge (suc n) os es ho.1 he.1)

length-merge-le : (old es : List RaftLogEntry) → length es ≤ length (merge old es)
unfolding merge
length-merge-le old [] = omega arith
length-merge-le [] (e ∷ es) = omega arith
length-merge-le (o ∷ os) (e ∷ es) = ground (arith, length-merge-le os es)

abbrev pub terms : List RaftLogEntry → List ℕ
terms [] = []
terms (e ∷ es) = e.term ∷ terms es

-- The terms of the merged log are those of the entries, as far as these go.
terms-merge : (old es : List RaftLogEntry) → terms (take (length es) (merge old es)) ≡ terms es
unfolding merge
terms-merge old [] = refl
terms-merge [] (e ∷ es) = ap (λ l. e.term ∷ terms l) (take_all (length es) es (omega arith))
terms-merge (o ∷ os) (e ∷ es) = ground (arith, terms-merge os es, take_all (length es) es)

-- A front of two lists that begin alike.
take-same_front :
    (c : ℕ) (xs ys zs : List RaftLogEntry)
    → ((k : ℕ) → c ≡ length xs + k → take k ys ≡ take k zs)
    → take c (xs ++ ys) ≡ take c (xs ++ zs)
take-same_front c xs ys zs beyond = elim (dec_le c (length xs)) [
  | yes le ↦ take-append_le c xs ys le ∙ sym (take-append_le c xs zs le)
  | no gt ↦
      let e : c ≡ length xs + (c - length xs) = omega arith in
      rw e (
        take-append_add (c - length xs) xs ys
        ∙ ap (◌++◌ xs) (beyond (c - length xs) e)
        ∙ sym (take-append_add (c - length xs) xs zs))
]

module _ (r : RaftConsensus) (p : ℕ) (entries : List RaftLogEntry) (s : IsSound r)
    (le : p ≤ length r.log) where
  merged-committed :
      overrules r.commit_index p (drop p r.log) entries ≡ false
      → take r.commit_index (merged r p entries) ≡ take r.commit_index r.log
  merged-committed h =
      take-same_front r.commit_index (take p r.log) (merge (drop p r.log) entries) (drop p r.log)
        (λ k e.
          take-merge r.commit_index k p (drop p r.log) entries
            (omega (arith, length-front p r.log le))
            (omega (arith, length-drop p r.log, length-front p r.log le, s.covers)) h)
      ∙ ap (take r.commit_index) (take-append-drop p r.log)

  merged-Numbered : Numbered p entries → Numbered 0 (merged r p entries)
  merged-Numbered row =
      Numbered-append 0 (take p r.log) (merge (drop p r.log) entries)
        (Numbered-front (take p r.log) (drop p r.log) (rw (take-append-drop p r.log) s.numbered))
        (rw (zero-add, length-front p r.log le)
          (Numbered-merge p (drop p r.log) entries (Numbered-rest p r.log le s.numbered) row))

-- The state that an accepted request leaves, and the effects that it asks for.
abbrev pub appended : RaftConsensus → ℕ → List RaftLogEntry → ℕ → RaftConsensus
appended r p entries leader_commit = record r {
  log = merged r p entries;
  commit_index = max r.commit_index (min leader_commit (last_log_index (merged r p entries)));
}

abbrev pub append_effects : RaftConsensus → ℕ → List RaftLogEntry → ℕ → List ConsensusEffect
append_effects r p entries leader_commit =
    map rollback_block (dropped (drop p r.log) entries)
    ++ (stage_effects (to_stage r.commit_index entries)
        ++ commit_effects (merged r p entries) r.commit_index
            (appended r p entries leader_commit).commit_index)

module _ (r : RaftConsensus) (p t : ℕ) (entries : List RaftLogEntry) (leader_commit : ℕ)
    (s : IsSound r) (small : p + length entries < 2 ^ 64) where
  -- The two ways in which a request ends, with what the acceptance of it shows.
  pub append_entries-cases :
      (append_entries r p t entries leader_commit ≡ (r, none))
      ⊎ ((p ≤ length r.log)
          × Numbered p entries
          × (overrules r.commit_index p (drop p r.log) entries ≡ false)
          × (append_entries r p t entries leader_commit ≡ (
            appended r p entries leader_commit,
            some (append_effects r p entries leader_commit),
          )))
  append_entries-cases = elim (Bool-cases (accepts r p t entries)) [
    | inr refused ↦
        inl (append_entries-merged r p t entries leader_commit s small ∙ rw refused refl)
    | inl accepted ↦
        let there : has_term r.log p t ≡ true = ground arith in
        let row : entries_are_contiguous_after p entries ≡ true = ground arith in
        let clear : overrules r.commit_index p (drop p r.log) entries ≡ false = ground arith in
        inr (
          has_term-le r.log p t s.numbered there,
          entries_are_contiguous_after-Numbered p entries small row,
          clear,
          append_entries-merged r p t entries leader_commit s small
              ∙ rw (there, row, clear) (unfold finish_append in refl),
        )
  ]

  appended-IsSound :
      p ≤ length r.log
      → Numbered p entries
      → overrules r.commit_index p (drop p r.log) entries ≡ false
      → IsSound (appended r p entries leader_commit)
  appended-IsSound le row clear =
      let numbered = merged-Numbered r p entries s le row in
      let reach : r.commit_index ≤ length (merged r p entries) = omega (
        arith,
        ap length (merged-committed r p entries s le clear),
        length-take r.commit_index r.log,
        length-take r.commit_index (merged r p entries),
        s.covers,
      ) in
      record {
        numbered = numbered;
        covers = omega (arith, last_log_index-length (merged r p entries) numbered);
      }

  -- append_entries keeps a log numbered from 1 and covering the commit index, does not lower the
  -- commit index, and leaves the committed entries as they were, whatever the request holds as
  -- long as its indexes do not wrap.
  pub append_entries_keeps_committed :
      let next = (append_entries r p t entries leader_commit).0 in
      IsSound next
      × (r.commit_index ≤ next.commit_index)
      × (take r.commit_index next.log ≡ take r.commit_index r.log)
  append_entries_keeps_committed = elim append_entries-cases [
    | inl same ↦ rw same (s, omega arith, refl)
    | inr (le, row, clear, e) ↦
        rw e (appended-IsSound le row clear, omega arith, merged-committed r p entries s le clear)
  ]

  -- When append_entries accepts a request, the log before its place is unchanged, the entries from
  -- there have the terms of the request's, and the log reaches past all of them.
  pub append_entries_matches :
      {next : RaftConsensus} {effects : List ConsensusEffect}
      → append_entries r p t entries leader_commit ≡ (next, some effects)
      → (take p next.log ≡ take p r.log)
        × (terms (take (length entries) (drop p next.log)) ≡ terms entries)
        × (p + length entries ≤ length next.log)
  append_entries_matches {next} {effects} h = elim append_entries-cases [
    | inl same ↦ ground (arith, same, h)
    | inr (le, row, clear, e) ↦
        let log_eq : next.log ≡ merged r p entries = ground (arith, e, h) in
        rw log_eq (
          take-front p (take p r.log) _ (length-front p r.log le),
          rw (drop-front p (take p r.log) (merge (drop p r.log) entries) (length-front p r.log le))
              (terms-merge (drop p r.log) entries),
          omega (
            arith,
            length-append (take p r.log) (merge (drop p r.log) entries),
            length-front p r.log le,
            length-merge-le (drop p r.log) entries,
          ),
        )
  ]
