-- ===== src/Raft/Replication/Advance.antt =====
-- The entry at which `advance_commit_index` (src/peer/consensus/raft/replication.rs) stops.
use rustchain.Base.{
  ℕ, suc, ◌+◌, max, ◌≤◌, ◌<◌, ◌≡◌, refl, sym, ◌∙◌, ap, true, List, [], ◌∷◌, ◌++◌, reverse, length,
  arith, nat_eq, if◌then◌else◌, Bool-cases, inl, inr, ◌⊎◌,
}
use mathlib.Core.List.{reverse-cons, append_assoc, append-nil}
use rustchain.Data.{RaftLogEntry}
use rustchain.Raft.Log.Numbered.{Numbered}
use rustchain.Raft.State.{RaftConsensus}
use rustchain.Raft.Election.{majority}
use rustchain.Raft.Replication.Leader.{
  can_commit, replicated_count, newest_committable, advance_commit_index,
}
use rustchain.Raft.Replication.Safety.{IsSound}

-- The entry stands in the log.
abbrev pub Has : RaftLogEntry → List RaftLogEntry → Type 0
Has e [] = ⊥
Has e (x ∷ xs) = (x ≡ e) ⊎ Has e xs

-- The leader may commit an entry: it is of its term, not yet committed, and with a majority.
pub record IsCommittable (r : RaftConsensus) (e : RaftLogEntry) : Type 0 where
  pub own_term : e.term ≡ r.current_term
  pub uncommitted : r.commit_index < e.index
  pub with_majority : majority r ≤ replicated_count r e.index

IsCommittable-can :
    (r : RaftConsensus) (e : RaftLogEntry) → can_commit r e ≡ true → IsCommittable r e
unfolding can_commit
IsCommittable-can r e h = record {
  own_term = ground arith;
  uncommitted = ground arith;
  with_majority = ground arith;
}

can-IsCommittable :
    (r : RaftConsensus) (e : RaftLogEntry) → IsCommittable r e → can_commit r e ≡ true
unfolding can_commit
can-IsCommittable r e h = ground arith

uncommitted-can :
    (r : RaftConsensus) (e : RaftLogEntry) → can_commit r e ≡ true → r.commit_index < e.index
uncommitted-can r e h = (IsCommittable-can r e h).uncommitted

module _ (r : RaftConsensus) where
  -- The loop run forwards: the last entry that can be committed, or `d`.
  last_committable : ℕ → List RaftLogEntry → ℕ
  last_committable d [] = d
  last_committable d (x ∷ xs) = last_committable (if can_commit r x then x.index else d) xs

  newest-reverse :
      (xs ys : List RaftLogEntry)
      → newest_committable r (reverse xs ++ ys) ≡ last_committable (newest_committable r ys) xs
  unfolding newest_committable last_committable
  newest-reverse [] ys = refl
  newest-reverse (x ∷ xs) ys = rw (reverse-cons x xs, append_assoc) (newest-reverse xs (x ∷ ys))

  newest-last : newest_committable r (reverse r.log) ≡ last_committable r.commit_index r.log
  newest-last =
      ap (newest_committable r) (sym (append-nil (reverse r.log)))
      ∙ newest-reverse r.log []
      ∙ (unfold newest_committable in refl)

  last_committable_bounds :
      (d n : ℕ) (xs : List RaftLogEntry)
      → Numbered n xs
      → d ≤ max r.commit_index n
      → (d ≤ last_committable d xs) × (last_committable d xs ≤ max d (n + length xs))
  unfolding last_committable
  last_committable_bounds d n [] h le = (omega arith, omega arith)
  last_committable_bounds d n (x ∷ xs) h le = ground (
    arith,
    last_committable_bounds d (suc n) xs h.1,
    last_committable_bounds x.index (suc n) xs h.1,
    uncommitted-can r x,
  )

  last_committable_newest :
      (d n : ℕ) (xs : List RaftLogEntry) (e : RaftLogEntry)
      → Numbered n xs
      → d ≤ max r.commit_index n
      → Has e xs
      → can_commit r e ≡ true
      → e.index ≤ last_committable d xs
  unfolding last_committable
  last_committable_newest d n [] e h le has can = absurd has
  last_committable_newest d n (x ∷ xs) e h le (inl same) can =
      let here : can_commit r x ≡ true = ap (can_commit r) same ∙ can in
      rw here (
        omega (
          arith,
          ap (λ (y : RaftLogEntry). y.index) same,
          last_committable_bounds x.index (suc n) xs h.1 (omega arith),
        ))
  last_committable_newest d n (x ∷ xs) e h le (inr later) can = ground (
    arith,
    last_committable_newest d (suc n) xs e h.1 (omega arith) later can,
    last_committable_newest x.index (suc n) xs e h.1 (omega arith) later can,
    uncommitted-can r x,
  )

  last_committable_from :
      (d : ℕ) (xs : List RaftLogEntry)
      → (last_committable d xs ≡ d)
        ⊎ ((e : RaftLogEntry) × Has e xs
            × (can_commit r e ≡ true)
            × (e.index ≡ last_committable d xs))
  unfolding last_committable
  last_committable_from d [] = inl refl
  last_committable_from d (x ∷ xs) = elim (Bool-cases (can_commit r x)) [
    | inr no_ ↦ rw no_ (elim (last_committable_from d xs) [
      | inl same ↦ inl same
      | inr (e, has, can, at) ↦ inr (e, inr has, can, at)
    ])
    | inl here ↦ rw here (elim (last_committable_from x.index xs) [
      | inl same ↦ inr (x, inl refl, here, sym same)
      | inr (e, has, can, at) ↦ inr (e, inr has, can, at)
    ])
  ]

  commit-advance : (advance_commit_index r).0.commit_index ≡ last_committable r.commit_index r.log
  unfolding advance_commit_index
  commit-advance = newest-last

module _ (r : RaftConsensus) (s : IsSound r) where
  -- For a log numbered from 1 that reaches its commit index, advance_commit_index moves the commit
  -- index, if at all, to an uncommitted entry of the leader's own term that a majority of the
  -- participants has, to the newest such one, never backwards and never past the log.
  pub advance_commits_majority :
      let k = (advance_commit_index r).0.commit_index in
      ((k ≡ r.commit_index)
        ⊎ ((e : RaftLogEntry) × Has e r.log × IsCommittable r e × (e.index ≡ k)))
      × ((e : RaftLogEntry) → Has e r.log → IsCommittable r e → e.index ≤ k)
      × (r.commit_index ≤ k)
      × (k ≤ length r.log)
  advance_commits_majority =
      let bounds : (r.commit_index ≤ last_committable r r.commit_index r.log)
          × (last_committable r r.commit_index r.log ≤ length r.log) =
        let (low, high) =
          last_committable_bounds r r.commit_index 0 r.log s.numbered (omega arith) in
        (low, omega (arith, high, s.covers)) in
      rw (commit-advance r) (
        elim (last_committable_from r r.commit_index r.log) [
          | inl same ↦ inl same
          | inr (e, has, can, at) ↦ inr (e, has, IsCommittable-can r e can, at)
        ],
        (λ e has can.
            last_committable_newest r r.commit_index 0 r.log e s.numbered (omega arith) has
              (can-IsCommittable r e can)),
        bounds.0,
        bounds.1,
      )
