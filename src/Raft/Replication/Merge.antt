-- ===== src/Raft/Replication/Merge.antt =====
-- `append_entries` against the rule of the Raft paper: the entries replace the log from the first
-- one whose term differs, and what the log has beyond them stays if no term differs.
use rustchain.Base.{
  ℕ, suc, ◌+◌, ◌-◌, ◌<◌, ◌^◌, ◌≡◌, refl, ◌∙◌, Bool, true, false, Option, none, some, List, [], ◌∷◌,
  ◌++◌, length, length-append, arith, nat_eq, ◌==◌, if◌then◌else◌, leb, Bool-cases, inl, inr,
}
use mathlib.Core.List.{append-nil, append_assoc}
use rustchain.Data.{BlockHash, RaftLogEntry}
use rustchain.Raft.Log.Numbered.{
  Numbered, Numbered-append, last_log_index-length, log_entry-split, take-length_append,
  Numbered-front, drop-length_append,
}
use rustchain.Raft.Replication.{block_hashes, place_entry, place_entries}

-- The rule: `old` is the log after the entry that the request names as the previous one.
unfoldable pub merge : List RaftLogEntry → List RaftLogEntry → List RaftLogEntry
merge old [] = old
merge [] (e ∷ es) = e ∷ es
merge (o ∷ os) (e ∷ es) = let rest = o ∷ merge os es in if o.term == e.term then rest else e ∷ es

-- The blocks that the rule drops from the log.
unfoldable pub dropped : List RaftLogEntry → List RaftLogEntry → List BlockHash
dropped old [] = []
dropped [] (e ∷ es) = []
dropped (o ∷ os) (e ∷ es) =
    let rest = dropped os es in if o.term == e.term then rest else block_hashes (o ∷ os)

-- Is the first entry whose term differs a committed one? `n` entries stand before.
unfoldable pub overrules : ℕ → ℕ → List RaftLogEntry → List RaftLogEntry → Bool
overrules commit_index n old [] = false
overrules commit_index n [] (e ∷ es) = false
overrules commit_index n (o ∷ os) (e ∷ es) =
    let rest = overrules commit_index (suc n) os es in
    if o.term == e.term then rest else leb (suc n) commit_index

module _ (c : ℕ) (pre : List RaftLogEntry) (d : List BlockHash) where
  -- Behind the end of the log an entry is appended.
  place_new :
      (e : RaftLogEntry)
      → Numbered 0 pre
      → e.index ≡ suc (length pre)
      → length pre + 1 < 2 ^ 64
      → place_entry c e pre d ≡ (pre ++ e ∷ [], some d)
  unfolding place_entry
  place_new e hp he small =
      ground (arith, last_log_index-length pre hp, log_entry-split pre [], append-nil pre, he)

  module _ (o : RaftLogEntry) (os : List RaftLogEntry) (e : RaftLogEntry)
      (numbered : Numbered 0 (pre ++ o ∷ os)) (he : e.index ≡ suc (length pre)) where
    place_same :
        (o.term == e.term) ≡ true → place_entry c e (pre ++ o ∷ os) d ≡ (pre ++ o ∷ os, some d)
    unfolding place_entry
    place_same same = ground (arith, log_entry-split pre (o ∷ os) numbered, he)

    place_overruled :
        (o.term == e.term) ≡ false
        → leb (suc (length pre)) c ≡ true
        → place_entry c e (pre ++ o ∷ os) d ≡ (pre ++ o ∷ os, none)
    unfolding place_entry
    place_overruled differ low = ground (arith, log_entry-split pre (o ∷ os) numbered, he)

    place_replacing :
        (o.term == e.term) ≡ false
        → leb (suc (length pre)) c ≡ false
        → place_entry c e (pre ++ o ∷ os) d ≡ (pre ++ e ∷ [], some (d ++ block_hashes (o ∷ os)))
    unfolding place_entry
    place_replacing differ high =
        let at_front : e.index - 1 ≡ length pre = omega arith in
        ground (
          arith,
          log_entry-split pre (o ∷ os) numbered,
          he,
          at_front,
          take-length_append pre (o ∷ os),
          drop-length_append pre (o ∷ os),
        )

place_entries-some :
    (c : ℕ) (e : RaftLogEntry) (es log log' : List RaftLogEntry) (d d' : List BlockHash)
    → place_entry c e log d ≡ (log', some d')
    → place_entries c (e ∷ es) log d ≡ place_entries c es log' d'
unfolding place_entries
place_entries-some c e es log log' d d' h = ground (arith, h)

place_entries-none :
    (c : ℕ) (e : RaftLogEntry) (es log : List RaftLogEntry) (d : List BlockHash)
    → place_entry c e log d ≡ (log, none)
    → place_entries c (e ∷ es) log d ≡ (log, none)
unfolding place_entries
place_entries-none c e es log d h = ground (arith, h)

length-snoc :
    (pre : List RaftLogEntry) (e : RaftLogEntry) → length (pre ++ e ∷ []) ≡ suc (length pre)
length-snoc pre e = omega (arith, length-append pre (e ∷ []))

Numbered-snoc :
    (pre : List RaftLogEntry) (e : RaftLogEntry)
    → Numbered 0 pre
    → e.index ≡ suc (length pre)
    → Numbered 0 (pre ++ e ∷ [])
Numbered-snoc pre e hp he = Numbered-append 0 pre (e ∷ []) hp (omega arith, tt)

-- The loop with nothing left in the log to compare with.
place_past :
    (c : ℕ) (pre es : List RaftLogEntry) (d : List BlockHash)
    → Numbered 0 pre
    → Numbered (length pre) es
    → length pre + length es < 2 ^ 64
    → place_entries c es pre d ≡ (pre ++ es, some d)
place_past c pre [] d hp he small = unfold place_entries in rw append-nil refl
place_past c pre (e ∷ es) d hp he small =
    place_entries-some c e es pre (pre ++ e ∷ []) d d (place_new c pre d e hp he.0 (omega arith))
    ∙ place_past c (pre ++ e ∷ []) es d (Numbered-snoc pre e hp he.0) (rw (length-snoc pre e) he.1)
        (omega (arith, length-snoc pre e))
    ∙ rw append_assoc refl

abbrev pub ruled :
    ℕ
    → List RaftLogEntry
    → List RaftLogEntry
    → List RaftLogEntry
    → List BlockHash
    → List RaftLogEntry × Option (List BlockHash)
ruled c pre old es d =
    if overrules c (length pre) old es
    then (pre ++ old, none)
    else (pre ++ merge old es, some (d ++ dropped old es))

-- The loop of append_entries over entries in a row computes the merge rule of the Raft paper by
-- position, with the hashes that it drops, and stops with the log as it was where a committed
-- entry has another term.
pub place_entries-ruled :
    (c : ℕ) (pre old es : List RaftLogEntry) (d : List BlockHash)
    → Numbered 0 (pre ++ old)
    → Numbered (length pre) es
    → length pre + length es < 2 ^ 64
    → place_entries c es (pre ++ old) d ≡ ruled c pre old es d
unfolding overrules merge dropped
place_entries-ruled c pre old [] d hp he small = unfold place_entries in rw append-nil refl
place_entries-ruled c pre [] (e ∷ es) d hp he small =
    rw (append-nil pre, append-nil d)
      (place_past c pre (e ∷ es) d (rw (append-nil pre) at hp) he small)
place_entries-ruled c pre (o ∷ os) (e ∷ es) d hp he small = elim (Bool-cases (o.term == e.term)) [
  | inl same ↦ rw same (
      place_entries-some c e es _ _ d d (place_same c pre d o os e hp he.0 same)
      ∙ (simp (length-snoc, append_assoc) at
          (place_entries-ruled c (pre ++ o ∷ []) os es d (rw append_assoc hp)
            (rw (length-snoc pre o) he.1) (omega (arith, length-snoc pre o)))))
  | inr differ ↦ elim (Bool-cases (leb (suc (length pre)) c)) [
    | inl low ↦
        rw (differ, low)
          (place_entries-none c e es _ d (place_overruled c pre d o os e hp he.0 differ low))
    | inr high ↦
        rw (differ, high)
          (place_entries-some c e es _ (pre ++ e ∷ []) d _
              (place_replacing c pre d o os e hp he.0 differ high)
            ∙ place_past c (pre ++ e ∷ []) es _
                (Numbered-snoc pre e (Numbered-front pre (o ∷ os) hp) he.0)
                (rw (length-snoc pre e) he.1) (omega (arith, length-snoc pre e))
            ∙ rw append_assoc refl)
  ]
]
