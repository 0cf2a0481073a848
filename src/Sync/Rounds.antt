-- ===== src/Sync/Rounds.antt =====
-- The rounds of `check_and_retrieve_missing_blocks` (src/synchronization.rs), against the heights of
-- the peers.
use rustchain.Base.{
  ℕ, suc, ◌+◌, ◌-◌, max, ◌≤◌, ◌<◌, ◌^◌, ◌≡◌, refl, true, Option, none, some, List, [], ◌∷◌, Result,
  ok, err, ltb, if◌then◌else◌, ◌==◌, nat_eq, add_u32, length, arith, Bool-cases, Result-cases, inl,
  inr, All, Option-cases,
}
use native.Mathlib.Decide.{dec_le}
use rustchain.Data.{BlockFile, Error}
use rustchain.Sync.{
  SyncState, success, fail, PeersStates, get_max_index, Answers, get_block_file, try_block,
  sync_loop, check_and_retrieve_missing_blocks,
}

-- What the loop relies on of `apply_block`: a block that is applied raises the height by one, and
-- one that is refused leaves it.
pub record Counts {S : Type 0} (apply_block : S → BlockFile → S × Result Error (Unit {0}))
    (height : S → ℕ) : Type 0 where
  pub applied :
      (s : S) (b : BlockFile)
      → height s + 1 < 2 ^ 32
      → (apply_block s b).1 ≡ ok tt
      → height (apply_block s b).0 ≡ height s + 1
  pub refused :
      (s : S) (b : BlockFile) (e : Error)
      → (apply_block s b).1 ≡ err e
      → height (apply_block s b).0 ≡ height s

-- The network knows a peer in the round.
abbrev pub IsConnected : Answers → Type 0
IsConnected answers = 0 < answers.known

pub get_block_file-some :
    (states : PeersStates) (index : ℕ) (answers : Answers)
    → IsConnected answers
    → (fetched : Option BlockFile) × (get_block_file states index answers ≡ some fetched)
unfolding get_block_file
get_block_file-some states index answers connected =
    elim (Option-cases (get_block_file states index answers)) [
      | inl panic ↦ absurd (ground (arith, panic))
      | inr found ↦ found
    ]

-- A run that has ended: with success at the greatest height of the peers, with failure below it.
abbrev pub EndsAt : {S : Type 0} → (S → ℕ) → ℕ → Option (S × SyncState) → Type 0
EndsAt height top none = ⊥
EndsAt height top (some (s, success)) = height s ≡ top
EndsAt height top (some (s, fail)) = height s < top

module _ {S : Type 0} (apply_block : S → BlockFile → S × Result Error (Unit {0})) (height : S → ℕ)
    (counts : Counts apply_block height) where
  try_block-height :
      (s : S) (fetched : Option BlockFile)
      → height s + 1 < 2 ^ 32
      → height (try_block apply_block s fetched).0
        ≡ (if (try_block apply_block s fetched).1 then height s + 1 else height s)
  unfolding try_block
  try_block-height s none small = refl
  try_block-height s (some b) small = elim (Result-cases (apply_block s b).1) [
    | inl (_, done) ↦ ground (arith, done, counts.applied s b small done)
    | inr (e, failed) ↦ ground (arith, failed, counts.refused s b e failed)
  ]

  sync_loop-EndsAt :
      (states : PeersStates) (rounds : List Answers) (s : S) (index errors : ℕ)
      → get_max_index states + 1 < 2 ^ 32
      → index ≡ height s + 1
      → height s ≤ get_max_index states
      → errors ≤ 3
      → All IsConnected rounds
      → (get_max_index states - height s) + (3 - errors) ≤ length rounds
      → EndsAt height (get_max_index states) (sync_loop apply_block states s index errors rounds)
  unfolding sync_loop
  sync_loop-EndsAt states [] s index errors small at low few connected enough = ground arith
  sync_loop-EndsAt states (answers ∷ rounds) s index errors small at low few connected enough =
      let (fetched, got) = get_block_file-some states index answers connected.0 in
      let tried = try_block apply_block s fetched in
      let raised = try_block-height s fetched (omega arith) in
      elim (Bool-cases (ltb (get_max_index states) index)) [
        | inl above ↦ rw (above, sync_loop) (ground (arith, above))
        | inr within ↦ elim (Bool-cases (errors == 3)) [
          | inl many ↦ rw (within, many, sync_loop) (ground (arith, within))
          | inr fewer ↦ elim (Bool-cases tried.1) [
            | inl applied ↦
                rw (within, fewer, got, applied, sync_loop)
                  (sync_loop-EndsAt states rounds tried.0 (add_u32 index 1) errors small
                    (ground (arith, raised, applied, within))
                    (ground (arith, raised, applied, within)) few connected.1
                    (ground (arith, raised, applied, within)))
            | inr missed ↦
                rw (within, fewer, got, missed, sync_loop)
                  (sync_loop-EndsAt states rounds tried.0 index (suc errors) small
                    (ground (arith, raised, missed, within)) (ground (arith, raised, missed))
                    (ground (arith, fewer)) connected.1
                    (ground (arith, raised, missed, within, fewer)))
          ]
        ]
      ]

  above_top :
      (states : PeersStates) (rounds : List Answers) (s : S)
      → ¬ (height s ≤ get_max_index states)
      → max (get_max_index states) (height s) + 1 < 2 ^ 32
      → EndsAt height
          (max (get_max_index states) (height s))
          (sync_loop apply_block states s (add_u32 (height s) 1) 0 rounds)
  unfolding sync_loop
  above_top states [] s high small = ground arith
  above_top states (answers ∷ rounds) s high small =
      let above : ltb (get_max_index states) (add_u32 (height s) 1) ≡ true = ground arith in
      rw (above, sync_loop) (omega arith)

  -- With answers for three failed rounds and one round per missing block the synchronization ends:
  -- with success exactly where the peer is as high as the highest other peer or higher, with
  -- failure where it is lower, if the network knows a peer in every round, applying a block raises
  -- the height by one and no height reaches the end of u32.
  pub check_and_retrieve-EndsAt :
      (states : PeersStates) (s : S) (rounds : List Answers)
      → All IsConnected rounds
      → max (get_max_index states) (height s) + 1 < 2 ^ 32
      → (get_max_index states - height s) + 3 ≤ length rounds
      → EndsAt height
          (max (get_max_index states) (height s))
          (check_and_retrieve_missing_blocks apply_block states s (height s) rounds)
  unfolding check_and_retrieve_missing_blocks
  check_and_retrieve-EndsAt states s rounds connected small enough =
      let top = get_max_index states in
      elim (Bool-cases (height s == top)) [
        | inl level ↦ rw (level, check_and_retrieve_missing_blocks) (ground (arith, level))
        | inr apart ↦ elim (dec_le (height s) top) [
          | yes low ↦
              let here : max top (height s) ≡ top = omega arith in
              rw (apart, here, check_and_retrieve_missing_blocks)
                (sync_loop-EndsAt states rounds s (add_u32 (height s) 1) 0 (omega arith)
                  (omega arith) low (omega arith) connected (omega arith))
          | no high ↦
              rw (apart, check_and_retrieve_missing_blocks) (above_top states rounds s high small)
        ]
      ]
