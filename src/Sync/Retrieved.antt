-- ===== src/Sync/Retrieved.antt =====
-- The blocks that `check_and_retrieve_missing_blocks` of src/synchronization.rs hands to
-- `apply_block`, over the local network.
use rustchain.Base.{
  ℕ, suc, ◌+◌, ◌-◌, max, ◌≤◌, ◌<◌, ◌^◌, ◌≡◌, refl, Option, none, some, List, [], ◌∷◌, Result, ok,
  err, ltb, ◌==◌, nat_eq, add_u32, length, arith, Bool-cases, Option-cases, Result-cases, inl, inr,
  All, map, length-map,
}
use rustchain.Data.{BlockFile, Error}
use rustchain.Env.{Env}
use rustchain.Network.Local.{LocalNetwork}
use rustchain.Sync.{
  SyncState, PeersStates, get_max_index, Answers, get_block_file, try_block, sync_loop,
  check_and_retrieve_missing_blocks,
}
use rustchain.Sync.Fetched.{get_block_file-Confirmed}
use rustchain.Sync.Holds.{ReadsBack, IsFair, Confirmed}
use rustchain.Sync.Local.{LocalJson, Generator, local_indexes, local_answers}
use rustchain.Sync.Rounds.{IsConnected, Counts, EndsAt, check_and_retrieve-EndsAt}

module _ {S : Type 0} (apply_block : S → BlockFile → S × Result Error (Unit {0}))
    (P : ℕ → BlockFile → Type 0) where
  -- One call of `apply_block` after another, from an index on that each applied block raises; every
  -- block satisfies `P` at its index.
  pub data Applies : S → ℕ → S → Type 0 where
    stops : {s : S} {index : ℕ} → Applies s index s
    applied :
        {s t : S} {index : ℕ} (b : BlockFile)
        → P index b
        → (apply_block s b).1 ≡ ok tt
        → Applies (apply_block s b).0 (add_u32 index 1) t
        → Applies s index t
    refused :
        {s t : S} {index : ℕ} (b : BlockFile) (e : Error)
        → P index b
        → (apply_block s b).1 ≡ err e
        → Applies (apply_block s b).0 index t
        → Applies s index t

  abbrev pub Traced : S → ℕ → Option (S × SyncState) → Type 0
  Traced s index none = Unit
  Traced s index (some (t, outcome)) = Applies s index t

  abbrev pub Sound : PeersStates → Answers → Type 0
  Sound states answers =
      (index : ℕ) (b : BlockFile) → get_block_file states index answers ≡ some (some b) → P index b

  Traced-applied :
      (s : S) (index : ℕ) (b : BlockFile) (r : Option (S × SyncState))
      → P index b
      → (apply_block s b).1 ≡ ok tt
      → Traced (apply_block s b).0 (add_u32 index 1) r
      → Traced s index r
  Traced-applied s index b none p done rest = tt
  Traced-applied s index b (some (t, outcome)) p done rest = applied b p done rest

  Traced-refused :
      (s : S) (index : ℕ) (b : BlockFile) (e : Error) (r : Option (S × SyncState))
      → P index b
      → (apply_block s b).1 ≡ err e
      → Traced (apply_block s b).0 index r
      → Traced s index r
  Traced-refused s index b e none p failed rest = tt
  Traced-refused s index b e (some (t, outcome)) p failed rest = refused b e p failed rest

  sync_loop-Traced :
      (states : PeersStates) (rounds : List Answers) (s : S) (index errors : ℕ)
      → All (Sound states) rounds
      → Traced s index (sync_loop apply_block states s index errors rounds)
  unfolding sync_loop try_block
  sync_loop-Traced states [] s index errors sound =
      elim (Bool-cases (ltb (get_max_index states) index)) [
        | inl above ↦ rw (above) stops
        | inr within ↦ elim (Bool-cases (errors == 3)) [
          | inl many ↦ rw (within, many) stops
          | inr fewer ↦ rw (within, fewer) tt
        ]
      ]
  sync_loop-Traced states (answers ∷ rounds) s index errors sound =
      elim (Bool-cases (ltb (get_max_index states) index)) [
        | inl above ↦ rw (above) stops
        | inr within ↦ elim (Bool-cases (errors == 3)) [
          | inl many ↦ rw (within, many) stops
          | inr fewer ↦ elim (Option-cases (get_block_file states index answers)) [
            | inl panic ↦ rw (within, fewer, panic) tt
            | inr (none, missed) ↦
                rw (within, fewer, missed, try_block)
                  (sync_loop-Traced states rounds s index (suc errors) sound.1)
            | inr (some b, fetched) ↦ elim (Result-cases (apply_block s b).1) [
              | inl (_, done) ↦
                  rw (within, fewer, fetched, done, try_block)
                    (Traced-applied s index b _ (sound.0 index b fetched) done (
                      sync_loop-Traced states rounds (apply_block s b).0 (add_u32 index 1) errors
                        sound.1))
              | inr (e, failed) ↦
                  rw (within, fewer, fetched, failed, try_block)
                    (Traced-refused s index b e _ (sound.0 index b fetched) failed (
                      sync_loop-Traced states rounds (apply_block s b).0 index (suc errors)
                        sound.1))
            ]
          ]
        ]
      ]

  check_and_retrieve-Traced :
      (states : PeersStates) (s : S) (peer_height : ℕ) (rounds : List Answers)
      → All (Sound states) rounds
      → Traced s
          (add_u32 peer_height 1)
          (check_and_retrieve_missing_blocks apply_block states s peer_height rounds)
  unfolding check_and_retrieve_missing_blocks
  check_and_retrieve-Traced states s peer_height rounds sound =
      elim (Bool-cases (peer_height == get_max_index states)) [
        | inl level ↦ rw (level, check_and_retrieve_missing_blocks) stops
        | inr apart ↦
            rw (apart, check_and_retrieve_missing_blocks)
              (sync_loop-Traced states rounds s (add_u32 peer_height 1) 0 sound)
      ]

  -- A run that has ended, by its two accounts.
  both :
      (height : S → ℕ) (top index : ℕ) (s : S) (r : Option (S × SyncState))
      → EndsAt height top r
      → Traced s index r
      → (t : S) × (outcome : SyncState) × (r ≡ some (t, outcome))
        × EndsAt height top (some (t, outcome))
        × Applies s index t
  both height top index s none ends traced = absurd ends
  both height top index s (some (t, outcome)) ends traced = (t, outcome, refl, ends, traced)

module _ {Sender S : Type 0} (env : Env) (json : LocalJson) (net : LocalNetwork Sender)
    (reads : ReadsBack json) (some_known : 0 < length net.known_peers)
    (apply_block : S → BlockFile → S × Result Error (Unit {0})) (height : S → ℕ)
    (counts : Counts apply_block height) where
  local_answers-IsConnected :
      (generators : List Generator) → All IsConnected (map (local_answers env json net) generators)
  unfolding local_answers
  local_answers-IsConnected [] = tt
  local_answers-IsConnected (g ∷ generators) = (some_known, local_answers-IsConnected generators)

  local_answers-Sound :
      (generators : List Generator)
      → All IsFair generators
      → All
          (Sound apply_block (Confirmed env net) (local_indexes env json net))
          (map (local_answers env json net) generators)
  local_answers-Sound [] fair = tt
  local_answers-Sound (g ∷ generators) fair = (
    λ index b. get_block_file-Confirmed env json net reads index g b fair.0 some_known,
    local_answers-Sound generators fair.1,
  )

  -- Over a local network that knows a peer and whose directories do not change meanwhile, with a
  -- generator for each missing block and for three failed rounds at least, the synchronization
  -- ends, with success exactly where the peer is as high as the highest other peer or higher; each
  -- block that it has handed to apply_block, the first at the next height and each later one
  -- behind those that were applied, is held at its index, with the same index and hash, by three
  -- different peers whose chains reach it, or by as many as are known where these are fewer. It is
  -- assumed that JSON reads back what it has written, that a generator chooses among the peers and
  -- not more than asked, that applying a block raises the height by one, and that no height
  -- reaches the end of u32.
  pub check_and_retrieve-Confirmed :
      (s : S) (generators : List Generator)
      → All IsFair generators
      → max (get_max_index (local_indexes env json net)) (height s) + 1 < 2 ^ 32
      → (get_max_index (local_indexes env json net) - height s) + 3 ≤ length generators
      → (t : S) × (outcome : SyncState) × (check_and_retrieve_missing_blocks apply_block
            (local_indexes env json net)
            s
            (height s)
            (map (local_answers env json net) generators)
          ≡ some (t, outcome))
        × EndsAt height
            (max (get_max_index (local_indexes env json net)) (height s))
            (some (t, outcome))
        × Applies apply_block (Confirmed env net) s (add_u32 (height s) 1) t
  check_and_retrieve-Confirmed s generators fair small enough =
      let states = local_indexes env json net in
      let rounds = map (local_answers env json net) generators in
      both apply_block (Confirmed env net) height (max (get_max_index states) (height s))
        (add_u32 (height s) 1) s
        (check_and_retrieve_missing_blocks apply_block states s (height s) rounds)
        (check_and_retrieve-EndsAt apply_block height counts states s rounds
          (local_answers-IsConnected generators) small
          (omega (arith, enough, length-map (local_answers env json net) generators)))
        (check_and_retrieve-Traced apply_block (Confirmed env net) states s (height s) rounds
          (local_answers-Sound generators fair))
