-- ===== src/Sync.antt =====
-- src/synchronization.rs: which blocks a peer fetches from the others, and when it gives up. What
-- the network and the random choice return is an argument of each step.
pub mod Agreed
pub mod Fetched
pub mod Holds
pub mod Local
pub mod Retrieved
pub mod Rounds
use rustchain.Base.{
  ℕ, suc, min, max, Bool, true, false, ◌&&◌, Option, none, some, List, [], ◌∷◌, map, Result, ok,
  err, ltb, leb, if◌then◌else◌, ◌==◌, nat_eq, add_u32, length, keep,
}
use rustchain.Base.Dict
use rustchain.Base.Dict.{Dict}
use rustchain.Data.{PeerId, BlockFile, BlockStorageState, Error}

pub data SyncState : Type 0 where
  success fail : SyncState

abbrev pub PeersStates : Type 0
PeersStates = Dict PeerId BlockStorageState

unfoldable pub get_peers_for_index : PeersStates → ℕ → List PeerId
unfolding keep
get_peers_for_index states index = map (λ e. e.0) (keep (λ e. leb index e.1.block_height) states)

unfoldable pub get_max_index : PeersStates → ℕ
get_max_index [] = 0
get_max_index ((peer_id, s) ∷ states) = max s.block_height (get_max_index states)

abbrev same_state : BlockStorageState → BlockStorageState → Bool
same_state a b = a.block_height == b.block_height && a.last_commited_hash == b.last_commited_hash

-- `windows(2).all(...)`
unfoldable pub block_states_match : List BlockStorageState → Bool
block_states_match [] = true
block_states_match (a ∷ []) = true
block_states_match (a ∷ b ∷ states) = same_state a b && block_states_match (b ∷ states)

-- `filter(is_ok).map(unwrap)`
unfoldable pub successes {ℓ} : {A : Type ℓ} → List (Result Error A) → List A
successes [] = []
successes (ok a ∷ results) = a ∷ successes results
successes (err e ∷ results) = successes results

-- What the network and the generator return in one call of `get_block_file`.
pub record Answers : Type 0 where
  -- how many peers the network knows
  pub known : ℕ
  -- `choose_multiple` of the peers and their number
  pub choose : List PeerId → ℕ → List PeerId
  -- the answers to `GetBlockState` for an index
  pub states : ℕ → List PeerId → List (Result Error BlockStorageState)
  -- `random_range(0..n)` for a number that is not 0, at which it panics
  pub pick : ℕ → ℕ
  -- the answer to `GetBlock` for an index, of the peer at this place among those asked
  pub block : ℕ → List PeerId → ℕ → Result Error BlockFile

abbrev to_option {ℓ} : {A : Type ℓ} → Result Error A → Option A
to_option (ok a) = some a
to_option (err e) = none

-- `none` is the panic of `random_range(0..0)`, where no peer is known any more.
unfoldable pub get_block_file : PeersStates → ℕ → Answers → Option (Option BlockFile)
unfolding get_peers_for_index block_states_match successes
get_block_file states index answers =
    let number_of_peers = min answers.known 3 in
    let peers = answers.choose (get_peers_for_index states index) number_of_peers in
    let results = successes (answers.states index peers) in
    if length results == number_of_peers && block_states_match results
    then (if number_of_peers == 0
        then none
        else some (to_option (answers.block index peers (answers.pick number_of_peers))))
    else some none

-- `get_latest_indexes`: the answers that are no errors
unfoldable pub latest_indexes : List (PeerId × Result Error BlockStorageState) → PeersStates
latest_indexes [] = []
latest_indexes ((peer_id, ok state) ∷ results) = Dict.insert peer_id state (latest_indexes results)
latest_indexes ((peer_id, err e) ∷ results) = latest_indexes results

module _ {S : Type 0} (apply_block : S → BlockFile → S × Result Error (Unit {0})) where
  -- One round of the loop: the block is fetched and applied, or not.
  unfoldable pub try_block : S → Option BlockFile → S × Bool
  try_block s none = (s, false)
  try_block s (some block_file) = elim (apply_block s block_file).1 [
    | ok _ ↦ ((apply_block s block_file).0, true)
    | err e ↦ ((apply_block s block_file).0, false)
  ]

  -- The loop; `rounds` are the answers of the rounds to come. `none` is a panic, or means that they
  -- ran out.
  unfoldable pub sync_loop : PeersStates → S → ℕ → ℕ → List Answers → Option (S × SyncState)
  unfolding try_block
  sync_loop states s index errors [] =
      if ltb (get_max_index states) index
      then some (s, success)
      else if errors == 3
      then some (s, fail)
      else none
  sync_loop states s index errors (answers ∷ rounds) =
      if ltb (get_max_index states) index
      then some (s, success)
      else if errors == 3
      then some (s, fail)
      else (elim (get_block_file states index answers) [
        | none ↦ none
        | some fetched ↦
            let tried = try_block s fetched in
            sync_loop states tried.0 (if tried.1 then add_u32 index 1 else index)
              (if tried.1 then errors else suc errors) rounds
      ])

  unfoldable pub check_and_retrieve_missing_blocks :
      PeersStates → S → ℕ → List Answers → Option (S × SyncState)
  unfolding sync_loop
  check_and_retrieve_missing_blocks states s peer_height rounds =
      if peer_height == get_max_index states
      then some (s, success)
      else sync_loop states s (add_u32 peer_height 1) 0 rounds
