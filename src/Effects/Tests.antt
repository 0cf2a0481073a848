-- ===== src/Effects/Tests.antt =====
-- Runs of the execution of effects and of synchronization: src/peer/effects.rs and
-- src/synchronization.rs.
mod Retrieved
use rustchain.Base.{
  Option, ℕ, zero, suc, ◌≡◌, refl, true, some, none, List, [], ◌∷◌, ◌++◌, ok, err, arith, nat_eq,
  ◌⊎◌, map, take, length-take,
}
use rustchain.Base.Dict
use rustchain.Base.Sets.{contains, Within}
use rustchain.Block.{verify_block, calculate_hash}
use rustchain.Data.{
  BlockFile, ConsensusEffect, commit_block, send_to, block_approved, Error, block_file_not_found,
  PeerId, Message,
}
use rustchain.Effects.{PeerEffects, apply_synchronized_block}
use rustchain.Effects.Delivery.{Delivered, outbox, send_to-Delivered}
use rustchain.Effects.Execute.{Services, execute_queue}
use rustchain.Effects.Synchronized.{
  height, apply_synchronized_block-cases, apply_synchronized_block-Counts,
}
use rustchain.Effects.Termination.{Ends, execute_queue-Ends}
use rustchain.Engine.{voting}
use rustchain.Env.{Env}
use rustchain.Env.Samples.{sample}
use rustchain.Storage
use rustchain.Storage.View
use rustchain.Storage.View.{BlockStorageView}
use rustchain.Network.Local.{LocalNetwork, send_and_wait, send_and_wait_for_all}
use rustchain.Storage.{
  block_filename_for_index, BlockKeeper, block_can_be_added, add_external_block,
}
use rustchain.Sync.Holds.{IsFair, Confirmed}
use rustchain.Sync.Local.{LocalJson, Generator, local_indexes, local_answers}
use rustchain.Sync.Retrieved.{Applies, check_and_retrieve-Confirmed}
use rustchain.Sync.{
  SyncState, success, PeersStates, Answers, check_and_retrieve_missing_blocks, get_max_index,
  latest_indexes, get_block_file,
}
use rustchain.Sync.Rounds.{Counts, EndsAt, check_and_retrieve-EndsAt}

abbrev empty_keeper : BlockKeeper
empty_keeper = record {
  disk = record { files = []; writable = true };
  mempool_size = 5;
  mempool = [];
  pending_transactions = [];
  uncommited_blocks = [];
  storage_state = record { block_height = 0; last_commited_hash = 0 };
  previous_hash = 0;
}

abbrev peer : PeerEffects
peer = record {
  peer_id = 1;
  transaction_processor = record { accounts = []; applied_transactions = [] };
  block_keeper = empty_keeper;
  signing_key = [];
  public_key = [];
  network = record { known_peers = 2 ∷ []; outbox = [] };
  last_completed_block = 0;
}

abbrev services : Services
services = record { effects = peer; consensus = voting 1 [] }

-- The commit fails, since there is no such block; the vote behind it is sent.
abbrev failing : List ConsensusEffect
failing = commit_block 9 ∷ []

execute_queue-Ends_example : Ends sample services (failing ++ send_to 2 (block_approved 9) ∷ []) []
execute_queue-Ends_example =
    execute_queue-Ends sample services (failing ++ send_to 2 (block_approved 9) ∷ []) []

send_to-Delivered_example :
    (fuel : ℕ) × (t : Services) × (found : List Error) × (execute_queue sample fuel services
        (failing ++ send_to 2 (block_approved 9) ∷ [])
        []
      ≡ some (t, found))
    × Delivered 2 (block_approved 9) (outbox t)
send_to-Delivered_example = send_to-Delivered sample 2 (block_approved 9) services failing [] []

abbrev block : BlockFile
block = record { index = 1; hash = 1; previous_hash = 0; transactions = [] }

apply_synchronized_block-cases_example :
    let after = (apply_synchronized_block sample peer block).0 in
    ((e : Error) × ((apply_synchronized_block sample peer block).1 ≡ err e)
      × (after.block_keeper.storage_state ≡ empty_keeper.storage_state))
    ⊎ (((apply_synchronized_block sample peer block).1 ≡ ok tt)
        × (verify_block sample block ≡ ok tt)
        × (block_can_be_added empty_keeper block ≡ true)
        × (height after ≡ 1)
        × (after.block_keeper.storage_state.last_commited_hash ≡ 1)
        × (after.last_completed_block ≡ 1))
apply_synchronized_block-cases_example = apply_synchronized_block-cases sample peer block

applied : (apply_synchronized_block sample peer block).1 ≡ ok tt
unfolding apply_synchronized_block Dict.get block_can_be_added add_external_block verify_block
    calculate_hash Storage.commit_block Dict.insert
applied = refl

-- One other peer, a block ahead, that answers in the first round only.
abbrev ahead : PeersStates
ahead = (2, record { block_height = 1; last_commited_hash = 1 }) ∷ []

abbrev answering : Answers
answering = record {
  known = 1;
  choose = λ peers n. peers;
  states = λ index peers. ok (record { block_height = 1; last_commited_hash = 1 }) ∷ [];
  pick = λ n. 0;
  block = λ index peers n. ok block;
}

abbrev silent : Answers
silent = record answering { states = λ index peers. err block_file_not_found ∷ [] }

abbrev rounds : List Answers
rounds = answering ∷ silent ∷ silent ∷ silent ∷ []

check_and_retrieve-EndsAt_example :
    EndsAt height 1
      (check_and_retrieve_missing_blocks (apply_synchronized_block sample) ahead peer 0 rounds)
unfolding get_max_index
check_and_retrieve-EndsAt_example =
    check_and_retrieve-EndsAt (apply_synchronized_block sample) height
      (apply_synchronized_block-Counts sample) ahead peer rounds
      (omega arith, (omega arith, (omega arith, (omega arith, tt)))) (omega arith) (omega arith)
