-- ===== src/Runtime/Tests.antt =====
-- Runs of the loop and of the configuration of src/peer_runtime.rs.
use rustchain.Storage.Chain.{append_blocks}
use rustchain.Runtime.Chain.{runtime_chain}
use rustchain.Base.{
  arith, length, Option, ◌≤◌, ◌⊎◌, ◌+◌, ◌^◌, ℕ, ◌^◌, ◌<◌, ◌≤◌, ◌≡◌, refl, true, false, none, some,
  List, [], ◌∷◌, ok, err,
}
use rustchain.Data.{BlockHash, BlockFile, Error, block_approved, bad_bind_host}
use rustchain.Engine.{voting}
use rustchain.Env.Samples.{sample}
use rustchain.Network.{codes}
use rustchain.Base.Dict
use rustchain.Base.Sets
use rustchain.Engine
use rustchain.Voting
use rustchain.Effects.{
  new_effects, ensure_uncommitted_block, commit_and_note, broadcast_peer_message,
}
use rustchain.Effects.Execute.{execute_queue, execute_effect}
use rustchain.Peer.{handle_message, process_block_vote}
use rustchain.Peer.View.{new_peer}
use rustchain.Runtime.{Runtime, Event, received, consensus_tick, closed, run_loop}
use rustchain.Runtime.Config.{
  PeerConfig, Variables, raft_mode, consensus_mode_from_str, from_env, read_peer_id,
  peer_id_from_str, read_consensus_mode, peer_id_to_port_offset, read_bind_ip, read_advertised,
}
use rustchain.Runtime.Config.Ports.{from_env_bounds}
use rustchain.Runtime.Loop.{run_loop-Grows}
use rustchain.Storage.{BlockKeeper, get_uncommited_block, commit_block, read_from_disk_by_index}

-- A block that an approval of peer 2 commits.
abbrev waiting : BlockFile
waiting = record { index = 1; hash = 4; previous_hash = 0; transactions = [] }

abbrev keeper : BlockKeeper
keeper = record {
  disk = record { files = []; writable = true };
  mempool_size = 5;
  mempool = [];
  pending_transactions = [];
  uncommited_blocks = (4, waiting) ∷ [];
  storage_state = record { block_height = 0; last_commited_hash = 0 };
  previous_hash = 0;
}

abbrev runtime : Runtime
runtime = record {
  peer = new_peer sample 1 (record { known_peers = 2 ∷ []; outbox = [] }) (voting 1 []) keeper [];
  synchronizes = true;
  requires_consensus_tick = false;
}

abbrev events : List Event
events =
    received (record { from = 2; to = 1; body = block_approved 4 }) 0
    ∷ consensus_tick 5
    ∷ closed
    ∷ []

run_loop-Grows_example :
    (fuel : ℕ) × (next : Runtime) × (error : Option Error) × (blocks : List (BlockHash × BlockFile))
    × ((extra : ℕ) → run_loop sample (fuel + extra) runtime events ≡ some (next, error))
    × (runtime_chain next ≡ append_blocks sample (runtime_chain runtime) blocks)
    × ((2 ^ 32 ≤ 0 + length blocks)
        ⊎ (read_from_disk_by_index sample (runtime_chain next).disk 0
            ≡ read_from_disk_by_index sample (runtime_chain runtime).disk 0))
unfolding new_peer new_effects
run_loop-Grows_example = run_loop-Grows sample events runtime 0 (tt, (tt, (tt, tt))) (omega arith)

abbrev height_of : Option (Runtime × Option Error) → ℕ
height_of none = 0
height_of (some (r, error)) = (runtime_chain r).storage_state.block_height

approval_commits : height_of (run_loop sample 9 runtime events) ≡ 1
unfolding run_loop new_peer new_effects handle_message process_block_vote ensure_uncommitted_block
    get_uncommited_block Dict.get Dict.insert Engine.on_block_vote execute_queue execute_effect
    commit_and_note commit_block Voting.on_block_vote Voting.handle_voting_vote Voting.vote_on
    Sets.contains Voting.entry_or_new Voting.new Sets.insert Sets.from_list Engine.on_tick
    broadcast_peer_message
approval_commits = refl

abbrev vars : Variables
vars = record {
  peer_id = some (codes "62537");
  consensus_mode = none;
  peer_bind_host = none;
  peer_advertise_host = none;
}

-- The port of peer 62537 wraps to 1.
abbrev wrapped : PeerConfig
wrapped = record {
  peer_id = 62537;
  listening_addr = record { ip = 127 ∷ 0 ∷ 0 ∷ 1 ∷ []; port = 1 };
  advertised_addr = record { ip = 127 ∷ 0 ∷ 0 ∷ 1 ∷ []; port = 1 };
  channel_size = 1000;
  consensus_mode = raft_mode;
}

from_env_bounds_example :
    (62537 < 2 ^ 16)
    × (1 < 2 ^ 16)
    × (62537 ≤ 62535 → ◌≡◌ {A = ℕ} 1 65537)
    × (62535 < 62537 → ◌≡◌ {A = ℕ} 62537 62537)
unfolding from_env read_peer_id peer_id_from_str read_consensus_mode consensus_mode_from_str
    peer_id_to_port_offset read_bind_ip read_advertised
from_env_bounds_example =
    from_env_bounds (λ text. none) (λ host port. err bad_bind_host) vars wrapped refl

shouted : consensus_mode_from_str (codes "RAFT") ≡ ok raft_mode
unfolding consensus_mode_from_str
shouted = refl
