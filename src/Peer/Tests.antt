-- ===== src/Peer/Tests.antt =====
-- Runs of the peer: src/peer.rs.
use rustchain.Block.{verify_block_vec}
use rustchain.Voting.{VotingConsensus, Votings, new}
use rustchain.Voting.Refusals.{IsAgainst}
use rustchain.Peer.Refusals.{handle_message-Refuses}
use rustchain.Peer.Chain.{peer_chain}
use rustchain.Base.Sets
use rustchain.Base.{arith, ◌≡◌, refl, true, some, List, [], ◌∷◌, ok, nat_eq, bytes_eq}
use rustchain.Base.Dict
use rustchain.Data.{deserialization_error, block_proposal, SignedTransaction, BlockFile}
use rustchain.Effects.{PeerEffects, process_all}
use rustchain.Effects.Restart.{chain_transactions, read_state-process_all}
use rustchain.Engine.{voting, voting_state}
use rustchain.Env.{Env}
use rustchain.Env.Samples.{sample}
use rustchain.Ledger.{new_processor}
use rustchain.Peer.{Peer, handle_message}
use rustchain.Storage.{BlockKeeper, list_all_blocks, read_transactions_from_disk, read_from_disk}
use rustchain.Storage.Replay.{read_state}

abbrev genesis : BlockFile
genesis = record { index = 1; hash = 1; previous_hash = 0; transactions = [] }

-- One block waits for its votes.
abbrev keeper : BlockKeeper
keeper = record {
  disk = record { files = ([], []) ∷ []; writable = true };
  mempool_size = 5;
  mempool = [];
  pending_transactions = [];
  uncommited_blocks = (1, genesis) ∷ [];
  storage_state = record { block_height = 0; last_commited_hash = 0 };
  previous_hash = 0;
}

abbrev effects : PeerEffects
effects = record {
  peer_id = 1;
  transaction_processor = new_processor;
  block_keeper = keeper;
  signing_key = [];
  public_key = [];
  network = record { known_peers = 2 ∷ 3 ∷ []; outbox = [] };
  last_completed_block = 0;
}

abbrev peer : Peer
peer = record {
  services = record { effects = effects; consensus = voting 1 [] };
  published = voting_state;
}

abbrev parsing : Env
parsing = record sample { parse_block = λ bytes. some genesis }

read_state-process_all_example :
    (txs : List SignedTransaction) × (chain_transactions parsing keeper
        (list_all_blocks parsing keeper.disk)
      ≡ ok txs)
    × ((read_state parsing new_processor keeper).0 ≡ process_all parsing new_processor txs)
unfolding read_state list_all_blocks read_transactions_from_disk read_from_disk Dict.get
read_state-process_all_example = read_state-process_all parsing keeper new_processor refl

-- Three others are known, and the bytes of the proposal are no block.
abbrev fourth : Peer
fourth = record peer {
  services = record peer.services {
    effects = record effects { network = record { known_peers = 2 ∷ 3 ∷ 4 ∷ []; outbox = [] } };
  };
}

handle_message-Refuses_example :
    (q : Peer) × (next : Votings) × (v : VotingConsensus) × (handle_message sample 3 fourth
        (record { from = 2; to = 1; body = block_proposal 7 [] [] [] })
        0
      ≡ some (q, []))
    × (q.services.consensus ≡ voting 1 next)
    × (Dict.get next 7 ≡ some v)
    × IsAgainst 1 v
    × (peer_chain q ≡ peer_chain fourth)
unfolding Sets.insert Sets.from_list Sets.contains
handle_message-Refuses_example =
    handle_message-Refuses sample fourth 1 [] 7 [] [] [] 2 1 0 0 deserialization_error refl
      (unfold new in omega arith) (unfold Dict.get in refl) refl refl
      (unfold verify_block_vec in refl)
