-- ===== src/Server/Tests.antt =====
-- Blocks that src/server.rs serves.
use rustchain.Base.{◌≡◌, refl, true, some, List, [], ◌∷◌, ok, err, nat_eq, arith}
use rustchain.Base.Dict
use rustchain.Data.{BlockFile, Message, block_file_not_found}
use rustchain.Engine.{voting_state}
use rustchain.Env.{Env}
use rustchain.Env.Samples.{sample}
use rustchain.Network.Rest.{RestNetwork}
use rustchain.Server.{ServerState, get_block, status_not_found}
use rustchain.Server.Blocks.{viewing, get_block-committed}
use rustchain.Storage.{BlockKeeper, commit_block, read_from_disk_by_index}
use rustchain.Storage.View
use rustchain.Storage.View.{BlockStorageView}

abbrev block : BlockFile
block = record { index = 1; hash = 1; previous_hash = 0; transactions = [] }

abbrev keeper : BlockKeeper
keeper = record {
  disk = record { files = []; writable = true };
  mempool_size = 5;
  mempool = [];
  pending_transactions = [];
  uncommited_blocks = (1, block) ∷ [];
  storage_state = record { block_height = 0; last_commited_hash = 0 };
  previous_hash = 0;
}

abbrev parsing : Env
parsing = record sample { parse_block = λ bytes. some block }

abbrev view : BlockStorageView
view = record { storage_state = keeper.storage_state; disk = keeper.disk }

abbrev server : ServerState (RestNetwork (List Message))
server = record {
  network = record { peer_id = 1; known_peers = []; peer_sender = []; spawned = []; notified = 0 };
  latest_storage_view = view;
  peer_state_view = record {
    peer_id = 1;
    block_storage_view = view;
    consensus_state = voting_state;
  };
}

get_block-committed_example :
    get_block parsing (viewing server (commit_block parsing keeper 1).0) 1 ≡ ok block
get_block-committed_example =
    get_block-committed parsing keeper 1 block refl (unfold Dict.get in refl)
      (unfold commit_block Dict.get in refl) server 1 (omega arith)

missing : get_block parsing server 3 ≡ err (status_not_found, block_file_not_found)
unfolding get_block View.get_block read_from_disk_by_index Dict.get
missing = refl
