-- ===== src/Server.antt =====
-- The handlers of src/server.rs, over any network. A request that axum has read is an argument; the
-- state behind the lock comes back with the answer. `none` is a panic of the handler.
pub mod Blocks
mod Tests
use rustchain.Base.{
  ℕ, Bool, Option, none, some, List, Result, ok, err, map_err, if◌then◌else◌, ◌==◌, bytes_eq,
}
use rustchain.Crypto.{Keys, KeyDir, get_or_create_key}
use rustchain.Data.{
  SigningKey, Transaction, SignedTransaction, Message, client_transaction, BlockFile,
  BlockStorageState, Error, block_file_not_found,
}
use rustchain.Env.{Env}
use rustchain.Ledger.{sign_transaction}
use rustchain.Network.{Text}
use rustchain.Network.Interface.{NetworkInterface, Received}
use rustchain.Peer.View.{PeerState, PeerStateView, get_state}
use rustchain.Storage.View
use rustchain.Storage.View.{BlockStorageView}

pub record ServerState (N : Type 0) : Type 0 where
  pub network : N
  pub latest_storage_view : BlockStorageView
  pub peer_state_view : PeerStateView

-- The statuses of a refusal.
pub data StatusCode : Type 0 where
  status_not_found internal_server_error : StatusCode

-- The texts that the transaction handlers answer.
pub data Reply : Type 0 where
  transaction_processed invalid_client_id client_id_missing : Reply
  refused : Error → Reply

unfoldable pub reply_for : Result Error (Unit {0}) → Reply
reply_for (ok _) = transaction_processed
reply_for (err e) = refused e

-- Of the errors of a read only the missing file has a text that begins with "Block file not found".
unfoldable pub block_read_response : Error → StatusCode × Error
block_read_response block_file_not_found = (status_not_found, block_file_not_found)
block_read_response error = (internal_server_error, error)

module _ {N : Type 0} (net : NetworkInterface N) where
  -- a transaction that goes to the network
  unfoldable pub pass_on : ServerState N → SignedTransaction → Option (ServerState N × Reply)
  unfolding reply_for
  pass_on state transaction =
      elim (net.receive_client_message state.network (client_transaction transaction)) [
        | none ↦ none
        | some (network, result) ↦ some (record state { network = network }, reply_for result)
      ]

  unfoldable pub handle_client_transaction :
      ServerState N → SignedTransaction → Option (ServerState N × Reply)
  unfolding pass_on
  handle_client_transaction state transaction = pass_on state transaction

  unfoldable pub hande_peer_message : ServerState N → Message → Option (ServerState N)
  hande_peer_message state message = elim (net.on_message_received state.network message) [
    | none ↦ none
    | some (network, err e) ↦ none
    | some (network, ok _) ↦ some (record state { network = network })
  ]

  unfoldable pub get_peer_state : ServerState N → PeerState
  get_peer_state state = get_state state.peer_state_view (net.known_peers state.network)

  -- The client's name is the header `client_id`, if it is there, and its text, if it has one; `dirs`
  -- are the directories below `data/test_clients/`, `created` is a new key.
  unfoldable pub handle_test_transaction :
      Env
      → Keys
      → SigningKey
      → ServerState N × (Text → KeyDir)
      → Option (Option Text)
      → Transaction
      → Option ((ServerState N × (Text → KeyDir)) × Reply)
  unfolding pass_on
  handle_test_transaction env keys created (state, dirs) none transaction =
      some ((state, dirs), client_id_missing)
  handle_test_transaction env keys created (state, dirs) (some none) transaction =
      some ((state, dirs), invalid_client_id)
  handle_test_transaction env keys created (state, dirs) (some (some client_id)) transaction =
      elim (get_or_create_key keys (dirs client_id) created) [
        | none ↦ none
        | some (after, key) ↦ elim (pass_on state (sign_transaction env transaction key)) [
          | none ↦ none
          | some (next, reply) ↦
              some ((next, λ name. if name == client_id then after else dirs name), reply)
        ]
      ]

module _ {N : Type 0} (env : Env) where
  unfoldable pub get_block_state : ServerState N → ℕ → Result (StatusCode × Error) BlockStorageState
  unfolding block_read_response
  get_block_state state block_index =
      elim (View.get_block env state.latest_storage_view block_index) [
        | err e ↦ err (block_read_response e)
        | ok block ↦ ok (View.state_of_block block)
      ]

  unfoldable pub get_latest_storage_state : ServerState N → BlockStorageState
  get_latest_storage_state state = View.get_latest_state state.latest_storage_view

  unfoldable pub get_block : ServerState N → ℕ → Result (StatusCode × Error) BlockFile
  unfolding block_read_response
  get_block state block_index =
      map_err block_read_response (View.get_block env state.latest_storage_view block_index)
