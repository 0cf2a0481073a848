-- ===== src/Network/Local.antt =====
-- `LocalNetwork` of src/network/local_network.rs: peers of one process, over channels. `none` is the
-- panic of an `unwrap`. `try_send` is the channel's, `choose` the generator's choice; an answer goes
-- through JSON, of which `from_state` and `from_block` are the whole way.
pub mod Each
use rustchain.Base.{
  ℕ, Bool, Option, none, some, List, [], ◌∷◌, ◌++◌, Result, ok, err, ◌>>=◌, if◌then◌else◌, ◌==◌,
  nat_eq,
}
use rustchain.Base.Dict
use rustchain.Base.Dict.{Dict}
use rustchain.Data.{
  PeerId, Message, MessageBody, BlockFile, BlockStorageState, Error, no_peers_to_send_to, no_view,
  unsupported_request,
}
use rustchain.Env.{Env}
use rustchain.Network.{NetworkMessage, get_latest_block_state, get_block_state, get_block}
use rustchain.Storage.View
use rustchain.Storage.View.{BlockStorageView}

pub record LocalNetwork (Sender : Type 0) : Type 0 where
  pub senders : Dict PeerId Sender
  pub known_peers : List PeerId
  pub block_storage_views : Dict PeerId BlockStorageView
  pub broadcasted_messages : List MessageBody

module _ {Sender : Type 0} where
  unfoldable pub new_local : LocalNetwork Sender
  new_local = record {
    senders = [];
    known_peers = [];
    block_storage_views = [];
    broadcasted_messages = [];
  }

  unfoldable pub add_peer : LocalNetwork Sender → PeerId → Sender → LocalNetwork Sender
  add_peer net peer_id sender = record net {
    known_peers = net.known_peers ++ peer_id ∷ [];
    senders = Dict.insert peer_id sender net.senders;
  }

  unfoldable pub add_known_peer : LocalNetwork Sender → PeerId → LocalNetwork Sender
  add_known_peer net peer_id = record net { known_peers = net.known_peers ++ peer_id ∷ [] }

  unfoldable pub add_block_storage_view :
      LocalNetwork Sender → PeerId → BlockStorageView → LocalNetwork Sender
  add_block_storage_view net peer_id view = record net {
    known_peers = net.known_peers ++ peer_id ∷ [];
    block_storage_views = Dict.insert peer_id view net.block_storage_views;
  }

  unfoldable pub get_broadcasted_messages : LocalNetwork Sender → List MessageBody
  get_broadcasted_messages net = net.broadcasted_messages

  unfoldable pub known_peers : LocalNetwork Sender → List PeerId
  known_peers net = net.known_peers

module _ {Sender : Type 0} (try_send : Sender → Message → Result Error Sender) where
  unfoldable pub send_peer_message : LocalNetwork Sender → Message → Option (LocalNetwork Sender)
  send_peer_message net message = elim (Dict.get net.senders message.to) [
    | none ↦ some net
    | some sender ↦ elim (try_send sender message) [
      | err e ↦ none
      | ok next ↦ some (record net { senders = Dict.insert message.to next net.senders })
    ]
  ]

  -- the loop of `broadcast_peer_message`
  unfoldable pub send_to_others :
      MessageBody → PeerId → List PeerId → LocalNetwork Sender → Option (LocalNetwork Sender)
  unfolding send_peer_message
  send_to_others body from [] net = some net
  send_to_others body from (to ∷ peers) net =
      let sent : Option (LocalNetwork Sender) =
        if to == from
        then some net
        else send_peer_message net (record { from = from; to = to; body = body }) in
      elim sent [ none ↦ none | some next ↦ send_to_others body from peers next ]

  unfoldable pub broadcast_peer_message :
      LocalNetwork Sender → MessageBody → PeerId → Option (LocalNetwork Sender)
  unfolding send_to_others
  broadcast_peer_message net message_body from =
      send_to_others message_body from (Dict.keys net.senders)
        (record net { broadcasted_messages = net.broadcasted_messages ++ message_body ∷ [] })

  unfoldable pub receive_client_message :
      (List PeerId → Option PeerId)
      → LocalNetwork Sender
      → MessageBody
      → Option (LocalNetwork Sender × Result Error (Unit {0}))
  unfolding send_peer_message
  receive_client_message choose net body = elim (choose (Dict.keys net.senders)) [
    | none ↦ some (net, err no_peers_to_send_to)
    | some to ↦ elim (send_peer_message net (record { from = 0; to = to; body = body })) [
      | none ↦ none
      | some next ↦ some (next, ok tt)
    ]
  ]

  -- The channel is that of the sender of the message.
  unfoldable pub on_message_received :
      LocalNetwork Sender → Message → Option (LocalNetwork Sender × Result Error (Unit {0}))
  on_message_received net message = elim (Dict.get net.senders message.from) [
    | none ↦ none
    | some sender ↦ elim (try_send sender message) [
      | err e ↦ some (net, err e)
      | ok next ↦ some (record net { senders = Dict.insert message.from next net.senders }, ok tt)
    ]
  ]

module _ {T : Type 0} (env : Env) (from_state : BlockStorageState → Result Error T)
    (from_block : BlockFile → Result Error T) where
  -- what a peer that has a view answers
  unfoldable pub answer_from : BlockStorageView → NetworkMessage → Result Error T
  answer_from view get_latest_block_state = from_state (View.get_latest_state view)
  answer_from view (get_block_state idx) = do
    block ← View.get_block env view idx
    from_state (View.state_of_block block)
  answer_from view (get_block idx) = View.get_block env view idx >>= from_block
  answer_from view other = err unsupported_request

module _ {Sender T : Type 0} (env : Env) (from_state : BlockStorageState → Result Error T)
    (from_block : BlockFile → Result Error T) where
  unfoldable pub send_and_wait : LocalNetwork Sender → PeerId → NetworkMessage → Result Error T
  unfolding answer_from
  send_and_wait net peer_id message_body = elim (Dict.get net.block_storage_views peer_id) [
    | none ↦ err no_view
    | some view ↦ answer_from env from_state from_block view message_body
  ]

  -- the loop of `send_and_wait_for_all`
  unfoldable pub ask_all :
      LocalNetwork Sender
      → NetworkMessage
      → List PeerId
      → Dict PeerId (Result Error T)
      → Dict PeerId (Result Error T)
  ask_all net message_body [] results = results
  ask_all net message_body (peer_id ∷ peers) results =
      ask_all net message_body peers
        (Dict.insert peer_id (send_and_wait net peer_id message_body) results)

  unfoldable pub send_and_wait_for_all :
      LocalNetwork Sender → NetworkMessage → List PeerId → Dict PeerId (Result Error T)
  unfolding ask_all
  send_and_wait_for_all net message_body peers = ask_all net message_body peers []
