-- ===== src/Network/Rest.antt =====
-- `RestNetwork` of src/network/rest_network.rs. The channel to the peer, the requests of reqwest and
-- their JSON are parameters: `try_send` gives the channel after a message, `http` the answer to a
-- request that is waited for. A request that a task sends is put in `spawned`; `notified` counts the
-- calls of `notify_waiters`.
pub mod Checks
pub mod Known
pub mod Asked
pub mod Broadcast
use rustchain.Base.{
  ℕ, suc, ◌+◌, Bool, true, false, Option, none, some, List, [], ◌∷◌, ◌++◌, Result, ok, err, ◌>>=◌,
  leb, if◌then◌else◌, ◌==◌, nat_eq,
}
use rustchain.Base.Dict
use rustchain.Base.Dict.{Dict}
use rustchain.Data.{
  Bytes, PeerId, Message, MessageBody, Error, peer_not_found, too_many_failed_checks,
}
use rustchain.Network.{
  Text, codes, SocketAddr, PeerWithAddr, NetworkMessage, peer_message, Request, Json, request_to,
}

abbrev pub network_check_tries : ℕ
network_check_tries = 5

pub record RestNetwork (Sender : Type 0) : Type 0 where
  pub peer_id : PeerId
  pub known_peers : Dict PeerId SocketAddr
  pub peer_sender : Sender
  pub spawned : List Request
  pub notified : ℕ

-- The loop of `update_peers`.
unfoldable pub insert_others :
    PeerId → List PeerWithAddr → Dict PeerId SocketAddr → Dict PeerId SocketAddr
insert_others self [] known = known
insert_others self (peer ∷ peers) known =
    insert_others self peers
      (if peer.peer_id == self then known else Dict.insert peer.peer_id peer.addr known)

-- What the discovery client returns in one round of `run`.
pub record Round : Type 0 where
  pub registered : Result Error (Unit {0})
  pub peers : Result Error (List PeerWithAddr)

-- The locals of `run`, with the network that it works on.
pub record Transport (Sender : Type 0) : Type 0 where
  pub network : RestNetwork Sender
  pub failed_checks : ℕ
  pub notify_waiters : Bool

module _ {Sender : Type 0} where
  unfoldable pub with_discovery_client : PeerId → Sender → RestNetwork Sender
  with_discovery_client peer_id peer_sender = record {
    peer_id = peer_id;
    known_peers = [];
    peer_sender = peer_sender;
    spawned = [];
    notified = 0;
  }

  -- `peers` is what the discovery client returns.
  unfoldable pub update_peers :
      RestNetwork Sender
      → Result Error (List PeerWithAddr)
      → RestNetwork Sender × Result Error (Unit {0})
  unfolding insert_others
  update_peers net (err e) = (net, err e)
  update_peers net (ok peers) =
      (record net { known_peers = insert_others net.peer_id peers [] }, ok tt)

  -- the `async` block of `run`
  unfoldable pub check : RestNetwork Sender → Round → RestNetwork Sender × Result Error (Unit {0})
  unfolding update_peers
  check net round = elim round.registered [
    | err e ↦ (net, err e)
    | ok _ ↦ update_peers net round.peers
  ]

  -- `run` before its first round
  unfoldable pub start : RestNetwork Sender → Transport Sender
  start net = record { network = net; failed_checks = 0; notify_waiters = true }

  unfoldable pub notify : Transport Sender → RestNetwork Sender → RestNetwork Sender
  notify t net = if t.notify_waiters then record net { notified = suc net.notified } else net

  -- A round whose check is made.
  unfoldable pub try_round : Transport Sender → Round → Transport Sender
  unfolding check notify
  try_round t round =
      let (net, result) = check t.network round in
      elim result [
        | ok _ ↦ record { network = notify t net; failed_checks = 0; notify_waiters = false }
        | err e ↦ record t { network = net; failed_checks = suc t.failed_checks }
      ]

  -- The loop over the ticks to come; `none` means that it still runs.
  unfoldable pub run : Transport Sender → List Round → Transport Sender × Option Error
  unfolding try_round
  run t [] = (t, none)
  run t (round ∷ rounds) =
      let rest = run (try_round t round) rounds in
      if leb network_check_tries t.failed_checks then (t, some too_many_failed_checks) else rest

  -- `keys` of the map
  unfoldable pub known_peers : RestNetwork Sender → List PeerId
  known_peers net = Dict.keys net.known_peers

module _ {Sender : Type 0} (try_send : Sender → Message → Result Error Sender) where
  unfoldable pub on_message_received :
      RestNetwork Sender → Message → RestNetwork Sender × Result Error (Unit {0})
  on_message_received net message = elim (try_send net.peer_sender message) [
    | err e ↦ (net, err e)
    | ok peer_sender ↦ (record net { peer_sender = peer_sender }, ok tt)
  ]

  unfoldable pub receive_client_message :
      RestNetwork Sender → MessageBody → RestNetwork Sender × Result Error (Unit {0})
  unfolding on_message_received
  receive_client_message net body =
      on_message_received net (record { from = 0; to = net.peer_id; body = body })

module _ (json : Json) where
  -- `send_message`, up to the answer
  unfoldable pub request_for : NetworkMessage → SocketAddr → Request
  request_for message to = request_to json (codes "http://" ++ json.addr_text to) message

  unfoldable pub send_peer_message :
      {Sender : Type 0} → RestNetwork Sender → Message → RestNetwork Sender
  send_peer_message net message = elim (Dict.get net.known_peers message.to) [
    | none ↦ net
    | some addr ↦ record net {
      spawned = net.spawned ++ request_for (peer_message message) addr ∷ [];
    }
  ]

  -- the loop of `broadcast_peer_message`
  unfoldable pub spawn_to_others :
      {Sender : Type 0}
      → MessageBody
      → PeerId
      → Dict PeerId SocketAddr
      → RestNetwork Sender
      → RestNetwork Sender
  spawn_to_others body from [] net = net
  spawn_to_others body from ((peer_id, addr) ∷ peers) net =
      let message : Message = record { from = from; to = peer_id; body = body } in
      let sent = record net {
        spawned = net.spawned ++ request_for (peer_message message) addr ∷ [];
      } in
      spawn_to_others body from peers (if peer_id == from then net else sent)

  unfoldable pub broadcast_peer_message :
      {Sender : Type 0} → RestNetwork Sender → MessageBody → PeerId → RestNetwork Sender
  unfolding spawn_to_others
  broadcast_peer_message net message_body from =
      spawn_to_others message_body from net.known_peers net

module _ (json : Json) (http : Request → Result Error Bytes) where
  unfoldable pub send_message : NetworkMessage → SocketAddr → Result Error Bytes
  send_message message to = http (request_for json message to)

  -- The first loop of `send_to_all`: the results and the tasks. It ends at the first peer that is
  -- not known.
  unfoldable pub ask_each :
      {T : Type 0}
      → Dict PeerId SocketAddr
      → NetworkMessage
      → List PeerId
      → Dict PeerId (Result Error Bytes)
      → Dict PeerId (Result Error T) × Dict PeerId (Result Error Bytes)
  ask_each known message [] handles = ([], handles)
  ask_each known message (peer_id ∷ peer_ids) handles = elim (Dict.get known peer_id) [
    | none ↦ (Dict.insert peer_id (err peer_not_found) [], handles)
    | some addr ↦
        ask_each known message peer_ids (Dict.insert peer_id (send_message message addr) handles)
  ]

-- the second loop
unfoldable pub collect :
    {T : Type 0}
    → (Bytes → Result Error T)
    → Dict PeerId (Result Error Bytes)
    → Dict PeerId (Result Error T)
    → Dict PeerId (Result Error T)
collect deserialize [] results = results
collect deserialize ((peer_id, handle) ∷ handles) results =
    collect deserialize handles (Dict.insert peer_id (handle >>= deserialize) results)

module _ {Sender T : Type 0} (json : Json) (http : Request → Result Error Bytes)
    (deserialize : Bytes → Result Error T) where
  unfoldable pub send_and_wait : RestNetwork Sender → PeerId → NetworkMessage → Result Error T
  send_and_wait net peer_id message = elim (Dict.get net.known_peers peer_id) [
    | none ↦ err peer_not_found
    | some addr ↦ send_message json http message addr >>= deserialize
  ]

  unfoldable pub send_to_all :
      RestNetwork Sender → NetworkMessage → List PeerId → Dict PeerId (Result Error T)
  unfolding ask_each collect
  send_to_all net message peer_ids =
      let (results, handles) = ask_each json http net.known_peers message peer_ids [] in
      collect deserialize handles results

  unfoldable pub send_and_wait_for_all :
      RestNetwork Sender → NetworkMessage → List PeerId → Dict PeerId (Result Error T)
  send_and_wait_for_all net sync_message peer_ids = send_to_all net sync_message peer_ids
