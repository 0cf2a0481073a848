-- ===== src/Network/Interface.antt =====
-- `NetworkInterface` of src/network/mod.rs, as the server uses it. `none` is a panic of the network.
use rustchain.Base.{Option, some, List, Result}
use rustchain.Data.{PeerId, Message, MessageBody, Error}
use rustchain.Network.Local
use rustchain.Network.Local.{LocalNetwork}
use rustchain.Network.Rest
use rustchain.Network.Rest.{RestNetwork}

abbrev pub Received : Type 0 → Type 0
Received N = Option (N × Result Error (Unit {0}))

pub record NetworkInterface (N : Type 0) : Type 0 where
  pub receive_client_message : N → MessageBody → Received N
  pub on_message_received : N → Message → Received N
  pub known_peers : N → List PeerId

module _ {Sender : Type 0} (try_send : Sender → Message → Result Error Sender) where
  abbrev pub rest_network : NetworkInterface (RestNetwork Sender)
  rest_network = record {
    receive_client_message = λ net body. some (Rest.receive_client_message try_send net body);
    on_message_received = λ net message. some (Rest.on_message_received try_send net message);
    known_peers = Rest.known_peers;
  }

  -- `choose` is the choice of the generator among the peers.
  abbrev pub local_network : (List PeerId → Option PeerId) → NetworkInterface (LocalNetwork Sender)
  local_network choose = record {
    receive_client_message = Local.receive_client_message try_send choose;
    on_message_received = Local.on_message_received try_send;
    known_peers = Local.known_peers;
  }
