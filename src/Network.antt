-- ===== src/Network.antt =====
-- src/network/mod.rs with the paths of src/network/network_constants.rs: what the peers, their HTTP
-- servers and the discovery server say to each other. Texts of a URL are their code points.
pub mod Paths
pub mod Discovery
pub mod Rest
pub mod Local
pub mod Client
pub mod Interface
mod Tests
use Prim.Native.Char.{code}
use rustchain.Base.{ℕ, String, Option, none, some, List, [], ◌∷◌, ◌++◌, map}
use rustchain.Base.Dict.{Dict}
use rustchain.Data.{Bytes, PeerId, Message}
use rustchain.Storage.{digits_onto}

abbrev pub Text : Type 0
Text = List ℕ

abbrev pub codes : String → Text
codes String.[] = []
codes (String.◌∷◌ c s) = code c ∷ codes s

-- An address is its four or sixteen bytes.
abbrev pub IpAddr : Type 0
IpAddr = Bytes

pub record SocketAddr : Type 0 where
  pub ip : IpAddr
  pub port : ℕ

pub record RegisterRequest : Type 0 where
  pub peer_id : PeerId
  pub addr : SocketAddr

pub record PeerWithAddr : Type 0 where
  pub peer_id : PeerId
  pub addr : SocketAddr

pub record PeersResponse : Type 0 where
  pub peers : List PeerWithAddr

pub data NetworkMessage : Type 0 where
  get_latest_block_state : NetworkMessage
  get_block_state get_block : ℕ → NetworkMessage
  peer_message : Message → NetworkMessage
  register : RegisterRequest → NetworkMessage
  get_peers : NetworkMessage

-- The methods of HTTP that the program uses.
pub data Method : Type 0 where
  get post : Method

abbrev pub register_path : Text
register_path = codes "/register"

abbrev pub get_peers_path : Text
get_peers_path = codes "/peers"

abbrev pub handle_peer_message_path : Text
handle_peer_message_path = codes "/handle"

abbrev pub latest_block_state_path : Text
latest_block_state_path = codes "/block/state/latest"

-- A request of reqwest; a body is sent as JSON.
pub record Request : Type 0 where
  pub method : Method
  pub url : Text
  pub body : Option Bytes

-- `{}` of a `u32`
unfoldable pub decimal : ℕ → Text
unfolding digits_onto
decimal n = digits_onto 10 n []

unfoldable pub path : NetworkMessage → Text
path get_latest_block_state = latest_block_state_path
path (get_block_state idx) = codes "/block/state/" ++ decimal idx
path (get_block idx) = codes "/block/" ++ decimal idx
path (peer_message message) = handle_peer_message_path
path (register request) = register_path
path get_peers = get_peers_path

unfoldable pub method : NetworkMessage → Method
method get_latest_block_state = get
method (get_block_state idx) = get
method (get_block idx) = get
method (peer_message message) = post
method (register request) = post
method get_peers = get

unfoldable pub peers_response : Dict PeerId SocketAddr → PeersResponse
peers_response peers = record { peers = map (λ e. record { peer_id = e.0; addr = e.1 }) peers }

-- serde_json of what is sent, and the text of an address
pub record Json : Type 0 where
  pub message_json : Message → Bytes
  pub register_json : RegisterRequest → Bytes
  pub peers_json : PeersResponse → Bytes
  pub parse_peers : Bytes → Option PeersResponse
  pub addr_text : SocketAddr → Text

module _ (json : Json) where
  -- The body, empty for the messages that are asked by `GET`.
  unfoldable pub body : NetworkMessage → Bytes
  body (peer_message message) = json.message_json message
  body (register request) = json.register_json request
  body other = []

  -- `send_message` of both clients, up to the answer: `base` is `http://` and the address.
  unfoldable pub request_to : Text → NetworkMessage → Request
  unfolding body method path
  request_to base message = record {
    method = method message;
    url = base ++ path message;
    body = elim (method message) [ get ↦ none | post ↦ some (body message) ];
  }
