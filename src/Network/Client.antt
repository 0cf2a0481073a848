-- ===== src/Network/Client.antt =====
-- `HttpDiscoveryClient` of src/network/discovery_client.rs, and the address that the discovery server
-- of src/bin/discovery.rs listens to. The variables of the environment are texts that are set or not;
-- `http` is reqwest.
use rustchain.Base.{ℕ, Option, none, some, List, [], ◌∷◌, ◌++◌, Result, ok, err, ◌>>=◌}
use rustchain.Data.{Bytes, PeerId, Error, bad_bind_host, peers_not_deserialized}
use rustchain.Network.{
  Text, codes, IpAddr, SocketAddr, PeerWithAddr, register, get_peers, decimal, Request, Json,
  request_to,
}
use rustchain.Network.Rest.{Round}

abbrev pub local_host : IpAddr
local_host = 127 ∷ 0 ∷ 0 ∷ 1 ∷ []

abbrev pub base_port : ℕ
base_port = 3000

pub record HttpDiscoveryClient : Type 0 where
  pub discovery_base_url : Text

-- `parse::<u16>` of the variable, or the default
unfoldable pub port_or_default : (Text → Option ℕ) → Option Text → ℕ
port_or_default parse_port none = base_port
port_or_default parse_port (some text) = elim (parse_port text) [
  | none ↦ base_port
  | some port ↦ port
]

unfoldable pub client_from_env :
    (IpAddr → Text) → (Text → Option ℕ) → Option Text → Option Text → HttpDiscoveryClient
unfolding port_or_default
client_from_env ip_text parse_port host port =
    let discovery_host : Text = elim host [ none ↦ ip_text local_host | some text ↦ text ] in
    record {
      discovery_base_url =
          codes "http://" ++ (discovery_host ++ b':' ∷ decimal (port_or_default parse_port port));
    }

unfoldable pub new_client : Json → SocketAddr → HttpDiscoveryClient
new_client json discovery_addr = record {
  discovery_base_url = codes "http://" ++ json.addr_text discovery_addr;
}

-- `DiscoveryConfig::from_env` of the server
unfoldable pub server_from_env :
    (IpAddr → Text)
    → (Text → Option IpAddr)
    → (Text → Option ℕ)
    → Option Text
    → Option Text
    → Result Error SocketAddr
unfolding port_or_default
server_from_env ip_text parse_ip parse_port bind_host port =
    let host : Text = elim bind_host [ none ↦ ip_text local_host | some text ↦ text ] in
    elim (parse_ip host) [
      | none ↦ err bad_bind_host
      | some ip ↦ ok (record { ip = ip; port = port_or_default parse_port port })
    ]

module _ (json : Json) (http : Request → Result Error Bytes) (client : HttpDiscoveryClient) where
  unfoldable pub register_with : PeerId → SocketAddr → Result Error (Unit {0})
  register_with peer_id addr = do
    response ← http (
        request_to json client.discovery_base_url
          (register (record { peer_id = peer_id; addr = addr })))
    ok tt

  unfoldable pub peers : Result Error (List PeerWithAddr)
  peers = do
    response ← http (request_to json client.discovery_base_url get_peers)
    elim (json.parse_peers response) [
      | none ↦ err peers_not_deserialized
      | some found ↦ ok found.peers
    ]

  -- What `run` gets from this client in one round.
  unfoldable pub round : PeerId → SocketAddr → Round
  unfolding register_with peers
  round peer_id addr = record { registered = register_with peer_id addr; peers = peers }
