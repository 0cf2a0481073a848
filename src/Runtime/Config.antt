-- ===== src/Runtime/Config.antt =====
-- `ConsensusMode` and `PeerConfig` of src/peer_runtime.rs, with the reading of a `PeerId`
-- (src/peer/messages.rs). The variables of the environment are texts that are set or not; how an IP
-- address is written and which addresses a host has are parameters.
pub mod Ports
use rustchain.Base.{
  ℕ, ◌+◌, ◌-◌, ◌*◌, ◌%◌, ◌^◌, Bool, ◌&&◌, Option, none, some, List, [], ◌∷◌, map, Result, ok, err,
  ◌>>=◌, ltb, leb, if◌then◌else◌, ◌==◌, nat_eq, bytes_eq,
}
use rustchain.Data.{
  PeerId, Error, bad_consensus_mode, peer_id_missing, peer_id_not_a_number, peer_id_too_big,
  bad_bind_host, host_without_address,
}
use rustchain.Network.{Text, codes, IpAddr, SocketAddr}

pub data ConsensusMode : Type 0 where
  voting_mode raft_mode : ConsensusMode

-- `to_ascii_lowercase`
unfoldable pub to_lower : ℕ → ℕ
to_lower c = if leb b'A' c && leb c b'Z' then c + 32 else c

unfoldable pub consensus_mode_from_str : Text → Result Error ConsensusMode
unfolding to_lower
consensus_mode_from_str value =
    let lower = map to_lower value in
    if lower == codes "voting"
    then ok voting_mode
    else if lower == codes "raft"
    then ok raft_mode
    else err bad_consensus_mode

-- `parse::<u32>`: digits, behind a `+` or not, that do not overflow
unfoldable pub parse_digits : ℕ → Text → Option ℕ
parse_digits n [] = if ltb n (2 ^ 32) then some n else none
parse_digits n (d ∷ ds) =
    let rest = parse_digits (n * 10 + (d - b'0')) ds in
    if leb b'0' d && leb d b'9' then rest else none

unfoldable pub parse_unsigned : Text → Option ℕ
unfolding parse_digits
parse_unsigned [] = none
parse_unsigned (d ∷ ds) = parse_digits 0 (d ∷ ds)

-- `PeerId::from_str`
unfoldable pub peer_id_from_str : Text → Option PeerId
unfolding parse_unsigned
peer_id_from_str [] = none
peer_id_from_str (d ∷ ds) = if d == b'+' then parse_unsigned ds else parse_unsigned (d ∷ ds)

-- `TryInto<u16>` of a `PeerId`
unfoldable pub peer_id_to_port_offset : PeerId → Result Error ℕ
peer_id_to_port_offset peer_id = if ltb peer_id (2 ^ 16) then ok peer_id else err peer_id_too_big

abbrev pub default_channel_size : ℕ
default_channel_size = 1000

abbrev pub default_mempool_size : ℕ
default_mempool_size = 5

abbrev pub default_base_port : ℕ
default_base_port = 3000

abbrev pub default_local_host : IpAddr
default_local_host = 127 ∷ 0 ∷ 0 ∷ 1 ∷ []

pub record PeerConfig : Type 0 where
  pub peer_id : PeerId
  pub listening_addr : SocketAddr
  pub advertised_addr : SocketAddr
  pub channel_size : ℕ
  pub consensus_mode : ConsensusMode

-- The variables that the peer reads.
pub record Variables : Type 0 where
  pub peer_id : Option Text
  pub consensus_mode : Option Text
  pub peer_bind_host : Option Text
  pub peer_advertise_host : Option Text

unfoldable pub read_peer_id : Option Text → Result Error PeerId
read_peer_id none = err peer_id_missing
read_peer_id (some text) = elim (peer_id_from_str text) [
  | none ↦ err peer_id_not_a_number
  | some peer_id ↦ ok peer_id
]

unfoldable pub read_consensus_mode : Option Text → Result Error ConsensusMode
read_consensus_mode none = consensus_mode_from_str (codes "raft")
read_consensus_mode (some text) = consensus_mode_from_str text

-- The default host is the text of an address, which is that address.
unfoldable pub read_bind_ip : (Text → Option IpAddr) → Option Text → Result Error IpAddr
read_bind_ip parse_ip none = ok default_local_host
read_bind_ip parse_ip (some host) = elim (parse_ip host) [
  | none ↦ err bad_bind_host
  | some ip ↦ ok ip
]

unfoldable pub first_address : List SocketAddr → Result Error SocketAddr
first_address [] = err host_without_address
first_address (addr ∷ addrs) = ok addr

unfoldable pub read_advertised :
    (Text → ℕ → Result Error (List SocketAddr)) → Option Text → SocketAddr → Result Error SocketAddr
read_advertised resolve none listening_addr = ok listening_addr
read_advertised resolve (some host) listening_addr = do
  addrs ← resolve host listening_addr.port
  first_address addrs

module _ (parse_ip : Text → Option IpAddr)
    (resolve : Text → ℕ → Result Error (List SocketAddr)) where
  -- The addition of the ports is that of `u16`.
  unfoldable pub from_env : Variables → Result Error PeerConfig
  from_env vars = do
    peer_id ← read_peer_id vars.peer_id
    consensus_mode ← read_consensus_mode vars.consensus_mode
    port_offset ← peer_id_to_port_offset peer_id
    let port = (default_base_port + port_offset) % 2 ^ 16
    bind_ip ← read_bind_ip parse_ip vars.peer_bind_host
    let listening_addr : SocketAddr = record { ip = bind_ip; port = port }
    advertised_addr ← read_advertised resolve vars.peer_advertise_host listening_addr
    ok (record {
      peer_id = peer_id;
      listening_addr = listening_addr;
      advertised_addr = advertised_addr;
      channel_size = default_channel_size;
      consensus_mode = consensus_mode;
    })
