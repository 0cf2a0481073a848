-- ===== src/Network/Discovery.antt =====
-- The discovery server of src/bin/discovery.rs. `get_peers` holds the lock twice, once to read and
-- once to write, and another handler can run in between; `now` is `Instant::now()` in nanoseconds.
pub mod Leases
pub mod Races
use rustchain.Base.{
  ℕ, ◌-◌, ◌*◌, ◌^◌, Bool, List, [], ◌∷◌, ltb, if◌then◌else◌, ◌==◌, nat_eq, length, keep,
}
use rustchain.Base.Dict
use rustchain.Base.Dict.{Dict}
use rustchain.Base.Dict.Unique.{map_values}
use rustchain.Data.{PeerId}
use rustchain.Network.{SocketAddr, RegisterRequest, PeersResponse, peers_response}

abbrev pub keep_alive : ℕ
keep_alive = 20 * 10 ^ 9

-- An address and the instant of its registration.
abbrev pub Registration : Type 0
Registration = SocketAddr × ℕ

pub record AppState : Type 0 where
  pub known_peers : Dict PeerId Registration

unfoldable pub new_state : AppState
new_state = record { known_peers = [] }

unfoldable pub register_peer : AppState → RegisterRequest → ℕ → AppState
register_peer state peer_request now = record {
  known_peers = Dict.insert peer_request.peer_id (peer_request.addr, now) state.known_peers;
}

-- `elapsed() < KEEP_ALIVE`; the elapsed time stops at 0, as `-` does.
unfoldable pub is_alive : ℕ → Registration → Bool
is_alive now (addr, time) = ltb (now - time) keep_alive

-- What `get_peers` collects under the lock that reads.
unfoldable pub alive_peers : AppState → ℕ → Dict PeerId Registration
alive_peers state now = keep (λ x. is_alive now x.1) state.known_peers

-- Whether it writes at all is decided by the state that has been read, the lock that writes is
-- taken on the state as it is then.
unfoldable pub write_alive : AppState → Dict PeerId Registration → AppState → AppState
write_alive read_state filtered state =
    if length filtered == length read_state.known_peers
    then state
    else record { known_peers = filtered }

unfoldable pub answer : Dict PeerId Registration → PeersResponse
answer filtered = peers_response (map_values (λ x. x.0) filtered)

-- The handler when nothing runs in between.
unfoldable pub get_peers : AppState → ℕ → AppState × PeersResponse
unfolding alive_peers write_alive answer
get_peers state now =
    let filtered = alive_peers state now in (write_alive state filtered state, answer filtered)
