-- ===== src/Network/Tests.antt =====
-- Runs of the discovery server (src/bin/discovery.rs) and of the networks of src/network.
use rustchain.Base.{
  ℕ, ◌+◌, ◌*◌, ◌^◌, ◌≡◌, refl, ◌↔◌, none, some, List, [], ◌∷◌, ◌++◌, Result, ok, err, if◌then◌else◌,
  nat_eq, arith,
}
use mathlib.Core.Option
use rustchain.Base.Dict
use rustchain.Base.Dict.Unique.{only_if}
use rustchain.Base.Sets.{contains}
use rustchain.Data.{Bytes, Message, block_approved, Error, peer_not_found}
use rustchain.Network.{
  method, SocketAddr, RegisterRequest, get_block, Request, Json, path, decimal, codes,
}
use rustchain.Network.Discovery.{
  AppState, new_state, register_peer, is_alive, alive_peers, write_alive, get_peers,
}
use rustchain.Network.Discovery.Leases.{Call, registers, asks, serve_all, latest}
use rustchain.Network.Discovery.Races.{registration_lost}
use rustchain.Network.Local
use rustchain.Network.Local.{LocalNetwork}
use rustchain.Network.Paths.{path-eq}
use rustchain.Network.Rest.{
  RestNetwork, Round, start, update_peers, run, send_and_wait, send_to_all,
}
use rustchain.Network.Rest.Asked.{asked, send_to_all-send_and_wait}
use rustchain.Network.Rest.Checks.{Stopped, Streak, run-Streak}
use rustchain.Network.Rest.Known.{update_peers-discovered}

abbrev home : SocketAddr
home = record { ip = 127 ∷ 0 ∷ 0 ∷ 1 ∷ []; port = 3001 }

abbrev away : SocketAddr
away = record { ip = 10 ∷ 0 ∷ 0 ∷ 1 ∷ []; port = 3002 }

abbrev first : RegisterRequest
first = record { peer_id = 1; addr = home }

abbrev second : RegisterRequest
second = record { peer_id = 2; addr = away }

-- Two peers register, and one asks within the time that they are kept.
abbrev calls : List (ℕ × Call)
calls = (0, registers first) ∷ (5, registers second) ∷ (7, asks) ∷ []

-- A network whose channel takes everything.
abbrev net : RestNetwork (List Message)
net = record {
  peer_id = 1;
  known_peers = (2, away) ∷ [];
  peer_sender = [];
  spawned = [];
  notified = 0;
}

update_peers-discovered_example :
    Dict.get
      (update_peers net (ok (get_peers (serve_all new_state calls) 9).1.peers)).0.known_peers
      2
    ≡ Option.map (λ r. r.0) (only_if (is_alive 9) (latest none calls 2))
update_peers-discovered_example = update_peers-discovered net calls 9 2 (omega arith)

-- Peer 2 has gone quiet when the server reads; peer 1 registers before it writes.
abbrev quiet : AppState
quiet = record { known_peers = (2, (away, 0)) ∷ [] }

registration_lost_example :
    Dict.get
      (write_alive quiet
        (alive_peers quiet (30 * 10 ^ 9))
        (register_peer quiet first (30 * 10 ^ 9 + 1))).known_peers
      1
    ≡ none
registration_lost_example =
    registration_lost quiet (30 * 10 ^ 9) 2 (away, 0) (unfold Dict.get in (refl, tt))
      (unfold Dict.get in refl) (unfold is_alive in refl) first (30 * 10 ^ 9 + 1)
      (unfold Dict.get in refl)

abbrev failing : Round
failing = record { registered = err peer_not_found; peers = ok [] }

abbrev five_failures : List Round
five_failures = failing ∷ failing ∷ failing ∷ failing ∷ failing ∷ []

run-Streak_example :
    Stopped (run (start net) (five_failures ++ failing ∷ []))
    ↔ Streak (five_failures ++ failing ∷ [])
run-Streak_example = run-Streak net (five_failures ++ failing ∷ [])

four_failures_go_on : (run (start net) (failing ∷ failing ∷ failing ∷ failing ∷ [])).1 ≡ none
unfolding run start
four_failures_go_on = refl

abbrev plain : Json
plain = record {
  message_json = λ m. m.from ∷ m.to ∷ [];
  register_json = λ r. r.peer_id ∷ [];
  peers_json = λ p. [];
  parse_peers = λ bytes. none;
  addr_text = λ a. a.port ∷ [];
}

-- Every peer answers with the address that it is asked at.
abbrev echo : Request → Result Error Bytes
echo r = ok r.url

send_to_all-send_and_wait_example :
    Dict.get (send_to_all plain echo (λ bytes. ok bytes) net (get_block 7) (2 ∷ 3 ∷ 2 ∷ [])) 2 ≡ (
      if contains (asked net.known_peers (2 ∷ 3 ∷ 2 ∷ [])) 2
      then some (send_and_wait plain echo (λ bytes. ok bytes) net 2 (get_block 7))
      else none)
send_to_all-send_and_wait_example =
    send_to_all-send_and_wait plain echo (λ bytes. ok bytes) net (get_block 7) (2 ∷ 3 ∷ 2 ∷ []) 2

-- Peer 2 is known, but stands behind peer 3, which is not.
never_asked :
    Dict.get (send_to_all plain echo (λ bytes. ok bytes) net (get_block 7) (3 ∷ 2 ∷ [])) 2 ≡ none
unfolding send_to_all Dict.get Dict.insert
never_asked = refl

block_path : path (get_block 120) ≡ codes "/block/120"
unfolding path decimal
block_path = refl

-- A message is put into the channel of its sender.
back_to_sender :
    Option.map
      (λ r. Dict.get r.0.senders 1)
      (Local.on_message_received {Sender = List Message}
        (λ sender message. ok (message ∷ sender))
        (record {
          senders = (1, []) ∷ (2, []) ∷ [];
          known_peers = [];
          block_storage_views = [];
          broadcasted_messages = [];
        })
        (record { from = 1; to = 2; body = block_approved 9 }))
    ≡ some (some (record { from = 1; to = 2; body = block_approved 9 } ∷ []))
unfolding Local.on_message_received Dict.get Dict.insert
back_to_sender = refl

path-eq_example : get_block 120 ≡ get_block 120
path-eq_example =
    path-eq (get_block 120) (get_block 120) (unfold method in refl) (unfold method in refl)
      (omega arith) (omega arith) refl
