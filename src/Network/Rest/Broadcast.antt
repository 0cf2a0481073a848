-- ===== src/Network/Rest/Broadcast.antt =====
-- `broadcast_peer_message` against `send_peer_message` (src/network/rest_network.rs).
use rustchain.Base.{
  ◌≡◌, refl, none, some, List, [], ◌∷◌, ◌++◌, if◌then◌else◌, ◌==◌, nat_eq, arith, Bool-cases, inl,
  inr, sym, ap, ◌∙◌,
}
use rustchain.Base.Dict
use rustchain.Base.Dict.{Dict}
use rustchain.Base.Dict.Unique.{Unique}
use rustchain.Data.{PeerId, Message, MessageBody}
use rustchain.Network.{SocketAddr, Json, peer_message}
use rustchain.Network.Rest.{
  RestNetwork, request_for, send_peer_message, spawn_to_others, broadcast_peer_message, known_peers,
}

-- One message for each peer but the sender.
unfoldable pub letters : MessageBody → PeerId → List PeerId → List Message
letters body from [] = []
letters body from (to ∷ peers) =
    let rest = letters body from peers in
    if to == from then rest else record { from = from; to = to; body = body } ∷ rest

-- Every entry of the second map is in the first.
abbrev Holds : Dict PeerId SocketAddr → Dict PeerId SocketAddr → Type 0
Holds known [] = Unit
Holds known ((id, addr) ∷ m) = (Dict.get known id ≡ some addr) × Holds known m

Holds-cons :
    (m known : Dict PeerId SocketAddr) (id : PeerId) (addr : SocketAddr)
    → Dict.get known id ≡ none
    → Holds known m
    → Holds ((id, addr) ∷ known) m
unfolding Dict.get
Holds-cons [] known id addr new h = tt
Holds-cons ((j, b) ∷ m) known id addr new h =
    (ground (arith, new, h.0), Holds-cons m known id addr new h.1)

Holds-self : (m : Dict PeerId SocketAddr) → Unique m → Holds m m
unfolding Dict.get
Holds-self [] u = tt
Holds-self ((id, addr) ∷ m) u = (ground arith, Holds-cons m m id addr u.0 (Holds-self m u.1))

module _ {Sender : Type 0} (json : Json) where
  unfoldable pub send_each : RestNetwork Sender → List Message → RestNetwork Sender
  send_each net [] = net
  send_each net (message ∷ messages) = send_each (send_peer_message json net message) messages

  spawn-send_each :
      (m : Dict PeerId SocketAddr) (net : RestNetwork Sender) (body : MessageBody) (from : PeerId)
      → Holds net.known_peers m
      → spawn_to_others json body from m net ≡ send_each net (letters body from (Dict.keys m))
  unfolding spawn_to_others send_each letters send_peer_message
  spawn-send_each [] net body from h = refl
  spawn-send_each ((id, addr) ∷ m) net body from h = elim (Bool-cases (id == from)) [
    | inl own ↦ rw (own, letters, spawn_to_others) (spawn-send_each m net body from h.1)
    | inr other ↦
        let message : Message = record { from = from; to = id; body = body } in
        let sent : RestNetwork Sender = record net {
          spawned = net.spawned ++ request_for json (peer_message message) addr ∷ [];
        } in
        let step : send_peer_message json net message ≡ sent = rw (h.0, send_peer_message) refl in
        rw (other, letters, spawn_to_others)
          (spawn-send_each m sent body from h.1
            ∙ ap (λ n. send_each n (letters body from (Dict.keys m))) (sym step))
  ]

  pub broadcast-send_each :
      (net : RestNetwork Sender) (body : MessageBody) (from : PeerId)
      → Unique net.known_peers
      → broadcast_peer_message json net body from
        ≡ send_each net (letters body from (known_peers net))
  unfolding broadcast_peer_message known_peers
  broadcast-send_each net body from u =
      spawn-send_each net.known_peers net body from (Holds-self net.known_peers u)
