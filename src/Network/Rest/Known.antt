-- ===== src/Network/Rest/Known.antt =====
-- The peers that `update_peers` keeps (src/network/rest_network.rs), and the discovery server that
-- names them (src/bin/discovery.rs).
use rustchain.Base.{
  ℕ, ◌≡◌, Option, none, some, List, [], ◌∷◌, ok, if◌then◌else◌, ◌==◌, nat_eq, arith, ◌∙◌,
}
use mathlib.Core.Option
use rustchain.Base.Dict
use rustchain.Base.Dict.{Dict, get-insert}
use rustchain.Base.Dict.Unique.{
  Unique, Unique-insert, Unique-keep, Unique-map_values, get-map_values, map_values, only_if,
}
use rustchain.Data.{PeerId}
use rustchain.Network.{SocketAddr, PeerWithAddr, peers_response}
use rustchain.Network.Discovery.{new_state, is_alive, alive_peers, answer, get_peers}
use rustchain.Network.Discovery.Leases.{
  Call, serve_all, serve_all-Unique, latest, Until, alive_peers-latest,
}
use rustchain.Network.Rest.{RestNetwork, insert_others, update_peers}

-- The first of two that is there
abbrev or_else {ℓ} : {A : Type ℓ} → Option A → Option A → Option A
or_else none b = b
or_else (some a) b = some a

insert_others-Unique :
    (self : PeerId) (peers : List PeerWithAddr) (known : Dict PeerId SocketAddr)
    → Unique known
    → Unique (insert_others self peers known)
unfolding insert_others
insert_others-Unique self [] known h = h
insert_others-Unique self (peer ∷ peers) known h =
    insert_others-Unique self peers
      (if peer.peer_id == self then known else Dict.insert peer.peer_id peer.addr known)
      (ground (arith, Unique-insert peer.peer_id peer.addr known h))

-- A map in which no key stands twice, without the peer itself, over what was known.
get-insert_others :
    (self id : PeerId) (m known : Dict PeerId SocketAddr)
    → Unique m
    → Dict.get (insert_others self (peers_response m).peers known) id
      ≡ (if self == id then Dict.get known id else or_else (Dict.get m id) (Dict.get known id))
unfolding insert_others peers_response Dict.get
get-insert_others self id [] known u = ground arith
get-insert_others self id ((k, a) ∷ m) known u =
    get-insert_others self id m (if k == self then known else Dict.insert k a known) u.1
    ∙ ground (arith, get-insert known k id a, u.0)

module _ {Sender : Type 0} where
  -- A peer that updates its peers with the answer of the discovery server knows exactly the other
  -- peers whose last registration is less than 20 seconds old, at the address of that
  -- registration, after any calls of the server up to then of which none runs inside another.
  pub update_peers-discovered :
      (net : RestNetwork Sender) (calls : List (ℕ × Call)) (now : ℕ) (id : PeerId)
      → Until now calls
      → Dict.get
          (update_peers net (ok (get_peers (serve_all new_state calls) now).1.peers)).0.known_peers
          id
        ≡ (if net.peer_id == id
            then none
            else Option.map (λ r. r.0) (only_if (is_alive now) (latest none calls id)))
  unfolding update_peers get_peers answer
  update_peers-discovered net calls now id h =
      let alive = alive_peers (serve_all new_state calls) now in
      let u : Unique alive =
        unfold alive_peers in
        Unique-keep (is_alive now) (serve_all new_state calls).known_peers
          (serve_all-Unique calls new_state (unfold new_state in tt)) in
      get-insert_others net.peer_id id (map_values (λ x. x.0) alive) []
        (Unique-map_values (λ x. x.0) alive u)
      ∙ unfold Dict.get in
        ground (
          arith,
          get-map_values (λ (x : SocketAddr × ℕ). x.0) alive id,
          alive_peers-latest calls id now h,
        )

  pub update_peers-Unique :
      (net : RestNetwork Sender) (peers : List PeerWithAddr)
      → Unique (update_peers net (ok peers)).0.known_peers
  unfolding update_peers
  update_peers-Unique net peers = insert_others-Unique net.peer_id peers [] tt
