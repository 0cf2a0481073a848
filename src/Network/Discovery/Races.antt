-- ===== src/Network/Discovery/Races.antt =====
-- A registration that runs between the two locks of `get_peers` (src/bin/discovery.rs).
use rustchain.Base.{
  ℕ, ◌≡◌, refl, false, none, some, Bool-cases, inl, inr, length, ◌==◌, nat_eq, arith, sym, ◌∙◌, ap,
}
use rustchain.Base.Dict
use rustchain.Base.Dict.Unique.{Unique, get-keep, only_if}
use rustchain.Data.{PeerId}
use rustchain.Network.{RegisterRequest}
use rustchain.Network.Discovery.{
  Registration, AppState, register_peer, is_alive, alive_peers, write_alive,
}
use rustchain.Network.Discovery.Leases.{keep_all}

module _ (state : AppState) (now : ℕ) (stale : PeerId) (old : Registration)
    (unique : Unique state.known_peers) (there : Dict.get state.known_peers stale ≡ some old)
    (expired : is_alive now old ≡ false) where
  alive_peers-shorter : (length (alive_peers state now) == length state.known_peers) ≡ false
  unfolding alive_peers
  alive_peers-shorter =
      elim (Bool-cases (length (alive_peers state now) == length state.known_peers)) [
        | inr fewer ↦ fewer
        | inl same ↦
            let whole = keep_all (λ x. is_alive now x.1) state.known_peers (ground (arith, same)) in
            let kept = get-keep (is_alive now) state.known_peers stale unique in
            let gone : some old ≡ none =
              sym there
              ∙ ap (λ m. Dict.get m stale) (sym whole)
              ∙ kept
              ∙ rw (there, expired) refl in
            cc gone
      ]

  -- When some peer has expired, a peer that is not among the living and registers between the two
  -- locks of get_peers is not registered afterwards.
  pub registration_lost :
      (request : RegisterRequest) (later : ℕ)
      → only_if (is_alive now) (Dict.get state.known_peers request.peer_id) ≡ none
      → Dict.get
          (write_alive state
            (alive_peers state now)
            (register_peer state request later)).known_peers
          request.peer_id
        ≡ none
  unfolding write_alive
  registration_lost request later unknown =
      rw (alive_peers-shorter, write_alive)
        (unfold alive_peers in
          get-keep (is_alive now) state.known_peers request.peer_id unique ∙ unknown)
