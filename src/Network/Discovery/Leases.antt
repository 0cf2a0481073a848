-- ===== src/Network/Discovery/Leases.antt =====
-- How long the discovery server of src/bin/discovery.rs keeps a peer, when no handler runs inside
-- another.
use rustchain.Base.{
  ℕ, ◌≤◌, ◌≡◌, refl, Bool, Option, none, some, List, [], ◌∷◌, if◌then◌else◌, ◌==◌, nat_eq, length,
  keep, length-keep-le, arith, Bool-cases, inl, inr, sym, ◌∙◌, All,
}
use rustchain.Base.Dict
use rustchain.Base.Dict.{Dict, get-insert}
use rustchain.Base.Dict.Unique.{Unique, Unique-insert, Unique-keep, get-keep, only_if}
use rustchain.Data.{PeerId}
use rustchain.Network.{RegisterRequest}
use rustchain.Network.Discovery.{
  Registration, AppState, new_state, register_peer, is_alive, alive_peers, write_alive, get_peers,
}

-- A filter that keeps the length keeps the list.
pub keep_all {ℓ} :
    {A : Type ℓ} (p : A → Bool) (xs : List A) → length (keep p xs) ≡ length xs → keep p xs ≡ xs
unfolding keep
keep_all p [] h = refl
keep_all p (x ∷ xs) h = ground (arith, keep_all p xs, length-keep-le p xs)

write_alive-known :
    (state : AppState) (now : ℕ)
    → (write_alive state (alive_peers state now) state).known_peers ≡ alive_peers state now
unfolding write_alive
write_alive-known state now =
    elim (Bool-cases (length (alive_peers state now) == length state.known_peers)) [
      | inr fewer ↦ rw (fewer, write_alive) refl
      | inl same ↦
          rw (same, write_alive)
            (sym (
              unfold alive_peers in
              keep_all (λ x. is_alive now x.1) state.known_peers (ground (arith, same))))
    ]

-- What the server gets: a registration or a question, with its instant.
pub data Call : Type 0 where
  registers : RegisterRequest → Call
  asks : Call

unfoldable pub serve : AppState → ℕ → Call → AppState
serve state now (registers request) = register_peer state request now
serve state now asks = (get_peers state now).0

unfoldable pub serve_all : AppState → List (ℕ × Call) → AppState
serve_all state [] = state
serve_all state ((now, call) ∷ calls) = serve_all (serve state now call) calls

-- The last registration of a peer among the calls, or one from before.
unfoldable pub latest : Option Registration → List (ℕ × Call) → PeerId → Option Registration
latest before [] id = before
latest before ((now, registers request) ∷ calls) id =
    latest (if request.peer_id == id then some (request.addr, now) else before) calls id
latest before ((now, asks) ∷ calls) id = latest before calls id

-- No call comes after this instant.
abbrev pub Until : ℕ → List (ℕ × Call) → Type 0
Until now = All (λ call. call.0 ≤ now)

-- Who is alive later was alive before.
only_alive-only_alive :
    (before now : ℕ) (r : Option Registration)
    → before ≤ now
    → only_if (is_alive now) (only_if (is_alive before) r) ≡ only_if (is_alive now) r
unfolding is_alive
only_alive-only_alive before now none h = refl
only_alive-only_alive before now (some (addr, time)) h = ground arith

serve-Unique :
    (state : AppState) (now : ℕ) (call : Call)
    → Unique state.known_peers
    → Unique (serve state now call).known_peers
unfolding serve register_peer get_peers
serve-Unique state now (registers r) h = Unique-insert r.peer_id (r.addr, now) state.known_peers h
serve-Unique state now asks h =
    rw (write_alive-known state now)
      (unfold alive_peers in Unique-keep (is_alive now) state.known_peers h)

pub serve_all-Unique :
    (calls : List (ℕ × Call)) (state : AppState)
    → Unique state.known_peers
    → Unique (serve_all state calls).known_peers
unfolding serve_all
serve_all-Unique [] state h = h
serve_all-Unique ((now, call) ∷ calls) state h =
    serve_all-Unique calls (serve state now call) (serve-Unique state now call h)

get-serve_asks :
    (state : AppState) (now : ℕ) (id : PeerId)
    → Unique state.known_peers
    → Dict.get (serve state now asks).known_peers id
      ≡ only_if (is_alive now) (Dict.get state.known_peers id)
unfolding serve get_peers
get-serve_asks state now id h =
    rw (write_alive-known state now)
      (unfold alive_peers in get-keep (is_alive now) state.known_peers id h)

serve_all-latest :
    (calls : List (ℕ × Call)) (state : AppState) (before : Option Registration) (id : PeerId)
    (now : ℕ)
    → Unique state.known_peers
    → Until now calls
    → only_if (is_alive now) (Dict.get state.known_peers id) ≡ only_if (is_alive now) before
    → only_if (is_alive now) (Dict.get (serve_all state calls).known_peers id)
      ≡ only_if (is_alive now) (latest before calls id)
unfolding serve_all latest
serve_all-latest [] state before id now u h same = same
serve_all-latest ((time, registers r) ∷ calls) state before id now u h same =
    serve_all-latest calls (serve state time (registers r))
      (if r.peer_id == id then some (r.addr, time) else before) id now
      (serve-Unique state time (registers r) u) h.1
      (unfold serve register_peer in
        ground (arith, get-insert state.known_peers r.peer_id id (r.addr, time), same))
serve_all-latest ((time, asks) ∷ calls) state before id now u h same =
    serve_all-latest calls (serve state time asks) before id now (serve-Unique state time asks u)
      h.1
      (rw (get-serve_asks state time id u)
        (only_alive-only_alive time now (Dict.get state.known_peers id) h.0 ∙ same))

-- What the server answers at an instant, after all calls before it.
pub alive_peers-latest :
    (calls : List (ℕ × Call)) (id : PeerId) (now : ℕ)
    → Until now calls
    → Dict.get (alive_peers (serve_all new_state calls) now) id
      ≡ only_if (is_alive now) (latest none calls id)
unfolding alive_peers
alive_peers-latest calls id now h =
    let state = serve_all new_state calls in
    let u = serve_all-Unique calls new_state (unfold new_state in tt) in
    get-keep (is_alive now) state.known_peers id u
    ∙ serve_all-latest calls new_state none id now (unfold new_state in tt) h
        (unfold new_state Dict.get in refl)
