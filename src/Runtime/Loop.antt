-- ===== src/Runtime/Loop.antt =====
-- How far the loop of `run_peer` gets (src/peer_runtime.rs), whatever reaches it.
use rustchain.Base.{
  ◌⊎◌, ℕ, suc, ◌+◌, ◌-◌, ◌≤◌, ◌<◌, ◌^◌, ◌≡◌, refl, Option, none, some, List, [], ◌∷◌, Result, All,
  ltb, ◌==◌, nat_eq, add_u32, length, arith, Bool-cases, inl, inr,
}
use native.Mathlib.Decide.{dec_lt}
use rustchain.Runtime.Chain.{runtime_chain, run_loop-Extends}
use rustchain.Storage.{read_from_disk_by_index}
use rustchain.Storage.Chain.{Grows, Grows-same, append_blocks, read-append_blocks}
use rustchain.Data.{BlockHash, BlockFile, Error, channel_closed}
use rustchain.Env.{Env}
use rustchain.Peer.{apply_block}
use rustchain.Peer.Totality.{handle_message-Returns, handle_tick-Returns}
use rustchain.Runtime.{
  Runtime, Event, received, closed, sync_tick, consensus_tick, peers_updated, Handled, with_peer,
  with_known_peers, after_handler, after_sync, run_event, run_loop,
}
use rustchain.Sync.Rounds.{IsConnected, get_block_file-some}
use rustchain.Sync.{
  SyncState, success, fail, PeersStates, get_max_index, Answers, try_block, sync_loop,
  check_and_retrieve_missing_blocks,
}

-- The call ends.
abbrev Ends : {S : Type 0} → Option (S × SyncState) → Type 0
Ends {S} call = (result : S × SyncState) × (call ≡ some result)

module _ {S : Type 0} (apply_block : S → BlockFile → S × Result Error (Unit {0}))
    (states : PeersStates) where
  sync_loop-Ends :
      (rounds : List Answers) (s : S) (index errors : ℕ)
      → get_max_index states + 1 < 2 ^ 32
      → errors ≤ 3
      → All IsConnected rounds
      → (get_max_index states + 1 - index) + (3 - errors) ≤ length rounds
      → Ends (sync_loop apply_block states s index errors rounds)
  unfolding sync_loop
  sync_loop-Ends [] s index errors small few connected enough =
      elim (Bool-cases (ltb (get_max_index states) index)) [
        | inl above ↦ ((s, success), rw (above, sync_loop) refl)
        | inr within ↦ elim (Bool-cases (errors == 3)) [
          | inl many ↦ ((s, fail), rw (within, many, sync_loop) refl)
          | inr fewer ↦ absurd (ground (arith, within))
        ]
      ]
  sync_loop-Ends (answers ∷ rounds) s index errors small few connected enough =
      let (fetched, got) = get_block_file-some states index answers connected.0 in
      let tried = try_block apply_block s fetched in
      elim (Bool-cases (ltb (get_max_index states) index)) [
        | inl above ↦ ((s, success), rw (above, sync_loop) refl)
        | inr within ↦ elim (Bool-cases (errors == 3)) [
          | inl many ↦ ((s, fail), rw (within, many, sync_loop) refl)
          | inr fewer ↦ elim (Bool-cases tried.1) [
            | inl applied ↦
                rw (within, fewer, got, applied, sync_loop)
                  (sync_loop-Ends rounds tried.0 (add_u32 index 1) errors small few connected.1
                    (ground (arith, within)))
            | inr missed ↦
                rw (within, fewer, got, missed, sync_loop)
                  (sync_loop-Ends rounds tried.0 index (suc errors) small (ground (arith, fewer))
                    connected.1 (ground (arith, within, fewer)))
          ]
        ]
      ]

  check_and_retrieve-Ends :
      (s : S) (height : ℕ) (rounds : List Answers)
      → get_max_index states + 1 < 2 ^ 32
      → All IsConnected rounds
      → get_max_index states + 4 ≤ length rounds
      → Ends (check_and_retrieve_missing_blocks apply_block states s height rounds)
  unfolding check_and_retrieve_missing_blocks
  check_and_retrieve-Ends s height rounds small connected enough =
      elim (Bool-cases (height == get_max_index states)) [
        | inl level ↦ ((s, success), rw (level, check_and_retrieve_missing_blocks) refl)
        | inr apart ↦
            rw (apart, check_and_retrieve_missing_blocks)
              (sync_loop-Ends rounds s (add_u32 height 1) 0 small (omega arith) connected
                (omega arith))
      ]

-- A tick of the synchronization has answers for one round per block of the highest peer and for the
-- three that may fail.
abbrev pub Enough : Event → Type 0
Enough (sync_tick states rounds) =
    (get_max_index states + 1 < 2 ^ 32)
    × All IsConnected rounds
    × (get_max_index states + 4 ≤ length rounds)
Enough other = Unit

-- From some fuel on the loop gives one result.
abbrev pub Settles : (ℕ → Handled) → Type 0
Settles run =
    (fuel : ℕ) × (result : Runtime × Option Error) × ((extra : ℕ)
      → run (fuel + extra) ≡ some result)

module _ (env : Env) where
  run_event-Settles :
      (r : Runtime) (event : Event) → Enough event → Settles (λ fuel. run_event env fuel r event)
  unfolding run_event after_handler
  run_event-Settles r (received message now) h =
      let (fuel, (peer, errors), ends) = handle_message-Returns env r.peer message now in
      (fuel, (with_peer r peer, none), λ extra. rw (ends extra) refl)
  run_event-Settles r closed h = (0, (r, some channel_closed), λ extra. refl)
  run_event-Settles r (sync_tick states rounds) h = elim (Bool-cases r.synchronizes) [
    | inr idle ↦ (0, (r, none), λ extra. rw (idle, run_event) refl)
    | inl busy ↦
        let ((peer, state), ends) =
          check_and_retrieve-Ends (apply_block env 0) states r.peer
            r.peer.services.effects.block_keeper.storage_state.block_height rounds h.0 h.1 h.2 in
        (
          0,
          (with_peer r peer, none),
          λ extra. rw (busy, run_event) (unfold apply_block after_sync in rw ends refl),
        )
  ]
  run_event-Settles r (consensus_tick now) h = elim (Bool-cases r.requires_consensus_tick) [
    | inr idle ↦ (0, (r, none), λ extra. rw (idle, run_event) refl)
    | inl busy ↦
        let (fuel, (peer, errors), ends) = handle_tick-Returns env r.peer now in
        (fuel, (with_peer r peer, none), λ extra. rw (busy, run_event) (rw (ends extra) refl))
  ]
  run_event-Settles r (peers_updated peers) h =
      (0, (with_peer r (with_known_peers r.peer peers), none), λ extra. refl)

  -- After one event the loop goes on, or has ended.
  go_on :
      (r : Runtime) (event : Event) (events : List Event) (result : Runtime × Option Error)
      (fuel : ℕ)
      → ((extra : ℕ) → run_event env (fuel + extra) r event ≡ some result)
      → ((next : Runtime) → Settles (λ more. run_loop env more next events))
      → Settles (λ more. run_loop env more r (event ∷ events))
  unfolding run_loop
  go_on r event events (next, some e) fuel ends rest =
      (fuel, (next, some e), λ extra. rw (ends extra, run_loop) refl)
  go_on r event events (next, none) fuel ends rest =
      let (more, result, finish) = rest next in
      (
        fuel + more,
        result,
        λ extra.
            let first : fuel + more + extra ≡ fuel + (more + extra) = omega arith in
            let second : fuel + more + extra ≡ more + (fuel + extra) = omega arith in
            let one : run_event env (fuel + more + extra) r event ≡ some (next, none) =
              rw first (ends (more + extra)) in
            let others : run_loop env (fuel + more + extra) next events ≡ some result =
              rw second (finish (fuel + extra)) in
            rw (one, run_loop) others,
      )

  run_loop-Settles :
      (events : List Event) (r : Runtime)
      → All Enough events
      → Settles (λ fuel. run_loop env fuel r events)
  unfolding run_loop
  run_loop-Settles [] r h = (0, (r, none), λ extra. refl)
  run_loop-Settles (event ∷ events) r h =
      let (fuel, result, ends) = run_event-Settles r event h.0 in
      go_on r event events result fuel ends (λ next. run_loop-Settles events next h.1)

  -- From some fuel on the loop of run_peer gives one result, whatever events reach it, and its
  -- chain is the one before with further blocks, each in the file of the next index; a block up to
  -- the height before is read from the disk as before, unless an index wraps at the end of u32.
  -- Each tick of the synchronization has answers for one round per block of the highest peer and
  -- for four more, with a known peer in each, and no height of a peer is the last of u32.
  pub run_loop-Grows :
      (events : List Event) (r : Runtime) (index : ℕ)
      → All Enough events
      → index ≤ (runtime_chain r).storage_state.block_height
      → (fuel : ℕ) × (next : Runtime) × (error : Option Error) × (blocks : List
          (BlockHash × BlockFile))
        × ((extra : ℕ) → run_loop env (fuel + extra) r events ≡ some (next, error))
        × (runtime_chain next ≡ append_blocks env (runtime_chain r) blocks)
        × ((2 ^ 32 ≤ (runtime_chain r).storage_state.block_height + length blocks)
            ⊎ (read_from_disk_by_index env (runtime_chain next).disk index
                ≡ read_from_disk_by_index env (runtime_chain r).disk index))
  run_loop-Grows events r index h low =
      let (fuel, (next, error), ends) = run_loop-Settles events r h in
      let left = run_loop-Extends env (fuel + 0) (runtime_chain r) events r (Grows-same env refl) in
      let grows : Grows env (runtime_chain r) (runtime_chain next) = rw (ends 0) at left in
      (
        fuel,
        next,
        error,
        grows.blocks,
        ends,
        grows.grown,
        elim (dec_lt ((runtime_chain r).storage_state.block_height + length grows.blocks)
            (2 ^ 32)) [
              | no wraps ↦ inl (omega arith)
              | yes fits ↦ inr (
                  rw grows.grown
                    (read-append_blocks env grows.blocks (runtime_chain r) index low fits))
            ],
      )
