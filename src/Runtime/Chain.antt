-- ===== src/Runtime/Chain.antt =====
-- The chain of blocks over a run of the loop of src/peer_runtime.rs.
use rustchain.Base.{
  Bool, true, false, if◌then◌else◌, ℕ, Option, none, some, List, [], ◌∷◌, Bool-cases, Option-cases,
  Result-cases, inl, inr, Result, ltb, ◌==◌, nat_eq, add_u32,
}
use rustchain.Data.{BlockFile, Error}
use rustchain.Env.{Env}
use rustchain.Peer.{Peer, apply_block}
use rustchain.Peer.Chain.{
  peer_chain, HandledExtends, handle_message-Extends, handle_tick-Extends, apply_block-Extends,
}
use rustchain.Runtime.{
  Runtime, Event, received, closed, sync_tick, consensus_tick, peers_updated, Handled,
  after_handler, after_sync, run_event, run_loop,
}
use rustchain.Storage.Chain.{Chain, Grows}
use rustchain.Sync.{
  SyncState, PeersStates, get_max_index, Answers, get_block_file, try_block, sync_loop,
  check_and_retrieve_missing_blocks,
}

module _ {S : Type 0} (apply : S → BlockFile → S × Result Error (Unit {0})) (P : S → Type 0)
    (keeps : (s : S) (b : BlockFile) → P s → P (apply s b).0) where
  -- What holds of the object that a run has left, if it has ended.
  abbrev pub Left : Option (S × SyncState) → Type 0
  Left none = Unit
  Left (some (t, outcome)) = P t

  try_block-Left : (s : S) (fetched : Option BlockFile) → P s → P (try_block apply s fetched).0
  unfolding try_block
  try_block-Left s none h = h
  try_block-Left s (some b) h = elim (Result-cases (apply s b).1) [
    | inl (_, done) ↦ rw (done, try_block) (keeps s b h)
    | inr (e, failed) ↦ rw (failed, try_block) (keeps s b h)
  ]

  sync_loop-Left :
      (states : PeersStates) (rounds : List Answers) (s : S) (index errors : ℕ)
      → P s
      → Left (sync_loop apply states s index errors rounds)
  unfolding sync_loop
  sync_loop-Left states [] s index errors h = elim (Bool-cases (ltb (get_max_index states) index)) [
    | inl above ↦ rw (above, sync_loop) h
    | inr within ↦ elim (Bool-cases (errors == 3)) [
      | inl many ↦ rw (within, many, sync_loop) h
      | inr fewer ↦ rw (within, fewer, sync_loop) tt
    ]
  ]
  sync_loop-Left states (answers ∷ rounds) s index errors h =
      elim (Bool-cases (ltb (get_max_index states) index)) [
        | inl above ↦ rw (above, sync_loop) h
        | inr within ↦ elim (Bool-cases (errors == 3)) [
          | inl many ↦ rw (within, many, sync_loop) h
          | inr fewer ↦ elim (Option-cases (get_block_file states index answers)) [
            | inl panic ↦ rw (within, fewer, panic, sync_loop) tt
            | inr (fetched, got) ↦
                rw (within, fewer, got, sync_loop)
                  (sync_loop-Left states rounds (try_block apply s fetched).0 _ _
                    (try_block-Left s fetched h))
          ]
        ]
      ]

  pub check_and_retrieve-Left :
      (states : PeersStates) (s : S) (height : ℕ) (rounds : List Answers)
      → P s
      → Left (check_and_retrieve_missing_blocks apply states s height rounds)
  unfolding check_and_retrieve_missing_blocks
  check_and_retrieve-Left states s height rounds h =
      elim (Bool-cases (height == get_max_index states)) [
        | inl level ↦ rw (level, check_and_retrieve_missing_blocks) h
        | inr apart ↦
            rw (apart, check_and_retrieve_missing_blocks)
              (sync_loop-Left states rounds s (add_u32 height 1) 0 h)
      ]

abbrev pub runtime_chain : Runtime → Chain
runtime_chain r = peer_chain r.peer

module _ (env : Env) (fuel : ℕ) (c : Chain) where
  abbrev pub RunExtends : Handled → Type 0
  RunExtends none = Unit
  RunExtends (some (next, error)) = Grows env c (runtime_chain next)

  if-Extends :
      (b : Bool) (x y : Handled) → RunExtends x → RunExtends y → RunExtends (if b then x else y)
  if-Extends true x y hx hy = hx
  if-Extends false x y hx hy = hy

  after_handler-Extends :
      (r : Runtime) (h : Option (Peer × List Error))
      → HandledExtends env c h
      → RunExtends (after_handler env fuel r h)
  unfolding after_handler
  after_handler-Extends r none grows = tt
  after_handler-Extends r (some (p, errors)) grows = grows

  after_sync-Extends :
      (r : Runtime) (h : Option (Peer × SyncState))
      → Left
          (apply_block env fuel)
          (λ p. Grows env c (peer_chain p))
          (apply_block-Extends env fuel c)
          h
      → RunExtends (after_sync env fuel r h)
  unfolding after_sync
  after_sync-Extends r none grows = tt
  after_sync-Extends r (some (p, state)) grows = grows

  run_event-Extends :
      (r : Runtime) (event : Event)
      → Grows env c (runtime_chain r)
      → RunExtends (run_event env fuel r event)
  unfolding run_event
  run_event-Extends r (received message now) before =
      after_handler-Extends r _ (handle_message-Extends env fuel c r.peer message now before)
  run_event-Extends r closed before = before
  run_event-Extends r (sync_tick states rounds) before =
      if-Extends r.synchronizes _ _
        (after_sync-Extends r _ (
          check_and_retrieve-Left (apply_block env fuel) (λ p. Grows env c (peer_chain p))
            (apply_block-Extends env fuel c) states r.peer
            r.peer.services.effects.block_keeper.storage_state.block_height rounds before))
        before
  run_event-Extends r (consensus_tick now) before =
      if-Extends r.requires_consensus_tick _ _
        (after_handler-Extends r _ (handle_tick-Extends env fuel c r.peer now before)) before
  run_event-Extends r (peers_updated peers) before = before

  pub run_loop-Extends :
      (events : List Event) (r : Runtime)
      → Grows env c (runtime_chain r)
      → RunExtends (run_loop env fuel r events)
  unfolding run_loop
  run_loop-Extends [] r before = before
  run_loop-Extends (event ∷ events) r before =
      let one = run_event-Extends r event before in
      elim (Option-cases (run_event env fuel r event)) [
        | inl out ↦ rw (out, run_loop) tt
        | inr ((next, some e), ends) ↦ rw (ends, run_loop) (rw ends at one)
        | inr ((next, none), ends) ↦
            rw (ends, run_loop) (run_loop-Extends events next (rw ends at one))
      ]
