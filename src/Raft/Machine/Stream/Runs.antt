-- ===== src/Raft/Machine/Stream/Runs.antt =====
-- The stream of commits over a run of the Raft engine (src/peer/consensus/raft.rs).
use rustchain.Base.{
  err, some, ℕ, ◌+◌, ◌-◌, ◌<◌, ◌^◌, ◌≡◌, refl, sym, ◌∙◌, Bool, List, [], ◌∷◌, ◌++◌, length, arith,
  nat_eq, leb, ok, Result-cases, inl, inr,
}
use rustchain.Data.{PeerId, BlockHash, ConsensusEffect}
use rustchain.Base.Dict
use rustchain.Env.{Env}
use rustchain.Raft.Log.{last_log_index}
use rustchain.Raft.State.{RaftConsensus, Outcome}
use rustchain.Raft.Election.{
  is_leader, is_candidate, update_participants, step_down_on_newer_term, start_election_at,
  request_vote, receive_vote,
}
use rustchain.Raft.Replication.Leader.{
  heartbeat_due, append_leader_noop, ensure_no_uncommitted_block,
}
use rustchain.Raft.Replication.Safety.{IsSound}
use rustchain.Raft.Handlers.{
  on_block_created, on_tick, campaign, on_request_vote, on_request_vote_response, on_append_entries,
  on_append_entries_response, take_pending_block,
}
use rustchain.Raft.Machine.{
  Event, client_submitted, block_created, ticked, vote_requested, vote_answered, entries_received,
  entries_answered, block_taken, step, run, Fits,
}
use mathlib.Core.List.{append-nil, append_assoc}
use rustchain.Data.{
  SignedTransaction, send_to, broadcast, raft_request_vote, raft_request_vote_response,
}
use rustchain.Raft.Log.{last_log_term}
use rustchain.Raft.Handlers.{granted, forward_client_transaction, on_client_transaction}
use rustchain.Raft.Replication.Leader.{append_entries_effects_for_followers}
use rustchain.Raft.Machine.History.Kept.{
  SameLog, Extends-same, step_down_on_newer_term-same, start_election_at-same, request_vote-same,
  receive_vote-same,
}
use rustchain.Raft.Machine.History.{step-Extends, AllFit}
use rustchain.Raft.Machine.Stream.{commits, committed, commits-sends}
use rustchain.Raft.Machine.Stream.Own.{
  Emits, if-Emits, Emits-same, Emits-from, append_local_block-Emits, append_leader_noop-Emits,
}
use rustchain.Raft.Machine.Stream.Handlers.{handle_append_entries-Emits, handle_leader-Emits}

-- A broadcast before the effects commits nothing more.
campaign-Emits :
    (env : Env) (r : RaftConsensus) (became : Bool)
    → IsSound r
    → length r.log + 1 < 2 ^ 64
    → Emits r (campaign env r became)
unfolding campaign
campaign-Emits env r became s small =
    let request =
      broadcast
        (raft_request_vote r.current_term r.peer_id (last_log_index r.log) (last_log_term r.log)) in
    if-Emits r became _ _
      (elim (Result-cases (append_leader_noop env r).1) [
        | inr (e, failed) ↦ rw failed tt
        | inl (effects, done) ↦ rw done (rw done at (append_leader_noop-Emits env r s small))
      ])
      (Emits-same r r (request ∷ []) (refl, refl) refl)

on_client_transaction-commits :
    (r : RaftConsensus) (tx : SignedTransaction) (effects : List ConsensusEffect)
    → on_client_transaction r tx ≡ ok effects
    → commits effects ≡ []
unfolding on_client_transaction forward_client_transaction ensure_no_uncommitted_block
on_client_transaction-commits r tx effects h = ground arith

on_client_transaction-Emits :
    (r : RaftConsensus) (tx : SignedTransaction) → Emits r (r, on_client_transaction r tx)
on_client_transaction-Emits r tx = elim (Result-cases (on_client_transaction r tx)) [
  | inr (e, failed) ↦ rw failed tt
  | inl (effects, done) ↦
      rw done
        (Emits-same r r effects (refl, refl) (on_client_transaction-commits r tx effects done))
]

module _ (env : Env) (r : RaftConsensus) (s : IsSound r) where
  on_tick-Emits :
      (now : ℕ) (known_peers : List PeerId)
      → length r.log + 1 < 2 ^ 64
      → Emits r (on_tick env r now known_peers)
  unfolding on_tick append_entries_effects_for_followers
  on_tick-Emits now known_peers small =
      let t = update_participants r known_peers in
      let same : SameLog r t = unfold update_participants in (refl, refl) in
      let beating : RaftConsensus = record t { last_heartbeat_sent_at = some now } in
      let elected = start_election_at t now in
      let (l, c) = start_election_at-same t now in
      let moved : SameLog r elected.0 = (l ∙ same.0, c ∙ same.1) in
      if-Emits r (is_leader t.role) _ _
        (if-Emits r (heartbeat_due t now) _ _
          (Emits-same r beating (append_entries_effects_for_followers beating) same
            (commits-sends beating _))
          (Emits-same r t [] same refl))
        (if-Emits r (leb t.current_election_timeout (now - t.last_heartbeat_received_at)) _ _
          (Emits-from r elected.0 (campaign env elected.0 elected.1) moved (
            campaign-Emits env elected.0 elected.1 (Extends-same r elected.0 moved s).sound
              (rw moved.0 small)))
          (Emits-same r t [] same refl))

  on_request_vote_response-Emits :
      (term voter : ℕ) (granted : Bool)
      → length r.log + 1 < 2 ^ 64
      → Emits r (on_request_vote_response env r term voter granted)
  unfolding on_request_vote_response
  on_request_vote_response-Emits term voter granted small =
      let heard = receive_vote r term voter granted in
      let same = receive_vote-same r term voter granted in
      if-Emits r (is_candidate r.role) _ _
        (if-Emits r heard.1 _ _
          (Emits-from r heard.0 (append_leader_noop env heard.0) same (
            append_leader_noop-Emits env heard.0 (Extends-same r heard.0 same s).sound
              (rw same.0 small)))
          (Emits-same r heard.0 [] same refl))
        (Emits-same r (step_down_on_newer_term r term) [] (step_down_on_newer_term-same r term)
          refl)

  -- A call that succeeds commits exactly the blocks of the entries that it adds to the committed
  -- ones, in the order of the log.
  pub step-Emits : (event : Event) → Fits r event → Emits r (step env r event)
  unfolding step
  step-Emits (client_submitted tx) fits = on_client_transaction-Emits r tx
  step-Emits (block_created h) fits =
      unfold on_block_created in
      if-Emits r (is_leader r.role) _ _ (append_local_block-Emits env r h s fits)
        (Emits-same r r [] (refl, refl) refl)
  step-Emits (ticked now known_peers) fits = on_tick-Emits now known_peers fits
  step-Emits (vote_requested term c index last from) fits =
      let voted = request_vote r term c index last in
      let answer =
        send_to from (raft_request_vote_response voted.0.current_term (granted voted.1)) in
      unfold on_request_vote in
      Emits-same r voted.0 (answer ∷ []) (request_vote-same r term c index last) refl
  step-Emits (vote_answered term voter granted) fits =
      on_request_vote_response-Emits term voter granted fits
  step-Emits (entries_received request) fits =
      unfold on_append_entries in handle_append_entries-Emits env r request s fits
  step-Emits (entries_answered term from success match_index) fits =
      unfold on_append_entries_response in
      if-Emits r (is_leader r.role) _ _ (handle_leader-Emits env r term from success match_index s)
        (Emits-same r (step_down_on_newer_term r term) [] (step_down_on_newer_term-same r term)
          refl)
  step-Emits (block_taken h) fits =
      unfold take_pending_block in
      Emits-same r (record r { pending_blocks = Dict.remove h r.pending_blocks }) [] (refl, refl)
        refl

abbrev Succeeds : Outcome (List ConsensusEffect) → Type 0
Succeeds (s, ok effects) = Unit
Succeeds (s, err e) = ⊥

abbrev emitted_by : Outcome (List ConsensusEffect) → List BlockHash
emitted_by (s, ok effects) = commits effects
emitted_by (s, err e) = []

-- Every call of the run succeeds.
abbrev pub AllSucceed : RaftConsensus → List (Env × Event) → Type 0
AllSucceed r [] = Unit
AllSucceed r ((env, event) ∷ events) =
    Succeeds (step env r event) × AllSucceed (step env r event).0 events

-- The blocks that the effects of a run commit, in their order.
abbrev pub emitted : RaftConsensus → List (Env × Event) → List BlockHash
emitted r [] = []
emitted r ((env, event) ∷ events) =
    emitted_by (step env r event) ++ emitted (step env r event).0 events

Emits-by :
    (r : RaftConsensus) (out : Outcome (List ConsensusEffect))
    → Succeeds out
    → Emits r out
    → committed out.0 ≡ committed r ++ emitted_by out
Emits-by r (s, ok effects) good h = h
Emits-by r (s, err e) bad h = absurd bad

-- Over a run of calls that succeed and in which no index wraps, the commit effects of a peer whose
-- log is numbered from 1 and reaches its commit index are exactly the blocks of the log up to the
-- final commit index that were not committed before, in the order of the log.
pub run-emitted :
    (r : RaftConsensus) (events : List (Env × Event))
    → IsSound r
    → AllFit r events
    → AllSucceed r events
    → committed (run r events) ≡ committed r ++ emitted r events
unfolding run
run-emitted r [] s fit good = sym (append-nil (committed r))
run-emitted r ((env, event) ∷ events) s fit good =
    let next = (step env r event).0 in
    run-emitted next events (step-Extends env r s event fit.0).sound fit.1 good.1
    ∙ rw (Emits-by r (step env r event) good.0 (step-Emits env r s event fit.0))
        (append_assoc (committed r) (emitted_by (step env r event)) (emitted next events))
