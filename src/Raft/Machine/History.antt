-- ===== src/Raft/Machine/History.antt =====
-- Committed history under every handler of src/peer/consensus/raft.rs.
pub mod Kept
pub mod Accepted
use rustchain.Base.{
  ℕ, zero, suc, ◌+◌, ◌-◌, ◌≤◌, ◌<◌, ◌^◌, max, ◌≡◌, refl, sym, ◌∙◌, ap, Bool, true, false, not, ◌||◌,
  last_or, List, [], ◌∷◌, ◌++◌, length, length-append, take, take-append_le, arith, nat_eq, ◌==◌,
  add_u64, if◌then◌else◌, ltb, leb, Bool-cases, Option-cases, ok, Result-cases, inl, inr,
}
use rustchain.Data.{PeerId, BlockHash, RaftLogEntry, ConsensusEffect, noop, RaftReplicatedBlock}
use rustchain.Base.Dict
use rustchain.Env.{Env}
use rustchain.Raft.Log.{last_log_index}
use rustchain.Raft.Log.Numbered.{Numbered-append, last_log_index-length}
use rustchain.Raft.State.{RaftConsensus, Outcome}
use rustchain.Base.Sets
use rustchain.Raft.Election.{
  is_leader, is_candidate, update_participants, step_down, step_down_on_newer_term,
  start_election_at, request_vote, receive_vote, receive_append_entries_at,
  become_leader_if_majority,
}
use rustchain.Raft.Replication.{append_entries, append_entries_response, persist_log}
use rustchain.Raft.Replication.Append.{
  keep_staged_blocks, AppendEntriesRequest, handle_append_entries, validate_replicated_entries,
  validate_entry, validate_from, accept_entries, acknowledge, Blocks,
}
use rustchain.Raft.Replication.Leader.{
  heartbeat_due, get_or_zero, append_own_entry, append_local_block, append_leader_noop,
  ensure_no_uncommitted_block, advance_commit_index, acknowledged, refused,
}
use rustchain.Raft.Replication.Safety.{IsSound}
use rustchain.Raft.Replication.Committed.{append_entries_keeps_committed}
use rustchain.Raft.Replication.Advance.{advance_commits_majority}
use rustchain.Raft.Handlers.{
  on_block_created, on_tick, campaign, on_request_vote, on_request_vote_response, on_append_entries,
  on_append_entries_response, take_pending_block,
}
use rustchain.Raft.Machine.{
  Event, client_submitted, block_created, ticked, vote_requested, vote_answered, entries_received,
  entries_answered, block_taken, step, run, Fits,
}
use rustchain.Raft.Machine.History.Kept.{
  Extends, SameLog, Extends-same, take-take, Extends-trans, if-Extends, persist_log-same,
  step_down_on_newer_term-same, become_leader-same, start_election_at-same, request_vote-same,
  receive_vote-same, receive_append_entries_at-same, log-advance, advance-Extends, pushed-Extends,
  append_own_entry-Extends, append_leader_noop-Extends, append_local_block-Extends,
  length-validate_from,
}
use rustchain.Raft.Machine.History.Accepted.{
  accept_entries-Extends, acknowledge-Extends, acknowledged-Extends, refused-same,
}

module _ (env : Env) (r : RaftConsensus) (s : IsSound r) where
  handle_append_entries-Extends :
      (request : AppendEntriesRequest)
      → request.prev_log_index + length request.entries < 2 ^ 64
      → Extends r (handle_append_entries env r request).0
  unfolding handle_append_entries validate_replicated_entries
  handle_append_entries-Extends request small =
      let met =
        receive_append_entries_at env r request.term request.leader_id request.from request.now in
      let heard : Extends r met.0 =
        Extends-same r met.0
          (receive_append_entries_at-same env r request.term request.leader_id request.from
            request.now)
          s in
      elim (Bool-cases met.1) [
        | inr unheard ↦ rw (unheard, handle_append_entries) heard
        | inl here ↦ elim (Result-cases (validate_replicated_entries env request.entries)) [
          | inr (e, bad) ↦ rw (here, bad, handle_append_entries) heard
          | inl ((log_entries, blocks), good) ↦
              rw (here, good, handle_append_entries)
                (Extends-trans r met.0 _ heard (
                  accept_entries-Extends env met.0 heard.sound request log_entries blocks (
                    omega (
                      arith,
                      length-validate_from env request.entries [] log_entries [] blocks good,
                    ))))
        ]
      ]

  campaign-Extends :
      (t : RaftConsensus) (became : Bool)
      → SameLog r t
      → length r.log + 1 < 2 ^ 64
      → Extends r (campaign env t became).0
  unfolding campaign
  campaign-Extends t became same small =
      let base = Extends-same r t same s in
      elim (Bool-cases became) [
        | inl yes_ ↦ rw yes_ (
            Extends-trans r t _ base
              (append_leader_noop-Extends env t base.sound (rw same.0 small)))
        | inr no_ ↦ rw no_ base
      ]

  on_tick-Extends :
      (now : ℕ) (known_peers : List PeerId)
      → length r.log + 1 < 2 ^ 64
      → Extends r (on_tick env r now known_peers).0
  unfolding on_tick
  on_tick-Extends now known_peers small =
      let t = update_participants r known_peers in
      let same : SameLog r t = unfold update_participants in (refl, refl) in
      let elected = start_election_at t now in
      let (l, c) = start_election_at-same t now in
      if-Extends r (is_leader t.role) _ _
        (if-Extends r (heartbeat_due t now) _ _ (Extends-same r _ same s) (Extends-same r _ same s))
        (if-Extends r (leb t.current_election_timeout (now - t.last_heartbeat_received_at)) _ _
          (campaign-Extends elected.0 elected.1 (l ∙ same.0, c ∙ same.1) small)
          (Extends-same r t same s))

  on_request_vote_response-Extends :
      (term voter : ℕ) (granted : Bool)
      → length r.log + 1 < 2 ^ 64
      → Extends r (on_request_vote_response env r term voter granted).0
  unfolding on_request_vote_response
  on_request_vote_response-Extends term voter granted small =
      let heard = receive_vote r term voter granted in
      let base = Extends-same r heard.0 (receive_vote-same r term voter granted) s in
      if-Extends r (is_candidate r.role) _ _
        (if-Extends r heard.1 _ _
          (Extends-trans r heard.0 _ base (
            append_leader_noop-Extends env heard.0 base.sound
              (rw (receive_vote-same r term voter granted).0 small)))
          base)
        (Extends-same r _ (step_down_on_newer_term-same r term) s)

  on_append_entries_response-Extends :
      (term from : ℕ) (success : Bool) (match_index : ℕ)
      → Extends r (on_append_entries_response env r term from success match_index).0
  unfolding on_append_entries_response
  on_append_entries_response-Extends term from success match_index =
      if-Extends r (is_leader r.role) _ _
        (if-Extends r (ltb r.current_term term) _ _
          (Extends-same r (step_down r term) (unfold step_down in (refl, refl)) s)
          (if-Extends r (not (term == r.current_term) || not (Sets.contains r.participants from)) _
            _ (Extends-same r r (refl, refl) s)
            (if-Extends r success _ _ (acknowledged-Extends env r s from match_index)
              (Extends-same r _ (refused-same env r s from match_index) s))))
        (Extends-same r _ (step_down_on_newer_term-same r term) s)

  -- Whatever happens to a peer, its log keeps its positions and all that it has committed.
  pub step-Extends : (event : Event) → Fits r event → Extends r (step env r event).0
  unfolding step
  step-Extends (client_submitted client_tx) fits = Extends-same r r (refl, refl) s
  step-Extends (block_created block_hash) fits =
      unfold on_block_created in
      if-Extends r (is_leader r.role) _ _ (append_local_block-Extends env r block_hash s fits)
        (Extends-same r r (refl, refl) s)
  step-Extends (ticked now known_peers) fits = on_tick-Extends now known_peers fits
  step-Extends (vote_requested term candidate_id last_index last_term from) fits =
      unfold on_request_vote in
      Extends-same r _ (request_vote-same r term candidate_id last_index last_term) s
  step-Extends (vote_answered term voter granted) fits =
      on_request_vote_response-Extends term voter granted fits
  step-Extends (entries_received request) fits =
      unfold on_append_entries in handle_append_entries-Extends request fits
  step-Extends (entries_answered term from success match_index) fits =
      on_append_entries_response-Extends term from success match_index
  step-Extends (block_taken block_hash) fits =
      unfold take_pending_block in Extends-same r _ (refl, refl) s

-- No event of the list makes an index wrap at the state that it meets.
abbrev pub AllFit : RaftConsensus → List (Env × Event) → Type 0
AllFit r [] = Unit
AllFit r ((env, event) ∷ events) = Fits r event × AllFit (step env r event).0 events

-- Over any run of handler calls in which no index wraps, a peer whose log is numbered from 1 and
-- reaches its commit index keeps both facts, keeps its committed entries in their places, and its
-- commit index does not fall.
pub run-Extends :
    (r : RaftConsensus) (events : List (Env × Event))
    → IsSound r
    → AllFit r events
    → Extends r (run r events)
unfolding run
run-Extends r [] s fit = Extends-same r r (refl, refl) s
run-Extends r ((env, event) ∷ events) s fit =
    let once = step-Extends env r s event fit.0 in
    Extends-trans r (step env r event).0 _ once
      (run-Extends (step env r event).0 events once.sound fit.1)
