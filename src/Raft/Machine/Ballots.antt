-- ===== src/Raft/Machine/Ballots.antt =====
-- Terms and votes under every handler of src/peer/consensus/raft.rs.
pub mod Votes
use rustchain.Base.{
  ℕ, ◌+◌, ◌-◌, ◌≤◌, ◌<◌, ◌^◌, ◌≡◌, refl, sym, ◌∙◌, Bool, true, false, some, List, [], ◌∷◌, arith,
  nat_eq, if◌then◌else◌, leb, Bool-cases, Result-cases, inl, inr,
}
use rustchain.Data.{PeerId, BlockHash, RaftLogEntry}
use rustchain.Env.{Env}
use rustchain.Raft.State.{RaftConsensus, Outcome, vote_granted}
use rustchain.Raft.Election.{
  is_leader, is_candidate, update_participants, step_down_on_newer_term, start_election_at,
  request_vote, receive_vote, receive_append_entries_at,
}
use rustchain.Raft.Replication.{append_entries}
use rustchain.Raft.Replication.Append.{
  AppendEntriesRequest, Blocks, handle_append_entries, validate_replicated_entries, accept_entries,
}
use rustchain.Raft.Replication.Leader.{
  heartbeat_due, append_own_entry, append_local_block, append_leader_noop,
  handle_leader_append_entries_response,
}
use rustchain.Raft.Handlers.{
  on_block_created, on_tick, campaign, on_request_vote, on_request_vote_response, on_append_entries,
  on_append_entries_response, take_pending_block,
}
use rustchain.Raft.Machine.{
  Event, client_submitted, block_created, ticked, vote_requested, vote_answered, entries_received,
  entries_answered, block_taken, step, run,
}
use rustchain.Raft.Machine.Ballots.Votes.{
  KeepsVote, SameVote, KeepsVote-same, KeepsVote-trans, if-KeepsVote,
  step_down_on_newer_term-KeepsVote, start_election_at-KeepsVote, request_vote-KeepsVote,
  receive_vote-KeepsVote, receive_append_entries_at-KeepsVote, append_entries-same,
  append_own_entry-same, append_local_block-same, accept_entries-same, handle_leader-KeepsVote,
  handle_append_entries-KeepsVote, append_leader_noop-same, campaign-same,
}

on_tick-KeepsVote :
    (env : Env) (r : RaftConsensus) (now : ℕ) (known_peers : List PeerId)
    → r.current_term + 1 < 2 ^ 64
    → KeepsVote r (on_tick env r now known_peers).0
unfolding on_tick
on_tick-KeepsVote env r now known_peers small =
    let t = update_participants r known_peers in
    let same : SameVote r t = unfold update_participants in (refl, refl) in
    let base = KeepsVote-same r t same in
    let elected = start_election_at t now in
    if-KeepsVote r (is_leader t.role) _ _
      (if-KeepsVote r (heartbeat_due t now) _ _ (KeepsVote-same r _ same) base)
      (if-KeepsVote r (leb t.current_election_timeout (now - t.last_heartbeat_received_at)) _ _
        (KeepsVote-trans r t _ base (
          KeepsVote-trans t elected.0 _ (start_election_at-KeepsVote t now (rw same.0 small))
            (KeepsVote-same elected.0 _ (campaign-same env elected.0 elected.1))))
        base)

on_request_vote_response-KeepsVote :
    (env : Env) (r : RaftConsensus) (term voter : ℕ) (granted : Bool)
    → KeepsVote r (on_request_vote_response env r term voter granted).0
unfolding on_request_vote_response
on_request_vote_response-KeepsVote env r term voter granted =
    let heard = receive_vote r term voter granted in
    let base = receive_vote-KeepsVote r term voter granted in
    if-KeepsVote r (is_candidate r.role) _ _
      (if-KeepsVote r heard.1 _ _
        (KeepsVote-trans r heard.0 _ base
          (KeepsVote-same heard.0 _ (append_leader_noop-same env heard.0)))
        base)
      (step_down_on_newer_term-KeepsVote r term)

-- No handler lowers the term, or takes back a vote within it, until the term's counter wraps.
pub step-KeepsVote :
    (env : Env) (r : RaftConsensus) (event : Event)
    → r.current_term + 1 < 2 ^ 64
    → KeepsVote r (step env r event).0
unfolding step
step-KeepsVote env r (client_submitted client_tx) small = KeepsVote-same r r (refl, refl)
step-KeepsVote env r (block_created block_hash) small =
    unfold on_block_created in
    if-KeepsVote r (is_leader r.role) _ _
      (KeepsVote-same r _ (append_local_block-same env r block_hash))
      (KeepsVote-same r r (refl, refl))
step-KeepsVote env r (ticked now known_peers) small = on_tick-KeepsVote env r now known_peers small
step-KeepsVote env r (vote_requested term candidate_id last_index last_term from) small =
    unfold on_request_vote in request_vote-KeepsVote r term candidate_id last_index last_term
step-KeepsVote env r (vote_answered term voter granted) small =
    on_request_vote_response-KeepsVote env r term voter granted
step-KeepsVote env r (entries_received request) small =
    unfold on_append_entries in handle_append_entries-KeepsVote env r request
step-KeepsVote env r (entries_answered term from success match_index) small =
    unfold on_append_entries_response in
    if-KeepsVote r (is_leader r.role) _ _
      (handle_leader-KeepsVote env r term from success match_index)
      (step_down_on_newer_term-KeepsVote r term)
step-KeepsVote env r (block_taken block_hash) small =
    unfold take_pending_block in KeepsVote-same r _ (refl, refl)

-- The term leaves room for one more at every state of the run.
abbrev pub TermsFit : RaftConsensus → List (Env × Event) → Type 0
TermsFit r [] = Unit
TermsFit r ((env, event) ∷ events) =
    (r.current_term + 1 < 2 ^ 64) × TermsFit (step env r event).0 events

run-KeepsVote :
    (r : RaftConsensus) (events : List (Env × Event))
    → TermsFit r events
    → KeepsVote r (run r events)
unfolding run
run-KeepsVote r [] fit = KeepsVote-same r r (refl, refl)
run-KeepsVote r ((env, event) ∷ events) fit =
    KeepsVote-trans r (step env r event).0 _ (step-KeepsVote env r event fit.0)
      (run-KeepsVote (step env r event).0 events fit.1)

-- A granted vote is noted, in the candidate's term.
pub request_vote_granted :
    (r : RaftConsensus) (term c i l : ℕ)
    → (request_vote r term c i l).1 ≡ vote_granted
    → ((request_vote r term c i l).0.current_term ≡ term)
      × ((request_vote r term c i l).0.voted_for ≡ some c)
unfolding request_vote
request_vote_granted r term c i l h = ground arith

-- The peer after a request for its vote.
abbrev pub voted : RaftConsensus → ℕ → PeerId → ℕ → ℕ → RaftConsensus
voted r term c i l = (request_vote r term c i l).0

-- If a peer grants a vote to one candidate in a term and later, after any handler calls in which
-- the term does not wrap, grants one to another in the same term, the two are the same.
pub one_vote_in_a_term :
    (r : RaftConsensus) (events : List (Env × Event)) (term c d i l j m : ℕ)
    → TermsFit (voted r term c i l) events
    → (request_vote r term c i l).1 ≡ vote_granted
    → (request_vote (run (voted r term c i l) events) term d j m).1 ≡ vote_granted
    → c ≡ d
one_vote_in_a_term r events term c d i l j m fit first second =
    let now = voted r term c i l in
    let after = run now events in
    let later = (request_vote after term d j m).0 in
    let (t, v) = request_vote_granted r term c i l first in
    let (u, w) = request_vote_granted after term d j m second in
    let kept =
      KeepsVote-trans now after later (run-KeepsVote now events fit)
        (request_vote-KeepsVote after term d j m) in
    let again : later.voted_for ≡ some c = kept.vote c (u ∙ sym t) v in cc (again, w)
