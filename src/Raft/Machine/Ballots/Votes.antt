-- ===== src/Raft/Machine/Ballots/Votes.antt =====
-- Terms and votes under the parts of the handlers (src/peer/consensus/raft/election.rs and
-- raft/replication.rs).
use rustchain.Base.{
  ℕ, ◌+◌, ◌≤◌, ◌<◌, ◌^◌, ◌≡◌, refl, sym, ◌∙◌, Bool, true, false, some, List, arith, nat_eq,
  if◌then◌else◌, Bool-cases, Result-cases, inl, inr,
}
use rustchain.Data.{PeerId, BlockHash, RaftLogEntry}
use rustchain.Env.{Env}
use rustchain.Raft.State.{RaftConsensus, Outcome}
use rustchain.Raft.Election.{
  step_down_on_newer_term, start_election_at, request_vote, receive_vote, receive_append_entries_at,
}
use rustchain.Raft.Replication.{append_entries}
use rustchain.Raft.Replication.Append.{
  AppendEntriesRequest, Blocks, handle_append_entries, validate_replicated_entries, accept_entries,
}
use rustchain.Raft.Replication.Leader.{
  append_own_entry, append_local_block, append_leader_noop, handle_leader_append_entries_response,
}
use rustchain.Raft.Handlers.{campaign}

-- The term does not fall, and within a term a vote that is given stays given.
pub record KeepsVote (r s : RaftConsensus) : Type 0 where
  pub term_le : r.current_term ≤ s.current_term
  pub vote :
      (c : PeerId) → s.current_term ≡ r.current_term → r.voted_for ≡ some c → s.voted_for ≡ some c

abbrev pub SameVote : RaftConsensus → RaftConsensus → Type 0
SameVote r s = (s.current_term ≡ r.current_term) × (s.voted_for ≡ r.voted_for)

pub KeepsVote-same : (r s : RaftConsensus) → SameVote r s → KeepsVote r s
KeepsVote-same r s (t, v) = record { term_le = omega arith; vote = λ c e h. v ∙ h }

pub KeepsVote-trans : (r s t : RaftConsensus) → KeepsVote r s → KeepsVote s t → KeepsVote r t
KeepsVote-trans r s t h k = record {
  term_le = omega (arith, h.term_le, k.term_le);
  vote = λ c e v.
      let same : s.current_term ≡ r.current_term = omega (arith, h.term_le, k.term_le) in
      k.vote c (e ∙ sym same) (h.vote c same v);
}

pub if-KeepsVote :
    {A : Type 0} (r : RaftConsensus) (b : Bool) (x y : Outcome A)
    → KeepsVote r x.0
    → KeepsVote r y.0
    → KeepsVote r (if b then x else y).0
if-KeepsVote r true x y h k = h
if-KeepsVote r false x y h k = k

pub step_down_on_newer_term-KeepsVote :
    (r : RaftConsensus) (term : ℕ) → KeepsVote r (step_down_on_newer_term r term)
unfolding step_down_on_newer_term
step_down_on_newer_term-KeepsVote r term = record {
  term_le = ground arith;
  vote = λ c e v. ground arith;
}

pub start_election_at-KeepsVote :
    (r : RaftConsensus) (now : ℕ)
    → r.current_term + 1 < 2 ^ 64
    → KeepsVote r (start_election_at r now).0
unfolding start_election_at
start_election_at-KeepsVote r now small = record {
  term_le = ground arith;
  vote = λ c e v. ground arith;
}

pub request_vote-KeepsVote :
    (r : RaftConsensus) (t c i l : ℕ) → KeepsVote r (request_vote r t c i l).0
unfolding request_vote
request_vote-KeepsVote r t c i l = record { term_le = ground arith; vote = λ d e v. ground arith }

pub receive_vote-KeepsVote :
    (r : RaftConsensus) (t v : ℕ) (g : Bool) → KeepsVote r (receive_vote r t v g).0
unfolding receive_vote
receive_vote-KeepsVote r t v g = record { term_le = ground arith; vote = λ d e h. ground arith }

pub receive_append_entries_at-KeepsVote :
    (env : Env) (r : RaftConsensus) (t l f n : ℕ)
    → KeepsVote r (receive_append_entries_at env r t l f n).0
unfolding receive_append_entries_at
receive_append_entries_at-KeepsVote env r t l f n = record {
  term_le = ground arith;
  vote = λ d e h. ground arith;
}

pub append_entries-same :
    (r : RaftConsensus) (p t : ℕ) (entries : List RaftLogEntry) (lc : ℕ)
    → SameVote r (append_entries r p t entries lc).0
unfolding append_entries
append_entries-same r p t entries lc = ground arith

pub append_own_entry-same :
    (env : Env) (r : RaftConsensus) (e : RaftLogEntry) → SameVote r (append_own_entry env r e).0
unfolding append_own_entry
append_own_entry-same env r e = (refl, refl)

pub append_local_block-same :
    (env : Env) (r : RaftConsensus) (h : BlockHash) → SameVote r (append_local_block env r h).0
unfolding append_local_block
append_local_block-same env r h = ground arith

pub accept_entries-same :
    (env : Env) (r : RaftConsensus) (request : AppendEntriesRequest) (es : List RaftLogEntry)
    (blocks : Blocks)
    → SameVote r (accept_entries env r request es blocks).0
unfolding accept_entries
accept_entries-same env r request es blocks = ground (
  arith,
  append_entries-same r request.prev_log_index request.prev_log_term es request.leader_commit,
)

pub handle_leader-KeepsVote :
    (env : Env) (r : RaftConsensus) (term from : ℕ) (success : Bool) (match_index : ℕ)
    → KeepsVote r (handle_leader_append_entries_response env r term from success match_index).0
unfolding handle_leader_append_entries_response
handle_leader-KeepsVote env r term from success match_index = record {
  term_le = ground arith;
  vote = λ d e h. ground arith;
}

pub handle_append_entries-KeepsVote :
    (env : Env) (r : RaftConsensus) (request : AppendEntriesRequest)
    → KeepsVote r (handle_append_entries env r request).0
unfolding handle_append_entries
handle_append_entries-KeepsVote env r request =
    let met =
      receive_append_entries_at env r request.term request.leader_id request.from request.now in
    let heard =
      receive_append_entries_at-KeepsVote env r request.term request.leader_id request.from
        request.now in
    elim (Bool-cases met.1) [
      | inr unheard ↦ rw (unheard, handle_append_entries) heard
      | inl here ↦ elim (Result-cases (validate_replicated_entries env request.entries)) [
        | inr (e, bad) ↦ rw (here, bad, handle_append_entries) heard
        | inl ((es, blocks), good) ↦
            rw (here, good, handle_append_entries)
              (KeepsVote-trans r met.0 _ heard
                (KeepsVote-same met.0 _ (accept_entries-same env met.0 request es blocks)))
      ]
    ]

pub append_leader_noop-same :
    (env : Env) (r : RaftConsensus) → SameVote r (append_leader_noop env r).0
unfolding append_leader_noop
append_leader_noop-same env r = (refl, refl)

pub campaign-same :
    (env : Env) (r : RaftConsensus) (became : Bool) → SameVote r (campaign env r became).0
unfolding campaign
campaign-same env r became = ground (arith, append_leader_noop-same env r)
