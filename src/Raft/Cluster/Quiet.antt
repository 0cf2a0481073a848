-- ===== src/Raft/Cluster/Quiet.antt =====
-- The handlers of src/peer/consensus/raft.rs that do not take part in an election: they leave a
-- candidate or a leader as it is, or make it a follower.
use rustchain.Base.{
  ℕ, ◌≡◌, refl, ◌⊎◌, ◌∙◌, Bool, true, false, List, arith, nat_eq, if◌then◌else◌, Bool-cases,
  Result-cases, inl, inr,
}
use rustchain.Data.{BlockHash, RaftLogEntry}
use rustchain.Env.{Env}
use rustchain.Raft.Election.{is_leader, step_down_on_newer_term, receive_append_entries_at}
use rustchain.Raft.Handlers.{
  on_block_created, on_append_entries, on_append_entries_response, campaign, take_pending_block,
}
use rustchain.Raft.Machine.{
  Event, client_submitted, block_created, ticked, vote_requested, vote_answered, entries_received,
  entries_answered, block_taken, step,
}
use rustchain.Raft.Replication.{append_entries}
use rustchain.Raft.Replication.Append.{
  AppendEntriesRequest, Blocks, handle_append_entries, validate_replicated_entries, accept_entries,
}
use rustchain.Raft.Replication.Leader.{
  append_own_entry, append_local_block, append_leader_noop, handle_leader_append_entries_response,
}
use rustchain.Raft.State.{RaftConsensus, follower, Outcome}

-- What an election looks at is the same.
abbrev pub Stays : RaftConsensus → RaftConsensus → Type 0
Stays r s =
    (s.peer_id ≡ r.peer_id)
    × (s.participants ≡ r.participants)
    × (s.current_term ≡ r.current_term)
    × (s.voted_for ≡ r.voted_for)
    × (s.role ≡ r.role)
    × (s.votes_received ≡ r.votes_received)

abbrev pub IsQuiet : RaftConsensus → RaftConsensus → Type 0
IsQuiet r s = Stays r s ⊎ ((s.peer_id ≡ r.peer_id) × (s.role ≡ follower))

pub Stays-trans : (r s t : RaftConsensus) → Stays r s → Stays s t → Stays r t
Stays-trans r s t h k = ground arith

IsQuiet-Stays : (r s t : RaftConsensus) → IsQuiet r s → Stays s t → IsQuiet r t
IsQuiet-Stays r s t (inl h) k = inl (Stays-trans r s t h k)
IsQuiet-Stays r s t (inr (id, role)) k = inr (k.0 ∙ id, k.4 ∙ role)

append_own_entry-Stays :
    (env : Env) (r : RaftConsensus) (e : RaftLogEntry) → Stays r (append_own_entry env r e).0
unfolding append_own_entry
append_own_entry-Stays env r e = (refl, refl, refl, refl, refl, refl)

append_local_block-Stays :
    (env : Env) (r : RaftConsensus) (h : BlockHash) → Stays r (append_local_block env r h).0
unfolding append_local_block
append_local_block-Stays env r h = ground arith

pub append_leader_noop-Stays :
    (env : Env) (r : RaftConsensus) → Stays r (append_leader_noop env r).0
unfolding append_leader_noop
append_leader_noop-Stays env r = (refl, refl, refl, refl, refl, refl)

pub campaign-Stays :
    (env : Env) (r : RaftConsensus) (became : Bool) → Stays r (campaign env r became).0
unfolding campaign
campaign-Stays env r true = append_leader_noop-Stays env r
campaign-Stays env r false = (refl, refl, refl, refl, refl, refl)

append_entries-Stays :
    (r : RaftConsensus) (p t : ℕ) (entries : List RaftLogEntry) (lc : ℕ)
    → Stays r (append_entries r p t entries lc).0
unfolding append_entries
append_entries-Stays r p t entries lc = ground arith

accept_entries-Stays :
    (env : Env) (r : RaftConsensus) (request : AppendEntriesRequest) (es : List RaftLogEntry)
    (blocks : Blocks)
    → Stays r (accept_entries env r request es blocks).0
unfolding accept_entries
accept_entries-Stays env r request es blocks = ground (
  arith,
  append_entries-Stays r request.prev_log_index request.prev_log_term es request.leader_commit,
)

receive_append_entries_at-IsQuiet :
    (env : Env) (r : RaftConsensus) (t l f n : ℕ)
    → IsQuiet r (receive_append_entries_at env r t l f n).0
unfolding receive_append_entries_at
receive_append_entries_at-IsQuiet env r t l f n = ground arith

pub step_down_on_newer_term-IsQuiet :
    (r : RaftConsensus) (term : ℕ) → IsQuiet r (step_down_on_newer_term r term)
unfolding step_down_on_newer_term
step_down_on_newer_term-IsQuiet r term = ground arith

handle_leader-IsQuiet :
    (env : Env) (r : RaftConsensus) (term from : ℕ) (success : Bool) (match_index : ℕ)
    → IsQuiet r (handle_leader_append_entries_response env r term from success match_index).0
unfolding handle_leader_append_entries_response
handle_leader-IsQuiet env r term from success match_index = ground arith

handle_append_entries-IsQuiet :
    (env : Env) (r : RaftConsensus) (request : AppendEntriesRequest)
    → IsQuiet r (handle_append_entries env r request).0
unfolding handle_append_entries
handle_append_entries-IsQuiet env r request =
    let met =
      receive_append_entries_at env r request.term request.leader_id request.from request.now in
    let heard =
      receive_append_entries_at-IsQuiet env r request.term request.leader_id request.from
        request.now in
    elim (Bool-cases met.1) [
      | inr unheard ↦ rw (unheard, handle_append_entries) heard
      | inl here ↦ elim (Result-cases (validate_replicated_entries env request.entries)) [
        | inr (e, bad) ↦ rw (here, bad, handle_append_entries) heard
        | inl ((es, blocks), good) ↦
            rw (here, good, handle_append_entries)
              (IsQuiet-Stays r met.0 (accept_entries env met.0 request es blocks).0 heard
                (accept_entries-Stays env met.0 request es blocks))
      ]
    ]

if-IsQuiet :
    {A : Type 0} (r : RaftConsensus) (b : Bool) (x y : Outcome A)
    → IsQuiet r x.0
    → IsQuiet r y.0
    → IsQuiet r (if b then x else y).0
if-IsQuiet r true x y h k = h
if-IsQuiet r false x y h k = k

-- The events that are no part of an election.
abbrev pub NoBallot : Event → Type 0
NoBallot (ticked now known_peers) = ⊥
NoBallot (vote_requested term candidate_id last_index last_term from) = ⊥
NoBallot (vote_answered term voter_id granted) = ⊥
NoBallot event = Unit

pub step-IsQuiet :
    (env : Env) (r : RaftConsensus) (event : Event)
    → NoBallot event
    → IsQuiet r (step env r event).0
unfolding step
step-IsQuiet env r (ticked now known_peers) q = elim q [ ]
step-IsQuiet env r (vote_requested term c i l from) q = elim q [ ]
step-IsQuiet env r (vote_answered term voter granted) q = elim q [ ]
step-IsQuiet env r (client_submitted client_tx) q = inl (refl, refl, refl, refl, refl, refl)
step-IsQuiet env r (block_created block_hash) q =
    unfold on_block_created in
    if-IsQuiet r (is_leader r.role) _ _ (inl (append_local_block-Stays env r block_hash))
      (inl (refl, refl, refl, refl, refl, refl))
step-IsQuiet env r (entries_received request) q =
    unfold on_append_entries in handle_append_entries-IsQuiet env r request
step-IsQuiet env r (entries_answered term from success match_index) q =
    unfold on_append_entries_response in
    if-IsQuiet r (is_leader r.role) _ _ (handle_leader-IsQuiet env r term from success match_index)
      (step_down_on_newer_term-IsQuiet r term)
step-IsQuiet env r (block_taken block_hash) q =
    unfold take_pending_block in inl (refl, refl, refl, refl, refl, refl)
