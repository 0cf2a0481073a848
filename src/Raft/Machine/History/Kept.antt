-- ===== src/Raft/Machine/History/Kept.antt =====
-- What the parts of the Raft handlers keep of the committed log (src/peer/consensus/raft/*.rs).
use rustchain.Base.{
  ℕ, zero, suc, ◌+◌, ◌≤◌, ◌<◌, ◌^◌, ◌≡◌, refl, sym, ◌∙◌, ap, Bool, true, false, List, [], ◌∷◌, ◌++◌,
  length, length-append, take, take-append_le, arith, nat_eq, add_u64, if◌then◌else◌, ok,
  Result-cases, inl, inr,
}
use rustchain.Data.{BlockHash, RaftLogEntry, noop, RaftReplicatedBlock}
use rustchain.Base.Dict
use rustchain.Env.{Env}
use rustchain.Raft.Log.{last_log_index}
use rustchain.Raft.Log.Numbered.{Numbered-append, last_log_index-length}
use rustchain.Raft.State.{RaftConsensus, Outcome}
use rustchain.Raft.Election.{
  step_down_on_newer_term, start_election_at, request_vote, receive_vote, receive_append_entries_at,
  become_leader_if_majority,
}
use rustchain.Raft.Replication.{persist_log}
use rustchain.Raft.Replication.Append.{validate_entry, validate_from, Blocks}
use rustchain.Raft.Replication.Leader.{
  append_own_entry, append_local_block, append_leader_noop, ensure_no_uncommitted_block,
  advance_commit_index,
}
use rustchain.Raft.Replication.Safety.{IsSound}
use rustchain.Raft.Replication.Advance.{advance_commits_majority}

-- `s` is sound and has all that `r` has committed, in its place.
pub record Extends (r s : RaftConsensus) : Type 0 where
  pub sound : IsSound s
  pub grows : r.commit_index ≤ s.commit_index
  pub history : take r.commit_index s.log ≡ take r.commit_index r.log

abbrev pub SameLog : RaftConsensus → RaftConsensus → Type 0
SameLog r s = (s.log ≡ r.log) × (s.commit_index ≡ r.commit_index)

pub Extends-same : (r s : RaftConsensus) → SameLog r s → IsSound r → Extends r s
Extends-same r s (l, c) h = record {
  sound = record { numbered = rw l h.numbered; covers = rw (l, c) h.covers };
  grows = omega arith;
  history = rw l refl;
}

pub take-take : (m n : ℕ) (xs : List RaftLogEntry) → m ≤ n → take m (take n xs) ≡ take m xs
take-take zero n xs le = refl
take-take (suc m) zero xs le = absurd (omega arith)
take-take (suc m) (suc n) [] le = refl
take-take (suc m) (suc n) (x ∷ xs) le = ground (arith, take-take m n xs)

pub Extends-trans : (r s t : RaftConsensus) → Extends r s → Extends s t → Extends r t
Extends-trans r s t h k = record {
  sound = k.sound;
  grows = omega arith;
  history =
      sym (take-take r.commit_index s.commit_index t.log h.grows)
      ∙ ap (take r.commit_index) k.history
      ∙ take-take r.commit_index s.commit_index s.log h.grows
      ∙ h.history;
}

pub if-Extends :
    {A : Type 0} (r : RaftConsensus) (b : Bool) (x y : Outcome A)
    → Extends r x.0
    → Extends r y.0
    → Extends r (if b then x else y).0
if-Extends r true x y h k = h
if-Extends r false x y h k = k

pub persist_log-same : (env : Env) (r : RaftConsensus) → SameLog r (persist_log env r).0
unfolding persist_log
persist_log-same env r = (refl, refl)

pub step_down_on_newer_term-same :
    (r : RaftConsensus) (term : ℕ) → SameLog r (step_down_on_newer_term r term)
unfolding step_down_on_newer_term
step_down_on_newer_term-same r term = ground arith

pub become_leader-same : (r : RaftConsensus) → SameLog r (become_leader_if_majority r).0
unfolding become_leader_if_majority
become_leader-same r = ground arith

pub start_election_at-same : (r : RaftConsensus) (now : ℕ) → SameLog r (start_election_at r now).0
unfolding start_election_at
start_election_at-same r now = ground arith

pub request_vote-same : (r : RaftConsensus) (t c i l : ℕ) → SameLog r (request_vote r t c i l).0
unfolding request_vote
request_vote-same r t c i l = ground arith

pub receive_vote-same :
    (r : RaftConsensus) (t v : ℕ) (g : Bool) → SameLog r (receive_vote r t v g).0
unfolding receive_vote
receive_vote-same r t v g = ground arith

pub receive_append_entries_at-same :
    (env : Env) (r : RaftConsensus) (t l f n : ℕ)
    → SameLog r (receive_append_entries_at env r t l f n).0
unfolding receive_append_entries_at
receive_append_entries_at-same env r t l f n = ground arith

pub log-advance : (r : RaftConsensus) → (advance_commit_index r).0.log ≡ r.log
unfolding advance_commit_index
log-advance r = refl

pub advance-Extends : (r : RaftConsensus) → IsSound r → Extends r (advance_commit_index r).0
advance-Extends r s =
    let (_, _, low, high) = advance_commits_majority r s in
    record {
      sound = record { numbered = rw (log-advance r) s.numbered; covers = rw (log-advance r) high };
      grows = low;
      history = rw (log-advance r) refl;
    }

-- A leader's own entry goes behind its log.
pub pushed-Extends :
    (r s : RaftConsensus) (e : RaftLogEntry)
    → IsSound r
    → s.log ≡ r.log ++ e ∷ []
    → s.commit_index ≡ r.commit_index
    → e.index ≡ length r.log + 1
    → Extends r s
pushed-Extends r s e h l c at = record {
  sound = record {
    numbered = rw l (Numbered-append 0 r.log (e ∷ []) h.numbered (omega arith, tt));
    covers = rw (l, c) (omega (arith, length-append r.log (e ∷ []), h.covers));
  };
  grows = omega arith;
  history = rw l (take-append_le r.commit_index r.log (e ∷ []) h.covers);
}

pub append_own_entry-Extends :
    (env : Env) (r : RaftConsensus) (e : RaftLogEntry)
    → IsSound r
    → length r.log + 1 < 2 ^ 64
    → e.index ≡ add_u64 (last_log_index r.log) 1
    → Extends r (append_own_entry env r e).0
unfolding append_own_entry
append_own_entry-Extends env r e s small at =
    let pushed : RaftConsensus = record r {
      log = r.log ++ e ∷ [];
      match_indexes = Dict.insert r.peer_id e.index r.match_indexes;
    } in
    let grown =
      pushed-Extends r pushed e s refl refl
        (omega (arith, last_log_index-length r.log s.numbered)) in
    let advanced = advance-Extends pushed grown.sound in
    Extends-trans r pushed _ grown (
      Extends-trans pushed (advance_commit_index pushed).0 _ advanced
        (Extends-same _ _ (persist_log-same env (advance_commit_index pushed).0) advanced.sound))

pub append_leader_noop-Extends :
    (env : Env) (r : RaftConsensus)
    → IsSound r
    → length r.log + 1 < 2 ^ 64
    → Extends r (append_leader_noop env r).0
unfolding append_leader_noop
append_leader_noop-Extends env r s small =
    append_own_entry-Extends env r _ s small (unfold noop in refl)

pub append_local_block-Extends :
    (env : Env) (r : RaftConsensus) (block_hash : BlockHash)
    → IsSound r
    → length r.log + 1 < 2 ^ 64
    → Extends r (append_local_block env r block_hash).0
unfolding append_local_block
append_local_block-Extends env r block_hash s small =
    elim (Result-cases (ensure_no_uncommitted_block r)) [
      | inl (u, fine) ↦
          rw (fine, append_local_block) (append_own_entry-Extends env r _ s small refl)
      | inr (e, busy) ↦ rw (busy, append_local_block) (Extends-same r r (refl, refl) s)
    ]

-- The validation of a request's entries keeps their number.
pub length-validate_from :
    (env : Env) (entries : List RaftReplicatedBlock) (front log_entries : List RaftLogEntry)
    (blocks kept : Blocks)
    → validate_from env entries front blocks ≡ ok (log_entries, kept)
    → length log_entries ≡ length front + length entries
unfolding validate_from
length-validate_from env [] front log_entries blocks kept h = ground arith
length-validate_from env (x ∷ xs) front log_entries blocks kept h =
    elim (Result-cases (validate_entry env x blocks)) [
      | inr (e, bad) ↦ ground (arith, bad)
      | inl (next, good) ↦ omega (
        arith,
        length-validate_from env xs (front ++ x.entry ∷ []) log_entries next kept
            (rw (good, validate_from) at h),
        length-append front (x.entry ∷ []),
      )
    ]
