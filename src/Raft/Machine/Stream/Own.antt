-- ===== src/Raft/Machine/Stream/Own.antt =====
-- The commit effects of a leader that appends an entry of its own (src/peer/consensus/raft/replication.rs).
use rustchain.Base.{
  err, Result, ◌>>◌, ◌+◌, ◌<◌, ◌^◌, ◌≡◌, refl, sym, ◌∙◌, ap, Bool, true, false, List, [], ◌∷◌, ◌++◌,
  length, arith, nat_eq, add_u64, if◌then◌else◌, ok, Result-cases, inl, inr,
}
use rustchain.Data.{BlockHash, RaftLogEntry, ConsensusEffect, noop}
use rustchain.Base.Dict
use rustchain.Env.{Env}
use rustchain.Raft.Log.{last_log_index}
use rustchain.Raft.Log.Numbered.{last_log_index-length}
use rustchain.Raft.State.{RaftConsensus, Outcome}
use rustchain.Raft.Replication.{persist_log}
use rustchain.Raft.Replication.Leader.{
  append_entries_effects_for_followers, append_own_entry, append_local_block, append_leader_noop,
  ensure_no_uncommitted_block, advance_commit_index,
}
use rustchain.Raft.Replication.Safety.{IsSound}
use rustchain.Data.{Error}
use rustchain.Raft.Replication.{block_hashes}
use mathlib.Core.List.{append-nil}
use rustchain.Raft.Machine.History.Kept.{SameLog, persist_log-same, advance-Extends, pushed-Extends}
use rustchain.Raft.Machine.Stream.{
  commits, committed, commits-append, commits-commit_effects, commits-sends,
}

-- A handler that succeeds commits the blocks of the entries that it adds to the committed ones.
abbrev pub Emits : RaftConsensus → Outcome (List ConsensusEffect) → Type 0
Emits r (s, ok effects) = committed s ≡ committed r ++ commits effects
Emits r (s, err e) = Unit

pub if-Emits :
    (r : RaftConsensus) (b : Bool) (x y : Outcome (List ConsensusEffect))
    → Emits r x
    → Emits r y
    → Emits r (if b then x else y)
if-Emits r true x y h k = h
if-Emits r false x y h k = k

-- A handler that leaves the log and the commit index, and commits nothing.
pub Emits-same :
    (r s : RaftConsensus) (effects : List ConsensusEffect)
    → SameLog r s
    → commits effects ≡ []
    → Emits r (s, ok effects)
Emits-same r s effects (l, c) none_ = rw (l, c, none_) (sym (append-nil (committed r)))

-- A handler that runs on from a state with the same log.
pub Emits-from :
    (r s : RaftConsensus) (out : Outcome (List ConsensusEffect))
    → SameLog r s
    → Emits s out
    → Emits r out
Emits-from r s (t, ok effects) (l, c) h = rw (l, c) at h
Emits-from r s (t, err e) same h = tt

-- The effects of the result of a write stand for a state with the same log.
pub after-Emits :
    (r s t : RaftConsensus) (done : Result Error (Unit {0})) (effects : List ConsensusEffect)
    → SameLog s t
    → Emits r (s, ok effects)
    → Emits r (t, (do done; ok effects))
after-Emits r s t (ok _) effects (l, c) h = rw (l, c) h
after-Emits r s t (err e) effects same h = tt

pub advance-Emits :
    (r : RaftConsensus)
    → IsSound r
    → Emits r ((advance_commit_index r).0, ok (advance_commit_index r).1)
unfolding advance_commit_index
advance-Emits r s =
    commits-commit_effects r.log r.commit_index (advance_commit_index r).0.commit_index s.numbered
      (advance-Extends r s).grows

pub append_own_entry-Emits :
    (env : Env) (r : RaftConsensus) (e : RaftLogEntry)
    → IsSound r
    → length r.log + 1 < 2 ^ 64
    → e.index ≡ add_u64 (last_log_index r.log) 1
    → Emits r (append_own_entry env r e)
unfolding append_own_entry append_entries_effects_for_followers
append_own_entry-Emits env r e s small at =
    let pushed : RaftConsensus = record r {
      log = r.log ++ e ∷ [];
      match_indexes = Dict.insert r.peer_id e.index r.match_indexes;
    } in
    let grown =
      pushed-Extends r pushed e s refl refl
        (omega (arith, last_log_index-length r.log s.numbered)) in
    let advanced = advance_commit_index pushed in
    let sends = append_entries_effects_for_followers pushed in
    let silent : commits sends ≡ [] = commits-sends pushed _ in
    let emitted : Emits r (advanced.0, ok (sends ++ advanced.1)) =
      advance-Emits pushed grown.sound
      ∙ rw (commits-append sends advanced.1, silent)
          (ap (λ l. block_hashes l ++ commits advanced.1) grown.history) in
    after-Emits r advanced.0 (persist_log env advanced.0).0 (persist_log env advanced.0).1
      (sends ++ advanced.1) (persist_log-same env advanced.0) emitted

pub append_local_block-Emits :
    (env : Env) (r : RaftConsensus) (h : BlockHash)
    → IsSound r
    → length r.log + 1 < 2 ^ 64
    → Emits r (append_local_block env r h)
unfolding append_local_block
append_local_block-Emits env r h s small = elim (Result-cases (ensure_no_uncommitted_block r)) [
  | inl (_, free) ↦ rw (free, append_local_block) (append_own_entry-Emits env r _ s small refl)
  | inr (e, busy) ↦ rw (busy, append_local_block) tt
]

pub append_leader_noop-Emits :
    (env : Env) (r : RaftConsensus)
    → IsSound r
    → length r.log + 1 < 2 ^ 64
    → Emits r (append_leader_noop env r)
unfolding append_leader_noop
append_leader_noop-Emits env r s small =
    append_own_entry-Emits env r _ s small (unfold noop in refl)
