-- ===== src/Raft/Recovery.antt =====
-- A restart from what `persist_log` has written: src/peer/consensus/raft_log_store.rs and
-- `new_with_storage` of src/peer/consensus/raft.rs.
use rustchain.Base.{ℕ, ◌≡◌, refl, true, none, some, List, ok, arith, Bool-cases, inl, inr}
use rustchain.Data.{RaftLogEntry}
use rustchain.Env.{Env}
use rustchain.Raft.Log.Numbered.{last_log_index-length}
use rustchain.Raft.LogStore.{AnyRaftLogStore, file, in_memory, save, load}
use rustchain.Raft.Replication.{persist_log}
use rustchain.Raft.Replication.Safety.{IsSound}
use rustchain.Raft.State.{RaftConsensus, new_with_storage, new_with_log}

-- The file of the store can be read.
abbrev pub IsReadable : AnyRaftLogStore → Type 0
IsReadable (file store) = store.readable ≡ true
IsReadable (in_memory store) = Unit

-- What has been saved is loaded again, if its JSON parses as what was written.
pub load-save :
    (env : Env) (store : AnyRaftLogStore) (log : List RaftLogEntry) (commit_index : ℕ)
    → env.parse_raft_log (env.raft_log_json (record { log = log; commit_index = commit_index }))
      ≡ some (record { log = log; commit_index = commit_index })
    → IsReadable store
    → (save env store log commit_index).1 ≡ ok tt
    → load env (save env store log commit_index).0
      ≡ ok (record { log = log; commit_index = some commit_index })
unfolding load save
load-save env (file store) log c parses readable done = elim (Bool-cases store.dir_ready) [
  | inr no_dir ↦ absurd (ground (arith, no_dir, done))
  | inl ready ↦ elim (Bool-cases store.writable) [
    | inr stuck ↦ absurd (ground (arith, ready, stuck, done))
    | inl free ↦ ground (arith, ready, free, readable, parses)
  ]
]
load-save env (in_memory store) log c parses readable done = refl

-- A peer that restarts from the store that persist_log has written has the log and the commit
-- index it had, and is at term 0 without a vote, if the JSON of the stored log parses as it, the
-- file can be read, and the write succeeded.
pub persist_log-restart :
    (env : Env) (r : RaftConsensus) (commit_index now : ℕ)
    → IsSound r
    → env.parse_raft_log (env.raft_log_json (record { log = r.log; commit_index = r.commit_index }))
      ≡ some (record { log = r.log; commit_index = r.commit_index })
    → IsReadable r.raft_log_store
    → (persist_log env r).1 ≡ ok tt
    → (t : RaftConsensus) × (new_with_storage env r.peer_id
          (persist_log env r).0.raft_log_store
          commit_index
          now
        ≡ ok t)
      × (t.log ≡ r.log)
      × (t.commit_index ≡ r.commit_index)
      × (t.current_term ≡ 0)
      × (t.voted_for ≡ none)
unfolding persist_log new_with_storage new_with_log
persist_log-restart env r commit_index now s parses readable done =
    let loaded = load-save env r.raft_log_store r.log r.commit_index parses readable done in
    (
      new_with_log env r.peer_id r.log r.commit_index
          (save env r.raft_log_store r.log r.commit_index).0 now,
      rw (loaded, new_with_storage) refl,
      refl,
      omega (arith, last_log_index-length r.log s.numbered, s.covers),
      refl,
      refl,
    )
