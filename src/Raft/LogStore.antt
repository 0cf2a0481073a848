-- ===== src/Raft/LogStore.antt =====
-- src/peer/consensus/raft_log_store.rs. A file store is its file as the file system holds it:
-- the bytes, if the file is there, and whether it can be read and written.
use rustchain.Base.{ℕ, Bool, Option, none, some, List, [], Result, ok, err, if◌then◌else◌}
use rustchain.Data.{
  Bytes, RaftLogEntry, RaftLogState, Error, log_not_read, log_not_deserialized, log_dir_not_created,
  log_not_written,
}
use rustchain.Env.{Env}

pub record FileRaftLogStore : Type 0 where
  pub contents : Option Bytes
  pub readable : Bool
  pub dir_ready : Bool
  pub writable : Bool

pub record InMemoryRaftLogStore : Type 0 where
  pub log : List RaftLogEntry
  pub commit_index : Option ℕ

pub data AnyRaftLogStore : Type 0 where
  file : FileRaftLogStore → AnyRaftLogStore
  in_memory : InMemoryRaftLogStore → AnyRaftLogStore

unfoldable pub new_in_memory : InMemoryRaftLogStore
new_in_memory = record { log = []; commit_index = none }

-- What a method returns, and the store after it.
abbrev pub Saved : Type 0
Saved = AnyRaftLogStore × Result Error (Unit {0})

module _ (env : Env) where
  unfoldable pub deserialize : Bytes → Result Error RaftLogState
  deserialize contents = elim (env.parse_raft_log contents) [
    | none ↦ err log_not_deserialized
    | some stored ↦ ok (record { log = stored.log; commit_index = some stored.commit_index })
  ]

  unfoldable pub load_file : FileRaftLogStore → Result Error RaftLogState
  unfolding deserialize
  load_file store = elim store.contents [
    | none ↦ ok (record { log = []; commit_index = none })
    | some contents ↦ if store.readable then deserialize contents else err log_not_read
  ]

  unfoldable pub save_file :
      FileRaftLogStore → List RaftLogEntry → ℕ → FileRaftLogStore × Result Error (Unit {0})
  save_file store log commit_index =
      let contents = env.raft_log_json (record { log = log; commit_index = commit_index }) in
      if store.dir_ready
      then (if store.writable
          then (record store { contents = some contents }, ok tt)
          else (store, err log_not_written))
      else (store, err log_dir_not_created)

  unfoldable pub load : AnyRaftLogStore → Result Error RaftLogState
  unfolding load_file
  load (file store) = load_file store
  load (in_memory store) = ok (record { log = store.log; commit_index = store.commit_index })

  unfoldable pub save : AnyRaftLogStore → List RaftLogEntry → ℕ → Saved
  unfolding save_file
  save (file store) log commit_index =
      let (next, result) = save_file store log commit_index in (file next, result)
  save (in_memory store) log commit_index =
      (in_memory (record { log = log; commit_index = some commit_index }), ok tt)
