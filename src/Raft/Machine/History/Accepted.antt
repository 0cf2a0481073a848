-- ===== src/Raft/Machine/History/Accepted.antt =====
-- What a follower that accepts entries keeps of its log (src/peer/consensus/raft/replication.rs).
use rustchain.Base.{
  ℕ, ◌+◌, ◌<◌, ◌^◌, max, refl, Bool, true, not, ◌||◌, last_or, List, [], ◌∷◌, ◌++◌, length, arith,
  nat_eq, ◌==◌, ltb, Bool-cases, Option-cases, inl, inr,
}
use rustchain.Data.{RaftLogEntry, ConsensusEffect}
use rustchain.Base.Dict
use rustchain.Env.{Env}
use rustchain.Raft.State.{RaftConsensus}
use rustchain.Raft.Replication.{append_entries, append_entries_response}
use rustchain.Raft.Replication.Append.{
  keep_staged_blocks, AppendEntriesRequest, accept_entries, acknowledge, Blocks,
}
use rustchain.Raft.Replication.Leader.{get_or_zero, advance_commit_index, acknowledged, refused}
use rustchain.Raft.Replication.Safety.{IsSound}
use rustchain.Raft.Replication.Committed.{append_entries_keeps_committed}
use rustchain.Raft.Machine.History.Kept.{
  Extends, SameLog, Extends-same, Extends-trans, persist_log-same, advance-Extends,
}

module _ (env : Env) (r : RaftConsensus) (s : IsSound r) where
  pub acknowledge-Extends :
      (t : RaftConsensus) (changed : Bool) (effects : List ConsensusEffect)
      → Extends r t
      → Extends r (acknowledge env t changed effects).0
  unfolding acknowledge
  acknowledge-Extends t changed effects h = elim (Bool-cases changed) [
    | inl yes_ ↦ rw yes_ (Extends-trans r t _ h (Extends-same t _ (persist_log-same env t) h.sound))
    | inr no_ ↦ rw no_ h
  ]

  pub accept_entries-Extends :
      (request : AppendEntriesRequest) (log_entries : List RaftLogEntry) (blocks : Blocks)
      → request.prev_log_index + length log_entries < 2 ^ 64
      → Extends r (accept_entries env r request log_entries blocks).0
  unfolding accept_entries
  accept_entries-Extends request log_entries blocks small =
      let appended =
        append_entries r request.prev_log_index request.prev_log_term log_entries
          request.leader_commit in
      let (sound, grows, history) =
        append_entries_keeps_committed r request.prev_log_index request.prev_log_term log_entries
          request.leader_commit s small in
      let next : Extends r appended.0 = record {
        sound = sound;
        grows = grows;
        history = history;
      } in
      elim (Option-cases appended.1) [
        | inl refusal ↦ rw (refusal, accept_entries) next
        | inr (effects, done) ↦
            let reach =
              last_or (λ (x : RaftLogEntry). x.index) request.prev_log_index log_entries in
            let kept : RaftConsensus = record (appended.0) {
              pending_blocks = (keep_staged_blocks effects (blocks, appended.0.pending_blocks)).1;
            } in
            rw (done, accept_entries)
              (acknowledge-Extends kept
                (ltb request.prev_log_index reach
                  || not (appended.0.commit_index == r.commit_index))
                (effects ++ append_entries_response appended.0 request.from true reach ∷ [])
                (Extends-trans r appended.0 kept next
                  (Extends-same appended.0 kept (refl, refl) sound)))
      ]

  pub acknowledged-Extends :
      (from match_index : ℕ) → Extends r (acknowledged env r from match_index).0
  unfolding acknowledged
  acknowledged-Extends from match_index =
      let told : RaftConsensus = record r {
        match_indexes =
            Dict.insert from (max (get_or_zero (Dict.get r.match_indexes from)) match_index)
              r.match_indexes;
      } in
      let advanced = (advance_commit_index told).0 in
      let h : Extends r advanced =
        Extends-trans r told advanced (Extends-same r told (refl, refl) s)
          (advance-Extends told (Extends-same r told (refl, refl) s).sound) in
      elim (Bool-cases (advanced.commit_index == r.commit_index)) [
        | inl still ↦ rw (still, acknowledged) h
        | inr moved ↦
            rw (moved, acknowledged)
              (Extends-trans r advanced _ h
                (Extends-same advanced _ (persist_log-same env advanced) h.sound))
      ]

  pub refused-same : (from match_index : ℕ) → SameLog r (refused env r from match_index).0
  unfolding refused
  refused-same from match_index = ground arith
