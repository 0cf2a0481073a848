-- ===== src/Raft/Machine/Stream/Handlers.antt =====
-- The commit effects of every handler of src/peer/consensus/raft.rs against its commit index.
use rustchain.Base.{
  min, some, Option, map, drop, ℕ, ◌+◌, ◌<◌, ◌^◌, max, ◌≡◌, refl, sym, ◌∙◌, ap, Bool, true, false,
  not, ◌||◌, last_or, List, [], ◌∷◌, ◌++◌, length, arith, nat_eq, ◌==◌, ltb, leb, Bool-cases,
  Option-cases, ok, Result-cases, inl, inr,
}
use rustchain.Data.{RaftLogEntry, ConsensusEffect}
use rustchain.Base.Dict
use rustchain.Env.{Env}
use rustchain.Raft.Log.{last_log_index}
use rustchain.Raft.State.{RaftConsensus}
use rustchain.Base.Sets
use rustchain.Raft.Election.{step_down, receive_append_entries_at}
use rustchain.Raft.Replication.{append_entries, append_entries_response, persist_log}
use rustchain.Raft.Replication.Append.{
  keep_staged_blocks, AppendEntriesRequest, handle_append_entries, validate_replicated_entries,
  accept_entries, acknowledge, Blocks,
}
use rustchain.Raft.Log.{matching_index_for}
use rustchain.Raft.Replication.Leader.{
  handle_leader_append_entries_response, append_entries_effect_for, get_or_zero,
  advance_commit_index, acknowledged, refused,
}
use rustchain.Raft.Replication.Safety.{IsSound}
use rustchain.Raft.Replication.Committed.{append_entries_keeps_committed}
use rustchain.Data.{rollback_block}
use rustchain.Raft.Replication.{block_hashes, commit_effects, stage_effects, to_stage}
use rustchain.Raft.Replication.Committed.{appended, append_effects, append_entries-cases}
use rustchain.Raft.Replication.Merge.{dropped}
use mathlib.Core.List.{append-nil}
use rustchain.Raft.Machine.History.Kept.{
  Extends-same, persist_log-same, receive_append_entries_at-same, length-validate_from,
}
use rustchain.Raft.Machine.Stream.{
  commits, committed, commits-append, commits-commit_effects, effect_for-commits, commits-rollbacks,
  commits-stage,
}
use rustchain.Raft.Machine.Stream.Own.{
  Emits, if-Emits, Emits-same, Emits-from, after-Emits, advance-Emits,
}

acknowledge-Emits :
    (env : Env) (r t : RaftConsensus) (changed : Bool) (effects : List ConsensusEffect)
    → Emits r (t, ok effects)
    → Emits r (acknowledge env t changed effects)
unfolding acknowledge
acknowledge-Emits env r t changed effects h = elim (Bool-cases changed) [
  | inl yes_ ↦ rw yes_ (
      after-Emits r t (persist_log env t).0 (persist_log env t).1 effects (persist_log-same env t)
        h)
  | inr no_ ↦ rw no_ h
]

-- What an accepted request emits, with the acknowledgement behind it.
appended-Emits :
    (r : RaftConsensus) (p t : ℕ) (entries : List RaftLogEntry) (leader_commit to : ℕ) (reach : ℕ)
    → IsSound r
    → p + length entries < 2 ^ 64
    → append_entries r p t entries leader_commit
      ≡ (appended r p entries leader_commit, some (append_effects r p entries leader_commit))
    → Emits r (
      (append_entries r p t entries leader_commit).0,
      ok (
          append_effects r p entries leader_commit
          ++ append_entries_response (append_entries r p t entries leader_commit).0 to true reach
            ∷ []),
    )
unfolding append_entries_response
appended-Emits r p t entries leader_commit to reach s small e =
    let next = appended r p entries leader_commit in
    let (sound, grows, history) =
      rw e at (append_entries_keeps_committed r p t entries leader_commit s small) in
    let news = commit_effects next.log r.commit_index next.commit_index in
    let staged = stage_effects (to_stage r.commit_index entries) in
    let rolled = map rollback_block (dropped (drop p r.log) entries) in
    ap (λ (x : RaftConsensus × Option (List ConsensusEffect)). committed x.0) e
    ∙ commits-commit_effects next.log r.commit_index next.commit_index sound.numbered grows
    ∙ ap (λ l. block_hashes l ++ commits news) history
    ∙ ap (λ hs. committed r ++ hs)
        (sym (
          commits-append (append_effects r p entries leader_commit) _
          ∙ append-nil _
          ∙ commits-append rolled (staged ++ news)
          ∙ rw
              (
                commits-rollbacks (dropped (drop p r.log) entries),
                commits-append staged news,
                commits-stage (to_stage r.commit_index entries),
              )
              refl))

accept_entries-Emits :
    (env : Env) (r : RaftConsensus) (request : AppendEntriesRequest) (es : List RaftLogEntry)
    (blocks : Blocks)
    → IsSound r
    → request.prev_log_index + length es < 2 ^ 64
    → Emits r (accept_entries env r request es blocks)
unfolding accept_entries
accept_entries-Emits env r request es blocks s small =
    let p = request.prev_log_index in
    let reach = last_or (λ (x : RaftLogEntry). x.index) p es in
    elim (append_entries-cases r p request.prev_log_term es request.leader_commit s small) [
      | inl same ↦
          rw (same, accept_entries)
            (ap (λ (x : RaftConsensus × Option (List ConsensusEffect)). committed x.0) same
              ∙ sym (append-nil (committed r)))
      | inr (_, _, _, e) ↦
          let next = (append_entries r p request.prev_log_term es request.leader_commit).0 in
          let effects = append_effects r p es request.leader_commit in
          let done : (append_entries r p request.prev_log_term es request.leader_commit).1
              ≡ some effects =
            ap (λ (x : RaftConsensus × Option (List ConsensusEffect)). x.1) e in
          rw (done, accept_entries)
            (acknowledge-Emits env r
              (record next {
                pending_blocks = (keep_staged_blocks effects (blocks, next.pending_blocks)).1;
              })
              (ltb p reach || not (next.commit_index == r.commit_index))
              (effects ++ append_entries_response next request.from true reach ∷ [])
              (appended-Emits r p request.prev_log_term es request.leader_commit request.from reach
                s small e))
    ]

pub handle_append_entries-Emits :
    (env : Env) (r : RaftConsensus) (request : AppendEntriesRequest)
    → IsSound r
    → request.prev_log_index + length request.entries < 2 ^ 64
    → Emits r (handle_append_entries env r request)
unfolding handle_append_entries validate_replicated_entries append_entries_response
handle_append_entries-Emits env r request s small =
    let met =
      receive_append_entries_at env r request.term request.leader_id request.from request.now in
    let same =
      receive_append_entries_at-same env r request.term request.leader_id request.from
        request.now in
    let refuse =
      append_entries_response met.0 request.from false
        (matching_index_for met.0.log request.prev_log_index request.prev_log_term []) in
    elim (Bool-cases met.1) [
      | inr unheard ↦
          rw (unheard, handle_append_entries) (Emits-same r met.0 (refuse ∷ []) same refl)
      | inl here ↦ elim (Result-cases (validate_replicated_entries env request.entries)) [
        | inr (e, bad) ↦
            rw (here, bad, handle_append_entries) (Emits-same r met.0 (refuse ∷ []) same refl)
        | inl ((es, blocks), good) ↦
            rw (here, good, handle_append_entries)
              (Emits-from r met.0 (accept_entries env met.0 request es blocks) same (
                accept_entries-Emits env met.0 request es blocks (Extends-same r met.0 same s).sound
                  (omega (arith, length-validate_from env request.entries [] es [] blocks good))))
      ]
    ]

acknowledged-Emits :
    (env : Env) (r : RaftConsensus) (from match_index : ℕ)
    → IsSound r
    → Emits r (acknowledged env r from match_index)
unfolding acknowledged
acknowledged-Emits env r from match_index s =
    let told : RaftConsensus = record r {
      match_indexes =
          Dict.insert from (max (get_or_zero (Dict.get r.match_indexes from)) match_index)
            r.match_indexes;
    } in
    let advanced = advance_commit_index told in
    let h : Emits r (advanced.0, ok advanced.1) =
      advance-Emits told (Extends-same r told (refl, refl) s).sound in
    elim (Bool-cases (advanced.0.commit_index == r.commit_index)) [
      | inl still ↦ rw (still, acknowledged) h
      | inr moved ↦
          rw (moved, acknowledged)
            (after-Emits r advanced.0 (persist_log env advanced.0).0 (persist_log env advanced.0).1
              advanced.1 (persist_log-same env advanced.0) h)
    ]

refused-Emits :
    (env : Env) (r : RaftConsensus) (from match_index : ℕ)
    → Emits r (refused env r from match_index)
unfolding refused
refused-Emits env r from match_index =
    let bounded = min match_index (last_log_index r.log) in
    let s : RaftConsensus = record r { match_indexes = Dict.insert from bounded r.match_indexes } in
    if-Emits r (leb (last_log_index s.log) bounded) _ _ (Emits-same r s [] (refl, refl) refl)
      (elim (Option-cases (append_entries_effect_for s from)) [
        | inl nothing ↦ rw nothing (Emits-same r s [] (refl, refl) refl)
        | inr (x, e) ↦ rw e (Emits-same r s (x ∷ []) (refl, refl) (effect_for-commits s from x e))
      ])

pub handle_leader-Emits :
    (env : Env) (r : RaftConsensus) (term from : ℕ) (success : Bool) (match_index : ℕ)
    → IsSound r
    → Emits r (handle_leader_append_entries_response env r term from success match_index)
unfolding handle_leader_append_entries_response
handle_leader-Emits env r term from success match_index s =
    if-Emits r (ltb r.current_term term) _ _
      (Emits-same r (step_down r term) [] (unfold step_down in (refl, refl)) refl)
      (if-Emits r (not (term == r.current_term) || not (Sets.contains r.participants from)) _ _
        (Emits-same r r [] (refl, refl) refl)
        (if-Emits r success _ _ (acknowledged-Emits env r from match_index s)
          (refused-Emits env r from match_index)))
