-- ===== src/Raft/Cluster/Tests.antt =====
-- An election among three engines (src/peer/consensus/raft/election.rs).
use rustchain.Base.{◌*◌, ◌^◌, ◌≡◌, refl, true, none, List, [], ◌∷◌, inl, arith, nat_eq}
use rustchain.Base.Sets
use rustchain.Data.{PeerId}
use rustchain.Env.Samples.{sample}
use rustchain.Raft.Cluster.{Cluster, act, May, acts, Reach, here, next, grants_after}
use rustchain.Raft.Cluster.Alone.{alone_leads}
use rustchain.Raft.Cluster.Leaders.{one_leader_in_a_term}
use rustchain.Raft.Cluster.Sound.{IsFresh}
use rustchain.Raft.Handlers.{on_request_vote_response, on_tick, on_request_vote}
use rustchain.Raft.Log.{last_log_term}
use rustchain.Raft.LogStore.{in_memory}
use rustchain.Raft.Machine.{ticked, vote_requested, vote_answered, step}
use rustchain.Raft.State.{leader, new_with_log}

abbrev members : List PeerId
members = 1 ∷ 2 ∷ 3 ∷ []

abbrev start : Cluster
start = record {
  peers = λ p. new_with_log sample p [] 0 (in_memory (record { log = []; commit_index = none })) 0;
  grants = [];
}

-- Peer 1 times out, asks, and peer 2 grants.
abbrev campaigned : Cluster
campaigned = act start 1 sample (ticked (20 * 10 ^ 9) (2 ∷ 3 ∷ []))

abbrev voted : Cluster
voted = act campaigned 2 sample (vote_requested 1 1 0 0 1)

abbrev elected : Cluster
elected = act voted 1 sample (vote_answered 1 2 true)

fresh : IsFresh start
unfolding new_with_log
fresh = record { follows = λ p. refl; identity = λ p. refl; no_grants = refl }

complete : May members start 1 (ticked (20 * 10 ^ 9) (2 ∷ 3 ∷ []))
unfolding Sets.insert Sets.contains Sets.from_list
complete = ((λ a m. ground (arith, m)), (λ a m. ground (arith, m)))

granted : May members voted 1 (vote_answered 1 2 true)
unfolding act step grants_after on_request_vote_response on_tick on_request_vote new_with_log
    Sets.insert Sets.contains Sets.from_list last_log_term
granted = inl (refl, refl, refl)

reached : Reach members start elected
unfolding act step grants_after on_request_vote_response on_tick on_request_vote new_with_log
    Sets.insert Sets.contains Sets.from_list
reached =
    next
      (next
        (next here (acts 1 sample (ticked (20 * 10 ^ 9) (2 ∷ 3 ∷ [])) refl (omega arith) complete))
        (acts 2 sample (vote_requested 1 1 0 0 1) refl (omega arith) refl))
      (acts 1 sample (vote_answered 1 2 true) refl (omega arith) granted)

leads : (elected.peers 1).role ≡ leader
unfolding act step grants_after on_request_vote_response on_tick on_request_vote new_with_log
    Sets.insert Sets.contains Sets.from_list
leads = refl

one_leader_in_a_term_example : ◌≡◌ {A = PeerId} 1 1
one_leader_in_a_term_example =
    one_leader_in_a_term members start elected 1 1
      (unfold Sets.contains in (refl, (refl, (refl, tt)))) fresh reached leads leads refl

alone_leads_example :
    ((on_tick sample (start.peers 1) (20 * 10 ^ 9) []).0.role ≡ leader)
    × ((on_tick sample (start.peers 1) (20 * 10 ^ 9) []).0.current_term ≡ 1)
unfolding new_with_log
alone_leads_example = alone_leads sample (start.peers 1) (20 * 10 ^ 9) refl refl (omega arith)
