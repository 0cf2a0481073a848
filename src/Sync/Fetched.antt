-- ===== src/Sync/Fetched.antt =====
-- The blocks that `get_block_file` of src/synchronization.rs fetches over the local network.
use rustchain.Base.{
  ℕ, ◌<◌, ◌≡◌, min, ◌&&◌, some, ok, length, ◌==◌, nat_eq, arith, Bool-cases, inl, inr,
}
use rustchain.Base.Dict
use rustchain.Base.Dict.{Dict}
use rustchain.Data.{BlockFile}
use rustchain.Env.{Env}
use rustchain.Network.{get_block}
use rustchain.Network.Local.{LocalNetwork, send_and_wait}
use rustchain.Sync.{get_block_file, get_peers_for_index, block_states_match, successes}
use rustchain.Sync.Agreed.{get-AllAre, unanimous, length-successes}
use rustchain.Sync.Local.{LocalJson, Generator, local_indexes, local_answers}
use rustchain.Sync.Holds.{
  ReadsBack, IsFair, Confirmed, peer_at-contains, state_answer, state_answers, same_file,
  get-state_answers, length-state_answers, state_answers-Distinct, reaches, held_by,
}

module _ {Sender : Type 0} (env : Env) (json : LocalJson) (net : LocalNetwork Sender)
    (reads : ReadsBack json) (index : ℕ) where
  -- A block that is fetched over the local network is confirmed by the peers that are asked.
  pub get_block_file-Confirmed :
      (generator : Generator) (block : BlockFile)
      → IsFair generator
      → 0 < length net.known_peers
      → get_block_file (local_indexes env json net) index (local_answers env json net generator)
        ≡ some (some block)
      → Confirmed env net index block
  unfolding get_block_file local_answers
  get_block_file-Confirmed generator block fair some_known fetched =
      let answer_of = state_answer env json net reads index in
      let listed = get_peers_for_index (local_indexes env json net) index in
      let n = min (length net.known_peers) 3 in
      let requested = generator.choose_multiple listed n in
      let answers = state_answers env json net reads index requested in
      let results = successes (Dict.values answers) in
      elim (Bool-cases (length results == n && block_states_match results)) [
        | inr refused ↦ absurd (ground (arith, fetched, refused))
        | inl agreed ↦
            let sizes : (length requested ≡ n)
                × (length results ≡ length answers)
                × (length answers ≡ length requested) =
              ground (
                arith,
                agreed,
                fair.1 listed n,
                length-state_answers env json net reads index requested,
                length-successes answers,
              ) in
            let (chosen, at, among) =
              peer_at-contains requested (generator.random_range n)
                (ground (arith, sizes.0, fair.2 n)) in
            let sent : send_and_wait env json.state_as_block json.block_as_block net chosen
                  (get_block index)
                ≡ ok block =
              ground (arith, fetched, agreed, at) in
            let first = get-state_answers env json net reads index requested chosen among in
            let (s, all) =
              unanimous answers chosen (answer_of chosen) sizes.1 (ground (arith, agreed)) first in
            let state =
              same_file env json net reads index chosen s block
                (get-AllAre s answers chosen (answer_of chosen) all first) sent in
            (
              requested,
              sizes.0,
              state_answers-Distinct env json net reads index requested sizes.2,
              λ id asked.
                  let answer =
                    get-AllAre s answers id (answer_of id) all
                      (get-state_answers env json net reads index requested id asked) in
                  held_by env json net reads index id s block answer state
                    (reaches env json net reads index id (fair.0 listed n id asked)),
            )
      ]
