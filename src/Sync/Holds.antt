-- ===== src/Sync/Holds.antt =====
-- What the peers of the local network answer to the synchronization of src/synchronization.rs, by
-- what is in their directories.
use rustchain.Base.{
  ℕ, suc, zero, ◌≤◌, ◌<◌, ◌≡◌, refl, sym, ◌∙◌, ap, min, true, some, List, [], ◌∷◌, Result, ok,
  length, nat_eq, arith, Option-cases, Result-cases, inl, inr,
}
use rustchain.Base.Dict
use rustchain.Base.Dict.{Dict}
use rustchain.Base.Sets.{contains, Distinct, Within}
use rustchain.Data.{PeerId, BlockFile, BlockStorageState, Error}
use rustchain.Env.{Env}
use rustchain.Network.{get_latest_block_state, get_block_state, get_block}
use rustchain.Network.Local.{LocalNetwork, send_and_wait, send_and_wait_for_all}
use rustchain.Network.Local.Each.{send_and_wait_for_all-send_and_wait}
use rustchain.Storage.View
use rustchain.Storage.View.{BlockStorageView, state_of_block}
use rustchain.Sync.{get_peers_for_index, latest_indexes}
use rustchain.Sync.Agreed.{
  get-latest_indexes, Unique-latest_indexes, peer_for_index, Unique-ask_all, ask_all-Distinct,
  length-ask_all,
}
use rustchain.Sync.Local.{LocalJson, Generator, peer_at, local_indexes}

-- What is written as JSON is read as what it was.
abbrev pub ReadsBack : LocalJson → Type 0
ReadsBack json =
    ((s : BlockStorageState) → json.state_as_state s ≡ ok s)
    × ((b : BlockFile) → json.block_as_block b ≡ ok b)

-- `choose_multiple` takes from the list and not more than it is asked for, `random_range` stays
-- below its bound.
abbrev pub IsFair : Generator → Type 0
IsFair g =
    ((peers : List PeerId) (n : ℕ) → Within (g.choose_multiple peers n) peers)
    × ((peers : List PeerId) (n : ℕ) → length (g.choose_multiple peers n) ≤ n)
    × ((n : ℕ) → 0 < n → g.random_range n < n)

-- The peer's chain reaches the index, and the file that it has there holds a block with the index
-- and the hash of this one.
abbrev pub Holds : {Sender : Type 0} → Env → LocalNetwork Sender → ℕ → BlockFile → PeerId → Type 0
Holds env net index block id =
    (view : BlockStorageView) × (held : BlockFile) × (Dict.get net.block_storage_views id
      ≡ some view)
    × (index ≤ view.storage_state.block_height)
    × (View.get_block env view index ≡ ok held)
    × (held.index ≡ block.index)
    × (held.hash ≡ block.hash)

-- As many different peers as are asked, all peers or three of them, hold the block.
abbrev pub Confirmed : {Sender : Type 0} → Env → LocalNetwork Sender → ℕ → BlockFile → Type 0
Confirmed env net index block =
    (peers : List PeerId) × (length peers ≡ min (length net.known_peers) 3)
    × Distinct peers
    × ((id : PeerId) → contains peers id ≡ true → Holds env net index block id)

pub peer_at-contains :
    (peers : List PeerId) (place : ℕ)
    → place < length peers
    → (id : PeerId) × (peer_at peers place ≡ some id) × (contains peers id ≡ true)
unfolding peer_at contains
peer_at-contains [] place within = absurd (omega arith)
peer_at-contains (p ∷ peers) zero within = (p, refl, ground arith)
peer_at-contains (p ∷ peers) (suc place) within =
    let (id, at, there) = peer_at-contains peers place (omega arith) in
    (id, at, ground (arith, there))

module _ {Sender : Type 0} (env : Env) (json : LocalJson) (net : LocalNetwork Sender)
    (reads : ReadsBack json) (index : ℕ) where
  abbrev pub state_answer : PeerId → Result Error BlockStorageState
  state_answer id =
      send_and_wait env json.state_as_state json.block_as_state net id (get_block_state index)

  -- What a peer has answered, by what is in its directory.
  reports :
      (id : PeerId) (s : BlockStorageState)
      → send_and_wait env json.state_as_state json.block_as_state net id get_latest_block_state
        ≡ ok s
      → (view : BlockStorageView) × (Dict.get net.block_storage_views id ≡ some view)
        × (view.storage_state ≡ s)
  unfolding send_and_wait View.get_latest_state
  reports id s answered = elim (Option-cases (Dict.get net.block_storage_views id)) [
    | inl absent ↦ absurd (ground (arith, absent, answered))
    | inr (view, there) ↦ (view, there, ground (arith, there, answered, reads.0 view.storage_state))
  ]

  holding :
      (id : PeerId) (s : BlockStorageState)
      → state_answer id ≡ ok s
      → (view : BlockStorageView) × (held : BlockFile) × (Dict.get net.block_storage_views id
          ≡ some view)
        × (View.get_block env view index ≡ ok held)
        × (state_of_block held ≡ s)
  unfolding send_and_wait
  holding id s answered = elim (Option-cases (Dict.get net.block_storage_views id)) [
    | inl absent ↦ absurd (ground (arith, absent, answered))
    | inr (view, there) ↦ elim (Result-cases (View.get_block env view index)) [
      | inl (held, got) ↦ (
        view,
        held,
        there,
        got,
        ground (arith, there, answered, got, reads.0 (state_of_block held)),
      )
      | inr (e, failed) ↦ absurd (ground (arith, there, answered, failed))
    ]
  ]

  -- A peer that has answered with a state and with a block holds both of one file.
  pub same_file :
      (id : PeerId) (s : BlockStorageState) (block : BlockFile)
      → state_answer id ≡ ok s
      → send_and_wait env json.state_as_block json.block_as_block net id (get_block index)
        ≡ ok block
      → state_of_block block ≡ s
  unfolding send_and_wait
  same_file id s block answered sent =
      let (view, held, there, got, state) = holding id s answered in
      let same : held ≡ block = ground (arith, there, got, sent, reads.1 held) in
      ap state_of_block (sym same) ∙ state

  abbrev pub state_answers : List PeerId → Dict PeerId (Result Error BlockStorageState)
  state_answers =
      send_and_wait_for_all env json.state_as_state json.block_as_state net (get_block_state index)

  pub get-state_answers :
      (peers : List PeerId) (id : PeerId)
      → contains peers id ≡ true
      → Dict.get (state_answers peers) id ≡ some (state_answer id)
  get-state_answers peers id there =
      send_and_wait_for_all-send_and_wait env json.state_as_state json.block_as_state net
        (get_block_state index) peers id
      ∙ rw there refl

  pub length-state_answers : (peers : List PeerId) → length (state_answers peers) ≤ length peers
  unfolding send_and_wait_for_all
  length-state_answers peers = omega (
    arith,
    length-ask_all env json.state_as_state json.block_as_state net (get_block_state index) peers [],
  )

  pub state_answers-Distinct :
      (peers : List PeerId) → length (state_answers peers) ≡ length peers → Distinct peers
  unfolding send_and_wait_for_all
  state_answers-Distinct peers full =
      (ask_all-Distinct env json.state_as_state json.block_as_state net (get_block_state index)
        peers [] (omega (arith, full))).0

  -- A peer that is among those for an index has a chain that reaches it.
  pub reaches :
      (id : PeerId)
      → contains (get_peers_for_index (local_indexes env json net) index) id ≡ true
      → (view : BlockStorageView) × (Dict.get net.block_storage_views id ≡ some view)
        × (index ≤ view.storage_state.block_height)
  unfolding local_indexes send_and_wait_for_all
  reaches id listed =
      let answers =
        send_and_wait_for_all env json.state_as_state json.block_as_state net get_latest_block_state
          net.known_peers in
      let listing =
        send_and_wait_for_all-send_and_wait env json.state_as_state json.block_as_state net
          get_latest_block_state net.known_peers in
      let (s, there, high) =
        peer_for_index (latest_indexes answers) index id (Unique-latest_indexes answers) listed in
      let unique =
        Unique-ask_all env json.state_as_state json.block_as_state net get_latest_block_state
          net.known_peers [] tt in
      let answered = get-latest_indexes answers id s unique there in
      let sent : send_and_wait env json.state_as_state json.block_as_state net id
            get_latest_block_state
          ≡ ok s =
        ground (arith, answered, listing id) in
      let (view, at, state) = reports id s sent in (view, at, ground (arith, high, state))

  pub held_by :
      (id : PeerId) (s : BlockStorageState) (block : BlockFile)
      → state_answer id ≡ ok s
      → state_of_block block ≡ s
      → (view : BlockStorageView) × (Dict.get net.block_storage_views id ≡ some view)
        × (index ≤ view.storage_state.block_height)
      → Holds env net index block id
  unfolding state_of_block
  held_by id s block answered state (view, there, high) =
      let (seen, held, at, got, same) = holding id s answered in
      let one : seen ≡ view = ground (arith, at, there) in
      let alike = same ∙ sym state in
      (
        seen,
        held,
        at,
        ground (arith, high, one),
        got,
        ap (λ t. t.block_height) alike,
        ap (λ t. t.last_commited_hash) alike,
      )
