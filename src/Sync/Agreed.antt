-- ===== src/Sync/Agreed.antt =====
-- The answers that `get_block_file` of src/synchronization.rs compares: when all of them are there
-- and equal, each asked peer has given the same one.
use rustchain.Base.{
  ℕ, suc, ◌+◌, ◌≤◌, ◌≡◌, refl, sym, subst, ap, true, ◌&&◌, none, some, List, [], ◌∷◌, Result, ok,
  err, length, All, ◌==◌, nat_eq, arith, Bool-cases, inl, inr, leb, keep,
}
use rustchain.Base.Dict
use rustchain.Base.Dict.{Dict, get-insert}
use rustchain.Base.Dict.Unique.{Unique, Unique-insert}
use rustchain.Base.Sets.{contains, Distinct}
use rustchain.Data.{PeerId, BlockFile, BlockStorageState, Error}
use rustchain.Env.{Env}
use rustchain.Network.{NetworkMessage}
use rustchain.Network.Local.{LocalNetwork, send_and_wait, ask_all}
use rustchain.Sync.{
  PeersStates, same_state, block_states_match, successes, latest_indexes, get_peers_for_index,
}

abbrev Answered : Type 0
Answered = Dict PeerId (Result Error BlockStorageState)

pub length-successes : (d : Answered) → length (successes (Dict.values d)) ≤ length d
unfolding successes
length-successes [] = omega arith
length-successes ((k, ok a) ∷ d) = omega (arith, length-successes d)
length-successes ((k, err e) ∷ d) = omega (arith, length-successes d)

same_state-eq : (a b : BlockStorageState) → same_state a b ≡ true → a ≡ b
same_state-eq a b same = ground (arith, same)

abbrev pub AllAre : BlockStorageState → Answered → Type 0
AllAre s d = All (λ e. e.1 ≡ ok s) d

unanimous_rest :
    (s : BlockStorageState) (d : Answered)
    → length (successes (Dict.values d)) ≡ length d
    → block_states_match (s ∷ successes (Dict.values d)) ≡ true
    → AllAre s d
unfolding successes block_states_match
unanimous_rest s [] full match = tt
unanimous_rest s ((k, err e) ∷ d) full match = absurd (omega (arith, length-successes d))
unanimous_rest s ((k, ok a) ∷ d) full match =
    let (same, rest) : (same_state s a ≡ true)
        × (block_states_match (a ∷ successes (Dict.values d)) ≡ true) =
      ground (arith, match) in
    let equal = same_state-eq s a same in
    (
      ap ok (sym equal),
      unanimous_rest s d (omega arith)
          (subst (λ b. block_states_match (b ∷ successes (Dict.values d)) ≡ true) (sym equal) rest),
    )

pub get-AllAre :
    (s : BlockStorageState) (d : Answered) (id : PeerId) (r : Result Error BlockStorageState)
    → AllAre s d
    → Dict.get d id ≡ some r
    → r ≡ ok s
unfolding Dict.get
get-AllAre s [] id r are there = absurd (ground (arith, there))
get-AllAre s ((k, a) ∷ d) id r are there = ground (arith, there, are.0, get-AllAre s d id r are.1)

length-insert :
    (d : Answered) (k : PeerId) (r : Result Error BlockStorageState)
    → length (Dict.insert k r d) ≤ suc (length d)
unfolding Dict.insert
length-insert [] k r = omega arith
length-insert ((j, a) ∷ d) k r = ground (arith, length-insert d k r)

insert_grows :
    (d : Answered) (k : PeerId) (r : Result Error BlockStorageState)
    → length (Dict.insert k r d) ≡ suc (length d)
    → Dict.get d k ≡ none
unfolding Dict.insert Dict.get
insert_grows [] k r grown = refl
insert_grows ((j, a) ∷ d) k r grown = ground (arith, grown, insert_grows d k r)

pub get-latest_indexes :
    (d : Answered) (id : PeerId) (s : BlockStorageState)
    → Unique d
    → Dict.get (latest_indexes d) id ≡ some s
    → Dict.get d id ≡ some (ok s)
unfolding Dict.get latest_indexes
get-latest_indexes [] id s u there = absurd (ground (arith, there))
get-latest_indexes ((k, ok a) ∷ d) id s u there =
    ground (arith, there, get-latest_indexes d id s u.1, get-insert (latest_indexes d) k id a)
get-latest_indexes ((k, err e) ∷ d) id s u there =
    ground (arith, there, get-latest_indexes d id s u.1, u.0)

pub Unique-latest_indexes : (d : Answered) → Unique (latest_indexes d)
unfolding latest_indexes
Unique-latest_indexes [] = tt
Unique-latest_indexes ((k, ok a) ∷ d) =
    Unique-insert k a (latest_indexes d) (Unique-latest_indexes d)
Unique-latest_indexes ((k, err e) ∷ d) = Unique-latest_indexes d

pub unanimous :
    (d : Answered) (id : PeerId) (r : Result Error BlockStorageState)
    → length (successes (Dict.values d)) ≡ length d
    → block_states_match (successes (Dict.values d)) ≡ true
    → Dict.get d id ≡ some r
    → (s : BlockStorageState) × AllAre s d
unfolding successes Dict.get
unanimous [] id r full match there = absurd (ground (arith, there))
unanimous ((k, err e) ∷ d) id r full match there = absurd (omega (arith, length-successes d))
unanimous ((k, ok a) ∷ d) id r full match there =
    (a, (refl, unanimous_rest a d (omega arith) match))

-- The peers that `get_peers_for_index` names are those with a state of at least this height.
pub peer_for_index :
    (states : PeersStates) (index : ℕ) (id : PeerId)
    → Unique states
    → contains (get_peers_for_index states index) id ≡ true
    → (s : BlockStorageState) × (Dict.get states id ≡ some s) × (index ≤ s.block_height)
unfolding get_peers_for_index keep contains Dict.get
peer_for_index [] index id u listed = absurd (ground (arith, listed))
peer_for_index ((k, a) ∷ states) index id u listed =
    elim (Bool-cases (leb index a.block_height && k == id)) [
      | inl here ↦ (a, ground (arith, here), ground (arith, here))
      | inr later ↦
          let rest : contains (get_peers_for_index states index) id ≡ true =
            unfold get_peers_for_index in unfold keep in ground (arith, listed, later) in
          let (s, there, high) = peer_for_index states index id u.1 rest in
          (s, ground (arith, there, u.0), high)
    ]

module _ {Sender : Type 0} (env : Env)
    (from_state : BlockStorageState → Result Error BlockStorageState)
    (from_block : BlockFile → Result Error BlockStorageState) (net : LocalNetwork Sender)
    (message : NetworkMessage) where
  abbrev asked : List PeerId → Answered → Answered
  asked = ask_all env from_state from_block net message

  pub Unique-ask_all : (peers : List PeerId) (d : Answered) → Unique d → Unique (asked peers d)
  unfolding ask_all
  Unique-ask_all [] d u = u
  Unique-ask_all (k ∷ peers) d u = Unique-ask_all peers _ (Unique-insert k _ d u)

  pub length-ask_all :
      (peers : List PeerId) (d : Answered) → length (asked peers d) ≤ length d + length peers
  unfolding ask_all
  length-ask_all [] d = omega arith
  length-ask_all (k ∷ peers) d = omega (
    arith,
    length-insert d k (send_and_wait env from_state from_block net k message),
    length-ask_all peers (Dict.insert k (send_and_wait env from_state from_block net k message) d),
  )

  -- As many answers as peers that were asked: none was asked twice.
  pub ask_all-Distinct :
      (peers : List PeerId) (d : Answered)
      → length (asked peers d) ≡ length d + length peers
      → Distinct peers × ((id : PeerId) → contains peers id ≡ true → Dict.get d id ≡ none)
  unfolding ask_all contains
  ask_all-Distinct [] d full = (tt, λ id absent. absurd (ground (arith, absent)))
  ask_all-Distinct (k ∷ peers) d full =
      let answer = send_and_wait env from_state from_block net k message in
      let longer = length-ask_all peers (Dict.insert k answer d) in
      let one = length-insert d k answer in
      let (distinct, fresh) = ask_all-Distinct peers (Dict.insert k answer d) (omega arith) in
      let new : Dict.get d k ≡ none = insert_grows d k answer (omega arith) in
      (
        (
          elim (Bool-cases (contains peers k)) [
            | inr absent ↦ absent
            | inl again ↦ ground (arith, fresh k again, get-insert d k k answer)
          ],
          distinct,
        ),
        λ id among. elim (Bool-cases (k == id)) [
          | inl here ↦ ground (arith, here, new)
          | inr away ↦ ground (arith, away, among, fresh id, get-insert d k id answer)
        ],
      )
