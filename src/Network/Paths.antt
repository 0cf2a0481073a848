-- ===== src/Network/Paths.antt =====
-- The paths of src/network/mod.rs: which request a path stands for.
use rustchain.Base.{ℕ, ◌^◌, ◌≤◌, ◌<◌, ◌≡◌, refl, [], ◌∷◌, All, drop, arith, ap, sym, ◌∙◌, subst}
use rustchain.Network.{
  Text, NetworkMessage, get_latest_block_state, get_block_state, get_block, peer_message, register,
  get_peers, get, method, decimal, path,
}
use rustchain.Storage.{digits_onto}
use rustchain.Storage.Names.{value, value-digits_onto, IsDigit, digits_onto-AreDigits}

decimal-eq : (m n : ℕ) → m < 2 ^ 32 → n < 2 ^ 32 → decimal m ≡ decimal n → m ≡ n
unfolding decimal
decimal-eq m n hm hn same =
    let read_m : value 0 (digits_onto 10 m []) ≡ m =
      unfold value in value-digits_onto 10 m [] (omega arith) in
    let read_n : value 0 (digits_onto 10 n []) ≡ n =
      unfold value in value-digits_onto 10 n [] (omega arith) in
    sym read_m ∙ ap (value 0) same ∙ read_n

-- A text of digits does not begin with a letter.
not_a_letter : (n c : ℕ) (cs : Text) → 58 ≤ c → ¬ (decimal n ≡ c ∷ cs)
unfolding decimal
not_a_letter n c cs letter same =
    let digits = digits_onto-AreDigits 10 n [] tt in
    let wrong : All IsDigit (c ∷ cs) = subst (All IsDigit) same digits in
    omega (arith, wrong.0.1, letter)

-- The index of a request fits a u32.
abbrev pub Fits : NetworkMessage → Type 0
Fits (get_block_state idx) = idx < 2 ^ 32
Fits (get_block idx) = idx < 2 ^ 32
Fits other = Unit

-- Two messages that are asked by GET and have the same path are the same, if their indexes are of
-- 32 bits.
pub path-eq :
    (m n : NetworkMessage)
    → method m ≡ get
    → method n ≡ get
    → Fits m
    → Fits n
    → path m ≡ path n
    → m ≡ n
unfolding path method
path-eq get_latest_block_state get_latest_block_state hm hn fm fn same = refl
path-eq get_latest_block_state (get_block_state j) hm hn fm fn same =
    absurd (not_a_letter j 108 _ (omega arith) (sym (ap (drop 13) same)))
path-eq get_latest_block_state (get_block j) hm hn fm fn same =
    absurd (not_a_letter j 115 _ (omega arith) (sym (ap (drop 7) same)))
path-eq get_latest_block_state get_peers hm hn fm fn same = cc same
path-eq get_latest_block_state (peer_message q) hm hn fm fn same = cc hn
path-eq get_latest_block_state (register q) hm hn fm fn same = cc hn
path-eq (get_block_state i) get_latest_block_state hm hn fm fn same =
    absurd (not_a_letter i 108 _ (omega arith) (ap (drop 13) same))
path-eq (get_block_state i) (get_block_state j) hm hn fm fn same =
    ap get_block_state (decimal-eq i j fm fn (ap (drop 13) same))
path-eq (get_block_state i) (get_block j) hm hn fm fn same =
    absurd (not_a_letter j 115 _ (omega arith) (sym (ap (drop 7) same)))
path-eq (get_block_state i) get_peers hm hn fm fn same = cc same
path-eq (get_block_state i) (peer_message q) hm hn fm fn same = cc hn
path-eq (get_block_state i) (register q) hm hn fm fn same = cc hn
path-eq (get_block i) get_latest_block_state hm hn fm fn same =
    absurd (not_a_letter i 115 _ (omega arith) (ap (drop 7) same))
path-eq (get_block i) (get_block_state j) hm hn fm fn same =
    absurd (not_a_letter i 115 _ (omega arith) (ap (drop 7) same))
path-eq (get_block i) (get_block j) hm hn fm fn same =
    ap get_block (decimal-eq i j fm fn (ap (drop 7) same))
path-eq (get_block i) get_peers hm hn fm fn same = cc same
path-eq (get_block i) (peer_message q) hm hn fm fn same = cc hn
path-eq (get_block i) (register q) hm hn fm fn same = cc hn
path-eq get_peers get_latest_block_state hm hn fm fn same = cc same
path-eq get_peers (get_block_state j) hm hn fm fn same = cc same
path-eq get_peers (get_block j) hm hn fm fn same = cc same
path-eq get_peers get_peers hm hn fm fn same = refl
path-eq get_peers (peer_message q) hm hn fm fn same = cc hn
path-eq get_peers (register q) hm hn fm fn same = cc hn
path-eq (peer_message p) n hm hn fm fn same = cc hm
path-eq (register p) n hm hn fm fn same = cc hm
