-- ===== src/Storage/Names.antt =====
-- The digits of a number, as src/storage.rs writes them in the name of a block's file.
use rustchain.Base.{
  ℕ, zero, suc, ◌+◌, ◌-◌, ◌*◌, ◌/◌, ◌%◌, ◌^◌, ◌<◌, ◌≤◌, All, ◌≡◌, refl, List, [], ◌∷◌, ◌++◌,
  Bool-cases, inl, inr, ltb, arith, ◌==◌, nat_eq, bytes_eq, bytes_beq_iff, eq_self, true, ap, sym,
  ◌∙◌,
}
use rustchain.Storage.{digits_onto, padded, block_filename_for_index}

-- What digits are read as, behind the number that is read so far.
unfoldable pub value : ℕ → List ℕ → ℕ
value n [] = n
value n (d ∷ ds) = value (n * 10 + (d - 48)) ds

shorter : (k n : ℕ) → n < k * 10 → n / 10 < k
shorter k n h = omega arith

pub value-digits_onto :
    (fuel n : ℕ) (rest : List ℕ) → n < 10 ^ fuel → value 0 (digits_onto fuel n rest) ≡ value n rest
unfolding value digits_onto
value-digits_onto zero n rest h = let none_left : n ≡ 0 = omega arith in rw none_left refl
value-digits_onto (suc fuel) n rest h = elim (Bool-cases (ltb n 10)) [
  | inl last ↦ rw (last, digits_onto) (ap (λ (m : ℕ). value m rest) (omega arith))
  | inr more ↦
      rw (more, digits_onto)
        (value-digits_onto fuel (n / 10) ((48 + n % 10) ∷ rest) (omega arith)
          ∙ ap (λ (m : ℕ). value m rest) (omega arith))
]

digits_onto-append :
    (fuel n : ℕ) (rest more : List ℕ)
    → digits_onto fuel n rest ++ more ≡ digits_onto fuel n (rest ++ more)
unfolding digits_onto
digits_onto-append zero n rest more = refl
digits_onto-append (suc fuel) n rest more = elim (Bool-cases (ltb n 10)) [
  | inl last ↦ rw (last, digits_onto) refl
  | inr above ↦
      rw (above, digits_onto) (digits_onto-append fuel (n / 10) ((48 + n % 10) ∷ rest) more)
]

abbrev extension : List ℕ
extension = b'.' ∷ b'b' ∷ b'l' ∷ b'o' ∷ b'c' ∷ b'k' ∷ []

value-digits-extension :
    (n : ℕ) → n < 2 ^ 32 → value 0 (digits_onto 10 n [] ++ extension) ≡ value n extension
value-digits-extension n h =
    rw (digits_onto-append 10 n [] extension) (value-digits_onto 10 n extension (omega arith))

value-filename : (n : ℕ) → n < 2 ^ 32 → value 0 (block_filename_for_index n) ≡ value n extension
unfolding block_filename_for_index padded value
value-filename n h = ground (arith, value-digits-extension n h)

pub block_filename-eq :
    (m n : ℕ)
    → m < 2 ^ 32
    → n < 2 ^ 32
    → block_filename_for_index m ≡ block_filename_for_index n
    → m ≡ n
block_filename-eq m n hm hn same =
    let both : value m extension ≡ value n extension =
      sym (value-filename m hm) ∙ ap (value 0) same ∙ value-filename n hn in
    unfold value in omega arith

-- So a test of two names is a test of their numbers.
pub same_filename :
    (m n : ℕ)
    → m < 2 ^ 32
    → n < 2 ^ 32
    → (block_filename_for_index m == block_filename_for_index n) ≡ (n == m)
same_filename m n hm hn =
    elim (Bool-cases (block_filename_for_index m == block_filename_for_index n)) [
      | inl same ↦
          let e = block_filename-eq m n hm hn ((bytes_beq_iff _ _).0 same) in
          rw same (ground (arith, e))
      | inr apart ↦ elim (Bool-cases (n == m)) [
        | inr other ↦ rw (apart, other) refl
        | inl equal ↦
            let e : n ≡ m = ground (arith, equal) in
            let same : (block_filename_for_index m == block_filename_for_index n) ≡ true =
              rw e (eq_self (block_filename_for_index m)) in
            absurd (ground (arith, same, apart))
      ]
    ]

abbrev pub IsDigit : ℕ → Type 0
IsDigit c = (48 ≤ c) × (c < 58)

pub digits_onto-AreDigits :
    (fuel n : ℕ) (rest : List ℕ) → All IsDigit rest → All IsDigit (digits_onto fuel n rest)
unfolding digits_onto
digits_onto-AreDigits zero n rest h = h
digits_onto-AreDigits (suc fuel) n rest h = elim (Bool-cases (ltb n 10)) [
  | inl last ↦ rw (last, digits_onto) ((ground (arith, last), ground (arith, last)), h)
  | inr more ↦
      rw (more, digits_onto)
        (digits_onto-AreDigits fuel (n / 10) ((48 + n % 10) ∷ rest) ((omega arith, omega arith), h))
]
