-- ===== src/Base/Sets.antt =====
-- `HashSet`: a list without repetitions, in an order that no law of this file fixes.
pub mod Counting
use rustchain.Base.Tests.{PartialEq, ◌==◌, if◌then◌else◌}
use rustchain.Base.Lists.{keep}
use mathlib.Core.Path.{◌≡◌, refl, ◌∙◌}
use mathlib.Core.Bool.{Bool, true, false, ◌&&◌, ◌||◌}
use mathlib.Core.List.{List, [], ◌∷◌, ◌++◌}
use native.Mathlib.Omega.{arith}

module _ {ℓ} {A : Type ℓ} ⦃e : PartialEq A⦄ where
  unfoldable pub contains : List A → A → Bool
  contains [] a = false
  contains (x ∷ xs) a = x == a || contains xs a

  unfoldable pub insert : A → List A → List A
  insert a xs = if contains xs a then xs else xs ++ a ∷ []

  unfoldable pub remove : A → List A → List A
  remove a [] = []
  remove a (x ∷ xs) = let rest = remove a xs in if x == a then rest else x ∷ rest

  -- `HashSet::from_iter`
  unfoldable pub from_list : List A → List A
  from_list [] = []
  from_list (x ∷ xs) = insert x (from_list xs)

  abbrev pub Distinct : List A → Type 0
  Distinct [] = Unit
  Distinct (x ∷ xs) = (contains xs x ≡ false) × Distinct xs

  -- Every member of the first is one of the second.
  abbrev pub Within : List A → List A → Type ℓ
  Within xs ys = (a : A) → contains xs a ≡ true → contains ys a ≡ true

  pub contains-append :
      (xs ys : List A) (a : A) → contains (xs ++ ys) a ≡ (contains xs a || contains ys a)
  unfolding contains
  contains-append [] ys a = refl
  contains-append (x ∷ xs) ys a = ground (arith, contains-append xs ys a)

  pub contains-insert :
      (xs : List A) (a b : A) → contains (insert a xs) b ≡ (a == b || contains xs b)
  unfolding insert contains
  contains-insert xs a b = ground (arith, contains-append xs (a ∷ []) b, e.same_iff a b)

  pub contains-remove :
      (xs : List A) (a b : A) → contains (remove a xs) b ≡ (if a == b then false else contains xs b)
  unfolding remove contains
  contains-remove [] a b = ground arith
  contains-remove (x ∷ xs) a b =
      ground (arith, contains-remove xs a b, e.same_iff a b, e.same_iff x a, e.same_iff x b)

  pub contains-keep :
      (p : A → Bool) (xs : List A) (a : A) → contains (keep p xs) a ≡ (p a && contains xs a)
  unfolding keep contains
  contains-keep p [] a = ground arith
  contains-keep p (x ∷ xs) a = ground (arith, contains-keep p xs a, e.same_iff x a)

  pub Distinct-keep : (p : A → Bool) (xs : List A) → Distinct xs → Distinct (keep p xs)
  unfolding keep
  Distinct-keep p [] h = tt
  Distinct-keep p (x ∷ xs) h = ground (arith, contains-keep p xs x, Distinct-keep p xs h.1)

  pub Distinct-append :
      (xs ys : List A)
      → Distinct xs
      → Distinct ys
      → ((a : A) → contains xs a ≡ true → contains ys a ≡ false)
      → Distinct (xs ++ ys)
  unfolding contains
  Distinct-append [] ys hx hy apart = hy
  Distinct-append (x ∷ xs) ys hx hy apart = (
    ground (arith, contains-append xs ys x, apart x, e.same_iff x x),
    Distinct-append xs ys hx.1 hy (λ a h. ground (arith, apart a, h)),
  )

  pub Distinct-insert : (a : A) (xs : List A) → Distinct xs → Distinct (insert a xs)
  unfolding insert
  Distinct-insert a xs h =
      let alone : Distinct (a ∷ []) = unfold contains in (refl, tt) in
      let apart : contains xs a ≡ false
          → (b : A) → contains xs b ≡ true
          → contains (a ∷ []) b ≡ false =
        λ n b m. unfold contains in ground (arith, e.same_iff a b) in
      ground (arith, Distinct-append xs (a ∷ []) h alone, apart)

  pub Distinct-from_list : (xs : List A) → Distinct (from_list xs)
  unfolding from_list
  Distinct-from_list [] = tt
  Distinct-from_list (x ∷ xs) = Distinct-insert x (from_list xs) (Distinct-from_list xs)

  pub contains-from_list : (xs : List A) (a : A) → contains (from_list xs) a ≡ contains xs a
  unfolding from_list contains
  contains-from_list [] a = refl
  contains-from_list (x ∷ xs) a =
      contains-insert (from_list xs) x a ∙ ground (arith, contains-from_list xs a)
