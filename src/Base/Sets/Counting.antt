-- ===== src/Base/Sets/Counting.antt =====
-- How many members sets have, and how many two of them share.
use rustchain.Base.Tests.{PartialEq}
use rustchain.Base.Lists.{length, keep, length-append}
use rustchain.Base.Sets.{
  contains, remove, Distinct, Within, contains-append, contains-remove, contains-keep,
  Distinct-keep, Distinct-append,
}
use Prim.Native.Nat.{suc, ◌+◌, ◌≤◌}
use mathlib.Core.Path.{◌≡◌, ◌∙◌}
use mathlib.Core.Bool.{Bool, true, false, not}
use mathlib.Core.List.{List, [], ◌∷◌, ◌++◌}
use native.Mathlib.Omega.{arith}

module _ {ℓ} {A : Type ℓ} ⦃e : PartialEq A⦄ where
  length-remove_absent : (a : A) (xs : List A) → length (remove a xs) ≤ length xs
  unfolding remove
  length-remove_absent a [] = omega arith
  length-remove_absent a (x ∷ xs) = ground (arith, length-remove_absent a xs)

  length-remove :
      (a : A) (xs : List A) → contains xs a ≡ true → suc (length (remove a xs)) ≤ length xs
  unfolding remove contains
  length-remove a [] h = cc
  length-remove a (x ∷ xs) h = ground (arith, length-remove a xs, length-remove_absent a xs)

  -- A set within another is no larger.
  pub length-le_of_Within : (xs ys : List A) → Distinct xs → Within xs ys → length xs ≤ length ys
  unfolding contains
  length-le_of_Within [] ys d w = omega arith
  length-le_of_Within (x ∷ xs) ys d w =
      let rest : Within xs (remove x ys) =
        λ a m. contains-remove ys x a ∙ ground (arith, w a, e.same_iff x a) in
      omega (
        arith,
        length-le_of_Within xs (remove x ys) d.1 rest,
        length-remove x ys (w x (ground (arith, e.same_iff x x))),
      )

  length-keep-not :
      (p : A → Bool) (xs : List A)
      → length (keep p xs) + length (keep (λ a. not (p a)) xs) ≡ length xs
  unfolding keep
  length-keep-not p [] = omega arith
  length-keep-not p (x ∷ xs) = ground (arith, length-keep-not p xs)

  -- The members that two sets share.
  abbrev pub shared : List A → List A → List A
  shared xs ys = keep (contains ys) xs

  -- Two sets within a third share at least as many members as they are too large to be apart.
  pub length-shared :
      (xs ys zs : List A)
      → Distinct xs
      → Distinct ys
      → Within xs zs
      → Within ys zs
      → length xs + length ys ≤ length zs + length (shared xs ys)
  length-shared xs ys zs dx dy wx wy =
      let lone = keep (λ a. not (contains ys a)) xs in
      let apart : (a : A) → contains lone a ≡ true → contains ys a ≡ false =
        λ a m. ground (arith, contains-keep (λ a. not (contains ys a)) xs a) in
      let within : Within (lone ++ ys) zs = λ a m. ground (
        arith,
        contains-append lone ys a,
        contains-keep (λ a. not (contains ys a)) xs a,
        wx a,
        wy a,
      ) in
      omega (
        arith,
        length-le_of_Within (lone ++ ys) zs
            (Distinct-append lone ys (Distinct-keep _ xs dx) dy apart) within,
        length-append lone ys,
        length-keep-not (contains ys) xs,
      )
