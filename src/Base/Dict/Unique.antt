-- ===== src/Base/Dict/Unique.antt =====
-- Maps in which a key stands once, as it does in a `HashMap`: filters and copies of their entries.
use rustchain.Base.Tests.{PartialEq, if◌then◌else◌}
use rustchain.Base.Dict.{Dict, get, insert, get-insert}
use rustchain.Base.Lists.{keep}
use mathlib.Core.Path.{◌≡◌, refl}
use mathlib.Core.Bool.{Bool}
use mathlib.Core.Option
use mathlib.Core.Option.{Option, none, some}
use mathlib.Core.List.{[], ◌∷◌, map}
use native.Mathlib.Omega.{arith}

-- A value that passes a test.
abbrev pub only_if {ℓ} : {A : Type ℓ} → (A → Bool) → Option A → Option A
only_if p none = none
only_if p (some a) = if p a then some a else none

module _ {ℓ κ} {K : Type ℓ} {V : Type κ} ⦃e : PartialEq K⦄ where
  abbrev pub Unique : Dict K V → Type κ
  Unique [] = Unit
  Unique ((k, v) ∷ m) = (get m k ≡ none) × Unique m

  pub Unique-insert : (k : K) (v : V) (m : Dict K V) → Unique m → Unique (insert k v m)
  unfolding insert get
  Unique-insert k v [] h = (refl, tt)
  Unique-insert k v ((j, w) ∷ m) h =
      ground (arith, Unique-insert k v m h.1, get-insert m k j v, e.same_iff j k, e.same_iff k j)

  pub get-keep :
      (p : V → Bool) (m : Dict K V) (k : K)
      → Unique m
      → get (keep (λ x. p x.1) m) k ≡ only_if p (get m k)
  unfolding get keep
  get-keep p [] k h = refl
  get-keep p ((j, w) ∷ m) k h = ground (arith, get-keep p m k h.1, e.same_iff j k, h.0)

  pub Unique-keep : (p : V → Bool) (m : Dict K V) → Unique m → Unique (keep (λ x. p x.1) m)
  unfolding keep
  Unique-keep p [] h = tt
  Unique-keep p ((j, w) ∷ m) h = ground (arith, Unique-keep p m h.1, get-keep p m j h.1, h.0)

module _ {ℓ κ ι} {K : Type ℓ} {V : Type κ} {W : Type ι} ⦃e : PartialEq K⦄ (f : V → W) where
  -- A copy of a map with other values.
  unfoldable pub map_values : Dict K V → Dict K W
  map_values = map (λ x. (x.0, f x.1))

  pub get-map_values : (m : Dict K V) (k : K) → get (map_values m) k ≡ Option.map f (get m k)
  unfolding get map_values
  get-map_values [] k = refl
  get-map_values ((j, w) ∷ m) k = ground (arith, get-map_values m k)

  pub Unique-map_values : (m : Dict K V) → Unique m → Unique (map_values m)
  unfolding map_values
  Unique-map_values [] h = tt
  Unique-map_values ((j, w) ∷ m) h =
      (ground (arith, get-map_values m j, h.0), Unique-map_values m h.1)
