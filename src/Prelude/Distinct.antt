-- ===== src/Prelude/Distinct.antt =====
-- Lists of names in which no name stands twice.
use ai_troubleshooter.Prelude.Tests.{Bool-cases}
use ai_troubleshooter.Prelude.Lists.{All, take, filterb}
use ai_troubleshooter.Prelude.Text.{mem}
use Prim.Native.Nat.{ℕ, zero, suc}
use Prim.Native.String.{String}
use mathlib.Core.Path.{◌≡◌, refl}
use mathlib.Core.Logic.{inl, inr}
use mathlib.Core.Bool.{Bool, true, false, ◌||◌}
use mathlib.Core.List.{List, [], ◌∷◌, ◌++◌}
use native.Mathlib.Omega.{arith}
use text.Mathlib.TextEquality.{eq_iff}

abbrev pub Distinct : List String → Type 0
Distinct [] = Unit
Distinct (x ∷ xs) = (mem x xs ≡ false) × Distinct xs

pub mem-append : (a : String) (xs ys : List String) → mem a (xs ++ ys) ≡ (mem a xs || mem a ys)
mem-append a [] ys = refl
mem-append a (x ∷ xs) ys = ground (arith, mem-append a xs ys)

pub mem-take :
    (a : String) (n : ℕ) (xs : List String) → mem a xs ≡ false → mem a (take n xs) ≡ false
mem-take a zero xs h = refl
mem-take a (suc n) [] h = refl
mem-take a (suc n) (x ∷ xs) h = ground (arith, mem-take a n xs (ground arith))

pub take-Distinct : (n : ℕ) (xs : List String) → Distinct xs → Distinct (take n xs)
take-Distinct zero xs h = tt
take-Distinct (suc n) [] h = tt
take-Distinct (suc n) (x ∷ xs) (fresh, h) = (mem-take x n xs fresh, take-Distinct n xs h)

module _ (p : String → Bool) where
  mem-filterb : (a : String) (xs : List String) → mem a xs ≡ false → mem a (filterb p xs) ≡ false
  mem-filterb a [] h = refl
  mem-filterb a (x ∷ xs) h = ground (arith, mem-filterb a xs (ground arith))

  pub filterb-Distinct : (xs : List String) → Distinct xs → Distinct (filterb p xs)
  filterb-Distinct [] h = tt
  filterb-Distinct (x ∷ xs) (fresh, h) = elim (Bool-cases (p x)) [
    | inl holds ↦ rw holds (mem-filterb x xs fresh, filterb-Distinct xs h)
    | inr fails ↦ rw fails (filterb-Distinct xs h)
  ]

  pub filterb-All : (xs : List String) → All (λ x. p x ≡ true) (filterb p xs)
  filterb-All [] = tt
  filterb-All (x ∷ xs) = elim (Bool-cases (p x)) [
    | inl holds ↦ rw holds (holds, filterb-All xs)
    | inr fails ↦ rw fails (filterb-All xs)
  ]

  pub filterb-All_of_All :
      (P : String → Type 0) (xs : List String) → All P xs → All P (filterb p xs)
  filterb-All_of_All P [] h = tt
  filterb-All_of_All P (x ∷ xs) (h, hs) = elim (Bool-cases (p x)) [
    | inl holds ↦ rw holds (h, filterb-All_of_All P xs hs)
    | inr fails ↦ rw fails (filterb-All_of_All P xs hs)
  ]

pub snoc-Distinct :
    (a : String) (xs : List String) → mem a xs ≡ false → Distinct xs → Distinct (xs ++ a ∷ [])
snoc-Distinct a [] fresh h = (refl, tt)
snoc-Distinct a (x ∷ xs) fresh (f, h) = (
  ground (arith, mem-append x xs (a ∷ []), eq_iff x a, eq_iff a x),
  snoc-Distinct a xs (ground arith) h,
)
