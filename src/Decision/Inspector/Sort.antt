-- ===== src/Decision/Inspector/Sort.antt =====
-- `sorted(..., reverse=True)` with a tuple of numbers as the key.
pub mod Kept
use ai_troubleshooter.Prelude.{ℕ, Bool, true, false, List, [], ◌∷◌, ltb, if◌then◌else◌}

-- The order of two tuples, given as the pairs of their components. A component that the key negates
-- is given with its pair turned round.
abbrev pub lex_lt : List (ℕ × ℕ) → Bool
lex_lt [] = false
lex_lt ((a, b) ∷ rest) =
    let later = lex_lt rest in if ltb a b then true else if ltb b a then false else later

module _ {A : Type 0} (lt : A → A → Bool) where
  -- Puts an item in front of the first one that its key is not below.
  unfoldable pub insert_by : A → List A → List A
  insert_by x [] = x ∷ []
  insert_by x (y ∷ ys) = let later = y ∷ insert_by x ys in if lt x y then later else x ∷ y ∷ ys

  unfoldable pub sorted_by : List A → List A
  unfolding insert_by
  sorted_by [] = []
  sorted_by (x ∷ xs) = insert_by x (sorted_by xs)
