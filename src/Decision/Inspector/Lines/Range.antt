-- ===== src/Decision/Inspector/Lines/Range.antt =====
-- The range of lines that a hit shows.
use ai_troubleshooter.Prelude.{
  ℕ, ◌+◌, ◌-◌, ◌≤◌, max, min, String, Option, none, some, List, [], ◌∷◌, length, leb, arith, inl,
  inr, ◌⊎◌, Bool-cases, ◌≡◌, refl,
}
use ai_troubleshooter.Decision.Inspector.Words.{CodeSymbol}
use ai_troubleshooter.Decision.Inspector.Lines.{splitlines, bounded_range, line_range}

-- A range of lines that stands in a text of so many lines and is short enough for an excerpt.
pub record IsShown (total_lines : ℕ) (range : ℕ × ℕ) : Type 0 where
  pub first : 1 ≤ range.0
  pub ordered : range.0 ≤ range.1
  pub last : range.1 ≤ total_lines
  pub short : range.1 ≤ range.0 + 13

bounded_range-IsShown :
    (start end total_lines : ℕ)
    → 1 ≤ total_lines
    → IsShown total_lines (bounded_range start end total_lines)
unfolding bounded_range
bounded_range-IsShown start end total_lines h =
    let first = max 1 (min start total_lines) in
    let last = max first (min end total_lines) in
    elim (Bool-cases (leb (last - first + 1) 14)) [
      | inl fits ↦ rw fits (record {
        first = omega arith;
        ordered = omega arith;
        last = omega arith;
        short = ground arith;
      })
      | inr long ↦ rw long (record {
        first = omega arith;
        ordered = ground arith;
        last = omega arith;
        short = omega arith;
      })
    ]

pub line_range-IsShown :
    (content : String) (line_numbers : List ℕ) (symbol : Option CodeSymbol) (language : String)
    → ((line_range content line_numbers symbol language ≡ (0, 0))
        × (line_numbers ≡ [])
        × (symbol ≡ none))
      ⊎ IsShown
          (max 1 (length (splitlines content)))
          (line_range content line_numbers symbol language)
unfolding line_range
line_range-IsShown content line_numbers (some symbol) language =
    inr (bounded_range-IsShown _ _ (max 1 (length (splitlines content))) (omega arith))
line_range-IsShown content [] none language = inl (refl, refl, refl)
line_range-IsShown content (n ∷ rest) none language =
    inr (bounded_range-IsShown _ _ (max 1 (length (splitlines content))) (omega arith))
