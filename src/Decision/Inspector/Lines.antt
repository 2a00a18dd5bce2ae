-- ===== src/Decision/Inspector/Lines.antt =====
-- apps/decision-engine/decision_engine/local_code.py: line numbers, the range of lines that a hit shows, and the
-- excerpt of code with its masking.
pub mod Merged
pub mod Range
use Prim.Native.Char.{Char, code}
use Prim.Native.String.{count}
use ai_troubleshooter.Prelude.{
  ℕ, zero, suc, ◌+◌, ◌-◌, max, min, String, Bool, true, false, not, ◌||◌, ◌&&◌, Option, none, some,
  List, [], ◌∷◌, ◌++◌, any, filterb, map, length, take, drop, leb, ltb, nat_eq, contains, is_empty,
  is_space, lstrip, rstrip, strip, take_text, folded, if◌then◌else◌, ◌==◌, ◌<>◌,
}
use ai_troubleshooter.Python.{Runtime}
use ai_troubleshooter.Decision.Inspector.Words.{CodeSymbol, starts_with_any, compact, matches_text}

abbrev pub max_code_excerpt_lines : ℕ
max_code_excerpt_lines = 14

abbrev pub max_code_excerpt_line_chars : ℕ
max_code_excerpt_line_chars = 180

-- The line boundaries of `str.splitlines`.
abbrev is_line_end : Char → Bool
is_line_end ch =
    let c = code ch in
    leb 10 c && leb c 13 || leb 28 c && leb c 30 || nat_eq c 133 || nat_eq c 8232 || nat_eq c 8233

abbrev in_front : Char → List String → List String
in_front c [] = String.◌∷◌ c "" ∷ []
in_front c (line ∷ rest) = String.◌∷◌ c line ∷ rest

-- The lines of what stands behind a carriage return (`true`) or not; such a return and a line feed
-- make one boundary.
lines_from : Bool → String → List String
lines_from after_return String.[] = []
lines_from after_return (String.◌∷◌ c s) =
    let joined = lines_from false s in
    let next = lines_from (nat_eq (code c) 13) s in
    if after_return && nat_eq (code c) 10
    then joined
    else if is_line_end c
    then "" ∷ next
    else in_front c joined

-- `content.splitlines()`
unfoldable pub splitlines : String → List String
unfolding lines_from
splitlines content = lines_from false content

abbrev pub has_line : ℕ → List ℕ → Bool
has_line n = any (λ m. nat_eq m n)

unfoldable pub merge_group : List ℕ → List ℕ → List ℕ
merge_group merged [] = merged
merge_group merged (line_number ∷ rest) =
    merge_group
      (if leb line_number 0 || has_line line_number merged
        then merged
        else merged ++ line_number ∷ [])
      rest

unfoldable pub merge_groups : List ℕ → List (List ℕ) → List ℕ
unfolding merge_group
merge_groups merged [] = merged
merge_groups merged (group ∷ rest) = merge_groups (merge_group merged group) rest

-- `_merge_line_numbers`
unfoldable pub merge_line_numbers : List (List ℕ) → List ℕ
unfolding merge_groups
merge_line_numbers groups = merge_groups [] groups

-- `_is_low_signal_code_line`
unfoldable pub is_low_signal_code_line : String → Bool
unfolding strip
is_low_signal_code_line line =
    strip line == ""
    || starts_with_any ("package " ∷ "import " ∷ "from " ∷ "using " ∷ "//" ∷ "/*" ∷ "*" ∷ "@" ∷ [])
        (strip line)

-- `_bounded_range`
unfoldable pub bounded_range : ℕ → ℕ → ℕ → ℕ × ℕ
bounded_range start end total_lines =
    let first = max 1 (min start total_lines) in
    let last = max first (min end total_lines) in
    if leb (last - first + 1) max_code_excerpt_lines
    then (first, last)
    else (first, min total_lines (first + max_code_excerpt_lines - 1))

-- `line.count(c)`
count_char : ℕ → String → ℕ
count_char n String.[] = 0
count_char n (String.◌∷◌ c s) = (if nat_eq (code c) n then 1 else 0) + count_char n s

-- The loop of `_braced_scope_range`: the line at which the braces that were opened are closed. The
-- depth is the number of the opened less that of the closed ones.
close_of : ℕ → ℕ → ℕ → ℕ → Bool → List String → Option ℕ
unfolding count_char
close_of start idx opened closed found_open [] = none
close_of start idx opened closed found_open (line ∷ rest) =
    let now_opened = opened + count_char 123 line in
    let now_closed = closed + count_char 125 line in
    let found = found_open || contains "{" line in
    let later = close_of start (idx + 1) now_opened now_closed found rest in
    if found && leb now_opened now_closed
    then some idx
    else if ltb 240 (idx - start)
    then none
    else later

abbrev or_end : Option ℕ → ℕ → ℕ
or_end none end = end
or_end (some idx) end = idx

-- `_braced_scope_range`
unfoldable pub braced_scope_range : String → ℕ → ℕ × ℕ
unfolding close_of splitlines
braced_scope_range content start_line =
    let lines = splitlines content in
    let total_lines = max 1 (length lines) in
    let start = min (max 1 start_line) total_lines in
    (
      start,
      or_end (close_of start start 0 0 false (drop (start - 1) lines))
          (min total_lines (start + max_code_excerpt_lines - 1)),
    )

-- `len(line) - len(line.lstrip())`
indent_of : String → ℕ
indent_of line = count line - count (lstrip line)

-- The loop of `_python_scope_range`: the line in front of the next definition that is not further in.
next_definition : ℕ → ℕ → List String → Option ℕ
unfolding indent_of
next_definition base_indent idx [] = none
next_definition base_indent idx (line ∷ rest) =
    let later = next_definition base_indent (idx + 1) rest in
    if strip line == ""
    then later
    else if leb (indent_of line) base_indent
        && starts_with_any ("def " ∷ "async def " ∷ "class " ∷ []) (lstrip line)
    then some (idx - 1)
    else later

abbrev first_indent : List String → ℕ
first_indent [] = 0
first_indent (line ∷ rest) = indent_of line

-- `_python_scope_range`
unfoldable pub python_scope_range : String → ℕ → ℕ × ℕ
unfolding next_definition splitlines
python_scope_range content start_line =
    let lines = splitlines content in
    let total_lines = max 1 (length lines) in
    let start = min (max 1 start_line) total_lines in
    (
      start,
      or_end
          (next_definition (first_indent (drop (start - 1) lines)) (start + 1) (drop start lines))
          (min total_lines (start + max_code_excerpt_lines - 1)),
    )

-- `_symbol_scope_range`
unfoldable pub symbol_scope_range : String → CodeSymbol → String → ℕ × ℕ
unfolding python_scope_range braced_scope_range
symbol_scope_range content symbol language =
    if language == "python"
    then python_scope_range content symbol.line_number
    else if language == "java"
        || language == "go"
        || language == "typescript"
        || language == "javascript"
    then braced_scope_range content symbol.line_number
    else (
      max 1 symbol.line_number,
      min (max 1 (length (splitlines content))) (symbol.line_number + max_code_excerpt_lines - 1),
    )

abbrev least : ℕ → List ℕ → ℕ
least n [] = n
least n (m ∷ rest) = least (min n m) rest

abbrev greatest : ℕ → List ℕ → ℕ
greatest n [] = n
greatest n (m ∷ rest) = greatest (max n m) rest

-- The range for a symbol with this scope, given the lines that stand in it.
around : ℕ → ℕ × ℕ → List ℕ → ℕ → ℕ × ℕ
around line_number (scope_start, scope_end) [] total_lines =
    (max 1 (line_number - 1), min total_lines (line_number + 5))
around line_number (scope_start, scope_end) (focus ∷ rest) total_lines =
    let first = least focus rest in
    let last = greatest focus rest in
    let start = max scope_start (focus - 3) in
    if ltb max_code_excerpt_lines (last - first + 1)
    then (start, min scope_end (start + max_code_excerpt_lines - 1))
    else (max scope_start (first - 2), min scope_end (last + 4))

-- The lines between the bounds of a scope.
abbrev pub in_scope : ℕ × ℕ → List ℕ → List ℕ
in_scope (scope_start, scope_end) = filterb (λ line. leb scope_start line && leb line scope_end)

-- `_line_range`
unfoldable pub line_range : String → List ℕ → Option CodeSymbol → String → ℕ × ℕ
unfolding around bounded_range symbol_scope_range
line_range content line_numbers (some symbol) language =
    let total_lines = max 1 (length (splitlines content)) in
    let scope = symbol_scope_range content symbol language in
    let shown = around symbol.line_number scope (in_scope scope line_numbers) total_lines in
    bounded_range shown.0 shown.1 total_lines
line_range content [] none language = (0, 0)
line_range content (n ∷ rest) none language =
    let total_lines = max 1 (length (splitlines content)) in
    bounded_range (max 1 (least n rest - 2)) (min total_lines (greatest n rest + 4)) total_lines
