-- ===== src/Decision/Inspector/Excerpt.antt =====
-- apps/decision-engine/decision_engine/local_code.py: the excerpt of code that a hit shows, with the lines that look
-- like a secret masked.
pub mod Masked
use Prim.Native.Char.{Char, code}
use Prim.Native.String.{count}
use ai_troubleshooter.Prelude.{
  ℕ, suc, ◌+◌, ◌-◌, String, Bool, true, false, ◌||◌, Option, none, some, List, [], ◌∷◌, any, map,
  length, take, drop, leb, ltb, nat_eq, is_space, lstrip, rstrip, take_text, folded, min,
  if◌then◌else◌, ◌<>◌,
}
use ai_troubleshooter.Decision.Inspector.Lines.{splitlines, max_code_excerpt_line_chars}

pub record ExcerptLine : Type 0 where
  pub line_number : ℕ
  pub text : String

-- The alternatives of SECRET_LINE_RE, which is matched without regard to case.
abbrev pub secret_words : List String
secret_words =
    "password" ∷ "passwd" ∷ "secret" ∷ "token" ∷ "credential" ∷ "apikey" ∷ "api_key" ∷ "api-key"
    ∷ "authorization" ∷ []

-- `\s*[:=]` at the start of a text
unfoldable pub is_assigned : String → Bool
is_assigned String.[] = false
is_assigned (String.◌∷◌ c s) =
    let rest = is_assigned s in
    if is_space c then rest else nat_eq (code c) 58 || nat_eq (code c) 61

-- a word at the start of a text, with an assignment behind it
unfoldable pub assigns_word : String → String → Bool
unfolding is_assigned
assigns_word String.[] s = is_assigned s
assigns_word (String.◌∷◌ a word) String.[] = false
assigns_word (String.◌∷◌ a word) (String.◌∷◌ c s) =
    let rest = assigns_word word s in if nat_eq (folded c) (code a) then rest else false

abbrev pub assigns_secret : String → Bool
assigns_secret s = any (λ word. assigns_word word s) secret_words

-- `SECRET_LINE_RE.search(line)`
unfoldable pub is_secret_line : String → Bool
unfolding assigns_word
is_secret_line String.[] = false
is_secret_line (String.◌∷◌ c s) = assigns_secret (String.◌∷◌ c s) || is_secret_line s

-- `_sanitize_code_line`
unfoldable pub sanitize_code_line : String → String
unfolding is_secret_line
sanitize_code_line line =
    let clipped = take_text max_code_excerpt_line_chars line in
    if is_secret_line line
    then "<masked secret-like line>"
    else if ltb max_code_excerpt_line_chars (count line)
    then clipped <> "..."
    else clipped

unfoldable pub excerpt_from : ℕ → List String → List ExcerptLine
unfolding sanitize_code_line rstrip
excerpt_from line_number [] = []
excerpt_from line_number (line ∷ rest) =
    record { line_number = line_number; text = sanitize_code_line (rstrip line) }
    ∷ excerpt_from (suc line_number) rest

-- `_code_excerpt`
unfoldable pub code_excerpt : String → ℕ × ℕ → List ExcerptLine
unfolding excerpt_from splitlines
code_excerpt content (start, end) =
    if leb start 0 || ltb end start
    then []
    else excerpt_from start (take (end + 1 - start) (drop (start - 1) (splitlines content)))
