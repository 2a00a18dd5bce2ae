-- ===== src/Decision/Inspector/Excerpt/Masked.antt =====
-- No text of an excerpt looks like a secret.
use Prim.Native.Char.{code}
use Prim.Native.String.{count}
use text.Mathlib.TextLemmas.{cons-append, length-append}
use ai_troubleshooter.Prelude.Cut.{count-take_text, take_text_all}
use ai_troubleshooter.Prelude.{
  ℕ, zero, suc, ◌+◌, ◌-◌, ◌≤◌, String, Bool, true, false, not, ◌||◌, ◌&&◌, List, [], ◌∷◌, any, All,
  length, take, drop, length-take, leb, ltb, nat_eq, is_space, rstrip, take_text, folded, arith,
  inl, inr, Bool-cases, ◌<>◌, ◌≡◌, refl,
}
use ai_troubleshooter.Decision.Inspector.Lines.{splitlines}
use ai_troubleshooter.Decision.Inspector.Excerpt.{
  ExcerptLine, secret_words, is_assigned, assigns_word, is_secret_line, sanitize_code_line,
  excerpt_from, code_excerpt,
}

-- A text that is cut, with dots behind it.
abbrev cut : ℕ → String → String
cut n s = take_text n s <> "..."

dots_unassigned : is_assigned "..." ≡ false
unfolding is_assigned is_space
dots_unassigned = refl

-- A cut text matches only where the whole text does.
is_assigned-cut : (n : ℕ) (s : String) → is_assigned s ≡ false → is_assigned (cut n s) ≡ false
unfolding is_assigned
is_assigned-cut zero s h = dots_unassigned
is_assigned-cut (suc n) String.[] h = dots_unassigned
is_assigned-cut (suc n) (String.◌∷◌ c s) h = elim (Bool-cases (is_space c)) [
  | inl blank ↦
      rw (cons-append c (take_text n s) "...", blank) (is_assigned-cut n s (rw blank at h))
  | inr other ↦ rw (cons-append c (take_text n s) "...", other) (rw other at h)
]

abbrev is_dotless : String → Bool
is_dotless String.[] = true
is_dotless (String.◌∷◌ a word) = not (nat_eq (code a) 46) && is_dotless word

not_dot : (n : ℕ) (b : Bool) → (not (nat_eq n 46) && b) ≡ true → nat_eq 46 n ≡ false
not_dot n b h = ground arith

assigns_word-dots : (word : String) → is_dotless word ≡ true → assigns_word word "..." ≡ false
unfolding assigns_word
assigns_word-dots String.[] h = dots_unassigned
assigns_word-dots (String.◌∷◌ a word) h = rw (not_dot (code a) (is_dotless word) h) refl

assigns_word-cut :
    (word : String) (n : ℕ) (s : String)
    → is_dotless word ≡ true
    → assigns_word word s ≡ false
    → assigns_word word (cut n s) ≡ false
unfolding assigns_word
assigns_word-cut String.[] n s d h = is_assigned-cut n s h
assigns_word-cut (String.◌∷◌ a word) zero s d h = assigns_word-dots (String.◌∷◌ a word) d
assigns_word-cut (String.◌∷◌ a word) (suc n) String.[] d h = assigns_word-dots (String.◌∷◌ a word) d
assigns_word-cut (String.◌∷◌ a word) (suc n) (String.◌∷◌ c s) d h =
    elim (Bool-cases (nat_eq (folded c) (code a))) [
      | inl same ↦
          rw (cons-append c (take_text n s) "...", same)
            (assigns_word-cut word n s (ground arith) (rw same at h))
      | inr other ↦ rw (cons-append c (take_text n s) "...", other) refl
    ]

any-cut :
    (words : List String) (n : ℕ) (s : String)
    → All (λ word. is_dotless word ≡ true) words
    → any (λ word. assigns_word word s) words ≡ false
    → any (λ word. assigns_word word (cut n s)) words ≡ false
any-cut [] n s d h = refl
any-cut (word ∷ rest) n s (d, ds) h =
    ground (arith, assigns_word-cut word n s d (ground arith), any-cut rest n s ds (ground arith))

secret_words-dotless : All (λ word. is_dotless word ≡ true) secret_words
secret_words-dotless = (refl, (refl, (refl, (refl, (refl, (refl, (refl, (refl, (refl, tt)))))))))

dots_no_secret : is_secret_line "..." ≡ false
unfolding is_secret_line assigns_word is_assigned is_space
dots_no_secret = refl

mask_no_secret : is_secret_line "<masked secret-like line>" ≡ false
unfolding is_secret_line assigns_word is_assigned is_space
mask_no_secret = refl

or_false : {a b : Bool} → a ≡ false → b ≡ false → (a || b) ≡ false
or_false h k = ground arith

is_secret_line-cut :
    (n : ℕ) (s : String) → is_secret_line s ≡ false → is_secret_line (cut n s) ≡ false
unfolding is_secret_line
is_secret_line-cut zero s h = dots_no_secret
is_secret_line-cut (suc n) String.[] h = dots_no_secret
is_secret_line-cut (suc n) (String.◌∷◌ c s) h =
    let here = any-cut secret_words (suc n) (String.◌∷◌ c s) secret_words-dotless (ground arith) in
    let there = is_secret_line-cut n s (ground arith) in
    rw (cons-append c (take_text n s) "...")
      (or_false (rw (cons-append c (take_text n s) "...") at here) there)

-- A text that may be shown: it has no assignment to a word for a secret, and it is short.
pub record IsSafeText (text : String) : Type 0 where
  pub no_secret : is_secret_line text ≡ false
  pub short : count text ≤ 183

mask_short : count "<masked secret-like line>" ≤ 183
mask_short = omega arith

dots_count : count "..." ≡ 3
dots_count = refl

sanitize_code_line-IsSafeText : (line : String) → IsSafeText (sanitize_code_line line)
unfolding sanitize_code_line
sanitize_code_line-IsSafeText line = elim (Bool-cases (is_secret_line line)) [
  | inl secret ↦ rw secret (record { no_secret = mask_no_secret; short = mask_short })
  | inr open' ↦ rw open' (elim (Bool-cases (ltb 180 (count line))) [
    | inl long ↦ rw long (record {
      no_secret = is_secret_line-cut 180 line open';
      short =
          omega
            (arith, length-append (take_text 180 line) "...", count-take_text 180 line, dots_count);
    })
    | inr fits ↦
        rw (fits, take_text_all 180 line (ground arith))
          (record { no_secret = open'; short = ground arith })
  ])
]

-- An excerpt of lines that follow each other, from a line on.
abbrev pub IsExcerpt : ℕ → List ExcerptLine → Type 0
IsExcerpt n [] = Unit
IsExcerpt n (line ∷ rest) = (line.line_number ≡ n) × IsSafeText line.text × IsExcerpt (suc n) rest

excerpt_from-IsExcerpt : (n : ℕ) (lines : List String) → IsExcerpt n (excerpt_from n lines)
unfolding excerpt_from
excerpt_from-IsExcerpt n [] = tt
excerpt_from-IsExcerpt n (line ∷ rest) =
    (refl, sanitize_code_line-IsSafeText (rstrip line), excerpt_from-IsExcerpt (suc n) rest)

length-excerpt_from : (n : ℕ) (lines : List String) → length (excerpt_from n lines) ≡ length lines
unfolding excerpt_from
length-excerpt_from n [] = refl
length-excerpt_from n (line ∷ rest) = omega (arith, length-excerpt_from (suc n) rest)

-- Whatever the content and the range, an excerpt shows lines that follow each other from the start of
-- the range, no more than the range has; no text of it assigns to a word for a secret in any
-- case of letters, and none has more than 183 characters.
pub code_excerpt-IsExcerpt :
    (content : String) (start end : ℕ)
    → IsExcerpt start (code_excerpt content (start, end))
      × (length (code_excerpt content (start, end)) ≤ end + 1 - start)
unfolding code_excerpt
code_excerpt-IsExcerpt content start end = elim (Bool-cases (leb start 0 || ltb end start)) [
  | inl none ↦ rw none (tt, omega arith)
  | inr some_lines ↦
      let lines = take (end + 1 - start) (drop (start - 1) (splitlines content)) in
      rw some_lines (
        excerpt_from-IsExcerpt start lines,
        omega (
          arith,
          length-excerpt_from start lines,
          length-take (end + 1 - start) (drop (start - 1) (splitlines content)),
        ),
      )
]
