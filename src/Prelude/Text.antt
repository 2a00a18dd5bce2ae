-- ===== src/Prelude/Text.antt =====
-- The methods of Python's `str` that the source uses. A `String` is its sequence of characters.
-- White space is that of `str.isspace`, which `strip`, `split` and the class `\s` of `re` share.
use Prim.Native.Nat.{ℕ, zero, suc, ◌+◌, ◌/◌, ◌%◌}
use Prim.Native.Char.{Char, code}
use Prim.Native.String.{String, ◌++◌, find, len, slice}
use mathlib.Core.Path.{◌≡◌, refl}
use mathlib.Core.Bool.{Bool, false, ◌&&◌, ◌||◌}
use mathlib.Core.List.{List, [], ◌∷◌}
use text.Mathlib.Text.{◌==◌}
use ai_troubleshooter.Prelude.Tests.{leb, ltb, nat_eq, if◌then◌else◌}
use ai_troubleshooter.Prelude.Lists.{any}

-- `c.isspace()` by its code point
unfoldable pub is_space : Char → Bool
is_space ch =
    let c = code ch in
    leb 9 c && leb c 13
    || leb 28 c && leb c 32
    || nat_eq c 133
    || nat_eq c 160
    || nat_eq c 5760
    || leb 8192 c && leb c 8202
    || nat_eq c 8232
    || nat_eq c 8233
    || nat_eq c 8239
    || nat_eq c 8287
    || nat_eq c 12288

unfoldable pub lstrip : String → String
lstrip String.[] = ""
lstrip (String.◌∷◌ c s) = let rest = lstrip s in if is_space c then rest else String.◌∷◌ c s

unfoldable pub rstrip : String → String
rstrip String.[] = ""
rstrip (String.◌∷◌ c s) =
    let rest = rstrip s in if rest == "" && is_space c then "" else String.◌∷◌ c rest

unfoldable pub strip : String → String
unfolding lstrip rstrip
strip s = rstrip (lstrip s)

-- `needle in text`
unfoldable pub contains : String → String → Bool
contains needle text = leb (find text needle) (len text)

-- `name in names`
abbrev pub mem : String → List String → Bool
mem name [] = false
mem name (x ∷ xs) = x == name || mem name xs

-- `any(word in text for word in words)`
unfoldable pub contains_any : List String → String → Bool
unfolding contains
contains_any words text = any (λ word. contains word text) words

-- `sep.join(parts)`
unfoldable pub join : String → List String → String
join sep [] = ""
join sep (x ∷ []) = x
join sep (x ∷ y ∷ rest) = x ++ (sep ++ join sep (y ∷ rest))

-- `a or b` for texts
abbrev pub or_else : String → String → String
or_else a b = if a == "" then b else a

-- Concatenation, as `s + t` and the f-strings make it; the name tells it from that of lists.
infixr 65 ◌<>◌
abbrev pub ◌<>◌ : String → String → String
s <> t = s ++ t

-- The decimal digits of a number in front of `acc`. The fuel is the number itself and one more,
-- since each round divides by ten.
show_from : ℕ → ℕ → String → String
show_from zero n acc = acc
show_from (suc fuel) n acc =
    let acc' = slice "0123456789" (n % 10) (n % 10 + 1) ++ acc in
    let rest = show_from fuel (n / 10) acc' in if ltb n 10 then acc' else rest

-- `str(n)` of a number that is not negative
unfoldable pub show : ℕ → String
unfolding show_from
show n = show_from (n + 1) n ""

show_some : show 0 <> show 7 <> show 1050 ≡ "071050"
unfolding show
show_some = refl

-- `s[:n]`
abbrev pub take_text : ℕ → String → String
take_text zero s = ""
take_text (suc n) String.[] = ""
take_text (suc n) (String.◌∷◌ c s) = String.◌∷◌ c (take_text n s)

-- The letter that a character is under IGNORECASE: the capitals, the long s, the dotted capital and
-- the dotless small i, and the sign for kelvin count as small letters.
abbrev pub folded : Char → ℕ
folded c =
    let n = code c in
    if leb 65 n && leb n 90
    then n + 32
    else if nat_eq n 383
    then 115
    else if nat_eq n 304 || nat_eq n 305
    then 105
    else if nat_eq n 8490
    then 107
    else n

-- `s.endswith(suffix)`
unfoldable pub ends_with : String → String → Bool
ends_with suffix String.[] = suffix == ""
ends_with suffix (String.◌∷◌ c s) = String.◌∷◌ c s == suffix || ends_with suffix s
