-- ===== src/Tests.antt =====
-- Small inputs, and the theorems at them. The runtime is that of ASCII texts.
pub mod Decision
pub mod Platform
pub mod Messages
pub mod Classifier
pub mod Capabilities
pub mod Process
pub mod Inspector
use Prim.Native.Char.{Char, code}
use Prim.Native.String.{slice}
use ai_troubleshooter.Prelude.{
  ℕ, suc, ◌+◌, ◌-◌, String, Bool, true, false, ◌&&◌, ◌||◌, Option, none, some, leb, nat_eq,
  if◌then◌else◌, ◌<>◌, ◌≡◌, refl,
}
use mathlib.Core.Logic.{inl, inr}
use ai_troubleshooter.Python.{Runtime, Value, float, int, converted, rejected}

abbrev lower_char : Char → String
lower_char c =
    if leb 65 (code c) && leb (code c) 90
    then slice "abcdefghijklmnopqrstuvwxyz" (code c - 65) (code c - 64)
    else String.◌∷◌ c ""

abbrev ascii_lower : String → String
ascii_lower String.[] = ""
ascii_lower (String.◌∷◌ c s) = lower_char c <> ascii_lower s

abbrev upper_char : Char → String
upper_char c =
    if leb 97 (code c) && leb (code c) 122
    then slice "ABCDEFGHIJKLMNOPQRSTUVWXYZ" (code c - 97) (code c - 96)
    else String.◌∷◌ c ""

abbrev ascii_upper : String → String
ascii_upper String.[] = ""
ascii_upper (String.◌∷◌ c s) = upper_char c <> ascii_upper s

abbrev digit : Char → Bool
digit c = leb 48 (code c) && leb (code c) 57

abbrev word : Char → Bool
word c =
    digit c
    || leb 65 (code c) && leb (code c) 90
    || leb 97 (code c) && leb (code c) 122
    || nat_eq (code c) 95
    || leb 128 (code c)

instance abbrev pub ascii : Runtime
ascii = record {
  lower = ascii_lower;
  upper = ascii_upper;
  is_word = word;
  is_digit = digit;
  repr = λ v. "?";
  to_float = λ v. elim v [ float f ↦ converted f | _ ↦ rejected "could not convert" ];
  to_int = λ v. elim v [ int n ↦ inl n | _ ↦ inr "invalid literal" ];
}

lower_runs : ascii.lower "Health-FOOD 7" ≡ "health-food 7"
lower_runs = refl
