-- ===== src/Python.antt =====
-- The values of the Python programs that the components pass about: JSON values (`dict[str, Any]`),
-- floats, and the parts of the language's runtime that are tables or printers outside this tree.
use Prim.Native.Char.{Char}
use mathlib.Core.Logic.{◌⊎◌}
use ai_troubleshooter.Prelude.{
  ℕ, ◌+◌, ◌-◌, ◌*◌, ◌^◌, String, Bool, true, false, not, ◌||◌, Option, none, some, List, [], ◌∷◌,
  ltb, nat_eq, if◌then◌else◌, ◌==◌, ◌<>◌, show, ◌≡◌, refl,
}

-- `negsuc n` is -(n + 1).
pub data ℤ : Type 0 where
  pos : ℕ → ℤ
  negsuc : ℕ → ℤ

-- A float is a whole number of units of 2 ^ -1074, the least positive double: every finite double
-- is one exactly. The two zeros are one value, which no comparison tells apart.
pub data Float : Type 0 where
  nan neg_inf inf : Float
  finite : ℤ → Float

abbrev pub lt_ℤ : ℤ → ℤ → Bool
lt_ℤ (pos a) (pos b) = ltb a b
lt_ℤ (pos a) (negsuc b) = false
lt_ℤ (negsuc a) (pos b) = true
lt_ℤ (negsuc a) (negsuc b) = ltb b a

-- `a < b`; every comparison with a NaN is false.
abbrev pub lt_float : Float → Float → Bool
lt_float nan b = false
lt_float neg_inf nan = false
lt_float neg_inf neg_inf = false
lt_float neg_inf inf = true
lt_float neg_inf (finite b) = true
lt_float inf b = false
lt_float (finite a) nan = false
lt_float (finite a) neg_inf = false
lt_float (finite a) inf = true
lt_float (finite a) (finite b) = lt_ℤ a b

abbrev pub is_nan : Float → Bool
is_nan nan = true
is_nan _ = false

-- `a >= b`
abbrev pub ge_float : Float → Float → Bool
ge_float a b = not (is_nan a || is_nan b || lt_float a b)

-- `min(a, b)` and `max(a, b)` keep their first argument unless the second is strictly beyond it.
abbrev pub min_float : Float → Float → Float
min_float a b = if lt_float b a then b else a

abbrev pub max_float : Float → Float → Float
max_float a b = if lt_float a b then b else a

-- The double n / 2 ^ k, as `float.as_integer_ratio` gives it.
abbrev pub double : ℕ → ℕ → Float
double n k = finite (pos (n * 2 ^ (1074 - k)))

-- JSON values, as `json.loads` gives them. A dictionary keeps the order of insertion.
mutual
  pub data Value : Type 0 where
    null : Value
    bool : Bool → Value
    int : ℤ → Value
    float : Float → Value
    str : String → Value
    list : Items → Value
    dict : Fields → Value

  pub data Items : Type 0 where
    nil : Items
    cons : Value → Items → Items

  pub data Fields : Type 0 where
    end : Fields
    field : String → Value → Fields → Fields

-- `d.get(key)`, with `None` for a missing key
unfoldable pub get : Fields → String → Value
get end key = null
get (field k v rest) key = if k == key then v else get rest key

-- the truth value
unfoldable pub truthy : Value → Bool
truthy null = false
truthy (bool b) = b
truthy (int (pos n)) = not (nat_eq n 0)
truthy (int (negsuc n)) = true
truthy (float (finite (pos n))) = not (nat_eq n 0)
truthy (float f) = true
truthy (str s) = not (s == "")
truthy (list nil) = false
truthy (list (cons x xs)) = true
truthy (dict end) = false
truthy (dict (field k v rest)) = true

-- `a or b`
unfoldable pub or_value : Value → Value → Value
unfolding truthy
or_value a b = if truthy a then a else b

abbrev pub to_list : Items → List Value
to_list nil = []
to_list (cons x xs) = x ∷ to_list xs

-- What `float(value)` comes to. A TypeError or a ValueError is told from an OverflowError; each comes
-- with its text.
pub data Conversion : Type 0 where
  converted : Float → Conversion
  rejected overflowed : String → Conversion

-- What the programs take from Python's runtime: the small and the capital letters of a text, the
-- character classes `\w` and `\d` of `re`, the text of a float or of a container, and the conversions
-- `float(value)` and `int(value)`, the latter with the text of its exception.
pub record Runtime : Type 0 where
  pub lower : String → String
  pub upper : String → String
  pub is_word : Char → Bool
  pub is_digit : Char → Bool
  pub repr : Value → String
  pub to_float : Value → Conversion
  pub to_int : Value → ℤ ⊎ String

abbrev pub show_int : ℤ → String
show_int (pos n) = show n
show_int (negsuc n) = "-" <> show (n + 1)

-- `str(value)`
module _ ⦃py : Runtime⦄ where
  unfoldable pub to_text : Value → String
  to_text null = "None"
  to_text (bool true) = "True"
  to_text (bool false) = "False"
  to_text (int n) = show_int n
  to_text (str s) = s
  to_text v = py.repr v

compares : lt_float (double 1 1) (double 3 2) ≡ true
compares = refl

-- The items that a loop over a value runs through; none for a TypeError.
chars : String → List Value
chars String.[] = []
chars (String.◌∷◌ c s) = str (String.◌∷◌ c "") ∷ chars s

keys : Fields → List Value
keys end = []
keys (field k v rest) = str k ∷ keys rest

unfoldable pub iterate : Value → Option (List Value)
unfolding chars keys
iterate (list xs) = some (to_list xs)
iterate (str s) = some (chars s)
iterate (dict fs) = some (keys fs)
iterate v = none

-- `type(value).__name__`
unfoldable pub type_name : Value → String
type_name null = "NoneType"
type_name (bool b) = "bool"
type_name (int n) = "int"
type_name (float f) = "float"
type_name (str s) = "str"
type_name (list xs) = "list"
type_name (dict fs) = "dict"
