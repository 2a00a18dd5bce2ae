-- ===== src/Decision/Inspector/Words.antt =====
-- apps/decision-engine/decision_engine/local_code.py: symbols, edges and relations of a scanned file, and the
-- comparison of texts by their letters and digits.
use Prim.Native.Char.{Char, code}
use ai_troubleshooter.Prelude.{
  ℕ, String, Bool, true, false, ◌||◌, ◌&&◌, List, [], ◌∷◌, any, leb, nat_eq, contains, join,
  if◌then◌else◌,
}
use ai_troubleshooter.Python.{Runtime, Float}

pub record CodeSymbol : Type 0 where
  pub name : String
  pub kind : String
  pub file_path : String
  pub line_number : ℕ
  pub language : String
  pub owner : String

pub record CallEdge : Type 0 where
  pub caller : String
  pub callee : String
  pub file_path : String
  pub line_number : ℕ
  pub language : String
  pub receiver : String
  pub receiver_type : String
  pub resolved_symbols : List CodeSymbol
  pub resolution_kind : String
  pub confidence : Float

pub record ImplementRelation : Type 0 where
  pub type_name : String
  pub interface_name : String
  pub file_path : String
  pub line_number : ℕ
  pub language : String

pub record ScannedFile : Type 0 where
  pub relative_path : String
  pub content : String
  pub language : String
  pub symbols : List CodeSymbol
  pub call_edges : List CallEdge
  pub implement_relations : List ImplementRelation

-- `s.rsplit(".", 1)[-1]`: what stands behind the last dot
unfoldable pub last_part : String → String
last_part String.[] = ""
last_part (String.◌∷◌ c s) =
    let rest = last_part s in
    if contains "." s then rest else if nat_eq (code c) 46 then s else String.◌∷◌ c s

-- `s.rsplit(".", 1)[0]` of a text with a dot
unfoldable pub first_part : String → String
first_part String.[] = ""
first_part (String.◌∷◌ c s) =
    let rest = first_part s in if contains "." s then String.◌∷◌ c rest else ""

-- `simple_name`
abbrev pub simple_name : CodeSymbol → String
simple_name symbol = last_part symbol.name

unfoldable pub starts_with : String → String → Bool
starts_with String.[] s = true
starts_with (String.◌∷◌ a p) String.[] = false
starts_with (String.◌∷◌ a p) (String.◌∷◌ c s) = nat_eq (code a) (code c) && starts_with p s

-- `s.startswith(prefixes)`
abbrev pub starts_with_any : List String → String → Bool
starts_with_any prefixes s = any (λ p. starts_with p s) prefixes

-- `[a-z0-9]`
abbrev pub is_compact_char : Char → Bool
is_compact_char c = let n = code c in leb 97 n && leb n 122 || leb 48 n && leb n 57

unfoldable pub compact_chars : String → String
compact_chars String.[] = ""
compact_chars (String.◌∷◌ c s) =
    let rest = compact_chars s in if is_compact_char c then String.◌∷◌ c rest else rest

module _ ⦃py : Runtime⦄ where
  -- `_compact`
  unfoldable pub compact : String → String
  unfolding compact_chars
  compact value = compact_chars (py.lower value)

  -- `_matches_text`
  unfoldable pub matches_text : String → List String → Bool
  unfolding compact
  matches_text text terms =
      let lowered = py.lower text in
      any (λ term. contains term lowered || contains (compact term) (compact lowered)) terms

  -- the methods `search_text`
  abbrev pub symbol_text : CodeSymbol → String
  symbol_text s = py.lower (join " " (s.name ∷ s.kind ∷ s.owner ∷ s.language ∷ []))

  abbrev pub relation_text : ImplementRelation → String
  relation_text r = py.lower (join " " (r.type_name ∷ r.interface_name ∷ r.language ∷ []))

  -- `_edge_match_text`
  abbrev pub edge_match_text : CallEdge → String
  edge_match_text e =
      py.lower
        (join " " (last_part e.caller ∷ e.callee ∷ e.receiver ∷ e.receiver_type ∷ e.language ∷ []))
