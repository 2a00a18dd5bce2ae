-- ===== src/Decision/Inspector/Resolve.antt =====
-- apps/decision-engine/decision_engine/local_code.py, `_resolve_cross_module_symbols`: the symbols that a call may
-- lead to, over all files that were read.
pub mod Ranked
use Prim.Native.Char.{Char, code}
use ai_troubleshooter.Prelude.{
  ℕ, String, Bool, true, false, not, ◌||◌, ◌&&◌, List, [], ◌∷◌, ◌++◌, map, any, filterb, length,
  take, leb, nat_eq, is_empty, strip, contains, if◌then◌else◌, ◌==◌,
}
use ai_troubleshooter.Python.{Runtime, Float, double}
use ai_troubleshooter.Decision.Models.{confidence_35, confidence_62}
use ai_troubleshooter.Decision.Inspector.Words.{
  CodeSymbol, CallEdge, ImplementRelation, ScannedFile, last_part, first_part, simple_name, compact,
}
use ai_troubleshooter.Decision.Inspector.Sort.{lex_lt, sorted_by}

-- is there a ">" in the rest of the line
closes : String → Bool
closes String.[] = false
closes (String.◌∷◌ c s) =
    let rest = closes s in
    if nat_eq (code c) 10 then false else if nat_eq (code c) 62 then true else rest

-- `re.sub(r"<.*>", "", s)`: from a "<" to the last ">" of its line; `true` inside such a match
without_generics : Bool → String → String
unfolding closes
without_generics inside String.[] = ""
without_generics inside (String.◌∷◌ c s) =
    let skipped = without_generics (closes s) s in
    let kept = without_generics false s in
    if inside
    then skipped
    else if nat_eq (code c) 60 && closes s
    then skipped
    else String.◌∷◌ c kept

-- `s.replace("[]", "")`; `true` behind a bracket that is held back
without_brackets : Bool → String → String
without_brackets false String.[] = ""
without_brackets true String.[] = "["
without_brackets false (String.◌∷◌ c s) =
    let held = without_brackets true s in
    let kept = without_brackets false s in if nat_eq (code c) 91 then held else String.◌∷◌ c kept
without_brackets true (String.◌∷◌ c s) =
    let held = without_brackets true s in
    let kept = without_brackets false s in
    if nat_eq (code c) 93
    then kept
    else if nat_eq (code c) 91
    then String.◌∷◌ "[" held
    else String.◌∷◌ "[" (String.◌∷◌ c kept)

-- `_simple_type`
unfoldable pub simple_type : String → String
unfolding without_generics without_brackets strip last_part
simple_type value =
    let normalized = strip (without_brackets false (strip (without_generics false value))) in
    if normalized == "" then "" else last_part normalized

abbrev confidence_55 : Float
confidence_55 = double 2476979795053773 52

abbrev confidence_75 : Float
confidence_75 = double 3 2

abbrev confidence_78 : Float
confidence_78 = double 3512807709348987 52

abbrev confidence_90 : Float
confidence_90 = double 8106479329266893 53

-- `_resolution_confidence`
unfoldable pub resolution_confidence : String → ℕ → Float
resolution_confidence resolution_kind candidate_count =
    if resolution_kind == "receiver_type"
    then if leb candidate_count 2 then confidence_90 else confidence_75
    else if resolution_kind == "qualified_callee"
    then if leb candidate_count 2 then confidence_78 else confidence_62
    else if nat_eq candidate_count 1
    then confidence_55
    else confidence_35

-- the key `(file_path, name, line_number)`
abbrev pub same_symbol : CodeSymbol → CodeSymbol → Bool
same_symbol a b =
    a.file_path == b.file_path && a.name == b.name && nat_eq a.line_number b.line_number

unfoldable pub unique_from : List CodeSymbol → List CodeSymbol → List CodeSymbol
unique_from unique [] = unique
unique_from unique (symbol ∷ rest) =
    unique_from
      (if any (λ seen. same_symbol seen symbol) unique then unique else unique ++ symbol ∷ []) rest

abbrev pub is_code : CodeSymbol → Bool
is_code symbol = symbol.kind == "method" || symbol.kind == "function"

abbrev pub truth : Bool → ℕ
truth true = 1
truth false = 0

-- The key of the sort: in the same file, a function, early.
abbrev lt_symbol : String → CodeSymbol → CodeSymbol → Bool
lt_symbol path a b = lex_lt (
    (truth (a.file_path == path), truth (b.file_path == path))
    ∷ (truth (is_code a), truth (is_code b))
    ∷ (b.line_number, a.line_number)
    ∷ [])

-- `_dedupe_and_rank_symbols`
unfoldable pub dedupe_and_rank_symbols : List CodeSymbol → String → List CodeSymbol
unfolding unique_from sorted_by
dedupe_and_rank_symbols symbols source_file_path =
    take 5 (sorted_by (lt_symbol source_file_path) (unique_from [] symbols))

abbrev pub all_symbols : List ScannedFile → List CodeSymbol
all_symbols [] = []
all_symbols (file ∷ rest) = file.symbols ++ all_symbols rest

abbrev all_relations : List ScannedFile → List ImplementRelation
all_relations [] = []
all_relations (file ∷ rest) = file.implement_relations ++ all_relations rest

-- The candidates of one call, the kind of resolution, and what is known of it.
pub record Candidates : Type 0 where
  pub symbols : List CodeSymbol
  pub resolution_kind : String

module _ ⦃py : Runtime⦄ where
  -- `symbols_by_simple.get(key)`
  abbrev by_simple : List CodeSymbol → String → List CodeSymbol
  by_simple symbols key = filterb (λ s. compact (simple_name s) == key) symbols

  -- `symbols_by_owner_simple.get((owner, key))`
  abbrev by_owner : List CodeSymbol → String → String → List CodeSymbol
  by_owner symbols owner key =
      filterb
        (λ s. not (s.owner == "") && compact s.owner == owner && compact (simple_name s) == key)
        symbols

  -- `implementers_by_interface.get(key)`
  implementers : List ImplementRelation → String → List String
  unfolding simple_type
  implementers relations key =
      map (λ r. simple_type r.type_name)
        (filterb (λ r. compact (simple_type r.interface_name) == key) relations)

  by_implementers : List CodeSymbol → List String → String → List CodeSymbol
  unfolding compact last_part
  by_implementers symbols [] key = []
  by_implementers symbols (implementer ∷ rest) key =
      by_owner symbols (compact implementer) key ++ by_implementers symbols rest key

  unfoldable pub candidates_of : List ScannedFile → CallEdge → Candidates
  unfolding by_implementers implementers
  candidates_of files edge =
      let symbols = all_symbols files in
      let callee_key = compact (last_part edge.callee) in
      let receiver_type = simple_type edge.receiver_type in
      let receiver_key = compact receiver_type in
      if not (receiver_type == "")
      then record {
        symbols =
            by_owner symbols receiver_key callee_key
            ++ by_implementers symbols (implementers (all_relations files) receiver_key) callee_key;
        resolution_kind = "receiver_type";
      }
      else if contains "." edge.callee
      then record {
        symbols = by_owner symbols (compact (first_part edge.callee)) callee_key;
        resolution_kind = "qualified_callee";
      }
      else record { symbols = by_simple symbols callee_key; resolution_kind = "symbol_name" }

  -- one turn of the loop over the calls
  unfoldable pub resolve_edge : List ScannedFile → CallEdge → CallEdge
  unfolding candidates_of dedupe_and_rank_symbols resolution_confidence
  resolve_edge files edge =
      let candidates = candidates_of files edge in
      let resolved = dedupe_and_rank_symbols candidates.symbols edge.file_path in
      if is_empty resolved then edge else record edge {
        resolved_symbols = resolved;
        resolution_kind = candidates.resolution_kind;
        confidence = resolution_confidence candidates.resolution_kind (length resolved);
      }

  abbrev resolve_file : List ScannedFile → ScannedFile → ScannedFile
  resolve_file files file = record file { call_edges = map (resolve_edge files) file.call_edges }

  -- `_resolve_cross_module_symbols`, which changes the calls of the files
  unfoldable pub resolve_cross_module_symbols : List ScannedFile → List ScannedFile
  unfolding resolve_edge
  resolve_cross_module_symbols files = map (resolve_file files) files
