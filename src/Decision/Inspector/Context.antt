-- ===== src/Decision/Inspector/Context.antt =====
-- apps/decision-engine/decision_engine/local_code.py: the hits that the calls and the implementations add.
--
-- The dictionary of hits by file is the list of its values, since each hit is kept under its own path.
use ai_troubleshooter.Prelude.{
  ℕ, String, Bool, not, ◌||◌, ◌&&◌, Option, none, some, List, [], ◌∷◌, ◌++◌, any, mem, length, take,
  leb, nat_eq, is_empty, if◌then◌else◌, ◌==◌,
}
use ai_troubleshooter.Python.{Runtime}
use ai_troubleshooter.Decision.Inspector.Words.{
  CodeSymbol, CallEdge, ImplementRelation, ScannedFile, last_part, simple_name, compact,
}
use ai_troubleshooter.Decision.Inspector.Hits.{LocalCodeHit}
use ai_troubleshooter.Decision.Inspector.Reasons.{when}

abbrev pub max_call_edges_per_hit : ℕ
max_call_edges_per_hit = 12

-- `hits_by_file.get(path)`
abbrev pub hit_at : String → List LocalCodeHit → Option LocalCodeHit
hit_at path [] = none
hit_at path (hit ∷ rest) = if hit.file_path == path then some hit else hit_at path rest

-- `hits_by_file[hit.file_path] = hit`
unfoldable pub put_hit : LocalCodeHit → List LocalCodeHit → List LocalCodeHit
put_hit hit [] = hit ∷ []
put_hit hit (other ∷ rest) =
    let later = other ∷ put_hit hit rest in
    if other.file_path == hit.file_path then hit ∷ rest else later

-- `files_by_path.get(path)`, the last file of a path, and its first four symbols
abbrev pub symbols_at : String → List ScannedFile → List CodeSymbol → List CodeSymbol
symbols_at path [] found = take 4 found
symbols_at path (file ∷ rest) found =
    symbols_at path rest (if file.relative_path == path then file.symbols else found)

abbrev pub new_hit : String → String → ℕ → List CodeSymbol → String → LocalCodeHit
new_hit path term line_number symbols mode = record {
  file_path = path;
  matched_terms = term ∷ [];
  line_numbers = line_number ∷ [];
  primary_symbol = none;
  line_range = (0, 0);
  code_excerpt = [];
  suspect_reasons = [];
  follow_up_checks = [];
  symbols = symbols;
  call_edges = [];
  implement_relations = [];
  analysis_modes = mode ∷ [];
}

abbrev pub or_new : Option LocalCodeHit → LocalCodeHit → LocalCodeHit
or_new none hit = hit
or_new (some known) hit = known

abbrev with_mode : String → List String → List String
with_mode mode modes = if mem mode modes then modes else modes ++ mode ∷ []

abbrev same_edge : CallEdge → CallEdge → Bool
same_edge a b = a.caller == b.caller && a.callee == b.callee && nat_eq a.line_number b.line_number

-- a call that is added to a hit
abbrev pub with_edge : CallEdge → LocalCodeHit → LocalCodeHit
with_edge edge hit =
    if leb max_call_edges_per_hit (length hit.call_edges) then hit else record hit {
      call_edges =
          if any (λ known. same_edge known edge) hit.call_edges
          then hit.call_edges
          else hit.call_edges ++ edge ∷ [];
      analysis_modes =
          let modes = with_mode "call_graph" hit.analysis_modes in
          if is_empty edge.resolved_symbols
          then modes
          else with_mode "cross_module_call_resolution" modes;
    }

abbrev same_relation : ImplementRelation → ImplementRelation → Bool
same_relation a b = a.type_name == b.type_name && a.interface_name == b.interface_name

-- an implementation that is added to a hit
abbrev pub with_relation : ImplementRelation → LocalCodeHit → LocalCodeHit
with_relation relation hit = record hit {
  implement_relations =
      if any (λ known. same_relation known relation) hit.implement_relations
      then hit.implement_relations
      else hit.implement_relations ++ relation ∷ [];
  analysis_modes = with_mode "interface_implementation" hit.analysis_modes;
}

module _ ⦃py : Runtime⦄ where
  -- the calls of a file
  unfoldable pub add_edges :
      List ScannedFile → List String → List CallEdge → List LocalCodeHit → List LocalCodeHit
  unfolding put_hit compact last_part
  add_edges files names [] hits = hits
  add_edges files names (edge ∷ rest) hits =
      let hit = or_new (hit_at edge.file_path hits) (
        new_hit edge.file_path "call_graph_context" edge.line_number
          (symbols_at edge.file_path files []) "call_graph") in
      add_edges files names rest (
        if mem (compact (last_part edge.caller)) names
          || mem (compact (last_part edge.callee)) names
        then put_hit (with_edge edge hit) hits
        else hits)

  unfoldable pub add_all_edges :
      List ScannedFile → List String → List ScannedFile → List LocalCodeHit → List LocalCodeHit
  unfolding add_edges
  add_all_edges files names [] hits = hits
  add_all_edges files names (file ∷ rest) hits =
      add_all_edges files names rest (add_edges files names file.call_edges hits)

  -- `_add_call_graph_context`
  unfoldable pub add_call_graph_context :
      List ScannedFile → List String → List LocalCodeHit → List LocalCodeHit
  unfolding add_all_edges
  add_call_graph_context files matched_symbol_names hits =
      if is_empty matched_symbol_names
      then hits
      else add_all_edges files matched_symbol_names files hits

  -- the types of a symbol: its owner and its own name
  abbrev symbol_types : List CodeSymbol → List String
  symbol_types [] = []
  symbol_types (s ∷ rest) =
      when (not (s.owner == "")) (compact s.owner ∷ [])
      ++ compact (simple_name s) ∷ symbol_types rest

  abbrev edge_types : List CallEdge → List String
  edge_types [] = []
  edge_types (edge ∷ rest) =
      when (not (edge.receiver_type == "")) (compact edge.receiver_type ∷ [])
      ++ symbol_types edge.resolved_symbols
      ++ edge_types rest

  relevant_types : List LocalCodeHit → List String
  unfolding compact last_part
  relevant_types [] = []
  relevant_types (hit ∷ rest) =
      edge_types hit.call_edges ++ symbol_types hit.symbols ++ relevant_types rest

  -- the implementations in a file
  unfoldable pub add_relations :
      List ScannedFile
      → List String
      → List ImplementRelation
      → List LocalCodeHit
      → List LocalCodeHit
  unfolding put_hit compact
  add_relations files types [] hits = hits
  add_relations files types (relation ∷ rest) hits =
      let hit = or_new (hit_at relation.file_path hits) (
        new_hit relation.file_path "interface_implementation_context" relation.line_number
          (symbols_at relation.file_path files []) "interface_implementation") in
      add_relations files types rest (
        if mem (compact relation.type_name) types || mem (compact relation.interface_name) types
        then put_hit (with_relation relation hit) hits
        else hits)

  unfoldable pub add_all_relations :
      List ScannedFile → List String → List ScannedFile → List LocalCodeHit → List LocalCodeHit
  unfolding add_relations
  add_all_relations files types [] hits = hits
  add_all_relations files types (file ∷ rest) hits =
      add_all_relations files types rest (add_relations files types file.implement_relations hits)

  -- `_add_implementation_context`
  unfoldable pub add_implementation_context :
      List ScannedFile → List LocalCodeHit → List LocalCodeHit
  unfolding add_all_relations relevant_types
  add_implementation_context files hits =
      let types = relevant_types hits in
      if is_empty types then hits else add_all_relations files types files hits
