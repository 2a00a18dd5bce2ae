-- ===== src/Decision/Inspector/Build.antt =====
-- apps/decision-engine/decision_engine/local_code.py, `_build_hits`: the hits of all files, with those that the
-- calls and the implementations add, ranked.
--
-- The dictionary of hits by file is the list of its values, since each hit is kept under its own path.
pub mod Report
use Prim.Native.String.{count}
use ai_troubleshooter.Prelude.{
  ℕ, suc, ◌+◌, max, String, Bool, true, false, not, ◌||◌, ◌&&◌, Option, none, some, List, [], ◌∷◌,
  ◌++◌, map, any, mem, length, take, leb, nat_eq, is_empty, contains, join, if◌then◌else◌, ◌==◌,
  ◌<>◌,
}
use ai_troubleshooter.Python.{Runtime, ℤ, pos, negsuc}
use ai_troubleshooter.Decision.Inspector.Words.{
  CodeSymbol, CallEdge, ImplementRelation, ScannedFile, last_part, simple_name, compact,
}
use ai_troubleshooter.Decision.Inspector.Sort.{lex_lt, sorted_by}
use ai_troubleshooter.Decision.Inspector.Hits.{LocalCodeHit, specificity, match_scanned_file}
use ai_troubleshooter.Decision.Inspector.Context.{
  put_hit, add_call_graph_context, add_implementation_context,
}

-- `max(1, max_hits)`
abbrev pub at_least_one : ℤ → ℕ
at_least_one (pos n) = max 1 n
at_least_one (negsuc n) = 1

module _ ⦃py : Runtime⦄ where
  -- `_production_path_score`
  unfoldable pub production_path_score : String → ℕ
  production_path_score file_path =
      let lowered = py.lower file_path in
      if contains "/src/test/" lowered
        || contains "testcontroller" lowered
        || contains "/demo/" lowered
      then 0
      else if contains "/service/" lowered
          || contains "/dao/service/" lowered
          || contains "/common/util/" lowered
      then 3
      else if contains "/common/" lowered || contains "/dao/" lowered
      then 2
      else 1

  abbrev symbol_names : Option CodeSymbol → List String
  symbol_names none = []
  symbol_names (some s) = s.name ∷ []

  -- `_hit_specificity_score`
  unfoldable pub hit_specificity_score : LocalCodeHit → ℕ
  unfolding specificity compact
  hit_specificity_score hit =
      specificity
        (compact (
          join " " (
            hit.file_path ∷ symbol_names hit.primary_symbol
            ++ map (λ s. s.name) hit.symbols
            ++ map (λ e. e.caller <> " " <> e.callee <> " " <> e.receiver_type) hit.call_edges)))
        hit.matched_terms

  abbrev has_structure : LocalCodeHit → ℕ
  has_structure hit = if is_empty hit.symbols && is_empty hit.call_edges then 0 else 1

  -- the comparison of two keys that `_hit_rank` makes
  unfoldable pub lt_hit : LocalCodeHit → LocalCodeHit → Bool
  unfolding production_path_score hit_specificity_score
  lt_hit a b = lex_lt (
      (production_path_score a.file_path, production_path_score b.file_path)
      ∷ (hit_specificity_score a, hit_specificity_score b)
      ∷ (has_structure a, has_structure b)
      ∷ (length a.call_edges, length b.call_edges)
      ∷ (length a.symbols, length b.symbols)
      ∷ (length a.matched_terms, length b.matched_terms)
      ∷ (length a.line_numbers, length b.line_numbers)
      ∷ [])

  -- the names that a hit adds to `matched_symbol_names`
  abbrev hit_names : LocalCodeHit → List String
  hit_names hit =
      map (λ s. compact (simple_name s)) hit.symbols
      ++ map (λ s. compact s.name) hit.symbols
      ++ map (λ e. compact (last_part e.caller)) hit.call_edges
      ++ map (λ e. compact (last_part e.callee)) hit.call_edges

  abbrev keep_match :
      Option LocalCodeHit → List LocalCodeHit × List String → List LocalCodeHit × List String
  keep_match none (hits, names) = (hits, names)
  keep_match (some hit) (hits, names) = (put_hit hit hits, names ++ hit_names hit)

  -- the first loop of `_build_hits`
  unfoldable pub match_files :
      Bool
      → List String
      → List ScannedFile
      → List LocalCodeHit × List String
      → List LocalCodeHit × List String
  unfolding match_scanned_file put_hit compact last_part
  match_files include_snippets terms [] found = found
  match_files include_snippets terms (file ∷ rest) found =
      match_files include_snippets terms rest
        (keep_match (match_scanned_file include_snippets file terms) found)

  -- `_build_hits`, given `include_snippets`
  unfoldable pub build_hits : Bool → List ScannedFile → List String → ℤ → List LocalCodeHit
  unfolding match_files add_call_graph_context add_implementation_context lt_hit sorted_by
  build_hits include_snippets files terms max_hits =
      let matched = match_files include_snippets terms files ([], []) in
      let hits =
        add_implementation_context files (add_call_graph_context files matched.1 matched.0) in
      take (at_least_one max_hits) (sorted_by lt_hit hits)
