-- ===== src/Decision/Inspector/Hits.antt =====
-- apps/decision-engine/decision_engine/local_code.py, `_match_scanned_file`: what a file that matches a question
-- reports.
use Prim.Native.String.{count}
use ai_troubleshooter.Prelude.{
  ℕ, suc, ◌+◌, ◌-◌, min, String, Bool, not, ◌||◌, ◌&&◌, Option, none, some, List, [], ◌∷◌, map, any,
  filterb, length, take, leb, ltb, nat_eq, is_empty, contains, if◌then◌else◌, ◌==◌,
}
use ai_troubleshooter.Python.{Runtime}
use ai_troubleshooter.Decision.Inspector.Words.{
  CodeSymbol, CallEdge, ImplementRelation, ScannedFile, compact, matches_text, symbol_text,
  relation_text, edge_match_text,
}
use ai_troubleshooter.Decision.Inspector.Sort.{lex_lt, sorted_by}
use ai_troubleshooter.Decision.Inspector.Lines.{
  splitlines, merge_line_numbers, is_low_signal_code_line, symbol_scope_range, in_scope, line_range,
}
use ai_troubleshooter.Decision.Inspector.Excerpt.{ExcerptLine, code_excerpt}
use ai_troubleshooter.Decision.Inspector.Resolve.{truth, is_code}
use ai_troubleshooter.Decision.Inspector.Reasons.{hit_modes, suspect_reasons, follow_up_checks}

pub record LocalCodeHit : Type 0 where
  pub file_path : String
  pub matched_terms : List String
  pub line_numbers : List ℕ
  pub primary_symbol : Option CodeSymbol
  pub line_range : ℕ × ℕ
  pub code_excerpt : List ExcerptLine
  pub suspect_reasons : List String
  pub follow_up_checks : List String
  pub symbols : List CodeSymbol
  pub call_edges : List CallEdge
  pub implement_relations : List ImplementRelation
  pub analysis_modes : List String

abbrev distance : ℕ → ℕ → ℕ
distance a b = (a - b) + (b - a)

-- the least distance to one of the lines, or 0 if there are none
abbrev nearest : ℕ → List ℕ → ℕ
nearest n [] = 0
nearest n (m ∷ []) = distance n m
nearest n (m ∷ k ∷ rest) = min (distance n m) (nearest n (k ∷ rest))

abbrev first_or : ℕ → List ℕ → ℕ
first_or n [] = n
first_or n (m ∷ rest) = m

abbrev head_symbol : List CodeSymbol → Option CodeSymbol
head_symbol [] = none
head_symbol (s ∷ rest) = some s

abbrev kind_score : CodeSymbol → ℕ
kind_score s = if is_code s then 2 else if s.kind == "class" || s.kind == "interface" then 1 else 0

module _ ⦃py : Runtime⦄ where
  -- The sum that `_line_specificity_score` and `_hit_specificity_score` make.
  unfoldable pub specificity : String → List String → ℕ
  unfolding compact
  specificity compacted [] = 0
  specificity compacted (term ∷ rest) =
      let c = compact term in
      (if ltb (count c) 3 || not (contains c compacted)
        then 0
        else if leb 10 (count c)
        then 4
        else if leb 7 (count c)
        then 2
        else 1)
      + specificity compacted rest

  -- `_line_specificity_score`
  abbrev line_specificity_score : String → List String → ℕ
  line_specificity_score line terms = specificity (compact line) terms

  -- the loop of `_matched_content_line_numbers`: pairs of a score and a line
  scored_lines : List String → ℕ → List String → List (ℕ × ℕ)
  unfolding matches_text is_low_signal_code_line specificity compact
  scored_lines terms idx [] = []
  scored_lines terms idx (line ∷ rest) =
      let later = scored_lines terms (suc idx) rest in
      if is_low_signal_code_line line
      then later
      else if matches_text line terms
      then (line_specificity_score line terms, idx) ∷ later
      else later

  -- `_matched_content_line_numbers`
  unfoldable pub matched_content_line_numbers : String → List String → List ℕ
  unfolding scored_lines splitlines sorted_by
  matched_content_line_numbers content matched_terms =
      map (λ (score, idx). idx)
        (take 8 (
          sorted_by (λ (s, i) (t, j). lex_lt ((s, t) ∷ (j, i) ∷ []))
            (scored_lines matched_terms 1 (splitlines content))))

  -- The key of `_primary_symbol`, less the anchors.
  abbrev term_score : List String → CodeSymbol → ℕ
  term_score matched_terms s =
      length (filterb (λ term. matches_text (symbol_text s) (term ∷ [])) matched_terms)

  abbrev is_direct : List CodeSymbol → CodeSymbol → Bool
  is_direct direct_symbols s =
      any (λ d. d.name == s.name && nat_eq d.line_number s.line_number) direct_symbols

  lt_primary : List String → List CodeSymbol → List ℕ → ℕ → CodeSymbol → CodeSymbol → Bool
  unfolding matches_text
  lt_primary matched_terms direct_symbols anchors anchor a b = lex_lt (
      (kind_score a, kind_score b)
      ∷ (term_score matched_terms a, term_score matched_terms b)
      ∷ (truth (is_direct direct_symbols a), truth (is_direct direct_symbols b))
      ∷ (truth (leb a.line_number anchor), truth (leb b.line_number anchor))
      ∷ (nearest b.line_number anchors, nearest a.line_number anchors)
      ∷ [])

  -- `_primary_symbol`
  unfoldable pub primary_symbol_of :
      List CodeSymbol
      → List String
      → List CodeSymbol
      → List CallEdge
      → List ImplementRelation
      → List ℕ
      → Option CodeSymbol
  unfolding lt_primary merge_line_numbers sorted_by
  primary_symbol_of [] matched_terms direct_symbols call_edges implement_relations line_numbers =
      none
  primary_symbol_of (s ∷ rest) matched_terms direct_symbols call_edges implement_relations
        line_numbers =
      let anchors = merge_line_numbers (
        map (λ e. e.line_number) call_edges
        ∷ map (λ r. r.line_number) implement_relations
        ∷ line_numbers
        ∷ map (λ d. d.line_number) direct_symbols
        ∷ []) in
      head_symbol (
        sorted_by (lt_primary matched_terms direct_symbols anchors (first_or s.line_number anchors))
          (s ∷ rest))

  -- the lines of a hit, given the lines that the text and the structure give
  unfoldable pub hit_lines : ScannedFile → Option CodeSymbol → List ℕ → List ℕ → List ℕ
  unfolding merge_line_numbers symbol_scope_range
  hit_lines file none content_lines structural_lines =
      take 8 (merge_line_numbers (structural_lines ∷ content_lines ∷ []))
  hit_lines file (some s) content_lines structural_lines =
      let candidates = merge_line_numbers (structural_lines ∷ content_lines ∷ []) in
      let scoped =
        in_scope (symbol_scope_range file.content s file.language)
          (merge_line_numbers (content_lines ∷ structural_lines ∷ [])) in
      take 8 (merge_line_numbers (scoped ∷ candidates ∷ []))

  -- the hit of a file, given what matches in it
  unfoldable pub hit_from :
      Bool
      → ScannedFile
      → List String
      → List CodeSymbol
      → List CallEdge
      → List ImplementRelation
      → Option CodeSymbol
      → List ℕ
      → List ℕ
      → LocalCodeHit
  unfolding hit_lines suspect_reasons follow_up_checks hit_modes line_range code_excerpt
  hit_from include_snippets file matched_terms symbols call_edges relations primary_symbol
        content_lines structural_lines =
      let line_numbers = hit_lines file primary_symbol content_lines structural_lines in
      let shown = line_range file.content line_numbers primary_symbol file.language in
      record {
        file_path = file.relative_path;
        matched_terms = take 8 matched_terms;
        line_numbers = line_numbers;
        primary_symbol = primary_symbol;
        line_range = shown;
        code_excerpt = if include_snippets then code_excerpt file.content shown else [];
        suspect_reasons = suspect_reasons matched_terms primary_symbol call_edges relations;
        follow_up_checks = follow_up_checks primary_symbol call_edges relations;
        symbols = take 8 symbols;
        call_edges = take 12 call_edges;
        implement_relations = take 8 relations;
        analysis_modes =
            hit_modes (not (is_empty matched_terms)) (not (is_empty symbols))
              (not (is_empty call_edges)) (any (λ e. not (is_empty e.resolved_symbols)) call_edges)
              (not (is_empty relations));
      }

  -- the hit of a file, if anything matches
  unfoldable pub hit_of :
      Bool
      → ScannedFile
      → List String
      → List CodeSymbol
      → List CallEdge
      → List ImplementRelation
      → Option LocalCodeHit
  unfolding hit_from matched_content_line_numbers primary_symbol_of
  hit_of include_snippets file matched_terms symbols call_edges relations =
      let content_lines = matched_content_line_numbers file.content matched_terms in
      let structural_lines = merge_line_numbers (
        map (λ s. s.line_number) symbols
        ∷ map (λ e. e.line_number) call_edges
        ∷ map (λ r. r.line_number) relations
        ∷ []) in
      let primary_symbol =
        primary_symbol_of file.symbols matched_terms symbols call_edges relations
          (merge_line_numbers (structural_lines ∷ content_lines ∷ [])) in
      if is_empty matched_terms && is_empty symbols && is_empty call_edges && is_empty relations
      then none
      else some (
          hit_from include_snippets file matched_terms symbols call_edges relations primary_symbol
            content_lines structural_lines)

  -- `_match_scanned_file`, given `include_snippets`
  unfoldable pub match_scanned_file : Bool → ScannedFile → List String → Option LocalCodeHit
  unfolding hit_of matches_text
  match_scanned_file include_snippets file terms =
      hit_of include_snippets file (filterb (λ term. matches_text file.content (term ∷ [])) terms)
        (filterb (λ s. matches_text (symbol_text s) terms) file.symbols)
        (filterb (λ e. matches_text (edge_match_text e) terms) file.call_edges)
        (filterb (λ r. matches_text (relation_text r) terms) file.implement_relations)
