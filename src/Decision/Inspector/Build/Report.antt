-- ===== src/Decision/Inspector/Build/Report.antt =====
-- What every report of the inspector keeps to.
use ai_troubleshooter.Prelude.{
  ℕ, ◌≤◌, String, Bool, true, false, ◌||◌, Option, none, some, List, [], ◌∷◌, ◌++◌, map, mem,
  length, take, All, All-take, length-take, length-append, leb, is_empty, arith, inl, inr,
  Bool-cases, eq_iff, if◌then◌else◌, ◌==◌, ◌≡◌, refl, sym, ap, ◌∙◌, subst,
}
use ai_troubleshooter.Prelude.Distinct.{Distinct, take-Distinct}
use ai_troubleshooter.Python.{Runtime, ℤ}
use ai_troubleshooter.Decision.Inspector.Words.{
  CodeSymbol, CallEdge, ImplementRelation, ScannedFile,
}
use ai_troubleshooter.Decision.Inspector.Sort.{sorted_by}
use ai_troubleshooter.Decision.Inspector.Sort.Kept.{map-take, All-sorted_by, sorted_by-Distinct}
use ai_troubleshooter.Decision.Inspector.Lines.{line_range, merge_line_numbers}
use ai_troubleshooter.Decision.Inspector.Lines.Range.{line_range-IsShown}
use ai_troubleshooter.Decision.Inspector.Excerpt.{code_excerpt}
use ai_troubleshooter.Decision.Inspector.Excerpt.Masked.{IsExcerpt, code_excerpt-IsExcerpt}
use ai_troubleshooter.Decision.Inspector.Reasons.{suspect_reasons, follow_up_checks}
use ai_troubleshooter.Decision.Inspector.Hits.{
  LocalCodeHit, hit_lines, matched_content_line_numbers, primary_symbol_of, hit_from, hit_of,
  match_scanned_file,
}
use ai_troubleshooter.Decision.Inspector.Context.{
  hit_at, put_hit, symbols_at, new_hit, or_new, with_edge, with_relation, add_edges, add_all_edges,
  add_call_graph_context, add_relations, add_all_relations, add_implementation_context,
}
use ai_troubleshooter.Decision.Inspector.Build.{
  at_least_one, keep_match, match_files, lt_hit, build_hits,
}

-- A hit is small, and its excerpt stands at its range and shows no secret.
pub record IsHit (hit : LocalCodeHit) : Type 0 where
  pub terms : length hit.matched_terms ≤ 8
  pub lines : length hit.line_numbers ≤ 8
  pub excerpt : IsExcerpt hit.line_range.0 hit.code_excerpt
  pub short : length hit.code_excerpt ≤ 14
  pub reasons : length hit.suspect_reasons ≤ 5
  pub checks : length hit.follow_up_checks ≤ 5
  pub symbols : length hit.symbols ≤ 8
  pub edges : length hit.call_edges ≤ 12

abbrev pub path_of : LocalCodeHit → String
path_of hit = hit.file_path

-- No file has two hits.
pub record AreHits (hits : List LocalCodeHit) : Type 0 where
  pub each : All IsHit hits
  pub once : Distinct (map path_of hits)

mem-put_hit :
    (a : String) (hit : LocalCodeHit) (hits : List LocalCodeHit)
    → mem a (map path_of (put_hit hit hits)) ≡ (hit.file_path == a || mem a (map path_of hits))
unfolding put_hit
mem-put_hit a hit [] = refl
mem-put_hit a hit (other ∷ rest) = elim (Bool-cases (other.file_path == hit.file_path)) [
  | inl same ↦
      rw (same, (eq_iff other.file_path hit.file_path).0 same)
        (twice (hit.file_path == a) (mem a (map path_of rest)))
  | inr new ↦ rw new (
      ap (λ b. other.file_path == a || b) (mem-put_hit a hit rest)
      ∙ swap (other.file_path == a) (hit.file_path == a) (mem a (map path_of rest)))
]
  where
    twice : (b c : Bool) → (b || c) ≡ (b || (b || c))
    twice b c = ground arith

    swap : (b c d : Bool) → (b || (c || d)) ≡ (c || (b || d))
    swap b c d = ground arith

put_hit-Distinct :
    (hit : LocalCodeHit) (hits : List LocalCodeHit)
    → Distinct (map path_of hits)
    → Distinct (map path_of (put_hit hit hits))
unfolding put_hit
put_hit-Distinct hit [] h = (refl, tt)
put_hit-Distinct hit (other ∷ rest) (f, h) = elim (Bool-cases (other.file_path == hit.file_path)) [
  | inl same ↦ rw same (
    subst (λ a. mem a (map path_of rest) ≡ false) ((eq_iff other.file_path hit.file_path).0 same) f,
    h,
  )
  | inr new ↦ rw new (
    mem-put_hit other.file_path hit rest
        ∙ ground
            (arith, eq_iff hit.file_path other.file_path, eq_iff other.file_path hit.file_path),
    put_hit-Distinct hit rest h,
  )
]

All-put_hit :
    (hit : LocalCodeHit) (hits : List LocalCodeHit)
    → IsHit hit
    → All IsHit hits
    → All IsHit (put_hit hit hits)
unfolding put_hit
All-put_hit hit [] p h = (p, tt)
All-put_hit hit (other ∷ rest) p (q, h) = elim (Bool-cases (other.file_path == hit.file_path)) [
  | inl same ↦ rw same (p, h)
  | inr new ↦ rw new (q, All-put_hit hit rest p h)
]

put_hit-AreHits :
    (hit : LocalCodeHit) (hits : List LocalCodeHit)
    → IsHit hit
    → AreHits hits
    → AreHits (put_hit hit hits)
put_hit-AreHits hit hits p h = record {
  each = All-put_hit hit hits p h.each;
  once = put_hit-Distinct hit hits h.once;
}

symbols_at-few :
    (path : String) (files : List ScannedFile) (found : List CodeSymbol)
    → length (symbols_at path files found) ≤ 8
symbols_at-few path [] found = omega (arith, length-take 4 found)
symbols_at-few path (file ∷ rest) found = symbols_at-few path rest _

or_new-IsHit :
    (path term mode : String) (line_number : ℕ) (files : List ScannedFile)
    (hits : List LocalCodeHit)
    → All IsHit hits
    → IsHit
        (or_new (hit_at path hits) (new_hit path term line_number (symbols_at path files []) mode))
or_new-IsHit path term mode line_number files [] h = record {
  terms = omega arith;
  lines = omega arith;
  excerpt = tt;
  short = omega arith;
  reasons = omega arith;
  checks = omega arith;
  symbols = symbols_at-few path files [];
  edges = omega arith;
}
or_new-IsHit path term mode line_number files (hit ∷ rest) (p, h) =
    elim (Bool-cases (hit.file_path == path)) [
      | inl same ↦ rw same p
      | inr other ↦ rw other (or_new-IsHit path term mode line_number files rest h)
    ]

with_relation-IsHit :
    (relation : ImplementRelation) (hit : LocalCodeHit)
    → IsHit hit
    → IsHit (with_relation relation hit)
with_relation-IsHit relation hit h = record {
  terms = h.terms;
  lines = h.lines;
  excerpt = h.excerpt;
  short = h.short;
  reasons = h.reasons;
  checks = h.checks;
  symbols = h.symbols;
  edges = h.edges;
}

grown :
    (b : Bool) (edges : List CallEdge) (edge : CallEdge)
    → leb 12 (length edges) ≡ false
    → length (if b then edges else edges ++ edge ∷ []) ≤ 12
grown true edges edge room = ground arith
grown false edges edge room = ground (arith, length-append edges (edge ∷ []))

with_edge-IsHit : (edge : CallEdge) (hit : LocalCodeHit) → IsHit hit → IsHit (with_edge edge hit)
with_edge-IsHit edge hit h = elim (Bool-cases (leb 12 (length hit.call_edges))) [
  | inl full ↦ rw full h
  | inr room ↦ rw room (record {
    terms = h.terms;
    lines = h.lines;
    excerpt = h.excerpt;
    short = h.short;
    reasons = h.reasons;
    checks = h.checks;
    symbols = h.symbols;
    edges = grown _ hit.call_edges edge room;
  })
]

abbrev IsGivenHit : Option LocalCodeHit → Type 0
IsGivenHit none = Unit
IsGivenHit (some hit) = IsHit hit

take-few : {A : Type 0} (n : ℕ) (xs : List A) → length (take n xs) ≤ n
take-few n xs = omega (arith, length-take n xs)

given_hit : (b : Bool) (hit : LocalCodeHit) → IsHit hit → IsGivenHit (if b then none else some hit)
given_hit true hit h = tt
given_hit false hit h = h

either :
    (b : Bool) (xs ys : List LocalCodeHit)
    → AreHits xs
    → AreHits ys
    → AreHits (if b then xs else ys)
either true xs ys h k = h
either false xs ys h k = k

module _ ⦃py : Runtime⦄ where
  length-hit_lines :
      (file : ScannedFile) (symbol : Option CodeSymbol) (content_lines structural_lines : List ℕ)
      → length (hit_lines file symbol content_lines structural_lines) ≤ 8
  unfolding hit_lines
  length-hit_lines file none content_lines structural_lines = take-few 8 _
  length-hit_lines file (some s) content_lines structural_lines = take-few 8 _

  length-shown :
      (content : String) (lines : List ℕ) (symbol : Option CodeSymbol) (language : String)
      → length (code_excerpt content (line_range content lines symbol language)) ≤ 14
  length-shown content lines symbol language =
      let shown = line_range content lines symbol language in
      let few = (code_excerpt-IsExcerpt content shown.0 shown.1).1 in
      elim (line_range-IsShown content lines symbol language) [
        | inl nothing ↦
            subst (λ r. length (code_excerpt content r) ≤ 14) (sym nothing.0)
              (omega (arith, (code_excerpt-IsExcerpt content 0 0).1))
        | inr h ↦ omega (arith, few, h.short)
      ]

  snippets :
      (include_snippets : Bool) (content : String) (lines : List ℕ) (symbol : Option CodeSymbol)
      (language : String)
      → let shown = line_range content lines symbol language in
        let excerpt = if include_snippets then code_excerpt content shown else [] in
        IsExcerpt shown.0 excerpt × (length excerpt ≤ 14)
  snippets true content lines symbol language =
      let shown = line_range content lines symbol language in
      (
        (code_excerpt-IsExcerpt content shown.0 shown.1).0,
        length-shown content lines symbol language,
      )
  snippets false content lines symbol language = (tt, omega arith)

  hit_from-IsHit :
      (include_snippets : Bool) (file : ScannedFile) (matched_terms : List String)
      (symbols : List CodeSymbol) (call_edges : List CallEdge) (relations : List ImplementRelation)
      (symbol : Option CodeSymbol) (content_lines structural_lines : List ℕ)
      → IsHit (
          hit_from include_snippets file matched_terms symbols call_edges relations symbol
            content_lines structural_lines)
  unfolding hit_from suspect_reasons follow_up_checks
  hit_from-IsHit include_snippets file matched_terms symbols call_edges relations symbol
        content_lines structural_lines =
      let lines = hit_lines file symbol content_lines structural_lines in
      record {
        terms = take-few 8 matched_terms;
        lines = length-hit_lines file symbol content_lines structural_lines;
        excerpt = (snippets include_snippets file.content lines symbol file.language).0;
        short = (snippets include_snippets file.content lines symbol file.language).1;
        reasons = take-few 5 _;
        checks = take-few 5 _;
        symbols = take-few 8 symbols;
        edges = take-few 12 call_edges;
      }

  hit_of-IsHit :
      (include_snippets : Bool) (file : ScannedFile) (matched_terms : List String)
      (symbols : List CodeSymbol) (call_edges : List CallEdge) (relations : List ImplementRelation)
      → IsGivenHit (hit_of include_snippets file matched_terms symbols call_edges relations)
  unfolding hit_of
  hit_of-IsHit include_snippets file matched_terms symbols call_edges relations =
      let content_lines = matched_content_line_numbers file.content matched_terms in
      let structural_lines = merge_line_numbers (
        map (λ s. s.line_number) symbols
        ∷ map (λ e. e.line_number) call_edges
        ∷ map (λ r. r.line_number) relations
        ∷ []) in
      given_hit _ _ (
        hit_from-IsHit include_snippets file matched_terms symbols call_edges relations
          (primary_symbol_of file.symbols matched_terms symbols call_edges relations
            (merge_line_numbers (structural_lines ∷ content_lines ∷ [])))
          content_lines structural_lines)

  match_scanned_file-IsHit :
      (include_snippets : Bool) (file : ScannedFile) (terms : List String)
      → IsGivenHit (match_scanned_file include_snippets file terms)
  unfolding match_scanned_file
  match_scanned_file-IsHit include_snippets file terms = hit_of-IsHit include_snippets file _ _ _ _

  keep_match-AreHits :
      (match : Option LocalCodeHit) (hits : List LocalCodeHit) (names : List String)
      → IsGivenHit match
      → AreHits hits
      → AreHits (keep_match match (hits, names)).0
  keep_match-AreHits none hits names p h = h
  keep_match-AreHits (some hit) hits names p h = put_hit-AreHits hit hits p h

  match_files-AreHits :
      (include_snippets : Bool) (terms : List String) (files : List ScannedFile)
      (hits : List LocalCodeHit) (names : List String)
      → AreHits hits
      → AreHits (match_files include_snippets terms files (hits, names)).0
  unfolding match_files
  match_files-AreHits include_snippets terms [] hits names h = h
  match_files-AreHits include_snippets terms (file ∷ rest) hits names h =
      let match = match_scanned_file include_snippets file terms in
      let next = keep_match match (hits, names) in
      match_files-AreHits include_snippets terms rest next.0 next.1 (
        keep_match-AreHits match hits names (match_scanned_file-IsHit include_snippets file terms)
          h)

  put_if :
      (b : Bool) (hit : LocalCodeHit) (hits : List LocalCodeHit)
      → IsHit hit
      → AreHits hits
      → AreHits (if b then put_hit hit hits else hits)
  put_if true hit hits p h = put_hit-AreHits hit hits p h
  put_if false hit hits p h = h

  add_edges-AreHits :
      (files : List ScannedFile) (names : List String) (edges : List CallEdge)
      (hits : List LocalCodeHit)
      → AreHits hits
      → AreHits (add_edges files names edges hits)
  unfolding add_edges
  add_edges-AreHits files names [] hits h = h
  add_edges-AreHits files names (edge ∷ rest) hits h = add_edges-AreHits files names rest _ (
      put_if _ _ hits
        (with_edge-IsHit edge _ (
          or_new-IsHit edge.file_path "call_graph_context" "call_graph" edge.line_number files hits
            h.each))
        h)

  add_all_edges-AreHits :
      (files : List ScannedFile) (names : List String) (some_files : List ScannedFile)
      (hits : List LocalCodeHit)
      → AreHits hits
      → AreHits (add_all_edges files names some_files hits)
  unfolding add_all_edges
  add_all_edges-AreHits files names [] hits h = h
  add_all_edges-AreHits files names (file ∷ rest) hits h =
      add_all_edges-AreHits files names rest _
        (add_edges-AreHits files names file.call_edges hits h)

  add_relations-AreHits :
      (files : List ScannedFile) (types : List String) (relations : List ImplementRelation)
      (hits : List LocalCodeHit)
      → AreHits hits
      → AreHits (add_relations files types relations hits)
  unfolding add_relations
  add_relations-AreHits files types [] hits h = h
  add_relations-AreHits files types (relation ∷ rest) hits h =
      add_relations-AreHits files types rest _ (
        put_if _ _ hits
          (with_relation-IsHit relation _ (
            or_new-IsHit relation.file_path "interface_implementation_context"
              "interface_implementation" relation.line_number files hits h.each))
          h)

  add_all_relations-AreHits :
      (files : List ScannedFile) (types : List String) (some_files : List ScannedFile)
      (hits : List LocalCodeHit)
      → AreHits hits
      → AreHits (add_all_relations files types some_files hits)
  unfolding add_all_relations
  add_all_relations-AreHits files types [] hits h = h
  add_all_relations-AreHits files types (file ∷ rest) hits h =
      add_all_relations-AreHits files types rest _
        (add_relations-AreHits files types file.implement_relations hits h)

  with_context-AreHits :
      (files : List ScannedFile) (names : List String) (hits : List LocalCodeHit)
      → AreHits hits
      → AreHits (add_implementation_context files (add_call_graph_context files names hits))
  unfolding add_implementation_context add_call_graph_context
  with_context-AreHits files names hits h =
      let known =
        either (is_empty names) hits (add_all_edges files names files hits) h
          (add_all_edges-AreHits files names files hits h) in
      either _ _ _ known (add_all_relations-AreHits files _ files _ known)

  -- Whatever the files, the words and the limit, a report has at most as many hits as the limit, and
  -- one where the limit is below one; no file has two hits; and each hit is small, with an excerpt
  -- of at most fourteen lines that follow each other from the start of its range and show no
  -- assignment to a word for a secret.
  pub build_hits-AreHits :
      (include_snippets : Bool) (files : List ScannedFile) (terms : List String) (max_hits : ℤ)
      → let hits = build_hits include_snippets files terms max_hits in
        AreHits hits × (length hits ≤ at_least_one max_hits)
  unfolding build_hits
  build_hits-AreHits include_snippets files terms max_hits =
      let matched = match_files include_snippets terms files ([], []) in
      let h = with_context-AreHits files matched.1 matched.0 (
        match_files-AreHits include_snippets terms files [] [] (record { each = tt; once = tt })) in
      let n = at_least_one max_hits in
      let hits =
        add_implementation_context files (add_call_graph_context files matched.1 matched.0) in
      let sorted = sorted_by lt_hit hits in
      (
        record {
          each = All-take IsHit n sorted (All-sorted_by lt_hit IsHit hits h.each);
          once = subst Distinct (sym (map-take path_of n sorted)) (
              take-Distinct n (map path_of sorted) (sorted_by-Distinct lt_hit path_of hits h.once));
        },
        take-few n sorted,
      )
