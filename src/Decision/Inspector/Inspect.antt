-- ===== src/Decision/Inspector/Inspect.antt =====
-- apps/decision-engine/decision_engine/local_code.py, `LocalCodeInspector.inspect`, from the repositories of the
-- configuration to the report.
--
-- What the walk over the file system and the analysis of a file give (`_iter_allowed_files`,
-- `_read_and_analyze_file`), the words of a question (`_query_terms`) and the tests of a path by
-- patterns (`_is_denied`) are the record `FileTree`.
pub mod Verdict
use ai_troubleshooter.Prelude.{
  ℕ, zero, suc, ◌+◌, String, Bool, true, false, not, ◌||◌, ◌&&◌, Option, none, some, List, [], ◌∷◌,
  ◌++◌, map, mem, any, filterb, length, ltb, nat_eq, is_empty, strip, show, if◌then◌else◌, ◌==◌,
  ◌<>◌,
}
use ai_troubleshooter.Python.{
  Runtime, ℤ, Value, Fields, Items, str, int, pos, float, list, dict, nil, cons, field, end,
}
use ai_troubleshooter.Decision.LocalCode.{LocalCodeInspection, LocalCodeInspector}
use ai_troubleshooter.Decision.Inspector.Words.{
  CodeSymbol, CallEdge, ImplementRelation, ScannedFile,
}
use ai_troubleshooter.Decision.Inspector.Excerpt.{ExcerptLine}
use ai_troubleshooter.Decision.Inspector.Resolve.{resolve_cross_module_symbols, all_symbols}
use ai_troubleshooter.Decision.Inspector.Hits.{LocalCodeHit}
use ai_troubleshooter.Decision.Inspector.Build.{build_hits}
use ai_troubleshooter.Decision.Inspector.Reasons.{when}
use ai_troubleshooter.Decision.Inspector.Dicts.{hit_dict}

-- What a walk finds of a path, once it is known to be a file: it leads out of the repository, it is
-- denied by a pattern, it is too large, it cannot be read, or it is read and analysed.
pub data Found : Type 0 where
  outside denied too_large unreadable : Found
  read : ScannedFile → Found

-- A repository of the configuration; `exists` tells whether its path is a directory.
pub record LocalRepo : Type 0 where
  pub service_name : String
  pub exists : Bool
  pub analysis_backend : String
  pub has_lsif : Bool
  pub has_lsp : Bool
  pub found : List Found

-- `self.repos`, `self.enabled`, `self.include_snippets` and `_query_terms`
pub record Inspector : Type 0 where
  pub repos : List (String × LocalRepo)
  pub enabled : Bool
  pub include_snippets : Bool
  pub query_terms : String → List String

-- `self.repos[key]` if it is there
abbrev repo_at : String → List (String × LocalRepo) → Option LocalRepo
repo_at key [] = none
repo_at key ((k, repo) ∷ rest) = if k == key then some repo else repo_at key rest

abbrev or_repo : Option LocalRepo → Option LocalRepo → Option LocalRepo
or_repo none other = other
or_repo (some repo) other = some repo

abbrev keyed : String → List (String × LocalRepo) → Option LocalRepo
keyed key repos = if key == "" then none else repo_at key repos

-- `_resolve_repo`
unfoldable pub resolve_repo : Inspector → String → String → Option LocalRepo
resolve_repo inspector service_name repo_hint =
    or_repo (keyed service_name inspector.repos) (keyed repo_hint inspector.repos)

-- the counts of the loop over the files
abbrev is_denied : Found → Bool
is_denied outside = true
is_denied denied = true
is_denied _ = false

abbrev is_scanned : Found → Bool
is_scanned unreadable = true
is_scanned (read file) = true
is_scanned _ = false

unfoldable pub read_files : List Found → List ScannedFile
read_files [] = []
read_files (read file ∷ rest) = file ∷ read_files rest
read_files (_ ∷ rest) = read_files rest

abbrev all_edges : List ScannedFile → List CallEdge
all_edges [] = []
all_edges (file ∷ rest) = file.call_edges ++ all_edges rest

abbrev count_relations : List ScannedFile → ℕ
count_relations [] = 0
count_relations (file ∷ rest) = length file.implement_relations + count_relations rest

-- `_analysis_modes`
unfoldable pub analysis_modes : ℕ → ℕ → ℕ → ℕ → List String
analysis_modes symbol_count call_edge_count resolved_count relation_count =
    "keyword" ∷ when (not (nat_eq symbol_count 0)) ("language_structure_tree" ∷ "symbol_index" ∷ [])
    ++ when (not (nat_eq call_edge_count 0)) ("call_graph" ∷ [])
    ++ when (not (nat_eq resolved_count 0)) ("cross_module_call_resolution" ∷ [])
    ++ when (not (nat_eq relation_count 0)) ("interface_implementation" ∷ [])

-- a report without a search
abbrev refused : String → String → String → String → List String → LocalCodeInspection
refused service_name repo_id status summary risks = record {
  service_name = service_name;
  repo_id = repo_id;
  status = status;
  summary = summary;
  evidence = [];
  skipped_denied_files = 0;
  scanned_files = 0;
  symbol_count = 0;
  call_edge_count = 0;
  resolved_call_edge_count = 0;
  implement_relation_count = 0;
  analysis_modes = [];
  analysis_backends = [];
  risks = risks;
}

abbrev or_name : String → String → String
or_name a b = if a == "" then b else a

module _ ⦃py : Runtime⦄ where
  -- `_analysis_backends`
  unfoldable pub analysis_backends : LocalRepo → List String
  unfolding strip
  analysis_backends repo =
      let backend = py.lower (strip repo.analysis_backend) in
      "lightweight"
        ∷ "cross_module_resolver"
        ∷ when (not (backend == "") && not (backend == "auto" || backend == "lightweight"))
            (("requested:" <> backend) ∷ [])
      ++ when repo.has_lsif ("lsif_configured" ∷ [])
      ++ when repo.has_lsp ("lsp_configured" ∷ [])
      ++ when (backend == "tree_sitter") ("tree_sitter_configured" ∷ [])

  -- the report on a repository, given the files and the hits
  unfoldable pub report :
      String → LocalRepo → List ScannedFile → List LocalCodeHit → LocalCodeInspection
  unfolding analysis_modes analysis_backends hit_dict
  report service_name repo files hits =
      let edges = all_edges files in
      let resolved = length (filterb (λ e. not (is_empty e.resolved_symbols)) edges) in
      let symbol_count = length (all_symbols files) in
      record {
        service_name = service_name;
        repo_id = repo.service_name;
        status = if is_empty hits then "no_match" else "matched";
        summary =
            if is_empty hits
            then "本地代码只读分析未命中相关文件。"
            else "本地代码只读分析命中 " <> show (length hits) <> " 个文件；" <> "结果包含相对路径、符号、行范围、调用边、疑点和有界代码摘录。";
        evidence = map hit_dict hits;
        skipped_denied_files = length (filterb is_denied repo.found);
        scanned_files = length (filterb is_scanned repo.found);
        symbol_count = symbol_count;
        call_edge_count = length edges;
        resolved_call_edge_count = resolved;
        implement_relation_count = count_relations files;
        analysis_modes =
            analysis_modes symbol_count (length edges) resolved (count_relations files);
        analysis_backends = analysis_backends repo;
        risks = [];
      }

  unfoldable pub inspect_repo :
      Inspector → String → LocalRepo → List String → ℤ → LocalCodeInspection
  unfolding report read_files resolve_cross_module_symbols build_hits
  inspect_repo inspector service_name repo terms max_hits =
      let files = resolve_cross_module_symbols (read_files repo.found) in
      let searched =
        report service_name repo files
          (build_hits inspector.include_snippets files terms max_hits) in
      if not repo.exists
      then refused service_name repo.service_name "repo_unavailable" "本地仓库路径不存在或不是目录。"
          ("local_repo_unavailable" ∷ [])
      else if is_empty terms
      then refused service_name repo.service_name "no_query_terms" "没有足够关键词执行本地代码搜索。"
          ("local_code_query_empty" ∷ [])
      else searched

  inspect_given :
      Inspector → String → String → Option LocalRepo → List String → ℤ → LocalCodeInspection
  unfolding inspect_repo
  inspect_given inspector service_name repo_hint none terms max_hits =
      refused service_name (or_name service_name repo_hint) "no_mapping"
        "没有找到 service_name/repo_hint 对应的本地仓库映射。" ("local_repo_mapping_missing" ∷ [])
  inspect_given inspector service_name repo_hint (some repo) terms max_hits =
      inspect_repo inspector service_name repo terms max_hits

  -- `inspect(service_name, query_text, repo_hint, max_hits)`
  unfoldable pub inspect : Inspector → String → String → String → ℤ → LocalCodeInspection
  unfolding inspect_given resolve_repo
  inspect inspector service_name query_text repo_hint max_hits =
      if not inspector.enabled
      then refused service_name (or_name service_name repo_hint) "disabled"
          "本地代码检查未启用，需要配置 LOCAL_CODE_REPOS_JSON。" ("local_code_debug_disabled" ∷ [])
      else inspect_given inspector service_name repo_hint
          (resolve_repo inspector service_name repo_hint) (inspector.query_terms query_text)
          max_hits

  -- the interface that the agent is given; `inspect` has eight hits by default
  unfoldable pub inspector_of : Inspector → LocalCodeInspector
  unfolding inspect
  inspector_of inspector = record {
    inspect = λ service_name query_text repo_hint.
        inspect inspector service_name query_text repo_hint (pos 8);
  }
