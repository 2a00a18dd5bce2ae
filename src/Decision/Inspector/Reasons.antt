-- ===== src/Decision/Inspector/Reasons.antt =====
-- apps/decision-engine/decision_engine/local_code.py: what a hit says of itself, its reasons, the checks to make next
-- and the ways in which it was found.
use ai_troubleshooter.Prelude.{
  String, Bool, true, false, not, ◌||◌, Option, none, some, List, [], ◌∷◌, ◌++◌, map, any, filterb,
  take, is_empty, contains, ends_with, join, show, if◌then◌else◌, ◌==◌, ◌<>◌,
}
use ai_troubleshooter.Python.{Runtime, ge_float}
use ai_troubleshooter.Decision.Models.{confidence_62}
use ai_troubleshooter.Decision.Inspector.Words.{CodeSymbol, CallEdge, ImplementRelation, compact}

-- `text if items else nothing`
abbrev pub when : Bool → List String → List String
when true xs = xs
when false xs = []

-- `_hit_modes`
unfoldable pub hit_modes : Bool → Bool → Bool → Bool → Bool → List String
hit_modes has_keyword has_symbols has_call_edges has_resolved_call_edges has_implements =
    when has_keyword ("keyword" ∷ [])
    ++ when has_symbols ("language_structure_tree" ∷ "symbol_index" ∷ [])
    ++ when has_call_edges ("call_graph" ∷ [])
    ++ when has_resolved_call_edges ("cross_module_call_resolution" ∷ [])
    ++ when has_implements ("interface_implementation" ∷ [])

-- `_strong_resolved_symbols`
unfoldable pub strong_resolved_symbols : List CallEdge → List CodeSymbol
strong_resolved_symbols [] = []
strong_resolved_symbols (edge ∷ rest) =
    let later = strong_resolved_symbols rest in
    if ge_float edge.confidence confidence_62 then edge.resolved_symbols ++ later else later

abbrev place : CodeSymbol → String
place s = s.file_path <> ":L" <> show s.line_number

-- the reason of a strong resolution
abbrev resolved_reason : List CodeSymbol → List String
resolved_reason [] = []
resolved_reason (target ∷ rest) = ("跨模块解析到 `" <> target.name <> "`（" <> place target <> "）。") ∷ []

abbrev symbol_reason : Option CodeSymbol → List String
symbol_reason none = []
symbol_reason (some s) =
    ("主要落点是 " <> s.kind <> " `" <> s.name <> "`，从 L" <> show s.line_number <> " 开始。") ∷ []

edge_reasons : List CallEdge → List String
unfolding strong_resolved_symbols
edge_reasons [] = []
edge_reasons (edge ∷ rest) =
    ("该位置存在调用链线索：`"
      <> edge.caller
      <> "` -> `"
      <> edge.callee
      <> "` @ L"
      <> show edge.line_number
      <> "。")
    ∷ resolved_reason (strong_resolved_symbols (edge ∷ rest))

abbrev relation_reason : List ImplementRelation → List String
relation_reason [] = []
relation_reason (r ∷ rest) =
    ("存在接口实现关系：`"
      <> r.type_name
      <> "` implements `"
      <> r.interface_name
      <> "` @ L"
      <> show r.line_number
      <> "。")
    ∷ []

abbrev symbol_check : Option CodeSymbol → List String
symbol_check none = []
symbol_check (some s) = ("先从 `" <> s.name <> "` 入手，核对入参、时间范围、uid/tenant 过滤和异常分支。") ∷ []

abbrev edge_check : CallEdge → List CodeSymbol → List String
edge_check edge [] = ("沿 `" <> edge.callee <> "` 调用继续向下查，确认返回值、空值和错误吞掉路径。") ∷ []
edge_check edge (target ∷ rest) =
    ("继续跳到 `" <> target.name <> "`（" <> place target <> "），确认真实实现是否符合预期。") ∷ []

edge_checks : List CallEdge → List String
unfolding strong_resolved_symbols
edge_checks [] = []
edge_checks (edge ∷ rest) = edge_check edge (strong_resolved_symbols (edge ∷ rest))

-- `_follow_up_checks`
unfoldable pub follow_up_checks :
    Option CodeSymbol → List CallEdge → List ImplementRelation → List String
unfolding edge_checks
follow_up_checks primary_symbol call_edges implement_relations = take 5 (
    symbol_check primary_symbol
    ++ edge_checks call_edges
    ++ when (not (is_empty implement_relations)) ("如果是接口调用，优先核对运行时注入的具体实现和配置是否匹配。" ∷ [])
    ++ "最后用 Gateway/DB/日志证据确认线上实际参数和代码假设是否一致。" ∷ [])

module _ ⦃py : Runtime⦄ where
  -- `_suspect_reasons`
  unfoldable pub suspect_reasons :
      List String → Option CodeSymbol → List CallEdge → List ImplementRelation → List String
  unfolding compact ends_with edge_reasons
  suspect_reasons matched_terms primary_symbol call_edges implement_relations =
      let useful_terms =
        filterb (λ t. not (t == "call_graph_context" || t == "interface_implementation_context"))
          matched_terms in
      let compact_terms = map compact useful_terms in
      take 5 (
        when (not (is_empty useful_terms)) (("命中问题关键词：" <> join ", " (take 5 useful_terms)) ∷ [])
        ++ when (any (contains "recommend") compact_terms)
            ("推荐链路相关：重点核对生成条件、日期窗口、uid/tenant 过滤、健康目标和餐食输入是否让推荐被跳过。" ∷ [])
        ++ when (any (contains "fingerprint") compact_terms)
            ("数据指纹相关：需要核对 source_meal_ids、健康目标更新时间和当前指纹是否导致复用或误判。" ∷ [])
        ++ when (any (λ t. ends_with "job" t || "job" == t) compact_terms)
            ("异步任务相关：需要确认定时任务触发、批量过滤、队列去重、失败重试和限流是否影响该用户。" ∷ [])
        ++ symbol_reason primary_symbol
        ++ edge_reasons call_edges
        ++ relation_reason implement_relations)
