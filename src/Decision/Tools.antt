-- ===== src/Decision/Tools.antt =====
-- apps/decision-engine/decision_engine/agent_team.py: the tables of required fields and default tools,
-- and the methods of `SupervisorAgentTeam` that the specialists share: `missing_fields`,
-- `select_tools` and `build_tool_plan`, with the helpers that read the brief.
pub mod Select
pub mod Required
pub mod Binding
use ai_troubleshooter.Prelude.{
  ℕ, String, Bool, true, false, not, ◌&&◌, ◌||◌, Option, none, some, List, [], ◌∷◌, ◌++◌, map, any,
  filterb, take, is_empty, mem, strip, contains_any, join, or_else, if◌then◌else◌, ◌==◌, ◌<>◌,
}
use ai_troubleshooter.Python.{Runtime}
use ai_troubleshooter.Decision.Models.{
  Entities, DecisionRequest, Hypothesis, ToolPlan, entity, has_key,
}
use ai_troubleshooter.Decision.Intake.{values}
use ai_troubleshooter.Decision.Verifier.{tool_budget, available_names}

-- `REQUIRED_FIELDS_BY_DOMAIN.get(domain, ())`
unfoldable pub required_fields : String → List String
required_fields domain =
    if domain == "kline"
    then "symbol" ∷ "interval" ∷ "abnormal_time" ∷ "issue_type" ∷ []
    else if domain == "asset"
    then "asset_symbol" ∷ "abnormal_time" ∷ "issue_type" ∷ []
    else if domain == "health_food"
    then "issue_type" ∷ []
    else []

-- `DEFAULT_TOOLS_BY_DOMAIN.get(domain, DEFAULT_TOOLS_BY_DOMAIN["default"])`
unfoldable pub default_tools : String → List String
default_tools domain =
    if domain == "kline"
    then "get_internal_kline" ∷ "get_external_kline_compare" ∷ "get_kline_cache_status"
      ∷ "get_market_source_status" ∷ "get_similar_cases" ∷ []
    else if domain == "asset"
    then "get_asset_snapshot" ∷ "get_asset_events" ∷ "get_user_recent_errors" ∷ "get_similar_cases"
      ∷ []
    else if domain == "health_food"
    then "get_health_food_user_profile" ∷ "get_health_food_ai_quota"
      ∷ "get_health_food_meal_records" ∷ "get_health_food_recommendation_status"
      ∷ "search_logs_by_service" ∷ "get_similar_cases" ∷ []
    else "search_logs_by_service" ∷ "get_recent_deployments" ∷ "get_similar_cases" ∷ []

-- `domain or request.case.issue_domain or "default"`; an argument that is left out is "".
abbrev pub selected_domain : DecisionRequest → String → String
selected_domain request domain = or_else domain (or_else request.case.issue_domain "default")

-- `not request.entities.get(key)`
abbrev pub lacks : DecisionRequest → String → Bool
lacks request key = entity request.entities key == ""

unfoldable pub missing_fields : DecisionRequest → String → List String
unfolding required_fields
missing_fields request domain =
    let selected = selected_domain request domain in
    let missing = filterb (lacks request) (required_fields selected) in
    let with_account =
      if selected == "asset" && lacks request "user_id" && lacks request "account_id"
      then "user_id_or_account_id" ∷ missing
      else missing in
    if selected == "health_food" && lacks request "user_id" && lacks request "uid"
    then "user_id_or_uid" ∷ with_account
    else with_account

-- `out` after the names of `more` that are new and, if asked for, not empty
unfoldable pub add_new : List String → List String → List String
add_new out [] = out
add_new out (name ∷ more) =
    add_new (if name == "" || mem name out then out else out ++ name ∷ []) more

-- The candidate tools of the hypotheses, in their order, each once.
unfoldable pub candidates : List String → List Hypothesis → List String
unfolding add_new strip
candidates out [] = out
candidates out (h ∷ rest) = candidates (add_new out (map strip h.candidate_tools)) rest

-- `out` after the names of `more` that are new
unfoldable pub add_absent : List String → List String → List String
add_absent out [] = out
add_absent out (name ∷ more) = add_absent (if mem name out then out else out ++ name ∷ []) more

unfoldable pub brief_preferred_tools : DecisionRequest → List String → List String
unfolding candidates add_absent
brief_preferred_tools request fallback = elim request.investigation_brief [
  | none ↦ fallback
  | some brief ↦ add_absent (candidates [] brief.hypotheses) fallback
]

module _ ⦃py : Runtime⦄ where
  abbrev health_food_text : DecisionRequest → String
  health_food_text request = py.lower (
      join " " (
        request.case.issue_type
        ∷ request.case.original_text
        ∷ request.case.ocr_text
        ∷ join " " (values request.entities)
        ∷ []))

  unfoldable pub health_food_priority : DecisionRequest → List String
  unfolding join contains_any
  health_food_priority request =
      let text = health_food_text request in
      if contains_any ("token" ∷ "quota" ∷ "配额" ∷ "消耗" ∷ "次数" ∷ []) text
      then "get_health_food_ai_quota" ∷ "get_health_food_user_profile" ∷ "search_logs_by_service"
        ∷ "get_similar_cases" ∷ []
      else if contains_any ("推荐" ∷ "餐食" ∷ "meal" ∷ "food" ∷ []) text
      then "get_health_food_recommendation_status" ∷ "get_health_food_meal_records"
        ∷ "get_health_food_user_profile" ∷ "search_logs_by_service" ∷ "get_similar_cases" ∷ []
      else []

  unfoldable pub health_food_preferred_tools : DecisionRequest → List String → List String
  unfolding health_food_priority
  health_food_preferred_tools request fallback =
      add_new [] (health_food_priority request ++ fallback)

  unfoldable pub select_tools : DecisionRequest → String → List String
  select_tools request domain =
      let selected = selected_domain request domain in
      let preferred = brief_preferred_tools request (default_tools selected) in
      let ordered =
        if selected == "health_food"
        then health_food_preferred_tools request preferred
        else preferred in
      let available = available_names request.available_tools in
      let usable =
        if is_empty available then ordered else filterb (λ name. mem name available) ordered in
      take (tool_budget request.max_tool_calls) usable

abbrev pub lookup : List (String × String × String) → String → String × String → String × String
lookup [] key default = default
lookup ((k, a, b) ∷ rest) key default = if k == key then (a, b) else lookup rest key default

abbrev pub tool_bindings : List (String × String × String)
tool_bindings =
    ("get_health_food_ai_quota", "quota_or_entitlement", "quota/account/membership readonly rows")
    ∷ (
      "get_health_food_user_profile", "user_eligibility",
      "user profile and membership readonly rows",
    )
    ∷ (
      "get_health_food_meal_records", "input_data_completeness",
      "meal record range and fingerprint",
    )
    ∷ (
      "get_health_food_recommendation_status", "recommendation_generation",
      "recommendation status and meal fingerprint",
    )
    ∷ ("search_logs_by_service", "service_error", "bounded log samples from readonly log adapter")
    ∷ ("get_recent_deployments", "recent_change", "recent readonly deployment records")
    ∷ ("get_similar_cases", "similar_case", "similar case ids and summaries")
    ∷ ("get_asset_snapshot", "asset_snapshot", "asset snapshot readonly rows")
    ∷ ("get_asset_events", "asset_event_stream", "asset event readonly rows")
    ∷ ("get_user_recent_errors", "user_error_stream", "bounded user error samples")
    ∷ ("get_internal_kline", "internal_market_data", "internal kline readonly data")
    ∷ ("get_external_kline_compare", "external_market_compare", "external kline comparison")
    ∷ ("get_kline_cache_status", "cache_freshness", "cache status readonly data")
    ∷ ("get_market_source_status", "market_source_health", "market source status")
    ∷ []

-- The hypothesis and the expected evidence of the first hypothesis that names the tool.
unfoldable pub brief_binding : String → List Hypothesis → Option (String × String)
brief_binding tool_name [] = none
brief_binding tool_name (h ∷ rest) =
    let later = brief_binding tool_name rest in
    if mem tool_name h.candidate_tools
    then some (
      or_else h.id "brief_hypothesis",
      or_else h.expected_evidence (tool_name <> " readonly evidence"),
    )
    else later

abbrev pub brief_hypotheses : DecisionRequest → List Hypothesis
brief_hypotheses request = elim request.investigation_brief [
  | none ↦ []
  | some brief ↦ brief.hypotheses
]

unfoldable pub tool_brief_binding : String → DecisionRequest → String × String
unfolding brief_binding
tool_brief_binding tool_name request = elim (brief_binding tool_name (brief_hypotheses request)) [
  | some binding ↦ binding
  | none ↦ lookup tool_bindings tool_name ("readonly_evidence", tool_name <> " readonly evidence")
]

-- `args = dict(request.entities)` and `args.setdefault("case_no", ...)`
unfoldable pub plan_arguments : DecisionRequest → Entities
plan_arguments request =
    if request.case.case_no == "" || has_key request.entities "case_no"
    then request.entities
    else request.entities ++ ("case_no", request.case.case_no) ∷ []

unfoldable pub build_tool_plan : DecisionRequest → String → ToolPlan
unfolding tool_brief_binding plan_arguments
build_tool_plan request tool_name =
    let binding = tool_brief_binding tool_name request in
    record {
      tool_name = tool_name;
      reason = "查询 " <> tool_name <> " 验证假设 " <> binding.0 <> "，调用必须经过 Investigation Gateway。";
      arguments = plan_arguments request;
      hypothesis_id = binding.0;
      expected_evidence = binding.1;
    }
