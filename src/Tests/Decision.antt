-- ===== src/Tests/Decision.antt =====
-- Requests to the decision layer.
use ai_troubleshooter.Prelude.{
  ℕ, String, true, false, none, some, List, [], ◌∷◌, take, length, arith, is_empty, is_space, strip,
  contains, All, ◌≡◌, refl, ◌≤◌, filterb, ◌&&◌, ◌||◌, if◌then◌else◌,
}
use mathlib.Core.List.{Mem}
use ai_troubleshooter.Python.{pos, finite, double}
use ai_troubleshooter.Decision.Models.{
  CaseSnapshot, ToolSpec, KnowledgeCandidate, DecisionRequest, ToolPlan, AgentReport,
  DecisionResponse, Entities, agent_report, entity,
}
use ai_troubleshooter.Decision.Intake.{needs_problem_description, request_requires_realtime}
use ai_troubleshooter.Decision.Knowledge.{
  evaluate_knowledge, best_knowledge, lt_key, is_reusable, insert,
}
use ai_troubleshooter.Decision.Knowledge.Best.{MeetsGate, best_knowledge-IsBest}
use ai_troubleshooter.Decision.LocalCode.{LocalCodeInspector, should_run}
use ai_troubleshooter.Decision.Tools.{
  missing_fields, select_tools, default_tools, brief_preferred_tools,
}
use ai_troubleshooter.Decision.Tools.Select.{IsSelection, select_tools-IsSelection}
use ai_troubleshooter.Decision.Tools.Required.{has, is_empty-missing_fields}
use ai_troubleshooter.Decision.Verifier.{
  tool_budget, available_names, is_blank, objection, normalize_tool_plan, verify,
}
use ai_troubleshooter.Decision.Verifier.Normalize.{
  is_valid, firsts, names, IsClean, normalize_tool_plan-eq, normalize_tool_plan-clean,
}
use ai_troubleshooter.Decision.Verifier.Safety.{IsSafe, verify-IsSafe}
use ai_troubleshooter.Decision.Supervisor.{Team, DecisionAdvisor, advised, plan}
use ai_troubleshooter.Decision.Supervisor.Safety.{plan-IsSafe}
use ai_troubleshooter.Decision.Supervisor.Routing.{
  kline, verdict, IsRouted, plan-calls, plan-advised_despite_missing,
}
use ai_troubleshooter.Decision.Supervisor.Actions.{required_given, plan-action}
use ai_troubleshooter.Tests.{ascii}

abbrev snapshot : String → String → CaseSnapshot
snapshot domain text = record {
  case_no = "C-1";
  issue_domain = domain;
  issue_type = "";
  original_text = text;
  ocr_text = "";
  source = "web";
  uid = "";
  reporter_user_id = "";
  chat_id = "";
}

abbrev tool : String → ToolSpec
tool name = record {
  name = name;
  required_scope = "";
  max_time_range_minutes = pos 0;
  max_limit = pos 0;
}

abbrev request_of : String → Entities → List KnowledgeCandidate → DecisionRequest
request_of domain entities knowledge = record {
  case = snapshot domain "price is wrong";
  entities = entities;
  available_tools = tool "get_similar_cases" ∷ tool "get_internal_kline" ∷ tool "" ∷ [];
  knowledge_candidates = knowledge;
  context_ledger = [];
  investigation_brief = none;
  max_tool_calls = pos 4;
}

abbrev given : Entities
given =
    ("symbol", "BTCUSDT")
    ∷ ("interval", "1m")
    ∷ ("abnormal_time", "10:00")
    ∷ ("issue_type", "price_mismatch")
    ∷ []

abbrev pub full_request : DecisionRequest
full_request = request_of "kline" given []

abbrev poor_request : DecisionRequest
poor_request = request_of "kline" [] []

abbrev candidate : ℕ → ℕ → KnowledgeCandidate
candidate hundredths count = record {
  title = "quota";
  confidence = double hundredths 7;
  observed_case_count = pos count;
  requires_realtime_check = false;
  source = "knowledge:1";
  summary = "";
}

abbrev known_request : DecisionRequest
known_request = request_of "kline" given (candidate 100 9 ∷ candidate 120 2 ∷ [])

abbrev inspector : LocalCodeInspector
inspector = record {
  inspect = λ service text hint. record {
    service_name = service;
    repo_id = hint;
    status = "no_match";
    summary = "";
    evidence = [];
    skipped_denied_files = 0;
    scanned_files = 0;
    symbol_count = 0;
    call_edge_count = 0;
    resolved_call_edge_count = 0;
    implement_relation_count = 0;
    analysis_modes = [];
    analysis_backends = [];
    risks = [];
  };
}

abbrev planned : String → ToolPlan
planned name = record {
  tool_name = name;
  reason = "look";
  arguments = [];
  hypothesis_id = "h";
  expected_evidence = "rows";
}

abbrev advice : AgentReport
advice = record (agent_report "llm_decision_agent" "invoke_tools" "look") {
  tool_plan = planned "get_internal_kline" ∷ [];
}

abbrev advisor : DecisionAdvisor
advisor = record { name = "llm_decision_agent"; evaluate = λ _ _ _. advised advice }

abbrev pub alone : Team
alone = record { inspector = inspector; decision_advisor = none }

abbrev advised_team : Team
advised_team = record { inspector = inspector; decision_advisor = some advisor }

abbrev pub proposal : DecisionResponse
proposal = record {
  action = "invoke_tools";
  reason = "";
  missing_fields = [];
  tool_plan =
      planned "get_internal_kline"
      ∷ planned "get_internal_kline"
      ∷ planned "drop_table"
      ∷ planned "get_similar_cases"
      ∷ [];
  knowledge_source = "";
  confidence = finite (pos 0);
  agent_reports = [];
  verification = none;
}

normalize_tool_plan-eq_example :
    (normalize_tool_plan full_request proposal.tool_plan 4).normalized
    ≡ take 4 (
        firsts []
          (filterb (is_valid (available_names full_request.available_tools)) proposal.tool_plan))
normalize_tool_plan-eq_example =
    normalize_tool_plan-eq full_request proposal.tool_plan 4 (omega arith)

normalize_runs :
    names (normalize_tool_plan full_request proposal.tool_plan 4).normalized
    ≡ "get_internal_kline" ∷ "get_similar_cases" ∷ []
unfolding normalize_tool_plan objection is_blank strip is_space
normalize_runs = refl

two-IsClean :
    IsClean
      (available_names full_request.available_tools)
      (planned "get_internal_kline" ∷ planned "get_similar_cases" ∷ [])
unfolding available_names is_valid is_blank strip is_space
two-IsClean = record { valid = (refl, (refl, tt)); distinct = (refl, (refl, tt)) }

normalize_tool_plan-clean_example :
    ((normalize_tool_plan full_request
        (planned "get_internal_kline" ∷ planned "get_similar_cases" ∷ [])
        2).normalized
      ≡ planned "get_internal_kline" ∷ planned "get_similar_cases" ∷ [])
    × ((normalize_tool_plan full_request
          (planned "get_internal_kline" ∷ planned "get_similar_cases" ∷ [])
          2).violations
        ≡ [])
normalize_tool_plan-clean_example =
    normalize_tool_plan-clean full_request
      (planned "get_internal_kline" ∷ planned "get_similar_cases" ∷ []) 2 (omega arith)
      (omega arith) two-IsClean

verify-IsSafe_example : IsSafe full_request (verify full_request proposal [])
verify-IsSafe_example = verify-IsSafe full_request [] proposal

plan-IsSafe_example : IsSafe full_request (plan advised_team full_request)
plan-IsSafe_example = plan-IsSafe ⦃py = ascii⦄ advised_team full_request

select_tools-IsSelection_example : IsSelection full_request (select_tools full_request "kline")
select_tools-IsSelection_example = select_tools-IsSelection ⦃py = ascii⦄ full_request "kline"

is_empty-missing_fields_example :
    (is_empty (missing_fields poor_request "kline") ≡ (
      has poor_request "symbol"
      && has poor_request "interval"
      && has poor_request "abnormal_time"
      && has poor_request "issue_type"))
    × (is_empty (missing_fields poor_request "asset") ≡ (
        has poor_request "asset_symbol"
        && has poor_request "abnormal_time"
        && has poor_request "issue_type"
        && (has poor_request "user_id" || has poor_request "account_id")))
    × (is_empty (missing_fields poor_request "health_food")
        ≡ (has poor_request "issue_type" && (has poor_request "user_id" || has poor_request "uid")))
is_empty-missing_fields_example = is_empty-missing_fields poor_request

best_runs : best_knowledge known_request ≡ some (candidate 120 2)
unfolding best_knowledge request_requires_realtime lt_key is_reusable insert contains
best_runs = refl

best_knowledge-IsBest_example :
    Mem (candidate 120 2) known_request.knowledge_candidates
    × All (λ c. lt_key (candidate 120 2) c ≡ false) known_request.knowledge_candidates
    × MeetsGate (candidate 120 2)
    × (request_requires_realtime known_request ≡ false)
best_knowledge-IsBest_example =
    best_knowledge-IsBest ⦃py = ascii⦄ known_request (candidate 120 2) (refl, (refl, tt)) best_runs

full-IsRouted : IsRouted full_request
unfolding needs_problem_description evaluate_knowledge best_knowledge should_run entity
full-IsRouted = record { clear = refl; unknown = refl; normal = refl }

poor-IsRouted : IsRouted poor_request
unfolding needs_problem_description evaluate_knowledge best_knowledge should_run entity
poor-IsRouted = record { clear = refl; unknown = refl; normal = refl }

poor_missing : is_empty (missing_fields poor_request "kline") ≡ false
unfolding missing_fields entity
poor_missing = refl

full_given : is_empty (missing_fields full_request "kline") ≡ true
unfolding missing_fields entity
full_given = refl

full_selected : is_empty (select_tools full_request "kline") ≡ false
unfolding select_tools default_tools brief_preferred_tools available_names tool_budget
full_selected = refl

plan-calls_example :
    ((plan alone full_request).action ≡ "invoke_tools")
    × (names (plan alone full_request).tool_plan ≡ select_tools full_request "kline")
    × (verdict (plan alone full_request) ≡ [])
plan-calls_example =
    plan-calls ⦃py = ascii⦄ kline full_request full-IsRouted refl inspector tt full_given
      full_selected

plan-action_example : (plan alone poor_request).action ≡ (
    if required_given kline poor_request
    then if is_empty (select_tools poor_request "kline") then "need_human" else "invoke_tools"
    else "ask_user")
plan-action_example = plan-action ⦃py = ascii⦄ kline poor_request poor-IsRouted refl inspector tt

advice_fits : length advice.tool_plan ≤ tool_budget poor_request.max_tool_calls
unfolding tool_budget
advice_fits = omega arith

advice-IsClean : IsClean (available_names poor_request.available_tools) advice.tool_plan
unfolding available_names is_valid is_blank strip is_space
advice-IsClean = record { valid = (refl, tt); distinct = (refl, tt) }

plan-advised_despite_missing_example :
    ((plan alone poor_request).tool_plan ≡ [])
    × ((plan advised_team poor_request).tool_plan ≡ planned "get_internal_kline" ∷ [])
plan-advised_despite_missing_example =
    plan-advised_despite_missing ⦃py = ascii⦄ kline inspector advisor poor_request advice
      poor-IsRouted refl poor_missing (λ _ _. refl) refl refl advice_fits advice-IsClean
