-- ===== src/Platform/Advisor.antt =====
-- apps/agent-platform/agent_platform/decision_advisor.py: the advisors that ask a language model for its word
-- on the default proposal. They fill the interface `DecisionAdvisor` of the decision layer.
--
-- The model's client (llm.py) is an interface: whether it is a real model, its names, and its reply
-- to a request, which is a JSON object or the text of an exception.
pub mod Bounds
use ai_troubleshooter.Prelude.{
  String, Bool, true, false, not, ◌||◌, ◌&&◌, Option, none, some, List, [], ◌∷◌, ◌++◌, map, take,
  length, mem, is_empty, strip, or_else, show, nat_eq, take_text, if◌then◌else◌, ◌==◌, ◌<>◌,
}
use ai_troubleshooter.Python.{
  Runtime, Value, Fields, Float, Conversion, null, list, str, get, truthy, or_value, to_list,
  to_text, iterate, type_name, converted, rejected, overflowed, finite, pos, min_float, max_float,
}
use mathlib.Core.Logic.{◌⊎◌, inl, inr}
use ai_troubleshooter.Decision.Models.{
  DecisionRequest, DecisionResponse, AgentReport, ToolPlan, agent_report, zero_confidence,
  confidence_50, confidence_100,
}
use ai_troubleshooter.Decision.Tools.{brief_hypotheses, brief_binding, lookup, plan_arguments}
use ai_troubleshooter.Decision.Verifier.{tool_budget, available_names}
use ai_troubleshooter.Decision.Supervisor.{
  Advice, DecisionAdvisor, no_advice, advised, advice_failed,
}

-- A call of `LlmClient.advise_decision(...).payload`.
pub data Reply : Type 0 where
  payload : Fields → Reply
  raised : String → Reply

pub record LlmClient : Type 0 where
  pub is_real : Bool
  pub provider : String
  pub model : String
  pub advise_decision : DecisionRequest → DecisionResponse → Reply

abbrev allowed_actions : List String
allowed_actions =
    "ask_user" ∷ "answer_from_knowledge" ∷ "invoke_tools" ∷ "need_human" ∷ "local_code_inspection"
    ∷ "skip" ∷ []

abbrev bindings : List (String × String × String)
bindings =
    ("get_health_food_ai_quota", "quota_or_entitlement", "quota/account/membership readonly rows")
    ∷ (
      "get_health_food_user_profile", "user_eligibility",
      "user profile and membership readonly rows",
    )
    ∷ (
      "get_health_food_meal_records", "input_data_completeness",
      "meal record range and fingerprint",
    )
    ∷ (
      "get_health_food_recommendation_status", "recommendation_generation",
      "recommendation status and meal fingerprint",
    )
    ∷ ("search_logs_by_service", "service_error", "bounded log samples from readonly log adapter")
    ∷ ("get_recent_deployments", "recent_change", "recent readonly deployment records")
    ∷ ("get_similar_cases", "similar_case", "similar case ids and summaries")
    ∷ []

-- `_tool_brief_binding` of this file, whose table is the shorter one above
unfoldable pub advisor_binding : String → DecisionRequest → String × String
unfolding brief_binding
advisor_binding tool_name request = elim (brief_binding tool_name (brief_hypotheses request)) [
  | some binding ↦ binding
  | none ↦ lookup bindings tool_name ("readonly_evidence", tool_name <> " readonly evidence")
]

-- `_tool_plan`
unfoldable pub advisor_tool_plan : DecisionRequest → String → String → ToolPlan
unfolding advisor_binding plan_arguments
advisor_tool_plan request reason tool_name =
    let binding = advisor_binding tool_name request in
    record {
      tool_name = tool_name;
      reason = or_else reason ("LLM advisor selected " <> tool_name <> " for " <> binding.0);
      arguments = plan_arguments request;
      hypothesis_id = binding.0;
      expected_evidence = binding.1;
    }

-- `out.append(name)` for a name that is given, available where tools are listed, and new
abbrev choose : List String → List String → String → List String
choose available out name =
    if not (name == "") && (is_empty available || mem name available) && not (mem name out)
    then out ++ name ∷ []
    else out

-- `value if isinstance(value, list) else []`
abbrev raw_items : Value → List Value
raw_items (list xs) = to_list xs
raw_items _ = []

-- `max(0.0, min(confidence, 1.0))`
abbrev pub clamp : Float → Float
clamp c = max_float (finite (pos 0)) (min_float c confidence_100)

-- `float(default or 0.5)`
abbrev pub default_confidence : Float → Float
default_confidence (finite (pos n)) = if nat_eq n 0 then confidence_50 else finite (pos n)
default_confidence f = f

clamp_conversion : Float → Conversion → Float ⊎ String
clamp_conversion default (converted c) = inl (clamp c)
clamp_conversion default (rejected error) = inl (clamp (default_confidence default))
clamp_conversion default (overflowed error) = inr error

skip_with : String → Conversion → Advice
skip_with reason (converted c) =
    advised (record (agent_report "llm_decision_agent" "skip" reason) { confidence = c })
skip_with reason (rejected error) = advice_failed error
skip_with reason (overflowed error) = advice_failed error

module _ ⦃py : Runtime⦄ where
  -- `_safe_action`
  unfoldable pub safe_action : Value → String → String
  unfolding strip or_value to_text
  safe_action value default =
      let action = strip (to_text (or_value value (str (or_else default "need_human")))) in
      if mem action allowed_actions then action else default

  choose_all : List String → List String → List Value → List String
  choose_all available out [] = out
  choose_all available out (item ∷ rest) =
      choose_all available (choose available out (strip (to_text item))) rest

  -- `_selected_tools`
  unfoldable pub selected_tools : Value → DecisionRequest → List String
  unfolding choose_all
  selected_tools value request =
      take (tool_budget request.max_tool_calls)
        (choose_all (available_names request.available_tools) [] (raw_items value))

  -- `_confidence`; an OverflowError is not caught.
  unfoldable pub confidence : Value → Float → Float ⊎ String
  unfolding clamp_conversion
  confidence value default = clamp_conversion default (py.to_float value)

  -- What `evaluate` reports of a payload: the values of the fields that may raise come first.
  abbrev proposal_report :
      LlmClient
      → DecisionResponse
      → Fields
      → String
      → List ToolPlan
      → List Value
      → Float
      → AgentReport
  proposal_report llm default fields action tool_plan missing c = record {
    agent_name = "llm_decision_agent";
    action = action;
    reason = take_text 1000 (to_text (or_value (get fields "reason") (str default.reason)));
    missing_fields = take 5 (map to_text missing);
    tool_plan = tool_plan;
    knowledge_source =
        to_text (or_value (get fields "knowledge_source") (str default.knowledge_source));
    confidence = c;
    observations =
        ("provider=" <> llm.provider)
        ∷ ("model=" <> llm.model)
        ∷ ("default_action=" <> default.action)
        ∷ ("selected_tool_count=" <> show (length tool_plan))
        ∷ [];
    risks =
        "LLM advisor output is advisory only; verifier enforces tool availability and budget" ∷ [];
    evidence = [];
  }

  -- `payload.get("missing_fields") or default_proposal.missing_fields`
  abbrev missing_items : Fields → DecisionResponse → Option (List Value)
  missing_items fields default =
      if truthy (get fields "missing_fields")
      then iterate (get fields "missing_fields")
      else some (map str default.missing_fields)

  propose_with :
      LlmClient
      → DecisionResponse
      → Fields
      → String
      → List ToolPlan
      → Option (List Value)
      → Float ⊎ String
      → Advice
  propose_with llm default fields action tool_plan none c =
      advice_failed ("'" <> type_name (get fields "missing_fields") <> "' object is not iterable")
  propose_with llm default fields action tool_plan (some missing) (inr error) = advice_failed error
  propose_with llm default fields action tool_plan (some missing) (inl c) =
      advised (proposal_report llm default fields action tool_plan missing c)

  unfoldable pub propose : LlmClient → DecisionResponse → Fields → String → List ToolPlan → Advice
  unfolding propose_with
  propose llm default fields action tool_plan =
      propose_with llm default fields action tool_plan (missing_items fields default)
        (confidence (get fields "confidence") default.confidence)

  -- The branch for `action == "skip"`.
  unfoldable pub skip_advice : Fields → Advice
  unfolding skip_with
  skip_advice fields =
      let reason = to_text (
        or_value (get fields "reason") (str "LLM advisor skipped; deterministic proposal kept.")) in
      skip_with reason
        (py.to_float (or_value (get fields "confidence") (Value.float zero_confidence)))

  unfoldable pub advise_payload : LlmClient → DecisionRequest → DecisionResponse → Fields → Advice
  unfolding propose skip_advice
  advise_payload llm request default fields =
      let action = safe_action (get fields "action") default.action in
      let selected =
        selected_tools (or_value (get fields "selected_tools") (get fields "tools")) request in
      let reason = to_text (or_value (get fields "reason") (str default.reason)) in
      let tool_plan = map (advisor_tool_plan request reason) selected in
      if action == "skip"
      then skip_advice fields
      else if action == "invoke_tools" && is_empty tool_plan
      then propose llm default fields default.action default.tool_plan
      else propose llm default fields action tool_plan

  advise_reply : LlmClient → DecisionRequest → DecisionResponse → Reply → Advice
  advise_reply llm request default (raised error) = advice_failed error
  advise_reply llm request default (payload fields) = advise_payload llm request default fields

  -- `LLMDecisionAdvisor.evaluate`
  unfoldable pub evaluate_llm : LlmClient → DecisionRequest → DecisionResponse → Advice
  unfolding advise_payload advise_reply
  evaluate_llm llm request default =
      let reply = llm.advise_decision request default in
      if not llm.is_real then no_advice else advise_reply llm request default reply

-- `report.observations.append(...)` where there is a report
abbrev observe : List String → Advice → Advice
observe notes no_advice = no_advice
observe notes (advised report) =
    advised (record report { observations = report.observations ++ notes })
observe notes (advice_failed error) = advice_failed error

-- What a `RuntimeLLMDecisionAdvisor` is constructed with: the client of a local provider is made anew
-- for each call, so the constructor of the client stands here.
pub record RuntimeAdvisor : Type 0 where
  pub fallback_llm : LlmClient
  pub select_local_provider : String
  pub local_llm : String → LlmClient
  pub fallback_enabled : Bool

module _ ⦃py : Runtime⦄ where
  -- `RuntimeLLMDecisionAdvisor.evaluate`
  unfoldable pub evaluate_runtime : RuntimeAdvisor → DecisionRequest → DecisionResponse → Advice
  unfolding evaluate_llm
  evaluate_runtime advisor request default =
      let provider = advisor.select_local_provider in
      if not (provider == "")
      then observe
          ("decision_llm_source=enabled_local_agent" ∷ ("local_provider=" <> provider) ∷ [])
          (evaluate_llm (advisor.local_llm provider) request default)
      else if advisor.fallback_enabled && advisor.fallback_llm.is_real
      then observe ("decision_llm_source=configured_platform_llm" ∷ [])
          (evaluate_llm advisor.fallback_llm request default)
      else no_advice

  -- The advisor as the supervisor takes it.
  abbrev pub runtime_advisor : RuntimeAdvisor → DecisionAdvisor
  runtime_advisor advisor = record {
    name = "llm_decision_agent";
    evaluate = λ request reports default. evaluate_runtime advisor request default;
  }
