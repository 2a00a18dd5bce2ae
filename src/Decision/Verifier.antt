-- ===== src/Decision/Verifier.antt =====
-- apps/decision-engine/decision_engine/agent_team.py: the class `Verifier`, which every proposal
-- passes before it leaves the decision layer. Its theorems stand in the child modules.
pub mod Normalize
pub mod Safety
use ai_troubleshooter.Prelude.{
  ℕ, zero, suc, ◌+◌, String, Bool, true, false, not, ◌&&◌, ◌||◌, Option, none, some, List, [], ◌∷◌,
  ◌++◌, map, leb, ltb, min, max, length, mem, filterb, is_empty, strip, if◌then◌else◌, ◌==◌, ◌<>◌,
}
use ai_troubleshooter.Python.{ℤ, pos, negsuc}
use ai_troubleshooter.Decision.Models.{
  DecisionRequest, ToolSpec, ToolPlan, AgentReport, DecisionResponse, confidence_38,
}

-- `max(1, min(max_tool_calls, 10))`
unfoldable pub tool_budget : ℤ → ℕ
tool_budget (pos n) = max 1 (min n 10)
tool_budget (negsuc n) = 1

-- `{tool.name for tool in request.available_tools if tool.name}`
unfoldable pub available_names : List ToolSpec → List String
available_names tools = filterb (λ name. not (name == "")) (map (λ tool. tool.name) tools)

-- `not str(value or "").strip()`
unfoldable pub is_blank : String → Bool
is_blank value = strip value == ""

-- What the loop of `_normalize_tool_plan` holds. `seen` is the set of the names in `normalized`.
pub record Loop : Type 0 where
  pub normalized : List ToolPlan
  pub seen : List String
  pub violations : List String

-- The first objection of the loop's body to an item, in the order of the tests.
unfoldable pub objection : List String → List String → ToolPlan → Option String
unfolding is_blank
objection available seen item =
    if item.tool_name == ""
    then some "empty_tool_name"
    else if mem item.tool_name seen
    then some ("duplicate_tool=" <> item.tool_name)
    else if not (is_empty available) && not (mem item.tool_name available)
    then some ("unavailable_tool=" <> item.tool_name)
    else if is_blank item.reason
    then some ("missing_tool_reason=" <> item.tool_name)
    else if is_blank item.hypothesis_id
    then some ("missing_tool_hypothesis=" <> item.tool_name)
    else if is_blank item.expected_evidence
    then some ("missing_expected_evidence=" <> item.tool_name)
    else none

-- An objection is recorded and the item skipped (`continue`).
abbrev object : Loop → String → Loop
object s what = record s { violations = s.violations ++ what ∷ [] }

-- `seen.add(...)` and `normalized.append(item)`
abbrev accept : Loop → ToolPlan → Loop
accept s item = record s { normalized = s.normalized ++ item ∷ []; seen = item.tool_name ∷ s.seen }

-- The loop over the items. `total` is `len(tool_plan)`; the loop breaks when the budget is reached.
unfoldable pub normalize_from : List String → ℕ → ℕ → List ToolPlan → Loop → Loop
normalize_from available budget total [] s = s
normalize_from available budget total (item ∷ rest) s = elim (objection available s.seen item) [
  | some what ↦ normalize_from available budget total rest (object s what)
  | none ↦ elim (leb budget (length (accept s item).normalized)) [
    | true ↦
        if ltb budget total
        then object (accept s item) "tool_plan_truncated_by_budget"
        else accept s item
    | false ↦ normalize_from available budget total rest (accept s item)
  ]
]

unfoldable pub normalize_tool_plan : DecisionRequest → List ToolPlan → ℕ → Loop
unfolding normalize_from available_names
normalize_tool_plan request tool_plan budget =
    normalize_from (available_names request.available_tools) budget (length tool_plan) tool_plan
      (record { normalized = []; seen = []; violations = [] })

abbrev pub base_checks : DecisionRequest → List String
base_checks request =
    "tool_budget_bounded"
    ∷ "gateway_only_tools"
    ∷ "dedupe_tool_plan"
    ∷ "brief_bound_tool_plan"
    ∷ (if is_empty request.context_ledger then [] else "context_ledger_snapshot_loaded" ∷ [])

-- The branches that drop the tool plan and accept the proposal.
abbrev pub without_tools :
    DecisionResponse → List AgentReport → String → List String → ℕ → DecisionResponse
without_tools proposal agent_reports reason checks budget = record proposal {
  tool_plan = [];
  agent_reports = agent_reports;
  verification = some (record {
    accepted = true;
    reason = reason;
    checks = checks;
    violations = [];
    tool_budget = budget;
    tool_count = 0;
  });
}

-- `_need_human`: the answer in place of a proposal that did not pass
unfoldable pub need_human : List AgentReport → ℕ → List String → List String → DecisionResponse
need_human agent_reports budget checks violations = record {
  action = "need_human";
  reason = "Verifier 未能确认安全可执行的工具计划，需要人工介入或补充 Gateway 能力。";
  missing_fields = [];
  tool_plan = [];
  knowledge_source = "";
  confidence = confidence_38;
  agent_reports = agent_reports;
  verification = some (record {
    accepted = false;
    reason = "工具计划未通过 verifier。";
    checks = checks;
    violations = violations;
    tool_budget = budget;
    tool_count = 0;
  });
}

-- The branch of `verify` for `invoke_tools`, on the result of the loop.
unfoldable pub verify_tools :
    DecisionRequest → DecisionResponse → List AgentReport → Loop → DecisionResponse
unfolding need_human tool_budget
verify_tools request proposal agent_reports s =
    let budget = tool_budget request.max_tool_calls in
    if is_empty s.normalized
    then need_human agent_reports budget (base_checks request)
        (s.violations ++ "no_verified_tool_plan" ∷ [])
    else record proposal {
      tool_plan = s.normalized;
      agent_reports = agent_reports;
      verification = some (record {
        accepted = true;
        reason = "工具计划通过预算、去重和可用工具校验。";
        checks = base_checks request;
        violations = s.violations;
        tool_budget = budget;
        tool_count = length s.normalized;
      });
    }

unfoldable pub verify : DecisionRequest → DecisionResponse → List AgentReport → DecisionResponse
unfolding verify_tools
verify request proposal agent_reports =
    let budget = tool_budget request.max_tool_calls in
    let checks = base_checks request in
    if proposal.action == "ask_user"
    then without_tools proposal agent_reports "缺字段追问不允许带工具调用计划。"
        (checks ++ "ask_user_has_no_tool_plan" ∷ []) budget
    else if proposal.action == "answer_from_knowledge"
    then (if proposal.knowledge_source == ""
        then need_human agent_reports budget checks ("knowledge_source_required" ∷ [])
        else without_tools proposal agent_reports "高置信经验直答已通过来源校验，且不调用工具。"
            (checks ++ "knowledge_source_present" ∷ "answer_has_no_tool_plan" ∷ []) budget)
    else if proposal.action == "invoke_tools"
    then verify_tools request proposal agent_reports
        (normalize_tool_plan request proposal.tool_plan budget)
    else if proposal.action == "need_human"
    then without_tools proposal agent_reports "无需工具调用，转人工确认。" checks budget
    else if proposal.action == "local_code_inspection"
    then without_tools proposal agent_reports "本地代码检查已通过 debug-only、无工具调用和 allowlist 约束。"
        (checks
          ++ "debug_local_code_explicit" ∷ "local_repo_allowlist" ∷ "bounded_code_excerpt"
            ∷ "secret_line_masking" ∷ [])
        budget
    else need_human agent_reports budget checks (("unsupported_action=" <> proposal.action) ∷ [])
