-- ===== src/Decision/Supervisor.antt =====
-- apps/decision-engine/decision_engine/agent_team.py: the specialists `DomainAgent` and `FallbackAgent`, and
-- `SupervisorAgentTeam.plan`, which `DecisionEngine.plan` of engine.py calls.
pub mod Safety
pub mod Routing
pub mod Actions
use ai_troubleshooter.Prelude.{
  ℕ, String, Bool, true, false, not, ◌&&◌, ◌||◌, Option, none, some, List, [], ◌∷◌, ◌++◌, map, take,
  length, is_empty, show, or_else, if◌then◌else◌, ◌==◌, ◌<>◌, ◌≡◌, refl,
}
use ai_troubleshooter.Python.{Runtime}
use ai_troubleshooter.Decision.Models.{
  DecisionRequest, AgentReport, DecisionResponse, agent_report, confidence_40, confidence_60,
  confidence_62, confidence_72,
}
use ai_troubleshooter.Decision.Intake.{needs_problem_description}
use ai_troubleshooter.Decision.Knowledge.{evaluate_knowledge}
use ai_troubleshooter.Decision.Tools.{
  missing_fields, select_tools, build_tool_plan, brief_hypotheses,
}
use ai_troubleshooter.Decision.LocalCode.{LocalCodeInspector, should_run, evaluate_local_code}
use ai_troubleshooter.Decision.Verifier.{verify}

-- A call of `DecisionAdvisor.evaluate`: a report, `None`, or the text of an exception.
pub data Advice : Type 0 where
  no_advice : Advice
  advised : AgentReport → Advice
  advice_failed : String → Advice

-- The interface `DecisionAdvisor`.
pub record DecisionAdvisor : Type 0 where
  pub name : String
  pub evaluate : DecisionRequest → List AgentReport → DecisionResponse → Advice

-- What a `SupervisorAgentTeam` is constructed with.
pub record Team : Type 0 where
  pub inspector : LocalCodeInspector
  pub decision_advisor : Option DecisionAdvisor

module _ ⦃py : Runtime⦄ where
  -- `DomainAgent(domain, name).evaluate`
  unfoldable pub evaluate_domain : String → String → DecisionRequest → AgentReport
  evaluate_domain domain name request =
      let missing = missing_fields request domain in
      let selected = select_tools request domain in
      if not (is_empty missing)
      then record (agent_report name "ask_user" (domain <> " 排障必要字段不足，先追问再查询下游只读工具。")) {
        missing_fields = take 3 missing;
        confidence = confidence_60;
        risks = "缺字段时不允许调用生产只读工具" ∷ [];
      }
      else if is_empty selected
      then record (agent_report name "need_human"
          (domain <> " 没有可用的 Gateway 只读工具，不能绕过 Gateway 直接查询。")) {
            confidence = confidence_40;
            risks = "no_available_gateway_tool" ∷ [];
          }
      else record (agent_report name "invoke_tools" (domain <> " 字段已满足最小排障条件，生成有限只读工具计划。")) {
        tool_plan = map (build_tool_plan request) selected;
        confidence = confidence_72;
        observations = ("tool_count=" <> show (length selected)) ∷ [];
      }

  -- `FallbackAgent.evaluate`
  unfoldable pub evaluate_fallback : DecisionRequest → AgentReport
  evaluate_fallback request =
      let selected = select_tools request "default" in
      if is_empty selected
      then record (agent_report "fallback_agent" "need_human" "当前问题域没有 specialist，且没有可用的通用只读工具。") {
        confidence = confidence_40;
        risks = "unsupported_domain" ∷ "no_available_gateway_tool" ∷ [];
      }
      else record (agent_report "fallback_agent" "invoke_tools"
          "当前问题域没有专属 specialist，先按通用日志、发布记录和相似 case 做有限排查。") {
            tool_plan = map (build_tool_plan request) selected;
            confidence = confidence_62;
            observations =
                ("issue_domain=" <> or_else request.case.issue_domain "default")
                ∷ ("tool_count=" <> show (length selected))
                ∷ [];
          }

  -- `_select_specialist(domain).evaluate(request, self)`
  unfoldable pub evaluate_specialist : DecisionRequest → AgentReport
  unfolding evaluate_domain evaluate_fallback
  evaluate_specialist request =
      let domain = request.case.issue_domain in
      if domain == "kline"
      then evaluate_domain "kline" "kline_agent" request
      else if domain == "asset"
      then evaluate_domain "asset" "asset_agent" request
      else if domain == "health_food"
      then evaluate_domain "health_food" "health_food_agent" request
      else evaluate_fallback request

unfoldable pub response_from_report : AgentReport → DecisionResponse
response_from_report report = record {
  action = report.action;
  reason = report.reason;
  missing_fields = report.missing_fields;
  tool_plan = report.tool_plan;
  knowledge_source = report.knowledge_source;
  confidence = report.confidence;
  agent_reports = [];
  verification = none;
}

-- `_advisor_report`: a failing advisor is reported as skipping.
unfoldable pub advisor_report :
    Option DecisionAdvisor
    → DecisionRequest
    → List AgentReport
    → DecisionResponse
    → Option AgentReport
advisor_report none request reports proposal = none
advisor_report (some advisor) request reports proposal =
    elim (advisor.evaluate request reports proposal) [
      | no_advice ↦ none
      | advised report ↦ some report
      | advice_failed error ↦
          some
            (record (agent_report advisor.name "skip"
              ("LLM decision advisor failed, deterministic proposal kept: " <> error)) {
                risks = "llm_decision_advisor_failed" ∷ [];
              })
    ]

abbrev supervisor_report : DecisionRequest → AgentReport
supervisor_report request =
    record (agent_report "supervisor" "route"
      "Supervisor 保持短上下文，只读取 case snapshot、context ledger 摘要和 specialist 报告，最终输出经过 Verifier。") {
        observations =
            ("issue_domain=" <> or_else request.case.issue_domain "default")
            ∷ ("context_ledger_items=" <> show (length request.context_ledger))
            ∷ ("brief_goal="
                <> elim request.investigation_brief [ none ↦ "" | some brief ↦ brief.goal ])
            ∷ ("brief_hypotheses=" <> show (length (brief_hypotheses request)))
            ∷ [];
      }

abbrev intake_report : AgentReport
intake_report =
    record (agent_report "intake_agent" "ask_user" "当前输入缺少可排障的问题现象或业务线索，不能命中平台经验或调用下游服务。") {
      missing_fields = "problem_description" ∷ [];
      confidence = confidence_72;
      observations = "low_signal_input=true" ∷ "skip_knowledge_and_tool_invocation=true" ∷ [];
      risks = "avoid_fake_answer_for_greeting_or_chitchat" ∷ [];
    }

-- The proposal behind an advisor's report: the advisor's, unless it has none or skips.
unfoldable pub advised_proposal : DecisionResponse → Option AgentReport → DecisionResponse
unfolding response_from_report
advised_proposal proposal none = proposal
advised_proposal proposal (some report) =
    if report.action == "skip" then proposal else response_from_report report

abbrev advised_reports : List AgentReport → Option AgentReport → List AgentReport
advised_reports reports none = reports
advised_reports reports (some report) = reports ++ report ∷ []

module _ ⦃py : Runtime⦄ where
  -- The last part of `plan`: the specialist's proposal, and the advisor's word on it.
  unfoldable pub plan_specialist : Team → DecisionRequest → List AgentReport → DecisionResponse
  unfolding evaluate_specialist advisor_report advised_proposal
  plan_specialist team request before =
      let specialist_report = evaluate_specialist request in
      let reports = before ++ specialist_report ∷ [] in
      let proposal = response_from_report specialist_report in
      let advice = advisor_report team.decision_advisor request reports proposal in
      verify request (advised_proposal proposal advice) (advised_reports reports advice)

  unfoldable pub plan : Team → DecisionRequest → DecisionResponse
  unfolding plan_specialist response_from_report
  plan team request =
      let reports = supervisor_report request ∷ [] in
      if needs_problem_description request
      then verify request (response_from_report intake_report) (reports ++ intake_report ∷ [])
      else (let knowledge_report = evaluate_knowledge request in
          let informed = reports ++ knowledge_report ∷ [] in
          if knowledge_report.action == "answer_from_knowledge"
          then verify request
              (record (response_from_report
                (agent_report "" "answer_from_knowledge" knowledge_report.reason)) {
                  knowledge_source = knowledge_report.knowledge_source;
                  confidence = knowledge_report.confidence;
                })
              informed
          else if should_run request
          then (let local_code_report = evaluate_local_code team.inspector request in
              verify request (response_from_report local_code_report)
                (informed ++ local_code_report ∷ []))
          else plan_specialist team request informed)
