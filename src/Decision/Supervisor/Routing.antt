-- ===== src/Decision/Supervisor/Routing.antt =====
-- What `plan` answers, by the way that a request takes: intake, experience, local code, or a
-- specialist with no advisor beside it.
use ai_troubleshooter.Prelude.{
  length-map, String, true, false, none, some, List, [], ◌∷◌, ◌++◌, map, take, length, is_empty,
  ◌≤◌, ◌==◌, ◌≡◌, refl, ◌∙◌, ap,
}
use ai_troubleshooter.Python.{Runtime}
use ai_troubleshooter.Decision.Models.{DecisionRequest, AgentReport, DecisionResponse, ToolPlan}
use ai_troubleshooter.Decision.Intake.{needs_problem_description}
use ai_troubleshooter.Decision.Knowledge.{evaluate_knowledge}
use ai_troubleshooter.Decision.LocalCode.{LocalCodeInspector, should_run}
use ai_troubleshooter.Decision.Tools.{missing_fields, select_tools, build_tool_plan}
use ai_troubleshooter.Decision.Tools.Select.{select_tools-IsSelection}
use ai_troubleshooter.Decision.Tools.Binding.{HasStatedBrief, plans-IsClean, names-map}
use ai_troubleshooter.Decision.Verifier.{
  Loop, tool_budget, available_names, normalize_tool_plan, verify_tools, verify,
}
use ai_troubleshooter.Decision.Verifier.Normalize.{IsClean, names, normalize_tool_plan-clean}
use ai_troubleshooter.Decision.Verifier.Safety.{tool_budget_bounds}
use ai_troubleshooter.Decision.Supervisor.{
  Team, DecisionAdvisor, advised, evaluate_domain, evaluate_specialist, response_from_report,
  advisor_report, advised_proposal, supervisor_report, plan_specialist, plan,
}

-- The domains that have a specialist of their own.
pub data Specialist : Type 0 where
  kline asset health_food : Specialist

abbrev pub domain_of : Specialist → String
domain_of kline = "kline"
domain_of asset = "asset"
domain_of health_food = "health_food"

abbrev agent_of : Specialist → String
agent_of kline = "kline_agent"
agent_of asset = "asset_agent"
agent_of health_food = "health_food_agent"

-- The verifier's word on a response that has none.
abbrev pub verdict : DecisionResponse → List String
verdict r = elim r.verification [ none ↦ [] | some v ↦ v.violations ]

verify-tools :
    (request : DecisionRequest) (proposal : DecisionResponse) (reports : List AgentReport)
    → proposal.action ≡ "invoke_tools"
    → verify request proposal reports
      ≡ verify_tools request proposal reports
          (normalize_tool_plan request proposal.tool_plan (tool_budget request.max_tool_calls))
unfolding verify
verify-tools request proposal reports act =
    let not_ask : (proposal.action == "ask_user") ≡ false = ap (λ a. a == "ask_user") act in
    let not_known : (proposal.action == "answer_from_knowledge") ≡ false =
      ap (λ a. a == "answer_from_knowledge") act in
    let invoke : (proposal.action == "invoke_tools") ≡ true = ap (λ a. a == "invoke_tools") act in
    rw (not_ask, not_known, invoke)

verify_tools-some :
    (request : DecisionRequest) (proposal : DecisionResponse) (reports : List AgentReport)
    (s : Loop)
    → proposal.action ≡ "invoke_tools"
    → is_empty s.normalized ≡ false
    → ((verify_tools request proposal reports s).action ≡ "invoke_tools")
      × ((verify_tools request proposal reports s).tool_plan ≡ s.normalized)
      × (verdict (verify_tools request proposal reports s) ≡ s.violations)
unfolding verify_tools
verify_tools-some request proposal reports s act full = rw full (act, refl, refl)

-- A plan of tools that is clean and fits the budget is accepted whole, without a violation.
pub verify-clean :
    (request : DecisionRequest) (proposal : DecisionResponse) (reports : List AgentReport)
    → proposal.action ≡ "invoke_tools"
    → is_empty proposal.tool_plan ≡ false
    → length proposal.tool_plan ≤ tool_budget request.max_tool_calls
    → IsClean (available_names request.available_tools) proposal.tool_plan
    → ((verify request proposal reports).action ≡ "invoke_tools")
      × ((verify request proposal reports).tool_plan ≡ proposal.tool_plan)
      × (verdict (verify request proposal reports) ≡ [])
verify-clean request proposal reports act full fits clean =
    let budget = tool_budget request.max_tool_calls in
    let (kept, silent) =
      normalize_tool_plan-clean request proposal.tool_plan budget
        (tool_budget_bounds request.max_tool_calls).0 fits clean in
    let s = normalize_tool_plan request proposal.tool_plan budget in
    let (a, p, v) = verify_tools-some request proposal reports s act (ap is_empty kept ∙ full) in
    rw (verify-tools request proposal reports act) (a, p ∙ kept, v ∙ silent)

-- The same of a report: the answer calls what the report plans.
pub verify-report :
    (request : DecisionRequest) (report : AgentReport) (reports : List AgentReport)
    (items : List ToolPlan)
    → report.action ≡ "invoke_tools"
    → report.tool_plan ≡ items
    → is_empty items ≡ false
    → length items ≤ tool_budget request.max_tool_calls
    → IsClean (available_names request.available_tools) items
    → ((verify request (response_from_report report) reports).action ≡ "invoke_tools")
      × ((verify request (response_from_report report) reports).tool_plan ≡ items)
      × (verdict (verify request (response_from_report report) reports) ≡ [])
unfolding response_from_report
verify-report request report reports items act e full fits clean =
    let (a, p, v) =
      verify-clean request (response_from_report report) reports act (ap is_empty e ∙ full)
        (rw e fits) (rw e clean) in
    (a, p ∙ e, v)

is_empty-map : (f : String → ToolPlan) (xs : List String) → is_empty (map f xs) ≡ is_empty xs
is_empty-map f [] = refl
is_empty-map f (x ∷ xs) = refl

module _ ⦃py : Runtime⦄ where
  -- The request passes intake, has no experience to answer it and asks for no look at local code.
  pub record IsRouted (request : DecisionRequest) : Type 0 where
    pub clear : needs_problem_description request ≡ false
    pub unknown : ((evaluate_knowledge request).action == "answer_from_knowledge") ≡ false
    pub normal : should_run request ≡ false

  abbrev before : DecisionRequest → List AgentReport
  before request = supervisor_report request ∷ evaluate_knowledge request ∷ []

  plan-routed :
      (team : Team) (request : DecisionRequest)
      → IsRouted request
      → plan team request ≡ plan_specialist team request (before request)
  unfolding plan
  plan-routed team request r = rw (r.clear, r.unknown, r.normal)

  evaluate_specialist-eq :
      (k : Specialist) (request : DecisionRequest)
      → request.case.issue_domain ≡ domain_of k
      → evaluate_specialist request ≡ evaluate_domain (domain_of k) (agent_of k) request
  unfolding evaluate_specialist
  evaluate_specialist-eq kline request e = rw e
  evaluate_specialist-eq asset request e = rw e
  evaluate_specialist-eq health_food request e = rw e

  module _ (k : Specialist) (request : DecisionRequest) (routed : IsRouted request)
      (domain : request.case.issue_domain ≡ domain_of k) where
    -- with no advisor, the answer is the verifier's word on the specialist's report
    pub plan-specialist :
        (inspector : LocalCodeInspector)
        → plan (record { inspector = inspector; decision_advisor = none }) request
          ≡ verify request
              (response_from_report (evaluate_domain (domain_of k) (agent_of k) request))
              (before request ++ evaluate_domain (domain_of k) (agent_of k) request ∷ [])
    unfolding plan_specialist
    plan-specialist inspector =
        plan-routed _ request routed ∙ rw (evaluate_specialist-eq k request domain)

    -- With no advisor, a request of one of the three domains that passes intake, that no experience
    -- answers and that asks for no look at local code, and that lacks a required field, is answered
    -- by a question for the first three missing fields, and calls no tool.
    pub plan-asks :
        (inspector : LocalCodeInspector)
        → is_empty (missing_fields request (domain_of k)) ≡ false
        → ((plan (record { inspector = inspector; decision_advisor = none }) request).action
            ≡ "ask_user")
          × ((plan
                (record { inspector = inspector; decision_advisor = none })
                request).missing_fields
              ≡ take 3 (missing_fields request (domain_of k)))
          × ((plan (record { inspector = inspector; decision_advisor = none }) request).tool_plan
              ≡ [])
    unfolding evaluate_domain response_from_report verify
    plan-asks inspector missing = rw (plan-specialist inspector, missing) (refl, refl, refl)

    domain_report :
        is_empty (missing_fields request (domain_of k)) ≡ true
        → is_empty (select_tools request (domain_of k)) ≡ false
        → ((evaluate_domain (domain_of k) (agent_of k) request).action ≡ "invoke_tools")
          × ((evaluate_domain (domain_of k) (agent_of k) request).tool_plan
              ≡ map (build_tool_plan request) (select_tools request (domain_of k)))
    unfolding evaluate_domain
    domain_report given some_tools = rw (given, some_tools) (refl, refl)

    -- With no advisor, a request of one of the three domains that passes intake, that no experience
    -- answers and that asks for no look at local code is answered by calls of exactly the selected
    -- tools, in their order, and the verifier notes no violation. This is if its required fields are
    -- given, some tool is selected, and the hypotheses of its brief are not blank.
    pub plan-calls :
        (inspector : LocalCodeInspector)
        → HasStatedBrief request
        → is_empty (missing_fields request (domain_of k)) ≡ true
        → is_empty (select_tools request (domain_of k)) ≡ false
        → ((plan (record { inspector = inspector; decision_advisor = none }) request).action
            ≡ "invoke_tools")
          × (names
                (plan (record { inspector = inspector; decision_advisor = none }) request).tool_plan
              ≡ select_tools request (domain_of k))
          × (verdict (plan (record { inspector = inspector; decision_advisor = none }) request)
              ≡ [])
    plan-calls inspector stated given some_tools =
        let report = evaluate_domain (domain_of k) (agent_of k) request in
        let selected = select_tools request (domain_of k) in
        let items = map (build_tool_plan request) selected in
        let (act, planned) = domain_report given some_tools in
        let chosen = select_tools-IsSelection request (domain_of k) in
        let (a, p, v) =
          verify-report request report (before request ++ report ∷ []) items act planned
            (is_empty-map (build_tool_plan request) selected ∙ some_tools)
            (rw (length-map (build_tool_plan request) selected) chosen.within)
            (plans-IsClean request selected stated chosen) in
        rw (plan-specialist inspector) (a, ap names p ∙ names-map request selected, v)

  -- An advisor's plan of tools, if it is clean and fits the budget, is what the answer calls, also
  -- where the specialist asks for missing fields first.
  pub plan-advised :
      (inspector : LocalCodeInspector) (advisor : DecisionAdvisor) (request : DecisionRequest)
      (report : AgentReport)
      → IsRouted request
      → ((reports : List AgentReport) (proposal : DecisionResponse)
          → advisor.evaluate request reports proposal ≡ advised report)
      → report.action ≡ "invoke_tools"
      → is_empty report.tool_plan ≡ false
      → length report.tool_plan ≤ tool_budget request.max_tool_calls
      → IsClean (available_names request.available_tools) report.tool_plan
      → ((plan (record { inspector = inspector; decision_advisor = some advisor }) request).action
          ≡ "invoke_tools")
        × ((plan
              (record { inspector = inspector; decision_advisor = some advisor })
              request).tool_plan
            ≡ report.tool_plan)
        × (verdict
              (plan (record { inspector = inspector; decision_advisor = some advisor }) request)
            ≡ [])
  unfolding plan_specialist advisor_report advised_proposal
  plan-advised inspector advisor request report routed says act full fits clean =
      let calls : (report.action == "skip") ≡ false = ap (λ a. a == "skip") act in
      rw (plan-routed _ request routed, says, calls)
        (verify-report request report _ report.tool_plan act refl full fits clean)

  -- The advisor decides against the specialist: for one and the same request of one of the three
  -- domains that reaches the specialist and lacks a required field, the team with no advisor calls
  -- nothing, and the team whose advisor plans calls, clean and within the budget, makes those calls.
  pub plan-advised_despite_missing :
      (k : Specialist) (inspector : LocalCodeInspector) (advisor : DecisionAdvisor)
      (request : DecisionRequest) (report : AgentReport)
      → IsRouted request
      → request.case.issue_domain ≡ domain_of k
      → is_empty (missing_fields request (domain_of k)) ≡ false
      → ((reports : List AgentReport) (proposal : DecisionResponse)
          → advisor.evaluate request reports proposal ≡ advised report)
      → report.action ≡ "invoke_tools"
      → is_empty report.tool_plan ≡ false
      → length report.tool_plan ≤ tool_budget request.max_tool_calls
      → IsClean (available_names request.available_tools) report.tool_plan
      → ((plan (record { inspector = inspector; decision_advisor = none }) request).tool_plan ≡ [])
        × ((plan
              (record { inspector = inspector; decision_advisor = some advisor })
              request).tool_plan
            ≡ report.tool_plan)
  plan-advised_despite_missing k inspector advisor request report routed domain missing says act
        full fits clean =
      (
        (plan-asks k request routed domain inspector missing).2,
        (plan-advised inspector advisor request report routed says act full fits clean).1,
      )
