-- ===== src/Decision/Verifier/Safety.antt =====
-- What every answer of `verify` satisfies, whatever proposal it was given.
use ai_troubleshooter.Prelude.{
  ℕ, ◌≤◌, String, true, false, not, ◌&&◌, some, List, [], ◌∷◌, arith, length, length-take, mem,
  filterb, is_empty, All, All-take, if◌then◌else◌, ◌==◌, ◌≡◌, refl, subst, sym, ap, ◌∙◌, inl, inr,
  Bool-cases, eq_iff,
}
use ai_troubleshooter.Prelude.Distinct.{Distinct, take-Distinct}
use ai_troubleshooter.Python.{ℤ, pos, negsuc}
use ai_troubleshooter.Decision.Models.{
  DecisionRequest, ToolPlan, AgentReport, VerificationReport, DecisionResponse,
}
use ai_troubleshooter.Decision.Verifier.{
  Loop, tool_budget, available_names, normalize_tool_plan, without_tools, need_human, verify_tools,
  verify,
}
use ai_troubleshooter.Decision.Verifier.Normalize.{
  is_valid, firsts, names, names-take, normalize_tool_plan-eq, firsts-Distinct, firsts-All,
  filterb-All,
}

-- A tool plan that may be carried out under the request: every item is valid and names an available
-- tool, no tool is called twice, and there are at most ten calls, within the request's budget.
pub record IsBounded (request : DecisionRequest) (plan : List ToolPlan) : Type 0 where
  pub valid : All (λ item. is_valid (available_names request.available_tools) item ≡ true) plan
  pub distinct : Distinct (names plan)
  pub within : length plan ≤ tool_budget request.max_tool_calls
  pub few : length plan ≤ 10

pub tool_budget_bounds : (n : ℤ) → (1 ≤ tool_budget n) × (tool_budget n ≤ 10)
unfolding tool_budget
tool_budget_bounds (pos n) = (omega arith, omega arith)
tool_budget_bounds (negsuc n) = (omega arith, omega arith)

pub normalize_tool_plan-IsBounded :
    (request : DecisionRequest) (plan : List ToolPlan)
    → IsBounded request
        (normalize_tool_plan request plan (tool_budget request.max_tool_calls)).normalized
normalize_tool_plan-IsBounded request plan =
    let available = available_names request.available_tools in
    let budget = tool_budget request.max_tool_calls in
    let kept = filterb (is_valid available) plan in
    subst (IsBounded request)
      (sym
        (normalize_tool_plan-eq request plan budget (tool_budget_bounds request.max_tool_calls).0))
      (record {
        valid =
            All-take _ budget (firsts [] kept)
              (firsts-All _ [] kept (filterb-All (is_valid available) plan));
        distinct =
            rw (names-take budget (firsts [] kept))
              (take-Distinct budget (names (firsts [] kept)) (firsts-Distinct [] kept));
        within = omega (arith, length-take budget (firsts [] kept));
        few = omega (
          arith,
          length-take budget (firsts [] kept),
          (tool_budget_bounds request.max_tool_calls).1,
        );
      })

-- The actions that leave the decision layer.
abbrev pub known_actions : List String
known_actions =
    "ask_user" ∷ "answer_from_knowledge" ∷ "invoke_tools" ∷ "need_human" ∷ "local_code_inspection"
    ∷ []

-- An answer that the platform may act on.
pub record IsSafe (request : DecisionRequest) (r : DecisionResponse) : Type 0 where
  pub known : mem r.action known_actions ≡ true
  pub bounded : IsBounded request r.tool_plan
  pub tools_exactly : is_empty r.tool_plan ≡ not (r.action == "invoke_tools")
  pub sourced : (r.action == "answer_from_knowledge" && r.knowledge_source == "") ≡ false
  pub report : VerificationReport
  pub verified : r.verification ≡ some report
  pub counted : report.tool_count ≡ length r.tool_plan
  pub budgeted : report.tool_budget ≡ tool_budget request.max_tool_calls

no_tools-IsBounded : (request : DecisionRequest) → IsBounded request []
no_tools-IsBounded request = record {
  valid = tt;
  distinct = tt;
  within = omega arith;
  few = omega arith;
}

module _ (request : DecisionRequest) (reports : List AgentReport) where
  abbrev budget : ℕ
  budget = tool_budget request.max_tool_calls

  need_human-IsSafe :
      (checks violations : List String)
      → IsSafe request (need_human reports budget checks violations)
  unfolding need_human
  need_human-IsSafe checks violations = record {
    known = refl;
    bounded = no_tools-IsBounded request;
    tools_exactly = refl;
    sourced = refl;
    report = _;
    verified = refl;
    counted = refl;
    budgeted = refl;
  }

  -- A branch that drops the plan and whose action is `name`.
  without_tools-IsSafe :
      (proposal : DecisionResponse) (name reason : String) (checks : List String)
      → proposal.action ≡ name
      → mem name known_actions ≡ true
      → (name == "invoke_tools") ≡ false
      → (name == "answer_from_knowledge" && proposal.knowledge_source == "") ≡ false
      → IsSafe request (without_tools proposal reports reason checks budget)
  without_tools-IsSafe proposal name reason checks act known other sourced = record {
    known = rw act known;
    bounded = no_tools-IsBounded request;
    tools_exactly = sym (ap (λ a. not (a == "invoke_tools")) act ∙ ap not other);
    sourced =
        ap (λ a. a == "answer_from_knowledge" && proposal.knowledge_source == "") act ∙ sourced;
    report = _;
    verified = refl;
    counted = refl;
    budgeted = refl;
  }

  verify_tools-IsSafe :
      (proposal : DecisionResponse) (s : Loop)
      → proposal.action ≡ "invoke_tools"
      → IsBounded request s.normalized
      → IsSafe request (verify_tools request proposal reports s)
  unfolding verify_tools
  verify_tools-IsSafe proposal s act bounded = elim (Bool-cases (is_empty s.normalized)) [
    | inl none_left ↦ rw none_left (need_human-IsSafe _ _)
    | inr some_left ↦ rw some_left (record {
      known = rw act refl;
      bounded = bounded;
      tools_exactly = some_left ∙ sym (ap (λ a. not (a == "invoke_tools")) act);
      sourced = ap (λ a. a == "answer_from_knowledge" && proposal.knowledge_source == "") act;
      report = _;
      verified = refl;
      counted = refl;
      budgeted = refl;
    })
  ]

  knowledge-IsSafe :
      (proposal : DecisionResponse) (reason : String) (checks more violations : List String)
      → proposal.action ≡ "answer_from_knowledge"
      → IsSafe request (
          if proposal.knowledge_source == ""
          then need_human reports budget checks violations
          else without_tools proposal reports reason more budget)
  knowledge-IsSafe proposal reason checks more violations act =
      elim (Bool-cases (proposal.knowledge_source == "")) [
        | inl missing ↦ rw missing (need_human-IsSafe checks violations)
        | inr given ↦
            rw given (
              without_tools-IsSafe proposal "answer_from_knowledge" reason more act refl refl given)
      ]

  -- Whatever the proposal, and whoever made it, the verifier's answer is safe: its action is a known
  -- one, tools are called only by the action for tools, which has at least one, the calls are valid,
  -- distinct and within the budget, an answer from experience names its source, and the verification
  -- report counts the calls and the budget as they are.
  pub verify-IsSafe :
      (proposal : DecisionResponse) → IsSafe request (verify request proposal reports)
  unfolding verify
  verify-IsSafe proposal = elim (Bool-cases (proposal.action == "ask_user")) [
    | inl act ↦
        rw act (without_tools-IsSafe proposal "ask_user" _ _ ((eq_iff _ _).0 act) refl refl refl)
    | inr e1 ↦ rw e1 (elim (Bool-cases (proposal.action == "answer_from_knowledge")) [
      | inl act ↦ rw act (knowledge-IsSafe proposal _ _ _ _ ((eq_iff _ _).0 act))
      | inr e2 ↦ rw e2 (elim (Bool-cases (proposal.action == "invoke_tools")) [
        | inl act ↦ rw act (
            verify_tools-IsSafe proposal (normalize_tool_plan request proposal.tool_plan budget)
              ((eq_iff _ _).0 act) (normalize_tool_plan-IsBounded request proposal.tool_plan))
        | inr e3 ↦ rw e3 (elim (Bool-cases (proposal.action == "need_human")) [
          | inl act ↦
              rw act
                (without_tools-IsSafe proposal "need_human" _ _ ((eq_iff _ _).0 act) refl refl refl)
          | inr e4 ↦ rw e4 (elim (Bool-cases (proposal.action == "local_code_inspection")) [
            | inl act ↦ rw act (
                without_tools-IsSafe proposal "local_code_inspection" _ _ ((eq_iff _ _).0 act) refl
                  refl refl)
            | inr e5 ↦ rw e5 (need_human-IsSafe _ _)
          ])
        ])
      ])
    ])
  ]
