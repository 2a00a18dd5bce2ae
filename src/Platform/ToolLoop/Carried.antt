-- ===== src/Platform/ToolLoop/Carried.antt =====
-- Whole runs of `_invoke_tools`, and those of the plans that the decision layer makes.
use ai_troubleshooter.Prelude.{
  ℕ, ◌≤◌, List, arith, true, length, length-take, take, ◌≡◌, refl, ◌∙◌, sym, ap, subst, ◌⊎◌, inl,
  inr,
}
use ai_troubleshooter.Prelude.Distinct.{Distinct, take-Distinct}
use ai_troubleshooter.Python.{Runtime, ℤ, pos}
use ai_troubleshooter.Decision.Models.{DecisionRequest, ToolPlan}
use ai_troubleshooter.Decision.Verifier.{tool_budget}
use ai_troubleshooter.Decision.Verifier.Normalize.{names, names-take}
use ai_troubleshooter.Decision.Verifier.Safety.{tool_budget_bounds}
use ai_troubleshooter.Decision.Supervisor.{Team, plan}
use ai_troubleshooter.Decision.Supervisor.Safety.{plan-IsSafe}
use ai_troubleshooter.Platform.ToolLoop.{Gateway, Run, started, exhausted, slice_to, invoke_tools}
use ai_troubleshooter.Platform.ToolLoop.Bounds.{IsConsistent, invoke_each-IsEnd}

-- A run of `tool_plan` under the limits of the configuration.
pub record IsRun (max_calls max_failures : ℤ) (tool_plan : List ToolPlan) (t : Run) : Type 0 where
  pub count : ℕ
  pub called : t.calls ≡ take count (slice_to max_calls tool_plan)
  pub finished :
      (t.calls ≡ slice_to max_calls tool_plan) ⊎ (exhausted max_failures t.failures ≡ true)
  pub failed : (budget : ℕ) → max_failures ≡ pos budget → t.failures ≤ budget
  pub consistent : IsConsistent t

started-IsConsistent : IsConsistent started
started-IsConsistent = record { observed = refl; recorded = refl; counted = refl }

-- Part of a slice of a plan whose tools are distinct.
pub part-Distinct :
    (k n : ℕ) (tool_plan calls : List ToolPlan)
    → calls ≡ take k (take n tool_plan)
    → Distinct (names tool_plan)
    → Distinct (names calls)
part-Distinct k n tool_plan calls e h =
    subst (λ xs. Distinct (names xs)) (sym e)
      (rw (names-take k (take n tool_plan), names-take n tool_plan)
        (take-Distinct k (take n (names tool_plan)) (take-Distinct n (names tool_plan) h)))

pub part-length :
    (k n : ℕ) (tool_plan calls : List ToolPlan)
    → calls ≡ take k (take n tool_plan)
    → (length calls ≤ n) × (length calls ≤ length tool_plan)
part-length k n tool_plan calls e =
    let h = ap length e in
    (
      omega (arith, h, length-take k (take n tool_plan), length-take n tool_plan),
      omega (arith, h, length-take k (take n tool_plan), length-take n tool_plan),
    )

module _ ⦃py : Runtime⦄ (gateway : Gateway) where
  -- Whatever the Gateway answers, the loop calls the plans of the slice in order, up to some point. It
  -- ends early only when the failure budget is used up, and never counts more failures than a budget
  -- that is not negative. Every call has one observation and one row of the ledger, and the failures
  -- are those that the decision log tells of.
  pub invoke_tools-IsRun :
      (max_calls max_failures : ℤ) (tool_plan : List ToolPlan)
      → IsRun max_calls max_failures tool_plan
          (invoke_tools gateway max_calls max_failures tool_plan)
  unfolding invoke_tools
  invoke_tools-IsRun max_calls max_failures tool_plan =
      let end =
        invoke_each-IsEnd gateway max_failures started (slice_to max_calls tool_plan)
          started-IsConsistent in
      record {
        count = end.count;
        called = end.called;
        finished = elim end.all_unless [
          | inl all_called ↦ inl (end.called ∙ all_called)
          | inr over ↦ inr over
        ];
        failed = λ budget e. end.failed budget e (omega arith);
        consistent = end.consistent;
      }

  -- The calls that a decision of the supervisor leads to: each tool is called at most once, and there
  -- are at most as many calls as the request's budget allows, so never more than ten, and at most as
  -- many as the platform's own limit.
  pub plan-calls_once :
      (team : Team) (request : DecisionRequest) (limit : ℕ) (max_failures : ℤ)
      → let t = invoke_tools gateway (pos limit) max_failures (plan team request).tool_plan in
        Distinct (names t.calls)
        × (length t.calls ≤ limit)
        × (length t.calls ≤ tool_budget request.max_tool_calls)
        × (length t.calls ≤ 10)
  plan-calls_once team request limit max_failures =
      let tool_plan = (plan team request).tool_plan in
      let safe = plan-IsSafe team request in
      let run = invoke_tools-IsRun (pos limit) max_failures tool_plan in
      let t = invoke_tools gateway (pos limit) max_failures tool_plan in
      let short = part-length run.count limit tool_plan t.calls run.called in
      let budgeted = safe.bounded.within in
      let ten = (tool_budget_bounds request.max_tool_calls).1 in
      (
        part-Distinct run.count limit tool_plan t.calls run.called safe.bounded.distinct,
        short.0,
        omega (arith, short.1, budgeted),
        omega (arith, short.1, budgeted, ten),
      )
