-- ===== src/Decision/Supervisor/Safety.antt =====
-- Every way through `plan` ends in the verifier, so every answer of the decision layer is safe.
use ai_troubleshooter.Prelude.{List, [], ◌∷◌, inl, inr, Bool-cases, ◌==◌}
use ai_troubleshooter.Python.{Runtime}
use ai_troubleshooter.Decision.Models.{DecisionRequest, AgentReport}
use ai_troubleshooter.Decision.Intake.{needs_problem_description}
use ai_troubleshooter.Decision.Knowledge.{evaluate_knowledge}
use ai_troubleshooter.Decision.LocalCode.{should_run}
use ai_troubleshooter.Decision.Verifier.Safety.{IsSafe, verify-IsSafe}
use ai_troubleshooter.Decision.Supervisor.{Team, supervisor_report, plan_specialist, plan}

module _ ⦃py : Runtime⦄ where
  plan_specialist-IsSafe :
      (team : Team) (request : DecisionRequest) (before : List AgentReport)
      → IsSafe request (plan_specialist team request before)
  unfolding plan_specialist
  plan_specialist-IsSafe team request before = verify-IsSafe request _ _

  -- Whatever the request, the inspector and the advisor, the answer of `plan` is safe: its action is
  -- a known one, tools are called only by the action for tools, which has at least one, the calls are
  -- valid, distinct and within the budget, and an answer from experience names its source.
  pub plan-IsSafe : (team : Team) (request : DecisionRequest) → IsSafe request (plan team request)
  unfolding plan
  plan-IsSafe team request = elim (Bool-cases (needs_problem_description request)) [
    | inl intake ↦ rw intake (verify-IsSafe request _ _)
    | inr clear ↦
        rw clear
          (elim (Bool-cases ((evaluate_knowledge request).action == "answer_from_knowledge")) [
            | inl known ↦ rw known (verify-IsSafe request _ _)
            | inr unknown ↦ rw unknown (elim (Bool-cases (should_run request)) [
              | inl debug ↦ rw debug (verify-IsSafe request _ _)
              | inr normal ↦ rw normal (
                  plan_specialist-IsSafe team request
                    (supervisor_report request ∷ evaluate_knowledge request ∷ []))
            ])
          ])
  ]
