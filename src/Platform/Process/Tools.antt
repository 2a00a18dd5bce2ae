-- ===== src/Platform/Process/Tools.antt =====
-- The branch of a decision for tools, as a walk, with what it calls.
use ai_troubleshooter.Prelude.{
  ℕ, suc, ◌-◌, ◌≤◌, String, some, List, [], ◌∷◌, length, take, arith, or_else, inl, inr, ◌⊎◌,
  Bool-cases, ◌==◌, ◌<>◌, ◌≡◌, refl, sym, ap, ◌∙◌, subst,
}
use ai_troubleshooter.Prelude.Distinct.{Distinct}
use ai_troubleshooter.Python.{Runtime, Float, ℤ, pos, negsuc}
use ai_troubleshooter.Decision.Models.{DecisionRequest, ToolPlan}
use ai_troubleshooter.Decision.Verifier.Normalize.{names}
use ai_troubleshooter.Decision.Verifier.Safety.{tool_budget_bounds}
use ai_troubleshooter.Decision.Supervisor.{Team, plan}
use ai_troubleshooter.Decision.Supervisor.Safety.{plan-IsSafe}
use ai_troubleshooter.Platform.ToolLoop.{
  Answer, raised, Gateway, Run, exhausted, responded, stop, fail_call, accept_call, slice_to,
  started, invoke_one, invoke_each, invoke_tools,
}
use ai_troubleshooter.Platform.ToolLoop.Carried.{invoke_tools-IsRun, part-Distinct, part-length}
use ai_troubleshooter.Platform.Case.{
  Store, record_agent_run_event, create_investigation, set_status,
}
use ai_troubleshooter.Platform.Answers.{tagged, DecisionAgent}
use ai_troubleshooter.Platform.Summarize.{summarize}
use ai_troubleshooter.Platform.Process.{World, record_run, conclude, concluded, investigate, act}
use ai_troubleshooter.Platform.Process.Lifecycle.{
  Edge, investigates, calls_tools, concludes, IsWalk, IsWalk-refl, IsWalk-keep, IsWalk-same,
  IsWalk-step_from,
}
use ai_troubleshooter.Platform.Process.Kept.{summarize-Keeps}
use ai_troubleshooter.Platform.Process.Branches.{
  IsGood, IsEnd, closed-IsEnd, completed-IsGood, ask_user-IsAnswer, need_human_reply-IsAnswer,
  answer_from_knowledge-IsAnswer, answer_from_local_code-IsAnswer,
}

-- A slice of Python is a prefix.
slice_to-take :
    (max_calls : ℤ) (tool_plan : List ToolPlan)
    → (n : ℕ) × (slice_to max_calls tool_plan ≡ take n tool_plan)
slice_to-take (pos n) tool_plan = (n, refl)
slice_to-take (negsuc n) tool_plan = (length tool_plan - suc n, refl)

abbrev HasStatus : String → Run → Type 0
HasStatus status t = t.case_status ≡ status

module _ ⦃py : Runtime⦄ where
  invoke_one_status :
      (gateway : Gateway) (t : Run) (tool : ToolPlan)
      → (invoke_one gateway t tool).case_status ≡ t.case_status
  unfolding invoke_one fail_call accept_call
  invoke_one_status gateway t tool = of_answer (gateway t.calls tool)
    where
      of_answer :
          (answer : Answer)
          → HasStatus t.case_status (elim answer [
            | responded response ↦ accept_call t tool response
            | raised error ↦ fail_call t tool error
          ])
      of_answer (responded response) = refl
      of_answer (raised error) = refl

  invoke_each_status :
      (gateway : Gateway) (max_failures : ℤ) (t : Run) (tools : List ToolPlan)
      → (invoke_each gateway max_failures t tools).case_status ≡ t.case_status
  unfolding invoke_each stop
  invoke_each_status gateway max_failures t [] = refl
  invoke_each_status gateway max_failures t (tool ∷ rest) =
      elim (Bool-cases (exhausted max_failures t.failures)) [
        | inl over ↦ rw over refl
        | inr live ↦ rw live (
            invoke_each_status gateway max_failures (invoke_one gateway t tool) rest
            ∙ invoke_one_status gateway t tool)
      ]

  pub invoke_tools_status :
      (gateway : Gateway) (max_calls max_failures : ℤ) (tool_plan : List ToolPlan)
      → (invoke_tools gateway max_calls max_failures tool_plan).case_status ≡ "WAITING_TOOL_RESULT"
  unfolding invoke_tools
  invoke_tools_status gateway max_calls max_failures tool_plan =
      invoke_each_status gateway max_failures started (slice_to max_calls tool_plan)

  -- The calls for a decision of the supervisor, whatever the sign of the platform's limit.
  plan-calls_few :
      (gateway : Gateway) (team : Team) (request : DecisionRequest) (max_calls max_failures : ℤ)
      → let t = invoke_tools gateway max_calls max_failures (plan team request).tool_plan in
        Distinct (names t.calls) × (length t.calls ≤ 10)
  plan-calls_few gateway team request max_calls max_failures =
      let tool_plan = (plan team request).tool_plan in
      let safe = plan-IsSafe team request in
      let run = invoke_tools-IsRun gateway max_calls max_failures tool_plan in
      let t = invoke_tools gateway max_calls max_failures tool_plan in
      let (n, prefix) = slice_to-take max_calls tool_plan in
      let called = run.called ∙ ap (take run.count) prefix in
      let short = part-length run.count n tool_plan t.calls called in
      (
        part-Distinct run.count n tool_plan t.calls called safe.bounded.distinct,
        omega (arith, short.1, safe.bounded.within, (tool_budget_bounds request.max_tool_calls).1),
      )

  -- What is behind the calls, given what the writer of the summary comes to.
  concluded-IsEnd :
      (run investigation : ℕ) (t : Run) (result : (String × Float) ⊎ String) {s u : Store}
      → IsWalk s u
      → u.case.status ≡ "WAITING_TOOL_RESULT"
      → let o = concluded run investigation t result u in
        IsWalk s o.0 × IsEnd o.0.case.status o.1 × (o.0.calls ≡ u.calls)
  unfolding concluded set_status
  concluded-IsEnd run investigation t (inr error) w e = (w, rw e refl, refl)
  concluded-IsEnd run investigation t (inl (summary, confidence)) {s} {u} w e =
      closed-IsEnd run "completed" "NEED_HUMAN_CONFIRMATION"
        (record {
          status = "NEED_HUMAN_CONFIRMATION";
          reply = tagged u summary;
          missing_fields = [];
          tool_call_ids = t.tool_call_ids;
          blocked = "";
        })
        (IsWalk-step_from "WAITING_TOOL_RESULT" "NEED_HUMAN_CONFIRMATION"
          (IsWalk-keep w (record { status = refl; statuses = refl; calls = refl })) e concludes)
        refl refl refl

  conclude-IsEnd :
      (world : World) (run investigation : ℕ) (t : Run) {s u : Store}
      → IsWalk s u
      → u.case.status ≡ "WAITING_TOOL_RESULT"
      → let o = conclude world run investigation t u in
        IsWalk s o.0 × IsEnd o.0.case.status o.1 × (o.0.calls ≡ u.calls)
  unfolding conclude
  conclude-IsEnd world run investigation t {s} {u} w e =
      let k = summarize-Keeps world.writer t.observations u in
      let end =
        concluded-IsEnd run investigation t (summarize world.writer t.observations u).1
          (IsWalk-keep w k) (k.status ∙ e) in
      (end.0, end.1, end.2 ∙ k.calls)

  investigate-IsGood :
      (world : World) (agent : DecisionAgent) (run : ℕ) (request : DecisionRequest) {s : Store}
      → s.case.status ≡ "READY_TO_INVESTIGATE"
      → IsGood (some agent) s (investigate world run (plan world.team request) s)
  unfolding investigate record_run set_status
  investigate-IsGood world agent run request {s} h =
      let t =
        invoke_tools world.gateway world.limits.max_tool_calls_per_case
          world.limits.max_tool_failures_per_case (plan world.team request).tool_plan in
      let few =
        plan-calls_few world.gateway world.team request world.limits.max_tool_calls_per_case
          world.limits.max_tool_failures_per_case in
      let waiting =
        invoke_tools_status world.gateway world.limits.max_tool_calls_per_case
          world.limits.max_tool_failures_per_case (plan world.team request).tool_plan in
      let investigating = record_agent_run_event run "investigation_started" "running" (
        create_investigation
          ("domain="
            <> or_else s.case.issue_domain "None"
            <> " issue_type="
            <> or_else s.case.issue_type "None")
          (set_status "INVESTIGATING" s)) in
      let end =
        conclude-IsEnd world run (length s.investigations) t {s = s}
          {u = record_agent_run_event run "tool_execution_finished" "success"
            (record_run t investigating)}
          (IsWalk-same
            (IsWalk-step_from "INVESTIGATING" t.case_status
              (IsWalk-keep {u = investigating}
                (IsWalk-step_from "READY_TO_INVESTIGATE" "INVESTIGATING" (IsWalk-refl s) h
                  investigates)
                (record { status = refl; statuses = refl; calls = refl }))
              refl (subst (λ status. Edge "INVESTIGATING" status) (sym waiting) calls_tools))
            refl refl)
          waiting in
      record {
        walk = end.0;
        end = end.1;
        frugal = record {
          calls = t.calls;
          appended = end.2;
          once = few.0;
          few = few.1;
          gated = tt;
        };
      }

  pub act-IsGood :
      (world : World) (agent : DecisionAgent) (run : ℕ) (request : DecisionRequest) {s : Store}
      → s.case.status ≡ "READY_TO_INVESTIGATE"
      → IsGood (some agent) s (act world run (plan world.team request) s)
  unfolding act
  act-IsGood world agent run request {s} h =
      let decision = plan world.team request in
      elim (Bool-cases (decision.action == "ask_user")) [
        | inl asks_user ↦
            rw asks_user
              (completed-IsGood (some agent) run _ (ask_user-IsAnswer h decision.missing_fields))
        | inr a ↦ rw a (elim (Bool-cases (decision.action == "answer_from_knowledge")) [
          | inl known ↦ rw known (
              completed-IsGood (some agent) run _
                (answer_from_knowledge-IsAnswer h decision.knowledge_source decision.reason))
          | inr b ↦ rw b (elim (Bool-cases (decision.action == "local_code_inspection")) [
            | inl local ↦ rw local (
                completed-IsGood (some agent) run _
                  (answer_from_local_code-IsAnswer h world.local_code_findings decision))
            | inr c ↦ rw c (elim (Bool-cases (decision.action == "invoke_tools")) [
              | inl tools ↦ rw tools (investigate-IsGood world agent run request h)
              | inr d ↦ rw d (
                  completed-IsGood (some agent) run _ (need_human_reply-IsAnswer h decision.reason))
            ])
          ])
        ])
      ]
