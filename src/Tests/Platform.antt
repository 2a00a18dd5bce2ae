-- ===== src/Tests/Platform.antt =====
-- Cases, replies of the language model, answers of the Gateway and observations.
use ai_troubleshooter.Prelude.{
  true, false, not, ◌&&◌, ◌||◌, [], ◌∷◌, ◌≤◌, length, mem, any, All, if◌then◌else◌, is_space, strip,
  show, ◌≡◌, ◌⊎◌, refl,
}
use ai_troubleshooter.Prelude.Distinct.{Distinct}
use ai_troubleshooter.Python.{
  Value, Fields, str, list, dict, nil, cons, field, end, pos, double, lt_float, to_text, or_value,
  get,
}
use ai_troubleshooter.Decision.Models.{AgentReport, confidence_45, confidence_72, confidence_100}
use ai_troubleshooter.Decision.Verifier.{tool_budget, available_names}
use ai_troubleshooter.Decision.Verifier.Normalize.{names}
use ai_troubleshooter.Decision.Supervisor.{advised, plan}
use ai_troubleshooter.Platform.Scheduler.{finish, status_or, active_statuses, finish_cases}
use ai_troubleshooter.Platform.Advisor.{
  LlmClient, payload, advisor_tool_plan, selected_tools, safe_action, confidence, propose,
  advise_payload, evaluate_llm,
}
use ai_troubleshooter.Platform.Advisor.Bounds.{IsProposal, evaluate_llm_cases}
use ai_troubleshooter.Platform.Ledger.{
  Observation, compact_tool_observation, compact_decision_payload, collect, is_success,
  final_answer_verification, evidence_refs_from_observations,
}
use ai_troubleshooter.Platform.Ledger.Clip.{
  IsBounded, IsCompact, compact_tool_observation-IsBounded, compact_decision_payload-IsCompact,
}
use ai_troubleshooter.Platform.Ledger.Evidence.{
  IsIndex, IsCollected, nothing_collected, has_evidence, collect-IsIndex,
  final_answer_verification_cases,
}
use ai_troubleshooter.Platform.ToolLoop.{Gateway, responded, raised, invoke_tools}
use ai_troubleshooter.Platform.ToolLoop.Carried.{IsRun, invoke_tools-IsRun, plan-calls_once}
use ai_troubleshooter.Tests.{ascii}
use ai_troubleshooter.Tests.Decision.{full_request, alone, proposal}

-- The scheduler.
finish_cases_example :
    ((finish "INVESTIGATING" false false).accepted
      ≡ not (false || false || mem (status_or "INVESTIGATING" "UNKNOWN") active_statuses))
    × ((finish "INVESTIGATING" false false).next_status
        ≡ (if false || false then "FAILED" else status_or "INVESTIGATING" "UNKNOWN"))
finish_cases_example = finish_cases "INVESTIGATING" false false

-- The envelopes.
abbrev answered : Fields
answered = field "tool_call_id" (str "T-1") (
    field "summary" (str "two rows")
      (field "data" (dict (field "rows" (list (cons (str "a") (cons (str "b") nil))) end)) end))

abbrev refused : Fields
refused = field "status" (str "failed") (field "error" (str "denied") end)

abbrev observed : Observation
observed = compact_tool_observation ⦃py = ascii⦄ "get_internal_kline" "success" answered

compact_tool_observation-IsBounded_example :
    IsBounded (compact_tool_observation ⦃py = ascii⦄ "get_internal_kline" "success" answered)
compact_tool_observation-IsBounded_example =
    compact_tool_observation-IsBounded ⦃py = ascii⦄ "get_internal_kline" "success" answered

compact_decision_payload-IsCompact_example : IsCompact (compact_decision_payload proposal)
compact_decision_payload-IsCompact_example = compact_decision_payload-IsCompact proposal

-- An advisor whose model names a tool twice, a tool that is not available, and a confidence above 1.
abbrev reply_fields : Fields
reply_fields = field "action" (str "invoke_tools") (
    field "selected_tools"
      (list (
        cons (str "get_similar_cases")
          (cons (str "drop_tables") (cons (str "get_similar_cases") nil))))
      (field "confidence" (Value.float (double 3 0)) (field "reason" (str "similar") end)))

abbrev model : LlmClient
model = record {
  is_real = true;
  provider = "local_agent";
  model = "m";
  advise_decision = λ request default. payload reply_fields;
}

abbrev similar : AgentReport
similar = record {
  agent_name = "llm_decision_agent";
  action = "invoke_tools";
  reason = "similar";
  missing_fields = [];
  tool_plan = advisor_tool_plan full_request "similar" "get_similar_cases" ∷ [];
  knowledge_source = "";
  confidence = confidence_100;
  observations =
      "provider=local_agent" ∷ "model=m" ∷ "default_action=invoke_tools" ∷ "selected_tool_count=1"
      ∷ [];
  risks =
      "LLM advisor output is advisory only; verifier enforces tool availability and budget" ∷ [];
  evidence = [];
}

evaluate_runs : evaluate_llm ⦃py = ascii⦄ model full_request proposal ≡ advised similar
unfolding evaluate_llm advise_payload propose selected_tools safe_action confidence to_text or_value
    strip is_space tool_budget available_names get show
evaluate_runs = refl

evaluate_llm_cases_example :
    ((similar.action ≡ "skip") × (similar.tool_plan ≡ []))
    ⊎ IsProposal full_request proposal similar
evaluate_llm_cases_example =
    evaluate_llm_cases ⦃py = ascii⦄ model full_request proposal similar evaluate_runs

-- The evidence of an answer.
collect-IsIndex_example :
    IsIndex (collect nothing_collected (observed ∷ observed ∷ []))
    × All
        (λ item.
          All
            (IsCollected (collect nothing_collected (observed ∷ observed ∷ [])) item)
            item.evidence_refs)
        (observed ∷ observed ∷ [])
collect-IsIndex_example = collect-IsIndex (observed ∷ observed ∷ [])

final_answer_verification_cases_example :
    let v = final_answer_verification (observed ∷ []) confidence_72 in
    (v.accepted ≡ (any is_success (observed ∷ []) && has_evidence (observed ∷ [])))
    × (v.accepted ≡ true → v.adjusted_confidence ≡ confidence_72)
    × (v.accepted ≡ false → lt_float confidence_45 v.adjusted_confidence ≡ false)
final_answer_verification_cases_example =
    final_answer_verification_cases (observed ∷ []) confidence_72

-- A reference of a failed call and a success without one: the answer is accepted.
abbrev failed_with_reference : Observation
failed_with_reference = record observed { status = str "failed" }

abbrev success_without_reference : Observation
success_without_reference = record observed { evidence_refs = [] }

split_evidence_is_accepted :
    (final_answer_verification
      (failed_with_reference ∷ success_without_reference ∷ [])
      confidence_72).accepted
    ≡ true
unfolding final_answer_verification evidence_refs_from_observations compact_tool_observation get
    or_value to_text
split_evidence_is_accepted = refl

-- A Gateway that answers the first call, refuses the second and is down after that.
abbrev gateway : Gateway
gateway [] plan = responded answered
gateway (c ∷ []) plan = responded refused
gateway (c ∷ d ∷ more) plan = raised "connection refused"

invoke_tools-IsRun_example :
    IsRun
      (pos 10)
      (pos 1)
      proposal.tool_plan
      (invoke_tools ⦃py = ascii⦄ gateway (pos 10) (pos 1) proposal.tool_plan)
invoke_tools-IsRun_example =
    invoke_tools-IsRun ⦃py = ascii⦄ gateway (pos 10) (pos 1) proposal.tool_plan

plan-calls_once_example :
    let t = invoke_tools ⦃py = ascii⦄ gateway (pos 3) (pos 1) (plan alone full_request).tool_plan in
    Distinct (names t.calls)
    × (length t.calls ≤ 3)
    × (length t.calls ≤ tool_budget full_request.max_tool_calls)
    × (length t.calls ≤ 10)
plan-calls_once_example = plan-calls_once ⦃py = ascii⦄ gateway alone full_request 3 (pos 1)
