-- ===== src/Platform/Process/Flow.antt =====
-- The `try` block of `process_case`, from the claim to a result or an exception.
use ai_troubleshooter.Prelude.{
  ℕ, String, true, Option, none, some, List, [], ◌∷◌, ◌++◌, ap, length, is_empty, inl, inr, ◌⊎◌,
  Bool-cases, ◌≡◌, refl, ◌∙◌, subst,
}
use ai_troubleshooter.Python.{Runtime, Fields}
use ai_troubleshooter.Decision.Models.{Entities, DecisionRequest, KnowledgeCandidate}
use ai_troubleshooter.Decision.Supervisor.{plan}
use ai_troubleshooter.Platform.Scheduler.{claim, claim_cases}
use ai_troubleshooter.Platform.Messages.{
  should_direct_answer_latest_message, preflight_missing_fields,
}
use ai_troubleshooter.Platform.Case.{
  Store, row_of, set_status, start_agent_run, record_agent_run_event, record_decision, entity_map,
}
use ai_troubleshooter.Platform.Inquiry.{
  Classification, classify_and_extract, store_classification, list_gateway_tools,
  knowledge_candidates,
}
use ai_troubleshooter.Platform.Request.{record_brief, investigation_brief, decision_request}
use ai_troubleshooter.Platform.Answers.{Outcome, DecisionAgent}
use ai_troubleshooter.Platform.Process.{
  World, latest_user_text, record_plan, decide, decided, inquire, inquired, without_agent,
  troubleshoot, troubleshot, with_agent, process_run, respond, process_claimed,
}
use ai_troubleshooter.Platform.Process.Lifecycle.{
  IsWalk-refl, IsWalk-keep, IsWalk-after, Keeps, Keeps-refl, Keeps-trans,
}
use ai_troubleshooter.Platform.Process.Kept.{
  record_agent_report_runs-Keeps, classify_and_extract-Keeps, store_classification-Keeps,
  list_gateway_tools-Keeps, knowledge_candidates-Keeps, record_brief-Keeps,
}
use ai_troubleshooter.Platform.Process.Branches.{
  IsFrugal, quiet, IsGood, completed-IsGood, ask_user-IsAnswer, require_decision_agent-IsAnswer,
  answer_direct_chat-IsAnswer,
}
use ai_troubleshooter.Platform.Process.Tools.{act-IsGood}

pub IsFrugal-before :
    (agent : Option DecisionAgent) {s t u : Store}
    → t.calls ≡ s.calls
    → IsFrugal agent t u
    → IsFrugal agent s u
IsFrugal-before agent {s} {t} {u} same frugal = record {
  calls = frugal.calls;
  appended = subst (λ xs. u.calls ≡ xs ++ frugal.calls) same frugal.appended;
  once = frugal.once;
  few = frugal.few;
  gated = frugal.gated;
}

-- What is good from a state that kept the status is good from the one before.
IsGood-before :
    (agent : Option DecisionAgent) (t : Store) {s : Store} {o : Outcome}
    → Keeps s t
    → IsGood agent t o
    → IsGood agent s o
IsGood-before agent t k g = record {
  walk = IsWalk-after k g.walk;
  end = g.end;
  frugal = IsFrugal-before agent k.calls g.frugal;
}

-- An exception in a state that only kept the status.
failure-IsGood :
    (agent : Option DecisionAgent) {s t : Store} (error : String)
    → s.case.status ≡ "READY_TO_INVESTIGATE"
    → Keeps s t
    → IsGood agent s (t, inr error)
failure-IsGood agent {s} error h k = record {
  walk = IsWalk-keep (IsWalk-refl s) k;
  end = rw (k.status, h) refl;
  frugal = quiet agent k.calls;
}

module _ ⦃py : Runtime⦄ (world : World) (run : ℕ) where
  decided-IsGood :
      (agent : DecisionAgent) (request : DecisionRequest ⊎ String) {s : Store}
      → s.case.status ≡ "READY_TO_INVESTIGATE"
      → IsGood (some agent) s (decided world run request s)
  unfolding decided
  decided-IsGood agent (inr error) {s} h = failure-IsGood (some agent) error h (Keeps-refl s)
  decided-IsGood agent (inl request) {s} h =
      let decision = plan world.team request in
      let k =
        Keeps-trans (record { status = refl; statuses = refl; calls = refl })
          (Keeps-trans (record_agent_report_runs-Keeps run decision _)
            (record { status = refl; statuses = refl; calls = refl })) in
      IsGood-before (some agent) (record_plan run decision s) k
        (act-IsGood world agent run request (k.status ∙ h))

  inquired-IsGood :
      (agent : DecisionAgent) (entities : Entities) (tools : List Fields)
      (knowledge : List KnowledgeCandidate ⊎ String) {s : Store}
      → s.case.status ≡ "READY_TO_INVESTIGATE"
      → IsGood (some agent) s (inquired world run entities tools knowledge s)
  unfolding inquired decide
  inquired-IsGood agent entities tools (inr error) {s} h =
      failure-IsGood (some agent) error h (Keeps-refl s)
  inquired-IsGood agent entities tools (inl candidates) {s} h =
      let brief = investigation_brief world.limits (row_of s.case) entities tools candidates in
      let loaded = record_agent_run_event run "knowledge_loaded" "success" s in
      let k = record_brief-Keeps brief loaded in
      let briefed =
        record_agent_run_event run "investigation_brief_built" "success"
          (record_brief brief loaded) in
      IsGood-before (some agent) briefed
        (record { status = k.status; statuses = k.statuses; calls = k.calls })
        (decided-IsGood agent
          (decision_request world.limits briefed entities tools candidates brief) (k.status ∙ h))

  inquire-IsGood :
      (agent : DecisionAgent) (entities : Entities) {s : Store}
      → s.case.status ≡ "READY_TO_INVESTIGATE"
      → IsGood (some agent) s (inquire world run entities s)
  unfolding inquire
  inquire-IsGood agent entities {s} h =
      let ready =
        record_agent_run_event run "decision_agent_ready" "success"
          (record_decision "decision_agent_ready" "success" s) in
      let listed = list_gateway_tools world.sources ready in
      let l = list_gateway_tools-Keeps world.sources ready in
      let loaded = record_agent_run_event run "gateway_tools_loaded" "success" listed.0 in
      let c = knowledge_candidates-Keeps world.sources loaded in
      let known = knowledge_candidates world.sources loaded in
      let k : Keeps s known.0 = record {
        status = c.status ∙ l.status;
        statuses = c.statuses ∙ l.statuses;
        calls = c.calls ∙ l.calls;
      } in
      IsGood-before (some agent) known.0 k
        (inquired-IsGood agent entities listed.1 known.1 (c.status ∙ l.status ∙ h))

  without_agent-IsGood :
      (entities : Entities) {s : Store}
      → s.case.status ≡ "READY_TO_INVESTIGATE"
      → IsGood none s (without_agent run entities s)
  unfolding without_agent
  without_agent-IsGood entities {s} h =
      elim (Bool-cases (is_empty (preflight_missing_fields (row_of s.case) entities))) [
        | inl full ↦
            let blocked = require_decision_agent-IsAnswer h in
            rw full (
              completed-IsGood none run _ (record {
                walk =
                    IsWalk-keep blocked.walk
                      (record { status = refl; statuses = refl; calls = refl });
                end = blocked.end;
                calls = blocked.calls;
              }))
        | inr missing ↦ rw missing (
            IsGood-before none
              (record_agent_run_event run "intake_preflight" "success"
                (record_decision "intake_preflight" "success" s))
              (record { status = refl; statuses = refl; calls = refl })
              (completed-IsGood none run _ (ask_user-IsAnswer h _)))
      ]

  with_agent-IsGood :
      (agent : Option DecisionAgent) (entities : Entities) {s : Store}
      → s.case.status ≡ "READY_TO_INVESTIGATE"
      → IsGood agent s (with_agent world agent run entities s)
  unfolding with_agent
  with_agent-IsGood none entities h = without_agent-IsGood entities h
  with_agent-IsGood (some agent) entities h = inquire-IsGood agent entities h

  troubleshot-IsGood :
      (result : Classification ⊎ String) {s : Store}
      → s.case.status ≡ "READY_TO_INVESTIGATE"
      → IsGood world.decision_agent s (troubleshot world run result s)
  unfolding troubleshot
  troubleshot-IsGood (inr error) {s} h = failure-IsGood world.decision_agent error h (Keeps-refl s)
  troubleshot-IsGood (inl c) {s} h =
      let k = store_classification-Keeps world.sources c s in
      let stored =
        record_agent_run_event run "case_classified" "success"
          (store_classification world.sources c s) in
      IsGood-before world.decision_agent stored
        (record { status = k.status; statuses = k.statuses; calls = k.calls })
        (with_agent-IsGood world.decision_agent (entity_map stored.entities) (k.status ∙ h))

  troubleshoot-IsGood :
      {s : Store}
      → s.case.status ≡ "READY_TO_INVESTIGATE"
      → IsGood world.decision_agent s (troubleshoot world run s)
  unfolding troubleshoot
  troubleshoot-IsGood {s} h =
      let k = classify_and_extract-Keeps world.sources s in
      let classified = classify_and_extract world.sources s in
      IsGood-before world.decision_agent classified.0 k
        (troubleshot-IsGood classified.1 (k.status ∙ h))

  respond-IsGood :
      {s : Store}
      → s.case.status ≡ "READY_TO_INVESTIGATE"
      → IsGood world.decision_agent s (respond world run s)
  unfolding respond
  respond-IsGood {s} h =
      let text = latest_user_text s in
      elim (Bool-cases (should_direct_answer_latest_message text (row_of s.case))) [
        | inl direct ↦ rw direct (
            completed-IsGood world.decision_agent run _
              (answer_direct_chat-IsAnswer h world.decision_agent world.answer_chat text))
        | inr problem ↦ rw problem (troubleshoot-IsGood h)
      ]

module _ ⦃py : Runtime⦄ where
  pub process_claimed-IsGood :
      (world : World) (s : Store)
      → (claim s.case.status).accepted ≡ true
      → IsGood world.decision_agent
          (set_status "READY_TO_INVESTIGATE" s)
          (process_claimed world (claim s.case.status) s)
  unfolding process_claimed set_status
  process_claimed-IsGood world s accepted =
      let decision = claim s.case.status in
      let run = length s.runs in
      let ready = rw accepted at (claim_cases s.case.status).1 in
      let started =
        record_agent_run_event run decision.event_type "success"
          (record_agent_run_event run "case_received" "running" (start_agent_run process_run s)) in
      let claimed = set_status decision.next_status started in
      IsGood-before world.decision_agent claimed {s = set_status "READY_TO_INVESTIGATE" s}
        (record { status = ready; statuses = ap (λ a. s.statuses ++ a ∷ []) ready; calls = refl })
        (respond-IsGood world run {s = claimed} ready)
