-- ===== src/Platform/Process.antt =====
-- apps/agent-platform/agent_platform/service.py, `AgentPlatform.process_case`: from the claim of a case to its
-- answer, with the handler of exceptions and the `finally` block.
--
-- Everything outside the platform is in the record `World`. Whether the time is over is read once, at
-- the end, so it is a Boolean of that record.
pub mod Lifecycle
pub mod Kept
pub mod Branches
pub mod Tools
pub mod Flow
pub mod Settled
use ai_troubleshooter.Prelude.{
  ℕ, String, Bool, true, false, not, ◌||◌, ◌&&◌, Option, none, some, List, [], ◌∷◌, ◌++◌, map,
  length, is_empty, strip, or_else, ends_with, if◌then◌else◌, ◌==◌, ◌<>◌, ◌⊎◌, inl, inr,
}
use ai_troubleshooter.Python.{Runtime, ℤ, Float, Fields, Value, to_text}
use ai_troubleshooter.Decision.Models.{
  Entities, DecisionRequest, DecisionResponse, AgentReport, VerificationReport, KnowledgeCandidate,
  ContextLedgerItem,
}
use ai_troubleshooter.Decision.Supervisor.{Team, plan}
use ai_troubleshooter.Platform.Advisor.{Reply}
use ai_troubleshooter.Platform.Scheduler.{ScheduleDecision, claim}
use ai_troubleshooter.Platform.Messages.{
  should_direct_answer_latest_message, preflight_missing_fields,
}
use ai_troubleshooter.Platform.ToolLoop.{
  Gateway, Run, LedgerEntry, DecisionEntry, tool_invocation, tool_query_stopped, invoke_tools,
}
use ai_troubleshooter.Platform.Case.{
  Store, Message, DecisionRow, AgentRun, create_investigation, finish_investigation, row_of,
  set_status, add_message, record_decision, record_context_ledger, record_agent_run_event,
  start_agent_run, finish_agent_run, entity_map,
}
use ai_troubleshooter.Platform.Inquiry.{
  Sources, Limits, Classification, classify_and_extract, store_classification, list_gateway_tools,
  knowledge_candidates,
}
use ai_troubleshooter.Platform.Request.{investigation_brief, record_brief, decision_request}
use ai_troubleshooter.Platform.Summarize.{Writer, ref_fields, summarize}
use ai_troubleshooter.Platform.Answers.{
  CaseResult, Outcome, result_of, tagged, DecisionAgent, ask_user, require_decision_agent,
  need_human_reply, answer_from_knowledge, answer_from_local_code, answer_direct_chat,
}

pub record World : Type 0 where
  pub sources : Sources
  pub limits : Limits
  pub decision_agent : Option DecisionAgent
  pub answer_chat : Option (String → Reply)
  pub team : Team
  pub gateway : Gateway
  pub writer : Writer
  pub local_code_findings : DecisionResponse → String
  pub time_is_over : Bool

abbrev pub process_run : AgentRun
process_run = record {
  agent_name = "supervisor";
  agent_role = "orchestrator";
  trigger_type = "case_process";
  run_status = "running";
}

-- `_agent_role`
unfoldable agent_role : String → String
unfolding ends_with
agent_role name =
    if name == "knowledge_agent"
    then "knowledge"
    else if name == "local_code_agent"
    then "local_code"
    else if name == "llm_decision_agent"
    then "decision_advisor"
    else if name == "verifier"
    then "verifier"
    else if ends_with "_agent" name
    then "specialist"
    else "agent"

abbrev completed_run : String → String → AgentRun
completed_run name trigger = record {
  agent_name = name;
  agent_role = agent_role name;
  trigger_type = trigger;
  run_status = "completed";
}

-- the loop of `_record_agent_report_runs`
record_reports : ℕ → List AgentReport → Store → Store
unfolding agent_role
record_reports parent [] s = s
record_reports parent (report ∷ rest) s = record_reports parent rest (
    if report.agent_name == "supervisor"
    then record_agent_run_event parent "agent_report" "success" s
    else record_agent_run_event (length s.runs) "agent_report" "success"
        (start_agent_run (completed_run report.agent_name "supervisor_dispatch") s))

record_verification : Option VerificationReport → Store → Store
record_verification none s = s
record_verification (some v) s =
    record_agent_run_event (length s.runs) "verification"
      (if v.accepted then "success" else "failed")
      (start_agent_run (completed_run "verifier" "verify_plan") s)

-- `_record_agent_report_runs`
unfoldable pub record_agent_report_runs : ℕ → DecisionResponse → Store → Store
unfolding record_reports record_verification
record_agent_report_runs parent decision s =
    record_verification decision.verification (record_reports parent decision.agent_reports s)

-- `_finish_agent_run(process_run, "completed", ...)` and `return result`
abbrev pub completed : ℕ → Store × CaseResult → Outcome
completed run (s, result) = (finish_agent_run run "completed" s, inl result)

-- the handler of exceptions, which raises them again
unfoldable pub handle : ℕ → Outcome → Outcome
handle run (s, inl result) = (s, inl result)
handle run (s, inr error) = (
  set_status "FAILED" (
      add_message "system" ("排查失败：" <> error)
        (finish_agent_run run "failed" (record_decision "process_failure" "failed" s))),
  inr error,
)

-- the `finally` block
unfoldable pub finalize : Bool → Outcome → Outcome
finalize time_is_over (s, result) =
    if time_is_over then (set_status "FAILED" s, result) else (s, result)

-- the claim is refused
unfoldable pub skip_case : Store → Outcome
skip_case s =
    let t = record_decision "process_skipped" "skipped" s in
    (t, inl (result_of s (tagged s ("当前状态为 " <> s.case.status <> "，跳过重复排障。"))))

module _ ⦃py : Runtime⦄ where
  -- the content of the last message of the user, or "" if there is none
  last_user : String → List Message → String
  last_user before [] = before
  last_user before (m ∷ rest) =
      last_user (if py.lower m.role == "user" then strip m.content else before) rest

  -- `_latest_user_text`
  unfoldable pub latest_user_text : Store → String
  unfolding last_user strip
  latest_user_text s = last_user (strip s.case.original_text) s.messages

  -- the rows that a run over tools writes to the decision log and to the ledger
  decision_row : DecisionEntry → DecisionRow
  decision_row (tool_invocation plan answer status) = record {
    decision_type = "tool_invocation";
    status = to_text status;
  }
  decision_row (tool_query_stopped budget failures) = record {
    decision_type = "tool_query_stopped";
    status = "stopped";
  }

  ledger_row : LedgerEntry → ContextLedgerItem
  ledger_row entry = record {
    ledger_type = "tool_evidence";
    ledger_key = entry.ledger_key;
    summary = entry.summary;
    evidence_refs = map ref_fields entry.evidence_refs;
    source_agent = "tool:" <> entry.ledger_key;
  }

  unfoldable pub record_run : Run → Store → Store
  unfolding decision_row ledger_row
  record_run t s = record (set_status t.case_status s) {
    calls = s.calls ++ t.calls;
    decisions = s.decisions ++ map decision_row t.decisions;
    ledger = s.ledger ++ map ledger_row t.ledger;
  }

  -- what is behind the summary of a run over tools, or behind the exception that it raises
  unfoldable pub concluded : ℕ → ℕ → Run → (String × Float) ⊎ String → Store → Outcome
  concluded run investigation t (inr error) s = (s, inr error)
  concluded run investigation t (inl (summary, confidence)) s =
      let reply = tagged s summary in
      let u =
        set_status "NEED_HUMAN_CONFIRMATION"
          (add_message "agent" reply (finish_investigation investigation summary s)) in
      (
        finish_agent_run run "completed" u,
        inl (record (result_of u reply) { tool_call_ids = t.tool_call_ids }),
      )

  unfoldable pub conclude : World → ℕ → ℕ → Run → Store → Outcome
  unfolding concluded
  conclude world run investigation t s =
      let summarized = summarize world.writer t.observations s in
      concluded run investigation t summarized.1 summarized.0

  -- the branch for `invoke_tools`
  unfoldable pub investigate : World → ℕ → DecisionResponse → Store → Outcome
  unfolding conclude record_run
  investigate world run decision s =
      let t =
        invoke_tools world.gateway world.limits.max_tool_calls_per_case
          world.limits.max_tool_failures_per_case decision.tool_plan in
      let investigating = record_agent_run_event run "investigation_started" "running" (
        create_investigation
          ("domain="
            <> or_else s.case.issue_domain "None"
            <> " issue_type="
            <> or_else s.case.issue_type "None")
          (set_status "INVESTIGATING" s)) in
      conclude world run (length s.investigations) t (
        record_agent_run_event run "tool_execution_finished" "success" (record_run t investigating))

  -- the branches on the action of a decision
  unfoldable pub act : World → ℕ → DecisionResponse → Store → Outcome
  unfolding investigate
  act world run decision s =
      if decision.action == "ask_user"
      then completed run (ask_user decision.missing_fields s)
      else if decision.action == "answer_from_knowledge"
      then completed run (answer_from_knowledge decision.knowledge_source decision.reason s)
      else if decision.action == "local_code_inspection"
      then completed run (answer_from_local_code world.local_code_findings decision s)
      else if not (decision.action == "invoke_tools")
      then completed run (need_human_reply decision.reason s)
      else investigate world run decision s

  -- the writes that follow the answer of the decision layer
  abbrev pub record_plan : ℕ → DecisionResponse → Store → Store
  record_plan run decision s =
      record_context_ledger
        (record {
          ledger_type = "agent_report";
          ledger_key = "orchestrator_plan";
          summary = decision.reason;
          evidence_refs = [];
          source_agent = "supervisor";
        })
        (record_agent_report_runs run decision (
          record_agent_run_event run "orchestrator_plan" "success"
            (record_decision "orchestrator_plan" "success" s)))

  -- behind the request, if it can be made
  unfoldable pub decided : World → ℕ → DecisionRequest ⊎ String → Store → Outcome
  unfolding act
  decided world run (inr error) s = (s, inr error)
  decided world run (inl request) s =
      let decision = plan world.team request in act world run decision (record_plan run decision s)

  -- the knowledge is there: the brief, the request, the decision
  unfoldable pub decide :
      World → ℕ → Entities → List Fields → List KnowledgeCandidate → Store → Outcome
  unfolding decided
  decide world run entities tools knowledge s =
      let brief = investigation_brief world.limits (row_of s.case) entities tools knowledge in
      let briefed =
        record_agent_run_event run "investigation_brief_built" "success"
          (record_brief brief (record_agent_run_event run "knowledge_loaded" "success" s)) in
      decided world run (decision_request world.limits briefed entities tools knowledge brief)
        briefed

  -- behind the load of the knowledge
  unfoldable pub inquired :
      World → ℕ → Entities → List Fields → List KnowledgeCandidate ⊎ String → Store → Outcome
  unfolding decide
  inquired world run entities tools (inr error) s = (s, inr error)
  inquired world run entities tools (inl candidates) s =
      decide world run entities tools candidates s

  -- a real decision agent is enabled
  unfoldable pub inquire : World → ℕ → Entities → Store → Outcome
  unfolding inquired
  inquire world run entities s =
      let ready =
        record_agent_run_event run "decision_agent_ready" "success"
          (record_decision "decision_agent_ready" "success" s) in
      let listed = list_gateway_tools world.sources ready in
      let known =
        knowledge_candidates world.sources
          (record_agent_run_event run "gateway_tools_loaded" "success" listed.0) in
      inquired world run entities listed.1 known.1 known.0

  -- no real decision agent is enabled
  unfoldable pub without_agent : ℕ → Entities → Store → Outcome
  unfolding preflight_missing_fields
  without_agent run entities s =
      let missing_fields = preflight_missing_fields (row_of s.case) entities in
      let blocked = require_decision_agent s in
      if not (is_empty missing_fields)
      then completed run (
          ask_user missing_fields (
            record_agent_run_event run "intake_preflight" "success"
              (record_decision "intake_preflight" "success" s)))
      else completed run
          (record_agent_run_event run "decision_agent_required" "blocked" blocked.0, blocked.1)

  unfoldable pub with_agent : World → Option DecisionAgent → ℕ → Entities → Store → Outcome
  unfolding inquire without_agent
  with_agent world none run entities s = without_agent run entities s
  with_agent world (some agent) run entities s = inquire world run entities s

  -- behind the classification
  unfoldable pub troubleshot : World → ℕ → Classification ⊎ String → Store → Outcome
  unfolding with_agent
  troubleshot world run (inr error) s = (s, inr error)
  troubleshot world run (inl c) s =
      let stored =
        record_agent_run_event run "case_classified" "success"
          (store_classification world.sources c s) in
      with_agent world world.decision_agent run (entity_map stored.entities) stored

  -- the text is no direct question
  unfoldable pub troubleshoot : World → ℕ → Store → Outcome
  unfolding troubleshot
  troubleshoot world run s =
      let classified = classify_and_extract world.sources s in
      troubleshot world run classified.1 classified.0

  -- the case is claimed
  unfoldable pub respond : World → ℕ → Store → Outcome
  unfolding troubleshoot
  respond world run s =
      if should_direct_answer_latest_message (latest_user_text s) (row_of s.case)
      then completed run
          (answer_direct_chat world.decision_agent world.answer_chat (latest_user_text s) s)
      else troubleshoot world run s

  -- the `try` block behind the claim
  unfoldable pub process_claimed : World → ScheduleDecision → Store → Outcome
  unfolding respond
  process_claimed world decision s =
      let run = length s.runs in
      let started =
        record_agent_run_event run decision.event_type "success"
          (record_agent_run_event run "case_received" "running" (start_agent_run process_run s)) in
      respond world run (set_status decision.next_status started)

  -- `process_case`
  unfoldable pub process_case : World → Store → Outcome
  unfolding process_claimed handle finalize skip_case
  process_case world s =
      let decision = claim s.case.status in
      if not decision.accepted
      then skip_case s
      else finalize world.time_is_over (handle (length s.runs) (process_claimed world decision s))
