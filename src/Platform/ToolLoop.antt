-- ===== src/Platform/ToolLoop.antt =====
-- apps/agent-platform/agent_platform/service.py, `AgentPlatform._invoke_tools`: the calls of the Gateway for
-- the tool plan of a decision.
--
-- The Gateway is a service: its answer to a call is a parameter and may depend on the calls made
-- before. What the loop writes to the repository is kept as lists in the order of writing; a write is
-- taken to succeed, and the latencies are left out.
pub mod Bounds
pub mod Carried
use ai_troubleshooter.Prelude.{
  ℕ, suc, ◌+◌, ◌-◌, String, Bool, true, false, not, List, [], ◌∷◌, ◌++◌, take, length, ltb, leb,
  if◌then◌else◌, ◌==◌,
}
use ai_troubleshooter.Python.{Runtime, ℤ, pos, negsuc, Value, Fields, str, get, or_value, to_text}
use ai_troubleshooter.Decision.Models.{ToolPlan}
use ai_troubleshooter.Platform.Ledger.{
  EvidenceRef, Observation, compact_tool_observation, compact_failed_observation,
}

-- What `gateway.invoke_tool` comes to: a JSON object, or the text of an exception.
pub data Answer : Type 0 where
  responded : Fields → Answer
  raised : String → Answer

abbrev pub Gateway : Type 0
Gateway = List ToolPlan → ToolPlan → Answer

-- A row of the context ledger; its type is `tool_evidence` and its source `tool:` and the tool's name.
pub record LedgerEntry : Type 0 where
  pub ledger_key : String
  pub summary : String
  pub evidence_refs : List EvidenceRef
  pub payload : Observation

-- A row of the decision log.
pub data DecisionEntry : Type 0 where
  tool_invocation : ToolPlan → Answer → Value → DecisionEntry
  tool_query_stopped : ℤ → ℕ → DecisionEntry

-- What the loop holds and has written; `calls` are the plans that the Gateway was called with.
pub record Run : Type 0 where
  pub case_status : String
  pub calls : List ToolPlan
  pub tool_call_ids : List String
  pub observations : List Observation
  pub failures : ℕ
  pub ledger : List LedgerEntry
  pub decisions : List DecisionEntry

-- `failures >= max_tool_failures`
abbrev pub exhausted : ℤ → ℕ → Bool
exhausted (pos m) failures = leb m failures
exhausted (negsuc m) failures = true

-- `xs[:n]`; a negative bound counts from the end.
abbrev pub slice_to : {A : Type 0} → ℤ → List A → List A
slice_to (pos n) xs = take n xs
slice_to (negsuc n) xs = take (length xs - suc n) xs

-- `status == "success"`
abbrev pub is_success_value : Value → Bool
is_success_value (str s) = s == "success"
is_success_value v = false

abbrev observe : Run → ToolPlan → Observation → Run
observe s plan observation = record s {
  calls = s.calls ++ plan ∷ [];
  observations = s.observations ++ observation ∷ [];
  ledger =
      s.ledger
      ++ record {
        ledger_key = plan.tool_name;
        summary = observation.summary;
        evidence_refs = observation.evidence_refs;
        payload = observation;
      }
        ∷ [];
}

-- The handler of an exception.
unfoldable pub fail_call : Run → ToolPlan → String → Run
fail_call s plan error = record (observe s plan (compact_failed_observation plan.tool_name error)) {
  failures = s.failures + 1;
  decisions = s.decisions ++ tool_invocation plan (raised error) (str "failed") ∷ [];
}

-- `break` after the failure budget
unfoldable pub stop : ℤ → Run → Run
stop max_failures s = record s {
  decisions = s.decisions ++ tool_query_stopped max_failures s.failures ∷ [];
}

-- `self._transition(case, "WAITING_TOOL_RESULT")` and the empty lists
abbrev pub started : Run
started = record {
  case_status = "WAITING_TOOL_RESULT";
  calls = [];
  tool_call_ids = [];
  observations = [];
  failures = 0;
  ledger = [];
  decisions = [];
}

module _ ⦃py : Runtime⦄ where
  -- The rest of the `try` block when the Gateway has answered.
  unfoldable pub accept_call : Run → ToolPlan → Fields → Run
  accept_call s plan response =
      let status = or_value (get response "status") (str "success") in
      let observation = compact_tool_observation plan.tool_name (to_text status) response in
      record (observe s plan observation) {
        failures = if is_success_value status then s.failures else s.failures + 1;
        tool_call_ids =
            s.tool_call_ids ++ to_text (or_value (get response "tool_call_id") (str "")) ∷ [];
        decisions = s.decisions ++ tool_invocation plan (responded response) status ∷ [];
      }

  unfoldable pub invoke_one : Gateway → Run → ToolPlan → Run
  unfolding accept_call fail_call
  invoke_one gateway s plan = elim (gateway s.calls plan) [
    | responded response ↦ accept_call s plan response
    | raised error ↦ fail_call s plan error
  ]

  -- the `for` loop
  unfoldable pub invoke_each : Gateway → ℤ → Run → List ToolPlan → Run
  unfolding invoke_one stop
  invoke_each gateway max_failures s [] = s
  invoke_each gateway max_failures s (plan ∷ rest) =
      let more = invoke_each gateway max_failures (invoke_one gateway s plan) rest in
      if exhausted max_failures s.failures then stop max_failures s else more

  -- `_invoke_tools`, given `max_tool_calls_per_case` and `max_tool_failures_per_case`
  unfoldable pub invoke_tools : Gateway → ℤ → ℤ → List ToolPlan → Run
  unfolding invoke_each
  invoke_tools gateway max_calls max_failures tool_plan =
      invoke_each gateway max_failures started (slice_to max_calls tool_plan)
