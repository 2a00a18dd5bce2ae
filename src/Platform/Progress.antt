-- ===== src/Platform/Progress.antt =====
-- apps/agent-platform/agent_platform/service.py, `build_progress`: the steps that a page shows of a case, from its status
-- and its decision log.
pub mod Steps
use ai_troubleshooter.Prelude.{
  String, Bool, true, false, ◌||◌, Option, none, some, List, [], ◌∷◌, map, mem, if◌then◌else◌, ◌==◌,
}
use ai_troubleshooter.Python.{Runtime, Fields, Value, str, get, or_value, to_text}

-- `reason` and `created_at` are there when the log has the step.
pub record Step : Type 0 where
  pub key : String
  pub title : String
  pub status : String
  pub reason : Option Value
  pub created_at : Option Value

abbrev pub step_titles : List (String × String)
step_titles =
    ("classify_extract", "识别问题领域并抽取实体")
    ∷ ("decision_agent_ready", "确认真实决策 Agent 可用")
    ∷ ("gateway_tool_discovery", "拉取 Gateway 只读工具")
    ∷ ("knowledge_retrieval", "查询平台沉淀经验")
    ∷ ("investigation_brief", "生成 Brief 排障目标")
    ∷ ("orchestrator_plan", "Python Supervisor 制定排查计划")
    ∷ ("tool_invocation", "调用只读工具收集证据")
    ∷ ("summarize_findings", "总结证据并输出结论")
    ∷ ("verifier_final_answer", "校验证据引用和最终置信度")
    ∷ []

-- `ACTIVE_STATUSES` of service.py
abbrev pub service_active_statuses : List String
service_active_statuses = "READY_TO_INVESTIGATE" ∷ "INVESTIGATING" ∷ "WAITING_TOOL_RESULT" ∷ []

abbrev pub ended_statuses : List String
ended_statuses = "NEED_HUMAN_CONFIRMATION" ∷ "DONE" ∷ "FAILED" ∷ []

abbrev pub shown_statuses : List String
shown_statuses = "failed" ∷ "timeout" ∷ "stopped" ∷ "fallback" ∷ "blocked" ∷ []

-- the status of a step that the log has
unfoldable pub step_status : Value → String
step_status (str s) = if mem s shown_statuses then s else "done"
step_status v = "done"

module _ ⦃py : Runtime⦄ where
  -- `by_key.get(key, [])[-1]`
  last_of : String → Option Fields → List Fields → Option Fields
  last_of key found [] = found
  last_of key found (item ∷ rest) =
      last_of key
        (if to_text (or_value (get item "decision_type") (str "")) == key then some item else found)
        rest

  step_of : String × String → Option Fields → Step
  unfolding step_status
  step_of (key, title) none = record {
    key = key;
    title = title;
    status = "pending";
    reason = none;
    created_at = none;
  }
  step_of (key, title) (some latest) = record {
    key = key;
    title = title;
    status = step_status (get latest "status");
    reason = some (or_value (get latest "reason") (str ""));
    created_at = some (get latest "created_at");
  }

  -- the loop over the steps
  unfoldable pub logged_steps : List Fields → List (String × String) → List Step
  unfolding step_of last_of
  logged_steps logs [] = []
  logged_steps logs (step ∷ rest) = step_of step (last_of step.0 none logs) ∷ logged_steps logs rest

-- `steps[first_pending]["status"] = "running"`; a step is pending exactly when the log has none.
unfoldable pub run_first : List Step → List Step
run_first [] = []
run_first (step ∷ rest) =
    let later = step ∷ run_first rest in
    if step.status == "pending" then record step { status = "running" } ∷ rest else later

unfoldable pub skip_pending : List Step → List Step
skip_pending [] = []
skip_pending (step ∷ rest) =
    (if step.status == "pending" then record step { status = "skipped" } else step)
    ∷ skip_pending rest

module _ ⦃py : Runtime⦄ where
  unfoldable pub build_progress : String → List Fields → List Step
  unfolding logged_steps run_first skip_pending
  build_progress status logs =
      let steps = logged_steps logs step_titles in
      let running = if mem status service_active_statuses then run_first steps else steps in
      if mem status ended_statuses then skip_pending running else running
