-- ===== src/Platform/Answers.antt =====
-- apps/agent-platform/agent_platform/service.py: the ways in which `process_case` answers. Each writes its message
-- and its status and returns the result; the last puts the observations of the tools into a summary.
--
-- The text that a local code inspection adds to its reply is a parameter.
use ai_troubleshooter.Prelude.{
  ℕ, String, Option, none, some, List, [], ◌∷◌, length, strip, if◌then◌else◌, ◌==◌, ◌<>◌, ◌⊎◌,
}
use ai_troubleshooter.Python.{Runtime, Fields, str, field, end, get, or_value, to_text}
use ai_troubleshooter.Decision.Models.{DecisionResponse}
use ai_troubleshooter.Platform.Advisor.{Reply, payload, raised}
use ai_troubleshooter.Platform.Messages.{missing_reply}
use ai_troubleshooter.Platform.Case.{
  Store, AgentRun, set_status, add_message, record_decision, record_context_ledger,
  record_agent_run_event, start_agent_run, finish_agent_run, create_investigation,
  finish_investigation,
}

-- The dictionary that `process_case` returns.
pub record CaseResult : Type 0 where
  pub status : String
  pub reply : String
  pub missing_fields : List String
  pub tool_call_ids : List String
  pub blocked : String

-- A step of `process_case` ends in a result or in the text of an exception.
abbrev pub Outcome : Type 0
Outcome = Store × (CaseResult ⊎ String)

abbrev pub result_of : Store → String → CaseResult
result_of s reply = record {
  status = s.case.status;
  reply = reply;
  missing_fields = [];
  tool_call_ids = [];
  blocked = "";
}

-- What `_decision_agent_source` returns.
pub record DecisionAgent : Type 0 where
  pub source : String
  pub provider : String

abbrev pub tagged : Store → String → String
tagged s text = "[" <> s.case.case_no <> "] " <> text

-- a message with a status behind it, and the result
abbrev pub answer : String → String → String → Store → Store
answer role reply status s = set_status status (add_message role reply s)

-- `_ask_user`
unfoldable pub ask_user : List String → Store → Store × CaseResult
unfolding missing_reply
ask_user missing_fields s =
    let reply = missing_reply s.case.case_no missing_fields in
    let t = answer "bot" reply "WAITING_USER_REPLY" (set_status "NEED_MORE_INFO" s) in
    (t, record (result_of t reply) { missing_fields = missing_fields })

-- `_require_decision_agent`
unfoldable pub require_decision_agent : Store → Store × CaseResult
require_decision_agent s =
    let reply = tagged s (
      "当前未启用真实决策 Agent，已停止排障。我不会查询 Gateway、平台经验或用 local_rules 给排障结论。"
      <> "请先在右侧启用 Codex/Claude Code 等本地决策 Agent，"
      <> "或配置 Qwen/GPT/Claude/公司模型网关并设置 DECISION_LLM_ENABLED=true 后重新提交。") in
    let t =
      answer "agent" reply "WAITING_USER_REPLY"
        (record_decision "decision_agent_ready" "blocked" s) in
    (t, record (result_of t reply) { blocked = "decision_agent_required" })

-- `_need_human`
unfoldable pub need_human_reply : String → Store → Store × CaseResult
need_human_reply reason s =
    let reply = tagged s ("当前无法形成安全可执行的只读工具计划：" <> reason) in
    let t = answer "agent" reply "NEED_HUMAN_CONFIRMATION" s in (t, result_of t reply)

abbrev source_refs : String → List Fields
source_refs source =
    if source == ""
    then []
    else field "ref_type" (str "knowledge_item")
        (field "ref_id" (str source) (field "tool_name" (str "platform_knowledge") end))
      ∷ []

-- `_answer_from_knowledge`; with no observations there are no boundary notes.
unfoldable pub answer_from_knowledge : String → String → Store → Store × CaseResult
answer_from_knowledge source reason s =
    let reply = tagged s ("平台经验命中：" <> source <> "。" <> reason <> " 请业务 Owner 确认根因后沉淀为正式经验。") in
    let t = set_status "NEED_HUMAN_CONFIRMATION" (
      record_context_ledger
        (record {
          ledger_type = "final_summary";
          ledger_key = "knowledge_answer";
          summary = reply;
          evidence_refs = source_refs source;
          source_agent = "knowledge_agent";
        })
        (add_message "agent" reply (
          finish_investigation (length s.investigations) reply (
            create_investigation "high-confidence platform knowledge matched"
              (set_status "INVESTIGATING" s))))) in
    (t, result_of t reply)

-- `_answer_from_local_code`, given the text of the findings
unfoldable pub answer_from_local_code :
    (DecisionResponse → String) → DecisionResponse → Store → Store × CaseResult
answer_from_local_code findings decision s =
    let reply = tagged s (
      "本地代码辅助排查已完成："
      <> decision.reason
      <> "\n"
      <> "注意：这不是生产证据，只能作为最后手段的本地代码定位线索；最终仍要用 Gateway/DB/日志确认。"
      <> findings decision) in
    let t = set_status "NEED_HUMAN_CONFIRMATION" (
      record_context_ledger
        (record {
          ledger_type = "final_summary";
          ledger_key = "local_code_inspection_summary";
          summary = reply;
          evidence_refs = [];
          source_agent = "local_code_agent";
        })
        (add_message "agent" reply s)) in
    (t, result_of t reply)

abbrev direct_run : AgentRun
direct_run = record {
  agent_name = "llm_decision_agent";
  agent_role = "decision_advisor";
  trigger_type = "direct_chat";
  run_status = "running";
}

-- the `except` of the direct answer
unfoldable pub direct_failed : ℕ → String → Store → Store × CaseResult
direct_failed run error s =
    let reply = tagged s ("决策层 Agent 直接回答失败：" <> error <> "。我没有查询 Gateway、平台经验或下游服务。") in
    let t =
      answer "agent" reply "WAITING_USER_REPLY"
        (record_decision "decision_agent_direct_answer" "failed" s) in
    (finish_agent_run run "failed" t, result_of t reply)

-- the rest of its `try`, for a reply that is not empty
unfoldable pub direct_replied : ℕ → String → Store → Store × CaseResult
direct_replied run reply_body s =
    let reply = tagged s reply_body in
    let t = set_status "WAITING_USER_REPLY" (
      record_context_ledger
        (record {
          ledger_type = "agent_report";
          ledger_key = "direct_chat_answer";
          summary = reply;
          evidence_refs = [];
          source_agent = "llm_decision_agent";
        })
        (add_message "agent" reply (record_decision "decision_agent_direct_answer" "success" s))) in
    (finish_agent_run run "completed" t, result_of t reply)

-- no real decision agent is enabled
unfoldable pub direct_blocked : Store → Store × CaseResult
direct_blocked s =
    let reply = tagged s (
      "当前未启用真实决策 Agent，不能用 local_rules 回答平台咨询或普通对话。" <> "请先在右侧启用 Codex/Claude Code 等本地决策 Agent，"
      <> "或配置真实 LLM 并设置 DECISION_LLM_ENABLED=true。") in
    let t =
      answer "agent" reply "WAITING_USER_REPLY"
        (record_decision "decision_agent_direct_answer" "blocked" s) in
    (t, record (result_of t reply) { blocked = "decision_agent_required" })

-- the agent that is enabled has no client
unfoldable pub direct_unavailable : Store → Store × CaseResult
direct_unavailable s =
    let reply = tagged s "决策层 Agent 配置不可用，已停止回答；未查询 Gateway 或平台经验。" in
    let t = answer "agent" reply "WAITING_USER_REPLY" s in
    (t, record (result_of t reply) { blocked = "decision_agent_unavailable" })

module _ ⦃py : Runtime⦄ where
  unfoldable pub reply_body_of : Fields → String
  unfolding strip
  reply_body_of fields = strip (to_text (or_value (get fields "reply") (str "")))

  unfoldable pub direct_reply : ℕ → Reply → Store → Store × CaseResult
  unfolding reply_body_of direct_failed direct_replied
  direct_reply run (raised error) s = direct_failed run error s
  direct_reply run (payload fields) s =
      if reply_body_of fields == ""
      then direct_failed run "decision agent returned empty reply" s
      else direct_replied run (reply_body_of fields) s

  -- `_answer_direct_chat_with_decision_agent`, given the agent, its client (`answer_chat`) if there is
  -- one, and the latest text
  unfoldable pub answer_direct_chat :
      Option DecisionAgent → Option (String → Reply) → String → Store → Store × CaseResult
  unfolding direct_reply direct_blocked direct_unavailable
  answer_direct_chat none llm latest_text s = direct_blocked s
  answer_direct_chat (some agent) none latest_text s = direct_unavailable s
  answer_direct_chat (some agent) (some answer_chat) latest_text s =
      let run = length s.runs in
      direct_reply run (answer_chat latest_text)
        (record_agent_run_event run "direct_chat_started" "running" (start_agent_run direct_run s))
