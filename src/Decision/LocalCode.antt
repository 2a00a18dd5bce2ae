-- ===== src/Decision/LocalCode.antt =====
-- apps/decision-engine/decision_engine: the class `LocalCodeAgent` of agent_team.py, over the interface of
-- the inspector in local_code.py, which it is constructed with.
use ai_troubleshooter.Prelude.{
  ℕ, String, Bool, false, not, ◌&&◌, Option, none, some, List, [], ◌∷◌, mem, is_empty, join, show,
  or_else, filterb, if◌then◌else◌, ◌==◌, ◌<>◌,
}
use ai_troubleshooter.Python.{Runtime, Fields}
use ai_troubleshooter.Decision.Models.{
  Entities, DecisionRequest, AgentReport, agent_report, entity, confidence_35, confidence_56,
}

-- `LocalCodeInspection`; `evidence` is the list of the hits as dictionaries.
pub record LocalCodeInspection : Type 0 where
  pub service_name : String
  pub repo_id : String
  pub status : String
  pub summary : String
  pub evidence : List Fields
  pub skipped_denied_files : ℕ
  pub scanned_files : ℕ
  pub symbol_count : ℕ
  pub call_edge_count : ℕ
  pub resolved_call_edge_count : ℕ
  pub implement_relation_count : ℕ
  pub analysis_modes : List String
  pub analysis_backends : List String
  pub risks : List String

-- What the agent asks of a `LocalCodeInspector`: `inspect(service_name, query_text, repo_hint)`.
pub record LocalCodeInspector : Type 0 where
  pub inspect : String → String → String → LocalCodeInspection

-- `entities.get(key)`, with `None` for a missing key
get_entity : Entities → String → Option String
get_entity [] key = none
get_entity ((k, v) ∷ rest) key = if k == key then some v else get_entity rest key

-- `a or b`
abbrev or_entity : Option String → Option String → Option String
or_entity none b = b
or_entity (some a) b = if a == "" then b else some a

-- `str(value)`
abbrev entity_text : Option String → String
entity_text none = "None"
entity_text (some s) = s

abbrev insufficient_statuses : List String
insufficient_statuses =
    "insufficient" ∷ "inconclusive" ∷ "no_answer" ∷ "no_match" ∷ "need_code_inspection"
    ∷ "needs_code_inspection" ∷ []

abbrev truthy_words : List String
truthy_words = "1" ∷ "true" ∷ "yes" ∷ "y" ∷ "on" ∷ "enabled" ∷ []

module _ ⦃py : Runtime⦄ where
  unfoldable pub truthy_text : String → Bool
  truthy_text value = mem (py.lower value) truthy_words

  unfoldable pub evidence_status : Entities → String
  unfolding get_entity
  evidence_status entities = entity_text (
      or_entity
        (or_entity (get_entity entities "gateway_evidence_status")
          (get_entity entities "tool_evidence_status"))
        (get_entity entities "evidence_status"))

  unfoldable pub should_run : DecisionRequest → Bool
  unfolding truthy_text evidence_status
  should_run request =
      if not (truthy_text (entity request.entities "debug_local_code"))
      then false
      else mem (py.lower (evidence_status request.entities)) insufficient_statuses

unfoldable pub query_text : DecisionRequest → String
unfolding join
query_text request = join " " (
    filterb (λ item. not (item == ""))
      (entity request.entities "suspect_area"
        ∷ entity request.entities "issue_type"
        ∷ request.case.issue_type
        ∷ request.case.original_text
        ∷ request.case.ocr_text
        ∷ []))

inspection_observations : LocalCodeInspection → List String
inspection_observations result =
    ("repo_id=" <> result.repo_id)
    ∷ ("status=" <> result.status)
    ∷ ("scanned_files=" <> show result.scanned_files)
    ∷ ("skipped_denied_files=" <> show result.skipped_denied_files)
    ∷ ("symbol_count=" <> show result.symbol_count)
    ∷ ("call_edge_count=" <> show result.call_edge_count)
    ∷ ("resolved_call_edge_count=" <> show result.resolved_call_edge_count)
    ∷ ("implement_relation_count=" <> show result.implement_relation_count)
    ∷ ("analysis_modes=" <> or_else (join "," result.analysis_modes) "none")
    ∷ ("analysis_backends=" <> or_else (join "," result.analysis_backends) "none")
    ∷ []

-- The report on what the inspector found.
unfoldable pub inspection_report : LocalCodeInspection → AgentReport
unfolding inspection_observations
inspection_report result =
    if result.status == "matched"
    then record (agent_report "local_code_agent" "local_code_inspection" result.summary) {
      confidence = confidence_56;
      observations = inspection_observations result;
      risks = "本地代码证据只能作为调试辅助，不能替代生产只读证据" ∷ [];
      evidence = result.evidence;
    }
    else record (agent_report "local_code_agent" "need_human" result.summary) {
      confidence = confidence_35;
      observations = inspection_observations result;
      risks =
          if is_empty result.risks then "local_code_no_supporting_evidence" ∷ [] else result.risks;
      evidence = result.evidence;
    }

unfoldable pub evaluate_local_code : LocalCodeInspector → DecisionRequest → AgentReport
unfolding query_text inspection_report
evaluate_local_code inspector request =
    let service_name = entity request.entities "service_name" in
    let repo_hint = entity request.entities "repo_hint" in
    if service_name == "" && repo_hint == ""
    then record (agent_report "local_code_agent" "need_human"
        "Gateway 证据不足，但没有提供 service_name 或 repo_hint，无法选择本地仓库。") {
          confidence = confidence_35;
          risks = "local_code_service_hint_missing" ∷ [];
        }
    else inspection_report (inspector.inspect service_name (query_text request) repo_hint)
