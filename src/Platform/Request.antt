-- ===== src/Platform/Request.antt =====
-- apps/agent-platform/agent_platform/service.py: the investigation brief, which is written to the ledger and the
-- decision log, and the request that the decision layer gets.
use ai_troubleshooter.Prelude.{
  drop, ℕ, ◌-◌, String, true, not, List, [], ◌∷◌, map, take, length, filterb, join, some, ◌==◌,
  ◌<>◌, ◌⊎◌, inl, inr,
}
use ai_troubleshooter.Python.{
  Runtime, pos, Fields, Items, bool, int, str, list, nil, cons, field, end, get, or_value, to_text,
}
use ai_troubleshooter.Decision.Models.{
  Entities, ToolSpec, KnowledgeCandidate, InvestigationBrief, DecisionRequest,
}
use ai_troubleshooter.Platform.Ledger.{sort_texts}
use ai_troubleshooter.Platform.Brief.{field_text, tool_name_of, brief_hypotheses, brief_goal}
use ai_troubleshooter.Platform.Summary.{brief_problem}
use ai_troubleshooter.Platform.Inquiry.{Limits}
use ai_troubleshooter.Platform.Case.{Store, record_decision, record_context_ledger}

abbrev texts : List String → Items
texts [] = nil
texts (s ∷ rest) = cons (str s) (texts rest)

-- `ORDER BY id DESC LIMIT n`, in the order of the ids again
abbrev pub last_rows : {A : Type 0} → ℕ → List A → List A
last_rows n xs = drop (length xs - n) xs

module _ ⦃py : Runtime⦄ where
  abbrev given_names : List Fields → List String
  given_names tools = filterb (λ name. not (name == "")) (map tool_name_of tools)

  -- `_brief_available_evidence`
  unfoldable pub brief_available_evidence :
      Fields → Entities → List Fields → List KnowledgeCandidate → List Fields
  unfolding join sort_texts
  brief_available_evidence case' entities tools knowledge =
      field "source" (str "case") (
        field "kind" (str "case_snapshot") (
          field "summary"
            (str (
              "case_no="
              <> to_text (get case' "case_no")
              <> " domain="
              <> to_text (or_value (get case' "issue_domain") (str "unknown"))
              <> " issue_type="
              <> to_text (or_value (get case' "issue_type") (str "unknown"))))
            end))
      ∷ field "source" (str "platform_mysql") (
          field "kind" (str "entities") (
            field "summary"
              (str ("entity_keys=" <> join "," (sort_texts (map (λ (k, v). k) entities)))) end))
      ∷ field "source" (str "gateway") (
          field "kind" (str "readonly_tools") (
            field "count" (int (pos (length (given_names tools))))
              (field "names" (list (texts (take 12 (given_names tools)))) end)))
      ∷ field "source" (str "platform_mysql") (
          field "kind" (str "knowledge_candidates") (
            field "count" (int (pos (length knowledge)))
              (field "sources" (list (texts (map (λ item. item.source) (take 5 knowledge)))) end)))
      ∷ []

  -- the brief that `_build_investigation_brief` makes
  unfoldable pub investigation_brief :
      Limits → Fields → Entities → List Fields → List KnowledgeCandidate → InvestigationBrief
  unfolding brief_problem brief_goal brief_hypotheses brief_available_evidence
  investigation_brief limits case' entities tools knowledge = record {
    problem = brief_problem case';
    goal = brief_goal case' entities;
    success_criteria =
        "结论必须引用平台经验、Gateway 只读工具、真实日志/DB 或 debug-only 本地代码线索之一" ∷ "证据不足时必须追问或转人工确认，不能编造下游状态"
        ∷ "每个工具调用必须说明对应假设和预期证据" ∷ [];
    constraints = field "gateway_only" (bool true) (
        field "readonly_only" (bool true) (
          field "max_tool_calls" (int limits.max_tool_calls_per_case) (
            field "max_tool_failures" (int limits.max_tool_failures_per_case) (
              field "timeout_seconds" (int limits.max_investigation_seconds)
                (field "local_code_debug_only" (bool true) end)))));
    hypotheses = brief_hypotheses case' entities tools knowledge;
    available_evidence = brief_available_evidence case' entities tools knowledge;
    stop_conditions =
        "missing_required_user_identifier" ∷ "no_verified_tool_plan" ∷ "tool_budget_exhausted"
        ∷ "tool_failure_budget_exhausted" ∷ "gateway_timeout_or_unavailable"
        ∷ "evidence_inconclusive_requires_human" ∷ [];
  }

  -- the two writes of `_build_investigation_brief`
  unfoldable pub record_brief : InvestigationBrief → Store → Store
  record_brief brief s = record_decision "investigation_brief" "success" (
      record_context_ledger
        (record {
          ledger_type = "investigation_brief";
          ledger_key = "current";
          summary = brief.goal;
          evidence_refs = [];
          source_agent = "supervisor";
        })
        s)

  -- `ToolSpec(...)`; `int` may raise.
  unfoldable pub tool_spec : Fields → ToolSpec ⊎ String
  tool_spec item = elim (py.to_int (or_value (get item "max_time_range_minutes") (int (pos 0)))) [
    | inr error ↦ inr error
    | inl minutes ↦ elim (py.to_int (or_value (get item "max_limit") (int (pos 0)))) [
      | inr error ↦ inr error
      | inl limit ↦ inl (record {
        name = tool_name_of item;
        required_scope = field_text item "required_scope";
        max_time_range_minutes = minutes;
        max_limit = limit;
      })
    ]
  ]

  unfoldable pub tool_specs : List Fields → List ToolSpec ⊎ String
  unfolding tool_spec
  tool_specs [] = inl []
  tool_specs (item ∷ rest) =
      let later = tool_specs rest in
      elim (tool_spec item) [
        | inr error ↦ inr error
        | inl spec ↦ elim later [ inr error ↦ inr error | inl specs ↦ inl (spec ∷ specs) ]
      ]

  abbrev request_with :
      Limits
      → Store
      → Entities
      → List KnowledgeCandidate
      → InvestigationBrief
      → List ToolSpec
      → DecisionRequest
  request_with limits s entities knowledge brief specs = record {
    case = record {
      case_no = s.case.case_no;
      issue_domain = s.case.issue_domain;
      issue_type = s.case.issue_type;
      original_text = s.case.original_text;
      ocr_text = s.case.ocr_text;
      source = s.case.source;
      uid = s.case.uid;
      reporter_user_id = s.case.reporter_user_id;
      chat_id = s.case.chat_id;
    };
    entities = entities;
    available_tools = specs;
    knowledge_candidates = knowledge;
    context_ledger = last_rows 50 s.ledger;
    investigation_brief = some brief;
    max_tool_calls = limits.max_tool_calls_per_case;
  }

  -- `_decision_request`
  unfoldable pub decision_request :
      Limits
      → Store
      → Entities
      → List Fields
      → List KnowledgeCandidate
      → InvestigationBrief
      → DecisionRequest ⊎ String
  unfolding tool_specs
  decision_request limits s entities tools knowledge brief = elim (tool_specs tools) [
    | inr error ↦ inr error
    | inl specs ↦ inl (request_with limits s entities knowledge brief specs)
  ]
