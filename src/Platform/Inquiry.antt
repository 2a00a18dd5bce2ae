-- ===== src/Platform/Inquiry.antt =====
-- apps/agent-platform/agent_platform/service.py: what `process_case` finds out before it asks the decision layer.
-- The classification, the tools of the Gateway and the matching experience. The confidence of a classification
-- is left out, since nothing reads it, and so is the exception that `float` raises for a huge one.
--
-- The rules of classifier.py that search a text, the language model and the Gateway are asked through
-- the record `Sources`.
use ai_troubleshooter.Prelude.{
  ℕ, String, Bool, true, false, not, ◌||◌, ◌&&◌, List, [], ◌∷◌, ◌++◌, map, length, filterb, strip,
  join, or_else, show, if◌then◌else◌, ◌==◌, ◌<>◌, ◌⊎◌, inl, inr,
}
use ai_troubleshooter.Python.{
  Runtime, ℤ, pos, Value, Fields, null, int, str, dict, field, end, get, truthy, or_value, to_text,
  converted, rejected, overflowed,
}
use ai_troubleshooter.Decision.Models.{
  Entities, KnowledgeCandidate, has_key, entity, ContextLedgerItem,
}
use ai_troubleshooter.Platform.Advisor.{Reply, payload, raised}
use ai_troubleshooter.Platform.Ledger.{sort_texts}
use ai_troubleshooter.Platform.Classifier.{merge_taxonomy}
use ai_troubleshooter.Platform.Case.{
  Store, record_decision, record_context_ledger, add_entities, entity_map, none_if_empty,
}

-- What `classify_and_extract_rules` and `merge_llm_result` return, less the confidence.
pub record Classification : Type 0 where
  pub issue_domain : String
  pub issue_type : String
  pub entities : Entities

-- Where the answers come from: the rules on a text, the date in a text, the language model, the
-- Gateway's `list_tools`, the knowledge rows for a limit, a domain, a type and a status, and which two
-- texts the database takes for the same.
pub record Sources : Type 0 where
  pub classify_and_extract_rules : String → Classification
  pub extract_iso_date : String → String
  pub llm_is_real : Bool
  pub allow_rule_fallback : Bool
  pub llm_classify : String → Reply
  pub list_tools : List Fields ⊎ String
  pub list_knowledge : ℕ → String → String → String → List Fields
  pub same_text : String → String → Bool

-- The limits of the configuration.
pub record Limits : Type 0 where
  pub max_tool_calls_per_case : ℤ
  pub max_tool_failures_per_case : ℤ
  pub max_investigation_seconds : ℤ

-- `entities[key] = value`
unfoldable pub set_entity : String → String → Entities → Entities
set_entity key value [] = (key, value) ∷ []
set_entity key value ((k, v) ∷ rest) =
    if k == key then (k, value) ∷ rest else (k, v) ∷ set_entity key value rest

abbrev date_keys : List String
date_keys =
    "recommendation_date" ∷ "recommend_date" ∷ "recommendationDate" ∷ "recommendDate" ∷ "date"
    ∷ "day" ∷ []

first_date : (String → String) → Entities → List String → String
first_date extract entities [] = ""
first_date extract entities (key ∷ rest) =
    let later = first_date extract entities rest in
    let date = extract (entity entities key) in if not (date == "") then date else later

-- `_normalize_entity_aliases`
unfoldable pub normalize_entity_aliases : (String → String) → String → Entities → Entities
unfolding first_date set_entity
normalize_entity_aliases extract domain entities =
    let date = first_date extract entities date_keys in
    if not (domain == "health_food") || not (entity entities "recommendation_date" == "")
    then entities
    else if date == ""
    then entities
    else set_entity "recommendation_date" date entities

abbrev is_null : Value → Bool
is_null null = true
is_null v = false

module _ ⦃py : Runtime⦄ where
  -- the loop over `raw_entities`
  unfoldable pub merge_entities : Entities → Fields → Entities
  unfolding set_entity strip
  merge_entities entities end = entities
  merge_entities entities (field key value rest) =
      merge_entities
        (if not (is_null value) && not (strip (to_text value) == "")
          then set_entity key (to_text value) entities
          else entities)
        rest

  abbrev merge_raw : Entities → Value → Entities
  merge_raw entities (dict fields) = merge_entities entities fields
  merge_raw entities v = entities

  -- `merge_llm_result`
  unfoldable pub merge_llm_result : (String → String) → Classification → Fields → Classification
  unfolding merge_entities normalize_entity_aliases merge_taxonomy
  merge_llm_result extract rule_result llm_payload =
      let merged = merge_taxonomy rule_result.issue_domain rule_result.issue_type llm_payload in
      let given = merge_raw rule_result.entities (get llm_payload "entities") in
      let typed =
        if not (merged.1 == "") && not (has_key given "issue_type")
        then set_entity "issue_type" merged.1 given
        else given in
      if not (truthy (dict llm_payload)) then rule_result else record {
        issue_domain = merged.0;
        issue_type = merged.1;
        entities = normalize_entity_aliases extract merged.0 typed;
      }

  -- what `_classify_and_extract` does with the reply of the language model
  unfoldable pub classify_reply :
      Sources → Classification → Reply → Store → Store × (Classification ⊎ String)
  unfolding merge_llm_result
  classify_reply sources rule_result (payload fields) s = (
    record_decision "classify_extract" "success" s,
    inl (merge_llm_result sources.extract_iso_date rule_result fields),
  )
  classify_reply sources rule_result (raised error) s =
      if sources.llm_is_real && not sources.allow_rule_fallback
      then (record_decision "classify_extract" "failed" s, inr error)
      else (
        record_decision "classify_extract" (if error == "" then "success" else "fallback") s,
        inl (merge_llm_result sources.extract_iso_date rule_result end),
      )

  -- `_classify_and_extract`: the classification, or the text of the exception that it raises
  unfoldable pub classify_and_extract : Sources → Store → Store × (Classification ⊎ String)
  unfolding classify_reply
  classify_and_extract sources s =
      let text = s.case.original_text <> "\n" <> s.case.ocr_text in
      classify_reply sources (sources.classify_and_extract_rules text) (sources.llm_classify text) s

  -- The writes of `process_case` that follow a classification.
  unfoldable pub store_classification : Sources → Classification → Store → Store
  unfolding add_entities entity_map none_if_empty
  store_classification sources c s =
      let given = filterb (λ (k, v). not (v == "")) c.entities in
      let rows = add_entities sources.same_text s.entities given in
      let entities = entity_map rows in
      record_context_ledger
        (record {
          ledger_type = "case_state";
          ledger_key = "classified_entities";
          summary =
              "domain="
              <> or_else c.issue_domain "unknown"
              <> " issue_type="
              <> or_else c.issue_type "unknown"
              <> " entity_keys="
              <> join "," (sort_texts (map (λ (k, v). k) entities));
          evidence_refs = [];
          source_agent = "agent-platform";
        })
        (record s {
          entities = rows;
          case = record s.case {
            issue_domain = none_if_empty c.issue_domain;
            issue_type = none_if_empty c.issue_type;
            uid =
                none_if_empty (
                  or_else (entity entities "uid") (or_else (entity entities "user_id") s.case.uid));
          };
        })

  abbrev ledger_of : String → String → String → String → ContextLedgerItem
  ledger_of ledger_type ledger_key summary source_agent = record {
    ledger_type = ledger_type;
    ledger_key = ledger_key;
    summary = summary;
    evidence_refs = [];
    source_agent = source_agent;
  }

  -- the two ends of `_list_gateway_tools`
  unfoldable pub listed_tools : List Fields ⊎ String → Store → Store × List Fields
  unfolding show
  listed_tools (inl tools) s = (
    record_context_ledger
        (ledger_of "gateway_tools" "registered_readonly_tools"
          ("Gateway registered readonly tool count=" <> show (length tools)) "gateway-discovery")
        (record_decision "gateway_tool_discovery" "success" s),
    tools,
  )
  listed_tools (inr error) s = (record_decision "gateway_tool_discovery" "failed" s, [])

  -- `_list_gateway_tools`: the exception of the Gateway is caught.
  unfoldable pub list_gateway_tools : Sources → Store → Store × List Fields
  unfolding listed_tools
  list_gateway_tools sources s = listed_tools sources.list_tools s

  -- `float(row.get("confidence") or 0)` and `int(row.get("observed_case_count") or 0)`, in this order
  knowledge_candidate : Fields → KnowledgeCandidate ⊎ String
  knowledge_candidate row = elim (py.to_float (or_value (get row "confidence") (int (pos 0)))) [
    | rejected error ↦ inr error
    | overflowed error ↦ inr error
    | converted confidence ↦
        elim (py.to_int (or_value (get row "observed_case_count") (int (pos 0)))) [
          | inr error ↦ inr error
          | inl count ↦ inl (record {
            title = to_text (or_value (get row "title") (str ""));
            confidence = confidence;
            observed_case_count = count;
            requires_realtime_check = false;
            source = "knowledge:" <> to_text (get row "id");
            summary = to_text (or_value (get row "typical_description") (str ""));
          })
        ]
  ]

  -- a list comprehension whose items may raise
  all_or_error : {A : Type 0} → (Fields → A ⊎ String) → List Fields → List A ⊎ String
  all_or_error f [] = inl []
  all_or_error f (row ∷ rest) =
      let later = all_or_error f rest in
      elim (f row) [
        | inr error ↦ inr error
        | inl x ↦ elim later [ inr error ↦ inr error | inl xs ↦ inl (x ∷ xs) ]
      ]

  knowledge_ref : Fields → List Fields
  knowledge_ref row =
      if truthy (get row "id")
      then field "ref_type" (str "knowledge_item") (
          field "ref_id" (str (to_text (get row "id")))
            (field "tool_name" (str "platform_knowledge") end))
        ∷ []
      else []

  knowledge_refs : List Fields → List Fields
  unfolding knowledge_ref
  knowledge_refs [] = []
  knowledge_refs (row ∷ rest) = knowledge_ref row ++ knowledge_refs rest

  -- `_knowledge_candidates`
  unfoldable pub knowledge_candidates : Sources → Store → Store × (List KnowledgeCandidate ⊎ String)
  unfolding knowledge_candidate all_or_error knowledge_refs show strip
  knowledge_candidates sources s =
      let rows = sources.list_knowledge 3 s.case.issue_domain s.case.issue_type "active" in
      if strip s.case.issue_domain == ""
      then (
        record_context_ledger
            (ledger_of "knowledge_retrieval" "platform_knowledge_candidates"
              "skipped platform knowledge retrieval because issue_domain is unknown"
              "knowledge_agent")
            (record_decision "knowledge_retrieval" "skipped" s),
        inl [],
      )
      else (
        record_context_ledger
            (record (ledger_of "knowledge_retrieval" "platform_knowledge_candidates"
              ("matched platform knowledge count=" <> show (length rows)) "knowledge_agent") {
                evidence_refs = knowledge_refs rows;
              })
            (record_decision "knowledge_retrieval" "success" s),
        all_or_error knowledge_candidate rows,
      )
