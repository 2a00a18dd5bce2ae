-- ===== src/Decision/Models.antt =====
-- apps/decision-engine/decision_engine/models.py: the records that the decision layer passes about.
--
-- A dictionary of texts is an association list in the order of insertion. A hypothesis of the brief
-- is the record of the four keys that `_brief_hypotheses` of the platform's service.py writes; a JSON
-- request whose hypotheses hold values of other types is not modelled.
use ai_troubleshooter.Prelude.{
  ℕ, String, Bool, true, false, Option, List, [], ◌∷◌, if◌then◌else◌, ◌==◌,
}
use ai_troubleshooter.Python.{ℤ, Float, Fields, finite, pos, double}

abbrev pub Entities : Type 0
Entities = List (String × String)

pub record CaseSnapshot : Type 0 where
  pub case_no : String
  pub issue_domain : String
  pub issue_type : String
  pub original_text : String
  pub ocr_text : String
  pub source : String
  pub uid : String
  pub reporter_user_id : String
  pub chat_id : String

pub record ToolSpec : Type 0 where
  pub name : String
  pub required_scope : String
  pub max_time_range_minutes : ℤ
  pub max_limit : ℤ

pub record KnowledgeCandidate : Type 0 where
  pub title : String
  pub confidence : Float
  pub observed_case_count : ℤ
  pub requires_realtime_check : Bool
  pub source : String
  pub summary : String

pub record ContextLedgerItem : Type 0 where
  pub ledger_type : String
  pub ledger_key : String
  pub summary : String
  pub evidence_refs : List Fields
  pub source_agent : String

pub record Hypothesis : Type 0 where
  pub id : String
  pub question : String
  pub expected_evidence : String
  pub candidate_tools : List String

pub record InvestigationBrief : Type 0 where
  pub problem : String
  pub goal : String
  pub success_criteria : List String
  pub constraints : Fields
  pub hypotheses : List Hypothesis
  pub available_evidence : List Fields
  pub stop_conditions : List String

pub record DecisionRequest : Type 0 where
  pub case : CaseSnapshot
  pub entities : Entities
  pub available_tools : List ToolSpec
  pub knowledge_candidates : List KnowledgeCandidate
  pub context_ledger : List ContextLedgerItem
  pub investigation_brief : Option InvestigationBrief
  pub max_tool_calls : ℤ

pub record ToolPlan : Type 0 where
  pub tool_name : String
  pub reason : String
  pub arguments : Entities
  pub hypothesis_id : String
  pub expected_evidence : String

pub record AgentReport : Type 0 where
  pub agent_name : String
  pub action : String
  pub reason : String
  pub missing_fields : List String
  pub tool_plan : List ToolPlan
  pub knowledge_source : String
  pub confidence : Float
  pub observations : List String
  pub risks : List String
  pub evidence : List Fields

pub record VerificationReport : Type 0 where
  pub accepted : Bool
  pub reason : String
  pub checks : List String
  pub violations : List String
  pub tool_budget : ℕ
  pub tool_count : ℕ

pub record DecisionResponse : Type 0 where
  pub action : String
  pub reason : String
  pub missing_fields : List String
  pub tool_plan : List ToolPlan
  pub knowledge_source : String
  pub confidence : Float
  pub agent_reports : List AgentReport
  pub verification : Option VerificationReport

-- The fields that a constructor call leaves out have the defaults of the data class.
abbrev pub zero_confidence : Float
zero_confidence = finite (pos 0)

-- `AgentReport(agent_name=..., action=..., reason=...)`
abbrev pub agent_report : String → String → String → AgentReport
agent_report agent_name action reason = record {
  agent_name = agent_name;
  action = action;
  reason = reason;
  missing_fields = [];
  tool_plan = [];
  knowledge_source = "";
  confidence = zero_confidence;
  observations = [];
  risks = [];
  evidence = [];
}

-- `entities.get(key)` and `entities.get(key, "")`, which a truth test does not tell apart
unfoldable pub entity : Entities → String → String
entity [] key = ""
entity ((k, v) ∷ rest) key = if k == key then v else entity rest key

-- `key in entities`
unfoldable pub has_key : Entities → String → Bool
has_key [] key = false
has_key ((k, v) ∷ rest) key = if k == key then true else has_key rest key

-- The confidences that the source writes as decimals: the nearest doubles.
abbrev pub confidence_35 : Float
confidence_35 = double 3152519739159347 53

abbrev pub confidence_38 : Float
confidence_38 = double 3422735716801577 53

abbrev pub confidence_40 : Float
confidence_40 = double 3602879701896397 53

abbrev pub confidence_45 : Float
confidence_45 = double 8106479329266893 54

abbrev pub confidence_50 : Float
confidence_50 = double 1 1

abbrev pub confidence_56 : Float
confidence_56 = double 1261007895663739 51

abbrev pub confidence_60 : Float
confidence_60 = double 5404319552844595 53

abbrev pub confidence_62 : Float
confidence_62 = double 5584463537939415 53

abbrev pub confidence_72 : Float
confidence_72 = double 3242591731706757 52

abbrev pub confidence_88 : Float
confidence_88 = double 7926335344172073 53

abbrev pub confidence_100 : Float
confidence_100 = double 1 0
