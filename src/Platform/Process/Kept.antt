-- ===== src/Platform/Process/Kept.antt =====
-- The steps that write no status and call no tool.
use ai_troubleshooter.Prelude.{
  ℕ, String, not, ◌&&◌, Option, none, some, List, [], ◌∷◌, inl, inr, ◌⊎◌, Bool-cases, ◌==◌, refl,
  strip,
}
use ai_troubleshooter.Python.{Runtime, Fields}
use ai_troubleshooter.Decision.Models.{
  AgentReport, DecisionResponse, VerificationReport, InvestigationBrief,
}
use ai_troubleshooter.Platform.Advisor.{Reply, payload, raised}
use ai_troubleshooter.Platform.Ledger.{Observation}
use ai_troubleshooter.Platform.Case.{Store, run_at, is_case_process, finish_agent_run}
use ai_troubleshooter.Platform.Inquiry.{
  Sources, Classification, classify_reply, listed_tools, classify_and_extract, store_classification,
  list_gateway_tools, knowledge_candidates,
}
use ai_troubleshooter.Platform.Request.{record_brief}
use ai_troubleshooter.Platform.Summarize.{Writer, draft, record_summary, summarize}
use ai_troubleshooter.Platform.Process.{
  record_reports, record_verification, record_agent_report_runs,
}
use ai_troubleshooter.Platform.Process.Lifecycle.{Keeps, Keeps-refl, Keeps-trans}

pub finish_agent_run-Keeps :
    (run : ℕ) (status : String) (s : Store) → Keeps s (finish_agent_run run status s)
unfolding finish_agent_run
finish_agent_run-Keeps run status s = elim (Bool-cases (is_case_process (run_at run s.runs))) [
  | inl process ↦ rw process (record { status = refl; statuses = refl; calls = refl })
  | inr other ↦ rw other (record { status = refl; statuses = refl; calls = refl })
]

record_reports-Keeps :
    (parent : ℕ) (reports : List AgentReport) (s : Store)
    → Keeps s (record_reports parent reports s)
unfolding record_reports
record_reports-Keeps parent [] s = Keeps-refl s
record_reports-Keeps parent (report ∷ rest) s =
    elim (Bool-cases (report.agent_name == "supervisor")) [
      | inl own ↦ rw own (
          Keeps-trans (record { status = refl; statuses = refl; calls = refl })
            (record_reports-Keeps parent rest _))
      | inr other ↦ rw other (
          Keeps-trans (record { status = refl; statuses = refl; calls = refl })
            (record_reports-Keeps parent rest _))
    ]

record_verification-Keeps :
    (v : Option VerificationReport) (s : Store) → Keeps s (record_verification v s)
unfolding record_verification
record_verification-Keeps none s = Keeps-refl s
record_verification-Keeps (some v) s = record { status = refl; statuses = refl; calls = refl }

pub record_agent_report_runs-Keeps :
    (parent : ℕ) (decision : DecisionResponse) (s : Store)
    → Keeps s (record_agent_report_runs parent decision s)
unfolding record_agent_report_runs
record_agent_report_runs-Keeps parent decision s =
    Keeps-trans (record_reports-Keeps parent decision.agent_reports s)
      (record_verification-Keeps decision.verification _)

module _ ⦃py : Runtime⦄ where
  classify_reply-Keeps :
      (sources : Sources) (rule_result : Classification) (reply : Reply) (s : Store)
      → Keeps s (classify_reply sources rule_result reply s).0
  unfolding classify_reply
  classify_reply-Keeps sources rule_result (payload fields) s = record {
    status = refl;
    statuses = refl;
    calls = refl;
  }
  classify_reply-Keeps sources rule_result (raised error) s =
      elim (Bool-cases (sources.llm_is_real && not sources.allow_rule_fallback)) [
        | inl strict ↦ rw strict (record { status = refl; statuses = refl; calls = refl })
        | inr lax ↦ rw lax (record { status = refl; statuses = refl; calls = refl })
      ]

  pub classify_and_extract-Keeps :
      (sources : Sources) (s : Store) → Keeps s (classify_and_extract sources s).0
  unfolding classify_and_extract
  classify_and_extract-Keeps sources s = classify_reply-Keeps sources _ _ s

  listed_tools-Keeps :
      (answer : List Fields ⊎ String) (s : Store) → Keeps s (listed_tools answer s).0
  unfolding listed_tools
  listed_tools-Keeps (inl tools) s = record { status = refl; statuses = refl; calls = refl }
  listed_tools-Keeps (inr error) s = record { status = refl; statuses = refl; calls = refl }

  pub list_gateway_tools-Keeps :
      (sources : Sources) (s : Store) → Keeps s (list_gateway_tools sources s).0
  unfolding list_gateway_tools
  list_gateway_tools-Keeps sources s = listed_tools-Keeps sources.list_tools s

  pub knowledge_candidates-Keeps :
      (sources : Sources) (s : Store) → Keeps s (knowledge_candidates sources s).0
  unfolding knowledge_candidates
  knowledge_candidates-Keeps sources s = elim (Bool-cases (strip s.case.issue_domain == "")) [
    | inl unknown ↦ rw unknown (record { status = refl; statuses = refl; calls = refl })
    | inr known ↦ rw known (record { status = refl; statuses = refl; calls = refl })
  ]

  pub summarize-Keeps :
      (writer : Writer) (observations : List Observation) (s : Store)
      → Keeps s (summarize writer observations s).0
  unfolding summarize record_summary
  summarize-Keeps writer observations s =
      elim (Bool-cases
        ((draft writer observations).failed && writer.is_real && not writer.allow_rule_fallback)) [
          | inl strict ↦ rw strict (record { status = refl; statuses = refl; calls = refl })
          | inr lax ↦ rw lax (record { status = refl; statuses = refl; calls = refl })
        ]

  pub store_classification-Keeps :
      (sources : Sources) (c : Classification) (s : Store)
      → Keeps s (store_classification sources c s)
  unfolding store_classification
  store_classification-Keeps sources c s = record { status = refl; statuses = refl; calls = refl }

  pub record_brief-Keeps : (brief : InvestigationBrief) (s : Store) → Keeps s (record_brief brief s)
  unfolding record_brief
  record_brief-Keeps brief s = record { status = refl; statuses = refl; calls = refl }
