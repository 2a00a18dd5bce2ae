-- ===== src/Platform/Summarize.antt =====
-- apps/agent-platform/agent_platform/service.py, `AgentPlatform._summarize`: the summary of the observations and
-- its confidence, with the check of the evidence.
use ai_troubleshooter.Prelude.{
  String, Bool, true, false, not, ◌&&◌, List, [], ◌∷◌, map, is_empty, if◌then◌else◌, ◌⊎◌, inl, inr,
}
use ai_troubleshooter.Python.{
  Runtime, Value, Fields, Float, Conversion, bool, int, float, str, field, end, get, truthy,
  to_text, converted, rejected, overflowed,
}
use ai_troubleshooter.Decision.Models.{confidence_38, confidence_72}
use ai_troubleshooter.Platform.Advisor.{Reply, payload, raised}
use ai_troubleshooter.Platform.Ledger.{
  Observation, EvidenceRef, evidence_refs_from_observations, final_answer_verification,
}
use ai_troubleshooter.Platform.Summary.{deterministic_summary, join_boundary_notes}
use ai_troubleshooter.Platform.Case.{Store, record_decision, record_context_ledger}

-- What the summary is made with: the language model, and the test for "mock" in the JSON text of an
-- observation.
pub record Writer : Type 0 where
  pub is_real : Bool
  pub allow_rule_fallback : Bool
  pub summarize_reply : List Observation → Reply
  pub contains_mock : List Observation → Bool

-- `isinstance(value, int | float)`; a Boolean is an `int`.
abbrev is_number : Value → Bool
is_number (bool b) = true
is_number (int n) = true
is_number (float f) = true
is_number v = false

-- What the `try` block leaves: the summary, the confidence, and the text of an exception if there is one.
pub record Draft : Type 0 where
  pub summary : String
  pub confidence : Float
  pub error : String
  pub failed : Bool

abbrev draft_of : String → Float → Draft
draft_of summary confidence = record {
  summary = summary;
  confidence = confidence;
  error = "";
  failed = false;
}

abbrev pub ref_fields : EvidenceRef → Fields
ref_fields r =
    field "ref_type" (str r.ref_type)
      (field "ref_id" (str r.ref_id) (field "tool_name" (str r.tool_name) end))

-- `_boundary_notes`
abbrev boundary_notes : Bool → List String
boundary_notes mock =
    if mock then "注意：当前 Gateway 返回的是 mock adapter 证据，只能验证排障链路，不能作为真实业务结论。" ∷ [] else []

module _ ⦃py : Runtime⦄ where
  with_confidence : String → Float → Conversion → Draft
  with_confidence summary before (converted c) = draft_of summary c
  with_confidence summary before (rejected error) = record (draft_of summary before) {
    error = error;
    failed = true;
  }
  with_confidence summary before (overflowed error) = record (draft_of summary before) {
    error = error;
    failed = true;
  }

  draft_from : String → Float → Reply → Draft
  unfolding with_confidence
  draft_from summary confidence (raised error) = record (draft_of summary confidence) {
    error = error;
    failed = true;
  }
  draft_from summary confidence (payload fields) =
      let said =
        if truthy (get fields "summary") then to_text (get fields "summary") else summary in
      if is_number (get fields "confidence")
      then with_confidence said confidence (py.to_float (get fields "confidence"))
      else draft_of said confidence

  unfoldable pub draft : Writer → List Observation → Draft
  unfolding draft_from deterministic_summary
  draft writer observations =
      draft_from (deterministic_summary observations)
        (if is_empty observations then confidence_38 else confidence_72)
        (writer.summarize_reply observations)

  -- the writes of an accepted draft
  unfoldable pub record_summary :
      Writer → List Observation → Draft → Store → Store × (String × Float)
  unfolding join_boundary_notes
  record_summary writer observations d s =
      let verification = final_answer_verification observations d.confidence in
      let summary =
        join_boundary_notes (boundary_notes (writer.contains_mock observations)) d.summary in
      (
        record_context_ledger
            (record {
              ledger_type = "final_summary";
              ledger_key = "bounded_evidence_summary";
              summary = summary;
              evidence_refs = map ref_fields (evidence_refs_from_observations observations);
              source_agent = "verifier";
            })
            (record_decision "verifier_final_answer"
              (if verification.accepted then "success" else "needs_human")
              (record_decision "summarize_findings" "success" s)),
        (summary, verification.adjusted_confidence),
      )

  -- `_summarize`
  unfoldable pub summarize : Writer → List Observation → Store → Store × ((String × Float) ⊎ String)
  unfolding draft
  summarize writer observations s =
      let d = draft writer observations in
      let recorded = record_summary writer observations d s in
      if d.failed && writer.is_real && not writer.allow_rule_fallback
      then (record_decision "summarize_findings" "failed" s, inr d.error)
      else (recorded.0, inl recorded.1)
