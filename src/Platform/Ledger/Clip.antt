-- ===== src/Platform/Ledger/Clip.antt =====
-- The length of what `_clip` returns.
use Prim.Native.String.{count}
use text.Mathlib.TextLemmas.{length-append}
use ai_troubleshooter.Prelude.Cut.{count-take_text}
use ai_troubleshooter.Prelude.{
  ℕ, ◌-◌, ◌≤◌, String, List, [], ◌∷◌, arith, leb, join, take_text, inl, inr, All, map, take,
  Bool-cases, if◌then◌else◌, ◌≡◌, refl, Option, none, some, length, length-take, length-map,
}
use ai_troubleshooter.Python.{Runtime, Fields, Value, get, truthy, to_text}
use ai_troubleshooter.Decision.Models.{DecisionResponse, AgentReport, ToolPlan, VerificationReport}
use ai_troubleshooter.Platform.Ledger.{
  clip, split, max_summary_chars, Observation, compact_tool_observation, compact_failed_observation,
  compact_verification, DecisionPayload, ReportSummary, plan_summary, report_summary,
  compact_decision_payload,
}

-- A clipped text has at most as many characters as the limit, if there is room for the dots.
pub count-clip : (value : String) (limit : ℕ) → 3 ≤ limit → count (clip value limit) ≤ limit
unfolding clip
count-clip value limit h =
    let compact = join " " (split value) in
    elim (Bool-cases (leb (count compact) limit)) [
      | inl fits ↦ rw fits (ground arith)
      | inr long ↦ rw long (
          omega (
            arith,
            length-append (take_text (limit - 3) compact) "...",
            count-take_text (limit - 3) compact,
            dots,
          ))
    ]
  where
    dots : count "..." ≡ 3
    dots = refl

abbrev IsShort : String → Type 0
IsShort s = count s ≤ max_summary_chars

abbrev IsShortIfGiven : Option String → Type 0
IsShortIfGiven none = Unit
IsShortIfGiven (some text) = IsShort text

-- What of an observation may enter a model's context is short.
pub record IsBounded (item : Observation) : Type 0 where
  pub summary : IsShort item.summary
  pub error : IsShortIfGiven item.error

module _ ⦃py : Runtime⦄ where
  given_error :
      (error : Value)
      → IsShortIfGiven
          (if truthy error then some (clip (to_text error) max_summary_chars) else none)
  given_error error = elim (Bool-cases (truthy error)) [
    | inl e ↦ rw e (count-clip (to_text error) max_summary_chars (omega arith))
    | inr e ↦ rw e tt
  ]

  -- The envelope of a tool's result has a summary and an error text of at most 600 characters,
  -- whatever the tool answered.
  pub compact_tool_observation-IsBounded :
      (tool_name status : String) (response : Fields)
      → IsBounded (compact_tool_observation tool_name status response)
  unfolding compact_tool_observation
  compact_tool_observation-IsBounded tool_name status response = record {
    summary = count-clip _ max_summary_chars (omega arith);
    error = given_error (get response "error");
  }

pub compact_failed_observation-IsBounded :
    (tool_name error : String) → IsBounded (compact_failed_observation tool_name error)
unfolding compact_failed_observation
compact_failed_observation-IsBounded tool_name error = record {
  summary = count-clip error max_summary_chars (omega arith);
  error = count-clip error max_summary_chars (omega arith);
}

-- A report's summary: a short reason, at most twelve short observations and at most eight risks.
pub record IsSmall (report : ReportSummary) : Type 0 where
  pub reason : IsShort report.reason
  pub observed : length report.observations ≤ 12
  pub observations : All IsShort report.observations
  pub risks : length report.risks ≤ 8

clips-IsShort : (xs : List String) → All IsShort (map (λ item. clip item max_summary_chars) xs)
clips-IsShort [] = tt
clips-IsShort (x ∷ xs) = (count-clip x max_summary_chars (omega arith), clips-IsShort xs)

report_summary-IsSmall : (report : AgentReport) → IsSmall (report_summary report)
report_summary-IsSmall report = record {
  reason = count-clip report.reason max_summary_chars (omega arith);
  observed = omega (
    arith,
    length-map (λ item. clip item max_summary_chars) (take 12 report.observations),
    length-take 12 report.observations,
  );
  observations = clips-IsShort (take 12 report.observations);
  risks = omega (arith, length-take 8 report.risks);
}

-- The report of the verifier, if there is one, has a short reason.
abbrev IsShortReport : Option VerificationReport → Type 0
IsShortReport none = Unit
IsShortReport (some report) = IsShort report.reason

verification-IsShortReport :
    (v : Option VerificationReport) → IsShortReport (compact_verification v)
verification-IsShortReport none = tt
verification-IsShortReport (some v) = count-clip v.reason max_summary_chars (omega arith)

-- What of a decision may enter a model's context.
pub record IsCompact (payload : DecisionPayload) : Type 0 where
  pub reason : IsShort payload.reason
  pub plans : All (λ item. IsShort item.reason) payload.tool_plan
  pub reports : All IsSmall payload.agent_reports
  pub verification : IsShortReport payload.verification

plans-IsShort : (plan : List ToolPlan) → All (λ item. IsShort item.reason) (map plan_summary plan)
plans-IsShort [] = tt
plans-IsShort (x ∷ xs) = (count-clip x.reason max_summary_chars (omega arith), plans-IsShort xs)

reports-IsSmall : (reports : List AgentReport) → All IsSmall (map report_summary reports)
reports-IsSmall [] = tt
reports-IsSmall (x ∷ xs) = (report_summary-IsSmall x, reports-IsSmall xs)

-- The envelope of a decision is bounded item by item, whatever the agents wrote: the reasons of the
-- decision, its plans, its reports and its verifier and the observations of a report have at most 600
-- characters each, and a report keeps at most twelve observations and eight
-- risks.
pub compact_decision_payload-IsCompact :
    (decision : DecisionResponse) → IsCompact (compact_decision_payload decision)
unfolding compact_decision_payload
compact_decision_payload-IsCompact decision = record {
  reason = count-clip decision.reason max_summary_chars (omega arith);
  plans = plans-IsShort decision.tool_plan;
  reports = reports-IsSmall decision.agent_reports;
  verification = verification-IsShortReport decision.verification;
}
