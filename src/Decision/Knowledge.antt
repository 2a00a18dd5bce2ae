-- ===== src/Decision/Knowledge.antt =====
-- apps/decision-engine/decision_engine/agent_team.py: the class `KnowledgeAgent`.
--
-- `sorted(..., reverse=True)` is a stable sort from the greatest key down, here by insertion: every
-- stable sort gives the same list when no confidence is a NaN.
pub mod Best
use ai_troubleshooter.Prelude.{
  String, Bool, true, false, not, ◌&&◌, ◌||◌, Option, none, some, List, [], ◌∷◌, is_empty, or_else,
  if◌then◌else◌, ◌==◌, ◌<>◌,
}
use ai_troubleshooter.Python.{Runtime, ℤ, pos, lt_ℤ, Float, lt_float, ge_float, show_int}
use ai_troubleshooter.Decision.Models.{
  DecisionRequest, KnowledgeCandidate, AgentReport, agent_report, confidence_88,
}
use ai_troubleshooter.Decision.Intake.{request_requires_realtime}

-- `a == b`, for floats that are no NaN
abbrev pub same_float : Float → Float → Bool
same_float a b = ge_float a b && ge_float b a

-- The order of the tuples `(item.confidence, item.observed_case_count)`.
unfoldable pub lt_key : KnowledgeCandidate → KnowledgeCandidate → Bool
lt_key a b =
    if same_float a.confidence b.confidence
    then lt_ℤ a.observed_case_count b.observed_case_count
    else lt_float a.confidence b.confidence

-- Puts an item in front of the first one that its key is not below.
unfoldable pub insert : KnowledgeCandidate → List KnowledgeCandidate → List KnowledgeCandidate
insert x [] = x ∷ []
insert x (y ∷ ys) = let later = y ∷ insert x ys in if lt_key x y then later else x ∷ y ∷ ys

unfoldable pub sorted_reverse : List KnowledgeCandidate → List KnowledgeCandidate
sorted_reverse [] = []
sorted_reverse (x ∷ xs) = insert x (sorted_reverse xs)

-- The conditions under which the first candidate may answer.
unfoldable pub is_reusable : Bool → KnowledgeCandidate → Bool
is_reusable realtime best =
    ge_float best.confidence confidence_88
    && not (lt_ℤ best.observed_case_count (pos 2))
    && not best.requires_realtime_check
    && not realtime

abbrev first_reusable : Bool → List KnowledgeCandidate → Option KnowledgeCandidate
first_reusable realtime [] = none
first_reusable realtime (best ∷ rest) = if is_reusable realtime best then some best else none

module _ ⦃py : Runtime⦄ where
  unfoldable pub best_knowledge : DecisionRequest → Option KnowledgeCandidate
  unfolding sorted_reverse is_reusable
  best_knowledge request =
      first_reusable (request_requires_realtime request)
        (sorted_reverse request.knowledge_candidates)

  abbrev skip_report : DecisionRequest → AgentReport
  skip_report request =
      let observation =
        if is_empty request.knowledge_candidates
        then "knowledge_candidates=0"
        else "knowledge_confidence_or_realtime_gate_not_met" in
      record (agent_report "knowledge_agent" "skip" "没有满足直接复用条件的平台经验，继续走实时只读证据排查。") {
        observations =
            observation
            ∷ ("realtime_check_required="
                <> (if request_requires_realtime request then "True" else "False"))
            ∷ [];
      }

  abbrev answer_report : KnowledgeCandidate → AgentReport
  answer_report best =
      let source = or_else best.source best.title in
      record (agent_report "knowledge_agent" "answer_from_knowledge"
        "平台历史经验置信度高、样本数足够且不要求实时校验，可作为优先答案来源。") {
          knowledge_source = source;
          confidence = best.confidence;
          observations =
              ("observed_case_count=" <> show_int best.observed_case_count)
              ∷ ("source=" <> source)
              ∷ [];
        }

  unfoldable pub evaluate_knowledge : DecisionRequest → AgentReport
  evaluate_knowledge request = elim (best_knowledge request) [
    | none ↦ skip_report request
    | some best ↦ answer_report best
  ]
