-- ===== src/Platform/Advisor/Bounds.antt =====
-- What an advisor's report can hold, whatever the language model replies.
use ai_troubleshooter.Prelude.{
  ◌≤◌, String, Bool, true, false, not, ◌||◌, ◌&&◌, Option, none, some, List, [], ◌∷◌, map, arith,
  length, length-take, mem, is_empty, strip, All, All-append, All-take, ◌==◌, ◌≡◌, refl, sym, ap,
  ◌∙◌, ◌⊎◌, inl, inr, Bool-cases, subst,
}
use ai_troubleshooter.Prelude.Distinct.{take-Distinct, snoc-Distinct}
use ai_troubleshooter.Python.{
  Runtime, Value, Fields, Float, Conversion, converted, rejected, overflowed, nan, neg_inf, inf,
  finite, pos, negsuc, str, or_value, get, to_text, is_nan, lt_float,
}
use ai_troubleshooter.Decision.Models.{
  DecisionRequest, DecisionResponse, AgentReport, ToolPlan, zero_confidence, confidence_100,
}
use ai_troubleshooter.Decision.Verifier.{tool_budget, available_names}
use ai_troubleshooter.Decision.Verifier.Normalize.{names}
use ai_troubleshooter.Decision.Tools.Select.{IsCallable, IsSelection}
use ai_troubleshooter.Decision.Supervisor.{advised}
use ai_troubleshooter.Platform.Advisor.{
  LlmClient, choose, choose_all, raw_items, selected_tools, clamp, clamp_conversion,
  default_confidence, confidence, propose, propose_with, missing_items, skip_with, skip_advice,
  safe_action, Reply, raised, payload, advise_reply, advise_payload, evaluate_llm,
  advisor_tool_plan,
}

-- A number from 0 to 1.
pub record IsConfidence (c : Float) : Type 0 where
  pub number : is_nan c ≡ false
  pub low : lt_float c zero_confidence ≡ false
  pub high : lt_float confidence_100 c ≡ false

-- The clamp takes every float, the NaN and the infinities too, to a number from 0 to 1.
pub clamp-IsConfidence : (c : Float) → IsConfidence (clamp c)
clamp-IsConfidence nan = record { number = refl; low = refl; high = refl }
clamp-IsConfidence neg_inf = record { number = refl; low = refl; high = refl }
clamp-IsConfidence inf = record { number = refl; low = refl; high = refl }
clamp-IsConfidence (finite (negsuc n)) = record { number = refl; low = refl; high = refl }
clamp-IsConfidence (finite (pos n)) = record {
  number = ground arith;
  low = ground arith;
  high = ground arith;
}

-- Names that may be called: distinct, not empty, and available where tools are listed.
record IsSelected (request : DecisionRequest) (names : List String) : Type 0 where
  callable : IsCallable names
  available :
      All
        (λ name.
          (is_empty (available_names request.available_tools)
            || mem name (available_names request.available_tools))
          ≡ true)
        names

three_tests : (a b c : Bool) → (not a && b && not c) ≡ true → (a ≡ false) × (b ≡ true) × (c ≡ false)
three_tests a b c h = ground arith

inl-injective {ℓ} : {A B : Type ℓ} {a b : A} → ◌≡◌ {A = A ⊎ B} (inl a) (inl b) → a ≡ b
inl-injective e = cc

advised-injective : {a b : AgentReport} → advised a ≡ advised b → a ≡ b
advised-injective e = cc

choose-IsSelected :
    (request : DecisionRequest) (out : List String) (name : String)
    → IsSelected request out
    → IsSelected request (choose (available_names request.available_tools) out name)
choose-IsSelected request out name h =
    let available = available_names request.available_tools in
    elim (Bool-cases
      (not (name == "") && (is_empty available || mem name available) && not (mem name out))) [
        | inr refused ↦ rw refused h
        | inl chosen ↦
            let (named, usable, fresh) =
              three_tests (name == "") (is_empty available || mem name available) (mem name out)
                chosen in
            rw chosen (record {
              callable = record {
                distinct = snoc-Distinct name out fresh h.callable.distinct;
                named = All-append _ out (name ∷ []) h.callable.named (named, tt);
              };
              available = All-append _ out (name ∷ []) h.available (usable, tt);
            })
      ]

clamp_conversion-IsConfidence :
    (default : Float) (r : Conversion) (c : Float)
    → clamp_conversion default r ≡ inl c
    → IsConfidence c
unfolding clamp_conversion
clamp_conversion-IsConfidence default (converted d) c e =
    subst IsConfidence (inl-injective e) (clamp-IsConfidence d)
clamp_conversion-IsConfidence default (rejected error) c e =
    subst IsConfidence (inl-injective e) (clamp-IsConfidence (default_confidence default))
clamp_conversion-IsConfidence default (overflowed error) c e = cc

-- The report of an advisor that does not skip: its confidence is a number from 0 to 1, it asks for at
-- most five fields, and its plan is the default's with the default's action, or of selected tools.
pub record IsProposal (request : DecisionRequest) (default : DecisionResponse)
    (report : AgentReport) : Type 0 where
  pub confident : IsConfidence report.confidence
  pub few_fields : length report.missing_fields ≤ 5
  pub plan :
      (report.action ≡ default.action) × (report.tool_plan ≡ default.tool_plan)
      ⊎ IsSelection request (names report.tool_plan)

module _ ⦃py : Runtime⦄ where
  choose_all-IsSelected :
      (request : DecisionRequest) (out : List String) (items : List Value)
      → IsSelected request out
      → IsSelected request (choose_all (available_names request.available_tools) out items)
  unfolding choose_all
  choose_all-IsSelected request out [] h = h
  choose_all-IsSelected request out (item ∷ rest) h =
      choose_all-IsSelected request
        (choose (available_names request.available_tools) out (strip (to_text item))) rest
        (choose-IsSelected request out (strip (to_text item)) h)

  selected_tools-IsSelection :
      (value : Value) (request : DecisionRequest)
      → IsSelection request (selected_tools value request)
  unfolding selected_tools
  selected_tools-IsSelection value request =
      let out = choose_all (available_names request.available_tools) [] (raw_items value) in
      let budget = tool_budget request.max_tool_calls in
      let h =
        choose_all-IsSelected request [] (raw_items value)
          (record { callable = record { distinct = tt; named = tt }; available = tt }) in
      record {
        callable = record {
          distinct = take-Distinct budget out h.callable.distinct;
          named = All-take _ budget out h.callable.named;
        };
        within = omega (arith, length-take budget out);
        available = All-take _ budget out h.available;
      }

  names-map :
      (request : DecisionRequest) (reason : String) (selected : List String)
      → names (map (advisor_tool_plan request reason) selected) ≡ selected
  unfolding advisor_tool_plan
  names-map request reason [] = refl
  names-map request reason (x ∷ xs) = rw (names-map request reason xs)

  -- what a proposal keeps of the action and the plan that it is given
  record IsOf (action : String) (tool_plan : List ToolPlan) (report : AgentReport) : Type 0 where
    act : report.action ≡ action
    planned : report.tool_plan ≡ tool_plan
    confident : IsConfidence report.confidence
    few : length report.missing_fields ≤ 5

  propose_with-IsOf :
      (llm : LlmClient) (default : DecisionResponse) (fields : Fields) (action : String)
      (tool_plan : List ToolPlan) (missing : Option (List Value)) (c : Float ⊎ String)
      (report : AgentReport)
      → ((x : Float) → c ≡ inl x → IsConfidence x)
      → propose_with llm default fields action tool_plan missing c ≡ advised report
      → IsOf action tool_plan report
  unfolding propose_with
  propose_with-IsOf llm default fields action tool_plan none c report h e = cc
  propose_with-IsOf llm default fields action tool_plan (some missing) (inr error) report h e = cc
  propose_with-IsOf llm default fields action tool_plan (some missing) (inl c) report h e =
      subst (IsOf action tool_plan) (advised-injective e) (record {
        act = refl;
        planned = refl;
        confident = h c refl;
        few = omega (arith, length-take 5 (map to_text missing));
      })

  propose-IsOf :
      (llm : LlmClient) (default : DecisionResponse) (fields : Fields) (action : String)
      (tool_plan : List ToolPlan) (report : AgentReport)
      → propose llm default fields action tool_plan ≡ advised report
      → IsOf action tool_plan report
  unfolding propose confidence
  propose-IsOf llm default fields action tool_plan report e =
      propose_with-IsOf llm default fields action tool_plan (missing_items fields default)
        (confidence (get fields "confidence") default.confidence) report
        (clamp_conversion-IsConfidence default.confidence (py.to_float (get fields "confidence"))) e

  -- The report of an advisor that skips: it plans nothing.
  abbrev IsSkip : AgentReport → Type 0
  IsSkip report = (report.action ≡ "skip") × (report.tool_plan ≡ [])

  skip_with-IsSkip :
      (reason : String) (r : Conversion) (report : AgentReport)
      → skip_with reason r ≡ advised report
      → IsSkip report
  unfolding skip_with
  skip_with-IsSkip reason (converted c) report e = subst IsSkip (advised-injective e) (refl, refl)
  skip_with-IsSkip reason (rejected error) report e = cc
  skip_with-IsSkip reason (overflowed error) report e = cc

  advise_payload_cases :
      (llm : LlmClient) (request : DecisionRequest) (default : DecisionResponse) (fields : Fields)
      (report : AgentReport)
      → advise_payload llm request default fields ≡ advised report
      → IsSkip report ⊎ IsProposal request default report
  unfolding advise_payload skip_advice
  advise_payload_cases llm request default fields report e =
      let action = safe_action (get fields "action") default.action in
      let selected =
        selected_tools (or_value (get fields "selected_tools") (get fields "tools")) request in
      let reason = to_text (or_value (get fields "reason") (str default.reason)) in
      let tool_plan = map (advisor_tool_plan request reason) selected in
      elim (Bool-cases (action == "skip")) [
        | inl skips ↦ inl (skip_with-IsSkip _ _ report (rw skips at e))
        | inr speaks ↦ elim (Bool-cases (action == "invoke_tools" && is_empty tool_plan)) [
          | inl nothing ↦
              let h =
                propose-IsOf llm default fields default.action default.tool_plan report
                  (rw (speaks, nothing) at e) in
              inr (record {
                confident = h.confident;
                few_fields = h.few;
                plan = inl (h.act, h.planned);
              })
          | inr something ↦
              let h =
                propose-IsOf llm default fields action tool_plan report
                  (rw (speaks, something) at e) in
              inr (record {
                confident = h.confident;
                few_fields = h.few;
                plan = inr (
                    subst (IsSelection request)
                      (sym (names-map request reason selected) ∙ ap names (sym h.planned))
                      (selected_tools-IsSelection _ request));
              })
        ]
      ]

  of_reply :
      (llm : LlmClient) (request : DecisionRequest) (default : DecisionResponse)
      (report : AgentReport) (reply : Reply)
      → advise_reply llm request default reply ≡ advised report
      → IsSkip report ⊎ IsProposal request default report
  unfolding advise_reply
  of_reply llm request default report (raised error) e = cc
  of_reply llm request default report (payload fields) e =
      advise_payload_cases llm request default fields report e

  -- Whatever the language model replies, a report that `LLMDecisionAdvisor` makes of it either skips and
  -- plans nothing, or is a proposal: its confidence is a number from 0 to 1, it asks for at most five
  -- fields, and its plan is the default's with the default's action, or of distinct tools within the
  -- budget, each available if the request lists any.
  pub evaluate_llm_cases :
      (llm : LlmClient) (request : DecisionRequest) (default : DecisionResponse)
      (report : AgentReport)
      → evaluate_llm llm request default ≡ advised report
      → IsSkip report ⊎ IsProposal request default report
  unfolding evaluate_llm
  evaluate_llm_cases llm request default report e = elim (Bool-cases llm.is_real) [
    | inr unreal ↦ cc (rw unreal at e)
    | inl real ↦
        of_reply llm request default report (llm.advise_decision request default) (rw real at e)
  ]
