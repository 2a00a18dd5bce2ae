-- ===== src/Decision/Supervisor/Actions.antt =====
-- Which action `plan` answers with where a specialist decides and there is no advisor.
use ai_troubleshooter.Prelude.{
  Bool, true, none, ◌&&◌, ◌||◌, is_empty, if◌then◌else◌, inl, inr, Bool-cases, ◌≡◌, refl, ◌∙◌,
}
use ai_troubleshooter.Python.{Runtime}
use ai_troubleshooter.Decision.Models.{DecisionRequest}
use ai_troubleshooter.Decision.LocalCode.{LocalCodeInspector}
use ai_troubleshooter.Decision.Tools.{missing_fields, select_tools}
use ai_troubleshooter.Decision.Tools.Required.{has, is_empty-missing_fields}
use ai_troubleshooter.Decision.Tools.Binding.{HasStatedBrief}
use ai_troubleshooter.Decision.Verifier.{verify}
use ai_troubleshooter.Decision.Supervisor.{evaluate_domain, response_from_report, plan}
use ai_troubleshooter.Decision.Supervisor.Routing.{
  Specialist, kline, asset, health_food, domain_of, IsRouted, plan-specialist, plan-asks,
  plan-calls,
}

-- The fields that a domain needs before tools are called.
abbrev pub required_given : Specialist → DecisionRequest → Bool
required_given kline request =
    has request "symbol"
    && has request "interval"
    && has request "abnormal_time"
    && has request "issue_type"
required_given asset request =
    has request "asset_symbol"
    && has request "abnormal_time"
    && has request "issue_type"
    && (has request "user_id" || has request "account_id")
required_given health_food request =
    has request "issue_type" && (has request "user_id" || has request "uid")

nothing_missing :
    (k : Specialist) (request : DecisionRequest)
    → is_empty (missing_fields request (domain_of k)) ≡ required_given k request
nothing_missing kline request = (is_empty-missing_fields request).0
nothing_missing asset request = (is_empty-missing_fields request).1
nothing_missing health_food request = (is_empty-missing_fields request).2

module _ ⦃py : Runtime⦄ (k : Specialist) (request : DecisionRequest) (routed : IsRouted request)
    (domain : request.case.issue_domain ≡ domain_of k) (inspector : LocalCodeInspector) where
  plan-no_tools :
      is_empty (missing_fields request (domain_of k)) ≡ true
      → is_empty (select_tools request (domain_of k)) ≡ true
      → (plan (record { inspector = inspector; decision_advisor = none }) request).action
        ≡ "need_human"
  unfolding evaluate_domain response_from_report verify
  plan-no_tools given no_tools =
      rw (plan-specialist k request routed domain inspector, given, no_tools) refl

  -- With no advisor, a request of one of the three domains that passes intake, that no experience
  -- answers and that asks for no look at local code is answered as its fields say, if the hypotheses
  -- of its brief are not blank: by a question if a field that the domain needs is not given, else
  -- by calls of tools if some tool is selected, and else by a handover to a person.
  pub plan-action :
      HasStatedBrief request
      → (plan (record { inspector = inspector; decision_advisor = none }) request).action ≡ (
          if required_given k request
          then if is_empty (select_tools request (domain_of k))
            then "need_human"
            else "invoke_tools"
          else "ask_user")
  plan-action stated = elim (Bool-cases (required_given k request)) [
    | inr lacking ↦
        rw lacking
          (plan-asks k request routed domain inspector (nothing_missing k request ∙ lacking)).0
    | inl given ↦
        let full = nothing_missing k request ∙ given in
        elim (Bool-cases (is_empty (select_tools request (domain_of k)))) [
          | inl no_tools ↦ rw (given, no_tools) (plan-no_tools full no_tools)
          | inr some_tools ↦
              rw (given, some_tools)
                (plan-calls k request routed domain inspector stated full some_tools).0
        ]
  ]
