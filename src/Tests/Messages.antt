-- ===== src/Tests/Messages.antt =====
-- Cases with their messages, and the brief that the platform writes for one.
use ai_troubleshooter.Prelude.{
  true, false, List, [], ◌∷◌, ◌≤◌, map, length, mem, strip, lstrip, is_space, contains,
  contains_any, ◌≡◌, refl,
}
use ai_troubleshooter.Python.{Fields, str, field, end, to_text, or_value, get}
use ai_troubleshooter.Decision.Intake.{read_classes}
use ai_troubleshooter.Platform.Scheduler.{claim}
use ai_troubleshooter.Platform.Brief.{tool_name_of, brief_hypotheses}
use ai_troubleshooter.Platform.Brief.Hypotheses.{IsBrief, brief_hypotheses-IsBrief}
use ai_troubleshooter.Platform.Messages.{
  status_after_user_message, has_business_troubleshooting_signal, has_platform_override_signal,
  has_platform_meta_signal, looks_like_general_question, looks_like_missing_field_answer,
  should_direct_answer_latest_message,
}
use ai_troubleshooter.Platform.Messages.Status.{status_after_user_message-claim}
use ai_troubleshooter.Tests.{ascii}

abbrev asset_case : Fields
asset_case = field "issue_domain" (str "asset") (field "original_text" (str "balance is wrong") end)

abbrev tools : List Fields
tools =
    field "name" (str "get_similar_cases") end
    ∷ field "tool_name" (str "search_logs_by_service") end
    ∷ []

brief_hypotheses-IsBrief_example :
    (length (brief_hypotheses ⦃py = ascii⦄ asset_case [] tools []) ≤ 6)
    × IsBrief (map tool_name_of tools) (brief_hypotheses ⦃py = ascii⦄ asset_case [] tools [])
brief_hypotheses-IsBrief_example = brief_hypotheses-IsBrief ⦃py = ascii⦄ asset_case [] tools []

done_idle :
    mem (status_after_user_message "DONE") ("INVESTIGATING" ∷ "WAITING_TOOL_RESULT" ∷ []) ≡ false
unfolding status_after_user_message
done_idle = refl

status_after_user_message-claim_example : (claim (status_after_user_message "DONE")).accepted ≡ true
status_after_user_message-claim_example = status_after_user_message-claim "DONE" done_idle

field_answer_runs : looks_like_missing_field_answer ⦃py = ascii⦄ "User_ID: u-123" asset_case ≡ true
unfolding looks_like_missing_field_answer read_classes lstrip strip is_space to_text or_value get
field_answer_runs = refl

platform_question_runs :
    should_direct_answer_latest_message ⦃py = ascii⦄ "is the llm on?" asset_case ≡ true
unfolding should_direct_answer_latest_message has_business_troubleshooting_signal
    has_platform_override_signal has_platform_meta_signal looks_like_general_question
    looks_like_missing_field_answer contains_any contains read_classes lstrip strip is_space to_text
    or_value get
platform_question_runs = refl
