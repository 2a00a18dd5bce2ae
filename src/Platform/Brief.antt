-- ===== src/Platform/Brief.antt =====
-- apps/agent-platform/agent_platform/service.py: the goal and the hypotheses of an investigation brief, which the
-- platform writes from the case, its entities, the Gateway's tools and the matching experience.
--
-- A case and a tool are JSON objects, as the repository and the Gateway return them.
pub mod Hypotheses
use ai_troubleshooter.Prelude.{
  String, Bool, true, false, not, ◌||◌, ◌&&◌, List, [], ◌∷◌, ◌++◌, map, take, any, mem, filterb,
  is_empty, contains, contains_any, join, or_else, if◌then◌else◌, ◌==◌, ◌<>◌,
}
use ai_troubleshooter.Python.{Runtime, Fields, Value, str, get, or_value, to_text}
use ai_troubleshooter.Decision.Models.{Entities, Hypothesis, KnowledgeCandidate, entity}
use ai_troubleshooter.Decision.Intake.{values}

-- `add(item_id, question, evidence, tools_needed)`, given the names of the tools and what `out` holds
unfoldable pub add :
    List String → String → String → String → List String → List Hypothesis → List Hypothesis
add tool_names item_id question evidence tools_needed out =
    let available = filterb (λ name. mem name tool_names) tools_needed in
    if not (is_empty tools_needed) && is_empty available
    then out
    else if any (λ item. item.id == item_id) out
    then out
    else out
      ++ record {
        id = item_id;
        question = question;
        expected_evidence = evidence;
        candidate_tools = available;
      }
        ∷ []

-- The calls of `add`, one for each hypothesis.
unfoldable pub add_quota : List String → List Hypothesis → List Hypothesis
unfolding add
add_quota tool_names =
    add tool_names "quota_or_entitlement" "用户 AI token/会员配额是否异常"
      "quota/account/membership readonly rows"
      ("get_health_food_ai_quota" ∷ "get_health_food_user_profile" ∷ [])

unfoldable pub add_generation : List String → List Hypothesis → List Hypothesis
unfolding add
add_generation tool_names =
    add tool_names "recommendation_generation" "每日推荐是否生成、失败或与餐食指纹不一致"
      "recommendation status and meal fingerprint" ("get_health_food_recommendation_status" ∷ [])

unfoldable pub add_input : List String → List Hypothesis → List Hypothesis
unfolding add
add_input tool_names =
    add tool_names "input_data_completeness" "推荐输入餐食记录是否缺失或发生变化" "meal record range and fingerprint"
      ("get_health_food_meal_records" ∷ [])

unfoldable pub add_eligibility : List String → List Hypothesis → List Hypothesis
unfolding add
add_eligibility tool_names =
    add tool_names "user_eligibility" "用户资料、会员等级或设备状态是否影响结果"
      "user profile and membership readonly rows" ("get_health_food_user_profile" ∷ [])

unfoldable pub add_errors : List String → List Hypothesis → List Hypothesis
unfolding add
add_errors tool_names =
    add tool_names "service_error" "下游服务是否有相关错误日志" "bounded log samples from readonly log adapter"
      ("search_logs_by_service" ∷ [])

unfoldable pub add_history : List String → List Hypothesis → List Hypothesis
unfolding add
add_history tool_names =
    add tool_names "historical_pattern" "平台历史经验是否能提供优先排查路径" "knowledge candidate id and confidence"
      []

unfoldable pub add_similar : List String → List Hypothesis → List Hypothesis
unfolding add
add_similar tool_names =
    add tool_names "similar_case" "是否存在相似历史 case 可辅助定位" "similar case ids and summaries"
      ("get_similar_cases" ∷ [])

-- the block for texts of the health food service
unfoldable pub add_health_food : List String → String → List Hypothesis → List Hypothesis
unfolding contains_any contains
add_health_food tool_names text out =
    let with_quota =
      if contains_any ("token" ∷ "quota" ∷ "配额" ∷ "消耗" ∷ []) text
      then add_quota tool_names out
      else out in
    let with_recommendation =
      if contains "推荐" text
      then add_input tool_names (add_generation tool_names with_quota)
      else with_quota in
    add_eligibility tool_names with_recommendation

-- the hypotheses for a text, before the cut
unfoldable pub hypotheses_for : List String → String → List KnowledgeCandidate → List Hypothesis
unfolding contains_any contains
hypotheses_for tool_names text knowledge =
    let domain =
      if contains_any ("health_food" ∷ "health-food" ∷ "推荐" ∷ "餐" ∷ "token" ∷ []) text
      then add_health_food tool_names text []
      else [] in
    let with_errors = add_errors tool_names domain in
    let with_knowledge =
      if not (is_empty knowledge) then add_history tool_names with_errors else with_errors in
    add_similar tool_names with_knowledge

module _ ⦃py : Runtime⦄ where
  -- `str(case.get(key) or "")`
  abbrev pub field_text : Fields → String → String
  field_text case' key = to_text (or_value (get case' key) (str ""))

  abbrev pub tool_name_of : Fields → String
  tool_name_of item =
      to_text (or_value (get item "name") (or_value (get item "tool_name") (str "")))

  unfoldable pub hypothesis_text : Fields → Entities → String
  unfolding join
  hypothesis_text case' entities = py.lower (
      join " " (
        field_text case' "issue_domain"
        ∷ field_text case' "issue_type"
        ∷ field_text case' "original_text"
        ∷ field_text case' "ocr_text"
        ∷ join " " (values entities)
        ∷ []))

  -- `_brief_hypotheses`
  unfoldable pub brief_hypotheses :
      Fields → Entities → List Fields → List KnowledgeCandidate → List Hypothesis
  unfolding hypotheses_for hypothesis_text
  brief_hypotheses case' entities tools knowledge =
      take 6 (hypotheses_for (map tool_name_of tools) (hypothesis_text case' entities) knowledge)

  -- `_brief_goal`
  unfoldable pub brief_goal : Fields → Entities → String
  brief_goal case' entities =
      let domain = to_text (or_value (get case' "issue_domain") (str "unknown")) in
      let issue_type = to_text (
        or_value (get case' "issue_type")
          (str (or_else (entity entities "issue_type") "unknown"))) in
      let uid =
        or_else (entity entities "uid")
          (or_else (entity entities "user_id") (field_text case' "uid")) in
      if not (uid == "")
      then "定位 " <> domain <> " 用户 " <> uid <> " 的 " <> issue_type <> " 是否由真实业务数据、日志或已沉淀经验支持"
      else "定位 " <> domain <> " 的 " <> issue_type <> "，先确认必要实体再查询只读证据"
