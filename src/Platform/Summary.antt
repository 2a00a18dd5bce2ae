-- ===== src/Platform/Summary.antt =====
-- apps/agent-platform/agent_platform/service.py: the texts that the platform makes of a case and its
-- observations without a language model, and the settings that it reads off a request.
use ai_troubleshooter.Prelude.{
  String, Bool, not, List, [], ◌∷◌, ◌++◌, map, take, length, filterb, mem, is_empty, strip, join,
  or_else, show, take_text, if◌then◌else◌, ◌==◌, ◌<>◌,
}
use ai_troubleshooter.Python.{Runtime, Value, Fields, field, end, bool, str, get, or_value, to_text}
use ai_troubleshooter.Platform.Ledger.{Observation, is_success, split}
use ai_troubleshooter.Platform.Messages.{case_text}

abbrev summary_lines : List Observation → List String
summary_lines observations =
    map (λ item. item.tool_name <> "：" <> item.summary)
      (filterb (λ item. not (item.summary == "")) (take 5 observations))

-- `_deterministic_summary`, which does not look at the case
unfoldable pub deterministic_summary : List Observation → String
unfolding show join
deterministic_summary observations =
    let success = length (filterb is_success observations) in
    let failed = length (filterb (λ item. not (is_success item)) observations) in
    if is_empty observations
    then "没有可用的只读证据，建议补充 Gateway 能力或转人工确认。"
    else join " " (
        ("已通过 Gateway 查询 "
            <> show (length observations)
            <> " 个只读工具，其中成功 "
            <> show success
            <> " 个、失败 "
            <> show failed
            <> " 个。")
          ∷ summary_lines observations
        ++ "请业务 Owner 基于上述证据确认最终根因；确认后平台会沉淀经验。" ∷ [])

-- `_join_boundary_notes`
unfoldable pub join_boundary_notes : List String → String → String
unfolding join
join_boundary_notes notes summary =
    if is_empty notes then summary else join " " (notes ++ summary ∷ [])

abbrev true_words : List String
true_words = "1" ∷ "true" ∷ "yes" ∷ "y" ∷ "on" ∷ "enabled" ∷ []

module _ ⦃py : Runtime⦄ where
  -- `_truthy`
  unfoldable pub truthy_setting : Value → Bool
  unfolding strip
  truthy_setting (bool b) = b
  truthy_setting value = mem (py.lower (strip (to_text (or_value value (str ""))))) true_words

  -- `_brief_problem`
  unfoldable pub brief_problem : Fields → String
  unfolding case_text split join
  brief_problem case' =
      or_else (take_text 500 (join " " (split (case_text case'))))
        ("case=" <> to_text (or_value (get case' "case_no") (str "")))

  -- `_real_llm_provider`
  unfoldable pub real_llm_provider : String → Bool
  unfolding strip
  real_llm_provider provider =
      not (mem (strip (py.lower provider)) ("" ∷ "local" ∷ "local_rules" ∷ "rules" ∷ []))

  -- `_safe_case`, with its keys in their order
  unfoldable pub safe_case : Fields → Fields
  safe_case case' =
      keep ("case_no" ∷ "title" ∷ "uid" ∷ "source" ∷ "issue_domain" ∷ "issue_type" ∷ "status" ∷ [])
    where
      keep : List String → Fields
      keep [] = end
      keep (key ∷ rest) = field key (get case' key) (keep rest)
