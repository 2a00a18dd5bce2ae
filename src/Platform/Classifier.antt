-- ===== src/Platform/Classifier.antt =====
-- apps/agent-platform/agent_platform/classifier.py: the domain and the issue type of a case. The rules give them
-- from the text, and `merge_llm_result` mixes them with what a language model says.
--
-- The entities and the confidence of the merge, and the rules that search a text with `re`, are not
-- here.
pub mod Merge
use Prim.Native.Char.{Char, code}
use ai_troubleshooter.Prelude.{
  String, Bool, true, false, not, ◌||◌, ◌&&◌, List, [], ◌∷◌, mem, strip, contains_any, nat_eq,
  if◌then◌else◌, ◌==◌,
}
use ai_troubleshooter.Python.{Runtime, Value, Fields, str, get}

abbrev pub taxonomy : List String
taxonomy = "health_food" ∷ "kline" ∷ "asset" ∷ []

abbrev pub domain_aliases : List (String × String)
domain_aliases =
    ("health_food", "health_food")
    ∷ ("healthfood", "health_food")
    ∷ ("food_health", "health_food")
    ∷ ("foodhealth", "health_food")
    ∷ ("health", "health_food")
    ∷ ("kline", "kline")
    ∷ ("k_line", "kline")
    ∷ ("market", "kline")
    ∷ ("asset", "asset")
    ∷ ("assets", "asset")
    ∷ []

-- `aliases.get(normalized, "")`
unfoldable pub alias_of : List (String × String) → String → String
alias_of [] name = ""
alias_of ((k, v) ∷ rest) name = if k == name then v else alias_of rest name

-- `.replace("-", "_").replace(" ", "_")`
join_words : String → String
join_words String.[] = ""
join_words (String.◌∷◌ c s) =
    let rest = join_words s in
    if nat_eq (code c) 45 || nat_eq (code c) 32 then String.◌∷◌ "_" rest else String.◌∷◌ c rest

-- `_has_rule_taxonomy`
unfoldable pub has_rule_taxonomy : String → String → Bool
has_rule_taxonomy issue_domain issue_type = mem issue_domain taxonomy && not (issue_type == "")

-- `_health_food_issue_type`
unfoldable pub health_food_issue_type : String → String
unfolding contains_any
health_food_issue_type text =
    if contains_any ("token" ∷ "配额" ∷ "次数" ∷ "额度" ∷ "消耗" ∷ []) text
    then "AI配额异常"
    else if contains_any ("没有每日推荐" ∷ "无每日推荐" ∷ "没有推荐" ∷ "缺少推荐" ∷ "未生成" ∷ []) text
    then "每日推荐缺失"
    else if contains_any ("推荐不准" ∷ "推荐数据不准" ∷ "健康目标" ∷ "热量不对" ∷ []) text
    then "每日推荐不准"
    else if contains_any ("餐食" ∷ "meal" ∷ "饮食记录" ∷ []) text
    then "餐食数据异常"
    else "health_food_abnormal"

-- the issue type that the merge leaves, given the domain that it has left
unfoldable pub merge_issue_type : String → String → Value → String
unfolding has_rule_taxonomy
merge_issue_type issue_domain issue_type (str s) =
    if not (s == "") && not (has_rule_taxonomy issue_domain issue_type) then s else issue_type
merge_issue_type issue_domain issue_type _ = issue_type

module _ ⦃py : Runtime⦄ where
  -- `_normalize_issue_domain`
  unfoldable pub normalize_issue_domain : String → String
  unfolding alias_of join_words strip
  normalize_issue_domain value = alias_of domain_aliases (join_words (py.lower (strip value)))

  -- the domain that the merge leaves
  unfoldable pub merge_issue_domain : String → Value → String
  unfolding normalize_issue_domain
  merge_issue_domain issue_domain (str s) =
      let normalized = normalize_issue_domain s in
      if s == ""
      then issue_domain
      else if not (normalized == "")
      then normalized
      else if issue_domain == ""
      then s
      else issue_domain
  merge_issue_domain issue_domain _ = issue_domain

  -- The domain and the issue type of `merge_llm_result`.
  unfoldable pub merge_taxonomy : String → String → Fields → String × String
  unfolding merge_issue_domain merge_issue_type
  merge_taxonomy issue_domain issue_type llm_payload =
      let merged = merge_issue_domain issue_domain (get llm_payload "issue_domain") in
      (merged, merge_issue_type merged issue_type (get llm_payload "issue_type"))
