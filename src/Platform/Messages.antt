-- ===== src/Platform/Messages.antt =====
-- apps/agent-platform/agent_platform/service.py: what the platform reads off the messages of a case. Which
-- fields it asks for before it spends anything, which messages it answers directly, and the texts
-- and the status that a message leaves.
--
-- A case is a JSON object, as the repository returns it. A test with `re` is written out.
pub mod Status
use Prim.Native.Char.{Char, code}
use Prim.Native.String.{count}
use ai_troubleshooter.Prelude.{
  folded, ℕ, ◌+◌, String, Bool, true, false, not, ◌||◌, ◌&&◌, Option, none, some, List, [], ◌∷◌,
  ◌++◌, map, any, mem, filterb, is_space, lstrip, strip, contains, contains_any, join, or_else, leb,
  ltb, nat_eq, take_text, if◌then◌else◌, ◌==◌, ◌<>◌,
}
use ai_troubleshooter.Python.{Runtime, Fields, str, get, or_value, to_text, truthy}
use ai_troubleshooter.Decision.Models.{Entities, entity}
use ai_troubleshooter.Decision.Intake.{read_classes, is_char}
use ai_troubleshooter.Platform.Ledger.{split}
use ai_troubleshooter.Platform.Brief.{field_text}

-- `ACTIVE_STATUSES` of this file, which has one more than the scheduler's
abbrev pub service_active_statuses : List String
service_active_statuses = "READY_TO_INVESTIGATE" ∷ "INVESTIGATING" ∷ "WAITING_TOOL_RESULT" ∷ []

-- `_status_after_user_message`
unfoldable pub status_after_user_message : String → String
status_after_user_message current =
    if mem current service_active_statuses then current else "WAITING_USER_REPLY"

-- `_join_non_empty`
unfoldable pub join_non_empty : List String → String
unfolding strip join
join_non_empty values = join "\n" (map strip (filterb (λ value. not (strip value == "")) values))

-- `_trim_title`
unfoldable pub trim_title : String → String
unfolding split strip join
trim_title value = or_else (take_text 80 (join " " (split (strip value)))) "新问题"

-- `_message_content`
unfoldable pub message_content : String → String → String
unfolding strip join
message_content user_text ocr_text =
    let user_parts = if not (strip user_text == "") then strip user_text ∷ [] else [] in
    let ocr_parts = if not (strip ocr_text == "") then ("图片识别：\n" <> strip ocr_text) ∷ [] else [] in
    join "\n\n" (user_parts ++ ocr_parts)

-- `_append_block`
unfoldable pub append_block : String → String → String → String
unfolding strip
append_block current label value =
    let text = strip value in
    let block = label <> "：" <> text in
    if text == "" then current else if strip current == "" then block else current <> "\n" <> block

-- `_friendly_field`
unfoldable pub friendly_field : String → String
friendly_field field =
    if field == "user_id_or_uid"
    then "业务 uid"
    else if field == "user_id_or_account_id"
    then "用户 ID 或账户 ID"
    else if field == "problem_description"
    then "具体生产问题"
    else if field == "issue_type"
    then "具体异常现象"
    else if field == "abnormal_time"
    then "异常发生的大概时间"
    else field

-- `_missing_reply`
unfoldable pub missing_reply : String → List String → String
unfolding friendly_field join
missing_reply case_no missing_fields =
    if mem "problem_description" missing_fields
    then "[" <> case_no <> "] 请描述具体生产问题，例如受影响的服务、用户 uid、异常现象和大概时间。只发问候或泛泛提问时，我不会查询平台经验或下游服务。"
    else "["
      <> case_no
      <> "] 我还需要补充："
      <> join "、" (map friendly_field missing_fields)
      <> "。如果不确定时间，可以直接说“今天/刚刚/大约几点”；默认按 UTC+8 处理。"

abbrev user_keys : List String
user_keys = "uid" ∷ "user_id" ∷ "account_id" ∷ "member_id" ∷ []

-- `_has_user_identifier`
unfoldable pub has_user_identifier : Entities → Bool
unfolding strip
has_user_identifier entities = any (λ key. not (strip (entity entities key) == "")) user_keys

-- `re.sub(r"\s+", "", text)`
drop_spaces : String → String
unfolding is_space
drop_spaces String.[] = ""
drop_spaces (String.◌∷◌ c s) =
    let rest = drop_spaces s in if is_space c then rest else String.◌∷◌ c rest

abbrev platform_greetings : List String
platform_greetings = "hi" ∷ "hello" ∷ "你好" ∷ "您好" ∷ "在吗" ∷ "哈喽" ∷ "嗨" ∷ []

abbrev diagnostic_words : List String
diagnostic_words =
    "报错" ∷ "异常" ∷ "不对" ∷ "失败" ∷ "没有" ∷ "缺失" ∷ "慢" ∷ "超时" ∷ "错误" ∷ "排查" ∷ "token" ∷ "推荐" ∷ "登录"
    ∷ "支付" ∷ "订单" ∷ "资产" ∷ "行情" ∷ "health-food" ∷ []

abbrev meta_words : List String
meta_words =
    "模型" ∷ "llm" ∷ "agent" ∷ "claude" ∷ "codex" ∷ "cursor" ∷ "decision" ∷ "决策层" ∷ "本地决策" ∷ "gateway"
    ∷ "网关" ∷ "mock" ∷ "local_rules" ∷ "规则" ∷ "瞎说" ∷ "胡言" ∷ "乱说" ∷ "骗" ∷ "忽悠" ∷ "你刚才" ∷ "你现在" ∷ "怎么用"
    ∷ "怎么配置" ∷ "启用" ∷ "停用" ∷ []

abbrev override_words : List String
override_words =
    "模型" ∷ "llm" ∷ "决策层" ∷ "本地决策" ∷ "decision" ∷ "claude code" ∷ "codex cli" ∷ "cursor agent"
    ∷ "gateway" ∷ "网关" ∷ "mock" ∷ "local_rules" ∷ "规则" ∷ "瞎说" ∷ "胡言" ∷ "乱说" ∷ "骗" ∷ "忽悠" ∷ "你刚才"
    ∷ "怎么配置" ∷ "启用" ∷ "停用" ∷ []

abbrev business_words : List String
business_words =
    "health-food" ∷ "health_food" ∷ "asset-service" ∷ "market-service" ∷ "uid" ∷ "user_id" ∷ "用户"
    ∷ "账户" ∷ "订单" ∷ "资产" ∷ "行情" ∷ "k线" ∷ "推荐" ∷ "餐食" ∷ "配额" ∷ "日志" ∷ "报错" ∷ "异常" ∷ "失败" ∷ "不准"
    ∷ "不对" ∷ "没有" ∷ "缺失" ∷ "超时" ∷ "生产" ∷ "接口" ∷ []

abbrev question_words : List String
question_words = "?" ∷ "？" ∷ "什么" ∷ "怎么" ∷ "为什么" ∷ "能不能" ∷ "可以" ∷ "是谁" ∷ "如何" ∷ []

abbrev time_words : List String
time_words = "今天" ∷ "昨天" ∷ "刚刚" ∷ "上午" ∷ "下午" ∷ "晚上" ∷ "UTC" ∷ "utc" ∷ "+8" ∷ "Asia/Shanghai" ∷ []

-- `_looks_like_general_question`
unfoldable pub looks_like_general_question : String → Bool
unfolding strip contains_any
looks_like_general_question text =
    let cleaned = strip text in
    if ltb 120 (count cleaned) then false else contains_any question_words cleaned

abbrev is_letter : ℕ → Char → Bool
is_letter n c = nat_eq (folded c) n

-- `[A-Za-z0-9_.@:-]`
abbrev is_id_char : Char → Bool
is_id_char c =
    let n = folded c in
    leb 97 n && leb n 122
    || leb 48 n && leb n 58
    || nat_eq n 95
    || nat_eq n 46
    || nat_eq n 64
    || nat_eq n 45

all_id_chars : String → Bool
all_id_chars String.[] = true
all_id_chars (String.◌∷◌ c s) = is_id_char c && all_id_chars s

abbrev given_option : Option String → List String
given_option none = []
given_option (some s) = s ∷ []

-- `[_ -]?`
drop_separator : String → String
drop_separator String.[] = ""
drop_separator (String.◌∷◌ c s) =
    if is_char 95 c || is_char 32 c || is_char 45 c then s else String.◌∷◌ c s

-- what may be left behind `(?:uid|user[_ -]?id)?`
after_key : String → List String
unfolding read_classes drop_separator
after_key text =
    let user =
      read_classes (is_letter 117 ∷ is_letter 115 ∷ is_letter 101 ∷ is_letter 114 ∷ []) text in
    (text ∷ given_option (read_classes (is_letter 117 ∷ is_letter 105 ∷ is_letter 100 ∷ []) text))
    ++ (elim user [
      | none ↦ []
      | some rest ↦
          given_option (read_classes (is_letter 105 ∷ is_letter 100 ∷ []) (drop_separator rest))
    ])

-- what may be left behind `[:：]?`
after_colon : String → List String
after_colon String.[] = "" ∷ []
after_colon (String.◌∷◌ c s) =
    if is_char 58 c || is_char 65306 c then String.◌∷◌ c s ∷ s ∷ [] else String.◌∷◌ c s ∷ []

-- `\s*[A-Za-z0-9_.@:-]{2,80}` up to the end
is_id_text : String → Bool
unfolding all_id_chars lstrip
is_id_text text = let id = lstrip text in all_id_chars id && leb 2 (count id) && leb (count id) 80

is_field_value : String → Bool
unfolding after_key after_colon is_id_text
is_field_value text = any (λ s. any is_id_text (after_colon s)) (after_key text)

module _ ⦃py : Runtime⦄ where
  -- `_low_signal_user_text`
  unfoldable pub low_signal_user_text : String → Bool
  unfolding drop_spaces contains_any strip
  low_signal_user_text text =
      let cleaned = drop_spaces (py.lower (strip text)) in
      if cleaned == ""
      then true
      else if mem cleaned platform_greetings
      then true
      else ltb (count cleaned) 8 && not (contains_any diagnostic_words cleaned)

  -- `_case_text`
  unfoldable pub case_text : Fields → String
  unfolding join_non_empty
  case_text case' =
      join_non_empty (field_text case' "original_text" ∷ field_text case' "ocr_text" ∷ [])

  -- `_preflight_missing_fields`
  unfoldable pub preflight_missing_fields : Fields → Entities → List String
  unfolding low_signal_user_text case_text has_user_identifier strip
  preflight_missing_fields case' entities =
      let issue_domain = strip (field_text case' "issue_domain") in
      if low_signal_user_text (case_text case')
      then "problem_description" ∷ []
      else if issue_domain == ""
      then "problem_description" ∷ []
      else if mem issue_domain ("health_food" ∷ "asset" ∷ "market" ∷ [])
          && not (has_user_identifier entities)
      then "user_id_or_uid" ∷ []
      else []

  -- `_has_platform_meta_signal` and its two siblings
  unfoldable pub has_platform_meta_signal : String → Bool
  unfolding contains_any
  has_platform_meta_signal text = contains_any meta_words (py.lower text)

  unfoldable pub has_platform_override_signal : String → Bool
  unfolding contains_any
  has_platform_override_signal text = contains_any override_words (py.lower text)

  unfoldable pub has_business_troubleshooting_signal : String → Bool
  unfolding contains_any
  has_business_troubleshooting_signal text = contains_any business_words (py.lower text)

  -- `_looks_like_missing_field_answer`
  unfoldable pub looks_like_missing_field_answer : String → Fields → Bool
  unfolding is_field_value contains_any strip
  looks_like_missing_field_answer text case' =
      let known =
        or_value (get case' "issue_domain") (or_value (get case' "issue_type") (str "")) in
      let cleaned = strip text in
      if strip (to_text known) == ""
      then false
      else is_field_value cleaned || leb (count cleaned) 40 && contains_any time_words cleaned

  -- `_should_direct_answer_latest_message`
  unfoldable pub should_direct_answer_latest_message : String → Fields → Bool
  unfolding looks_like_missing_field_answer has_business_troubleshooting_signal
      has_platform_override_signal has_platform_meta_signal looks_like_general_question strip
  should_direct_answer_latest_message latest_text case' =
      let text = strip latest_text in
      if text == ""
      then false
      else if looks_like_missing_field_answer text case'
      then false
      else if has_business_troubleshooting_signal text
      then has_platform_override_signal text
      else has_platform_meta_signal text || looks_like_general_question text
