-- ===== src/Decision/Intake.antt =====
-- apps/decision-engine/decision_engine/agent_team.py: the tests on the text of a request, which decide
-- whether there is a problem to look into (`_needs_problem_description`) and whether the answer has
-- to rest on fresh data (`_request_requires_realtime`). A regular expression is the scan it stands for.
use Prim.Native.Char.{Char, code}
use ai_troubleshooter.Prelude.{
  ℕ, String, Bool, true, false, not, ◌&&◌, ◌||◌, Option, none, some, List, [], ◌∷◌, map, any,
  filterb, mem, nat_eq, is_space, strip, contains, contains_any, join, if◌then◌else◌, ◌==◌, ◌≡◌,
  refl,
}
use ai_troubleshooter.Python.{Runtime}
use ai_troubleshooter.Decision.Models.{Entities, DecisionRequest}

abbrev single : Char → String
single c = String.◌∷◌ c ""

abbrev pub values : Entities → List String
values = map (λ (k, v). v)

-- `part for part in parts if part`
abbrev pub non_empty : List String → List String
non_empty = filterb (λ part. not (part == ""))

-- Reads one character of each class from the front, and returns what is left.
unfoldable pub read_classes : List (Char → Bool) → String → Option String
read_classes [] s = some s
read_classes (p ∷ ps) String.[] = none
read_classes (p ∷ ps) (String.◌∷◌ c s) = let rest = read_classes ps s in if p c then rest else none

abbrev pub is_char : ℕ → Char → Bool
is_char n c = nat_eq (code c) n

module _ ⦃py : Runtime⦄ where
  -- A digit is a word character, so `\b` beside one asks for a neighbour that is none.
  ends_word : Option String → Bool
  ends_word none = false
  ends_word (some String.[]) = true
  ends_word (some (String.◌∷◌ c s)) = not (py.is_word c)

  abbrev date_classes : List (Char → Bool)
  date_classes =
      is_char b'2'
      ∷ is_char b'0'
      ∷ py.is_digit
      ∷ py.is_digit
      ∷ is_char b'-'
      ∷ py.is_digit
      ∷ py.is_digit
      ∷ is_char b'-'
      ∷ py.is_digit
      ∷ py.is_digit
      ∷ []

  -- `re.search(r"\b20\d{2}-\d{2}-\d{2}\b", text)`, from a place behind a word character or not
  search_date : Bool → String → Bool
  search_date in_word String.[] = false
  search_date in_word (String.◌∷◌ c s) =
      not in_word && ends_word (read_classes date_classes (String.◌∷◌ c s))
      || search_date (py.is_word c) s

  abbrev realtime_words : List String
  realtime_words =
      "今日" ∷ "今天" ∷ "刚刚" ∷ "现在" ∷ "生产" ∷ "不准" ∷ "没有" ∷ "查真实" ∷ "真实数据" ∷ "实际数据" ∷ "查数据库" ∷ "查db"
      ∷ "Gateway" ∷ "gateway" ∷ "网关" ∷ "证据不足" ∷ "本地代码" ∷ "代码检查" ∷ "debug_local_code"
      ∷ "gateway_evidence_status" ∷ []

  unfoldable pub request_requires_realtime : DecisionRequest → Bool
  unfolding search_date read_classes ends_word contains_any join
  request_requires_realtime request =
      let text = join "\n" (
        non_empty (
          request.case.original_text
          ∷ request.case.ocr_text
          ∷ join " " (values request.entities)
          ∷ [])) in
      if search_date false text then true else contains_any realtime_words text

abbrev diagnostic_keys : List String
diagnostic_keys =
    "uid" ∷ "user_id" ∷ "account_id" ∷ "asset_symbol" ∷ "symbol" ∷ "interval" ∷ "service_name"
    ∷ "issue_type" ∷ "order_id" ∷ "case_no" ∷ "debug_local_code" ∷ "gateway_evidence_status" ∷ []

unfoldable pub has_diagnostic_entities : Entities → Bool
unfolding strip
has_diagnostic_entities entities =
    any (λ (key, value). mem key diagnostic_keys && not (strip value == "")) entities

-- `re.sub` with the class of white space and punctuation
drop_punctuation : String → String
unfolding contains is_space
drop_punctuation String.[] = ""
drop_punctuation (String.◌∷◌ c s) =
    let rest = drop_punctuation s in
    if is_space c || contains (single c) ",，。.!！?？~～" then rest else String.◌∷◌ c rest

-- `[呀啊吗么]*` up to the end of the text
only_particles : String → Bool
unfolding contains
only_particles String.[] = true
only_particles (String.◌∷◌ c s) = contains (single c) "呀啊吗么" && only_particles s

is_greeting_pattern : String → Bool
unfolding only_particles
is_greeting_pattern String.[] = false
is_greeting_pattern (String.◌∷◌ c String.[]) = single c == "好"
is_greeting_pattern (String.◌∷◌ c (String.◌∷◌ d s)) =
    single c == "好" && only_particles (String.◌∷◌ d s)
    || (single c == "你" || single c == "您") && single d == "好" && only_particles s

abbrev greetings : List String
greetings =
    "hi" ∷ "hello" ∷ "hey" ∷ "你好" ∷ "您好" ∷ "你好呀" ∷ "您好呀" ∷ "在吗" ∷ "在么" ∷ "早上好" ∷ "下午好" ∷ "晚上好" ∷ []

unfoldable pub is_greeting_or_chitchat : String → Bool
unfolding drop_punctuation is_greeting_pattern
is_greeting_or_chitchat text =
    let normalized = drop_punctuation text in
    mem normalized greetings || is_greeting_pattern normalized

abbrev diagnostic_keywords : List String
diagnostic_keywords =
    "health-food" ∷ "health_food" ∷ "kline" ∷ "k线" ∷ "资产" ∷ "余额" ∷ "推荐" ∷ "餐食" ∷ "token" ∷ "配额"
    ∷ "报错" ∷ "异常" ∷ "错误" ∷ "失败" ∷ "不对" ∷ "不准" ∷ "没有" ∷ "缺少" ∷ "超时" ∷ "生产" ∷ "接口" ∷ "日志" ∷ "uid"
    ∷ "用户" ∷ "订单" ∷ "服务" ∷ "gateway" ∷ "网关" ∷ []

unfoldable pub has_diagnostic_keywords : String → Bool
unfolding contains_any
has_diagnostic_keywords text = contains_any diagnostic_keywords text

module _ ⦃py : Runtime⦄ where
  -- The text that the intake reads: the parts that are not blank, stripped and in lower case.
  unfoldable pub intake_text : DecisionRequest → String
  unfolding strip join
  intake_text request = py.lower (
      strip (
        join "\n" (
          filterb (λ part. not (part == "") && not (strip part == ""))
            (request.case.original_text ∷ request.case.ocr_text ∷ []))))

  unfoldable pub needs_problem_description : DecisionRequest → Bool
  unfolding has_diagnostic_entities intake_text is_greeting_or_chitchat has_diagnostic_keywords
  needs_problem_description request =
      if not (request.case.issue_domain == "") || not (request.case.issue_type == "")
      then false
      else if has_diagnostic_entities request.entities
      then false
      else (let text = intake_text request in
          if text == ""
          then true
          else if is_greeting_or_chitchat text
          then true
          else not (has_diagnostic_keywords text))

greets : is_greeting_or_chitchat "你好 呀！" && not (is_greeting_or_chitchat "好吗报错") ≡ true
unfolding is_greeting_or_chitchat
greets = refl
