-- ===== src/Platform/Ledger.antt =====
-- apps/agent-platform/agent_platform/context_ledger.py: the small envelopes of tool results, decisions and
-- knowledge that may enter a language model's context, and the check of a final answer's evidence.
--
-- A response of the Gateway is a JSON object. The dictionaries that the functions build have fixed
-- keys and are records; the references of an observation are those that this file makes.
pub mod Clip
pub mod Evidence
pub mod Services
use Prim.Native.Char.{Char}
use Prim.Native.String.{count, compare}
use Prim.Native.Nat.{Ordering}
use ai_troubleshooter.Prelude.{
  ℕ, zero, suc, ◌+◌, ◌-◌, String, Bool, true, false, not, ◌||◌, ◌&&◌, Option, none, some, List, [],
  ◌∷◌, ◌++◌, map, take, any, filterb, length, is_empty, is_space, join, leb, or_else, take_text,
  if◌then◌else◌, ◌==◌, ◌<>◌,
}
use ai_troubleshooter.Python.{
  Runtime, Value, Fields, Items, Float, null, bool, int, str, list, dict, nil, cons, field, end,
  pos, negsuc, get, truthy, or_value, to_text, type_name, min_float,
}
use ai_troubleshooter.Decision.Models.{
  ToolPlan, AgentReport, VerificationReport, DecisionResponse, confidence_45,
}

abbrev pub max_summary_chars : ℕ
max_summary_chars = 600

-- A character in front of the first word.
extend : Char → List String → List String
extend c [] = String.◌∷◌ c "" ∷ []
extend c (w ∷ ws) = String.◌∷◌ c w ∷ ws

-- A character in front of the words of the text `s` behind it.
front : Char → String → List String → List String
unfolding extend
front c String.[] words = String.◌∷◌ c "" ∷ words
front c (String.◌∷◌ d s) words = if is_space d then String.◌∷◌ c "" ∷ words else extend c words

-- `value.split()`
unfoldable pub split : String → List String
unfolding front
split String.[] = []
split (String.◌∷◌ c s) = let rest = split s in if is_space c then rest else front c s rest

-- `_clip(value, limit)`
unfoldable pub clip : String → ℕ → String
unfolding split join
clip value limit =
    let compact = join " " (split value) in
    if leb (count compact) limit then compact else take_text (limit - 3) compact <> "..."

pub record EvidenceRef : Type 0 where
  pub ref_type : String
  pub ref_id : String
  pub tool_name : String

pub record Observation : Type 0 where
  pub tool_name : String
  pub status : Value
  pub summary : String
  pub evidence_refs : List EvidenceRef
  pub result_count : ℕ
  pub data_shape : Fields
  pub error : Option String

-- `data.get(key) if isinstance(data, dict)`, and otherwise what was there
abbrev in_dict : Value → String → Value → Value
in_dict (dict fields) key other = get fields key
in_dict _ key other = other

abbrev is_null : Value → Bool
is_null null = true
is_null _ = false

abbrev ref : String → String → String → EvidenceRef
ref ref_type ref_id tool_name = record {
  ref_type = ref_type;
  ref_id = ref_id;
  tool_name = tool_name;
}

abbrev query_id : Fields → Value
query_id response =
    let own = get response "query_id" in
    if truthy own then own else in_dict (get response "data") "query_id" own

abbrev items_length : Items → ℕ
items_length nil = 0
items_length (cons x xs) = suc (items_length xs)

-- the length of the first of the keys that holds a list
nested_count : Fields → List String → ℕ
nested_count fields [] = 0
nested_count fields (key ∷ rest) = elim (get fields key) [
  | list xs ↦ items_length xs
  | _ ↦ nested_count fields rest
]

-- the count by the shape of the data, where no number was given
shape_count : Value → ℕ
unfolding nested_count
shape_count (list xs) = items_length xs
shape_count (dict fields) = nested_count fields ("items" ∷ "rows" ∷ "records" ∷ "events" ∷ [])
shape_count _ = 0

-- `max(value, 0)` of a number; a Boolean is an `int`.
count_from : Value → Value → ℕ
unfolding shape_count
count_from (int (pos n)) data' = n
count_from (int (negsuc n)) data' = 0
count_from (bool true) data' = 1
count_from (bool false) data' = 0
count_from value data' = shape_count data'

unfoldable pub result_count : Fields → ℕ
unfolding count_from
result_count response =
    let value = get response "result_count" in
    let data' = get response "data" in
    count_from (if is_null value then in_dict data' "result_count" value else value) data'

abbrev key_list : Fields → List String
key_list end = []
key_list (field k v rest) = k ∷ key_list rest

insert_text : String → List String → List String
insert_text s [] = s ∷ []
insert_text s (t ∷ ts) =
    let later = t ∷ insert_text s ts in elim (compare t s) [ Ordering.lt ↦ later | _ ↦ s ∷ t ∷ ts ]

-- `sorted(texts)`
unfoldable pub sort_texts : List String → List String
unfolding insert_text
sort_texts [] = []
sort_texts (s ∷ rest) = insert_text s (sort_texts rest)

abbrev text_items : List String → Items
text_items [] = nil
text_items (s ∷ rest) = cons (str s) (text_items rest)

abbrev shape_keys : Fields → Value
shape_keys fields = list (text_items (take 30 (sort_texts (key_list fields))))

item_keys : Items → Fields
item_keys nil = end
item_keys (cons (dict fields) rest) = field "item_keys" (shape_keys fields) end
item_keys (cons _ rest) = end

unfoldable pub data_shape : Value → Fields
unfolding item_keys sort_texts
data_shape (dict fields) = field "type" (str "object") (field "keys" (shape_keys fields) end)
data_shape (list xs) =
    field "type" (str "array") (field "count" (int (pos (items_length xs))) (item_keys xs))
data_shape null = field "type" (str "null") end
data_shape v = field "type" (str (type_name v)) end

module _ ⦃py : Runtime⦄ where
  unfoldable pub evidence_refs_from_tool_response : String → Fields → List EvidenceRef
  evidence_refs_from_tool_response tool_name response =
      let call = get response "tool_call_id" in
      let query = query_id response in
      (if truthy call then ref "gateway_tool_call" (to_text call) tool_name ∷ [] else [])
      ++ (if truthy query then ref "downstream_query" (to_text query) tool_name ∷ [] else [])

  unfoldable pub compact_tool_observation : String → String → Fields → Observation
  unfolding evidence_refs_from_tool_response result_count data_shape
  compact_tool_observation tool_name status response =
      let error = get response "error" in
      record {
        tool_name = tool_name;
        status = or_value (str status) (or_value (get response "status") (str "success"));
        summary =
            clip (to_text (or_value (get response "summary") (or_value error (str ""))))
              max_summary_chars;
        evidence_refs = evidence_refs_from_tool_response tool_name response;
        result_count = result_count response;
        data_shape = data_shape (get response "data");
        error = if truthy error then some (clip (to_text error) max_summary_chars) else none;
      }

unfoldable pub compact_failed_observation : String → String → Observation
compact_failed_observation tool_name error = record {
  tool_name = tool_name;
  status = str "failed";
  summary = clip error max_summary_chars;
  evidence_refs = [];
  result_count = 0;
  data_shape = field "type" (str "error") end;
  error = some (clip error max_summary_chars);
}

-- The key by which two references are one.
pub record Key : Type 0 where
  pub ref_type : String
  pub ref_id : String
  pub tool_name : String

abbrev pub key_of : Observation → EvidenceRef → Key
key_of item r = record {
  ref_type = r.ref_type;
  ref_id = r.ref_id;
  tool_name = or_else r.tool_name item.tool_name;
}

abbrev pub same_key : Key → Key → Bool
same_key a b = a.ref_type == b.ref_type && a.ref_id == b.ref_id && a.tool_name == b.tool_name

abbrev pub seen_key : Key → List Key → Bool
seen_key k = any (λ j. same_key j k)

-- What the loops of `evidence_refs_from_observations` hold.
pub record Collected : Type 0 where
  pub refs : List EvidenceRef
  pub seen : List Key

unfoldable pub collect_ref : Observation → Collected → EvidenceRef → Collected
collect_ref item s r =
    let key = key_of item r in
    if seen_key key s.seen || key.ref_id == ""
    then s
    else record { refs = s.refs ++ r ∷ []; seen = s.seen ++ key ∷ [] }

unfoldable pub collect_refs : Observation → Collected → List EvidenceRef → Collected
unfolding collect_ref
collect_refs item s [] = s
collect_refs item s (r ∷ rest) = collect_refs item (collect_ref item s r) rest

unfoldable pub collect : Collected → List Observation → Collected
unfolding collect_refs
collect s [] = s
collect s (item ∷ rest) = collect (collect_refs item s item.evidence_refs) rest

unfoldable pub evidence_refs_from_observations : List Observation → List EvidenceRef
unfolding collect
evidence_refs_from_observations observations =
    (collect (record { refs = []; seen = [] }) observations).refs

abbrev pub is_success : Observation → Bool
is_success item = elim item.status [ str s ↦ s == "success" | _ ↦ false ]

pub record FinalVerification : Type 0 where
  pub accepted : Bool
  pub reason : String
  pub evidence_ref_count : ℕ
  pub successful_observation_count : ℕ
  pub adjusted_confidence : Float
  pub evidence_refs : List EvidenceRef

unfoldable pub final_answer_verification : List Observation → Float → FinalVerification
final_answer_verification observations confidence =
    let evidence_refs = evidence_refs_from_observations observations in
    let successful = filterb is_success observations in
    let accepted = not (is_empty successful) && not (is_empty evidence_refs) in
    record {
      accepted = accepted;
      reason = if accepted then "最终结论有 Gateway 工具证据引用。" else "最终结论缺少可回查证据引用，只能作为低置信转人工结论。";
      evidence_ref_count = length evidence_refs;
      successful_observation_count = length successful;
      adjusted_confidence = if accepted then confidence else min_float confidence confidence_45;
      evidence_refs = evidence_refs;
    }

-- `services[name] = services.get(name, 0) + 1`
unfoldable pub bump : String → List (String × ℕ) → List (String × ℕ)
bump name [] = (name, 1) ∷ []
bump name ((k, n) ∷ rest) = if k == name then (k, n + 1) ∷ rest else (k, n) ∷ bump name rest

pub record ToolSummary : Type 0 where
  pub name : Value
  pub service_name : Value
  pub required_scope : Value

pub record GatewayTools : Type 0 where
  pub tool_count : ℕ
  pub services : List (String × ℕ)
  pub tools : List ToolSummary

abbrev tool_summary : Fields → ToolSummary
tool_summary item = record {
  name = or_value (get item "name") (get item "tool_name");
  service_name = or_value (get item "service_name") (or_value (get item "service") (str ""));
  required_scope = or_value (get item "required_scope") (str "");
}

module _ ⦃py : Runtime⦄ where
  abbrev service_of : Fields → String
  service_of item =
      to_text
        (or_value (get item "service_name") (or_value (get item "service") (str "unassigned")))

  unfoldable pub count_services : List (String × ℕ) → List Fields → List (String × ℕ)
  unfolding bump
  count_services services [] = services
  count_services services (item ∷ rest) = count_services (bump (service_of item) services) rest

  unfoldable pub compact_gateway_tools_payload : List Fields → GatewayTools
  unfolding count_services
  compact_gateway_tools_payload tools = record {
    tool_count = length tools;
    services = count_services [] tools;
    tools = map tool_summary (take 50 tools);
  }

-- `_compact_verification`; the empty dictionary is `none`.
abbrev pub compact_verification : Option VerificationReport → Option VerificationReport
compact_verification none = none
compact_verification (some v) = some (record v { reason = clip v.reason max_summary_chars })

pub record PlanSummary : Type 0 where
  pub tool_name : String
  pub reason : String
  pub argument_keys : List String

pub record ReportSummary : Type 0 where
  pub agent_name : String
  pub action : String
  pub reason : String
  pub observations : List String
  pub risks : List String
  pub evidence_count : ℕ

pub record DecisionPayload : Type 0 where
  pub action : String
  pub reason : String
  pub confidence : Float
  pub missing_fields : List String
  pub tool_plan : List PlanSummary
  pub agent_reports : List ReportSummary
  pub verification : Option VerificationReport

abbrev plan_summary : ToolPlan → PlanSummary
plan_summary item = record {
  tool_name = item.tool_name;
  reason = clip item.reason max_summary_chars;
  argument_keys = sort_texts (map (λ (k, v). k) item.arguments);
}

abbrev report_summary : AgentReport → ReportSummary
report_summary report = record {
  agent_name = report.agent_name;
  action = report.action;
  reason = clip report.reason max_summary_chars;
  observations = map (λ item. clip item max_summary_chars) (take 12 report.observations);
  risks = take 8 report.risks;
  evidence_count = length report.evidence;
}

unfoldable pub compact_decision_payload : DecisionResponse → DecisionPayload
compact_decision_payload decision = record {
  action = decision.action;
  reason = clip decision.reason max_summary_chars;
  confidence = decision.confidence;
  missing_fields = decision.missing_fields;
  tool_plan = map plan_summary decision.tool_plan;
  agent_reports = map report_summary decision.agent_reports;
  verification = compact_verification decision.verification;
}

pub record KnowledgeSummary : Type 0 where
  pub id : Value
  pub title : String
  pub confidence : Value
  pub observed_case_count : Value
  pub status : Value

pub record KnowledgePayload : Type 0 where
  pub matched_count : ℕ
  pub candidates : List KnowledgeSummary

module _ ⦃py : Runtime⦄ where
  abbrev knowledge_summary : Fields → KnowledgeSummary
  knowledge_summary item = record {
    id = get item "id";
    title = clip (to_text (or_value (get item "title") (str ""))) 160;
    confidence = get item "confidence";
    observed_case_count = get item "observed_case_count";
    status = get item "status";
  }

  unfoldable pub compact_knowledge_payload : List Fields → KnowledgePayload
  compact_knowledge_payload rows = record {
    matched_count = length rows;
    candidates = map knowledge_summary (take 10 rows);
  }
