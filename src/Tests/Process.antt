-- ===== src/Tests/Process.antt =====
-- A case on its way through `process_case`, and entities that are added to a case.
use ai_troubleshooter.Prelude.{
  String, Bool, not, ◌&&◌, ◌==◌, eq_refl, List, [], true, false, none, some, ◌∷◌, is_space, strip,
  ◌≡◌, ◌⊎◌, inl, refl,
}
use ai_troubleshooter.Python.{Fields, str, field, end, pos}
use ai_troubleshooter.Decision.Models.{Entities}
use ai_troubleshooter.Platform.Scheduler.{claim}
use ai_troubleshooter.Platform.Advisor.{raised}
use ai_troubleshooter.Platform.ToolLoop.{Gateway, responded}
use ai_troubleshooter.Platform.Case.{
  Store, Case, record_decision, has_entity, add_entities, entity_map,
}
use ai_troubleshooter.Platform.Case.Facts.{value_of, first_given, or_else_fact}
use ai_troubleshooter.Platform.Case.Rows.{are_told_apart, entity_map-add_entities}
use ai_troubleshooter.Platform.Case.Kept.{add_entities-keeps, has_entity-add_entities}
use ai_troubleshooter.Platform.Process.{World, process_case}
use ai_troubleshooter.Platform.Process.Branches.{IsFrugal}
use ai_troubleshooter.Platform.Process.Settled.{
  IsSettled, IsProcessed, process_case-IsWalk, process_case-settles, process_case-calls,
  process_case-process_case,
}
use ai_troubleshooter.Platform.Progress.{build_progress}
use ai_troubleshooter.Platform.Progress.Steps.{IsProgress, build_progress-IsProgress}
use ai_troubleshooter.Tests.{ascii}
use ai_troubleshooter.Tests.Decision.{alone}

abbrev new_case : Case
new_case = record {
  case_no = "C-1";
  title = "kline";
  status = "NEW";
  issue_domain = "market";
  issue_type = "kline_missing";
  uid = "u-1";
  original_text = "the kline of BTCUSDT is missing since 10:00";
  ocr_text = "";
  source = "web";
  reporter_user_id = "";
  chat_id = "";
}

abbrev received : Store
received = record {
  case = new_case;
  entities = ("symbol", "BTCUSDT") ∷ [];
  messages = record { role = "user"; content = "the kline of BTCUSDT is missing since 10:00" } ∷ [];
  decisions = [];
  ledger = [];
  runs = [];
  events = [];
  investigations = [];
  calls = [];
  statuses = [];
}

abbrev two_rows : Gateway
two_rows calls plan =
    responded (field "tool_call_id" (str "T-1") (field "summary" (str "two rows") end))

-- a database that compares texts without their case
abbrev without_case : String → String → Bool
without_case a b = ascii.lower a == ascii.lower b

abbrev world : World
world = record {
  sources = record {
    classify_and_extract_rules = λ text. record {
      issue_domain = "market";
      issue_type = "kline_missing";
      entities = ("interval", "1m") ∷ [];
    };
    extract_iso_date = λ text. "";
    llm_is_real = false;
    allow_rule_fallback = true;
    llm_classify = λ text. raised "no model";
    list_tools = inl (field "tool_name" (str "get_internal_kline") end ∷ []);
    list_knowledge = λ limit domain issue_type status. [];
    same_text = without_case;
  };
  limits = record {
    max_tool_calls_per_case = pos 4;
    max_tool_failures_per_case = pos 2;
    max_investigation_seconds = pos 60;
  };
  decision_agent = some (record { source = "local_agent"; provider = "codex" });
  answer_chat = none;
  team = alone;
  gateway = two_rows;
  writer = record {
    is_real = false;
    allow_rule_fallback = true;
    summarize_reply = λ observations. raised "no model";
    contains_mock = λ observations. false;
  };
  local_code_findings = λ decision. "";
  time_is_over = false;
}

received_claimed : (claim received.case.status).accepted ≡ true
unfolding claim strip is_space
received_claimed = refl

process_case-IsWalk_example :
    IsProcessed
      (claim received.case.status).accepted
      received
      (process_case ⦃py = ascii⦄ world received).0
process_case-IsWalk_example = process_case-IsWalk ⦃py = ascii⦄ world received

process_case-settles_example :
    IsSettled world.time_is_over
      (process_case ⦃py = ascii⦄ world received).0.case.status
      (process_case ⦃py = ascii⦄ world received).1
process_case-settles_example = process_case-settles ⦃py = ascii⦄ world received received_claimed

process_case-calls_example :
    IsFrugal world.decision_agent received (process_case ⦃py = ascii⦄ world received).0
process_case-calls_example = process_case-calls ⦃py = ascii⦄ world received

process_case-process_case_example :
    let t = (process_case ⦃py = ascii⦄ world received).0 in
    (t.case.status ≡ "WAITING_USER_REPLY")
    ⊎ ((process_case ⦃py = ascii⦄ world t).0 ≡ record_decision "process_skipped" "skipped" t)
process_case-process_case_example = process_case-process_case ⦃py = ascii⦄ world world received

-- Entities: one that is there, one that is new and wears blanks.
abbrev handed_in : Entities
handed_in = ("symbol", "ETHUSDT") ∷ ("interval", " 1m ") ∷ []

handed_in_told_apart : are_told_apart without_case received.entities handed_in ≡ true
unfolding strip is_space
handed_in_told_apart = refl

entity_map-add_entities_example :
    value_of (entity_map (add_entities without_case received.entities handed_in)) "interval"
    ≡ or_else_fact
        (value_of (entity_map received.entities) "interval")
        (first_given handed_in "interval")
entity_map-add_entities_example =
    entity_map-add_entities without_case received.entities handed_in "interval" handed_in_told_apart

symbol_stored : value_of (entity_map received.entities) "symbol" ≡ some "BTCUSDT"
unfolding entity_map
symbol_stored = refl

add_entities-keeps_example :
    value_of (entity_map (add_entities without_case received.entities handed_in)) "symbol"
    ≡ some "BTCUSDT"
add_entities-keeps_example =
    add_entities-keeps without_case received.entities handed_in "symbol" "BTCUSDT" symbol_stored

-- A row that differs in case only is passed over, and its key has no value afterwards.
recased_is_lost :
    value_of
      (entity_map (add_entities without_case received.entities (("Symbol", "BTCUSDT") ∷ [])))
      "Symbol"
    ≡ none
unfolding add_entities entity_map strip is_space
recased_is_lost = refl

without_case_reflexive : (a : String) → without_case a a ≡ true
without_case_reflexive a = eq_refl (ascii.lower a)

interval_given : (not (strip "interval" == "") && not (strip " 1m " == "")) ≡ true
unfolding strip is_space
interval_given = refl

has_entity-add_entities_example :
    has_entity without_case
      (strip "interval")
      (strip " 1m ")
      (add_entities without_case received.entities handed_in)
    ≡ true
has_entity-add_entities_example =
    has_entity-add_entities without_case (("symbol", "ETHUSDT") ∷ []) [] "interval" " 1m "
      received.entities without_case_reflexive interval_given

-- A log whose first step is done and whose second was blocked.
abbrev two_logged : List Fields
two_logged =
    field "decision_type" (str "classify_extract") (field "status" (str "success") end)
    ∷ field "decision_type" (str "decision_agent_ready") (field "status" (str "blocked") end)
    ∷ []

build_progress-IsProgress_example :
    IsProgress "INVESTIGATING" (build_progress ⦃py = ascii⦄ "INVESTIGATING" two_logged)
build_progress-IsProgress_example =
    build_progress-IsProgress ⦃py = ascii⦄ "INVESTIGATING" two_logged
