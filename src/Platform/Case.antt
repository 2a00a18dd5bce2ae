-- ===== src/Platform/Case.antt =====
-- apps/agent-platform/agent_platform: a case with the rows that belong to it. The writes are those that
-- service.py makes through `_transition`, `_record_decision`, `_record_context_ledger`,
-- `_start_agent_run`, `_record_agent_run_event` and `_finish_agent_run`, on the tables of repository.py.
--
-- A table is the list of its rows in the order of their ids; the comparison of two texts in a query is
-- that of the database, a parameter. A text that is `NULL` in its column is "" here. Times, the payloads
-- of log rows and their redaction are left out. The rows of other cases are not touched and do not stand here.
pub mod Facts
pub mod Rows
pub mod Kept
use ai_troubleshooter.Prelude.{
  ℕ, zero, suc, String, Bool, true, false, not, ◌||◌, ◌&&◌, Option, none, some, List, [], ◌∷◌, ◌++◌,
  length, any, strip, if◌then◌else◌, ◌==◌,
}
use ai_troubleshooter.Python.{Fields, Value, null, str, field, end}
use ai_troubleshooter.Decision.Models.{Entities, ContextLedgerItem, ToolPlan, has_key}
use ai_troubleshooter.Platform.Scheduler.{ScheduleDecision, finish}

pub record Case : Type 0 where
  pub case_no : String
  pub title : String
  pub status : String
  pub issue_domain : String
  pub issue_type : String
  pub uid : String
  pub original_text : String
  pub ocr_text : String
  pub source : String
  pub reporter_user_id : String
  pub chat_id : String

-- a text of a column that may be `NULL`, in which "" stands for `NULL`
abbrev text_or_null : String → Value
text_or_null text = if text == "" then null else str text

-- `_none_if_empty`
unfoldable pub none_if_empty : String → String
unfolding strip
none_if_empty value = if strip value == "" then "" else value

-- The row as the dictionary that the repository returns.
abbrev pub row_of : Case → Fields
row_of c = field "case_no" (str c.case_no) (
    field "title" (text_or_null c.title) (
      field "uid" (text_or_null c.uid) (
        field "source" (str c.source) (
          field "reporter_user_id" (text_or_null c.reporter_user_id) (
            field "chat_id" (text_or_null c.chat_id) (
              field "issue_domain" (text_or_null c.issue_domain) (
                field "issue_type" (text_or_null c.issue_type) (
                  field "original_text" (text_or_null c.original_text) (
                    field "ocr_text" (text_or_null c.ocr_text)
                      (field "status" (str c.status) end))))))))))

pub record Message : Type 0 where
  pub role : String
  pub content : String

pub record DecisionRow : Type 0 where
  pub decision_type : String
  pub status : String

pub record AgentRun : Type 0 where
  pub agent_name : String
  pub agent_role : String
  pub trigger_type : String
  pub run_status : String

pub record RunEvent : Type 0 where
  pub run : ℕ
  pub event_type : String
  pub event_status : String

pub record Investigation : Type 0 where
  pub initial_hypothesis : String
  pub status : String
  pub summary : String

-- `statuses` are the statuses written so far, and `calls` the plans that the Gateway was called with.
pub record Store : Type 0 where
  pub case : Case
  pub entities : Entities
  pub messages : List Message
  pub decisions : List DecisionRow
  pub ledger : List ContextLedgerItem
  pub runs : List AgentRun
  pub events : List RunEvent
  pub investigations : List Investigation
  pub calls : List ToolPlan
  pub statuses : List String

-- `_transition`, and `update_case_fields` with a `case_status`
unfoldable pub set_status : String → Store → Store
set_status status s = record s {
  case = record s.case { status = status };
  statuses = s.statuses ++ status ∷ [];
}

-- `add_message`
abbrev pub add_message : String → String → Store → Store
add_message role content s = record s {
  messages = s.messages ++ record { role = role; content = content } ∷ [];
}

-- `_record_decision`
abbrev pub record_decision : String → String → Store → Store
record_decision decision_type status s = record s {
  decisions = s.decisions ++ record { decision_type = decision_type; status = status } ∷ [];
}

-- `_record_context_ledger`
abbrev pub record_context_ledger : ContextLedgerItem → Store → Store
record_context_ledger item s = record s { ledger = s.ledger ++ item ∷ [] }

-- `_record_agent_run_event`
abbrev pub record_agent_run_event : ℕ → String → String → Store → Store
record_agent_run_event run event_type event_status s = record s {
  events =
      s.events ++ record { run = run; event_type = event_type; event_status = event_status } ∷ [];
}

-- `create_agent_run`; the id of the run is the length of the table before.
abbrev pub start_agent_run : AgentRun → Store → Store
start_agent_run run s = record s { runs = s.runs ++ run ∷ [] }

unfoldable pub run_at : ℕ → List AgentRun → Option AgentRun
run_at n [] = none
run_at zero (run ∷ rest) = some run
run_at (suc n) (run ∷ rest) = run_at n rest

-- `update_agent_run` with a `run_status`
unfoldable pub update_run : ℕ → String → List AgentRun → List AgentRun
update_run n run_status [] = []
update_run zero run_status (run ∷ rest) = record run { run_status = run_status } ∷ rest
update_run (suc n) run_status (run ∷ rest) = run ∷ update_run n run_status rest

-- the test for the run that stands for the processing of a case
abbrev pub is_case_process : Option AgentRun → Bool
is_case_process none = false
is_case_process (some run) = run.agent_role == "orchestrator" && run.trigger_type == "case_process"

-- `_finish_agent_run`; the scheduler is asked with the status of the run.
unfoldable pub finish_agent_run : ℕ → String → Store → Store
unfolding run_at update_run finish
finish_agent_run run status s =
    let failed = status == "failed" in
    let scheduled =
      if is_case_process (run_at run s.runs)
      then record_agent_run_event run (finish status failed false).event_type
          (if failed then "failed" else "success") s
      else s in
    record_agent_run_event run "run_finished" status
      (record scheduled { runs = update_run run status s.runs })

-- `create_investigation`; its id is the length of the table before.
abbrev pub create_investigation : String → Store → Store
create_investigation hypothesis s = record s {
  investigations =
      s.investigations
      ++ record { initial_hypothesis = hypothesis; status = "running"; summary = "" } ∷ [];
}

unfoldable pub close_investigation : ℕ → String → List Investigation → List Investigation
close_investigation n summary [] = []
close_investigation zero summary (row ∷ rest) =
    record row { status = "finished"; summary = summary } ∷ rest
close_investigation (suc n) summary (row ∷ rest) = row ∷ close_investigation n summary rest

-- `finish_investigation(id, "finished", summary, ...)`
abbrev pub finish_investigation : ℕ → String → Store → Store
finish_investigation id summary s = record s {
  investigations = close_investigation id summary s.investigations;
}

-- the query of `add_entities` for a row that is there, by what the database takes for the same text
abbrev pub has_entity : (String → String → Bool) → String → String → Entities → Bool
has_entity same entity_type entity_value = any (λ (k, v). same k entity_type && same v entity_value)

-- `add_entities`: blank rows and rows that are there are passed over.
unfoldable pub add_entities : (String → String → Bool) → Entities → Entities → Entities
unfolding strip
add_entities same stored [] = stored
add_entities same stored ((entity_type, entity_value) ∷ rest) =
    let k = strip entity_type in
    let v = strip entity_value in
    add_entities same
      (if k == "" || v == "" || has_entity same k v stored then stored else stored ++ (k, v) ∷ [])
      rest

-- `entity_map`: the first value of each type
unfoldable pub entity_map_from : Entities → Entities → Entities
unfolding has_key
entity_map_from out [] = out
entity_map_from out ((k, v) ∷ rest) =
    entity_map_from
      (if not (k == "") && not (v == "") && not (has_key out k) then out ++ (k, v) ∷ [] else out)
      rest

unfoldable pub entity_map : Entities → Entities
unfolding entity_map_from
entity_map rows = entity_map_from [] rows
