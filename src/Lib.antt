-- ===== src/Lib.antt =====
-- The decision layer and the platform of ai-troubleshooter, and what they promise.
--
-- The program answers reports of production problems. The platform (apps/agent-platform) owns the
-- cases: it claims a case, builds a request, asks the decision layer for an action, carries out the
-- tool plan of the answer through a read-only Gateway, and checks that a final answer has evidence.
-- The decision layer (apps/decision-engine) is a function from a request to an action: a supervisor
-- asks a knowledge agent, a local code agent, a specialist of the domain and an advisor for
-- proposals, and a verifier lets through only what may be carried out.
--
-- The parts, with the file that models each:
--
--   Decision/Models      apps/decision-engine/decision_engine/models.py, the data classes
--   Decision/Intake      agent_team.py there: is there a problem, must the answer rest on fresh data
--   Decision/Knowledge   KnowledgeAgent; Knowledge/Best proves what it answers from
--   Decision/LocalCode   LocalCodeAgent, over the interface of the inspector in local_code.py
--   Decision/Tools       required fields, selection of tools, plans and their hypotheses;
--                        Tools/Select, Tools/Required and Tools/Binding have the proofs
--   Decision/Verifier    Verifier; Verifier/Normalize and Verifier/Safety have the proofs
--   Decision/Supervisor  DomainAgent, FallbackAgent, SupervisorAgentTeam.plan; Supervisor/Safety and
--                        Supervisor/Routing and Actions have the proofs
--   Platform/Advisor     apps/agent-platform/agent_platform/decision_advisor.py; Advisor/Bounds
--   Platform/Scheduler   case_scheduler.py there
--   Platform/Ledger      context_ledger.py there; Ledger/Clip, Ledger/Evidence, Ledger/Services
--   Platform/ToolLoop    service.py there, AgentPlatform._invoke_tools; ToolLoop/Bounds and
--                        ToolLoop/Carried have the proofs
--   Decision/Inspector   local_code.py: Words (symbols, texts), Lines and Excerpt (what a hit shows, with
--                        secrets masked), Resolve (calls across files), Reasons, Hits, Context and Build
--                        (the hits of a question), Dicts and Inspect (the method `inspect`);
--                        the proofs are in their children
--   Platform/Brief       service.py there, the goal and the hypotheses of the investigation brief
--   Platform/Messages    service.py there, the tests on messages, the replies and the titles
--   Platform/Capabilities  capabilities.py there: names, paths and the verdict on an imported item
--   Platform/Classifier  classifier.py there: the domain and the issue type of the merge
--   Platform/Summary     service.py there, the summary of observations and the problem of a brief
--   Platform/Case        the rows of a case: repository.py, and the writes of service.py; Case/Facts,
--                        Rows and Kept have the proofs on entities
--   Platform/Inquiry     service.py there, _classify_and_extract, _list_gateway_tools,
--                        _knowledge_candidates, and classifier.py, merge_llm_result
--   Platform/Request     service.py there, _build_investigation_brief and _decision_request
--   Platform/Answers     service.py there, the ways of answering
--   Platform/Summarize   service.py there, _summarize
--   Platform/Process     service.py there, process_case; Process/Lifecycle is the diagram of statuses, and
--                        Process/Kept, Branches, Tools, Flow and Settled have the proofs
--   Platform/Progress    service.py there, build_progress; Progress/Steps has the proof
--   Prelude, Python      lists and texts; the values, numbers and floats of the language
--   Tests                the theorems at concrete inputs
--
-- A method is a function of the same name without the leading underscore, its object's attributes
-- are arguments, and a loop is structural recursion on its list, so there is no fuel. A class that
-- the code takes as a collaborator is a record of its operations: `LocalCodeInspector`,
-- `DecisionAdvisor`, `LlmClient`, and `Gateway`, whose answer may depend on the earlier calls. What
-- the programs take from the runtime of Python (small and capital letters of a text, the classes
-- `\w` and `\d`, the text of a float or a container, `float(value)`, `int(value)`) is the interface
-- `Runtime`, an instance argument.
--
-- The processing of a case is a function on a `Store`, the rows that belong to the case. An exception
-- is a value, the right side of a sum, and the handler and the `finally` block are functions on it.
-- Answers of services are fields of the record `World`; whether the time is over is one of them.
--
-- Numbers. An `int` is `ℤ`; a number of a line, which is never below zero, is `ℕ`. A float is a
-- whole number of units of 2 ^ -1074, so every finite double is exact and comparisons are those of
-- the machine; the decimals of the source are the doubles they are rounded to. A slice with a
-- negative bound counts from the end.
--
-- `sorted(..., reverse=True)` is an insertion sort that keeps equal items in order. JSON objects are
-- lists of fields in the order of insertion.
--
-- Not modelled: the SQL of the repository and its other tables, the HTTP servers and clients, the
-- clients of language models, reading the configuration, the masking of request texts, and the Go
-- service behind the Gateway. Of the local code inspector, the walk over files, the patterns of denied
-- paths, the words of a question and the analysis of program text are left to the record `Inspector`.
-- Rows are lists in the order of writing; a write is taken to succeed, a query compares texts
-- by a parameter that stands for the database's collation, and latencies are left out.
pub mod Prelude
pub mod Python
pub mod Decision
pub mod Tests
pub mod Platform
