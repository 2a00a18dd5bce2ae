-- ===== src/Platform/Scheduler.antt =====
-- apps/agent-platform/agent_platform/case_scheduler.py: which status a case may be claimed from, and which
-- status it ends with. A status is a text, since the database holds one.
use ai_troubleshooter.Prelude.{
  String, Bool, true, false, not, ◌||◌, List, [], ◌∷◌, mem, strip, or_else, if◌then◌else◌, ◌==◌,
  ◌<>◌, ◌≡◌, inl, inr, refl, arith, Bool-cases, eq_iff,
}

abbrev pub claimable_statuses : List String
claimable_statuses = "NEW" ∷ "NEED_MORE_INFO" ∷ "WAITING_USER_REPLY" ∷ "READY_TO_INVESTIGATE" ∷ []

abbrev pub active_statuses : List String
active_statuses = "INVESTIGATING" ∷ "WAITING_TOOL_RESULT" ∷ []

abbrev pub terminal_statuses : List String
terminal_statuses = "NEED_HUMAN_CONFIRMATION" ∷ "DONE" ∷ "FAILED" ∷ []

pub record ScheduleDecision : Type 0 where
  pub accepted : Bool
  pub event_type : String
  pub next_status : String
  pub reason : String

-- `str(current_status or "").strip() or default`
abbrev pub status_or : String → String → String
status_or status default = or_else (strip status) default

unfoldable pub claim : String → ScheduleDecision
claim current_status =
    let status = status_or current_status "NEW" in
    if mem status claimable_statuses
    then record {
      accepted = true;
      event_type = "scheduler_claimed";
      next_status = "READY_TO_INVESTIGATE";
      reason = "case status " <> status <> " is claimable";
    }
    else record {
      accepted = false;
      event_type = "scheduler_rejected";
      next_status = status;
      reason = "case status " <> status <> " is not claimable";
    }

abbrev closed : Bool → String → String → String → ScheduleDecision
closed accepted event_type next_status reason = record {
  accepted = accepted;
  event_type = event_type;
  next_status = next_status;
  reason = reason;
}

-- The tests of `finish`, on the status that it has made of its argument.
finish_status : String → Bool → Bool → ScheduleDecision
finish_status status failed timed_out =
    if timed_out
    then closed false "scheduler_timed_out" "FAILED" "case processing exceeded timeout"
    else if failed
    then closed false "scheduler_failed" "FAILED" "case processing failed"
    else if mem status terminal_statuses
        || mem status ("NEED_MORE_INFO" ∷ "WAITING_USER_REPLY" ∷ [])
    then closed true "scheduler_finished" status ("case finished with status " <> status)
    else if mem status active_statuses
    then closed false "scheduler_still_active" status ("case remains active with status " <> status)
    else closed true "scheduler_finished" status ("case finished with status " <> status)

-- `finish(final_status, failed=..., timed_out=...)`
unfoldable pub finish : String → Bool → Bool → ScheduleDecision
unfolding finish_status
finish final_status failed timed_out =
    finish_status (status_or final_status "UNKNOWN") failed timed_out

-- A claim is accepted exactly from a claimable status, a status that is missing or blank counting as
-- new. If it is accepted the case goes to READY_TO_INVESTIGATE, and if not it keeps its status.
pub claim_cases :
    (current : String)
    → ((claim current).accepted ≡ mem (status_or current "NEW") claimable_statuses)
      × ((claim current).next_status
          ≡ (if (claim current).accepted then "READY_TO_INVESTIGATE" else status_or current "NEW"))
unfolding claim
claim_cases current = (ground arith, ground arith)

-- the statuses that `finish` accepts by name
abbrev ended : String → Bool
ended status =
    mem status terminal_statuses || mem status ("NEED_MORE_INFO" ∷ "WAITING_USER_REPLY" ∷ [])

active-not-ended : (status : String) → mem status active_statuses ≡ true → ended status ≡ false
active-not-ended status h = elim (Bool-cases ("INVESTIGATING" == status)) [
  | inl e ↦ rw (← (eq_iff "INVESTIGATING" status).0 e)
  | inr n ↦ elim (Bool-cases ("WAITING_TOOL_RESULT" == status)) [
    | inl e ↦ rw (← (eq_iff "WAITING_TOOL_RESULT" status).0 e)
    | inr m ↦ cc (rw (n, m) at h)
  ]
]

finish_from :
    (status : String) (failed timed_out : Bool)
    → (mem status active_statuses ≡ true → ended status ≡ false)
    → (finish_status status failed timed_out).accepted
      ≡ not (timed_out || failed || mem status active_statuses)
unfolding finish_status
finish_from status true true h = refl
finish_from status false true h = refl
finish_from status true false h = refl
finish_from status false false h = elim (Bool-cases (mem status active_statuses)) [
  | inl active ↦ rw (h active, active)
  | inr idle ↦ elim (Bool-cases (ended status)) [ inl e ↦ rw (e, idle) | inr n ↦ rw (n, idle) ]
]

-- A case is left as unfinished exactly when it timed out, failed, or stands in an active status; it
-- fails exactly when it timed out or failed, unless FAILED is the status that was handed in.
pub finish_cases :
    (final : String) (failed timed_out : Bool)
    → ((finish final failed timed_out).accepted
        ≡ not (timed_out || failed || mem (status_or final "UNKNOWN") active_statuses))
      × ((finish final failed timed_out).next_status
          ≡ (if timed_out || failed then "FAILED" else status_or final "UNKNOWN"))
unfolding finish
finish_cases final failed timed_out = (
  finish_from (status_or final "UNKNOWN") failed timed_out
      (active-not-ended (status_or final "UNKNOWN")),
  ground arith,
)
