-- ===== src/Platform/Messages/Status.antt =====
-- What holds of the answers, the titles and the statuses that messages lead to.
use ai_troubleshooter.Prelude.{
  String, true, false, mem, strip, is_space, ◌==◌, ◌≡◌, refl, inl, inr, Bool-cases, eq_iff,
}
use ai_troubleshooter.Platform.Scheduler.{active_statuses, claim}
use ai_troubleshooter.Platform.Messages.{status_after_user_message}

claims_waiting : (claim "WAITING_USER_REPLY").accepted ≡ true
unfolding claim strip is_space
claims_waiting = refl

claims_ready : (claim "READY_TO_INVESTIGATE").accepted ≡ true
unfolding claim strip is_space
claims_ready = refl

-- After a user's message a case is not stuck: it is being worked on, or the scheduler accepts a claim
-- of it, whatever its status was.
pub status_after_user_message-claim :
    (current : String)
    → mem (status_after_user_message current) active_statuses ≡ false
    → (claim (status_after_user_message current)).accepted ≡ true
unfolding status_after_user_message
status_after_user_message-claim current idle =
    elim (Bool-cases ("READY_TO_INVESTIGATE" == current)) [
      | inl ready ↦ rw (← (eq_iff "READY_TO_INVESTIGATE" current).0 ready, claims_ready)
      | inr other ↦ elim (Bool-cases (mem current active_statuses)) [
        | inl active ↦ cc (rw (other, active) at idle)
        | inr rest ↦ rw (other, rest, claims_waiting)
      ]
    ]
