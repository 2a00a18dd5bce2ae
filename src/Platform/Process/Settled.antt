-- ===== src/Platform/Process/Settled.antt =====
-- `process_case` from its claim to its end: the statuses that it writes, how it ends, what it calls.
use ai_troubleshooter.Prelude.{
  ℕ, String, Bool, true, false, Option, [], ◌∷◌, mem, length, strip, is_space, arith, inl, inr, ◌⊎◌,
  Bool-cases, eq_iff, ◌==◌, ◌<>◌, ◌≡◌, refl, sym, ap, ◌∙◌, subst,
}
use ai_troubleshooter.Python.{Runtime}
use ai_troubleshooter.Platform.Scheduler.{claim}
use ai_troubleshooter.Platform.Case.{
  Store, set_status, add_message, record_decision, finish_agent_run,
}
use ai_troubleshooter.Platform.Answers.{CaseResult, Outcome, DecisionAgent}
use ai_troubleshooter.Platform.Process.{
  World, process_claimed, handle, finalize, skip_case, process_case,
}
use ai_troubleshooter.Platform.Process.Lifecycle.{
  Edge, fails_early, fails_late, expires, IsWalk, IsWalk-same, IsWalk-step,
}
use ai_troubleshooter.Platform.Process.Kept.{finish_agent_run-Keeps}
use ai_troubleshooter.Platform.Process.Branches.{IsFrugal, quiet, IsGood, IsEnd}
use ai_troubleshooter.Platform.Process.Flow.{IsFrugal-before, process_claimed-IsGood}

-- A state in which an exception arises may fail.
may_fail :
    (status : String)
    → mem status ("READY_TO_INVESTIGATE" ∷ "WAITING_TOOL_RESULT" ∷ []) ≡ true
    → Edge status "FAILED"
may_fail status h = elim (Bool-cases ("READY_TO_INVESTIGATE" == status)) [
  | inl e ↦ subst (λ a. Edge a "FAILED") ((eq_iff "READY_TO_INVESTIGATE" status).0 e) fails_early
  | inr n ↦ elim (Bool-cases ("WAITING_TOOL_RESULT" == status)) [
    | inl e ↦ subst (λ a. Edge a "FAILED") ((eq_iff "WAITING_TOOL_RESULT" status).0 e) fails_late
    | inr m ↦ cc (rw (n, m) at h)
  ]
]

-- How a claimed case ends, by whether its time is over and by what `process_case` returns: it has
-- failed, or a result says the status in which it waits for a person.
abbrev pub IsSettled : Bool → String → CaseResult ⊎ String → Type 0
IsSettled true status result = status ≡ "FAILED"
IsSettled false status (inr error) = status ≡ "FAILED"
IsSettled false status (inl result) = IsEnd status (inl result)

-- The states that the handler and the `finally` block lead to.
record IsHandled (agent : Option DecisionAgent) (time_is_over : Bool) (s : Store) (o : Outcome)
    : Type 0 where
  walk : IsWalk s o.0
  settled : IsSettled time_is_over o.0.case.status o.1
  frugal : IsFrugal agent s o.0

IsFrugal-same :
    (agent : Option DecisionAgent) {s t u : Store}
    → u.calls ≡ t.calls
    → IsFrugal agent s t
    → IsFrugal agent s u
IsFrugal-same agent same frugal = record {
  calls = frugal.calls;
  appended = same ∙ frugal.appended;
  once = frugal.once;
  few = frugal.few;
  gated = frugal.gated;
}

handle-IsHandled :
    (agent : Option DecisionAgent) (run : ℕ) (s t : Store) (result : CaseResult ⊎ String)
    → IsGood agent s (t, result)
    → IsHandled agent false s (handle run (t, result))
unfolding handle set_status
handle-IsHandled agent run s t (inl result) good = record {
  walk = good.walk;
  settled = good.end;
  frugal = good.frugal;
}
handle-IsHandled agent run s t (inr error) good =
    let k = finish_agent_run-Keeps run "failed" (record_decision "process_failure" "failed" t) in
    let closed = finish_agent_run run "failed" (record_decision "process_failure" "failed" t) in
    let told = add_message "system" ("排查失败：" <> error) closed in
    record {
      walk = IsWalk-step "FAILED" (IsWalk-same {u = told} good.walk k.status k.statuses) (
          may_fail told.case.status (
            ap (λ a. mem a ("READY_TO_INVESTIGATE" ∷ "WAITING_TOOL_RESULT" ∷ [])) k.status
            ∙ good.end));
      settled = refl;
      frugal = IsFrugal-same agent k.calls good.frugal;
    }

settled_may_expire :
    (status : String) (result : CaseResult ⊎ String)
    → IsSettled false status result
    → mem status ("WAITING_USER_REPLY" ∷ "NEED_HUMAN_CONFIRMATION" ∷ "FAILED" ∷ []) ≡ true
settled_may_expire status (inl result) h = grind arith
settled_may_expire status (inr error) h = rw h refl

finalize-IsHandled :
    (agent : Option DecisionAgent) (time_is_over : Bool) (s t : Store)
    (result : CaseResult ⊎ String)
    → IsHandled agent false s (t, result)
    → IsHandled agent time_is_over s (finalize time_is_over (t, result))
unfolding finalize set_status
finalize-IsHandled agent false s t result h = h
finalize-IsHandled agent true s t result h = record {
  walk =
      IsWalk-step "FAILED" h.walk
        (expires t.case.status (settled_may_expire t.case.status result h.settled));
  settled = refl;
  frugal = IsFrugal-same agent refl h.frugal;
}

failed-refused : (claim "FAILED").accepted ≡ false
unfolding claim strip is_space
failed-refused = refl

confirmed-refused : (claim "NEED_HUMAN_CONFIRMATION").accepted ≡ false
unfolding claim strip is_space
confirmed-refused = refl

waits_or_stays :
    (status : String)
    → mem status ("WAITING_USER_REPLY" ∷ "NEED_HUMAN_CONFIRMATION" ∷ []) ≡ true
    → (status ≡ "WAITING_USER_REPLY") ⊎ ((claim status).accepted ≡ false)
waits_or_stays status h = elim (Bool-cases ("WAITING_USER_REPLY" == status)) [
  | inl e ↦ inl (sym ((eq_iff "WAITING_USER_REPLY" status).0 e))
  | inr n ↦ elim (Bool-cases ("NEED_HUMAN_CONFIRMATION" == status)) [
    | inl e ↦ inr (rw (← (eq_iff "NEED_HUMAN_CONFIRMATION" status).0 e) confirmed-refused)
    | inr m ↦ cc (rw (n, m) at h)
  ]
]

settled_waits_or_stays :
    (time_is_over : Bool) (status : String) (result : CaseResult ⊎ String)
    → IsSettled time_is_over status result
    → (status ≡ "WAITING_USER_REPLY") ⊎ ((claim status).accepted ≡ false)
settled_waits_or_stays true status result h = inr (rw h failed-refused)
settled_waits_or_stays false status (inr error) h = inr (rw h failed-refused)
settled_waits_or_stays false status (inl result) h = waits_or_stays status h.0

-- What the processing of a case writes, by whether it is claimed.
abbrev pub IsProcessed : Bool → Store → Store → Type 0
IsProcessed true s t = IsWalk (set_status "READY_TO_INVESTIGATE" s) t
IsProcessed false s t = (t.case.status ≡ s.case.status) × (t.statuses ≡ s.statuses)

module _ ⦃py : Runtime⦄ where
  claimed-IsHandled :
      (world : World) (s : Store)
      → (claim s.case.status).accepted ≡ true
      → IsHandled world.decision_agent world.time_is_over
          (set_status "READY_TO_INVESTIGATE" s)
          (process_case world s)
  unfolding process_case
  claimed-IsHandled world s accepted =
      let o = process_claimed world (claim s.case.status) s in
      let handled =
        handle-IsHandled world.decision_agent (length s.runs) (set_status "READY_TO_INVESTIGATE" s)
          o.0 o.1 (process_claimed-IsGood world s accepted) in
      let h = handle (length s.runs) o in
      rw accepted (
        finalize-IsHandled world.decision_agent world.time_is_over
          (set_status "READY_TO_INVESTIGATE" s) h.0 h.1 handled)

  skipped :
      (world : World) (s : Store)
      → (claim s.case.status).accepted ≡ false
      → process_case world s ≡ skip_case s
  unfolding process_case
  skipped world s refused = rw refused

  -- Whatever the world answers: a case that the scheduler does not let be claimed keeps its status, and
  -- no status is written. One that is claimed is first written `READY_TO_INVESTIGATE`, and what is
  -- written after that is a path in the diagram from there to the status that the case has then.
  pub process_case-IsWalk :
      (world : World) (s : Store)
      → IsProcessed (claim s.case.status).accepted s (process_case world s).0
  unfolding skip_case
  process_case-IsWalk world s = elim (Bool-cases (claim s.case.status).accepted) [
    | inl accepted ↦ rw accepted (claimed-IsHandled world s accepted).walk
    | inr refused ↦ rw (refused, skipped world s refused) (refl, refl)
  ]

  -- A claimed case does not stay in a status in which it is worked on. When the time is over or an
  -- exception is raised it has failed, and otherwise it waits for the user or for a person who
  -- confirms, and the result that is returned says the status that is stored.
  pub process_case-settles :
      (world : World) (s : Store)
      → (claim s.case.status).accepted ≡ true
      → let o = process_case world s in IsSettled world.time_is_over o.0.case.status o.1
  process_case-settles world s accepted = (claimed-IsHandled world s accepted).settled

  -- Processing a case calls each tool of the Gateway at most once and makes at most ten calls, whatever
  -- the limits of the configuration, and makes none when no real decision agent is enabled.
  pub process_case-calls :
      (world : World) (s : Store) → IsFrugal world.decision_agent s (process_case world s).0
  unfolding skip_case set_status
  process_case-calls world s = elim (Bool-cases (claim s.case.status).accepted) [
    | inl accepted ↦
        IsFrugal-before world.decision_agent refl (claimed-IsHandled world s accepted).frugal
    | inr refused ↦
        subst (λ o. IsFrugal world.decision_agent s o.0) (sym (skipped world s refused))
          (quiet world.decision_agent refl)
  ]

  status_after :
      (world : World) (s : Store)
      → let t = (process_case world s).0 in
        (t.case.status ≡ "WAITING_USER_REPLY") ⊎ ((claim t.case.status).accepted ≡ false)
  unfolding skip_case
  status_after world s = elim (Bool-cases (claim s.case.status).accepted) [
    | inl accepted ↦
        settled_waits_or_stays world.time_is_over _ _ (claimed-IsHandled world s accepted).settled
    | inr refused ↦ rw (skipped world s refused) (inr refused)
  ]

  -- Processing a case again, whatever the world answers then, changes nothing but for one row in the
  -- decision log that says so, unless the case waits for a reply of the user.
  pub process_case-process_case :
      (world next_world : World) (s : Store)
      → let t = (process_case world s).0 in
        (t.case.status ≡ "WAITING_USER_REPLY")
        ⊎ ((process_case next_world t).0 ≡ record_decision "process_skipped" "skipped" t)
  unfolding skip_case
  process_case-process_case world next_world s = elim (status_after world s) [
    | inl waits ↦ inl waits
    | inr refused ↦ inr (ap (λ o. o.0) (skipped next_world (process_case world s).0 refused))
  ]
