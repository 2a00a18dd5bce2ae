-- ===== src/Platform/Process/Branches.antt =====
-- The ways in which the processing of a claimed case ends: each is a walk, and calls few tools.
use mathlib.Core.List.{append-nil}
use ai_troubleshooter.Prelude.{
  ℕ, ◌≤◌, String, true, Option, none, some, List, [], ◌∷◌, ◌++◌, mem, length, arith, inl, inr, ◌⊎◌,
  Bool-cases, ◌==◌, ◌≡◌, refl, sym, ◌∙◌, subst,
}
use ai_troubleshooter.Prelude.Distinct.{Distinct}
use ai_troubleshooter.Python.{Runtime}
use ai_troubleshooter.Decision.Models.{DecisionResponse, ToolPlan}
use ai_troubleshooter.Decision.Verifier.Normalize.{names}
use ai_troubleshooter.Platform.Advisor.{Reply, payload, raised}
use ai_troubleshooter.Platform.Case.{Store, set_status, finish_agent_run}
use ai_troubleshooter.Platform.Answers.{
  CaseResult, Outcome, DecisionAgent, ask_user, require_decision_agent, need_human_reply,
  answer_from_knowledge, answer_from_local_code, direct_failed, direct_replied, direct_blocked,
  direct_unavailable, reply_body_of, direct_reply, answer_direct_chat,
}
use ai_troubleshooter.Platform.Process.{completed}
use ai_troubleshooter.Platform.Process.Lifecycle.{
  Edge, asks, waits, replies, hands_over, investigates, knows, IsWalk, IsWalk-refl, IsWalk-keep,
  IsWalk-step_from, Keeps, Keeps-refl, Keeps-trans,
}
use ai_troubleshooter.Platform.Process.Kept.{finish_agent_run-Keeps}

-- A result stands on a status in which the case waits for a person, and says so; an exception comes
-- from a status in which the case is worked on.
abbrev pub IsEnd : String → CaseResult ⊎ String → Type 0
IsEnd status (inl result) =
    (mem status ("WAITING_USER_REPLY" ∷ "NEED_HUMAN_CONFIRMATION" ∷ []) ≡ true)
    × (result.status ≡ status)
IsEnd status (inr error) = mem status ("READY_TO_INVESTIGATE" ∷ "WAITING_TOOL_RESULT" ∷ []) ≡ true

-- No call without a decision agent.
abbrev pub IsGated : Option DecisionAgent → List ToolPlan → Type 0
IsGated none more = more ≡ []
IsGated (some agent) more = Unit

pub IsGated-nil : (agent : Option DecisionAgent) → IsGated agent []
IsGated-nil none = refl
IsGated-nil (some agent) = tt

-- The calls between two states: each tool at most once, at most ten, and none without an agent.
pub record IsFrugal (agent : Option DecisionAgent) (s t : Store) : Type 0 where
  pub calls : List ToolPlan
  pub appended : t.calls ≡ s.calls ++ calls
  pub once : Distinct (names calls)
  pub few : length calls ≤ 10
  pub gated : IsGated agent calls

pub quiet : (agent : Option DecisionAgent) {s t : Store} → t.calls ≡ s.calls → IsFrugal agent s t
quiet agent {s} e = record {
  calls = [];
  appended = e ∙ sym (append-nil s.calls);
  once = tt;
  few = omega arith;
  gated = IsGated-nil agent;
}

pub record IsGood (agent : Option DecisionAgent) (s : Store) (o : Outcome) : Type 0 where
  pub walk : IsWalk s o.0
  pub end : IsEnd o.0.case.status o.1
  pub frugal : IsFrugal agent s o.0

-- A result of a branch, before its run is closed.
pub record IsAnswer (s : Store) (r : Store × CaseResult) : Type 0 where
  pub walk : IsWalk s r.0
  pub end : IsEnd r.0.case.status (inl r.1)
  pub calls : r.0.calls ≡ s.calls

pub completed-IsGood :
    (agent : Option DecisionAgent) {s : Store} (run : ℕ) (r : Store × CaseResult)
    → IsAnswer s r
    → IsGood agent s (completed run r)
completed-IsGood agent run r h =
    let k = finish_agent_run-Keeps run "completed" r.0 in
    record {
      walk = IsWalk-keep h.walk k;
      end = subst (λ x. IsEnd x (inl r.1)) (sym k.status) h.end;
      frugal = quiet agent (k.calls ∙ h.calls);
    }

-- An answer that writes one status, with what else is written told apart by `Keeps`.
one_status :
    {s t : Store} (status : String)
    → Edge "READY_TO_INVESTIGATE" status
    → s.case.status ≡ "READY_TO_INVESTIGATE"
    → Keeps s t
    → IsWalk s (set_status status t)
one_status {s} status edge h k =
    IsWalk-step_from "READY_TO_INVESTIGATE" status (IsWalk-keep (IsWalk-refl s) k) (k.status ∙ h)
      edge

-- A status that ends the processing, whose run is closed behind it.
pub closed-IsEnd :
    {s u : Store} (run : ℕ) (run_status status : String) (result : CaseResult)
    → IsWalk s u
    → u.case.status ≡ status
    → mem status ("WAITING_USER_REPLY" ∷ "NEED_HUMAN_CONFIRMATION" ∷ []) ≡ true
    → result.status ≡ status
    → let t = finish_agent_run run run_status u in
      IsWalk s t × IsEnd t.case.status (inl result) × (t.calls ≡ u.calls)
closed-IsEnd {s} {u} run run_status status result w e m r =
    let f = finish_agent_run-Keeps run run_status u in
    (IsWalk-keep w f, (rw (f.status, e) m, r ∙ sym e ∙ sym f.status), f.calls)

closed-IsAnswer :
    {s u : Store} (run : ℕ) (run_status : String) (result : CaseResult)
    → IsWalk s u
    → u.case.status ≡ "WAITING_USER_REPLY"
    → result.status ≡ "WAITING_USER_REPLY"
    → u.calls ≡ s.calls
    → IsAnswer s (finish_agent_run run run_status u, result)
closed-IsAnswer run run_status result w e r c =
    let end = closed-IsEnd run run_status "WAITING_USER_REPLY" result w e refl r in
    record { walk = end.0; end = end.1; calls = end.2 ∙ c }

module _ {s : Store} (h : s.case.status ≡ "READY_TO_INVESTIGATE") where
  pub ask_user-IsAnswer : (missing_fields : List String) → IsAnswer s (ask_user missing_fields s)
  unfolding ask_user set_status
  ask_user-IsAnswer missing_fields = record {
    walk =
        IsWalk-step_from "NEED_MORE_INFO" "WAITING_USER_REPLY"
          (IsWalk-keep (one_status "NEED_MORE_INFO" asks h (Keeps-refl s))
            (record { status = refl; statuses = refl; calls = refl }))
          refl waits;
    end = (refl, refl);
    calls = refl;
  }

  pub require_decision_agent-IsAnswer : IsAnswer s (require_decision_agent s)
  unfolding require_decision_agent set_status
  require_decision_agent-IsAnswer = record {
    walk =
        one_status "WAITING_USER_REPLY" replies h
          (record { status = refl; statuses = refl; calls = refl });
    end = (refl, refl);
    calls = refl;
  }

  pub need_human_reply-IsAnswer : (reason : String) → IsAnswer s (need_human_reply reason s)
  unfolding need_human_reply set_status
  need_human_reply-IsAnswer reason = record {
    walk =
        one_status "NEED_HUMAN_CONFIRMATION" hands_over h
          (record { status = refl; statuses = refl; calls = refl });
    end = (refl, refl);
    calls = refl;
  }

  pub answer_from_knowledge-IsAnswer :
      (source reason : String) → IsAnswer s (answer_from_knowledge source reason s)
  unfolding answer_from_knowledge set_status
  answer_from_knowledge-IsAnswer source reason = record {
    walk =
        IsWalk-step_from "INVESTIGATING" "NEED_HUMAN_CONFIRMATION"
          (IsWalk-keep (one_status "INVESTIGATING" investigates h (Keeps-refl s))
            (record { status = refl; statuses = refl; calls = refl }))
          refl knows;
    end = (refl, refl);
    calls = refl;
  }

  pub answer_from_local_code-IsAnswer :
      (findings : DecisionResponse → String) (decision : DecisionResponse)
      → IsAnswer s (answer_from_local_code findings decision s)
  unfolding answer_from_local_code set_status
  answer_from_local_code-IsAnswer findings decision = record {
    walk =
        one_status "NEED_HUMAN_CONFIRMATION" hands_over h
          (record { status = refl; statuses = refl; calls = refl });
    end = (refl, refl);
    calls = refl;
  }

  direct_blocked-IsAnswer : IsAnswer s (direct_blocked s)
  unfolding direct_blocked set_status
  direct_blocked-IsAnswer = record {
    walk =
        one_status "WAITING_USER_REPLY" replies h
          (record { status = refl; statuses = refl; calls = refl });
    end = (refl, refl);
    calls = refl;
  }

  direct_unavailable-IsAnswer : IsAnswer s (direct_unavailable s)
  unfolding direct_unavailable set_status
  direct_unavailable-IsAnswer = record {
    walk =
        one_status "WAITING_USER_REPLY" replies h
          (record { status = refl; statuses = refl; calls = refl });
    end = (refl, refl);
    calls = refl;
  }

  direct_failed-IsAnswer :
      {t : Store} (run : ℕ) (error : String) → Keeps s t → IsAnswer s (direct_failed run error t)
  unfolding direct_failed set_status
  direct_failed-IsAnswer {t} run error k =
      closed-IsAnswer run "failed" _
        (one_status "WAITING_USER_REPLY" replies h
          (Keeps-trans k (record { status = refl; statuses = refl; calls = refl })))
        refl refl k.calls

  direct_replied-IsAnswer :
      {t : Store} (run : ℕ) (reply_body : String)
      → Keeps s t
      → IsAnswer s (direct_replied run reply_body t)
  unfolding direct_replied set_status
  direct_replied-IsAnswer {t} run reply_body k =
      closed-IsAnswer run "completed" _
        (one_status "WAITING_USER_REPLY" replies h
          (Keeps-trans k (record { status = refl; statuses = refl; calls = refl })))
        refl refl k.calls

  module _ ⦃py : Runtime⦄ where
    direct_reply-IsAnswer :
        {t : Store} (run : ℕ) (reply : Reply) → Keeps s t → IsAnswer s (direct_reply run reply t)
    unfolding direct_reply
    direct_reply-IsAnswer run (raised error) k = direct_failed-IsAnswer run error k
    direct_reply-IsAnswer run (payload fields) k = elim (Bool-cases (reply_body_of fields == "")) [
      | inl empty ↦ rw empty (direct_failed-IsAnswer run "decision agent returned empty reply" k)
      | inr given ↦ rw given (direct_replied-IsAnswer run _ k)
    ]

    pub answer_direct_chat-IsAnswer :
        (agent : Option DecisionAgent) (llm : Option (String → Reply)) (latest_text : String)
        → IsAnswer s (answer_direct_chat agent llm latest_text s)
    unfolding answer_direct_chat
    answer_direct_chat-IsAnswer none llm latest_text = direct_blocked-IsAnswer
    answer_direct_chat-IsAnswer (some agent) none latest_text = direct_unavailable-IsAnswer
    answer_direct_chat-IsAnswer (some agent) (some answer_chat) latest_text =
        direct_reply-IsAnswer _ (answer_chat latest_text)
          (record { status = refl; statuses = refl; calls = refl })
