-- ===== src/Platform/ToolLoop/Bounds.antt =====
-- What the loop over a tool plan calls, and when it stops.
use mathlib.Core.List.{append-nil, append_assoc}
use ai_troubleshooter.Prelude.{
  ℕ, suc, ◌+◌, ◌≤◌, String, Bool, true, false, not, List, [], ◌∷◌, ◌++◌, arith, take, length,
  length-append, filterb, if◌then◌else◌, ◌≡◌, ◌∙◌, refl, sym, ap, ◌⊎◌, inl, inr, Bool-cases,
}
use ai_troubleshooter.Python.{Runtime, Fields, ℤ, pos, str, get, or_value}
use ai_troubleshooter.Decision.Models.{ToolPlan}
use ai_troubleshooter.Platform.ToolLoop.{
  Answer, responded, raised, Gateway, DecisionEntry, tool_invocation, tool_query_stopped, Run,
  exhausted, is_success_value, fail_call, stop, accept_call, invoke_one, invoke_each,
}

-- a row of the decision log that tells of a call without success
abbrev pub is_failure : DecisionEntry → Bool
is_failure (tool_invocation plan answer status) = not (is_success_value status)
is_failure (tool_query_stopped budget failures) = false

abbrev pub failures_in : List DecisionEntry → ℕ
failures_in decisions = length (filterb is_failure decisions)

-- The lists of a run agree: an observation and a row of the ledger for each call, and as many failures
-- as the decision log tells of.
pub record IsConsistent (s : Run) : Type 0 where
  pub observed : length s.observations ≡ length s.calls
  pub recorded : length s.ledger ≡ length s.calls
  pub counted : s.failures ≡ failures_in s.decisions

failures_in-snoc :
    (decisions : List DecisionEntry) (d : DecisionEntry)
    → failures_in (decisions ++ d ∷ []) ≡ failures_in decisions + (if is_failure d then 1 else 0)
failures_in-snoc [] d = ground arith
failures_in-snoc (e ∷ rest) d = ground (arith, failures_in-snoc rest d)

module _ ⦃py : Runtime⦄ (gateway : Gateway) where
  -- One turn of the loop.
  record IsTurn (s : Run) (plan : ToolPlan) (t : Run) : Type 0 where
    called : t.calls ≡ s.calls ++ plan ∷ []
    failed : t.failures ≤ s.failures + 1
    consistent : IsConsistent t

  fail_call-IsTurn :
      (s : Run) (plan : ToolPlan) (error : String)
      → IsConsistent s
      → IsTurn s plan (fail_call s plan error)
  unfolding fail_call
  fail_call-IsTurn s plan error h = record {
    called = refl;
    failed = omega arith;
    consistent = record {
      observed = omega (
        arith,
        length-append s.observations (_ ∷ []),
        length-append s.calls (plan ∷ []),
        h.observed,
      );
      recorded =
          omega
            (arith, length-append s.ledger (_ ∷ []), length-append s.calls (plan ∷ []), h.recorded);
      counted = omega (arith, failures_in-snoc s.decisions _, h.counted);
    };
  }

  accept_call-IsTurn :
      (s : Run) (plan : ToolPlan) (response : Fields)
      → IsConsistent s
      → IsTurn s plan (accept_call s plan response)
  unfolding accept_call
  accept_call-IsTurn s plan response h =
      let status = or_value (get response "status") (str "success") in
      record {
        called = refl;
        failed = ground arith;
        consistent = record {
          observed = omega (
            arith,
            length-append s.observations (_ ∷ []),
            length-append s.calls (plan ∷ []),
            h.observed,
          );
          recorded = omega (
            arith,
            length-append s.ledger (_ ∷ []),
            length-append s.calls (plan ∷ []),
            h.recorded,
          );
          counted = ground (
            arith,
            failures_in-snoc s.decisions (tool_invocation plan (responded response) status),
            h.counted,
          );
        };
      }

  invoke_one-IsTurn :
      (s : Run) (plan : ToolPlan) → IsConsistent s → IsTurn s plan (invoke_one gateway s plan)
  unfolding invoke_one
  invoke_one-IsTurn s plan h = of_answer (gateway s.calls plan)
    where
      of_answer :
          (answer : Answer)
          → IsTurn s plan (elim answer [
            | responded response ↦ accept_call s plan response
            | raised error ↦ fail_call s plan error
          ])
      of_answer (responded response) = accept_call-IsTurn s plan response h
      of_answer (raised error) = fail_call-IsTurn s plan error h

  -- The loop's end `t`, from `s`, over the plans.
  pub record IsEnd (max_failures : ℤ) (s : Run) (plans : List ToolPlan) (t : Run) : Type 0 where
    pub count : ℕ
    pub called : t.calls ≡ s.calls ++ take count plans
    pub all_unless : (take count plans ≡ plans) ⊎ (exhausted max_failures t.failures ≡ true)
    pub failed :
        (budget : ℕ) → max_failures ≡ pos budget → s.failures ≤ budget → t.failures ≤ budget
    pub consistent : IsConsistent t

  within_budget :
      (max_failures : ℤ) (failures next budget : ℕ)
      → exhausted max_failures failures ≡ false
      → max_failures ≡ pos budget
      → next ≤ failures + 1
      → next ≤ budget
  within_budget max_failures failures next budget live e h =
      ground (arith, ap (λ m. exhausted m failures) e ∙ refl)

  pub invoke_each-IsEnd :
      (max_failures : ℤ) (s : Run) (plans : List ToolPlan)
      → IsConsistent s
      → IsEnd max_failures s plans (invoke_each gateway max_failures s plans)
  unfolding invoke_each stop
  invoke_each-IsEnd max_failures s [] h = record {
    count = 0;
    called = sym (append-nil s.calls);
    all_unless = inl refl;
    failed = λ budget e le. le;
    consistent = h;
  }
  invoke_each-IsEnd max_failures s (plan ∷ rest) h =
      elim (Bool-cases (exhausted max_failures s.failures)) [
        | inl over ↦ rw over (record {
          count = 0;
          called = sym (append-nil s.calls);
          all_unless = inr over;
          failed = λ budget e le. le;
          consistent = record {
            observed = h.observed;
            recorded = h.recorded;
            counted = omega (
              arith,
              failures_in-snoc s.decisions (tool_query_stopped max_failures s.failures),
              h.counted,
            );
          };
        })
        | inr live ↦
            let turn = invoke_one-IsTurn s plan h in
            let next = invoke_one gateway s plan in
            let end = invoke_each-IsEnd max_failures next rest turn.consistent in
            rw live (record {
              count = suc end.count;
              called =
                  end.called
                  ∙ ap (λ xs. xs ++ take end.count rest) turn.called
                  ∙ append_assoc s.calls (plan ∷ []) (take end.count rest);
              all_unless = elim end.all_unless [
                | inl all_called ↦ inl (ap (λ xs. plan ∷ xs) all_called)
                | inr over ↦ inr over
              ];
              failed = λ budget e le.
                  end.failed budget e
                    (within_budget max_failures s.failures next.failures budget live e turn.failed);
              consistent = end.consistent;
            })
      ]
