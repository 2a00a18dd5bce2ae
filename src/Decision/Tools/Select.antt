-- ===== src/Decision/Tools/Select.antt =====
-- What `select_tools` returns, for every request and domain.
use ai_troubleshooter.Prelude.{
  ℕ, ◌≤◌, String, true, false, ◌||◌, Option, none, some, List, [], ◌∷◌, ◌++◌, map, arith, length,
  length-take, take, mem, filterb, is_empty, strip, All, All-append, All-take, if◌then◌else◌, ◌==◌,
  ◌≡◌, inl, inr, Bool-cases,
}
use ai_troubleshooter.Prelude.Distinct.{
  Distinct, take-Distinct, filterb-Distinct, filterb-All, filterb-All_of_All, snoc-Distinct,
}
use ai_troubleshooter.Python.{Runtime}
use ai_troubleshooter.Decision.Models.{DecisionRequest, Hypothesis, InvestigationBrief}
use ai_troubleshooter.Decision.Verifier.{tool_budget, available_names}
use ai_troubleshooter.Decision.Tools.{
  selected_domain, default_tools, add_new, add_absent, candidates, brief_preferred_tools,
  health_food_priority, health_food_preferred_tools, select_tools,
}

-- Names to call: no name is empty and none stands twice.
pub record IsCallable (names : List String) : Type 0 where
  pub distinct : Distinct names
  pub named : All (λ name. (name == "") ≡ false) names

abbrev add_one : List String → String → List String
add_one out name = if name == "" || mem name out then out else out ++ name ∷ []

add_one-IsCallable :
    (out : List String) (name : String) → IsCallable out → IsCallable (add_one out name)
add_one-IsCallable out name h = elim (Bool-cases (name == "" || mem name out)) [
  | inl old ↦ rw old h
  | inr new ↦ rw new (record {
    distinct = snoc-Distinct name out (ground arith) h.distinct;
    named = All-append _ out (name ∷ []) h.named (ground arith, tt);
  })
]

add_new-IsCallable : (out more : List String) → IsCallable out → IsCallable (add_new out more)
unfolding add_new
add_new-IsCallable out [] h = h
add_new-IsCallable out (name ∷ more) h =
    add_new-IsCallable (add_one out name) more (add_one-IsCallable out name h)

add_absent-IsCallable :
    (out more : List String)
    → IsCallable out
    → All (λ name. (name == "") ≡ false) more
    → IsCallable (add_absent out more)
unfolding add_absent
add_absent-IsCallable out [] h named = h
add_absent-IsCallable out (name ∷ more) h (n, named) = elim (Bool-cases (mem name out)) [
  | inl old ↦ rw old (add_absent-IsCallable out more h named)
  | inr new ↦ rw new (
      add_absent-IsCallable (out ++ name ∷ []) more
        (record {
          distinct = snoc-Distinct name out new h.distinct;
          named = All-append _ out (name ∷ []) h.named (n, tt);
        })
        named)
]

candidates-IsCallable :
    (out : List String) (hs : List Hypothesis) → IsCallable out → IsCallable (candidates out hs)
unfolding candidates
candidates-IsCallable out [] h = h
candidates-IsCallable out (x ∷ hs) h =
    candidates-IsCallable (add_new out (map strip x.candidate_tools)) hs
      (add_new-IsCallable out (map strip x.candidate_tools) h)

none-IsCallable : IsCallable []
none-IsCallable = record { distinct = tt; named = tt }

default_tools-IsCallable : (domain : String) → IsCallable (default_tools domain)
unfolding default_tools
default_tools-IsCallable domain = elim (Bool-cases (domain == "kline")) [
  | inl e ↦ rw e (record { distinct = ground arith; named = ground arith })
  | inr e ↦ rw e (elim (Bool-cases (domain == "asset")) [
    | inl f ↦ rw f (record { distinct = ground arith; named = ground arith })
    | inr f ↦ rw f (elim (Bool-cases (domain == "health_food")) [
      | inl g ↦ rw g (record { distinct = ground arith; named = ground arith })
      | inr g ↦ rw g (record { distinct = ground arith; named = ground arith })
    ])
  ])
]

brief_preferred_tools-IsCallable :
    (request : DecisionRequest) (fallback : List String)
    → IsCallable fallback
    → IsCallable (brief_preferred_tools request fallback)
unfolding brief_preferred_tools
brief_preferred_tools-IsCallable request fallback h = go request.investigation_brief
  where
    go :
        (brief : Option InvestigationBrief)
        → IsCallable (elim brief [
          | none ↦ fallback
          | some b ↦ add_absent (candidates [] b.hypotheses) fallback
        ])
    go none = h
    go (some b) =
        add_absent-IsCallable (candidates [] b.hypotheses) fallback
          (candidates-IsCallable [] b.hypotheses none-IsCallable) h.named

take-IsCallable : (n : ℕ) (names : List String) → IsCallable names → IsCallable (take n names)
take-IsCallable n names h = record {
  distinct = take-Distinct n names h.distinct;
  named = All-take _ n names h.named;
}

-- What is selected: distinct names, within the budget, and available where tools are listed.
pub record IsSelection (request : DecisionRequest) (names : List String) : Type 0 where
  pub callable : IsCallable names
  pub within : length names ≤ tool_budget request.max_tool_calls
  pub available :
      All
        (λ name.
          (is_empty (available_names request.available_tools)
            || mem name (available_names request.available_tools))
          ≡ true)
        names

-- The cut of `select_tools` to what is available and within the budget.
abbrev usable : List String → List String → List String
usable available ordered =
    if is_empty available then ordered else filterb (λ name. mem name available) ordered

All-weaken :
    (P Q : String → Type 0) (names : List String)
    → ((name : String) → P name → Q name)
    → All P names
    → All Q names
All-weaken P Q [] f h = tt
All-weaken P Q (x ∷ xs) f (p, h) = (f x p, All-weaken P Q xs f h)

All-always : (P : String → Type 0) (names : List String) → ((name : String) → P name) → All P names
All-always P [] f = tt
All-always P (x ∷ xs) f = (f x, All-always P xs f)

usable-IsSelection :
    (request : DecisionRequest) (ordered : List String)
    → IsCallable ordered
    → IsSelection request (
        take
          (tool_budget request.max_tool_calls)
          (usable (available_names request.available_tools) ordered))
usable-IsSelection request ordered h =
    let names = available_names request.available_tools in
    let budget = tool_budget request.max_tool_calls in
    elim (Bool-cases (is_empty names)) [
      | inl unlisted ↦ rw unlisted (record {
        callable = take-IsCallable budget ordered h;
        within = omega (arith, length-take budget ordered);
        available = All-always _ (take budget ordered) (λ name. rw unlisted);
      })
      | inr listed ↦
          let kept = filterb (λ name. mem name names) ordered in
          rw listed (record {
            callable = take-IsCallable budget kept (record {
              distinct = filterb-Distinct (λ name. mem name names) ordered h.distinct;
              named = filterb-All_of_All (λ name. mem name names) _ ordered h.named;
            });
            within = omega (arith, length-take budget kept);
            available =
                All-weaken _ _ (take budget kept) (λ name m. rw listed m)
                  (All-take _ budget kept (filterb-All (λ name. mem name names) ordered));
          })
    ]

module _ ⦃py : Runtime⦄ where
  -- For every request and every domain, with or without a brief: the tools that are selected have
  -- names that are not empty and differ from one another, they are at most as many as the budget
  -- (and so at most ten), and each is an available one if the request lists any.
  pub select_tools-IsSelection :
      (request : DecisionRequest) (domain : String)
      → IsSelection request (select_tools request domain)
  unfolding select_tools health_food_preferred_tools
  select_tools-IsSelection request domain =
      let selected = selected_domain request domain in
      let preferred = brief_preferred_tools request (default_tools selected) in
      let h =
        brief_preferred_tools-IsCallable request (default_tools selected)
          (default_tools-IsCallable selected) in
      elim (Bool-cases (selected == "health_food")) [
        | inl food ↦ rw food (
            usable-IsSelection request (health_food_preferred_tools request preferred)
              (add_new-IsCallable [] (health_food_priority request ++ preferred) none-IsCallable))
        | inr other ↦ rw other (usable-IsSelection request preferred h)
      ]
