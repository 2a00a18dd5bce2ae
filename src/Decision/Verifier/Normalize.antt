-- ===== src/Decision/Verifier/Normalize.antt =====
-- `_normalize_tool_plan` against a description that has no loop: of the items that are valid, the
-- first of each name, cut at the budget.
use ai_troubleshooter.Prelude.{
  ℕ, zero, suc, ◌-◌, ◌≤◌, ◌<◌, String, Bool, true, false, not, ◌&&◌, ◌||◌, none, some, List, [],
  ◌∷◌, ◌++◌, map, arith, leb, length, take, take-nil, take_all, mem, filterb, is_empty, All,
  if◌then◌else◌, ◌==◌, ◌≡◌, refl, ◌∙◌, ◌⊎◌, inl, inr, Bool-cases, length-append, eq_iff, eq_refl,
}
use mathlib.Core.List.{append-nil, append_assoc}
use ai_troubleshooter.Prelude.Distinct.{Distinct}
use ai_troubleshooter.Decision.Models.{DecisionRequest, ToolPlan}
use ai_troubleshooter.Decision.Verifier.{
  Loop, available_names, is_blank, objection, accept, object, normalize_from, normalize_tool_plan,
}

-- An item that may be carried out on its own account.
unfoldable pub is_valid : List String → ToolPlan → Bool
is_valid available item =
    not (item.tool_name == "")
    && (is_empty available || mem item.tool_name available)
    && not (is_blank item.reason)
    && not (is_blank item.hypothesis_id)
    && not (is_blank item.expected_evidence)

-- The items whose names are neither in `seen` nor borne by an item before them.
unfoldable pub firsts : List String → List ToolPlan → List ToolPlan
firsts seen [] = []
firsts seen (x ∷ xs) =
    let skipped = firsts seen xs in
    let kept = x ∷ firsts (x.tool_name ∷ seen) xs in if mem x.tool_name seen then skipped else kept

abbrev pub names : List ToolPlan → List String
names = map (λ item. item.tool_name)

objection_cases :
    (available seen : List String) (item : ToolPlan)
    → (objection available seen item ≡ none)
        × (is_valid available item ≡ true)
        × (mem item.tool_name seen ≡ false)
      ⊎ ((what : String) × (objection available seen item ≡ some what)
          × ((is_valid available item ≡ false) ⊎ (mem item.tool_name seen ≡ true)))
unfolding objection is_valid is_blank
objection_cases available seen item = ground arith

module _ (available : List String) (budget total : ℕ) where
  -- what the loop still adds, from the items that are left
  abbrev more : List ToolPlan → Loop → List ToolPlan
  more items s =
      take (budget - length s.normalized) (firsts s.seen (filterb (is_valid available) items))

  more-dropped :
      (item : ToolPlan) (rest : List ToolPlan) (s : Loop) (what : String)
      → (is_valid available item ≡ false) ⊎ (mem item.tool_name s.seen ≡ true)
      → more (item ∷ rest) s ≡ more rest (object s what)
  unfolding firsts
  more-dropped item rest s what (inl invalid) = rw invalid
  more-dropped item rest s what (inr again) = elim (Bool-cases (is_valid available item)) [
    | inl valid ↦ rw (valid, again)
    | inr invalid ↦ rw invalid
  ]

  more-kept :
      (item : ToolPlan) (rest : List ToolPlan) (s : Loop) (room : ℕ)
      → is_valid available item ≡ true
      → mem item.tool_name s.seen ≡ false
      → budget - length s.normalized ≡ suc room
      → more (item ∷ rest) s
        ≡ item ∷ take room (firsts (item.tool_name ∷ s.seen) (filterb (is_valid available) rest))
  unfolding firsts
  more-kept item rest s room valid fresh e = rw (e, valid, fresh)

  length-accept :
      (s : Loop) (item : ToolPlan) → length (accept s item).normalized ≡ suc (length s.normalized)
  length-accept s item = omega (arith, length-append s.normalized (item ∷ []))

  -- the loop breaks behind an accepted item, with or without a note of what was cut
  normalize_from-last :
      (item : ToolPlan) (rest : List ToolPlan) (s : Loop)
      → objection available s.seen item ≡ none
      → budget ≤ length (accept s item).normalized
      → (normalize_from available budget total (item ∷ rest) s).normalized
        ≡ s.normalized ++ item ∷ []
  unfolding normalize_from
  normalize_from-last item rest s e full = ground (arith, e)

  normalize_from-next :
      (item : ToolPlan) (rest : List ToolPlan) (s : Loop)
      → objection available s.seen item ≡ none
      → length (accept s item).normalized < budget
      → normalize_from available budget total (item ∷ rest) s
        ≡ normalize_from available budget total rest (accept s item)
  unfolding normalize_from
  normalize_from-next item rest s e room = ground (arith, e)

  normalize_from-object :
      (item : ToolPlan) (rest : List ToolPlan) (s : Loop) (what : String)
      → objection available s.seen item ≡ some what
      → normalize_from available budget total (item ∷ rest) s
        ≡ normalize_from available budget total rest (object s what)
  unfolding normalize_from
  normalize_from-object item rest s what e = rw (e, normalize_from)

  normalize_from-eq :
      (items : List ToolPlan) (s : Loop)
      → length s.normalized < budget
      → (normalize_from available budget total items s).normalized ≡ s.normalized ++ more items s
  unfolding normalize_from firsts
  normalize_from-eq [] s h = rw (take-nil (budget - length s.normalized), append-nil s.normalized)
  normalize_from-eq (item ∷ rest) s h = elim (objection_cases available s.seen item) [
    | inr (what, e, why) ↦
        rw (normalize_from-object item rest s what e, more-dropped item rest s what why)
          (normalize_from-eq rest (object s what) h)
    | inl (e, valid, fresh) ↦ elim (Bool-cases (leb budget (length (accept s item).normalized))) [
      | inl full ↦ rw (
        normalize_from-last item rest s e (ground arith),
        more-kept item rest s 0 valid fresh (ground (arith, length-accept s item)),
      )
      | inr room ↦
          let fits : length (accept s item).normalized < budget = ground arith in
          let left : ℕ = budget - length (accept s item).normalized in
          rw
            (
              normalize_from-next item rest s e fits,
              more-kept item rest s left valid fresh (omega (arith, length-accept s item)),
            )
            (normalize_from-eq rest (accept s item) fits
              ∙ append_assoc s.normalized (item ∷ []) (more rest (accept s item)))
    ]
  ]

-- The plan that the verifier lets through is: of the items that are valid on their own account, the
-- first of each name, in the order given, cut at the budget.
pub normalize_tool_plan-eq :
    (request : DecisionRequest) (tool_plan : List ToolPlan) (budget : ℕ)
    → 0 < budget
    → (normalize_tool_plan request tool_plan budget).normalized
      ≡ take budget
          (firsts [] (filterb (is_valid (available_names request.available_tools)) tool_plan))
unfolding normalize_tool_plan
normalize_tool_plan-eq request tool_plan budget h =
    let whole : budget - 0 ≡ budget = omega arith in
    rw whole at (
      normalize_from-eq (available_names request.available_tools) budget (length tool_plan)
        tool_plan (record { normalized = []; seen = []; violations = [] }) h)

-- Each name of `firsts seen items` is outside `seen`, and they differ from one another.
firsts-fresh :
    (a : String) (seen : List String) (items : List ToolPlan)
    → mem a seen ≡ true
    → mem a (names (firsts seen items)) ≡ false
unfolding firsts
firsts-fresh a seen [] h = refl
firsts-fresh a seen (x ∷ xs) h = ground (
  arith,
  eq_iff x.tool_name a,
  firsts-fresh a seen xs h,
  firsts-fresh a (x.tool_name ∷ seen) xs (ground arith),
)

pub firsts-Distinct :
    (seen : List String) (items : List ToolPlan) → Distinct (names (firsts seen items))
unfolding firsts
firsts-Distinct seen [] = tt
firsts-Distinct seen (x ∷ xs) = elim (Bool-cases (mem x.tool_name seen)) [
  | inl again ↦ rw again (firsts-Distinct seen xs)
  | inr fresh ↦ rw fresh (
    firsts-fresh x.tool_name (x.tool_name ∷ seen) xs (rw eq_refl),
    firsts-Distinct (x.tool_name ∷ seen) xs,
  )
]

pub names-take : (n : ℕ) (items : List ToolPlan) → names (take n items) ≡ take n (names items)
names-take zero items = refl
names-take (suc n) [] = refl
names-take (suc n) (x ∷ xs) = rw (names-take n xs)

pub firsts-All :
    (P : ToolPlan → Type 0) (seen : List String) (items : List ToolPlan)
    → All P items
    → All P (firsts seen items)
unfolding firsts
firsts-All P seen [] h = tt
firsts-All P seen (x ∷ xs) (p, h) = elim (Bool-cases (mem x.tool_name seen)) [
  | inl again ↦ rw again (firsts-All P seen xs h)
  | inr fresh ↦ rw fresh (p, firsts-All P (x.tool_name ∷ seen) xs h)
]

pub filterb-All :
    (p : ToolPlan → Bool) (items : List ToolPlan) → All (λ x. p x ≡ true) (filterb p items)
filterb-All p [] = tt
filterb-All p (x ∷ xs) = elim (Bool-cases (p x)) [
  | inl holds ↦ rw holds (holds, filterb-All p xs)
  | inr fails ↦ rw fails (filterb-All p xs)
]

-- A plan with nothing to object to: every item is valid, and no name stands twice.
pub record IsClean (available : List String) (items : List ToolPlan) : Type 0 where
  pub valid : All (λ item. is_valid available item ≡ true) items
  pub distinct : Distinct (names items)

fresh-cons :
    (x : ToolPlan) (seen : List String) (items : List ToolPlan)
    → All (λ item. mem item.tool_name seen ≡ false) items
    → mem x.tool_name (names items) ≡ false
    → All (λ item. mem item.tool_name (x.tool_name ∷ seen) ≡ false) items
fresh-cons x seen [] h k = tt
fresh-cons x seen (y ∷ ys) (fresh, h) k = (
  ground (arith, eq_iff x.tool_name y.tool_name, eq_iff y.tool_name x.tool_name),
  fresh-cons x seen ys h (ground arith),
)

objection-none :
    (available seen : List String) (item : ToolPlan)
    → is_valid available item ≡ true
    → mem item.tool_name seen ≡ false
    → objection available seen item ≡ none
unfolding objection is_valid is_blank
objection-none available seen item valid fresh = ground arith

normalize_from-clean :
    (available : List String) (budget total : ℕ) (items : List ToolPlan) (s : Loop)
    → total ≤ budget
    → All (λ item. is_valid available item ≡ true) items
    → All (λ item. mem item.tool_name s.seen ≡ false) items
    → Distinct (names items)
    → (normalize_from available budget total items s).violations ≡ s.violations
unfolding normalize_from
normalize_from-clean available budget total [] s h valid fresh distinct = refl
normalize_from-clean available budget total (x ∷ xs) s h (v, valid) (f, fresh) (d, distinct) =
    ground (
      arith,
      objection-none available s.seen x v f,
      normalize_from-clean available budget total xs (accept s x) h valid
          (fresh-cons x s.seen xs fresh d) distinct,
    )

All-of-valid :
    (available : List String) (items : List ToolPlan)
    → All (λ item. is_valid available item ≡ true) items
    → filterb (is_valid available) items ≡ items
All-of-valid available [] h = refl
All-of-valid available (x ∷ xs) (v, h) = rw (v, All-of-valid available xs h)

firsts-eq_self :
    (seen : List String) (items : List ToolPlan)
    → All (λ item. mem item.tool_name seen ≡ false) items
    → Distinct (names items)
    → firsts seen items ≡ items
unfolding firsts
firsts-eq_self seen [] h d = refl
firsts-eq_self seen (x ∷ xs) (f, h) (d, distinct) =
    rw (f, firsts-eq_self (x.tool_name ∷ seen) xs (fresh-cons x seen xs h d) distinct)

fresh-nil : (items : List ToolPlan) → All (λ item. mem item.tool_name [] ≡ false) items
fresh-nil [] = tt
fresh-nil (x ∷ xs) = (refl, fresh-nil xs)

-- A clean plan that fits the budget passes whole, and the verifier notes no violation.
pub normalize_tool_plan-clean :
    (request : DecisionRequest) (tool_plan : List ToolPlan) (budget : ℕ)
    → 0 < budget
    → length tool_plan ≤ budget
    → IsClean (available_names request.available_tools) tool_plan
    → ((normalize_tool_plan request tool_plan budget).normalized ≡ tool_plan)
      × ((normalize_tool_plan request tool_plan budget).violations ≡ [])
unfolding normalize_tool_plan
normalize_tool_plan-clean request plan budget h fits clean = (
  normalize_tool_plan-eq request plan budget h
      ∙ rw
          (
            All-of-valid (available_names request.available_tools) plan clean.valid,
            firsts-eq_self [] plan (fresh-nil plan) clean.distinct,
          )
          (take_all budget plan fits),
  normalize_from-clean (available_names request.available_tools) budget (length plan) plan
      (record { normalized = []; seen = []; violations = [] }) fits clean.valid (fresh-nil plan)
      clean.distinct,
)
