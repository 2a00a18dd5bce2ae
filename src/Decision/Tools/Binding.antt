-- ===== src/Decision/Tools/Binding.antt =====
-- The plan that `build_tool_plan` makes of a tool's name has nothing for the verifier to object to.
use ai_troubleshooter.Prelude.{
  String, true, false, ◌||◌, some, List, [], ◌∷◌, map, arith, mem, is_empty, is_space, strip, All,
  or_else, ◌==◌, ◌<>◌, ◌≡◌, refl, ◌∙◌, ◌⊎◌, inl, inr, Bool-cases, Option-cases,
}
use ai_troubleshooter.Prelude.Blank.{all_space, strip-empty, all_space-append}
use ai_troubleshooter.Decision.Models.{DecisionRequest, Hypothesis}
use ai_troubleshooter.Decision.Verifier.{is_blank, available_names}
use ai_troubleshooter.Decision.Verifier.Normalize.{is_valid, IsClean, names}
use ai_troubleshooter.Decision.Tools.{
  brief_hypotheses, brief_binding, tool_bindings, lookup, tool_brief_binding, build_tool_plan,
}
use ai_troubleshooter.Decision.Tools.Select.{IsSelection}

-- A text that is given only if it says something.
abbrev IsStated : String → Type 0
IsStated s = (s ≡ "") ⊎ (is_blank s ≡ false)

-- The hypotheses of the request's brief state their ids and the evidence that they expect, or leave
-- them out.
abbrev pub HasStatedBrief : DecisionRequest → Type 0
HasStatedBrief request =
    All (λ h. IsStated h.id × IsStated h.expected_evidence) (brief_hypotheses request)

is_blank-eq : (s : String) → is_blank s ≡ all_space s
unfolding is_blank
is_blank-eq s = strip-empty s

abbrev IsBinding : String × String → Type 0
IsBinding b = (is_blank b.0 ≡ false) × (is_blank b.1 ≡ false)

readonly_evidence : (name : String) → is_blank (name <> " readonly evidence") ≡ false
unfolding all_space is_space
readonly_evidence name =
    is_blank-eq (name <> " readonly evidence")
    ∙ all_space-append name " readonly evidence"
    ∙ ground arith

or_else-stated : (s d : String) → IsStated s → is_blank d ≡ false → is_blank (or_else s d) ≡ false
or_else-stated s d (inl e) h = rw e h
or_else-stated s d (inr e) h = elim (Bool-cases (s == "")) [
  | inl empty ↦ rw empty h
  | inr full ↦ rw full e
]

brief_hypothesis : is_blank "brief_hypothesis" ≡ false
unfolding all_space is_space
brief_hypothesis = is_blank-eq "brief_hypothesis"

default_stated : is_blank "readonly_evidence" ≡ false
unfolding all_space is_space
default_stated = is_blank-eq "readonly_evidence"

brief_binding-IsBinding :
    (name : String) (hs : List Hypothesis) (b : String × String)
    → All (λ h. IsStated h.id × IsStated h.expected_evidence) hs
    → brief_binding name hs ≡ some b
    → IsBinding b
unfolding brief_binding
brief_binding-IsBinding name [] b stated e = cc
brief_binding-IsBinding name (h ∷ hs) b ((i, v), stated) e =
    elim (Bool-cases (mem name h.candidate_tools)) [
      | inl mine ↦ ground (
        arith,
        or_else-stated h.id "brief_hypothesis" i brief_hypothesis,
        or_else-stated h.expected_evidence (name <> " readonly evidence") v
            (readonly_evidence name),
      )
      | inr other ↦ brief_binding-IsBinding name hs b stated (ground arith)
    ]

lookup-IsBinding :
    (table : List (String × String × String)) (key : String) (default : String × String)
    → All (λ row. IsBinding (row.1, row.2)) table
    → IsBinding default
    → IsBinding (lookup table key default)
lookup-IsBinding [] key default h d = d
lookup-IsBinding ((k, a, b) ∷ rest) key default (r, h) d = elim (Bool-cases (k == key)) [
  | inl e ↦ rw e r
  | inr e ↦ rw e (lookup-IsBinding rest key default h d)
]

tool_bindings-IsBinding : All (λ row. IsBinding (row.1, row.2)) tool_bindings
unfolding is_blank strip is_space
tool_bindings-IsBinding = (
  (refl, refl),
  (
    (refl, refl),
    (
      (refl, refl),
      (
        (refl, refl),
        (
          (refl, refl),
          (
            (refl, refl),
            (
              (refl, refl),
              (
                (refl, refl),
                (
                  (refl, refl),
                  (
                    (refl, refl),
                    ((refl, refl), ((refl, refl), ((refl, refl), ((refl, refl), tt)))),
                  ),
                ),
              ),
            ),
          ),
        ),
      ),
    ),
  ),
)

tool_brief_binding-IsBinding :
    (request : DecisionRequest) (name : String)
    → HasStatedBrief request
    → IsBinding (tool_brief_binding name request)
unfolding tool_brief_binding
tool_brief_binding-IsBinding request name stated =
    elim (Option-cases (brief_binding name (brief_hypotheses request))) [
      | inl e ↦
          rw (e, tool_brief_binding)
            (lookup-IsBinding tool_bindings name ("readonly_evidence", name <> " readonly evidence")
              tool_bindings-IsBinding (default_stated, readonly_evidence name))
      | inr (b, e) ↦
          rw (e, tool_brief_binding)
            (brief_binding-IsBinding name (brief_hypotheses request) b stated e)
    ]

plan_reason :
    (name id : String)
    → is_blank ("查询 " <> name <> " 验证假设 " <> id <> "，调用必须经过 Investigation Gateway。") ≡ false
unfolding all_space is_space
plan_reason name id =
    is_blank-eq ("查询 " <> name <> " 验证假设 " <> id <> "，调用必须经过 Investigation Gateway。")
    ∙ all_space-append "查询 " (name <> " 验证假设 " <> id <> "，调用必须经过 Investigation Gateway。")

build_tool_plan-is_valid :
    (request : DecisionRequest) (name : String)
    → HasStatedBrief request
    → (name == "") ≡ false
    → (is_empty (available_names request.available_tools)
        || mem name (available_names request.available_tools))
      ≡ true
    → is_valid (available_names request.available_tools) (build_tool_plan request name) ≡ true
unfolding is_valid build_tool_plan
build_tool_plan-is_valid request name stated named available =
    let binding = tool_brief_binding-IsBinding request name stated in
    rw
      (named, available, plan_reason name (tool_brief_binding name request).0, binding.0, binding.1)

pub names-map :
    (request : DecisionRequest) (selected : List String)
    → names (map (build_tool_plan request) selected) ≡ selected
unfolding build_tool_plan
names-map request [] = refl
names-map request (x ∷ xs) = rw (names-map request xs)

plans-valid :
    (request : DecisionRequest) (selected : List String)
    → HasStatedBrief request
    → All (λ name. (name == "") ≡ false) selected
    → All
        (λ name.
          (is_empty (available_names request.available_tools)
            || mem name (available_names request.available_tools))
          ≡ true)
        selected
    → All
        (λ item. is_valid (available_names request.available_tools) item ≡ true)
        (map (build_tool_plan request) selected)
plans-valid request [] stated named available = tt
plans-valid request (x ∷ xs) stated (n, named) (a, available) =
    (build_tool_plan-is_valid request x stated n a, plans-valid request xs stated named available)

-- The plans of a selection are clean: the verifier has nothing to object to.
pub plans-IsClean :
    (request : DecisionRequest) (selected : List String)
    → HasStatedBrief request
    → IsSelection request selected
    → IsClean (available_names request.available_tools) (map (build_tool_plan request) selected)
plans-IsClean request selected stated h = record {
  valid = plans-valid request selected stated h.callable.named h.available;
  distinct = rw (names-map request selected) h.callable.distinct;
}
