-- ===== src/Platform/Process/Lifecycle.antt =====
-- The life of a case as a diagram of statuses, and runs that follow it.
use mathlib.Core.List.{append-nil, append_assoc}
use ai_troubleshooter.Prelude.{
  String, true, List, [], ◌∷◌, ◌++◌, mem, ◌≡◌, refl, sym, ap, ◌∙◌, subst,
}
use ai_troubleshooter.Platform.Case.{Store, set_status}

-- The transitions that the processing of a case may make once it is claimed.
pub data Edge : String → String → Type 0 where
  asks : Edge "READY_TO_INVESTIGATE" "NEED_MORE_INFO"
  waits : Edge "NEED_MORE_INFO" "WAITING_USER_REPLY"
  replies : Edge "READY_TO_INVESTIGATE" "WAITING_USER_REPLY"
  hands_over : Edge "READY_TO_INVESTIGATE" "NEED_HUMAN_CONFIRMATION"
  investigates : Edge "READY_TO_INVESTIGATE" "INVESTIGATING"
  knows : Edge "INVESTIGATING" "NEED_HUMAN_CONFIRMATION"
  calls_tools : Edge "INVESTIGATING" "WAITING_TOOL_RESULT"
  concludes : Edge "WAITING_TOOL_RESULT" "NEED_HUMAN_CONFIRMATION"
  fails_early : Edge "READY_TO_INVESTIGATE" "FAILED"
  fails_late : Edge "WAITING_TOOL_RESULT" "FAILED"
  expires :
      (status : String)
      → mem status ("WAITING_USER_REPLY" ∷ "NEED_HUMAN_CONFIRMATION" ∷ "FAILED" ∷ []) ≡ true
      → Edge status "FAILED"

-- Every status of a list is reached from the one before by a transition.
abbrev pub IsPath : String → List String → Type 0
IsPath status [] = Unit
IsPath status (next ∷ rest) = Edge status next × IsPath next rest

abbrev pub last_status : String → List String → String
last_status status [] = status
last_status status (next ∷ rest) = last_status next rest

-- What is written between two states of a case is a path in the diagram, which leads from the status
-- of the first to that of the second.
pub record IsWalk (s t : Store) : Type 0 where
  pub written : List String
  pub appended : t.statuses ≡ s.statuses ++ written
  pub path : IsPath s.case.status written
  pub ends : t.case.status ≡ last_status s.case.status written

-- A step that writes no status and calls no tool.
pub record Keeps (s t : Store) : Type 0 where
  pub status : t.case.status ≡ s.case.status
  pub statuses : t.statuses ≡ s.statuses
  pub calls : t.calls ≡ s.calls

pub Keeps-refl : (s : Store) → Keeps s s
Keeps-refl s = record { status = refl; statuses = refl; calls = refl }

pub Keeps-trans : {s t u : Store} → Keeps s t → Keeps t u → Keeps s u
Keeps-trans h k = record {
  status = k.status ∙ h.status;
  statuses = k.statuses ∙ h.statuses;
  calls = k.calls ∙ h.calls;
}

pub IsWalk-refl : (s : Store) → IsWalk s s
IsWalk-refl s = record {
  written = [];
  appended = sym (append-nil s.statuses);
  path = tt;
  ends = refl;
}

pub IsWalk-same :
    {s t u : Store}
    → IsWalk s t
    → u.case.status ≡ t.case.status
    → u.statuses ≡ t.statuses
    → IsWalk s u
IsWalk-same w status statuses = record {
  written = w.written;
  appended = statuses ∙ w.appended;
  path = w.path;
  ends = status ∙ w.ends;
}

pub IsWalk-keep : {s t u : Store} → IsWalk s t → Keeps t u → IsWalk s u
IsWalk-keep w k = IsWalk-same w k.status k.statuses

extend-IsPath :
    (status : String) (written : List String) (next : String)
    → IsPath status written
    → Edge (last_status status written) next
    → IsPath status (written ++ next ∷ []) × (next ≡ last_status status (written ++ next ∷ []))
extend-IsPath status [] next p e = ((e, tt), refl)
extend-IsPath status (a ∷ rest) next (e', p) e =
    let more = extend-IsPath a rest next p e in ((e', more.0), more.1)

-- One more status behind a walk.
pub IsWalk-step :
    {s t : Store} (next : String)
    → IsWalk s t
    → Edge t.case.status next
    → IsWalk s (set_status next t)
unfolding set_status
IsWalk-step {s} {t} next w e =
    let more =
      extend-IsPath s.case.status w.written next w.path (subst (λ a. Edge a next) w.ends e) in
    record {
      written = w.written ++ next ∷ [];
      appended =
          ap (λ xs. xs ++ next ∷ []) w.appended ∙ append_assoc s.statuses w.written (next ∷ []);
      path = more.0;
      ends = more.1;
    }

-- The same where the status before is known.
pub IsWalk-step_from :
    {s t : Store} (before next : String)
    → IsWalk s t
    → t.case.status ≡ before
    → Edge before next
    → IsWalk s (set_status next t)
IsWalk-step_from before next w e edge = IsWalk-step next w (subst (λ a. Edge a next) (sym e) edge)

-- A walk behind a step that writes no status.
pub IsWalk-after : {s t u : Store} → Keeps s t → IsWalk t u → IsWalk s u
IsWalk-after {s} {t} {u} k w = record {
  written = w.written;
  appended = subst (λ xs. u.statuses ≡ xs ++ w.written) k.statuses w.appended;
  path = subst (λ a. IsPath a w.written) k.status w.path;
  ends = subst (λ a. u.case.status ≡ last_status a w.written) k.status w.ends;
}
