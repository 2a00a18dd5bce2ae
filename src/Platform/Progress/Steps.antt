-- ===== src/Platform/Progress/Steps.antt =====
-- The steps of a progress: their order, the one that runs, and the end.
use ai_troubleshooter.Prelude.{
  ℕ, ◌+◌, ◌≤◌, String, Bool, true, false, Option, none, some, List, [], ◌∷◌, map, any, mem, All,
  arith, inl, inr, Bool-cases, eq_iff, if◌then◌else◌, ◌==◌, ◌≡◌, refl, ap, ◌∙◌,
}
use ai_troubleshooter.Python.{Runtime, get, Fields, Value, str}
use ai_troubleshooter.Platform.Progress.{
  Step, step_titles, service_active_statuses, ended_statuses, shown_statuses, step_status, last_of,
  step_of, logged_steps, run_first, skip_pending, build_progress,
}

abbrev pub has_status : String → Step → Bool
has_status status step = step.status == status

-- how many steps run
abbrev pub running_count : List Step → ℕ
running_count [] = 0
running_count (step ∷ rest) = (if has_status "running" step then 1 else 0) + running_count rest

abbrev pub keys_of : List Step → List String
keys_of [] = []
keys_of (step ∷ rest) = step.key ∷ keys_of rest

shown-running : (s : String) → mem s shown_statuses ≡ true → (s == "running") ≡ false
shown-running s h = elim (Bool-cases (s == "running")) [
  | inl e ↦ cc (rw ((eq_iff s "running").0 e) at h)
  | inr n ↦ n
]

step_status-running : (v : Value) → (step_status v == "running") ≡ false
unfolding step_status
step_status-running (str s) = elim (Bool-cases (mem s shown_statuses)) [
  | inl shown ↦ rw shown (shown-running s shown)
  | inr done ↦ rw done refl
]
step_status-running _ = refl

-- A step of the log does not run by itself.
abbrev IsStill : Step → Type 0
IsStill step = has_status "running" step ≡ false

module _ ⦃py : Runtime⦄ where
  step_of-IsStill :
      (entry : String × String) (found : Option Fields)
      → IsStill (step_of entry found) × ((step_of entry found).key ≡ entry.0)
  unfolding step_of
  step_of-IsStill (key, title) none = (refl, refl)
  step_of-IsStill (key, title) (some latest) = (step_status-running (get latest "status"), refl)

  logged_steps-IsStill :
      (logs : List Fields) (entries : List (String × String))
      → All IsStill (logged_steps logs entries)
        × (keys_of (logged_steps logs entries) ≡ map (λ entry. entry.0) entries)
  unfolding logged_steps
  logged_steps-IsStill logs [] = (tt, refl)
  logged_steps-IsStill logs (entry ∷ rest) =
      let here = step_of-IsStill entry (last_of entry.0 none logs) in
      let there = logged_steps-IsStill logs rest in ((here.0, there.0), rw (here.1, there.1) refl)

still_count : (steps : List Step) → All IsStill steps → running_count steps ≡ 0
still_count [] h = refl
still_count (step ∷ rest) (s, h) = rw (s, still_count rest h) refl

run_first_count : (steps : List Step) → All IsStill steps → running_count (run_first steps) ≤ 1
unfolding run_first
run_first_count [] h = omega arith
run_first_count (step ∷ rest) (s, h) = elim (Bool-cases (step.status == "pending")) [
  | inl pending ↦ rw pending (omega (arith, still_count rest h))
  | inr logged ↦ rw (logged, s) (omega (arith, run_first_count rest h))
]

keys_of-run_first : (steps : List Step) → keys_of (run_first steps) ≡ keys_of steps
unfolding run_first
keys_of-run_first [] = refl
keys_of-run_first (step ∷ rest) = elim (Bool-cases (step.status == "pending")) [
  | inl pending ↦ rw pending refl
  | inr logged ↦ rw logged (ap (λ keys. step.key ∷ keys) (keys_of-run_first rest))
]

-- no step is pending, the keys are those before, and as many steps run
skip_pending_all :
    (steps : List Step)
    → (any (has_status "pending") (skip_pending steps) ≡ false)
      × (keys_of (skip_pending steps) ≡ keys_of steps)
      × (running_count (skip_pending steps) ≡ running_count steps)
unfolding skip_pending
skip_pending_all [] = (refl, refl, refl)
skip_pending_all (step ∷ rest) =
    let (none_pending, keys, running) = skip_pending_all rest in
    elim (Bool-cases (step.status == "pending")) [
      | inl pending ↦
          rw (pending, (eq_iff step.status "pending").0 pending, none_pending, keys, running)
            (refl, refl, refl)
      | inr logged ↦ rw (logged, none_pending, keys, running) (ground arith, refl, refl)
    ]

-- What a page may rely on, for a status.
pub record IsProgress (status : String) (steps : List Step) : Type 0 where
  pub keys : keys_of steps ≡ map (λ entry. entry.0) step_titles
  pub running : running_count steps ≤ 1
  pub idle : mem status service_active_statuses ≡ false → running_count steps ≡ 0
  pub ended : mem status ended_statuses ≡ true → any (has_status "pending") steps ≡ false

module _ ⦃py : Runtime⦄ where
  -- Whatever is in the log, a progress has the nine steps in their order; at most one of them runs, and
  -- none unless the case is in an active status; and no step of a case that has ended is pending.
  pub build_progress-IsProgress :
      (status : String) (logs : List Fields) → IsProgress status (build_progress status logs)
  unfolding build_progress
  build_progress-IsProgress status logs =
      let steps = logged_steps logs step_titles in
      let (still, keys) = logged_steps-IsStill logs step_titles in
      let none_runs = still_count steps still in
      elim (Bool-cases (mem status ended_statuses)) [
        | inl done ↦ elim (Bool-cases (mem status service_active_statuses)) [
          | inl active ↦
              let (none_pending, same, count) = skip_pending_all (run_first steps) in
              rw (done, active)
                (record {
                  keys = same ∙ keys_of-run_first steps ∙ keys;
                  running = omega (arith, count, run_first_count steps still);
                  idle = λ e. cc (rw active at e);
                  ended = λ e. none_pending;
                })
          | inr idle ↦
              let (none_pending, same, count) = skip_pending_all steps in
              rw (done, idle)
                (record {
                  keys = same ∙ keys;
                  running = omega (arith, count, none_runs);
                  idle = λ e. count ∙ none_runs;
                  ended = λ e. none_pending;
                })
        ]
        | inr open' ↦ elim (Bool-cases (mem status service_active_statuses)) [
          | inl active ↦
              rw (open', active)
                (record {
                  keys = keys_of-run_first steps ∙ keys;
                  running = run_first_count steps still;
                  idle = λ e. cc (rw active at e);
                  ended = λ e. cc (rw open' at e);
                })
          | inr idle ↦
              rw (open', idle)
                (record {
                  keys = keys;
                  running = omega (arith, none_runs);
                  idle = λ e. none_runs;
                  ended = λ e. cc (rw open' at e);
                })
        ]
      ]
