-- ===== src/Decision/Inspector/Inspect/Verdict.antt =====
-- When an inspection has evidence, and how much.
use ai_troubleshooter.Prelude.{
  ℕ, ◌≤◌, String, true, false, not, Option, none, some, List, [], ◌∷◌, length, length-map, is_empty,
  arith, inl, inr, Bool-cases, ◌==◌, ◌≡◌, refl,
}
use ai_troubleshooter.Python.{Runtime, ℤ}
use ai_troubleshooter.Decision.LocalCode.{LocalCodeInspection}
use ai_troubleshooter.Decision.Inspector.Words.{ScannedFile}
use ai_troubleshooter.Decision.Inspector.Hits.{LocalCodeHit}
use ai_troubleshooter.Decision.Inspector.Build.{at_least_one}
use ai_troubleshooter.Decision.Inspector.Build.Report.{build_hits-AreHits}
use ai_troubleshooter.Decision.Inspector.Resolve.{resolve_cross_module_symbols}
use ai_troubleshooter.Decision.Inspector.Dicts.{hit_dict}
use ai_troubleshooter.Decision.Inspector.Inspect.{
  LocalRepo, Inspector, read_files, report, resolve_repo, inspect_repo, inspect_given, inspect,
}

-- The status says whether there is evidence, there are few hits, and a risk is named where nothing
-- was searched, which leaves no evidence.
pub record IsVerdict (limit : ℕ) (result : LocalCodeInspection) : Type 0 where
  pub matched : (result.status == "matched") ≡ not (is_empty result.evidence)
  pub few : length result.evidence ≤ limit
  pub searched : is_empty result.risks ≡ false → is_empty result.evidence ≡ true

module _ ⦃py : Runtime⦄ where
  report-IsVerdict :
      (limit : ℕ) (service_name : String) (repo : LocalRepo) (files : List ScannedFile)
      (hits : List LocalCodeHit)
      → length hits ≤ limit
      → IsVerdict limit (report service_name repo files hits)
  unfolding report
  report-IsVerdict limit service_name repo files [] h = record {
    matched = refl;
    few = h;
    searched = λ e. refl;
  }
  report-IsVerdict limit service_name repo files (hit ∷ rest) h = record {
    matched = refl;
    few = omega (arith, h, length-map hit_dict rest);
    searched = λ e. cc e;
  }

  inspect_repo-IsVerdict :
      (inspector : Inspector) (service_name : String) (repo : LocalRepo) (terms : List String)
      (max_hits : ℤ)
      → IsVerdict (at_least_one max_hits) (inspect_repo inspector service_name repo terms max_hits)
  unfolding inspect_repo
  inspect_repo-IsVerdict inspector service_name repo terms max_hits =
      let files = resolve_cross_module_symbols (read_files repo.found) in
      elim (Bool-cases repo.exists) [
        | inr missing ↦
            rw missing (record { matched = refl; few = omega arith; searched = λ e. refl })
        | inl there ↦ rw there (elim (Bool-cases (is_empty terms)) [
          | inl empty ↦
              rw empty (record { matched = refl; few = omega arith; searched = λ e. refl })
          | inr given ↦ rw given (
              report-IsVerdict (at_least_one max_hits) service_name repo files _
                (build_hits-AreHits inspector.include_snippets files terms max_hits).1)
        ])
      ]

  inspect_given-IsVerdict :
      (inspector : Inspector) (service_name repo_hint : String) (repo : Option LocalRepo)
      (terms : List String) (max_hits : ℤ)
      → IsVerdict
          (at_least_one max_hits)
          (inspect_given inspector service_name repo_hint repo terms max_hits)
  unfolding inspect_given
  inspect_given-IsVerdict inspector service_name repo_hint none terms max_hits = record {
    matched = refl;
    few = omega arith;
    searched = λ e. refl;
  }
  inspect_given-IsVerdict inspector service_name repo_hint (some repo) terms max_hits =
      inspect_repo-IsVerdict inspector service_name repo terms max_hits

  -- An inspection says "matched" exactly when it has evidence; it has at most as many hits as the limit,
  -- and one where the limit is below one; and where it names a risk, since it is not enabled, knows
  -- no repository or has no words to look for, it has no evidence.
  pub inspect-IsVerdict :
      (inspector : Inspector) (service_name query_text repo_hint : String) (max_hits : ℤ)
      → IsVerdict
          (at_least_one max_hits)
          (inspect inspector service_name query_text repo_hint max_hits)
  unfolding inspect
  inspect-IsVerdict inspector service_name query_text repo_hint max_hits =
      elim (Bool-cases inspector.enabled) [
        | inl enabled ↦ rw enabled (
            inspect_given-IsVerdict inspector service_name repo_hint
              (resolve_repo inspector service_name repo_hint) (inspector.query_terms query_text)
              max_hits)
        | inr disabled ↦
            rw disabled (record { matched = refl; few = omega arith; searched = λ e. refl })
      ]
