-- ===== src/Tests/Inspector.antt =====
-- A file with a password in it, and what the inspector of local code shows of it.
use ai_troubleshooter.Prelude.{
  ℕ, ◌+◌, ◌-◌, ◌≤◌, String, true, false, not, ◌&&◌, ◌⊎◌, List, [], ◌∷◌, any, length, leb, is_space,
  ◌≡◌, refl,
}
use ai_troubleshooter.Python.{pos, double}
use ai_troubleshooter.Decision.Inspector.Words.{CodeSymbol, CallEdge, ScannedFile}
use ai_troubleshooter.Decision.Inspector.Lines.{has_line, merge_line_numbers, splitlines}
use ai_troubleshooter.Decision.Inspector.Lines.Merged.{IsMerged, merge_line_numbers-IsMerged}
use ai_troubleshooter.Decision.Inspector.Excerpt.{
  code_excerpt, is_secret_line, assigns_word, is_assigned,
}
use ai_troubleshooter.Decision.Inspector.Excerpt.Masked.{IsExcerpt, code_excerpt-IsExcerpt}
use ai_troubleshooter.Decision.Inspector.Resolve.{resolve_edge}
use ai_troubleshooter.Decision.Inspector.Resolve.Ranked.{IsResolved, resolve_edge-IsResolved}
use ai_troubleshooter.Decision.Inspector.Build.{at_least_one, build_hits}
use ai_troubleshooter.Decision.Inspector.Build.Report.{AreHits, build_hits-AreHits}
use ai_troubleshooter.Decision.Inspector.Inspect.{Inspector, read, denied, inspect}
use ai_troubleshooter.Decision.Inspector.Inspect.Verdict.{IsVerdict, inspect-IsVerdict}
use ai_troubleshooter.Tests.{ascii}

assigned_is_secret : is_secret_line "  DB_Password = \"x\"" ≡ true
unfolding is_secret_line assigns_word is_assigned is_space
assigned_is_secret = refl

named_is_open : is_secret_line "check(password)" ≡ false
unfolding is_secret_line assigns_word is_assigned is_space
named_is_open = refl

three_lines : splitlines "a\nb\r\nc\n" ≡ "a" ∷ "b" ∷ "c" ∷ []
unfolding splitlines
three_lines = refl

abbrev code : String
code = "def charge(user):\n    password = \"x\"\n    return pay(user)\n"

abbrev charge : CodeSymbol
charge = record {
  name = "charge";
  kind = "function";
  file_path = "app/charge.py";
  line_number = 1;
  language = "python";
  owner = "";
}

abbrev pay : CallEdge
pay = record {
  caller = "charge";
  callee = "charge";
  file_path = "app/charge.py";
  line_number = 3;
  language = "python";
  receiver = "";
  receiver_type = "";
  resolved_symbols = [];
  resolution_kind = "";
  confidence = double 0 0;
}

abbrev file : ScannedFile
file = record {
  relative_path = "app/charge.py";
  content = code;
  language = "python";
  symbols = charge ∷ [];
  call_edges = pay ∷ [];
  implement_relations = [];
}

abbrev inspector : Inspector
inspector = record {
  repos =
      (
        "billing",
        record {
          service_name = "billing";
          exists = true;
          analysis_backend = "auto";
          has_lsif = false;
          has_lsp = false;
          found = read file ∷ denied ∷ [];
        },
      )
      ∷ [];
  enabled = true;
  include_snippets = true;
  query_terms = λ text. text ∷ [];
}

merge_line_numbers-IsMerged_example :
    IsMerged (merge_line_numbers ((3 ∷ 0 ∷ []) ∷ (1 ∷ 3 ∷ []) ∷ []))
    × (has_line 1 (merge_line_numbers ((3 ∷ 0 ∷ []) ∷ (1 ∷ 3 ∷ []) ∷ []))
        ≡ (not (leb 1 0) && any (has_line 1) ((3 ∷ 0 ∷ []) ∷ (1 ∷ 3 ∷ []) ∷ [])))
merge_line_numbers-IsMerged_example =
    merge_line_numbers-IsMerged ((3 ∷ 0 ∷ []) ∷ (1 ∷ 3 ∷ []) ∷ []) 1

abbrev third : List ℕ
third = 3 ∷ []

code_excerpt-IsExcerpt_example :
    IsExcerpt 1 (code_excerpt code (1, 3)) × (length (code_excerpt code (1, 3)) ≤ 3 + 1 - 1)
code_excerpt-IsExcerpt_example = code_excerpt-IsExcerpt code 1 3

resolve_edge-IsResolved_example :
    (resolve_edge ⦃py = ascii⦄ (file ∷ []) pay ≡ pay)
    ⊎ IsResolved (file ∷ []) (resolve_edge ⦃py = ascii⦄ (file ∷ []) pay).resolved_symbols
resolve_edge-IsResolved_example = resolve_edge-IsResolved ⦃py = ascii⦄ (file ∷ []) pay

build_hits-AreHits_example :
    AreHits (build_hits ⦃py = ascii⦄ true (file ∷ []) ("charge" ∷ []) (pos 8))
    × (length (build_hits ⦃py = ascii⦄ true (file ∷ []) ("charge" ∷ []) (pos 8))
        ≤ at_least_one (pos 8))
build_hits-AreHits_example =
    build_hits-AreHits ⦃py = ascii⦄ true (file ∷ []) ("charge" ∷ []) (pos 8)

inspect-IsVerdict_example :
    IsVerdict (at_least_one (pos 8)) (inspect ⦃py = ascii⦄ inspector "billing" "charge" "" (pos 8))
inspect-IsVerdict_example = inspect-IsVerdict ⦃py = ascii⦄ inspector "billing" "charge" "" (pos 8)
