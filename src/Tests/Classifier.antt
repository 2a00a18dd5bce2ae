-- ===== src/Tests/Classifier.antt =====
-- A case that the rules know, and a language model that disagrees.
use ai_troubleshooter.Prelude.{true, mem, ◌≡◌, refl}
use ai_troubleshooter.Python.{Fields, str, field, end}
use ai_troubleshooter.Platform.Classifier.{taxonomy, has_rule_taxonomy, merge_taxonomy}
use ai_troubleshooter.Platform.Classifier.Merge.{merge_taxonomy-kept}
use ai_troubleshooter.Tests.{ascii}

abbrev llm_says : Fields
llm_says = field "issue_domain" (str "Market") (field "issue_type" (str "other") end)

rules_know : has_rule_taxonomy "asset" "asset_balance_abnormal" ≡ true
unfolding has_rule_taxonomy
rules_know = refl

merge_taxonomy-kept_example :
    ((merge_taxonomy ⦃py = ascii⦄ "asset" "asset_balance_abnormal" llm_says).1
      ≡ "asset_balance_abnormal")
    × (mem (merge_taxonomy ⦃py = ascii⦄ "asset" "asset_balance_abnormal" llm_says).0 taxonomy
        ≡ true)
merge_taxonomy-kept_example =
    merge_taxonomy-kept ⦃py = ascii⦄ "asset" "asset_balance_abnormal" llm_says rules_know
