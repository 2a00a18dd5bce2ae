-- ===== src/Platform/Classifier/Merge.antt =====
-- The taxonomy of the rules against the words of a language model.
use ai_troubleshooter.Prelude.{
  String, true, false, List, [], ◌∷◌, arith, mem, All, inl, inr, Bool-cases, ◌==◌, ◌≡◌, refl,
  eq_iff, strip,
}
use ai_troubleshooter.Python.{Runtime, Value, Fields, get, null, bool, int, float, str, list, dict}
use ai_troubleshooter.Platform.Classifier.{
  taxonomy, domain_aliases, alias_of, has_rule_taxonomy, merge_issue_type, normalize_issue_domain,
  merge_issue_domain, merge_taxonomy, join_words,
}

IsKnown : String × String → Type 0
IsKnown (k, v) = mem v taxonomy ≡ true

alias_of-known :
    (table : List (String × String)) (name : String)
    → All IsKnown table
    → (alias_of table name == "") ≡ false
    → mem (alias_of table name) taxonomy ≡ true
unfolding alias_of IsKnown
alias_of-known [] name h given = cc
alias_of-known ((k, v) ∷ rest) name (h, hs) given = elim (Bool-cases (k == name)) [
  | inl found ↦ rw found h
  | inr other ↦ rw other (alias_of-known rest name hs (rw other at given))
]

aliases-IsKnown : All IsKnown domain_aliases
unfolding IsKnown
aliases-IsKnown = (refl, (refl, (refl, (refl, (refl, (refl, (refl, (refl, (refl, (refl, tt))))))))))

kept_type :
    (issue_domain issue_type : String) (v : Value)
    → has_rule_taxonomy issue_domain issue_type ≡ true
    → merge_issue_type issue_domain issue_type v ≡ issue_type
unfolding merge_issue_type
kept_type issue_domain issue_type (str s) h = rw h (ground arith)
kept_type issue_domain issue_type null h = refl
kept_type issue_domain issue_type (bool b) h = refl
kept_type issue_domain issue_type (int n) h = refl
kept_type issue_domain issue_type (float f) h = refl
kept_type issue_domain issue_type (list xs) h = refl
kept_type issue_domain issue_type (dict fields) h = refl

module _ ⦃py : Runtime⦄ where
  normalized_known :
      (value : String)
      → (normalize_issue_domain value == "") ≡ false
      → mem (normalize_issue_domain value) taxonomy ≡ true
  unfolding normalize_issue_domain
  normalized_known value given =
      alias_of-known domain_aliases (join_words (py.lower (strip value))) aliases-IsKnown given

  known_domain :
      (issue_domain : String) (v : Value)
      → mem issue_domain taxonomy ≡ true
      → mem (merge_issue_domain issue_domain v) taxonomy ≡ true
  unfolding merge_issue_domain
  known_domain issue_domain (str s) h = elim (Bool-cases (s == "")) [
    | inl silent ↦ rw silent h
    | inr says ↦ elim (Bool-cases (normalize_issue_domain s == "")) [
      | inr given ↦ rw (says, given) (normalized_known s given)
      | inl unknown ↦ elim (Bool-cases (issue_domain == "")) [
        | inl empty ↦ cc (rw ((eq_iff issue_domain "").0 empty) at h)
        | inr kept ↦ rw (says, unknown, kept) h
      ]
    ]
  ]
  known_domain issue_domain null h = h
  known_domain issue_domain (bool b) h = h
  known_domain issue_domain (int n) h = h
  known_domain issue_domain (float f) h = h
  known_domain issue_domain (list xs) h = h
  known_domain issue_domain (dict fields) h = h

  -- If the rules found one of the three domains and an issue type, then whatever a language model
  -- says, the case keeps that issue type and stays in one of the three domains.
  pub merge_taxonomy-kept :
      (issue_domain issue_type : String) (llm_payload : Fields)
      → has_rule_taxonomy issue_domain issue_type ≡ true
      → ((merge_taxonomy issue_domain issue_type llm_payload).1 ≡ issue_type)
        × (mem (merge_taxonomy issue_domain issue_type llm_payload).0 taxonomy ≡ true)
  unfolding merge_taxonomy has_rule_taxonomy
  merge_taxonomy-kept issue_domain issue_type llm_payload h =
      let known = known_domain issue_domain (get llm_payload "issue_domain") (ground arith) in
      (
        kept_type (merge_issue_domain issue_domain (get llm_payload "issue_domain")) issue_type
            (get llm_payload "issue_type") (ground (arith, known)),
        known,
      )
