-- ===== src/Platform/Case/Kept.antt =====
-- The entities of a case under any comparison of the database: what `add_entities` keeps and adds.
use ai_troubleshooter.Prelude.{
  String, Bool, true, false, not, any, ◌||◌, ◌&&◌, some, [], ◌∷◌, ◌++◌, inl, inr, Bool-cases,
  if◌then◌else◌, strip, ◌==◌, ◌≡◌, refl, sym, ◌∙◌,
}
use ai_troubleshooter.Decision.Models.{Entities}
use ai_troubleshooter.Platform.Case.{add_entities, entity_map, has_entity}
use ai_troubleshooter.Platform.Case.Facts.{
  value_of, first_fact, first_fact-snoc, entity_map_from_facts, any-snoc,
}

any-grown :
    (p : String × String → Bool) (rows : Entities) (row : String × String)
    → any p rows ≡ true
    → any p (rows ++ row ∷ []) ≡ true
any-grown p rows row h = any-snoc p rows row ∙ rw h refl

kept_next :
    (b : Bool) (stored : Entities) (row : String × String) (key value : String)
    → first_fact stored key ≡ some value
    → first_fact (if b then stored else stored ++ row ∷ []) key ≡ some value
kept_next true stored row key value h = h
kept_next false stored row key value h = first_fact-snoc stored row key ∙ rw h refl

kept_fact :
    (same : String → String → Bool) (given stored : Entities) (key value : String)
    → first_fact stored key ≡ some value
    → first_fact (add_entities same stored given) key ≡ some value
unfolding add_entities
kept_fact same [] stored key value h = h
kept_fact same ((k, v) ∷ rest) stored key value h = kept_fact same rest _ key value (
    kept_next (strip k == "" || strip v == "" || has_entity same (strip k) (strip v) stored) stored
      (strip k, strip v) key value h)

-- Whatever texts the database takes for the same, a value that the map of a case has for a key is not
-- replaced when entities are added.
pub add_entities-keeps :
    (same : String → String → Bool) (stored given : Entities) (key value : String)
    → value_of (entity_map stored) key ≡ some value
    → value_of (entity_map (add_entities same stored given)) key ≡ some value
unfolding entity_map
add_entities-keeps same stored given key value h =
    entity_map_from_facts (add_entities same stored given) [] key
    ∙ kept_fact same given stored key value (sym (entity_map_from_facts stored [] key) ∙ h)

found_next :
    (p : String × String → Bool) (b : Bool) (stored : Entities) (row : String × String)
    → any p stored ≡ true
    → any p (if b then stored else stored ++ row ∷ []) ≡ true
found_next p true stored row h = h
found_next p false stored row h = any-grown p stored row h

still_found :
    (same : String → String → Bool) (p : String × String → Bool) (given stored : Entities)
    → any p stored ≡ true
    → any p (add_entities same stored given) ≡ true
unfolding add_entities
still_found same p [] stored h = h
still_found same p ((k, v) ∷ rest) stored h = still_found same p rest _ (
    found_next p (strip k == "" || strip v == "" || has_entity same (strip k) (strip v) stored)
      stored (strip k, strip v) h)

found_after_turn :
    (same : String → String → Bool) (stored : Entities) (k v : String)
    → ((a : String) → same a a ≡ true)
    → (not (k == "") && not (v == "")) ≡ true
    → has_entity same k v
        (if k == "" || v == "" || has_entity same k v stored then stored else stored ++ (k, v) ∷ [])
      ≡ true
found_after_turn same stored k v reflexive full = elim (Bool-cases (k == "")) [
  | inl e ↦ cc (rw e at full)
  | inr n ↦ elim (Bool-cases (v == "")) [
    | inl e ↦ cc (rw (n, e) at full)
    | inr m ↦ elim (Bool-cases (has_entity same k v stored)) [
      | inl known ↦ rw (n, m, known) known
      | inr new ↦
          rw (n, m, new)
            (any-snoc (λ (a, b). same a k && same b v) stored (k, v)
              ∙ rw (new, reflexive k, reflexive v) refl)
    ]
  ]
]

-- Every row that is handed in and is not blank is there afterwards, as a row that the database takes
-- for the same, provided the database takes a text for itself.
pub has_entity-add_entities :
    (same : String → String → Bool) (before after : Entities) (k v : String) (stored : Entities)
    → ((a : String) → same a a ≡ true)
    → (not (strip k == "") && not (strip v == "")) ≡ true
    → has_entity same (strip k) (strip v) (add_entities same stored (before ++ (k, v) ∷ after))
      ≡ true
unfolding add_entities
has_entity-add_entities same [] after k v stored reflexive full =
    still_found same (λ (a, b). same a (strip k) && same b (strip v)) after _
      (found_after_turn same stored (strip k) (strip v) reflexive full)
has_entity-add_entities same (row ∷ before) after k v stored reflexive full =
    has_entity-add_entities same before after k v _ reflexive full
