-- ===== src/Platform/Case/Rows.antt =====
-- The entities of a case: what `entity_map` reads back after `add_entities`.
use ai_troubleshooter.Prelude.{
  String, Bool, true, false, not, any, ◌||◌, ◌&&◌, Option, none, some, [], ◌∷◌, ◌++◌, inl, inr,
  Bool-cases, eq_iff, if◌then◌else◌, strip, ◌==◌, ◌≡◌, refl, sym, ap, ◌∙◌,
}
use ai_troubleshooter.Decision.Models.{Entities}
use ai_troubleshooter.Platform.Case.{add_entities, entity_map, has_entity}
use ai_troubleshooter.Platform.Case.Facts.{
  row-IsFact, value_of, is_fact, first_fact, first_given, or_else_fact, or_else_fact_assoc,
  first_fact-snoc, or_else_fact-none, or_else_fact_if, entity_map_from_facts, any-snoc,
}

-- the comparison of two texts in Python
abbrev exactly : String → String → Bool
exactly a b = a == b

has_entity-first_fact :
    (key value : String) (rows : Entities) (b : Option String)
    → (not (key == "") && not (value == "")) ≡ true
    → has_entity exactly key value rows ≡ true
    → or_else_fact (first_fact rows key) b ≡ first_fact rows key
has_entity-first_fact key value [] b given h = cc h
has_entity-first_fact key value ((k, v) ∷ rest) b given h =
    elim (Bool-cases (k == key && v == value)) [
      | inl same ↦ rw (row-IsFact k v key value given same) refl
      | inr other ↦ elim (Bool-cases (is_fact key (k, v))) [
        | inl e ↦ rw e refl
        | inr n ↦ rw n (has_entity-first_fact key value rest b given (rw other at h))
      ]
    ]

-- a row that the database takes for another one although their texts differ
abbrev pub is_confused : (String → String → Bool) → String → String → String × String → Bool
is_confused same key value (k, v) = same k key && same v value && not (k == key && v == value)

-- The database tells every row that is handed in from the rows before it that have other texts.
abbrev pub are_told_apart : (String → String → Bool) → Entities → Entities → Bool
are_told_apart same before [] = true
are_told_apart same before ((k, v) ∷ rest) =
    not (any (is_confused same (strip k) (strip v)) before)
    && are_told_apart same (before ++ (strip k, strip v) ∷ []) rest

exact_entity :
    (same : String → String → Bool) (key value : String) (rows : Entities)
    → any (is_confused same key value) rows ≡ false
    → has_entity same key value rows ≡ true
    → has_entity exactly key value rows ≡ true
exact_entity same key value [] clear h = h
exact_entity same key value ((k, v) ∷ rest) clear h = elim (Bool-cases (k == key && v == value)) [
  | inl e ↦ rw e refl
  | inr n ↦ elim (Bool-cases (same k key && same v value)) [
    | inl found ↦ cc (rw (n, found) at clear)
    | inr other ↦ rw n (exact_entity same key value rest (rw (n, other) at clear) (rw other at h))
  ]
]

-- One turn of the loop of `add_entities`.
add_entities-turn :
    (same : String → String → Bool) (stored : Entities) (k v key : String)
    → any (is_confused same k v) stored ≡ false
    → first_fact
        (if k == "" || v == "" || has_entity same k v stored then stored else stored ++ (k, v) ∷ [])
        key
      ≡ or_else_fact (first_fact stored key) (if is_fact key (k, v) then some v else none)
add_entities-turn same stored k v key clear = elim (Bool-cases (k == "")) [
  | inl blank ↦ elim (Bool-cases (k == key)) [
    | inl e ↦ rw (blank, e) (sym (or_else_fact-none (first_fact stored key)))
    | inr n ↦ rw (blank, n) (sym (or_else_fact-none (first_fact stored key)))
  ]
  | inr full ↦ rw full (elim (Bool-cases (v == "")) [
    | inl blank ↦ elim (Bool-cases (k == key)) [
      | inl e ↦ rw (blank, e) (sym (or_else_fact-none (first_fact stored key)))
      | inr n ↦ rw (blank, n) (sym (or_else_fact-none (first_fact stored key)))
    ]
    | inr given ↦ rw given (elim (Bool-cases (has_entity same k v stored)) [
      | inl known ↦ rw known (elim (Bool-cases (k == key)) [
        | inl e ↦ rw e (
            sym (
              has_entity-first_fact key v stored (some v)
                (rw (← (eq_iff k key).0 e, full, given) refl)
                (ap (λ a. has_entity exactly a v stored) (sym ((eq_iff k key).0 e))
                  ∙ exact_entity same k v stored clear known)))
        | inr n ↦ rw n (sym (or_else_fact-none (first_fact stored key)))
      ])
      | inr new ↦ rw new (first_fact-snoc stored (k, v) key ∙ rw (full, given) refl)
    ])
  ])
]

-- The rows that are stored are among those that came before.
abbrev AreAmong : Entities → Entities → Type 0
AreAmong stored before = (p : String × String → Bool) → any p before ≡ false → any p stored ≡ false

any-snoc_none :
    (p : String × String → Bool) (rows : Entities) (row : String × String)
    → any p (rows ++ row ∷ []) ≡ false
    → (any p rows ≡ false) × (p row ≡ false)
any-snoc_none p rows row h =
    let either : any p rows || p row ≡ false = sym (any-snoc p rows row) ∙ h in
    elim (Bool-cases (any p rows)) [ inl e ↦ cc (rw e at either) | inr n ↦ (n, rw n at either) ]

next-AreAmong :
    (b : Bool) (stored before : Entities) (row : String × String)
    → AreAmong stored before
    → AreAmong (if b then stored else stored ++ row ∷ []) (before ++ row ∷ [])
next-AreAmong true stored before row among p h = among p (any-snoc_none p before row h).0
next-AreAmong false stored before row among p h =
    let parts = any-snoc_none p before row h in
    any-snoc p stored row ∙ rw (among p parts.0, parts.1) refl

told_apart-head :
    (same : String → String → Bool) (k v : String) (before rest : Entities)
    → are_told_apart same before ((k, v) ∷ rest) ≡ true
    → (any (is_confused same (strip k) (strip v)) before ≡ false)
      × (are_told_apart same (before ++ (strip k, strip v) ∷ []) rest ≡ true)
told_apart-head same k v before rest h =
    elim (Bool-cases (any (is_confused same (strip k) (strip v)) before)) [
      | inl e ↦ cc (rw e at h)
      | inr n ↦ (n, rw n at h)
    ]

add_entities_facts :
    (same : String → String → Bool) (given stored before : Entities) (key : String)
    → AreAmong stored before
    → are_told_apart same before given ≡ true
    → first_fact (add_entities same stored given) key
      ≡ or_else_fact (first_fact stored key) (first_given given key)
unfolding add_entities
add_entities_facts same [] stored before key among apart =
    sym (or_else_fact-none (first_fact stored key))
add_entities_facts same ((k, v) ∷ rest) stored before key among apart =
    let parts = told_apart-head same k v before rest apart in
    add_entities_facts same rest _ _ key
      (next-AreAmong (strip k == "" || strip v == "" || has_entity same (strip k) (strip v) stored)
        stored before (strip k, strip v) among)
      parts.1
    ∙ ap (λ a. or_else_fact a (first_given rest key))
        (add_entities-turn same stored (strip k) (strip v) key (among _ parts.0))
    ∙ or_else_fact_assoc (first_fact stored key) _ _
    ∙ ap (or_else_fact (first_fact stored key))
        (or_else_fact_if (is_fact key (strip k, strip v)) (strip v) _)

-- When the database tells the rows that are handed in from those with other texts, what the map of a
-- case says of a key after entities are added is what it said before, or else the first of the
-- added values of that key, with white space taken off, that is not blank.
pub entity_map-add_entities :
    (same : String → String → Bool) (stored given : Entities) (key : String)
    → are_told_apart same stored given ≡ true
    → value_of (entity_map (add_entities same stored given)) key
      ≡ or_else_fact (value_of (entity_map stored) key) (first_given given key)
unfolding entity_map
entity_map-add_entities same stored given key apart =
    entity_map_from_facts (add_entities same stored given) [] key
    ∙ add_entities_facts same given stored stored key (λ p h. h) apart
    ∙ ap (λ a. or_else_fact a (first_given given key)) (sym (entity_map_from_facts stored [] key))
