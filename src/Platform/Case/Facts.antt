-- ===== src/Platform/Case/Facts.antt =====
-- The entities of a case as facts: what the map that `entity_map` builds says of a key.
use ai_troubleshooter.Prelude.{
  String, Bool, true, false, not, any, ◌||◌, ◌&&◌, Option, none, some, [], ◌∷◌, ◌++◌, inl, inr,
  Bool-cases, eq_iff, if◌then◌else◌, strip, ◌==◌, ◌≡◌, refl, sym, ap, ◌∙◌,
}
use ai_troubleshooter.Decision.Models.{Entities, has_key}
use ai_troubleshooter.Platform.Case.{entity_map_from}

-- the value of a key in a dictionary
abbrev pub value_of : Entities → String → Option String
value_of [] key = none
value_of ((k, v) ∷ rest) key = if k == key then some v else value_of rest key

-- a row that counts for a key
abbrev pub is_fact : String → String × String → Bool
is_fact key (k, v) = k == key && not (k == "") && not (v == "")

-- the value of the first row of a key that is not blank
abbrev pub first_fact : Entities → String → Option String
first_fact [] key = none
first_fact (row ∷ rest) key = if is_fact key row then some row.1 else first_fact rest key

abbrev pub stripped : String × String → String × String
stripped (k, v) = (strip k, strip v)

-- the same for rows that are handed in, with white space taken off
abbrev pub first_given : Entities → String → Option String
first_given [] key = none
first_given (row ∷ rest) key =
    if is_fact key (stripped row) then some (strip row.1) else first_given rest key

abbrev pub or_else_fact : Option String → Option String → Option String
or_else_fact none b = b
or_else_fact (some a) b = some a

pub or_else_fact_assoc :
    (a b c : Option String) → or_else_fact (or_else_fact a b) c ≡ or_else_fact a (or_else_fact b c)
or_else_fact_assoc none b c = refl
or_else_fact_assoc (some a) b c = refl

value_of-snoc :
    (out : Entities) (k v key : String)
    → value_of (out ++ (k, v) ∷ []) key
      ≡ or_else_fact (value_of out key) (if k == key then some v else none)
value_of-snoc [] k v key = refl
value_of-snoc ((a, b) ∷ rest) k v key = elim (Bool-cases (a == key)) [
  | inl e ↦ rw e refl
  | inr n ↦ rw n (value_of-snoc rest k v key)
]

pub first_fact-snoc :
    (rows : Entities) (row : String × String) (key : String)
    → first_fact (rows ++ row ∷ []) key
      ≡ or_else_fact (first_fact rows key) (if is_fact key row then some row.1 else none)
first_fact-snoc [] row key = refl
first_fact-snoc (a ∷ rest) row key = elim (Bool-cases (is_fact key a)) [
  | inl e ↦ rw e refl
  | inr n ↦ rw n (first_fact-snoc rest row key)
]

-- A key that is there hides what comes behind.
has_key-value_of :
    (out : Entities) (key : String) (b : Option String)
    → has_key out key ≡ true
    → or_else_fact (value_of out key) b ≡ value_of out key
unfolding has_key
has_key-value_of [] key b h = cc h
has_key-value_of ((k, v) ∷ rest) key b h = elim (Bool-cases (k == key)) [
  | inl e ↦ rw e refl
  | inr n ↦ rw n (has_key-value_of rest key b (rw n at h))
]

pub row-IsFact :
    (k v key value : String)
    → (not (key == "") && not (value == "")) ≡ true
    → (k == key && v == value) ≡ true
    → is_fact key (k, v) ≡ true
row-IsFact k v key value given h = elim (Bool-cases (k == key)) [
  | inl e ↦ elim (Bool-cases (v == value)) [
    | inl f ↦ rw (e, (eq_iff k key).0 e, (eq_iff v value).0 f) given
    | inr n ↦ cc (rw (e, n) at h)
  ]
  | inr n ↦ cc (rw n at h)
]

pub or_else_fact-none : (a : Option String) → or_else_fact a none ≡ a
or_else_fact-none none = refl
or_else_fact-none (some a) = refl

pub or_else_fact_if :
    (b : Bool) (v : String) (c : Option String)
    → or_else_fact (if b then some v else none) c ≡ (if b then some v else c)
or_else_fact_if true v c = refl
or_else_fact_if false v c = refl

-- One turn of the loop of `entity_map`.
entity_map-turn :
    (out : Entities) (k v key : String)
    → value_of
        (if not (k == "") && not (v == "") && not (has_key out k) then out ++ (k, v) ∷ [] else out)
        key
      ≡ or_else_fact (value_of out key) (if is_fact key (k, v) then some v else none)
entity_map-turn out k v key = elim (Bool-cases (k == "")) [
  | inl blank ↦ elim (Bool-cases (k == key)) [
    | inl e ↦ rw (blank, e) (sym (or_else_fact-none (value_of out key)))
    | inr n ↦ rw (blank, n) (sym (or_else_fact-none (value_of out key)))
  ]
  | inr full ↦ rw full (elim (Bool-cases (v == "")) [
    | inl blank ↦ elim (Bool-cases (k == key)) [
      | inl e ↦ rw (blank, e) (sym (or_else_fact-none (value_of out key)))
      | inr n ↦ rw (blank, n) (sym (or_else_fact-none (value_of out key)))
    ]
    | inr given ↦ rw given (elim (Bool-cases (has_key out k)) [
      | inl known ↦ rw known (elim (Bool-cases (k == key)) [
        | inl e ↦ rw e (
            sym (
              has_key-value_of out key (some v)
                (ap (has_key out) (sym ((eq_iff k key).0 e)) ∙ known)))
        | inr n ↦ rw n (sym (or_else_fact-none (value_of out key)))
      ])
      | inr new ↦ rw new (elim (Bool-cases (k == key)) [
        | inl e ↦ value_of-snoc out k v key ∙ rw e refl
        | inr n ↦ value_of-snoc out k v key ∙ rw n refl
      ])
    ])
  ])
]

pub entity_map_from_facts :
    (rows out : Entities) (key : String)
    → value_of (entity_map_from out rows) key
      ≡ or_else_fact (value_of out key) (first_fact rows key)
unfolding entity_map_from
entity_map_from_facts [] out key = sym (or_else_fact-none (value_of out key))
entity_map_from_facts ((k, v) ∷ rest) out key =
    entity_map_from_facts rest _ key
    ∙ ap (λ a. or_else_fact a (first_fact rest key)) (entity_map-turn out k v key)
    ∙ or_else_fact_assoc (value_of out key) _ _
    ∙ ap (or_else_fact (value_of out key)) (or_else_fact_if (is_fact key (k, v)) v _)

pub any-snoc :
    (p : String × String → Bool) (rows : Entities) (row : String × String)
    → any p (rows ++ row ∷ []) ≡ any p rows || p row
any-snoc p [] row = elim (Bool-cases (p row)) [ inl e ↦ rw e refl | inr n ↦ rw n refl ]
any-snoc p (a ∷ rest) row = elim (Bool-cases (p a)) [
  | inl e ↦ rw e refl
  | inr n ↦ rw n (any-snoc p rest row)
]
