-- ===== src/Platform/Capabilities/Verdict.antt =====
-- What the importer's judgement of a capability says.
use ai_troubleshooter.Prelude.{
  String, Bool, true, false, not, ◌||◌, Option, none, some, List, [], ◌∷◌, arith, any, mem,
  contains, inl, inr, Bool-cases, ◌==◌, ◌≡◌, refl, eq_iff, eq_refl, sym, ◌∙◌, ap, subst, or_else,
}
use ai_troubleshooter.Python.{Runtime, Fields}
use ai_troubleshooter.Platform.Capabilities.{
  WordOrder, danger_words, has_word, first_word, Assessment, read_assessment, danger_assessment,
  signal_of, assess_safety, CapabilityVerdict, verdict_of, under_readonly, normalize_tool_name,
  normalize_path, import_item,
}
use ai_troubleshooter.Platform.Brief.{field_text}

-- An order of the dangerous words has those words and no others.
abbrev pub SameWords : List String → List String → Type 0
SameWords xs ys = (word : String) → mem word xs ≡ mem word ys

is_some : Option String → Bool
is_some none = false
is_some (some word) = true

module _ (p : String → Bool) where
  mem-any :
      (word : String) (ys : List String) → mem word ys ≡ true → p word ≡ true → any p ys ≡ true
  mem-any word [] h k = cc
  mem-any word (y ∷ ys) h k = elim (Bool-cases (y == word)) [
    | inl same ↦ rw ((eq_iff y word).0 same, k)
    | inr other ↦ ground (arith, mem-any word ys (rw other at h) k)
  ]

  any-subset :
      (xs ys : List String)
      → ((word : String) → mem word xs ≡ true → mem word ys ≡ true)
      → any p xs ≡ true
      → any p ys ≡ true
  any-subset [] ys sub h = cc
  any-subset (x ∷ xs) ys sub h = elim (Bool-cases (p x)) [
    | inl holds ↦ mem-any x ys (sub x (ground (arith, eq_refl x))) holds
    | inr fails ↦ any-subset xs ys (λ word k. sub word (ground (arith, k))) (rw fails at h)
  ]

  any-same : (xs ys : List String) → SameWords xs ys → any p xs ≡ any p ys
  any-same xs ys same = elim (Bool-cases (any p xs)) [
    | inl some_x ↦ some_x ∙ sym (any-subset xs ys (λ word h. sym (same word) ∙ h) some_x)
    | inr no_x ↦ elim (Bool-cases (any p ys)) [
      | inr no_y ↦ no_x ∙ sym no_y
      | inl some_y ↦ any-subset ys xs (λ word h. same word ∙ h) some_y ∙ sym some_y
    ]
  ]

  first_word-any : (xs : List String) → is_some (first_word p xs) ≡ any p xs
  unfolding first_word is_some
  first_word-any [] = refl
  first_word-any (x ∷ xs) = elim (Bool-cases (p x)) [
    | inl holds ↦ rw holds refl
    | inr fails ↦ rw fails (first_word-any xs)
  ]

read-open : (o : Option String) → ((read_assessment o).safety_status == "rejected") ≡ false
read-open none = refl
read-open (some word) = refl

danger-rejected :
    (o : Option String) (other : Assessment)
    → (other.safety_status == "rejected") ≡ false
    → ((danger_assessment o other).safety_status == "rejected") ≡ is_some o
unfolding is_some
danger-rejected none other h = h
danger-rejected (some word) other h = refl

draft-open :
    (name method path : String) (assessed : Assessment)
    → (verdict_of name method path assessed).tool_status ≡ "draft"
    → (assessed.safety_status == "rejected") ≡ false
draft-open name method path assessed draft =
    elim (Bool-cases (assessed.safety_status == "rejected")) [
      | inl rejected ↦ cc (ap (λ s. s == "draft") (rw rejected at draft))
      | inr opened ↦ opened
    ]

readonly-open :
    (path : String) (assessed : Assessment)
    → ((under_readonly path assessed).safety_status == "rejected") ≡ false
    → (contains "/readonly/" path ≡ true) × ((assessed.safety_status == "rejected") ≡ false)
readonly-open path assessed opened = elim (Bool-cases (contains "/readonly/" path)) [
  | inl under ↦ (under, rw under at opened)
  | inr outside ↦ cc (rw outside at opened)
]

some-injective : {v w : CapabilityVerdict} → some v ≡ some w → v ≡ w
some-injective e = cc

both_tests : (a b : Bool) → (not a || b) ≡ false → (a ≡ true) × (b ≡ false)
both_tests a b h = (ground arith, ground arith)

module _ ⦃py : Runtime⦄ where
  -- In whatever order the dangerous words are run through: a capability is rejected exactly when its
  -- method is neither GET nor POST or some dangerous word stands, as a word of its own, in its name,
  -- description, path or scope.
  pub assess_safety-rejected :
      (order : WordOrder) (tool_name description method path scope : String)
      → SameWords order.danger danger_words
      → ((assess_safety order tool_name description method path scope).safety_status == "rejected")
        ≡ (not (mem method ("GET" ∷ "POST" ∷ []))
            || any (has_word (signal_of tool_name description path scope)) danger_words)
  unfolding assess_safety
  assess_safety-rejected order tool_name description method path scope same =
      let p = has_word (signal_of tool_name description path scope) in
      elim (Bool-cases (mem method ("GET" ∷ "POST" ∷ []))) [
        | inr bad ↦ rw bad refl
        | inl good ↦ rw good (
            danger-rejected _ _ (read-open _)
            ∙ first_word-any p order.danger
            ∙ any-same p order.danger danger_words same)
      ]

  -- What a draft that was made of an item of the manifest can be.
  pub record IsDraft (raw_item : Fields) (v : CapabilityVerdict) : Type 0 where
    pub readonly : contains "/readonly/" v.path ≡ true
    pub method : mem v.method ("GET" ∷ "POST" ∷ []) ≡ true
    pub harmless :
        any
          (has_word (
            signal_of v.tool_name
              (field_text raw_item "description")
              v.path
              (field_text raw_item "scope")))
          danger_words
        ≡ false
    pub waiting : v.approval_status ≡ "pending"

  -- An imported item becomes a draft only with a path under /readonly/, the method GET or POST, and no
  -- dangerous word in its name, description, path or scope; and then it waits for approval.
  pub import_item-IsDraft :
      (order : WordOrder) (raw_item : Fields) (v : CapabilityVerdict)
      → SameWords order.danger danger_words
      → import_item order raw_item ≡ some v
      → v.tool_status ≡ "draft"
      → IsDraft raw_item v
  unfolding import_item
  import_item-IsDraft order raw_item v same made draft =
      let name = normalize_tool_name (field_text raw_item "tool_name") in
      let method = py.upper (or_else (field_text raw_item "method") "POST") in
      let path = normalize_path (field_text raw_item "path") in
      let description = field_text raw_item "description" in
      let scope = field_text raw_item "scope" in
      let assessed = assess_safety order name description method path scope in
      elim (Bool-cases (name == "")) [
        | inl nameless ↦ cc (rw nameless at made)
        | inr named ↦
            let e = some-injective (rw named at made) in
            let opened =
              draft-open name method path (under_readonly path assessed)
                (ap (λ w. w.tool_status) e ∙ draft) in
            let under = readonly-open path assessed opened in
            let tests =
              both_tests (mem method ("GET" ∷ "POST" ∷ []))
                (any (has_word (signal_of name description path scope)) danger_words)
                (sym (assess_safety-rejected order name description method path scope same)
                  ∙ under.1) in
            subst (IsDraft raw_item) e (record {
              readonly = under.0;
              method = tests.0;
              harmless = tests.1;
              waiting = rw opened refl;
            })
      ]
