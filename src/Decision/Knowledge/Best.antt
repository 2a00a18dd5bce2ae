-- ===== src/Decision/Knowledge/Best.antt =====
-- The candidate that `best_knowledge` answers with is the greatest, and meets the gate.
use ai_troubleshooter.Prelude.{
  Bool, true, false, not, ◌&&◌, some, List, [], ◌∷◌, arith, All, ◌≡◌, refl, sym, ◌∙◌, subst, ◌⊎◌,
  inl, inr, Bool-cases,
}
use mathlib.Core.List.{Mem, mem-cons_self, mem-cons_of_mem}
use ai_troubleshooter.Python.{Runtime, ℤ, pos, lt_ℤ, Float, finite, is_nan, lt_float, ge_float}
use ai_troubleshooter.Decision.Models.{DecisionRequest, KnowledgeCandidate, confidence_88}
use ai_troubleshooter.Decision.Intake.{request_requires_realtime}
use ai_troubleshooter.Decision.Knowledge.{
  same_float, lt_key, insert, sorted_reverse, is_reusable, first_reusable, best_knowledge,
}

-- Every confidence is a number.
abbrev pub IsNumber : KnowledgeCandidate → Type 0
IsNumber c = is_nan c.confidence ≡ false

lt_float-asym : (a b : Float) → lt_float a b ≡ true → lt_float b a ≡ false
lt_float-asym (finite (pos a)) (finite (pos b)) h = ground arith
lt_float-asym a b h = ground arith

same_float-eq : (a b : Float) → same_float a b ≡ true → a ≡ b
same_float-eq (finite (pos a)) (finite (pos b)) h = ground arith
same_float-eq a b h = ground arith

not_lt_float_trans :
    (a b c : Float)
    → is_nan b ≡ false
    → lt_float a b ≡ false
    → lt_float b c ≡ false
    → lt_float a c ≡ false
not_lt_float_trans a (finite (pos b)) c n h k = ground arith
not_lt_float_trans a b c n h k = ground arith

not_lt_ℤ-trans : (a b c : ℤ) → lt_ℤ a b ≡ false → lt_ℤ b c ≡ false → lt_ℤ a c ≡ false
not_lt_ℤ-trans a b c h k = ground arith

not_lt_ℤ_refl : (a : ℤ) → lt_ℤ a a ≡ false
not_lt_ℤ_refl a = ground arith

lt_ℤ-asym : (a b : ℤ) → lt_ℤ a b ≡ true → lt_ℤ b a ≡ false
lt_ℤ-asym a b h = ground arith

lt_float_trans : (a b c : Float) → lt_float a b ≡ true → lt_float b c ≡ true → lt_float a c ≡ true
lt_float_trans a (finite (pos b)) c h k = ground arith
lt_float_trans a b c h k = ground arith

lt_float-total :
    (a b : Float)
    → is_nan a ≡ false
    → is_nan b ≡ false
    → (lt_float a b ≡ true) ⊎ ((a ≡ b) ⊎ (lt_float b a ≡ true))
lt_float-total (finite (pos a)) (finite (pos b)) h k = ground arith
lt_float-total a b h k = ground arith

same_float_self : (a : Float) → is_nan a ≡ false → same_float a a ≡ true
same_float_self (finite (pos a)) h = ground arith
same_float_self a h = ground arith

same_float_of_eq : (a b : Float) → is_nan a ≡ false → a ≡ b → same_float a b ≡ true
same_float_of_eq a b h e = rw (← e) (same_float_self a h)

same_counts :
    (x y : KnowledgeCandidate)
    → IsNumber x
    → x.confidence ≡ y.confidence
    → lt_key x y ≡ false
    → lt_ℤ x.observed_case_count y.observed_case_count ≡ false
unfolding lt_key
same_counts x y n same h = rw (same_float_of_eq x.confidence y.confidence n same) at h

-- The order of the keys, for confidences that are numbers.
lt_key_cases :
    (x y : KnowledgeCandidate)
    → IsNumber x
    → IsNumber y
    → lt_key x y ≡ false
    → (lt_float y.confidence x.confidence ≡ true)
      ⊎ ((x.confidence ≡ y.confidence) × (lt_ℤ x.observed_case_count y.observed_case_count ≡ false))
unfolding lt_key
lt_key_cases x y n m h = elim (lt_float-total x.confidence y.confidence n m) [
  | inl lower ↦ ground arith
  | inr (inl same) ↦ inr (same, same_counts x y n same h)
  | inr (inr higher) ↦ inl higher
]

not_lt_key_of_lt :
    (x y : KnowledgeCandidate) → lt_float y.confidence x.confidence ≡ true → lt_key x y ≡ false
unfolding lt_key
not_lt_key_of_lt x y h = ground (arith, lt_float-asym y.confidence x.confidence h)

not_lt_key_of_eq :
    (x y : KnowledgeCandidate)
    → IsNumber x
    → x.confidence ≡ y.confidence
    → lt_ℤ x.observed_case_count y.observed_case_count ≡ false
    → lt_key x y ≡ false
unfolding lt_key
not_lt_key_of_eq x y n e h = rw (same_float_of_eq x.confidence y.confidence n e) h

not_lt_key_trans :
    (x y z : KnowledgeCandidate)
    → IsNumber x
    → IsNumber y
    → IsNumber z
    → lt_key x y ≡ false
    → lt_key y z ≡ false
    → lt_key x z ≡ false
not_lt_key_trans x y z n m l h k = elim (lt_key_cases x y n m h) [
  | inl higher ↦ elim (lt_key_cases y z m l k) [
    | inl more ↦
        not_lt_key_of_lt x z (lt_float_trans z.confidence y.confidence x.confidence more higher)
    | inr (same, _) ↦ not_lt_key_of_lt x z (rw same at higher)
  ]
  | inr (same, fewer) ↦ elim (lt_key_cases y z m l k) [
    | inl more ↦ not_lt_key_of_lt x z (rw (← same) at more)
    | inr (again, fewest) ↦ not_lt_key_of_eq x z n (same ∙ again) (
        not_lt_ℤ-trans x.observed_case_count y.observed_case_count z.observed_case_count fewer
          fewest)
  ]
]

lt_key-asym :
    (x y : KnowledgeCandidate) → IsNumber x → IsNumber y → lt_key x y ≡ true → lt_key y x ≡ false
unfolding lt_key
lt_key-asym x y n m h = elim (lt_float-total x.confidence y.confidence n m) [
  | inl lower ↦ not_lt_key_of_lt y x lower
  | inr (inl same) ↦ not_lt_key_of_eq y x m (sym same) (
      lt_ℤ-asym x.observed_case_count y.observed_case_count
        (rw (same_float_of_eq x.confidence y.confidence n same) at h))
  | inr (inr higher) ↦ cc (h, not_lt_key_of_lt x y higher)
]

lt_key_refl : (x : KnowledgeCandidate) → IsNumber x → lt_key x x ≡ false
lt_key_refl x n = not_lt_key_of_eq x x n refl (not_lt_ℤ_refl x.observed_case_count)

-- `x` is at the front of what is sorted, or the old front is
insert_cases :
    (x y : KnowledgeCandidate) (ys : List KnowledgeCandidate)
    → (lt_key x y ≡ true) × (insert x (y ∷ ys) ≡ y ∷ insert x ys)
      ⊎ ((lt_key x y ≡ false) × (insert x (y ∷ ys) ≡ x ∷ y ∷ ys))
unfolding insert
insert_cases x y ys = elim (Bool-cases (lt_key x y)) [
  | inl e ↦ inl (e, rw e)
  | inr e ↦ inr (e, rw e)
]

-- The front of the sorted list is an item, and no item is above it.
record IsFront (items : List KnowledgeCandidate) (front : KnowledgeCandidate) : Type 0 where
  member : Mem front items
  number : IsNumber front
  greatest : All (λ c. lt_key front c ≡ false) items

abbrev Front : List KnowledgeCandidate → List KnowledgeCandidate → Type 0
Front items [] = items ≡ []
Front items (front ∷ rest) = IsFront items front

All-below :
    (x y : KnowledgeCandidate) (items : List KnowledgeCandidate)
    → IsNumber x
    → IsNumber y
    → All IsNumber items
    → lt_key x y ≡ false
    → All (λ c. lt_key y c ≡ false) items
    → All (λ c. lt_key x c ≡ false) items
All-below x y [] n m l h k = tt
All-below x y (c ∷ items) n m (lc, l) h (kc, k) =
    (not_lt_key_trans x y c n m lc h kc, All-below x y items n m l h k)

insert-Front :
    (x : KnowledgeCandidate) (items sorted : List KnowledgeCandidate)
    → IsNumber x
    → All IsNumber items
    → Front items sorted
    → Front (x ∷ items) (insert x sorted)
unfolding insert
insert-Front x items [] n l h = record {
  member = mem-cons_self;
  number = n;
  greatest = (lt_key_refl x n, rw h tt);
}
insert-Front x items (y ∷ ys) n l h =
    let m = h.number in
    elim (insert_cases x y ys) [
      | inl (lower, e) ↦ rw e (record {
        member = mem-cons_of_mem x h.member;
        number = m;
        greatest = (lt_key-asym x y n m lower, h.greatest);
      })
      | inr (above, e) ↦ rw e (record {
        member = mem-cons_self;
        number = n;
        greatest = (lt_key_refl x n, All-below x y items n m l above h.greatest);
      })
    ]

sorted_reverse-Front :
    (items : List KnowledgeCandidate) → All IsNumber items → Front items (sorted_reverse items)
unfolding sorted_reverse
sorted_reverse-Front [] l = refl
sorted_reverse-Front (x ∷ items) (n, l) =
    insert-Front x items (sorted_reverse items) n l (sorted_reverse-Front items l)

four_tests :
    (a b c d : Bool)
    → (a && not b && not c && not d) ≡ true
    → (a ≡ true) × (b ≡ false) × (c ≡ false) × (d ≡ false)
four_tests a b c d h = ground arith

first_reusable-eq :
    (realtime : Bool) (sorted : List KnowledgeCandidate) (best : KnowledgeCandidate)
    (items : List KnowledgeCandidate)
    → first_reusable realtime sorted ≡ some best
    → Front items sorted
    → IsFront items best × (is_reusable realtime best ≡ true)
first_reusable-eq realtime [] best items e h = cc
first_reusable-eq realtime (front ∷ rest) best items e h =
    elim (Bool-cases (is_reusable realtime front)) [
      | inl ok ↦
          let same : front ≡ best = ground arith in (subst (IsFront items) same h, rw (← same) ok)
      | inr refused ↦ cc (e, refused)
    ]

-- The gate that lets experience answer in place of a look at production data.
pub record MeetsGate (best : KnowledgeCandidate) : Type 0 where
  pub confident : ge_float best.confidence confidence_88 ≡ true
  pub observed : lt_ℤ best.observed_case_count (pos 2) ≡ false
  pub settled : best.requires_realtime_check ≡ false

gate :
    (best : KnowledgeCandidate) (realtime : Bool)
    → is_reusable realtime best ≡ true
    → MeetsGate best × (realtime ≡ false)
unfolding is_reusable
gate best realtime h =
    let (confident, observed, settled, fresh) =
      four_tests (ge_float best.confidence confidence_88) (lt_ℤ best.observed_case_count (pos 2))
        best.requires_realtime_check realtime h in
    (record { confident = confident; observed = observed; settled = settled }, fresh)

module _ ⦃py : Runtime⦄ where
  -- A candidate that `best_knowledge` returns is one of the request's, no candidate has a greater
  -- confidence, or the same and more observed cases, it has a confidence of at least 0.88 and two
  -- observed cases, it asks for no check in real time, and neither does the request. The confidences
  -- are numbers.
  pub best_knowledge-IsBest :
      (request : DecisionRequest) (best : KnowledgeCandidate)
      → All IsNumber request.knowledge_candidates
      → best_knowledge request ≡ some best
      → Mem best request.knowledge_candidates
        × All (λ c. lt_key best c ≡ false) request.knowledge_candidates
        × MeetsGate best
        × (request_requires_realtime request ≡ false)
  unfolding best_knowledge
  best_knowledge-IsBest request best numbers e =
      let (front, ok) =
        first_reusable-eq (request_requires_realtime request)
          (sorted_reverse request.knowledge_candidates) best request.knowledge_candidates e
          (sorted_reverse-Front request.knowledge_candidates numbers) in
      (
        front.member,
        front.greatest,
        (gate best (request_requires_realtime request) ok).0,
        (gate best (request_requires_realtime request) ok).1,
      )
