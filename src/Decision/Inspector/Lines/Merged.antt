-- ===== src/Decision/Inspector/Lines/Merged.antt =====
-- What `_merge_line_numbers` keeps.
use ai_troubleshooter.Prelude.{
  ℕ, Bool, true, false, not, ◌||◌, ◌&&◌, List, [], ◌∷◌, ◌++◌, any, leb, nat_eq, arith, inl, inr,
  Bool-cases, ◌≡◌, refl, sym, ap, ◌∙◌,
}
use ai_troubleshooter.Decision.Inspector.Lines.{
  has_line, merge_group, merge_groups, merge_line_numbers,
}

-- Every number is positive and stands once.
abbrev pub IsMerged : List ℕ → Type 0
IsMerged [] = Unit
IsMerged (n ∷ rest) = (leb n 0 ≡ false) × (has_line n rest ≡ false) × IsMerged rest

has_line-snoc : (n m : ℕ) (xs : List ℕ) → has_line n (xs ++ m ∷ []) ≡ (has_line n xs || nat_eq m n)
has_line-snoc n m [] = ground arith
has_line-snoc n m (x ∷ xs) = ground (arith, has_line-snoc n m xs)

snoc-IsMerged :
    (n : ℕ) (xs : List ℕ)
    → leb n 0 ≡ false
    → has_line n xs ≡ false
    → IsMerged xs
    → IsMerged (xs ++ n ∷ [])
snoc-IsMerged n [] positive fresh h = (positive, refl, tt)
snoc-IsMerged n (x ∷ xs) positive fresh (p, f, h) =
    (p, ground (arith, has_line-snoc x n xs), snoc-IsMerged n xs positive (ground arith) h)

-- What a step of the loop knows: its list is merged, and holds what was there and what came in.
abbrev Holds : List ℕ → Bool → ℕ → List ℕ → Type 0
Holds merged given n result = has_line n result ≡ (has_line n merged || (not (leb n 0) && given))

merge_group-IsMerged :
    (merged group : List ℕ) → IsMerged merged → IsMerged (merge_group merged group)
unfolding merge_group
merge_group-IsMerged merged [] h = h
merge_group-IsMerged merged (m ∷ rest) h = elim (Bool-cases (leb m 0)) [
  | inl none ↦ rw none (merge_group-IsMerged merged rest h)
  | inr positive ↦ elim (Bool-cases (has_line m merged)) [
    | inl seen ↦ rw (positive, seen) (merge_group-IsMerged merged rest h)
    | inr fresh ↦
        rw (positive, fresh)
          (merge_group-IsMerged (merged ++ m ∷ []) rest (snoc-IsMerged m merged positive fresh h))
  ]
]

same_number : (m n : ℕ) → nat_eq m n ≡ true → m ≡ n
same_number m n h = ground arith

-- A number that is passed over because it is there already.
seen_holds :
    (n m : ℕ) (merged rest : List ℕ)
    → has_line m merged ≡ true
    → (has_line n merged || (not (leb n 0) && has_line n rest))
      ≡ (has_line n merged || (not (leb n 0) && has_line n (m ∷ rest)))
seen_holds n m merged rest seen = elim (Bool-cases (nat_eq m n)) [
  | inl same ↦ rw (ap (λ k. has_line k merged) (sym (same_number m n same)) ∙ seen) refl
  | inr other ↦ rw other refl
]

-- A number that is not positive counts for none.
none_holds :
    (n m : ℕ) (b c : Bool)
    → leb m 0 ≡ true
    → (b || (not (leb n 0) && c)) ≡ (b || (not (leb n 0) && (nat_eq m n || c)))
none_holds n m b c h = ground arith

fresh_holds :
    (n m : ℕ) (b c : Bool)
    → leb m 0 ≡ false
    → ((b || nat_eq m n) || (not (leb n 0) && c)) ≡ (b || (not (leb n 0) && (nat_eq m n || c)))
fresh_holds n m b c h = ground arith

merge_group-Holds :
    (n : ℕ) (merged group : List ℕ) → Holds merged (has_line n group) n (merge_group merged group)
unfolding merge_group
merge_group-Holds n merged [] = ground arith
merge_group-Holds n merged (m ∷ rest) = elim (Bool-cases (leb m 0)) [
  | inl none ↦
      rw none (
        merge_group-Holds n merged rest ∙ none_holds n m (has_line n merged) (has_line n rest) none)
  | inr positive ↦ elim (Bool-cases (has_line m merged)) [
    | inl seen ↦
        rw (positive, seen) (merge_group-Holds n merged rest ∙ seen_holds n m merged rest seen)
    | inr fresh ↦
        rw (positive, fresh)
          (merge_group-Holds n (merged ++ m ∷ []) rest
            ∙ ap (λ b. b || (not (leb n 0) && has_line n rest)) (has_line-snoc n m merged)
            ∙ fresh_holds n m (has_line n merged) (has_line n rest) positive)
  ]
]

merge_groups-IsMerged :
    (merged : List ℕ) (groups : List (List ℕ))
    → IsMerged merged
    → IsMerged (merge_groups merged groups)
unfolding merge_groups
merge_groups-IsMerged merged [] h = h
merge_groups-IsMerged merged (group ∷ rest) h =
    merge_groups-IsMerged (merge_group merged group) rest (merge_group-IsMerged merged group h)

merge_groups-Holds :
    (n : ℕ) (merged : List ℕ) (groups : List (List ℕ))
    → Holds merged (any (has_line n) groups) n (merge_groups merged groups)
unfolding merge_groups
merge_groups-Holds n merged [] = ground arith
merge_groups-Holds n merged (group ∷ rest) =
    merge_groups-Holds n (merge_group merged group) rest
    ∙ ap (λ b. b || (not (leb n 0) && any (has_line n) rest)) (merge_group-Holds n merged group)
    ∙ regroup (has_line n merged) (not (leb n 0)) (has_line n group) (any (has_line n) rest)
  where
    regroup : (a p b c : Bool) → ((a || (p && b)) || (p && c)) ≡ (a || (p && (b || c)))
    regroup a p b c = ground arith

-- Merged line numbers are positive, none stands twice, and a number is among them exactly when it is
-- positive and stands in one of the groups.
pub merge_line_numbers-IsMerged :
    (groups : List (List ℕ)) (n : ℕ)
    → IsMerged (merge_line_numbers groups)
      × (has_line n (merge_line_numbers groups) ≡ (not (leb n 0) && any (has_line n) groups))
unfolding merge_line_numbers
merge_line_numbers-IsMerged groups n =
    (merge_groups-IsMerged [] groups tt, merge_groups-Holds n [] groups)
