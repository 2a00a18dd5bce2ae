-- ===== src/Decision/Inspector/Resolve/Ranked.antt =====
-- The symbols that a call is resolved to.
use mathlib.Core.List.{Mem, mem-cons_self, mem-cons_of_mem}
use ai_troubleshooter.Prelude.{
  ℕ, zero, suc, ◌≤◌, String, Bool, false, ◌||◌, List, [], ◌∷◌, ◌++◌, any, filterb, take, length,
  length-take, All, All-append, All-take, contains, is_empty, arith, inl, inr, ◌⊎◌, Bool-cases,
  eq_iff, ◌==◌, ◌≡◌, refl, ap, ◌∙◌,
}
use ai_troubleshooter.Python.{Runtime}
use ai_troubleshooter.Decision.Inspector.Words.{CodeSymbol, CallEdge, ScannedFile}
use ai_troubleshooter.Decision.Inspector.Sort.{insert_by, sorted_by}
use ai_troubleshooter.Decision.Inspector.Sort.Kept.{All-sorted_by}
use ai_troubleshooter.Decision.Inspector.Resolve.{
  simple_type, same_symbol, unique_from, dedupe_and_rank_symbols, all_symbols, by_implementers,
  candidates_of, resolve_edge,
}

-- No two symbols have the same file, name and line.
abbrev pub AreUnique : List CodeSymbol → Type 0
AreUnique [] = Unit
AreUnique (s ∷ rest) = (any (same_symbol s) rest ≡ false) × AreUnique rest

eq_comm : (a b : String) → (a == b) ≡ (b == a)
eq_comm a b = ground (arith, eq_iff a b, eq_iff b a)

same_symbol_comm : (a b : CodeSymbol) → same_symbol a b ≡ same_symbol b a
same_symbol_comm a b = rw (eq_comm a.file_path b.file_path, eq_comm a.name b.name) (ground arith)

any-snoc :
    (p : CodeSymbol → Bool) (xs : List CodeSymbol) (x : CodeSymbol)
    → any p (xs ++ x ∷ []) ≡ (any p xs || p x)
any-snoc p [] x = ground arith
any-snoc p (y ∷ ys) x = ground (arith, any-snoc p ys x)

snoc-AreUnique :
    (xs : List CodeSymbol) (x : CodeSymbol)
    → any (λ seen. same_symbol seen x) xs ≡ false
    → AreUnique xs
    → AreUnique (xs ++ x ∷ [])
snoc-AreUnique [] x fresh h = (refl, tt)
snoc-AreUnique (y ∷ ys) x fresh (f, h) =
    (any-snoc (same_symbol y) ys x ∙ ground arith, snoc-AreUnique ys x (ground arith) h)

unique_from-AreUnique :
    (unique symbols : List CodeSymbol) → AreUnique unique → AreUnique (unique_from unique symbols)
unfolding unique_from
unique_from-AreUnique unique [] h = h
unique_from-AreUnique unique (s ∷ rest) h =
    elim (Bool-cases (any (λ seen. same_symbol seen s) unique)) [
      | inl seen ↦ rw seen (unique_from-AreUnique unique rest h)
      | inr fresh ↦
          rw fresh (unique_from-AreUnique (unique ++ s ∷ []) rest (snoc-AreUnique unique s fresh h))
    ]

module _ (lt : CodeSymbol → CodeSymbol → Bool) where
  any-insert_by :
      (p : CodeSymbol → Bool) (x : CodeSymbol) (ys : List CodeSymbol)
      → any p (insert_by lt x ys) ≡ (p x || any p ys)
  unfolding insert_by
  any-insert_by p x [] = refl
  any-insert_by p x (y ∷ ys) = elim (Bool-cases (lt x y)) [
    | inl below ↦ rw below (ap (λ b. p y || b) (any-insert_by p x ys) ∙ swap (p y) (p x) (any p ys))
    | inr above ↦ rw above refl
  ]
    where
      swap : (b c d : Bool) → (b || (c || d)) ≡ (c || (b || d))
      swap b c d = ground arith

  any-sorted_by :
      (p : CodeSymbol → Bool) (xs : List CodeSymbol) → any p (sorted_by lt xs) ≡ any p xs
  unfolding sorted_by
  any-sorted_by p [] = refl
  any-sorted_by p (x ∷ xs) =
      any-insert_by p x (sorted_by lt xs) ∙ ap (λ b. p x || b) (any-sorted_by p xs)

  insert_by-AreUnique :
      (x : CodeSymbol) (ys : List CodeSymbol)
      → any (same_symbol x) ys ≡ false
      → AreUnique ys
      → AreUnique (insert_by lt x ys)
  unfolding insert_by
  insert_by-AreUnique x [] fresh h = (refl, tt)
  insert_by-AreUnique x (y ∷ ys) fresh (f, h) = elim (Bool-cases (lt x y)) [
    | inl below ↦ rw below (
      any-insert_by (same_symbol y) x ys
          ∙ rw (same_symbol_comm y x) (no_other (same_symbol x y) _ _ fresh f),
      insert_by-AreUnique x ys (later (same_symbol x y) _ fresh) h,
    )
    | inr above ↦ rw above (fresh, (f, h))
  ]
    where
      no_other : (b c d : Bool) → (b || c) ≡ false → d ≡ false → (b || d) ≡ false
      no_other b c d h k = ground arith

      later : (b c : Bool) → (b || c) ≡ false → c ≡ false
      later b c h = ground arith

  sorted_by-AreUnique : (xs : List CodeSymbol) → AreUnique xs → AreUnique (sorted_by lt xs)
  unfolding sorted_by
  sorted_by-AreUnique [] h = tt
  sorted_by-AreUnique (x ∷ xs) (fresh, h) =
      insert_by-AreUnique x (sorted_by lt xs) (any-sorted_by (same_symbol x) xs ∙ fresh)
        (sorted_by-AreUnique xs h)

any-take :
    (p : CodeSymbol → Bool) (n : ℕ) (xs : List CodeSymbol)
    → any p xs ≡ false
    → any p (take n xs) ≡ false
any-take p zero xs h = refl
any-take p (suc n) [] h = refl
any-take p (suc n) (x ∷ xs) h = ground (arith, any-take p n xs (ground arith))

take-AreUnique : (n : ℕ) (xs : List CodeSymbol) → AreUnique xs → AreUnique (take n xs)
take-AreUnique zero xs h = tt
take-AreUnique (suc n) [] h = tt
take-AreUnique (suc n) (x ∷ xs) (f, h) = (any-take (same_symbol x) n xs f, take-AreUnique n xs h)

module _ (P : CodeSymbol → Type 0) where
  All-unique_from :
      (unique symbols : List CodeSymbol)
      → All P unique
      → All P symbols
      → All P (unique_from unique symbols)
  unfolding unique_from
  All-unique_from unique [] h k = h
  All-unique_from unique (s ∷ rest) h (p, k) =
      elim (Bool-cases (any (λ seen. same_symbol seen s) unique)) [
        | inl seen ↦ rw seen (All-unique_from unique rest h k)
        | inr fresh ↦
            rw fresh
              (All-unique_from (unique ++ s ∷ []) rest (All-append P unique (s ∷ []) h (p, tt)) k)
      ]

  All-filterb : (q : CodeSymbol → Bool) (xs : List CodeSymbol) → All P xs → All P (filterb q xs)
  All-filterb q [] h = tt
  All-filterb q (x ∷ xs) (p, h) = elim (Bool-cases (q x)) [
    | inl holds ↦ rw holds (p, All-filterb q xs h)
    | inr fails ↦ rw fails (All-filterb q xs h)
  ]

  All_of_members : (xs : List CodeSymbol) → ((s : CodeSymbol) → Mem s xs → P s) → All P xs
  All_of_members [] h = tt
  All_of_members (x ∷ xs) h =
      (h x mem-cons_self, All_of_members xs (λ s m. h s (mem-cons_of_mem x m)))

  module _ ⦃py : Runtime⦄ where
    All-by_implementers :
        (symbols : List CodeSymbol) (implementers : List String) (key : String)
        → All P symbols
        → All P (by_implementers symbols implementers key)
    unfolding by_implementers
    All-by_implementers symbols [] key h = tt
    All-by_implementers symbols (implementer ∷ rest) key h =
        All-append P _ _ (All-filterb _ symbols h) (All-by_implementers symbols rest key h)

    All-candidates_of :
        (files : List ScannedFile) (edge : CallEdge)
        → All P (all_symbols files)
        → All P (candidates_of files edge).symbols
    unfolding candidates_of
    All-candidates_of files edge h = elim (Bool-cases (simple_type edge.receiver_type == "")) [
      | inr typed ↦ rw typed (
          All-append P _ _ (All-filterb _ (all_symbols files) h)
            (All-by_implementers (all_symbols files) _ _ h))
      | inl untyped ↦ rw untyped (elim (Bool-cases (contains "." edge.callee)) [
        | inl qualified ↦ rw qualified (All-filterb _ (all_symbols files) h)
        | inr plain ↦ rw plain (All-filterb _ (all_symbols files) h)
      ])
    ]

-- What a call is resolved to: at least one symbol and at most five, none twice, each of a file that
-- was read.
pub record IsResolved (files : List ScannedFile) (symbols : List CodeSymbol) : Type 0 where
  pub some_symbol : is_empty symbols ≡ false
  pub few : length symbols ≤ 5
  pub unique : AreUnique symbols
  pub known : All (λ s. Mem s (all_symbols files)) symbols

module _ ⦃py : Runtime⦄ where
  -- A call is left as it is, or is resolved to one to five different symbols, each of which a file that
  -- was read declares.
  pub resolve_edge-IsResolved :
      (files : List ScannedFile) (edge : CallEdge)
      → (resolve_edge files edge ≡ edge)
        ⊎ IsResolved files (resolve_edge files edge).resolved_symbols
  unfolding resolve_edge dedupe_and_rank_symbols
  resolve_edge-IsResolved files edge =
      let Known = λ (s : CodeSymbol). Mem s (all_symbols files) in
      let candidates = (candidates_of files edge).symbols in
      let unique = unique_from [] candidates in
      elim (Bool-cases (is_empty (dedupe_and_rank_symbols candidates edge.file_path))) [
        | inl nothing ↦ inl (rw nothing refl)
        | inr found ↦ inr (
            rw found (record {
              some_symbol = found;
              few = omega (arith, length-take 5 (sorted_by _ unique));
              unique =
                  take-AreUnique 5 _
                    (sorted_by-AreUnique _ unique (unique_from-AreUnique [] candidates tt));
              known = All-take Known 5 _ (
                  All-sorted_by _ Known unique (
                    All-unique_from Known [] candidates tt (
                      All-candidates_of Known files edge
                        (All_of_members Known (all_symbols files) (λ s m. m)))));
            }))
      ]
