-- ===== src/Decision/Inspector/Sort/Kept.antt =====
-- Sorting keeps what holds of every item, the keys, and that no key stands twice.
use ai_troubleshooter.Prelude.{
  ℕ, zero, suc, String, Bool, false, ◌||◌, List, [], ◌∷◌, map, mem, take, All, arith, inl, inr,
  Bool-cases, eq_iff, ◌==◌, ◌≡◌, refl, ap, ◌∙◌,
}
use ai_troubleshooter.Prelude.Distinct.{Distinct}
use ai_troubleshooter.Decision.Inspector.Sort.{insert_by, sorted_by}

pub map-take :
    {A : Type 0} (f : A → String) (n : ℕ) (xs : List A) → map f (take n xs) ≡ take n (map f xs)
map-take f zero xs = refl
map-take f (suc n) [] = refl
map-take f (suc n) (x ∷ xs) = ap (λ ys. f x ∷ ys) (map-take f n xs)

module _ {A : Type 0} (lt : A → A → Bool) where
  module _ (P : A → Type 0) where
    All-insert_by : (x : A) (ys : List A) → P x → All P ys → All P (insert_by lt x ys)
    unfolding insert_by
    All-insert_by x [] p h = (p, tt)
    All-insert_by x (y ∷ ys) p (q, h) = elim (Bool-cases (lt x y)) [
      | inl below ↦ rw below (q, All-insert_by x ys p h)
      | inr above ↦ rw above (p, (q, h))
    ]

    pub All-sorted_by : (xs : List A) → All P xs → All P (sorted_by lt xs)
    unfolding sorted_by
    All-sorted_by [] h = tt
    All-sorted_by (x ∷ xs) (p, h) = All-insert_by x (sorted_by lt xs) p (All-sorted_by xs h)

  module _ (key : A → String) where
    mem-insert_by :
        (a : String) (x : A) (ys : List A)
        → mem a (map key (insert_by lt x ys)) ≡ (key x == a || mem a (map key ys))
    unfolding insert_by
    mem-insert_by a x [] = refl
    mem-insert_by a x (y ∷ ys) = elim (Bool-cases (lt x y)) [
      | inl below ↦ rw below (
          ap (λ b. key y == a || b) (mem-insert_by a x ys)
          ∙ swap (key y == a) (key x == a) (mem a (map key ys)))
      | inr above ↦ rw above refl
    ]
      where
        swap : (b c d : Bool) → (b || (c || d)) ≡ (c || (b || d))
        swap b c d = ground arith

    insert_by-Distinct :
        (x : A) (ys : List A)
        → mem (key x) (map key ys) ≡ false
        → Distinct (map key ys)
        → Distinct (map key (insert_by lt x ys))
    unfolding insert_by
    insert_by-Distinct x [] fresh h = (refl, tt)
    insert_by-Distinct x (y ∷ ys) fresh (f, h) = elim (Bool-cases (lt x y)) [
      | inl below ↦ rw below (
        mem-insert_by (key y) x ys ∙ ground (arith, eq_iff (key x) (key y), eq_iff (key y) (key x)),
        insert_by-Distinct x ys (ground arith) h,
      )
      | inr above ↦ rw above (fresh, (f, h))
    ]

    mem-sorted_by :
        (a : String) (xs : List A) → mem a (map key (sorted_by lt xs)) ≡ mem a (map key xs)
    unfolding sorted_by
    mem-sorted_by a [] = refl
    mem-sorted_by a (x ∷ xs) =
        mem-insert_by a x (sorted_by lt xs) ∙ ap (λ b. key x == a || b) (mem-sorted_by a xs)

    pub sorted_by-Distinct :
        (xs : List A) → Distinct (map key xs) → Distinct (map key (sorted_by lt xs))
    unfolding sorted_by
    sorted_by-Distinct [] h = tt
    sorted_by-Distinct (x ∷ xs) (fresh, h) =
        insert_by-Distinct x (sorted_by lt xs) (mem-sorted_by (key x) xs ∙ fresh)
          (sorted_by-Distinct xs h)
