-- ===== src/Platform/Ledger/Evidence.antt =====
-- What `evidence_refs_from_observations` collects and when a final answer is accepted.
use ai_troubleshooter.Prelude.{
  String, Bool, true, false, not, ◌||◌, ◌&&◌, List, [], ◌∷◌, ◌++◌, arith, map, any, filterb,
  is_empty, All, All-append, eq_iff, inl, inr, Bool-cases, ◌==◌, ◌≡◌, ◌∙◌, sym, ap, refl,
}
use ai_troubleshooter.Python.{Float, lt_float, min_float}
use ai_troubleshooter.Decision.Models.{confidence_45}
use ai_troubleshooter.Platform.Ledger.{
  EvidenceRef, Observation, Key, key_of, same_key, seen_key, Collected, collect_ref, collect_refs,
  collect, evidence_refs_from_observations, is_success, final_answer_verification,
}

-- No key stands twice.
abbrev pub DistinctKeys : List Key → Type 0
DistinctKeys [] = Unit
DistinctKeys (k ∷ ks) = (seen_key k ks ≡ false) × DistinctKeys ks

abbrev pub has_id : EvidenceRef → Bool
has_id r = not (r.ref_id == "")

-- A key without the name of its tool.
abbrev pub key_id : Key → String × String
key_id k = (k.ref_type, k.ref_id)

abbrev pub ref_id_of : EvidenceRef → String × String
ref_id_of r = (r.ref_type, r.ref_id)

-- The references stand for the keys, one for one, and no key stands twice or has an empty id.
pub record IsIndex (s : Collected) : Type 0 where
  pub same : map ref_id_of s.refs ≡ map key_id s.seen
  pub given : All (λ r. has_id r ≡ true) s.refs
  pub distinct : DistinctKeys s.seen

eq_sym : (a b : String) → (a == b) ≡ (b == a)
eq_sym a b = ground (arith, eq_iff a b, eq_iff b a)

same_key_sym : (a b : Key) → same_key a b ≡ same_key b a
same_key_sym a b =
    rw (eq_sym a.ref_type b.ref_type, eq_sym a.ref_id b.ref_id, eq_sym a.tool_name b.tool_name)

same_key_refl : (k : Key) → same_key k k ≡ true
same_key_refl k = rw (
  (eq_iff k.ref_type k.ref_type).1 refl,
  (eq_iff k.ref_id k.ref_id).1 refl,
  (eq_iff k.tool_name k.tool_name).1 refl,
)

seen_key-snoc :
    (k j : Key) (ks : List Key) → seen_key k (ks ++ j ∷ []) ≡ (seen_key k ks || same_key j k)
seen_key-snoc k j [] = ground arith
seen_key-snoc k j (i ∷ ks) = ground (arith, seen_key-snoc k j ks)

snoc-DistinctKeys :
    (k : Key) (ks : List Key)
    → seen_key k ks ≡ false
    → DistinctKeys ks
    → DistinctKeys (ks ++ k ∷ [])
snoc-DistinctKeys k [] new h = (refl, tt)
snoc-DistinctKeys k (j ∷ ks) new (f, h) = (
  ground (arith, seen_key-snoc j k ks, same_key_sym j k),
  snoc-DistinctKeys k ks (ground arith) h,
)

map-snoc {ℓ κ} :
    {A : Type ℓ} {B : Type κ} (f : A → B) (xs : List A) (x : A)
    → map f (xs ++ x ∷ []) ≡ map f xs ++ f x ∷ []
map-snoc f [] x = refl
map-snoc f (y ∷ xs) x = rw (map-snoc f xs x)

-- A key that was collected stays.
seen_key-collect_ref :
    (item : Observation) (s : Collected) (r : EvidenceRef) (k : Key)
    → seen_key k s.seen ≡ true
    → seen_key k (collect_ref item s r).seen ≡ true
unfolding collect_ref
seen_key-collect_ref item s r k h =
    elim (Bool-cases (seen_key (key_of item r) s.seen || r.ref_id == "")) [
      | inl drop ↦ rw drop h
      | inr keep ↦ rw keep (ground (arith, seen_key-snoc k (key_of item r) s.seen))
    ]

collect_ref-IsIndex :
    (item : Observation) (s : Collected) (r : EvidenceRef)
    → IsIndex s
    → IsIndex (collect_ref item s r)
unfolding collect_ref
collect_ref-IsIndex item s r h =
    elim (Bool-cases (seen_key (key_of item r) s.seen || r.ref_id == "")) [
      | inl drop ↦ rw drop h
      | inr keep ↦ rw keep (record {
        same =
            map-snoc ref_id_of s.refs r
            ∙ ap (λ xs. xs ++ ref_id_of r ∷ []) h.same
            ∙ sym (map-snoc key_id s.seen (key_of item r));
        given = All-append (λ q. has_id q ≡ true) s.refs (r ∷ []) h.given (ground arith, tt);
        distinct = snoc-DistinctKeys (key_of item r) s.seen (ground arith) h.distinct;
      })
    ]

-- The key of a reference is collected, if the reference has an id.
abbrev pub IsCollected : Collected → Observation → EvidenceRef → Type 0
IsCollected s item r = has_id r ≡ true → seen_key (key_of item r) s.seen ≡ true

collect_ref-collects :
    (item : Observation) (s : Collected) (r : EvidenceRef)
    → IsCollected (collect_ref item s r) item r
unfolding collect_ref
collect_ref-collects item s r given =
    elim (Bool-cases (seen_key (key_of item r) s.seen || r.ref_id == "")) [
      | inl drop ↦ rw drop (ground arith)
      | inr keep ↦ rw keep (
          ground (
            arith,
            seen_key-snoc (key_of item r) (key_of item r) s.seen,
            same_key_refl (key_of item r),
          ))
    ]

-- Every key of one state is in another.
abbrev Grows : Collected → Collected → Type 0
Grows s t = (k : Key) → seen_key k s.seen ≡ true → seen_key k t.seen ≡ true

collect_refs-Grows :
    (item : Observation) (s : Collected) (refs : List EvidenceRef)
    → Grows s (collect_refs item s refs)
unfolding collect_refs
collect_refs-Grows item s [] k h = h
collect_refs-Grows item s (r ∷ rest) k h =
    collect_refs-Grows item (collect_ref item s r) rest k (seen_key-collect_ref item s r k h)

collect-Grows : (s : Collected) (observations : List Observation) → Grows s (collect s observations)
unfolding collect
collect-Grows s [] k h = h
collect-Grows s (item ∷ rest) k h =
    collect-Grows (collect_refs item s item.evidence_refs) rest k
      (collect_refs-Grows item s item.evidence_refs k h)

collect_refs-IsIndex :
    (item : Observation) (s : Collected) (refs : List EvidenceRef)
    → IsIndex s
    → IsIndex (collect_refs item s refs)
unfolding collect_refs
collect_refs-IsIndex item s [] h = h
collect_refs-IsIndex item s (r ∷ rest) h =
    collect_refs-IsIndex item (collect_ref item s r) rest (collect_ref-IsIndex item s r h)

collect-IsIndex_from :
    (s : Collected) (observations : List Observation) → IsIndex s → IsIndex (collect s observations)
unfolding collect
collect-IsIndex_from s [] h = h
collect-IsIndex_from s (item ∷ rest) h =
    collect-IsIndex_from (collect_refs item s item.evidence_refs) rest
      (collect_refs-IsIndex item s item.evidence_refs h)

collect_refs-collects :
    (item : Observation) (s t : Collected) (refs : List EvidenceRef)
    → Grows (collect_refs item s refs) t
    → All (IsCollected t item) refs
unfolding collect_refs
collect_refs-collects item s t [] h = tt
collect_refs-collects item s t (r ∷ rest) h = (
  λ given. h (key_of item r) (
      collect_refs-Grows item (collect_ref item s r) rest (key_of item r)
        (collect_ref-collects item s r given)),
  collect_refs-collects item (collect_ref item s r) t rest h,
)

collect-collects :
    (s : Collected) (observations : List Observation)
    → All (λ item. All (IsCollected (collect s observations) item) item.evidence_refs) observations
unfolding collect
collect-collects s [] = tt
collect-collects s (item ∷ rest) =
    let next = collect_refs item s item.evidence_refs in
    (
      collect_refs-collects item s (collect next rest) item.evidence_refs (collect-Grows next rest),
      collect-collects next rest,
    )

abbrev pub nothing_collected : Collected
nothing_collected = record { refs = []; seen = [] }

-- The loops collect one reference for each key: the references that they return have an id and stand
-- for pairwise distinct keys, and the key of every reference of an observation that has an id is
-- among those.
pub collect-IsIndex :
    (observations : List Observation)
    → IsIndex (collect nothing_collected observations)
      × All
          (λ item.
            All (IsCollected (collect nothing_collected observations) item) item.evidence_refs)
          observations
collect-IsIndex observations = (
  collect-IsIndex_from nothing_collected observations
      (record { same = refl; given = tt; distinct = tt }),
  collect-collects nothing_collected observations,
)

-- some observation has a reference with an id
abbrev pub has_evidence : List Observation → Bool
has_evidence = any (λ item. any has_id item.evidence_refs)

filterb-any {ℓ} :
    {A : Type ℓ} (p : A → Bool) (xs : List A) → not (is_empty (filterb p xs)) ≡ any p xs
filterb-any p [] = refl
filterb-any p (x ∷ xs) = ground (arith, filterb-any p xs)

empty_snoc {ℓ} : {A : Type ℓ} (xs : List A) (x : A) → is_empty (xs ++ x ∷ []) ≡ false
empty_snoc [] x = refl
empty_snoc (y ∷ xs) x = refl

-- As many references as keys, so far as being empty goes.
abbrev Level : Collected → Type 0
Level s = is_empty s.refs ≡ is_empty s.seen

empty_unseen : (k : Key) (ks : List Key) → is_empty ks ≡ true → seen_key k ks ≡ false
empty_unseen k [] h = refl
empty_unseen k (j ∷ ks) h = cc

collect_ref-some :
    (item : Observation) (s : Collected) (r : EvidenceRef)
    → Level s
    → Level (collect_ref item s r)
      × (not (is_empty (collect_ref item s r).refs) ≡ (not (is_empty s.refs) || has_id r))
unfolding collect_ref
collect_ref-some item s r h =
    elim (Bool-cases (seen_key (key_of item r) s.seen || r.ref_id == "")) [
      | inl drop ↦ rw drop (h, ground (arith, empty_unseen (key_of item r) s.seen))
      | inr keep ↦ rw keep (
        empty_snoc s.refs r ∙ sym (empty_snoc s.seen (key_of item r)),
        ground (arith, empty_snoc s.refs r),
      )
    ]

collect_refs-some :
    (item : Observation) (s : Collected) (refs : List EvidenceRef)
    → Level s
    → Level (collect_refs item s refs)
      × (not (is_empty (collect_refs item s refs).refs)
          ≡ (not (is_empty s.refs) || any has_id refs))
unfolding collect_refs
collect_refs-some item s [] h = (h, ground arith)
collect_refs-some item s (r ∷ rest) h =
    let one = collect_ref-some item s r h in
    let more = collect_refs-some item (collect_ref item s r) rest one.0 in
    (more.0, ground (arith, one.1, more.1))

collect-some :
    (s : Collected) (observations : List Observation)
    → Level s
    → not (is_empty (collect s observations).refs)
      ≡ (not (is_empty s.refs) || has_evidence observations)
unfolding collect
collect-some s [] h = ground arith
collect-some s (item ∷ rest) h =
    let one = collect_refs-some item s item.evidence_refs h in
    ground (arith, one.1, collect-some (collect_refs item s item.evidence_refs) rest one.0)

capped : (c : Float) → lt_float confidence_45 (min_float c confidence_45) ≡ false
capped c = elim (Bool-cases (lt_float confidence_45 c)) [
  | inl over ↦ rw over refl
  | inr under ↦ rw under under
]

-- A final answer is accepted exactly when some observation succeeded and some observation has a
-- reference with an id, which need not be the same one. The confidence of an accepted answer is
-- kept, and that of another is not above 0.45.
pub final_answer_verification_cases :
    (observations : List Observation) (confidence : Float)
    → let v = final_answer_verification observations confidence in
      (v.accepted ≡ (any is_success observations && has_evidence observations))
      × (v.accepted ≡ true → v.adjusted_confidence ≡ confidence)
      × (v.accepted ≡ false → lt_float confidence_45 v.adjusted_confidence ≡ false)
unfolding final_answer_verification evidence_refs_from_observations
final_answer_verification_cases observations confidence = (
  rw (filterb-any is_success observations, collect-some nothing_collected observations refl),
  (λ yes. rw yes refl),
  λ no. rw no (capped confidence),
)
