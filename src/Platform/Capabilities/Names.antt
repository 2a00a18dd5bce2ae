-- ===== src/Platform/Capabilities/Names.antt =====
-- The shape of the names and paths that the importer makes.
use Prim.Native.Char.{code}
use ai_troubleshooter.Prelude.{
  String, Bool, true, false, ◌||◌, ◌&&◌, arith, strip, nat_eq, inl, inr, Bool-cases, if◌then◌else◌,
  ◌==◌, ◌≡◌, refl,
}
use ai_troubleshooter.Python.{Runtime}
use ai_troubleshooter.Platform.Capabilities.{
  collapse, drop_slashes, normalize_path, is_name_char, underscores, name_chars, drop_leading,
  drop_trailing, normalize_tool_name,
}

abbrev pub starts_with_slash : String → Bool
starts_with_slash String.[] = false
starts_with_slash (String.◌∷◌ c s) = nat_eq (code c) 47

-- two slashes in a row
abbrev pub has_double_slash : String → Bool
has_double_slash String.[] = false
has_double_slash (String.◌∷◌ c s) = nat_eq (code c) 47 && starts_with_slash s || has_double_slash s

collapse-starts : (s : String) → starts_with_slash (collapse true s) ≡ false
unfolding collapse
collapse-starts String.[] = refl
collapse-starts (String.◌∷◌ c s) = elim (Bool-cases (nat_eq (code c) 47)) [
  | inl slash ↦ rw slash (collapse-starts s)
  | inr other ↦ rw other other
]

collapse-single : (behind : Bool) (s : String) → has_double_slash (collapse behind s) ≡ false
unfolding collapse
collapse-single behind String.[] = refl
collapse-single behind (String.◌∷◌ c s) = elim (Bool-cases (nat_eq (code c) 47)) [
  | inr other ↦ rw other (rw other (collapse-single false s))
  | inl slash ↦ elim (Bool-cases behind) [
    | inl twice ↦ rw (slash, twice) (collapse-single true s)
    | inr once ↦ rw (slash, once) (rw (slash, collapse-starts s) (collapse-single true s))
  ]
]

-- Whatever the manifest says, a path starts with a slash and has no two slashes in a row.
pub normalize_path-shape :
    (value : String)
    → (starts_with_slash (normalize_path value) ≡ true)
      × (has_double_slash (normalize_path value) ≡ false)
unfolding normalize_path collapse
normalize_path-shape value =
    (refl, collapse-single false (String.◌∷◌ "/" (drop_slashes (strip value))))

abbrev pub all_name_chars : String → Bool
all_name_chars String.[] = true
all_name_chars (String.◌∷◌ c s) = is_name_char c && all_name_chars s

name_chars-all : (inside : Bool) (s : String) → all_name_chars (name_chars inside s) ≡ true
unfolding name_chars
name_chars-all inside String.[] = refl
name_chars-all inside (String.◌∷◌ c s) = elim (Bool-cases (is_name_char c)) [
  | inl fits ↦ rw fits (rw fits (name_chars-all false s))
  | inr odd ↦ elim (Bool-cases inside) [
    | inl more ↦ rw (odd, more) (name_chars-all true s)
    | inr first ↦ rw (odd, first) (name_chars-all true s)
  ]
]

drop_leading-all : (s : String) → all_name_chars s ≡ true → all_name_chars (drop_leading s) ≡ true
unfolding drop_leading
drop_leading-all String.[] h = refl
drop_leading-all (String.◌∷◌ c s) h = elim (Bool-cases (nat_eq (code c) 95)) [
  | inl drop ↦ rw drop (drop_leading-all s (ground arith))
  | inr keep ↦ rw keep h
]

drop_trailing-all : (s : String) → all_name_chars s ≡ true → all_name_chars (drop_trailing s) ≡ true
unfolding drop_trailing
drop_trailing-all String.[] h = refl
drop_trailing-all (String.◌∷◌ c s) h =
    let rest = drop_trailing-all s (ground arith) in
    elim (Bool-cases (drop_trailing s == "" && nat_eq (code c) 95)) [
      | inl drop ↦ rw drop refl
      | inr keep ↦ rw keep (ground arith)
    ]

-- no underscore at the end
abbrev pub ends_with_underscore : String → Bool
ends_with_underscore String.[] = false
ends_with_underscore (String.◌∷◌ c s) =
    if s == "" then nat_eq (code c) 95 else ends_with_underscore s

drop_trailing-ends : (s : String) → ends_with_underscore (drop_trailing s) ≡ false
unfolding drop_trailing
drop_trailing-ends String.[] = refl
drop_trailing-ends (String.◌∷◌ c s) =
    elim (Bool-cases (drop_trailing s == "" && nat_eq (code c) 95)) [
      | inl drop ↦ rw drop refl
      | inr keep ↦ rw keep (ground (arith, drop_trailing-ends s))
    ]

module _ ⦃py : Runtime⦄ where
  -- Whatever the manifest says, the name of a tool has only small letters, digits and underscores, and
  -- no underscore at its end.
  pub normalize_tool_name-shape :
      (value : String)
      → (all_name_chars (normalize_tool_name value) ≡ true)
        × (ends_with_underscore (normalize_tool_name value) ≡ false)
  unfolding normalize_tool_name
  normalize_tool_name-shape value =
      let name = underscores (py.lower (strip value)) in
      (
        drop_trailing-all (drop_leading (name_chars false name))
            (drop_leading-all (name_chars false name) (name_chars-all false name)),
        drop_trailing-ends (drop_leading (name_chars false name)),
      )
