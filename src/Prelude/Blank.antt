-- ===== src/Prelude/Blank.antt =====
-- When `strip` leaves nothing: every character is white space.
use Prim.Native.Char.{Char}
use Prim.Native.String.{String}
use mathlib.Core.Path.{◌≡◌, refl, sym, ◌∙◌}
use mathlib.Core.Logic.{inl, inr}
use mathlib.Core.Bool.{Bool, true, false, ◌&&◌}
use native.Mathlib.Omega.{arith}
use text.Mathlib.Text.{◌==◌}
use text.Mathlib.TextEquality.{eq_iff}
use text.Mathlib.TextLemmas.{nil-append, cons-append, cons≢nil}
use ai_troubleshooter.Prelude.Tests.{Bool-cases}
use ai_troubleshooter.Prelude.Text.{is_space, lstrip, rstrip, strip, ◌<>◌}

unfoldable pub all_space : String → Bool
all_space String.[] = true
all_space (String.◌∷◌ c s) = is_space c && all_space s

pub cons-eq-empty : (c : Char) (s : String) → (String.◌∷◌ c s == "") ≡ false
cons-eq-empty c s = elim (Bool-cases (String.◌∷◌ c s == "")) [
  | inl e ↦ absurd (cons≢nil ((eq_iff _ _).0 e))
  | inr e ↦ e
]

false_and : (b : Bool) → false ≡ (b && false)
false_and b = ground arith

rstrip-empty : (s : String) → (rstrip s == "") ≡ all_space s
unfolding rstrip all_space
rstrip-empty String.[] = refl
rstrip-empty (String.◌∷◌ c s) = elim (Bool-cases (rstrip s == "")) [
  | inl e ↦
      let blank : all_space s ≡ true = sym (rstrip-empty s) ∙ e in
      elim (Bool-cases (is_space c)) [
        | inl p ↦ rw (e, p, blank)
        | inr p ↦ rw (e, p) (cons-eq-empty c (rstrip s))
      ]
  | inr e ↦
      let full : all_space s ≡ false = sym (rstrip-empty s) ∙ e in
      rw (e, full) (cons-eq-empty c (rstrip s) ∙ false_and (is_space c))
]

all_space-lstrip : (s : String) → all_space (lstrip s) ≡ all_space s
unfolding lstrip all_space
all_space-lstrip String.[] = refl
all_space-lstrip (String.◌∷◌ c s) = ground (arith, all_space-lstrip s)

pub strip-empty : (s : String) → (strip s == "") ≡ all_space s
unfolding strip
strip-empty s = rstrip-empty (lstrip s) ∙ all_space-lstrip s

pub all_space-append : (s t : String) → all_space (s <> t) ≡ all_space s && all_space t
unfolding all_space
all_space-append String.[] t = rw nil-append
all_space-append (String.◌∷◌ c s) t = rw (cons-append c s t) (ground (arith, all_space-append s t))
