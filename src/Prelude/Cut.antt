-- ===== src/Prelude/Cut.antt =====
-- Texts that are cut at a number of characters.
use Prim.Native.Nat.{ℕ, zero, suc, ◌≤◌}
use Prim.Native.String.{String, count}
use mathlib.Core.Path.{◌≡◌, refl, ap}
use native.Mathlib.Omega.{arith}
use text.Mathlib.TextLemmas.{length-nil, length-cons}
use ai_troubleshooter.Prelude.Text.{take_text}

pub count-take_text : (n : ℕ) (s : String) → count (take_text n s) ≤ n
count-take_text zero s = omega (arith, length-nil)
count-take_text (suc n) String.[] = omega (arith, length-nil)
count-take_text (suc n) (String.◌∷◌ c s) =
    omega (arith, length-cons c (take_text n s), count-take_text n s)

-- A text that is short enough is not cut.
pub take_text_all : (n : ℕ) (s : String) → count s ≤ n → take_text n s ≡ s
take_text_all zero String.[] h = refl
take_text_all zero (String.◌∷◌ c s) h = absurd (omega (arith, length-cons c s))
take_text_all (suc n) String.[] h = refl
take_text_all (suc n) (String.◌∷◌ c s) h =
    ap (λ t. String.◌∷◌ c t) (take_text_all n s (omega (arith, length-cons c s)))
