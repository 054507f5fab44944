-- ===== src/Prelude/Text.antt =====
-- Python's operations on `str`: truth value, membership, and the order by code points.
use Prim.Native.Char.{code}
use Prim.Native.String.{String}
use mathlib.Core.Path.{◌≡◌, refl, sym, ◌∙◌}
use mathlib.Core.Bool.{Bool, true, false, ◌||◌}
use mathlib.Core.List.{List, [], ◌∷◌}
use native.Mathlib.Omega.{arith}
use text.Mathlib.Text.{◌==◌}
use mathlib.Core.Path.{ap}
use text.Mathlib.TextEquality.{eq_iff}
use text.Mathlib.TextPositions.{eq_refl}
use mathlib.Core.Logic.{inl, inr}
use mathlib.Core.Bool.{false≢true}
use mori_soc.Prelude.Tests.{Bool-cases, ltb, eqb, if◌then◌else◌}

-- `s or d`
abbrev pub or_text : String → String → String
or_text s d = if s == "" then d else s

-- `s in xs`
abbrev pub contains : List String → String → Bool
contains [] s = false
contains (x ∷ xs) s = x == s || contains xs s

-- `s < t`
unfoldable pub text_lt : String → String → Bool
text_lt s String.[] = false
text_lt String.[] (String.◌∷◌ d t) = true
text_lt (String.◌∷◌ c s) (String.◌∷◌ d t) =
    let rest = text_lt s t in
    if ltb (code c) (code d) then true else if eqb (code c) (code d) then rest else false

pub text_lt_irrefl : (s : String) → text_lt s s ≡ false
unfolding text_lt
text_lt_irrefl String.[] = refl
text_lt_irrefl (String.◌∷◌ c s) = ground (arith, text_lt_irrefl s)

pub text_lt_trans : (s t u : String) → text_lt s t ≡ true → text_lt t u ≡ true → text_lt s u ≡ true
unfolding text_lt
text_lt_trans s t String.[] p q = q
text_lt_trans s String.[] (String.◌∷◌ e u) p q = absurd (ground arith)
text_lt_trans String.[] (String.◌∷◌ d t) (String.◌∷◌ e u) p q = refl
text_lt_trans (String.◌∷◌ c s) (String.◌∷◌ d t) (String.◌∷◌ e u) p q =
    ground (arith, text_lt_trans s t u)

-- `s <= t` and `t < u` give `s < u`.
pub text_lt_of_not_lt :
    (s t u : String) → text_lt t s ≡ false → text_lt t u ≡ true → text_lt s u ≡ true
unfolding text_lt
text_lt_of_not_lt s t String.[] p q = q
text_lt_of_not_lt String.[] t (String.◌∷◌ e u) p q = refl
text_lt_of_not_lt (String.◌∷◌ c s) String.[] (String.◌∷◌ e u) p q = absurd (ground arith)
text_lt_of_not_lt (String.◌∷◌ c s) (String.◌∷◌ d t) (String.◌∷◌ e u) p q =
    ground (arith, text_lt_of_not_lt s t u)

-- `s <= t`
abbrev pub text_le : String → String → Bool
text_le s t = if text_lt t s then false else true

pub text_lt_asymm : (s t : String) → text_lt s t ≡ true → text_lt t s ≡ false
text_lt_asymm s t h = elim (Bool-cases (text_lt t s)) [
  | inl p ↦ absurd (false≢true (sym (text_lt_irrefl s) ∙ text_lt_trans s t s h p))
  | inr p ↦ p
]

-- `s < t` and `t <= u` give `s < u`.
pub text_lt_le_trans :
    (s t u : String) → text_lt s t ≡ true → text_lt u t ≡ false → text_lt s u ≡ true
text_lt_le_trans s t u p q = elim (Bool-cases (text_lt s u)) [
  | inl r ↦ r
  | inr r ↦ absurd (false≢true (sym q ∙ text_lt_of_not_lt u s t r p))
]

-- `c or d` is `x`, which is not `d`: `c` is `x`.
pub or_text_lem : (c d x : String) → (d == x) ≡ false → (x == or_text c d) ≡ true → c ≡ x
or_text_lem c d x n h = elim (Bool-cases (c == "")) [
  | inl e ↦ absurd (
      (ground
        (arith, eq_iff x (or_text c d), eq_iff d x, eq_refl d, ap (λ b. if b then d else c) e)))
  | inr e ↦ ground (arith, eq_iff x (or_text c d), ap (λ b. if b then d else c) e)
]

pub or_false : {b : Bool} → (b || false) ≡ true → b ≡ true
or_false {b} h = ground arith
