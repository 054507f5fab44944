-- ===== src/Risk/Bounds.antt =====
-- The range and the order of the ratings.
use mori_soc.Prelude.{
  leb, if◌then◌else◌, Bool-cases, ℕ, zero, suc, ◌+◌, ◌*◌, ◌≤◌, String, ◌≡◌, refl, inl, inr, Bool,
  true, false, arith, ◌==◌,
}
use mori_soc.Prelude.Dict.{get}
use mori_soc.Risk.{
  RiskAssessment, clamp, level_for, impact_of, likelihood_of, assess_risk, grade_from_axes,
}

-- The place of a level among the four.
abbrev pub level_rank : String → ℕ
level_rank en =
    if en == "Low" then 1 else if en == "Medium" then 2 else if en == "High" then 3 else 4

-- The matrix of the module's comment: the level of each of the nine scores.
pub record InMatrix (r : RiskAssessment) : Type 0 where
  pub impact_low : 1 ≤ r.impact
  pub impact_high : r.impact ≤ 3
  pub likelihood_low : 1 ≤ r.likelihood
  pub likelihood_high : r.likelihood ≤ 3
  pub score_product : r.score ≡ r.impact * r.likelihood
  pub band :
      level_rank r.level_en
      ≡ (if leb r.score 2 then 1 else if leb r.score 4 then 2 else if leb r.score 6 then 3 else 4)

clamp-low : (n : ℕ) → 1 ≤ clamp n
clamp-low n = omega arith

clamp-high : (n : ℕ) → clamp n ≤ 3
clamp-high n = omega arith

impact_of-bounds : (i : String) → (1 ≤ impact_of i) × (impact_of i ≤ 3)
unfolding get
impact_of-bounds i = ground arith

likelihood_of-bounds : (s : String) → (1 ≤ likelihood_of s) × (likelihood_of s ≤ 3)
unfolding get
likelihood_of-bounds s = ground arith

level_for-band :
    (n : ℕ)
    → level_rank (level_for n).1
      ≡ (if leb n 2 then 1 else if leb n 4 then 2 else if leb n 6 then 3 else 4)
unfolding level_for
level_for-band n = elim (Bool-cases (leb n 2)) [
  | inl a ↦ rw a refl
  | inr a ↦ rw a (elim (Bool-cases (leb n 4)) [
    | inl b ↦ rw b refl
    | inr b ↦ rw b (elim (Bool-cases (leb n 6)) [
      | inl c ↦ rw c refl
      | inr c ↦ rw c (elim (Bool-cases (leb n 9)) [ inl d ↦ rw d refl | inr d ↦ rw d refl ])
    ])
  ])
]

-- Both ways to a rating give one inside the matrix: both axes from 1 to 3, the score their product,
-- and the level the one of the band of the score.
pub ratings-InMatrix :
    (importance severity : String) (fixed_available exception_expired : Bool)
    (impact likelihood : ℕ)
    → InMatrix (assess_risk importance severity fixed_available exception_expired)
      × InMatrix (grade_from_axes impact likelihood)
unfolding assess_risk grade_from_axes
ratings-InMatrix importance severity fixed_available exception_expired impact likelihood = (
  record {
    impact_low = (impact_of-bounds importance).0;
    impact_high = (impact_of-bounds importance).1;
    likelihood_low = clamp-low _;
    likelihood_high = clamp-high _;
    score_product = refl;
    band = level_for-band (assess_risk importance severity fixed_available exception_expired).score;
  },
  record {
    impact_low = omega arith;
    impact_high = omega arith;
    likelihood_low = omega arith;
    likelihood_high = omega arith;
    score_product = refl;
    band = level_for-band (grade_from_axes impact likelihood).score;
  },
)

flags-clamp :
    (base : ℕ) (f e : Bool)
    → clamp base
      ≤ clamp (if e then (if f then base + 1 else base) + 1 else (if f then base + 1 else base))
flags-clamp base true true = omega arith
flags-clamp base true false = omega arith
flags-clamp base false true = omega arith
flags-clamp base false false = omega arith

mul-le : (i m n : ℕ) → m ≤ n → i * m ≤ i * n
mul-le zero m n h = omega arith
mul-le (suc i) m n h = omega (arith, mul-le i m n h)

level-le : (m n : ℕ) → m ≤ n → level_rank (level_for m).1 ≤ level_rank (level_for n).1
level-le m n h = rw (level_for-band m, level_for-band n) (ground arith)

-- A known fix or an expired exception never lowers a rating: each of likelihood, score and level is
-- at least what it is without them.
pub flags_raise :
    (importance severity : String) (fixed_available exception_expired : Bool)
    → ((assess_risk importance severity false false).likelihood
        ≤ (assess_risk importance severity fixed_available exception_expired).likelihood)
      × ((assess_risk importance severity false false).score
          ≤ (assess_risk importance severity fixed_available exception_expired).score)
      × (level_rank (assess_risk importance severity false false).level_en
          ≤ level_rank (assess_risk importance severity fixed_available exception_expired).level_en)
unfolding assess_risk
flags_raise importance severity fixed_available exception_expired =
    let up = flags-clamp (likelihood_of severity) fixed_available exception_expired in
    let higher = mul-le (impact_of importance) _ _ up in (up, higher, level-le _ _ higher)
