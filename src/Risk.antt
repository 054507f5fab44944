-- ===== src/Risk.antt =====
-- The rating of one vulnerability on one asset: src/mori_soc/services/risk_assessment.py.
use mori_soc.Prelude.{
  leb, eqb, if◌then◌else◌, strip, lower, ℕ, ◌+◌, ◌*◌, min, max, String, Bool, List, [], ◌∷◌,
}
use mori_soc.Prelude.Dict.{Dict, get, or_value}
pub mod Bounds

abbrev impact_score : Dict ℕ
impact_score = ("상", 3) ∷ ("중", 2) ∷ ("하", 1) ∷ []

abbrev severity_likelihood : Dict ℕ
severity_likelihood = ("critical", 3) ∷ ("high", 3) ∷ ("medium", 2) ∷ ("low", 1) ∷ ("info", 1) ∷ []

-- The bands: the highest score of each, and its two names.
abbrev pub risk_levels : List (ℕ × String × String)
risk_levels =
    (2, "낮음", "Low") ∷ (4, "중간", "Medium") ∷ (6, "높음", "High") ∷ (9, "매우높음", "Critical") ∷ []

-- `_LABEL_BY_SCORE[n]`
abbrev pub label_by_score : ℕ → String
label_by_score n = if eqb n 3 then "상" else if eqb n 2 then "중" else "하"

pub record RiskAssessment : Type 0 where
  pub impact : ℕ
  pub likelihood : ℕ
  pub score : ℕ
  pub level : String
  pub level_en : String
  pub impact_label : String
  pub likelihood_label : String
  pub likelihood_base : ℕ

abbrev pub clamp : ℕ → ℕ
clamp value = max 1 (min 3 value)

level_from : List (ℕ × String × String) → ℕ → String × String
level_from [] score = ("매우높음", "Critical")
level_from ((threshold, ko, en) ∷ r) score =
    let rest = level_from r score in if leb score threshold then (ko, en) else rest

-- A score above every band has the last one.
unfoldable pub level_for : ℕ → String × String
unfolding level_from
level_for score = level_from risk_levels score

abbrev pub rating : ℕ → ℕ → ℕ → RiskAssessment
rating impact likelihood base =
    let score = impact * likelihood in
    record {
      impact = impact;
      likelihood = likelihood;
      score = score;
      level = (level_for score).0;
      level_en = (level_for score).1;
      impact_label = label_by_score impact;
      likelihood_label = label_by_score likelihood;
      likelihood_base = base;
    }

-- `None` reads as "".
abbrev pub impact_of : String → ℕ
impact_of importance = or_value (get impact_score (strip importance)) 2

abbrev pub likelihood_of : String → ℕ
likelihood_of severity = or_value (get severity_likelihood (lower (strip severity))) 1

unfoldable pub assess_risk : String → String → Bool → Bool → RiskAssessment
unfolding get strip lower level_for
assess_risk importance severity fixed_available exception_expired =
    let base = likelihood_of severity in
    let raised = if fixed_available then base + 1 else base in
    let likelihood = clamp (if exception_expired then raised + 1 else raised) in
    rating (impact_of importance) likelihood base

-- A negative axis is clamped like 0.
unfoldable pub grade_from_axes : ℕ → ℕ → RiskAssessment
unfolding level_for
grade_from_axes impact likelihood = rating (clamp impact) (clamp likelihood) (clamp likelihood)
