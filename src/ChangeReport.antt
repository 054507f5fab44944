-- ===== src/ChangeReport.antt =====
-- The monthly report of what changed: src/mori_soc/services/change_report.py, over the gaps and the
-- approvals of their own models. Times are ISO texts, which compare as texts.
use mori_soc.Prelude.{
  ltb, leb, eqb, if◌then◌else◌, length, select, or_text, text_lt, text_le, show_nat, read_int, ℕ,
  ◌+◌, ◌-◌, ◌<◌, String, ◌<>◌, ◌≡◌, refl, Bool, not, ◌&&◌, Option, none, some, List, [], ◌∷◌, ◌++◌,
  map, ◌==◌,
}
use mori_soc.Prelude.Dict.{Dict}
use mori_soc.Prelude.Tally.{tally_onto}
use mori_soc.Gap.{Gap, Step}
use mori_soc.Approval.{Approval}
use Prim.Native.Char.{code}
pub mod Adjoining

-- What stands before and behind the first hyphen, if there is one.
unfoldable pub split_hyphen : String → Option (String × String)
split_hyphen String.[] = none
split_hyphen (String.◌∷◌ c s) =
    let rest = split_hyphen s in
    if eqb (code c) 45
    then some ("", s)
    else elim rest [ none ↦ none | some (a, b) ↦ some (String.◌∷◌ c a, b) ]

-- `y, m = month.split("-")`, or `none` for a `ValueError`
abbrev pub two_parts : String → Option (String × String)
two_parts s = elim (split_hyphen s) [
  | none ↦ none
  | some (a, b) ↦ elim (split_hyphen b) [ none ↦ some (a, b) | some _ ↦ none ]
]

-- `f"{n:02d}"` and `f"{n:04d}"`
abbrev pub padded_2 : ℕ → String
padded_2 n = (if ltb n 10 then "0" else "") <> show_nat n

abbrev pub padded_4 : ℕ → String
padded_4 n =
    (if ltb n 10 then "000" else if ltb n 100 then "00" else if ltb n 1000 then "0" else "")
    <> show_nat n

unfoldable pub first_of_month : ℕ → ℕ → String
unfolding show_nat
first_of_month year month = padded_4 year <> "-" <> padded_2 month <> "-01T00:00:00+00:00"

abbrev pub next_month : ℕ → ℕ → ℕ × ℕ
next_month year month = if eqb month 12 then (year + 1, 1) else (year, month + 1)

abbrev pub bounds_of : ℕ → ℕ → Option (String × String)
bounds_of year month =
    if leb 1 month && leb month 12
    then some (
      first_of_month year month,
      first_of_month (next_month year month).0 (next_month year month).1,
    )
    else none

abbrev pub both : Option ℕ → Option ℕ → Option (ℕ × ℕ)
both (some a) (some b) = some (a, b)
both _ _ = none

unfoldable pub month_bounds : String → Option (String × String)
unfolding split_hyphen read_int first_of_month
month_bounds month = elim (two_parts month) [
  | none ↦ none
  | some (y, m) ↦ elim (both (read_int y) (read_int m)) [
    | none ↦ none
    | some (year, month) ↦ bounds_of year month
  ]
]

-- `_in`
unfoldable pub is_in : String → String → String → Bool
unfolding text_lt
is_in start end iso = not (iso == "") && text_le start iso && text_lt iso end

pub record EvidenceStamp : Type 0 where
  pub control_id : String
  pub generated_at : String
  pub created_at : String

abbrev pub is_new : String → String → EvidenceStamp → Bool
is_new start end e = is_in start end (or_text e.generated_at e.created_at)

abbrev pub is_transition : String → String → Step → Bool
is_transition start end h = h.action == "transition" && is_in start end h.ts

abbrev pub with_gap : Gap → Step → Gap × Step
with_gap g h = (g, h)

-- The transitions in the period, each with its gap.
unfoldable pub transitions : String → String → List Gap → List (Gap × Step)
unfolding is_in
transitions start end [] = []
transitions start end (g ∷ gs) =
    map (with_gap g) (select (is_transition start end) g.history) ++ transitions start end gs

pub record GapRow : Type 0 where
  pub gap_id : String
  pub title : String
  pub control_id : String
  pub ts : String

abbrev pub gap_row : Gap × Step → GapRow
gap_row (g, h) = record { gap_id = g.gap_id; title = g.title; control_id = g.control_id; ts = h.ts }

abbrev pub goes_to : String → Gap × Step → Bool
goes_to status (g, h) = h.to == status

abbrev pub new_gap_row : Gap → String × String × String
new_gap_row g = (g.gap_id, g.title, g.control_id)

pub record ChangeReport : Type 0 where
  pub period_start : String
  pub period_end : String
  pub new_evidence_count : ℕ
  pub new_evidence_by_control : Dict ℕ
  pub approvals_by_status : Dict ℕ
  pub new_gap_count : ℕ
  pub new_gaps : List (String × String × String)
  pub gap_transitions : Dict ℕ
  pub resolved_gaps : List GapRow
  pub new_exceptions : List GapRow

unfoldable pub build_evidence_change_report :
    String → String → List EvidenceStamp → List Approval → List Gap → ChangeReport
unfolding is_in tally_onto transitions
build_evidence_change_report start end evidence approvals gaps =
    let new_evidence = select (is_new start end) evidence in
    let in_period = select (λ (a : Approval). is_in start end a.created_at) approvals in
    let new_gaps = select (λ (g : Gap). is_in start end g.created_at) gaps in
    let moves = transitions start end gaps in
    record {
      period_start = start;
      period_end = end;
      new_evidence_count = length new_evidence;
      new_evidence_by_control =
          tally_onto [] (map (λ (e : EvidenceStamp). e.control_id) new_evidence);
      approvals_by_status =
          tally_onto [] (map (λ (a : Approval). or_text a.status "unknown") in_period);
      new_gap_count = length new_gaps;
      new_gaps = map new_gap_row new_gaps;
      gap_transitions = tally_onto [] (map (λ (m : Gap × Step). m.1.to) moves);
      resolved_gaps = map gap_row (select (goes_to "resolved") moves);
      new_exceptions = map gap_row (select (goes_to "accepted_exception") moves);
    }

month_runs :
    (month_bounds "2025-12" ≡ some ("2025-12-01T00:00:00+00:00", "2026-01-01T00:00:00+00:00"))
    × (month_bounds "2025-13" ≡ none)
    × (month_bounds "2025-1-1" ≡ none)
    × (month_bounds "2025" ≡ none)
unfolding month_bounds
month_runs = (refl, refl, refl, refl)
