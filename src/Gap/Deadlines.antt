-- ===== src/Gap/Deadlines.antt =====
-- The deadlines of gaps: `evaluate_gap_deadlines` of src/mori_soc/services/gap_workflow.py. A date
-- is its number of seconds; `_as_date` is a parameter.
use mori_soc.Prelude.{
  true, map, length, ◌+◌, ltb, leb, if◌then◌else◌, Bool-cases, select, contains, ℕ, ◌-◌, ◌/◌,
  String, ◌≡◌, refl, ◌∙◌, inl, inr, Bool, false, ◌&&◌, Option, none, some, List, [], ◌∷◌, arith,
  ◌==◌, eq_iff,
}
use mori_soc.Gap.{Gap}
pub mod Sorted

abbrev pub open_statuses : List String
open_statuses = "candidate" ∷ "confirmed" ∷ "policy_review" ∷ "remediation" ∷ []

pub record Deadlines : Type 0 where
  pub overdue : List Gap
  pub expired_exception : List Gap
  pub expiring_soon : List Gap

abbrev no_deadlines : Deadlines
no_deadlines = record { overdue = []; expired_exception = []; expiring_soon = [] }

-- `(due - now).days <= soon_days`, where `due` is not before `now`
abbrev is_soon : ℕ → ℕ → ℕ → Bool
is_soon now due soon_days = leb ((due - now) / 86400) soon_days

-- The list that a gap goes to; a gap is left out when one of the two dates cannot be read.
abbrev pub file_gap : ℕ → Option ℕ → Option ℕ → Gap → Deadlines → Deadlines
file_gap soon_days (some now) (some due) g d =
    if g.status == "accepted_exception"
    then (if ltb due now
        then record d { expired_exception = g ∷ d.expired_exception }
        else if is_soon now due soon_days
        then record d { expiring_soon = g ∷ d.expiring_soon }
        else d)
    else if contains open_statuses g.status && ltb due now
    then record d { overdue = g ∷ d.overdue }
    else d
file_gap soon_days _ _ g d = d

-- The date is past, and: the date is not past and at most so many days away.
abbrev pub is_past : Option ℕ → Option ℕ → Bool
is_past (some now) (some due) = ltb due now
is_past _ _ = false

abbrev pub is_near : ℕ → Option ℕ → Option ℕ → Bool
is_near soon_days (some now) (some due) = leb now due && leb ((due - now) / 86400) soon_days
is_near soon_days _ _ = false

file_gap_lem :
    (soon_days : ℕ) (now due : Option ℕ) (g : Gap) (d : Deadlines)
    → ((file_gap soon_days now due g d).overdue
        ≡ (if contains open_statuses g.status && is_past now due then g ∷ d.overdue else d.overdue))
      × ((file_gap soon_days now due g d).expired_exception ≡ (
          if g.status == "accepted_exception" && is_past now due
          then g ∷ d.expired_exception
          else d.expired_exception))
      × ((file_gap soon_days now due g d).expiring_soon ≡ (
          if g.status == "accepted_exception" && is_near soon_days now due
          then g ∷ d.expiring_soon
          else d.expiring_soon))
file_gap_lem soon_days none due g d = (ground arith, ground arith, ground arith)
file_gap_lem soon_days (some n) none g d = (ground arith, ground arith, ground arith)
file_gap_lem soon_days (some n) (some due) g d =
    elim (Bool-cases (g.status == "accepted_exception")) [
      | inl e ↦
          let same : g.status ≡ "accepted_exception" =
            ground (arith, eq_iff g.status "accepted_exception") in
          rw same (ground arith)
      | inr e ↦ rw e (ground arith)
    ]

module _ (as_date : String → Option ℕ) (now : String) (soon_days : ℕ) where
  -- The loop, with the lists in the order of the gaps.
  unfoldable pub file_gaps : List Gap → Deadlines
  file_gaps [] = no_deadlines
  file_gaps (g ∷ gaps) = file_gap soon_days (as_date now) (as_date g.due_date) g (file_gaps gaps)

  -- The overdue gaps are the open ones whose date is past, the expired exceptions are the accepted
  -- exceptions whose date is past, and those that expire soon are the accepted exceptions whose date
  -- is not past and at most the given number of days away; no gap that has no readable date is in a
  -- list.
  pub deadlines_lem :
      (gaps : List Gap)
      → ((file_gaps gaps).overdue
          ≡ select
              (λ g. contains open_statuses g.status && is_past (as_date now) (as_date g.due_date))
              gaps)
        × ((file_gaps gaps).expired_exception
            ≡ select
                (λ g.
                  g.status == "accepted_exception" && is_past (as_date now) (as_date g.due_date))
                gaps)
        × ((file_gaps gaps).expiring_soon
            ≡ select
                (λ g.
                  g.status == "accepted_exception"
                  && is_near soon_days (as_date now) (as_date g.due_date))
                gaps)
  unfolding file_gaps
  deadlines_lem [] = (refl, refl, refl)
  deadlines_lem (g ∷ gaps) =
      let (a, b, c) = deadlines_lem gaps in
      let (p, q, r) =
        file_gap_lem soon_days (as_date now) (as_date g.due_date) g (file_gaps gaps) in
      (p ∙ rw a refl, q ∙ rw b refl, r ∙ rw c refl)

-- `days_left`: whole days that have begun since the date, or that are left until it.
pub data DaysLeft : Type 0 where
  late : ℕ → DaysLeft
  left : ℕ → DaysLeft

abbrev pub days_left : ℕ → ℕ → DaysLeft
days_left now due =
    if ltb due now then late ((now - due + 86399) / 86400) else left ((due - now) / 86400)

-- `<` on `days_left`
unfoldable pub is_fewer : DaysLeft → DaysLeft → Bool
is_fewer (late m) (late n) = ltb n m
is_fewer (late m) (left n) = true
is_fewer (left m) (late n) = false
is_fewer (left m) (left n) = ltb m n

pub record DeadlineRow : Type 0 where
  pub gap : Gap
  pub days : DaysLeft

-- The row of a gap whose date, and the present one, can be read; it has no other one.
abbrev pub row_of : Option ℕ → Option ℕ → Gap → DeadlineRow
row_of (some now) (some due) g = record { gap = g; days = days_left now due }
row_of _ _ g = record { gap = g; days = left 0 }

-- `sort(key=days_left)`, which keeps the order of rows with the same number
unfoldable pub insert_row : DeadlineRow → List DeadlineRow → List DeadlineRow
unfolding is_fewer
insert_row r [] = r ∷ []
insert_row r (x ∷ xs) =
    let rest = insert_row r xs in if is_fewer x.days r.days then x ∷ rest else r ∷ x ∷ xs

unfoldable pub sort_rows : List DeadlineRow → List DeadlineRow
unfolding insert_row
sort_rows [] = []
sort_rows (r ∷ rs) = insert_row r (sort_rows rs)

pub record DeadlineReport : Type 0 where
  pub overdue : List DeadlineRow
  pub expired_exception : List DeadlineRow
  pub expiring_soon : List DeadlineRow
  pub counts : ℕ × ℕ × ℕ

module _ (as_date : String → Option ℕ) where
  unfoldable pub rows_of : String → List Gap → List DeadlineRow
  unfolding sort_rows
  rows_of now gaps = sort_rows (map (λ g. row_of (as_date now) (as_date g.due_date) g) gaps)

  unfoldable pub evaluate_gap_deadlines : String → ℕ → List Gap → DeadlineReport
  unfolding file_gaps rows_of
  evaluate_gap_deadlines now soon_days gaps =
      let d = file_gaps as_date now soon_days gaps in
      record {
        overdue = rows_of now d.overdue;
        expired_exception = rows_of now d.expired_exception;
        expiring_soon = rows_of now d.expiring_soon;
        counts = (length d.overdue, length d.expired_exception, length d.expiring_soon);
      }
