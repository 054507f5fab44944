-- ===== src/Tests/Dues.antt =====
-- The deadlines of three gaps.
use mori_soc.Prelude.{
  select, map, contains, read_int, ℕ, ◌*◌, String, ◌<>◌, ◌≡◌, refl, Bool, ◌&&◌, Option, none, some,
  List, [], ◌∷◌, ◌==◌,
}
use mori_soc.Gap.{Gap, build_gap}
use mori_soc.Gap.Deadlines.{open_statuses, is_past, is_near, evaluate_gap_deadlines, DeadlineRow}
use mori_soc.Gap.Deadlines.Sorted.{Lists, deadlines-Lists}

abbrev joined : String → List String → String
joined prefix [] = prefix
joined prefix (p ∷ ps) = joined (prefix <> "|" <> p) ps

abbrev seconds_of : Option ℕ → Option ℕ
seconds_of none = none
seconds_of (some n) = some (n * 86400)

-- A date is the number of a day.
abbrev day_of : String → Option ℕ
unfolding read_int
day_of s = seconds_of (read_int s)

abbrev due_on : String → String → Gap
due_on key date = record (build_gap joined "scan" "2.10.8" key "Old kernel" "" "1" "system") {
  due_date = date;
}

abbrev gaps : List Gap
gaps = due_on "CVE-1" "8" ∷ due_on "CVE-2" "soon" ∷ due_on "CVE-3" "3" ∷ []

the_latest_comes_first :
    map (λ (r : DeadlineRow). r.gap.key) (evaluate_gap_deadlines day_of "10" 14 gaps).overdue
    ≡ "CVE-3" ∷ "CVE-1" ∷ []
unfolding evaluate_gap_deadlines build_gap read_int
the_latest_comes_first = refl

-- Any test on gaps; here, whether one is a candidate.
abbrev is_candidate : Gap → Bool
is_candidate g = g.status == "candidate"

deadlines-Lists_example :
    Lists day_of "10" is_candidate
      (select
        (λ g. contains open_statuses g.status && is_past (day_of "10") (day_of g.due_date))
        gaps)
      (evaluate_gap_deadlines day_of "10" 14 gaps).overdue
    × Lists day_of "10" is_candidate
        (select
          (λ g. g.status == "accepted_exception" && is_past (day_of "10") (day_of g.due_date))
          gaps)
        (evaluate_gap_deadlines day_of "10" 14 gaps).expired_exception
    × Lists day_of "10" is_candidate
        (select
          (λ g. g.status == "accepted_exception" && is_near 14 (day_of "10") (day_of g.due_date))
          gaps)
        (evaluate_gap_deadlines day_of "10" 14 gaps).expiring_soon
deadlines-Lists_example = deadlines-Lists day_of "10" is_candidate 14 gaps
