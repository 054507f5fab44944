-- ===== src/Gap/Deadlines/Sorted.antt =====
-- The lists of deadlines in their order.
use mori_soc.Prelude.{
  ltb, ltb→lt, ◌<◌, ◌≤◌, ◌-◌, ◌*◌, ◌+◌, Bool-cases, count_if, select, contains, All, ℕ, String, ◌≡◌,
  refl, ap, sym, ◌∙◌, Bool, true, false, ◌&&◌, inl, inr, Option, none, some, List, [], ◌∷◌, map,
  arith, ◌==◌,
}
use mathlib.Core.Path.{subst}
use mori_soc.Gap.{Gap}
use mori_soc.Gap.Deadlines.{
  DeadlineRow, DaysLeft, late, left, is_fewer, is_past, is_near, open_statuses, file_gaps,
  deadlines_lem, days_left, row_of, insert_row, sort_rows, rows_of, evaluate_gap_deadlines,
}

-- No row has fewer days left than one that stands before it.
abbrev pub IsOrdered : List DeadlineRow → Type 0
IsOrdered [] = Unit
IsOrdered (r ∷ rs) = All (λ (x : DeadlineRow). is_fewer x.days r.days ≡ false) rs × IsOrdered rs

-- `x ≤ y` and `y ≤ z` give `x ≤ z`.
fewer_trans :
    (x y z : DaysLeft) → is_fewer y x ≡ false → is_fewer z y ≡ false → is_fewer z x ≡ false
unfolding is_fewer
fewer_trans (late m) (late n) (late k) p q = ground (arith, p, q)
fewer_trans (late m) (late n) (left k) p q = refl
fewer_trans (late m) (left n) (late k) p q = cc
fewer_trans (late m) (left n) (left k) p q = refl
fewer_trans (left m) (late n) z p q = cc
fewer_trans (left m) (left n) (late k) p q = cc
fewer_trans (left m) (left n) (left k) p q = ground (arith, p, q)

fewer_asymm : (x y : DaysLeft) → is_fewer x y ≡ true → is_fewer y x ≡ false
unfolding is_fewer
fewer_asymm (late m) (late n) p = ground (arith, p)
fewer_asymm (late m) (left n) p = refl
fewer_asymm (left m) (late n) p = cc
fewer_asymm (left m) (left n) p = ground (arith, p)

All-later :
    (x r : DaysLeft) (rs : List DeadlineRow)
    → is_fewer x r ≡ false
    → All (λ (y : DeadlineRow). is_fewer y.days x ≡ false) rs
    → All (λ (y : DeadlineRow). is_fewer y.days r ≡ false) rs
All-later x r [] p h = tt
All-later x r (y ∷ rs) p h = (fewer_trans r x y.days p h.0, All-later x r rs p h.1)

insert_row-All :
    (P : DeadlineRow → Type 0) (r : DeadlineRow) (rs : List DeadlineRow)
    → P r
    → All P rs
    → All P (insert_row r rs)
unfolding insert_row
insert_row-All P r [] p h = (p, tt)
insert_row-All P r (x ∷ rs) p h = elim (Bool-cases (is_fewer x.days r.days)) [
  | inl e ↦ rw (e) ((h.0, insert_row-All P r rs p h.1))
  | inr e ↦ rw (e) ((p, h))
]

insert_row-IsOrdered :
    (r : DeadlineRow) (rs : List DeadlineRow) → IsOrdered rs → IsOrdered (insert_row r rs)
unfolding insert_row
insert_row-IsOrdered r [] h = (tt, tt)
insert_row-IsOrdered r (x ∷ rs) h = elim (Bool-cases (is_fewer x.days r.days)) [
  | inl e ↦ rw (e) (
      (
        insert_row-All (λ y. is_fewer y.days x.days ≡ false) r rs (fewer_asymm x.days r.days e) h.0,
        insert_row-IsOrdered r rs h.1,
      ))
  | inr e ↦ rw (e) (((e, All-later x.days r.days rs e h.0), h))
]

sort_rows-IsOrdered : (rs : List DeadlineRow) → IsOrdered (sort_rows rs)
unfolding sort_rows
sort_rows-IsOrdered [] = tt
sort_rows-IsOrdered (r ∷ rs) = insert_row-IsOrdered r (sort_rows rs) (sort_rows-IsOrdered rs)

count_if-insert_row :
    (q : DeadlineRow → Bool) (r : DeadlineRow) (rs : List DeadlineRow)
    → count_if q (insert_row r rs) ≡ count_if q (r ∷ rs)
unfolding insert_row
count_if-insert_row q r [] = refl
count_if-insert_row q r (x ∷ rs) = ground (arith, count_if-insert_row q r rs)

count_if-sort_rows :
    (q : DeadlineRow → Bool) (rs : List DeadlineRow) → count_if q (sort_rows rs) ≡ count_if q rs
unfolding sort_rows
count_if-sort_rows q [] = refl
count_if-sort_rows q (r ∷ rs) =
    ground (arith, count_if-insert_row q r (sort_rows rs), count_if-sort_rows q rs)

-- What `days` says of a due date, seen from the present one: that it was passed, with so many days begun
-- since, or that so many whole days are left until it.
abbrev pub Says : ℕ → ℕ → DaysLeft → Type 0
Says now due (late n) = (due < now) × (now - due ≤ n * 86400) × (n * 86400 < now - due + 86400)
Says now due (left n) = (now ≤ due) × (n * 86400 ≤ due - now) × (due - now < n * 86400 + 86400)

days_left-Says : (now due : ℕ) → Says now due (days_left now due)
days_left-Says now due = elim (Bool-cases (ltb due now)) [
  | inl e ↦
      rw (e) (ltb→lt due now e, omega (arith, ltb→lt due now e), omega (arith, ltb→lt due now e))
  | inr e ↦ let ahead : now ≤ due = ground (arith, e) in rw (e) (ahead, omega arith, omega arith)
]

-- Of two dates, the one with no fewer days left is not a day or more before the other.
later-due :
    (now d e : ℕ) (x y : DaysLeft)
    → Says now d x
    → Says now e y
    → is_fewer y x ≡ false
    → d < e + 86400
unfolding is_fewer
later-due now d e (late m) (late n) p q h =
    let le : n ≤ m = ground (arith, h) in omega (arith, p.0, p.1, p.2, q.0, q.1, q.2, le)
later-due now d e (late m) (left n) p q h = omega (arith, p.0, q.0)
later-due now d e (left m) (late n) p q h = cc
later-due now d e (left m) (left n) p q h =
    let le : m ≤ n = ground (arith, h) in omega (arith, p.0, p.1, p.2, q.0, q.1, q.2, le)

sort_rows-All : (P : DeadlineRow → Type 0) (rs : List DeadlineRow) → All P rs → All P (sort_rows rs)
unfolding sort_rows
sort_rows-All P [] h = tt
sort_rows-All P (r ∷ rs) h = insert_row-All P r (sort_rows rs) h.0 (sort_rows-All P rs h.1)

gap-row_of : (n d : Option ℕ) (g : Gap) → (row_of n d g).gap ≡ g
gap-row_of none d g = refl
gap-row_of (some n) none g = refl
gap-row_of (some n) (some d) g = refl

module _ (as_date : String → Option ℕ) (now : String) where
  -- The days of a row are those from the present date to the due date of its gap.
  abbrev pub IsDated : DeadlineRow → Type 0
  IsDated r = (n d : ℕ) → as_date now ≡ some n → as_date r.gap.due_date ≡ some d → Says n d r.days

  -- The second row is due less than a day before the first one, or later.
  abbrev pub IsDueBy : DeadlineRow → DeadlineRow → Type 0
  IsDueBy r x =
      (n d e : ℕ)
      → as_date now ≡ some n
      → as_date r.gap.due_date ≡ some d
      → as_date x.gap.due_date ≡ some e
      → d < e + 86400

  abbrev pub InDueOrder : List DeadlineRow → Type 0
  InDueOrder [] = Unit
  InDueOrder (r ∷ rs) = All (IsDueBy r) rs × InDueOrder rs

  row_of-IsDated : (g : Gap) → IsDated (row_of (as_date now) (as_date g.due_date) g)
  row_of-IsDated g n d p q =
      let due : as_date g.due_date ≡ some d =
        ap (λ (x : Gap). as_date x.due_date) (sym (gap-row_of (as_date now) (as_date g.due_date) g))
        ∙ q in
      rw (p, due) (days_left-Says n d)

  rows-IsDated :
      (gaps : List Gap) → All IsDated (map (λ g. row_of (as_date now) (as_date g.due_date) g) gaps)
  rows-IsDated [] = tt
  rows-IsDated (g ∷ gaps) = (row_of-IsDated g, rows-IsDated gaps)

  rest-IsDueBy :
      (r : DeadlineRow) (rs : List DeadlineRow)
      → IsDated r
      → All IsDated rs
      → All (λ (x : DeadlineRow). is_fewer x.days r.days ≡ false) rs
      → All (IsDueBy r) rs
  rest-IsDueBy r [] p h o = tt
  rest-IsDueBy r (x ∷ rs) p h o = (
    λ n d e a b c. later-due n d e r.days x.days (p n d a b) (h.0 n e a c) o.0,
    rest-IsDueBy r rs p h.1 o.1,
  )

  ordered-InDueOrder : (rs : List DeadlineRow) → All IsDated rs → IsOrdered rs → InDueOrder rs
  ordered-InDueOrder [] h o = tt
  ordered-InDueOrder (r ∷ rs) h o = (rest-IsDueBy r rs h.0 h.1 o.0, ordered-InDueOrder rs h.1 o.1)

  -- The rows tell the days until their gaps are due and are in the order of these days, so that no row is due
  -- a day or more before one in front of it; each test that gaps may pass is passed by as many rows as gaps.
  pub record Lists (q : Gap → Bool) (gaps : List Gap) (rows : List DeadlineRow) : Type 0 where
    pub dated : All IsDated rows
    pub ordered : IsOrdered rows
    pub in_due_order : InDueOrder rows
    pub same : count_if (λ (r : DeadlineRow). q r.gap) rows ≡ count_if q gaps

module _ (as_date : String → Option ℕ) (now : String) (q : Gap → Bool) where
  count_if-rows :
      (gaps : List Gap)
      → count_if
          (λ (r : DeadlineRow). q r.gap)
          (map (λ g. row_of (as_date now) (as_date g.due_date) g) gaps)
        ≡ count_if q gaps
  count_if-rows [] = refl
  count_if-rows (g ∷ gaps) =
      rw (gap-row_of (as_date now) (as_date g.due_date) g, count_if-rows gaps) refl

  rows_of-Lists : (gaps : List Gap) → Lists as_date now q gaps (rows_of as_date now gaps)
  unfolding rows_of
  rows_of-Lists gaps =
      let rows = map (λ g. row_of (as_date now) (as_date g.due_date) g) gaps in
      let dated = sort_rows-All (IsDated as_date now) rows (rows-IsDated as_date now gaps) in
      record {
        dated = dated;
        ordered = sort_rows-IsOrdered rows;
        in_due_order =
            ordered-InDueOrder as_date now (sort_rows rows) dated (sort_rows-IsOrdered rows);
        same = count_if-sort_rows (λ (r : DeadlineRow). q r.gap) rows ∙ count_if-rows gaps;
      }

  -- The overdue rows are those of the open gaps whose date is past, the expired exceptions those of the
  -- accepted exceptions whose date is past, and the ones that expire soon those of the accepted exceptions
  -- whose date is not past and at most the given number of days away: each list has as many rows that pass
  -- any test as there are such gaps. Each row tells the whole days until its due date, or the days begun
  -- since, and a list stands in the order of the days left, so that no row is due a day or more before a
  -- row in front of it.
  pub deadlines-Lists :
      (soon_days : ℕ) (gaps : List Gap)
      → let r = evaluate_gap_deadlines as_date now soon_days gaps in
        Lists as_date now q
          (select
            (λ g. contains open_statuses g.status && is_past (as_date now) (as_date g.due_date))
            gaps)
          r.overdue
        × Lists as_date now q
            (select
              (λ g. g.status == "accepted_exception" && is_past (as_date now) (as_date g.due_date))
              gaps)
            r.expired_exception
        × Lists as_date now q
            (select
              (λ g.
                g.status == "accepted_exception"
                && is_near soon_days (as_date now) (as_date g.due_date))
              gaps)
            r.expiring_soon
  unfolding evaluate_gap_deadlines
  deadlines-Lists soon_days gaps =
      let d = file_gaps as_date now soon_days gaps in
      let (a, b, c) = deadlines_lem as_date now soon_days gaps in
      (
        subst (λ xs. Lists as_date now q xs (rows_of as_date now d.overdue)) a
            (rows_of-Lists d.overdue),
        subst (λ xs. Lists as_date now q xs (rows_of as_date now d.expired_exception)) b
            (rows_of-Lists d.expired_exception),
        subst (λ xs. Lists as_date now q xs (rows_of as_date now d.expiring_soon)) c
            (rows_of-Lists d.expiring_soon),
      )
