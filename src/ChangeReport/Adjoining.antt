-- ===== src/ChangeReport/Adjoining.antt =====
-- The reports of two adjoining periods add up to the report of both.
use mori_soc.Prelude.{
  eqb, Bool-cases, length, select, count_if, length-select, count_if-append, length-map, or_text,
  text_le, text_lt_le_trans, ℕ, ◌+◌, String, ◌≡◌, refl, ◌∙◌, inl, inr, Bool, true, false, ◌&&◌,
  ◌||◌, some, List, [], ◌∷◌, map, arith, ◌==◌,
}
use mori_soc.Prelude.Dict.{get}
use mori_soc.Prelude.Tally.{tally_onto, count_of, count_of-tally_onto}
use mori_soc.Gap.{Gap, Step}
use mori_soc.Approval.{Approval}
use mori_soc.ChangeReport.{
  first_of_month, with_gap, bounds_of, next_month, is_in, EvidenceStamp, is_new, is_transition,
  transitions, gap_row, goes_to, ChangeReport, build_evidence_change_report,
}

abbrev Splits {ℓ} : {A : Type ℓ} → (A → Bool) → (A → Bool) → (A → Bool) → Type ℓ
Splits {A} p q r = (x : A) → (p x ≡ (q x || r x)) × ((q x && r x) ≡ false)

-- A time of the whole period is in one of the two parts.
is_in-Splits :
    (a b c : String)
    → text_le a b ≡ true
    → text_le b c ≡ true
    → Splits (is_in a c) (is_in a b) (is_in b c)
unfolding is_in
is_in-Splits a b c ab bc s = ground (arith, text_lt_le_trans s a b, text_lt_le_trans s b c)

module _ {ℓ} {A : Type ℓ} (p q r : A → Bool) (h : Splits p q r) where
  count_if-Splits : (xs : List A) → count_if p xs ≡ count_if q xs + count_if r xs
  count_if-Splits [] = omega arith
  count_if-Splits (x ∷ xs) = ground (arith, h x, count_if-Splits xs)

  select-Splits : (xs : List A) → length (select p xs) ≡ length (select q xs) + length (select r xs)
  select-Splits xs =
      omega (arith, length-select p xs, length-select q xs, length-select r xs, count_if-Splits xs)

  and-Splits : (g : A → Bool) → Splits (λ x. p x && g x) (λ x. q x && g x) (λ x. r x && g x)
  and-Splits g x = ground (arith, h x)

module _ {ℓ κ} {A : Type ℓ} {B : Type κ} (p : A → Bool) (key : A → B) where
  count_if-map-select :
      (g : B → Bool) (xs : List A)
      → count_if g (map key (select p xs)) ≡ count_if (λ x. p x && g (key x)) xs
  count_if-map-select g [] = refl
  count_if-map-select g (x ∷ xs) = ground (arith, count_if-map-select g xs)

module _ {ℓ} {A : Type ℓ} (p : A → Bool) (key : A → String) where
  -- How often a key is counted.
  count_of-select :
      (k : String) (xs : List A)
      → count_of (tally_onto [] (map key (select p xs))) k ≡ count_if (λ x. p x && key x == k) xs
  unfolding get
  count_of-select k xs = omega (
    arith,
    count_of-tally_onto [] (map key (select p xs)) k,
    count_if-map-select p key (λ j. j == k) xs,
  )

module _ {ℓ} {A : Type ℓ} (p q r : A → Bool) (h : Splits p q r) (key : A → String) where
  tally-Splits :
      (k : String) (xs : List A)
      → count_of (tally_onto [] (map key (select p xs))) k
        ≡ count_of (tally_onto [] (map key (select q xs))) k
          + count_of (tally_onto [] (map key (select r xs))) k
  tally-Splits k xs = omega (
    arith,
    count_of-select p key k xs,
    count_of-select q key k xs,
    count_of-select r key k xs,
    count_if-Splits (λ x. p x && key x == k) (λ x. q x && key x == k) (λ x. r x && key x == k)
        (and-Splits p q r h (λ x. key x == k)) xs,
  )

count_if-map {ℓ κ} :
    {A : Type ℓ} {B : Type κ} (g : B → Bool) (f : A → B) (xs : List A)
    → count_if g (map f xs) ≡ count_if (λ x. g (f x)) xs
count_if-map g f [] = refl
count_if-map g f (x ∷ xs) = ground (arith, count_if-map g f xs)

moves_to :
    (start end k : String) (gaps : List Gap)
    → count_of (tally_onto [] (map (λ (m : Gap × Step). m.1.to) (transitions start end gaps))) k
      ≡ count_if (goes_to k) (transitions start end gaps)
unfolding get
moves_to start end k gaps = omega (
  arith,
  count_of-tally_onto [] (map (λ (m : Gap × Step). m.1.to) (transitions start end gaps)) k,
  count_if-map (λ j. j == k) (λ (m : Gap × Step). m.1.to) (transitions start end gaps),
)

rows_of :
    (start end k : String) (gaps : List Gap)
    → length (map gap_row (select (goes_to k) (transitions start end gaps)))
      ≡ count_if (goes_to k) (transitions start end gaps)
rows_of start end k gaps =
    length-map gap_row (select (goes_to k) (transitions start end gaps))
    ∙ length-select (goes_to k) (transitions start end gaps)

-- Each count of the third report, at a key of the dicts, is the sum of the other two's.
pub record AddUp (k : String) (x y z : ChangeReport) : Type 0 where
  pub evidence : z.new_evidence_count ≡ x.new_evidence_count + y.new_evidence_count
  pub by_control :
      count_of z.new_evidence_by_control k
      ≡ count_of x.new_evidence_by_control k + count_of y.new_evidence_by_control k
  pub by_status :
      count_of z.approvals_by_status k
      ≡ count_of x.approvals_by_status k + count_of y.approvals_by_status k
  pub gaps : z.new_gap_count ≡ x.new_gap_count + y.new_gap_count
  pub moves :
      count_of z.gap_transitions k ≡ count_of x.gap_transitions k + count_of y.gap_transitions k
  pub resolved : length z.resolved_gaps ≡ length x.resolved_gaps + length y.resolved_gaps
  pub exceptions : length z.new_exceptions ≡ length x.new_exceptions + length y.new_exceptions

module _ (a b c : String) (ab : text_le a b ≡ true) (bc : text_le b c ≡ true) where
  is_transition-Splits : Splits (is_transition a c) (is_transition a b) (is_transition b c)
  is_transition-Splits h = ground (arith, is_in-Splits a b c ab bc h.ts)

  transitions-Splits :
      (g : Gap × Step → Bool) (gaps : List Gap)
      → count_if g (transitions a c gaps)
        ≡ count_if g (transitions a b gaps) + count_if g (transitions b c gaps)
  unfolding transitions
  transitions-Splits g [] = omega arith
  transitions-Splits g (x ∷ gaps) =
      let of =
        λ (start end : String). map (with_gap x) (select (is_transition start end) x.history) in
      omega (
        arith,
        transitions-Splits g gaps,
        count_if-append g (of a c) (transitions a c gaps),
        count_if-append g (of a b) (transitions a b gaps),
        count_if-append g (of b c) (transitions b c gaps),
        count_if-map-select (is_transition a c) (with_gap x) g x.history,
        count_if-map-select (is_transition a b) (with_gap x) g x.history,
        count_if-map-select (is_transition b c) (with_gap x) g x.history,
        count_if-Splits (λ h. is_transition a c h && g (with_gap x h))
            (λ h. is_transition a b h && g (with_gap x h))
            (λ h. is_transition b c h && g (with_gap x h))
            (and-Splits (is_transition a c) (is_transition a b) (is_transition b c)
              is_transition-Splits (λ h. g (with_gap x h)))
            x.history,
      )

  -- The reports of two periods, of which one ends where the other begins, add up to the report of both:
  -- the new evidence, in all and of each control, the approvals of each status, the new gaps, the
  -- transitions to each state, and the gaps that were resolved or accepted as exceptions.
  pub reports-AddUp :
      (k : String) (evidence : List EvidenceStamp) (approvals : List Approval) (gaps : List Gap)
      → AddUp k
          (build_evidence_change_report a b evidence approvals gaps)
          (build_evidence_change_report b c evidence approvals gaps)
          (build_evidence_change_report a c evidence approvals gaps)
  unfolding build_evidence_change_report
  reports-AddUp k evidence approvals gaps =
      let fresh : Splits (is_new a c) (is_new a b) (is_new b c) =
        λ e. is_in-Splits a b c ab bc (or_text e.generated_at e.created_at) in
      let approved : Splits (λ (x : Approval). is_in a c x.created_at)
          (λ (x : Approval). is_in a b x.created_at) (λ (x : Approval). is_in b c x.created_at) =
        λ x. is_in-Splits a b c ab bc x.created_at in
      let made : Splits (λ (x : Gap). is_in a c x.created_at) (λ (x : Gap). is_in a b x.created_at)
          (λ (x : Gap). is_in b c x.created_at) =
        λ x. is_in-Splits a b c ab bc x.created_at in
      record {
        evidence = select-Splits (is_new a c) (is_new a b) (is_new b c) fresh evidence;
        by_control =
            tally-Splits (is_new a c) (is_new a b) (is_new b c) fresh
              (λ (e : EvidenceStamp). e.control_id) k evidence;
        by_status =
            tally-Splits (λ (x : Approval). is_in a c x.created_at)
              (λ (x : Approval). is_in a b x.created_at) (λ (x : Approval). is_in b c x.created_at)
              approved (λ (x : Approval). or_text x.status "unknown") k approvals;
        gaps =
            select-Splits (λ (x : Gap). is_in a c x.created_at)
              (λ (x : Gap). is_in a b x.created_at) (λ (x : Gap). is_in b c x.created_at) made gaps;
        moves = omega (
          arith,
          moves_to a b k gaps,
          moves_to b c k gaps,
          moves_to a c k gaps,
          transitions-Splits (goes_to k) gaps,
        );
        resolved = omega (
          arith,
          rows_of a b "resolved" gaps,
          rows_of b c "resolved" gaps,
          rows_of a c "resolved" gaps,
          transitions-Splits (goes_to "resolved") gaps,
        );
        exceptions = omega (
          arith,
          rows_of a b "accepted_exception" gaps,
          rows_of b c "accepted_exception" gaps,
          rows_of a c "accepted_exception" gaps,
          transitions-Splits (goes_to "accepted_exception") gaps,
        );
      }

-- A month ends where the next one begins.
bounds_of-next :
    (year month : ℕ) (a b : String)
    → bounds_of year month ≡ some (a, b)
    → (c : String) × (bounds_of (next_month year month).0 (next_month year month).1 ≡ some (b, c))
bounds_of-next year month a b h =
    let (y, m) = next_month year month in
    (
      first_of_month (next_month y m).0 (next_month y m).1,
      elim (Bool-cases (eqb month 12)) [ inl last ↦ ground arith | inr inner ↦ ground arith ],
    )
