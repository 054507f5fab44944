-- ===== src/Soa/Rows.antt =====
-- What a statement of applicability says of the controls.
use mathlib.Core.Path.{subst}
use mori_soc.Prelude.{
  ◌&&◌, ap, suc, if◌then◌else◌, Bool-cases, length, count_if, or_text, strip, All, ◌+◌, ◌≤◌, String,
  ◌≡◌, refl, ◌∙◌, Bool, true, false, not, inl, inr, List, [], ◌∷◌, ◌==◌, eq_iff, arith,
}
use mori_soc.Prelude.Dict.{Dict, get, or_value}
use mori_soc.Soa.{
  Control, ControlStatus, SoaRow, impl_en, not_applicable, no_status, justify, soa_row, is_iso,
  rows_of, insert_row, sort_rows, sort_key, key_lt, build_soa_rows, soa_summary,
}

-- A row has a justification, and its control is excluded exactly if it is marked so; an implemented control
-- is an applicable one.
pub record IsDeclared (r : SoaRow) : Type 0 where
  pub justified : (r.justification == "") ≡ false
  pub excluded : (r.impl_status == "N/A") ≡ not r.applicable
  pub implemented : (r.impl_status == "Implemented") ≡ true → r.applicable ≡ true

or_text_some : (a b : String) → (b == "") ≡ false → (or_text a b == "") ≡ false
or_text_some a b h = elim (Bool-cases (a == "")) [ inl p ↦ rw (p) h | inr q ↦ rw (q) q ]

justify_some : (a : Bool) (reason : String) (c : Control) → (justify a reason c == "") ≡ false
justify_some false reason c = or_text_some reason "Not applicable to the scope." refl
justify_some true reason c =
    let adopted = or_text_some c.intent_ko "Adopted as a baseline control." refl in
    or_text_some reason (or_text c.intent_en (or_text c.intent_ko "Adopted as a baseline control."))
      (or_text_some c.intent_en (or_text c.intent_ko "Adopted as a baseline control.") adopted)

abbrev status_text : String → String
unfolding get
status_text raw =
    or_value (get impl_en raw) (if not (raw == not_applicable) then "Planned" else "N/A")

-- The status that a text stands for says whether the control is excluded.
abbrev Says : String → Type 0
Says raw =
    ((status_text raw == "N/A") ≡ not (not (raw == not_applicable)))
    × ((status_text raw == "Implemented") ≡ true → not (raw == not_applicable) ≡ true)

==_comm : (s t : String) → (s == t) ≡ (t == s)
==_comm s t = ground (arith, eq_iff s t, eq_iff t s)

unlisted-Says :
    (raw : String)
    → ("이행" == raw) ≡ false
    → ("부분이행" == raw) ≡ false
    → ("미이행" == raw) ≡ false
    → ("미정" == raw) ≡ false
    → (not_applicable == raw) ≡ false
    → Says raw
unfolding get
unlisted-Says raw a b c d e = rw (a, b, c, d, e, ==_comm raw not_applicable ∙ e) (refl, λ h. refl)

-- A text is a key, or it differs from it.
at_key : (k raw : String) → Says k → ((k == raw) ≡ false → Says raw) → Says raw
at_key k raw here elsewhere = elim (Bool-cases (k == raw)) [
  | inl e ↦ subst Says ((eq_iff k raw).0 e) here
  | inr e ↦ elsewhere e
]

status-Says : (raw : String) → Says raw
unfolding get
status-Says raw =
    at_key "이행" raw (refl, λ h. refl)
      (λ a.
        at_key "부분이행" raw (refl, λ h. refl)
          (λ b.
            at_key "미이행" raw (refl, λ h. refl)
              (λ c.
                at_key "미정" raw (refl, λ h. refl)
                  (λ d.
                    at_key not_applicable raw (refl, λ h. h) (λ e. unlisted-Says raw a b c d e)))))

soa_row-IsDeclared : (c : Control) (st : ControlStatus) → IsDeclared (soa_row c st)
unfolding soa_row
soa_row-IsDeclared c st =
    let raw = strip st.status in
    record {
      justified = justify_some (not (raw == not_applicable)) (strip st.exception_reason) c;
      excluded = (status-Says raw).0;
      implemented = (status-Says raw).1;
    }

rows_of-IsDeclared :
    (status_map : Dict ControlStatus) (cs : List Control) → All IsDeclared (rows_of status_map cs)
unfolding rows_of
rows_of-IsDeclared status_map [] = tt
rows_of-IsDeclared status_map (c ∷ cs) =
    let rest = rows_of-IsDeclared status_map cs in
    elim (Bool-cases (is_iso c)) [
      | inl e ↦ rw (e) ((soa_row-IsDeclared c (or_value (get status_map c.id) no_status), rest))
      | inr e ↦ rw (e) rest
    ]

length-rows_of :
    (status_map : Dict ControlStatus) (cs : List Control)
    → length (rows_of status_map cs) ≡ count_if is_iso cs
unfolding rows_of
length-rows_of status_map [] = refl
length-rows_of status_map (c ∷ cs) = ground (arith, length-rows_of status_map cs)

insert_row-All {κ} :
    (P : SoaRow → Type κ) (r : SoaRow) (xs : List SoaRow)
    → P r
    → All P xs
    → All P (insert_row r xs) × (length (insert_row r xs) ≡ suc (length xs))
unfolding insert_row
insert_row-All P r [] p h = ((p, tt), refl)
insert_row-All P r (x ∷ xs) p h =
    let rest = insert_row-All P r xs p h.1 in
    elim (Bool-cases (key_lt (sort_key x.id) (sort_key r.id))) [
      | inl e ↦ rw (e) (((h.0, rest.0), ap suc rest.1))
      | inr e ↦ rw (e) (((p, h), refl))
    ]

sort_rows-All {κ} :
    (P : SoaRow → Type κ) (xs : List SoaRow)
    → All P xs
    → All P (sort_rows xs) × (length (sort_rows xs) ≡ length xs)
unfolding sort_rows
sort_rows-All P [] h = (tt, refl)
sort_rows-All P (x ∷ xs) h =
    let rest = sort_rows-All P xs h.1 in
    let all = insert_row-All P x (sort_rows xs) h.0 rest.0 in (all.0, all.1 ∙ ap suc rest.1)

count_if-not :
    (rows : List SoaRow)
    → count_if (λ (r : SoaRow). r.applicable) rows
        + count_if (λ (r : SoaRow). not r.applicable) rows
      ≡ length rows
count_if-not [] = refl
count_if-not (r ∷ rows) = ground (arith, count_if-not rows)

implemented-le :
    (rows : List SoaRow)
    → All IsDeclared rows
    → count_if (λ (r : SoaRow). r.impl_status == "Implemented") rows
      ≤ count_if (λ (r : SoaRow). r.applicable) rows
implemented-le [] h = omega arith
implemented-le (r ∷ rows) h = ground (arith, h.0.implemented, implemented-le rows h.1)

count_if-insert_row :
    (q : SoaRow → Bool) (r : SoaRow) (xs : List SoaRow)
    → count_if q (insert_row r xs) ≡ count_if q (r ∷ xs)
unfolding insert_row
count_if-insert_row q r [] = refl
count_if-insert_row q r (x ∷ xs) = ground (arith, count_if-insert_row q r xs)

count_if-sort_rows :
    (q : SoaRow → Bool) (xs : List SoaRow) → count_if q (sort_rows xs) ≡ count_if q xs
unfolding sort_rows
count_if-sort_rows q [] = refl
count_if-sort_rows q (x ∷ xs) =
    ground (arith, count_if-insert_row q x (sort_rows xs), count_if-sort_rows q xs)

-- A test of the id, the title, the evidence sources and the applicability, on a row; and on a control of ISO
-- 27001, which the status noted under its id may exclude.
module _ (q : String → String → List String → Bool → Bool) where
  abbrev pub row_passes : SoaRow → Bool
  row_passes r = q r.id r.title r.evidence_sources r.applicable

  abbrev pub control_passes : Dict ControlStatus → Control → Bool
  control_passes status_map c =
      is_iso c
      && q c.id (or_text c.title_en c.title_ko) c.evidence_sources
          (not (strip (or_value (get status_map c.id) no_status).status == not_applicable))

  count_if-rows_of :
      (status_map : Dict ControlStatus) (cs : List Control)
      → count_if row_passes (rows_of status_map cs) ≡ count_if (control_passes status_map) cs
  unfolding rows_of soa_row
  count_if-rows_of status_map [] = refl
  count_if-rows_of status_map (c ∷ cs) = elim (Bool-cases (is_iso c)) [
    | inl e ↦ rw (e, count_if-rows_of status_map cs) refl
    | inr e ↦ rw (e) (count_if-rows_of status_map cs)
  ]

-- The statement has one row for each control of ISO 27001: as many rows as controls pass any test of the id,
-- the title, the evidence sources and whether the status noted under the id does not exclude the control.
-- Each row has a justification and has "N/A" exactly if its control is excluded; in the summary the
-- applicable and the excluded controls add up to all of them, and no more are implemented than are
-- applicable.
pub build_soa_rows-IsDeclared :
    (controls : List Control) (status_map : Dict ControlStatus)
    (q : String → String → List String → Bool → Bool)
    → let rows = build_soa_rows controls status_map in
      let s = soa_summary rows in
      (count_if (row_passes q) rows ≡ count_if (control_passes q status_map) controls)
      × All IsDeclared rows
      × (s.total ≡ count_if is_iso controls)
      × (s.applicable + s.excluded ≡ s.total)
      × (s.implemented ≤ s.applicable)
unfolding build_soa_rows soa_summary
build_soa_rows-IsDeclared controls status_map q =
    let found = rows_of status_map controls in
    let sorted = sort_rows-All IsDeclared found (rows_of-IsDeclared status_map controls) in
    (
      count_if-sort_rows (row_passes q) found ∙ count_if-rows_of q status_map controls,
      sorted.0,
      sorted.1 ∙ length-rows_of status_map controls,
      count_if-not (sort_rows found),
      implemented-le (sort_rows found) sorted.0,
    )
