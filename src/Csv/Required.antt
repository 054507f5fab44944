-- ===== src/Csv/Required.antt =====
-- What an import lets through, and what it reports.
use mori_soc.Prelude.{
  Bool-cases, length, count_if, All, length-append, All-append, strip, ℕ, suc, ◌+◌, ◌≤◌, String,
  ◌<>◌, ◌≡◌, refl, sym, ◌⊎◌, inl, inr, Bool, true, false, not, Option, none, some, List, [], ◌∷◌,
  ◌++◌, arith, ◌==◌,
}
use mori_soc.Prelude.Dict.{Dict}
use mori_soc.Csv.Format.{read_rows}
use mori_soc.Csv.Import.{
  drop_bom, max_import_rows, alias_to_field, column_fields, any_some, record_of, value_in,
  all_blank, lacking, Imported, missing_message, take_row, is_full, import_rows, refused,
  import_table, parse_csv,
}

-- Every required field has a value.
abbrev pub HasRequired : List String → Dict String → Type 0
HasRequired required d = All (λ k. (value_in d k == "") ≡ false) required

abbrev pub Sound : ℕ → List String → Imported → Type 0
Sound cap required p = All (HasRequired required) p.rows × ((cap ≡ 0) ⊎ (length p.rows ≤ cap))

select-none :
    (required : List String) (d : Dict String) → lacking required d ≡ [] → HasRequired required d
select-none [] d h = tt
select-none (k ∷ ks) d h = elim (Bool-cases (value_in d k == "")) [
  | inl e ↦ absurd (cons-ne (rw e at h))
  | inr e ↦ (e, select-none ks d (rw e at h))
]
  where
    cons-ne : {x : String} {xs : List String} → (x ∷ xs) ≡ [] → ⊥
    cons-ne h = cc

take_row-Sound :
    (cap lineno : ℕ) (required : List String) (d : Dict String) (names : List String) (p : Imported)
    → names ≡ lacking required d
    → is_full cap p ≡ false
    → Sound cap required p
    → Sound cap required (take_row lineno required d names p)
take_row-Sound cap lineno required d [] p e room (rows, bound) = (
  All-append (HasRequired required) p.rows (d ∷ []) rows (select-none required d (sym e), tt),
  fits bound,
)
  where
    fits : (cap ≡ 0) ⊎ (length p.rows ≤ cap) → (cap ≡ 0) ⊎ (length (p.rows ++ d ∷ []) ≤ cap)
    fits (inl none_set) = inl none_set
    fits (inr within) = ground (arith, length-append p.rows (d ∷ []))
take_row-Sound cap lineno required d (k ∷ ks) p e room h = h

import_rows-Sound :
    (cap : ℕ) (required : List String) (columns : List (Option String)) (lineno : ℕ)
    (raws : List (List String)) (p : Imported)
    → Sound cap required p
    → Sound cap required (import_rows cap required columns lineno raws p)
unfolding import_rows
import_rows-Sound cap required columns lineno [] p h = h
import_rows-Sound cap required columns lineno (raw ∷ raws) p h = elim (Bool-cases (all_blank raw)) [
  | inl blank ↦
      rw (blank, import_rows) (import_rows-Sound cap required columns (lineno + 1) raws p h)
  | inr filled ↦ elim (Bool-cases (is_full cap p)) [
    | inl full ↦ rw (filled, full, import_rows) h
    | inr room ↦
        let d = record_of [] columns raw in
        let q = take_row lineno required d (lacking required d) p in
        rw (filled, room, import_rows)
          (import_rows-Sound cap required columns (lineno + 1) raws q
            (take_row-Sound cap lineno required d (lacking required d) p refl room h))
  ]
]

none_within : (cap : ℕ) → (cap ≡ 0) ⊎ (0 ≤ cap)
none_within cap = inr (omega arith)

import_table-Sound :
    (cap : ℕ) (field_aliases : Dict (List String)) (required : List String)
    (table : List (List String))
    → Sound cap required (import_table cap field_aliases required table)
unfolding import_table
import_table-Sound cap field_aliases required [] = (tt, none_within cap)
import_table-Sound cap field_aliases required (header ∷ raws) =
    let columns = column_fields (alias_to_field [] field_aliases) header in
    elim (Bool-cases (any_some columns)) [
      | inl some_column ↦ rw (some_column) (
          import_rows-Sound cap required columns 2 raws (record { rows = []; errors = [] })
            (tt, none_within cap))
      | inr no_column ↦ rw (no_column) (tt, none_within cap)
    ]

-- Whatever the text: each row that an import returns has a value in every required field, and there
-- are no more rows than the limit of the setting, if it sets one.
pub parse_csv-Sound :
    (limit : ℕ) (why : String) (env : Dict String) (body : String)
    (field_aliases : Dict (List String)) (required : List String)
    → Sound (max_import_rows env) required (parse_csv limit why env body field_aliases required)
unfolding parse_csv
parse_csv-Sound limit why env body field_aliases required =
    elim (Bool-cases (strip (drop_bom body) == "")) [
      | inl e ↦ rw (e) (tt, none_within (max_import_rows env))
      | inr e ↦ rw (e) (read (read_rows limit (drop_bom body)))
    ]
  where
    read :
        (table : Option (List (List String)))
        → Sound (max_import_rows env) required (elim table [
          | none ↦ refused ("CSV 파싱 실패: " <> why)
          | some rows ↦ import_table (max_import_rows env) field_aliases required rows
        ])
    read none = (tt, none_within (max_import_rows env))
    read (some rows) = import_table-Sound (max_import_rows env) field_aliases required rows

abbrev pub is_filled : List String → Bool
is_filled raw = not (all_blank raw)

not_full :
    (cap : ℕ) (p : Imported) (n : ℕ)
    → is_full cap p ≡ true
    → (cap ≡ 0) ⊎ (length p.rows + suc n ≤ cap)
    → ⊥
not_full cap p n full h = ground arith

still_room :
    (cap old new n : ℕ)
    → new ≤ old + 1
    → (cap ≡ 0) ⊎ (old + suc n ≤ cap)
    → (cap ≡ 0) ⊎ (new + n ≤ cap)
still_room cap old new n le (inl z) = inl z
still_room cap old new n le (inr h) = inr (omega (arith, le, h))

take_row-lengths :
    (lineno : ℕ) (required : List String) (d : Dict String) (names : List String) (p : Imported)
    → (length (take_row lineno required d names p).rows ≤ length p.rows + 1)
      × (length (take_row lineno required d names p).rows
            + length (take_row lineno required d names p).errors
          ≡ length p.rows + length p.errors + 1)
take_row-lengths lineno required d [] p = ground (arith, length-append p.rows (d ∷ []))
take_row-lengths lineno required d (k ∷ ks) p =
    ground (arith, length-append p.errors (missing_message lineno (k ∷ ks) ∷ []))

import_rows-counts :
    (cap : ℕ) (required : List String) (columns : List (Option String)) (lineno : ℕ)
    (raws : List (List String)) (p : Imported)
    → (cap ≡ 0) ⊎ (length p.rows + count_if is_filled raws ≤ cap)
    → length (import_rows cap required columns lineno raws p).rows
        + length (import_rows cap required columns lineno raws p).errors
      ≡ length p.rows + length p.errors + count_if is_filled raws
unfolding import_rows
import_rows-counts cap required columns lineno [] p h = omega arith
import_rows-counts cap required columns lineno (raw ∷ raws) p h =
    elim (Bool-cases (all_blank raw)) [
      | inl blank ↦
          rw (blank, import_rows)
            (import_rows-counts cap required columns (lineno + 1) raws p (rw blank at h))
      | inr filled ↦ elim (Bool-cases (is_full cap p)) [
        | inl full ↦ absurd (not_full cap p (count_if is_filled raws) full (rw (filled) at h))
        | inr room ↦
            let d = record_of [] columns raw in
            let q = take_row lineno required d (lacking required d) p in
            let (rows, both) = take_row-lengths lineno required d (lacking required d) p in
            let ih = import_rows-counts cap required columns (lineno + 1) raws q (
              still_room cap (length p.rows) (length q.rows) (count_if is_filled raws) rows
                (rw (filled) at h)) in
            rw (filled, room, import_rows) (omega (arith, ih, both))
      ]
    ]

-- Nothing is lost silently: below a header with a known column, and with no limit that the rows exceed,
-- every row that is not blank is either returned or reported, once.
pub import_table-counts :
    (cap : ℕ) (field_aliases : Dict (List String)) (required header : List String)
    (raws : List (List String))
    → any_some (column_fields (alias_to_field [] field_aliases) header) ≡ true
    → (cap ≡ 0) ⊎ (count_if is_filled raws ≤ cap)
    → length (import_table cap field_aliases required (header ∷ raws)).rows
        + length (import_table cap field_aliases required (header ∷ raws)).errors
      ≡ count_if is_filled raws
unfolding import_table
import_table-counts cap field_aliases required header raws known room = rw (known) (
    omega (
      arith,
      import_rows-counts cap required (column_fields (alias_to_field [] field_aliases) header) 2
          raws (record { rows = []; errors = [] }) (from_zero room),
    ))
  where
    from_zero :
        (cap ≡ 0) ⊎ (count_if is_filled raws ≤ cap)
        → (cap ≡ 0) ⊎ (0 + count_if is_filled raws ≤ cap)
    from_zero (inl z) = inl z
    from_zero (inr h) = inr (omega (arith, h))
