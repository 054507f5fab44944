-- ===== src/Csv/Cells.antt =====
-- What a spreadsheet finds in an exported table.
use mori_soc.Prelude.{
  Bool-cases, All, ℕ, String, ◌≡◌, refl, inl, inr, Bool, true, false, not, ◌&&◌, some, List, [],
  ◌∷◌, map, arith,
}
use mori_soc.Prelude.Dict.{Dict, get, or_value, keys, values}
use mori_soc.Csv.Format.{read_rows}
use mori_soc.Csv.Export.{
  Cell, looks_numeric, starts_formula, defuse_text, defuse, defused, row_fields, render_csv,
  missing, text, other,
}
use mori_soc.Csv.RoundTrip.{Fits, read_rows-write_rows}

-- A field that is no formula: it is a number, or starts with none of the trigger characters.
abbrev pub IsInert : String → Type 0
IsInert s = (starts_formula s && not (looks_numeric s)) ≡ false

-- A cell whose value is a text, or is missing.
abbrev pub is_text : Cell → Bool
is_text (other _) = false
is_text _ = true

defuse_text-IsInert : (s : String) → IsInert (defuse_text s)
defuse_text-IsInert s = elim (Bool-cases (starts_formula s && not (looks_numeric s))) [
  | inl e ↦ rw (e) refl
  | inr e ↦ rw (e) e
]

pub defused-IsInert : (c : Cell) → is_text c ≡ true → IsInert (defused c)
unfolding defuse
defused-IsInert missing h = refl
defused-IsInert (text s) h = defuse_text-IsInert s
defused-IsInert (other s) h = cc

abbrev pub Texts : Dict Cell → Type 0
Texts [] = Unit
Texts ((k, c) ∷ row) = (is_text c ≡ true) × Texts row

get-Texts :
    (row : Dict Cell) (k : String) → Texts row → is_text (or_value (get row k) missing) ≡ true
unfolding get
get-Texts [] k h = refl
get-Texts ((j, c) ∷ row) k h = ground (arith, get-Texts row k h.1)

fields-All :
    (ks : List String) (row : Dict Cell)
    → Texts row
    → All IsInert (map (λ k. defused (or_value (get row k) missing)) ks)
fields-All [] row h = tt
fields-All (k ∷ ks) row h =
    (defused-IsInert (or_value (get row k) missing) (get-Texts row k h), fields-All ks row h)

rows-All :
    (header_map : Dict String) (rows : List (Dict Cell))
    → All Texts rows
    → All (All IsInert) (map (row_fields header_map) rows)
rows-All header_map [] h = tt
rows-All header_map (row ∷ rows) h =
    (fields-All (keys header_map) row h.0, rows-All header_map rows h.1)

-- The file that is exported reads back as the header and one row of fields for each row, if no field is
-- longer than the reader's limit; and where the cells are texts, none of these fields is a formula: each
-- is a number or starts with no character that makes a spreadsheet run it.
pub render_csv_lem :
    (limit : ℕ) (rows : List (Dict Cell)) (header_map : Dict String)
    → All (Fits limit) (values header_map ∷ map (row_fields header_map) rows)
    → All Texts rows
    → (read_rows limit (render_csv rows header_map)
        ≡ some (values header_map ∷ map (row_fields header_map) rows))
      × All (All IsInert) (map (row_fields header_map) rows)
unfolding render_csv
render_csv_lem limit rows header_map fits texts = (
  read_rows-write_rows limit (values header_map ∷ map (row_fields header_map) rows) fits,
  rows-All header_map rows texts,
)
