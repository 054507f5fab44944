-- ===== src/Soa/Table.antt =====
-- The statement of applicability as a CSV table.
use mori_soc.Prelude.{All, ℕ, String, ◌≡◌, refl, List, [], ◌∷◌, map, some, true}
use mori_soc.Csv.Format.{read_rows}
use mori_soc.Csv.Export.{Cell, defused}
use mori_soc.Csv.RoundTrip.{Fits, read_rows-write_rows}
use mori_soc.Csv.Cells.{IsInert, is_text, defused-IsInert}
use mori_soc.Soa.{SoaRow, soa_header, soa_cells, soa_to_csv}

-- The fields of the table, with its header first.
abbrev pub soa_fields : List SoaRow → List (List String)
soa_fields rows = map (λ r. map defused r) (soa_header ∷ map soa_cells rows)

texts-IsInert :
    (cs : List Cell) → All (λ (c : Cell). is_text c ≡ true) cs → All IsInert (map defused cs)
texts-IsInert [] h = tt
texts-IsInert (c ∷ cs) h = (defused-IsInert c h.0, texts-IsInert cs h.1)

cells-IsInert : (r : SoaRow) → All IsInert (map defused (soa_cells r))
unfolding soa_cells
cells-IsInert r =
    texts-IsInert (soa_cells r) (refl, (refl, (refl, (refl, (refl, (refl, (refl, (refl, tt))))))))

rows-IsInert :
    (rows : List SoaRow) → All (All IsInert) (map (λ r. map defused r) (map soa_cells rows))
rows-IsInert [] = tt
rows-IsInert (r ∷ rows) = (cells-IsInert r, rows-IsInert rows)

-- The CSV file of a statement of applicability, read back, is the table of its rows under the header, and
-- no field of it is a formula, if no field is longer than the limit of the reader.
pub soa_to_csv-IsInert :
    (limit : ℕ) (rows : List SoaRow)
    → All (Fits limit) (soa_fields rows)
    → (read_rows limit (soa_to_csv rows) ≡ some (soa_fields rows))
      × All (All IsInert) (soa_fields rows)
unfolding soa_to_csv
soa_to_csv-IsInert limit rows fits = (
  read_rows-write_rows limit (soa_fields rows) fits,
  (
    texts-IsInert soa_header (refl, (refl, (refl, (refl, (refl, (refl, (refl, (refl, tt)))))))),
    rows-IsInert rows,
  ),
)
