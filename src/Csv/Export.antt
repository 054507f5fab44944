-- ===== src/Csv/Export.antt =====
-- The export of a table: src/mori_soc/services/csv_export.py. A cell that is not a text is given by its
-- `str`; the environment is a dict.
use mori_soc.Prelude.{
  ltb, leb, eqb, if◌then◌else◌, length, take, contains, strip, lower, read_int, ℕ, String, ◌≡◌,
  refl, Bool, true, false, not, ◌&&◌, ◌||◌, List, [], ◌∷◌, map, ◌==◌,
}
use mori_soc.Prelude.Dict.{Dict, get, or_value, keys, values}
use mori_soc.Csv.Format.{is_comma, write_rows}
use Prim.Native.Char.{Char, code}

pub data Cell : Type 0 where
  missing : Cell
  text : String → Cell
  other : String → Cell

-- What `float` has read of a number.
pub data FloatMode : Type 0 where
  at_start : FloatMode
  at_digits : FloatMode
  whole : FloatMode
  whole_bar : FloatMode
  bare_point : FloatMode
  point : FloatMode
  fraction : FloatMode
  fraction_bar : FloatMode
  exponent : FloatMode
  exponent_sign : FloatMode
  power : FloatMode
  power_bar : FloatMode
  invalid : FloatMode

abbrev is_digit : Char → Bool
is_digit c = leb 48 (code c) && leb (code c) 57

abbrev is_point : Char → Bool
is_point c = eqb (code c) 46

abbrev is_bar : Char → Bool
is_bar c = eqb (code c) 95

abbrev is_sign : Char → Bool
is_sign c = eqb (code c) 43 || eqb (code c) 45

abbrev is_exponent : Char → Bool
is_exponent c = eqb (code c) 69 || eqb (code c) 101

abbrev number_start : Char → FloatMode
number_start c = if is_digit c then whole else if is_point c then bare_point else invalid

abbrev float_step : FloatMode → Char → FloatMode
float_step at_start c = if is_sign c then at_digits else number_start c
float_step at_digits c = number_start c
float_step whole c =
    if is_digit c
    then whole
    else if is_bar c
    then whole_bar
    else if is_point c
    then point
    else if is_exponent c
    then exponent
    else invalid
float_step whole_bar c = if is_digit c then whole else invalid
float_step bare_point c = if is_digit c then fraction else invalid
float_step point c = if is_digit c then fraction else if is_exponent c then exponent else invalid
float_step fraction c =
    if is_digit c
    then fraction
    else if is_bar c
    then fraction_bar
    else if is_exponent c
    then exponent
    else invalid
float_step fraction_bar c = if is_digit c then fraction else invalid
float_step exponent c = if is_digit c then power else if is_sign c then exponent_sign else invalid
float_step exponent_sign c = if is_digit c then power else invalid
float_step power c = if is_digit c then power else if is_bar c then power_bar else invalid
float_step power_bar c = if is_digit c then power else invalid
float_step invalid c = invalid

abbrev float_ends : FloatMode → Bool
float_ends whole = true
float_ends point = true
float_ends fraction = true
float_ends power = true
float_ends _ = false

float_from : FloatMode → String → Bool
float_from m String.[] = float_ends m
float_from m (String.◌∷◌ c s) = float_from (float_step m c) s

unsigned : String → String
unsigned String.[] = String.[]
unsigned (String.◌∷◌ c s) = if is_sign c then s else String.◌∷◌ c s

-- Whether `float` reads the text.
unfoldable pub is_float : String → Bool
unfolding float_from unsigned strip lower
is_float s =
    let t = strip s in
    float_from at_start t || contains ("inf" ∷ "infinity" ∷ "nan" ∷ []) (lower (unsigned t))

-- `s.replace(",", "")`
drop_commas : String → String
drop_commas String.[] = String.[]
drop_commas (String.◌∷◌ c s) =
    let rest = drop_commas s in if is_comma c then rest else String.◌∷◌ c rest

unfoldable pub looks_numeric : String → Bool
unfolding drop_commas is_float strip
looks_numeric s = let t = drop_commas (strip s) in if t == "" then false else is_float t

-- `=`, `+`, `-`, `@`, tab and carriage return
abbrev pub is_trigger : Char → Bool
is_trigger c =
    eqb (code c) 61
    || eqb (code c) 43
    || eqb (code c) 45
    || eqb (code c) 64
    || eqb (code c) 9
    || eqb (code c) 13

abbrev pub starts_formula : String → Bool
starts_formula String.[] = false
starts_formula (String.◌∷◌ c s) = is_trigger c

abbrev pub defuse_text : String → String
defuse_text s = if starts_formula s && not (looks_numeric s) then String.◌∷◌ "'" s else s

unfoldable pub defuse : Cell → Cell
unfolding looks_numeric
defuse (text s) = text (defuse_text s)
defuse c = c

-- What the writer writes of a cell.
abbrev pub cell_text : Cell → String
cell_text missing = ""
cell_text (text s) = s
cell_text (other s) = s

abbrev pub defused : Cell → String
defused c = cell_text (defuse c)

-- The fields of a row, by the keys of the header.
abbrev pub row_fields : Dict String → Dict Cell → List String
row_fields header_map row = map (λ k. defused (or_value (get row k) missing)) (keys header_map)

unfoldable pub render_csv : List (Dict Cell) → Dict String → String
unfolding defuse get write_rows
render_csv rows header_map = write_rows (values header_map ∷ map (row_fields header_map) rows)

-- `SafeWriter.writerows`
unfoldable pub safe_rows : List (List Cell) → String
unfolding defuse write_rows
safe_rows rows = write_rows (map (λ row. map defused row) rows)

-- `int(…)`, where the setting is missing or not a number the default, and 0 for a negative number,
-- which means no limit as well
unfoldable pub max_export_rows : Dict String → ℕ
unfolding read_int get
max_export_rows env =
    or_value (read_int (or_value (get env "MORI_MAX_EXPORT_ROWS") "100000")) 100000

unfoldable pub cap_rows : Dict String → List (Dict Cell) → List (Dict Cell) × Bool
unfolding max_export_rows
cap_rows env rows =
    let cap = max_export_rows env in
    if ltb 0 cap && ltb cap (length rows) then (take cap rows, true) else (rows, false)

-- The body of the download, and whether it is cut off.
unfoldable pub csv_streaming_response : Dict String → List (Dict Cell) → Dict String → String × Bool
unfolding cap_rows render_csv
csv_streaming_response env rows header_map =
    let (capped, truncated) = cap_rows env rows in (render_csv capped header_map, truncated)

numeric_runs :
    (looks_numeric "-1,234.5" ≡ true)
    × (looks_numeric "+1e-3" ≡ true)
    × (looks_numeric "-inf" ≡ true)
    × (looks_numeric "-1_000" ≡ true)
    × (looks_numeric "-1+2" ≡ false)
    × (looks_numeric "-" ≡ false)
    × (looks_numeric "," ≡ false)
unfolding looks_numeric
numeric_runs = (refl, refl, refl, refl, refl, refl, refl)
